-- ===== src/Recognizer/Processing.antt =====
-- ProcessMatchResults (src/ident/Recognizer.cpp).
use audioneex.Prelude.{
  ℕ, Bool, not, ◌&&◌, ◌==◌, leb, if◌then◌else◌, Outcome, ok, err, ◌>>=◌, length, invalid_parameter,
}
use audioneex.AudioBlock.{FloatOps}
use audioneex.Classifier.{DoubleOps, Label, number}
use audioneex.Results.{MatchResults, rank, get_top, get_top_score}
use audioneex.Recognizer.{
  Conversions, Fingerprinter, IdType, MatcherInterface, Recognizer, classify_ties, confidence_of,
  do_classification, fill_results, max_id_time, note_ties, nought, nulled,
}

module _ {F D : Type 0} (o : FloatOps F) (od : DoubleOps D) (cv : Conversions F D)
    (m : MatcherInterface F) (fp : Fingerprinter F) where
  abbrev pub R : Type 0
  R = Recognizer o od cv m fp

  -- Whether there are matches to look at.
  unfoldable pub has_matches : ℕ → MatchResults → Bool
  has_matches processed r = not (processed == 0) && leb 1 (length r.top_k)

  unfoldable pub process_fuzzy : (R → Outcome R) → ℕ → F → R → Outcome R
  unfolding has_matches classify_ties confidence_of get_top do_classification
  process_fuzzy flush processed dt st =
      let r = m.results st.matcher in
      if has_matches processed r
      then classify_ties o od cv m fp flush (confidence_of o od cv m fp r) dt (get_top 1 r) st
      else do_classification o od cv m fp flush (nought o od cv m fp) (cv.narrow st.id_time) st

  -- `a >= b` on doubles that are numbers.
  abbrev pub at_least : D → D → Bool
  at_least a b = not (od.less a b)

  -- The first `if` of the binary identification.
  unfoldable pub note_matches : ℕ → R → R
  unfolding has_matches note_ties confidence_of get_top fill_results
  note_matches processed st =
      let r = m.results st.matcher in
      let conf = confidence_of o od cv m fp r in
      let noted : R = record st {
        match_acc = note_ties o od cv m fp conf (get_top 1 r) st.match_acc;
      } in
      let found : R =
        if o.at_most st.binary_id_threshold conf
          && at_least st.id_time (cv.widen st.binary_id_min_time)
        then fill_results o od cv m fp (number od Label.identified) noted
        else noted in
      if has_matches processed r then found else st

  unfoldable pub process_binary : (R → Outcome R) → ℕ → R → Outcome R
  unfolding note_matches nulled
  process_binary flush processed st =
      let st1 = note_matches processed st in
      if not (processed == 0)
        && (at_least st1.id_time (cv.widen (max_id_time o od cv m fp))
            && length st1.id_matches == 0)
      then nulled o od cv m fp (flush st1)
      else ok st1

  -- In ProcessMatchResults, 2137483647 is the largest int less 10E6.
  unfoldable pub score_overflow : MatchResults → Bool
  unfolding get_top_score rank
  score_overflow r = leb (rank 2137483647) (rank (get_top_score 1 r))

  unfoldable pub process_by_type : (R → Outcome R) → ℕ → F → R → Outcome R
  unfolding process_fuzzy process_binary
  process_by_type flush processed dt st = elim st.id_type [
    | IdType.fuzzy_identification ↦ process_fuzzy flush processed dt st
    | IdType.binary_identification ↦ process_binary flush processed st
    | IdType.other_identification ↦ err invalid_parameter
  ]

  unfoldable pub process_match_results : (R → Outcome R) → ℕ → F → R → Outcome R
  unfolding score_overflow process_by_type
  process_match_results flush processed dt st =
      let overflow = score_overflow (m.results st.matcher) in
      let timed : R =
        if overflow then record st { id_time = cv.widen (max_id_time o od cv m fp) } else st in
      let done : Outcome R = process_by_type flush processed dt timed >>= λ st1.
      ok (if overflow then record st1 { id_time = st.id_time } else st1) in
      if length st.id_matches == 0 then done else ok st
