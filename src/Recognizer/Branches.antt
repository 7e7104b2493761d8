-- ===== src/Recognizer/Branches.antt =====
-- The fuzzy and the binary branch of ProcessMatchResults (src/ident/Recognizer.cpp) return, and give
-- results where those are due.
use mathlib.Core.Path.{subst}
use audioneex.Prelude.{
  ℕ, ◌<◌, ◌≡◌, ◌≢◌, refl, sym, ap, ◌∙◌, Bool, true, false, not, ◌&&◌, ◌==◌, if◌then◌else◌, Outcome,
  length, arith, Bool-cases, ◌⊎◌, inl, inr, Holds, Holds-map,
}
use audioneex.AudioBlock.{FloatOps}
use audioneex.Classifier.{DoubleOps}
use audioneex.Results.{get_top}
use audioneex.Recognizer.{
  Conversions, Fingerprinter, IdType, MatcherInterface, Recognizer, nought, max_id_time, note_ties,
  nulled, confidence_of, do_classification, classify_ties,
}
use audioneex.Recognizer.Processing.{
  at_least, note_matches, process_fuzzy, process_binary, process_by_type, has_matches,
  score_overflow,
}
use audioneex.Recognizer.Kept.{
  Kept, label_at, same, Kept-trans, fill_results-Kept, fill_results-matcher,
}
use audioneex.Recognizer.Returning

true-ne-false : true ≢ false
true-ne-false e = cc

-- The test before the flush fails although the time has passed.
left_over :
    {processed : ℕ} {late : Bool} (n : ℕ)
    → processed ≢ 0
    → late ≡ true
    → (not (processed == 0) && (late && n == 0)) ≡ false
    → 0 < n
left_over n p l e = ground (arith, p)

valid-cases :
    (t : IdType)
    → t ≢ IdType.other_identification
    → (t ≡ IdType.fuzzy_identification) ⊎ (t ≡ IdType.binary_identification)
valid-cases IdType.fuzzy_identification v = inl refl
valid-cases IdType.binary_identification v = inr refl
valid-cases IdType.other_identification v = absurd (v refl)

not_both : {t : IdType} → t ≡ IdType.fuzzy_identification → t ≡ IdType.binary_identification → ⊥
not_both e e' = cc

module _ {F D : Type 0} (o : FloatOps F) (od : DoubleOps D) (cv : Conversions F D)
    (m : MatcherInterface F) (fp : Fingerprinter F) where
  -- Results are due at the time `t`: the maximum time has passed in a binary identification that has
  -- processed audio, or a fuzzy one has no matches and its time alone is no reason to go on listening.
  abbrev pub DueAt : D → ℕ → Recognizer o od cv m fp → Type 0
  DueAt t processed st =
      ((st.id_type ≡ IdType.binary_identification)
        × (processed ≢ 0)
        × (at_least o od cv m fp t (cv.widen (max_id_time o od cv m fp)) ≡ true))
      ⊎ ((st.id_type ≡ IdType.fuzzy_identification)
          × (has_matches o od cv m fp processed (m.results st.matcher) ≡ false)
          × (label_at o od cv m fp (nought o od cv m fp) (cv.narrow t) st ≢ 3))

  -- The time that matches are classified by.
  abbrev pub clock : Recognizer o od cv m fp → D
  clock st =
      if score_overflow o od cv m fp (m.results st.matcher)
      then cv.widen (max_id_time o od cv m fp)
      else st.id_time

module _ {F D : Type 0} (o : FloatOps F) (od : DoubleOps D) (cv : Conversions F D)
    (m : MatcherInterface F) (fp : Fingerprinter F) (total : Bool) (G : m.State → Type 0)
    (f : Recognizer o od cv m fp → Outcome (Recognizer o od cv m fp))
    (f_returns : (st : Recognizer o od cv m fp)
      → st.id_type ≢ IdType.other_identification
      → G st.matcher
      → Holds total
          (λ (st' : Recognizer o od cv m fp). Kept o od cv m fp st st' × G st'.matcher)
          (f st)) where
  abbrev R : Type 0
  R = Recognizer o od cv m fp

  abbrev After : R → R → Type 0
  After st st' = Kept o od cv m fp st st' × G st'.matcher

  note_matches-Kept :
      (processed : ℕ) (st : R)
      → Kept o od cv m fp st (note_matches o od cv m fp processed st)
        × ((note_matches o od cv m fp processed st).matcher ≡ st.matcher)
  unfolding note_matches
  note_matches-Kept processed st =
      let r = m.results st.matcher in
      let conf = confidence_of o od cv m fp r in
      let noted : R = record st {
        match_acc = note_ties o od cv m fp conf (get_top 1 r) st.match_acc;
      } in
      let k = same o od cv m fp st noted refl in
      let (k', pos) = fill_results-Kept o od cv m fp 2 noted in
      elim (Bool-cases (has_matches o od cv m fp processed r)) [
        | inr no_matches ↦ rw no_matches (same o od cv m fp st st refl, refl)
        | inl some_matches ↦
            elim (Bool-cases (
              o.at_most st.binary_id_threshold conf
              && at_least o od cv m fp st.id_time (cv.widen st.binary_id_min_time))) [
                | inl sure ↦
                    rw (some_matches, sure)
                      (Kept-trans o od cv m fp k k', fill_results-matcher o od cv m fp 2 noted)
                | inr unsure ↦ rw (some_matches, unsure) (k, refl)
              ]
      ]

  unfoldable pub Result : R → Type 0 → R → Type 0
  Result st due st' = After st st' × (due → 0 < length st'.id_matches)

  -- The premise of each branch, for a reason `Due` to have results.
  process_fuzzy-Result :
      (processed : ℕ) (dt : F) (st : R) (Due : Type 0)
      → (Due
          → (has_matches o od cv m fp processed (m.results st.matcher) ≡ false)
            × (label_at o od cv m fp (nought o od cv m fp) (cv.narrow st.id_time) st ≢ 3))
      → st.id_type ≢ IdType.other_identification
      → G st.matcher
      → Holds total (Result st Due) (process_fuzzy o od cv m fp f processed dt st)
  unfolding process_fuzzy Result
  process_fuzzy-Result processed dt st Due why v g =
      let r = m.results st.matcher in
      elim (Bool-cases (has_matches o od cv m fp processed r)) [
        | inl some_matches ↦ rw some_matches (
            Holds-map total (After st) (Result st Due)
              (classify_ties o od cv m fp f (confidence_of o od cv m fp r) dt (get_top 1 r) st)
              (λ st' a. (a, λ due. absurd (true-ne-false (sym some_matches ∙ (why due).0))))
              (Returning.classify_ties-After o od cv m fp total G f f_returns
                (confidence_of o od cv m fp r) dt (get_top 1 r) st v g))
        | inr no_matches ↦ rw no_matches (
            Holds-map total
              (Returning.Classified o od cv m fp total G f f_returns (nought o od cv m fp)
                (cv.narrow st.id_time) st)
              (Result st Due)
              (do_classification o od cv m fp f (nought o od cv m fp) (cv.narrow st.id_time) st)
              (λ st' a. (a.0, λ due. a.1 (why due).1))
              (Returning.do_classification-Classified o od cv m fp total G f f_returns
                (nought o od cv m fp) (cv.narrow st.id_time) st v g))
      ]

  process_binary-Result :
      (processed : ℕ) (st : R) (Due : Type 0)
      → (Due
          → (processed ≢ 0)
            × (at_least o od cv m fp st.id_time (cv.widen (max_id_time o od cv m fp)) ≡ true))
      → st.id_type ≢ IdType.other_identification
      → G st.matcher
      → Holds total (Result st Due) (process_binary o od cv m fp f processed st)
  unfolding process_binary Result
  process_binary-Result processed st Due why v g =
      let st1 = note_matches o od cv m fp processed st in
      let (k, same_matcher) = note_matches-Kept processed st in
      let g1 : G st1.matcher = subst G (sym same_matcher) g in
      elim (Bool-cases (
        not (processed == 0)
        && (at_least o od cv m fp st1.id_time (cv.widen (max_id_time o od cv m fp))
            && length st1.id_matches == 0))) [
              | inl flushed ↦ rw flushed (
                  Holds-map total (Returning.Found o od cv m fp total G f f_returns st)
                    (Result st Due) (nulled o od cv m fp (f st1)) (λ st' a. (a.0, λ _. a.1))
                    (Returning.nulled-Found o od cv m fp total G f f_returns st st1 k
                      (λ e. v (sym k.type_same ∙ e)) g1))
              | inr kept ↦ rw kept (
                (k, g1),
                λ due.
                    left_over (length st1.id_matches) (why due).0
                      (ap (λ (t : D). at_least o od cv m fp t (cv.widen (max_id_time o od cv m fp)))
                          k.time_same
                        ∙ (why due).1)
                      kept,
              )
            ]

  process_by_type-fuzzy :
      (processed : ℕ) (dt : F) (st : R)
      → st.id_type ≡ IdType.fuzzy_identification
      → process_by_type o od cv m fp f processed dt st
        ≡ process_fuzzy o od cv m fp f processed dt st
  unfolding process_by_type
  process_by_type-fuzzy processed dt st e = rw e refl

  process_by_type-binary :
      (processed : ℕ) (dt : F) (st : R)
      → st.id_type ≡ IdType.binary_identification
      → process_by_type o od cv m fp f processed dt st ≡ process_binary o od cv m fp f processed st
  unfolding process_by_type
  process_by_type-binary processed dt st e = rw e refl

  pub process_by_type-Result :
      (processed : ℕ) (dt : F) (st : R)
      → st.id_type ≢ IdType.other_identification
      → G st.matcher
      → Holds total
          (Result st (DueAt o od cv m fp st.id_time processed st))
          (process_by_type o od cv m fp f processed dt st)
  process_by_type-Result processed dt st v g =
      let Due : Type 0 = DueAt o od cv m fp st.id_time processed st in
      elim (valid-cases st.id_type v) [
        | inl fuzzy ↦
            subst (Holds total (Result st Due)) (sym (process_by_type-fuzzy processed dt st fuzzy))
              (process_fuzzy-Result processed dt st Due
                (λ due. elim due [ inl b ↦ absurd (not_both fuzzy b.0) | inr z ↦ (z.1, z.2) ]) v g)
        | inr binary ↦
            subst (Holds total (Result st Due))
              (sym (process_by_type-binary processed dt st binary))
              (process_binary-Result processed st Due
                (λ due. elim due [ inl b ↦ (b.1, b.2) | inr z ↦ absurd (not_both z.0 binary) ]) v g)
      ]
