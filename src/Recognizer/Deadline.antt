-- ===== src/Recognizer/Deadline.antt =====
-- ProcessMatchResults (src/ident/Recognizer.cpp) returns, and gives results where those are due.
use audioneex.Prelude.{
  ℕ, ◌<◌, ◌≢◌, refl, Bool, true, false, ◌==◌, if◌then◌else◌, Outcome, ok, ◌>>=◌, length, arith,
  Bool-cases, inl, inr, Holds, >>=-Holds,
}
use audioneex.AudioBlock.{FloatOps}
use audioneex.Classifier.{DoubleOps}
use audioneex.Recognizer.{
  Conversions, Fingerprinter, IdType, MatcherInterface, Recognizer, max_id_time,
}
use audioneex.Recognizer.Processing.{process_by_type, process_match_results, score_overflow}
use audioneex.Recognizer.Kept.{Kept, same}
use audioneex.Recognizer.Branches.{DueAt, clock, Result, process_by_type-Result}

module _ {F D : Type 0} (o : FloatOps F) (od : DoubleOps D) (cv : Conversions F D)
    (m : MatcherInterface F) (fp : Fingerprinter F) (total : Bool) (G : m.State → Type 0)
    (f : Recognizer o od cv m fp → Outcome (Recognizer o od cv m fp))
    (f_returns : (st : Recognizer o od cv m fp)
      → st.id_type ≢ IdType.other_identification
      → G st.matcher
      → Holds total
          (λ (st' : Recognizer o od cv m fp). Kept o od cv m fp st st' × G st'.matcher)
          (f st)) where
  abbrev R : Type 0
  R = Recognizer o od cv m fp

  -- The time is what it was before.
  restore :
      {t : D} (st st1 : R)
      → Kept o od cv m fp (record st { id_time = t }) st1
      → Kept o od cv m fp st (record st1 { id_time = st.id_time })
  restore st st1 k = record {
    type_same = k.type_same;
    mode_same = k.mode_same;
    threshold_same = k.threshold_same;
    min_time_same = k.min_time_same;
    time_same = refl;
    marked = k.marked;
    stays = k.stays;
  }

  -- With the time set to the maximum or not.
  timed-Result :
      (overflow : Bool) (processed : ℕ) (dt : F) (st : R)
      → st.id_type ≢ IdType.other_identification
      → G st.matcher
      → Holds total
          (Result o od cv m fp total G f f_returns st (
            DueAt o od cv m fp
              (if overflow then cv.widen (max_id_time o od cv m fp) else st.id_time)
              processed
              st))
          (process_by_type o od cv m fp f processed dt
              (if overflow then record st { id_time = cv.widen (max_id_time o od cv m fp) } else st)
            >>= λ st1. ok (if overflow then record st1 { id_time = st.id_time } else st1))
  unfolding Result
  timed-Result true processed dt st v g =
      let t = cv.widen (max_id_time o od cv m fp) in
      let timed : R = record st { id_time = t } in
      >>=-Holds total
        (Result o od cv m fp total G f f_returns timed (DueAt o od cv m fp t processed timed))
        (Result o od cv m fp total G f f_returns st (DueAt o od cv m fp t processed st))
        (process_by_type o od cv m fp f processed dt timed) _
        (process_by_type-Result o od cv m fp total G f f_returns processed dt timed v g)
        λ st1 a. ((restore st st1 a.0.0, a.0.1), a.1)
  timed-Result false processed dt st v g =
      >>=-Holds total
        (Result o od cv m fp total G f f_returns st (DueAt o od cv m fp st.id_time processed st))
        (Result o od cv m fp total G f f_returns st (DueAt o od cv m fp st.id_time processed st))
        (process_by_type o od cv m fp f processed dt st) _
        (process_by_type-Result o od cv m fp total G f f_returns processed dt st v g) λ st1 a. a

  pub process_match_results-Result :
      (processed : ℕ) (dt : F) (st : R)
      → st.id_type ≢ IdType.other_identification
      → G st.matcher
      → Holds total
          (λ (st' : R).
            (Kept o od cv m fp st st' × G st'.matcher)
            × (DueAt o od cv m fp (clock o od cv m fp st) processed st → 0 < length st'.id_matches))
          (process_match_results o od cv m fp f processed dt st)
  unfolding process_match_results Result
  process_match_results-Result processed dt st v g = elim (Bool-cases (length st.id_matches == 0)) [
    | inr have ↦ rw have ((same o od cv m fp st st refl, g), λ due. ground arith)
    | inl have_none ↦
        rw have_none
          (timed-Result (score_overflow o od cv m fp (m.results st.matcher)) processed dt st v g)
  ]
