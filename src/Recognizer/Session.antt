-- ===== src/Recognizer/Session.antt =====
-- Any sequence of calls of the public methods of RecognizerImpl (src/ident/Recognizer.cpp).
use audioneex.Prelude.{
  ℕ, zero, suc, ◌≡◌, ◌≢◌, refl, sym, ap, ◌∙◌, List, false, ◌==◌, Option, none, some, ok, Bool-cases,
  inl, inr, Holds, >>=-Holds, Holds-map, Holds-any,
}
use audioneex.AudioBlock.{FloatOps, AudioBlock, set_data}
use audioneex.Classifier.{DoubleOps, Mode}
use audioneex.Recognizer.{
  Conversions, Fingerprinter, IdType, MatcherInterface, Recognizer, max_id_time,
}
use audioneex.Recognizer.Processing.{process_match_results}
use audioneex.Recognizer.Calls
use audioneex.Recognizer.Calls.{
  flush, flush_fuel, half, identify, outside, set_audio_buffer_size, set_binary_id_min_time,
  set_binary_id_threshold, set_identification_mode, set_identification_type,
}
use audioneex.Recognizer.Kept.{Kept, Kept-trans, Marked, same}
use audioneex.Recognizer.Deadline.{process_match_results-Result}

module _ {F D : Type 0} (o : FloatOps F) (od : DoubleOps D) (cv : Conversions F D)
    (m : MatcherInterface F) (fp : Fingerprinter F) where
  abbrev R : Type 0
  R = Recognizer o od cv m fp

  -- A call that returns; what the setters of the matcher change is its state.
  pub data Step (st st' : R) : Type 0 where
    sets_type :
        (type : IdType) → set_identification_type o od cv m fp type st ≡ ok st' → Step st st'
    sets_mode :
        (mode : Option Mode) → set_identification_mode o od cv m fp mode st ≡ ok st' → Step st st'
    sets_threshold :
        (value : F) → set_binary_id_threshold o od cv m fp value st ≡ ok st' → Step st st'
    sets_min_time :
        (value : F) → set_binary_id_min_time o od cv m fp value st ≡ ok st' → Step st st'
    sets_buffer :
        (fresh : AudioBlock F F) (seconds : F)
        → set_audio_buffer_size o od cv m fp fresh seconds st ≡ ok st'
        → Step st st'
    sets_matcher : (ms : m.State) → record st { matcher = ms } ≡ st' → Step st st'
    identifies :
        (audio : Option (List F)) (n : ℕ) → identify o od cv m fp audio n st ≡ ok st' → Step st st'
    flushes : flush o od cv m fp flush_fuel st ≡ ok st' → Step st st'
    resets : Calls.reset o od cv m fp st ≡ st' → Step st st'

  pub data Reach (st : R) : R → Type 0 where
    here : Reach st st
    more : {st1 st2 : R} → Reach st st1 → Step st1 st2 → Reach st st2

  -- The identification type and the thresholds are valid, and results end in the null element.
  pub record IsRecognizer (st : R) : Type 0 where
    pub type_valid : st.id_type ≢ IdType.other_identification
    pub threshold_valid :
        outside o od cv m fp (half o od cv m fp) (o.of_size 1) st.binary_id_threshold ≡ false
    pub min_time_valid :
        outside o od cv m fp (o.of_size 0) (max_id_time o od cv m fp) st.binary_id_min_time ≡ false
    pub marked : Marked o od cv m fp st.id_matches

  -- What a call of Flush or Identify that returns leaves alone.
  pub record Settled (st st' : R) : Type 0 where
    pub type_same : st'.id_type ≡ st.id_type
    pub threshold_same : st'.binary_id_threshold ≡ st.binary_id_threshold
    pub min_time_same : st'.binary_id_min_time ≡ st.binary_id_min_time
    pub results_marked : Marked o od cv m fp st.id_matches → Marked o od cv m fp st'.id_matches

  pub Settled-IsRecognizer : (st st' : R) → Settled st st' → IsRecognizer st → IsRecognizer st'
  Settled-IsRecognizer st st' k h = record {
    type_valid = λ e. h.type_valid (sym k.type_same ∙ e);
    threshold_valid =
        ap (outside o od cv m fp (half o od cv m fp) (o.of_size 1)) k.threshold_same
        ∙ h.threshold_valid;
    min_time_valid =
        ap (outside o od cv m fp (o.of_size 0) (max_id_time o od cv m fp)) k.min_time_same
        ∙ h.min_time_valid;
    marked = k.results_marked h.marked;
  }

  pub Kept-Settled : (st st' : R) → Kept o od cv m fp st st' → Settled st st'
  Kept-Settled st st' k = record {
    type_same = k.type_same;
    threshold_same = k.threshold_same;
    min_time_same = k.min_time_same;
    results_marked = k.marked;
  }

  pub flush-Kept :
      (fuel : ℕ) (st : R)
      → st.id_type ≢ IdType.other_identification
      → Holds false (λ (st' : R). Kept o od cv m fp st st' × Unit {0}) (flush o od cv m fp fuel st)
  unfolding flush
  flush-Kept zero st v = tt
  flush-Kept (suc fuel) st v =
      >>=-Holds false (λ _. Unit {0}) (λ (st' : R). Kept o od cv m fp st st' × Unit {0})
        (m.flush st.matcher) _ (Holds-any (m.flush st.matcher))
        λ r _.
          let st1 : R = record st { matcher = r.0 } in
          let k = same o od cv m fp st st1 refl in
          let dt = o.sub (m.match_time r.0) (m.match_time st.matcher) in
          elim (Bool-cases (r.1 == 0)) [
            | inl nothing ↦ rw nothing (k, tt)
            | inr some_lfs ↦ rw some_lfs (
                Holds-map false _ _
                  (process_match_results o od cv m fp (flush o od cv m fp fuel) r.1 dt st1)
                  (λ st2 a. (Kept-trans o od cv m fp k a.0.0, tt))
                  (process_match_results-Result o od cv m fp false (λ _. Unit {0})
                    (flush o od cv m fp fuel) (λ s v' _. flush-Kept fuel s v') r.1 dt st1 v tt))
          ]

  pub identify-Settled :
      (audio : Option (List F)) (n : ℕ) (st : R)
      → st.id_type ≢ IdType.other_identification
      → Holds false (Settled st) (identify o od cv m fp audio n st)
  unfolding identify
  identify-Settled none n st v = tt
  identify-Settled (some audio) n st v = elim (Bool-cases (n == 0)) [
    | inl nothing ↦ rw nothing (Kept-Settled st st (same o od cv m fp st st refl))
    | inr some_audio ↦ rw some_audio (
        >>=-Holds false (λ _. Unit {0}) (Settled st) (set_data o audio n st.audio_buffer) _
          (Holds-any (set_data o audio n st.audio_buffer))
          λ buffer _.
            >>=-Holds false (λ _. Unit {0}) (Settled st)
              (m.process (fp.process buffer st.fingerprint).1 st.matcher) _
              (Holds-any (m.process (fp.process buffer st.fingerprint).1 st.matcher))
              λ ms _.
                let st1 : R = record st {
                  audio_buffer = buffer;
                  id_time = cv.add st.id_time (cv.widen buffer.duration);
                  fingerprint = (fp.process buffer st.fingerprint).0;
                  matcher = ms.0;
                } in
                >>=-Holds false _ (Settled st)
                  (process_match_results o od cv m fp (flush o od cv m fp 2) ms.1 buffer.duration
                    st1)
                  _
                  (process_match_results-Result o od cv m fp false (λ _. Unit {0})
                    (flush o od cv m fp 2) (λ s v' _. flush-Kept 2 s v') ms.1 buffer.duration st1 v
                    tt)
                  λ st2 a. record {
                    type_same = a.0.0.type_same;
                    threshold_same = a.0.0.threshold_same;
                    min_time_same = a.0.0.min_time_same;
                    results_marked = a.0.0.marked;
                  })
  ]
