-- ===== src/Recognizer/Safety.antt =====
-- What holds of a recognizer after any sequence of calls (src/ident/Recognizer.cpp).
use mathlib.Core.Path.{subst}
use audioneex.Prelude.{
  refl, false, Option, none, some, Bool-cases, inl, inr, Holds, >>=-Holds, Holds-any, Holds-known,
}
use audioneex.AudioBlock.{FloatOps, AudioBlock, create}
use audioneex.Classifier.{DoubleOps, Mode}
use audioneex.Recognizer.{
  Conversions, Fingerprinter, IdType, MatcherInterface, Recognizer, max_id_time,
}
use audioneex.Recognizer.Calls.{
  flush, flush_fuel, half, identify, outside, set_audio_buffer_size, set_binary_id_min_time,
  set_binary_id_threshold, set_identification_mode, set_identification_type,
}
use audioneex.Recognizer.Calls
use audioneex.Recognizer.Session.{
  Step, Reach, IsRecognizer, Settled-IsRecognizer, Kept-Settled, flush-Kept, identify-Settled,
}

module _ {F D : Type 0} (o : FloatOps F) (od : DoubleOps D) (cv : Conversions F D)
    (m : MatcherInterface F) (fp : Fingerprinter F) where
  abbrev R : Type 0
  R = Recognizer o od cv m fp

  abbrev Sound : R → Type 0
  Sound = IsRecognizer o od cv m fp

  set_identification_type-IsRecognizer :
      (type : IdType) (st : R)
      → Sound st
      → Holds false Sound (set_identification_type o od cv m fp type st)
  unfolding set_identification_type
  set_identification_type-IsRecognizer IdType.fuzzy_identification st h = record {
    type_valid = λ e. cc;
    threshold_valid = h.threshold_valid;
    min_time_valid = h.min_time_valid;
    marked = h.marked;
  }
  set_identification_type-IsRecognizer IdType.binary_identification st h = record {
    type_valid = λ e. cc;
    threshold_valid = h.threshold_valid;
    min_time_valid = h.min_time_valid;
    marked = h.marked;
  }
  set_identification_type-IsRecognizer IdType.other_identification st h = tt

  set_identification_mode-IsRecognizer :
      (mode : Option Mode) (st : R)
      → Sound st
      → Holds false Sound (set_identification_mode o od cv m fp mode st)
  unfolding set_identification_mode
  set_identification_mode-IsRecognizer none st h = tt
  set_identification_mode-IsRecognizer (some mode) st h = record {
    type_valid = h.type_valid;
    threshold_valid = h.threshold_valid;
    min_time_valid = h.min_time_valid;
    marked = h.marked;
  }

  set_binary_id_threshold-IsRecognizer :
      (value : F) (st : R)
      → Sound st
      → Holds false Sound (set_binary_id_threshold o od cv m fp value st)
  unfolding set_binary_id_threshold
  set_binary_id_threshold-IsRecognizer value st h =
      elim (Bool-cases (outside o od cv m fp (half o od cv m fp) (o.of_size 1) value)) [
        | inl e ↦ rw e tt
        | inr e ↦ rw e (record {
          type_valid = h.type_valid;
          threshold_valid = e;
          min_time_valid = h.min_time_valid;
          marked = h.marked;
        })
      ]

  set_binary_id_min_time-IsRecognizer :
      (value : F) (st : R)
      → Sound st
      → Holds false Sound (set_binary_id_min_time o od cv m fp value st)
  unfolding set_binary_id_min_time
  set_binary_id_min_time-IsRecognizer value st h =
      elim (Bool-cases (outside o od cv m fp (o.of_size 0) (max_id_time o od cv m fp) value)) [
        | inl e ↦ rw e tt
        | inr e ↦ rw e (record {
          type_valid = h.type_valid;
          threshold_valid = h.threshold_valid;
          min_time_valid = e;
          marked = h.marked;
        })
      ]

  set_audio_buffer_size-IsRecognizer :
      (fresh : AudioBlock F F) (seconds : F) (st : R)
      → Sound st
      → Holds false Sound (set_audio_buffer_size o od cv m fp fresh seconds st)
  unfolding set_audio_buffer_size
  set_audio_buffer_size-IsRecognizer fresh seconds st h =
      elim (Bool-cases (o.less seconds (o.of_size 1))) [
        | inl e ↦ rw e tt
        | inr e ↦ rw e (
            >>=-Holds false (λ _. Unit {0}) Sound
              (create o (o.of_size 0) (o.to_size (o.mul (o.of_size 11025) seconds))
                (o.of_size 11025) 1 (some 0) fresh)
              _ (Holds-any _)
              λ b _. record {
                type_valid = h.type_valid;
                threshold_valid = h.threshold_valid;
                min_time_valid = h.min_time_valid;
                marked = h.marked;
              })
      ]

  Step-IsRecognizer : {st st' : R} → Step o od cv m fp st st' → Sound st → Sound st'
  unfolding Calls.reset
  Step-IsRecognizer {st} (Step.sets_type type e) h =
      Holds-known false Sound _ e (set_identification_type-IsRecognizer type st h)
  Step-IsRecognizer {st} (Step.sets_mode mode e) h =
      Holds-known false Sound _ e (set_identification_mode-IsRecognizer mode st h)
  Step-IsRecognizer {st} (Step.sets_threshold value e) h =
      Holds-known false Sound _ e (set_binary_id_threshold-IsRecognizer value st h)
  Step-IsRecognizer {st} (Step.sets_min_time value e) h =
      Holds-known false Sound _ e (set_binary_id_min_time-IsRecognizer value st h)
  Step-IsRecognizer {st} (Step.sets_buffer fresh seconds e) h =
      Holds-known false Sound _ e (set_audio_buffer_size-IsRecognizer fresh seconds st h)
  Step-IsRecognizer {st} (Step.sets_matcher ms e) h = subst Sound e (record {
    type_valid = h.type_valid;
    threshold_valid = h.threshold_valid;
    min_time_valid = h.min_time_valid;
    marked = h.marked;
  })
  Step-IsRecognizer {st} {st'} (Step.identifies audio n e) h =
      Settled-IsRecognizer o od cv m fp st st'
        (Holds-known false _ _ e (identify-Settled o od cv m fp audio n st h.type_valid)) h
  Step-IsRecognizer {st} {st'} (Step.flushes e) h =
      Settled-IsRecognizer o od cv m fp st st'
        (Kept-Settled o od cv m fp st st'
          (Holds-known false _ _ e (flush-Kept o od cv m fp flush_fuel st h.type_valid)).0)
        h
  Step-IsRecognizer {st} (Step.resets e) h = subst Sound e (record {
    type_valid = h.type_valid;
    threshold_valid = h.threshold_valid;
    min_time_valid = h.min_time_valid;
    marked = inl refl;
  })

  -- After any sequence of calls that return, on a recognizer whose settings are valid, the identification
  -- type is one of the two, both thresholds are in their ranges, and the results are none or end in the
  -- null element.
  pub Reach-IsRecognizer :
      {st st' : R}
      → IsRecognizer o od cv m fp st
      → Reach o od cv m fp st st'
      → IsRecognizer o od cv m fp st'
  Reach-IsRecognizer h Reach.here = h
  Reach-IsRecognizer h (Reach.more r step) = Step-IsRecognizer step (Reach-IsRecognizer h r)
