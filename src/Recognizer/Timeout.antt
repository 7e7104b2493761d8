-- ===== src/Recognizer/Timeout.antt =====
-- Identify (src/ident/Recognizer.cpp) when twenty seconds have passed.
use audioneex.Prelude.{
  ℕ, ◌≡◌, ◌≢◌, refl, sym, ◌∙◌, List, false, none, some, ok, arith, Bool-cases, inl, inr, ◌⊎◌,
}
use audioneex.AudioBlock.{FloatOps, AudioBlock, set_data}
use audioneex.Classifier.{DoubleOps, number, Label}
use audioneex.Classifier.Settled.{Numbers, process-low}
use audioneex.Recognizer.{
  Conversions, Fingerprinter, IdType, MatcherInterface, Recognizer, max_id_time, nought,
}
use audioneex.Recognizer.Processing.{has_matches, score_overflow}
use audioneex.Recognizer.Calls.{identify, get_results}
use audioneex.Recognizer.Kept.{label_at}
use audioneex.Recognizer.Branches.{DueAt, clock}
use audioneex.Recognizer.Flushes.{Flushes, MatcherLaws, matched, identify-returns}

module _ {F D : Type 0} (o : FloatOps F) (od : DoubleOps D) (cv : Conversions F D)
    (m : MatcherInterface F) (fp : Fingerprinter F) where
  abbrev R : Type 0
  R = Recognizer o od cv m fp

  -- What the code relies on of conversions: the constants 0 and 20 are the same as float and as double,
  -- and a double of 20 or more is not rounded below 20.
  pub record Times : Type 0 where
    pub zero_time : cv.widen (nought o od cv m fp) ≡ od.decimal 0 0
    pub max_time : cv.widen (max_id_time o od cv m fp) ≡ od.decimal 20 0
    pub keeps_late :
        (t : D)
        → od.less t (od.decimal 20 0) ≡ false
        → od.less (cv.widen (cv.narrow t)) (od.decimal 20 0) ≡ false

  module _ (num : Numbers od) (times : Times) where
    clock_late :
        (st : R)
        → od.less st.id_time (od.decimal 20 0) ≡ false
        → od.less (clock o od cv m fp st) (od.decimal 20 0) ≡ false
    clock_late st h = elim (Bool-cases (score_overflow o od cv m fp (m.results st.matcher))) [
      | inl e ↦ rw (e, times.max_time) (num.ordered.irreflexive (od.decimal 20 0))
      | inr e ↦ rw e h
    ]

    -- Without matches the class of a time of twenty seconds is UNIDENTIFIED.
    label_late :
        (t : D) (st : R)
        → od.less t (od.decimal 20 0) ≡ false
        → label_at o od cv m fp (nought o od cv m fp) (cv.narrow t) st
          ≡ number od Label.unidentified
    label_late t st h =
        process-low od num st.id_mode st.classifier (cv.widen (nought o od cv m fp))
          (cv.widen (cv.narrow t)) (times.keeps_late t h)
          (rw times.zero_time (num.decimal_less 55 2 0 0 (omega arith) (omega arith)))

    late_DueAt :
        (t : D) (n : ℕ) (st : R)
        → (st.id_type ≡ IdType.binary_identification)
          ⊎ ((st.id_type ≡ IdType.fuzzy_identification)
              × (has_matches o od cv m fp n (m.results st.matcher) ≡ false))
        → n ≢ 0
        → od.less t (od.decimal 20 0) ≡ false
        → DueAt o od cv m fp t n st
    late_DueAt t n st (inl b) processed h = inl (b, processed, rw (times.max_time, h) refl)
    late_DueAt t n st (inr (f, none_found)) processed h =
        inr
          (f, none_found, λ e. absurd (let l : 0 ≡ 3 = sym (label_late t st h) ∙ e in omega arith))

    -- Where the audio fits its buffer, the matcher's operations return and it has processed audio, and
    -- twenty seconds have been identified with this audio, Identify returns, and there are results: always
    -- in a binary identification, and in a fuzzy one that has found no matches.
    pub identify-timeout :
        MatcherLaws m
        → (audio : List F) (nsamples : ℕ) (st : R) {buffer : AudioBlock F F} {ms : m.State × ℕ}
        → (st.id_type ≡ IdType.binary_identification)
          ⊎ ((st.id_type ≡ IdType.fuzzy_identification)
              × (has_matches o od cv m fp ms.1 (m.results ms.0) ≡ false))
        → nsamples ≢ 0
        → ms.1 ≢ 0
        → set_data o audio nsamples st.audio_buffer ≡ ok buffer
        → m.process (fp.process buffer st.fingerprint).1 st.matcher ≡ ok ms
        → Flushes o od cv m fp ms.0
        → od.less (cv.add st.id_time (cv.widen buffer.duration)) (od.decimal 20 0) ≡ false
        → (st' : R) × (identify o od cv m fp (some audio) nsamples st ≡ ok st')
          × (get_results o od cv m fp st' ≢ none)
    identify-timeout laws audio nsamples st {buffer} {ms} type pos processed e e' fl late =
        let st1 = matched o od cv m fp st buffer ms in
        let (st', e2, _, due) =
          identify-returns o od cv m fp laws audio nsamples st (valid type) pos e e' fl in
        (st', e2, due (late_DueAt _ ms.1 st1 type processed (clock_late st1 late)))
      where
        valid :
            (st.id_type ≡ IdType.binary_identification)
              ⊎ ((st.id_type ≡ IdType.fuzzy_identification)
                  × (has_matches o od cv m fp ms.1 (m.results ms.0) ≡ false))
            → st.id_type ≢ IdType.other_identification
        valid (inl b) e = cc
        valid (inr (f, _)) e = cc
