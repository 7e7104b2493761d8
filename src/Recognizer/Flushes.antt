-- ===== src/Recognizer/Flushes.antt =====
-- Flush and Identify (src/ident/Recognizer.cpp), whose calls of one another come to an end.
use audioneex.Prelude.{
  ℕ, suc, ◌<◌, ◌≡◌, ◌≢◌, refl, List, true, ◌==◌, none, some, ok, length, arith, Bool-cases, inl,
  inr, Holds, >>=-Holds, Holds-map, Holds-ok, ==-ne,
}
use audioneex.AudioBlock.{FloatOps, AudioBlock, set_data, resize}
use audioneex.Classifier.{DoubleOps}
use audioneex.Recognizer.{Conversions, Fingerprinter, IdType, MatcherInterface, Recognizer}
use audioneex.Recognizer.Processing.{process_match_results}
use audioneex.Recognizer.Calls.{flush, flush_fuel, identify, get_results}
use audioneex.Recognizer.Kept.{Kept, same, Kept-trans}
use audioneex.Recognizer.Branches.{DueAt, clock}
use audioneex.Recognizer.Deadline.{process_match_results-Result}

-- What the recognizer relies on of the matcher: its flush leaves nothing for a second one.
pub record MatcherLaws {F : Type 0} (m : MatcherInterface F) : Type 0 where
  pub flush_at_once :
      (st st' : m.State) (n : ℕ) → m.flush st ≡ ok (st', n) → m.flush st' ≡ ok (st', 0)

module _ {F D : Type 0} (o : FloatOps F) (od : DoubleOps D) (cv : Conversions F D)
    (m : MatcherInterface F) (fp : Fingerprinter F) where
  abbrev R : Type 0
  R = Recognizer o od cv m fp

  -- The matcher has nothing to flush.
  abbrev pub Idle : m.State → Type 0
  Idle ms = m.flush ms ≡ ok (ms, 0)

  -- Its flush returns.
  abbrev pub Flushes : m.State → Type 0
  Flushes ms = (r : m.State × ℕ) × (m.flush ms ≡ ok r)

  -- With nothing to flush, nothing happens, whatever fuel is left.
  flush-Idle : (fuel : ℕ) (st : R) → Idle st.matcher → flush o od cv m fp (suc fuel) st ≡ ok st
  unfolding flush
  flush-Idle fuel st e = rw e refl

  flush_one :
      (st : R)
      → st.id_type ≢ IdType.other_identification
      → Idle st.matcher
      → Holds true
          (λ (st' : R). Kept o od cv m fp st st' × Idle st'.matcher)
          (flush o od cv m fp 1 st)
  flush_one st v e = rw (flush-Idle 0 st e) (same o od cv m fp st st refl, e)

  -- The second flush is one of an idle matcher.
  flush_two :
      MatcherLaws m
      → (st : R) → st.id_type ≢ IdType.other_identification
      → Flushes st.matcher
      → Holds true
          (λ (st' : R). Kept o od cv m fp st st' × Idle st'.matcher)
          (flush o od cv m fp 2 st)
  unfolding flush
  flush_two laws st v (r, e) =
      let st1 : R = record st { matcher = r.0 } in
      let k = same o od cv m fp st st1 refl in
      let idle = laws.flush_at_once st.matcher r.0 r.1 e in
      let dt = o.sub (m.match_time r.0) (m.match_time st.matcher) in
      rw e (elim (Bool-cases (r.1 == 0)) [
        | inl nothing ↦ rw nothing (k, idle)
        | inr some_lfs ↦ rw some_lfs (
            Holds-map true _ _
              (process_match_results o od cv m fp (flush o od cv m fp 1) r.1 dt st1)
              (λ st2 a. (Kept-trans o od cv m fp k a.0.0, a.0.1))
              (process_match_results-Result o od cv m fp true Idle (flush o od cv m fp 1) flush_one
                r.1 dt st1 v idle))
      ])

  -- Where the matcher's flush returns and the identification type is valid, Flush returns within its
  -- fuel; the settings, the time and the form of the results are kept, results are not lost, and the
  -- matcher has nothing left to flush.
  pub flush-returns :
      MatcherLaws m
      → (st : R) → st.id_type ≢ IdType.other_identification
      → Flushes st.matcher
      → (st' : R) × (flush o od cv m fp flush_fuel st ≡ ok st')
        × Kept o od cv m fp st st'
        × Idle st'.matcher
  flush-returns laws st v fl =
      let (st', e, p) = Holds-ok _ (flush o od cv m fp 2 st) (flush_two laws st v fl) in
      (st', e, p.0, p.1)

  -- The recognizer when the matcher has processed a chunk of audio.
  abbrev pub matched : R → AudioBlock F F → m.State × ℕ → R
  matched st buffer ms = record st {
    audio_buffer = buffer;
    id_time = cv.add st.id_time (cv.widen buffer.duration);
    fingerprint = (fp.process buffer st.fingerprint).0;
    matcher = ms.0;
  }

  get_results-some : (st : R) → 0 < length st.id_matches → get_results o od cv m fp st ≢ none
  unfolding get_results
  get_results-some st h = ground arith

  -- Where the audio fits its buffer and the matcher's operations return, Identify returns within the fuel
  -- of Flush, adds the duration of the audio to the time, and gives results if they are due: after the
  -- maximum time in a binary identification that has processed audio, and in a fuzzy one without matches
  -- when the class of its time alone is not LISTENING.
  pub identify-returns :
      MatcherLaws m
      → (audio : List F) (nsamples : ℕ) (st : R) {buffer : AudioBlock F F} {ms : m.State × ℕ}
      → st.id_type ≢ IdType.other_identification
      → nsamples ≢ 0
      → set_data o audio nsamples st.audio_buffer ≡ ok buffer
      → m.process (fp.process buffer st.fingerprint).1 st.matcher ≡ ok ms
      → Flushes ms.0
      → (st' : R) × (identify o od cv m fp (some audio) nsamples st ≡ ok st')
        × (st'.id_time ≡ cv.add st.id_time (cv.widen buffer.duration))
        × (DueAt o od cv m fp
              (clock o od cv m fp (matched st buffer ms))
              ms.1
              (matched st buffer ms)
            → get_results o od cv m fp st' ≢ none)
  unfolding identify
  identify-returns laws audio nsamples st {buffer} {ms} v pos e e' fl =
      let st1 = matched st buffer ms in
      let P : R → Type 0 = λ st'.
        (st'.id_time ≡ st1.id_time)
        × (DueAt o od cv m fp (clock o od cv m fp st1) ms.1 st1
            → get_results o od cv m fp st' ≢ none) in
      let ran =
        process_match_results-Result o od cv m fp true Flushes (flush o od cv m fp 2)
          (λ s v' g.
            Holds-map true _ _ (flush o od cv m fp 2 s) (λ s' a. (a.0, ((s'.matcher, 0), a.1)))
              (flush_two laws s v' g))
          ms.1 buffer.duration st1 v fl in
      let (st', e2, p) = Holds-ok P (identify o od cv m fp (some audio) nsamples st) (
        rw (==-ne nsamples 0 pos, e, e')
          (>>=-Holds true _ P
            (process_match_results o od cv m fp (flush o od cv m fp 2) ms.1 buffer.duration st1) _
            ran
            (λ st2 a. (
              a.0.0.time_same,
              λ d.
                  get_results-some (record st2 { audio_buffer = resize o 0 st2.audio_buffer })
                    (a.1 d),
            )))) in
      (st', e2, p.0, p.1)
