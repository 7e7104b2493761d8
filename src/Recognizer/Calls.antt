-- ===== src/Recognizer/Calls.antt =====
-- The public methods of RecognizerImpl (src/ident/Recognizer.cpp).
use audioneex.Prelude.{
  ℕ, zero, suc, List, [], Bool, ◌||◌, ◌==◌, if◌then◌else◌, Option, none, some, Outcome, ok, err,
  stuck, ◌>>=◌, length, invalid_parameter,
}
use audioneex.AudioBlock.{FloatOps, AudioBlock, create, set_data, resize}
use audioneex.Classifier.{DoubleOps, Mode}
use audioneex.Recognizer.{
  Conversions, Fingerprinter, IdMatch, IdType, MatcherInterface, Recognizer, max_id_time,
}
use audioneex.Recognizer.Processing.{process_match_results}

-- A second call of Flush inside of it does nothing.
abbrev pub flush_fuel : ℕ
flush_fuel = 2

module _ {F D : Type 0} (o : FloatOps F) (od : DoubleOps D) (cv : Conversions F D)
    (m : MatcherInterface F) (fp : Fingerprinter F) where
  abbrev R : Type 0
  R = Recognizer o od cv m fp

  -- The setters that test their argument. An integer that is no mode is `none`.
  unfoldable pub set_identification_type : IdType → R → Outcome R
  set_identification_type IdType.other_identification st = err invalid_parameter
  set_identification_type type st = ok (record st { id_type = type })

  unfoldable pub set_identification_mode : Option Mode → R → Outcome R
  set_identification_mode none st = err invalid_parameter
  set_identification_mode (some mode) st = ok (record st { id_mode = mode })

  -- `value < low || value > high`
  unfoldable pub outside : F → F → F → Bool
  outside low high value = o.less value low || o.less high value

  abbrev pub half : F
  half = o.div (o.of_size 1) (o.of_size 2)

  unfoldable pub set_binary_id_threshold : F → R → Outcome R
  unfolding outside
  set_binary_id_threshold value st =
      if outside half (o.of_size 1) value
      then err invalid_parameter
      else ok (record st { binary_id_threshold = value })

  unfoldable pub set_binary_id_min_time : F → R → Outcome R
  unfolding outside
  set_binary_id_min_time value st =
      if outside (o.of_size 0) (max_id_time o od cv m fp) value
      then err invalid_parameter
      else ok (record st { binary_id_min_time = value })

  -- `fresh` is a block that the default constructor makes; the assignment swaps the blocks.
  unfoldable pub set_audio_buffer_size : AudioBlock F F → F → R → Outcome R
  unfolding create
  set_audio_buffer_size fresh seconds st =
      let made : Outcome R =
        create o (o.of_size 0) (o.to_size (o.mul (o.of_size 11025) seconds)) (o.of_size 11025) 1
          (some 0) fresh
        >>= λ b. ok (record st { audio_buffer = record b { id = st.audio_buffer.id } }) in
      if o.less seconds (o.of_size 1) then err invalid_parameter else made

  -- `Flush`, with the number of its nested calls as fuel.
  unfoldable pub flush : ℕ → R → Outcome R
  unfolding process_match_results
  flush zero st = stuck
  flush (suc fuel) st = m.flush st.matcher >>= λ r.
      let st1 : R = record st { matcher = r.0 } in
      let processed =
        process_match_results o od cv m fp (flush fuel) r.1
          (o.sub (m.match_time r.0) (m.match_time st.matcher)) st1 in
      if r.1 == 0 then ok st1 else processed

  -- `Identify`; `audio` is `none` for a null pointer.
  unfoldable pub identify : Option (List F) → ℕ → R → Outcome R
  unfolding flush process_match_results set_data resize
  identify none nsamples st = err invalid_parameter
  identify (some audio) nsamples st =
      let identified : Outcome R = set_data o audio nsamples st.audio_buffer >>= λ buffer.
      let extracted = fp.process buffer st.fingerprint in
      m.process extracted.1 st.matcher >>= λ matched.
      process_match_results o od cv m fp (flush flush_fuel) matched.1 buffer.duration (record st {
        audio_buffer = buffer;
        id_time = cv.add st.id_time (cv.widen buffer.duration);
        fingerprint = extracted.0;
        matcher = matched.0;
      })
      >>= λ st1. ok (record st1 { audio_buffer = resize o 0 st1.audio_buffer }) in
      if nsamples == 0 then ok st else identified

  -- `GetResults`, where `none` is a null pointer.
  unfoldable pub get_results : R → Option (List (IdMatch F))
  get_results st = if length st.id_matches == 0 then none else some st.id_matches

  unfoldable pub reset : R → R
  reset st = record st {
    id_matches = [];
    match_acc = [];
    id_time = od.decimal 0 0;
    matcher = m.reset st.matcher;
    fingerprint = fp.reset st.fingerprint;
  }
