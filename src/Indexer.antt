-- ===== src/Indexer.antt =====
-- IndexerImpl (src/index/Indexer.h, src/index/Indexer.cpp): an indexing session. An exception ends the
-- run of the model: the state that it leaves behind is not modelled.
pub mod Fingerprints
pub mod Terms
pub mod Elements
pub mod Added
pub mod Sound
pub mod Session
use audioneex.Prelude.{
  ℕ, zero, suc, ◌+◌, ◌%◌, ◌/◌, List, [], ◌∷◌, ◌++◌, Bool, true, false, not, ◌&&◌, ◌||◌, ◌==◌, ltb,
  leb, if◌then◌else◌, Option, none, some, Outcome, ok, err, fault, stuck, ◌>>=◌, length,
  invalid_indexer_state, invalid_parameter, invalid_audio_codes, invalid_fingerprint, runtime_error,
}
use audioneex.AudioBlock.{AudioBlock, FloatOps, create, resize, append_block}
use audioneex.Cache.{IndexCache}
use audioneex.Cache
use audioneex.Flush.{do_flush}
use audioneex.Store.{DataStore}
use audioneex.Indexer.Fingerprints.{Qlf, bytes_of, qlfs_of}
use audioneex.Indexer.Terms.{MatchType, index_terms}

-- One call of OnAudioData: a negative result, or what the block holds after it and the number of
-- samples that it gives back.
pub data Answer (F : Type 0) : Type 0 where
  failed : Answer F
  samples : List F → ℕ → Answer F

-- The fingerprinting of a chunk of audio, each local fingerprint quantized by the codebook.
pub record Extractor (F : Type 0) : Type 1 where
  pub Codes : Type 0
  pub Engine : Type 0
  pub deserialize : Option Codes
  pub new_engine : ℕ → Engine
  pub process : Codes → AudioBlock F F → Engine → Engine × List Qlf

module _ {F : Type 0} (o : FloatOps F) (x : Extractor F) (s : DataStore) (entry_bytes : ℕ) where
  -- The members. `store` is `none` while no data store is set, and `answers` is what the audio
  -- provider gives from now on, `none` while none is set.
  pub record Indexer : Type 0 where
    pub store : Option s.State
    pub answers : Option (List (Answer F))
    pub match_type : MatchType
    pub audio_codes : Option x.Codes
    pub cache : IndexCache
    pub curr_fid : ℕ
    pub session_open : Bool

  -- A call of the data store; through a null pointer it is undefined.
  unfoldable pub call : (s.State → Outcome s.State) → Indexer → Outcome Indexer
  call f st = elim st.store [
    | none ↦ fault
    | some d ↦ f d >>= λ d'. ok (record st { store = some d' })
  ]

  abbrev valid_type : MatchType → Bool
  valid_type MatchType.other_match = false
  valid_type _ = true

  unfoldable pub start : Indexer → Outcome Indexer
  unfolding call Cache.reset
  start st =
      let opened : x.Codes → Outcome Indexer = λ codes.
        call (λ d. ok (s.on_indexer_start d))
          (record st {
            audio_codes = some codes;
            cache = Cache.reset st.cache;
            curr_fid = 0;
            session_open = true;
          }) in
      let with_codes : Outcome Indexer = elim st.audio_codes [
        | some codes ↦ opened codes
        | none ↦ elim x.deserialize [ none ↦ err invalid_audio_codes | some codes ↦ opened codes ]
      ] in
      if st.session_open then err invalid_indexer_state else elim st.store [
        | none ↦ err invalid_parameter
        | some _ ↦ if valid_type st.match_type then with_codes else err invalid_parameter
      ]

  unfoldable pub flush : Indexer → Outcome Indexer
  unfolding call do_flush Cache.reset
  flush st =
      let flushed : Outcome Indexer = do
        st1 ← call (λ d. do_flush s st.cache.buffer (s.on_indexer_flush_start d)) st
        call (λ d. ok (s.on_indexer_flush_end d)) (record st1 { cache = Cache.reset st1.cache })
      in if st.session_open then flushed else err invalid_indexer_state

  -- The end of both Index methods.
  unfoldable pub flush_if_full : Indexer → Outcome Indexer
  unfolding flush Cache.can_flush
  flush_if_full st = if Cache.can_flush st.cache then flush st else ok st

  -- `Index` of a fingerprint; `fpdata` is `none` for a null pointer.
  unfoldable pub index_data : ℕ → Option (List ℕ) → Indexer → Outcome Indexer
  unfolding flush_if_full index_terms qlfs_of
  index_data fid none st =
      if st.session_open then err invalid_fingerprint else err invalid_indexer_state
  index_data fid (some fpdata) st =
      let indexed : Outcome Indexer = do
        cache ← index_terms o entry_bytes st.match_type fid (qlfs_of fpdata) st.cache
        flush_if_full (record st { curr_fid = fid; cache = cache })
      in if not st.session_open
        then err invalid_indexer_state
        else if length fpdata == 0
        then err invalid_fingerprint
        else if not (length fpdata % 8 == 0)
        then err invalid_fingerprint
        else if leb fid st.curr_fid
        then err invalid_fingerprint
        else indexed

  -- The loop of `Index` over the answers of the audio provider, until one of no samples. `t` is
  -- tduration, in seconds.
  unfoldable pub fingerprint_loop :
      x.Codes
      → List (Answer F)
      → x.Engine
      → ℕ
      → List Qlf
      → AudioBlock F F
      → AudioBlock F F
      → Outcome (List (Answer F) × List Qlf)
  unfolding resize append_block
  fingerprint_loop codes [] fp t qlfs buffer block = stuck
  fingerprint_loop codes (Answer.failed ∷ answers) fp t qlfs buffer block = err runtime_error
  fingerprint_loop codes (Answer.samples audio n ∷ answers) fp t qlfs buffer block =
      let block' = resize o n (record block { samples = some audio }) in
      append_block o block' buffer >>= λ grown.
      let t' = o.to_size (o.add (o.of_size t) block'.duration) in
      let (fp', lfs) = x.process codes grown fp in
      let full = o.at_most (o.of_size 60) grown.duration || (ltb 0 grown.size && (n == 0)) in
      let on = fingerprint_loop codes answers fp t' qlfs grown block' in
      let on' = fingerprint_loop codes answers fp' t' (qlfs ++ lfs) (resize o 0 grown) block' in
      if leb 1800 t'
      then err invalid_fingerprint
      else if ltb 0 block'.size
      then if full then on' else on
      else ok (answers, if full then qlfs ++ lfs else qlfs)

  -- The accumulator holds 66 seconds of audio, and a block 5 seconds and 16 samples.
  unfoldable pub fingerprint_audio :
      x.Codes → List (Answer F) → AudioBlock F F → Outcome (List (Answer F) × List Qlf)
  unfolding fingerprint_loop create
  fingerprint_audio codes answers fresh = do
    buffer ← create o (o.of_size 0) 727650 (o.of_size 11025) 1 (some 0) fresh
    block ← create o (o.of_size 0) 55141 (o.of_size 11025) 1 none fresh
    fingerprint_loop codes answers (x.new_engine (buffer.capacity + 1024)) 0 [] buffer block

  -- `Index` of a recording; `fresh` is a block that the default constructor makes.
  unfoldable pub index : AudioBlock F F → ℕ → Indexer → Outcome Indexer
  unfolding fingerprint_audio flush_if_full index_terms bytes_of call
  index fresh fid st =
      let indexed : List (Answer F) → List Qlf → Outcome Indexer = λ answers qlfs. do
        cache ← index_terms o entry_bytes st.match_type fid qlfs st.cache
        st1 ←
            call (λ d. ok (s.on_indexer_fingerprint fid (bytes_of qlfs) d))
              (record st { answers = some answers; curr_fid = fid; cache = cache })
        flush_if_full st1
      in let fingerprinted : x.Codes → List (Answer F) → Outcome Indexer = λ codes answers. do
        (answers', qlfs) ← fingerprint_audio codes answers fresh
        if length qlfs == 0
            then err invalid_fingerprint
            else if leb fid st.curr_fid
            then err invalid_fingerprint
            else indexed answers' qlfs
        in if not st.session_open then err invalid_indexer_state else elim st.answers [
          | none ↦ err invalid_parameter
          | some answers ↦ elim st.audio_codes [
            | none ↦ fault
            | some codes ↦ fingerprinted codes answers
          ]
        ]

  unfoldable pub end_session : Bool → Indexer → Outcome Indexer
  unfolding flush call Cache.is_empty
  end_session flush_first st =
      let closed : Indexer → Outcome Indexer =
        λ st1. call (λ d. ok (s.on_indexer_end d)) (record st1 { session_open = false }) in
      if not st.session_open
      then ok st
      else if not (Cache.is_empty st.cache) && flush_first
      then flush st >>= closed
      else closed st
