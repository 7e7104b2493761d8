-- ===== src/Indexer/Session.antt =====
-- What the calls of Indexer.antt do to a session.
use audioneex.Prelude.{
  ℕ, ◌+◌, ◌*◌, ◌%◌, ◌<◌, ◌≤◌, ◌^◌, ◌≡◌, refl, ◌∙◌, arith, List, true, false, ◌==◌, leb, Bool-cases,
  inl, inr, Option, none, some, All, Outcome, ok, err, ◌>>=◌, sym, ap, length, invalid_fingerprint,
}
use audioneex.AudioBlock.{AudioBlock, FloatOps}
use audioneex.Postings.{Posting}
use audioneex.Cache
use audioneex.Store.{DataStore}
use audioneex.Indexer.Fingerprints.{Qlf, IsQlf, bytes_of, qlfs_of-bytes_of, length-bytes_of}
use audioneex.Indexer.Terms.{index_terms}
use audioneex.Indexer.Elements.{elements, bind_same}
use audioneex.Indexer.Added.{Holds, added, index_terms-Holds}
use audioneex.Indexer.{
  Answer, Extractor, Indexer, flush_if_full, index_data, index, call, fingerprint_audio,
}

module _ {F : Type 0} (o : FloatOps F) (x : Extractor F) (s : DataStore) (entry_bytes : ℕ) where
  -- The emitted bytes are read back, and the fingerprint goes into the cache.
  index_data-bytes_of :
      (fid : ℕ) (qlfs : List Qlf) (st : Indexer o x s entry_bytes)
      → st.session_open ≡ true
      → 0 < length qlfs
      → All IsQlf qlfs
      → st.curr_fid < fid
      → index_data o x s entry_bytes fid (some (bytes_of qlfs)) st ≡ (
          index_terms o entry_bytes st.match_type fid qlfs st.cache >>= λ cache.
          flush_if_full o x s entry_bytes (record st { curr_fid = fid; cache = cache }))
  unfolding index_data
  index_data-bytes_of fid qlfs st opened some_qlfs fit new =
      rw (qlfs_of-bytes_of qlfs fit, opened, some_size, whole, above) refl
    where
      some_size : (length (bytes_of qlfs) == 0) ≡ false
      some_size = ground (arith, length-bytes_of qlfs)

      whole : (length (bytes_of qlfs) % 8 == 0) ≡ true
      whole = ground (arith, length-bytes_of qlfs)

      above : leb fid st.curr_fid ≡ false
      above = ground arith

  call_stored :
      (f : s.State → s.State) (d : s.State) (st : Indexer o x s entry_bytes)
      → st.store ≡ some d
      → call o x s entry_bytes (λ d. ok (f d)) st ≡ ok (record st { store = some (f d) })
  unfolding call
  call_stored f d st e = rw e refl

  -- Index of a recording, once the fingerprint is computed.
  computed :
      (fresh : AudioBlock F F) (fid : ℕ) (codes : x.Codes) (answers answers' : List (Answer F))
      → (qlfs : List Qlf) (st : Indexer o x s entry_bytes) → st.session_open ≡ true
      → st.answers ≡ some answers
      → st.audio_codes ≡ some codes
      → fingerprint_audio o x s entry_bytes codes answers fresh ≡ ok (answers', qlfs)
      → 0 < length qlfs
      → st.curr_fid < fid
      → {r : Outcome (Indexer o x s entry_bytes)}
      → (index_terms o entry_bytes st.match_type fid qlfs st.cache >>= λ cache.
          call o x s entry_bytes
            (λ d. ok (s.on_indexer_fingerprint fid (bytes_of qlfs) d))
            (record st { answers = some answers'; curr_fid = fid; cache = cache })
          >>= flush_if_full o x s entry_bytes)
        ≡ r
      → index o x s entry_bytes fresh fid st ≡ r
  unfolding index
  computed fresh fid codes answers answers' qlfs st opened provided coded run some_qlfs new e =
      let some_size : (length qlfs == 0) ≡ false = ground arith in
      let above : leb fid st.curr_fid ≡ false = ground arith in
      rw (opened, provided, coded, run, some_size, above) e

  -- The fingerprint of a recording that is computed, not empty, has fields that are machine words and a
  -- new fid, in an open session with a data store, an audio provider and audio codes: Index of the
  -- recording does what the emission of its bytes to the data store and then Index of those bytes do,
  -- errors included.
  pub index-index_data :
      (fresh : AudioBlock F F) (fid : ℕ) (d : s.State) (codes : x.Codes)
      → (answers answers' : List (Answer F)) (qlfs : List Qlf) → (st : Indexer o x s entry_bytes)
      → st.session_open ≡ true
      → st.store ≡ some d
      → st.answers ≡ some answers
      → st.audio_codes ≡ some codes
      → fingerprint_audio o x s entry_bytes codes answers fresh ≡ ok (answers', qlfs)
      → 0 < length qlfs
      → All IsQlf qlfs
      → st.curr_fid < fid
      → index o x s entry_bytes fresh fid st
        ≡ index_data o x s entry_bytes fid (some (bytes_of qlfs)) (record st {
          answers = some answers';
          store = some (s.on_indexer_fingerprint fid (bytes_of qlfs) d);
        })
  index-index_data fresh fid d codes answers answers' qlfs st opened stored provided coded run
        some_qlfs fit new =
      let emitted = s.on_indexer_fingerprint fid (bytes_of qlfs) d in
      let st' : Indexer o x s entry_bytes = record st {
        answers = some answers';
        store = some emitted;
      } in
      computed fresh fid codes answers answers' qlfs st opened provided coded run some_qlfs new (
        (bind_same (index_terms o entry_bytes st.match_type fid qlfs st.cache) λ cache.
          ap (λ m. m >>= flush_if_full o x s entry_bytes)
            (call_stored (s.on_indexer_fingerprint fid (bytes_of qlfs)) d
              (record st { answers = some answers'; curr_fid = fid; cache = cache }) stored))
        ∙ sym (index_data-bytes_of fid qlfs st' opened some_qlfs fit new))

  -- In an open session, a fingerprint is handed in as its bytes, not empty, of machine words and with a
  -- fid above the last one; the cache holds the given postings for each term, each with an element at
  -- least and none with a fid above the last one, and no array of them would have 2^32 words with sixty
  -- more for each local fingerprint. Then the fingerprint gets into the cache: each list has, behind its
  -- postings, the elements that its term has in the fingerprint, in order, less one that repeats the last
  -- element of its posting. For single words these are the local fingerprints; for pairs of words they
  -- are made of each one with the first ten behind it that are in its band, of those before the first
  -- that is more than Tmax away; for another match type there are none. What is left is the flush of a
  -- full cache.
  pub index_data-Holds :
      (fid n : ℕ) (qlfs : List Qlf) (lists : ℕ → List Posting) (st : Indexer o x s entry_bytes)
      → st.session_open ≡ true
      → 0 < length qlfs
      → All IsQlf qlfs
      → st.curr_fid < fid
      → Holds st.curr_fid n st.cache lists
      → n + 60 * length qlfs < 2 ^ 32
      → (cache : Cache.IndexCache) × (index_data o x s entry_bytes fid (some (bytes_of qlfs)) st
          ≡ flush_if_full o x s entry_bytes (record st { curr_fid = fid; cache = cache }))
        × Holds fid
            (n + 60 * length qlfs)
            cache
            (λ t. added fid t (elements o st.match_type qlfs) (lists t))
  index_data-Holds fid n qlfs lists st opened some_qlfs fit new held room =
      let (cache, e, held') =
        index_terms-Holds o entry_bytes st.match_type fid st.curr_fid n qlfs st.cache lists held
          (omega arith) room in
      (cache, index_data-bytes_of fid qlfs st opened some_qlfs fit new ∙ rw e refl, held')

  -- A fid that is not above the last one is refused in an open session, whatever the data is: null,
  -- empty, of a wrong size or well formed.
  pub index_data-stale :
      (fid : ℕ) (fpdata : Option (List ℕ)) (st : Indexer o x s entry_bytes)
      → st.session_open ≡ true
      → fid ≤ st.curr_fid
      → index_data o x s entry_bytes fid fpdata st ≡ err invalid_fingerprint
  unfolding index_data
  index_data-stale fid none st opened old = rw opened refl
  index_data-stale fid (some fpdata) st opened old = elim (Bool-cases (length fpdata == 0)) [
    | inl empty ↦ rw (opened, empty) refl
    | inr t ↦ elim (Bool-cases (length fpdata % 8 == 0)) [
      | inl whole ↦ rw (opened, t, whole, stale) refl
      | inr partial ↦ rw (opened, t, partial) refl
    ]
  ]
    where
      stale : leb fid st.curr_fid ≡ true
      stale = ground arith
