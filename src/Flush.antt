-- ===== src/Flush.antt =====
-- IndexerImpl::DoFlush (src/index/Indexer.cpp): the cached lists become chunks of at least
-- POSTINGSLIST_CHUNK_THRESHOLD bytes (the last one of a list excepted), and each chunk is appended
-- to the last block of its list, or to a new block if that one has grown past its threshold.
pub mod Blocks
pub mod Emit
pub mod Chunk
pub mod Round
pub mod Loop
pub mod Whole
pub mod Readback
pub mod Entries
use audioneex.Prelude.{
  ℕ, zero, suc, ◌+◌, ◌-◌, ◌*◌, ◌%◌, ◌^◌, List, [], ◌∷◌, ◌++◌, Bool, true, not, ◌&&◌, ◌||◌, ◌==◌,
  ltb, leb, if◌then◌else◌, Outcome, ok, err, fault, stuck, ◌>>=◌, invalid_index_data, length, drop,
  add32, mul32, sub64,
}
use audioneex.Memory.{load}
use audioneex.Codec.VByte.{get_encoded_size_estimate}
use audioneex.Codec.Block
use audioneex.Cache.{Buffer}
use audioneex.Store.{
  DataStore, PListHeader, PListBlockHeader, is_null_list, is_null_block, null_block,
}

-- POSTINGSLIST_BLOCK_THRESHOLD and POSTINGSLIST_CHUNK_THRESHOLD (src/index/DataStore.h), in bytes.
abbrev pub block_threshold : ℕ
block_threshold = 32768

abbrev pub chunk_threshold : ℕ
chunk_threshold = 6553

-- bchunk_size
unfoldable pub bchunk_size : ℕ
unfolding get_encoded_size_estimate
bchunk_size = get_encoded_size_estimate block_threshold

-- `plchunk.back()`, undefined on an empty chunk.
unfoldable pub back : List (List ℕ) → Outcome (List ℕ)
back [] = fault
back (p ∷ []) = ok p
back (p ∷ q ∷ ps) = back (q ∷ ps)

module _ (s : DataStore) where
  -- The variables of the loops: plchunk, plchunk_size, lhdr, hdr, the encoder's m_ser_chunk and the
  -- client's store. plchunk_nposts is the length of plchunk.
  pub record FlushState : Type 0 where
    pub plchunk : List (List ℕ)
    pub plchunk_size : ℕ
    pub lhdr : PListHeader
    pub hdr : PListBlockHeader
    pub ser_chunk : List ℕ
    pub store : s.State

  -- Emits the chunk, and clears it.
  unfoldable pub emit : ℕ → FlushState → Outcome FlushState
  unfolding back is_null_block bchunk_size
  emit term st = do
    last ← back st.plchunk
    fid ← load last 0
    let to_block : Outcome FlushState = do
      (bytes, ser) ← Block.encode st.ser_chunk st.plchunk bchunk_size st.hdr.fid_max true
      let hdr : PListBlockHeader = record {
        id = st.hdr.id;
        body_size = add32 st.hdr.body_size (length bytes);
        fid_max = fid;
      }
      ok (record {
        plchunk = [];
        plchunk_size = 0;
        lhdr = st.lhdr;
        hdr = hdr;
        ser_chunk = ser;
        store = s.on_indexer_chunk term st.lhdr hdr bytes st.store;
      })
    let to_new_block : Outcome FlushState = do
      (bytes, ser) ← Block.encode st.ser_chunk st.plchunk bchunk_size 0 true
      let hdr : PListBlockHeader = record {
        id = add32 st.hdr.id 1;
        body_size = length bytes % 2 ^ 32;
        fid_max = fid;
      }
      let lhdr : PListHeader = record { block_count = add32 st.lhdr.block_count 1 }
      ok (record {
        plchunk = [];
        plchunk_size = 0;
        lhdr = lhdr;
        hdr = hdr;
        ser_chunk = ser;
        store = s.on_indexer_new_block term lhdr hdr bytes st.store;
      })
    if leb fid st.hdr.fid_max
        then err invalid_index_data
        else if not (is_null_block st.hdr) && ltb st.hdr.body_size block_threshold
        then to_block
        else to_new_block

  -- The loop over the postings of a list. `pos` and `plast` are the offsets of pcurr and plast; a
  -- round moves pcurr on by two at least, so the length of the list is enough fuel.
  unfoldable pub flush_loop : ℕ → ℕ → List ℕ → ℕ → ℕ → FlushState → Outcome FlushState
  unfolding emit
  flush_loop zero term plist pos plast st = stuck
  flush_loop (suc fuel) term plist pos plast st =
      let round : Outcome FlushState = do
        tf ← load plist (pos + 1)
        let size = st.plchunk_size + add32 2 (mul32 tf 3)
        let grown : FlushState = record st {
          plchunk = st.plchunk ++ (drop pos plist ∷ []);
          plchunk_size = size;
        }
        st' ← if leb chunk_threshold (size * 4) || pos == plast then emit term grown else ok grown
        flush_loop fuel term plist (pos + add32 2 (mul32 tf 3)) plast st'
      in if ltb plast pos then ok st else round

  -- One list of the cache. The chunk and the encoder are what the lists before left.
  unfoldable pub flush_list : ℕ → List ℕ → FlushState → Outcome FlushState
  unfolding flush_loop is_null_list is_null_block
  flush_list term plist st = do
    let lhdr = s.on_indexer_list_header term st.store
    let last = s.on_indexer_block_header term lhdr.block_count st.store
    hdr ←
        if is_null_list lhdr
        then ok null_block
        else if is_null_block last
        then err invalid_index_data
        else ok last
    tflast ← load plist (sub64 (length plist) 1)
    let last_pos = sub64 (sub64 (sub64 (length plist) 1) (mul32 3 tflast)) 2 % 2 ^ 32
    flush_loop (length plist) term plist 0 last_pos (record st { lhdr = lhdr; hdr = hdr })

  unfoldable pub flush_lists : Buffer → FlushState → Outcome FlushState
  unfolding flush_list
  flush_lists [] st = ok st
  flush_lists ((term, plist) ∷ buffer) st = do
    st' ← flush_list term plist st
    flush_lists buffer st'

  -- The store after the flush.
  unfoldable pub do_flush : Buffer → s.State → Outcome s.State
  unfolding flush_lists
  do_flush buffer store = do
    st ← flush_lists buffer (record {
      plchunk = [];
      plchunk_size = 0;
      lhdr = record { block_count = 0 };
      hdr = null_block;
      ser_chunk = [];
      store = store;
    })
    ok st.store
