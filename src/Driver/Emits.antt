-- ===== src/Driver/Emits.antt =====
-- An emission of a chunk (DoFlush of src/index/Indexer.cpp) over any data store, and over the driver.
use audioneex.Prelude.{
  ℕ, ◌+◌, ◌<◌, ◌^◌, ◌≡◌, ◌≢◌, refl, List, true, false, not, ◌&&◌, ltb, leb, Option, ok, ◌⊎◌, inl,
  inr, Bool-cases, length, IfOk, >>=-IfOk,
}
use audioneex.Memory.{load}
use audioneex.Codec.Block
use audioneex.Store
use audioneex.Store.{PListHeader, PListBlockHeader, Block, StoredList, is_null_block, null_block}
use audioneex.Store.Arrays.{array_store}
use audioneex.Flush.{FlushState, back, emit, block_threshold, bchunk_size}
use audioneex.Flush.Emit.{block_state, new_block_state}
use audioneex.Driver.{HashDb, BlockCache}
use audioneex.Driver.View.{View}
use audioneex.Driver.DataStore.{Operation, TcDataStore, tc_data_store}

-- What an emission does, over any data store.
pub record Emits (s : Store.DataStore) (term : ℕ) (st st' : FlushState s) : Type 0 where
  pub p : List ℕ
  pub fid : ℕ
  pub bytes : List ℕ
  pub buf : List ℕ
  pub at_back : back st.plchunk ≡ ok p
  pub at_fid : load p 0 ≡ ok fid
  pub above : leb fid st.hdr.fid_max ≡ false
  pub result :
      ((not (is_null_block st.hdr) && ltb st.hdr.body_size block_threshold ≡ true)
        × (Block.encode st.ser_chunk st.plchunk bchunk_size st.hdr.fid_max true ≡ ok (bytes, buf))
        × (st' ≡ block_state s term st fid bytes buf))
      ⊎ ((not (is_null_block st.hdr) && ltb st.hdr.body_size block_threshold ≡ false)
          × (Block.encode st.ser_chunk st.plchunk bchunk_size 0 true ≡ ok (bytes, buf))
          × (st' ≡ new_block_state s term st fid bytes buf))

module _ (s : Store.DataStore) (term : ℕ) (st : FlushState s) where
  pub emit-Emits : IfOk (Emits s term st) (emit s term st)
  unfolding emit
  emit-Emits = >>=-IfOk (Emits s term st) (back st.plchunk) _ λ p at_back.
      >>=-IfOk (Emits s term st) (load p 0) _ λ fid at_fid.
        elim (Bool-cases (leb fid st.hdr.fid_max)) [
          | inl e ↦ rw e tt
          | inr above ↦
              rw above
                (elim (Bool-cases
                  (not (is_null_block st.hdr) && ltb st.hdr.body_size block_threshold)) [
                    | inl c ↦ rw c (
                        >>=-IfOk (Emits s term st)
                          (Block.encode st.ser_chunk st.plchunk bchunk_size st.hdr.fid_max true) _
                          λ r enc. record {
                            p = p;
                            fid = fid;
                            bytes = r.0;
                            buf = r.1;
                            at_back = at_back;
                            at_fid = at_fid;
                            above = above;
                            result = inl (c, enc, refl);
                          })
                    | inr c ↦ rw c (
                        >>=-IfOk (Emits s term st)
                          (Block.encode st.ser_chunk st.plchunk bchunk_size 0 true) _
                          λ r enc. record {
                            p = p;
                            fid = fid;
                            bytes = r.0;
                            buf = r.1;
                            at_back = at_back;
                            at_fid = at_fid;
                            above = above;
                            result = inr (c, enc, refl);
                          })
                  ])
        ]

-- The same variables over the driver.
module _ (h : HashDb) (grow : ℕ → ℕ → ℕ) (file : Option h.Db) where
  abbrev pub with_store :
      FlushState array_store → TcDataStore h → FlushState (tc_data_store h grow file)
  with_store st d = record {
    plchunk = st.plchunk;
    plchunk_size = st.plchunk_size;
    lhdr = st.lhdr;
    hdr = st.hdr;
    ser_chunk = st.ser_chunk;
    store = ok d;
  }

  -- The driver stands for the lists of the array store, and the variables of the loop are those of the list
  -- `term`; `n` more blocks have numbers. `cache` and `lists` are what was there before the list.
  pub record Follows (term n : ℕ) (cache : BlockCache) (lists : ℕ → StoredList)
      (st : FlushState array_store) (d : TcDataStore h) : Type 0 where
    pub builds : d.op ≡ Operation.build
    pub view : View h d.main_index st.store
    pub list_header : (st.store term).header ≡ st.lhdr
    pub count : st.lhdr.block_count ≡ length (st.store term).blocks
    pub last :
        ((st.hdr ≡ null_block) × (length (st.store term).blocks ≡ 0))
        ⊎ ((st.hdr.id ≡ length (st.store term).blocks) × (0 < length (st.store term).blocks))
    pub room : length (st.store term).blocks + n < 2 ^ 32
    pub cached : (d.main_index.cache ≡ cache) ⊎ (d.main_index.cache.list_id ≡ term)
    pub untouched : (u : ℕ) → u ≢ term → st.store u ≡ lists u
