-- ===== src/Flush/Emit.antt =====
-- One chunk that `emit` of Flush.antt sends to the data store.
use audioneex.Prelude.{
  ℕ, suc, ◌+◌, ◌%◌, ◌^◌, ◌≤◌, ◌<◌, ◌≡◌, ◌≢◌, refl, sym, ap, ◌∙◌, List, [], ◌∷◌, ◌++◌, arith, length,
  length-append, All-append, ok, true, false, not, ◌&&◌, ltb, leb, ==-refl, ==-ne, add32,
}
use audioneex.Memory.{load}
use audioneex.Postings.{Posting, last_fid}
use audioneex.Codec.Block
use audioneex.Codec.Block.RoundTrip.{chunk_bytes, chunk_bytes-append}
use audioneex.Store.{
  DataStore, DataStoreLaws, StoredList, append_chunk, PListHeader, PListBlockHeader, is_null_block,
}
use audioneex.Flush.{FlushState, back, emit, block_threshold, bchunk_size}
use audioneex.Flush.Blocks.{
  concat, header_of, blocks_of, list_of, last_header, last_block, extend_last, NonEmpty,
  last_header-last_block, last_header-id, last_fid-append, last_fid-pos, append_chunk-extend_last,
  length-extend_last, last_block-extend_last, concat-extend_last, extend_last-NonEmpty,
  blocks_of-snoc, concat-snoc, snoc-last_block,
}

module _ (s : DataStore) (laws : DataStoreLaws s) (term : ℕ) where
  -- The store has the list in the blocks `pss`, and the loop's headers are the list's.
  pub record Holds (st : FlushState s) (pss : List (List Posting)) : Type 0 where
    pub stored : laws.lists term st.store ≡ list_of pss
    pub list_header : st.lhdr ≡ record { block_count = length pss }
    pub block_header : st.hdr ≡ last_header 0 pss
    pub nonempty : NonEmpty pss

  -- No other list is changed.
  abbrev pub Untouched : s.State → s.State → Type 0
  Untouched d d' = (u : ℕ) → u ≢ term → laws.lists u d' ≡ laws.lists u d

  -- What an emission leads to: the chunk is empty, and its postings are at the end of the list.
  pub record Emitted (st : FlushState s) (pss : List (List Posting)) (qs : List Posting)
      (st' : FlushState s) (pss' : List (List Posting)) : Type 0 where
    pub holds : Holds st' pss'
    pub cleared : st'.plchunk ≡ []
    pub cleared_size : st'.plchunk_size ≡ 0
    pub postings : concat pss' ≡ concat pss ++ qs
    pub blocks : length pss' ≤ length pss + 1
    pub untouched : Untouched st.store st'.store

-- The state after a chunk for the last block, and after one for a new block.
module _ (s : DataStore) (term : ℕ) (st : FlushState s) (fid : ℕ) (bytes buf : List ℕ) where
  abbrev to_block_header : PListBlockHeader
  to_block_header = record {
    id = st.hdr.id;
    body_size = add32 st.hdr.body_size (length bytes);
    fid_max = fid;
  }

  abbrev pub block_state : FlushState s
  block_state = record {
    plchunk = [];
    plchunk_size = 0;
    lhdr = st.lhdr;
    hdr = to_block_header;
    ser_chunk = buf;
    store = s.on_indexer_chunk term st.lhdr to_block_header bytes st.store;
  }

  abbrev new_block_header : PListBlockHeader
  new_block_header = record {
    id = add32 st.hdr.id 1;
    body_size = length bytes % 2 ^ 32;
    fid_max = fid;
  }

  abbrev new_list_header : PListHeader
  new_list_header = record { block_count = add32 st.lhdr.block_count 1 }

  abbrev pub new_block_state : FlushState s
  new_block_state = record {
    plchunk = [];
    plchunk_size = 0;
    lhdr = new_list_header;
    hdr = new_block_header;
    ser_chunk = buf;
    store = s.on_indexer_new_block term new_list_header new_block_header bytes st.store;
  }

module _ (s : DataStore) (term : ℕ) (st : FlushState s) (p : List ℕ) (fid : ℕ) (bytes buf : List ℕ)
    (at_back : back st.plchunk ≡ ok p) (at_fid : load p 0 ≡ ok fid)
    (above : leb fid st.hdr.fid_max ≡ false) where
  pub emit-to_block :
      not (is_null_block st.hdr) && ltb st.hdr.body_size block_threshold ≡ true
      → Block.encode st.ser_chunk st.plchunk bchunk_size st.hdr.fid_max true ≡ ok (bytes, buf)
      → emit s term st ≡ ok (block_state s term st fid bytes buf)
  unfolding emit
  emit-to_block room enc = rw (at_back, at_fid, above, room, enc)

  pub emit-to_new_block :
      not (is_null_block st.hdr) && ltb st.hdr.body_size block_threshold ≡ false
      → Block.encode st.ser_chunk st.plchunk bchunk_size 0 true ≡ ok (bytes, buf)
      → emit s term st ≡ ok (new_block_state s term st fid bytes buf)
  unfolding emit
  emit-to_new_block room enc = rw (at_back, at_fid, above, room, enc)

-- The header of a block that takes the bytes of a chunk.
header-extended :
    (n : ℕ) (ps qs : List Posting) (h : PListBlockHeader)
    → h ≡ header_of n ps
    → h.body_size < block_threshold
    → length (chunk_bytes h.fid_max qs) ≤ 163840
    → 0 < length qs
    → record {
      id = h.id;
      body_size = add32 h.body_size (length (chunk_bytes h.fid_max qs));
      fid_max = last_fid 0 qs;
    }
      ≡ header_of n (ps ++ qs)
header-extended n ps qs h e small room pos =
    λ i. record { id = (e i).id; body_size = size i; fid_max = fid i }
  where
    bytes : chunk_bytes 0 ps ++ chunk_bytes h.fid_max qs ≡ chunk_bytes 0 (ps ++ qs)
    bytes =
        ap (λ (g : PListBlockHeader). chunk_bytes 0 ps ++ chunk_bytes g.fid_max qs) e
        ∙ chunk_bytes-append 0 ps qs

    size : add32 h.body_size (length (chunk_bytes h.fid_max qs)) ≡ length (chunk_bytes 0 (ps ++ qs))
    size = omega (
      arith,
      ap length bytes,
      length-append (chunk_bytes 0 ps) (chunk_bytes h.fid_max qs),
      ap (λ (g : PListBlockHeader). g.body_size) e,
    )

    fid : last_fid 0 qs ≡ last_fid 0 (ps ++ qs)
    fid = last_fid-pos 0 (last_fid 0 ps) qs pos ∙ sym (last_fid-append 0 ps qs)

module _ (s : DataStore) (laws : DataStoreLaws s) (term : ℕ) (st : FlushState s)
    (pss : List (List Posting)) (qs : List Posting) (buf : List ℕ) (h : Holds s laws term st pss)
    (pos : 0 < length qs) where
  pub block_state-Emitted :
      0 < length pss
      → st.hdr.body_size < block_threshold
      → length (chunk_bytes st.hdr.fid_max qs) ≤ 163840
      → Emitted s laws term st pss qs
          (block_state s term st (last_fid 0 qs) (chunk_bytes st.hdr.fid_max qs) buf)
          (extend_last qs pss)
  block_state-Emitted some_block small room = record {
    holds = record {
      stored =
          laws.chunk_lem term term _ _ _ _
          ∙ rw (==-refl term) (λ i. record { header = counts i; blocks = blocks i });
      list_header = counts;
      block_header =
          extended
          ∙ ap (header_of (0 + length pss)) (sym (last_block-extend_last qs pss some_block))
          ∙ ap (λ n. header_of (0 + n) (last_block (extend_last qs pss)))
              (sym (length-extend_last qs pss))
          ∙ sym (
              last_header-last_block 0 (extend_last qs pss)
                (omega (arith, length-extend_last qs pss)));
      nonempty = extend_last-NonEmpty qs pss h.nonempty;
    };
    cleared = refl;
    cleared_size = refl;
    postings = concat-extend_last qs pss some_block;
    blocks = omega (arith, length-extend_last qs pss);
    untouched = λ u ne. laws.chunk_lem term u _ _ _ _ ∙ rw (==-ne u term ne);
  }
    where
      last : st.hdr ≡ header_of (0 + length pss) (last_block pss)
      last = h.block_header ∙ last_header-last_block 0 pss some_block

      extended :
          to_block_header s term st (last_fid 0 qs) (chunk_bytes st.hdr.fid_max qs) buf
          ≡ header_of (0 + length pss) (last_block pss ++ qs)
      extended = header-extended (0 + length pss) (last_block pss) qs st.hdr last small room pos

      counts : st.lhdr ≡ record { block_count = length (extend_last qs pss) }
      counts =
          h.list_header ∙ ap (λ n. record { block_count = n }) (sym (length-extend_last qs pss))

      blocks :
          append_chunk
            (to_block_header s term st (last_fid 0 qs) (chunk_bytes st.hdr.fid_max qs) buf)
            (chunk_bytes st.hdr.fid_max qs)
            (laws.lists term st.store).blocks
          ≡ blocks_of 0 (extend_last qs pss)
      blocks =
          ap
            (λ (l : StoredList).
              append_chunk
                (to_block_header s term st (last_fid 0 qs) (chunk_bytes st.hdr.fid_max qs) buf)
                (chunk_bytes st.hdr.fid_max qs) l.blocks)
            h.stored
          ∙ ap (λ g. append_chunk g (chunk_bytes st.hdr.fid_max qs) (blocks_of 0 pss)) extended
          ∙ ap
              (λ (g : PListBlockHeader).
                append_chunk (header_of (0 + length pss) (last_block pss ++ qs))
                  (chunk_bytes g.fid_max qs) (blocks_of 0 pss))
              last
          ∙ append_chunk-extend_last 0 (0 + length pss) qs pss refl

  pub new_block_state-Emitted :
      length pss + 1 < 2 ^ 32
      → length (chunk_bytes 0 qs) ≤ 163840
      → Emitted s laws term st pss qs
          (new_block_state s term st (last_fid 0 qs) (chunk_bytes 0 qs) buf)
          (pss ++ (qs ∷ []))
  new_block_state-Emitted few room = record {
    holds = record {
      stored =
          laws.new_block_lem term term _ _ _ _
          ∙ rw (==-refl term) (λ i. record { header = counts i; blocks = blocks i });
      list_header = counts;
      block_header =
          new
          ∙ ap (header_of (suc (length pss))) (sym (snoc-last_block pss qs))
          ∙ ap (λ n. header_of n (last_block (pss ++ (qs ∷ [])))) {x = suc (length pss)}
              {y = 0 + length (pss ++ (qs ∷ []))} (omega (arith, length-append pss (qs ∷ [])))
          ∙ sym (
              last_header-last_block 0 (pss ++ (qs ∷ []))
                (omega (arith, length-append pss (qs ∷ []))));
      nonempty = All-append _ pss (qs ∷ []) h.nonempty (pos, tt);
    };
    cleared = refl;
    cleared_size = refl;
    postings = concat-snoc pss qs;
    blocks = omega (arith, length-append pss (qs ∷ []));
    untouched = λ u ne. laws.new_block_lem term u _ _ _ _ ∙ rw (==-ne u term ne);
  }
    where
      new :
          new_block_header s term st (last_fid 0 qs) (chunk_bytes 0 qs) buf
          ≡ header_of (suc (length pss)) qs
      new i = record { id = id_eq i; body_size = size_eq i; fid_max = last_fid 0 qs }
        where
          id_eq : add32 st.hdr.id 1 ≡ suc (length pss)
          id_eq =
              omega (arith, last_header-id pss, ap (λ (g : PListBlockHeader). g.id) h.block_header)

          size_eq : length (chunk_bytes 0 qs) % 2 ^ 32 ≡ length (chunk_bytes 0 qs)
          size_eq = omega arith

      counts :
          new_list_header s term st (last_fid 0 qs) (chunk_bytes 0 qs) buf
          ≡ record { block_count = length (pss ++ (qs ∷ [])) }
      counts =
          ap (λ n. record { block_count = n }) {x = add32 st.lhdr.block_count 1}
            (omega (
              arith,
              length-append pss (qs ∷ []),
              ap (λ (g : PListHeader). g.block_count) h.list_header,
            ))

      blocks :
          (laws.lists term st.store).blocks
            ++ (record {
              header = new_block_header s term st (last_fid 0 qs) (chunk_bytes 0 qs) buf;
              body = chunk_bytes 0 qs;
            }
                ∷ [])
          ≡ blocks_of 0 (pss ++ (qs ∷ []))
      blocks =
          ap
            (λ (l : StoredList).
              l.blocks
              ++ (record {
                header = new_block_header s term st (last_fid 0 qs) (chunk_bytes 0 qs) buf;
                body = chunk_bytes 0 qs;
              }
                  ∷ []))
            h.stored
          ∙ ap
              (λ (g : PListBlockHeader).
                blocks_of 0 pss ++ (record { header = g; body = chunk_bytes 0 qs } ∷ []))
              new
          ∙ sym (blocks_of-snoc 0 (suc (length pss)) pss qs (omega arith))
