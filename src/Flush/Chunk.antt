-- ===== src/Flush/Chunk.antt =====
-- `emit` of Flush.antt on a chunk of postings that go on where the stored list ends.
use audioneex.Prelude.{
  ℕ, ◌+◌, ◌*◌, ◌^◌, ◌≤◌, ◌<◌, ◌≡◌, refl, sym, ap, ◌∙◌, List, [], ◌∷◌, ◌++◌, arith, length,
  length-append, All, ok, err, true, false, not, ◌&&◌, ltb, leb, Bool-cases, inl, inr,
  invalid_index_data,
}
use audioneex.Postings.{Posting, IsPosting, last_fid}
use audioneex.Codec.VByte.{get_encoded_size_estimate}
use audioneex.Codec.VByte.Bounds.{length-encode_values}
use audioneex.Codec.Delta.Spec.{delta_layout, delta_layouts}
use audioneex.Codec.Block.RoundTrip.{chunk_bytes, encode-chunk_bytes, All-delta_layouts}
use audioneex.Codec.Serialize.Chunk.{Points, length-delta_layout}
use audioneex.Store.{DataStore, DataStoreLaws, PListBlockHeader, is_null_block}
use audioneex.Flush.{FlushState, emit, block_threshold, bchunk_size}
use audioneex.Flush.Blocks.{concat, last_header, fid_max-concat, back-Points, extend_last}
use audioneex.Flush.Emit.{
  Holds, Emitted, block_state, new_block_state, emit-to_block, emit-to_new_block,
  block_state-Emitted, new_block_state-Emitted,
}

-- The number of integers that the postings are.
abbrev pub ints : List Posting → ℕ
ints [] = 0
ints (p ∷ ps) = 2 + 3 * length p.occs + ints ps

pub length-delta_layouts : (prev : ℕ) (ps : List Posting) → length (delta_layouts prev ps) ≡ ints ps
length-delta_layouts prev [] = refl
length-delta_layouts prev (p ∷ ps) = omega (
  arith,
  length-append (delta_layout prev p) (delta_layouts p.fid ps),
  length-delta_layout prev p,
  length-delta_layouts p.fid ps,
)

last_header-fid_max :
    (pss : List (List Posting))
    → All (λ (ps : List Posting). 0 < length ps) pss
    → (last_header 0 pss).fid_max ≡ last_fid 0 (concat pss)
last_header-fid_max [] ne = refl
last_header-fid_max (ps ∷ pss) ne = fid_max-concat 0 0 (ps ∷ pss) (omega arith) ne

room-blocks :
    (pss : List (List Posting)) (b : ℕ)
    → not (is_null_block (last_header 0 pss)) && ltb b block_threshold ≡ true
    → (0 < length pss) × (b < block_threshold)
unfolding is_null_block
room-blocks [] b e = ground arith
room-blocks (ps ∷ pss) b e = (omega arith, ground arith)

length-chunk_bytes :
    (prev : ℕ) (qs : List Posting)
    → All IsPosting qs
    → ints qs ≤ block_threshold
    → length (chunk_bytes prev qs) ≤ 163840
length-chunk_bytes prev qs hqs small = omega (
  arith,
  (length-encode_values (delta_layouts prev qs) (All-delta_layouts prev qs hqs)).1,
  length-delta_layouts prev qs,
)

chunk_fits :
    (prev : ℕ) (qs : List Posting)
    → ints qs ≤ block_threshold
    → get_encoded_size_estimate (length (delta_layouts prev qs)) ≤ bchunk_size
unfolding get_encoded_size_estimate bchunk_size
chunk_fits prev qs small = omega (arith, length-delta_layouts prev qs)

-- A chunk of at most 32768 integers whose last fid is above the stored ones is emitted without an
-- error, whatever its other fids are: the list in the store is then again one of non-empty blocks
-- with the headers that the loop has, its postings are the ones before and those of the chunk behind
-- them, the chunk is empty, and no other list is changed.
pub emit-Emitted :
    (s : DataStore) (laws : DataStoreLaws s) (term : ℕ) (st : FlushState s)
    (pss : List (List Posting)) (qs : List Posting)
    → Holds s laws term st pss
    → 0 < length qs
    → Points st.plchunk qs
    → All IsPosting qs
    → last_fid 0 (concat pss) < last_fid 0 qs
    → ints qs ≤ block_threshold
    → length pss + 1 < 2 ^ 32
    → (st' : FlushState s) × (pss' : List (List Posting)) × (emit s term st ≡ ok st')
      × Emitted s laws term st pss qs st' pss'
emit-Emitted s laws term st pss qs h pos pts hqs above small few =
    let (p, at_back, at_fid) = back-Points st.plchunk qs pts pos in
    elim (Bool-cases (not (is_null_block st.hdr) && ltb st.hdr.body_size block_threshold)) [
      | inl room ↦
          let blocks = room-blocks pss st.hdr.body_size (is_null room) in
          let (buf, enc) =
            encode-chunk_bytes st.ser_chunk st.plchunk qs bchunk_size st.hdr.fid_max pts hqs
              (chunk_fits st.hdr.fid_max qs small) in
          (
            block_state s term st (last_fid 0 qs) (chunk_bytes st.hdr.fid_max qs) buf,
            extend_last qs pss,
            emit-to_block s term st p (last_fid 0 qs) (chunk_bytes st.hdr.fid_max qs) buf at_back
                at_fid grows room enc,
            block_state-Emitted s laws term st pss qs buf h pos blocks.0 blocks.1
                (length-chunk_bytes st.hdr.fid_max qs hqs small),
          )
      | inr full ↦
          let (buf, enc) =
            encode-chunk_bytes st.ser_chunk st.plchunk qs bchunk_size 0 pts hqs
              (chunk_fits 0 qs small) in
          (
            new_block_state s term st (last_fid 0 qs) (chunk_bytes 0 qs) buf,
            pss ++ (qs ∷ []),
            emit-to_new_block s term st p (last_fid 0 qs) (chunk_bytes 0 qs) buf at_back at_fid
                grows full enc,
            new_block_state-Emitted s laws term st pss qs buf h pos few
                (length-chunk_bytes 0 qs hqs small),
          )
    ]
  where
    fid_max : st.hdr.fid_max ≡ last_fid 0 (concat pss)
    fid_max =
        ap (λ (g : PListBlockHeader). g.fid_max) h.block_header ∙ last_header-fid_max pss h.nonempty

    grows : leb (last_fid 0 qs) st.hdr.fid_max ≡ false
    grows = ground (arith, fid_max, above)

    is_null :
        not (is_null_block st.hdr) && ltb st.hdr.body_size block_threshold ≡ true
        → not (is_null_block (last_header 0 pss)) && ltb st.hdr.body_size block_threshold ≡ true
    is_null room =
        ap (λ g. not (is_null_block g) && ltb st.hdr.body_size block_threshold) (sym h.block_header)
        ∙ room

-- A chunk whose last fid is not above the stored ones is refused as invalid index data.
pub emit-err :
    (s : DataStore) (laws : DataStoreLaws s) (term : ℕ) (st : FlushState s)
    (pss : List (List Posting)) (qs : List Posting)
    → Holds s laws term st pss
    → 0 < length qs
    → Points st.plchunk qs
    → last_fid 0 qs ≤ last_fid 0 (concat pss)
    → emit s term st ≡ err invalid_index_data
unfolding emit
emit-err s laws term st pss qs h pos pts below =
    let (p, at_back, at_fid) = back-Points st.plchunk qs pts pos in rw (at_back, at_fid, refused)
  where
    refused : leb (last_fid 0 qs) st.hdr.fid_max ≡ true
    refused = ground (
      arith,
      ap (λ (g : PListBlockHeader). g.fid_max) h.block_header,
      last_header-fid_max pss h.nonempty,
    )
