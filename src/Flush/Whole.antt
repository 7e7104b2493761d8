-- ===== src/Flush/Whole.antt =====
-- A whole cached list, flushed by Flush.antt and read back by Iterator.antt.
use audioneex.Prelude.{
  ℕ, suc, ◌+◌, ◌*◌, ◌%◌, ◌≤◌, ◌<◌, ◌^◌, ◌≡◌, refl, sym, ap, ◌∙◌, List, [], ◌∷◌, arith, length,
  length-append, All, false, ◌==◌, ==-ne, if◌then◌else◌, ok, err, invalid_index_data, mul32, sub64,
}
use mathlib.Core.Path.{subst}
use audioneex.Codec.Serialize.Chunk.{Points}
use audioneex.Memory.{load, load-append}
use audioneex.Postings.{Posting, IsPosting, Above, last_fid, cache_layout}
use audioneex.Cache.Spec.{cached, cache_layouts, last_tf}
use audioneex.Store.{
  DataStore, DataStoreLaws, StoredList, is_null_list, is_null_block, null_block, header_at,
}
use audioneex.Flush.{FlushState, flush_list}
use audioneex.Flush.Blocks.{
  concat, list_of, last_header, last_header-blocks, NonEmpty, last_header-id,
}
use audioneex.Flush.Round.{size_of, last_offset, Flushed, length-cache_layout}
use audioneex.Flush.Loop.{flush_loop-Flushed}

length-cache_layouts :
    (p : Posting) (ps : List Posting)
    → length (cache_layouts (p ∷ ps)) ≡ last_offset (p ∷ ps) + (2 + 3 * last_tf 0 (p ∷ ps))
length-cache_layouts p [] = omega (arith, length-append (cache_layout p) [], length-cache_layout p)
length-cache_layouts p (q ∷ ps) = omega (
  arith,
  length-append (cache_layout p) (cache_layouts (q ∷ ps)),
  length-cache_layout p,
  length-cache_layouts q ps,
)

length-le-cache_layouts : (ps : List Posting) → length ps * 2 ≤ length (cache_layouts ps)
length-le-cache_layouts [] = omega arith
length-le-cache_layouts (p ∷ ps) = omega (
  arith,
  length-append (cache_layout p) (cache_layouts ps),
  length-cache_layout p,
  length-le-cache_layouts ps,
)

-- The header that the flush of a list starts from.
starting_header :
    (pss : List (List Posting))
    → (if is_null_list (record { block_count = length pss })
        then ok null_block
        else if is_null_block (last_header 0 pss)
        then err invalid_index_data
        else ok (last_header 0 pss))
      ≡ ok (last_header 0 pss)
unfolding is_null_list is_null_block
starting_header [] = refl
starting_header (ps ∷ pss) = rw (some_blocks, some_id) refl
  where
    some_blocks : (suc (length pss) == 0) ≡ false
    some_blocks = ground arith

    some_id : ((last_header 0 (ps ∷ pss)).id == 0) ≡ false
    some_id = ==-ne _ _ (λ e. omega (arith, last_header-id (ps ∷ pss), e))

module _ (s : DataStore) (laws : DataStoreLaws s) (term : ℕ) (st : FlushState s)
    (pss : List (List Posting)) (stored : laws.lists term st.store ≡ list_of pss) where
  list_header : s.on_indexer_list_header term st.store ≡ record { block_count = length pss }
  list_header = laws.list_header_lem term st.store ∙ ap (λ (l : StoredList). l.header) stored

  block_header : s.on_indexer_block_header term (length pss) st.store ≡ last_header 0 pss
  block_header =
      laws.block_header_lem term (length pss) st.store
      ∙ ap (λ (l : StoredList). header_at l.blocks (length pss)) stored
      ∙ last_header-blocks 0 pss

  abbrev pub started : FlushState s
  started = record st { lhdr = record { block_count = length pss }; hdr = last_header 0 pss }

  -- A cached list whose fids grow from above the stored ones is flushed without an error. The stored
  -- list then has its postings behind the ones before, in non-empty blocks with the right headers;
  -- no other list is changed and no chunk is left pending. A posting has 31000 words at most; the
  -- array is shorter than 2^32 words, and there are fewer blocks than that.
  pub flush_list-Flushed :
      (r : Posting) (rs : List Posting)
      → NonEmpty pss
      → st.plchunk ≡ []
      → st.plchunk_size ≡ 0
      → Above (last_fid 0 (concat pss)) (r ∷ rs)
      → All IsPosting (r ∷ rs)
      → All (λ p. size_of p ≤ 31000) (r ∷ rs)
      → length (cached (r ∷ rs)) < 2 ^ 32
      → length pss + length (r ∷ rs) + 1 < 2 ^ 32
      → (st' : FlushState s) × (pss' : List (List Posting)) × (flush_list s term
            (cached (r ∷ rs))
            st
          ≡ ok st')
        × Flushed s laws term started pss (r ∷ rs) st' pss'
  unfolding flush_list
  flush_list-Flushed r rs ne empty nothing grows fit short fits few =
      let tf = last_tf 0 (r ∷ rs) in
      let size = length-append (cache_layouts (r ∷ rs)) (tf ∷ []) in
      let place = length-cache_layouts r rs in
      let (st', pss', run, flushed) =
        flush_loop-Flushed s laws term rs r (length (cached (r ∷ rs))) 0 (last_offset (r ∷ rs))
          (cached (r ∷ rs)) [] (tf ∷ []) started pss [] refl refl (omega arith)
          (omega (arith, size, length-le-cache_layouts (r ∷ rs)))
          (record {
            holds = record {
              stored = stored;
              list_header = refl;
              block_header = refl;
              nonempty = ne;
            };
            points = subst (λ c. Points c []) (sym empty) tt;
            size = nothing;
            small = omega arith;
            grows = grows;
            fit = fit;
            short = short;
            few = few;
          }) in
      (
        st',
        pss',
        rw (list_header, block_header, starting_header pss, last_word, last_place) run,
        flushed,
      )
    where
      last_word :
          load (cached (r ∷ rs)) (sub64 (length (cached (r ∷ rs))) 1) ≡ ok (last_tf 0 (r ∷ rs))
      last_word =
          load-append (cache_layouts (r ∷ rs)) (last_tf 0 (r ∷ rs) ∷ []) _ 0 (last_tf 0 (r ∷ rs))
            (omega (arith, length-append (cache_layouts (r ∷ rs)) (last_tf 0 (r ∷ rs) ∷ []), fits))
            refl

      last_place :
          sub64 (sub64 (sub64 (length (cached (r ∷ rs))) 1) (mul32 3 (last_tf 0 (r ∷ rs)))) 2
            % 2 ^ 32
          ≡ last_offset (r ∷ rs)
      last_place = omega (
        arith,
        length-append (cache_layouts (r ∷ rs)) (last_tf 0 (r ∷ rs) ∷ []),
        length-cache_layouts r rs,
        fits,
      )
