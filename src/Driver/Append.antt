-- ===== src/Driver/Append.antt =====
-- AppendChunk of TCIndex (src/dbdrivers/TCDataStore.cpp) does to its lists what src/audioneex.h says of
-- OnIndexerChunk and OnIndexerNewBlock.
use audioneex.Prelude.{
  ℕ, suc, ◌<◌, ◌≡◌, ◌≢◌, refl, sym, ap, ◌∙◌, List, [], ◌∷◌, ◌++◌, Bool, true, false, not, ◌==◌,
  if◌then◌else◌, some, Outcome, ok, arith, Bool-cases, inl, inr, ==-refl, ==-ne, ==→eq, length,
}
use audioneex.Cache.{put}
use audioneex.Store.{PListHeader, PListBlockHeader, Block, StoredList, block_at, null_block}
use audioneex.Store
use audioneex.Store.Arrays.{array_store}
use audioneex.Driver.{HashDb, TcIndex, append_chunk, update_list_header, load_block}
use audioneex.Driver.Writes.{HashDbLaws}
use audioneex.Driver.View.{
  View, raw, layout, layout-full, write_headers-layout, overwrite-layout, layout-append,
  layout-zeros, switch_list-View, cached_block-raw, load_block-none, put-View,
}
use audioneex.Driver.Blocks.{
  extended, last_block, other_blocks, no_block, new_last, new_others, raw-some, raw-none,
  layout_behind, first_block, raw_same, raw_behind,
}

module _ (h : HashDb) (laws : HashDbLaws h) (t : ℕ) (a : ℕ → StoredList) (lhdr : PListHeader)
    (hdr : PListBlockHeader) (chunk : List ℕ) (x : TcIndex h) (v : View h x a) where
  -- The lists with another in place of `t`.
  abbrev emitted : StoredList → ℕ → StoredList
  emitted l u = if u == t then l else a u

  emitted_list : (l : StoredList) → emitted l t ≡ l
  emitted_list l = rw (==-refl t) refl

  other_list : (l : StoredList) (u : ℕ) → u ≢ t → emitted l u ≡ a u
  other_list l u ne = rw (==-ne u t ne) refl

  -- A chunk for the last block.
  pub append_chunk-View :
      0 < length (a t).blocks
      → hdr.id ≡ length (a t).blocks
      → (a t).header ≡ lhdr
      → (x' : TcIndex h) × (append_chunk h t lhdr hdr chunk false x ≡ ok x')
        × View h x' (array_store.on_indexer_chunk t lhdr hdr chunk a)
        × (x'.cache.list_id ≡ t)
  unfolding append_chunk load_block
  append_chunk-View pos id_lem header_lem =
      let (x1, run, v1, here) = switch_list-View h laws t x a v in
      let (b, at, at') = last_block hdr chunk (a t).blocks pos in
      let old = layout (a t).header hdr.id b.header b.body in
      let stored : raw (a t) hdr.id ≡ some old =
        raw-some (a t) hdr.id b (ap (block_at (a t).blocks) id_lem ∙ at) in
      let read = cached_block-raw h t x1 a v1 here hdr.id old stored in
      let written = layout lhdr hdr.id hdr (b.body ++ chunk) in
      let new : StoredList = record {
        header = lhdr;
        blocks = Store.append_chunk hdr chunk (a t).blocks;
      } in
      let eq = write_headers-layout lhdr (a t).header hdr b.header b.body in
      (
        _,
        rw
            (
              run,
              read,
              layout-full (a t).header hdr.id b.header b.body,
              eq,
              layout-append lhdr hdr.id hdr b.body chunk,
            )
            refl,
        put-View h t x1 a v1 here hdr.id written (emitted new)
            (layout-full lhdr hdr.id hdr (b.body ++ chunk))
            (ap (λ l. raw l hdr.id) (emitted_list new)
              ∙ raw-some new hdr.id (extended hdr chunk b) (ap (block_at new.blocks) id_lem ∙ at'))
            (λ j ne.
              ap (λ l. raw l j) (emitted_list new)
              ∙ raw_same new (a t) j (sym header_lem)
                  (other_blocks hdr chunk (a t).blocks j (λ e. ne (e ∙ sym id_lem))))
            (other_list new),
        here,
      )

  -- A new block.
  abbrev new_block : Block
  new_block = record { header = hdr; body = chunk }

  -- The list with it, under a list header.
  abbrev with_new : PListHeader → StoredList
  with_new hd = record { header = hd; blocks = (a t).blocks ++ (new_block ∷ []) }

  with_new_others :
      (hd : PListHeader) (j : ℕ)
      → hdr.id ≡ suc (length (a t).blocks)
      → j ≢ hdr.id
      → block_at (with_new hd).blocks j ≡ block_at (a t).blocks j
  with_new_others hd j id_lem ne = new_others new_block (a t).blocks j (λ e. ne (e ∙ sym id_lem))

  with_new_last :
      (hd : PListHeader)
      → hdr.id ≡ suc (length (a t).blocks)
      → raw (with_new hd) hdr.id ≡ some (layout hd hdr.id hdr chunk)
  with_new_last hd id_lem =
      raw-some (with_new hd) hdr.id new_block
        (ap (block_at (with_new hd).blocks) id_lem ∙ new_last new_block (a t).blocks)

  -- The list header goes to block 1 where the new block is another.
  update_list_header-View :
      (x2 : TcIndex h) (hd : PListHeader)
      → View h x2 (emitted (with_new hd))
      → x2.cache.list_id ≡ t
      → 0 < length (a t).blocks
      → (x' : TcIndex h) × (update_list_header h t lhdr x2 ≡ ok x')
        × View h x' (emitted (with_new lhdr))
        × (x'.cache.list_id ≡ t)
  unfolding update_list_header
  update_list_header-View x2 hd v2 here pos =
      let (b, at) = first_block new_block (a t).blocks pos in
      let stored = ap (λ l. raw l 1) (emitted_list (with_new hd)) ∙ raw-some (with_new hd) 1 b at in
      let read =
        cached_block-raw h t x2 (emitted (with_new hd)) v2 here 1 (layout hd 1 b.header b.body)
          stored in
      (
        _,
        rw (read, layout-full hd 1 b.header b.body, overwrite-layout lhdr hd b.header b.body) refl,
        put-View h t x2 (emitted (with_new hd)) v2 here 1 (layout lhdr 1 b.header b.body)
            (emitted (with_new lhdr)) (layout-full lhdr 1 b.header b.body)
            (ap (λ l. raw l 1) (emitted_list (with_new lhdr)) ∙ raw-some (with_new lhdr) 1 b at)
            (λ j ne.
              ap (λ l. raw l j) (emitted_list (with_new lhdr))
              ∙ raw_behind (with_new lhdr) (with_new hd) j ne refl
              ∙ sym (ap (λ l. raw l j) (emitted_list (with_new hd))))
            (λ u ne. other_list (with_new lhdr) u ne ∙ sym (other_list (with_new hd) u ne)),
        here,
      )

  -- The new block in the cache, under a list header.
  abbrev put_new : TcIndex h → TcIndex h
  put_new x1 = record x1 {
    cache = record x1.cache { buffer = put hdr.id (layout lhdr hdr.id hdr chunk) x1.cache.buffer };
  }

  put_new-View :
      (x1 : TcIndex h) (hd : PListHeader)
      → View h x1 a
      → x1.cache.list_id ≡ t
      → hdr.id ≡ suc (length (a t).blocks)
      → layout hd hdr.id hdr chunk ≡ layout lhdr hdr.id hdr chunk
      → ((j : ℕ) → j ≢ hdr.id → raw (with_new hd) j ≡ raw (a t) j)
      → View h (put_new x1) (emitted (with_new hd))
  put_new-View x1 hd v1 here id_lem same others =
      put-View h t x1 a v1 here hdr.id (layout lhdr hdr.id hdr chunk) (emitted (with_new hd))
        (layout-full lhdr hdr.id hdr chunk)
        (ap (λ l. raw l hdr.id) (emitted_list (with_new hd))
          ∙ with_new_last hd id_lem
          ∙ ap some same)
        (λ j ne. ap (λ l. raw l j) (emitted_list (with_new hd)) ∙ others j ne)
        (other_list (with_new hd))

  -- The end of AppendChunk, whether the new block is the first one or not.
  ended : TcIndex h → Bool → Outcome (TcIndex h)
  ended x1 first = if not first then update_list_header h t lhdr (put_new x1) else ok (put_new x1)

  pub append_new-View :
      hdr.id ≡ suc (length (a t).blocks)
      → (x' : TcIndex h) × (append_chunk h t lhdr hdr chunk true x ≡ ok x')
        × View h x' (array_store.on_indexer_new_block t lhdr hdr chunk a)
        × (x'.cache.list_id ≡ t)
  unfolding append_chunk ended
  append_new-View id_lem =
      let (x1, run, v1, here) = switch_list-View h laws t x a v in
      let missing =
        load_block-none h t x1 a v1 here hdr.id
          (raw-none (a t) hdr.id (ap (block_at (a t).blocks) id_lem ∙ no_block (a t).blocks))
        ∙ ap ok (layout-zeros hdr.id) in
      let written = write_headers-layout lhdr (record { block_count = 0 }) hdr null_block [] in
      let filled = layout-append lhdr hdr.id hdr [] chunk in
      let ran : append_chunk h t lhdr hdr chunk true x ≡ ended x1 (hdr.id == 1) =
        rw (run, missing, written, filled) refl in
      elim (Bool-cases (hdr.id == 1)) [
        | inl e ↦
            let first : hdr.id ≡ 1 = ==→eq hdr.id 1 e in
            (
              put_new x1,
              ran ∙ ap (ended x1) e,
              put_new-View x1 lhdr v1 here id_lem refl (λ j ne.
                  raw_behind (with_new lhdr) (a t) j (λ s. ne (s ∙ sym first))
                    (with_new_others lhdr j id_lem ne)),
              here,
            )
        | inr e ↦
            let ne : hdr.id ≢ 1 = λ (s : hdr.id ≡ 1). ground arith in
            let v2 =
              put_new-View x1 (a t).header v1 here id_lem
                (layout_behind (a t).header lhdr hdr.id hdr chunk ne)
                (λ j ne'.
                  raw_same (with_new (a t).header) (a t) j refl
                    (with_new_others (a t).header j id_lem ne')) in
            let (x', update, v', here') =
              update_list_header-View (put_new x1) (a t).header v2 here (omega arith) in
            (x', ran ∙ ap (ended x1) e ∙ update, v', here')
      ]
