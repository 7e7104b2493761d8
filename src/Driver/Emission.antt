-- ===== src/Driver/Emission.antt =====
-- A chunk that DoFlush (src/index/Indexer.cpp) emits to the driver does there what it does to a store that
-- keeps its lists in arrays.
use audioneex.Prelude.{
  ℕ, suc, ◌<◌, ◌≡◌, refl, sym, ap, ◌∙◌, List, [], ◌∷◌, ◌++◌, Bool, true, false, not, ◌&&◌, ltb,
  Option, Outcome, ok, inl, inr, arith, ==-refl, ==-ne, length, length-append, IfOk, IfOk-map,
}
use mathlib.Core.Path.{subst}
use audioneex.Store
use audioneex.Store.{PListHeader, PListBlockHeader, Block, StoredList, is_null_block, null_block}
use audioneex.Store.Arrays.{array_store}
use audioneex.Flush.{FlushState, emit, block_threshold}
use audioneex.Flush.Emit.{block_state, new_block_state, emit-to_block, emit-to_new_block}
use audioneex.Driver.{HashDb, BlockCache, TcIndex, append_chunk}
use audioneex.Driver.Writes.{HashDbLaws}
use audioneex.Driver.Append.{append_chunk-View, append_new-View}
use audioneex.Driver.DataStore.{Operation, TcDataStore, tc_data_store, on_indexer_append}
use audioneex.Driver.Emits.{Emits, emit-Emits, with_store, Follows}

module _ (h : HashDb) (laws : HashDbLaws h) (grow : ℕ → ℕ → ℕ) (file : Option h.Db) (term : ℕ)
    (cache : BlockCache) (lists : ℕ → StoredList) where
  -- What follows a state, over the driver.
  abbrev pub Goes :
      ℕ → Outcome (FlushState (tc_data_store h grow file)) → FlushState array_store → Type 0
  Goes n run st' =
      (d' : TcDataStore h) × (run ≡ ok (with_store h grow file st' d'))
      × Follows h grow file term n cache lists st' d'

  on_append :
      (new_block : Bool) (lhdr : PListHeader) (hdr : PListBlockHeader) (bytes : List ℕ)
      (d : TcDataStore h) {x : TcIndex h}
      → d.op ≡ Operation.build
      → append_chunk h term lhdr hdr bytes new_block d.main_index ≡ ok x
      → on_indexer_append h new_block term lhdr hdr bytes d ≡ ok (record d { main_index = x })
  unfolding on_indexer_append
  on_append new_block lhdr hdr bytes d e run = rw (e, run) refl

  -- The lists after a chunk, and after a new block.
  length-append_chunk :
      (hdr : PListBlockHeader) (chunk : List ℕ) (bs : List Block)
      → length (Store.append_chunk hdr chunk bs) ≡ length bs
  length-append_chunk hdr chunk [] = refl
  length-append_chunk hdr chunk (b ∷ []) = refl
  length-append_chunk hdr chunk (b ∷ c ∷ bs) = ap suc (length-append_chunk hdr chunk (c ∷ bs))

  emission_chunk :
      (n fid : ℕ) (bytes buf : List ℕ) (st : FlushState array_store) (d : TcDataStore h)
      → Follows h grow file term (suc n) cache lists st d
      → st.hdr.id ≡ length (st.store term).blocks
      → 0 < length (st.store term).blocks
      → Goes n
          (ok (
            block_state
              (tc_data_store h grow file)
              term
              (with_store h grow file st d)
              fid
              bytes
              buf))
          (block_state array_store term st fid bytes buf)
  emission_chunk n fid bytes buf st d f id_lem pos =
      let after = block_state array_store term st fid bytes buf in
      let (x, run, view, here) =
        append_chunk-View h laws term st.store st.lhdr after.hdr bytes d.main_index f.view pos
          id_lem f.list_header in
      let new : StoredList = record {
        header = st.lhdr;
        blocks = Store.append_chunk after.hdr bytes (st.store term).blocks;
      } in
      let now : after.store term ≡ new = rw (==-refl term) refl in
      let size = length-append_chunk after.hdr bytes (st.store term).blocks in
      let long : length (after.store term).blocks ≡ length (st.store term).blocks =
        ap (λ (l : StoredList). length l.blocks) now ∙ size in
      (
        record d { main_index = x },
        ap (λ s. ok (record (with_store h grow file after d) { store = s }))
            (on_append false st.lhdr after.hdr bytes d f.builds run),
        record {
          builds = f.builds;
          view = view;
          list_header = ap (λ (l : StoredList). l.header) now;
          count = f.count ∙ sym long;
          last = inr (id_lem ∙ sym long, omega (arith, long));
          room = omega (arith, long, f.room);
          cached = inr here;
          untouched = λ u ne. rw (==-ne u term ne) (f.untouched u ne);
        },
      )

  emission_new :
      (n fid : ℕ) (bytes buf : List ℕ) (st : FlushState array_store) (d : TcDataStore h)
      → Follows h grow file term (suc n) cache lists st d
      → Goes n
          (ok (
            new_block_state
              (tc_data_store h grow file)
              term
              (with_store h grow file st d)
              fid
              bytes
              buf))
          (new_block_state array_store term st fid bytes buf)
  emission_new n fid bytes buf st d f =
      let after = new_block_state array_store term st fid bytes buf in
      let old = length (st.store term).blocks in
      let id_old : st.hdr.id ≡ old = elim f.last [
        | inl (e, z) ↦ ap (λ (hd : PListBlockHeader). hd.id) e ∙ sym z
        | inr (e, _) ↦ e
      ] in
      let id_lem : after.hdr.id ≡ suc old = omega (arith, id_old, f.room) in
      let (x, run, view, here) =
        append_new-View h laws term st.store after.lhdr after.hdr bytes d.main_index f.view
          id_lem in
      let new : StoredList = record {
        header = after.lhdr;
        blocks = (st.store term).blocks ++ (record { header = after.hdr; body = bytes } ∷ []);
      } in
      let now : after.store term ≡ new = rw (==-refl term) refl in
      let long : length (after.store term).blocks ≡ suc old =
        ap (λ (l : StoredList). length l.blocks) now
        ∙ omega (
          arith,
          length-append {0} (st.store term).blocks
              (record { header = after.hdr; body = bytes } ∷ []),
        ) in
      (
        record d { main_index = x },
        ap (λ s. ok (record (with_store h grow file after d) { store = s }))
            (on_append true after.lhdr after.hdr bytes d f.builds run),
        record {
          builds = f.builds;
          view = view;
          list_header = ap (λ (l : StoredList). l.header) now;
          count = omega (arith, f.count, f.room, long);
          last = inr (id_lem ∙ sym long, omega (arith, long));
          room = omega (arith, long, f.room);
          cached = inr here;
          untouched = λ u ne. rw (==-ne u term ne) (f.untouched u ne);
        },
      )

  -- A block that takes a chunk is there.
  not_null :
      (st : FlushState array_store) (d : TcDataStore h) {n : ℕ} (b : Bool)
      → Follows h grow file term n cache lists st d
      → not (is_null_block st.hdr) && b ≡ true
      → (st.hdr.id ≡ length (st.store term).blocks) × (0 < length (st.store term).blocks)
  unfolding is_null_block
  not_null st d b f c = elim f.last [ inl (e, z) ↦ absurd (let q = rw e at c in cc) | inr p ↦ p ]

  pub emit-Follows :
      (n : ℕ) (st : FlushState array_store) (d : TcDataStore h)
      → Follows h grow file term (suc n) cache lists st d
      → IfOk
          (Goes n (emit (tc_data_store h grow file) term (with_store h grow file st d)))
          (emit array_store term st)
  emit-Follows n st d f =
      IfOk-map (Emits array_store term st) _ (emit array_store term st) emission
        (emit-Emits array_store term st)
    where
      emission :
          (st' : FlushState array_store)
          → Emits array_store term st st'
          → Goes n (emit (tc_data_store h grow file) term (with_store h grow file st d)) st'
      emission st' em = elim em.result [
        | inl (c, enc, e) ↦
            let (id_lem, pos) = not_null st d (ltb st.hdr.body_size block_threshold) f c in
            let (d', run, f') = emission_chunk n em.fid em.bytes em.buf st d f id_lem pos in
            subst (Goes n (emit (tc_data_store h grow file) term (with_store h grow file st d)))
              (sym e)
              (
                d',
                emit-to_block (tc_data_store h grow file) term (with_store h grow file st d) em.p
                      em.fid em.bytes em.buf em.at_back em.at_fid em.above c enc
                    ∙ run,
                f',
              )
        | inr (c, enc, e) ↦
            let (d', run, f') = emission_new n em.fid em.bytes em.buf st d f in
            subst (Goes n (emit (tc_data_store h grow file) term (with_store h grow file st d)))
              (sym e)
              (
                d',
                emit-to_new_block (tc_data_store h grow file) term (with_store h grow file st d)
                      em.p em.fid em.bytes em.buf em.at_back em.at_fid em.above c enc
                    ∙ run,
                f',
              )
      ]
