-- ===== src/Driver/Flushed.antt =====
-- DoFlush (src/index/Indexer.cpp) between OnIndexerFlushStart and OnIndexerFlushEnd of the driver
-- (src/dbdrivers/TCDataStore.cpp), as IndexerImpl::Flush has them.
use audioneex.Prelude.{
  ℕ, ◌+◌, ◌<◌, ◌^◌, ◌≡◌, ◌≢◌, refl, sym, ap, ◌∙◌, List, [], ◌∷◌, Option, Outcome, ok, ◌>>=◌, ◌⊎◌,
  inl, inr, arith, length, All, IfOk, IfOk-map, IfOk-ok, >>=-IfOk,
}
use mathlib.Core.Path.{subst}
use audioneex.Cache.{Buffer}
use audioneex.Cache.Spec.{cached}
use audioneex.Store.{StoredList, null_block}
use audioneex.Store.Arrays.{array_store, array_laws}
use audioneex.Flush.{FlushState, flush_list, flush_lists, do_flush}
use audioneex.Flush.Entries.{
  Entry, buffer_of, DistinctTerms, IsEntry, IsStored, HasFresh, do_flush-HasFresh,
}
use audioneex.Driver.{HashDb, TcIndex, BlockCache, clear_cache, flush_block_cache}
use audioneex.Driver.Writes.{HashDbLaws}
use audioneex.Driver.View.{View}
use audioneex.Driver.Emits.{with_store}
use audioneex.Driver.Emission.{Goes}
use audioneex.Driver.Headers.{IsReadable}
use audioneex.Driver.FlushList.{flush_list-Follows}
use audioneex.Driver.DataStore.{
  Operation, TcDataStore, tc_data_store, on_indexer_flush_start, on_indexer_flush_end,
}
use audioneex.Driver.Index.{
  IsIndex, FitsDriver, length-blocks_of, list_of-IsReadable, clear_cache-View,
  flush_block_cache-IsIndex,
}

module _ (h : HashDb) (laws : HashDbLaws h) (grow : ℕ → ℕ → ℕ) (file : Option h.Db) where
  -- A list that can be flushed to the driver.
  abbrev Ready : (ℕ → StoredList) → TcDataStore h → ℕ × List ℕ → Type 0
  Ready a d (term, plist) =
      IsReadable (a term)
      × (term ≡ d.main_index.cache.list_id → d.main_index.cache.buffer ≡ [])
      × (length (a term).blocks + length plist < 2 ^ 32)

  abbrev DistinctKeys : Buffer → Type 0
  DistinctKeys [] = Unit {0}
  DistinctKeys ((term, plist) ∷ b) = All (λ (e : ℕ × List ℕ). e.0 ≢ term) b × DistinctKeys b

  abbrev Ends : Outcome (FlushState (tc_data_store h grow file)) → FlushState array_store → Type 0
  Ends run st' =
      (d' : TcDataStore h) × (run ≡ ok (with_store h grow file st' d'))
      × (d'.op ≡ Operation.build)
      × View h d'.main_index st'.store

  Ready-kept :
      (term : ℕ) (a a' : ℕ → StoredList) (d d' : TcDataStore h) (b : Buffer)
      → ((d'.main_index.cache ≡ d.main_index.cache) ⊎ (d'.main_index.cache.list_id ≡ term))
      → ((u : ℕ) → u ≢ term → a' u ≡ a u)
      → All (λ (e : ℕ × List ℕ). e.0 ≢ term) b
      → All (Ready a d) b
      → All (Ready a' d') b
  Ready-kept term a a' d d' [] cache same ne r = tt
  Ready-kept term a a' d d' ((u, plist) ∷ b) cache same (n, ne) ((read, free, room), r) = (
    (
      subst IsReadable (sym (same u n)) read,
      elim cache [
        | inl c ↦ λ q.
            ap (λ (k : BlockCache). k.buffer) c ∙ free (q ∙ ap (λ (k : BlockCache). k.list_id) c)
        | inr c ↦ λ q. absurd (n (q ∙ c))
      ],
      subst (λ (l : StoredList). length l.blocks + length plist < 2 ^ 32) (sym (same u n)) room,
    ),
    Ready-kept term a a' d d' b cache same ne r,
  )

  flush_lists-Ends :
      (b : Buffer) (st : FlushState array_store) (d : TcDataStore h)
      → d.op ≡ Operation.build
      → View h d.main_index st.store
      → All (Ready st.store d) b
      → DistinctKeys b
      → IfOk
          (Ends (flush_lists (tc_data_store h grow file) b (with_store h grow file st d)))
          (flush_lists array_store b st)
  unfolding flush_lists
  flush_lists-Ends [] st d builds view r k = (d, refl, builds, view)
  flush_lists-Ends ((term, plist) ∷ b) st d builds view ((read, free, room), r) (ne, k) =
      let tc = tc_data_store h grow file in
      let std = with_store h grow file st d in
      >>=-IfOk _ (flush_list array_store term plist st) (flush_lists array_store b) λ st1 ran.
        let (d1, run1, f) =
          IfOk-ok
            (Goes h laws grow file term d.main_index.cache st.store 0
              (flush_list tc term plist std))
            (flush_list array_store term plist st) ran
            (flush_list-Follows h laws grow file term plist st d builds view read free room) in
        IfOk-map (Ends (flush_lists tc b (with_store h grow file st1 d1))) _
          (flush_lists array_store b st1)
          (λ st' p. (p.0, ap (λ m. m >>= flush_lists tc b) run1 ∙ p.1, p.2, p.3))
          (flush_lists-Ends b st1 d1 f.builds f.view
            (Ready-kept term st.store st1.store d d1 b f.cached f.untouched ne r) k)

  entries-Ready :
      (xs : List Entry) (a : ℕ → StoredList) (d : TcDataStore h)
      → d.main_index.cache.buffer ≡ []
      → All (IsStored array_store array_laws a) xs
      → All FitsDriver xs
      → All (Ready a d) (buffer_of xs)
  entries-Ready [] a d e s f = tt
  entries-Ready (x ∷ xs) a d e (stored, s) (fits, f) = (
    (
      subst IsReadable (sym stored) (list_of-IsReadable x fits),
      λ q. e,
      subst (λ (l : StoredList). length l.blocks + length (cached x.fresh) < 2 ^ 32) (sym stored)
          (omega (arith, fits.room, length-blocks_of 0 x.stored)),
    ),
    entries-Ready xs a d e s f,
  )

  entries_ne :
      (t : ℕ) (xs : List Entry)
      → All (λ y. ¬ (y.term ≡ t)) xs
      → All (λ (e : ℕ × List ℕ). e.0 ≢ t) (buffer_of xs)
  entries_ne t [] h = tt
  entries_ne t (x ∷ xs) h = (h.0, entries_ne t xs h.1)

  distinct_keys : (xs : List Entry) → DistinctTerms xs → DistinctKeys (buffer_of xs)
  distinct_keys [] h = tt
  distinct_keys (x ∷ xs) h = (entries_ne x.term xs h.0, distinct_keys xs h.1)

  -- The flush of a buffer, from empty caches.
  do_flush-View :
      (b : Buffer) (a : ℕ → StoredList) (d : TcDataStore h)
      → d.op ≡ Operation.build
      → View h d.main_index a
      → All (Ready a d) b
      → DistinctKeys b
      → IfOk
          (λ a'.
            (d' : TcDataStore h) × (do_flush (tc_data_store h grow file) b (ok d) ≡ ok (ok d'))
            × (d'.op ≡ Operation.build)
            × View h d'.main_index a')
          (do_flush array_store b a)
  unfolding do_flush
  do_flush-View b a d builds view r k =
      let tc = tc_data_store h grow file in
      let begun : FlushState array_store = record {
        plchunk = [];
        plchunk_size = 0;
        lhdr = record { block_count = 0 };
        hdr = null_block;
        ser_chunk = [];
        store = a;
      } in
      >>=-IfOk _ (flush_lists array_store b begun) (λ st. ok st.store)
        λ st ran.
          let (d', run, builds', view') =
            IfOk-ok (Ends (flush_lists tc b (with_store h grow file begun d)))
              (flush_lists array_store b begun) ran (flush_lists-Ends b begun d builds view r k) in
          (d', ap (λ m. m >>= λ st. ok st.store) run, builds', view')

  flush_end :
      (d : TcDataStore h) {x : TcIndex h}
      → d.op ≡ Operation.build
      → flush_block_cache h d.main_index ≡ ok x
      → on_indexer_flush_end h d ≡ ok (record d { main_index = x })
  unfolding on_indexer_flush_end
  flush_end d e run = rw (e, run) refl

  -- In BUILD mode, the database has the given lists, and the cache the given entries, one for each term,
  -- which name their stored lists in non-empty blocks. Each entry has a posting at least; its fids grow
  -- from above the stored ones, its postings fit their words and have 31000 words at most each, its array
  -- is shorter than 2^32 words, its blocks and new postings together are fewer than 2^32 - 1, its blocks
  -- and the words of its array together fewer than 2^32, and the body size and the largest fid of its
  -- last stored header fit their words. Then the flush of the indexer to the driver ends without an error,
  -- and the database has the new postings of each list behind the ones it had, in non-empty blocks, and
  -- all other lists as they were.
  pub flush-IsIndex :
      (xs : List Entry) (a : ℕ → StoredList) (d : TcDataStore h)
      → d.op ≡ Operation.build
      → IsIndex h d.main_index a
      → DistinctTerms xs
      → All IsEntry xs
      → All (IsStored array_store array_laws a) xs
      → All FitsDriver xs
      → (d' : TcDataStore h) × (a' : ℕ → StoredList) × ((do_flush
              (tc_data_store h grow file)
              (buffer_of xs)
              ((tc_data_store h grow file).on_indexer_flush_start (ok d))
            >>= λ s. ok ((tc_data_store h grow file).on_indexer_flush_end s))
          ≡ ok (ok d'))
        × IsIndex h d'.main_index a'
        × All (HasFresh array_store array_laws a') xs
        × ((u : ℕ) → All (λ y. ¬ (u ≡ y.term)) xs → a' u ≡ a u)
  unfolding on_indexer_flush_start clear_cache
  flush-IsIndex xs a d builds ix distinct entries stored fits =
      let tc = tc_data_store h grow file in
      let d0 = on_indexer_flush_start h d in
      let (a', run, fresh, others) =
        do_flush-HasFresh array_store array_laws xs a distinct entries stored in
      let (d1, run1, builds1, view1) = IfOk-ok _ (do_flush array_store (buffer_of xs) a) run (
        do_flush-View (buffer_of xs) a d0 builds (clear_cache-View h laws d.main_index a ix)
          (entries-Ready xs a d0 refl stored fits) (distinct_keys xs distinct)) in
      let (x, run2, ix') =
        flush_block_cache-IsIndex h laws d1.main_index a' d1.main_index.cache.buffer refl view1 in
      (
        record d1 { main_index = x },
        a',
        ap (λ m. m >>= λ s. ok (tc.on_indexer_flush_end s)) run1
            ∙ ap ok (flush_end d1 builds1 run2),
        ix',
        fresh,
        others,
      )
