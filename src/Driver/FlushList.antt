-- ===== src/Driver/FlushList.antt =====
-- DoFlush (src/index/Indexer.cpp) over the driver: the headers that it starts a list with.
use audioneex.Prelude.{
  ℕ, ◌+◌, ◌-◌, ◌%◌, ◌<◌, ◌^◌, ◌≡◌, refl, sym, ap, ◌∙◌, List, [], true, false, if◌then◌else◌, Option,
  Outcome, ok, err, ◌>>=◌, invalid_index_data, ◌⊎◌, inl, inr, arith, Bool-cases, length, mul32,
  sub64, >>=-IfOk,
}
use audioneex.Memory.{load}
use audioneex.Store.{
  DataStore, PListHeader, PListBlockHeader, Block, is_null_list, is_null_block, null_block,
  header_at,
}
use audioneex.Store.Arrays.{array_store}
use audioneex.Flush.{FlushState, flush_loop, flush_list}
use audioneex.Driver.{HashDb, get_plist_header, get_plist_block_header}
use audioneex.Driver.Writes.{HashDbLaws}
use audioneex.Driver.View.{View}
use audioneex.Driver.Emits.{with_store, Follows}
use audioneex.Driver.Headers.{
  IsReadable, get_plist_header-stored, get_plist_block_header-stored, some_last,
}
use audioneex.Driver.Lists.{Runs, same_run, flush_loop-Follows}
use audioneex.Driver.DataStore.{
  Operation, TcDataStore, tc_data_store, on_indexer_list_header, on_indexer_block_header,
}

null_count : (lhdr : PListHeader) → is_null_list lhdr ≡ true → lhdr.block_count ≡ 0
unfolding is_null_list
null_count lhdr e = ground arith

some_count : (lhdr : PListHeader) → is_null_list lhdr ≡ false → 0 < lhdr.block_count
unfolding is_null_list
some_count lhdr e = ground arith

-- A list, from the headers that the data store gives.
module _ (s : DataStore) (term : ℕ) (plist : List ℕ) (st : FlushState s) where
  abbrev start_header : PListHeader → PListBlockHeader → Outcome PListBlockHeader
  start_header lhdr last =
      if is_null_list lhdr
      then ok null_block
      else if is_null_block last
      then err invalid_index_data
      else ok last

  abbrev loop_from : PListHeader → PListBlockHeader → ℕ → Outcome (FlushState s)
  loop_from lhdr hdr tflast =
      flush_loop s (length plist) term plist 0
        (sub64 (sub64 (sub64 (length plist) 1) (mul32 3 tflast)) 2 % 2 ^ 32)
        (record st { lhdr = lhdr; hdr = hdr })

  abbrev list_from : PListHeader → PListBlockHeader → Outcome (FlushState s)
  list_from lhdr last =
      start_header lhdr last >>= λ hdr. load plist (sub64 (length plist) 1) >>= loop_from lhdr hdr

  flush_list-from :
      {lhdr : PListHeader} {last : PListBlockHeader}
      → s.on_indexer_list_header term st.store ≡ lhdr
      → s.on_indexer_block_header term lhdr.block_count st.store ≡ last
      → flush_list s term plist st ≡ list_from lhdr last
  unfolding flush_list
  flush_list-from {lhdr} {last} e f =
      (λ i. list_from (e i) (s.on_indexer_block_header term (e i).block_count st.store))
      ∙ ap (list_from lhdr) f

module _ (h : HashDb) (laws : HashDbLaws h) (grow : ℕ → ℕ → ℕ) (file : Option h.Db) (term : ℕ)
    (plist : List ℕ) (st : FlushState array_store) (d : TcDataStore h) where
  -- The block that DoFlush goes on with.
  starts :
      (hdr : PListBlockHeader)
      → d.op ≡ Operation.build
      → View h d.main_index st.store
      → IsReadable (st.store term)
      → length (st.store term).blocks + length plist < 2 ^ 32
      → start_header array_store term plist st
          (st.store term).header
          (header_at (st.store term).blocks (length (st.store term).blocks))
        ≡ ok hdr
      → Follows h grow file term
          (length plist)
          d.main_index.cache
          st.store
          (record st { lhdr = (st.store term).header; hdr = hdr })
          d
  starts hdr builds view r room e = record {
    builds = builds;
    view = view;
    list_header = refl;
    count = r.count;
    last = begun (Bool-cases (is_null_list (st.store term).header)) (
        Bool-cases
          (is_null_block (header_at (st.store term).blocks (length (st.store term).blocks))));
    room = room;
    cached = inl refl;
    untouched = λ u ne. refl;
  }
    where
      old : List Block
      old = (st.store term).blocks

      last_hdr : PListBlockHeader
      last_hdr = header_at old (length old)

      begun :
          (is_null_list (st.store term).header ≡ true)
            ⊎ (is_null_list (st.store term).header ≡ false)
          → (is_null_block last_hdr ≡ true) ⊎ (is_null_block last_hdr ≡ false)
          → ((hdr ≡ null_block) × (length old ≡ 0)) ⊎ ((hdr.id ≡ length old) × (0 < length old))
      begun (inl n) k =
          inl (let q = rw n at e in cc, sym r.count ∙ null_count (st.store term).header n)
      begun (inr n) (inl k) = absurd (let q = rw (n, k) at e in cc)
      begun (inr n) (inr k) =
          let some_blocks : 0 < length old =
            omega (arith, some_count (st.store term).header n, r.count) in
          let (b, at) = some_last old (length old - 1) (omega arith) in
          let same : last_hdr ≡ hdr = let q = rw (n, k) at e in cc in
          let there : last_hdr ≡ b.header = rw (header_at, at) refl in
          inr
            (ap (λ (p : PListBlockHeader). p.id) (sym same ∙ there) ∙ (r.last b at).0, some_blocks)

  queried_list :
      {lhdr : PListHeader}
      → d.op ≡ Operation.build
      → get_plist_header h term d.main_index ≡ ok lhdr
      → (tc_data_store h grow file).on_indexer_list_header term (ok d) ≡ lhdr
  unfolding on_indexer_list_header
  queried_list builds e = rw (builds, e) refl

  queried_block :
      (i : ℕ) {hdr : PListBlockHeader}
      → d.op ≡ Operation.build
      → get_plist_block_header h term i d.main_index ≡ ok hdr
      → (tc_data_store h grow file).on_indexer_block_header term i (ok d) ≡ hdr
  unfolding on_indexer_block_header
  queried_block i builds e = rw (builds, e) refl

  pub flush_list-Follows :
      d.op ≡ Operation.build
      → View h d.main_index st.store
      → IsReadable (st.store term)
      → (term ≡ d.main_index.cache.list_id → d.main_index.cache.buffer ≡ [])
      → length (st.store term).blocks + length plist < 2 ^ 32
      → Runs h laws grow file term d.main_index.cache st.store 0
          (flush_list (tc_data_store h grow file) term plist (with_store h grow file st d))
          (flush_list array_store term plist st)
  flush_list-Follows builds view r free room =
      let tc = tc_data_store h grow file in
      let lhdr = (st.store term).header in
      let last = header_at (st.store term).blocks (length (st.store term).blocks) in
      let tc_lhdr : tc.on_indexer_list_header term (ok d) ≡ lhdr = queried_list builds (
        get_plist_header-stored h term d.main_index st.store view free
          (length (st.store term).blocks) refl r) in
      let tc_last : tc.on_indexer_block_header term lhdr.block_count (ok d) ≡ last =
        queried_block lhdr.block_count builds (
          ap (λ i. get_plist_block_header h term i d.main_index) r.count
          ∙ get_plist_block_header-stored h term d.main_index st.store view free
              (length (st.store term).blocks) refl r) in
      same_run h laws grow file term d.main_index.cache st.store 0
        (flush_list-from tc term plist (with_store h grow file st d) tc_lhdr tc_last)
        (flush_list-from array_store term plist st refl
          (ap (header_at (st.store term).blocks) r.count))
        (>>=-IfOk _ (start_header array_store term plist st lhdr last) _ λ hdr started.
          same_run h laws grow file term d.main_index.cache st.store 0
            (ap
              (λ m. m >>= λ hdr.
                load plist (sub64 (length plist) 1)
                >>= loop_from tc term plist (with_store h grow file st d) lhdr hdr)
              started)
            refl
            (>>=-IfOk _ (load plist (sub64 (length plist) 1))
              (loop_from array_store term plist st lhdr hdr)
              λ tflast e.
                same_run h laws grow file term d.main_index.cache st.store 0
                  (ap (λ m. m >>= loop_from tc term plist (with_store h grow file st d) lhdr hdr) e)
                  refl
                  (flush_loop-Follows h laws grow file term d.main_index.cache st.store
                    (length plist) plist 0
                    (sub64 (sub64 (sub64 (length plist) 1) (mul32 3 tflast)) 2 % 2 ^ 32)
                    (record st { lhdr = lhdr; hdr = hdr }) d
                    (starts hdr builds view r room started))))
