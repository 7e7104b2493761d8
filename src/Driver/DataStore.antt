-- ===== src/Driver/DataStore.antt =====
-- TCDataStore (src/dbdrivers/TCDataStore.cpp): the data store of the engine over a main index, and a
-- delta index that takes what is indexed in BUILD_MERGE until the end of the session.
use audioneex.Prelude.{
  ℕ, ◌+◌, ◌-◌, List, [], ◌∷◌, ◌++◌, Bool, true, false, not, ◌==◌, ltb, if◌then◌else◌, Option, none,
  some, Outcome, ok, err, fault, stuck, ◌>>=◌, runtime_error, invalid_argument, length, take, drop,
}
use Prim.Native.Nat.{min}
use audioneex.Store
use audioneex.Store.{PListHeader, PListBlockHeader, is_null_list, is_null_block, null_block}
use audioneex.Driver.Merge.{merge}
use audioneex.Driver.{
  HashDb, TcIndex, get_plist_header, get_plist_block_header, read_block, append_chunk, clear_cache,
  flush_block_cache, check_op,
}

-- KVDataStore::eOperation.
pub data Operation : Type 0 where
  get build build_merge : Operation

module _ (h : HashDb) where
  -- `fingerprints` is m_QFingerprints, `none` while it is closed.
  pub record TcDataStore : Type 0 where
    pub main_index : TcIndex h
    pub delta_index : TcIndex h
    pub fingerprints : Option h.Db
    pub op : Operation
    pub run : ℕ
    pub read_buffer : List ℕ

  -- The bytes are the first `data_size` of the read buffer.
  unfoldable pub get_plist_block : ℕ → ℕ → Bool → TcDataStore → Outcome ((ℕ × List ℕ) × TcDataStore)
  get_plist_block list_id block headers s = do
    (data_size, buffer) ← read_block h list_id block s.read_buffer headers s.main_index
    ok ((data_size, buffer), record s { read_buffer = buffer })

  -- `delta` is what m_DeltaIndex.Open gives: the database of the file, or `none` where it fails.
  unfoldable pub on_indexer_start : Option h.Db → TcDataStore → Outcome TcDataStore
  on_indexer_start delta s = elim s.op [
    | Operation.get ↦ err invalid_argument
    | Operation.build ↦ ok (record s { run = 0 })
    | Operation.build_merge ↦ elim delta [
      | none ↦ err runtime_error
      | some db ↦ ok (record s { delta_index = record s.delta_index { handle = some db }; run = 0 })
    ]
  ]

  unfoldable pub on_indexer_flush_start : TcDataStore → TcDataStore
  on_indexer_flush_start s = record s {
    main_index = clear_cache h s.main_index;
    delta_index = clear_cache h s.delta_index;
    run = s.run + 1;
  }

  unfoldable pub on_indexer_flush_end : TcDataStore → Outcome TcDataStore
  on_indexer_flush_end s =
      let in_main : Outcome TcDataStore = do
        x ← flush_block_cache h s.main_index
        ok (record s { main_index = x })
      in let in_delta : Outcome TcDataStore = do
        x ← flush_block_cache h s.delta_index
        ok (record s { delta_index = x })
        in elim s.op [ Operation.build ↦ in_main | _ ↦ in_delta ]

  -- The delta index is merged and closed. The removal of its file is left out.
  unfoldable pub on_indexer_end : (ℕ → ℕ → ℕ) → TcDataStore → Outcome TcDataStore
  on_indexer_end grow s =
      let merged : Outcome TcDataStore = do
        (delta, live) ← merge h grow s.delta_index s.main_index
        ok (record s { main_index = live; delta_index = record delta { handle = none } })
      in elim s.op [ Operation.build_merge ↦ merged | _ ↦ ok s ]

  unfoldable pub on_indexer_list_header : ℕ → TcDataStore → Outcome PListHeader
  on_indexer_list_header list_id s =
      let in_both : Outcome PListHeader = do
        hdr ← get_plist_header h list_id s.delta_index
        if not (is_null_list hdr) then ok hdr else get_plist_header h list_id s.main_index
      in elim s.op [
        | Operation.build_merge ↦
            if s.run == 1 then get_plist_header h list_id s.main_index else in_both
        | Operation.build ↦ get_plist_header h list_id s.main_index
        | Operation.get ↦ err invalid_argument
      ]

  unfoldable pub on_indexer_block_header : ℕ → ℕ → TcDataStore → Outcome PListBlockHeader
  on_indexer_block_header list_id block s =
      let in_both : Outcome PListBlockHeader = do
        hdr ← get_plist_block_header h list_id block s.delta_index
        if not (is_null_block hdr)
            then ok hdr
            else get_plist_block_header h list_id block s.main_index
      in elim s.op [
        | Operation.build_merge ↦
            if s.run == 1 then get_plist_block_header h list_id block s.main_index else in_both
        | Operation.build ↦ get_plist_block_header h list_id block s.main_index
        | Operation.get ↦ err invalid_argument
      ]

  -- OnIndexerChunk and OnIndexerNewBlock, which differ in the last argument of AppendChunk.
  unfoldable pub on_indexer_append :
      Bool → ℕ → PListHeader → PListBlockHeader → List ℕ → TcDataStore → Outcome TcDataStore
  on_indexer_append new_block list_id lhdr hdr chunk s =
      let in_delta : Outcome TcDataStore = do
        x ← append_chunk h list_id lhdr hdr chunk new_block s.delta_index
        ok (record s { delta_index = x })
      in let in_main : Outcome TcDataStore = do
        x ← append_chunk h list_id lhdr hdr chunk new_block s.main_index
        ok (record s { main_index = x })
        in elim s.op [
          | Operation.build_merge ↦ in_delta
          | Operation.build ↦ in_main
          | Operation.get ↦ err invalid_argument
        ]

  -- TCFingerprints; the key is the fid.
  unfoldable pub write_fingerprint : ℕ → List ℕ → TcDataStore → Outcome TcDataStore
  write_fingerprint fid bytes s = elim s.fingerprints [
    | none ↦ err runtime_error
    | some db ↦ check_op h (h.put_sync (fid ∷ []) bytes db) >>= λ db'.
        ok (record s { fingerprints = some db' })
  ]

  unfoldable pub read_fingerprint_size : ℕ → TcDataStore → Outcome ℕ
  read_fingerprint_size fid s = elim s.fingerprints [
    | none ↦ err runtime_error
    | some db ↦ elim (h.get (fid ∷ []) db) [ none ↦ ok 0 | some bytes ↦ ok (length bytes) ]
  ]

  -- GetFingerprint: at most `nbytes` bytes from offset `bo`, or all for 0. `dsize - bo` is an unsigned
  -- difference, and memory behind the record is read if `bo` is not in it.
  unfoldable pub read_fingerprint : ℕ → ℕ → ℕ → TcDataStore → Outcome ((ℕ × List ℕ) × TcDataStore)
  read_fingerprint fid nbytes bo s = elim s.fingerprints [
    | none ↦ err runtime_error
    | some db ↦ elim (h.get (fid ∷ []) db) [
      | none ↦ ok ((0, s.read_buffer), s)
      | some bytes ↦
          let left = length bytes - bo in
          let gsize = min (if nbytes == 0 then left else nbytes) left in
          let buffer = take gsize (drop bo bytes) ++ drop gsize s.read_buffer in
          if ltb (length bytes) bo
          then fault
          else ok ((gsize, buffer), record s { read_buffer = buffer })
    ]
  ]

  unfoldable pub on_indexer_fingerprint : ℕ → List ℕ → TcDataStore → Outcome TcDataStore
  unfolding write_fingerprint
  on_indexer_fingerprint fid bytes s = elim s.fingerprints [
    | none ↦ ok s
    | some _ ↦ write_fingerprint fid bytes s
  ]

  -- What the engine gets of it. A state is `err` or `fault` once a call has failed so; the two queries of
  -- headers cannot say that, and give null headers then.
  abbrev pub or_else : {A : Type 0} → A → Outcome A → A
  or_else a (ok b) = b
  or_else a (err e) = a
  or_else a fault = a
  or_else a stuck = a

  abbrev pub tc_data_store : (ℕ → ℕ → ℕ) → Option h.Db → Store.DataStore
  tc_data_store grow delta = record {
    State = Outcome TcDataStore;
    on_indexer_start = λ s. s >>= on_indexer_start delta;
    on_indexer_end = λ s. s >>= on_indexer_end grow;
    on_indexer_flush_start = λ s. s >>= λ d. ok (on_indexer_flush_start d);
    on_indexer_flush_end = λ s. s >>= on_indexer_flush_end;
    on_indexer_list_header =
        λ t s. or_else (record { block_count = 0 }) (s >>= on_indexer_list_header t);
    on_indexer_block_header = λ t i s. or_else null_block (s >>= on_indexer_block_header t i);
    on_indexer_chunk = λ t lhdr hdr chunk s. s >>= on_indexer_append false t lhdr hdr chunk;
    on_indexer_new_block = λ t lhdr hdr chunk s. s >>= on_indexer_append true t lhdr hdr chunk;
    on_indexer_fingerprint = λ fid bytes s. s >>= on_indexer_fingerprint fid bytes;
    get_plist_block =
        λ t i s. or_else [] (s >>= λ d. get_plist_block t i false d >>= λ r. ok (take r.0.0 r.0.1));
  }
