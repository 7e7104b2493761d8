-- ===== src/Driver/Merge.antt =====
-- Merge and RawBlockToBlock of TCIndex (src/dbdrivers/TCDataStore.cpp): the blocks of the delta index go
-- behind those of the live index.
use audioneex.Prelude.{
  ℕ, ◌+◌, ◌-◌, ◌&&◌, List, [], ◌∷◌, ◌++◌, Bool, true, ◌==◌, ltb, leb, if◌then◌else◌, Option, none,
  some, Outcome, ok, fault, ◌>>=◌, length, take, drop, replicate, sub64,
}
use audioneex.Driver.{
  HashDb, TcIndex, opened, read_block, write_block, overwrite, list_header_size, block_header_size,
  header_offset, list_header_of, block_header_of, list_header_bytes, block_header_bytes,
}

-- struct PListBlock, its pointers as offsets into the memory of the block.
pub record PListBlock : Type 0 where
  pub list_header : Option ℕ
  pub header : Option ℕ
  pub body : Option ℕ
  pub body_size : ℕ

abbrev pub null_plist_block : PListBlock
null_plist_block = record { list_header = none; header = none; body = none; body_size = 0 }

unfoldable pub raw_block_to_block : ℕ → Bool → PListBlock
raw_block_to_block block_size is_first =
    let lhdr_size = if is_first then list_header_size else 0 in
    let whole : PListBlock = record {
      list_header = if is_first then some 0 else none;
      header = some lhdr_size;
      body = some (lhdr_size + block_header_size);
      body_size = sub64 (sub64 block_size block_header_size) lhdr_size;
    } in
    if block_size == 0
    then null_plist_block
    else if is_first && leb block_size list_header_size
    then record null_plist_block { list_header = some 0 }
    else whole

-- `*p = v` for a pointer into a vector, which is dangling if the vector has moved.
unfoldable pub assign : Option ℕ → Bool → List ℕ → List ℕ → Outcome (List ℕ)
assign none moved bytes block = fault
assign (some off) moved bytes block = if moved then fault else overwrite off bytes block

-- A read through a pointer into a value of the database.
unfoldable pub deref : Option ℕ → List ℕ → Outcome (List ℕ)
deref none block = fault
deref (some off) block = ok (drop off block)

-- `resize`.
unfoldable pub resize : ℕ → List ℕ → List ℕ
resize n block = take n block ++ replicate (n - length block) 0

-- The headers and the body of a delta block in the buffer of the live one, whose first `lbsize` bytes
-- are in use; `moved` tells whether the buffer has moved after the pointers into it were taken.
unfoldable pub merge_bytes :
    PListBlock → PListBlock → Bool → ℕ → Bool → List ℕ → List ℕ → Outcome (List ℕ)
unfolding assign deref
merge_bytes lblk dblk is_first lbsize moved val lblock =
    let with_list_header : Outcome (List ℕ) = do
      bytes ← deref dblk.list_header val
      lhdr ← list_header_of bytes
      assign lblk.list_header moved (list_header_bytes lhdr) lblock
    in let with_body : ℕ → ℕ → List ℕ → Outcome (List ℕ) = λ header body block. do
      hdr ← block_header_of (drop header val)
      block' ← assign lblk.header moved (block_header_bytes hdr) block
      overwrite lbsize (take dblk.body_size (drop body val)) block'
      in do
        block ← if is_first then with_list_header else ok lblock
        elim dblk.header [
          | none ↦ ok block
          | some header ↦ elim dblk.body [
            | none ↦ ok block
            | some body ↦ with_body header body block
          ]
        ]

module _ (h : HashDb) (grow : ℕ → ℕ → ℕ) where
  -- A vector of this capacity after a growth to `n`: `grow` is the choice of the library.
  unfoldable pub capacity_for : ℕ → ℕ → ℕ
  capacity_for capacity n = if ltb capacity n then grow capacity n else capacity

  -- The size of the live block, or of the headers of a new one.
  unfoldable pub live_size : ℕ → ℕ → ℕ
  live_size block_id size = if size == 0 then header_offset block_id + block_header_size else size

  -- The buffer with room for both bodies.
  unfoldable pub with_room : ℕ → List ℕ → List ℕ
  unfolding resize
  with_room total read = if ltb (length read) total then resize total read else read

  -- A block of the delta index, when the live one has been read into the buffer.
  unfoldable pub merge_read :
      ℕ → ℕ → List ℕ → ℕ → List ℕ → TcIndex h → TcIndex h → Outcome (TcIndex h × TcIndex h)
  merge_read list_id block_id val size read delta live = do
    let is_first = block_id == 1
    let lbsize = live_size block_id size
    let lblk = raw_block_to_block lbsize is_first
    let dblk = raw_block_to_block (length val) is_first
    let total = lbsize + dblk.body_size
    let capacity = capacity_for delta.capacity (length read)
    lblock ← merge_bytes lblk dblk is_first lbsize (ltb capacity total) val (with_room total read)
    live' ← write_block h list_id block_id lblock total live
    ok (record delta { buffer = lblock; capacity = capacity_for capacity total }, live')

  -- `delta.buffer` is `lblock`, which keeps what earlier blocks left.
  unfoldable pub merge_block :
      ℕ → ℕ → List ℕ → TcIndex h → TcIndex h → Outcome (TcIndex h × TcIndex h)
  merge_block list_id block_id val delta live = do
    (size, read) ← read_block h list_id block_id delta.buffer true live
    merge_read list_id block_id val size read delta live

  -- A key of the delta index, and what the database has of it. The memory of a key has the list's number
  -- and the block's; it is read past its end if it is shorter.
  unfoldable pub merge_key :
      List ℕ → Option (List ℕ) → TcIndex h → TcIndex h → Outcome (TcIndex h × TcIndex h)
  unfolding merge_block
  merge_key (list_id ∷ block_id ∷ _) (some val) delta live =
      merge_block list_id block_id val delta live
  merge_key (list_id ∷ block_id ∷ _) none delta live = ok (delta, live)
  merge_key _ val delta live = fault

  unfoldable pub merge_keys :
      List (List ℕ) → TcIndex h → TcIndex h → Outcome (TcIndex h × TcIndex h)
  unfolding merge_key
  merge_keys [] delta live = ok (delta, live)
  merge_keys (key ∷ keys) delta live = do
    db ← opened h delta
    (delta', live') ← merge_key key (h.get key db) delta live
    merge_keys keys delta' live'

  unfoldable pub merge : TcIndex h → TcIndex h → Outcome (TcIndex h × TcIndex h)
  unfolding merge_keys
  merge delta live = do db ← opened h delta; merge_keys (h.keys db) delta live
