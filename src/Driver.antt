-- ===== src/Driver.antt =====
-- The Tokyo Cabinet driver: an index of postings lists in a hash database (TCIndex of
-- src/dbdrivers/TCDataStore.cpp, with the block cache of src/dbdrivers/KVDataStore.h). A block is
-- its header and its body as bytes; the first block of a list has the list header in front.
pub mod Writes
pub mod View
pub mod Blocks
pub mod Append
pub mod Merge
pub mod DataStore
pub mod Emits
pub mod Emission
pub mod Headers
pub mod Lists
pub mod FlushList
pub mod Index
pub mod Flushed
pub mod Reads
pub mod Pointers
pub mod Merging
pub mod Merged
pub mod Merges
pub mod ListOnly
pub mod DeltaIndex
use audioneex.Prelude.{
  ℕ, ◌+◌, ◌-◌, List, [], ◌∷◌, ◌++◌, Bool, true, false, not, ◌&&◌, ◌||◌, ◌==◌, ltb, leb,
  if◌then◌else◌, Option, none, some, Outcome, ok, err, fault, ◌>>=◌, runtime_error, logic_error,
  length, take, drop, replicate, word_bytes, word_of,
}
use audioneex.Cache.{Buffer, find, put}
use audioneex.Store.{PListHeader, PListBlockHeader, null_block}

-- The database, as the driver calls it: tchdbget, tchdbputasync, tchdbput, tchdbecode (TCESUCCESS
-- is 0), and the keys that tchdbiternext gives. The key of a block is the memory of two ints, here
-- those ints.
pub record HashDb : Type 1 where
  pub Db : Type 0
  pub get : List ℕ → Db → Option (List ℕ)
  pub put_async : List ℕ → List ℕ → Db → Bool × Db
  pub put_sync : List ℕ → List ℕ → Db → Bool × Db
  pub ecode : Db → ℕ
  pub keys : Db → List (List ℕ)

-- struct BlockCache.
pub record BlockCache : Type 0 where
  pub list_id : ℕ
  pub accum : ℕ
  pub buffer : Buffer

unfoldable pub key : ℕ → ℕ → List ℕ
key k1 k2 = k1 ∷ k2 ∷ []

-- sizeof(PListHeader) and sizeof(PListBlockHeader).
abbrev pub list_header_size : ℕ
list_header_size = 4

abbrev pub block_header_size : ℕ
block_header_size = 12

-- The structures as memory, and back; a read past the end of the memory is undefined.
unfoldable pub list_header_bytes : PListHeader → List ℕ
unfolding word_bytes
list_header_bytes lhdr = word_bytes lhdr.block_count

unfoldable pub block_header_bytes : PListBlockHeader → List ℕ
unfolding word_bytes
block_header_bytes hdr = word_bytes hdr.id ++ (word_bytes hdr.body_size ++ word_bytes hdr.fid_max)

unfoldable pub list_header_of : List ℕ → Outcome PListHeader
list_header_of (a0 ∷ a1 ∷ a2 ∷ a3 ∷ _) = ok (record { block_count = word_of a0 a1 a2 a3 })
list_header_of _ = fault

unfoldable pub block_header_of : List ℕ → Outcome PListBlockHeader
block_header_of (a0 ∷ a1 ∷ a2 ∷ a3 ∷ b0 ∷ b1 ∷ b2 ∷ b3 ∷ c0 ∷ c1 ∷ c2 ∷ c3 ∷ _) = ok (record {
  id = word_of a0 a1 a2 a3;
  body_size = word_of b0 b1 b2 b3;
  fid_max = word_of c0 c1 c2 c3;
})
block_header_of _ = fault

-- A structure written over the bytes from `off` on.
unfoldable pub overwrite : ℕ → List ℕ → List ℕ → Outcome (List ℕ)
overwrite off bytes block =
    if leb (off + length bytes) (length block)
    then ok (take off block ++ (bytes ++ drop (off + length bytes) block))
    else fault

unfoldable pub is_empty : List ℕ → Bool
is_empty [] = true
is_empty (b ∷ bs) = false

-- Where the block header stands.
unfoldable pub header_offset : ℕ → ℕ
header_offset block_id = if block_id == 1 then list_header_size else 0

-- The headers of a block; only the first block has the list header.
unfoldable pub write_headers : PListHeader → PListBlockHeader → List ℕ → Outcome (List ℕ)
unfolding overwrite header_offset list_header_bytes block_header_bytes
write_headers lhdr hdr block = do
  block1 ← if hdr.id == 1 then overwrite 0 (list_header_bytes lhdr) block else ok block
  overwrite (header_offset hdr.id) (block_header_bytes hdr) block1

module _ (h : HashDb) where
  -- `handle` is `none` for a null pointer; `buffer` and `capacity` are those of m_Buffer.
  pub record TcIndex : Type 0 where
    pub handle : Option h.Db
    pub cache : BlockCache
    pub buffer : List ℕ
    pub capacity : ℕ

  -- The database behind the handle.
  unfoldable pub opened : TcIndex → Outcome h.Db
  opened x = elim x.handle [ none ↦ fault | some db ↦ ok db ]

  unfoldable pub get_plist_header : ℕ → TcIndex → Outcome PListHeader
  unfolding opened key list_header_of
  get_plist_header list_id x = do
    db ← opened x
    elim (h.get (key list_id 1) db) [
      | none ↦ ok (record { block_count = 0 })
      | some block ↦ list_header_of block
    ]

  unfoldable pub get_plist_block_header : ℕ → ℕ → TcIndex → Outcome PListBlockHeader
  unfolding opened key block_header_of header_offset
  get_plist_block_header list_id block_id x = do
    db ← opened x
    elim (h.get (key list_id block_id) db) [
      | none ↦ ok null_block
      | some block ↦ block_header_of (drop (header_offset block_id) block)
    ]

  -- The bytes of a block go to the front of the buffer, which grows if they do not fit. A block that is
  -- shorter than its headers makes `rbytes` wrap around, and no vector has that size.
  unfoldable pub read_block : ℕ → ℕ → List ℕ → Bool → TcIndex → Outcome (ℕ × List ℕ)
  unfolding opened key header_offset
  read_block list_id block_id buffer headers x = do
    db ← opened x
    elim (h.get (key list_id block_id) db) [
      | none ↦ ok (0, buffer)
      | some block ↦
          let off = if headers then 0 else header_offset block_id + block_header_size in
          if ltb (length block) off
          then err logic_error
          else ok (length block - off, drop off block ++ drop (length block - off) buffer)
    ]

  -- CHECK_OP: a call that fails with the code of success is taken for a success.
  unfoldable pub check_op : Bool × h.Db → Outcome h.Db
  check_op (done, db) = if done || h.ecode db == 0 then ok db else err runtime_error

  unfoldable pub write_block : ℕ → ℕ → List ℕ → ℕ → TcIndex → Outcome TcIndex
  unfolding opened key check_op
  write_block list_id block_id buffer data_size x = do
    db ← opened x
    db' ←
        if ltb (length buffer) data_size
        then fault
        else check_op (h.put_async (key list_id block_id) (take data_size buffer) db)
    ok (record x { handle = some db' })

  unfoldable pub write_blocks : ℕ → Buffer → TcIndex → Outcome TcIndex
  unfolding write_block
  write_blocks list_id [] x = ok x
  write_blocks list_id ((block_id, block) ∷ blocks) x = do
    x' ← write_block list_id block_id block (length block) x
    write_blocks list_id blocks x'

  -- `m_BlocksCache.buffer[block_id]`, read from the database if it is not in the cache.
  unfoldable pub cached_block : ℕ → ℕ → TcIndex → Outcome (List ℕ)
  unfolding read_block find is_empty
  cached_block list_id block_id x =
      let cached = find block_id x.cache.buffer in
      if is_empty cached
      then (read_block list_id block_id cached true x >>= λ r. ok r.1)
      else ok cached

  -- The list header in block 1.
  unfoldable pub update_list_header : ℕ → PListHeader → TcIndex → Outcome TcIndex
  update_list_header list_id lhdr x = do
    block ← cached_block list_id 1 x
    block' ←
        overwrite 0 (list_header_bytes lhdr)
          (if is_empty block then replicate list_header_size 0 else block)
    ok (record x { cache = record x.cache { buffer = put 1 block' x.cache.buffer } })

  -- The blocks of another list leave the cache.
  unfoldable pub switch_list : ℕ → TcIndex → Outcome TcIndex
  unfolding write_blocks
  switch_list list_id x = if list_id == x.cache.list_id then ok x else do
    x' ← write_blocks x.cache.list_id x.cache.buffer x
    ok (record x' { cache = record x'.cache { list_id = list_id; buffer = [] } })

  -- The block that takes the chunk, with its headers.
  unfoldable pub load_block : ℕ → ℕ → Bool → TcIndex → Outcome (List ℕ)
  load_block list_id block_id new_block x = do
    block ← if new_block then ok (find block_id x.cache.buffer) else cached_block list_id block_id x
    ok (if is_empty block then replicate (header_offset block_id + block_header_size) 0 else block)

  unfoldable pub append_chunk :
      ℕ → PListHeader → PListBlockHeader → List ℕ → Bool → TcIndex → Outcome TcIndex
  append_chunk list_id lhdr hdr chunk new_block x = do
    x1 ← switch_list list_id x
    block ← load_block list_id hdr.id new_block x1
    block' ← write_headers lhdr hdr block
    let x2 : TcIndex = record x1 {
      cache = record x1.cache { buffer = put hdr.id (block' ++ chunk) x1.cache.buffer };
    }
    if new_block && not (hdr.id == 1) then update_list_header list_id lhdr x2 else ok x2

  unfoldable pub clear_cache : TcIndex → TcIndex
  clear_cache x = record x { cache = record { list_id = 0; accum = 0; buffer = [] } }

  unfoldable pub flush_block_cache : TcIndex → Outcome TcIndex
  unfolding write_blocks clear_cache
  flush_block_cache x = elim x.cache.buffer [
    | [] ↦ ok x
    | b ∷ bs ↦ write_blocks x.cache.list_id x.cache.buffer x >>= λ x'. ok (clear_cache x')
  ]
