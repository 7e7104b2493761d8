-- ===== src/Driver/ListOnly.antt =====
-- A record of the delta index that has only the list header, merged by TCIndex::Merge
-- (src/dbdrivers/TCDataStore.cpp) into the first block of the live index.
use audioneex.Prelude.{
  ℕ, ◌+◌, ◌-◌, ◌<◌, ◌≤◌, ◌^◌, ◌≡◌, refl, sym, ap, ◌∙◌, List, [], ◌++◌, true, false, some, ok, arith,
  length, length-append, drop, take-append, append_assoc, le→ltb, ==-ne, IsU32, word_of-bytes,
}
use audioneex.Store.{PListHeader, PListBlockHeader, StoredList, Block, block_at}
use audioneex.Driver.{
  HashDb, TcIndex, opened, read_block, key, header_offset, list_header_bytes, block_header_bytes,
  list_header_of,
}
use audioneex.Driver.Writes.{HashDbLaws, write_block-take}
use audioneex.Driver.View.{layout, raw}
use audioneex.Driver.Reads.{length-layout}
use audioneex.Driver.Blocks.{raw-some}
use audioneex.Driver.Merge.{
  PListBlock, null_plist_block, raw_block_to_block, merge_bytes, merge_block, merge_read, with_room,
  live_size, capacity_for,
}
use audioneex.Driver.Pointers.{overwrite-over, length_headers, raw_first, pointers}
use audioneex.Driver.Merged.{KeepsBuffer, length-drop, capacity_for_inside}

-- The pointer to the list header alone.
abbrev list_pointer : PListBlock
list_pointer = record null_plist_block { list_header = some 0 }

raw_list_only :
    (lhdr : PListHeader) → raw_block_to_block (length (list_header_bytes lhdr)) true ≡ list_pointer
unfolding raw_block_to_block list_header_bytes
raw_list_only lhdr = refl

list_header_of-bytes :
    (lhdr : PListHeader)
    → IsU32 lhdr.block_count
    → list_header_of (list_header_bytes lhdr) ≡ ok lhdr
unfolding list_header_of list_header_bytes
list_header_of-bytes lhdr fits =
    ap (λ n. ok (record { block_count = n })) (word_of-bytes lhdr.block_count fits)

module _ (lhdr lold : PListHeader) (hdr : PListBlockHeader) (body : List ℕ)
    (fits : IsU32 lhdr.block_count) where
  merge_list_only :
      (n lbsize : ℕ) (behind : List ℕ)
      → merge_bytes
          (pointers true n)
          list_pointer
          true
          lbsize
          false
          (list_header_bytes lhdr)
          (layout lold 1 hdr body ++ behind)
        ≡ ok (layout lhdr 1 hdr body ++ behind)
  unfolding merge_bytes
  merge_list_only n lbsize behind =
      let blocks = block_header_bytes hdr ++ body in
      rw
        (
          list_header_of-bytes lhdr fits,
          append_assoc (list_header_bytes lold) blocks behind,
          overwrite-over 0 [] (list_header_bytes lold) (list_header_bytes lhdr) (blocks ++ behind)
              refl ((length_headers lold hdr).0 ∙ sym (length_headers lhdr hdr).0),
        )
        (ap ok (sym (append_assoc (list_header_bytes lhdr) blocks behind)))

module _ (h : HashDb) (laws : HashDbLaws h) (grow : ℕ → ℕ → ℕ) (t : ℕ) (delta live : TcIndex h)
    (lhdr : PListHeader) (fits : IsU32 lhdr.block_count) (db : h.Db)
    (has_db : live.handle ≡ some db) (l : StoredList) (stored : h.get (key t 1) db ≡ raw l 1)
    (b : Block) (there : block_at l.blocks 1 ≡ some b) (body_fits : length b.body < 2 ^ 63)
    (vector : length delta.buffer ≤ delta.capacity)
    (room : 16 + length b.body ≤ delta.capacity) where
  abbrev block : List ℕ
  block = layout l.header 1 b.header b.body

  abbrev behind : List ℕ
  behind = drop (length block - 0) delta.buffer

  size_block : length block ≡ 16 + length b.body
  unfolding header_offset
  size_block = length-layout l.header 1 b.header b.body

  size_new : length (layout lhdr 1 b.header b.body) ≡ 16 + length b.body
  unfolding header_offset
  size_new = length-layout lhdr 1 b.header b.body

  read_first : read_block h t 1 delta.buffer true live ≡ ok (length block, block ++ behind)
  unfolding read_block
  read_first =
      rw (opened, has_db, stored ∙ raw-some l 1 b there, le→ltb (length block) 0 (omega arith))
        (ap (λ n. ok (n, block ++ behind)) {x = length block - 0} (omega arith))

  live_first : live_size h grow 1 (length block) ≡ 16 + length b.body
  unfolding live_size
  live_first = rw (==-ne (length block) 0 (λ z. omega (arith, z, size_block))) size_block

  read_inside : length (block ++ behind) ≤ delta.capacity
  read_inside = omega (
    arith,
    vector,
    room,
    size_block,
    length-append block behind,
    length-drop delta.buffer (length block - 0),
  )

  with_room_first : with_room h grow (16 + length b.body + 0) (block ++ behind) ≡ block ++ behind
  unfolding with_room
  with_room_first =
      rw
        (le→ltb (length (block ++ behind)) (16 + length b.body + 0)
          (omega (arith, size_block, length-append block behind)))
        refl

  merge_read-list_only :
      (delta' : TcIndex h) × (merge_read h grow t 1
          (list_header_bytes lhdr)
          (length block)
          (block ++ behind)
          delta
          live
        ≡ ok (
          delta',
          record live {
            handle = some (h.put_async (key t 1) (layout lhdr 1 b.header b.body) db).1;
          },
        ))
      × KeepsBuffer h delta delta'
  unfolding merge_read
  merge_read-list_only =
      let new = layout lhdr 1 b.header b.body in
      let total = 16 + length b.body + 0 in
      (
        record delta {
          buffer = new ++ behind;
          capacity = capacity_for h grow delta.capacity total;
        },
        rw
            (
              live_first,
              raw_list_only lhdr,
              raw_first (16 + length b.body) (length b.body) refl body_fits,
              capacity_for_inside h grow delta.capacity (length (block ++ behind)) read_inside,
              le→ltb delta.capacity total (omega (arith, room)),
              with_room_first,
              merge_list_only lhdr l.header b.header b.body fits (length b.body)
                  (16 + length b.body) behind,
              write_block-take h laws t 1 total (new ++ behind) live db has_db
                  (omega (arith, size_new, length-append new behind)),
              take-append new behind total (omega (arith, size_new)),
            )
            refl,
        record {
          same_handle = refl;
          same_capacity = capacity_for_inside h grow delta.capacity total (omega (arith, room));
          inside = omega (
            arith,
            read_inside,
            size_new,
            size_block,
            length-append new behind,
            length-append block behind,
          );
        },
      )

  pub merge_block-list_only :
      (delta' : TcIndex h) × (merge_block h grow t 1 (list_header_bytes lhdr) delta live
        ≡ ok (
          delta',
          record live {
            handle = some (h.put_async (key t 1) (layout lhdr 1 b.header b.body) db).1;
          },
        ))
      × KeepsBuffer h delta delta'
  unfolding merge_block
  merge_block-list_only = rw read_first merge_read-list_only
