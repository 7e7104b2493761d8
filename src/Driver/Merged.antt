-- ===== src/Driver/Merged.antt =====
-- What TCIndex::Merge (src/dbdrivers/TCDataStore.cpp) leaves of a block of the delta index in the live
-- one, while the buffer stays where it is, and when it has to move.
use audioneex.Prelude.{
  ℕ, zero, suc, ◌+◌, ◌-◌, ◌<◌, ◌≤◌, ◌^◌, ◌≡◌, refl, sym, ap, ◌∙◌, List, [], ◌∷◌, ◌++◌, true, ◌==◌,
  none, some, ok, fault, arith, Option-cases, inl, inr, length, length-append, take, drop,
  take-append, append_assoc, split_at, le→ltb, lt→ltb, ==-ne, IsU32,
}
use audioneex.Store.{PListHeader, PListBlockHeader, StoredList, Block, block_at, body_at}
use audioneex.Driver.{HashDb, TcIndex, opened, read_block, key, header_offset, block_header_size}
use audioneex.Driver.Writes.{HashDbLaws, write_block-take}
use audioneex.Driver.View.{layout, layout-append, raw}
use audioneex.Driver.Reads.{length-layout}
use audioneex.Driver.Blocks.{raw-some, raw-none}
use audioneex.Driver.Merge.{
  raw_block_to_block, merge_block, merge_read, with_room, live_size, capacity_for,
}
use audioneex.Driver.Pointers.{with_room-append}
use audioneex.Driver.Merging.{merge_at, moved_at, raw_block_size}

pub length-drop : (l : List ℕ) (n : ℕ) → length (drop n l) ≡ length l - n
length-drop l zero = omega arith
length-drop [] (suc n) = omega arith
length-drop (x ∷ l) (suc n) = omega (arith, length-drop l n)

-- The delta index with another buffer of the same capacity.
pub record KeepsBuffer (h : HashDb) (delta delta' : TcIndex h) : Type 0 where
  pub same_handle : delta'.handle ≡ delta.handle
  pub same_capacity : delta'.capacity ≡ delta.capacity
  pub inside : length delta'.buffer ≤ delta.capacity

pub capacity_for_inside :
    (h : HashDb) (grow : ℕ → ℕ → ℕ) (c n : ℕ) → n ≤ c → capacity_for h grow c n ≡ c
unfolding capacity_for
capacity_for_inside h grow c n fits = rw (le→ltb c n fits) refl

module _ (h : HashDb) (laws : HashDbLaws h) (grow : ℕ → ℕ → ℕ) (t i : ℕ) (delta live : TcIndex h)
    (lhdr : PListHeader) (hdr : PListBlockHeader) (chunk : List ℕ)
    (count_fits : IsU32 lhdr.block_count) (id_fits : IsU32 hdr.id) (size_fits : IsU32 hdr.body_size)
    (fid_fits : IsU32 hdr.fid_max) (chunk_fits : length chunk < 2 ^ 63) (db : h.Db)
    (has_db : live.handle ≡ some db) where
  abbrev off : ℕ
  off = header_offset i + block_header_size

  abbrev val : List ℕ
  val = layout lhdr i hdr chunk

  -- The live index with the bodies of both blocks.
  abbrev put_merged : List ℕ → TcIndex h
  put_merged body = record live {
    handle = some (h.put_async (key t i) (layout lhdr i hdr (body ++ chunk)) db).1;
  }

  merged_bytes :
      (body rest : List ℕ)
      → take (off + length body + length chunk) (layout lhdr i hdr (body ++ (chunk ++ rest)))
        ≡ layout lhdr i hdr (body ++ chunk)
  merged_bytes body rest =
      ap (λ v. take (off + length body + length chunk) (layout lhdr i hdr v))
        (sym (append_assoc body chunk rest))
      ∙ ap (take (off + length body + length chunk))
          (sym (layout-append lhdr i hdr (body ++ chunk) rest))
      ∙ take-append (layout lhdr i hdr (body ++ chunk)) rest (off + length body + length chunk)
          (omega (arith, length-layout lhdr i hdr (body ++ chunk), length-append body chunk))

  merge_read-merged :
      (size : ℕ) (read heads body junk : List ℕ)
      → live_size h grow i size ≡ off + length body
      → with_room h grow (off + length body + length chunk) read ≡ heads ++ (body ++ junk)
      → length heads ≡ off
      → length chunk ≤ length junk
      → length body < 2 ^ 63
      → capacity_for h grow delta.capacity (length read) ≡ delta.capacity
      → off + length body + length chunk ≤ delta.capacity
      → length (heads ++ (body ++ junk)) ≤ delta.capacity
      → (delta' : TcIndex h) × (merge_read h grow t i val size read delta live
          ≡ ok (delta', put_merged body))
        × KeepsBuffer h delta delta'
  unfolding merge_read
  merge_read-merged size read heads body junk es ew eh room body_fits ec fits inside =
      let dblk = raw_block_to_block (length val) (i == 1) in
      let chunk_size =
        raw_block_size lhdr hdr chunk count_fits id_fits size_fits fid_fits i chunk_fits in
      let rest = drop (length chunk) junk in
      let block = layout lhdr i hdr (body ++ (chunk ++ rest)) in
      let total = off + length body + length chunk in
      let size_block : length block ≡ off + length body + length chunk + length rest = omega (
        arith,
        length-layout lhdr i hdr (body ++ (chunk ++ rest)),
        length-append body (chunk ++ rest),
        length-append chunk rest,
      ) in
      (
        record delta { buffer = block; capacity = capacity_for h grow delta.capacity total },
        rw
            (
              es,
              ec,
              le→ltb delta.capacity (off + length body + dblk.body_size)
                  (omega (arith, fits, chunk_size)),
              ap (λ n. with_room h grow (off + length body + n) read) chunk_size ∙ ew,
              merge_at lhdr hdr chunk count_fits id_fits size_fits fid_fits body junk room i heads
                  eh chunk_fits body_fits,
              chunk_size,
              write_block-take h laws t i total block live db has_db (omega (arith, size_block)),
              merged_bytes body rest,
            )
            refl,
        record {
          same_handle = refl;
          same_capacity = capacity_for_inside h grow delta.capacity total fits;
          inside = omega (
            arith,
            inside,
            eh,
            room,
            size_block,
            length-append heads (body ++ junk),
            length-append body junk,
            length-drop junk (length chunk),
          );
        },
      )

  merge_read-moved :
      (size : ℕ) (read body : List ℕ)
      → live_size h grow i size ≡ off + length body
      → length body < 2 ^ 63
      → length read ≤ delta.capacity
      → delta.capacity < off + length body + length chunk
      → merge_read h grow t i val size read delta live ≡ fault
  unfolding merge_read capacity_for
  merge_read-moved size read body es body_fits inside over =
      let dblk = raw_block_to_block (length val) (i == 1) in
      let chunk_size =
        raw_block_size lhdr hdr chunk count_fits id_fits size_fits fid_fits i chunk_fits in
      let total = off + length body + dblk.body_size in
      rw
        (
          es,
          le→ltb delta.capacity (length read) inside,
          lt→ltb delta.capacity total (omega (arith, over, chunk_size)),
          moved_at lhdr hdr chunk count_fits id_fits size_fits fid_fits i (length body)
              (with_room h grow total read) chunk_fits body_fits,
        )
        refl

  -- The bytes of the live block in the buffer, which keeps its capacity.
  module _ (l : StoredList) (stored : h.get (key t i) db ≡ raw l i)
      (vector : length delta.buffer ≤ delta.capacity)
      (body_fits : length (body_at l.blocks i) < 2 ^ 63) where
    abbrev total : ℕ
    total = off + length (body_at l.blocks i) + length chunk

    abbrev Merged : ℕ → List ℕ → Type 0
    Merged size read =
        (delta' : TcIndex h) × (merge_read h grow t i val size read delta live
          ≡ ok (delta', put_merged (body_at l.blocks i)))
        × KeepsBuffer h delta delta'

    -- The buffer, once there is room in it: headers, the body, and what is behind.
    abbrev HasBody : List ℕ → Type 0
    HasBody read =
        (ext : List ℕ)
        → total ≤ length (read ++ ext)
        → (heads : List ℕ) × (rest : List ℕ) × (read ++ ext ≡ heads ++ (body_at l.blocks i ++ rest))
          × (length heads ≡ off)

    merge_read-room :
        (size : ℕ) (read : List ℕ)
        → live_size h grow i size ≡ off + length (body_at l.blocks i)
        → HasBody read
        → length read ≤ delta.capacity
        → total ≤ delta.capacity
        → Merged size read
    merge_read-room size read es has inside fits =
        let body = body_at l.blocks i in
        let (ext, ew, enough, limit) = with_room-append h grow total read in
        let (heads, rest, whole, eh) = has ext enough in
        let sizes = ap (length {A = ℕ}) whole in
        merge_read-merged size read heads body rest es (ew ∙ whole) eh
          (omega
            (arith, enough, sizes, eh, length-append heads (body ++ rest), length-append body rest))
          body_fits (capacity_for_inside h grow delta.capacity (length read) inside) fits
          (omega (arith, sizes, limit delta.capacity fits inside))

    body_none : block_at l.blocks i ≡ none → body_at l.blocks i ≡ []
    body_none e = rw (body_at, e) refl

    body_some : (b : Block) → block_at l.blocks i ≡ some b → body_at l.blocks i ≡ b.body
    body_some b e = rw (body_at, e) refl

    live_none :
        block_at l.blocks i ≡ none → live_size h grow i 0 ≡ off + length (body_at l.blocks i)
    unfolding live_size
    live_none e = rw (body_none e) (omega arith)

    abbrev bytes : Block → List ℕ
    bytes b = layout l.header i b.header b.body

    length-bytes :
        (b : Block)
        → block_at l.blocks i ≡ some b
        → length (bytes b) ≡ off + length (body_at l.blocks i)
    length-bytes b e = rw (body_some b e) (length-layout l.header i b.header b.body)

    live_some :
        (b : Block)
        → block_at l.blocks i ≡ some b
        → live_size h grow i (length (bytes b)) ≡ off + length (body_at l.blocks i)
    unfolding live_size
    live_some b e =
        rw (==-ne (length (bytes b)) 0 (λ z. omega (arith, z, length-bytes b e))) (length-bytes b e)

    -- What is read fits the buffer.
    read_inside :
        (b : Block)
        → block_at l.blocks i ≡ some b
        → off + length (body_at l.blocks i) ≤ delta.capacity
        → length (bytes b ++ drop (length (bytes b) - 0) delta.buffer) ≤ delta.capacity
    read_inside b e fits =
        let n = length (bytes b) - 0 in
        omega (
          arith,
          vector,
          fits,
          length-bytes b e,
          length-append (bytes b) (drop n delta.buffer),
          length-drop delta.buffer n,
        )

    -- Where the live index has no block, what the buffer had is taken for the headers.
    merge_read-none : block_at l.blocks i ≡ none → total ≤ delta.capacity → Merged 0 delta.buffer
    merge_read-none e fits = merge_read-room 0 delta.buffer (live_none e) has vector fits
      where
        has : HasBody delta.buffer
        has ext enough =
            let w = delta.buffer ++ ext in
            let (heads, rest, whole, eh, er) =
              split_at off (length w - off) w (omega (arith, enough)) in
            (heads, rest, whole ∙ ap (λ v. heads ++ (v ++ rest)) (sym (body_none e)), eh)

    merge_read-some :
        (b : Block) (behind : List ℕ)
        → block_at l.blocks i ≡ some b
        → length (bytes b ++ behind) ≤ delta.capacity
        → total ≤ delta.capacity
        → Merged (length (bytes b)) (bytes b ++ behind)
    merge_read-some b behind e inside fits =
        merge_read-room (length (bytes b)) (bytes b ++ behind) (live_some b e) has inside fits
      where
        has : HasBody (bytes b ++ behind)
        has ext enough =
            let heads = layout l.header i b.header [] in
            (
              heads,
              behind ++ ext,
              ap (λ v. (v ++ behind) ++ ext) (sym (layout-append l.header i b.header [] b.body))
                  ∙ append_assoc (heads ++ b.body) behind ext
                  ∙ append_assoc heads b.body (behind ++ ext)
                  ∙ ap (λ v. heads ++ (v ++ (behind ++ ext))) (sym (body_some b e)),
              length-layout l.header i b.header [] ∙ omega arith,
            )

    read_none :
        block_at l.blocks i ≡ none → read_block h t i delta.buffer true live ≡ ok (0, delta.buffer)
    unfolding read_block
    read_none e = rw (opened, has_db, stored ∙ raw-none l i e) refl

    read_some :
        (b : Block)
        → block_at l.blocks i ≡ some b
        → read_block h t i delta.buffer true live
          ≡ ok (length (bytes b), bytes b ++ drop (length (bytes b) - 0) delta.buffer)
    unfolding read_block
    read_some b e =
        rw (opened, has_db, stored ∙ raw-some l i b e, le→ltb (length (bytes b)) 0 (omega arith))
          (ap (λ n. ok (n, bytes b ++ drop (length (bytes b) - 0) delta.buffer))
            {x = length (bytes b) - 0} (omega arith))

    -- Where the buffer of the delta index has room for the block of the live index and the body of the delta
    -- block, sizes are below 2^63 and the words of the delta headers fit: Merge puts the block into the live
    -- index with the headers of the delta block, the body that it had, none if it did not exist, and the
    -- body of the delta block behind it; the buffer stays within its capacity.
    pub merge_block-merged :
        total ≤ delta.capacity
        → (delta' : TcIndex h) × (merge_block h grow t i val delta live
            ≡ ok (delta', put_merged (body_at l.blocks i)))
          × KeepsBuffer h delta delta'
    unfolding merge_block
    merge_block-merged fits = elim (Option-cases (block_at l.blocks i)) [
      | inl e ↦ rw (read_none e) (merge_read-none e fits)
      | inr (b, e) ↦ rw (read_some b e) (
          merge_read-some b (drop (length (bytes b) - 0) delta.buffer) e
            (read_inside b e (omega (arith, fits))) fits)
    ]

    -- Where the buffer of the delta index has room for the block of the live one, but not for the body of
    -- the delta block as well, and sizes are below 2^63 and the words of the delta headers fit: Merge writes
    -- through a pointer into memory that the buffer has left.
    pub merge_block-moved :
        off + length (body_at l.blocks i) ≤ delta.capacity
        → delta.capacity < total
        → merge_block h grow t i val delta live ≡ fault
    unfolding merge_block
    merge_block-moved fits over = elim (Option-cases (block_at l.blocks i)) [
      | inl e ↦
          rw (read_none e) (
            merge_read-moved 0 delta.buffer (body_at l.blocks i) (live_none e) body_fits vector
              over)
      | inr (b, e) ↦ rw (read_some b e) (
          merge_read-moved (length (bytes b)) (bytes b ++ drop (length (bytes b) - 0) delta.buffer)
            (body_at l.blocks i) (live_some b e) body_fits (read_inside b e fits) over)
    ]
