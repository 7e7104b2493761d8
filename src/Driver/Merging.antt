-- ===== src/Driver/Merging.antt =====
-- A block of the delta index that is merged into the live one (TCIndex::Merge of
-- src/dbdrivers/TCDataStore.cpp).
use audioneex.Prelude.{
  ℕ, ◌+◌, ◌<◌, ◌≤◌, ◌^◌, ◌≡◌, refl, sym, ap, ◌∙◌, List, [], ◌++◌, true, false, ◌==◌, ok, fault,
  arith, Bool-cases, inl, inr, length, length-append, take, drop, take_self, append_assoc, split_at,
  IsU32,
}
use audioneex.Store.{PListHeader, PListBlockHeader}
use audioneex.Driver.{
  overwrite, header_offset, block_header_size, block_header_of, list_header_bytes,
  block_header_bytes,
}
use audioneex.Driver.View.{layout}
use audioneex.Driver.Headers.{list_header_of-layout, block_header_of-layout}
use audioneex.Driver.Reads.{layout-body}
use audioneex.Driver.Merge.{raw_block_to_block, merge_bytes}
use audioneex.Driver.Pointers.{
  overwrite-over, length_headers, overwrite_body, raw_first, raw_other, pointers,
}

-- The values that a block of the delta index, and the headers of the live one, have.
module _ (lhdr : PListHeader) (hdr : PListBlockHeader) (chunk : List ℕ)
    (count_fits : IsU32 lhdr.block_count) (id_fits : IsU32 hdr.id) (size_fits : IsU32 hdr.body_size)
    (fid_fits : IsU32 hdr.fid_max) where
  abbrev lists : List ℕ
  lists = list_header_bytes lhdr

  abbrev blocks : List ℕ
  blocks = block_header_bytes hdr

  header_first : block_header_of (drop 4 (lists ++ (blocks ++ chunk))) ≡ ok hdr
  unfolding header_offset
  header_first = block_header_of-layout lhdr 1 hdr chunk id_fits size_fits fid_fits

  header_other : block_header_of (blocks ++ chunk) ≡ ok hdr
  unfolding header_offset
  header_other = block_header_of-layout lhdr 2 hdr chunk id_fits size_fits fid_fits

  body_first : take (length chunk) (drop 16 (lists ++ (blocks ++ chunk))) ≡ chunk
  unfolding header_offset
  body_first =
      ap (take (length chunk)) (layout-body lhdr 1 hdr chunk) ∙ take_self (length chunk) chunk refl

  body_other : take (length chunk) (drop 12 (blocks ++ chunk)) ≡ chunk
  unfolding header_offset
  body_other =
      ap (take (length chunk)) (layout-body lhdr 2 hdr chunk) ∙ take_self (length chunk) chunk refl

  size_first : length (lists ++ (blocks ++ chunk)) ≡ 16 + length chunk
  size_first = omega (
    arith,
    length_headers lhdr hdr,
    length-append lists (blocks ++ chunk),
    length-append blocks chunk,
  )

  size_other : length (blocks ++ chunk) ≡ 12 + length chunk
  size_other = omega (arith, length_headers lhdr hdr, length-append blocks chunk)

  -- The size of a body, from that of its block.
  pub raw_block_size :
      (i : ℕ)
      → length chunk < 2 ^ 63
      → (raw_block_to_block (length (layout lhdr i hdr chunk)) (i == 1)).body_size ≡ length chunk
  raw_block_size i c = elim (Bool-cases (i == 1)) [
    | inl f ↦
        rw (f, raw_first (length (lists ++ (blocks ++ chunk))) (length chunk) size_first c) refl
    | inr f ↦ rw (f, raw_other (length (blocks ++ chunk)) (length chunk) size_other c) refl
  ]

  module _ (body junk : List ℕ) (room : length chunk ≤ length junk) where
    abbrev merged : List ℕ
    merged = body ++ (chunk ++ drop (length chunk) junk)

    -- The last writes, into the headers and behind the body.
    write_body_first :
        overwrite (16 + length body) chunk (lists ++ (blocks ++ (body ++ junk)))
        ≡ ok (lists ++ (blocks ++ merged))
    write_body_first =
        let (size_l, size_b) = length_headers lhdr hdr in
        ap (overwrite (16 + length body) chunk) (sym (append_assoc lists blocks (body ++ junk)))
        ∙ overwrite_body (16 + length body) (lists ++ blocks) body chunk junk
            (omega (arith, length-append lists blocks, size_l, size_b)) room
        ∙ ap ok (append_assoc lists blocks merged)

    write_body_other :
        overwrite (12 + length body) chunk (blocks ++ (body ++ junk)) ≡ ok (blocks ++ merged)
    write_body_other =
        overwrite_body (12 + length body) blocks body chunk junk
          (omega (arith, (length_headers lhdr hdr).1)) room

    merge_first :
        (lh bh : List ℕ)
        → length lh ≡ 4
        → length bh ≡ 12
        → merge_bytes
            (pointers true (length body))
            (pointers true (length chunk))
            true
            (16 + length body)
            false
            (lists ++ (blocks ++ chunk))
            (lh ++ (bh ++ (body ++ junk)))
          ≡ ok (lists ++ (blocks ++ merged))
    unfolding merge_bytes
    merge_first lh bh el eb =
        let (size_l, size_b) = length_headers lhdr hdr in
        rw
          (
            list_header_of-layout lhdr hdr chunk count_fits,
            overwrite-over 0 [] lh lists (bh ++ (body ++ junk)) refl (el ∙ sym size_l),
            header_first,
            overwrite-over 4 lists bh blocks (body ++ junk) (sym size_l) (eb ∙ sym size_b),
            body_first,
          )
          write_body_first

    merge_other :
        (bh : List ℕ)
        → length bh ≡ 12
        → merge_bytes
            (pointers false (length body))
            (pointers false (length chunk))
            false
            (12 + length body)
            false
            (blocks ++ chunk)
            (bh ++ (body ++ junk))
          ≡ ok (blocks ++ merged)
    unfolding merge_bytes
    merge_other bh eb =
        rw
          (
            header_other,
            overwrite-over 0 [] bh blocks (body ++ junk) refl
                (eb ∙ sym (length_headers lhdr hdr).1),
            body_other,
          )
          write_body_other

    -- The bytes of both blocks, first or not.
    pub merge_at :
        (i : ℕ) (heads : List ℕ)
        → length heads ≡ header_offset i + block_header_size
        → length chunk < 2 ^ 63
        → length body < 2 ^ 63
        → merge_bytes
            (raw_block_to_block (header_offset i + block_header_size + length body) (i == 1))
            (raw_block_to_block (length (layout lhdr i hdr chunk)) (i == 1))
            (i == 1)
            (header_offset i + block_header_size + length body)
            false
            (layout lhdr i hdr chunk)
            (heads ++ (body ++ junk))
          ≡ ok (layout lhdr i hdr merged)
    unfolding header_offset
    merge_at i heads e c b = elim (Bool-cases (i == 1)) [
      | inl f ↦
          let offset : header_offset i ≡ 4 = rw f refl in
          let (lh, bh, s, el, eb) = split_at 4 12 heads (omega (arith, e, offset)) in
          rw
            (
              f,
              ap (λ v. v ++ (body ++ junk)) s ∙ append_assoc lh bh (body ++ junk),
              raw_first (4 + block_header_size + length body) (length body) (omega arith) b,
              raw_first (length (lists ++ (blocks ++ chunk))) (length chunk) size_first c,
            )
            (merge_first lh bh el eb)
      | inr f ↦
          let offset : header_offset i ≡ 0 = rw f refl in
          rw
            (
              f,
              raw_other (0 + block_header_size + length body) (length body) (omega arith) b,
              raw_other (length (blocks ++ chunk)) (length chunk) size_other c,
            )
            (merge_other heads (omega (arith, e, offset)))
    ]

  -- The pointers are stale once the buffer has moved.
  moved_first :
      (n : ℕ) (lblock : List ℕ)
      → merge_bytes
          (pointers true n)
          (pointers true (length chunk))
          true
          (16 + n)
          true
          (lists ++ (blocks ++ chunk))
          lblock
        ≡ fault
  unfolding merge_bytes
  moved_first n lblock = rw (list_header_of-layout lhdr hdr chunk count_fits) refl

  moved_other :
      (n : ℕ) (lblock : List ℕ)
      → merge_bytes
          (pointers false n)
          (pointers false (length chunk))
          false
          (12 + n)
          true
          (blocks ++ chunk)
          lblock
        ≡ fault
  unfolding merge_bytes
  moved_other n lblock = rw header_other refl

  pub moved_at :
      (i n : ℕ) (lblock : List ℕ)
      → length chunk < 2 ^ 63
      → n < 2 ^ 63
      → merge_bytes
          (raw_block_to_block (header_offset i + block_header_size + n) (i == 1))
          (raw_block_to_block (length (layout lhdr i hdr chunk)) (i == 1))
          (i == 1)
          (header_offset i + block_header_size + n)
          true
          (layout lhdr i hdr chunk)
          lblock
        ≡ fault
  unfolding header_offset
  moved_at i n lblock c b = elim (Bool-cases (i == 1)) [
    | inl f ↦
        rw
          (
            f,
            raw_first (4 + block_header_size + n) n (omega arith) b,
            raw_first (length (lists ++ (blocks ++ chunk))) (length chunk) size_first c,
          )
          (moved_first n lblock)
    | inr f ↦
        rw
          (
            f,
            raw_other (0 + block_header_size + n) n (omega arith) b,
            raw_other (length (blocks ++ chunk)) (length chunk) size_other c,
          )
          (moved_other n lblock)
  ]
