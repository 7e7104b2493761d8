-- ===== src/Driver/DeltaIndex.antt =====
-- The delta index that a BUILD_MERGE session leaves, merged as a whole by TCIndex::Merge
-- (src/dbdrivers/TCDataStore.cpp).
use audioneex.Prelude.{
  ℕ, ◌+◌, ◌<◌, ◌≤◌, ◌^◌, ◌≡◌, ◌≢◌, refl, sym, ap, ◌∙◌, List, [], ◌∷◌, ◌++◌, some, ok, arith, length,
  All, map, IsU32,
}
use mathlib.Core.Path.{subst}
use audioneex.Store.{PListHeader, PListBlockHeader, StoredList, Block, block_at, body_at}
use audioneex.Driver.{
  HashDb, TcIndex, opened, key, header_offset, block_header_size, list_header_bytes,
}
use audioneex.Driver.Writes.{HashDbLaws}
use audioneex.Driver.View.{layout, raw}
use audioneex.Driver.Index.{IsIndex}
use audioneex.Driver.Merge.{merge, merge_keys}
use audioneex.Driver.Merged.{merge_block-merged}
use audioneex.Driver.ListOnly.{merge_block-list_only}
use audioneex.Driver.Merges.{Part, part_key, DistinctParts, Merges, merge_keys-IsMerged}

-- What a record of the delta index holds: a block, or the list header alone.
pub data DeltaValue : Type 0 where
  whole : PListBlockHeader → List ℕ → DeltaValue
  list_only : Block → DeltaValue

pub record DeltaRecord : Type 0 where
  pub list_id : ℕ
  pub block_id : ℕ
  pub list_header : PListHeader
  pub value : DeltaValue

abbrev pub delta_record : ℕ → ℕ → PListHeader → DeltaValue → DeltaRecord
delta_record t i lhdr v = record { list_id = t; block_id = i; list_header = lhdr; value = v }

abbrev pub record_key : DeltaRecord → List ℕ
record_key x = key x.list_id x.block_id

-- The bytes of a record.
abbrev pub record_bytes : DeltaRecord → List ℕ
record_bytes x = elim x.value [
  | DeltaValue.whole hdr chunk ↦ layout x.list_header x.block_id hdr chunk
  | DeltaValue.list_only b ↦ list_header_bytes x.list_header
]

-- The merged block: the new headers and the body of the delta block behind the one that was there, or
-- the block that was there with the new list header.
abbrev pub merged_record : (ℕ → StoredList) → DeltaRecord → List ℕ
merged_record a x = elim x.value [
  | DeltaValue.whole hdr chunk ↦
      layout x.list_header x.block_id hdr (body_at (a x.list_id).blocks x.block_id ++ chunk)
  | DeltaValue.list_only b ↦ layout x.list_header x.block_id b.header b.body
]

abbrev pub part_of : (ℕ → StoredList) → DeltaRecord → Part
part_of a x = record {
  list_id = x.list_id;
  block_id = x.block_id;
  value = record_bytes x;
  result = merged_record a x;
}

-- Words that fit, and room for the merged block.
pub record IsWhole (a : ℕ → StoredList) (capacity : ℕ) (x : DeltaRecord) (hdr : PListBlockHeader)
    (chunk : List ℕ) : Type 0 where
  pub count_fits : IsU32 x.list_header.block_count
  pub id_fits : IsU32 hdr.id
  pub size_fits : IsU32 hdr.body_size
  pub fid_fits : IsU32 hdr.fid_max
  pub room :
      header_offset x.block_id
        + block_header_size
        + length (body_at (a x.list_id).blocks x.block_id)
        + length chunk
      ≤ capacity

-- A list header alone is in the first block, which the live index has.
pub record IsListOnly (a : ℕ → StoredList) (capacity : ℕ) (x : DeltaRecord) (b : Block)
    : Type 0 where
  pub first : x.block_id ≡ 1
  pub count_fits : IsU32 x.list_header.block_count
  pub there : block_at (a x.list_id).blocks 1 ≡ some b
  pub room : 16 + length b.body ≤ capacity

abbrev pub IsDelta : (ℕ → StoredList) → ℕ → DeltaRecord → Type 0
IsDelta a capacity x = elim x.value [
  | DeltaValue.whole hdr chunk ↦ IsWhole a capacity x hdr chunk
  | DeltaValue.list_only b ↦ IsListOnly a capacity x b
]

module _ (h : HashDb) (laws : HashDbLaws h) (grow : ℕ → ℕ → ℕ) (a : ℕ → StoredList) (capacity : ℕ)
    (small : capacity < 2 ^ 63) where
  to_parts :
      (P : Part → Type 0) (xs : List DeltaRecord)
      → All (λ x. P (part_of a x)) xs
      → All P (map (part_of a) xs)
  to_parts P [] all = tt
  to_parts P (x ∷ xs) all = (all.0, to_parts P xs all.1)

  of_parts :
      (P : Part → Type 0) (xs : List DeltaRecord)
      → All P (map (part_of a) xs)
      → All (λ x. P (part_of a x)) xs
  of_parts P [] all = tt
  of_parts P (x ∷ xs) all = (all.0, of_parts P xs all.1)

  keys_of_parts : (xs : List DeltaRecord) → map part_key (map (part_of a) xs) ≡ map record_key xs
  keys_of_parts [] = refl
  keys_of_parts (x ∷ xs) = ap (λ ks. record_key x ∷ ks) (keys_of_parts xs)

  whole-Merges :
      (t i : ℕ) (lhdr : PListHeader) (hdr : PListBlockHeader) (chunk : List ℕ)
      → IsWhole a capacity (delta_record t i lhdr (DeltaValue.whole hdr chunk)) hdr chunk
      → Merges h laws grow capacity
          (part_of a (delta_record t i lhdr (DeltaValue.whole hdr chunk)))
          (raw (a t) i)
  whole-Merges t i lhdr hdr chunk w delta live db ec vector el stored =
      merge_block-merged h laws grow t i delta live lhdr hdr chunk w.count_fits w.id_fits
        w.size_fits w.fid_fits (omega (arith, w.room, small)) db el (a t) stored
        (omega (arith, vector, ec)) (omega (arith, w.room, small)) (omega (arith, w.room, ec))

  list_only-Merges :
      (t : ℕ) (lhdr : PListHeader) (b : Block)
      → IsListOnly a capacity (delta_record t 1 lhdr (DeltaValue.list_only b)) b
      → Merges h laws grow capacity
          (part_of a (delta_record t 1 lhdr (DeltaValue.list_only b)))
          (raw (a t) 1)
  list_only-Merges t lhdr b o delta live db ec vector el stored =
      merge_block-list_only h laws grow t delta live lhdr o.count_fits db el (a t) stored b o.there
        (omega (arith, o.room, small)) (omega (arith, vector, ec)) (omega (arith, o.room, ec))

  delta-Merges :
      (t i : ℕ) (lhdr : PListHeader) (v : DeltaValue)
      → IsDelta a capacity (delta_record t i lhdr v)
      → Merges h laws grow capacity (part_of a (delta_record t i lhdr v)) (raw (a t) i)
  delta-Merges t i lhdr (DeltaValue.whole hdr chunk) d = whole-Merges t i lhdr hdr chunk d
  delta-Merges t i lhdr (DeltaValue.list_only b) d =
      subst
        (λ j.
          IsListOnly a capacity (delta_record t j lhdr (DeltaValue.list_only b)) b
          → Merges h laws grow capacity (part_of a (delta_record t j lhdr (DeltaValue.list_only b)))
              (raw (a t) j))
        (sym d.first) (list_only-Merges t lhdr b) d

  All-Merges :
      (db : h.Db) (xs : List DeltaRecord)
      → ((t i : ℕ) → h.get (key t i) db ≡ raw (a t) i)
      → All (IsDelta a capacity) xs
      → All (λ p. Merges h laws grow capacity p (h.get (part_key p) db)) (map (part_of a) xs)
  All-Merges db [] at d = tt
  All-Merges db (x ∷ xs) at d = (
    subst (Merges h laws grow capacity (part_of a x)) (sym (at x.list_id x.block_id))
        (delta-Merges x.list_id x.block_id x.list_header x.value d.0),
    All-Merges db xs at d.1,
  )

  merge_opened :
      (delta live : TcIndex h) (ddb : h.Db)
      → delta.handle ≡ some ddb
      → merge h grow delta live ≡ merge_keys h grow (h.keys ddb) delta live
  unfolding merge opened
  merge_opened delta live ddb e = rw e refl

  -- Where the live index has the given lists in its database, and the delta index has a record for each
  -- of the given ones under different keys, each a block or, for a first block that the live index has, a
  -- list header alone, their words fit and the buffer, of a capacity below 2^63, has room for each merged
  -- block: Merge ends without an error; then each block of the delta index is in the live one with its
  -- headers and its body behind the body that was there, each list header alone in front of the block that
  -- was there, and all other blocks are as they were.
  pub merge-merged :
      (xs : List DeltaRecord) (delta live : TcIndex h) (ddb : h.Db)
      → IsIndex h live a
      → delta.handle ≡ some ddb
      → delta.capacity ≡ capacity
      → length delta.buffer ≤ capacity
      → h.keys ddb ≡ map record_key xs
      → DistinctParts (map (part_of a) xs)
      → All (λ x. h.get (record_key x) ddb ≡ some (record_bytes x)) xs
      → All (IsDelta a capacity) xs
      → (delta' : TcIndex h) × (db' : h.Db) × (merge h grow delta live
          ≡ ok (delta', record live { handle = some db' }))
        × All (λ x. h.get (record_key x) db' ≡ some (merged_record a x)) xs
        × ((t i : ℕ) → All (λ x. key t i ≢ record_key x) xs → h.get (key t i) db' ≡ raw (a t) i)
  merge-merged xs delta live ddb ix ed ec room keys distinct values ds =
      let (delta', db', run, m) =
        merge_keys-IsMerged h laws grow capacity ddb (map (part_of a) xs) delta live ix.db ed ec
          room ix.has_db distinct (to_parts (λ p. h.get (part_key p) ddb ≡ some p.value) xs values)
          (All-Merges ix.db xs ix.bytes ds) in
      (
        delta',
        db',
        merge_opened delta live ddb ed
            ∙ ap (λ ks. merge_keys h grow ks delta live) (keys ∙ sym (keys_of_parts xs))
            ∙ run,
        of_parts (λ p. h.get (part_key p) db' ≡ some p.result) xs m.merged,
        λ t i ne. m.others (key t i) (to_parts (λ p. key t i ≢ part_key p) xs ne) ∙ ix.bytes t i,
      )
