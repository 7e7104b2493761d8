-- ===== src/Tests/Merging.antt =====
-- Merges of small delta indexes over the database of Tests/Driving.
use audioneex.Prelude.{ℕ, ◌≡◌, ◌≢◌, refl, List, [], ◌∷◌, none, some, ok, fault, arith, All}
use audioneex.Codec.VByte.{encode_values}
use audioneex.Store.{PListBlockHeader, Block, null_block, block_at}
use audioneex.Driver.{TcIndex, key, header_offset}
use audioneex.Driver.View.{raw, layout}
use audioneex.Driver.Merge.{merge_block, merge}
use audioneex.Driver.DeltaIndex.{
  DeltaValue, DeltaRecord, delta_record, record_key, record_bytes, merged_record, IsDelta,
  merge-merged,
}
use audioneex.Driver.Merged.{merge_block-moved}
use audioneex.Tests.Lists.{two_lists}
use audioneex.Tests.Driving.{
  lookup, record_db, record_laws, one_block, empty_index, one_block-get, building-IsIndex,
}

-- A delta index with this much room in its buffer, and a block of it.
abbrev delta_with : ℕ → TcIndex record_db
delta_with capacity = record (empty_index (some [])) { capacity = capacity }

abbrev delta_header : PListBlockHeader
delta_header = record { id = 1; body_size = 12; fid_max = 9 }

abbrev delta_value : List ℕ
delta_value = layout (record { block_count = 1 }) 1 delta_header (7 ∷ 8 ∷ 9 ∷ [])

merge_block-moved_example :
    merge_block record_db (λ c n. n) 17 1 delta_value (delta_with 26) (empty_index (some one_block))
    ≡ fault
unfolding encode_values header_offset
merge_block-moved_example =
    merge_block-moved record_db record_laws (λ c n. n) 17 1 (delta_with 26)
      (empty_index (some one_block)) (record { block_count = 1 }) delta_header (7 ∷ 8 ∷ 9 ∷ [])
      (omega arith) (omega arith) (omega arith) (omega arith) (omega arith) one_block refl
      (two_lists 17) (one_block-get 17 1) (omega arith) (omega arith) (omega arith) (omega arith)

-- The list header of list 17, and its second block.
abbrev stored_block : Block
stored_block = elim (block_at (two_lists 17).blocks 1) [
  | none ↦ record { header = null_block; body = [] }
  | some b ↦ b
]

abbrev two_records : List DeltaRecord
two_records =
    delta_record 17 1 (record { block_count = 2 }) (DeltaValue.list_only stored_block)
    ∷ delta_record 17 2 (record { block_count = 2 })
        (DeltaValue.whole (record { id = 2; body_size = 3; fid_max = 9 }) (7 ∷ 8 ∷ 9 ∷ []))
    ∷ []

abbrev records_of : List DeltaRecord → List (List ℕ × List ℕ)
records_of [] = []
records_of (x ∷ xs) = (record_key x, record_bytes x) ∷ records_of xs

abbrev full_delta : TcIndex record_db
full_delta = record (empty_index (some (records_of two_records))) { capacity = 100 }

two-IsDelta : All (IsDelta two_lists 100) two_records
unfolding encode_values header_offset
two-IsDelta = (
  record { first = refl; count_fits = omega arith; there = refl; room = omega arith },
  (
    record {
      count_fits = omega arith;
      id_fits = omega arith;
      size_fits = omega arith;
      fid_fits = omega arith;
      room = omega arith;
    },
    tt,
  ),
)

merge-merged_example :
    (delta' : TcIndex record_db) × (db' : List (List ℕ × List ℕ)) × (merge record_db
        (λ c n. n)
        full_delta
        (empty_index (some one_block))
      ≡ ok (delta', record (empty_index (some one_block)) { handle = some db' }))
    × All (λ x. lookup (record_key x) db' ≡ some (merged_record two_lists x)) two_records
    × ((t i : ℕ)
        → All (λ x. key t i ≢ record_key x) two_records
        → lookup (key t i) db' ≡ raw (two_lists t) i)
unfolding key
merge-merged_example =
    merge-merged record_db record_laws (λ c n. n) two_lists 100 (omega arith) two_records full_delta
      (empty_index (some one_block)) (records_of two_records) building-IsIndex refl refl
      (omega arith) refl ((λ e. ground arith, tt), (tt, tt)) (refl, (refl, tt)) two-IsDelta
