-- ===== src/Store.antt =====
-- The data store, as the indexer and the postings iterator call it (class DataStore and the header
-- structures of src/audioneex.h). Clients implement it: its operations are fields of a record, and
-- what audioneex.h documents of them are the laws of another.
pub mod Arrays
use audioneex.Prelude.{
  ℕ, zero, suc, ◌≡◌, List, [], ◌∷◌, ◌++◌, Bool, ◌&&◌, ◌==◌, if◌then◌else◌, Option, none, some,
}

pub record PListHeader : Type 0 where
  pub block_count : ℕ

pub record PListBlockHeader : Type 0 where
  pub id : ℕ
  pub body_size : ℕ
  pub fid_max : ℕ

-- The two overloads of IsNull for headers.
unfoldable pub is_null_list : PListHeader → Bool
is_null_list hdr = hdr.block_count == 0

unfoldable pub is_null_block : PListBlockHeader → Bool
is_null_block hdr = hdr.id == 0 && (hdr.body_size == 0 && hdr.fid_max == 0)

abbrev pub null_block : PListBlockHeader
null_block = record { id = 0; body_size = 0; fid_max = 0 }

-- The calls that reach the index. A block that does not exist has a null header and no data.
pub record DataStore : Type 1 where
  pub State : Type 0
  pub on_indexer_start : State → State
  pub on_indexer_end : State → State
  pub on_indexer_flush_start : State → State
  pub on_indexer_flush_end : State → State
  pub on_indexer_list_header : ℕ → State → PListHeader
  pub on_indexer_block_header : ℕ → ℕ → State → PListBlockHeader
  pub on_indexer_chunk : ℕ → PListHeader → PListBlockHeader → List ℕ → State → State
  pub on_indexer_new_block : ℕ → PListHeader → PListBlockHeader → List ℕ → State → State
  pub on_indexer_fingerprint : ℕ → List ℕ → State → State
  pub get_plist_block : ℕ → ℕ → State → List ℕ

-- A stored block and a stored list.
pub record Block : Type 0 where
  pub header : PListBlockHeader
  pub body : List ℕ

pub record StoredList : Type 0 where
  pub header : PListHeader
  pub blocks : List Block

-- Blocks are numbered from 1.
abbrev pub block_at : List Block → ℕ → Option Block
block_at [] i = none
block_at (b ∷ bs) zero = none
block_at (b ∷ bs) (suc zero) = some b
block_at (b ∷ bs) (suc (suc i)) = block_at bs (suc i)

abbrev pub header_at : List Block → ℕ → PListBlockHeader
header_at bs i = elim (block_at bs i) [ none ↦ null_block | some b ↦ b.header ]

abbrev pub body_at : List Block → ℕ → List ℕ
body_at bs i = elim (block_at bs i) [ none ↦ [] | some b ↦ b.body ]

-- The last block takes the chunk and the new header.
abbrev pub append_chunk : PListBlockHeader → List ℕ → List Block → List Block
append_chunk hdr chunk [] = []
append_chunk hdr chunk (b ∷ []) = record { header = hdr; body = b.body ++ chunk } ∷ []
append_chunk hdr chunk (b ∷ c ∷ bs) = b ∷ append_chunk hdr chunk (c ∷ bs)

-- What audioneex.h says of the calls: headers and blocks come back as they were emitted, a chunk
-- goes to the end of the last block, a new block behind the others, and no other list changes.
pub record DataStoreLaws (s : DataStore) : Type 0 where
  pub lists : ℕ → s.State → StoredList
  pub list_header_lem : (t : ℕ) (d : s.State) → s.on_indexer_list_header t d ≡ (lists t d).header
  pub block_header_lem :
      (t i : ℕ) (d : s.State) → s.on_indexer_block_header t i d ≡ header_at (lists t d).blocks i
  pub plist_block_lem :
      (t i : ℕ) (d : s.State) → s.get_plist_block t i d ≡ body_at (lists t d).blocks i
  pub chunk_lem :
      (t u : ℕ) (lhdr : PListHeader) (hdr : PListBlockHeader) (chunk : List ℕ) (d : s.State)
      → lists u (s.on_indexer_chunk t lhdr hdr chunk d) ≡ (
          if u == t
          then record { header = lhdr; blocks = append_chunk hdr chunk (lists t d).blocks }
          else lists u d)
  pub new_block_lem :
      (t u : ℕ) (lhdr : PListHeader) (hdr : PListBlockHeader) (chunk : List ℕ) (d : s.State)
      → lists u (s.on_indexer_new_block t lhdr hdr chunk d) ≡ (
          if u == t
          then record {
            header = lhdr;
            blocks = (lists t d).blocks ++ (record { header = hdr; body = chunk } ∷ []);
          }
          else lists u d)
  pub flush_start_lem : (u : ℕ) (d : s.State) → lists u (s.on_indexer_flush_start d) ≡ lists u d
  pub flush_end_lem : (u : ℕ) (d : s.State) → lists u (s.on_indexer_flush_end d) ≡ lists u d
