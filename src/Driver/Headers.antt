-- ===== src/Driver/Headers.antt =====
-- The headers that the driver reads back from the database (GetPListHeader and GetPListBlockHeader of
-- TCIndex, src/dbdrivers/TCDataStore.cpp).
use audioneex.Prelude.{
  ℕ, zero, suc, ◌<◌, ◌^◌, ◌≡◌, refl, sym, ap, ◌∙◌, List, [], ◌∷◌, ◌++◌, true, ◌==◌, Option, none,
  some, Outcome, ok, arith, Bool-cases, inl, inr, ==→eq, length, drop, IsU32, word_of-bytes,
}
use audioneex.Cache.{find}
use audioneex.Store.{
  PListHeader, PListBlockHeader, Block, StoredList, block_at, header_at, null_block,
}
use audioneex.Driver.{
  HashDb, TcIndex, key, opened, get_plist_header, get_plist_block_header, list_header_bytes,
  block_header_bytes, list_header_of, block_header_of, header_offset,
}
use audioneex.Driver.Writes.{nothing, block_or}
use audioneex.Driver.View.{View, raw, layout}
use audioneex.Driver.Blocks.{raw-some, raw-none}

-- A list whose headers are words and tell its blocks.
pub record IsReadable (l : StoredList) : Type 0 where
  pub count : l.header.block_count ≡ length l.blocks
  pub count_fits : length l.blocks < 2 ^ 32
  pub last :
      (b : Block)
      → block_at l.blocks (length l.blocks) ≡ some b
      → (b.header.id ≡ length l.blocks) × IsU32 b.header.body_size × IsU32 b.header.fid_max

pub list_header_of-layout :
    (lhdr : PListHeader) (hdr : PListBlockHeader) (body : List ℕ)
    → IsU32 lhdr.block_count
    → list_header_of (layout lhdr 1 hdr body) ≡ ok lhdr
unfolding list_header_of list_header_bytes
list_header_of-layout lhdr hdr body h =
    ap (λ n. ok (record { block_count = n })) (word_of-bytes lhdr.block_count h)

pub block_header_of-layout :
    (lhdr : PListHeader) (i : ℕ) (hdr : PListBlockHeader) (body : List ℕ)
    → IsU32 hdr.id
    → IsU32 hdr.body_size
    → IsU32 hdr.fid_max
    → block_header_of (drop (header_offset i) (layout lhdr i hdr body)) ≡ ok hdr
unfolding block_header_of block_header_bytes list_header_bytes header_offset
block_header_of-layout lhdr i hdr body h k m = elim (Bool-cases (i == 1)) [
  | inl e ↦ rw e words
  | inr e ↦ rw e words
]
  where
    words : block_header_of (block_header_bytes hdr ++ body) ≡ ok hdr
    words = λ j. ok (record {
      id = word_of-bytes hdr.id h j;
      body_size = word_of-bytes hdr.body_size k j;
      fid_max = word_of-bytes hdr.fid_max m j;
    })

first_block : (bs : List Block) (n : ℕ) → length bs ≡ suc n → (b : Block) × (block_at bs 1 ≡ some b)
first_block [] n e = absurd (omega arith)
first_block (b ∷ bs) n e = (b, refl)

no_blocks : (bs : List Block) (i : ℕ) → length bs ≡ 0 → block_at bs i ≡ none
no_blocks [] i e = refl
no_blocks (b ∷ bs) i e = absurd (omega arith)

pub some_last :
    (bs : List Block) (n : ℕ) → length bs ≡ suc n → (b : Block) × (block_at bs (length bs) ≡ some b)
some_last [] n e = absurd (omega arith)
some_last (b ∷ []) n e = (b, refl)
some_last (b ∷ c ∷ bs) n e = some_last (c ∷ bs) (length bs) refl

module _ (h : HashDb) (t : ℕ) (x : TcIndex h) (a : ℕ → StoredList) (v : View h x a)
    (free : t ≡ x.cache.list_id → x.cache.buffer ≡ []) where
  stored-raw : (i : ℕ) → h.get (key t i) v.db ≡ raw (a t) i
  unfolding find
  stored-raw i = elim (Bool-cases (t == x.cache.list_id)) [
    | inl e ↦
        let s = ap (find i) (free (==→eq t x.cache.list_id e)) in
        nothing true (h.get (key t i) v.db)
        ∙ ap (λ c. block_or true c (h.get (key t i) v.db)) (sym s)
        ∙ rw e at (v.bytes t i)
    | inr e ↦ rw e at (v.bytes t i)
  ]

  header_from :
      (stored : Option (List ℕ)) {hdr : PListHeader}
      → raw (a t) 1 ≡ stored
      → (elim stored as (λ _. Outcome PListHeader) [
        | none ↦ ok (record { block_count = 0 })
        | some block ↦ list_header_of block
      ])
        ≡ ok hdr
      → get_plist_header h t x ≡ ok hdr
  unfolding get_plist_header
  header_from stored e f = rw (opened, v.has_db, stored-raw 1 ∙ e) f

  block_header_from :
      (i : ℕ) (stored : Option (List ℕ)) {hdr : PListBlockHeader}
      → raw (a t) i ≡ stored
      → (elim stored as (λ _. Outcome PListBlockHeader) [
        | none ↦ ok null_block
        | some block ↦ block_header_of (drop (header_offset i) block)
      ])
        ≡ ok hdr
      → get_plist_block_header h t i x ≡ ok hdr
  unfolding get_plist_block_header
  block_header_from i stored e f = rw (opened, v.has_db, stored-raw i ∙ e) f

  pub get_plist_header-stored :
      (n : ℕ)
      → length (a t).blocks ≡ n
      → IsReadable (a t)
      → get_plist_header h t x ≡ ok (a t).header
  get_plist_header-stored zero e r =
      header_from none (raw-none (a t) 1 (no_blocks (a t).blocks 1 e))
        (ap (λ k. ok (record { block_count = k })) (sym (r.count ∙ e)))
  get_plist_header-stored (suc n) e r =
      let (b, at) = first_block (a t).blocks n e in
      header_from (some (layout (a t).header 1 b.header b.body)) (raw-some (a t) 1 b at)
        (list_header_of-layout (a t).header b.header b.body (omega (arith, r.count, r.count_fits)))

  pub get_plist_block_header-stored :
      (n : ℕ)
      → length (a t).blocks ≡ n
      → IsReadable (a t)
      → get_plist_block_header h t (length (a t).blocks) x
        ≡ ok (header_at (a t).blocks (length (a t).blocks))
  get_plist_block_header-stored zero e r =
      let gone = no_blocks (a t).blocks (length (a t).blocks) e in
      block_header_from (length (a t).blocks) none (raw-none (a t) (length (a t).blocks) gone)
        (rw (header_at, gone) refl)
  get_plist_block_header-stored (suc n) e r =
      let (b, at) = some_last (a t).blocks n e in
      let (id_lem, size_fits, fid_fits) = r.last b at in
      block_header_from (length (a t).blocks)
        (some (layout (a t).header (length (a t).blocks) b.header b.body))
        (raw-some (a t) (length (a t).blocks) b at)
        (block_header_of-layout (a t).header (length (a t).blocks) b.header b.body
            (omega (arith, id_lem, r.count_fits)) size_fits fid_fits
          ∙ rw (header_at, at) refl)
