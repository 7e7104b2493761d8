-- ===== src/Driver/Blocks.antt =====
-- The blocks of a list behind a chunk that AppendChunk (src/dbdrivers/TCDataStore.cpp) appends.
use audioneex.Prelude.{
  ℕ, zero, suc, ◌<◌, ◌≡◌, ◌≢◌, refl, sym, ap, ap₂, ◌∙◌, List, [], ◌∷◌, ◌++◌, Option, none, some,
  arith, inl, inr, ==-ne, Option-cases, length,
}
use audioneex.Store.{PListHeader, PListBlockHeader, Block, StoredList, block_at, null_block}
use audioneex.Store
use audioneex.Driver.View.{raw, layout}

abbrev pub extended : PListBlockHeader → List ℕ → Block → Block
extended hdr chunk b = record { header = hdr; body = b.body ++ chunk }

-- The last block, before and after a chunk.
pub last_block :
    (hdr : PListBlockHeader) (chunk : List ℕ) (bs : List Block)
    → 0 < length bs
    → (b : Block) × (block_at bs (length bs) ≡ some b)
      × (block_at (Store.append_chunk hdr chunk bs) (length bs) ≡ some (extended hdr chunk b))
last_block hdr chunk [] h = absurd (omega arith)
last_block hdr chunk (b ∷ []) h = (b, refl, refl)
last_block hdr chunk (b ∷ c ∷ bs) h = last_block hdr chunk (c ∷ bs) (omega arith)

pub other_blocks :
    (hdr : PListBlockHeader) (chunk : List ℕ) (bs : List Block) (j : ℕ)
    → j ≢ length bs
    → block_at (Store.append_chunk hdr chunk bs) j ≡ block_at bs j
other_blocks hdr chunk [] j ne = refl
other_blocks hdr chunk (b ∷ []) zero ne = refl
other_blocks hdr chunk (b ∷ []) (suc zero) ne = absurd (ne refl)
other_blocks hdr chunk (b ∷ []) (suc (suc j)) ne = refl
other_blocks hdr chunk (b ∷ c ∷ bs) zero ne = refl
other_blocks hdr chunk (b ∷ c ∷ bs) (suc zero) ne = refl
other_blocks hdr chunk (b ∷ c ∷ bs) (suc (suc j)) ne =
    other_blocks hdr chunk (c ∷ bs) (suc j) (λ e. ne (omega arith))

pub no_block : (bs : List Block) → block_at bs (suc (length bs)) ≡ none
no_block [] = refl
no_block (b ∷ bs) = no_block bs

pub new_last : (n : Block) (bs : List Block) → block_at (bs ++ (n ∷ [])) (suc (length bs)) ≡ some n
new_last n [] = refl
new_last n (b ∷ bs) = new_last n bs

pub new_others :
    (n : Block) (bs : List Block) (j : ℕ)
    → j ≢ suc (length bs)
    → block_at (bs ++ (n ∷ [])) j ≡ block_at bs j
new_others n [] zero ne = refl
new_others n [] (suc zero) ne = absurd (ne refl)
new_others n [] (suc (suc j)) ne = refl
new_others n (b ∷ bs) zero ne = refl
new_others n (b ∷ bs) (suc zero) ne = refl
new_others n (b ∷ bs) (suc (suc j)) ne = new_others n bs (suc j) (λ e. ne (omega arith))

pub raw-some :
    (l : StoredList) (i : ℕ) (b : Block)
    → block_at l.blocks i ≡ some b
    → raw l i ≡ some (layout l.header i b.header b.body)
raw-some l i b e = rw (raw, e) refl

pub raw-none : (l : StoredList) (i : ℕ) → block_at l.blocks i ≡ none → raw l i ≡ none
raw-none l i e = rw (raw, e) refl

pub layout_behind :
    (lhdr lold : PListHeader) (i : ℕ) (hdr : PListBlockHeader) (body : List ℕ)
    → i ≢ 1
    → layout lhdr i hdr body ≡ layout lold i hdr body
layout_behind lhdr lold i hdr body ne = rw (==-ne i 1 ne) refl

-- The first of some blocks.
pub first_block :
    (n : Block) (bs : List Block)
    → 0 < length bs
    → (b : Block) × (block_at (bs ++ (n ∷ [])) 1 ≡ some b)
first_block n [] h = absurd (omega arith)
first_block n (b ∷ bs) h = (b, refl)

-- Blocks with the same headers and body have the same bytes; only the first has the list header.
pub raw_same :
    (l l' : StoredList) (i : ℕ)
    → l.header ≡ l'.header
    → block_at l.blocks i ≡ block_at l'.blocks i
    → raw l i ≡ raw l' i
raw_same l l' i e f =
    ap₂
      (λ (lhdr : PListHeader) (o : Option Block). elim o as (λ _. Option (List ℕ)) [
        | none ↦ none
        | some b ↦ some (layout lhdr i b.header b.body)
      ])
      e f

pub raw_behind :
    (l l' : StoredList) (i : ℕ)
    → i ≢ 1
    → block_at l.blocks i ≡ block_at l'.blocks i
    → raw l i ≡ raw l' i
raw_behind l l' i ne f = elim (Option-cases (block_at l'.blocks i)) [
  | inl e ↦ raw-none l i (f ∙ e) ∙ sym (raw-none l' i e)
  | inr (b, e) ↦
      raw-some l i b (f ∙ e)
      ∙ ap some (layout_behind l.header l'.header i b.header b.body ne)
      ∙ sym (raw-some l' i b e)
]
