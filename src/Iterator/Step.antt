-- ===== src/Iterator/Step.antt =====
-- One step of an iterator of Iterator.antt inside a block.
use audioneex.Prelude.{
  ℕ, ◌<◌, ◌≡◌, refl, sym, List, [], ◌∷◌, ◌++◌, arith, append_assoc, true, false, leb, some, ok,
  length, length-append, take-append, drop-append,
}
use audioneex.Postings.{Posting, block_layout, block_layouts, lids, times, errors}
use audioneex.Codec.Delta.Spec.{length-lids, length-times, length-errors}
use audioneex.Flush.Chunk.{ints}
use audioneex.Iterator.{Cursor, PListIterator, no_posting, is_empty, advance, next_posting}

-- The cursor at a posting.
abbrev pub cursor_at : Posting → Cursor
cursor_at p = record {
  fid = p.fid;
  tf = length p.occs;
  lid = some (lids p.occs);
  t = some (times p.occs);
  e = some (errors p.occs);
}

pub advance-append : (n : ℕ) (xs ys : List ℕ) → n ≡ length xs → advance n (xs ++ ys) ≡ ok (xs, ys)
unfolding advance
advance-append n xs ys e = rw (fits, take-append xs ys n e, drop-append xs ys n e) refl
  where
    fits : leb n (length (xs ++ ys)) ≡ true
    fits = ground (arith, length-append xs ys)

-- In a block, the cursor moves to the next posting.
pub next_posting-block_layout :
    (it : PListIterator) (p : Posting) (rest : List ℕ)
    → it.words ≡ block_layout p ++ rest
    → next_posting it ≡ ok (record it { cursor = cursor_at p; words = rest })
unfolding next_posting
next_posting-block_layout it p rest e =
    rw
      (
        e,
        append_assoc (lids p.occs) (times p.occs ++ errors p.occs) rest,
        advance-append (length p.occs) (lids p.occs) ((times p.occs ++ errors p.occs) ++ rest)
            (sym (length-lids p.occs)),
        append_assoc (times p.occs) (errors p.occs) rest,
        advance-append (length p.occs) (times p.occs) (errors p.occs ++ rest)
            (sym (length-times p.occs)),
        advance-append (length p.occs) (errors p.occs) rest (sym (length-errors p.occs)),
      )
      refl

pub ints-pos : (ps : List Posting) → 0 < length ps → 0 < ints ps
ints-pos [] h = absurd (omega arith)
ints-pos (p ∷ ps) h = omega arith

pub block_layouts-pos : (ps : List Posting) → 0 < length ps → 0 < length (block_layouts ps)
block_layouts-pos [] h = absurd (omega arith)
block_layouts-pos (p ∷ ps) h = omega arith

-- At the end of a block, the cursor is empty.
pub next_posting-end :
    (it : PListIterator)
    → it.words ≡ []
    → next_posting it ≡ ok (record it { cursor = no_posting; words = [] })
unfolding next_posting
next_posting-end it e = rw e refl

pub cursor_at-full : (p : Posting) → is_empty (cursor_at p) ≡ false
unfolding is_empty
cursor_at-full p = ground arith
