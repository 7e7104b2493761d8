-- ===== src/Iterator/Traversal.antt =====
-- The postings that an iterator of Iterator.antt visits.
use audioneex.Prelude.{
  ℕ, zero, suc, ◌+◌, ◌^◌, ◌≤◌, ◌<◌, ◌≡◌, refl, sym, ap, ◌∙◌, List, [], ◌∷◌, ◌++◌, arith,
  append_assoc, true, false, ◌==◌, ◌&&◌, ==-ne, map, ltb, if◌then◌else◌, Outcome, ok, stuck, ◌>>=◌,
  length, length-append, All, add32,
}
use audioneex.Postings.{Posting, IsPosting, block_layouts}
use audioneex.Codec.VByte.{get_decoded_size_estimate}
use audioneex.Codec.VByte.Bounds.{length-encode_values}
use audioneex.Codec.Block.RoundTrip.{chunk_bytes, decode-chunk_bytes, All-delta_layouts}
use audioneex.Codec.Delta.Spec.{delta_layouts}
use audioneex.Store.{DataStore, DataStoreLaws, StoredList, body_at}
use audioneex.Flush.Chunk.{length-delta_layouts}
use audioneex.Flush.Blocks.{concat, blocks_of, list_of, NonEmpty}
use audioneex.Iterator.{
  Cursor, PListIterator, no_posting, is_empty, next_block, next, checked, get_plist_iterator,
}
use audioneex.Iterator.Step.{
  cursor_at, next_posting-block_layout, ints-pos, block_layouts-pos, next_posting-end,
  cursor_at-full,
}

module _ (s : DataStore) (store : s.State) where
  -- A client's loop: `next` until the cursor is empty.
  unfoldable pub visit : ℕ → PListIterator → Outcome (List Cursor)
  unfolding next is_empty
  visit zero it = stuck
  visit (suc fuel) it = do
    it' ← next s store it
    let rest : Outcome (List Cursor) = visit fuel it' >>= λ cs. ok (it'.cursor ∷ cs)
    if is_empty it'.cursor then ok [] else rest

module _ (s : DataStore) (laws : DataStoreLaws s) (store : s.State) where
  -- The iterator has the postings `ps` left in its block and the blocks `pss` left in the store.
  pub record Ahead (it : PListIterator) (ps : List Posting) (pss : List (List Posting))
      : Type 0 where
    pub before : List (List Posting)
    pub stored : laws.lists it.term store ≡ list_of (before ++ pss)
    pub block_number : it.next_block ≡ suc (length before)
    pub few : length (before ++ pss) + 1 < 2 ^ 32
    pub words_are : it.words ≡ block_layouts ps
    pub more : it.eol ≡ false
    pub nonempty : NonEmpty pss
    pub postings : All (All IsPosting) pss

  next-words :
      (it : PListIterator) (p : Posting) (ps : List Posting) (pss : List (List Posting))
      → Ahead it (p ∷ ps) pss
      → next s store it ≡ ok (record it { cursor = cursor_at p; words = block_layouts ps })
  unfolding next is_empty
  next-words it p ps pss h =
      rw (next_posting-block_layout it p (block_layouts ps) h.words_are, occupied, h.more) refl
    where
      occupied : (p.fid == 0 && ((length p.occs == 0) && false)) ≡ false
      occupied = ground arith

  -- The block behind the ones that are read.
  body_at-blocks_of :
      (n : ℕ) (before : List (List Posting)) (qs : List Posting) (pss : List (List Posting))
      → body_at (blocks_of n (before ++ (qs ∷ pss))) (suc (length before)) ≡ chunk_bytes 0 qs
  body_at-blocks_of n [] qs pss = refl
  body_at-blocks_of n (ps ∷ before) qs pss = body_at-blocks_of (suc n) before qs pss

  body_at-end :
      (n : ℕ) (before : List (List Posting))
      → body_at (blocks_of n (before ++ [])) (suc (length before)) ≡ []
  body_at-end n [] = refl
  body_at-end n (ps ∷ before) = body_at-end (suc n) before

  stored_body :
      (it : PListIterator) (qs : List Posting) (pss : List (List Posting))
      → (h : Ahead it [] (qs ∷ pss))
      → s.get_plist_block it.term it.next_block store ≡ chunk_bytes 0 qs
  stored_body it qs pss h =
      laws.plist_block_lem it.term it.next_block store
      ∙ ap (λ (l : StoredList). body_at l.blocks it.next_block) h.stored
      ∙ ap (body_at (blocks_of 0 (h.before ++ (qs ∷ pss)))) h.block_number
      ∙ body_at-blocks_of 0 h.before qs pss

  -- The iterator after the block `qs` is fetched.
  abbrev fetched : PListIterator → List Posting → PListIterator
  fetched it qs = record it {
    next_block = add32 it.next_block 1;
    capacity =
        if ltb it.capacity (length (chunk_bytes 0 qs))
        then length (chunk_bytes 0 qs)
        else it.capacity;
    begun = true;
    words = block_layouts qs;
  }

  moved :
      (it : PListIterator) (c : Cursor) (qs ps : List Posting) (pss : List (List Posting))
      → Ahead it qs pss
      → Ahead (record it { cursor = c; words = block_layouts ps }) ps pss
  moved it c qs ps pss h = record {
    before = h.before;
    stored = h.stored;
    block_number = h.block_number;
    few = h.few;
    words_are = refl;
    more = h.more;
    nonempty = h.nonempty;
    postings = h.postings;
  }

  -- The block is fetched, and the buffer is large enough for it.
  next_block-Ahead :
      (it : PListIterator) (qs : List Posting) (pss : List (List Posting))
      → Ahead it [] (qs ∷ pss)
      → (next_block s store it ≡ ok (fetched it qs, true)) × Ahead (fetched it qs) qs pss
  unfolding next_block get_decoded_size_estimate checked
  next_block-Ahead it qs pss h =
      let bytes =
        (length-encode_values (delta_layouts 0 qs) (All-delta_layouts 0 qs h.postings.0)).0 in
      let ints_eq = length-delta_layouts 0 qs in
      let large : length (delta_layouts 0 qs) ≤ (
          if ltb it.capacity (length (chunk_bytes 0 qs))
          then length (chunk_bytes 0 qs)
          else it.capacity) =
        ground (arith, bytes) in
      let some_bytes : (length (chunk_bytes 0 qs) == 0) ≡ false =
        ==-ne _ _ (λ e. omega (arith, bytes, ints_eq, ints-pos qs h.nonempty.0, e)) in
      let some_words : (length (block_layouts qs) == 0) ≡ false =
        ==-ne _ _ (λ e. omega (arith, block_layouts-pos qs h.nonempty.0, e)) in
      (
        rw
            (
              stored_body it qs pss h,
              some_bytes,
              decode-chunk_bytes qs _ 0 h.postings.0 (omega arith) large,
              some_words,
            )
            refl,
        record {
          before = h.before ++ (qs ∷ []);
          stored = h.stored ∙ ap list_of (sym (append_assoc h.before (qs ∷ []) pss));
          block_number = omega (
            arith,
            h.block_number,
            h.few,
            length-append h.before (qs ∷ pss),
            length-append h.before (qs ∷ []),
          );
          few = omega (arith, h.few, ap length (append_assoc h.before (qs ∷ []) pss));
          words_are = refl;
          more = h.more;
          nonempty = h.nonempty.1;
          postings = h.postings.1;
        },
      )

  next-block :
      (it : PListIterator) (p : Posting) (ps : List Posting) (pss : List (List Posting))
      → Ahead it [] ((p ∷ ps) ∷ pss)
      → (it' : PListIterator) × (next s store it ≡ ok it')
        × (it'.cursor ≡ cursor_at p)
        × Ahead it' ps pss
  unfolding next is_empty
  next-block it p ps pss h =
      let it1 : PListIterator = record it { cursor = no_posting; words = [] } in
      let it2 = fetched it1 (p ∷ ps) in
      let (e, h2) =
        next_block-Ahead it1 (p ∷ ps) pss (moved it no_posting [] [] ((p ∷ ps) ∷ pss) h) in
      (
        record it2 { cursor = cursor_at p; words = block_layouts ps },
        rw
            (
              next_posting-end it h.words_are,
              e,
              next_posting-block_layout it2 p (block_layouts ps) refl,
              h.more,
            )
            refl,
        refl,
        moved it2 (cursor_at p) (p ∷ ps) ps pss h2,
      )

  next-end :
      (it : PListIterator)
      → Ahead it [] []
      → (it' : PListIterator) × (next s store it ≡ ok it') × (it'.cursor ≡ no_posting)
  unfolding next is_empty next_block
  next-end it h = (
    record it { cursor = no_posting; words = []; eol = true },
    rw (next_posting-end it h.words_are, body, h.more) refl,
    refl,
  )
    where
      body : s.get_plist_block it.term it.next_block store ≡ []
      body =
          laws.plist_block_lem it.term it.next_block store
          ∙ ap (λ (l : StoredList). body_at l.blocks it.next_block) h.stored
          ∙ ap (body_at (blocks_of 0 (h.before ++ []))) h.block_number
          ∙ body_at-end 0 h.before

  visit-Ahead :
      (fuel : ℕ) (it : PListIterator) (ps : List Posting) (pss : List (List Posting))
      → Ahead it ps pss
      → length (ps ++ concat pss) < fuel
      → visit s store fuel it ≡ ok (map cursor_at (ps ++ concat pss))
  unfolding visit is_empty
  visit-Ahead zero it ps pss h lt = absurd (omega arith)
  visit-Ahead (suc fuel) it [] [] h lt = let (it', e, c) = next-end it h in rw (e, c) refl
  visit-Ahead (suc fuel) it [] ([] ∷ pss) h lt = absurd (omega (arith, h.nonempty.0))
  visit-Ahead (suc fuel) it [] ((p ∷ ps) ∷ pss) h lt =
      let (it', e, c, h') = next-block it p ps pss h in
      rw (e, c, cursor_at-full p, visit-Ahead fuel it' ps pss h' (omega (arith, lt))) refl
  visit-Ahead (suc fuel) it (p ∷ ps) pss h lt =
      rw
        (
          next-words it p ps pss h,
          cursor_at-full p,
          visit-Ahead fuel _ ps pss (moved it (cursor_at p) (p ∷ ps) ps pss h) (omega (arith, lt)),
        )
        refl

  -- An iterator that starts on a stored list visits all its postings, in the order of the list, and
  -- is at an empty posting then. The list is in non-empty blocks, fewer than 2^32 - 1, and its
  -- postings fit the words that they are stored in.
  pub visit-list_of :
      (fuel term : ℕ) (pss : List (List Posting))
      → laws.lists term store ≡ list_of pss
      → NonEmpty pss
      → All (All IsPosting) pss
      → length pss + 1 < 2 ^ 32
      → length (concat pss) < fuel
      → visit s store fuel (get_plist_iterator term) ≡ ok (map cursor_at (concat pss))
  visit-list_of fuel term pss stored ne fit few lt =
      visit-Ahead fuel (get_plist_iterator term) [] pss
        (record {
          before = [];
          stored = stored;
          block_number = refl;
          few = few;
          words_are = refl;
          more = refl;
          nonempty = ne;
          postings = fit;
        })
        lt
