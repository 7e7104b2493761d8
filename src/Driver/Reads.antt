-- ===== src/Driver/Reads.antt =====
-- GetPListBlock of the driver (src/dbdrivers/TCDataStore.cpp), and the iterator over it.
use audioneex.Prelude.{
  ℕ, zero, suc, ◌+◌, ◌-◌, ◌<◌, ◌^◌, ◌≡◌, refl, sym, ap, ◌∙◌, List, [], ◌∷◌, ◌++◌, ◌==◌, Option, ok,
  ◌>>=◌, arith, Bool-cases, Option-cases, inl, inr, length, drop, take-append, le→ltb, All, map,
}
use mathlib.Core.Path.{subst}
use audioneex.Store.{DataStore, PListHeader, PListBlockHeader, StoredList, block_at, body_at}
use audioneex.Postings.{IsPosting}
use audioneex.Store.Arrays.{array_store, array_laws}
use audioneex.Flush.{do_flush}
use audioneex.Flush.Blocks.{concat}
use audioneex.Flush.Entries.{Entry, buffer_of, DistinctTerms, IsEntry, IsStored, HasFresh}
use audioneex.Flush.Readback.{All-blocks, length-le-concat}
use audioneex.Iterator.{PListIterator, get_plist_iterator, next, next_block}
use audioneex.Iterator.Step.{cursor_at}
use audioneex.Iterator.Traversal.{visit, visit-list_of}
use audioneex.Driver.{
  HashDb, opened, read_block, header_offset, block_header_size, list_header_bytes,
  block_header_bytes,
}
use audioneex.Driver.Writes.{HashDbLaws}
use audioneex.Driver.View.{layout}
use audioneex.Driver.Blocks.{raw-some, raw-none}
use audioneex.Driver.DataStore.{Operation, TcDataStore, tc_data_store, get_plist_block}
use audioneex.Driver.Index.{IsIndex, FitsDriver}
use audioneex.Driver.Flushed.{flush-IsIndex}

-- Without its headers a block is its body.
pub layout-body :
    (lhdr : PListHeader) (i : ℕ) (hdr : PListBlockHeader) (body : List ℕ)
    → drop (header_offset i + block_header_size) (layout lhdr i hdr body) ≡ body
unfolding header_offset list_header_bytes block_header_bytes
layout-body lhdr i hdr body = elim (Bool-cases (i == 1)) [ inl e ↦ rw e refl | inr e ↦ rw e refl ]

pub length-layout :
    (lhdr : PListHeader) (i : ℕ) (hdr : PListBlockHeader) (body : List ℕ)
    → length (layout lhdr i hdr body) ≡ header_offset i + block_header_size + length body
unfolding header_offset list_header_bytes block_header_bytes
length-layout lhdr i hdr body = elim (Bool-cases (i == 1)) [
  | inl e ↦ rw e (omega arith)
  | inr e ↦ rw e (omega arith)
]

module _ (h : HashDb) (grow : ℕ → ℕ → ℕ) (file : Option h.Db) (d : TcDataStore h)
    (a : ℕ → StoredList) (ix : IsIndex h d.main_index a) where
  abbrev tc : DataStore
  tc = tc_data_store h grow file

  -- If the database has the given lists, the bytes that GetPListBlock gives the engine are the body of
  -- the block, none if it does not exist.
  pub get_plist_block-body_at : (t i : ℕ) → tc.get_plist_block t i (ok d) ≡ body_at (a t).blocks i
  unfolding get_plist_block read_block
  get_plist_block-body_at t i = elim (Option-cases (block_at (a t).blocks i)) [
    | inl e ↦ rw (opened, ix.has_db, ix.bytes t i ∙ raw-none (a t) i e, body_at, e) refl
    | inr (b, e) ↦
        let size = length-layout (a t).header i b.header b.body in
        let off = header_offset i + block_header_size in
        let block = layout (a t).header i b.header b.body in
        rw
          (
            opened,
            ix.has_db,
            ix.bytes t i ∙ raw-some (a t) i b e,
            le→ltb (length block) off (omega (arith, size)),
            layout-body (a t).header i b.header b.body,
            body_at,
            e,
          )
          (take-append b.body (drop (length block - off) d.read_buffer) (length block - off)
            (omega (arith, size)))
  ]

-- An iterator sees of a data store the bytes of its blocks.
module _ (s s' : DataStore) (store : s.State) (store' : s'.State)
    (same : (t i : ℕ) → s.get_plist_block t i store ≡ s'.get_plist_block t i store') where
  next_same : (it : PListIterator) → next s store it ≡ next s' store' it
  unfolding next next_block
  next_same it = simp same

  pub visit_same : (fuel : ℕ) (it : PListIterator) → visit s store fuel it ≡ visit s' store' fuel it
  unfolding visit
  visit_same zero it = refl
  visit_same (suc fuel) it = simp (next_same, visit_same fuel)

-- The postings of an entry, old and new, fit their words, and a visit of them its fuel.
pub record Visitable (fuel : ℕ) (x : Entry) : Type 0 where
  pub fit : All IsPosting (concat x.stored ++ x.fresh)
  pub few : length (concat x.stored ++ x.fresh) + 1 < 2 ^ 32
  pub lt : length (concat x.stored ++ x.fresh) < fuel

module _ (h : HashDb) (laws : HashDbLaws h) (grow : ℕ → ℕ → ℕ) (file : Option h.Db) (fuel : ℕ) where
  -- An iterator on the list of an entry visits all its postings, over the driver.
  abbrev pub IsVisited : TcDataStore h → Entry → Type 0
  IsVisited d x =
      visit (tc_data_store h grow file) (ok d) fuel (get_plist_iterator x.term)
      ≡ ok (map cursor_at (concat x.stored ++ x.fresh))

  HasFresh-IsVisited :
      (d : TcDataStore h) (a : ℕ → StoredList) (x : Entry)
      → IsIndex h d.main_index a
      → HasFresh array_store array_laws a x
      → Visitable fuel x
      → IsVisited d x
  HasFresh-IsVisited d a x ix f v =
      visit_same (tc_data_store h grow file) array_store (ok d) a
        (get_plist_block-body_at h grow file d a ix) fuel (get_plist_iterator x.term)
      ∙ visit-list_of array_store array_laws a fuel x.term f.blocks f.stored f.nonempty
          (All-blocks f.blocks (subst (All IsPosting) (sym f.postings) v.fit))
          (omega (arith, v.few, ap length f.postings, length-le-concat f.blocks f.nonempty))
          (omega (arith, v.lt, ap length f.postings))
      ∙ ap (λ ps. ok (map cursor_at ps)) f.postings

  All-IsVisited :
      (d : TcDataStore h) (a : ℕ → StoredList) (xs : List Entry)
      → IsIndex h d.main_index a
      → All (HasFresh array_store array_laws a) xs
      → All (Visitable fuel) xs
      → All (IsVisited d) xs
  All-IsVisited d a [] ix f v = tt
  All-IsVisited d a (x ∷ xs) ix f v =
      (HasFresh-IsVisited d a x ix f.0 v.0, All-IsVisited d a xs ix f.1 v.1)

  -- In BUILD mode, the database has the given lists, and the cache the given entries, one for each term,
  -- which name their stored lists in non-empty blocks. Each entry has a posting at least; its fids grow
  -- from above the stored ones, its new postings have 31000 words at most each, its array is shorter than
  -- 2^32 words, its blocks and new postings together are fewer than 2^32 - 1, its blocks and the words of
  -- its array together fewer than 2^32, and the body size and the largest fid of its last stored header
  -- fit their words. All its postings, old and new, fit their words and are fewer than 2^32 - 1, and
  -- fewer than the rounds of the visit. Then the flush of the indexer to the driver ends without an error,
  -- and an iterator over the driver on the list of each entry visits the postings stored before and those
  -- of the cache, in order, and no others.
  pub flush-IsVisited :
      (xs : List Entry) (a : ℕ → StoredList) (d : TcDataStore h)
      → d.op ≡ Operation.build
      → IsIndex h d.main_index a
      → DistinctTerms xs
      → All IsEntry xs
      → All (IsStored array_store array_laws a) xs
      → All FitsDriver xs
      → All (Visitable fuel) xs
      → (d' : TcDataStore h) × ((do_flush
              (tc_data_store h grow file)
              (buffer_of xs)
              ((tc_data_store h grow file).on_indexer_flush_start (ok d))
            >>= λ s. ok ((tc_data_store h grow file).on_indexer_flush_end s))
          ≡ ok (ok d'))
        × All (IsVisited d') xs
  flush-IsVisited xs a d builds ix distinct entries stored fits visitable =
      let (d', a', run, ix', fresh, others) =
        flush-IsIndex h laws grow file xs a d builds ix distinct entries stored fits in
      (d', run, All-IsVisited d' a' xs ix' fresh visitable)
