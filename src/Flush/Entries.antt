-- ===== src/Flush/Entries.antt =====
-- The flush of a whole cache by Flush.antt.
use audioneex.Prelude.{
  ℕ, ◌+◌, ◌≤◌, ◌<◌, ◌^◌, ◌≡◌, refl, sym, ap, ◌∙◌, List, [], ◌∷◌, ◌++◌, arith, length, All, ok,
}
use mathlib.Core.Path.{subst}
use audioneex.Postings.{Posting, IsPosting, Above, last_fid}
use audioneex.Cache.{Buffer}
use audioneex.Cache.Spec.{cached}
use audioneex.Store.{DataStore, DataStoreLaws, null_block}
use audioneex.Flush.{FlushState, flush_list, flush_lists, do_flush}
use audioneex.Flush.Blocks.{concat, list_of, NonEmpty}
use audioneex.Flush.Round.{size_of}
use audioneex.Flush.Whole.{flush_list-Flushed}

-- An entry of the cache: the blocks that the store has of the list, and the postings to come.
pub record Entry : Type 0 where
  pub term : ℕ
  pub stored : List (List Posting)
  pub fresh : List Posting

-- The buffer with these entries.
abbrev pub buffer_of : List Entry → Buffer
buffer_of [] = []
buffer_of (x ∷ xs) = (x.term, cached x.fresh) ∷ buffer_of xs

-- No term has two entries.
abbrev pub DistinctTerms : List Entry → Type 0
DistinctTerms [] = Unit {0}
DistinctTerms (x ∷ xs) = All (λ y. ¬ (y.term ≡ x.term)) xs × DistinctTerms xs

-- The postings of an entry can be stored: their fids grow from above the stored ones, they fit their
-- words, a posting has 31000 words at most, and array and blocks are fewer than 2^32.
pub record IsEntry (x : Entry) : Type 0 where
  pub nonempty : NonEmpty x.stored
  pub some_posting : 0 < length x.fresh
  pub grows : Above (last_fid 0 (concat x.stored)) x.fresh
  pub fit : All IsPosting x.fresh
  pub short : All (λ p. size_of p ≤ 31000) x.fresh
  pub words : length (cached x.fresh) < 2 ^ 32
  pub few : length x.stored + length x.fresh + 1 < 2 ^ 32

module _ (s : DataStore) (laws : DataStoreLaws s) where
  -- The store has the blocks of the entry.
  abbrev pub IsStored : s.State → Entry → Type 0
  IsStored d x = laws.lists x.term d ≡ list_of x.stored

  -- The store has the postings of the entry behind the ones it had.
  pub record HasFresh (d : s.State) (x : Entry) : Type 0 where
    pub blocks : List (List Posting)
    pub stored : laws.lists x.term d ≡ list_of blocks
    pub nonempty : NonEmpty blocks
    pub postings : concat blocks ≡ concat x.stored ++ x.fresh

  All-IsStored :
      (x : Entry) (d d' : s.State) (xs : List Entry)
      → ((u : ℕ) → ¬ (u ≡ x.term) → laws.lists u d' ≡ laws.lists u d)
      → All (λ y. ¬ (y.term ≡ x.term)) xs
      → All (IsStored d) xs
      → All (IsStored d') xs
  All-IsStored x d d' [] same ne h = tt
  All-IsStored x d d' (y ∷ ys) same ne h =
      (same y.term ne.0 ∙ h.0, All-IsStored x d d' ys same ne.1 h.1)

  -- The flush of one entry.
  flush_entry :
      (x : Entry) (st : FlushState s) (ps : List Posting)
      → x.fresh ≡ ps
      → IsEntry x
      → IsStored st.store x
      → st.plchunk ≡ []
      → st.plchunk_size ≡ 0
      → (st' : FlushState s) × (pss : List (List Posting)) × (flush_list s x.term (cached ps) st
          ≡ ok st')
        × HasFresh st'.store x
        × (st'.plchunk ≡ [])
        × (st'.plchunk_size ≡ 0)
        × ((u : ℕ) → ¬ (u ≡ x.term) → laws.lists u st'.store ≡ laws.lists u st.store)
  flush_entry x st [] e h stored empty nothing = absurd (omega (arith, h.some_posting, ap length e))
  flush_entry x st (r ∷ rs) e h stored empty nothing =
      let (st', pss', run, flushed) =
        flush_list-Flushed s laws x.term st x.stored stored r rs h.nonempty empty nothing
          (subst (Above (last_fid 0 (concat x.stored))) e h.grows) (subst (All IsPosting) e h.fit)
          (subst (All (λ p. size_of p ≤ 31000)) e h.short)
          (subst (λ ps. length (cached ps) < 2 ^ 32) e h.words)
          (subst (λ ps. length x.stored + length ps + 1 < 2 ^ 32) e h.few) in
      (
        st',
        pss',
        run,
        record {
          blocks = pss';
          stored = flushed.holds.stored;
          nonempty = flushed.holds.nonempty;
          postings = flushed.postings ∙ ap (λ ps. concat x.stored ++ ps) (sym e);
        },
        flushed.cleared,
        flushed.cleared_size,
        flushed.untouched,
      )

  HasFresh-kept :
      (d d' : s.State) (x : Entry)
      → laws.lists x.term d' ≡ laws.lists x.term d
      → HasFresh d x
      → HasFresh d' x
  HasFresh-kept d d' x same h = record {
    blocks = h.blocks;
    stored = same ∙ h.stored;
    nonempty = h.nonempty;
    postings = h.postings;
  }

  All-sym : (t : ℕ) (xs : List Entry) → All (λ y. ¬ (y.term ≡ t)) xs → All (λ y. ¬ (t ≡ y.term)) xs
  All-sym t [] h = tt
  All-sym t (y ∷ ys) h = (λ e. h.0 (sym e), All-sym t ys h.1)

  flush_lists-HasFresh :
      (xs : List Entry) (st : FlushState s)
      → DistinctTerms xs
      → All IsEntry xs
      → All (IsStored st.store) xs
      → st.plchunk ≡ []
      → st.plchunk_size ≡ 0
      → (st' : FlushState s) × (flush_lists s (buffer_of xs) st ≡ ok st')
        × All (HasFresh st'.store) xs
        × ((u : ℕ) → All (λ y. ¬ (u ≡ y.term)) xs → laws.lists u st'.store ≡ laws.lists u st.store)
  unfolding flush_lists
  flush_lists-HasFresh [] st distinct entries stored empty nothing = (st, refl, tt, λ u ne. refl)
  flush_lists-HasFresh (x ∷ xs) st distinct entries stored empty nothing =
      let (st1, pss1, run1, fresh1, empty1, nothing1, others1) =
        flush_entry x st x.fresh refl entries.0 stored.0 empty nothing in
      let (st2, run2, fresh2, others2) =
        flush_lists-HasFresh xs st1 distinct.1 entries.1
          (All-IsStored x st.store st1.store xs others1 distinct.0 stored.1) empty1 nothing1 in
      (
        st2,
        rw (run1, run2) refl,
        (
          HasFresh-kept st1.store st2.store x (others2 x.term (All-sym x.term xs distinct.0))
              fresh1,
          fresh2,
        ),
        λ u ne. others2 u ne.1 ∙ others1 u ne.0,
      )

  -- A cache holds the given entries, one for each term, and the store has the stored lists that they
  -- name, in non-empty blocks. Each entry has a posting at least; its fids grow from above the stored
  -- ones, its postings fit their words and have 31000 words at most each, its array is shorter than 2^32
  -- words, and its blocks and new postings together are fewer than 2^32 - 1. Then the flush ends without
  -- an error; each list has its new postings behind the ones that were stored, in non-empty blocks, and
  -- the lists of all other terms are as they were.
  pub do_flush-HasFresh :
      (xs : List Entry) (d : s.State)
      → DistinctTerms xs
      → All IsEntry xs
      → All (IsStored d) xs
      → (d' : s.State) × (do_flush s (buffer_of xs) d ≡ ok d')
        × All (HasFresh d') xs
        × ((u : ℕ) → All (λ y. ¬ (u ≡ y.term)) xs → laws.lists u d' ≡ laws.lists u d)
  unfolding do_flush
  do_flush-HasFresh xs d distinct entries stored =
      let (st, run, fresh, others) =
        flush_lists-HasFresh xs
          (record {
            plchunk = [];
            plchunk_size = 0;
            lhdr = record { block_count = 0 };
            hdr = null_block;
            ser_chunk = [];
            store = d;
          })
          distinct entries stored refl refl in
      (st.store, rw run refl, fresh, others)
