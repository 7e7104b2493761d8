-- ===== src/Flush/Readback.antt =====
-- A list that Flush.antt has written, read by Iterator.antt.
use audioneex.Prelude.{
  ℕ, ◌+◌, ◌≤◌, ◌<◌, ◌^◌, ◌≡◌, ap, ◌∙◌, List, [], ◌∷◌, ◌++◌, arith, length, length-append, All,
  All-append, map, ok,
}
use mathlib.Core.Path.{subst, sym}
use audioneex.Postings.{Posting, IsPosting, Above, last_fid}
use audioneex.Cache.Spec.{cached}
use audioneex.Store.{DataStore, DataStoreLaws}
use audioneex.Flush.{FlushState, flush_list}
use audioneex.Flush.Blocks.{concat, list_of, NonEmpty}
use audioneex.Flush.Round.{size_of, All-split}
use audioneex.Flush.Whole.{flush_list-Flushed}
use audioneex.Iterator.{get_plist_iterator}
use audioneex.Iterator.Step.{cursor_at}
use audioneex.Iterator.Traversal.{visit, visit-list_of}

pub All-blocks : (pss : List (List Posting)) → All IsPosting (concat pss) → All (All IsPosting) pss
All-blocks [] h = tt
All-blocks (ps ∷ pss) h =
    let (front, back) = All-split IsPosting ps (concat pss) h in (front, All-blocks pss back)

pub length-le-concat : (pss : List (List Posting)) → NonEmpty pss → length pss ≤ length (concat pss)
length-le-concat [] ne = omega arith
length-le-concat (ps ∷ pss) ne =
    omega (arith, length-append ps (concat pss), length-le-concat pss ne.1, ne.0)

-- After the flush of a cached list, an iterator on the list visits the postings that were stored
-- before and then those of the cache, in order, and no others. The conditions are those of the flush,
-- and that all postings fit the words that they are stored in and are fewer than 2^32 - 1.
pub flush_list-visit :
    (s : DataStore) (laws : DataStoreLaws s) (term fuel : ℕ) (st : FlushState s)
    (pss : List (List Posting)) (r : Posting) (rs : List Posting)
    → laws.lists term st.store ≡ list_of pss
    → NonEmpty pss
    → st.plchunk ≡ []
    → st.plchunk_size ≡ 0
    → Above (last_fid 0 (concat pss)) (r ∷ rs)
    → All IsPosting (concat pss)
    → All IsPosting (r ∷ rs)
    → All (λ p. size_of p ≤ 31000) (r ∷ rs)
    → length (cached (r ∷ rs)) < 2 ^ 32
    → length (concat pss ++ (r ∷ rs)) + 1 < 2 ^ 32
    → length (concat pss ++ (r ∷ rs)) < fuel
    → (st' : FlushState s) × (flush_list s term (cached (r ∷ rs)) st ≡ ok st')
      × (visit s st'.store fuel (get_plist_iterator term)
          ≡ ok (map cursor_at (concat pss ++ (r ∷ rs))))
flush_list-visit s laws term fuel st pss r rs stored ne empty nothing grows old fit short fits few
      lt =
    let (st', pss', run, flushed) =
      flush_list-Flushed s laws term st pss stored r rs ne empty nothing grows fit short fits
        (omega (arith, few, length-le-concat pss ne, length-append (concat pss) (r ∷ rs))) in
    let postings = flushed.postings in
    (
      st',
      run,
      visit-list_of s laws st'.store fuel term pss' flushed.holds.stored flushed.holds.nonempty
            (All-blocks pss' (
              subst (All IsPosting) (sym postings)
                (All-append IsPosting (concat pss) (r ∷ rs) old fit)))
            (omega (arith, few, length-le-concat pss' flushed.holds.nonempty, ap length postings))
            (omega (arith, lt, ap length postings))
          ∙ ap (λ ps. ok (map cursor_at ps)) postings,
    )
