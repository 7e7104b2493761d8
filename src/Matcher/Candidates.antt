-- ===== src/Matcher/Candidates.antt =====
-- FindCandidatesSWords and FindCandidatesBWords (src/ident/Matcher.cpp): all fingerprints are scored, one
-- after the other, through iterators over the postings of the query's terms.
use audioneex.Prelude.{
  ℕ, zero, suc, ◌+◌, ◌-◌, List, [], ◌∷◌, ◌++◌, Bool, false, ◌==◌, ltb, leb, if◌then◌else◌, Option,
  none, some, Outcome, ok, fault, stuck, ◌>>=◌, length, take, drop, add32, sub32,
}
use audioneex.AudioBlock.{FloatOps}
use audioneex.Store.{DataStore}
use audioneex.Iterator
use audioneex.Iterator.{Cursor, PListIterator, get_plist_iterator}
use audioneex.Indexer.Fingerprints.{Qlf}
use audioneex.Indexer.Terms.{word_term, band, quantized_step, pair_term, d_max, t_max}
use audioneex.Results.{Ranking, rank, update_ties, prune}
use audioneex.Matcher.Bins.{
  Info, Histogram, Query, score_occurrences, reset, reset_scored, top_score,
}

-- The variables of a search: the iterators by term, and the terms whose iterators are exhausted.
pub record Search : Type 0 where
  pub iterators : List (ℕ × PListIterator)
  pub eol : List ℕ
  pub h : Histogram

-- `iterators[term]`, where a miss gets a new iterator.
unfoldable pub iterator_of : ℕ → List (ℕ × PListIterator) → PListIterator
iterator_of term [] = get_plist_iterator term
iterator_of term ((k, it) ∷ its) = if k == term then it else iterator_of term its

unfoldable pub set_iterator :
    ℕ → PListIterator → List (ℕ × PListIterator) → List (ℕ × PListIterator)
set_iterator term it [] = (term, it) ∷ []
set_iterator term it ((k, old) ∷ its) =
    if k == term then (k, it) ∷ its else (k, old) ∷ set_iterator term it its

-- `EOL_iterators.insert(term)`
unfoldable pub insert_term : ℕ → List ℕ → List ℕ
insert_term term [] = term ∷ []
insert_term term (x ∷ xs) = if x == term then x ∷ xs else x ∷ insert_term term xs

-- The elements `LID[m]`, `T[m]` and `E[m]` for m < tf.
unfoldable pub zip_occurrences : ℕ → List ℕ → List ℕ → List ℕ → Outcome (List (ℕ × ℕ × ℕ))
zip_occurrences zero lids ts es = ok []
zip_occurrences (suc n) (l ∷ lids) (t ∷ ts) (e ∷ es) =
    zip_occurrences n lids ts es >>= λ rest. ok ((l, t, e) ∷ rest)
zip_occurrences (suc n) _ _ _ = fault

abbrev words_at : Option (List ℕ) → List ℕ
words_at none = []
words_at (some words) = words

unfoldable pub occurrences : Cursor → Outcome (List (ℕ × ℕ × ℕ))
unfolding zip_occurrences
occurrences c = zip_occurrences c.tf (words_at c.lid) (words_at c.t) (words_at c.e)

-- MIN_ACCEPT_SCORE
abbrev pub min_accept_score : ℕ
min_accept_score = 2000

-- A tie list takes the histogram while it is not longer than the limit.
unfoldable pub add_tie : Bool → Histogram → List Histogram → List Histogram
add_tie room h hs = if room then hs ++ (h ∷ []) else hs

-- The tests on the length of a tie list: `< 10` for pairs of words, `<= 10` for words.
unfoldable pub b_ties : Histogram → List Histogram → List Histogram
unfolding add_tie
b_ties h hs = add_tie (ltb (length hs) 10) h hs

unfoldable pub s_ties : Histogram → List Histogram → List Histogram
unfolding add_tie
s_ties h hs = add_tie (leb (length hs) 10) h hs

-- The histogram of a fingerprint goes into the list of the best ones.
unfoldable pub store_histogram :
    (Histogram → List Histogram → List Histogram)
    → Histogram
    → Ranking Histogram
    → Outcome (Ranking Histogram)
unfolding top_score rank update_ties prune
store_histogram add h top = do
  score ← top_score h
  ok (
      if ltb (rank min_accept_score) (rank score)
      then prune (update_ties (add h) score top)
      else top)

module _ {F : Type 0} (o : FloatOps F) (s : DataStore) (store : s.State) where
  -- The postings list of a term, for the fingerprint `fid`.
  unfoldable pub visit : ℕ → Query → ℕ → Search → Outcome Search
  unfolding Iterator.get Iterator.next Iterator.is_empty iterator_of set_iterator insert_term
      occurrences score_occurrences reset_scored
  visit fid q term se = do
    it ← Iterator.get s store (iterator_of term se.iterators)
    let eol : List ℕ = if Iterator.is_empty it.cursor then insert_term term se.eol else se.eol
    let scored : Outcome Search = do
      occs ← occurrences it.cursor
      h ← score_occurrences o q occs se.h
      it' ← Iterator.next s store it
      ok (record { iterators = set_iterator term it' se.iterators; eol = eol; h = reset_scored h })
    if it.cursor.fid == fid
        then scored
        else ok (record se { iterators = set_iterator term it se.iterators; eol = eol })

  -- The loop over the words of the batch; `k` is the number of the first one in the query sequence.
  unfoldable pub visit_words : ℕ → ℕ → List Qlf → Search → Outcome Search
  unfolding visit word_term
  visit_words fid k [] se = ok se
  visit_words fid k (x ∷ xs) se = do
    se' ←
        visit fid (record { k = k; error = x.e; pivot = 1; again = λ _. false }) (word_term o x) se
    visit_words fid (k + 1) xs se'

  -- The inner loop over the fingerprints behind the pivot, whether in the batch or not; `d` is dN.
  unfoldable pub visit_partners : ℕ → ℕ → Qlf → ℕ → List Qlf → Search → Outcome Search
  unfolding visit pair_term band quantized_step
  visit_partners fid k x d [] se = ok se
  visit_partners fid k x d (y ∷ ys) se =
      let term =
        pair_term x.w (band o x) y.w (quantized_step o 5 x.t y.t) (quantized_step o 9 x.f y.f) in
      let q : Query = record {
        k = k;
        error = x.e;
        pivot = add32 k 1;
        again = λ (i : Info). sub32 i.pivot 1 == k;
      } in
      let paired : Outcome Search =
        visit fid q term se >>= λ se'. visit_partners fid k x (d + 1) ys se' in
      let skipped = visit_partners fid k x d ys se in
      if ltb d d_max
      then if ltb t_max (sub32 y.t x.t)
        then ok se
        else if band o y == band o x
        then paired
        else skipped
      else ok se

  -- The loop over the `n` pivots of the batch.
  unfoldable pub visit_pairs : ℕ → ℕ → ℕ → List Qlf → Search → Outcome Search
  unfolding visit_partners
  visit_pairs fid k zero xs se = ok se
  visit_pairs fid k (suc n) [] se = fault
  visit_pairs fid k (suc n) (x ∷ xs) se =
      visit_partners fid k x 0 xs se >>= λ se'. visit_pairs fid (k + 1) n xs se'

  -- The do-while loop, with what it does for a fingerprint and the number of fingerprints as fuel.
  unfoldable pub score_loop :
      (ℕ → Search → Outcome Search)
      → (Histogram → List Histogram → List Histogram)
      → ℕ
      → ℕ
      → Search
      → Ranking Histogram
      → Outcome (Histogram × Ranking Histogram)
  unfolding store_histogram reset
  score_loop pass add zero fid se top = stuck
  score_loop pass add (suc fuel) fid se top = pass fid se >>= λ se1.
      let h : Histogram = record se1.h { qi = fid } in
      store_histogram add h top >>= λ top'.
      let rest = score_loop pass add fuel (add32 fid 1) (record se1 { h = reset h }) top' in
      if ltb (length se1.eol) (length se1.iterators) then rest else ok (reset h, top')

  abbrev new_search : Histogram → Search
  new_search h = record { iterators = []; eol = []; h = h }

  -- Xk is the query sequence, and the batch has its elements from `ko` up to `kn`.
  unfoldable pub find_candidates_s_words :
      ℕ → List Qlf → ℕ → ℕ → Histogram → Ranking Histogram → Outcome (Histogram × Ranking Histogram)
  unfolding score_loop visit_words s_ties
  find_candidates_s_words fuel xk ko kn h top =
      score_loop (λ fid se. visit_words fid ko (take (kn - ko) (drop ko xk)) se) s_ties fuel 1
        (new_search h) top

  unfoldable pub find_candidates_b_words :
      ℕ → List Qlf → ℕ → ℕ → Histogram → Ranking Histogram → Outcome (Histogram × Ranking Histogram)
  unfolding score_loop visit_pairs b_ties
  find_candidates_b_words fuel xk ko kn h top =
      let searched =
        score_loop (λ fid se. visit_pairs fid ko (kn - ko) (drop ko xk) se) b_ties fuel 1
          (new_search h) top in
      if ltb (kn - ko) 2 then ok (h, top) else searched
