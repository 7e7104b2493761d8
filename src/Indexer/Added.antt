-- ===== src/Indexer/Added.antt =====
-- The postings lists of the cache after a fingerprint is indexed (src/index/Indexer.cpp).
use audioneex.Prelude.{
  ℕ, zero, suc, ◌+◌, ◌*◌, ◌≤◌, ◌<◌, ◌^◌, ◌≡◌, refl, sym, ap, ◌∙◌, List, [], ◌∷◌, ◌==◌,
  if◌then◌else◌, ok, arith, Bool-cases, inl, inr, ==→eq, All, length, length-append, take, map,
}
use mathlib.Core.Path.{subst}
use audioneex.AudioBlock.{FloatOps}
use audioneex.Postings.{Occ, Posting, last_fid}
use audioneex.Cache.{IndexCache, find, update, reset}
use audioneex.Cache.Spec.{cached, add}
use audioneex.Cache.View.{update-find, All-add, last_fid-add, length-cached-add}
use audioneex.Indexer.Fingerprints.{Qlf}
use audioneex.Indexer.Terms.{MatchType, index_terms, d_max}
use audioneex.Indexer.Elements.{
  Element, update_all, word_elements, near, in_band, pair_element, paired, pair_elements, elements,
  index_terms-update_all,
}

-- The postings of a list that can take an element with this fid: each has an element, no fid is larger,
-- and the array has at most `n` words.
pub record HasRoom (fid n : ℕ) (ps : List Posting) : Type 0 where
  pub nonempty : All (λ (p : Posting). 0 < length p.occs) ps
  pub below : last_fid 0 ps ≤ fid
  pub size : length (cached ps) ≤ n

-- The cache has these postings for each term.
pub record Holds (fid n : ℕ) (c : IndexCache) (lists : ℕ → List Posting) : Type 0 where
  pub arrays : (t : ℕ) → find t c.buffer ≡ cached (lists t)
  pub rooms : (t : ℕ) → HasRoom fid n (lists t)

-- The postings of a term behind the elements that are for it.
abbrev pub added : ℕ → ℕ → List Element → List Posting → List Posting
added fid t [] ps = ps
added fid t (e ∷ es) ps = added fid t es (if t == e.term then add fid e.occ ps else ps)

add-HasRoom :
    (fid n : ℕ) (occ : Occ) (ps : List Posting)
    → HasRoom fid n ps
    → HasRoom fid (n + 6) (add fid occ ps)
add-HasRoom fid n occ ps r = record {
  nonempty = All-add fid occ ps r.nonempty;
  below = last_fid-add fid 0 occ ps r.below;
  size = omega (arith, r.size, length-cached-add fid occ ps);
}

HasRoom-mono :
    (fid gid n m : ℕ) (ps : List Posting) → fid ≤ gid → n ≤ m → HasRoom fid n ps → HasRoom gid m ps
HasRoom-mono fid gid n m ps h k r = record {
  nonempty = r.nonempty;
  below = omega (arith, r.below, h);
  size = omega (arith, r.size, k);
}

pub Holds-mono :
    (fid gid n m : ℕ) (c : IndexCache) (lists : ℕ → List Posting)
    → fid ≤ gid
    → n ≤ m
    → Holds fid n c lists
    → Holds gid m c lists
Holds-mono fid gid n m c lists h k held = record {
  arrays = held.arrays;
  rooms = λ t. HasRoom-mono fid gid n m (lists t) h k (held.rooms t);
}

-- After `Reset` there are none.
pub reset-Holds : (c : IndexCache) → Holds 0 0 (reset c) (λ t. [])
unfolding reset find
reset-Holds c = record {
  arrays = λ t. refl;
  rooms = λ t. record { nonempty = tt; below = omega arith; size = omega arith };
}

module _ (entry_bytes fid : ℕ) where
  update-Holds :
      (e : Element) (n : ℕ) (c : IndexCache) (lists : ℕ → List Posting)
      → Holds fid n c lists
      → n < 2 ^ 32
      → (c' : IndexCache) × (update entry_bytes e.term fid e.occ.lid e.occ.time e.occ.error c
          ≡ ok c')
        × Holds fid (n + 6) c' (λ t. if t == e.term then add fid e.occ (lists t) else lists t)
  update-Holds e n c lists h fits =
      let r = h.rooms e.term in
      let (c', run, at, others) =
        update-find entry_bytes e.term fid e.occ c (lists e.term) (h.arrays e.term) r.nonempty
          r.below (omega (arith, r.size, fits)) in
      (
        c',
        run,
        record {
          arrays = λ t. elim (Bool-cases (t == e.term)) [
            | inl same ↦ rw same (
                subst (λ u. find u c'.buffer ≡ cached (add fid e.occ (lists u)))
                  (sym (==→eq t e.term same)) at)
            | inr differ ↦ rw differ (others t (λ s. ground (arith, differ)) ∙ h.arrays t)
          ];
          rooms = λ t. elim (Bool-cases (t == e.term)) [
            | inl same ↦ rw same (add-HasRoom fid n e.occ (lists t) (h.rooms t))
            | inr differ ↦
                rw differ
                  (HasRoom-mono fid fid n (n + 6) (lists t) (omega arith) (omega arith) (h.rooms t))
          ];
        },
      )

  update_all-Holds :
      (es : List Element) (n : ℕ) (c : IndexCache) (lists : ℕ → List Posting)
      → Holds fid n c lists
      → n + 6 * length es < 2 ^ 32
      → (c' : IndexCache) × (update_all entry_bytes fid es c ≡ ok c')
        × Holds fid (n + 6 * length es) c' (λ t. added fid t es (lists t))
  update_all-Holds [] n c lists h fits =
      (c, refl, Holds-mono fid fid n (n + 6 * 0) c lists (omega arith) (omega arith) h)
  update_all-Holds (e ∷ es) n c lists h fits =
      let (c1, run1, h1) = update-Holds e n c lists h (omega (arith, fits)) in
      let (c2, run2, h2) = update_all-Holds es (n + 6) c1 _ h1 (omega (arith, fits)) in
      (
        c2,
        rw (run1, run2) refl,
        Holds-mono fid fid (n + 6 + 6 * length es) (n + 6 * suc (length es)) c2 _ (omega arith)
            (omega arith) h2,
      )

module _ {F : Type 0} (o : FloatOps F) where
  length-word_elements : (i : ℕ) (lfs : List Qlf) → length (word_elements o i lfs) ≡ length lfs
  length-word_elements i [] = refl
  length-word_elements i (q ∷ lfs) = ap suc (length-word_elements (i + 1) lfs)

  length-map-take :
      (n i : ℕ) (pivot : Qlf) (lfs : List Qlf)
      → length (map (pair_element o i pivot) (take n lfs)) ≤ n
  length-map-take zero i pivot lfs = omega arith
  length-map-take (suc n) i pivot [] = omega arith
  length-map-take (suc n) i pivot (q ∷ lfs) = omega (arith, length-map-take n i pivot lfs)

  length-pair_elements : (i : ℕ) (lfs : List Qlf) → length (pair_elements o i lfs) ≤ 10 * length lfs
  length-pair_elements i [] = omega arith
  length-pair_elements i (q ∷ lfs) = omega (
    arith,
    length-append (paired o d_max i q lfs) (pair_elements o (i + 1) lfs),
    length-map-take d_max i q (in_band o q (near o q lfs)),
    length-pair_elements (i + 1) lfs,
  )

  length-elements :
      (type : MatchType) (lfs : List Qlf) → length (elements o type lfs) ≤ 10 * length lfs
  length-elements MatchType.mscale_match lfs = omega (arith, length-word_elements 0 lfs)
  length-elements MatchType.xscale_match lfs = length-pair_elements 0 lfs
  length-elements MatchType.other_match lfs = omega arith

  pub index_terms-Holds :
      (entry_bytes : ℕ) (type : MatchType) (fid gid n : ℕ) (lfs : List Qlf) (c : IndexCache)
      → (lists : ℕ → List Posting) → Holds gid n c lists
      → gid ≤ fid
      → n + 60 * length lfs < 2 ^ 32
      → (c' : IndexCache) × (index_terms o entry_bytes type fid lfs c ≡ ok c')
        × Holds fid (n + 60 * length lfs) c' (λ t. added fid t (elements o type lfs) (lists t))
  index_terms-Holds entry_bytes type fid gid n lfs c lists h le fits =
      let es = elements o type lfs in
      let few = length-elements type lfs in
      let (c', run, h') =
        update_all-Holds entry_bytes fid es n c lists
          (Holds-mono gid fid n n c lists le (omega arith) h) (omega (arith, few, fits)) in
      (
        c',
        index_terms-update_all o entry_bytes fid type lfs c ∙ run,
        Holds-mono fid fid (n + 6 * length es) (n + 60 * length lfs) c' _ (omega arith)
            (omega (arith, few)) h',
      )
