-- ===== src/Indexer/Elements.antt =====
-- What IndexSTerms and IndexBTerms (src/index/Indexer.cpp) should put into the cache for a fingerprint:
-- the terms, each with its element, in their order.
use audioneex.Prelude.{
  ℕ, zero, suc, ◌+◌, ◌-◌, ◌≡◌, refl, sym, ◌∙◌, List, [], ◌∷◌, ◌++◌, ◌==◌, ltb, if◌then◌else◌,
  Outcome, ok, err, fault, stuck, ◌>>=◌, arith, Bool-cases, inl, inr, take, map, sub32, ltb→lt,
}
use audioneex.AudioBlock.{FloatOps}
use audioneex.Postings.{Occ}
use audioneex.Cache.{IndexCache, update}
use audioneex.Indexer.Fingerprints.{Qlf}
use audioneex.Indexer.Terms.{
  MatchType, index_s_terms, index_b_terms, index_pairs, index_terms, word_term, pair_term, band,
  quantized_step, d_max, t_max,
}

-- A term and an element for its list.
pub record Element : Type 0 where
  pub term : ℕ
  pub occ : Occ

-- The element of a local fingerprint, the `i`-th one.
abbrev pub occ_of : ℕ → Qlf → Occ
occ_of i q = record { lid = i; time = q.t; error = q.e }

-- The updates for some elements.
abbrev pub update_all : ℕ → ℕ → List Element → IndexCache → Outcome IndexCache
update_all entry_bytes fid [] c = ok c
update_all entry_bytes fid (e ∷ es) c =
    update entry_bytes e.term fid e.occ.lid e.occ.time e.occ.error c
    >>= update_all entry_bytes fid es

module _ {F : Type 0} (o : FloatOps F) where
  abbrev pub word_elements : ℕ → List Qlf → List Element
  word_elements i [] = []
  word_elements i (q ∷ lfs) =
      record { term = word_term o q; occ = occ_of i q } ∷ word_elements (i + 1) lfs

  -- Those before the first one that is more than Tmax away.
  abbrev pub near : Qlf → List Qlf → List Qlf
  near pivot [] = []
  near pivot (q ∷ lfs) = if ltb t_max (sub32 q.t pivot.t) then [] else q ∷ near pivot lfs

  -- Those in the band of the pivot.
  abbrev pub in_band : Qlf → List Qlf → List Qlf
  in_band pivot [] = []
  in_band pivot (q ∷ lfs) =
      if band o q == band o pivot then q ∷ in_band pivot lfs else in_band pivot lfs

  abbrev pub pair_element : ℕ → Qlf → Qlf → Element
  pair_element i pivot q = record {
    term =
        pair_term pivot.w (band o pivot) q.w (quantized_step o 5 pivot.t q.t)
          (quantized_step o 9 pivot.f q.f);
    occ = occ_of i pivot;
  }

  -- A pivot with the first `n` in its band that are near it.
  abbrev pub paired : ℕ → ℕ → Qlf → List Qlf → List Element
  paired n i pivot lfs = map (pair_element i pivot) (take n (in_band pivot (near pivot lfs)))

  abbrev pub pair_elements : ℕ → List Qlf → List Element
  pair_elements i [] = []
  pair_elements i (q ∷ lfs) = paired d_max i q lfs ++ pair_elements (i + 1) lfs

  abbrev pub elements : MatchType → List Qlf → List Element
  elements MatchType.mscale_match lfs = word_elements 0 lfs
  elements MatchType.xscale_match lfs = pair_elements 0 lfs
  elements MatchType.other_match lfs = []

pub bind_same :
    {A B : Type 0} (m : Outcome A) {f g : A → Outcome B}
    → ((a : A) → f a ≡ g a)
    → (m >>= f) ≡ (m >>= g)
bind_same (ok a) h = h a
bind_same (err e) h = refl
bind_same fault h = refl
bind_same stuck h = refl

bind_bind :
    {A B C : Type 0} (m : Outcome A) (f : A → Outcome B) (g : B → Outcome C)
    → (m >>= f >>= g) ≡ (m >>= λ a. f a >>= g)
bind_bind (ok a) f g = refl
bind_bind (err e) f g = refl
bind_bind fault f g = refl
bind_bind stuck f g = refl

take-nil : {A : Type 0} (n : ℕ) → take {A = A} n [] ≡ []
take-nil zero = refl
take-nil (suc n) = refl

module _ {F : Type 0} (o : FloatOps F) (entry_bytes fid : ℕ) where
  index_s_terms-update_all :
      (i : ℕ) (lfs : List Qlf) (c : IndexCache)
      → index_s_terms o entry_bytes fid i lfs c
        ≡ update_all entry_bytes fid (word_elements o i lfs) c
  unfolding index_s_terms
  index_s_terms-update_all i [] c = refl
  index_s_terms-update_all i (q ∷ lfs) c =
      bind_same (update entry_bytes (word_term o q) fid i q.t q.e c)
        (λ c'. index_s_terms-update_all (i + 1) lfs c')

  index_pairs-update_all :
      (i d : ℕ) (pivot : Qlf) (lfs : List Qlf) (c : IndexCache)
      → index_pairs o entry_bytes fid i pivot d lfs c
        ≡ update_all entry_bytes fid (paired o (d_max - d) i pivot lfs) c
  unfolding index_pairs
  index_pairs-update_all i d pivot [] c = rw (take-nil {A = Qlf} (d_max - d)) refl
  index_pairs-update_all i d pivot (q ∷ lfs) c = elim (Bool-cases (ltb d d_max)) [
    | inr full ↦ let none_left : d_max - d ≡ 0 = ground (arith, full) in rw (full, none_left) refl
    | inl more ↦ elim (Bool-cases (ltb t_max (sub32 q.t pivot.t))) [
      | inl far ↦ rw (more, far, take-nil {A = Qlf} (d_max - d)) refl
      | inr near ↦ elim (Bool-cases (band o q == band o pivot)) [
        | inl same ↦
            let left : d_max - d ≡ suc (d_max - (d + 1)) = omega (arith, ltb→lt d d_max more) in
            rw (more, near, same, left)
              (bind_same
                (update entry_bytes (pair_element o i pivot q).term fid i pivot.t pivot.e c)
                (λ c'. index_pairs-update_all i (d + 1) pivot lfs c'))
        | inr other ↦ rw (more, near, other) (index_pairs-update_all i d pivot lfs c)
      ]
    ]
  ]

  update_all-append :
      (es fs : List Element) (c : IndexCache)
      → update_all entry_bytes fid (es ++ fs) c
        ≡ (update_all entry_bytes fid es c >>= update_all entry_bytes fid fs)
  update_all-append [] fs c = refl
  update_all-append (e ∷ es) fs c =
      bind_same (update entry_bytes e.term fid e.occ.lid e.occ.time e.occ.error c)
        (λ c'. update_all-append es fs c')
      ∙ sym (
          bind_bind (update entry_bytes e.term fid e.occ.lid e.occ.time e.occ.error c)
            (update_all entry_bytes fid es) (update_all entry_bytes fid fs))

  index_b_terms-update_all :
      (i : ℕ) (lfs : List Qlf) (c : IndexCache)
      → index_b_terms o entry_bytes fid i lfs c
        ≡ update_all entry_bytes fid (pair_elements o i lfs) c
  unfolding index_b_terms
  index_b_terms-update_all i [] c = refl
  index_b_terms-update_all i (q ∷ lfs) c =
      rw (index_pairs-update_all i 0 q lfs c) (
        bind_same (update_all entry_bytes fid (paired o d_max i q lfs) c)
          (λ c'. index_b_terms-update_all (i + 1) lfs c'))
      ∙ sym (update_all-append (paired o d_max i q lfs) (pair_elements o (i + 1) lfs) c)

  pub index_terms-update_all :
      (type : MatchType) (lfs : List Qlf) (c : IndexCache)
      → index_terms o entry_bytes type fid lfs c
        ≡ update_all entry_bytes fid (elements o type lfs) c
  unfolding index_terms
  index_terms-update_all MatchType.mscale_match lfs c = index_s_terms-update_all 0 lfs c
  index_terms-update_all MatchType.xscale_match lfs c = index_b_terms-update_all 0 lfs c
  index_terms-update_all MatchType.other_match lfs c = refl
