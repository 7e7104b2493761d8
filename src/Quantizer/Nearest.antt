-- ===== src/Quantizer/Nearest.antt =====
-- The codeword that quantize chooses (src/quant/Codebook.cpp).
use audioneex.Prelude.{
  ℕ, ◌+◌, ◌-◌, ◌≤◌, ◌<◌, ◌≡◌, refl, sym, ◌∙◌, List, [], ◌∷◌, ◌++◌, true, false, ◌==◌, ltb, min,
  if◌then◌else◌, length, arith, Bool-cases, ◌⊎◌, inl, inr, All, append_assoc, append-nil, le→leb,
  ==-refl, ==-refl,
}
use mathlib.Core.Path.{subst}
use audioneex.Results.{rank}
use audioneex.Quantizer.{
  Cluster, Ties, compare_cluster, compare_clusters, dh, idi, max_id, quantize, word_of,
}

-- The identifiers of the clusters at a distance.
abbrev pub at_distance : ℕ → List ℕ → List Cluster → List ℕ
at_distance n d [] = []
at_distance n d (c ∷ cs) =
    if dh d c.centroid == n then c.id ∷ at_distance n d cs else at_distance n d cs

-- An element of a list.
abbrev pub Among : ℕ → List ℕ → Type 0
Among x [] = ⊥
Among x (y ∷ ys) = (x ≡ y) ⊎ Among x ys

max_id-le : (best : ℕ) (xs : List ℕ) → rank best ≤ rank (max_id best xs)
unfolding max_id
max_id-le best [] = omega arith
max_id-le best (x ∷ xs) = elim (Bool-cases (ltb (rank best) (rank x))) [
  | inl e ↦ rw e (ground (arith, max_id-le x xs))
  | inr e ↦ rw e (max_id-le best xs)
]

max_id-above :
    (best x : ℕ) (xs : List ℕ)
    → ltb (rank best) (rank x) ≡ true
    → max_id x xs ≡ max_id best (x ∷ xs)
unfolding max_id
max_id-above best x xs e = rw e refl

max_id-not_above :
    (best x : ℕ) (xs : List ℕ)
    → ltb (rank best) (rank x) ≡ false
    → max_id best xs ≡ max_id best (x ∷ xs)
unfolding max_id
max_id-not_above best x xs e = rw e refl

max_id-All : (best : ℕ) (xs : List ℕ) → All (λ x. rank x ≤ rank (max_id best xs)) xs
max_id-All best [] = tt
max_id-All best (x ∷ xs) =
    let P : ℕ → Type 0 = λ v. (rank x ≤ rank v) × All (λ y. rank y ≤ rank v) xs in
    elim (Bool-cases (ltb (rank best) (rank x))) [
      | inl e ↦ subst P (max_id-above best x xs e) (max_id-le x xs, max_id-All x xs)
      | inr e ↦
          subst P (max_id-not_above best x xs e)
            (ground (arith, max_id-le best xs), max_id-All best xs)
    ]

max_id-Among : (best : ℕ) (xs : List ℕ) → (max_id best xs ≡ best) ⊎ Among (max_id best xs) xs
unfolding max_id
max_id-Among best [] = inl refl
max_id-Among best (x ∷ xs) =
    let P : ℕ → Type 0 = λ v. (v ≡ best) ⊎ ((v ≡ x) ⊎ Among v xs) in
    elim (Bool-cases (ltb (rank best) (rank x))) [
      | inl e ↦ subst P (max_id-above best x xs e) (inr (max_id-Among x xs))
      | inr e ↦
          subst P (max_id-not_above best x xs e)
            (elim (max_id-Among best xs) [ inl p ↦ inl p | inr p ↦ inr (inr p) ])
    ]

-- The list of ties after a cluster whose similarity is above, at and below the largest one.
module _ (best sim m dist : ℕ) (id : ℕ) (tl rest out : List ℕ) (sum : dist + sim ≡ 720)
    (m_fits : m ≤ 720) where
  abbrev Held : Type 0
  Held = out ≡ (if best == m then tl else []) ++ (if dist == 720 - m then id ∷ rest else rest)

  held_above : best < sim → sim ≤ m → out ≡ (if sim == m then id ∷ [] else []) ++ rest → Held
  held_above h k e = ground (arith, e)

  held_below : sim < best → best ≤ m → out ≡ (if best == m then tl else []) ++ rest → Held
  held_below h k e = ground (arith, e)

  held_same :
      sim ≡ best → best ≤ m → out ≡ (if best == m then tl ++ (id ∷ []) else []) ++ rest → Held
  held_same h k e = elim (Bool-cases (best == m)) [
    | inl e' ↦ ground (arith, e, append_assoc tl (id ∷ []) rest)
    | inr e' ↦ ground (arith, e)
  ]

module _ (d : List ℕ) where
  -- The loop, with the distance of the best ones so far.
  record Best (cs : List Cluster) (st st' : Ties) : Type 0 where
    fits : st'.max_sim ≤ idi
    grows : st.max_sim ≤ st'.max_sim
    above : All (λ c. idi - st'.max_sim ≤ dh d c.centroid) cs
    held :
        st'.tlist
        ≡ (if st.max_sim == st'.max_sim then st.tlist else [])
          ++ at_distance (idi - st'.max_sim) d cs
    attained : (st.max_sim ≡ st'.max_sim) ⊎ (0 < length (at_distance (idi - st'.max_sim) d cs))

  Best-above :
      (c : Cluster) (cs : List Cluster) (st st' : Ties)
      → dh d c.centroid ≤ idi
      → st.max_sim < idi - dh d c.centroid
      → Best cs (record { max_sim = idi - dh d c.centroid; tlist = c.id ∷ [] }) st'
      → Best (c ∷ cs) st st'
  Best-above c cs st st' k r b = record {
    fits = b.fits;
    grows = omega (arith, b.grows, r);
    above = (omega (arith, b.grows, b.fits, r, k), b.above);
    held =
        held_above st.max_sim (idi - dh d c.centroid) st'.max_sim (dh d c.centroid) c.id st.tlist
          (at_distance (idi - st'.max_sim) d cs) st'.tlist (omega (arith, k)) b.fits r b.grows
          b.held;
    attained = ground (arith, b.attained, b.fits, k);
  }

  Best-same :
      (c : Cluster) (cs : List Cluster) (st st' : Ties)
      → dh d c.centroid ≤ idi
      → idi - dh d c.centroid ≡ st.max_sim
      → Best cs (record st { tlist = st.tlist ++ (c.id ∷ []) }) st'
      → Best (c ∷ cs) st st'
  Best-same c cs st st' k r b = record {
    fits = b.fits;
    grows = omega (arith, b.grows, r);
    above = (omega (arith, b.grows, b.fits, r, k), b.above);
    held =
        held_same st.max_sim (idi - dh d c.centroid) st'.max_sim (dh d c.centroid) c.id st.tlist
          (at_distance (idi - st'.max_sim) d cs) st'.tlist (omega (arith, k)) b.fits r b.grows
          b.held;
    attained = ground (arith, b.attained, b.fits, k);
  }

  Best-below :
      (c : Cluster) (cs : List Cluster) (st st' : Ties)
      → dh d c.centroid ≤ idi
      → idi - dh d c.centroid < st.max_sim
      → Best cs (st) st'
      → Best (c ∷ cs) st st'
  Best-below c cs st st' k r b = record {
    fits = b.fits;
    grows = omega (arith, b.grows, r);
    above = (omega (arith, b.grows, b.fits, r, k), b.above);
    held =
        held_below st.max_sim (idi - dh d c.centroid) st'.max_sim (dh d c.centroid) c.id st.tlist
          (at_distance (idi - st'.max_sim) d cs) st'.tlist (omega (arith, k)) b.fits r b.grows
          b.held;
    attained = ground (arith, b.attained, b.fits, k);
  }

  compare_clusters-Best :
      (cs : List Cluster) (st : Ties)
      → st.max_sim ≤ idi
      → All (λ c. dh d c.centroid ≤ idi) cs
      → Best cs st (compare_clusters d cs st)
  unfolding compare_clusters
  compare_clusters-Best [] st h k = record {
    fits = h;
    grows = omega arith;
    above = tt;
    held = rw (==-refl st.max_sim) (sym (append-nil st.tlist));
    attained = inl refl;
  }
  compare_clusters-Best (c ∷ cs) st h k =
      let sim = idi - dh d c.centroid in
      let P : Ties → Type 0 = λ st1. Best (c ∷ cs) st (compare_clusters d cs st1) in
      elim (Bool-cases (ltb st.max_sim sim)) [
        | inl e ↦
            let st1 : Ties = record { max_sim = sim; tlist = c.id ∷ [] } in
            subst P (sym (rw (le→leb (dh d c.centroid) idi k.0, e, compare_cluster) refl)) (
              Best-above c cs st (compare_clusters d cs st1) k.0 (ground arith)
                (compare_clusters-Best cs st1 (omega arith) k.1))
        | inr e ↦ elim (Bool-cases (sim == st.max_sim)) [
          | inl e' ↦
              let st1 : Ties = record st { tlist = st.tlist ++ (c.id ∷ []) } in
              subst P (sym (rw (le→leb (dh d c.centroid) idi k.0, e, e', compare_cluster) refl)) (
                Best-same c cs st (compare_clusters d cs st1) k.0 (ground arith)
                  (compare_clusters-Best cs st1 h k.1))
          | inr e' ↦
              subst P (sym (rw (le→leb (dh d c.centroid) idi k.0, e, e', compare_cluster) refl)) (
                Best-below c cs st (compare_clusters d cs st) k.0 (ground arith)
                  (compare_clusters-Best cs st h k.1))
        ]
      ]

word_of-max :
    (xs : List ℕ) → 0 < length xs → Among (word_of xs) xs × All (λ x. rank x ≤ rank (word_of xs)) xs
unfolding word_of
word_of-max [] h = absurd (omega arith)
word_of-max (x ∷ xs) h = (max_id-Among x xs, (max_id-le x xs, max_id-All x xs))

no_ties : (m : ℕ) (xs : List ℕ) → (if 0 == m then [] else []) ++ xs ≡ xs
no_ties m xs = elim (Bool-cases (0 == m)) [ inl e ↦ rw e refl | inr e ↦ rw e refl ]

-- All clusters are as far away as can be.
at_distance-pos :
    (d : List ℕ) (clusters : List Cluster)
    → 0 < length clusters
    → All (λ c. dh d c.centroid ≤ idi) clusters
    → All (λ c. idi ≤ dh d c.centroid) clusters
    → 0 < length (at_distance idi d clusters)
at_distance-pos d [] h k l = absurd (omega arith)
at_distance-pos d (c ∷ cs) h k l = ground (arith, k.0, l.0)

-- The word of a descriptor is a cluster of the least distance from it, and among those of that distance
-- the one with the largest identifier; the distance is given as 255 where it is larger. There is a
-- cluster, and no distance is above the size of a descriptor.
pub quantize-nearest :
    (clusters : List Cluster) (d : List ℕ)
    → 0 < length clusters
    → All (λ c. dh d c.centroid ≤ idi) clusters
    → (n : ℕ) × All (λ c. n ≤ dh d c.centroid) clusters
      × Among (quantize clusters d).0 (at_distance n d clusters)
      × All (λ id. rank id ≤ rank (quantize clusters d).0) (at_distance n d clusters)
      × ((quantize clusters d).1 ≡ min n 255)
unfolding quantize
quantize-nearest clusters d h k =
    let st0 : Ties = record { max_sim = 0; tlist = [] } in
    let st = compare_clusters d clusters st0 in
    let b = compare_clusters-Best d clusters st0 (omega arith) k in
    let n = idi - st.max_sim in
    let held : st.tlist ≡ at_distance n d clusters =
      b.held ∙ no_ties st.max_sim (at_distance n d clusters) in
    let pos : 0 < length (at_distance n d clusters) = elim b.attained [
      | inl e ↦
          subst (λ (m : ℕ). 0 < length (at_distance (idi - m) d clusters)) e
            (at_distance-pos d clusters h k
              (subst (λ (m : ℕ). All (λ c. idi - m ≤ dh d c.centroid) clusters) (sym e) b.above))
      | inr p ↦ p
    ] in
    let top = word_of-max (at_distance n d clusters) pos in
    (
      n,
      b.above,
      subst (λ xs. Among (word_of xs) (at_distance n d clusters)) (sym held) top.0,
      subst (λ xs. All (λ id. rank id ≤ rank (word_of xs)) (at_distance n d clusters)) (sym held)
          top.1,
      ground arith,
    )
