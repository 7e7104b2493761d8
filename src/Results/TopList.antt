-- ===== src/Results/TopList.antt =====
-- The list of the best candidates that DoMatch makes (src/ident/Matcher.cpp): what cutting it off at
-- each step leaves, and the best score.
use audioneex.Prelude.{
  ℕ, zero, suc, ◌+◌, ◌≤◌, ◌≡◌, refl, sym, ap, List, [], ◌∷◌, ◌++◌, ◌==◌, ltb, length, take, arith,
  Bool-cases, inl, inr,
}
use audioneex.Results.{Ranking, rank, update_ties, erase_last, prune, max_top, Accumulator, top_of}

length-take-le : {A : Type 0} (n : ℕ) (xs : List A) → length (take n xs) ≤ n
length-take-le zero xs = omega arith
length-take-le (suc n) [] = omega arith
length-take-le (suc n) (x ∷ xs) = omega (arith, length-take-le n xs)

take-of_le : {A : Type 0} (n : ℕ) (xs : List A) → length xs ≤ n → take n xs ≡ xs
take-of_le zero [] h = refl
take-of_le zero (x ∷ xs) h = absurd (omega arith)
take-of_le (suc n) [] h = refl
take-of_le (suc n) (x ∷ xs) h = ap (λ ys. x ∷ ys) (take-of_le n xs (omega arith))

-- One element too many: the last one goes.
erase_last-take : {A : Type 0} (n : ℕ) (xs : List A) → length xs ≡ suc n → erase_last xs ≡ take n xs
unfolding erase_last
erase_last-take n [] h = absurd (omega arith)
erase_last-take zero (x ∷ []) h = refl
erase_last-take (suc n) (x ∷ []) h = absurd (omega arith)
erase_last-take zero (x ∷ y ∷ xs) h = absurd (omega arith)
erase_last-take (suc n) (x ∷ y ∷ xs) h =
    ap (λ ys. x ∷ ys) (erase_last-take n (y ∷ xs) (omega arith))

take-take : {A : Type 0} (m n : ℕ) (xs : List A) → m ≤ n → take m (take n xs) ≡ take m xs
take-take zero n xs h = refl
take-take (suc m) zero xs h = absurd (omega arith)
take-take (suc m) (suc n) [] h = refl
take-take (suc m) (suc n) (x ∷ xs) h = ap (λ ys. x ∷ ys) (take-take m n xs (omega arith))

take-cons : {A : Type 0} (n : ℕ) (x : A) (xs : List A) → take n (x ∷ take n xs) ≡ take n (x ∷ xs)
take-cons zero x xs = refl
take-cons (suc n) x xs = ap (λ ys. x ∷ ys) (take-take n (suc n) xs (omega arith))

module _ {A : Type 0} (f : List A → List A) (score : ℕ) where
  length-update_ties : (top : Ranking A) → length (update_ties f score top) ≤ length top + 1
  unfolding update_ties
  length-update_ties [] = omega arith
  length-update_ties ((k, qs) ∷ top) = ground (arith, length-update_ties top)

  -- Entries behind the n-th have no influence on the first n.
  take-update_ties :
      (n : ℕ) (top : Ranking A)
      → take n (update_ties f score (take n top)) ≡ take n (update_ties f score top)
  unfolding update_ties
  take-update_ties zero top = refl
  take-update_ties (suc n) [] = refl
  take-update_ties (suc n) ((k, qs) ∷ top) = elim (Bool-cases (ltb (rank k) (rank score))) [
    | inl e ↦ rw e (ap (λ ys. (score, f []) ∷ ys) (take-cons n (k, qs) top))
    | inr e ↦ elim (Bool-cases (k == score)) [
      | inl e' ↦ rw (e, e') (ap (λ ys. (k, f qs) ∷ ys) (take-take n n top (omega arith)))
      | inr e' ↦ rw (e, e') (ap (λ ys. (k, qs) ∷ ys) (take-update_ties n top))
    ]
  ]

prune-take : {A : Type 0} (top : Ranking A) → length top ≤ 21 → prune top ≡ take max_top top
unfolding prune
prune-take top h = elim (Bool-cases (ltb max_top (length top))) [
  | inl e ↦ rw e (erase_last-take 20 top (ground arith))
  | inr e ↦ rw e (sym (take-of_le 20 top (ground arith)))
]

-- A step on the list that is cut off is a step on the whole ranking, cut off after it.
pub prune-update_ties :
    {A : Type 0} (f : List A → List A) (score : ℕ) (top : Ranking A)
    → prune (update_ties f score (take max_top top)) ≡ take max_top (update_ties f score top)
prune-update_ties f score top =
    rw
      (prune-take (update_ties f score (take max_top top))
        (omega (arith, length-update_ties f score (take max_top top), length-take-le 20 top)))
      (take-update_ties f score 20 top)

-- The ranking of all candidates.
abbrev pub ranking_of : List (ℕ × Accumulator) → Ranking ℕ → Ranking ℕ
ranking_of [] top = top
ranking_of ((qi, a) ∷ qc) top = ranking_of qc (update_ties (λ qs. qs ++ (qi ∷ [])) a.score top)

top_of-ranking_of :
    (qc : List (ℕ × Accumulator)) (top : Ranking ℕ)
    → top_of qc (take max_top top) ≡ take max_top (ranking_of qc top)
unfolding top_of
top_of-ranking_of [] top = refl
top_of-ranking_of ((qi, a) ∷ qc) top =
    rw (prune-update_ties (λ qs. qs ++ (qi ∷ [])) a.score top)
      (top_of-ranking_of qc (update_ties (λ qs. qs ++ (qi ∷ [])) a.score top))

-- Making the list of the best candidates with the last entry erased whenever there are more than
-- twenty gives the first twenty entries of the ranking of all candidates.
pub top_of-take : (qc : List (ℕ × Accumulator)) → top_of qc [] ≡ take max_top (ranking_of qc [])
top_of-take qc = top_of-ranking_of qc []
