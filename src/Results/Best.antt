-- ===== src/Results/Best.antt =====
-- GetTop and GetTopScore (src/ident/Matcher.h) on the list that DoMatch makes: the best candidates.
use audioneex.Prelude.{
  ℕ, ◌≤◌, ◌<◌, ◌≡◌, refl, sym, ap, List, [], ◌∷◌, ◌++◌, Bool, ◌==◌, ltb, if◌then◌else◌, length,
  take, arith, Bool-cases, inl, inr, All, append_assoc, ==-refl, ==-ne, IsU32, append-nil,
}
use mathlib.Core.Path.{subst}
use audioneex.Results.{
  Ranking, rank, update_ties, Accumulator, top_of, MatchResults, get_top, get_top_score, nth_entry,
}
use audioneex.Results.TopList.{ranking_of, top_of-take}

rank-injective : (a b : ℕ) → IsU32 a → IsU32 b → rank a ≡ rank b → a ≡ b
unfolding rank
rank-injective a b h k e = omega arith

-- The tie list of a score.
abbrev pub ties : {A : Type 0} → ℕ → Ranking A → List A
ties s [] = []
ties s ((k, qs) ∷ top) = if k == s then qs else ties s top

-- The largest score comes first.
abbrev pub Descending : {A : Type 0} → Ranking A → Type 0
Descending [] = Unit {0}
Descending ((k, qs) ∷ top) = All (λ (x : ℕ × _). rank x.0 < rank k) top × (IsU32 k × Descending top)

ties-absent :
    {A : Type 0} (s : ℕ) (top : Ranking A)
    → All (λ (x : ℕ × List A). rank x.0 < rank s) top
    → ties s top ≡ []
ties-absent s [] h = refl
ties-absent s ((k, qs) ∷ top) h =
    rw (==-ne k s (λ e. absurd (omega (arith, ap rank e, h.0)))) (ties-absent s top h.1)

All-weaken :
    {A : Type 0} (a b : ℕ) (top : Ranking A)
    → rank a < rank b
    → All (λ (x : ℕ × List A). rank x.0 < rank a) top
    → All (λ (x : ℕ × List A). rank x.0 < rank b) top
All-weaken a b [] h k = tt
All-weaken a b (x ∷ top) h k = (omega (arith, h, k.0), All-weaken a b top h k.1)

module _ {A : Type 0} (f : List A → List A) (t : ℕ) (t_fits : IsU32 t) where
  All-update_ties :
      (b : ℕ) (top : Ranking A)
      → rank t < rank b
      → All (λ (x : ℕ × List A). rank x.0 < rank b) top
      → All (λ (x : ℕ × List A). rank x.0 < rank b) (update_ties f t top)
  unfolding update_ties
  All-update_ties b [] h k = (h, tt)
  All-update_ties b ((s, qs) ∷ top) h k = elim (Bool-cases (ltb (rank s) (rank t))) [
    | inl e ↦ rw e (h, k)
    | inr e ↦ elim (Bool-cases (s == t)) [
      | inl e' ↦ rw (e, e') k
      | inr e' ↦ rw (e, e') (k.0, All-update_ties b top h k.1)
    ]
  ]

  update_ties-Descending : (top : Ranking A) → Descending top → Descending (update_ties f t top)
  unfolding update_ties
  update_ties-Descending [] h = (tt, (t_fits, tt))
  update_ties-Descending ((s, qs) ∷ top) h = elim (Bool-cases (ltb (rank s) (rank t))) [
    | inl e ↦ rw e ((ground arith, All-weaken s t top (ground arith) h.0), (t_fits, h))
    | inr e ↦ elim (Bool-cases (s == t)) [
      | inl e' ↦ rw (e, e') h
      | inr e' ↦
          let below : rank t < rank s = ground (arith, rank-injective s t h.1.0 t_fits) in
          rw (e, e') (All-update_ties s top below h.0, (h.1.0, update_ties-Descending top h.1.1))
    ]
  ]

  -- Updating the tie list of a score leaves those of the others alone.
  ties-update_ties :
      (s : ℕ) (top : Ranking A)
      → Descending top
      → ties s (update_ties f t top) ≡ (if t == s then f (ties s top) else ties s top)
  unfolding update_ties
  ties-update_ties s [] h = refl
  ties-update_ties s ((k, qs) ∷ top) h = elim (Bool-cases (ltb (rank k) (rank t))) [
    | inl e ↦ elim (Bool-cases (t == s)) [
      | inl e' ↦
          let same : t ≡ s = ground arith in
          rw (e, e')
            (ap f (
              sym (
                ties-absent s ((k, qs) ∷ top) (
                  ground (arith, ap rank same),
                  All-weaken k s top (ground (arith, ap rank same)) h.0,
                ))))
      | inr e' ↦ rw (e, e') refl
    ]
    | inr e ↦ elim (Bool-cases (k == t)) [
      | inl e' ↦ ground arith
      | inr e' ↦ rw (e, e') (ground (arith, ties-update_ties s top h.1.1))
    ]
  ]

-- The candidates with a score.
abbrev pub tied : ℕ → List (ℕ × Accumulator) → List ℕ
tied s [] = []
tied s ((q, a) ∷ qc) = if a.score == s then q ∷ tied s qc else tied s qc

ranking_of-Descending :
    (qc : List (ℕ × Accumulator)) (top : Ranking ℕ)
    → All (λ x. IsU32 x.1.score) qc
    → Descending top
    → Descending (ranking_of qc top)
ranking_of-Descending [] top u h = h
ranking_of-Descending ((q, a) ∷ qc) top u h =
    ranking_of-Descending qc _ u.1 (update_ties-Descending _ a.score u.0 top h)

ties-ranking_of :
    (s : ℕ) (qc : List (ℕ × Accumulator)) (top : Ranking ℕ)
    → All (λ x. IsU32 x.1.score) qc
    → Descending top
    → ties s (ranking_of qc top) ≡ ties s top ++ tied s qc
ties-ranking_of s [] top u h = simp (append-nil)
ties-ranking_of s ((q, a) ∷ qc) top u h =
    let add : List ℕ → List ℕ = λ qs. qs ++ (q ∷ []) in
    rw (ties-ranking_of s qc _ u.1 (update_ties-Descending add a.score u.0 top h)) (
      rw (ties-update_ties add a.score u.0 s top h) (elim (Bool-cases (a.score == s)) [
        | inl e ↦ rw e (append_assoc (ties s top) (q ∷ []) (tied s qc))
        | inr e ↦ rw e refl
      ]))

-- The largest score of a ranking, and a bound on all that went into it.
abbrev head_rank : Ranking ℕ → ℕ
head_rank [] = 0
head_rank ((k, qs) ∷ top) = rank k

head_rank-update_ties :
    (f : List ℕ → List ℕ) (t : ℕ) (top : Ranking ℕ)
    → (head_rank top ≤ head_rank (update_ties f t top)) × (rank t ≤ head_rank (update_ties f t top))
unfolding update_ties
head_rank-update_ties f t [] = (omega arith, omega arith)
head_rank-update_ties f t ((k, qs) ∷ top) = ground arith

update_ties_pos :
    (f : List ℕ → List ℕ) (t : ℕ) (top : Ranking ℕ)
    → (0 < length (update_ties f t top)) × (length top ≤ length (update_ties f t top))
unfolding update_ties
update_ties_pos f t [] = (omega arith, omega arith)
update_ties_pos f t ((k, qs) ∷ top) = ground (arith, update_ties_pos f t top)

All-le_trans :
    (m n : ℕ) (qc : List (ℕ × Accumulator))
    → m ≤ n
    → All (λ x. rank x.1.score ≤ m) qc
    → All (λ x. rank x.1.score ≤ n) qc
All-le_trans m n [] h k = tt
All-le_trans m n (x ∷ qc) h k = (omega (arith, h, k.0), All-le_trans m n qc h k.1)

head_rank-ranking_of :
    (qc : List (ℕ × Accumulator)) (top : Ranking ℕ)
    → (head_rank top ≤ head_rank (ranking_of qc top))
      × All (λ x. rank x.1.score ≤ head_rank (ranking_of qc top)) qc
head_rank-ranking_of [] top = (omega arith, tt)
head_rank-ranking_of ((q, a) ∷ qc) top =
    let step = head_rank-update_ties (λ qs. qs ++ (q ∷ [])) a.score top in
    let rest = head_rank-ranking_of qc (update_ties (λ qs. qs ++ (q ∷ [])) a.score top) in
    (omega (arith, step, rest.0), (omega (arith, step, rest.0), rest.1))

length-ranking_of :
    (qc : List (ℕ × Accumulator)) (top : Ranking ℕ) → length top ≤ length (ranking_of qc top)
length-ranking_of [] top = omega arith
length-ranking_of ((q, a) ∷ qc) top =
    let f : List ℕ → List ℕ = λ qs. qs ++ (q ∷ []) in
    omega (arith, update_ties_pos f a.score top, length-ranking_of qc (update_ties f a.score top))

abbrev head_score : Ranking ℕ → ℕ
head_score [] = 0
head_score ((k, qs) ∷ top) = k

abbrev head_ties : Ranking ℕ → List ℕ
head_ties [] = []
head_ties ((k, qs) ∷ top) = qs

-- What the first entry of the ranking says of the candidates.
head-best :
    (qc : List (ℕ × Accumulator)) (whole : Ranking ℕ)
    → ranking_of qc [] ≡ whole
    → All (λ x. IsU32 x.1.score) qc
    → All (λ x. rank x.1.score ≤ rank (head_score whole)) qc
      × (head_ties whole ≡ tied (head_score whole) qc)
head-best [] [] e u = (tt, refl)
head-best [] (x ∷ whole) e u = cc
head-best ((q, a) ∷ qc) [] e u =
    let f : List ℕ → List ℕ = λ qs. qs ++ (q ∷ []) in
    absurd (
      omega (
        arith,
        update_ties_pos f a.score [],
        length-ranking_of qc (update_ties f a.score []),
        ap length e,
      ))
head-best ((q, a) ∷ qc) ((k, qs) ∷ whole) e u =
    let held : ties k ((k, qs) ∷ whole) ≡ tied k ((q, a) ∷ qc) =
      subst (λ w. ties k w ≡ tied k ((q, a) ∷ qc)) e (ties-ranking_of k ((q, a) ∷ qc) [] u tt) in
    (
      subst (λ w. All (λ (x : ℕ × Accumulator). rank x.1.score ≤ head_rank w) ((q, a) ∷ qc)) e
          (head_rank-ranking_of ((q, a) ∷ qc) []).1,
      rw (==-refl k) at held,
    )

entry_1 :
    (w : Ranking ℕ) (r : MatchResults)
    → r.top_k ≡ take 20 w
    → (get_top_score 1 r ≡ head_score w) × (get_top 1 r ≡ head_ties w)
unfolding get_top get_top_score nth_entry
entry_1 [] r e = (rw e refl, rw e refl)
entry_1 ((k, qs) ∷ w) r e = (rw e refl, rw e refl)

-- On the list that DoMatch makes, no candidate has a score above GetTopScore(1), and GetTop(1) holds the
-- candidates that have it, in their order; scores are 32-bit patterns.
pub get_top-best :
    (qc : List (ℕ × Accumulator)) (reranked : Bool)
    → All (λ x. IsU32 x.1.score) qc
    → let r : MatchResults = record { qc = qc; top_k = top_of qc []; reranked = reranked } in
      All (λ x. rank x.1.score ≤ rank (get_top_score 1 r)) qc
      × (get_top 1 r ≡ tied (get_top_score 1 r) qc)
get_top-best qc reranked u =
    let r : MatchResults = record { qc = qc; top_k = top_of qc []; reranked = reranked } in
    let e = entry_1 (ranking_of qc []) r (top_of-take qc) in
    rw (e.0, e.1) (head-best qc (ranking_of qc []) refl u)
