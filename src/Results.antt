-- ===== src/Results.antt =====
-- MatchResults_t (src/ident/Matcher.h), and the maps of scores that the matcher ranks candidates in.
pub mod TopList
pub mod Best
use audioneex.Prelude.{
  ℕ, zero, suc, ◌+◌, ◌-◌, ◌%◌, ◌^◌, List, [], ◌∷◌, ◌++◌, Bool, true, false, ◌==◌, ltb,
  if◌then◌else◌, Option, none, some, length,
}

-- `a < b` on ints, which are their 32-bit patterns: `rank` maps them to numbers in their order.
unfoldable pub rank : ℕ → ℕ
rank a = (a + 2 ^ 31) % 2 ^ 32

-- std::map<int, std::list<T>, std::greater<int>>: from the largest score down, the tie list of each.
abbrev pub Ranking : Type 0 → Type 0
Ranking A = List (ℕ × List A)

-- `f(map[score])`: the entry is made, with an empty tie list, where it is missing.
unfoldable pub update_ties : {A : Type 0} → (List A → List A) → ℕ → Ranking A → Ranking A
unfolding rank
update_ties f score [] = (score, f []) ∷ []
update_ties f score ((k, qs) ∷ top) =
    if ltb (rank k) (rank score)
    then (score, f []) ∷ (k, qs) ∷ top
    else if k == score
    then (k, f qs) ∷ top
    else (k, qs) ∷ update_ties f score top

-- `erase(--end())`
unfoldable pub erase_last {ℓ} : {A : Type ℓ} → List A → List A
erase_last [] = []
erase_last (x ∷ []) = []
erase_last (x ∷ y ∷ xs) = x ∷ erase_last (y ∷ xs)

-- Pms::TopK
abbrev pub max_top : ℕ
max_top = 20

-- The last entry goes where there are more than `max_top`.
unfoldable pub prune : {A : Type 0} → Ranking A → Ranking A
unfolding erase_last
prune top = if ltb max_top (length top) then erase_last top else top

-- Ac_t. Scores are 32-bit patterns.
pub record Accumulator : Type 0 where
  pub score : ℕ
  pub t_match : ℕ

-- `qc` is a hash map, whose order is unspecified.
pub record MatchResults : Type 0 where
  pub qc : List (ℕ × Accumulator)
  pub top_k : Ranking ℕ
  pub reranked : Bool

abbrev pub no_results : MatchResults
no_results = record { qc = []; top_k = []; reranked = false }

-- The k-th entry, counted from 1.
unfoldable pub nth_entry : {A : Type 0} → ℕ → Ranking A → Option (ℕ × List A)
nth_entry k [] = none
nth_entry zero (x ∷ xs) = some x
nth_entry (suc zero) (x ∷ xs) = some x
nth_entry (suc (suc k)) (x ∷ xs) = nth_entry (suc k) xs

-- GetTop and GetTopScore.
unfoldable pub get_top : ℕ → MatchResults → List ℕ
unfolding nth_entry
get_top k r = elim (nth_entry k r.top_k) [ none ↦ [] | some x ↦ x.1 ]

unfoldable pub get_top_score : ℕ → MatchResults → ℕ
unfolding nth_entry
get_top_score k r = elim (nth_entry k r.top_k) [ none ↦ 0 | some x ↦ x.0 ]

unfoldable pub find_candidate : ℕ → List (ℕ × Accumulator) → Option Accumulator
find_candidate qi [] = none
find_candidate qi ((q, a) ∷ qc) = if q == qi then some a else find_candidate qi qc

-- GetCuePoint, whose result where there is no candidate is -1.
unfoldable pub get_cue_point : ℕ → MatchResults → ℕ
unfolding find_candidate
get_cue_point qi r = elim (find_candidate qi r.qc) [ none ↦ 2 ^ 32 - 1 | some a ↦ a.t_match ]

-- `f(Qc[qi])`: a candidate is made where it is missing.
unfoldable pub update_candidate :
    (Accumulator → Accumulator) → ℕ → List (ℕ × Accumulator) → List (ℕ × Accumulator)
update_candidate f qi [] = (qi, f (record { score = 0; t_match = 0 })) ∷ []
update_candidate f qi ((q, a) ∷ qc) =
    if q == qi then (q, f a) ∷ qc else (q, a) ∷ update_candidate f qi qc

-- The loop of DoMatch that makes the list of the best candidates.
unfoldable pub top_of : List (ℕ × Accumulator) → Ranking ℕ → Ranking ℕ
unfolding update_ties prune
top_of [] top = top
top_of ((qi, a) ∷ qc) top = top_of qc (prune (update_ties (λ qs. qs ++ (qi ∷ [])) a.score top))
