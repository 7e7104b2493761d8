-- ===== src/Memory.antt =====
-- Reads and writes of arrays, which are undefined out of bounds.
use audioneex.Prelude.{
  ℕ, zero, suc, ◌+◌, ◌≡◌, ap, ◌∙◌, List, [], ◌∷◌, ◌++◌, arith, none, some, Outcome, ok, fault,
  length, set?, get_elem?,
}

-- `*(p + i)` and `a[i] = v`.
unfoldable pub load : List ℕ → ℕ → Outcome ℕ
load p i = elim (get_elem? p i) [ none ↦ fault | some v ↦ ok v ]

unfoldable pub store : List ℕ → ℕ → ℕ → Outcome (List ℕ)
store a i v = elim (set? a i v) [ none ↦ fault | some b ↦ ok b ]

pub get_elem?-append {ℓ} :
    {A : Type ℓ} (pre ys : List A) (k m : ℕ)
    → k ≡ length pre + m
    → get_elem? (pre ++ ys) k ≡ get_elem? ys m
get_elem?-append [] ys k m e = ap (get_elem? ys) {x = k} {y = m} (omega arith)
get_elem?-append (x ∷ pre) ys zero m e = absurd (omega arith)
get_elem?-append (x ∷ pre) ys (suc k) m e = get_elem?-append pre ys k m (omega arith)

-- A read behind `pre`.
pub load-append :
    (pre ys : List ℕ) (k m v : ℕ)
    → k ≡ length pre + m
    → get_elem? ys m ≡ some v
    → load (pre ++ ys) k ≡ ok v
unfolding load
load-append pre ys k m v e h = rw (get_elem?-append pre ys k m e ∙ h, load)

pub set?-behind :
    (pre ys : List ℕ) (k m v : ℕ) (zs : List ℕ)
    → k ≡ length pre + m
    → set? ys m v ≡ some zs
    → set? (pre ++ ys) k v ≡ some (pre ++ zs)
set?-behind [] ys k m v zs e h = ap (λ i. set? ys i v) {x = k} {y = m} (omega arith) ∙ h
set?-behind (x ∷ pre) ys zero m v zs e h = absurd (omega arith)
set?-behind (x ∷ pre) ys (suc k) m v zs e h = rw (set?-behind pre ys k m v zs (omega arith) h)

pub store-ok : (a : List ℕ) (i v : ℕ) {b : List ℕ} → set? a i v ≡ some b → store a i v ≡ ok b
unfolding store
store-ok a i v h = rw (h, store)
