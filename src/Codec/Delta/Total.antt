-- ===== src/Codec/Delta/Total.antt =====
-- `delta_codec` of Codec/Delta.antt on any array, well formed or not.
use audioneex.Prelude.{
  ℕ, zero, suc, ◌+◌, ◌≤◌, ◌≡◌, ◌≢◌, refl, List, [], ◌∷◌, arith, Outcome, ok, err, fault, stuck,
  decode_failed, ◌>>=◌, >>=-ne-stuck, length, drop, add32, mul32, sub32,
}
use audioneex.Codec.Delta.{delta_run, delta_loop, delta_codec}

-- What a run promises: it reads inside the array, and what it passes and leaves is no longer.
Runs : ℕ → Outcome (List ℕ × List ℕ) → Type 0
Runs n (ok (run, left)) = length run + length left ≡ n
Runs n (err e) = e ≡ decode_failed
Runs n fault = ⊥
Runs n stuck = ⊥

Runs-cons :
    (n x : ℕ) (m : Outcome (List ℕ × List ℕ))
    → Runs n m
    → Runs (suc n) (m >>= λ p. ok (x ∷ p.0, p.1))
unfolding Runs
Runs-cons n x (ok p) r = omega arith
Runs-cons n x (err e) r = r
Runs-cons n x fault r = r
Runs-cons n x stuck r = r

delta_run-Runs : (t i : ℕ) (l : List ℕ) → Runs (length l) (delta_run t i l)
unfolding delta_run Runs
delta_run-Runs t zero [] = omega arith
delta_run-Runs t zero (x ∷ rest) = omega arith
delta_run-Runs t (suc i) [] = refl
delta_run-Runs t (suc i) (x ∷ []) = refl
delta_run-Runs t (suc i) (x ∷ y ∷ rest) =
    Runs-cons _ x (delta_run t i (add32 y (mul32 x t) ∷ rest)) (delta_run-Runs t i _)

Runs-ne-stuck : (n : ℕ) (m : Outcome (List ℕ × List ℕ)) → Runs n m → m ≢ stuck
unfolding Runs
Runs-ne-stuck n (ok p) r e = cc
Runs-ne-stuck n (err x) r e = cc
Runs-ne-stuck n fault r e = r
Runs-ne-stuck n stuck r e = r

Runs-left :
    (n : ℕ) (m : Outcome (List ℕ × List ℕ)) {run left : List ℕ}
    → Runs n m
    → m ≡ ok (run, left)
    → length left ≤ n
unfolding Runs
Runs-left n (ok p) r e = ground arith
Runs-left n (err x) r e = cc
Runs-left n fault r e = absurd r
Runs-left n stuck r e = absurd r

length-drop-le : (n : ℕ) (l : List ℕ) → length (drop n l) ≤ length l
length-drop-le zero l = omega arith
length-drop-le (suc n) [] = omega arith
length-drop-le (suc n) (x ∷ l) = omega (arith, length-drop-le n l)

delta_loop-ne-stuck :
    (t fuel : ℕ) (l : List ℕ) (bfid : ℕ) → length l ≤ fuel → delta_loop t fuel l bfid ≢ stuck
unfolding delta_loop
delta_loop-ne-stuck t fuel [] bfid h = λ e. cc
delta_loop-ne-stuck t zero (x ∷ l) bfid h = absurd (omega arith)
delta_loop-ne-stuck t (suc fuel) (x ∷ []) bfid h = λ e. cc
delta_loop-ne-stuck t (suc fuel) (x ∷ tf ∷ l) bfid h =
    >>=-ne-stuck (delta_run t (sub32 tf 1) l) _ (Runs-ne-stuck _ _ (delta_run-Runs t _ l)) λ p e.
      >>=-ne-stuck (delta_run t (sub32 tf 1) p.1) _ (Runs-ne-stuck _ _ (delta_run-Runs t _ p.1))
        λ q e'.
          >>=-ne-stuck (delta_loop t fuel (drop tf q.1) (add32 x bfid)) _
            (delta_loop-ne-stuck t fuel (drop tf q.1) _ (
              omega (
                arith,
                length-drop-le tf q.1,
                Runs-left _ _ (delta_run-Runs t _ p.1) e',
                Runs-left _ _ (delta_run-Runs t _ l) e,
              )))
            (λ more e'' r. cc)

-- The loop of `delta_codec` ends on every array, its length being enough fuel.
pub delta_codec-ne-stuck :
    (t : ℕ) (chunk : List ℕ) (base_fid : ℕ) → delta_codec t chunk base_fid ≢ stuck
unfolding delta_codec
delta_codec-ne-stuck t chunk base_fid = delta_loop-ne-stuck t _ chunk base_fid (omega arith)
