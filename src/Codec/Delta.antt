-- ===== src/Codec/Delta.antt =====
-- BlockEncoder::DeltaCodec (src/index/BlockCodec.h) on the array that `begin` and `end` delimit.
pub mod Spec
pub mod Total
use audioneex.Prelude.{
  ℕ, zero, suc, ◌*◌, List, [], ◌∷◌, ◌++◌, Outcome, ok, err, fault, stuck, decode_failed, ◌>>=◌,
  add32, sub32, mul32, take, drop, length,
}

-- The template's argument T, as a 32-bit pattern.
abbrev pub ddecode : ℕ
ddecode = 1

-- One of the two runs over the payload: `i` more elements are summed, then `begin` moves on. The
-- list is what `begin` points at; the result is the elements passed and what is left. A pointer at
-- or past the end is the empty list.
unfoldable pub delta_run : ℕ → ℕ → List ℕ → Outcome (List ℕ × List ℕ)
delta_run t zero [] = ok ([], [])
delta_run t zero (x ∷ rest) = ok (x ∷ [], rest)
delta_run t (suc i) [] = err decode_failed
delta_run t (suc i) (x ∷ []) = err decode_failed
delta_run t (suc i) (x ∷ y ∷ rest) = do
  (run, left) ← delta_run t i (add32 y (mul32 x t) ∷ rest)
  ok (x ∷ run, left)

-- The loop over the postings. The term frequency of a last lone element lies past the end of the
-- decoded data. `begin` moves by two at least in a round, so the length of the array is enough fuel.
unfoldable pub delta_loop : ℕ → ℕ → List ℕ → ℕ → Outcome (List ℕ)
unfolding delta_run
delta_loop t fuel [] bfid = ok []
delta_loop t zero (x ∷ rest) bfid = stuck
delta_loop t (suc fuel) (x ∷ []) bfid = fault
delta_loop t (suc fuel) (x ∷ tf ∷ rest) bfid = do
  let fid = add32 x bfid
  (ls, after_lids) ← delta_run t (sub32 tf 1) rest
  (ts, after_times) ← delta_run t (sub32 tf 1) after_lids
  more ← delta_loop t fuel (drop tf after_times) fid
  ok (fid ∷ tf ∷ (ls ++ (ts ++ (take tf after_times ++ more))))

unfoldable pub delta_codec : ℕ → List ℕ → ℕ → Outcome (List ℕ)
unfolding delta_loop
delta_codec t chunk base_fid = delta_loop t (length chunk) chunk base_fid
