-- ===== src/Matcher/Ending.antt =====
-- The loop of Process over the batches (src/ident/Matcher.cpp) comes to an end.
use audioneex.Prelude.{
  ℕ, zero, suc, ◌+◌, ◌-◌, ◌≤◌, ◌<◌, ◌≡◌, ap, List, ◌==◌, leb, Option, none, some, Outcome, stuck,
  length, length-append, map, get_elem?, arith, Bool-cases, Option-cases, inl, inr, IfOk-ok,
  IfStuck, >>=-IfStuck, IfStuck-stuck, IfStuck-self, IfStuck-map,
}
use audioneex.AudioBlock.{FloatOps}
use audioneex.Store.{DataStore}
use audioneex.Indexer.Fingerprints.{Qlf}
use audioneex.Matcher.Graphs.{FingerprintStore}
use audioneex.Matcher.{
  Lf, Quantizer, Matcher, nk, do_match, batches, time_at, with_store, with_codes, process,
  append_lfs, quantized, valid_query_sequence,
}
use audioneex.Matcher.Batches.{Keeps, do_match-Keeps, IsMatcher}

time_at-IfStuck : (P : Type 0) (i : ℕ) (xk : List Qlf) → IfStuck P (time_at i xk)
unfolding time_at
time_at-IfStuck P i xk = elim (Option-cases (get_elem? xk i)) [
  | inl e ↦ rw (e, IfStuck) tt
  | inr (q, e) ↦ rw (e, IfStuck) tt
]

with_store-IfStuck :
    {S A : Type 0} (P : Type 0) (store : Option S) (f : S → Outcome A)
    → ((d : S) → IfStuck P (f d))
    → IfStuck P (with_store store f)
unfolding with_store
with_store-IfStuck P none f h = tt
with_store-IfStuck P (some d) f h = h d

with_codes-IfStuck :
    {C A : Type 0} (P : Type 0) (codes : Option C) (f : C → Outcome A)
    → ((c : C) → IfStuck P (f c))
    → IfStuck P (with_codes codes f)
unfolding with_codes
with_codes-IfStuck P none f h = tt
with_codes-IfStuck P (some c) f h = h c

module _ {F : Type 0} (o : FloatOps F) (s : DataStore) (fps : s.State → FingerprintStore)
    (x : Quantizer) (search_fuel : ℕ) where
  abbrev M : Type 0
  M = Matcher o s fps x search_fuel

  -- The search for some batch has run out of fuel.
  abbrev pub SearchStuck : Type 0
  SearchStuck =
      (d : s.State) × (ko : ℕ) × (st : M) × (do_match o s fps x search_fuel d ko (ko + nk) st
        ≡ stuck)

  search :
      (d : s.State) (ko : ℕ) (st : M)
      → IfStuck SearchStuck (do_match o s fps x search_fuel d ko (ko + nk) st)
  search d ko st =
      IfStuck-map (do_match o s fps x search_fuel d ko (ko + nk) st) (λ e. (d, ko, st, e))
        (IfStuck-self (do_match o s fps x search_fuel d ko (ko + nk) st))

  -- A unit of fuel for each fingerprint to move past is enough.
  batches-IfStuck :
      (d : s.State) (fuel processed : ℕ) (st : M)
      → length st.xk < st.ko + fuel
      → st.ko ≤ length st.xk
      → IfStuck SearchStuck (batches o s fps x search_fuel d fuel processed st)
  unfolding batches
  batches-IfStuck d zero processed st h k = absurd (omega arith)
  batches-IfStuck d (suc fuel) processed st h k =
      elim (Bool-cases (leb nk (length st.xk - st.ko))) [
        | inr done ↦ rw done tt
        | inl more ↦ rw more (
            >>=-IfStuck SearchStuck (time_at (st.ko + nk - 1) st.xk) _
              (time_at-IfStuck SearchStuck (st.ko + nk - 1) st.xk)
              λ xk_t e.
                >>=-IfStuck SearchStuck (do_match o s fps x search_fuel d st.ko (st.ko + nk) st) _
                  (search d st.ko st)
                  λ st1 e'.
                    let keeps =
                      IfOk-ok (Keeps o s fps x search_fuel st) _ e'
                        (do_match-Keeps o s fps x search_fuel d st.ko (st.ko + nk) st) in
                    batches-IfStuck d fuel (processed + nk)
                      (record st1 { ko = st1.ko + nk; ko_t = xk_t; nsteps = st1.nsteps + 1 })
                      (omega (arith, h, keeps.2, ap length keeps.0))
                      (ground (arith, keeps.2, ap length keeps.0)))
      ]

  -- The loop over the batches has fuel enough: where Process is stuck, the search for some batch is.
  pub process-SearchStuck :
      (lfs : List Lf) (st : M)
      → IsMatcher o s fps x search_fuel st
      → process o s fps x search_fuel lfs st ≡ stuck
      → SearchStuck
  unfolding process append_lfs
  process-SearchStuck lfs st h e = IfStuck-stuck SearchStuck _ e (
      with_store-IfStuck SearchStuck st.store _ λ d. elim (Bool-cases (length lfs == 0)) [
        | inl none_new ↦ rw none_new tt
        | inr new ↦ rw new (
            with_codes-IfStuck SearchStuck st.audio_codes _ λ codes.
              let st1 = append_lfs o s fps x search_fuel codes lfs st in
              elim (Bool-cases (valid_query_sequence st1.xk_seq)) [
                | inl valid ↦ rw valid (
                    batches-IfStuck d (suc (length st1.xk)) 0 st1 (omega arith) (
                      omega (
                        arith,
                        h.ko_le,
                        length-append st.xk (map (quantized o s fps x search_fuel codes) lfs),
                      )))
                | inr invalid ↦ rw invalid tt
              ])
      ])
