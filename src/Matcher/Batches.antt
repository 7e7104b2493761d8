-- ===== src/Matcher/Batches.antt =====
-- The query sequence of the matcher (src/ident/Matcher.cpp): which batches Process and Flush match.
use audioneex.Prelude.{
  ℕ, zero, suc, ◌+◌, ◌-◌, ◌*◌, ◌%◌, ◌≤◌, ◌<◌, ◌≡◌, refl, ap, ◌∙◌, List, [], ◌∷◌, map, true, ◌==◌,
  leb, Option, none, some, Outcome, ok, length, length-append, append-nil, sym, ◌++◌, arith,
  Bool-cases, inl, inr, IfOk, >>=-IfOk, IfOk-ok, IfOk-map,
}
use audioneex.AudioBlock.{FloatOps}
use audioneex.Store.{DataStore}
use audioneex.Matcher.Graphs.{FingerprintStore}
use audioneex.Matcher.{
  Lf, Quantizer, Matcher, nk, find_candidates, rank_candidates, do_match, batches, time_at,
  with_store, with_codes, process, append_lfs, quantized, valid_query_sequence,
}

length-map : {A B : Type 0} (f : A → B) (xs : List A) → length (map f xs) ≡ length xs
length-map f [] = refl
length-map f (x ∷ xs) = ap suc (length-map f xs)

append_none :
    {A B : Type 0} (f : A → B) (ys : List B) (xs : List A)
    → (length xs == 0) ≡ true
    → ys ≡ ys ++ map f xs
append_none f ys [] e = sym (append-nil ys)
append_none f ys (x ∷ xs) e =
    absurd (let q : suc (length xs) ≡ 0 = ground arith in omega (arith, q))

pub with_store-IfOk :
    {S A : Type 0} (P : A → Type 0) (store : Option S) (f : S → Outcome A)
    → ((d : S) → store ≡ some d → IfOk P (f d))
    → IfOk P (with_store store f)
unfolding with_store
with_store-IfOk P none f h = tt
with_store-IfOk P (some d) f h = h d refl

with_codes-IfOk :
    {C A : Type 0} (P : A → Type 0) (codes : Option C) (f : C → Outcome A)
    → ((c : C) → codes ≡ some c → IfOk P (f c))
    → IfOk P (with_codes codes f)
unfolding with_codes
with_codes-IfOk P none f h = tt
with_codes-IfOk P (some c) f h = h c refl

module _ {F : Type 0} (o : FloatOps F) (s : DataStore) (fps : s.State → FingerprintStore)
    (x : Quantizer) (search_fuel : ℕ) where
  abbrev M : Type 0
  M = Matcher o s fps x search_fuel

  -- The query sequence and the counters are the same.
  abbrev pub Keeps : M → M → Type 0
  Keeps st st' =
      (st'.xk ≡ st.xk)
      × (st'.xk_seq ≡ st.xk_seq)
      × (st'.ko ≡ st.ko)
      × (st'.nsteps ≡ st.nsteps)
      × (st'.store ≡ st.store)

  pub do_match-Keeps :
      (d : s.State) (ko kn : ℕ) (st : M)
      → IfOk (Keeps st) (do_match o s fps x search_fuel d ko kn st)
  unfolding do_match
  do_match-Keeps d ko kn st =
      >>=-IfOk (Keeps st) (find_candidates o s fps x search_fuel d ko kn st) _ λ found e.
        >>=-IfOk (Keeps st) (rank_candidates o s fps x search_fuel d found.0 found.1 st) _
          λ results e'. (refl, refl, refl, refl, refl)

  -- What `k` batches make of a matcher: fewer than twenty fingerprints are left.
  record Batched (st : M) (k : ℕ) (st' : M) : Type 0 where
    xk_same : st'.xk ≡ st.xk
    seq_same : st'.xk_seq ≡ st.xk_seq
    store_same : st'.store ≡ st.store
    ko_moved : st'.ko ≡ st.ko + 20 * k
    nsteps_moved : st'.nsteps ≡ st.nsteps + k
    ko_le : st'.ko ≤ length st'.xk
    few_left : length st'.xk - st'.ko < 20

  -- A batch before the others.
  next_batch :
      {st : M} (st1 : M) {k : ℕ} (xk_t : ℕ) {st' : M}
      → Keeps st st1
      → Batched (record st1 { ko = st1.ko + nk; ko_t = xk_t; nsteps = st1.nsteps + 1 }) k st'
      → Batched st (suc k) st'
  next_batch st1 xk_t keeps b = record {
    xk_same = b.xk_same ∙ keeps.0;
    seq_same = b.seq_same ∙ keeps.1;
    store_same = b.store_same ∙ keeps.4;
    ko_moved = omega (arith, b.ko_moved, keeps.2);
    nsteps_moved = omega (arith, b.nsteps_moved, keeps.3);
    ko_le = b.ko_le;
    few_left = b.few_left;
  }

  batches-Batched :
      (d : s.State) (fuel processed : ℕ) (st : M)
      → st.ko ≤ length st.xk
      → IfOk
          (λ (r : M × ℕ). (k : ℕ) × (r.1 ≡ processed + 20 * k) × Batched st k r.0)
          (batches o s fps x search_fuel d fuel processed st)
  unfolding batches
  batches-Batched d zero processed st h = tt
  batches-Batched d (suc fuel) processed st h =
      let P : M × ℕ → Type 0 = λ r. (k : ℕ) × (r.1 ≡ processed + 20 * k) × Batched st k r.0 in
      elim (Bool-cases (leb nk (length st.xk - st.ko))) [
        | inl more ↦ rw more (
            >>=-IfOk P (time_at (st.ko + nk - 1) st.xk) _ λ xk_t e.
              >>=-IfOk P (do_match o s fps x search_fuel d st.ko (st.ko + nk) st) _ λ st1 e'.
                let keeps : Keeps st st1 =
                  IfOk-ok (Keeps st) _ e' (do_match-Keeps d st.ko (st.ko + nk) st) in
                let st2 : M = record st1 {
                  ko = st1.ko + nk;
                  ko_t = xk_t;
                  nsteps = st1.nsteps + 1;
                } in
                IfOk-map (λ r. (k : ℕ) × (r.1 ≡ processed + nk + 20 * k) × Batched st2 k r.0) P
                  (batches o s fps x search_fuel d fuel (processed + nk) st2)
                  (λ r (k, n, b). (suc k, omega arith, next_batch st1 xk_t keeps b))
                  (batches-Batched d fuel (processed + nk) st2
                    (ground (arith, keeps.2, ap length keeps.0))))
        | inr done ↦ rw done (
          0,
          omega arith,
          record {
            xk_same = refl;
            seq_same = refl;
            store_same = refl;
            ko_moved = omega arith;
            nsteps_moved = omega arith;
            ko_le = h;
            few_left = ground arith;
          },
        )
      ]

  -- The query sequence has the numbers from 0 on, and fewer than twenty fingerprints wait for the next
  -- batch.
  pub record IsMatcher (st : M) : Type 0 where
    pub valid : valid_query_sequence st.xk_seq ≡ true
    pub seq_length : length st.xk_seq ≡ length st.xk
    pub ko_le : st.ko ≤ length st.xk
    pub few_left : length st.xk - st.ko < 20

  -- What Process makes of the matcher, and its result.
  pub record Processed (st : M) (lfs : List Lf) (st' : M) (n : ℕ) : Type 0 where
    pub sound : IsMatcher st'
    pub grown : length st'.xk ≡ length st.xk + length lfs
    pub numbers : st'.xk_seq ≡ st.xk_seq ++ map (λ (lf : Lf). lf.id) lfs
    pub appended :
        (codes : x.Codes)
        → st.audio_codes ≡ some codes
        → st'.xk ≡ st.xk ++ map (quantized o s fps x search_fuel codes) lfs
    pub whole_batches : n % 20 ≡ 0
    pub moved : st'.ko ≡ st.ko + n
    pub steps : 20 * st'.nsteps ≡ 20 * st.nsteps + n

  Batched-Processed :
      (codes : x.Codes) (lfs : List Lf) (st : M)
      → st.audio_codes ≡ some codes
      → IsMatcher st
      → valid_query_sequence (append_lfs o s fps x search_fuel codes lfs st).xk_seq ≡ true
      → {k n : ℕ} {st' : M} → n ≡ 0 + 20 * k
      → Batched (append_lfs o s fps x search_fuel codes lfs st) k st'
      → Processed st lfs st' n
  unfolding append_lfs
  Batched-Processed codes lfs st has h valid e b =
      let ids = map (λ (lf : Lf). lf.id) lfs in
      let qlfs = map (quantized o s fps x search_fuel codes) lfs in
      let grown_xk = ap length b.xk_same ∙ length-append st.xk qlfs in
      let grown_seq = ap length b.seq_same ∙ length-append st.xk_seq ids in
      let n_qlfs = length-map (quantized o s fps x search_fuel codes) lfs in
      let n_ids = length-map (λ (lf : Lf). lf.id) lfs in
      record {
        sound = record {
          valid = ap valid_query_sequence b.seq_same ∙ valid;
          seq_length = omega (arith, grown_xk, grown_seq, n_qlfs, n_ids, h.seq_length);
          ko_le = b.ko_le;
          few_left = b.few_left;
        };
        grown = omega (arith, grown_xk, n_qlfs);
        numbers = b.seq_same;
        appended = λ codes' has'.
            b.xk_same
            ∙ ap (λ c. st.xk ++ map (quantized o s fps x search_fuel c) lfs)
                (let same : codes ≡ codes' = cc in same);
        whole_batches = omega (arith, e);
        moved = omega (arith, e, b.ko_moved);
        steps = omega (arith, e, b.nsteps_moved);
      }

  process-IfOk :
      (lfs : List Lf) (st : M)
      → IsMatcher st
      → IfOk (λ (r : M × ℕ). Processed st lfs r.0 r.1) (process o s fps x search_fuel lfs st)
  unfolding process append_lfs
  process-IfOk lfs st h =
      let P : M × ℕ → Type 0 = λ r. Processed st lfs r.0 r.1 in
      with_store-IfOk P st.store _ λ d e. elim (Bool-cases (length lfs == 0)) [
        | inl none_new ↦ rw none_new (record {
          sound = h;
          grown = ground arith;
          numbers = append_none (λ (lf : Lf). lf.id) st.xk_seq lfs none_new;
          appended =
              λ codes has. append_none (quantized o s fps x search_fuel codes) st.xk lfs none_new;
          whole_batches = omega arith;
          moved = omega arith;
          steps = omega arith;
        })
        | inr new ↦ rw new (
            with_codes-IfOk P st.audio_codes _ λ codes has.
              let st1 = append_lfs o s fps x search_fuel codes lfs st in
              elim (Bool-cases (valid_query_sequence st1.xk_seq)) [
                | inl valid ↦ rw valid (
                    IfOk-map (λ (r : M × ℕ). (k : ℕ) × (r.1 ≡ 0 + 20 * k) × Batched st1 k r.0) P
                      (batches o s fps x search_fuel d (suc (length st1.xk)) 0 st1)
                      (λ r (k, n, b). Batched-Processed codes lfs st has h valid n b)
                      (batches-Batched d (suc (length st1.xk)) 0 st1 (
                        omega (
                          arith,
                          h.ko_le,
                          length-append st.xk (map (quantized o s fps x search_fuel codes) lfs),
                        ))))
                | inr invalid ↦ rw invalid tt
              ])
      ]

  -- On a matcher whose query sequence is valid, with less than twenty fingerprints waiting, a call of
  -- Process that returns keeps that so. The sequence then is the one before and the new fingerprints
  -- behind it, in their order, each with its number and quantized by the codebook. The result is a
  -- multiple of twenty, the number of fingerprints that the call has moved past, with a step for each
  -- twenty of them.
  pub process-Processed :
      (lfs : List Lf) (st : M) {st' : M} {n : ℕ}
      → IsMatcher st
      → process o s fps x search_fuel lfs st ≡ ok (st', n)
      → Processed st lfs st' n
  process-Processed lfs st h e =
      IfOk-ok (λ (r : M × ℕ). Processed st lfs r.0 r.1) _ e (process-IfOk lfs st h)
