-- ===== src/Matcher/Flushing.antt =====
-- Flush (src/ident/Matcher.cpp): what is left in the query sequence, and that a second call has nothing
-- to do.
use audioneex.Prelude.{
  ℕ, ◌+◌, ◌-◌, ◌≤◌, ◌<◌, ◌≡◌, refl, ap, ◌∙◌, false, ltb, Option, none, some, Outcome, ok, length,
  arith, Bool-cases, ◌⊎◌, inl, inr, IfOk, >>=-IfOk, IfOk-ok, lt→ltb,
}
use audioneex.AudioBlock.{FloatOps}
use audioneex.Store.{DataStore}
use audioneex.Matcher.Graphs.{FingerprintStore}
use audioneex.Matcher.{
  Quantizer, Matcher, do_match, time_at, with_store, flush, valid_query_sequence,
}
use audioneex.Matcher.Batches.{with_store-IfOk, Keeps, do_match-Keeps, IsMatcher}

with_store-some :
    {S A : Type 0} (store : Option S) (f : S → Outcome A) {d : S}
    → store ≡ some d
    → with_store store f ≡ f d
unfolding with_store
with_store-some none f e = cc
with_store-some (some d) f e = cc

module _ {F : Type 0} (o : FloatOps F) (s : DataStore) (fps : s.State → FingerprintStore)
    (x : Quantizer) (search_fuel : ℕ) where
  abbrev M : Type 0
  M = Matcher o s fps x search_fuel

  -- There is nothing to flush: the sequence is not valid, or less than two fingerprints are left.
  flush_idle :
      (st : M) {d : s.State}
      → st.store ≡ some d
      → (valid_query_sequence st.xk_seq ≡ false) ⊎ (length st.xk - st.ko < 2)
      → flush o s fps x search_fuel st ≡ ok (st, 0)
  unfolding flush
  flush_idle st e (inl invalid) = with_store-some st.store _ e ∙ rw invalid refl
  flush_idle st e (inr few) =
      with_store-some st.store _ e ∙ elim (Bool-cases (valid_query_sequence st.xk_seq)) [
        | inl valid ↦ rw (valid, lt→ltb (length st.xk - st.ko) 2 few) refl
        | inr invalid ↦ rw invalid refl
      ]

  -- What Flush makes of the matcher, and its result: all that was left, or nothing.
  pub record Flushed (st st' : M) (n : ℕ) : Type 0 where
    pub sound : IsMatcher o s fps x search_fuel st → IsMatcher o s fps x search_fuel st'
    pub moved : st'.ko ≡ st.ko + n
    pub kept : st'.xk ≡ st.xk
    pub at_once : flush o s fps x search_fuel st' ≡ ok (st', 0)
    pub all_or_none :
        ((n ≡ 0) × ((valid_query_sequence st.xk_seq ≡ false) ⊎ (length st.xk - st.ko < 2)))
        ⊎ ((2 ≤ n) × (n ≡ length st.xk - st.ko))

  flush-IfOk : (st : M) → IfOk (λ (r : M × ℕ). Flushed st r.0 r.1) (flush o s fps x search_fuel st)
  unfolding flush
  flush-IfOk st =
      let P : M × ℕ → Type 0 = λ r. Flushed st r.0 r.1 in
      let idle : (d : s.State)
          → st.store ≡ some d
          → (valid_query_sequence st.xk_seq ≡ false) ⊎ (length st.xk - st.ko < 2)
          → Flushed st st 0 =
        λ d e why. record {
          sound = λ h. h;
          moved = omega arith;
          kept = refl;
          at_once = flush_idle st e why;
          all_or_none = inl (refl, why);
        } in
      let nlf = length st.xk - st.ko in
      with_store-IfOk P st.store _ λ d e. elim (Bool-cases (valid_query_sequence st.xk_seq)) [
        | inr invalid ↦ rw invalid (idle d e (inl invalid))
        | inl valid ↦ elim (Bool-cases (ltb nlf 2)) [
          | inl few ↦ rw (valid, few) (idle d e (inr (ground arith)))
          | inr many ↦
              rw (valid, many)
                (>>=-IfOk P (time_at (st.ko + nlf - 1) st.xk) _ λ xk_t e1.
                  >>=-IfOk P (do_match o s fps x search_fuel d st.ko (st.ko + nlf) st) _ λ st1 e2.
                    let keeps =
                      IfOk-ok (Keeps o s fps x search_fuel st) _ e2
                        (do_match-Keeps o s fps x search_fuel d st.ko (st.ko + nlf) st) in
                    let st2 : M = record st1 {
                      ko = st1.ko + nlf;
                      ko_t = xk_t;
                      nsteps = st1.nsteps + 1;
                    } in
                    record {
                      sound = λ h. record {
                        valid = ap valid_query_sequence keeps.1 ∙ h.valid;
                        seq_length =
                            omega (arith, ap length keeps.0, ap length keeps.1, h.seq_length);
                        ko_le = omega (arith, keeps.2, ap length keeps.0, h.ko_le);
                        few_left = omega (arith, keeps.2, ap length keeps.0, h.ko_le);
                      };
                      moved = omega (arith, keeps.2);
                      kept = keeps.0;
                      at_once =
                          flush_idle st2 (keeps.4 ∙ e)
                            (inr (omega (arith, keeps.2, ap length keeps.0)));
                      all_or_none = inr (ground arith, refl);
                    })
        ]
      ]

  -- A flush that returns moves past all fingerprints that are left, or none where the query sequence is
  -- not valid or less than two are left; it keeps the sequence and what holds of it, and a second flush at
  -- once changes nothing and returns 0.
  pub flush-Flushed :
      (st : M) {st' : M} {n : ℕ} → flush o s fps x search_fuel st ≡ ok (st', n) → Flushed st st' n
  flush-Flushed st e = IfOk-ok (λ (r : M × ℕ). Flushed st r.0 r.1) _ e (flush-IfOk st)
