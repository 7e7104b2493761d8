-- ===== src/Flush/Loop.antt =====
-- The loop of Flush.antt over the postings of a cached list.
use audioneex.Prelude.{
  ℕ, zero, suc, ◌+◌, ◌*◌, ◌≤◌, ◌<◌, ◌≡◌, refl, sym, ◌∙◌, List, [], ◌∷◌, ◌++◌, arith, append_assoc,
  append-nil, length, length-append, Bool-cases, inl, inr, true, false, ◌||◌, ◌==◌, ltb, leb, ok,
  add32, mul32, drop, drop-append,
}
use audioneex.Memory.{load, load-append}
use audioneex.Postings.{Posting, IsPosting, cache_layout}
use audioneex.Cache.Spec.{cache_layouts}
use audioneex.Store.{DataStore, DataStoreLaws}
use audioneex.Flush.{FlushState, emit, flush_loop, chunk_threshold}
use audioneex.Flush.Blocks.{concat}
use audioneex.Flush.Round.{
  size_of, last_offset, Flushed, Pending, pushed, push-emit, Emitted-Pending, pushed-Pending,
  Emitted-Flushed, length-cache_layout, All-split,
}

-- The posting at `pos`, and the place of the next one.
posting_tf :
    (r : Posting) (rs : List Posting) (plist before after : List ℕ) (pos : ℕ)
    → plist ≡ before ++ (cache_layouts (r ∷ rs) ++ after)
    → pos ≡ length before
    → load plist (pos + 1) ≡ ok (length r.occs)
posting_tf r rs plist before after pos e pe = rw e (
    load-append before (cache_layouts (r ∷ rs) ++ after) (pos + 1) 1 (length r.occs)
      (omega (arith, pe)) refl)

posting_at :
    (r : Posting) (rs : List Posting) (plist before after : List ℕ) (pos : ℕ)
    → plist ≡ before ++ (cache_layouts (r ∷ rs) ++ after)
    → pos ≡ length before
    → drop pos plist ≡ cache_layout r ++ (cache_layouts rs ++ after)
posting_at r rs plist before after pos e pe = rw e (
    drop-append before (cache_layouts (r ∷ rs) ++ after) pos pe
    ∙ append_assoc (cache_layout r) (cache_layouts rs) after)

posting_next :
    (r : Posting) (rs : List Posting) (plist before after : List ℕ)
    → plist ≡ before ++ (cache_layouts (r ∷ rs) ++ after)
    → plist ≡ (before ++ cache_layout r) ++ (cache_layouts rs ++ after)
posting_next r rs plist before after e = e ∙ simp append_assoc

posting_step : (r : Posting) → IsPosting r → add32 2 (mul32 (length r.occs) 3) ≡ size_of r
posting_step r h = omega (arith, h.tf_fits)

module _ (s : DataStore) (laws : DataStoreLaws s) (term : ℕ) where
  -- Behind the last posting, the loop ends.
  flush_loop-end :
      (fuel pos plast : ℕ) (plist : List ℕ) (st : FlushState s)
      → plast < pos
      → flush_loop s (suc fuel) term plist pos plast st ≡ ok st
  unfolding flush_loop
  flush_loop-end fuel pos plast plist st h = rw passed refl
    where
      passed : ltb plast pos ≡ true
      passed = ground arith

  -- A round, up to the choice of emitting a chunk.
  flush_loop-round :
      (fuel pos plast tf : ℕ) (plist : List ℕ) (st st1 : FlushState s)
      → pos ≤ plast
      → load plist (pos + 1) ≡ ok tf
      → (leb chunk_threshold ((st.plchunk_size + add32 2 (mul32 tf 3)) * 4) || pos == plast) ≡ true
      → emit s term (pushed s laws term st (drop pos plist) (add32 2 (mul32 tf 3))) ≡ ok st1
      → flush_loop s (suc fuel) term plist pos plast st
        ≡ flush_loop s fuel term plist (pos + add32 2 (mul32 tf 3)) plast st1
  unfolding flush_loop
  flush_loop-round fuel pos plast tf plist st st1 h tf_eq test e = rw (inside, tf_eq, test, e) refl
    where
      inside : ltb plast pos ≡ false
      inside = ground arith

  flush_loop-push :
      (fuel pos plast tf : ℕ) (plist : List ℕ) (st : FlushState s)
      → pos ≤ plast
      → load plist (pos + 1) ≡ ok tf
      → (leb chunk_threshold ((st.plchunk_size + add32 2 (mul32 tf 3)) * 4) || pos == plast) ≡ false
      → flush_loop s (suc fuel) term plist pos plast st
        ≡ flush_loop s fuel term plist
            (pos + add32 2 (mul32 tf 3))
            plast
            (pushed s laws term st (drop pos plist) (add32 2 (mul32 tf 3)))
  unfolding flush_loop
  flush_loop-push fuel pos plast tf plist st h tf_eq test = rw (inside, tf_eq, test) refl
    where
      inside : ltb plast pos ≡ false
      inside = ground arith

  -- The loop over the rest of a cached list, from any posting on: it ends within its fuel, without
  -- an error, and the postings that are pending and those to come are then in the store.
  pub flush_loop-Flushed :
      (rs : List Posting) (r : Posting) (fuel pos plast : ℕ) (plist before after : List ℕ)
      (st : FlushState s) (pss : List (List Posting)) (qs : List Posting)
      → plist ≡ before ++ (cache_layouts (r ∷ rs) ++ after)
      → pos ≡ length before
      → plast ≡ pos + last_offset (r ∷ rs)
      → length rs + 2 ≤ fuel
      → Pending s laws term st pss qs (r ∷ rs)
      → (st' : FlushState s) × (pss' : List (List Posting)) × (flush_loop s fuel term plist pos
            plast st
          ≡ ok st')
        × Flushed s laws term st pss (qs ++ (r ∷ rs)) st' pss'
  flush_loop-Flushed rs r zero pos plast plist before after st pss qs e pe le enough h =
      absurd (omega arith)
  flush_loop-Flushed [] r (suc zero) pos plast plist before after st pss qs e pe le enough h =
      absurd (omega arith)
  flush_loop-Flushed [] r (suc (suc fuel)) pos plast plist before after st pss qs e pe le enough h =
      let at = posting_at r [] plist before after pos e pe in
      let step = posting_step r (All-split IsPosting qs (r ∷ []) h.fit).1.0 in
      let (st1, pss1, emitted, after_emit) =
        push-emit s laws term st pss qs [] r (drop pos plist) after
          (add32 2 (mul32 (length r.occs) 3)) h at step in
      (
        st1,
        pss1,
        flush_loop-round (suc fuel) pos plast (length r.occs) plist st st1 (omega (arith, le))
              (posting_tf r [] plist before after pos e pe) (ground (arith, le)) emitted
            ∙ flush_loop-end fuel (pos + add32 2 (mul32 (length r.occs) 3)) plast plist st1
                (omega (arith, le, step)),
        Emitted-Flushed s laws term st pss qs [] r (drop pos plist) after
            (add32 2 (mul32 (length r.occs) 3)) h at step st1 st1 pss1 pss1 after_emit
            (record {
              holds = after_emit.holds;
              cleared = after_emit.cleared;
              cleared_size = after_emit.cleared_size;
              postings = sym (append-nil (concat pss1));
              untouched = λ u ne. refl;
            }),
      )
  flush_loop-Flushed (r2 ∷ rs) r (suc fuel) pos plast plist before after st pss qs e pe le enough
        h =
      let q = drop pos plist in
      let n = add32 2 (mul32 (length r.occs) 3) in
      let rest = cache_layouts (r2 ∷ rs) ++ after in
      let at = posting_at r (r2 ∷ rs) plist before after pos e pe in
      let step = posting_step r (All-split IsPosting qs (r ∷ r2 ∷ rs) h.fit).1.0 in
      let tf_eq = posting_tf r (r2 ∷ rs) plist before after pos e pe in
      let next = posting_next r (r2 ∷ rs) plist before after e in
      let next_pos : pos + n ≡ length (before ++ cache_layout r) =
        omega (arith, pe, step, length-append before (cache_layout r), length-cache_layout r) in
      elim (Bool-cases (leb chunk_threshold ((st.plchunk_size + n) * 4) || pos == plast)) [
        | inl full ↦
            let (st1, pss1, emitted, after_emit) =
              push-emit s laws term st pss qs (r2 ∷ rs) r q rest n h at step in
            let p1 =
              Emitted-Pending s laws term st pss qs (r2 ∷ rs) r q rest n h at step st1 pss1
                after_emit in
            let (st2, pss2, run, flushed) =
              flush_loop-Flushed rs r2 fuel (pos + n) plast plist (before ++ cache_layout r) after
                st1 pss1 [] next next_pos (omega (arith, le, step)) (omega arith) p1 in
            (
              st2,
              pss2,
              flush_loop-round fuel pos plast (length r.occs) plist st st1 (omega (arith, le)) tf_eq
                    full emitted
                  ∙ run,
              Emitted-Flushed s laws term st pss qs (r2 ∷ rs) r q rest n h at step st1 st2 pss1 pss2
                  after_emit flushed,
            )
        | inr small ↦
            let p1 =
              pushed-Pending s laws term st pss qs (r2 ∷ rs) r q rest n h at step
                (ground (arith, small)) in
            let (st2, pss2, run, flushed) =
              flush_loop-Flushed rs r2 fuel (pos + n) plast plist (before ++ cache_layout r) after
                (pushed s laws term st q n) pss (qs ++ (r ∷ [])) next next_pos
                (omega (arith, le, step)) (omega arith) p1 in
            (
              st2,
              pss2,
              flush_loop-push fuel pos plast (length r.occs) plist st (omega (arith, le)) tf_eq
                    small
                  ∙ run,
              record {
                holds = flushed.holds;
                cleared = flushed.cleared;
                cleared_size = flushed.cleared_size;
                postings = flushed.postings ∙ simp append_assoc;
                untouched = flushed.untouched;
              },
            )
      ]
