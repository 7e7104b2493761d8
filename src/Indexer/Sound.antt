-- ===== src/Indexer/Sound.antt =====
-- Indexing a fingerprint (Indexer/Terms.antt) on a sound cache.
use audioneex.Prelude.{
  ℕ, suc, ◌+◌, ◌-◌, ◌*◌, ◌≤◌, ◌<◌, ◌^◌, ◌≡◌, refl, List, [], ◌∷◌, Bool-cases, inl, inr, ◌==◌, ltb,
  arith, length, ok, sub32,
}
use audioneex.AudioBlock.{FloatOps}
use audioneex.Cache.{IndexCache}
use audioneex.Cache.View.{IsCache, update-IsCache, IsCache-mono}
use audioneex.Indexer.Fingerprints.{Qlf}
use audioneex.Indexer.Terms.{
  MatchType, index_s_terms, index_b_terms, index_pairs, index_terms, word_term, pair_term, band,
  quantized_step, d_max, t_max,
}

module _ {F : Type 0} (o : FloatOps F) (entry_bytes : ℕ) where
  index_s_terms-IsCache :
      (fid i n : ℕ) (lfs : List Qlf) (c : IndexCache)
      → IsCache fid n c
      → n + 6 * length lfs < 2 ^ 32
      → (c' : IndexCache) × (index_s_terms o entry_bytes fid i lfs c ≡ ok c')
        × IsCache fid (n + 6 * length lfs) c'
  unfolding index_s_terms
  index_s_terms-IsCache fid i n [] c h fits =
      (c, refl, IsCache-mono fid fid n (n + 6 * 0) c (omega arith) (omega arith) h)
  index_s_terms-IsCache fid i n (q ∷ lfs) c h fits =
      let (c1, e1, h1) =
        update-IsCache entry_bytes (word_term o q) fid n
          (record { lid = i; time = q.t; error = q.e }) c h (omega (arith, fits)) in
      let (c2, e2, h2) =
        index_s_terms-IsCache fid (i + 1) (n + 6) lfs c1 h1 (omega (arith, fits)) in
      (
        c2,
        rw (e1, e2) refl,
        IsCache-mono fid fid (n + 6 + 6 * length lfs) (n + 6 * suc (length lfs)) c2 (omega arith)
            (omega arith) h2,
      )

  index_pairs-IsCache :
      (fid i n d : ℕ) (pivot : Qlf) (lfs : List Qlf) (c : IndexCache)
      → IsCache fid n c
      → n + 6 * (10 - d) < 2 ^ 32
      → (c' : IndexCache) × (index_pairs o entry_bytes fid i pivot d lfs c ≡ ok c')
        × IsCache fid (n + 6 * (10 - d)) c'
  unfolding index_pairs
  index_pairs-IsCache fid i n d pivot [] c h fits =
      (c, refl, IsCache-mono fid fid n (n + 6 * (10 - d)) c (omega arith) (omega arith) h)
  index_pairs-IsCache fid i n d pivot (q ∷ lfs) c h fits = elim (Bool-cases (ltb d d_max)) [
    | inr full ↦ (c, rw full refl, room)
    | inl more ↦ elim (Bool-cases (ltb t_max (sub32 q.t pivot.t))) [
      | inl far ↦ (c, rw (more, far) refl, room)
      | inr near ↦ elim (Bool-cases (band o q == band o pivot)) [
        | inr other ↦
            let (c1, e1, h1) = index_pairs-IsCache fid i n d pivot lfs c h fits in
            (c1, rw (more, near, other) e1, h1)
        | inl same ↦
            let (c1, e1, h1) =
              update-IsCache entry_bytes
                (pair_term pivot.w (band o pivot) q.w (quantized_step o 5 pivot.t q.t)
                  (quantized_step o 9 pivot.f q.f))
                fid n (record { lid = i; time = pivot.t; error = pivot.e }) c h
                (omega (arith, fits)) in
            let (c2, e2, h2) =
              index_pairs-IsCache fid i (n + 6) (d + 1) pivot lfs c1 h1 (ground (arith, more)) in
            (
              c2,
              rw (more, near, same, e1) e2,
              IsCache-mono fid fid (n + 6 + 6 * (10 - (d + 1))) (n + 6 * (10 - d)) c2 (omega arith)
                  (ground (arith, more)) h2,
            )
      ]
    ]
  ]
    where
      room : IsCache fid (n + 6 * (10 - d)) c
      room = IsCache-mono fid fid n (n + 6 * (10 - d)) c (omega arith) (omega arith) h

  index_b_terms-IsCache :
      (fid i n : ℕ) (lfs : List Qlf) (c : IndexCache)
      → IsCache fid n c
      → n + 60 * length lfs < 2 ^ 32
      → (c' : IndexCache) × (index_b_terms o entry_bytes fid i lfs c ≡ ok c')
        × IsCache fid (n + 60 * length lfs) c'
  unfolding index_b_terms
  index_b_terms-IsCache fid i n [] c h fits =
      (c, refl, IsCache-mono fid fid n (n + 60 * 0) c (omega arith) (omega arith) h)
  index_b_terms-IsCache fid i n (q ∷ lfs) c h fits =
      let (c1, e1, h1) = index_pairs-IsCache fid i n 0 q lfs c h (omega (arith, fits)) in
      let (c2, e2, h2) =
        index_b_terms-IsCache fid (i + 1) (n + 6 * 10) lfs c1 h1 (omega (arith, fits)) in
      (
        c2,
        rw (e1, e2) refl,
        IsCache-mono fid fid (n + 6 * 10 + 60 * length lfs) (n + 60 * suc (length lfs)) c2
            (omega arith) (omega arith) h2,
      )

  -- Indexing a fingerprint with a fid not below the ones in the cache never fails, whatever the match
  -- type is, and leaves a sound cache. A local fingerprint adds sixty words at most to any list; the
  -- lists stay shorter than 2^32 words.
  pub index_terms-IsCache :
      (type : MatchType) (fid gid n : ℕ) (lfs : List Qlf) (c : IndexCache)
      → IsCache gid n c
      → gid ≤ fid
      → n + 60 * length lfs < 2 ^ 32
      → (c' : IndexCache) × (index_terms o entry_bytes type fid lfs c ≡ ok c')
        × IsCache fid (n + 60 * length lfs) c'
  unfolding index_terms
  index_terms-IsCache MatchType.mscale_match fid gid n lfs c h le fits =
      let (c1, e1, h1) =
        index_s_terms-IsCache fid 0 n lfs c (IsCache-mono gid fid n n c le (omega arith) h)
          (omega (arith, fits)) in
      (
        c1,
        e1,
        IsCache-mono fid fid (n + 6 * length lfs) (n + 60 * length lfs) c1 (omega arith)
            (omega arith) h1,
      )
  index_terms-IsCache MatchType.xscale_match fid gid n lfs c h le fits =
      index_b_terms-IsCache fid 0 n lfs c (IsCache-mono gid fid n n c le (omega arith) h) fits
  index_terms-IsCache MatchType.other_match fid gid n lfs c h le fits =
      (c, refl, IsCache-mono gid fid n (n + 60 * length lfs) c le (omega arith) h)
