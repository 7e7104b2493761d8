-- ===== src/AudioBlock/Replace.antt =====
-- `SetData` of AudioBlock.antt.
use audioneex.Prelude.{
  ℕ, ◌≤◌, ◌≡◌, refl, sym, ap, ◌∙◌, List, [], ◌++◌, arith, true, ◌==◌, Bool-cases, inl, inr, ltb,
  leb, some, ok, length, take, drop, length-append,
}
use mathlib.Core.Path.{subst}
use audioneex.AudioBlock.{AudioBlock, FloatOps, seconds, read, copy_to, data_of, resize, set_data}
use audioneex.AudioBlock.Samples.{Has, length-take, length-drop, take-all, copy_to-append}

module _ {F A : Type 0} (f : FloatOps F) where
  -- The new contents, where `k` samples of `new` are taken.
  written-Has :
      (b : AudioBlock F A) (xs new : List A) (k : ℕ) (h : Has f b xs)
      → k ≤ length new
      → k ≤ b.capacity
      → (read k new ≡ ok (take k new))
        × (copy_to (take k new) 0 (xs ++ h.behind) ≡ ok (take k new ++ drop k (xs ++ h.behind)))
        × (length (take k new ++ drop k (xs ++ h.behind)) ≡ b.capacity)
  unfolding read
  written-Has b xs new k h le fits = (
    rw readable refl,
    copy_to-append (take k new) [] (xs ++ h.behind) (omega (arith, size, h.capacity_is, fits))
        ∙ ap (λ n. ok (take k new ++ drop n (xs ++ h.behind))) size,
    omega (
      arith,
      length-append (take k new) (drop k (xs ++ h.behind)),
      length-drop k (xs ++ h.behind),
      size,
      h.capacity_is,
      fits,
    ),
  )
    where
      readable : leb k (length new) ≡ true
      readable = ground arith

      size : length (take k new) ≡ k
      size = length-take k new le

  -- `SetData` replaces the available samples by the given ones, as far as the capacity goes; the rest
  -- is cut off. The block stays well formed.
  pub set_data-Has :
      (b : AudioBlock F A) (xs new : List A)
      → Has f b xs
      → (b' : AudioBlock F A) × (set_data f new (length new) b ≡ ok b')
        × Has f b' (take b.capacity new)
  unfolding set_data data_of resize
  set_data-Has b xs new h = elim (Bool-cases (length new == b.size)) [
    | inl same ↦
        let k_eq : b.size ≡ length new = ground (arith, same) in
        let w =
          written-Has b xs new b.size h (omega (arith, k_eq))
            (omega (arith, h.capacity_is, h.size_is, length-append xs h.behind)) in
        (
          record b { samples = some (take b.size new ++ drop b.size (xs ++ h.behind)) },
          rw (same, w.0, h.data_is, w.1) refl,
          subst
              (Has f
                (record b { samples = some (take b.size new ++ drop b.size (xs ++ h.behind)) }))
              (take-all b.size new (omega (arith, k_eq))
                ∙ sym (
                    take-all b.capacity new
                      (omega (arith, k_eq, h.capacity_is, h.size_is, length-append xs h.behind))))
              (record {
                behind = drop b.size (xs ++ h.behind);
                data_is = refl;
                capacity_is = w.2;
                size_is = length-take b.size new (omega (arith, k_eq));
                duration_is = h.duration_is;
              }),
        )
    | inr other ↦ elim (Bool-cases (ltb b.capacity (length new))) [
      | inl cut ↦
          let w = written-Has b xs new b.capacity h (ground (arith, cut)) (omega arith) in
          (
            record b {
              samples = some (take b.capacity new ++ drop b.capacity (xs ++ h.behind));
              size = b.capacity;
              duration = seconds f b.capacity b.channels b.sample_rate;
            },
            rw (other, cut, w.0, h.data_is, w.1) refl,
            record {
              behind = drop b.capacity (xs ++ h.behind);
              data_is = refl;
              capacity_is = w.2;
              size_is = length-take b.capacity new (ground (arith, cut));
              duration_is = refl;
            },
          )
      | inr whole ↦
          let fits : length new ≤ b.capacity = ground (arith, whole) in
          let w = written-Has b xs new (length new) h (omega arith) fits in
          (
            record b {
              samples = some (take (length new) new ++ drop (length new) (xs ++ h.behind));
              size = length new;
              duration = seconds f (length new) b.channels b.sample_rate;
            },
            rw (other, whole, w.0, h.data_is, w.1) refl,
            record {
              behind = drop (length new) (xs ++ h.behind);
              data_is =
                  ap (λ l. some (l ++ drop (length new) (xs ++ h.behind))) (same_samples new fits);
              capacity_is =
                  ap (λ l. length (l ++ drop (length new) (xs ++ h.behind)))
                    (sym (same_samples new fits))
                  ∙ w.2;
              size_is =
                  ap length (sym (same_samples new fits))
                  ∙ length-take (length new) new (omega arith);
              duration_is = refl;
            },
          )
    ]
  ]
    where
      same_samples : (l : List A) → length l ≤ b.capacity → take (length l) l ≡ take b.capacity l
      same_samples l fits = take-all (length l) l (omega arith) ∙ sym (take-all b.capacity l fits)
