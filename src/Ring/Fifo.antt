-- ===== src/Ring/Fifo.antt =====
-- The ring buffer as a queue: the blocks that are pushed and not yet consumed, oldest first.
use audioneex.Prelude.{
  ℕ, zero, suc, ◌+◌, ◌-◌, ◌*◌, ◌/◌, ◌%◌, ◌^◌, ◌≤◌, ◌<◌, ◌≡◌, ◌≢◌, refl, sym, ap, ap₂, ◌∙◌, List, [],
  ◌∷◌, ◌++◌, arith, true, false, ◌==◌, ==-ne, ==-refl, Bool-cases, inl, inr, if◌then◌else◌, Option,
  none, some, sub64, drop,
}
use native.Mathlib.Nat.{div-add-mod, mul-le-mul_left, lt_of_mul-lt-mul_left, mul-suc}
use audioneex.Ring.{RingBuffer, push, pull, pull_from, is_full}

module _ {ℓ} {A : Type ℓ} where
  -- At most `size` blocks are pending; the consumer, if it is at one, is at a pending one. The
  -- counters are below the range where they wrap around.
  pub record IsRing (r : RingBuffer A) : Type 0 where
    pub size_pos : 0 < r.size
    pub size_fits : r.size < 2 ^ 63
    pub ordered : r.consumed ≤ r.produced
    pub bounded : r.produced ≤ r.consumed + r.size
    pub no_wrap : r.produced < 2 ^ 63
    pub consuming : r.consume_done ≡ true → r.consumed < r.produced

  -- The contents of `n` slots from the counter `c` on.
  abbrev pub window : (ℕ → A) → ℕ → ℕ → ℕ → List A
  window slots size c zero = []
  window slots size c (suc n) = slots (c % size) ∷ window slots size (c + 1) n

  -- The pending blocks.
  abbrev pub queue : (ℕ → A) → RingBuffer A → List A
  queue slots r = window slots r.size r.consumed (r.produced - r.consumed)

  -- What the producer writes through the pointer that it was given.
  abbrev pub write : (ℕ → A) → ℕ → A → ℕ → A
  write slots i a j = if j == i then a else slots j

  -- The queue without the block that the consumer has finished.
  abbrev pub finished : RingBuffer A → List A → List A
  finished r q = if r.consume_done then drop 1 q else q

module _ {ℓ} {A : Type ℓ} where
  -- What the consumer reads through the pointer that it was given.
  abbrev pub at : (ℕ → A) → Option ℕ → Option A
  at slots none = none
  at slots (some i) = some (slots i)

  abbrev pub first : List A → Option A
  first [] = none
  first (a ∷ _) = some a

-- Two counters that are less than a size apart have different slots.
slots_differ : (n k p : ℕ) → k < p → p < k + n → (k % n) ≢ (p % n)
slots_differ n k p lt gt e = absurd (
    omega (
      arith,
      div-add-mod k n,
      div-add-mod p n,
      e,
      mul-le-mul_left n (quotients (lt_of_mul-lt-mul_left n products)),
      mul-suc n (k / n),
    ))
  where
    products : n * (k / n) < n * (p / n)
    products = omega (arith, div-add-mod k n, div-add-mod p n, e)

    quotients : k / n < p / n → suc (k / n) ≤ p / n
    quotients h = omega arith

module _ {ℓ} {A : Type ℓ} where
  window-write :
      (slots : ℕ → A) (size c n p : ℕ) (a : A)
      → c + n ≤ p
      → p < c + size
      → window (write slots (p % size) a) size c n ≡ window slots size c n
  window-write slots size c zero p a h lt = refl
  window-write slots size c (suc n) p a h lt =
      ap₂ ◌∷◌ (rw (==-ne (c % size) (p % size) (slots_differ size c p (omega arith) (omega arith))))
        (window-write slots size (c + 1) n p a (omega arith) (omega arith))

  window-snoc :
      (slots : ℕ → A) (size c n : ℕ)
      → window slots size c (suc n) ≡ window slots size c n ++ (slots ((c + n) % size) ∷ [])
  window-snoc slots size c zero = ap (λ k. slots (k % size) ∷ []) {x = c} (omega arith)
  window-snoc slots size c (suc n) = ap (◌∷◌ (slots (c % size))) (
      window-snoc slots size (c + 1) n
      ∙ ap (λ k. window slots size (c + 1) n ++ (slots (k % size) ∷ [])) {x = c + 1 + n}
          (omega arith))

  -- Room in the ring: `Push` hands out a slot, and once the block is written to it, it is the last
  -- one of the queue; what the consumer has not consumed is untouched, and the ring stays sound.
  pub push-queue :
      (r : RingBuffer A) (slots : ℕ → A) (a : A)
      → IsRing r
      → r.produced < r.consumed + r.size
      → r.produced + 1 < 2 ^ 63
      → (push r).1 ≡ some (r.produced % r.size)
        × IsRing (push r).0
        × (queue (write slots (r.produced % r.size) a) (push r).0 ≡ queue slots r ++ (a ∷ []))
  unfolding push is_full
  push-queue r slots a h room fits = rw not_full (
    refl,
    record {
      size_pos = h.size_pos;
      size_fits = h.size_fits;
      ordered = omega (arith, h.ordered);
      bounded = omega (arith, h.bounded, room);
      no_wrap = omega (arith, fits);
      consuming = λ e. omega (arith, h.ordered);
    },
    ap (window (write slots (r.produced % r.size) a) r.size r.consumed)
          {x = (r.produced + 1) % 2 ^ 64 - r.consumed} {y = suc (r.produced - r.consumed)}
          (omega (arith, h.ordered))
        ∙ window-snoc (write slots (r.produced % r.size) a) r.size r.consumed
            (r.produced - r.consumed)
        ∙ ap₂ (λ q (b : A). q ++ (b ∷ []))
            (window-write slots r.size r.consumed (r.produced - r.consumed) r.produced a
              (omega (arith, h.ordered)) room)
            written,
  )
    where
      not_full : (sub64 r.produced r.consumed == r.size) ≡ false
      not_full = ground (arith, h.ordered, h.size_fits, h.no_wrap)

      written :
          write slots (r.produced % r.size) a ((r.consumed + (r.produced - r.consumed)) % r.size)
          ≡ a
      written =
          ap (λ k. write slots (r.produced % r.size) a (k % r.size))
            {x = r.consumed + (r.produced - r.consumed)} {y = r.produced} (omega (arith, h.ordered))
          ∙ rw (==-refl (r.produced % r.size)) refl

  -- A full ring: `Push` hands out no slot and changes nothing.
  pub push-full :
      (r : RingBuffer A) → IsRing r → r.produced ≡ r.consumed + r.size → push r ≡ (r, none)
  unfolding push is_full
  push-full r h full = rw is_full_eq refl
    where
      is_full_eq : (sub64 r.produced r.consumed == r.size) ≡ true
      is_full_eq = ground (arith, h.ordered, h.size_fits, h.no_wrap)

  pull_from-queue :
      (r : RingBuffer A) (slots : ℕ → A) (c : ℕ)
      → IsRing r
      → r.consumed ≤ c
      → c ≤ r.produced
      → (q : List A) → q ≡ window slots r.size c (r.produced - c)
      → IsRing (pull_from c r).0
        × (queue slots (pull_from c r).0 ≡ q)
        × (at slots (pull_from c r).1 ≡ first q)
  unfolding pull_from
  pull_from-queue r slots c h le ge q e = elim (Bool-cases (sub64 r.produced c == 0)) [
    | inl t ↦ rw t (
      record {
        size_pos = h.size_pos;
        size_fits = h.size_fits;
        ordered = ge;
        bounded = omega (arith, h.bounded);
        no_wrap = h.no_wrap;
        consuming = λ x. absurd (cc);
      },
      sym e,
      sym (ap first (e ∙ ap (window slots r.size c) {y = 0} (ground (arith, h.no_wrap, t)))),
    )
    | inr t ↦ rw t (
      record {
        size_pos = h.size_pos;
        size_fits = h.size_fits;
        ordered = ge;
        bounded = omega (arith, h.bounded);
        no_wrap = h.no_wrap;
        consuming = λ x. ground (arith, h.no_wrap, t);
      },
      sym e,
      sym (
          ap first (
            e
            ∙ ap (window slots r.size c) {y = suc (r.produced - (c + 1))}
                (ground (arith, h.no_wrap, t)))),
    )
  ]

  -- `Pull` first drops the block that it handed out before, if there is one. Then it hands out the
  -- slot of the oldest block that is left, which stays in the queue while it is consumed, or none if
  -- there is none; the ring stays sound.
  pub pull-queue :
      (r : RingBuffer A) (slots : ℕ → A)
      → IsRing r
      → IsRing (pull r).0
        × (queue slots (pull r).0 ≡ finished r (queue slots r))
        × (at slots (pull r).1 ≡ first (finished r (queue slots r)))
  unfolding pull
  pull-queue r slots h = elim (Bool-cases r.consume_done) [
    | inl t ↦ rw t (
        pull_from-queue r slots ((r.consumed + 1) % 2 ^ 64) h
          (omega (arith, h.consuming t, h.no_wrap)) (omega (arith, h.consuming t, h.no_wrap)) _
          (dropped (h.consuming t)))
    | inr t ↦ rw t (pull_from-queue r slots r.consumed h (omega arith) h.ordered _ refl)
  ]
    where
      dropped :
          r.consumed < r.produced
          → drop 1 (queue slots r)
            ≡ window slots r.size
                ((r.consumed + 1) % 2 ^ 64)
                (r.produced - (r.consumed + 1) % 2 ^ 64)
      dropped lt =
          ap (λ n. drop 1 (window slots r.size r.consumed n))
            {y = suc (r.produced - (r.consumed + 1))} (omega (arith, lt))
          ∙ ap (λ c. window slots r.size c (r.produced - c)) {x = r.consumed + 1}
              (omega (arith, lt, h.no_wrap))
