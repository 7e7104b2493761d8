-- ===== src/AudioBlock/Samples.antt =====
-- The available samples of a block, and what the operations of AudioBlock.antt make of them.
use audioneex.Prelude.{
  ℕ, zero, suc, ◌+◌, ◌-◌, ◌^◌, ◌≤◌, ◌<◌, ◌≡◌, refl, sym, ap, ◌∙◌, List, [], ◌∷◌, ◌++◌, arith,
  append_assoc, append-nil, true, false, ◌==◌, Bool-cases, inl, inr, ltb, leb, if◌then◌else◌, some,
  ok, length, take, drop, length-append, sub64, take-append,
}
use mathlib.Core.Path.{subst}
use audioneex.AudioBlock.{
  AudioBlock, FloatOps, seconds, read, copy_to, data_of, resize, do_append, append_data,
}

-- A block that is not null, has `samples` in a buffer of its capacity, and says how long they are.
pub record Has {F A : Type 0} (f : FloatOps F) (b : AudioBlock F A) (samples : List A)
    : Type 0 where
  pub behind : List A
  pub data_is : b.samples ≡ some (samples ++ behind)
  pub capacity_is : length (samples ++ behind) ≡ b.capacity
  pub size_is : length samples ≡ b.size
  pub duration_is : b.duration ≡ seconds f b.size b.channels b.sample_rate

pub take-length : {A : Type 0} (xs : List A) → take (length xs) xs ≡ xs
take-length [] = refl
take-length (x ∷ xs) = ap (◌∷◌ x) (take-length xs)

pub length-take : {A : Type 0} (n : ℕ) (xs : List A) → n ≤ length xs → length (take n xs) ≡ n
length-take zero xs h = refl
length-take (suc n) [] h = absurd (omega arith)
length-take (suc n) (x ∷ xs) h = ap suc (length-take n xs (omega arith))

pub length-drop : {A : Type 0} (n : ℕ) (xs : List A) → length (drop n xs) ≡ length xs - n
length-drop zero xs = omega arith
length-drop (suc n) [] = omega arith
length-drop (suc n) (x ∷ xs) = length-drop n xs ∙ omega arith

take-drop : {A : Type 0} (n : ℕ) (xs : List A) → take n xs ++ drop n xs ≡ xs
take-drop zero xs = refl
take-drop (suc n) [] = refl
take-drop (suc n) (x ∷ xs) = ap (◌∷◌ x) (take-drop n xs)

take-take : {A : Type 0} (n : ℕ) (xs ys : List A) → n ≤ length xs → take n (xs ++ ys) ≡ take n xs
take-take zero xs ys h = refl
take-take (suc n) [] ys h = absurd (omega arith)
take-take (suc n) (x ∷ xs) ys h = ap (◌∷◌ x) (take-take n xs ys (omega arith))

drop-drop_add : {A : Type 0} (n : ℕ) (xs ys : List A) → drop (length xs + n) (xs ++ ys) ≡ drop n ys
drop-drop_add n [] ys = ap (λ k. drop k ys) {x = 0 + n} (omega arith)
drop-drop_add n (x ∷ xs) ys =
    ap (λ k. drop k (x ∷ (xs ++ ys))) {x = suc (length xs) + n} {y = suc (length xs + n)}
      (omega arith)
    ∙ drop-drop_add n xs ys

-- A copy behind `xs`.
pub copy_to-append :
    {A : Type 0} (new xs behind : List A)
    → length new ≤ length behind
    → copy_to new (length xs) (xs ++ behind) ≡ ok (xs ++ (new ++ drop (length new) behind))
unfolding copy_to
copy_to-append new xs behind h =
    rw (fits, take-append xs behind (length xs) refl, drop-drop_add (length new) xs behind) refl
  where
    fits : leb (length xs + length new) (length (xs ++ behind)) ≡ true
    fits = ground (arith, length-append xs behind)

take-nil : {A : Type 0} (n : ℕ) → take {A = A} n [] ≡ []
take-nil zero = refl
take-nil (suc n) = refl

pub take-all : {A : Type 0} (n : ℕ) (xs : List A) → length xs ≤ n → take n xs ≡ xs
take-all n [] h = take-nil n
take-all zero (x ∷ xs) h = absurd (omega arith)
take-all (suc n) (x ∷ xs) h = ap (◌∷◌ x) (take-all n xs (omega arith))

module _ {F A : Type 0} (f : FloatOps F) where
  -- `Resize` to the first samples of the buffer.
  resize-Has :
      (b : AudioBlock F A) (xs rest : List A) (n : ℕ)
      → length (xs ++ rest) ≡ b.capacity
      → n ≡ length xs
      → Has f (resize f n (record b { samples = some (xs ++ rest) })) xs
  unfolding resize
  resize-Has b xs rest n cap e = rw fits (record {
    behind = rest;
    data_is = refl;
    capacity_is = cap;
    size_is = sym e;
    duration_is = refl;
  })
    where
      fits : ltb b.capacity n ≡ false
      fits = ground (arith, length-append xs rest)

  do_append-Has :
      (b : AudioBlock F A) (xs new : List A) (k : ℕ) (h : Has f b xs)
      → (if leb (length new) (sub64 b.capacity b.size) then length new else sub64 b.capacity b.size)
        ≡ k
      → (sub64 b.capacity b.size == 0) ≡ false
      → k ≤ length new
      → k ≤ length h.behind
      → (b' : AudioBlock F A) × (do_append f new (length new) b ≡ ok b')
        × Has f b' (xs ++ take k new)
  unfolding do_append data_of read
  do_append-Has b xs new k h e room le fits = (
    _,
    rw (room, e, readable, h.data_is, sym h.size_is, copied) refl,
    resize-Has b (xs ++ take k new) (drop (length (take k new)) h.behind) (length xs + k) cap
        (omega (arith, length-append xs (take k new), size)),
  )
    where
      size : length (take k new) ≡ k
      size = length-take k new le

      readable : leb k (length new) ≡ true
      readable = ground arith

      copied :
          copy_to (take k new) (length xs) (xs ++ h.behind)
          ≡ ok ((xs ++ take k new) ++ drop (length (take k new)) h.behind)
      copied =
          copy_to-append (take k new) xs h.behind (omega (arith, size, fits))
          ∙ ap ok (sym (append_assoc xs (take k new) (drop (length (take k new)) h.behind)))

      cap : length ((xs ++ take k new) ++ drop (length (take k new)) h.behind) ≡ b.capacity
      cap = omega (
        arith,
        h.capacity_is,
        length-append xs h.behind,
        length-append (xs ++ take k new) (drop (length (take k new)) h.behind),
        length-append xs (take k new),
        length-drop (length (take k new)) h.behind,
        size,
        fits,
      )

  do_append-full :
      (b : AudioBlock F A) (new : List A)
      → (sub64 b.capacity b.size == 0) ≡ true
      → do_append f new (length new) b ≡ ok b
  unfolding do_append
  do_append-full b new full = rw full refl

  -- `Append` puts the given samples behind the available ones, as far as the capacity goes; the rest
  -- is cut off. The block stays well formed, and its size and duration are those of what it holds.
  pub append_data-Has :
      (b : AudioBlock F A) (xs new : List A)
      → Has f b xs
      → b.capacity < 2 ^ 64
      → (b' : AudioBlock F A) × (append_data f (some new) (length new) b ≡ ok b')
        × Has f b' (xs ++ take (b.capacity - b.size) new)
  unfolding append_data
  append_data-Has b xs [] h fits = (
    b,
    refl,
    subst (Has f b) (sym (ap (λ l. xs ++ l) (take-nil (b.capacity - b.size)) ∙ append-nil xs)) h,
  )
  append_data-Has b xs (x ∷ new) h fits =
      rw some_new (elim (Bool-cases (sub64 b.capacity b.size == 0)) [
        | inl full ↦ (
          b,
          do_append-full b (x ∷ new) full,
          subst (Has f b)
              (sym (append-nil xs)
                ∙ ap (λ n. xs ++ take n (x ∷ new)) {x = 0} (ground (arith, room, full)))
              h,
        )
        | inr t ↦ elim (Bool-cases (leb (length (x ∷ new)) (sub64 b.capacity b.size))) [
          | inl all ↦
              let (b', e, has) =
                do_append-Has b xs (x ∷ new) (length (x ∷ new)) h (rw all refl) t (omega arith)
                  (ground (arith, room, all)) in
              (
                b',
                e,
                subst (λ l. Has f b' (xs ++ l))
                    (take-all (length (x ∷ new)) (x ∷ new) (omega arith)
                      ∙ sym (take-all (b.capacity - b.size) (x ∷ new) (ground (arith, room, all))))
                    has,
              )
          | inr cut ↦
              let (b', e, has) =
                do_append-Has b xs (x ∷ new) (b.capacity - b.size) h (rw cut (omega (arith, room)))
                  t (ground (arith, room, cut)) (omega (arith, room)) in
              (b', e, has)
        ]
      ])
    where
      some_new : (length (x ∷ new) == 0) ≡ false
      some_new = ground arith

      room : (b.capacity ≡ b.size + length h.behind)
      room = omega (arith, h.capacity_is, h.size_is, length-append xs h.behind)
