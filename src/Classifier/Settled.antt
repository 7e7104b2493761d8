-- ===== src/Classifier/Settled.antt =====
-- The class of a long match whose confidence is low or high, with the cut points of either mode.
use audioneex.Prelude.{
  ℕ, zero, suc, ◌*◌, ◌^◌, ◌≤◌, ◌≡◌, refl, ◌∙◌, List, [], ◌∷◌, arith, true, false, Bool-cases, inl,
  inr, All, ltb,
}
use audioneex.Classifier.{
  DoubleOps, Classifier, Triple, Label, Mode, number, strengths, process, set_mode, max_position,
  max_element, max_of, min_of, falling, triangle, rising, nought, unit, zeros,
}

-- What the code relies on of `<` on numbers that are not NaN: the negation of it is transitive.
pub record Ordered {D : Type 0} (o : DoubleOps D) : Type 0 where
  pub irreflexive : (a : D) → o.less a a ≡ false
  pub not_less_trans : (a b c : D) → o.less a b ≡ false → o.less b c ≡ false → o.less a c ≡ false
  pub less_asym : (a b : D) → o.less a b ≡ true → o.less b a ≡ false

-- What the code relies on of its constants, and of the quotient of two differences.
pub record Numbers {D : Type 0} (o : DoubleOps D) : Type 0 where
  pub ordered : Ordered o
  pub decimal_less :
      (m j n k : ℕ)
      → j ≤ 3
      → k ≤ 3
      → o.less (o.decimal m j) (o.decimal n k) ≡ ltb (m * 10 ^ k) (n * 10 ^ j)
  pub ratio :
      (a b c d : D)
      → o.less b a ≡ false
      → o.less d c ≡ true
      → o.less (o.decimal 0 0) (o.div (o.sub a b) (o.sub c d)) ≡ false

module _ {D : Type 0} (o : DoubleOps D) (num : Numbers o) where
  abbrev pub AtMost : D → D → Type 0
  AtMost a b = o.less b a ≡ false

  trans : (a b c : D) → AtMost a b → AtMost b c → AtMost a c
  trans a b c h k = num.ordered.not_less_trans c b a k h

  less_of_AtMost : (a b c : D) → AtMost a b → o.less b c ≡ true → o.less a c ≡ true
  less_of_AtMost a b c h k = elim (Bool-cases (o.less a c)) [
    | inl t ↦ t
    | inr t ↦ absurd (let e = trans c a b t h in cc)
  ]

  max_of-nought : (x : D) → AtMost x (nought o) → max_of o (nought o) x ≡ nought o
  unfolding max_of
  max_of-nought x h = rw h refl

  min_of-AtMost : (a b u : D) → AtMost a u → AtMost (min_of o a b) u
  unfolding min_of
  min_of-AtMost a b u h = elim (Bool-cases (o.less b a)) [
    | inl t ↦ rw t (trans b a u (num.ordered.less_asym b a t) h)
    | inr t ↦ rw t h
  ]

  max_element-AtMost :
      (u best : D) (xs : List D)
      → AtMost best u
      → All (λ x. AtMost x u) xs
      → AtMost (max_element o best xs) u
  unfolding max_element
  max_element-AtMost u best [] h k = h
  max_element-AtMost u best (x ∷ xs) h k = elim (Bool-cases (o.less best x)) [
    | inl t ↦ rw t (max_element-AtMost u x xs k.0 k.1)
    | inr t ↦ rw t (max_element-AtMost u best xs h k.1)
  ]

  pub nought-unit : o.less (nought o) (unit o) ≡ true
  nought-unit = num.decimal_less 0 0 1 0 (omega arith) (omega arith)

  pub nought-AtMost : AtMost (nought o) (unit o)
  nought-AtMost = num.ordered.less_asym (nought o) (unit o) nought-unit

  pub falling-unit : (u : Triple D) (v : D) → AtMost v u.x2 → falling o u v ≡ unit o
  unfolding falling
  falling-unit u v h = rw h refl

  pub falling-nought :
      (u : Triple D) (v : D) → o.less u.x2 u.x3 ≡ true → AtMost u.x3 v → falling o u v ≡ nought o
  unfolding falling
  falling-nought u v h k = elim (Bool-cases (o.less u.x2 v)) [
    | inl t ↦ rw t (max_of-nought _ (num.ratio u.x3 v u.x3 u.x2 k h))
    | inr t ↦ absurd (let e = trans u.x3 v u.x2 k t in cc)
  ]

  pub triangle-below :
      (u : Triple D) (v : D) → o.less u.x1 u.x2 ≡ true → AtMost v u.x1 → triangle o u v ≡ nought o
  unfolding triangle
  triangle-below u v h k =
      rw (trans v u.x1 u.x2 k (num.ordered.less_asym u.x1 u.x2 h))
        (max_of-nought _ (num.ratio v u.x1 u.x2 u.x1 k h))

  pub triangle-above :
      (u : Triple D) (v : D) → o.less u.x2 u.x3 ≡ true → AtMost u.x3 v → triangle o u v ≡ nought o
  unfolding triangle
  triangle-above u v h k = elim (Bool-cases (o.less u.x2 v)) [
    | inl t ↦ rw t (max_of-nought _ (num.ratio u.x3 v u.x3 u.x2 k h))
    | inr t ↦ absurd (let e = trans u.x3 v u.x2 k t in cc)
  ]

  pub rising-unit : (u : Triple D) (v : D) → AtMost u.x2 v → rising o u v ≡ unit o
  unfolding rising
  rising-unit u v h = rw h refl

  pub rising-nought :
      (u : Triple D) (v : D) → o.less u.x1 u.x2 ≡ true → AtMost v u.x1 → rising o u v ≡ nought o
  unfolding rising
  rising-nought u v h k =
      rw (less_of_AtMost v u.x1 u.x2 k h) (max_of-nought _ (num.ratio v u.x1 u.x2 u.x1 k h))

  pub irr : (a : D) → o.less a a ≡ false
  irr = num.ordered.irreflexive

  zeros-AtMost : (n : ℕ) → All (λ x. AtMost x (unit o)) (zeros o n)
  zeros-AtMost zero = tt
  zeros-AtMost (suc n) = (nought-AtMost, zeros-AtMost n)

  max_element-zeros : (n : ℕ) (x : D) → AtMost (nought o) x → max_element o x (zeros o n) ≡ x
  unfolding max_element
  max_element-zeros zero x h = refl
  max_element-zeros (suc n) x h = rw (max_element, h) (max_element-zeros n x h)

  min_of-nought : min_of o (nought o) (unit o) ≡ nought o
  unfolding min_of
  min_of-nought = rw nought-AtMost refl

  min_of-unit : min_of o (unit o) (unit o) ≡ unit o
  unfolding min_of
  min_of-unit = rw (irr (unit o)) refl

  position_first :
      (b x y z : D)
      → AtMost x b
      → AtMost y b
      → AtMost z b
      → max_position o 0 1 b (x ∷ y ∷ z ∷ []) ≡ 0
  unfolding max_position
  position_first b x y z h k l = rw (h, k, l) refl

  position_third :
      (b x y z : D)
      → AtMost x b
      → o.less b y ≡ true
      → AtMost z y
      → max_position o 0 1 b (x ∷ y ∷ z ∷ []) ≡ 2
  unfolding max_position
  position_third b x y z h k l = rw (h, k, l) refl

  listening-AtMost :
      (c : Classifier D) (hu dt : D)
      → AtMost (falling o c.conf.low hu) (unit o)
      → AtMost (triangle o c.conf.med hu) (unit o)
      → AtMost (rising o c.conf.high hu) (unit o)
      → AtMost (strengths o c hu dt Label.listening) (unit o)
  unfolding strengths
  listening-AtMost c hu dt l m h =
      let short = falling o c.cdur.low dt in
      let med = triangle o c.cdur.med dt in
      max_element-AtMost (unit o) (min_of o (rising o c.conf.high hu) short)
        (min_of o (triangle o c.conf.med hu) short
          ∷ min_of o (triangle o c.conf.med hu) med
          ∷ min_of o (falling o c.conf.low hu) short
          ∷ min_of o (falling o c.conf.low hu) med
          ∷ zeros o 4)
        (min_of-AtMost _ _ (unit o) h)
        (
          min_of-AtMost _ _ (unit o) m,
          (
            min_of-AtMost _ _ (unit o) m,
            (min_of-AtMost _ _ (unit o) l, (min_of-AtMost _ _ (unit o) l, zeros-AtMost 4)),
          ),
        )

  unidentified_is :
      (c : Classifier D) (hu dt : D) {a : D}
      → falling o c.conf.low hu ≡ a
      → rising o c.cdur.high dt ≡ unit o
      → min_of o a (unit o) ≡ a
      → AtMost (nought o) a
      → strengths o c hu dt Label.unidentified ≡ a
  unfolding strengths
  unidentified_is c hu dt {a} l d e h = rw (l, d, e) (max_element-zeros 8 a h)

  unit_second : (t : D) → max_element o (min_of o (unit o) t) (unit o ∷ zeros o 7) ≡ unit o
  unfolding max_element min_of
  unit_second t = elim (Bool-cases (o.less t (unit o))) [
    | inl e ↦ rw (e, e) (max_element-zeros 7 (unit o) nought-AtMost)
    | inr e ↦ rw (e, irr (unit o)) (max_element-zeros 7 (unit o) nought-AtMost)
  ]

  identified_is :
      (c : Classifier D) (hu dt : D)
      → rising o c.conf.high hu ≡ unit o
      → rising o c.cdur.high dt ≡ unit o
      → strengths o c hu dt Label.identified ≡ unit o
  unfolding strengths
  identified_is c hu dt h d = rw (h, d, min_of-unit) (unit_second (triangle o c.cdur.med dt))

  identified-AtMost :
      (c : Classifier D) (hu dt : D)
      → AtMost (rising o c.conf.high hu) (unit o)
      → AtMost (strengths o c hu dt Label.identified) (unit o)
  unfolding strengths
  identified-AtMost c hu dt h =
      max_element-AtMost (unit o) (min_of o (rising o c.conf.high hu) (triangle o c.cdur.med dt))
        (min_of o (rising o c.conf.high hu) (rising o c.cdur.high dt) ∷ zeros o 7)
        (min_of-AtMost _ _ (unit o) h) (min_of-AtMost _ _ (unit o) h, zeros-AtMost 7)

  sounds_like_is :
      (c : Classifier D) (hu dt : D)
      → triangle o c.conf.med hu ≡ nought o
      → rising o c.cdur.high dt ≡ unit o
      → strengths o c hu dt Label.sounds_like ≡ nought o
  unfolding strengths
  sounds_like_is c hu dt m d =
      rw (m, d, min_of-nought) (max_element-zeros 8 (nought o) (irr (nought o)))

  low_class :
      (c : Classifier D) (hu dt : D)
      → falling o c.conf.low hu ≡ unit o
      → triangle o c.conf.med hu ≡ nought o
      → rising o c.conf.high hu ≡ nought o
      → rising o c.cdur.high dt ≡ unit o
      → process o c hu dt ≡ number o Label.unidentified
  unfolding process
  low_class c hu dt l m h d =
      rw (unidentified_is c hu dt l d min_of-unit nought-AtMost, sounds_like_is c hu dt m d)
        (position_first (unit o) (nought o) _ _ nought-AtMost
          (identified-AtMost c hu dt (rw h nought-AtMost))
          (listening-AtMost c hu dt (rw l (irr (unit o))) (rw m nought-AtMost)
            (rw h nought-AtMost)))

  high_class :
      (c : Classifier D) (hu dt : D)
      → falling o c.conf.low hu ≡ nought o
      → triangle o c.conf.med hu ≡ nought o
      → rising o c.conf.high hu ≡ unit o
      → rising o c.cdur.high dt ≡ unit o
      → process o c hu dt ≡ number o Label.identified
  unfolding process
  high_class c hu dt l m h d =
      rw
        (
          unidentified_is c hu dt l d min_of-nought (irr (nought o)),
          sounds_like_is c hu dt m d,
          identified_is c hu dt h d,
        )
        (position_third (nought o) (nought o) (unit o) _ (irr (nought o)) nought-unit (
          listening-AtMost c hu dt (rw l nought-AtMost) (rw m nought-AtMost) (rw h (irr (unit o)))))

  -- A constant against another, and against a value on the other side of a third.
  pub below :
      (m j n k : ℕ)
      → j ≤ 3
      → k ≤ 3
      → ltb (m * 10 ^ k) (n * 10 ^ j) ≡ true
      → o.less (o.decimal m j) (o.decimal n k) ≡ true
  below m j n k a b e = num.decimal_less m j n k a b ∙ e

  pub up_to :
      (v : D) (m j n k : ℕ)
      → j ≤ 3
      → k ≤ 3
      → ltb (n * 10 ^ j) (m * 10 ^ k) ≡ false
      → AtMost v (o.decimal m j)
      → AtMost v (o.decimal n k)
  up_to v m j n k a b e h =
      trans v (o.decimal m j) (o.decimal n k) h (num.decimal_less n k m j b a ∙ e)

  pub from :
      (v : D) (m j n k : ℕ)
      → j ≤ 3
      → k ≤ 3
      → ltb (m * 10 ^ k) (n * 10 ^ j) ≡ false
      → AtMost (o.decimal m j) v
      → AtMost (o.decimal n k) v
  from v m j n k a b e h =
      trans (o.decimal n k) (o.decimal m j) v (num.decimal_less m j n k a b ∙ e) h

  -- In both modes, a match of confidence 0.55 or less that lasted 20 seconds or more is UNIDENTIFIED.
  pub process-low :
      (mode : Mode) (c : Classifier D) (hu dt : D)
      → o.less dt (o.decimal 20 0) ≡ false
      → o.less (o.decimal 55 2) hu ≡ false
      → process o (set_mode o mode c) hu dt ≡ number o Label.unidentified
  unfolding set_mode
  process-low Mode.strict_identification c hu dt long h =
      low_class (set_mode o Mode.strict_identification c) hu dt (falling-unit _ hu h)
        (triangle-below _ hu (below 60 2 70 2 (omega arith) (omega arith) refl)
          (up_to hu 55 2 60 2 (omega arith) (omega arith) refl h))
        (rising-nought _ hu (below 875 3 95 2 (omega arith) (omega arith) refl)
          (up_to hu 55 2 875 3 (omega arith) (omega arith) refl h))
        (rising-unit _ dt long)
  process-low Mode.easy_identification c hu dt long h =
      low_class (set_mode o Mode.easy_identification c) hu dt (falling-unit _ hu h)
        (triangle-below _ hu (below 60 2 70 2 (omega arith) (omega arith) refl)
          (up_to hu 55 2 60 2 (omega arith) (omega arith) refl h))
        (rising-nought _ hu (below 75 2 90 2 (omega arith) (omega arith) refl)
          (up_to hu 55 2 75 2 (omega arith) (omega arith) refl h))
        (rising-unit _ dt long)

  -- In both modes, a match of confidence 0.95 or more that lasted 20 seconds or more is IDENTIFIED.
  pub process-high :
      (mode : Mode) (c : Classifier D) (hu dt : D)
      → o.less dt (o.decimal 20 0) ≡ false
      → o.less hu (o.decimal 95 2) ≡ false
      → process o (set_mode o mode c) hu dt ≡ number o Label.identified
  unfolding set_mode
  process-high Mode.strict_identification c hu dt long h =
      high_class (set_mode o Mode.strict_identification c) hu dt
        (falling-nought _ hu (below 55 2 65 2 (omega arith) (omega arith) refl)
          (from hu 95 2 65 2 (omega arith) (omega arith) refl h))
        (triangle-above _ hu (below 70 2 92 2 (omega arith) (omega arith) refl)
          (from hu 95 2 92 2 (omega arith) (omega arith) refl h))
        (rising-unit _ hu h) (rising-unit _ dt long)
  process-high Mode.easy_identification c hu dt long h =
      high_class (set_mode o Mode.easy_identification c) hu dt
        (falling-nought _ hu (below 55 2 65 2 (omega arith) (omega arith) refl)
          (from hu 95 2 65 2 (omega arith) (omega arith) refl h))
        (triangle-above _ hu (below 70 2 80 2 (omega arith) (omega arith) refl)
          (from hu 95 2 80 2 (omega arith) (omega arith) refl h))
        (rising-unit _ hu (from hu 95 2 90 2 (omega arith) (omega arith) refl h))
        (rising-unit _ dt long)
