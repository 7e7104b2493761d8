-- ===== src/Classifier/Short.antt =====
-- What the classifier (src/ident/MatchFuzzyClassifier.cpp) makes of a match that has just begun.
use audioneex.Prelude.{◌≡◌, refl, arith, false, ◌⊎◌, inl, inr}
use audioneex.Classifier.{
  DoubleOps, Mode, Classifier, Label, number, nought, unit, falling, triangle, rising, strengths,
  max_element, max_position, min_of, process, set_mode,
}
use audioneex.Classifier.Settled.{
  Numbers, nought-unit, nought-AtMost, irr, falling-unit, falling-nought, triangle-below,
  triangle-above, rising-nought, rising-unit, below, up_to, from,
}

module _ {D : Type 0} (o : DoubleOps D) (num : Numbers o) where
  -- Where the time is short alone, and the confidence low alone or high alone.
  short_class :
      (c : Classifier D) (hu dt : D)
      → ((falling o c.conf.low hu ≡ unit o) × (rising o c.conf.high hu ≡ nought o))
        ⊎ ((falling o c.conf.low hu ≡ nought o) × (rising o c.conf.high hu ≡ unit o))
      → triangle o c.conf.med hu ≡ nought o
      → falling o c.cdur.low dt ≡ unit o
      → triangle o c.cdur.med dt ≡ nought o
      → rising o c.cdur.high dt ≡ nought o
      → process o c hu dt ≡ number o Label.listening
  unfolding process strengths max_element max_position min_of
  short_class c hu dt (inl (low, high)) med short mid long =
      simp (low, high, med, short, mid, long, irr o num, nought-unit o num, nought-AtMost o num)
  short_class c hu dt (inr (low, high)) med short mid long =
      simp (low, high, med, short, mid, long, irr o num, nought-unit o num, nought-AtMost o num)

  confidence :
      (mode : Mode) (c : Classifier D) (hu : D)
      → (o.less (o.decimal 55 2) hu ≡ false) ⊎ (o.less hu (o.decimal 95 2) ≡ false)
      → let m = set_mode o mode c in
        (((falling o m.conf.low hu ≡ unit o) × (rising o m.conf.high hu ≡ nought o))
          ⊎ ((falling o m.conf.low hu ≡ nought o) × (rising o m.conf.high hu ≡ unit o)))
        × (triangle o m.conf.med hu ≡ nought o)
  unfolding set_mode
  confidence Mode.strict_identification c hu (inl h) = (
    inl (
      falling-unit o num _ hu h,
      rising-nought o num _ hu (below o num 875 3 95 2 (omega arith) (omega arith) refl)
          (up_to o num hu 55 2 875 3 (omega arith) (omega arith) refl h),
    ),
    triangle-below o num _ hu (below o num 60 2 70 2 (omega arith) (omega arith) refl)
        (up_to o num hu 55 2 60 2 (omega arith) (omega arith) refl h),
  )
  confidence Mode.strict_identification c hu (inr h) = (
    inr (
      falling-nought o num _ hu (below o num 55 2 65 2 (omega arith) (omega arith) refl)
          (from o num hu 95 2 65 2 (omega arith) (omega arith) refl h),
      rising-unit o num _ hu h,
    ),
    triangle-above o num _ hu (below o num 70 2 92 2 (omega arith) (omega arith) refl)
        (from o num hu 95 2 92 2 (omega arith) (omega arith) refl h),
  )
  confidence Mode.easy_identification c hu (inl h) = (
    inl (
      falling-unit o num _ hu h,
      rising-nought o num _ hu (below o num 75 2 90 2 (omega arith) (omega arith) refl)
          (up_to o num hu 55 2 75 2 (omega arith) (omega arith) refl h),
    ),
    triangle-below o num _ hu (below o num 60 2 70 2 (omega arith) (omega arith) refl)
        (up_to o num hu 55 2 60 2 (omega arith) (omega arith) refl h),
  )
  confidence Mode.easy_identification c hu (inr h) = (
    inr (
      falling-nought o num _ hu (below o num 55 2 65 2 (omega arith) (omega arith) refl)
          (from o num hu 95 2 65 2 (omega arith) (omega arith) refl h),
      rising-unit o num _ hu (from o num hu 95 2 90 2 (omega arith) (omega arith) refl h),
    ),
    triangle-above o num _ hu (below o num 70 2 80 2 (omega arith) (omega arith) refl)
        (from o num hu 95 2 80 2 (omega arith) (omega arith) refl h),
  )

  short_time :
      (mode : Mode) (c : Classifier D) (dt : D)
      → o.less (o.decimal 15 1) dt ≡ false
      → let m = set_mode o mode c in
        (falling o m.cdur.low dt ≡ unit o)
        × (triangle o m.cdur.med dt ≡ nought o)
        × (rising o m.cdur.high dt ≡ nought o)
  unfolding set_mode
  short_time Mode.strict_identification c dt h = (
    falling-unit o num _ dt (up_to o num dt 15 1 2 0 (omega arith) (omega arith) refl h),
    triangle-below o num _ dt (below o num 28 1 12 0 (omega arith) (omega arith) refl)
        (up_to o num dt 15 1 28 1 (omega arith) (omega arith) refl h),
    rising-nought o num _ dt (below o num 15 0 20 0 (omega arith) (omega arith) refl)
        (up_to o num dt 15 1 15 0 (omega arith) (omega arith) refl h),
  )
  short_time Mode.easy_identification c dt h = (
    falling-unit o num _ dt h,
    triangle-below o num _ dt (below o num 2 0 10 0 (omega arith) (omega arith) refl)
        (up_to o num dt 15 1 2 0 (omega arith) (omega arith) refl h),
    rising-nought o num _ dt (below o num 175 1 20 0 (omega arith) (omega arith) refl)
        (up_to o num dt 15 1 175 1 (omega arith) (omega arith) refl h),
  )

  -- In both modes, a match that lasted 1.5 seconds or less, of confidence 0.55 or less or 0.95 or more,
  -- is LISTENING.
  pub process-short :
      (mode : Mode) (c : Classifier D) (hu dt : D)
      → o.less (o.decimal 15 1) dt ≡ false
      → (o.less (o.decimal 55 2) hu ≡ false) ⊎ (o.less hu (o.decimal 95 2) ≡ false)
      → process o (set_mode o mode c) hu dt ≡ number o Label.listening
  process-short mode c hu dt short h =
      let (ends, med) = confidence mode c hu h in
      let (low, mid, long) = short_time mode c dt short in
      short_class (set_mode o mode c) hu dt ends med low mid long
