-- ===== src/Classifier.antt =====
-- MatchFuzzyClassifier (src/ident/MatchFuzzyClassifier.h, src/ident/MatchFuzzyClassifier.cpp): the class
-- of a match, from its mean confidence and the time that it has lasted.
pub mod Settled
pub mod Short
use audioneex.Prelude.{
  ℕ, zero, suc, ◌+◌, List, [], ◌∷◌, Bool, true, false, if◌then◌else◌, Option, none, some,
}

-- The arithmetic of `double`. `decimal n k` is the constant n / 10^k.
pub record DoubleOps (D : Type 0) : Type 0 where
  pub decimal : ℕ → ℕ → D
  pub sub : D → D → D
  pub div : D → D → D
  pub less : D → D → Bool

pub data Mode : Type 0 where
  strict_identification easy_identification : Mode

-- The output labels, in the order of their numbers 0 to 3.
pub data Label : Type 0 where
  unidentified sounds_like identified listening : Label

pub record Triple (D : Type 0) : Type 0 where
  pub x1 : D
  pub x2 : D
  pub x3 : D

-- The array ux: the fuzzy values of a variable, low or short first.
pub record Sets (D : Type 0) : Type 0 where
  pub low : Triple D
  pub med : Triple D
  pub high : Triple D

pub record Classifier (D : Type 0) : Type 0 where
  pub conf : Sets D
  pub cdur : Sets D

module _ {D : Type 0} (o : DoubleOps D) where
  abbrev pub nought : D
  nought = o.decimal 0 0

  abbrev pub unit : D
  unit = o.decimal 1 0

  -- std::max(a, b) and std::min(a, b).
  unfoldable pub max_of : D → D → D
  max_of a b = if o.less a b then b else a

  unfoldable pub min_of : D → D → D
  min_of a b = if o.less b a then b else a

  -- `<=` and `>=` on numbers.
  abbrev at_most : D → D → Bool
  at_most a b = if o.less b a then false else true

  -- uCONF_LOW and uCDUR_SHORT, uCONF_MED and uCDUR_MED, uCONF_HIGH and uCDUR_LONG: the functions of a
  -- pair have the same body, for the sets of one variable each.
  unfoldable pub falling : Triple D → D → D
  unfolding max_of
  falling u v =
      if at_most v u.x2 then unit else max_of nought (o.div (o.sub u.x3 v) (o.sub u.x3 u.x2))

  unfoldable pub triangle : Triple D → D → D
  unfolding max_of
  triangle u v =
      if at_most v u.x2
      then max_of nought (o.div (o.sub v u.x1) (o.sub u.x2 u.x1))
      else max_of nought (o.div (o.sub u.x3 v) (o.sub u.x3 u.x2))

  unfoldable pub rising : Triple D → D → D
  unfolding max_of
  rising u v =
      if at_most u.x2 v then unit else max_of nought (o.div (o.sub v u.x1) (o.sub u.x2 u.x1))

  -- std::max_element: the largest element, and the number of the first one that is the largest.
  unfoldable pub max_element : D → List D → D
  max_element best [] = best
  max_element best (x ∷ xs) = max_element (if o.less best x then x else best) xs

  unfoldable pub max_position : ℕ → ℕ → D → List D → ℕ
  max_position at i best [] = at
  max_position at i best (x ∷ xs) =
      if o.less best x then max_position i (i + 1) x xs else max_position at (i + 1) best xs

  -- A row of Rc: the strengths of the rules of a label, and zeros up to the nine columns.
  abbrev pub zeros : ℕ → List D
  zeros zero = []
  zeros (suc n) = nought ∷ zeros n

  unfoldable pub strengths : Classifier D → D → D → Label → D
  unfolding min_of max_element falling triangle rising
  strengths c hu dt Label.listening =
      max_element (min_of (rising c.conf.high hu) (falling c.cdur.low dt)) (
        min_of (triangle c.conf.med hu) (falling c.cdur.low dt)
        ∷ min_of (triangle c.conf.med hu) (triangle c.cdur.med dt)
        ∷ min_of (falling c.conf.low hu) (falling c.cdur.low dt)
        ∷ min_of (falling c.conf.low hu) (triangle c.cdur.med dt)
        ∷ zeros 4)
  strengths c hu dt Label.identified =
      max_element (min_of (rising c.conf.high hu) (triangle c.cdur.med dt))
        (min_of (rising c.conf.high hu) (rising c.cdur.high dt) ∷ zeros 7)
  strengths c hu dt Label.sounds_like =
      max_element (min_of (triangle c.conf.med hu) (rising c.cdur.high dt)) (zeros 8)
  strengths c hu dt Label.unidentified =
      max_element (min_of (falling c.conf.low hu) (rising c.cdur.high dt)) (zeros 8)

  abbrev pub number : Label → ℕ
  number Label.unidentified = 0
  number Label.sounds_like = 1
  number Label.identified = 2
  number Label.listening = 3

  -- The number of the label that is strongest.
  unfoldable pub process : Classifier D → D → D → ℕ
  unfolding strengths max_position
  process c hu dt = max_position 0 1 (strengths c hu dt Label.unidentified) (
      strengths c hu dt Label.sounds_like
      ∷ strengths c hu dt Label.identified
      ∷ strengths c hu dt Label.listening
      ∷ [])

  -- The cut points that the code does not set keep their values.
  unfoldable pub set_mode : Mode → Classifier D → Classifier D
  set_mode Mode.easy_identification c = record {
    conf = record {
      low = record { x1 = c.conf.low.x1; x2 = o.decimal 55 2; x3 = o.decimal 65 2 };
      med = record { x1 = o.decimal 60 2; x2 = o.decimal 70 2; x3 = o.decimal 80 2 };
      high = record { x1 = o.decimal 75 2; x2 = o.decimal 90 2; x3 = c.conf.high.x3 };
    };
    cdur = record {
      low = record { x1 = c.cdur.low.x1; x2 = o.decimal 15 1; x3 = o.decimal 3 0 };
      med = record { x1 = o.decimal 2 0; x2 = o.decimal 10 0; x3 = o.decimal 22 0 };
      high = record { x1 = o.decimal 175 1; x2 = o.decimal 20 0; x3 = c.cdur.high.x3 };
    };
  }
  set_mode Mode.strict_identification c = record {
    conf = record {
      low = record { x1 = c.conf.low.x1; x2 = o.decimal 55 2; x3 = o.decimal 65 2 };
      med = record { x1 = o.decimal 60 2; x2 = o.decimal 70 2; x3 = o.decimal 92 2 };
      high = record { x1 = o.decimal 875 3; x2 = o.decimal 95 2; x3 = c.conf.high.x3 };
    };
    cdur = record {
      low = record { x1 = c.cdur.low.x1; x2 = o.decimal 2 0; x3 = o.decimal 5 0 };
      med = record { x1 = o.decimal 28 1; x2 = o.decimal 12 0; x3 = o.decimal 192 1 };
      high = record { x1 = o.decimal 15 0; x2 = o.decimal 20 0; x3 = c.cdur.high.x3 };
    };
  }
