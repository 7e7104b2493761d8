-- ===== src/Tests/Classes.antt =====
-- The classifier and the end of an identification, on numbers in thousandths.
use audioneex.Prelude.{
  ℕ, zero, suc, ◌+◌, ◌-◌, ◌*◌, ◌/◌, ◌^◌, ◌≤◌, ◌≡◌, ◌≢◌, refl, [], ◌∷◌, inr, none, some, ok, arith,
  false, ltb, le→ltb,
}
use audioneex.Classifier.{DoubleOps, Label, Mode, number, process, set_mode}
use audioneex.Classifier.Short.{process-short}
use audioneex.Classifier.Settled.{Numbers, process-low, process-high}
use audioneex.Recognizer.{Conversions, IdType, Recognizer}
use audioneex.Recognizer.Processing.{has_matches}
use audioneex.Recognizer.Calls.{identify, get_results}
use audioneex.Recognizer.Timeout.{Times, identify-timeout}
use audioneex.Tests.{nat_floats, nat_order}
use audioneex.Tests.Recognizing.{
  no_matches, no_matches-MatcherLaws, no_lfs, recognizer, filled_buffer,
}
use audioneex.Tests.Sessions.{cuts}

abbrev thousandths : DoubleOps ℕ
thousandths = record {
  decimal = λ n k. n * 10 ^ (3 - k);
  sub = λ a b. a - b;
  div = λ a b. a * 1000 / b;
  less = ltb;
}

decimal_less :
    (m j n k : ℕ)
    → j ≤ 3
    → k ≤ 3
    → ltb (m * 10 ^ (3 - j)) (n * 10 ^ (3 - k)) ≡ ltb (m * 10 ^ k) (n * 10 ^ j)
decimal_less m zero n zero h l = ground arith
decimal_less m zero n (suc zero) h l = ground arith
decimal_less m zero n (suc (suc zero)) h l = ground arith
decimal_less m zero n (suc (suc (suc zero))) h l = ground arith
decimal_less m zero n (suc (suc (suc (suc k)))) h l = absurd (omega arith)
decimal_less m (suc zero) n zero h l = ground arith
decimal_less m (suc zero) n (suc zero) h l = ground arith
decimal_less m (suc zero) n (suc (suc zero)) h l = ground arith
decimal_less m (suc zero) n (suc (suc (suc zero))) h l = ground arith
decimal_less m (suc zero) n (suc (suc (suc (suc k)))) h l = absurd (omega arith)
decimal_less m (suc (suc zero)) n zero h l = ground arith
decimal_less m (suc (suc zero)) n (suc zero) h l = ground arith
decimal_less m (suc (suc zero)) n (suc (suc zero)) h l = ground arith
decimal_less m (suc (suc zero)) n (suc (suc (suc zero))) h l = ground arith
decimal_less m (suc (suc zero)) n (suc (suc (suc (suc k)))) h l = absurd (omega arith)
decimal_less m (suc (suc (suc zero))) n zero h l = ground arith
decimal_less m (suc (suc (suc zero))) n (suc zero) h l = ground arith
decimal_less m (suc (suc (suc zero))) n (suc (suc zero)) h l = ground arith
decimal_less m (suc (suc (suc zero))) n (suc (suc (suc zero))) h l = ground arith
decimal_less m (suc (suc (suc zero))) n (suc (suc (suc (suc k)))) h l = absurd (omega arith)
decimal_less m (suc (suc (suc (suc j)))) n k h l = absurd (omega arith)

no_ratio : {a b : ℕ} (n : ℕ) → a ≤ b → ltb 0 ((a - b) * 1000 / n) ≡ false
no_ratio {a} {b} zero h = let e : a - b ≡ 0 = omega arith in rw e refl
no_ratio {a} {b} (suc n) h = let e : a - b ≡ 0 = omega arith in rw e (le→ltb 0 _ (omega arith))

thousandths-Numbers : Numbers thousandths
thousandths-Numbers = record {
  ordered = record {
    irreflexive = nat_order.irreflexive;
    not_less_trans = nat_order.not_less_trans;
    less_asym = nat_order.less_asym;
  };
  decimal_less = decimal_less;
  ratio = λ a b c d h k. no_ratio (c - d) (ground arith);
}

process-low_example :
    process thousandths (set_mode thousandths Mode.easy_identification cuts) 550 21000
    ≡ number thousandths Label.unidentified
process-low_example =
    process-low thousandths thousandths-Numbers Mode.easy_identification cuts 550 21000 refl refl

process-high_example :
    process thousandths (set_mode thousandths Mode.strict_identification cuts) 960 20000
    ≡ number thousandths Label.identified
process-high_example =
    process-high thousandths thousandths-Numbers Mode.strict_identification cuts 960 20000 refl refl

process-short_example :
    process thousandths (set_mode thousandths Mode.strict_identification cuts) 960 1500
    ≡ number thousandths Label.listening
process-short_example =
    process-short thousandths thousandths-Numbers Mode.strict_identification cuts 960 1500 refl
      (inr refl)

-- Seconds as floats, thousandths of them as doubles.
abbrev conversions : Conversions ℕ ℕ
conversions = record { widen = λ a. a * 1000; narrow = λ a. a / 1000; add = λ a b. a + b }

conversions-Times : Times nat_floats thousandths conversions no_matches no_lfs
conversions-Times = record { zero_time = refl; max_time = refl; keeps_late = λ t h. ground arith }

-- A recognizer for fuzzy identification, after 18 conversions.
abbrev fuzzy : Recognizer nat_floats thousandths conversions no_matches no_lfs
fuzzy = record {
  audio_buffer = (recognizer no_matches 5).audio_buffer;
  fingerprint = 0;
  matcher = 5;
  classifier = cuts;
  id_matches = [];
  id_type = IdType.fuzzy_identification;
  id_mode = Mode.easy_identification;
  binary_id_threshold = 1;
  binary_id_min_time = 0;
  match_acc = [];
  id_time = 18000;
}

none_found :
    has_matches nat_floats thousandths conversions no_matches no_lfs 20 (no_matches.results 5)
    ≡ false
unfolding has_matches
none_found = refl

identify-timeout_example :
    (st' : Recognizer nat_floats thousandths conversions no_matches no_lfs) × (identify nat_floats
        thousandths conversions no_matches no_lfs
        (some (5 ∷ 6 ∷ 7 ∷ 8 ∷ []))
        4
        fuzzy
      ≡ ok st')
    × (get_results nat_floats thousandths conversions no_matches no_lfs st' ≢ none)
identify-timeout_example =
    identify-timeout nat_floats thousandths conversions no_matches no_lfs thousandths-Numbers
      conversions-Times no_matches-MatcherLaws (5 ∷ 6 ∷ 7 ∷ 8 ∷ []) 4 fuzzy (inr (refl, none_found))
      (omega arith) (omega arith) filled_buffer refl ((0, 5), refl) refl
