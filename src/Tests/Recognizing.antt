-- ===== src/Tests/Recognizing.antt =====
-- The recognizer on concrete inputs, with natural numbers for float and double.
use audioneex.Prelude.{ℕ, ◌+◌, ◌≡◌, ◌≢◌, refl, [], ◌∷◌, none, some, ok, arith, inl}
use audioneex.AudioBlock.{AudioBlock, set_data}
use audioneex.Classifier.{Mode, Triple, Sets}
use audioneex.Results.{no_results}
use audioneex.Recognizer.{Conversions, Fingerprinter, IdType, MatcherInterface, Recognizer}
use audioneex.Recognizer.Calls.{
  flush, flush_fuel, get_results, identify, set_identification_type, outside,
}
use audioneex.Recognizer.Kept.{Kept}
use audioneex.Recognizer.Branches.{DueAt, clock}
use audioneex.Recognizer.Flushes.{MatcherLaws, matched, identify-returns}
use audioneex.Recognizer.Session.{Step, Reach, IsRecognizer}
use audioneex.Recognizer.Safety.{Reach-IsRecognizer}
use audioneex.Tests.{nat_floats, nat_doubles}

abbrev same_numbers : Conversions ℕ ℕ
same_numbers = record { widen = λ a. a; narrow = λ a. a; add = λ a b. a + b }

-- A matcher that finds nothing; its state is the number of fingerprints that are left.
abbrev pub no_matches : MatcherInterface ℕ
no_matches = record {
  State = ℕ;
  process = λ lfs n. ok (n, 20);
  flush = λ n. ok (0, n);
  results = λ n. no_results;
  match_time = λ n. 0;
  reset = λ n. 0;
}

pub no_matches-MatcherLaws : MatcherLaws no_matches
no_matches-MatcherLaws = record { flush_at_once = λ st st' n e. cc }

abbrev pub no_lfs : Fingerprinter ℕ
no_lfs = record { State = ℕ; process = λ b n. (n, []); reset = λ n. n }

abbrev zeros : Sets ℕ
zeros =
    let t : Triple ℕ = record { x1 = 0; x2 = 0; x3 = 0 } in record { low = t; med = t; high = t }

-- A recognizer for binary identification, after 18 seconds.
abbrev pub recognizer :
    (m : MatcherInterface ℕ) → m.State → Recognizer nat_floats nat_doubles same_numbers m no_lfs
recognizer m ms = record {
  audio_buffer = record {
    samples = some (0 ∷ 0 ∷ 0 ∷ 0 ∷ []);
    capacity = 4;
    duration = 0;
    size = 0;
    sample_rate = 1;
    channels = 1;
    id = 0;
    timestamp = 0;
    norm_factor = 1;
  };
  fingerprint = 0;
  matcher = ms;
  classifier = record { conf = zeros; cdur = zeros };
  id_matches = [];
  id_type = IdType.binary_identification;
  id_mode = Mode.easy_identification;
  binary_id_threshold = 1;
  binary_id_min_time = 0;
  match_acc = [];
  id_time = 18;
}

abbrev R : Type 0
R = Recognizer nat_floats nat_doubles same_numbers no_matches no_lfs

-- Four seconds of audio.
abbrev four_seconds : AudioBlock ℕ ℕ
four_seconds = record {
  samples = some (5 ∷ 6 ∷ 7 ∷ 8 ∷ []);
  capacity = 4;
  duration = 4;
  size = 4;
  sample_rate = 1;
  channels = 1;
  id = 0;
  timestamp = 0;
  norm_factor = 1;
}

pub filled_buffer :
    set_data nat_floats (5 ∷ 6 ∷ 7 ∷ 8 ∷ []) 4 (recognizer no_matches 5).audio_buffer
    ≡ ok four_seconds
unfolding set_data
filled_buffer = refl

identify-returns_example :
    (st' : R) × (identify nat_floats nat_doubles same_numbers no_matches no_lfs
        (some (5 ∷ 6 ∷ 7 ∷ 8 ∷ []))
        4
        (recognizer no_matches 5)
      ≡ ok st')
    × (st'.id_time ≡ 22)
    × (DueAt nat_floats nat_doubles same_numbers no_matches no_lfs
          (clock nat_floats nat_doubles same_numbers no_matches no_lfs (
            matched nat_floats nat_doubles same_numbers no_matches no_lfs
              (recognizer no_matches 5)
              four_seconds
              (5, 20)))
          20
          (matched nat_floats nat_doubles same_numbers no_matches no_lfs
            (recognizer no_matches 5)
            four_seconds
            (5, 20))
        → get_results nat_floats nat_doubles same_numbers no_matches no_lfs st' ≢ none)
identify-returns_example =
    identify-returns nat_floats nat_doubles same_numbers no_matches no_lfs no_matches-MatcherLaws
      (5 ∷ 6 ∷ 7 ∷ 8 ∷ []) 4 (recognizer no_matches 5) (λ e. cc) (omega arith) filled_buffer refl
      ((0, 5), refl)

recognizer-IsRecognizer :
    IsRecognizer nat_floats nat_doubles same_numbers no_matches no_lfs (recognizer no_matches 5)
unfolding outside
recognizer-IsRecognizer = record {
  type_valid = λ e. cc;
  threshold_valid = refl;
  min_time_valid = refl;
  marked = inl refl;
}

-- The type is set, and the fingerprints that are left are flushed.
abbrev fuzzy : R
fuzzy = record (recognizer no_matches 5) { id_type = IdType.fuzzy_identification }

set_fuzzy :
    set_identification_type nat_floats nat_doubles same_numbers no_matches no_lfs
      IdType.fuzzy_identification
      (recognizer no_matches 5)
    ≡ ok fuzzy
unfolding set_identification_type
set_fuzzy = refl

abbrev fuzzy_after : R
fuzzy_after = record fuzzy {
  matcher = 0;
  classifier = record {
    conf = record {
      low = record { x1 = 0; x2 = 55; x3 = 65 };
      med = record { x1 = 60; x2 = 70; x3 = 80 };
      high = record { x1 = 75; x2 = 90; x3 = 0 };
    };
    cdur = record {
      low = record { x1 = 0; x2 = 15; x3 = 3 };
      med = record { x1 = 2; x2 = 10; x3 = 22 };
      high = record { x1 = 175; x2 = 20; x3 = 0 };
    };
  };
  id_matches = record { fid = 0; confidence = 0; score = 0; id_class = 0; cue_point = 0 } ∷ [];
}

flush_fuzzy :
    flush nat_floats nat_doubles same_numbers no_matches no_lfs flush_fuel fuzzy ≡ ok fuzzy_after
unfolding flush
flush_fuzzy = refl

Reach-IsRecognizer_example :
    IsRecognizer nat_floats nat_doubles same_numbers no_matches no_lfs fuzzy_after
Reach-IsRecognizer_example =
    Reach-IsRecognizer nat_floats nat_doubles same_numbers no_matches no_lfs recognizer-IsRecognizer
      (Reach.more (Reach.more Reach.here (Step.sets_type IdType.fuzzy_identification set_fuzzy))
        (Step.flushes flush_fuzzy))
