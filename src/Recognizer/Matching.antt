-- ===== src/Recognizer/Matching.antt =====
-- The recognizer with the matcher of src/ident/Matcher.cpp.
use audioneex.Prelude.{ℕ}
use audioneex.AudioBlock.{FloatOps}
use audioneex.Store.{DataStore}
use audioneex.Matcher.Graphs.{FingerprintStore}
use audioneex.Matcher.{Quantizer, Matcher}
use audioneex.Matcher
use audioneex.Matcher.Flushing.{flush-Flushed}
use audioneex.Recognizer.{MatcherInterface, Recognizer}
use audioneex.Recognizer.Calls.{flush}
use audioneex.Recognizer.Kept.{Kept}
use audioneex.Recognizer.Flushes.{Flushes, MatcherLaws}

-- `match_time` is the product of a time in frames with the duration of a frame, as a float.
module _ {F : Type 0} (o : FloatOps F) (s : DataStore) (fps : s.State → FingerprintStore)
    (x : Quantizer) (search_fuel : ℕ) (match_time : ℕ → F) where
  abbrev pub matcher_interface : MatcherInterface F
  matcher_interface = record {
    State = Matcher o s fps x search_fuel;
    process = Matcher.process o s fps x search_fuel;
    flush = Matcher.flush o s fps x search_fuel;
    results = λ st. st.results;
    match_time = λ st. match_time st.ko_t;
    reset = Matcher.reset o s fps x search_fuel;
  }

  pub matcher_interface_laws : MatcherLaws matcher_interface
  matcher_interface_laws = record {
    flush_at_once = λ st st' n e. (flush-Flushed o s fps x search_fuel st e).at_once;
  }
