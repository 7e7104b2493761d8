-- ===== src/Recognizer.antt =====
-- RecognizerImpl (src/ident/Recognizer.h, src/ident/Recognizer.cpp): the identification of a stream of
-- audio. An exception ends the run of the model: the state that it leaves behind is not modelled.
pub mod Processing
pub mod Calls
pub mod Kept
pub mod Returning
pub mod Branches
pub mod Deadline
pub mod Flushes
pub mod Session
pub mod Timeout
pub mod Safety
pub mod Matching
use audioneex.Prelude.{
  ℕ, zero, suc, ◌+◌, ◌-◌, ◌%◌, ◌≡◌, List, [], ◌∷◌, ◌++◌, Bool, true, false, not, ◌&&◌, ◌||◌, ◌==◌,
  ltb, leb, if◌then◌else◌, Option, none, some, Outcome, ok, err, fault, stuck, ◌>>=◌, length,
  invalid_parameter, logic_error,
}
use audioneex.AudioBlock.{FloatOps, AudioBlock, create, set_data, resize}
use audioneex.Classifier.{DoubleOps, Mode, Label, Classifier, number, set_mode}
use audioneex.Classifier
use audioneex.Matcher.{Lf}
use audioneex.Results.{MatchResults, rank, get_top, get_top_score, get_cue_point}

-- eIdentificationType. An integer that is neither of the two can be cast to it.
pub data IdType : Type 0 where
  fuzzy_identification binary_identification other_identification : IdType

-- IdMatch. `id_class` is the number of a label.
pub record IdMatch (F : Type 0) : Type 0 where
  pub fid : ℕ
  pub confidence : F
  pub score : F
  pub id_class : ℕ
  pub cue_point : ℕ

-- IdAcc_t
pub record IdAcc (F : Type 0) : Type 0 where
  pub conf : F
  pub time : F
  pub steps : F

-- The arithmetic between float and double.
pub record Conversions (F D : Type 0) : Type 0 where
  pub widen : F → D
  pub narrow : D → F
  pub add : D → D → D

-- The matcher, as the recognizer calls it.
pub record MatcherInterface (F : Type 0) : Type 1 where
  pub State : Type 0
  pub process : List Lf → State → Outcome (State × ℕ)
  pub flush : State → Outcome (State × ℕ)
  pub results : State → MatchResults
  pub match_time : State → F
  pub reset : State → State

-- The fingerprinting of a chunk of audio (class Fingerprint).
pub record Fingerprinter (F : Type 0) : Type 1 where
  pub State : Type 0
  pub process : AudioBlock F F → State → State × List Lf
  pub reset : State → State

-- `m_MatchAcc[qi]`, and a write to it.
unfoldable pub acc_of : {F : Type 0} → IdAcc F → ℕ → List (ℕ × IdAcc F) → IdAcc F
acc_of fresh qi [] = fresh
acc_of fresh qi ((q, a) ∷ accs) = if q == qi then a else acc_of fresh qi accs

unfoldable pub set_acc : {F : Type 0} → ℕ → IdAcc F → List (ℕ × IdAcc F) → List (ℕ × IdAcc F)
set_acc qi x [] = (qi, x) ∷ []
set_acc qi x ((q, a) ∷ accs) = if q == qi then (q, x) ∷ accs else (q, a) ∷ set_acc qi x accs

module _ {F D : Type 0} (o : FloatOps F) (od : DoubleOps D) (cv : Conversions F D)
    (m : MatcherInterface F) (fp : Fingerprinter F) where
  pub record Recognizer : Type 0 where
    pub audio_buffer : AudioBlock F F
    pub fingerprint : fp.State
    pub matcher : m.State
    pub classifier : Classifier D
    pub id_matches : List (IdMatch F)
    pub id_type : IdType
    pub id_mode : Mode
    pub binary_id_threshold : F
    pub binary_id_min_time : F
    pub match_acc : List (ℕ × IdAcc F)
    pub id_time : D

  abbrev pub nought : F
  nought = o.of_size 0

  -- Pms::MaxIdTime
  abbrev pub max_id_time : F
  max_id_time = o.of_size 20

  -- The element that marks the end of the results.
  abbrev pub null_match : IdMatch F
  null_match = record { fid = 0; confidence = nought; score = nought; id_class = 0; cue_point = 0 }

  abbrev pub fresh_acc : IdAcc F
  fresh_acc = record { conf = nought; time = nought; steps = nought }

  -- The loop of FillResults. Reading the accumulator of a match makes it where it is missing.
  unfoldable pub matches_of :
      ℕ → MatchResults → List ℕ → List (ℕ × IdAcc F) → List (IdMatch F) × List (ℕ × IdAcc F)
  unfolding acc_of set_acc get_top_score get_cue_point
  matches_of cresult r [] accs = ([], accs)
  matches_of cresult r (qi ∷ qis) accs =
      let a = acc_of fresh_acc qi accs in
      let found : IdMatch F = record {
        fid = qi;
        score = o.div (o.of_bits (get_top_score 1 r)) (o.of_size 1000);
        confidence = o.div a.conf a.steps;
        id_class = cresult;
        cue_point = get_cue_point qi r;
      } in
      let rest = matches_of cresult r qis (set_acc qi a accs) in (found ∷ rest.0, rest.1)

  unfoldable pub fill_results : ℕ → Recognizer → Recognizer
  unfolding matches_of get_top
  fill_results cresult st =
      let r = m.results st.matcher in
      let found = matches_of cresult r (get_top 1 r) st.match_acc in
      record st { id_matches = found.0 ++ (null_match ∷ []); match_acc = found.1 }

  -- If there are no results, the empty set of results is returned.
  unfoldable pub or_null : Recognizer → Recognizer
  or_null st = if length st.id_matches == 0 then record st { id_matches = null_match ∷ [] } else st

  -- After a flush.
  unfoldable pub nulled : Outcome Recognizer → Outcome Recognizer
  unfolding or_null
  nulled flushed = flushed >>= λ st. ok (or_null st)

  -- The operations from here on take the call of `Flush` that they make as a parameter.
  unfoldable pub do_classification :
      (Recognizer → Outcome Recognizer) → F → F → Recognizer → Outcome Recognizer
  unfolding fill_results nulled set_mode Classifier.process
  do_classification flush hu dt st =
      let c = set_mode od st.id_mode st.classifier in
      let cresult = Classifier.process od c (cv.widen hu) (cv.widen dt) in
      let st1 : Recognizer = record st { classifier = c } in
      if cresult == number od Label.identified
      then ok (fill_results cresult st1)
      else if cresult == number od Label.listening
      then ok st1
      else if cresult == number od Label.sounds_like
      then ok (fill_results cresult st1)
      else if cresult == number od Label.unidentified
      then nulled (flush st1)
      else err logic_error

  -- The confidence of the two best scores.
  unfoldable pub confidence_of : MatchResults → F
  unfolding get_top_score
  confidence_of r =
      let top1 = o.of_bits (get_top_score 1 r) in
      o.div top1 (o.add top1 (o.of_bits (get_top_score 2 r)))

  -- The accumulator of a match after the step, and the time that it is classified by.
  unfoldable pub add_step : F → F → IdAcc F → IdAcc F
  add_step conf dt a = record {
    conf = o.add a.conf conf;
    time = o.add a.time dt;
    steps = o.add a.steps (o.of_size 1);
  }

  unfoldable pub tie_time : D → IdAcc F → F
  tie_time id_time a = if od.less id_time (cv.widen max_id_time) then a.time else cv.narrow id_time

  -- The loop over the best matches, of the fuzzy identification.
  unfoldable pub classify_ties :
      (Recognizer → Outcome Recognizer) → F → F → List ℕ → Recognizer → Outcome Recognizer
  unfolding do_classification acc_of set_acc add_step tie_time
  classify_ties flush conf dt [] st = ok st
  classify_ties flush conf dt (qi ∷ qis) st =
      let a = add_step conf dt (acc_of fresh_acc qi st.match_acc) in
      do_classification flush (o.div a.conf a.steps) (tie_time st.id_time a)
        (record st { match_acc = set_acc qi a st.match_acc })
      >>= classify_ties flush conf dt qis

  unfoldable pub note_ties : F → List ℕ → List (ℕ × IdAcc F) → List (ℕ × IdAcc F)
  unfolding acc_of set_acc
  note_ties conf [] accs = accs
  note_ties conf (qi ∷ qis) accs =
      let a = acc_of fresh_acc qi accs in
      note_ties conf qis (set_acc qi (record a { conf = conf; steps = o.of_size 1 }) accs)
