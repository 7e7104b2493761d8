-- ===== src/Recognizer/Kept.antt =====
-- The classification of the matches (src/ident/Recognizer.cpp) returns, if the call of Flush in it does,
-- and keeps the results in form.
use audioneex.Prelude.{
  ℕ, ◌+◌, ◌<◌, ◌≡◌, refl, sym, ap, ◌∙◌, List, [], ◌∷◌, ◌++◌, ◌==◌, length, length-append, arith,
  Bool-cases, ◌⊎◌, inl, inr,
}
use mathlib.Core.Path.{subst}
use audioneex.AudioBlock.{FloatOps}
use audioneex.Classifier.{DoubleOps, Label, number, set_mode, max_position, strengths}
use audioneex.Classifier
use audioneex.Recognizer.{
  Conversions, Fingerprinter, IdMatch, MatcherInterface, Recognizer, null_match, fill_results,
  or_null,
}

-- The label is one of the four.
max_position-lt :
    {D : Type 0} (od : DoubleOps D) (at i : ℕ) (best : D) (xs : List D)
    → at < i
    → max_position od at i best xs < i + length xs
unfolding max_position
max_position-lt od at i best [] h = omega (arith, h)
max_position-lt od at i best (y ∷ xs) h = elim (Bool-cases (od.less best y)) [
  | inl e ↦ rw e (omega (arith, max_position-lt od i (i + 1) y xs (omega arith)))
  | inr e ↦ rw e (omega (arith, max_position-lt od at (i + 1) best xs (omega (arith, h))))
]

module _ {F D : Type 0} (o : FloatOps F) (od : DoubleOps D) (cv : Conversions F D)
    (m : MatcherInterface F) (fp : Fingerprinter F) where
  abbrev R : Type 0
  R = Recognizer o od cv m fp

  -- There are no results, or the null element ends them.
  abbrev pub Marked : List (IdMatch F) → Type 0
  Marked xs = (xs ≡ []) ⊎ ((ys : List (IdMatch F)) × (xs ≡ ys ++ (null_match o od cv m fp ∷ [])))

  -- The settings and the time are the same, results are not lost and keep their form.
  pub record Kept (st st' : R) : Type 0 where
    pub type_same : st'.id_type ≡ st.id_type
    pub mode_same : st'.id_mode ≡ st.id_mode
    pub threshold_same : st'.binary_id_threshold ≡ st.binary_id_threshold
    pub min_time_same : st'.binary_id_min_time ≡ st.binary_id_min_time
    pub time_same : st'.id_time ≡ st.id_time
    pub marked : Marked st.id_matches → Marked st'.id_matches
    pub stays : 0 < length st.id_matches → 0 < length st'.id_matches

  pub Kept-trans : {st st1 st2 : R} → Kept st st1 → Kept st1 st2 → Kept st st2
  Kept-trans h k = record {
    type_same = k.type_same ∙ h.type_same;
    mode_same = k.mode_same ∙ h.mode_same;
    threshold_same = k.threshold_same ∙ h.threshold_same;
    min_time_same = k.min_time_same ∙ h.min_time_same;
    time_same = k.time_same ∙ h.time_same;
    marked = λ p. k.marked (h.marked p);
    stays = λ p. k.stays (h.stays p);
  }

  -- The matcher, the buffers, the classifier and the accumulators are no settings.
  pub same :
      (st st' : R)
      → st' ≡ record st {
        matcher = st'.matcher;
        match_acc = st'.match_acc;
        classifier = st'.classifier;
        audio_buffer = st'.audio_buffer;
        fingerprint = st'.fingerprint;
      }
      → Kept st st'
  same st st' e = record {
    type_same = ap (λ (r : R). r.id_type) e;
    mode_same = ap (λ (r : R). r.id_mode) e;
    threshold_same = ap (λ (r : R). r.binary_id_threshold) e;
    min_time_same = ap (λ (r : R). r.binary_id_min_time) e;
    time_same = ap (λ (r : R). r.id_time) e;
    marked = λ p. subst Marked (sym (ap (λ (r : R). r.id_matches) e)) p;
    stays = λ p. omega (arith, ap (λ (r : R). length r.id_matches) e, p);
  }

  -- New results that end in the null element.
  pub filled :
      (st st' : R) (ys : List (IdMatch F))
      → st' ≡ record st {
        id_matches = ys ++ (null_match o od cv m fp ∷ []);
        match_acc = st'.match_acc;
        classifier = st'.classifier;
      }
      → Kept st st' × (0 < length st'.id_matches)
  filled st st' ys e =
      let pos : 0 < length st'.id_matches = omega (
        arith,
        ap (λ (r : R). length r.id_matches) e,
        length-append ys (null_match o od cv m fp ∷ []),
      ) in
      (
        record {
          type_same = ap (λ (r : R). r.id_type) e;
          mode_same = ap (λ (r : R). r.id_mode) e;
          threshold_same = ap (λ (r : R). r.binary_id_threshold) e;
          min_time_same = ap (λ (r : R). r.binary_id_min_time) e;
          time_same = ap (λ (r : R). r.id_time) e;
          marked = λ _. inr (ys, ap (λ (r : R). r.id_matches) e);
          stays = λ _. pos;
        },
        pos,
      )

  pub fill_results-Kept :
      (cresult : ℕ) (st : R)
      → Kept st (fill_results o od cv m fp cresult st)
        × (0 < length (fill_results o od cv m fp cresult st).id_matches)
  unfolding fill_results
  fill_results-Kept cresult st = filled st (fill_results o od cv m fp cresult st) _ refl

  pub fill_results-matcher :
      (cresult : ℕ) (st : R) → (fill_results o od cv m fp cresult st).matcher ≡ st.matcher
  unfolding fill_results
  fill_results-matcher cresult st = refl

  pub or_null-Kept :
      (st : R)
      → Kept st (or_null o od cv m fp st) × (0 < length (or_null o od cv m fp st).id_matches)
  unfolding or_null
  or_null-Kept st = elim (Bool-cases (length st.id_matches == 0)) [
    | inl e ↦ rw e (filled st (record st { id_matches = null_match o od cv m fp ∷ [] }) [] refl)
    | inr e ↦ rw e (same st st refl, ground arith)
  ]

  pub or_null-matcher : (st : R) → (or_null o od cv m fp st).matcher ≡ st.matcher
  unfolding or_null
  or_null-matcher st = elim (Bool-cases (length st.id_matches == 0)) [
    | inl e ↦ rw e refl
    | inr e ↦ rw e refl
  ]

  -- The label of a confidence and a time.
  abbrev pub label_at : F → F → R → ℕ
  label_at hu dt st =
      Classifier.process od (set_mode od st.id_mode st.classifier) (cv.widen hu) (cv.widen dt)

-- Process gives a number below four.
pub process-lt :
    {D : Type 0} (od : DoubleOps D) (c : Classifier.Classifier D) (hu dt : D)
    → Classifier.process od c hu dt < 4
unfolding Classifier.process
process-lt od c hu dt =
    max_position-lt od 0 1 (strengths od c hu dt Label.unidentified)
      (strengths od c hu dt Label.sounds_like
        ∷ strengths od c hu dt Label.identified
        ∷ strengths od c hu dt Label.listening
        ∷ [])
      (omega arith)
