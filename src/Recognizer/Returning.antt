-- ===== src/Recognizer/Returning.antt =====
-- ProcessMatchResults (src/ident/Recognizer.cpp) returns, if the call of Flush in it does.
use audioneex.Prelude.{
  ℕ, ◌<◌, ◌≡◌, ◌≢◌, refl, sym, ◌∙◌, List, [], ◌∷◌, Bool, true, false, ◌==◌, Outcome, length, arith,
  Bool-cases, inl, inr, Holds, >>=-Holds, Holds-map,
}
use mathlib.Core.Path.{subst}
use audioneex.AudioBlock.{FloatOps}
use audioneex.Classifier.{DoubleOps, set_mode}
use audioneex.Recognizer.{
  Conversions, Fingerprinter, IdType, MatcherInterface, Recognizer, fill_results, nulled,
  do_classification, classify_ties, acc_of, set_acc, fresh_acc, add_step, tie_time,
}
use audioneex.Recognizer.Kept.{
  label_at, Kept, same, Kept-trans, fill_results-Kept, or_null-Kept, or_null-matcher, process-lt,
}

eq_of_test : (a b : ℕ) → (a == b) ≡ true → a ≡ b
eq_of_test a b h = ground arith

not_four :
    (n : ℕ) → n < 4 → (n == 2) ≡ false → (n == 3) ≡ false → (n == 1) ≡ false → (n == 0) ≡ false → ⊥
not_four n h a b c d = ground arith

-- `G` is what the matcher has to be like for the call of Flush, `f`, to return.
module _ {F D : Type 0} (o : FloatOps F) (od : DoubleOps D) (cv : Conversions F D)
    (m : MatcherInterface F) (fp : Fingerprinter F) (total : Bool) (G : m.State → Type 0)
    (f : Recognizer o od cv m fp → Outcome (Recognizer o od cv m fp))
    (f_returns : (st : Recognizer o od cv m fp)
      → st.id_type ≢ IdType.other_identification
      → G st.matcher
      → Holds total
          (λ (st' : Recognizer o od cv m fp). Kept o od cv m fp st st' × G st'.matcher)
          (f st)) where
  abbrev R : Type 0
  R = Recognizer o od cv m fp

  abbrev pub After : R → R → Type 0
  After st st' = Kept o od cv m fp st st' × G st'.matcher

  -- With results at the end.
  abbrev pub Found : R → R → Type 0
  Found st st' = After st st' × (0 < length st'.id_matches)

  pub nulled-Found :
      (st st1 : R)
      → Kept o od cv m fp st st1
      → st1.id_type ≢ IdType.other_identification
      → G st1.matcher
      → Holds total (Found st) (nulled o od cv m fp (f st1))
  unfolding nulled
  nulled-Found st st1 k v g =
      >>=-Holds total (After st1) (Found st) (f st1) _ (f_returns st1 v g) λ st2 a.
        let (k', pos) = or_null-Kept o od cv m fp st2 in
        (
          (
            Kept-trans o od cv m fp k (Kept-trans o od cv m fp a.0 k'),
            subst G (sym (or_null-matcher o od cv m fp st2)) a.1,
          ),
          pos,
        )

  -- Other than LISTENING, a class comes with results.
  abbrev pub Classified : F → F → R → R → Type 0
  Classified hu dt st st' =
      After st st' × (label_at o od cv m fp hu dt st ≢ 3 → 0 < length st'.id_matches)

  pub do_classification-Classified :
      (hu dt : F) (st : R)
      → st.id_type ≢ IdType.other_identification
      → G st.matcher
      → Holds total (Classified hu dt st) (do_classification o od cv m fp f hu dt st)
  unfolding do_classification fill_results
  do_classification-Classified hu dt st v g =
      let st1 : R = record st { classifier = set_mode od st.id_mode st.classifier } in
      let k : Kept o od cv m fp st st1 = same o od cv m fp st st1 refl in
      let fill : (n : ℕ) → Found st (fill_results o od cv m fp n st1) = λ n.
        let (k', pos) = fill_results-Kept o od cv m fp n st1 in
        ((Kept-trans o od cv m fp k k', g), pos) in
      elim (Bool-cases (label_at o od cv m fp hu dt st == 2)) [
        | inl e ↦ rw e (
          (fill (label_at o od cv m fp hu dt st)).0,
          λ _. (fill (label_at o od cv m fp hu dt st)).1,
        )
        | inr e2 ↦ elim (Bool-cases (label_at o od cv m fp hu dt st == 3)) [
          | inl e ↦
              rw (e2, e)
                ((k, g), λ ne. absurd (ne (eq_of_test (label_at o od cv m fp hu dt st) 3 e)))
          | inr e3 ↦ elim (Bool-cases (label_at o od cv m fp hu dt st == 1)) [
            | inl e ↦
                rw (e2, e3, e)
                  (
                    (fill (label_at o od cv m fp hu dt st)).0,
                    λ _. (fill (label_at o od cv m fp hu dt st)).1,
                  )
            | inr e1 ↦ elim (Bool-cases (label_at o od cv m fp hu dt st == 0)) [
              | inl e ↦
                  rw (e2, e3, e1, e)
                    (Holds-map total (Found st) (Classified hu dt st) (nulled o od cv m fp (f st1))
                      (λ st' h. (h.0, λ _. h.1)) (nulled-Found st st1 k v g))
              | inr e0 ↦ absurd (
                  not_four (label_at o od cv m fp hu dt st)
                    (process-lt od (set_mode od st.id_mode st.classifier) (cv.widen hu)
                      (cv.widen dt))
                    e2 e3 e1 e0)
            ]
          ]
        ]
      ]

  pub classify_ties-After :
      (conf dt : F) (qis : List ℕ) (st : R)
      → st.id_type ≢ IdType.other_identification
      → G st.matcher
      → Holds total (After st) (classify_ties o od cv m fp f conf dt qis st)
  unfolding classify_ties
  classify_ties-After conf dt [] st v g = (same o od cv m fp st st refl, g)
  classify_ties-After conf dt (qi ∷ qis) st v g =
      let a = add_step o od cv m fp conf dt (acc_of (fresh_acc o od cv m fp) qi st.match_acc) in
      let st0 : R = record st { match_acc = set_acc qi a st.match_acc } in
      >>=-Holds total (After st) (After st)
        (do_classification o od cv m fp f (o.div a.conf a.steps)
          (tie_time o od cv m fp st.id_time a) st0)
        (classify_ties o od cv m fp f conf dt qis)
        (Holds-map total
          (Classified (o.div a.conf a.steps) (tie_time o od cv m fp st.id_time a) st0) (After st)
          (do_classification o od cv m fp f (o.div a.conf a.steps)
            (tie_time o od cv m fp st.id_time a) st0)
          (λ st1 c. (Kept-trans o od cv m fp (same o od cv m fp st st0 refl) c.0.0, c.0.1))
          (do_classification-Classified (o.div a.conf a.steps) (tie_time o od cv m fp st.id_time a)
            st0 v g))
        λ st1 b.
          Holds-map total (After st1) (After st) (classify_ties o od cv m fp f conf dt qis st1)
            (λ st2 c. (Kept-trans o od cv m fp b.0 c.0, c.1))
            (classify_ties-After conf dt qis st1 (λ e. v (sym b.0.type_same ∙ e)) b.1)
