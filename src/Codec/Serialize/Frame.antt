-- ===== src/Codec/Serialize/Frame.antt =====
-- Where the writes of Codec/Serialize.antt go.
use audioneex.Prelude.{
  ℕ, suc, ◌+◌, ◌*◌, ◌≡◌, refl, sym, ap, ◌∙◌, List, [], ◌∷◌, ◌++◌, arith, append_assoc, some, ok,
  length, length-append, set?,
}
use audioneex.Memory.{set?-behind, store-ok}
use audioneex.Codec.Serialize.{write_element}

-- The parts of `ser_chunk` around the three cells that a round writes.
abbrev pub frame : List ℕ → List ℕ → List ℕ → List ℕ → List ℕ → List ℕ → List ℕ → List ℕ
frame xs jx ys jy zs jz rest = xs ++ (jx ++ (ys ++ (jy ++ (zs ++ (jz ++ rest)))))

module _ (xs jx ys jy zs jz rest : List ℕ) where
  set_first :
      (k a v : ℕ)
      → k ≡ length xs
      → set? (frame xs (a ∷ jx) ys jy zs jz rest) k v
        ≡ some (frame (xs ++ (v ∷ [])) jx ys jy zs jz rest)
  set_first k a v e =
      set?-behind xs _ k 0 v _ (omega arith) refl ∙ ap some (sym (append_assoc xs (v ∷ []) _))

  set_second :
      (k a v : ℕ)
      → k ≡ length xs + length jx + length ys
      → set? (frame xs jx ys (a ∷ jy) zs jz rest) k v
        ≡ some (frame xs jx (ys ++ (v ∷ [])) jy zs jz rest)
  set_second k a v e =
      set?-behind xs _ k (length jx + length ys) v _ (omega arith) (
        set?-behind jx _ _ (length ys) v _ (omega arith)
          (set?-behind ys _ _ 0 v _ (omega arith) refl))
      ∙ ap (λ l. some (xs ++ (jx ++ l))) (sym (append_assoc ys (v ∷ []) _))

  set_third :
      (k a v : ℕ)
      → k ≡ length xs + length jx + length ys + length jy + length zs
      → set? (frame xs jx ys jy zs (a ∷ jz) rest) k v
        ≡ some (frame xs jx ys jy (zs ++ (v ∷ [])) jz rest)
  set_third k a v e =
      set?-behind xs _ k (length jx + (length ys + (length jy + length zs))) v _ (omega arith) (
        set?-behind jx _ _ (length ys + (length jy + length zs)) v _ refl (
          set?-behind ys _ _ (length jy + length zs) v _ refl (
            set?-behind jy _ _ (length zs) v _ refl (set?-behind zs _ _ 0 v _ (omega arith) refl))))
      ∙ ap (λ l. some (xs ++ (jx ++ (ys ++ (jy ++ l))))) (sym (append_assoc zs (v ∷ []) _))

-- A round fills the next cell of each of the three runs.
pub write_element-frame :
    (xs jx ys jy zs jz rest : List ℕ) (tf vpos a b c lid time error : ℕ)
    → vpos ≡ length xs
    → vpos + tf ≡ length xs + suc (length jx) + length ys
    → vpos + 2 * tf ≡ length xs + suc (length jx) + length ys + suc (length jy) + length zs
    → write_element tf vpos lid time error (frame xs (a ∷ jx) ys (b ∷ jy) zs (c ∷ jz) rest)
      ≡ ok (frame (xs ++ (lid ∷ [])) jx (ys ++ (time ∷ [])) jy (zs ++ (error ∷ [])) jz rest)
unfolding write_element
write_element-frame xs jx ys jy zs jz rest tf vpos a b c lid time error e1 e2 e3 = rw (
  store-ok _ _ _ (set_first xs jx ys (b ∷ jy) zs (c ∷ jz) rest vpos a lid e1),
  store-ok _ _ _ (
      set_second (xs ++ (lid ∷ [])) jx ys jy zs (c ∷ jz) rest (vpos + 1 * tf) b time
        (omega (arith, length-append xs (lid ∷ [])))),
  store-ok _ _ _ (
      set_third (xs ++ (lid ∷ [])) jx (ys ++ (time ∷ [])) jy zs jz rest (vpos + 2 * tf) c error
        (omega (arith, length-append xs (lid ∷ []), length-append ys (time ∷ [])))),
)
