-- ===== src/Codec/Serialize/Layout.antt =====
-- What `serialize` of Codec/Serialize.antt writes, with delta encoding.
use audioneex.Prelude.{
  ℕ, ◌+◌, ◌-◌, ◌*◌, ◌<◌, ◌≡◌, refl, sym, ap, ◌∙◌, List, [], ◌∷◌, ◌++◌, arith, append_assoc,
  append-nil, ok, true, length, length-append, sub32,
}
use audioneex.Postings.{Occ, lids, times, errors, triples}
use audioneex.Codec.Delta.Spec.{diffs}
use audioneex.Codec.Serialize.{write_element, payload_round, payload_loop}
use audioneex.Memory.{load-append}
use audioneex.Codec.Serialize.Frame.{frame, write_element-frame}

-- A round behind the first one, at the element `o` that follows `o0`.
payload_round-coded :
    (pre after : List ℕ) (o0 o : Occ) (tf i vpos : ℕ) (ser : List ℕ)
    → 0 < i
    → length pre + 1 ≡ i * 3
    → payload_round true (pre ++ (triples (o0 ∷ o ∷ []) ++ after)) tf i vpos ser
      ≡ write_element tf vpos (sub32 o.lid o0.lid) (sub32 o.time o0.time) o.error ser
unfolding payload_round
payload_round-coded pre after o0 o tf i vpos ser pos e =
    let mem = triples (o0 ∷ o ∷ []) ++ after in
    ground (
      arith,
      load-append pre mem (2 + i * 3) 3 o.lid (omega arith) refl,
      load-append pre mem (2 + (i - 1) * 3) 0 o0.lid (omega arith) refl,
      load-append pre mem (3 + i * 3) 4 o.time (omega arith) refl,
      load-append pre mem (3 + (i - 1) * 3) 1 o0.time (omega arith) refl,
      load-append pre mem (4 + i * 3) 5 o.error (omega arith) refl,
    )

pub payload_round-first :
    (pre after : List ℕ) (o : Occ) (tf vpos : ℕ) (ser : List ℕ)
    → length pre ≡ 2
    → payload_round true (pre ++ (triples (o ∷ []) ++ after)) tf 0 vpos ser
      ≡ write_element tf vpos o.lid o.time o.error ser
unfolding payload_round
payload_round-first pre after o tf vpos ser e =
    let mem = triples (o ∷ []) ++ after in
    ground (
      arith,
      load-append pre mem (2 + 0 * 3) 0 o.lid (omega arith) refl,
      load-append pre mem (3 + 0 * 3) 1 o.time (omega arith) refl,
      load-append pre mem (4 + 0 * 3) 2 o.error (omega arith) refl,
    )

-- The rounds behind `o0`: each run of the frame is filled up.
pub payload_loop-coded :
    (os : List Occ) (jx jy jz pre after p : List ℕ) (o0 : Occ) (tf i vpos : ℕ)
    (xs ys zs rest : List ℕ)
    → p ≡ pre ++ (triples (o0 ∷ os) ++ after)
    → 0 < i
    → length pre + 1 ≡ i * 3
    → length jx ≡ length os
    → length jy ≡ length os
    → length jz ≡ length os
    → vpos ≡ length xs
    → vpos + tf ≡ length xs + length jx + length ys
    → vpos + 2 * tf ≡ length xs + length jx + length ys + length jy + length zs
    → payload_loop true p tf (length os) i vpos (frame xs jx ys jy zs jz rest)
      ≡ ok (
          frame
            (xs ++ diffs o0.lid (lids os))
            []
            (ys ++ diffs o0.time (times os))
            []
            (zs ++ errors os)
            []
            rest)
unfolding payload_loop
payload_loop-coded [] [] [] [] pre after p o0 tf i vpos xs ys zs rest ep pos e a b c d f g =
    rw (append-nil xs, append-nil ys, append-nil zs)
payload_loop-coded [] [] [] (z ∷ jz) pre after p o0 tf i vpos xs ys zs rest ep pos e a b c d f g =
    absurd (omega arith)
payload_loop-coded [] [] (y ∷ jy) jz pre after p o0 tf i vpos xs ys zs rest ep pos e a b c d f g =
    absurd (omega arith)
payload_loop-coded [] (x ∷ jx) jy jz pre after p o0 tf i vpos xs ys zs rest ep pos e a b c d f g =
    absurd (omega arith)
payload_loop-coded (o ∷ os) [] jy jz pre after p o0 tf i vpos xs ys zs rest ep pos e a b c d f g =
    absurd (omega arith)
payload_loop-coded (o ∷ os) (x ∷ jx) [] jz pre after p o0 tf i vpos xs ys zs rest ep pos e a b c d f
      g =
    absurd (omega arith)
payload_loop-coded (o ∷ os) (x ∷ jx) (y ∷ jy) [] pre after p o0 tf i vpos xs ys zs rest ep pos e a b
      c d f g =
    absurd (omega arith)
payload_loop-coded (o ∷ os) (x ∷ jx) (y ∷ jy) (z ∷ jz) pre after p o0 tf i vpos xs ys zs rest ep pos
      e a b c d f g =
    rw round (
      payload_loop-coded os jx jy jz (pre ++ triples (o0 ∷ [])) after p o tf (i + 1) (vpos + 1)
        (xs ++ (sub32 o.lid o0.lid ∷ [])) (ys ++ (sub32 o.time o0.time ∷ [])) (zs ++ (o.error ∷ []))
        rest (ep ∙ sym (append_assoc pre (triples (o0 ∷ [])) _)) (omega arith)
        (omega (arith, length-append pre (triples (o0 ∷ [])))) (omega arith) (omega arith)
        (omega arith) (omega (arith, length-append xs (sub32 o.lid o0.lid ∷ [])))
        (omega (
          arith,
          length-append xs (sub32 o.lid o0.lid ∷ []),
          length-append ys (sub32 o.time o0.time ∷ []),
        ))
        (omega (
          arith,
          length-append xs (sub32 o.lid o0.lid ∷ []),
          length-append ys (sub32 o.time o0.time ∷ []),
          length-append zs (o.error ∷ []),
        ))
      ∙ simp append_assoc)
  where
    round :
        payload_round true p tf i vpos (frame xs (x ∷ jx) ys (y ∷ jy) zs (z ∷ jz) rest)
        ≡ ok (
            frame
              (xs ++ (sub32 o.lid o0.lid ∷ []))
              jx
              (ys ++ (sub32 o.time o0.time ∷ []))
              jy
              (zs ++ (o.error ∷ []))
              jz
              rest)
    round =
        ap (λ q. payload_round true q tf i vpos (frame xs (x ∷ jx) ys (y ∷ jy) zs (z ∷ jz) rest)) ep
        ∙ payload_round-coded pre (triples os ++ after) o0 o tf i vpos _ pos e
        ∙ write_element-frame xs jx ys jy zs jz rest tf vpos x y z _ _ o.error d f g
