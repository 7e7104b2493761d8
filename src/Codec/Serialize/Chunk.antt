-- ===== src/Codec/Serialize/Chunk.antt =====
-- What `serialize` of Codec/Serialize.antt writes for a whole chunk, with delta encoding.
use audioneex.Prelude.{
  ℕ, suc, ◌+◌, ◌*◌, ◌<◌, ◌≡◌, refl, sym, ap, ◌∙◌, List, [], ◌∷◌, ◌++◌, arith, append_assoc, ok,
  true, length, length-append, sub32, split_at, All,
}
use audioneex.Postings.{Occ, Posting, IsPosting, lids, times, errors, triples, cache_layout}
use audioneex.Codec.Delta.Spec.{
  diffs, delta_lids, delta_times, delta_layout, delta_layouts, length-lids, length-times,
  length-errors,
}
use audioneex.Codec.Serialize.{payload_round, payload_loop, serialize_loop, serialize}
use audioneex.Memory.{load, store-ok, set?-behind}
use audioneex.Codec.Serialize.Frame.{frame, write_element-frame}
use audioneex.Codec.Serialize.Layout.{payload_round-first, payload_loop-coded}

-- The whole payload of a posting.
payload_loop-payload :
    (os : List Occ) (jx jy jz after : List ℕ) (fid tf0 tf vpos : ℕ) (xs rest : List ℕ)
    → 0 < length os
    → tf ≡ length os
    → length jx ≡ tf
    → length jy ≡ tf
    → length jz ≡ tf
    → vpos ≡ length xs
    → payload_loop true
        (fid ∷ tf0 ∷ (triples os ++ after))
        tf
        tf
        0
        vpos
        (frame xs jx [] jy [] jz rest)
      ≡ ok (frame (xs ++ delta_lids os) [] (delta_times os) [] (errors os) [] rest)
unfolding payload_loop
payload_loop-payload [] jx jy jz after fid tf0 tf vpos xs rest pos et a b c d = absurd (omega arith)
payload_loop-payload (o ∷ os) [] jy jz after fid tf0 tf vpos xs rest pos et a b c d =
    absurd (omega arith)
payload_loop-payload (o ∷ os) (x ∷ jx) [] jz after fid tf0 tf vpos xs rest pos et a b c d =
    absurd (omega arith)
payload_loop-payload (o ∷ os) (x ∷ jx) (y ∷ jy) [] after fid tf0 tf vpos xs rest pos et a b c d =
    absurd (omega arith)
payload_loop-payload (o ∷ os) (x ∷ jx) (y ∷ jy) (z ∷ jz) after fid tf0 tf vpos xs rest pos et a b c
      d =
    rw (et, round)
      (payload_loop-coded os jx jy jz (fid ∷ tf0 ∷ []) after _ o (suc (length os)) 1 (vpos + 1)
          (xs ++ (o.lid ∷ [])) (o.time ∷ []) (o.error ∷ []) rest refl (omega arith) (omega arith)
          (omega arith) (omega arith) (omega arith) (omega (arith, length-append xs (o.lid ∷ [])))
          (omega (arith, length-append xs (o.lid ∷ [])))
          (omega (arith, length-append xs (o.lid ∷ [])))
        ∙ simp append_assoc)
  where
    round :
        payload_round true
          (fid ∷ tf0 ∷ (triples (o ∷ os) ++ after))
          (suc (length os))
          0
          vpos
          (frame xs (x ∷ jx) [] (y ∷ jy) [] (z ∷ jz) rest)
        ≡ ok (frame (xs ++ (o.lid ∷ [])) jx (o.time ∷ []) jy (o.error ∷ []) jz rest)
    round =
        payload_round-first (fid ∷ tf0 ∷ []) (triples os ++ after) o (suc (length os)) vpos _ refl
        ∙ write_element-frame xs jx [] jy [] jz rest (suc (length os)) vpos x y z _ _ o.error d
            (omega arith) (omega arith)

-- Each pointer points at its posting in the cache.
abbrev pub Points : List (List ℕ) → List Posting → Type 0
Points [] [] = Unit {0}
Points [] (p ∷ ps) = ⊥
Points (q ∷ qs) [] = ⊥
Points (q ∷ qs) (p ∷ ps) = ((after : List ℕ) × (q ≡ cache_layout p ++ after)) × Points qs ps

pub length-delta_layout :
    (prev : ℕ) (p : Posting) → length (delta_layout prev p) ≡ 2 + 3 * length p.occs
length-delta_layout prev p = omega (
  arith,
  length-append (delta_lids p.occs) (delta_times p.occs ++ errors p.occs),
  length-append (delta_times p.occs) (errors p.occs),
  length-delta_lids p.occs,
  length-delta_times p.occs,
  length-errors p.occs,
)
  where
    length-diffs : (x : ℕ) (l : List ℕ) → length (diffs x l) ≡ length l
    length-diffs x [] = refl
    length-diffs x (y ∷ l) = ap suc (length-diffs y l)

    length-delta_lids : (os : List Occ) → length (delta_lids os) ≡ length os
    length-delta_lids [] = refl
    length-delta_lids (o ∷ os) = ap suc (length-diffs o.lid (lids os) ∙ length-lids os)

    length-delta_times : (os : List Occ) → length (delta_times os) ≡ length os
    length-delta_times [] = refl
    length-delta_times (o ∷ os) = ap suc (length-diffs o.time (times os) ∙ length-times os)

-- One posting, written over the cells behind `xs`.
serialize_loop-frame :
    (p : Posting) (after : List ℕ) (qs : List (List ℕ)) (prev vpos a b : ℕ)
    (xs jx jy jz rest : List ℕ)
    → 0 < length p.occs
    → vpos ≡ length xs
    → length jx ≡ length p.occs
    → length jy ≡ length p.occs
    → length jz ≡ length p.occs
    → serialize_loop true
        ((cache_layout p ++ after) ∷ qs)
        vpos
        prev
        (xs ++ (a ∷ b ∷ (jx ++ (jy ++ (jz ++ rest)))))
      ≡ serialize_loop true qs
          (vpos + 2 + length p.occs + 2 * length p.occs)
          p.fid
          (xs ++ (delta_layout prev p ++ rest))
unfolding serialize_loop load
serialize_loop-frame p after qs prev vpos a b xs jx jy jz rest pos ev ex ey ez =
    rw
      (
        store-ok _ _ _ (set?-behind xs _ vpos 0 (sub32 p.fid prev) _ (omega arith) refl),
        store-ok _ _ _ (set?-behind xs _ (vpos + 1) 1 tf _ (omega arith) refl),
        payload,
      )
      (ap (serialize_loop true qs (vpos + 2 + tf + 2 * tf) p.fid) (simp append_assoc))
  where
    tf : ℕ
    tf = length p.occs

    head : List ℕ
    head = xs ++ (sub32 p.fid prev ∷ tf ∷ [])

    payload :
        payload_loop true
          (cache_layout p ++ after)
          tf
          tf
          0
          (vpos + 2)
          (xs ++ (sub32 p.fid prev ∷ tf ∷ (jx ++ (jy ++ (jz ++ rest)))))
        ≡ ok (frame (head ++ delta_lids p.occs) [] (delta_times p.occs) [] (errors p.occs) [] rest)
    payload =
        ap (payload_loop true (cache_layout p ++ after) tf tf 0 (vpos + 2))
          (sym (append_assoc xs (sub32 p.fid prev ∷ tf ∷ []) (jx ++ (jy ++ (jz ++ rest)))))
        ∙ payload_loop-payload p.occs jx jy jz after p.fid tf tf (vpos + 2) head rest pos refl ex ey
            ez (omega (arith, length-append xs (sub32 p.fid prev ∷ tf ∷ [])))

serialize_loop-posting :
    (p : Posting) (after : List ℕ) (qs : List (List ℕ)) (prev vpos : ℕ) (xs junk rest : List ℕ)
    → 0 < length p.occs
    → vpos ≡ length xs
    → length junk ≡ 2 + 3 * length p.occs
    → serialize_loop true ((cache_layout p ++ after) ∷ qs) vpos prev (xs ++ (junk ++ rest))
      ≡ serialize_loop true qs
          (vpos + 2 + length p.occs + 2 * length p.occs)
          p.fid
          (xs ++ (delta_layout prev p ++ rest))
serialize_loop-posting p after qs prev vpos xs [] rest pos ev ej = absurd (omega arith)
serialize_loop-posting p after qs prev vpos xs (a ∷ []) rest pos ev ej = absurd (omega arith)
serialize_loop-posting p after qs prev vpos xs (a ∷ b ∷ junk) rest pos ev ej =
    let (jx, more, e1, ex, e2) =
      split_at (length p.occs) (length p.occs + length p.occs) junk (omega arith) in
    let (jy, jz, e3, ey, ez) = split_at (length p.occs) (length p.occs) more e2 in
    rw (e1, e3, append_assoc jx (jy ++ jz) rest, append_assoc jy jz rest)
      (serialize_loop-frame p after qs prev vpos a b xs jx jy jz rest pos ev ex ey ez)

serialize_loop-delta_layouts :
    (qs : List (List ℕ)) (ps : List Posting) (prev vpos : ℕ) (xs junk rest : List ℕ)
    → Points qs ps
    → All IsPosting ps
    → vpos ≡ length xs
    → length junk ≡ length (delta_layouts prev ps)
    → serialize_loop true qs vpos prev (xs ++ (junk ++ rest))
      ≡ ok (xs ++ (delta_layouts prev ps ++ rest))
serialize_loop-delta_layouts [] [] prev vpos xs [] rest pts h ev ej = unfold serialize_loop in refl
serialize_loop-delta_layouts [] [] prev vpos xs (x ∷ junk) rest pts h ev ej = absurd (omega arith)
serialize_loop-delta_layouts [] (p ∷ ps) prev vpos xs junk rest pts h ev ej = absurd pts
serialize_loop-delta_layouts (q ∷ qs) [] prev vpos xs junk rest pts h ev ej = absurd pts
serialize_loop-delta_layouts (q ∷ qs) (p ∷ ps) prev vpos xs junk rest ((after, eq), pts) (hp, hps)
      ev ej =
    let d = delta_layout prev p in
    let (j1, j2, e, e1, e2) =
      split_at (length d) (length (delta_layouts p.fid ps)) junk
        (ej ∙ length-append d (delta_layouts p.fid ps)) in
    rw (eq, e, append_assoc j1 j2 rest)
      (serialize_loop-posting p after qs prev vpos xs j1 (j2 ++ rest) hp.tf_pos ev
          (e1 ∙ length-delta_layout prev p)
        ∙ ap (serialize_loop true qs _ p.fid) (sym (append_assoc xs d (j2 ++ rest)))
        ∙ serialize_loop-delta_layouts qs ps p.fid _ (xs ++ d) j2 rest pts hps
            (omega (arith, length-append xs d, length-delta_layout prev p)) e2
        ∙ ap ok (simp append_assoc))

-- `serialize` overwrites the front of `ser_chunk` by the delta-coded postings that the pointers
-- point at, in order, and leaves what lies behind.
pub serialize-delta_layouts :
    (qs : List (List ℕ)) (ps : List Posting) (prev : ℕ) (junk rest : List ℕ)
    → Points qs ps
    → All IsPosting ps
    → length junk ≡ length (delta_layouts prev ps)
    → serialize qs (junk ++ rest) prev true ≡ ok (delta_layouts prev ps ++ rest)
unfolding serialize
serialize-delta_layouts qs ps prev junk rest pts h ej =
    serialize_loop-delta_layouts qs ps prev 0 [] junk rest pts h refl ej
