-- ===== src/Cache/Refine.antt =====
-- `update_plist` of Cache.antt on the array of a list of postings.
use audioneex.Prelude.{
  ℕ, suc, ◌+◌, ◌*◌, ◌^◌, ◌≤◌, ◌<◌, ◌≡◌, refl, sym, ap, ◌∙◌, List, [], ◌∷◌, ◌++◌, arith,
  append_assoc, ok, if◌then◌else◌, ◌==◌, length, length-append, get_elem?, some, take, take-append,
  add32, mul32, sub64,
}
use audioneex.Memory.{load, store, load-append, get_elem?-append, store-ok, set?-behind}
use audioneex.Postings.{Occ, triples}
use audioneex.Cache.Spec.{same_occ, length-triples}
use audioneex.Cache.{Change, extend_plist}

-- The array with the last posting and its last element in sight; `tail` is what follows them.
abbrev pub shape : List ℕ → ℕ → ℕ → List Occ → Occ → List ℕ → List ℕ
shape pre fid tf os q tail = pre ++ (fid ∷ tf ∷ (triples os ++ (q.lid ∷ q.time ∷ q.error ∷ tail)))

module _ (pre : List ℕ) (fid tf : ℕ) (os : List Occ) (q : Occ) where
  pub length-shape :
      (tail : List ℕ)
      → length (shape pre fid tf os q tail) ≡ length pre + 5 + 3 * length os + length tail
  length-shape tail = omega (
    arith,
    length-append pre (fid ∷ tf ∷ (triples os ++ (q.lid ∷ q.time ∷ q.error ∷ tail))),
    length-append (triples os) (q.lid ∷ q.time ∷ q.error ∷ tail),
    length-triples os,
  )

  -- The cells behind the posting's elements but the last.
  load-shape :
      (tail : List ℕ) (k m v : ℕ)
      → k ≡ length pre + 2 + 3 * length os + m
      → get_elem? (q.lid ∷ q.time ∷ q.error ∷ tail) m ≡ some v
      → load (shape pre fid tf os q tail) k ≡ ok v
  load-shape tail k m v e h =
      load-append pre _ k (2 + 3 * length os + m) v (omega arith)
        (get_elem?-append (fid ∷ tf ∷ triples os) _ _ m (omega (arith, length-triples os)) ∙ h)

  store-tf :
      (tail : List ℕ) (k v : ℕ)
      → k ≡ length pre + 1
      → store (shape pre fid tf os q tail) k v ≡ ok (shape pre fid v os q tail)
  store-tf tail k v e = store-ok _ _ _ (set?-behind pre _ k 1 v _ e refl)

  take-shape :
      (tail rest : List ℕ) (k : ℕ)
      → k ≡ length pre + 5 + 3 * length os + length tail
      → take k (shape pre fid tf os q (tail ++ rest)) ≡ shape pre fid tf os q tail
  take-shape tail rest k e =
      ap (take k) (sym (simp append_assoc))
      ∙ take-append (shape pre fid tf os q tail) rest k (e ∙ sym (length-shape tail))

-- The array when `q` is the last element, and the elements that an update puts at the end.
abbrev pub plist : List ℕ → ℕ → List Occ → Occ → List ℕ
plist pre fid os q = shape pre fid (suc (length os)) os q (suc (length os) ∷ [])

abbrev pub appended_tail : List Occ → Occ → List ℕ
appended_tail os o = o.lid ∷ o.time ∷ o.error ∷ suc (suc (length os)) ∷ []

abbrev pub posted_tail : ℕ → Occ → List ℕ
posted_tail fid o = fid ∷ 1 ∷ o.lid ∷ o.time ∷ o.error ∷ 1 ∷ []

-- The three outcomes on a list that is not empty.
module _ (pre : List ℕ) (pfid : ℕ) (os : List Occ) (q : Occ)
    (fits : length pre + 6 + 3 * length os < 2 ^ 32) where
  size : length (plist pre pfid os q) ≡ length pre + 6 + 3 * length os
  size = omega (arith, length-shape pre pfid (suc (length os)) os q ((suc (length os)) ∷ []))

  load_ne :
      load (plist pre pfid os q) (sub64 (length (plist pre pfid os q)) 1) ≡ ok (suc (length os))
  load_ne =
      load-shape pre pfid (suc (length os)) os q ((suc (length os)) ∷ []) _ 3 (suc (length os))
        (omega (arith, size)) refl

  load_fido :
      load
        (plist pre pfid os q)
        (sub64 (sub64 (sub64 (length (plist pre pfid os q)) 1) (mul32 3 (suc (length os)))) 2)
      ≡ ok pfid
  load_fido = load-append pre _ _ 0 pfid (omega (arith, size)) refl

  load_tfo :
      load
        (plist pre pfid os q)
        (sub64 (sub64 (sub64 (length (plist pre pfid os q)) 1) (mul32 3 (suc (length os)))) 1)
      ≡ ok (suc (length os))
  load_tfo = load-append pre _ _ 1 (suc (length os)) (omega (arith, size)) refl

  load_lid :
      load (plist pre pfid os q) (sub64 (sub64 (length (plist pre pfid os q)) 1) 3) ≡ ok q.lid
  load_lid =
      load-shape pre pfid (suc (length os)) os q ((suc (length os)) ∷ []) _ 0 q.lid
        (omega (arith, size)) refl

  load_t : load (plist pre pfid os q) (sub64 (sub64 (length (plist pre pfid os q)) 1) 2) ≡ ok q.time
  load_t =
      load-shape pre pfid (suc (length os)) os q ((suc (length os)) ∷ []) _ 1 q.time
        (omega (arith, size)) refl

  load_e :
      load (plist pre pfid os q) (sub64 (sub64 (length (plist pre pfid os q)) 1) 1) ≡ ok q.error
  load_e =
      load-shape pre pfid (suc (length os)) os q ((suc (length os)) ∷ []) _ 2 q.error
        (omega (arith, size)) refl

  store_tfo :
      store
        (plist pre pfid os q)
        (sub64 (sub64 (sub64 (length (plist pre pfid os q)) 1) (mul32 3 (suc (length os)))) 1)
        (add32 (suc (length os)) 1)
      ≡ ok (shape pre pfid (suc (suc (length os))) os q ((suc (length os)) ∷ []))
  store_tfo =
      store-tf pre pfid (suc (length os)) os q ((suc (length os)) ∷ []) _
        (add32 (suc (length os)) 1) (omega (arith, size))
      ∙ ap (λ n. ok (shape pre pfid n os q ((suc (length os)) ∷ []))) {y = suc (suc (length os))}
          (omega arith)

  take_head :
      (n : ℕ)
      → take
          (sub64 (length (plist pre pfid os q)) 1)
          (shape pre pfid n os q ((suc (length os)) ∷ []))
        ≡ shape pre pfid n os q []
  take_head n = take-shape pre pfid n os q [] ((suc (length os)) ∷ []) _ (omega (arith, size))

  pub extend-shape :
      (fid : ℕ) (o : Occ)
      → pfid ≤ fid
      → extend_plist fid o.lid o.time o.error (plist pre pfid os q)
        ≡ ok (
            if fid == pfid
            then if same_occ o q then ((plist pre pfid os q), Change.duplicate) else (
              shape pre pfid (suc (suc (length os))) os q [] ++ appended_tail os o,
              Change.appended,
            )
            else (shape pre pfid (suc (length os)) os q [] ++ posted_tail fid o, Change.posted))
  unfolding extend_plist same_occ
  extend-shape fid o h =
      rw
        (
          load_ne,
          load_fido,
          load_tfo,
          load_lid,
          load_t,
          load_e,
          store_tfo,
          take_head (suc (length os)),
          take_head (suc (suc (length os))),
        )
        (ground arith)
