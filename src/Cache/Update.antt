-- ===== src/Cache/Update.antt =====
-- `Update` (Cache.antt) implements `add` (Cache/Spec.antt).
use audioneex.Prelude.{
  ℕ, suc, ◌+◌, ◌*◌, ◌^◌, ◌≤◌, ◌<◌, ◌≡◌, refl, sym, ap, ◌∙◌, List, [], ◌∷◌, ◌++◌, arith,
  append_assoc, append-nil, ok, if◌then◌else◌, ◌==◌, length, length-append, All, Bool-cases, inl,
  inr,
}
use audioneex.Postings.{Occ, Posting, last_fid}
use audioneex.Cache.Spec.{
  cache_layouts, cache_layouts-append, cached, same_occ, add, snoc_cases, add_occ-snoc, add-snoc,
  cached-snoc, triples-append,
}
use audioneex.Cache.{Change, extend_plist, update_plist}
use audioneex.Cache.Refine.{shape, length-shape, plist, appended_tail, posted_tail, extend-shape}

-- The array of a list whose last posting and last element are known.
cached-shape :
    (ps : List Posting) (fid : ℕ) (os : List Occ) (q : Occ)
    → cached (ps ++ (record { fid = fid; occs = os ++ (q ∷ []) } ∷ []))
      ≡ plist (cache_layouts ps) fid os q
cached-shape ps fid os q =
    cached-snoc ps _ ∙ rw (triples-append os (q ∷ []), tf) (simp append_assoc)
  where
    tf : length (os ++ (q ∷ [])) ≡ suc (length os)
    tf = omega (arith, length-append os (q ∷ []))

cached-grown :
    (ps : List Posting) (fid : ℕ) (os : List Occ) (q o : Occ)
    → cached (ps ++ (record { fid = fid; occs = os ++ (q ∷ o ∷ []) } ∷ []))
      ≡ shape (cache_layouts ps) fid (suc (suc (length os))) os q [] ++ appended_tail os o
cached-grown ps fid os q o =
    cached-snoc ps _ ∙ rw (triples-append os (q ∷ o ∷ []), tf) (simp append_assoc)
  where
    tf : length (os ++ (q ∷ o ∷ [])) ≡ suc (suc (length os))
    tf = omega (arith, length-append os (q ∷ o ∷ []))

cached-posted :
    (ps : List Posting) (pfid fid : ℕ) (os : List Occ) (q o : Occ)
    → cached (
        ps
        ++ (record { fid = pfid; occs = os ++ (q ∷ []) }
            ∷ record { fid = fid; occs = o ∷ [] }
            ∷ []))
      ≡ shape (cache_layouts ps) pfid (suc (length os)) os q [] ++ posted_tail fid o
cached-posted ps pfid fid os q o =
    ap cached (sym (append_assoc ps (p ∷ []) _))
    ∙ cached-snoc (ps ++ (p ∷ [])) (record { fid = fid; occs = o ∷ [] })
    ∙ rw (cache_layouts-append ps (p ∷ []), triples-append os (q ∷ []), tf)
        (simp (append_assoc, append-nil))
  where
    p : Posting
    p = record { fid = pfid; occs = os ++ (q ∷ []) }

    tf : length (os ++ (q ∷ [])) ≡ suc (length os)
    tf = omega (arith, length-append os (q ∷ []))

-- The list of postings after `add`, as the array that `Update` leaves.
cached-add :
    (fid : ℕ) (o : Occ) (ps : List Posting) (pfid : ℕ) (os : List Occ) (q : Occ)
    → cached (add fid o (ps ++ (record { fid = pfid; occs = os ++ (q ∷ []) } ∷ []))) ≡ (
        if fid == pfid
        then if same_occ o q
          then plist (cache_layouts ps) pfid os q
          else shape (cache_layouts ps) pfid (suc (suc (length os))) os q [] ++ appended_tail os o
        else shape (cache_layouts ps) pfid (suc (length os)) os q [] ++ posted_tail fid o)
cached-add fid o ps pfid os q = elim (Bool-cases (fid == pfid)) [
  | inl same ↦ elim (Bool-cases (same_occ o q)) [
    | inl dup ↦ rw (add-snoc fid o ps _, same, add_occ-snoc o os q, dup) (cached-shape ps pfid os q)
    | inr new ↦
        rw (add-snoc fid o ps _, same, add_occ-snoc o os q, new) (cached-grown ps pfid os q o)
  ]
  | inr other ↦ rw (add-snoc fid o ps _, other) (cached-posted ps pfid fid os q o)
]

update_plist-extend :
    (fid lid t e : ℕ) (l : List ℕ)
    → 0 < length l
    → update_plist fid lid t e l ≡ extend_plist fid lid t e l
unfolding update_plist
update_plist-extend fid lid t e [] h = absurd (omega arith)
update_plist-extend fid lid t e (x ∷ xs) h = refl

update_plist-snoc :
    (fid : ℕ) (o : Occ) (ps : List Posting) (pfid : ℕ) (os : List Occ) (q : Occ)
    → length (cached (ps ++ (record { fid = pfid; occs = os ++ (q ∷ []) } ∷ []))) < 2 ^ 32
    → pfid ≤ fid
    → (change : Change) × (update_plist fid o.lid o.time o.error
          (cached (ps ++ (record { fid = pfid; occs = os ++ (q ∷ []) } ∷ [])))
        ≡ ok (
          cached (add fid o (ps ++ (record { fid = pfid; occs = os ++ (q ∷ []) } ∷ []))),
          change,
        ))
update_plist-snoc fid o ps pfid os q fits h =
    rw
      (
        cached-shape ps pfid os q,
        cached-add fid o ps pfid os q,
        update_plist-extend fid o.lid o.time o.error (plist (cache_layouts ps) pfid os q)
            (omega (arith, size)),
        extend-shape (cache_layouts ps) pfid os q
            (omega (arith, size, ap length (cached-shape ps pfid os q))) fid o h,
      )
      (elim (Bool-cases (fid == pfid)) [
        | inl same ↦ elim (Bool-cases (same_occ o q)) [
          | inl dup ↦ (Change.duplicate, rw (same, dup))
          | inr new ↦ (Change.appended, rw (same, new))
        ]
        | inr other ↦ (Change.posted, rw other)
      ])
  where
    size :
        length (plist (cache_layouts ps) pfid os q) ≡ length (cache_layouts ps) + 6 + 3 * length os
    size =
        omega (
          arith,
          length-shape (cache_layouts ps) pfid (suc (length os)) os q (suc (length os) ∷ []),
        )

last_fid-snoc : (fid : ℕ) (ps : List Posting) (p : Posting) → last_fid fid (ps ++ (p ∷ [])) ≡ p.fid
last_fid-snoc fid [] p = refl
last_fid-snoc fid (q ∷ ps) p = last_fid-snoc q.fid ps p

All-last {ℓ κ} : {A : Type ℓ} (P : A → Type κ) (xs : List A) (y : A) → All P (xs ++ (y ∷ [])) → P y
All-last P [] y h = h.0
All-last P (x ∷ xs) y h = All-last P xs y h.1

-- A posting with an element, from the elements' end.
update_plist-last :
    (fid : ℕ) (o : Occ) (ps : List Posting) (pfid : ℕ) (occs : List Occ)
    → 0 < length occs
    → length (cached (ps ++ (record { fid = pfid; occs = occs } ∷ []))) < 2 ^ 32
    → pfid ≤ fid
    → (change : Change) × (update_plist fid o.lid o.time o.error
          (cached (ps ++ (record { fid = pfid; occs = occs } ∷ [])))
        ≡ ok (cached (add fid o (ps ++ (record { fid = pfid; occs = occs } ∷ []))), change))
update_plist-last fid o ps pfid [] pos fits h = absurd (omega arith)
update_plist-last fid o ps pfid (q ∷ occs) pos fits h =
    let (os, r, e) = snoc_cases q occs in
    rw e (update_plist-snoc fid o ps pfid os r (rw e at fits) h)

update_plist-init :
    (fid : ℕ) (o : Occ) (ps init : List Posting) (last : Posting)
    → ps ≡ init ++ (last ∷ [])
    → All (λ p. 0 < length p.occs) ps
    → length (cached ps) < 2 ^ 32
    → last_fid 0 ps ≤ fid
    → (change : Change) × (update_plist fid o.lid o.time o.error (cached ps)
        ≡ ok (cached (add fid o ps), change))
update_plist-init fid o ps init last e ne fits h = rw e (
    update_plist-last fid o init last.fid last.occs
      (All-last (λ p. 0 < length p.occs) init last (rw e at ne)) (rw e at fits)
      (rw (e, last_fid-snoc 0 init last) at h))

-- On the array of a list of postings that each have an element, `Update` with a fid not below the
-- last one is defined, and leaves the array of the list after `add`. (The array is shorter than
-- 2 ^ 32, so no position in it wraps.)
pub update_plist-cached :
    (fid : ℕ) (o : Occ) (ps : List Posting)
    → All (λ p. 0 < length p.occs) ps
    → length (cached ps) < 2 ^ 32
    → last_fid 0 ps ≤ fid
    → (change : Change) × (update_plist fid o.lid o.time o.error (cached ps)
        ≡ ok (cached (add fid o ps), change))
update_plist-cached fid o [] ne fits h = (Change.created, unfold update_plist add in refl)
update_plist-cached fid o (p ∷ ps) ne fits h =
    let (init, last, e) = snoc_cases p ps in update_plist-init fid o (p ∷ ps) init last e ne fits h
