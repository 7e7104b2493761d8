-- ===== src/Cache/View.antt =====
-- The cache as a map from terms to lists of postings.
use audioneex.Prelude.{
  ℕ, suc, ◌+◌, ◌≤◌, ◌<◌, ◌^◌, ◌≡◌, refl, sym, ap, ◌∙◌, List, [], ◌∷◌, Bool-cases, inl, inr, ◌==◌,
  ==-refl, ==-ne, if◌then◌else◌, if_elim, arith, length, length-append, All, ok,
}
use audioneex.Postings.{Occ, Posting, triples, cache_layout, last_fid}
use audioneex.Cache.{IndexCache, Buffer, Change, find, put, update, count_change, reset}
use audioneex.Cache.Spec.{cached, cache_layouts, last_tf, add, add_occ, length-triples}
use audioneex.Cache.Update.{update_plist-cached}

pub find-put : (t : ℕ) (plist : List ℕ) (b : Buffer) → find t (put t plist b) ≡ plist
unfolding find put
find-put t plist [] = rw (==-refl t) refl
find-put t plist ((k, old) ∷ b) = elim (Bool-cases (k == t)) [
  | inl e ↦ rw (e, e) refl
  | inr e ↦ rw (e, e) (find-put t plist b)
]

pub find-put_other :
    (t u : ℕ) (plist : List ℕ) (b : Buffer) → ¬ (u ≡ t) → find u (put t plist b) ≡ find u b
unfolding find put
find-put_other t u plist [] ne = rw (==-ne t u (λ e. ne (sym e))) refl
find-put_other t u plist ((k, old) ∷ b) ne = elim (Bool-cases (k == t)) [
  | inl e ↦ rw (e, ==-ne k u (λ x. ne (sym x ∙ ground (arith, e)))) refl
  | inr e ↦ rw e (ap (λ l. if k == u then old else l) (find-put_other t u plist b ne))
]

-- Every list of the cache is the array of postings that each have an element, has no fid above `fid`
-- and has at most `n` words.
abbrev pub HasPostings : (fid n : ℕ) → List ℕ → Type 0
HasPostings fid n plist =
    (ps : List Posting) × (plist ≡ cached ps)
    × All (λ p. 0 < length p.occs) ps
    × (last_fid 0 ps ≤ fid)
    × (length (cached ps) ≤ n)

abbrev pub IsCache : (fid n : ℕ) → IndexCache → Type 0
IsCache fid n c = (t : ℕ) → HasPostings fid n (find t c.buffer)

add_occ-pos : (o : Occ) (os : List Occ) → 0 < length (add_occ o os)
unfolding add_occ
add_occ-pos o [] = omega arith
add_occ-pos o (q ∷ []) = ground arith
add_occ-pos o (q ∷ r ∷ os) = omega arith

length-add_occ : (o : Occ) (os : List Occ) → length (add_occ o os) ≤ suc (length os)
unfolding add_occ
length-add_occ o [] = omega arith
length-add_occ o (q ∷ []) = ground arith
length-add_occ o (q ∷ r ∷ os) = omega (arith, length-add_occ o (r ∷ os))

pub All-add :
    (fid : ℕ) (o : Occ) (ps : List Posting)
    → All (λ (p : Posting). 0 < length p.occs) ps
    → All (λ (p : Posting). 0 < length p.occs) (add fid o ps)
unfolding add
All-add fid o [] h = (omega arith, tt)
All-add fid o (p ∷ []) h =
    if_elim (All (λ (p : Posting). 0 < length p.occs)) (fid == p.fid) _ _
      (λ e. (add_occ-pos o p.occs, tt)) (λ e. (h.0, (omega arith, tt)))
All-add fid o (p ∷ q ∷ ps) h = (h.0, All-add fid o (q ∷ ps) h.1)

pub last_fid-add :
    (fid gid : ℕ) (o : Occ) (ps : List Posting)
    → last_fid gid ps ≤ fid
    → last_fid gid (add fid o ps) ≤ fid
unfolding add
last_fid-add fid gid o [] h = omega arith
last_fid-add fid gid o (p ∷ []) h = ground arith
last_fid-add fid gid o (p ∷ q ∷ ps) h = last_fid-add fid p.fid o (q ∷ ps) h

length-add :
    (fid : ℕ) (o : Occ) (ps : List Posting)
    → length (cache_layouts (add fid o ps)) ≤ length (cache_layouts ps) + 5
unfolding add
length-add fid o [] = omega arith
length-add fid o (p ∷ []) =
    if_elim (λ ps. length (cache_layouts ps) ≤ length (cache_layouts (p ∷ [])) + 5) (fid == p.fid) _
      _
      (λ e. omega (
        arith,
        length-triples (add_occ o p.occs),
        length-triples p.occs,
        length-add_occ o p.occs,
        length-append (triples (add_occ o p.occs)) [],
        length-append (triples p.occs) [],
      ))
      (λ e. omega (
        arith,
        length-append (triples p.occs) [],
        length-append (triples p.occs) (fid ∷ 1 ∷ o.lid ∷ o.time ∷ o.error ∷ []),
      ))
length-add fid o (p ∷ q ∷ ps) = omega (
  arith,
  length-append (cache_layout p) (cache_layouts (q ∷ ps)),
  length-append (cache_layout p) (cache_layouts (add fid o (q ∷ ps))),
  length-add fid o (q ∷ ps),
)

length-cached :
    (ps : List Posting)
    → (length (cached ps) ≤ length (cache_layouts ps) + 1)
      × (length (cache_layouts ps) ≤ length (cached ps))
length-cached [] = (omega arith, omega arith)
length-cached (p ∷ ps) =
    omega (arith, length-append (cache_layouts (p ∷ ps)) (last_tf 0 (p ∷ ps) ∷ []))

count_change-buffer :
    (entry_bytes : ℕ) (change : Change) (c : IndexCache) (u : ℕ)
    → find u (count_change entry_bytes change c).buffer ≡ find u c.buffer
unfolding count_change
count_change-buffer entry_bytes Change.created c u = refl
count_change-buffer entry_bytes Change.appended c u = refl
count_change-buffer entry_bytes Change.posted c u = refl
count_change-buffer entry_bytes Change.duplicate c u = refl
count_change-buffer entry_bytes Change.none_made c u = refl

pub length-cached-add :
    (fid : ℕ) (o : Occ) (ps : List Posting)
    → length (cached (add fid o ps)) ≤ length (cached ps) + 6
length-cached-add fid o ps =
    omega (arith, length-cached ps, length-cached (add fid o ps), length-add fid o ps)

-- `Update` with a fid that is not below the ones in the cache is defined; the list of the term becomes
-- the one of its postings after `add`, and the other lists stay.
pub update-find :
    (entry_bytes term fid : ℕ) (o : Occ) (c : IndexCache) (ps : List Posting)
    → find term c.buffer ≡ cached ps
    → All (λ (p : Posting). 0 < length p.occs) ps
    → last_fid 0 ps ≤ fid
    → length (cached ps) < 2 ^ 32
    → (c' : IndexCache) × (update entry_bytes term fid o.lid o.time o.error c ≡ ok c')
      × (find term c'.buffer ≡ cached (add fid o ps))
      × ((u : ℕ) → ¬ (u ≡ term) → find u c'.buffer ≡ find u c.buffer)
unfolding update
update-find entry_bytes term fid o c ps e ne below fits =
    let (change, up) = update_plist-cached fid o ps ne fits below in
    (
      count_change entry_bytes change
          (record c { buffer = put term (cached (add fid o ps)) c.buffer }),
      rw (e, up) refl,
      count_change-buffer entry_bytes change _ term
          ∙ find-put term (cached (add fid o ps)) c.buffer,
      λ u other.
          count_change-buffer entry_bytes change _ u
          ∙ find-put_other term u (cached (add fid o ps)) c.buffer other,
    )

-- An update of a sound cache gives a sound cache.
pub update-IsCache :
    (entry_bytes term fid n : ℕ) (o : Occ) (c : IndexCache)
    → IsCache fid n c
    → n < 2 ^ 32
    → (c' : IndexCache) × (update entry_bytes term fid o.lid o.time o.error c ≡ ok c')
      × IsCache fid (n + 6) c'
update-IsCache entry_bytes term fid n o c h fits =
    let (ps, e, ne, below, size) = h term in
    let (c', up, at, others) =
      update-find entry_bytes term fid o c ps e ne below (omega (arith, size)) in
    (
      c',
      up,
      λ u. elim (Bool-cases (u == term)) [
        | inl same ↦ (
          add fid o ps,
          ap (λ t. find t c'.buffer) {x = u} (ground (arith, same)) ∙ at,
          All-add fid o ps ne,
          last_fid-add fid 0 o ps below,
          omega (arith, length-cached-add fid o ps, size),
        )
        | inr differ ↦
            let (qs, e', ne', below', size') = h u in
            (qs, others u (λ x. ground (arith, differ)) ∙ e', ne', below', omega (arith, size'))
      ],
    )

-- A cache that is sound for a fid is sound for larger ones, and for more room.
pub IsCache-mono :
    (fid gid n m : ℕ) (c : IndexCache) → fid ≤ gid → n ≤ m → IsCache fid n c → IsCache gid m c
IsCache-mono fid gid n m c h k sound u =
    let (ps, e, ne, below, size) = sound u in (ps, e, ne, omega (arith, below), omega (arith, size))

-- After `Reset` it is sound for any fid.
pub reset-IsCache : (c : IndexCache) → IsCache 0 0 (reset c)
unfolding reset find
reset-IsCache c u = ([], refl, tt, omega arith, omega arith)
