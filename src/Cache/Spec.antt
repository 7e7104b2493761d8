-- ===== src/Cache/Spec.antt =====
-- What a cached list stands for, and what an update should do to it.
use audioneex.Prelude.{
  ℕ, ◌*◌, ◌≡◌, refl, ap, List, [], ◌∷◌, ◌++◌, Bool, ◌&&◌, ◌==◌, if◌then◌else◌, arith, length,
  append_assoc, append-nil,
}
use audioneex.Postings.{Occ, Posting, triples, cache_layout}

-- The postings of a list in the cache, one behind the other.
abbrev pub cache_layouts : List Posting → List ℕ
cache_layouts [] = []
cache_layouts (p ∷ ps) = cache_layout p ++ cache_layouts ps

abbrev pub last_tf : ℕ → List Posting → ℕ
last_tf tf [] = tf
last_tf tf (p ∷ ps) = last_tf (length p.occs) ps

-- The array of a list: its postings, and the tf of the last one at the end.
abbrev pub cached : List Posting → List ℕ
cached [] = []
cached (p ∷ ps) = cache_layouts (p ∷ ps) ++ (last_tf 0 (p ∷ ps) ∷ [])

unfoldable pub same_occ : Occ → Occ → Bool
same_occ o q = o.lid == q.lid && (o.time == q.time && o.error == q.error)

-- Adds an element behind the others, unless it repeats the last one.
unfoldable pub add_occ : Occ → List Occ → List Occ
unfolding same_occ
add_occ o [] = o ∷ []
add_occ o (q ∷ []) = if same_occ o q then q ∷ [] else q ∷ o ∷ []
add_occ o (q ∷ r ∷ os) = q ∷ add_occ o (r ∷ os)

-- Adds an element to the last posting if that has the given fid, and else to a new posting.
unfoldable pub add : ℕ → Occ → List Posting → List Posting
unfolding add_occ
add fid o [] = record { fid = fid; occs = o ∷ [] } ∷ []
add fid o (p ∷ []) =
    if fid == p.fid
    then record { fid = p.fid; occs = add_occ o p.occs } ∷ []
    else p ∷ record { fid = fid; occs = o ∷ [] } ∷ []
add fid o (p ∷ q ∷ ps) = p ∷ add fid o (q ∷ ps)

-- A list that is not empty, seen from its end.
pub snoc_cases {ℓ} :
    {A : Type ℓ} (x : A) (xs : List A)
    → (init : List A) × (last : A) × (x ∷ xs ≡ init ++ (last ∷ []))
snoc_cases x [] = ([], x, refl)
snoc_cases x (y ∷ xs) = let (init, last, e) = snoc_cases y xs in (x ∷ init, last, ap (◌∷◌ x) e)

pub add_occ-snoc :
    (o : Occ) (os : List Occ) (q : Occ)
    → add_occ o (os ++ (q ∷ [])) ≡ (if same_occ o q then os ++ (q ∷ []) else os ++ (q ∷ o ∷ []))
unfolding add_occ
add_occ-snoc o [] q = refl
add_occ-snoc o (r ∷ []) q = ground (arith, add_occ-snoc o [] q)
add_occ-snoc o (r ∷ s ∷ os) q = ground (arith, add_occ-snoc o (s ∷ os) q)

pub add-snoc :
    (fid : ℕ) (o : Occ) (ps : List Posting) (p : Posting)
    → add fid o (ps ++ (p ∷ []))
      ≡ ps
        ++ (if fid == p.fid
            then record { fid = p.fid; occs = add_occ o p.occs } ∷ []
            else p ∷ record { fid = fid; occs = o ∷ [] } ∷ [])
unfolding add
add-snoc fid o [] p = refl
add-snoc fid o (r ∷ []) p = ap (◌∷◌ r) (add-snoc fid o [] p)
add-snoc fid o (r ∷ s ∷ ps) p = ap (◌∷◌ r) (add-snoc fid o (s ∷ ps) p)

pub cache_layouts-append :
    (ps qs : List Posting) → cache_layouts (ps ++ qs) ≡ cache_layouts ps ++ cache_layouts qs
cache_layouts-append [] qs = refl
cache_layouts-append (p ∷ ps) qs = rw (cache_layouts-append ps qs, append_assoc)

pub triples-append : (os qs : List Occ) → triples (os ++ qs) ≡ triples os ++ triples qs
triples-append [] qs = refl
triples-append (o ∷ os) qs = rw (triples-append os qs)

pub length-triples : (os : List Occ) → length (triples os) ≡ 3 * length os
length-triples [] = omega arith
length-triples (o ∷ os) = omega (arith, length-triples os)

last_tf-snoc :
    (tf : ℕ) (ps : List Posting) (p : Posting) → last_tf tf (ps ++ (p ∷ [])) ≡ length p.occs
last_tf-snoc tf [] p = refl
last_tf-snoc tf (q ∷ ps) p = last_tf-snoc (length q.occs) ps p

-- The array from its end.
pub cached-snoc :
    (ps : List Posting) (p : Posting)
    → cached (ps ++ (p ∷ [])) ≡ cache_layouts ps ++ (cache_layout p ++ (length p.occs ∷ []))
cached-snoc [] p = rw append-nil
cached-snoc (q ∷ ps) p =
    rw (cache_layouts-append ps (p ∷ []), last_tf-snoc (length q.occs) ps p)
      (simp (append_assoc, append-nil))
