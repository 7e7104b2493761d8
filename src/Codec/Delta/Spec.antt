-- ===== src/Codec/Delta/Spec.antt =====
-- Delta-coded postings, and that `delta_codec` of Codec/Delta.antt restores them.
use audioneex.Prelude.{
  ℕ, zero, suc, ◌*◌, ◌%◌, ◌^◌, ◌≤◌, ◌<◌, ◌≡◌, refl, sym, ap, ◌∙◌, List, [], ◌∷◌, ◌++◌, arith,
  append_assoc, ok, IsU32, All, length, length-append, sub32, add32, take-append, drop-append,
}
use audioneex.Postings.{
  Occ, Posting, IsPosting, IsOcc, lids, times, errors, block_layout, block_layouts, last_fid,
}
use audioneex.Codec.Delta.{ddecode, delta_run, delta_loop, delta_codec}

-- Each element less the one before it.
abbrev pub diffs : ℕ → List ℕ → List ℕ
diffs x [] = []
diffs x (y ∷ ys) = sub32 y x ∷ diffs y ys

abbrev pub delta_lids : List Occ → List ℕ
delta_lids [] = []
delta_lids (o ∷ os) = o.lid ∷ diffs o.lid (lids os)

abbrev pub delta_times : List Occ → List ℕ
delta_times [] = []
delta_times (o ∷ os) = o.time ∷ diffs o.time (times os)

-- <FID - previous FID,tf,{LID differences},{T differences},{E}>
abbrev pub delta_layout : ℕ → Posting → List ℕ
delta_layout prev p =
    sub32 p.fid prev ∷ length p.occs ∷ (delta_lids p.occs ++ (delta_times p.occs ++ errors p.occs))

abbrev pub delta_layouts : ℕ → List Posting → List ℕ
delta_layouts prev [] = []
delta_layouts prev (p ∷ ps) = delta_layout prev p ++ delta_layouts p.fid ps

pub delta_layouts-append :
    (prev : ℕ) (ps qs : List Posting)
    → delta_layouts prev (ps ++ qs) ≡ delta_layouts prev ps ++ delta_layouts (last_fid prev ps) qs
delta_layouts-append prev [] qs = refl
delta_layouts-append prev (p ∷ ps) qs =
    ap (λ l. delta_layout prev p ++ l) (delta_layouts-append p.fid ps qs)
    ∙ sym (append_assoc (delta_layout prev p) _ _)

delta_run-diffs :
    (x : ℕ) (ys rest : List ℕ)
    → IsU32 x
    → All IsU32 ys
    → delta_run ddecode (length ys) (x ∷ (diffs x ys ++ rest)) ≡ ok (x ∷ ys, rest)
unfolding delta_run
delta_run-diffs x [] rest hx hys = refl
delta_run-diffs x (y ∷ ys) rest hx (hy, hys) = rw (restored, delta_run-diffs y ys rest hy hys)
  where
    restored : add32 (sub32 y x) (x * 1 % 2 ^ 32) ≡ y
    restored = omega arith

pub length-lids : (os : List Occ) → length (lids os) ≡ length os
length-lids [] = refl
length-lids (o ∷ os) = ap suc (length-lids os)

All-lids : (os : List Occ) → All IsOcc os → All IsU32 (lids os)
All-lids [] h = tt
All-lids (o ∷ os) (ho, hos) = (ho.0, All-lids os hos)

All-times : (os : List Occ) → All IsOcc os → All IsU32 (times os)
All-times [] h = tt
All-times (o ∷ os) (ho, hos) = (ho.1, All-times os hos)

pub length-times : (os : List Occ) → length (times os) ≡ length os
length-times [] = refl
length-times (o ∷ os) = ap suc (length-times os)

pub length-errors : (os : List Occ) → length (errors os) ≡ length os
length-errors [] = refl
length-errors (o ∷ os) = ap suc (length-errors os)

sub32-one : (n : ℕ) → IsU32 (suc n) → sub32 (suc n) 1 ≡ n
sub32-one n h = omega arith

delta_run-lids :
    (os : List Occ) (rest : List ℕ)
    → 0 < length os
    → IsU32 (length os)
    → All IsOcc os
    → delta_run ddecode (sub32 (length os) 1) (delta_lids os ++ rest) ≡ ok (lids os, rest)
delta_run-lids [] rest pos fits h = absurd (omega arith)
delta_run-lids (o ∷ os) rest pos fits (ho, hos) =
    rw (sub32-one (length os) fits, ← length-lids os)
      (delta_run-diffs o.lid (lids os) rest ho.0 (All-lids os hos))

delta_run-times :
    (os : List Occ) (rest : List ℕ)
    → 0 < length os
    → IsU32 (length os)
    → All IsOcc os
    → delta_run ddecode (sub32 (length os) 1) (delta_times os ++ rest) ≡ ok (times os, rest)
delta_run-times [] rest pos fits h = absurd (omega arith)
delta_run-times (o ∷ os) rest pos fits (ho, hos) =
    rw (sub32-one (length os) fits, ← length-times os)
      (delta_run-diffs o.time (times os) rest ho.1 (All-times os hos))

-- One round of the loop.
delta_loop-delta_layout :
    (p : Posting) (fuel prev : ℕ) (rest out : List ℕ)
    → IsPosting p
    → IsU32 prev
    → delta_loop ddecode fuel rest p.fid ≡ ok out
    → delta_loop ddecode (suc fuel) (delta_layout prev p ++ rest) prev ≡ ok (block_layout p ++ out)
unfolding delta_loop
delta_loop-delta_layout p fuel prev rest out v hprev e =
    rw
      (
        append_assoc (delta_lids p.occs) _ rest,
        append_assoc (delta_times p.occs) _ rest,
        delta_run-lids p.occs _ v.tf_pos (omega (arith, v.tf_fits)) v.occs_fit,
        delta_run-times p.occs _ v.tf_pos (omega (arith, v.tf_fits)) v.occs_fit,
        drop-append (errors p.occs) rest _ (sym (length-errors p.occs)),
        take-append (errors p.occs) rest _ (sym (length-errors p.occs)),
        restored,
        e,
      )
      (simp append_assoc)
  where
    restored : add32 (sub32 p.fid prev) prev ≡ p.fid
    restored = omega (arith, v.fid_fits)

pub delta_loop-delta_layouts :
    (ps : List Posting) (fuel prev : ℕ)
    → All IsPosting ps
    → IsU32 prev
    → length ps ≤ fuel
    → delta_loop ddecode fuel (delta_layouts prev ps) prev ≡ ok (block_layouts ps)
delta_loop-delta_layouts [] fuel prev h hprev fits = unfold delta_loop in refl
delta_loop-delta_layouts (p ∷ ps) zero prev h hprev fits = absurd (omega arith)
delta_loop-delta_layouts (p ∷ ps) (suc fuel) prev (hp, hps) hprev fits =
    delta_loop-delta_layout p fuel prev _ _ hp hprev
      (delta_loop-delta_layouts ps fuel p.fid hps hp.fid_fits (omega arith))

length-le-delta_layouts :
    (prev : ℕ) (ps : List Posting) → length ps ≤ length (delta_layouts prev ps)
length-le-delta_layouts prev [] = omega arith
length-le-delta_layouts prev (p ∷ ps) =
    rw (length-append (delta_layout prev p) (delta_layouts p.fid ps))
      (omega (arith, length-le-delta_layouts p.fid ps))

-- `delta_codec` restores the postings of a delta-coded array, from the fid that they are coded from.
pub delta_codec-delta_layouts :
    (ps : List Posting) (prev : ℕ)
    → All IsPosting ps
    → IsU32 prev
    → delta_codec ddecode (delta_layouts prev ps) prev ≡ ok (block_layouts ps)
unfolding delta_codec
delta_codec-delta_layouts ps prev h hprev =
    delta_loop-delta_layouts ps _ prev h hprev (length-le-delta_layouts prev ps)
