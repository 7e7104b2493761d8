-- ===== src/Flush/Round.antt =====
-- One round of the loop of Flush.antt over the postings of a cached list.
use audioneex.Prelude.{
  ℕ, ◌+◌, ◌*◌, ◌≤◌, ◌<◌, ◌^◌, ◌≡◌, sym, ap, ◌∙◌, List, [], ◌∷◌, ◌++◌, arith, append_assoc, length,
  length-append, All, ok,
}
use mathlib.Core.Path.{subst}
use audioneex.Postings.{Posting, IsPosting, Above, last_fid, cache_layout}
use audioneex.Cache.Spec.{length-triples}
use audioneex.Codec.Serialize.Chunk.{Points}
use audioneex.Store.{DataStore, DataStoreLaws}
use audioneex.Flush.{FlushState, emit, chunk_threshold}
use audioneex.Flush.Blocks.{concat, last_fid-append, last_fid-pos, fid-lt-last_fid}
use audioneex.Flush.Emit.{Holds, Untouched, Emitted}
use audioneex.Flush.Chunk.{ints, emit-Emitted}

-- The size of a posting, and where the last posting of a list begins.
abbrev pub size_of : Posting → ℕ
size_of p = 2 + 3 * length p.occs

abbrev pub last_offset : List Posting → ℕ
last_offset [] = 0
last_offset (p ∷ []) = 0
last_offset (p ∷ q ∷ ps) = size_of p + last_offset (q ∷ ps)

Above-append :
    (fid : ℕ) (ps qs : List Posting)
    → Above fid (ps ++ qs)
    → Above fid ps × Above (last_fid fid ps) qs
Above-append fid [] qs h = (tt, h)
Above-append fid (p ∷ ps) qs h =
    ((h.0, (Above-append p.fid ps qs h.1).0), (Above-append p.fid ps qs h.1).1)

pub All-split {ℓ κ} :
    {A : Type ℓ} (P : A → Type κ) (xs ys : List A) → All P (xs ++ ys) → All P xs × All P ys
All-split P [] ys h = (tt, h)
All-split P (x ∷ xs) ys h = ((h.0, (All-split P xs ys h.1).0), (All-split P xs ys h.1).1)

ints-append : (ps qs : List Posting) → ints (ps ++ qs) ≡ ints ps + ints qs
ints-append [] qs = omega arith
ints-append (p ∷ ps) qs = omega (arith, ints-append ps qs)

Points-snoc :
    (ptrs : List (List ℕ)) (ps : List Posting) (q after : List ℕ) (p : Posting)
    → Points ptrs ps
    → q ≡ cache_layout p ++ after
    → Points (ptrs ++ (q ∷ [])) (ps ++ (p ∷ []))
Points-snoc [] [] q after p h e = ((after, e), tt)
Points-snoc [] (r ∷ ps) q after p h e = absurd h
Points-snoc (x ∷ ptrs) [] q after p h e = absurd h
Points-snoc (x ∷ ptrs) (r ∷ ps) q after p h e = (h.0, Points-snoc ptrs ps q after p h.1 e)

pub length-cache_layout : (p : Posting) → length (cache_layout p) ≡ size_of p
length-cache_layout p = omega (arith, length-triples p.occs)

module _ (s : DataStore) (laws : DataStoreLaws s) (term : ℕ) where
  -- What the loop leads to: the store has the postings `ps` behind the ones before, nothing is pending
  -- and no other list is changed.
  pub record Flushed (st : FlushState s) (pss : List (List Posting)) (ps : List Posting)
      (st' : FlushState s) (pss' : List (List Posting)) : Type 0 where
    pub holds : Holds s laws term st' pss'
    pub cleared : st'.plchunk ≡ []
    pub cleared_size : st'.plchunk_size ≡ 0
    pub postings : concat pss' ≡ concat pss ++ ps
    pub untouched : Untouched s laws term st.store st'.store

  -- Before a round: the postings `qs` are pending, too few for a chunk, and `rs` are still to come.
  pub record Pending (st : FlushState s) (pss : List (List Posting)) (qs rs : List Posting)
      : Type 0 where
    pub holds : Holds s laws term st pss
    pub points : Points st.plchunk qs
    pub size : st.plchunk_size ≡ ints qs
    pub small : ints qs * 4 < chunk_threshold
    pub grows : Above (last_fid 0 (concat pss)) (qs ++ rs)
    pub fit : All IsPosting (qs ++ rs)
    pub short : All (λ p. size_of p ≤ 31000) rs
    pub few : length pss + length rs + 1 < 2 ^ 32

  -- The state when a posting is pushed.
  abbrev pub pushed : FlushState s → List ℕ → ℕ → FlushState s
  pushed st q n = record st { plchunk = st.plchunk ++ (q ∷ []); plchunk_size = st.plchunk_size + n }

  pushed-Holds :
      (st : FlushState s) (q : List ℕ) (n : ℕ) (pss : List (List Posting))
      → Holds s laws term st pss
      → Holds s laws term (pushed st q n) pss
  pushed-Holds st q n pss h = record {
    stored = h.stored;
    list_header = h.list_header;
    block_header = h.block_header;
    nonempty = h.nonempty;
  }

  module _ (st : FlushState s) (pss : List (List Posting)) (qs rs : List Posting) (r : Posting)
      (q after : List ℕ) (n : ℕ) (h : Pending st pss qs (r ∷ rs)) (at : q ≡ cache_layout r ++ after)
      (size : n ≡ size_of r) where
    rest_grows :
        Above (last_fid 0 (concat pss)) (qs ++ (r ∷ []))
        × Above (last_fid 0 (concat pss ++ (qs ++ (r ∷ [])))) rs
    rest_grows =
        let split =
          Above-append (last_fid 0 (concat pss)) (qs ++ (r ∷ [])) rs (simp append_assoc h.grows) in
        (
          split.0,
          subst (λ f. Above f rs) (sym (last_fid-append 0 (concat pss) (qs ++ (r ∷ [])))) split.1,
        )

    rest_fits : All IsPosting (qs ++ (r ∷ [])) × All IsPosting rs
    rest_fits = All-split IsPosting (qs ++ (r ∷ [])) rs (simp append_assoc h.fit)

    pub push-emit :
        (st1 : FlushState s) × (pss1 : List (List Posting)) × (emit s term (pushed st q n) ≡ ok st1)
        × Emitted s laws term (pushed st q n) pss (qs ++ (r ∷ [])) st1 pss1
    push-emit =
        emit-Emitted s laws term (pushed st q n) pss (qs ++ (r ∷ []))
          (pushed-Holds st q n pss h.holds) (omega (arith, length-append qs (r ∷ [])))
          (Points-snoc st.plchunk qs q after r h.points at) rest_fits.0
          (omega (
            arith,
            fid-lt-last_fid (last_fid 0 (concat pss)) (qs ++ (r ∷ [])) rest_grows.0 some_posting,
            last_fid-pos 0 (last_fid 0 (concat pss)) (qs ++ (r ∷ [])) some_posting,
          ))
          (omega (arith, ints-append qs (r ∷ []), h.small, h.short.0)) (omega (arith, h.few))
      where
        some_posting : 0 < length (qs ++ (r ∷ []))
        some_posting = omega (arith, length-append qs (r ∷ []))

    -- After an emission, nothing is pending.
    pub Emitted-Pending :
        (st1 : FlushState s) (pss1 : List (List Posting))
        → Emitted s laws term (pushed st q n) pss (qs ++ (r ∷ [])) st1 pss1
        → Pending st1 pss1 [] rs
    Emitted-Pending st1 pss1 e = record {
      holds = e.holds;
      points = subst (λ c. Points c []) (sym e.cleared) tt;
      size = e.cleared_size;
      small = omega arith;
      grows = subst (λ ps. Above (last_fid 0 ps) rs) (sym e.postings) rest_grows.1;
      fit = rest_fits.1;
      short = h.short.1;
      few = omega (arith, h.few, e.blocks);
    }

    -- Without one, the posting is pending.
    pub pushed-Pending :
        (st.plchunk_size + n) * 4 < chunk_threshold
        → Pending (pushed st q n) pss (qs ++ (r ∷ [])) rs
    pushed-Pending few_bytes = record {
      holds = pushed-Holds st q n pss h.holds;
      points = Points-snoc st.plchunk qs q after r h.points at;
      size = omega (arith, ints-append qs (r ∷ []), h.size, size);
      small = omega (arith, ints-append qs (r ∷ []), h.size, size, few_bytes);
      grows = simp append_assoc h.grows;
      fit = simp append_assoc h.fit;
      short = h.short.1;
      few = omega (arith, h.few);
    }

    pub Emitted-Flushed :
        (st1 st2 : FlushState s) (pss1 pss2 : List (List Posting))
        → Emitted s laws term (pushed st q n) pss (qs ++ (r ∷ [])) st1 pss1
        → Flushed st1 pss1 rs st2 pss2
        → Flushed st pss (qs ++ (r ∷ rs)) st2 pss2
    Emitted-Flushed st1 st2 pss1 pss2 e f = record {
      holds = f.holds;
      cleared = f.cleared;
      cleared_size = f.cleared_size;
      postings = f.postings ∙ ap (λ ps. ps ++ rs) e.postings ∙ simp append_assoc;
      untouched = λ u ne. f.untouched u ne ∙ e.untouched u ne;
    }
