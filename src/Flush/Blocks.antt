-- ===== src/Flush/Blocks.antt =====
-- The stored form of a list of postings that is cut into blocks.
use audioneex.Prelude.{
  ℕ, suc, ◌+◌, ◌<◌, ◌≡◌, refl, sym, ap, ◌∙◌, List, [], ◌∷◌, ◌++◌, arith, append_assoc, append-nil,
  length, length-append, All, ok,
}
use audioneex.Memory.{load}
use audioneex.Postings.{Posting, Above, last_fid}
use audioneex.Codec.Block.RoundTrip.{chunk_bytes, chunk_bytes-append}
use audioneex.Codec.Serialize.Chunk.{Points}
use audioneex.Store.{PListBlockHeader, Block, StoredList, null_block, header_at, append_chunk}
use audioneex.Flush.{back}

abbrev pub concat : List (List Posting) → List Posting
concat [] = []
concat (ps ∷ pss) = ps ++ concat pss

abbrev pub header_of : ℕ → List Posting → PListBlockHeader
header_of id ps = record { id = id; body_size = length (chunk_bytes 0 ps); fid_max = last_fid 0 ps }

-- Each block is coded from fid 0, and its header has its number, its size and its last fid.
abbrev pub blocks_of : ℕ → List (List Posting) → List Block
blocks_of n [] = []
blocks_of n (ps ∷ pss) =
    record { header = header_of (suc n) ps; body = chunk_bytes 0 ps } ∷ blocks_of (suc n) pss

abbrev pub list_of : List (List Posting) → StoredList
list_of pss = record { header = record { block_count = length pss }; blocks = blocks_of 0 pss }

abbrev pub last_header : ℕ → List (List Posting) → PListBlockHeader
last_header n [] = null_block
last_header n (ps ∷ []) = header_of (suc n) ps
last_header n (ps ∷ qs ∷ pss) = last_header (suc n) (qs ∷ pss)

abbrev pub last_block : List (List Posting) → List Posting
last_block [] = []
last_block (ps ∷ []) = ps
last_block (ps ∷ qs ∷ pss) = last_block (qs ∷ pss)

-- Postings that go to the end of the last block.
abbrev pub extend_last : List Posting → List (List Posting) → List (List Posting)
extend_last qs [] = []
extend_last qs (ps ∷ []) = (ps ++ qs) ∷ []
extend_last qs (ps ∷ rs ∷ pss) = ps ∷ extend_last qs (rs ∷ pss)

abbrev pub NonEmpty : List (List Posting) → Type 0
NonEmpty = All (λ ps. 0 < length ps)

pub last_header-blocks :
    (n : ℕ) (pss : List (List Posting))
    → header_at (blocks_of n pss) (length pss) ≡ last_header n pss
last_header-blocks n [] = refl
last_header-blocks n (ps ∷ []) = refl
last_header-blocks n (ps ∷ qs ∷ pss) = last_header-blocks (suc n) (qs ∷ pss)

pub last_header-last_block :
    (n : ℕ) (pss : List (List Posting))
    → 0 < length pss
    → last_header n pss ≡ header_of (n + length pss) (last_block pss)
last_header-last_block n [] h = absurd (omega arith)
last_header-last_block n (ps ∷ []) h = ap (λ k. header_of k ps) {x = suc n} (omega arith)
last_header-last_block n (ps ∷ qs ∷ pss) h =
    last_header-last_block (suc n) (qs ∷ pss) (omega arith)
    ∙ ap (λ k. header_of k (last_block (qs ∷ pss))) {x = suc n + suc (length pss)} (omega arith)

pub last_header-id : (pss : List (List Posting)) → (last_header 0 pss).id ≡ length pss
last_header-id [] = refl
last_header-id (ps ∷ pss) =
    ap (λ (h : PListBlockHeader). h.id) (last_header-last_block 0 (ps ∷ pss) (omega arith))
    ∙ omega arith

pub last_fid-append :
    (fid : ℕ) (ps qs : List Posting) → last_fid fid (ps ++ qs) ≡ last_fid (last_fid fid ps) qs
last_fid-append fid [] qs = refl
last_fid-append fid (p ∷ ps) qs = last_fid-append p.fid ps qs

pub last_fid-pos :
    (fid gid : ℕ) (ps : List Posting) → 0 < length ps → last_fid fid ps ≡ last_fid gid ps
last_fid-pos fid gid [] h = absurd (omega arith)
last_fid-pos fid gid (p ∷ ps) h = refl

pub fid_max-concat :
    (n fid : ℕ) (pss : List (List Posting))
    → 0 < length pss
    → NonEmpty pss
    → (last_header n pss).fid_max ≡ last_fid fid (concat pss)
fid_max-concat n fid [] h ne = absurd (omega arith)
fid_max-concat n fid (ps ∷ []) h ne = rw append-nil (last_fid-pos 0 fid ps ne.0)
fid_max-concat n fid (ps ∷ qs ∷ pss) h ne =
    fid_max-concat (suc n) (last_fid fid ps) (qs ∷ pss) (omega arith) ne.1
    ∙ sym (last_fid-append fid ps (concat (qs ∷ pss)))

-- The chunk that continues the last block.
pub append_chunk-extend_last :
    (n k : ℕ) (qs : List Posting) (pss : List (List Posting))
    → k ≡ n + length pss
    → append_chunk
        (header_of k (last_block pss ++ qs))
        (chunk_bytes (last_fid 0 (last_block pss)) qs)
        (blocks_of n pss)
      ≡ blocks_of n (extend_last qs pss)
append_chunk-extend_last n k qs [] e = refl
append_chunk-extend_last n k qs (ps ∷ []) e =
    rw (chunk_bytes-append 0 ps qs) (ap (λ i. block i ∷ []) {x = k} {y = suc n} (omega arith))
  where
    block : ℕ → Block
    block i = record { header = header_of i (ps ++ qs); body = chunk_bytes 0 (ps ++ qs) }
append_chunk-extend_last n k qs (ps ∷ rs ∷ pss) e =
    ap (◌∷◌ (record { header = header_of (suc n) ps; body = chunk_bytes 0 ps }))
      (append_chunk-extend_last (suc n) k qs (rs ∷ pss) (omega arith))

pub length-extend_last :
    (qs : List Posting) (pss : List (List Posting)) → length (extend_last qs pss) ≡ length pss
length-extend_last qs [] = refl
length-extend_last qs (ps ∷ []) = refl
length-extend_last qs (ps ∷ rs ∷ pss) = ap suc (length-extend_last qs (rs ∷ pss))

pub last_block-extend_last :
    (qs : List Posting) (pss : List (List Posting))
    → 0 < length pss
    → last_block (extend_last qs pss) ≡ last_block pss ++ qs
last_block-extend_last qs [] h = absurd (omega arith)
last_block-extend_last qs (ps ∷ []) h = refl
last_block-extend_last qs (ps ∷ rs ∷ []) h = refl
last_block-extend_last qs (ps ∷ rs ∷ ts ∷ pss) h =
    last_block-extend_last qs (rs ∷ ts ∷ pss) (omega arith)

pub concat-extend_last :
    (qs : List Posting) (pss : List (List Posting))
    → 0 < length pss
    → concat (extend_last qs pss) ≡ concat pss ++ qs
concat-extend_last qs [] h = absurd (omega arith)
concat-extend_last qs (ps ∷ []) h = simp append-nil
concat-extend_last qs (ps ∷ rs ∷ pss) h =
    rw (concat-extend_last qs (rs ∷ pss) (omega arith)) (simp append_assoc)

pub extend_last-NonEmpty :
    (qs : List Posting) (pss : List (List Posting)) → NonEmpty pss → NonEmpty (extend_last qs pss)
extend_last-NonEmpty qs [] ne = tt
extend_last-NonEmpty qs (ps ∷ []) ne = (omega (arith, length-append ps qs), tt)
extend_last-NonEmpty qs (ps ∷ rs ∷ pss) ne = (ne.0, extend_last-NonEmpty qs (rs ∷ pss) ne.1)

pub blocks_of-snoc :
    (n k : ℕ) (pss : List (List Posting)) (qs : List Posting)
    → k ≡ suc (n + length pss)
    → blocks_of n (pss ++ (qs ∷ []))
      ≡ blocks_of n pss ++ (record { header = header_of k qs; body = chunk_bytes 0 qs } ∷ [])
blocks_of-snoc n k [] qs e = ap (λ i. block i ∷ []) {x = suc n} {y = k} (omega arith)
  where
    block : ℕ → Block
    block i = record { header = header_of i qs; body = chunk_bytes 0 qs }
blocks_of-snoc n k (ps ∷ pss) qs e =
    ap (◌∷◌ (record { header = header_of (suc n) ps; body = chunk_bytes 0 ps }))
      (blocks_of-snoc (suc n) k pss qs (omega arith))

pub concat-snoc :
    (pss : List (List Posting)) (qs : List Posting) → concat (pss ++ (qs ∷ [])) ≡ concat pss ++ qs
concat-snoc [] qs = append-nil qs
concat-snoc (ps ∷ pss) qs = rw (concat-snoc pss qs) (simp append_assoc)

pub snoc-last_block :
    (pss : List (List Posting)) (qs : List Posting) → last_block (pss ++ (qs ∷ [])) ≡ qs
snoc-last_block [] qs = refl
snoc-last_block (ps ∷ []) qs = refl
snoc-last_block (ps ∷ rs ∷ pss) qs = snoc-last_block (rs ∷ pss) qs

-- The pointer at the end of a chunk, and the fid that it points at.
pub back-Points :
    (qs : List (List ℕ)) (ps : List Posting)
    → Points qs ps
    → 0 < length ps
    → (p : List ℕ) × (back qs ≡ ok p) × (load p 0 ≡ ok (last_fid 0 ps))
unfolding back load
back-Points qs [] pts h = absurd (omega arith)
back-Points [] (p ∷ ps) pts h = absurd pts
back-Points (q ∷ []) (p ∷ []) ((after, e), pts) h = (q, refl, rw e)
back-Points (q ∷ []) (p ∷ r ∷ ps) pts h = absurd pts.1
back-Points (q ∷ q' ∷ qs) (p ∷ []) pts h = absurd pts.1
back-Points (q ∷ q' ∷ qs) (p ∷ r ∷ ps) pts h = back-Points (q' ∷ qs) (r ∷ ps) pts.1 (omega arith)

pub fid-lt-last_fid :
    (fid : ℕ) (ps : List Posting) → Above fid ps → 0 < length ps → fid < last_fid fid ps
fid-lt-last_fid fid [] a h = absurd (omega arith)
fid-lt-last_fid fid (p ∷ []) a h = a.0
fid-lt-last_fid fid (p ∷ q ∷ ps) a h =
    omega (arith, fid-lt-last_fid p.fid (q ∷ ps) a.1 (omega arith), a.0)
