-- ===== src/Postings.antt =====
-- Postings lists as data, and the integer layouts that they have in the index cache
-- (IndexCache::Update) and in a decoded block (BlockEncoder::Serialize, PListIterator).
use audioneex.Prelude.{ℕ, ◌+◌, ◌*◌, ◌<◌, List, [], ◌∷◌, ◌++◌, map, length, All, IsU32}

-- One element of a payload: local fingerprint id, time, quantization error.
pub record Occ : Type 0 where
  pub lid : ℕ
  pub time : ℕ
  pub error : ℕ

pub record Posting : Type 0 where
  pub fid : ℕ
  pub occs : List Occ

abbrev pub lids : List Occ → List ℕ
lids = map λ o. o.lid

abbrev pub times : List Occ → List ℕ
times = map λ o. o.time

abbrev pub errors : List Occ → List ℕ
errors = map λ o. o.error

-- <LID,T,E> of each element in turn.
abbrev pub triples : List Occ → List ℕ
triples [] = []
triples (o ∷ os) = o.lid ∷ o.time ∷ o.error ∷ triples os

-- <FID,tf,LID,T,E,LID,T,E,...>
abbrev pub cache_layout : Posting → List ℕ
cache_layout p = p.fid ∷ length p.occs ∷ triples p.occs

-- <FID,tf,{LID},{T},{E}>
abbrev pub block_layout : Posting → List ℕ
block_layout p = p.fid ∷ length p.occs ∷ (lids p.occs ++ (times p.occs ++ errors p.occs))

abbrev pub block_layouts : List Posting → List ℕ
block_layouts [] = []
block_layouts (p ∷ ps) = block_layout p ++ block_layouts ps

abbrev pub last_fid : ℕ → List Posting → ℕ
last_fid fid [] = fid
last_fid fid (p ∷ ps) = last_fid p.fid ps

abbrev pub IsOcc : Occ → Type 0
IsOcc o = IsU32 o.lid × IsU32 o.time × IsU32 o.error

-- The fields are 32-bit words and there is an element.
pub record IsPosting (p : Posting) : Type 0 where
  pub fid_fits : IsU32 p.fid
  pub tf_pos : 0 < length p.occs
  pub tf_fits : IsU32 (2 + 3 * length p.occs)
  pub occs_fit : All IsOcc p.occs

-- The fids grow strictly, from above `fid`.
abbrev pub Above : ℕ → List Posting → Type 0
Above fid [] = Unit {0}
Above fid (p ∷ ps) = (fid < p.fid) × Above p.fid ps
