-- ===== src/Quantizer.antt =====
-- Codebook (src/quant/Codebook.h, src/quant/Codebook.cpp): the codewords of local fingerprints. An int is
-- its 32-bit pattern, and a float in a codebook its four bytes read as one.
pub mod Nearest
pub mod Bytes
use Prim.Native.Nat.{bit_xor}
use audioneex.Prelude.{
  ℕ, zero, suc, ◌+◌, ◌-◌, ◌*◌, ◌/◌, ◌%◌, ◌^◌, List, [], ◌∷◌, ◌++◌, Bool, ◌==◌, ltb, leb,
  if◌then◌else◌, Option, none, some, Outcome, ok, err, ◌>>=◌, length, take, drop,
  invalid_audio_codes, word_bytes,
}
use audioneex.Matcher.{Quantizer}
use audioneex.Results.{rank}

-- Cluster; the centroid is the data of its BinaryVector.
pub record Cluster : Type 0 where
  pub id : ℕ
  pub sum_d : ℕ
  pub npoints : ℕ
  pub centroid : List ℕ

-- Pms::IDI, and Pms::IDI_b, which is the size of a centroid.
abbrev pub idi : ℕ
idi = 720

abbrev pub csize : ℕ
csize = 90

-- popcount, of the lowest bits.
unfoldable pub popcount : ℕ → ℕ → ℕ
popcount zero n = 0
popcount (suc bits) n = n % 2 + popcount bits (n / 2)

-- The bytes that are left behind the last block of four, as a word.
unfoldable pub spare : List ℕ → ℕ
spare [] = 0
spare (b ∷ bs) = b + 2 ^ 8 * spare bs

-- Dh, of data of the same length.
unfoldable pub dh : List ℕ → List ℕ → ℕ
unfolding popcount spare
dh (a0 ∷ a1 ∷ a2 ∷ a3 ∷ xs) (b0 ∷ b1 ∷ b2 ∷ b3 ∷ ys) =
    popcount 32 (
      bit_xor (a0 + a1 * 2 ^ 8 + a2 * 2 ^ 16 + a3 * 2 ^ 24)
        (b0 + b1 * 2 ^ 8 + b2 * 2 ^ 16 + b3 * 2 ^ 24))
    + dh xs ys
dh xs ys = popcount 32 (bit_xor (spare xs) (spare ys))

-- The variables max_sim and tlist.
pub record Ties : Type 0 where
  pub max_sim : ℕ
  pub tlist : List ℕ

-- A round of the loop of quantize. A distance above IDI makes a negative similarity, which is neither
-- above the largest one nor equal to it.
unfoldable pub compare_cluster : List ℕ → Cluster → Ties → Ties
unfolding dh
compare_cluster d c st =
    let sim = idi - dh d c.centroid in
    if leb (dh d c.centroid) idi
    then if ltb st.max_sim sim
      then record { max_sim = sim; tlist = c.id ∷ [] }
      else if sim == st.max_sim
      then record st { tlist = st.tlist ++ (c.id ∷ []) }
      else st
    else st

unfoldable pub compare_clusters : List ℕ → List Cluster → Ties → Ties
unfolding compare_cluster
compare_clusters d [] st = st
compare_clusters d (c ∷ cs) st = compare_clusters d cs (compare_cluster d c st)

-- std::max_element on ints, from the first one on.
unfoldable pub max_id : ℕ → List ℕ → ℕ
unfolding rank
max_id best [] = best
max_id best (x ∷ xs) = max_id (if ltb (rank best) (rank x) then x else best) xs

-- The word; -1 where there is none.
unfoldable pub word_of : List ℕ → ℕ
unfolding max_id
word_of [] = 2 ^ 32 - 1
word_of (x ∷ xs) = max_id x xs

-- `quantize` of a descriptor: the word and the distance.
unfoldable pub quantize : List Cluster → List ℕ → ℕ × ℕ
unfolding compare_clusters word_of
quantize clusters d =
    let st = compare_clusters d clusters (record { max_sim = 0; tlist = [] }) in
    let dist = idi - st.max_sim in (word_of st.tlist, if leb dist 255 then dist else 255)

-- `serialize` of a codebook.
unfoldable pub serialize_codebook : List Cluster → List ℕ
unfolding word_bytes
serialize_codebook [] = []
serialize_codebook (c ∷ cs) =
    word_bytes c.id
    ++ (word_bytes c.sum_d
        ++ (word_bytes c.npoints ++ (take csize c.centroid ++ serialize_codebook cs)))

-- A record of a cluster, and the loop over the records.
unfoldable pub read_cluster : List ℕ → Option (Cluster × List ℕ)
read_cluster (i0 ∷ i1 ∷ i2 ∷ i3 ∷ s0 ∷ s1 ∷ s2 ∷ s3 ∷ n0 ∷ n1 ∷ n2 ∷ n3 ∷ rest) = some (
  record {
    id = i0 + i1 * 2 ^ 8 + i2 * 2 ^ 16 + i3 * 2 ^ 24;
    sum_d = s0 + s1 * 2 ^ 8 + s2 * 2 ^ 16 + s3 * 2 ^ 24;
    npoints = n0 + n1 * 2 ^ 8 + n2 * 2 ^ 16 + n3 * 2 ^ 24;
    centroid = take csize rest;
  },
  drop csize rest,
)
read_cluster _ = none

unfoldable pub read_clusters : ℕ → List ℕ → List Cluster
unfolding read_cluster
read_clusters zero bytes = []
read_clusters (suc nwords) bytes = elim (read_cluster bytes) [
  | none ↦ []
  | some (c, rest) ↦ c ∷ read_clusters nwords rest
]

-- `deserialize`, where a record has 102 bytes; `none` is a null pointer.
unfoldable pub deserialize_codebook : Option (List ℕ) → Outcome (List Cluster)
unfolding read_clusters
deserialize_codebook none = err invalid_audio_codes
deserialize_codebook (some bytes) =
    if length bytes == 0
    then err invalid_audio_codes
    else if length bytes % 102 == 0
    then ok (read_clusters (length bytes / 102) bytes)
    else err invalid_audio_codes

-- The codebook of the audio codes `bytes`, as the matcher takes it.
abbrev codes_of : Outcome (List Cluster) → Option (List Cluster)
codes_of (ok clusters) = some clusters
codes_of _ = none

abbrev pub codebook : List ℕ → Quantizer
unfolding quantize deserialize_codebook
codebook bytes = record {
  Codes = List Cluster;
  deserialize = codes_of (deserialize_codebook (some bytes));
  quantize = λ clusters lf. quantize clusters lf.d;
}
