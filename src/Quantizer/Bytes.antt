-- ===== src/Quantizer/Bytes.antt =====
-- Codebooks as bytes (src/quant/Codebook.cpp).
use audioneex.Prelude.{
  ℕ, suc, ◌*◌, ◌/◌, ◌%◌, ◌<◌, ◌≡◌, refl, sym, ap, ◌∙◌, List, [], ◌∷◌, some, ok, length,
  length-append, take, take-append, drop-append, take_self, arith, All, IsU32, ==-ne, word_bytes,
  word_of-bytes,
}
use audioneex.Quantizer.{
  Cluster, csize, deserialize_codebook, read_cluster, read_clusters, serialize_codebook,
}

-- The numbers of a cluster are words, and its centroid has its size.
pub record IsCluster (c : Cluster) : Type 0 where
  pub id_fits : IsU32 c.id
  pub sum_d_fits : IsU32 c.sum_d
  pub npoints_fits : IsU32 c.npoints
  pub centroid_size : length c.centroid ≡ csize

-- The record of a cluster is read back.
read_cluster-serialize :
    (c : Cluster) (cs : List Cluster)
    → IsCluster c
    → read_cluster (serialize_codebook (c ∷ cs)) ≡ some (c, serialize_codebook cs)
unfolding read_cluster serialize_codebook word_bytes
read_cluster-serialize c cs h =
    rw
      (
        take_self csize c.centroid h.centroid_size,
        word_of-bytes c.id h.id_fits,
        word_of-bytes c.sum_d h.sum_d_fits,
        word_of-bytes c.npoints h.npoints_fits,
        take-append c.centroid (serialize_codebook cs) csize (sym h.centroid_size),
        drop-append c.centroid (serialize_codebook cs) csize (sym h.centroid_size),
      )
      refl

read_clusters-step :
    (n : ℕ) (bytes rest : List ℕ) (c : Cluster)
    → read_cluster bytes ≡ some (c, rest)
    → read_clusters (suc n) bytes ≡ c ∷ read_clusters n rest
unfolding read_clusters
read_clusters-step n bytes rest c e = rw (e, read_clusters) refl

read_clusters-serialize :
    (cs : List Cluster) → All IsCluster cs → read_clusters (length cs) (serialize_codebook cs) ≡ cs
read_clusters-serialize [] h = unfold read_clusters in refl
read_clusters-serialize (c ∷ cs) h =
    read_clusters-step (length cs) (serialize_codebook (c ∷ cs)) (serialize_codebook cs) c
      (read_cluster-serialize c cs h.0)
    ∙ ap (λ xs. c ∷ xs) (read_clusters-serialize cs h.1)

length-serialize :
    (cs : List Cluster) → All IsCluster cs → length (serialize_codebook cs) ≡ 102 * length cs
unfolding serialize_codebook word_bytes
length-serialize [] h = omega arith
length-serialize (c ∷ cs) h = omega (
  arith,
  length-append (take csize c.centroid) (serialize_codebook cs),
  ap length (take_self csize c.centroid h.0.centroid_size),
  h.0.centroid_size,
  length-serialize cs h.1,
)

-- A codebook that is not empty, of words and centroids that have their size, is read back from the
-- bytes that it is written to.
pub deserialize_codebook-serialize_codebook :
    (cs : List Cluster)
    → All IsCluster cs
    → 0 < length cs
    → deserialize_codebook (some (serialize_codebook cs)) ≡ ok cs
unfolding deserialize_codebook
deserialize_codebook-serialize_codebook cs h pos =
    let size = length-serialize cs h in
    rw
      (
        ==-ne (length (serialize_codebook cs)) 0 (λ e. absurd (omega (arith, size, e))),
        (let e : length (serialize_codebook cs) % 102 ≡ 0 = omega (arith, size) in e),
        (let e : length (serialize_codebook cs) / 102 ≡ length cs = omega (arith, size) in e),
        read_clusters-serialize cs h,
      )
      refl
