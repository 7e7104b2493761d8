-- ===== src/Tests/Quantizing.antt =====
-- The codebook on concrete inputs.
use audioneex.Prelude.{ℕ, ◌≤◌, ◌≡◌, refl, List, [], ◌∷◌, some, All, arith, ok, replicate, min}
use audioneex.Results.{rank}
use audioneex.Quantizer.{Cluster, deserialize_codebook, dh, idi, quantize, serialize_codebook}
use audioneex.Quantizer.Nearest.{Among, at_distance, quantize-nearest}
use audioneex.Quantizer.Bytes.{IsCluster, deserialize_codebook-serialize_codebook}

-- Three codewords, two of which are one bit away from the descriptor.
abbrev codewords : List Cluster
codewords =
    record { id = 5; sum_d = 0; npoints = 1; centroid = 1 ∷ replicate 89 0 }
    ∷ record { id = 8; sum_d = 0; npoints = 1; centroid = 2 ∷ replicate 89 0 }
    ∷ record { id = 2; sum_d = 7; npoints = 3; centroid = 0 ∷ replicate 89 255 }
    ∷ []

abbrev descriptor : List ℕ
descriptor = replicate 90 0

within : All (λ (c : Cluster). dh descriptor c.centroid ≤ idi) codewords
unfolding dh
within = (omega arith, (omega arith, (omega arith, tt)))

quantize-nearest_example :
    (n : ℕ) × All (λ (c : Cluster). n ≤ dh descriptor c.centroid) codewords
    × Among (quantize codewords descriptor).0 (at_distance n descriptor codewords)
    × All
        (λ id. rank id ≤ rank (quantize codewords descriptor).0)
        (at_distance n descriptor codewords)
    × ((quantize codewords descriptor).1 ≡ min n 255)
quantize-nearest_example = quantize-nearest codewords descriptor (omega arith) within

-- The tie is broken by the largest identifier.
tie : quantize codewords descriptor ≡ (8, 1)
unfolding quantize
tie = refl

codewords-IsCluster : All IsCluster codewords
codewords-IsCluster = (
  record {
    id_fits = omega arith;
    sum_d_fits = omega arith;
    npoints_fits = omega arith;
    centroid_size = refl;
  },
  (
    record {
      id_fits = omega arith;
      sum_d_fits = omega arith;
      npoints_fits = omega arith;
      centroid_size = refl;
    },
    (
      record {
        id_fits = omega arith;
        sum_d_fits = omega arith;
        npoints_fits = omega arith;
        centroid_size = refl;
      },
      tt,
    ),
  ),
)

deserialize_codebook-serialize_codebook_example :
    deserialize_codebook (some (serialize_codebook codewords)) ≡ ok codewords
deserialize_codebook-serialize_codebook_example =
    deserialize_codebook-serialize_codebook codewords codewords-IsCluster (omega arith)
