-- ===== src/Indexer/Fingerprints.antt =====
-- Quantized local fingerprints (QLocalFingerprint_t of src/ident/Fingerprint.h), and an array of them as
-- the bytes that the indexer emits and takes, in the order of a little-endian machine.
use audioneex.Prelude.{
  ℕ, ◌+◌, ◌*◌, ◌^◌, ◌<◌, ◌≡◌, refl, List, [], ◌∷◌, arith, All, length, shr, low_bits, IsU32,
}

pub record Qlf : Type 0 where
  pub t : ℕ
  pub f : ℕ
  pub w : ℕ
  pub e : ℕ

-- reinterpret_cast<uint8_t*>, and back; sizeof(QLocalFingerprint_t) is 8.
unfoldable pub bytes_of : List Qlf → List ℕ
bytes_of [] = []
bytes_of (q ∷ qs) =
    low_bits q.t 8
    ∷ low_bits (shr q.t 8) 8
    ∷ low_bits (shr q.t 16) 8
    ∷ low_bits (shr q.t 24) 8
    ∷ low_bits q.f 8
    ∷ low_bits (shr q.f 8) 8
    ∷ low_bits q.w 8
    ∷ low_bits q.e 8
    ∷ bytes_of qs

unfoldable pub qlfs_of : List ℕ → List Qlf
qlfs_of (t0 ∷ t1 ∷ t2 ∷ t3 ∷ f0 ∷ f1 ∷ w ∷ e ∷ bytes) =
    record { t = t0 + t1 * 2 ^ 8 + t2 * 2 ^ 16 + t3 * 2 ^ 24; f = f0 + f1 * 2 ^ 8; w = w; e = e }
    ∷ qlfs_of bytes
qlfs_of _ = []

-- The fields of a fingerprint are machine words.
pub record IsQlf (q : Qlf) : Type 0 where
  pub t_fits : IsU32 q.t
  pub f_fits : q.f < 2 ^ 16
  pub w_fits : q.w < 256
  pub e_fits : q.e < 256

-- An emitted fingerprint that is handed in again is read back whole.
pub qlfs_of-bytes_of : (qs : List Qlf) → All IsQlf qs → qlfs_of (bytes_of qs) ≡ qs
unfolding qlfs_of bytes_of
qlfs_of-bytes_of [] h = refl
qlfs_of-bytes_of (q ∷ qs) (hq, hqs) =
    λ i. record { t = t i; f = f i; w = w i; e = e i } ∷ qlfs_of-bytes_of qs hqs i
  where
    t :
        low_bits q.t 8
          + low_bits (shr q.t 8) 8 * 2 ^ 8
          + low_bits (shr q.t 16) 8 * 2 ^ 16
          + low_bits (shr q.t 24) 8 * 2 ^ 24
        ≡ q.t
    t = omega (arith, hq.t_fits)

    f : low_bits q.f 8 + low_bits (shr q.f 8) 8 * 2 ^ 8 ≡ q.f
    f = omega (arith, hq.f_fits)

    w : low_bits q.w 8 ≡ q.w
    w = omega (arith, hq.w_fits)

    e : low_bits q.e 8 ≡ q.e
    e = omega (arith, hq.e_fits)

-- The size that the check on the size of the data expects.
pub length-bytes_of : (qs : List Qlf) → length (bytes_of qs) ≡ 8 * length qs
unfolding bytes_of
length-bytes_of [] = refl
length-bytes_of (q ∷ qs) = omega (arith, length-bytes_of qs)
