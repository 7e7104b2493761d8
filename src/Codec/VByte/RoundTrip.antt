-- ===== src/Codec/VByte/RoundTrip.antt =====
-- Decoding what `encode` of Codec/VByte.antt wrote.
use audioneex.Prelude.{
  ℕ, zero, suc, ◌+◌, ◌-◌, ◌*◌, ◌/◌, ◌%◌, ◌^◌, ◌≤◌, ◌<◌, ◌≡◌, ap, List, [], ◌∷◌, ◌++◌, arith, IsU32,
  All, length, append_assoc, append-nil, Outcome, ok, ◌>>=◌, >>=-ok,
}
use audioneex.Codec.VByte.{
  encode_value, encode_values, encode, decode_loop, decode, get_encoded_size_estimate,
}
use audioneex.Codec.VByte.Groups.{groups, encode_value-groups}
use audioneex.Codec.VByte.Bounds.{encode_fits}
use native.Mathlib.Nat.{div-add-mod}
use native.Mathlib.Numerals.{towards_suc}

-- Puts an element in front of a decoded array.
abbrev pub push_front : ℕ → Outcome (List ℕ) → Outcome (List ℕ)
push_front e m = m >>= λ out. ok (e ∷ out)

last_byte :
    (w e shift room : ℕ) (rest : List ℕ)
    → w < 128
    → shift < 32
    → IsU32 (e + w * 2 ^ shift)
    → decode_loop ((w + 128) ∷ rest) e shift (suc room)
      ≡ push_front (e + w * 2 ^ shift) (decode_loop rest 0 0 room)
unfolding decode_loop
last_byte w e shift room rest hw hs fits = ground (arith, low)
  where
    low : (w + 128) % 128 ≡ w
    low = omega arith

inner_byte :
    (w e shift room : ℕ) (rest : List ℕ)
    → w < 128
    → shift < 32
    → IsU32 (e + w * 2 ^ shift)
    → decode_loop (w ∷ rest) e shift room ≡ decode_loop rest (e + w * 2 ^ shift) (shift + 7) room
unfolding decode_loop
inner_byte w e shift room rest hw hs fits = ground arith

-- The rest of a value and its lowest group, each shifted to its place above bit `shift`.
groups_sum : (val shift : ℕ) → val % 128 * 2 ^ shift + val / 128 * 2 ^ (shift + 7) ≡ val * 2 ^ shift
groups_sum val shift =
    let seven_more : 2 ^ (shift + 7) ≡ 128 * 2 ^ shift = simp towards_suc (omega arith) in
    let value : (128 * (val / 128) + val % 128) * 2 ^ shift ≡ val * 2 ^ shift =
      ap (λ n. n * 2 ^ shift) (div-add-mod val 128) in
    let rest : val / 128 * 2 ^ (shift + 7) ≡ val / 128 * (128 * 2 ^ shift) =
      ap (λ n. val / 128 * n) seven_more in
    omega (arith, value, rest)

-- `w` is what is still to be read, and counts from bit `shift` on.
decode_loop-groups :
    (k w e shift room : ℕ) (rest : List ℕ)
    → w < 128 ^ suc k
    → shift + 7 * k < 32
    → IsU32 (e + w * 2 ^ shift)
    → decode_loop (groups k w ++ rest) e shift (suc room)
      ≡ push_front (e + w * 2 ^ shift) (decode_loop rest 0 0 room)
unfolding groups
decode_loop-groups zero w e shift room rest hw hs fits =
    last_byte w e shift room rest hw (omega arith) fits
decode_loop-groups (suc k) w e shift room rest hw hs fits = ground (
  arith,
  groups_sum w shift,
  last_byte w e shift room rest,
  inner_byte (w % 128) e shift (suc room) (groups k (w / 128) ++ rest),
  decode_loop-groups k (w / 128) (e + w % 128 * 2 ^ shift) (shift + 7) room rest (omega arith),
)

pub decode_loop-encode_value :
    (val room : ℕ) (rest : List ℕ)
    → IsU32 val
    → decode_loop (encode_value val ++ rest) 0 0 (suc room)
      ≡ push_front val (decode_loop rest 0 0 room)
decode_loop-encode_value val room rest h =
    rw (encode_value-groups val h)
      (ground (arith, decode_loop-groups 4 val 0 0 room rest (omega arith)))

-- What follows the encoding decodes as it would alone, with less room.
pub decode_loop-encode_values :
    (v : List ℕ) (room : ℕ) (rest : List ℕ)
    → All IsU32 v
    → length v ≤ room
    → decode_loop (encode_values v ++ rest) 0 0 room
      ≡ (decode_loop rest 0 0 (room - length v) >>= λ out. ok (v ++ out))
unfolding encode_values
decode_loop-encode_values [] room rest h fits = ground (arith, >>=-ok (decode_loop rest 0 0 room))
decode_loop-encode_values (x ∷ v) zero rest h fits = absurd (omega arith)
decode_loop-encode_values (x ∷ v) (suc room) rest (hx, hv) fits =
    rw
      (
        append_assoc (encode_value x) (encode_values v) rest,
        decode_loop-encode_value x room (encode_values v ++ rest) hx,
        decode_loop-encode_values v room rest hv (omega arith),
      )
      (ground arith)

pub decode-encode_values :
    (v : List ℕ) (room : ℕ) → All IsU32 v → length v ≤ room → decode (encode_values v) room ≡ ok v
unfolding decode decode_loop
decode-encode_values v room h fits = rw (loop, decode)
  where
    loop : decode_loop (encode_values v) 0 0 room ≡ ok v
    loop = simp append-nil at (decode_loop-encode_values v room [] h fits)

-- If `venc` has the estimated size and `vdec` holds as many integers as `v`, then `encode`
-- succeeds, and `decode` reads back the integers that it wrote.
pub decode-encode_array :
    (v : List ℕ) (venc_size vdec_size : ℕ)
    → All IsU32 v
    → get_encoded_size_estimate (length v) ≤ venc_size
    → length v ≤ vdec_size
    → (encode v venc_size >>= λ venc. decode venc vdec_size) ≡ ok v
decode-encode_array v venc_size vdec_size h room fits =
    rw (encode_fits v venc_size h room) (decode-encode_values v vdec_size h fits)
