-- ===== src/Codec/VByte/Bounds.antt =====
-- Sizes of the arrays that the functions of Codec/VByte.antt read and write.
use audioneex.Prelude.{
  ℕ, suc, ◌+◌, ◌*◌, ◌^◌, ◌≤◌, ◌<◌, ◌≡◌, ◌≢◌, refl, List, [], ◌∷◌, arith, IsU32, IsByte, All,
  All-append, length, length-append, ok-injective, add32, low_bits, zero, Outcome, ok, err, fault,
  stuck, ◌>>=◌, output_full,
}
use mathlib.Core.Path.{subst}
use audioneex.Codec.VByte.{
  encode_values, encode, decode_loop, decode, get_encoded_size_estimate, get_decoded_size_estimate,
}
use audioneex.Codec.VByte.Groups.{encode_value-groups, length-groups, groups-IsByte}

pub length-encode_values :
    (v : List ℕ)
    → All IsU32 v
    → (length v ≤ length (encode_values v)) × (length (encode_values v) ≤ length v * 5)
unfolding encode_values
length-encode_values [] h = omega arith
length-encode_values (x ∷ v) (hx, hv) =
    rw (encode_value-groups x hx, length-append)
      (omega (arith, length-groups 4 x, length-encode_values v hv))

encode_values-IsByte : (v : List ℕ) → All IsU32 v → All IsByte (encode_values v)
unfolding encode_values
encode_values-IsByte [] h = tt
encode_values-IsByte (x ∷ v) (hx, hv) =
    rw (encode_value-groups x hx)
      (All-append IsByte _ _ (groups-IsByte 4 x (omega arith)) (encode_values-IsByte v hv))

pub encode_fits :
    (v : List ℕ) (venc_size : ℕ)
    → All IsU32 v
    → get_encoded_size_estimate (length v) ≤ venc_size
    → encode v venc_size ≡ ok (encode_values v)
unfolding encode get_encoded_size_estimate
encode_fits v venc_size h room = ground (arith, length-encode_values v h)

-- `encode` writes bytes, one for each integer at least and five at most; where `venc` has the
-- estimated size, it writes nothing behind `venc`.
pub encode_shape :
    (v : List ℕ) (venc_size : ℕ)
    → All IsU32 v
    → get_encoded_size_estimate (length v) ≤ venc_size
    → (venc : List ℕ) × (encode v venc_size ≡ ok venc)
      × All IsByte venc
      × (length v ≤ length venc)
      × (length venc ≤ length v * 5)
encode_shape v venc_size h room =
    let (lo, hi) = length-encode_values v h in
    (encode_values v, encode_fits v venc_size h room, encode_values-IsByte v h, lo, hi)

-- What the loop of `decode` promises of its outcome, for `n` bytes.
Decodes : ℕ → ℕ → Outcome (List ℕ) → Type 0
Decodes n room (ok out) = All IsU32 out × (length out ≤ n) × (length out ≤ room)
Decodes n room (err e) = (e ≡ output_full) × (room < n)
Decodes n room fault = Unit {0}
Decodes n room stuck = ⊥

Decodes-nil : (room : ℕ) → Decodes 0 room (ok [])
unfolding Decodes
Decodes-nil room = omega arith

Decodes-fault : (n room : ℕ) → Decodes n room fault
unfolding Decodes
Decodes-fault n room = tt

Decodes-full : (n : ℕ) → Decodes (suc n) 0 (err output_full)
unfolding Decodes
Decodes-full n = (refl, omega arith)

Decodes-mono : (n room : ℕ) (m : Outcome (List ℕ)) → Decodes n room m → Decodes (suc n) room m
unfolding Decodes
Decodes-mono n room (ok out) d = (d.0, omega arith, d.2)
Decodes-mono n room (err e) d = (d.0, omega arith)
Decodes-mono n room fault d = tt
Decodes-mono n room stuck d = d

Decodes-push_front :
    (n room e : ℕ) (m : Outcome (List ℕ))
    → IsU32 e
    → Decodes n room m
    → Decodes (suc n) (suc room) (m >>= λ out. ok (e ∷ out))
unfolding Decodes
Decodes-push_front n room e (ok out) h d = ((h, d.0), omega arith, omega arith)
Decodes-push_front n room e (err x) h d = (d.0, omega arith)
Decodes-push_front n room e fault h d = tt
Decodes-push_front n room e stuck h d = d

decode_loop-Decodes :
    (v : List ℕ) (e shift room : ℕ) → Decodes (length v) room (decode_loop v e shift room)
unfolding decode_loop
decode_loop-Decodes [] e shift room = Decodes-nil room
decode_loop-Decodes (c ∷ v) e shift zero =
    let e' = add32 e (low_bits c 7 * 2 ^ shift) in
    ground (
      arith,
      Decodes-fault (suc (length v)) 0,
      Decodes-full (length v),
      Decodes-mono (length v) 0 _ (decode_loop-Decodes v e' (shift + 7) 0),
    )
decode_loop-Decodes (c ∷ v) e shift (suc room) =
    let e' = add32 e (low_bits c 7 * 2 ^ shift) in
    ground (
      arith,
      Decodes-fault (suc (length v)) (suc room),
      Decodes-mono (length v) (suc room) _ (decode_loop-Decodes v e' (shift + 7) (suc room)),
      Decodes-push_front (length v) room e' _ (omega arith) (decode_loop-Decodes v 0 0 room),
    )

-- The outcome that `decode` makes of the loop's.
Decodes-ok :
    (n room : ℕ) (m : Outcome (List ℕ)) (out : List ℕ)
    → Decodes n room m
    → elim m [ ok o ↦ ok o | err x ↦ ok [] | fault ↦ fault | stuck ↦ stuck ] ≡ ok out
    → All IsU32 out × (length out ≤ n) × (length out ≤ room)
unfolding Decodes
Decodes-ok n room (ok o) out d e =
    subst (λ l. All IsU32 l × (length l ≤ n) × (length l ≤ room)) (ok-injective e) d
Decodes-ok n room (err x) [] d e = omega arith
Decodes-ok n room (err x) (y ∷ out) d e = cc
Decodes-ok n room fault out d e = cc
Decodes-ok n room stuck out d e = absurd d

-- On any input, `decode` gives 32-bit integers, no more than the input has bytes or `vdec` has
-- room for.
pub decode_bounds :
    (v : List ℕ) (vdec_size : ℕ) (out : List ℕ)
    → decode v vdec_size ≡ ok out
    → All IsU32 out × (length out ≤ length v) × (length out ≤ vdec_size)
unfolding decode
decode_bounds v vdec_size out e =
    Decodes-ok _ _ (decode_loop v 0 0 vdec_size) out (decode_loop-Decodes v 0 0 vdec_size) e

not-Decodes-full : (n room : ℕ) → n ≤ room → ¬ Decodes n room (err output_full)
unfolding Decodes
not-Decodes-full n room h d = omega arith

-- With a `vdec` of the estimated size, the loop of `decode` never takes the early return.
pub decode_loop-ne-full :
    (v : List ℕ) (vdec_size : ℕ)
    → get_decoded_size_estimate (length v) ≤ vdec_size
    → decode_loop v 0 0 vdec_size ≢ err output_full
unfolding get_decoded_size_estimate
decode_loop-ne-full v vdec_size h e =
    not-Decodes-full _ _ h
      (subst (Decodes (length v) vdec_size) e (decode_loop-Decodes v 0 0 vdec_size))
