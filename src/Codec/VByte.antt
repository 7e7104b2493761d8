-- ===== src/Codec/VByte.antt =====
-- VByteCODEC (src/index/BlockCodec.h): integers as bytes with seven bits each, lowest group first;
-- the top bit marks the last byte of an integer.
mod Groups
pub mod RoundTrip
pub mod Bounds
use audioneex.Prelude.{
  ℕ, ◌+◌, ◌-◌, ◌*◌, ◌%◌, ◌^◌, List, [], ◌∷◌, ◌++◌, ltb, leb, ◌==◌, if◌then◌else◌, ◌||◌, Outcome, ok,
  err, fault, stuck, ◌>>=◌, output_full, add32, shr, low_bits, length,
}
use Prim.Native.Nat.{bit_or}

-- One round of the loop of `encode`: the bytes written for `val`.
unfoldable pub encode_value : ℕ → List ℕ
encode_value val =
    if ltb val (2 ^ 7)
    then bit_or val (2 ^ 7) % 256 ∷ []
    else if ltb val (2 ^ 14)
    then low_bits (shr val 0) 7 ∷ bit_or (shr val 7 % 256) (2 ^ 7) ∷ []
    else if ltb val (2 ^ 21)
    then low_bits (shr val 0) 7 ∷ low_bits (shr val 7) 7 ∷ bit_or (shr val 14 % 256) (2 ^ 7) ∷ []
    else if ltb val (2 ^ 28)
    then low_bits (shr val 0) 7
      ∷ low_bits (shr val 7) 7
      ∷ low_bits (shr val 14) 7
      ∷ bit_or (shr val 21 % 256) (2 ^ 7)
      ∷ []
    else low_bits (shr val 0) 7
      ∷ low_bits (shr val 7) 7
      ∷ low_bits (shr val 14) 7
      ∷ low_bits (shr val 21) 7
      ∷ bit_or (shr val 28 % 256) (2 ^ 7)
      ∷ []

-- The loop over the input array.
unfoldable pub encode_values : List ℕ → List ℕ
unfolding encode_value
encode_values [] = []
encode_values (val ∷ v) = encode_value val ++ encode_values v

-- The output pointer is not checked: writing past the `venc_size` bytes of `venc` is undefined.
unfoldable pub encode : List ℕ → ℕ → Outcome (List ℕ)
unfolding encode_values
encode v venc_size =
    let venc = encode_values v in if leb (length venc) venc_size then ok venc else fault

-- The two loops of `decode`, with the element `e` and the `shift` that the inner one has reached.
-- `room` is what is left of `vdec`; `output_full` is the early `return 0`. A shift by 32 or more, or one
-- that pushes bits out of the word, is undefined.
unfoldable pub decode_loop : List ℕ → ℕ → ℕ → ℕ → Outcome (List ℕ)
decode_loop [] e shift room = ok []
decode_loop (c ∷ v) e shift room =
    let group = low_bits c 7 * 2 ^ shift in
    let e' = add32 e group in
    let rest = decode_loop v 0 0 (room - 1) in
    let more = decode_loop v e' (shift + 7) room in
    if leb 32 shift || leb (2 ^ 32) group
    then fault
    else if shr c 7 % 2 == 0
    then more
    else if room == 0
    then err output_full
    else rest >>= λ out. ok (e' ∷ out)

-- `decode` gives the elements that `vdec` holds up to the count that it returns.
unfoldable pub decode : List ℕ → ℕ → Outcome (List ℕ)
unfolding decode_loop
decode v vdec_size = elim (decode_loop v 0 0 vdec_size) [
  | ok out ↦ ok out
  | err e ↦ ok []
  | fault ↦ fault
  | stuck ↦ stuck
]

-- BlockEncoder::GetDecodedSizeEstimate and BlockEncoder::GetEncodedSizeEstimate.
unfoldable pub get_decoded_size_estimate : ℕ → ℕ
get_decoded_size_estimate enc_size = enc_size

unfoldable pub get_encoded_size_estimate : ℕ → ℕ
get_encoded_size_estimate dec_size = dec_size * (4 + 1)
