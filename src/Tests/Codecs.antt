-- ===== src/Tests/Codecs.antt =====
-- The codec on three postings.
use audioneex.Prelude.{
  ℕ, ◌≡◌, ◌≢◌, ◌≤◌, refl, List, [], ◌∷◌, ◌++◌, arith, All, IsU32, IsByte, length, true, ok, stuck,
  ◌>>=◌, ◌*◌,
}
use audioneex.Postings.{block_layouts}
use audioneex.Codec.VByte
use audioneex.Codec.VByte.RoundTrip.{decode-encode_array}
use audioneex.Codec.VByte.Bounds.{encode_shape}
use audioneex.Codec.Delta.{ddecode, delta_codec}
use audioneex.Codec.Delta.Spec.{delta_layouts, delta_codec-delta_layouts}
use audioneex.Codec.Delta.Total.{delta_codec-ne-stuck}
use audioneex.Codec.Serialize.{serialize}
use audioneex.Codec.Serialize.Chunk.{Points, serialize-delta_layouts}
use audioneex.Codec.Block
use audioneex.Codec.Block.RoundTrip.{decode-encode}
use audioneex.Tests.{three, three-IsPosting, pointers}

pointers-Points : Points pointers three
pointers-Points = ((_, refl), ((_, refl), ((_, refl), tt)))

decode-encode_example :
    (Block.encode [] pointers 200 2 true >>= λ r. Block.decode r.0 40 2 true)
    ≡ ok (block_layouts three)
decode-encode_example =
    decode-encode [] pointers three 200 40 2 pointers-Points three-IsPosting (omega arith)
      (unfold VByte.get_encoded_size_estimate in omega arith) (omega arith)

abbrev numbers : List ℕ
numbers = 5 ∷ 128 ∷ 70000 ∷ 4294967295 ∷ []

numbers-IsU32 : All IsU32 numbers
numbers-IsU32 = (omega arith, (omega arith, (omega arith, (omega arith, tt))))

decode-encode_array_example : (VByte.encode numbers 20 >>= λ venc. VByte.decode venc 4) ≡ ok numbers
decode-encode_array_example =
    decode-encode_array numbers 20 4 numbers-IsU32
      (unfold VByte.get_encoded_size_estimate in omega arith) (omega arith)

encode_shape_example :
    (venc : List ℕ) × (VByte.encode numbers 20 ≡ ok venc)
    × All IsByte venc
    × (length numbers ≤ length venc)
    × (length venc ≤ length numbers * 5)
encode_shape_example =
    encode_shape numbers 20 numbers-IsU32 (unfold VByte.get_encoded_size_estimate in omega arith)

delta_codec-delta_layouts_example :
    delta_codec ddecode (delta_layouts 2 three) 2 ≡ ok (block_layouts three)
delta_codec-delta_layouts_example = delta_codec-delta_layouts three 2 three-IsPosting (omega arith)

delta_codec-ne-stuck_example : delta_codec ddecode (5 ∷ 9 ∷ 1 ∷ 2 ∷ []) 2 ≢ stuck
delta_codec-ne-stuck_example = delta_codec-ne-stuck ddecode (5 ∷ 9 ∷ 1 ∷ 2 ∷ []) 2

serialize-delta_layouts_example :
    serialize pointers (delta_layouts 0 three ++ (1 ∷ 2 ∷ [])) 2 true
    ≡ ok (delta_layouts 2 three ++ (1 ∷ 2 ∷ []))
serialize-delta_layouts_example =
    serialize-delta_layouts pointers three 2 (delta_layouts 0 three) (1 ∷ 2 ∷ []) pointers-Points
      three-IsPosting refl
