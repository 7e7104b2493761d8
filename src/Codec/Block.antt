-- ===== src/Codec/Block.antt =====
-- BlockEncoder::Encode and BlockEncoder::Decode (src/index/BlockCodec.cpp).
pub mod RoundTrip
use audioneex.Prelude.{
  ℕ, ◌+◌, ◌*◌, List, [], ◌∷◌, Bool, ltb, if◌then◌else◌, Outcome, ok, ◌>>=◌, length, take, replicate,
  add32, mul32,
}
use audioneex.Codec.VByte
use audioneex.Codec.Delta.{ddecode, delta_codec}
use audioneex.Memory.{load}
use audioneex.Codec.Serialize.{serialize}

-- m_ser_chunk_size, by a scan of the chunk.
unfoldable pub ser_chunk_size : List (List ℕ) → ℕ → Outcome ℕ
unfolding load
ser_chunk_size [] size = ok size
ser_chunk_size (p ∷ plist_chunk) size = do
  tf ← load p 1
  ser_chunk_size plist_chunk (size + add32 2 (mul32 tf 3))

-- The buffer m_ser_chunk is replaced if it is too small; what the new one holds does not matter.
unfoldable pub reserve : List ℕ → ℕ → List ℕ
reserve buf n = if ltb (length buf) n then replicate n 0 else buf

-- `Encode` gives the bytes that it wrote (`enc_bytes` is their number) and m_ser_chunk after it.
unfoldable pub encode : List ℕ → List (List ℕ) → ℕ → ℕ → Bool → Outcome (List ℕ × List ℕ)
unfolding ser_chunk_size reserve
encode ser_chunk plist_chunk enc_chunk_size fido delta_encode = do
  n ← ser_chunk_size plist_chunk 0
  ser ← serialize plist_chunk (reserve ser_chunk n) fido delta_encode
  bytes ← VByte.encode (take n ser) enc_chunk_size
  ok (bytes, ser)

-- `Decode` gives the elements of `dec_chunk` up to `dec_elem`; `decode_failed` is its result -1.
unfoldable pub decode : List ℕ → ℕ → ℕ → Bool → Outcome (List ℕ)
decode enc_chunk dec_chunk_size base_fid delta_decode = do
  dec_chunk ← VByte.decode enc_chunk dec_chunk_size
  if delta_decode then delta_codec ddecode dec_chunk base_fid else ok dec_chunk
