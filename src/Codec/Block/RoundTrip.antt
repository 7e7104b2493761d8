-- ===== src/Codec/Block/RoundTrip.antt =====
-- Encoded chunks, and what Codec/Block.antt decodes from one or from two in a row.
use audioneex.Prelude.{
  ℕ, ◌+◌, ◌-◌, ◌≤◌, ◌≡◌, refl, sym, ap, ◌∙◌, List, [], ◌∷◌, ◌++◌, arith, append_assoc, ok, ◌>>=◌,
  true, length, length-append, length-replicate, All, All-append, IsU32, take-append, split_at,
}
use audioneex.Postings.{Occ, Posting, IsPosting, IsOcc, errors, block_layouts, last_fid}
use audioneex.Codec.VByte.{encode_values, get_encoded_size_estimate}
use audioneex.Codec.VByte.Bounds.{encode_fits}
use audioneex.Codec.VByte.RoundTrip.{decode-encode_values}
use audioneex.Codec.Delta.Spec.{
  delta_layout, delta_layouts, delta_lids, delta_times, diffs, delta_layouts-append,
  delta_codec-delta_layouts,
}
use audioneex.Memory.{load}
use audioneex.Codec.Serialize.Chunk.{Points, length-delta_layout, serialize-delta_layouts}
use audioneex.Codec.Block.{ser_chunk_size, reserve, encode, decode}

All-diffs : (x : ℕ) (l : List ℕ) → All IsU32 (diffs x l)
All-diffs x [] = tt
All-diffs x (y ∷ l) = (omega arith, All-diffs y l)

All-delta_lids : (os : List Occ) → All IsOcc os → All IsU32 (delta_lids os)
All-delta_lids [] h = tt
All-delta_lids (o ∷ os) h = (h.0.0, All-diffs _ _)

All-delta_times : (os : List Occ) → All IsOcc os → All IsU32 (delta_times os)
All-delta_times [] h = tt
All-delta_times (o ∷ os) h = (h.0.1, All-diffs _ _)

All-errors : (os : List Occ) → All IsOcc os → All IsU32 (errors os)
All-errors [] h = tt
All-errors (o ∷ os) h = (h.0.2, All-errors os h.1)

pub All-delta_layouts :
    (prev : ℕ) (ps : List Posting) → All IsPosting ps → All IsU32 (delta_layouts prev ps)
All-delta_layouts prev [] h = tt
All-delta_layouts prev (p ∷ ps) (hp, hps) =
    All-append IsU32 (delta_layout prev p) _
      (
        omega arith,
        (
          omega (arith, hp.tf_fits),
          All-append IsU32 (delta_lids p.occs) _ (All-delta_lids _ hp.occs_fit) (
              All-append IsU32 (delta_times p.occs) _ (All-delta_times _ hp.occs_fit)
                (All-errors _ hp.occs_fit)),
        ),
      )
      (All-delta_layouts p.fid ps hps)

ser_chunk_size-delta_layouts :
    (qs : List (List ℕ)) (ps : List Posting) (prev size : ℕ)
    → Points qs ps
    → All IsPosting ps
    → ser_chunk_size qs size ≡ ok (size + length (delta_layouts prev ps))
unfolding ser_chunk_size load
ser_chunk_size-delta_layouts [] [] prev size pts h = ap ok (omega arith)
ser_chunk_size-delta_layouts [] (p ∷ ps) prev size pts h = absurd pts
ser_chunk_size-delta_layouts (q ∷ qs) [] prev size pts h = absurd pts
ser_chunk_size-delta_layouts (q ∷ qs) (p ∷ ps) prev size ((after, eq), pts) (hp, hps) = rw eq (
    ser_chunk_size-delta_layouts qs ps p.fid _ pts hps
    ∙ ap ok (
        omega (
          arith,
          hp.tf_fits,
          length-append (delta_layout prev p) (delta_layouts p.fid ps),
          length-delta_layout prev p,
        )))

le-length-reserve : (buf : List ℕ) (n : ℕ) → n ≤ length (reserve buf n)
unfolding reserve
le-length-reserve buf n = ground (arith, length-replicate {A = ℕ} n 0)

-- The bytes of a chunk.
abbrev pub chunk_bytes : ℕ → List Posting → List ℕ
chunk_bytes prev ps = encode_values (delta_layouts prev ps)

pub encode-chunk_bytes :
    (ser_chunk : List ℕ) (qs : List (List ℕ)) (ps : List Posting) (enc_chunk_size prev : ℕ)
    → Points qs ps
    → All IsPosting ps
    → get_encoded_size_estimate (length (delta_layouts prev ps)) ≤ enc_chunk_size
    → (buf : List ℕ) × (encode ser_chunk qs enc_chunk_size prev true
        ≡ ok (chunk_bytes prev ps, buf))
unfolding encode
encode-chunk_bytes ser_chunk qs ps enc_chunk_size prev pts h fits =
    let d = delta_layouts prev ps in
    let n : ℕ = length d in
    let buf = reserve ser_chunk n in
    let (junk, rest, e, ej, er) =
      split_at n (length buf - n) buf (omega (arith, le-length-reserve ser_chunk n)) in
    (
      d ++ rest,
      rw (
        ser_chunk_size-delta_layouts qs ps prev 0 pts h ∙ ap ok {y = n} (omega arith),
        e,
        serialize-delta_layouts qs ps prev junk rest pts h ej,
        take-append d rest n refl,
        encode_fits d enc_chunk_size (All-delta_layouts prev ps h) fits,
      ),
    )

pub decode-chunk_bytes :
    (ps : List Posting) (dec_chunk_size prev : ℕ)
    → All IsPosting ps
    → IsU32 prev
    → length (delta_layouts prev ps) ≤ dec_chunk_size
    → decode (chunk_bytes prev ps) dec_chunk_size prev true ≡ ok (block_layouts ps)
unfolding decode
decode-chunk_bytes ps dec_chunk_size prev h hprev fits =
    rw
      (decode-encode_values (delta_layouts prev ps) dec_chunk_size (All-delta_layouts prev ps h)
        fits)
      (delta_codec-delta_layouts ps prev h hprev)

encode_values-append : (v w : List ℕ) → encode_values (v ++ w) ≡ encode_values v ++ encode_values w
unfolding encode_values
encode_values-append [] w = refl
encode_values-append (x ∷ v) w = rw (encode_values-append v w, append_assoc)

-- A chunk whose fids are coded from the last fid of another one, behind that one's bytes.
pub chunk_bytes-append :
    (prev : ℕ) (ps qs : List Posting)
    → chunk_bytes prev ps ++ chunk_bytes (last_fid prev ps) qs ≡ chunk_bytes prev (ps ++ qs)
chunk_bytes-append prev ps qs =
    sym (ap encode_values (delta_layouts-append prev ps qs) ∙ encode_values-append _ _)

-- `Decode` gives back the postings of a chunk that `Encode` wrote, in the layout of a block, if the
-- fids are decoded from the fid that they were coded from. Both buffers have their estimated size;
-- what m_ser_chunk held before does not matter.
pub decode-encode :
    (ser_chunk : List ℕ) (qs : List (List ℕ)) (ps : List Posting)
    (enc_chunk_size dec_chunk_size fido : ℕ)
    → Points qs ps
    → All IsPosting ps
    → IsU32 fido
    → get_encoded_size_estimate (length (delta_layouts fido ps)) ≤ enc_chunk_size
    → length (delta_layouts fido ps) ≤ dec_chunk_size
    → (encode ser_chunk qs enc_chunk_size fido true >>= λ r. decode r.0 dec_chunk_size fido true)
      ≡ ok (block_layouts ps)
decode-encode ser_chunk qs ps enc_chunk_size dec_chunk_size fido pts h hfido room fits =
    let (buf, e) = encode-chunk_bytes ser_chunk qs ps enc_chunk_size fido pts h room in
    rw e (decode-chunk_bytes ps dec_chunk_size fido h hfido fits)
