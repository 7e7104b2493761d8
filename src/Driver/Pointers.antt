-- ===== src/Driver/Pointers.antt =====
-- Writes into a vector and the pointers into a block, which TCIndex::Merge (src/dbdrivers/TCDataStore.cpp)
-- puts a merged block together with.
use audioneex.Prelude.{
  ℕ, zero, suc, ◌+◌, ◌-◌, ◌<◌, ◌≤◌, ◌^◌, ◌≡◌, refl, sym, ap, ◌∙◌, List, [], ◌∷◌, ◌++◌, Bool, true,
  false, ltb, none, some, ok, arith, Bool-cases, inl, inr, length, length-append, take, drop,
  take-append, drop-append, append_assoc, append-nil, ==-ne, ltb→lt, lt→leb, le→leb, sub64,
  replicate, length-replicate,
}
use audioneex.Store.{PListHeader, PListBlockHeader}
use audioneex.Driver.{HashDb, overwrite, list_header_bytes, block_header_bytes}
use audioneex.Driver.Merge.{PListBlock, raw_block_to_block, with_room, resize}

-- A write behind `pre`.
overwrite-at :
    (n : ℕ) (pre new post : List ℕ)
    → n ≡ length pre
    → length new ≤ length post
    → overwrite n new (pre ++ post) ≡ ok (pre ++ (new ++ drop (length new) post))
unfolding overwrite
overwrite-at n pre new post e fits =
    rw
      (
        le→leb (n + length new) (length (pre ++ post)) (omega (arith, length-append pre post)),
        take-append pre post n e,
      )
      (ap (λ rest. ok (pre ++ (new ++ rest)))
        (drop_behind pre post (n + length new) (length new) (omega arith)))
  where
    drop_behind :
        (pre post : List ℕ) (k m : ℕ) → k ≡ length pre + m → drop k (pre ++ post) ≡ drop m post
    drop_behind [] post k m e = ap (λ j. drop j post) (omega arith)
    drop_behind (x ∷ pre) post zero m e = absurd (omega arith)
    drop_behind (x ∷ pre) post (suc k) m e = drop_behind pre post k m (omega arith)

pub overwrite-over :
    (n : ℕ) (pre old new post : List ℕ)
    → n ≡ length pre
    → length old ≡ length new
    → overwrite n new (pre ++ (old ++ post)) ≡ ok (pre ++ (new ++ post))
overwrite-over n pre old new post e same =
    overwrite-at n pre new (old ++ post) e (omega (arith, length-append old post))
    ∙ ap (λ rest. ok (pre ++ (new ++ rest))) (drop-append old post (length new) (sym same))

pub length_headers :
    (lhdr : PListHeader) (hdr : PListBlockHeader)
    → (length (list_header_bytes lhdr) ≡ 4) × (length (block_header_bytes hdr) ≡ 12)
unfolding list_header_bytes block_header_bytes
length_headers lhdr hdr = (refl, refl)

-- The bytes of the body behind all others.
pub overwrite_body :
    (n : ℕ) (heads body chunk junk : List ℕ)
    → n ≡ length heads + length body
    → length chunk ≤ length junk
    → overwrite n chunk (heads ++ (body ++ junk))
      ≡ ok (heads ++ (body ++ (chunk ++ drop (length chunk) junk)))
overwrite_body n heads body chunk junk e room =
    ap (overwrite n chunk) (sym (append_assoc heads body junk))
    ∙ overwrite-at n (heads ++ body) chunk junk (e ∙ sym (length-append heads body)) room
    ∙ ap ok (append_assoc heads body (chunk ++ drop (length chunk) junk))

-- The pointers into a block with its headers.
pub raw_first :
    (n m : ℕ)
    → n ≡ 16 + m
    → m < 2 ^ 63
    → raw_block_to_block n true
      ≡ record { list_header = some 0; header = some 4; body = some 16; body_size = m }
unfolding raw_block_to_block
raw_first n m e h =
    rw (==-ne n 0 (λ z. omega arith), lt→leb n 4 (omega arith))
      (ap (λ k. record { list_header = some 0; header = some 4; body = some 16; body_size = k })
        {x = sub64 (sub64 n 12) 4} (omega arith))

pub raw_other :
    (n m : ℕ)
    → n ≡ 12 + m
    → m < 2 ^ 63
    → raw_block_to_block n false
      ≡ record { list_header = none; header = some 0; body = some 12; body_size = m }
unfolding raw_block_to_block
raw_other n m e h = rw (==-ne n 0 (λ z. omega arith)) (
    ap (λ k. record { list_header = none; header = some 0; body = some 12; body_size = k })
      {x = sub64 (sub64 n 12) 0} (omega arith))

-- The pointers into the first block, and into another one.
abbrev pub pointers : Bool → ℕ → PListBlock
pointers true m = record { list_header = some 0; header = some 4; body = some 16; body_size = m }
pointers false m = record { list_header = none; header = some 0; body = some 12; body_size = m }

take_all : (n : ℕ) (l : List ℕ) → length l ≤ n → take n l ≡ l
take_all zero [] h = refl
take_all zero (x ∷ l) h = absurd (omega arith)
take_all (suc n) [] h = refl
take_all (suc n) (x ∷ l) h = ap (◌∷◌ x) (take_all n l (omega arith))

-- The buffer with more behind it.
pub with_room-append :
    (h : HashDb) (grow : ℕ → ℕ → ℕ) (total : ℕ) (read : List ℕ)
    → (ext : List ℕ) × (with_room h grow total read ≡ read ++ ext)
      × (total ≤ length (read ++ ext))
      × ((c : ℕ) → total ≤ c → length read ≤ c → length (read ++ ext) ≤ c)
unfolding with_room
with_room-append h grow total read = elim (Bool-cases (ltb (length read) total)) [
  | inl e ↦
      let lt = ltb→lt (length read) total e in
      let ext = replicate {A = ℕ} (total - length read) 0 in
      let size : length (read ++ ext) ≡ total =
        omega
          (arith, lt, length-append read ext, length-replicate {A = ℕ} (total - length read) 0) in
      (
        ext,
        rw (e, resize, take_all total read (omega (arith, lt))) refl,
        omega (arith, size),
        λ c some all. omega (arith, some, size),
      )
  | inr e ↦ (
    [],
    rw (e, append-nil read) refl,
    rw (append-nil read) (ground arith),
    λ c some all. rw (append-nil read) all,
  )
]
