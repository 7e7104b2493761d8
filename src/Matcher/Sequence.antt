-- ===== src/Matcher/Sequence.antt =====
-- ValidQuerySequence, and the growth of the time histogram (src/ident/Matcher.cpp).
use audioneex.Prelude.{
  ℕ, zero, suc, ◌+◌, ◌-◌, ◌*◌, ◌/◌, ◌≤◌, ◌<◌, ◌≡◌, ◌↔◌, refl, List, [], ◌∷◌, true, some, length,
  length-append, length-replicate, replicate, take, ap, get_elem?, arith, le→leb,
}
use audioneex.Matcher.{valid_from, valid_query_sequence}
use audioneex.Matcher.Bins.{HistoBin, resize, make_room, empty_bin}

-- From the k-th element on.
valid_from-numbers :
    (k : ℕ) (seq : List ℕ) (i : ℕ)
    → valid_from k seq ≡ true
    → i < length seq
    → get_elem? seq i ≡ some (k + i)
unfolding valid_from
valid_from-numbers k [] i h l = absurd (omega arith)
valid_from-numbers k (x ∷ seq) zero h l = ground arith
valid_from-numbers k (x ∷ seq) (suc i) h l = ground (arith, valid_from-numbers (k + 1) seq i)

numbers-valid_from :
    (k : ℕ) (seq : List ℕ)
    → ((i : ℕ) → i < length seq → get_elem? seq i ≡ some (k + i))
    → valid_from k seq ≡ true
unfolding valid_from
numbers-valid_from k [] h = refl
numbers-valid_from k (x ∷ seq) h = ground (
  arith,
  h 0,
  numbers-valid_from (k + 1) seq (λ i l. ground (arith, h (suc i) (omega (arith, l)))),
)

-- A query sequence is valid exactly when each of its identifiers is its position.
pub valid_query_sequence_iff :
    (seq : List ℕ)
    → (valid_query_sequence seq ≡ true) ↔ ((i : ℕ) → i < length seq → get_elem? seq i ≡ some i)
unfolding valid_query_sequence
valid_query_sequence_iff seq = (
  λ h i l. ground (arith, valid_from-numbers 0 seq i),
  λ h. numbers-valid_from 0 seq (λ i l. ground (arith, h i l)),
)

take-of_ge : {A : Type 0} (n : ℕ) (xs : List A) → length xs ≤ n → take n xs ≡ xs
take-of_ge zero [] h = refl
take-of_ge zero (x ∷ xs) h = absurd (omega arith)
take-of_ge (suc n) [] h = refl
take-of_ge (suc n) (x ∷ xs) h = rw (take-of_ge n xs (omega arith)) refl

length-resize : (n : ℕ) (ht : List HistoBin) → length ht ≤ n → length (resize n ht) ≡ n
unfolding resize
length-resize n ht h = omega (
  arith,
  length-append (take n ht) (replicate (n - length ht) empty_bin),
  ap length (take-of_ge n ht h),
  length-replicate (n - length ht) empty_bin,
)

-- Where a bin lies behind the end of the histogram, the resizing makes room for it if and only if it is
-- the tenth or a later one, counted from 0: `bin * 1.1` is no more than the bin else.
pub make_room_iff :
    (bin : ℕ) (ht : List HistoBin)
    → length ht ≤ bin
    → (bin < length (make_room bin ht)) ↔ (10 ≤ bin)
unfolding make_room
make_room_iff bin ht h =
    let size : length (make_room bin ht) ≡ bin * 11 / 10 =
      rw (le→leb (length ht) bin h) (length-resize (bin * 11 / 10) ht (omega arith)) in
    (λ l. omega (arith, size, l), λ l. omega (arith, size, l))
