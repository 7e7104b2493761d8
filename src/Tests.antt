-- ===== src/Tests.antt =====
-- Concrete runs of the model: postings lists of a few elements, a data store that keeps its lists in
-- arrays, and natural numbers for the floating-point ones.
mod Codecs
mod Lists
mod Classes
mod Driving
mod Merging
mod Sessions
mod Matching
mod Recognizing
mod Quantizing
use audioneex.Prelude.{
  ℕ, ◌+◌, ◌-◌, ◌*◌, ◌/◌, refl, List, [], ◌∷◌, ◌++◌, arith, All, ◌==◌, ltb, leb, if◌then◌else◌,
}
use audioneex.Postings.{Occ, Posting, IsPosting, cache_layout}
use audioneex.Store.{DataStore, DataStoreLaws, StoredList, append_chunk, header_at, body_at}
use audioneex.AudioBlock.{FloatOps}
use audioneex.Classifier.{DoubleOps}
use audioneex.Classifier.Settled.{Ordered}

abbrev pub nat_floats : FloatOps ℕ
nat_floats = record {
  of_size = λ n. n;
  of_bits = λ n. n;
  to_bits = λ n. n;
  to_size = λ n. n;
  add = λ a b. a + b;
  sub = λ a b. a - b;
  mul = λ a b. a * b;
  div = λ a b. a / b;
  at_most = λ a b. leb a b;
  less = λ a b. ltb a b;
}

abbrev pub nat_doubles : DoubleOps ℕ
nat_doubles = record {
  decimal = λ n k. n;
  sub = λ a b. a - b;
  div = λ a b. a / b;
  less = λ a b. ltb a b;
}

pub nat_order : Ordered nat_doubles
nat_order = record {
  irreflexive = λ a. ground arith;
  not_less_trans = λ a b c h k. ground arith;
  less_asym = λ a b h. ground arith;
}

-- Three postings of one list.
abbrev pub posting_1 : Posting
posting_1 = record {
  fid = 3;
  occs = record { lid = 0; time = 5; error = 9 } ∷ record { lid = 4; time = 300; error = 1 } ∷ [];
}

abbrev pub posting_2 : Posting
posting_2 = record { fid = 7; occs = record { lid = 2; time = 40; error = 8 } ∷ [] }

abbrev pub posting_3 : Posting
posting_3 = record { fid = 8; occs = record { lid = 1; time = 70000; error = 0 } ∷ [] }

abbrev pub three : List Posting
three = posting_1 ∷ posting_2 ∷ posting_3 ∷ []

posting_1-IsPosting : IsPosting posting_1
posting_1-IsPosting = record {
  fid_fits = omega arith;
  tf_pos = omega arith;
  tf_fits = omega arith;
  occs_fit = (omega arith, (omega arith, tt));
}

posting_2-IsPosting : IsPosting posting_2
posting_2-IsPosting = record {
  fid_fits = omega arith;
  tf_pos = omega arith;
  tf_fits = omega arith;
  occs_fit = (omega arith, tt);
}

posting_3-IsPosting : IsPosting posting_3
posting_3-IsPosting = record {
  fid_fits = omega arith;
  tf_pos = omega arith;
  tf_fits = omega arith;
  occs_fit = (omega arith, tt);
}

pub three-IsPosting : All IsPosting three
three-IsPosting = (posting_1-IsPosting, (posting_2-IsPosting, (posting_3-IsPosting, tt)))

abbrev pub pointers : List (List ℕ)
pointers =
    (cache_layout posting_1 ++ (cache_layout posting_2 ++ cache_layout posting_3))
    ∷ (cache_layout posting_2 ++ cache_layout posting_3)
    ∷ (cache_layout posting_3 ++ [])
    ∷ []
