-- ===== src/Iterator.antt =====
-- PListIterator (src/index/DataStore.h): the postings of a stored list, block by block.
pub mod Step
pub mod Traversal
use audioneex.Prelude.{
  ℕ, zero, suc, ◌+◌, List, [], ◌∷◌, Bool, true, false, ◌==◌, ◌&&◌, not, ltb, leb, if◌then◌else◌,
  Option, none, some, Outcome, ok, err, fault, stuck, ◌>>=◌, length, take, drop, add32, Error,
  decode_failed, invalid_index_data, runtime_error,
}
use audioneex.Codec.VByte.{get_decoded_size_estimate}
use audioneex.Codec.Block
use audioneex.Store.{DataStore}

-- Posting_t. A pointer is `none` where it is null, and else the words that it points at.
pub record Cursor : Type 0 where
  pub fid : ℕ
  pub tf : ℕ
  pub lid : Option (List ℕ)
  pub t : Option (List ℕ)
  pub e : Option (List ℕ)

-- What `reset` makes of it.
abbrev pub no_posting : Cursor
no_posting = record { fid = 0; tf = 0; lid = none; t = none; e = none }

abbrev is_null_pointer : Option (List ℕ) → Bool
is_null_pointer none = true
is_null_pointer (some _) = false

unfoldable pub is_empty : Cursor → Bool
is_empty c =
    c.fid == 0
    && (c.tf == 0 && (is_null_pointer c.lid && (is_null_pointer c.t && is_null_pointer c.e)))

-- m_begin and m_end are the words of the current block that are left to read, and whether m_begin
-- has been set at all. `capacity` is the one of m_BlockDecoded.
pub record PListIterator : Type 0 where
  pub term : ℕ
  pub next_block : ℕ
  pub cursor : Cursor
  pub eol : Bool
  pub capacity : ℕ
  pub begun : Bool
  pub words : List ℕ

-- GetPListIterator
abbrev pub get_plist_iterator : ℕ → PListIterator
get_plist_iterator term = record {
  term = term;
  next_block = 1;
  cursor = no_posting;
  eol = false;
  capacity = 32768;
  begun = false;
  words = [];
}

-- `begin += n`: the words before. Words behind the end of the block are no data of it.
unfoldable pub advance : ℕ → List ℕ → Outcome (List ℕ × List ℕ)
advance n words = if leb n (length words) then ok (take n words, drop n words) else fault

unfoldable pub next_posting : PListIterator → Outcome PListIterator
unfolding advance
next_posting it = elim it.words [
  | [] ↦ ok (record it { cursor = no_posting })
  | fid ∷ [] ↦ fault
  | fid ∷ tf ∷ rest ↦ advance tf rest >>= λ r1. advance tf r1.1 >>= λ r2. advance tf r2.1 >>= λ r3.
      ok (record it {
        cursor = record { fid = fid; tf = tf; lid = some r1.0; t = some r2.0; e = some r3.0 };
        words = r3.1;
      })
]

-- A negative result of `Decode` is thrown as an exception.
unfoldable pub checked : Outcome (List ℕ) → Outcome (List ℕ)
checked (ok words) = ok words
checked (err e) = err invalid_index_data
checked fault = fault
checked stuck = stuck

module _ (s : DataStore) where
  -- `NextBlock`, with its result.
  unfoldable pub next_block : s.State → PListIterator → Outcome (PListIterator × Bool)
  unfolding checked get_decoded_size_estimate
  next_block store it =
      let pblock = s.get_plist_block it.term it.next_block store in
      let decsize = get_decoded_size_estimate (length pblock) in
      let capacity : ℕ = if ltb it.capacity decsize then decsize else it.capacity in
      let decoded : Outcome (PListIterator × Bool) = do
        words ← checked (Block.decode pblock capacity 0 true)
        if length words == 0
            then err runtime_error
            else ok (
              record it {
                next_block = add32 it.next_block 1;
                capacity = capacity;
                begun = true;
                words = words;
              },
              true,
            )
      in if length pblock == 0
        then ok (record it { cursor = no_posting; eol = true }, false)
        else decoded

  unfoldable pub next : s.State → PListIterator → Outcome PListIterator
  unfolding next_posting next_block is_empty
  next store it =
      let advanced : Outcome PListIterator = do
        it1 ← next_posting it
        let fetched : Outcome PListIterator = do
          (it2, more) ← next_block store it1
          if more then next_posting it2 else ok it2
        if is_empty it1.cursor then fetched else ok it1
      in if it.eol then ok it else advanced

  -- `get`: the iterator after it has the cursor that is returned.
  unfoldable pub get : s.State → PListIterator → Outcome PListIterator
  unfolding next
  get store it = if it.begun then ok it else next store it
