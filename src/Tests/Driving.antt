-- ===== src/Tests/Driving.antt =====
-- The Tokyo Cabinet driver over a database that is a list of records.
use audioneex.Prelude.{
  ℕ, zero, suc, ◌≡◌, refl, sym, List, [], ◌∷◌, Bool, true, false, ◌&&◌, ◌==◌, if◌then◌else◌, Option,
  none, some, ok, ◌>>=◌, arith, Bool-cases, inl, inr, ==-refl, ==-ne, ==→eq, All,
}
use mathlib.Core.Path.{subst}
use audioneex.Codec.VByte.{encode_values}
use audioneex.Store.{StoredList, body_at}
use audioneex.Store.Arrays.{array_store, array_laws}
use audioneex.Flush.{do_flush}
use audioneex.Flush.Entries.{buffer_of, HasFresh}
use audioneex.Driver.{HashDb, TcIndex, key}
use audioneex.Driver.Writes.{HashDbLaws}
use audioneex.Driver.View.{raw}
use audioneex.Driver.DataStore.{Operation, TcDataStore, tc_data_store}
use audioneex.Driver.Index.{IsIndex, FitsDriver}
use audioneex.Driver.Flushed.{flush-IsIndex}
use audioneex.Driver.Reads.{Visitable, IsVisited, flush-IsVisited, get_plist_block-body_at}
use audioneex.Tests.{three-IsPosting}
use audioneex.Tests.Lists.{two_entries, two_lists, two-IsEntry}

abbrev same : List ℕ → List ℕ → Bool
same [] [] = true
same (a ∷ ks) (b ∷ js) = (a == b) && same ks js
same _ _ = false

same_refl : (k : List ℕ) → same k k ≡ true
same_refl [] = refl
same_refl (a ∷ k) = rw (==-refl a) (same_refl k)

same-eq : (k j : List ℕ) → same k j ≡ true → k ≡ j
same-eq [] [] e = refl
same-eq [] (b ∷ js) e = cc
same-eq (a ∷ ks) [] e = cc
same-eq (a ∷ ks) (b ∷ js) e = ground (arith, same-eq ks js)

abbrev pub lookup : List ℕ → List (List ℕ × List ℕ) → Option (List ℕ)
lookup k [] = none
lookup k ((j, v) ∷ db) = if same j k then some v else lookup k db

abbrev first_keys : List (List ℕ × List ℕ) → List (List ℕ)
first_keys [] = []
first_keys ((k, v) ∷ db) = k ∷ first_keys db

abbrev pub record_db : HashDb
record_db = record {
  Db = List (List ℕ × List ℕ);
  get = lookup;
  put_async = λ k v db. (true, (k, v) ∷ db);
  put_sync = λ k v db. (true, (k, v) ∷ db);
  ecode = λ db. 0;
  keys = first_keys;
}

pub record_laws : HashDbLaws record_db
record_laws = record {
  put_done = λ k v db. refl;
  get-put = λ k v db. rw (same_refl k) refl;
  get-put_other = λ k j v db ne. elim (Bool-cases (same k j)) [
    | inl e ↦ absurd (ne (sym (same-eq k j e)))
    | inr e ↦ rw e refl
  ];
}

-- The database has the one block of list 17.
abbrev pub one_block : List (List ℕ × List ℕ)
one_block = elim (raw (two_lists 17) 1) [ none ↦ [] | some block ↦ (17 ∷ 1 ∷ [], block) ∷ [] ]

abbrev pub empty_index : Option (List (List ℕ × List ℕ)) → TcIndex record_db
empty_index handle = record {
  handle = handle;
  cache = record { list_id = 0; accum = 0; buffer = [] };
  buffer = [];
  capacity = 0;
}

abbrev building : TcDataStore record_db
building = record {
  main_index = empty_index (some one_block);
  delta_index = empty_index none;
  fingerprints = none;
  op = Operation.build;
  run = 0;
  read_buffer = [];
}

pub one_block-get : (t i : ℕ) → lookup (key t i) one_block ≡ raw (two_lists t) i
unfolding key
one_block-get t i = elim (Bool-cases (t == 17)) [
  | inl e ↦
      subst (λ u. lookup (key u i) one_block ≡ raw (two_lists u) i) (sym (==→eq t 17 e)) (at_17 i)
  | inr e ↦ rw (raw, e, ==-ne 17 t (λ s. ground arith)) refl
]
  where
    at_17 : (i : ℕ) → lookup (key 17 i) one_block ≡ raw (two_lists 17) i
    at_17 zero = refl
    at_17 (suc zero) = refl
    at_17 (suc (suc i)) = rw (==-ne 1 (suc (suc i)) (λ e. omega arith)) refl

pub building-IsIndex : IsIndex record_db building.main_index two_lists
building-IsIndex = record { db = one_block; has_db = refl; bytes = one_block-get }

two-FitsDriver : All FitsDriver two_entries
unfolding encode_values
two-FitsDriver = (
  record { size_fits = omega arith; fid_fits = omega arith; room = omega arith },
  (record { size_fits = omega arith; fid_fits = omega arith; room = omega arith }, tt),
)

flush-IsIndex_example :
    (d' : TcDataStore record_db) × (a' : ℕ → StoredList) × ((do_flush
          (tc_data_store record_db (λ c n. n) none)
          (buffer_of two_entries)
          ((tc_data_store record_db (λ c n. n) none).on_indexer_flush_start (ok building))
        >>= λ s. ok ((tc_data_store record_db (λ c n. n) none).on_indexer_flush_end s))
      ≡ ok (ok d'))
    × IsIndex record_db d'.main_index a'
    × All (HasFresh array_store array_laws a') two_entries
    × ((u : ℕ) → All (λ y. ¬ (u ≡ y.term)) two_entries → a' u ≡ two_lists u)
flush-IsIndex_example =
    flush-IsIndex record_db record_laws (λ c n. n) none two_entries two_lists building refl
      building-IsIndex ((omega arith, tt), (tt, tt)) two-IsEntry (refl, (refl, tt)) two-FitsDriver

two-Visitable : All (Visitable 5) two_entries
two-Visitable = (
  record { fit = three-IsPosting; few = omega arith; lt = omega arith },
  (record { fit = (three-IsPosting.0, tt); few = omega arith; lt = omega arith }, tt),
)

flush-IsVisited_example :
    (d' : TcDataStore record_db) × ((do_flush
          (tc_data_store record_db (λ c n. n) none)
          (buffer_of two_entries)
          ((tc_data_store record_db (λ c n. n) none).on_indexer_flush_start (ok building))
        >>= λ s. ok ((tc_data_store record_db (λ c n. n) none).on_indexer_flush_end s))
      ≡ ok (ok d'))
    × All (IsVisited record_db record_laws (λ c n. n) none 5 d') two_entries
flush-IsVisited_example =
    flush-IsVisited record_db record_laws (λ c n. n) none 5 two_entries two_lists building refl
      building-IsIndex ((omega arith, tt), (tt, tt)) two-IsEntry (refl, (refl, tt)) two-FitsDriver
      two-Visitable

get_plist_block-body_at_example :
    (tc_data_store record_db (λ c n. n) none).get_plist_block 17 1 (ok building)
    ≡ body_at (two_lists 17).blocks 1
get_plist_block-body_at_example =
    get_plist_block-body_at record_db (λ c n. n) none building two_lists building-IsIndex 17 1
