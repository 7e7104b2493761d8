-- ===== src/Driver/Merges.antt =====
-- The loop of TCIndex::Merge (src/dbdrivers/TCDataStore.cpp) over the keys of the delta index.
use audioneex.Prelude.{
  ℕ, ◌≤◌, ◌≡◌, ◌≢◌, refl, sym, ap, ◌∙◌, List, [], ◌∷◌, Option, some, ok, arith, length, All, map,
}
use mathlib.Core.Path.{subst}
use audioneex.Driver.{HashDb, TcIndex, key, opened}
use audioneex.Driver.Writes.{HashDbLaws}
use audioneex.Driver.Merge.{merge_block, merge_key, merge_keys}
use audioneex.Driver.Merged.{KeepsBuffer}

-- A record of the delta index, and what the merged one is.
pub record Part : Type 0 where
  pub list_id : ℕ
  pub block_id : ℕ
  pub value : List ℕ
  pub result : List ℕ

abbrev pub part_key : Part → List ℕ
part_key p = key p.list_id p.block_id

-- The keys are different.
abbrev pub DistinctParts : List Part → Type 0
DistinctParts [] = Unit {0}
DistinctParts (p ∷ ps) = All (λ q. part_key q ≢ part_key p) ps × DistinctParts ps

module _ (h : HashDb) (laws : HashDbLaws h) (grow : ℕ → ℕ → ℕ) (capacity : ℕ) where
  -- A block is merged with what the live index has of it.
  abbrev pub Merges : Part → Option (List ℕ) → Type 0
  Merges p stored =
      (delta live : TcIndex h) (db : h.Db)
      → delta.capacity ≡ capacity
      → length delta.buffer ≤ capacity
      → live.handle ≡ some db
      → h.get (part_key p) db ≡ stored
      → (delta' : TcIndex h) × (merge_block h grow p.list_id p.block_id p.value delta live
          ≡ ok (delta', record live { handle = some (h.put_async (part_key p) p.result db).1 }))
        × KeepsBuffer h delta delta'

  -- The database after the loop.
  pub record IsMerged (ps : List Part) (db db' : h.Db) : Type 0 where
    pub merged : All (λ p. h.get (part_key p) db' ≡ some p.result) ps
    pub others : (k : List ℕ) → All (λ p. k ≢ part_key p) ps → h.get k db' ≡ h.get k db

  -- A put of another key keeps what is stored.
  put-Merges :
      (p : Part) (db : h.Db) (qs : List Part)
      → All (λ q. part_key q ≢ part_key p) qs
      → All (λ q. Merges q (h.get (part_key q) db)) qs
      → All (λ q. Merges q (h.get (part_key q) (h.put_async (part_key p) p.result db).1)) qs
  put-Merges p db [] ne m = tt
  put-Merges p db (q ∷ qs) ne m = (
    subst (Merges q) (sym (laws.get-put_other (part_key p) (part_key q) p.result db ne.0)) m.0,
    put-Merges p db qs ne.1 m.1,
  )

  flip_ne :
      (p : Part) (qs : List Part)
      → All (λ q. part_key q ≢ part_key p) qs
      → All (λ q. part_key p ≢ part_key q) qs
  flip_ne p [] ne = tt
  flip_ne p (q ∷ qs) ne = (λ e. ne.0 (sym e), flip_ne p qs ne.1)

  merge_key_block :
      (p : Part) (delta live : TcIndex h)
      → merge_key h grow (part_key p) (some p.value) delta live
        ≡ merge_block h grow p.list_id p.block_id p.value delta live
  unfolding merge_key key
  merge_key_block p delta live = refl

  opened_db : (x : TcIndex h) (db : h.Db) → x.handle ≡ some db → opened h x ≡ ok db
  unfolding opened
  opened_db x db e = rw e refl

  one_round :
      (p : Part) (ks : List (List ℕ)) (delta live delta1 : TcIndex h) (ddb : h.Db)
      {live1 : TcIndex h}
      → delta.handle ≡ some ddb
      → h.get (part_key p) ddb ≡ some p.value
      → merge_block h grow p.list_id p.block_id p.value delta live ≡ ok (delta1, live1)
      → merge_keys h grow (part_key p ∷ ks) delta live ≡ merge_keys h grow ks delta1 live1
  unfolding merge_keys
  one_round p ks delta live delta1 ddb ed value run =
      rw (opened_db delta ddb ed, value, merge_key_block p delta live, run) refl

  pub merge_keys-IsMerged :
      (ddb : h.Db) (ps : List Part) (delta live : TcIndex h) (db : h.Db)
      → delta.handle ≡ some ddb
      → delta.capacity ≡ capacity
      → length delta.buffer ≤ capacity
      → live.handle ≡ some db
      → DistinctParts ps
      → All (λ p. h.get (part_key p) ddb ≡ some p.value) ps
      → All (λ p. Merges p (h.get (part_key p) db)) ps
      → (delta' : TcIndex h) × (db' : h.Db) × (merge_keys h grow (map part_key ps) delta live
          ≡ ok (delta', record live { handle = some db' }))
        × IsMerged ps db db'
  unfolding merge_keys
  merge_keys-IsMerged ddb [] delta live db ed ec room el distinct values merges = (
    delta,
    db,
    ap (λ d. ok (delta, record live { handle = d })) el,
    record { merged = tt; others = λ k ne. refl },
  )
  merge_keys-IsMerged ddb (p ∷ ps) delta live db ed ec room el distinct values merges =
      let (delta1, run, kept) = merges.0 delta live db ec room el refl in
      let db1 = (h.put_async (part_key p) p.result db).1 in
      let (delta', db', rest, after) =
        merge_keys-IsMerged ddb ps delta1 (record live { handle = some db1 }) db1
          (kept.same_handle ∙ ed) (kept.same_capacity ∙ ec) (omega (arith, kept.inside, ec)) refl
          distinct.1 values.1 (put-Merges p db ps distinct.0 merges.1) in
      (
        delta',
        db',
        one_round p (map part_key ps) delta live delta1 ddb ed values.0 run ∙ rest,
        record {
          merged = (
            after.others (part_key p) (flip_ne p ps distinct.0)
                ∙ laws.get-put (part_key p) p.result db,
            after.merged,
          );
          others = λ k ne. after.others k ne.1 ∙ laws.get-put_other (part_key p) k p.result db ne.0;
        },
      )
