-- ===== src/Driver/Writes.antt =====
-- What TCIndex::WriteBlock and the loops over the block cache (src/dbdrivers/TCDataStore.cpp) leave in
-- the database.
use audioneex.Prelude.{
  ℕ, ◌≤◌, ◌≡◌, ◌≢◌, refl, sym, ap, ap₂, ◌∙◌, List, [], ◌∷◌, Bool, true, false, not, ◌&&◌, ◌==◌,
  if◌then◌else◌, Option, some, ok, arith, Bool-cases, inl, inr, ==→eq, le→ltb, length, take,
  take_self,
}
use audioneex.Cache.{Buffer, find, put}
use audioneex.Cache.View.{find-put_other}
use audioneex.Driver.{HashDb, TcIndex, opened, key, is_empty, write_block, write_blocks}

-- What the driver relies on of the database: a put succeeds, and a get gives what was put last.
pub record HashDbLaws (h : HashDb) : Type 0 where
  pub put_done : (k v : List ℕ) (db : h.Db) → (h.put_async k v db).0 ≡ true
  pub get-put : (k v : List ℕ) (db : h.Db) → h.get k (h.put_async k v db).1 ≡ some v
  pub get-put_other :
      (k j v : List ℕ) (db : h.Db) → j ≢ k → h.get j (h.put_async k v db).1 ≡ h.get j db

-- The blocks of the cache are not empty, and have different numbers.
abbrev pub IsBlocks : Buffer → Type 0
IsBlocks [] = Unit {0}
IsBlocks ((k, block) ∷ blocks) = (is_empty block ≡ false) × (find k blocks ≡ []) × IsBlocks blocks

pub put-IsBlocks :
    (i : ℕ) (block : List ℕ) (b : Buffer)
    → is_empty block ≡ false
    → IsBlocks b
    → IsBlocks (put i block b)
unfolding put find
put-IsBlocks i block [] full h = (full, refl, tt)
put-IsBlocks i block ((k, old) ∷ b) full h = elim (Bool-cases (k == i)) [
  | inl e ↦ rw e (full, h.1, h.2)
  | inr e ↦ rw e (
    h.0,
    find-put_other i k block b (λ (s : k ≡ i). ground arith) ∙ h.1,
    put-IsBlocks i block b full h.2,
  )
]

-- A block of the cache, or else what the database has.
abbrev pub block_or : Bool → List ℕ → Option (List ℕ) → Option (List ℕ)
block_or of_list cached stored = if of_list && not (is_empty cached) then some cached else stored

pub nothing : (s : Bool) (stored : Option (List ℕ)) → stored ≡ block_or s [] stored
unfolding is_empty
nothing true stored = refl
nothing false stored = refl

module _ (h : HashDb) (laws : HashDbLaws h) where
  pub write_block-take :
      (t i n : ℕ) (buffer : List ℕ) (x : TcIndex h) (db : h.Db)
      → x.handle ≡ some db
      → n ≤ length buffer
      → write_block h t i buffer n x
        ≡ ok (record x { handle = some (h.put_async (key t i) (take n buffer) db).1 })
  unfolding write_block key
  write_block-take t i n buffer x db e fits =
      rw (opened, e, le→ltb (length buffer) n fits, laws.put_done (key t i) (take n buffer) db) refl

  write_block-put :
      (t i : ℕ) (block : List ℕ) (x : TcIndex h) (db : h.Db)
      → x.handle ≡ some db
      → write_block h t i block (length block) x
        ≡ ok (record x { handle = some (h.put_async (key t i) block db).1 })
  write_block-put t i block x db e =
      write_block-take t i (length block) block x db e (omega arith)
      ∙ ap (λ v. ok (record x { handle = some (h.put_async (key t i) v db).1 }))
          (take_self (length block) block refl)

  key-other : (t u i k : ℕ) → (u == t) && (k == i) ≡ false → key u i ≢ key t k
  unfolding key
  key-other t u i k e s = let eu : u ≡ t = cc in let ei : i ≡ k = cc in ground arith

  -- The first block goes to the database, the others follow.
  step :
      (t k u i : ℕ) (block : List ℕ) (b : Buffer) (db : h.Db)
      → IsBlocks ((k, block) ∷ b)
      → block_or (u == t) (find i b) (h.get (key u i) (h.put_async (key t k) block db).1)
        ≡ block_or (u == t) (find i ((k, block) ∷ b)) (h.get (key u i) db)
  unfolding find is_empty
  step t k u i block b db d = elim (Bool-cases (u == t)) [
    | inr e ↦
        rw (e, laws.get-put_other (key t k) (key u i) block db (key-other t u i k (rw e refl))) refl
    | inl e ↦ elim (Bool-cases (k == i)) [
      | inl f ↦
          let ei : k ≡ i = ==→eq k i f in
          let gone : find i b ≡ [] = ap (λ j. find j b) (sym ei) ∙ d.1 in
          let there : h.get (key u i) (h.put_async (key t k) block db).1 ≡ some block =
            ap₂ (λ v j. h.get (key v j) (h.put_async (key t k) block db).1) (==→eq u t e) (sym ei)
            ∙ laws.get-put (key t k) block db in
          rw (e, f, gone, there, d.0) refl
      | inr f ↦
          rw
            (
              e,
              f,
              laws.get-put_other (key t k) (key u i) block db (key-other t u i k (rw (e, f) refl)),
            )
            refl
    ]
  ]

  pub write_blocks-get :
      (t : ℕ) (b : Buffer) (x : TcIndex h) (db : h.Db)
      → x.handle ≡ some db
      → IsBlocks b
      → (db' : h.Db) × (write_blocks h t b x ≡ ok (record x { handle = some db' }))
        × ((u i : ℕ) → h.get (key u i) db' ≡ block_or (u == t) (find i b) (h.get (key u i) db))
  unfolding write_blocks find is_empty
  write_blocks-get t [] x db e d =
      (db, ap (λ d. ok (record x { handle = d })) e, λ u i. nothing (u == t) (h.get (key u i) db))
  write_blocks-get t ((k, block) ∷ b) x db e d =
      let db1 = (h.put_async (key t k) block db).1 in
      let (db2, run, at) = write_blocks-get t b (record x { handle = some db1 }) db1 refl d.2 in
      (db2, rw (write_block-put t k block x db e) run, λ u i. at u i ∙ step t k u i block b db d)
