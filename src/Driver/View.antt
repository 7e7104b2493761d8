-- ===== src/Driver/View.antt =====
-- The lists that a TCIndex (src/dbdrivers/TCDataStore.cpp) stands for: its database with the blocks of
-- the cache laid over it.
use audioneex.Prelude.{
  ℕ, ◌+◌, ◌-◌, ◌≡◌, ◌≢◌, refl, sym, ap, ◌∙◌, List, [], ◌∷◌, ◌++◌, true, false, ◌==◌, if◌then◌else◌,
  Option, none, some, ok, arith, Bool-cases, inl, inr, ==-refl, ==-ne, ==→eq, append-nil, le→ltb,
  drop-nil, replicate, length,
}
use mathlib.Core.Path.{subst}
use audioneex.Cache.{find, put}
use audioneex.Cache.View.{find-put, find-put_other}
use audioneex.Store.{PListHeader, PListBlockHeader, StoredList, block_at, null_block}
use audioneex.Driver.{
  HashDb, TcIndex, key, is_empty, opened, read_block, cached_block, load_block, switch_list,
  overwrite, list_header_bytes, block_header_bytes, header_offset, block_header_size, write_headers,
}
use audioneex.Driver.Writes.{
  HashDbLaws, IsBlocks, block_or, nothing, put-IsBlocks, write_blocks-get,
}

-- The bytes of block `i`, with its headers.
abbrev pub layout : PListHeader → ℕ → PListBlockHeader → List ℕ → List ℕ
layout lhdr i hdr body =
    if i == 1
    then list_header_bytes lhdr ++ (block_header_bytes hdr ++ body)
    else block_header_bytes hdr ++ body

abbrev pub raw : StoredList → ℕ → Option (List ℕ)
raw l i = elim (block_at l.blocks i) [
  | none ↦ none
  | some b ↦ some (layout l.header i b.header b.body)
]

pub layout-full :
    (lhdr : PListHeader) (i : ℕ) (hdr : PListBlockHeader) (body : List ℕ)
    → is_empty (layout lhdr i hdr body) ≡ false
unfolding is_empty list_header_bytes block_header_bytes
layout-full lhdr i hdr body = elim (Bool-cases (i == 1)) [ inl e ↦ rw e refl | inr e ↦ rw e refl ]

-- New headers over those of a block.
pub write_headers-layout :
    (lhdr lold : PListHeader) (hdr old : PListBlockHeader) (body : List ℕ)
    → write_headers lhdr hdr (layout lold hdr.id old body) ≡ ok (layout lhdr hdr.id hdr body)
unfolding write_headers
write_headers-layout lhdr lold hdr old body = elim (Bool-cases (hdr.id == 1)) [
  | inl e ↦ rw e (ground arith)
  | inr e ↦ rw e (ground arith)
]

-- The list header of the first block alone.
pub overwrite-layout :
    (lhdr lold : PListHeader) (hdr : PListBlockHeader) (body : List ℕ)
    → overwrite 0 (list_header_bytes lhdr) (layout lold 1 hdr body) ≡ ok (layout lhdr 1 hdr body)
unfolding overwrite list_header_bytes block_header_bytes
overwrite-layout lhdr lold hdr body = ground arith

pub layout-append :
    (lhdr : PListHeader) (i : ℕ) (hdr : PListBlockHeader) (body chunk : List ℕ)
    → layout lhdr i hdr body ++ chunk ≡ layout lhdr i hdr (body ++ chunk)
unfolding list_header_bytes block_header_bytes
layout-append lhdr i hdr body chunk = elim (Bool-cases (i == 1)) [
  | inl e ↦ rw e refl
  | inr e ↦ rw e refl
]

-- A block of zeros.
pub layout-zeros :
    (i : ℕ)
    → replicate (header_offset i + block_header_size) 0
      ≡ layout (record { block_count = 0 }) i null_block []
unfolding list_header_bytes block_header_bytes header_offset
layout-zeros i = elim (Bool-cases (i == 1)) [ inl e ↦ rw e refl | inr e ↦ rw e refl ]

is_empty-nil : (b : List ℕ) → is_empty b ≡ true → b ≡ []
unfolding is_empty
is_empty-nil [] e = refl
is_empty-nil (x ∷ b) e = cc

module _ (h : HashDb) where
  pub record View (x : TcIndex h) (a : ℕ → StoredList) : Type 0 where
    pub db : h.Db
    pub has_db : x.handle ≡ some db
    pub are_blocks : IsBlocks x.cache.buffer
    pub bytes :
        (t i : ℕ)
        → block_or (t == x.cache.list_id) (find i x.cache.buffer) (h.get (key t i) db) ≡ raw (a t) i

module _ (h : HashDb) (laws : HashDbLaws h) where
  pub switch_list-View :
      (t : ℕ) (x : TcIndex h) (a : ℕ → StoredList)
      → View h x a
      → (x1 : TcIndex h) × (switch_list h t x ≡ ok x1) × View h x1 a × (x1.cache.list_id ≡ t)
  unfolding switch_list
  switch_list-View t x a v = elim (Bool-cases (t == x.cache.list_id)) [
    | inl e ↦ (x, rw e refl, v, sym (==→eq t x.cache.list_id e))
    | inr e ↦
        let (db, run, at) =
          write_blocks-get h laws x.cache.list_id x.cache.buffer x v.db v.has_db v.are_blocks in
        (
          record x { handle = some db; cache = record x.cache { list_id = t; buffer = [] } },
          rw (e, run) refl,
          record {
            db = db;
            has_db = refl;
            are_blocks = tt;
            bytes = λ u i.
                unfold find in sym (nothing (u == t) (h.get (key u i) db)) ∙ at u i ∙ v.bytes u i;
          },
          refl,
        )
  ]

module _ (h : HashDb) (t : ℕ) (x : TcIndex h) (a : ℕ → StoredList) (v : View h x a)
    (here : x.cache.list_id ≡ t) where
  stored_at : (i : ℕ) → block_or true (find i x.cache.buffer) (h.get (key t i) v.db) ≡ raw (a t) i
  stored_at i =
      ap (λ s. block_or s (find i x.cache.buffer) (h.get (key t i) v.db))
        (sym (==-refl t) ∙ ap (λ u. t == u) (sym here))
      ∙ v.bytes t i

  -- What is in the cache is the block; what is not is read from the database.
  from_cache :
      (i : ℕ)
      → is_empty (find i x.cache.buffer) ≡ false
      → some (find i x.cache.buffer) ≡ raw (a t) i
  from_cache i s = rw s at (stored_at i)

  from_db : (i : ℕ) → find i x.cache.buffer ≡ [] → h.get (key t i) v.db ≡ raw (a t) i
  unfolding is_empty
  from_db i s = sym (ap (λ c. block_or true c (h.get (key t i) v.db)) s) ∙ stored_at i

  pub cached_block-raw :
      (i : ℕ) (block : List ℕ) → raw (a t) i ≡ some block → cached_block h t i x ≡ ok block
  unfolding cached_block read_block opened
  cached_block-raw i block e = elim (Bool-cases (is_empty (find i x.cache.buffer))) [
    | inl s ↦
        let missing = is_empty-nil (find i x.cache.buffer) s in
        let stored : h.get (key t i) v.db ≡ some block = from_db i missing ∙ e in
        rw
          (
            s,
            opened,
            v.has_db,
            stored,
            le→ltb (length block) 0 (omega arith),
            missing,
            drop-nil {A = ℕ} (length block - 0),
            append-nil block,
          )
          refl
    | inr s ↦ rw s (let q = from_cache i s ∙ e in cc)
  ]

  pub load_block-none :
      (i : ℕ)
      → raw (a t) i ≡ none
      → load_block h t i true x ≡ ok (replicate (header_offset i + block_header_size) 0)
  unfolding load_block
  load_block-none i e = elim (Bool-cases (is_empty (find i x.cache.buffer))) [
    | inl s ↦ rw s refl
    | inr s ↦ absurd (let q = from_cache i s ∙ e in cc)
  ]

  -- A block is put into the cache.
  pub put-View :
      (i : ℕ) (block : List ℕ) (a' : ℕ → StoredList)
      → is_empty block ≡ false
      → raw (a' t) i ≡ some block
      → ((j : ℕ) → j ≢ i → raw (a' t) j ≡ raw (a t) j)
      → ((u : ℕ) → u ≢ t → a' u ≡ a u)
      → View h (record x { cache = record x.cache { buffer = put i block x.cache.buffer } }) a'
  put-View i block a' full at others lists = record {
    db = v.db;
    has_db = v.has_db;
    are_blocks = put-IsBlocks i block x.cache.buffer full v.are_blocks;
    bytes = λ u j. elim (Bool-cases (u == t)) [
      | inl e ↦ subst (Same j) (sym (==→eq u t e)) (of_list j)
      | inr e ↦
          let ne : u ≢ t = λ (s : u ≡ t). ground arith in
          let s = ==-ne u x.cache.list_id (λ s. ne (s ∙ here)) in
          rw s (rw s at (v.bytes u j)) ∙ ap (λ l. raw l j) (sym (lists u ne))
    ];
  }
    where
      Same : ℕ → ℕ → Type 0
      Same j u =
          block_or (u == x.cache.list_id) (find j (put i block x.cache.buffer))
            (h.get (key u j) v.db)
          ≡ raw (a' u) j

      same_list : t == x.cache.list_id ≡ true
      same_list = ap (λ u. t == u) here ∙ ==-refl t

      of_list : (j : ℕ) → Same j t
      of_list j = elim (Bool-cases (j == i)) [
        | inl e ↦
            let same : j ≡ i = ==→eq j i e in
            rw
              (
                same_list,
                ap (λ k. find k (put i block x.cache.buffer)) same
                    ∙ find-put i block x.cache.buffer,
                full,
              )
              (sym at ∙ ap (raw (a' t)) (sym same))
        | inr e ↦
            let ne : j ≢ i = λ (s : j ≡ i). ground arith in
            rw (same_list, find-put_other i j block x.cache.buffer ne)
              (stored_at j ∙ sym (others j ne))
      ]
