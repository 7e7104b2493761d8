-- ===== src/Driver/Index.antt =====
-- The database that TCIndex (src/dbdrivers/TCDataStore.cpp) has between two flushes.
use audioneex.Prelude.{
  ℕ, suc, ◌+◌, ◌<◌, ◌^◌, ◌≡◌, refl, sym, ap, ◌∙◌, List, [], ◌∷◌, ◌==◌, some, Outcome, ok, ◌>>=◌,
  arith, length, IsU32,
}
use mathlib.Core.Path.{subst}
use audioneex.Postings.{Posting}
use audioneex.Cache.{Buffer, find}
use audioneex.Cache.Spec.{cached}
use audioneex.Store.{PListBlockHeader, StoredList, header_at}
use audioneex.Flush.Blocks.{blocks_of, list_of, last_header, last_header-blocks, last_header-id}
use audioneex.Flush.Entries.{Entry}
use audioneex.Driver.{HashDb, TcIndex, key, clear_cache, write_blocks, flush_block_cache}
use audioneex.Driver.Writes.{HashDbLaws, nothing, block_or, write_blocks-get}
use audioneex.Driver.View.{View, raw}
use audioneex.Driver.Headers.{IsReadable}

-- The index has the lists in its database.
pub record IsIndex (h : HashDb) (x : TcIndex h) (a : ℕ → StoredList) : Type 0 where
  pub db : h.Db
  pub has_db : x.handle ≡ some db
  pub bytes : (t i : ℕ) → h.get (key t i) db ≡ raw (a t) i

-- The headers of the stored blocks are words, and there are numbers for the blocks to come.
pub record FitsDriver (x : Entry) : Type 0 where
  pub size_fits : IsU32 (last_header 0 x.stored).body_size
  pub fid_fits : IsU32 (last_header 0 x.stored).fid_max
  pub room : length x.stored + length (cached x.fresh) < 2 ^ 32

pub length-blocks_of : (n : ℕ) (pss : List (List Posting)) → length (blocks_of n pss) ≡ length pss
length-blocks_of n [] = refl
length-blocks_of n (ps ∷ pss) = ap suc (length-blocks_of (suc n) pss)

pub list_of-IsReadable : (x : Entry) → FitsDriver x → IsReadable (list_of x.stored)
list_of-IsReadable x f = record {
  count = sym (length-blocks_of 0 x.stored);
  count_fits = omega (arith, f.room, length-blocks_of 0 x.stored);
  last = λ b at.
      let same : b.header ≡ last_header 0 x.stored =
        sym (rw (header_at, at) refl)
        ∙ ap (header_at (blocks_of 0 x.stored)) (length-blocks_of 0 x.stored)
        ∙ last_header-blocks 0 x.stored in
      (
        ap (λ (p : PListBlockHeader). p.id) same
            ∙ last_header-id x.stored
            ∙ sym (length-blocks_of 0 x.stored),
        subst (λ (p : PListBlockHeader). IsU32 p.body_size) (sym same) f.size_fits,
        subst (λ (p : PListBlockHeader). IsU32 p.fid_max) (sym same) f.fid_fits,
      );
}

module _ (h : HashDb) (laws : HashDbLaws h) where
  -- The caches before and after a flush.
  pub clear_cache-View :
      (x : TcIndex h) (a : ℕ → StoredList) → IsIndex h x a → View h (clear_cache h x) a
  unfolding clear_cache find
  clear_cache-View x a ix = record {
    db = ix.db;
    has_db = ix.has_db;
    are_blocks = tt;
    bytes = λ t i. sym (nothing (t == 0) (h.get (key t i) ix.db)) ∙ ix.bytes t i;
  }

  pub flush_block_cache-IsIndex :
      (x : TcIndex h) (a : ℕ → StoredList) (b : Buffer)
      → x.cache.buffer ≡ b
      → View h x a
      → (x' : TcIndex h) × (flush_block_cache h x ≡ ok x') × IsIndex h x' a
  unfolding flush_block_cache find clear_cache
  flush_block_cache-IsIndex x a [] e v = (
    x,
    rw e refl,
    record {
      db = v.db;
      has_db = v.has_db;
      bytes = λ t i.
          nothing (t == x.cache.list_id) (h.get (key t i) v.db)
          ∙ ap (λ c. block_or (t == x.cache.list_id) (find i c) (h.get (key t i) v.db)) (sym e)
          ∙ v.bytes t i;
    },
  )
  flush_block_cache-IsIndex x a (b ∷ bs) e v =
      let (db, run, at) =
        write_blocks-get h laws x.cache.list_id x.cache.buffer x v.db v.has_db v.are_blocks in
      (
        clear_cache h (record x { handle = some db }),
        ap
              (λ (c : Buffer). elim c as (λ _. Outcome (TcIndex h)) [
                | [] ↦ ok x
                | b ∷ bs ↦
                    write_blocks h x.cache.list_id x.cache.buffer x >>= λ x'. ok (clear_cache h x')
              ])
              e
            ∙ ap (λ m. m >>= λ x'. ok (clear_cache h x')) run,
        record { db = db; has_db = refl; bytes = λ t i. at t i ∙ v.bytes t i },
      )
