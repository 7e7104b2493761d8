-- ===== src/Driver/Lists.antt =====
-- DoFlush (src/index/Indexer.cpp) over the driver: a list.
use audioneex.Prelude.{
  ℕ, zero, suc, ◌+◌, ◌*◌, ◌≤◌, ◌≡◌, refl, sym, ap, List, [], ◌∷◌, ◌++◌, Bool, true, false, ◌||◌,
  ◌==◌, ltb, leb, if◌then◌else◌, Option, Outcome, ok, ◌>>=◌, inl, inr, arith, Bool-cases, drop,
  add32, mul32, IfOk, IfOk-ok, >>=-IfOk,
}
use mathlib.Core.Path.{subst}
use audioneex.Memory.{load}
use audioneex.Store.{DataStore, StoredList}
use audioneex.Store.Arrays.{array_store}
use audioneex.Flush.{FlushState, emit, flush_loop, chunk_threshold}
use audioneex.Driver.{HashDb, BlockCache}
use audioneex.Driver.Writes.{HashDbLaws}
use audioneex.Driver.Emits.{with_store, Follows}
use audioneex.Driver.Emission.{Goes, emit-Follows}
use audioneex.Driver.DataStore.{TcDataStore, tc_data_store}

-- The rounds of the loop, over any data store.
module _ (s : DataStore) (fuel term : ℕ) (plist : List ℕ) (pos plast : ℕ) (st : FlushState s) where
  -- A posting more in the chunk.
  abbrev grown : ℕ → FlushState s
  grown size = record st { plchunk = st.plchunk ++ (drop pos plist ∷ []); plchunk_size = size }

  abbrev size_with : ℕ → ℕ
  size_with tf = st.plchunk_size + add32 2 (mul32 tf 3)

  abbrev emits : ℕ → Bool
  emits tf = leb chunk_threshold (size_with tf * 4) || pos == plast

  abbrev next_posting : ℕ → FlushState s → Outcome (FlushState s)
  next_posting tf st' = flush_loop s fuel term plist (pos + add32 2 (mul32 tf 3)) plast st'

  abbrev round : ℕ → Outcome (FlushState s)
  round tf =
      (if emits tf then emit s term (grown (size_with tf)) else ok (grown (size_with tf)))
      >>= next_posting tf

  flush_loop-done : ltb plast pos ≡ true → flush_loop s (suc fuel) term plist pos plast st ≡ ok st
  unfolding flush_loop
  flush_loop-done e = rw e refl

  flush_loop-more :
      ltb plast pos ≡ false
      → flush_loop s (suc fuel) term plist pos plast st ≡ (load plist (pos + 1) >>= round)
  unfolding flush_loop
  flush_loop-more e = rw e refl

module _ (h : HashDb) (laws : HashDbLaws h) (grow : ℕ → ℕ → ℕ) (file : Option h.Db) (term : ℕ)
    (cache : BlockCache) (lists : ℕ → StoredList) where
  less_room :
      (n m : ℕ) (st : FlushState array_store) (d : TcDataStore h)
      → m ≤ n
      → Follows h grow file term n cache lists st d
      → Follows h grow file term m cache lists st d
  less_room n m st d le f = record {
    builds = f.builds;
    view = f.view;
    list_header = f.list_header;
    count = f.count;
    last = f.last;
    room = omega (arith, f.room);
    cached = f.cached;
    untouched = f.untouched;
  }

  abbrev pub Runs :
      ℕ
      → Outcome (FlushState (tc_data_store h grow file))
      → Outcome (FlushState array_store)
      → Type 0
  Runs n run = IfOk (Goes h laws grow file term cache lists n run)

  -- The same run, of code that is equal.
  pub same_run :
      (n : ℕ) {run run' : Outcome (FlushState (tc_data_store h grow file))}
      {m m' : Outcome (FlushState array_store)}
      → run ≡ run'
      → m ≡ m'
      → Runs n run' m'
      → Runs n run m
  same_run n {run} {run'} {m} {m'} e e' r =
      subst (λ run. Runs n run m) (sym e) (subst (Runs n run') (sym e') r)

  grown-Follows :
      (n size pos : ℕ) (plist : List ℕ) (st : FlushState array_store) (d : TcDataStore h)
      → Follows h grow file term n cache lists st d
      → Follows h grow file term n cache lists
          (record st { plchunk = st.plchunk ++ (drop pos plist ∷ []); plchunk_size = size })
          d
  grown-Follows n size pos plist st d f = record {
    builds = f.builds;
    view = f.view;
    list_header = f.list_header;
    count = f.count;
    last = f.last;
    room = f.room;
    cached = f.cached;
    untouched = f.untouched;
  }

  -- A round, from what is known of the rest.
  round-Follows :
      (fuel tf : ℕ) (plist : List ℕ) (pos plast : ℕ) (st : FlushState array_store)
      (d : TcDataStore h)
      → Follows h grow file term (suc fuel) cache lists st d
      → ((st1 : FlushState array_store) (d1 : TcDataStore h)
          → Follows h grow file term fuel cache lists st1 d1
          → Runs 0
              (next_posting
                (tc_data_store h grow file)
                fuel
                term
                plist
                pos
                plast
                (with_store h grow file st d)
                tf
                (with_store h grow file st1 d1))
              (next_posting array_store fuel term plist pos plast st tf st1))
      → Runs 0
          (round
            (tc_data_store h grow file)
            fuel
            term
            plist
            pos
            plast
            (with_store h grow file st d)
            tf)
          (round array_store fuel term plist pos plast st tf)
  round-Follows fuel tf plist pos plast st d f rest =
      let tc = tc_data_store h grow file in
      let std = with_store h grow file st d in
      let size = size_with array_store fuel term plist pos plast st tf in
      let st1 = grown array_store fuel term plist pos plast st size in
      elim (Bool-cases (emits array_store fuel term plist pos plast st tf)) [
        | inl e ↦
            same_run 0
              (ap
                (λ b.
                  (if b
                    then emit tc term (with_store h grow file st1 d)
                    else ok (with_store h grow file st1 d))
                  >>= next_posting tc fuel term plist pos plast std tf)
                e)
              (ap
                (λ b.
                  (if b then emit array_store term st1 else ok st1)
                  >>= next_posting array_store fuel term plist pos plast st tf)
                e)
              (>>=-IfOk _ (emit array_store term st1)
                (next_posting array_store fuel term plist pos plast st tf)
                λ st2 ran.
                  let (d2, run2, f2) =
                    IfOk-ok
                      (Goes h laws grow file term cache lists fuel
                        (emit tc term (with_store h grow file st1 d)))
                      (emit array_store term st1) ran
                      (emit-Follows h laws grow file term cache lists fuel st1 d
                        (grown-Follows (suc fuel) size pos plist st d f)) in
                  same_run 0 (ap (λ m. m >>= next_posting tc fuel term plist pos plast std tf) run2)
                    refl (rest st2 d2 f2))
        | inr e ↦
            same_run 0
              (ap
                (λ b.
                  (if b
                    then emit tc term (with_store h grow file st1 d)
                    else ok (with_store h grow file st1 d))
                  >>= next_posting tc fuel term plist pos plast std tf)
                e)
              (ap
                (λ b.
                  (if b then emit array_store term st1 else ok st1)
                  >>= next_posting array_store fuel term plist pos plast st tf)
                e)
              (rest st1 d (
                less_room (suc fuel) fuel st1 d (omega arith)
                  (grown-Follows (suc fuel) size pos plist st d f)))
      ]

  pub flush_loop-Follows :
      (fuel : ℕ) (plist : List ℕ) (pos plast : ℕ) (st : FlushState array_store) (d : TcDataStore h)
      → Follows h grow file term fuel cache lists st d
      → Runs 0
          (flush_loop
            (tc_data_store h grow file)
            fuel
            term
            plist
            pos
            plast
            (with_store h grow file st d))
          (flush_loop array_store fuel term plist pos plast st)
  flush_loop-Follows zero plist pos plast st d f = unfold flush_loop in tt
  flush_loop-Follows (suc fuel) plist pos plast st d f =
      let tc = tc_data_store h grow file in
      let std = with_store h grow file st d in
      elim (Bool-cases (ltb plast pos)) [
        | inl done ↦
            same_run 0 (flush_loop-done tc fuel term plist pos plast std done)
              (flush_loop-done array_store fuel term plist pos plast st done)
              (d, refl, less_room (suc fuel) 0 st d (omega arith) f)
        | inr more ↦
            same_run 0 (flush_loop-more tc fuel term plist pos plast std more)
              (flush_loop-more array_store fuel term plist pos plast st more)
              (>>=-IfOk _ (load plist (pos + 1)) (round array_store fuel term plist pos plast st)
                λ tf e. same_run 0 (ap (λ m. m >>= round tc fuel term plist pos plast std) e) refl (
                  round-Follows fuel tf plist pos plast st d f
                    (flush_loop-Follows fuel plist (pos + add32 2 (mul32 tf 3)) plast)))
      ]
