-- ===== src/Tests/Lists.antt =====
-- The cache, the flush and the iterator on three postings.
use audioneex.Prelude.{
  ℕ, ◌≤◌, All, ◌≡◌, ◌==◌, if◌then◌else◌, refl, ◌∷◌, [], List, arith, map, drop, take, ok, err,
  invalid_index_data,
}
use audioneex.Postings.{Posting}
use audioneex.Cache.{IndexCache, Change, new_cache, update, update_plist, find}
use audioneex.Cache.Spec.{cached, add}
use audioneex.Cache.Update.{update_plist-cached}
use audioneex.Cache.View.{update-find}
use audioneex.Flush.{FlushState, emit, flush_list, do_flush}
use audioneex.Flush.Entries.{IsEntry, Entry, buffer_of, HasFresh, do_flush-HasFresh}
use audioneex.Store.{StoredList}
use audioneex.Flush.Round.{size_of}
use audioneex.Flush.Readback.{flush_list-visit}
use audioneex.Flush.Blocks.{list_of, last_header}
use audioneex.Flush.Emit.{Holds, Emitted}
use audioneex.Flush.Chunk.{emit-Emitted, emit-err}
use audioneex.Iterator.{get_plist_iterator}
use audioneex.Iterator.Step.{cursor_at}
use audioneex.Iterator.Traversal.{visit, visit-list_of}
use audioneex.Store.Arrays.{array_store, array_laws}
use audioneex.Tests.{posting_1, posting_2, posting_3, three, three-IsPosting, pointers}

update_plist-cached_example :
    (change : Change) × (update_plist 8 1 2 3 (cached three)
      ≡ ok (cached (add 8 (record { lid = 1; time = 2; error = 3 }) three), change))
update_plist-cached_example =
    update_plist-cached 8 (record { lid = 1; time = 2; error = 3 }) three
      (omega arith, (omega arith, (omega arith, tt))) (omega arith) (omega arith)

abbrev some_cache : IndexCache
some_cache = record new_cache { buffer = (17, cached three) ∷ [] }

update-find_example :
    (c : IndexCache) × (update 40 17 9 1 2 3 some_cache ≡ ok c)
    × (find 17 c.buffer ≡ cached (add 9 (record { lid = 1; time = 2; error = 3 }) three))
    × ((u : ℕ) → ¬ (u ≡ 17) → find u c.buffer ≡ find u some_cache.buffer)
update-find_example =
    update-find 40 17 9 (record { lid = 1; time = 2; error = 3 }) some_cache three
      (unfold find in refl) (omega arith, (omega arith, (omega arith, tt))) (omega arith)
      (omega arith)

-- A list of one block with one posting, and a chunk of the other two.
abbrev flushing : FlushState array_store
flushing = record {
  plchunk = drop 1 pointers;
  plchunk_size = 10;
  lhdr = record { block_count = 1 };
  hdr = last_header 0 ((posting_1 ∷ []) ∷ []);
  ser_chunk = [];
  store = λ t. list_of ((posting_1 ∷ []) ∷ []);
}

flushing-Holds : Holds array_store array_laws 17 flushing ((posting_1 ∷ []) ∷ [])
flushing-Holds = record {
  stored = refl;
  list_header = refl;
  block_header = refl;
  nonempty = (omega arith, tt);
}

emit-Emitted_example :
    (st' : FlushState array_store) × (pss' : List (List Posting)) × (emit array_store 17 flushing
      ≡ ok st')
    × Emitted array_store array_laws 17 flushing
        ((posting_1 ∷ []) ∷ [])
        (posting_2 ∷ posting_3 ∷ [])
        st'
        pss'
emit-Emitted_example =
    emit-Emitted array_store array_laws 17 flushing ((posting_1 ∷ []) ∷ [])
      (posting_2 ∷ posting_3 ∷ []) flushing-Holds (omega arith) ((_, refl), ((_, refl), tt))
      three-IsPosting.1 (omega arith) (omega arith) (omega arith)

-- The chunk of the first posting, for a list that has it already.
abbrev repeated : FlushState array_store
repeated = record flushing { plchunk = take 1 pointers }

repeated-Holds : Holds array_store array_laws 17 repeated ((posting_1 ∷ []) ∷ [])
repeated-Holds = record {
  stored = refl;
  list_header = refl;
  block_header = refl;
  nonempty = (omega arith, tt);
}

emit-err_example : emit array_store 17 repeated ≡ err invalid_index_data
emit-err_example =
    emit-err array_store array_laws 17 repeated ((posting_1 ∷ []) ∷ []) (posting_1 ∷ [])
      repeated-Holds (omega arith) ((_, refl), tt) (omega arith)

visit-list_of_example :
    visit array_store
      (λ t. list_of ((posting_1 ∷ posting_2 ∷ []) ∷ (posting_3 ∷ []) ∷ []))
      5
      (get_plist_iterator 17)
    ≡ ok (map cursor_at three)
visit-list_of_example =
    visit-list_of array_store array_laws
      (λ t. list_of ((posting_1 ∷ posting_2 ∷ []) ∷ (posting_3 ∷ []) ∷ [])) 5 17
      ((posting_1 ∷ posting_2 ∷ []) ∷ (posting_3 ∷ []) ∷ []) refl (omega arith, (omega arith, tt))
      ((three-IsPosting.0, (three-IsPosting.1.0, tt)), (three-IsPosting.1.1, tt)) (omega arith)
      (omega arith)

-- Nothing is pending when a list is flushed.
abbrev before_list : FlushState array_store
before_list = record flushing { plchunk = []; plchunk_size = 0 }

two-fit : All (λ p. size_of p ≤ 31000) (posting_2 ∷ posting_3 ∷ [])
two-fit = (omega arith, (omega arith, tt))

flush_list-visit_example :
    (st' : FlushState array_store) × (flush_list array_store 17
        (cached (posting_2 ∷ posting_3 ∷ []))
        before_list
      ≡ ok st')
    × (visit array_store st'.store 5 (get_plist_iterator 17) ≡ ok (map cursor_at three))
flush_list-visit_example =
    flush_list-visit array_store array_laws 17 5 before_list ((posting_1 ∷ []) ∷ []) posting_2
      (posting_3 ∷ []) refl (omega arith, tt) refl refl (omega arith, (omega arith, tt))
      (three-IsPosting.0, tt) three-IsPosting.1 two-fit (omega arith) (omega arith) (omega arith)

-- A cache of two lists, the first of which has a posting in the store.
abbrev pub two_entries : List Entry
two_entries =
    record { term = 17; stored = (posting_1 ∷ []) ∷ []; fresh = posting_2 ∷ posting_3 ∷ [] }
    ∷ record { term = 4; stored = []; fresh = posting_1 ∷ [] }
    ∷ []

abbrev pub two_lists : ℕ → StoredList
two_lists t = list_of (if t == 17 then (posting_1 ∷ []) ∷ [] else [])

pub two-IsEntry : All IsEntry two_entries
two-IsEntry = (
  record {
    nonempty = (omega arith, tt);
    some_posting = omega arith;
    grows = (omega arith, (omega arith, tt));
    fit = three-IsPosting.1;
    short = two-fit;
    words = omega arith;
    few = omega arith;
  },
  (
    record {
      nonempty = tt;
      some_posting = omega arith;
      grows = (omega arith, tt);
      fit = (three-IsPosting.0, tt);
      short = (omega arith, tt);
      words = omega arith;
      few = omega arith;
    },
    tt,
  ),
)

do_flush-HasFresh_example :
    (d' : ℕ → StoredList) × (do_flush array_store (buffer_of two_entries) two_lists ≡ ok d')
    × All (HasFresh array_store array_laws d') two_entries
    × ((u : ℕ) → All (λ y. ¬ (u ≡ y.term)) two_entries → d' u ≡ two_lists u)
do_flush-HasFresh_example =
    do_flush-HasFresh array_store array_laws two_entries two_lists ((omega arith, tt), (tt, tt))
      two-IsEntry (refl, (refl, tt))
