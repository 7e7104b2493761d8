-- ===== src/Tests/Matching.antt =====
-- The matcher and the recognizer on concrete inputs.
use audioneex.Prelude.{
  ℕ, zero, suc, ◌+◌, ◌*◌, ◌≤◌, ◌<◌, ◌≡◌, ◌↔◌, ◌%◌, refl, List, [], ◌∷◌, false, none, some, All, ok,
  stuck, length, take, replicate, arith,
}
use audioneex.Store.{StoredList}
use audioneex.Results.{Accumulator, rank, top_of, get_top, get_top_score, max_top, no_results}
use audioneex.Results.TopList.{ranking_of, top_of-take}
use audioneex.Results.Best.{get_top-best, tied}
use audioneex.Indexer.Fingerprints.{Qlf}
use audioneex.Indexer.Terms.{MatchType}
use audioneex.Matcher.Bins.{empty_bin, make_room}
use audioneex.Matcher.Graphs.{FingerprintStore}
use audioneex.Matcher.{Lf, Quantizer, Matcher, process, flush, valid_query_sequence}
use audioneex.Matcher.Batches.{IsMatcher, Processed, process-Processed}
use audioneex.Matcher.Flushing.{Flushed, flush-Flushed}
use audioneex.Matcher.Sequence.{make_room_iff}
use audioneex.Store.Arrays.{array_store}
use audioneex.Tests.{nat_floats}

-- Three candidates, two of which share the best score.
abbrev candidates : List (ℕ × Accumulator)
candidates =
    (4, record { score = 3000; t_match = 7 })
    ∷ (9, record { score = 2500; t_match = 1 })
    ∷ (6, record { score = 3000; t_match = 2 })
    ∷ []

get_top-best_example :
    All
      (λ (x : ℕ × Accumulator).
        rank x.1.score
        ≤ rank (
            get_top_score 1
              (record { qc = candidates; top_k = top_of candidates []; reranked = false })))
      candidates
    × (get_top 1 (record { qc = candidates; top_k = top_of candidates []; reranked = false })
        ≡ tied
            (get_top_score 1
              (record { qc = candidates; top_k = top_of candidates []; reranked = false }))
            candidates)
get_top-best_example = get_top-best candidates false (omega arith, (omega arith, (omega arith, tt)))

best_two :
    get_top 1 (record { qc = candidates; top_k = top_of candidates []; reranked = false })
    ≡ 4 ∷ 6 ∷ []
unfolding get_top top_of rank
best_two = refl

top_of-take_example : top_of candidates [] ≡ take max_top (ranking_of candidates [])
top_of-take_example = top_of-take candidates

-- A histogram of one bin, for a recording that goes on into the second one.
make_room_iff_example : (1 < length (make_room 1 (empty_bin ∷ []))) ↔ (10 ≤ 1)
make_room_iff_example = make_room_iff 1 (empty_bin ∷ []) (omega arith)

abbrev pub one_word : Quantizer
one_word = record { Codes = ℕ; deserialize = some 0; quantize = λ codes lf. (lf.f % 7, 3) }

abbrev pub no_fingerprints : (ℕ → StoredList) → FingerprintStore
no_fingerprints d = record { get_fingerprint_size = λ fid. 0; get_fingerprint = λ fid n at. none }

abbrev pub TestMatcher : ℕ → Type 0
TestMatcher fuel = Matcher nat_floats array_store no_fingerprints one_word fuel

-- A matcher on an empty index.
abbrev pub fresh_matcher : (fuel : ℕ) → TestMatcher fuel
fresh_matcher fuel = record {
  audio_codes = some 0;
  results = no_results;
  xk = [];
  xk_seq = [];
  match_type = MatchType.mscale_match;
  rerank_threshold = 0;
  top_k_mc = [];
  histogram = record { ht = replicate 3 empty_bin; bmax = 0; qi = 0 };
  store = some (λ t. record { header = record { block_count = 0 }; blocks = [] });
  ko = 0;
  ko_t = 0;
  nsteps = 0;
}

-- `n` fingerprints with the identifiers from `k` on.
abbrev lfs_from : ℕ → ℕ → List Lf
lfs_from k zero = []
lfs_from k (suc n) = record { id = k; t = k * 3; f = 40; d = [] } ∷ lfs_from (k + 1) n

fresh-IsMatcher :
    (fuel : ℕ) → IsMatcher nat_floats array_store no_fingerprints one_word fuel (fresh_matcher fuel)
unfolding valid_query_sequence
fresh-IsMatcher fuel = record {
  valid = refl;
  seq_length = refl;
  ko_le = omega arith;
  few_left = omega arith;
}

abbrev pub qlfs_from : ℕ → ℕ → List Qlf
qlfs_from k zero = []
qlfs_from k (suc n) = record { t = k * 3; f = 40; w = 5; e = 3 } ∷ qlfs_from (k + 1) n

abbrev pub range : ℕ → ℕ → List ℕ
range k zero = []
range k (suc n) = k ∷ range (k + 1) n

-- Of 23 fingerprints, one batch is processed.
abbrev pub matcher_23 : TestMatcher 2
matcher_23 = record (fresh_matcher 2) {
  xk = qlfs_from 0 23;
  xk_seq = range 0 23;
  ko = 20;
  ko_t = 57;
  nsteps = 1;
}

run_23 :
    process nat_floats array_store no_fingerprints one_word 2 (lfs_from 0 23) (fresh_matcher 2)
    ≡ ok (matcher_23, 20)
unfolding process
run_23 = refl

process-Processed_example :
    Processed nat_floats array_store no_fingerprints one_word 2
      (fresh_matcher 2)
      (lfs_from 0 23)
      matcher_23
      20
process-Processed_example =
    process-Processed nat_floats array_store no_fingerprints one_word 2 (lfs_from 0 23)
      (fresh_matcher 2) (fresh-IsMatcher 2) run_23

-- The three that are left.
pub run_flush :
    flush nat_floats array_store no_fingerprints one_word 2 matcher_23
    ≡ ok (record matcher_23 { ko = 23; ko_t = 66; nsteps = 2 }, 3)
unfolding flush
run_flush = refl

flush-Flushed_example :
    Flushed nat_floats array_store no_fingerprints one_word 2 matcher_23
      (record matcher_23 { ko = 23; ko_t = 66; nsteps = 2 })
      3
flush-Flushed_example =
    flush-Flushed nat_floats array_store no_fingerprints one_word 2 matcher_23 run_flush

-- Without fuel for the search, the first batch is stuck.
run_stuck :
    process nat_floats array_store no_fingerprints one_word 0 (lfs_from 0 23) (fresh_matcher 0)
    ≡ stuck
unfolding process
run_stuck = refl
