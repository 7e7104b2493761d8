-- ===== src/Matcher.antt =====
-- Matcher (src/ident/Matcher.h, src/ident/Matcher.cpp): the query sequence and its matching in batches.
-- An exception ends the run of the model: the state that it leaves behind is not modelled.
pub mod Bins
pub mod Candidates
pub mod Graphs
pub mod Rerank
pub mod Batches
pub mod Flushing
pub mod Sequence
pub mod Ending
use audioneex.Prelude.{
  ℕ, zero, suc, ◌+◌, ◌-◌, ◌%◌, ◌^◌, List, [], ◌∷◌, ◌++◌, map, Bool, true, false, ◌==◌, ◌&&◌, not,
  ltb, leb, if◌then◌else◌, Option, none, some, Outcome, ok, err, fault, stuck, ◌>>=◌, length,
  get_elem?, add32, invalid_parameter, invalid_match_sequence, invalid_audio_codes,
}
use audioneex.AudioBlock.{FloatOps}
use audioneex.Store.{DataStore}
use audioneex.Indexer.Fingerprints.{Qlf}
use audioneex.Indexer.Terms.{MatchType}
use audioneex.Results.{Ranking, Accumulator, MatchResults, no_results, update_candidate, top_of}
use audioneex.Matcher.Bins.{Histogram, top_score, resize}
use audioneex.Matcher.Candidates.{find_candidates_s_words, find_candidates_b_words}
use audioneex.Matcher.Graphs.{FingerprintStore}
use audioneex.Matcher.Rerank.{bin_time, reranking}

-- LocalFingerprint_t, with the bytes of its descriptor.
pub record Lf : Type 0 where
  pub id : ℕ
  pub t : ℕ
  pub f : ℕ
  pub d : List ℕ

-- The codebook: the word of a fingerprint and the distance from it.
pub record Quantizer : Type 1 where
  pub Codes : Type 0
  pub deserialize : Option Codes
  pub quantize : Codes → Lf → ℕ × ℕ

-- Pms::Nk
abbrev pub nk : ℕ
nk = 20

-- The loop of ValidQuerySequence from the k-th element on.
unfoldable pub valid_from : ℕ → List ℕ → Bool
valid_from k [] = true
valid_from k (x ∷ xs) = x == k && valid_from (k + 1) xs

unfoldable pub valid_query_sequence : List ℕ → Bool
unfolding valid_from
valid_query_sequence seq = valid_from 0 seq

-- The branch of DoMatch without reranking.
unfoldable pub accumulate_ties :
    List Histogram → List (ℕ × Accumulator) → Outcome (List (ℕ × Accumulator))
unfolding top_score update_candidate bin_time
accumulate_ties [] qc = ok qc
accumulate_ties (h ∷ hs) qc = do
  score ← top_score h
  accumulate_ties hs (
      update_candidate (λ a. record { score = add32 a.score score; t_match = bin_time h.bmax }) h.qi
        qc)

unfoldable pub accumulate :
    Ranking Histogram → List (ℕ × Accumulator) → Outcome (List (ℕ × Accumulator))
unfolding accumulate_ties
accumulate [] qc = ok qc
accumulate ((score, hs) ∷ top) qc = accumulate_ties hs qc >>= accumulate top

abbrev second_score : Ranking Histogram → ℕ
second_score [] = 0
second_score ((score, hs) ∷ top) = score

-- The check for a data store, and `m_AudioCodes->`.
unfoldable pub with_store : {S A : Type 0} → Option S → (S → Outcome A) → Outcome A
with_store none f = err invalid_parameter
with_store (some d) f = f d

unfoldable pub with_codes : {C A : Type 0} → Option C → (C → Outcome A) → Outcome A
with_codes none f = fault
with_codes (some codes) f = f codes

-- `Xk[i].T`
unfoldable pub time_at : ℕ → List Qlf → Outcome ℕ
time_at i xk = elim (get_elem? xk i) [ none ↦ fault | some q ↦ ok q.t ]

-- `search_fuel` bounds the fingerprints that a search looks at.
module _ {F : Type 0} (o : FloatOps F) (s : DataStore) (fps : s.State → FingerprintStore)
    (x : Quantizer) (search_fuel : ℕ) where
  -- The members. Counts and positions are natural numbers; the ints of the source would hold those of a
  -- query of a year.
  pub record Matcher : Type 0 where
    pub audio_codes : Option x.Codes
    pub results : MatchResults
    pub xk : List Qlf
    pub xk_seq : List ℕ
    pub match_type : MatchType
    pub rerank_threshold : F
    pub top_k_mc : Ranking Histogram
    pub histogram : Histogram
    pub store : Option s.State
    pub ko : ℕ
    pub ko_t : ℕ
    pub nsteps : ℕ

  -- SetDataStore, and Reset.
  unfoldable pub set_data_store : Option s.State → Matcher → Outcome Matcher
  set_data_store none st = err invalid_parameter
  set_data_store (some d) st =
      let with_codes : Outcome Matcher = elim x.deserialize [
        | none ↦ err invalid_audio_codes
        | some codes ↦ ok (record st { store = some d; audio_codes = some codes })
      ] in
      elim st.audio_codes [ none ↦ with_codes | some _ ↦ ok (record st { store = some d }) ]

  unfoldable pub reset : Matcher → Matcher
  reset st = record st {
    xk = [];
    xk_seq = [];
    top_k_mc = [];
    results = no_results;
    ko = 0;
    ko_t = 0;
    nsteps = 0;
  }

  -- conf <= m_RerankThreshold, for the two best scores.
  unfoldable pub below_threshold : ℕ → ℕ → F → Bool
  below_threshold top1 top2 threshold =
      let t1 = o.of_bits top1 in
      let conf = o.sub (o.div (o.mul (o.of_size 2) t1) (o.add t1 (o.of_bits top2))) (o.of_size 1) in
      o.at_most conf threshold

  unfoldable pub find_candidates :
      s.State → ℕ → ℕ → Matcher → Outcome (Histogram × Ranking Histogram)
  unfolding find_candidates_s_words find_candidates_b_words
  find_candidates d ko kn st = elim st.match_type [
    | MatchType.mscale_match ↦
        find_candidates_s_words o s d search_fuel st.xk ko kn st.histogram st.top_k_mc
    | MatchType.xscale_match ↦
        find_candidates_b_words o s d search_fuel st.xk ko kn st.histogram st.top_k_mc
    | MatchType.other_match ↦ err invalid_parameter
  ]

  -- The results after a batch whose best histograms are `top`.
  unfoldable pub rank_candidates :
      s.State → Histogram → Ranking Histogram → Matcher → Outcome MatchResults
  unfolding below_threshold reranking accumulate top_of
  rank_candidates d h [] st = ok st.results
  rank_candidates d h ((score, hs) ∷ top) st =
      let rerank = below_threshold score (second_score top) st.rerank_threshold in
      let qc' : Outcome (List (ℕ × Accumulator)) =
        if rerank
        then reranking o (fps d) st.xk (length h.ht) ((score, hs) ∷ top) st.results.qc
        else accumulate ((score, hs) ∷ top) st.results.qc in
      qc' >>= λ qc. ok (record { qc = qc; top_k = top_of qc []; reranked = rerank })

  unfoldable pub do_match : s.State → ℕ → ℕ → Matcher → Outcome Matcher
  unfolding find_candidates rank_candidates
  do_match d ko kn st = do
    (h, top) ← find_candidates d ko kn st
    results ← rank_candidates d h top st
    ok (record st { histogram = h; top_k_mc = []; results = results })

  -- The loop of Process over the batches, with the number of fingerprints that it has processed.
  unfoldable pub batches : s.State → ℕ → ℕ → Matcher → Outcome (Matcher × ℕ)
  unfolding do_match time_at
  batches d zero processed st = stuck
  batches d (suc fuel) processed st =
      let batch : Outcome (Matcher × ℕ) = time_at (st.ko + nk - 1) st.xk >>= λ xk_t.
      do_match d st.ko (st.ko + nk) st >>= λ st'.
      batches d fuel (processed + nk)
        (record st' { ko = st'.ko + nk; ko_t = xk_t; nsteps = st'.nsteps + 1 }) in
      if leb nk (length st.xk - st.ko) then batch else ok (st, processed)

  -- A word and an error are bytes of a fingerprint.
  unfoldable pub quantized : x.Codes → Lf → Qlf
  quantized codes lf =
      let (word, dist) = x.quantize codes lf in
      record { t = lf.t; f = lf.f; w = word % 256; e = dist % 256 }

  unfoldable pub append_lfs : x.Codes → List Lf → Matcher → Matcher
  unfolding quantized
  append_lfs codes lfs st = record st {
    xk = st.xk ++ map (quantized codes) lfs;
    xk_seq = st.xk_seq ++ map (λ (lf : Lf). lf.id) lfs;
  }

  -- `Process`, with its result. There is a batch at most for each fingerprint.
  unfoldable pub process : List Lf → Matcher → Outcome (Matcher × ℕ)
  unfolding append_lfs valid_query_sequence batches with_store with_codes
  process lfs st = with_store st.store λ d.
      let matched : Outcome (Matcher × ℕ) = with_codes st.audio_codes λ codes.
        let st' = append_lfs codes lfs st in
        if valid_query_sequence st'.xk_seq
        then batches d (suc (length st'.xk)) 0 st'
        else err invalid_match_sequence in
      if length lfs == 0 then ok (st, 0) else matched

  unfoldable pub flush : Matcher → Outcome (Matcher × ℕ)
  unfolding valid_query_sequence do_match time_at with_store
  flush st = with_store st.store λ d.
      let nlf = length st.xk - st.ko in
      let flushed : Outcome (Matcher × ℕ) = time_at (st.ko + nlf - 1) st.xk >>= λ xk_t.
      do_match d st.ko (st.ko + nlf) st >>= λ st'.
      ok (record st' { ko = st'.ko + nlf; ko_t = xk_t; nsteps = st'.nsteps + 1 }, nlf) in
      if not (valid_query_sequence st.xk_seq)
      then ok (st, 0)
      else if ltb nlf 2
      then ok (st, 0)
      else flushed
