-- ===== src/Matcher/Rerank.antt =====
-- Reranking (src/ident/Matcher.cpp): the bins of each candidate that have the largest score around them
-- are matched again, by their graphs.
use audioneex.Prelude.{
  ℕ, zero, suc, ◌+◌, ◌-◌, ◌*◌, ◌/◌, List, [], ◌∷◌, Bool, true, ◌==◌, ◌&&◌, not, ltb, if◌then◌else◌,
  Outcome, ok, fault, ◌>>=◌, take, drop, replicate, min, add32,
}
use audioneex.AudioBlock.{FloatOps}
use audioneex.Indexer.Fingerprints.{Qlf}
use audioneex.Results.{Ranking, rank, Accumulator, update_candidate}
use audioneex.Matcher.Bins.{HistoBin, Histogram, empty_bin, reset, bin_at, top_score, tk}
use audioneex.Matcher.Graphs.{FingerprintStore, graph_matching}

-- The time of a bin's centre in seconds: (Tk * bin + Tk / 2) * dt, rounded to an int.
unfoldable pub bin_time : ℕ → ℕ
bin_time bin = (tk * bin + 182) * 138776 / 10000000

-- The number of bins up to the last one with a score.
unfoldable pub used_bins : List HistoBin → ℕ
used_bins [] = 0
used_bins (b ∷ bs) =
    let n = used_bins bs in if ltb 0 n then suc n else if b.score == 0 then 0 else 1

-- No bin has a score above `score`.
unfoldable pub none_above : ℕ → List HistoBin → Bool
unfolding rank
none_above score [] = true
none_above score (b ∷ bs) = not (ltb (rank score) (rank b.score)) && none_above score bs

-- Whether the bin at `i` has the largest score among the three before and after it; `n` bins are used.
unfoldable pub is_max : ℕ → ℕ → List HistoBin → HistoBin → Bool
unfolding none_above
is_max n i ht b = none_above b.score (take (min (i + 4) n - (i - 3)) (drop (i - 3) ht))

-- The variables of the loop over the bins.
pub record Peaks : Type 0 where
  pub qc : List (ℕ × Accumulator)
  pub hr : Histogram
  pub top_bin : ℕ
  pub top_bin_score : ℕ

module _ {F : Type 0} (o : FloatOps F) (fps : FingerprintStore) (xk : List Qlf) (size : ℕ) where
  unfoldable pub match_peak : Histogram → HistoBin → Peaks → Outcome Peaks
  unfolding graph_matching top_score update_candidate reset rank
  match_peak h b p = do
    hr ← graph_matching o fps xk size h.qi b.info p.hr
    score ← top_score hr
    let better = ltb (rank p.top_bin_score) (rank score)
    ok (record {
      qc =
          if ltb (rank 0) (rank score)
          then update_candidate (λ a. record a { score = add32 a.score score }) h.qi p.qc
          else p.qc;
      hr = reset hr;
      top_bin = if better then hr.bmax else p.top_bin;
      top_bin_score = if better then score else p.top_bin_score;
    })

  -- The loop over the bins from `i` on, `left` of which are used. 3000 is MIN_ACCEPT_SCORE * 1.5.
  unfoldable pub scan_bins : Histogram → ℕ → ℕ → ℕ → Peaks → Outcome Peaks
  unfolding is_max match_peak rank bin_at
  scan_bins h n i zero p = ok p
  scan_bins h n i (suc left) p = do
    b ← bin_at i h.ht
    p' ← if is_max n i h.ht b && ltb (rank 3000) (rank b.score) then match_peak h b p else ok p
    scan_bins h n (i + 1) left p'

  -- A histogram without a score makes the loop run past the end.
  unfoldable pub rerank_one :
      Histogram → List (ℕ × Accumulator) × Histogram → Outcome (List (ℕ × Accumulator) × Histogram)
  unfolding used_bins scan_bins bin_time update_candidate rank
  rerank_one h (qc, hr) =
      let n = used_bins h.ht in
      let scanned : Outcome (List (ℕ × Accumulator) × Histogram) = do
        p ← scan_bins h n 0 n (record { qc = qc; hr = hr; top_bin = 0; top_bin_score = 0 })
        ok (
          if ltb (rank 0) (rank p.top_bin_score)
              then update_candidate (λ a. record a { t_match = bin_time p.top_bin }) h.qi p.qc
              else p.qc,
          p.hr,
        )
      in if n == 0 then fault else scanned

  unfoldable pub rerank_ties :
      List Histogram
      → List (ℕ × Accumulator) × Histogram
      → Outcome (List (ℕ × Accumulator) × Histogram)
  unfolding rerank_one
  rerank_ties [] st = ok st
  rerank_ties (h ∷ hs) st = rerank_one h st >>= rerank_ties hs

  unfoldable pub rerank_all :
      Ranking Histogram
      → List (ℕ × Accumulator) × Histogram
      → Outcome (List (ℕ × Accumulator) × Histogram)
  unfolding rerank_ties
  rerank_all [] st = ok st
  rerank_all ((score, hs) ∷ top) st = rerank_ties hs st >>= rerank_all top

  unfoldable pub reranking :
      Ranking Histogram → List (ℕ × Accumulator) → Outcome (List (ℕ × Accumulator))
  unfolding rerank_all
  reranking top qc =
      rerank_all top (qc, record { ht = replicate size empty_bin; bmax = 0; qi = 0 }) >>= λ st.
      ok st.0
