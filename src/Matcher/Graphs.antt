-- ===== src/Matcher/Graphs.antt =====
-- BuildGraphs and GraphMatching (src/ident/Matcher.cpp): the edges that the neighbourhoods of a query LF
-- and of a candidate LF have in common.
use audioneex.Prelude.{
  ℕ, ◌+◌, ◌-◌, ◌*◌, ◌/◌, ◌%◌, ◌^◌, List, [], ◌∷◌, ◌==◌, ◌||◌, not, ltb, leb, if◌then◌else◌, Option,
  none, some, Outcome, ok, err, fault, ◌>>=◌, length, get_elem?, take, drop, min, add32, sub32,
  low_bits, invalid_fingerprint, invalid_index_data,
}
use audioneex.AudioBlock.{FloatOps}
use audioneex.Indexer.Fingerprints.{Qlf, qlfs_of}
use audioneex.Results.{rank}
use audioneex.Matcher.Bins.{Info, HistoBin, Histogram, bin_at, write_bin, resize, tk, abs32}

-- GetFingerprintSize and GetFingerprint, for a number of bytes from an offset; `none` is a null pointer.
pub record FingerprintStore : Type 0 where
  pub get_fingerprint_size : ℕ → ℕ
  pub get_fingerprint : ℕ → ℕ → ℕ → Option (List ℕ)

-- hashtable_qlf_pair: the endpoints of an edge by its hash.
abbrev pub Edges : Type 0
Edges = List (ℕ × Qlf × Qlf)

unfoldable pub set_edge : ℕ → Qlf → Qlf → Edges → Edges
set_edge e x y [] = (e, x, y) ∷ []
set_edge e x y ((k, p, q) ∷ edges) =
    if k == e then (k, x, y) ∷ edges else (k, p, q) ∷ set_edge e x y edges

unfoldable pub find_edge : ℕ → Edges → Option (Qlf × Qlf)
find_edge e [] = none
find_edge e ((k, p, q) ∷ edges) = if k == e then some (p, q) else find_edge e edges

-- `lfs[i]`
unfoldable pub lf_at : ℕ → List Qlf → Outcome Qlf
lf_at i lfs = elim (get_elem? lfs i) [ none ↦ fault | some x ↦ ok x ]

-- `Ht[bin].score += n`, and the update of Bmax.
unfoldable pub add_score : ℕ → ℕ → List HistoBin → Outcome (List HistoBin)
unfolding bin_at write_bin
add_score bin n ht = do b ← bin_at bin ht; write_bin bin (record b { score = add32 b.score n }) ht

unfoldable pub update_max : ℕ → Histogram → Outcome Histogram
unfolding bin_at rank
update_max bin h = do
  b ← bin_at bin h.ht
  top ← bin_at h.bmax h.ht
  ok (record h { bmax = if ltb (rank top.score) (rank b.score) then bin else h.bmax })

module _ {F : Type 0} (o : FloatOps F) where
  -- int(x / step + 0.5f)
  unfoldable pub rounded : ℕ → ℕ → ℕ
  rounded step x =
      o.to_bits (o.add (o.div (o.of_size x) (o.of_size step)) (o.div (o.of_size 1) (o.of_size 2)))

  -- The bytes of the hash do not overlap.
  unfoldable pub edge_of : Qlf → Qlf → Qlf → ℕ
  unfolding rounded
  edge_of ref x y =
      low_bits (sub32 (rounded 5 y.t) (rounded 5 x.t)) 8 * 2 ^ 24
      + low_bits (sub32 (rounded 9 y.f) (rounded 9 x.f)) 8 * 2 ^ 16
      + low_bits (sub32 (rounded 5 ref.t) (rounded 5 x.t)) 8 * 2 ^ 8
      + low_bits (sub32 (rounded 9 ref.f) (rounded 9 x.f)) 8

  -- The edges from x to the LFs behind it, and then all edges.
  unfoldable pub edges_from : Qlf → Qlf → List Qlf → Edges → Edges
  unfolding edge_of set_edge
  edges_from ref x [] edges = edges
  edges_from ref x (y ∷ ys) edges = edges_from ref x ys (set_edge (edge_of ref x y) x y edges)

  unfoldable pub build_graphs : Qlf → List Qlf → Edges → Edges
  unfolding edges_from
  build_graphs ref [] edges = edges
  build_graphs ref (x ∷ xs) edges = build_graphs ref xs (edges_from ref x xs edges)

  -- score + sim * (1 - |e - e'| / IDI), where sim is 1000 if the words are the same.
  unfoldable pub add_similarity : Qlf → Qlf → ℕ → ℕ
  add_similarity p x score =
      let weight =
        o.sub (o.of_size 1) (o.div (o.of_bits (abs32 (sub32 p.e x.e))) (o.of_size 720)) in
      o.to_bits
        (o.add (o.of_bits score) (o.mul (o.of_size (if p.w == x.w then 1000 else 0)) weight))

  -- The score of a common edge; errors are bytes, so it is positive.
  unfoldable pub edge_score : Qlf × Qlf → Qlf × Qlf → ℕ
  unfolding add_similarity
  edge_score p x = add_similarity p.1 x.1 (add_similarity p.0 x.0 1000)

  -- The loop over the edges of the candidate; `size` is the one of m_H, which the test for room reads.
  unfoldable pub match_edges : ℕ → Edges → Edges → Histogram → Outcome Histogram
  unfolding find_edge edge_score add_score update_max resize
  match_edges size hx [] h = ok h
  match_edges size hx ((e, p, p') ∷ hq) h =
      let matched : Qlf × Qlf → Outcome Histogram = λ x. do
        let half = edge_score (p, p') x / 2
        let bin1 = p.t / tk
        let bin2 = p'.t / tk
        let ht : List HistoBin =
            if leb size bin1 || leb size bin2
            then resize ((if ltb bin1 bin2 then bin2 else bin1) * 11 / 10) h.ht
            else h.ht
        ht1 ← add_score bin1 half ht
        ht2 ← add_score bin2 half ht1
        h1 ← update_max bin1 (record h { ht = ht2 })
        update_max bin2 h1
      in elim (find_edge e hx) [ none ↦ ok h | some x ↦ matched x ] >>= match_edges size hx hq

  -- One pair of a query LF and a candidate LF: `k` and `sij` are their positions.
  unfoldable pub match_pair :
      FingerprintStore → List Qlf → ℕ → ℕ → ℕ → ℕ → Histogram → Outcome Histogram
  unfolding build_graphs match_edges lf_at qlfs_of
  match_pair fps xk size qi k sij h =
      let ks : ℕ = if leb 15 k then k - 15 else 0 in
      let ke : ℕ = if leb 15 (length xk - k - 1) then k + 15 else length xk - 1 in
      let fp_size = fps.get_fingerprint_size qi in
      let qlen = fp_size / 8 in
      let ss = sij - min sij (k - ks) in
      let se = sij + min (ke - k) (qlen - sij - 1) in
      let nh = se - ss + 1 in
      let matched : Qlf → List Qlf → Qlf → List Qlf → Outcome Histogram =
        λ refx xs refq qs. match_edges size (build_graphs refx xs []) (build_graphs refq qs []) h in
      let received : List ℕ → Outcome Histogram = λ bytes.
        let xs = take (ke - ks + 1) (drop ks xk) in
        let qs = qlfs_of bytes in
        if not (length bytes == nh * 8)
        then err invalid_fingerprint
        else lf_at (k - ks) xs >>= λ refx.
            lf_at (sij - ss) qs >>= λ refq. matched refx xs refq qs in
      if fp_size == 0
      then err invalid_fingerprint
      else if not (fp_size % 8 == 0)
      then err invalid_fingerprint
      else if leb qlen sij
      then err invalid_index_data
      else elim (fps.get_fingerprint qi (nh * 8) (ss * 8)) [
        | none ↦ err invalid_fingerprint
        | some bytes ↦ received bytes
      ]

  -- The loop over the info table of a bin.
  unfoldable pub graph_matching :
      FingerprintStore → List Qlf → ℕ → ℕ → List (ℕ × Info) → Histogram → Outcome Histogram
  unfolding match_pair
  graph_matching fps xk size qi [] h = ok h
  graph_matching fps xk size qi ((sij, info) ∷ infos) h =
      match_pair fps xk size qi info.cand_lf sij h >>= graph_matching fps xk size qi infos
