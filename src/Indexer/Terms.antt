-- ===== src/Indexer/Terms.antt =====
-- IndexSTerms, IndexBTerms and GetMaxTermValue (src/index/Indexer.cpp): the terms of a fingerprint, and
-- the updates of the cache for them.
use audioneex.Prelude.{
  ℕ, ◌+◌, ◌-◌, ◌*◌, ◌%◌, ◌^◌, List, [], ◌∷◌, ◌==◌, ltb, if◌then◌else◌, Outcome, ok, err, ◌>>=◌,
  sub32, low_bits, invalid_parameter,
}
use Prim.Native.Nat.{bit_or}
use audioneex.AudioBlock.{FloatOps}
use audioneex.Cache.{IndexCache, update}
use audioneex.Indexer.Fingerprints.{Qlf}

-- eMatchType. An integer that is neither of the two can be cast to it.
pub data MatchType : Type 0 where
  mscale_match xscale_match other_match : MatchType

-- The values that src/Parameters.h and the statics of the indexer come to. The bandwidth qB is
-- 558 / 3.
abbrev pub kmin : ℕ
kmin = 18

abbrev pub kmax : ℕ
kmax = 575

abbrev pub kmed : ℕ
kmed = 100

abbrev pub nbands : ℕ
nbands = 3

abbrev pub d_max : ℕ
d_max = 10

abbrev pub t_max : ℕ
t_max = 73

abbrev pub vpt_max : ℕ
vpt_max = 15

abbrev pub vpf_max : ℕ
vpf_max = 21

abbrev pub vpt_shift : ℕ
vpt_shift = 6

abbrev pub w2_shift : ℕ
w2_shift = 10

abbrev pub b_shift : ℕ
b_shift = 17

abbrev pub w1_shift : ℕ
w1_shift = 19

-- `x << k` on a 32-bit pattern.
abbrev pub shl : ℕ → ℕ → ℕ
shl x k = x * 2 ^ k % 2 ^ 32

unfoldable pub pair_term : ℕ → ℕ → ℕ → ℕ → ℕ → ℕ
pair_term w1 bpivot w2 vpt vpf =
    bit_or
      (bit_or (bit_or (bit_or (shl w1 w1_shift) (shl bpivot b_shift)) (shl w2 w2_shift))
        (shl vpt vpt_shift))
      (low_bits vpf 6)

unfoldable pub get_max_term_value : MatchType → Outcome ℕ
get_max_term_value MatchType.mscale_match = ok (bit_or (shl kmed 6) 62)
get_max_term_value MatchType.xscale_match = ok (
    bit_or
      (bit_or (bit_or (bit_or (shl kmed w1_shift) (shl nbands b_shift)) (shl kmed w2_shift))
        (shl vpt_max vpt_shift))
      (low_bits (2 ^ 32 - vpf_max) 6))
get_max_term_value MatchType.other_match = err invalid_parameter

module _ {F : Type 0} (o : FloatOps F) where
  -- The channel of a fingerprint, and its term with the word.
  unfoldable pub channel : Qlf → ℕ
  channel q = o.to_bits (o.div (o.of_bits (sub32 (q.f + 1) kmin)) (o.of_size 9))

  unfoldable pub word_term : Qlf → ℕ
  unfolding channel
  word_term q = bit_or (shl q.w 6) (channel q)

  unfoldable pub band : Qlf → ℕ
  band q =
      o.to_bits (o.div (o.of_size q.f) (o.div (o.of_size (kmax - kmin + 1)) (o.of_size nbands)))

  -- The difference of two quantized coordinates; the float difference is rounded.
  unfoldable pub quantized_step : ℕ → ℕ → ℕ → ℕ
  quantized_step step x y =
      o.to_bits
        (o.sub (o.div (o.of_size y) (o.of_size step)) (o.div (o.of_size x) (o.of_size step)))

module _ {F : Type 0} (o : FloatOps F) (entry_bytes : ℕ) where
  -- `i` is the number of fingerprints before.
  unfoldable pub index_s_terms : ℕ → ℕ → List Qlf → IndexCache → Outcome IndexCache
  unfolding word_term
  index_s_terms fid i [] cache = ok cache
  index_s_terms fid i (q ∷ lfs) cache = do
    cache' ← update entry_bytes (word_term o q) fid i q.t q.e cache
    index_s_terms fid (i + 1) lfs cache'

  -- The inner loop, for the fingerprints behind the pivot; `d` counts the pairs. The compiler
  -- converts dt to size_t, where a negative one is above t_max as well.
  unfoldable pub index_pairs : ℕ → ℕ → Qlf → ℕ → List Qlf → IndexCache → Outcome IndexCache
  unfolding band quantized_step pair_term
  index_pairs fid i pivot d [] cache = ok cache
  index_pairs fid i pivot d (q ∷ lfs) cache =
      let term =
        pair_term pivot.w (band o pivot) q.w (quantized_step o 5 pivot.t q.t)
          (quantized_step o 9 pivot.f q.f) in
      let paired : Outcome IndexCache =
        update entry_bytes term fid i pivot.t pivot.e cache >>= λ cache'.
        index_pairs fid i pivot (d + 1) lfs cache' in
      let skipped = index_pairs fid i pivot d lfs cache in
      if ltb d d_max
      then if ltb t_max (sub32 q.t pivot.t)
        then ok cache
        else if band o q == band o pivot
        then paired
        else skipped
      else ok cache

  unfoldable pub index_b_terms : ℕ → ℕ → List Qlf → IndexCache → Outcome IndexCache
  unfolding index_pairs
  index_b_terms fid i [] cache = ok cache
  index_b_terms fid i (q ∷ lfs) cache = do
    cache' ← index_pairs fid i q 0 lfs cache
    index_b_terms fid (i + 1) lfs cache'

  -- The two `if`s of the Index methods.
  unfoldable pub index_terms : MatchType → ℕ → List Qlf → IndexCache → Outcome IndexCache
  unfolding index_s_terms index_b_terms
  index_terms MatchType.mscale_match fid lfs cache = index_s_terms fid 0 lfs cache
  index_terms MatchType.xscale_match fid lfs cache = index_b_terms fid 0 lfs cache
  index_terms MatchType.other_match fid lfs cache = ok cache
