-- ===== src/Matcher/Bins.antt =====
-- The time histogram of a candidate (HistoBin_t and Qhisto_t of src/ident/Matcher.h), and the scoring of
-- one occurrence in it, which both candidate searches of src/ident/Matcher.cpp have inline.
use audioneex.Prelude.{
  ℕ, ◌-◌, ◌*◌, ◌/◌, ◌^◌, List, [], ◌∷◌, ◌++◌, map, Bool, true, false, ◌==◌, ◌&&◌, ◌||◌, ltb, leb,
  if◌then◌else◌, none, some, Outcome, ok, fault, ◌>>=◌, length, take, get_elem?, set?, replicate,
  add32, sub32,
}
use audioneex.AudioBlock.{FloatOps}
use audioneex.Results.{rank}

-- HistoBin_t::Info_t. An int is its 32-bit pattern.
pub record Info : Type 0 where
  pub cand_lf : ℕ
  pub pivot : ℕ

-- HistoBin_t, where `info` is a hash map from LF numbers.
pub record HistoBin : Type 0 where
  pub score : ℕ
  pub last_t : ℕ
  pub torder : ℕ
  pub scored : Bool
  pub info : List (ℕ × Info)

abbrev pub empty_bin : HistoBin
empty_bin = record { score = 0; last_t = 0; torder = 0; scored = false; info = [] }

pub record Histogram : Type 0 where
  pub ht : List HistoBin
  pub bmax : ℕ
  pub qi : ℕ

-- `Ht.resize(n)`, `Reset` and `ResetBinScoredFlag`.
unfoldable pub resize : ℕ → List HistoBin → List HistoBin
resize n ht = take n ht ++ replicate (n - length ht) empty_bin

unfoldable pub reset : Histogram → Histogram
reset h = record { ht = map (λ _. empty_bin) h.ht; bmax = 0; qi = 0 }

unfoldable pub reset_scored : Histogram → Histogram
reset_scored h = record h { ht = map (λ (b : HistoBin). record b { scored = false }) h.ht }

-- Access to an element; outside of the array it is undefined.
unfoldable pub bin_at : ℕ → List HistoBin → Outcome HistoBin
bin_at i ht = elim (get_elem? ht i) [ none ↦ fault | some b ↦ ok b ]

unfoldable pub write_bin : ℕ → HistoBin → List HistoBin → Outcome (List HistoBin)
write_bin i b ht = elim (set? ht i b) [ none ↦ fault | some ht' ↦ ok ht' ]

-- The score of the best bin.
unfoldable pub top_score : Histogram → Outcome ℕ
unfolding bin_at
top_score h = bin_at h.bmax h.ht >>= λ b. ok b.score

-- Pms::Tk
abbrev pub tk : ℕ
tk = 365

-- `Sij_t / Pms::Tk`, of an int. The histogram is resized to a negative size if it is negative.
unfoldable pub bin_of : ℕ → Outcome ℕ
bin_of t = if ltb t (2 ^ 31) then ok (t / tk) else if ltb (2 ^ 32 - t) tk then ok 0 else fault

-- `m_H.Resize(bin * 1.1)` where the bin is not in the histogram.
unfoldable pub make_room : ℕ → List HistoBin → List HistoBin
unfolding resize
make_room bin ht = if leb (length ht) bin then resize (bin * 11 / 10) ht else ht

-- `Info[Sij]`, and a write to it.
unfoldable pub info_of : ℕ → List (ℕ × Info) → Info
info_of sij [] = record { cand_lf = 0; pivot = 0 }
info_of sij ((s, i) ∷ infos) = if s == sij then i else info_of sij infos

unfoldable pub set_info : ℕ → Info → List (ℕ × Info) → List (ℕ × Info)
set_info sij x [] = (sij, x) ∷ []
set_info sij x ((s, i) ∷ infos) = if s == sij then (s, x) ∷ infos else (s, i) ∷ set_info sij x infos

-- `abs` of an int.
abbrev pub abs32 : ℕ → ℕ
abs32 a = if ltb a (2 ^ 31) then a else 2 ^ 32 - a

-- What is scored: the number k of the query LF, its error, the pivot that is noted, and whether an LF
-- that was a candidate before may be scored again, by what was noted of it.
pub record Query : Type 0 where
  pub k : ℕ
  pub error : ℕ
  pub pivot : ℕ
  pub again : Info → Bool

module _ {F : Type 0} (o : FloatOps F) where
  -- int(1000 * (1 - d / IDI)), for the difference d of two errors, and int(1000 * a / b).
  unfoldable pub similarity : ℕ → ℕ
  similarity d =
      o.to_bits (o.mul (o.of_size 1000) (o.sub (o.of_size 1) (o.div (o.of_bits d) (o.of_size 720))))

  unfoldable pub share : ℕ → ℕ → ℕ
  share a b = o.to_bits (o.mul (o.of_size 1000) (o.div (o.of_bits a) (o.of_size b)))

  -- The bin after the candidate LF at the time t has been scored in it.
  unfoldable pub score_bin : Query → ℕ → ℕ → ℕ → HistoBin → HistoBin
  unfolding similarity share set_info
  score_bin q lid t e b =
      let infos = set_info lid (record { cand_lf = q.k; pivot = q.pivot }) b.info in
      let tdiff = sub32 t b.last_t in
      let in_order = ltb tdiff (2 ^ 31) || leb (2 ^ 32 - 2) tdiff in
      let torder : ℕ = if in_order then add32 b.torder 1 else b.torder in
      let score_to : ℕ = if in_order then share torder (length infos) else 0 in
      record {
        score = add32 b.score (add32 (similarity (abs32 (sub32 q.error e))) score_to);
        last_t = t;
        torder = torder;
        scored = true;
        info = infos;
      }

  -- One occurrence of the current candidate. An entry of the info table that is looked up is made.
  unfoldable pub score_occurrence : Query → ℕ × ℕ × ℕ → Histogram → Outcome Histogram
  unfolding bin_of make_room bin_at write_bin info_of score_bin top_score rank
  score_occurrence q (lid, t, e) h = do
    bin ← bin_of t
    let ht = make_room bin h.ht
    b ← bin_at bin ht
    let i = info_of lid b.info
    let new = i.cand_lf == 0 && i.pivot == 0
    let b' = score_bin q lid t e b
    let scored : Outcome Histogram = do
      ht' ← write_bin bin b' ht
      top ← bin_at h.bmax ht'
      ok (record h {
        ht = ht';
        bmax = if ltb (rank top.score) (rank b'.score) then bin else h.bmax;
      })
    if b.scored
        then ok (record h { ht = ht })
        else if new || q.again i
        then scored
        else ok (record h { ht = ht })

  unfoldable pub score_occurrences : Query → List (ℕ × ℕ × ℕ) → Histogram → Outcome Histogram
  unfolding score_occurrence
  score_occurrences q [] h = ok h
  score_occurrences q (x ∷ xs) h = score_occurrence q x h >>= score_occurrences q xs
