-- ===== src/Cache.antt =====
-- IndexCache (src/index/Indexer.h, src/index/Indexer.cpp): postings lists by term, each in one array
-- <FID,tf,LID,T,E,...,FID,tf,LID,T,E,...,tf of the last posting>.
pub mod Spec
mod Refine
pub mod Update
pub mod View
use audioneex.Prelude.{
  ℕ, ◌+◌, ◌-◌, ◌*◌, ◌/◌, List, [], ◌∷◌, ◌++◌, Bool, true, false, ◌&&◌, ◌==◌, ltb, leb,
  if◌then◌else◌, Outcome, ok, ◌>>=◌, length, take, add32, mul32, sub64,
}
use audioneex.Memory.{load, store}

-- The map from terms to lists. Its iteration order is unspecified; here it is a list of entries.
abbrev pub Buffer : Type 0
Buffer = List (ℕ × List ℕ)

pub record IndexCache : Type 0 where
  pub buffer : Buffer
  pub memory_limit : ℕ
  pub memory_used : ℕ
  pub total_postings : ℕ
  pub duplicate_occ : ℕ

-- The member initialisers.
abbrev pub new_cache : IndexCache
new_cache = record {
  buffer = [];
  memory_limit = 128;
  memory_used = 0;
  total_postings = 0;
  duplicate_occ = 0;
}

-- `m_Buffer[term]`: a term that is not there stands for the empty list.
unfoldable pub find : ℕ → Buffer → List ℕ
find term [] = []
find term ((k, plist) ∷ rest) = if k == term then plist else find term rest

unfoldable pub put : ℕ → List ℕ → Buffer → Buffer
put term plist [] = (term, plist) ∷ []
put term plist ((k, old) ∷ rest) =
    if k == term then (k, plist) ∷ rest else (k, old) ∷ put term plist rest

-- What an update does to a list: the list after it, and which counters change.
pub data Change : Type 0 where
  created appended posted duplicate none_made : Change

-- `Update` on a list that is not empty.
unfoldable pub extend_plist : ℕ → ℕ → ℕ → ℕ → List ℕ → Outcome (List ℕ × Change)
extend_plist fid lid t e plist = do
  let size = length plist
  ne ← load plist (sub64 size 1)
  let fido_pos = sub64 (sub64 (sub64 size 1) (mul32 3 ne)) 2
  let tfo_pos = sub64 (sub64 (sub64 size 1) (mul32 3 ne)) 1
  fido ← load plist fido_pos
  tfo ← load plist tfo_pos
  let same : Outcome (List ℕ × Change) = do
    last_lid ← load plist (sub64 (sub64 size 1) 3)
    last_t ← load plist (sub64 (sub64 size 1) 2)
    last_e ← load plist (sub64 (sub64 size 1) 1)
    let append : Outcome (List ℕ × Change) = do
      grown ← store plist tfo_pos (add32 tfo 1)
      ok (take (sub64 size 1) grown ++ (lid ∷ t ∷ e ∷ add32 ne 1 ∷ []), Change.appended)
    if lid == last_lid && (t == last_t && e == last_e) then ok (plist, Change.duplicate) else append
  let next : Outcome (List ℕ × Change) =
      ok (take (sub64 size 1) plist ++ (fid ∷ 1 ∷ lid ∷ t ∷ e ∷ 1 ∷ []), Change.posted)
  if fid == fido then same else if ltb fido fid then next else ok (plist, Change.none_made)

-- The body of `Update` on the list of the term.
unfoldable pub update_plist : ℕ → ℕ → ℕ → ℕ → List ℕ → Outcome (List ℕ × Change)
unfolding extend_plist
update_plist fid lid t e [] = ok (fid ∷ 1 ∷ lid ∷ t ∷ e ∷ 1 ∷ [], Change.created)
update_plist fid lid t e (x ∷ xs) = extend_plist fid lid t e (x ∷ xs)

-- The counters. `entry_bytes` is sizeof(std::vector<uint32_t>) + sizeof(buffer_type::value_type).
unfoldable pub count_change : ℕ → Change → IndexCache → IndexCache
count_change entry_bytes Change.created c = record c {
  memory_used = c.memory_used + (entry_bytes + 6 * 4);
  total_postings = c.total_postings + 1;
}
count_change entry_bytes Change.appended c = record c { memory_used = c.memory_used + 3 * 4 }
count_change entry_bytes Change.posted c = record c {
  memory_used = c.memory_used + 5 * 4;
  total_postings = c.total_postings + 1;
}
count_change entry_bytes Change.duplicate c = record c { duplicate_occ = c.duplicate_occ + 1 }
count_change entry_bytes Change.none_made c = c

unfoldable pub update : ℕ → ℕ → ℕ → ℕ → ℕ → ℕ → IndexCache → Outcome IndexCache
unfolding find put update_plist count_change
update entry_bytes term fid lid t e c = do
  (plist, change) ← update_plist fid lid t e (find term c.buffer)
  ok (count_change entry_bytes change (record c { buffer = put term plist c.buffer }))

unfoldable pub can_flush : IndexCache → Bool
can_flush c = leb c.memory_limit (c.memory_used / 1048576)

unfoldable pub reset : IndexCache → IndexCache
reset c = record c { buffer = []; memory_used = 0; total_postings = 0; duplicate_occ = 0 }

unfoldable pub is_empty : IndexCache → Bool
is_empty c = elim c.buffer [ [] ↦ true | _ ↦ false ]

unfoldable pub set_memory_limit : ℕ → IndexCache → IndexCache
set_memory_limit limit c = record c { memory_limit = limit }

unfoldable pub clear_list : ℕ → IndexCache → IndexCache
unfolding put
clear_list term c = record c { buffer = put term [] c.buffer }
