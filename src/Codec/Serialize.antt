-- ===== src/Codec/Serialize.antt =====
-- BlockEncoder::Serialize (src/index/BlockCodec.cpp). The library is built with NDEBUG
-- (cmake/make_linux.cmake), so its assertions are no code; differences wrap as uint32_t.
mod Frame
pub mod Layout
pub mod Chunk
use audioneex.Prelude.{
  ℕ, zero, suc, ◌+◌, ◌-◌, ◌*◌, List, [], ◌∷◌, Bool, not, ◌||◌, ◌==◌, if◌then◌else◌, Option, none,
  some, Outcome, ok, fault, ◌>>=◌, sub32,
}
use audioneex.Memory.{load, store}

-- The three writes of a round of the payload loop, where LID and T are the values to write.
unfoldable pub write_element : ℕ → ℕ → ℕ → ℕ → ℕ → List ℕ → Outcome (List ℕ)
unfolding store
write_element tf vpos lid time error ser = do
  ser1 ← store ser vpos lid
  ser2 ← store ser1 (vpos + 1 * tf) time
  store ser2 (vpos + 2 * tf) error

-- A round of the payload loop. `p` points at the posting in the cache.
unfoldable pub payload_round : Bool → List ℕ → ℕ → ℕ → ℕ → List ℕ → Outcome (List ℕ)
unfolding load write_element
payload_round delta_encode p tf i vpos ser =
    let poff1 = i * 3 in
    let poff0 = (i - 1) * 3 in
    let plain : Outcome (List ℕ) = do
      lid ← load p (2 + poff1)
      time ← load p (3 + poff1)
      error ← load p (4 + poff1)
      write_element tf vpos lid time error ser
    in let coded : Outcome (List ℕ) = do
      lid ← load p (2 + poff1)
      lid0 ← load p (2 + poff0)
      time ← load p (3 + poff1)
      time0 ← load p (3 + poff0)
      error ← load p (4 + poff1)
      write_element tf vpos (sub32 lid lid0) (sub32 time time0) error ser
      in if i == 0 || not delta_encode then plain else coded

-- The payload loop, with the number of rounds left.
unfoldable pub payload_loop : Bool → List ℕ → ℕ → ℕ → ℕ → ℕ → List ℕ → Outcome (List ℕ)
payload_loop delta_encode p tf zero i vpos ser = ok ser
payload_loop delta_encode p tf (suc n) i vpos ser = do
  ser' ← payload_round delta_encode p tf i vpos ser
  payload_loop delta_encode p tf n (i + 1) (vpos + 1) ser'

-- The loop over the postings of the chunk.
unfoldable pub serialize_loop : Bool → List (List ℕ) → ℕ → ℕ → List ℕ → Outcome (List ℕ)
serialize_loop delta_encode [] vpos prev_fid ser = ok ser
serialize_loop delta_encode (p ∷ plist_chunk) vpos prev_fid ser = do
  fid ← load p 0
  tf ← load p 1
  ser1 ← store ser vpos (sub32 fid prev_fid)
  ser2 ← store ser1 (vpos + 1) tf
  ser3 ← payload_loop delta_encode p tf tf 0 (vpos + 2) ser2
  serialize_loop delta_encode plist_chunk (vpos + 2 + tf + 2 * tf) (if delta_encode then fid else 0)
      ser3

unfoldable pub serialize : List (List ℕ) → List ℕ → ℕ → Bool → Outcome (List ℕ)
unfolding load store payload_loop serialize_loop payload_round
serialize plist_chunk ser_chunk prev_fid delta_encode =
    serialize_loop delta_encode plist_chunk 0 prev_fid ser_chunk
