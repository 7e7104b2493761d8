-- ===== src/Ring.antt =====
-- RingBuffer (src/audio/RingBuffer.h): a ring of audio blocks between a producer and a consumer.
pub mod Fifo
use audioneex.Prelude.{
  ℕ, zero, suc, ◌+◌, ◌-◌, ◌%◌, ◌^◌, List, [], ◌∷◌, Bool, true, false, ◌==◌, if◌then◌else◌, Option,
  none, some, sub64, replicate,
}

-- The counters are 64-bit words. mBuffer is null until a size is set.
pub record RingBuffer {ℓ} (A : Type ℓ) : Type ℓ where
  pub buffer : Option (List A)
  pub size : ℕ
  pub consumed : ℕ
  pub produced : ℕ
  pub consume_done : Bool

module _ {ℓ} {A : Type ℓ} where
  -- The default constructor.
  abbrev pub new_ring : RingBuffer A
  new_ring = record { buffer = none; size = 0; consumed = 0; produced = 0; consume_done = false }

  -- The two overloads of `Set`: `blank` is what the default constructor of a block makes.
  unfoldable pub set_blank : A → ℕ → RingBuffer A → RingBuffer A
  set_blank blank size r = record r { buffer = some (replicate size blank); size = size }

  unfoldable pub set_block : ℕ → A → RingBuffer A → RingBuffer A
  set_block size block r = record r { buffer = some (replicate size block); size = size }

  unfoldable pub is_full : RingBuffer A → Bool
  is_full r = sub64 r.produced r.consumed == r.size

  unfoldable pub is_empty : RingBuffer A → Bool
  is_empty r = sub64 r.produced r.consumed == 0

  unfoldable pub available : RingBuffer A → ℕ
  available r = sub64 r.produced r.consumed

  unfoldable pub is_null : RingBuffer A → Bool
  is_null r = elim r.buffer [ none ↦ true | some _ ↦ false ]

  -- The three operations that give a pointer to a block give its index in mBuffer, and `none` for
  -- the null pointer.
  unfoldable pub get_head : RingBuffer A → Option ℕ
  unfolding is_full
  get_head r = if is_full r then none else some (r.produced % r.size)

  unfoldable pub push : RingBuffer A → RingBuffer A × Option ℕ
  unfolding is_full
  push r =
      if is_full r
      then (r, none)
      else (record r { produced = (r.produced + 1) % 2 ^ 64 }, some (r.produced % r.size))

  -- `Pull` with mConsumed as it is after the first `if`.
  unfoldable pub pull_from : ℕ → RingBuffer A → RingBuffer A × Option ℕ
  pull_from consumed r =
      if sub64 r.produced consumed == 0
      then (record r { consumed = consumed; consume_done = false }, none)
      else (record r { consumed = consumed; consume_done = true }, some (consumed % r.size))

  unfoldable pub pull : RingBuffer A → RingBuffer A × Option ℕ
  unfolding pull_from
  pull r = pull_from (if r.consume_done then (r.consumed + 1) % 2 ^ 64 else r.consumed) r

  unfoldable pub reset : RingBuffer A → RingBuffer A
  reset r = record r { consumed = 0; produced = 0; consume_done = false }

  unfoldable pub swap : RingBuffer A → RingBuffer A → RingBuffer A × RingBuffer A
  swap b1 b2 = (b2, b1)
