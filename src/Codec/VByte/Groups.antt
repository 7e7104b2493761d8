-- ===== src/Codec/VByte/Groups.antt =====
-- What `encode_value` of Codec/VByte.antt writes, in plain arithmetic.
use audioneex.Prelude.{
  ℕ, zero, suc, ◌+◌, ◌/◌, ◌%◌, ◌^◌, ◌≤◌, ◌<◌, ◌≡◌, List, [], ◌∷◌, ltb, if◌then◌else◌, arith, IsU32,
  IsByte, All, length, set_top_bit,
}
use audioneex.Codec.VByte.{encode_value}

-- The groups of `w`, for `w` below 128 ^ (k + 1).
unfoldable pub groups : ℕ → ℕ → List ℕ
groups zero w = (w + 128) ∷ []
groups (suc k) w =
    let rest = groups k (w / 128) in if ltb w 128 then (w + 128) ∷ [] else (w % 128 ∷ rest)

pub encode_value-groups : (val : ℕ) → IsU32 val → encode_value val ≡ groups 4 val
unfolding encode_value groups
encode_value-groups val h = ground (
  arith,
  set_top_bit val,
  set_top_bit (val / 128 % 256),
  set_top_bit (val / 16384 % 256),
  set_top_bit (val / 2097152 % 256),
  set_top_bit (val / 268435456 % 256),
)

pub groups-IsByte : (k w : ℕ) → w < 128 ^ suc k → All IsByte (groups k w)
unfolding groups
groups-IsByte zero w h = omega arith
groups-IsByte (suc k) w h = ground (arith, groups-IsByte k (w / 128) (omega arith))

pub length-groups : (k w : ℕ) → (1 ≤ length (groups k w)) × (length (groups k w) ≤ k + 1)
unfolding groups
length-groups zero w = omega arith
length-groups (suc k) w = ground (arith, length-groups k (w / 128))
