-- ===== src/Prelude/Words.antt =====
-- Machine words as native numbers, and the bit masks of a byte.
use Prim.Native.Nat.{ℕ, zero, suc, ◌+◌, ◌-◌, ◌*◌, ◌/◌, ◌%◌, ◌^◌, ◌<◌, bit_or}
use mathlib.Core.Path.{◌≡◌, refl}
use mathlib.Core.List.{List, [], ◌∷◌}
use mathlib.Core.Bool.{Bool, true, ◌&&◌}
use native.Mathlib.Omega.{arith}
use audioneex.Prelude.Tests.{◌==◌}

-- uint32_t sums, differences and products; size_t differences.
abbrev pub add32 : ℕ → ℕ → ℕ
add32 a b = (a + b) % 2 ^ 32

abbrev pub sub32 : ℕ → ℕ → ℕ
sub32 a b = (a + 2 ^ 32 - b) % 2 ^ 32

abbrev pub mul32 : ℕ → ℕ → ℕ
mul32 a b = a * b % 2 ^ 32

abbrev pub sub64 : ℕ → ℕ → ℕ
sub64 a b = (a + 2 ^ 64 - b) % 2 ^ 64

abbrev pub IsU32 : ℕ → Type 0
IsU32 v = v < 2 ^ 32

abbrev pub IsByte : ℕ → Type 0
IsByte b = b < 256

-- x >> k and x & (2^k - 1).
abbrev pub shr : ℕ → ℕ → ℕ
shr x k = x / 2 ^ k

abbrev pub low_bits : ℕ → ℕ → ℕ
low_bits x k = x % 2 ^ k

-- The bytes of a 32-bit word on a little-endian machine, and back.
unfoldable pub word_bytes : ℕ → List ℕ
word_bytes n =
    low_bits n 8 ∷ low_bits (shr n 8) 8 ∷ low_bits (shr n 16) 8 ∷ low_bits (shr n 24) 8 ∷ []

abbrev pub word_of : ℕ → ℕ → ℕ → ℕ → ℕ
word_of b0 b1 b2 b3 = b0 + b1 * 2 ^ 8 + b2 * 2 ^ 16 + b3 * 2 ^ 24

pub word_of-bytes :
    (n : ℕ)
    → IsU32 n
    → word_of (low_bits n 8) (low_bits (shr n 8) 8) (low_bits (shr n 16) 8) (low_bits (shr n 24) 8)
      ≡ n
word_of-bytes n h = omega arith

-- A test that every number before `n` passes.
passes_to : (ℕ → Bool) → ℕ → Bool
passes_to test zero = true
passes_to test (suc n) = passes_to test n && test n

passes_to-at : (test : ℕ → Bool) (n x : ℕ) → x < n → passes_to test n ≡ true → test x ≡ true
unfolding passes_to
passes_to-at test zero x below e = absurd (omega (arith, below))
passes_to-at test (suc n) x below e = ground (arith, passes_to-at test n x)

pub ==→eq : (a b : ℕ) → (a == b) ≡ true → a ≡ b
==→eq a b h = ground arith

-- `x | (1 << 7)` on the low half of a byte.
pub set_top_bit : (x : ℕ) → x < 128 → bit_or x 128 ≡ x + 128
unfolding passes_to
set_top_bit x h = ==→eq _ _ (passes_to-at (λ y. bit_or y 128 == y + 128) 128 x h refl)
