-- ===== src/Common/Int.antt =====
-- Integers over the native numbers, and two's complement: an N-bit word with 2 * half values.
use Prim.Native.Nat.{ℕ, suc, ◌+◌, ◌-◌, ◌*◌, ◌%◌, ◌<◌}
use mathlib.Core.Path.{◌≡◌}
use mathlib.Core.Bool.{Bool}
use native.Mathlib.Nat.{mod-eq_of_lt}
use native.Mathlib.Omega.{arith}
use my_diffbot.Common.Tests.{ltb, ◌==◌, if◌then◌else◌}

-- `negsuc n` is -(n + 1).
pub data ℤ : Type 0 where
  pos : ℕ → ℤ
  negsuc : ℕ → ℤ

-- The two parts of an integer, one of which is zero.
abbrev pub pos_part : ℤ → ℕ
pos_part (pos n) = n
pos_part (negsuc n) = 0

abbrev pub neg_part : ℤ → ℕ
neg_part (pos n) = 0
neg_part (negsuc n) = suc n

-- a - b as an integer.
abbrev pub sub_ℕ : ℕ → ℕ → ℤ
sub_ℕ a b = if ltb a b then negsuc (b - a - 1) else pos (a - b)

infixl 65 ◌+ℤ◌ ◌-ℤ◌
unfoldable pub ◌+ℤ◌ : ℤ → ℤ → ℤ
a +ℤ b = sub_ℕ (pos_part a + pos_part b) (neg_part a + neg_part b)

unfoldable pub ◌-ℤ◌ : ℤ → ℤ → ℤ
a -ℤ b = sub_ℕ (pos_part a + neg_part b) (neg_part a + pos_part b)

abbrev pub negate : ℤ → ℤ
negate a = sub_ℕ (neg_part a) (pos_part a)

abbrev pub ltb_ℤ : ℤ → ℤ → Bool
ltb_ℤ a b = ltb (pos_part a + neg_part b) (pos_part b + neg_part a)

abbrev pub eqb_ℤ : ℤ → ℤ → Bool
eqb_ℤ a b = pos_part a + neg_part b == pos_part b + neg_part a

-- The range of a signed type.
abbrev pub Fits : ℕ → ℤ → Type 0
Fits half (pos n) = n < half
Fits half (negsuc n) = n < half

-- The bit pattern of an integer, and the integer of a bit pattern.
unfoldable pub to_bits : ℕ → ℤ → ℕ
to_bits half (pos n) = n % (2 * half)
to_bits half (negsuc n) = 2 * half - 1 - n % (2 * half)

unfoldable pub signed : ℕ → ℕ → ℤ
signed half x = if ltb x half then pos x else negsuc (2 * half - 1 - x)

-- A value in range survives the cast to a bit pattern and back.
pub signed-to_bits : (half : ℕ) (z : ℤ) → Fits half z → signed half (to_bits half z) ≡ z
unfolding signed to_bits
signed-to_bits half (pos n) h =
    rw (mod-eq_of_lt {n = n} {m = 2 * half} (omega arith)) (ground arith)
signed-to_bits half (negsuc n) h =
    rw (mod-eq_of_lt {n = n} {m = 2 * half} (omega arith)) (ground arith)

pub to_bits-lt : (half : ℕ) (z : ℤ) → 0 < half → to_bits half z < 2 * half
unfolding to_bits
to_bits-lt half (pos n) h = omega arith
to_bits-lt half (negsuc n) h = omega arith

pub signed-Fits : (half x : ℕ) → x < 2 * half → Fits half (signed half x)
unfolding signed
signed-Fits half x h = ground arith
