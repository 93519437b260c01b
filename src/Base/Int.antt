-- ===== src/Base/Int.antt =====
-- Go's signed integers over the native numbers: `int` has 64 bits.
use Prim.Native.Nat.{ℕ, suc, ◌+◌, ◌-◌, ◌*◌, ◌/◌, ◌%◌, ◌^◌, ◌≤◌}
use mathlib.Core.Bool.{Bool}
use sawtooth_sdk_go.Base.Tests.{ltb, leb, ◌==◌, if◌then◌else◌}

-- `negsuc n` is -(n + 1).
pub data ℤ : Type 0 where
  pos : ℕ → ℤ
  negsuc : ℕ → ℤ

abbrev pub pos_part : ℤ → ℕ
pos_part (pos n) = n
pos_part (negsuc n) = 0

abbrev pub neg_part : ℤ → ℕ
neg_part (pos n) = 0
neg_part (negsuc n) = suc n

-- a - b, as an integer
abbrev pub sub_ℕ : ℕ → ℕ → ℤ
sub_ℕ a b = if leb b a then pos (a - b) else negsuc (b - a - 1)

abbrev pub ltb_ℤ : ℤ → ℤ → Bool
ltb_ℤ a b = ltb (pos_part a + neg_part b) (pos_part b + neg_part a)

infix 50 ◌≤ℤ◌
abbrev pub ◌≤ℤ◌ : ℤ → ℤ → Type 0
a ≤ℤ b = pos_part a + neg_part b ≤ pos_part b + neg_part a

-- What a w-bit register holds of a - b, read as a signed number.
abbrev pub signed : ℕ → ℕ → ℤ
signed w r = if ltb r (2 ^ (w - 1)) then pos r else negsuc (2 ^ w - r - 1)

-- the register's bits of a - b, for b at most 2 ^ w
abbrev pub residue : ℕ → ℕ → ℕ → ℕ
residue w a b = (a + 2 ^ w - b % 2 ^ w) % 2 ^ w

-- `a + b` and `a - b` on `int`
unfoldable pub add_int : ℤ → ℤ → ℤ
add_int a b = signed 64 (residue 64 (pos_part a + pos_part b) (neg_part a + neg_part b))

unfoldable pub sub_int : ℤ → ℤ → ℤ
sub_int a b = signed 64 (residue 64 (pos_part a + neg_part b) (neg_part a + pos_part b))

-- Go's `/ 2` and `% 2`, which round towards zero
abbrev pub neg_ℕ : ℕ → ℤ
neg_ℕ n = if n == 0 then pos 0 else negsuc (n - 1)

unfoldable pub half : ℤ → ℤ
half (pos n) = pos (n / 2)
half (negsuc n) = neg_ℕ (suc n / 2)

unfoldable pub is_even : ℤ → Bool
is_even a = (pos_part a + neg_part a) % 2 == 0

-- `a * b` on `int`
unfoldable pub mul_int : ℤ → ℤ → ℤ
mul_int a b = signed 64 (
    residue 64 (pos_part a * pos_part b + neg_part a * neg_part b)
      (pos_part a * neg_part b + neg_part a * pos_part b))
