-- ===== src/Shared/Int.antt =====
-- C++'s `int` and `uint32_t`: integers over the native numbers, conversion and checked addition.
use Prim.Native.Nat.{ℕ, zero, suc, ◌+◌, ◌-◌, ◌*◌, ◌^◌}
use mathlib.Core.Bool.{Bool, ◌&&◌}
use cs389hw.Shared.Tests.{ltb, leb, if◌then◌else◌}
use cs389hw.Shared.Results.{Result, ok, stop, overflow}

-- `negsuc n` is -(n + 1).
pub data ℤ : Type 0 where
  pos : ℕ → ℤ
  negsuc : ℕ → ℤ

abbrev pub pos_part : ℤ → ℕ
pos_part (pos n) = n
pos_part (negsuc n) = 0

abbrev pub neg_part : ℤ → ℕ
neg_part (pos n) = 0
neg_part (negsuc n) = suc n

-- a - b, as an integer.
abbrev pub sub_ℕ : ℕ → ℕ → ℤ
sub_ℕ a b = if leb b a then pos (a - b) else negsuc (b - a - 1)

infixl 65 ◌+ℤ◌ ◌-ℤ◌
abbrev pub ◌+ℤ◌ : ℤ → ℤ → ℤ
a +ℤ b = sub_ℕ (pos_part a + pos_part b) (neg_part a + neg_part b)

abbrev pub ◌-ℤ◌ : ℤ → ℤ → ℤ
a -ℤ b = sub_ℕ (pos_part a + neg_part b) (neg_part a + pos_part b)

abbrev pub ltb_ℤ : ℤ → ℤ → Bool
ltb_ℤ a b = ltb (pos_part a + neg_part b) (pos_part b + neg_part a)

abbrev pub u32 : ℕ
u32 = 2 ^ 32

abbrev pub int_bound : ℕ
int_bound = 2 ^ 31

-- `int(n)` of a `uint32_t`.
abbrev pub to_int : ℕ → ℤ
to_int n = if ltb n int_bound then pos n else negsuc (u32 - n - 1)

-- A result outside the range of `int` is undefined behaviour.
abbrev pub in_int : ℤ → Bool
in_int a = ltb (pos_part a) int_bound && leb (neg_part a) int_bound

abbrev pub checked : ℤ → Result ℤ
checked a = if in_int a then ok a else stop overflow

abbrev pub add_int : ℤ → ℤ → Result ℤ
add_int a b = checked (a +ℤ b)

abbrev pub sub_int : ℤ → ℤ → Result ℤ
sub_int a b = checked (a -ℤ b)

abbrev pub mul_ℤ : ℤ → ℤ → ℤ
mul_ℤ (pos a) (pos b) = pos (a * b)
mul_ℤ (pos zero) (negsuc b) = pos 0
mul_ℤ (pos (suc a)) (negsuc b) = negsuc (suc a * suc b - 1)
mul_ℤ (negsuc a) (pos zero) = pos 0
mul_ℤ (negsuc a) (pos (suc b)) = negsuc (suc a * suc b - 1)
mul_ℤ (negsuc a) (negsuc b) = pos (suc a * suc b)

abbrev pub mul_int : ℤ → ℤ → Result ℤ
mul_int a b = checked (mul_ℤ a b)
