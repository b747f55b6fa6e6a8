-- ===== src/Base/Int.antt =====
-- Go's `int`, `int32` and `int64`: integers over the native numbers, and two's complement wrap-around.
use Prim.Native.Nat.{ℕ, suc, ◌+◌, ◌-◌, ◌*◌, ◌/◌, ◌%◌, ◌<◌}
use mathlib.Core.Path.{◌≡◌}
use mathlib.Core.Bool.{Bool}
use native.Mathlib.Omega.{arith}
use cpodoperator.Base.Equality.{Eq, ltb, leb, ℕ_discrete, if◌then◌else◌}

-- `negsuc n` is -(n + 1).
pub data ℤ : Type 0 where
  pos : ℕ → ℤ
  negsuc : ℕ → ℤ

unfoldable pub ℤ-discrete : Discrete ℤ
unfolding ℕ_discrete
ℤ-discrete = hlevel ℕ_discrete

instance unfoldable pub int_eq : Eq ℤ
unfolding ℤ-discrete
int_eq = record { dec = ℤ-discrete }

abbrev pub pos_part : ℤ → ℕ
pos_part (pos n) = n
pos_part (negsuc n) = 0

abbrev pub neg_part : ℤ → ℕ
neg_part (pos n) = 0
neg_part (negsuc n) = suc n

-- a - b, as an integer.
abbrev pub sub_ℕ : ℕ → ℕ → ℤ
sub_ℕ a b = if leb b a then pos (a - b) else negsuc (b - a - 1)

infixl 65 ◌+ℤ◌
infixl 70 ◌*ℤ◌
unfoldable pub ◌+ℤ◌ : ℤ → ℤ → ℤ
a +ℤ b = sub_ℕ (pos_part a + pos_part b) (neg_part a + neg_part b)

unfoldable pub ◌*ℤ◌ : ℤ → ℤ → ℤ
a *ℤ b =
    sub_ℕ (pos_part a * pos_part b + neg_part a * neg_part b)
      (pos_part a * neg_part b + neg_part a * pos_part b)

abbrev pub ltb_ℤ : ℤ → ℤ → Bool
ltb_ℤ a b = ltb (pos_part a + neg_part b) (pos_part b + neg_part a)

-- Go's division, which rounds toward zero, by a positive numeral.
abbrev pub div_ℤ : ℤ → ℕ → ℤ
div_ℤ (pos n) d = pos (n / d)
div_ℤ (negsuc n) d = sub_ℕ 0 (suc n / d)

-- The low 32 bits, and the number that they stand for in two's complement.
abbrev pub low_32 : ℤ → ℕ
low_32 (pos n) = n % 4294967296
low_32 (negsuc n) = 4294967295 - n % 4294967296

-- int32(x)
unfoldable pub to_int32 : ℤ → ℤ
to_int32 x = if ltb (low_32 x) 2147483648 then pos (low_32 x) else negsuc (4294967295 - low_32 x)

abbrev pub low_64 : ℤ → ℕ
low_64 (pos n) = n % 18446744073709551616
low_64 (negsuc n) = 18446744073709551615 - n % 18446744073709551616

-- int64(x), and the result of arithmetic on `int` and `int64`
unfoldable pub to_int64 : ℤ → ℤ
to_int64 x =
    if ltb (low_64 x) 9223372036854775808
    then pos (low_64 x)
    else negsuc (18446744073709551615 - low_64 x)

-- A conversion of a number in the range of int32 changes nothing.
pub to_int32_of_small : (n : ℕ) → n < 2147483648 → to_int32 (pos n) ≡ pos n
unfolding to_int32
to_int32_of_small n h = ground arith

pub to_int64_of_small : (n : ℕ) → n < 9223372036854775808 → to_int64 (pos n) ≡ pos n
unfolding to_int64
to_int64_of_small n h = ground arith
