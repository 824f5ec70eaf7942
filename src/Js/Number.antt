-- ===== src/Js/Number.antt =====
-- A JavaScript number. Every finite double is a whole multiple of 2 ^ -1074, and the double
-- z * 2 ^ -1074 is written `finite z`; +0 and -0, which `===` identifies, are both `finite (pos 0)`.
-- Sums are exact here; the source's doubles are exact too wherever the sums are integers below
-- 2 ^ 53, which is so for the weights that the code accepts.
use Prim.Native.Nat.{suc, ◌-◌}
use flagship_platform.Shared.{ℕ, ◌+◌, ◌*◌, ◌^◌, ◌%◌, Bool, true, false, ◌&&◌, ◌||◌, ◌==◌}
use flagship_platform.Shared.Int.{ℤ, pos, negsuc, pos_part, neg_part, ltb_ℤ, ◌+ℤ◌}

pub data Number : Type 0 where
  nan infinity neg_infinity : Number
  finite : ℤ → Number

-- The number 1. It stays shut, since its digits never matter.
unfoldable pub unit : ℕ
unit = 2 ^ 1074

unfoldable pub of_nat : ℕ → Number
of_nat n = finite (pos (n * unit))

abbrev eq_ℤ : ℤ → ℤ → Bool
eq_ℤ a b = (pos_part a == pos_part b) && (neg_part a == neg_part b)

-- a === b
unfoldable pub num_eq : Number → Number → Bool
num_eq (finite a) (finite b) = eq_ℤ a b
num_eq infinity infinity = true
num_eq neg_infinity neg_infinity = true
num_eq _ _ = false

-- a < b
unfoldable pub num_lt : Number → Number → Bool
num_lt (finite a) (finite b) = ltb_ℤ a b
num_lt (finite a) infinity = true
num_lt neg_infinity (finite b) = true
num_lt neg_infinity infinity = true
num_lt _ _ = false

-- a <= b
unfoldable pub num_le : Number → Number → Bool
unfolding num_eq num_lt
num_le a b = num_lt a b || num_eq a b

-- a + b
unfoldable pub num_add : Number → Number → Number
unfolding ◌+ℤ◌
num_add (finite a) (finite b) = finite (a +ℤ b)
num_add nan b = nan
num_add a nan = nan
num_add infinity neg_infinity = nan
num_add neg_infinity infinity = nan
num_add infinity b = infinity
num_add neg_infinity b = neg_infinity
num_add (finite a) infinity = infinity
num_add (finite a) neg_infinity = neg_infinity

-- Number.isFinite(a)
unfoldable pub is_finite : Number → Bool
is_finite (finite a) = true
is_finite _ = false

-- Number.isInteger(a)
unfoldable pub is_integer : Number → Bool
unfolding unit
is_integer (finite a) = (pos_part a + neg_part a) % unit == 0
is_integer _ = false

unfoldable pub of_int : ℤ → Number
of_int (pos n) = finite (pos (n * unit))
of_int (negsuc n) = finite (negsuc (suc n * unit - 1))
