-- ===== src/Base/Numbers.antt =====
-- The language's `number` as the validators see it, and canonical decimal texts of integers.
use Prim.Native.Nat.{ℕ, ◌+◌, ◌-◌, ◌*◌}
use mathlib.Core.Bool.{Bool, true, false, ◌&&◌}
use mathlib.Core.List.{List, [], ◌∷◌}
use stellar_agentic.Base.Tests.{leb}
use stellar_agentic.Base.Int.{ℤ, pos, negsuc, leb_ℤ, ltb_ℤ}

-- `nan` stands for the numbers that are no integers; comparisons with it are false.
pub data Number : Type 0 where
  whole : ℤ → Number
  nan : Number

-- `Number.isInteger`
abbrev pub is_integer : Number → Bool
is_integer (whole z) = true
is_integer nan = false

-- 2 ^ 53 - 1
abbrev pub max_safe_integer : ℕ
max_safe_integer = 9007199254740991

-- `Number.isSafeInteger`
abbrev pub is_safe_integer : Number → Bool
is_safe_integer (whole z) = leb_ℤ z (pos max_safe_integer) && leb_ℤ (negsuc 9007199254740990) z
is_safe_integer nan = false

abbrev pub leb_number : Number → Number → Bool
leb_number (whole a) (whole b) = leb_ℤ a b
leb_number _ _ = false

abbrev pub ltb_number : Number → Number → Bool
ltb_number (whole a) (whole b) = ltb_ℤ a b
ltb_number _ _ = false

-- The value of a number that a validator has let through as a non-negative integer.
abbrev pub natural : Number → ℕ
natural (whole (pos n)) = n
natural _ = 0

-- A number that is compared with integers alone: one that is finite is seen by its floor and by whether
-- it is a fraction.
pub data Real : Type 0 where
  finite : (floor : ℤ) (is_fraction : Bool) → Real
  infinite : (is_positive : Bool) → Real
  not_a_number : Real

abbrev pub integer : ℤ → Real
integer z = finite z false

-- `x < n`
abbrev pub below : Real → ℤ → Bool
below (finite z b) n = ltb_ℤ z n
below (infinite true) n = false
below (infinite false) n = true
below not_a_number n = false

-- `x <= n`
abbrev pub at_most_integer : Real → ℤ → Bool
at_most_integer (finite z true) n = ltb_ℤ z n
at_most_integer (finite z false) n = leb_ℤ z n
at_most_integer (infinite true) n = false
at_most_integer (infinite false) n = true
at_most_integer not_a_number n = false

-- A text is the list of its codes.
abbrev pub Bytes : Type 0
Bytes = List ℕ

abbrev pub is_digit : ℕ → Bool
is_digit c = leb b'0' c && leb c b'9'

abbrev pub all_digits : Bytes → Bool
all_digits [] = true
all_digits (c ∷ cs) = is_digit c && all_digits cs

-- `/^[1-9][0-9]*$/`
abbrev pub is_positive_canonical : Bytes → Bool
is_positive_canonical [] = false
is_positive_canonical (c ∷ cs) = leb b'1' c && leb c b'9' && all_digits cs

digits_value : ℕ → Bytes → ℕ
digits_value acc [] = acc
digits_value acc (c ∷ cs) = digits_value (acc * 10 + (c - b'0')) cs

-- `BigInt` of a text of digits.
unfoldable pub bigint : Bytes → ℕ
unfolding digits_value
bigint s = digits_value 0 s
