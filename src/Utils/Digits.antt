-- ===== src/Utils/Digits.antt =====
-- Characters of a text as numbers: digit strings, and a split at the first of a character.
pub mod Decimal
use Prim.Native.Char.{code}
use Prim.Native.String.{String, [], ◌∷◌}
use py2fw.Common.{
  ℕ, ◌+◌, ◌-◌, ◌*◌, Bool, true, false, not, ◌&&◌, ◌||◌, Option, none, some, List, leb,
  if◌then◌else◌, ◌==◌, ◌≡◌, ℕ_eq, String_eq,
}

abbrev pub codes : String → List ℕ
codes [] = List.[]
codes (c ∷ rest) = List.◌∷◌ (code c) (codes rest)

-- `chr in value`
unfoldable pub has_char : ℕ → String → Bool
has_char k [] = false
has_char k (c ∷ rest) = code c == k || has_char k rest

abbrev pub is_digit : ℕ → Bool
is_digit c = leb b'0' c && leb c b'9'

unfoldable pub all_digits : String → Bool
all_digits [] = true
all_digits (c ∷ rest) = is_digit (code c) && all_digits rest

-- `value.isdigit()`, for ASCII
unfoldable pub isdigit : String → Bool
unfolding all_digits
isdigit value = not (value == "") && all_digits value

unfoldable pub number_from : ℕ → String → ℕ
number_from n [] = n
number_from n (c ∷ rest) = number_from (n * 10 + (code c - b'0')) rest

-- `int(value)`, for digit strings; `none` is the ValueError
unfoldable pub int : String → Option ℕ
unfolding number_from isdigit
int value = if isdigit value then some (number_from 0 value) else none

-- Python's numerals, which go beyond ASCII: a text such as a superscript two has a digit that `int`
-- refuses. `int` is documented to read the digits of ASCII as a decimal number; its
-- limit on the number of digits is left out.
pub record Numerals : Type 0 where
  -- `value.isdigit()`
  pub is_numeral : String → Bool
  -- `int(value)`; `none` is the ValueError, or a number below 0, which no port specification takes
  pub to_int : String → Option ℕ
  pub to_int-ascii : (value : String) → isdigit value ≡ true → to_int value ≡ int value

-- `value.split("-", 1)`, for a value with the character
unfoldable pub before_char : ℕ → String → String
before_char k [] = []
before_char k (c ∷ rest) = let more = before_char k rest in if code c == k then [] else c ∷ more

unfoldable pub after_char : ℕ → String → String
after_char k [] = []
after_char k (c ∷ rest) = let more = after_char k rest in if code c == k then rest else more

-- `value.startswith(prefix)`
unfoldable pub starts_with : String → String → Bool
starts_with [] value = true
starts_with (c ∷ prefix) [] = false
starts_with (c ∷ prefix) (d ∷ value) = code c == code d && starts_with prefix value
