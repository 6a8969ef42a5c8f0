-- ===== src/Utils/Digits/Decimal.antt =====
-- Decimal numbers, written and read: `str` and `int` as py2fw/utils and its clients use them.
use Prim.Native.Char.{Char, code}
use Prim.Native.String.{String, [], ◌∷◌, ◌++◌}
use package.text.Mathlib.TextLemmas.{nil-append, cons-append}
use py2fw.Utils.Emptiness.{left_nonempty}
use py2fw.Common.{
  ℕ, zero, suc, ◌+◌, ◌-◌, ◌*◌, ◌/◌, ◌%◌, ◌≤◌, ◌<◌, ◌≡◌, refl, ap, ◌∙◌, inl, inr, true, false, ◌&&◌,
  some, arith, ltb, digit, digits_onto, str_ℕ, ◌==◌, String_eq, ℕ_eq, Bool-cases,
}
use py2fw.Utils.Digits.{
  is_digit, all_digits, isdigit, number_from, int, has_char, before_char, after_char,
}

-- A property of the ten digits.
below_ten :
    (P : ℕ → Type 0)
    → P 0 × P 1 × P 2 × P 3 × P 4 × P 5 × P 6 × P 7 × P 8 × P 9
    → (d : ℕ) → d < 10
    → P d
below_ten P (a, b, c, d, e, f, g, h, i, j) zero lt = a
below_ten P (a, b, c, d, e, f, g, h, i, j) (suc zero) lt = b
below_ten P (a, b, c, d, e, f, g, h, i, j) (suc (suc zero)) lt = c
below_ten P (a, b, c, d, e, f, g, h, i, j) (suc (suc (suc zero))) lt = d
below_ten P (a, b, c, d, e, f, g, h, i, j) (suc (suc (suc (suc zero)))) lt = e
below_ten P (a, b, c, d, e, f, g, h, i, j) (suc (suc (suc (suc (suc zero))))) lt = f
below_ten P (a, b, c, d, e, f, g, h, i, j) (suc (suc (suc (suc (suc (suc zero)))))) lt = g
below_ten P (a, b, c, d, e, f, g, h, i, j) (suc (suc (suc (suc (suc (suc (suc zero))))))) lt = h
below_ten P (a, b, c, d, e, f, g, h, i, j) (suc (suc (suc (suc (suc (suc (suc (suc zero)))))))) lt =
    i
below_ten P (a, b, c, d, e, f, g, h, i, j)
      (suc (suc (suc (suc (suc (suc (suc (suc (suc zero))))))))) lt =
    j
below_ten P (a, b, c, d, e, f, g, h, i, j)
      (suc (suc (suc (suc (suc (suc (suc (suc (suc (suc n)))))))))) lt =
    absurd (omega (arith, lt))

number_from-append :
    (m : ℕ) (s rest : String) → number_from m (s ++ rest) ≡ number_from (number_from m s) rest
unfolding number_from
number_from-append m [] rest = ap (number_from m) (nil-append rest)
number_from-append m (c ∷ s) rest =
    ap (number_from m) (cons-append c s rest) ∙ number_from-append (m * 10 + (code c - b'0')) s rest

all_digits-append : (s rest : String) → all_digits (s ++ rest) ≡ (all_digits s && all_digits rest)
unfolding all_digits
all_digits-append [] rest = ap all_digits (nil-append rest)
all_digits-append (c ∷ s) rest =
    ap all_digits (cons-append c s rest) ∙ ground (arith, all_digits-append s rest)

number_from-digit : (m d : ℕ) → d < 10 → number_from m (digit d) ≡ m * 10 + d
unfolding number_from digit
number_from-digit m =
    below_ten (λ d. number_from m (digit d) ≡ m * 10 + d)
      (refl, refl, refl, refl, refl, refl, refl, refl, refl, refl)

all_digits-digit : (d : ℕ) → d < 10 → all_digits (digit d) ≡ true
unfolding all_digits digit
all_digits-digit =
    below_ten (λ d. all_digits (digit d) ≡ true)
      (refl, refl, refl, refl, refl, refl, refl, refl, refl, refl)

-- A digit in front of a text adds itself as the last digit.
read_digit :
    (m d : ℕ) (rest : String)
    → d < 10
    → (number_from m (digit d ++ rest) ≡ number_from (m * 10 + d) rest)
      × (all_digits (digit d ++ rest) ≡ all_digits rest)
read_digit m d rest lt = (
  number_from-append m (digit d) rest ∙ ap (λ k. number_from k rest) (number_from-digit m d lt),
  ground (arith, all_digits-append (digit d) rest, all_digits-digit d lt),
)

-- What is read behind the digits of a number, when there is fuel for them.
digits_onto-read :
    (fuel n : ℕ) (rest : String)
    → n < fuel
    → (number_from 0 (digits_onto fuel n rest) ≡ number_from n rest)
      × (all_digits (digits_onto fuel n rest) ≡ all_digits rest)
unfolding digits_onto
digits_onto-read zero n rest lt = absurd (omega (arith, lt))
digits_onto-read (suc fuel) n rest lt = elim (Bool-cases (ltb n 10)) [
  | inl e ↦
      let small : n < 10 = ground (arith, e) in
      let (number, digits) = read_digit 0 n rest small in
      let zero_first : 0 * 10 + n ≡ n = omega arith in
      (
        ground (arith, e, number) ∙ ap (λ k. number_from k rest) zero_first,
        ground (arith, e, digits),
      )
  | inr e ↦
      let large : 10 ≤ n = ground (arith, e) in
      let last : n % 10 < 10 = omega arith in
      let (number, digits) =
        digits_onto-read fuel (n / 10) (digit (n % 10) ++ rest) (omega (arith, large, lt)) in
      let whole : n / 10 * 10 + n % 10 ≡ n = omega arith in
      let (number₁, digits₁) = read_digit (n / 10) (n % 10) rest last in
      (
        ground (arith, e, number) ∙ (number₁ ∙ ap (λ k. number_from k rest) whole),
        ground (arith, e, digits) ∙ digits₁,
      )
]

digit_nonempty : (d : ℕ) → d < 10 → (digit d == "") ≡ false
unfolding digit
digit_nonempty =
    below_ten (λ d. (digit d == "") ≡ false)
      (refl, refl, refl, refl, refl, refl, refl, refl, refl, refl)

-- The digits before a text are a text that is not empty.
digits_onto_nonempty :
    (fuel n : ℕ) (rest : String) → n < fuel → (digits_onto fuel n rest == "") ≡ false
unfolding digits_onto
digits_onto_nonempty zero n rest lt = absurd (omega (arith, lt))
digits_onto_nonempty (suc fuel) n rest lt = elim (Bool-cases (ltb n 10)) [
  | inl e ↦
      let small : n < 10 = ground (arith, e) in
      let first = left_nonempty (digit n) rest (digit_nonempty n small) in ground (arith, e, first)
  | inr e ↦
      let large : 10 ≤ n = ground (arith, e) in
      let more =
        digits_onto_nonempty fuel (n / 10) (digit (n % 10) ++ rest) (omega (arith, large, lt)) in
      ground (arith, e, more)
]

-- Every number that `str` writes is read back by `int`.
pub int-str_ℕ : (n : ℕ) → int (str_ℕ n) ≡ some n
unfolding int isdigit str_ℕ number_from all_digits
int-str_ℕ n =
    let enough : n < n + 1 = omega arith in
    let (number, digits) = digits_onto-read (n + 1) n [] enough in
    let nonempty = digits_onto_nonempty (n + 1) n [] enough in
    ground (arith, number, digits, nonempty)

pub isdigit-str_ℕ : (n : ℕ) → isdigit (str_ℕ n) ≡ true
unfolding isdigit str_ℕ all_digits
isdigit-str_ℕ n =
    let enough : n < n + 1 = omega arith in
    let (_, digits) = digits_onto-read (n + 1) n [] enough in
    let nonempty = digits_onto_nonempty (n + 1) n [] enough in ground (arith, digits, nonempty)

-- A digit is no other character.
not_digit : (k c : ℕ) → is_digit k ≡ false → is_digit c ≡ true → (c == k) ≡ false
not_digit k c h d = elim (Bool-cases (c == k)) [
  | inr e ↦ e
  | inl e ↦ absurd (ground (arith, h, d, ap is_digit ((ℕ_eq.equal_iff c k).0 e)))
]

-- A text of digits, split at a character behind it that is no digit.
pub split_digits :
    (separator : Char)
    → is_digit (code separator) ≡ false
    → (s rest : String) → all_digits s ≡ true
    → (before_char (code separator) (s ++ (separator ∷ rest)) ≡ s)
      × (after_char (code separator) (s ++ (separator ∷ rest)) ≡ rest)
      × (has_char (code separator) (s ++ (separator ∷ rest)) ≡ true)
unfolding before_char after_char has_char all_digits
split_digits separator h [] rest d =
    let same = (ℕ_eq.equal_iff (code separator) (code separator)).1 refl in
    rw (nil-append (separator ∷ rest))
      (ground (arith, same), ground (arith, same), ground (arith, same))
split_digits separator h (c ∷ s) rest d =
    let (before, after, found) = split_digits separator h s rest (ground (arith, d)) in
    let differ = not_digit (code separator) (code c) h (ground (arith, d)) in
    rw (cons-append c s (separator ∷ rest))
      (ground (arith, differ, before), ground (arith, differ, after), ground (arith, differ, found))

pub all_digits-str_ℕ : (n : ℕ) → all_digits (str_ℕ n) ≡ true
unfolding str_ℕ all_digits
all_digits-str_ℕ n = (digits_onto-read (n + 1) n [] (omega arith)).1

pub lacks_separator :
    (k : ℕ) → is_digit k ≡ false → (s : String) → all_digits s ≡ true → has_char k s ≡ false
unfolding has_char all_digits
lacks_separator k h [] d = refl
lacks_separator k h (c ∷ s) d =
    ground
      (arith, not_digit k (code c) h (ground (arith, d)), lacks_separator k h s (ground (arith, d)))
