-- ===== src/Verify/Tokens.antt =====
-- The three regular expressions of py2fw/verify/config.py. Each one takes characters of a class
-- only and looks around for characters of the same class, so that its matches are the longest
-- runs of the class that have the shape. What `\d` and `\w` hold of is a parameter.
use Prim.Native.Char.{code}
use Prim.Native.String.{String, [], ◌∷◌, ◌++◌}
use py2fw.Common.{ℕ, suc, ◌-◌, Bool, false, not, ◌&&◌, ◌||◌, List, leb, ◌==◌, if◌then◌else◌, ℕ_eq}
use py2fw.Utils.Digits.{is_digit}

-- The characters that `\d` and `\w` hold of, by their codes.
pub record Classes : Type 0 where
  pub digit : ℕ → Bool
  pub word : ℕ → Bool

-- The characters at the beginning that are in the class.
unfoldable pub take_run : (ℕ → Bool) → String → String
take_run class [] = []
take_run class (c ∷ rest) =
    let more = take_run class rest in if class (code c) then c ∷ more else []

-- The runs with the shape, where `inside` says whether the character before is in the class.
unfoldable pub runs_from : (ℕ → Bool) → (String → Bool) → Bool → String → List String
unfolding take_run
runs_from class shape inside [] = List.[]
runs_from class shape inside (c ∷ rest) =
    let later = runs_from class shape (class (code c)) rest in
    let run = take_run class (c ∷ rest) in
    if class (code c) && not inside && shape run then List.◌∷◌ run later else later

-- `pattern.findall(value)`
unfoldable pub findall : (ℕ → Bool) → (String → Bool) → String → List String
unfolding runs_from
findall class shape value = runs_from class shape false value

-- The text with a space for each run of the shape; `dropping` says whether the character before
-- belongs to such a run.
unfoldable pub blank_from : (ℕ → Bool) → (String → Bool) → Bool → Bool → String → String
unfolding take_run
blank_from class shape inside dropping [] = []
blank_from class shape inside dropping (c ∷ rest) =
    let here = class (code c) in
    let starts = here && not inside in
    let dropped = if starts then shape (take_run class (c ∷ rest)) else here && dropping in
    let later = blank_from class shape here dropped rest in
    if dropped then (if starts then " " ++ later else later) else c ∷ later

-- `pattern.sub(" ", value)`
unfoldable pub blank_out : (ℕ → Bool) → (String → Bool) → String → String
unfolding blank_from
blank_out class shape value = blank_from class shape false false value

is_hex : ℕ → Bool
is_hex c = is_digit c || (leb b'a' c && leb c b'f') || (leb b'A' c && leb c b'F')

module _ (classes : Classes) where
  abbrev pub v4_char : ℕ → Bool
  v4_char c = classes.digit c || c == b'.'

  abbrev pub v6_char : ℕ → Bool
  v6_char c = classes.word c || c == b':'

  abbrev pub number_char : ℕ → Bool
  number_char c = classes.word c || c == b'.'

  -- One to three digits, `dots` times a point and as many again; `n` digits stand before.
  unfoldable pub v4_shape : ℕ → ℕ → String → Bool
  v4_shape dots n [] = dots == 0 && (leb 1 n && leb n 3)
  v4_shape dots n (c ∷ rest) =
      let longer = v4_shape dots (suc n) rest in
      let next = v4_shape (dots - 1) 0 rest in
      if classes.digit (code c)
      then longer
      else code c == b'.' && (leb 1 dots && (leb 1 n && leb n 3)) && next

  -- `groups` times one to four hexadecimal digits and a colon, then any of these.
  unfoldable pub v6_shape : ℕ → ℕ → String → Bool
  unfolding is_hex
  v6_shape groups n [] = groups == 0
  v6_shape groups n (c ∷ rest) =
      let longer = v6_shape groups (suc n) rest in
      let next = v6_shape (groups - 1) 0 rest in
      if is_hex (code c)
      then longer
      else code c == b':' && (groups == 0 || (leb 1 n && leb n 4)) && next

  -- One to five digits; `n` stand before.
  unfoldable pub number_shape : ℕ → String → Bool
  number_shape n [] = leb 1 n && leb n 5
  number_shape n (c ∷ rest) = classes.digit (code c) && number_shape (suc n) rest

  -- `_IPV4.findall(value)`
  unfoldable pub v4_tokens : String → List String
  unfolding findall v4_shape
  v4_tokens value = findall v4_char (v4_shape 3 0) value

  -- `_IPV6.findall(value)`
  unfoldable pub v6_tokens : String → List String
  unfolding findall v6_shape
  v6_tokens value = findall v6_char (v6_shape 2 0) value

  -- `_NUMBER.findall(_IPV6.sub(" ", _IPV4.sub(" ", value)))`
  unfoldable pub number_tokens : String → List String
  unfolding findall blank_out v4_shape v6_shape number_shape
  number_tokens value =
      findall number_char (number_shape 0)
        (blank_out v6_char (v6_shape 2 0) (blank_out v4_char (v4_shape 3 0) value))
