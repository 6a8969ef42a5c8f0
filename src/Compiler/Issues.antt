-- ===== src/Compiler/Issues.antt =====
-- The issues of py2fw/compiler/validator.py, and its checks of a port. A result is the list of
-- its issues, in the order of `add`.
use py2fw.Common.{
  ℕ, String, Bool, true, false, not, ◌||◌, Option, none, some, List, [], ◌∷◌, ◌++◌, any,
  if◌then◌else◌, ltb, ◌==◌, ℕ_eq, String_eq, text, str_ℕ,
}
use py2fw.Utils.Digits.{Numerals, has_char, before_char, after_char}
use py2fw.Parser.SourceMap
use py2fw.Parser.SourceMap.{SourceMap}
use py2fw.Parser.Schema.{PortValue, absent, number, written, several}

pub record ValidationIssue : Type 0 where
  pub severity : String
  pub message : String
  pub location : String
  pub line : Option ℕ

abbrev pub ok : List ValidationIssue → Bool
ok issues = not (any (λ issue. issue.severity == "error") issues)

-- `if test: result.add(severity, message, location)`
unfoldable pub add_if : Bool → SourceMap → String → String → String → List ValidationIssue
add_if true source severity message location =
    (record {
      severity = severity;
      message = message;
      location = location;
      line = SourceMap.line source location;
    })
    ∷ []
add_if false source severity message location = []

pub port_location : String → String
port_location name = text ("services." ∷ name ∷ ".port" ∷ [])

-- The loop over the ports at the end of `_validate_port`.
unfoldable pub check_range : SourceMap → String → List ℕ → List ValidationIssue
unfolding add_if port_location
check_range source name [] = []
check_range source name (port ∷ ports) =
    add_if (ltb port 1 || ltb 65535 port) source "error"
      (text ("port out of range: " ∷ str_ℕ port ∷ [])) (port_location name)
    ++ check_range source name ports

-- The two ends of a written range; `none` is the ValueError of `int`.
unfoldable pub check_ends :
    Numerals → SourceMap → String → String → String → Option (List ValidationIssue)
unfolding check_range port_location
check_ends numerals source name start_raw end_raw =
    if not (numerals.is_numeral start_raw) || not (numerals.is_numeral end_raw)
    then some (add_if true source "error" "invalid port range" (port_location name))
    else elim (numerals.to_int start_raw) [
      | none ↦ none
      | some start ↦ (elim (numerals.to_int end_raw) [
        | none ↦ none
        | some end ↦ some (
            if ltb end start
            then add_if true source "error" "port range start must be <= end" (port_location name)
            else check_range source name (start ∷ end ∷ []))
      ])
    ]

-- `_validate_port`; `none` is the ValueError of `int`, for a text with a digit that is no decimal
-- one.
unfoldable pub validate_port :
    Numerals → SourceMap → String → PortValue → Option (List ValidationIssue)
unfolding check_ends has_char before_char after_char
validate_port numerals source name absent = some []
validate_port numerals source name (number port) = some (check_range source name (port ∷ []))
validate_port numerals source name (several ports) = some (check_range source name ports)
validate_port numerals source name (written value) =
    if has_char b'-' value
    then check_ends numerals source name (before_char b'-' value) (after_char b'-' value)
    else if numerals.is_numeral value
    then elim (numerals.to_int value) [
      | none ↦ none
      | some port ↦ some (check_range source name (port ∷ []))
    ]
    else some (add_if true source "error" "invalid port value" (port_location name))
