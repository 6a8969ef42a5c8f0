-- ===== src/Compiler/Builder/Ports.antt =====
-- A validated port builds: py2fw/compiler/validator.py against py2fw/compiler/builder.py.
use py2fw.Common.{
  ℕ, ◌≤◌, String, ◌≡◌, refl, ◌∙◌, sym, Bool, true, false, ◌&&◌, Option, some, List, [], ◌∷◌, any,
  all, map, leb, ltb, String_eq, arith, Option-cases, Bool-cases, inl, inr,
}
use py2fw.Utils.Digits.{Numerals, has_char, before_char, after_char}
use py2fw.Parser.SourceMap.{SourceMap}
use py2fw.Parser.Schema.{PortValue, absent, number, written, several}
use py2fw.Compiler.PortSpec
use py2fw.Compiler.PortSpec.{PortSpec, from_pairs}
use py2fw.Compiler.PortSpec.Pairs.{pairs_cover, contains-from_pairs, from_pairs_fails}
use py2fw.Compiler.Issues.{ValidationIssue, ok, check_range, check_ends, validate_port}
use py2fw.Compiler.Builder.{spec_of_ends, port_spec}

abbrev in_range : ℕ → Bool
in_range port = leb 1 port && leb port 65535

-- A specification has been built, and holds only real ports.
abbrev pub Builds : Option PortSpec → Type 0
Builds built =
    (spec : PortSpec) × (built ≡ some spec)
    × ((port : ℕ) → PortSpec.contains spec port ≡ true → (1 ≤ port) × (port ≤ 65535))

check_range-ok :
    (source : SourceMap) (name : String) (ports : List ℕ)
    → ok (check_range source name ports) ≡ true
    → all in_range ports ≡ true
unfolding check_range
check_range-ok source name [] h = refl
check_range-ok source name (p ∷ ports) h = ground (arith, h, check_range-ok source name ports)

pairs_in_range :
    (pairs : List (ℕ × ℕ)) (port : ℕ)
    → all (λ (b : ℕ × ℕ). in_range b.0 && in_range b.1) pairs ≡ true
    → pairs_cover pairs port ≡ true
    → (1 ≤ port) × (port ≤ 65535)
pairs_in_range [] port h k = absurd (ground (arith, k))
pairs_in_range ((a, b) ∷ pairs) port h k = elim (Bool-cases (leb a port && leb port b)) [
  | inl here ↦ (ground (arith, h, here), ground (arith, h, here))
  | inr there ↦ pairs_in_range pairs port (ground (arith, h)) (ground (arith, k, there))
]

from_pairs-Builds :
    (pairs : List (ℕ × ℕ))
    → any (λ (b : ℕ × ℕ). ltb b.1 b.0) pairs ≡ false
    → all (λ (b : ℕ × ℕ). in_range b.0 && in_range b.1) pairs ≡ true
    → Builds (from_pairs pairs)
from_pairs-Builds pairs ordered real = elim (Option-cases (from_pairs pairs)) [
  | inl e ↦ absurd (ground (arith, e, ordered, from_pairs_fails pairs))
  | inr (spec, e) ↦ (
    spec,
    e,
    λ port h. pairs_in_range pairs port real (sym (contains-from_pairs pairs spec e port) ∙ h),
  )
]

singles_ordered :
    (ports : List ℕ) → any (λ (b : ℕ × ℕ). ltb b.1 b.0) (map (λ (p : ℕ). (p, p)) ports) ≡ false
singles_ordered [] = refl
singles_ordered (p ∷ ports) = ground (arith, singles_ordered ports)

singles_in_range :
    (ports : List ℕ)
    → all in_range ports ≡ true
    → all (λ (b : ℕ × ℕ). in_range b.0 && in_range b.1) (map (λ (p : ℕ). (p, p)) ports) ≡ true
singles_in_range [] h = refl
singles_in_range (p ∷ ports) h = ground (arith, h, singles_in_range ports)

module _ (numerals : Numerals) (source : SourceMap) (name : String) where
  ends-Builds :
      (first second : String) (issues : List ValidationIssue)
      → check_ends numerals source name first second ≡ some issues
      → ok issues ≡ true
      → Builds (spec_of_ends (numerals.to_int first) (numerals.to_int second))
  unfolding check_ends spec_of_ends
  ends-Builds first second issues h k = elim (Option-cases (numerals.to_int first)) [
    | inl a ↦ absurd (ground (arith, h, k, a))
    | inr (start, a) ↦ elim (Option-cases (numerals.to_int second)) [
      | inl b ↦ absurd (ground (arith, h, k, a, b))
      | inr (end, b) ↦
          rw (a, b)
            (from_pairs-Builds ((start, end) ∷ []) (ground (arith, h, k, a, b))
              (ground (arith, h, k, a, b)))
    ]
  ]

  written-Builds :
      (value : String) (issues : List ValidationIssue)
      → validate_port numerals source name (written value) ≡ some issues
      → ok issues ≡ true
      → Builds (port_spec numerals (written value))
  unfolding validate_port port_spec spec_of_ends
  written-Builds value issues h k = elim (Bool-cases (has_char b'-' value)) [
    | inl dash ↦
        rw dash
          (ends-Builds (before_char b'-' value) (after_char b'-' value) issues (rw dash at h) k)
    | inr plain ↦ elim (Option-cases (numerals.to_int value)) [
      | inl e ↦ absurd (ground (arith, h, k, plain, e))
      | inr (port, e) ↦
          rw (plain, e)
            (from_pairs-Builds ((port, port) ∷ []) (ground (arith, h, k, plain, e))
              (ground (arith, h, k, plain, e)))
    ]
  ]

  -- A port value that the validator reads without a ValueError, and finds no error in, builds a
  -- specification, and all of its ports are between 1 and 65535.
  pub validate_port-Builds :
      (value : PortValue) (issues : List ValidationIssue)
      → validate_port numerals source name value ≡ some issues
      → ok issues ≡ true
      → (spec : PortSpec) × (port_spec numerals value ≡ some spec)
        × ((port : ℕ) → PortSpec.contains spec port ≡ true → (1 ≤ port) × (port ≤ 65535))
  unfolding validate_port port_spec
  validate_port-Builds absent issues h k =
      (PortSpec.no_ports, refl, λ port l. absurd (ground (arith, l)))
  validate_port-Builds (number port) issues h k =
      from_pairs-Builds ((port, port) ∷ []) (singles_ordered (port ∷ [])) (
        singles_in_range (port ∷ [])
          (check_range-ok source name (port ∷ []) (ground (arith, h, k))))
  validate_port-Builds (several ports) issues h k =
      from_pairs-Builds (map (λ (p : ℕ). (p, p)) ports) (singles_ordered ports)
        (singles_in_range ports (check_range-ok source name ports (ground (arith, h, k))))
  validate_port-Builds (written value) issues h k = written-Builds value issues h k
