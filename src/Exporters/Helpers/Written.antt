-- ===== src/Exporters/Helpers/Written.antt =====
-- A port range, written by py2fw/exporters/_helpers.py and read by py2fw/compiler/builder.py.
use Prim.Native.String.{◌++◌, ◌∷◌ as put_char}
use package.text.Mathlib.TextLemmas.{nil-append, cons-append, append-nil}
use py2fw.Utils.Digits.{Numerals}
use py2fw.Common.{
  ℕ, some, ◌≡◌, refl, ap, ◌∙◌, inl, inr, [], ◌∷◌, arith, str_ℕ, text, ℕ_eq, Bool-cases,
}
use py2fw.Utils.Digits.Decimal.{
  int-str_ℕ, isdigit-str_ℕ, all_digits-str_ℕ, split_digits, lacks_separator,
}
use py2fw.Parser.Schema.{written}
use py2fw.Compiler.PortRange.{PortRange, is_single}
use py2fw.Compiler.PortSpec.{from_pairs}
use py2fw.Compiler.Builder.{spec_of_ends, port_spec}
use py2fw.Exporters.Helpers.{port_range_token}

to_int-str_ℕ : (numerals : Numerals) (n : ℕ) → numerals.to_int (str_ℕ n) ≡ some n
to_int-str_ℕ numerals n = numerals.to_int-ascii (str_ℕ n) (isdigit-str_ℕ n) ∙ int-str_ℕ n

-- A port range that is written with a dash, as a port or as its two ends, is read back by the
-- builder as the specification of just this range.
pub port_spec-port_range_token :
    (numerals : Numerals) (r : PortRange)
    → port_spec numerals (written (port_range_token r "-")) ≡ from_pairs ((r.start, r.end) ∷ [])
unfolding port_spec port_range_token spec_of_ends
port_spec-port_range_token numerals r = elim (Bool-cases (is_single r)) [
  | inl e ↦
      let same : r.start ≡ r.end = (ℕ_eq.equal_iff r.start r.end).0 e in
      let plain = lacks_separator b'-' refl (str_ℕ r.start) (all_digits-str_ℕ r.start) in
      ground (arith, e, plain, to_int-str_ℕ numerals r.start, same)
  | inr e ↦
      let shape : str_ℕ r.start ++ ("-" ++ (str_ℕ r.end ++ ""))
          ≡ str_ℕ r.start ++ put_char "-" (str_ℕ r.end) =
        ap (λ t. str_ℕ r.start ++ t)
          (cons-append "-" "" (str_ℕ r.end ++ "")
            ∙ ap (put_char "-") (nil-append (str_ℕ r.end ++ "") ∙ append-nil (str_ℕ r.end))) in
      let (before, after, found) =
        split_digits "-" refl (str_ℕ r.start) (str_ℕ r.end) (all_digits-str_ℕ r.start) in
      ground (
        arith,
        e,
        shape,
        before,
        after,
        found,
        to_int-str_ℕ numerals r.start,
        to_int-str_ℕ numerals r.end,
      )
]
