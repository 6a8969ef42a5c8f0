-- ===== src/Utils/Emptiness.antt =====
-- When a joined text is empty.
use package.text.Mathlib.TextEquality.{eq_iff}
use package.text.Mathlib.TextLemmas.{append-eq-nil_iff}
use Prim.Native.String.{String, ◌++◌}
use py2fw.Common.{false, ◌≡◌, ◌==◌, String_eq, Bool-cases, inl, inr, arith}

pub left_nonempty : (a b : String) → (a == "") ≡ false → ((a ++ b) == "") ≡ false
left_nonempty a b h = elim (Bool-cases ((a ++ b) == "")) [
  | inr other ↦ other
  | inl both ↦
      let (left, _) = (append-eq-nil_iff {p = a} {q = b}).0 ((eq_iff (a ++ b) "").0 both) in
      absurd (ground (arith, h, (eq_iff a "").1 left))
]

pub right_nonempty : (a b : String) → (b == "") ≡ false → ((a ++ b) == "") ≡ false
right_nonempty a b h = elim (Bool-cases ((a ++ b) == "")) [
  | inr other ↦ other
  | inl both ↦
      let (_, right) = (append-eq-nil_iff {p = a} {q = b}).0 ((eq_iff (a ++ b) "").0 both) in
      absurd (ground (arith, h, (eq_iff b "").1 right))
]
