-- ===== src/Compiler/PortRange.antt =====
-- The class PortRange of py2fw/compiler/ir.py.
use py2fw.Common.{
  ℕ, ◌≤◌, ◌≡◌, Bool, true, ◌&&◌, ◌||◌, Option, none, some, ltb, leb, if◌then◌else◌, ◌==◌, ℕ_eq, Eq,
  ◌↔◌, arith,
}

-- An inclusive port range. The class refuses a start above the end, see `port_range`.
pub record PortRange : Type 0 where
  pub start : ℕ
  pub end : ℕ

abbrev pub IsValid : PortRange → Type 0
IsValid r = r.start ≤ r.end

-- The constructor with `__post_init__`; `none` is the ValueError.
unfoldable pub port_range : ℕ → ℕ → Option PortRange
port_range start end = if ltb end start then none else some (record { start = start; end = end })

abbrev pub is_single : PortRange → Bool
is_single r = r.start == r.end

abbrev pub contains : PortRange → ℕ → Bool
contains r port = leb r.start port && leb port r.end

abbrev pub overlaps : PortRange → PortRange → Bool
overlaps a b = leb a.start b.end && leb b.start a.end

-- The order of `dataclass(order=True)`: by the start, then by the end.
abbrev pub le : PortRange → PortRange → Bool
le a b = ltb a.start b.start || (a.start == b.start && leb a.end b.end)

abbrev pub range_beq : PortRange → PortRange → Bool
range_beq a b = a.start == b.start && a.end == b.end

pub range_beq_iff : (a b : PortRange) → (range_beq a b ≡ true) ↔ (a ≡ b)
range_beq_iff a b = ground arith

instance abbrev pub PortRange_eq : Eq PortRange
PortRange_eq = record { equal = range_beq; equal_iff = range_beq_iff }
