-- ===== src/Compiler/PortSpec.antt =====
-- normalize_ranges and the class PortSpec of py2fw/compiler/ir.py.
pub mod Members
pub mod Canonical
pub mod Pairs
pub mod Overlaps
use Prim.Native.Nat.{max}
use py2fw.Common.{
  ℕ, ◌+◌, Bool, true, false, ◌&&◌, ◌||◌, Option, none, some, List, [], ◌∷◌, any, is_empty, select,
  leb, if◌then◌else◌, ◌==◌, list_eq,
}
use py2fw.Compiler.PortRange
use py2fw.Compiler.PortRange.{PortRange, PortRange_eq, port_range}

pub insert_sorted : PortRange → List PortRange → List PortRange
insert_sorted r [] = r ∷ []
insert_sorted r (x ∷ xs) = if PortRange.le r x then r ∷ x ∷ xs else x ∷ insert_sorted r xs

-- `sorted(ranges)`
pub sorted : List PortRange → List PortRange
sorted [] = []
sorted (r ∷ rs) = insert_sorted r (sorted rs)

-- The loop over the sorted ranges; `last` is `merged[-1]`. What it builds is a valid range
-- wherever `last` is one.
pub merge_onto : PortRange → List PortRange → List PortRange
merge_onto last [] = last ∷ []
merge_onto last (current ∷ rest) = elim (leb current.start (last.end + 1)) [
  | true ↦ merge_onto (record { start = last.start; end = max last.end current.end }) rest
  | false ↦ last ∷ merge_onto current rest
]

pub merge : List PortRange → List PortRange
merge [] = []
merge (r ∷ rs) = merge_onto r rs

unfoldable pub normalize_ranges : List PortRange → List PortRange
unfolding insert_sorted sorted merge_onto merge
normalize_ranges ranges = merge (sorted ranges)

pub record PortSpec : Type 0 where
  pub ranges : List PortRange

-- A specification of ranges that exist already.
abbrev pub from_ranges : List PortRange → PortSpec
from_ranges ranges = record { ranges = normalize_ranges ranges }

pub port_ranges : List (ℕ × ℕ) → Option (List PortRange)
port_ranges [] = some []
port_ranges ((start, end) ∷ pairs) = elim (port_range start end) [
  | none ↦ none
  | some r ↦ (elim (port_ranges pairs) [ none ↦ none | some rs ↦ some (r ∷ rs) ])
]

-- `none` is the ValueError of a pair whose start is above its end.
unfoldable pub from_pairs : List (ℕ × ℕ) → Option PortSpec
unfolding port_ranges port_range normalize_ranges
from_pairs pairs = elim (port_ranges pairs) [
  | none ↦ none
  | some ranges ↦ some (record { ranges = normalize_ranges ranges })
]

abbrev pub min_port : ℕ
min_port = 1

abbrev pub max_port : ℕ
max_port = 65535

abbrev pub full_range : PortRange
full_range = record { start = min_port; end = max_port }

abbrev pub no_ports : PortSpec
no_ports = record { ranges = [] }

abbrev pub all_ports : PortSpec
all_ports = record { ranges = full_range ∷ [] }

abbrev pub lacks_ports : PortSpec → Bool
lacks_ports spec = is_empty spec.ranges

abbrev pub is_all_ports : PortSpec → Bool
is_all_ports spec = spec.ranges == full_range ∷ []

abbrev pub contains : PortSpec → ℕ → Bool
contains spec port = any (λ r. PortRange.contains r port) spec.ranges

unfoldable pub overlaps : PortSpec → PortSpec → Bool
overlaps a b =
    if lacks_ports a || lacks_ports b
    then lacks_ports a && lacks_ports b
    else any (λ r. any (λ q. PortRange.overlaps r q) b.ranges) a.ranges

-- The ports of `ports` that the specification covers; the source returns them as a set.
abbrev pub matching : PortSpec → List ℕ → List ℕ
matching spec ports = select (contains spec) ports
