-- ===== src/Examples/Compiling.antt =====
-- The compiler on small inputs: port specifications, groups, validated ports.
use py2fw.Common.{
  ℕ, ◌≤◌, ◌≡◌, ◌↔◌, ◌⊎◌, ◌≢◌, refl, true, some, String, List, [], ◌∷◌, elem, String_eq, arith, Dict,
  All, get,
}
use py2fw.Parser.SourceMap
use py2fw.Parser.Schema.{written}
use py2fw.Compiler.PortRange.{PortRange, IsValid}
use py2fw.Compiler.PortSpec.{
  PortSpec, from_pairs, normalize_ranges, overlaps, contains, lacks_ports,
}
use py2fw.Compiler.PortSpec.Canonical.{IsCanonical, normalize_ranges-IsCanonical}
use py2fw.Compiler.PortSpec.Members.{covers, covers-normalize_ranges}
use py2fw.Compiler.PortSpec.Pairs.{pairs_cover, contains-from_pairs, from_pairs_unique}
use py2fw.Compiler.PortSpec.Overlaps.{overlaps_iff}
use py2fw.Compiler.Resolver.{
  resolve_rule_references, exhausted, resolve_members, resolve_group, enough, ok,
}
use py2fw.Compiler.Resolver.Fuel.{resolve_rule_references-ne-exhausted}
use py2fw.Parser.Schema.{PolicyDocument}
use py2fw.Compiler.Resolver.Reach.{Reaches, resolve_group-Reaches}
use py2fw.Utils.Ip.{normalize_network, is_any}
use py2fw.Compiler.Issues.{validate_port, check_range, check_ends}
use py2fw.Compiler.Builder.{port_spec}
use py2fw.Compiler.Builder.Ports.{validate_port-Builds}
use py2fw.Examples.Samples.{ascii_numerals, sample_text}

abbrev range : ℕ → ℕ → PortRange
range start end = record { start = start; end = end }

abbrev web : PortSpec
web = record { ranges = range 80 85 ∷ range 443 443 ∷ [] }

abbrev web_pairs : List (ℕ × ℕ)
web_pairs = (443, 443) ∷ (83, 85) ∷ (80, 82) ∷ []

abbrev web_wide_pairs : List (ℕ × ℕ)
web_wide_pairs = (80, 84) ∷ (82, 85) ∷ (443, 443) ∷ []

web_built : from_pairs web_pairs ≡ some web
unfolding from_pairs
web_built = refl

contains-from_pairs_example : contains web 84 ≡ true
contains-from_pairs_example = contains-from_pairs web_pairs web web_built 84

covers-normalize_ranges_example : covers (normalize_ranges (range 5 9 ∷ range 1 3 ∷ [])) 7 ≡ true
covers-normalize_ranges_example = covers-normalize_ranges (range 5 9 ∷ range 1 3 ∷ []) 7

unordered-IsValid : All IsValid (range 1 3 ∷ range 1 5 ∷ [])
unordered-IsValid = (ground arith, (ground arith, tt))

normalize_ranges-IsCanonical_example : IsCanonical (normalize_ranges (range 1 3 ∷ range 1 5 ∷ []))
normalize_ranges-IsCanonical_example =
    normalize_ranges-IsCanonical (range 1 3 ∷ range 1 5 ∷ []) unordered-IsValid

web-IsValid : All IsValid (range 80 85 ∷ range 443 443 ∷ [])
web-IsValid = (ground arith, (ground arith, tt))

overlaps_iff_example : (overlaps web web ≡ true) ↔ (
    (lacks_ports web ≡ true) × (lacks_ports web ≡ true)
    ⊎ ((port : ℕ) × (contains web port ≡ true) × (contains web port ≡ true)))
overlaps_iff_example = overlaps_iff web web web-IsValid web-IsValid

same_ports : (port : ℕ) → pairs_cover web_pairs port ≡ pairs_cover web_wide_pairs port
same_ports port = ground arith

web_wide_built : from_pairs web_wide_pairs ≡ some web
unfolding from_pairs
web_wide_built = refl

from_pairs_unique_example : web ≡ web
from_pairs_unique_example =
    from_pairs_unique web_pairs web_wide_pairs web web web_built web_wide_built same_ports

validate_port-Builds_example :
    (spec : PortSpec) × (port_spec ascii_numerals (written "80-90") ≡ some spec)
    × ((port : ℕ) → contains spec port ≡ true → (1 ≤ port) × (port ≤ 65535))
unfolding validate_port check_range check_ends py2fw.Utils.Digits.isdigit py2fw.Utils.Digits.int
validate_port-Builds_example =
    validate_port-Builds ascii_numerals SourceMap.empty "web" (written "80-90") [] refl refl

abbrev sample_objects : Dict String (List String)
sample_objects = ("corp", "10.0.0.0/8" ∷ []) ∷ ("lab", "10.1.0.0/16" ∷ []) ∷ []

abbrev sample_groups : Dict String (List String)
sample_groups = ("inside", "corp" ∷ "lab" ∷ []) ∷ []

abbrev inside_values : List String
inside_values = "10.0.0.0/8" ∷ "10.1.0.0/16" ∷ []

inside_resolved :
    resolve_group sample_text sample_objects sample_groups
      (enough sample_text sample_objects sample_groups)
      "inside"
      []
    ≡ ok inside_values
unfolding resolve_group resolve_members get normalize_network is_any
inside_resolved = refl

resolve_group-Reaches_example :
    (elem "10.1.0.0/16" inside_values ≡ true)
    ↔ Reaches sample_text sample_objects sample_groups "inside" "10.1.0.0/16"
resolve_group-Reaches_example =
    resolve_group-Reaches sample_text sample_objects sample_groups "inside" inside_values
      "10.1.0.0/16" inside_resolved

abbrev sample_document : PolicyDocument
sample_document = record {
  version = 1;
  environment = "";
  objects = sample_objects;
  groups = sample_groups;
  services = [];
  policies = [];
  exceptions = [];
  tests = [];
}

resolve_rule_references-ne-exhausted_example :
    resolve_rule_references sample_text sample_document ≢ exhausted
resolve_rule_references-ne-exhausted_example =
    resolve_rule_references-ne-exhausted sample_text sample_document
