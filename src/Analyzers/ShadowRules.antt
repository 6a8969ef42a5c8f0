-- ===== src/Analyzers/ShadowRules.antt =====
-- py2fw/analyzers/shadow_rules.py
pub mod Addresses
pub mod Services
pub mod Removal
pub mod Gaps
pub mod Findings
use py2fw.Common.{
  String, Bool, true, false, not, ◌&&◌, ◌||◌, Option, none, some, List, [], ◌∷◌, ◌++◌, any, all,
  map, elem, is_empty, is_none, flat_map, select, if◌then◌else◌, ◌==◌, String_eq, list_eq, pair_eq,
  text,
}
use py2fw.IpAddress
use py2fw.IpAddress.{Network, IpText, Version_eq, any_v4, any_v6}
use py2fw.Compiler.PortSpec
use py2fw.Compiler.PortSpec.{PortSpec, from_ranges}
use py2fw.Compiler.Ir.{PolicyIr, FirewallIr}
use py2fw.Compiler.Query.{address_values, service_values}
use py2fw.Analyzers.Models.{Finding, rule_finding}
use py2fw.Analyzers.DuplicateRules.{fingerprint}

unfoldable pub networks : IpText → List String → List Network
networks ip [] = []
networks ip (value ∷ values) =
    let rest = networks ip values in
    if value == "any"
    then any_v4 ∷ any_v6 ∷ rest
    else elim (ip.ip_network value) [ none ↦ rest | some n ↦ n ∷ rest ]

-- `_subnet_of`
abbrev pub is_subnet : Network → Network → Bool
is_subnet inner outer = inner.version == outer.version && IpAddress.subnet_of inner outer

unfoldable pub covers_addresses : IpText → List String → List String → Bool
unfolding networks
covers_addresses ip outer inner =
    let outer_nets = networks ip outer in
    let inner_nets = networks ip inner in
    if is_empty inner_nets then false else all (λ i. any (λ o. is_subnet i o) outer_nets) inner_nets

-- The ranges of an existing service passed the check of their class, so building them again from
-- pairs does not raise: `from_pairs-from_ranges`.
unfoldable pub port_spec_for : FirewallIr → List String → List String × PortSpec
port_spec_for ir names =
    let services = service_values ir names in
    (map (λ s. s.protocol) services, from_ranges (flat_map (λ s. s.ports.ranges) services))

-- `covers_services` on the protocols and the ports of the two rules.
unfoldable pub covers_specs : List String × PortSpec → List String × PortSpec → Bool
covers_specs (outer_protos, outer_ports) (inner_protos, inner_ports) =
    if elem "any" outer_protos
    then true
    else if not (all (λ p. elem p outer_protos) inner_protos)
    then false
    else if PortSpec.is_all_ports outer_ports
        || (PortSpec.lacks_ports outer_ports && PortSpec.lacks_ports inner_ports)
    then true
    else all (λ r. PortSpec.contains outer_ports r.start && PortSpec.contains outer_ports r.end)
        inner_ports.ranges

unfoldable pub covers_services : FirewallIr → PolicyIr → PolicyIr → Bool
unfolding port_spec_for covers_specs
covers_services ir outer inner =
    covers_specs (port_spec_for ir outer.services) (port_spec_for ir inner.services)

unfoldable pub overlaps_addresses : IpText → List String → List String → Bool
unfolding networks
overlaps_addresses ip left right =
    any (λ a. any (λ b. a.version == b.version && IpAddress.overlaps a b) (networks ip right))
      (networks ip left)

overlaps_specs : List String × PortSpec → List String × PortSpec → Bool
overlaps_specs (left_protos, left_ports) (right_protos, right_ports) =
    if elem "any" left_protos || elem "any" right_protos
    then true
    else if not (any (λ p. elem p right_protos) left_protos)
    then false
    else PortSpec.overlaps left_ports right_ports

unfoldable pub overlaps_services : FirewallIr → PolicyIr → PolicyIr → Bool
unfolding port_spec_for overlaps_specs
overlaps_services ir left right =
    overlaps_specs (port_spec_for ir left.services) (port_spec_for ir right.services)

-- `_overlaps`
unfoldable pub rules_overlap : IpText → FirewallIr → PolicyIr → PolicyIr → Bool
unfolding overlaps_addresses overlaps_services
rules_overlap ip ir left right =
    overlaps_addresses ip (address_values ir left.source) (address_values ir right.source)
    && overlaps_addresses ip (address_values ir left.destination)
        (address_values ir right.destination)
    && overlaps_services ir left right

unfoldable pub subsumes : IpText → FirewallIr → PolicyIr → PolicyIr → Bool
unfolding covers_addresses covers_services
subsumes ip ir outer inner =
    covers_addresses ip (address_values ir outer.source) (address_values ir inner.source)
    && covers_addresses ip (address_values ir outer.destination)
        (address_values ir inner.destination)
    && covers_services ir outer inner

abbrev pub redundant : PolicyIr → PolicyIr → Finding
redundant rule earlier =
    rule_finding rule "low" "Redundant rule"
      (text ("Fully covered by earlier rule " ∷ earlier.name ∷ " with the same action" ∷ []))

abbrev pub shadowed : PolicyIr → PolicyIr → Finding
shadowed rule earlier = rule_finding rule "medium" "Shadowed rule" (
    text (
      "Never reached; earlier rule " ∷ earlier.name ∷ " (" ∷ earlier.action
      ∷ ") already decides this traffic" ∷ []))

abbrev pub conflicting : PolicyIr → PolicyIr → Finding
conflicting rule conflict = rule_finding rule "medium" "Conflicting rules" (
    text (
      "Partially overlaps earlier rule " ∷ conflict.name ∷ " (" ∷ conflict.action
      ∷ "); rule order decides the overlap" ∷ []))

-- The inner loop, with the conflict found so far; its `else` stands at the empty list.
unfoldable pub scan_earlier :
    IpText → FirewallIr → PolicyIr → Option PolicyIr → List PolicyIr → List Finding
scan_earlier ip ir rule none [] = []
scan_earlier ip ir rule (some conflict) [] = conflicting rule conflict ∷ []
scan_earlier ip ir rule conflict (earlier ∷ rest) =
    let covered = subsumes ip ir earlier rule in
    let conflict' =
      if not covered
        && is_none conflict
        && not (earlier.action == rule.action)
        && rules_overlap ip ir earlier rule
      then some earlier
      else conflict in
    let further = scan_earlier ip ir rule conflict' rest in
    if not covered
    then further
    else if earlier.action == rule.action
    then (if fingerprint earlier == fingerprint rule then further else redundant rule earlier ∷ [])
    else shadowed rule earlier ∷ []

-- The outer loop: `earlier` is `enabled[:i]`.
unfoldable pub scan_rules : IpText → FirewallIr → List PolicyIr → List PolicyIr → List Finding
scan_rules ip ir earlier [] = []
scan_rules ip ir earlier (rule ∷ rules) =
    scan_earlier ip ir rule none earlier ++ scan_rules ip ir (earlier ++ rule ∷ []) rules

unfoldable pub find_shadowed_rules : IpText → FirewallIr → List Finding
unfolding scan_earlier scan_rules
find_shadowed_rules ip ir = scan_rules ip ir [] (select (λ rule. rule.enabled) ir.policies)
