-- ===== src/Enforcement/Baseline.antt =====
-- enforce_baseline of py2fw/enforcement/baseline.py.
pub mod Forbidden
use py2fw.Common.{
  String, Bool, true, false, not, ◌&&◌, ◌||◌, Option, none, some, List, [], ◌∷◌, ◌++◌, any, elem,
  is_empty, select, if◌then◌else◌, ◌==◌, String_eq, text,
}
use py2fw.IpAddress
use py2fw.IpAddress.{Network, IpText, Version_eq}
use py2fw.Enforcement.Controls.{Scope, unset, broad, any_address, cidrs, ForbiddenModel, Controls}
use py2fw.Compiler.PortSpec
use py2fw.Compiler.Ir.{ServiceIr, PolicyIr, FirewallIr}
use py2fw.Compiler.Query.{address_values, service_values}
use py2fw.Analyzers.Models.{Finding, rule_finding}
use py2fw.Analyzers.AttackSurface.{is_broad_source}

-- The inner loop of `_overlaps`; `none` is the ValueError of a pattern's address.
overlaps_cidrs : IpText → Network → List String → Option Bool
overlaps_cidrs ip net [] = some false
overlaps_cidrs ip net (cidr ∷ rest) =
    let further = overlaps_cidrs ip net rest in
    elim (ip.ip_network cidr) [
      | none ↦ none
      | some other ↦
          if net.version == other.version && IpAddress.overlaps net other
          then some true
          else further
    ]

-- The outer loop of `_overlaps`.
overlaps_values : IpText → List String → List String → Option Bool
unfolding overlaps_cidrs
overlaps_values ip [] patterns = some false
overlaps_values ip (value ∷ values) patterns =
    let further = overlaps_values ip values patterns in
    elim (ip.ip_network value) [
      | none ↦ further
      | some net ↦ (elim (overlaps_cidrs ip net patterns) [
        | none ↦ none
        | some found ↦ if found then some true else further
      ])
    ]

unfoldable pub overlaps : IpText → List String → List String → Option Bool
unfolding overlaps_values
overlaps ip values patterns =
    if elem "any" values then some true else overlaps_values ip values patterns

-- Whether values lie in the scope that a pattern asks for.
unfoldable pub scope_matches : IpText → List String → Scope → Option Bool
unfolding overlaps
scope_matches ip values unset = some true
scope_matches ip values broad = some (is_broad_source ip values)
scope_matches ip values any_address = some (elem "any" values)
scope_matches ip values (cidrs patterns) = overlaps ip values patterns

-- The end of `_matches`, on protocol and ports.
unfoldable pub services_match : List ServiceIr → ForbiddenModel → Bool
services_match services pattern =
    let spoken : List ServiceIr = elim pattern.protocol [
      | none ↦ services
      | some p ↦ select (λ s. s.protocol == p || s.protocol == "any") services
    ] in
    let no_protocol : Bool = elim pattern.protocol [ none ↦ false | some p ↦ is_empty spoken ] in
    if no_protocol then false else elim pattern.ports [
      | none ↦ true
      | some ports ↦ any (λ s. any (λ port. PortSpec.contains s.ports port) ports) spoken
    ]

-- `_matches`; `none` is the ValueError of a pattern's address.
unfoldable pub matches : IpText → FirewallIr → PolicyIr → ForbiddenModel → Option Bool
unfolding scope_matches services_match
matches ip ir rule pattern =
    elim (scope_matches ip (address_values ir rule.source) pattern.source) [
      | none ↦ none
      | some false ↦ some false
      | some true ↦
          (elim (scope_matches ip (address_values ir rule.destination) pattern.destination) [
            | none ↦ none
            | some false ↦ some false
            | some true ↦ some (services_match (service_values ir rule.services) pattern)
          ])
    ]

-- `getattr(rule, name)`, for the names that may be required.
abbrev pub required_field : PolicyIr → String → String
required_field rule name =
    if name == "description"
    then rule.description
    else if name == "owner"
    then rule.owner
    else rule.ticket

pub missing_fields : Controls → PolicyIr → List String → List Finding
missing_fields controls rule [] = []
missing_fields controls rule (name ∷ names) =
    let rest = missing_fields controls rule names in
    let place = if controls.environment == "" then "all environments" else controls.environment in
    if required_field rule name == ""
    then rule_finding rule "high" (text ("Baseline: missing " ∷ name ∷ []))
        (text ("Required in " ∷ place ∷ "." ∷ []))
      ∷ rest
    else rest

abbrev pub forbidden_finding : PolicyIr → ForbiddenModel → Finding
forbidden_finding rule pattern =
    rule_finding rule pattern.severity (text ("Baseline: " ∷ pattern.name ∷ [])) (
      if pattern.description == ""
      then "Rule matches a forbidden baseline pattern."
      else pattern.description)

-- The loop over the forbidden patterns.
unfoldable pub forbidden_findings :
    IpText → FirewallIr → PolicyIr → List ForbiddenModel → Option (List Finding)
forbidden_findings ip ir rule [] = some []
forbidden_findings ip ir rule (pattern ∷ patterns) = elim (matches ip ir rule pattern) [
  | none ↦ none
  | some found ↦ (elim (forbidden_findings ip ir rule patterns) [
    | none ↦ none
    | some rest ↦ some (if found then forbidden_finding rule pattern ∷ rest else rest)
  ])
]

unfoldable pub rule_findings : IpText → FirewallIr → Controls → PolicyIr → Option (List Finding)
unfolding missing_fields forbidden_findings
rule_findings ip ir controls rule =
    if not rule.enabled
    then some []
    else if not (rule.action == "allow")
    then some (missing_fields controls rule controls.require_fields)
    else elim (forbidden_findings ip ir rule controls.forbidden) [
      | none ↦ none
      | some found ↦ some (missing_fields controls rule controls.require_fields ++ found)
    ]

-- `enforce_baseline` over some rules.
unfoldable pub enforce_rules :
    IpText → FirewallIr → Controls → List PolicyIr → Option (List Finding)
enforce_rules ip ir controls [] = some []
enforce_rules ip ir controls (rule ∷ rules) = elim (rule_findings ip ir controls rule) [
  | none ↦ none
  | some found ↦ (elim (enforce_rules ip ir controls rules) [
    | none ↦ none
    | some rest ↦ some (found ++ rest)
  ])
]

unfoldable pub enforce_baseline : IpText → FirewallIr → Controls → Option (List Finding)
unfolding enforce_rules rule_findings
enforce_baseline ip ir controls = enforce_rules ip ir controls ir.policies
