-- ===== src/Examples/Analyzing.antt =====
-- The analyzers on the sample policy, and on rules that differ in their services.
use text.Mathlib.TextEquality.{eq_iff}
use py2fw.Common.{
  String, ◌≡◌, refl, true, false, Option, none, some, List, [], ◌∷◌, any, arith, inr,
}
use py2fw.IpAddress.{broadcast_address}
use py2fw.Compiler.PortSpec.{no_ports, normalize_ranges}
use py2fw.Compiler.Resolver
use py2fw.Compiler.Resolver.{Resolved}
use py2fw.Compiler.Builder.{build_ir}
use py2fw.Parser.Schema.{ServiceModel, written}
use py2fw.Parser.SourceMap
use py2fw.Examples.Worlds.{policy_document}
use py2fw.Compiler.Ir.{ServiceIr, PolicyIr, FirewallIr}
use py2fw.Compiler.Query.{address_values, name_values, service_values}
use py2fw.Engine.Evaluate.{evaluate}
use py2fw.Engine.Evaluate.Loops.{service_allows}
use py2fw.Engine.Evaluate.Verdict.{outcome?}
use py2fw.Analyzers.Models.{Finding}
use py2fw.Analyzers.ShadowRules.{
  networks, covers_addresses, covers_specs, covers_services, subsumes, find_shadowed_rules,
}
use py2fw.Analyzers.ShadowRules.Services.{Comparable}
use py2fw.Analyzers.ShadowRules.Removal.{subsumed_removable}
use py2fw.Analyzers.ShadowRules.Gaps.{
  range, flow_to, covers_services_mixes_protocols, covers_services_misses_gap,
}
use py2fw.Analyzers.ShadowRules.Findings.{reports, find_shadowed_rules-reports}
use py2fw.Examples.Samples.{
  sample_text, sample_ir, sample_flow, lab_host, corp_host, allow_corp, deny_lab,
}

sample-Comparable : Comparable sample_flow (service_values sample_ir allow_corp.services)
unfolding service_values normalize_ranges
sample-Comparable = inr (
  (λ e. ground (arith, e, eq_iff "tcp" "icmp")),
  443,
  "tcp",
  range 443 443,
  refl,
  ground arith,
  ground arith,
  refl,
  refl,
)

subsumed_removable_example :
    outcome? (evaluate sample_text sample_ir sample_flow)
    ≡ outcome? (evaluate sample_text (record sample_ir { policies = allow_corp ∷ [] }) sample_flow)
unfolding subsumes covers_addresses covers_services address_values name_values service_values
    networks broadcast_address normalize_ranges covers_specs
subsumed_removable_example =
    subsumed_removable sample_text sample_ir [] allow_corp [] deny_lab [] sample_flow lab_host
      corp_host refl refl (ground arith) (ground arith) sample-Comparable refl refl refl

find_shadowed_rules-reports_example :
    find_shadowed_rules sample_text sample_ir
    ≡ reports sample_text sample_ir [] (allow_corp ∷ deny_lab ∷ [])
find_shadowed_rules-reports_example = find_shadowed_rules-reports sample_text sample_ir

abbrev finding_of : String → Finding
finding_of severity = record {
  severity = severity;
  title = "";
  rule = none;
  detail = "";
  line = none;
  location = "";
}

-- The policy that the builder makes of a document with three services.
abbrev built_of : Resolved (Option FirewallIr) → FirewallIr
built_of (Resolver.ok (some ir)) = ir
built_of _ = sample_ir

abbrev service_model : String → String → ServiceModel
service_model protocol ports = record {
  protocol = protocol;
  port = written ports;
  description = "";
}

abbrev ports_ir : ServiceModel → ServiceModel → ServiceModel → FirewallIr
ports_ir first second third = built_of (
    build_ir (λ value. value)
      (record policy_document {
        services = ("first", first) ∷ ("second", second) ∷ ("third", third) ∷ [];
      })
      SourceMap.empty [] sample_text)

-- The service with a name, as the builder makes it.
abbrev named : String → ServiceIr
named name = record { name = name; protocol = ""; ports = no_ports; description = ""; line = none }

abbrev rule_on : List String → PolicyIr
rule_on services = record allow_corp { services = services }

abbrev mixed_ir : FirewallIr
mixed_ir = ports_ir (service_model "tcp" "80") (service_model "udp" "53") (service_model "tcp" "53")

covers_services_mixes_protocols_example :
    (covers_services mixed_ir (rule_on ("first" ∷ "second" ∷ [])) (rule_on ("third" ∷ [])) ≡ true)
    × (any (service_allows (flow_to "tcp" 53)) (service_values mixed_ir ("third" ∷ [])) ≡ true)
    × (any (service_allows (flow_to "tcp" 53)) (service_values mixed_ir ("first" ∷ "second" ∷ []))
        ≡ false)
unfolding service_values build_ir py2fw.Common.get py2fw.Compiler.Resolver.resolve_rule_references
    py2fw.Utils.Digits.int py2fw.Utils.Ip.normalize_network SourceMap.line
covers_services_mixes_protocols_example =
    covers_services_mixes_protocols mixed_ir (rule_on ("first" ∷ "second" ∷ []))
      (rule_on ("third" ∷ [])) (named "first") (named "second") (named "third") 80 53
      (λ e. ground (arith, e)) refl refl

abbrev gap_ir : FirewallIr
gap_ir =
    ports_ir (service_model "tcp" "80-90") (service_model "tcp" "100-110")
      (service_model "tcp" "80-110")

covers_services_misses_gap_example :
    (covers_services gap_ir (rule_on ("first" ∷ "second" ∷ [])) (rule_on ("third" ∷ [])) ≡ true)
    × (any (service_allows (flow_to "tcp" 95)) (service_values gap_ir ("third" ∷ [])) ≡ true)
    × (any (service_allows (flow_to "tcp" 95)) (service_values gap_ir ("first" ∷ "second" ∷ []))
        ≡ false)
unfolding service_values build_ir py2fw.Common.get py2fw.Compiler.Resolver.resolve_rule_references
    py2fw.Utils.Digits.int py2fw.Utils.Ip.normalize_network SourceMap.line
covers_services_misses_gap_example =
    covers_services_misses_gap gap_ir (rule_on ("first" ∷ "second" ∷ [])) (rule_on ("third" ∷ []))
      (named "first") (named "second") (named "third") 80 90 95 100 110 (ground arith)
      (ground arith) (ground arith) (ground arith) (ground arith) refl refl
