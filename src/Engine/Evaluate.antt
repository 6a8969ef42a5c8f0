-- ===== src/Engine/Evaluate.antt =====
-- py2fw/engine/evaluate.py. A reason is kept as the values that its text is built from.
pub mod Loops
pub mod FirstMatch
pub mod Verdict
use py2fw.Common.{
  ℕ, String, Bool, true, false, not, ◌||◌, Option, none, some, List, [], ◌∷◌, ◌++◌, if◌then◌else◌,
  ◌==◌, String_eq,
}
use py2fw.IpAddress
use py2fw.IpAddress.{Address, IpText}
use py2fw.Compiler.PortSpec
use py2fw.Compiler.Ir.{ServiceIr, PolicyIr, FirewallIr}
use py2fw.Compiler.Query.{address_values, service_values}

pub record Flow : Type 0 where
  pub source : String
  pub destination : String
  pub protocol : String
  pub port : Option ℕ

pub data Reason : Type 0 where
  rule_disabled : Reason
  source_not_in destination_not_in : String → List String → Reason
  service_not_in : String → Option ℕ → List String → Reason
  matched_action : String → Reason

pub record RuleTrace : Type 0 where
  pub rule : String
  pub matched : Bool
  pub reason : Reason

pub record Decision : Type 0 where
  pub allowed : Bool
  pub action : String
  pub matched_rule : Option PolicyIr
  pub default_applied : Bool
  pub trace : List RuleTrace

unfoldable pub verdict : Decision → String
verdict d = if d.allowed then "ALLOWED" else "DENIED"

-- The loop of `_addr_contains`.
unfoldable pub addr_contains : IpText → List String → Address → Bool
addr_contains ip [] target = false
addr_contains ip (value ∷ values) target =
    let rest = addr_contains ip values target in
    if value == "any" then true else elim (ip.ip_network value) [
      | none ↦ rest
      | some network ↦ if IpAddress.contains network target then true else rest
    ]

-- The loop of `_service_matches`, over the services that the names stand for.
unfoldable pub services_match : List ServiceIr → Flow → Bool
services_match [] flow = false
services_match (service ∷ services) flow =
    let rest = services_match services flow in
    if not (service.protocol == "any" || service.protocol == flow.protocol)
    then rest
    else if service.protocol == "any" || PortSpec.is_all_ports service.ports
    then true
    else if flow.protocol == "icmp"
    then service.protocol == "icmp" || service.protocol == "any"
    else elim flow.port [
      | some port ↦ if PortSpec.contains service.ports port then true else rest
      | none ↦ if PortSpec.lacks_ports service.ports then true else rest
    ]

unfoldable pub service_matches : FirewallIr → List String → Flow → Bool
unfolding services_match service_values
service_matches ir names flow = services_match (service_values ir names) flow

-- `none` is the ValueError of an endpoint that is no address.
unfoldable pub match_reason : IpText → FirewallIr → PolicyIr → Flow → Option (Bool × Reason)
match_reason ip ir rule flow =
    if not rule.enabled then some (false, rule_disabled) else elim (ip.ip_address flow.source) [
      | none ↦ none
      | some source_ip ↦
          if not (addr_contains ip (address_values ir rule.source) source_ip)
          then some (false, source_not_in flow.source rule.source)
          else elim (ip.ip_address flow.destination) [
            | none ↦ none
            | some destination_ip ↦
                if not (addr_contains ip (address_values ir rule.destination) destination_ip)
                then some (false, destination_not_in flow.destination rule.destination)
                else if not (service_matches ir rule.services flow)
                then some (false, service_not_in flow.protocol flow.port rule.services)
                else some (true, matched_action rule.action)
          ]
    ]

abbrev pub default_deny : List RuleTrace → Decision
default_deny trace = record {
  allowed = false;
  action = "deny";
  matched_rule = none;
  default_applied = true;
  trace = trace;
}

abbrev pub decide_by : PolicyIr → List RuleTrace → Decision
decide_by rule trace = record {
  allowed = rule.action == "allow";
  action = rule.action;
  matched_rule = some rule;
  default_applied = false;
  trace = trace;
}

-- The loop of `evaluate`, with the trace so far.
unfoldable pub evaluate_from :
    IpText → FirewallIr → Flow → List RuleTrace → List PolicyIr → Option Decision
evaluate_from ip ir flow trace [] = some (default_deny trace)
evaluate_from ip ir flow trace (rule ∷ rules) = elim (match_reason ip ir rule flow) [
  | none ↦ none
  | some (matched, reason) ↦
      let longer =
        trace ++ (record { rule = rule.name; matched = matched; reason = reason }) ∷ [] in
      let rest = evaluate_from ip ir flow longer rules in
      if matched then some (decide_by rule longer) else rest
]

unfoldable pub evaluate : IpText → FirewallIr → Flow → Option Decision
unfolding evaluate_from
evaluate ip ir flow = evaluate_from ip ir flow [] ir.policies
