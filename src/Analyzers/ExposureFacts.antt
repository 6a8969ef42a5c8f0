-- ===== src/Analyzers/ExposureFacts.antt =====
-- The facts on a policy that the security controls are judged by: the first half of
-- py2fw/analyzers/compliance.py.
use Prim.Native.Nat.{max}
use py2fw.Common.{
  ℕ, ◌-◌, String, Bool, true, false, none, some, not, ◌&&◌, ◌||◌, List, [], ◌∷◌, ◌++◌, any, all,
  map, elem, is_empty, flat_map, from_keys, sorted_texts, if◌then◌else◌, leb, ◌==◌, ℕ_eq, String_eq,
}
use py2fw.IpAddress.{IpText}
use py2fw.Compiler.PortRange.{PortRange}
use py2fw.Compiler.PortSpec.{is_all_ports, matching}
use py2fw.Compiler.Ir.{ServiceIr, PolicyIr, FirewallIr}
use py2fw.Compiler.Query.{address_values, service_values}
use py2fw.Analyzers.AttackSurface.{broad_prefix_max_len, database_ports, high_risk_ports}

pub record Facts : Type 0 where
  pub any_to_any : List String
  pub untrusted_all_ports : List String
  pub untrusted_wide_range : List String
  pub internet_to_database : List String
  pub segmentation_rules : List String
  pub explicit_rules : Bool

unfoldable pub excessive_exposure : Facts → List String
excessive_exposure facts =
    sorted_texts (from_keys (facts.untrusted_all_ports ++ facts.untrusted_wide_range))

-- `_is_broad_source`, this module's own copy of the one in attack_surface.py
unfoldable pub is_broad_source : IpText → List String → Bool
is_broad_source ip [] = false
is_broad_source ip (value ∷ values) =
    let rest = is_broad_source ip values in
    if value == "any" then true else elim (ip.ip_network value) [
      | none ↦ rest
      | some net ↦
          if not (ip.is_private net) && leb net.prefixlen (broad_prefix_max_len net)
          then true
          else rest
    ]

-- What `_rule_port_profile` returns.
pub record PortProfile : Type 0 where
  pub all_ports : Bool
  pub sensitive : List ℕ
  pub widest : ℕ

-- `max(widest, prange.end - prange.start)` over some ranges
unfoldable pub widest_from : ℕ → List PortRange → ℕ
widest_from widest [] = widest
widest_from widest (r ∷ rs) = widest_from (max widest (r.end - r.start)) rs

abbrev pub watched_ports : List ℕ
watched_ports = database_ports ++ map (λ (p : ℕ × String). p.0) high_risk_ports

unfoldable pub rule_port_profile : FirewallIr → PolicyIr → PortProfile
unfolding widest_from
rule_port_profile ir rule =
    let services = service_values ir rule.services in
    record {
      all_ports = any (λ s. is_all_ports s.ports || s.protocol == "any") services;
      sensitive = flat_map (λ s. matching s.ports watched_ports) services;
      widest = widest_from 0 (flat_map (λ (s : ServiceIr). s.ports.ranges) services);
    }

-- The names of the rules that a round of the loop of `_facts` puts on one of its lists: the rule
-- allows and is enabled, and the test holds of whether its source is broad, whether its
-- destination is any, and its ports.
unfoldable pub listed :
    IpText → FirewallIr → (Bool → Bool → PortProfile → Bool) → List PolicyIr → List String
unfolding is_broad_source rule_port_profile
listed ip ir test [] = []
listed ip ir test (rule ∷ rules) =
    let rest = listed ip ir test rules in
    let broad = is_broad_source ip (address_values ir rule.source) in
    let anywhere = elem "any" (address_values ir rule.destination) in
    if not (rule.action == "allow") || not rule.enabled
    then rest
    else if test broad anywhere (rule_port_profile ir rule)
    then rule.name ∷ rest
    else rest

-- `_facts`
unfoldable pub facts_of : IpText → FirewallIr → Facts
unfolding listed
facts_of ip ir = record {
  any_to_any = listed ip ir (λ broad anywhere ports. broad && anywhere) ir.policies;
  untrusted_all_ports = listed ip ir (λ broad anywhere ports. broad && ports.all_ports) ir.policies;
  untrusted_wide_range =
      listed ip ir (λ broad anywhere ports. broad && leb 1024 ports.widest) ir.policies;
  internet_to_database =
      listed ip ir
        (λ broad anywhere ports. broad && any (λ p. elem p database_ports) ports.sensitive)
        ir.policies;
  segmentation_rules =
      listed ip ir (λ broad anywhere ports. not broad && (not anywhere && not ports.all_ports))
        ir.policies;
  explicit_rules =
      all
        (λ rule.
          not (is_empty rule.source)
          && (not (is_empty rule.destination) && not (is_empty rule.services)))
        ir.policies;
}
