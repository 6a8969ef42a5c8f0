-- ===== src/Analyzers/ShadowRules/Removal.antt =====
-- What find_shadowed_rules of py2fw/analyzers/shadow_rules.py promises about the engine.
use py2fw.Common.{String, ◌≡◌, ◌∙◌, sym, true, some, List, ◌∷◌, ◌++◌, any_at, String_eq, arith}
use py2fw.IpAddress.{Address, IpText}
use py2fw.Compiler.Ir.{PolicyIr, FirewallIr}
use py2fw.Compiler.Query.{address_values, service_values}
use py2fw.Engine.Evaluate.{Flow, evaluate}
use py2fw.Engine.Evaluate.FirstMatch.{in_scope, rule_matches, addr_contains-in_scope}
use py2fw.Engine.Evaluate.Verdict.{outcome?, evaluate_without}
use py2fw.Analyzers.ShadowRules.{covers_addresses, subsumes}
use py2fw.Analyzers.ShadowRules.Addresses.{IsAddress, covers_addresses_sound}
use py2fw.Analyzers.ShadowRules.Services.{Comparable, covers_services_sound}

module _ (ip : IpText) (ir : FirewallIr) where
  scope_covered :
      (outer inner : List String) (t : Address)
      → IsAddress t
      → covers_addresses ip (address_values ir outer) (address_values ir inner) ≡ true
      → in_scope ip ir inner t ≡ true
      → in_scope ip ir outer t ≡ true
  scope_covered outer inner t fits c h =
      sym (addr_contains-in_scope ip ir outer t)
      ∙ covers_addresses_sound ip (address_values ir outer) (address_values ir inner) t fits c
          (addr_contains-in_scope ip ir inner t ∙ h)

  -- An enabled rule that subsumes another matches every comparable flow that the other matches.
  pub subsumes_sound :
      (outer inner : PolicyIr) (flow : Flow) (source destination : Address)
      → IsAddress source
      → IsAddress destination
      → Comparable flow (service_values ir outer.services)
      → outer.enabled ≡ true
      → subsumes ip ir outer inner ≡ true
      → rule_matches ip ir flow source destination inner ≡ true
      → rule_matches ip ir flow source destination outer ≡ true
  unfolding subsumes
  subsumes_sound outer inner flow source destination fs fd cmp on s m = ground (
    arith,
    on,
    s,
    m,
    scope_covered outer.source inner.source source fs,
    scope_covered outer.destination inner.destination destination fd,
    covers_services_sound ir outer inner flow cmp,
  )

  -- A rule behind an enabled rule that subsumes it can be removed: a flow between two addresses
  -- keeps its verdict, its action and its deciding rule, when the flow is icmp, or when it names a
  -- real port and the services of the subsuming rule have one protocol and one range of ports.
  pub subsumed_removable :
      (before : List PolicyIr) (earlier : PolicyIr) (between : List PolicyIr) (rule : PolicyIr)
      (after : List PolicyIr) (flow : Flow) (source destination : Address)
      → ip.ip_address flow.source ≡ some source
      → ip.ip_address flow.destination ≡ some destination
      → IsAddress source
      → IsAddress destination
      → Comparable flow (service_values ir earlier.services)
      → earlier.enabled ≡ true
      → subsumes ip ir earlier rule ≡ true
      → ir.policies ≡ (before ++ earlier ∷ between) ++ rule ∷ after
      → outcome? (evaluate ip ir flow)
        ≡ outcome?
            (evaluate ip (record ir { policies = (before ++ earlier ∷ between) ++ after }) flow)
  subsumed_removable before earlier between rule after flow source destination ps pd fs fd cmp on s
        e =
      evaluate_without ip flow source destination ps pd ir (before ++ earlier ∷ between) rule after
        e
        λ m.
          any_at (rule_matches ip ir flow source destination) before earlier between
            (subsumes_sound earlier rule flow source destination fs fd cmp on s m)
