-- ===== src/Verify/Config/Intent.antt =====
-- What a passed intent check says of a configuration: py2fw/verify/config.py.
use py2fw.Common.{
  ◌++◌, any_same, any-append, any-flat_map, values, String, ◌≡◌, refl, ap, ◌∙◌, inl, inr, Bool,
  true, false, not, ◌&&◌, ◌||◌, none, some, List, [], ◌∷◌, arith, all, any, any-from_keys, elem,
  is_empty, is_empty-append, is_empty-flat_map, is_empty-select, all_same, select, flat_map,
  from_keys, all-sorted_texts, sorted_texts, ◌==◌, ℕ_eq, String_eq, str_ℕ, Bool-cases, Option-cases,
}
use py2fw.IpAddress.{IpText}
use py2fw.Compiler.PortRange.{PortRange}
use py2fw.Compiler.PortSpec.{is_all_ports}
use py2fw.Compiler.Ir.{AddressIr, ServiceIr, PolicyIr, FirewallIr}
use py2fw.Compiler.Query.{name_values, any-address_values, address_values, service_values}
use py2fw.Exporters.Helpers.{Capabilities}
use py2fw.Plugins.Base.{Exporter}
use py2fw.Verify.Tokens.{Classes, number_tokens}
use py2fw.Verify.Config.{
  network_address, netmask, hostmask, value_tokens, known_tokens, present_tokens, address_problems,
  ends, port_problem, service_problems, sides, rule_problems, unexpected, unexpected_problem,
  intent_problems, check_intent,
}

-- The address of a value stands in the text; nothing is asked of `any` or of another value that is
-- no network.
abbrev pub address_shown : IpText → List String → String → Bool
address_shown ip present value = value == "any" || (elim (ip.ip_network value) [
  | none ↦ true
  | some net ↦ elem (ip.str_address (network_address net)) present
])

abbrev pub range_shown : List String → PortRange → Bool
range_shown numbers r = elem (str_ℕ r.start) numbers && elem (str_ℕ r.end) numbers

-- Both ends of each port range stand in the text, unless the service is for all ports.
abbrev pub service_shown : List String → ServiceIr → Bool
service_shown numbers service =
    is_all_ports service.ports || all (range_shown numbers) service.ports.ranges

-- A rule is shown: nothing is asked of a disabled rule, nor of one that is no allow rule for a
-- target that takes only these. Else its sources are shown, its destinations too where the target
-- tells them apart, and its services.
abbrev pub rule_shown :
    IpText → FirewallIr → Capabilities → List String → List String → PolicyIr → Bool
rule_shown ip ir caps present numbers rule =
    not rule.enabled
    || ((caps.allow_only && not (rule.action == "allow"))
        || (all (address_shown ip present) (address_values ir rule.source)
            && ((not caps.scopes_destination
                  || all (address_shown ip present) (address_values ir rule.destination))
                && all (service_shown numbers) (service_values ir rule.services))))

-- A value of the policy is a network that has the text as its address, its netmask or its
-- hostmask.
abbrev pub value_defines : IpText → String → String → Bool
value_defines ip token value = not (value == "any") && (elim (ip.ip_network value) [
  | none ↦ false
  | some net ↦
      ip.str_address (network_address net) == token
      || (ip.str_address (netmask net) == token || ip.str_address (hostmask net) == token)
])

-- An address is one of the two unspecified ones, or comes from some value of the policy.
abbrev pub is_defined : IpText → FirewallIr → String → Bool
is_defined ip ir token =
    "0.0.0.0" == token
    || ("::" == token
        || any (λ address. any (value_defines ip token) address.values) (values ir.addresses))

all-any : (p : String → Bool) (xs : List String) → all p xs ≡ not (any (λ x. not (p x)) xs)
all-any p [] = refl
all-any p (x ∷ xs) = ground (arith, all-any p xs)

all-address_values :
    (p : String → Bool) (ir : FirewallIr) (xs ys : List String)
    → all p (address_values ir (xs ++ ys))
      ≡ (all p (address_values ir xs) && all p (address_values ir ys))
all-address_values p ir xs ys =
    let q : String → Bool = λ x. not (p x) in
    let named : String → Bool = λ name. any q (name_values ir name) in
    ground (
      arith,
      all-any p (address_values ir (xs ++ ys)),
      all-any p (address_values ir xs),
      all-any p (address_values ir ys),
      any-address_values q ir (xs ++ ys),
      any-address_values q ir xs,
      any-address_values q ir ys,
      any-append named xs ys,
    )

-- The sides that the check looks at are the sources, and the destinations where they count.
all-sides :
    (p : String → Bool) (ir : FirewallIr) (caps : Capabilities) (rule : PolicyIr)
    → all p (address_values ir (sides caps rule)) ≡ (
        all p (address_values ir rule.source)
        && (not caps.scopes_destination || all p (address_values ir rule.destination)))
all-sides p ir caps rule = elim (Bool-cases caps.scopes_destination) [
  | inl e ↦ ground (arith, e, all-address_values p ir rule.source rule.destination)
  | inr e ↦
      let nothing : all p (address_values ir []) ≡ true = unfold address_values in refl in
      ground (arith, e, nothing, all-address_values p ir rule.source [])
]

value_tokens-defines :
    (ip : IpText) (token value : String)
    → any (λ x. x == token) (value_tokens ip value) ≡ value_defines ip token value
unfolding value_tokens
value_tokens-defines ip token value = elim (Option-cases (ip.ip_network value)) [
  | inl e ↦ ground (arith, e)
  | inr (net, e) ↦ ground (arith, e)
]

known_tokens-is_defined :
    (ip : IpText) (ir : FirewallIr) (token : String)
    → elem token (known_tokens ip ir) ≡ is_defined ip ir token
unfolding known_tokens
known_tokens-is_defined ip ir token =
    let contributed : AddressIr → List String =
      λ address. flat_map (value_tokens ip) address.values in
    let each : (address : AddressIr)
        → any (λ x. x == token) (contributed address)
          ≡ any (value_defines ip token) address.values =
      λ address.
        any-flat_map (λ x. x == token) (value_tokens ip) address.values
        ∙ any_same (λ v. any (λ x. x == token) (value_tokens ip v)) (value_defines ip token)
            (value_tokens-defines ip token) address.values in
    let all_values =
      any-flat_map (λ x. x == token) contributed (values ir.addresses)
      ∙ any_same (λ address. any (λ x. x == token) (contributed address))
          (λ address. any (value_defines ip token) address.values) each (values ir.addresses) in
    ap (λ b. "0.0.0.0" == token || ("::" == token || b)) all_values

address_problems-shown :
    (ip : IpText) (present : List String) (rule : PolicyIr) (value : String)
    → is_empty (address_problems ip present rule value) ≡ address_shown ip present value
unfolding address_problems
address_problems-shown ip present rule value = elim (Option-cases (ip.ip_network value)) [
  | inl e ↦ ground (arith, e)
  | inr (net, e) ↦ ground (arith, e)
]

port_problem-shown :
    (numbers : List String) (rule : PolicyIr) (r : PortRange)
    → is_empty (flat_map (port_problem numbers rule) (ends r)) ≡ range_shown numbers r
port_problem-shown numbers rule r = elim (Bool-cases (r.start == r.end)) [
  | inl e ↦
      let same : r.start ≡ r.end = (ℕ_eq.equal_iff r.start r.end).0 e in
      let same_text : elem (str_ℕ r.start) numbers ≡ elem (str_ℕ r.end) numbers =
        ap (λ n. elem (str_ℕ n) numbers) same in
      ground (arith, e, same_text)
  | inr e ↦ ground (arith, e)
]

service_problems-shown :
    (numbers : List String) (rule : PolicyIr) (service : ServiceIr)
    → is_empty (service_problems numbers rule service) ≡ service_shown numbers service
unfolding service_problems
service_problems-shown numbers rule service = ground (
  arith,
  is_empty-flat_map (λ r. flat_map (port_problem numbers rule) (ends r)) service.ports.ranges,
  all_same (λ r. is_empty (flat_map (port_problem numbers rule) (ends r))) (range_shown numbers)
      (port_problem-shown numbers rule) service.ports.ranges,
)

module _ (ip : IpText) (ir : FirewallIr) (caps : Capabilities) (present numbers : List String) where
  rule_problems-shown :
      (rule : PolicyIr)
      → is_empty (rule_problems ip ir caps present numbers rule)
        ≡ rule_shown ip ir caps present numbers rule
  unfolding rule_problems
  rule_problems-shown rule =
      let addresses = address_values ir (sides caps rule) in
      let services = service_values ir rule.services in
      ground (
        arith,
        is_empty-append (flat_map (address_problems ip present rule) addresses)
            (flat_map (service_problems numbers rule) services),
        is_empty-flat_map (address_problems ip present rule) addresses,
        is_empty-flat_map (service_problems numbers rule) services,
        all_same (λ v. is_empty (address_problems ip present rule v)) (address_shown ip present)
            (address_problems-shown ip present rule) addresses,
        all-sides (address_shown ip present) ir caps rule,
        all_same (λ s. is_empty (service_problems numbers rule s)) (service_shown numbers)
            (service_problems-shown numbers rule) services,
      )

unexpected_problem_empty : (ts : List String) → is_empty (unexpected_problem ts) ≡ is_empty ts
unexpected_problem_empty [] = refl
unexpected_problem_empty (t ∷ ts) = refl

empty_all : (ts : List String) → is_empty ts ≡ all (λ _. false) ts
empty_all [] = refl
empty_all (t ∷ ts) = refl

empty_any : (ts : List String) → is_empty ts ≡ not (any (λ _. true) ts)
empty_any [] = refl
empty_any (t ∷ ts) = refl

-- A sorted set of texts is empty just when the list is.
is_empty-sorted_set : (ts : List String) → is_empty (sorted_texts (from_keys ts)) ≡ is_empty ts
is_empty-sorted_set ts =
    empty_all (sorted_texts (from_keys ts))
    ∙ (all-sorted_texts (λ _. false) (from_keys ts)
        ∙ ground (
          arith,
          empty_all (from_keys ts),
          empty_any (from_keys ts),
          empty_any ts,
          any-from_keys (λ _. true) ts,
        ))

unexpected-known :
    (ip : IpText) (ir : FirewallIr) (present : List String)
    → is_empty (unexpected ip ir present) ≡ all (is_defined ip ir) present
unfolding unexpected
unexpected-known ip ir present =
    is_empty-sorted_set (select (λ t. not (elem t (known_tokens ip ir))) present)
    ∙ (is_empty-select (λ t. not (elem t (known_tokens ip ir))) present
        ∙ all_same (λ t. not (not (elem t (known_tokens ip ir)))) (is_defined ip ir)
            (λ t. ground (arith, known_tokens-is_defined ip ir t)) present)

-- The intent check passes exactly when the configuration shows each enabled rule that the target
-- can express, an allow rule where it takes no other, and names no undefined address. A rule is
-- shown by the address of each network among its sources, and among its destinations where the
-- target tells them apart, and by both ends of each of its port ranges as numbers, unless the
-- service is for all ports; nothing is asked of `any` or of a value that is no network. Defined
-- are the two unspecified addresses, and the address, netmask and hostmask of each network of the
-- policy.
pub check_intent_shown :
    (ip : IpText) (classes : Classes) (ir : FirewallIr) (exporter : Exporter) (rendered : String)
    → let present = present_tokens ip classes rendered in
      (check_intent ip classes ir exporter rendered).passed ≡ (
        all
          (rule_shown ip ir exporter.capabilities present (number_tokens classes rendered))
          ir.policies
        && all (is_defined ip ir) present)
unfolding check_intent intent_problems
check_intent_shown ip classes ir exporter rendered =
    let caps = exporter.capabilities in
    let present = present_tokens ip classes rendered in
    let numbers = number_tokens classes rendered in
    ground (
      arith,
      is_empty-append (flat_map (rule_problems ip ir caps present numbers) ir.policies)
          (unexpected_problem (unexpected ip ir present)),
      is_empty-flat_map (rule_problems ip ir caps present numbers) ir.policies,
      all_same (λ r. is_empty (rule_problems ip ir caps present numbers r))
          (rule_shown ip ir caps present numbers) (rule_problems-shown ip ir caps present numbers)
          ir.policies,
      unexpected_problem_empty (unexpected ip ir present),
      unexpected-known ip ir present,
    )
