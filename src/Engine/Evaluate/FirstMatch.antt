-- ===== src/Engine/Evaluate/FirstMatch.antt =====
-- evaluate of py2fw/engine/evaluate.py decides by the first rule that matches.
use mathlib.Core.List.{append-nil, append_assoc}
use py2fw.Common.{
  String, ◌≡◌, refl, sym, Bool, true, false, not, ◌&&◌, some, List, [], ◌∷◌, ◌++◌, any, map,
  if◌then◌else◌, String_eq, arith, ◌∙◌, ap, inl, inr, ◌⊎◌, Bool-cases,
}
use py2fw.IpAddress.{Address, IpText}
use py2fw.Compiler.Ir.{PolicyIr, FirewallIr}
use py2fw.Compiler.Query.{name_values, address_values, any-address_values, service_values}
use py2fw.Engine.Evaluate.{
  Flow, RuleTrace, Reason, rule_disabled, source_not_in, destination_not_in, service_not_in,
  matched_action, Decision, addr_contains, service_matches, match_reason, default_deny, decide_by,
  evaluate_from, evaluate,
}
use py2fw.Engine.Evaluate.Loops.{
  value_contains, service_allows, addr_contains-any, services_match-any,
}

-- An address is in the scope of some names: one of them has a value that takes it in.
abbrev pub in_scope : IpText → FirewallIr → List String → Address → Bool
in_scope ip ir names target =
    any (λ name. any (value_contains ip target) (name_values ir name)) names

-- A rule matches: it is enabled, both endpoints are in its scope, and a service of it takes in
-- the flow.
abbrev pub rule_matches : IpText → FirewallIr → Flow → Address → Address → PolicyIr → Bool
rule_matches ip ir flow source destination rule =
    rule.enabled
    && in_scope ip ir rule.source source
    && in_scope ip ir rule.destination destination
    && any (service_allows flow) (service_values ir rule.services)

pub addr_contains-in_scope :
    (ip : IpText) (ir : FirewallIr) (names : List String) (target : Address)
    → addr_contains ip (address_values ir names) target ≡ in_scope ip ir names target
addr_contains-in_scope ip ir names target =
    addr_contains-any ip (address_values ir names) target
    ∙ any-address_values (value_contains ip target) ir names

-- The reason of a rule, from its four tests.
unfoldable pub reason_for : Flow → PolicyIr → Bool → Bool → Bool → Reason
reason_for flow rule from_here to_here served =
    if not rule.enabled
    then rule_disabled
    else if not from_here
    then source_not_in flow.source rule.source
    else if not to_here
    then destination_not_in flow.destination rule.destination
    else if not served
    then service_not_in flow.protocol flow.port rule.services
    else matched_action rule.action

-- `decision` is what the first matching rule of `rules` says, or the default if none matches;
-- its trace holds `done` and then the rules up to that one, the last alone as matched.
abbrev pub Decides : (PolicyIr → Bool) → List RuleTrace → List PolicyIr → Decision → Type 0
Decides matches done rules decision =
    ((before : List PolicyIr) × (rule : PolicyIr) × (after : List PolicyIr) × (steps : List
        RuleTrace)
      × (last : Reason) × (rules ≡ before ++ rule ∷ after)
      × (any matches before ≡ false)
      × (matches rule ≡ true)
      × (map (λ t. t.rule) steps ≡ map (λ r. r.name) before)
      × (any (λ t. t.matched) steps ≡ false)
      × (decision
          ≡ decide_by rule (
              done
              ++ (steps ++ (record { rule = rule.name; matched = true; reason = last }) ∷ []))))
    ⊎ ((steps : List RuleTrace) × (any matches rules ≡ false)
        × (map (λ t. t.rule) steps ≡ map (λ r. r.name) rules)
        × (any (λ t. t.matched) steps ≡ false)
        × (decision ≡ default_deny (done ++ steps)))

module _ (ip : IpText) (ir : FirewallIr) (flow : Flow) (source destination : Address)
    (source_parsed : ip.ip_address flow.source ≡ some source)
    (destination_parsed : ip.ip_address flow.destination ≡ some destination) where
  abbrev matches : PolicyIr → Bool
  matches = rule_matches ip ir flow source destination

  abbrev reason : PolicyIr → Reason
  reason rule =
      reason_for flow rule (in_scope ip ir rule.source source)
        (in_scope ip ir rule.destination destination)
        (any (service_allows flow) (service_values ir rule.services))

  pub match_reason-matches :
      (rule : PolicyIr) → match_reason ip ir rule flow ≡ some (matches rule, reason rule)
  unfolding match_reason service_matches reason_for
  match_reason-matches rule = ground (
    arith,
    addr_contains-in_scope ip ir rule.source source,
    addr_contains-in_scope ip ir rule.destination destination,
    services_match-any (service_values ir rule.services) flow,
  )

  abbrev step : PolicyIr → Bool → RuleTrace
  step rule matched = record { rule = rule.name; matched = matched; reason = reason rule }

  Decides-later :
      (done : List RuleTrace) (rule : PolicyIr) (rules : List PolicyIr) (d : Decision)
      → matches rule ≡ false
      → Decides matches (done ++ step rule false ∷ []) rules d
      → Decides matches done (rule ∷ rules) d
  Decides-later done rule rules d passed
        (inl (before, r, after, steps, last, e, none_before, m, names, quiet, decided)) =
      inl (
        rule ∷ before,
        r,
        after,
        step rule false ∷ steps,
        last,
        ap (λ l. rule ∷ l) e,
        ground arith,
        m,
        ap (λ l. rule.name ∷ l) names,
        quiet,
        rw append_assoc at decided,
      )
  Decides-later done rule rules d passed (inr (steps, none_match, names, quiet, decided)) = inr (
    step rule false ∷ steps,
    ground arith,
    ap (λ l. rule.name ∷ l) names,
    quiet,
    rw append_assoc at decided,
  )

  -- The loop returns a decision, and it is the first match's or the default.
  pub evaluate_from-Decides :
      (done : List RuleTrace) (rules : List PolicyIr)
      → (d : Decision) × (evaluate_from ip ir flow done rules ≡ some d)
        × Decides matches done rules d
  unfolding evaluate_from
  evaluate_from-Decides done [] =
      (default_deny done, refl, inr ([], refl, refl, refl, ap default_deny (sym (append-nil done))))
  evaluate_from-Decides done (rule ∷ rules) = elim (Bool-cases (matches rule)) [
    | inl yes_here ↦ (
      decide_by rule (done ++ step rule true ∷ []),
      ground (arith, match_reason-matches rule),
      inl ([], rule, rules, [], reason rule, refl, refl, yes_here, refl, refl, refl),
    )
    | inr passed ↦
        let (d, returned, decides) = evaluate_from-Decides (done ++ step rule false ∷ []) rules in
        (
          d,
          ground (arith, match_reason-matches rule, returned),
          Decides-later done rule rules d passed decides,
        )
  ]

-- A flow between two addresses always gets a decision: the one of the first enabled rule whose
-- source, destination and services take the flow in, or the default denial if there is none.
-- The trace names the rules that were tried, in their order, and marks only the deciding one.
pub evaluate-Decides :
    (ip : IpText) (ir : FirewallIr) (flow : Flow) (source destination : Address)
    → ip.ip_address flow.source ≡ some source
    → ip.ip_address flow.destination ≡ some destination
    → (d : Decision) × (evaluate ip ir flow ≡ some d)
      × Decides (rule_matches ip ir flow source destination) [] ir.policies d
unfolding evaluate
evaluate-Decides ip ir flow source destination s t =
    evaluate_from-Decides ip ir flow source destination s t [] ir.policies
