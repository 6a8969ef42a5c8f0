-- ===== src/Engine/Evaluate/Verdict.antt =====
-- The verdicts of evaluate, in the file py2fw/engine/evaluate.py: what allows a flow, and which
-- rules can be left out.
use py2fw.Common.{
  String, ◌≡◌, refl, sym, Bool, true, false, Option, none, some, List, [], ◌∷◌, ◌++◌, any,
  if◌then◌else◌, ◌==◌, String_eq, arith, ◌∙◌, ap, inl, inr, Bool-cases,
}
use text.Mathlib.TextEquality.{eq_iff}
use py2fw.IpAddress.{Address, IpText}
use py2fw.Compiler.Ir.{PolicyIr, FirewallIr}
use py2fw.Compiler.Query.{name_values, service_values}
use py2fw.Engine.Evaluate.{Flow, Decision, evaluate}
use py2fw.Engine.Evaluate.FirstMatch.{rule_matches, Decides, evaluate-Decides}

abbrev pub first_match : (PolicyIr → Bool) → List PolicyIr → Option PolicyIr
first_match matches [] = none
first_match matches (rule ∷ rules) =
    let rest = first_match matches rules in if matches rule then some rule else rest

abbrev pub action_of : Option PolicyIr → String
action_of none = "deny"
action_of (some rule) = rule.action

-- A decision without its trace.
pub record Outcome : Type 0 where
  pub allowed : Bool
  pub action : String
  pub matched_rule : Option PolicyIr
  pub default_applied : Bool

abbrev pub outcome : Decision → Outcome
outcome d = record {
  allowed = d.allowed;
  action = d.action;
  matched_rule = d.matched_rule;
  default_applied = d.default_applied;
}

-- `none` is still the ValueError.
abbrev pub outcome? : Option Decision → Option Outcome
outcome? none = none
outcome? (some d) = some (outcome d)

abbrev pub outcome_of : Option PolicyIr → Outcome
outcome_of none = record {
  allowed = false;
  action = "deny";
  matched_rule = none;
  default_applied = true;
}
outcome_of (some rule) = record {
  allowed = rule.action == "allow";
  action = rule.action;
  matched_rule = some rule;
  default_applied = false;
}

first_match_at :
    (m : PolicyIr → Bool) (before : List PolicyIr) (rule : PolicyIr) (after : List PolicyIr)
    → any m before ≡ false
    → m rule ≡ true
    → first_match m (before ++ rule ∷ after) ≡ some rule
first_match_at m [] rule after h k = ground arith
first_match_at m (r ∷ before) rule after h k = ground (arith, first_match_at m before rule after)

first_match-none :
    (m : PolicyIr → Bool) (rules : List PolicyIr) → any m rules ≡ false → first_match m rules ≡ none
first_match-none m [] h = refl
first_match-none m (r ∷ rules) h = ground (arith, first_match-none m rules)

Decides-outcome :
    (m : PolicyIr → Bool) (rules : List PolicyIr) (d : Decision)
    → Decides m [] rules d
    → outcome d ≡ outcome_of (first_match m rules)
Decides-outcome m rules d (inl (before, rule, after, steps, last, e, quiet, here, _, _, decided)) =
    rw (e, first_match_at m before rule after quiet here) (ap outcome decided)
Decides-outcome m rules d (inr (steps, none_match, _, _, decided)) =
    rw (first_match-none m rules none_match) (ap outcome decided)

-- A rule that matches only what a rule before it matches too is never the first match.
first_match_without :
    (m : PolicyIr → Bool) (before : List PolicyIr) (rule : PolicyIr) (after : List PolicyIr)
    → (m rule ≡ true → any m before ≡ true)
    → first_match m (before ++ rule ∷ after) ≡ first_match m (before ++ after)
first_match_without m [] rule after h = ground (arith, h)
first_match_without m (r ∷ before) rule after h = elim (Bool-cases (m r)) [
  | inl here ↦ rw here
  | inr there ↦ rw there (first_match_without m before rule after (λ k. ground (arith, h k)))
]

first_match_found :
    (m : PolicyIr → Bool) (rules : List PolicyIr) (rule : PolicyIr)
    → first_match m rules ≡ some rule
    → (before : List PolicyIr) × (after : List PolicyIr) × (rules ≡ before ++ rule ∷ after)
      × (any m before ≡ false)
      × (m rule ≡ true)
first_match_found m [] rule h = absurd (ground arith)
first_match_found m (r ∷ rules) rule h = elim (Bool-cases (m r)) [
  | inl here ↦ ([], rules, ground arith, refl, ground arith)
  | inr there ↦
      let (before, after, e, quiet, found) = first_match_found m rules rule (ground arith) in
      (r ∷ before, after, ap (λ l. r ∷ l) e, ground arith, found)
]

module _ (ip : IpText) (flow : Flow) (source destination : Address)
    (source_parsed : ip.ip_address flow.source ≡ some source)
    (destination_parsed : ip.ip_address flow.destination ≡ some destination) where
  abbrev matches : FirewallIr → PolicyIr → Bool
  matches ir = rule_matches ip ir flow source destination

  evaluate-outcome :
      (ir : FirewallIr)
      → outcome? (evaluate ip ir flow) ≡ some (outcome_of (first_match (matches ir) ir.policies))
  evaluate-outcome ir =
      let (d, returned, decides) =
        evaluate-Decides ip ir flow source destination source_parsed destination_parsed in
      rw returned (ap some (Decides-outcome _ ir.policies d decides))

  allowed_by_rule :
      (o : Option PolicyIr)
      → (outcome_of o).allowed ≡ true
      → (rule : PolicyIr) × (o ≡ some rule) × (rule.action ≡ "allow")
  allowed_by_rule none h = absurd (ground arith)
  allowed_by_rule (some rule) h = (rule, refl, (eq_iff rule.action "allow").0 h)

  -- A flow between two addresses is allowed only by an enabled rule of the policy with the action
  -- allow that matches the flow, and that no matching rule precedes.
  pub evaluate-allowed :
      (ir : FirewallIr) (d : Decision)
      → evaluate ip ir flow ≡ some d
      → d.allowed ≡ true
      → (before : List PolicyIr) × (rule : PolicyIr) × (after : List PolicyIr) × (ir.policies
          ≡ before ++ rule ∷ after)
        × (any (rule_matches ip ir flow source destination) before ≡ false)
        × (rule_matches ip ir flow source destination rule ≡ true)
        × (rule.action ≡ "allow")
        × (rule.enabled ≡ true)
  evaluate-allowed ir d e h =
      let same : some (outcome d) ≡ some (outcome_of (first_match (matches ir) ir.policies)) =
        ap outcome? (sym e) ∙ evaluate-outcome ir in
      let (rule, first, allow) =
        allowed_by_rule (first_match (matches ir) ir.policies) (ground (arith, same, h)) in
      let (before, after, split, quiet, here) =
        first_match_found (matches ir) ir.policies rule first in
      (before, rule, after, split, quiet, here, allow, ground (arith, here))

  -- For a flow between two addresses, a rule that matches it only if a rule before does can be
  -- removed: the flow keeps its verdict, its action and its deciding rule.
  pub evaluate_without :
      (ir : FirewallIr) (before : List PolicyIr) (rule : PolicyIr) (after : List PolicyIr)
      → ir.policies ≡ before ++ rule ∷ after
      → (rule_matches ip ir flow source destination rule ≡ true
          → any (rule_matches ip ir flow source destination) before ≡ true)
      → outcome? (evaluate ip ir flow)
        ≡ outcome? (evaluate ip (record ir { policies = before ++ after }) flow)
  unfolding name_values service_values
  evaluate_without ir before rule after e h =
      let m : PolicyIr → Bool = matches ir in
      evaluate-outcome ir
      ∙ (ap (λ l. some (outcome_of (first_match m l))) e
          ∙ (ap (λ o. some (outcome_of o)) (first_match_without m before rule after h)
              ∙ sym (evaluate-outcome (record ir { policies = before ++ after }))))
