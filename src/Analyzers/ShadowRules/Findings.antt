-- ===== src/Analyzers/ShadowRules/Findings.antt =====
-- The findings of find_shadowed_rules in py2fw/analyzers/shadow_rules.py.
use py2fw.Common.{
  ◌≡◌, refl, Bool, not, ◌&&◌, Option, none, some, List, [], ◌∷◌, ◌++◌, select, if◌then◌else◌, ◌==◌,
  String_eq, list_eq, pair_eq, arith,
}
use py2fw.IpAddress.{IpText}
use py2fw.Compiler.Ir.{PolicyIr, FirewallIr}
use py2fw.Engine.Evaluate.Verdict.{first_match}
use py2fw.Analyzers.Models.{Finding}
use py2fw.Analyzers.DuplicateRules.{fingerprint}
use py2fw.Analyzers.ShadowRules.{
  subsumes, rules_overlap, redundant, shadowed, conflicting, scan_earlier, scan_rules,
  find_shadowed_rules,
}

module _ (ip : IpText) (ir : FirewallIr) (rule : PolicyIr) where
  -- An exact duplicate is left to find_duplicate_rules.
  abbrev pub is_duplicate : PolicyIr → Bool
  is_duplicate earlier = earlier.action == rule.action && fingerprint earlier == fingerprint rule

  abbrev pub hides : PolicyIr → Bool
  hides earlier = subsumes ip ir earlier rule && not (is_duplicate earlier)

  abbrev pub conflicts : PolicyIr → Bool
  conflicts earlier =
      not (subsumes ip ir earlier rule)
      && (not (earlier.action == rule.action) && rules_overlap ip ir earlier rule)

  abbrev pub or_else : Option PolicyIr → Option PolicyIr → Option PolicyIr
  or_else (some a) b = some a
  or_else none b = b

  -- What is reported for a rule: it is hidden by one rule, or in conflict with one.
  unfoldable pub report : Option PolicyIr → Option PolicyIr → List Finding
  report (some earlier) conflict =
      if earlier.action == rule.action
      then redundant rule earlier ∷ []
      else shadowed rule earlier ∷ []
  report none (some conflict) = conflicting rule conflict ∷ []
  report none none = []

  scan_earlier_from :
      (conflict : Option PolicyIr) (earlier : List PolicyIr)
      → scan_earlier ip ir rule conflict earlier
        ≡ report (first_match hides earlier) (or_else conflict (first_match conflicts earlier))
  unfolding scan_earlier report
  scan_earlier_from none [] = refl
  scan_earlier_from (some c) [] = refl
  scan_earlier_from none (e ∷ rest) =
      ground (arith, scan_earlier_from none rest, scan_earlier_from (some e) rest)
  scan_earlier_from (some c) (e ∷ rest) = ground (arith, scan_earlier_from (some c) rest)

  -- A rule is reported for the first earlier rule that hides it and is no duplicate; without
  -- such a rule, for the first earlier rule that it conflicts with; and otherwise not at all.
  pub scan_earlier-report :
      (earlier : List PolicyIr)
      → scan_earlier ip ir rule none earlier
        ≡ report (first_match hides earlier) (first_match conflicts earlier)
  scan_earlier-report earlier = scan_earlier_from none earlier

module _ (ip : IpText) (ir : FirewallIr) where
  -- The reports on rules, each against the rules before it.
  unfoldable pub reports : List PolicyIr → List PolicyIr → List Finding
  reports earlier [] = []
  reports earlier (rule ∷ rules) =
      report ip ir rule (first_match (hides ip ir rule) earlier)
        (first_match (conflicts ip ir rule) earlier)
      ++ reports (earlier ++ rule ∷ []) rules

  scan_rules-reports :
      (earlier rules : List PolicyIr) → scan_rules ip ir earlier rules ≡ reports earlier rules
  unfolding scan_rules reports
  scan_rules-reports earlier [] = refl
  scan_rules-reports earlier (rule ∷ rules) =
      rw (scan_earlier-report ip ir rule earlier, scan_rules-reports (earlier ++ rule ∷ []) rules)
        refl

  -- The findings are, for the enabled rules in their order, the report on each against the
  -- enabled rules before it: for the first earlier rule that subsumes it and is no duplicate, a
  -- redundant or a shadowed rule, by whether the actions agree; without such a rule, a conflict
  -- for the first earlier rule with another action that overlaps it and does not subsume it.
  pub find_shadowed_rules-reports :
      find_shadowed_rules ip ir ≡ reports [] (select (λ r. r.enabled) ir.policies)
  unfolding find_shadowed_rules
  find_shadowed_rules-reports = scan_rules-reports [] (select (λ r. r.enabled) ir.policies)
