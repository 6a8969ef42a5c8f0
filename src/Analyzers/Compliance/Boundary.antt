-- ===== src/Analyzers/Compliance/Boundary.antt =====
-- Boundary controls and the attack surface: py2fw/analyzers/compliance.py and attack_surface.py.
use package.text.Mathlib.TextEquality.{eq_iff}
use py2fw.Common.{
  ℕ, String, ◌≡◌, refl, ap, ◌∙◌, inl, inr, Bool, true, false, not, ◌&&◌, List, [], ◌∷◌, ◌++◌, all,
  any, any_same, any-select, any-append, any-flat_map, elem, is_empty, arith, if◌then◌else◌, ◌==◌,
  String_eq, Bool-cases, Option-cases,
}
use py2fw.IpAddress.{IpText}
use py2fw.Compiler.Ir.{ServiceIr, PolicyIr, FirewallIr}
use py2fw.Compiler.Query.{address_values, service_values}
use py2fw.Analyzers.Models.{Finding, rule_finding}
use py2fw.Analyzers.AttackSurface.{
  is_broad_source, find_if, high_risk_ports, scope_findings, exposure_findings, high_risk_findings,
  rule_attack_surface, find_attack_surface,
}
use py2fw.Analyzers.Compliance.{
  ControlResult, fail_on_rules, static_controls, flow_control, segment_control, rule_controls,
  catalogue, compliance_report, frameworks, is_fail,
}
use py2fw.Analyzers.ExposureFacts
use py2fw.Analyzers.ExposureFacts.{Facts, listed, facts_of}

abbrev pub is_any_to_any : Finding → Bool
is_any_to_any finding = finding.title == "Any to Any"

-- Lists of other findings, by how the analyzer puts them together.
data Other : List Finding → Type 0 where
  one : (finding : Finding) → is_any_to_any finding ≡ false → Other (finding ∷ [])
  found : (b : Bool) (finding : Finding) → is_any_to_any finding ≡ false → Other (find_if b finding)
  either : (b : Bool) (xs ys : List Finding) → Other xs → Other ys → Other (if b then xs else ys)
  both : (xs ys : List Finding) → Other xs → Other ys → Other (xs ++ ys)
  nothing : Other []

none-Other : (xs : List Finding) → Other xs → any is_any_to_any xs ≡ false
none-Other _ (one finding h) = ground (arith, h)
none-Other _ (found true finding h) = ground (arith, h)
none-Other _ (found false finding h) = refl
none-Other _ (either true xs ys h k) = none-Other xs h
none-Other _ (either false xs ys h k) = none-Other ys k
none-Other _ (both xs ys h k) =
    ground (arith, none-Other xs h, none-Other ys k, any-append is_any_to_any xs ys)
none-Other _ nothing = refl

high_risk_findings-Other :
    (services : List ServiceIr) (rule : PolicyIr) (ports : List (ℕ × String))
    → all (λ (p : ℕ × String). not (p.1 == "Any to Any")) ports ≡ true
    → Other (high_risk_findings services rule ports)
unfolding high_risk_findings
high_risk_findings-Other services rule [] h = nothing
high_risk_findings-Other services rule ((port, title) ∷ ports) h =
    both _ _ (found _ _ (ground (arith, h)))
      (high_risk_findings-Other services rule ports (ground (arith, h)))

scope_findings-Other :
    (ir : FirewallIr) (rule : PolicyIr) (broad : Bool) → Other (scope_findings ir rule broad)
unfolding scope_findings
scope_findings-Other ir rule broad =
    both _ _ (either _ _ _ (one _ refl) (found _ _ refl))
      (both _ _ (found _ _ refl) (found _ _ refl))

exposure_findings-Other : (ir : FirewallIr) (rule : PolicyIr) → Other (exposure_findings ir rule)
unfolding exposure_findings
exposure_findings-Other ir rule =
    both _ _ (high_risk_findings-Other (service_values ir rule.services) rule high_risk_ports refl)
      (both _ _ (found _ _ refl) (found _ _ refl))

-- An enabled allow rule from a broad source to any destination.
abbrev pub is_open : IpText → FirewallIr → PolicyIr → Bool
is_open ip ir rule =
    rule.enabled
    && (rule.action == "allow"
        && (is_broad_source ip (address_values ir rule.source)
            && elem "any" (address_values ir rule.destination)))

rule_attack_surface-is_open :
    (ip : IpText) (ir : FirewallIr) (rule : PolicyIr)
    → any is_any_to_any (rule_attack_surface ip ir rule) ≡ is_open ip ir rule
unfolding rule_attack_surface
rule_attack_surface-is_open ip ir rule =
    let broad = is_broad_source ip (address_values ir rule.source) in
    let rest = if broad then exposure_findings ir rule else [] in
    ground (
      arith,
      any-append is_any_to_any (scope_findings ir rule broad) rest,
      any-append is_any_to_any
          (find_if (broad && elem "any" (address_values ir rule.destination))
            (rule_finding rule "critical" "Any to Any" ""))
          (scope_findings ir rule broad ++ rest),
      none-Other (scope_findings ir rule broad) (scope_findings-Other ir rule broad),
      none-Other (exposure_findings ir rule) (exposure_findings-Other ir rule),
      eq_iff "Any to Any" "Any to Any",
    )

-- The two copies of the test for a broad source agree.
is_broad_source-same :
    (ip : IpText) (values : List String)
    → ExposureFacts.is_broad_source ip values ≡ is_broad_source ip values
unfolding ExposureFacts.is_broad_source is_broad_source
is_broad_source-same ip [] = refl
is_broad_source-same ip (value ∷ values) = elim (Option-cases (ip.ip_network value)) [
  | inl e ↦ ground (arith, e, is_broad_source-same ip values)
  | inr (net, e) ↦ ground (arith, e, is_broad_source-same ip values)
]

listed-is_open :
    (ip : IpText) (ir : FirewallIr) (rules : List PolicyIr)
    → is_empty (listed ip ir (λ broad anywhere ports. broad && anywhere) rules)
      ≡ not (any (is_open ip ir) rules)
unfolding listed
listed-is_open ip ir [] = refl
listed-is_open ip ir (rule ∷ rules) =
    ground
      (arith, listed-is_open ip ir rules, is_broad_source-same ip (address_values ir rule.source))

-- The control of a framework with a number, in the report of all frameworks, has failed.
abbrev pub fails : IpText → FirewallIr → String → String → Bool
fails ip ir framework control =
    any (λ r. r.framework == framework && (r.control == control && is_fail r))
      (compliance_report ip ir frameworks)

any_to_any-is_open :
    (ip : IpText) (ir : FirewallIr)
    → any is_any_to_any (find_attack_surface ip ir) ≡ any (is_open ip ir) ir.policies
unfolding find_attack_surface
any_to_any-is_open ip ir =
    any-flat_map is_any_to_any (rule_attack_surface ip ir) ir.policies
    ∙ any_same (λ rule. any is_any_to_any (rule_attack_surface ip ir rule)) (is_open ip ir)
        (rule_attack_surface-is_open ip ir) ir.policies

-- A result is for the control and has failed.
abbrev is_failure_of : String → String → ControlResult → Bool
is_failure_of framework control r =
    elem r.framework frameworks && (r.framework == framework && (r.control == control && is_fail r))

fails_in_catalogue :
    (ip : IpText) (ir : FirewallIr) (framework control : String)
    → fails ip ir framework control
      ≡ any (is_failure_of framework control) (catalogue (facts_of ip ir))
unfolding compliance_report
fails_in_catalogue ip ir framework control =
    any-select (λ (r : ControlResult). elem r.framework frameworks)
      (λ r. r.framework == framework && (r.control == control && is_fail r))
      (catalogue (facts_of ip ir))

fail_on_rules-is_failure :
    (framework control f c title : String) (rules : List String) (ok_detail fail_detail : String)
    → is_failure_of framework control (fail_on_rules f c title rules ok_detail fail_detail)
      ≡ (elem f frameworks && (f == framework && (c == control && not (is_empty rules))))
fail_on_rules-is_failure framework control f c title [] ok_detail fail_detail = refl
fail_on_rules-is_failure framework control f c title (rule ∷ rules) ok_detail fail_detail = refl

unfailed :
    (framework control : String) (results : List ControlResult)
    → all (λ r. not (is_fail r)) results ≡ true
    → any (is_failure_of framework control) results ≡ false
unfailed framework control [] h = refl
unfailed framework control (r ∷ results) h =
    ground (arith, h, unfailed framework control results (ground (arith, h)))

flow_control_unfailed : (facts : Facts) → is_fail (flow_control facts) ≡ false
flow_control_unfailed facts = elim (Bool-cases facts.explicit_rules) [
  | inl e ↦ rw e refl
  | inr e ↦ rw e refl
]

segment_control_unfailed : (facts : Facts) → is_fail (segment_control facts) ≡ false
segment_control_unfailed facts = elim (Bool-cases (is_empty facts.segmentation_rules)) [
  | inl e ↦ rw e refl
  | inr e ↦ rw e refl
]

rest_passes :
    (framework control : String) (facts : Facts)
    → any
        (is_failure_of framework control)
        (static_controls ++ flow_control facts ∷ segment_control facts ∷ [])
      ≡ false
rest_passes framework control facts =
    unfailed framework control (static_controls ++ flow_control facts ∷ segment_control facts ∷ [])
      (ap (λ b. not b && (not (is_fail (segment_control facts)) && true))
          (flow_control_unfailed facts)
        ∙ ap (λ b. not b && true) (segment_control_unfailed facts))

-- The controls that rules can fail: one of them fails when a list is not empty that has its
-- number.
rule_controls-is_failure :
    (framework control : String) (facts : Facts)
    → any (is_failure_of framework control) (catalogue facts)
      ≡ any (is_failure_of framework control) (rule_controls facts)
unfolding catalogue
rule_controls-is_failure framework control facts = ground (
  arith,
  any-append (is_failure_of framework control) (rule_controls facts)
      (static_controls ++ flow_control facts ∷ segment_control facts ∷ []),
  rest_passes framework control facts,
)

boundary_controls :
    (facts : Facts)
    → (any (is_failure_of "pci" "1.4.1") (rule_controls facts) ≡ not (is_empty facts.any_to_any))
      × (any (is_failure_of "nist" "SC-7") (rule_controls facts) ≡ not (is_empty facts.any_to_any))
      × (any (is_failure_of "cis" "4.4") (rule_controls facts) ≡ not (is_empty facts.any_to_any))
unfolding rule_controls
boundary_controls facts = (
  simp (fail_on_rules-is_failure) (ground arith),
  simp (fail_on_rules-is_failure) (ground arith),
  simp (fail_on_rules-is_failure) (ground arith),
)

-- The boundary controls of all three frameworks, PCI DSS 1.4.1, NIST SC-7 and CIS 4.4, fail exactly
-- when the attack surface analyzer reports an any-to-any rule on the same policy.
pub compliance_report-any_to_any :
    (ip : IpText) (ir : FirewallIr)
    → (fails ip ir "pci" "1.4.1" ≡ any is_any_to_any (find_attack_surface ip ir))
      × (fails ip ir "nist" "SC-7" ≡ any is_any_to_any (find_attack_surface ip ir))
      × (fails ip ir "cis" "4.4" ≡ any is_any_to_any (find_attack_surface ip ir))
unfolding facts_of
compliance_report-any_to_any ip ir =
    let facts = facts_of ip ir in
    let (pci, nist, cis) = boundary_controls facts in
    let listed_open : not (is_empty facts.any_to_any)
        ≡ any is_any_to_any (find_attack_surface ip ir) =
      ground (arith, listed-is_open ip ir ir.policies, any_to_any-is_open ip ir) in
    let control : (framework control : String)
        → any (is_failure_of framework control) (rule_controls facts)
          ≡ not (is_empty facts.any_to_any)
        → fails ip ir framework control ≡ any is_any_to_any (find_attack_surface ip ir) =
      λ framework control e.
        fails_in_catalogue ip ir framework control
        ∙ (rule_controls-is_failure framework control facts ∙ (e ∙ listed_open)) in
    (control "pci" "1.4.1" pci, control "nist" "SC-7" nist, control "cis" "4.4" cis)
