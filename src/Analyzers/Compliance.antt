-- ===== src/Analyzers/Compliance.antt =====
-- py2fw/analyzers/compliance.py. The upper case of an unknown framework's name is a parameter; a set
-- of ports that is only tested is a list.
pub mod Boundary
use py2fw.Common.{
  ◌+◌, ◌-◌, String, Bool, true, false, not, Option, none, some, List, [], ◌∷◌, ◌++◌, all, map, elem,
  is_empty, select, length, if◌then◌else◌, ◌==◌, ℕ_eq, String_eq, text, str_ℕ, join,
}
use py2fw.IpAddress.{IpText}
use py2fw.Compiler.Ir.{FirewallIr}
use py2fw.Analyzers.Models.{Finding}
use py2fw.Analyzers.ExposureFacts.{Facts, excessive_exposure, facts_of}

pub data Status : Type 0 where
  pass review fail : Status

pub record ControlResult : Type 0 where
  pub framework : String
  pub control : String
  pub title : String
  pub status : Status
  pub detail : String
  pub rules : List String

abbrev pub frameworks : List String
frameworks = "pci" ∷ "nist" ∷ "cis" ∷ []

abbrev pub control_result : String → String → String → Status → String → List String → ControlResult
control_result framework control title status detail rules = record {
  framework = framework;
  control = control;
  title = title;
  status = status;
  detail = detail;
  rules = rules;
}

-- A round of the loop over `_FAIL_ON_RULES`, with the rules that the entry's attribute names.
abbrev pub fail_on_rules : String → String → String → List String → String → String → ControlResult
fail_on_rules framework control title [] ok_detail fail_detail =
    control_result framework control title pass ok_detail []
fail_on_rules framework control title (rule ∷ rules) ok_detail fail_detail =
    control_result framework control title fail
      (text (fail_detail ∷ ": " ∷ join ", " (rule ∷ rules) ∷ [])) (rule ∷ rules)

-- `_FAIL_ON_RULES`
unfoldable pub rule_controls : Facts → List ControlResult
unfolding excessive_exposure
rule_controls facts =
    fail_on_rules "pci" "1.2.1" "NSC rulesets restrict traffic to that which is necessary"
      facts.untrusted_all_ports "Rules from untrusted sources are restricted to specific services."
      "Untrusted source permitted to all ports"
    ∷ fail_on_rules "pci" "1.2.5" "Only necessary ports, protocols and services are allowed"
        facts.untrusted_wide_range "No broad port ranges are opened to untrusted sources."
        "Wide port range opened to an untrusted source"
    ∷ fail_on_rules "pci" "1.4.1" "NSCs are implemented between trusted and untrusted networks"
        facts.any_to_any "Default-deny is enforced and no permit-any-any rule exists."
        "Permit any-to-any rule defeats the boundary control"
    ∷ fail_on_rules "pci" "1.4.4"
        "Stored-cardholder-data components are not directly reachable from untrusted networks"
        facts.internet_to_database "No rule exposes a database port to an untrusted source."
        "Database port reachable from an untrusted network"
    ∷ fail_on_rules "nist" "SC-7" "Boundary Protection" facts.any_to_any
        "Boundary protection with deny-by-default is in effect."
        "any-to-any allow rule weakens boundary protection"
    ∷ fail_on_rules "nist" "CM-7" "Least Functionality" (excessive_exposure facts)
        "Services exposed to untrusted sources are narrowly scoped."
        "Excessive services/ports exposed to untrusted sources"
    ∷ fail_on_rules "cis" "4.4" "Implement and Manage a Firewall on Servers" facts.any_to_any
        "Traffic filtering with an explicit default-deny is defined."
        "any-to-any allow rule present"
    ∷ []

-- `_STATIC`
abbrev pub static_controls : List ControlResult
static_controls =
    control_result "pci" "1.3.2" "Outbound traffic from the CDE is restricted" review
      "Py2FW does not model traffic direction or zones; review egress rules manually." []
    ∷ control_result "nist" "SC-7(5)" "Deny by Default / Allow by Exception" pass
        "Policy evaluation applies an implicit default-deny after the last rule." []
    ∷ control_result "nist" "AU-2 / SI-4" "Event Logging / System Monitoring" review
        "Rule-level logging is not modeled; confirm logging on the target device." []
    ∷ control_result "cis" "12.2" "Establish and Maintain a Secure Network Architecture" review
        "Architecture review (zones, DMZ placement) is outside Py2FW's policy model." []
    ∷ []

abbrev pub flow_control : Facts → ControlResult
flow_control facts =
    control_result "nist" "AC-4" "Information Flow Enforcement"
      (if facts.explicit_rules then pass else review)
      (if facts.explicit_rules
        then "Every rule names an explicit source, destination and service."
        else "Some rules omit source, destination or service.")
      []

abbrev pub segment_control : Facts → ControlResult
segment_control facts =
    let title : String = "Perform Traffic Filtering Between Network Segments" in
    if is_empty facts.segmentation_rules
    then control_result "cis" "13.4" title review "No specific segment-to-segment rules detected."
        []
    else control_result "cis" "13.4" title pass
        (text (
          str_ℕ (length facts.segmentation_rules)
          ∷ " scoped segment-to-segment rule(s) defined."
          ∷ []))
        facts.segmentation_rules

-- `_catalogue`
unfoldable pub catalogue : Facts → List ControlResult
unfolding rule_controls
catalogue facts =
    rule_controls facts ++ (static_controls ++ flow_control facts ∷ segment_control facts ∷ [])

unfoldable pub compliance_report : IpText → FirewallIr → List String → List ControlResult
unfolding catalogue facts_of
compliance_report ip ir selected =
    select (λ r. elem r.framework selected) (catalogue (facts_of ip ir))

abbrev pub is_fail : ControlResult → Bool
is_fail result = elim result.status [ fail ↦ true | _ ↦ false ]

abbrev pub framework_title : (String → String) → String → String
framework_title upper name =
    if name == "pci"
    then "PCI DSS v4.0"
    else if name == "nist"
    then "NIST SP 800-53 Rev 5"
    else if name == "cis"
    then "CIS Controls v8"
    else upper name

abbrev pub first_rule : List String → Option String
first_rule [] = none
first_rule (rule ∷ rules) = some rule

abbrev pub gap_finding : (String → String) → ControlResult → Finding
gap_finding upper result = record {
  severity = "high";
  title =
      text
        ("Compliance gap: " ∷ framework_title upper result.framework ∷ " " ∷ result.control ∷ []);
  rule = first_rule result.rules;
  detail = text (result.title ∷ " - " ∷ result.detail ∷ []);
  line = none;
  location = "";
}

unfoldable pub find_compliance_gaps : (String → String) → IpText → FirewallIr → List Finding
unfolding compliance_report
find_compliance_gaps upper ip ir =
    map (gap_finding upper) (select is_fail (compliance_report ip ir frameworks))
