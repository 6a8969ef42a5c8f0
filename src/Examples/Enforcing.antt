-- ===== src/Examples/Enforcing.antt =====
-- The baseline and the gate on the sample policy.
use package.text.Mathlib.TextEquality.{eq_iff}
use py2fw.Common.{
  false, ◌++◌, ℕ, ◌≤◌, ◌<◌, String, ◌≡◌, ◌≢◌, ◌↔◌, ◌⊎◌, refl, true, not, ◌&&◌, none, some, [], ◌∷◌,
  any, all, arith, ◌==◌, String_eq, if◌then◌else◌,
}
use py2fw.IpAddress.{broadcast_address}
use py2fw.Parser.Schema.{FlowTestModel}
use py2fw.Compiler.Ir.{ExceptionIr, FirewallIr}
use py2fw.Compiler.Query.{address_values, name_values, service_values}
use py2fw.Compiler.Issues.{ValidationIssue}
use py2fw.Analyzers.Models.{Finding, AnalysisReport}
use py2fw.Analyzers.Gate.{
  GateReport, passed, waivers_onto, severity_rank, effective_fail_on, classify, evaluate_gate,
  waived, warning, violation,
}
use py2fw.Analyzers.Gate.Verdicts.{
  rank, Holds, classify-waived_iff, classify-warning_iff, classify-critical,
  effective_fail_on_strict,
}
use py2fw.Analyzers.Gate.Passing.{blocks, evaluate_gate-passed}
use py2fw.Verify.Regression.{FlowTestResult}
use py2fw.Enforcement.Controls.{
  unset, cidrs, ForbiddenModel, ControlsModel, BaselineModel, Controls, default_controls,
  resolve_controls, merge_layers,
}
use py2fw.Enforcement.Controls.Layers.{
  first_set, first_some, resolve_controls_overrides, resolve_controls_keeps_forbidden,
}
use py2fw.Enforcement.Baseline.{forbidden_finding, matches, enforce_baseline}
use py2fw.Enforcement.Baseline.Forbidden.{enforce_baseline_reports}
use py2fw.Examples.Samples.{sample_text, sample_ir, allow_corp, deny_lab}

abbrev date_text : ℕ → String
date_text day = "2026-01-01"

abbrev open_finding : Finding
open_finding = record {
  severity = "high";
  title = "Internet exposure";
  rule = some "allow-corp";
  detail = "";
  line = none;
  location = "";
}

abbrev sample_waiver : ExceptionIr
sample_waiver = record {
  rule = "allow-corp";
  finding = "Internet exposure";
  reason = "migration";
  expires = 120;
  ticket = "";
  line = none;
  location = "";
}

abbrev strict_controls : Controls
strict_controls = record (default_controls "prod") {
  max_exception_days = some 30;
  baseline_sha256 = "ab";
}

waiver-Holds : Holds strict_controls 100 sample_waiver
waiver-Holds = (refl, ground arith, λ limit l. ground (arith, l))

classify-waived_iff_example :
    ((classify date_text open_finding (some sample_waiver) 2 strict_controls 100).verdict ≡ waived)
    ↔ ((2 ≤ rank "high")
        × (open_finding.severity ≢ "critical")
        × (w : ExceptionIr) × (some sample_waiver ≡ some w)
        × Holds strict_controls 100 w)
classify-waived_iff_example =
    classify-waived_iff date_text open_finding strict_controls 100 (some sample_waiver) 2

classify-warning_iff_example :
    ((classify date_text open_finding none 3 strict_controls 100).verdict ≡ warning)
    ↔ (rank "high" < 3)
classify-warning_iff_example =
    classify-warning_iff date_text open_finding strict_controls 100 none 3

classify-critical_example :
    (classify date_text
      (record open_finding { severity = "critical" })
      (some sample_waiver)
      2
      strict_controls
      100).verdict
    ≡ violation
unfolding severity_rank
classify-critical_example =
    classify-critical date_text (record open_finding { severity = "critical" }) strict_controls 100
      (some sample_waiver) "high" 2 refl refl

effective_fail_on_strict_example :
    (rank "high" ≤ rank "high")
    × (rank "high" ≤ rank "critical")
    × ((strict_controls.fail_on ≡ "critical") ⊎ (strict_controls.fail_on ≡ strict_controls.fail_on))
unfolding effective_fail_on severity_rank
effective_fail_on_strict_example =
    effective_fail_on_strict "critical" strict_controls "high"
      (λ e. ground (arith, e, eq_iff "ab" "")) refl

abbrev waiving_ir : FirewallIr
waiving_ir = record sample_ir { exceptions = sample_waiver ∷ [] }

abbrev analysis : AnalysisReport
analysis = record { risk_score = 25; findings = open_finding ∷ [] }

evaluate_gate-passed_example :
    (gate : GateReport) × (evaluate_gate date_text waiving_ir analysis [] none strict_controls []
        100
      ≡ some gate)
    × (passed gate ≡ (
        all (λ (i : ValidationIssue). i.severity == "warning") []
        && (all
              (λ f.
                not
                  (blocks date_text strict_controls 100 (waivers_onto [] (sample_waiver ∷ [])) 2 f))
              (open_finding ∷ [])
            && all (λ (t : FlowTestResult). t.passed) [])))
unfolding severity_rank effective_fail_on
evaluate_gate-passed_example =
    evaluate_gate-passed date_text strict_controls 100 waiving_ir analysis [] none [] "high" 2 refl
      refl

abbrev no_lab : ForbiddenModel
no_lab = record {
  name = "corp over https";
  source = cidrs ("10.1.0.0/16" ∷ []);
  destination = unset;
  protocol = some "tcp";
  ports = some (443 ∷ []);
  severity = "high";
  description = "";
}

abbrev probe : FlowTestModel
probe = record {
  name = "lab";
  src = "lab";
  dst = "corp";
  protocol = "tcp";
  port = some 443;
  expect = "deny";
}

abbrev no_layer : ControlsModel
no_layer = record {
  fail_on = none;
  require_fields = none;
  allow_exceptions = none;
  max_exception_days = none;
  required_approvals = none;
  sign_approvals = none;
  allowed_targets = none;
  forbidden = [];
  tests = [];
}

abbrev prod_layer : ControlsModel
prod_layer = record no_layer { fail_on = some "medium" }

abbrev sample_baseline : BaselineModel
sample_baseline = record {
  version = 1;
  defaults = record no_layer { forbidden = no_lab ∷ []; tests = probe ∷ [] };
  environments = ("prod", prod_layer) ∷ [];
}

abbrev prod_controls : Controls
prod_controls = merge_layers (sample_baseline.defaults ∷ prod_layer ∷ []) "prod" "ab" "file"

prod_resolved : resolve_controls (some sample_baseline) "prod" "ab" "file" ≡ some prod_controls
unfolding resolve_controls
prod_resolved = refl

resolve_controls_overrides_example :
    (controls : Controls) × (resolve_controls (some sample_baseline) "prod" "ab" "file"
      ≡ some controls)
    × (controls.environment ≡ "prod")
    × (controls.fail_on ≡ first_set prod_layer.fail_on no_layer.fail_on "high")
    × (controls.require_fields ≡ first_set prod_layer.require_fields no_layer.require_fields [])
    × (controls.allow_exceptions
        ≡ first_set prod_layer.allow_exceptions no_layer.allow_exceptions true)
    × (controls.max_exception_days
        ≡ first_some prod_layer.max_exception_days no_layer.max_exception_days)
    × (controls.required_approvals
        ≡ first_set prod_layer.required_approvals no_layer.required_approvals 0)
    × (controls.sign_approvals ≡ first_set prod_layer.sign_approvals no_layer.sign_approvals false)
    × (controls.allowed_targets ≡ first_set prod_layer.allowed_targets no_layer.allowed_targets [])
    × (controls.forbidden ≡ (no_lab ∷ []) ++ [])
    × (controls.tests ≡ (probe ∷ []) ++ [])
unfolding py2fw.Common.get
resolve_controls_overrides_example =
    resolve_controls_overrides sample_baseline "prod" "ab" "file" prod_layer refl refl

resolve_controls_keeps_forbidden_example :
    any (λ pattern. pattern.name == "corp over https") prod_controls.forbidden ≡ true
resolve_controls_keeps_forbidden_example =
    resolve_controls_keeps_forbidden sample_baseline "prod" "ab" "file" prod_controls prod_resolved
      (λ pattern. pattern.name == "corp over https") refl

abbrev forbidden_controls : Controls
forbidden_controls = record (default_controls "prod") { forbidden = no_lab ∷ [] }

enforce_baseline_reports_example :
    any (λ f. f.title == "Baseline: corp over https") (forbidden_finding allow_corp no_lab ∷ [])
    ≡ true
unfolding enforce_baseline matches address_values name_values service_values broadcast_address
enforce_baseline_reports_example =
    enforce_baseline_reports sample_text sample_ir forbidden_controls
      (forbidden_finding allow_corp no_lab ∷ []) [] allow_corp (deny_lab ∷ []) [] no_lab [] refl
      refl refl refl refl refl (λ f. f.title == "Baseline: corp over https") refl
