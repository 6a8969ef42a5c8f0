-- ===== src/Release/Summary.antt =====
-- What a plan says of a check: the summary of the gate, the changes of the policy, and what
-- stands against a deployment, of py2fw/release/plan.py.
pub mod Clear
use py2fw.Common.{
  String, Bool, true, false, not, ◌&&◌, List, [], ◌∷◌, ◌++◌, map, select, is_empty, length,
  if◌then◌else◌, ◌==◌, String_eq, text, join,
}
use py2fw.Engine.Diff.{RuleChange, Kind, added, removed, modified, risk}
use py2fw.Enforcement.Controls.{target_allowed}
use py2fw.Analyzers.Gate.{Verdict, violation, warning, waived, GateItem, GateReport, passed}
use py2fw.Verify.Config.{CheckKind, syntax, native_syntax, intent}
use py2fw.Cli.Pipeline.{PolicyCheck, RenderedConfig}
use py2fw.Release.Content.{GateSummary}

-- `verdict == other`
abbrev pub same_verdict : Verdict → Verdict → Bool
same_verdict violation violation = true
same_verdict warning warning = true
same_verdict waived waived = true
same_verdict _ _ = false

abbrev pub by_verdict : Verdict → GateReport → List GateItem
by_verdict verdict gate = select (λ item. same_verdict item.verdict verdict) gate.items

unfoldable pub gate_summary : PolicyCheck → GateSummary
gate_summary check = record {
  passed = passed check.gate;
  fail_on = check.gate.fail_on;
  violations = map (λ item. item.finding.title) (by_verdict violation check.gate);
  waived_items =
      map
        (λ item. record {
          rule = item.finding.rule;
          finding = item.finding.title;
          note = item.note;
        })
        (by_verdict waived check.gate);
  warnings = length (by_verdict warning check.gate);
  tests = check.gate.tests;
}

same_kind : Kind → Kind → Bool
same_kind added added = true
same_kind removed removed = true
same_kind modified modified = true
same_kind _ _ = false

-- The properties `added`, `removed` and `modified` of a difference.
of_kind : Kind → List RuleChange → List RuleChange
unfolding same_kind
of_kind kind changes = select (λ change. same_kind change.kind kind) changes

unfoldable pub change_lines : List RuleChange → List String
unfolding of_kind
change_lines changes =
    map (λ c. text ("+ " ∷ c.name ∷ " added" ∷ [])) (of_kind added changes)
    ++ (map (λ c. text ("- " ∷ c.name ∷ " removed" ∷ [])) (of_kind removed changes)
        ++ (map (λ c. text ("~ " ∷ c.name ∷ ": " ∷ join "; " c.notes ∷ []))
              (of_kind modified changes)
            ++ text ("security impact: " ∷ risk changes ∷ []) ∷ []))

-- `value or "this environment"`
abbrev pub environment_or : String → String
environment_or environment = if environment == "" then "this environment" else environment

abbrev pub kind_name : CheckKind → String
kind_name syntax = "syntax"
kind_name native_syntax = "native-syntax"
kind_name intent = "intent"

-- `_blockers`
unfoldable pub blockers_of : PolicyCheck → RenderedConfig → Bool → List String
blockers_of check rendered allow_lossy =
    map (λ item. text ("gate: " ∷ item.finding.title ∷ [])) (by_verdict violation check.gate)
    ++ ((if target_allowed check.controls rendered.exporter.name
          then []
          else text (
              "target "
              ∷ rendered.exporter.name
              ∷ " is not approved for "
              ∷ environment_or check.controls.environment
              ∷ [])
            ∷ [])
        ++ (map (λ c. text (kind_name c.kind ∷ ": " ∷ c.detail ∷ []))
              (select (λ c. not c.passed) rendered.checks)
            ++ (if not (is_empty rendered.lossy) && not allow_lossy
                then map (λ warning. text ("lossy: " ∷ warning ∷ [])) rendered.lossy
                else [])))
