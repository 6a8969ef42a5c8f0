-- ===== src/Analyzers/Models.antt =====
-- py2fw/analyzers/models.py
use py2fw.Common.{ℕ, String, Option, some, List, select, ◌==◌, String_eq}
use py2fw.Compiler.Ir.{PolicyIr}

pub record Finding : Type 0 where
  pub severity : String
  pub title : String
  pub rule : Option String
  pub detail : String
  pub line : Option ℕ
  pub location : String

abbrev pub rule_finding : PolicyIr → String → String → String → Finding
rule_finding rule severity title detail = record {
  severity = severity;
  title = title;
  rule = some rule.name;
  detail = detail;
  line = rule.line;
  location = rule.location;
}

pub record AnalysisReport : Type 0 where
  pub risk_score : ℕ
  pub findings : List Finding

abbrev pub by_severity : AnalysisReport → String → List Finding
by_severity report severity = select (λ finding. finding.severity == severity) report.findings
