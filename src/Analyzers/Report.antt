-- ===== src/Analyzers/Report.antt =====
-- analyze_ir of py2fw/analyzers/engine.py.
use py2fw.Common.{◌++◌, List}
use py2fw.IpAddress.{IpText}
use py2fw.Compiler.Ir.{FirewallIr}
use py2fw.Analyzers.Models.{Finding, AnalysisReport}
use py2fw.Analyzers.AttackSurface.{find_attack_surface}
use py2fw.Analyzers.DuplicateRules.{find_duplicate_rules}
use py2fw.Analyzers.ShadowRules.{find_shadowed_rules}
use py2fw.Analyzers.UnusedObjects.{find_unused_objects, find_unused_services}
use py2fw.Analyzers.Hygiene.{find_documentation_gaps}
use py2fw.Analyzers.RiskScore.{calculate_risk_score}

unfoldable pub analyze_ir : IpText → FirewallIr → AnalysisReport
analyze_ir ip ir =
    let findings : List Finding =
      find_attack_surface ip ir
      ++ (find_duplicate_rules ir
          ++ (find_shadowed_rules ip ir
              ++ (find_unused_objects ir
                  ++ (find_unused_services ir ++ find_documentation_gaps ir)))) in
    record { risk_score = calculate_risk_score findings; findings = findings }
