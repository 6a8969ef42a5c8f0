-- ===== src/Analyzers/Hygiene.antt =====
-- py2fw/analyzers/hygiene.py
use py2fw.Common.{◌&&◌, List, [], ◌∷◌, if◌then◌else◌, ◌==◌, String_eq}
use py2fw.Compiler.Ir.{PolicyIr, FirewallIr}
use py2fw.Analyzers.Models.{Finding, rule_finding}

gaps_of : List PolicyIr → List Finding
gaps_of [] = []
gaps_of (rule ∷ rules) =
    let rest = gaps_of rules in
    if rule.enabled && rule.description == ""
    then rule_finding rule "low" "Missing business justification"
        "Add a description stating why this access is needed."
      ∷ rest
    else rest

unfoldable pub find_documentation_gaps : FirewallIr → List Finding
unfolding gaps_of
find_documentation_gaps ir = gaps_of ir.policies
