-- ===== src/Examples/Deciding.antt =====
-- The engine on the sample policy.
use py2fw.Common.{◌≡◌, refl, true, false, some, List, [], ◌∷◌, ◌++◌, any}
use py2fw.IpAddress.{broadcast_address}
use py2fw.Compiler.Ir.{PolicyIr}
use py2fw.Compiler.Query.{address_values, name_values}
use py2fw.Engine.Evaluate.{
  addr_contains, service_matches, match_reason, Decision, matched_action, decide_by, evaluate,
}
use py2fw.Engine.Evaluate.FirstMatch.{Decides, rule_matches, evaluate-Decides}
use py2fw.Engine.Evaluate.Verdict.{evaluate-allowed}
use py2fw.Examples.Samples.{sample_text, sample_ir, sample_flow, lab_host, corp_host, allow_corp}

abbrev sample_decision : Decision
sample_decision =
    decide_by allow_corp
      ((record { rule = "allow-corp"; matched = true; reason = matched_action "allow" }) ∷ [])

sample_evaluation : evaluate sample_text sample_ir sample_flow ≡ some sample_decision
unfolding evaluate match_reason addr_contains service_matches address_values name_values
    broadcast_address
sample_evaluation = refl

evaluate-Decides_example :
    (d : Decision) × (evaluate sample_text sample_ir sample_flow ≡ some d)
    × Decides
        (rule_matches sample_text sample_ir sample_flow lab_host corp_host)
        []
        sample_ir.policies
        d
evaluate-Decides_example =
    evaluate-Decides sample_text sample_ir sample_flow lab_host corp_host refl refl

evaluate-allowed_example :
    (before : List PolicyIr) × (rule : PolicyIr) × (after : List PolicyIr) × (sample_ir.policies
      ≡ before ++ rule ∷ after)
    × (any (rule_matches sample_text sample_ir sample_flow lab_host corp_host) before ≡ false)
    × (rule_matches sample_text sample_ir sample_flow lab_host corp_host rule ≡ true)
    × (rule.action ≡ "allow")
    × (rule.enabled ≡ true)
evaluate-allowed_example =
    evaluate-allowed sample_text sample_flow lab_host corp_host refl refl sample_ir sample_decision
      sample_evaluation refl
