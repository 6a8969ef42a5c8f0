-- ===== src/Examples/Piping.antt =====
-- The pipeline and the commands on the sample world.
use py2fw.Common.{
  String, List, refl, sym, true, false, none, some, [], ◌∷◌, ◌≡◌, ◌≢◌, ◌↔◌, ◌⊎◌, inl, All, all, any,
  elem, get, not, ◌&&◌, String_eq, if◌then◌else◌, ◌==◌,
}
use py2fw.Compiler.Ir.{PolicyIr}
use py2fw.Enforcement.Baseline.{matches}
use py2fw.Analyzers.AttackSurface.{find_attack_surface}
use py2fw.Analyzers.Compliance.Boundary.{fails, is_any_to_any, compliance_report-any_to_any}
use py2fw.Analyzers.Gate.{passed}
use py2fw.Verify.Regression.{endpoints}
use py2fw.Verify.Regression.Passing.{AsExpected}
use py2fw.Verify.Tokens.{number_tokens}
use py2fw.Verify.Config.{present_tokens, check_intent}
use py2fw.Verify.Config.Intent.{rule_shown, is_defined, check_intent_shown}
use py2fw.Parser.Schema.{written}
use py2fw.Compiler.PortRange.{PortRange}
use py2fw.Compiler.PortSpec.{from_pairs}
use py2fw.Compiler.Builder.{port_spec}
use py2fw.Exporters.Iptables.{tables_of}
use py2fw.Exporters.Iptables.Families.{tables_of_without}
use py2fw.Exporters.Helpers.{port_range_token}
use py2fw.Exporters.Helpers.Written.{port_spec-port_range_token}
use py2fw.Common.{str_ℕ}
use py2fw.Cli.Pipeline.{check_path, or_blank, baseline_path}
use py2fw.Cli.Pipeline.Passing.{check_path_forbids, check_path-AsExpected}
use py2fw.Cli.Pipeline.Environments.{load_controls-environment}
use py2fw.Cli.Commands.{compile_command, check_command}
use py2fw.Cli.Commands.Gating.{
  IsPassed, check_command-IsPassed, IsEmitted, compile_command-IsEmitted,
}
use py2fw.Cli.Commands.Locking.{OnlyLock}
use py2fw.Examples.Samples.{ascii_numerals, sample_text, sample_ir, allow_corp, deny_lab}
use py2fw.Examples.Worlds.{
  sample_world, sample_files, plain_exporter, policy_document, reach_test, no_udp, the_check,
  the_check_returned, the_check-passed,
}

-- The rule of the compiled policy.
abbrev first_of : List PolicyIr → PolicyIr → PolicyIr
first_of [] rule = rule
first_of (first ∷ rules) rule = first

abbrev wide_range : PortRange
wide_range = record { start = 1000; end = 2000 }

port_spec-port_range_token_example :
    port_spec ascii_numerals (written (port_range_token wide_range "-"))
    ≡ from_pairs ((1000, 2000) ∷ [])
port_spec-port_range_token_example = port_spec-port_range_token ascii_numerals wide_range

check_intent_shown_example :
    let present = present_tokens sample_text sample_world.classes "permit 10.2.0.1 443" in
    (check_intent sample_text sample_world.classes sample_ir plain_exporter
      "permit 10.2.0.1 443").passed
    ≡ (all
          (rule_shown sample_text sample_ir plain_exporter.capabilities present
            (number_tokens sample_world.classes "permit 10.2.0.1 443"))
          sample_ir.policies
        && all (is_defined sample_text sample_ir) present)
check_intent_shown_example =
    check_intent_shown sample_text sample_world.classes sample_ir plain_exporter
      "permit 10.2.0.1 443"

compliance_report-any_to_any_example :
    (fails sample_text sample_ir "pci" "1.4.1"
      ≡ any is_any_to_any (find_attack_surface sample_text sample_ir))
    × (fails sample_text sample_ir "nist" "SC-7"
        ≡ any is_any_to_any (find_attack_surface sample_text sample_ir))
    × (fails sample_text sample_ir "cis" "4.4"
        ≡ any is_any_to_any (find_attack_surface sample_text sample_ir))
compliance_report-any_to_any_example = compliance_report-any_to_any sample_text sample_ir

check_path-AsExpected_example : AsExpected sample_text the_check.ir reach_test "10.2.0.1" "10.1.2.3"
unfolding check_path py2fw.Common.get py2fw.Compiler.Validator.validate_document
    py2fw.Utils.Digits.isdigit py2fw.Utils.Digits.int py2fw.Utils.Ip.is_valid_endpoint
    py2fw.Utils.Ip.has_host_bits py2fw.Compiler.Builder.build_ir
    py2fw.Compiler.Resolver.resolve_rule_references py2fw.Enforcement.Controls.resolve_controls
    py2fw.Enforcement.Baseline.enforce_baseline py2fw.Enforcement.Baseline.matches
    py2fw.Verify.Regression.run_flow_tests py2fw.Engine.Evaluate.evaluate
    py2fw.Engine.Evaluate.match_reason py2fw.Engine.Evaluate.addr_contains
    py2fw.Compiler.Query.address_values py2fw.Compiler.Hosts.resolve_document_hosts
    py2fw.Utils.Ip.normalize_network py2fw.Engine.Evaluate.service_matches
    py2fw.Analyzers.Gate.evaluate_gate py2fw.Analyzers.Gate.effective_fail_on
    py2fw.Analyzers.Report.analyze_ir py2fw.Analyzers.AttackSurface.find_attack_surface
    py2fw.Analyzers.DuplicateRules.find_duplicate_rules
    py2fw.Analyzers.ShadowRules.find_shadowed_rules
    py2fw.Analyzers.UnusedObjects.find_unused_objects py2fw.Common.sorted_texts
    py2fw.Analyzers.UnusedObjects.find_unused_services
    py2fw.Analyzers.Hygiene.find_documentation_gaps py2fw.Verify.Regression.endpoints
check_path-AsExpected_example =
    check_path-AsExpected sample_world sample_files "policy.yaml" none none none false false
      the_check the_check_returned the_check-passed [] reach_test [] (inl refl) "10.2.0.1"
      "10.1.2.3" refl refl

check_path_forbids_example :
    matches sample_text the_check.ir (first_of the_check.ir.policies allow_corp) no_udp ≢ some true
unfolding check_path py2fw.Common.get py2fw.Compiler.Validator.validate_document
    py2fw.Utils.Digits.isdigit py2fw.Utils.Digits.int py2fw.Utils.Ip.is_valid_endpoint
    py2fw.Utils.Ip.has_host_bits py2fw.Compiler.Builder.build_ir
    py2fw.Compiler.Resolver.resolve_rule_references py2fw.Enforcement.Controls.resolve_controls
    py2fw.Enforcement.Baseline.enforce_baseline py2fw.Enforcement.Baseline.matches
    py2fw.Verify.Regression.run_flow_tests py2fw.Engine.Evaluate.evaluate
    py2fw.Engine.Evaluate.match_reason py2fw.Engine.Evaluate.addr_contains
    py2fw.Compiler.Query.address_values py2fw.Compiler.Hosts.resolve_document_hosts
    py2fw.Utils.Ip.normalize_network py2fw.Engine.Evaluate.service_matches
    py2fw.Analyzers.Gate.evaluate_gate py2fw.Analyzers.Gate.effective_fail_on
    py2fw.Analyzers.Report.analyze_ir py2fw.Analyzers.AttackSurface.find_attack_surface
    py2fw.Analyzers.DuplicateRules.find_duplicate_rules
    py2fw.Analyzers.ShadowRules.find_shadowed_rules
    py2fw.Analyzers.UnusedObjects.find_unused_objects py2fw.Common.sorted_texts
    py2fw.Analyzers.UnusedObjects.find_unused_services
    py2fw.Analyzers.Hygiene.find_documentation_gaps
check_path_forbids_example =
    check_path_forbids sample_world sample_files "policy.yaml" none none none false false the_check
      [] (first_of the_check.ir.policies allow_corp) [] [] no_udp [] the_check_returned
      the_check-passed refl refl refl refl refl

load_controls-environment_example :
    (the_check.controls.environment
      ≡ (if policy_document.environment == "" then or_blank none else policy_document.environment))
    × ((path : String)
        → baseline_path sample_world sample_files none ≡ some path
        → (contents : String) × (get path sample_files ≡ some contents)
          × (the_check.controls.baseline_sha256 ≡ sample_world.sha256 contents))
unfolding check_path py2fw.Common.get py2fw.Compiler.Validator.validate_document
    py2fw.Utils.Digits.isdigit py2fw.Utils.Digits.int py2fw.Utils.Ip.is_valid_endpoint
    py2fw.Utils.Ip.has_host_bits py2fw.Compiler.Builder.build_ir
    py2fw.Compiler.Resolver.resolve_rule_references py2fw.Enforcement.Controls.resolve_controls
    py2fw.Enforcement.Baseline.enforce_baseline py2fw.Enforcement.Baseline.matches
    py2fw.Verify.Regression.run_flow_tests py2fw.Engine.Evaluate.evaluate
    py2fw.Engine.Evaluate.match_reason py2fw.Engine.Evaluate.addr_contains
    py2fw.Compiler.Query.address_values py2fw.Compiler.Hosts.resolve_document_hosts
    py2fw.Utils.Ip.normalize_network py2fw.Engine.Evaluate.service_matches
    py2fw.Analyzers.Gate.evaluate_gate py2fw.Analyzers.Gate.effective_fail_on
    py2fw.Analyzers.Report.analyze_ir py2fw.Analyzers.AttackSurface.find_attack_surface
    py2fw.Analyzers.DuplicateRules.find_duplicate_rules
    py2fw.Analyzers.ShadowRules.find_shadowed_rules
    py2fw.Analyzers.UnusedObjects.find_unused_objects py2fw.Common.sorted_texts
    py2fw.Analyzers.UnusedObjects.find_unused_services
    py2fw.Analyzers.Hygiene.find_documentation_gaps
load_controls-environment_example =
    load_controls-environment sample_world sample_files none none policy_document the_check.controls
      refl

check_command-IsPassed_example :
    (check_command sample_world sample_files ("policy.yaml" ∷ []) none none none ≡ 0)
    ↔ All (IsPassed sample_world sample_files none none none) ("policy.yaml" ∷ [])
check_command-IsPassed_example =
    check_command-IsPassed sample_world sample_files ("policy.yaml" ∷ []) none none none

compile_command-IsEmitted_example :
    let ended =
      compile_command sample_world sample_files "policy.yaml" "plain" none false false false none
        none none false in
    ((ended.status ≡ 0)
      × IsEmitted sample_world sample_files "policy.yaml" "plain" none false false false none none
          none false ended)
    ⊎ ((ended.status ≢ 0)
        × OnlyLock sample_world sample_files "policy.yaml" false ended.files
        × (ended.printed ≡ none))
compile_command-IsEmitted_example =
    compile_command-IsEmitted sample_world sample_files "policy.yaml" "plain" none false false false
      none none none false

tables_of_without_example :
    (tables_of sample_text sample_ir (allow_corp ∷ deny_lab ∷ [])).v6_lines
    ≡ (tables_of sample_text sample_ir (deny_lab ∷ [])).v6_lines
unfolding py2fw.Compiler.Query.address_values py2fw.Common.get py2fw.Utils.Ip.is_ipv6
tables_of_without_example =
    tables_of_without sample_text sample_ir [] allow_corp (deny_lab ∷ []) refl refl
