-- ===== src/Examples/Planning.antt =====
-- A plan for the sample policy: it is approved by one person and deployed.
use package.text.Mathlib.TextEquality.{eq_iff}
use py2fw.Common.{
  Bool, String, List, refl, true, false, none, some, [], ◌∷◌, ◌++◌, ◌≡◌, ◌≢◌, ◌⊎◌, Option, elem,
  All, text, arith, String_eq, inl, inr,
}
use py2fw.Cli.Outcome.{Failure, returned, raised}
use py2fw.Cli.World.{Files}
use py2fw.Release.Audit.{Json, Entry, append_event, verified, verify_log, read}
use py2fw.Release.Content.{Content, Plan, saved}
use py2fw.Release.Approvals.{valid_approvers, new_approval, with_approval, approve_plan}
use py2fw.Release.Approvals.Quorum.{distinct, entitled, valid_approvers-entitled}
use py2fw.Release.Approvals.Approving.{IsHexDigest}
use py2fw.Release.Approvals.Reachable.{approve_all, approve_all-valid_approvers}
use py2fw.Release.Plan.{StatePaths, new_plan, plan_content, load_plan, create_plan}
use py2fw.Release.Lifecycle.{planned, Reached-valid_approvers}
use py2fw.Release.Deploy.{CommandRun, deploy_plan}
use py2fw.Release.Deploy.Ready.{IsReady}
use py2fw.Cli.Releasing.{deploy_command}
use py2fw.Cli.Releasing.Exits.{deploy_command-IsReady}
use py2fw.Release.Verifying.{verify_for_deploy}
use py2fw.Release.Deploy.Recorded.{is_refused, IsRefusal, IsRehearsal, deploy_plan-Ends}
use py2fw.Release.Deploy.Steps.{Ends}
use py2fw.Cli.Pipeline.{check_path}
use py2fw.Examples.Worlds.{sample_world, sample_files, the_check, the_config}

abbrev entry_hash : Entry → String
entry_hash entry = "entry"

abbrev json_text : Option Json → String
json_text value = "value"

abbrev content_hash : Content → String
content_hash content = text ("plan of " ∷ content.author ∷ [])

abbrev constant_hmac : String → String → String
constant_hmac key message = "ab12"

constant_hmac-IsHexDigest : IsHexDigest constant_hmac
unfolding py2fw.Release.Approvals.Digests.is_ascii
constant_hmac-IsHexDigest key message = (refl, refl)

abbrev paths : StatePaths
paths = record {
  deployed_config = λ environment target. text ("deployed/" ∷ target ∷ ".cfg" ∷ []);
  deployed_policy = λ environment target. text ("deployed/" ∷ target ∷ ".policy.yaml" ∷ []);
  staged = λ plan target. text ("staging/" ∷ target ∷ ".cfg" ∷ []);
  temporary = λ path. text (path ∷ ".py2fw-tmp" ∷ []);
}

abbrev no_diff : String → String → String → String
no_diff target before after = "diff"

abbrev the_content : Content
the_content =
    plan_content content_hash sample_world sample_files paths no_diff entry_hash json_text the_check
      the_config ("initial deployment: no previously deployed policy" ∷ [])
      (record { path = "policy.yaml"; sha256 = "hash of policy" }) "09:00" "ann" "plain" none false
      false

abbrev the_plan : Plan
the_plan = new_plan content_hash the_content

abbrev approved_plan : Plan
approved_plan = with_approval constant_hmac "key" the_plan "bob" "10:00" ""

valid_approvers-entitled_example :
    (distinct ("bob" ∷ []) ≡ true)
    × ((name : String)
        → elem name ("bob" ∷ [])
          ≡ entitled constant_hmac "key" approved_plan.plan_id approved_plan.content
              approved_plan.approvals name)
unfolding valid_approvers check_path py2fw.Common.get py2fw.Compiler.Validator.validate_document
    py2fw.Utils.Digits.isdigit py2fw.Utils.Digits.int py2fw.Utils.Ip.is_valid_endpoint
    py2fw.Utils.Ip.has_host_bits py2fw.Compiler.Builder.build_ir
    py2fw.Compiler.Resolver.resolve_rule_references py2fw.Enforcement.Controls.resolve_controls
    py2fw.Enforcement.Baseline.enforce_baseline py2fw.Enforcement.Baseline.matches
    py2fw.Verify.Regression.run_flow_tests py2fw.Engine.Evaluate.evaluate
    py2fw.Engine.Evaluate.match_reason py2fw.Engine.Evaluate.addr_contains
    py2fw.Compiler.Query.address_values py2fw.Compiler.Hosts.resolve_document_hosts
    py2fw.Utils.Ip.normalize_network py2fw.Engine.Evaluate.service_matches
    py2fw.Analyzers.Gate.evaluate_gate py2fw.Analyzers.Gate.effective_fail_on
    py2fw.Analyzers.Report.analyze_ir py2fw.Analyzers.AttackSurface.find_attack_surface
    py2fw.Analyzers.DuplicateRules.find_duplicate_rules
    py2fw.Analyzers.ShadowRules.find_shadowed_rules
    py2fw.Analyzers.UnusedObjects.find_unused_objects py2fw.Common.sorted_texts
    py2fw.Analyzers.UnusedObjects.find_unused_services
    py2fw.Analyzers.Hygiene.find_documentation_gaps py2fw.Release.Approvals.approved_by
    py2fw.Utils.Spaces.strip py2fw.Release.Summary.blockers_of py2fw.Release.Summary.gate_summary
valid_approvers-entitled_example =
    valid_approvers-entitled constant_hmac "key" approved_plan ("bob" ∷ []) refl

approve_all-valid_approvers_example :
    (next : Plan) × (extended : List Entry) × (approve_all constant_hmac "key" entry_hash json_text
        ("bob" ∷ "eve" ∷ [])
        ""
        "10:00"
        "10:01"
        the_plan
        []
      ≡ returned (next, extended))
    × (verified (verify_log entry_hash json_text (read extended)) ≡ true)
    × (valid_approvers constant_hmac "key" next ≡ some ([] ++ "bob" ∷ "eve" ∷ []))
unfolding valid_approvers verify_log check_path py2fw.Common.get
    py2fw.Compiler.Validator.validate_document py2fw.Utils.Digits.isdigit py2fw.Utils.Digits.int
    py2fw.Utils.Ip.is_valid_endpoint py2fw.Utils.Ip.has_host_bits py2fw.Compiler.Builder.build_ir
    py2fw.Compiler.Resolver.resolve_rule_references py2fw.Enforcement.Controls.resolve_controls
    py2fw.Enforcement.Baseline.enforce_baseline py2fw.Enforcement.Baseline.matches
    py2fw.Verify.Regression.run_flow_tests py2fw.Engine.Evaluate.evaluate
    py2fw.Engine.Evaluate.match_reason py2fw.Engine.Evaluate.addr_contains
    py2fw.Compiler.Query.address_values py2fw.Compiler.Hosts.resolve_document_hosts
    py2fw.Utils.Ip.normalize_network py2fw.Engine.Evaluate.service_matches
    py2fw.Analyzers.Gate.evaluate_gate py2fw.Analyzers.Gate.effective_fail_on
    py2fw.Analyzers.Report.analyze_ir py2fw.Analyzers.AttackSurface.find_attack_surface
    py2fw.Analyzers.DuplicateRules.find_duplicate_rules
    py2fw.Analyzers.ShadowRules.find_shadowed_rules
    py2fw.Analyzers.UnusedObjects.find_unused_objects py2fw.Common.sorted_texts
    py2fw.Analyzers.UnusedObjects.find_unused_services
    py2fw.Analyzers.Hygiene.find_documentation_gaps py2fw.Release.Approvals.approved_by
    py2fw.Utils.Spaces.strip py2fw.Release.Summary.blockers_of py2fw.Release.Summary.gate_summary
approve_all-valid_approvers_example =
    approve_all-valid_approvers constant_hmac "key" entry_hash json_text constant_hmac-IsHexDigest
      ("bob" ∷ "eve" ∷ []) "" "10:00" "10:01" the_plan [] [] refl
      ((refl, refl, refl, refl, refl), ((refl, refl, refl, refl, refl), tt)) refl refl

Reached-valid_approvers_example :
    (valid_approvers constant_hmac "key" the_plan ≡ some [])
    × (distinct [] ≡ true)
    × (elem the_content.author [] ≡ false)
    × (load_plan content_hash (some (saved the_plan)) ≡ returned the_plan)
unfolding create_plan check_path py2fw.Common.get py2fw.Compiler.Validator.validate_document
    py2fw.Utils.Digits.isdigit py2fw.Utils.Digits.int py2fw.Utils.Ip.is_valid_endpoint
    py2fw.Utils.Ip.has_host_bits py2fw.Compiler.Builder.build_ir
    py2fw.Compiler.Resolver.resolve_rule_references py2fw.Enforcement.Controls.resolve_controls
    py2fw.Enforcement.Baseline.enforce_baseline py2fw.Enforcement.Baseline.matches
    py2fw.Verify.Regression.run_flow_tests py2fw.Engine.Evaluate.evaluate
    py2fw.Engine.Evaluate.match_reason py2fw.Engine.Evaluate.addr_contains
    py2fw.Compiler.Query.address_values py2fw.Compiler.Hosts.resolve_document_hosts
    py2fw.Utils.Ip.normalize_network py2fw.Engine.Evaluate.service_matches
    py2fw.Analyzers.Gate.evaluate_gate py2fw.Analyzers.Gate.effective_fail_on
    py2fw.Analyzers.Report.analyze_ir py2fw.Analyzers.AttackSurface.find_attack_surface
    py2fw.Analyzers.DuplicateRules.find_duplicate_rules
    py2fw.Analyzers.ShadowRules.find_shadowed_rules
    py2fw.Analyzers.UnusedObjects.find_unused_objects py2fw.Common.sorted_texts
    py2fw.Analyzers.UnusedObjects.find_unused_services
    py2fw.Analyzers.Hygiene.find_documentation_gaps py2fw.Exporters.Helpers.describe_lossiness
    py2fw.Common.join py2fw.Verify.Config.present_tokens py2fw.Verify.Tokens.number_tokens
    py2fw.Common.str_ℕ py2fw.Release.Approvals.approved_by py2fw.Utils.Spaces.strip
    py2fw.Release.Summary.blockers_of py2fw.Release.Summary.gate_summary py2fw.Common.has
    py2fw.Release.Audit.append_event py2fw.Cli.Pipeline.render_config
Reached-valid_approvers_example =
    Reached-valid_approvers content_hash sample_world sample_files paths no_diff entry_hash
      json_text constant_hmac "key" constant_hmac-IsHexDigest the_plan []
      (planned "policy.yaml" "plain" "ann" none none none false false "09:00" "09:01" [] the_plan _
        refl)

abbrev no_run : String → String → Files → Option CommandRun
no_run line path files = none

deploy_command-IsReady_example :
    (plan : Plan) × (approvers : List String) × (load_plan content_hash (some (saved approved_plan))
      ≡ returned plan)
    × (plan.plan_id ≡ content_hash plan.content)
    × IsReady constant_hmac "key" sample_world sample_files plan approvers
unfolding deploy_command load_plan deploy_plan valid_approvers check_path py2fw.Common.get
    py2fw.Compiler.Validator.validate_document py2fw.Utils.Digits.isdigit py2fw.Utils.Digits.int
    py2fw.Utils.Ip.is_valid_endpoint py2fw.Utils.Ip.has_host_bits py2fw.Compiler.Builder.build_ir
    py2fw.Compiler.Resolver.resolve_rule_references py2fw.Enforcement.Controls.resolve_controls
    py2fw.Enforcement.Baseline.enforce_baseline py2fw.Enforcement.Baseline.matches
    py2fw.Verify.Regression.run_flow_tests py2fw.Engine.Evaluate.evaluate
    py2fw.Engine.Evaluate.match_reason py2fw.Engine.Evaluate.addr_contains
    py2fw.Compiler.Query.address_values py2fw.Compiler.Hosts.resolve_document_hosts
    py2fw.Utils.Ip.normalize_network py2fw.Engine.Evaluate.service_matches
    py2fw.Analyzers.Gate.evaluate_gate py2fw.Analyzers.Gate.effective_fail_on
    py2fw.Analyzers.Report.analyze_ir py2fw.Analyzers.AttackSurface.find_attack_surface
    py2fw.Analyzers.DuplicateRules.find_duplicate_rules
    py2fw.Analyzers.ShadowRules.find_shadowed_rules
    py2fw.Analyzers.UnusedObjects.find_unused_objects py2fw.Common.sorted_texts
    py2fw.Analyzers.UnusedObjects.find_unused_services
    py2fw.Analyzers.Hygiene.find_documentation_gaps py2fw.Exporters.Helpers.describe_lossiness
    py2fw.Common.join py2fw.Verify.Config.present_tokens py2fw.Verify.Tokens.number_tokens
    py2fw.Common.str_ℕ py2fw.Release.Approvals.approved_by py2fw.Utils.Spaces.strip
    py2fw.Release.Summary.blockers_of py2fw.Release.Summary.gate_summary py2fw.Common.has
    py2fw.Release.Audit.append_event py2fw.Cli.Pipeline.render_config
deploy_command-IsReady_example =
    deploy_command-IsReady content_hash sample_world paths entry_hash json_text constant_hmac "key"
      (λ values. "[]") no_run "ci" "11:00" none none true (some (saved approved_plan)) sample_files
      [] refl

paths_differ : paths.deployed_policy "prod" "plain" ≢ paths.deployed_config "prod" "plain"
paths_differ e = ground (arith, (eq_iff "deployed/plain.policy.yaml" "deployed/plain.cfg").1 e)

deploy_plan-Ends_example :
    let d =
      deploy_plan constant_hmac "key" sample_world paths entry_hash json_text
        (λ values. "[]")
        no_run
        "ci"
        "11:00"
        approved_plan
        (some "out.cfg")
        none
        false
        sample_files
        [] in
    ((failure : Failure) × (verify_for_deploy constant_hmac "key" sample_world sample_files
          approved_plan
        ≡ raised failure)
      × (d.outcome ≡ raised failure)
      × (d.files ≡ sample_files)
      × (d.log ≡ []))
    ⊎ ((found : List String) × (verify_for_deploy constant_hmac "key" sample_world sample_files
            approved_plan
          ≡ returned found)
        × (((is_refused constant_hmac "key" sample_world paths entry_hash json_text
                  (λ values. "[]")
                  no_run
                  "ci"
                  "11:00"
                  approved_plan
                  (some "out.cfg")
                  none
                  false
                  found
                ≡ true)
              × IsRefusal constant_hmac "key" sample_world paths entry_hash json_text
                  (λ values. "[]")
                  no_run
                  "ci"
                  "11:00"
                  approved_plan
                  sample_files
                  []
                  d)
            ⊎ ((is_refused constant_hmac "key" sample_world paths entry_hash json_text
                    (λ values. "[]")
                    no_run
                    "ci"
                    "11:00"
                    approved_plan
                    (some "out.cfg")
                    none
                    false
                    found
                  ≡ false)
                × (((◌≡◌ {A = Bool} false true)
                      × IsRehearsal constant_hmac "key" sample_world paths entry_hash json_text
                          (λ values. "[]")
                          no_run
                          "ci"
                          "11:00"
                          approved_plan
                          sample_files
                          []
                          d)
                    ⊎ ((◌≡◌ {A = Bool} false false)
                        × Ends constant_hmac "key" sample_world paths entry_hash json_text
                            (λ values. "[]")
                            no_run
                            "ci"
                            "11:00"
                            approved_plan
                            (some "out.cfg")
                            none
                            sample_files
                            []
                            d)))))
unfolding check_path py2fw.Common.get py2fw.Compiler.Validator.validate_document
    py2fw.Utils.Digits.isdigit py2fw.Utils.Digits.int py2fw.Utils.Ip.is_valid_endpoint
    py2fw.Utils.Ip.has_host_bits py2fw.Compiler.Builder.build_ir
    py2fw.Compiler.Resolver.resolve_rule_references py2fw.Enforcement.Controls.resolve_controls
    py2fw.Enforcement.Baseline.enforce_baseline py2fw.Enforcement.Baseline.matches
    py2fw.Verify.Regression.run_flow_tests py2fw.Engine.Evaluate.evaluate
    py2fw.Engine.Evaluate.match_reason py2fw.Engine.Evaluate.addr_contains
    py2fw.Compiler.Query.address_values py2fw.Compiler.Hosts.resolve_document_hosts
    py2fw.Utils.Ip.normalize_network py2fw.Engine.Evaluate.service_matches
    py2fw.Analyzers.Gate.evaluate_gate py2fw.Analyzers.Gate.effective_fail_on
    py2fw.Analyzers.Report.analyze_ir py2fw.Analyzers.AttackSurface.find_attack_surface
    py2fw.Analyzers.DuplicateRules.find_duplicate_rules
    py2fw.Analyzers.ShadowRules.find_shadowed_rules
    py2fw.Analyzers.UnusedObjects.find_unused_objects py2fw.Common.sorted_texts
    py2fw.Analyzers.UnusedObjects.find_unused_services
    py2fw.Analyzers.Hygiene.find_documentation_gaps
deploy_plan-Ends_example =
    deploy_plan-Ends constant_hmac "key" sample_world paths entry_hash json_text (λ values. "[]")
      no_run "ci" "11:00" approved_plan paths_differ (some "out.cfg") none false sample_files []
