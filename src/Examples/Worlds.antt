-- ===== src/Examples/Worlds.antt =====
-- A policy file, a baseline file and an exporter, and the surroundings in which they are checked.
use py2fw.Common.{
  ℕ, String, Bool, true, false, not, ◌&&◌, Option, none, some, List, [], ◌∷◌, leb, ◌||◌,
  if◌then◌else◌, ◌==◌, String_eq, text, ◌≡◌, refl,
}
use py2fw.Parser.Schema.{PolicyDocument, FlowTestModel, written}
use py2fw.Parser.SourceMap
use py2fw.Parser.SourceMap.{SourceMap}
use py2fw.Analyzers.Gate.{passed}
use py2fw.Enforcement.Controls.{
  unset, any_address, cidrs, ForbiddenModel, ControlsModel, BaselineModel, default_controls,
}
use py2fw.Plugins.Base.{Exporter}
use py2fw.Utils.Digits.{is_digit}
use py2fw.Cli.World.{World, Files}
use py2fw.Cli.Outcome.{Outcome, returned, raised}
use py2fw.Cli.Pipeline.{PolicyCheck, RenderedConfig, check_path, render_config}
use py2fw.Verify.Config.{syntax, intent}
use py2fw.Examples.Samples.{sample_text, sample_ir}

abbrev pub reach_test : FlowTestModel
reach_test = record {
  name = "corp reaches lab";
  src = "10.2.0.1";
  dst = "10.1.2.3";
  protocol = "tcp";
  port = some 443;
  expect = "allow";
}

abbrev pub policy_document : PolicyDocument
policy_document = record {
  version = 1;
  environment = "prod";
  objects = ("corp", "10.0.0.0/8" ∷ []) ∷ ("lab", "10.1.0.0/16" ∷ []) ∷ [];
  groups = [];
  services = ("https", record { protocol = "tcp"; port = written "443"; description = "" }) ∷ [];
  policies =
      (record {
        name = "corp-to-lab";
        source = "corp" ∷ [];
        destination = "lab" ∷ [];
        service = "https" ∷ [];
        action = "allow";
        enabled = true;
        description = "web";
        owner = "net";
        ticket = "T-1";
      })
      ∷ [];
  exceptions = [];
  tests = reach_test ∷ [];
}

-- Nobody may open the lab to udp.
abbrev pub no_udp : ForbiddenModel
no_udp = record {
  name = "no udp";
  source = unset;
  destination = unset;
  protocol = some "udp";
  ports = none;
  severity = "critical";
  description = "";
}

abbrev pub prod_baseline : BaselineModel
prod_baseline = record {
  version = 1;
  defaults = record {
    fail_on = some "high";
    require_fields = none;
    allow_exceptions = none;
    max_exception_days = none;
    required_approvals = some 1;
    sign_approvals = some true;
    allowed_targets = none;
    forbidden = no_udp ∷ [];
    tests = [];
  };
  environments = [];
}

abbrev pub plain_exporter : Exporter
plain_exporter = record {
  name = "plain";
  description = "";
  capabilities = record {
    allow_only = false;
    supports_reject = true;
    supports_ipv6 = true;
    supports_ranges = true;
    scopes_destination = true;
  };
  export = λ ir. "permit 10.2.0.1 443";
  check_syntax = λ contents. [];
  native_checks = λ contents. [];
}

abbrev pub sample_files : Files
sample_files = ("policy.yaml", "policy") ∷ ("baseline.yaml", "baseline") ∷ []

abbrev word_char : ℕ → Bool
word_char c = is_digit c || (leb b'A' c && leb c b'Z') || (leb b'a' c && leb c b'z')

abbrev parse_sample : String → String → Option (PolicyDocument × SourceMap)
parse_sample path contents =
    if contents == "policy" then some (policy_document, SourceMap.empty) else none

abbrev parse_sample_baseline : String → Option BaselineModel
parse_sample_baseline contents = if contents == "baseline" then some prod_baseline else none

abbrev pub sample_world : World
sample_world = record {
  ip = sample_text;
  classes = record { digit = is_digit; word = word_char };
  sha256 = λ contents. text ("hash of " ∷ contents ∷ []);
  str_date = λ day. "2026-01-01";
  today = 100;
  parse_policy = parse_sample;
  parse_baseline = parse_sample_baseline;
  lock = λ path. [];
  lock_path = λ path. "lock";
  lock_text = λ lock. "hosts";
  lookup = λ host. none;
  registry = ("plain", plain_exporter) ∷ [];
  run_tool = λ command stdin. none;
  baseline_var = "baseline.yaml";
}

abbrev no_check : PolicyCheck
no_check = record {
  ir = sample_ir;
  document = policy_document;
  controls = default_controls "";
  report = record { risk_score = 0; findings = [] };
  gate = record { fail_on = ""; items = []; environment = ""; tests = [] };
}

-- The check that a call returned.
abbrev pub check_of : Outcome PolicyCheck → PolicyCheck
check_of (returned check) = check
check_of (raised failure) = no_check

abbrev pub the_check : PolicyCheck
the_check = check_of (check_path sample_world sample_files "policy.yaml" none none none false false)

pub the_check_returned :
    check_path sample_world sample_files "policy.yaml" none none none false false
    ≡ returned the_check
unfolding check_path py2fw.Common.get py2fw.Compiler.Validator.validate_document
    py2fw.Utils.Digits.isdigit py2fw.Utils.Digits.int py2fw.Utils.Ip.is_valid_endpoint
    py2fw.Utils.Ip.has_host_bits py2fw.Compiler.Builder.build_ir
    py2fw.Compiler.Resolver.resolve_rule_references py2fw.Enforcement.Controls.resolve_controls
    py2fw.Enforcement.Baseline.enforce_baseline py2fw.Enforcement.Baseline.matches
    py2fw.Verify.Regression.run_flow_tests py2fw.Engine.Evaluate.evaluate
    py2fw.Engine.Evaluate.match_reason py2fw.Engine.Evaluate.addr_contains
    py2fw.Compiler.Query.address_values py2fw.Compiler.Hosts.resolve_document_hosts
    py2fw.Utils.Ip.normalize_network py2fw.Engine.Evaluate.service_matches
    py2fw.Analyzers.Gate.evaluate_gate py2fw.Analyzers.Gate.effective_fail_on
    py2fw.Analyzers.Report.analyze_ir py2fw.Analyzers.AttackSurface.find_attack_surface
    py2fw.Analyzers.DuplicateRules.find_duplicate_rules
    py2fw.Analyzers.ShadowRules.find_shadowed_rules
    py2fw.Analyzers.UnusedObjects.find_unused_objects py2fw.Common.sorted_texts
    py2fw.Analyzers.UnusedObjects.find_unused_services
    py2fw.Analyzers.Hygiene.find_documentation_gaps
the_check_returned = refl

pub the_check-passed : passed the_check.gate ≡ true
unfolding check_path py2fw.Common.get py2fw.Compiler.Validator.validate_document
    py2fw.Utils.Digits.isdigit py2fw.Utils.Digits.int py2fw.Utils.Ip.is_valid_endpoint
    py2fw.Utils.Ip.has_host_bits py2fw.Compiler.Builder.build_ir
    py2fw.Compiler.Resolver.resolve_rule_references py2fw.Enforcement.Controls.resolve_controls
    py2fw.Enforcement.Baseline.enforce_baseline py2fw.Enforcement.Baseline.matches
    py2fw.Verify.Regression.run_flow_tests py2fw.Engine.Evaluate.evaluate
    py2fw.Engine.Evaluate.match_reason py2fw.Engine.Evaluate.addr_contains
    py2fw.Compiler.Query.address_values py2fw.Compiler.Hosts.resolve_document_hosts
    py2fw.Utils.Ip.normalize_network py2fw.Engine.Evaluate.service_matches
    py2fw.Analyzers.Gate.evaluate_gate py2fw.Analyzers.Gate.effective_fail_on
    py2fw.Analyzers.Report.analyze_ir py2fw.Analyzers.AttackSurface.find_attack_surface
    py2fw.Analyzers.DuplicateRules.find_duplicate_rules
    py2fw.Analyzers.ShadowRules.find_shadowed_rules
    py2fw.Analyzers.UnusedObjects.find_unused_objects py2fw.Common.sorted_texts
    py2fw.Analyzers.UnusedObjects.find_unused_services
    py2fw.Analyzers.Hygiene.find_documentation_gaps
the_check-passed = refl

-- The configuration that comes from the check.
abbrev pub the_config : RenderedConfig
the_config = record {
  exporter = plain_exporter;
  text = "permit 10.2.0.1 443";
  lossy = [];
  checks =
      (record { kind = syntax; passed = true; detail = "well-formed" })
      ∷ (record { kind = intent; passed = true; detail = "matches policy" })
      ∷ [];
}

pub the_config_returned :
    render_config sample_world sample_files the_check.ir "plain" false ≡ returned the_config
unfolding render_config check_path py2fw.Common.get py2fw.Compiler.Validator.validate_document
    py2fw.Utils.Digits.isdigit py2fw.Utils.Digits.int py2fw.Utils.Ip.is_valid_endpoint
    py2fw.Utils.Ip.has_host_bits py2fw.Compiler.Builder.build_ir
    py2fw.Compiler.Resolver.resolve_rule_references py2fw.Enforcement.Controls.resolve_controls
    py2fw.Enforcement.Baseline.enforce_baseline py2fw.Enforcement.Baseline.matches
    py2fw.Verify.Regression.run_flow_tests py2fw.Engine.Evaluate.evaluate
    py2fw.Engine.Evaluate.match_reason py2fw.Engine.Evaluate.addr_contains
    py2fw.Compiler.Query.address_values py2fw.Compiler.Hosts.resolve_document_hosts
    py2fw.Utils.Ip.normalize_network py2fw.Engine.Evaluate.service_matches
    py2fw.Analyzers.Gate.evaluate_gate py2fw.Analyzers.Gate.effective_fail_on
    py2fw.Analyzers.Report.analyze_ir py2fw.Analyzers.AttackSurface.find_attack_surface
    py2fw.Analyzers.DuplicateRules.find_duplicate_rules
    py2fw.Analyzers.ShadowRules.find_shadowed_rules
    py2fw.Analyzers.UnusedObjects.find_unused_objects py2fw.Common.sorted_texts
    py2fw.Analyzers.UnusedObjects.find_unused_services
    py2fw.Analyzers.Hygiene.find_documentation_gaps py2fw.Exporters.Helpers.describe_lossiness
    py2fw.Common.join py2fw.Verify.Config.present_tokens py2fw.Verify.Tokens.number_tokens
    py2fw.Common.str_ℕ
the_config_returned = refl
