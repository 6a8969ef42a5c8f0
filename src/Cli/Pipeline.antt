-- ===== src/Cli/Pipeline.antt =====
-- The pipeline of py2fw/cli/_pipeline.py. Its surroundings are a parameter (Cli/World). The
-- compilation writes at most the lock file of the policy's hosts (`compiled_files`), and the baseline
-- is taken to be another file.
pub mod Passing
pub mod Environments
use py2fw.Common.{
  String, Bool, not, ◌&&◌, Option, none, some, List, [], ◌∷◌, ◌++◌, all, select, map, get, insert,
  if◌then◌else◌, ◌==◌, String_eq, text, join,
}
use py2fw.Parser.Schema.{PolicyDocument}
use py2fw.Parser.SourceMap.{SourceMap}
use py2fw.Compiler.Ir.{FirewallIr}
use py2fw.Compiler.Issues.{ValidationIssue, ok}
use py2fw.Compiler.Validator.{validate_document}
use py2fw.Compiler.Hosts.{Lock, resolve_document_hosts}
use py2fw.Compiler.Resolver
use py2fw.Compiler.Resolver.{Resolved}
use py2fw.Compiler.Builder.{build_ir}
use py2fw.Compiler.Optimizer.{optimize_ir}
use py2fw.Analyzers.Models.{Finding, AnalysisReport}
use py2fw.Analyzers.Report.{analyze_ir}
use py2fw.Analyzers.RiskScore.{calculate_risk_score}
use py2fw.Analyzers.Gate.{GateReport, evaluate_gate}
use py2fw.Enforcement.Controls.{Controls, resolve_controls}
use py2fw.Enforcement.Baseline.{enforce_baseline}
use py2fw.Exporters.Helpers.{describe_lossiness}
use py2fw.Plugins.Base.{Exporter}
use py2fw.Plugins.Registry.{create}
use py2fw.Verify.Config.{ConfigCheck, check_syntax, check_intent}
use py2fw.Verify.Regression.{run_flow_tests}
use py2fw.Cli.World.{World, Files}
use py2fw.Cli.Outcome.{
  Outcome, returned, raised, parse_error, compile_error, baseline_error, unknown_target, crashed,
  ◌>>=◌, or_raise,
}

pub record PolicyCheck : Type 0 where
  pub ir : FirewallIr
  pub document : PolicyDocument
  pub controls : Controls
  pub report : AnalysisReport
  pub gate : GateReport

pub record RenderedConfig : Type 0 where
  pub exporter : Exporter
  pub text : String
  pub lossy : List String
  pub checks : List ConfigCheck

-- The property `verified`.
abbrev pub is_verified : RenderedConfig → Bool
is_verified rendered = all (λ check. check.passed) rendered.checks

-- What `_compile_validated` returns.
pub record Compiled : Type 0 where
  pub document : PolicyDocument
  pub ir : FirewallIr
  pub validation : List ValidationIssue

-- A result of `build_ir`; a reference or a port that it refuses is a ValueError.
abbrev pub built : Resolved (Option FirewallIr) → Outcome FirewallIr
built (Resolver.ok (some ir)) = returned ir
built _ = raised crashed

-- `environment or ""`
abbrev pub or_blank : Option String → String
or_blank none = ""
or_blank (some environment) = environment

-- `environment or declared`
abbrev pub or_declared : Option String → String → String
or_declared environment declared =
    if or_blank environment == "" then declared else or_blank environment

error_messages : List ValidationIssue → String
error_messages issues = join "; " (
    map
      (λ issue. Prim.Native.String.◌++◌ issue.location (Prim.Native.String.◌++◌ ": " issue.message))
      (select (λ issue. issue.severity == "error") issues))

module _ (world : World) (files : Files) where
  -- `_compile_validated`, for a document without errors.
  unfoldable pub compile_valid :
      String → Bool → Bool → PolicyDocument → SourceMap → List ValidationIssue → Outcome Compiled
  compile_valid path resolve_hosts refresh_hosts document source issues =
      let (hosts, lock) =
        resolve_document_hosts world.ip document (world.lock_path path) (world.lock path)
          resolve_hosts refresh_hosts world.lookup in
      built (build_ir world.sha256 document source hosts.mapping world.ip) >>= λ ir.
      returned (record { document = document; ir = optimize_ir ir; validation = issues })

  -- `_compile_validated`
  unfoldable pub compile_validated : String → Bool → Bool → Outcome Compiled
  unfolding error_messages compile_valid
  compile_validated path resolve_hosts refresh_hosts = do
    contents ← or_raise parse_error (get path files)
    (document, source) ← or_raise parse_error (world.parse_policy path contents)
    issues ← or_raise crashed (validate_document world.ip document source)
    (if ok issues
        then compile_valid path resolve_hosts refresh_hosts document source issues
        else raised
            (compile_error (text ("policy validation failed: " ∷ error_messages issues ∷ []))))

  -- The lock that `_compile_validated` writes, if any.
  unfoldable pub lock_written : String → Bool → Bool → Option Lock
  unfolding resolve_document_hosts
  lock_written path resolve_hosts refresh_hosts = elim (get path files) [
    | none ↦ none
    | some contents ↦ (elim (world.parse_policy path contents) [
      | none ↦ none
      | some (document, source) ↦ (elim (validate_document world.ip document source) [
        | none ↦ none
        | some issues ↦
            if ok issues
            then (resolve_document_hosts world.ip document (world.lock_path path) (world.lock path)
                resolve_hosts refresh_hosts world.lookup).1
            else none
      ])
    ])
  ]

  -- The files behind `_compile_validated`, whether it returns or raises.
  unfoldable pub compiled_files : String → Bool → Bool → Files
  unfolding lock_written insert
  compiled_files path resolve_hosts refresh_hosts =
      elim (lock_written path resolve_hosts refresh_hosts) [
        | none ↦ files
        | some lock ↦ insert (world.lock_path path) (world.lock_text lock) files
      ]

  unfoldable pub compile_path : String → Bool → Bool → Outcome FirewallIr
  unfolding compile_validated
  compile_path path resolve_hosts refresh_hosts =
      compile_validated path resolve_hosts refresh_hosts >>= λ compiled. returned compiled.ir

  -- The path of the baseline, if there is one.
  abbrev pub baseline_path : Option String → Option String
  baseline_path (some baseline) = some baseline
  baseline_path none = if world.baseline_var == "" then none else some world.baseline_var

  unfoldable pub load_controls : Option String → Option String → PolicyDocument → Outcome Controls
  load_controls baseline environment document =
      let declared = document.environment in
      let env = or_declared environment declared in
      if not (or_blank environment == "")
        && (not (declared == "") && not (or_blank environment == declared))
      then raised baseline_error
      else elim (baseline_path baseline) [
        | none ↦ or_raise baseline_error (resolve_controls none env "" "built-in defaults")
        | some path ↦ elim (get path files) [
          | none ↦ raised baseline_error
          | some contents ↦ or_raise baseline_error (world.parse_baseline contents) >>= λ model.
              or_raise baseline_error
                (resolve_controls (some model) env (world.sha256 contents) path)
        ]
      ]

  -- `check_path` behind the compilation.
  unfoldable pub check_compiled :
      Option String → Option String → Option String → Compiled → Outcome PolicyCheck
  unfolding load_controls
  check_compiled fail_on baseline environment compiled = do
    controls ← load_controls baseline environment compiled.document
    forbidden ← or_raise crashed (enforce_baseline world.ip compiled.ir controls)
    let findings : List Finding = (analyze_ir world.ip compiled.ir).findings ++ forbidden
    let report : AnalysisReport = record {
      risk_score = calculate_risk_score findings;
      findings = findings;
    }
    own ← or_raise crashed (run_flow_tests world.ip compiled.ir compiled.document.tests "policy")
    ruled ← or_raise crashed (run_flow_tests world.ip compiled.ir controls.tests "baseline")
    gate ← or_raise crashed (
        evaluate_gate world.str_date compiled.ir report compiled.validation fail_on controls
          (own ++ ruled) world.today)
    returned (record {
      ir = compiled.ir;
      document = compiled.document;
      controls = controls;
      report = report;
      gate = gate;
    })

  unfoldable pub check_path :
      String → Option String → Option String → Option String → Bool → Bool → Outcome PolicyCheck
  unfolding compile_validated check_compiled
  check_path path fail_on baseline environment resolve_hosts refresh_hosts =
      compile_validated path resolve_hosts refresh_hosts
      >>= check_compiled fail_on baseline environment

  -- The KeyError of `create` is the one of an unknown target.
  unfoldable pub render_config : FirewallIr → String → Bool → Outcome RenderedConfig
  unfolding create check_syntax check_intent
  render_config ir target native_syntax = do
    exporter ← or_raise (unknown_target target) (create target world.registry)
    let contents = exporter.export ir
    checks ← or_raise crashed (check_syntax world.run_tool exporter contents native_syntax)
    returned (record {
      exporter = exporter;
      text = contents;
      lossy = describe_lossiness world.ip ir exporter.capabilities;
      checks = checks ++ check_intent world.ip world.classes ir exporter contents ∷ [];
    })
