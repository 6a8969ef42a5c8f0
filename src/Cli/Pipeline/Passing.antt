-- ===== src/Cli/Pipeline/Passing.antt =====
-- What a check that passes says of the policy: check_path of py2fw/cli/_pipeline.py.
use package.text.Mathlib.TextEquality.{eq_iff}
use py2fw.Common.{
  String, ◌≡◌, ◌≢◌, ◌⊎◌, elem, refl, inl, inr, Bool, true, false, not, Option, some, List, [], ◌∷◌,
  ◌++◌, all, all-append, any, any-append, arith, String_eq,
}
use py2fw.Compiler.Ir.{PolicyIr}
use py2fw.Analyzers.Models.{Finding, AnalysisReport}
use py2fw.Analyzers.Report.{analyze_ir}
use py2fw.Analyzers.RiskScore.{calculate_risk_score}
use py2fw.Analyzers.Gate.{evaluate_gate, passed}
use py2fw.Analyzers.Gate.Clean.{is_critical, evaluate_gate_clean}
use py2fw.Enforcement.Controls.{ForbiddenModel}
use py2fw.Enforcement.Baseline.{matches, enforce_baseline}
use py2fw.Enforcement.Baseline.Forbidden.{enforce_baseline_reports}
use py2fw.Verify.Regression.{FlowTestResult, endpoints, run_flow_tests}
use py2fw.Verify.Regression.Passing.{AsExpected, run_flow_tests-AsExpected}
use py2fw.Parser.Schema.{FlowTestModel}
use py2fw.Cli.World.{World, Files}
use py2fw.Cli.Outcome.{returned, or_raise, >>=-returned, or_raise-returned, crashed}
use py2fw.Cli.Pipeline.{
  Compiled, PolicyCheck, load_controls, compile_validated, check_compiled, check_path,
}

uncritical :
    (findings : List Finding)
    → all (λ f. not (is_critical f)) findings ≡ true
    → any is_critical findings ≡ false
uncritical [] h = refl
uncritical (f ∷ fs) h = ground (arith, h, uncritical fs)

module _ (world : World) (files : Files) where
  -- The parts that a check has come from.
  abbrev pub IsCheckOf : Compiled → Option String → PolicyCheck → Type 0
  IsCheckOf compiled fail_on check =
      (forbidden : List Finding) × (own : List FlowTestResult) × (ruled : List FlowTestResult)
      × (check.ir ≡ compiled.ir)
      × (check.document ≡ compiled.document)
      × (enforce_baseline world.ip compiled.ir check.controls ≡ some forbidden)
      × (run_flow_tests world.ip compiled.ir compiled.document.tests "policy" ≡ some own)
      × (run_flow_tests world.ip compiled.ir check.controls.tests "baseline" ≡ some ruled)
      × (check.report.findings ≡ (analyze_ir world.ip compiled.ir).findings ++ forbidden)
      × (evaluate_gate world.str_date compiled.ir check.report compiled.validation fail_on
            check.controls (own ++ ruled) world.today
          ≡ some check.gate)

  check_compiled-IsCheckOf :
      (fail_on baseline environment : Option String) (compiled : Compiled) (check : PolicyCheck)
      → check_compiled world files fail_on baseline environment compiled ≡ returned check
      → IsCheckOf compiled fail_on check
  unfolding check_compiled
  check_compiled-IsCheckOf fail_on baseline environment compiled check h =
      let ir = compiled.ir in
      let (controls, e, h₁) =
        >>=-returned (load_controls world files baseline environment compiled.document) _ h in
      let (forbidden, f, h₂) =
        >>=-returned (or_raise crashed (enforce_baseline world.ip ir controls)) _ h₁ in
      let (own, o, h₃) =
        >>=-returned
          (or_raise crashed (run_flow_tests world.ip ir compiled.document.tests "policy")) _ h₂ in
      let (ruled, r, h₄) =
        >>=-returned (or_raise crashed (run_flow_tests world.ip ir controls.tests "baseline")) _
          h₃ in
      let findings : List Finding = (analyze_ir world.ip ir).findings ++ forbidden in
      let report : AnalysisReport = record {
        risk_score = calculate_risk_score findings;
        findings = findings;
      } in
      let (gate, g, h₅) =
        >>=-returned
          (or_raise crashed (
            evaluate_gate world.str_date ir report compiled.validation fail_on controls
              (own ++ ruled) world.today))
          _ h₄ in
      (
        forbidden,
        own,
        ruled,
        ground (arith, h₅),
        ground (arith, h₅),
        ground (arith, h₅, or_raise-returned crashed (enforce_baseline world.ip ir controls) f),
        ground (arith, o),
        ground (arith, h₅, r),
        ground (arith, h₅),
        ground (arith, h₅, g),
      )

  -- What stands behind a check whose gate passes.
  abbrev pub HasPassed : PolicyCheck → Type 0
  HasPassed check =
      (forbidden : List Finding) × (own : List FlowTestResult) × (ruled : List FlowTestResult)
      × (enforce_baseline world.ip check.ir check.controls ≡ some forbidden)
      × (any is_critical forbidden ≡ false)
      × (run_flow_tests world.ip check.ir check.document.tests "policy" ≡ some own)
      × (all (λ result. result.passed) own ≡ true)
      × (run_flow_tests world.ip check.ir check.controls.tests "baseline" ≡ some ruled)
      × (all (λ result. result.passed) ruled ≡ true)

  IsCheckOf-HasPassed :
      (compiled : Compiled) (fail_on : Option String) (check : PolicyCheck)
      → IsCheckOf compiled fail_on check
      → passed check.gate ≡ true
      → HasPassed check
  IsCheckOf-HasPassed compiled fail_on check (forbidden, own, ruled, i, d, f, o, r, findings, g) p =
      let (_, mild, tested) =
        evaluate_gate_clean world.str_date check.controls world.today compiled.ir check.report
          compiled.validation fail_on (own ++ ruled) check.gate g p in
      let tests = all-append (λ (result : FlowTestResult). result.passed) own ruled in
      let criticals = any-append is_critical (analyze_ir world.ip compiled.ir).findings forbidden in
      let none_critical = uncritical check.report.findings mild in
      (
        forbidden,
        own,
        ruled,
        rw i f,
        ground (arith, criticals, none_critical, findings),
        rw (i, d) o,
        ground (arith, tests, tested),
        rw i r,
        ground (arith, tests, tested),
      )

  check_path-HasPassed :
      (path : String) (fail_on baseline environment : Option String)
      (resolve_hosts refresh_hosts : Bool) (check : PolicyCheck)
      → check_path world files path fail_on baseline environment resolve_hosts refresh_hosts
        ≡ returned check
      → passed check.gate ≡ true
      → HasPassed check
  unfolding check_path
  check_path-HasPassed path fail_on baseline environment resolve_hosts refresh_hosts check h p =
      let (compiled, _, c) =
        >>=-returned (compile_validated world files path resolve_hosts refresh_hosts) _ h in
      IsCheckOf-HasPassed compiled fail_on check
        (check_compiled-IsCheckOf fail_on baseline environment compiled check c) p

  -- When check_path returns a check whose gate passes, no enabled allow rule of the policy that it
  -- compiled matches a pattern of severity critical that the controls forbid.
  pub check_path_forbids :
      (path : String) (fail_on baseline environment : Option String)
      (resolve_hosts refresh_hosts : Bool) (check : PolicyCheck) (earlier : List PolicyIr)
      (rule : PolicyIr) (later : List PolicyIr) (before : List ForbiddenModel)
      (pattern : ForbiddenModel) (after : List ForbiddenModel)
      → check_path world files path fail_on baseline environment resolve_hosts refresh_hosts
        ≡ returned check
      → passed check.gate ≡ true
      → check.ir.policies ≡ earlier ++ rule ∷ later
      → check.controls.forbidden ≡ before ++ pattern ∷ after
      → pattern.severity ≡ "critical"
      → rule.enabled ≡ true
      → rule.action ≡ "allow"
      → matches world.ip check.ir rule pattern ≢ some true
  check_path_forbids path fail_on baseline environment resolve_hosts refresh_hosts check earlier
        rule later before pattern after h p policies split critical enabled allow matched =
      let (forbidden, _, _, f, mild, _, _, _, _) =
        check_path-HasPassed path fail_on baseline environment resolve_hosts refresh_hosts check h
          p in
      let reported =
        enforce_baseline_reports world.ip check.ir check.controls forbidden earlier rule later
          before pattern after f policies split enabled allow matched is_critical
          ((eq_iff pattern.severity "critical").1 critical) in
      ground (arith, reported, mild)

  -- When check_path returns a check whose gate passes, every regression test of the policy and of
  -- the baseline holds of the compiled policy: each pair of a source probe and a destination probe
  -- of the test is as the test expects.
  pub check_path-AsExpected :
      (path : String) (fail_on baseline environment : Option String)
      (resolve_hosts refresh_hosts : Bool) (check : PolicyCheck)
      → check_path world files path fail_on baseline environment resolve_hosts refresh_hosts
        ≡ returned check
      → passed check.gate ≡ true
      → (before : List FlowTestModel) (test : FlowTestModel) (after : List FlowTestModel)
      → (check.document.tests ≡ before ++ test ∷ after)
        ⊎ (check.controls.tests ≡ before ++ test ∷ after)
      → (src dst : String) → elem src (endpoints world.ip check.ir test.src) ≡ true
      → elem dst (endpoints world.ip check.ir test.dst) ≡ true
      → AsExpected world.ip check.ir test src dst
  check_path-AsExpected path fail_on baseline environment resolve_hosts refresh_hosts check h p
        before test after place src dst here there =
      let (_, own, ruled, _, _, o, own_passed, r, ruled_passed) =
        check_path-HasPassed path fail_on baseline environment resolve_hosts refresh_hosts check h
          p in
      elim place [
        | inl split ↦
            run_flow_tests-AsExpected world.ip check.ir "policy" before test after own
              (rw (← split) o) own_passed src dst here there
        | inr split ↦
            run_flow_tests-AsExpected world.ip check.ir "baseline" before test after ruled
              (rw (← split) r) ruled_passed src dst here there
      ]
