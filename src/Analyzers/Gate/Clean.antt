-- ===== src/Analyzers/Gate/Clean.antt =====
-- What a report of py2fw/analyzers/gate.py that passes has behind it.
use py2fw.Common.{
  ℕ, String, ◌≡◌, refl, inl, inr, Bool, true, not, Option, none, some, List, [], ◌∷◌, ◌++◌, map,
  all, ◌==◌, String_eq, pair_eq, Dict, get, arith, Option-cases, Bool-cases,
}
use package.text.Mathlib.TextEquality.{eq_iff}
use py2fw.Compiler.Ir.{ExceptionIr, FirewallIr}
use py2fw.Compiler.Issues.{ValidationIssue}
use py2fw.Analyzers.Models.{Finding, AnalysisReport}
use py2fw.Enforcement.Controls.{Controls}
use py2fw.Verify.Regression.{FlowTestResult}
use py2fw.Analyzers.Gate.{
  GateItem, GateReport, Key, passed, severity_rank, effective_fail_on, finding_key, waivers_onto,
  validation_items, test_items, stale_items, finding_items, evaluate_gate,
}
use py2fw.Analyzers.Gate.Passing.{
  clear-append, clear-validation_items, clear-test_items, blocks, evaluate_gate-passed,
}
use py2fw.Analyzers.Gate.Verdicts.{classify-critical}

abbrev pub is_critical : Finding → Bool
is_critical finding = finding.severity == "critical"

module _ (str_date : ℕ → String) (controls : Controls) (today : ℕ) where
  -- Without a threshold there are no findings.
  finding_items-none :
      (waivers : Dict Key ExceptionIr) (findings : List Finding) {items : List GateItem}
      → finding_items str_date waivers none controls today findings ≡ some items
      → (items ≡ []) × (all (λ f. not (is_critical f)) findings ≡ true)
  unfolding finding_items
  finding_items-none waivers [] h = (ground (arith, h), refl)
  finding_items-none waivers (finding ∷ findings) h = ground (arith, h)

  unblocked_uncritical :
      (waivers : Dict Key ExceptionIr) (level : String) (threshold : ℕ)
      → severity_rank level ≡ some threshold
      → (findings : List Finding)
      → all (λ f. not (blocks str_date controls today waivers threshold f)) findings ≡ true
      → all (λ f. not (is_critical f)) findings ≡ true
  unblocked_uncritical waivers level threshold l [] h = refl
  unblocked_uncritical waivers level threshold l (finding ∷ findings) h =
      elim (Bool-cases (is_critical finding)) [
        | inr mild ↦ ground (
          arith,
          mild,
          unblocked_uncritical waivers level threshold l findings (ground (arith, h)),
        )
        | inl critical ↦
            let refused =
              classify-critical str_date finding controls today (get (finding_key finding) waivers)
                level threshold ((eq_iff finding.severity "critical").0 critical) l in
            ground (arith, h, refused)
      ]

  -- When evaluate_gate gives a report that passes, every validation issue is a warning, no finding
  -- is critical, and every regression test passed.
  pub evaluate_gate_clean :
      (ir : FirewallIr) (report : AnalysisReport) (issues : List ValidationIssue)
      (fail_on : Option String) (tests : List FlowTestResult) (gate : GateReport)
      → evaluate_gate str_date ir report issues fail_on controls tests today ≡ some gate
      → passed gate ≡ true
      → (all (λ issue. issue.severity == "warning") issues ≡ true)
        × (all (λ f. not (is_critical f)) report.findings ≡ true)
        × (all (λ result. result.passed) tests ≡ true)
  unfolding evaluate_gate
  evaluate_gate_clean ir report issues fail_on tests gate e p =
      let waivers : Dict Key ExceptionIr = waivers_onto [] ir.exceptions in
      elim (Option-cases (effective_fail_on fail_on controls)) [
        | inl none_level ↦ ground (arith, e, none_level)
        | inr (level, l) ↦ elim (Option-cases (severity_rank level)) [
          | inr (threshold, t) ↦
              let (same, f, c) =
                evaluate_gate-passed str_date controls today ir report issues fail_on tests level
                  threshold l t in
              let whole = unblocked_uncritical waivers level threshold t report.findings in
              ground (arith, e, f, c, p, whole)
          | inl t ↦
              elim (Option-cases
                (finding_items str_date waivers none controls today report.findings)) [
                  | inl n ↦ ground (arith, e, l, t, n)
                  | inr (items, n) ↦
                      let (nothing, mild) = finding_items-none waivers report.findings n in
                      let stale = stale_items (map finding_key report.findings) waivers in
                      ground (
                        arith,
                        e,
                        l,
                        t,
                        n,
                        nothing,
                        mild,
                        p,
                        clear-append (validation_items issues) (test_items tests ++ stale),
                        clear-append (test_items tests) stale,
                        clear-validation_items issues,
                        clear-test_items tests,
                      )
                ]
        ]
      ]
