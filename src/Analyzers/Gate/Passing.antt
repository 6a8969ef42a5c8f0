-- ===== src/Analyzers/Gate/Passing.antt =====
-- The outcome of evaluate_gate of py2fw/analyzers/gate.py: when the gate passes.
use py2fw.Common.{
  ℕ, String, ◌≡◌, refl, Bool, true, not, ◌&&◌, Option, some, List, [], ◌∷◌, ◌++◌, map, is_empty,
  select, all, ◌==◌, String_eq, pair_eq, Dict, get, arith,
}
use py2fw.Compiler.Ir.{ExceptionIr, FirewallIr}
use py2fw.Compiler.Issues.{ValidationIssue}
use py2fw.Analyzers.Models.{Finding, AnalysisReport}
use py2fw.Enforcement.Controls.{Controls}
use py2fw.Verify.Regression.{FlowTestResult}
use py2fw.Analyzers.Gate.{
  GateItem, GateReport, Key, is_violation, passed, severity_rank, effective_fail_on, finding_key,
  waivers_onto, validation_items, test_items, stale_items, classify, finding_items, evaluate_gate,
}

-- No item blocks.
abbrev pub clear : List GateItem → Bool
clear items = is_empty (select is_violation items)

pub clear-append : (xs ys : List GateItem) → clear (xs ++ ys) ≡ (clear xs && clear ys)
clear-append [] ys = refl
clear-append (x ∷ xs) ys = ground (arith, clear-append xs ys)

pub clear-validation_items :
    (issues : List ValidationIssue)
    → clear (validation_items issues) ≡ all (λ issue. issue.severity == "warning") issues
unfolding validation_items
clear-validation_items [] = refl
clear-validation_items (issue ∷ issues) = ground (arith, clear-validation_items issues)

pub clear-test_items :
    (results : List FlowTestResult)
    → clear (test_items results) ≡ all (λ result. result.passed) results
unfolding test_items
clear-test_items [] = refl
clear-test_items (result ∷ results) = ground (arith, clear-test_items results)

pub clear-stale_items :
    (used : List Key) (waivers : Dict Key ExceptionIr) → clear (stale_items used waivers) ≡ true
unfolding stale_items
clear-stale_items used [] = refl
clear-stale_items used ((key, waiver) ∷ waivers) = ground (arith, clear-stale_items used waivers)

module _ (str_date : ℕ → String) (controls : Controls) (today : ℕ) where
  -- A finding blocks the gate, by its verdict under the waiver the policy has for it.
  abbrev pub blocks : Dict Key ExceptionIr → ℕ → Finding → Bool
  blocks waivers threshold finding =
      is_violation
        (classify str_date finding (get (finding_key finding) waivers) threshold controls today)

  pub clear-finding_items :
      (waivers : Dict Key ExceptionIr) (threshold : ℕ) (findings : List Finding)
      → (items : List GateItem) × (finding_items str_date waivers
            (some threshold)
            controls
            today
            findings
          ≡ some items)
        × (clear items ≡ all (λ finding. not (blocks waivers threshold finding)) findings)
  unfolding finding_items
  clear-finding_items waivers threshold [] = ([], refl, refl)
  clear-finding_items waivers threshold (finding ∷ findings) =
      let (items, e, c) = clear-finding_items waivers threshold findings in
      (
        classify str_date finding (get (finding_key finding) waivers) threshold controls today
            ∷ items,
        ground (arith, e),
        ground (arith, c),
      )

  -- When the threshold is one of the four severities, evaluate_gate gives a report, and the report
  -- passes exactly when every validation issue is a warning, no finding is a violation under its
  -- waiver, and every regression test passed; waivers that match no finding never block.
  pub evaluate_gate-passed :
      (ir : FirewallIr) (report : AnalysisReport) (issues : List ValidationIssue)
      (fail_on : Option String) (tests : List FlowTestResult) (level : String) (threshold : ℕ)
      → effective_fail_on fail_on controls ≡ some level
      → severity_rank level ≡ some threshold
      → (gate : GateReport) × (evaluate_gate str_date ir report issues fail_on controls tests today
          ≡ some gate)
        × (passed gate ≡ (
            all (λ issue. issue.severity == "warning") issues
            && (all
                  (λ finding. not (blocks (waivers_onto [] ir.exceptions) threshold finding))
                  report.findings
                && all (λ result. result.passed) tests)))
  unfolding evaluate_gate
  evaluate_gate-passed ir report issues fail_on tests level threshold l t =
      let waivers : Dict Key ExceptionIr = waivers_onto [] ir.exceptions in
      let (found, e, c) = clear-finding_items waivers threshold report.findings in
      let stale : List GateItem = stale_items (map finding_key report.findings) waivers in
      let later : List GateItem = test_items tests ++ stale in
      (
        record {
          fail_on = level;
          items = validation_items issues ++ (found ++ later);
          environment = controls.environment;
          tests = tests;
        },
        ground (arith, l, t, e),
        ground (
          arith,
          clear-append (validation_items issues) (found ++ later),
          clear-append found later,
          clear-append (test_items tests) stale,
          clear-validation_items issues,
          c,
          clear-test_items tests,
          clear-stale_items (map finding_key report.findings) waivers,
        ),
      )
