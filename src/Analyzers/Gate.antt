-- ===== src/Analyzers/Gate.antt =====
-- py2fw/analyzers/gate.py. A date is its ordinal; its text is a parameter, `str_date`.
pub mod Verdicts
pub mod Passing
pub mod Clean
use py2fw.Common.{
  ℕ, ◌-◌, String, Bool, true, false, not, Option, none, some, List, [], ◌∷◌, ◌++◌, elem, is_empty,
  map, select, Dict, get, insert, if◌then◌else◌, ltb, leb, ◌==◌, String_eq, pair_eq, text, str_ℕ,
}
use py2fw.Compiler.Ir.{ExceptionIr, FirewallIr}
use py2fw.Compiler.Issues.{ValidationIssue}
use py2fw.Analyzers.Models.{Finding, AnalysisReport}
use py2fw.Enforcement.Controls.{Controls}
use py2fw.Verify.Regression.{FlowTestResult}

-- `SEVERITY_RANK`; `none` is a missing key.
unfoldable pub severity_rank : String → Option ℕ
severity_rank severity =
    if severity == "low"
    then some 0
    else if severity == "medium"
    then some 1
    else if severity == "high"
    then some 2
    else if severity == "critical"
    then some 3
    else none

-- `SEVERITY_RANK.get(severity, 0)`
abbrev pub rank_or_zero : Option ℕ → ℕ
rank_or_zero none = 0
rank_or_zero (some rank) = rank

pub data Verdict : Type 0 where
  violation warning waived : Verdict

pub record GateItem : Type 0 where
  pub verdict : Verdict
  pub finding : Finding
  pub note : String

abbrev pub is_violation : GateItem → Bool
is_violation item = elim item.verdict [ violation ↦ true | _ ↦ false ]

pub record GateReport : Type 0 where
  pub fail_on : String
  pub items : List GateItem
  pub environment : String
  pub tests : List FlowTestResult

-- `not self.by_verdict(VIOLATION)`
abbrev pub passed : GateReport → Bool
passed report = is_empty (select is_violation report.items)

-- `none` is the ValueError of an unknown severity, or the KeyError of one in the controls.
unfoldable pub effective_fail_on : Option String → Controls → Option String
effective_fail_on none controls = some controls.fail_on
effective_fail_on (some requested) controls = elim (severity_rank requested) [
  | none ↦ none
  | some wanted ↦
      (if controls.baseline_sha256 == ""
        then some requested
        else elim (severity_rank controls.fail_on) [
          | none ↦ none
          | some ruled ↦ some (if leb wanted ruled then requested else controls.fail_on)
        ])
]

environment_name : Controls → String
environment_name controls =
    if controls.environment == "" then "this environment" else controls.environment

-- `limit is not None and (waiver.expires - today).days > limit`, for a waiver that has not
-- expired.
too_long : Option ℕ → ℕ → ℕ → Bool
too_long none expires today = false
too_long (some limit) expires today = ltb limit (expires - today)

long_note : Option ℕ → String → String
long_note none env = ""
long_note (some limit) env =
    text ("exception runs past the " ∷ str_ℕ limit ∷ "-day maximum for " ∷ env ∷ [])

abbrev pub Key : Type 0
Key = String × String

-- `(finding.rule or "", finding.title)`
abbrev pub finding_key : Finding → Key
finding_key finding = (elim finding.rule [ none ↦ "" | some rule ↦ rule ], finding.title)

-- `{(waiver.rule, waiver.finding): waiver for waiver in ir.exceptions}`
unfoldable pub waivers_onto : Dict Key ExceptionIr → List ExceptionIr → Dict Key ExceptionIr
unfolding insert
waivers_onto table [] = table
waivers_onto table (waiver ∷ waivers) =
    waivers_onto (insert (waiver.rule, waiver.finding) waiver table) waivers

unfoldable pub validation_items : List ValidationIssue → List GateItem
validation_items [] = []
validation_items (issue ∷ issues) =
    let is_warning = issue.severity == "warning" in
    record {
      verdict = if is_warning then warning else violation;
      finding = record {
        severity = if is_warning then "low" else "critical";
        title = issue.message;
        rule = none;
        detail = "";
        line = issue.line;
        location = issue.location;
      };
      note = "validation";
    }
    ∷ validation_items issues

unfoldable pub test_items : List FlowTestResult → List GateItem
test_items [] = []
test_items (result ∷ results) =
    let rest = test_items results in
    let failed : GateItem = record {
      verdict = violation;
      finding = record {
        severity = "critical";
        title = text ("Regression test failed: " ∷ result.name ∷ []);
        rule = none;
        detail = text (result.origin ∷ " test - " ∷ result.detail ∷ []);
        line = result.line;
        location = result.location;
      };
      note = "";
    } in
    if result.passed then rest else failed ∷ rest

-- The loop over the waivers; a key is used if a finding has it.
unfoldable pub stale_items : List Key → Dict Key ExceptionIr → List GateItem
stale_items used [] = []
stale_items used ((key, waiver) ∷ waivers) =
    let rest = stale_items used waivers in
    let stale : GateItem = record {
      verdict = warning;
      finding = record {
        severity = "low";
        title = "Unused exception";
        rule = some waiver.rule;
        detail =
            text ("no '" ∷ waiver.finding ∷ "' finding on this rule; remove the exception" ∷ []);
        line = waiver.line;
        location = waiver.location;
      };
      note = "";
    } in
    if elem key used then rest else stale ∷ rest

module _ (str_date : ℕ → String) where
  waived_note : ExceptionIr → String
  waived_note waiver = text (
      waiver.reason
      ∷ (if waiver.ticket == "" then "" else text (" [" ∷ waiver.ticket ∷ "]" ∷ []))
      ∷ " (until "
      ∷ str_date waiver.expires
      ∷ ")"
      ∷ [])

  -- `_classify` above the threshold, with a waiver.
  unfoldable pub classify_waiver : Finding → ExceptionIr → Controls → ℕ → GateItem
  unfolding environment_name too_long long_note waived_note
  classify_waiver finding waiver controls today =
      let env = environment_name controls in
      let refuse : String → GateItem =
        λ note. record { verdict = violation; finding = finding; note = note } in
      if finding.severity == "critical"
      then refuse "critical findings cannot be waived"
      else if not controls.allow_exceptions
      then refuse (text ("exceptions are not permitted in " ∷ env ∷ []))
      else if ltb waiver.expires today
      then refuse (text ("exception expired on " ∷ str_date waiver.expires ∷ []))
      else if too_long controls.max_exception_days waiver.expires today
      then refuse (long_note controls.max_exception_days env)
      else record { verdict = waived; finding = finding; note = waived_note waiver }

  -- `_classify`, with the rank of `fail_on`.
  unfoldable pub classify : Finding → Option ExceptionIr → ℕ → Controls → ℕ → GateItem
  unfolding classify_waiver severity_rank
  classify finding waiver threshold controls today =
      if ltb (rank_or_zero (severity_rank finding.severity)) threshold
      then record { verdict = warning; finding = finding; note = "" }
      else elim waiver [
        | none ↦ record { verdict = violation; finding = finding; note = "" }
        | some w ↦ classify_waiver finding w controls today
      ]

  -- The loop over the findings; `SEVERITY_RANK[fail_on]` raises KeyError, `none`, at the first.
  unfoldable pub finding_items :
      Dict Key ExceptionIr → Option ℕ → Controls → ℕ → List Finding → Option (List GateItem)
  unfolding get
  finding_items waivers threshold controls today [] = some []
  finding_items waivers none controls today (finding ∷ findings) = none
  finding_items waivers (some threshold) controls today (finding ∷ findings) =
      elim (finding_items waivers (some threshold) controls today findings) [
        | none ↦ none
        | some rest ↦
            some
              (classify finding (get (finding_key finding) waivers) threshold controls today ∷ rest)
      ]

  unfoldable pub evaluate_gate :
      FirewallIr
      → AnalysisReport
      → List ValidationIssue
      → Option String
      → Controls
      → List FlowTestResult
      → ℕ
      → Option GateReport
  unfolding waivers_onto validation_items finding_items test_items stale_items
  evaluate_gate ir report issues fail_on controls tests today =
      elim (effective_fail_on fail_on controls) [
        | none ↦ none
        | some threshold ↦
            (let waivers = waivers_onto [] ir.exceptions in
              elim (finding_items waivers (severity_rank threshold) controls today
                report.findings) [
                  | none ↦ none
                  | some found ↦ some (record {
                    fail_on = threshold;
                    items =
                        validation_items issues
                        ++ (found
                            ++ (test_items tests
                                ++ stale_items (map finding_key report.findings) waivers));
                    environment = controls.environment;
                    tests = tests;
                  })
                ])
      ]
