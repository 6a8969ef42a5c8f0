-- ===== src/Enforcement/Baseline/Forbidden.antt =====
-- What the baseline checks find: py2fw/enforcement/baseline.py.
use text.Mathlib.TextEquality.{eq_iff}
use py2fw.Common.{
  ◌≡◌, Bool, true, false, none, some, List, [], ◌∷◌, ◌++◌, any, any-append, String_eq, arith, inl,
  inr, Option-cases,
}
use py2fw.IpAddress.{IpText}
use py2fw.Compiler.Ir.{PolicyIr, FirewallIr}
use py2fw.Analyzers.Models.{Finding}
use py2fw.Enforcement.Controls.{ForbiddenModel, Controls}
use py2fw.Enforcement.Baseline.{
  missing_fields, matches, forbidden_finding, forbidden_findings, rule_findings, enforce_rules,
  enforce_baseline,
}

module _ (ip : IpText) (ir : FirewallIr) where
  -- The patterns a rule matches, in their order, where every pattern can be read.
  abbrev pub matched : PolicyIr → ForbiddenModel → Bool
  matched rule pattern = elim (matches ip ir rule pattern) [ none ↦ false | some found ↦ found ]

  forbidden_findings_at :
      (rule : PolicyIr) (before : List ForbiddenModel) (pattern : ForbiddenModel)
      (after : List ForbiddenModel) (found : List Finding) (p : Finding → Bool)
      → forbidden_findings ip ir rule (before ++ pattern ∷ after) ≡ some found
      → matches ip ir rule pattern ≡ some true
      → p (forbidden_finding rule pattern) ≡ true
      → any p found ≡ true
  unfolding forbidden_findings
  forbidden_findings_at rule [] pattern after found p e m h =
      elim (Option-cases (forbidden_findings ip ir rule after)) [
        | inl r ↦ absurd (ground (arith, e, m, r))
        | inr (rest, r) ↦ ground (arith, e, m, r, h)
      ]
  forbidden_findings_at rule (first ∷ before) pattern after found p e m h =
      elim (Option-cases (matches ip ir rule first)) [
        | inl n ↦ absurd (ground (arith, e, n))
        | inr (b, n) ↦
            elim (Option-cases (forbidden_findings ip ir rule (before ++ pattern ∷ after))) [
              | inl r ↦ absurd (ground (arith, e, n, r))
              | inr (rest, r) ↦
                  ground
                    (arith, e, n, r, forbidden_findings_at rule before pattern after rest p r m h)
            ]
      ]

  rule_findings_at :
      (controls : Controls) (rule : PolicyIr) (before : List ForbiddenModel)
      (pattern : ForbiddenModel) (after : List ForbiddenModel) (found : List Finding)
      (p : Finding → Bool)
      → rule.enabled ≡ true
      → rule.action ≡ "allow"
      → controls.forbidden ≡ before ++ pattern ∷ after
      → rule_findings ip ir controls rule ≡ some found
      → matches ip ir rule pattern ≡ some true
      → p (forbidden_finding rule pattern) ≡ true
      → any p found ≡ true
  unfolding rule_findings
  rule_findings_at controls rule before pattern after found p enabled allow split e m h =
      elim (Option-cases (forbidden_findings ip ir rule (before ++ pattern ∷ after))) [
        | inl r ↦ absurd (ground (arith, e, enabled, allow, split, r, eq_iff rule.action "allow"))
        | inr (rest, r) ↦ ground (
          arith,
          e,
          enabled,
          allow,
          split,
          r,
          eq_iff rule.action "allow",
          any-append p (missing_fields controls rule controls.require_fields) rest,
          forbidden_findings_at rule before pattern after rest p r m h,
        )
      ]

  enforce_rules_at :
      (controls : Controls) (earlier : List PolicyIr) (rule : PolicyIr) (later : List PolicyIr)
      (before : List ForbiddenModel) (pattern : ForbiddenModel) (after : List ForbiddenModel)
      (found : List Finding) (p : Finding → Bool)
      → rule.enabled ≡ true
      → rule.action ≡ "allow"
      → controls.forbidden ≡ before ++ pattern ∷ after
      → enforce_rules ip ir controls (earlier ++ rule ∷ later) ≡ some found
      → matches ip ir rule pattern ≡ some true
      → p (forbidden_finding rule pattern) ≡ true
      → any p found ≡ true
  unfolding enforce_rules
  enforce_rules_at controls [] rule later before pattern after found p enabled allow split e m h =
      elim (Option-cases (rule_findings ip ir controls rule)) [
        | inl n ↦ absurd (ground (arith, e, n))
        | inr (own, n) ↦ elim (Option-cases (enforce_rules ip ir controls later)) [
          | inl r ↦ absurd (ground (arith, e, n, r))
          | inr (rest, r) ↦ ground (
            arith,
            e,
            n,
            r,
            any-append p own rest,
            rule_findings_at controls rule before pattern after own p enabled allow split n m h,
          )
        ]
      ]
  enforce_rules_at controls (first ∷ earlier) rule later before pattern after found p enabled allow
        split e m h =
      elim (Option-cases (rule_findings ip ir controls first)) [
        | inl n ↦ absurd (ground (arith, e, n))
        | inr (own, n) ↦
            elim (Option-cases (enforce_rules ip ir controls (earlier ++ rule ∷ later))) [
              | inl r ↦ absurd (ground (arith, e, n, r))
              | inr (rest, r) ↦ ground (
                arith,
                e,
                n,
                r,
                any-append p own rest,
                enforce_rules_at controls earlier rule later before pattern after rest p enabled
                    allow split r m h,
              )
            ]
      ]

  -- When enforce_baseline gives findings, every enabled allow rule that matches a forbidden pattern
  -- of the controls has that pattern's finding among them: whatever test the finding meets, some
  -- reported finding meets.
  pub enforce_baseline_reports :
      (controls : Controls) (found : List Finding) (earlier : List PolicyIr) (rule : PolicyIr)
      (later : List PolicyIr) (before : List ForbiddenModel) (pattern : ForbiddenModel)
      (after : List ForbiddenModel)
      → enforce_baseline ip ir controls ≡ some found
      → ir.policies ≡ earlier ++ rule ∷ later
      → controls.forbidden ≡ before ++ pattern ∷ after
      → rule.enabled ≡ true
      → rule.action ≡ "allow"
      → matches ip ir rule pattern ≡ some true
      → (p : Finding → Bool) → p (forbidden_finding rule pattern) ≡ true
      → any p found ≡ true
  unfolding enforce_baseline
  enforce_baseline_reports controls found earlier rule later before pattern after e policies split
        enabled allow m p h =
      enforce_rules_at controls earlier rule later before pattern after found p enabled allow split
        (ground (arith, e, policies)) m h
