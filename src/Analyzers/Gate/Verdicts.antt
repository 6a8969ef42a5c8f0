-- ===== src/Analyzers/Gate/Verdicts.antt =====
-- The verdict on one finding, and the threshold, in py2fw/analyzers/gate.py.
use text.Mathlib.TextEquality.{eq_iff}
use mathlib.Core.Path.{subst, sym}
use py2fw.Common.{
  ℕ, ◌+◌, ◌≤◌, ◌<◌, String, ◌≡◌, ◌≢◌, ◌↔◌, ◌⊎◌, refl, true, Option, none, some, leb, String_eq,
  arith, inl, inr, Option-cases, Bool-cases,
}
use py2fw.Compiler.Ir.{ExceptionIr}
use py2fw.Analyzers.Models.{Finding}
use py2fw.Enforcement.Controls.{Controls}
use py2fw.Analyzers.Gate.{
  severity_rank, rank_or_zero, violation, warning, waived, effective_fail_on, classify_waiver,
  classify,
}

-- The rank of a severity, and 0 for an unknown one.
abbrev pub rank : String → ℕ
rank severity = rank_or_zero (severity_rank severity)

-- A waiver holds on a day: it has not expired, and does not run past the limit.
abbrev pub Holds : Controls → ℕ → ExceptionIr → Type 0
Holds controls today waiver =
    (controls.allow_exceptions ≡ true)
    × (today ≤ waiver.expires)
    × ((limit : ℕ) → controls.max_exception_days ≡ some limit → waiver.expires ≤ today + limit)

module _ (str_date : ℕ → String) (finding : Finding) (controls : Controls) (today : ℕ) where
  classify_waiver-waived :
      (waiver : ExceptionIr)
      → (classify_waiver str_date finding waiver controls today).verdict ≡ waived
      → (finding.severity ≢ "critical") × Holds controls today waiver
  unfolding classify_waiver
  classify_waiver-waived waiver h = (
    λ e. ground (arith, h, e, eq_iff finding.severity "critical"),
    (ground (arith, h), ground (arith, h), λ limit l. ground (arith, h, l)),
  )

  classify_waiver-Holds :
      (waiver : ExceptionIr)
      → finding.severity ≢ "critical"
      → Holds controls today waiver
      → (classify_waiver str_date finding waiver controls today).verdict ≡ waived
  unfolding classify_waiver
  classify_waiver-Holds waiver e h = elim (Option-cases controls.max_exception_days) [
    | inl l ↦ ground (arith, e, h.0, h.1, l, eq_iff finding.severity "critical")
    | inr (limit, l) ↦
        ground (arith, e, h.0, h.1, h.2 limit l, l, eq_iff finding.severity "critical")
  ]

  -- A finding is waived exactly when it reaches the threshold, is not critical, and has a waiver
  -- that holds: exceptions are allowed, it has not expired, and it keeps to the day limit.
  pub classify-waived_iff :
      (waiver : Option ExceptionIr) (threshold : ℕ)
      → ((classify str_date finding waiver threshold controls today).verdict ≡ waived) ↔ (
          (threshold ≤ rank finding.severity)
          × (finding.severity ≢ "critical")
          × (w : ExceptionIr) × (waiver ≡ some w)
          × Holds controls today w)
  unfolding classify
  classify-waived_iff none threshold = (λ h. absurd (ground (arith, h)), λ h. ground (arith, h.3))
  classify-waived_iff (some w) threshold = (
    λ h.
        let inner : (classify_waiver str_date finding w controls today).verdict ≡ waived =
          ground (arith, h) in
        let (mild, holds) = classify_waiver-waived w inner in
        (ground (arith, h), mild, w, refl, holds),
    λ h.
        let same : w ≡ h.2 = ground (arith, h.3) in
        ground
          (arith, h.0, classify_waiver-Holds w h.1 (subst (Holds controls today) (sym same) h.4)),
  )

  -- A finding is a mere warning exactly when it lies below the threshold.
  pub classify-warning_iff :
      (waiver : Option ExceptionIr) (threshold : ℕ)
      → ((classify str_date finding waiver threshold controls today).verdict ≡ warning)
        ↔ (rank finding.severity < threshold)
  unfolding classify classify_waiver
  classify-warning_iff none threshold = (λ h. ground (arith, h), λ h. ground (arith, h))
  classify-warning_iff (some w) threshold = (λ h. ground (arith, h), λ h. ground (arith, h))

  -- A critical finding is a violation under the threshold of every severity, waiver or not.
  pub classify-critical :
      (waiver : Option ExceptionIr) (level : String) (threshold : ℕ)
      → finding.severity ≡ "critical"
      → severity_rank level ≡ some threshold
      → (classify str_date finding waiver threshold controls today).verdict ≡ violation
  unfolding classify classify_waiver severity_rank
  classify-critical none level threshold c l = rw c (ground (arith, l))
  classify-critical (some w) level threshold c l = rw c (ground (arith, l))

-- When a threshold is asked for under a baseline and there is no error, the threshold in effect is
-- no laxer than the baseline's nor than the one asked for, and it is one of the two.
pub effective_fail_on_strict :
    (requested : String) (controls : Controls) (level : String)
    → controls.baseline_sha256 ≢ ""
    → effective_fail_on (some requested) controls ≡ some level
    → (rank level ≤ rank controls.fail_on)
      × (rank level ≤ rank requested)
      × ((level ≡ requested) ⊎ (level ≡ controls.fail_on))
unfolding effective_fail_on
effective_fail_on_strict requested controls level b e =
    elim (Option-cases (severity_rank requested)) [
      | inl r ↦ absurd (ground (arith, e, r))
      | inr (wanted, r) ↦ elim (Option-cases (severity_rank controls.fail_on)) [
        | inl c ↦ absurd (ground (arith, e, r, c, b, eq_iff controls.baseline_sha256 ""))
        | inr (ruled, c) ↦ elim (Bool-cases (leb wanted ruled)) [
          | inl lower ↦
              let same : level ≡ requested =
                ground (arith, e, r, c, b, lower, eq_iff controls.baseline_sha256 "") in
              (rw (same, r, c) (ground (arith, lower)), rw same (omega arith), inl same)
          | inr higher ↦
              let same : level ≡ controls.fail_on =
                ground (arith, e, r, c, b, higher, eq_iff controls.baseline_sha256 "") in
              (rw same (omega arith), rw (same, r, c) (ground (arith, higher)), inr same)
        ]
      ]
    ]
