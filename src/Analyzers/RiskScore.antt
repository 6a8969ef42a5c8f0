-- ===== src/Analyzers/RiskScore.antt =====
-- py2fw/analyzers/risk_score.py
use Prim.Native.Nat.{min}
use py2fw.Common.{
  ℕ, ◌+◌, ◌≤◌, ◌≡◌, String, List, [], ◌∷◌, ◌++◌, if◌then◌else◌, ◌==◌, String_eq, arith,
}
use py2fw.Analyzers.Models.{Finding}

-- `WEIGHTS.get(severity, 0)`
unfoldable pub weight : String → ℕ
weight severity =
    if severity == "critical"
    then 40
    else if severity == "high"
    then 25
    else if severity == "medium"
    then 10
    else if severity == "low"
    then 3
    else 0

total : List Finding → ℕ
total [] = 0
total (finding ∷ findings) = weight finding.severity + total findings

unfoldable pub calculate_risk_score : List Finding → ℕ
unfolding total weight
calculate_risk_score findings = min 100 (total findings)

total-append : (xs ys : List Finding) → total (xs ++ ys) ≡ total xs + total ys
unfolding total
total-append [] ys = omega arith
total-append (x ∷ xs) ys = omega (arith, total-append xs ys)

-- The score is at most 100, never falls when findings are added, and grows by no more than the
-- scores of both parts together.
pub calculate_risk_score-append :
    (xs ys : List Finding)
    → (calculate_risk_score (xs ++ ys) ≤ 100)
      × (calculate_risk_score xs ≤ calculate_risk_score (xs ++ ys))
      × (calculate_risk_score (xs ++ ys) ≤ calculate_risk_score xs + calculate_risk_score ys)
calculate_risk_score-append xs ys =
    let both = total-append xs ys in
    (
      unfold calculate_risk_score in omega (arith, both),
      unfold calculate_risk_score in omega (arith, both),
      unfold calculate_risk_score in omega (arith, both),
    )
