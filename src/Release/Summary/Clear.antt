-- ===== src/Release/Summary/Clear.antt =====
-- What it means that nothing stands against a configuration: _blockers of py2fw/release/plan.py.
use py2fw.Common.{
  ◌≡◌, refl, ap, Bool, true, not, ◌&&◌, ◌||◌, List, [], ◌∷◌, ◌++◌, arith, all_same, is_empty,
  is_empty-append, is_empty-select, map, select, if◌then◌else◌, String_eq, text,
}
use py2fw.Enforcement.Controls.{target_allowed}
use py2fw.Analyzers.Gate.{GateItem, is_violation, violation, passed}
use py2fw.Verify.Config.{ConfigCheck}
use py2fw.Cli.Pipeline.{PolicyCheck, RenderedConfig, is_verified}
use py2fw.Release.Summary.{same_verdict, by_verdict, environment_or, kind_name, blockers_of}

-- Nothing stands against a configuration: the gate passes, the target is allowed, every check of
-- the configuration passed, and it loses nothing unless losses are allowed.
abbrev pub IsClear : PolicyCheck → RenderedConfig → Bool → Type 0
IsClear check rendered allow_lossy =
    (passed check.gate ≡ true)
    × (target_allowed check.controls rendered.exporter.name ≡ true)
    × (is_verified rendered ≡ true)
    × ((is_empty rendered.lossy || allow_lossy) ≡ true)

is_empty-map {ℓ κ} :
    {A : Type ℓ} {B : Type κ} (f : A → B) (xs : List A) → is_empty (map f xs) ≡ is_empty xs
is_empty-map f [] = refl
is_empty-map f (x ∷ xs) = refl

violations_same :
    (items : List GateItem)
    → select (λ item. same_verdict item.verdict violation) items ≡ select is_violation items
violations_same [] = refl
violations_same (item ∷ items) = ground (arith, violations_same items)

pub blockers_of-IsClear :
    (check : PolicyCheck) (rendered : RenderedConfig) (allow_lossy : Bool)
    → is_empty (blockers_of check rendered allow_lossy) ≡ true
    → IsClear check rendered allow_lossy
unfolding blockers_of
blockers_of-IsClear check rendered allow_lossy h =
    let gate =
      map (λ (item : GateItem). text ("gate: " ∷ item.finding.title ∷ []))
        (by_verdict violation check.gate) in
    let failed = select (λ (c : ConfigCheck). not c.passed) rendered.checks in
    let checks = map (λ (c : ConfigCheck). text (kind_name c.kind ∷ ": " ∷ c.detail ∷ [])) failed in
    let target =
      if target_allowed check.controls rendered.exporter.name
      then []
      else text (
          "target "
          ∷ rendered.exporter.name
          ∷ " is not approved for "
          ∷ environment_or check.controls.environment
          ∷ [])
        ∷ [] in
    let lossy =
      if not (is_empty rendered.lossy) && not allow_lossy
      then map (λ warning. text ("lossy: " ∷ warning ∷ [])) rendered.lossy
      else [] in
    let whole = is_empty-append gate (target ++ (checks ++ lossy)) in
    let tail = is_empty-append target (checks ++ lossy) in
    let end = is_empty-append checks lossy in
    let gate_empty =
      is_empty-map (λ (item : GateItem). text ("gate: " ∷ item.finding.title ∷ []))
        (by_verdict violation check.gate) in
    let checks_empty =
      is_empty-map (λ (c : ConfigCheck). text (kind_name c.kind ∷ ": " ∷ c.detail ∷ [])) failed in
    let lossy_empty = is_empty-map (λ warning. text ("lossy: " ∷ warning ∷ [])) rendered.lossy in
    let verdicts = ap is_empty (violations_same check.gate.items) in
    let all_checks = is_empty-select (λ (c : ConfigCheck). not c.passed) rendered.checks in
    let double =
      all_same (λ (c : ConfigCheck). not (not c.passed)) (λ c. c.passed) (λ c. ground arith)
        rendered.checks in
    (
      ground (arith, h, whole, gate_empty, verdicts),
      ground (arith, h, whole, tail),
      ground (arith, h, whole, tail, end, checks_empty, all_checks, double),
      ground (arith, h, whole, tail, end, lossy_empty),
    )
