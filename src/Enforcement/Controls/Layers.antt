-- ===== src/Enforcement/Controls/Layers.antt =====
-- What the layers of a baseline do to the controls: py2fw/enforcement/baseline.py.
use mathlib.Core.List.{append-nil}
use py2fw.Common.{
  refl, ap, false, ◌++◌, String, ◌≡◌, Bool, true, Option, none, some, List, [], ◌∷◌, any,
  any-append, flat_map, get, has-get, ◌==◌, String_eq, arith, inl, inr, Option-cases, Bool-cases,
}
use py2fw.Parser.Schema.{FlowTestModel}
use py2fw.Enforcement.Controls.{
  ForbiddenModel, ControlsModel, BaselineModel, Controls, resolve_controls, merge_layers, setting,
  optional_setting,
}

-- The first of two values that is set, else a last resort.
abbrev pub first_set {ℓ} : {T : Type ℓ} → Option T → Option T → T → T
first_set (some v) other value = v
first_set none (some v) value = v
first_set none none value = value

abbrev pub first_some {ℓ} : {T : Type ℓ} → Option T → Option T → Option T
first_some (some v) other = some v
first_some none other = other

setting_pair {ℓ} :
    {T : Type ℓ} (first second : ControlsModel) (field : ControlsModel → Option T) (value : T)
    → setting (first ∷ second ∷ []) field value ≡ first_set (field second) (field first) value
unfolding setting
setting_pair first second field value = elim (Option-cases (field second)) [
  | inr (v, e) ↦ ground (arith, e)
  | inl e ↦ elim (Option-cases (field first)) [
    | inl n ↦ ground (arith, e, n)
    | inr (v, n) ↦ ground (arith, e, n)
  ]
]

optional_setting_pair {ℓ} :
    {T : Type ℓ} (first second : ControlsModel) (field : ControlsModel → Option T)
    → optional_setting (first ∷ second ∷ []) field ≡ first_some (field second) (field first)
unfolding optional_setting setting
optional_setting_pair first second field = elim (Option-cases (field second)) [
  | inr (v, e) ↦ ground (arith, e)
  | inl e ↦ elim (Option-cases (field first)) [
    | inl n ↦ ground (arith, e, n)
    | inr (v, n) ↦ ground (arith, e, n)
  ]
]

-- For an environment that the baseline has a layer for, resolution gives controls, and each
-- setting of them is the environment's where it sets it, else the one of the defaults where they
-- set it, else the built-in one; the forbidden patterns and the tests are those of the defaults
-- and then the environment's.
pub resolve_controls_overrides :
    (baseline : BaselineModel) (environment sha256 source : String) (layer : ControlsModel)
    → (environment == "") ≡ false
    → get environment baseline.environments ≡ some layer
    → (controls : Controls) × (resolve_controls (some baseline) environment sha256 source
        ≡ some controls)
      × (controls.environment ≡ environment)
      × (controls.fail_on ≡ first_set layer.fail_on baseline.defaults.fail_on "high")
      × (controls.require_fields
          ≡ first_set layer.require_fields baseline.defaults.require_fields [])
      × (controls.allow_exceptions
          ≡ first_set layer.allow_exceptions baseline.defaults.allow_exceptions true)
      × (controls.max_exception_days
          ≡ first_some layer.max_exception_days baseline.defaults.max_exception_days)
      × (controls.required_approvals
          ≡ first_set layer.required_approvals baseline.defaults.required_approvals 0)
      × (controls.sign_approvals
          ≡ first_set layer.sign_approvals baseline.defaults.sign_approvals false)
      × (controls.allowed_targets
          ≡ first_set layer.allowed_targets baseline.defaults.allowed_targets [])
      × (controls.forbidden ≡ baseline.defaults.forbidden ++ layer.forbidden)
      × (controls.tests ≡ baseline.defaults.tests ++ layer.tests)
unfolding resolve_controls
resolve_controls_overrides baseline environment sha256 source layer named found =
    let first = baseline.defaults in
    (
      merge_layers (first ∷ layer ∷ []) environment sha256 source,
      ground (arith, named, found, has-get environment baseline.environments),
      refl,
      setting_pair first layer (λ l. l.fail_on) "high",
      setting_pair first layer (λ l. l.require_fields) [],
      setting_pair first layer (λ l. l.allow_exceptions) true,
      optional_setting_pair first layer (λ l. l.max_exception_days),
      setting_pair first layer (λ l. l.required_approvals) 0,
      setting_pair first layer (λ l. l.sign_approvals) false,
      setting_pair first layer (λ l. l.allowed_targets) [],
      ap (λ l. first.forbidden ++ l) (append-nil layer.forbidden),
      ap (λ l. first.tests ++ l) (append-nil layer.tests),
    )

module _ (baseline : BaselineModel) (environment sha256 source : String) (controls : Controls)
    (resolved : resolve_controls (some baseline) environment sha256 source ≡ some controls) where
  -- Resolved controls are the merge of the defaults with some further layers.
  resolved_layers :
      (layers : List ControlsModel) × (merge_layers
          (baseline.defaults ∷ layers)
          environment
          sha256
          source
        ≡ controls)
  unfolding resolve_controls
  resolved_layers = elim (Option-cases (get environment baseline.environments)) [
    | inl g ↦ ([], ground (arith, resolved, g))
    | inr (layer, g) ↦ elim (Bool-cases (environment == "")) [
      | inl empty ↦ ([], ground (arith, resolved, g, empty))
      | inr named ↦ (
        layer ∷ [],
        ground (arith, resolved, g, named, has-get environment baseline.environments),
      )
    ]
  ]

  -- Whatever an environment's layer says, a forbidden pattern of the defaults stays forbidden in
  -- the resolved controls: what some default pattern meets, some resolved pattern meets.
  pub resolve_controls_keeps_forbidden :
      (wanted : ForbiddenModel → Bool)
      → any wanted baseline.defaults.forbidden ≡ true
      → any wanted controls.forbidden ≡ true
  resolve_controls_keeps_forbidden wanted h =
      let (layers, same) = resolved_layers in
      rw (← same) (
        ground (
          arith,
          h,
          any-append wanted baseline.defaults.forbidden
              (flat_map (λ layer. layer.forbidden) layers),
        ))

  -- Whatever an environment's layer says, a regression test of the defaults stays in the resolved
  -- controls: what some default test meets, some resolved test meets.
  pub resolve_controls_keeps_tests :
      (wanted : FlowTestModel → Bool)
      → any wanted baseline.defaults.tests ≡ true
      → any wanted controls.tests ≡ true
  resolve_controls_keeps_tests wanted h =
      let (layers, same) = resolved_layers in
      rw (← same) (
        ground (
          arith,
          h,
          any-append wanted baseline.defaults.tests (flat_map (λ layer. layer.tests) layers),
        ))
