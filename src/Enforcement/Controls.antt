-- ===== src/Enforcement/Controls.antt =====
-- The controls of py2fw/enforcement/baseline.py: the models and resolve_controls. Reading the file
-- and pydantic's own checks are not modelled.
pub mod Layers
use py2fw.Common.{
  ℕ, String, Bool, true, false, not, ◌&&◌, ◌||◌, Option, none, some, List, [], ◌∷◌, elem, is_empty,
  flat_map, Dict, get, has, if◌then◌else◌, ◌==◌, String_eq,
}
use py2fw.Parser.Schema.{FlowTestModel}

-- `Literal["broad", "any"] | list[str] | None`; a destination is never `broad`.
pub data Scope : Type 0 where
  unset broad any_address : Scope
  cidrs : List String → Scope

pub record ForbiddenModel : Type 0 where
  pub name : String
  pub source : Scope
  pub destination : Scope
  pub protocol : Option String
  pub ports : Option (List ℕ)
  pub severity : String
  pub description : String

pub record ControlsModel : Type 0 where
  pub fail_on : Option String
  pub require_fields : Option (List String)
  pub allow_exceptions : Option Bool
  pub max_exception_days : Option ℕ
  pub required_approvals : Option ℕ
  pub sign_approvals : Option Bool
  pub allowed_targets : Option (List String)
  pub forbidden : List ForbiddenModel
  pub tests : List FlowTestModel

pub record BaselineModel : Type 0 where
  pub version : ℕ
  pub defaults : ControlsModel
  pub environments : Dict String ControlsModel

pub record Controls : Type 0 where
  pub environment : String
  pub fail_on : String
  pub require_fields : List String
  pub allow_exceptions : Bool
  pub max_exception_days : Option ℕ
  pub required_approvals : ℕ
  pub sign_approvals : Bool
  pub allowed_targets : List String
  pub forbidden : List ForbiddenModel
  pub tests : List FlowTestModel
  pub baseline_sha256 : String
  pub source : String

abbrev pub default_fail_on : String
default_fail_on = "high"

abbrev pub default_controls : String → Controls
default_controls environment = record {
  environment = environment;
  fail_on = default_fail_on;
  require_fields = [];
  allow_exceptions = true;
  max_exception_days = none;
  required_approvals = 0;
  sign_approvals = false;
  allowed_targets = [];
  forbidden = [];
  tests = [];
  baseline_sha256 = "";
  source = "built-in defaults";
}

abbrev pub target_allowed : Controls → String → Bool
target_allowed controls target =
    is_empty controls.allowed_targets || elem target controls.allowed_targets

-- `_setting`: the last layer that sets the field wins.
unfoldable pub setting {ℓ} : {T : Type ℓ} → List ControlsModel → (ControlsModel → Option T) → T → T
setting [] field value = value
setting (layer ∷ layers) field value =
    setting layers field (elim (field layer) [ none ↦ value | some v ↦ v ])

-- `_setting` of a field whose default is None.
unfoldable pub optional_setting {ℓ} :
    {T : Type ℓ} → List ControlsModel → (ControlsModel → Option T) → Option T
unfolding setting
optional_setting layers field =
    setting layers (λ layer. elim (field layer) [ none ↦ none | some v ↦ some (some v) ]) none

abbrev pub merge_layers : List ControlsModel → String → String → String → Controls
merge_layers layers environment baseline_sha256 source = record {
  environment = environment;
  fail_on = setting layers (λ layer. layer.fail_on) default_fail_on;
  require_fields = setting layers (λ layer. layer.require_fields) [];
  allow_exceptions = setting layers (λ layer. layer.allow_exceptions) true;
  max_exception_days = optional_setting layers (λ layer. layer.max_exception_days);
  required_approvals = setting layers (λ layer. layer.required_approvals) 0;
  sign_approvals = setting layers (λ layer. layer.sign_approvals) false;
  allowed_targets = setting layers (λ layer. layer.allowed_targets) [];
  forbidden = flat_map (λ layer. layer.forbidden) layers;
  tests = flat_map (λ layer. layer.tests) layers;
  baseline_sha256 = baseline_sha256;
  source = source;
}

-- `none` is the BaselineError of an unknown environment.
unfoldable pub resolve_controls : Option BaselineModel → String → String → String → Option Controls
unfolding setting optional_setting get has
resolve_controls none environment baseline_sha256 source = some (default_controls environment)
resolve_controls (some baseline) environment baseline_sha256 source =
    if environment == ""
    then some (merge_layers (baseline.defaults ∷ []) environment baseline_sha256 source)
    else if not (is_empty baseline.environments) && not (has environment baseline.environments)
    then none
    else elim (get environment baseline.environments) [
      | none ↦ some (merge_layers (baseline.defaults ∷ []) environment baseline_sha256 source)
      | some layer ↦
          some (merge_layers (baseline.defaults ∷ layer ∷ []) environment baseline_sha256 source)
    ]
