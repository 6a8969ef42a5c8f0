-- ===== src/Cli/Pipeline/Environments.antt =====
-- Which controls the pipeline of py2fw/cli/_pipeline.py holds a policy to.
use package.text.Mathlib.TextEquality.{eq_iff}
use py2fw.Common.{
  String, ◌≡◌, ◌∙◌, refl, inl, inr, false, not, ◌&&◌, Option, none, some, get, arith, if◌then◌else◌,
  ◌==◌, String_eq, Bool-cases, Option-cases,
}
use py2fw.Parser.Schema.{PolicyDocument}
use py2fw.Enforcement.Controls.{BaselineModel, Controls, resolve_controls}
use py2fw.Cli.World.{World, Files}
use py2fw.Cli.Outcome.{returned, or_raise-returned, baseline_error}
use py2fw.Cli.Pipeline.{or_blank, or_declared, baseline_path, load_controls}

resolve_controls_keeps_arguments :
    (baseline : Option BaselineModel) (environment sha source : String) {controls : Controls}
    → resolve_controls baseline environment sha source ≡ some controls
    → (controls.environment ≡ environment)
      × ((model : BaselineModel) → baseline ≡ some model → controls.baseline_sha256 ≡ sha)
unfolding resolve_controls
resolve_controls_keeps_arguments none environment sha source h =
    (ground (arith, h), λ model e. ground (arith, e))
resolve_controls_keeps_arguments (some baseline) environment sha source h =
    elim (Option-cases (get environment baseline.environments)) [
      | inl e ↦ (ground (arith, h, e), λ model f. ground (arith, h, e))
      | inr (layer, e) ↦ (ground (arith, h, e), λ model f. ground (arith, h, e))
    ]

-- Where the two environments agree it does not matter which one goes first.
agreed_environment :
    (asked declared : String)
    → (not (asked == "") && (not (declared == "") && not (asked == declared))) ≡ false
    → (if asked == "" then declared else asked) ≡ (if declared == "" then asked else declared)
agreed_environment asked declared h =
    ground (arith, h, eq_iff asked declared, eq_iff asked "", eq_iff declared "")

module _ (world : World) (files : Files) where
  -- When load_controls returns controls, they are for the environment that the policy declares if
  -- it declares one, whatever environment is asked for, and else for the one asked for; and if
  -- there is a baseline, by argument or by the environment variable, the file of that path exists
  -- and the controls carry its hash.
  pub load_controls-environment :
      (baseline environment : Option String) (document : PolicyDocument) (controls : Controls)
      → load_controls world files baseline environment document ≡ returned controls
      → (controls.environment
          ≡ (if document.environment == "" then or_blank environment else document.environment))
        × ((path : String)
            → baseline_path world files baseline ≡ some path
            → (contents : String) × (get path files ≡ some contents)
              × (controls.baseline_sha256 ≡ world.sha256 contents))
  unfolding load_controls
  load_controls-environment baseline environment document controls h =
      let env = or_declared environment document.environment in
      elim (Bool-cases (
        not (or_blank environment == "")
        && (not (document.environment == "")
            && not (or_blank environment == document.environment)))) [
              | inl differ ↦ ground (arith, h, differ)
              | inr agree ↦
                  let same = agreed_environment (or_blank environment) document.environment agree in
                  elim (Option-cases (baseline_path world files baseline)) [
                    | inl no_path ↦
                        let found =
                          or_raise-returned baseline_error
                            (resolve_controls none env "" "built-in defaults") {a = controls}
                            (ground (arith, h, agree, no_path)) in
                        let (named, _) =
                          resolve_controls_keeps_arguments none env "" "built-in defaults" found in
                        (named ∙ same, λ path e. ground (arith, e, no_path))
                    | inr (path, e) ↦ elim (Option-cases (get path files)) [
                      | inl missing ↦ ground (arith, h, agree, e, missing)
                      | inr (contents, f) ↦ elim (Option-cases (world.parse_baseline contents)) [
                        | inl unread ↦ ground (arith, h, agree, e, f, unread)
                        | inr (model, m) ↦
                            let found =
                              or_raise-returned baseline_error
                                (resolve_controls (some model) env (world.sha256 contents) path)
                                {a = controls} (ground (arith, h, agree, e, f, m)) in
                            let (named, hashed) =
                              resolve_controls_keeps_arguments (some model) env
                                (world.sha256 contents) path found in
                            (
                              named ∙ same,
                              λ other e2. (contents, ground (arith, e, e2, f), hashed model refl),
                            )
                      ]
                    ]
                  ]
            ]
