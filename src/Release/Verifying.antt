-- ===== src/Release/Verifying.antt =====
-- What stands against the deployment of a plan: _verify_for_deploy of py2fw/release/plan.py.
use py2fw.Common.{
  String, Bool, true, false, not, Option, none, some, List, [], ◌∷◌, ◌++◌, is_empty, length, ltb,
  get, if◌then◌else◌, ◌==◌, String_eq, text, str_ℕ,
}
use py2fw.Cli.World.{World, Files}
use py2fw.Cli.Outcome.{Outcome, returned, crashed, ◌>>=◌, or_raise}
use py2fw.Cli.Pipeline.{PolicyCheck, RenderedConfig}
use py2fw.Release.Content.{FileRef, Content, Plan}
use py2fw.Release.Approvals.{valid_approvers}
use py2fw.Release.Plan.{check_and_render}
use py2fw.Release.Summary.{environment_or, blockers_of}

abbrev pub reason_if : Bool → String → List String
reason_if true reason = reason ∷ []
reason_if false reason = []

-- A file has other contents than its reference says, or is missing.
abbrev pub has_changed : (String → String) → Option String → String → Bool
has_changed sha256 none hash = true
has_changed sha256 (some contents) hash = not (sha256 contents == hash)

abbrev pub baseline_changed : (String → String) → Files → Option FileRef → Bool
baseline_changed sha256 files none = false
baseline_changed sha256 files (some baseline) =
    has_changed sha256 (get baseline.path files) baseline.sha256

-- `value or None`
abbrev pub or_none : String → Option String
or_none value = if value == "" then none else some value

abbrev pub path_of : Option FileRef → Option String
path_of none = none
path_of (some file) = some file.path

module _ (hmac : String → String → String) (approval_key : String) (world : World) where
  -- What is missing for the quorum, and whether the configuration is another one.
  unfoldable pub reasons_against : Plan → PolicyCheck → RenderedConfig → List String → List String
  unfolding blockers_of
  reasons_against plan check rendered approvers =
      blockers_of check rendered plan.content.allow_lossy
      ++ (reason_if (not (world.sha256 rendered.text == plan.content.config.sha256))
            "regenerated configuration differs from the approved plan"
          ++ reason_if (ltb (length approvers) check.controls.required_approvals) (
              text (
                str_ℕ (length approvers)
                ∷ " of "
                ∷ str_ℕ check.controls.required_approvals
                ∷ " required approval(s) for "
                ∷ environment_or check.controls.environment
                ∷ [])))

  -- `_verify_for_deploy` behind the tests of the two files.
  unfoldable pub verify_unchanged : Files → Plan → Outcome (List String)
  unfolding check_and_render valid_approvers reasons_against
  verify_unchanged files plan =
      let content : Content = plan.content in
      check_and_render world files content.policy.path content.target (path_of content.baseline)
        (or_none content.environment) content.fail_on content.native_syntax
      >>= λ (check, rendered).
          or_raise crashed (valid_approvers hmac approval_key plan) >>= λ approvers.
          returned (reasons_against plan check rendered approvers)

  -- `_verify_for_deploy`, with the contents of the policy file.
  unfoldable pub verify_files : Files → Plan → String → Outcome (List String)
  unfolding verify_unchanged
  verify_files files plan contents =
      let content : Content = plan.content in
      let changes : List String =
        reason_if (has_changed world.sha256 (some contents) content.policy.sha256)
          "policy changed since the plan was approved"
        ++ reason_if (baseline_changed world.sha256 files content.baseline)
            "baseline changed since the plan was approved" in
      if not (is_empty changes) then returned changes else verify_unchanged files plan

  -- `_verify_for_deploy`
  unfoldable pub verify_for_deploy : Files → Plan → Outcome (List String)
  unfolding verify_files get
  verify_for_deploy files plan = elim (get plan.content.policy.path files) [
    | none ↦ returned (text ("policy file " ∷ plan.content.policy.path ∷ " is missing" ∷ []) ∷ [])
    | some contents ↦ verify_files files plan contents
  ]
