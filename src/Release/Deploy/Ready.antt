-- ===== src/Release/Deploy/Ready.antt =====
-- What a deployment that returns has checked: deploy_plan of py2fw/release/plan.py.
use package.text.Mathlib.TextEquality.{eq_iff}
use py2fw.Common.{
  String, ◌≡◌, ◌≢◌, inl, inr, Bool, true, false, not, ◌&&◌, ◌||◌, Option, some, List, [], ◌∷◌, ◌++◌,
  arith, is_empty, is_empty-append, is_none, length, ltb, get, ◌==◌, String_eq, Bool-cases,
  Option-cases, text, str_ℕ,
}
use py2fw.Cli.World.{World, Files}
use py2fw.Cli.Outcome.{
  returned, raised, crashed, or_raise, >>=-returned, or_raise-returned, Outcome-cases, Failure,
  release_error,
}
use py2fw.Cli.Pipeline.{PolicyCheck, RenderedConfig}
use py2fw.Release.Audit.{Json, other, Entry, append_event}
use py2fw.Release.Content.{Content, Plan}
use py2fw.Release.Approvals.{valid_approvers}
use py2fw.Release.Plan.{StatePaths, check_and_render}
use py2fw.Release.Summary.{environment_or, blockers_of}
use py2fw.Release.Deploy.{CommandRun, DeployResult, recorded, audit_details, deploy_plan}
use py2fw.Release.Verifying.{
  reason_if, has_changed, baseline_changed, or_none, path_of, reasons_against, verify_unchanged,
  verify_files, verify_for_deploy,
}
use py2fw.Release.Summary.Clear.{IsClear, blockers_of-IsClear}

module _ (hmac : String → String → String) (approval_key : String) (world : World) where
  -- A plan is ready: its policy and its baseline are the files that were planned, the check and the
  -- configuration that come from them are clear, the configuration is the planned one, and enough
  -- approvers count.
  abbrev pub IsReady : Files → Plan → List String → Type 0
  IsReady files plan approvers =
      (contents : String) × (check : PolicyCheck) × (rendered : RenderedConfig) × (get
          plan.content.policy.path files
        ≡ some contents)
      × (world.sha256 contents ≡ plan.content.policy.sha256)
      × (baseline_changed world.sha256 files plan.content.baseline ≡ false)
      × (check_and_render world files plan.content.policy.path plan.content.target
            (path_of plan.content.baseline) (or_none plan.content.environment) plan.content.fail_on
            plan.content.native_syntax
          ≡ returned (check, rendered))
      × IsClear check rendered plan.content.allow_lossy
      × (world.sha256 rendered.text ≡ plan.content.config.sha256)
      × (valid_approvers hmac approval_key plan ≡ some approvers)
      × (ltb (length approvers) check.controls.required_approvals ≡ false)

  verify_unchanged-returned :
      (files : Files) (plan : Plan) (found : List String)
      → verify_unchanged hmac approval_key world files plan ≡ returned found
      → (check : PolicyCheck) × (rendered : RenderedConfig) × (approvers : List String)
        × (check_and_render world files plan.content.policy.path plan.content.target
              (path_of plan.content.baseline)
              (or_none plan.content.environment)
              plan.content.fail_on
              plan.content.native_syntax
            ≡ returned (check, rendered))
        × (valid_approvers hmac approval_key plan ≡ some approvers)
        × (found ≡ reasons_against hmac approval_key world plan check rendered approvers)
  unfolding verify_unchanged
  verify_unchanged-returned files plan found h =
      let ((check, rendered), c, h₁) =
        >>=-returned
          (check_and_render world files plan.content.policy.path plan.content.target
            (path_of plan.content.baseline) (or_none plan.content.environment) plan.content.fail_on
            plan.content.native_syntax)
          _ h in
      let (approvers, v, h₂) =
        >>=-returned (or_raise crashed (valid_approvers hmac approval_key plan)) _ h₁ in
      (
        check,
        rendered,
        approvers,
        c,
        or_raise-returned crashed (valid_approvers hmac approval_key plan) v,
        ground (arith, h₂),
      )

  -- The text about the quorum.
  abbrev missing_approvals : PolicyCheck → List String → String
  missing_approvals check approvers = text (
      str_ℕ (length approvers)
      ∷ " of "
      ∷ str_ℕ check.controls.required_approvals
      ∷ " required approval(s) for "
      ∷ environment_or check.controls.environment
      ∷ [])

  pub verify_for_deploy-IsReady :
      (files : Files) (plan : Plan) (found : List String)
      → verify_for_deploy hmac approval_key world files plan ≡ returned found
      → is_empty found ≡ true
      → (approvers : List String) × IsReady files plan approvers
  unfolding verify_for_deploy verify_files reasons_against
  verify_for_deploy-IsReady files plan found h nothing =
      let content : Content = plan.content in
      elim (Option-cases (get content.policy.path files)) [
        | inl missing ↦ ground (arith, h, nothing, missing)
        | inr (contents, p) ↦
            elim (Bool-cases (
              has_changed world.sha256 (some contents) content.policy.sha256
              || baseline_changed world.sha256 files content.baseline)) [
                | inl changed ↦ ground (arith, h, nothing, p, changed)
                | inr same ↦
                    let (check, rendered, approvers, c, v, e) =
                      verify_unchanged-returned files plan found (ground (arith, h, p, same)) in
                    let against = blockers_of check rendered content.allow_lossy in
                    let config =
                      reason_if (not (world.sha256 rendered.text == content.config.sha256))
                        "regenerated configuration differs from the approved plan" in
                    let quorum =
                      reason_if (ltb (length approvers) check.controls.required_approvals)
                        (missing_approvals check approvers) in
                    let whole = is_empty-append against (config ++ quorum) in
                    let tail = is_empty-append config quorum in
                    (
                      approvers,
                      (
                        contents,
                        check,
                        rendered,
                        p,
                        (eq_iff (world.sha256 contents) content.policy.sha256).0
                            (ground (arith, same)),
                        ground (arith, same),
                        c,
                        blockers_of-IsClear check rendered content.allow_lossy
                            (ground (arith, e, nothing, whole)),
                        (eq_iff (world.sha256 rendered.text) content.config.sha256).0
                            (ground (arith, e, nothing, whole, tail)),
                        v,
                        ground (arith, e, nothing, whole, tail),
                      ),
                    )
              ]
      ]

  module _ (state : StatePaths) (sha256 : Entry → String) (str_value : Option Json → String)
      (json_list : List String → String) (run_command : String → String → Files → Option CommandRun)
      (actor logged_at : String) where
    recorded_raised :
        (plan : Plan) (files : Files) (log : List Entry) (event : String) (details : Entry)
        (failure : Failure) (result : DeployResult)
        → (recorded hmac approval_key world state sha256 str_value json_list run_command actor
            logged_at plan files log event details
            (raised failure)).outcome
          ≢ returned result
    unfolding recorded
    recorded_raised plan files log event details failure result h =
        elim (Option-cases (append_event sha256 str_value log logged_at event actor details)) [
          | inl e ↦ ground (arith, h, e)
          | inr (extended, e) ↦ ground (arith, h, e)
        ]

    -- When deploy_plan returns, as a dry run or not, the plan was ready on the files as they were:
    -- the policy and the baseline have the hashes of the plan, the check that was run on them
    -- passes its gate, the target is allowed there, every check of the configuration passed, it
    -- loses nothing unless the plan allows losses, it has the hash of the planned one, and there
    -- are at least as many approvers as the controls require.
    pub deploy_plan-IsReady :
        (plan : Plan) (destination command : Option String) (dry_run : Bool) (files : Files)
        (log : List Entry) (result : DeployResult)
        → (deploy_plan hmac approval_key world state sha256 str_value json_list run_command actor
            logged_at plan destination command dry_run files log).outcome
          ≡ returned result
        → (approvers : List String) × IsReady files plan approvers
    unfolding deploy_plan recorded
    deploy_plan-IsReady plan destination command dry_run files log result h =
        let reasons : List String → List String = λ found.
          found
          ++ reason_if (is_none destination && is_none command && not dry_run)
              "nothing to deploy to: pass --to and/or --run" in
        elim (Outcome-cases (verify_for_deploy hmac approval_key world files plan)) [
          | inl (failure, v) ↦ ground (arith, h, v)
          | inr (found, v) ↦ elim (Bool-cases (is_empty (reasons found))) [
            | inl nothing ↦ verify_for_deploy-IsReady files plan found v (
                ground (
                  arith,
                  nothing,
                  is_empty-append found (
                      reason_if (is_none destination && is_none command && not dry_run)
                        "nothing to deploy to: pass --to and/or --run"),
                ))
            | inr refused ↦ absurd (
                recorded_raised plan files log "deploy_refused"
                  (audit_details hmac approval_key world state sha256 str_value json_list
                    run_command actor logged_at plan
                    (("reasons", other (json_list (reasons found))) ∷ []))
                  (release_error "deployment refused" (reasons found)) result
                  (ground (arith, h, v, refused)))
          ]
        ]
