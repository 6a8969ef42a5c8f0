-- ===== src/Release/Deploy/Recorded.antt =====
-- What a deployment leaves behind: deploy_plan of py2fw/release/plan.py.
use py2fw.Common.{
  ◌||◌, is_empty-append, String, ◌≡◌, ◌≢◌, ◌⊎◌, inl, inr, Bool, true, false, not, ◌&&◌, Option,
  List, [], ◌∷◌, ◌++◌, arith, is_empty, is_none, String_eq, Bool-cases,
}
use py2fw.Cli.World.{World, Files}
use py2fw.Cli.Outcome.{returned, raised, Failure, release_error, crashed, Outcome-cases}
use py2fw.Release.Audit.{Json, other, Entry}
use py2fw.Release.Content.{Plan}
use py2fw.Release.Plan.{StatePaths}
use py2fw.Release.Deploy.{
  CommandRun, Deployment, DeployResult, audit_details, apply_plan, deploy_plan,
}
use py2fw.Release.Verifying.{reason_if, verify_for_deploy}
use py2fw.Release.Deploy.Ready.{verify_for_deploy-IsReady}
use py2fw.Release.Deploy.Steps.{Logged, IsUnlogged, recorded-cases, Ends, apply_plan-Ends}

module _ (hmac : String → String → String) (approval_key : String) (world : World)
    (state : StatePaths) (sha256 : Entry → String) (str_value : Option Json → String)
    (json_list : List String → String) (run_command : String → String → Files → Option CommandRun)
    (actor logged_at : String) (plan : Plan) where
  -- Something stands against the deployment, or it has nowhere to go to.
  abbrev pub is_refused : Option String → Option String → Bool → List String → Bool
  is_refused destination command dry_run found =
      not (is_empty found) || (is_none destination && (is_none command && not dry_run))

  -- A refused call leaves the files alone and stands in the log.
  abbrev pub IsRefusal : Files → List Entry → Deployment → Type 0
  IsRefusal files log d =
      (d.files ≡ files)
      × (((d.outcome ≡ raised crashed)
            × IsUnlogged hmac approval_key world state sha256 str_value json_list run_command actor
                logged_at plan log)
          ⊎ ((reasons : List String) × (d.outcome
                ≡ raised (release_error "deployment refused" reasons))
              × Logged hmac approval_key world state sha256 str_value json_list run_command actor
                  logged_at plan log "deploy_refused" d.log))

  -- A dry run returns, and leaves the files and the log alone.
  abbrev pub IsRehearsal : Files → List Entry → Deployment → Type 0
  IsRehearsal files log d =
      (result : DeployResult) × (d.outcome ≡ returned result) × (d.files ≡ files) × (d.log ≡ log)

  refused-IsRefusal :
      (destination command : Option String) (dry_run : Bool) (files : Files) (log : List Entry)
      (found : List String)
      → verify_for_deploy hmac approval_key world files plan ≡ returned found
      → is_refused destination command dry_run found ≡ true
      → IsRefusal files log (
          deploy_plan hmac approval_key world state sha256 str_value json_list run_command actor
            logged_at plan destination command dry_run files log)
  unfolding deploy_plan
  refused-IsRefusal destination command dry_run files log found v refused =
      let nowhere =
        reason_if (is_none destination && is_none command && not dry_run)
          "nothing to deploy to: pass --to and/or --run" in
      let some_reason : is_empty (found ++ nowhere) ≡ false =
        ground (arith, refused, is_empty-append found nowhere) in
      let (left, ended) =
        recorded-cases hmac approval_key world state sha256 str_value json_list run_command actor
          logged_at plan files log "deploy_refused"
          (audit_details hmac approval_key world state sha256 str_value json_list run_command actor
            logged_at plan (("reasons", other (json_list (found ++ nowhere))) ∷ []))
          (raised (release_error "deployment refused" (found ++ nowhere))) in
      elim ended [
        | inl (crash, why) ↦
            (ground (arith, v, some_reason, left), inl (ground (arith, v, some_reason, crash), why))
        | inr (back, (details, logged)) ↦ (
          ground (arith, v, some_reason, left),
          inr (
            found ++ nowhere,
            ground (arith, v, some_reason, back),
            (details, ground (arith, v, some_reason, logged)),
          ),
        )
      ]

  dry-IsRehearsal :
      (destination command : Option String) (files : Files) (log : List Entry) (found : List String)
      → verify_for_deploy hmac approval_key world files plan ≡ returned found
      → is_refused destination command true found ≡ false
      → IsRehearsal files log (
          deploy_plan hmac approval_key world state sha256 str_value json_list run_command actor
            logged_at plan destination command true files log)
  unfolding deploy_plan
  dry-IsRehearsal destination command files log found v free =
      let nowhere =
        reason_if (is_none destination && is_none command && not true)
          "nothing to deploy to: pass --to and/or --run" in
      let nothing : is_empty (found ++ nowhere) ≡ true =
        ground (arith, free, is_empty-append found nowhere) in
      let (approvers, (_, _, _, _, _, _, _, _, _, e, _)) =
        verify_for_deploy-IsReady hmac approval_key world files plan found v
          (ground (arith, free)) in
      (
        record {
          plan_id = plan.plan_id;
          destination = destination;
          approvers = approvers;
          command_output = "";
          dry_run = true;
        },
        ground (arith, v, nothing, e),
        ground (arith, v, nothing, e),
        ground (arith, v, nothing, e),
      )

  wet-Ends :
      state.deployed_policy plan.content.environment plan.content.target
        ≢ state.deployed_config plan.content.environment plan.content.target
      → (destination command : Option String) (files : Files) (log : List Entry)
        (found : List String)
      → verify_for_deploy hmac approval_key world files plan ≡ returned found
      → is_refused destination command false found ≡ false
      → Ends hmac approval_key world state sha256 str_value json_list run_command actor logged_at
          plan destination command files log
          (deploy_plan hmac approval_key world state sha256 str_value json_list run_command actor
            logged_at plan destination command false files log)
  unfolding deploy_plan
  wet-Ends distinct destination command files log found v free =
      let nowhere =
        reason_if (is_none destination && is_none command && not false)
          "nothing to deploy to: pass --to and/or --run" in
      let nothing : is_empty (found ++ nowhere) ≡ true =
        ground (arith, free, is_empty-append found nowhere) in
      let (approvers, (_, _, _, _, _, _, _, _, _, e, _)) =
        verify_for_deploy-IsReady hmac approval_key world files plan found v
          (ground (arith, free)) in
      let same : deploy_plan hmac approval_key world state sha256 str_value json_list run_command
            actor logged_at plan destination command false files log
          ≡ apply_plan hmac approval_key world state sha256 str_value json_list run_command actor
              logged_at plan destination command approvers files log =
        ground (arith, v, nothing, e) in
      rw same (
        apply_plan-Ends hmac approval_key world state sha256 str_value json_list run_command actor
          logged_at plan distinct destination command approvers files log)

  -- How a call of deploy_plan ends, when the copy of the policy has another path than the
  -- snapshot. When its checks raise, it raises the same, and files and log are as before. When
  -- they return reasons, or a call that is no dry run has neither a destination nor a command, it
  -- is refused: the files are as before, and the refusal stands in the log. Else a dry run
  -- returns, with files and log as they were; and any other call either has a failed command, which the log
  -- has, with the files as the command left them, or returns, and then the snapshot of the
  -- environment and target has the text of the plan and the log has one more event, the
  -- deployment. In a refusal or a deployment an
  -- unexpected exception comes only from a log that does not take an event, from a deploy command
  -- that cannot be run, or from a policy file that is gone behind it.
  pub deploy_plan-Ends :
      state.deployed_policy plan.content.environment plan.content.target
        ≢ state.deployed_config plan.content.environment plan.content.target
      → (destination command : Option String) (dry_run : Bool) (files : Files) (log : List Entry)
      → let d =
          deploy_plan hmac approval_key world state sha256 str_value json_list run_command actor
            logged_at plan destination command dry_run files log in
        ((failure : Failure) × (verify_for_deploy hmac approval_key world files plan
            ≡ raised failure)
          × (d.outcome ≡ raised failure)
          × (d.files ≡ files)
          × (d.log ≡ log))
        ⊎ ((found : List String) × (verify_for_deploy hmac approval_key world files plan
              ≡ returned found)
            × (((is_refused destination command dry_run found ≡ true) × IsRefusal files log d)
                ⊎ ((is_refused destination command dry_run found ≡ false)
                    × (((dry_run ≡ true) × IsRehearsal files log d)
                        ⊎ ((dry_run ≡ false)
                            × Ends hmac approval_key world state sha256 str_value json_list
                                run_command actor logged_at plan destination command files log
                                d)))))
  unfolding deploy_plan
  deploy_plan-Ends distinct destination command dry_run files log =
      elim (Outcome-cases (verify_for_deploy hmac approval_key world files plan)) [
        | inl (failure, v) ↦
            inl (failure, v, ground (arith, v), ground (arith, v), ground (arith, v))
        | inr (found, v) ↦ inr (
          found,
          v,
          elim (Bool-cases (is_refused destination command dry_run found)) [
            | inl refused ↦
                inl
                  (refused, refused-IsRefusal destination command dry_run files log found v refused)
            | inr free ↦ inr (
              free,
              elim (Bool-cases dry_run) [
                | inl dry ↦ inl (
                  dry,
                  rw dry (dry-IsRehearsal destination command files log found v (rw dry at free)),
                )
                | inr wet ↦ inr (
                  wet,
                  rw wet (wet-Ends distinct destination command files log found v (rw wet at free)),
                )
              ],
            )
          ],
        )
      ]
