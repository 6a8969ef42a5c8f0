-- ===== src/Release/Deploy/Steps.antt =====
-- The steps of a deployment that was let through, and what they leave: deploy_plan of
-- py2fw/release/plan.py.
use package.text.Mathlib.TextEquality.{eq_iff}
use py2fw.Common.{
  String, ◌≡◌, ◌≢◌, ◌⊎◌, refl, inl, inr, false, Option, none, some, List, [], ◌∷◌, arith, get,
  get-insert, insert, String_eq, Bool-cases, Option-cases, text,
}
use py2fw.Utils.Spaces.{strip, last_chars}
use py2fw.Cli.World.{World, Files}
use py2fw.Cli.Outcome.{Outcome, returned, raised, release_error, crashed}
use py2fw.Release.Audit.{Json, string, other, Entry, append_event}
use py2fw.Release.Content.{Content, Plan}
use py2fw.Release.Plan.{StatePaths}
use py2fw.Release.Deploy.{
  CommandRun, Deployment, DeployResult, json_string, audit_details, recorded, finish_deploy,
  write_config, config_path, apply_plan,
}

module _ (hmac : String → String → String) (approval_key : String) (world : World)
    (state : StatePaths) (sha256 : Entry → String) (str_value : Option Json → String)
    (json_list : List String → String) (run_command : String → String → Files → Option CommandRun)
    (actor logged_at : String) (plan : Plan) where
  -- The log with one more event.
  abbrev pub Logged : List Entry → String → List Entry → Type 0
  Logged log event extended =
      (details : Entry) × (append_event sha256 str_value log logged_at event actor details
        ≡ some extended)

  -- An event that the log does not take, for what stands at its end.
  abbrev pub IsUnlogged : List Entry → Type 0
  IsUnlogged log =
      (event : String) × (details : Entry) × (append_event sha256 str_value log logged_at event
          actor details
        ≡ none)

  pub recorded-cases :
      (files : Files) (log : List Entry) (event : String) (details : Entry)
      (outcome : Outcome DeployResult)
      → let d =
          recorded hmac approval_key world state sha256 str_value json_list run_command actor
            logged_at plan files log event details outcome in
        (d.files ≡ files)
        × (((d.outcome ≡ raised crashed) × IsUnlogged log)
            ⊎ ((d.outcome ≡ outcome) × Logged log event d.log))
  unfolding recorded
  recorded-cases files log event details outcome =
      elim (Option-cases (append_event sha256 str_value log logged_at event actor details)) [
        | inl e ↦ (ground (arith, e), inl (ground (arith, e), (event, details, e)))
        | inr (extended, e) ↦
            (ground (arith, e), inr (ground (arith, e), (details, ground (arith, e))))
      ]

  -- A call that wrote the snapshot.
  abbrev pub IsDeployed : List Entry → Deployment → Type 0
  IsDeployed log d =
      (get (state.deployed_config plan.content.environment plan.content.target) d.files
        ≡ some (text (plan.content.config.text ∷ "\n" ∷ [])))
      × Logged log "deploy" d.log

  -- The end of a deployment: the snapshot is written and logged, or something is missing.
  finish_deploy-cases :
      state.deployed_policy plan.content.environment plan.content.target
        ≢ state.deployed_config plan.content.environment plan.content.target
      → (destination command : Option String) (approvers : List String) (output : String)
        (files : Files) (log : List Entry)
      → let d =
          finish_deploy hmac approval_key world state sha256 str_value json_list run_command actor
            logged_at plan destination command approvers output files log in
        ((d.outcome ≡ raised crashed)
          × (IsUnlogged log ⊎ (get plan.content.policy.path d.files ≡ none)))
        ⊎ ((result : DeployResult) × (d.outcome ≡ returned result) × IsDeployed log d)
  unfolding finish_deploy
  finish_deploy-cases distinct destination command approvers output files log =
      let content : Content = plan.content in
      let config = state.deployed_config content.environment content.target in
      let policy_copy = state.deployed_policy content.environment content.target in
      let contents = text (content.config.text ∷ "\n" ∷ []) in
      let snapshot : Files = insert config contents files in
      elim (Option-cases (get content.policy.path snapshot)) [
        | inl missing ↦ inl (ground (arith, missing), inr (ground (arith, missing)))
        | inr (policy, p) ↦
            let result : DeployResult = record {
              plan_id = plan.plan_id;
              destination = destination;
              approvers = approvers;
              command_output = output;
              dry_run = false;
            } in
            let (left, ended) =
              recorded-cases (insert policy_copy policy snapshot) log "deploy"
                (audit_details hmac approval_key world state sha256 str_value json_list run_command
                  actor logged_at plan
                  (("author", string content.author)
                    ∷ ("approvers", other (json_list approvers))
                    ∷ ("policy_sha256", string content.policy.sha256)
                    ∷ ("config_sha256", string content.config.sha256)
                    ∷ ("destination", json_string destination)
                    ∷ ("command", json_string command)
                    ∷ []))
                (returned result) in
            let kept : get config (insert policy_copy policy snapshot) ≡ some contents = ground (
              arith,
              distinct,
              get-insert policy_copy config policy snapshot,
              get-insert config config contents files,
              eq_iff policy_copy config,
              eq_iff config config,
            ) in
            elim ended [
              | inl (crash, why) ↦ inl (ground (arith, p, crash), inl why)
              | inr (back, (details, logged)) ↦ inr (
                result,
                ground (arith, p, back),
                (ground (arith, p, left, kept), (details, ground (arith, p, logged))),
              )
            ]
      ]

  -- The deploy command failed: the files are what it has made of the files that were written for
  -- it, and the log has the failure.
  abbrev pub IsFailedRun : Option String → Option String → Files → List Entry → Deployment → Type 0
  IsFailedRun destination command files log d =
      (line : String) × (run : CommandRun) × (command ≡ some line)
      × (run_command line
            (config_path hmac approval_key world state sha256 str_value json_list run_command actor
              logged_at plan destination)
            (write_config hmac approval_key world state sha256 str_value json_list run_command actor
              logged_at plan destination files)
          ≡ some run)
      × (run.success ≡ false)
      × (d.files ≡ run.files_left)
      × Logged log "deploy_failed" d.log

  -- What an unexpected exception comes from: the log does not take an event, the deploy command
  -- cannot be run, or the policy is gone behind it.
  abbrev pub IsCrash : Option String → Option String → Files → List Entry → Deployment → Type 0
  IsCrash destination command files log d =
      IsUnlogged log
      ⊎ (((line : String) × (command ≡ some line)
            × (run_command line
                  (config_path hmac approval_key world state sha256 str_value json_list run_command
                    actor logged_at plan destination)
                  (write_config hmac approval_key world state sha256 str_value json_list run_command
                    actor logged_at plan destination files)
                ≡ none))
          ⊎ (get plan.content.policy.path d.files ≡ none))

  -- The ways in which a call that was let through ends.
  abbrev pub Ends : Option String → Option String → Files → List Entry → Deployment → Type 0
  Ends destination command files log d =
      ((d.outcome ≡ raised crashed) × IsCrash destination command files log d)
      ⊎ (((message : String) × (reasons : List String) × (d.outcome
              ≡ raised (release_error message reasons))
            × IsFailedRun destination command files log d)
          ⊎ ((result : DeployResult) × (d.outcome ≡ returned result) × IsDeployed log d))

  pub apply_plan-Ends :
      state.deployed_policy plan.content.environment plan.content.target
        ≢ state.deployed_config plan.content.environment plan.content.target
      → (destination command : Option String) (approvers : List String) (files : Files)
        (log : List Entry)
      → Ends destination command files log (
          apply_plan hmac approval_key world state sha256 str_value json_list run_command actor
            logged_at plan destination command approvers files log)
  unfolding apply_plan
  apply_plan-Ends distinct destination none approvers files log =
      let written =
        write_config hmac approval_key world state sha256 str_value json_list run_command actor
          logged_at plan destination files in
      elim (finish_deploy-cases distinct destination none approvers "" written log) [
        | inl (crash, inl why) ↦ inl (crash, inl why)
        | inl (crash, inr gone) ↦ inl (crash, inr (inr gone))
        | inr done ↦ inr (inr done)
      ]
  apply_plan-Ends distinct destination (some line) approvers files log =
      let written =
        write_config hmac approval_key world state sha256 str_value json_list run_command actor
          logged_at plan destination files in
      let place =
        config_path hmac approval_key world state sha256 str_value json_list run_command actor
          logged_at plan destination in
      elim (Option-cases (run_command line place written)) [
        | inl missing ↦ inl (ground (arith, missing), inr (inl (line, refl, missing)))
        | inr (run, r) ↦
            let output = strip (text (run.stdout ∷ run.stderr ∷ [])) in
            elim (Bool-cases run.success) [
              | inl good ↦
                  let same : apply_plan hmac approval_key world state sha256 str_value json_list
                        run_command actor logged_at plan destination (some line) approvers files log
                      ≡ finish_deploy hmac approval_key world state sha256 str_value json_list
                          run_command actor logged_at plan destination (some line) approvers output
                          run.files_left log =
                    ground (arith, r, good) in
                  rw same
                    (elim (finish_deploy-cases distinct destination (some line) approvers output
                      run.files_left log) [
                        | inl (crash, inl why) ↦ inl (crash, inl why)
                        | inl (crash, inr gone) ↦ inl (crash, inr (inr gone))
                        | inr done ↦ inr (inr done)
                      ])
              | inr bad ↦
                  let details =
                    audit_details hmac approval_key world state sha256 str_value json_list
                      run_command actor logged_at plan
                      (("command", string line)
                        ∷ ("exit_code", other run.exit_code)
                        ∷ ("output", string (last_chars 2000 output))
                        ∷ []) in
                  let message = text ("deploy command exited with " ∷ run.exit_code ∷ []) in
                  let failure = release_error message (last_chars 2000 output ∷ []) in
                  let (left, ended) =
                    recorded-cases run.files_left log "deploy_failed" details (raised failure) in
                  elim ended [
                    | inl (crash, why) ↦ inl (ground (arith, r, bad, crash), inl why)
                    | inr (back, (found, logged)) ↦ inr (
                        inl (
                          message,
                          (last_chars 2000 output ∷ []),
                          ground (arith, r, bad, back),
                          (
                            line,
                            run,
                            refl,
                            r,
                            bad,
                            ground (arith, r, bad, left),
                            (found, ground (arith, r, bad, logged)),
                          ),
                        ))
                  ]
            ]
      ]
