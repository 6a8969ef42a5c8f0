-- ===== src/Cli/Releasing/Exits.antt =====
-- What the exit status of the release commands says: py2fw/main.py.
use py2fw.Common.{
  String, ◌≡◌, refl, inl, inr, Bool, Option, none, some, List, arith, Bool-cases, Option-cases,
}
use py2fw.Cli.World.{World, Files}
use py2fw.Cli.Outcome.{
  Outcome, returned, raised, parse_error, compile_error, baseline_error, unknown_target,
  release_error, crashed, Outcome-cases,
}
use py2fw.Release.Audit.{Json, Entry}
use py2fw.Release.Content.{Content, Plan, PlanFile, plan_format}
use py2fw.Release.Plan.{StatePaths, is_value, load_plan}
use py2fw.Release.Deploy.{CommandRun, DeployResult, deploy_plan}
use py2fw.Release.Deploy.Ready.{IsReady, deploy_plan-IsReady}
use py2fw.Cli.Releasing.{deploy_status, load_and_deploy, deploy_command}

-- Only a deployment that returns has the status 0.
deploy_status-returned :
    (outcome : Outcome DeployResult)
    → deploy_status outcome ≡ 0
    → (result : DeployResult) × (outcome ≡ returned result)
deploy_status-returned (returned result) h = (result, refl)
deploy_status-returned (raised parse_error) h = ground (arith, h)
deploy_status-returned (raised (compile_error message)) h = ground (arith, h)
deploy_status-returned (raised baseline_error) h = ground (arith, h)
deploy_status-returned (raised (unknown_target target)) h = ground (arith, h)
deploy_status-returned (raised (release_error message reasons)) h = ground (arith, h)
deploy_status-returned (raised crashed) h = ground (arith, h)

load_plan-plan_id :
    (hash_content : Content → String) (plan_file : Option PlanFile) (plan : Plan)
    → load_plan hash_content plan_file ≡ returned plan
    → plan.plan_id ≡ hash_content plan.content
unfolding load_plan
load_plan-plan_id hash_content none plan h = ground (arith, h)
load_plan-plan_id hash_content (some file) plan h =
    elim (Bool-cases (is_value file.format plan_format)) [
      | inr other ↦ ground (arith, h, other)
      | inl good ↦ elim (Option-cases file.content) [
        | inl missing ↦ ground (arith, h, good, missing)
        | inr (content, c) ↦ elim (Bool-cases (is_value file.plan_id (hash_content content))) [
          | inr changed ↦ ground (arith, h, good, c, changed)
          | inl same ↦ ground (arith, h, good, c, same)
        ]
      ]
    ]

module _ (hash_content : Content → String) (world : World) (state : StatePaths)
    (sha256 : Entry → String) (str_value : Option Json → String) (hmac : String → String → String)
    (approval_key : String) (json_list : List String → String)
    (run_command : String → String → Files → Option CommandRun) (actor logged_at : String) where
  load_and_deploy-returned :
      (destination command : Option String) (dry_run : Bool) (plan_file : Option PlanFile)
      (files : Files) (log : List Entry) (result : DeployResult)
      → (load_and_deploy hash_content world state sha256 str_value hmac approval_key json_list
          run_command actor logged_at destination command dry_run plan_file files log).outcome
        ≡ returned result
      → (plan : Plan) × (load_plan hash_content plan_file ≡ returned plan)
        × ((deploy_plan hmac approval_key world state sha256 str_value json_list run_command actor
              logged_at plan destination command dry_run files log).outcome
            ≡ returned result)
  unfolding load_and_deploy
  load_and_deploy-returned destination command dry_run plan_file files log result h =
      elim (Outcome-cases (load_plan hash_content plan_file)) [
        | inl (failure, l) ↦ ground (arith, h, l)
        | inr (plan, l) ↦ (plan, l, ground (arith, h, l))
      ]

  -- When the deploy command ends with the status 0, be it a dry run or not, the plan file is a
  -- plan whose id is the hash of its content, and this plan was ready on the files as they were:
  -- the policy and the baseline have the hashes of the plan, the check that was run on them
  -- passes its gate, the target is allowed there, every check of the configuration passed, it
  -- loses nothing unless the plan allows losses, it has the hash of the planned one, and there
  -- are at least as many approvers as the controls require.
  pub deploy_command-IsReady :
      (destination command : Option String) (dry_run : Bool) (plan_file : Option PlanFile)
      (files : Files) (log : List Entry)
      → (deploy_command hash_content world state sha256 str_value hmac approval_key json_list
          run_command actor logged_at destination command dry_run plan_file files log).status
        ≡ 0
      → (plan : Plan) × (approvers : List String) × (load_plan hash_content plan_file
          ≡ returned plan)
        × (plan.plan_id ≡ hash_content plan.content)
        × IsReady hmac approval_key world files plan approvers
  unfolding deploy_command
  deploy_command-IsReady destination command dry_run plan_file files log h =
      let (result, r) = deploy_status-returned _ h in
      let (plan, l, d) =
        load_and_deploy-returned destination command dry_run plan_file files log result r in
      let (approvers, ready) =
        deploy_plan-IsReady hmac approval_key world state sha256 str_value json_list run_command
          actor logged_at plan destination command dry_run files log result d in
      (plan, approvers, l, load_plan-plan_id hash_content plan_file plan l, ready)
