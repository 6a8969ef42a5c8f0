-- ===== src/Cli/Releasing.antt =====
-- The commands plan, approve and deploy of py2fw/main.py, around the functions of
-- py2fw/release/plan.py. A command is its exit status and the plan file, the files and the log
-- that it leaves; what it prints is not modelled.
pub mod Exits
use py2fw.Common.{ℕ, String, Bool, not, Option, some, List}
use py2fw.Cli.World.{World, Files}
use py2fw.Cli.Outcome.{Outcome, returned, raised, Failure, release_error}
use py2fw.Cli.Commands.{handled, status_if}
use py2fw.Release.Audit.{Json, Entry}
use py2fw.Release.Content.{Content, Plan, PlanFile, saved}
use py2fw.Release.Approvals.{approve_plan}
use py2fw.Release.Plan.{StatePaths, create_plan, load_plan}
use py2fw.Release.Deploy.{CommandRun, Deployment, DeployResult, deploy_plan}

-- The end of a release command; the plan file is `none` while there is none.
pub record ReleaseEnd : Type 0 where
  pub status : ℕ
  pub plan_file : Option PlanFile
  pub files : Files
  pub log : List Entry

-- The status of an exception below `except ReleaseError` and `_handled`.
abbrev pub release_status : ℕ → Failure → ℕ
release_status status (release_error message reasons) = status
release_status status failure = handled failure

-- The status of an exception below `except ReleaseError` alone.
abbrev pub approval_status : Failure → ℕ
approval_status (release_error message reasons) = 6
approval_status failure = 1

abbrev pub deploy_status : Outcome DeployResult → ℕ
deploy_status (raised failure) = release_status 6 failure
deploy_status (returned result) = 0

module _ (hash_content : Content → String) (world : World) (state : StatePaths)
    (sha256 : Entry → String) (str_value : Option Json → String) where
  module _ (unified_diff : String → String → String → String) where
    -- A plan is written before the status says whether it can be deployed.
    unfoldable pub plan_command :
        String
        → String
        → String
        → Option String
        → Option String
        → Option String
        → Bool
        → Bool
        → String
        → String
        → Option PlanFile
        → Files
        → List Entry
        → ReleaseEnd
    unfolding create_plan
    plan_command policy target author baseline environment fail_on allow_lossy native created_at
          logged_at plan_file files log =
        elim (create_plan hash_content world files state unified_diff sha256 str_value policy target
          author baseline environment fail_on allow_lossy native created_at logged_at log) [
            | raised failure ↦ record {
              status = release_status 2 failure;
              plan_file = plan_file;
              files = files;
              log = log;
            }
            | returned (plan, extended) ↦ record {
              status = status_if (not plan.content.deployable) 1;
              plan_file = some (saved plan);
              files = files;
              log = extended;
            }
          ]

  module _ (hmac : String → String → String) (approval_key : String) where
    -- `approve_plan(load_plan(plan_file), ...)`
    abbrev pub load_and_approve :
        Option PlanFile
        → String
        → String
        → String
        → String
        → List Entry
        → Outcome (Plan × List Entry)
    load_and_approve plan_file approver comment at logged_at log =
        elim (load_plan hash_content plan_file) [
          | raised failure ↦ raised failure
          | returned plan ↦
              approve_plan hmac approval_key sha256 str_value plan approver comment at logged_at log
        ]

    unfoldable pub approve_command :
        String → String → String → String → Option PlanFile → Files → List Entry → ReleaseEnd
    unfolding load_plan approve_plan
    approve_command approver comment at logged_at plan_file files log =
        elim (load_and_approve plan_file approver comment at logged_at log) [
          | raised failure ↦ record {
            status = approval_status failure;
            plan_file = plan_file;
            files = files;
            log = log;
          }
          | returned (plan, extended) ↦ record {
            status = 0;
            plan_file = some (saved plan);
            files = files;
            log = extended;
          }
        ]

    module _ (json_list : List String → String)
        (run_command : String → String → Files → Option CommandRun) (actor logged_at : String) where
      -- `deploy_plan(load_plan(plan_file), ...)`
      unfoldable pub load_and_deploy :
          Option String → Option String → Bool → Option PlanFile → Files → List Entry → Deployment
      unfolding load_plan deploy_plan
      load_and_deploy destination command dry_run plan_file files log =
          elim (load_plan hash_content plan_file) [
            | raised failure ↦ record { files = files; log = log; outcome = raised failure }
            | returned plan ↦
                deploy_plan hmac approval_key world state sha256 str_value json_list run_command
                  actor logged_at plan destination command dry_run files log
          ]

      unfoldable pub deploy_command :
          Option String → Option String → Bool → Option PlanFile → Files → List Entry → ReleaseEnd
      unfolding load_and_deploy
      deploy_command destination command dry_run plan_file files log =
          let deployment : Deployment =
            load_and_deploy destination command dry_run plan_file files log in
          record {
            status = deploy_status deployment.outcome;
            plan_file = plan_file;
            files = deployment.files;
            log = deployment.log;
          }
