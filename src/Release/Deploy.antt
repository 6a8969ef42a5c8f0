-- ===== src/Release/Deploy.antt =====
-- deploy_plan of py2fw/release/plan.py. The files and the log are passed from step to step; the
-- result has them as they are afterwards, whether the call returns or raises. Running the deploy
-- command is a parameter.
pub mod Ready
pub mod Steps
pub mod Recorded
use py2fw.Common.{
  String, Bool, true, false, not, ◌&&◌, Option, none, some, List, [], ◌∷◌, ◌++◌, select, is_empty,
  is_none, get, insert, if◌then◌else◌, ◌==◌, String_eq, text,
}
use py2fw.Utils.Spaces.{strip, last_chars}
use py2fw.Cli.World.{World, Files}
use py2fw.Cli.Outcome.{Outcome, returned, raised, release_error, crashed}
use py2fw.Release.Audit.{Json, string, other, Entry, append_event}
use py2fw.Release.Content.{Content, Plan}
use py2fw.Release.Approvals.{valid_approvers}
use py2fw.Release.Plan.{StatePaths}
use py2fw.Release.Verifying.{reason_if, verify_for_deploy}

pub record DeployResult : Type 0 where
  pub plan_id : String
  pub destination : Option String
  pub approvers : List String
  pub command_output : String
  pub dry_run : Bool

-- The end of a deploy command: whether its return code is 0, the code as a text, what it wrote, and
-- the files it leaves.
pub record CommandRun : Type 0 where
  pub success : Bool
  pub exit_code : String
  pub stdout : String
  pub stderr : String
  pub files_left : Files

-- A deployment: the files and the log afterwards, and how the call ended.
pub record Deployment : Type 0 where
  pub files : Files
  pub log : List Entry
  pub outcome : Outcome DeployResult

-- `os.replace(source, destination)`
unfoldable pub replace_file : String → String → Files → Files
unfolding get insert
replace_file source destination files = elim (get source files) [
  | none ↦ files
  | some contents ↦
      select (λ (file : String × String). not (file.0 == source))
        (insert destination contents files)
]

abbrev pub json_string : Option String → Json
json_string none = other "null"
json_string (some value) = string value

module _ (hmac : String → String → String) (approval_key : String) (world : World) where
  module _ (state : StatePaths) (sha256 : Entry → String) (str_value : Option Json → String)
      (json_list : List String → String) (run_command : String → String → Files → Option CommandRun)
      (actor logged_at : String) (plan : Plan) where
    -- The fields that every event of a deployment has.
    abbrev pub audit_details : Entry → Entry
    audit_details details =
        ("plan_id", string plan.plan_id)
        ∷ ("environment", string plan.content.environment)
        ∷ ("target", string plan.content.target)
        ∷ details

    -- `append_event(state.audit_log, event, actor, ...)`, and how the call ends behind it.
    unfoldable pub recorded :
        Files → List Entry → String → Entry → Outcome DeployResult → Deployment
    unfolding append_event
    recorded files log event details outcome =
        elim (append_event sha256 str_value log logged_at event actor details) [
          | none ↦ record { files = files; log = log; outcome = raised crashed }
          | some extended ↦ record { files = files; log = extended; outcome = outcome }
        ]

    -- The snapshot of what is deployed now, and the last event.
    unfoldable pub finish_deploy :
        Option String → Option String → List String → String → Files → List Entry → Deployment
    unfolding recorded get insert
    finish_deploy destination command approvers output files log =
        let content : Content = plan.content in
        let snapshot : Files =
          insert (state.deployed_config content.environment content.target)
            (text (content.config.text ∷ "\n" ∷ [])) files in
        elim (get content.policy.path snapshot) [
          | none ↦ record { files = snapshot; log = log; outcome = raised crashed }
          | some policy ↦
              recorded
                (insert (state.deployed_policy content.environment content.target) policy snapshot)
                log "deploy"
                (audit_details (
                  ("author", string content.author)
                  ∷ ("approvers", other (json_list approvers))
                  ∷ ("policy_sha256", string content.policy.sha256)
                  ∷ ("config_sha256", string content.config.sha256)
                  ∷ ("destination", json_string destination)
                  ∷ ("command", json_string command)
                  ∷ []))
                (returned (record {
                  plan_id = plan.plan_id;
                  destination = destination;
                  approvers = approvers;
                  command_output = output;
                  dry_run = false;
                }))
        ]

    -- The files with the configuration staged and, if there is one, at its destination.
    unfoldable pub write_config : Option String → Files → Files
    unfolding insert replace_file
    write_config destination files =
        let contents = text (plan.content.config.text ∷ "\n" ∷ []) in
        let staged : Files =
          insert (state.staged plan.plan_id plan.content.target) contents files in
        elim destination [
          | none ↦ staged
          | some path ↦
              replace_file (state.temporary path) path
                (insert (state.temporary path) contents staged)
        ]

    -- The path that the deploy command is given.
    abbrev pub config_path : Option String → String
    config_path none = state.staged plan.plan_id plan.content.target
    config_path (some path) = path

    -- What deploy_plan does once nothing is against it.
    unfoldable pub apply_plan :
        Option String → Option String → List String → Files → List Entry → Deployment
    unfolding write_config finish_deploy recorded strip last_chars
    apply_plan destination command approvers files log =
        let written = write_config destination files in
        elim command [
          | none ↦ finish_deploy destination none approvers "" written log
          | some line ↦ (elim (run_command line (config_path destination) written) [
            | none ↦ record { files = written; log = log; outcome = raised crashed }
            | some run ↦
                (let output = strip (text (run.stdout ∷ run.stderr ∷ [])) in
                  if run.success
                  then finish_deploy destination (some line) approvers output run.files_left log
                  else recorded run.files_left log "deploy_failed"
                      (audit_details (
                        ("command", string line)
                        ∷ ("exit_code", other run.exit_code)
                        ∷ ("output", string (last_chars 2000 output))
                        ∷ []))
                      (raised (
                        release_error (text ("deploy command exited with " ∷ run.exit_code ∷ []))
                          (last_chars 2000 output ∷ []))))
          ])
        ]

    unfoldable pub deploy_plan :
        Option String → Option String → Bool → Files → List Entry → Deployment
    unfolding verify_for_deploy recorded apply_plan valid_approvers
    deploy_plan destination command dry_run files log =
        elim (verify_for_deploy hmac approval_key world files plan) [
          | raised failure ↦ record { files = files; log = log; outcome = raised failure }
          | returned found ↦
              (let reasons : List String =
                  found
                  ++ reason_if (is_none destination && is_none command && not dry_run)
                      "nothing to deploy to: pass --to and/or --run" in
                if not (is_empty reasons)
                then recorded files log "deploy_refused"
                    (audit_details (("reasons", other (json_list reasons)) ∷ []))
                    (raised (release_error "deployment refused" reasons))
                else elim (valid_approvers hmac approval_key plan) [
                  | none ↦ record { files = files; log = log; outcome = raised crashed }
                  | some approvers ↦
                      if dry_run
                      then record {
                        files = files;
                        log = log;
                        outcome = returned (record {
                          plan_id = plan.plan_id;
                          destination = destination;
                          approvers = approvers;
                          command_output = "";
                          dry_run = true;
                        });
                      }
                      else apply_plan destination command approvers files log
                ])
        ]
