-- ===== src/Release/Plan.antt =====
-- create_plan and load_plan of py2fw/release/plan.py. The hash of a content, the text diff, the
-- paths of the state directory and the times are parameters.
use py2fw.Common.{
  String, Bool, false, not, Option, none, some, List, [], ◌∷◌, is_empty, get, has, if◌then◌else◌,
  ◌==◌, String_eq, text,
}
use py2fw.Engine.Diff.{diff_policies}
use py2fw.Enforcement.Controls.{Controls}
use py2fw.Cli.World.{World, Files}
use py2fw.Cli.Outcome.{
  Outcome, returned, raised, unknown_target, release_error, crashed, ◌>>=◌, or_raise,
}
use py2fw.Cli.Pipeline.{PolicyCheck, RenderedConfig, compile_path, check_path, render_config}
use py2fw.Release.Audit.{Json, string, Entry, append_event}
use py2fw.Release.Content.{FileRef, Content, Plan, PlanFile, plan_format}
use py2fw.Release.Approvals.{json_bool}
use py2fw.Release.Summary.{gate_summary, change_lines, blockers_of}

-- The paths of StatePaths, by environment and target.
pub record StatePaths : Type 0 where
  pub deployed_config : String → String → String
  pub deployed_policy : String → String → String
  -- `root / "staging" / f"{plan_id[:12]}-{target}.cfg"`
  pub staged : String → String → String
  -- The temporary file beside a destination.
  pub temporary : String → String

-- The KeyError of an unknown target becomes a ReleaseError.
abbrev pub as_release_error : Outcome RenderedConfig → Outcome RenderedConfig
as_release_error (raised (unknown_target target)) =
    raised (release_error (text ("'unknown target: " ∷ target ∷ "'" ∷ [])) [])
as_release_error outcome = outcome

module _ (world : World) (files : Files) where
  -- `_check_and_render`
  unfoldable pub check_and_render :
      String
      → String
      → Option String
      → Option String
      → Option String
      → Bool
      → Outcome (PolicyCheck × RenderedConfig)
  check_and_render policy target baseline environment fail_on native =
      check_path world files policy fail_on baseline environment false false >>= λ check.
      as_release_error (render_config world files check.ir target native) >>= λ rendered.
      returned (check, rendered)

  -- `_policy_changes`
  unfoldable pub policy_changes_of : String → PolicyCheck → Outcome (List String)
  unfolding change_lines has
  policy_changes_of previous_policy check =
      if has previous_policy files
      then (compile_path world files previous_policy false false >>= λ previous.
          returned (change_lines (diff_policies previous check.ir)))
      else returned ("initial deployment: no previously deployed policy" ∷ [])

-- `path.read_text() if path.exists() else ""`
abbrev pub text_or_empty : Option String → String
text_or_empty none = ""
text_or_empty (some contents) = contents

-- `plan.get(name) == value`
abbrev pub is_value : Option String → String → Bool
is_value none value = false
is_value (some found) value = found == value

module _ (hash_content : Content → String) where
  -- A plan with the hash of its content and no approvals.
  abbrev pub new_plan : Content → Plan
  new_plan content = record { plan_id = hash_content content; content = content; approvals = [] }

  -- `none` is a file that cannot be read; a plan without a content is a KeyError.
  unfoldable pub load_plan : Option PlanFile → Outcome Plan
  load_plan none = raised (release_error "cannot read plan" [])
  load_plan (some file) =
      if not (is_value file.format plan_format)
      then raised (release_error "not a py2fw-plan/1 file" [])
      else elim file.content [
        | none ↦ raised crashed
        | some content ↦
            if is_value file.plan_id (hash_content content)
            then returned (record {
              plan_id = hash_content content;
              content = content;
              approvals = file.approvals;
            })
            else raised (release_error "was modified after it was created (plan_id mismatch)" [])
      ]

  module _ (world : World) (files : Files) (state : StatePaths)
      (unified_diff : String → String → String → String) (sha256 : Entry → String)
      (str_value : Option Json → String) where
    -- The content of a plan; `unified_diff target before after` is the text of the difference.
    abbrev pub plan_content :
        PolicyCheck
        → RenderedConfig
        → List String
        → FileRef
        → String
        → String
        → String
        → Option String
        → Bool
        → Bool
        → Content
    plan_content check rendered changes policy created_at author target fail_on allow_lossy native =
        let controls : Controls = check.controls in
        let reasons = blockers_of check rendered allow_lossy in
        let before =
          text_or_empty (get (state.deployed_config controls.environment target) files) in
        record {
          created_at = created_at;
          author = author;
          environment = controls.environment;
          target = target;
          policy = policy;
          baseline =
              if controls.baseline_sha256 == ""
              then none
              else some (record { path = controls.source; sha256 = controls.baseline_sha256 });
          fail_on = fail_on;
          allow_lossy = allow_lossy;
          native_syntax = native;
          required_approvals = controls.required_approvals;
          sign_approvals = controls.sign_approvals;
          gate = gate_summary check;
          verification = rendered.checks;
          lossy = rendered.lossy;
          deployable = is_empty reasons;
          blockers = reasons;
          policy_changes = changes;
          config_diff = unified_diff target before (text (rendered.text ∷ "\n" ∷ []));
          config = record { sha256 = world.sha256 rendered.text; text = rendered.text };
        }

    abbrev pub plan_details : Plan → Entry
    plan_details plan =
        ("plan_id", string plan.plan_id)
        ∷ ("environment", string plan.content.environment)
        ∷ ("target", string plan.content.target)
        ∷ ("policy_sha256", string plan.content.policy.sha256)
        ∷ ("config_sha256", string plan.content.config.sha256)
        ∷ ("deployable", json_bool plan.content.deployable)
        ∷ []

    -- The plan and the log afterwards.
    unfoldable pub create_plan :
        String
        → String
        → String
        → Option String
        → Option String
        → Option String
        → Bool
        → Bool
        → String
        → String
        → List Entry
        → Outcome (Plan × List Entry)
    unfolding check_and_render policy_changes_of append_event get
    create_plan policy target author baseline environment fail_on allow_lossy native created_at
          logged_at log =
        do
          (check, rendered) ←
              check_and_render world files policy target baseline environment fail_on native
          contents ← or_raise crashed (get policy files)
          changes ←
              policy_changes_of world files
                (state.deployed_policy check.controls.environment target) check
          let plan = new_plan (
              plan_content check rendered changes
                (record { path = policy; sha256 = world.sha256 contents }) created_at author target
                fail_on allow_lossy native)
          extended ←
              or_raise crashed
                (append_event sha256 str_value log logged_at "plan" author (plan_details plan))
          returned (plan, extended)
