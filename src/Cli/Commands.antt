-- ===== src/Cli/Commands.antt =====
-- The commands of py2fw/main.py that decide: a command is its exit status and what it writes. What
-- they print besides a generated configuration is not modelled; an exception that no command
-- handles ends it with status 1.
pub mod Locking
pub mod Gating
use py2fw.Common.{
  ℕ, String, Bool, true, false, not, ◌&&◌, ◌||◌, ◌⊎◌, inl, inr, Option, none, some, List, [], ◌∷◌,
  any, elem, is_empty, is_none, get, insert, if◌then◌else◌, String_eq,
}
use py2fw.Compiler.Issues.{ok}
use py2fw.Compiler.Validator.{validate_document}
use py2fw.Analyzers.Gate.{passed, severity_rank}
use py2fw.Analyzers.Compliance.{frameworks, compliance_report, is_fail}
use py2fw.Engine.Evaluate.{Flow, evaluate}
use py2fw.Enforcement.Controls.{target_allowed}
use py2fw.Verify.Regression.{FlowTestResult}
use py2fw.Plugins.Registry.{registered_names}
use py2fw.Cli.World.{World, Files}
use py2fw.Cli.Outcome.{
  Outcome, returned, raised, Failure, parse_error, compile_error, baseline_error, unknown_target,
}
use py2fw.Cli.Pipeline.{
  PolicyCheck, RenderedConfig, is_verified, compile_path, compiled_files, check_path, render_config,
}
use py2fw.Release.Audit.{LogVerification, verified}

-- The exit status of an exception below `_handled`.
abbrev pub handled : Failure → ℕ
handled parse_error = 2
handled (compile_error message) = 2
handled baseline_error = 2
handled _ = 1

-- The exit status of an exception below `_render`.
abbrev pub handled_target : Failure → ℕ
handled_target (unknown_target target) = 2
handled_target _ = 1

-- A call that exits with the status of its exception.
abbrev pub exits {ℓ} : {A : Type ℓ} → (Failure → ℕ) → Outcome A → ℕ ⊎ A
exits status (raised failure) = inl (status failure)
exits status (returned a) = inr a

-- The end of a command: its status, the files and the configuration it prints.
pub record Ended : Type 0 where
  pub status : ℕ
  pub files : Files
  pub printed : Option String

abbrev pub unknown_severity : Option String → Bool
unknown_severity none = false
unknown_severity (some level) = is_none (severity_rank level)

abbrev pub status_if : Bool → ℕ → ℕ
status_if true status = status
status_if false status = 0

module _ (world : World) (files : Files) where
  -- `_check`
  unfoldable pub check_policy :
      String → Option String → Option String → Option String → Bool → Bool → ℕ ⊎ PolicyCheck
  unfolding check_path severity_rank
  check_policy policy fail_on baseline environment resolve_hosts refresh_hosts =
      if unknown_severity fail_on
      then inl 2
      else exits handled
          (check_path world files policy fail_on baseline environment resolve_hosts refresh_hosts)

  -- The loop of `check_command`, with the exit status.
  unfoldable pub check_policies :
      Bool → List String → Option String → Option String → Option String → ℕ
  unfolding check_policy
  check_policies failed [] fail_on baseline environment = status_if failed 1
  check_policies failed (policy ∷ policies) fail_on baseline environment =
      elim (check_policy policy fail_on baseline environment false false) [
        | inl status ↦ status
        | inr check ↦
            check_policies (failed || not (passed check.gate)) policies fail_on baseline environment
      ]

  unfoldable pub check_command : List String → Option String → Option String → Option String → ℕ
  unfolding check_policies
  check_command policies fail_on baseline environment =
      check_policies false policies fail_on baseline environment

  unfoldable pub test_command : String → Option String → Option String → ℕ
  unfolding check_policy
  test_command policy baseline environment =
      elim (check_policy policy none baseline environment false false) [
        | inl status ↦ status
        | inr check ↦
            status_if (any (λ (result : FlowTestResult). not result.passed) check.gate.tests) 1
      ]

  unfoldable pub validate_command : String → ℕ
  validate_command policy = elim (get policy files) [
    | none ↦ 2
    | some contents ↦ (elim (world.parse_policy policy contents) [
      | none ↦ 2
      | some (document, source) ↦ (elim (validate_document world.ip document source) [
        | none ↦ 1
        | some issues ↦ status_if (not (ok issues)) 1
      ])
    ])
  ]

  unfoldable pub verify_command : String → String → Bool → ℕ
  unfolding compile_path render_config
  verify_command policy target native = elim (compile_path world files policy false false) [
    | raised failure ↦ handled failure
    | returned ir ↦ (elim (render_config world files ir target native) [
      | raised failure ↦ handled_target failure
      | returned rendered ↦ status_if (not (is_verified rendered)) 5
    ])
  ]

  abbrev pub refused : ℕ → Ended
  refused status = record { status = status; files = files; printed = none }

  -- The end of `compile_command`.
  abbrev pub emit : Option String → String → Ended
  emit none contents = record { status = 0; files = files; printed = some contents }
  emit (some path) contents = record {
    status = 0;
    files = insert path contents files;
    printed = none;
  }

  -- `compile_command` behind the gate.
  unfoldable pub emit_rendered : Option String → Bool → ℕ ⊎ RenderedConfig → Ended
  unfolding insert
  emit_rendered output allow_lossy (inl status) = refused status
  emit_rendered output allow_lossy (inr rendered) =
      if not (is_empty rendered.lossy) && not allow_lossy
      then refused 3
      else if not (is_verified rendered)
      then refused 5
      else emit output rendered.text

  unfoldable pub compile_checked : String → Option String → Bool → Bool → ℕ ⊎ PolicyCheck → Ended
  unfolding emit_rendered render_config
  compile_checked target output allow_lossy native (inl status) = refused status
  compile_checked target output allow_lossy native (inr check) =
      if not (passed check.gate)
      then refused 4
      else if not (target_allowed check.controls target)
      then refused 4
      else emit_rendered output allow_lossy
          (exits handled_target (render_config world files check.ir target native))

module _ (world : World) (files : Files) where
  -- The files behind the check of compile_command: with the lock file, if it is written.
  unfoldable pub checked_files : String → Bool → Bool → Option String → Files
  unfolding compiled_files severity_rank
  checked_files policy resolve_hosts refresh_hosts fail_on =
      if unknown_severity fail_on
      then files
      else compiled_files world files policy resolve_hosts refresh_hosts

  unfoldable pub compile_command :
      String
      → String
      → Option String
      → Bool
      → Bool
      → Bool
      → Option String
      → Option String
      → Option String
      → Bool
      → Ended
  unfolding compile_checked check_policy checked_files registered_names
  compile_command policy target output allow_lossy resolve_hosts refresh_hosts fail_on baseline
        environment native =
      if not (elem target (registered_names world.registry))
      then refused world files 2
      else compile_checked world (checked_files policy resolve_hosts refresh_hosts fail_on) target
          output allow_lossy native
          (check_policy world files policy fail_on baseline environment resolve_hosts refresh_hosts)

  -- The frameworks that are asked for; an empty list asks for all.
  unfoldable pub compliance_command : String → List String → ℕ
  unfolding compile_path compliance_report
  compliance_command policy asked =
      let wanted : List String = if is_empty asked then frameworks else asked in
      if any (λ f. not (elem f frameworks)) wanted
      then 2
      else elim (compile_path world files policy false false) [
        | raised failure ↦ handled failure
        | returned ir ↦ status_if (any is_fail (compliance_report world.ip ir wanted)) 1
      ]

  -- A flow that the engine cannot read is a ValueError.
  unfoldable pub simulate_command : String → Flow → ℕ
  unfolding compile_path evaluate
  simulate_command policy flow = elim (compile_path world files policy false false) [
    | raised failure ↦ handled failure
    | returned ir ↦ (elim (evaluate world.ip ir flow) [
      | none ↦ 1
      | some decision ↦ status_if (not decision.allowed) 1
    ])
  ]

-- `audit verify`
abbrev pub audit_verify_command : LogVerification → ℕ
audit_verify_command result = status_if (not (verified result)) 1
