-- ===== src/Cli/Commands/Locking.antt =====
-- The files behind the check of compile_command: the lock file of py2fw/compiler/hosts.py, which
-- py2fw/main.py reaches.
use py2fw.Common.{
  String, ◌≡◌, ◌⊎◌, inl, inr, Bool, true, false, Option, none, arith, String_eq, Bool-cases,
  Option-cases, get, insert,
}
use py2fw.Compiler.Hosts.{Lock, resolve_document_hosts}
use py2fw.Compiler.Validator.{validate_document}
use py2fw.Cli.World.{World, Files}
use py2fw.Cli.Pipeline.{lock_written, compiled_files}
use py2fw.Cli.Commands.{unknown_severity, checked_files}

module _ (world : World) (files : Files) where
  unlocked :
      (policy : String) (refresh_hosts : Bool)
      → lock_written world files policy false refresh_hosts ≡ none
  unfolding lock_written resolve_document_hosts
  unlocked policy refresh_hosts = elim (Option-cases (get policy files)) [
    | inl f ↦ ground (arith, f)
    | inr (contents, f) ↦ elim (Option-cases (world.parse_policy policy contents)) [
      | inl p ↦ ground (arith, f, p)
      | inr ((document, source), p) ↦
          elim (Option-cases (validate_document world.ip document source)) [
            | inl v ↦ ground (arith, f, p, v)
            | inr (issues, v) ↦ ground (arith, f, p, v)
          ]
    ]
  ]

  -- Some files are as they were, but for the lock file of the policy when hosts are resolved.
  abbrev pub OnlyLock : String → Bool → Files → Type 0
  OnlyLock policy resolve_hosts after =
      (after ≡ files)
      ⊎ ((lock : Lock) × (resolve_hosts ≡ true)
          × (after ≡ insert (world.lock_path policy) (world.lock_text lock) files))

  pub checked_files-OnlyLock :
      (policy : String) (resolve_hosts refresh_hosts : Bool) (fail_on : Option String)
      → OnlyLock policy resolve_hosts
          (checked_files world files policy resolve_hosts refresh_hosts fail_on)
  unfolding checked_files compiled_files
  checked_files-OnlyLock policy resolve_hosts refresh_hosts fail_on =
      elim (Bool-cases (unknown_severity fail_on)) [
        | inl e ↦ inl (ground (arith, e))
        | inr e ↦
            elim (Option-cases (lock_written world files policy resolve_hosts refresh_hosts)) [
              | inl l ↦ inl (ground (arith, e, l))
              | inr (lock, l) ↦ inr (
                lock,
                elim (Bool-cases resolve_hosts) [
                  | inl yes_resolve ↦ yes_resolve
                  | inr r ↦ absurd (ground (arith, unlocked policy refresh_hosts, rw r at l))
                ],
                ground (arith, e, l),
              )
            ]
      ]
