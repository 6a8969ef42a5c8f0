-- ===== src/Cli/Commands/Gating.antt =====
-- What the exit status 0 says: the commands of py2fw/main.py.
use py2fw.Common.{
  ℕ, String, ◌≡◌, ◌≢◌, ◌↔◌, ◌⊎◌, refl, ap, ◌∙◌, inl, inr, Bool, true, false, not, ◌&&◌, ◌||◌,
  Option, none, some, List, [], ◌∷◌, All, arith, elem, is_empty, String_eq, Bool-cases,
}
use py2fw.Analyzers.Gate.{passed}
use py2fw.Enforcement.Controls.{target_allowed}
use py2fw.Plugins.Registry.{registered_names}
use py2fw.Cli.World.{World, Files}
use py2fw.Cli.Outcome.{
  returned, Failure, parse_error, compile_error, baseline_error, unknown_target, release_error,
  crashed, Outcome-cases,
}
use py2fw.Cli.Pipeline.{PolicyCheck, RenderedConfig, is_verified, check_path, render_config}
use py2fw.Cli.Commands.{
  handled, handled_target, Ended, unknown_severity, check_policy, check_policies, check_command,
  emit, emit_rendered, compile_checked, checked_files, compile_command,
}
use py2fw.Cli.Commands.Locking.{OnlyLock, checked_files-OnlyLock}

handled-ne-zero : (failure : Failure) → handled failure ≢ 0
handled-ne-zero parse_error = omega arith
handled-ne-zero (compile_error message) = omega arith
handled-ne-zero baseline_error = omega arith
handled-ne-zero (unknown_target target) = omega arith
handled-ne-zero (release_error message reasons) = omega arith
handled-ne-zero crashed = omega arith

handled_target-ne-zero : (failure : Failure) → handled_target failure ≢ 0
handled_target-ne-zero parse_error = omega arith
handled_target-ne-zero (compile_error message) = omega arith
handled_target-ne-zero baseline_error = omega arith
handled_target-ne-zero (unknown_target target) = omega arith
handled_target-ne-zero (release_error message reasons) = omega arith
handled_target-ne-zero crashed = omega arith

module _ (world : World) (files : Files) where
  -- A check gives a status other than 0, or comes from check_path.
  check_policy-cases :
      (policy : String) (fail_on baseline environment : Option String)
      (resolve_hosts refresh_hosts : Bool)
      → ((status : ℕ) × (check_policy world files policy fail_on baseline environment resolve_hosts
              refresh_hosts
            ≡ inl status)
          × (status ≢ 0))
        ⊎ ((check : PolicyCheck) × (check_policy world files policy fail_on baseline environment
                resolve_hosts refresh_hosts
              ≡ inr check)
            × (check_path world files policy fail_on baseline environment resolve_hosts
                  refresh_hosts
                ≡ returned check))
  unfolding check_policy
  check_policy-cases policy fail_on baseline environment resolve_hosts refresh_hosts =
      elim (Bool-cases (unknown_severity fail_on)) [
        | inl e ↦ inl (2, ground (arith, e), omega arith)
        | inr e ↦
            elim (Outcome-cases (
              check_path world files policy fail_on baseline environment resolve_hosts
                refresh_hosts)) [
                  | inl (failure, c) ↦
                      inl (handled failure, ground (arith, e, c), handled-ne-zero failure)
                  | inr (check, c) ↦ inr (check, ground (arith, e, c), c)
                ]
      ]

  -- A policy that check_command lets through.
  abbrev pub IsPassed : Option String → Option String → Option String → String → Type 0
  IsPassed fail_on baseline environment policy =
      (check : PolicyCheck) × (check_policy world files policy fail_on baseline environment false
          false
        ≡ inr check)
      × (passed check.gate ≡ true)

  check_policies-IsPassed :
      (failed : Bool) (policies : List String) (fail_on baseline environment : Option String)
      → (check_policies world files failed policies fail_on baseline environment ≡ 0)
        ↔ ((failed ≡ false) × All (IsPassed fail_on baseline environment) policies)
  unfolding check_policies
  check_policies-IsPassed failed [] fail_on baseline environment =
      (λ h. (ground (arith, h), tt), λ (f, _). ground (arith, f))
  check_policies-IsPassed failed (policy ∷ policies) fail_on baseline environment =
      elim (check_policy-cases policy fail_on baseline environment false false) [
        | inl (status, e, n) ↦
            (λ h. absurd (ground (arith, h, e, n)), λ (_, ((check, c, _), _)). ground (arith, e, c))
        | inr (check, e, _) ↦
            let later =
              check_policies-IsPassed (failed || not (passed check.gate)) policies fail_on baseline
                environment in
            (
              λ h.
                  (let (clean, rest) = later.0 (ground (arith, h, e)) in
                    (ground (arith, clean), ((check, e, ground (arith, clean)), rest))),
              λ (f, ((other, c, p), rest)).
                  (let same : passed check.gate ≡ true = ground (arith, e, c, p) in
                    let zero = later.1 (ground (arith, f, same), rest) in ground (arith, e, zero)),
            )
      ]

  -- check_command exits with status 0 exactly when each of its policies could be checked, and its
  -- gate passed; so no policy hides the failure of another.
  pub check_command-IsPassed :
      (policies : List String) (fail_on baseline environment : Option String)
      → (check_command world files policies fail_on baseline environment ≡ 0)
        ↔ All (IsPassed fail_on baseline environment) policies
  unfolding check_command
  check_command-IsPassed policies fail_on baseline environment =
      let both = check_policies-IsPassed false policies fail_on baseline environment in
      (λ h. (both.0 h).1, λ all. both.1 (refl, all))

module _ (world : World) (files : Files) where
  emit_zero :
      (output : Option String) (contents : String) → (emit world files output contents).status ≡ 0
  emit_zero none contents = refl
  emit_zero (some path) contents = refl

module _ (world : World) (files : Files) where
  -- The configuration that compile_command writes or prints.
  abbrev pub IsEmitted :
      String
      → String
      → Option String
      → Bool
      → Bool
      → Bool
      → Option String
      → Option String
      → Option String
      → Bool
      → Ended
      → Type 0
  IsEmitted policy target output allow_lossy resolve_hosts refresh_hosts fail_on baseline
        environment native ended =
      (check : PolicyCheck) × (rendered : RenderedConfig) × (after : Files) × (check_path world
          files policy fail_on baseline environment resolve_hosts refresh_hosts
        ≡ returned check)
      × (passed check.gate ≡ true)
      × (target_allowed check.controls target ≡ true)
      × (render_config world after check.ir target native ≡ returned rendered)
      × ((is_empty rendered.lossy || allow_lossy) ≡ true)
      × (is_verified rendered ≡ true)
      × OnlyLock world files policy resolve_hosts after
      × (ended ≡ emit world after output rendered.text)

  -- compile_command either exits with status 0, and then it emits the configuration that comes from
  -- a check whose gate passes, for a target that the controls allow, with nothing lost unless
  -- losses are allowed and every check of it passed; or it exits with another status, and then it
  -- has printed no configuration. Besides the configuration it writes no file but the lock file of
  -- the policy's hosts, and this only when hosts are resolved.
  pub compile_command-IsEmitted :
      (policy target : String) (output : Option String)
      (allow_lossy resolve_hosts refresh_hosts : Bool)
      (fail_on baseline environment : Option String) (native : Bool)
      → let ended =
          compile_command world files policy target output allow_lossy resolve_hosts refresh_hosts
            fail_on baseline environment native in
        ((ended.status ≡ 0)
          × IsEmitted policy target output allow_lossy resolve_hosts refresh_hosts fail_on baseline
              environment native ended)
        ⊎ ((ended.status ≢ 0)
            × OnlyLock world files policy resolve_hosts ended.files
            × (ended.printed ≡ none))
  unfolding compile_command compile_checked emit_rendered
  compile_command-IsEmitted policy target output allow_lossy resolve_hosts refresh_hosts fail_on
        baseline environment native =
      elim (Bool-cases (elem target (registered_names world.registry))) [
        | inr e ↦ inr (ground (arith, e), inl (ground (arith, e)), ground (arith, e))
        | inl e ↦
            let after : Files =
              checked_files world files policy resolve_hosts refresh_hosts fail_on in
            let locks : OnlyLock world files policy resolve_hosts after =
              checked_files-OnlyLock world files policy resolve_hosts refresh_hosts fail_on in
            let ended : Ended =
              compile_command world files policy target output allow_lossy resolve_hosts
                refresh_hosts fail_on baseline environment native in
            let locked : ended.files ≡ after
                → OnlyLock world files policy resolve_hosts ended.files =
              λ q. rw q locks in
            elim (check_policy-cases world files policy fail_on baseline environment resolve_hosts
              refresh_hosts) [
                | inl (status, c, n) ↦
                    inr
                      (ground (arith, e, c, n), locked (ground (arith, e, c)), ground (arith, e, c))
                | inr (check, c, k) ↦
                    elim (Bool-cases (passed check.gate && target_allowed check.controls target)) [
                      | inr b ↦ inr (
                        ground (arith, e, c, b),
                        locked (ground (arith, e, c, b)),
                        ground (arith, e, c, b),
                      )
                      | inl b ↦
                          elim (Outcome-cases (render_config world after check.ir target native)) [
                            | inl (failure, r) ↦
                                let n = handled_target-ne-zero failure in
                                inr (
                                  ground (arith, e, c, b, r, n),
                                  locked (ground (arith, e, c, b, r)),
                                  ground (arith, e, c, b, r),
                                )
                            | inr (rendered, r) ↦
                                elim (Bool-cases (
                                  (is_empty rendered.lossy || allow_lossy)
                                  && is_verified rendered)) [
                                    | inr l ↦ inr (
                                      ground (arith, e, c, b, r, l),
                                      locked (ground (arith, e, c, b, r, l)),
                                      ground (arith, e, c, b, r, l),
                                    )
                                    | inl l ↦
                                        let same : compile_command world files policy target output
                                              allow_lossy resolve_hosts refresh_hosts fail_on
                                              baseline environment native
                                            ≡ emit world after output rendered.text =
                                          ground (arith, e, c, b, r, l) in
                                        inl (
                                          ap (λ d. d.status) same
                                              ∙ emit_zero world after output rendered.text,
                                          (
                                            check,
                                            rendered,
                                            after,
                                            k,
                                            ground (arith, b),
                                            ground (arith, b),
                                            r,
                                            ground (arith, l),
                                            ground (arith, l),
                                            locks,
                                            same,
                                          ),
                                        )
                                  ]
                          ]
                    ]
              ]
      ]
