-- ===== src/Harness/Outcomes.antt =====
-- A detonation that raises leaves the outcome one that is not safe, and so does the clean up.
use c_s_cool_stuff.Prelude.{◌≡◌, refl, false, Option, none, some, List, [], ◌∷◌, Codes}
use c_s_cool_stuff.Artifact.{FailureCode, has_ended}
use c_s_cool_stuff.Harness.Guest.{
  Exception, timeout_expired, harness_error, other_error, HarnessConfig, Command, Lab, State,
  Action, run_command, collect, raise, pure,
}
use c_s_cool_stuff.Harness.Steps.{
  restore_snapshot, after_load, package_name, search_package, install, package_absent, unidentified,
}
use c_s_cool_stuff.Harness.Run.{
  add_failure, add_hook_errors, prepare, observe, detonate, record_failure, uninstall_given,
  get_package, absent_given, checked, restore_after, restore_failed, clean_up, lift,
}
use c_s_cool_stuff.Harness.Keeps.{
  Keeps, KeepsIfRaised, >>-Keeps, >>=-Keeps, handle-Keeps, raise_if-Keeps, modify-Keeps, pure-Keeps,
  raise-Keeps, >>=-KeepsIfRaised, >>-KeepsIfRaised, modify-KeepsIfRaised, keeping,
}

module _ (lab : Lab) where
  abbrev pub Unsafe : State lab → Type 0
  Unsafe s = has_ended s.outcome ≡ false

  run_command-Unsafe :
      (config : HarnessConfig) (c : Command) → Keeps Unsafe (run_command lab config c)
  unfolding run_command
  run_command-Unsafe config c = record { at = λ s p. p }

  add_failure-Unsafe :
      (code : FailureCode) (stage message : Codes)
      → Keeps Unsafe (add_failure lab code stage message)
  unfolding add_failure
  add_failure-Unsafe code stage message = search keeping

  add_hook_errors-Unsafe : (errors : List Codes) → Keeps Unsafe (add_hook_errors lab errors)
  unfolding add_hook_errors
  add_hook_errors-Unsafe [] = pure-Keeps tt
  add_hook_errors-Unsafe (error ∷ errors) =
      >>-Keeps _ _ (add_failure-Unsafe _ _ _) (add_hook_errors-Unsafe errors)

  restore_snapshot-Unsafe : (config : HarnessConfig) → Keeps Unsafe (restore_snapshot lab config)
  unfolding restore_snapshot after_load
  restore_snapshot-Unsafe config = >>=-Keeps _ _ (run_command-Unsafe config _) λ result.
      >>-Keeps _ _ (raise_if-Keeps _ _)
        (>>=-Keeps _ _ (run_command-Unsafe config _) (λ ready. raise_if-Keeps _ _))

  found-Unsafe :
      (found : Option Codes)
      → Keeps Unsafe (elim found as (λ _. Action (State lab) Codes) [
        | none ↦ raise (unidentified lab)
        | some n ↦ pure n
      ])
  found-Unsafe none = raise-Keeps _
  found-Unsafe (some n) = pure-Keeps n

  package_name-Unsafe : (config : HarnessConfig) → Keeps Unsafe (package_name lab config)
  unfolding package_name
  package_name-Unsafe config =
      >>=-Keeps _ _ (run_command-Unsafe config _)
        λ result. >>-Keeps _ _ (raise_if-Keeps _ _) (found-Unsafe (search_package result.stdout))

  install-Unsafe : (config : HarnessConfig) → Keeps Unsafe (install lab config)
  unfolding install
  install-Unsafe config = >>=-Keeps _ _ (run_command-Unsafe config _) (λ result. raise_if-Keeps _ _)

  prepare-Unsafe : (config : HarnessConfig) → Keeps Unsafe (prepare lab config)
  unfolding prepare
  prepare-Unsafe config = >>-Keeps _ _ (restore_snapshot-Unsafe config) (
      >>-Keeps _ _ (modify-Keeps _ (λ s p. p)) (
        >>=-Keeps _ _ (package_name-Unsafe config) λ name.
          >>-Keeps _ _ (modify-Keeps _ (λ s p. p))
            (>>-Keeps _ _ (install-Unsafe config) (pure-Keeps name))))

  -- Where it raises: its last assignment is the only one of the outcome.
  pub detonate-Unsafe : (config : HarnessConfig) → KeepsIfRaised Unsafe (detonate lab config)
  unfolding detonate observe collect lift
  detonate-Unsafe config = >>=-KeepsIfRaised _ _ (prepare-Unsafe config) λ name.
      >>=-KeepsIfRaised _ _ (record { at = λ s p. p })
        λ found.
          >>=-KeepsIfRaised _ _ (record { at = λ s p. p })
            λ observations.
              >>-KeepsIfRaised _ _ (modify-Keeps _ (λ s p. p))
                (>>-KeepsIfRaised _ _ (add_hook_errors-Unsafe found.1) (modify-KeepsIfRaised _))

  pub record_failure-Unsafe : (exc : Exception) → Keeps Unsafe (record_failure lab exc)
  unfolding record_failure
  record_failure-Unsafe (timeout_expired text) =
      >>-Keeps _ _ (modify-Keeps _ (λ s p. refl)) (add_failure-Unsafe _ _ _)
  record_failure-Unsafe (harness_error code stage text) = add_failure-Unsafe _ _ _
  record_failure-Unsafe (other_error name text) = add_failure-Unsafe _ _ _

  uninstall_given-Unsafe :
      (config : HarnessConfig) (name : Option Codes)
      → Keeps Unsafe (uninstall_given lab config name)
  unfolding uninstall_given
  uninstall_given-Unsafe config none = pure-Keeps tt
  uninstall_given-Unsafe config (some []) = pure-Keeps tt
  uninstall_given-Unsafe config (some (c ∷ name)) =
      >>-Keeps _ _ (run_command-Unsafe config _) (pure-Keeps tt)

  absent_given-Unsafe :
      (config : HarnessConfig) (name : Option Codes) → Keeps Unsafe (absent_given lab config name)
  unfolding absent_given package_absent
  absent_given-Unsafe config none = pure-Keeps false
  absent_given-Unsafe config (some []) = pure-Keeps false
  absent_given-Unsafe config (some (c ∷ name)) =
      >>=-Keeps _ _ (run_command-Unsafe config _) (λ result. pure-Keeps _)

  restore_after-Unsafe : (config : HarnessConfig) → Keeps Unsafe (restore_after lab config)
  unfolding restore_after checked get_package
  restore_after-Unsafe config = >>-Keeps _ _ (restore_snapshot-Unsafe config) (
      >>-Keeps _ _ (modify-Keeps _ (λ s p. p)) (
        >>=-Keeps _ _ (record { at = λ s p. p })
          λ name.
            >>=-Keeps _ _ (absent_given-Unsafe config name) (λ absent. modify-Keeps _ (λ s p. p))))

  restore_failed-Unsafe : (exc : Exception) → Keeps Unsafe (restore_failed lab exc)
  unfolding restore_failed
  restore_failed-Unsafe exc = >>-Keeps _ _ (modify-Keeps _ (λ s p. refl)) (add_failure-Unsafe _ _ _)

  pub clean_up-Unsafe : (config : HarnessConfig) → Keeps Unsafe (clean_up lab config)
  unfolding clean_up get_package
  clean_up-Unsafe config =
      >>=-Keeps _ _ (record { at = λ s p. p })
        λ name.
          >>-Keeps _ _ (uninstall_given-Unsafe config name)
            (handle-Keeps _ _ (restore_after-Unsafe config) restore_failed-Unsafe)
