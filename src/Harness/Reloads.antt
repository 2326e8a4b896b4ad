-- ===== src/Harness/Reloads.antt =====
-- Which steps of `DynamicHarness` of drishti/m3_dynamic/harness.py load the snapshot, and keep it loaded.
use c_s_cool_stuff.Prelude.{
  ◌≡◌, refl, ◌∙◌, Bool, true, false, Option, none, some, List, [], ◌∷◌, ◌++◌, Codes,
}
use c_s_cool_stuff.Artifact.{FailureCode}
use c_s_cool_stuff.Harness.Guest.{
  Attempt, Exception, CompletedProcess, HarnessConfig, Command, snapshot_load, wait_for_device,
  install_apk, package_path, Lab, Entry, ran, State, ◌>>=◌, ◌>>◌, handle, run_command,
}
use c_s_cool_stuff.Harness.Steps.{restore_snapshot, after_load, package_absent}
use c_s_cool_stuff.Harness.Run.{
  add_failure, absent_given, get_package, checked, restore_after, restore_failed,
}
use c_s_cool_stuff.Harness.Keeps.{
  Keeps, resumed-Keeps, handled-Keeps, >>-Keeps, >>=-Keeps, raise_if-Keeps, modify-Keeps,
  pure-Keeps, keeping,
}

module _ (lab : Lab) where
  -- A load of the snapshot was started after the last install.
  abbrev pub reloads : Bool → Entry lab → Bool
  reloads b (ran snapshot_load result) = true
  reloads b (ran install_apk result) = false
  reloads b _ = b

  abbrev pub reloaded_from : Bool → List (Entry lab) → Bool
  reloaded_from b [] = b
  reloaded_from b (e ∷ es) = reloaded_from (reloads b e) es

  abbrev pub is_reloaded : List (Entry lab) → Bool
  is_reloaded = reloaded_from false

  reloaded_from-snoc :
      (b : Bool) (es : List (Entry lab)) (e : Entry lab)
      → reloaded_from b (es ++ e ∷ []) ≡ reloads (reloaded_from b es) e
  reloaded_from-snoc b [] e = refl
  reloaded_from-snoc b (x ∷ es) e = reloaded_from-snoc (reloads b x) es e

  abbrev pub Reloaded : State lab → Type 0
  Reloaded s = is_reloaded s.log ≡ true

  -- Every command but the install keeps it.
  run_command-Keeps :
      (config : HarnessConfig) (c : Command)
      → ((b : Bool) (r : Attempt CompletedProcess) → b ≡ true → reloads b (ran c r) ≡ true)
      → Keeps Reloaded (run_command lab config c)
  unfolding run_command
  run_command-Keeps config c h = record {
    at = λ s p. reloaded_from-snoc false s.log _ ∙ h (is_reloaded s.log) _ p;
  }

  add_failure-Keeps :
      (code : FailureCode) (stage message : Codes)
      → Keeps Reloaded (add_failure lab code stage message)
  unfolding add_failure
  add_failure-Keeps code stage message = search keeping

  after_load-Keeps :
      (config : HarnessConfig) (result : CompletedProcess)
      → Keeps Reloaded (after_load lab config result)
  unfolding after_load
  after_load-Keeps config result = >>-Keeps _ _ (raise_if-Keeps _ _) (
      >>=-Keeps _ _ (run_command-Keeps config wait_for_device (λ b r p. p))
        (λ ready. raise_if-Keeps _ _))

  -- A load of the snapshot makes it so.
  restore_snapshot-Reloaded :
      (config : HarnessConfig) (s : State lab) → Reloaded (restore_snapshot lab config s).1
  unfolding restore_snapshot run_command ◌>>=◌
  restore_snapshot-Reloaded config s =
      resumed-Keeps (after_load lab config) (after_load-Keeps config)
        (run_command lab config snapshot_load s) (reloaded_from-snoc false s.log _)

  package_absent-Keeps :
      (config : HarnessConfig) (name : Codes) → Keeps Reloaded (package_absent lab config name)
  unfolding package_absent
  package_absent-Keeps config name =
      >>=-Keeps _ _ (run_command-Keeps config (package_path name) (λ b r p. p))
        (λ result. pure-Keeps _)

  absent_given-Keeps :
      (config : HarnessConfig) (name : Option Codes) → Keeps Reloaded (absent_given lab config name)
  unfolding absent_given
  absent_given-Keeps config none = pure-Keeps false
  absent_given-Keeps config (some []) = pure-Keeps false
  absent_given-Keeps config (some (c ∷ name)) = package_absent-Keeps config (c ∷ name)

  checked-Keeps : (config : HarnessConfig) → Keeps Reloaded (checked lab config)
  unfolding checked get_package
  checked-Keeps config = >>-Keeps _ _ (modify-Keeps _ (λ s p. p)) (
      >>=-Keeps _ _ (record { at = λ s p. p })
        (λ name.
          >>=-Keeps _ _ (absent_given-Keeps config name) (λ absent. modify-Keeps _ (λ s p. p))))

  restore_after-Reloaded :
      (config : HarnessConfig) (s : State lab) → Reloaded (restore_after lab config s).1
  unfolding restore_after ◌>>◌ ◌>>=◌
  restore_after-Reloaded config s =
      resumed-Keeps (λ _. checked lab config) (λ _. checked-Keeps config)
        (restore_snapshot lab config s) (restore_snapshot-Reloaded config s)

  restore_failed-Keeps : (exc : Exception) → Keeps Reloaded (restore_failed lab exc)
  unfolding restore_failed
  restore_failed-Keeps exc = >>-Keeps _ _ (modify-Keeps _ (λ s p. p)) (add_failure-Keeps _ _ _)

  pub restored-Reloaded :
      (config : HarnessConfig) (s : State lab)
      → Reloaded (handle (restore_after lab config) (restore_failed lab) s).1
  unfolding handle
  restored-Reloaded config s =
      handled-Keeps (restore_failed lab) restore_failed-Keeps (restore_after lab config s)
        (restore_after-Reloaded config s)
