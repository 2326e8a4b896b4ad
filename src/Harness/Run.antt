-- ===== src/Harness/Run.antt =====
-- `DynamicHarness.run` of drishti/m3_dynamic/harness.py: the detonation, the handlers of what it raises,
-- the clean up that always follows, and the artifact. The times are left out, and exceptions that are
-- no `Exception`, such as an interrupt.
use c_s_cool_stuff.Prelude.{
  ℕ, Bool, true, false, not, ◌&&◌, Option, none, some, List, [], ◌∷◌, ◌++◌, leb, length, Codes,
  codes, same,
}
use c_s_cool_stuff.Artifact.{RunOutcome, Restoration, FailureCode, ObservationArtifact, is_given}
use c_s_cool_stuff.Harness.Guest.{
  Attempt, returned, raised, Exception, timeout_expired, harness_error, other_error, HarnessConfig,
  uninstall, Lab, Action, State, ◌>>=◌, ◌>>◌, pure, raise_if, modify, handle, finally, outside,
  run_command, collect, redact_text, text_of,
}
use c_s_cool_stuff.Harness.Steps.{
  restore_snapshot, package_name, install, package_absent, load_verified_manifest,
}

-- The limits that `FailureRecord` sets to its stage and its message
abbrev fits : ℕ → Codes → Bool
fits limit text = is_given (some text) && leb (length text) limit

abbrev pub observed_outcome {ℓ} : {E : Type ℓ} → List E → RunOutcome
observed_outcome [] = RunOutcome.inconclusive
observed_outcome (e ∷ es) = RunOutcome.completed

module _ (lab : Lab) where
  open lab use {World, Raw, ObservationEvent}

  -- `[ObservationEvent.model_validate(event) for event in raw]`
  unfoldable pub validate_all : List Raw → Attempt (List ObservationEvent)
  validate_all [] = returned []
  validate_all (r ∷ rs) =
      let rest = validate_all rs in
      elim (lab.model_validate r) [
        | raised exc ↦ raised exc
        | returned e ↦ elim rest [ raised exc ↦ raised exc | returned es ↦ returned (e ∷ es) ]
      ]

  unfoldable pub lift {ℓ} : {A : Type ℓ} → Attempt A → Action (State lab) A
  lift a s = (a, s)

  -- `failures.append(FailureRecord(code=code, stage=stage, message=message))`
  unfoldable pub add_failure : FailureCode → Codes → Codes → Action (State lab) (Unit {0})
  add_failure code stage message = do
    raise_if (not (fits 80 stage && fits 512 message)) lab.validation_error
    modify (λ s. record s {
      failures = s.failures ++ record { code = code; stage = stage; message = message } ∷ [];
    })

  unfoldable pub add_hook_errors : List Codes → Action (State lab) (Unit {0})
  add_hook_errors [] = pure tt
  add_hook_errors (error ∷ errors) = do
    add_failure FailureCode.hook_error (codes "instrumentation") (redact_text lab error)
    add_hook_errors errors

  -- The `try` of `run`, up to the install
  unfoldable pub prepare : HarnessConfig → Action (State lab) Codes
  prepare config = do
    restore_snapshot lab config
    modify (λ s. record s { before = Restoration.passed })
    name ← package_name lab config
    modify (λ s. record s { apk_package = some name })
    install lab config
    pure name

  -- The `try` of `run`, from the collection on
  unfoldable pub observe : Codes → Action (State lab) (Unit {0})
  observe name = do
    found ← collect lab name
    observations ← lift (validate_all found.0)
    modify (λ s. record s { observations = observations })
    add_hook_errors found.1
    modify (λ s. record s { outcome = observed_outcome observations })

  unfoldable pub detonate : HarnessConfig → Action (State lab) (Unit {0})
  unfolding prepare observe
  detonate config = do name ← prepare config; observe name

  -- Its handlers
  unfoldable pub record_failure : Exception → Action (State lab) (Unit {0})
  record_failure (timeout_expired text) = do
    modify (λ s. record s { outcome = RunOutcome.timeout })
    add_failure FailureCode.timeout (codes "subprocess") (redact_text lab text)
  record_failure (harness_error code stage text) = add_failure code stage (redact_text lab text)
  record_failure (other_error name text) =
      add_failure FailureCode.internal_error (codes "harness")
        (redact_text lab (name ++ codes ": " ++ text))

  -- `if package: self.adb("uninstall", package)`
  unfoldable pub uninstall_given : HarnessConfig → Option Codes → Action (State lab) (Unit {0})
  uninstall_given config none = pure tt
  uninstall_given config (some []) = pure tt
  uninstall_given config (some (c ∷ name)) = do
    run_command lab config (uninstall (c ∷ name))
    pure tt

  unfoldable pub absent_given : HarnessConfig → Option Codes → Action (State lab) Bool
  absent_given config none = pure false
  absent_given config (some []) = pure false
  absent_given config (some (c ∷ name)) = package_absent lab config (c ∷ name)

  unfoldable pub get_package : Action (State lab) (Option Codes)
  get_package s = (returned s.apk_package, s)

  unfoldable pub checked : HarnessConfig → Action (State lab) (Unit {0})
  checked config = do
    modify (λ s. record s { after = Restoration.passed })
    name ← get_package
    absent ← absent_given config name
    modify (λ s. record s { absent = absent })

  unfoldable pub restore_after : HarnessConfig → Action (State lab) (Unit {0})
  unfolding checked
  restore_after config = do restore_snapshot lab config; checked config

  unfoldable pub restore_failed : Exception → Action (State lab) (Unit {0})
  restore_failed exc = do
    modify (λ s. record s { after = Restoration.failed; outcome = RunOutcome.failed })
    add_failure FailureCode.snapshot_restore_failed (codes "snapshot_after")
        (redact_text lab (text_of lab exc))

  -- The `finally` of `run`
  unfoldable pub clean_up : HarnessConfig → Action (State lab) (Unit {0})
  clean_up config = do
    name ← get_package
    uninstall_given config name
    handle (restore_after config) restore_failed

  unfoldable pub start : World → State lab
  start world = record {
    apk_package = none;
    observations = [];
    failures = [];
    before = Restoration.not_run;
    after = Restoration.not_run;
    absent = false;
    outcome = RunOutcome.failed;
    world = world;
    log = [];
  }

  unfoldable pub artifact_of :
      HarnessConfig → Codes → Codes → Codes → State lab → ObservationArtifact ObservationEvent
  artifact_of config image manifest_sha digest s = record {
    sha256 = digest;
    apk_package = s.apk_package;
    outcome = s.outcome;
    observations = s.observations;
    failures = s.failures;
    snapshot = some (record {
      name = config.snapshot;
      before_restore = s.before;
      after_restore = s.after;
      package_absent_after = s.absent;
    });
    metadata = record {
      emulator_image = image;
      emulator_serial = config.serial;
      containment_manifest_sha256 = some manifest_sha;
      containment_verified = true;
    };
  }

  unfoldable pub get_state : Action (State lab) (State lab)
  get_state s = (returned s, s)

  -- `run`, up to the detonation: the image and the digest of the manifest that admit it
  unfoldable pub admit : Action (State lab) (Codes × Codes)
  admit = do
    image ← outside lab lab.admission
    (manifest, manifest_sha) ← load_verified_manifest lab
    raise_if (not (same manifest.runtime_image image)) (
        harness_error FailureCode.containment_failed (codes "admission")
          (codes "manifest targets another image"))
    pure (image, manifest_sha)

  -- The detonation with its handlers and its clean up
  unfoldable pub sealed_run : HarnessConfig → Action (State lab) (Unit {0})
  sealed_run config = finally (handle (detonate config) record_failure) (clean_up config)

  -- `run`, after the clean up
  unfoldable pub recorded :
      HarnessConfig → Codes → Codes → Action (State lab) (ObservationArtifact ObservationEvent)
  unfolding artifact_of
  recorded config image manifest_sha = do
    digest ← outside lab lab.sha256_file
    s ← get_state
    outside lab (lab.write_artifact (artifact_of config image manifest_sha digest s))
    pure (artifact_of config image manifest_sha digest s)

  unfoldable pub admitted_run :
      HarnessConfig → Codes → Codes → Action (State lab) (ObservationArtifact ObservationEvent)
  unfolding sealed_run recorded
  admitted_run config image manifest_sha = do sealed_run config; recorded config image manifest_sha

  -- `run`
  unfoldable pub run : HarnessConfig → Action (State lab) (ObservationArtifact ObservationEvent)
  unfolding admit admitted_run
  run config = do admitted ← admit; admitted_run config admitted.0 admitted.1
