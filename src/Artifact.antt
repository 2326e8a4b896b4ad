-- ===== src/Artifact.antt =====
-- drishti/contracts/dynamic_trace.py: the artifact that leaves the detonator. Times, versions and the
-- summary of technique ids are left out.
use c_s_cool_stuff.Prelude.{Bool, true, false, ◌&&◌, Option, none, some, List, [], ◌∷◌, Codes}

pub data RunOutcome : Type 0 where
  completed inconclusive failed timeout crashed : RunOutcome

pub data Restoration : Type 0 where
  passed failed not_run : Restoration

pub data FailureCode : Type 0 where
  containment_failed snapshot_restore_failed install_failed install_unsupported : FailureCode
  frida_failed hook_error sample_crashed timeout cleanup_failed emulator_unhealthy : FailureCode
  internal_error : FailureCode

pub record FailureRecord : Type 0 where
  pub code : FailureCode
  pub stage : Codes
  pub message : Codes

pub record SnapshotLifecycle : Type 0 where
  pub name : Codes
  pub before_restore : Restoration
  pub after_restore : Restoration
  pub package_absent_after : Bool

pub record HarnessMetadata : Type 0 where
  pub emulator_image : Codes
  pub emulator_serial : Codes
  pub containment_manifest_sha256 : Option Codes
  pub containment_verified : Bool

-- `ObservationArtifact`, over the type of its observations
pub record ObservationArtifact (E : Type 0) : Type 0 where
  pub sha256 : Codes
  pub apk_package : Option Codes
  pub outcome : RunOutcome
  pub observations : List E
  pub failures : List FailureRecord
  pub snapshot : Option SnapshotLifecycle
  pub metadata : HarnessMetadata

-- `artifact.outcome in {"completed", "inconclusive"}`
abbrev pub has_ended : RunOutcome → Bool
has_ended completed = true
has_ended inconclusive = true
has_ended _ = false

-- A text that may be missing, as a condition.
abbrev pub is_given : Option Codes → Bool
is_given none = false
is_given (some []) = false
is_given (some (c ∷ s)) = true

abbrev pub is_passed : Restoration → Bool
is_passed passed = true
is_passed _ = false

abbrev is_restored : Option SnapshotLifecycle → Bool
is_restored none = false
is_restored (some s) =
    is_passed s.before_restore && (is_passed s.after_restore && s.package_absent_after)

-- `safe_for_ingestion`
unfoldable pub safe_for_ingestion : {E : Type 0} → ObservationArtifact E → Bool
safe_for_ingestion a =
    has_ended a.outcome
    && (is_given a.apk_package
        && (a.metadata.containment_verified
            && (is_given a.metadata.containment_manifest_sha256 && is_restored a.snapshot)))
