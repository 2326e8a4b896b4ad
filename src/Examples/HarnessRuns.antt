-- ===== src/Examples/HarnessRuns.antt =====
-- A run of drishti/m3_dynamic/harness.py and one of drishti/m3_dynamic/trace_source.py, on tools that
-- answer by the count of the calls made so far.
use c_s_cool_stuff.Prelude.{
  ℕ, pos, suc, ◌≡◌, refl, ◌⊎◌, true, some, [], ◌∷◌, Codes, codes, same, ◌==◌, without_prefix,
  is_part, lower, strip, if◌then◌else◌,
}
unfoldable use c_s_cool_stuff.Prelude.{same, is_part, without_prefix, lower, strip}
unfoldable use c_s_cool_stuff.Containment.Admission.{verify_manifest, valid_window}
use c_s_cool_stuff.Artifact.{RunOutcome, Restoration, ObservationArtifact, safe_for_ingestion}
unfoldable use c_s_cool_stuff.Artifact.{safe_for_ingestion}
use c_s_cool_stuff.Harness.Guest.{
  returned, other_error, HarnessConfig, CompletedProcess, Command, Lab, State, ran, collected,
}
unfoldable use c_s_cool_stuff.Harness.Guest.{
  argv, ◌>>=◌, ◌>>◌, pure, raise, raise_if, modify, handle, finally, run_command, collect, outside,
}
unfoldable use c_s_cool_stuff.Harness.Steps.{
  quoted, search_package, mentions_ko, after_load, restore_snapshot, package_name, install,
  package_absent, verified_manifest, load_verified_manifest,
}
use c_s_cool_stuff.Harness.Run.{run, start}
unfoldable use c_s_cool_stuff.Harness.Run.{
  validate_all, lift, add_hook_errors, prepare, observe, detonate, uninstall_given, absent_given,
  get_package, checked, restore_after, clean_up, start, artifact_of, get_state, admit, sealed_run,
  recorded, admitted_run, run,
}
use c_s_cool_stuff.Harness.Admitted.{IsAdmitted}
use c_s_cool_stuff.Harness.Sealed.{IsSealed, run-IsSealed}
use c_s_cool_stuff.Harness.Reloaded.{Cleaned, Refused, run-Cleaned}
use c_s_cool_stuff.Examples.ContainmentRuns.{signer, manifest}

abbrev answered : Codes → CompletedProcess
answered text = record { returncode = pos 0; stdout = text; stderr = [] }

-- The package manager's answer for a package that is gone
abbrev gone : CompletedProcess
gone = record { returncode = pos 1; stdout = []; stderr = [] }

abbrev answer : ℕ → CompletedProcess
answer n =
    if n == 2
    then answered (codes "package: name='a'")
    else if n == 3
    then answered (codes "Success")
    else if n == 7
    then gone
    else answered []

abbrev lab : Lab
lab = record {
  World = ℕ;
  Raw = Unit {0};
  ObservationEvent = Unit {0};
  command = λ args n. (returned (answer n), suc n);
  collector = λ name n. (returned (tt ∷ [], []), n);
  admission = λ n. (returned (codes "image"), n);
  manifest_files = λ n. some (codes "{}", codes "ab");
  parse_manifest = λ text. returned manifest;
  signer = signer;
  now = λ n. (1200, n);
  exception_of = λ why. other_error (codes "RuntimeAdmissionError") [];
  sha256 = λ text. codes "digest";
  model_validate = λ raw. returned raw;
  substitute = λ rule text. text;
  is_word = λ c. true;
  validation_error = other_error (codes "ValidationError") [];
  sha256_file = λ n. (returned (codes "sample"), n);
  write_artifact = λ a n. (returned tt, n);
}

abbrev config : HarnessConfig
config = record { apk = codes "a.apk"; snapshot = codes "clean"; serial = codes "emulator-5554" }

abbrev final : State lab
final = record {
  apk_package = some (codes "a");
  observations = tt ∷ [];
  failures = [];
  before = Restoration.passed;
  after = Restoration.passed;
  absent = true;
  outcome = RunOutcome.completed;
  world = 8;
  log =
      ran Command.snapshot_load (returned (answered []))
      ∷ ran Command.wait_for_device (returned (answered []))
      ∷ ran Command.dump_badging (returned (answered (codes "package: name='a'")))
      ∷ ran Command.install_apk (returned (answered (codes "Success")))
      ∷ collected (codes "a") (returned (tt ∷ [], []))
      ∷ ran (Command.uninstall (codes "a")) (returned (answered []))
      ∷ ran Command.snapshot_load (returned (answered []))
      ∷ ran Command.wait_for_device (returned (answered []))
      ∷ ran (Command.package_path (codes "a")) (returned gone)
      ∷ [];
}

abbrev pub artifact : ObservationArtifact (Unit {0})
artifact = record {
  sha256 = codes "sample";
  apk_package = some (codes "a");
  outcome = RunOutcome.completed;
  observations = tt ∷ [];
  failures = [];
  snapshot = some (record {
    name = codes "clean";
    before_restore = Restoration.passed;
    after_restore = Restoration.passed;
    package_absent_after = true;
  });
  metadata = record {
    emulator_image = codes "image";
    emulator_serial = codes "emulator-5554";
    containment_manifest_sha256 = some (codes "digest");
    containment_verified = true;
  };
}

run-final : run lab config (start lab 0) ≡ (returned artifact, final)
unfolding run admitted_run recorded sealed_run admit get_state artifact_of start clean_up
    restore_after checked get_package absent_given uninstall_given detonate observe prepare
    add_hook_errors lift validate_all load_verified_manifest verified_manifest package_absent
    install package_name restore_snapshot after_load mentions_ko search_package quoted outside
    collect run_command finally handle modify raise_if raise pure ◌>>◌ ◌>>=◌ argv lower strip
    c_s_cool_stuff.GenerativeC2.Texts.strip verify_manifest valid_window is_part same without_prefix
run-final = refl

artifact-safe : safe_for_ingestion artifact ≡ true
unfolding safe_for_ingestion
artifact-safe = refl

run-IsSealed_example :
    (image : Codes) × (sha : Codes) × IsAdmitted lab 0 image sha
    × (codes "image" ≡ image)
    × (some (codes "digest") ≡ some sha)
    × IsSealed lab artifact final.log
run-IsSealed_example = run-IsSealed lab config 0 artifact final run-final artifact-safe

run-Cleaned_example : let r = run lab config (start lab 0) in Refused lab r ⊎ Cleaned lab r
run-Cleaned_example = run-Cleaned lab config 0
