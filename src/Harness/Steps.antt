-- ===== src/Harness/Steps.antt =====
-- The steps of `DynamicHarness` in drishti/m3_dynamic/harness.py, and `load_verified_manifest` of
-- drishti/m3_dynamic/admission.py.
use c_s_cool_stuff.Prelude.{
  ℕ, ℤ, pos, negsuc, Bool, true, false, not, ◌&&◌, ◌||◌, Option, none, some, List, [], ◌∷◌, ◌++◌,
  any, map, take, Codes, codes, without_prefix, ◌==◌, if◌then◌else◌, is_part,
}
use c_s_cool_stuff.Containment.Admission.{ContainmentManifest, err, ok, verify_manifest}
use c_s_cool_stuff.GenerativeC2.Texts.{strip}
use c_s_cool_stuff.Artifact.{
  FailureCode, snapshot_restore_failed, emulator_unhealthy, internal_error, install_unsupported,
  install_failed, is_given,
}
use c_s_cool_stuff.Harness.Guest.{
  Attempt, returned, raised, Exception, harness_error, other_error, CompletedProcess, HarnessConfig,
  snapshot_load, wait_for_device, dump_badging, install_apk, package_path, Lab, State, Action,
  ◌>>=◌, ◌>>◌, pure, raise, raise_if, outside, run_command, redact_text,
}

abbrev pub is_zero : ℤ → Bool
is_zero (pos n) = n == 0
is_zero (negsuc n) = false

-- `f"{result.stdout}\n{result.stderr}"`
abbrev pub output_of : CompletedProcess → Codes
output_of r = r.stdout ++ 10 ∷ r.stderr

-- `[^']+'` up to the quote
unfoldable pub quoted : Codes → Option Codes
quoted [] = none
quoted (c ∷ s) =
    let rest = quoted s in
    if c == 39
    then some []
    else elim rest as (λ _. Option Codes) [ none ↦ none | some name ↦ some (c ∷ name) ]

abbrev pub unless_empty : Option Codes → Option Codes
unless_empty none = none
unless_empty (some []) = none
unless_empty (some (c ∷ s)) = some (c ∷ s)

abbrev pub package_here : Codes → Option Codes
package_here s = elim (without_prefix (codes "package: name='") s) [
  | none ↦ none
  | some rest ↦ unless_empty (quoted rest)
]

-- `re.search(r"package: name='([^']+)'", stdout)`
unfoldable pub search_package : Codes → Option Codes
unfolding quoted without_prefix
search_package [] = none
search_package (c ∷ s) =
    let later = search_package s in
    elim (package_here (c ∷ s)) [ none ↦ later | some name ↦ some name ]

-- `_UNSUPPORTED`
abbrev pub unsupported : List Codes
unsupported = map codes (
    "INSTALL_FAILED_NO_MATCHING_ABIS" ∷ "INSTALL_FAILED_OLDER_SDK"
    ∷ "INSTALL_FAILED_DEPRECATED_SDK_VERSION" ∷ "INSTALL_PARSE_FAILED_NO_CERTIFICATES"
    ∷ "INSTALL_PARSE_FAILED_MANIFEST_MALFORMED" ∷ [])

-- The package manager knows no path of the package.
abbrev pub is_absent : CompletedProcess → Bool
is_absent r = not (is_zero r.returncode) || not (is_given (some (strip r.stdout)))

abbrev pub is_installed : CompletedProcess → Bool
is_installed r = is_zero r.returncode && is_part (codes "Success") r.stdout

abbrev install_code : Codes → FailureCode
install_code output =
    if any (λ item. is_part item output) unsupported then install_unsupported else install_failed

module _ (lab : Lab) where
  open lab use {is_word}

  abbrev ends_word : Option Codes → Bool
  ends_word none = false
  ends_word (some []) = true
  ends_word (some (c ∷ s)) = not (is_word c)

  -- `re.search(r"\bKO\b", s)`, where `inside` says that a word goes on
  unfoldable pub mentions_ko : Bool → Codes → Bool
  unfolding without_prefix
  mentions_ko inside [] = false
  mentions_ko inside (c ∷ s) =
      (not inside && ends_word (without_prefix (codes "KO") (c ∷ s))) || mentions_ko (is_word c) s

  -- The snapshot was loaded.
  abbrev pub is_loaded : CompletedProcess → Bool
  is_loaded r = is_zero r.returncode && not (mentions_ko false (output_of r))

  -- `restore_snapshot`, once the command has ended
  unfoldable pub after_load : HarnessConfig → CompletedProcess → Action (State lab) (Unit {0})
  after_load config result = do
    raise_if (not (is_loaded result)) (
        harness_error snapshot_restore_failed (codes "snapshot")
          (redact_text lab (output_of result)))
    ready ← run_command lab config wait_for_device
    raise_if (not (is_zero ready.returncode))
        (harness_error emulator_unhealthy (codes "snapshot") (codes "adb did not recover"))

  -- `restore_snapshot`
  unfoldable pub restore_snapshot : HarnessConfig → Action (State lab) (Unit {0})
  restore_snapshot config = do
    result ← run_command lab config snapshot_load
    after_load config result

  abbrev pub unidentified : Exception
  unidentified =
      harness_error internal_error (codes "identify") (codes "aapt could not identify package")

  -- `package_name`
  unfoldable pub package_name : HarnessConfig → Action (State lab) Codes
  package_name config = do
    result ← run_command lab config dump_badging
    raise_if (not (is_zero result.returncode)) unidentified
    elim (search_package result.stdout) [ none ↦ raise unidentified | some name ↦ pure name ]

  -- `install`
  unfoldable pub install : HarnessConfig → Action (State lab) (Unit {0})
  install config = do
    result ← run_command lab config install_apk
    let output : Codes = take 400 (output_of result)
    raise_if (not (is_installed result))
        (harness_error (install_code output) (codes "install") (redact_text lab output))

  -- `package_absent`
  unfoldable pub package_absent : HarnessConfig → Codes → Action (State lab) Bool
  package_absent config name = do
    result ← run_command lab config (package_path name)
    pure (is_absent result)

  abbrev missing : Exception
  missing =
      other_error (codes "RuntimeAdmissionError") (codes "signed containment admission is missing")

  -- `load_verified_manifest`, at the time `current`
  unfoldable pub verified_manifest :
      Option (Codes × Codes) → ℕ → Attempt (ContainmentManifest × Codes)
  verified_manifest none current = raised missing
  verified_manifest (some (payload, key)) current = elim (lab.parse_manifest payload) [
    | raised exc ↦ raised exc
    | returned manifest ↦ elim (verify_manifest lab.signer manifest key current) [
      | err why ↦ raised (lab.exception_of why)
      | ok valid ↦ returned (manifest, lab.sha256 payload)
    ]
  ]

  unfoldable pub load_verified_manifest : Action (State lab) (ContainmentManifest × Codes)
  unfolding verified_manifest
  load_verified_manifest =
      outside lab (λ w.
        let (current, w') = lab.now w in (verified_manifest (lab.manifest_files w) current, w'))
