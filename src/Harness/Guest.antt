-- ===== src/Harness/Guest.antt =====
-- What `DynamicHarness` of drishti/m3_dynamic/harness.py works with: the commands it runs, the tools it
-- is given, the variables of `run`, and Python's exceptions over them.
use c_s_cool_stuff.Prelude.{
  ℕ, ℤ, Bool, true, false, Option, List, [], ◌∷◌, ◌++◌, Codes, codes, take, ◌≡◌, refl,
}
use c_s_cool_stuff.Containment.Admission.{ContainmentManifest, AdmissionError, Signer}
use c_s_cool_stuff.Artifact.{
  RunOutcome, Restoration, FailureCode, FailureRecord, ObservationArtifact,
}

-- `subprocess.TimeoutExpired`, `HarnessError` with its code, its stage and its message, or any other
-- exception with the name of its class and its text.
pub data Exception : Type 0 where
  timeout_expired : Codes → Exception
  harness_error : FailureCode → Codes → Codes → Exception
  other_error : Codes → Codes → Exception

pub data Attempt {ℓ} (A : Type ℓ) : Type ℓ where
  returned : A → Attempt A
  raised : Exception → Attempt A

pub record CompletedProcess : Type 0 where
  pub returncode : ℤ
  pub stdout : Codes
  pub stderr : Codes

-- The commands of the harness.
pub data Command : Type 0 where
  snapshot_load wait_for_device dump_badging install_apk : Command
  package_path uninstall : Codes → Command

pub record HarnessConfig : Type 0 where
  pub apk : Codes
  pub snapshot : Codes
  pub serial : Codes

abbrev adb_args : HarnessConfig → List Codes → List Codes
adb_args config args = codes "adb" ∷ codes "-s" ∷ config.serial ∷ args

-- The argument list that a command is run with.
unfoldable pub argv : HarnessConfig → Command → List Codes
argv config snapshot_load =
    adb_args config
      (codes "emu" ∷ codes "avd" ∷ codes "snapshot" ∷ codes "load" ∷ config.snapshot ∷ [])
argv config wait_for_device = adb_args config (codes "wait-for-device" ∷ [])
argv config dump_badging = codes "aapt" ∷ codes "dump" ∷ codes "badging" ∷ config.apk ∷ []
argv config install_apk =
    adb_args config (codes "install" ∷ codes "-r" ∷ codes "-g" ∷ config.apk ∷ [])
argv config (package_path apk_package) =
    adb_args config (codes "shell" ∷ codes "pm" ∷ codes "path" ∷ apk_package ∷ [])
argv config (uninstall apk_package) = adb_args config (codes "uninstall" ∷ apk_package ∷ [])

-- The rules of drishti/m3_dynamic/redaction.py, in their order.
pub data Rule : Type 0 where
  otp credential token jwt : Rule

-- What is given to the harness or lies outside: the injectable command and collector, admission, the
-- files, the clock, the validation of an observation by pydantic, and Python's `re` and hashes.
pub record Lab : Type 1 where
  pub World : Type 0
  pub Raw : Type 0
  pub ObservationEvent : Type 0
  pub command : List Codes → World → Attempt CompletedProcess × World
  pub collector : Codes → World → Attempt (List Raw × List Codes) × World
  pub admission : World → Attempt Codes × World
  -- The manifest and the trusted public key, if both are files
  pub manifest_files : World → Option (Codes × Codes)
  pub parse_manifest : Codes → Attempt ContainmentManifest
  pub signer : Signer
  pub now : World → ℕ × World
  pub exception_of : AdmissionError → Exception
  pub sha256 : Codes → Codes
  pub model_validate : Raw → Attempt ObservationEvent
  -- `pattern.sub(f"[REDACTED:{label}]", text)`
  pub substitute : Rule → Codes → Codes
  -- `\w`
  pub is_word : ℕ → Bool
  -- pydantic's `ValidationError` of a failure record
  pub validation_error : Exception
  pub sha256_file : World → Attempt Codes × World
  -- The contract's check of the artifact, and its file
  pub write_artifact : ObservationArtifact ObservationEvent → World → Attempt (Unit {0}) × World

-- A step: a state that changes, and what is returned or raised.
abbrev pub Action {ℓ} : Type 0 → Type ℓ → Type ℓ
Action S A = S → Attempt A × S

module _ {S : Type 0} where
  abbrev pub resumed {ℓ κ} :
      {A : Type ℓ} {B : Type κ} → (A → Action S B) → Attempt A × S → Attempt B × S
  resumed next (returned x, s) = next x s
  resumed next (raised exc, s) = (raised exc, s)

  infixl 5 ◌>>=◌ ◌>>◌
  unfoldable pub ◌>>=◌ {ℓ κ} :
      {A : Type ℓ} {B : Type κ} → Action S A → (A → Action S B) → Action S B
  ◌>>=◌ m next s = resumed next (m s)

  unfoldable pub ◌>>◌ {ℓ κ} : {A : Type ℓ} {B : Type κ} → Action S A → Action S B → Action S B
  unfolding ◌>>=◌
  m >> next = m >>= λ _. next

  unfoldable pub pure {ℓ} : {A : Type ℓ} → A → Action S A
  pure a s = (returned a, s)

  unfoldable pub raise {ℓ} : {A : Type ℓ} → Exception → Action S A
  raise exc s = (raised exc, s)

  unfoldable pub raise_if : Bool → Exception → Action S (Unit {0})
  unfolding raise pure
  raise_if true exc = raise exc
  raise_if false exc = pure tt

  unfoldable pub modify : (S → S) → Action S (Unit {0})
  modify f s = (returned tt, f s)

  abbrev pub handled :
      (Exception → Action S (Unit {0})) → Attempt (Unit {0}) × S → Attempt (Unit {0}) × S
  handled handler (returned x, s) = (returned x, s)
  handled handler (raised exc, s) = handler exc s

  -- `try: m` with one handler for every exception
  unfoldable pub handle :
      Action S (Unit {0}) → (Exception → Action S (Unit {0})) → Action S (Unit {0})
  handle m handler s = handled handler (m s)

  abbrev pub finished {ℓ} : {A : Type ℓ} → Attempt A → Attempt (Unit {0}) × S → Attempt A × S
  finished a (returned x, s) = (a, s)
  finished a (raised exc, s) = (raised exc, s)

  -- `try: m finally: last`; an exception of `last` replaces that of `m`.
  unfoldable pub finally : Action S (Unit {0}) → Action S (Unit {0}) → Action S (Unit {0})
  finally m last s = let (a, s') = m s in finished a (last s')

  -- Inversion of a sequence that returned.
  pub >>=-returned {ℓ κ} :
      {A : Type ℓ} {B : Type κ} (m : Action S A) (next : A → Action S B) (s : S) {b : B} {s'' : S}
      → (m >>= next) s ≡ (returned b, s'')
      → (a : A) × (s' : S) × (m s ≡ (returned a, s')) × (next a s' ≡ (returned b, s''))
  unfolding ◌>>=◌
  >>=-returned {A} {B} m next s {b} {s''} h = go (m s) refl h
    where
      go :
          (r : Attempt A × S)
          → m s ≡ r
          → resumed next r ≡ (returned b, s'')
          → (a : A) × (s' : S) × (m s ≡ (returned a, s')) × (next a s' ≡ (returned b, s''))
      go (returned a, s') e k = (a, s', e, k)
      go (raised exc, s') e k = cc

module _ (lab : Lab) where
  open lab use {World, Raw, ObservationEvent, command, collector, substitute}

  -- What was run, with what came of it.
  pub data Entry : Type 0 where
    ran : Command → Attempt CompletedProcess → Entry
    collected : Codes → Attempt (List Raw × List Codes) → Entry

  -- The variables of `run`, the world, and the record of what was run, in its order.
  pub record State : Type 0 where
    pub apk_package : Option Codes
    pub observations : List ObservationEvent
    pub failures : List FailureRecord
    pub before : Restoration
    pub after : Restoration
    pub absent : Bool
    pub outcome : RunOutcome
    pub world : World
    pub log : List Entry

  -- `self.command(argv)`
  unfoldable pub run_command : HarnessConfig → Command → Action State CompletedProcess
  run_command config c s =
      let (result, world) = command (argv config c) s.world in
      (result, record s { world = world; log = s.log ++ ran c result ∷ [] })

  -- `self.collector(package, duration, hooks, serial)`
  unfoldable pub collect : Codes → Action State (List Raw × List Codes)
  collect apk_package s =
      let (result, world) = collector apk_package s.world in
      (result, record s { world = world; log = s.log ++ collected apk_package result ∷ [] })

  -- A step without commands that reads or changes the world.
  unfoldable pub outside {ℓ} : {A : Type ℓ} → (World → Attempt A × World) → Action State A
  outside f s = let (a, world) = f s.world in (a, record s { world = world })

  -- `str(exc)`
  abbrev pub text_of : Exception → Codes
  text_of (timeout_expired text) = text
  text_of (harness_error code stage text) = text
  text_of (other_error name text) = text

  -- `redact_text(value)`, with its limit of 512
  unfoldable pub redact_text : Codes → Codes
  redact_text text =
      take 512 (substitute jwt (substitute token (substitute credential (substitute otp text))))
