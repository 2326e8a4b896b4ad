-- ===== src/Containment/Admission.antt =====
-- drishti/m3_dynamic/admission.py and drishti/contracts/containment.py: who may detonate. A time is a
-- number of seconds, and a text read from a file is what `strip` leaves of it.
pub mod Laws
use c_s_cool_stuff.Prelude.{
  ℕ, ◌+◌, ◌*◌, Bool, true, false, not, ◌&&◌, ◌||◌, Option, none, some, String, List, [], ◌∷◌, ◌++◌,
  leb, ltb, ◌==◌, Codes, codes, same, strip, lower, if◌then◌else◌,
}
use c_s_cool_stuff.Containment.{
  Target, ProbeResult, ContainmentReport, metadata_server, dns_server, web_server, vpc_host,
}

pub data CheckName : Type 0 where
  emulator_internet_blocked emulator_metadata_blocked emulator_vpc_blocked : CheckName
  nested_kvm_functional host_firewall_default_drop : CheckName

pub data AdmissionError : Type 0 where
  not_sealed no_marker no_kvm empty_marker : AdmissionError
  not_verified : AdmissionError
  checks_failed : List CheckName → AdmissionError
  bad_ttl : AdmissionError
  untrusted_signer invalid_signature outside_window expiry_not_after_issue : AdmissionError

-- What is computed, or the reason why it is refused.
pub data Result {ℓ} (A : Type ℓ) : Type ℓ where
  err : AdmissionError → Result A
  ok : A → Result A

infixl 5 ◌>>◌ ◌>>=◌
-- The later steps are taken only on what an earlier one computed.
abbrev pub ◌>>=◌ {ℓ κ} : {B : Type κ} {A : Type ℓ} → Result A → (A → Result B) → Result B
err why >>= next = err why
ok computed >>= next = next computed

abbrev pub ◌>>◌ {ℓ} : {B : Type ℓ} → Result (Unit {0}) → Result B → Result B
check >> after = check >>= λ passed. after

abbrev pub require : Bool → AdmissionError → Result (Unit {0})
require false why = err why
require true why = ok tt

-- The machine: the variable DRISHTI_SEALED_RUNTIME, the text of the marker file if it is a file, and
-- whether /dev/kvm exists.
pub record Machine : Type 0 where
  pub sealed : Option Codes
  pub marker : Option Codes
  pub kvm : Bool

abbrev is_one : Option Codes → Bool
is_one none = false
is_one (some s) = same s (codes "1")

abbrev is_blank : Codes → Bool
is_blank [] = true
is_blank (c ∷ s) = false

-- `require_sealed_runtime`
unfoldable pub require_sealed_runtime : Machine → Result Codes
require_sealed_runtime m = do
  require (is_one m.sealed) not_sealed
  text ← elim m.marker [ none ↦ err no_marker | some text ↦ ok text ]
  require m.kvm no_kvm
  require (not (is_blank (strip text))) empty_marker
  ok (strip text)

abbrev pub same_target : Target → Target → Bool
same_target s t = same s.host t.host && s.port == t.port

unfoldable pub last_result : List ProbeResult → Target → Option Bool
last_result [] t = none
last_result (r ∷ rs) t =
    let later = last_result rs t in
    elim later [
      | some b ↦ some b
      | none ↦ if same_target r.target t then some r.reachable else none
    ]

-- `reachability.get(destination, True)`: the last result for a destination counts, and an untested
-- destination counts as reachable.
unfoldable pub reached : List ProbeResult → Target → Bool
unfolding last_result
reached rs t = elim (last_result rs t) [ none ↦ true | some b ↦ b ]

pub record ContainmentChecks : Type 0 where
  pub probe_trustworthy : Bool
  pub emulator_internet_blocked : Bool
  pub emulator_metadata_blocked : Bool
  pub emulator_vpc_blocked : Bool
  pub nested_kvm_functional : Bool
  pub host_firewall_default_drop : Bool

abbrev pub all_true : ContainmentChecks
all_true = record {
  probe_trustworthy = true;
  emulator_internet_blocked = true;
  emulator_metadata_blocked = true;
  emulator_vpc_blocked = true;
  nested_kvm_functional = true;
  host_firewall_default_drop = true;
}

abbrev failing : CheckName → Bool → List CheckName → List CheckName
failing name good rest = if good then rest else name ∷ rest

-- `sorted(name for name, ok in checks.items() if not ok)`
unfoldable pub failed_checks : List ProbeResult → Bool → Bool → List CheckName
failed_checks rs kvm_ok firewall_default_drop =
    failing emulator_internet_blocked (not (reached rs dns_server || reached rs web_server)) (
      failing emulator_metadata_blocked (not (reached rs metadata_server)) (
        failing emulator_vpc_blocked (not (reached rs vpc_host)) (
          failing host_firewall_default_drop firewall_default_drop
            (failing nested_kvm_functional kvm_ok []))))

abbrev pub no_failure : List CheckName → Result ContainmentChecks
no_failure [] = ok all_true
no_failure (c ∷ cs) = err (checks_failed (c ∷ cs))

-- `checks_from_report`
unfoldable pub checks_from_report : ContainmentReport → Bool → Bool → Result ContainmentChecks
checks_from_report report kvm_ok firewall_default_drop = do
  require (report.verified && report.probe_trustworthy) not_verified
  no_failure (failed_checks report.results kvm_ok firewall_default_drop)

-- What the signature of a manifest covers.
pub record Body : Type 0 where
  pub instance_id : Codes
  pub runtime_image : Codes
  pub issued_at : ℕ
  pub expires_at : ℕ
  pub checks : ContainmentChecks
  pub public_key : Codes

pub record ContainmentManifest : Type 0 where
  pub body : Body
  pub open body use *
  pub signature : Codes

-- Ed25519 on the canonical bytes of a body, keys and signatures as hexadecimal texts.
pub record Signer : Type 1 where
  pub PrivateKey : Type 0
  pub public_hex : PrivateKey → Codes
  pub sign : PrivateKey → Body → Codes
  pub verify : Codes → Body → Codes → Bool

-- `valid_window`
unfoldable pub valid_window : ContainmentManifest → Result ContainmentManifest
valid_window m = do require (ltb m.issued_at m.expires_at) expiry_not_after_issue; ok m

module _ (signer : Signer) where
  open signer use {PrivateKey, public_hex, sign, verify}

  -- `sign_manifest`
  unfoldable pub sign_manifest :
      Codes → Codes → ContainmentChecks → PrivateKey → ℕ → ℕ → Result ContainmentManifest
  sign_manifest instance_id runtime_image checks private ttl_minutes issued = do
    require (leb 1 ttl_minutes && leb ttl_minutes 30) bad_ttl
    let body : Body = record {
      instance_id = instance_id;
      runtime_image = runtime_image;
      issued_at = issued;
      expires_at = issued + 60 * ttl_minutes;
      checks = checks;
      public_key = public_hex private;
    }
    unsigned ← valid_window (record { body = body; signature = codes "0" })
    valid_window (record unsigned { signature = sign private body })

  -- `ContainmentManifest.verify`, at the time `current`
  unfoldable pub verify_manifest : ContainmentManifest → Codes → ℕ → Result (Unit {0})
  verify_manifest m trusted_public_key current = do
    require (same m.public_key (lower (strip trusted_public_key))) untrusted_signer
    require (verify m.public_key m.body m.signature) invalid_signature
    require (not (ltb current m.issued_at || leb m.expires_at current)) outside_window
