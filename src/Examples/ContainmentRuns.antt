-- ===== src/Examples/ContainmentRuns.antt =====
-- Probes of drishti/m3_dynamic/containment.py against guests that answer by the command alone.
use c_s_cool_stuff.Prelude.{
  ◌≤◌, ◌<◌, ◌+◌, ◌*◌, true, none, ◌≡◌, refl, ◌↔◌, All, Codes, codes, same, if◌then◌else◌, same_iff,
  lower, strip, decimal, strip_left, without_prefix,
}
unfoldable use c_s_cool_stuff.Prelude.{same, lower, strip, decimal, strip_left, without_prefix}
use c_s_cool_stuff.Containment.{
  negative_control, positive_control, forbidden, probe_command, listen_command, search_rc,
  is_reachable, verify,
}
unfoldable use c_s_cool_stuff.Containment.{
  read_digits, digits_here, search_rc, parse_rc, probe_command, is_reachable, verify,
  positive_probe, assert_probe_trustworthy, probe_all, report_on, failures_of,
}
use c_s_cool_stuff.Containment.Verdict.{Contained, Reaches, after_listen, verify-Contained}
use c_s_cool_stuff.Containment.Parse.{silent_probe_verified}
use c_s_cool_stuff.Containment.Admission.{
  Signer, Body, ContainmentManifest, all_true, checks_from_report, sign_manifest, verify_manifest,
  ok,
}
unfoldable use c_s_cool_stuff.Containment.Admission.{sign_manifest, valid_window}
use c_s_cool_stuff.Containment.Admission.Laws.{checks_after_verify, verify_manifest-sign_manifest}

-- The guest that reaches its own listener, and answers other probes with `other`.
abbrev guest : Codes → Unit {0} → Codes → Codes × Unit {0}
guest other w command =
    if same command (probe_command positive_control)
    then (codes "DRISHTI_RC=0", tt)
    else if same command listen_command
    then (codes "DRISHTI_RC=0", tt)
    else (other, tt)

abbrev sealed : Unit {0} → Codes → Codes × Unit {0}
sealed = guest (codes "DRISHTI_RC=1")

-- Every other probe prints nothing but an error.
abbrev mute : Unit {0} → Codes → Codes × Unit {0}
mute = guest (codes "nc: bad option")

verify-Contained_example :
    let (report, last) = verify (Unit {0}) sealed tt in
    (report.verified ≡ true) ↔ Contained (Unit {0}) sealed tt report last
verify-Contained_example = verify-Contained (Unit {0}) sealed tt

mute-negative : ¬ Reaches (Unit {0}) mute tt negative_control
unfolding is_reachable parse_rc search_rc digits_here read_digits probe_command decimal same
    without_prefix
mute-negative h = cc

mute-positive : Reaches (Unit {0}) mute (after_listen (Unit {0}) mute tt) positive_control
unfolding is_reachable parse_rc search_rc digits_here read_digits probe_command decimal same
    without_prefix
mute-positive = refl

mute-silent : All (λ t. search_rc (mute tt (probe_command t)).0 ≡ none) forbidden
unfolding is_reachable parse_rc search_rc digits_here read_digits probe_command decimal same
    without_prefix
mute-silent = (refl, (refl, (refl, (refl, tt))))

silent_probe_verified_example : (verify (Unit {0}) mute tt).0.verified ≡ true
silent_probe_verified_example =
    silent_probe_verified (Unit {0}) mute tt mute-negative mute-positive (λ w. mute-silent)

sealed-verified : (verify (Unit {0}) sealed tt).0.verified ≡ true
unfolding verify positive_probe assert_probe_trustworthy probe_all report_on failures_of
    is_reachable parse_rc search_rc digits_here read_digits probe_command decimal same
    without_prefix
sealed-verified = refl

checks_after_verify_example :
    (checks_from_report (verify (Unit {0}) sealed tt).0 true true ≡ ok all_true)
    ↔ ((true ≡ true) × (true ≡ true))
checks_after_verify_example = checks_after_verify (Unit {0}) sealed tt true true sealed-verified

abbrev pub signer : Signer
signer = record {
  PrivateKey = Codes;
  public_hex = λ k. k;
  sign = λ k b. b.instance_id;
  verify = λ k b s. same b.instance_id s;
}

abbrev body : Body
body = record {
  instance_id = codes "vm";
  runtime_image = codes "image";
  issued_at = 1000;
  expires_at = 1000 + 60 * 10;
  checks = all_true;
  public_key = codes "ab";
}

abbrev pub manifest : ContainmentManifest
manifest = record { body = body; signature = codes "vm" }

signed :
    sign_manifest signer (codes "vm") (codes "image") all_true (codes "ab") 10 1000 ≡ ok manifest
unfolding sign_manifest valid_window
signed = refl

trusted : lower (strip (codes " AB ")) ≡ codes "ab"
unfolding lower strip strip_left
trusted = refl

verify_manifest-sign_manifest_example :
    (1 ≤ 10)
    × (10 ≤ 30)
    × (manifest.checks ≡ all_true)
    × ((verify_manifest signer manifest (codes " AB ") 1200 ≡ ok tt)
        ↔ ((1000 ≤ 1200) × (1200 < 1000 + 60 * 10)))
verify_manifest-sign_manifest_example =
    verify_manifest-sign_manifest signer (codes "vm") (codes "image") all_true (codes "ab") 10 1000
      1200 (codes " AB ") manifest (λ b. (same_iff b.instance_id b.instance_id).1 refl) trusted
      signed
