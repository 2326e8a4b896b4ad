-- ===== src/Containment/Admission/Laws.antt =====
-- Admission fails closed: what is signed was probed, and a manifest is good for its window only.
use c_s_cool_stuff.Prelude.{
  none, some, Any, subst, sym, ◌⊎◌, ℕ, ◌+◌, ◌*◌, ◌≤◌, ◌<◌, ◌≡◌, refl, ◌↔◌, inl, inr, Bool, true,
  false, List, [], ◌∷◌, map, arith, All, Codes, same, same_iff, strip, lower,
}
use c_s_cool_stuff.Containment.{
  Target, ProbeResult, ContainmentReport, metadata_server, dns_server, web_server, vpc_host,
  forbidden, verify,
}
use c_s_cool_stuff.Containment.Verdict.{IsBlocked, verify-Contained}
use c_s_cool_stuff.Containment.Admission.{
  ok, reached, last_result, failed_checks, checks_from_report, ContainmentChecks, all_true, Body,
  ContainmentManifest, Signer, valid_window, sign_manifest, verify_manifest, same_target,
}

-- `checks_from_report` accepts a report, and then yields all the checks as true, exactly when the
-- report is verified and trustworthy, each of the four forbidden destinations has a result and its
-- last result is not reachable, nested KVM works and the firewall drops by default.
checks_from_report_iff :
    (report : ContainmentReport) (kvm_ok firewall : Bool)
    → (checks_from_report report kvm_ok firewall ≡ ok all_true) ↔ (
        (report.verified ≡ true)
        × (report.probe_trustworthy ≡ true)
        × All (λ t. last_result report.results t ≡ some false) forbidden
        × (kvm_ok ≡ true)
        × (firewall ≡ true))
unfolding checks_from_report failed_checks reached
checks_from_report_iff report kvm_ok firewall = ground arith

last_result-blocked :
    (rs : List ProbeResult) (t : Target)
    → All IsBlocked rs
    → (last_result rs t ≡ some false) ⊎ (last_result rs t ≡ none)
unfolding last_result
last_result-blocked [] t h = inr refl
last_result-blocked (r ∷ rs) t h = ground (arith, last_result-blocked rs t h.1)

last_result-tested :
    (rs : List ProbeResult) (t : Target)
    → Any (λ u. same_target u t ≡ true) (map (λ r. r.target) rs)
    → All IsBlocked rs
    → last_result rs t ≡ some false
unfolding last_result
last_result-tested [] t m h = elim m [ ]
last_result-tested (r ∷ rs) t (inl here) h = ground (arith, last_result-blocked rs t h.1)
last_result-tested (r ∷ rs) t (inr later) h = ground (arith, last_result-tested rs t later h.1)

-- After a successful `verify`, `checks_from_report` accepts its report exactly when nested KVM works
-- and the firewall drops by default: each forbidden destination was tried.
pub checks_after_verify :
    (World : Type 0) (run : World → Codes → Codes × World) (w : World) (kvm_ok firewall : Bool)
    → (verify World run w).0.verified ≡ true
    → (checks_from_report (verify World run w).0 kvm_ok firewall ≡ ok all_true)
      ↔ ((kvm_ok ≡ true) × (firewall ≡ true))
checks_after_verify World run w kvm_ok firewall h =
    let report = (verify World run w).0 in
    let c = (verify-Contained World run w).0 h in
    let tested : (t : Target)
        → Any (λ u. same_target u t ≡ true) forbidden
        → last_result report.results t ≡ some false =
      λ t m.
        last_result-tested report.results t
          (subst (Any (λ u. same_target u t ≡ true)) (sym c.tried) m) c.blocked in
    let each : All (λ t. last_result report.results t ≡ some false) forbidden = (
      tested metadata_server (unfold same in inl refl),
      (
        tested dns_server (unfold same in inr (inl refl)),
        (
          tested web_server (unfold same in inr (inr (inl refl))),
          (tested vpc_host (unfold same in inr (inr (inr (inl refl)))), tt),
        ),
      ),
    ) in
    let iff = checks_from_report_iff report kvm_ok firewall in
    (λ e. let (_, _, _, k, f) = iff.0 e in (k, f), λ (k, f). iff.1 (h, c.attested, each, k, f))

module _ (signer : Signer) (instance_id runtime_image : Codes) (checks : ContainmentChecks) where
  abbrev signed_body : signer.PrivateKey → ℕ → ℕ → Body
  signed_body private ttl issued = record {
    instance_id = instance_id;
    runtime_image = runtime_image;
    issued_at = issued;
    expires_at = issued + 60 * ttl;
    checks = checks;
    public_key = signer.public_hex private;
  }

  sign_manifest-eq-ok :
      (private : signer.PrivateKey) (ttl issued : ℕ) (m : ContainmentManifest)
      → sign_manifest signer instance_id runtime_image checks private ttl issued ≡ ok m
      → (1 ≤ ttl)
        × (ttl ≤ 30)
        × (m ≡ record {
          body = signed_body private ttl issued;
          signature = signer.sign private (signed_body private ttl issued);
        })
  unfolding sign_manifest valid_window
  sign_manifest-eq-ok private ttl issued m e = ground arith

-- A manifest that `sign_manifest` issues, for a key whose signatures verify, is valid for whoever
-- trusts that key exactly from the time of issue up to `ttl_minutes` later, which is 1 to 30 minutes.
pub verify_manifest-sign_manifest :
    (signer : Signer) (instance_id runtime_image : Codes) (checks : ContainmentChecks)
    (private : signer.PrivateKey) (ttl_minutes issued current : ℕ) (trusted : Codes)
    (m : ContainmentManifest)
    → ((b : Body) → signer.verify (signer.public_hex private) b (signer.sign private b) ≡ true)
    → lower (strip trusted) ≡ signer.public_hex private
    → sign_manifest signer instance_id runtime_image checks private ttl_minutes issued ≡ ok m
    → (1 ≤ ttl_minutes)
      × (ttl_minutes ≤ 30)
      × (m.checks ≡ checks)
      × ((verify_manifest signer m trusted current ≡ ok tt)
          ↔ ((issued ≤ current) × (current < issued + 60 * ttl_minutes)))
unfolding verify_manifest
verify_manifest-sign_manifest signer instance_id runtime_image checks private ttl issued current
      trusted m signs key e =
    let (low, high, made) =
      sign_manifest-eq-ok signer instance_id runtime_image checks private ttl issued m e in
    let signed = signs m.body in
    (low, high, ground arith, ground (arith, same_iff m.public_key (lower (strip trusted))))
