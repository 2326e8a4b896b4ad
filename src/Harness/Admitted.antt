-- ===== src/Harness/Admitted.antt =====
-- The admission that stands behind a run of `DynamicHarness`.
use c_s_cool_stuff.Prelude.{
  ◌≡◌, refl, sym, ap, ◌∙◌, subst, Bool, true, false, not, Option, none, some, Codes, ℕ, same,
  same_iff, arith,
}
use c_s_cool_stuff.Containment.Admission.{ContainmentManifest, Result, ok, err, verify_manifest}
use c_s_cool_stuff.Harness.Guest.{Attempt, returned, raised, Lab, State, outside, >>=-returned}
use c_s_cool_stuff.Harness.Steps.{verified_manifest, load_verified_manifest}
use c_s_cool_stuff.Harness.Run.{admit}
use c_s_cool_stuff.Harness.Inversion.{>>-returned, raise_if-returned}
use c_s_cool_stuff.Harness.Detonated.{pure-returned}

module _ (lab : Lab) where
  open lab use {World}

  -- A signed manifest, verified at this time, that is of the image that the machine runs.
  pub record IsAdmitted (w : World) (image sha : Codes) : Type 0 where
    pub admitted_world : World
    pub payload : Codes
    pub key : Codes
    pub manifest : ContainmentManifest
    pub sealed : lab.admission w ≡ (returned image, admitted_world)
    pub files : lab.manifest_files admitted_world ≡ some (payload, key)
    pub parsed : lab.parse_manifest payload ≡ returned manifest
    pub verified : verify_manifest lab.signer manifest key (lab.now admitted_world).0 ≡ ok tt
    pub same_image : manifest.runtime_image ≡ image
    pub digest : lab.sha256 payload ≡ sha

  verified-returned :
      (files : Option (Codes × Codes)) (current : ℕ) {manifest : ContainmentManifest} {sha : Codes}
      → verified_manifest lab files current ≡ returned (manifest, sha)
      → (payload : Codes) × (key : Codes) × (files ≡ some (payload, key))
        × (lab.parse_manifest payload ≡ returned manifest)
        × (verify_manifest lab.signer manifest key current ≡ ok tt)
        × (lab.sha256 payload ≡ sha)
  unfolding verified_manifest
  verified-returned none current h = cc
  verified-returned (some (payload, key)) current {manifest} {sha} h = (
    payload,
    key,
    refl,
    (go (lab.parse_manifest payload) refl h).0,
    (go (lab.parse_manifest payload) refl h).1,
    (go (lab.parse_manifest payload) refl h).2,
  )
    where
      verified :
          (m : ContainmentManifest) (r : Result (Unit {0}))
          → verify_manifest lab.signer m key current ≡ r
          → (elim r as (λ _. Attempt (ContainmentManifest × Codes)) [
            | err why ↦ raised (lab.exception_of why)
            | ok valid ↦ returned (m, lab.sha256 payload)
          ])
            ≡ returned (manifest, sha)
          → (m ≡ manifest)
            × (verify_manifest lab.signer m key current ≡ ok tt)
            × (lab.sha256 payload ≡ sha)
      verified m (err why) e k = cc
      verified m (ok valid) e k = (cc, e, cc)

      go :
          (parsed : Attempt ContainmentManifest)
          → lab.parse_manifest payload ≡ parsed
          → (elim parsed as (λ _. Attempt (ContainmentManifest × Codes)) [
            | raised exc ↦ raised exc
            | returned m ↦ elim (verify_manifest lab.signer m key current) [
              | err why ↦ raised (lab.exception_of why)
              | ok valid ↦ returned (m, lab.sha256 payload)
            ]
          ])
            ≡ returned (manifest, sha)
          → (lab.parse_manifest payload ≡ returned manifest)
            × (verify_manifest lab.signer manifest key current ≡ ok tt)
            × (lab.sha256 payload ≡ sha)
      go (raised exc) e h' = cc
      go (returned m) e h' =
          let (same_manifest, valid, digest) =
            verified m (verify_manifest lab.signer m key current) refl h' in
          (
            e ∙ ap returned same_manifest,
            subst (λ t. verify_manifest lab.signer t key current ≡ ok tt) same_manifest valid,
            digest,
          )

  pub outside-returned {ℓ} :
      {A : Type ℓ} (f : World → Attempt A × World) (s : State lab) {x : A} {s' : State lab}
      → outside lab f s ≡ (returned x, s')
      → (w : World) × (f s.world ≡ (returned x, w)) × (s' ≡ record s { world = w })
  unfolding outside
  outside-returned f s h =
      (_, ap (λ t. (t, (f s.world).1)) (ap (λ p. p.0) h), sym (ap (λ p. p.1) h))

  denied_true : (b : Bool) → not b ≡ false → b ≡ true
  denied_true b h = ground arith

  assembled :
      (s₁ : State lab) {w w₁ : World} {image digest : Codes} {manifest : ContainmentManifest}
      → lab.admission w ≡ (returned image, w₁)
      → s₁.world ≡ w₁
      → verified_manifest lab (lab.manifest_files s₁.world) (lab.now s₁.world).0
        ≡ returned (manifest, digest)
      → not (same manifest.runtime_image image) ≡ false
      → IsAdmitted w image digest
  assembled s₁ {w₁} {manifest} sealed e checked same_bytes =
      let (payload, key, files, parsed, verified, digest) =
        verified-returned (lab.manifest_files s₁.world) (lab.now s₁.world).0 checked in
      record {
        admitted_world = w₁;
        payload = payload;
        key = key;
        manifest = manifest;
        sealed = sealed;
        files = subst (λ t. lab.manifest_files t ≡ some (payload, key)) e files;
        parsed = parsed;
        verified =
            subst (λ t. verify_manifest lab.signer manifest key (lab.now t).0 ≡ ok tt) e verified;
        same_image = (same_iff _ _).0 (denied_true _ same_bytes);
        digest = digest;
      }

  -- Admission returns only where there is one, and has run no command.
  pub admit-IsAdmitted :
      (s : State lab) {image sha : Codes} {s' : State lab}
      → admit lab s ≡ (returned (image, sha), s')
      → IsAdmitted s.world image sha × (s'.log ≡ s.log) × (s'.outcome ≡ s.outcome)
  unfolding admit load_verified_manifest
  admit-IsAdmitted s {image} {sha} {s'} h =
      let (i, s₁, h₁, k₁) = >>=-returned _ _ s h in
      let (w₁, sealed, e₁) = outside-returned _ s h₁ in
      let (m, s₂, h₂, k₂) = >>=-returned _ _ s₁ k₁ in
      let (w₂, checked, e₂) = outside-returned _ s₁ h₂ in
      let (_, s₃, h₃, k₃) = >>-returned _ _ s₂ k₂ in
      let (same_bytes, e₃) = raise_if-returned _ _ s₂ h₃ in
      let (e, e₄) = pure-returned lab _ s₃ k₃ in
      (
        renamed e (
            assembled s₁ sealed (ap (λ (t : State lab). t.world) e₁) (ap (λ p. p.0) checked)
              same_bytes),
        kept e₁ e₂ e₃ e₄,
        kept_outcome e₁ e₂ e₃ e₄,
      )
    where
      renamed :
          {i digest : Codes}
          → ◌≡◌ {A = Codes × Codes} (i, digest) (image, sha)
          → IsAdmitted s.world i digest
          → IsAdmitted s.world image sha
      renamed e a = subst (λ p. IsAdmitted s.world p.0 p.1) e a

      kept :
          {s₁ s₂ s₃ : State lab} {w₁ w₂ : World}
          → s₁ ≡ record s { world = w₁ }
          → s₂ ≡ record s₁ { world = w₂ }
          → s₃ ≡ s₂
          → s₃ ≡ s'
          → s'.log ≡ s.log
      kept e₁ e₂ e₃ e₄ = rw (← e₄) (rw (e₃, e₂, e₁) refl)

      kept_outcome :
          {s₁ s₂ s₃ : State lab} {w₁ w₂ : World}
          → s₁ ≡ record s { world = w₁ }
          → s₂ ≡ record s₁ { world = w₂ }
          → s₃ ≡ s₂
          → s₃ ≡ s'
          → s'.outcome ≡ s.outcome
      kept_outcome e₁ e₂ e₃ e₄ = rw (← e₄) (rw (e₃, e₂, e₁) refl)
