-- ===== src/Harness/Detonated.antt =====
-- The state of `DynamicHarness.run` after its `try` has ended without an exception, and after the
-- snapshot was then restored.
use c_s_cool_stuff.Prelude.{◌≡◌, refl, sym, ap, ◌∙◌, subst, true, some, List, [], ◌∷◌, ◌++◌, Codes}
use c_s_cool_stuff.Artifact.{FailureCode, passed}
use c_s_cool_stuff.Harness.Guest.{
  Attempt, returned, CompletedProcess, HarnessConfig, dump_badging, install_apk, Lab, ran,
  collected, State, pure, modify, >>=-returned,
}
use c_s_cool_stuff.Harness.Steps.{search_package, is_zero, is_installed}
use c_s_cool_stuff.Harness.Run.{
  observed_outcome, validate_all, lift, add_failure, add_hook_errors, prepare, observe, detonate,
}
use c_s_cool_stuff.Harness.Inversion.{
  >>-returned, raise_if-returned, Extends, Restores, restore_entries, restore_snapshot-returned,
  package_name-returned, install-returned, collect-returned,
}

module _ (lab : Lab) where
  pub modify-returned :
      (f : State lab → State lab) (s : State lab) {x : Unit {0}} {s' : State lab}
      → modify f s ≡ (returned x, s')
      → s' ≡ f s
  unfolding modify
  modify-returned f s h = sym (ap (λ p. p.1) h)

  lift-returned :
      {A : Type 0} (a : Attempt A) (s : State lab) {x : A} {s' : State lab}
      → lift lab a s ≡ (returned x, s')
      → (a ≡ returned x) × (s' ≡ s)
  unfolding lift
  lift-returned a s h = (ap (λ p. p.0) h, sym (ap (λ p. p.1) h))

  -- Only the failures differ.
  abbrev pub NotesFailures : State lab → State lab → Type 0
  NotesFailures s s' = s' ≡ record s { failures = s'.failures }

  pub add_failure-returned :
      (code : FailureCode) (stage message : Codes) (s : State lab) {x : Unit {0}} {s' : State lab}
      → add_failure lab code stage message s ≡ (returned x, s')
      → NotesFailures s s'
  unfolding add_failure
  add_failure-returned code stage message s {s'} h =
      let (_, s₁, h₁, k₁) = >>-returned _ _ s h in
      let (_, e₁) = raise_if-returned _ _ s h₁ in
      let e₂ = modify-returned _ s₁ k₁ in
      subst (λ t. NotesFailures t s') e₁ (subst (λ t. NotesFailures s₁ t) (sym e₂) refl)

  add_hook_errors-returned :
      (errors : List Codes) (s : State lab) {x : Unit {0}} {s' : State lab}
      → add_hook_errors lab errors s ≡ (returned x, s')
      → NotesFailures s s'
  unfolding add_hook_errors pure
  add_hook_errors-returned [] s h = subst (λ t. NotesFailures s t) (ap (λ p. p.1) h) refl
  add_hook_errors-returned (error ∷ errors) s {s'} h =
      let (_, s₁, h₁, k₁) = >>-returned _ _ s h in
      let e₁ = add_failure-returned _ _ _ s h₁ in
      let e₂ = add_hook_errors-returned errors s₁ k₁ in
      e₂ ∙ ap (λ (t : State lab). record t { failures = s'.failures }) e₁

  -- What has run and is set when the package is installed.
  pub record Prepared (s : State lab) (name : Codes) (s' : State lab) : Type 0 where
    pub load : CompletedProcess
    pub ready : CompletedProcess
    pub badging : CompletedProcess
    pub installation : CompletedProcess
    pub restored : Restores lab load ready
    pub identified : is_zero badging.returncode ≡ true
    pub named : search_package badging.stdout ≡ some name
    pub installed : is_installed installation ≡ true
    pub package_set : s'.apk_package ≡ some name
    pub before_set : s'.before ≡ passed
    pub after_kept : s'.after ≡ s.after
    pub sequence :
        s'.log
        ≡ ((s.log ++ restore_entries lab load ready) ++ ran dump_badging (returned badging) ∷ [])
          ++ ran install_apk (returned installation) ∷ []

  prepared :
      {s s₁ s₂ s₃ s₄ s' : State lab} {name : Codes}
      (load ready badging installation : CompletedProcess)
      → Restores lab load ready
      → is_zero badging.returncode ≡ true
      → search_package badging.stdout ≡ some name
      → is_installed installation ≡ true
      → Extends lab s (restore_entries lab load ready) s₁
      → s₂ ≡ record s₁ { before = passed }
      → Extends lab s₂ (ran dump_badging (returned badging) ∷ []) s₃
      → s₄ ≡ record s₃ { apk_package = some name }
      → Extends lab s₄ (ran install_apk (returned installation) ∷ []) s'
      → Prepared s name s'
  prepared load ready badging installation restored identified named installed (_, e₁) e₂ (_, e₃) e₄
        (_, e₅) =
      record {
        load = load;
        ready = ready;
        badging = badging;
        installation = installation;
        restored = restored;
        identified = identified;
        named = named;
        installed = installed;
        package_set = rw (e₅, e₄) refl;
        before_set = rw (e₅, e₄, e₃, e₂) refl;
        after_kept = rw (e₅, e₄, e₃, e₂, e₁) refl;
        sequence = rw (e₅, e₄, e₃, e₂, e₁) refl;
      }

  pub pure-returned {ℓ} :
      {A : Type ℓ} (a : A) (s : State lab) {x : A} {s' : State lab}
      → pure a s ≡ (returned x, s')
      → (a ≡ x) × (s ≡ s')
  unfolding pure
  pure-returned a s h = (cc, ap (λ p. p.1) h)

  prepare-Prepared :
      (config : HarnessConfig) (s : State lab) {name : Codes} {s' : State lab}
      → prepare lab config s ≡ (returned name, s')
      → Prepared s name s'
  unfolding prepare
  prepare-Prepared config s {name} {s'} h =
      let (_, s₁, h₁, k₁) = >>-returned _ _ s h in
      let (load, ready, restored, x₁) = restore_snapshot-returned lab config s h₁ in
      let (_, s₂, h₂, k₂) = >>-returned _ _ s₁ k₁ in
      let (n, s₃, h₃, k₃) = >>=-returned _ _ s₂ k₂ in
      let (badging, identified, named, x₃) = package_name-returned lab config s₂ h₃ in
      let (_, s₄, h₄, k₄) = >>-returned _ _ s₃ k₃ in
      let (_, s₅, h₅, k₅) = >>-returned _ _ s₄ k₄ in
      let (installation, installed, x₅) = install-returned lab config s₄ h₅ in
      let (same_name, same_state) = pure-returned n s₅ k₅ in
      subst (λ t. Prepared s t s') same_name
        (subst (λ t. Prepared s n t) same_state
          (prepared load ready badging installation restored identified named installed x₁
            (modify-returned _ s₁ h₂) x₃ (modify-returned _ s₃ h₄) x₅))

  -- What has run and is set when the `try` has ended.
  pub record Detonated (s s' : State lab) : Type 0 where
    pub name : Codes
    pub prepared_state : State lab
    pub preparation : Prepared s name prepared_state
    pub found : List lab.Raw × List Codes
    pub observed : validate_all lab found.0 ≡ returned s'.observations
    pub ended : s'.outcome ≡ observed_outcome s'.observations
    pub package_kept : s'.apk_package ≡ prepared_state.apk_package
    pub before_kept : s'.before ≡ prepared_state.before
    pub after_kept : s'.after ≡ prepared_state.after
    pub sequence : s'.log ≡ prepared_state.log ++ collected name (returned found) ∷ []

  detonated :
      {s s₁ s₂ s₃ s₄ s₅ s' : State lab} (name : Codes) (found : List lab.Raw × List Codes)
      (observations : List lab.ObservationEvent)
      → Prepared s name s₁
      → validate_all lab found.0 ≡ returned observations
      → Extends lab s₁ (collected name (returned found) ∷ []) s₂
      → s₃ ≡ s₂
      → s₄ ≡ record s₃ { observations = observations }
      → NotesFailures s₄ s₅
      → s' ≡ record s₅ { outcome = observed_outcome observations }
      → Detonated s s'
  detonated {s₁} name found observations preparation observed (_, e₂) e₃ e₄ e₅ e = record {
    name = name;
    prepared_state = s₁;
    preparation = preparation;
    found = found;
    observed = rw e (rw e₅ (rw e₄ observed));
    ended = rw e (rw e₅ (rw e₄ refl));
    package_kept = rw e (rw e₅ (rw (e₄, e₃, e₂) refl));
    before_kept = rw e (rw e₅ (rw (e₄, e₃, e₂) refl));
    after_kept = rw e (rw e₅ (rw (e₄, e₃, e₂) refl));
    sequence = rw e (rw e₅ (rw (e₄, e₃, e₂) refl));
  }

  pub detonate-Detonated :
      (config : HarnessConfig) (s : State lab) {x : Unit {0}} {s' : State lab}
      → detonate lab config s ≡ (returned x, s')
      → Detonated s s'
  unfolding detonate observe
  detonate-Detonated config s h =
      let (name, s₁, h₁, k₁) = >>=-returned _ _ s h in
      let (found, s₂, h₂, k₂) = >>=-returned _ _ s₁ k₁ in
      let (observations, s₃, h₃, k₃) = >>=-returned _ _ s₂ k₂ in
      let (observed, e₃) = lift-returned _ s₂ h₃ in
      let (_, s₄, h₄, k₄) = >>-returned _ _ s₃ k₃ in
      let (_, s₅, h₅, k₅) = >>-returned _ _ s₄ k₄ in
      detonated name found observations (prepare-Prepared config s h₁) observed
        (collect-returned lab name s₁ h₂) e₃ (modify-returned _ s₃ h₄)
        (add_hook_errors-returned found.1 s₄ h₅) (modify-returned _ s₅ k₅)
