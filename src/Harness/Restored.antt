-- ===== src/Harness/Restored.antt =====
-- The state of `DynamicHarness.run` after its clean up has restored the snapshot.
use c_s_cool_stuff.Prelude.{
  ◌≡◌, refl, sym, ap, ◌∙◌, subst, Bool, Option, some, [], ◌∷◌, ◌++◌, Codes, ℕ,
}
use c_s_cool_stuff.Artifact.{passed, failed}
use c_s_cool_stuff.Harness.Guest.{
  Attempt, returned, raised, CompletedProcess, HarnessConfig, package_path, uninstall, Lab, ran,
  State, handled, handle, >>=-returned,
}
use c_s_cool_stuff.Harness.Steps.{is_absent}
use c_s_cool_stuff.Harness.Run.{
  uninstall_given, get_package, absent_given, checked, restore_after, restore_failed, clean_up,
}
use c_s_cool_stuff.Harness.Inversion.{
  >>-returned, Extends, run_command-returned, Restores, restore_entries, restore_snapshot-returned,
  package_absent-returned,
}
use c_s_cool_stuff.Harness.Detonated.{modify-returned, add_failure-returned, pure-returned}

module _ (lab : Lab) where
  get_package-returned :
      (s : State lab) {name : Option Codes} {s' : State lab}
      → get_package lab s ≡ (returned name, s')
      → (s.apk_package ≡ name) × (s ≡ s')
  unfolding get_package
  get_package-returned s h = (cc, ap (λ p. p.1) h)

  uninstall_given-returned :
      (config : HarnessConfig) (c : ℕ) (n : Codes) (s : State lab) {x : Unit {0}} {s' : State lab}
      → uninstall_given lab config (some (c ∷ n)) s ≡ (returned x, s')
      → (removal : CompletedProcess) × Extends lab s
          (ran (uninstall (c ∷ n)) (returned removal) ∷ [])
          s'
  unfolding uninstall_given
  uninstall_given-returned config c n s h =
      let (removal, s₁, h₁, k₁) = >>-returned _ _ s h in
      let (_, e) = pure-returned lab tt s₁ k₁ in
      (
        removal,
        subst (λ t. Extends lab s (ran (uninstall (c ∷ n)) (returned removal) ∷ []) t) e
            (run_command-returned lab config (uninstall (c ∷ n)) s h₁),
      )

  -- What has run and is set when the snapshot was restored.
  pub record Rechecked (name : Codes) (s s' : State lab) : Type 0 where
    pub load : CompletedProcess
    pub ready : CompletedProcess
    pub path : CompletedProcess
    pub restored : Restores lab load ready
    pub absent_set : is_absent path ≡ s'.absent
    pub observations_kept : s'.observations ≡ s.observations
    pub outcome_kept : s'.outcome ≡ s.outcome
    pub package_kept : s'.apk_package ≡ s.apk_package
    pub before_kept : s'.before ≡ s.before
    pub sequence :
        s'.log
        ≡ (s.log ++ restore_entries lab load ready) ++ ran (package_path name) (returned path) ∷ []

  rechecked :
      {s s₁ s₂ s₃ s₄ s' : State lab} (name : Codes) (load ready path : CompletedProcess)
      (absent : Bool)
      → Restores lab load ready
      → Extends lab s (restore_entries lab load ready) s₁
      → s₂ ≡ record s₁ { after = passed }
      → s₂ ≡ s₃
      → is_absent path ≡ absent
      → Extends lab s₃ (ran (package_path name) (returned path) ∷ []) s₄
      → s' ≡ record s₄ { absent = absent }
      → Rechecked name s s'
  rechecked name load ready path absent restored (_, e₁) e₂ e₃ gone (_, e₄) e = record {
    load = load;
    ready = ready;
    path = path;
    restored = restored;
    absent_set = rw e gone;
    observations_kept = rw (e, e₄) (rw (← e₃) (rw (e₂, e₁) refl));
    outcome_kept = rw (e, e₄) (rw (← e₃) (rw (e₂, e₁) refl));
    package_kept = rw (e, e₄) (rw (← e₃) (rw (e₂, e₁) refl));
    before_kept = rw (e, e₄) (rw (← e₃) (rw (e₂, e₁) refl));
    sequence = rw (e, e₄) (rw (← e₃) (rw (e₂, e₁) refl));
  }

  restore_after-Rechecked :
      (config : HarnessConfig) (c : ℕ) (n : Codes) (s : State lab) {x : Unit {0}} {s' : State lab}
      → s.apk_package ≡ some (c ∷ n)
      → restore_after lab config s ≡ (returned x, s')
      → Rechecked (c ∷ n) s s'
  unfolding restore_after checked absent_given
  restore_after-Rechecked config c n s given h =
      let (_, s₁, h₁, k₁) = >>-returned _ _ s h in
      let (load, ready, restored, x₁) = restore_snapshot-returned lab config s h₁ in
      let (_, s₂, h₂, k₂) = >>-returned _ _ s₁ k₁ in
      let e₂ = modify-returned lab _ s₁ h₂ in
      let (name, s₃, h₃, k₃) = >>=-returned _ _ s₂ k₂ in
      let (same_name, e₃) = get_package-returned s₂ h₃ in
      let (absent, s₄, h₄, k₄) = >>=-returned _ _ s₃ k₃ in
      let named : name ≡ some (c ∷ n) = named_as load ready x₁ e₂ same_name in
      let h₄' = subst (λ t. absent_given lab config t s₃ ≡ (returned absent, s₄)) named h₄ in
      let (path, gone, x₄) = package_absent-returned lab config (c ∷ n) s₃ h₄' in
      rechecked (c ∷ n) load ready path absent restored x₁ e₂ e₃ gone x₄
        (modify-returned lab _ s₄ k₄)
    where
      named_as :
          (load ready : CompletedProcess) {s₁ s₂ : State lab} {name : Option Codes}
          → Extends lab s (restore_entries lab load ready) s₁
          → s₂ ≡ record s₁ { after = passed }
          → s₂.apk_package ≡ name
          → name ≡ some (c ∷ n)
      named_as load ready (_, e₁) e₂ same =
          sym same
          ∙ (ap (λ (t : State lab). t.apk_package) e₂
              ∙ (ap (λ (t : State lab). t.apk_package) e₁ ∙ given))

  -- Where the restore is reported as passed, it worked.
  handled-Rechecked :
      (name : Codes) (s : State lab) (r : Attempt (Unit {0}) × State lab) {x : Unit {0}}
      {s' : State lab}
      → ((s₁ : State lab) → r ≡ (returned tt, s₁) → Rechecked name s s₁)
      → handled (restore_failed lab) r ≡ (returned x, s')
      → s'.after ≡ passed
      → Rechecked name s s'
  unfolding restore_failed
  handled-Rechecked name s (returned y, s₁) h e a =
      subst (λ t. Rechecked name s t) (ap (λ p. p.1) e) (h s₁ refl)
  handled-Rechecked name s (raised exc, s₁) h e a =
      let (_, s₂, h₂, k₂) = >>-returned _ _ s₁ e in
      let e₂ = modify-returned lab _ s₁ h₂ in
      let e₃ = add_failure-returned lab _ _ _ s₂ k₂ in
      absurd (
        never (
          sym (ap (λ (t : State lab). t.after) e₂)
          ∙ (sym (ap (λ (t : State lab). t.after) e₃) ∙ a)))
    where
      never : failed ≡ passed → ⊥
      never e' = cc

  -- What the clean up has run where its restore is reported as passed.
  pub record CleanedUp (c : ℕ) (n : Codes) (s s' : State lab) : Type 0 where
    pub removal : CompletedProcess
    pub removed_state : State lab
    pub removed : Extends lab s (ran (uninstall (c ∷ n)) (returned removal) ∷ []) removed_state
    pub rechecking : Rechecked (c ∷ n) removed_state s'

  pub clean_up-CleanedUp :
      (config : HarnessConfig) (c : ℕ) (n : Codes) (s : State lab) {x : Unit {0}} {s' : State lab}
      → s.apk_package ≡ some (c ∷ n)
      → clean_up lab config s ≡ (returned x, s')
      → s'.after ≡ passed
      → CleanedUp c n s s'
  unfolding clean_up handle
  clean_up-CleanedUp config c n s {s'} given h a =
      let (name, s₁, h₁, k₁) = >>=-returned _ _ s h in
      let (same_name, e₁) = get_package-returned s h₁ in
      let (_, s₂, h₂, k₂) = >>-returned _ _ s₁ k₁ in
      let h₂' =
        subst (λ t. uninstall_given lab config t s₁ ≡ (returned tt, s₂)) (sym same_name ∙ given)
          h₂ in
      let (removal, x₂) = uninstall_given-returned config c n s₁ h₂' in
      let x₂' =
        subst (λ t. Extends lab t (ran (uninstall (c ∷ n)) (returned removal) ∷ []) s₂) (sym e₁)
          x₂ in
      record {
        removal = removal;
        removed_state = s₂;
        removed = x₂';
        rechecking =
            handled-Rechecked (c ∷ n) s₂ (restore_after lab config s₂)
              (λ s₃. restore_after-Rechecked config c n s₂ (kept removal x₂')) k₂ a;
      }
    where
      kept :
          (removal : CompletedProcess) {s₂ : State lab}
          → Extends lab s (ran (uninstall (c ∷ n)) (returned removal) ∷ []) s₂
          → s₂.apk_package ≡ some (c ∷ n)
      kept removal (_, e) = ap (λ (t : State lab). t.apk_package) e ∙ given
