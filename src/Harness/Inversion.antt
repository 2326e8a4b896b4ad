-- ===== src/Harness/Inversion.antt =====
-- What the steps of `DynamicHarness` have run when they return.
use c_s_cool_stuff.Prelude.{
  ◌≡◌, refl, sym, ap, ◌∙◌, subst, Bool, true, false, not, Option, none, some, List, [], ◌∷◌, ◌++◌,
  append_assoc, Codes, arith,
}
use c_s_cool_stuff.Harness.Guest.{
  returned, Exception, CompletedProcess, HarnessConfig, Command, argv, snapshot_load,
  wait_for_device, dump_badging, install_apk, package_path, Lab, Entry, ran, collected, State,
  Action, pure, raise, raise_if, ◌>>◌, >>=-returned, run_command, collect,
}
use c_s_cool_stuff.Harness.Steps.{
  restore_snapshot, after_load, package_name, search_package, install, package_absent, is_loaded,
  is_zero, is_installed, is_absent, unidentified,
}

module _ {S : Type 0} where
  pub >>-returned {ℓ κ} :
      {A : Type ℓ} {B : Type κ} (m : Action S A) (next : Action S B) (s : S) {b : B} {s'' : S}
      → (m >> next) s ≡ (returned b, s'')
      → (a : A) × (s' : S) × (m s ≡ (returned a, s')) × (next s' ≡ (returned b, s''))
  unfolding ◌>>◌
  >>-returned m next s h = >>=-returned m (λ _. next) s h

  pub raise_if-returned :
      (b : Bool) (exc : Exception) (s : S) {x : Unit {0}} {s' : S}
      → raise_if b exc s ≡ (returned x, s')
      → (b ≡ false) × (s' ≡ s)
  unfolding raise_if pure raise
  raise_if-returned true exc s h = cc
  raise_if-returned false exc s h = (refl, cc)

module _ (lab : Lab) where
  -- `s'` is `s` after these entries, with what the world has become.
  abbrev pub Extends : State lab → List (Entry lab) → State lab → Type 0
  Extends s es s' = (w : lab.World) × (s' ≡ record s { world = w; log = s.log ++ es })

  pub Extends-trans :
      (s : State lab) {s' s'' : State lab} (es fs : List (Entry lab))
      → Extends s es s'
      → Extends s' fs s''
      → Extends s (es ++ fs) s''
  Extends-trans s {s'} {s''} es fs (w, e) (w', e') = (
    w',
    e'
        ∙ (ap (λ (t : State lab). record t { world = w'; log = t.log ++ fs }) e
            ∙ ap (λ l. record s { world = w'; log = l }) (append_assoc s.log es fs)),
  )

  pub run_command-returned :
      (config : HarnessConfig) (c : Command) (s : State lab) {r : CompletedProcess} {s' : State lab}
      → run_command lab config c s ≡ (returned r, s')
      → Extends s (ran c (returned r) ∷ []) s'
  unfolding run_command
  run_command-returned config c s {r} {s'} h = (
    _,
    sym (ap (λ p. p.1) h)
        ∙ ap
            (λ a. record s {
              world = (lab.command (argv config c) s.world).1;
              log = s.log ++ ran c a ∷ [];
            })
            (ap (λ p. p.0) h),
  )

  -- A restore that worked
  abbrev pub Restores : CompletedProcess → CompletedProcess → Type 0
  Restores load ready = (is_loaded lab load ≡ true) × (is_zero ready.returncode ≡ true)

  abbrev pub restore_entries : CompletedProcess → CompletedProcess → List (Entry lab)
  restore_entries load ready =
      ran snapshot_load (returned load) ∷ ran wait_for_device (returned ready) ∷ []

  denied_false : (b : Bool) → not b ≡ false → b ≡ true
  denied_false b h = ground arith

  pub restore_snapshot-returned :
      (config : HarnessConfig) (s : State lab) {x : Unit {0}} {s' : State lab}
      → restore_snapshot lab config s ≡ (returned x, s')
      → (load : CompletedProcess) × (ready : CompletedProcess) × Restores load ready
        × Extends s (restore_entries load ready) s'
  unfolding restore_snapshot after_load
  restore_snapshot-returned config s h =
      let (load, s₁, h₁, k₁) = >>=-returned _ _ s h in
      let (_, s₂, h₂, k₂) = >>-returned _ _ s₁ k₁ in
      let (loaded, e₂) = raise_if-returned _ _ s₁ h₂ in
      let (ready, s₃, h₃, k₃) = >>=-returned _ _ s₂ k₂ in
      let (recovered, e₃) = raise_if-returned _ _ s₃ k₃ in
      (
        load,
        ready,
        (denied_false _ loaded, denied_false _ recovered),
        subst (λ t. Extends s (restore_entries load ready) t) (sym e₃)
            (Extends-trans s _ _ (run_command-returned config snapshot_load s h₁) (
              subst (λ t. Extends t (ran wait_for_device (returned ready) ∷ []) s₃) e₂
                (run_command-returned config wait_for_device s₂ h₃))),
      )

  found-returned :
      (found : Option Codes) (s : State lab) {name : Codes} {s' : State lab}
      → (elim found as (λ _. Action (State lab) Codes) [
        | none ↦ raise (unidentified lab)
        | some n ↦ pure n
      ])
          s
        ≡ (returned name, s')
      → (found ≡ some name) × (s' ≡ s)
  unfolding raise pure
  found-returned none s h = cc
  found-returned (some n) s h = (cc, cc)

  pub package_name-returned :
      (config : HarnessConfig) (s : State lab) {name : Codes} {s' : State lab}
      → package_name lab config s ≡ (returned name, s')
      → (badging : CompletedProcess) × (is_zero badging.returncode ≡ true)
        × (search_package badging.stdout ≡ some name)
        × Extends s (ran dump_badging (returned badging) ∷ []) s'
  unfolding package_name
  package_name-returned config s h =
      let (badging, s₁, h₁, k₁) = >>=-returned _ _ s h in
      let (_, s₂, h₂, k₂) = >>-returned _ _ s₁ k₁ in
      let (ended, e₂) = raise_if-returned _ _ s₁ h₂ in
      let (found, e₃) = found-returned (search_package badging.stdout) s₂ k₂ in
      (
        badging,
        denied_false _ ended,
        found,
        subst (λ t. Extends s (ran dump_badging (returned badging) ∷ []) t) (sym (e₃ ∙ e₂))
            (run_command-returned config dump_badging s h₁),
      )

  pub install-returned :
      (config : HarnessConfig) (s : State lab) {x : Unit {0}} {s' : State lab}
      → install lab config s ≡ (returned x, s')
      → (installation : CompletedProcess) × (is_installed installation ≡ true)
        × Extends s (ran install_apk (returned installation) ∷ []) s'
  unfolding install
  install-returned config s h =
      let (installation, s₁, h₁, k₁) = >>=-returned _ _ s h in
      let (installed, e₂) = raise_if-returned _ _ s₁ k₁ in
      (
        installation,
        denied_false _ installed,
        subst (λ t. Extends s (ran install_apk (returned installation) ∷ []) t) (sym e₂)
            (run_command-returned config install_apk s h₁),
      )

  pub collect-returned :
      (name : Codes) (s : State lab) {found : List lab.Raw × List Codes} {s' : State lab}
      → collect lab name s ≡ (returned found, s')
      → Extends s (collected name (returned found) ∷ []) s'
  unfolding collect
  collect-returned name s h = (
    _,
    sym (ap (λ p. p.1) h)
        ∙ ap
            (λ a. record s {
              world = (lab.collector name s.world).1;
              log = s.log ++ collected name a ∷ [];
            })
            (ap (λ p. p.0) h),
  )

  pub package_absent-returned :
      (config : HarnessConfig) (name : Codes) (s : State lab) {absent : Bool} {s' : State lab}
      → package_absent lab config name s ≡ (returned absent, s')
      → (path : CompletedProcess) × (is_absent path ≡ absent)
        × Extends s (ran (package_path name) (returned path) ∷ []) s'
  unfolding package_absent pure
  package_absent-returned config name s h =
      let (path, s₁, h₁, k₁) = >>=-returned _ _ s h in
      (
        path,
        cc,
        subst (λ t. Extends s (ran (package_path name) (returned path) ∷ []) t) (ap (λ p. p.1) k₁)
            (run_command-returned config (package_path name) s h₁),
      )
