-- ===== src/Harness/Recorded.antt =====
-- The artifact that `run` of drishti/m3_dynamic/harness.py makes of its variables.
use c_s_cool_stuff.Prelude.{◌≡◌, refl, sym, ap, Codes}
use c_s_cool_stuff.Artifact.{ObservationArtifact}
use c_s_cool_stuff.Harness.Guest.{returned, HarnessConfig, Lab, State, >>=-returned}
use c_s_cool_stuff.Harness.Run.{recorded, artifact_of, get_state}
use c_s_cool_stuff.Harness.Inversion.{>>-returned}
use c_s_cool_stuff.Harness.Admitted.{outside-returned}
use c_s_cool_stuff.Harness.Detonated.{pure-returned}

module _ (lab : Lab) where
  open lab use {World, ObservationEvent}

  recorded_as :
      (config : HarnessConfig) (image sha digest : Codes) (s : State lab) {s₁ s₂ s₃ s' : State lab}
      {w w₃ : World} {artifact : ObservationArtifact ObservationEvent} {t : State lab}
      → s₁ ≡ record s { world = w }
      → t ≡ s₁
      → s₂ ≡ s₁
      → s₃ ≡ record s₂ { world = w₃ }
      → artifact_of lab config image sha digest t ≡ artifact
      → s₃ ≡ s'
      → (artifact ≡ artifact_of lab config image sha digest s) × (s'.log ≡ s.log)
  unfolding artifact_of
  recorded_as config image sha digest s e₁ e e₂ e₃ e₄ e₅ =
      (rw (← e₄) (rw (e, e₁) refl), rw (← e₅) (rw (e₃, e₂, e₁) refl))

  get_state-returned :
      (s : State lab) {t s' : State lab} → get_state lab s ≡ (returned t, s') → (t ≡ s) × (s' ≡ s)
  unfolding get_state
  get_state-returned s h = (cc, sym (ap (λ p. p.1) h))

  pub recorded-returned :
      (config : HarnessConfig) (image sha : Codes) (s : State lab)
      {artifact : ObservationArtifact ObservationEvent} {s' : State lab}
      → recorded lab config image sha s ≡ (returned artifact, s')
      → (digest : Codes) × (artifact ≡ artifact_of lab config image sha digest s) × (s'.log ≡ s.log)
  unfolding recorded
  recorded-returned config image sha s h =
      let (digest, s₁, h₁, k₁) = >>=-returned _ _ s h in
      let (_, _, e₁) = outside-returned lab _ s h₁ in
      let (t, s₂, h₂, k₂) = >>=-returned _ _ s₁ k₁ in
      let (e, e₂) = get_state-returned s₁ h₂ in
      let (_, s₃, h₃, k₃) = >>-returned _ _ s₂ k₂ in
      let (_, _, e₃) = outside-returned lab _ s₂ h₃ in
      let (e₄, e₅) = pure-returned lab _ s₃ k₃ in
      let (same_artifact, same_log) = recorded_as config image sha digest s e₁ e e₂ e₃ e₄ e₅ in
      (digest, same_artifact, same_log)
