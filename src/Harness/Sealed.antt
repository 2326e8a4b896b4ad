-- ===== src/Harness/Sealed.antt =====
-- What stands behind an artifact of `DynamicHarness.run` that is safe to ingest.
use c_s_cool_stuff.Prelude.{
  ◌≡◌, refl, sym, ap, ◌∙◌, subst, Bool, true, ◌&&◌, some, List, [], ◌∷◌, Codes, ℕ, arith,
}
use c_s_cool_stuff.Artifact.{
  ObservationArtifact, Restoration, passed, is_passed, is_given, has_ended, safe_for_ingestion,
}
use c_s_cool_stuff.Harness.Guest.{
  returned, CompletedProcess, HarnessConfig, dump_badging, install_apk, snapshot_load,
  wait_for_device, package_path, uninstall, Lab, Entry, ran, collected, State, >>=-returned,
}
use c_s_cool_stuff.Harness.Steps.{search_package, is_installed, is_absent, is_zero}
use c_s_cool_stuff.Harness.Run.{
  observed_outcome, validate_all, sealed_run, admitted_run, artifact_of, start, run,
}
use c_s_cool_stuff.Harness.Inversion.{>>-returned, Restores}
use c_s_cool_stuff.Harness.Outcomes.{Unsafe}
use c_s_cool_stuff.Harness.Admitted.{IsAdmitted, admit-IsAdmitted}
use c_s_cool_stuff.Harness.Detonated.{Detonated}
use c_s_cool_stuff.Harness.Restored.{CleanedUp}
use c_s_cool_stuff.Harness.Ended.{sealed_run-returned}
use c_s_cool_stuff.Harness.Named.{name_parts, search_package-named}
use c_s_cool_stuff.Harness.Recorded.{recorded-returned}

module _ (lab : Lab) where
  open lab use {World, ObservationEvent}

  -- What a run leads to that goes well, the package cleaned up under the name `given`.
  abbrev pub sequence_of :
      CompletedProcess
      → CompletedProcess
      → CompletedProcess
      → CompletedProcess
      → Codes
      → List lab.Raw × List Codes
      → CompletedProcess
      → CompletedProcess
      → CompletedProcess
      → CompletedProcess
      → Codes
      → List (Entry lab)
  sequence_of load ready badging installation name found removal last_load last_ready path given =
      ran snapshot_load (returned load)
      ∷ ran wait_for_device (returned ready)
      ∷ ran dump_badging (returned badging)
      ∷ ran install_apk (returned installation)
      ∷ collected name (returned found)
      ∷ ran (uninstall given) (returned removal)
      ∷ ran snapshot_load (returned last_load)
      ∷ ran wait_for_device (returned last_ready)
      ∷ ran (package_path given) (returned path)
      ∷ []

  -- All that has run, in its order and with its results: a restore, the install, the collection, the
  -- uninstall, a restore again and the check that the package is gone; the artifact is what was seen.
  pub record IsSealed (artifact : ObservationArtifact ObservationEvent) (log : List (Entry lab))
      : Type 0 where
    pub name : Codes
    pub load : CompletedProcess
    pub ready : CompletedProcess
    pub badging : CompletedProcess
    pub installation : CompletedProcess
    pub found : List lab.Raw × List Codes
    pub removal : CompletedProcess
    pub last_load : CompletedProcess
    pub last_ready : CompletedProcess
    pub path : CompletedProcess
    pub restored : Restores lab load ready
    pub named : (is_zero badging.returncode ≡ true) × (search_package badging.stdout ≡ some name)
    pub installed : is_installed installation ≡ true
    pub restored_again : Restores lab last_load last_ready
    pub gone : is_absent path ≡ true
    pub package_set : artifact.apk_package ≡ some name
    pub observed : validate_all lab found.0 ≡ returned artifact.observations
    pub ended : artifact.outcome ≡ observed_outcome artifact.observations
    pub sequence :
        log
        ≡ sequence_of load ready badging installation name found removal last_load last_ready path
            name

  -- What an artifact takes from the last state.
  abbrev Reports : ObservationArtifact ObservationEvent → State lab → Type 0
  Reports a s =
      (a.apk_package ≡ s.apk_package) × (a.observations ≡ s.observations) × (a.outcome ≡ s.outcome)

  assemble :
      (s s' s'' : State lab) (c : ℕ) (n : Codes) (artifact : ObservationArtifact ObservationEvent)
      (d : Detonated lab s s')
      → d.name ≡ c ∷ n
      → CleanedUp lab c n s' s''
      → s.log ≡ []
      → Reports artifact s''
      → s''.absent ≡ true
      → IsSealed artifact s''.log
  assemble s s' s'' c n artifact d named k none_run (same_package, same_observations, same_outcome)
        gone =
      let p = d.preparation in
      let q = k.rechecking in
      let (_, e) = k.removed in
      record {
        name = d.name;
        load = p.load;
        ready = p.ready;
        badging = p.badging;
        installation = p.installation;
        found = d.found;
        removal = k.removal;
        last_load = q.load;
        last_ready = q.ready;
        path = q.path;
        restored = p.restored;
        named = (p.identified, p.named);
        installed = p.installed;
        restored_again = q.restored;
        gone = q.absent_set ∙ gone;
        package_set =
            same_package
            ∙ (q.package_kept
                ∙ (ap (λ (t : State lab). t.apk_package) e ∙ (d.package_kept ∙ p.package_set)));
        observed =
            d.observed
            ∙ ap returned (
                sym (
                  same_observations
                  ∙ (q.observations_kept ∙ ap (λ (t : State lab). t.observations) e)));
        ended =
            same_outcome
            ∙ (q.outcome_kept
                ∙ (ap (λ (t : State lab). t.outcome) e
                    ∙ (d.ended
                        ∙ ap observed_outcome (
                            sym (
                              same_observations
                              ∙ (q.observations_kept
                                  ∙ ap (λ (t : State lab). t.observations) e))))));
        sequence =
            rw (q.sequence, e, d.sequence, p.sequence, none_run)
              (subst
                (λ t.
                  sequence_of p.load p.ready p.badging p.installation d.name d.found k.removal
                    q.load q.ready q.path (c ∷ n)
                  ≡ sequence_of p.load p.ready p.badging p.installation d.name d.found k.removal
                      q.load q.ready q.path t)
                (sym named) refl);
      }

  safe_parts :
      (a b c d e f : Bool)
      → (a && (b && (true && (c && (d && (e && f)))))) ≡ true
      → (a ≡ true) × (e ≡ true) × (f ≡ true)
  safe_parts a b c d e f h = ground arith

  passed_of : (r : Restoration) → is_passed r ≡ true → r ≡ passed
  passed_of passed h = refl
  passed_of Restoration.failed h = cc
  passed_of Restoration.not_run h = cc

  assembled_from :
      (config : HarnessConfig) (image sha digest : Codes) (s s₂ : State lab)
      (artifact : ObservationArtifact ObservationEvent)
      → artifact ≡ artifact_of lab config image sha digest s₂
      → safe_for_ingestion artifact ≡ true
      → Unsafe lab s
      → s.log ≡ []
      → sealed_run lab config s ≡ (returned tt, s₂)
      → IsSealed artifact s₂.log
  unfolding artifact_of safe_for_ingestion
  assembled_from config image sha digest s s₂ artifact e safe u none_run h =
      let (ended, after_passed, gone) =
        safe_parts (has_ended s₂.outcome) (is_given s₂.apk_package) (is_given (some sha))
          (is_passed s₂.before) (is_passed s₂.after) s₂.absent
          (subst (λ a. safe_for_ingestion a ≡ true) e safe) in
      let (s', d, clean) = sealed_run-returned lab config s u h ended (passed_of _ after_passed) in
      let (c, n, named) = name_parts d.name (search_package-named _ d.preparation.named) in
      assemble s s' s₂ c n artifact d named
        (clean c n (d.package_kept ∙ (d.preparation.package_set ∙ ap some named))) none_run
        (ap (λ a. a.apk_package) e, ap (λ a. a.observations) e, ap (λ a. a.outcome) e) gone

  -- When `run` returns an artifact that is safe to ingest, the machine was admitted by a verified manifest
  -- of its own image, which the artifact names, and all that was run is a restore that worked, the
  -- install that succeeded, one collection, the uninstall, a restore that worked and the check that the
  -- package is gone, in this order; the observations are those collected, each of them validated.
  pub run-IsSealed :
      (config : HarnessConfig) (w : World) (artifact : ObservationArtifact ObservationEvent)
      (s' : State lab)
      → run lab config (start lab w) ≡ (returned artifact, s')
      → safe_for_ingestion artifact ≡ true
      → (image : Codes) × (sha : Codes) × IsAdmitted lab w image sha
        × (artifact.metadata.emulator_image ≡ image)
        × (artifact.metadata.containment_manifest_sha256 ≡ some sha)
        × IsSealed artifact s'.log
  unfolding run admitted_run start artifact_of
  run-IsSealed config w artifact s' h safe =
      let ((image, sha), s₁, h₁, k₁) = >>=-returned _ _ (start lab w) h in
      let (admitted, log_kept, outcome_kept) = admit-IsAdmitted lab (start lab w) h₁ in
      let (_, s₂, h₂, k₂) = >>-returned _ _ s₁ k₁ in
      let (digest, e, log_same) = recorded-returned lab config image sha s₂ k₂ in
      (
        image,
        sha,
        admitted,
        ap (λ a. a.metadata.emulator_image) e,
        ap (λ a. a.metadata.containment_manifest_sha256) e,
        subst (λ l. IsSealed artifact l) (sym log_same)
            (assembled_from config image sha digest s₁ s₂ artifact e safe
              (ap has_ended outcome_kept) log_kept h₂),
      )
