-- ===== src/TraceSource/Live.antt =====
-- `LiveSandboxSource` of drishti/m3_dynamic/trace_source.py, over any detonator client, and the choice of
-- a source. `hash` stands for `_sha256_of`, and `to_trace` for `artifact_to_trace` of
-- drishti/m3_dynamic/ingest.py, either of which may raise.
use c_s_cool_stuff.Prelude.{
  ℕ, Bool, false, not, Option, none, some, List, [], ◌∷◌, Codes, codes, same, if◌then◌else◌,
}
use c_s_cool_stuff.Artifact.{
  ObservationArtifact, RunOutcome, Restoration, SnapshotLifecycle, has_ended, is_given, is_passed,
  safe_for_ingestion,
}
use c_s_cool_stuff.Score.Inputs.{TraceSourceKind}
use c_s_cool_stuff.TraceSource.Gcloud.{Attempt, returned, raised, Failure, follow}
use c_s_cool_stuff.TraceSource.Detonator.{DetonatorClient, distinct, no_kinds}

-- The messages of `_unsafe_reasons`
pub data Reason : Type 0 where
  outcome_is : RunOutcome → Reason
  no_package not_contained no_manifest no_snapshot package_present unenumerated : Reason
  before_restore_is after_restore_is : Restoration → Reason

abbrev unless : Bool → Reason → List Reason → List Reason
unless good reason rest = if good then rest else reason ∷ rest

abbrev snapshot_reasons : Option SnapshotLifecycle → List Reason
snapshot_reasons none = no_snapshot ∷ []
snapshot_reasons (some s) =
    unless (is_passed s.before_restore) (before_restore_is s.before_restore) (
      unless (is_passed s.after_restore) (after_restore_is s.after_restore)
        (unless s.package_absent_after package_present []))

-- `_unsafe_reasons`, before it is kept from being empty
unfoldable pub failed_predicates : {E : Type 0} → ObservationArtifact E → List Reason
failed_predicates a = unless (has_ended a.outcome) (outcome_is a.outcome) (
    unless (is_given a.apk_package) no_package (
      unless a.metadata.containment_verified not_contained (
        unless (is_given a.metadata.containment_manifest_sha256) no_manifest
          (snapshot_reasons a.snapshot))))

abbrev or_unenumerated : List Reason → List Reason
or_unenumerated [] = unenumerated ∷ []
or_unenumerated (r ∷ rs) = r ∷ rs

-- `_unsafe_reasons`
unfoldable pub unsafe_reasons : {E : Type 0} → ObservationArtifact E → List Reason
unfolding failed_predicates
unsafe_reasons a = or_unenumerated (failed_predicates a)

-- Why `TraceSourceUnavailableError` is raised, or another exception.
pub data Unavailable : Type 0 where
  not_running : Unavailable
  detonation_failed : Failure → Unavailable
  containment_not_verified : Unavailable
  unsafe_artifact : List Reason → Unavailable
  escaped : Failure → Unavailable

pub data Outcome {ℓ} (A : Type ℓ) : Type ℓ where
  trace_of : A → Outcome A
  unavailable : Unavailable → Outcome A

module _ {W E Trace : Type 0} (client : DetonatorClient W E) (hash : W → Attempt Codes × W)
    (to_trace : ObservationArtifact E → TraceSourceKind → List Codes → W → Attempt Trace × W) where
  -- `available`: every exception of the probe counts as not running.
  unfoldable pub available : W → Bool × W
  available w =
      let (state, w') = client.instance_state w in
      elim state [ raised why ↦ (false, w') | returned s ↦ (same s (codes "RUNNING"), w') ]

  -- `sha256 or _sha256_of(apk_path)`
  unfoldable pub digest_of : Option Codes → W → Attempt Codes × W
  digest_of none w = hash w
  digest_of (some []) w = hash w
  digest_of (some (c ∷ s)) w = (returned (c ∷ s), w)

  abbrev pub fails {ℓ} : {A : Type ℓ} → Failure → W → Attempt A × W
  fails why w = (raised why, w)

  abbrev pub refuses : (Failure → Unavailable) → Failure → W → Outcome Trace × W
  refuses because why w = (unavailable (because why), w)

  -- The `try` of `run`: stage, detonate, collect
  unfoldable pub drive : Codes → List Codes → ℕ → W → Attempt (ObservationArtifact E) × W
  drive digest morphs duration_s w = follow (client.stage digest w) fails λ _ w₁.
      follow (client.detonate digest morphs duration_s w₁) fails
        λ _ w₂. client.collect digest (not (no_kinds morphs)) w₂

  -- The two gates, and the trace
  unfoldable pub judge : List Codes → ObservationArtifact E → W → Outcome Trace × W
  unfolding unsafe_reasons
  judge morphs artifact w =
      if not artifact.metadata.containment_verified
      then (unavailable containment_not_verified, w)
      else if not (safe_for_ingestion artifact)
      then (unavailable (unsafe_artifact (unsafe_reasons artifact)), w)
      else follow (to_trace artifact TraceSourceKind.live (distinct morphs) w) (refuses escaped)
          λ t w₁. (trace_of t, w₁)

  -- `run` once a detonator runs
  unfoldable pub run_available : Option Codes → List Codes → ℕ → W → Outcome Trace × W
  unfolding digest_of drive judge
  run_available sha256 morphs duration_s w =
      follow (digest_of sha256 w) (refuses escaped) λ digest w₁.
        follow (drive digest morphs duration_s w₁) (refuses detonation_failed) (judge morphs)

  -- `LiveSandboxSource.run`
  unfoldable pub run_live : Option Codes → List Codes → ℕ → W → Outcome Trace × W
  unfolding available run_available
  run_live sha256 morphs duration_s w =
      let (running, w') = available w in
      if running then run_available sha256 morphs duration_s w' else (unavailable not_running, w')

pub data Mode : Type 0 where
  live replay auto : Mode

-- `resolve_trace_source`, by the kind of the source; only `auto` asks whether the live one is available.
unfoldable pub resolve_trace_source : {W : Type 0} → (W → Bool × W) → Mode → W → TraceSourceKind × W
resolve_trace_source is_available Mode.live w = (TraceSourceKind.live, w)
resolve_trace_source is_available Mode.replay w = (TraceSourceKind.replay, w)
resolve_trace_source is_available auto w =
    let (up, w') = is_available w in
    if up then (TraceSourceKind.live, w') else (TraceSourceKind.replay, w')
