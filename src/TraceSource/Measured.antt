-- ===== src/TraceSource/Measured.antt =====
-- What stands behind a trace of `LiveSandboxSource.run`, and the reasons of its refusals.
use c_s_cool_stuff.Prelude.{
  ◌≡◌, refl, ◌≢◌, ◌↔◌, ℕ, Bool, true, false, not, Option, List, [], ◌∷◌, Codes, codes, same,
  same_iff, arith, ap, if◌then◌else◌,
}
use c_s_cool_stuff.Artifact.{ObservationArtifact, safe_for_ingestion}
use c_s_cool_stuff.Score.Inputs.{TraceSourceKind}
use c_s_cool_stuff.TraceSource.Gcloud.{Attempt, returned, raised, Failure, follow, follow-returned}
use c_s_cool_stuff.TraceSource.Detonator.{DetonatorClient, distinct, no_kinds}
use c_s_cool_stuff.TraceSource.Live.{
  unenumerated, failed_predicates, unsafe_reasons, Outcome, trace_of, unavailable, Unavailable,
  not_running, available, digest_of, drive, judge, run_available, run_live, detonation_failed,
  escaped, fails, refuses, containment_not_verified, unsafe_artifact,
}

module _ {W E Trace : Type 0} (client : DetonatorClient W E) (hash : W → Attempt Codes × W)
    (to_trace : ObservationArtifact E → TraceSourceKind → List Codes → W → Attempt Trace × W) where
  -- A trace of a run that was staged, detonated and collected in this order on a running detonator.
  pub record Measured (sha256 : Option Codes) (morphs : List Codes) (duration_s : ℕ) (w : W)
      (t : Trace) (w' : W) : Type 0 where
    pub w₁ : W
    pub w₂ : W
    pub w₃ : W
    pub w₄ : W
    pub w₅ : W
    pub digest : Codes
    pub artifact : ObservationArtifact E
    pub running : client.instance_state w ≡ (returned (codes "RUNNING"), w₁)
    pub hashed : digest_of client hash to_trace sha256 w₁ ≡ (returned digest, w₂)
    pub staged : client.stage digest w₂ ≡ (returned tt, w₃)
    pub detonated : client.detonate digest morphs duration_s w₃ ≡ (returned tt, w₄)
    pub collected : client.collect digest (not (no_kinds morphs)) w₄ ≡ (returned artifact, w₅)
    pub contained : artifact.metadata.containment_verified ≡ true
    pub safe : safe_for_ingestion artifact ≡ true
    pub ingested : to_trace artifact TraceSourceKind.live (distinct morphs) w₅ ≡ (returned t, w')

  judge-returned :
      (morphs : List Codes) (a : ObservationArtifact E) (w : W) {t : Trace} {w' : W}
      → judge client hash to_trace morphs a w ≡ (trace_of t, w')
      → (a.metadata.containment_verified ≡ true)
        × (safe_for_ingestion a ≡ true)
        × (to_trace a TraceSourceKind.live (distinct morphs) w ≡ (returned t, w'))
  unfolding judge
  judge-returned morphs a w {t} {w'} h =
      gates a.metadata.containment_verified (safe_for_ingestion a)
        (to_trace a TraceSourceKind.live (distinct morphs) w) h
    where
      gates :
          (contained safe : Bool) (r : Attempt Trace × W)
          → ◌≡◌ {A = Outcome Trace × W}
              (if not contained
                then (unavailable containment_not_verified, w)
                else if not safe
                then (unavailable (unsafe_artifact (unsafe_reasons a)), w)
                else follow r (λ why v. (unavailable (escaped why), v)) (λ t v. (trace_of t, v)))
              (trace_of t, w')
          → (contained ≡ true) × (safe ≡ true) × (r ≡ (returned t, w'))
      gates false safe r h' = cc
      gates true false r h' = cc
      gates true true (raised why, v) h' = cc
      gates true true (returned t', v) h' = (refl, refl, cc)

  available-running :
      (w : W) {w' : W}
      → available client hash to_trace w ≡ (true, w')
      → client.instance_state w ≡ (returned (codes "RUNNING"), w')
  unfolding available
  available-running w {w'} h = go (client.instance_state w) h
    where
      go :
          (r : Attempt Codes × W)
          → ◌≡◌ {A = Bool × W}
              (elim r.0 [
                | raised why ↦ (false, r.1)
                | returned s ↦ (same s (codes "RUNNING"), r.1)
              ])
              (true, w')
          → r ≡ (returned (codes "RUNNING"), w')
      go (raised why, v) h' = cc
      go (returned s, v) h' =
          let e : s ≡ codes "RUNNING" = (same_iff s (codes "RUNNING")).0 (ap (λ p. p.0) h') in
          let e' : v ≡ w' = ap (λ p. p.1) h' in rw (e, e') refl

  fails-ne :
      {A : Type 0} {a : A} {w' : W} (why : Failure) (v : W)
      → fails client hash to_trace {A = A} why v ≢ (returned a, w')
  fails-ne why v e = cc

  refuses-ne :
      {t : Trace} {w' : W} (because : Failure → Unavailable) (why : Failure) (v : W)
      → refuses client hash to_trace because why v ≢ (trace_of t, w')
  refuses-ne because why v e = cc

  -- `run` of a live source returns a trace only where the detonator runs and the sample was staged,
  -- detonated with the plan's morphs and collected, in this order; the artifact's containment is
  -- verified and it is safe to ingest, and the trace is the one made of this artifact, as a live one.
  pub run_live-Measured :
      (sha256 : Option Codes) (morphs : List Codes) (duration_s : ℕ) (w : W) (t : Trace) (w' : W)
      → run_live client hash to_trace sha256 morphs duration_s w ≡ (trace_of t, w')
      → Measured sha256 morphs duration_s w t w'
  unfolding run_live run_available drive
  run_live-Measured sha256 morphs duration_s w t w' h =
      let (running, h₁) = gate (available client hash to_trace w).0 _ h in
      let (digest, w₂, hashed, k₂) = follow-returned _ _ _ (refuses-ne escaped) h₁ in
      let (artifact, w₅, driven, k₅) = follow-returned _ _ _ (refuses-ne detonation_failed) k₂ in
      let (_, w₃, staged, k₃) = follow-returned _ _ _ fails-ne driven in
      let (_, w₄, detonated, k₄) = follow-returned _ _ _ fails-ne k₃ in
      let (contained, safe, ingested) = judge-returned morphs artifact w₅ k₅ in
      record {
        w₁ = (available client hash to_trace w).1;
        w₂ = w₂;
        w₃ = w₃;
        w₄ = w₄;
        w₅ = w₅;
        digest = digest;
        artifact = artifact;
        running = available-running w (ap (λ b. (b, (available client hash to_trace w).1)) running);
        hashed = hashed;
        staged = staged;
        detonated = detonated;
        collected = k₄;
        contained = contained;
        safe = safe;
        ingested = ingested;
      }
    where
      gate :
          (b : Bool) {x : Outcome Trace × W} (v : W)
          → (if b then x else (unavailable not_running, v)) ≡ (trace_of t, w')
          → (b ≡ true) × (x ≡ (trace_of t, w'))
      gate true v h' = (refl, h')
      gate false v h' = cc

-- The reason that none of the listed ones applies is given exactly when the artifact is safe to ingest,
-- so that a refusal always names a predicate that fails.
unsafe_reasons_iff :
    {E : Type 0} (a : ObservationArtifact E)
    → (unsafe_reasons a ≡ unenumerated ∷ []) ↔ (safe_for_ingestion a ≡ true)
unfolding unsafe_reasons failed_predicates safe_for_ingestion
unsafe_reasons_iff a = (λ h. ground arith, λ h. ground arith)
