-- ===== src/Examples/SandboxRuns.antt =====
-- Runs of drishti/m3_dynamic/detonator.py, trace_source.py, evasion.py and c2_bundle.py on small inputs.
use c_s_cool_stuff.Prelude.{
  ℕ, pos, suc, ◌≤◌, ◌<◌, ◌≡◌, refl, ◌⊎◌, ◌↔◌, Bool, true, false, none, some, Option, List, [], ◌∷◌,
  length, Any, All, Codes, codes, same, is_in, ◌==◌, if◌then◌else◌,
}
unfoldable use c_s_cool_stuff.Prelude.{same, is_in}
use c_s_cool_stuff.Artifact.{ObservationArtifact, safe_for_ingestion}
unfoldable use c_s_cool_stuff.Artifact.{safe_for_ingestion}
use c_s_cool_stuff.Score.Inputs.{TraceSourceKind}
use c_s_cool_stuff.TraceSource.Gcloud.{
  CallResult, completed, timeout_expired, Attempt, returned, run_gcloud,
}
use c_s_cool_stuff.TraceSource.Retries.{Tried, run_gcloud-Tried}
unfoldable use c_s_cool_stuff.TraceSource.Gcloud.{run_gcloud, attempts, verdict_of}
use c_s_cool_stuff.TraceSource.Detonator.{DetonatorClient}
use c_s_cool_stuff.TraceSource.Live.{trace_of, run_live}
unfoldable use c_s_cool_stuff.C2Bundle.{matches, matches_after, build_c2_bundle, is_sha256}
unfoldable use c_s_cool_stuff.TraceSource.Live.{
  available, digest_of, drive, judge, run_available, run_live,
}
use c_s_cool_stuff.TraceSource.Replay.{
  ProvenanceKind, TraceFixture, Replayed, replayed, no_half, disclosure, run_replay,
}
unfoldable use c_s_cool_stuff.TraceSource.Replay.{
  run_replay, replay_half, declare, disclose, items_of, get,
}
use c_s_cool_stuff.TraceSource.Declared.{IsReplay, run_replay-IsReplay}
unfoldable use c_s_cool_stuff.GenerativeC2.Gate.{put}
use c_s_cool_stuff.TraceSource.Measured.{Measured, run_live-Measured}
use c_s_cool_stuff.Normaliser.{Event, aggregate}
use c_s_cool_stuff.Evasion.{detect}
use c_s_cool_stuff.Evasion.Verdicts.{IsProbe, detect-aggregate_iff}
use c_s_cool_stuff.GenerativeC2.{
  Value, bool, text, array, nil, cons, Entries, entry, end, C2ResponseKind,
}
use c_s_cool_stuff.GenerativeC2.Response.{Proposed, Served}
use c_s_cool_stuff.C2Bundle.{
  CapturedFlow, C2BundleEntry, C2Bundle, matches, GroundedHint, Recording, node, build_c2_bundle,
  by_host, is_sha256,
}
use c_s_cool_stuff.C2Bundle.Answers.{Best, matches-Best}
use c_s_cool_stuff.C2Bundle.Grounded.{Follows, Firsts, build_c2_bundle-Follows}
use c_s_cool_stuff.Examples.ScoreRuns.{millionths}
use c_s_cool_stuff.Examples.HarnessRuns.{artifact}

-- Two calls time out, the third one succeeds.
abbrev gcloud : List Codes → ℕ → ℕ → CallResult × ℕ
gcloud args timeout n =
    if n == 2
    then (completed (record { returncode = pos 0; stdout = []; stderr = [] }), suc n)
    else (timeout_expired, suc n)

run_gcloud-Tried_example :
    Tried
      (λ s. s)
      gcloud
      (λ n w. w)
      (codes "gcloud" ∷ [])
      60
      (0 ∷ [])
      3
      1
      0
      (run_gcloud (λ s. s) gcloud (λ n w. w) (codes "gcloud" ∷ []) 60 (0 ∷ []) 0)
run_gcloud-Tried_example =
    run_gcloud-Tried (λ s. s) gcloud (λ n w. w) (codes "gcloud" ∷ []) 60 (0 ∷ []) 0

third_call :
    run_gcloud (λ s. s) gcloud (λ n w. w) (codes "gcloud" ∷ []) 60 (0 ∷ []) 0
    ≡ (returned (record { returncode = pos 0; stdout = []; stderr = [] }), 3)
unfolding run_gcloud attempts verdict_of
third_call = refl

-- A client that counts its calls.
abbrev client : DetonatorClient ℕ (Unit {0})
client = record {
  instance_state = λ n. (returned (codes "RUNNING"), suc n);
  stage = λ digest n. (returned tt, suc n);
  detonate = λ digest morphs duration_s n. (returned tt, suc n);
  collect = λ digest morphed n. (returned artifact, suc n);
}

abbrev hash : ℕ → Attempt Codes × ℕ
hash n = (returned (codes "sample"), suc n)

-- The trace is the digest in the artifact.
abbrev to_trace :
    ObservationArtifact (Unit {0}) → TraceSourceKind → List Codes → ℕ → Attempt Codes × ℕ
to_trace a kind morphs n = (returned a.sha256, suc n)

live-trace :
    run_live client hash to_trace none (codes "geo" ∷ []) 60 0 ≡ (trace_of (codes "sample"), 6)
unfolding run_live run_available judge drive digest_of available safe_for_ingestion same
live-trace = refl

run_live-Measured_example :
    Measured client hash to_trace none (codes "geo" ∷ []) 60 0 (codes "sample") 6
run_live-Measured_example =
    run_live-Measured client hash to_trace none (codes "geo" ∷ []) 60 0 (codes "sample") 6
      live-trace

-- Only the operator of the SIM is read.
abbrev sim_read : Event
sim_read = record {
  technique = some "Device identity";
  mitre = some "T1426";
  source_hook = some "TelephonyManager.getSimOperator";
  hook = none;
  detail = some (codes "310260");
}

detect-aggregate_iff_example :
    let trace = aggregate millionths (sim_read ∷ []) in
    ((detect (λ s. s) trace.groups trace.total_events true).stalled ≡ true) ↔ (
      (true ≡ true)
      × ((sim_read ∷ [] ≡ [])
          ⊎ (Any (IsProbe (λ s. s)) trace.groups
              × (All (IsProbe (λ s. s)) trace.groups ⊎ (length (sim_read ∷ []) < 12)))))
detect-aggregate_iff_example = detect-aggregate_iff (λ s. s) millionths (sim_read ∷ []) true

-- Two flows of one host and one of another, for which there is no hint.
abbrev flow : Codes → Codes → CapturedFlow
flow host path = record { scheme = codes "http"; host = host; path = path }

abbrev flows : List CapturedFlow
flows =
    flow (codes "a.test") (codes "/gate?id=[REDACTED:token]")
    ∷ flow (codes "b.test") (codes "/")
    ∷ flow (codes "a.test") (codes "/next")
    ∷ []

abbrev hints : Codes → Option GroundedHint
hints host =
    if same host (codes "a.test")
    then some (record {
      hint = record {
        response_kind = C2ResponseKind.command_poll;
        command_key = some (codes "cmd");
        url_keys = codes "url" ∷ [];
      };
      evidence_refs = codes "ev_1" ∷ [];
    })
    else none

abbrev nothing_proposed : CapturedFlow → GroundedHint → ℕ → Option Proposed × ℕ
nothing_proposed f h n = (some (record { interval = none; id = none }), suc n)

abbrev ledger_node : CapturedFlow → Served (Unit {0}) → ℕ → Recording × ℕ
ledger_node f r n = (node (codes "ev_2"), suc n)

abbrev no_text : Value (Unit {0}) → Codes
no_text v = codes "{}"

abbrev digest : Codes
digest = codes "0123456789abcdef0123456789abcdef0123456789abcdef0123456789abcdef"

build_c2_bundle-Follows_example :
    let bundle =
      (build_c2_bundle
        (λ s. s)
        no_text
        nothing_proposed
        ledger_node
        (λ url host. true)
        hints
        25
        digest
        flows
        0).0 in
    let firsts = by_host (λ url host. true) [] flows in
    (length bundle.entries ≤ 25)
    × Follows (λ s. s) no_text nothing_proposed ledger_node hints firsts bundle.entries
    × Firsts (λ url host. true) [] firsts
    × ((bundle.entries ≡ []) ⊎ (is_sha256 digest ≡ true))
build_c2_bundle-Follows_example =
    build_c2_bundle-Follows (λ s. s) no_text nothing_proposed ledger_node (λ url host. true) hints
      25 digest flows 0

bundle_run :
    length
      (build_c2_bundle
        (λ s. s)
        no_text
        nothing_proposed
        ledger_node
        (λ url host. true)
        hints
        25
        digest
        flows
        0).0.entries
    ≡ 1
unfolding build_c2_bundle is_sha256 is_in
bundle_run = refl

abbrev response : Codes → C2BundleEntry
response path = record {
  host = codes "a.test";
  path_prefix = path;
  response_kind = C2ResponseKind.command_poll;
  served_body = codes "{}";
  is_payload_url = false;
  derived_from = codes "ev_1" ∷ [];
}

abbrev bundle : C2Bundle
bundle = record { sha256 = digest; entries = response (codes "/") ∷ response (codes "/gate") ∷ [] }

matches-Best_example :
    Best
      (codes "a.test")
      (codes "/gate.php")
      bundle.entries
      (matches bundle (codes "a.test") (codes "/gate.php"))
matches-Best_example = matches-Best (codes "a.test") (codes "/gate.php") bundle

longest_answers :
    matches bundle (codes "a.test") (codes "/gate.php") ≡ some (response (codes "/gate"))
unfolding matches matches_after same
longest_answers = refl

-- A fixture whose first half claims to be live.
abbrev fixture : TraceFixture (Unit {0})
fixture = record {
  provenance_kind = ProvenanceKind.hand_authored;
  pre_morph = entry (codes "source") (text (codes "live")) end;
  post_morph = end;
}

abbrev no_float : Unit {0} → Bool
no_float x = true

abbrev one_fixture : Codes → Option Codes
one_fixture name = some (codes "{}")

abbrev read_fixture : Codes → Attempt (TraceFixture (Unit {0}))
read_fixture content = returned fixture

-- The contract lets every trace pass.
abbrev as_given : Entries (Unit {0}) → Attempt (Entries (Unit {0}))
as_given half = returned half

abbrev replay : Option Codes → List Codes → Replayed (Entries (Unit {0}))
replay = run_replay no_float one_fixture read_fixture (returned digest) (codes "run_1") as_given

abbrev replayed_half : Entries (Unit {0})
replayed_half = entry (codes "source") (text (codes "replay")) (
    entry (codes "run_id") (text (codes "run_1")) (
      entry (codes "synthetic") (bool true) (
        entry (codes "morphs_applied") (array nil) (
          entry (codes "partial") (bool true)
            (entry (codes "errors") (array (cons (text disclosure) nil)) end)))))

replay-half : replay none [] ≡ replayed replayed_half
unfolding run_replay replay_half declare disclose items_of get put same
replay-half = refl

run_replay-IsReplay_example :
    IsReplay no_float one_fixture read_fixture
      (returned digest)
      (codes "run_1")
      as_given
      none
      []
      replayed_half
run_replay-IsReplay_example =
    run_replay-IsReplay no_float one_fixture read_fixture (returned digest) (codes "run_1") as_given
      none [] replayed_half replay-half

-- No half, no trace.
replay_no_half : replay none (codes "geo" ∷ []) ≡ no_half
unfolding run_replay replay_half
replay_no_half = refl
