-- ===== src/Examples/PipelineRuns.antt =====
-- Runs of drishti/pipeline.py and drishti/api/jobs.py with stages that do nothing, and with one that raises.
use c_s_cool_stuff.Prelude.{
  ℕ, String, true, false, none, some, List, [], ◌∷◌, ◌≡◌, refl, subst, ◌⊎◌, length,
}
use c_s_cool_stuff.Ledger.Store.{LedgerStore, open_job, job_rows}
unfoldable use c_s_cool_stuff.Ledger.Store.{
  append, job_rows, order_by_seq, exists, assert_parents_exist, new_row, next_link, is_duplicate,
  insert, require_job, open_job,
}
unfoldable use c_s_cool_stuff.Ledger.Evidence.{needs_grounding}
use c_s_cool_stuff.Ledger.Chain.{intact, verify_chain}
use c_s_cool_stuff.Pipeline.Stages.{
  JobStage, StageEvent, Job, queued, ingest, static, ml, genai_static, score_prelim, sandbox_1,
  frontier, sandbox_2, genai_full, score_final, report, done, failed,
}
use c_s_cool_stuff.Pipeline.Walk.{BodiesMeet}
use c_s_cool_stuff.Pipeline.Bodies.{Exception, Outcome, returned, raised, Outside, Machine, Body}
unfoldable use c_s_cool_stuff.Pipeline.Bodies.{append_node, after_append}
use c_s_cool_stuff.Pipeline.Stage.{State}
unfoldable use c_s_cool_stuff.Pipeline.Stage.{stage}
use c_s_cool_stuff.Pipeline.{StageBodies, run_pipeline, record_report}
unfoldable use c_s_cool_stuff.Pipeline.{run_pipeline, record_report}
use c_s_cool_stuff.Pipeline.Course.{Concluded, run_pipeline-Concluded}
use c_s_cool_stuff.Pipeline.Completion.{Completes, Serves, HealthyAfter, run_pipeline-Completes}
use c_s_cool_stuff.Pipeline.Chains.{KeepsChains, run_pipeline-verify_chain}
use c_s_cool_stuff.JobRunner.{Item, event, sentinel, Runner, stream, publish_all, machine_of}
unfoldable use c_s_cool_stuff.JobRunner.{look_up}
use c_s_cool_stuff.JobRunner.Queues.{items_of, stream-publish_all}
unfoldable use c_s_cool_stuff.JobRunner.Queues.{items_of, events_then_sentinel}
use c_s_cool_stuff.Examples.Flat.{flat, flat-IsLawful}

-- Clocks that stand still, and traces that are evasive.
abbrev still : Outside flat
still = record {
  World = ℕ;
  now = λ w. ("t", w);
  Instant = ℕ;
  perf_counter = λ w. (w, w);
  elapsed_ms = λ later earlier. 0;
  new_id = λ w. ("ev_1", w);
  one = 1;
  exception_of = λ e. record { class_name = "LedgerError"; text = "refused" };
  FileMeta = Unit {0};
  StaticReport = Unit {0};
  MlPrediction = Unit {0};
  GenaiVerdict = Unit {0};
  CompositeScore = ℕ;
  DynamicTrace = Unit {0};
  detonated = λ t. false;
  EvasionObservation = Unit {0};
  evasion_observations = λ t. tt ∷ [];
  Morph = Unit {0};
  TraceSource = Unit {0};
}

abbrev idle : Body flat still (Unit {0})
idle m = (m, returned tt)

abbrev calm : StageBodies flat still
calm = record {
  sandbox_duration_s = 60;
  resolve_trace_source = idle;
  ingest_file = λ sha256 filename. idle;
  static_analysis = λ meta. idle;
  ml_prediction = λ r. idle;
  genai_verdict = λ r sha256. idle;
  with_impersonation = λ v. idle;
  score_stage = λ which m. (m, returned 7);
  sandbox = λ which sha256 plan. idle;
  frontier_morphs = λ t id m. (m, returned []);
  genai_again = λ sha256. idle;
}

-- The upload is refused.
abbrev refusing : StageBodies flat still
refusing = record calm {
  ingest_file = λ sha256 filename m.
      (m, raised (record { class_name = "IngestRejectedError"; text = "file is empty" }));
}

abbrev new_job : Job ℕ
new_job = record {
  id = "job_1";
  sha256 = "ab";
  filename = "a.apk";
  stage = queued;
  created_at = "t";
  stage_history = [];
  preliminary = none;
  final = none;
  error = none;
}

abbrev store : LedgerStore flat
store = record { rows = []; key = tt; job = none }

abbrev machine : Machine flat still
machine = record (machine_of flat still store 0) { trace_source = some tt }

run_pipeline-Concluded_example :
    Concluded flat still calm new_job (run_pipeline flat still calm new_job machine (some []))
run_pipeline-Concluded_example =
    run_pipeline-Concluded flat still calm new_job machine (some []) (refl, refl) refl

abbrev job_of : Outcome (Job ℕ) → Job ℕ
job_of (returned job) = job
job_of (raised exc) = new_job

abbrev refused : State flat still × Outcome (Job ℕ)
refused = run_pipeline flat still refusing new_job machine (some [])

abbrev opened : LedgerStore flat
opened = record { rows = []; key = tt; job = some "job_1" }

abbrev IsOpened : LedgerStore flat → Type 0
IsOpened l = opened ≡ l

idle-HealthyAfter :
    (which : JobStage) (m : Machine flat still)
    → IsOpened m.ledger
    → HealthyAfter flat still IsOpened which m.ledger
idle-HealthyAfter report m h = tt
idle-HealthyAfter queued m h = h
idle-HealthyAfter ingest m h = h
idle-HealthyAfter static m h = h
idle-HealthyAfter ml m h = h
idle-HealthyAfter genai_static m h = h
idle-HealthyAfter score_prelim m h = h
idle-HealthyAfter sandbox_1 m h = h
idle-HealthyAfter frontier m h = h
idle-HealthyAfter sandbox_2 m h = h
idle-HealthyAfter genai_full m h = h
idle-HealthyAfter score_final m h = h
idle-HealthyAfter done m h = h
idle-HealthyAfter failed m h = h

calm-Serves : BodiesMeet flat still (Serves flat still IsOpened) calm new_job
calm-Serves = record {
  of_ingest = λ m h. (m, tt, refl, h);
  of_static = λ meta m h. (m, tt, refl, h);
  of_ml = λ r m h. (m, tt, refl, h);
  of_genai = λ r m h. (m, tt, refl, h);
  of_prelim = λ m h. (m, 7, refl, h);
  of_sandbox_1 = λ plan m h. (m, tt, refl, h);
  of_frontier = λ t m h. (m, [], refl, h);
  of_sandbox_2 = λ plan m h. (m, tt, refl, h);
  of_genai_full = λ m h. (m, tt, refl, h);
  of_final = λ m h. (m, 7, refl, h);
}

report-Serves : Serves flat still IsOpened (Unit {0}) report (record_report flat still "ab")
unfolding record_report append_node after_append append job_rows order_by_seq exists
    assert_parents_exist new_row next_link is_duplicate insert require_job needs_grounding
report-Serves m h =
    subst
      (λ l.
        (m' : Machine flat still) × (a : Unit {0}) × (record_report flat still "ab"
            (record m { ledger = l })
          ≡ (m', returned a))
        × Unit)
      h ((record_report flat still "ab" (record m { ledger = opened })).0, tt, refl, tt)

run_pipeline-Completes_example :
    Completes flat still IsOpened calm new_job
      (run_pipeline flat still calm new_job machine (some []))
unfolding open_job
run_pipeline-Completes_example =
    run_pipeline-Completes flat still IsOpened calm new_job machine (some []) (refl, refl) refl
      calm-Serves report-Serves refl

calm_keeps : BodiesMeet flat still (KeepsChains flat still) calm new_job
calm_keeps = record {
  of_ingest = λ m h. h;
  of_static = λ meta m h. h;
  of_ml = λ r m h. h;
  of_genai = λ r m h. h;
  of_prelim = λ m h. h;
  of_sandbox_1 = λ plan m h. h;
  of_frontier = λ t m h. h;
  of_sandbox_2 = λ plan m h. h;
  of_genai_full = λ m h. h;
  of_final = λ m h. h;
}

run_pipeline-verify_chain_example :
    let ledger = (run_pipeline flat still calm new_job machine (some [])).0.machine.ledger in
    (job_rows flat ledger.rows "job_1" ≡ [])
    ⊎ (verify_chain flat ledger "job_1" ≡ intact (length (job_rows flat ledger.rows "job_1")))
run_pipeline-verify_chain_example =
    run_pipeline-verify_chain flat still flat-IsLawful calm new_job machine (some []) calm_keeps
      (λ m h. h) (unfold job_rows order_by_seq in λ j. tt) "job_1"

abbrev runner : Runner ℕ
runner = record { jobs = ("job_1", new_job) ∷ []; queues = ("job_2", []) ∷ ("job_1", []) ∷ [] }

abbrev moment : JobStage → String → StageEvent
moment which status = record {
  stage = which;
  status = status;
  at = "t";
  duration_ms = none;
  message = none;
  ledger_seq = none;
}

-- Two workers publish in turn.
abbrev interleaved : List (String × Item)
interleaved =
    ("job_1", event (moment ingest "started"))
    ∷ ("job_2", event (moment ingest "started"))
    ∷ ("job_1", event (moment ingest "failed"))
    ∷ ("job_2", sentinel)
    ∷ ("job_1", sentinel)
    ∷ []

stream-publish_all_example :
    stream ℕ (publish_all ℕ runner interleaved) "job_1"
    ≡ record { events = moment ingest "started" ∷ moment ingest "failed" ∷ []; saw_sentinel = true }
unfolding look_up items_of events_then_sentinel
stream-publish_all_example =
    stream-publish_all ℕ "job_1" interleaved (moment ingest "started" ∷ moment ingest "failed" ∷ [])
      runner refl refl

abbrev unclosed : Exception
unclosed = record { class_name = "OperationalError"; text = "database is locked" }
