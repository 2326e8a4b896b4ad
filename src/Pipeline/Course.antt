-- ===== src/Pipeline/Course.antt =====
-- The course of a run of drishti/pipeline.py, as its history tells it.
use c_s_cool_stuff.Prelude.{
  ℕ, String, Bool, Option, none, some, List, [], ◌∷◌, ◌++◌, ◌≡◌, refl, ap, sym, ◌∙◌, subst, arith,
  ◌⊎◌, inl, inr,
}
use c_s_cool_stuff.Ledger.Evidence
use c_s_cool_stuff.Ledger.Platform.{Platform}
use c_s_cool_stuff.Json.{Fields}
use c_s_cool_stuff.Ledger.Row.{EvidenceNode}
use c_s_cool_stuff.Ledger.Store.{LedgerStore, LedgerError, Result, ok, err, append, open_job}
use c_s_cool_stuff.Pipeline.Stages.{JobStage, StageEvent, Job, queued, report, failed}
use c_s_cool_stuff.Pipeline.Bodies.{
  Exception, Outcome, returned, raised, Outside, Machine, Body, append_node, after_append,
}
unfoldable use c_s_cool_stuff.Pipeline.Bodies.{append_node, after_append}
use c_s_cool_stuff.Pipeline.Stage.{
  Step, value_of, stage_failed, escaped, State, start_stage, note_failure, fail_stage,
  complete_stage,
}
use c_s_cool_stuff.Pipeline.{
  StageBodies, walk_stages, run_pipeline, conclude, attach, with_trace_source, choose_source,
}
unfoldable use c_s_cool_stuff.Pipeline.Stage.{start_stage, note_failure, fail_stage, complete_stage}
unfoldable use c_s_cool_stuff.Pipeline.{conclude, run_pipeline, attach, choose_source}
use c_s_cool_stuff.Pipeline.History.{
  marks, marks-snoc, Progress, begun, passed, Ended, finished, broken_off, Matches, Matches-snoc,
}
use c_s_cool_stuff.Pipeline.Steps.{Next, After, stage_elim, outcome_elim}
use c_s_cool_stuff.Pipeline.Walk.{TraceFound, BodiesMeet, Carried, walk_stages-After}
unfoldable use c_s_cool_stuff.Pipeline.Steps.{After}

module _ (p : Platform) (o : Outside p) where
  -- An exception of the ledger
  abbrev pub OfLedger : Exception → Type 0
  OfLedger exc = (e : LedgerError p.Float) × (o.exception_of e ≡ exc)

  after_append-OfLedger :
      (r : Result p.Float (LedgerStore p × EvidenceNode p)) (m m' : Machine p o) (exc : Exception)
      → after_append p o m r ≡ (m', raised exc)
      → OfLedger exc
  unfolding after_append
  after_append-OfLedger (ok (ledger, node)) m m' exc h = ground (arith, h)
  after_append-OfLedger (err e) m m' exc h = (e, ground (arith, h))

  append_node-OfLedger :
      (type : Evidence.EvidenceType) (tool : String) (content : Fields p.Float) (c : p.Float)
      (m m' : Machine p o) (exc : Exception)
      → append_node p o type tool content c m ≡ (m', raised exc)
      → OfLedger exc
  unfolding append_node
  append_node-OfLedger type tool content c m m' exc h =
      after_append-OfLedger
        (append p m.ledger (record {
          type = type;
          source_tool = tool;
          content = content;
          location = none;
          confidence = c;
          parents = [];
          node_id = (o.new_id m.world).0;
          timestamp = (o.now (o.new_id m.world).1).0;
        }))
        (record m { world = (o.now (o.new_id m.world).1).1 }) m' exc h

  -- Nothing is asked of the bodies.
  abbrev pub Anything : (A : Type 0) → JobStage → Body p o A → Type 0
  Anything A which body = Unit

  pub anything : (b : StageBodies p o) (job : Job o.CompositeScore) → BodiesMeet p o Anything b job
  anything b job = record {
    of_ingest = tt;
    of_static = λ meta. tt;
    of_ml = λ r. tt;
    of_genai = λ r. tt;
    of_prelim = tt;
    of_sandbox_1 = λ plan. tt;
    of_frontier = λ t. tt;
    of_sandbox_2 = λ plan. tt;
    of_genai_full = tt;
    of_final = tt;
  }

module _ (p : Platform) (o : Outside p) (Found : Bool → Type 0) where
  abbrev Follows : JobStage → State p o → Type 0
  Follows t s =
      Progress Found (marks s.history) t
      × (s.job.stage ≡ t)
      × (s.job.stage_history ≡ s.history)
      × Matches s.emitted s.history

  abbrev Broken : State p o → Type 0
  Broken s =
      Ended Found (marks s.history) failed
      × (s.job.stage ≡ failed)
      × (s.job.stage_history ≡ s.history)
      × Matches s.emitted s.history

  abbrev Escaped : Exception → State p o → Type 0
  Escaped exc s = OfLedger p o exc

  -- A stage has been started after those of `h`.
  abbrev Opened : List (JobStage × String) → JobStage → State p o → Type 0
  Opened h which s = (marks s.history ≡ h ++ (which, "started") ∷ []) × Matches s.emitted s.history

  start_stage-Opened :
      (which : JobStage) (s started : State p o) (w : o.World)
      → Matches s.emitted s.history
      → started ≡ start_stage p o which (record s { machine = record s.machine { world = w } })
      → Opened (marks s.history) which started
  unfolding start_stage
  start_stage-Opened which s started w h e =
      subst (Opened (marks s.history) which) (sym e)
        (marks-snoc s.history _, Matches-snoc s.emitted s.history _ h)

  complete_stage-Follows :
      (t which : JobStage) (h : List (JobStage × String)) (at : o.Instant) (s : State p o)
      → Progress Found h t
      → Next Found t which
      → Opened h which s
      → Follows which (complete_stage p o which at s)
  unfolding complete_stage
  complete_stage-Follows t which h at s progress next (e, m) = (
    subst (λ k. Progress Found k which)
        (sym (marks-snoc s.history _ ∙ ap (λ k. k ++ (which, "completed") ∷ []) e))
        (passed progress next),
    refl,
    refl,
    Matches-snoc s.emitted s.history _ m,
  )

  note_failure-Broken :
      (t which : JobStage) (h : List (JobStage × String)) (elapsed : ℕ) (exc : Exception)
      (node : EvidenceNode p) (s : State p o)
      → Progress Found h t
      → Next Found t which
      → Opened h which s
      → Broken (note_failure p o which elapsed exc node s)
  unfolding note_failure
  note_failure-Broken t which h elapsed exc node s progress next (e, m) = (
    subst (λ k. Ended Found k failed)
        (sym (marks-snoc s.history _ ∙ ap (λ k. k ++ (which, "failed") ∷ []) e))
        (broken_off progress next),
    refl,
    refl,
    Matches-snoc s.emitted s.history _ m,
  )

  fail_stage-Broken :
      (A : Type 0) (t which : JobStage) (h : List (JobStage × String)) (at : o.Instant)
      (exc : Exception) (s : State p o)
      → Progress Found h t
      → Next Found t which
      → Opened h which s
      → After p o {A = A} (λ _. Follows which) Broken Escaped (fail_stage p o which at exc s)
  unfolding fail_stage After
  fail_stage-Broken A t which h at exc s progress next opened =
      outcome_elim p o (After p o {A = A} (λ _. Follows which) Broken Escaped) _
        (λ machine node. (
          note_failure p o which (o.elapsed_ms (o.perf_counter s.machine.world).0 at) exc node
              (record s { machine = machine }),
          stage_failed which,
        ))
        (λ machine other. (record s { machine = machine }, escaped other))
        (λ machine node same.
          note_failure-Broken t which h _ exc node (record s { machine = machine }) progress next
            opened)
        (λ machine other same. append_node-OfLedger p o _ _ _ _ _ machine other same)

  Follows-Carried : Carried p o (Anything p o) Follows Broken Escaped Found
  unfolding After
  Follows-Carried = record {
    keeps = λ which put body h. tt;
    carries = λ {A} t which body s next _ (progress, st, hist, m).
        stage_elim p o (After p o {A = A} (λ _. Follows which) Broken Escaped) which body s
          (λ started machine at a same w e.
            complete_stage-Follows t which (marks s.history) at
              (record started { machine = machine }) progress next
              (start_stage-Opened which s started w m e))
          (λ started machine at exc same w e.
            fail_stage-Broken A t which (marks s.history) at exc
              (record started { machine = machine }) progress next
              (start_stage-Opened which s started w m e));
    updates_prelim = λ x s (progress, st, hist, m). (progress, refl, refl, m);
    updates_final = λ x s (progress, st, hist, m). (progress, refl, refl, m);
  }

module _ (p : Platform) (o : Outside p) where
  -- A job that `submit` has made: it has no stage behind it.
  abbrev pub IsNew : Job o.CompositeScore → Type 0
  IsNew job = (job.stage ≡ queued) × (job.stage_history ≡ [])

  -- The trace source could not be resolved.
  abbrev pub OfSource : StageBodies p o → Exception → Type 0
  OfSource b exc =
      (m : Machine p o) × (m' : Machine p o) × (b.resolve_trace_source m ≡ (m', raised exc))

  -- How a call of `run_pipeline` ends.
  abbrev pub Concluded :
      StageBodies p o → Job o.CompositeScore → State p o × Outcome (Job o.CompositeScore) → Type 0
  Concluded b of (s, returned job) =
      Ended (TraceFound p o b of) (marks job.stage_history) job.stage
      × Matches s.emitted job.stage_history
  Concluded b of (s, raised exc) = OfLedger p o exc ⊎ OfSource b exc

  conclude-Concluded :
      (b : StageBodies p o) (of : Job o.CompositeScore) (end : State p o × Step (Unit {0}))
      → After p o
          (λ _. Follows p o (TraceFound p o b of) report)
          (Broken p o (TraceFound p o b of))
          (Escaped p o (TraceFound p o b of))
          end
      → Concluded b of (conclude p o end)
  unfolding conclude After
  conclude-Concluded b of (s, value_of a) (progress, st, hist, m) = (finished progress, m)
  conclude-Concluded b of (s, stage_failed which) (ended, st, hist, m) = (
    subst (λ h. Ended (TraceFound p o b of) (marks h) s.job.stage) (sym hist)
        (subst (λ t. Ended (TraceFound p o b of) (marks s.history) t) (sym st) ended),
    subst (Matches s.emitted) (sym hist) m,
  )
  conclude-Concluded b of (s, escaped exc) h = inl h

  attach-OfSource :
      (b : StageBodies p o) (m m' : Machine p o) (exc : Exception)
      (x : Machine p o × Outcome o.TraceSource)
      → b.resolve_trace_source m ≡ x
      → attach p o x ≡ (m', raised exc)
      → OfSource b exc
  unfolding attach
  attach-OfSource b m m' exc (m1, returned source) e h = ground (arith, h)
  attach-OfSource b m m' exc (m1, raised other) e h =
      let same : other ≡ exc = ground (arith, h) in (m, m1, e ∙ ap (λ why. (m1, raised why)) same)

  choose_source-OfSource :
      (b : StageBodies p o) (given : Option o.TraceSource) (m m' : Machine p o) (exc : Exception)
      → choose_source p o b given m ≡ (m', raised exc)
      → OfSource b exc
  unfolding choose_source
  choose_source-OfSource b (some source) m m' exc h = ground (arith, h)
  choose_source-OfSource b none m m' exc h = attach-OfSource b m m' exc _ refl h

  -- Whatever the stages do, `run_pipeline` of a new job either returns it DONE, with the stages of a
  -- completed course in its history, or FAILED, with the stage that failed as its last; the frontier stages
  -- stand in it only if the first sandbox pass returns a trace that is evasive, and are passed over only if
  -- it returns one that is not; what `on_event` was called with is that history. An exception that escapes is one of the ledger, or was raised where
  -- the trace source is resolved.
  pub run_pipeline-Concluded :
      (b : StageBodies p o) (job : Job o.CompositeScore) (m : Machine p o)
      (emitted : Option (List StageEvent))
      → IsNew job
      → Matches emitted []
      → Concluded b job (run_pipeline p o b job m emitted)
  unfolding run_pipeline
  run_pipeline-Concluded b job m emitted (st, hist) h =
      outcome_elim p o (Concluded b job) (with_trace_source p o b opened)
        (λ m' _. conclude p o (walk_stages p o b job (first m'))) (λ m' exc. (first m', raised exc))
        (λ m' _ same. conclude-Concluded b job (walk_stages p o b job (first m')) (
          walk_stages-After p o (Anything p o) (Follows p o (TraceFound p o b job))
            (Broken p o (TraceFound p o b job)) (Escaped p o (TraceFound p o b job)) b job
            (Follows-Carried p o (TraceFound p o b job)) (first m') (anything p o b job) tt
            (begun, st, hist, h)))
        (λ m' exc same. inr (choose_source-OfSource b opened.trace_source opened m' exc same))
    where
      opened : Machine p o
      opened = record m { ledger = open_job p m.ledger job.id }

      first : Machine p o → State p o
      first m' = record { job = job; history = []; machine = m'; emitted = emitted }
