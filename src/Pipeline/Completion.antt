-- ===== src/Pipeline/Completion.antt =====
-- A run of drishti/pipeline.py whose stages all return reaches DONE.
use c_s_cool_stuff.Prelude.{
  Bool, Option, none, some, List, [], ◌≡◌, refl, ap, sym, subst, ◌∙◌, arith,
}
use c_s_cool_stuff.Ledger.Platform.{Platform}
use c_s_cool_stuff.Ledger.Store.{LedgerStore, open_job}
use c_s_cool_stuff.Pipeline.Stages.{JobStage, StageEvent, Job, report, done}
use c_s_cool_stuff.Pipeline.Bodies.{
  Exception, Outcome, returned, raised, Outside, Machine, Artefacts, Body,
}
use c_s_cool_stuff.Pipeline.Stage.{
  Step, value_of, stage_failed, escaped, State, start_stage, complete_stage,
}
use c_s_cool_stuff.Pipeline.{
  StageBodies, keeping, walk_stages, record_report, run_pipeline, conclude, with_trace_source,
  choose_source, attach,
}
unfoldable use c_s_cool_stuff.Pipeline.Stage.{start_stage, complete_stage}
unfoldable use c_s_cool_stuff.Pipeline.{keeping, conclude, run_pipeline, choose_source, attach}
use c_s_cool_stuff.Pipeline.Steps.{
  Next, to_ingest, to_static, to_ml, to_genai_static, to_score_prelim, to_sandbox_1, to_frontier,
  to_sandbox_2, past_frontier, to_genai_full, to_score_final, to_report, After, stage_elim,
  outcome_elim,
}
use c_s_cool_stuff.Pipeline.Walk.{TraceFound, BodiesMeet, Carried, walk_stages-After}
unfoldable use c_s_cool_stuff.Pipeline.Steps.{After}
use c_s_cool_stuff.Pipeline.History.{Ended, marks, Matches}
use c_s_cool_stuff.Pipeline.Course.{IsNew, Concluded, run_pipeline-Concluded}

module _ (p : Platform) (o : Outside p) (Healthy : LedgerStore p → Type 0) where
  -- Nothing is asked of the ledger after the last stage.
  abbrev pub HealthyAfter : JobStage → LedgerStore p → Type 0
  HealthyAfter report ledger = Unit
  HealthyAfter which ledger = Healthy ledger

  -- The body of the stage returns from a healthy ledger, and leaves one for the stage after it.
  abbrev pub Serves : (A : Type 0) → JobStage → Body p o A → Type 0
  Serves A which body =
      (m : Machine p o)
      → Healthy m.ledger
      → (m' : Machine p o) × (a : A) × (body m ≡ (m', returned a)) × HealthyAfter which m'.ledger

  abbrev At : JobStage → State p o → Type 0
  At t s = HealthyAfter t s.machine.ledger

  abbrev Never : State p o → Type 0
  Never s = ⊥

  abbrev NeverEscapes : Exception → State p o → Type 0
  NeverEscapes exc s = ⊥

  keeping-Serves :
      (A : Type 0) (which : JobStage) (put : A → Artefacts p o → Artefacts p o) (body : Body p o A)
      → Serves A which body
      → Serves A which (keeping p o put body)
  unfolding keeping
  keeping-Serves A which put body serves m h =
      let (m', a, e, h') = serves m h in
      (record m' { artefacts = put a m'.artefacts }, a, ground (arith, e), h')

  Next-Healthy :
      (Found : Bool → Type 0) (t which : JobStage) (l : LedgerStore p)
      → Next Found t which
      → HealthyAfter t l
      → Healthy l
  Next-Healthy Found t which l to_ingest h = h
  Next-Healthy Found t which l to_static h = h
  Next-Healthy Found t which l to_ml h = h
  Next-Healthy Found t which l to_genai_static h = h
  Next-Healthy Found t which l to_score_prelim h = h
  Next-Healthy Found t which l to_sandbox_1 h = h
  Next-Healthy Found t which l (to_frontier found) h = h
  Next-Healthy Found t which l to_sandbox_2 h = h
  Next-Healthy Found t which l (past_frontier found) h = h
  Next-Healthy Found t which l to_genai_full h = h
  Next-Healthy Found t which l to_score_final h = h
  Next-Healthy Found t which l to_report h = h

  start_stage-ledger :
      (which : JobStage) (s started : State p o) (w : o.World)
      → started ≡ start_stage p o which (record s { machine = record s.machine { world = w } })
      → s.machine.ledger ≡ started.machine.ledger
  unfolding start_stage
  start_stage-ledger which s started w e = ap (λ t. t.machine.ledger) (sym e)

  -- What the body did is what it serves.
  served :
      (A : Type 0) (which : JobStage) (body : Body p o A) (m m' : Machine p o) (out : Outcome A)
      → Serves A which body
      → Healthy m.ledger
      → body m ≡ (m', out)
      → (a : A) × (out ≡ returned a) × HealthyAfter which m'.ledger
  served A which body m m' out serves h e =
      let (m1, a, same, h') = serves m h in
      let both : (m1, returned a) ≡ (m', out) = sym same ∙ e in
      (
        a,
        sym (ap (λ x. x.1) both),
        subst (λ x. HealthyAfter which x.ledger) (ap (λ x. x.0) both) h',
      )

  At-Carried : (Found : Bool → Type 0) → Carried p o Serves At Never NeverEscapes Found
  unfolding After complete_stage
  At-Carried Found = record {
    keeps = λ {A} which put body h. keeping-Serves A which put body h;
    carries = λ {A} t which body s next serves h.
        let healthy = Next-Healthy Found t which s.machine.ledger next h in
        stage_elim p o (After p o {A = A} (λ _. At which) Never NeverEscapes) which body s
          (λ started m at a same w e.
            (served A which body started.machine m (returned a) serves
              (subst Healthy (start_stage-ledger which s started w e) healthy) same).2)
          (λ started m at exc same w e.
            let (a, differ, _) =
              served A which body started.machine m (raised exc) serves
                (subst Healthy (start_stage-ledger which s started w e) healthy) same in
            let no : ⊥ = ground (arith, differ) in elim no [ ]);
    updates_prelim = λ x s h. h;
    updates_final = λ x s h. h;
  }

  -- The run returned its job DONE, after a course of stages that leads there.
  abbrev pub Completes :
      StageBodies p o → Job o.CompositeScore → State p o × Outcome (Job o.CompositeScore) → Type 0
  Completes b of (s, returned job) =
      (job.stage ≡ done)
      × Ended (TraceFound p o b of) (marks job.stage_history) done
      × Matches s.emitted job.stage_history
  Completes b of (s, raised exc) = ⊥

  abbrev IsDone : State p o × Outcome (Job o.CompositeScore) → Type 0
  IsDone (s, returned job) = job.stage ≡ done
  IsDone (s, raised exc) = ⊥

  conclude-IsDone :
      (end : State p o × Step (Unit {0}))
      → After p o (λ _. At report) Never NeverEscapes end
      → IsDone (conclude p o end)
  unfolding conclude After
  conclude-IsDone (s, value_of a) h = refl
  conclude-IsDone (s, stage_failed which) h = elim h [ ]
  conclude-IsDone (s, escaped exc) h = elim h [ ]

  IsDone-Completes :
      (b : StageBodies p o) (of : Job o.CompositeScore)
      (x : State p o × Outcome (Job o.CompositeScore))
      → IsDone x
      → Concluded p o b of x
      → Completes b of x
  IsDone-Completes b of (s, returned job) h (course, matches) =
      (h, subst (Ended (TraceFound p o b of) (marks job.stage_history)) h course, matches)
  IsDone-Completes b of (s, raised exc) h c = elim h [ ]

  -- There is a trace source, or `resolve_trace_source` returns one and leaves a healthy ledger.
  abbrev pub HasSource : StageBodies p o → Option o.TraceSource → Machine p o → Type 0
  HasSource b (some source) m = Healthy m.ledger
  HasSource b none m =
      (m' : Machine p o) × (source : o.TraceSource) × (b.resolve_trace_source m
        ≡ (m', returned source))
      × Healthy m'.ledger

  choose_source-returned :
      (b : StageBodies p o) (given : Option o.TraceSource) (m : Machine p o)
      → HasSource b given m
      → (m' : Machine p o) × (choose_source p o b given m ≡ (m', returned tt)) × Healthy m'.ledger
  unfolding choose_source attach
  choose_source-returned b (some source) m h = (m, refl, h)
  choose_source-returned b none m (m', source, same, h) =
      (record m' { trace_source = some source }, ap (attach p o) same, h)

  -- For a new job: if the body of every stage returns from every ledger of a kind, and leaves one of that
  -- kind for the next stage, if the report's node can be appended to such a ledger, and if there is a
  -- trace source or `resolve_trace_source` returns one, then `run_pipeline`, on a ledger that is of that
  -- kind once the job is opened and the source is there, returns the job DONE, with a history that leads
  -- to DONE and that `on_event` was called with.
  pub run_pipeline-Completes :
      (b : StageBodies p o) (job : Job o.CompositeScore) (m : Machine p o)
      (emitted : Option (List StageEvent))
      → IsNew p o job
      → Matches emitted []
      → BodiesMeet p o Serves b job
      → Serves (Unit {0}) report (record_report p o job.sha256)
      → HasSource b m.trace_source (record m { ledger = open_job p m.ledger job.id })
      → Completes b job (run_pipeline p o b job m emitted)
  unfolding run_pipeline
  run_pipeline-Completes b job m emitted new silent meet last sourced =
      IsDone-Completes b job (run_pipeline p o b job m emitted)
        (outcome_elim p o IsDone (with_trace_source p o b opened)
          (λ m' _. conclude p o (walk_stages p o b job (first m')))
          (λ m' exc. (first m', raised exc))
          (λ m' _ same.
            let (m1, chosen, h) = choose_source-returned b opened.trace_source opened sourced in
            let kept : m1 ≡ m' = ap (λ x. x.0) (sym chosen ∙ same) in
            conclude-IsDone (walk_stages p o b job (first m')) (
              walk_stages-After p o Serves At Never NeverEscapes b job
                (At-Carried (TraceFound p o b job)) (first m') meet last
                (subst (λ x. Healthy x.ledger) kept h)))
          (λ m' exc same.
            let (m1, chosen, h) = choose_source-returned b opened.trace_source opened sourced in
            let no : ⊥ = ground (arith, chosen, same) in elim no [ ]))
        (run_pipeline-Concluded p o b job m emitted new silent)
    where
      opened : Machine p o
      opened = record m { ledger = open_job p m.ledger job.id }

      first : Machine p o → State p o
      first m' = record { job = job; history = []; machine = m'; emitted = emitted }
