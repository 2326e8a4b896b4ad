-- ===== src/JobRunner/Identity.antt =====
-- A run of drishti/pipeline.py keeps the id of its job, and its `on_event`.
use c_s_cool_stuff.Prelude.{
  Bool, String, Option, none, some, List, [], ◌∷◌, ◌++◌, ◌≡◌, refl, sym, subst,
}
use c_s_cool_stuff.Ledger.Evidence
use c_s_cool_stuff.Ledger.Platform.{Platform}
use c_s_cool_stuff.Ledger.Store.{open_job}
use c_s_cool_stuff.Pipeline.Stages.{JobStage, StageEvent, Job}
use c_s_cool_stuff.Pipeline.Bodies.{
  Exception, Outcome, returned, raised, Outside, Machine, append_node,
}
use c_s_cool_stuff.Pipeline.Stage.{
  Step, value_of, stage_failed, escaped, State, start_stage, complete_stage, fail_stage,
  note_failure, error_content,
}
use c_s_cool_stuff.Pipeline.{StageBodies, walk_stages, run_pipeline, conclude, with_trace_source}
unfoldable use c_s_cool_stuff.Pipeline.Stage.{start_stage, complete_stage, fail_stage, note_failure}
unfoldable use c_s_cool_stuff.Pipeline.{conclude, run_pipeline}
use c_s_cool_stuff.Pipeline.Steps.{After, stage_elim, outcome_elim}
use c_s_cool_stuff.Pipeline.Walk.{TraceFound, Carried, walk_stages-After}
unfoldable use c_s_cool_stuff.Pipeline.Steps.{After}
use c_s_cool_stuff.Pipeline.Course.{Anything, anything}

-- `on_event` is set.
abbrev pub Listening : Option (List StageEvent) → Type 0
Listening none = ⊥
Listening (some events) = Unit

Listening-extended :
    (emitted : Option (List StageEvent)) (e : StageEvent)
    → Listening emitted
    → Listening (elim emitted [ none ↦ none | some events ↦ some (events ++ e ∷ []) ])
Listening-extended (some events) e h = tt
Listening-extended none e h = h

module _ (p : Platform) (o : Outside p) where
  -- The run keeps the id of its job, and `on_event`.
  abbrev Named : String → State p o → Type 0
  Named id s = (s.job.id ≡ id) × Listening s.emitted

  abbrev NamedEscape : Exception → State p o → Type 0
  NamedEscape exc s = Unit

  fail_stage-Named :
      (id : String) (A : Type 0) (which : JobStage) (at : o.Instant) (exc : Exception)
      (s : State p o)
      → Named id s
      → After p o {A = A} (λ _. Named id) (Named id) NamedEscape (fail_stage p o which at exc s)
  unfolding fail_stage note_failure After
  fail_stage-Named id A which at exc s h =
      let clock = o.perf_counter s.machine.world in
      outcome_elim p o (After p o {A = A} (λ _. Named id) (Named id) NamedEscape)
        (append_node p o Evidence.error "pipeline" (error_content p o which exc) o.one
          (record s.machine { world = clock.1 }))
        (λ machine node. (
          note_failure p o which (o.elapsed_ms clock.0 at) exc node
              (record s { machine = machine }),
          stage_failed which,
        ))
        (λ machine other. (record s { machine = machine }, escaped other))
        (λ machine node same. (h.0, Listening-extended s.emitted _ h.1)) (λ machine other same. tt)

  start_stage-Named :
      (id : String) (which : JobStage) (s started : State p o) (w : o.World)
      → Named id s
      → started ≡ start_stage p o which (record s { machine = record s.machine { world = w } })
      → Named id started
  unfolding start_stage
  start_stage-Named id which s started w h e =
      subst (Named id) (sym e) (h.0, Listening-extended s.emitted _ h.1)

  Named-Carried :
      (id : String) (Found : Bool → Type 0)
      → Carried p o (Anything p o) (λ t. Named id) (Named id) NamedEscape Found
  unfolding After complete_stage start_stage
  Named-Carried id Found = record {
    keeps = λ which put body h. tt;
    carries = λ {A} t which body s next _ h.
        stage_elim p o (After p o {A = A} (λ _. Named id) (Named id) NamedEscape) which body s
          (λ started m at a same w e.
            let after = start_stage-Named id which s started w h e in
            (after.0, Listening-extended started.emitted _ after.1))
          (λ started m at exc same w e.
            fail_stage-Named id A which at exc (record started { machine = m })
              (start_stage-Named id which s started w h e));
    updates_prelim = λ x s h. h;
    updates_final = λ x s h. h;
  }

  abbrev pub KeepsId : String → State p o × Outcome (Job o.CompositeScore) → Type 0
  KeepsId id (s, returned ended) = (ended.id ≡ id) × Listening s.emitted
  KeepsId id (s, raised exc) = Unit

  conclude-id :
      (id : String) (end : State p o × Step (Unit {0}))
      → After p o (λ _. Named id) (Named id) NamedEscape end
      → KeepsId id (conclude p o end)
  unfolding conclude After
  conclude-id id (s, value_of a) h = h
  conclude-id id (s, stage_failed which) h = h
  conclude-id id (s, escaped exc) h = tt

  pub run_pipeline-id :
      (b : StageBodies p o) (job : Job o.CompositeScore) (m : Machine p o)
      (emitted : Option (List StageEvent))
      → Listening emitted
      → KeepsId job.id (run_pipeline p o b job m emitted)
  unfolding run_pipeline
  run_pipeline-id b job m emitted h =
      outcome_elim p o (KeepsId job.id)
        (with_trace_source p o b (record m { ledger = open_job p m.ledger job.id }))
        (λ m' _. conclude p o (walk_stages p o b job (first m'))) (λ m' exc. (first m', raised exc))
        (λ m' _ same. conclude-id job.id (walk_stages p o b job (first m')) (
          walk_stages-After p o (Anything p o) (λ t. Named job.id) (Named job.id) NamedEscape b job
            (Named-Carried job.id (TraceFound p o b job)) (first m') (anything p o b job) tt
            (refl, h)))
        (λ m' exc same. tt)
    where
      first : Machine p o → State p o
      first m' = record { job = job; history = []; machine = m'; emitted = emitted }
