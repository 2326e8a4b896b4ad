-- ===== src/Pipeline/Chains.antt =====
-- The chains of the ledger after a run of drishti/pipeline.py.
use c_s_cool_stuff.Prelude.{
  Bool, String, Option, none, some, List, [], ◌≡◌, refl, ap, sym, subst, arith, length, eq_iff, ◌⊎◌,
}
use c_s_cool_stuff.Json.{Fields, obj}
use c_s_cool_stuff.Json.Keys.{DistinctKeys}
unfoldable use c_s_cool_stuff.Json.Keys.{DistinctKeys}
use c_s_cool_stuff.Ledger.Evidence
use c_s_cool_stuff.Ledger.Platform.{Platform, IsLawful}
use c_s_cool_stuff.Ledger.Row.{EvidenceNode}
use c_s_cool_stuff.Ledger.Store.{LedgerStore, Result, ok, err, Request, append, open_job, job_rows}
unfoldable use c_s_cool_stuff.Ledger.Store.{append, open_job}
use c_s_cool_stuff.Ledger.Chain.{intact, verify_chain}
use c_s_cool_stuff.Ledger.Chain.History.{
  AllChains, append-Accepted, Accepted-AllChains, AllChains-verify_chain,
}
use c_s_cool_stuff.Pipeline.Stages.{JobStage, StageEvent, Job, queued, report}
use c_s_cool_stuff.Pipeline.Bodies.{
  Exception, Outcome, returned, raised, Outside, Machine, Artefacts, Body, append_node,
  after_append,
}
unfoldable use c_s_cool_stuff.Pipeline.Bodies.{append_node, after_append}
use c_s_cool_stuff.Pipeline.Stage.{
  Step, value_of, stage_failed, escaped, State, start_stage, complete_stage, note_failure,
  fail_stage, error_content,
}
use c_s_cool_stuff.Pipeline.{
  StageBodies, keeping, report_content, record_report, walk_stages, run_pipeline, conclude,
  with_trace_source, choose_source, attach,
}
unfoldable use c_s_cool_stuff.Pipeline.Stage.{start_stage, complete_stage, note_failure, fail_stage}
unfoldable use c_s_cool_stuff.Pipeline.{
  keeping, conclude, run_pipeline, with_trace_source, choose_source, attach, record_report,
}
use c_s_cool_stuff.Pipeline.Steps.{After, stage_elim, outcome_elim}
use c_s_cool_stuff.Pipeline.Walk.{TraceFound, BodiesMeet, Carried, walk_stages-After}
unfoldable use c_s_cool_stuff.Pipeline.Steps.{After}

module _ (p : Platform) (o : Outside p) where
  -- Whatever the body does, the chains that it finds in the ledger it leaves there.
  abbrev pub KeepsChains : (A : Type 0) → JobStage → Body p o A → Type 0
  KeepsChains A which body =
      (m : Machine p o) → AllChains p m.ledger → AllChains p (body m).0.ledger

  DistinctKeys-report_content : (sha256 : String) → DistinctKeys (obj (report_content p o sha256))
  unfolding DistinctKeys
  DistinctKeys-report_content sha256 = (
    (λ e. ground (arith, (eq_iff "artefacts" "sha256").1 e), tt),
    tt,
    (tt, (tt, (tt, (tt, (tt, tt)))), tt),
  )

  DistinctKeys-error_content :
      (which : JobStage) (exc : Exception) → DistinctKeys (obj (error_content p o which exc))
  unfolding DistinctKeys
  DistinctKeys-error_content which exc =
      ((λ e. ground (arith, (eq_iff "error" "stage").1 e), tt), tt, (tt, tt, tt))

module _ (p : Platform) (o : Outside p) (lawful : IsLawful p) where
  abbrev Chained : State p o → Type 0
  Chained s = AllChains p s.machine.ledger

  after_append-AllChains :
      (m : Machine p o) (s : LedgerStore p) (r : Request p)
      (x : Result p.Float (LedgerStore p × EvidenceNode p))
      → m.ledger ≡ s
      → append p s r ≡ x
      → DistinctKeys (obj r.content)
      → AllChains p s
      → AllChains p (after_append p o m x).0.ledger
  unfolding after_append
  after_append-AllChains m s r (ok (ledger, node)) e f d h =
      Accepted-AllChains p lawful s r ledger (append-Accepted p s r ledger node f) d h
  after_append-AllChains m s r (err why) e f d h = subst (AllChains p) (sym e) h

  append_node-KeepsChains :
      (type : Evidence.EvidenceType) (tool : String) (content : Fields p.Float) (c : p.Float)
      → DistinctKeys (obj content)
      → (m : Machine p o) → AllChains p m.ledger
      → AllChains p (append_node p o type tool content c m).0.ledger
  unfolding append_node
  append_node-KeepsChains type tool content c d m h =
      after_append-AllChains _ m.ledger _ _ refl refl d h

  keeping-KeepsChains :
      (A : Type 0) (which : JobStage) (put : A → Artefacts p o → Artefacts p o) (body : Body p o A)
      → KeepsChains p o A which body
      → KeepsChains p o A which (keeping p o put body)
  unfolding keeping
  keeping-KeepsChains A which put body keeps m h =
      outcome_elim p o {A = A} {R = Machine p o × Outcome A} (λ end. AllChains p end.0.ledger)
        (body m) (λ m' a. (record m' { artefacts = put a m'.artefacts }, returned a))
        (λ m' exc. (m', raised exc))
        (λ m' a e. subst (λ out. AllChains p out.0.ledger) e (keeps m h))
        (λ m' exc e. subst (λ out. AllChains p out.0.ledger) e (keeps m h))

  record_report-KeepsChains :
      (sha256 : String) → KeepsChains p o (Unit {0}) report (record_report p o sha256)
  unfolding record_report
  record_report-KeepsChains sha256 m h =
      outcome_elim p o {A = EvidenceNode p} {R = Machine p o × Outcome (Unit {0})}
        (λ end. AllChains p end.0.ledger)
        (append_node p o Evidence.report_generated "m7_report" (report_content p o sha256) o.one m)
        (λ m' node. (m', returned tt)) (λ m' exc. (m', raised exc))
        (λ m' node e. subst (λ out. AllChains p out.0.ledger) e (kept m h))
        (λ m' exc e. subst (λ out. AllChains p out.0.ledger) e (kept m h))
    where
      kept :
          (m : Machine p o)
          → AllChains p m.ledger
          → AllChains p
              (append_node p o Evidence.report_generated "m7_report"
                (report_content p o sha256)
                o.one
                m).0.ledger
      kept m h =
          append_node-KeepsChains Evidence.report_generated "m7_report" (report_content p o sha256)
            o.one (DistinctKeys-report_content p o sha256) m h

  abbrev EscapedChained : Exception → State p o → Type 0
  EscapedChained exc s = Chained s

  fail_stage-Chained :
      (A : Type 0) (which : JobStage) (at : o.Instant) (exc : Exception) (s : State p o)
      → Chained s
      → After p o {A = A} (λ _. Chained) Chained EscapedChained (fail_stage p o which at exc s)
  unfolding fail_stage note_failure After
  fail_stage-Chained A which at exc s h =
      let clock = o.perf_counter s.machine.world in
      let machine : Machine p o = record s.machine { world = clock.1 } in
      let kept =
        append_node-KeepsChains Evidence.error "pipeline" (error_content p o which exc) o.one
          (DistinctKeys-error_content p o which exc) machine h in
      outcome_elim p o (After p o {A = A} (λ _. Chained) Chained EscapedChained)
        (append_node p o Evidence.error "pipeline" (error_content p o which exc) o.one machine)
        (λ machine' node. (
          note_failure p o which (o.elapsed_ms clock.0 at) exc node
              (record s { machine = machine' }),
          stage_failed which,
        ))
        (λ machine' other. (record s { machine = machine' }, escaped other))
        (λ machine' node e. subst (λ out. AllChains p out.0.ledger) e kept)
        (λ machine' other e. subst (λ out. AllChains p out.0.ledger) e kept)

  abbrev AtAny : JobStage → State p o → Type 0
  AtAny t s = Chained s

  start_stage-Chained :
      (which : JobStage) (s started : State p o) (w : o.World)
      → Chained s
      → started ≡ start_stage p o which (record s { machine = record s.machine { world = w } })
      → Chained started
  unfolding start_stage
  start_stage-Chained which s started w h e =
      subst (AllChains p) (ap (λ t. t.machine.ledger) (sym e)) h

  Chained-Carried :
      (Found : Bool → Type 0) → Carried p o (KeepsChains p o) AtAny Chained EscapedChained Found
  unfolding After complete_stage
  Chained-Carried Found = record {
    keeps = λ {A} which put body h. keeping-KeepsChains A which put body h;
    carries = λ {A} t which body s next keeps h.
        stage_elim p o (After p o {A = A} (λ _. Chained) Chained EscapedChained) which body s
          (λ started m at a same w e.
            subst (λ out. AllChains p out.0.ledger) same
              (keeps started.machine (start_stage-Chained which s started w h e)))
          (λ started m at exc same w e.
            fail_stage-Chained A which at exc (record started { machine = m })
              (subst (λ out. AllChains p out.0.ledger) same
                (keeps started.machine (start_stage-Chained which s started w h e))));
    updates_prelim = λ x s h. h;
    updates_final = λ x s h. h;
  }

  conclude-Chained :
      (end : State p o × Step (Unit {0}))
      → After p o (λ _. Chained) Chained EscapedChained end
      → Chained (conclude p o end).0
  unfolding conclude After
  conclude-Chained (s, value_of a) h = h
  conclude-Chained (s, stage_failed which) h = h
  conclude-Chained (s, escaped exc) h = h

  attach-Chained :
      (x : Machine p o × Outcome o.TraceSource)
      → AllChains p x.0.ledger
      → AllChains p (attach p o x).0.ledger
  unfolding attach
  attach-Chained (m, returned source) h = h
  attach-Chained (m, raised exc) h = h

  choose_source-Chained :
      (b : StageBodies p o) (given : Option o.TraceSource) (m : Machine p o)
      → KeepsChains p o o.TraceSource queued b.resolve_trace_source
      → AllChains p m.ledger
      → AllChains p (choose_source p o b given m).0.ledger
  unfolding choose_source
  choose_source-Chained b (some source) m keeps h = h
  choose_source-Chained b none m keeps h = attach-Chained (b.resolve_trace_source m) (keeps m h)

  run-Chained :
      (b : StageBodies p o) (job : Job o.CompositeScore) (m : Machine p o)
      (emitted : Option (List StageEvent))
      → BodiesMeet p o (KeepsChains p o) b job
      → KeepsChains p o o.TraceSource queued b.resolve_trace_source
      → AllChains p m.ledger
      → Chained (run_pipeline p o b job m emitted).0
  unfolding run_pipeline open_job
  run-Chained b job m emitted meet keeps h =
      outcome_elim p o {A = Unit {0}} {R = State p o × Outcome (Job o.CompositeScore)}
        (λ end. Chained end.0) (with_trace_source p o b opened)
        (λ m' _. conclude p o (walk_stages p o b job (first m'))) (λ m' exc. (first m', raised exc))
        (λ m' _ e. conclude-Chained (walk_stages p o b job (first m')) (
          walk_stages-After p o (KeepsChains p o) AtAny Chained EscapedChained b job
            (Chained-Carried (TraceFound p o b job)) (first m') meet
            (record_report-KeepsChains job.sha256)
            (subst (λ out. AllChains p out.0.ledger) e resolved)))
        (λ m' exc e. subst (λ out. AllChains p out.0.ledger) e resolved)
    where
      opened : Machine p o
      opened = record m { ledger = open_job p m.ledger job.id }

      resolved : AllChains p (with_trace_source p o b opened).0.ledger
      resolved = choose_source-Chained b opened.trace_source opened keeps h

      first : Machine p o → State p o
      first m' = record { job = job; history = []; machine = m'; emitted = emitted }

-- On a platform that keeps its laws, if what resolves the trace source and the bodies of the stages keep
-- every job's rows a chain, and they are chains before `run_pipeline`, then however it ends every job
-- that has rows verifies afterwards as an intact chain of all its rows.
pub run_pipeline-verify_chain :
    (p : Platform) (o : Outside p)
    → IsLawful p
    → (b : StageBodies p o) (job : Job o.CompositeScore) (m : Machine p o)
      (emitted : Option (List StageEvent))
    → BodiesMeet p o (KeepsChains p o) b job
    → KeepsChains p o o.TraceSource queued b.resolve_trace_source
    → AllChains p m.ledger
    → (id : String)
    → let ledger = (run_pipeline p o b job m emitted).0.machine.ledger in
      (job_rows p ledger.rows id ≡ [])
      ⊎ (verify_chain p ledger id ≡ intact (length (job_rows p ledger.rows id)))
run_pipeline-verify_chain p o lawful b job m emitted meet keeps h =
    AllChains-verify_chain p (run_pipeline p o b job m emitted).0.machine.ledger
      (run-Chained p o lawful b job m emitted meet keeps h)
