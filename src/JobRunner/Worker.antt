-- ===== src/JobRunner/Worker.antt =====
-- The worker of drishti/api/jobs.py, from the call of the pipeline to the end of the stream.
use c_s_cool_stuff.Prelude.{String, Bool, true, false, Option, none, some, List, [], ◌++◌, ◌≡◌, ◌⊎◌}
use Prim.Native.String
use c_s_cool_stuff.Ledger.Platform.{Platform}
use c_s_cool_stuff.Ledger.Store.{LedgerStore}
use c_s_cool_stuff.Pipeline.Stages.{StageEvent, Job, failed}
use c_s_cool_stuff.Pipeline.Bodies.{Exception, Outcome, returned, raised, Outside}
use c_s_cool_stuff.Pipeline.Stage.{State}
use c_s_cool_stuff.Pipeline.{StageBodies, run_pipeline}
unfoldable use c_s_cool_stuff.Pipeline.{run_pipeline}
use c_s_cool_stuff.Pipeline.Walk.{TraceFound}
use c_s_cool_stuff.Pipeline.History.{Ended, marks}
use c_s_cool_stuff.JobRunner.{
  look_up, Runner, stream, get, publish, publish_all, of_job, store, snapshot, mark_crashed, work,
  read_queue, emitted_events,
}
unfoldable use c_s_cool_stuff.JobRunner.{
  read_queue, look_up, stream, get, publish, publish_all, snapshot, store, mark_crashed, work,
}
use c_s_cool_stuff.JobRunner.Queues.{items_of, events_then_sentinel}
unfoldable use c_s_cool_stuff.JobRunner.Queues.{items_of, events_then_sentinel}

abbrev or_none : Option (List StageEvent) → List StageEvent
or_none none = []
or_none (some events) = events

module _ (p : Platform) (o : Outside p) where
  -- What a reader finds of a job whose worker has ended: a job that the pipeline returned, streamed as
  -- its history, or one that is FAILED with an error of the runner; `told` is whether the sentinel came.
  pub record Ends (b : StageBodies p o) (job : Job o.CompositeScore) (told : Bool)
      (r : Runner o.CompositeScore) : Type 0 where
    pub ended : Job o.CompositeScore
    pub streamed : List StageEvent
    pub is_stored : get o.CompositeScore r job.id ≡ some ended
    pub is_streamed :
        stream o.CompositeScore r job.id ≡ record { events = streamed; saw_sentinel = told }
    pub outcome :
        (Ended (TraceFound p o b job) (marks streamed) ended.stage
          × (streamed ≡ ended.stage_history))
        ⊎ ((ended.stage ≡ failed)
            × ((exc : Exception) × (ended.error ≡ some (String.◌++◌ "runner: " exc.text))))

  -- The runner once the events of the run have been published
  abbrev reported :
      Runner o.CompositeScore → Job o.CompositeScore → State p o → Runner o.CompositeScore
  reported r job s = publish_all o.CompositeScore r (of_job job.id (emitted_events p o s))

  -- The sentinel comes unless the ledger was opened and its close raised, and that exception leaves then.
  abbrev pub Told :
      Outcome (LedgerStore p) → Outcome (Unit {0}) → Bool → Outcome (Unit {0}) → Type 0
  Told (raised exc) closing told end = (told ≡ true) × (end ≡ returned tt)
  Told (returned ledger) (returned closed) told end = (told ≡ true) × (end ≡ returned tt)
  Told (returned ledger) (raised exc) told end = (told ≡ false) × (end ≡ raised exc)
