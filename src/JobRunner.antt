-- ===== src/JobRunner.antt =====
-- drishti/api/jobs.py: the jobs, the queue of events of each, and the worker that walks the pipeline.
-- A dictionary is the list of its entries. The thread pool, the lock and the time that a reader waits
-- are left out: a worker's calls of `_publish` come in any order among those of the others.
pub mod Queues
pub mod Identity
pub mod Worker
use c_s_cool_stuff.Prelude.{
  String, Bool, true, false, Option, none, some, List, [], ◌∷◌, ◌++◌, str_eq, map, if◌then◌else◌,
}
use Prim.Native.String
use c_s_cool_stuff.Ledger.Platform.{Platform}
use c_s_cool_stuff.Ledger.Store.{LedgerStore}
use c_s_cool_stuff.Pipeline.Stages.{JobStage, StageEvent, Job, queued, failed}
use c_s_cool_stuff.Pipeline.Bodies.{
  Exception, Outcome, returned, raised, Outside, Machine, Artefacts,
}
use c_s_cool_stuff.Pipeline.Stage.{State}
use c_s_cool_stuff.Pipeline.{StageBodies, run_pipeline}

-- What is put on the queue of a job: an event, or the sentinel `_DONE`.
pub data Item : Type 0 where
  event : StageEvent → Item
  sentinel : Item

-- `d.get(k)`
unfoldable pub look_up {ℓ} : {A : Type ℓ} → String → List (String × A) → Option A
look_up k [] = none
look_up k ((key, v) ∷ d) = if str_eq key k then some v else look_up k d

-- `d[k] = v`
unfoldable pub assign {ℓ} : {A : Type ℓ} → String → A → List (String × A) → List (String × A)
assign k v [] = (k, v) ∷ []
assign k v ((key, w) ∷ d) =
    let rest = assign k v d in if str_eq key k then (key, v) ∷ d else (key, w) ∷ rest

-- What `stream` yields, and whether it ended at the sentinel or by its timeout.
pub record Streamed : Type 0 where
  pub events : List StageEvent
  pub saw_sentinel : Bool

abbrev yield_first : StageEvent → Streamed → Streamed
yield_first e s = record { events = e ∷ s.events; saw_sentinel = s.saw_sentinel }

-- `stream`, on all that is ever put on the queue
unfoldable pub read_queue : List Item → Streamed
read_queue [] = record { events = []; saw_sentinel = false }
read_queue (sentinel ∷ items) = record { events = []; saw_sentinel = true }
read_queue (event e ∷ items) = yield_first e (read_queue items)

-- `events.put(item)`, where the job has a queue
unfoldable pub put_item : String → Item → List (String × List Item) → List (String × List Item)
put_item id item queues = elim (look_up id queues) [
  | none ↦ queues
  | some items ↦ assign id (items ++ item ∷ []) queues
]

module _ (CompositeScore : Type 0) where
  pub record Runner : Type 0 where
    pub jobs : List (String × Job CompositeScore)
    pub queues : List (String × List Item)

  -- `stream`; a job that has no queue yields nothing.
  unfoldable pub stream : Runner → String → Streamed
  unfolding read_queue
  stream r id = elim (look_up id r.queues) [
    | none ↦ record { events = []; saw_sentinel = false }
    | some items ↦ read_queue items
  ]

  -- `get`
  unfoldable pub get : Runner → String → Option (Job CompositeScore)
  get r id = look_up id r.jobs

  -- `list_jobs`
  unfoldable pub list_jobs : Runner → List (Job CompositeScore)
  list_jobs r = map (λ entry. entry.1) r.jobs

  -- `submit`, with what `new_id`, `_sha256` and `now` return
  unfoldable pub submit : String → String → String → String → Runner → Runner × Job CompositeScore
  submit id sha256 filename created_at r =
      let job : Job CompositeScore = record {
        id = id;
        sha256 = sha256;
        filename = filename;
        stage = queued;
        created_at = created_at;
        stage_history = [];
        preliminary = none;
        final = none;
        error = none;
      } in
      (record { jobs = assign id job r.jobs; queues = assign id [] r.queues }, job)

  -- The snapshot of a job after an event.
  unfoldable pub snapshot :
      String → Item → List (String × Job CompositeScore) → List (String × Job CompositeScore)
  snapshot id sentinel jobs = jobs
  snapshot id (event e) jobs = elim (look_up id jobs) [
    | none ↦ jobs
    | some job ↦
        assign id (record job { stage = e.stage; stage_history = job.stage_history ++ e ∷ [] }) jobs
  ]

  -- `_publish`
  unfoldable pub publish : Runner → String × Item → Runner
  unfolding snapshot put_item
  publish r (id, item) = record {
    jobs = snapshot id item r.jobs;
    queues = put_item id item r.queues;
  }

  -- Calls of `_publish`, one after another
  unfoldable pub publish_all : Runner → List (String × Item) → Runner
  publish_all r [] = r
  publish_all r (call ∷ calls) = publish_all (publish r call) calls

  -- `_store`
  unfoldable pub store : Runner → Job CompositeScore → Runner
  store r job = record r { jobs = assign job.id job r.jobs }

  -- The job that the handler of `_run` stores
  abbrev pub crashed_job : Runner → Job CompositeScore → Exception → Job CompositeScore
  crashed_job r job exc =
      let current : Job CompositeScore = elim (look_up job.id r.jobs) [
        | none ↦ job
        | some current ↦ current
      ] in
      record current { stage = failed; error = some (String.◌++◌ "runner: " exc.text) }

  -- The handler of `_run`
  unfoldable pub mark_crashed : Runner → Job CompositeScore → Exception → Runner
  mark_crashed r job exc = record r { jobs = assign job.id (crashed_job r job exc) r.jobs }

-- The calls of `_publish` for the events of one job
abbrev pub of_job : String → List StageEvent → List (String × Item)
of_job id [] = []
of_job id (e ∷ es) = (id, event e) ∷ of_job id es

module _ (p : Platform) (o : Outside p) where
  abbrev pub emitted_events : State p o → List StageEvent
  emitted_events s = elim s.emitted [ none ↦ [] | some events ↦ events ]

  abbrev pub after_run :
      Runner o.CompositeScore
      → Job o.CompositeScore
      → State p o × Outcome (Job o.CompositeScore)
      → Runner o.CompositeScore
  after_run r job (s, returned ended) =
      store o.CompositeScore (publish_all o.CompositeScore r (of_job job.id (emitted_events s)))
        ended
  after_run r job (s, raised exc) =
      mark_crashed o.CompositeScore
        (publish_all o.CompositeScore r (of_job job.id (emitted_events s))) job exc

  -- The `Context` of a run: no artefact yet, and no trace source
  abbrev pub machine_of : LedgerStore p → o.World → Machine p o
  machine_of ledger world =
      let artefacts : Artefacts p o = record {
        ingest = none;
        static = none;
        ml = none;
        genai = none;
        score = none;
        dynamic = none;
      } in
      record { ledger = ledger; artefacts = artefacts; trace_source = none; world = world }

  -- The `finally` of `_run` once the ledger is open: a close that raises leaves without the sentinel.
  abbrev pub close_and_tell :
      Outcome (Unit {0})
      → String
      → Runner o.CompositeScore
      → Runner o.CompositeScore × Outcome (Unit {0})
  close_and_tell (returned closed) id r = (publish o.CompositeScore r (id, sentinel), returned tt)
  close_and_tell (raised exc) id r = (r, raised exc)

  -- `_run`, on what the construction of its `LedgerStore` and the call of its `close` lead to
  unfoldable pub work :
      StageBodies p o
      → o.World
      → Outcome (LedgerStore p)
      → Outcome (Unit {0})
      → Job o.CompositeScore
      → Runner o.CompositeScore
      → Runner o.CompositeScore × Outcome (Unit {0})
  unfolding mark_crashed store publish_all publish run_pipeline
  work b world (raised exc) closing job r = (
    publish o.CompositeScore (mark_crashed o.CompositeScore r job exc) (job.id, sentinel),
    returned tt,
  )
  work b world (returned ledger) closing job r =
      close_and_tell closing job.id
        (after_run r job (run_pipeline p o b job (machine_of ledger world) (some [])))
