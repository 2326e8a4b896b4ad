-- ===== src/Pipeline/Stage.antt =====
-- `stage` of drishti/pipeline.py: a stage is timed, the job moves to it, and what its body raises becomes an
-- ERROR node. `Job` is a frozen contract, so a run carries the job and its history.
use c_s_cool_stuff.Prelude.{ℕ, String, Bool, true, false, Option, none, some, List, [], ◌∷◌, ◌++◌}
use Prim.Native.String
use c_s_cool_stuff.Json.{Fields, field, end, str}
use c_s_cool_stuff.Ledger.Evidence
use c_s_cool_stuff.Ledger.Platform.{Platform}
use c_s_cool_stuff.Ledger.Row.{EvidenceNode}
use c_s_cool_stuff.Pipeline.Stages.{JobStage, value, StageEvent, Job, failed}
use c_s_cool_stuff.Pipeline.Bodies.{
  Exception, returned, raised, Outside, Machine, Body, append_node,
}

-- What a piece of `run_pipeline` leads to: a value, `StageFailedError`, or any other exception.
pub data Step {ℓ} (A : Type ℓ) : Type ℓ where
  value_of : A → Step A
  stage_failed : JobStage → Step A
  escaped : Exception → Step A

abbrev pub is_empty {ℓ} : {A : Type ℓ} → List A → Bool
is_empty [] = true
is_empty (x ∷ xs) = false

abbrev or_keep {ℓ} : {A : Type ℓ} → Option A → Option A → Option A
or_keep none before = before
or_keep (some a) before = some a

module _ (p : Platform) (o : Outside p) where
  open o use {World, now, perf_counter, elapsed_ms, one, CompositeScore}

  -- `_Run` and `Context`: the job and its history, what the stages share, and the events that
  -- `on_event` has been called with, `none` where it is not set.
  pub record State : Type 0 where
    pub job : Job CompositeScore
    pub history : List StageEvent
    pub machine : Machine p o
    pub emitted : Option (List StageEvent)

  abbrev pub Pipe {ℓ} : Type ℓ → Type ℓ
  Pipe A = State → State × Step A

  infixl 5 ◌>>=◌ ◌>>◌
  abbrev pub ◌>>=◌ {ℓ κ} : {A : Type ℓ} {B : Type κ} → Pipe A → (A → Pipe B) → Pipe B
  before >>= next = λ s.
      let (s', step) = before s in
      elim step [
        | value_of a ↦ next a s'
        | stage_failed which ↦ (s', stage_failed which)
        | escaped exc ↦ (s', escaped exc)
      ]

  abbrev pub ◌>>◌ {ℓ κ} : {A : Type ℓ} {B : Type κ} → Pipe A → Pipe B → Pipe B
  before >> after = before >>= λ _. after

  -- `run.with_stage(which, **changes)`
  abbrev pub with_stage : JobStage → (Job CompositeScore → Job CompositeScore) → State → State
  with_stage which changes s = record s {
    job = changes (record s.job { stage = which; stage_history = s.history });
  }

  -- `run.history.append(event)`
  abbrev pub append_history : StageEvent → State → State
  append_history event s = record s { history = s.history ++ event ∷ [] }

  -- `ctx.emit(event)`
  abbrev pub emit : StageEvent → State → State
  emit event s = record s {
    emitted = elim s.emitted [ none ↦ none | some events ↦ some (events ++ event ∷ []) ];
  }

  abbrev pub no_changes : Job CompositeScore → Job CompositeScore
  no_changes j = j

  -- `type(exc).__name__: exc`
  abbrev described : Exception → String
  described exc = String.◌++◌ exc.class_name (String.◌++◌ ": " exc.text)

  abbrev pub error_content : JobStage → Exception → Fields p.Float
  error_content which exc =
      field "stage" (str (value which)) (field "error" (str (described exc)) end)

  abbrev with_world : World → State → State
  with_world w s = record s { machine = record s.machine { world = w } }

  -- `stage`, before the body
  unfoldable pub start_stage : JobStage → State → State
  start_stage which s =
      let (at, world) = now s.machine.world in
      let event : StageEvent = record {
        stage = which;
        status = "started";
        at = at;
        duration_ms = none;
        message = none;
        ledger_seq = none;
      } in
      emit event (with_stage which no_changes (append_history event (with_world world s)))

  -- The job failed with the ERROR node `node`.
  unfoldable pub note_failure : JobStage → ℕ → Exception → EvidenceNode p → State → State
  note_failure which elapsed exc node s =
      let (at, world) = now s.machine.world in
      let event : StageEvent = record {
        stage = which;
        status = "failed";
        at = at;
        duration_ms = some elapsed;
        message = some (String.◌++◌ (value which) (String.◌++◌ " failed: " exc.class_name));
        ledger_seq = some node.seq;
      } in
      let because : Job CompositeScore → Job CompositeScore =
        λ j. record j { error = some (String.◌++◌ (value which) (String.◌++◌ ": " exc.text)) } in
      emit event (with_stage failed because (append_history event (with_world world s)))

  -- `stage`, the handler of what the body raised. An exception of its own `append` escapes.
  unfoldable pub fail_stage : {A : Type 0} → JobStage → o.Instant → Exception → Pipe A
  unfolding note_failure
  fail_stage which started exc s =
      let (ended, world) = perf_counter s.machine.world in
      let (machine, outcome) =
        append_node p o Evidence.error "pipeline" (error_content which exc) one
          (record s.machine { world = world }) in
      let s' = record s { machine = machine } in
      elim outcome [
        | raised other ↦ (s', escaped other)
        | returned node ↦
            (note_failure which (elapsed_ms ended started) exc node s', stage_failed which)
      ]

  -- `stage`, after the body
  unfoldable pub complete_stage : JobStage → o.Instant → State → State
  complete_stage which started s =
      let (ended, world) = perf_counter s.machine.world in
      let (at, world') = now world in
      let event : StageEvent = record {
        stage = which;
        status = "completed";
        at = at;
        duration_ms = some (elapsed_ms ended started);
        message = none;
        ledger_seq = none;
      } in
      emit event (with_stage which no_changes (append_history event (with_world world' s)))

  -- `with stage(run, ctx, which): body`
  unfoldable pub stage : {A : Type 0} → JobStage → Body p o A → Pipe A
  unfolding start_stage fail_stage complete_stage
  stage which body s =
      let (started, world) = perf_counter s.machine.world in
      let s' = start_stage which (with_world world s) in
      let (machine, outcome) = body s'.machine in
      let s'' = record s' { machine = machine } in
      elim outcome [
        | returned a ↦ (complete_stage which started s'', value_of a)
        | raised exc ↦ fail_stage which started exc s''
      ]
