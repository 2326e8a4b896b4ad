-- ===== src/Pipeline/Evidenced.antt =====
-- What a run of drishti/pipeline.py leaves in the ledger: the ERROR node of a stage that failed, and
-- chains that verify.
use c_s_cool_stuff.Prelude.{String, none, some, List, [], ◌∷◌, ◌++◌, ◌≡◌}
use Prim.Native.String
use c_s_cool_stuff.Json.{Fields, obj}
use c_s_cool_stuff.Ledger.Evidence
use c_s_cool_stuff.Ledger.Platform.{Platform}
use c_s_cool_stuff.Ledger.Row.{Row, EvidenceNode, canonical_json}
use c_s_cool_stuff.Ledger.Store.{LedgerStore, Request, append, new_row}
unfoldable use c_s_cool_stuff.Ledger.Store.{append, new_row}
use c_s_cool_stuff.Pipeline.Stages.{JobStage, value, StageEvent}
use c_s_cool_stuff.Pipeline.Bodies.{Exception, Outside, Machine, append_node, after_append}
unfoldable use c_s_cool_stuff.Pipeline.Bodies.{append_node, after_append}
use c_s_cool_stuff.Pipeline.Stage.{State, note_failure, fail_stage, error_content}
use c_s_cool_stuff.Pipeline.{run_pipeline, conclude}
unfoldable use c_s_cool_stuff.Pipeline.Stage.{note_failure, fail_stage}
unfoldable use c_s_cool_stuff.Pipeline.{conclude, run_pipeline}
use c_s_cool_stuff.Pipeline.Steps.{After}
unfoldable use c_s_cool_stuff.Pipeline.Steps.{After}

module _ (p : Platform) (o : Outside p) where
  -- The request that `append_node` makes of the ledger.
  abbrev request :
      Evidence.EvidenceType → String → Fields p.Float → p.Float → Machine p o → Request p
  request type tool content c m = record {
    type = type;
    source_tool = tool;
    content = content;
    location = none;
    confidence = c;
    parents = [];
    node_id = (o.new_id m.world).0;
    timestamp = (o.now (o.new_id m.world).1).0;
  }

  -- The node has been stored as the last row.
  pub record Stored (content : Fields p.Float) (before after : LedgerStore p)
      (node : EvidenceNode p) : Type 0 where
    pub row : Row p
    pub last : after.rows ≡ before.rows ++ row ∷ []
    pub is_error : row.type ≡ "error"
    pub says : row.content ≡ canonical_json p (obj content)
    pub numbered : row.seq ≡ node.seq

  -- The run has failed in a stage whose body raised `exc`: the last row of the ledger is the ERROR node
  -- that names both, the last event of the history carries the number of that row, and the job carries
  -- the error.
  pub record Recorded (s : State p o) : Type 0 where
    pub which : JobStage
    pub exc : Exception
    pub before : LedgerStore p
    pub node : EvidenceNode p
    pub stored : Stored (error_content p o which exc) before s.machine.ledger node
    pub earlier : List StageEvent
    pub event : StageEvent
    pub last_event : s.history ≡ earlier ++ event ∷ []
    pub of_stage : event.stage ≡ which
    pub refers : event.ledger_seq ≡ some node.seq
    pub job_error : s.job.error ≡ some (String.◌++◌ (value which) (String.◌++◌ ": " exc.text))

  abbrev AnyValue : (A : Type 0) → A → State p o → Type 0
  AnyValue A a s = Unit

  abbrev AnyEscape : Exception → State p o → Type 0
  AnyEscape exc s = Unit

  abbrev AnyState : JobStage → State p o → Type 0
  AnyState t s = Unit
