-- ===== src/Pipeline/Stages.antt =====
-- drishti/contracts/job.py: the stages of a job, the events of its history, and the job.
use c_s_cool_stuff.Prelude.{ℕ, String, Option, List}

pub data JobStage : Type 0 where
  queued ingest static ml genai_static score_prelim sandbox_1 frontier : JobStage
  sandbox_2 genai_full score_final report done failed : JobStage

-- `stage.value`
unfoldable pub value : JobStage → String
value queued = "queued"
value ingest = "ingest"
value static = "static"
value ml = "ml"
value genai_static = "genai_static"
value score_prelim = "score_prelim"
value sandbox_1 = "sandbox_pass1"
value frontier = "frontier"
value sandbox_2 = "sandbox_pass2"
value genai_full = "genai_full"
value score_final = "score_final"
value report = "report"
value done = "done"
value failed = "failed"

pub record StageEvent : Type 0 where
  pub stage : JobStage
  pub status : String
  pub at : String
  pub duration_ms : Option ℕ
  pub message : Option String
  pub ledger_seq : Option ℕ

pub record Job (CompositeScore : Type 0) : Type 0 where
  pub id : String
  pub sha256 : String
  pub filename : String
  pub stage : JobStage
  pub created_at : String
  pub stage_history : List StageEvent
  pub preliminary : Option CompositeScore
  pub final : Option CompositeScore
  pub error : Option String
