-- ===== src/Pipeline.antt =====
-- drishti/pipeline.py: the order of the stages. The bodies of the stages are parameters; what they do
-- to the ledger and to the artefacts, and what they raise, is theirs.
pub mod Stages
pub mod Bodies
pub mod Stage
pub mod Steps
pub mod Walk
pub mod History
pub mod Course
pub mod Evidenced
pub mod Completion
pub mod Chains
use c_s_cool_stuff.Prelude.{
  ℕ, String, Bool, true, false, not, ◌&&◌, Option, none, some, List, [], ◌∷◌, ◌++◌, if◌then◌else◌,
}
use Prim.Native.String
use c_s_cool_stuff.Json.{Fields, field, end, str, arr, cons, nil}
use c_s_cool_stuff.Ledger.Evidence
use c_s_cool_stuff.Ledger.Platform.{Platform}
use c_s_cool_stuff.Ledger.Row.{EvidenceNode}
use c_s_cool_stuff.Ledger.Store.{LedgerStore, open_job}
use Stages.{
  JobStage, value, StageEvent, Job, ingest, static, ml, genai_static, score_prelim, sandbox_1,
  frontier, sandbox_2, genai_full, score_final, report, done, failed,
}
use Bodies.{
  Exception, Outcome, returned, raised, Outside, Machine, Artefacts, Body, append_node,
  record_artefact,
}
use Stage.{
  Step, value_of, stage_failed, escaped, State, Pipe, with_stage, no_changes, is_empty, stage,
}
use Stage
unfoldable use Stage.{stage}

module _ (p : Platform) (o : Outside p) where
  open o use {CompositeScore, one}

  infixl 5 ◌>>=◌ ◌>>◌
  abbrev ◌>>=◌ {ℓ κ} : {A : Type ℓ} {B : Type κ} → Pipe p o A → (A → Pipe p o B) → Pipe p o B
  before >>= next = Stage.◌>>=◌ p o before next

  abbrev ◌>>◌ {ℓ κ} : {A : Type ℓ} {B : Type κ} → Pipe p o A → Pipe p o B → Pipe p o B
  before >> after = Stage.◌>>◌ p o before after

  -- `SandboxPlan`, as the pipeline makes it
  pub record SandboxPlan : Type 0 where
    pub duration_s : ℕ
    pub morphs : List o.Morph
    pub pass_num : ℕ

  -- The bodies of the stages, by the functions of pipeline.py that they call, on one APK.
  pub record StageBodies : Type 0 where
    pub sandbox_duration_s : ℕ
    pub resolve_trace_source : Body p o o.TraceSource
    -- of the job's sha256 and filename
    pub ingest_file : String → String → Body p o o.FileMeta
    pub static_analysis : o.FileMeta → Body p o o.StaticReport
    pub ml_prediction : o.StaticReport → Body p o o.MlPrediction
    pub genai_verdict : o.StaticReport → String → Body p o o.GenaiVerdict
    pub with_impersonation : o.GenaiVerdict → Body p o o.GenaiVerdict
    pub score_stage : JobStage → Body p o CompositeScore
    pub sandbox : JobStage → String → SandboxPlan → Body p o o.DynamicTrace
    pub frontier_morphs : o.DynamicTrace → String → Body p o (List o.Morph)
    pub genai_again : String → Body p o o.GenaiVerdict

  abbrev pub report_content : String → Fields p.Float
  report_content sha256 = field "sha256" (str sha256) (
      field "artefacts"
        (arr (
          cons (str "report.html")
            (cons (str "yara") (cons (str "stix") (cons (str "dossier") nil)))))
        end)

  -- `_record_report`, whose node's id is not used
  unfoldable pub record_report : String → Body p o (Unit {0})
  record_report sha256 =
      Bodies.◌>>◌ p o
        (append_node p o Evidence.report_generated "m7_report" (report_content sha256) one)
        (λ m. (m, returned tt))

  -- `ctx.artefacts[kind] = value`
  abbrev pub put_ingest : o.FileMeta → Artefacts p o → Artefacts p o
  put_ingest v a = record a { ingest = some v }

  abbrev pub put_static : o.StaticReport → Artefacts p o → Artefacts p o
  put_static v a = record a { static = some v }

  abbrev pub put_ml : o.MlPrediction → Artefacts p o → Artefacts p o
  put_ml v a = record a { ml = some v }

  abbrev pub put_genai : o.GenaiVerdict → Artefacts p o → Artefacts p o
  put_genai v a = record a { genai = some v }

  abbrev pub put_score : o.CompositeScore → Artefacts p o → Artefacts p o
  put_score v a = record a { score = some v }

  abbrev pub put_dynamic : o.DynamicTrace → Artefacts p o → Artefacts p o
  put_dynamic v a = record a { dynamic = some v }

  -- A body whose value is recorded: `ctx.record(kind, body)`.
  unfoldable pub keeping :
      {A : Type 0} → (A → Artefacts p o → Artefacts p o) → Body p o A → Body p o A
  keeping put body =
      Bodies.◌>>=◌ p o body
        (λ a. Bodies.◌>>◌ p o (record_artefact p o (put a)) (λ m. (m, returned a)))

  -- `run.with_stage(which, ...)` as a step
  abbrev update : JobStage → (Job CompositeScore → Job CompositeScore) → Pipe p o (Unit {0})
  update which changes s = (with_stage p o which changes s, value_of tt)

  -- The frontier and the second pass
  unfoldable pub second_pass :
      StageBodies → Job CompositeScore → o.DynamicTrace → Pipe p o o.DynamicTrace
  unfolding stage keeping
  second_pass b job trace = do
    morphs ← stage p o frontier (b.frontier_morphs trace job.id)
    stage p o sandbox_2 (
        keeping put_dynamic (
          b.sandbox sandbox_2 job.sha256
            (record { duration_s = b.sandbox_duration_s; morphs = morphs; pass_num = 2 })))

  -- The test of the first trace
  unfoldable pub is_evasive : o.DynamicTrace → Bool
  is_evasive trace = not (o.detonated trace) && not (is_empty (o.evasion_observations trace))

  unfoldable pub adapt : StageBodies → Job CompositeScore → o.DynamicTrace → Pipe p o o.DynamicTrace
  unfolding second_pass
  adapt b job trace =
      if is_evasive trace then second_pass b job trace else (λ s. (s, value_of trace))

  -- The `try` block of `run_pipeline`
  unfoldable pub walk_stages : StageBodies → Job CompositeScore → Pipe p o (Unit {0})
  unfolding stage adapt record_report keeping
  walk_stages b job = do
    meta ← stage p o ingest (keeping put_ingest (b.ingest_file job.sha256 job.filename))
    report_1 ← stage p o static (keeping put_static (b.static_analysis meta))
    stage p o ml (keeping put_ml (b.ml_prediction report_1))
    stage p o genai_static (
        keeping put_genai
          (Bodies.◌>>=◌ p o (b.genai_verdict report_1 job.sha256) b.with_impersonation))
    preliminary ← stage p o score_prelim (keeping put_score (b.score_stage score_prelim))
    update score_prelim (λ j. record j { preliminary = some preliminary })
    trace ← stage p o sandbox_1 (
        keeping put_dynamic (
          b.sandbox sandbox_1 job.sha256
            (record { duration_s = b.sandbox_duration_s; morphs = []; pass_num = 1 })))
    adapt b job trace
    stage p o genai_full (keeping put_genai (b.genai_again job.sha256))
    final ← stage p o score_final (keeping put_score (b.score_stage score_final))
    update score_final (λ j. record j { final = some final })
    stage p o report (record_report job.sha256)

  unfoldable pub attach : Machine p o × Outcome o.TraceSource → Machine p o × Outcome (Unit {0})
  attach (m, returned source) = (record m { trace_source = some source }, returned tt)
  attach (m, raised exc) = (m, raised exc)

  -- The trace source is the one given, or the one that the settings name.
  unfoldable pub choose_source : StageBodies → Option o.TraceSource → Body p o (Unit {0})
  unfolding attach
  choose_source b (some source) m = (m, returned tt)
  choose_source b none m = attach (b.resolve_trace_source m)

  abbrev pub with_trace_source : StageBodies → Body p o (Unit {0})
  with_trace_source b m = choose_source b m.trace_source m

  -- What `run_pipeline` returns once the stages have been walked.
  unfoldable pub conclude : State p o × Step (Unit {0}) → State p o × Outcome (Job CompositeScore)
  conclude (s, value_of _) =
      let s' = with_stage p o done (no_changes p o) s in (s', returned s'.job)
  conclude (s, stage_failed which) = (s, returned s.job)
  conclude (s, escaped exc) = (s, raised exc)

  -- `run_pipeline`, on what `on_event` was called with before it.
  unfoldable pub run_pipeline :
      StageBodies
      → Job CompositeScore
      → Machine p o
      → Option (List StageEvent)
      → State p o × Outcome (Job CompositeScore)
  unfolding walk_stages conclude choose_source
  run_pipeline b job m emitted =
      let opened = record m { ledger = open_job p m.ledger job.id } in
      let (m', outcome) = with_trace_source b opened in
      let s : State p o = record { job = job; history = []; machine = m'; emitted = emitted } in
      elim outcome [ raised exc ↦ (s, raised exc) | returned _ ↦ conclude (walk_stages b job s) ]
