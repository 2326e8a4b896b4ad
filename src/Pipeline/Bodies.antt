-- ===== src/Pipeline/Bodies.antt =====
-- What a stage of drishti/pipeline.py may touch: the ledger, the artefacts, the trace source, and the
-- world outside. A body is a function of these that returns a value or raises.
use c_s_cool_stuff.Prelude.{ℕ, String, Bool, Option, none, List, []}
use c_s_cool_stuff.Json.{Fields}
use c_s_cool_stuff.Ledger.Evidence.{EvidenceType}
use c_s_cool_stuff.Ledger.Platform.{Platform}
use c_s_cool_stuff.Ledger.Row.{EvidenceNode}
use c_s_cool_stuff.Ledger.Store.{LedgerStore, LedgerError, Result, ok, err, Request, append}

-- An exception: `type(exc).__name__` and `str(exc)`.
pub record Exception : Type 0 where
  pub class_name : String
  pub text : String

pub data Outcome {ℓ} (A : Type ℓ) : Type ℓ where
  returned : A → Outcome A
  raised : Exception → Outcome A

module _ (p : Platform) where
  -- The clocks, the fresh identifiers and the texts of the ledger's exceptions, and the values that the
  -- stages hand on.
  pub record Outside : Type 1 where
    pub World : Type 0
    pub now : World → String × World
    pub Instant : Type 0
    pub perf_counter : World → Instant × World
    -- `int((end - start) * 1000)`, the later one first
    pub elapsed_ms : Instant → Instant → ℕ
    pub new_id : World → String × World
    pub one : p.Float
    pub exception_of : LedgerError p.Float → Exception
    pub FileMeta : Type 0
    pub StaticReport : Type 0
    pub MlPrediction : Type 0
    pub GenaiVerdict : Type 0
    pub CompositeScore : Type 0
    pub DynamicTrace : Type 0
    pub detonated : DynamicTrace → Bool
    pub EvasionObservation : Type 0
    pub evasion_observations : DynamicTrace → List EvasionObservation
    pub Morph : Type 0
    pub TraceSource : Type 0

  module _ (o : Outside) where
    open o use {
      World, FileMeta, StaticReport, MlPrediction, GenaiVerdict, CompositeScore, DynamicTrace,
    }
    open o use {TraceSource, now, new_id, exception_of}

    -- `ctx.artefacts`, by kind
    pub record Artefacts : Type 0 where
      pub ingest : Option FileMeta
      pub static : Option StaticReport
      pub ml : Option MlPrediction
      pub genai : Option GenaiVerdict
      pub score : Option CompositeScore
      pub dynamic : Option DynamicTrace

    pub record Machine : Type 0 where
      pub ledger : LedgerStore p
      pub artefacts : Artefacts
      pub trace_source : Option TraceSource
      pub world : World

    abbrev pub Body {ℓ} : Type ℓ → Type ℓ
    Body A = Machine → Machine × Outcome A

    infixl 5 ◌>>=◌ ◌>>◌
    abbrev pub ◌>>=◌ {ℓ κ} : {A : Type ℓ} {B : Type κ} → Body A → (A → Body B) → Body B
    body >>= next = λ m.
        let (m', outcome) = body m in
        elim outcome [ returned a ↦ next a m' | raised exc ↦ (m', raised exc) ]

    abbrev pub ◌>>◌ {ℓ κ} : {A : Type ℓ} {B : Type κ} → Body A → Body B → Body B
    body >> after = body >>= λ _. after

    -- `ctx.record(kind, value)`, the kind being a field of the artefacts
    abbrev pub record_artefact : (Artefacts → Artefacts) → Body (Unit {0})
    record_artefact put m = (record m { artefacts = put m.artefacts }, returned tt)

    unfoldable pub after_append :
        Machine
        → Result p.Float (LedgerStore p × EvidenceNode p)
        → Machine × Outcome (EvidenceNode p)
    after_append m (ok (ledger, node)) = (record m { ledger = ledger }, returned node)
    after_append m (err e) = (m, raised (exception_of e))

    -- `ctx.ledger.append(type=..., source_tool=..., content=..., confidence=...)`
    unfoldable pub append_node :
        EvidenceType → String → Fields p.Float → p.Float → Body (EvidenceNode p)
    unfolding after_append
    append_node type source_tool content confidence m =
        let (node_id, world) = new_id m.world in
        let (timestamp, world') = now world in
        let request : Request p = record {
          type = type;
          source_tool = source_tool;
          content = content;
          location = none;
          confidence = confidence;
          parents = [];
          node_id = node_id;
          timestamp = timestamp;
        } in
        let after = record m { world = world' } in after_append after (append p m.ledger request)
