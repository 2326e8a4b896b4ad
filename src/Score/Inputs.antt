-- ===== src/Score/Inputs.antt =====
-- The fields that the scorer reads of the contracts in drishti/contracts (static_report.py, score.py,
-- genai_verdict.py, dynamic_trace.py), and the floats that it computes with. `Floats` names Python's
-- operations, and the literal n / 1000000 is `micro n`.
use c_s_cool_stuff.Prelude.{ℕ, ℤ, String, Bool, Option, List}

pub record Floats : Type 1 where
  pub Float : Type 0
  pub micro : ℕ → Float
  pub add : Float → Float → Float
  pub sub : Float → Float → Float
  pub mul : Float → Float → Float
  pub div : Float → Float → Float
  pub neg : Float → Float
  pub abs : Float → Float
  pub log : Float → Float
  pub exp : Float → Float
  -- `x < y` and `x <= y`
  pub lt : Float → Float → Bool
  pub le : Float → Float → Bool
  -- `round(x, 6)` and `round(x)`
  pub round_6 : Float → Float
  pub round : Float → ℤ

pub data Severity : Type 0 where
  critical high medium low : Severity

pub data SeverityBand : Type 0 where
  critical high medium low : SeverityBand

pub data TraceSourceKind : Type 0 where
  live replay unavailable : TraceSourceKind

pub record StaticReport : Type 0 where
  pub partial : Bool
  pub permission_combos : List Severity
  pub used_not_declared : List String
  pub ledger_refs : List String

pub record MlPrediction (F : Type 0) : Type 0 where
  pub p_calibrated : F
  pub anomaly_escalate : Bool
  pub model_version : String
  pub partial : Bool
  pub ledger_refs : List String

pub record GenAiVerdict (F : Type 0) : Type 0 where
  pub behavioural_risk_b : F
  pub behavioural_evidence : Option F
  pub disagreement_flag : Bool
  pub provider : String
  pub partial : Bool
  pub ledger_refs : List String

-- `dex_loads` keeps the field `in_original_apk` of each load.
pub record DynamicTrace : Type 0 where
  pub source : TraceSourceKind
  pub detonated : Bool
  pub dex_loads : List Bool
  pub synthetic : Bool
  pub partial : Bool
  pub containment_verified : Bool
  pub ledger_refs : List String

pub record ThreatIntel : Type 0 where
  pub source : String
  pub known_bad_hash : Bool
  pub partial : Bool

-- The arguments of `score`.
pub record Evidence (F : Type 0) : Type 0 where
  pub static : Option StaticReport
  pub ml : Option (MlPrediction F)
  pub genai : Option (GenAiVerdict F)
  pub dynamic : Option DynamicTrace
  pub intel : Option ThreatIntel
  pub yara_severity : F
