-- ===== src/Score.antt =====
-- drishti/m6_score/engine.py: the pure composite score. Texts for display (labels, inputs, rationales
-- and the explanation) are left out.
pub mod Inputs
pub mod Engine
pub mod Bands
pub mod Range
pub mod Disclosure
use c_s_cool_stuff.Prelude.{
  ℕ, ℤ, pos, negsuc, String, Bool, true, false, not, ◌&&◌, ◌||◌, Option, none, some, List, [], ◌∷◌,
  ◌++◌, leb, str_eq, elem, any, if◌then◌else◌,
}
use Inputs.{
  Floats, Severity, SeverityBand, TraceSourceKind, StaticReport, MlPrediction, GenAiVerdict,
  DynamicTrace, ThreatIntel, Evidence,
}

pub data Symbol : Type 0 where
  r f_ai g d : Symbol

pub data Action : Type 0 where
  block quarantine notify_customers push_ioc fast_track_analyst analyst_review monitor log : Action

pub data Limitation : Type 0 where
  static_unavailable static_partial ml_unavailable ml_partial : Limitation
  behavioural_unavailable behavioural_partial dynamic_unavailable trace_replayed : Limitation
  dynamic_partial trace_synthetic containment_unverified : Limitation

pub record ScoreFactor (F : Type 0) : Type 0 where
  pub symbol : Symbol
  pub raw : F
  pub weight : F
  pub contribution : F
  pub evidence_refs : List String

pub record CompositeScore (F : Type 0) : Type 0 where
  pub value : ℤ
  pub band : SeverityBand
  pub confidence : F
  pub gamma : F
  pub factors : List (ScoreFactor F)
  pub override_applied : Option String
  pub requires_human_review : Bool
  pub anomaly_escalated : Bool
  pub actions_proposed : List Action
  pub limitations : List Limitation
  pub ledger_refs : List String

-- `list(dict.fromkeys(refs))`: each once, in the order first seen.
unfoldable pub add_unseen : List String → List String → List String
add_unseen seen [] = seen
add_unseen seen (x ∷ xs) = add_unseen (if elem x seen then seen else seen ++ x ∷ []) xs

unfoldable pub unique : List String → List String
unfolding add_unseen
unique xs = add_unseen [] xs

abbrev pub at_least : ℕ → ℤ → Bool
at_least n (pos m) = leb n m
at_least n (negsuc m) = false

-- `_band`
unfoldable pub band_of : ℤ → SeverityBand
band_of value =
    if at_least 85 value
    then SeverityBand.critical
    else if at_least 65 value
    then SeverityBand.high
    else if at_least 40 value
    then SeverityBand.medium
    else SeverityBand.low

-- `_actions`
unfoldable pub actions : SeverityBand → List Action
actions SeverityBand.critical = block ∷ push_ioc ∷ notify_customers ∷ []
actions SeverityBand.high = quarantine ∷ fast_track_analyst ∷ []
actions SeverityBand.medium = analyst_review ∷ monitor ∷ []
actions SeverityBand.low = log ∷ []

abbrev pub is_unavailable : TraceSourceKind → Bool
is_unavailable TraceSourceKind.unavailable = true
is_unavailable _ = false

abbrev pub is_replay : TraceSourceKind → Bool
is_replay TraceSourceKind.replay = true
is_replay _ = false

abbrev pub is_low : SeverityBand → Bool
is_low SeverityBand.low = true
is_low _ = false

abbrev pub when {ℓ} : {A : Type ℓ} → Bool → A → List A
when b x = if b then x ∷ [] else []

abbrev pub is_nonempty {ℓ} : {A : Type ℓ} → List A → Bool
is_nonempty [] = false
is_nonempty (x ∷ xs) = true

abbrev pub runtime_dex : Option DynamicTrace → Bool
runtime_dex none = false
runtime_dex (some t) = any (λ in_original_apk. not in_original_apk) t.dex_loads

abbrev pub static_drift : Option StaticReport → Bool
static_drift none = false
static_drift (some s) = is_nonempty s.used_not_declared

abbrev pub known_bad : Option ThreatIntel → Bool
known_bad none = false
known_bad (some i) = i.known_bad_hash

unfoldable pub has_intel : Option ThreatIntel → Bool
has_intel none = false
has_intel (some i) = not (elem i.source ("none" ∷ "unavailable" ∷ [])) && not i.partial

unfoldable pub has_dynamic : Option DynamicTrace → Bool
has_dynamic none = false
has_dynamic (some t) = t.detonated && not (is_unavailable t.source) && not t.synthetic

abbrev pub static_refs : Option StaticReport → List String
static_refs none = []
static_refs (some s) = s.ledger_refs

abbrev pub dynamic_refs : Option DynamicTrace → List String
dynamic_refs none = []
dynamic_refs (some t) = t.ledger_refs

module _ {F : Type 0} where
  unfoldable pub has_ml : Option (MlPrediction F) → Bool
  has_ml none = false
  has_ml (some m) = not (elem m.model_version ("none" ∷ "stub" ∷ [])) && not m.partial

  unfoldable pub has_behavioural : Option (GenAiVerdict F) → Bool
  has_behavioural none = false
  has_behavioural (some v) = not (str_eq v.provider "mock") && not v.partial

  abbrev pub disagrees : Option (GenAiVerdict F) → Bool
  disagrees none = false
  disagrees (some v) = v.disagreement_flag

  -- `ml and has_ml and ml.anomaly_escalate`
  abbrev pub escalates : Option (MlPrediction F) → Bool
  escalates none = false
  escalates (some m) = has_ml (some m) && m.anomaly_escalate

  abbrev pub ml_refs : Option (MlPrediction F) → List String
  ml_refs none = []
  ml_refs (some m) = m.ledger_refs

  abbrev pub genai_refs : Option (GenAiVerdict F) → List String
  genai_refs none = []
  genai_refs (some v) = v.ledger_refs
