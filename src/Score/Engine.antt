-- ===== src/Score/Engine.antt =====
-- The formula of drishti/m6_score/engine.py, over the floats `m`.
use c_s_cool_stuff.Prelude.{
  ℕ, ℤ, pos, String, Bool, true, false, not, ◌&&◌, ◌||◌, Option, none, some, List, [], ◌∷◌, ◌++◌,
  elem, str_eq, if◌then◌else◌,
}
use c_s_cool_stuff.Score.Inputs.{
  Floats, Severity, SeverityBand, StaticReport, MlPrediction, GenAiVerdict, DynamicTrace, Evidence,
}
use c_s_cool_stuff.Score.{
  Symbol, Limitation, static_unavailable, static_partial, ml_unavailable, ml_partial,
  behavioural_unavailable, behavioural_partial, dynamic_unavailable, trace_replayed,
  dynamic_partial, trace_synthetic, containment_unverified, ScoreFactor, CompositeScore, unique,
  band_of, actions, is_unavailable, is_replay, is_low, when, runtime_dex, static_drift, known_bad,
  has_intel, has_dynamic, has_ml, has_behavioural, disagrees, escalates, static_refs, ml_refs,
  genai_refs, dynamic_refs,
}

module _ (m : Floats) where
  open m use {Float, micro, add, sub, mul, div, neg, abs, log, exp, lt, le, round_6, round}

  abbrev pub zero_float : Float
  zero_float = micro 0

  abbrev pub one_float : Float
  one_float = micro 1000000

  -- Python's `min(x, y)` and `max(x, y)` keep the first of equal arguments.
  abbrev pub min_float : Float → Float → Float
  min_float x y = if lt y x then y else x

  abbrev pub max_float : Float → Float → Float
  max_float x y = if lt x y then y else x

  -- `_RULE_SEVERITY`
  abbrev pub severity_weight : Severity → Float
  severity_weight Severity.critical = micro 1000000
  severity_weight Severity.high = micro 700000
  severity_weight Severity.medium = micro 400000
  severity_weight Severity.low = micro 150000

  worst : Float → List Severity → Float
  worst x [] = x
  worst x (s ∷ ss) = worst (max_float x (severity_weight s)) ss

  severity_of : List Severity → Float
  unfolding worst
  severity_of [] = zero_float
  severity_of (s ∷ ss) = worst (severity_weight s) ss

  -- `rule_severity`
  unfoldable pub rule_severity : Option StaticReport → Float
  unfolding severity_of
  rule_severity none = zero_float
  rule_severity (some s) = severity_of s.permission_combos

  -- `_clamp`
  unfoldable pub clamp : Float → Float
  clamp x = max_float zero_float (min_float one_float x)

  -- `_logit`, with `_EPS`
  unfoldable pub logit : Float → Float
  logit p =
      let q = min_float (max_float p (micro 1)) (sub one_float (micro 1)) in
      log (div q (sub one_float q))

  -- `_sigmoid`
  unfoldable pub sigmoid : Float → Float
  sigmoid z =
      if le zero_float z
      then div one_float (add one_float (exp (neg z)))
      else div (exp z) (add one_float (exp z))

  abbrev or_zero : Option Float → Float
  or_zero none = zero_float
  or_zero (some x) = x

  -- `_noisy_or`
  unfoldable pub noisy_or : Option Float → Option Float → Float
  unfolding clamp
  noisy_or none behavioural = clamp (or_zero behavioural)
  noisy_or (some p) none = clamp p
  noisy_or (some p) (some b) = round_6 (clamp (sub (add p b) (mul p b)))

  -- `_fuse`: the probability, the evidence, the behavioural risk.
  unfoldable pub fuse : Option Float → Option Float → Option Float → Float
  unfolding noisy_or
  fuse probability none behavioural = noisy_or probability behavioural
  fuse none (some e) none = round_6 (clamp (sigmoid e))
  fuse none (some e) (some b) = clamp b
  fuse (some p) (some e) behavioural = round_6 (clamp (sigmoid (add (logit p) e)))

  -- `_drift`
  unfoldable pub drift : Option StaticReport → Option DynamicTrace → Float
  drift static dynamic =
      add (if static_drift static then micro 400000 else zero_float)
        (if runtime_dex dynamic then micro 200000 else zero_float)

  -- `_factor`
  unfoldable pub factor : Symbol → Float → Float → List String → ScoreFactor Float
  factor symbol raw weight refs = record {
    symbol = symbol;
    raw = raw;
    weight = weight;
    contribution = mul raw weight;
    evidence_refs = refs;
  }

  unfoldable pub probability_of : Option (MlPrediction Float) → Option Float
  probability_of none = none
  probability_of (some p) = if has_ml (some p) then some p.p_calibrated else none

  unfoldable pub behavioural_of : Option (GenAiVerdict Float) → Option Float
  behavioural_of none = none
  behavioural_of (some v) = if has_behavioural (some v) then some v.behavioural_risk_b else none

  unfoldable pub evidence_of : Option (GenAiVerdict Float) → Option Float
  evidence_of none = none
  evidence_of (some v) = if has_behavioural (some v) then v.behavioural_evidence else none

  unfoldable pub fused : Evidence Float → Float
  fused e = fuse (probability_of e.ml) (evidence_of e.genai) (behavioural_of e.genai)

  -- The four terms of the sum. `ThreatIntel` has no field `ledger_refs`.
  unfoldable pub factors : Evidence Float → List (ScoreFactor Float)
  factors e =
      factor Symbol.r (if known_bad e.intel then one_float else zero_float) (micro 250000) []
      ∷ factor Symbol.f_ai (fused e) (micro 500000) (unique (ml_refs e.ml ++ genai_refs e.genai))
      ∷ factor Symbol.g (clamp e.yara_severity) (micro 150000) (unique (static_refs e.static))
      ∷ factor Symbol.d (drift e.static e.dynamic) (micro 100000)
          (unique (static_refs e.static ++ dynamic_refs e.dynamic))
      ∷ []

  unfoldable pub sum_contributions : Float → List (ScoreFactor Float) → Float
  sum_contributions acc [] = acc
  sum_contributions acc (f ∷ fs) = sum_contributions (add acc f.contribution) fs

  -- `round(100 * min(1.0, raw_score))`
  unfoldable pub raw_value : Evidence Float → ℤ
  raw_value e =
      round (mul (micro 100000000) (min_float one_float (sum_contributions zero_float (factors e))))

  abbrev share : Bool → ℕ → Float
  share b n = mul (micro n) (if b then one_float else zero_float)

  abbrev is_there {ℓ} : {A : Type ℓ} → Option A → Bool
  is_there none = false
  is_there (some a) = true

  unfoldable pub gamma : Evidence Float → Float
  gamma e =
      add
        (add (add (share (is_there e.static) 400000) (share (has_dynamic e.dynamic) 300000))
          (share (has_ml e.ml) 200000))
        (share (has_intel e.intel) 100000)

  abbrev agreement : Option Float → Option Float → Float → Float
  agreement (some p) (some b) g = mul g (sub one_float (abs (sub p b)))
  agreement _ _ g = mul g (micro 500000)

  -- The confidence before the override.
  unfoldable pub base_confidence : Evidence Float → Float
  base_confidence e =
      let c = agreement (probability_of e.ml) (behavioural_of e.genai) (gamma e) in
      if disagrees e.genai then mul c (micro 600000) else c

  unfoldable pub confidence : Evidence Float → Float
  confidence e = if known_bad e.intel then one_float else base_confidence e

  unfoldable pub value : Evidence Float → ℤ
  value e = if known_bad e.intel then pos 100 else raw_value e

  unfoldable pub band : Evidence Float → SeverityBand
  band e =
      let b = band_of (value e) in if escalates e.ml && is_low b then SeverityBand.medium else b

  abbrev pub ml_limits : Option (MlPrediction Float) → List Limitation
  ml_limits none = ml_unavailable ∷ []
  ml_limits (some p) =
      if elem p.model_version ("none" ∷ "stub" ∷ [])
      then ml_unavailable ∷ []
      else when p.partial ml_partial

  abbrev pub static_limits : Option StaticReport → List Limitation
  static_limits none = static_unavailable ∷ []
  static_limits (some s) = when s.partial static_partial

  abbrev pub genai_limits : Option (GenAiVerdict Float) → List Limitation
  genai_limits none = behavioural_unavailable ∷ []
  genai_limits (some v) =
      if str_eq v.provider "mock"
      then behavioural_unavailable ∷ []
      else when v.partial behavioural_partial

  abbrev pub dynamic_limits : Option DynamicTrace → List Limitation
  dynamic_limits none = dynamic_unavailable ∷ []
  dynamic_limits (some t) =
      if is_unavailable t.source
      then dynamic_unavailable ∷ []
      else when (is_replay t.source) trace_replayed
        ++ (when t.partial dynamic_partial
            ++ (when t.synthetic trace_synthetic
                ++ when (not t.containment_verified) containment_unverified))

  -- `_limitations`. No item can occur twice, so `dict.fromkeys` keeps them all.
  unfoldable pub limitations : Evidence Float → List Limitation
  limitations e =
      static_limits e.static
      ++ (ml_limits e.ml ++ (genai_limits e.genai ++ dynamic_limits e.dynamic))

  unfoldable pub all_refs : List (ScoreFactor Float) → List String
  all_refs [] = []
  all_refs (f ∷ fs) = f.evidence_refs ++ all_refs fs

  -- `score`
  unfoldable pub score : Evidence Float → CompositeScore Float
  score e = record {
    value = value e;
    band = band e;
    confidence = round_6 (confidence e);
    gamma = round_6 (gamma e);
    factors = factors e;
    override_applied = if known_bad e.intel then some "known_bad_hash" else none;
    requires_human_review =
        escalates e.ml || (disagrees e.genai || lt (confidence e) (micro 500000));
    anomaly_escalated = escalates e.ml;
    actions_proposed = actions (band e);
    limitations = limitations e;
    ledger_refs = unique (all_refs (factors e));
  }
