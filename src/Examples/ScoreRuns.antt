-- ===== src/Examples/ScoreRuns.antt =====
-- Scores of drishti/m6_score/engine.py over whole millionths.
use c_s_cool_stuff.Prelude.{
  ℕ, ◌+◌, ◌-◌, ◌*◌, ◌/◌, ◌≤◌, pos, true, false, none, some, [], ◌∷◌, ◌≡◌, refl, inr, arith, leb,
  ltb, if◌then◌else◌,
}
use c_s_cool_stuff.Score.Inputs.{
  Floats, Severity, StaticReport, MlPrediction, GenAiVerdict, Evidence,
}
use c_s_cool_stuff.Score.{ml_partial, has_ml}
unfoldable use c_s_cool_stuff.Score.{has_ml}
use c_s_cool_stuff.Score.Engine.{score}
use c_s_cool_stuff.Score.Range.{IsOrdered, score-value_range}
use c_s_cool_stuff.Score.Disclosure.{Discloses, score-unusable_ml}

abbrev pub millionths : Floats
millionths = record {
  Float = ℕ;
  micro = λ n. n;
  add = λ x y. x + y;
  sub = λ x y. x - y;
  mul = λ x y. x * y / 1000000;
  div = λ x y. x * 1000000 / y;
  neg = λ x. 0;
  abs = λ x. x;
  log = λ x. x;
  exp = λ x. 1000000 + x;
  lt = ltb;
  le = leb;
  round_6 = λ x. x;
  round = λ x. pos ((x + 500000) / 1000000);
}

-- No float is above a million, as none of Python's is above its largest.
abbrev largest : ℕ
largest = 1000000000000

abbrev capped : ℕ → ℕ
capped n = if leb n largest then n else largest

-- Whole millionths with a largest number, at which literals, sums and products stop.
abbrev finite : Floats
finite = record millionths {
  micro = capped;
  add = λ x y. capped (x + y);
  mul = λ x y. capped (x * y / 1000000);
}

finite-IsOrdered : IsOrdered finite
finite-IsOrdered = record {
  literal_le = λ a b h small. ground arith;
  le_of_lt = λ x y h. ground arith;
  add_nonneg = λ x y g h. ground arith;
  literal_add = λ a b h. (ground arith, ground arith);
  weigh = λ x n h u. ground arith;
  percent = λ x u. (ground arith, ground arith);
  round_6-InUnit = λ x u. u;
  round_between = λ x a b small g h. ((x + 500000) / 1000000, refl, ground arith, ground arith);
}

abbrev report : StaticReport
report = record {
  partial = false;
  permission_combos = Severity.high ∷ Severity.critical ∷ [];
  used_not_declared = "INTERNET" ∷ [];
  ledger_refs = "ev_1" ∷ "ev_2" ∷ [];
}

abbrev prediction : MlPrediction ℕ
prediction = record {
  p_calibrated = 800000;
  anomaly_escalate = true;
  model_version = "stub";
  partial = false;
  ledger_refs = "ev_3" ∷ [];
}

abbrev verdict : GenAiVerdict ℕ
verdict = record {
  behavioural_risk_b = 900000;
  behavioural_evidence = none;
  disagreement_flag = false;
  provider = "mock";
  partial = false;
  ledger_refs = "ev_1" ∷ [];
}

abbrev evidence : Evidence ℕ
evidence = record {
  static = some report;
  ml = some prediction;
  genai = some verdict;
  dynamic = none;
  intel = some (record { source = "local"; known_bad_hash = true; partial = false });
  yara_severity = 700000;
}

score-value_range_example :
    (n : ℕ) × ((score finite (record evidence { intel = none })).value ≡ pos n) × (n ≤ 100)
score-value_range_example =
    score-value_range finite finite-IsOrdered (record evidence { intel = none })

-- A prediction of a trained model that is partial.
abbrev half_predicted : Evidence ℕ
half_predicted = record evidence {
  ml = some (record prediction { model_version = "v3"; partial = true });
  intel = none;
}

score-unusable_ml_example :
    let s = score millionths half_predicted in
    let t = score millionths (record half_predicted { ml = none }) in
    (s.value ≡ t.value)
    × (s.band ≡ t.band)
    × (s.confidence ≡ t.confidence)
    × (s.gamma ≡ t.gamma)
    × Discloses ml_partial s.limitations
score-unusable_ml_example =
    score-unusable_ml millionths half_predicted ml_partial (inr (refl, refl, refl))
