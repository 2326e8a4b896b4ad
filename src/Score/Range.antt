-- ===== src/Score/Range.antt =====
-- The range of the value of drishti/m6_score/engine.py, from what Python's floats promise on the literals up
-- to 100 and on the interval from 0 to 1. Every law is given the numbers that it compares, so none speaks of
-- nan, and none speaks of literals beyond 100, where doubles are too far apart or overflow.
use c_s_cool_stuff.Prelude.{
  ℕ, ◌≤◌, ◌*◌, ◌+◌, ◌<◌, ℤ, pos, Bool, true, false, Option, none, some, ◌≡◌, refl, arith,
  if◌then◌else◌,
}
use c_s_cool_stuff.Score.Inputs.{Floats, Evidence}
use c_s_cool_stuff.Score.{known_bad, static_drift, runtime_dex}
use c_s_cool_stuff.Score.Engine.{
  score, value, raw_value, zero_float, one_float, min_float, clamp, noisy_or, fuse, drift, factors,
  fused, sum_contributions,
}
unfoldable use c_s_cool_stuff.Score.Engine.{
  score, value, raw_value, clamp, noisy_or, fuse, drift, factors, fused, sum_contributions, factor,
}

module _ (m : Floats) where
  open m use {Float, micro, add, mul, lt, le, round_6, round}

  -- From 0 to 1.
  abbrev pub InUnit : Float → Type 0
  InUnit x = (le (micro 0) x ≡ true) × (le x (micro 1000000) ≡ true)

  pub record IsOrdered : Type 0 where
    pub literal_le : (a b : ℕ) → a ≤ b → b ≤ 100000000 → le (micro a) (micro b) ≡ true
    pub le_of_lt : (x y : Float) → lt x y ≡ true → le x y ≡ true
    pub add_nonneg :
        (x y : Float)
        → le (micro 0) x ≡ true
        → le (micro 0) y ≡ true
        → le (micro 0) (add x y) ≡ true
    -- Two literals that sum to less than 1.
    pub literal_add : (a b : ℕ) → a + b < 1000000 → InUnit (add (micro a) (micro b))
    pub weigh : (x : Float) (n : ℕ) → n ≤ 1000000 → InUnit x → le (micro 0) (mul x (micro n)) ≡ true
    pub percent :
        (x : Float)
        → InUnit x
        → (le (micro 0) (mul (micro 100000000) x) ≡ true)
          × (le (mul (micro 100000000) x) (micro 100000000) ≡ true)
    pub round_6-InUnit : (x : Float) → InUnit x → InUnit (round_6 x)
    -- A float between two whole numbers, of at most 100, is rounded to one between them.
    pub round_between :
        (x : Float) (a b : ℕ)
        → b ≤ 100
        → le (micro (a * 1000000)) x ≡ true
        → le x (micro (b * 1000000)) ≡ true
        → (n : ℕ) × (round x ≡ pos n) × (a ≤ n) × (n ≤ b)

  module _ (h : IsOrdered) where
    zero-InUnit : InUnit (zero_float m)
    zero-InUnit = (
      h.literal_le 0 0 ground arith ground arith,
      h.literal_le 0 1000000 ground arith ground arith,
    )

    one-InUnit : InUnit (one_float m)
    one-InUnit = (
      h.literal_le 0 1000000 ground arith ground arith,
      h.literal_le 1000000 1000000 ground arith ground arith,
    )

    clamp-InUnit : (x : Float) → InUnit (clamp m x)
    unfolding clamp
    clamp-InUnit x = ground (
      arith,
      zero-InUnit,
      one-InUnit,
      h.le_of_lt x (micro 1000000),
      h.le_of_lt (micro 0) x,
      h.le_of_lt (micro 0) (micro 1000000),
    )

    noisy_or-InUnit : (p b : Option Float) → InUnit (noisy_or m p b)
    unfolding noisy_or
    noisy_or-InUnit none none = clamp-InUnit (micro 0)
    noisy_or-InUnit none (some b) = clamp-InUnit b
    noisy_or-InUnit (some p) none = clamp-InUnit p
    noisy_or-InUnit (some p) (some b) = h.round_6-InUnit _ (clamp-InUnit _)

    fuse-InUnit : (p e b : Option Float) → InUnit (fuse m p e b)
    unfolding fuse
    fuse-InUnit p none b = noisy_or-InUnit p b
    fuse-InUnit none (some e) none = h.round_6-InUnit _ (clamp-InUnit _)
    fuse-InUnit none (some e) (some b) = clamp-InUnit b
    fuse-InUnit (some p) (some e) b = h.round_6-InUnit _ (clamp-InUnit _)

    drift_sum-InUnit :
        (a b : Bool)
        → InUnit (add (if a then micro 400000 else micro 0) (if b then micro 200000 else micro 0))
    drift_sum-InUnit true true = h.literal_add 400000 200000 ground arith
    drift_sum-InUnit true false = h.literal_add 400000 0 ground arith
    drift_sum-InUnit false true = h.literal_add 0 200000 ground arith
    drift_sum-InUnit false false = h.literal_add 0 0 ground arith

    choice-InUnit : (b : Bool) → InUnit (if b then one_float m else zero_float m)
    choice-InUnit true = one-InUnit
    choice-InUnit false = zero-InUnit

    sum-nonneg :
        (e : Evidence Float) → le (micro 0) (sum_contributions m (micro 0) (factors m e)) ≡ true
    unfolding sum_contributions factors factor fused drift
    sum-nonneg e =
        h.add_nonneg _ _
          (h.add_nonneg _ _
            (h.add_nonneg _ _
              (h.add_nonneg _ _ (zero-InUnit.0)
                (h.weigh _ 250000 ground arith (choice-InUnit (known_bad e.intel))))
              (h.weigh _ 500000 ground arith (fuse-InUnit _ _ _)))
            (h.weigh _ 150000 ground arith (clamp-InUnit _)))
          (h.weigh _ 100000 ground arith
            (drift_sum-InUnit (static_drift e.static) (runtime_dex e.dynamic)))

    min_one-InUnit : (x : Float) → le (micro 0) x ≡ true → InUnit (min_float m (one_float m) x)
    min_one-InUnit x g = ground (arith, one-InUnit, h.le_of_lt x (micro 1000000))

    raw_value-range : (e : Evidence Float) → (n : ℕ) × (raw_value m e ≡ pos n) × (n ≤ 100)
    unfolding raw_value
    raw_value-range e =
        let in_unit = h.percent _ (min_one-InUnit _ (sum-nonneg e)) in
        let (n, same, low, high) = h.round_between _ 0 100 (omega arith) (in_unit.0) (in_unit.1) in
        (n, same, high)

    -- The value of a score is a whole number from 0 to 100, whatever the evidence holds, when the
    -- floats keep the laws of `IsOrdered`.
    pub score-value_range : (e : Evidence Float) → (n : ℕ) × ((score m e).value ≡ pos n) × (n ≤ 100)
    unfolding score value
    score-value_range e = range (known_bad e.intel) (raw_value-range e)
      where
        range :
            (b : Bool) {v : ℤ}
            → ((n : ℕ) × (v ≡ pos n) × (n ≤ 100))
            → (n : ℕ) × ((if b then pos 100 else v) ≡ pos n) × (n ≤ 100)
        range true bound = (100, refl, ground arith)
        range false bound = bound
