-- ===== src/Safety/Weights.antt =====
-- `behavioural_risk` and `behavioural_evidence` of drishti/m4_genai/safety.py: what can move them.
use c_s_cool_stuff.Prelude.{
  ℕ, String, true, ◌&&◌, Option, List, [], ◌∷◌, ◌≡◌, ◌≢◌, refl, ap, ap₂, ◌∙◌, arith, if◌then◌else◌,
}
use c_s_cool_stuff.Json.{Fields, get_field}
use c_s_cool_stuff.Score.Inputs.{Floats}
use c_s_cool_stuff.Safety.{
  is_true, contributing, add_behaviours, holds, add_context, behavioural_risk, behavioural_evidence,
  behaviour_weights, context_weights, Weight, more, less, weigh, b_base, risk_of, evidence_of,
}
unfoldable use c_s_cool_stuff.Safety.{
  contributing, add_behaviours, add_context, behavioural_risk, behavioural_evidence,
}

module _ (m : Floats) where
  open m use {Float, micro, add, neg, le, round_6}

  -- Two answers assert the same names of the table.
  abbrev pub SameAssertions : Fields Float → Fields Float → List (String × ℕ) → Type 0
  SameAssertions f g [] = Unit
  SameAssertions f g ((name, weight) ∷ table) =
      (is_true (get_field name f) ≡ is_true (get_field name g)) × SameAssertions f g table

  abbrev pub SameContext :
      Option (Fields Float) → Option (Fields Float) → List (String × Weight) → Type 0
  SameContext c d [] = Unit
  SameContext c d ((name, weight) ∷ table) =
      (holds m c name ≡ holds m d name) × SameContext c d table

  contributing_ext :
      (f g : Fields Float) (table : List (String × ℕ))
      → SameAssertions f g table
      → contributing m f table ≡ contributing m g table
  unfolding contributing
  contributing_ext f g [] h = refl
  contributing_ext f g ((name, weight) ∷ table) (e, h) =
      ground (arith, e, contributing_ext f g table h)

  add_behaviours_ext :
      (f g : Fields Float) (table : List (String × ℕ)) (z : Float)
      → SameAssertions f g table
      → add_behaviours m f z table ≡ add_behaviours m g z table
  unfolding add_behaviours
  add_behaviours_ext f g [] z h = refl
  add_behaviours_ext f g ((name, weight) ∷ table) z (e, h) =
      ap
        (λ b.
          add_behaviours m f
            (if b && m.lt (micro 0) (micro weight) then add z (micro weight) else z) table)
        e
      ∙ add_behaviours_ext f g table _ h

  add_context_ext :
      (c d : Option (Fields Float)) (table : List (String × Weight)) (z : Float)
      → SameContext c d table
      → add_context m c z table ≡ add_context m d z table
  unfolding add_context
  add_context_ext c d [] z h = refl
  add_context_ext c d ((name, weight) ∷ table) z (e, h) =
      ap (λ b. add_context m c (if b then add z (weigh m weight) else z) table) e
      ∙ add_context_ext c d table _ h

  totals_ext :
      (f g : Fields Float) (c d : Option (Fields Float)) (z : Float)
      → SameAssertions f g behaviour_weights
      → SameContext c d context_weights
      → add_context m c (add_behaviours m f z behaviour_weights) context_weights
        ≡ add_context m d (add_behaviours m g z behaviour_weights) context_weights
  totals_ext f g c d z h k =
      add_context_ext c d context_weights (add_behaviours m f z behaviour_weights) k
      ∙ ap (λ z'. add_context m d z' context_weights) (add_behaviours_ext f g behaviour_weights z h)

  -- Two answers of the model and two contexts that hold `True` under the same names of the two tables
  -- have the same risk, the same contributing names and the same evidence, whatever else they hold: other
  -- names, and values that are not `True`, count for nothing.
  behavioural_risk_ext :
      (f g : Fields Float) (c d : Option (Fields Float))
      → SameAssertions f g behaviour_weights
      → SameContext c d context_weights
      → (behavioural_risk m f c ≡ behavioural_risk m g d)
        × (behavioural_evidence m f c ≡ behavioural_evidence m g d)
  unfolding behavioural_risk behavioural_evidence
  behavioural_risk_ext f g c d h k =
      let names = contributing_ext f g behaviour_weights h in
      (
        ap₂ (risk_of m) names (totals_ext f g c d (b_base m) h k),
        ap₂ (evidence_of m) names (totals_ext f g c d (micro 0) h k),
      )

  -- What Python promises of floats that are compared, none of which is nan: a sum with a literal grows with
  -- its first part, and is no less than it for a literal that is not negative; rounding keeps the order.
  pub record IsMonotone : Type 0 where
    pub zero_le : le (micro 0) (micro 0) ≡ true
    pub le_left : (x y : Float) → le x y ≡ true → le x x ≡ true
    pub le_right : (x y : Float) → le x y ≡ true → le y y ≡ true
    pub le_trans : (x y z : Float) → le x y ≡ true → le y z ≡ true → le x z ≡ true
    pub add_le :
        (x y : Float) (n : ℕ) → le x y ≡ true → le (add x (micro n)) (add y (micro n)) ≡ true
    pub add_neg_le :
        (x y : Float) (n : ℕ)
        → le x y ≡ true
        → le (add x (neg (micro n))) (add y (neg (micro n))) ≡ true
    pub le-add : (x : Float) (n : ℕ) → le x x ≡ true → le x (add x (micro n)) ≡ true
    pub round_6_le : (x y : Float) → le x y ≡ true → le (round_6 x) (round_6 y) ≡ true

  -- The second answer asserts each name of the table that the first asserts.
  abbrev pub AssertsAll : Fields Float → Fields Float → List (String × ℕ) → Type 0
  AssertsAll f g [] = Unit
  AssertsAll f g ((name, weight) ∷ table) =
      (is_true (get_field name f) ≡ true → is_true (get_field name g) ≡ true) × AssertsAll f g table

  contributing-AssertsAll :
      (f g : Fields Float) (table : List (String × ℕ))
      → AssertsAll f g table
      → contributing m f table ≢ []
      → contributing m g table ≢ []
  unfolding contributing
  contributing-AssertsAll f g [] h some_name = some_name
  contributing-AssertsAll f g ((name, weight) ∷ table) (a, h) some_name =
      ground (arith, a, some_name, contributing-AssertsAll f g table h)

  module _ (laws : IsMonotone) where
    add_behaviours_le :
        (f g : Fields Float) (table : List (String × ℕ)) (x y : Float)
        → AssertsAll f g table
        → le x y ≡ true
        → le (add_behaviours m f x table) (add_behaviours m g y table) ≡ true
    unfolding add_behaviours
    add_behaviours_le f g [] x y h o = o
    add_behaviours_le f g ((name, weight) ∷ table) x y (a, h) o =
        add_behaviours_le f g table _ _ h (
          ground (
            arith,
            a,
            o,
            laws.add_le x y weight o,
            laws.le-add y weight (laws.le_right x y o),
            laws.le_trans x y (add y (micro weight)) o,
          ))

    add_context_le :
        (c : Option (Fields Float)) (table : List (String × Weight)) (x y : Float)
        → le x y ≡ true
        → le (add_context m c x table) (add_context m c y table) ≡ true
    unfolding add_context
    add_context_le c [] x y o = o
    add_context_le c ((name, more n) ∷ table) x y o =
        add_context_le c table _ _ (ground (arith, o, laws.add_le x y n o))
    add_context_le c ((name, less n) ∷ table) x y o =
        add_context_le c table _ _ (ground (arith, o, laws.add_neg_le x y n o))

    both_claim :
        (names others : List String) (x y : Float)
        → names ≢ []
        → others ≢ []
        → le (round_6 x) (round_6 y) ≡ true
        → le (evidence_of m names x) (evidence_of m others y) ≡ true
    both_claim [] others x y h k o = elim (h refl) [ ]
    both_claim (name ∷ names) [] x y h k o = elim (k refl) [ ]
    both_claim (name ∷ names) (other ∷ others) x y h k o = o

    -- On floats that keep these laws, an answer that asserts everything in the table of behaviours that
    -- another one asserts, which asserts something of positive weight, has no less evidence in the same
    -- context.
    pub behavioural_evidence_mono :
        (f g : Fields Float) (c : Option (Fields Float))
        → AssertsAll f g behaviour_weights
        → contributing m f behaviour_weights ≢ []
        → le (behavioural_evidence m f c) (behavioural_evidence m g c) ≡ true
    unfolding behavioural_evidence
    behavioural_evidence_mono f g c h some_name =
        let total = laws.round_6_le _ _ (
          add_context_le c context_weights _ _
            (add_behaviours_le f g behaviour_weights (micro 0) (micro 0) h laws.zero_le)) in
        both_claim (contributing m f behaviour_weights) (contributing m g behaviour_weights) _ _
          some_name (contributing-AssertsAll f g behaviour_weights h some_name) total
