-- ===== src/Score/Disclosure.antt =====
-- What a score of drishti/m6_score/engine.py discloses: the references it carries, and that evidence
-- which it names as missing or degraded has no part in it.
use c_s_cool_stuff.Prelude.{
  String, true, false, ◌||◌, Option, none, some, List, [], ◌∷◌, ◌++◌, ◌≡◌, refl, ◌⊎◌, inl, inr,
  arith, elem, str_eq, Any, if◌then◌else◌, Bool-cases, ap, ap₂, sym, eq_iff,
}
use c_s_cool_stuff.Score.Inputs.{Floats, Evidence, MlPrediction, GenAiVerdict}
use c_s_cool_stuff.Score.Engine.{
  score, value, band, confidence, base_confidence, gamma, fused, factors, all_refs, limitations,
  ml_limits, genai_limits, static_limits, probability_of, behavioural_of, evidence_of, fuse,
}
unfoldable use c_s_cool_stuff.Score.Engine.{
  band, confidence, base_confidence, gamma, score, value, raw_value, sum_contributions, factor,
  fused, factors, all_refs, limitations, probability_of, evidence_of, behavioural_of, fuse,
}
unfoldable use c_s_cool_stuff.Score.{has_ml, has_behavioural}
use c_s_cool_stuff.Score.{
  static_refs, ml_refs, genai_refs, dynamic_refs, unique, add_unseen, has_ml, has_behavioural,
  escalates, Limitation, ml_unavailable, ml_partial, behavioural_unavailable, behavioural_partial,
}
unfoldable use c_s_cool_stuff.Score.{unique, add_unseen}

-- No text stands twice in the list.
abbrev pub NoRepeat : List String → Type 0
NoRepeat [] = Unit
NoRepeat (x ∷ xs) = (elem x xs ≡ false) × NoRepeat xs

elem-append : (x : String) (xs ys : List String) → elem x (xs ++ ys) ≡ elem x xs || elem x ys
elem-append x [] ys = refl
elem-append x (y ∷ ys) zs = grind (arith, elem-append x ys zs)

NoRepeat-append :
    (x : String) (xs : List String) → NoRepeat xs → elem x xs ≡ false → NoRepeat (xs ++ x ∷ [])
NoRepeat-append x [] h g = (refl, tt)
NoRepeat-append x (y ∷ ys) h g =
    ground (arith, NoRepeat-append x ys, elem-append y ys (x ∷ []), eq_iff x y, eq_iff y x)

elem_same : (x y : String) (xs : List String) → str_eq y x ≡ true → elem x xs ≡ elem y xs
elem_same x y xs h = ap (λ z. elem z xs) (sym ((eq_iff y x).0 h))

-- One step of `unique`.
abbrev one_more : List String → String → List String
one_more seen y = if elem y seen then seen else seen ++ y ∷ []

elem-one_more :
    (x : String) (seen : List String) (y : String)
    → elem x (one_more seen y) ≡ elem x seen || str_eq y x
elem-one_more x seen y = grind (
  arith,
  elem-append x seen (y ∷ []),
  elem_same x y seen,
  Bool-cases (elem y seen),
  Bool-cases (str_eq y x),
)

elem-add_unseen :
    (x : String) (seen xs : List String) → elem x (add_unseen seen xs) ≡ elem x seen || elem x xs
unfolding add_unseen
elem-add_unseen x seen [] = grind arith
elem-add_unseen x seen (y ∷ ys) =
    grind (arith, elem-add_unseen x (one_more seen y) ys, elem-one_more x seen y)

NoRepeat-one_more : (y : String) (seen : List String) → NoRepeat seen → NoRepeat (one_more seen y)
NoRepeat-one_more y seen h = ground (arith, NoRepeat-append y seen h)

NoRepeat-add_unseen : (xs seen : List String) → NoRepeat seen → NoRepeat (add_unseen seen xs)
unfolding add_unseen
NoRepeat-add_unseen [] seen h = h
NoRepeat-add_unseen (y ∷ ys) seen h =
    NoRepeat-add_unseen ys (one_more seen y) (NoRepeat-one_more y seen h)

elem-unique : (x : String) (xs : List String) → elem x (unique xs) ≡ elem x xs
unfolding unique
elem-unique x xs = elem-add_unseen x [] xs

NoRepeat-unique : (xs : List String) → NoRepeat (unique xs)
unfolding unique
NoRepeat-unique xs = NoRepeat-add_unseen xs [] tt

abbrev pub Discloses : Limitation → List Limitation → Type 0
Discloses l ls = Any (λ k. k ≡ l) ls

Any-append-l : (l : Limitation) (xs ys : List Limitation) → Discloses l xs → Discloses l (xs ++ ys)
Any-append-l l [] ys h = elim h [ ]
Any-append-l l (x ∷ xs) ys h = ground (arith, Any-append-l l xs ys)

-- The texts of the four lists, as the factors repeat them.
elem-all :
    (x : String) (s l g d : List String)
    → elem x (unique (unique (l ++ g) ++ (unique s ++ (unique (s ++ d) ++ []))))
      ≡ elem x s || (elem x l || (elem x g || elem x d))
elem-all x s l g d =
    let gs = elem-append x l g in
    let ds = elem-append x s d in
    let first = elem-append x (unique (l ++ g)) (unique s ++ (unique (s ++ d) ++ [])) in
    let second = elem-append x (unique s) (unique (s ++ d) ++ []) in
    let third = elem-append x (unique (s ++ d)) [] in
    let all = elem-unique x (unique (l ++ g) ++ (unique s ++ (unique (s ++ d) ++ []))) in
    grind (
      arith,
      gs,
      ds,
      first,
      second,
      third,
      all,
      elem-unique x (l ++ g),
      elem-unique x s,
      elem-unique x (s ++ d),
    )

module _ (m : Floats) (e : Evidence m.Float) where
  -- The references of a score stand in it once each, and they are those of the static report, the
  -- prediction, the verdict and the trace.
  score-ledger_refs :
      (NoRepeat (score m e).ledger_refs)
      × ((x : String)
          → elem x (score m e).ledger_refs
            ≡ elem x (static_refs e.static)
              || (elem x (ml_refs e.ml)
                  || (elem x (genai_refs e.genai) || elem x (dynamic_refs e.dynamic))))
  unfolding score factors factor all_refs
  score-ledger_refs = (
    NoRepeat-unique _,
    λ x.
        elem-all x (static_refs e.static) (ml_refs e.ml) (genai_refs e.genai)
          (dynamic_refs e.dynamic),
  )

  without_genai : Evidence m.Float
  without_genai = record e { genai = none }

  without_ml : Evidence m.Float
  without_ml = record e { ml = none }

value_of_fused :
    (m : Floats) (e : Evidence m.Float) (l : Option (MlPrediction m.Float))
    (g : Option (GenAiVerdict m.Float))
    → fused m e ≡ fused m (record e { ml = l; genai = g })
    → value m e ≡ value m (record e { ml = l; genai = g })
unfolding value raw_value sum_contributions factors factor
value_of_fused m e l g h = cc

Discloses-prefix :
    (l : Limitation) (xs ys : List Limitation) → Discloses l ys → Discloses l (xs ++ ys)
Discloses-prefix l [] ys h = h
Discloses-prefix l (x ∷ xs) ys h = inr (Discloses-prefix l xs ys h)

module _ (m : Floats) where
  genai_limits-Discloses :
      (o : Option (GenAiVerdict m.Float))
      → has_behavioural o ≡ false
      → (Discloses behavioural_unavailable (genai_limits m o))
        ⊎ (Discloses behavioural_partial (genai_limits m o))
  unfolding has_behavioural
  genai_limits-Discloses none h = inl (inl refl)
  genai_limits-Discloses (some v) h = ground arith

  probability_of-unusable :
      (o : Option (MlPrediction m.Float)) → has_ml o ≡ false → probability_of m o ≡ none
  unfolding probability_of
  probability_of-unusable none h = refl
  probability_of-unusable (some p) h = ground arith

  behavioural_of-unusable :
      (o : Option (GenAiVerdict m.Float))
      → has_behavioural o ≡ false
      → (behavioural_of m o ≡ none) × (evidence_of m o ≡ none)
  unfolding behavioural_of evidence_of
  behavioural_of-unusable none h = (refl, refl)
  behavioural_of-unusable (some v) h = ground arith

-- A prediction that the score may not use, and what is to be said of it: there is none, or none of a trained
-- model, or a partial one.
abbrev pub Lacks : {F : Type 0} → Option (MlPrediction F) → Limitation → Type 0
Lacks none l = l ≡ ml_unavailable
Lacks (some p) l =
    ((elem p.model_version ("none" ∷ "stub" ∷ []) ≡ true) × (l ≡ ml_unavailable))
    ⊎ ((elem p.model_version ("none" ∷ "stub" ∷ []) ≡ false)
        × (p.partial ≡ true)
        × (l ≡ ml_partial))

Lacks-unusable :
    {F : Type 0} (o : Option (MlPrediction F)) (l : Limitation) → Lacks o l → has_ml o ≡ false
unfolding has_ml
Lacks-unusable none l h = refl
Lacks-unusable (some p) l h = ground arith

Lacks-Discloses :
    (m : Floats) (o : Option (MlPrediction m.Float)) (l : Limitation)
    → Lacks o l
    → Discloses l (ml_limits m o)
Lacks-Discloses m none l h = inl (sym h)
Lacks-Discloses m (some p) l h = ground arith

-- Neither the value nor the band nor the confidence reads anything else of a prediction.
same_score :
    (m : Floats) (e : Evidence m.Float)
    → has_ml e.ml ≡ false
    → probability_of m e.ml ≡ none
    → escalates e.ml ≡ false
    → let s = score m e in
      let t = score m (record e { ml = none }) in
      (s.value ≡ t.value) × (s.band ≡ t.band) × (s.confidence ≡ t.confidence) × (s.gamma ≡ t.gamma)
unfolding score value band confidence base_confidence gamma raw_value sum_contributions factors
    factor fused has_ml probability_of
same_score m e h q u = (cc, cc, cc, cc)

unusable-escalates :
    {F : Type 0} (o : Option (MlPrediction F)) → has_ml o ≡ false → escalates o ≡ false
unusable-escalates none h = refl
unusable-escalates (some p) h = ground arith

module _ (m : Floats) (e : Evidence m.Float) where
  -- A prediction that is absent, of no trained model or partial leaves the value, the band, the confidence
  -- and the coverage what they are without one, and the score says that the model was unavailable, or
  -- that it was partial, as the case is.
  pub score-unusable_ml :
      (l : Limitation)
      → Lacks e.ml l
      → let s = score m e in
        let t = score m (record e { ml = none }) in
        (s.value ≡ t.value)
        × (s.band ≡ t.band)
        × (s.confidence ≡ t.confidence)
        × (s.gamma ≡ t.gamma)
        × Discloses l s.limitations
  unfolding score limitations
  score-unusable_ml l h =
      let unusable = Lacks-unusable e.ml l h in
      let (v, b, c, g) =
        same_score m e unusable (probability_of-unusable m e.ml unusable)
          (unusable-escalates e.ml unusable) in
      (
        v,
        b,
        c,
        g,
        Discloses-prefix _ (static_limits m e.static) _
            (Any-append-l _ _ _ (Lacks-Discloses m e.ml l h)),
      )

  -- A verdict that is absent, partial or of the mock provider leaves the value what it is without one,
  -- and the score says that the behavioural analysis was unavailable or partial.
  score-unusable_genai :
      has_behavioural e.genai ≡ false
      → ((score m e).value ≡ (score m (record e { genai = none })).value)
        × ((Discloses Limitation.behavioural_unavailable (score m e).limitations)
            ⊎ (Discloses Limitation.behavioural_partial (score m e).limitations))
  unfolding score fused behavioural_of evidence_of limitations
  score-unusable_genai h =
      let (b, q) = behavioural_of-unusable m e.genai h in
      (
        value_of_fused m e e.ml none (ap₂ (fuse m (probability_of m e.ml)) q b),
        elim (genai_limits-Discloses m e.genai h) [
          | inl d ↦ inl (genai_limits_tail _ d)
          | inr d ↦ inr (genai_limits_tail _ d)
        ],
      )
    where
      genai_limits_tail :
          (l : Limitation) → Discloses l (genai_limits m e.genai) → Discloses l (limitations m e)
      genai_limits_tail l d =
          Discloses-prefix l (static_limits m e.static) _
            (Discloses-prefix l (ml_limits m e.ml) _ (Any-append-l l _ _ d))
