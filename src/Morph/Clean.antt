-- ===== src/Morph/Clean.antt =====
-- What `validate_morph` of drishti/m3_dynamic/morph.py lets through.
use c_s_cool_stuff.Prelude.{
  ℕ, ◌≤◌, Bool, true, false, not, ◌||◌, List, [], ◌∷◌, ◌++◌, All, any, length, leb→le, ◌==◌, ◌≡◌,
  ◌≢◌, refl, ap, ◌∙◌, suc, arith, Codes, codes,
}
use c_s_cool_stuff.Json.{
  Json, null, bool, int, float, str, arr, obj, Items, nil, cons, Fields, end, field,
}
use c_s_cool_stuff.Morph.{
  MorphKind, Check, accepted, refused, type_error, ◌>>◌, require, shell_meta, bidi_overrides,
  one_of, has_two_dots, reject_dangerous_string, sweep, sweep_items, sweep_fields, validate_morph,
}
unfoldable use c_s_cool_stuff.Morph.{has_two_dots, reject_dangerous_string, sweep, validate_morph}

-- Shell metacharacters, overrides of the direction of the text, and the two path separators
abbrev pub forbidden : List ℕ
forbidden = shell_meta ++ bidi_overrides ++ 47 ∷ 92 ∷ []

-- A text of at most 300 characters, none of them forbidden, with no two dots in a row.
abbrev pub IsClean : Codes → Type 0
IsClean s =
    (length s ≤ 300)
    × All (λ c. All (λ d. c ≢ d) forbidden) s
    × ((before after : Codes) → s ≢ before ++ 46 ∷ 46 ∷ after)

-- Every text in the value is clean, at any depth. The keys of an object are not looked at.
mutual
  pub Clean : {F : Type 0} → Json F → Type 0
  Clean (str s) = IsClean (codes s)
  Clean (obj fs) = CleanFields fs
  Clean (arr xs) = CleanItems xs
  Clean null = Unit
  Clean (bool b) = Unit
  Clean (int n) = Unit
  Clean (float x) = Unit

  CleanItems : {F : Type 0} → Items F → Type 0
  CleanItems nil = Unit
  CleanItems (cons x xs) = Clean x × CleanItems xs

  CleanFields : {F : Type 0} → Fields F → Type 0
  CleanFields end = Unit
  CleanFields (field k v fs) = Clean v × CleanFields fs

first_accepted : (c d : Check) → c >> d ≡ accepted → (c ≡ accepted) × (d ≡ accepted)
first_accepted accepted d h = (refl, h)
first_accepted refused d h = ground (arith, h)
first_accepted type_error d h = ground (arith, h)

require_accepted : (b : Bool) → require b ≡ accepted → b ≡ true
require_accepted true h = refl
require_accepted false h = ground (arith, h)

harmless :
    (c : ℕ)
    → one_of shell_meta c ≡ false
    → one_of bidi_overrides c ≡ false
    → (c == 47) ≡ false
    → (c == 92) ≡ false
    → All (λ d. c ≢ d) forbidden
harmless c h g f e = ground arith

two_dots : (before after : Codes) → has_two_dots (before ++ 46 ∷ 46 ∷ after) ≡ true
unfolding has_two_dots
two_dots [] after = refl
two_dots (c ∷ []) after = ground arith
two_dots (c ∷ d ∷ before) after = ground (arith, two_dots (d ∷ before) after)

harmless_everywhere :
    (s : Codes)
    → any (one_of shell_meta) s ≡ false
    → any (one_of bidi_overrides) s ≡ false
    → any (λ c. c == 47) s ≡ false
    → any (λ c. c == 92) s ≡ false
    → All (λ c. All (λ d. c ≢ d) forbidden) s
harmless_everywhere [] h g f e = tt
harmless_everywhere (c ∷ s) h g f e =
    let (h1, h2) = neither (one_of shell_meta c) (any (one_of shell_meta) s) h in
    let (g1, g2) = neither (one_of bidi_overrides c) (any (one_of bidi_overrides) s) g in
    let (f1, f2) = neither (c == 47) (any (λ c. c == 47) s) f in
    let (e1, e2) = neither (c == 92) (any (λ c. c == 92) s) e in
    (harmless c h1 g1 f1 e1, harmless_everywhere s h2 g2 f2 e2)
  where
    neither : (a b : Bool) → (a || b) ≡ false → (a ≡ false) × (b ≡ false)
    neither false false n = (refl, refl)
    neither false true n = ground (arith, n)
    neither true b n = ground (arith, n)

false_of_not : (b : Bool) → not b ≡ true → b ≡ false
false_of_not false h = refl
false_of_not true h = ground (arith, h)

no_separator : (a b c : Bool) → not (a || b || c) ≡ true → (a ≡ false) × (b ≡ false) × (c ≡ false)
no_separator a b c h = (ground (arith, h), ground (arith, h), ground (arith, h))

reject_dangerous_string-IsClean :
    (allow_spaces : Bool) (s : Codes)
    → reject_dangerous_string allow_spaces s ≡ accepted
    → IsClean s
unfolding reject_dangerous_string
reject_dangerous_string-IsClean allow_spaces s h =
    let (short, h1) = first_accepted _ _ h in
    let (meta, h2) = first_accepted _ _ h1 in
    let (bidi, h3) = first_accepted _ _ h2 in
    let (path, _) = first_accepted _ _ h3 in
    let (slash, backslash, dots) = no_separator _ _ _ (require_accepted _ path) in
    (
      leb→le (length s) 300 (require_accepted _ short),
      harmless_everywhere s (false_of_not _ (require_accepted _ meta))
          (false_of_not _ (require_accepted _ bidi)) slash backslash,
      λ before after e.
          let found : has_two_dots s ≡ true = ap has_two_dots e ∙ two_dots before after in
          let no : ⊥ = ground (arith, found, dots) in no,
    )

mutual
  unfolding sweep Clean

  sweep-Clean :
      {F : Type 0} (is_zero : F → Bool) (depth : ℕ) (j : Json F)
      → sweep is_zero depth j ≡ accepted
      → Clean j
  sweep-Clean is_zero depth (str s) h =
      reject_dangerous_string-IsClean true (codes s) (first_accepted _ _ h).1
  sweep-Clean is_zero depth (obj fs) h =
      sweep_fields-Clean is_zero (suc depth) fs (first_accepted _ _ h).1
  sweep-Clean is_zero depth (arr xs) h =
      sweep_items-Clean is_zero (suc depth) xs (first_accepted _ _ h).1
  sweep-Clean is_zero depth null h = tt
  sweep-Clean is_zero depth (bool b) h = tt
  sweep-Clean is_zero depth (int n) h = tt
  sweep-Clean is_zero depth (float x) h = tt

  sweep_items-Clean :
      {F : Type 0} (is_zero : F → Bool) (depth : ℕ) (xs : Items F)
      → sweep_items is_zero depth xs ≡ accepted
      → CleanItems xs
  sweep_items-Clean is_zero depth nil h = tt
  sweep_items-Clean is_zero depth (cons x xs) h =
      let (first, rest) = first_accepted _ _ h in
      (sweep-Clean is_zero depth x first, sweep_items-Clean is_zero depth xs rest)

  sweep_fields-Clean :
      {F : Type 0} (is_zero : F → Bool) (depth : ℕ) (fs : Fields F)
      → sweep_fields is_zero depth fs ≡ accepted
      → CleanFields fs
  sweep_fields-Clean is_zero depth end h = tt
  sweep_fields-Clean is_zero depth (field k v fs) h =
      let (first, rest) = first_accepted _ _ h in
      (sweep-Clean is_zero depth v first, sweep_fields-Clean is_zero depth fs rest)

-- Where `validate_morph` accepts, whatever the kind of the morph is, every text among its parameters, at
-- any depth but for the keys, has at most 300 characters, no shell metacharacter, no override of the
-- direction, no path separator and no two dots in a row.
pub validate_morph-Clean :
    {F : Type 0} (is_zero : F → Bool) (kind : MorphKind) (params : Fields F)
    → validate_morph is_zero kind params ≡ accepted
    → Clean (obj params)
unfolding validate_morph
validate_morph-Clean is_zero kind params h =
    sweep-Clean is_zero 0 (obj params) (first_accepted _ _ h).1
