-- ===== src/Harness/Named.antt =====
-- `package_name` of drishti/m3_dynamic/harness.py finds names that are not empty.
use c_s_cool_stuff.Prelude.{
  ◌≡◌, refl, subst, true, Option, none, some, [], ◌∷◌, Codes, codes, ℕ, without_prefix,
}
use c_s_cool_stuff.Artifact.{is_given}
use c_s_cool_stuff.Harness.Steps.{unless_empty, quoted, package_here, search_package}

-- The package that was identified has a name.
given_name :
    (found : Option Codes) {name : Codes}
    → unless_empty found ≡ some name
    → is_given (some name) ≡ true
given_name none h = cc
given_name (some []) h = cc
given_name (some (c ∷ s)) h = subst (λ t. is_given (some t) ≡ true) (some_injective h) refl
  where
    some_injective : {x y : Codes} → some x ≡ some y → x ≡ y
    some_injective e = cc

pub name_parts :
    (name : Codes) → is_given (some name) ≡ true → (c : ℕ) × (n : Codes) × (name ≡ c ∷ n)
name_parts [] h = cc
name_parts (c ∷ n) h = (c, n, refl)

found_here :
    (o : Option Codes) {name : Codes}
    → (elim o as (λ _. Option Codes) [ none ↦ none | some rest ↦ unless_empty (quoted rest) ])
      ≡ some name
    → is_given (some name) ≡ true
found_here none h = cc
found_here (some rest) h = given_name (quoted rest) h

found_first :
    (here later : Option Codes) {name : Codes}
    → (here ≡ some name → is_given (some name) ≡ true)
    → (later ≡ some name → is_given (some name) ≡ true)
    → (elim here as (λ _. Option Codes) [ none ↦ later | some n ↦ some n ]) ≡ some name
    → is_given (some name) ≡ true
found_first none later f g h = g h
found_first (some n) later f g h = f h

pub search_package-named :
    (text : Codes) {name : Codes} → search_package text ≡ some name → is_given (some name) ≡ true
unfolding search_package
search_package-named [] h = cc
search_package-named (c ∷ s) h =
    found_first (package_here (c ∷ s)) (search_package s)
      (found_here (without_prefix (codes "package: name='") (c ∷ s))) (search_package-named s) h
