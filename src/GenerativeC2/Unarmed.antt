-- ===== src/GenerativeC2/Unarmed.antt =====
-- What the gate of drishti/m3_dynamic/generative_c2.py finds of executables in a proposed response.
use c_s_cool_stuff.Prelude.{
  ℕ, zero, suc, Bool, true, false, ◌||◌, Option, none, some, List, [], ◌∷◌, Codes, ltb, take, any,
  Any, ◌≡◌, refl, ◌⊎◌, inl, inr, arith, starts_with, is_part, if◌then◌else◌, Bool-cases,
}
use c_s_cool_stuff.GenerativeC2.{
  Value, null, bool, int, float, text, array, object, other, Values, nil, cons, Entries, end, entry,
  Neutralisation, Refusal, Gated, too_deep, executable_bytes, executable_base64_prefix,
  nested_too_many_keys, passed, max_json_depth, max_keys,
}
use c_s_cool_stuff.GenerativeC2.Texts.{
  utf_8, try_b64, has_signature, decoded, reject_executable, executable_signatures,
  executable_b64_prefixes,
}
unfoldable use c_s_cool_stuff.GenerativeC2.Texts.{has_signature, reject_executable}
use c_s_cool_stuff.GenerativeC2.Gate.{
  size, put, sanitise_string, sanitise, sanitise_items, sanitise_entries, unless_refused,
}
unfoldable use c_s_cool_stuff.GenerativeC2.Gate.{
  sanitise_string, sanitise, sanitise_items, sanitise_entries,
}
use c_s_cool_stuff.GenerativeC2.Steps.{and_then-passed, guard-passed}

-- The bytes begin with the signature of an executable, or hold one among the first sixteen.
abbrev pub IsSigned : Codes → Type 0
IsSigned bytes =
    Any (λ signature. starts_with signature bytes ≡ true) executable_signatures
    ⊎ Any (λ signature. is_part signature (take 16 bytes) ≡ true) executable_signatures

-- A text is an executable as it is, begins as one in base64, or is one in base64.
abbrev pub IsExecutable : Codes → Type 0
IsExecutable s =
    IsSigned (utf_8 s)
    ⊎ (Any (λ prefix. starts_with prefix s ≡ true) executable_b64_prefixes
        ⊎ ((bytes : Codes) × (try_b64 s ≡ some bytes) × IsSigned bytes))

any-none : (f : Codes → Bool) (xs : List Codes) → any f xs ≡ false → ¬ Any (λ x. f x ≡ true) xs
any-none f [] h a = elim a [ ]
any-none f (x ∷ xs) h a = ground (arith, any-none f xs)

either-none :
    (f g : Codes → Bool) (xs : List Codes)
    → any (λ x. f x || g x) xs ≡ false
    → ¬ (Any (λ x. f x ≡ true) xs ⊎ Any (λ x. g x ≡ true) xs)
either-none f g [] h a = ground arith
either-none f g (x ∷ xs) h a = ground (arith, either-none f g xs)

unsigned : (bytes : Codes) → has_signature bytes ≡ false → ¬ IsSigned bytes
unfolding has_signature
unsigned bytes h =
    either-none (λ signature. starts_with signature bytes)
      (λ signature. is_part signature (take 16 bytes)) executable_signatures h

decoded-unsigned :
    (o : Option Codes) (bytes : Codes) → decoded o ≡ none → o ≡ some bytes → ¬ IsSigned bytes
decoded-unsigned none bytes h e a = cc
decoded-unsigned (some found) bytes h e a =
    let same : found ≡ bytes = ground arith in
    elim (Bool-cases (has_signature found)) [
      | inl q ↦ ground arith
      | inr q ↦ unsigned bytes (rw (← same) q) a
    ]

none_taken :
    (a b : Bool) (x y : Refusal) (o : Option Refusal)
    → (if a then some x else if b then some y else o) ≡ none
    → (a ≡ false) × (b ≡ false) × (o ≡ none)
none_taken true b x y o h = cc
none_taken false true x y o h = cc
none_taken false false x y o h = (refl, refl, h)

reject_executable-none :
    (s : Codes)
    → reject_executable s ≡ none
    → (has_signature (utf_8 s) ≡ false)
      × (any (λ prefix. starts_with prefix s) executable_b64_prefixes ≡ false)
      × (decoded (try_b64 s) ≡ none)
unfolding reject_executable
reject_executable-none s h =
    none_taken (has_signature (utf_8 s))
      (any (λ prefix. starts_with prefix s) executable_b64_prefixes) executable_bytes
      executable_base64_prefix (decoded (try_b64 s)) h

accepted-unarmed : (s : Codes) → reject_executable s ≡ none → ¬ IsExecutable s
accepted-unarmed s h (inl signed) = unsigned (utf_8 s) (reject_executable-none s h).0 signed
accepted-unarmed s h (inr (inl begins)) =
    any-none (λ prefix. starts_with prefix s) executable_b64_prefixes (reject_executable-none s h).1
      begins
accepted-unarmed s h (inr (inr (bytes, same, signed))) =
    decoded-unsigned (try_b64 s) bytes (reject_executable-none s h).2 same signed

accepted_first :
    {A : Type 0} (o : Option Refusal) (g : Gated A) (b : A) (ns : List Neutralisation)
    → unless_refused o g ≡ passed b ns
    → o ≡ none
accepted_first none g b ns h = refl
accepted_first (some r) g b ns h = cc

module _ {F : Type 0} where
  abbrev mutual
    -- No text of a proposed value is an executable; of a list, the items that are kept are meant.
    pub IsUnarmed : Value F → Type 0
    IsUnarmed (text s) = ¬ IsExecutable s
    IsUnarmed (array vs) = AreUnarmed max_keys vs
    IsUnarmed (object fs) = EntriesAreUnarmed fs
    IsUnarmed _ = Unit

    pub AreUnarmed : ℕ → Values F → Type 0
    AreUnarmed room nil = Unit
    AreUnarmed zero (cons v vs) = Unit
    AreUnarmed (suc room) (cons v vs) = IsUnarmed v × AreUnarmed room vs

    pub EntriesAreUnarmed : Entries F → Type 0
    EntriesAreUnarmed end = Unit
    EntriesAreUnarmed (entry k v fs) = IsUnarmed v × EntriesAreUnarmed fs

module _ (lower : Codes → Codes) {F : Type 0} (command_keys url_keys : List Codes) where
  mutual
    unfolding sanitise sanitise_items sanitise_entries sanitise_string

    pub sanitise-IsUnarmed :
        (depth : ℕ) (key : Option Codes) (v w : Value F) (ns : List Neutralisation)
        → sanitise lower command_keys url_keys depth key v ≡ passed w ns
        → IsUnarmed v
    sanitise-IsUnarmed depth key null w ns h = tt
    sanitise-IsUnarmed depth key (bool b) w ns h = tt
    sanitise-IsUnarmed depth key (int n) w ns h = tt
    sanitise-IsUnarmed depth key (float x) w ns h = tt
    sanitise-IsUnarmed depth key (text s) w ns h =
        let (d, e) = guard-passed _ _ _ w ns h in
        let (t, ms, ks, p, q) = and_then-passed _ _ w ns e in
        accepted-unarmed s (accepted_first (reject_executable s) _ t ms p)
    sanitise-IsUnarmed depth key (array vs) w ns h =
        let (d, e) = guard-passed _ _ _ w ns h in
        let (ws, ms, ks, p, q) = and_then-passed _ _ w ns e in
        sanitise_items-AreUnarmed max_keys (suc depth) key vs ws ms p
    sanitise-IsUnarmed depth key (object fs) w ns h =
        let (d, e) = guard-passed (ltb max_json_depth depth) too_deep _ w ns h in
        let (c, e2) = guard-passed (ltb max_keys (size fs)) nested_too_many_keys _ w ns e in
        let (gs, ms, ks, p, q) = and_then-passed _ (λ x. passed (object x) []) w ns e2 in
        sanitise_entries-AreUnarmed (suc depth) fs end gs ms p
    sanitise-IsUnarmed depth key other w ns h = tt

    sanitise_items-AreUnarmed :
        (room depth : ℕ) (key : Option Codes) (vs ws : Values F) (ns : List Neutralisation)
        → sanitise_items lower command_keys url_keys room depth key vs ≡ passed ws ns
        → AreUnarmed room vs
    sanitise_items-AreUnarmed room depth key nil ws ns h = tt
    sanitise_items-AreUnarmed zero depth key (cons v vs) ws ns h = tt
    sanitise_items-AreUnarmed (suc room) depth key (cons v vs) ws ns h =
        let (w, ms, ks, p, q) = and_then-passed _ _ ws ns h in
        let (us, ms2, ks2, p2, q2) = and_then-passed _ _ ws ks q in
        (
          sanitise-IsUnarmed depth key v w ms p,
          sanitise_items-AreUnarmed room depth key vs us ms2 p2,
        )

    sanitise_entries-AreUnarmed :
        (depth : ℕ) (fs done gs : Entries F) (ns : List Neutralisation)
        → sanitise_entries lower command_keys url_keys depth fs done ≡ passed gs ns
        → EntriesAreUnarmed fs
    sanitise_entries-AreUnarmed depth end done gs ns h = tt
    sanitise_entries-AreUnarmed depth (entry k v fs) done gs ns h =
        let (w, ms, ks, p, q) = and_then-passed _ _ gs ns h in
        (
          sanitise-IsUnarmed depth (some k) v w ms p,
          sanitise_entries-AreUnarmed depth fs (put (take 64 k) w done) gs ks q,
        )
