-- ===== src/GenerativeC2/InertText.antt =====
-- The texts that the gate of drishti/m3_dynamic/generative_c2.py lets pass.
use c_s_cool_stuff.Prelude.{
  ℕ, zero, suc, ◌≤◌, true, false, ◌||◌, Option, List, [], ◌∷◌, Codes, is_in, same, ltb, length,
  take, any, ◌≡◌, refl, subst, ◌⊎◌, inl, inr, arith, Bool-cases, if-elim, same_iff, All,
}
use c_s_cool_stuff.GenerativeC2.{
  Neutralisation, passed, max_string_value, sinkhole_url, noop, inert_commands,
  forbidden_command_tokens,
}
use c_s_cool_stuff.GenerativeC2.Texts.{
  without_controls, is_control, is_url, strip, reject_executable,
}
unfoldable use c_s_cool_stuff.GenerativeC2.Texts.{without_controls, is_url}
use c_s_cool_stuff.GenerativeC2.Gate.{keyed, replaced, sanitise_string, shortened}
unfoldable use c_s_cool_stuff.GenerativeC2.Gate.{keyed, replaced, sanitise_string}
unfoldable use c_s_cool_stuff.Prelude.{is_in, same}
use c_s_cool_stuff.GenerativeC2.Steps.{unless_refused-passed, passed-value}

abbrev pub HasNoControl : Codes → Type 0
HasNoControl s = any is_control s ≡ false

without_controls-HasNoControl : (s : Codes) → HasNoControl (without_controls s)
unfolding without_controls
without_controls-HasNoControl [] = refl
without_controls-HasNoControl (c ∷ s) = ground (arith, without_controls-HasNoControl s)

take-HasNoControl : (n : ℕ) (s : Codes) → HasNoControl s → HasNoControl (take n s)
take-HasNoControl zero s h = refl
take-HasNoControl (suc n) [] h = refl
take-HasNoControl (suc n) (c ∷ s) h = ground (arith, take-HasNoControl n s)

length-take : {A : Type 0} (n : ℕ) (s : List A) → length (take n s) ≤ n
length-take zero s = omega arith
length-take (suc n) [] = omega arith
length-take (suc n) (c ∷ s) = omega (arith, length-take n s)

module _ (lower : Codes → Codes) where
  -- What a text under a key may be: at most 512 characters and no control character; under a command
  -- key one of the inert commands, elsewhere `noop`, the sinkhole, or a text that holds no URL, is no
  -- command token, and whose key is not one of URLs.
  abbrev pub IsInertText : List Codes → List Codes → Option Codes → Codes → Type 0
  IsInertText command_keys url_keys key s =
      (length s ≤ max_string_value)
      × HasNoControl s
      × (keyed key command_keys ≡ true → is_in s inert_commands ≡ true)
      × (keyed key command_keys ≡ false
          → (s ≡ noop)
            ⊎ (s ≡ sinkhole_url)
            ⊎ ((keyed key url_keys ≡ false)
                × (is_url s ≡ false)
                × (is_in (lower (strip s)) forbidden_command_tokens ≡ false)))

  shortened-lem :
      (s : Codes)
      → HasNoControl s
      → (length (shortened lower s) ≤ max_string_value) × HasNoControl (shortened lower s)
  shortened-lem s h =
      if-elim (λ t. (length t ≤ max_string_value) × HasNoControl t)
        (ltb max_string_value (length s)) _ s
        (λ e. (length-take max_string_value s, take-HasNoControl max_string_value s h))
        (λ e. (ground arith, h))

  inert-plain :
      (s : Codes) (names : List Codes)
      → All (λ t. (length t ≤ max_string_value) × HasNoControl t) names
      → is_in s names ≡ true
      → (length s ≤ max_string_value) × HasNoControl s
  unfolding is_in
  inert-plain s [] h e = cc
  inert-plain s (t ∷ ts) (p, ps) e = elim (Bool-cases (same t s)) [
    | inl q ↦ subst (λ u. (length u ≤ max_string_value) × HasNoControl u) ((same_iff t s).0 q) p
    | inr q ↦ inert-plain s ts ps ground arith
  ]

  commands-plain : All (λ t. (length t ≤ max_string_value) × HasNoControl t) inert_commands
  commands-plain = (
    (omega arith, refl),
    ((omega arith, refl), ((omega arith, refl), ((omega arith, refl), ((omega arith, refl), tt)))),
  )

  sinkhole-plain : (length sinkhole_url ≤ max_string_value) × HasNoControl sinkhole_url
  sinkhole-plain = (omega arith, refl)

  replaced-IsInertText :
      (command_keys url_keys : List Codes) (key : Option Codes) (s : Codes)
      → length s ≤ max_string_value
      → HasNoControl s
      → IsInertText command_keys url_keys key (replaced lower command_keys url_keys key s)
  unfolding replaced is_in same
  replaced-IsInertText command_keys url_keys key s l c =
      let P = IsInertText command_keys url_keys key in
      if-elim P (keyed key command_keys) _ _
        (λ k.
          if-elim P (is_in (lower (strip s)) inert_commands) _ _
            (λ i.
              let (short, clean) = inert-plain _ inert_commands commands-plain i in
              (short, clean, λ q. i, λ q. cc))
            (λ i. (commands-plain.0.0, commands-plain.0.1, λ q. refl, λ q. inl refl)))
        (λ k.
          if-elim P (keyed key url_keys || is_url s) _ _
            (λ u. (sinkhole-plain.0, sinkhole-plain.1, λ q. cc, λ q. inr (inl refl)))
            (λ u.
              if-elim P (is_in (lower (strip s)) forbidden_command_tokens) _ _
                (λ v. (commands-plain.0.0, commands-plain.0.1, λ q. refl, λ q. inl refl))
                (λ v. (l, c, λ q. cc, λ q. inr (inr (ground arith, ground arith, v))))))

  pub sanitise_string-IsInertText :
      (command_keys url_keys : List Codes) (key : Option Codes) (s t : Codes)
      (ns : List Neutralisation)
      → sanitise_string lower command_keys url_keys key s ≡ passed t ns
      → IsInertText command_keys url_keys key t
  unfolding sanitise_string
  sanitise_string-IsInertText command_keys url_keys key s t ns h =
      let clean = without_controls s in
      let (short, plain) = shortened-lem clean (without_controls-HasNoControl s) in
      subst (IsInertText command_keys url_keys key)
        (passed-value _ t _ ns (unless_refused-passed (reject_executable s) _ t ns h))
        (replaced-IsInertText command_keys url_keys key (shortened lower clean) short plain)
