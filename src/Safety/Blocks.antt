-- ===== src/Safety/Blocks.antt =====
-- `wrap_untrusted` of drishti/m4_genai/safety.py: no text of a sample opens or closes a tag.
use c_s_cool_stuff.Prelude.{
  ℕ, zero, suc, ◌+◌, ◌-◌, ◌/◌, ◌%◌, Bool, true, false, [], ◌∷◌, ◌++◌, ◌≡◌, refl, ◌∙◌, arith, ◌==◌,
  ◌⊎◌, inl, inr, ltb, take, length, Codes, codes, if-elim, if◌then◌else◌,
}
use c_s_cool_stuff.Safety.{
  escape_one, escape, digits, disclosure, after_kind, untrusted_close, block, wrap_untrusted,
  max_block_chars,
}
unfoldable use c_s_cool_stuff.Safety.{escape_one, escape, digits, disclosure, wrap_untrusted}

-- How often a character stands in a text
unfoldable pub occurrences : ℕ → Codes → ℕ
occurrences c [] = 0
occurrences c (d ∷ text) = let rest = occurrences c text in if d == c then suc rest else rest

occurrences-append :
    (c : ℕ) (s t : Codes) → occurrences c (s ++ t) ≡ occurrences c s + occurrences c t
unfolding occurrences
occurrences-append c [] t = omega arith
occurrences-append c (d ∷ s) t = ground (arith, occurrences-append c s t)

-- The characters that delimit a tag or an attribute: `<`, `>` and the double quote
abbrev pub IsDelimiter : ℕ → Type 0
IsDelimiter c = (c ≡ 60) ⊎ (c ≡ 62) ⊎ (c ≡ 34)

occurrences-escape_one : (c d : ℕ) → IsDelimiter c → occurrences c (escape_one d) ≡ 0
unfolding occurrences escape_one
occurrences-escape_one c d h = ground arith

occurrences-escape : (c : ℕ) (text : Codes) → IsDelimiter c → occurrences c (escape text) ≡ 0
unfolding escape occurrences
occurrences-escape c [] h = refl
occurrences-escape c (d ∷ text) h = omega (
  arith,
  occurrences-append c (escape_one d) (escape text),
  occurrences-escape_one c d h,
  occurrences-escape c text h,
)

occurrences-digits : (c fuel n : ℕ) → IsDelimiter c → occurrences c (digits fuel n) ≡ 0
unfolding digits occurrences
occurrences-digits c zero n h = refl
occurrences-digits c (suc fuel) n h = ground (
  arith,
  occurrences-digits c fuel (n / 10) h,
  occurrences-append c (digits fuel (n / 10)) ((48 + n % 10) ∷ []),
)

skip : (c : ℕ) (s t : Codes) → occurrences c s ≡ 0 → occurrences c (s ++ t) ≡ occurrences c t
skip c s t h = omega (arith, occurrences-append c s t)

occurrences-disclosure : (c n : ℕ) → IsDelimiter c → occurrences c (disclosure n) ≡ 0
unfolding disclosure occurrences
occurrences-disclosure c n h = grind (
  arith,
  occurrences-append c (digits n n) (codes " more characters omitted]"),
  occurrences-digits c n n h,
)

-- The quotes and brackets of a block whose parts have none
open_tags :
    (kind body : Codes) (truncated : Bool)
    → occurrences 60 kind ≡ 0
    → occurrences 60 body ≡ 0
    → occurrences 60 (block kind truncated body) ≡ 2
unfolding occurrences
open_tags kind body true h g =
    omega (arith, skip 60 kind (after_kind true body) h, skip 60 body (10 ∷ untrusted_close) g)
open_tags kind body false h g =
    omega (arith, skip 60 kind (after_kind false body) h, skip 60 body (10 ∷ untrusted_close) g)

close_tags :
    (kind body : Codes) (truncated : Bool)
    → occurrences 62 kind ≡ 0
    → occurrences 62 body ≡ 0
    → occurrences 62 (block kind truncated body) ≡ 2
unfolding occurrences
close_tags kind body true h g =
    omega (arith, skip 62 kind (after_kind true body) h, skip 62 body (10 ∷ untrusted_close) g)
close_tags kind body false h g =
    omega (arith, skip 62 kind (after_kind false body) h, skip 62 body (10 ∷ untrusted_close) g)

quotes :
    (kind body : Codes) (truncated : Bool)
    → occurrences 34 kind ≡ 0
    → occurrences 34 body ≡ 0
    → occurrences 34 (block kind truncated body) ≡ 4
unfolding occurrences
quotes kind body true h g =
    omega (arith, skip 34 kind (after_kind true body) h, skip 34 body (10 ∷ untrusted_close) g)
quotes kind body false h g =
    omega (arith, skip 34 kind (after_kind false body) h, skip 34 body (10 ∷ untrusted_close) g)

-- Two tags, and the quotes of two attributes
abbrev pub IsOneBlock : Codes → Type 0
IsOneBlock text = (occurrences 60 text ≡ 2) × (occurrences 62 text ≡ 2) × (occurrences 34 text ≡ 4)

block-IsOneBlock :
    (kind body : Codes) (truncated : Bool)
    → ((c : ℕ) → IsDelimiter c → occurrences c kind ≡ 0)
    → ((c : ℕ) → IsDelimiter c → occurrences c body ≡ 0)
    → IsOneBlock (block kind truncated body)
block-IsOneBlock kind body truncated h g = (
  open_tags kind body truncated (h 60 (inl refl)) (g 60 (inl refl)),
  close_tags kind body truncated (h 62 (inr (inl refl))) (g 62 (inr (inl refl))),
  quotes kind body truncated (h 34 (inr (inr refl))) (g 34 (inr (inr refl))),
)

-- Whatever the text and its kind are, the wrapped text has exactly two `<`, two `>` and four double
-- quotes, those of its own two tags and of their two attributes.
pub wrap_untrusted-IsOneBlock : (text kind : Codes) → IsOneBlock (wrap_untrusted text kind)
unfolding wrap_untrusted
wrap_untrusted-IsOneBlock text kind =
    let escaped = escape (take max_block_chars text) in
    if-elim IsOneBlock (ltb max_block_chars (length text)) _ _
      (λ long.
        block-IsOneBlock (escape kind) (escaped ++ disclosure (length text - max_block_chars)) true
          (λ c h. occurrences-escape c kind h)
          (λ c h.
            skip c escaped _ (occurrences-escape c (take max_block_chars text) h)
            ∙ occurrences-disclosure c (length text - max_block_chars) h))
      (λ short.
        block-IsOneBlock (escape kind) escaped false (λ c h. occurrences-escape c kind h)
          (λ c h. occurrences-escape c (take max_block_chars text) h))
