-- ===== src/Prelude/CodePoints.antt =====
-- Texts as lists of code points, for code that walks them: Python's slices, prefixes, `strip`,
-- `lower` and decimal numerals, on ASCII.
use Prim.Native.Nat.{ℕ, zero, suc, ◌+◌, ◌/◌, ◌%◌}
use Prim.Native.Char.{code}
use Prim.Native.String.{String}
use mathlib.Core.Path.{◌≡◌, refl}
use mathlib.Core.Logic.{◌↔◌}
use mathlib.Core.Bool.{Bool, true, false, ◌&&◌, ◌||◌}
use mathlib.Core.Option.{Option, none, some}
use mathlib.Core.List.{List, [], ◌∷◌, map, reverse}
use native.Mathlib.Omega.{arith}
use c_s_cool_stuff.Prelude.Tests.{leb, ◌==◌, if◌then◌else◌}

abbrev pub Codes : Type 0
Codes = List ℕ

abbrev pub codes : String → Codes
codes String.[] = []
codes (String.◌∷◌ c s) = code c ∷ codes s

-- `s == t`
unfoldable pub same : Codes → Codes → Bool
same [] [] = true
same (a ∷ s) (b ∷ t) = (a == b) && same s t
same _ _ = false

pub same_iff : (s t : Codes) → (same s t ≡ true) ↔ (s ≡ t)
unfolding same
same_iff [] [] = (λ h. refl, λ h. refl)
same_iff [] (b ∷ t) = (λ h. cc, λ h. cc)
same_iff (a ∷ s) [] = (λ h. cc, λ h. cc)
same_iff (a ∷ s) (b ∷ t) = ground (arith, same_iff s t)

-- `s in texts`
unfoldable pub is_in : Codes → List Codes → Bool
unfolding same
is_in s [] = false
is_in s (t ∷ ts) = same t s || is_in s ts

-- `s.removeprefix(t)`, and `none` where `t` is no prefix of `s`.
unfoldable pub without_prefix : Codes → Codes → Option Codes
without_prefix [] s = some s
without_prefix (a ∷ t) [] = none
without_prefix (a ∷ t) (b ∷ s) = let rest = without_prefix t s in if a == b then rest else none

abbrev pub is_digit : ℕ → Bool
is_digit c = leb b'0' c && leb c b'9'

abbrev pub is_space : ℕ → Bool
is_space c = (leb 9 c && leb c 13) || c == 32

abbrev lower_code : ℕ → ℕ
lower_code c = if leb b'A' c && leb c b'Z' then c + 32 else c

-- `s.lower()`
unfoldable pub lower : Codes → Codes
lower s = map lower_code s

unfoldable pub strip_left : Codes → Codes
strip_left [] = []
strip_left (c ∷ s) = let rest = strip_left s in if is_space c then rest else c ∷ s

-- `s.strip()`
unfoldable pub strip : Codes → Codes
unfolding strip_left
strip s = reverse (strip_left (reverse (strip_left s)))

-- The digits of `n`, last first, on fuel.
digits_back : ℕ → ℕ → Codes
digits_back zero n = []
digits_back (suc fuel) n =
    let rest = digits_back fuel (n / 10) in
    let d = n % 10 + b'0' in if leb n 9 then d ∷ [] else d ∷ rest

-- `str(n)`
unfoldable pub decimal : ℕ → Codes
unfolding digits_back
decimal n = reverse (digits_back (suc n) n)

-- `s.startswith(t)`
abbrev pub starts_with : Codes → Codes → Bool
starts_with [] s = true
starts_with (a ∷ t) [] = false
starts_with (a ∷ t) (b ∷ s) = a == b && starts_with t s

-- `t in s`
unfoldable pub is_part : Codes → Codes → Bool
is_part t [] = starts_with t []
is_part t (c ∷ s) = starts_with t (c ∷ s) || is_part t s
