-- ===== src/Prelude/Texts.antt =====
-- Texts: equality, and membership in a list of names.
use Prim.Native.String.{String}
use mathlib.Core.Bool.{Bool, false, ◌||◌}
use mathlib.Core.List.{List, [], ◌∷◌}
use text.Mathlib.Text.{◌==◌}

-- `s == t` on texts
abbrev pub str_eq : String → String → Bool
str_eq s t = s == t

-- `s in names`
abbrev pub elem : String → List String → Bool
elem s [] = false
elem s (x ∷ xs) = str_eq x s || elem s xs
