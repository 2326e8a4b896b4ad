-- ===== src/Prelude/TextOrder.antt =====
-- The order of texts by code points is total.
use Prim.Native.Nat.{ℕ, Ordering, compare as compare_ℕ}
use Prim.Native.Char.{code}
use Prim.Native.String.{String, [], ◌∷◌, compare, then}
use Prim.Native.String.compare as compare_clauses
use mathlib.Core.Path.{◌≡◌}
use mathlib.Core.Bool.{Bool, true, false}
use native.Mathlib.Omega.{arith}

abbrev not_gt : Ordering → Bool
not_gt Ordering.gt = false
not_gt _ = true

-- `s <= t`: Python compares texts by code points.
unfoldable pub str_leb : String → String → Bool
str_leb s t = not_gt (compare s t)

abbrev flip : Ordering → Ordering
flip Ordering.lt = Ordering.gt
flip Ordering.eq = Ordering.eq
flip Ordering.gt = Ordering.lt

compare_flip : (m n : ℕ) → compare_ℕ m n ≡ flip (compare_ℕ n m)
compare_flip m n = ground arith

then-flip : (a b a' b' : Ordering) → a ≡ flip a' → b ≡ flip b' → then a b ≡ flip (then a' b')
then-flip a b a' b' p q = ground arith

compare_texts_flip : (s t : String) → compare s t ≡ flip (compare t s)
compare_texts_flip [] [] = cc (compare_clauses.nil-nil)
compare_texts_flip [] (d ∷ t) =
    ground (arith, compare_clauses.nil-cons d t, compare_clauses.cons-nil d t)
compare_texts_flip (c ∷ s) [] =
    ground (arith, compare_clauses.nil-cons c s, compare_clauses.cons-nil c s)
compare_texts_flip (c ∷ s) (d ∷ t) =
    rw (compare_clauses.cons-cons c d s t, compare_clauses.cons-cons d c t s)
      (then-flip (compare_ℕ (code c) (code d)) (compare s t) (compare_ℕ (code d) (code c))
        (compare t s) (compare_flip (code c) (code d)) (compare_texts_flip s t))

pub str_leb_total : (s t : String) → str_leb s t ≡ false → str_leb t s ≡ true
unfolding str_leb
str_leb_total s t h = ground (arith, compare_texts_flip s t)
