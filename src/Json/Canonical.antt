-- ===== src/Json/Canonical.antt =====
-- `normalise` of drishti/ledger/crypto.py reaches a canonical form: normalising again changes nothing.
use c_s_cool_stuff.Prelude.{
  String, ◌≡◌, refl, ap, ap₂, true, inl, inr, Bool-cases, arith, str_leb, str_leb_total,
}
use c_s_cool_stuff.Json.{
  Json, null, bool, int, float, str, arr, obj, Items, nil, cons, Fields, end, field, insert_field,
  normalise, normalise_items, normalise_fields,
}

module _ {F : Type 0} (round : F → F) where
  -- The first key of a dictionary is not below `k`.
  abbrev StartsAt : String → Fields F → Type 0
  StartsAt k end = Unit
  StartsAt k (field j v fs) = str_leb k j ≡ true

  unfoldable mutual
    IsCanonical : Json F → Type 0
    IsCanonical null = Unit
    IsCanonical (bool b) = Unit
    IsCanonical (int n) = Unit
    IsCanonical (float x) = round x ≡ x
    IsCanonical (str s) = Unit
    IsCanonical (arr xs) = AreCanonical xs
    IsCanonical (obj fs) = HasCanonical fs

    AreCanonical : Items F → Type 0
    AreCanonical nil = Unit
    AreCanonical (cons x xs) = IsCanonical x × AreCanonical xs

    HasCanonical : Fields F → Type 0
    HasCanonical end = Unit
    HasCanonical (field k v fs) = IsCanonical v × StartsAt k fs × HasCanonical fs

  StartsAt-insert :
      (j k : String) (v : Json F) (fs : Fields F)
      → str_leb j k ≡ true
      → StartsAt j fs
      → StartsAt j (insert_field k v fs)
  unfolding insert_field
  StartsAt-insert j k v end h s = h
  StartsAt-insert j k v (field i w fs) h s = ground arith

  insert-HasCanonical :
      (k : String) (v : Json F) (fs : Fields F)
      → IsCanonical v
      → HasCanonical fs
      → HasCanonical (insert_field k v fs)
  unfolding insert_field IsCanonical
  insert-HasCanonical k v end c h = (c, tt, tt)
  insert-HasCanonical k v (field j w fs) c h = elim (Bool-cases (str_leb k j)) [
    | inl before ↦ rw before (c, before, h)
    | inr after ↦ rw after (
      h.0,
      StartsAt-insert j k v fs (str_leb_total k j after) h.1,
      insert-HasCanonical k v fs c h.2,
    )
  ]

  module _ (idempotent : (x : F) → round (round x) ≡ round x) where
    mutual
      unfolding normalise IsCanonical

      normalise-IsCanonical : (j : Json F) → IsCanonical (normalise round j)
      normalise-IsCanonical null = tt
      normalise-IsCanonical (bool b) = tt
      normalise-IsCanonical (int n) = tt
      normalise-IsCanonical (float x) = idempotent x
      normalise-IsCanonical (str s) = tt
      normalise-IsCanonical (arr xs) = normalise_items-AreCanonical xs
      normalise-IsCanonical (obj fs) = normalise_fields-HasCanonical fs

      normalise_items-AreCanonical : (xs : Items F) → AreCanonical (normalise_items round xs)
      normalise_items-AreCanonical nil = tt
      normalise_items-AreCanonical (cons x xs) =
          (normalise-IsCanonical x, normalise_items-AreCanonical xs)

      normalise_fields-HasCanonical : (fs : Fields F) → HasCanonical (normalise_fields round fs)
      normalise_fields-HasCanonical end = tt
      normalise_fields-HasCanonical (field k v fs) =
          insert-HasCanonical k (normalise round v) (normalise_fields round fs)
            (normalise-IsCanonical v) (normalise_fields-HasCanonical fs)

  insert-StartsAt :
      (k : String) (v : Json F) (fs : Fields F) → StartsAt k fs → insert_field k v fs ≡ field k v fs
  unfolding insert_field
  insert-StartsAt k v end h = refl
  insert-StartsAt k v (field j w fs) h = rw h

  mutual
    unfolding normalise IsCanonical

    normalise_fixed : (j : Json F) → IsCanonical j → normalise round j ≡ j
    normalise_fixed null c = refl
    normalise_fixed (bool b) c = refl
    normalise_fixed (int n) c = refl
    normalise_fixed (float x) c = ap float c
    normalise_fixed (str s) c = refl
    normalise_fixed (arr xs) c = ap arr (normalise_items_fixed xs c)
    normalise_fixed (obj fs) c = ap obj (normalise_fields_fixed fs c)

    normalise_items_fixed : (xs : Items F) → AreCanonical xs → normalise_items round xs ≡ xs
    normalise_items_fixed nil c = refl
    normalise_items_fixed (cons x xs) c =
        ap₂ cons (normalise_fixed x c.0) (normalise_items_fixed xs c.1)

    normalise_fields_fixed : (fs : Fields F) → HasCanonical fs → normalise_fields round fs ≡ fs
    normalise_fields_fixed end c = refl
    normalise_fields_fixed (field k v fs) c =
        rw (normalise_fixed v c.0, normalise_fields_fixed fs c.2) (insert-StartsAt k v fs c.1)

-- Canonicalisation is idempotent, when rounding one float twice is rounding it once.
pub normalise-normalise :
    {F : Type 0} (round : F → F)
    → ((x : F) → round (round x) ≡ round x)
    → (j : Json F) → normalise round (normalise round j) ≡ normalise round j
normalise-normalise round idempotent j =
    normalise_fixed round (normalise round j) (normalise-IsCanonical round idempotent j)
