-- ===== src/Json.antt =====
-- The JSON values that `canonical_json` of drishti/ledger/crypto.py walks, and `normalise`. Python's
-- floats are a parameter: the type and what `normalise` does to one float. A tuple and a list are
-- one constructor, since JSON has no tuple. A dictionary is its entries in order.
pub mod Keys
pub mod Canonical
use c_s_cool_stuff.Prelude.{ℤ, String, Bool, Option, none, some, str_eq, str_leb, if◌then◌else◌}

mutual
  pub data Json (F : Type 0) : Type 0 where
    null : Json F
    bool : Bool → Json F
    int : ℤ → Json F
    float : F → Json F
    str : String → Json F
    arr : Items F → Json F
    obj : Fields F → Json F

  pub data Items (F : Type 0) : Type 0 where
    nil : Items F
    cons : Json F → Items F → Items F

  pub data Fields (F : Type 0) : Type 0 where
    end : Fields F
    field : String → Json F → Fields F → Fields F

module _ {F : Type 0} where
  -- `d.get(key)`
  unfoldable pub get_field : String → Fields F → Option (Json F)
  get_field k end = none
  get_field k (field j v fs) = if str_eq j k then some v else get_field k fs

  -- One step of `sorted(obj.items(), key=...)`: an entry goes before the first that is not below it.
  unfoldable pub insert_field : String → Json F → Fields F → Fields F
  insert_field k v end = field k v end
  insert_field k v (field j w fs) =
      if str_leb k j then field k v (field j w fs) else field j w (insert_field k v fs)

module _ {F : Type 0} (round : F → F) where
  unfoldable mutual
    pub normalise : Json F → Json F
    normalise null = null
    normalise (bool b) = bool b
    normalise (int n) = int n
    normalise (float x) = float (round x)
    normalise (str s) = str s
    normalise (arr xs) = arr (normalise_items xs)
    normalise (obj fs) = obj (normalise_fields fs)

    pub normalise_items : Items F → Items F
    normalise_items nil = nil
    normalise_items (cons x xs) = cons (normalise x) (normalise_items xs)

    pub normalise_fields : Fields F → Fields F
    normalise_fields end = end
    normalise_fields (field k v fs) = insert_field k (normalise v) (normalise_fields fs)
