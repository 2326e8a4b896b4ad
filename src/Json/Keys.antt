-- ===== src/Json/Keys.antt =====
-- A Python dictionary has no key twice.
use c_s_cool_stuff.Prelude.{String, ◌≢◌}
use c_s_cool_stuff.Json.{
  Json, null, bool, int, float, str, arr, obj, Items, nil, cons, Fields, end, field,
}

module _ {F : Type 0} where
  -- No entry has the key `k`.
  abbrev pub IsFresh : String → Fields F → Type 0
  IsFresh k end = Unit
  IsFresh k (field j v fs) = (j ≢ k) × IsFresh k fs

  unfoldable mutual
    pub DistinctKeys : Json F → Type 0
    DistinctKeys null = Unit
    DistinctKeys (bool b) = Unit
    DistinctKeys (int n) = Unit
    DistinctKeys (float x) = Unit
    DistinctKeys (str s) = Unit
    DistinctKeys (arr xs) = AllDistinct xs
    DistinctKeys (obj fs) = DistinctFields fs

    pub AllDistinct : Items F → Type 0
    AllDistinct nil = Unit
    AllDistinct (cons x xs) = DistinctKeys x × AllDistinct xs

    pub DistinctFields : Fields F → Type 0
    DistinctFields end = Unit
    DistinctFields (field k v fs) = IsFresh k fs × DistinctKeys v × DistinctFields fs
