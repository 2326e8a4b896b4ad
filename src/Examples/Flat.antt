-- ===== src/Examples/Flat.antt =====
-- A platform whose texts are the values themselves, and whose digest of a node is the node's id.
use c_s_cool_stuff.Prelude.{ℕ, String, Option, some, str_eq, eq_iff, refl, ◌==◌}
use c_s_cool_stuff.Json.{Json, str, obj, get_field}
unfoldable use c_s_cool_stuff.Json.{get_field}
use c_s_cool_stuff.Ledger.Platform.{Platform, IsLawful}

abbrev text_or_empty : Option (Json ℕ) → String
text_or_empty (some (str s)) = s
text_or_empty _ = ""

abbrev digest : Option (Json ℕ) → String
digest (some (obj fs)) = text_or_empty (get_field "id" fs)
digest _ = ""

-- A text is a value, or is no JSON.
abbrev pub flat : Platform
flat = record {
  Float = ℕ;
  round_6 = λ x. x;
  is_zero = λ x. x == 0;
  zero_float = 0;
  Text = Option (Json ℕ);
  dumps = λ j. some j;
  loads = λ t. t;
  sha256 = digest;
  PrivateKey = Unit {0};
  PublicKey = Unit {0};
  public_key = λ k. k;
  sign = λ k d. d;
  verify = λ k d s. str_eq d s;
}

pub flat-IsLawful : IsLawful flat
flat-IsLawful = record {
  round_twice = λ x. refl;
  round_zero = refl;
  zero_is_zero = refl;
  loads-dumps = λ j d. refl;
  verify-sign = λ k d. (eq_iff d d).1 refl;
}
