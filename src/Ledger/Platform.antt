-- ===== src/Ledger/Platform.antt =====
-- What the ledger takes from outside the repository: Python's floats and their rounding, the JSON
-- text of a value, SHA-256, and Ed25519 keys. `IsLawful` is what the ledger relies on.
use c_s_cool_stuff.Prelude.{String, ◌≡◌, Bool, true, Option, some, arith, if◌then◌else◌}
use c_s_cool_stuff.Json.{Json, normalise}
use c_s_cool_stuff.Json.Keys.{DistinctKeys}

pub record Platform : Type 1 where
  pub Float : Type 0
  -- `round(x, 6)`
  pub round_6 : Float → Float
  -- `x == 0`, which holds of both zeros
  pub is_zero : Float → Bool
  pub zero_float : Float
  pub Text : Type 0
  -- `json.dumps(..., sort_keys=True, separators=(",", ":"), ensure_ascii=False)` of a value whose
  -- keys are sorted already
  pub dumps : Json Float → Text
  -- `json.loads`; `none` is its JSONDecodeError.
  pub loads : Text → Option (Json Float)
  -- `hashlib.sha256(text.encode("utf-8")).hexdigest()`
  pub sha256 : Text → String
  pub PrivateKey : Type 0
  pub PublicKey : Type 0
  pub public_key : PrivateKey → PublicKey
  -- `sign` and `verify` of crypto.py, on hex digests and hex signatures
  pub sign : PrivateKey → String → String
  pub verify : PublicKey → String → String → Bool

module _ (p : Platform) where
  open p use {Float, round_6, is_zero, zero_float, dumps, loads, public_key, sign, verify}

  -- The float case of `normalise`: six decimals, and no negative zero.
  unfoldable pub round_float : Float → Float
  round_float x = let rounded = round_6 x in if is_zero rounded then zero_float else rounded

  pub record IsLawful : Type 0 where
    pub round_twice : (x : Float) → round_6 (round_6 x) ≡ round_6 x
    pub round_zero : round_6 zero_float ≡ zero_float
    pub zero_is_zero : is_zero zero_float ≡ true
    -- The text of a normalised value, of dictionaries with no key twice, is read back as it was.
    pub loads-dumps :
        (j : Json Float)
        → DistinctKeys j
        → loads (dumps (normalise round_float j)) ≡ some (normalise round_float j)
    pub verify-sign : (k : p.PrivateKey) (d : String) → verify (public_key k) d (sign k d) ≡ true

  pub round_float_twice : IsLawful → (x : Float) → round_float (round_float x) ≡ round_float x
  unfolding round_float
  round_float_twice h x = ground (arith, h.round_twice x, h.round_zero, h.zero_is_zero)
