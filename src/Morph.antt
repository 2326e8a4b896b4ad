-- ===== src/Morph.antt =====
-- drishti/m3_dynamic/morph.py: the check of a morph's parameters, which a model may have written, before
-- they reach a command surface. The parameters are a JSON object.
pub mod Clean
use c_s_cool_stuff.Prelude.{
  ℕ, zero, suc, ◌+◌, ℤ, pos, negsuc, String, Bool, true, false, not, ◌&&◌, ◌||◌, Option, none, some,
  List, [], ◌∷◌, leb, ltb, ◌==◌, any, all, length, elem, str_eq, Codes, codes, is_digit,
  if◌then◌else◌,
}
use c_s_cool_stuff.Json.{
  Json, null, bool, int, float, str, arr, obj, Items, nil, cons, Fields, end, field, get_field,
}
use c_s_cool_stuff.Ledger.Store.{is_falsy, iterate, ok, err}

pub data MorphKind : Type 0 where
  install_packages sms_history contacts accounts sim_locale build_props : MorphKind
  clock_skew files_present generative_c2 : MorphKind

-- What a check does: nothing, `MorphValidationError`, or a TypeError where Python cannot iterate.
pub data Check : Type 0 where
  accepted refused type_error : Check

infixr 5 ◌>>◌
abbrev pub ◌>>◌ : Check → Check → Check
accepted >> after = after
refused >> after = refused
type_error >> after = type_error

abbrev pub require : Bool → Check
require true = accepted
require false = refused

-- `_SHELL_META` and `_BIDI_OVERRIDES`
abbrev pub shell_meta : List ℕ
shell_meta = 59 ∷ 124 ∷ 38 ∷ 36 ∷ 96 ∷ 62 ∷ 60 ∷ 10 ∷ 13 ∷ 0 ∷ []

abbrev pub bidi_overrides : List ℕ
bidi_overrides = 8234 ∷ 8235 ∷ 8236 ∷ 8237 ∷ 8238 ∷ 8294 ∷ 8295 ∷ 8296 ∷ []

abbrev pub one_of : List ℕ → ℕ → Bool
one_of cs c = any (λ d. d == c) cs

-- `".." in value`
unfoldable pub has_two_dots : Codes → Bool
has_two_dots [] = false
has_two_dots (c ∷ []) = false
has_two_dots (c ∷ d ∷ s) = (c == 46 && d == 46) || has_two_dots (d ∷ s)

-- `_reject_dangerous_string`
unfoldable pub reject_dangerous_string : Bool → Codes → Check
reject_dangerous_string allow_spaces value =
    require (leb (length value) 300)
    >> require (not (any (one_of shell_meta) value))
    >> require (not (any (one_of bidi_overrides) value))
    >> require (not (any (λ c. c == 47) value || any (λ c. c == 92) value || has_two_dots value))
    >> require (allow_spaces || not (any (λ c. c == 32) value))

abbrev is_lower : ℕ → Bool
is_lower c = leb 97 c && leb c 122

abbrev in_name : ℕ → Bool
in_name c = is_lower c || is_digit c || c == 95

-- The rest of a package name after `dots` dots; a segment is fresh right after its dot.
unfoldable pub segments : ℕ → Bool → Codes → Bool
segments dots fresh [] = leb 1 dots && not fresh
segments dots fresh (c ∷ s) =
    if c == 46
    then (not fresh && ltb dots 6) && segments (suc dots) true s
    else in_name c && segments dots false s

-- `_PACKAGE_RE.fullmatch`
unfoldable pub is_package : Codes → Bool
unfolding segments
is_package [] = false
is_package (c ∷ s) = is_lower c && segments 0 false s

-- `_SIM_FIELDS`: `none` is an unknown field.
unfoldable pub sim_field : String → Codes → Option Bool
sim_field key value =
    if str_eq key "sim_country_iso"
    then some (length value == 2 && all is_lower value)
    else if str_eq key "network_operator_name"
    then some (
        (leb 1 (length value) && leb (length value) 20)
        && all (λ c. is_lower c || (leb 65 c && leb c 90) || is_digit c || c == 32) value)
    else if str_eq key "sim_operator"
    then some ((leb 5 (length value) && leb (length value) 6) && all is_digit value)
    else none

abbrev pub allowed_build_props : List String
allowed_build_props =
    "MODEL" ∷ "FINGERPRINT" ∷ "PRODUCT" ∷ "HARDWARE" ∷ "MANUFACTURER" ∷ "BRAND" ∷ "DEVICE" ∷ []

module _ {F : Type 0} (is_zero : F → Bool) where
  abbrev checked_package : Json F → Check
  checked_package (str s) = require (leb (length (codes s)) 128) >> require (is_package (codes s))
  checked_package _ = refused

  unfoldable pub check_packages : Items F → Check
  check_packages nil = accepted
  check_packages (cons x xs) = checked_package x >> check_packages xs

  unfoldable pub count_items : Items F → ℕ
  count_items nil = 0
  count_items (cons x xs) = suc (count_items xs)

  -- `_validate_packages`
  unfoldable pub validate_packages : Fields F → Check
  unfolding check_packages count_items
  validate_packages params = elim (get_field "packages" params) [
    | some (arr nil) ↦ refused
    | some (arr (cons x xs)) ↦
        require (leb (suc (count_items xs)) 20) >> checked_package x >> check_packages xs
    | _ ↦ refused
  ]

  -- `params.get(key, default) or []`
  abbrev list_or_empty : String → Fields F → Json F
  list_or_empty key params = elim (get_field key params) [
    | none ↦ arr nil
    | some v ↦ if is_falsy is_zero v then arr nil else v
  ]

  abbrev checked_body : Json F → Check
  checked_body (str s) = require (leb (length (codes s)) 300)
  checked_body _ = refused

  unfoldable pub check_bodies : List (Json F) → Check
  check_bodies [] = accepted
  check_bodies (x ∷ xs) = checked_body x >> check_bodies xs

  abbrev in_range : Option (Json F) → Check
  in_range none = accepted
  in_range (some (int (pos n))) = require (leb n 200)
  in_range (some _) = refused

  -- `_validate_sms`
  unfoldable pub validate_sms : Fields F → Check
  unfolding check_bodies iterate
  validate_sms params =
      in_range (get_field "count" params) >> elim (iterate (list_or_empty "bodies" params)) [
        | ok bodies ↦ check_bodies bodies
        | err e ↦ type_error
      ]

  abbrev at_most : ℕ → Json F → Check
  at_most n (arr xs) = require (leb (count_items xs) n)
  at_most n _ = refused

  -- `_validate_contacts` and `_validate_accounts`
  unfoldable pub validate_contacts : Fields F → Check
  unfolding count_items
  validate_contacts params = at_most 100 (list_or_empty "contacts" params)

  unfoldable pub validate_accounts : Fields F → Check
  unfolding count_items
  validate_accounts params = at_most 20 (list_or_empty "accounts" params)

  abbrev checked_sim : String → Json F → Check
  checked_sim key (str s) = elim (sim_field key (codes s)) [
    | none ↦ refused
    | some fits ↦ require fits
  ]
  checked_sim key _ = refused

  -- `_validate_sim`
  unfoldable pub validate_sim : Fields F → Check
  unfolding sim_field
  validate_sim end = accepted
  validate_sim (field key v params) = checked_sim key v >> validate_sim params

  unfoldable pub known_props : Fields F → Check
  known_props end = accepted
  known_props (field key v params) = require (elem key allowed_build_props) >> known_props params

  abbrev is_text : Json F → Bool
  is_text (str s) = true
  is_text _ = false

  unfoldable pub text_props : Fields F → Check
  text_props end = accepted
  text_props (field key v params) = require (is_text v) >> text_props params

  -- `_validate_build_props`
  unfoldable pub validate_build_props : Fields F → Check
  unfolding known_props text_props
  validate_build_props params = known_props params >> text_props params

  -- `_validate_clock`
  unfoldable pub validate_clock : Fields F → Check
  validate_clock params = elim (get_field "offset_days" params) [
    | none ↦ accepted
    | some (int (pos n)) ↦ require (leb n 3650)
    | some (int (negsuc n)) ↦ require (leb (suc n) 3650)
    | some _ ↦ refused
  ]

  abbrev checked_name : Json F → Check
  checked_name (str s) = reject_dangerous_string false (codes s)
  checked_name _ = refused

  unfoldable pub check_names : Items F → Check
  check_names nil = accepted
  check_names (cons x xs) = checked_name x >> check_names xs

  -- `_validate_files`
  unfoldable pub validate_files : Fields F → Check
  unfolding check_names count_items
  validate_files params = elim (list_or_empty "names" params) [
    | arr xs ↦ require (leb (count_items xs) 100) >> check_names xs
    | _ ↦ refused
  ]

  -- `_sweep`
  unfoldable mutual
    pub sweep : ℕ → Json F → Check
    sweep depth (str s) = require (leb depth 6) >> reject_dangerous_string true (codes s)
    sweep depth (obj fs) = require (leb depth 6) >> sweep_fields (suc depth) fs
    sweep depth (arr xs) = require (leb depth 6) >> sweep_items (suc depth) xs
    sweep depth null = require (leb depth 6)
    sweep depth (bool b) = require (leb depth 6)
    sweep depth (int n) = require (leb depth 6)
    sweep depth (float x) = require (leb depth 6)

    pub sweep_items : ℕ → Items F → Check
    sweep_items depth nil = accepted
    sweep_items depth (cons x xs) = sweep depth x >> sweep_items depth xs

    pub sweep_fields : ℕ → Fields F → Check
    sweep_fields depth end = accepted
    sweep_fields depth (field k v fs) = sweep depth v >> sweep_fields depth fs

  abbrev validate_kind : MorphKind → Fields F → Check
  validate_kind install_packages params = validate_packages params
  validate_kind sms_history params = validate_sms params
  validate_kind contacts params = validate_contacts params
  validate_kind accounts params = validate_accounts params
  validate_kind sim_locale params = validate_sim params
  validate_kind build_props params = validate_build_props params
  validate_kind clock_skew params = validate_clock params
  validate_kind files_present params = validate_files params
  validate_kind generative_c2 params = accepted

  unfoldable pub validate_morph : MorphKind → Fields F → Check
  unfolding sweep
  validate_morph kind params = validate_kind kind params >> sweep 0 (obj params)
