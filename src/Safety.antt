-- ===== src/Safety.antt =====
-- drishti/m4_genai/safety.py: the block around text of a sample, and the weights of what the model asserts.
-- A text that the code walks is a list of code points, and a finding is a JSON value.
pub mod Blocks
pub mod Weights
use c_s_cool_stuff.Prelude.{
  ℕ, zero, suc, ◌+◌, ◌-◌, ◌/◌, ◌%◌, String, Bool, true, false, ◌&&◌, Option, none, some, List, [],
  ◌∷◌, ◌++◌, leb, ltb, ◌==◌, take, length, Codes, codes, if◌then◌else◌,
}
use c_s_cool_stuff.Json.{Json, bool, Fields, get_field}
use c_s_cool_stuff.Score.Inputs.{Floats}

-- `html.escape(text, quote=True)`
unfoldable pub escape_one : ℕ → Codes
escape_one c =
    if c == 38
    then codes "&amp;"
    else if c == 60
    then codes "&lt;"
    else if c == 62
    then codes "&gt;"
    else if c == 34
    then codes "&quot;"
    else if c == 39
    then codes "&#x27;"
    else c ∷ []

unfoldable pub escape : Codes → Codes
unfolding escape_one
escape [] = []
escape (c ∷ text) = escape_one c ++ escape text

-- A number in decimal, of at most `fuel` digits
unfoldable pub digits : ℕ → ℕ → Codes
digits zero n = []
digits (suc fuel) n =
    let rest = digits fuel (n / 10) in
    if ltb n 10 then (48 + n) ∷ [] else rest ++ (48 + n % 10) ∷ []

abbrev pub max_block_chars : ℕ
max_block_chars = 4000

abbrev pub untrusted_open : Codes
untrusted_open = codes "<untrusted_artifact"

abbrev pub untrusted_close : Codes
untrusted_close = codes "</untrusted_artifact>"

-- `str(truncated).lower()`
abbrev lower_bool : Bool → Codes
lower_bool true = codes "true"
lower_bool false = codes "false"

-- What follows a text that was cut; `n` digits suffice for the number `n`.
unfoldable pub disclosure : ℕ → Codes
unfolding digits
disclosure n =
    10 ∷ codes "[TRUNCATED " ++ 8212 ∷ 32 ∷ [] ++ digits n n ++ codes " more characters omitted]"

-- The block around an escaped kind and a body, from the end of the kind
abbrev pub after_kind : Bool → Codes → Codes
after_kind truncated body =
    34 ∷ codes " truncated="
    ++ 34 ∷ lower_bool truncated
    ++ 34 ∷ 62 ∷ 10 ∷ body
    ++ 10 ∷ untrusted_close

abbrev pub block : Codes → Bool → Codes → Codes
block kind truncated body =
    untrusted_open ++ codes " kind=" ++ 34 ∷ kind ++ after_kind truncated body

unfoldable pub wrap_untrusted : Codes → Codes → Codes
unfolding escape disclosure
wrap_untrusted text kind =
    let escaped = escape (take max_block_chars text) in
    if ltb max_block_chars (length text)
    then block (escape kind) true (escaped ++ disclosure (length text - max_block_chars))
    else block (escape kind) false escaped

-- `BEHAVIOUR_WEIGHTS`, in millionths
abbrev pub behaviour_weights : List (String × ℕ)
behaviour_weights =
    ("abuses_accessibility_service", 2000000)
    ∷ ("harvests_contacts_or_call_log", 2000000)
    ∷ ("intercepts_notifications", 2000000)
    ∷ ("overlays_other_apps", 2000000)
    ∷ ("requests_device_admin", 2000000)
    ∷ ("exfiltrates_over_network", 1370000)
    ∷ ("harvests_device_identifiers", 1130000)
    ∷ ("impersonates_a_known_brand", 1130000)
    ∷ ("gates_behaviour_on_installed_apps", 850000)
    ∷ ("monitors_clipboard", 690000)
    ∷ ("sends_sms_without_user_action", 650000)
    ∷ ("encrypts_data_before_sending", 540000)
    ∷ ("detects_analysis_environment", 30000)
    ∷ ("hides_or_disables_its_own_icon", 30000)
    ∷ ("loads_dex_at_runtime", 0)
    ∷ ("reads_sms_content", 0)
    ∷ []

-- A weight of either sign, in millionths
pub data Weight : Type 0 where
  more less : ℕ → Weight

-- `CONTEXT_WEIGHTS`
abbrev pub context_weights : List (String × Weight)
context_weights =
    ("cert_signer_stable_years", less 1130000)
    ∷ ("publisher_trusted", less 2000000)
    ∷ ("lookalike_legitimate_privileged", less 1000000)
    ∷ ("targets_installed_financial_apps", more 1500000)
    ∷ ("debug_certificate", more 1500000)
    ∷ ("capability_use_consistent_with_declared_purpose", less 500000)
    ∷ ("risky_capability_serves_no_plausible_feature", more 500000)
    ∷ []

-- `value is True`
abbrev pub is_true : {F : Type 0} → Option (Json F) → Bool
is_true (some (bool b)) = b
is_true _ = false

module _ (m : Floats) where
  open m use {Float, micro, add, div, neg, exp, lt, le, round_6}

  abbrev pub weigh : Weight → Float
  weigh (more n) = micro n
  weigh (less n) = neg (micro n)

  -- `findings.get(name) is True and weight > 0`
  abbrev pub counts : Fields Float → String → ℕ → Bool
  counts findings name weight = is_true (get_field name findings) && lt (micro 0) (micro weight)

  -- The names that contribute, in the order of the table
  unfoldable pub contributing : Fields Float → List (String × ℕ) → List String
  contributing findings [] = []
  contributing findings ((name, weight) ∷ table) =
      let rest = contributing findings table in
      if counts findings name weight then name ∷ rest else rest

  -- `z += weight` for each of them
  unfoldable pub add_behaviours : Fields Float → Float → List (String × ℕ) → Float
  add_behaviours findings z [] = z
  add_behaviours findings z ((name, weight) ∷ table) =
      add_behaviours findings (if counts findings name weight then add z (micro weight) else z)
        table

  -- `context.get(name) is True`, and `False` where there is no context
  abbrev pub holds : Option (Fields Float) → String → Bool
  holds none name = false
  holds (some context) name = is_true (get_field name context)

  unfoldable pub add_context : Option (Fields Float) → Float → List (String × Weight) → Float
  add_context context z [] = z
  add_context context z ((name, weight) ∷ table) =
      add_context context (if holds context name then add z (weigh weight) else z) table

  -- `_sigmoid`
  unfoldable pub sigmoid : Float → Float
  sigmoid z =
      if le (micro 0) z
      then div (micro 1000000) (add (micro 1000000) (exp (neg z)))
      else let e = exp z in div e (add (micro 1000000) e)

  -- `B_BASE`
  abbrev pub b_base : Float
  b_base = neg (micro 2000000)

  -- Where no name contributes, the risk is 0.
  abbrev pub risk_of : List String → Float → Float × List String
  risk_of [] z = (micro 0, [])
  risk_of (name ∷ names) z = (round_6 (sigmoid z), name ∷ names)

  unfoldable pub behavioural_risk : Fields Float → Option (Fields Float) → Float × List String
  unfolding contributing add_behaviours add_context sigmoid
  behavioural_risk findings context =
      risk_of (contributing findings behaviour_weights)
        (add_context context (add_behaviours findings b_base behaviour_weights) context_weights)

  -- Where no name contributes, the evidence is 0.
  abbrev pub evidence_of : List String → Float → Float
  evidence_of [] z = micro 0
  evidence_of (name ∷ names) z = round_6 z

  -- `behavioural_evidence`; the sum goes from left to right.
  unfoldable pub behavioural_evidence : Fields Float → Option (Fields Float) → Float
  unfolding contributing add_behaviours add_context
  behavioural_evidence findings context =
      evidence_of (contributing findings behaviour_weights)
        (add_context context (add_behaviours findings (micro 0) behaviour_weights) context_weights)
