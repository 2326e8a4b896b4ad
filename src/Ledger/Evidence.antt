-- ===== src/Ledger/Evidence.antt =====
-- drishti/contracts/evidence.py: the types of evidence and their wire values. A `StrEnum` member
-- is its text, so two types are compared by their values.
use c_s_cool_stuff.Prelude.{
  String, ◌≡◌, refl, Bool, Option, none, some, List, [], ◌∷◌, str_eq, elem, if◌then◌else◌,
}

pub data EvidenceType : Type 0 where
  file_meta split_apk threat_intel : EvidenceType
  manifest_entry permission_combo certificate string_const code_method : EvidenceType
  decompiled_method deobfuscated_string call_path sink_hit overprivilege : EvidenceType
  api_trace network_flow decrypted_blob file_write dex_load screenshot : EvidenceType
  evasion_check morph_action generative_c2 detonation : EvidenceType
  ai_claim ai_hypothesis technique_map vision_match ai_tool_call : EvidenceType
  report_generated ml_prediction anomaly_signal score_factor : EvidenceType
  error analyst_action : EvidenceType

-- `type.value`
unfoldable pub value : EvidenceType → String
value file_meta = "file_meta"
value split_apk = "split_apk"
value threat_intel = "threat_intel"
value manifest_entry = "manifest_entry"
value permission_combo = "permission_combo"
value certificate = "certificate"
value string_const = "string_const"
value code_method = "code_method"
value decompiled_method = "decompiled_method"
value deobfuscated_string = "deobfuscated_string"
value call_path = "call_path"
value sink_hit = "sink_hit"
value overprivilege = "overprivilege"
value api_trace = "api_trace"
value network_flow = "network_flow"
value decrypted_blob = "decrypted_blob"
value file_write = "file_write"
value dex_load = "dex_load"
value screenshot = "screenshot"
value evasion_check = "evasion_check"
value morph_action = "morph_action"
value generative_c2 = "generative_c2"
value detonation = "detonation"
value ai_claim = "ai_claim"
value ai_hypothesis = "ai_hypothesis"
value technique_map = "technique_map"
value vision_match = "vision_match"
value ai_tool_call = "ai_tool_call"
value report_generated = "report_generated"
value ml_prediction = "ml_prediction"
value anomaly_signal = "anomaly_signal"
value score_factor = "score_factor"
value error = "error"
value analyst_action = "analyst_action"

abbrev all_types : List EvidenceType
all_types =
    file_meta ∷ split_apk ∷ threat_intel ∷ manifest_entry ∷ permission_combo ∷ certificate
    ∷ string_const ∷ code_method ∷ decompiled_method ∷ deobfuscated_string ∷ call_path ∷ sink_hit
    ∷ overprivilege ∷ api_trace ∷ network_flow ∷ decrypted_blob ∷ file_write ∷ dex_load ∷ screenshot
    ∷ evasion_check ∷ morph_action ∷ generative_c2 ∷ detonation ∷ ai_claim ∷ ai_hypothesis
    ∷ technique_map ∷ vision_match ∷ ai_tool_call ∷ report_generated ∷ ml_prediction
    ∷ anomaly_signal ∷ score_factor ∷ error ∷ analyst_action ∷ []

first_with_value : String → List EvidenceType → Option EvidenceType
unfolding value
first_with_value s [] = none
first_with_value s (t ∷ ts) = if str_eq (value t) s then some t else first_with_value s ts

-- `EvidenceType(text)`; `none` is its ValueError.
unfoldable pub of_value : String → Option EvidenceType
unfolding first_with_value
of_value s = first_with_value s all_types

-- `GROUNDING_REQUIRED`
abbrev pub grounding_required : List String
grounding_required = "ai_claim" ∷ []

-- `type in GROUNDING_REQUIRED`
unfoldable pub needs_grounding : EvidenceType → Bool
unfolding value
needs_grounding t = elem (value t) grounding_required

-- A type read back from the text that the store wrote for it is the type that was written.
pub of_value-value : (t : EvidenceType) → of_value (value t) ≡ some t
unfolding of_value value
of_value-value file_meta = refl
of_value-value _ = refl
