-- ===== src/GenerativeC2/Gate.antt =====
-- `assert_inert` of drishti/m3_dynamic/generative_c2.py, with `_sanitise` and `_sanitise_string`.
-- Parameters: Python's `lower`, and the length of `json.dumps` of a dictionary.
use c_s_cool_stuff.Prelude.{
  ℕ, zero, suc, Bool, false, ◌||◌, Option, none, some, List, [], ◌∷◌, ◌++◌, Codes, is_in, same, ltb,
  length, take, if◌then◌else◌,
}
use c_s_cool_stuff.GenerativeC2.{
  Value, null, bool, int, float, text, array, object, other, Values, nil, cons, Entries, end, entry,
  Neutralisation, truncated, command, url, verb, Refusal, not_an_object, too_many_keys,
  response_too_large, too_deep, nested_too_many_keys, not_json, Gated, refused, passed,
  C2SchemaHint, max_response_bytes, max_json_depth, max_string_value, max_keys, sinkhole_url, noop,
  inert_commands, command_slots, forbidden_command_tokens,
}
use c_s_cool_stuff.GenerativeC2.Texts.{without_controls, is_url, strip, reject_executable}

-- The lines so far come before those of the next step.
abbrev pub noting : {A : Type 0} → List Neutralisation → Gated A → Gated A
noting ns (refused r) = refused r
noting ns (passed b ms) = passed b (ns ++ ms)

abbrev pub and_then : {A B : Type 0} → Gated A → (A → Gated B) → Gated B
and_then (refused r) f = refused r
and_then (passed a ns) f = noting ns (f a)

-- A check that may raise, before the rest.
abbrev pub unless_refused : {A : Type 0} → Option Refusal → Gated A → Gated A
unless_refused none g = g
unless_refused (some r) g = refused r

-- `key is not None and key in keys`
unfoldable pub keyed : Option Codes → List Codes → Bool
keyed none keys = false
keyed (some k) keys = is_in k keys

module _ {F : Type 0} where
  abbrev pub size : Entries F → ℕ
  size end = 0
  size (entry k v fs) = suc (size fs)

  -- `d[k] = v`: a key that is there keeps its place.
  unfoldable pub put : Codes → Value F → Entries F → Entries F
  put k v end = entry k v end
  put k v (entry j w fs) = if same j k then entry j v fs else entry j w (put k v fs)

module _ (lower : Codes → Codes) where
  -- The key, or the empty text.
  abbrev name_of : Option Codes → Codes
  name_of none = []
  name_of (some k) = k

  abbrev pub shortened : Codes → Codes
  shortened v = if ltb max_string_value (length v) then take max_string_value v else v

  abbrev truncation : Codes → List Neutralisation
  truncation v = if ltb max_string_value (length v) then truncated (length v) ∷ [] else []

  -- What `_sanitise_string` returns of the text without control characters, cut to its length.
  unfoldable pub replaced : List Codes → List Codes → Option Codes → Codes → Codes
  replaced command_keys url_keys key value =
      if keyed key command_keys
      then if is_in (lower (strip value)) inert_commands then lower (strip value) else noop
      else if keyed key url_keys || is_url value
      then sinkhole_url
      else if is_in (lower (strip value)) forbidden_command_tokens
      then noop
      else value

  -- The line it adds. `original` is the text before the control characters were taken out.
  unfoldable pub remark :
      List Codes → List Codes → Option Codes → Codes → Codes → List Neutralisation
  remark command_keys url_keys key original value =
      if keyed key command_keys
      then if is_in (lower (strip value)) inert_commands
        then []
        else command (name_of key) value ∷ []
      else if keyed key url_keys || is_url value
      then if same value sinkhole_url then [] else url (take 60 original) ∷ []
      else if is_in (lower (strip value)) forbidden_command_tokens
      then verb value ∷ []
      else []

  -- `_sanitise_string`
  unfoldable pub sanitise_string : List Codes → List Codes → Option Codes → Codes → Gated Codes
  sanitise_string command_keys url_keys key value =
      let clean = without_controls value in
      unless_refused (reject_executable value) (
        passed (replaced command_keys url_keys key (shortened clean))
          (truncation clean ++ remark command_keys url_keys key value (shortened clean)))

  module _ {F : Type 0} (command_keys url_keys : List Codes) where
    unfoldable mutual
      -- `_sanitise`, at a depth and under a key
      pub sanitise : ℕ → Option Codes → Value F → Gated (Value F)
      sanitise depth key null =
          if ltb max_json_depth depth then refused too_deep else passed null []
      sanitise depth key (bool b) =
          if ltb max_json_depth depth then refused too_deep else passed (bool b) []
      sanitise depth key (int n) =
          if ltb max_json_depth depth then refused too_deep else passed (int n) []
      sanitise depth key (float x) =
          if ltb max_json_depth depth then refused too_deep else passed (float x) []
      sanitise depth key (text s) =
          if ltb max_json_depth depth
          then refused too_deep
          else and_then (sanitise_string command_keys url_keys key s) (λ t. passed (text t) [])
      sanitise depth key (array vs) =
          let inner = sanitise_items max_keys (suc depth) key vs in
          if ltb max_json_depth depth
          then refused too_deep
          else and_then inner (λ ws. passed (array ws) [])
      sanitise depth key (object fs) =
          let inner = sanitise_entries (suc depth) fs end in
          if ltb max_json_depth depth
          then refused too_deep
          else if ltb max_keys (size fs)
          then refused nested_too_many_keys
          else and_then inner (λ gs. passed (object gs) [])
      sanitise depth key other =
          if ltb max_json_depth depth then refused too_deep else refused not_json

      -- The list comprehension, over the first `room` items.
      pub sanitise_items : ℕ → ℕ → Option Codes → Values F → Gated (Values F)
      sanitise_items room depth key nil = passed nil []
      sanitise_items zero depth key (cons v vs) = passed nil []
      sanitise_items (suc room) depth key (cons v vs) =
          and_then (sanitise depth key v)
            (λ w. and_then (sanitise_items room depth key vs) (λ ws. passed (cons w ws) []))

      -- The dictionary comprehension: `done` is the dictionary so far.
      pub sanitise_entries : ℕ → Entries F → Entries F → Gated (Entries F)
      sanitise_entries depth end done = passed done []
      sanitise_entries depth (entry k v fs) done =
          and_then (sanitise depth (some k) v)
            (λ w. sanitise_entries depth fs (put (take 64 k) w done))

module _ (lower : Codes → Codes) {F : Type 0} (dumps_length : Value F → ℕ) where
  -- The keys of the payload that look like a command slot.
  unfoldable pub slots : Entries F → List Codes
  slots end = []
  slots (entry k v fs) = if is_in (lower k) command_slots then k ∷ slots fs else slots fs

  unfoldable pub hinted : Option Codes → List Codes
  hinted none = []
  hinted (some []) = []
  hinted (some k) = k ∷ []

  abbrev pub command_keys_of : C2SchemaHint → Entries F → List Codes
  command_keys_of hint fs = hinted hint.command_key ++ slots fs

  abbrev within_size : Value F → Gated (Value F)
  within_size cleaned =
      if ltb max_response_bytes (dumps_length cleaned)
      then refused response_too_large
      else passed cleaned []

  -- `assert_inert`
  unfoldable pub assert_inert : C2SchemaHint → Value F → Gated (Value F)
  assert_inert hint (object fs) =
      if ltb max_keys (size fs)
      then refused too_many_keys
      else and_then (sanitise lower (command_keys_of hint fs) hint.url_keys 0 none (object fs))
          within_size
  assert_inert hint _ = refused not_an_object
