-- ===== src/GenerativeC2.antt =====
-- drishti/m3_dynamic/generative_c2.py: the values of a response, its texts, the gate that makes a
-- response inert, and the response served. A text is the list of its code points.
pub mod Texts
pub mod Gate
mod Steps
pub mod InertText
pub mod Unarmed
pub mod Inert
pub mod Response
use c_s_cool_stuff.Prelude.{ℕ, ℤ, Bool, Option, List, [], ◌∷◌, map, Codes, codes}

-- What `_sanitise` tells apart. A list and a tuple are one constructor, a dictionary is its entries in
-- order, `other` is a value that JSON does not have.
mutual
  pub data Value (F : Type 0) : Type 0 where
    null : Value F
    bool : Bool → Value F
    int : ℤ → Value F
    float : F → Value F
    text : Codes → Value F
    array : Values F → Value F
    object : Entries F → Value F
    other : Value F

  pub data Values (F : Type 0) : Type 0 where
    nil : Values F
    cons : Value F → Values F → Values F

  pub data Entries (F : Type 0) : Type 0 where
    end : Entries F
    entry : Codes → Value F → Entries F → Entries F

-- One line of `neutralisations`; `command` and `verb` and `url` keep the value replaced.
pub data Neutralisation : Type 0 where
  truncated : ℕ → Neutralisation
  command : Codes → Codes → Neutralisation
  url : Codes → Neutralisation
  verb : Codes → Neutralisation

-- The reasons of `NotProvablyInertError`, in the order of the source.
pub data Refusal : Type 0 where
  not_an_object too_many_keys response_too_large too_deep nested_too_many_keys : Refusal
  not_json executable_bytes executable_base64_prefix executable_base64 : Refusal

-- A step that adds lines to `neutralisations`, or refuses.
pub data Gated (A : Type 0) : Type 0 where
  refused : Refusal → Gated A
  passed : A → List Neutralisation → Gated A

pub data C2ResponseKind : Type 0 where
  connectivity_ok command_poll registration_ack config inert_payload_stub : C2ResponseKind

pub record C2SchemaHint : Type 0 where
  pub response_kind : C2ResponseKind
  pub command_key : Option Codes
  pub url_keys : List Codes

abbrev pub max_response_bytes : ℕ
max_response_bytes = 4096

abbrev pub max_json_depth : ℕ
max_json_depth = 6

abbrev pub max_string_value : ℕ
max_string_value = 512

abbrev pub max_keys : ℕ
max_keys = 40

abbrev pub sinkhole_url : Codes
sinkhole_url = codes "http://127.0.0.1:9/inert"

abbrev pub noop : Codes
noop = codes "noop"

abbrev pub inert_commands : List Codes
inert_commands = codes "noop" ∷ codes "idle" ∷ codes "wait" ∷ codes "ok" ∷ codes "none" ∷ []

abbrev pub command_slots : List Codes
command_slots =
    codes "cmd" ∷ codes "command" ∷ codes "action" ∷ codes "task" ∷ codes "op" ∷ codes "method" ∷ []

abbrev pub forbidden_command_tokens : List Codes
forbidden_command_tokens = map codes (
    "download" ∷ "install" ∷ "update" ∷ "exec" ∷ "execute" ∷ "run" ∷ "shell" ∷ "cmd" ∷ "command"
    ∷ "payload" ∷ "dropper" ∷ "drop" ∷ "load" ∷ "loaddex" ∷ "dex" ∷ "apk" ∷ "inject" ∷ "overlay"
    ∷ "start" ∷ "sendsms" ∷ "forward" ∷ "wipe" ∷ "lock" ∷ "encrypt" ∷ "ransom" ∷ "grant" ∷ "root"
    ∷ "su" ∷ [])
