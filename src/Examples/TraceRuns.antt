-- ===== src/Examples/TraceRuns.antt =====
-- Runs of the call graph search, the response gate, the grouping of hook events and the hypotheses.
use c_s_cool_stuff.Prelude.{
  ℕ, ◌≤◌, ◌+◌, pos, String, true, none, some, List, [], ◌∷◌, ◌≡◌, refl, ◌↔◌, All, Codes, codes,
  is_in, same, arith, length, str_eq, ltb, leb, ◌-◌, ◌*◌, ◌/◌, if◌then◌else◌,
}
unfoldable use c_s_cool_stuff.Prelude.{is_in, same}
use c_s_cool_stuff.CallGraph.{Search, CallPath, backward_paths}
unfoldable use c_s_cool_stuff.CallGraph.{
  backward_paths, loop, next, next_from, visit, go_back, enqueue, is_over, depth_of,
}
use c_s_cool_stuff.CallGraph.Paths.{IsCallPath, backward_paths-IsCallPath}
use c_s_cool_stuff.CallGraph.Ending.{backward_paths-ends}
use c_s_cool_stuff.GenerativeC2.{
  Value, object, text, Entries, entry, end, passed, executable_base64, C2SchemaHint, C2ResponseKind,
  noop,
}
use c_s_cool_stuff.GenerativeC2.Texts.{reject_executable}
unfoldable use c_s_cool_stuff.GenerativeC2.Texts.{
  without_controls, is_url, strip, utf_8, try_b64, has_signature, reject_executable,
}
use c_s_cool_stuff.GenerativeC2.Gate.{sanitise_string, assert_inert}
unfoldable use c_s_cool_stuff.GenerativeC2.Gate.{
  keyed, put, replaced, remark, sanitise_string, sanitise, sanitise_items, sanitise_entries, slots,
  hinted, assert_inert,
}
use c_s_cool_stuff.GenerativeC2.Response.{Proposed}
use c_s_cool_stuff.Hypotheses.{
  Facts, HypothesisKind, hypothesis, derived, all_kinds, sort_by_priority, derive_hypotheses,
}
use c_s_cool_stuff.Hypotheses.Laws.{Holds, Warrants, InOrder, derive_hypotheses_iff}
use c_s_cool_stuff.Normaliser.{Event, aggregate, all_groups, max_observation_groups}
use c_s_cool_stuff.Normaliser.Counts.{drop, sum, weight, aggregate-counts}
use c_s_cool_stuff.Score.Inputs.{Floats}

-- onCreate calls helper, helper calls sink.
abbrev callers_of : String → List String
callers_of name =
    if str_eq name "sink"
    then "helper" ∷ []
    else if str_eq name "helper"
    then "onCreate" ∷ []
    else []

few_callers : (name : String) → length (callers_of name) ≤ 1
few_callers name = ground arith

abbrev search_graph : Search
search_graph = record {
  has_node = λ name. true;
  callers = callers_of;
  entrypoints = λ name. if str_eq name "onCreate" then some "activity" else none;
  max_depth = 6;
  max_paths = 5;
}

abbrev call_path : CallPath
call_path = record {
  sink_id = "sink";
  path = "onCreate" ∷ "helper" ∷ "sink" ∷ [];
  entrypoint = "onCreate";
  entrypoint_kind = "activity";
}

found : backward_paths search_graph "sink" 8 ≡ some (call_path ∷ [])
unfolding backward_paths loop next next_from visit go_back enqueue is_over depth_of
found = refl

backward_paths-IsCallPath_example : All (IsCallPath search_graph "sink") (call_path ∷ []) × (1 ≤ 5)
backward_paths-IsCallPath_example =
    backward_paths-IsCallPath search_graph "sink" 8 (call_path ∷ []) found

backward_paths-ends_example : (r : List CallPath) × (backward_paths search_graph "sink" 9 ≡ some r)
backward_paths-ends_example = backward_paths-ends search_graph 1 "sink" 9 few_callers (omega arith)

-- The texts of these runs are in lower case.
abbrev same_case : Codes → Codes
same_case s = s

abbrev short : Value ℕ → ℕ
short v = 40

abbrev hint : C2SchemaHint
hint = record { response_kind = C2ResponseKind.command_poll; command_key = none; url_keys = [] }

abbrev payload : Entries ℕ
payload = entry (codes "note") (text (codes "install")) end

abbrev cleaned : Value ℕ
cleaned = object (entry (codes "note") (text noop) end)

-- A control character in front hides a base64 DEX from the check, and is then taken out.
abbrev dex_text : Codes
dex_text = codes "ZGV4CjAzNQAA"

hidden_executable :
    (sanitise_string same_case [] [] none (1 ∷ dex_text) ≡ passed dex_text [])
    × (reject_executable dex_text ≡ some executable_base64)
unfolding sanitise_string replaced remark keyed without_controls is_url strip utf_8 try_b64
    has_signature reject_executable is_in same
hidden_executable = (refl, refl)

-- The slots are those of the top level: a command below it is served as it is.
abbrev nested_command : Value ℕ
nested_command =
    object (entry (codes "task_list") (object (entry (codes "cmd") (text (codes "erase")) end)) end)

nested_command_served : assert_inert same_case short hint nested_command ≡ passed nested_command []
unfolding assert_inert sanitise sanitise_items sanitise_entries sanitise_string replaced remark put
    keyed slots hinted without_controls is_url strip utf_8 try_b64 has_signature reject_executable
    is_in same
nested_command_served = refl

abbrev proposed : Proposed
proposed = record { interval = some (pos 5); id = none }

abbrev hook_event : Event
hook_event = record {
  technique = some "crypto";
  mitre = some "T1521";
  source_hook = some "Cipher.doFinal";
  hook = none;
  detail = none;
}

abbrev floats : Floats
floats = record {
  Float = ℕ;
  micro = λ n. n;
  add = λ x y. x + y;
  sub = λ x y. x - y;
  mul = λ x y. x * y / 1000000;
  div = λ x y. x * 1000000 / y;
  neg = λ x. 0;
  abs = λ x. x;
  log = λ x. x;
  exp = λ x. 1000000 + x;
  lt = ltb;
  le = leb;
  round_6 = λ x. x;
  round = λ x. pos ((x + 500000) / 1000000);
}

aggregate-counts_example :
    let events = hook_event ∷ hook_event ∷ [] in
    let trace = aggregate floats events in
    let dropped = drop max_observation_groups (all_groups events) in
    (length trace.groups ≤ 40)
    × (length dropped ≡ trace.dropped_groups)
    × (trace.total_events ≡ 2)
    × (sum trace.groups + sum dropped ≡ trace.total_events)
    × All (λ g. All (λ h. weight h ≤ weight g) dropped) trace.groups
aggregate-counts_example = aggregate-counts floats (hook_event ∷ hook_event ∷ [])

abbrev static_facts : Facts
static_facts = record {
  sink_hits = "network" ∷ "overlay" ∷ [];
  rule_ids = "OTP_THEFT_SURFACE" ∷ [];
  package_strings = [];
  urls = "http://a" ∷ [];
  dcl_indicators = [];
  evidence_refs = "ev_1" ∷ [];
}

derive_hypotheses_iff_example :
    ((k : HypothesisKind)
      → (Holds (hypothesis static_facts k) (derive_hypotheses static_facts))
        ↔ Warrants static_facts k)
    × InOrder (derive_hypotheses static_facts)
    × (derive_hypotheses static_facts ≡ sort_by_priority (derived static_facts all_kinds))
derive_hypotheses_iff_example = derive_hypotheses_iff static_facts
