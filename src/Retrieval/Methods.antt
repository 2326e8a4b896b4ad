-- ===== src/Retrieval/Methods.antt =====
-- drishti/m4_genai/retrieval.py: the methods and the strings of a pack, charged in characters.
use c_s_cool_stuff.Prelude.{
  ℕ, suc, ◌+◌, ◌/◌, String, Bool, Option, none, some, List, [], ◌∷◌, ◌++◌, leb, ltb, length, elem,
  str_eq, codes, if◌then◌else◌,
}
use mathlib.Core.List.{reverse}
use c_s_cool_stuff.Score.Inputs.{Severity}

pub record CallPath : Type 0 where
  pub sink_id : String
  pub sink_signature : String
  pub path : List String
  pub entrypoint : String
  pub entrypoint_kind : String
  pub reachable_from_lifecycle : Bool

pub record DecompiledMethod : Type 0 where
  pub signature : String
  pub body : String
  pub line_start : ℕ
  pub line_end : ℕ
  pub evidence_ref : String
  pub truncated : Bool

pub record Sink : Type 0 where
  pub sink_id : String
  pub severity : Severity
  pub mitre : String

pub record MethodSlice : Type 0 where
  pub signature : String
  pub body : String
  pub evidence_ref : String
  pub line_start : ℕ
  pub line_end : ℕ
  pub truncated : Bool
  pub distance_to_sink : ℕ

abbrev pub chars_per_token : ℕ
chars_per_token = 4

-- `len(text)`
abbrev pub chars : String → ℕ
chars s = length (codes s)

-- `SINK_BY_ID.get(sink_id)`
unfoldable pub find_sink : String → List Sink → Option Sink
find_sink id [] = none
find_sink id (s ∷ sinks) =
    let rest = find_sink id sinks in if str_eq s.sink_id id then some s else rest

-- `by_signature.get(signature)`: the last method of that signature
unfoldable pub find_method : String → List DecompiledMethod → Option DecompiledMethod
find_method sig [] = none
find_method sig (d ∷ methods) = elim (find_method sig methods) [
  | some later ↦ some later
  | none ↦ if str_eq d.signature sig then some d else none
]

-- `sum(len(step) + 4 for step in path)`
unfoldable pub steps_chars : List String → ℕ
steps_chars [] = 0
steps_chars (step ∷ path) = chars step + 4 + steps_chars path

-- `_chain_overhead`
abbrev pub chain_overhead : CallPath → ℕ
chain_overhead p = chars p.sink_signature + chars p.entrypoint + 120 + steps_chars p.path

-- The characters that a slice is charged for
abbrev pub slice_chars : MethodSlice → ℕ
slice_chars s = chars s.body + chars s.signature + 160

abbrev pub slice_of : DecompiledMethod → ℕ → MethodSlice
slice_of d distance = record {
  signature = d.signature;
  body = d.body;
  evidence_ref = d.evidence_ref;
  line_start = d.line_start;
  line_end = d.line_end;
  truncated = d.truncated;
  distance_to_sink = distance;
}

pub record Filled : Type 0 where
  pub slices : List MethodSlice
  pub dropped : ℕ
  pub spent : ℕ

abbrev drop_one : Filled → Filled
drop_one f = record { slices = f.slices; dropped = suc f.dropped; spent = f.spent }

-- One method that was found: it is charged and attached, or dropped.
unfoldable pub attach_method : ℕ → ℕ → ℕ → DecompiledMethod → Filled → Filled
attach_method token_budget max_methods distance d f =
    let slice = slice_of d distance in
    let cost = slice_chars slice / chars_per_token in
    if leb max_methods (length f.slices)
    then drop_one f
    else if ltb token_budget (f.spent + cost)
    then drop_one f
    else record { slices = f.slices ++ slice ∷ []; dropped = f.dropped; spent = f.spent + cost }

unfoldable pub visit_step : CallPath → List DecompiledMethod → ℕ → ℕ → ℕ → String → Filled → Filled
unfolding attach_method
visit_step p methods token_budget max_methods distance sig f =
    if str_eq sig p.sink_signature then f else elim (find_method sig methods) [
      | none ↦ f
      | some d ↦ attach_method token_budget max_methods distance d f
    ]

-- The steps from the sink backwards, numbered from `distance`
unfoldable pub visit_steps :
    CallPath → List DecompiledMethod → ℕ → ℕ → ℕ → List String → Filled → Filled
unfolding visit_step
visit_steps p methods token_budget max_methods distance [] f = f
visit_steps p methods token_budget max_methods distance (sig ∷ path) f =
    visit_steps p methods token_budget max_methods (suc distance) path
      (visit_step p methods token_budget max_methods distance sig f)

-- `_fill_chain`
unfoldable pub fill_chain : CallPath → List DecompiledMethod → ℕ → ℕ → ℕ → Filled
unfolding visit_steps
fill_chain p methods spent token_budget max_methods =
    visit_steps p methods token_budget max_methods 0 (reverse p.path)
      (record { slices = []; dropped = 0; spent = spent })

-- `_select_strings`, from the values taken so far
unfoldable pub select_strings : List String → List String → List String
select_strings taken [] = taken
select_strings taken (v ∷ values) =
    let next = if elem v taken then taken else taken ++ v ∷ [] in
    if leb 12 (length next) then next else select_strings next values

-- `sum(len(s) + 40 for s in strings)`
unfoldable pub strings_chars : List String → ℕ
strings_chars [] = 0
strings_chars (s ∷ strings) = chars s + 40 + strings_chars strings

-- The characters of the slices of a chain
unfoldable pub slices_chars : List MethodSlice → ℕ
slices_chars [] = 0
slices_chars (s ∷ slices) = slice_chars s + slices_chars slices
