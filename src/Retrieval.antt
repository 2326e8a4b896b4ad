-- ===== src/Retrieval.antt =====
-- drishti/m4_genai/retrieval.py: which call chains and method bodies a model is shown, within a budget of
-- tokens. The table of sinks is an argument, and the notes for display are left out.
pub mod Methods
pub mod Budget
use c_s_cool_stuff.Prelude.{
  ℕ, zero, suc, ◌+◌, ◌-◌, ◌*◌, ◌/◌, String, Bool, true, false, not, ◌&&◌, ◌||◌, Option, none, some,
  List, [], ◌∷◌, ◌++◌, leb, ltb, length, elem, any, str_eq, str_leb, codes, if◌then◌else◌,
}
use mathlib.Core.List.{reverse}
use c_s_cool_stuff.Score.Inputs.{Floats, Severity}
use Methods.{
  CallPath, DecompiledMethod, Sink, MethodSlice, chars_per_token, chars, find_sink, find_method,
  steps_chars, chain_overhead, slice_chars, slice_of, Filled, attach_method, visit_step,
  visit_steps, fill_chain, select_strings, strings_chars, slices_chars,
}
unfoldable use Methods.{
  find_sink, find_method, steps_chars, attach_method, visit_step, visit_steps, fill_chain,
  select_strings, strings_chars, slices_chars,
}

module _ (m : Floats) where
  open m use {Float, micro, add, mul, div, le, round_6}

  pub record SinkChain : Type 0 where
    pub source : CallPath
    pub severity : Severity
    pub mitre : String
    pub risk : Float
    pub methods : List MethodSlice

  pub record RetrievalPack : Type 0 where
    pub chains : List SinkChain
    pub strings : List String
    pub token_budget : ℕ
    pub estimated_tokens : ℕ
    pub chains_considered : ℕ
    pub chains_dropped : ℕ
    pub methods_dropped : ℕ

  -- `_SEVERITY_WEIGHT`
  abbrev severity_weight : Severity → Float
  severity_weight Severity.critical = micro 1000000
  severity_weight Severity.high = micro 800000
  severity_weight Severity.medium = micro 500000
  severity_weight Severity.low = micro 300000

  abbrev severity_of : Option Sink → Severity
  severity_of none = Severity.low
  severity_of (some s) = s.severity

  abbrev mitre_of : Option Sink → String
  mitre_of none = ""
  mitre_of (some s) = s.mitre

  unfoldable pub path_risk : List Sink → CallPath → Float
  unfolding find_sink
  path_risk sinks p =
      let reach = if p.reachable_from_lifecycle then micro 1000000 else micro 350000 in
      let depth = length p.path - 1 in
      round_6 (
        div (mul (severity_weight (severity_of (find_sink p.sink_id sinks))) reach)
          (add (micro 1000000) (micro (depth * 1000000))))

  -- `(-risk, sink_id, entrypoint)` of the first is at most that of the second.
  abbrev precedes : Float × CallPath → Float × CallPath → Bool
  precedes (r, p) (t, q) =
      if le t r && le r t
      then if str_eq p.sink_id q.sink_id
        then str_leb p.entrypoint q.entrypoint
        else str_leb p.sink_id q.sink_id
      else le t r

  -- One step of the stable sort by that key.
  unfoldable pub insert_path : Float × CallPath → List (Float × CallPath) → List (Float × CallPath)
  insert_path x [] = x ∷ []
  insert_path x (y ∷ ys) =
      let rest = insert_path x ys in if precedes x y then x ∷ y ∷ ys else y ∷ rest

  unfoldable pub rank_paths : List Sink → List CallPath → List (Float × CallPath)
  unfolding path_risk insert_path
  rank_paths sinks [] = []
  rank_paths sinks (p ∷ paths) = insert_path (path_risk sinks p, p) (rank_paths sinks paths)

  -- Whether a path of the same sink and entry point has been seen
  abbrev seen_before : List CallPath → CallPath → Bool
  seen_before seen p =
      any (λ q. str_eq q.sink_id p.sink_id && str_eq q.entrypoint p.entrypoint) seen

  unfoldable pub candidates_of : List CallPath → List (Float × CallPath) → List (Float × CallPath)
  candidates_of seen [] = []
  candidates_of seen ((risk, p) ∷ ranked) =
      if seen_before seen p
      then candidates_of seen ranked
      else (risk, p) ∷ candidates_of (p ∷ seen) ranked

  pub record Selection : Type 0 where
    pub chains : List SinkChain
    pub dropped : ℕ
    pub spent : ℕ

  abbrev pub chain_of : List Sink → Float → CallPath → List MethodSlice → SinkChain
  chain_of sinks risk p slices = record {
    source = p;
    severity = severity_of (find_sink p.sink_id sinks);
    mitre = mitre_of (find_sink p.sink_id sinks);
    risk = risk;
    methods = slices;
  }

  -- A chain that fits, with its methods
  unfoldable pub add_chain :
      List Sink → List DecompiledMethod → ℕ → ℕ → Float → CallPath → Selection → Selection
  unfolding fill_chain
  add_chain sinks methods token_budget max_methods risk p s =
      let filled =
        fill_chain p methods (s.spent + chain_overhead p / chars_per_token) token_budget
          max_methods in
      record {
        chains = s.chains ++ chain_of sinks risk p filled.slices ∷ [];
        dropped = s.dropped + filled.dropped;
        spent = filled.spent;
      }

  -- The loop of `select`, which stops at the number of chains or at the first chain that does not fit
  unfoldable pub select_chains :
      List Sink
      → List DecompiledMethod
      → ℕ
      → ℕ
      → ℕ
      → List (Float × CallPath)
      → Selection
      → Selection
  unfolding add_chain
  select_chains sinks methods token_budget max_chains max_methods [] s = s
  select_chains sinks methods token_budget max_chains max_methods ((risk, p) ∷ rest) s =
      if leb max_chains (length s.chains)
      then s
      else if ltb token_budget (s.spent + chain_overhead p / chars_per_token)
      then s
      else select_chains sinks methods token_budget max_chains max_methods rest
          (add_chain sinks methods token_budget max_methods risk p s)

  unfoldable pub chains_chars : List SinkChain → ℕ
  unfolding slices_chars
  chains_chars [] = 0
  chains_chars (c ∷ chains) = chain_overhead c.source + slices_chars c.methods + chains_chars chains

  -- `_estimate`
  abbrev pub estimate : List SinkChain → List String → ℕ
  estimate chains strings = (strings_chars strings + chains_chars chains) / chars_per_token

  -- `select`
  unfoldable pub select :
      List Sink
      → List CallPath
      → List DecompiledMethod
      → List String
      → List String
      → ℕ
      → ℕ
      → ℕ
      → RetrievalPack
  unfolding select_chains rank_paths candidates_of select_strings strings_chars chains_chars
  select sinks paths methods urls constants token_budget max_chains max_methods =
      let candidates = candidates_of [] (rank_paths sinks paths) in
      let strings = select_strings [] (urls ++ constants) in
      let s : Selection =
        select_chains sinks methods token_budget max_chains max_methods candidates
          (record { chains = []; dropped = 0; spent = strings_chars strings / chars_per_token }) in
      record {
        chains = s.chains;
        strings = strings;
        token_budget = token_budget;
        estimated_tokens = estimate s.chains strings;
        chains_considered = length candidates;
        chains_dropped = length candidates - length s.chains;
        methods_dropped = s.dropped;
      }
