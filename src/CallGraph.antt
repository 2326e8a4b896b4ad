-- ===== src/CallGraph.antt =====
-- drishti/m2_static/callgraph.py: the backward search from a sink to lifecycle entry points. The graph,
-- of networkx, is a parameter: its nodes, and the sorted predecessors of each.
pub mod Paths
pub mod Ending
use c_s_cool_stuff.Prelude.{
  ℕ, zero, suc, ◌+◌, ◌-◌, String, Bool, true, false, ◌||◌, Option, none, some, List, [], ◌∷◌, ◌++◌,
  leb, ltb, length, str_eq, if◌then◌else◌,
}

-- The graph and the arguments of `backward_paths` but the sink.
pub record Search : Type 0 where
  pub has_node : String → Bool
  pub callers : String → List String
  pub entrypoints : String → Option String
  pub max_depth : ℕ
  pub max_paths : ℕ

pub record CallPath : Type 0 where
  pub sink_id : String
  pub path : List String
  pub entrypoint : String
  pub entrypoint_kind : String

-- A queue item: a node, and the nodes from it to the sink. The source's tuple has them in the reverse
-- order and is reversed when the path is found.
pub record Item : Type 0 where
  pub node : String
  pub path : List String

-- `seen_depth`, the last setting first.
abbrev pub Depths : Type 0
Depths = List (String × ℕ)

-- `seen_depth.get(node, default)`
unfoldable pub depth_of : String → ℕ → Depths → ℕ
depth_of node default [] = default
depth_of node default ((n, d) ∷ rest) = if str_eq n node then d else depth_of node default rest

-- The variables of the loop.
pub record State : Type 0 where
  pub queue : List Item
  pub found : List CallPath
  pub seen_depth : Depths

-- `len(reversed_path) - 1`
abbrev pub depth_at : Item → ℕ
depth_at i = length i.path - 1

abbrev pub initial : String → State
initial sink = record {
  queue = record { node = sink; path = sink ∷ [] } ∷ [];
  found = [];
  seen_depth = (sink, 0) ∷ [];
}

module _ (s : Search) where
  abbrev pub caller_item : Item → String → Item
  caller_item i caller = record { node = caller; path = caller ∷ i.path }

  abbrev pub pushed : Item → String → State → State
  pushed i caller st = record {
    queue = st.queue ++ caller_item i caller ∷ [];
    found = st.found;
    seen_depth = (caller, depth_at i + 1) ∷ st.seen_depth;
  }

  -- The loop over the callers.
  unfoldable pub enqueue : Item → List String → State → State
  enqueue i [] st = st
  enqueue i (caller ∷ rest) st =
      if ltb (depth_of caller (s.max_depth + 1) st.seen_depth) (depth_at i + 1)
      then enqueue i rest st
      else enqueue i rest (pushed i caller st)

  -- What one round does with a node that is no entry point.
  unfoldable pub go_back : Item → State → State
  unfolding enqueue
  go_back i st = if leb s.max_depth (depth_at i) then st else enqueue i (s.callers i.node) st

  -- One round of the loop, from the item that was taken off the queue.
  unfoldable pub visit : String → Item → Option String → State → State
  visit sink i (some kind) st = record st {
    found =
        st.found
        ++ record { sink_id = sink; path = i.path; entrypoint = i.node; entrypoint_kind = kind }
          ∷ [];
  }
  visit sink i none st = go_back i st

  -- `not (queue and len(found) < max_paths)`
  unfoldable pub is_over : State → Bool
  is_over st = is_none st.queue || leb s.max_paths (length st.found)
    where
      is_none : List Item → Bool
      is_none [] = true
      is_none (i ∷ queue) = false

  -- `queue.popleft()`, and the round.
  unfoldable pub next_from : String → State → List Item → State
  next_from sink st [] = st
  next_from sink st (i ∷ queue) =
      visit sink i (s.entrypoints i.node)
        (record { queue = queue; found = st.found; seen_depth = st.seen_depth })

  unfoldable pub next : String → State → State
  unfolding next_from
  next sink st = next_from sink st st.queue

  -- The loop, on fuel: `none` when it runs out.
  unfoldable pub loop : String → ℕ → State → Option (List CallPath)
  loop sink zero st = none
  loop sink (suc fuel) st =
      let rest = loop sink fuel (next sink st) in if is_over st then some st.found else rest

  -- `backward_paths`
  unfoldable pub backward_paths : String → ℕ → Option (List CallPath)
  backward_paths sink fuel = if s.has_node sink then loop sink fuel (initial sink) else some []
