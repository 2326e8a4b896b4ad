-- ===== src/Retrieval/Budget.antt =====
-- The budget of `select` in drishti/m4_genai/retrieval.py.
use c_s_cool_stuff.Prelude.{
  ℕ, suc, ◌+◌, ◌*◌, ◌/◌, ◌≤◌, String, Option, none, some, List, [], ◌∷◌, ◌++◌, All, leb, ltb,
  str_eq, length, length-append, ◌≡◌, ◌⊎◌, inl, inr, arith, if-elim,
}
use mathlib.Core.List.{reverse}
use c_s_cool_stuff.Score.Inputs.{Floats}
use c_s_cool_stuff.Retrieval.Methods.{
  CallPath, DecompiledMethod, Sink, MethodSlice, Filled, find_method, chain_overhead, slice_of,
  slices_chars, strings_chars, attach_method, visit_step, visit_steps, fill_chain, select_strings,
}
use c_s_cool_stuff.Retrieval.{
  Selection, SinkChain, chain_of, chains_chars, add_chain, select_chains, select, candidates_of,
  rank_paths,
}
unfoldable use c_s_cool_stuff.Retrieval.Methods.{
  slices_chars, attach_method, visit_step, visit_steps, fill_chain,
}
unfoldable use c_s_cool_stuff.Retrieval.{chains_chars, add_chain, select_chains, select}

slices_chars-append :
    (xs ys : List MethodSlice) → slices_chars (xs ++ ys) ≡ slices_chars xs + slices_chars ys
unfolding slices_chars
slices_chars-append [] ys = omega arith
slices_chars-append (x ∷ xs) ys = omega (arith, slices_chars-append xs ys)

-- What the slices cost has been charged since `start`, up to three characters for each.
abbrev IsCharged : ℕ → ℕ → ℕ → Filled → Type 0
IsCharged token_budget max_methods start f =
    (slices_chars f.slices + 4 * start ≤ 4 * f.spent + 3 * length f.slices)
    × (length f.slices ≤ max_methods)
    × (f.spent ≤ token_budget)

attach_method-IsCharged :
    (token_budget max_methods start distance : ℕ) (d : DecompiledMethod) (f : Filled)
    → IsCharged token_budget max_methods start f
    → IsCharged token_budget max_methods start (attach_method token_budget max_methods distance d f)
unfolding attach_method slices_chars
attach_method-IsCharged token_budget max_methods start distance d f h =
    let slice = slice_of d distance in
    ground
      (arith, h, slices_chars-append f.slices (slice ∷ []), length-append f.slices (slice ∷ []))

visit_step-IsCharged :
    (p : CallPath) (methods : List DecompiledMethod) (token_budget max_methods start distance : ℕ)
    (sig : String) (f : Filled)
    → IsCharged token_budget max_methods start f
    → IsCharged token_budget max_methods start
        (visit_step p methods token_budget max_methods distance sig f)
unfolding visit_step
visit_step-IsCharged p methods token_budget max_methods start distance sig f h =
    if-elim (IsCharged token_budget max_methods start) (str_eq sig p.sink_signature) _ _ (λ own. h)
      (λ other. found (find_method sig methods))
  where
    found :
        (o : Option DecompiledMethod)
        → IsCharged token_budget max_methods start
            (elim o [ none ↦ f | some d ↦ attach_method token_budget max_methods distance d f ])
    found none = h
    found (some d) = attach_method-IsCharged token_budget max_methods start distance d f h

visit_steps-IsCharged :
    (p : CallPath) (methods : List DecompiledMethod) (token_budget max_methods start : ℕ)
    (path : List String) (distance : ℕ) (f : Filled)
    → IsCharged token_budget max_methods start f
    → IsCharged token_budget max_methods start
        (visit_steps p methods token_budget max_methods distance path f)
unfolding visit_steps
visit_steps-IsCharged p methods token_budget max_methods start [] distance f h = h
visit_steps-IsCharged p methods token_budget max_methods start (sig ∷ path) distance f h =
    visit_steps-IsCharged p methods token_budget max_methods start path (suc distance)
      (visit_step p methods token_budget max_methods distance sig f)
      (visit_step-IsCharged p methods token_budget max_methods start distance sig f h)

fill_chain-IsCharged :
    (p : CallPath) (methods : List DecompiledMethod) (spent token_budget max_methods : ℕ)
    → spent ≤ token_budget
    → IsCharged token_budget max_methods spent (fill_chain p methods spent token_budget max_methods)
unfolding fill_chain slices_chars
fill_chain-IsCharged p methods spent token_budget max_methods h =
    visit_steps-IsCharged p methods token_budget max_methods spent (reverse p.path) 0
      (record { slices = []; dropped = 0; spent = spent }) (omega arith, omega arith, h)

module _ (m : Floats) where
  -- The chains and the slices on them
  unfoldable pub item_count : List (SinkChain m) → ℕ
  item_count [] = 0
  item_count (c ∷ chains) = suc (length c.methods) + item_count chains

  chains_chars-append :
      (xs ys : List (SinkChain m))
      → chains_chars m (xs ++ ys) ≡ chains_chars m xs + chains_chars m ys
  unfolding chains_chars
  chains_chars-append [] ys = omega arith
  chains_chars-append (x ∷ xs) ys = omega (arith, chains_chars-append xs ys)

  item_count-append :
      (xs ys : List (SinkChain m)) → item_count (xs ++ ys) ≡ item_count xs + item_count ys
  unfolding item_count
  item_count-append [] ys = omega arith
  item_count-append (x ∷ xs) ys = omega (arith, item_count-append xs ys)

  abbrev pub FewMethods : ℕ → SinkChain m → Type 0
  FewMethods max_methods c = length c.methods ≤ max_methods

  All-snoc :
      (max_methods : ℕ) (xs : List (SinkChain m)) (x : SinkChain m)
      → All (FewMethods max_methods) xs
      → FewMethods max_methods x
      → All (FewMethods max_methods) (xs ++ x ∷ [])
  All-snoc n [] x h k = (k, tt)
  All-snoc n (y ∷ xs) x (h, g) k = (h, All-snoc n xs x g k)

  -- What the chains cost has been charged since `start`, up to three characters for each item.
  abbrev IsPaid : ℕ → ℕ → ℕ → ℕ → Selection m → Type 0
  IsPaid token_budget max_chains max_methods start s =
      (chains_chars m s.chains + 4 * start ≤ 4 * s.spent + 3 * item_count s.chains)
      × ((s.spent ≤ token_budget) ⊎ (s.spent ≤ start))
      × (length s.chains ≤ max_chains)
      × All (FewMethods max_methods) s.chains

  add_chain-IsPaid :
      (sinks : List Sink) (methods : List DecompiledMethod)
      (token_budget max_chains max_methods start : ℕ) (risk : m.Float) (p : CallPath)
      (s : Selection m)
      → IsPaid token_budget max_chains max_methods start s
      → suc (length s.chains) ≤ max_chains
      → s.spent + chain_overhead p / 4 ≤ token_budget
      → IsPaid token_budget max_chains max_methods start
          (add_chain m sinks methods token_budget max_methods risk p s)
  unfolding add_chain chains_chars item_count
  add_chain-IsPaid sinks methods b c n start risk p s (paid, spent, few, all_few) room fits =
      let filled = fill_chain p methods (s.spent + chain_overhead p / 4) b n in
      let (charged, few_slices, within) =
        fill_chain-IsCharged p methods (s.spent + chain_overhead p / 4) b n fits in
      (
        omega (
          arith,
          paid,
          charged,
          chains_chars-append s.chains (new_chain ∷ []),
          item_count-append s.chains (new_chain ∷ []),
        ),
        inl within,
        omega (arith, room, length-append s.chains (new_chain ∷ [])),
        All-snoc n s.chains new_chain all_few few_slices,
      )
    where
      new_chain : SinkChain m
      new_chain =
          chain_of m sinks risk p (fill_chain p methods (s.spent + chain_overhead p / 4) b n).slices

  select_chains-IsPaid :
      (sinks : List Sink) (methods : List DecompiledMethod)
      (token_budget max_chains max_methods start : ℕ) (candidates : List (m.Float × CallPath))
      (s : Selection m)
      → IsPaid token_budget max_chains max_methods start s
      → IsPaid token_budget max_chains max_methods start
          (select_chains m sinks methods token_budget max_chains max_methods candidates s)
  unfolding select_chains add_chain
  select_chains-IsPaid sinks methods b c n start [] s h = h
  select_chains-IsPaid sinks methods b c n start ((risk, p) ∷ rest) s h =
      if-elim (IsPaid b c n start) (leb c (length s.chains)) _ _ (λ full. h)
        (λ room.
          if-elim (IsPaid b c n start) (ltb b (s.spent + chain_overhead p / 4)) _ _ (λ costly. h)
            (λ fits.
              select_chains-IsPaid sinks methods b c n start rest
                (add_chain m sinks methods b n risk p s)
                (add_chain-IsPaid sinks methods b c n start risk p s h (ground (arith, room))
                  (ground (arith, fits)))))

  nothing-IsPaid :
      (b c n start : ℕ) → IsPaid b c n start (record { chains = []; dropped = 0; spent = start })
  unfolding chains_chars item_count
  nothing-IsPaid b c n start = (omega arith, inr (omega arith), omega arith, tt)

  -- Whatever the report holds, at most `max_chains` chains are selected with at most `max_methods` methods
  -- each. The estimate is at most the token budget, or what the strings cost where that is more, and one
  -- token for each chain and each method: `select` rounds the cost of each of them down.
  pub select-bounds :
      (sinks : List Sink) (paths : List CallPath) (methods : List DecompiledMethod)
      (urls constants : List String) (token_budget max_chains max_methods : ℕ)
      → let pack =
          select m sinks paths methods urls constants token_budget max_chains max_methods in
        (length pack.chains ≤ max_chains)
        × All (FewMethods max_methods) pack.chains
        × ((pack.estimated_tokens ≤ token_budget + item_count pack.chains)
            ⊎ (pack.estimated_tokens ≤ strings_chars pack.strings / 4 + item_count pack.chains))
  unfolding select
  select-bounds sinks paths methods urls constants b c n =
      let strings = select_strings [] (urls ++ constants) in
      let start = strings_chars strings / 4 in
      let s : Selection m = record { chains = []; dropped = 0; spent = start } in
      let candidates = candidates_of m [] (rank_paths m sinks paths) in
      let (paid, spent, few, all_few) =
        select_chains-IsPaid sinks methods b c n start candidates s (nothing-IsPaid b c n start) in
      (few, all_few, ground (arith, paid, spent))
