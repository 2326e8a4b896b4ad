-- ===== src/CallGraph/Paths.antt =====
-- What `backward_paths` of drishti/m2_static/callgraph.py finds.
use c_s_cool_stuff.Prelude.{
  ℕ, zero, suc, ◌+◌, ◌-◌, ◌≤◌, String, true, false, Option, none, some, List, [], ◌∷◌, ◌++◌, leb,
  length, All, elem, ◌≡◌, refl, arith, inl, inr, length-append, Bool-cases, if-elim, subst, eq_iff,
}
use c_s_cool_stuff.CallGraph.{
  Search, CallPath, Item, State, depth_at, caller_item, pushed, enqueue, go_back, visit, is_over,
  next, next_from, loop, initial, backward_paths,
}
unfoldable use c_s_cool_stuff.CallGraph.{
  enqueue, go_back, visit, is_over, next, next_from, loop, backward_paths,
}

module _ (s : Search) where
  -- The nodes lead from `node` to the sink by calls: each is among the predecessors of the one after it.
  abbrev pub Leads : String → String → List String → Type 0
  Leads sink node [] = ⊥
  Leads sink node (n ∷ []) = (node ≡ n) × (n ≡ sink)
  Leads sink node (n ∷ m ∷ rest) =
      (node ≡ n) × (elem n (s.callers m) ≡ true) × Leads sink m (m ∷ rest)

  -- A result: a path from an entry point, of the kind it has, to the sink, of at most `max_depth` calls.
  abbrev pub IsCallPath : String → CallPath → Type 0
  IsCallPath sink p =
      (p.sink_id ≡ sink)
      × (s.entrypoints p.entrypoint ≡ some p.entrypoint_kind)
      × Leads sink p.entrypoint p.path
      × (length p.path ≤ s.max_depth + 1)

  abbrev pub IsItem : String → Item → Type 0
  IsItem sink i = Leads sink i.node i.path × (length i.path ≤ s.max_depth + 1)

  abbrev pub Sound : String → State → Type 0
  Sound sink st =
      All (IsItem sink) st.queue × All (IsCallPath sink) st.found × (length st.found ≤ s.max_paths)

  All-snoc :
      {A : Type 0} (P : A → Type 0) (xs : List A) (x : A) → All P xs → P x → All P (xs ++ x ∷ [])
  All-snoc P [] x h p = (p, tt)
  All-snoc P (y ∷ ys) x (q, h) p = (q, All-snoc P ys x h p)

  Leads-extended :
      (sink node caller : String) (path : List String)
      → Leads sink node path
      → elem caller (s.callers node) ≡ true
      → Leads sink caller (caller ∷ path)
  Leads-extended sink node caller [] h c = elim h [ ]
  Leads-extended sink node caller (n ∷ []) (e, e2) c =
      (refl, subst (λ m. elem caller (s.callers m) ≡ true) e c, (refl, e2))
  Leads-extended sink node caller (n ∷ m ∷ rest) (e, h, g) c =
      (refl, subst (λ k. elem caller (s.callers k) ≡ true) e c, (refl, h, g))

  enqueue-Sound :
      (sink : String) (i : Item) (names : List String) (st : State)
      → IsItem sink i
      → length i.path ≤ s.max_depth
      → All (λ c. elem c (s.callers i.node) ≡ true) names
      → Sound sink st
      → Sound sink (enqueue s i names st)
  unfolding enqueue
  enqueue-Sound sink i [] st h b c g = g
  enqueue-Sound sink i (n ∷ ns) st h b (c, cs) g =
      if-elim (Sound sink) _ _ _ (λ q. enqueue-Sound sink i ns st h b cs g)
        (λ q. enqueue-Sound sink i ns (pushed s i n st) h b cs (
          All-snoc (IsItem sink) st.queue (caller_item s i n) g.0
              (Leads-extended sink i.node n i.path h.0 c, omega (arith, b)),
          g.1,
          g.2,
        ))

  All-elem :
      (names all : List String)
      → ((x : String) → elem x names ≡ true → elem x all ≡ true)
      → All (λ c. elem c all ≡ true) names
  All-elem [] all h = tt
  All-elem (n ∷ ns) all h =
      (h n (ground (arith, (eq_iff n n).1 refl)), All-elem ns all (λ x e. h x (ground arith)))

  result : String → Item → String → CallPath
  result sink i kind = record {
    sink_id = sink;
    path = i.path;
    entrypoint = i.node;
    entrypoint_kind = kind;
  }

  visit-Sound :
      (sink : String) (i : Item) (o : Option String) (st : State)
      → s.entrypoints i.node ≡ o
      → IsItem sink i
      → Sound sink st
      → length st.found + 1 ≤ s.max_paths
      → Sound sink (visit s sink i o st)
  unfolding visit go_back result
  visit-Sound sink i (some kind) st e h g l = (
    g.0,
    All-snoc (IsCallPath sink) st.found (result sink i kind) g.1 (refl, e, h.0, h.1),
    omega (arith, l, length-append st.found (result sink i kind ∷ [])),
  )
  visit-Sound sink i none st e h g l =
      if-elim (Sound sink) (leb s.max_depth (depth_at i)) st (enqueue s i (s.callers i.node) st)
        (λ q. g)
        (λ q.
          enqueue-Sound sink i (s.callers i.node) st h (short i.path q) (All-elem _ _ (λ x e. e)) g)
    where
      short :
          (path : List String)
          → leb s.max_depth (length path - 1) ≡ false
          → length path ≤ s.max_depth
      short path q = ground arith

  pub next-Sound :
      (sink : String) (st : State)
      → Sound sink st
      → length st.found + 1 ≤ s.max_paths
      → Sound sink (next s sink st)
  unfolding next next_from
  next-Sound sink st g l = go st.queue g.0
    where
      go : (q : List Item) → All (IsItem sink) q → Sound sink (next_from s sink st q)
      go [] h = g
      go (i ∷ q) (h, hs) =
          visit-Sound sink i (s.entrypoints i.node)
            (record { queue = q; found = st.found; seen_depth = st.seen_depth }) refl h
            (hs, g.1, g.2) l

  pub room_left : (st : State) → is_over s st ≡ false → length st.found + 1 ≤ s.max_paths
  unfolding is_over
  room_left st h = ground arith

  loop-Sound :
      (sink : String) (fuel : ℕ) (st : State) (r : List CallPath)
      → Sound sink st
      → loop s sink fuel st ≡ some r
      → All (IsCallPath sink) r × (length r ≤ s.max_paths)
  unfolding loop
  loop-Sound sink zero st r g e = cc
  loop-Sound sink (suc fuel) st r g e = elim (Bool-cases (is_over s st)) [
    | inl q ↦
        subst (λ x. All (IsCallPath sink) x × (length x ≤ s.max_paths)) (grind arith) (g.1, g.2)
    | inr q ↦
        loop-Sound sink fuel (next s sink st) r (next-Sound sink st g (room_left st q))
          (grind arith)
  ]

  pub initial-Sound : (sink : String) → Sound sink (initial sink)
  initial-Sound sink = ((((refl, refl), omega arith), tt), tt, omega arith)

  -- Every path found leads from an entry point, by calls of the graph, to the sink, in at most
  -- `max_depth` calls, with the entry point's kind; and at most `max_paths` are found.
  pub backward_paths-IsCallPath :
      (sink : String) (fuel : ℕ) (r : List CallPath)
      → backward_paths s sink fuel ≡ some r
      → All (IsCallPath sink) r × (length r ≤ s.max_paths)
  unfolding backward_paths
  backward_paths-IsCallPath sink fuel r e = elim (Bool-cases (s.has_node sink)) [
    | inl q ↦ loop-Sound sink fuel (initial sink) r (initial-Sound sink) (grind arith)
    | inr q ↦
        let none_found : [] ≡ r = grind arith in
        subst (λ x. All (IsCallPath sink) x × (length x ≤ s.max_paths)) none_found (tt, omega arith)
  ]
