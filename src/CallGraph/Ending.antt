-- ===== src/CallGraph/Ending.antt =====
-- The search of drishti/m2_static/callgraph.py ends: the fuel that is enough when no node has more than
-- `width` callers.
use c_s_cool_stuff.Prelude.{
  ℕ, zero, suc, ◌+◌, ◌-◌, ◌≤◌, ◌<◌, String, false, Option, none, some, List, [], ◌∷◌, ◌++◌, leb,
  length, ◌≡◌, refl, ap, arith, inl, inr, Bool-cases, if-elim, All,
}
use c_s_cool_stuff.CallGraph.{
  Search, CallPath, Item, State, depth_at, caller_item, pushed, enqueue, go_back, visit, is_over,
  next, next_from, loop, initial, backward_paths,
}
unfoldable use c_s_cool_stuff.CallGraph.{
  enqueue, go_back, visit, is_over, next, next_from, loop, backward_paths,
}
use c_s_cool_stuff.CallGraph.Paths.{Leads, IsItem, Sound, next-Sound, room_left, initial-Sound}

abbrev copies : ℕ → ℕ → ℕ
copies zero w = 0
copies (suc n) w = w + copies n w

copies_mono : (n k w : ℕ) → n ≤ k → copies n w ≤ copies k w
copies_mono zero k w h = omega arith
copies_mono (suc n) zero w h = omega arith
copies_mono (suc n) (suc k) w h = omega (arith, copies_mono n k w ground arith)

-- The rounds that an item can cost when `room` more calls may be followed.
abbrev pub rounds : ℕ → ℕ → ℕ
rounds width zero = 1
rounds width (suc room) = suc (copies width (rounds width room))

module _ (s : Search) (width : ℕ) where
  cost : Item → ℕ
  cost i = rounds width (s.max_depth - depth_at i)

  total : List Item → ℕ
  total [] = 0
  total (i ∷ q) = cost i + total q

  cost-pos : (i : Item) → 1 ≤ cost i
  unfolding cost
  cost-pos i = go (s.max_depth - depth_at i)
    where
      go : (room : ℕ) → 1 ≤ rounds width room
      go zero = omega arith
      go (suc room) = omega arith

  total-snoc : (q : List Item) (i : Item) → total (q ++ i ∷ []) ≡ total q + cost i
  unfolding total
  total-snoc [] i = omega arith
  total-snoc (j ∷ q) i = omega (arith, total-snoc q i)

  cost-caller_item :
      (i : Item) (n : String)
      → cost (caller_item s i n) ≡ rounds width (s.max_depth - length i.path)
  unfolding cost
  cost-caller_item i n = ap (λ d. rounds width (s.max_depth - d)) (omega arith)

  cost-below :
      (i : Item)
      → 1 ≤ length i.path
      → leb s.max_depth (depth_at i) ≡ false
      → cost i ≡ suc (copies width (rounds width (s.max_depth - length i.path)))
  unfolding cost
  cost-below i p q = ap (rounds width) (room (length i.path) p q)
    where
      room :
          (l : ℕ)
          → 1 ≤ l
          → leb s.max_depth (l - 1) ≡ false
          → s.max_depth - (l - 1) ≡ suc (s.max_depth - l)
      room l p q = ground arith

  enqueue-total :
      (i : Item) (names : List String) (st : State)
      → (total (enqueue s i names st).queue
          ≤ total st.queue + copies (length names) (rounds width (s.max_depth - length i.path)))
  unfolding enqueue
  enqueue-total i [] st = omega arith
  enqueue-total i (n ∷ ns) st =
      if-elim
        (λ t.
          total t.queue
          ≤ total st.queue + copies (length (n ∷ ns)) (rounds width (s.max_depth - length i.path)))
        _ (enqueue s i ns st) (enqueue s i ns (pushed s i n st))
        (λ q. omega (arith, enqueue-total i ns st))
        (λ q. omega (
          arith,
          enqueue-total i ns (pushed s i n st),
          total-snoc st.queue (caller_item s i n),
          cost-caller_item i n,
        ))

  visit-total :
      (sink : String) (i : Item) (o : Option String) (st : State)
      → ((n : String) → length (s.callers n) ≤ width)
      → 1 ≤ length i.path
      → total (visit s sink i o st).queue < total st.queue + cost i
  unfolding visit go_back
  visit-total sink i (some kind) st w p = omega (arith, cost-pos i)
  visit-total sink i none st w p =
      if-elim (λ t. total t.queue < total st.queue + cost i) (leb s.max_depth (depth_at i)) st
        (enqueue s i (s.callers i.node) st) (λ q. omega (arith, cost-pos i))
        (λ q. omega (
          arith,
          cost-below i p q,
          enqueue-total i (s.callers i.node) st,
          copies_mono (length (s.callers i.node)) width (rounds width (s.max_depth - length i.path))
              (w i.node),
        ))

  Leads-nonempty :
      (sink node : String) (path : List String) → Leads s sink node path → 1 ≤ length path
  Leads-nonempty sink node [] h = elim h [ ]
  Leads-nonempty sink node (n ∷ rest) h = omega arith

  next-total :
      (sink : String) (st : State)
      → ((n : String) → length (s.callers n) ≤ width)
      → Sound s sink st
      → is_over s st ≡ false
      → total (next s sink st).queue < total st.queue
  unfolding next next_from is_over total
  next-total sink st w g e = go st.queue g.0 refl
    where
      go :
          (q : List Item)
          → All (IsItem s sink) q
          → st.queue ≡ q
          → total (next_from s sink st q).queue < total q
      go [] h same = let no : ⊥ = grind arith in elim no [ ]
      go (i ∷ q) (h, hs) same = omega (
        arith,
        visit-total sink i (s.entrypoints i.node)
            (record { queue = q; found = st.found; seen_depth = st.seen_depth }) w
            (Leads-nonempty sink i.node i.path h.0),
      )

  loop-ends :
      (sink : String) (fuel : ℕ) (st : State)
      → ((n : String) → length (s.callers n) ≤ width)
      → Sound s sink st
      → total st.queue + 1 ≤ fuel
      → (r : List CallPath) × (loop s sink fuel st ≡ some r)
  unfolding loop
  loop-ends sink zero st w g h = let no : ⊥ = omega (arith, h) in elim no [ ]
  loop-ends sink (suc fuel) st w g h = elim (Bool-cases (is_over s st)) [
    | inl q ↦ (st.found, grind arith)
    | inr q ↦
        let (r, e) =
          loop-ends sink fuel (next s sink st) w (next-Sound s sink st g (room_left s st q))
            (omega (arith, h, next-total sink st w g q)) in
        (r, grind arith)
  ]

  initial-cost :
      (sink : String) → cost (record { node = sink; path = sink ∷ [] }) ≡ rounds width s.max_depth
  unfolding cost
  initial-cost sink = ap (λ d. rounds width d) (omega arith)

  -- With fuel above `rounds width max_depth` the search returns, when no node has more than `width`
  -- callers.
  pub backward_paths-ends :
      (sink : String) (fuel : ℕ)
      → ((n : String) → length (s.callers n) ≤ width)
      → rounds width s.max_depth < fuel
      → (r : List CallPath) × (backward_paths s sink fuel ≡ some r)
  unfolding backward_paths total
  backward_paths-ends sink fuel w h = elim (Bool-cases (s.has_node sink)) [
    | inl q ↦
        let (r, e) =
          loop-ends sink fuel (initial sink) w (initial-Sound s sink)
            (omega (arith, h, initial-cost sink)) in
        (r, grind arith)
    | inr q ↦ ([], grind arith)
  ]
