-- ===== src/Normaliser/Counts.antt =====
-- What the grouping of drishti/m3_dynamic/normaliser.py keeps: the events counted, the cap, the order, and
-- that the signal takes no account of how often a group fired.
use c_s_cool_stuff.Prelude.{
  ℕ, zero, suc, ◌+◌, ◌-◌, ◌≤◌, String, true, false, List, [], ◌∷◌, take, length, All, ◌≡◌, refl,
  ◌||◌, elem, str_eq, arith, ap, ap₂, not, if-elim, if◌then◌else◌,
}
use c_s_cool_stuff.Score.Inputs.{Floats}
use c_s_cool_stuff.Normaliser.{
  Event, ObservationGroup, group_of, count_in, tally, comes_before, insert_group, sort_groups,
  all_groups, aggregate, max_observation_groups, severity, severity_weight, behavioural_signal,
  complement, has_technique,
}
unfoldable use c_s_cool_stuff.Normaliser.{
  count_in, group_of, tally, comes_before, insert_group, sort_groups, aggregate, complement,
  behavioural_signal,
}

abbrev pub sum : List ObservationGroup → ℕ
sum [] = 0
sum (g ∷ gs) = g.occurrences + sum gs

sum-count_in :
    (g : ObservationGroup) (gs : List ObservationGroup)
    → g.occurrences ≡ 1
    → sum (count_in g gs) ≡ suc (sum gs)
unfolding count_in
sum-count_in g [] h = omega (arith, h)
sum-count_in g (k ∷ ks) h = ground (arith, sum-count_in g ks h)

sum-tally : (gs : List ObservationGroup) (es : List Event) → sum (tally gs es) ≡ sum gs + length es
unfolding tally group_of
sum-tally gs [] = omega arith
sum-tally gs (e ∷ es) =
    omega (arith, sum-tally (count_in (group_of e) gs) es, sum-count_in (group_of e) gs refl)

sum-insert :
    (g : ObservationGroup) (gs : List ObservationGroup)
    → sum (insert_group g gs) ≡ g.occurrences + sum gs
unfolding insert_group
sum-insert g [] = refl
sum-insert g (h ∷ hs) =
    if-elim (λ l. sum l ≡ g.occurrences + sum (h ∷ hs)) (comes_before g h) (g ∷ h ∷ hs)
      (h ∷ insert_group g hs) (λ e. refl) (λ e. omega (arith, sum-insert g hs))

sum-sort : (gs : List ObservationGroup) → sum (sort_groups gs) ≡ sum gs
unfolding sort_groups
sum-sort [] = refl
sum-sort (g ∷ gs) = omega (arith, sum-sort gs, sum-insert g (sort_groups gs))

abbrev pub weight : ObservationGroup → ℕ
weight g = severity_weight (severity g)

-- No group weighs more than one before it.
abbrev pub Falling : List ObservationGroup → Type 0
Falling [] = Unit
Falling (g ∷ gs) = All (λ h. weight h ≤ weight g) gs × Falling gs

All-insert :
    (P : ObservationGroup → Type 0) (h : ObservationGroup) (gs : List ObservationGroup)
    → P h
    → All P gs
    → All P (insert_group h gs)
unfolding insert_group
All-insert P h [] p q = (p, tt)
All-insert P h (g ∷ gs) p (q, qs) =
    if-elim (All P) (comes_before h g) (h ∷ g ∷ gs) (g ∷ insert_group h gs) (λ e. (p, (q, qs)))
      (λ e. (q, All-insert P h gs p qs))

All-weaken :
    (a b : ℕ) (gs : List ObservationGroup)
    → a ≤ b
    → All (λ g. weight g ≤ a) gs
    → All (λ g. weight g ≤ b) gs
All-weaken a b [] h q = tt
All-weaken a b (g ∷ gs) h (p, q) = (omega arith, All-weaken a b gs h q)

heavier : (g h : ObservationGroup) → comes_before g h ≡ true → weight h ≤ weight g
unfolding comes_before
heavier g h e = ground arith

lighter : (g h : ObservationGroup) → comes_before g h ≡ false → weight g ≤ weight h
unfolding comes_before
lighter g h e = ground arith

Falling-insert :
    (g : ObservationGroup) (gs : List ObservationGroup) → Falling gs → Falling (insert_group g gs)
unfolding insert_group
Falling-insert g [] o = (tt, tt)
Falling-insert g (h ∷ hs) (p, o) =
    if-elim Falling (comes_before g h) (g ∷ h ∷ hs) (h ∷ insert_group g hs)
      (λ e. ((heavier g h e, All-weaken (weight h) (weight g) hs (heavier g h e) p), (p, o)))
      (λ e. (All-insert (λ k. weight k ≤ weight h) g hs (lighter g h e) p, Falling-insert g hs o))

Falling-sort : (gs : List ObservationGroup) → Falling (sort_groups gs)
unfolding sort_groups
Falling-sort [] = tt
Falling-sort (g ∷ gs) = Falling-insert g (sort_groups gs) (Falling-sort gs)

-- `groups[n:]`
abbrev pub drop : ℕ → List ObservationGroup → List ObservationGroup
drop zero gs = gs
drop (suc n) [] = []
drop (suc n) (g ∷ gs) = drop n gs

drop-All :
    (P : ObservationGroup → Type 0) (n : ℕ) (gs : List ObservationGroup)
    → All P gs
    → All P (drop n gs)
drop-All P zero gs h = h
drop-All P (suc n) [] h = tt
drop-All P (suc n) (g ∷ gs) (p, h) = drop-All P n gs h

take-above-drop :
    (n : ℕ) (gs : List ObservationGroup)
    → Falling gs
    → All (λ g. All (λ h. weight h ≤ weight g) (drop n gs)) (take n gs)
take-above-drop zero gs h = tt
take-above-drop (suc n) [] h = tt
take-above-drop (suc n) (g ∷ gs) (p, h) =
    (drop-All (λ k. weight k ≤ weight g) n gs p, take-above-drop n gs h)

sum-take-drop : (n : ℕ) (gs : List ObservationGroup) → sum (take n gs) + sum (drop n gs) ≡ sum gs
sum-take-drop zero gs = omega arith
sum-take-drop (suc n) [] = omega arith
sum-take-drop (suc n) (g ∷ gs) = omega (arith, sum-take-drop n gs)

length-take-drop :
    (n : ℕ) (gs : List ObservationGroup)
    → (length (take n gs) ≤ n) × (length (drop n gs) ≡ length gs - n)
length-take-drop zero gs = (omega arith, omega arith)
length-take-drop (suc n) [] = (omega arith, omega arith)
length-take-drop (suc n) (g ∷ gs) =
    let h = length-take-drop n gs in (omega (arith, h.0), omega (arith, h.1))

module _ (m : Floats) where
  -- At most 40 groups are kept, and the groups past the cap are as many as the trace says. The events are
  -- all counted, in the groups kept and the groups dropped. No group dropped is more severe than one kept.
  pub aggregate-counts :
      (events : List Event)
      → let trace = aggregate m events in
        let dropped = drop max_observation_groups (all_groups events) in
        (length trace.groups ≤ 40)
        × (length dropped ≡ trace.dropped_groups)
        × (trace.total_events ≡ length events)
        × (sum trace.groups + sum dropped ≡ trace.total_events)
        × All (λ g. All (λ h. weight h ≤ weight g) dropped) trace.groups
  unfolding aggregate sort_groups tally
  aggregate-counts [] = (omega arith, refl, refl, refl, tt)
  aggregate-counts (e ∷ es) =
      let groups = all_groups (e ∷ es) in
      let (few, rest) = length-take-drop max_observation_groups groups in
      (
        few,
        rest,
        refl,
        omega (
          arith,
          sum-take-drop max_observation_groups groups,
          sum-sort (tally [] (e ∷ es)),
          sum-tally [] (e ∷ es),
        ),
        take-above-drop max_observation_groups groups (Falling-sort (tally [] (e ∷ es))),
      )

  -- The groups with other counts.
  abbrev pub recount : (ObservationGroup → ℕ) → List ObservationGroup → List ObservationGroup
  recount count [] = []
  recount count (g ∷ gs) = record g { occurrences = count g } ∷ recount count gs

  complement-recount :
      (count : ObservationGroup → ℕ) (gs : List ObservationGroup) (c : m.Float) (seen : List String)
      → complement m c seen (recount count gs) ≡ complement m c seen gs
  unfolding complement severity
  complement-recount count [] c seen = refl
  complement-recount count (g ∷ gs) c seen =
      ap₂ (λ x y. if str_eq g.mitre "" || elem g.mitre seen then x else y)
        (complement-recount count gs c seen) (complement-recount count gs _ (g.mitre ∷ seen))

  has_technique-recount :
      (count : ObservationGroup → ℕ) (gs : List ObservationGroup)
      → has_technique m (recount count gs) ≡ has_technique m gs
  has_technique-recount count [] = refl
  has_technique-recount count (g ∷ gs) =
      ap (λ b. not (str_eq g.mitre "") || b) (has_technique-recount count gs)

  -- The behavioural signal of groups does not change with the counts of the groups.
  behavioural_signal-recount :
      (count : ObservationGroup → ℕ) (gs : List ObservationGroup)
      → behavioural_signal m (recount count gs) ≡ behavioural_signal m gs
  unfolding behavioural_signal
  behavioural_signal-recount count gs =
      ap₂ (λ b c. if b then m.round_6 (m.sub (m.micro 1000000) c) else m.micro 0)
        (has_technique-recount count gs) (complement-recount count gs (m.micro 1000000) [])
