-- ===== src/Evasion/Verdicts.antt =====
-- When drishti/m3_dynamic/evasion.py calls a run stalled, of the events that the normaliser aggregates.
use c_s_cool_stuff.Prelude.{
  ℕ, suc, ◌<◌, ◌≡◌, ◌≢◌, refl, ◌↔◌, ◌⊎◌, inl, inr, String, Bool, true, false, Option, none, some,
  List, [], ◌∷◌, All, Any, length, elem, is_part, take, Codes, codes, arith, Bool-cases,
  if◌then◌else◌,
}
use c_s_cool_stuff.Score.Inputs.{Floats}
use c_s_cool_stuff.Normaliser.{
  Event, ObservationGroup, group_of, count_in, tally, insert_group, sort_groups, aggregate,
}
use c_s_cool_stuff.Evasion.{
  MorphKind, probe_techniques, probe_signatures, EvasionObservation, haystack, signature_in,
  observation, or_technique, is_none, classify, add_found, probes_of, actioned_of, is_empty,
  detect_observed, detect,
}

module _ (lower : Codes → Codes) where
  abbrev Occurs : Codes → List (String × MorphKind) → Type 0
  Occurs text [] = ⊥
  Occurs text ((fragment, morph) ∷ rest) =
      (is_part (lower (codes fragment)) text ≡ true) ⊎ Occurs text rest

  -- A signature occurs in the hook, the technique or the detail, or the technique id is one of a probe.
  abbrev pub IsProbe : ObservationGroup → Type 0
  IsProbe g = Occurs (haystack lower g) probe_signatures ⊎ (elem g.mitre probe_techniques ≡ true)

  chosen :
      (b : Bool) (m : MorphKind) (r : Option MorphKind) {morph : MorphKind}
      → (if b then some m else r) ≡ some morph
      → (b ≡ true) ⊎ (r ≡ some morph)
  chosen true m r h = inl refl
  chosen false m r h = inr h

  passed_over :
      (b : Bool) (m : MorphKind) (r : Option MorphKind)
      → (if b then some m else r) ≡ none
      → (b ≡ false) × (r ≡ none)
  passed_over true m r h = cc
  passed_over false m r h = (refl, h)

  signature_in-Occurs :
      (text : Codes) (table : List (String × MorphKind)) {morph : MorphKind}
      → signature_in lower text table ≡ some morph
      → Occurs text table
  unfolding signature_in
  signature_in-Occurs text [] h = cc
  signature_in-Occurs text ((fragment, m) ∷ rest) h =
      elim (chosen (is_part (lower (codes fragment)) text) m (signature_in lower text rest) h) [
        | inl found ↦ inl found
        | inr later ↦ inr (signature_in-Occurs text rest later)
      ]

  not-Occurs :
      (text : Codes) (table : List (String × MorphKind))
      → signature_in lower text table ≡ none
      → ¬ Occurs text table
  unfolding signature_in
  not-Occurs text [] h o = o
  not-Occurs text ((fragment, m) ∷ rest) h o =
      let (missing, none_later) =
        passed_over (is_part (lower (codes fragment)) text) m (signature_in lower text rest) h in
      elim o [ inl found ↦ cc | inr later ↦ not-Occurs text rest none_later later ]

  -- `_classify` finds exactly the probes.
  abbrev Classified : ObservationGroup → Option EvasionObservation → Type 0
  Classified g none = ¬ IsProbe g
  Classified g (some o) = IsProbe g

  by_technique :
      (g : ObservationGroup)
      → ¬ Occurs (haystack lower g) probe_signatures
      → (b : Bool) → elem g.mitre probe_techniques ≡ b
      → Classified g (observation lower g (if b then some MorphKind.install_packages else none))
  by_technique g silent true e = inr e
  by_technique g silent false e = λ p. elim p [ inl o ↦ silent o | inr known ↦ cc ]

  by_signature :
      (g : ObservationGroup) (found : Option MorphKind)
      → signature_in lower (haystack lower g) probe_signatures ≡ found
      → Classified g (observation lower g (or_technique lower g.mitre found))
  by_signature g (some morph) e = inl (signature_in-Occurs (haystack lower g) probe_signatures e)
  by_signature g none e =
      by_technique g (not-Occurs (haystack lower g) probe_signatures e)
        (elem g.mitre probe_techniques) refl

  classify-Classified : (g : ObservationGroup) → Classified g (classify lower g)
  unfolding classify
  classify-Classified g =
      by_signature g (signature_in lower (haystack lower g) probe_signatures) refl

  -- Some group is a probe exactly when there are probes, and all are exactly when there is no action.
  abbrev Counted : List ObservationGroup → List EvasionObservation → List ObservationGroup → Type 0
  Counted gs probes actioned =
      ((is_empty lower probes ≡ false) ↔ Any IsProbe gs)
      × ((is_empty lower actioned ≡ true) ↔ All IsProbe gs)

  count_further :
      (g : ObservationGroup) (gs : List ObservationGroup) (found : Option EvasionObservation)
      → Classified g found
      → Counted gs (probes_of lower gs) (actioned_of lower gs)
      → Counted
          (g ∷ gs)
          (add_found lower found (probes_of lower gs))
          (if is_none lower found then g ∷ actioned_of lower gs else actioned_of lower gs)
  count_further g gs none c (some_probe, all_probes) = (
    (
      λ h. inr (some_probe.0 h),
      λ a. elim a [ inl p ↦ absurd (c p) | inr later ↦ some_probe.1 later ],
    ),
    (λ h. cc, λ a. absurd (c a.0)),
  )
  count_further g gs (some o) c (some_probe, all_probes) =
      ((λ h. inl c, λ a. refl), (λ h. (c, all_probes.0 h), λ a. all_probes.1 a.1))

  counted : (gs : List ObservationGroup) → Counted gs (probes_of lower gs) (actioned_of lower gs)
  unfolding probes_of actioned_of
  counted [] = ((λ h. cc, λ h. absurd h), (λ h. tt, λ h. refl))
  counted (g ∷ gs) = count_further g gs (classify lower g) (classify-Classified g) (counted gs)

  -- What the events look like when nothing was done.
  abbrev pub IsStalling : List ObservationGroup → ℕ → Type 0
  IsStalling groups total_events =
      (groups ≡ []) ⊎ (Any IsProbe groups × (All IsProbe groups ⊎ (total_events < 12)))

  observed_iff :
      (gs : List ObservationGroup) (total_events : ℕ)
      → ((detect_observed lower gs total_events).stalled ≡ true)
        ↔ (Any IsProbe gs × (All IsProbe gs ⊎ (total_events < 12)))
  unfolding detect_observed
  observed_iff gs total_events = (
    λ h.
        let (some_probe, quiet) = stalls h in
        (
          (counted gs).0.0 some_probe,
          elim quiet [ inl none_acts ↦ inl ((counted gs).1.0 none_acts) | inr few ↦ inr few ],
        ),
    λ s.
        let some_probe = (counted gs).0.1 s.0 in
        elim s.1 [
          | inl all_probes ↦ let none_acts = (counted gs).1.1 all_probes in ground arith
          | inr few ↦ ground arith
        ],
  )
    where
      stalls :
          (detect_observed lower gs total_events).stalled ≡ true
          → (is_empty lower (probes_of lower gs) ≡ false)
            × ((is_empty lower (actioned_of lower gs) ≡ true) ⊎ (total_events < 12))
      stalls h = elim (Bool-cases (is_empty lower (actioned_of lower gs))) [
        | inl none_acts ↦ (ground arith, inl none_acts)
        | inr acts ↦ (ground arith, inr (ground arith))
      ]

  detect_iff :
      (groups : List ObservationGroup) (total_events : ℕ) (ran : Bool)
      → ((detect lower groups total_events ran).stalled ≡ true)
        ↔ ((ran ≡ true) × IsStalling groups total_events)
  unfolding detect
  detect_iff groups total_events false = (λ h. cc, λ s. cc)
  detect_iff [] total_events true = (λ h. (refl, inl refl), λ s. refl)
  detect_iff (g ∷ gs) total_events true = (
    λ h. (refl, inr ((observed_iff (g ∷ gs) total_events).0 h)),
    λ s. elim s.1 [ inl e ↦ cc | inr stalling ↦ (observed_iff (g ∷ gs) total_events).1 stalling ],
  )

insert_group-ne : (g : ObservationGroup) (gs : List ObservationGroup) → insert_group g gs ≢ []
unfolding insert_group
insert_group-ne g [] e = cc
insert_group-ne g (h ∷ hs) e = ground (arith, e)

count_in-ne : (g : ObservationGroup) (gs : List ObservationGroup) → count_in g gs ≢ []
unfolding count_in
count_in-ne g [] e = cc
count_in-ne g (h ∷ hs) e = ground (arith, e)

tally-ne : (gs : List ObservationGroup) (es : List Event) → gs ≢ [] → tally gs es ≢ []
unfolding tally
tally-ne gs [] ne e = ne e
tally-ne gs (x ∷ es) ne e = tally-ne (count_in (group_of x) gs) es (count_in-ne (group_of x) gs) e

sorted-ne : (gs : List ObservationGroup) → gs ≢ [] → sort_groups gs ≢ []
unfolding sort_groups
sorted-ne [] ne e = ne refl
sorted-ne (g ∷ gs) ne e = insert_group-ne g (sort_groups gs) e

cut-ne : (n : ℕ) (gs : List ObservationGroup) → gs ≢ [] → take (suc n) gs ≢ []
cut-ne n [] ne e = ne refl
cut-ne n (g ∷ gs) ne e = cc

groups-ne : (m : Floats) (x : Event) (es : List Event) → (aggregate m (x ∷ es)).groups ≢ []
unfolding aggregate tally
groups-ne m x es = cut-ne 39 _ (sorted-ne _ (tally-ne _ es (count_in-ne (group_of x) [])))

-- A run that was started is called stalled exactly when there was no event at all, or some group that the
-- normaliser keeps is a probe of the environment and either all of them are or there were fewer than
-- twelve events; a run that was not started never is.
pub detect-aggregate_iff :
    (lower : Codes → Codes) (m : Floats) (events : List Event) (ran : Bool)
    → let trace = aggregate m events in
      ((detect lower trace.groups trace.total_events ran).stalled ≡ true) ↔ (
        (ran ≡ true)
        × ((events ≡ [])
            ⊎ (Any (IsProbe lower) trace.groups
                × (All (IsProbe lower) trace.groups ⊎ (length events < 12)))))
unfolding aggregate
detect-aggregate_iff lower m [] ran = (
  λ h. (((detect_iff lower [] 0 ran).0 h).0, inl refl),
  λ s. (detect_iff lower [] 0 ran).1 (s.0, inl refl),
)
detect-aggregate_iff lower m (x ∷ es) ran = (
  λ h.
      let (started, stalling) =
        (detect_iff lower (aggregate m (x ∷ es)).groups (length (x ∷ es)) ran).0 h in
      (started, elim stalling [ inl e ↦ absurd (groups-ne m x es e) | inr s ↦ inr s ]),
  λ s.
      (detect_iff lower (aggregate m (x ∷ es)).groups (length (x ∷ es)) ran).1
        (s.0, elim s.1 [ inl e ↦ cc | inr q ↦ inr q ]),
)
