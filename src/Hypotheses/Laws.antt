-- ===== src/Hypotheses/Laws.antt =====
-- What `derive_hypotheses` of drishti/m2_static/hypotheses.py returns.
use c_s_cool_stuff.Prelude.{
  ℕ, zero, suc, ◌≤◌, true, List, [], ◌∷◌, leb, take, All, Any, length, ◌≡◌, ◌≢◌, refl, ◌↔◌, ◌⊎◌,
  arith, String, elem, eq_iff, ap, sym, subst, if-elim,
}
use c_s_cool_stuff.Hypotheses.{
  Hypothesis, HypothesisKind, Facts, hypothesis, all_kinds, applies, is_filled, candidates, derived,
  insert_by_priority, sort_by_priority, derive_hypotheses,
}
unfoldable use c_s_cool_stuff.Hypotheses.{
  applies, candidates, derived, insert_by_priority, sort_by_priority, derive_hypotheses,
}

-- The priorities never fall along the list.
abbrev pub InOrder : List Hypothesis → Type 0
InOrder [] = Unit
InOrder (h ∷ hs) = All (λ g. h.priority ≤ g.priority) hs × InOrder hs

All-insert :
    (P : Hypothesis → Type 0) (h : Hypothesis) (gs : List Hypothesis)
    → P h
    → All P gs
    → All P (insert_by_priority h gs)
unfolding insert_by_priority
All-insert P h [] p q = (p, tt)
All-insert P h (g ∷ gs) p (q, qs) =
    if-elim (All P) (leb h.priority g.priority) (h ∷ g ∷ gs) (g ∷ insert_by_priority h gs)
      (λ e. (p, (q, qs))) (λ e. (q, All-insert P h gs p qs))

All-weaken :
    (a b : ℕ) (gs : List Hypothesis)
    → a ≤ b
    → All (λ g. b ≤ g.priority) gs
    → All (λ g. a ≤ g.priority) gs
All-weaken a b [] h q = tt
All-weaken a b (g ∷ gs) h (p, q) = (omega arith, All-weaken a b gs h q)

InOrder-insert :
    (h : Hypothesis) (gs : List Hypothesis) → InOrder gs → InOrder (insert_by_priority h gs)
unfolding insert_by_priority
InOrder-insert h [] o = (tt, tt)
InOrder-insert h (g ∷ gs) (p, o) =
    if-elim InOrder (leb h.priority g.priority) (h ∷ g ∷ gs) (g ∷ insert_by_priority h gs)
      (λ e.
        let below : h.priority ≤ g.priority = ground arith in
        ((below, All-weaken h.priority g.priority gs below p), (p, o)))
      (λ e. (All-insert (λ k. g.priority ≤ k.priority) h gs ground arith p, InOrder-insert h gs o))

InOrder-sort : (hs : List Hypothesis) → InOrder (sort_by_priority hs)
unfolding sort_by_priority
InOrder-sort [] = tt
InOrder-sort (h ∷ hs) = InOrder-insert h (sort_by_priority hs) (InOrder-sort hs)

abbrev pub Holds : Hypothesis → List Hypothesis → Type 0
Holds h hs = Any (λ g. g ≡ h) hs

Holds-insert :
    (x h : Hypothesis) (gs : List Hypothesis)
    → (Holds x (insert_by_priority h gs)) ↔ ((h ≡ x) ⊎ Holds x gs)
unfolding insert_by_priority
Holds-insert x h [] = (λ e. e, λ e. e)
Holds-insert x h (g ∷ gs) =
    if-elim (λ l. (Holds x l) ↔ ((h ≡ x) ⊎ Holds x (g ∷ gs))) (leb h.priority g.priority)
      (h ∷ g ∷ gs) (g ∷ insert_by_priority h gs) (λ e. (λ m. m, λ m. m))
      (λ e. ground (arith, Holds-insert x h gs))

Holds-sort :
    (x : Hypothesis) (hs : List Hypothesis) → (Holds x (sort_by_priority hs)) ↔ (Holds x hs)
unfolding sort_by_priority
Holds-sort x [] = (λ e. e, λ e. e)
Holds-sort x (h ∷ hs) = ground (arith, Holds-sort x hs, Holds-insert x h (sort_by_priority hs))

length-insert :
    (h : Hypothesis) (gs : List Hypothesis) → length (insert_by_priority h gs) ≡ suc (length gs)
unfolding insert_by_priority
length-insert h [] = refl
length-insert h (g ∷ gs) = ground (arith, length-insert h gs)

length-sort : (hs : List Hypothesis) → length (sort_by_priority hs) ≡ length hs
unfolding sort_by_priority
length-sort [] = refl
length-sort (h ∷ hs) = omega (arith, length-sort hs, length-insert h (sort_by_priority hs))

take-all : {A : Type 0} (n : ℕ) (xs : List A) → length xs ≤ n → take n xs ≡ xs
take-all zero [] h = refl
take-all zero (x ∷ xs) h = let no : ⊥ = omega (arith, h) in elim no [ ]
take-all (suc n) [] h = refl
take-all (suc n) (x ∷ xs) h = ap (λ ys. x ∷ ys) (take-all n xs omega (arith, h))

length-derived : (f : Facts) (ks : List HypothesisKind) → length (derived f ks) ≤ length ks
unfolding derived
length-derived f [] = omega arith
length-derived f (k ∷ ks) = ground (arith, length-derived f ks)

abbrev pub Contains : String → List String → Type 0
Contains x xs = Any (λ y. y ≡ x) xs

-- What the facts have to hold for a hypothesis of the kind.
abbrev pub Warrants : Facts → HypothesisKind → Type 0
Warrants f HypothesisKind.target_app_probe =
    Contains "pkg_query" f.sink_hits
    × (Contains "com.sbi.yono" f.package_strings
        ⊎ (Contains "com.phonepe.app" f.package_strings
            ⊎ Contains "net.one97.paytm" f.package_strings))
Warrants f HypothesisKind.secondary_payload =
    (f.dcl_indicators ≢ []) ⊎ Contains "dex_load" f.sink_hits
Warrants f HypothesisKind.otp_exfil =
    Contains "OTP_THEFT_SURFACE" f.rule_ids × Contains "network" f.sink_hits
Warrants f HypothesisKind.overlay_attack =
    Contains "OVERLAY_CREDENTIAL_THEFT" f.rule_ids ⊎ Contains "overlay" f.sink_hits
Warrants f HypothesisKind.accessibility_abuse = Contains "ACCESSIBILITY_ABUSE" f.rule_ids
Warrants f HypothesisKind.c2_beacon = (f.urls ≢ []) × Contains "network" f.sink_hits

elem_iff : (x : String) (xs : List String) → (elem x xs ≡ true) ↔ Contains x xs
elem_iff x [] = (λ h. cc, λ h. elim h [ ])
elem_iff x (y ∷ ys) = ground (arith, elem_iff x ys, eq_iff y x)

is_filled_iff : (xs : List String) → (is_filled xs ≡ true) ↔ (xs ≢ [])
is_filled_iff [] = (λ h. cc, λ h. absurd (h refl))
is_filled_iff (x ∷ xs) = (λ h e. cc, λ h. refl)

candidates_iff :
    (packages : List String)
    → (is_filled (candidates packages) ≡ true) ↔ (
        Contains "com.sbi.yono" packages
        ⊎ (Contains "com.phonepe.app" packages ⊎ Contains "net.one97.paytm" packages))
unfolding candidates
candidates_iff packages = ground (
  arith,
  elem_iff "com.sbi.yono" packages,
  elem_iff "com.phonepe.app" packages,
  elem_iff "net.one97.paytm" packages,
)

applies_iff : (f : Facts) (k : HypothesisKind) → (applies f k ≡ true) ↔ Warrants f k
unfolding applies
applies_iff f HypothesisKind.target_app_probe =
    ground (arith, elem_iff "pkg_query" f.sink_hits, candidates_iff f.package_strings)
applies_iff f HypothesisKind.secondary_payload =
    ground (arith, is_filled_iff f.dcl_indicators, elem_iff "dex_load" f.sink_hits)
applies_iff f HypothesisKind.otp_exfil =
    ground (arith, elem_iff "OTP_THEFT_SURFACE" f.rule_ids, elem_iff "network" f.sink_hits)
applies_iff f HypothesisKind.overlay_attack =
    ground (arith, elem_iff "OVERLAY_CREDENTIAL_THEFT" f.rule_ids, elem_iff "overlay" f.sink_hits)
applies_iff f HypothesisKind.accessibility_abuse = elem_iff "ACCESSIBILITY_ABUSE" f.rule_ids
applies_iff f HypothesisKind.c2_beacon =
    ground (arith, is_filled_iff f.urls, elem_iff "network" f.sink_hits)

-- The kind is one of the list.
abbrev IsAmong : HypothesisKind → List HypothesisKind → Type 0
IsAmong k ks = Any (λ j. j ≡ k) ks

Holds-derived :
    (f : Facts) (k : HypothesisKind) (ks : List HypothesisKind)
    → (Holds (hypothesis f k) (derived f ks)) ↔ ((applies f k ≡ true) × IsAmong k ks)
unfolding derived
Holds-derived f k [] = (λ e. elim e [ ], λ e. elim (e.1) [ ])
Holds-derived f k (j ∷ js) =
    let to : hypothesis f j ≡ hypothesis f k → j ≡ k = λ e. ap (λ h. h.kind) e in
    let from : j ≡ k → hypothesis f j ≡ hypothesis f k = λ e. ap (hypothesis f) e in
    let same : j ≡ k → applies f j ≡ applies f k = λ e. ap (applies f) e in
    if-elim (λ l. (Holds (hypothesis f k) l) ↔ ((applies f k ≡ true) × IsAmong k (j ∷ js)))
      (applies f j) (hypothesis f j ∷ derived f js) (derived f js)
      (λ e. ground (arith, Holds-derived f k js, to, from, same))
      (λ e. ground (arith, Holds-derived f k js, same))

IsAmong-all : (k : HypothesisKind) → IsAmong k all_kinds
IsAmong-all k = ground arith

-- A hypothesis of a kind, with the evidence references of the facts, is returned exactly when the facts
-- warrant it: a query for packages and one of the three bank packages; indicators or a sink of loaded code;
-- the rule for stolen codes and a network sink; the rule or a sink for overlays; the rule for accessibility;
-- a URL and a network sink. The priorities never fall along the result, and the limit of eight cuts nothing
-- off.
pub derive_hypotheses_iff :
    (f : Facts)
    → ((k : HypothesisKind) → (Holds (hypothesis f k) (derive_hypotheses f)) ↔ Warrants f k)
      × InOrder (derive_hypotheses f)
      × (derive_hypotheses f ≡ sort_by_priority (derived f all_kinds))
unfolding derive_hypotheses
derive_hypotheses_iff f =
    let sorted = sort_by_priority (derived f all_kinds) in
    let few : length sorted ≤ 8 =
      omega (arith, length-sort (derived f all_kinds), length-derived f all_kinds) in
    let whole = take-all 8 sorted few in
    (
      λ k. subst (λ l. (Holds (hypothesis f k) l) ↔ Warrants f k) (sym whole) (members k),
      subst InOrder (sym whole) (InOrder-sort (derived f all_kinds)),
      whole,
    )
  where
    members :
        (k : HypothesisKind)
        → (Holds (hypothesis f k) (sort_by_priority (derived f all_kinds))) ↔ Warrants f k
    members k = ground (
      arith,
      applies_iff f k,
      Holds-sort (hypothesis f k) (derived f all_kinds),
      Holds-derived f k all_kinds,
      IsAmong-all k,
    )
