-- ===== src/C2Bundle/Grounded.antt =====
-- What drishti/m3_dynamic/c2_bundle.py stages: inert responses, each with its evidence, one for a host.
use c_s_cool_stuff.Prelude.{
  ℕ, zero, suc, ◌≤◌, ◌≡◌, ◌≢◌, refl, subst, ◌⊎◌, inl, inr, Bool, true, false, not, ◌&&◌, Option,
  none, some, List, [], ◌∷◌, ◌++◌, length, is_in, Codes, codes, arith, Bool-cases, if-elim,
}
use c_s_cool_stuff.GenerativeC2.{Value, object, end, C2ResponseKind}
use c_s_cool_stuff.GenerativeC2.Gate.{command_keys_of}
use c_s_cool_stuff.GenerativeC2.Inert.{IsInert}
use c_s_cool_stuff.GenerativeC2.Response.{
  Proposed, Served, template, status_ok, synthesise_response-IsInert,
}
use c_s_cool_stuff.C2Bundle.{
  CapturedFlow, C2BundleEntry, GroundedHint, Recording, no_ledger, failed, node, is_sha256, by_host,
  response_of, refs_after, entry_of, staged, entry_for, with_entry, with_evidence, grounds, turn,
  entries_for, build_c2_bundle,
}

module _ (looks_like_beacon : Codes → Codes → Bool) where
  -- The flows are of beacons, and no host is among those seen or comes twice.
  abbrev pub Firsts : List Codes → List CapturedFlow → Type 0
  Firsts seen [] = Unit
  Firsts seen (f ∷ fs) =
      (looks_like_beacon (f.scheme ++ (codes "://" ++ (f.host ++ f.path))) f.host ≡ true)
      × (is_in f.host seen ≡ false)
      × Firsts (f.host ∷ seen) fs

  both_true : (a b : Bool) → (a && not b) ≡ true → (a ≡ true) × (b ≡ false)
  both_true a b h = ground arith

  by_host-Firsts :
      (seen : List Codes) (fs : List CapturedFlow) → Firsts seen (by_host looks_like_beacon seen fs)
  unfolding by_host
  by_host-Firsts seen [] = tt
  by_host-Firsts seen (f ∷ fs) =
      if-elim (Firsts seen)
        (looks_like_beacon (f.scheme ++ (codes "://" ++ (f.host ++ f.path))) f.host
          && not (is_in f.host seen))
        (f ∷ by_host looks_like_beacon (f.host ∷ seen) fs) (by_host looks_like_beacon seen fs)
        (λ h.
          let (beacon, unseen) = both_true _ _ h in
          (beacon, unseen, by_host-Firsts (f.host ∷ seen) fs))
        (λ h. by_host-Firsts seen fs)

module _ (lower : Codes → Codes) {F W : Type 0} (dumps : Value F → Codes)
    (ask : CapturedFlow → GroundedHint → W → Option Proposed × W)
    (record_node : CapturedFlow → Served F → W → Recording × W) where
  -- {"status": "ok"} of kind connectivity_ok, or inert under the hint's keys and the command slots of
  -- its shape, and no longer than the cap.
  abbrev pub IsHarmless : GroundedHint → Proposed → Value F → C2ResponseKind → Type 0
  IsHarmless h proposed body kind =
      ((kind ≡ C2ResponseKind.connectivity_ok) × (body ≡ object (status_ok end)))
      ⊎ (IsInert lower
            (command_keys_of lower (λ v. length (dumps v)) h.hint
              (template h.hint.response_kind proposed))
            h.hint.url_keys 0 none body
          × (length (dumps body) ≤ 4096))

  -- An entry for a flow, made from a hint for its host that has evidence.
  pub record IsStaged (hints : Codes → Option GroundedHint) (f : CapturedFlow) (e : C2BundleEntry)
      : Type 0 where
    pub ground_hint : GroundedHint
    pub proposed : Proposed
    pub body : Value F
    pub hinted : hints f.host ≡ some ground_hint
    pub has_evidence : ground_hint.evidence_refs ≢ []
    pub same_host : e.host ≡ f.host
    pub serves : e.served_body ≡ dumps body
    pub harmless : IsHarmless ground_hint proposed body e.response_kind
    pub cites :
        (e.derived_from ≡ ground_hint.evidence_refs)
        ⊎ ((id : Codes) × (e.derived_from ≡ id ∷ ground_hint.evidence_refs))

  -- The entries are for some of the flows, in their order.
  abbrev pub Follows :
      (Codes → Option GroundedHint) → List CapturedFlow → List C2BundleEntry → Type 0
  Follows hints fs [] = Unit
  Follows hints [] (e ∷ es) = ⊥
  Follows hints (f ∷ fs) (e ∷ es) =
      (IsStaged hints f e × Follows hints fs es) ⊎ Follows hints fs (e ∷ es)

  skip :
      (hints : Codes → Option GroundedHint) (f : CapturedFlow) (fs : List CapturedFlow)
      (es : List C2BundleEntry)
      → Follows hints fs es
      → Follows hints (f ∷ fs) es
  skip hints f fs [] h = tt
  skip hints f fs (e ∷ es) h = inr h

  -- A grounding hint is one with evidence.
  grounds-some :
      (o : Option GroundedHint) {h : GroundedHint}
      → grounds o ≡ some h
      → (o ≡ some h) × (h.evidence_refs ≢ [])
  grounds-some none e = cc
  grounds-some (some g) {h} e = go g.evidence_refs refl e
    where
      go :
          (refs : List Codes)
          → g.evidence_refs ≡ refs
          → with_evidence g refs ≡ some h
          → (some g ≡ some h) × (h.evidence_refs ≢ [])
      go [] e₁ e₂ = cc
      go (r ∷ rs) e₁ e₂ = (e₂, λ empty. cc)

  response-IsHarmless :
      (h : GroundedHint) (proposed : Proposed)
      → let served = response_of lower dumps ask record_node h proposed in
        IsHarmless h proposed served.body served.kind
  response-IsHarmless h proposed =
      elim (synthesise_response-IsInert lower (λ v. length (dumps v)) h.hint proposed) [
        | inl (r, fell_back, kind, body) ↦ inl (kind, body)
        | inr (fell_back, kind, inert, small) ↦ inr (inert, small)
      ]

  entry_of-IsStaged :
      (hints : Codes → Option GroundedHint) (f : CapturedFlow) (h : GroundedHint)
      (proposed : Proposed) (recorded : Recording)
      → hints f.host ≡ some h
      → h.evidence_refs ≢ []
      → (refs : Option (List Codes)) → refs_after recorded h.evidence_refs ≡ refs
      → (e : C2BundleEntry)
      → entry_of lower dumps ask record_node f
          (response_of lower dumps ask record_node h proposed)
          refs
        ≡ some e
      → IsStaged hints f e
  entry_of-IsStaged hints f h proposed recorded hinted has none k e made = cc
  entry_of-IsStaged hints f h proposed recorded hinted has (some []) k e made = cc
  entry_of-IsStaged hints f h proposed recorded hinted has (some (ref ∷ refs)) k e made =
      subst (λ t. IsStaged hints f t) (some_injective made)
        (record {
          ground_hint = h;
          proposed = proposed;
          body = (response_of lower dumps ask record_node h proposed).body;
          hinted = hinted;
          has_evidence = has;
          same_host = refl;
          serves = refl;
          harmless = response-IsHarmless h proposed;
          cites = cited recorded k;
        })
    where
      some_injective : {x y : C2BundleEntry} → some x ≡ some y → x ≡ y
      some_injective q = cc

      cited :
          (r : Recording)
          → refs_after r h.evidence_refs ≡ some (ref ∷ refs)
          → ((ref ∷ refs) ≡ h.evidence_refs)
            ⊎ ((id : Codes) × ((ref ∷ refs) ≡ id ∷ h.evidence_refs))
      cited no_ledger q = inl (cc)
      cited failed q = cc
      cited (node id) q = inr (id, cc)

  staged-IsStaged :
      (hints : Codes → Option GroundedHint) (f : CapturedFlow) (h : GroundedHint)
      (proposed : Option Proposed) (w : W)
      → hints f.host ≡ some h
      → h.evidence_refs ≢ []
      → (e : C2BundleEntry) → (staged lower dumps ask record_node f h proposed w).0 ≡ some e
      → IsStaged hints f e
  unfolding staged
  staged-IsStaged hints f h none w hinted has e made = cc
  staged-IsStaged hints f h (some proposed) w hinted has e made =
      entry_of-IsStaged hints f h proposed _ hinted has _ refl e made

  entry_for-IsStaged :
      (hints : Codes → Option GroundedHint) (f : CapturedFlow) (h : GroundedHint) (w : W)
      → hints f.host ≡ some h
      → h.evidence_refs ≢ []
      → (e : C2BundleEntry) → (entry_for lower dumps ask record_node f h w).0 ≡ some e
      → IsStaged hints f e
  unfolding entry_for
  entry_for-IsStaged hints f h w hinted has e made = staged-IsStaged hints f h _ _ hinted has e made

  -- At most `budget` entries, that follow the flows
  abbrev Staged :
      (Codes → Option GroundedHint) → ℕ → List CapturedFlow → List C2BundleEntry → Type 0
  Staged hints budget fs es = (length es ≤ budget) × Follows hints fs es

  with_entry-Staged :
      (hints : Codes → Option GroundedHint) (left : ℕ) (f : CapturedFlow) (fs : List CapturedFlow)
      (made : Option C2BundleEntry) (es : List C2BundleEntry)
      → ((e : C2BundleEntry) → made ≡ some e → IsStaged hints f e)
      → Staged hints left fs es
      → Staged hints (suc left) (f ∷ fs) (with_entry made es)
  with_entry-Staged hints left f fs none es h (small, follows) =
      (omega arith, skip hints f fs es follows)
  with_entry-Staged hints left f fs (some e) es h (small, follows) =
      (omega arith, inl (h e refl, follows))

  turn-Staged :
      (hints : Codes → Option GroundedHint) (f : CapturedFlow) (fs : List CapturedFlow)
      (g : Option GroundedHint) (budget : ℕ) (others : ℕ → W → List C2BundleEntry × W) (w : W)
      → ((h : GroundedHint) → g ≡ some h → (hints f.host ≡ some h) × (h.evidence_refs ≢ []))
      → ((left : ℕ) (w' : W) → Staged hints left fs (others left w').0)
      → Staged hints budget (f ∷ fs) (turn lower dumps ask record_node f g budget others w).0
  turn-Staged hints f fs none budget others w k h =
      ((h budget w).0, skip hints f fs (others budget w).0 (h budget w).1)
  turn-Staged hints f fs (some g) zero others w k h = (omega arith, tt)
  turn-Staged hints f fs (some g) (suc left) others w k h =
      let (hinted, has) = k g refl in
      with_entry-Staged hints left f fs _ _ (entry_for-IsStaged hints f g w hinted has) (h left _)

  entries_for-Staged :
      (hints : Codes → Option GroundedHint) (fs : List CapturedFlow) (budget : ℕ) (w : W)
      → Staged hints budget fs (entries_for lower dumps ask record_node hints fs budget w).0
  unfolding entries_for
  entries_for-Staged hints [] budget w = (omega arith, tt)
  entries_for-Staged hints (f ∷ fs) budget w =
      turn-Staged hints f fs (grounds (hints f.host)) budget _ w
        (λ h e. grounds-some (hints f.host) e) (entries_for-Staged hints fs)

  -- A bundle has at most as many entries as the budget allows calls. They follow the first flows of the
  -- beacons, one for a host, and each serves a harmless body, made from a hint for its host that has
  -- evidence, and cites this evidence. A bundle that is not empty is for a SHA-256 digest.
  pub build_c2_bundle-Follows :
      (looks_like_beacon : Codes → Codes → Bool) (hints : Codes → Option GroundedHint) (budget : ℕ)
      (sha256 : Codes) (flows : List CapturedFlow) (w : W)
      → let bundle =
          (build_c2_bundle lower dumps ask record_node looks_like_beacon hints budget sha256 flows
            w).0 in
        let firsts = by_host looks_like_beacon [] flows in
        (length bundle.entries ≤ budget)
        × Follows hints firsts bundle.entries
        × Firsts looks_like_beacon [] firsts
        × ((bundle.entries ≡ []) ⊎ (is_sha256 sha256 ≡ true))
  unfolding build_c2_bundle
  build_c2_bundle-Follows looks_like_beacon hints budget sha256 flows w =
      elim (Bool-cases (is_sha256 sha256)) [
        | inr bad ↦ rw bad (omega arith, tt, by_host-Firsts looks_like_beacon [] flows, inl refl)
        | inl good ↦
            let (small, follows) =
              entries_for-Staged hints (by_host looks_like_beacon [] flows) budget w in
            rw good (small, follows, by_host-Firsts looks_like_beacon [] flows, inr refl)
      ]
