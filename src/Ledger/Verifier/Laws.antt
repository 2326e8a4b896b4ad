-- ===== src/Ledger/Verifier/Laws.antt =====
-- What `check_claim` and `filter` of drishti/ledger/verifier.py decide.
use c_s_cool_stuff.Prelude.{
  String, ◌≡◌, ◌≢◌, refl, ◌↔◌, ◌⊎◌, inl, inr, Bool, true, false, not, Option, none, some, List, [],
  ◌∷◌, elem, any, str_eq, eq_iff, arith, Any, keep_if, Option-cases, List-cases,
}
use c_s_cool_stuff.Ledger.Evidence.{EvidenceType, value}
use c_s_cool_stuff.Ledger.Platform.{Platform}
use c_s_cool_stuff.Ledger.Row.{EvidenceNode}
use c_s_cool_stuff.Ledger.Store.{get}
use c_s_cool_stuff.Ledger.Verifier.{
  VerifierStatus, pass, GroundedClaim, non_behavioural_types, Verifier, Cited, bad_ref, unreadable,
  nodes, resolve, types_fit, check_claim, filter_claims, is_pass, is_elsewhere, judge,
}

abbrev pub has_passed : GroundedClaim → Bool
has_passed c = is_pass c.verifier_status

module _ (p : Platform) (v : Verifier p) where
  -- The claim's job, if the verifier has one, is the node's.
  abbrev InJob : EvidenceNode p → Type 0
  InJob n = (v.job_id ≡ none) ⊎ (v.job_id ≡ some n.job_id)

  -- Each reference is the id of a node of the job.
  abbrev pub Resolves : List String → List (EvidenceNode p) → Type 0
  Resolves [] [] = Unit
  Resolves (ref ∷ refs) (n ∷ ns) = (get p v.rows ref ≡ some (some n)) × InJob n × Resolves refs ns
  Resolves _ _ = ⊥

  -- Some node is of a type that supports the claim.
  abbrev pub Supports : Option (List EvidenceType) → List (EvidenceNode p) → Type 0
  Supports none ns = Any (λ n. elem (value n.type) non_behavioural_types ≡ false) ns
  Supports (some allowed) ns = Any (λ n. Any (λ t. value t ≡ value n.type) allowed) ns

  is_elsewhere_iff :
      (job : Option String) (n : EvidenceNode p)
      → (is_elsewhere p job n ≡ false) ↔ ((job ≡ none) ⊎ (job ≡ some n.job_id))
  is_elsewhere_iff none n = (λ h. inl refl, λ h. refl)
  is_elsewhere_iff (some job) n = ground (arith, eq_iff n.job_id job)

  resolve-Resolves :
      (refs : List String) (ns : List (EvidenceNode p))
      → (resolve p v refs ≡ nodes ns) ↔ Resolves refs ns
  unfolding resolve
  resolve-Resolves [] [] = (λ h. tt, λ h. refl)
  resolve-Resolves [] (n ∷ ns) = (λ h. cc, λ h. elim h [ ])
  resolve-Resolves (ref ∷ refs) [] = (λ h. ground arith, λ h. elim h [ ])
  resolve-Resolves (ref ∷ refs) (n ∷ ns) =
      ground (arith, resolve-Resolves refs ns, is_elsewhere_iff v.job_id n)

  any_type :
      (allowed : List EvidenceType) (n : EvidenceNode p)
      → (any (λ t. str_eq (value t) (value n.type)) allowed ≡ true)
        ↔ Any (λ t. value t ≡ value n.type) allowed
  any_type [] n = (λ h. cc, λ h. elim h [ ])
  any_type (t ∷ allowed) n = ground (arith, any_type allowed n, eq_iff (value t) (value n.type))

  types_fit-Supports :
      (allowed : Option (List EvidenceType)) (ns : List (EvidenceNode p))
      → (types_fit p allowed ns ≡ true) ↔ Supports allowed ns
  unfolding types_fit
  types_fit-Supports none [] = (λ h. cc, λ h. elim h [ ])
  types_fit-Supports none (n ∷ ns) = ground (arith, types_fit-Supports none ns)
  types_fit-Supports (some allowed) [] = (λ h. cc, λ h. elim h [ ])
  types_fit-Supports (some allowed) (n ∷ ns) =
      ground (arith, types_fit-Supports (some allowed) ns, any_type allowed n)

  -- The claims in order, each with the status that `check_claim` gives it.
  abbrev pub Decides : Option (List EvidenceType) → List GroundedClaim → List GroundedClaim → Type 0
  Decides allowed [] [] = Unit
  Decides allowed (c ∷ cs) (d ∷ ds) =
      ((status : VerifierStatus) × (check_claim p v c allowed ≡ some status)
        × (d ≡ record c { verifier_status = status }))
      × Decides allowed cs ds
  Decides allowed _ _ = ⊥

  judge_pass :
      (allowed : Option (List EvidenceType)) (c : Cited p)
      → (judge p allowed c ≡ some pass)
        ↔ ((ns : List (EvidenceNode p)) × (c ≡ nodes ns) × (types_fit p allowed ns ≡ true))
  unfolding judge
  judge_pass allowed bad_ref = (λ h. cc, λ (ns, e, t). cc)
  judge_pass allowed unreadable = (λ h. cc, λ (ns, e, t). cc)
  judge_pass allowed (nodes ns) = (λ h. (ns, refl, ground arith), λ (ms, e, t). ground arith)

module _ (p : Platform) where
  -- `filter` splits the claims, each decided by `check_claim`, into those that passed and those that
  -- did not, both in their order and none lost.
  filter_claims_split :
      (v : Verifier p) (claims : List GroundedClaim) (allowed : Option (List EvidenceType))
      (passed rejected : List GroundedClaim)
      → filter_claims p v claims allowed ≡ some (passed, rejected)
      → (ds : List GroundedClaim) × Decides p v allowed claims ds
        × (passed ≡ keep_if (has_passed) ds)
        × (rejected ≡ keep_if (λ d. not (has_passed d)) ds)
  unfolding filter_claims
  filter_claims_split v [] allowed passed rejected h = ([], tt, ground arith, ground arith)
  filter_claims_split v (c ∷ cs) allowed passed rejected h =
      elim (Option-cases (check_claim p v c allowed)) [
        | inl e ↦ ground arith
        | inr (status, e) ↦ elim (Option-cases (filter_claims p v cs allowed)) [
          | inl f ↦ ground arith
          | inr ((ps, rs), f) ↦
              let (ds, decided, in_p, in_r) = filter_claims_split v cs allowed ps rs f in
              (
                record c { verifier_status = status } ∷ ds,
                ((status, e, refl), decided),
                ground arith,
                ground arith,
              )
        ]
      ]

-- A claim passes exactly when it cites something, each citation is the id of a node of the
-- verifier's job, and some cited node is of an allowed type, or, when no types were given, of one
-- that is not certificate, file metadata or split APK.
pub check_claim_pass :
    (p : Platform) (v : Verifier p) (claim : GroundedClaim) (allowed : Option (List EvidenceType))
    → (check_claim p v claim allowed ≡ some pass) ↔ (
        (claim.evidence_refs ≢ [])
        × ((ns : List (EvidenceNode p)) × Resolves p v claim.evidence_refs ns
            × Supports p v allowed ns))
unfolding check_claim
check_claim_pass p v claim allowed = elim (List-cases claim.evidence_refs) [
  | inl e ↦ (λ h. ground arith, λ (h, rest). absurd (h e))
  | inr (ref, refs, e) ↦
      let judged = judge_pass p v allowed (resolve p v claim.evidence_refs) in
      (
        λ h.
            let (ns, found, fit) = judged.0 (ground arith) in
            (
              λ empty. cc,
              (
                ns,
                (resolve-Resolves p v claim.evidence_refs ns).0 found,
                (types_fit-Supports p v allowed ns).0 fit,
              ),
            ),
        λ (h, (ns, found, fit)).
            let passes = judged.1 (
              ns,
              (resolve-Resolves p v claim.evidence_refs ns).1 found,
              (types_fit-Supports p v allowed ns).1 fit,
            ) in
            ground (arith, passes),
      )
]
