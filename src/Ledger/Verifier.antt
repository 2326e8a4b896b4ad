-- ===== src/Ledger/Verifier.antt =====
-- drishti/ledger/verifier.py: which claims of an agent may be asserted in a report.
pub mod Laws
use c_s_cool_stuff.Prelude.{
  String, Bool, true, false, not, ◌&&◌, ◌||◌, Option, none, some, List, [], ◌∷◌, str_eq, elem, any,
  all, if◌then◌else◌,
}
use c_s_cool_stuff.Ledger.Evidence.{EvidenceType, value}
use c_s_cool_stuff.Ledger.Platform.{Platform}
use c_s_cool_stuff.Ledger.Row.{Row, EvidenceNode}
use c_s_cool_stuff.Ledger.Store.{get}

-- `VerifierStatus` of drishti/contracts/genai_verdict.py
pub data VerifierStatus : Type 0 where
  pass rejected_no_evidence rejected_bad_ref rejected_type_mismatch : VerifierStatus

pub record GroundedClaim : Type 0 where
  pub text : String
  pub evidence_refs : List String
  pub agent : String
  pub verifier_status : VerifierStatus

-- `NON_BEHAVIOURAL_TYPES`
abbrev pub non_behavioural_types : List String
non_behavioural_types = "file_meta" ∷ "certificate" ∷ "split_apk" ∷ []

abbrev is_pass : VerifierStatus → Bool
is_pass pass = true
is_pass _ = false

abbrev place :
    GroundedClaim
    → VerifierStatus
    → List GroundedClaim × List GroundedClaim
    → List GroundedClaim × List GroundedClaim
place claim status (passed, rejected) =
    let decided = record claim { verifier_status = status } in
    if is_pass status then (decided ∷ passed, rejected) else (passed, decided ∷ rejected)

module _ (p : Platform) where
  -- The rows of the store, and the job that the citations must be in.
  pub record Verifier : Type 0 where
    pub rows : List (Row p)
    pub job_id : Option String

  -- What the loop over the citations ends with: a bad reference, a row that cannot be read as a
  -- node (an exception out of `get`), or the nodes that are cited.
  pub data Cited : Type 0 where
    bad_ref unreadable : Cited
    nodes : List (EvidenceNode p) → Cited

  abbrev add_node : EvidenceNode p → Cited → Cited
  add_node n (nodes ns) = nodes (n ∷ ns)
  add_node n other = other

  abbrev is_elsewhere : Option String → EvidenceNode p → Bool
  is_elsewhere none n = false
  is_elsewhere (some job) n = not (str_eq n.job_id job)

  unfoldable pub resolve : Verifier → List String → Cited
  resolve v [] = nodes []
  resolve v (ref ∷ refs) =
      let rest = resolve v refs in
      elim (get p v.rows ref) [
        | none ↦ bad_ref
        | some found ↦ elim found [
          | none ↦ unreadable
          | some n ↦ if is_elsewhere v.job_id n then bad_ref else add_node n rest
        ]
      ]

  unfoldable pub types_fit : Option (List EvidenceType) → List (EvidenceNode p) → Bool
  types_fit none ns = not (all (λ n. elem (value n.type) non_behavioural_types) ns)
  types_fit (some allowed) ns = any (λ n. any (λ t. str_eq (value t) (value n.type)) allowed) ns

  judge : Option (List EvidenceType) → Cited → Option VerifierStatus
  unfolding types_fit
  judge allowed bad_ref = some rejected_bad_ref
  judge allowed unreadable = none
  judge allowed (nodes ns) = some (if types_fit allowed ns then pass else rejected_type_mismatch)

  -- `check_claim`; `none` where reading a cited row raises.
  unfoldable pub check_claim :
      Verifier → GroundedClaim → Option (List EvidenceType) → Option VerifierStatus
  unfolding judge
  check_claim v claim allowed = elim claim.evidence_refs [
    | [] ↦ some rejected_no_evidence
    | _ ∷ _ ↦ judge allowed (resolve v claim.evidence_refs)
  ]

  -- `filter`: the passed and the rejected claims, each with its status.
  unfoldable pub filter_claims :
      Verifier
      → List GroundedClaim
      → Option (List EvidenceType)
      → Option (List GroundedClaim × List GroundedClaim)
  filter_claims v [] allowed = some ([], [])
  filter_claims v (claim ∷ claims) allowed =
      let rest = filter_claims v claims allowed in
      elim (check_claim v claim allowed) [
        | none ↦ none
        | some status ↦ elim rest [ none ↦ none | some split ↦ some (place claim status split) ]
      ]
