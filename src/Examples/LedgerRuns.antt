-- ===== src/Examples/LedgerRuns.antt =====
-- Runs of the ledger of drishti/ledger.
use c_s_cool_stuff.Prelude.{
  ℕ, String, true, Option, none, some, List, [], ◌∷◌, ◌≡◌, ◌↔◌, refl, ◌≢◌, ◌↔◌, ◌⊎◌, inl, All,
  length,
}
use c_s_cool_stuff.Json.{
  Json, null, str, arr, obj, nil, cons, end, field, get_field, normalise, insert_field,
}
unfoldable use c_s_cool_stuff.Json.{get_field, normalise, insert_field}
use c_s_cool_stuff.Json.Keys.{DistinctKeys}
unfoldable use c_s_cool_stuff.Json.Keys.{DistinctKeys}
use c_s_cool_stuff.Ledger.Evidence.{of_value, value, file_meta, ai_claim, needs_grounding}
use c_s_cool_stuff.Ledger.Row.{Row, EvidenceNode, genesis_hash}
use c_s_cool_stuff.Ledger.Store.{LedgerStore, Request, ok, append, job_rows}
unfoldable use c_s_cool_stuff.Prelude.{str_leb}
unfoldable use c_s_cool_stuff.Ledger.Platform.{round_float}
unfoldable use c_s_cool_stuff.Ledger.Evidence.{value, of_value, needs_grounding}
unfoldable use c_s_cool_stuff.Ledger.Row.{
  canonical_json, node_hash, payload, drop_unhashed, texts, hash_payload, to_node,
}
unfoldable use c_s_cool_stuff.Ledger.Store.{
  append, job_rows, order_by_seq, insert_by_seq, exists, assert_parents_exist,
  assert_claim_is_grounded, assert_refs_exist, ref_exists, new_row, next_link, is_duplicate, insert,
  require_job, iterate, get,
}
unfoldable use c_s_cool_stuff.Ledger.Verifier.{filter_claims, check_claim, resolve, types_fit}
use c_s_cool_stuff.Ledger.Chain.{Reason, intact, broken, raised, verify_chain, IsChain}
use c_s_cool_stuff.Ledger.Chain.Cases.{FirstBad}
use c_s_cool_stuff.Ledger.Chain.Cases.{FirstUnreadable}
use c_s_cool_stuff.Ledger.Chain.Verdict.{
  verify_chain-intact, verify_chain_blames, verify_chain_raises,
}
use c_s_cool_stuff.Ledger.Chain.History.{Call, opens, appends, run, run-verify_chain}
use c_s_cool_stuff.Ledger.Store.{get}
use c_s_cool_stuff.Ledger.Lookup.{canonical, get-append}
use c_s_cool_stuff.Ledger.Grounding.{Holds, Grounding, append-Grounding}
use c_s_cool_stuff.Ledger.Verifier.{
  GroundedClaim, Verifier, pass, rejected_no_evidence, check_claim, filter_claims,
}
use c_s_cool_stuff.Ledger.Verifier.Laws.{Resolves, Supports, check_claim_pass}
use c_s_cool_stuff.Examples.Flat.{flat, flat-IsLawful}

abbrev facts : Request flat
facts = record {
  type = file_meta;
  source_tool = "m1";
  content = field "sha256" (str "ab") end;
  location = none;
  confidence = 1;
  parents = [];
  node_id = "ev_1";
  timestamp = "t";
}

abbrev claim : Request flat
claim = record {
  type = ai_claim;
  source_tool = "m4";
  content = field "evidence_refs" (arr (cons (str "ev_1") nil)) end;
  location = none;
  confidence = 1;
  parents = "ev_1" ∷ [];
  node_id = "ev_2";
  timestamp = "t";
}

abbrev calls : List (Call flat)
calls = opens "job" ∷ appends facts ∷ appends claim ∷ []

abbrev empty_store : LedgerStore flat
empty_store = record { rows = []; key = tt; job = none }

abbrev row_of : String → ℕ → String → String → Option (Json ℕ) → Option (Json ℕ) → String → Row flat
row_of id seq type tool content parents prev = record {
  id = id;
  job_id = "job";
  seq = seq;
  type = type;
  source_tool = tool;
  content = content;
  location = none;
  confidence = 1;
  parents = parents;
  timestamp = "t";
  prev_hash = prev;
  node_hash = id;
  signature = id;
}

abbrev cited : Json ℕ
cited = arr (cons (str "ev_1") nil)

abbrev first_row : Row flat
first_row =
    row_of "ev_1" 0 "file_meta" "m1" (some (obj (field "sha256" (str "ab") end))) (some (arr nil))
      genesis_hash

abbrev second_row : Row flat
second_row =
    row_of "ev_2" 1 "ai_claim" "m4" (some (obj (field "evidence_refs" cited end))) (some cited)
      "ev_1"

-- A row whose number was changed, and one whose content is no JSON.
abbrev gap_row : Row flat
gap_row = row_of "ev_2" 5 "ai_claim" "m4" (some null) (some cited) "ev_1"

abbrev broken_row : Row flat
broken_row = row_of "ev_1" 0 "file_meta" "m1" none (some (arr nil)) genesis_hash

abbrev store_of : List (Row flat) → LedgerStore flat
store_of rows = record { rows = rows; key = tt; job = some "job" }

abbrev claim_node : EvidenceNode flat
claim_node = record {
  id = "ev_2";
  job_id = "job";
  seq = 1;
  type = ai_claim;
  source_tool = "m4";
  content = obj (field "evidence_refs" cited end);
  location = none;
  confidence = 1;
  parents = cited;
  timestamp = "t";
  prev_hash = "ev_1";
  node_hash = "ev_2";
  signature = "ev_2";
}

run-verify_chain_example :
    let s = run flat empty_store calls in
    (job_rows flat s.rows "job" ≡ [])
    ⊎ (verify_chain flat s "job" ≡ intact (length (job_rows flat s.rows "job")))
unfolding DistinctKeys
run-verify_chain_example =
    run-verify_chain flat flat-IsLawful tt calls (tt, (facts_distinct, (claim_distinct, tt))) "job"
  where
    facts_distinct : DistinctKeys (obj facts.content)
    facts_distinct = (tt, tt, tt)

    claim_distinct : DistinctKeys (obj claim.content)
    claim_distinct = (tt, (tt, tt), tt)

verify_chain-intact_example :
    let s = store_of (first_row ∷ second_row ∷ []) in
    (verify_chain flat s "job" ≡ intact 2) ↔ (
      (job_rows flat s.rows "job" ≢ [])
      × IsChain flat tt 0 genesis_hash (job_rows flat s.rows "job")
      × (2 ≡ length (job_rows flat s.rows "job")))
verify_chain-intact_example =
    verify_chain-intact flat (store_of (first_row ∷ second_row ∷ [])) "job" 2

verify_chain_blames_example :
    let s = store_of (first_row ∷ gap_row ∷ []) in
    (verify_chain flat s "job" ≡ broken (length (job_rows flat s.rows "job")) 5 Reason.sequence_gap)
    ↔ FirstBad flat tt 0 genesis_hash (job_rows flat s.rows "job") 5 Reason.sequence_gap
verify_chain_blames_example =
    verify_chain_blames flat (store_of (first_row ∷ gap_row ∷ [])) "job" 5 Reason.sequence_gap

verify_chain_raises_example :
    (verify_chain flat (store_of (broken_row ∷ second_row ∷ [])) "job" ≡ raised)
    ↔ FirstUnreadable flat
        (flat.public_key (store_of (broken_row ∷ second_row ∷ [])).key)
        0
        genesis_hash
        (job_rows flat (broken_row ∷ second_row ∷ []) "job")
verify_chain_raises_example =
    verify_chain_raises flat (store_of (broken_row ∷ second_row ∷ [])) "job"

-- A column of the first row is no JSON.
chain_raised : verify_chain flat (store_of (broken_row ∷ second_row ∷ [])) "job" ≡ raised
unfolding job_rows order_by_seq insert_by_seq hash_payload
chain_raised =
    (verify_chain_raises flat (store_of (broken_row ∷ second_row ∷ [])) "job").1
      (inl (refl, refl, refl))

append-claim :
    append flat (store_of (first_row ∷ [])) claim
    ≡ ok (store_of (first_row ∷ second_row ∷ []), claim_node)
unfolding append get_field normalise insert_field canonical_json node_hash payload drop_unhashed
    texts value order_by_seq insert_by_seq job_rows exists assert_parents_exist
    assert_claim_is_grounded assert_refs_exist ref_exists needs_grounding new_row next_link
    is_duplicate insert require_job iterate round_float str_leb
append-claim = refl

append-Grounding_example :
    (job : String) × (some "job" ≡ some job)
    × All (Holds flat (first_row ∷ []) job) ("ev_1" ∷ [])
    × (needs_grounding ai_claim ≡ true
        → Grounding flat (first_row ∷ []) job (field "evidence_refs" cited end))
append-Grounding_example =
    append-Grounding flat (store_of (first_row ∷ [])) claim (store_of (first_row ∷ second_row ∷ []))
      claim_node append-claim

abbrev verifier : Verifier flat
verifier = record { rows = first_row ∷ second_row ∷ []; job_id = some "job" }

abbrev grounded : GroundedClaim
grounded = record {
  text = "reads SMS";
  evidence_refs = "ev_2" ∷ [];
  agent = "a";
  verifier_status = rejected_no_evidence;
}

abbrev ungrounded : GroundedClaim
ungrounded = record grounded { evidence_refs = [] }

check_claim_pass_example : (check_claim flat verifier grounded none ≡ some pass) ↔ (
    (grounded.evidence_refs ≢ [])
    × ((ns : List (EvidenceNode flat)) × Resolves flat verifier ("ev_2" ∷ []) ns
        × Supports flat verifier none ns))
check_claim_pass_example = check_claim_pass flat verifier grounded none

filtered :
    filter_claims flat verifier (grounded ∷ ungrounded ∷ []) none
    ≡ some (record grounded { verifier_status = pass } ∷ [], ungrounded ∷ [])
unfolding filter_claims check_claim resolve get to_node types_fit value of_value
filtered = refl

get-append_example :
    get flat (first_row ∷ second_row ∷ []) "ev_2" ≡ some (some (canonical flat claim_node))
unfolding DistinctKeys
get-append_example =
    get-append flat flat-IsLawful (store_of (first_row ∷ [])) claim
      (store_of (first_row ∷ second_row ∷ [])) claim_node append-claim claim_distinct
  where
    claim_distinct : DistinctKeys (obj claim.content)
    claim_distinct = (tt, (tt, tt), tt)
