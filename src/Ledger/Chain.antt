-- ===== src/Ledger/Chain.antt =====
-- `verify_chain` of drishti/ledger/store.py, and the chain that it is meant to accept.
pub mod Cases
pub mod Verdict
mod Order
pub mod Growth
pub mod History
use c_s_cool_stuff.Prelude.{
  ℕ, suc, ◌+◌, String, ◌≡◌, Bool, true, false, Option, none, some, List, [], ◌∷◌, ◌==◌, str_eq,
  length, if◌then◌else◌,
}
use c_s_cool_stuff.Json.{Fields}
use c_s_cool_stuff.Ledger.Platform.{Platform}
use c_s_cool_stuff.Ledger.Row.{Row, genesis_hash, node_hash, hash_payload}
use c_s_cool_stuff.Ledger.Store.{LedgerStore, job_rows}

pub data Reason : Type 0 where
  empty_chain sequence_gap link_mismatch hash_mismatch invalid_signature : Reason

pub record ChainVerification : Type 0 where
  pub is_ok : Bool
  pub node_count : ℕ
  pub first_bad_seq : Option ℕ
  pub reason : Option Reason

-- `json.loads` of a stored column may raise out of `verify_chain`.
pub data Outcome : Type 0 where
  raised : Outcome
  returned : ChainVerification → Outcome

abbrev pub broken : ℕ → ℕ → Reason → Outcome
broken total seq why =
    returned
      (record { is_ok = false; node_count = total; first_bad_seq = some seq; reason = some why })

abbrev pub intact : ℕ → Outcome
intact total =
    returned (record { is_ok = true; node_count = total; first_bad_seq = none; reason = none })

module _ (p : Platform) where
  open p use {PublicKey, public_key, verify}

  -- The loop over `enumerate(rows)`, with `index` and `expected_prev`.
  unfoldable pub check_rows : PublicKey → ℕ → ℕ → String → List (Row p) → Outcome
  check_rows pubkey total index expected_prev [] = intact total
  check_rows pubkey total index expected_prev (r ∷ rows) =
      let rest = check_rows pubkey total (index + 1) r.node_hash rows in
      if r.seq == index
      then (if str_eq r.prev_hash expected_prev
          then elim (hash_payload p r) [
            | none ↦ raised
            | some payload ↦
                if str_eq (node_hash p payload) r.node_hash
                then (if verify pubkey r.node_hash r.signature
                    then rest
                    else broken total r.seq invalid_signature)
                else broken total r.seq hash_mismatch
          ]
          else broken total r.seq link_mismatch)
      else broken total r.seq sequence_gap

  abbrev empty_verdict : Outcome
  empty_verdict =
      returned
        (record { is_ok = false; node_count = 0; first_bad_seq = none; reason = some empty_chain })

  unfoldable pub check_chain : PublicKey → List (Row p) → Outcome
  check_chain pubkey [] = empty_verdict
  check_chain pubkey (r ∷ rows) = check_rows pubkey (length (r ∷ rows)) 0 genesis_hash (r ∷ rows)

  unfoldable pub verify_chain : LedgerStore p → String → Outcome
  unfolding check_chain
  verify_chain s job = check_chain (public_key s.key) (job_rows p s.rows job)

  -- The specification: row after row, the place, the link, the digest and the signature are right.
  pub record IsLink (pubkey : PublicKey) (index : ℕ) (prev : String) (r : Row p) : Type 0 where
    pub place : r.seq ≡ index
    pub link : r.prev_hash ≡ prev
    pub digest :
        (payload : Fields p.Float) × (hash_payload p r ≡ some payload)
        × (node_hash p payload ≡ r.node_hash)
    pub signed : verify pubkey r.node_hash r.signature ≡ true

  abbrev pub IsChain : PublicKey → ℕ → String → List (Row p) → Type 0
  IsChain pubkey index prev [] = Unit
  IsChain pubkey index prev (r ∷ rows) =
      IsLink pubkey index prev r × IsChain pubkey (index + 1) r.node_hash rows
