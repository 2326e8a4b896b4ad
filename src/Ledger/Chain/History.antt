-- ===== src/Ledger/Chain/History.antt =====
-- Chains over the whole life of a store: whatever is appended, to whichever jobs, every chain
-- verifies.
use c_s_cool_stuff.Prelude.{
  String, ◌≡◌, refl, ◌∙◌, sym, ap, subst, true, false, ◌⊎◌, inl, inr, none, some, List, [], ◌∷◌,
  ◌++◌, str_eq, eq_iff, length, arith, All, Option-cases, Bool-cases, List-cases,
}
use c_s_cool_stuff.Json.{obj}
use c_s_cool_stuff.Json.Keys.{DistinctKeys}
use c_s_cool_stuff.Ledger.Evidence.{needs_grounding}
use c_s_cool_stuff.Ledger.Platform.{Platform, IsLawful}
use c_s_cool_stuff.Ledger.Row.{Row, EvidenceNode, genesis_hash}
use c_s_cool_stuff.Ledger.Store.{
  LedgerStore, Request, Result, ok, err, job_rows, order_by_seq, new_row, append, is_duplicate,
  open_job, assert_parents_exist, assert_claim_is_grounded,
}
use c_s_cool_stuff.Ledger.Chain.{intact, verify_chain, IsChain}
use c_s_cool_stuff.Ledger.Chain.Verdict.{verify_chain-intact}
use c_s_cool_stuff.Ledger.Chain.Order.{job_rows-append, job_rows-append_ne}
use c_s_cool_stuff.Ledger.Chain.Growth.{IsChain-append, IsChain-below, IsLink-at, new_row-IsLink}

module _ (p : Platform) where
  -- What an accepted `append` has checked, and what it has stored.
  pub record Accepted (s : LedgerStore p) (r : Request p) (s' : LedgerStore p) : Type 0 where
    pub job : String
    pub is_open : s.job ≡ some job
    pub parents_exist : assert_parents_exist p s.rows job r.parents ≡ ok tt
    pub grounded :
        needs_grounding r.type ≡ true → assert_claim_is_grounded p s.rows job r.content ≡ ok tt
    pub is_new : is_duplicate p s.rows (new_row p s job r) ≡ false
    pub stored : s' ≡ record s { rows = s.rows ++ new_row p s job r ∷ [] }

  pub append-Accepted :
      (s : LedgerStore p) (r : Request p) (s' : LedgerStore p) (node : EvidenceNode p)
      → append p s r ≡ ok (s', node)
      → Accepted s r s'
  unfolding append
  append-Accepted s r s' node h = elim (Option-cases s.job) [
    | inl e ↦ ground arith
    | inr (job, e) ↦ record {
      job = job;
      is_open = e;
      parents_exist = ground arith;
      grounded = λ g. ground arith;
      is_new = ground arith;
      stored = ground arith;
    }
  ]

  abbrev pub AllChains : LedgerStore p → Type 0
  AllChains s =
      (job : String) → IsChain p (p.public_key s.key) 0 genesis_hash (job_rows p s.rows job)

  new_row-job :
      (s : LedgerStore p) (job : String) (r : Request p) → (new_row p s job r).job_id ≡ job
  unfolding new_row
  new_row-job s job r = refl

  -- The calls of one user of the store.
  pub data Call : Type 0 where
    opens : String → Call
    appends : Request p → Call

  abbrev kept : LedgerStore p → Result p.Float (LedgerStore p × EvidenceNode p) → LedgerStore p
  kept s (ok (s', node)) = s'
  kept s (err e) = s

  -- A call that raises has been rolled back.
  unfoldable pub step : LedgerStore p → Call → LedgerStore p
  step s (opens job) = open_job p s job
  step s (appends r) = kept s (append p s r)

  unfoldable pub run : LedgerStore p → List Call → LedgerStore p
  run s [] = s
  run s (c ∷ cs) = run (step s c) cs

  -- The content of every appended node is a Python dictionary.
  abbrev pub IsDictionary : Call → Type 0
  IsDictionary (opens job) = Unit
  IsDictionary (appends r) = DistinctKeys (obj r.content)

module _ (p : Platform) (lawful : IsLawful p) where
  -- An accepted `append` adds one row to the end of the open job's chain, and no row to another's.
  pub job_rows-Accepted :
      (s : LedgerStore p) (r : Request p) (s' : LedgerStore p) (a : Accepted p s r s')
      → DistinctKeys (obj r.content)
      → AllChains p s
      → job_rows p s'.rows a.job ≡ job_rows p s.rows a.job ++ new_row p s a.job r ∷ []
  job_rows-Accepted s r s' a distinct chains =
      let row = new_row p s a.job r in
      let linked = new_row-IsLink p lawful s a.job r distinct (chains a.job) in
      ap (λ t. job_rows p t.rows a.job) a.stored
      ∙ job_rows-append p s.rows row a.job ((eq_iff _ _).1 (new_row-job p s a.job r)) (
          IsChain-below p (p.public_key s.key) 0 genesis_hash (job_rows p s.rows a.job) row.seq
            (chains a.job) (omega (arith, linked.place)))

  IsChain-eq :
      (s' s : LedgerStore p) (rows' rows : List (Row p))
      → s'.key ≡ s.key
      → rows' ≡ rows
      → IsChain p (p.public_key s.key) 0 genesis_hash rows
      → IsChain p (p.public_key s'.key) 0 genesis_hash rows'
  IsChain-eq s' s rows' rows e f h =
      subst (λ k. IsChain p (p.public_key k) 0 genesis_hash rows') (sym e)
        (subst (IsChain p (p.public_key s.key) 0 genesis_hash) (sym f) h)

  pub Accepted-AllChains :
      (s : LedgerStore p) (r : Request p) (s' : LedgerStore p)
      → Accepted p s r s'
      → DistinctKeys (obj r.content)
      → AllChains p s
      → AllChains p s'
  Accepted-AllChains s r s' a distinct chains job = elim (Bool-cases (str_eq a.job job)) [
    | inl here ↦
        let row = new_row p s a.job r in
        subst (λ j. IsChain p (p.public_key s'.key) 0 genesis_hash (job_rows p s'.rows j))
          ((eq_iff a.job job).0 here)
          (IsChain-eq s' s _ _ (ap (λ t. t.key) a.stored)
            (job_rows-Accepted s r s' a distinct chains)
            (IsChain-append p (p.public_key s.key) 0 genesis_hash (job_rows p s.rows a.job) row
              (chains a.job)
              (IsLink-at p (p.public_key s.key) _ row (omega arith)
                (new_row-IsLink p lawful s a.job r distinct (chains a.job)))))
    | inr other ↦
        IsChain-eq s' s _ _ (ap (λ t. t.key) a.stored)
          (ap (λ t. job_rows p t.rows job) a.stored
            ∙ job_rows-append_ne p s.rows (new_row p s a.job r) job
                (rw (new_row-job p s a.job r) other))
          (chains job)
  ]

  step-AllChains :
      (s : LedgerStore p) (c : Call p) → IsDictionary p c → AllChains p s → AllChains p (step p s c)
  unfolding step open_job
  step-AllChains s (opens job) d chains = chains
  step-AllChains s (appends r) d chains = kept-AllChains (append p s r) refl
    where
      kept-AllChains :
          (m : Result p.Float (LedgerStore p × EvidenceNode p))
          → append p s r ≡ m
          → AllChains p (kept p s m)
      kept-AllChains (ok (s', node)) e =
          Accepted-AllChains s r s' (append-Accepted p s r s' node e) d chains
      kept-AllChains (err w) e = chains

  run-AllChains :
      (s : LedgerStore p) (cs : List (Call p))
      → All (IsDictionary p) cs
      → AllChains p s
      → AllChains p (run p s cs)
  unfolding run
  run-AllChains s [] d chains = chains
  run-AllChains s (c ∷ cs) d chains =
      run-AllChains (step p s c) cs d.1 (step-AllChains s c d.0 chains)

-- A chain that is linked verifies, if it has a row.
pub AllChains-verify_chain :
    (p : Platform) (s : LedgerStore p)
    → AllChains p s
    → (job : String)
    → (job_rows p s.rows job ≡ [])
      ⊎ (verify_chain p s job ≡ intact (length (job_rows p s.rows job)))
AllChains-verify_chain p s chains job = elim (List-cases (job_rows p s.rows job)) [
  | inl none_yet ↦ inl none_yet
  | inr (r, rest, e) ↦ inr (
      (verify_chain-intact p s job (length (job_rows p s.rows job))).1
        (λ empty. cc, chains job, refl))
]

-- On a platform that keeps its laws, from an empty table and after any calls of `open` and `append`
-- in any order, refused ones included, whose contents are dictionaries: every job that has rows
-- verifies as an intact chain of all its rows.
pub run-verify_chain :
    (p : Platform)
    → IsLawful p
    → (key : p.PrivateKey) (cs : List (Call p)) → All (IsDictionary p) cs
    → (job : String)
    → let s = run p (record { rows = []; key = key; job = none }) cs in
      (job_rows p s.rows job ≡ [])
      ⊎ (verify_chain p s job ≡ intact (length (job_rows p s.rows job)))
run-verify_chain p lawful key cs d job =
    let empty : LedgerStore p = record { rows = []; key = key; job = none } in
    AllChains-verify_chain p (run p empty cs)
      (run-AllChains p lawful empty cs d (unfold job_rows order_by_seq in λ j. tt)) job
