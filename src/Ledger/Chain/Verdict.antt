-- ===== src/Ledger/Chain/Verdict.antt =====
-- What `verify_chain` answers, against the specification of a chain.
use c_s_cool_stuff.Prelude.{
  ℕ, ◌+◌, String, ◌≡◌, ◌≢◌, ◌∙◌, inl, inr, ◌↔◌, refl, List, [], ◌∷◌, eq_iff, length, arith,
}
use c_s_cool_stuff.Ledger.Platform.{Platform}
use c_s_cool_stuff.Ledger.Row.{Row, genesis_hash, node_hash}
use c_s_cool_stuff.Ledger.Store.{LedgerStore, job_rows}
use c_s_cool_stuff.Ledger.Chain.{
  Reason, empty_chain, sequence_gap, link_mismatch, hash_mismatch, invalid_signature, raised,
  broken, intact, check_rows, check_chain, verify_chain, IsLink, IsChain,
}
use c_s_cool_stuff.Ledger.Chain.Cases.{
  Breaks, IsUnreadable, FirstBad, FirstUnreadable, chain, stops, fails, rows_case,
}

module _ (p : Platform) (pubkey : p.PublicKey) (total : ℕ) where
  check_rows-IsLink :
      (index : ℕ) (prev : String) (r : Row p) (rows : List (Row p))
      → IsLink p pubkey index prev r
      → check_rows p pubkey total index prev (r ∷ rows)
        ≡ check_rows p pubkey total (index + 1) r.node_hash rows
  unfolding check_rows
  check_rows-IsLink index prev r rows h =
      let (payload, read, same) = h.digest in
      ground (
        arith,
        h.place,
        h.link,
        h.signed,
        read,
        same,
        eq_iff r.prev_hash prev,
        eq_iff (node_hash p payload) r.node_hash,
      )

  check_rows-IsUnreadable :
      (index : ℕ) (prev : String) (r : Row p) (rows : List (Row p))
      → IsUnreadable p pubkey index prev r
      → check_rows p pubkey total index prev (r ∷ rows) ≡ raised
  unfolding check_rows
  check_rows-IsUnreadable index prev r rows h = ground (arith, eq_iff r.prev_hash prev)

  check_rows-Breaks :
      (index : ℕ) (prev : String) (r : Row p) (rows : List (Row p)) (why : Reason)
      → Breaks p pubkey index prev r why
      → check_rows p pubkey total index prev (r ∷ rows) ≡ broken total r.seq why
  unfolding check_rows
  check_rows-Breaks index prev r rows empty_chain h = elim h [ ]
  check_rows-Breaks index prev r rows sequence_gap h = ground arith
  check_rows-Breaks index prev r rows link_mismatch h = ground (arith, eq_iff r.prev_hash prev)
  check_rows-Breaks index prev r rows hash_mismatch (place, link, (payload, read, differs)) =
      ground (arith, eq_iff r.prev_hash prev, eq_iff (node_hash p payload) r.node_hash)
  check_rows-Breaks index prev r rows invalid_signature (place, link, (payload, read, same), u) =
      ground (arith, eq_iff r.prev_hash prev, eq_iff (node_hash p payload) r.node_hash)

  pub check_rows-IsChain :
      (index : ℕ) (prev : String) (rows : List (Row p))
      → IsChain p pubkey index prev rows
      → check_rows p pubkey total index prev rows ≡ intact total
  unfolding check_rows
  check_rows-IsChain index prev [] h = refl
  check_rows-IsChain index prev (r ∷ rows) h =
      check_rows-IsLink index prev r rows h.0 ∙ check_rows-IsChain (index + 1) r.node_hash rows h.1

  pub check_rows-FirstBad :
      (index : ℕ) (prev : String) (rows : List (Row p)) (seq : ℕ) (why : Reason)
      → FirstBad p pubkey index prev rows seq why
      → check_rows p pubkey total index prev rows ≡ broken total seq why
  check_rows-FirstBad index prev [] seq why h = elim h [ ]
  check_rows-FirstBad index prev (r ∷ rows) seq why (inl (b, e)) =
      rw e (check_rows-Breaks index prev r rows why b)
  check_rows-FirstBad index prev (r ∷ rows) seq why (inr (h, rest)) =
      check_rows-IsLink index prev r rows h
      ∙ check_rows-FirstBad (index + 1) r.node_hash rows seq why rest

  pub check_rows-FirstUnreadable :
      (index : ℕ) (prev : String) (rows : List (Row p))
      → FirstUnreadable p pubkey index prev rows
      → check_rows p pubkey total index prev rows ≡ raised
  check_rows-FirstUnreadable index prev [] h = elim h [ ]
  check_rows-FirstUnreadable index prev (r ∷ rows) (inl h) =
      check_rows-IsUnreadable index prev r rows h
  check_rows-FirstUnreadable index prev (r ∷ rows) (inr (h, rest)) =
      check_rows-IsLink index prev r rows h
      ∙ check_rows-FirstUnreadable (index + 1) r.node_hash rows rest

module _ (p : Platform) (s : LedgerStore p) (job : String) where
  abbrev key : p.PublicKey
  key = p.public_key s.key

  check_chain-intact :
      (rows : List (Row p)) (n : ℕ)
      → check_chain p key rows ≡ intact n
      → (rows ≢ []) × IsChain p key 0 genesis_hash rows × (n ≡ length rows)
  unfolding check_chain
  check_chain-intact [] n h = cc
  check_chain-intact (r ∷ rows) n h = elim (rows_case p key 0 genesis_hash (r ∷ rows)) [
    | chain c ↦ (
      λ e. cc,
      c,
      ground (arith, check_rows-IsChain p key (length (r ∷ rows)) 0 genesis_hash (r ∷ rows) c),
    )
    | stops u ↦
        cc (check_rows-FirstUnreadable p key (length (r ∷ rows)) 0 genesis_hash (r ∷ rows) u)
    | fails seq why b ↦
        cc (check_rows-FirstBad p key (length (r ∷ rows)) 0 genesis_hash (r ∷ rows) seq why b)
  ]

  check_chain-IsChain :
      (rows : List (Row p))
      → rows ≢ []
      → IsChain p key 0 genesis_hash rows
      → check_chain p key rows ≡ intact (length rows)
  unfolding check_chain
  check_chain-IsChain [] h c = absurd (h refl)
  check_chain-IsChain (r ∷ rows) h c = check_rows-IsChain p key _ 0 genesis_hash (r ∷ rows) c

  check_chain-broken :
      (rows : List (Row p)) (seq : ℕ) (why : Reason)
      → check_chain p key rows ≡ broken (length rows) seq why
      → FirstBad p key 0 genesis_hash rows seq why
  unfolding check_chain
  check_chain-broken [] seq why h = cc
  check_chain-broken (r ∷ rows) seq why h = elim (rows_case p key 0 genesis_hash (r ∷ rows)) [
    | chain c ↦ cc (check_rows-IsChain p key (length (r ∷ rows)) 0 genesis_hash (r ∷ rows) c)
    | stops u ↦
        cc (check_rows-FirstUnreadable p key (length (r ∷ rows)) 0 genesis_hash (r ∷ rows) u)
    | fails seq' why' b ↦
        let same =
          check_rows-FirstBad p key (length (r ∷ rows)) 0 genesis_hash (r ∷ rows) seq' why' b in
        let at : seq ≡ seq' = ground (arith, same) in
        let by : why ≡ why' = ground (arith, same) in rw (at, by) b
  ]

  check_chain-FirstBad :
      (rows : List (Row p)) (seq : ℕ) (why : Reason)
      → FirstBad p key 0 genesis_hash rows seq why
      → check_chain p key rows ≡ broken (length rows) seq why
  unfolding check_chain
  check_chain-FirstBad [] seq why h = elim h [ ]
  check_chain-FirstBad (r ∷ rows) seq why h =
      check_rows-FirstBad p key _ 0 genesis_hash (r ∷ rows) seq why h

  check_chain-raised :
      (rows : List (Row p))
      → check_chain p key rows ≡ raised
      → FirstUnreadable p key 0 genesis_hash rows
  unfolding check_chain
  check_chain-raised [] h = cc
  check_chain-raised (r ∷ rows) h = elim (rows_case p key 0 genesis_hash (r ∷ rows)) [
    | chain c ↦ cc (check_rows-IsChain p key (length (r ∷ rows)) 0 genesis_hash (r ∷ rows) c)
    | stops u ↦ u
    | fails seq why b ↦
        cc (check_rows-FirstBad p key (length (r ∷ rows)) 0 genesis_hash (r ∷ rows) seq why b)
  ]

  check_chain-FirstUnreadable :
      (rows : List (Row p))
      → FirstUnreadable p key 0 genesis_hash rows
      → check_chain p key rows ≡ raised
  unfolding check_chain
  check_chain-FirstUnreadable [] h = elim h [ ]
  check_chain-FirstUnreadable (r ∷ rows) h =
      check_rows-FirstUnreadable p key _ 0 genesis_hash (r ∷ rows) h

-- `verify_chain` reports an intact chain of `n` nodes exactly when the job has rows, each is in its
-- place, linked, unchanged and signed, and there are `n` of them.
pub verify_chain-intact :
    (p : Platform) (s : LedgerStore p) (job : String) (n : ℕ)
    → (verify_chain p s job ≡ intact n) ↔ (
        (job_rows p s.rows job ≢ [])
        × IsChain p (p.public_key s.key) 0 genesis_hash (job_rows p s.rows job)
        × (n ≡ length (job_rows p s.rows job)))
unfolding verify_chain
verify_chain-intact p s job n = (
  check_chain-intact p s job (job_rows p s.rows job) n,
  λ h. rw (h.2) (check_chain-IsChain p s job (job_rows p s.rows job) h.0 h.1),
)

-- It blames the number `seq` for the reason `why` exactly when the rows before the blamed one are
-- good links of the chain and that one, whose number is `seq`, fails the check that `why` names and
-- no check before it.
pub verify_chain_blames :
    (p : Platform) (s : LedgerStore p) (job : String) (seq : ℕ) (why : Reason)
    → (verify_chain p s job ≡ broken (length (job_rows p s.rows job)) seq why)
      ↔ FirstBad p (p.public_key s.key) 0 genesis_hash (job_rows p s.rows job) seq why
unfolding verify_chain
verify_chain_blames p s job seq why = (
  check_chain-broken p s job (job_rows p s.rows job) seq why,
  check_chain-FirstBad p s job (job_rows p s.rows job) seq why,
)

-- `verify_chain` raises, and blames no row, exactly when some row is in its place and linked but a stored
-- column of it is no JSON, and the rows before it are good links of the chain.
pub verify_chain_raises :
    (p : Platform) (s : LedgerStore p) (job : String)
    → (verify_chain p s job ≡ raised)
      ↔ FirstUnreadable p (p.public_key s.key) 0 genesis_hash (job_rows p s.rows job)
unfolding verify_chain
verify_chain_raises p s job = (
  check_chain-raised p s job (job_rows p s.rows job),
  check_chain-FirstUnreadable p s job (job_rows p s.rows job),
)
