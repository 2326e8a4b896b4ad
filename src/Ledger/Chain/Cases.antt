-- ===== src/Ledger/Chain/Cases.antt =====
-- The ways in which the rows of a job can fail the checks of `verify_chain`.
use c_s_cool_stuff.Prelude.{
  ℕ, ◌+◌, String, ◌≡◌, ◌≢◌, ◌⊎◌, inl, inr, refl, false, none, some, List, [], ◌∷◌, ◌==◌, str_eq,
  eq_iff, ==_iff, arith, Option-cases, Bool-cases,
}
use c_s_cool_stuff.Json.{Fields}
use c_s_cool_stuff.Ledger.Platform.{Platform}
use c_s_cool_stuff.Ledger.Row.{Row, node_hash, hash_payload}
use c_s_cool_stuff.Ledger.Chain.{
  Reason, empty_chain, sequence_gap, link_mismatch, hash_mismatch, invalid_signature, IsLink,
  IsChain,
}

module _ (p : Platform) (pubkey : p.PublicKey) where
  open p use {verify}

  -- How the row at a place of the chain fails, in the order of the checks.
  abbrev pub Breaks : ℕ → String → Row p → Reason → Type 0
  Breaks index prev r sequence_gap = r.seq ≢ index
  Breaks index prev r link_mismatch = (r.seq ≡ index) × (r.prev_hash ≢ prev)
  Breaks index prev r hash_mismatch =
      (r.seq ≡ index)
      × (r.prev_hash ≡ prev)
      × ((payload : Fields p.Float) × (hash_payload p r ≡ some payload)
          × (node_hash p payload ≢ r.node_hash))
  Breaks index prev r invalid_signature =
      (r.seq ≡ index)
      × (r.prev_hash ≡ prev)
      × ((payload : Fields p.Float) × (hash_payload p r ≡ some payload)
          × (node_hash p payload ≡ r.node_hash))
      × (verify pubkey r.node_hash r.signature ≡ false)
  Breaks index prev r empty_chain = ⊥

  -- The row is in its place and linked, and a column of it is no JSON.
  abbrev pub IsUnreadable : ℕ → String → Row p → Type 0
  IsUnreadable index prev r = (r.seq ≡ index) × (r.prev_hash ≡ prev) × (hash_payload p r ≡ none)

  data RowCase (index : ℕ) (prev : String) (r : Row p) : Type 0 where
    good : IsLink p pubkey index prev r → RowCase index prev r
    unreadable : IsUnreadable index prev r → RowCase index prev r
    bad : (why : Reason) → Breaks index prev r why → RowCase index prev r

  readable_case :
      (index : ℕ) (prev : String) (r : Row p) (payload : Fields p.Float)
      → r.seq ≡ index
      → r.prev_hash ≡ prev
      → hash_payload p r ≡ some payload
      → RowCase index prev r
  readable_case index prev r payload place link read =
      elim (Bool-cases (str_eq (node_hash p payload) r.node_hash)) [
        | inr differs ↦
            bad hash_mismatch (
              place,
              link,
              (payload, read, ground (arith, eq_iff (node_hash p payload) r.node_hash)),
            )
        | inl equal ↦
            let same = (eq_iff (node_hash p payload) r.node_hash).0 equal in
            elim (Bool-cases (verify pubkey r.node_hash r.signature)) [
              | inl signed ↦ good (record {
                place = place;
                link = link;
                digest = (payload, read, same);
                signed = signed;
              })
              | inr unsigned ↦ bad invalid_signature (place, link, (payload, read, same), unsigned)
            ]
      ]

  row_case : (index : ℕ) (prev : String) (r : Row p) → RowCase index prev r
  row_case index prev r = elim (Bool-cases (r.seq == index)) [
    | inr gap ↦ bad sequence_gap (ground arith)
    | inl there ↦
        let place = (==_iff r.seq index).0 there in
        elim (Bool-cases (str_eq r.prev_hash prev)) [
          | inr cut ↦ bad link_mismatch (place, ground (arith, eq_iff r.prev_hash prev))
          | inl linked ↦
              let link = (eq_iff r.prev_hash prev).0 linked in
              elim (Option-cases (hash_payload p r)) [
                | inl lost ↦ unreadable (place, link, lost)
                | inr (payload, read) ↦ readable_case index prev r payload place link read
              ]
        ]
  ]

  -- The rows before the first bad one are links, and it fails as `why` says at the number `seq`.
  abbrev pub FirstBad : ℕ → String → List (Row p) → ℕ → Reason → Type 0
  FirstBad index prev [] seq why = ⊥
  FirstBad index prev (r ∷ rows) seq why =
      (Breaks index prev r why × (seq ≡ r.seq))
      ⊎ (IsLink p pubkey index prev r × FirstBad (index + 1) r.node_hash rows seq why)

  -- Some row is a link of the chain's place and cannot be read, and the rows before it are links.
  abbrev pub FirstUnreadable : ℕ → String → List (Row p) → Type 0
  FirstUnreadable index prev [] = ⊥
  FirstUnreadable index prev (r ∷ rows) =
      IsUnreadable index prev r
      ⊎ (IsLink p pubkey index prev r × FirstUnreadable (index + 1) r.node_hash rows)

  -- The three ways a list of rows can be.
  pub data RowsCase (index : ℕ) (prev : String) (rows : List (Row p)) : Type 0 where
    chain : IsChain p pubkey index prev rows → RowsCase index prev rows
    stops : FirstUnreadable index prev rows → RowsCase index prev rows
    fails : (seq : ℕ) (why : Reason) → FirstBad index prev rows seq why → RowsCase index prev rows

  extend_case :
      (index : ℕ) (prev : String) (r : Row p) (rows : List (Row p))
      → IsLink p pubkey index prev r
      → RowsCase (index + 1) r.node_hash rows
      → RowsCase index prev (r ∷ rows)
  extend_case index prev r rows h (chain c) = chain (h, c)
  extend_case index prev r rows h (stops u) = stops (inr (h, u))
  extend_case index prev r rows h (fails seq why b) = fails seq why (inr (h, b))

  first_case :
      (index : ℕ) (prev : String) (r : Row p) (rows : List (Row p))
      → RowCase index prev r
      → RowsCase (index + 1) r.node_hash rows
      → RowsCase index prev (r ∷ rows)
  first_case index prev r rows (good h) rest = extend_case index prev r rows h rest
  first_case index prev r rows (unreadable u) rest = stops (inl u)
  first_case index prev r rows (bad why b) rest = fails r.seq why (inl (b, refl))

  pub rows_case : (index : ℕ) (prev : String) (rows : List (Row p)) → RowsCase index prev rows
  rows_case index prev [] = chain tt
  rows_case index prev (r ∷ rows) =
      first_case index prev r rows (row_case index prev r) (rows_case (index + 1) r.node_hash rows)
