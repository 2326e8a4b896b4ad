-- ===== src/Ledger/Chain/Growth.antt =====
-- `append` adds one link to the chain of the open job and touches no other chain.
use c_s_cool_stuff.Prelude.{
  ℕ, pos, ◌+◌, ◌≤◌, String, ◌≡◌, refl, ap₂, subst, ◌∙◌, Option, some, List, [], ◌∷◌, ◌++◌, length,
  arith, All,
}
use c_s_cool_stuff.Json.{Json, str, int, float, end, arr, obj, normalise, insert_field}
use c_s_cool_stuff.Json.Keys.{DistinctKeys}
use c_s_cool_stuff.Json.Canonical.{normalise-normalise}
use c_s_cool_stuff.Ledger.Platform.{Platform, IsLawful, round_float, round_float_twice}
use c_s_cool_stuff.Ledger.Row.{
  Row, genesis_hash, texts, canonical_json, node_hash, payload, hash_payload, optional,
}
use c_s_cool_stuff.Ledger.Store.{LedgerStore, Request, job_rows, next_link, new_row}
use c_s_cool_stuff.Ledger.Chain.{IsLink, IsChain}

module _ (p : Platform) where
  -- The hash that the next row must link to.
  abbrev pub end_hash : String → List (Row p) → String
  end_hash prev [] = prev
  end_hash prev (r ∷ rows) = end_hash r.node_hash rows

module _ (p : Platform) (pubkey : p.PublicKey) where
  next_link-IsChain :
      (index : ℕ) (prev : String) (r : Row p) (rows : List (Row p))
      → IsChain p pubkey index prev (r ∷ rows)
      → next_link p (r ∷ rows) ≡ (index + length (r ∷ rows), end_hash p prev (r ∷ rows))
  unfolding next_link
  next_link-IsChain index prev r [] h = ground (arith, h.0.place)
  next_link-IsChain index prev r (s ∷ rows) h =
      next_link-IsChain (index + 1) r.node_hash s rows h.1 ∙ ground arith

  pub IsLink-at :
      {i j : ℕ} (prev : String) (r : Row p)
      → i ≡ j
      → IsLink p pubkey i prev r
      → IsLink p pubkey j prev r
  IsLink-at prev r e l = subst (λ i. IsLink p pubkey i prev r) e l

  pub IsChain-append :
      (index : ℕ) (prev : String) (rows : List (Row p)) (r : Row p)
      → IsChain p pubkey index prev rows
      → IsLink p pubkey (index + length rows) (end_hash p prev rows) r
      → IsChain p pubkey index prev (rows ++ r ∷ [])
  IsChain-append index prev [] r h l = (IsLink-at prev r (omega arith) l, tt)
  IsChain-append index prev (x ∷ rows) r h l = (
    h.0,
    IsChain-append (index + 1) x.node_hash rows r h.1
        (IsLink-at (end_hash p prev (x ∷ rows)) r (omega arith) l),
  )

  pub IsChain-below :
      (index : ℕ) (prev : String) (rows : List (Row p)) (n : ℕ)
      → IsChain p pubkey index prev rows
      → index + length rows ≤ n
      → All (λ x. x.seq ≤ n) rows
  IsChain-below index prev [] n h b = tt
  IsChain-below index prev (r ∷ rows) n h b =
      (omega (arith, h.0.place), IsChain-below (index + 1) r.node_hash rows n h.1 (omega arith))

  next_link_chain :
      (rows : List (Row p))
      → IsChain p pubkey 0 genesis_hash rows
      → next_link p rows ≡ (length rows, end_hash p genesis_hash rows)
  unfolding next_link
  next_link_chain [] h = refl
  next_link_chain (r ∷ rows) h = next_link-IsChain 0 genesis_hash r rows h ∙ ground arith

module _ (p : Platform) (lawful : IsLawful p) where
  abbrev canonical : Json p.Float → Json p.Float
  canonical j = normalise (round_float p) j

  canonical_twice : (j : Json p.Float) → canonical (canonical j) ≡ canonical j
  canonical_twice = normalise-normalise (round_float p) (round_float_twice p lawful)

  pub DistinctKeys-texts : (refs : List String) → DistinctKeys {F = p.Float} (arr (texts refs))
  unfolding DistinctKeys texts
  DistinctKeys-texts [] = tt
  DistinctKeys-texts (s ∷ refs) = (tt, DistinctKeys-texts refs)

  -- The digest does not depend on whether `content` and `parents` were canonicalised before.
  node_hash-payload :
      (id job : String) (seq : ℕ) (type tool : String) (content : Json p.Float)
      (location : Option String) (confidence : p.Float) (parents : Json p.Float) (at prev : String)
      → node_hash p (
          payload p id job seq type tool
            (canonical content)
            location
            confidence
            (canonical parents)
            at
            prev)
        ≡ node_hash p (payload p id job seq type tool content location confidence parents at prev)
  unfolding node_hash payload normalise
  node_hash-payload id job seq type tool content location confidence parents at prev =
      let digest_of : Json p.Float → Json p.Float → String = λ c q. p.sha256 (
        p.dumps (
          obj (
            insert_field "id" (str id) (
              insert_field "job_id" (str job) (
                insert_field "seq" (int (pos seq)) (
                  insert_field "type" (str type) (
                    insert_field "source_tool" (str tool) (
                      insert_field "content" c (
                        insert_field "location" (canonical (optional p location)) (
                          insert_field "confidence" (float (round_float p confidence)) (
                            insert_field "parents" q (
                              insert_field "timestamp" (str at)
                                (insert_field "prev_hash" (str prev) end))))))))))))) in
      ap₂ digest_of (canonical_twice content) (canonical_twice parents)

  loads_canonical :
      (j : Json p.Float) → DistinctKeys j → p.loads (canonical_json p j) ≡ some (canonical j)
  unfolding canonical_json
  loads_canonical j d = lawful.loads-dumps j d

  hash_payload-read :
      (r : Row p) (c q : Json p.Float)
      → p.loads r.content ≡ some c
      → p.loads r.parents ≡ some q
      → hash_payload p r
        ≡ some (
            payload p r.id r.job_id r.seq r.type r.source_tool c r.location r.confidence q
              r.timestamp r.prev_hash)
  unfolding hash_payload
  hash_payload-read r c q e f = ground arith

  -- The row that `append` builds is the next link.
  pub new_row-IsLink :
      (s : LedgerStore p) (job : String) (r : Request p)
      → DistinctKeys (obj r.content)
      → IsChain p (p.public_key s.key) 0 genesis_hash (job_rows p s.rows job)
      → IsLink p
          (p.public_key s.key)
          (length (job_rows p s.rows job))
          (end_hash p genesis_hash (job_rows p s.rows job))
          (new_row p s job r)
  unfolding new_row
  new_row-IsLink s job r distinct h =
      rw (next_link_chain p (p.public_key s.key) (job_rows p s.rows job) h) (record {
        place = refl;
        link = refl;
        digest = (
          _,
          hash_payload-read _ (canonical (obj r.content)) (canonical (arr (texts r.parents)))
              (loads_canonical (obj r.content) distinct)
              (loads_canonical (arr (texts r.parents)) (DistinctKeys-texts r.parents)),
          node_hash-payload _ _ _ _ _ (obj r.content) _ _ (arr (texts r.parents)) _ _,
        );
        signed = lawful.verify-sign s.key _;
      })
