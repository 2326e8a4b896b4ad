-- ===== src/Ledger/Lookup.antt =====
-- `get` of drishti/ledger/store.py reads back what `append` has stored.
use c_s_cool_stuff.Prelude.{
  String, ◌≡◌, refl, sym, subst, ap, false, ◌∙◌, some, List, [], ◌∷◌, ◌++◌, any, str_eq, eq_iff,
  arith,
}
use c_s_cool_stuff.Json.{Json, obj, arr, normalise}
use c_s_cool_stuff.Json.Keys.{DistinctKeys}
use c_s_cool_stuff.Ledger.Evidence.{EvidenceType, of_value, of_value-value}
use c_s_cool_stuff.Ledger.Platform.{Platform, IsLawful, round_float}
use c_s_cool_stuff.Ledger.Row.{Row, EvidenceNode, to_node, texts, canonical_json}
unfoldable use c_s_cool_stuff.Ledger.Row.{to_node, canonical_json}
use c_s_cool_stuff.Ledger.Store.{LedgerStore, Request, ok, append, get, new_row, is_duplicate}
unfoldable use c_s_cool_stuff.Ledger.Store.{append, get, new_row, is_duplicate}
use c_s_cool_stuff.Ledger.Chain.Growth.{DistinctKeys-texts}
use c_s_cool_stuff.Ledger.Chain.History.{append-Accepted}

module _ (p : Platform) where
  get-snoc :
      (rows : List (Row p)) (r : Row p)
      → any (λ x. str_eq x.id r.id) rows ≡ false
      → get p (rows ++ r ∷ []) r.id ≡ some (to_node p r)
  unfolding get
  get-snoc [] r h = ground (arith, (eq_iff r.id r.id).1 refl)
  get-snoc (x ∷ rows) r h = ground (arith, get-snoc rows r)

  new-unseen :
      (rows : List (Row p)) (r : Row p)
      → is_duplicate p rows r ≡ false
      → any (λ x. str_eq x.id r.id) rows ≡ false
  unfolding is_duplicate
  new-unseen rows r h = ground arith

  -- The node that `append` returns, as JSON keeps it: its content and parents in canonical form.
  abbrev pub canonical : EvidenceNode p → EvidenceNode p
  canonical n = record n {
    content = normalise (round_float p) n.content;
    parents = normalise (round_float p) n.parents;
  }

  -- The node that `append` returns for the open job.
  abbrev made : LedgerStore p → String → Request p → EvidenceNode p
  made s job r =
      let row = new_row p s job r in
      record {
        id = row.id;
        job_id = row.job_id;
        seq = row.seq;
        type = r.type;
        source_tool = row.source_tool;
        content = obj r.content;
        location = row.location;
        confidence = row.confidence;
        parents = arr (texts r.parents);
        timestamp = row.timestamp;
        prev_hash = row.prev_hash;
        node_hash = row.node_hash;
        signature = row.signature;
      }

  append-made :
      (s : LedgerStore p) (r : Request p) (s' : LedgerStore p) (node : EvidenceNode p)
      (job : String)
      → append p s r ≡ ok (s', node)
      → s.job ≡ some job
      → node ≡ made s job r
  unfolding append
  append-made s r s' node job h e = ground arith

  read_back : Row p → EvidenceType → Json p.Float → Json p.Float → EvidenceNode p
  read_back row type content parents = record {
    id = row.id;
    job_id = row.job_id;
    seq = row.seq;
    type = type;
    source_tool = row.source_tool;
    content = content;
    location = row.location;
    confidence = row.confidence;
    parents = parents;
    timestamp = row.timestamp;
    prev_hash = row.prev_hash;
    node_hash = row.node_hash;
    signature = row.signature;
  }

  to_node-read_back :
      (row : Row p) (type : EvidenceType) (content parents : Json p.Float)
      → of_value row.type ≡ some type
      → p.loads row.content ≡ some content
      → p.loads row.parents ≡ some parents
      → to_node p row ≡ some (read_back row type content parents)
  unfolding to_node read_back
  to_node-read_back row type content parents e f g = ground arith

  to_node-new_row :
      IsLawful p
      → (s : LedgerStore p) (job : String) (r : Request p) → DistinctKeys (obj r.content)
      → to_node p (new_row p s job r) ≡ some (canonical (made s job r))
  unfolding new_row canonical_json read_back
  to_node-new_row lawful s job r distinct =
      to_node-read_back (new_row p s job r) r.type (normalise (round_float p) (obj r.content))
        (normalise (round_float p) (arr (texts r.parents))) (of_value-value r.type)
        (lawful.loads-dumps (obj r.content) distinct)
        (lawful.loads-dumps (arr (texts r.parents)) (DistinctKeys-texts p lawful r.parents))

  -- On a platform that keeps its laws, the node that an accepted `append` returned for a dictionary is
  -- what `get` finds under its id afterwards, with its content and parents in canonical form.
  pub get-append :
      IsLawful p
      → (s : LedgerStore p) (r : Request p) (s' : LedgerStore p) (node : EvidenceNode p)
      → append p s r ≡ ok (s', node)
      → DistinctKeys (obj r.content)
      → get p s'.rows node.id ≡ some (some (canonical node))
  get-append lawful s r s' node h distinct =
      let a = append-Accepted p s r s' node h in
      let row = new_row p s a.job r in
      let found = get-snoc s.rows row (new-unseen s.rows row a.is_new) in
      let made_here = append-made s r s' node a.job h a.is_open in
      let stored = ap (λ t. t.rows) a.stored in
      subst (λ n. get p s'.rows n.id ≡ some (some (canonical n))) (sym made_here)
        (subst (λ rows. get p rows row.id ≡ some (some (canonical (made s a.job r)))) (sym stored)
          (found ∙ ap some (to_node-new_row lawful s a.job r distinct)))
