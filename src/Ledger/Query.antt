-- ===== src/Ledger/Query.antt =====
-- `query` and `export` of drishti/ledger/store.py, and the job that a read is about.
use c_s_cool_stuff.Prelude.{
  ℕ, String, Option, none, some, List, [], ◌∷◌, Bool, true, ◌&&◌, leb, str_eq, keep_if,
  if◌then◌else◌,
}
use c_s_cool_stuff.Ledger.Evidence.{EvidenceType, value}
use c_s_cool_stuff.Ledger.Platform.{Platform}
use c_s_cool_stuff.Ledger.Row.{Row, EvidenceNode, to_node}
use c_s_cool_stuff.Ledger.Store.{Result, ok, LedgerStore, require_job, job_rows}

-- An optional condition of the WHERE clause.
abbrev pub allows : Option String → String → Bool
allows none s = true
allows (some t) s = str_eq s t

module _ (p : Platform) where
  -- `job_id or self._require_job()`: an empty text is passed over too.
  unfoldable pub resolve_job : LedgerStore p → Option String → Result p.Float String
  resolve_job s none = require_job p s
  resolve_job s (some job) = if str_eq job "" then require_job p s else ok job

  abbrev selected : Option EvidenceType → Option String → ℕ → Row p → Bool
  selected type tool since r =
      leb since r.seq
      && allows (elim type [ none ↦ none | some t ↦ some (value t) ]) r.type
      && allows tool r.source_tool

  -- `[self._to_node(r) for r in rows]`; `none` where one of them raises.
  unfoldable pub to_nodes : List (Row p) → Option (List (EvidenceNode p))
  to_nodes [] = some []
  to_nodes (r ∷ rows) =
      let rest = to_nodes rows in
      elim (to_node p r) [
        | none ↦ none
        | some node ↦ elim rest [ none ↦ none | some nodes ↦ some (node ∷ nodes) ]
      ]

  -- The rows that `query` selects, in the order of their `seq`.
  unfoldable pub query_rows :
      List (Row p) → String → Option EvidenceType → Option String → ℕ → List (Row p)
  query_rows rows job type tool since = keep_if (selected type tool since) (job_rows p rows job)

  unfoldable pub query :
      List (Row p)
      → String
      → Option EvidenceType
      → Option String
      → ℕ
      → Option (List (EvidenceNode p))
  unfolding query_rows to_nodes
  query rows job type tool since = to_nodes (query_rows rows job type tool since)
