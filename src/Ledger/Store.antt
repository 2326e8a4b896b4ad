-- ===== src/Ledger/Store.antt =====
-- drishti/ledger/store.py: one SQLite table of evidence, many jobs. A statement that fails rolls its
-- transaction back, so a refused `append` returns the store it was given. Waiting for SQLite's lock
-- is not modelled.
use c_s_cool_stuff.Prelude.{
  ℕ, zero, ◌+◌, pos, String, Bool, true, false, not, ◌&&◌, ◌||◌, Option, none, some, List, [], ◌∷◌,
  ◌++◌, leb, ◌==◌, str_eq, length, keep_if, any, if◌then◌else◌,
}
use c_s_cool_stuff.Json.{
  Json, null, bool, int, float, str, arr, obj, Items, nil, cons, Fields, end, field, get_field,
}
use c_s_cool_stuff.Ledger.Evidence.{EvidenceType, value, needs_grounding}
use c_s_cool_stuff.Ledger.Platform.{Platform}
use c_s_cool_stuff.Ledger.Row.{
  Row, EvidenceNode, genesis_hash, texts, canonical_json, node_hash, payload, to_node,
}

pub data LedgerError (F : Type 0) : Type 0 where
  no_job : LedgerError F
  missing_parent : String → LedgerError F
  -- The claim cites nothing, or cites a node that is not in the job.
  cites_nothing : LedgerError F
  cites_missing : Json F → LedgerError F
  -- `evidence_refs` is a number or `True`, which Python cannot iterate over.
  not_iterable : LedgerError F
  -- UNIQUE(job_id, seq) or the primary key.
  integrity : LedgerError F

pub data Result {ℓ} (F : Type 0) (A : Type ℓ) : Type ℓ where
  ok : A → Result F A
  err : LedgerError F → Result F A

infixl 5 ◌>>=◌ ◌>>◌
abbrev pub ◌>>=◌ {ℓ κ} :
    {F : Type 0} {A : Type ℓ} {B : Type κ} → Result F A → (A → Result F B) → Result F B
ok a >>= f = f a
err e >>= f = err e

abbrev pub ◌>>◌ {ℓ} : {F : Type 0} {B : Type ℓ} → Result F (Unit {0}) → Result F B → Result F B
m >> k = m >>= λ _. k

-- A JSON value that Python's `or` passes over.
abbrev pub is_falsy : {F : Type 0} → (F → Bool) → Json F → Bool
is_falsy is_zero null = true
is_falsy is_zero (bool b) = not b
is_falsy is_zero (int (pos zero)) = true
is_falsy is_zero (float x) = is_zero x
is_falsy is_zero (str String.[]) = true
is_falsy is_zero (arr nil) = true
is_falsy is_zero (obj end) = true
is_falsy is_zero _ = false

pub items : {F : Type 0} → Items F → List (Json F)
items nil = []
items (cons x xs) = x ∷ items xs

pub keys : {F : Type 0} → Fields F → List (Json F)
keys end = []
keys (field k v fs) = str k ∷ keys fs

pub characters : {F : Type 0} → String → List (Json F)
characters String.[] = []
characters (String.◌∷◌ c s) = str (String.◌∷◌ c String.[]) ∷ characters s

-- `for ref in refs`
unfoldable pub iterate : {F : Type 0} → Json F → Result F (List (Json F))
unfolding items keys characters
iterate (arr xs) = ok (items xs)
iterate (obj fs) = ok (keys fs)
iterate (str s) = ok (characters s)
iterate _ = err not_iterable

module _ (p : Platform) where
  open p use {Float, is_zero, Text, PrivateKey, sign}

  -- The rows in order of insertion, the signing key, and the job that `open` chose.
  pub record LedgerStore : Type 0 where
    pub rows : List (Row p)
    pub key : PrivateKey
    pub job : Option String

  -- The arguments of `append`, with what `new_id` and `now` return.
  pub record Request : Type 0 where
    pub type : EvidenceType
    pub source_tool : String
    pub content : Fields Float
    pub location : Option String
    pub confidence : Float
    pub parents : List String
    pub node_id : String
    pub timestamp : String

  abbrev in_job : String → Row p → Bool
  in_job job r = str_eq r.job_id job

  -- One step of `ORDER BY seq`.
  unfoldable pub insert_by_seq : Row p → List (Row p) → List (Row p)
  insert_by_seq r [] = r ∷ []
  insert_by_seq r (x ∷ xs) = if leb r.seq x.seq then r ∷ x ∷ xs else x ∷ insert_by_seq r xs

  unfoldable pub order_by_seq : List (Row p) → List (Row p)
  order_by_seq [] = []
  order_by_seq (r ∷ rs) = insert_by_seq r (order_by_seq rs)

  -- `SELECT * FROM evidence WHERE job_id = ? ORDER BY seq`
  unfoldable pub job_rows : List (Row p) → String → List (Row p)
  job_rows rows job = order_by_seq (keep_if (in_job job) rows)

  -- `_exists`
  unfoldable pub exists : List (Row p) → String → String → Bool
  exists rows job id = any (λ r. str_eq r.job_id job && str_eq r.id id) rows

  -- `_require_job`
  unfoldable pub require_job : LedgerStore → Result Float String
  require_job s = elim s.job [ none ↦ err no_job | some job ↦ ok job ]

  -- `_assert_parents_exist`
  unfoldable pub assert_parents_exist :
      List (Row p) → String → List String → Result Float (Unit {0})
  assert_parents_exist rows job [] = ok tt
  assert_parents_exist rows job (ref ∷ refs) =
      let rest = assert_parents_exist rows job refs in
      if exists rows job ref then rest else err (missing_parent ref)

  -- A reference of the claim. Only a text can be the id of a node.
  unfoldable pub ref_exists : List (Row p) → String → Json Float → Bool
  ref_exists rows job (str id) = exists rows job id
  ref_exists rows job _ = false

  unfoldable pub assert_refs_exist :
      List (Row p) → String → List (Json Float) → Result Float (Unit {0})
  assert_refs_exist rows job [] = ok tt
  assert_refs_exist rows job (ref ∷ refs) =
      let rest = assert_refs_exist rows job refs in
      if ref_exists rows job ref then rest else err (cites_missing ref)

  -- `_assert_claim_is_grounded`
  unfoldable pub assert_claim_is_grounded :
      List (Row p) → String → Fields Float → Result Float (Unit {0})
  unfolding iterate
  assert_claim_is_grounded rows job content = elim (get_field "evidence_refs" content) [
    | none ↦ err cites_nothing
    | some refs ↦
        if is_falsy is_zero refs
        then err cites_nothing
        else do each ← iterate refs; assert_refs_exist rows job each
  ]

  -- `SELECT seq, node_hash ... ORDER BY seq DESC LIMIT 1`, and the next `seq` and `prev_hash`.
  unfoldable pub next_link : List (Row p) → ℕ × String
  next_link [] = (0, genesis_hash)
  next_link (r ∷ []) = (r.seq + 1, r.node_hash)
  next_link (r ∷ s ∷ rows) = next_link (s ∷ rows)

  -- The row that `append` inserts.
  unfoldable pub new_row : LedgerStore → String → Request → Row p
  new_row s job r =
      let (seq, prev_hash) = next_link (job_rows s.rows job) in
      let parents : Json Float = arr (texts r.parents) in
      let digest = node_hash p (
        payload p r.node_id job seq (value r.type) r.source_tool (obj r.content) r.location
          r.confidence parents r.timestamp prev_hash) in
      record {
        id = r.node_id;
        job_id = job;
        seq = seq;
        type = value r.type;
        source_tool = r.source_tool;
        content = canonical_json p (obj r.content);
        location = r.location;
        confidence = r.confidence;
        parents = canonical_json p parents;
        timestamp = r.timestamp;
        prev_hash = prev_hash;
        node_hash = digest;
        signature = sign s.key digest;
      }

  -- The constraints of the table: PRIMARY KEY (id) and UNIQUE (job_id, seq).
  unfoldable pub is_duplicate : List (Row p) → Row p → Bool
  is_duplicate rows r =
      any (λ x. str_eq x.id r.id) rows || any (λ x. str_eq x.job_id r.job_id && x.seq == r.seq) rows

  -- `INSERT INTO evidence`
  unfoldable pub insert : LedgerStore → Row p → Result Float LedgerStore
  insert s r =
      if is_duplicate s.rows r then err integrity else ok (record s { rows = s.rows ++ r ∷ [] })

  -- `append`: the store after COMMIT, and the node that is returned.
  unfoldable pub append : LedgerStore → Request → Result Float (LedgerStore × EvidenceNode p)
  unfolding require_job insert new_row
  append s r = do
    job ← require_job s
    assert_parents_exist s.rows job r.parents
    if needs_grounding r.type then assert_claim_is_grounded s.rows job r.content else ok tt
    let row = new_row s job r
    s' ← insert s row
    ok (
      s',
      record {
        id = row.id;
        job_id = row.job_id;
        seq = row.seq;
        type = r.type;
        source_tool = row.source_tool;
        content = obj r.content;
        location = row.location;
        confidence = row.confidence;
        parents = arr (texts r.parents);
        timestamp = row.timestamp;
        prev_hash = row.prev_hash;
        node_hash = row.node_hash;
        signature = row.signature;
      },
    )

  -- `open`
  unfoldable pub open_job : LedgerStore → String → LedgerStore
  open_job s job = record s { job = some job }

  -- `get`; the inner `none` is a row that cannot be read as a node.
  unfoldable pub get : List (Row p) → String → Option (Option (EvidenceNode p))
  get [] id = none
  get (r ∷ rows) id = if str_eq r.id id then some (to_node p r) else get rows id

  -- `count`
  unfoldable pub count : List (Row p) → String → ℕ
  count rows job = length (keep_if (in_job job) rows)
