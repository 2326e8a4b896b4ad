-- ===== src/Ledger/Grounding.antt =====
-- `append` of drishti/ledger/store.py stores nothing that cites what is not in the job.
use c_s_cool_stuff.Prelude.{
  String, ◌≡◌, ◌≢◌, refl, true, false, inl, inr, ◌↔◌, some, List, [], ◌∷◌, eq_iff, arith, All, Any,
  Option-cases, Bool-cases,
}
use c_s_cool_stuff.Json.{Json, str, arr, obj, nil, cons, Fields, end, field, get_field}
use c_s_cool_stuff.Ledger.Evidence.{needs_grounding}
use c_s_cool_stuff.Ledger.Platform.{Platform}
use c_s_cool_stuff.Ledger.Row.{Row, EvidenceNode}
use c_s_cool_stuff.Ledger.Store.{
  LedgerStore, Request, Result, ok, err, append, exists, ref_exists, iterate, is_falsy,
  assert_parents_exist, assert_refs_exist, assert_claim_is_grounded,
}
use c_s_cool_stuff.Ledger.Chain.History.{append-Accepted}

module _ (p : Platform) (rows : List (Row p)) (job : String) where
  -- Some row of the job has the id.
  abbrev pub Holds : String → Type 0
  Holds id = Any (λ r. (r.job_id ≡ job) × (r.id ≡ id)) rows

module _ (p : Platform) where
  exists_iff :
      (rows : List (Row p)) (job id : String) → (exists p rows job id ≡ true) ↔ Holds p rows job id
  unfolding exists
  exists_iff [] job id = (λ h. cc, λ h. elim h [ ])
  exists_iff (r ∷ rows) job id =
      ground (arith, exists_iff rows job id, eq_iff r.job_id job, eq_iff r.id id)

  -- A reference is the id of a row of the job.
  abbrev pub Cites : List (Row p) → String → Json p.Float → Type 0
  Cites rows job ref = (id : String) × (ref ≡ str id) × Holds p rows job id

  ref_exists-Cites :
      (rows : List (Row p)) (job : String) (ref : Json p.Float)
      → ref_exists p rows job ref ≡ true
      → Cites rows job ref
  unfolding ref_exists
  ref_exists-Cites rows job (str id) h = (id, refl, (exists_iff rows job id).0 h)
  ref_exists-Cites rows job _ h = cc

  assert_parents_exist-All :
      (rows : List (Row p)) (job : String) (refs : List String)
      → assert_parents_exist p rows job refs ≡ ok tt
      → All (Holds p rows job) refs
  unfolding assert_parents_exist
  assert_parents_exist-All rows job [] h = tt
  assert_parents_exist-All rows job (ref ∷ refs) h = elim (Bool-cases (exists p rows job ref)) [
    | inl there ↦
        ((exists_iff rows job ref).0 there, assert_parents_exist-All rows job refs (ground arith))
    | inr missing ↦ ground arith
  ]

  assert_refs_exist-All :
      (rows : List (Row p)) (job : String) (refs : List (Json p.Float))
      → assert_refs_exist p rows job refs ≡ ok tt
      → All (Cites rows job) refs
  unfolding assert_refs_exist
  assert_refs_exist-All rows job [] h = tt
  assert_refs_exist-All rows job (ref ∷ refs) h = elim (Bool-cases (ref_exists p rows job ref)) [
    | inl there ↦
        (ref_exists-Cites rows job ref there, assert_refs_exist-All rows job refs (ground arith))
    | inr missing ↦ ground arith
  ]

  -- What Python iterates over is not empty unless the value is falsy.
  iterate_truthy :
      (j : Json p.Float) (each : List (Json p.Float))
      → is_falsy p.is_zero j ≡ false
      → iterate j ≡ ok each
      → each ≢ []
  unfolding iterate
  iterate_truthy (arr nil) each f h = cc
  iterate_truthy (arr (cons x xs)) each f h = λ e. cc
  iterate_truthy (obj end) each f h = cc
  iterate_truthy (obj (field k v fs)) each f h = λ e. cc
  iterate_truthy (str String.[]) each f h = cc
  iterate_truthy (str (String.◌∷◌ c s)) each f h = λ e. cc
  iterate_truthy _ each f h = cc

  -- The claim cites something, and all that it cites is in the job.
  pub record Grounding (rows : List (Row p)) (job : String) (content : Fields p.Float)
      : Type 0 where
    pub refs : Json p.Float
    pub each : List (Json p.Float)
    pub cited : get_field "evidence_refs" content ≡ some refs
    pub listed : iterate refs ≡ ok each
    pub some_ref : each ≢ []
    pub all_exist : All (Cites rows job) each

  assert_claim_is_grounded-Grounding :
      (rows : List (Row p)) (job : String) (content : Fields p.Float)
      → assert_claim_is_grounded p rows job content ≡ ok tt
      → Grounding rows job content
  unfolding assert_claim_is_grounded
  assert_claim_is_grounded-Grounding rows job content h =
      elim (Option-cases (get_field "evidence_refs" content)) [
        | inl e ↦ ground arith
        | inr (refs, e) ↦ elim (Bool-cases (is_falsy p.is_zero refs)) [
          | inl f ↦ ground arith
          | inr f ↦ go refs e f (iterate refs) refl
        ]
      ]
    where
      go :
          (refs : Json p.Float)
          → get_field "evidence_refs" content ≡ some refs
          → is_falsy p.is_zero refs ≡ false
          → (m : Result p.Float (List (Json p.Float))) → iterate refs ≡ m
          → Grounding rows job content
      go refs e f (err w) i = ground arith
      go refs e f (ok each) i = record {
        refs = refs;
        each = each;
        cited = e;
        listed = i;
        some_ref = iterate_truthy refs each f i;
        all_exist = assert_refs_exist-All rows job each (ground arith);
      }

-- An accepted `append` was made for the open job, every parent of the new node is the id of a row
-- already in that job, and if the node is an AI claim then its `evidence_refs` list something, and
-- each thing listed is the id of a row already in that job.
pub append-Grounding :
    (p : Platform) (s : LedgerStore p) (r : Request p) (s' : LedgerStore p) (node : EvidenceNode p)
    → append p s r ≡ ok (s', node)
    → (job : String) × (s.job ≡ some job)
      × All (Holds p s.rows job) r.parents
      × (needs_grounding r.type ≡ true → Grounding p s.rows job r.content)
append-Grounding p s r s' node h =
    let a = append-Accepted p s r s' node h in
    (
      a.job,
      a.is_open,
      assert_parents_exist-All p s.rows a.job r.parents a.parents_exist,
      λ claim. assert_claim_is_grounded-Grounding p s.rows a.job r.content (a.grounded claim),
    )
