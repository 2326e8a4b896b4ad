-- ===== src/Ledger/Row.antt =====
-- The rows of the table `evidence` of drishti/ledger/store.py and the nodes they stand for, with
-- `canonical_json` and `node_hash` of drishti/ledger/crypto.py.
use c_s_cool_stuff.Prelude.{ℕ, pos, String, Option, none, some, List, [], ◌∷◌, elem, if◌then◌else◌}
use c_s_cool_stuff.Json.{
  Json, null, int, float, str, obj, Items, nil, cons, Fields, end, field, normalise,
}
use c_s_cool_stuff.Ledger.Evidence.{EvidenceType, of_value}
use c_s_cool_stuff.Ledger.Platform.{Platform, round_float}

-- 64 zeros
abbrev pub genesis_hash : String
genesis_hash = "0000000000000000000000000000000000000000000000000000000000000000"

-- `items` of a Python list of texts, as JSON
unfoldable pub texts : {F : Type 0} → List String → Items F
texts [] = nil
texts (s ∷ ss) = cons (str s) (texts ss)

-- `_UNHASHED_FIELDS`
abbrev unhashed_fields : List String
unhashed_fields = "node_hash" ∷ "signature" ∷ []

unfoldable pub drop_unhashed : {F : Type 0} → Fields F → Fields F
drop_unhashed end = end
drop_unhashed (field k v fs) =
    let rest = drop_unhashed fs in if elem k unhashed_fields then rest else field k v rest

module _ (p : Platform) where
  open p use {Float, Text, dumps, loads, sha256}

  -- A row of the table `evidence`.
  pub record Row : Type 0 where
    pub id : String
    pub job_id : String
    pub seq : ℕ
    pub type : String
    pub source_tool : String
    pub content : Text
    pub location : Option String
    pub confidence : Float
    pub parents : Text
    pub timestamp : String
    pub prev_hash : String
    pub node_hash : String
    pub signature : String

  pub record EvidenceNode : Type 0 where
    pub id : String
    pub job_id : String
    pub seq : ℕ
    pub type : EvidenceType
    pub source_tool : String
    pub content : Json Float
    pub location : Option String
    pub confidence : Float
    pub parents : Json Float
    pub timestamp : String
    pub prev_hash : String
    pub node_hash : String
    pub signature : String

  unfoldable pub canonical_json : Json Float → Text
  canonical_json j = dumps (normalise (round_float p) j)

  unfoldable pub node_hash : Fields Float → String
  unfolding canonical_json drop_unhashed
  node_hash node = sha256 (canonical_json (obj (drop_unhashed node)))

  abbrev pub optional : Option String → Json Float
  optional none = null
  optional (some s) = str s

  -- `unsigned` in `append`, and the dictionary that `_hash_payload` rebuilds
  unfoldable pub payload :
      String
      → String
      → ℕ
      → String
      → String
      → Json Float
      → Option String
      → Float
      → Json Float
      → String
      → String
      → Fields Float
  payload id job_id seq type source_tool content location confidence parents timestamp prev_hash =
      field "id" (str id) (
        field "job_id" (str job_id) (
          field "seq" (int (pos seq)) (
            field "type" (str type) (
              field "source_tool" (str source_tool) (
                field "content" content (
                  field "location" (optional location) (
                    field "confidence" (float confidence) (
                      field "parents" parents (
                        field "timestamp" (str timestamp)
                          (field "prev_hash" (str prev_hash) end))))))))))

  -- `_hash_payload`; `none` where `json.loads` raises.
  unfoldable pub hash_payload : Row → Option (Fields Float)
  hash_payload r = elim (loads r.content) [
    | none ↦ none
    | some content ↦ elim (loads r.parents) [
      | none ↦ none
      | some parents ↦ some (
          payload r.id r.job_id r.seq r.type r.source_tool content r.location r.confidence parents
            r.timestamp r.prev_hash)
    ]
  ]

  -- `_to_node`; `none` where `json.loads` or `EvidenceType(...)` raises.
  unfoldable pub to_node : Row → Option EvidenceNode
  to_node r = elim (of_value r.type) [
    | none ↦ none
    | some type ↦ elim (loads r.content) [
      | none ↦ none
      | some content ↦ elim (loads r.parents) [
        | none ↦ none
        | some parents ↦ some (record {
          id = r.id;
          job_id = r.job_id;
          seq = r.seq;
          type = type;
          source_tool = r.source_tool;
          content = content;
          location = r.location;
          confidence = r.confidence;
          parents = parents;
          timestamp = r.timestamp;
          prev_hash = r.prev_hash;
          node_hash = r.node_hash;
          signature = r.signature;
        })
      ]
    ]
  ]
