-- ===== src/C2Bundle.antt =====
-- drishti/m3_dynamic/c2_bundle.py and drishti/contracts/c2_bundle.py: the responses that are staged for the
-- second pass. Parameters: the filter `_looks_like_beacon`, the hints of `derive_hints`, what the model
-- proposes (`none` where asking it or reading its answer raises), the ledger's answer, JSON text and `str.lower`. Times and the client's name are left out.
pub mod Grounded
pub mod Answers
use c_s_cool_stuff.Prelude.{
  ℕ, zero, suc, ◌+◌, ℤ, pos, negsuc, Bool, true, false, not, ◌&&◌, ◌||◌, Option, none, some, List,
  [], ◌∷◌, ◌++◌, all, leb, ltb, ◌==◌, length, Codes, codes, same, is_in, starts_with, is_digit,
  if◌then◌else◌,
}
use c_s_cool_stuff.GenerativeC2.{Value, C2ResponseKind, C2SchemaHint}
use c_s_cool_stuff.GenerativeC2.Response.{Proposed, Served, synthesise_response}

-- What the builder reads of a `CapturedFlow`
pub record CapturedFlow : Type 0 where
  pub scheme : Codes
  pub host : Codes
  pub path : Codes

pub record C2BundleEntry : Type 0 where
  pub host : Codes
  pub path_prefix : Codes
  pub response_kind : C2ResponseKind
  pub served_body : Codes
  pub is_payload_url : Bool
  pub derived_from : List Codes

pub record C2Bundle : Type 0 where
  pub sha256 : Codes
  pub entries : List C2BundleEntry

-- A schema hint with the evidence that it rests on.
pub record GroundedHint : Type 0 where
  pub hint : C2SchemaHint
  pub evidence_refs : List Codes

-- What `_record` does: there is no ledger, it has a new node, or it raises.
pub data Recording : Type 0 where
  no_ledger failed : Recording
  node : Codes → Recording

abbrev at_most : ℤ → ℤ → ℤ
at_most (pos a) (pos b) = if leb a b then pos a else pos b
at_most (pos a) (negsuc b) = negsuc b
at_most (negsuc a) (pos b) = negsuc a
at_most (negsuc a) (negsuc b) = if leb a b then negsuc b else negsuc a

abbrev not_negative : ℤ → ℕ
not_negative (pos n) = n
not_negative (negsuc n) = 0

-- `_job_call_budget(max_calls)`, where `ceiling` is the configured one, or 25 where there is none
unfoldable pub job_call_budget : ℤ → Option ℤ → ℕ
job_call_budget ceiling none = not_negative ceiling
job_call_budget ceiling (some max_calls) = not_negative (at_most max_calls ceiling)

abbrev is_hex : ℕ → Bool
is_hex c = is_digit c || (leb b'a' c && leb c b'f')

-- `_SHA256_RE.fullmatch(s)`
unfoldable pub is_sha256 : Codes → Bool
is_sha256 s = (length s == 64) && all is_hex s

abbrev zeros : ℕ → Codes
zeros zero = []
zeros (suc n) = b'0' ∷ zeros n

-- `_REDACTION_MARKER`
abbrev redaction_marker : Codes
redaction_marker = codes "[REDACTED:"

-- `path.split(_REDACTION_MARKER, 1)[0]`
unfoldable pub before_marker : Codes → Codes
before_marker [] = []
before_marker (c ∷ s) =
    let rest = before_marker s in if starts_with redaction_marker (c ∷ s) then [] else c ∷ rest

abbrev or_root : Codes → Codes
or_root [] = codes "/"
or_root (c ∷ s) = c ∷ s

-- `_clean_path_prefix`
unfoldable pub clean_path_prefix : Codes → Codes
unfolding before_marker
clean_path_prefix path = or_root (before_marker path)

abbrev is_stub : C2ResponseKind → Bool
is_stub C2ResponseKind.inert_payload_stub = true
is_stub _ = false

abbrev pub hosts_of : List CapturedFlow → List Codes
hosts_of [] = []
hosts_of (f ∷ fs) = f.host ∷ hosts_of fs

-- `by_host`, after the flows in `seen`: the first flow of each beacon's host, in their order.
unfoldable pub by_host : (Codes → Codes → Bool) → List Codes → List CapturedFlow → List CapturedFlow
by_host looks_like_beacon seen [] = []
by_host looks_like_beacon seen (f ∷ fs) =
    let others = by_host looks_like_beacon seen fs in
    let rest = by_host looks_like_beacon (f.host ∷ seen) fs in
    let url = f.scheme ++ (codes "://" ++ (f.host ++ f.path)) in
    if looks_like_beacon url f.host && not (is_in f.host seen) then f ∷ rest else others

-- `response.evidence_refs`, or `none` where recording raises
abbrev pub refs_after : Recording → List Codes → Option (List Codes)
refs_after no_ledger refs = some refs
refs_after failed refs = none
refs_after (node id) refs = some (id ∷ refs)

abbrev pub with_entry : Option C2BundleEntry → List C2BundleEntry → List C2BundleEntry
with_entry none entries = entries
with_entry (some e) entries = e ∷ entries

abbrev pub with_evidence : GroundedHint → List Codes → Option GroundedHint
with_evidence h [] = none
with_evidence h (ref ∷ refs) = some h

-- A hint without evidence is passed over as none is.
abbrev pub grounds : Option GroundedHint → Option GroundedHint
grounds none = none
grounds (some h) = with_evidence h h.evidence_refs

module _ (lower : Codes → Codes) {F W : Type 0} (dumps : Value F → Codes)
    (ask : CapturedFlow → GroundedHint → W → Option Proposed × W)
    (record_node : CapturedFlow → Served F → W → Recording × W) where
  abbrev pub response_of : GroundedHint → Proposed → Served F
  response_of h proposed = synthesise_response lower (λ v. length (dumps v)) h.hint proposed

  -- The entry that is checked for its grounds. `provably_inert` is true of every response, and its kind is
  -- one of `C2ResponseKind`.
  abbrev pub entry_of : CapturedFlow → Served F → Option (List Codes) → Option C2BundleEntry
  entry_of flow response none = none
  entry_of flow response (some []) = none
  entry_of flow response (some (ref ∷ refs)) = some (record {
    host = flow.host;
    path_prefix = clean_path_prefix flow.path;
    response_kind = response.kind;
    served_body = dumps response.body;
    is_payload_url = is_stub response.kind;
    derived_from = ref ∷ refs;
  })

  -- What becomes of the proposal. Where none came the handler gives up the host's entry, and nothing is
  -- recorded.
  unfoldable pub staged :
      CapturedFlow → GroundedHint → Option Proposed → W → Option C2BundleEntry × W
  staged flow h none w = (none, w)
  staged flow h (some proposed) w =
      let response = response_of h proposed in
      let (recorded, w₁) = record_node flow response w in
      (entry_of flow response (refs_after recorded h.evidence_refs), w₁)

  -- `_entry_for`
  unfoldable pub entry_for : CapturedFlow → GroundedHint → W → Option C2BundleEntry × W
  unfolding staged
  entry_for flow h w = let (proposed, w₁) = ask flow h w in staged flow h proposed w₁

  -- A turn of the loop for a host, with `budget` calls left: `others` is what the loop goes on with
  abbrev pub turn :
      CapturedFlow
      → Option GroundedHint
      → ℕ
      → (ℕ → W → List C2BundleEntry × W)
      → W
      → List C2BundleEntry × W
  turn f none budget others w = others budget w
  turn f (some h) zero others w = ([], w)
  turn f (some h) (suc left) others w =
      let (entry, w₁) = entry_for f h w in
      let (entries, w₂) = others left w₁ in (with_entry entry entries, w₂)

  -- The loop of `build_c2_bundle`
  unfoldable pub entries_for :
      (Codes → Option GroundedHint) → List CapturedFlow → ℕ → W → List C2BundleEntry × W
  unfolding entry_for
  entries_for hints [] budget w = ([], w)
  entries_for hints (f ∷ fs) budget w =
      turn f (grounds (hints f.host)) budget (entries_for hints fs) w

  -- `build_c2_bundle`
  unfoldable pub build_c2_bundle :
      (Codes → Codes → Bool)
      → (Codes → Option GroundedHint)
      → ℕ
      → Codes
      → List CapturedFlow
      → W
      → C2Bundle × W
  unfolding entries_for by_host
  build_c2_bundle looks_like_beacon hints budget sha256 flows w =
      if not (is_sha256 sha256)
      then (record { sha256 = zeros 64; entries = [] }, w)
      else (let (entries, w') = entries_for hints (by_host looks_like_beacon [] flows) budget w in
          (record { sha256 = sha256; entries = entries }, w'))

abbrev pub is_longer : Option C2BundleEntry → C2BundleEntry → Bool
is_longer none e = true
is_longer (some b) e = ltb (length b.path_prefix) (length e.path_prefix)

-- The entry answers for the host and the path.
abbrev pub answers : Codes → Codes → C2BundleEntry → Bool
answers host path e = same e.host host && starts_with e.path_prefix path

-- `C2Bundle.matches`, with the best entry so far
unfoldable pub matches_after :
    Codes → Codes → Option C2BundleEntry → List C2BundleEntry → Option C2BundleEntry
matches_after host path best [] = best
matches_after host path best (e ∷ es) =
    matches_after host path (if answers host path e && is_longer best e then some e else best) es

unfoldable pub matches : C2Bundle → Codes → Codes → Option C2BundleEntry
unfolding matches_after
matches bundle host path = matches_after host path none bundle.entries
