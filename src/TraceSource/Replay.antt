-- ===== src/TraceSource/Replay.antt =====
-- `ReplayTraceSource` of drishti/m3_dynamic/trace_source.py. `fixtures` stands for the directory of the
-- fixtures, `parse` for the check of a fixture's text, `hash` for `_sha256_of`, `run_id` for `new_id`,
-- and `validate` for the contract's check of a trace. `is_zero` tells a float that is falsy.
use c_s_cool_stuff.Prelude.{
  pos, negsuc, zero, suc, Bool, true, false, Option, none, some, List, [], ◌∷◌, Codes, codes, same,
  if◌then◌else◌,
}
use c_s_cool_stuff.GenerativeC2.{
  Value, null, bool, int, float, text, array, object, other, Values, nil, cons, Entries, end, entry,
}
use c_s_cool_stuff.GenerativeC2.Gate.{put}
use c_s_cool_stuff.TraceSource.Gcloud.{Attempt, returned, raised, Failure, escaped}
use c_s_cool_stuff.TraceSource.Detonator.{no_kinds}

pub data ProvenanceKind : Type 0 where
  hand_authored captured : ProvenanceKind

pub record TraceFixture (F : Type 0) : Type 0 where
  pub provenance_kind : ProvenanceKind
  pub pre_morph : Entries F
  pub post_morph : Entries F

-- `TraceSourceUnavailableError` for a fixture or a half that is not there, or another exception.
pub data Replayed (Trace : Type 0) : Type 0 where
  replayed : Trace → Replayed Trace
  no_fixture no_half : Replayed Trace
  failed : Failure → Replayed Trace

abbrev pub is_synthetic : ProvenanceKind → Bool
is_synthetic hand_authored = true
is_synthetic captured = false

abbrev pub disclosure : Codes
disclosure =
    codes
      "Dynamic trace is a hand-authored fixture, not a captured execution. No sample was detonated to produce it."

module _ {F : Type 0} where
  -- `half.get(key)`
  unfoldable pub get : Codes → Entries F → Option (Value F)
  get k end = none
  get k (entry j v fs) = if same j k then some v else get k fs

  abbrev pub texts_of : List Codes → Values F
  texts_of [] = nil
  texts_of (s ∷ ss) = cons (text s) (texts_of ss)

  abbrev characters_of : Codes → Values F
  characters_of [] = nil
  characters_of (c ∷ s) = cons (text (c ∷ [])) (characters_of s)

  abbrev keys_of : Entries F → Values F
  keys_of end = nil
  keys_of (entry k v fs) = cons (text k) (keys_of fs)

  -- `(*items, last)`
  abbrev pub and_last : Values F → Value F → Values F
  and_last nil last = cons last nil
  and_last (cons v vs) last = cons v (and_last vs last)

  abbrev not_iterable : Attempt (Values F)
  not_iterable = raised (escaped (codes "TypeError"))

  -- `tuple(value or ())`
  unfoldable pub items_of : (F → Bool) → Option (Value F) → Attempt (Values F)
  items_of is_zero none = returned nil
  items_of is_zero (some null) = returned nil
  items_of is_zero (some (bool true)) = not_iterable
  items_of is_zero (some (bool false)) = returned nil
  items_of is_zero (some (int (pos zero))) = returned nil
  items_of is_zero (some (int (pos (suc n)))) = not_iterable
  items_of is_zero (some (int (negsuc n))) = not_iterable
  items_of is_zero (some (float x)) = if is_zero x then returned nil else not_iterable
  items_of is_zero (some (text s)) = returned (characters_of s)
  items_of is_zero (some (array vs)) = returned vs
  items_of is_zero (some (object fs)) = returned (keys_of fs)
  items_of is_zero (some other) = not_iterable

  abbrev pub half_of : List Codes → TraceFixture F → Entries F
  half_of morphs fixture = if no_kinds morphs then fixture.pre_morph else fixture.post_morph

  -- What the half is made to say of itself
  unfoldable pub declare : Codes → Bool → List Codes → Entries F → Entries F
  unfolding put
  declare run_id synthetic morphs half = put (codes "morphs_applied") (array (texts_of morphs)) (
      put (codes "synthetic") (bool synthetic)
        (put (codes "source") (text (codes "replay")) (put (codes "run_id") (text run_id) half)))

  -- `if synthetic: …`
  unfoldable pub disclose : (F → Bool) → Bool → Entries F → Attempt (Entries F)
  unfolding get put items_of
  disclose is_zero false half = returned half
  disclose is_zero true half =
      let half' = put (codes "partial") (bool true) half in
      elim (items_of is_zero (get (codes "errors") half')) [
        | raised why ↦ raised why
        | returned items ↦
            returned (put (codes "errors") (array (and_last items (text disclosure))) half')
      ]

  module _ {Trace : Type 0} (is_zero : F → Bool) (fixtures : Codes → Option Codes)
      (parse : Codes → Attempt (TraceFixture F)) (hash : Attempt Codes) (run_id : Codes)
      (validate : Entries F → Attempt Trace) where
    -- `sha256 or _sha256_of(apk_path)`
    abbrev pub digest_or_hash : Option Codes → Attempt Codes
    digest_or_hash none = hash
    digest_or_hash (some []) = hash
    digest_or_hash (some (c ∷ s)) = returned (c ∷ s)

    -- `DynamicTrace.model_validate(half)`
    abbrev pub validated : Attempt (Entries F) → Replayed Trace
    validated (raised why) = failed why
    validated (returned half) = elim (validate half) [
      | raised why ↦ failed why
      | returned trace ↦ replayed trace
    ]

    -- `run` with its half
    unfoldable pub replay_half : Bool → List Codes → Entries F → Replayed Trace
    unfolding declare disclose
    replay_half synthetic morphs end = no_half
    replay_half synthetic morphs (entry k v fs) =
        validated (disclose is_zero synthetic (declare run_id synthetic morphs (entry k v fs)))

    -- `load_fixture`, and what `run` makes of it
    abbrev pub replay_fixture : List Codes → Option Codes → Replayed Trace
    replay_fixture morphs none = no_fixture
    replay_fixture morphs (some content) = elim (parse content) [
      | raised why ↦ failed why
      | returned fixture ↦
          replay_half (is_synthetic fixture.provenance_kind) morphs (half_of morphs fixture)
    ]

    -- `ReplayTraceSource.run`
    unfoldable pub run_replay : Option Codes → List Codes → Replayed Trace
    unfolding replay_half
    run_replay sha256 morphs = elim (digest_or_hash sha256) [
      | raised why ↦ failed why
      | returned digest ↦ replay_fixture morphs (fixtures digest)
    ]
