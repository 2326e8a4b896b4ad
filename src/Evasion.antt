-- ===== src/Evasion.antt =====
-- drishti/m3_dynamic/evasion.py: did the sample look at its surroundings and then do nothing? A trace is
-- one of the normaliser. `lower` stands for `str.lower`; the texts of the reasons are left out.
pub mod Verdicts
use c_s_cool_stuff.Prelude.{
  ℕ, String, Bool, true, false, not, ◌&&◌, ◌||◌, Option, none, some, List, [], ◌∷◌, ◌++◌, map,
  keep_if, any, length, ltb, elem, Codes, codes, is_part, if◌then◌else◌,
}
use c_s_cool_stuff.Normaliser.{ObservationGroup}

-- The kinds of morph that the frontier can answer with.
pub data MorphKind : Type 0 where
  install_packages sim_locale device_identity geo sms_history : MorphKind

-- `QUIET_EVENT_THRESHOLD`
abbrev pub quiet_event_threshold : ℕ
quiet_event_threshold = 12

-- `PROBE_TECHNIQUES`
abbrev pub probe_techniques : List String
probe_techniques = "T1418" ∷ "T1426" ∷ "T1430" ∷ []

-- `_PROBE_SIGNATURES`, with no descriptions
abbrev pub probe_signatures : List (String × MorphKind)
probe_signatures =
    ("getPackageInfo", install_packages)
    ∷ ("getInstalledPackages", install_packages)
    ∷ ("resolveActivity", install_packages)
    ∷ ("getSimOperator", sim_locale)
    ∷ ("getSimCountryIso", sim_locale)
    ∷ ("getSubscriberId", sim_locale)
    ∷ ("getDeviceId", device_identity)
    ∷ ("getLine1Number", device_identity)
    ∷ ("Build", device_identity)
    ∷ ("getLastKnownLocation", geo)
    ∷ ("SmsInbox", sms_history)
    ∷ ("query", sms_history)
    ∷ []

pub record EvasionObservation : Type 0 where
  pub probe : String
  pub morph : MorphKind
  pub occurrences : ℕ

pub data Reason : Type 0 where
  never_ran no_observations : Reason
  probes_only : ℕ → Reason
  too_quiet : ℕ → ℕ → Reason
  behaviour_observed : ℕ → Reason

pub record EvasionVerdict : Type 0 where
  pub stalled : Bool
  pub reason : Reason
  pub observations : List EvasionObservation

module _ (lower : Codes → Codes) where
  -- `f"{group.hook} {group.technique} {group.first_detail}".lower()`
  abbrev pub haystack : ObservationGroup → Codes
  haystack g = lower (codes g.hook ++ 32 ∷ (codes g.technique ++ 32 ∷ g.first_detail))

  -- The kind of the first signature that occurs in the text
  unfoldable pub signature_in : Codes → List (String × MorphKind) → Option MorphKind
  signature_in text [] = none
  signature_in text ((fragment, morph) ∷ rest) =
      if is_part (lower (codes fragment)) text then some morph else signature_in text rest

  -- The kind of a signature, or that of a technique that only asks
  abbrev pub or_technique : String → Option MorphKind → Option MorphKind
  or_technique mitre (some morph) = some morph
  or_technique mitre none = if elem mitre probe_techniques then some install_packages else none

  abbrev pub observation : ObservationGroup → Option MorphKind → Option EvasionObservation
  observation g none = none
  observation g (some morph) =
      some (record { probe = g.hook; morph = morph; occurrences = g.occurrences })

  -- `_classify`
  unfoldable pub classify : ObservationGroup → Option EvasionObservation
  unfolding signature_in
  classify g = observation g (or_technique g.mitre (signature_in (haystack g) probe_signatures))

  abbrev pub add_found :
      Option EvasionObservation → List EvasionObservation → List EvasionObservation
  add_found none rest = rest
  add_found (some o) rest = o ∷ rest

  -- `[obs for obs in (_classify(g) for g in groups) if obs is not None]`
  unfoldable pub probes_of : List ObservationGroup → List EvasionObservation
  probes_of [] = []
  probes_of (g ∷ gs) = add_found (classify g) (probes_of gs)

  abbrev pub is_none {ℓ} : {A : Type ℓ} → Option A → Bool
  is_none none = true
  is_none (some a) = false

  -- `[g for g in groups if _classify(g) is None]`
  unfoldable pub actioned_of : List ObservationGroup → List ObservationGroup
  actioned_of groups = keep_if (λ g. is_none (classify g)) groups

  abbrev pub is_empty {ℓ} : {A : Type ℓ} → List A → Bool
  is_empty [] = true
  is_empty (a ∷ rest) = false

  -- `detect` of a run whose trace has groups
  unfoldable pub detect_observed : List ObservationGroup → ℕ → EvasionVerdict
  unfolding probes_of actioned_of
  detect_observed groups total_events =
      let probes = probes_of groups in
      let actioned = actioned_of groups in
      if not (is_empty probes) && is_empty actioned
      then record { stalled = true; reason = probes_only (length probes); observations = probes }
      else if not (is_empty probes) && ltb total_events quiet_event_threshold
      then record {
        stalled = true;
        reason = too_quiet total_events (length probes);
        observations = probes;
      }
      else record {
        stalled = false;
        reason = behaviour_observed (length actioned);
        observations = probes;
      }

  -- `detect`, of the groups and the number of events of a trace
  unfoldable pub detect : List ObservationGroup → ℕ → Bool → EvasionVerdict
  unfolding detect_observed
  detect groups total_events false = record {
    stalled = false;
    reason = never_ran;
    observations = [];
  }
  detect [] total_events true = record {
    stalled = true;
    reason = no_observations;
    observations = [];
  }
  detect (g ∷ gs) total_events true = detect_observed (g ∷ gs) total_events
