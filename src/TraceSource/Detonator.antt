-- ===== src/TraceSource/Detonator.antt =====
-- `RemoteDetonatorClient` of drishti/m3_dynamic/detonator.py. `quote` stands for `shlex.quote`, `parse`
-- for the contract's check of the artifact, and `scripts` for the stems of the morph scripts.
use c_s_cool_stuff.Prelude.{
  ℕ, ◌+◌, Bool, true, false, not, Option, none, some, List, [], ◌∷◌, ◌++◌, keep_if, Codes, codes,
  is_in, decimal, if◌then◌else◌,
}
use c_s_cool_stuff.GenerativeC2.Texts.{strip}
use c_s_cool_stuff.Artifact.{ObservationArtifact, is_given}
use c_s_cool_stuff.TraceSource.Gcloud.{
  CallResult, Attempt, returned, raised, no_target, nothing_to_apply, no_artifact, no_script,
  run_gcloud,
}

pub record DetonatorTarget : Type 0 where
  pub project : Codes
  pub zone : Codes
  pub instance_name : Codes

-- `DetonatorClient`: what a live source needs of a detonator. A morph is the value of its kind.
pub record DetonatorClient (W E : Type 0) : Type 0 where
  pub instance_state : W → Attempt Codes × W
  pub stage : Codes → W → Attempt (Unit {0}) × W
  pub detonate : Codes → List Codes → ℕ → W → Attempt (Unit {0}) × W
  pub collect : Codes → Bool → W → Attempt (ObservationArtifact E) × W

-- `list(dict.fromkeys(kinds))`, after those in `seen`
unfoldable pub distinct_after : List Codes → List Codes → List Codes
distinct_after seen [] = []
distinct_after seen (k ∷ ks) =
    let rest = distinct_after (k ∷ seen) ks in
    let others = distinct_after seen ks in if is_in k seen then others else k ∷ rest

abbrev pub distinct : List Codes → List Codes
distinct = distinct_after []

abbrev pub no_kinds : List Codes → Bool
no_kinds [] = true
no_kinds (k ∷ ks) = false

-- `_runnable_kinds`
unfoldable pub runnable_kinds : List Codes → List Codes → Attempt (List Codes)
runnable_kinds scripts morphs =
    let wanted = distinct morphs in
    let missing = keep_if (λ k. not (is_in k scripts)) wanted in
    let runnable = keep_if (λ k. is_in k scripts) wanted in
    if not (no_kinds missing)
    then raised (no_script missing)
    else if no_kinds runnable
    then raised nothing_to_apply
    else returned runnable

abbrev separated : List Codes → Codes
separated [] = []
separated (k ∷ ks) = codes "," ++ (k ++ separated ks)

-- `",".join(kinds)`
abbrev pub joined : List Codes → Codes
joined [] = []
joined (k ∷ ks) = k ++ separated ks

-- `DETONATOR_ROOT`
abbrev pub detonator_root : Codes
detonator_root = codes "/opt/drishti"

module _ (lower quote : Codes → Codes) (scripts : List Codes) where
  -- The command of `detonate`
  unfoldable pub detonate_command : Codes → List Codes → ℕ → Attempt Codes
  unfolding runnable_kinds
  detonate_command sha256 [] duration_s = returned (
      detonator_root
      ++ (codes "/bin/detonator_run.sh detonate "
          ++ (quote sha256 ++ (codes " " ++ decimal duration_s))))
  detonate_command sha256 (m ∷ ms) duration_s = elim (runnable_kinds scripts (m ∷ ms)) [
    | raised why ↦ raised why
    | returned kinds ↦ returned (
        detonator_root
        ++ (codes "/bin/detonator_run.sh morph "
            ++ (quote sha256
                ++ (codes " " ++ (quote (joined kinds) ++ (codes " " ++ decimal duration_s))))))
  ]

  module _ {W E : Type 0} (call : List Codes → ℕ → W → CallResult × W) (sleep : ℕ → W → W)
      (parse : Codes → Attempt (ObservationArtifact E)) where
    -- `_ssh`, with its target
    unfoldable pub ssh : Option DetonatorTarget → Codes → ℕ → List ℕ → W → Attempt Codes × W
    ssh none command timeout ok_returncodes w = (raised no_target, w)
    ssh (some t) command timeout ok_returncodes w =
        let (a, w') =
          run_gcloud lower call sleep
            (codes "gcloud"
              ∷ codes "compute"
              ∷ codes "ssh"
              ∷ t.instance_name
              ∷ (codes "--zone=" ++ t.zone)
              ∷ (codes "--project=" ++ t.project)
              ∷ codes "--tunnel-through-iap"
              ∷ (codes "--command=" ++ command)
              ∷ [])
            timeout ok_returncodes w in
        elim a [ raised why ↦ (raised why, w') | returned p ↦ (returned p.stdout, w') ]

    -- `detonate`, where the return code 2 is an artifact to be judged
    unfoldable pub remote_detonate :
        Option DetonatorTarget → Codes → List Codes → ℕ → W → Attempt (Unit {0}) × W
    remote_detonate none sha256 morphs duration_s w = (raised no_target, w)
    remote_detonate (some t) sha256 morphs duration_s w =
        elim (detonate_command sha256 morphs duration_s) [
          | raised why ↦ (raised why, w)
          | returned command ↦
              let (a, w') = ssh (some t) command (duration_s + 600) (0 ∷ 2 ∷ []) w in
              elim a [ raised why ↦ (raised why, w') | returned output ↦ (returned tt, w') ]
        ]

    abbrev artifact_name : Codes → Bool → Codes
    artifact_name sha256 true = sha256 ++ codes ".morph.json"
    artifact_name sha256 false = sha256 ++ codes ".json"

    -- `collect`
    unfoldable pub remote_collect :
        Option DetonatorTarget → Codes → Bool → W → Attempt (ObservationArtifact E) × W
    remote_collect target sha256 morphed w =
        let command =
          codes "sudo cat "
          ++ (detonator_root ++ (codes "/results/" ++ quote (artifact_name sha256 morphed))) in
        let (a, w') = ssh target command 120 (0 ∷ []) w in
        elim a [
          | raised why ↦ (raised why, w')
          | returned raw ↦
              if not (is_given (some (strip raw)))
              then (raised no_artifact, w')
              else (parse raw, w')
        ]
