-- ===== src/TraceSource/Gcloud.antt =====
-- `_run` of drishti/m3_dynamic/detonator.py: a `gcloud` call with its retries. `call` stands for
-- `subprocess.run`; what it raises other than a timeout leaves `_run` as it is. The texts of the
-- exceptions are left out.
use c_s_cool_stuff.Prelude.{
  ℕ, zero, suc, ℤ, pos, negsuc, false, ◌+◌, ◌*◌, Bool, not, ◌||◌, List, any, Codes, codes, is_part,
  ◌==◌, if◌then◌else◌, ◌≡◌, ◌≢◌, refl,
}

pub record CompletedProcess : Type 0 where
  pub returncode : ℤ
  pub stdout : Codes
  pub stderr : Codes

pub data CallResult : Type 0 where
  completed : CompletedProcess → CallResult
  timeout_expired : CallResult
  other_error : Codes → CallResult

-- The reasons of `DetonatorUnreachableError`, or another exception.
pub data Failure : Type 0 where
  refused exhausted no_target nothing_to_apply no_artifact : Failure
  no_script : List Codes → Failure
  escaped : Codes → Failure

pub data Attempt {ℓ} (A : Type ℓ) : Type ℓ where
  returned : A → Attempt A
  raised : Failure → Attempt A

-- The next step where one returned, or what is made of its exception.
abbrev pub follow {ℓ κ} :
    {W : Type 0} {A : Type ℓ} {Y : Type κ} → Attempt A × W → (Failure → W → Y) → (A → W → Y) → Y
follow (raised why, w) otherwise next = otherwise why w
follow (returned a, w) otherwise next = next a w

pub follow-returned {ℓ κ} :
    {W : Type 0} {A : Type ℓ} {Y : Type κ} (r : Attempt A × W) (otherwise : Failure → W → Y)
    (next : A → W → Y) {y : Y}
    → ((why : Failure) (w : W) → otherwise why w ≢ y)
    → follow r otherwise next ≡ y
    → (a : A) × (w : W) × (r ≡ (returned a, w)) × (next a w ≡ y)
follow-returned (raised why, w) otherwise next bad h = absurd (bad why w h)
follow-returned (returned a, w) otherwise next bad h = (a, w, refl, h)

-- What `_run` makes of one call.
pub data Verdict : Type 0 where
  done : CompletedProcess → Verdict
  stop : Failure → Verdict
  again : Verdict

-- `MAX_GCLOUD_ATTEMPTS`
abbrev pub max_gcloud_attempts : ℕ
max_gcloud_attempts = 4

-- `RETRY_BACKOFF_S`
abbrev pub retry_backoff_s : ℕ
retry_backoff_s = 5

-- A process that a signal killed has a negative code.
abbrev pub is_code : ℤ → ℕ → Bool
is_code (pos n) code = n == code
is_code (negsuc n) code = false

module _ (lower : Codes → Codes) where
  -- The failure may be one of the network.
  abbrev pub is_transport : Codes → Bool
  is_transport stderr = is_part (codes "SSL") stderr || is_part (codes "timed out") (lower stderr)

  unfoldable pub verdict_of : List ℕ → CallResult → Verdict
  verdict_of ok_returncodes (completed p) =
      if any (is_code p.returncode) ok_returncodes
      then done p
      else if not (is_transport p.stderr)
      then stop refused
      else again
  verdict_of ok_returncodes timeout_expired = again
  verdict_of ok_returncodes (other_error name) = stop (escaped name)

  module _ {W : Type 0} (call : List Codes → ℕ → W → CallResult × W) (sleep : ℕ → W → W) where
    -- The pause after an attempt, but the last
    abbrev pause : ℕ → ℕ → W → W
    pause zero attempt w = w
    pause (suc left) attempt w = sleep (retry_backoff_s * attempt) w

    abbrev Ended : Type 0
    Ended = Attempt CompletedProcess × W

    -- What follows a call: `rest` is what further attempts lead to.
    abbrev pub conclude : Verdict → W → Ended → Ended
    conclude (done p) w rest = (returned p, w)
    conclude (stop why) w rest = (raised why, w)
    conclude again w rest = rest

    -- The loop of `_run` with `left` attempts left
    unfoldable pub attempts : List Codes → ℕ → List ℕ → ℕ → ℕ → W → Attempt CompletedProcess × W
    attempts args timeout ok_returncodes zero attempt w = (raised exhausted, w)
    attempts args timeout ok_returncodes (suc left) attempt w =
        let (result, w₁) = call args timeout w in
        conclude (verdict_of ok_returncodes result) w₁
          (attempts args timeout ok_returncodes left (attempt + 1) (pause left attempt w₁))

    -- `_run(args, timeout=timeout, ok_returncodes=ok_returncodes)`
    unfoldable pub run_gcloud : List Codes → ℕ → List ℕ → W → Attempt CompletedProcess × W
    unfolding attempts
    run_gcloud args timeout ok_returncodes =
        attempts args timeout ok_returncodes max_gcloud_attempts 1
