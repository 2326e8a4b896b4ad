-- ===== src/TraceSource/Retries.antt =====
-- The calls that `_run` of drishti/m3_dynamic/detonator.py makes, and what it makes of the last of them.
use c_s_cool_stuff.Prelude.{
  ℕ, zero, suc, ℤ, pos, negsuc, ◌+◌, ◌*◌, ◌≤◌, ◌<◌, ◌≡◌, refl, ◌⊎◌, ◌↔◌, inl, inr, true, List, [],
  ◌∷◌, any, Any, Codes, codes, is_part, arith,
}
use c_s_cool_stuff.TraceSource.Gcloud.{
  CompletedProcess, CallResult, completed, timeout_expired, other_error, refused, exhausted,
  escaped, Attempt, returned, raised, Verdict, done, stop, again, is_code, verdict_of, conclude,
  attempts, run_gcloud,
}
unfoldable use c_s_cool_stuff.TraceSource.Gcloud.{verdict_of, attempts, run_gcloud}

is_code_iff : (z : ℤ) (n : ℕ) → (is_code z n ≡ true) ↔ (z ≡ pos n)
is_code_iff (pos m) n = ground arith
is_code_iff (negsuc m) n = (λ h. cc, λ h. cc)

any_iff : (z : ℤ) (ns : List ℕ) → (any (is_code z) ns ≡ true) ↔ Any (λ n. z ≡ pos n) ns
any_iff z [] = (λ h. cc, λ h. elim h [ ])
any_iff z (n ∷ ns) = ground (arith, is_code_iff z n, any_iff z ns)

module _ (lower : Codes → Codes) (ok_returncodes : List ℕ) where
  abbrev pub IsExpected : CompletedProcess → Type 0
  IsExpected p = Any (λ code. p.returncode ≡ pos code) ok_returncodes

  abbrev pub IsTransport : CompletedProcess → Type 0
  IsTransport p =
      (is_part (codes "SSL") p.stderr ≡ true)
      ⊎ (is_part (codes "timed out") (lower p.stderr) ≡ true)

  -- A call that is worth another one: it timed out, or failed as the network does.
  abbrev pub IsTransient : CallResult → Type 0
  IsTransient (completed p) = (¬ IsExpected p) × IsTransport p
  IsTransient timeout_expired = Unit
  IsTransient (other_error name) = ⊥

  -- A call that settles how `_run` ends.
  abbrev pub Settles : CallResult → Attempt CompletedProcess → Type 0
  Settles (completed p) a =
      (IsExpected p × (a ≡ returned p))
      ⊎ ((¬ IsExpected p) × (¬ IsTransport p) × (a ≡ raised refused))
  Settles timeout_expired a = ⊥
  Settles (other_error name) a = a ≡ raised (escaped name)

  abbrev Judged : CallResult → Verdict → Type 0
  Judged r (done p) = Settles r (returned p)
  Judged r (stop why) = Settles r (raised why)
  Judged r again = IsTransient r

  verdict_of-Judged : (r : CallResult) → Judged r (verdict_of lower ok_returncodes r)
  unfolding verdict_of
  verdict_of-Judged (completed p) = ground (arith, any_iff p.returncode ok_returncodes)
  verdict_of-Judged timeout_expired = tt
  verdict_of-Judged (other_error name) = refl

module _ (lower : Codes → Codes) {W : Type 0} (call : List Codes → ℕ → W → CallResult × W)
    (sleep : ℕ → W → W) (args : List Codes) (timeout : ℕ) (ok_returncodes : List ℕ) where
  abbrev pub called : W → CallResult × W
  called = call args timeout

  -- The world before the call `k` after this one: a pause, five seconds longer each time, follows a call.
  abbrev pub before : ℕ → W → ℕ → W
  before attempt w zero = w
  before attempt w (suc k) = before (attempt + 1) (sleep (5 * attempt) (called w).1) k

  abbrev pub result : ℕ → W → ℕ → CallResult
  result attempt w k = (called (before attempt w k)).0

  -- The calls after the first were made after transient ones only; the last one settles the end, or was
  -- the last that is allowed.
  pub record Tried (left attempt : ℕ) (w : W) (end : Attempt CompletedProcess × W) : Type 0 where
    pub last : ℕ
    pub allowed : last ≤ left
    pub repeated : (k : ℕ) → k < last → IsTransient lower ok_returncodes (result attempt w k)
    pub settled :
        Settles lower ok_returncodes (result attempt w last) end.0
        ⊎ ((last ≡ left)
            × IsTransient lower ok_returncodes (result attempt w last)
            × (end.0 ≡ raised exhausted))
    pub world : end.1 ≡ (called (before attempt w last)).1

  first-Tried :
      (left attempt : ℕ) (w : W) (a : Attempt CompletedProcess)
      → Settles lower ok_returncodes (called w).0 a
      → Tried left attempt w (a, (called w).1)
  first-Tried left attempt w a h = record {
    last = 0;
    allowed = omega arith;
    repeated = λ k less. absurd (omega (arith, less));
    settled = inl h;
    world = refl;
  }

  later-Tried :
      (left attempt : ℕ) (w : W) (end : Attempt CompletedProcess × W)
      → IsTransient lower ok_returncodes (called w).0
      → Tried left (attempt + 1) (sleep (5 * attempt) (called w).1) end
      → Tried (suc left) attempt w end
  later-Tried left attempt w end t rest = record {
    last = suc rest.last;
    allowed = omega (arith, rest.allowed);
    repeated = λ k less. repeated k less;
    settled = elim rest.settled [ inl h ↦ inl h | inr (e, t', x) ↦ inr (omega (arith, e), t', x) ];
    world = rest.world;
  }
    where
      repeated : (k : ℕ) → k < suc rest.last → IsTransient lower ok_returncodes (result attempt w k)
      repeated zero less = t
      repeated (suc k) less = rest.repeated k omega (arith, less)

  exhausted-Tried :
      (attempt : ℕ) (w : W)
      → IsTransient lower ok_returncodes (called w).0
      → Tried 0 attempt w (raised exhausted, (called w).1)
  exhausted-Tried attempt w t = record {
    last = 0;
    allowed = omega arith;
    repeated = λ k less. absurd (omega (arith, less));
    settled = inr (refl, t, refl);
    world = refl;
  }

  attempts-Tried :
      (left attempt : ℕ) (w : W)
      → Tried left attempt w
          (attempts lower call sleep args timeout ok_returncodes (suc left) attempt w)
  unfolding attempts
  attempts-Tried zero attempt w =
      go (verdict_of lower ok_returncodes (called w).0)
        (verdict_of-Judged lower ok_returncodes (called w).0)
    where
      go :
          (v : Verdict)
          → Judged lower ok_returncodes (called w).0 v
          → Tried 0 attempt w
              (conclude lower call sleep v (called w).1 (raised exhausted, (called w).1))
      go (done p) h = first-Tried 0 attempt w (returned p) h
      go (stop why) h = first-Tried 0 attempt w (raised why) h
      go again h = exhausted-Tried attempt w h
  attempts-Tried (suc left) attempt w =
      go (verdict_of lower ok_returncodes (called w).0)
        (verdict_of-Judged lower ok_returncodes (called w).0)
        (attempts-Tried left (attempt + 1) (sleep (5 * attempt) (called w).1))
    where
      go :
          (v : Verdict)
          → Judged lower ok_returncodes (called w).0 v
          → {rest : Attempt CompletedProcess × W}
          → Tried left (attempt + 1) (sleep (5 * attempt) (called w).1) rest
          → Tried (suc left) attempt w (conclude lower call sleep v (called w).1 rest)
      go (done p) h t = first-Tried (suc left) attempt w (returned p) h
      go (stop why) h t = first-Tried (suc left) attempt w (raised why) h
      go again h t = later-Tried left attempt w _ h t

  -- `_run` makes one to four calls, with pauses of 5, 10 and 15 seconds between them, each after the first
  -- only when the one before timed out or failed as the network does, with an unexpected code. It ends
  -- after the last of them: with its process where the code is expected, with its failure where it is
  -- another one, or with the attempts exhausted where it was the fourth and would be repeated.
  pub run_gcloud-Tried :
      (w : W) → Tried 3 1 w (run_gcloud lower call sleep args timeout ok_returncodes w)
  unfolding run_gcloud
  run_gcloud-Tried w = attempts-Tried 3 1 w
