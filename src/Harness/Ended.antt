-- ===== src/Harness/Ended.antt =====
-- The detonation of drishti/m3_dynamic/harness.py with its handlers and its `finally`, where it ends well.
use c_s_cool_stuff.Prelude.{
  ◌≡◌, refl, ap, subst, ◌⊎◌, inl, inr, Bool, true, false, some, ◌∷◌, Codes, ℕ,
}
use c_s_cool_stuff.Artifact.{passed, has_ended}
use c_s_cool_stuff.Harness.Guest.{
  Attempt, returned, raised, Exception, HarnessConfig, Lab, State, Action, finished, handled,
  finally, handle,
}
use c_s_cool_stuff.Harness.Run.{detonate, record_failure, clean_up, sealed_run}
use c_s_cool_stuff.Harness.Outcomes.{
  Unsafe, detonate-Unsafe, record_failure-Unsafe, clean_up-Unsafe,
}
use c_s_cool_stuff.Harness.Detonated.{Detonated, detonate-Detonated}
use c_s_cool_stuff.Harness.Restored.{CleanedUp, clean_up-CleanedUp}

module _ (lab : Lab) where
  open lab use {World, ObservationEvent}

  finally-returned :
      (m last : Action (State lab) (Unit {0})) (s : State lab) {x : Unit {0}} {s'' : State lab}
      → finally m last s ≡ (returned x, s'')
      → (s' : State lab) × (m s ≡ (returned tt, s')) × (last s' ≡ (returned tt, s''))
  unfolding finally
  finally-returned m last s {x} {s''} h =
      ((m s).1, go (m s) (last (m s).1) h, last_returned (m s).0 (last (m s).1) h)
    where
      go :
          (r : Attempt (Unit {0}) × State lab) (q : Attempt (Unit {0}) × State lab)
          → finished r.0 q ≡ (returned x, s'')
          → r ≡ (returned tt, r.1)
      go (returned y, s') q e = refl
      go (raised exc, s') (returned y, t) e = cc
      go (raised exc, s') (raised other, t) e = cc

      last_returned :
          (a : Attempt (Unit {0})) (q : Attempt (Unit {0}) × State lab)
          → finished a q ≡ (returned x, s'')
          → q ≡ (returned tt, s'')
      last_returned a (returned y, t) e = ap (λ p. (returned tt, p.1)) e
      last_returned a (raised other, t) e = cc

  handled-Detonated :
      (s : State lab) (r : Attempt (Unit {0}) × State lab) {s' : State lab}
      → ((s₁ : State lab) → r ≡ (returned tt, s₁) → Detonated lab s s₁)
      → ((exc : Exception) → r.0 ≡ raised exc → Unsafe lab r.1)
      → handled (record_failure lab) r ≡ (returned tt, s')
      → Detonated lab s s' ⊎ Unsafe lab s'
  handled-Detonated s (returned x, s₁) h k e =
      inl (subst (λ t. Detonated lab s t) (ap (λ p. p.1) e) (h s₁ refl))
  handled-Detonated s (raised exc, s₁) h k e = inr (
      subst (λ t. Unsafe lab t) (ap (λ p. p.1) e)
        ((record_failure-Unsafe lab exc).at s₁ (k exc refl)))

  -- A detonation with its clean up that ended well ran both to their ends.
  pub sealed_run-returned :
      (config : HarnessConfig) (s : State lab) {x : Unit {0}} {s'' : State lab}
      → Unsafe lab s
      → sealed_run lab config s ≡ (returned x, s'')
      → has_ended s''.outcome ≡ true
      → s''.after ≡ passed
      → (s' : State lab) × Detonated lab s s'
        × ((c : ℕ) (n : Codes) → s'.apk_package ≡ some (c ∷ n) → CleanedUp lab c n s' s'')
  unfolding sealed_run handle
  sealed_run-returned config s {s''} u h e a =
      let (s', h', k) = finally-returned _ _ s h in
      (
        s',
        ended s' k (
            handled-Detonated s (detonate lab config s) (λ s₁. detonate-Detonated lab config s)
              (λ exc e'. (detonate-Unsafe lab config).at s exc e' u) h'),
        λ c n given. clean_up-CleanedUp lab config c n s' given k a,
      )
    where
      ended :
          (s' : State lab)
          → clean_up lab config s' ≡ (returned tt, s'')
          → Detonated lab s s' ⊎ Unsafe lab s'
          → Detonated lab s s'
      ended s' k (inl d) = d
      ended s' k (inr bad) = absurd (
          both _ e
            (subst (λ t. Unsafe lab t) (ap (λ p. p.1) k) ((clean_up-Unsafe lab config).at s' bad)))
        where
          both : (b : Bool) → b ≡ true → b ≡ false → ⊥
          both b p q = cc
