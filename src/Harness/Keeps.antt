-- ===== src/Harness/Keeps.antt =====
-- Rules for what the steps of `DynamicHarness` leave as it is.
use c_s_cool_stuff.Prelude.{◌≡◌, Bool, true, false}
use c_s_cool_stuff.Harness.Guest.{
  Attempt, returned, raised, Exception, Action, ◌>>=◌, ◌>>◌, resumed, pure, raise, raise_if, modify,
  handle, handled,
}

-- The step preserves what is said of the state, however it ends.
pub record Keeps {ℓ} {S : Type 0} {A : Type ℓ} (P : S → Type 0) (m : Action S A) : Type 0 where
  pub at : (s : S) → P s → P (m s).1

-- It does so where it raises.
pub record KeepsIfRaised {ℓ} {S : Type 0} {A : Type ℓ} (P : S → Type 0) (m : Action S A)
    : Type ℓ where
  pub at : (s : S) (exc : Exception) → (m s).0 ≡ raised exc → P s → P (m s).1

module _ {S : Type 0} {P : S → Type 0} where
  pub resumed-Keeps {ℓ κ} :
      {A : Type ℓ} {B : Type κ} (next : A → Action S B)
      → ((a : A) → Keeps P (next a))
      → (r : Attempt A × S) → P r.1
      → P (resumed next r).1
  resumed-Keeps next k (returned a, s) p = (k a).at s p
  resumed-Keeps next k (raised exc, s) p = p

  pub >>=-Keeps {ℓ κ} :
      {A : Type ℓ} {B : Type κ} (m : Action S A) (next : A → Action S B)
      → Keeps P m
      → ((a : A) → Keeps P (next a))
      → Keeps P (m >>= next)
  unfolding ◌>>=◌
  >>=-Keeps m next h k = record { at = λ s p. resumed-Keeps next k (m s) (h.at s p) }

  pub >>-Keeps {ℓ κ} :
      {A : Type ℓ} {B : Type κ} (m : Action S A) (next : Action S B)
      → Keeps P m
      → Keeps P next
      → Keeps P (m >> next)
  unfolding ◌>>◌
  >>-Keeps m next h k = >>=-Keeps m (λ _. next) h (λ _. k)

  resumed-KeepsIfRaised {ℓ κ} :
      {A : Type ℓ} {B : Type κ} (next : A → Action S B)
      → ((a : A) → KeepsIfRaised P (next a))
      → (r : Attempt A × S) (exc : Exception) → (resumed next r).0 ≡ raised exc
      → P r.1
      → P (resumed next r).1
  resumed-KeepsIfRaised next k (returned a, s) exc e p = (k a).at s exc e p
  resumed-KeepsIfRaised next k (raised other, s) exc e p = p

  pub >>=-KeepsIfRaised {ℓ κ} :
      {A : Type ℓ} {B : Type κ} (m : Action S A) (next : A → Action S B)
      → Keeps P m
      → ((a : A) → KeepsIfRaised P (next a))
      → KeepsIfRaised P (m >>= next)
  unfolding ◌>>=◌
  >>=-KeepsIfRaised m next h k = record {
    at = λ s exc e p. resumed-KeepsIfRaised next k (m s) exc e (h.at s p);
  }

  pub >>-KeepsIfRaised {ℓ κ} :
      {A : Type ℓ} {B : Type κ} (m : Action S A) (next : Action S B)
      → Keeps P m
      → KeepsIfRaised P next
      → KeepsIfRaised P (m >> next)
  unfolding ◌>>◌
  >>-KeepsIfRaised m next h k = >>=-KeepsIfRaised m (λ _. next) h (λ _. k)

  pub handled-Keeps :
      (handler : Exception → Action S (Unit {0}))
      → ((exc : Exception) → Keeps P (handler exc))
      → (r : Attempt (Unit {0}) × S) → P r.1
      → P (handled handler r).1
  handled-Keeps handler k (returned a, s) p = p
  handled-Keeps handler k (raised exc, s) p = (k exc).at s p

  pub handle-Keeps :
      (m : Action S (Unit {0})) (handler : Exception → Action S (Unit {0}))
      → Keeps P m
      → ((exc : Exception) → Keeps P (handler exc))
      → Keeps P (handle m handler)
  unfolding handle
  handle-Keeps m handler h k = record { at = λ s p. handled-Keeps handler k (m s) (h.at s p) }

  pub raise_if-Keeps : (b : Bool) (exc : Exception) → Keeps P (raise_if b exc)
  unfolding raise_if
  raise_if-Keeps true exc = record { at = λ s p. p }
  raise_if-Keeps false exc = record { at = λ s p. p }

  pub raise-Keeps {ℓ} : {A : Type ℓ} (exc : Exception) → Keeps P (raise {A = A} exc)
  unfolding raise
  raise-Keeps exc = record { at = λ s p. p }

  pub pure-Keeps {ℓ} : {A : Type ℓ} (a : A) → Keeps P (pure a)
  unfolding pure
  pure-Keeps a = record { at = λ s p. p }

  pub modify-Keeps : (f : S → S) → ((s : S) → P s → P (f s)) → Keeps P (modify f)
  unfolding modify
  modify-Keeps f h = record { at = h }

  -- The last assignment does not raise.
  pub modify-KeepsIfRaised : (f : S → S) → KeepsIfRaised P (modify f)
  unfolding modify
  modify-KeepsIfRaised f = record { at = λ s exc e p. cc }

pub ruleset keeping =
    (>>=-Keeps, >>-Keeps, handle-Keeps, raise_if-Keeps, raise-Keeps, pure-Keeps, modify-Keeps)
