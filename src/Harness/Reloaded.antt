-- ===== src/Harness/Reloaded.antt =====
-- The clean up of `DynamicHarness.run` loads the snapshot again, unless the uninstall raises.
use c_s_cool_stuff.Prelude.{
  ◌≡◌, refl, ◌∙◌, ◌⊎◌, inl, inr, true, Option, none, some, List, [], ◌∷◌, ◌++◌, Codes,
}
use c_s_cool_stuff.Harness.Guest.{
  Attempt, returned, raised, Exception, CompletedProcess, HarnessConfig, uninstall, Lab, Entry, ran,
  State, Action, resumed, finished, finally, pure, ◌>>=◌, ◌>>◌, handle, run_command, outside,
}
use c_s_cool_stuff.Harness.Steps.{load_verified_manifest}
use c_s_cool_stuff.Harness.Run.{
  uninstall_given, get_package, restore_after, restore_failed, clean_up, sealed_run, admit, start,
  run, get_state, recorded, admitted_run,
}
use c_s_cool_stuff.Harness.Keeps.{Keeps, >>-Keeps, >>=-Keeps, raise_if-Keeps, pure-Keeps}
use c_s_cool_stuff.Harness.Reloads.{is_reloaded, Reloaded, restored-Reloaded}

module _ (lab : Lab) where
  abbrev uninstall_exception : Entry lab → Option Exception
  uninstall_exception (ran (uninstall name) (raised exc)) = some exc
  uninstall_exception _ = none

  abbrev pub last_from : Option Exception → List (Entry lab) → Option Exception
  last_from last [] = last
  last_from last (e ∷ es) = last_from (uninstall_exception e) es

  -- The exception of the last command, if that was an uninstall and raised.
  abbrev pub last_uninstall : List (Entry lab) → Option Exception
  last_uninstall = last_from none

  last_from-snoc :
      (last : Option Exception) (es : List (Entry lab)) (e : Entry lab)
      → last_from last (es ++ e ∷ []) ≡ uninstall_exception e
  last_from-snoc last [] e = refl
  last_from-snoc last (x ∷ es) e = last_from-snoc (uninstall_exception x) es e

  -- The snapshot was loaded after the last install, or the uninstall raised what the step raises.
  abbrev pub Cleaned {ℓ} : {A : Type ℓ} → Attempt A × State lab → Type ℓ
  Cleaned {A} (a, s) =
      (is_reloaded lab s.log ≡ true)
      ⊎ ((exc : Exception) × (last_uninstall s.log ≡ some exc) × (a ≡ raised exc))

  abbrev done : CompletedProcess → Action (State lab) (Unit {0})
  done result = pure tt

  uninstalled-last :
      (name : Codes) (s : State lab) (r : Attempt CompletedProcess) (w : lab.World)
      (exc : Exception)
      → let s' = record s { world = w; log = s.log ++ ran (uninstall name) r ∷ [] } in
        (resumed done (r, s')).0 ≡ raised exc
        → last_uninstall (resumed done (r, s')).1.log ≡ some exc
  unfolding pure
  uninstalled-last name s (returned result) w exc e = cc
  uninstalled-last name s (raised other) w exc e = last_from-snoc none s.log _ ∙ cc

  uninstall_given-last :
      (config : HarnessConfig) (name : Option Codes) (s : State lab) (exc : Exception)
      → (uninstall_given lab config name s).0 ≡ raised exc
      → last_uninstall (uninstall_given lab config name s).1.log ≡ some exc
  unfolding uninstall_given run_command ◌>>◌ ◌>>=◌ pure
  uninstall_given-last config none s exc e = cc
  uninstall_given-last config (some []) s exc e = cc
  uninstall_given-last config (some (c ∷ name)) s exc e = uninstalled-last (c ∷ name) s _ _ exc e

  uninstalled-Cleaned :
      (config : HarnessConfig) (r : Attempt (Unit {0}) × State lab)
      → ((exc : Exception) → r.0 ≡ raised exc → last_uninstall r.1.log ≡ some exc)
      → Cleaned (resumed (λ _. handle (restore_after lab config) (restore_failed lab)) r)
  uninstalled-Cleaned config (returned x, s) h = inl (restored-Reloaded lab config s)
  uninstalled-Cleaned config (raised exc, s) h = inr (exc, h exc refl, refl)

  clean_up-Cleaned : (config : HarnessConfig) (s : State lab) → Cleaned (clean_up lab config s)
  unfolding clean_up get_package ◌>>◌ ◌>>=◌
  clean_up-Cleaned config s =
      uninstalled-Cleaned config (uninstall_given lab config s.apk_package s)
        (uninstall_given-last config s.apk_package s)

  finished-Cleaned :
      (a : Attempt (Unit {0})) (r : Attempt (Unit {0}) × State lab)
      → Cleaned r
      → Cleaned (finished a r)
  finished-Cleaned a (returned x, s) (inl h) = inl h
  finished-Cleaned a (returned x, s) (inr (exc, e, e')) = cc
  finished-Cleaned a (raised other, s) h = h

  sealed_run-Cleaned : (config : HarnessConfig) (s : State lab) → Cleaned (sealed_run lab config s)
  unfolding sealed_run finally
  sealed_run-Cleaned config s = finished-Cleaned _ _ (clean_up-Cleaned config _)

  recorded-Keeps :
      (config : HarnessConfig) (image manifest_sha : Codes)
      → Keeps (Reloaded lab) (recorded lab config image manifest_sha)
  unfolding recorded outside get_state
  recorded-Keeps config image manifest_sha =
      >>=-Keeps _ _ (record { at = λ s p. p })
        λ digest.
          >>=-Keeps _ _ (record { at = λ s p. p })
            λ s. >>-Keeps _ _ (record { at = λ s p. p }) (pure-Keeps _)

  recorded-Cleaned :
      (config : HarnessConfig) (image manifest_sha : Codes) (r : Attempt (Unit {0}) × State lab)
      → Cleaned r
      → Cleaned (resumed (λ _. recorded lab config image manifest_sha) r)
  recorded-Cleaned config image sha (returned x, s) (inl h) =
      inl ((recorded-Keeps config image sha).at s h)
  recorded-Cleaned config image sha (returned x, s) (inr (exc, e, e')) = cc
  recorded-Cleaned config image sha (raised other, s) (inl h) = inl h
  recorded-Cleaned config image sha (raised other, s) (inr (exc, e, e')) = inr (exc, e, cc)

  -- Nothing was run, and the step raises.
  abbrev pub Refused {ℓ} : {A : Type ℓ} → Attempt A × State lab → Type ℓ
  Refused (a, s) = (exc : Exception) × (a ≡ raised exc) × (s.log ≡ [])

  admit-Keeps : Keeps (λ s. s.log ≡ []) (admit lab)
  unfolding admit load_verified_manifest outside
  admit-Keeps =
      >>=-Keeps _ _ (record { at = λ s p. p })
        λ image.
          >>=-Keeps _ _ (record { at = λ s p. p })
            λ verified. >>-Keeps _ _ (raise_if-Keeps _ _) (pure-Keeps _)

  admitted-Cleaned :
      (config : HarnessConfig) (r : Attempt (Codes × Codes) × State lab)
      → r.1.log ≡ []
      → let r' = resumed (λ admitted. admitted_run lab config admitted.0 admitted.1) r in
        Refused r' ⊎ Cleaned r'
  unfolding admitted_run ◌>>◌ ◌>>=◌
  admitted-Cleaned config (returned (image, sha), s) h =
      inr
        (recorded-Cleaned config image sha (sealed_run lab config s) (sealed_run-Cleaned config s))
  admitted-Cleaned config (raised exc, s) h = inl (exc, refl, h)

  -- Whatever the tools do, a run that is refused admission runs nothing and raises; of any other one, a
  -- load of the snapshot was started after the last install, or the last thing run was an uninstall
  -- that raised, and its exception leaves `run`.
  pub run-Cleaned :
      (config : HarnessConfig) (w : lab.World)
      → let r = run lab config (start lab w) in Refused r ⊎ Cleaned r
  unfolding run ◌>>=◌ start
  run-Cleaned config w =
      admitted-Cleaned config (admit lab (start lab w)) (admit-Keeps.at (start lab w) refl)
