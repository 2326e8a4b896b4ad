-- ===== src/Pipeline/Steps.antt =====
-- What a piece of a run of drishti/pipeline.py leads to, and the order of the stages.
use c_s_cool_stuff.Prelude.{Bool, true, false, ◌≡◌, refl}
use c_s_cool_stuff.Ledger.Platform.{Platform}
use c_s_cool_stuff.Pipeline.Stages.{
  JobStage, queued, ingest, static, ml, genai_static, score_prelim, sandbox_1, frontier, sandbox_2,
  genai_full, score_final, report,
}
use c_s_cool_stuff.Pipeline.Bodies.{Exception, Outcome, returned, raised, Outside, Machine, Body}
use c_s_cool_stuff.Pipeline.Stage.{
  Step, value_of, stage_failed, escaped, State, Pipe, start_stage, fail_stage, complete_stage,
  stage,
}
unfoldable use c_s_cool_stuff.Pipeline.Stage.{start_stage, fail_stage, complete_stage, stage}

-- The stage that may come after a completed one. The frontier comes after the first sandbox pass only where
-- a trace of that pass was found that is evasive, and is passed over only where one was found that is not.
pub data Next (Found : Bool → Type 0) : JobStage → JobStage → Type 0 where
  to_ingest : Next Found queued ingest
  to_static : Next Found ingest static
  to_ml : Next Found static ml
  to_genai_static : Next Found ml genai_static
  to_score_prelim : Next Found genai_static score_prelim
  to_sandbox_1 : Next Found score_prelim sandbox_1
  to_frontier : Found true → Next Found sandbox_1 frontier
  to_sandbox_2 : Next Found frontier sandbox_2
  past_frontier : Found false → Next Found sandbox_1 genai_full
  to_genai_full : Next Found sandbox_2 genai_full
  to_score_final : Next Found genai_full score_final
  to_report : Next Found score_final report

module _ (p : Platform) (o : Outside p) where
  -- What holds after a piece of the run: of its value and the state, of the state after a stage has
  -- failed, of an exception that escapes and the state then.
  unfoldable pub After :
      {A : Type 0}
      → (A → State p o → Type 0)
      → (State p o → Type 0)
      → (Exception → State p o → Type 0)
      → State p o × Step A
      → Type 0
  After P F E (s, value_of a) = P a s
  After P F E (s, stage_failed which) = F s
  After P F E (s, escaped exc) = E exc s

  pub After-bind :
      {A B : Type 0} (P : A → State p o → Type 0) (Q : B → State p o → Type 0)
      (F : State p o → Type 0) (E : Exception → State p o → Type 0) (first : State p o × Step A)
      (next : A → Pipe p o B)
      → After P F E first
      → ((a : A) (s : State p o) → P a s → After Q F E (next a s))
      → After Q F E (elim first.1 [
        | value_of a ↦ next a first.0
        | stage_failed which ↦ (first.0, stage_failed which)
        | escaped exc ↦ (first.0, escaped exc)
      ])
  unfolding After
  After-bind P Q F E (s, value_of a) next h k = k a s h
  After-bind P Q F E (s, stage_failed which) next h k = h
  After-bind P Q F E (s, escaped exc) next h k = h

  pub After-map :
      {A : Type 0} (P Q : A → State p o → Type 0) (F : State p o → Type 0)
      (E : Exception → State p o → Type 0) (end : State p o × Step A)
      → After P F E end
      → ((a : A) (s : State p o) → P a s → Q a s)
      → After Q F E end
  unfolding After
  After-map P Q F E (s, value_of a) h k = k a s h
  After-map P Q F E (s, stage_failed which) h k = h
  After-map P Q F E (s, escaped exc) h k = h

  -- To split on what a body does.
  pub outcome_elim :
      {A R : Type 0} (Q : R → Type 0) (x : Machine p o × Outcome A) (f : Machine p o → A → R)
      (g : Machine p o → Exception → R)
      → ((m : Machine p o) (a : A) → x ≡ (m, returned a) → Q (f m a))
      → ((m : Machine p o) (exc : Exception) → x ≡ (m, raised exc) → Q (g m exc))
      → Q (elim x.1 [ returned a ↦ f x.0 a | raised exc ↦ g x.0 exc ])
  outcome_elim Q (m, returned a) f g h k = h m a refl
  outcome_elim Q (m, raised exc) f g h k = k m exc refl

  -- A stage is settled by what its body does.
  pub stage_elim :
      {A : Type 0} (Q : State p o × Step A → Type 0) (which : JobStage) (body : Body p o A)
      (s : State p o)
      → ((started : State p o) (m : Machine p o) (at : o.Instant) (a : A)
          → body started.machine ≡ (m, returned a)
          → ((w : o.World)
              → started
                ≡ start_stage p o which (record s { machine = record s.machine { world = w } })
              → Q (complete_stage p o which at (record started { machine = m }), value_of a)))
      → ((started : State p o) (m : Machine p o) (at : o.Instant) (exc : Exception)
          → body started.machine ≡ (m, raised exc)
          → ((w : o.World)
              → started
                ≡ start_stage p o which (record s { machine = record s.machine { world = w } })
              → Q (fail_stage p o which at exc (record started { machine = m }))))
      → Q (stage p o which body s)
  unfolding stage
  stage_elim Q which body s h k =
      let clock = o.perf_counter s.machine.world in
      let started =
        start_stage p o which (record s { machine = record s.machine { world = clock.1 } }) in
      outcome_elim Q (body started.machine) _ _ (λ m a e. h started m clock.0 a e clock.1 refl)
        (λ m exc e. k started m clock.0 exc e clock.1 refl)
