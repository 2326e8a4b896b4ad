-- ===== src/Pipeline/Walk.antt =====
-- How a property of the run goes through the stages of drishti/pipeline.py, one stage after another.
use c_s_cool_stuff.Prelude.{Bool, false, arith, ap, ◌∙◌, some, [], ◌≡◌, if-elim, ◌⊎◌, inl, inr}
use c_s_cool_stuff.Ledger.Platform.{Platform}
use c_s_cool_stuff.Pipeline.Stages.{
  JobStage, Job, queued, ingest, static, ml, genai_static, score_prelim, sandbox_1, frontier,
  sandbox_2, genai_full, score_final, report,
}
use c_s_cool_stuff.Pipeline.Bodies.{
  Exception, Outcome, returned, raised, Outside, Machine, Artefacts, Body, record_artefact,
  append_node,
}
use c_s_cool_stuff.Pipeline.Stage.{
  stage_failed, escaped, State, Pipe, with_stage, fail_stage, stage, note_failure, error_content,
}
use c_s_cool_stuff.Pipeline.{
  SandboxPlan, StageBodies, keeping, record_report, put_ingest, put_static, put_ml, put_genai,
  put_score, put_dynamic, is_evasive, second_pass, adapt, walk_stages,
}
use c_s_cool_stuff.Pipeline.Bodies
use c_s_cool_stuff.Ledger.Evidence
unfoldable use c_s_cool_stuff.Pipeline.Stage.{fail_stage, stage}
unfoldable use c_s_cool_stuff.Pipeline.{keeping, second_pass, adapt, walk_stages}
use c_s_cool_stuff.Pipeline.Steps.{
  Next, to_ingest, to_static, to_ml, to_genai_static, to_score_prelim, to_sandbox_1, to_frontier,
  to_sandbox_2, past_frontier, to_genai_full, to_score_final, to_report, After, After-bind,
  After-map, outcome_elim, stage_elim,
}
unfoldable use c_s_cool_stuff.Pipeline.Steps.{After}

module _ (p : Platform) (o : Outside p) where
  -- The body has returned the value, from some machine.
  abbrev pub Made : (A : Type 0) → Body p o A → A → Type 0
  Made A body a = (m : Machine p o) × (m' : Machine p o) × (body m ≡ (m', returned a))

  -- The plan of the first pass
  abbrev pub plan_1 : StageBodies p o → SandboxPlan p o
  plan_1 b = record { duration_s = b.sandbox_duration_s; morphs = []; pass_num = 1 }

  -- The first sandbox pass of a job has returned a trace that is evasive, or one that is not.
  abbrev pub TraceFound : StageBodies p o → Job o.CompositeScore → Bool → Type 0
  TraceFound b job evasive =
      (t : o.DynamicTrace) × Made o.DynamicTrace (b.sandbox sandbox_1 job.sha256 (plan_1 b)) t
      × (is_evasive p o t ≡ evasive)

  keeping-Made :
      (A : Type 0) (put : A → Artefacts p o → Artefacts p o) (body : Body p o A)
      (m m' : Machine p o) (a : A)
      → keeping p o put body m ≡ (m', returned a)
      → Made A body a
  unfolding keeping
  keeping-Made A put body m m' a h =
      outcome_elim p o (λ out. out ≡ (m', returned a) → Made A body a) (body m)
        (λ m1 x. (record m1 { artefacts = put x m1.artefacts }, returned x))
        (λ m1 exc. (m1, raised exc))
        (λ m1 x e same.
          let value : x ≡ a = ground (arith, same) in (m, m1, e ∙ ap (λ v. (m1, returned v)) value))
        (λ m1 exc e same. ground (arith, same)) h

  fail_stage-After :
      (A : Type 0) (P Q : A → State p o → Type 0) (F : State p o → Type 0)
      (E : Exception → State p o → Type 0) (which : JobStage) (at : o.Instant) (exc : Exception)
      (s : State p o)
      → After p o P F E (fail_stage p o which at exc s)
      → After p o Q F E (fail_stage p o which at exc s)
  unfolding fail_stage After
  fail_stage-After A P Q F E which at exc s h =
      let clock = o.perf_counter s.machine.world in
      outcome_elim p o (λ end. After p o {A = A} P F E end → After p o {A = A} Q F E end)
        (append_node p o Evidence.error "pipeline" (error_content p o which exc) o.one
          (record s.machine { world = clock.1 }))
        (λ machine node. (
          note_failure p o which (o.elapsed_ms clock.0 at) exc node
              (record s { machine = machine }),
          stage_failed which,
        ))
        (λ machine other. (record s { machine = machine }, escaped other))
        (λ machine node same k. k) (λ machine other same k. k) h

  After-Made :
      (A : Type 0) (P : A → State p o → Type 0) (F : State p o → Type 0)
      (E : Exception → State p o → Type 0) (which : JobStage)
      (put : A → Artefacts p o → Artefacts p o) (body : Body p o A) (s : State p o)
      → After p o P F E (stage p o which (keeping p o put body) s)
      → After p o (λ a s'. P a s' × Made A body a) F E (stage p o which (keeping p o put body) s)
  unfolding After
  After-Made A P F E which put body s h =
      stage_elim p o
        (λ end. After p o P F E end → After p o (λ a s'. P a s' × Made A body a) F E end) which
        (keeping p o put body) s
        (λ started m at a same w e k. (k, keeping-Made A put body started.machine m a same))
        (λ started m at exc same w e k.
          fail_stage-After A P (λ a s'. P a s' × Made A body a) F E which at exc
            (record started { machine = m }) k)
        h

  module _ (B : (A : Type 0) → JobStage → Body p o A → Type 0) where
    -- What is asked of the body of each stage.
    pub record BodiesMeet (b : StageBodies p o) (job : Job o.CompositeScore) : Type 0 where
      pub of_ingest : B _ ingest (b.ingest_file job.sha256 job.filename)
      pub of_static : (meta : o.FileMeta) → B _ static (b.static_analysis meta)
      pub of_ml : (r : o.StaticReport) → B _ ml (b.ml_prediction r)
      pub of_genai :
          (r : o.StaticReport)
          → B _ genai_static (Bodies.◌>>=◌ p o (b.genai_verdict r job.sha256) b.with_impersonation)
      pub of_prelim : B _ score_prelim (b.score_stage score_prelim)
      pub of_sandbox_1 :
          (plan : SandboxPlan p o) → B _ sandbox_1 (b.sandbox sandbox_1 job.sha256 plan)
      pub of_frontier : (t : o.DynamicTrace) → B _ frontier (b.frontier_morphs t job.id)
      pub of_sandbox_2 :
          (plan : SandboxPlan p o) → B _ sandbox_2 (b.sandbox sandbox_2 job.sha256 plan)
      pub of_genai_full : B _ genai_full (b.genai_again job.sha256)
      pub of_final : B _ score_final (b.score_stage score_final)

    module _ (I : JobStage → State p o → Type 0) (F : State p o → Type 0)
        (E : Exception → State p o → Type 0) where
      -- A property that every stage carries on, and both updates of the scores.
      pub record Carried (Found : Bool → Type 0) : Type 1 where
        pub keeps :
            {A : Type 0} (which : JobStage) (put : A → Artefacts p o → Artefacts p o)
            (body : Body p o A)
            → B _ which body
            → B _ which (keeping p o put body)
        pub carries :
            {A : Type 0} (t which : JobStage) (body : Body p o A) (s : State p o)
            → Next Found t which
            → B _ which body
            → I t s
            → After p o {A = A} (λ _. I which) F E (stage p o which body s)
        pub updates_prelim :
            (x : o.CompositeScore) (s : State p o)
            → I score_prelim s
            → I score_prelim
                (with_stage p o score_prelim (λ j. record j { preliminary = some x }) s)
        pub updates_final :
            (x : o.CompositeScore) (s : State p o)
            → I score_final s
            → I score_final (with_stage p o score_final (λ j. record j { final = some x }) s)

      -- After p o the first pass with a trace that is not evasive, or after the second pass
      abbrev Either : StageBodies p o → Job o.CompositeScore → {A : Type 0} → A → State p o → Type 0
      Either b job _ s = (I sandbox_1 s × TraceFound b job false) ⊎ I sandbox_2 s

      adapt-After :
          (b : StageBodies p o) (job : Job o.CompositeScore) (c : Carried (TraceFound b job))
          (t : o.DynamicTrace) (s : State p o)
          → BodiesMeet b job
          → I sandbox_1 s
          → Made o.DynamicTrace (b.sandbox sandbox_1 job.sha256 (plan_1 b)) t
          → After p o (Either b job) F E (adapt p o b job t s)
      unfolding adapt second_pass After
      adapt-After b job c t s h i made =
          if-elim {A = Pipe p o o.DynamicTrace} (λ run. After p o (Either b job) F E (run s))
            (is_evasive p o t) _ _
            (λ evasive.
              After-bind p o _ (Either b job) F E _ _
                (c.carries sandbox_1 frontier _ s (to_frontier (t, made, evasive)) (h.of_frontier t)
                  i)
                (λ morphs s' i'.
                  After-map p o _ (Either b job) F E _
                    (c.carries frontier sandbox_2 _ s' to_sandbox_2
                      (c.keeps sandbox_2 (put_dynamic p o) _ (
                        h.of_sandbox_2 (record {
                          duration_s = b.sandbox_duration_s;
                          morphs = morphs;
                          pass_num = 2;
                        })))
                      i')
                    (λ _ s'' i''. inr i'')))
            (λ calm. inl (i, (t, made, calm)))

      into_genai_full :
          (b : StageBodies p o) (job : Job o.CompositeScore) (c : Carried (TraceFound b job))
          (s : State p o)
          → BodiesMeet b job
          → (I sandbox_1 s × TraceFound b job false) ⊎ I sandbox_2 s
          → After p o
              (λ _. I genai_full)
              F
              E
              (stage p o genai_full (keeping p o (put_genai p o) (b.genai_again job.sha256)) s)
      into_genai_full b job c s h (inl (i, found)) =
          c.carries sandbox_1 genai_full _ s (past_frontier found)
            (c.keeps genai_full (put_genai p o) _ h.of_genai_full) i
      into_genai_full b job c s h (inr i) =
          c.carries sandbox_2 genai_full _ s to_genai_full
            (c.keeps genai_full (put_genai p o) _ h.of_genai_full) i

      sandbox_1-After :
          (b : StageBodies p o) (job : Job o.CompositeScore) (c : Carried (TraceFound b job))
          (s : State p o)
          → BodiesMeet b job
          → I score_prelim s
          → After p o
              (λ t s'.
                I sandbox_1 s' × Made o.DynamicTrace (b.sandbox sandbox_1 job.sha256 (plan_1 b)) t)
              F
              E
              (stage p o sandbox_1
                (keeping p o (put_dynamic p o) (b.sandbox sandbox_1 job.sha256 (plan_1 b)))
                s)
      sandbox_1-After b job c s h i =
          After-Made o.DynamicTrace (λ _. I sandbox_1) F E sandbox_1 (put_dynamic p o)
            (b.sandbox sandbox_1 job.sha256 (plan_1 b)) s
            (c.carries score_prelim sandbox_1
              (keeping p o (put_dynamic p o) (b.sandbox sandbox_1 job.sha256 (plan_1 b))) s
              to_sandbox_1
              (c.keeps sandbox_1 (put_dynamic p o) (b.sandbox sandbox_1 job.sha256 (plan_1 b))
                (h.of_sandbox_1 (plan_1 b)))
              i)

      pub walk_stages-After :
          (b : StageBodies p o) (job : Job o.CompositeScore) (c : Carried (TraceFound b job))
          (s : State p o)
          → BodiesMeet b job
          → B _ report (record_report p o job.sha256)
          → I queued s
          → After p o (λ _. I report) F E (walk_stages p o b job s)
      unfolding walk_stages
      walk_stages-After b job c s h last i =
          After-bind p o _ _ F E _ _
            (c.carries queued ingest _ s to_ingest (c.keeps ingest (put_ingest p o) _ h.of_ingest)
              i)
            λ meta s1 i1.
              After-bind p o _ _ F E _ _
                (c.carries ingest static _ s1 to_static
                  (c.keeps static (put_static p o) _ (h.of_static meta)) i1)
                λ r s2 i2.
                  After-bind p o _ _ F E _ _
                    (c.carries static ml _ s2 to_ml (c.keeps ml (put_ml p o) _ (h.of_ml r)) i2)
                    λ _ s3 i3.
                      After-bind p o _ _ F E _ _
                        (c.carries ml genai_static _ s3 to_genai_static
                          (c.keeps genai_static (put_genai p o) _ (h.of_genai r)) i3)
                        λ _ s4 i4.
                          After-bind p o _ _ F E _ _
                            (c.carries genai_static score_prelim _ s4 to_score_prelim
                              (c.keeps score_prelim (put_score p o) _ h.of_prelim) i4)
                            λ x s5 i5.
                              After-bind p o _ _ F E _ _
                                (sandbox_1-After b job c
                                  (with_stage p o score_prelim
                                    (λ j. record j { preliminary = some x }) s5)
                                  h (c.updates_prelim x s5 i5))
                                λ t s6 (i6, made).
                                  After-bind p o (Either b job) _ F E _ _
                                    (adapt-After b job c t s6 h i6 made)
                                    λ _ s7 i7.
                                      After-bind p o _ _ F E _ _ (into_genai_full b job c s7 h i7)
                                        λ _ s8 i8.
                                          After-bind p o _ _ F E _ _
                                            (c.carries genai_full score_final _ s8 to_score_final
                                              (c.keeps score_final (put_score p o) _ h.of_final) i8)
                                            λ x s9 i9.
                                              c.carries score_final report _ _ to_report last
                                                (c.updates_final x s9 i9)
