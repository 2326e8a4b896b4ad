-- ===== src/Pipeline/History.antt =====
-- The histories of a run of drishti/pipeline.py, as the stages and the statuses of their events.
use c_s_cool_stuff.Prelude.{String, Bool, Option, none, some, List, [], ◌∷◌, ◌++◌, ◌≡◌, refl, ap}
use c_s_cool_stuff.Pipeline.Stages.{JobStage, StageEvent, queued, report, done, failed}
use c_s_cool_stuff.Pipeline.Steps.{Next}

abbrev pub mark : StageEvent → JobStage × String
mark e = (e.stage, e.status)

abbrev pub marks : List StageEvent → List (JobStage × String)
marks [] = []
marks (e ∷ es) = mark e ∷ marks es

pub marks-snoc :
    (es : List StageEvent) (e : StageEvent) → marks (es ++ e ∷ []) ≡ marks es ++ mark e ∷ []
marks-snoc [] e = refl
marks-snoc (x ∷ es) e = ap (λ rest. mark x ∷ rest) (marks-snoc es e)

-- The stages completed so far, in an order that `Next` allows, each started before it is completed.
pub data Progress (Found : Bool → Type 0) : List (JobStage × String) → JobStage → Type 0 where
  begun : Progress Found [] queued
  passed :
      {h : List (JobStage × String)} {t which : JobStage}
      → Progress Found h t
      → Next Found t which
      → Progress Found ((h ++ (which, "started") ∷ []) ++ (which, "completed") ∷ []) which

-- A run that has ended: every stage up to the report is completed, or one was started and failed.
pub data Ended (Found : Bool → Type 0) : List (JobStage × String) → JobStage → Type 0 where
  finished : {h : List (JobStage × String)} → Progress Found h report → Ended Found h done
  broken_off :
      {h : List (JobStage × String)} {t which : JobStage}
      → Progress Found h t
      → Next Found t which
      → Ended Found ((h ++ (which, "started") ∷ []) ++ (which, "failed") ∷ []) failed

-- `on_event` has been called with each event of the history, in its order.
abbrev pub Matches : Option (List StageEvent) → List StageEvent → Type 0
Matches none history = Unit
Matches (some events) history = events ≡ history

pub Matches-snoc :
    (emitted : Option (List StageEvent)) (history : List StageEvent) (e : StageEvent)
    → Matches emitted history
    → Matches
        (elim emitted [ none ↦ none | some events ↦ some (events ++ e ∷ []) ])
        (history ++ e ∷ [])
Matches-snoc none history e h = tt
Matches-snoc (some events) history e h = ap (λ es. es ++ e ∷ []) h
