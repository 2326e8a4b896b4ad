-- ===== src/JobRunner/Queues.antt =====
-- The queues of drishti/api/jobs.py, when several workers publish at once.
use c_s_cool_stuff.Prelude.{
  append-nil, append_assoc, String, true, false, some, List, [], ◌∷◌, ◌++◌, ◌≡◌, refl, sym, subst,
  if-elim, ◌∙◌, arith, str_eq, eq_iff, Bool-cases, inl, inr, if◌then◌else◌, Option-cases,
}
use c_s_cool_stuff.Pipeline.Stages.{StageEvent}
use c_s_cool_stuff.JobRunner.{
  Item, event, sentinel, look_up, assign, read_queue, Runner, stream, put_item, publish,
  publish_all,
}
unfoldable use c_s_cool_stuff.JobRunner.{
  look_up, assign, read_queue, stream, put_item, publish, publish_all,
}

module _ {ℓ} {A : Type ℓ} where
  pub look_up-assign :
      (k : String) (v : A) (d : List (String × A)) → look_up k (assign k v d) ≡ some v
  unfolding look_up assign
  look_up-assign k v [] = ground (arith, (eq_iff k k).1 refl)
  look_up-assign k v ((key, w) ∷ d) = ground (arith, look_up-assign k v d)

  pub look_up-assign_ne :
      (j k : String) (v : A) (d : List (String × A))
      → str_eq j k ≡ false
      → look_up k (assign j v d) ≡ look_up k d
  unfolding look_up assign
  look_up-assign_ne j k v [] h = ground (arith, h)
  look_up-assign_ne j k v ((key, w) ∷ d) h =
      if-elim (λ e. look_up k e ≡ look_up k ((key, w) ∷ d)) (str_eq key j) _ _
        (λ e.
          let f : str_eq key k ≡ false =
            subst (λ x. str_eq x k ≡ false) (sym ((eq_iff key j).0 e)) h in
          ground (arith, f))
        (λ e. ground (arith, look_up-assign_ne j k v d h))

-- The items that the calls put on the queue of one job
unfoldable pub items_of : String → List (String × Item) → List Item
items_of id [] = []
items_of id ((job, item) ∷ calls) =
    let rest = items_of id calls in if str_eq job id then item ∷ rest else rest

pub put_item-same :
    (id : String) (item : Item) (queues : List (String × List Item)) (q : List Item)
    → look_up id queues ≡ some q
    → look_up id (put_item id item queues) ≡ some (q ++ item ∷ [])
unfolding put_item
put_item-same id item queues q h = rw (h, put_item) (look_up-assign id (q ++ item ∷ []) queues)

put_item-other :
    (job id : String) (item : Item) (queues : List (String × List Item))
    → str_eq job id ≡ false
    → look_up id (put_item job item queues) ≡ look_up id queues
unfolding put_item
put_item-other job id item queues h = elim (Option-cases (look_up job queues)) [
  | inl missing ↦ rw (missing, put_item) refl
  | inr (items, found) ↦
      rw (found, put_item) (look_up-assign_ne job id (items ++ item ∷ []) queues h)
]

module _ (CompositeScore : Type 0) where
  -- Whatever is published for other jobs in between, a queue receives the items of its own job, in the
  -- order in which they were published.
  pub publish_all-queue :
      (id : String) (calls : List (String × Item)) (r : Runner CompositeScore) (q : List Item)
      → look_up id r.queues ≡ some q
      → look_up id (publish_all CompositeScore r calls).queues ≡ some (q ++ items_of id calls)
  unfolding publish_all publish items_of
  publish_all-queue id [] r q h = rw (append-nil q) h
  publish_all-queue id ((job, item) ∷ calls) r q h = elim (Bool-cases (str_eq job id)) [
    | inl mine ↦
        let same : job ≡ id = (eq_iff job id).0 mine in
        let after =
          publish_all-queue id calls (publish CompositeScore r (job, item)) (q ++ item ∷ []) (
            subst (λ k. look_up id (put_item k item r.queues) ≡ some (q ++ item ∷ [])) (sym same)
              (put_item-same id item r.queues q h)) in
        ground (arith, after, append_assoc q (item ∷ []) (items_of id calls))
    | inr other ↦
        let after =
          publish_all-queue id calls (publish CompositeScore r (job, item)) q
            (put_item-other job id item r.queues other ∙ h) in
        ground (arith, after)
  ]

-- The reader yields the events before the first sentinel.
unfoldable pub events_then_sentinel : List StageEvent → List Item
events_then_sentinel [] = sentinel ∷ []
events_then_sentinel (e ∷ es) = event e ∷ events_then_sentinel es

pub read_queue-events :
    (es : List StageEvent)
    → read_queue (events_then_sentinel es) ≡ record { events = es; saw_sentinel = true }
unfolding read_queue events_then_sentinel
read_queue-events [] = refl
read_queue-events (e ∷ es) = rw (read_queue-events es) refl

-- If a job has an empty queue and, among any calls of `_publish` of any workers in any order, those of
-- the job are its events and then the sentinel, then `stream` of it yields exactly these events in their
-- order, and ends at the sentinel.
pub stream-publish_all :
    (CompositeScore : Type 0) (id : String) (calls : List (String × Item)) (es : List StageEvent)
    (r : Runner CompositeScore)
    → look_up id r.queues ≡ some []
    → items_of id calls ≡ events_then_sentinel es
    → stream CompositeScore (publish_all CompositeScore r calls) id
      ≡ record { events = es; saw_sentinel = true }
unfolding stream
stream-publish_all CompositeScore id calls es r h own =
    rw (publish_all-queue CompositeScore id calls r [] h, stream) (rw own (read_queue-events es))
