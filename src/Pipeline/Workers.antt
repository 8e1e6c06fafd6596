-- ===== src/Pipeline/Workers.antt =====
-- `Map` and `Filter` of examples/patterns/data_pipeline.go: workers that share the consumer group of a
-- stage. A worker is modelled between its calls; `TryRead` of the group is one step of it.
use mpmc_queue.Prelude.{
  ℕ, zero, suc, Bool, true, false, ◌&&◌, Option, none, some, List, [], ◌∷◌, ◌++◌, if◌then◌else◌,
}
use mpmc_queue.Pipeline.Upstream.{Source}

-- Reading with the context, the second loop at its `TryRead` and at its `HasMoreData`, with an item and
-- in `outQ.Enqueue` (in the second loop or not), and the end.
pub data Worker (A : Type 0) : Type 0 where
  receiving : Worker A
  draining : Worker A
  checking : Worker A
  handling : Bool → A → Worker A
  sending : Bool → Worker A
  finished : Worker A

-- What the workers of a stage share. `upstream_over` is that `Done` is closed, `stopped` that the upstream
-- queue is; `sent` is what they passed to `outQ.Enqueue`, which ignores its error.
pub record Shared (S B : Type 0) : Type 0 where
  pub source : S
  pub upstream_over : Bool
  pub stopped : Bool
  pub sent : List B

-- What a worker meets at a step where it may wait: that its context is cancelled, that the stop channel of
-- the queue is closed, and that `outQ.Enqueue` returns.
pub record Moment : Type 0 where
  pub notices : Bool
  pub sees_stop : Bool
  pub returns : Bool

abbrev pub prompt : Moment
prompt = record { notices = true; sees_stop = true; returns = true }

-- A read that finds nothing goes on waiting, or gives nil where the queue has stopped.
abbrev pub received : {A : Type 0} → Bool → Option A → Worker A
received stop none = if stop then draining else receiving
received stop (some a) = handling false a

abbrev pub drained : {A : Type 0} → Option A → Worker A
drained none = checking
drained (some a) = handling true a

-- Where a worker goes on behind an item.
abbrev pub back : {A : Type 0} → Bool → Worker A
back late = if late then draining else receiving

abbrev pub passed_on : {A B : Type 0} → Bool → Option B → Worker A
passed_on late none = back late
passed_on late (some b) = sending late

-- A nil is not forwarded.
abbrev pub forward : {B : Type 0} → Option B → List B → List B
forward none sent = sent
forward (some b) sent = sent ++ b ∷ []

module _ {S A B : Type 0} (src : Source S A) (transform : A → Option B) where
  unfoldable pub worker_step : Moment → Shared S B → Worker A → Shared S B × Worker A
  worker_step m sh receiving =
      if m.notices && sh.upstream_over
      then (sh, draining)
      else let (out, s) = src.try_read sh.source in
        (record sh { source = s }, received (m.sees_stop && sh.stopped) out)
  worker_step m sh draining =
      let (out, s) = src.try_read sh.source in (record sh { source = s }, drained out)
  worker_step m sh checking = (sh, if src.has_more_data sh.source then draining else finished)
  worker_step m sh (handling late a) =
      (record sh { sent = forward (transform a) sh.sent }, passed_on late (transform a))
  worker_step m sh (sending late) = (sh, if m.returns then back late else sending late)
  worker_step m sh finished = (sh, finished)

  -- A step of worker `i`.
  unfoldable pub stage_step :
      ℕ → Moment → Shared S B → List (Worker A) → Shared S B × List (Worker A)
  stage_step i m sh [] = (sh, [])
  stage_step zero m sh (w ∷ ws) = let (sh', w') = worker_step m sh w in (sh', w' ∷ ws)
  stage_step (suc i) m sh (w ∷ ws) = let (sh', ws') = stage_step i m sh ws in (sh', w ∷ ws')

  -- The worker's next `k` steps, none of which waits for what it could meet.
  abbrev pub work : ℕ → Shared S B → Worker A → Shared S B × Worker A
  work zero sh w = (sh, w)
  work (suc k) sh w = let (sh', w') = worker_step prompt sh w in work k sh' w'

-- The function that `Filter` gives `Map`.
abbrev pub keep_if : {A : Type 0} → (A → Bool) → A → Option A
keep_if predicate item = if predicate item then some item else none

-- A worker of `Sink`: in `Read`, with an item for `consume`, and at its end.
pub data SinkWorker (A : Type 0) : Type 0 where
  reading : SinkWorker A
  consuming : A → SinkWorker A
  returned : SinkWorker A

-- `stopped` is that a `Read` that has found nothing sees that the queue is closed.
unfoldable pub sink_step :
    {S A : Type 0} → Source S A → Bool → S × List A → SinkWorker A → (S × List A) × SinkWorker A
sink_step src stopped (s, consumed) reading =
    let (out, s') = src.try_read s in
    (
      (s', consumed),
      elim out [ none ↦ if stopped then returned else reading | some a ↦ consuming a ],
    )
sink_step src stopped (s, consumed) (consuming a) = ((s, consumed ++ a ∷ []), reading)
sink_step src stopped (s, consumed) returned = ((s, consumed), returned)
