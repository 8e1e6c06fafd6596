-- ===== src/Pipeline/Generator.antt =====
-- `Generate` of examples/patterns/data_pipeline.go: a goroutine that publishes on a queue, closes the
-- queue and then closes `Done`; and what a stage that drains the queue then gets of it.
use mpmc_queue.Prelude.{
  ℕ, ◌≡◌, refl, sym, ap, ◌∙◌, Bool, true, Option, List, [], ◌∷◌, Bool-cases, inl, inr, otherwise,
  whenever, if◌then◌else◌,
}
use mpmc_queue.Prelude.Int.{ℤ}
use mpmc_queue.Payload.{Payload}
use mpmc_queue.Errors.{Error}
use mpmc_queue.Waiting.{Outcome, returned, blocked, stuck, Wake}
use mpmc_queue.ConsumerGroup.{ConsumerGroup}
use mpmc_queue.Queue.{Queue}
use mpmc_queue.Queue.Blocking.{enqueue}
use mpmc_queue.Queue.Lifecycle.{close}
use mpmc_queue.Pipeline.Queues.{GroupView, group_source, closed-read}
use mpmc_queue.Pipeline.Workers.{
  Worker, receiving, draining, checking, finished, Shared, prompt, drained, worker_step, work,
}

-- One call of the publisher function: the clock, the item, what others did to the queue before it, and
-- what wakes it while it waits.
pub record Publication : Type 0 where
  pub now : ℤ
  pub item : Payload
  pub meanwhile : Queue → Queue
  pub wakes : List (Wake Queue)

-- How far the goroutine gets: to its end, with the counter, the queue and what the calls returned; or
-- to a call that waits.
pub data Generated : Type 0 where
  done : ℕ → Queue → List (Option Error) → Generated
  publishing : Queue → Generated
  out_of_fuel : Generated

abbrev reported : Option Error → Generated → Generated
reported e (done sequence q es) = done sequence q (e ∷ es)
reported e (publishing q) = publishing q
reported e out_of_fuel = out_of_fuel

-- What `publish` makes of an `Enqueue`: an error is printed, and the generator goes on.
abbrev publish : Outcome Queue (Option Error) → (Queue → Generated) → Generated
publish (returned q e) onward = reported e (onward q)
publish (blocked q) onward = publishing q
publish stuck onward = out_of_fuel

-- `Close` is deferred last, so it runs first: `Done` is closed behind it.
unfoldable pub generate : List Publication → ℕ → Queue → Generated
generate [] sequence q = done sequence (close q) []
generate (p ∷ ps) sequence q =
    let q' = p.meanwhile q in
    let (sequence', outcome) = enqueue p.now sequence q' p.item q' p.wakes in
    publish outcome (generate ps sequence')

-- The group `g` as it reads from a queue.
abbrev pub group_view : Queue → ConsumerGroup → GroupView
group_view q g = record { queue_closed = q.closed; items = q.items; group = g }

close-closed : (q : Queue) → (close q).closed ≡ true
unfolding close
close-closed q = elim (Bool-cases q.closed) [
  | inl e ↦ ap (λ (r : Queue). r.closed) (whenever _ _ e) ∙ e
  | inr e ↦ ap (λ (r : Queue). r.closed) (otherwise _ _ e)
]

-- Whether the queue is closed, where the goroutine has ended.
abbrev closed_at_end : Generated → Bool
closed_at_end (done sequence q es) = q.closed
closed_at_end (publishing q) = true
closed_at_end out_of_fuel = true

reported-closed :
    (e : Option Error) (r : Generated) → closed_at_end (reported e r) ≡ closed_at_end r
reported-closed e (done sequence q es) = refl
reported-closed e (publishing q) = refl
reported-closed e out_of_fuel = refl

publish-closed :
    (o : Outcome Queue (Option Error)) (onward : Queue → Generated)
    → ((q : Queue) → closed_at_end (onward q) ≡ true)
    → closed_at_end (publish o onward) ≡ true
publish-closed (returned q e) onward h = reported-closed e (onward q) ∙ h q
publish-closed (blocked q) onward h = refl
publish-closed stuck onward h = refl

generate-closed :
    (ps : List Publication) (sequence : ℕ) (q : Queue)
    → closed_at_end (generate ps sequence q) ≡ true
unfolding generate
generate-closed [] sequence q = close-closed q
generate-closed (p ∷ ps) sequence q =
    let q' = p.meanwhile q in
    let (sequence', outcome) = enqueue p.now sequence q' p.item q' p.wakes in
    publish-closed outcome (generate ps sequence') (λ r. generate-closed ps sequence' r)

receive-noticed :
    {B : Type 0} (transform : Payload → Option B) (sh : Shared GroupView B)
    → sh.upstream_over ≡ true
    → worker_step group_source transform prompt sh receiving ≡ (sh, draining)
unfolding worker_step
receive-noticed transform sh h = whenever _ _ h

drain-closed :
    {B : Type 0} (transform : Payload → Option B) (sh : Shared GroupView B)
    → sh.source.queue_closed ≡ true
    → worker_step group_source transform prompt sh draining ≡ (sh, checking)
unfolding worker_step
drain-closed transform sh h =
    ap (λ (r : Option Payload × GroupView). (record sh { source = r.1 }, drained r.0))
      (closed-read sh.source h).0

check-closed :
    {B : Type 0} (transform : Payload → Option B) (sh : Shared GroupView B)
    → sh.source.queue_closed ≡ true
    → worker_step group_source transform prompt sh checking ≡ (sh, finished)
unfolding worker_step
check-closed transform sh h =
    ap (λ more. (sh, if more then draining else finished)) (closed-read sh.source h).1

-- Whatever Generate published, and whatever others did to its queue meanwhile: where it has come
-- to its end, a worker of Map that is about to read from a group of that queue ends after three
-- steps and has forwarded nothing, whatever the group had not read.
pub generate-Lost :
    {B : Type 0} (ps : List Publication) (sequence sequence' : ℕ) (q q' : Queue)
    (es : List (Option Error)) (g : ConsumerGroup) (transform : Payload → Option B) (sent : List B)
    → generate ps sequence q ≡ done sequence' q' es
    → let sh : Shared GroupView B = record {
      source = group_view q' g;
      upstream_over = true;
      stopped = true;
      sent = sent;
    } in
      work group_source transform 3 sh receiving ≡ (sh, finished)
generate-Lost ps sequence sequence' q q' es g transform sent ended =
    let shut : q'.closed ≡ true = ap closed_at_end (sym ended) ∙ generate-closed ps sequence q in
    let sh : Shared GroupView _ = record {
      source = group_view q' g;
      upstream_over = true;
      stopped = true;
      sent = sent;
    } in
    let onward =
      λ (k : ℕ) (r : Shared GroupView _ × Worker Payload). work group_source transform k r.0 r.1 in
    ap (onward 2) (receive-noticed transform sh refl)
    ∙ ap (onward 1) (drain-closed transform sh shut)
    ∙ ap (onward 0) (check-closed transform sh shut)
