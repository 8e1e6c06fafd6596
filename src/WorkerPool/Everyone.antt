-- ===== src/WorkerPool/Everyone.antt =====
-- The workers of the pool of examples/patterns/worker_pool.go together: each reads with a consumer of its own.
use mpmc_queue.Prelude.{
  ℕ, suc, ◌+◌, ◌*◌, ◌≤◌, ◌≡◌, refl, sym, ap, subst, ◌∙◌, inl, inr, true, false, Option, none, some,
  List, [], ◌∷◌, map, length, update_self, arith, Bool-cases, whenever, otherwise, ◌==◌,
  if◌then◌else◌,
}
use mpmc_queue.Prelude.Int.{ℤ}
use mpmc_queue.Payload.{Payload}
use mpmc_queue.ChunkedList.{ChunkedList}
use mpmc_queue.Consumer
use mpmc_queue.Consumer.{Consumer}
use mpmc_queue.Pipeline.Queues.{
  consumer_source, consumer_read, consumer_source-SourceLaws, IsOpenSource, before_consumer,
}
use mpmc_queue.WorkerPool.{
  Loop, fetching, asking, working, stopped, loop_step, loop_steps, Pool, pool_step, pool_steps,
}
use mpmc_queue.WorkerPool.Results.{loop_steps-Enough}
use mpmc_queue.Data.{QueueData}

-- How many of the steps are those of worker `k`.
abbrev pub turns : ℕ → List ℕ → ℕ
turns k [] = 0
turns k (j ∷ js) = if k == j then suc (turns k js) else turns k js

module _ {B : Type 0} (now : ℤ) (process : ℕ → Payload → B) where
  -- A worker as it stands alone before the queue.
  abbrev facing :
      ChunkedList
      → (Consumer × List B) × Loop Payload
      → ((ChunkedList × Consumer) × List B) × Loop Payload
  facing items ((c, out), where_) = (((items, c), out), where_)

  abbrev alone : Pool B → ℕ → ((ChunkedList × Consumer) × List B) × Loop Payload
  alone p k = facing p.items (p.workers k)

  consumer_read-items :
      (cl : ChunkedList) (c : Consumer) (o : Option (Option QueueData × Consumer))
      → (consumer_read cl c o).1.0 ≡ cl
  consumer_read-items cl c none = refl
  consumer_read-items cl c (some r) = refl

  -- Reading leaves the queue as it is.
  loop_step-items :
      (k : ℕ) (cl : ChunkedList) (c : Consumer) (out : List B) (where_ : Loop Payload)
      → (loop_step (consumer_source now) (process k) false ((cl, c), out) where_).0.0.0 ≡ cl
  unfolding loop_step
  loop_step-items k cl c out fetching = consumer_read-items cl c (Consumer.try_read now cl c)
  loop_step-items k cl c out asking = refl
  loop_step-items k cl c out (working a) = refl
  loop_step-items k cl c out stopped = refl

  pool_step-items : (j : ℕ) (p : Pool B) → (pool_step now process j p).items ≡ p.items
  unfolding pool_step
  pool_step-items j p =
      let ((c, out), where_) = p.workers j in loop_step-items j p.items c out where_

  -- What a step of the pool is for the worker that takes it, and for another.
  own_step :
      (k j : ℕ) (p : Pool B)
      → k == j ≡ true
      → let r = alone p k in
        alone (pool_step now process j p) k
        ≡ loop_step (consumer_source now) (process k) false r.0 r.1
  unfolding pool_step
  own_step k j p same =
      let this : k ≡ j = ground arith in
      subst
        (λ i.
          alone (pool_step now process i p) k
          ≡ loop_step (consumer_source now) (process k) false (alone p k).0 (alone p k).1)
        this (ap (facing (pool_step now process k p).items) (update_self p.workers k _))

  other_step :
      (k j : ℕ) (p : Pool B) → k == j ≡ false → alone (pool_step now process j p) k ≡ alone p k
  unfolding pool_step
  other_step k j p other =
      ap (λ items. facing items ((pool_step now process j p).workers k)) (pool_step-items j p)
      ∙ ap (facing p.items) (otherwise _ _ other)

  pool_steps-alone :
      (k : ℕ) (js : List ℕ) (p : Pool B)
      → alone (pool_steps now process js p) k
        ≡ loop_steps (consumer_source now) (process k) (turns k js) (alone p k)
  pool_steps-alone k [] p = refl
  pool_steps-alone k (j ∷ js) p =
      let run = λ (n : ℕ) (r : ((ChunkedList × Consumer) × List B) × Loop Payload).
        loop_steps (consumer_source now) (process k) n r in
      pool_steps-alone k js (pool_step now process j p) ∙ elim (Bool-cases (k == j)) [
        | inl same ↦
            ap (run (turns k js)) (own_step k j p same)
            ∙ ap (λ n. run n (alone p k)) (sym (whenever (suc (turns k js)) (turns k js) same))
        | inr other ↦
            ap (run (turns k js)) (other_step k j p other)
            ∙ ap (λ n. run n (alone p k)) (sym (otherwise (suc (turns k js)) (turns k js) other))
      ]

  abbrev pub beginning : ChunkedList → (ℕ → Consumer) → Pool B
  beginning cl consumers = record { items = cl; workers = λ k. ((consumers k, []), fetching) }

  -- The workers of a pool, none of them cancelled, each with a consumer of its own that is ready
  -- to read from the one queue, which has a linked list and exact counters: in whatever order
  -- their steps follow one another, each worker that has had two steps for every job before its
  -- consumer, and two more, has stopped, with a result of its own for all those jobs, in order; so
  -- all workers whose consumers stand before the same jobs do all of them.
  pub pool_steps-EachDoesAll :
      (cl : ChunkedList) (first : ℕ) (consumers : ℕ → Consumer)
      → ((k : ℕ) → IsOpenSource first (cl, consumers k))
      → (js : List ℕ) (k : ℕ)
      → length (before_consumer first (cl, consumers k)) * 2 + 2 ≤ turns k js
      → let ((c, sent), where_) = (pool_steps now process js (beginning cl consumers)).workers k in
        (where_ ≡ stopped) × (sent ≡ map (process k) (before_consumer first (cl, consumers k)))
  pool_steps-EachDoesAll cl first consumers ready js k enough =
      let done =
        loop_steps-Enough (consumer_source now) (IsOpenSource first) (before_consumer first)
          (consumer_source-SourceLaws first now) (process k) (cl, consumers k) (turns k js)
          (ready k) enough in
      let same = pool_steps-alone k js (beginning cl consumers) in
      (ap (λ r. r.1) same ∙ done.0, ap (λ r. r.0.1) same ∙ done.1)
