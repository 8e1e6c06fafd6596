-- ===== src/Queue/Lifecycle/Closed.antt =====
-- `Close` (queue/queue.go): what is left of a queue, and what its calls do then.
use mpmc_queue.Prelude.{ℕ, ◌≡◌, refl, true, false, some, List, [], ◌∷◌, arith, map, otherwise}
use mpmc_queue.Prelude.Int.{ℤ}
use mpmc_queue.Payload.{Payload}
use mpmc_queue.Errors.{queue_closed}
use mpmc_queue.ChunkedList.{clear}
use mpmc_queue.ChunkedList.Links.{IsLinked}
use mpmc_queue.ChunkedList.Totals.{IsCounted}
use mpmc_queue.ChunkedList.Cleared.{IsCleared, clear-IsCleared}
use mpmc_queue.Consumer
use mpmc_queue.Consumer.{Consumer, try_read}
use mpmc_queue.Queue.{Queue, try_enqueue, try_enqueue_batch}
use mpmc_queue.Queue.Cleanup.{All}
use mpmc_queue.Queue.Manager.{ConsumerManager}
use mpmc_queue.Queue.Lifecycle.{close, close_listed, is_listed}

-- The snapshot of a manager lists its consumers.
abbrev pub IsIndexed : ConsumerManager → Type 0
IsIndexed cm = cm.active ≡ map (λ c. c.id) cm.consumers

abbrev pub IsShut : Consumer → Type 0
IsShut c = c.closed ≡ true

-- What `Close` leaves.
pub record IsClosed (q : Queue) : Type 0 where
  pub closed : q.closed ≡ true
  pub stopped : q.stopped ≡ true
  pub cleared : IsCleared q.items
  pub readers : All IsShut q.consumers.consumers

-- A list of ids that holds those of the consumers closes them all.
close_listed-All :
    (ids : List ℕ) (cs : List Consumer)
    → All (λ c. is_listed c.id ids ≡ true) cs
    → All IsShut (close_listed ids cs)
unfolding Consumer.close
close_listed-All ids [] a = tt
close_listed-All ids (c ∷ cs) (l, ls) = (rw l refl, close_listed-All ids cs ls)

is_listed-more : (id i : ℕ) (ids : List ℕ) → is_listed id ids ≡ true → is_listed id (i ∷ ids) ≡ true
is_listed-more id i ids h = ground arith

All-more :
    (i : ℕ) (ids : List ℕ) (cs : List Consumer)
    → All (λ c. is_listed c.id ids ≡ true) cs
    → All (λ c. is_listed c.id (i ∷ ids) ≡ true) cs
All-more i ids [] a = tt
All-more i ids (c ∷ cs) (l, ls) = (is_listed-more c.id i ids l, All-more i ids cs ls)

own_ids : (cs : List Consumer) → All (λ c. is_listed c.id (map (λ b. b.id) cs) ≡ true) cs
own_ids [] = tt
own_ids (c ∷ cs) = (ground arith, All-more c.id (map (λ b. b.id) cs) cs (own_ids cs))

-- Close of an open queue with a linked list, exact counters and a snapshot that lists its
-- consumers closes it, its stop channel and every consumer, empties the list and brings the
-- counters to 0; a second Close changes nothing, and TryEnqueue and TryEnqueueBatch then return
-- the error of a closed queue and change nothing.
pub close-IsClosed :
    (q : Queue) (first : ℕ) (now : ℤ) (sequence : ℕ) (p : Payload) (ps : List Payload)
    → q.closed ≡ false
    → IsLinked q.items first
    → IsCounted q.items first
    → IsIndexed q.consumers
    → IsClosed (close q)
      × (close (close q) ≡ close q)
      × (try_enqueue now sequence (close q) p ≡ (sequence, close q, some (queue_closed "enqueue")))
      × (try_enqueue_batch now sequence (close q) ps
          ≡ (sequence, close q, some (queue_closed "enqueue batch")))
unfolding close try_enqueue try_enqueue_batch
close-IsClosed q first now sequence p ps open_ v c ix =
    let q' = record q {
      closed = true;
      stopped = true;
      consumers = record q.consumers {
        consumers = close_listed q.consumers.active q.consumers.consumers;
      };
      items = clear q.items;
    } in
    let e : close q ≡ q' = otherwise q q' open_ in
    rw e (
      record {
        closed = refl;
        stopped = refl;
        cleared = clear-IsCleared q.items first v c;
        readers =
            close_listed-All q.consumers.active q.consumers.consumers
              (rw ix (own_ids q.consumers.consumers));
      },
      refl,
      refl,
      refl,
    )
