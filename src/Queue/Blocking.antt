-- ===== src/Queue/Blocking.antt =====
-- The calls of queue/queue.go that block a producer: `Enqueue`, `EnqueueWithContext`, `EnqueueBatch`
-- and `EnqueueBatchWithContext`. `found` is the queue at the first `Lock`; the wake-ups hold what the
-- later ones find. A successful call signals the consumers right behind its `Unlock`.
pub mod Single
pub mod Live
pub mod Many
use Prim.Native.String.{String}
use mpmc_queue.Prelude.{
  ℕ, Bool, true, false, ◌&&◌, Option, none, some, List, if◌then◌else◌, length, leb,
}
use mpmc_queue.Prelude.Int.{ℤ, pos, ltb_ℤ, leb_ℤ}
use mpmc_queue.Prelude.Int64.{sub64}
use mpmc_queue.Payload.{Payload}
use mpmc_queue.Data.{QueueData}
use mpmc_queue.Errors.{
  ContextError, Error, queue_closed, queue_full, memory_limit, batch_overflow, enqueue_failed,
  context_error,
}
use mpmc_queue.Memory.{MemoryTracker}
use mpmc_queue.ChunkedList
use mpmc_queue.ChunkedList.{ChunkedList}
use mpmc_queue.Queue.{
  Queue, Batch, tracker, with_tracker, new_sized_data, make_batch, over_max_items,
  notify_waiting_consumers,
}
use mpmc_queue.Waiting.{
  Round, finished, waiting, Outcome, returned, Wake, ContextWake, await, checked, await_context,
}

-- `maxItems > 0 && TotalItems >= maxItems`
abbrev pub at_max_items : Queue → Bool
at_max_items q = ltb_ℤ (pos 0) q.max_items && leb_ℤ q.max_items q.items.total_items

-- Only a lack of memory that expiration can mend is waited for.
abbrev pub is_final : Error → Bool
is_final (memory_limit current maximum needed) = ltb_ℤ maximum needed
is_final _ = true

-- What the list gave back; `wrap` is what the call makes of an error.
unfoldable pub end_round :
    (Error → Error) → Queue → ChunkedList × Option Error → Round Queue (Option Error)
end_round wrap q (items, none) =
    finished (notify_waiting_consumers (record q { items = items })) none
end_round wrap q (items, some e) =
    if is_final e
    then finished (record q { items = items }) (some (wrap e))
    else waiting (record q { items = items })

unfoldable pub enqueue_round : (Error → Error) → QueueData → Queue → Round Queue (Option Error)
enqueue_round wrap d q =
    if q.closed
    then finished q (some (queue_closed "enqueue"))
    else if at_max_items q
    then waiting q
    else end_round wrap q (ChunkedList.enqueue q.items d)

-- `ctx.Err()`
abbrev pub on_done : ContextError → Option Error
on_done e = some (context_error e)

-- What both calls do before their loops. The results are the counter and how far the call got.
unfoldable pub begin_enqueue :
    ℤ
    → ℕ
    → Queue
    → Payload
    → (QueueData → Outcome Queue (Option Error))
    → ℕ × Outcome Queue (Option Error)
begin_enqueue now sequence q payload loop =
    if q.closed
    then (sequence, returned q (some (queue_closed "enqueue")))
    else let (sequence', d, mt) = new_sized_data now sequence payload q.name (tracker q) in
      (
        sequence',
        if ltb_ℤ mt.max_memory d.size
            then returned (with_tracker q mt)
                (some (memory_limit mt.total_memory mt.max_memory d.size))
            else loop d,
      )

unfoldable pub enqueue :
    ℤ → ℕ → Queue → Payload → Queue → List (Wake Queue) → ℕ × Outcome Queue (Option Error)
enqueue now sequence q payload found ws = begin_enqueue now sequence q payload λ d.
    let round = enqueue_round (λ e. e) d in
    await round (some (queue_closed "enqueue")) (round found) ws

-- `done` is the context at the head of the first round.
unfoldable pub enqueue_with_context :
    ℤ
    → ℕ
    → Queue
    → Payload
    → Option ContextError
    → Queue
    → List (ContextWake Queue)
    → ℕ × Outcome Queue (Option Error)
enqueue_with_context now sequence q payload done found ws =
    begin_enqueue now sequence q payload λ d.
      let round = enqueue_round enqueue_failed d in
      await_context round (some (queue_closed "enqueue")) on_done
        (checked round (some (queue_closed "enqueue")) on_done done found) ws

abbrev pub end_batch : Queue → ChunkedList × Option Error → Round Queue (Option Error)
end_batch q (items, none) = finished (notify_waiting_consumers (record q { items = items })) none
end_batch q (items, some e) = finished (record q { items = items }) (some e)

-- The items of a batch go in together, once there is room for all of them.
unfoldable pub batch_round : ℕ → Batch → Queue → Round Queue (Option Error)
batch_round n b q =
    let mt = tracker q in
    if q.closed
    then finished q (some (queue_closed "enqueue batch"))
    else if ltb_ℤ (pos 0) q.max_items && ltb_ℤ q.max_items (pos n)
    then finished q (some (queue_full q.max_items))
    else if over_max_items q n
    then waiting q
    else if ltb_ℤ mt.max_memory b.total_size
    then finished q (some (memory_limit mt.total_memory mt.max_memory b.total_size))
    else if leb_ℤ b.total_size (sub64 mt.max_memory mt.total_memory)
    then end_batch q (ChunkedList.enqueue_batch q.items b.made)
    else waiting q

-- What both calls do before their loops.
unfoldable pub begin_batch :
    ℤ
    → ℕ
    → Queue
    → List Payload
    → (Batch → Outcome Queue (Option Error))
    → ℕ × Outcome Queue (Option Error)
begin_batch now sequence q payloads loop =
    if q.closed
    then (sequence, returned q (some (queue_closed "enqueue batch")))
    else if leb (length payloads) 0
    then (sequence, returned q none)
    else let b = make_batch now q.name (pos 0) sequence (tracker q) payloads in
      (
        b.sequence,
        if b.overflow
            then returned (with_tracker q b.memory_tracker) (some batch_overflow)
            else loop b,
      )

unfoldable pub enqueue_batch :
    ℤ → ℕ → Queue → List Payload → Queue → List (Wake Queue) → ℕ × Outcome Queue (Option Error)
enqueue_batch now sequence q payloads found ws = begin_batch now sequence q payloads λ b.
    let round = batch_round (length payloads) b in
    await round (some (queue_closed "enqueue batch")) (round found) ws

unfoldable pub enqueue_batch_with_context :
    ℤ
    → ℕ
    → Queue
    → List Payload
    → Option ContextError
    → Queue
    → List (ContextWake Queue)
    → ℕ × Outcome Queue (Option Error)
enqueue_batch_with_context now sequence q payloads done found ws =
    begin_batch now sequence q payloads λ b.
      let round = batch_round (length payloads) b in
      await_context round (some (queue_closed "enqueue batch")) on_done
        (checked round (some (queue_closed "enqueue batch")) on_done done found) ws
