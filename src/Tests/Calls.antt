-- ===== src/Tests/Calls.antt =====
-- The facts of the theorems on calls that block, on metrics and on the end of a queue, at small
-- inputs.
use mpmc_queue.Prelude.{
  ℕ, zero, suc, ◌+◌, ◌-◌, ◌*◌, ◌/◌, ◌≤◌, ◌<◌, ◌≡◌, ◌⊎◌, refl, inl, inr, Bool, true, false, Option,
  none, some, List, [], ◌∷◌, ◌++◌, arith, length, drop, Option-cases,
}
use mpmc_queue.Prelude.Int.{ℤ, pos, pos_part}
use mpmc_queue.Data.{QueueData}
use mpmc_queue.Payload.{nothing}
use mpmc_queue.Prelude.{ap, sym, ◌∙◌}
use mpmc_queue.Prelude.Int64.{max_int64}
use mpmc_queue.ChunkedList.Links.{contents}
use mpmc_queue.ChunkedList.Totals.{held}
use mpmc_queue.ChunkedList.Enqueue.{enqueue_batch-AppendsAll}
use mpmc_queue.Errors.{queue_closed}
use mpmc_queue.ChunkedList.{ChunkedList, new_chunked_list}
use mpmc_queue.Memory.{new_memory_tracker}
use mpmc_queue.Queue.{
  Queue, new_queue_with_config, new_sized_data, tracker, try_enqueue, try_enqueue_batch,
}
use mpmc_queue.Waiting.{returned, await, signal, stopped, signal_in}
use mpmc_queue.Waiting.Laws.{Among, stop_states, Answers, Found, HasReturned}
use mpmc_queue.Queue.Blocking.{enqueue, enqueue_with_context, enqueue_batch_with_context}
use mpmc_queue.Queue.Blocking.Single.{
  Linked, Kept, Posted, Refused, RefusedIn, large, enqueue-Answers, enqueue_with_context-Answers,
}
use mpmc_queue.Queue.Blocking.Live.{HasRoom, enqueue-HasReturned}
use mpmc_queue.Queue.Blocking.Many.{PostedAll, RefusedAllIn, enqueue_batch_with_context-Answers}
use mpmc_queue.Consumer.Blocking.{
  read_round, View, read, read_with_context, read_batch_with_context, read_where_with_context,
}
use mpmc_queue.Consumer.Blocking.Any.{ahead}
use mpmc_queue.Consumer.Blocking.Served.{
  read-none, Placed, Given, Idle, read-Answers, read_with_context-HasReturned,
}
use mpmc_queue.Consumer.Blocking.Many.{BatchIn, read_batch_with_context-Answers}
use mpmc_queue.Consumer.Blocking.Filtered.{
  Reading, Filtered, StoppedIn, Unmatched, read_where_with_context-Answers,
}
use mpmc_queue.Metrics.{Metrics, Window, new_metrics, new_window, record_sample, get_snapshot}
use mpmc_queue.Metrics.Recent.{IsWindow, recent, record_sample-recent}
use mpmc_queue.Metrics.Rank.{count_below, count_upto}
use mpmc_queue.Metrics.Snapshot.{get_snapshot-percentiles}
use mpmc_queue.Queue.Lifecycle.{close}
use mpmc_queue.Queue.Lifecycle.Closed.{IsIndexed, IsClosed, close-IsClosed}
use mpmc_queue.Queue.Lifecycle.Index.{manager-IsIndexed}
use mpmc_queue.Queue.Manager.{
  add_consumer, add_consumer_to_group, add_group, remove_consumer, remove_group, clean_inactive,
  notify_all_consumers_of_expiration,
}
use mpmc_queue.ConsumerGroup.{new_consumer_group}
use mpmc_queue.Cursor.{at_start}
use mpmc_queue.Cursor.Unread.{unread_at}
use mpmc_queue.Consumer.{Consumer, try_read_batch}
use mpmc_queue.Consumer.Batch.{IsReady}
use mpmc_queue.Queue.Enqueue.{payloads}
use mpmc_queue.Queue.RoundTrip.{try_enqueue_batch-try_read_batch}
use mpmc_queue.Tests.{
  item_of, no_items, no_items-IsLinked, no_items-IsCounted, one_item, one_item-IsLinked,
  one_item-Appends, one_item-IsCounted, three_items, three_items-IsLinked, alice, alice-IsReady,
  jobs, busy,
}

jobs-Linked : Linked jobs
jobs-Linked = (0, three_items-IsLinked)

enqueue-Answers_example :
    let (sequence', outcome) = enqueue (pos 5) 3 jobs nothing jobs (signal jobs ∷ []) in
    Answers (Found Linked (jobs ∷ jobs ∷ jobs ∷ [])) (Posted Refused nothing) Kept outcome
enqueue-Answers_example =
    enqueue-Answers (pos 5) 3 jobs nothing jobs jobs-Linked jobs-Linked (signal jobs ∷ [])
      (jobs-Linked, tt)

enqueue_with_context-Answers_example :
    let (sequence', outcome) =
      enqueue_with_context (pos 5) 3 jobs nothing none jobs (signal_in none jobs ∷ []) in
    Answers
      (Found Linked (jobs ∷ jobs ∷ jobs ∷ []))
      (Posted
        (RefusedIn
          (large (pos 5) 3 jobs nothing jobs jobs-Linked jobs-Linked)
          none
          (signal_in none jobs ∷ []))
        nothing)
      Kept
      outcome
enqueue_with_context-Answers_example =
    enqueue_with_context-Answers (pos 5) 3 jobs nothing jobs jobs-Linked jobs-Linked none
      (signal_in none jobs ∷ []) (jobs-Linked, tt)

enqueue_batch_with_context-Answers_example :
    let ps = nothing ∷ nothing ∷ [] in
    let (sequence', outcome) =
      enqueue_batch_with_context (pos 5) 3 jobs ps none jobs (signal_in none jobs ∷ []) in
    Answers (Found Linked (jobs ∷ jobs ∷ jobs ∷ [])) (PostedAll (RefusedAllIn 2) ps) Kept outcome
enqueue_batch_with_context-Answers_example =
    enqueue_batch_with_context-Answers (pos 5) 3 jobs (nothing ∷ nothing ∷ []) jobs jobs-Linked
      jobs-Linked none (signal_in none jobs ∷ []) (jobs-Linked, tt)

-- A queue with nothing in it, and room for an item.
abbrev idle : Queue
idle = record jobs { items = no_items }

idle-Linked : Linked idle
idle-Linked = (0, no_items-IsLinked)

idle-size : (new_sized_data (pos 5) 3 nothing idle.name (tracker idle)).1.size ≡ pos 195
unfolding new_queue_with_config new_sized_data new_chunked_list new_memory_tracker
    mpmc_queue.Memory.Estimate.estimate_queue_data_size mpmc_queue.Memory.Estimate.safe_add
    mpmc_queue.Data.new_queue_data mpmc_queue.Prelude.Int64.sub64 mpmc_queue.Prelude.Int64.wrap64
    mpmc_queue.Prelude.Int.◌-ℤ◌ mpmc_queue.Memory.Estimate.estimate_payload_size
    mpmc_queue.Prelude.Int64.add64 mpmc_queue.Prelude.Int.◌+ℤ◌
idle-size = refl

idle-contents : contents no_items 0 ≡ []
unfolding new_chunked_list
idle-contents = refl

idle-few : length (contents no_items 0) ≡ 0
unfolding new_chunked_list
idle-few = refl

idle-limit : no_items.memory_tracker.max_memory ≡ pos 1000
unfolding new_chunked_list new_memory_tracker
idle-limit = refl

idle-small : 1000 + no_items.memory_tracker.layout.chunk_node_size ≤ max_int64
unfolding new_chunked_list new_memory_tracker
idle-small = omega arith

idle-held : held no_items 0 ≡ 0
unfolding new_chunked_list new_memory_tracker
idle-held = refl

idle-HasRoom : HasRoom idle (new_sized_data (pos 5) 3 nothing idle.name (tracker idle)).1
unfolding new_queue_with_config
idle-HasRoom = record {
  first = 0;
  maximum = 1000;
  linked = no_items-IsLinked;
  counted = no_items-IsCounted;
  limit = idle-limit;
  small = idle-small;
  not_negative = rw idle-size (omega arith);
  fits = omega (arith, idle-held, ap pos_part idle-size);
  few = inr (omega (arith, idle-few));
}

enqueue-HasReturned_example :
    let (sequence', outcome) =
      enqueue (pos 5) 3 idle nothing jobs (signal jobs ∷ signal idle ∷ []) in
    HasReturned outcome
enqueue-HasReturned_example =
    enqueue-HasReturned (pos 5) 3 idle nothing jobs jobs-Linked idle idle-HasRoom (signal jobs ∷ [])
      [] (jobs-Linked, tt)

-- What a reader finds in an empty list, and in one of three items.
abbrev sees : ChunkedList → View
sees cl = record { now = pos 20; queue_closed = false; items = cl; consumer = alice; group = none }

sees_nothing : Placed (sees no_items)
sees_nothing = (0, record { linked = no_items-IsLinked; position = tt })

sees_three : Placed (sees three_items)
sees_three = (0, record { linked = three_items-IsLinked; position = tt })

read-Answers_example :
    Answers
      (Found Placed (sees no_items ∷ sees three_items ∷ []))
      Given
      Idle
      (read (sees no_items) (signal (sees three_items) ∷ []))
read-Answers_example =
    read-Answers (sees no_items) (signal (sees three_items) ∷ []) sees_nothing (sees_three, tt)

read_batch_with_context-Answers_example :
    Answers (Found Placed (sees no_items ∷ sees three_items ∷ [])) (BatchIn 2) Idle (
      read_batch_with_context none []
        (pos 2)
        (sees no_items)
        (signal_in none (sees three_items) ∷ []))
read_batch_with_context-Answers_example =
    read_batch_with_context-Answers none [] (pos 2) (sees no_items)
      (signal_in none (sees three_items) ∷ []) sees_nothing (sees_three, tt)

reads_three : Reading (sees three_items)
reads_three = (0, record { linked = three_items-IsLinked; ready = alice-IsReady })

read_where_with_context-Answers_example :
    Answers
      (Found Reading (sees three_items ∷ []))
      (Filtered (StoppedIn none []) (λ d. true))
      (Unmatched (λ d. true))
      (read_where_with_context none (some (λ d. true)) (sees three_items) [])
read_where_with_context-Answers_example =
    read_where_with_context-Answers (λ d. true) none (sees three_items) [] reads_three tt

-- A view with something to read ends a wait.
three_ahead : (ds : List QueueData) × (ahead (sees three_items) 0 ≡ item_of 1 ∷ ds)
three_ahead =
    let (ok, v, a) =
      enqueue_batch-AppendsAll (item_of 2 ∷ item_of 3 ∷ []) one_item 0 one_item-IsLinked in
    (
      item_of 2 ∷ item_of 3 ∷ [],
      a.all
          ∙ ap (λ ds. ds ++ item_of 2 ∷ item_of 3 ∷ [])
              (one_item-Appends.all ∙ ap (λ ds. ds ++ item_of 1 ∷ []) idle-contents),
    )

read_with_context-HasReturned_example :
    HasReturned (read_with_context none (sees no_items) (signal_in none (sees three_items) ∷ []))
read_with_context-HasReturned_example =
    read_with_context-HasReturned (sees three_items) 0
      (record { linked = three_items-IsLinked; position = tt }) refl (item_of 1) three_ahead.0
      three_ahead.1 none (sees no_items) [] [] none sees_nothing tt

abbrev one_sample : Window
one_sample = record_sample 1000 (pos 7) new_window

new_window-IsWindow : IsWindow 1000 new_window
new_window-IsWindow = record {
  some_room = omega arith;
  count = omega arith;
  index = omega arith;
  begins = λ h. refl;
}

record_sample-recent_example :
    IsWindow 1000 one_sample
    × (recent 1000 one_sample
        ≡ drop (length (recent 1000 new_window) + 1 - 1000) (recent 1000 new_window ++ pos 7 ∷ []))
record_sample-recent_example = record_sample-recent 1000 (pos 7) new_window new_window-IsWindow

one_sample-IsWindow : IsWindow 1000 one_sample
one_sample-IsWindow = (record_sample-recent 1000 (pos 7) new_window new_window-IsWindow).0

abbrev measured : Metrics
measured = record new_metrics {
  enqueue_latency = one_sample;
  dequeue_latency = one_sample;
  max_latency_samples = 1000;
}

one_sample-count : 0 < one_sample.count
unfolding record_sample
one_sample-count = omega arith

get_snapshot-percentiles_example :
    let s = get_snapshot (pos 9) jobs measured in
    (count_below s.p95_enqueue_latency (recent 1000 one_sample) ≤ one_sample.count * 19 / 20)
    × (one_sample.count * 19 / 20 < count_upto s.p95_enqueue_latency (recent 1000 one_sample))
    × (count_below s.p95_dequeue_latency (recent 1000 one_sample) ≤ one_sample.count * 19 / 20)
    × (one_sample.count * 19 / 20 < count_upto s.p95_dequeue_latency (recent 1000 one_sample))
get_snapshot-percentiles_example =
    get_snapshot-percentiles (pos 9) jobs measured one_sample-IsWindow one_sample-IsWindow
      one_sample-count one_sample-count

-- A queue with an item and a reader.
abbrev ending : Queue
ending = record busy { items = one_item }

ending-open : ending.closed ≡ false
unfolding new_queue_with_config
ending-open = refl

close-IsClosed_example :
    IsClosed (close ending)
    × (close (close ending) ≡ close ending)
    × (try_enqueue (pos 5) 3 (close ending) nothing
        ≡ (3, close ending, some (queue_closed "enqueue")))
    × (try_enqueue_batch (pos 5) 3 (close ending) (nothing ∷ [])
        ≡ (3, close ending, some (queue_closed "enqueue batch")))
close-IsClosed_example =
    close-IsClosed ending 0 (pos 5) 3 nothing (nothing ∷ []) ending-open one_item-IsLinked
      one_item-IsCounted refl

manager-IsIndexed_example :
    let cm = busy.consumers in
    let g = new_consumer_group 1 "workers" in
    IsIndexed (add_consumer 2 (pos 5) 10 three_items cm).0
    × IsIndexed (add_consumer_to_group 2 (pos 5) 10 g cm).0
    × IsIndexed (add_group 3 "workers" cm).0
    × IsIndexed (remove_consumer 2 cm).0
    × IsIndexed (remove_group "workers" cm).0
    × IsIndexed (clean_inactive (pos 5) (pos 1) cm).0
    × IsIndexed (notify_all_consumers_of_expiration three_items none [] cm)
manager-IsIndexed_example =
    manager-IsIndexed busy.consumers refl 2 3 "workers" (pos 5) (pos 1) 10 three_items
      (new_consumer_group 1 "workers") none []

alice-IsReady_idle : IsReady no_items 0 alice
alice-IsReady_idle = record { position = tt; open_ = refl; alone = refl }

idle-stores : (try_enqueue_batch (pos 5) 3 idle (nothing ∷ nothing ∷ [])).2 ≡ none
unfolding try_enqueue_batch new_queue_with_config mpmc_queue.Prelude.Int64.add64
    mpmc_queue.Prelude.Int64.wrap64 mpmc_queue.Prelude.Int.◌+ℤ◌ new_chunked_list
    mpmc_queue.Queue.store_batch mpmc_queue.Queue.make_batch mpmc_queue.Prelude.Int64.sub64
    mpmc_queue.Prelude.Int.◌-ℤ◌ new_sized_data mpmc_queue.Memory.Estimate.estimate_queue_data_size
    mpmc_queue.Memory.Estimate.safe_add mpmc_queue.Data.new_queue_data new_memory_tracker
    mpmc_queue.Memory.Estimate.estimate_payload_size mpmc_queue.ChunkedList.enqueue_batch
    mpmc_queue.ChunkedList.place mpmc_queue.Chunk.add mpmc_queue.ChunkedList.add_to_chunk
    mpmc_queue.ChunkedList.last_chunk
idle-stores = refl

try_enqueue_batch-try_read_batch_example :
    let q' = (try_enqueue_batch (pos 5) 3 idle (nothing ∷ nothing ∷ [])).1 in
    (ds : List QueueData) × (c' : Consumer) × (payloads ds ≡ nothing ∷ nothing ∷ [])
    × (try_read_batch (pos 6) q'.items (pos 2) alice
        ≡ some (unread_at no_items 0 at_start ++ ds, c'))
    × (unread_at q'.items 0 c'.cursor ≡ [])
try_enqueue_batch-try_read_batch_example =
    try_enqueue_batch-try_read_batch (pos 5) (pos 6) 3 idle 0 alice (nothing ∷ nothing ∷ []) 2
      no_items-IsLinked alice-IsReady_idle idle-stores (omega (arith, idle-few))

read-stops : read (sees no_items) (stopped (sees no_items) ∷ []) ≡ returned (sees no_items) none
unfolding read read_round mpmc_queue.Consumer.Blocking.read_any mpmc_queue.Consumer.try_read
    mpmc_queue.Reader.begin_read await new_chunked_list
read-stops = refl

read-none_example : Among (stop_states (stopped (sees no_items) ∷ [])) (sees no_items)
read-none_example =
    read-none (sees no_items) (stopped (sees no_items) ∷ []) (sees no_items) read-stops
