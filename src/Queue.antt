-- ===== src/Queue.antt =====
-- queue/queue.go and queue/notify.go, with the manager of queue/consumer.go: the queue's state, and the
-- calls that do not wait. Each call runs alone, as it does under the queue's mutex; the clock's
-- readings, the package's counter of items and the layout of memory are arguments.
pub mod Manager
pub mod Enqueue
pub mod Told
pub mod Cleanup
pub mod Blocking
pub mod Lifecycle
pub mod RoundTrip
pub mod Facade
use Prim.Native.String.{String}
use mpmc_queue.Prelude.{
  ℕ, zero, suc, ◌+◌, ◌-◌, Bool, true, false, ◌&&◌, not, Option, none, some, List, [], ◌∷◌, ltb, leb,
  if◌then◌else◌, length, min,
}
use mpmc_queue.Prelude.Int.{ℤ, pos, pos_part, leb_ℤ, ltb_ℤ}
use mpmc_queue.Prelude.Int64.{max_int64, add64, sub64}
use mpmc_queue.Payload.{Payload}
use mpmc_queue.Data.{QueueData, new_queue_data, set_size}
use mpmc_queue.Errors.{Error, queue_closed, queue_full, memory_limit, batch_overflow}
use mpmc_queue.Memory.{MemoryTracker, Layout, new_memory_tracker}
use mpmc_queue.Memory.Estimate.{estimate_queue_data_size}
use mpmc_queue.ChunkedList
use mpmc_queue.ChunkedList.{
  ChunkedList, Clock, new_chunked_list, get_first_element, remove_expired_data, clear,
}
use Manager.{
  ConsumerManager, new_consumer_manager, get_all_consumers, notify_all_consumers_of_expiration,
  clean_inactive,
}

-- A buffered channel of signals is their number.
abbrev pub signal_capacity : ℕ
signal_capacity = 100

pub record QueueConfig : Type 0 where
  pub ttl : ℤ
  pub max_memory : ℤ
  pub max_items : ℤ
  pub max_consumer_history : ℤ
  pub expiration_check_interval : ℤ
  pub consumer_eviction_timeout : ℤ

-- `data` holds the tracker; `stopped` is that `stopChan` is closed.
pub record Queue : Type 0 where
  pub name : String
  pub items : ChunkedList
  pub consumers : ConsumerManager
  pub closed : Bool
  pub ttl : ℤ
  pub stopped : Bool
  pub expiration_enabled : Bool
  pub created_at : ℤ
  pub enqueue_notify : ℕ
  pub dequeue_notify : ℕ
  pub max_consumer_history : ℕ
  pub max_items : ℤ
  pub expiration_check_interval : ℤ
  pub consumer_eviction_timeout : ℤ

-- 10 minutes, 30 seconds and 1000 records.
abbrev pub default_ttl : ℤ
default_ttl = pos 600000000000

abbrev pub default_expiration_check_interval : ℤ
default_expiration_check_interval = pos 30000000000

abbrev pub default_max_consumer_history : ℤ
default_max_consumer_history = pos 1000

unfoldable pub new_queue_with_config : Layout → ℤ → String → QueueConfig → Queue
new_queue_with_config layout now name config = record {
  name = name;
  items = new_chunked_list (new_memory_tracker layout config.max_memory);
  consumers = new_consumer_manager;
  closed = false;
  ttl = config.ttl;
  stopped = false;
  expiration_enabled = ltb_ℤ (pos 0) config.ttl;
  created_at = now;
  enqueue_notify = 0;
  dequeue_notify = 0;
  max_consumer_history = pos_part config.max_consumer_history;
  max_items = config.max_items;
  expiration_check_interval =
      if leb_ℤ config.expiration_check_interval (pos 0)
      then default_expiration_check_interval
      else config.expiration_check_interval;
  consumer_eviction_timeout = config.consumer_eviction_timeout;
}

abbrev pub tracker : Queue → MemoryTracker
tracker q = q.items.memory_tracker

abbrev pub with_tracker : Queue → MemoryTracker → Queue
with_tracker q mt = record q { items = record q.items { memory_tracker = mt } }

-- How many signals `notifyWaitingConsumers` means to send, for `n` consumers.
unfoldable pub signals_for : ℕ → ℤ → ℤ
signals_for n depth =
    let signals = if ltb_ℤ (pos n) depth then pos n else depth in
    if ltb_ℤ signals (pos 1) && ltb_ℤ (pos 0) depth then pos 1 else signals

-- A send that finds the channel full ends the loop.
unfoldable pub notify_waiting_consumers : Queue → Queue
notify_waiting_consumers q =
    let n = length (get_all_consumers q.consumers) in
    if leb n 0 then q else record q {
      enqueue_notify =
          min signal_capacity (q.enqueue_notify + pos_part (signals_for n q.items.total_items));
    }

-- An item with its size, the counter and the tracker after that.
unfoldable pub new_sized_data :
    ℤ → ℕ → Payload → String → MemoryTracker → ℕ × QueueData × MemoryTracker
new_sized_data now sequence payload name mt =
    let (sequence', d) = new_queue_data now sequence payload name in
    let (size, mt') = estimate_queue_data_size mt d in (sequence', set_size size d, mt')

-- `maxItems > 0 && TotalItems + more > maxItems`
abbrev pub over_max_items : Queue → ℕ → Bool
over_max_items q more =
    ltb_ℤ (pos 0) q.max_items && ltb_ℤ q.max_items (add64 q.items.total_items (pos more))

-- What the list gave back: only a success is told to the consumers.
unfoldable pub end_enqueue : Queue → ChunkedList × Option Error → Queue × Option Error
end_enqueue q (items, none) = (notify_waiting_consumers (record q { items = items }), none)
end_enqueue q (items, some e) = (record q { items = items }, some e)

-- The results are the counter, the queue and the error.
unfoldable pub try_enqueue : ℤ → ℕ → Queue → Payload → ℕ × Queue × Option Error
try_enqueue now sequence q payload =
    if q.closed
    then (sequence, q, some (queue_closed "enqueue"))
    else let (sequence', d, mt) = new_sized_data now sequence payload q.name (tracker q) in
      let q' = with_tracker q mt in
      if ltb_ℤ (pos 0) q.max_items && leb_ℤ q.max_items q.items.total_items
      then (sequence', q', some (queue_full q.max_items))
      else let (q'', failed) = end_enqueue q' (ChunkedList.enqueue q'.items d) in
        (sequence', q'', failed)

-- What the loop over the payloads of a batch has made: the items so far, their total size, the
-- counter and the tracker. `overflow` is that the total would not fit an int64.
pub record Batch : Type 0 where
  pub made : List QueueData
  pub total_size : ℤ
  pub sequence : ℕ
  pub memory_tracker : MemoryTracker
  pub overflow : Bool

unfoldable pub make_batch : ℤ → String → ℤ → ℕ → MemoryTracker → List Payload → Batch
make_batch now name total sequence mt [] = record {
  made = [];
  total_size = total;
  sequence = sequence;
  memory_tracker = mt;
  overflow = false;
}
make_batch now name total sequence mt (p ∷ ps) =
    let (sequence', d, mt') = new_sized_data now sequence p name mt in
    let rest = make_batch now name (add64 total d.size) sequence' mt' ps in
    if ltb_ℤ (sub64 (pos max_int64) total) d.size
    then record {
      made = d ∷ [];
      total_size = total;
      sequence = sequence';
      memory_tracker = mt';
      overflow = true;
    }
    else record rest { made = d ∷ rest.made }

-- The part of `TryEnqueueBatch` behind that loop.
unfoldable pub store_batch : Queue → Batch → ℕ × Queue × Option Error
store_batch q b =
    let q' = with_tracker q b.memory_tracker in
    let mt = tracker q' in
    if b.overflow
    then (b.sequence, q', some batch_overflow)
    else if ltb_ℤ (sub64 mt.max_memory mt.total_memory) b.total_size
    then (b.sequence, q', some (memory_limit mt.total_memory mt.max_memory b.total_size))
    else let (items, failed) = ChunkedList.enqueue_batch q'.items b.made in
      let q'' = record q' { items = items } in
      (b.sequence, elim failed [ none ↦ notify_waiting_consumers q'' | some _ ↦ q'' ], failed)

unfoldable pub try_enqueue_batch : ℤ → ℕ → Queue → List Payload → ℕ × Queue × Option Error
try_enqueue_batch now sequence q payloads =
    if q.closed
    then (sequence, q, some (queue_closed "enqueue batch"))
    else if leb (length payloads) 0
    then (sequence, q, none)
    else if over_max_items q (length payloads)
    then (sequence, q, some (queue_full q.max_items))
    else store_batch q (make_batch now q.name (pos 0) sequence (tracker q) payloads)

-- The number of expired items; where there are some, the readers are told and moved, and the channel
-- that producers wait on is filled.
unfoldable pub cleanup_expired_items : Clock → Queue → Queue × ℕ
cleanup_expired_items clock q =
    if not q.expiration_enabled
    then (q, 0)
    else let (items, removed, infos) = remove_expired_data clock q.ttl q.items in
      let q' = record q { items = items } in
      (
        if leb removed 0 then q' else record q' {
          consumers =
              notify_all_consumers_of_expiration items (get_first_element items) infos q.consumers;
          dequeue_notify = signal_capacity;
        },
        removed,
      )

-- One tick of `expirationWorker`.
unfoldable pub expiration_tick : Clock → ℤ → Queue → Queue
expiration_tick clock now q =
    let q' = if q.expiration_enabled then (cleanup_expired_items clock q).0 else q in
    if ltb_ℤ (pos 0) q'.consumer_eviction_timeout
    then record q' { consumers = (clean_inactive now q'.consumer_eviction_timeout q'.consumers).0 }
    else q'
