-- ===== src/Tests.antt =====
-- Runs of the code of queue/ on small inputs, and the facts of the package's theorems at them.
pub mod Races
pub mod Runs
pub mod Calls
pub mod Pipelines
pub mod Programs
pub mod Sizes
use mpmc_queue.Prelude.{
  ℕ, ◌+◌, ◌≤◌, ◌<◌, ◌≡◌, ◌↔◌, refl, ap, sym, ◌∙◌, inl, inr, true, false, none, some, [], ◌∷◌, arith,
  ltb, ◌-◌, lt-or-le, length, Bool,
}
use mpmc_queue.Prelude.Int.{pos}
use mpmc_queue.Prelude.Int64.{max_int64}
use mpmc_queue.Data.{QueueData, zero_data}
use mpmc_queue.Errors.{memory_limit}
use mpmc_queue.Chunk.{ChunkNode, new_chunk_node, remove_expired}
use mpmc_queue.Chunk.Expire.{Expires, remove_expired-Expires}
use mpmc_queue.Memory.{Layout, new_memory_tracker}
use mpmc_queue.Memory.Totals.{footprint}
use mpmc_queue.Memory.Estimate.{estimate_queue_data_size}
use mpmc_queue.ChunkedList.{
  ChunkedList, new_chunked_list, place, enqueue, enqueue_batch, count_items_from, instant,
  remove_expired_data,
}
use mpmc_queue.ChunkedList.Links.{IsLinked, contents, unread}
use mpmc_queue.ChunkedList.Enqueue.{Appends, AppendsAll, place-Appends, enqueue_batch-AppendsAll}
use mpmc_queue.ChunkedList.Totals.{held, IsCounted, Counts, place-Counts}
use mpmc_queue.ChunkedList.Limit.{enqueue_fits, enqueue_refused}
use mpmc_queue.ChunkedList.Count.{count_items_from-unread}
use mpmc_queue.Cursor.{at_start}
use mpmc_queue.Cursor.Unread.{unread_at}
use mpmc_queue.Cursor.Expiry.{Expiry}
use mpmc_queue.Cursor.Expiry.Remove.{remove_expired_data-Expiry}
use mpmc_queue.Reader.{begin_read}
use mpmc_queue.Reader.Read.{Reads, begin_read-Reads}
use mpmc_queue.ConsumerGroup.{
  ConsumerGroup, new_consumer_group, group_reader, more_at, unread_count_at,
}
use mpmc_queue.ConsumerGroup.Laws.{group_reader-ReaderLaws}
use mpmc_queue.Consumer.{Consumer, consumer_reader, try_read, try_read_batch, try_read_where}
use mpmc_queue.Consumer.Batch.{
  IsReady, Batch, first_match, try_read-Reads, try_read_batch-Batch, try_read_where-Found,
}
use mpmc_queue.Consumer.Unread.{unread_count_at-unread, more_at_iff}
use mpmc_queue.Payload.{nothing}
use mpmc_queue.ChunkedList.{clear}
use mpmc_queue.ChunkedList.Cleared.{IsCleared, clear-IsCleared}
use mpmc_queue.Consumer.{DequeueRecord, note_read}
use mpmc_queue.Consumer.Laws.{note_read-history}
use mpmc_queue.Prelude.{drop, ◌++◌}
use mpmc_queue.Cursor.Expiry.Counted.{remove_expired_data-IsCounted}
use mpmc_queue.Queue.{cleanup_expired_items}
use mpmc_queue.Queue.Cleanup.{Cleaned, IsPlacedGroup, cleanup_expired_items-Cleaned}
use mpmc_queue.ChunkedList.{expire_elements, expire_chunk, last_chunk, add_to_chunk, stops_at}
use mpmc_queue.Chunk.{expire_from, add, get_earliest_expiry}
use mpmc_queue.Data.{is_expired}
use mpmc_queue.Prelude.Int64.{sub64, wrap64}
use mpmc_queue.Prelude.Int.{◌-ℤ◌}
use mpmc_queue.Memory.{can_add_data, add_data}
use mpmc_queue.Queue.{Queue, new_queue_with_config, try_enqueue, try_enqueue_batch}
use mpmc_queue.Queue.Enqueue.{
  OneOrNone, AllOrNothing, try_enqueue-OneOrNone, try_enqueue_batch-AllOrNothing,
}

abbrev pub layout64 : Layout
layout64 = record {
  base_queue_data_size = 128;
  base_queue_event_size = 56;
  chunk_node_size = 128064;
  int_size = 8;
}

-- An item of 100 bytes that was made at the instant `k`.
abbrev pub item_of : ℕ → QueueData
item_of k = record zero_data { id = k; created = pos k; size = pos 100 }

abbrev pub no_items : ChunkedList
no_items = new_chunked_list (new_memory_tracker layout64 (pos 1000))

pub no_items-IsLinked : IsLinked no_items 0
unfolding new_chunked_list
no_items-IsLinked = record {
  started = omega arith;
  in_list = refl;
  filled = λ e lo hi. absurd (omega arith);
  retired = λ e lt. absurd (omega arith);
}

pub no_items-IsCounted : IsCounted no_items 0
unfolding new_chunked_list new_memory_tracker
no_items-IsCounted = record { items = refl; memory = refl; fits = omega arith; sized = omega arith }

-- The list that one `Enqueue` made.
abbrev pub one_item : ChunkedList
one_item = (enqueue no_items (item_of 1)).0

no_items-limit : no_items.memory_tracker.max_memory ≡ pos 1000
unfolding new_chunked_list new_memory_tracker
no_items-limit = refl

no_items-small : 1000 + no_items.memory_tracker.layout.chunk_node_size ≤ max_int64
unfolding new_chunked_list new_memory_tracker
no_items-small = omega arith

no_items-room : held no_items 0 + footprint (item_of 1) ≤ 1000
unfolding new_chunked_list new_memory_tracker
no_items-room = omega arith

no_items-few : 1000 < held no_items 0 + footprint (record (item_of 1) { size = pos 2000 })
unfolding new_chunked_list new_memory_tracker
no_items-few = omega arith

enqueue_fits_example :
    let (cl', failed) = enqueue no_items (item_of 1) in
    (failed ≡ none)
    × IsLinked cl' 0
    × Appends no_items cl' 0 (item_of 1)
    × IsCounted cl' 0
    × (held cl' 0 ≤ 1000 + no_items.memory_tracker.layout.chunk_node_size)
enqueue_fits_example =
    enqueue_fits no_items 0 1000 (item_of 1) no_items-IsLinked no_items-IsCounted no_items-limit
      no_items-small (omega arith) (omega arith) no_items-room

enqueue_refused_example :
    let d = record (item_of 1) { size = pos 2000 } in
    let (needed, mt) = estimate_queue_data_size no_items.memory_tracker d in
    enqueue no_items d ≡ (
      record no_items { memory_tracker = mt },
      some (memory_limit (pos (held no_items 0)) (pos 1000) needed),
    )
enqueue_refused_example =
    enqueue_refused no_items 0 1000 (record (item_of 1) { size = pos 2000 }) no_items-IsLinked
      no_items-IsCounted no_items-limit no_items-small (omega arith) (inr no_items-few)

pub one_item-IsLinked : IsLinked one_item 0
one_item-IsLinked =
    let (ok, v, a, c, h) =
      enqueue_fits no_items 0 1000 (item_of 1) no_items-IsLinked no_items-IsCounted no_items-limit
        no_items-small (omega arith) (omega arith) no_items-room in
    v

pub one_item-Appends : Appends no_items one_item 0 (item_of 1)
one_item-Appends =
    let (ok, v, a, c, h) =
      enqueue_fits no_items 0 1000 (item_of 1) no_items-IsLinked no_items-IsCounted no_items-limit
        no_items-small (omega arith) (omega arith) no_items-room in
    a

pub one_item-IsCounted : IsCounted one_item 0
one_item-IsCounted =
    let (ok, v, a, c, h) =
      enqueue_fits no_items 0 1000 (item_of 1) no_items-IsLinked no_items-IsCounted no_items-limit
        no_items-small (omega arith) (omega arith) no_items-room in
    c

one_item-allocated : 0 < one_item.allocated
unfolding enqueue mpmc_queue.Memory.can_add_data new_chunked_list
one_item-allocated = elim (lt-or-le 0 one_item.allocated) [
  | inl lt ↦ lt
  | inr le ↦
      let n : one_item.allocated - 0 ≡ 0 = omega arith in
      let e : contents one_item 0 ≡ [] = rw n refl in
      let (ok, v, a, c, h) =
        enqueue_fits no_items 0 1000 (item_of 1) no_items-IsLinked no_items-IsCounted no_items-limit
          no_items-small (omega arith) (omega arith) no_items-room in
      omega (arith, ap length (sym a.all ∙ e))
]

-- The list that a batch of three made.
abbrev pub three_items : ChunkedList
three_items = (enqueue_batch one_item (item_of 2 ∷ item_of 3 ∷ [])).0

pub three_items-IsLinked : IsLinked three_items 0
three_items-IsLinked =
    let (ok, v, a) =
      enqueue_batch-AppendsAll (item_of 2 ∷ item_of 3 ∷ []) one_item 0 one_item-IsLinked in
    v

abbrev pub alice : Consumer
alice = record {
  id = 1;
  cursor = at_start;
  notification_ch = [];
  total_items_read = pos 0;
  last_read_time = pos 0;
  dequeue_history = [];
  max_history = 10;
  closed = false;
  group = none;
}

pub alice-IsReady : IsReady three_items 0 alice
alice-IsReady = record { position = tt; open_ = refl; alone = refl }

abbrev team : ConsumerGroup
team = new_consumer_group 7 "team"

try_read-Reads_example :
    Reads (consumer_reader (pos 5)) three_items 0 alice (try_read (pos 5) three_items alice)
try_read-Reads_example =
    try_read-Reads (pos 5) three_items 0 three_items-IsLinked alice alice-IsReady

try_read_batch-Batch_example :
    Batch
      (pos 5)
      three_items
      0
      three_items-IsLinked
      2
      alice
      (try_read_batch (pos 5) three_items (pos 2) alice)
try_read_batch-Batch_example =
    try_read_batch-Batch (pos 5) three_items 0 three_items-IsLinked (pos 2) alice alice-IsReady

abbrev is_third : QueueData → Bool
is_third d = ltb 2 d.id

try_read_where-Found_example :
    (c' : Consumer) × (try_read_where (pos 5) three_items (some is_third) alice
      ≡ some ((first_match is_third (unread_at three_items 0 alice.cursor)).0, none, c'))
    × (unread_at three_items 0 c'.cursor
        ≡ (first_match is_third (unread_at three_items 0 alice.cursor)).1)
    × IsReady three_items 0 c'
try_read_where-Found_example =
    try_read_where-Found (pos 5) three_items 0 three_items-IsLinked is_third alice alice-IsReady

remove_expired_data-Expiry_example :
    let (cl', removed, infos) = remove_expired_data (instant (pos 20)) (pos 17) three_items in
    (first' : ℕ) × Expiry (pos 20) (pos 17) three_items cl' 0 first' removed infos
remove_expired_data-Expiry_example =
    remove_expired_data-Expiry (pos 20) (pos 17) three_items 0 three_items-IsLinked

unread_count_at-unread_example :
    unread_count_at one_item at_start ≡ pos (length (unread_at one_item 0 at_start))
unread_count_at-unread_example =
    unread_count_at-unread one_item 0 one_item-IsLinked one_item-IsCounted at_start tt

more_at_iff_example :
    (more_at one_item at_start ≡ true) ↔ (0 < length (unread_at one_item 0 at_start))
more_at_iff_example = more_at_iff one_item 0 one_item-IsLinked one_item-IsCounted at_start tt

begin_read-Reads_example :
    Reads group_reader three_items 0 team (begin_read group_reader three_items team)
unfolding new_consumer_group
begin_read-Reads_example =
    begin_read-Reads group_reader group_reader-ReaderLaws three_items 0 three_items-IsLinked team tt

abbrev pub jobs : Queue
jobs =
    record (new_queue_with_config layout64 (pos 0) "jobs" (record {
      ttl = pos 17;
      max_memory = pos 1000;
      max_items = pos 10;
      max_consumer_history = pos 10;
      expiration_check_interval = pos 0;
      consumer_eviction_timeout = pos 0;
    })) { items = three_items }

try_enqueue-OneOrNone_example :
    let (sequence', q', failed) = try_enqueue (pos 5) 3 jobs nothing in
    OneOrNone jobs 0 nothing (q', failed)
try_enqueue-OneOrNone_example = try_enqueue-OneOrNone (pos 5) 3 jobs 0 three_items-IsLinked nothing

try_enqueue_batch-AllOrNothing_example :
    let (sequence', q', failed) = try_enqueue_batch (pos 5) 3 jobs (nothing ∷ nothing ∷ []) in
    AllOrNothing jobs 0 (nothing ∷ nothing ∷ []) (q', failed)
try_enqueue_batch-AllOrNothing_example =
    try_enqueue_batch-AllOrNothing (pos 5) 3 jobs 0 three_items-IsLinked (nothing ∷ nothing ∷ [])

-- A queue with the three items, a consumer that has not begun and a group.
abbrev pub busy : Queue
busy = record jobs {
  ttl = pos 17;
  expiration_enabled = true;
  consumers = record { consumers = alice ∷ []; groups = team ∷ []; active = 1 ∷ [] };
}

busy-cleanup : (cleanup_expired_items (instant (pos 20)) busy).1 ≡ 2
unfolding cleanup_expired_items remove_expired_data expire_elements expire_chunk remove_expired
    expire_from is_expired enqueue enqueue_batch place can_add_data last_chunk add_to_chunk add
    new_chunked_list new_memory_tracker add_data stops_at get_earliest_expiry sub64 wrap64 ◌-ℤ◌
busy-cleanup = refl

team-IsPlacedGroup : IsPlacedGroup three_items 0 team
unfolding new_consumer_group
team-IsPlacedGroup = record { open_ = refl; position = tt }

cleanup_expired_items-Cleaned_example :
    let (q', removed) = cleanup_expired_items (instant (pos 20)) busy in
    (first' : ℕ) × Cleaned (pos 20) busy q' 0 first' removed
cleanup_expired_items-Cleaned_example =
    cleanup_expired_items-Cleaned (pos 20) busy 0 three_items-IsLinked refl
      (record { open_ = refl; position = tt }, tt) (team-IsPlacedGroup, tt)
      (omega (arith, busy-cleanup))

remove_expired_data-IsCounted_example :
    let (cl', removed, infos) = remove_expired_data (instant (pos 20)) (pos 17) one_item in
    (first' : ℕ) × Expiry (pos 20) (pos 17) one_item cl' 0 first' removed infos
    × IsCounted cl' first'
remove_expired_data-IsCounted_example =
    remove_expired_data-IsCounted (pos 20) (pos 17) one_item 0 one_item-IsLinked one_item-IsCounted

note_read-history_example :
    let entry : DequeueRecord = record { data_id = 1; timestamp = pos 5 } in
    let h = alice.dequeue_history in
    let h' = (note_read (pos 5) (item_of 1) alice).dequeue_history in
    (h' ≡ drop (length h + 1 - 10) h ++ entry ∷ []) × (length h' ≤ 10)
note_read-history_example = note_read-history (pos 5) (item_of 1) alice (omega arith)
