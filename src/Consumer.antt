-- ===== src/Consumer.antt =====
-- queue/consumer.go: a consumer with a position of its own, or a member of a group. The clock's
-- reading and the group, where there is one, are arguments.
pub mod Laws
pub mod Batch
pub mod Unread
pub mod Blocking
pub mod Channel
pub mod Callers
use mpmc_queue.Prelude.{
  ℕ, zero, suc, ◌+◌, ◌-◌, ◌*◌, Bool, true, false, Option, none, some, List, [], ◌∷◌, ◌++◌, ltb,
  if◌then◌else◌, length, drop,
}
use mpmc_queue.Prelude.Int.{ℤ, pos, pos_part, leb_ℤ}
use mpmc_queue.Prelude.Int64.{add64}
use mpmc_queue.Data.{QueueData}
use mpmc_queue.Errors.{Error, filter_not_supported}
use mpmc_queue.ChunkedList.{ChunkedList, ChunkRemovalInfo}
use mpmc_queue.Cursor.{Cursor, at, at_start, update_position}
use mpmc_queue.Reader.{Reader, begin_read}
use mpmc_queue.ConsumerGroup
use mpmc_queue.ConsumerGroup.{ConsumerGroup, send_or_drop, more_at, unread_count_at}

pub record DequeueRecord : Type 0 where
  pub data_id : ℕ
  pub timestamp : ℤ

-- `id` is what `uuid.New` gave; `group` is the identity of the consumer's group.
pub record Consumer : Type 0 where
  pub id : ℕ
  pub cursor : Cursor
  pub notification_ch : List ℕ
  pub total_items_read : ℤ
  pub last_read_time : ℤ
  pub dequeue_history : List DequeueRecord
  pub max_history : ℕ
  pub closed : Bool
  pub group : Option ℕ

unfoldable pub new_consumer : ℕ → ℤ → ℕ → Consumer
new_consumer id now max_history = record {
  id = id;
  cursor = at_start;
  notification_ch = [];
  total_items_read = pos 0;
  last_read_time = now;
  dequeue_history = [];
  max_history = max_history;
  closed = false;
  group = none;
}

-- The newest `max` records of a history.
abbrev pub trimmed : ℕ → List DequeueRecord → List DequeueRecord
trimmed max history =
    if ltb max (length history) then drop (length history - max) history else history

unfoldable pub add_to_history : ℤ → ℕ → Consumer → Consumer
add_to_history now data_id c = record c {
  dequeue_history =
      trimmed c.max_history
        (c.dequeue_history ++ record { data_id = data_id; timestamp = now } ∷ []);
}

-- What a consumer notes of an item that it returns, but for its position.
unfoldable pub note_read : ℤ → QueueData → Consumer → Consumer
note_read now d c =
    let c' = add_to_history now d.id c in
    record c' { last_read_time = now; total_items_read = add64 c'.total_items_read (pos 1) }

-- At an expired index a consumer goes on to the head.
abbrev pub consumer_reader : ℤ → Reader Consumer
consumer_reader now = record {
  cursor_of = λ c. c.cursor;
  put_cursor = λ cur c. record c { cursor = cur };
  delivered = note_read now;
  skip = λ h i. h;
}

-- The path of `TryRead` for a consumer with no group.
unfoldable pub try_read : ℤ → ChunkedList → Consumer → Option (Option QueueData × Consumer)
try_read now cl c = if c.closed then some (none, c) else begin_read (consumer_reader now) cl c

-- The path for a member of the group `g`: the group reads, and the member notes the item.
unfoldable pub try_read_in_group :
    ℤ
    → Bool
    → ChunkedList
    → ConsumerGroup
    → Consumer
    → Option (Option QueueData × ConsumerGroup × Consumer)
try_read_in_group now queue_closed cl g c =
    if c.closed then some (none, g, c) else elim (ConsumerGroup.try_read queue_closed cl g) [
      | none ↦ none
      | some (out, g') ↦ some (out, g', elim out [ none ↦ c | some d ↦ note_read now d c ])
    ]

-- The loop of `TryReadBatch` with room for `n` more items.
unfoldable pub read_up_to : ℤ → ChunkedList → ℕ → Consumer → Option (List QueueData × Consumer)
read_up_to now cl zero c = some ([], c)
read_up_to now cl (suc n) c = elim (try_read now cl c) [
  | none ↦ none
  | some (none, c') ↦ some ([], c')
  | some (some d, c') ↦ elim (read_up_to now cl n c') [
    | none ↦ none
    | some (ds, c'') ↦ some (d ∷ ds, c'')
  ]
]

unfoldable pub try_read_batch : ℤ → ChunkedList → ℤ → Consumer → Option (List QueueData × Consumer)
try_read_batch now cl limit c =
    if leb_ℤ limit (pos 0) then some ([], c) else read_up_to now cl (pos_part limit) c

-- The loop of `TryReadWhere` on fuel; each round but the last consumes an item.
unfoldable pub read_until :
    ℤ → ChunkedList → (QueueData → Bool) → ℕ → Consumer → Option (Option QueueData × Consumer)
read_until now cl predicate zero c = none
read_until now cl predicate (suc fuel) c = elim (try_read now cl c) [
  | none ↦ none
  | some (none, c') ↦ some (none, c')
  | some (some d, c') ↦ elim (predicate d) [
    | true ↦ some (some d, c')
    | false ↦ read_until now cl predicate fuel c'
  ]
]

-- `none` for the predicate is nil. Chunks hold 1000 items at most.
unfoldable pub try_read_where :
    ℤ
    → ChunkedList
    → Option (QueueData → Bool)
    → Consumer
    → Option (Option QueueData × Option Error × Consumer)
try_read_where now cl predicate c = elim c.group [
  | some _ ↦ some (none, some filter_not_supported, c)
  | none ↦ elim predicate [
    | none ↦ some (none, none, c)
    | some p ↦ elim (read_until now cl p (cl.allocated * 1000 + 1) c) [
      | none ↦ none
      | some (out, c') ↦ some (out, none, c')
    ]
  ]
]

-- For a consumer with no group; below, for a member of the group `g`.
unfoldable pub has_more_data : ChunkedList → Consumer → Bool
has_more_data cl c = if c.closed then false else more_at cl c.cursor

unfoldable pub has_more_data_in_group : Bool → ChunkedList → ConsumerGroup → Consumer → Bool
has_more_data_in_group queue_closed cl g c =
    if c.closed then false else ConsumerGroup.has_more_data queue_closed cl g

unfoldable pub get_unread_count : ChunkedList → Consumer → ℤ
get_unread_count cl c = if c.closed then pos 0 else unread_count_at cl c.cursor

unfoldable pub get_unread_count_in_group : Bool → ChunkedList → ConsumerGroup → Consumer → ℤ
get_unread_count_in_group queue_closed cl g c =
    if c.closed then pos 0 else ConsumerGroup.get_unread_count queue_closed cl g

unfoldable pub notify_expired_items : Consumer → ℕ → Consumer
notify_expired_items c count =
    if c.closed then c else record c { notification_ch = send_or_drop c.notification_ch count }

unfoldable pub update_position_after_expiration :
    ChunkedList → ℕ → Option ℕ → List ChunkRemovalInfo → Consumer → Consumer
update_position_after_expiration cl expired_count first infos c = elim c.group [
  | some _ ↦ c
  | none ↦ record c { cursor = update_position cl expired_count first infos c.cursor }
]

unfoldable pub set_position : Cursor → Consumer → Consumer
set_position cur c = record c { cursor = cur }

-- Closing twice is closing once.
unfoldable pub close : Consumer → Consumer
close c = record c { closed = true }
