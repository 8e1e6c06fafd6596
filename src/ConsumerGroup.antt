-- ===== src/ConsumerGroup.antt =====
-- queue/consumer_group.go: consumers that share one position, so that an item goes to one of them.
-- `identity` stands for the pointer; the queue's `closed` flag is an argument.
pub mod Laws
pub mod Members
use Prim.Native.String.{String}
use mpmc_queue.Prelude.{
  ℕ, ◌+◌, Bool, true, false, ◌||◌, not, Option, none, some, List, [], ◌∷◌, ◌++◌, ltb, if◌then◌else◌,
  length,
}
use mpmc_queue.Prelude.Int.{ℤ, pos}
use mpmc_queue.Data.{QueueData}
use mpmc_queue.ChunkedList.{ChunkedList, ChunkRemovalInfo, is_empty_list, count_items_from}
use mpmc_queue.Errors.{Error, filter_not_supported}
use mpmc_queue.Cursor.{Cursor, at_start, update_position}
use mpmc_queue.Reader.{Reader, begin_read}

-- A buffered channel of 100 numbers holds what was sent and not yet received.
abbrev pub notification_capacity : ℕ
notification_capacity = 100

-- A send that drops the number where the channel is full.
abbrev pub send_or_drop : List ℕ → ℕ → List ℕ
send_or_drop ch n = if ltb (length ch) notification_capacity then ch ++ n ∷ [] else ch

pub record ConsumerGroup : Type 0 where
  pub identity : ℕ
  pub name : String
  pub cursor : Cursor
  pub notification_ch : List ℕ
  pub closed : Bool

unfoldable pub new_consumer_group : ℕ → String → ConsumerGroup
new_consumer_group identity name = record {
  identity = identity;
  name = name;
  cursor = at_start;
  notification_ch = [];
  closed = false;
}

unfoldable pub notify_expired_items : ConsumerGroup → ℕ → ConsumerGroup
notify_expired_items g count =
    if g.closed then g else record g { notification_ch = send_or_drop g.notification_ch count }

-- At an expired index a group goes on by one.
abbrev pub group_reader : Reader ConsumerGroup
group_reader = record {
  cursor_of = λ g. g.cursor;
  put_cursor = λ c g. record g { cursor = c };
  delivered = λ d g. g;
  skip = λ h i. i + 1;
}

unfoldable pub try_read :
    Bool → ChunkedList → ConsumerGroup → Option (Option QueueData × ConsumerGroup)
try_read queue_closed cl g =
    if queue_closed || g.closed then some (none, g) else begin_read group_reader cl g

unfoldable pub update_position_after_expiration :
    ChunkedList → ℕ → Option ℕ → List ChunkRemovalInfo → ConsumerGroup → ConsumerGroup
update_position_after_expiration cl expired_count first infos g =
    if g.closed
    then g
    else record g { cursor = update_position cl expired_count first infos g.cursor }

unfoldable pub try_read_where : ConsumerGroup → (QueueData → Bool) → Option QueueData × Option Error
try_read_where g predicate = (none, some filter_not_supported)

-- The tests that a consumer and a group make at their position.
unfoldable pub more_at : ChunkedList → Cursor → Bool
more_at cl cur = elim cur.chunk_element [
  | none ↦ not (is_empty_list cl)
  | some e ↦
      let c = cl.chunks e in
      if ltb cur.index_in_chunk c.size
      then true
      else elim c.next_element [ none ↦ false | some _ ↦ true ]
]

unfoldable pub unread_count_at : ChunkedList → Cursor → ℤ
unread_count_at cl cur = elim cur.chunk_element [
  | none ↦ cl.total_items
  | some e ↦ pos (count_items_from cl (some e) cur.index_in_chunk)
]

unfoldable pub has_more_data : Bool → ChunkedList → ConsumerGroup → Bool
has_more_data queue_closed cl g = if queue_closed || g.closed then false else more_at cl g.cursor

unfoldable pub get_unread_count : Bool → ChunkedList → ConsumerGroup → ℤ
get_unread_count queue_closed cl g =
    if queue_closed || g.closed then pos 0 else unread_count_at cl g.cursor

-- Closing twice is closing once.
unfoldable pub close : ConsumerGroup → ConsumerGroup
close g = record g { closed = true }
