-- ===== src/Queue/Lifecycle.antt =====
-- The calls of queue/queue.go that change its settings, report on it and end it.
pub mod Closed
pub mod Index
use Prim.Native.String.{String}
use mpmc_queue.Prelude.{
  ℕ, Bool, true, false, ◌||◌, Option, none, some, List, [], ◌∷◌, map, ◌==◌, if◌then◌else◌, length,
  not,
}
use mpmc_queue.Prelude.Int.{ℤ, pos, leb_ℤ}
use mpmc_queue.Errors.{ContextError}
use mpmc_queue.ChunkedList.{ChunkedList, Clock, clear, is_empty_list}
use mpmc_queue.Consumer
use mpmc_queue.Consumer.{Consumer, DequeueRecord}
use mpmc_queue.ConsumerGroup
use mpmc_queue.ConsumerGroup.{ConsumerGroup, unread_count_at}
use mpmc_queue.Cursor.{Cursor}
use mpmc_queue.Queue.{Queue, tracker, cleanup_expired_items}
use mpmc_queue.Queue.Manager.{ConsumerManager, get_all_consumers}

abbrev pub is_listed : ℕ → List ℕ → Bool
is_listed id [] = false
is_listed id (i ∷ ids) = i == id || is_listed id ids

-- The loop over the snapshot of the consumers.
abbrev pub close_listed : List ℕ → List Consumer → List Consumer
close_listed ids cs = map (λ c. if is_listed c.id ids then Consumer.close c else c) cs

-- The wait for the expiration worker ends once `stopChan` is closed.
unfoldable pub close : Queue → Queue
close q =
    if q.closed
    then q
    else let cm = q.consumers in
      record q {
        closed = true;
        stopped = true;
        consumers = record cm { consumers = close_listed (get_all_consumers cm) cm.consumers };
        items = clear q.items;
      }

-- `ended` is that the context ends before `Close` has; the queue is that which `Close` leaves, then or
-- in the background.
unfoldable pub close_with_context : Option ContextError → Queue → Queue × Option ContextError
close_with_context ended q = (close q, ended)

unfoldable pub set_ttl : ℤ → Queue → Queue
set_ttl ttl q = record q { ttl = ttl }

unfoldable pub enable_expiration : Queue → Queue
enable_expiration q = record q { expiration_enabled = true }

unfoldable pub disable_expiration : Queue → Queue
disable_expiration q = record q { expiration_enabled = false }

unfoldable pub force_expiration : Clock → Queue → Queue × ℕ
force_expiration clock q = cleanup_expired_items clock q

abbrev pub is_empty : Queue → Bool
is_empty q = is_empty_list q.items

pub record QueueStats : Type 0 where
  pub name : String
  pub total_items : ℤ
  pub memory_usage : ℤ
  pub consumer_count : ℕ
  pub created_at : ℤ
  pub ttl : ℤ

-- But for the percentage of memory, a floating-point number.
unfoldable pub get_queue_stats : Queue → QueueStats
get_queue_stats q = record {
  name = q.name;
  total_items = q.items.total_items;
  memory_usage = (tracker q).total_memory;
  consumer_count = length q.consumers.consumers;
  created_at = q.created_at;
  ttl = q.ttl;
}

pub record ConsumerStats : Type 0 where
  pub id : ℕ
  pub total_items_read : ℤ
  pub unread_items : ℤ
  pub last_read_time : ℤ

-- `group` is the consumer's group, for a member.
unfoldable pub get_stats : Bool → ChunkedList → Option ConsumerGroup → Consumer → ConsumerStats
get_stats queue_closed cl group c = record {
  id = c.id;
  total_items_read = c.total_items_read;
  unread_items = elim group [
    | some g ↦ ConsumerGroup.get_unread_count queue_closed cl g
    | none ↦ unread_count_at cl c.cursor
  ];
  last_read_time = c.last_read_time;
}

unfoldable pub get_position : Option ConsumerGroup → Consumer → Cursor
get_position group c = elim group [ some g ↦ g.cursor | none ↦ c.cursor ]
