-- ===== src/Shell.antt =====
-- cmd/qctl/main.go: the shell over a set of queues. `strconv.Atoi`, the sizes of Go's types and the
-- clock are parameters; a line comes split into its fields. What is printed is a value. Go walks its
-- map of queues in any order; here it is the order in which they were created, newest first.
pub mod Book
pub mod Laws
pub mod Session
use Prim.Native.String.{String, len}
use text.Mathlib.Text.{◌==◌ as str_eq}
use mpmc_queue.Prelude.{
  ℕ, ◌+◌, ◌*◌, Bool, true, false, ◌||◌, Option, none, some, List, [], ◌∷◌, map, if◌then◌else◌,
  length,
}
use mpmc_queue.Prelude.Int.{ℤ, pos, negsuc}
use mpmc_queue.Prelude.Int64.{wrap64}
use mpmc_queue.Payload.{Payload, string_of_length}
use mpmc_queue.Data.{QueueData}
use mpmc_queue.Errors.{Error}
use mpmc_queue.Memory.{Layout}
use mpmc_queue.Waiting.{Outcome, returned, blocked, stuck, Wake}
use mpmc_queue.Consumer.{Consumer}
use mpmc_queue.Queue.{Queue, default_ttl, try_enqueue}
use mpmc_queue.Queue.Facade.{new_queue_with_ttl, add_consumer}
use mpmc_queue.Queue.Lifecycle.{QueueStats, get_queue_stats}
use Book.{lookup, put}

-- `queues` and `consumers`, with the package's counter of items. A consumer is known by its id and the
-- name of its queue.
pub record Shell : Type 0 where
  pub queues : List (String × Queue)
  pub consumers : List (ℕ × String)
  pub sequence : ℕ

abbrev pub empty_shell : Shell
empty_shell = record { queues = []; consumers = []; sequence = 0 }

pub data Reply : Type 0 where
  silent help_text unknown_command bye : Reply
  usage_create usage_stats usage_pub usage_sub : Reply
  already_exists : String → Reply
  created_queue : String → ℤ → Reply
  no_queues : Reply
  listed : List (String × ℤ × ℕ) → Reply
  not_found : String → Reply
  stats_reply : QueueStats → Reply
  enqueue_failed : Error → Reply
  message_enqueued : Reply
  started_consumer : ℕ → Reply

-- `time.Duration(sec) * time.Second`
abbrev pub seconds : ℤ → ℤ
seconds (pos n) = wrap64 (pos (n * 1000000000))
seconds (negsuc n) = wrap64 (negsuc (n * 1000000000 + 999999999))

-- The lengths of words joined by single spaces.
abbrev pub joined_length : List String → ℕ
joined_length [] = 0
joined_length (w ∷ []) = len w
joined_length (w ∷ v ∷ ws) = len w + 1 + joined_length (v ∷ ws)

module _ (atoi : String → Option ℤ) (layout : Layout) where
  abbrev pub ttl_of : List String → ℤ
  ttl_of [] = default_ttl
  ttl_of (w ∷ ws) = elim (atoi w) [ none ↦ default_ttl | some sec ↦ seconds sec ]

  unfoldable pub handle_create : ℤ → List String → Shell → Shell × Reply
  handle_create now [] sh = (sh, usage_create)
  handle_create now (name ∷ rest) sh = elim (lookup name sh.queues) [
    | some _ ↦ (sh, already_exists name)
    | none ↦
        let ttl = ttl_of rest in
        (
          record sh { queues = (name, new_queue_with_ttl layout now name ttl) ∷ sh.queues },
          created_queue name ttl,
        )
  ]

abbrev pub list_entry : String × Queue → String × ℤ × ℕ
list_entry (name, q) =
    let stats = get_queue_stats q in (name, stats.total_items, stats.consumer_count)

unfoldable pub handle_list : Shell → Shell × Reply
handle_list sh = elim sh.queues [
  | [] ↦ (sh, no_queues)
  | q ∷ qs ↦ (sh, listed (map list_entry (q ∷ qs)))
]

unfoldable pub handle_stats : List String → Shell → Shell × Reply
handle_stats [] sh = (sh, usage_stats)
handle_stats (name ∷ rest) sh = elim (lookup name sh.queues) [
  | none ↦ (sh, not_found name)
  | some q ↦ (sh, stats_reply (get_queue_stats q))
]

abbrev pub publish_reply : Option Error → Reply
publish_reply none = message_enqueued
publish_reply (some e) = enqueue_failed e

unfoldable pub handle_pub : ℤ → List String → Shell → Shell × Reply
handle_pub now [] sh = (sh, usage_pub)
handle_pub now (name ∷ []) sh = (sh, usage_pub)
handle_pub now (name ∷ word ∷ words) sh = elim (lookup name sh.queues) [
  | none ↦ (sh, not_found name)
  | some q ↦
      let (sequence, q', failed) =
        try_enqueue now sh.sequence q (string_of_length (joined_length (word ∷ words))) in
      (record sh { queues = put name q' sh.queues; sequence = sequence }, publish_reply failed)
]

-- `id` is the consumer's. Its goroutine is one more reader of the queue.
unfoldable pub handle_sub : ℤ → ℕ → List String → Shell → Shell × Reply
handle_sub now id [] sh = (sh, usage_sub)
handle_sub now id (name ∷ rest) sh = elim (lookup name sh.queues) [
  | none ↦ (sh, not_found name)
  | some q ↦
      let (q', c) = add_consumer id now q in
      (
        record sh { queues = put name q' sh.queues; consumers = (id, name) ∷ sh.consumers },
        started_consumer id,
      )
]

-- A line of input: the clock and the id that a consumer would get, with the fields of the line.
pub record Line : Type 0 where
  pub now : ℤ
  pub id : ℕ
  pub fields : List String

-- The shell after a line; `true` tells that it ends.
abbrev pub going_on : Shell × Reply → Shell × Reply × Bool
going_on (sh, r) = (sh, r, false)

-- A line's reply before the rest of the session, if there is one.
abbrev pub continued : Bool → Shell → Reply → Shell × List Reply → Shell × List Reply
continued true sh r rest = (sh, r ∷ [])
continued false sh r (sh', rs) = (sh', r ∷ rs)

module _ (atoi : String → Option ℤ) (layout : Layout) where
  unfoldable pub dispatch : ℤ → ℕ → String → List String → Shell → Shell × Reply × Bool
  dispatch now id cmd args sh =
      if str_eq cmd "create"
      then going_on (handle_create atoi layout now args sh)
      else if str_eq cmd "list"
      then going_on (handle_list sh)
      else if str_eq cmd "stats"
      then going_on (handle_stats args sh)
      else if str_eq cmd "pub"
      then going_on (handle_pub now args sh)
      else if str_eq cmd "sub"
      then going_on (handle_sub now id args sh)
      else if str_eq cmd "help"
      then (sh, help_text, false)
      else if str_eq cmd "exit" || str_eq cmd "quit"
      then (sh, bye, true)
      else (sh, unknown_command, false)

  unfoldable pub execute : Line → Shell → Shell × Reply × Bool
  execute line sh = elim line.fields [
    | [] ↦ (sh, silent, false)
    | cmd ∷ args ↦ dispatch line.now line.id cmd args sh
  ]

  -- The loop of `main`: what was printed, and the shell at the end of the input or of the session.
  unfoldable pub session : List Line → Shell → Shell × List Reply
  session [] sh = (sh, [])
  session (line ∷ lines) sh =
      let (sh', r, over) = execute line sh in continued over sh' r (session lines sh')
