-- ===== src/Errors.antt =====
-- queue/errors.go, and the errors that other calls return: those of `fmt.Errorf` and of a context.
use Prim.Native.String.{String, ◌++◌, len}
use mpmc_queue.Prelude.{◌==◌, if◌then◌else◌}
use mpmc_queue.Prelude.Int.{ℤ}

-- What `ctx.Err()` returns once the context is done.
pub data ContextError : Type 0 where
  canceled deadline_exceeded : ContextError

pub data Error : Type 0 where
  queue_closed : String → Error
  memory_limit : ℤ → ℤ → ℤ → Error
  queue_full : ℤ → Error
  queue_error : String → Error
  filter_not_supported : Error
  batch_overflow : Error
  enqueue_failed : Error → Error
  context_error : ContextError → Error

-- The texts of `Error()`. How `fmt` writes an int64, and the texts of a context's errors, are parameters.
-- No operation returns the first two errors.
unfoldable pub consumer_not_found_text : String → String
consumer_not_found_text id = "consumer not found: " ++ id

module _ (decimal : ℤ → String) where
  unfoldable pub invalid_position_text : ℤ → String → String
  invalid_position_text position reason =
      if len reason == 0
      then "invalid position: " ++ decimal position
      else "invalid position " ++ decimal position ++ ": " ++ reason

  -- `fmt.Errorf` with `%w` is the text before that of the error that it wraps.
  unfoldable pub error_text : (ContextError → String) → Error → String
  error_text context_text (queue_closed operation) =
      if len operation == 0
      then "queue closed"
      else "queue closed: cannot perform " ++ operation ++ " operation"
  error_text context_text (memory_limit current max needed) =
      "memory limit exceeded: current="
      ++ decimal current
      ++ ", max="
      ++ decimal max
      ++ ", needed="
      ++ decimal needed
  error_text context_text (queue_full max_items) =
      "queue item limit reached: max=" ++ decimal max_items
  error_text context_text (queue_error message) = message
  error_text context_text filter_not_supported =
      "filtering operations are not supported for consumer groups"
  error_text context_text batch_overflow = "integer overflow in batch memory calculation"
  error_text context_text (enqueue_failed e) = "enqueue failed: " ++ error_text context_text e
  error_text context_text (context_error e) = context_text e
