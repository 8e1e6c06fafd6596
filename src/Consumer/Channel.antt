-- ===== src/Consumer/Channel.antt =====
-- `NativeChannel` of queue/consumer.go: the goroutine that sends what `Read` returns.
use mpmc_queue.Prelude.{Option, none, some, List, [], ◌∷◌}
use mpmc_queue.Data.{QueueData}
use mpmc_queue.Waiting.{Outcome, returned, blocked, stuck, Wake}
use mpmc_queue.Consumer.Blocking.{View, read}

-- What one call of `Read` meets: what others did since the last one, and its wake-ups.
pub record ReadTurn : Type 0 where
  pub meanwhile : View → View
  pub wakes : List (Wake View)

-- What was sent, and how far the goroutine got.
pub data Channel : Type 0 where
  open_channel : List QueueData → View → Channel
  closed_channel : List QueueData → View → Channel
  stuck_channel : Channel

abbrev pub sending : QueueData → Channel → Channel
sending d (open_channel ds s) = open_channel (d ∷ ds) s
sending d (closed_channel ds s) = closed_channel (d ∷ ds) s
sending d stuck_channel = stuck_channel

abbrev after_read : Outcome View (Option QueueData) → (View → Channel) → Channel
after_read (returned s none) onward = closed_channel [] s
after_read (returned s (some d)) onward = sending d (onward s)
after_read (blocked s) onward = open_channel [] s
after_read stuck onward = stuck_channel

-- Each item is received before the next `Read`, since the channel has no buffer.
unfoldable pub native_channel : List ReadTurn → View → Channel
native_channel [] s = open_channel [] s
native_channel (t ∷ ts) s = after_read (read (t.meanwhile s) t.wakes) (native_channel ts)
