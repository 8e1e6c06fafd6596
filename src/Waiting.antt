-- ===== src/Waiting.antt =====
-- The calls that block (queue/queue.go and queue/consumer.go) have one shape: a round that ends the
-- call or finds that it must wait, and a `select` that wakes it for the next round. What others do to
-- the state in between comes with each wake-up. `S` is the state that a round finds, `R` the result.
pub mod Laws
use mpmc_queue.Prelude.{Option, none, some, List, [], ◌∷◌}
use mpmc_queue.Errors.{ContextError}

-- `exhausted` is that a round ran out of fuel.
pub data Round (S R : Type 0) : Type 0 where
  finished : S → R → Round S R
  waiting : S → Round S R
  exhausted : Round S R

-- How far a call gets by the wake-ups it is given: `blocked` is that it waits for another.
pub data Outcome (S R : Type 0) : Type 0 where
  returned : S → R → Outcome S R
  blocked : S → Outcome S R
  stuck : Outcome S R

-- A wake-up of a call without a context, and the state that the call finds then: a receive from the
-- notification channel, or that `stopChan` is closed.
pub data Wake (S : Type 0) : Type 0 where
  signal : S → Wake S
  stopped : S → Wake S

-- The same for a call with a context. At the head of the loop the call looks at the context once more.
pub data ContextWake (S : Type 0) : Type 0 where
  signal_in : Option ContextError → S → ContextWake S
  stopped_in : S → ContextWake S
  cancelled : ContextError → S → ContextWake S

module _ {S R : Type 0} (round : S → Round S R) (on_stop : R) where
  -- The loop, from the end of a round.
  unfoldable pub await : Round S R → List (Wake S) → Outcome S R
  await (finished s r) ws = returned s r
  await exhausted ws = stuck
  await (waiting s) [] = blocked s
  await (waiting s) (signal s' ∷ ws) = await (round s') ws
  await (waiting s) (stopped s' ∷ ws) = returned s' on_stop

  module _ (on_done : ContextError → R) where
    -- A round of a loop with a context, which is looked at first.
    abbrev pub checked : Option ContextError → S → Round S R
    checked none s = round s
    checked (some e) s = finished s (on_done e)

    unfoldable pub await_context : Round S R → List (ContextWake S) → Outcome S R
    await_context (finished s r) ws = returned s r
    await_context exhausted ws = stuck
    await_context (waiting s) [] = blocked s
    await_context (waiting s) (signal_in c s' ∷ ws) = await_context (checked c s') ws
    await_context (waiting s) (stopped_in s' ∷ ws) = returned s' on_stop
    await_context (waiting s) (cancelled e s' ∷ ws) = returned s' (on_done e)
