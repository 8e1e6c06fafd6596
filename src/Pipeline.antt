-- ===== src/Pipeline.antt =====
-- examples/patterns/data_pipeline.go: the stages of a pipeline of queues. A stage is modelled between
-- the calls that it makes, so that the stages before it go on in between; what it passes to
-- `outQ.Enqueue`, whose error it ignores, is the list `sent`.
pub mod Upstream
pub mod Queues
pub mod Workers
pub mod Shuffle
pub mod Steps
pub mod Delivery
pub mod Ending
pub mod Generator
pub mod Batched
pub mod Batching
pub mod Batches
use mpmc_queue.Prelude.{
  ℕ, zero, suc, Bool, true, false, Option, none, some, List, [], ◌∷◌, ◌++◌, leb, if◌then◌else◌,
  length,
}
use Upstream.{Source}

-- Where the goroutine of `Batch` is: at the `TryRead` of its loop, at the `select`, in the loop that
-- drains the rest, or at its end.
pub data Phase : Type 0 where
  polling selecting draining ended : Phase

-- What the `select` finds.
pub data Signal : Type 0 where
  upstream_done ticked neither : Signal

-- The goroutine of `Batch`. A batch is sent as a copy, so it stays as it was sent.
pub record Batcher (S A : Type 0) : Type 0 where
  pub source : S
  pub phase : Phase
  pub batch : List A
  pub sent : List (List A)

module _ {S A : Type 0} where
  unfoldable pub flush : Batcher S A → Batcher S A
  flush b =
      if leb (length b.batch) 0 then b else record b { sent = b.sent ++ b.batch ∷ []; batch = [] }

  -- The item is appended, and a full batch sent.
  unfoldable pub collect : ℕ → A → Batcher S A → Batcher S A
  collect batch_size a b =
      let b' = record b { batch = b.batch ++ a ∷ [] } in
      if leb batch_size (length b'.batch) then flush b' else b'

  -- A `TryRead`, and `next` for where the goroutine goes on if there was nothing.
  unfoldable pub poll : Source S A → ℕ → (Batcher S A → Batcher S A) → Batcher S A → Batcher S A
  poll src batch_size next b =
      let (out, s) = src.try_read b.source in
      elim out [
        | none ↦ next (record b { source = s })
        | some a ↦ collect batch_size a (record b { source = s })
      ]

  unfoldable pub select : Signal → Batcher S A → Batcher S A
  select upstream_done b = record b { phase = draining }
  select ticked b = record (flush b) { phase = polling }
  select neither b = record b { phase = polling }

  abbrev pub to_select : Batcher S A → Batcher S A
  to_select b = record b { phase = selecting }

  -- The final flush.
  abbrev pub finish : Batcher S A → Batcher S A
  finish b = record (flush b) { phase = ended }

  abbrev pub step_in : Source S A → ℕ → Signal → Phase → Batcher S A → Batcher S A
  step_in src batch_size signal polling b = poll src batch_size to_select b
  step_in src batch_size signal selecting b = select signal b
  step_in src batch_size signal draining b = poll src batch_size finish b
  step_in src batch_size signal ended b = b

  -- The goroutine's next call.
  unfoldable pub batch_step : Source S A → ℕ → Signal → Batcher S A → Batcher S A
  batch_step src batch_size signal b = step_in src batch_size signal b.phase b

  -- The goroutine's next `k` calls, where the stages before are done.
  abbrev pub calls : Source S A → ℕ → ℕ → Batcher S A → Batcher S A
  calls src batch_size zero b = b
  calls src batch_size (suc k) b =
      calls src batch_size k (batch_step src batch_size upstream_done b)
