-- ===== src/Consumer/Blocking.antt =====
-- The calls of queue/consumer.go that block a reader: `Read`, `ReadBatch`, `ReadWhere` and the same
-- with a context. A wake-up holds what the call finds then: what others did to the list, and what
-- expiration did to the consumer or its group.
pub mod Any
pub mod Filtered
pub mod Many
pub mod Served
use mpmc_queue.Prelude.{
  ℕ, zero, suc, ◌-◌, Bool, true, false, Option, none, some, List, [], ◌∷◌, if◌then◌else◌,
}
use mpmc_queue.Prelude.Int.{ℤ, pos, pos_part, leb_ℤ}
use mpmc_queue.Data.{QueueData}
use mpmc_queue.Errors.{ContextError, Error, filter_not_supported, context_error}
use mpmc_queue.ChunkedList.{ChunkedList}
use mpmc_queue.ConsumerGroup.{ConsumerGroup}
use mpmc_queue.Consumer.{Consumer, try_read, try_read_in_group, try_read_where}
use mpmc_queue.Waiting.{
  Round, finished, waiting, exhausted, Outcome, returned, blocked, stuck, Wake, ContextWake, await,
  checked, await_context,
}

-- What a call of `TryRead` finds: the clock, the queue, the consumer, and the group of a member.
pub record View : Type 0 where
  pub now : ℤ
  pub queue_closed : Bool
  pub items : ChunkedList
  pub consumer : Consumer
  pub group : Option ConsumerGroup

-- `TryRead`, for either kind of consumer.
unfoldable pub read_any : View → Option (Option QueueData × View)
read_any s = elim s.group [
  | none ↦ elim (try_read s.now s.items s.consumer) [
    | none ↦ none
    | some (out, c) ↦ some (out, record s { consumer = c })
  ]
  | some g ↦ elim (try_read_in_group s.now s.queue_closed s.items g s.consumer) [
    | none ↦ none
    | some (out, g', c) ↦ some (out, record s { consumer = c; group = some g' })
  ]
]

unfoldable pub read_round : View → Round View (Option QueueData)
read_round s = elim (read_any s) [
  | none ↦ exhausted
  | some (none, s') ↦ waiting s'
  | some (some d, s') ↦ finished s' (some d)
]

unfoldable pub read : View → List (Wake View) → Outcome View (Option QueueData)
read s ws = await read_round none (read_round s) ws

-- The results of a call with a context: the item, or nil, and the context's error.
abbrev pub with_no_error :
    Round View (Option QueueData) → Round View (Option QueueData × Option ContextError)
with_no_error (finished s out) = finished s (out, none)
with_no_error (waiting s) = waiting s
with_no_error exhausted = exhausted

unfoldable pub read_round_in : View → Round View (Option QueueData × Option ContextError)
read_round_in s = with_no_error (read_round s)

abbrev pub with_error : ContextError → Option QueueData × Option ContextError
with_error e = (none, some e)

-- `done` is the context at the head of the first round.
unfoldable pub read_with_context :
    Option ContextError
    → View
    → List (ContextWake View)
    → Outcome View (Option QueueData × Option ContextError)
read_with_context done s ws =
    await_context read_round_in (none, none) with_error
      (checked read_round_in (none, none) with_error done s) ws

-- The loop behind the first item of a batch, with room for `n` more.
unfoldable pub read_more : ℕ → View → Option (List QueueData × View)
read_more zero s = some ([], s)
read_more (suc n) s = elim (read_any s) [
  | none ↦ none
  | some (none, s') ↦ some ([], s')
  | some (some d, s') ↦ elim (read_more n s') [ none ↦ none | some (ds, s'') ↦ some (d ∷ ds, s'') ]
]

abbrev pub batch_from : QueueData → Option (List QueueData × View) → Outcome View (List QueueData)
batch_from d none = stuck
batch_from d (some (ds, s)) = returned s (d ∷ ds)

-- What `ReadBatch` makes of the outcome of its first `Read`.
abbrev pub continue_batch : ℕ → Outcome View (Option QueueData) → Outcome View (List QueueData)
continue_batch n (returned s none) = returned s []
continue_batch n (returned s (some d)) = batch_from d (read_more n s)
continue_batch n (blocked s) = blocked s
continue_batch n stuck = stuck

unfoldable pub read_batch : ℤ → View → List (Wake View) → Outcome View (List QueueData)
read_batch limit s ws =
    if leb_ℤ limit (pos 0) then returned s [] else continue_batch (pos_part limit - 1) (read s ws)

-- The same loop with a context, which is looked at before each read; `looks` is what it shows, and it
-- is not done where they end.
unfoldable pub read_more_in :
    List (Option ContextError) → ℕ → View → Option (List QueueData × Option ContextError × View)
read_more_in looks zero s = some ([], none, s)
read_more_in (some e ∷ looks) (suc n) s = some ([], some e, s)
read_more_in (none ∷ looks) (suc n) s = elim (read_any s) [
  | none ↦ none
  | some (none, s') ↦ some ([], none, s')
  | some (some d, s') ↦ elim (read_more_in looks n s') [
    | none ↦ none
    | some (ds, e, s'') ↦ some (d ∷ ds, e, s'')
  ]
]
read_more_in [] (suc n) s = elim (read_any s) [
  | none ↦ none
  | some (none, s') ↦ some ([], none, s')
  | some (some d, s') ↦ elim (read_more_in [] n s') [
    | none ↦ none
    | some (ds, e, s'') ↦ some (d ∷ ds, e, s'')
  ]
]

abbrev pub batch_from_in :
    QueueData
    → Option (List QueueData × Option ContextError × View)
    → Outcome View (List QueueData × Option ContextError)
batch_from_in d none = stuck
batch_from_in d (some (ds, e, s)) = returned s (d ∷ ds, e)

abbrev pub continue_batch_in :
    List (Option ContextError)
    → ℕ
    → Outcome View (Option QueueData × Option ContextError)
    → Outcome View (List QueueData × Option ContextError)
continue_batch_in looks n (returned s (out, some e)) = returned s ([], some e)
continue_batch_in looks n (returned s (none, none)) = returned s ([], none)
continue_batch_in looks n (returned s (some d, none)) = batch_from_in d (read_more_in looks n s)
continue_batch_in looks n (blocked s) = blocked s
continue_batch_in looks n stuck = stuck

unfoldable pub read_batch_with_context :
    Option ContextError
    → List (Option ContextError)
    → ℤ
    → View
    → List (ContextWake View)
    → Outcome View (List QueueData × Option ContextError)
read_batch_with_context done looks limit s ws =
    if leb_ℤ limit (pos 0)
    then returned s ([], none)
    else continue_batch_in looks (pos_part limit - 1) (read_with_context done s ws)

-- A round of `ReadWhere`: a search for a match among what is there.
unfoldable pub where_round :
    (QueueData → Bool) → View → Round View (Option QueueData × Option Error)
where_round predicate s = elim (try_read_where s.now s.items (some predicate) s.consumer) [
  | none ↦ exhausted
  | some (out, some e, c) ↦ finished (record s { consumer = c }) (none, some e)
  | some (some d, none, c) ↦ finished (record s { consumer = c }) (some d, none)
  | some (none, none, c) ↦ waiting (record s { consumer = c })
]

unfoldable pub read_where :
    Option (QueueData → Bool)
    → View
    → List (Wake View)
    → Outcome View (Option QueueData × Option Error)
read_where predicate s ws = elim predicate [
  | none ↦ returned s (none, none)
  | some p ↦ elim s.consumer.group [
    | some _ ↦ returned s (none, some filter_not_supported)
    | none ↦ await (where_round p) (none, none) (where_round p s) ws
  ]
]

abbrev pub where_done : ContextError → Option QueueData × Option Error
where_done e = (none, some (context_error e))

unfoldable pub read_where_with_context :
    Option ContextError
    → Option (QueueData → Bool)
    → View
    → List (ContextWake View)
    → Outcome View (Option QueueData × Option Error)
read_where_with_context done predicate s ws = elim predicate [
  | none ↦ returned s (none, none)
  | some p ↦ elim s.consumer.group [
    | some _ ↦ returned s (none, some filter_not_supported)
    | none ↦
        await_context (where_round p) (none, none) where_done
          (checked (where_round p) (none, none) where_done done s) ws
  ]
]
