-- ===== src/Queue/Blocking/Live.antt =====
-- `Enqueue` and `EnqueueWithContext` (queue/queue.go) do not wait for ever: a wake-up that finds room
-- ends them.
use mpmc_queue.Prelude.{
  ℕ, ◌+◌, ◌≤◌, ◌≡◌, sym, subst, ◌∙◌, ◌⊎◌, inl, inr, false, Option, none, some, List, ◌∷◌, ◌++◌,
  arith, Bool-cases, whenever, otherwise, length,
}
use mpmc_queue.Prelude.Int.{ℤ, pos, ◌<ℤ◌, ◌≤ℤ◌, ltb_ℤ}
use mpmc_queue.Prelude.Int64.{max_int64}
use mpmc_queue.Payload.{Payload}
use mpmc_queue.Data.{QueueData}
use mpmc_queue.Errors.{ContextError, Error, queue_closed, enqueue_failed}
use mpmc_queue.ChunkedList
use mpmc_queue.ChunkedList.{ChunkedList}
use mpmc_queue.ChunkedList.Links.{IsLinked, contents}
use mpmc_queue.ChunkedList.Totals.{IsCounted, held}
use mpmc_queue.ChunkedList.Limit.{enqueue_fits}
use mpmc_queue.Memory.Totals.{footprint}
use mpmc_queue.Queue.{Queue, tracker, new_sized_data}
use mpmc_queue.Queue.Blocking.{
  at_max_items, end_round, enqueue_round, begin_enqueue, enqueue, enqueue_with_context, on_done,
}
use mpmc_queue.Queue.Blocking.Single.{Linked, Kept, Posted, enqueue_round-Does}
use mpmc_queue.Waiting.{Outcome, Wake, signal, ContextWake, signal_in, checked}
use mpmc_queue.Waiting.Laws.{
  AllFound, AllFoundIn, Settles, Finishes, HasReturned, await-HasReturned,
  await_context-HasReturned, Does-Settles, checked-Settles,
}

-- The queue `q` has room for the item: a list that is linked and counted, with fewer items than the
-- bound on them, where there is one, and the item fits under the limit of memory.
pub record HasRoom (q : Queue) (d : QueueData) : Type 0 where
  pub first : ℕ
  pub maximum : ℕ
  pub linked : IsLinked q.items first
  pub counted : IsCounted q.items first
  pub limit : q.items.memory_tracker.max_memory ≡ pos maximum
  pub small : maximum + q.items.memory_tracker.layout.chunk_node_size ≤ max_int64
  pub not_negative : pos 0 ≤ℤ d.size
  pub fits : held q.items first + footprint d ≤ maximum
  pub few : (q.max_items ≤ℤ pos 0) ⊎ (pos (length (contents q.items first)) <ℤ q.max_items)

module _ (q : Queue) (d : QueueData) (h : HasRoom q d) where
  below_max_items : at_max_items q ≡ false
  below_max_items =
      rw h.counted.items (elim h.few [ inl none_set ↦ ground arith | inr below ↦ ground arith ])

  stored_item : (ChunkedList.enqueue q.items d).1 ≡ none
  stored_item =
      let (ok, v, a, c, most) =
        enqueue_fits q.items h.first h.maximum d h.linked h.counted h.limit h.small
          (omega (arith, h.fits, h.small)) h.not_negative h.fits in
      ok

  pub enqueue_round-Finishes : (wrap : Error → Error) → Finishes (enqueue_round wrap d q)
  unfolding enqueue_round end_round
  enqueue_round-Finishes wrap = elim (Bool-cases q.closed) [
    | inl shut ↦ subst Finishes (sym (whenever _ _ shut)) tt
    | inr open_ ↦
        subst Finishes (sym (otherwise _ _ open_ ∙ otherwise _ _ below_max_items))
          (end_round-Finishes wrap (ChunkedList.enqueue q.items d) stored_item)
  ]
    where
      end_round-Finishes :
          (wrap : Error → Error) (r : ChunkedList × Option Error)
          → r.1 ≡ none
          → Finishes (end_round wrap q r)
      end_round-Finishes wrap (cl, none) e = tt
      end_round-Finishes wrap (cl, some x) e = absurd (ground arith)

module _ (now : ℤ) (sequence : ℕ) (q : Queue) (p : Payload) (found : Queue) (u : Linked found)
    (t : Queue) (room : HasRoom t (new_sized_data now sequence p q.name (tracker q)).1) where
  abbrev item : QueueData
  item = (new_sized_data now sequence p q.name (tracker q)).1

  -- Where the loop has returned, so has the call.
  begin_enqueue-HasReturned :
      (loop : QueueData → Outcome Queue (Option Error))
      → HasReturned (loop item)
      → let (sequence', outcome) = begin_enqueue now sequence q p loop in HasReturned outcome
  unfolding begin_enqueue
  begin_enqueue-HasReturned loop h =
      let (sequence', d, mt) = new_sized_data now sequence p q.name (tracker q) in
      let Good = λ (o : ℕ × Outcome Queue (Option Error)). HasReturned o.1 in
      elim (Bool-cases q.closed) [
        | inl shut ↦ subst Good (sym (whenever _ _ shut)) tt
        | inr open_ ↦
            subst Good (sym (otherwise _ _ open_)) (elim (Bool-cases (ltb_ℤ mt.max_memory d.size)) [
              | inl large ↦ rw large tt
              | inr small ↦ rw small h
            ])
      ]

  settles : (wrap : Error → Error) (s : Queue) → Linked s → Settles (enqueue_round wrap item s)
  settles wrap s g =
      Does-Settles (Posted (λ _. Unit {0}) item.payload) Kept s (enqueue_round wrap item s)
        (enqueue_round-Does (λ _. Unit {0}) wrap tt (λ c m n h. tt) item s g)

  -- Where a signal finds a linked list with exact counters, fewer items than the bound on them,
  -- and room for the item under the limit of memory, Enqueue has returned by then, whatever linked
  -- lists it found before.
  pub enqueue-HasReturned :
      (ws vs : List (Wake Queue))
      → AllFound Linked ws
      → let (sequence', outcome) = enqueue now sequence q p found (ws ++ signal t ∷ vs) in
        HasReturned outcome
  unfolding enqueue
  enqueue-HasReturned ws vs all =
      let round = enqueue_round (λ e. e) item in
      begin_enqueue-HasReturned _ (
        await-HasReturned round (some (queue_closed "enqueue")) Linked (settles (λ e. e))
          (round found) ws vs t (settles (λ e. e) found u) all
          (enqueue_round-Finishes t item room (λ e. e)))

  -- The same of EnqueueWithContext, whether or not its context is done at the signal.
  pub enqueue_with_context-HasReturned :
      (done again : Option ContextError) (ws vs : List (ContextWake Queue))
      → AllFoundIn Linked ws
      → let (sequence', outcome) =
          enqueue_with_context now sequence q p done found (ws ++ signal_in again t ∷ vs) in
        HasReturned outcome
  unfolding enqueue_with_context
  enqueue_with_context-HasReturned done again ws vs all =
      let round = enqueue_round enqueue_failed item in
      let stop = some (queue_closed "enqueue") in
      begin_enqueue-HasReturned _ (
        await_context-HasReturned round stop Linked (settles enqueue_failed) on_done
          (checked round stop on_done done found) ws vs again t
          (checked-Settles round stop Linked (settles enqueue_failed) on_done done found u) all
          (enqueue_round-Finishes t item room enqueue_failed))
