-- ===== src/Queue/Blocking/Single.antt =====
-- `Enqueue` and `EnqueueWithContext` (queue/queue.go): what stands in the queue when they return, which
-- errors they return, and that they do not wait once there is room.
use mpmc_queue.Prelude.{
  ℕ, ◌≡◌, refl, sym, subst, ◌∙◌, ◌⊎◌, inl, inr, Bool, true, false, Option, none, some, List, ◌∷◌,
  Bool-cases, whenever, otherwise,
}
use mpmc_queue.Prelude.Int.{ℤ, ◌<ℤ◌, ltb_ℤ, ltb_ℤ→lt}
use mpmc_queue.Payload.{Payload}
use mpmc_queue.Data.{QueueData}
use mpmc_queue.Errors.{
  ContextError, Error, queue_closed, memory_limit, enqueue_failed, context_error,
}
use mpmc_queue.ChunkedList
use mpmc_queue.ChunkedList.{ChunkedList}
use mpmc_queue.ChunkedList.Links.{IsLinked}
use mpmc_queue.ChunkedList.Enqueue.{Appends, enqueue-cases}
use mpmc_queue.Memory.{MemoryTracker}
use mpmc_queue.Queue.{Queue, tracker, with_tracker, new_sized_data}
use mpmc_queue.Queue.Enqueue.{payload-new_sized_data, notify_waiting_consumers-items}
use mpmc_queue.Queue.Blocking.{
  at_max_items, end_round, enqueue_round, begin_enqueue, enqueue, enqueue_with_context, on_done,
}
use mpmc_queue.Waiting.{Outcome, Wake, ContextWake}
use mpmc_queue.Waiting.Laws.{
  Found, Answers-mono, states, states_in, loop-Answers, loop_in-Because, HasStop, EndedBy, AllFound,
  AllFoundIn, Does, Answers,
}

-- A queue whose chunks hang together.
abbrev pub Linked : Queue → Type 0
Linked q = (first : ℕ) × IsLinked q.items first

-- The queue as it was, but for the tracker, which caches sizes.
abbrev pub Kept : Queue → Queue → Type 0
Kept q q' = q' ≡ record q { items = record q.items { memory_tracker = q'.items.memory_tracker } }

-- A call that found the queue `q` left `q'`: the payload is in, behind all other items, or the call
-- failed with an error of the kind `Refusal`, and nothing went in.
abbrev pub Posted : (Error → Type 0) → Payload → Queue → Queue → Option Error → Type 0
Posted Refusal p q q' failed =
    ((failed ≡ none)
      × ((first : ℕ) × IsLinked q.items first
          × IsLinked q'.items first
          × ((d : QueueData) × (d.payload ≡ p) × Appends q.items q'.items first d)))
    ⊎ ((e : Error) × (failed ≡ some e) × Refusal e × Kept q q')

module _ (Refusal : Error → Type 0) (wrap : Error → Error)
    (on_closed : Refusal (queue_closed "enqueue"))
    (on_memory : (current maximum needed : ℤ)
      → maximum <ℤ needed
      → Refusal (wrap (memory_limit current maximum needed))) where
  end_round-Does :
      (q : Queue) (d : QueueData)
      → Linked q
      → Does (Posted Refusal d.payload) Kept q (end_round wrap q (ChunkedList.enqueue q.items d))
  unfolding end_round
  end_round-Does q d (first, v) = elim (enqueue-cases q.items first d v) [
    | inl (cl', e, v', a) ↦
        subst (λ r. Does (Posted Refusal d.payload) Kept q (end_round wrap q r)) (sym e)
          (rw (notify_waiting_consumers-items (record q { items = cl' }))
            (inl (refl, (first, v, v', (d, refl, a)))))
    | inr (mt, needed, e) ↦
        let total = q.items.memory_tracker.total_memory in
        let maximum = q.items.memory_tracker.max_memory in
        subst (λ r. Does (Posted Refusal d.payload) Kept q (end_round wrap q r)) (sym e)
          (elim (Bool-cases (ltb_ℤ maximum needed)) [
            | inl hopeless ↦
                rw (hopeless, end_round)
                  (inr (
                    wrap (memory_limit total maximum needed),
                    refl,
                    on_memory total maximum needed (ltb_ℤ→lt maximum needed hopeless),
                    refl,
                  ))
            | inr later ↦ rw (later, end_round) refl
          ])
  ]

  pub enqueue_round-Does :
      (d : QueueData) (q : Queue)
      → Linked q
      → Does (Posted Refusal d.payload) Kept q (enqueue_round wrap d q)
  unfolding enqueue_round
  enqueue_round-Does d q v = elim (Bool-cases q.closed) [
    | inl shut ↦
        subst (Does (Posted Refusal d.payload) Kept q) (sym (whenever _ _ shut))
          (inr (queue_closed "enqueue", refl, on_closed, refl))
    | inr open_ ↦ elim (Bool-cases (at_max_items q)) [
      | inl full ↦
          subst (Does (Posted Refusal d.payload) Kept q)
            (sym (otherwise _ _ open_ ∙ whenever _ _ full)) refl
      | inr room ↦
          subst (Does (Posted Refusal d.payload) Kept q)
            (sym (otherwise _ _ open_ ∙ otherwise _ _ room)) (end_round-Does q d v)
    ]
  ]

-- The errors of `Enqueue`: the queue is closed, or the item needs more memory than there is at all.
abbrev pub Memoryless : Error → Type 0
Memoryless e =
    (current : ℤ) × (maximum : ℤ) × (needed : ℤ) × (e ≡ memory_limit current maximum needed)
    × (maximum <ℤ needed)

abbrev pub Refused : Error → Type 0
Refused e = (e ≡ queue_closed "enqueue") ⊎ Memoryless e

-- Those of `EnqueueWithContext`, with a context `done` and wake-ups `ws`: `large` is that the item is larger
-- than the limit when the call begins. Then the error is that of `Enqueue` itself; later it is wrapped.
abbrev pub RefusedIn : Bool → Option ContextError → List (ContextWake Queue) → Error → Type 0
RefusedIn large done ws e =
    (e ≡ queue_closed "enqueue")
    ⊎ (((large ≡ true) × Memoryless e)
        ⊎ ((large ≡ false)
            × (((cause : Error) × (e ≡ enqueue_failed cause) × Memoryless cause)
                ⊎ ((over : ContextError) × (e ≡ context_error over) × EndedBy done ws over))))

module _ (now : ℤ) (sequence : ℕ) (q : Queue) (p : Payload) (found : Queue) (v : Linked q)
    (u : Linked found) where
  abbrev sized : ℕ × QueueData × MemoryTracker
  sized = new_sized_data now sequence p q.name (tracker q)

  -- The item is larger than the limit, the list's tracker says, when the call begins.
  abbrev pub large : Bool
  large = ltb_ℤ sized.2.max_memory sized.1.size

  same_payload : sized.1.payload ≡ p
  same_payload = payload-new_sized_data now sequence p q.name (tracker q)

  oversized-Posted :
      (Refusal : Error → Type 0) (mt : MemoryTracker)
      → ltb_ℤ mt.max_memory sized.1.size ≡ true
      → ((e : Error) → Memoryless e → Refusal e)
      → Posted Refusal p q
          (with_tracker q mt)
          (some (memory_limit mt.total_memory mt.max_memory sized.1.size))
  oversized-Posted Refusal mt h into = inr (
    memory_limit mt.total_memory mt.max_memory sized.1.size,
    refl,
    into _
        (mt.total_memory, mt.max_memory, sized.1.size, refl, ltb_ℤ→lt mt.max_memory sized.1.size h),
    refl,
  )

  -- Before the loop a call may end; behind it, it does what the loop does.
  begin_enqueue-Answers :
      (ss : List Queue) (Refusal : Error → Type 0)
      → Refusal (queue_closed "enqueue")
      → (large ≡ true → (e : Error) → Memoryless e → Refusal e)
      → (loop : QueueData → Outcome Queue (Option Error))
      → (large ≡ false
          → Answers (Found Linked ss) (Posted Refusal sized.1.payload) Kept (loop sized.1))
      → let (sequence', outcome) = begin_enqueue now sequence q p loop in
        Answers (Found Linked (q ∷ ss)) (Posted Refusal p) Kept outcome
  unfolding begin_enqueue
  begin_enqueue-Answers ss Refusal shut_ok large_ok loop h =
      let (sequence', d, mt) = sized in
      let Good = λ (t : ℕ × Outcome Queue (Option Error)).
        Answers (Found Linked (q ∷ ss)) (Posted Refusal p) Kept t.1 in
      elim (Bool-cases q.closed) [
        | inl shut ↦
            subst Good (sym (whenever _ _ shut))
              (q, (v, inl refl), inr (queue_closed "enqueue", refl, shut_ok, refl))
        | inr open_ ↦
            subst Good (sym (otherwise _ _ open_)) (elim (Bool-cases (ltb_ℤ mt.max_memory d.size)) [
              | inl large ↦
                  rw large (q, (v, inl refl), oversized-Posted Refusal mt large (large_ok large))
              | inr small ↦ rw small (
                  Answers-mono (Found Linked ss) (Found Linked (q ∷ ss)) (Posted Refusal p) Kept
                    (λ s g. (g.0, inr g.1)) (loop d) (rw same_payload at (h small)))
            ])
      ]

  -- Whatever linked lists Enqueue finds at its rounds, it does not run out; if it has returned
  -- with no error, an item with its payload stands behind all others of a list that it found, for
  -- every reader; an error is that the queue is closed or that the item needs more memory than the
  -- limit; then, and while it waits, the list it found is as it was but for the tracker.
  pub enqueue-Answers :
      (ws : List (Wake Queue))
      → AllFound Linked ws
      → let (sequence', outcome) = enqueue now sequence q p found ws in
        Answers (Found Linked (q ∷ found ∷ states ws)) (Posted Refused p) Kept outcome
  unfolding enqueue
  enqueue-Answers ws all =
      let d = sized.1 in
      let round = enqueue_round (λ e. e) d in
      let does =
        enqueue_round-Does Refused (λ e. e) (inl refl) (λ c m n h. inr (c, m, n, refl, h)) d in
      begin_enqueue-Answers (found ∷ states ws) Refused (inl refl) (λ k e r. inr r) _
        (λ k.
          loop-Answers round (some (queue_closed "enqueue")) Linked (Posted Refused d.payload) Kept
            does (λ s g. inr (queue_closed "enqueue", refl, inl refl, refl)) found ws u all)

  -- Whatever linked lists EnqueueWithContext finds at its rounds, it does not run out; if it has
  -- returned with no error, an item with its payload stands behind all others of a list that it
  -- found, for every reader; and then, and while it waits, the list it found is as it was but for
  -- the tracker where nothing went in. An error is that the queue is closed; or that the item
  -- needs more memory than the limit, as it is if the item was larger than the limit when the call
  -- began, and otherwise wrapped; or, for such an item that was not larger, that of its context,
  -- which was over at the start or at a wake-up.
  pub enqueue_with_context-Answers :
      (done : Option ContextError) (ws : List (ContextWake Queue))
      → AllFoundIn Linked ws
      → let (sequence', outcome) = enqueue_with_context now sequence q p done found ws in
        Answers
          (Found Linked (q ∷ found ∷ states_in ws))
          (Posted (RefusedIn large done ws) p)
          Kept
          outcome
  unfolding enqueue_with_context
  enqueue_with_context-Answers done ws all =
      let d = sized.1 in
      let round = enqueue_round enqueue_failed d in
      let stop = some (queue_closed "enqueue") in
      begin_enqueue-Answers (found ∷ states_in ws) (RefusedIn large done ws) (inl refl)
        (λ k e r. inr (inl (k, r))) _
        (λ small.
          let does =
            enqueue_round-Does (RefusedIn large done ws) enqueue_failed (inl refl)
              (λ c m n h. inr (inr (small, inl (memory_limit c m n, refl, (c, m, n, refl, h)))))
              d in
          let stops = λ (k : HasStop ws) (s : Queue) (g : Linked s).
            inr (queue_closed "enqueue", refl, inl refl, refl) in
          let ends = λ (e : ContextError) (k : EndedBy done ws e) (s : Queue) (g : Linked s).
            inr (context_error e, refl, inr (inr (small, inr (e, refl, k))), refl) in
          loop_in-Because round stop Linked (Posted (RefusedIn large done ws) d.payload) Kept does
            on_done done found ws stops ends u all)
