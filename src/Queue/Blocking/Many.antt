-- ===== src/Queue/Blocking/Many.antt =====
-- `EnqueueBatch` and `EnqueueBatchWithContext` (queue/queue.go): all items go in together, or none, and
-- which errors come back.
use mpmc_queue.Prelude.{
  ℕ, ◌≡◌, refl, ap, sym, subst, ◌∙◌, ◌⊎◌, inl, inr, false, Option, none, some, List, ◌∷◌, [], arith,
  Bool-cases, whenever, otherwise, length, leb, ◌&&◌, append-nil,
}
use mpmc_queue.Prelude.Int.{ℤ, pos, ◌<ℤ◌, ltb_ℤ, leb_ℤ, ltb_ℤ→lt}
use mpmc_queue.Prelude.Int64.{sub64}
use mpmc_queue.Payload.{Payload}
use mpmc_queue.Data.{QueueData}
use mpmc_queue.Errors.{
  ContextError, Error, queue_closed, queue_full, memory_limit, batch_overflow, context_error,
}
use mpmc_queue.ChunkedList
use mpmc_queue.ChunkedList.{ChunkedList}
use mpmc_queue.ChunkedList.Links.{IsLinked}
use mpmc_queue.ChunkedList.Enqueue.{AppendsAll, enqueue_batch-AppendsAll}
use mpmc_queue.Queue.{Queue, Batch, tracker, make_batch, over_max_items}
use mpmc_queue.Queue.Enqueue.{
  payloads, payloads-make_batch, no_payloads, notify_waiting_consumers-items,
}
use mpmc_queue.Queue.Blocking.{
  end_batch, batch_round, begin_batch, enqueue_batch, enqueue_batch_with_context, on_done,
}
use mpmc_queue.Queue.Blocking.Single.{Linked, Kept}
use mpmc_queue.Waiting.{Round, finished, Outcome, Wake, ContextWake}
use mpmc_queue.Waiting.Laws.{
  Found, Answers-mono, states, states_in, loop-Answers, loop_in-Answers, AllFound, AllFoundIn, Does,
  Answers,
}

-- A call that found the queue `q` left `q'`: an item for each payload is in, in order, behind all other
-- items, or the call failed with an error of the kind `Refusal`, and nothing went in.
abbrev pub PostedAll : (Error → Type 0) → List Payload → Queue → Queue → Option Error → Type 0
PostedAll Refusal ps q q' failed =
    ((failed ≡ none)
      × ((first : ℕ) × IsLinked q.items first
          × IsLinked q'.items first
          × ((ds : List QueueData) × (payloads ds ≡ ps) × AppendsAll q.items q'.items first ds)))
    ⊎ ((e : Error) × (failed ≡ some e) × Refusal e × Kept q q')

-- The errors of `EnqueueBatch` for a batch of `n`: the queue is closed, the sizes do not fit an int64,
-- or the batch is larger than the queue can be, by its number or by its size.
abbrev pub RefusedAll : ℕ → Error → Type 0
RefusedAll n e =
    (e ≡ queue_closed "enqueue batch")
    ⊎ ((e ≡ batch_overflow)
        ⊎ (((maximum : ℤ) × (e ≡ queue_full maximum) × (maximum <ℤ pos n))
            ⊎ ((current : ℤ) × (maximum : ℤ) × (needed : ℤ) × (e
                  ≡ memory_limit current maximum needed)
                × (maximum <ℤ needed))))

-- With a context, its end too.
abbrev pub RefusedAllIn : ℕ → Error → Type 0
RefusedAllIn n e = RefusedAll n e ⊎ ((done : ContextError) × (e ≡ context_error done))

module _ (ps : List Payload) (b : Batch) (same : payloads b.made ≡ ps) (Refusal : Error → Type 0)
    (into : (e : Error) → RefusedAll (length ps) e → Refusal e) where
  abbrev Ends : Queue → Round Queue (Option Error) → Type 0
  Ends q r = Does (PostedAll Refusal ps) Kept q r

  end_batch-Does :
      (q : Queue) → Linked q → Ends q (end_batch q (ChunkedList.enqueue_batch q.items b.made))
  end_batch-Does q (first, v) =
      let put = ChunkedList.enqueue_batch q.items b.made in
      let (ok, v', a) = enqueue_batch-AppendsAll b.made q.items first v in
      let e : put ≡ (put.0, none) = ap (λ f. (put.0, f)) ok in
      subst (λ r. Ends q (end_batch q r)) (sym e)
        (rw (notify_waiting_consumers-items (record q { items = put.0 }))
          (inl (refl, (first, v, v', (b.made, same, a)))))

  fails : (q : Queue) (e : Error) → RefusedAll (length ps) e → Ends q (finished q (some e))
  fails q e r = inr (e, refl, into e r, refl)

  pub batch_round-Does : (q : Queue) → Linked q → Ends q (batch_round (length ps) b q)
  unfolding batch_round
  batch_round-Does q v =
      let n = length ps in
      let mt = tracker q in
      elim (Bool-cases q.closed) [
        | inl shut ↦
            subst (Ends q) (sym (whenever _ _ shut))
              (fails q (queue_closed "enqueue batch") (inl refl))
        | inr open_ ↦ elim (Bool-cases (ltb_ℤ (pos 0) q.max_items && ltb_ℤ q.max_items (pos n))) [
          | inl many ↦ subst (Ends q) (sym (otherwise _ _ open_ ∙ whenever _ _ many)) (
              fails q (queue_full q.max_items)
                (inr (inr (inl (q.max_items, refl, ground (arith, many))))))
          | inr few ↦ elim (Bool-cases (over_max_items q n)) [
            | inl full ↦
                subst (Ends q) (sym (otherwise _ _ open_ ∙ otherwise _ _ few ∙ whenever _ _ full))
                  refl
            | inr room ↦
                let rest = otherwise _ _ open_ ∙ otherwise _ _ few ∙ otherwise _ _ room in
                elim (Bool-cases (ltb_ℤ mt.max_memory b.total_size)) [
                  | inl large ↦ subst (Ends q) (sym (rest ∙ whenever _ _ large)) (
                      fails q (memory_limit mt.total_memory mt.max_memory b.total_size) (
                        inr (
                          inr (
                            inr (
                              mt.total_memory,
                              mt.max_memory,
                              b.total_size,
                              refl,
                              ltb_ℤ→lt mt.max_memory b.total_size large,
                            )))))
                  | inr small ↦
                      elim (Bool-cases (leb_ℤ b.total_size (sub64 mt.max_memory mt.total_memory))) [
                        | inl fits ↦
                            subst (Ends q) (sym (rest ∙ otherwise _ _ small ∙ whenever _ _ fits))
                              (end_batch-Does q v)
                        | inr later ↦
                            subst (Ends q) (sym (rest ∙ otherwise _ _ small ∙ otherwise _ _ later))
                              refl
                      ]
                ]
          ]
        ]
      ]

module _ (now : ℤ) (sequence : ℕ) (q : Queue) (ps : List Payload) (found : Queue) (v : Linked q)
    (u : Linked found) where
  abbrev batch : Batch
  batch = make_batch now q.name (pos 0) sequence (tracker q) ps

  same_payloads : batch.overflow ≡ false → payloads batch.made ≡ ps
  same_payloads = payloads-make_batch now q.name (pos 0) sequence (tracker q) ps

  -- Before the loop a call may end; behind it, it does what the loop does.
  begin_batch-Answers :
      (ss : List Queue) (Refusal : Error → Type 0)
      → ((e : Error) → RefusedAll (length ps) e → Refusal e)
      → (loop : Batch → Outcome Queue (Option Error))
      → (batch.overflow ≡ false
          → Answers (Found Linked ss) (PostedAll Refusal ps) Kept (loop batch))
      → let (sequence', outcome) = begin_batch now sequence q ps loop in
        Answers (Found Linked (q ∷ ss)) (PostedAll Refusal ps) Kept outcome
  unfolding begin_batch
  begin_batch-Answers ss Refusal into loop h =
      let Good = λ (t : ℕ × Outcome Queue (Option Error)).
        Answers (Found Linked (q ∷ ss)) (PostedAll Refusal ps) Kept t.1 in
      elim (Bool-cases q.closed) [
        | inl shut ↦ subst Good (sym (whenever _ _ shut)) (
          q,
          (v, inl refl),
          inr (
            queue_closed "enqueue batch",
            refl,
            into (queue_closed "enqueue batch") (inl refl),
            refl,
          ),
        )
        | inr open_ ↦ elim (Bool-cases (leb (length ps) 0)) [
          | inl few ↦ subst Good (sym (otherwise _ _ open_ ∙ whenever _ _ few)) (
            q,
            (v, inl refl),
            inl (
              refl,
              (
                v.0,
                v.1,
                v.1,
                (
                  [],
                  no_payloads ps few,
                  record {
                    all = sym (append-nil _);
                    ahead = λ e i lo hi le. (le, sym (append-nil _));
                    grown = omega arith;
                  },
                ),
              ),
            ),
          )
          | inr more ↦
              subst Good (sym (otherwise _ _ open_ ∙ otherwise _ _ more))
                (elim (Bool-cases batch.overflow) [
                  | inl over ↦ rw over (
                    q,
                    (v, inl refl),
                    inr (batch_overflow, refl, into batch_overflow (inr (inl refl)), refl),
                  )
                  | inr fits ↦
                      subst (Answers (Found Linked (q ∷ ss)) (PostedAll Refusal ps) Kept)
                        (sym (otherwise _ _ fits))
                        (Answers-mono (Found Linked ss) (Found Linked (q ∷ ss))
                          (PostedAll Refusal ps) Kept (λ s g. (g.0, inr g.1)) (loop batch) (h fits))
                ])
        ]
      ]

  -- Where EnqueueBatch has returned, a batch went in whole, or nothing did and it has an error.
  pub enqueue_batch-Answers :
      (ws : List (Wake Queue))
      → AllFound Linked ws
      → let (sequence', outcome) = enqueue_batch now sequence q ps found ws in
        Answers
          (Found Linked (q ∷ found ∷ states ws))
          (PostedAll (RefusedAll (length ps)) ps)
          Kept
          outcome
  unfolding enqueue_batch
  enqueue_batch-Answers ws all =
      let round = batch_round (length ps) batch in
      let Refusal = RefusedAll (length ps) in
      begin_batch-Answers (found ∷ states ws) Refusal (λ e r. r) _
        λ fits.
          let does = batch_round-Does ps batch (same_payloads fits) Refusal (λ e r. r) in
          loop-Answers round (some (queue_closed "enqueue batch")) Linked (PostedAll Refusal ps)
            Kept does (λ s g. inr (queue_closed "enqueue batch", refl, inl refl, refl)) found ws u
            all

  -- Whatever linked lists EnqueueBatchWithContext finds at its rounds, it does not run out; if it
  -- has returned with no error, an item for each payload stands behind all others of a list that
  -- it found, in order, for every reader; otherwise nothing went in, and the error is that the
  -- queue is closed, that the sizes do not fit an int64, that the batch is larger than the bound
  -- on items or than the limit of memory, or the end of the context.
  pub enqueue_batch_with_context-Answers :
      (done : Option ContextError) (ws : List (ContextWake Queue))
      → AllFoundIn Linked ws
      → let (sequence', outcome) = enqueue_batch_with_context now sequence q ps done found ws in
        Answers
          (Found Linked (q ∷ found ∷ states_in ws))
          (PostedAll (RefusedAllIn (length ps)) ps)
          Kept
          outcome
  unfolding enqueue_batch_with_context
  enqueue_batch_with_context-Answers done ws all =
      let round = batch_round (length ps) batch in
      let Refusal = RefusedAllIn (length ps) in
      let stop = some (queue_closed "enqueue batch") in
      let stops = λ (s : Queue) (g : Linked s).
        inr (queue_closed "enqueue batch", refl, inl (inl refl), refl) in
      let ends = λ (e : ContextError) (s : Queue) (g : Linked s).
        inr (context_error e, refl, inr (e, refl), refl) in
      begin_batch-Answers (found ∷ states_in ws) Refusal (λ e r. inl r) _
        λ fits.
          let does = batch_round-Does ps batch (same_payloads fits) Refusal (λ e r. inl r) in
          loop_in-Answers round stop Linked (PostedAll Refusal ps) Kept does stops on_done ends done
            found ws u all
