-- ===== src/Pipeline/Batching.antt =====
-- A call of `Batch` (examples/patterns/data_pipeline.go) keeps to what was read, and is one less to go.
use mpmc_queue.Prelude.{
  ℕ, suc, ◌+◌, ◌-◌, ◌≤◌, ◌≡◌, ◌⊎◌, refl, sym, ap, ◌∙◌, none, some, List, [], ◌∷◌, ◌++◌, arith,
  length, max, head?, tail, inl, inr, subst,
}
use mpmc_queue.Pipeline.Upstream.{Source, SourceLaws}
use mpmc_queue.Pipeline.{
  Batcher, Phase, polling, selecting, draining, ended, Signal, upstream_done, ticked, neither,
  flush, collect, poll, select, to_select, finish, step_in, batch_step,
}
use mpmc_queue.Pipeline.Batched.{
  flat, IsBatched, flush-IsBatched, collect-IsBatched, flush-batch, flush-source,
}

module _ {S A : Type 0} (src : Source S A) (IsValid : S → Type 0) (left : S → List A)
    (laws : SourceLaws src IsValid left) (n : ℕ) where
  abbrev pub Open : Batcher S A → List A → Type 0
  Open b xs = IsBatched IsValid left n (max 1 n) b xs

  -- The batcher after a `TryRead`, but for the item.
  abbrev behind : Batcher S A → Batcher S A
  behind b = record b { source = (src.try_read b.source).1 }

  -- A `TryRead` finds nothing left, or takes the first item.
  abbrev Polled : (Batcher S A → Batcher S A) → Batcher S A → List A → Batcher S A → Type 0
  Polled next b xs b' =
      ((b' ≡ next (behind b))
        × (left b.source ≡ [])
        × (left (behind b).source ≡ [])
        × Open (behind b) xs)
      ⊎ ((length (left b.source) ≡ suc (length (left b'.source)))
          × (b'.phase ≡ b.phase)
          × Open b' xs)

  poll-cases :
      (next : Batcher S A → Batcher S A) (b : Batcher S A) (xs : List A) (l : List A)
      → left b.source ≡ l
      → Open b xs
      → Polled next b xs (poll src n next b)
  unfolding poll
  poll-cases next b xs [] e h =
      let none_read : (src.try_read b.source).0 ≡ none = laws.first b.source h.valid ∙ ap head? e in
      let rest : left (behind b).source ≡ [] = laws.others b.source h.valid ∙ ap tail e in
      inl (
        rw (none_read, poll) refl,
        e,
        rest,
        record {
          valid = laws.valid b.source h.valid;
          accounted = ap (λ l. flat b.sent ++ (b.batch ++ l)) (rest ∙ sym e) ∙ h.accounted;
          sized = h.sized;
          open_batch = h.open_batch;
        },
      )
  poll-cases next b xs (a ∷ l) e h =
      let one_read : (src.try_read b.source).0 ≡ some a =
        laws.first b.source h.valid ∙ ap head? e in
      let rest : left (behind b).source ≡ l = laws.others b.source h.valid ∙ ap tail e in
      let read : poll src n next b ≡ collect n a (behind b) = rw (one_read, poll) refl in
      let (kept, same, there) =
        collect-IsBatched IsValid left n a (behind b) xs (laws.valid b.source h.valid)
          (ap (λ l. flat b.sent ++ (b.batch ++ a ∷ l)) rest
            ∙ ap (λ l. flat b.sent ++ (b.batch ++ l)) (sym e)
            ∙ h.accounted)
          h.sized h.open_batch in
      inr (
        rw read (ap length e ∙ ap (λ k. suc (length k)) (sym rest ∙ ap left (sym there))),
        rw read same,
        rw read kept,
      )

  -- Once the goroutine has ended, nothing is open or left.
  abbrev pub Rests : Phase → Batcher S A → Type 0
  Rests ended b = (b.batch ≡ []) × (left b.source ≡ [])
  Rests polling b = Unit
  Rests selecting b = Unit
  Rests draining b = Unit

  pub record IsBatching (b : Batcher S A) (xs : List A) : Type 0 where
    pub batched : IsBatched IsValid left n (max 1 n) b xs
    pub over : Rests b.phase b

  Open-phase :
      (b : Batcher S A) (xs : List A) (p : Phase) → Open b xs → Open (record b { phase = p }) xs
  Open-phase b xs p h = record {
    valid = h.valid;
    accounted = h.accounted;
    sized = h.sized;
    open_batch = h.open_batch;
  }

  Open-flush :
      (b : Batcher S A) (xs : List A) (p : Phase)
      → Open b xs
      → Open (record (flush b) { phase = p }) xs
  Open-flush b xs p h = flush-IsBatched IsValid left n b xs p record {
    valid = h.valid;
    accounted = h.accounted;
    sized = h.sized;
    open_batch = omega (arith, h.open_batch);
  }

  -- How many calls are still to come once the stages before are done.
  abbrev pub to_go : Phase → ℕ → ℕ
  to_go polling k = k + 3
  to_go selecting k = k + 2
  to_go draining k = k + 1
  to_go ended k = 0

  abbrev pub remaining : Batcher S A → ℕ
  remaining b = to_go b.phase (length (left b.source))

  -- A call keeps the invariant, and is one less to come.
  abbrev pub Called : Signal → ℕ → List A → Batcher S A → Type 0
  Called upstream_done k xs b = IsBatching b xs × (remaining b ≤ k - 1)
  Called ticked k xs b = IsBatching b xs
  Called neither k xs b = IsBatching b xs

  signal-Called :
      (signal : Signal) (k : ℕ) (xs : List A) (b : Batcher S A)
      → IsBatching b xs
      → remaining b ≤ k - 1
      → Called signal k xs b
  signal-Called upstream_done k xs b h m = (h, m)
  signal-Called ticked k xs b h m = h
  signal-Called neither k xs b h m = h

  -- A call of `TryRead`, in a phase `p` with `w` more calls behind the last item.
  poll_from :
      (signal : Signal) (p : Phase) (w : ℕ) (next : Batcher S A → Batcher S A) (b : Batcher S A)
      (xs : List A)
      → b.phase ≡ p
      → ((k : ℕ) → to_go p k ≡ k + suc w)
      → ((c : Batcher S A) → Rests p c)
      → Open b xs
      → ((c : Batcher S A)
          → left c.source ≡ []
          → Open c xs
          → IsBatching (next c) xs × (remaining (next c) ≤ w))
      → Called signal (to_go p (length (left b.source))) xs (poll src n next b)
  poll_from signal p w next b xs e steps rests h onward =
      elim (poll-cases next b xs (left b.source) refl h) [
        | inl (same, l, l', h') ↦
            let (done, fewer) = onward (behind b) l' h' in
            subst (Called signal (to_go p (length (left b.source))) xs) (sym same) (
              signal-Called signal _ xs (next (behind b)) done
                (omega (arith, fewer, steps (length (left b.source)))))
        | inr (l, same, h') ↦
            let there : (poll src n next b).phase ≡ p = same ∙ e in
            let here : remaining (poll src n next b)
                ≡ to_go p (length (left (poll src n next b).source)) =
              ap (λ q. to_go q (length (left (poll src n next b).source))) there in
            signal-Called signal _ xs (poll src n next b)
              record {
                batched = h';
                over = subst (λ q. Rests q (poll src n next b)) (sym there) (rests _);
              }
              (omega (
                arith,
                l,
                here,
                steps (length (left b.source)),
                steps (length (left (poll src n next b).source)),
              ))
      ]

  finish-IsBatching :
      (c : Batcher S A) (xs : List A)
      → left c.source ≡ []
      → Open c xs
      → IsBatching (finish c) xs × (remaining (finish c) ≤ 0)
  finish-IsBatching c xs l h = (
    record {
      batched = Open-flush c xs ended h;
      over = (flush-batch IsValid left n c, ap left (flush-source IsValid left n c) ∙ l);
    },
    omega arith,
  )

  to_select-IsBatching :
      (c : Batcher S A) (xs : List A)
      → left c.source ≡ []
      → Open c xs
      → IsBatching (to_select c) xs × (remaining (to_select c) ≤ 2)
  to_select-IsBatching c xs l h =
      (record { batched = Open-phase c xs selecting h; over = tt }, omega (arith, ap length l))

  select-Called :
      (signal : Signal) (b : Batcher S A) (xs : List A)
      → Open b xs
      → Called signal (length (left b.source) + 2) xs (select signal b)
  unfolding select
  select-Called upstream_done b xs h =
      (record { batched = Open-phase b xs draining h; over = tt }, omega arith)
  select-Called ticked b xs h = record { batched = Open-flush b xs polling h; over = tt }
  select-Called neither b xs h = record { batched = Open-phase b xs polling h; over = tt }

  step_in-Called :
      (signal : Signal) (p : Phase) (b : Batcher S A) (xs : List A)
      → b.phase ≡ p
      → IsBatching b xs
      → Called signal (to_go p (length (left b.source))) xs (step_in src n signal p b)
  step_in-Called signal polling b xs e h =
      poll_from signal polling 2 to_select b xs e (λ k. refl) (λ c. tt) h.batched
        (λ c. to_select-IsBatching c xs)
  step_in-Called signal selecting b xs e h = select-Called signal b xs h.batched
  step_in-Called signal draining b xs e h =
      poll_from signal draining 0 finish b xs e (λ k. refl) (λ c. tt) h.batched
        (λ c. finish-IsBatching c xs)
  step_in-Called signal ended b xs e h =
      signal-Called signal 0 xs b h (omega (arith, ap (λ q. to_go q (length (left b.source))) e))

  pub batch_step-Called :
      (signal : Signal) (b : Batcher S A) (xs : List A)
      → IsBatching b xs
      → Called signal (remaining b) xs (batch_step src n signal b)
  unfolding batch_step
  batch_step-Called signal b xs h = step_in-Called signal b.phase b xs refl h

  pub batch_step-IsBatching :
      (signal : Signal) (b : Batcher S A) (xs : List A)
      → IsBatching b xs
      → IsBatching (batch_step src n signal b) xs
  batch_step-IsBatching upstream_done b xs h = (batch_step-Called upstream_done b xs h).0
  batch_step-IsBatching ticked b xs h = batch_step-Called ticked b xs h
  batch_step-IsBatching neither b xs h = batch_step-Called neither b xs h
