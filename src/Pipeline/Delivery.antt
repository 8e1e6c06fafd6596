-- ===== src/Pipeline/Delivery.antt =====
-- What the workers of `Map` (examples/patterns/data_pipeline.go) forward of the items of the upstream queue,
-- which may be closed at any time.
use mathlib.Core.List.{filter_map, filter_map-append, Perm}
use mathlib.Core.List.Perm
use mpmc_queue.Prelude.{
  ◌&&◌, Bool-cases, inl, inr, ℕ, zero, suc, ◌≡◌, refl, sym, ap, subst, ◌∙◌, true, false, Option,
  List, [], ◌∷◌, ◌++◌, append-nil, append_assoc, arith,
}
use mpmc_queue.Pipeline.Upstream.{Source, SourceLaws}
use mpmc_queue.Pipeline.Workers.{
  Worker, receiving, draining, checking, handling, sending, finished, Shared, Moment, worker_step,
  stage_step,
}
use mpmc_queue.Pipeline.Shuffle.{aside, under, regroup}
use mpmc_queue.Pipeline.Steps.{holds, ends, IsInPhase, Moves, rests-Moves, worker_step-Stepped}

abbrev held : {A : Type 0} → List (Worker A) → List A
held [] = []
held (w ∷ ws) = holds w ++ held ws

rest_empty : {A : Type 0} (k l : List A) → k ++ l ≡ [] → l ≡ []
rest_empty [] l e = e
rest_empty (x ∷ k) l e = cc e

abbrev pub workers : {A : Type 0} → ℕ → List (Worker A)
workers zero = []
workers (suc n) = receiving ∷ workers n

module _ {S A B : Type 0} (src : Source S A) (IsValid : S → Type 0) (left : S → List A)
    (laws : SourceLaws src IsValid left) (transform : A → Option B) where
  -- The same of a list of workers.
  abbrev AllInPhase : Shared S B → List (Worker A) → Type 0
  AllInPhase sh [] = Unit
  AllInPhase sh (w ∷ ws) = IsInPhase src IsValid left laws transform sh w × AllInPhase sh ws

  Moves-IsInPhase :
      (sh sh' : Shared S B) (taken done : List A) (w : Worker A)
      → Moves src IsValid left laws transform sh sh' taken done
      → IsInPhase src IsValid left laws transform sh w
      → IsInPhase src IsValid left laws transform sh' w
  Moves-IsInPhase sh sh' taken done receiving m p = tt
  Moves-IsInPhase sh sh' taken done draining m p = m.same_over ∙ p
  Moves-IsInPhase sh sh' taken done checking m p = m.same_over ∙ p
  Moves-IsInPhase sh sh' taken done (handling late a) m p = λ h. m.same_over ∙ p h
  Moves-IsInPhase sh sh' taken done (sending late) m p = λ h. m.same_over ∙ p h
  Moves-IsInPhase sh sh' taken done finished m p =
      (m.same_over ∙ p.0, rest_empty taken (left sh'.source) (sym m.from_left ∙ p.1))

  Moves-AllInPhase :
      (sh sh' : Shared S B) (taken done : List A) (ws : List (Worker A))
      → Moves src IsValid left laws transform sh sh' taken done
      → AllInPhase sh ws
      → AllInPhase sh' ws
  Moves-AllInPhase sh sh' taken done [] m p = tt
  Moves-AllInPhase sh sh' taken done (w ∷ ws) m (p, ps) =
      (Moves-IsInPhase sh sh' taken done w m p, Moves-AllInPhase sh sh' taken done ws m ps)

  abbrev AllStepped : Shared S B → List (Worker A) → Shared S B × List (Worker A) → Type 0
  AllStepped sh ws (sh', ws') =
      (taken : List A) × (done : List A) × Moves src IsValid left laws transform sh sh' taken done
      × Perm (held ws' ++ done) (held ws ++ taken)
      × AllInPhase sh' ws'

  stage_step-AllStepped :
      (i : ℕ) (m : Moment) (sh : Shared S B) (ws : List (Worker A))
      → IsValid sh.source
      → AllInPhase sh ws
      → AllStepped sh ws (stage_step src transform i m sh ws)
  unfolding stage_step
  stage_step-AllStepped i m sh [] v p =
      ([], [], rests-Moves src IsValid left laws transform sh v, Perm.refl [], tt)
  stage_step-AllStepped zero m sh (w ∷ ws) v (p, ps) =
      let (sh', w') = worker_step src transform m sh w in
      let (taken, done, c, e, p') =
        worker_step-Stepped src IsValid left laws transform m sh w v p in
      (taken, done, c, aside _ _ (held ws) _ _ e, (p', Moves-AllInPhase sh sh' taken done ws c ps))
  stage_step-AllStepped (suc i) m sh (w ∷ ws) v (p, ps) =
      let (sh', ws') = stage_step src transform i m sh ws in
      let (taken, done, c, e, ps') = stage_step-AllStepped i m sh ws v ps in
      (taken, done, c, under (holds w) _ _ _ _ e, (Moves-IsInPhase sh sh' taken done w c p, ps'))

  -- What a stage may have come to, all the items that were before it so far, and those that were left when
  -- its upstream queue was closed, which is read no more then. The stages before it may add items between
  -- any two steps, until they are done or the queue is closed.
  pub data Reach (s₀ : S) (n : ℕ) : Shared S B → List (Worker A) → List A → List A → Type 0 where
    start :
        Reach s₀ n
          (record { source = s₀; upstream_over = false; stopped = false; sent = [] })
          (workers n)
          (left s₀)
          []
    arrive :
        {sh : Shared S B} {ws : List (Worker A)} {xs lost : List A}
        → Reach s₀ n sh ws xs lost
        → sh.upstream_over ≡ false
        → sh.stopped ≡ false
        → (s : S) (more : List A) → IsValid s
        → left s ≡ left sh.source ++ more
        → Reach s₀ n (record sh { source = s }) ws (xs ++ more) lost
    close_queue :
        {sh : Shared S B} {ws : List (Worker A)} {xs lost : List A}
        → Reach s₀ n sh ws xs lost
        → (s : S) → IsValid s
        → left s ≡ []
        → Reach s₀ n (record sh { source = s; stopped = true }) ws xs (left sh.source ++ lost)
    close_done :
        {sh : Shared S B} {ws : List (Worker A)} {xs lost : List A}
        → Reach s₀ n sh ws xs lost
        → Reach s₀ n (record sh { upstream_over = true }) ws xs lost
    step :
        {sh : Shared S B} {ws : List (Worker A)} {xs lost : List A}
        → Reach s₀ n sh ws xs lost
        → (i : ℕ) (m : Moment)
        → Reach s₀ n
            (stage_step src transform i m sh ws).0
            (stage_step src transform i m sh ws).1
            xs
            lost

  -- What was forwarded comes of items that, with those that are held, left and lost, are all there were.
  record IsDelivering (sh : Shared S B) (ws : List (Worker A)) (xs lost : List A) : Type 0 where
    valid : IsValid sh.source
    handled : List A
    forwarded : sh.sent ≡ filter_map transform handled
    accounted : Perm (handled ++ (held ws ++ (left sh.source ++ lost))) xs
    in_phase : AllInPhase sh ws
    kept : sh.stopped ≡ false → lost ≡ []

  stage_step-stopped :
      (i : ℕ) (m : Moment) (sh : Shared S B) (ws : List (Worker A))
      → (stage_step src transform i m sh ws).0.stopped ≡ sh.stopped
  unfolding stage_step worker_step
  stage_step-stopped i m sh [] = refl
  stage_step-stopped zero m sh (receiving ∷ ws) =
      elim (Bool-cases (m.notices && sh.upstream_over)) [ inl e ↦ rw e refl | inr e ↦ rw e refl ]
  stage_step-stopped zero m sh (draining ∷ ws) = refl
  stage_step-stopped zero m sh (checking ∷ ws) = refl
  stage_step-stopped zero m sh (handling late a ∷ ws) = refl
  stage_step-stopped zero m sh (sending late ∷ ws) = refl
  stage_step-stopped zero m sh (finished ∷ ws) = refl
  stage_step-stopped (suc i) m sh (w ∷ ws) = stage_step-stopped i m sh ws

  stage_step-IsDelivering :
      (i : ℕ) (m : Moment) (sh : Shared S B) (ws : List (Worker A)) (xs lost : List A)
      → IsDelivering sh ws xs lost
      → let (sh', ws') = stage_step src transform i m sh ws in IsDelivering sh' ws' xs lost
  stage_step-IsDelivering i m sh ws xs lost h =
      let (sh', ws') = stage_step src transform i m sh ws in
      let (taken, done, c, e, ps) = stage_step-AllStepped i m sh ws h.valid h.in_phase in
      record {
        valid = c.valid;
        handled = h.handled ++ done;
        forwarded =
            c.to_sent
            ∙ ap (λ l. l ++ filter_map transform done) h.forwarded
            ∙ sym (filter_map-append transform h.handled done);
        accounted =
            Perm.trans
              (regroup h.handled done (held ws') (held ws) taken (left sh'.source ++ lost) e)
              (subst (λ l. Perm (h.handled ++ (held ws ++ l)) xs)
                (ap (λ l. l ++ lost) c.from_left ∙ append_assoc taken (left sh'.source) lost)
                h.accounted);
        in_phase = ps;
        kept = λ open_. h.kept (sym (stage_step-stopped i m sh ws) ∙ open_);
      }

  workers-AllInPhase : (n : ℕ) (sh : Shared S B) → AllInPhase sh (workers n)
  workers-AllInPhase zero sh = tt
  workers-AllInPhase (suc n) sh = (tt, workers-AllInPhase n sh)

  held-workers : (n : ℕ) → held (workers {A = A} n) ≡ []
  held-workers zero = refl
  held-workers (suc n) = held-workers n

  -- What others may do to the queue, and to what says that nothing more comes in.
  abbrev Onward : Shared S B → Shared S B → Type 0
  Onward sh sh' = ends sh ≡ true → (ends sh' ≡ true) × (left sh.source ≡ [] → left sh'.source ≡ [])

  Onward-IsInPhase :
      (sh sh' : Shared S B) (w : Worker A)
      → Onward sh sh'
      → IsInPhase src IsValid left laws transform sh w
      → IsInPhase src IsValid left laws transform sh' w
  Onward-IsInPhase sh sh' receiving g p = tt
  Onward-IsInPhase sh sh' draining g p = (g p).0
  Onward-IsInPhase sh sh' checking g p = (g p).0
  Onward-IsInPhase sh sh' (handling late a) g p = λ h. (g (p h)).0
  Onward-IsInPhase sh sh' (sending late) g p = λ h. (g (p h)).0
  Onward-IsInPhase sh sh' finished g p = ((g (p.0)).0, (g (p.0)).1 (p.1))

  Onward-AllInPhase :
      (sh sh' : Shared S B) (ws : List (Worker A))
      → Onward sh sh'
      → AllInPhase sh ws
      → AllInPhase sh' ws
  Onward-AllInPhase sh sh' [] g p = tt
  Onward-AllInPhase sh sh' (w ∷ ws) g (p, ps) =
      (Onward-IsInPhase sh sh' w g p, Onward-AllInPhase sh sh' ws g ps)

  arrive-IsDelivering :
      (sh : Shared S B) (ws : List (Worker A)) (xs lost : List A)
      → IsDelivering sh ws xs lost
      → sh.upstream_over ≡ false
      → sh.stopped ≡ false
      → (s : S) (more : List A) → IsValid s
      → left s ≡ left sh.source ++ more
      → IsDelivering (record sh { source = s }) ws (xs ++ more) lost
  arrive-IsDelivering sh ws xs lost h going_on open_ s more valid grown =
      let none_lost : lost ≡ [] = h.kept open_ in
      let before : Perm (h.handled ++ (held ws ++ left sh.source)) xs =
        subst (λ l. Perm (h.handled ++ (held ws ++ l)) xs)
          (ap (λ l. left sh.source ++ l) none_lost ∙ append-nil (left sh.source)) h.accounted in
      record {
        valid = valid;
        handled = h.handled;
        forwarded = h.forwarded;
        accounted =
            subst (λ l. Perm l (xs ++ more))
              (append_assoc h.handled (held ws ++ left sh.source) more
                ∙ ap (λ l. h.handled ++ l) (append_assoc (held ws) (left sh.source) more)
                ∙ ap (λ l. h.handled ++ (held ws ++ l))
                    (sym grown ∙ sym (append-nil (left s)) ∙ ap (λ l. left s ++ l) (sym none_lost)))
              (Perm.append_right more before);
        in_phase =
            Onward-AllInPhase sh (record sh { source = s }) ws
              (λ over. absurd (ground (arith, over, going_on, open_))) h.in_phase;
        kept = h.kept;
      }

  Reach-IsDelivering :
      (s₀ : S) (n : ℕ)
      → IsValid s₀
      → (sh : Shared S B) (ws : List (Worker A)) (xs lost : List A) → Reach s₀ n sh ws xs lost
      → IsDelivering sh ws xs lost
  unfolding filter_map
  Reach-IsDelivering s₀ n v sh ws xs lost start = record {
    valid = v;
    handled = [];
    forwarded = refl;
    accounted =
        subst (λ l. Perm l (left s₀))
          (sym (ap (λ l. l ++ (left s₀ ++ [])) (held-workers n) ∙ append-nil (left s₀)))
          (Perm.refl (left s₀));
    in_phase = workers-AllInPhase n sh;
    kept = λ open_. refl;
  }
  Reach-IsDelivering s₀ n v sh ws xs lost
        (arrive {sh = c} {xs = ys} r on open_ s more valid grown) =
      arrive-IsDelivering c ws ys lost (Reach-IsDelivering s₀ n v c ws ys lost r) on open_ s more
        valid grown
  Reach-IsDelivering s₀ n v sh ws xs lost (close_queue {sh = c} {lost = before} r s valid empty) =
      let h = Reach-IsDelivering s₀ n v c ws xs before r in
      record {
        valid = valid;
        handled = h.handled;
        forwarded = h.forwarded;
        accounted =
            subst (λ l. Perm (h.handled ++ (held ws ++ (l ++ (left c.source ++ before)))) xs)
              (sym empty) h.accounted;
        in_phase = Onward-AllInPhase c sh ws (λ over. (ground arith, λ e. empty)) h.in_phase;
        kept = λ open_. absurd (ground (arith, open_));
      }
  Reach-IsDelivering s₀ n v sh ws xs lost (close_done {sh = c} r) =
      let h = Reach-IsDelivering s₀ n v c ws xs lost r in
      record {
        valid = h.valid;
        handled = h.handled;
        forwarded = h.forwarded;
        accounted = h.accounted;
        in_phase = Onward-AllInPhase c sh ws (λ over. (refl, λ e. e)) h.in_phase;
        kept = h.kept;
      }
  Reach-IsDelivering s₀ n v sh ws xs lost (step {sh = c} {ws = us} r i m) =
      stage_step-IsDelivering i m c us xs lost (Reach-IsDelivering s₀ n v c us xs lost r)

  abbrev pub AllFinished : List (Worker A) → Type 0
  AllFinished [] = Unit
  AllFinished (w ∷ ws) = (w ≡ finished) × AllFinished ws

  held-finished : (ws : List (Worker A)) → AllFinished ws → held ws ≡ []
  held-finished [] h = refl
  held-finished (w ∷ ws) (e, h) = rw (e, held-finished ws h) refl

  -- For an upstream queue whose reads take the first item that is left and which tells rightly
  -- whether there are some, however the steps of the workers of Map, the items of the stages
  -- before until those are done or the queue is closed, a Close of the queue, after which it gives
  -- nothing, and the end of those stages interleave: when all the workers of a stage, one or more,
  -- have ended, what they have passed to Enqueue on the next queue are the results, but for nil,
  -- for items that, with those that a Close found unread, are all there ever were, each of them
  -- once, in some order; where the queue has not been closed, none was lost.
  pub stage_step-DeliversOnce :
      (s₀ : S) (n : ℕ)
      → IsValid s₀
      → (sh : Shared S B) (w : Worker A) (ws : List (Worker A)) (xs lost : List A)
      → Reach s₀ n sh (w ∷ ws) xs lost
      → AllFinished (w ∷ ws)
      → (handled : List A) × (sh.sent ≡ filter_map transform handled)
        × Perm (handled ++ lost) xs
        × (sh.stopped ≡ false → lost ≡ [])
  stage_step-DeliversOnce s₀ n v sh w ws xs lost r (e, es) =
      let h = Reach-IsDelivering s₀ n v sh (w ∷ ws) xs lost r in
      let (over, empty) = subst (IsInPhase src IsValid left laws transform sh) e (h.in_phase.0) in
      (
        h.handled,
        h.forwarded,
        subst (λ l. Perm l xs)
            (ap (λ l. h.handled ++ (l ++ (left sh.source ++ lost))) (held-finished (w ∷ ws) (e, es))
              ∙ ap (λ l. h.handled ++ (l ++ lost)) empty)
            h.accounted,
        h.kept,
      )
