-- ===== src/Consumer/Blocking/Many.antt =====
-- `ReadBatch` and `ReadBatchWithContext` (queue/consumer.go): a batch is the front of what the reader
-- has before it.
use mpmc_queue.Prelude.{
  ℕ, zero, suc, ◌-◌, ◌≤◌, ◌≡◌, refl, ap, sym, subst, ◌∙◌, ◌⊎◌, inl, inr, true, false, Option, none,
  some, List, [], ◌∷◌, arith, take, drop, length, whenever, otherwise,
}
use mpmc_queue.Prelude.Int.{ℤ, pos, negsuc, pos_part, leb_ℤ}
use mpmc_queue.Data.{QueueData}
use mpmc_queue.Errors.{ContextError}
use mpmc_queue.Consumer.Blocking.{
  View, read, read_more, read_batch, batch_from, continue_batch, read_more_in, batch_from_in,
  continue_batch_in, read_batch_with_context, read_with_context,
}
use mpmc_queue.Consumer.Blocking.Any.{ahead, is_shut, IsPlaced, read_any-Turned}
use mpmc_queue.Consumer.Blocking.Served.{
  Placed, Given, GivenIn, Idle, read-Answers, read_with_context-Answers,
}
use mpmc_queue.Waiting.{Outcome, returned, blocked, stuck, Wake, ContextWake}
use mpmc_queue.Waiting.Laws.{AllFound, AllFoundIn, Answers, Found, states, states_in}

-- The first `n` items of a view, and a reader that stands behind them.
abbrev pub Front : View → ℕ → ℕ → List QueueData → View → Type 0
Front s first n ds s' =
    (s'.items ≡ s.items)
    × IsPlaced s' first
    × (ds ≡ take n (ahead s first))
    × (ahead s' first ≡ drop n (ahead s first))

-- A call with the limit `n` that found `s` returned the first items there, as many as the limit allows,
-- and at least one; or it returned none and touched nothing.
abbrev pub Batch : ℕ → View → View → List QueueData → Type 0
Batch n s s' ds = ((ds ≡ []) × (s' ≡ s)) ⊎ ((first : ℕ) × (1 ≤ length ds) × Front s first n ds s')

-- With the error of a context the batch may be shorter.
abbrev pub BatchIn : ℕ → View → View → List QueueData × Option ContextError → Type 0
BatchIn n s s' (ds, e) =
    ((ds ≡ []) × (s' ≡ s))
    ⊎ ((first : ℕ) × (1 ≤ length ds)
        × ((k : ℕ) × (k ≤ n) × ((e ≡ none) → k ≡ n) × Front s first k ds s'))

abbrev Fronts : View → ℕ → ℕ → Option (List QueueData × View) → Type 0
Fronts s first n result =
    (ds : List QueueData) × (s' : View) × (result ≡ some (ds, s')) × Front s first n ds s'

-- A batch behind its first item.
Front-cons :
    (s s' t : View) (first n : ℕ) (d : QueueData) (ds : List QueueData)
    → s'.items ≡ s.items
    → ahead s first ≡ d ∷ ahead s' first
    → Front s' first n ds t
    → Front s first (suc n) (d ∷ ds) t
Front-cons s s' t first n d ds same u (same', q, front, rest) =
    (same' ∙ same, q, rw u (ap (λ l. d ∷ l) front), rw u rest)

-- A reader that finds nothing more ends a batch, whatever room is left.
Front-end :
    (s s' : View) (first n : ℕ)
    → s'.items ≡ s.items
    → IsPlaced s' first
    → ahead s' first ≡ ahead s first
    → (is_shut s ≡ true) ⊎ (ahead s first ≡ [])
    → is_shut s ≡ false
    → Front s first n [] s'
Front-end s s' first n same q kept why o =
    let end : ahead s first ≡ [] = elim why [ inl shut ↦ absurd (ground arith) | inr u ↦ u ] in
    (same, q, rw end (none_taken n), rw (kept, end) (none_dropped n))
  where
    none_taken : (k : ℕ) → Path (List QueueData) [] (take k [])
    none_taken zero = refl
    none_taken (suc k) = refl

    none_dropped : (k : ℕ) → Path (List QueueData) [] (drop k [])
    none_dropped zero = refl
    none_dropped (suc k) = refl

read_more-Front :
    (n : ℕ) (s : View) (first : ℕ)
    → IsPlaced s first
    → is_shut s ≡ false
    → Fronts s first n (read_more n s)
unfolding read_more
read_more-Front zero s first p o = ([], s, refl, (refl, p, refl, refl))
read_more-Front (suc n) s first p o =
    let (out, t, e, (same, q, alt)) = read_any-Turned s first p in
    elim alt [
      | inl (nil, kept, why) ↦
          ([], t, rw (e, nil, read_more) refl, Front-end s t first (suc n) same q kept why o)
      | inr (d, x, o', open_, u) ↦
          let (ds, t', e', front) = read_more-Front n t first q open_ in
          (
            d ∷ ds,
            t',
            rw (e, x, read_more) (rw e' refl),
            Front-cons s t t' first n d ds same u front,
          )
    ]

continue_batch-Answers :
    (Good : View → Type 0) (n : ℕ) (o : Outcome View (Option QueueData))
    → Answers Good Given Idle o
    → Answers Good (Batch (suc n)) Idle (continue_batch n o)
continue_batch-Answers Good n (returned s' none) (s, g, ends) =
    (s, g, elim ends [ inl (x, e) ↦ inl (refl, e) | inr (d, x, y) ↦ absurd (ground arith) ])
continue_batch-Answers Good n (returned s' (some d)) (s, g, ends) = elim ends [
  | inl (x, e) ↦ absurd (ground arith)
  | inr (d', x, (first, same, p, open_, u)) ↦
      let (ds, t, e, front) = read_more-Front n s' first p open_ in
      let y : d' ≡ d = ground (arith, x) in
      rw (e, batch_from)
        (
          s,
          g,
          inr (
            first,
            omega arith,
            Front-cons s s' t first n d ds same (u ∙ ap (λ z. z ∷ ahead s' first) y) front,
          ),
        )
]
continue_batch-Answers Good n (blocked s) a = a
continue_batch-Answers Good n stuck a = a

-- Where ReadBatch has returned items, they are the front of what the reader had before it.
pub read_batch-Answers :
    (limit : ℤ) (s : View) (ws : List (Wake View))
    → Placed s
    → AllFound Placed ws
    → Answers (Found Placed (s ∷ states ws)) (Batch (pos_part limit)) Idle (read_batch limit s ws)
unfolding read_batch
read_batch-Answers (pos zero) s ws g all = (s, (g, inl refl), inl (refl, refl))
read_batch-Answers (negsuc n) s ws g all =
    let no_room : leb_ℤ (negsuc n) (pos 0) ≡ true = ground arith in
    subst (Answers (Found Placed (s ∷ states ws)) (Batch 0) Idle) (sym (whenever _ _ no_room))
      (s, (g, inl refl), inl (refl, refl))
read_batch-Answers (pos (suc n)) s ws g all =
    let some_room : leb_ℤ (pos (suc n)) (pos 0) ≡ false = ground arith in
    let less : suc n - 1 ≡ n = omega arith in
    subst (Answers (Found Placed (s ∷ states ws)) (Batch (suc n)) Idle)
      (sym (otherwise _ _ some_room))
      (rw less (
        continue_batch-Answers (Found Placed (s ∷ states ws)) n (read s ws)
          (read-Answers s ws g all)))

-- The rest of a batch, which the end of a context may cut off.
abbrev FrontsIn : View → ℕ → ℕ → Option (List QueueData × Option ContextError × View) → Type 0
FrontsIn s first n result =
    (ds : List QueueData) × (c : Option ContextError) × (s' : View) × (result ≡ some (ds, c, s'))
    × ((k : ℕ) × (k ≤ n) × ((c ≡ none) → k ≡ n) × Front s first k ds s')

read_more_in-Front :
    (looks : List (Option ContextError)) (n : ℕ) (s : View) (first : ℕ)
    → IsPlaced s first
    → is_shut s ≡ false
    → FrontsIn s first n (read_more_in looks n s)
unfolding read_more_in
read_more_in-Front looks zero s first p o =
    ([], none, s, refl, (0, omega arith, λ _. refl, (refl, p, refl, refl)))
read_more_in-Front (some e ∷ looks) (suc n) s first p o =
    ([], some e, s, refl, (0, omega arith, λ h. absurd (ground arith), (refl, p, refl, refl)))
read_more_in-Front (none ∷ looks) (suc n) s first p o =
    let (out, t, e, (same, q, alt)) = read_any-Turned s first p in
    elim alt [
      | inl (nil, kept, why) ↦ (
        [],
        none,
        t,
        rw (e, nil, read_more_in) refl,
        (suc n, omega arith, λ _. refl, Front-end s t first (suc n) same q kept why o),
      )
      | inr (d, x, o', open_, u) ↦
          let (ds, c, t', e', (k, le, full, front)) = read_more_in-Front looks n t first q open_ in
          (
            d ∷ ds,
            c,
            t',
            rw (e, x, read_more_in) (rw e' refl),
            (suc k, omega arith, λ h. ap suc (full h), Front-cons s t t' first k d ds same u front),
          )
    ]
read_more_in-Front [] (suc n) s first p o =
    let (out, t, e, (same, q, alt)) = read_any-Turned s first p in
    elim alt [
      | inl (nil, kept, why) ↦ (
        [],
        none,
        t,
        rw (e, nil, read_more_in) refl,
        (suc n, omega arith, λ _. refl, Front-end s t first (suc n) same q kept why o),
      )
      | inr (d, x, o', open_, u) ↦
          let (ds, c, t', e', (k, le, full, front)) = read_more_in-Front [] n t first q open_ in
          (
            d ∷ ds,
            c,
            t',
            rw (e, x, read_more_in) (rw e' refl),
            (suc k, omega arith, λ h. ap suc (full h), Front-cons s t t' first k d ds same u front),
          )
    ]

continue_batch_in-Answers :
    (Good : View → Type 0) (looks : List (Option ContextError)) (n : ℕ)
    (o : Outcome View (Option QueueData × Option ContextError))
    → Answers Good GivenIn Idle o
    → Answers Good (BatchIn (suc n)) Idle (continue_batch_in looks n o)
continue_batch_in-Answers Good looks n (returned s' (none, none)) (s, g, (ends, w)) =
    (s, g, elim ends [ inl (x, e) ↦ inl (refl, e) | inr (d, x, y) ↦ absurd (ground arith) ])
continue_batch_in-Answers Good looks n (returned s' (none, some c)) (s, g, (ends, w)) =
    (s, g, elim ends [ inl (x, e) ↦ inl (refl, e) | inr (d, x, y) ↦ absurd (ground arith) ])
continue_batch_in-Answers Good looks n (returned s' (some d, some c)) (s, g, (ends, w)) =
    absurd (elim w [ inl x ↦ ground arith | inr x ↦ ground arith ])
continue_batch_in-Answers Good looks n (returned s' (some d, none)) (s, g, (ends, w)) = elim ends [
  | inl (x, e) ↦ absurd (ground arith)
  | inr (d', x, (first, same, p, open_, u)) ↦
      let (ds, c, t, e, (k, le, full, front)) = read_more_in-Front looks n s' first p open_ in
      let y : d' ≡ d = ground (arith, x) in
      rw (e, batch_from_in)
        (
          s,
          g,
          inr (
            first,
            omega arith,
            (
              suc k,
              omega arith,
              λ h. ap suc (full h),
              Front-cons s s' t first k d ds same (u ∙ ap (λ z. z ∷ ahead s' first) y) front,
            ),
          ),
        )
]
continue_batch_in-Answers Good looks n (blocked s) a = a
continue_batch_in-Answers Good looks n stuck a = a

-- Whatever ReadBatchWithContext finds at its rounds, for a reader whose position is in a linked
-- list or that has not begun, it does not run out; a batch that is not empty is the front of what
-- the reader had before it in a list that it found, as much as the limit allows if there is no
-- error, and the reader stands behind it; an empty one left the reader where it was.
pub read_batch_with_context-Answers :
    (done : Option ContextError) (looks : List (Option ContextError)) (limit : ℤ) (s : View)
    (ws : List (ContextWake View))
    → Placed s
    → AllFoundIn Placed ws
    → Answers
        (Found Placed (s ∷ states_in ws))
        (BatchIn (pos_part limit))
        Idle
        (read_batch_with_context done looks limit s ws)
unfolding read_batch_with_context
read_batch_with_context-Answers end_of_ctx looks (pos zero) s ws g all =
    (s, (g, inl refl), inl (refl, refl))
read_batch_with_context-Answers end_of_ctx looks (negsuc n) s ws g all =
    let no_room : leb_ℤ (negsuc n) (pos 0) ≡ true = ground arith in
    subst (Answers (Found Placed (s ∷ states_in ws)) (BatchIn 0) Idle) (sym (whenever _ _ no_room))
      (s, (g, inl refl), inl (refl, refl))
read_batch_with_context-Answers end_of_ctx looks (pos (suc n)) s ws g all =
    let some_room : leb_ℤ (pos (suc n)) (pos 0) ≡ false = ground arith in
    let less : suc n - 1 ≡ n = omega arith in
    subst (Answers (Found Placed (s ∷ states_in ws)) (BatchIn (suc n)) Idle)
      (sym (otherwise _ _ some_room))
      (rw less (
        continue_batch_in-Answers (Found Placed (s ∷ states_in ws)) looks n
          (read_with_context end_of_ctx s ws) (read_with_context-Answers end_of_ctx s ws g all)))
