-- ===== src/Consumer/Blocking/Served.antt =====
-- `Read` and `ReadWithContext` (queue/consumer.go): what they return, and that they do not wait once
-- something is there to read.
use mpmc_queue.Prelude.{
  ℕ, ◌≡◌, refl, ◌⊎◌, inl, inr, true, false, Option, none, some, List, [], ◌∷◌, ◌++◌, arith,
}
use mpmc_queue.Data.{QueueData}
use mpmc_queue.Errors.{ContextError}
use mpmc_queue.Consumer.Blocking.{
  View, read_any, read_round, read, read_round_in, read_with_context, with_no_error, with_error,
}
use mpmc_queue.Consumer.Blocking.Any.{ahead, is_shut, IsPlaced, Turn, read_any-Turned}
use mpmc_queue.Waiting.{
  returned, Round, finished, waiting, exhausted, Wake, signal, ContextWake, signal_in, checked,
}
use mpmc_queue.Waiting.Laws.{
  Found, Among, Spares, stop_states, await-stopped, states, states_in, loop-Answers,
  loop_in-Answers, AllFound, AllFoundIn, Does, Answers, HasReturned, Finishes, Does-Settles,
  await-HasReturned, await_context-HasReturned, checked-Settles,
}

abbrev pub Placed : View → Type 0
Placed s = (first : ℕ) × IsPlaced s first

-- A call that found `s` returned an item, the first one there, and the reader went on by it.
abbrev pub Took : View → View → QueueData → Type 0
Took s s' d =
    (first : ℕ) × (s'.items ≡ s.items)
    × IsPlaced s' first
    × (is_shut s' ≡ false)
    × (ahead s first ≡ d ∷ ahead s' first)

-- Or it returned nil and touched nothing.
abbrev pub Given : View → View → Option QueueData → Type 0
Given s s' out = ((out ≡ none) × (s' ≡ s)) ⊎ ((d : QueueData) × (out ≡ some d) × Took s s' d)

-- A call waits where the reader is closed or nothing is before it, which stays so.
abbrev pub Idle : View → View → Type 0
Idle s s' =
    (first : ℕ) × (s'.items ≡ s.items)
    × IsPlaced s' first
    × (ahead s' first ≡ ahead s first)
    × ((is_shut s ≡ true) ⊎ (ahead s first ≡ []))

-- The same with the error of a context, in which case there is no item.
abbrev pub GivenIn : View → View → Option QueueData × Option ContextError → Type 0
GivenIn s s' (out, e) = Given s s' out × ((e ≡ none) ⊎ (out ≡ none))

round-Does :
    (s : View) (first : ℕ) (out : Option QueueData) (s' : View)
    → read_any s ≡ some (out, s')
    → Turn s first out s'
    → Does Given Idle s (read_round s)
unfolding read_round
round-Does s first none s' e (same, p, alt) = elim alt [
  | inl (n, kept, why) ↦ rw (e, read_round) (first, same, p, kept, why)
  | inr (d, x, o, o', u) ↦ absurd (ground arith)
]
round-Does s first (some d) s' e (same, p, alt) = elim alt [
  | inl (n, kept, why) ↦ absurd (ground arith)
  | inr (d', x, o, o', u) ↦ rw (e, read_round) (inr (d', x, (first, same, p, o', u)))
]

pub read_round-Does : (s : View) → Placed s → Does Given Idle s (read_round s)
read_round-Does s (first, p) =
    let (out, s', e, t) = read_any-Turned s first p in round-Does s first out s' e t

read_round_in-Does : (s : View) → Placed s → Does GivenIn Idle s (read_round_in s)
unfolding read_round_in
read_round_in-Does s p = lifted (read_round s) (read_round-Does s p)
  where
    lifted :
        (r : Round View (Option QueueData))
        → Does Given Idle s r
        → Does GivenIn Idle s (with_no_error r)
    lifted (finished s' out) d = (d, inl refl)
    lifted (waiting s') d = d
    lifted exhausted d = d

-- Whatever Read finds at its rounds, for a consumer with or without a group whose position is in a
-- linked list or that has not begun, it does not run out; an item that it has returned is the
-- first that the reader had before it in a list that it found, and the reader went on by it; a nil
-- left the reader where it was; and it waits only where the reader is closed or nothing is before
-- it.
pub read-Answers :
    (s : View) (ws : List (Wake View))
    → Placed s
    → AllFound Placed ws
    → Answers (Found Placed (s ∷ states ws)) Given Idle (read s ws)
unfolding read
read-Answers s ws p all =
    loop-Answers read_round none Placed Given Idle read_round-Does (λ t g. inl (refl, refl)) s ws p
      all

-- The same of ReadWithContext, which has no item where its context ended.
pub read_with_context-Answers :
    (done : Option ContextError) (s : View) (ws : List (ContextWake View))
    → Placed s
    → AllFoundIn Placed ws
    → Answers (Found Placed (s ∷ states_in ws)) GivenIn Idle (read_with_context done s ws)
unfolding read_with_context
read_with_context-Answers done s ws p all =
    let stops : (t : View) → Placed t → GivenIn t t (none, none) =
      λ t g. (inl (refl, refl), inl refl) in
    let ends : (e : ContextError) (t : View) → Placed t → GivenIn t t (with_error e) =
      λ e t g. (inl (refl, refl), inr refl) in
    loop_in-Answers read_round_in (none, none) Placed GivenIn Idle read_round_in-Does stops
      with_error ends done s ws p all

-- A round does not return nil.
round-Spares :
    (s : View) (o : Option (Option QueueData × View)) → read_any s ≡ o → Spares none (read_round s)
unfolding read_round
round-Spares s none e = rw (e, read_round) tt
round-Spares s (some (none, s')) e = rw (e, read_round) tt
round-Spares s (some (some d, s')) e = rw (e, read_round) (λ h. absurd (ground arith))

-- A Read that has returned nil returned from a wake-up at which its stop channel was closed: a
-- signal that finds nothing to read never ends it.
pub read-none :
    (s : View) (ws : List (Wake View)) (t : View)
    → read s ws ≡ returned t none
    → Among (stop_states ws) t
unfolding read
read-none s ws t e =
    await-stopped read_round none (λ u. round-Spares u (read_any u) refl) (read_round s) ws t
      (round-Spares s (read_any s) refl) e

module _ (t : View) (first : ℕ) (p : IsPlaced t first) (open_ : is_shut t ≡ false) (d : QueueData)
    (ds : List QueueData) (there : ahead t first ≡ d ∷ ds) where
  finds : Finishes (read_round t)
  unfolding read_round
  finds =
      let (out, t', e, (same, q, alt)) = read_any-Turned t first p in
      elim alt [
        | inl (n, kept, why) ↦
            absurd (elim why [ inl shut ↦ ground arith | inr nothing ↦ ground arith ])
        | inr (d', x, o, o', u) ↦ rw (e, x, read_round) tt
      ]

  finds_in : Finishes (read_round_in t)
  unfolding read_round_in
  finds_in = lifted (read_round t) finds
    where
      lifted : (r : Round View (Option QueueData)) → Finishes r → Finishes (with_no_error r)
      lifted (finished s' out) f = f
      lifted (waiting s') f = f
      lifted exhausted f = f

  -- Where a signal finds an item before an open reader, Read has returned.
  pub read-HasReturned :
      (s : View) (ws vs : List (Wake View))
      → Placed s
      → AllFound Placed ws
      → HasReturned (read s (ws ++ signal t ∷ vs))
  unfolding read
  read-HasReturned s ws vs g all =
      let settles = λ (u : View) (h : Placed u).
        Does-Settles Given Idle u (read_round u) (read_round-Does u h) in
      await-HasReturned read_round none Placed settles (read_round s) ws vs t (settles s g) all
        finds

  -- Where a signal finds an open reader with an item before it, ReadWithContext has returned by
  -- then, done or not, whatever it found before.
  pub read_with_context-HasReturned :
      (done : Option ContextError) (s : View) (ws vs : List (ContextWake View))
      (c : Option ContextError)
      → Placed s
      → AllFoundIn Placed ws
      → HasReturned (read_with_context done s (ws ++ signal_in c t ∷ vs))
  unfolding read_with_context
  read_with_context-HasReturned done s ws vs c g all =
      let settles = λ (u : View) (h : Placed u).
        Does-Settles GivenIn Idle u (read_round_in u) (read_round_in-Does u h) in
      await_context-HasReturned read_round_in (none, none) Placed settles with_error
        (checked read_round_in (none, none) with_error done s) ws vs c t
        (checked-Settles read_round_in (none, none) Placed settles with_error done s g) all finds_in
