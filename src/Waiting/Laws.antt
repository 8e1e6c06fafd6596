-- ===== src/Waiting/Laws.antt =====
-- What a blocking call did when it returned, and when it cannot stay blocked, for any round.
use mpmc_queue.Prelude.{
  Option, none, some, List, [], ◌∷◌, ◌++◌, ◌≡◌, ◌≢◌, refl, arith, ◌⊎◌, inl, inr,
}
use mpmc_queue.Errors.{ContextError}
use mpmc_queue.Waiting.{
  Round, finished, waiting, exhausted, Outcome, returned, blocked, stuck, Wake, signal, stopped,
  ContextWake, signal_in, stopped_in, cancelled, await, checked, await_context,
}

-- `Good s` of the states that a call finds at its wake-ups.
abbrev pub AllFound : {S : Type 0} → (S → Type 0) → List (Wake S) → Type 0
AllFound Good [] = Unit {0}
AllFound Good (signal s ∷ ws) = Good s × AllFound Good ws
AllFound Good (stopped s ∷ ws) = Good s × AllFound Good ws

abbrev pub AllFoundIn : {S : Type 0} → (S → Type 0) → List (ContextWake S) → Type 0
AllFoundIn Good [] = Unit {0}
AllFoundIn Good (signal_in c s ∷ ws) = Good s × AllFoundIn Good ws
AllFoundIn Good (stopped_in s ∷ ws) = Good s × AllFoundIn Good ws
AllFoundIn Good (cancelled e s ∷ ws) = Good s × AllFoundIn Good ws

-- What a round may do from a state: `Ends s s' r` where it ends the call, `Waits s s'` where it waits.
abbrev pub Does : {S R : Type 0} → (S → S → R → Type 0) → (S → S → Type 0) → S → Round S R → Type 0
Does Ends Waits s (finished s' r) = Ends s s' r
Does Ends Waits s (waiting s') = Waits s s'
Does Ends Waits s exhausted = ⊥

-- A call that returned did so from a state that it found, by a round or by the end of the wait.
abbrev pub Answers :
    {S R : Type 0} → (S → Type 0) → (S → S → R → Type 0) → (S → S → Type 0) → Outcome S R → Type 0
Answers {S} Good Ends Waits (returned s' r) = (s : S) × Good s × Ends s s' r
Answers {S} Good Ends Waits (blocked s') = (s : S) × Good s × Waits s s'
Answers Good Ends Waits stuck = ⊥

-- A wake-up at which the call finds `stopChan` closed.
abbrev pub HasStop : {S : Type 0} → List (ContextWake S) → Type 0
HasStop [] = ⊥
HasStop (signal_in c s ∷ ws) = HasStop ws
HasStop (stopped_in s ∷ ws) = Unit {0}
HasStop (cancelled e s ∷ ws) = HasStop ws

-- A wake-up at which the call finds that its context is done, for the reason `e`.
abbrev pub HasEnd : {S : Type 0} → ContextError → List (ContextWake S) → Type 0
HasEnd e [] = ⊥
HasEnd e (signal_in c s ∷ ws) = (c ≡ some e) ⊎ HasEnd e ws
HasEnd e (stopped_in s ∷ ws) = HasEnd e ws
HasEnd e (cancelled e' s ∷ ws) = (e' ≡ e) ⊎ HasEnd e ws

-- So it is at such a wake-up, or before the first round.
abbrev pub EndedBy :
    {S : Type 0} → Option ContextError → List (ContextWake S) → ContextError → Type 0
EndedBy c ws e = (c ≡ some e) ⊎ HasEnd e ws

module _ {S R : Type 0} (round : S → Round S R) (on_stop : R) (Good : S → Type 0)
    (Ends : S → S → R → Type 0) (Waits : S → S → Type 0)
    (does : (s : S) → Good s → Does Ends Waits s (round s)) where
  pub await-Answers :
      ((s : S) → Good s → Ends s s on_stop)
      → (s : S) (r : Round S R) (ws : List (Wake S)) → Good s
      → Does Ends Waits s r
      → AllFound Good ws
      → Answers Good Ends Waits (await round on_stop r ws)
  unfolding await
  await-Answers stops s (finished s' r) ws g d all = (s, g, d)
  await-Answers stops s exhausted ws g d all = absurd d
  await-Answers stops s (waiting s') [] g d all = (s, g, d)
  await-Answers stops s (waiting s') (signal t ∷ ws) g d (gt, all) =
      await-Answers stops t (round t) ws gt (does t gt) all
  await-Answers stops s (waiting s') (stopped t ∷ ws) g d (gt, all) = (t, gt, stops t gt)

  -- With a context: a stop and the end of the context are answered for where they are met.
  module _ (on_done : ContextError → R) where
    pub checked-Does :
        (c : Option ContextError) (s : S)
        → Good s
        → ((e : ContextError) → (c ≡ some e) → Ends s s (on_done e))
        → Does Ends Waits s (checked round on_stop on_done c s)
    checked-Does none s g ends = does s g
    checked-Does (some e) s g ends = ends e refl

    pub await_context-Answers :
        (s : S) (r : Round S R) (ws : List (ContextWake S))
        → Good s
        → Does Ends Waits s r
        → AllFoundIn Good ws
        → (HasStop ws → (t : S) → Good t → Ends t t on_stop)
        → ((e : ContextError) → HasEnd e ws → (t : S) → Good t → Ends t t (on_done e))
        → Answers Good Ends Waits (await_context round on_stop on_done r ws)
    unfolding await_context
    await_context-Answers s (finished s' r) ws g d all stops ends = (s, g, d)
    await_context-Answers s exhausted ws g d all stops ends = absurd d
    await_context-Answers s (waiting s') [] g d all stops ends = (s, g, d)
    await_context-Answers s (waiting s') (signal_in c t ∷ ws) g d (gt, all) stops ends =
        await_context-Answers t (checked round on_stop on_done c t) ws gt
          (checked-Does c t gt (λ e h. ends e (inl h) t gt)) all stops (λ e h. ends e (inr h))
    await_context-Answers s (waiting s') (stopped_in t ∷ ws) g d (gt, all) stops ends =
        (t, gt, stops tt t gt)
    await_context-Answers s (waiting s') (cancelled e t ∷ ws) g d (gt, all) stops ends =
        (t, gt, ends e (inl refl) t gt)

-- The states that a call finds at its wake-ups.
abbrev pub states : {S : Type 0} → List (Wake S) → List S
states [] = []
states (signal s ∷ ws) = s ∷ states ws
states (stopped s ∷ ws) = s ∷ states ws

abbrev pub states_in : {S : Type 0} → List (ContextWake S) → List S
states_in [] = []
states_in (signal_in c s ∷ ws) = s ∷ states_in ws
states_in (stopped_in s ∷ ws) = s ∷ states_in ws
states_in (cancelled e s ∷ ws) = s ∷ states_in ws

abbrev pub Among : {S : Type 0} → List S → S → Type 0
Among [] s = ⊥
Among (t ∷ ts) s = (s ≡ t) ⊎ Among ts s

-- One of the states that a call found, and a good one.
abbrev pub Found : {S : Type 0} → (S → Type 0) → List S → S → Type 0
Found Good ss s = Good s × Among ss s

pub Answers-mono :
    {S R : Type 0} (Good Better : S → Type 0) (Ends : S → S → R → Type 0) (Waits : S → S → Type 0)
    → ((s : S) → Good s → Better s)
    → (o : Outcome S R) → Answers Good Ends Waits o
    → Answers Better Ends Waits o
Answers-mono Good Better Ends Waits up (returned s' r) (s, g, e) = (s, up s g, e)
Answers-mono Good Better Ends Waits up (blocked s') (s, g, e) = (s, up s g, e)
Answers-mono Good Better Ends Waits up stuck a = a

-- The wake-ups of a call find states of the call.
AllFound-Among :
    {S : Type 0} (Good : S → Type 0) (ts : List S) (ws : List (Wake S))
    → ((s : S) → Among (states ws) s → Among ts s)
    → AllFound Good ws
    → AllFound (Found Good ts) ws
AllFound-Among Good ts [] up all = tt
AllFound-Among Good ts (signal s ∷ ws) up (g, all) =
    ((g, up s (inl refl)), AllFound-Among Good ts ws (λ t m. up t (inr m)) all)
AllFound-Among Good ts (stopped s ∷ ws) up (g, all) =
    ((g, up s (inl refl)), AllFound-Among Good ts ws (λ t m. up t (inr m)) all)

AllFoundIn-Among :
    {S : Type 0} (Good : S → Type 0) (ts : List S) (ws : List (ContextWake S))
    → ((s : S) → Among (states_in ws) s → Among ts s)
    → AllFoundIn Good ws
    → AllFoundIn (Found Good ts) ws
AllFoundIn-Among Good ts [] up all = tt
AllFoundIn-Among Good ts (signal_in c s ∷ ws) up (g, all) =
    ((g, up s (inl refl)), AllFoundIn-Among Good ts ws (λ t m. up t (inr m)) all)
AllFoundIn-Among Good ts (stopped_in s ∷ ws) up (g, all) =
    ((g, up s (inl refl)), AllFoundIn-Among Good ts ws (λ t m. up t (inr m)) all)
AllFoundIn-Among Good ts (cancelled e s ∷ ws) up (g, all) =
    ((g, up s (inl refl)), AllFoundIn-Among Good ts ws (λ t m. up t (inr m)) all)

module _ {S R : Type 0} (round : S → Round S R) (on_stop : R) (Good : S → Type 0)
    (Ends : S → S → R → Type 0) (Waits : S → S → Type 0)
    (does : (s : S) → Good s → Does Ends Waits s (round s)) where
  -- The same with a context, looked at first.
  pub loop_in-Because :
      (on_done : ContextError → R) (c : Option ContextError) (s : S) (ws : List (ContextWake S))
      → (HasStop ws → (t : S) → Good t → Ends t t on_stop)
      → ((e : ContextError) → EndedBy c ws e → (t : S) → Good t → Ends t t (on_done e))
      → Good s
      → AllFoundIn Good ws
      → Answers
          (Found Good (s ∷ states_in ws))
          Ends
          Waits
          (await_context round on_stop on_done (checked round on_stop on_done c s) ws)
  loop_in-Because on_done c s ws stops ends g all =
      let Here = Found Good (s ∷ states_in ws) in
      let does' : (t : S) → Here t → Does Ends Waits t (round t) = λ t h. does t h.0 in
      await_context-Answers round on_stop Here Ends Waits does' on_done s
        (checked round on_stop on_done c s) ws (g, inl refl)
        (checked-Does round on_stop Here Ends Waits does' on_done c s (g, inl refl)
          (λ e h. ends e (inl h) s g))
        (AllFoundIn-Among Good (s ∷ states_in ws) ws (λ t m. inr m) all) (λ h t k. stops h t k.0)
        (λ e h t k. ends e (inr h) t k.0)

  module _ (stops : (s : S) → Good s → Ends s s on_stop) where
    -- A loop from its first round on answers from one of the states that it found.
    pub loop-Answers :
        (s : S) (ws : List (Wake S))
        → Good s
        → AllFound Good ws
        → Answers (Found Good (s ∷ states ws)) Ends Waits (await round on_stop (round s) ws)
    loop-Answers s ws g all =
        await-Answers round on_stop (Found Good (s ∷ states ws)) Ends Waits (λ t h. does t h.0)
          (λ t h. stops t h.0) s (round s) ws (g, inl refl) (does s g)
          (AllFound-Among Good (s ∷ states ws) ws (λ t m. inr m) all)

    -- Whatever it is that ends the wait.
    pub loop_in-Answers :
        (on_done : ContextError → R)
        → ((e : ContextError) (s : S) → Good s → Ends s s (on_done e))
        → (c : Option ContextError) (s : S) (ws : List (ContextWake S)) → Good s
        → AllFoundIn Good ws
        → Answers
            (Found Good (s ∷ states_in ws))
            Ends
            Waits
            (await_context round on_stop on_done (checked round on_stop on_done c s) ws)
    loop_in-Answers on_done ends c s ws g all =
        loop_in-Because on_done c s ws (λ h. stops) (λ e h. ends e) g all

-- The states at which a call finds `stopChan` closed.
abbrev pub stop_states : {S : Type 0} → List (Wake S) → List S
stop_states [] = []
stop_states (signal s ∷ ws) = stop_states ws
stop_states (stopped s ∷ ws) = s ∷ stop_states ws

-- A round whose result, if it has one, is another than `x`.
abbrev pub Spares : {S R : Type 0} → R → Round S R → Type 0
Spares x (finished s r) = r ≢ x
Spares x (waiting s) = Unit {0}
Spares x exhausted = Unit {0}

-- Where no round gives the result of the stop, a call has it from a stop.
pub await-stopped :
    {S R : Type 0} (round : S → Round S R) (on_stop : R)
    → ((s : S) → Spares on_stop (round s))
    → (r : Round S R) (ws : List (Wake S)) (t : S) → Spares on_stop r
    → await round on_stop r ws ≡ returned t on_stop
    → Among (stop_states ws) t
unfolding await
await-stopped round on_stop h (finished s r) ws t n e = absurd (n (cc))
await-stopped round on_stop h exhausted ws t n e = absurd (ground arith)
await-stopped round on_stop h (waiting s) [] t n e = absurd (ground arith)
await-stopped round on_stop h (waiting s) (signal u ∷ ws) t n e =
    await-stopped round on_stop h (round u) ws t (h u) e
await-stopped round on_stop h (waiting s) (stopped u ∷ ws) t n e = inl (cc)

-- A call has returned.
abbrev pub HasReturned : {S R : Type 0} → Outcome S R → Type 0
HasReturned (returned s r) = Unit {0}
HasReturned (blocked s) = ⊥
HasReturned stuck = ⊥

-- A round ends the call, whatever its result.
abbrev pub Finishes : {S R : Type 0} → Round S R → Type 0
Finishes (finished s r) = Unit {0}
Finishes (waiting s) = ⊥
Finishes exhausted = ⊥

-- A round does not run out of fuel.
abbrev pub Settles : {S R : Type 0} → Round S R → Type 0
Settles (finished s r) = Unit {0}
Settles (waiting s) = Unit {0}
Settles exhausted = ⊥

pub Does-Settles :
    {S R : Type 0} (Ends : S → S → R → Type 0) (Waits : S → S → Type 0) (s : S) (r : Round S R)
    → Does Ends Waits s r
    → Settles r
Does-Settles Ends Waits s (finished s' r) d = tt
Does-Settles Ends Waits s (waiting s') d = tt
Does-Settles Ends Waits s exhausted d = d

module _ {S R : Type 0} (round : S → Round S R) (on_stop : R) (Good : S → Type 0)
    (settles : (s : S) → Good s → Settles (round s)) where
  finished-HasReturned :
      (r : Round S R) (vs : List (Wake S)) → Finishes r → HasReturned (await round on_stop r vs)
  unfolding await
  finished-HasReturned (finished s r) vs f = tt
  finished-HasReturned (waiting s) vs f = absurd f
  finished-HasReturned exhausted vs f = absurd f

  -- Once a signal finds a state from which a round ends the call, the call has returned.
  pub await-HasReturned :
      (r : Round S R) (ws vs : List (Wake S)) (t : S)
      → Settles r
      → AllFound Good ws
      → Finishes (round t)
      → HasReturned (await round on_stop r (ws ++ signal t ∷ vs))
  unfolding await
  await-HasReturned (finished s' r) ws vs t d all f = tt
  await-HasReturned exhausted ws vs t d all f = absurd d
  await-HasReturned (waiting s') [] vs t d all f = finished-HasReturned (round t) vs f
  await-HasReturned (waiting s') (signal u ∷ ws) vs t d (g, all) f =
      await-HasReturned (round u) ws vs t (settles u g) all f
  await-HasReturned (waiting s') (stopped u ∷ ws) vs t d all f = tt

  module _ (on_done : ContextError → R) where
    finished-HasReturnedIn :
        (r : Round S R) (vs : List (ContextWake S))
        → Finishes r
        → HasReturned (await_context round on_stop on_done r vs)
    unfolding await_context
    finished-HasReturnedIn (finished s r) vs f = tt
    finished-HasReturnedIn (waiting s) vs f = absurd f
    finished-HasReturnedIn exhausted vs f = absurd f

    pub checked-Settles :
        (c : Option ContextError) (s : S) → Good s → Settles (checked round on_stop on_done c s)
    checked-Settles none s g = settles s g
    checked-Settles (some e) s g = tt

    -- The same for a call with a context, done or not.
    pub await_context-HasReturned :
        (r : Round S R) (ws vs : List (ContextWake S)) (c : Option ContextError) (t : S)
        → Settles r
        → AllFoundIn Good ws
        → Finishes (round t)
        → HasReturned (await_context round on_stop on_done r (ws ++ signal_in c t ∷ vs))
    unfolding await_context
    await_context-HasReturned (finished s' r) ws vs c t d all f = tt
    await_context-HasReturned exhausted ws vs c t d all f = absurd d
    await_context-HasReturned (waiting s') [] vs none t d all f =
        finished-HasReturnedIn (round t) vs f
    await_context-HasReturned (waiting s') [] vs (some e) t d all f = tt
    await_context-HasReturned (waiting s') (signal_in b u ∷ ws) vs c t d (g, all) f =
        await_context-HasReturned (checked round on_stop on_done b u) ws vs c t
          (checked-Settles b u g) all f
    await_context-HasReturned (waiting s') (stopped_in u ∷ ws) vs c t d all f = tt
    await_context-HasReturned (waiting s') (cancelled e u ∷ ws) vs c t d all f = tt
