-- ===== src/Consumer/Blocking/Filtered.antt =====
-- `ReadWhere` and `ReadWhereWithContext` (queue/consumer.go): they return the first item that matches.
use mpmc_queue.Prelude.{
  ℕ, ◌≡◌, refl, ap, sym, subst, ◌⊎◌, inl, inr, Bool, Option, none, some, List, ◌∷◌, arith,
}
use mpmc_queue.Data.{QueueData}
use mpmc_queue.Errors.{ContextError, Error, context_error}
use mpmc_queue.ChunkedList.Links.{IsLinked}
use mpmc_queue.Cursor.Unread.{unread_at}
use mpmc_queue.Consumer.{Consumer, try_read_where}
use mpmc_queue.Consumer.Batch.{IsReady, first_match, try_read_where-Found}
use mpmc_queue.Consumer.Blocking.{
  View, where_round, read_where, where_done, read_where_with_context,
}
use mpmc_queue.Waiting.{Wake, ContextWake}
use mpmc_queue.Waiting.Laws.{
  Found, states, states_in, loop-Answers, loop_in-Because, HasStop, EndedBy, AllFound, AllFoundIn,
  Does, Answers,
}

-- A view in which a consumer without a group is ready to read, with its list from the element `first`.
pub record IsReading (s : View) (first : ℕ) : Type 0 where
  pub linked : IsLinked s.items first
  pub ready : IsReady s.items first s.consumer

abbrev pub Reading : View → Type 0
Reading s = (first : ℕ) × IsReading s first

abbrev pub unread_of : View → ℕ → List QueueData
unread_of s first = unread_at s.items first s.consumer.cursor

-- What a search in the view `s` leaves: `out` is the first match among the unread items, and the items
-- behind it stay unread.
abbrev pub Searched : (QueueData → Bool) → View → View → Option QueueData → Type 0
Searched predicate s s' out =
    (first : ℕ) × (s'.items ≡ s.items)
    × IsReading s' first
    × (first_match predicate (unread_of s first) ≡ (out, unread_of s' first))

-- A call returned a match and no error, or returned for the reason `Ended` and touched nothing.
abbrev pub Filtered :
    (Option QueueData × Option Error → Type 0)
    → (QueueData → Bool)
    → View
    → View
    → Option QueueData × Option Error
    → Type 0
Filtered Ended predicate s s' r =
    (Ended r × (s' ≡ s))
    ⊎ ((d : QueueData) × (r ≡ (some d, none)) × Searched predicate s s' (some d))

abbrev pub Unmatched : (QueueData → Bool) → View → View → Type 0
Unmatched predicate s s' = Searched predicate s s' none

-- The reasons: the queue stopped or, with a context, its end.
abbrev pub Stopped : Option QueueData × Option Error → Type 0
Stopped r = r ≡ (none, none)

-- With a context `done` and wake-ups `ws`: nil for a stop that was met, and the context's own error where
-- that was over.
abbrev pub StoppedIn :
    Option ContextError → List (ContextWake View) → Option QueueData × Option Error → Type 0
StoppedIn done ws r =
    (Stopped r × HasStop ws)
    ⊎ ((e : ContextError) × (r ≡ (none, some (context_error e))) × EndedBy done ws e)

-- A test for a group that finds none.
groupless :
    {G R : Type 0} (o : Option G) (x y : R) → o ≡ none → elim o [ some _ ↦ x | none ↦ y ] ≡ y
groupless none x y e = refl
groupless (some g) x y e = absurd (ground arith)

module _ (predicate : QueueData → Bool) where
  search_ends :
      (Ended : Option QueueData × Option Error → Type 0) (s : View) (first : ℕ)
      → IsLinked s.items first
      → (out : Option QueueData) (rest : List QueueData)
      → first_match predicate (unread_of s first) ≡ (out, rest)
      → (c' : Consumer)
      → try_read_where s.now s.items (some predicate) s.consumer ≡ some (out, none, c')
      → unread_at s.items first c'.cursor ≡ rest
      → IsReady s.items first c'
      → Does (Filtered Ended predicate) (Unmatched predicate) s (where_round predicate s)
  unfolding where_round
  search_ends Ended s first v none rest m c' e w ready =
      rw (e, where_round)
        (first, refl, record { linked = v; ready = ready }, rw m (ap (λ l. (none, l)) (sym w)))
  search_ends Ended s first v (some d) rest m c' e w ready =
      rw (e, where_round)
        (inr (
          d,
          refl,
          (first, refl, record { linked = v; ready = ready }, rw m (ap (λ l. (some d, l)) (sym w))),
        ))

  where_round-Does :
      (Ended : Option QueueData × Option Error → Type 0) (s : View)
      → Reading s
      → Does (Filtered Ended predicate) (Unmatched predicate) s (where_round predicate s)
  where_round-Does Ended s (first, g) =
      let (c', e, w, ready) =
        try_read_where-Found s.now s.items first g.linked predicate s.consumer g.ready in
      search_ends Ended s first g.linked _ _ refl c' e w ready

  -- Where ReadWhere has returned an item, it is the first match of a list that it found.
  pub read_where-Answers :
      (s : View) (ws : List (Wake View))
      → Reading s
      → AllFound Reading ws
      → Answers
          (Found Reading (s ∷ states ws))
          (Filtered Stopped predicate)
          (Unmatched predicate)
          (read_where (some predicate) s ws)
  unfolding read_where
  read_where-Answers s ws (first, g) all =
      let does = where_round-Does Stopped in
      let stops : (t : View) → Reading t → Filtered Stopped predicate t t (none, none) =
        λ t h. inl (refl, refl) in
      subst
        (Answers (Found Reading (s ∷ states ws)) (Filtered Stopped predicate) (Unmatched predicate))
        (sym (groupless s.consumer.group _ _ g.ready.alone))
        (loop-Answers (where_round predicate) (none, none) Reading (Filtered Stopped predicate)
          (Unmatched predicate) does stops s ws (first, g) all)

  -- Whatever ReadWhereWithContext finds at its rounds, for a consumer without a group that is
  -- ready to read, it does not run out; an item that it has returned is the first match before the
  -- consumer in a list that it found, with no error, and the consumer stands behind it; it returns
  -- nil and no error only if one of its wake-ups is a stop of the queue, nil and the error of its
  -- context only if that was over for that reason at the start or at a wake-up, and changes
  -- nothing then; and it waits only where nothing before the consumer matches, all of which it has
  -- dropped.
  pub read_where_with_context-Answers :
      (done : Option ContextError) (s : View) (ws : List (ContextWake View))
      → Reading s
      → AllFoundIn Reading ws
      → Answers
          (Found Reading (s ∷ states_in ws))
          (Filtered (StoppedIn done ws) predicate)
          (Unmatched predicate)
          (read_where_with_context done (some predicate) s ws)
  unfolding read_where_with_context
  read_where_with_context-Answers done s ws (first, g) all =
      let round = where_round predicate in
      let Ends = Filtered (StoppedIn done ws) predicate in
      let does = where_round-Does (StoppedIn done ws) in
      let stops : HasStop ws → (t : View) → Reading t → Ends t t (none, none) =
        λ k t h. inl (inl (refl, k), refl) in
      let ends : (e : ContextError)
          → EndedBy done ws e
          → (t : View) → Reading t
          → Ends t t (none, some (context_error e)) =
        λ e k t h. inl (inr (e, refl, k), refl) in
      subst (Answers (Found Reading (s ∷ states_in ws)) Ends (Unmatched predicate))
        (sym (groupless s.consumer.group _ _ g.ready.alone))
        (loop_in-Because round (none, none) Reading Ends (Unmatched predicate) does where_done done
          s ws stops ends (first, g) all)
