-- ===== src/Consumer/Callers/Safety.antt =====
-- Runs of `TryRead` on a consumer without a group (queue/consumer.go), while producers and cleanups run: one
-- caller's order, and what any number of callers return.
use mpmc_queue.Prelude.{
  ◌⊎◌, some, suc, inl, inr, lt-or-le, ◌-◌, ℕ, ◌≤◌, ◌≡◌, refl, sym, subst, none, List, arith, update,
}
use mpmc_queue.ChunkedList.{ChunkedList, ChunkRemovalInfo, get_first_element}
use mpmc_queue.ChunkedList.Links.{IsLinked}
use mpmc_queue.Cursor.{Cursor, at, at_start, update_position}
use mpmc_queue.ConsumerGroup.Members.{outside, uninitialized, fetched}
use mpmc_queue.ConsumerGroup.Members.Advance.{IsMade}
use mpmc_queue.ConsumerGroup.Members.Invariant.{
  IsSound-grown, IsSound-onward, IsMade-grown, frontier-onward, moved-onward,
}
use mpmc_queue.Consumer.Callers.{ReadPoint, shared, jumping, caller_step, caller_steps}
use mpmc_queue.Schedule.{World, unread, Reach}
use mpmc_queue.Schedule.Order.{Upto, Upto-refl, Descends, Progress}
use mpmc_queue.Schedule.Links.{Forward}
use mpmc_queue.Consumer.Callers.Carried.{CallerCarries, callers-Handling}
use mpmc_queue.Schedule.Stored.{AllStored, Reach-Stored}
use mpmc_queue.Schedule.Safety.{Keeps, Discipline, Reach-IsOrdered}
use mpmc_queue.Consumer.Callers.Advance.{front_of, IsSettled, caller_step-Goes}

-- What stays true when others change the list or move the consumer.
IsSettled-grown :
    (a b first : ℕ) (cur : Cursor) (p : ReadPoint)
    → a ≤ b
    → IsSettled a first cur p
    → IsSettled b first cur p
IsSettled-grown a b first cur (shared (fetched f)) le (new, lt) = (new, omega arith)
IsSettled-grown a b first cur (shared uninitialized) le new = new
IsSettled-grown a b first cur (jumping e i h) le s = s
IsSettled-grown a b first cur (shared p) le s = IsSound-grown a b first p le s

IsSettled-onward :
    (a first first' : ℕ) (cur : Cursor) (p : ReadPoint)
    → first ≤ first'
    → IsSettled a first cur p
    → IsSettled a first' cur p
IsSettled-onward a first first' cur (shared (fetched f)) le s = s
IsSettled-onward a first first' cur (shared uninitialized) le new = new
IsSettled-onward a first first' cur (jumping e i h) le s = s
IsSettled-onward a first first' cur (shared p) le s = IsSound-onward a first first' p le refl s

front_of-onward :
    (cur : Cursor) (p : ReadPoint) (first first' : ℕ)
    → first ≤ first'
    → Upto (front_of cur p first) (front_of cur p first')
front_of-onward cur (shared (fetched f)) first first' le = Upto-refl (f, 0)
front_of-onward cur _ first first' le = frontier-onward cur first first' le

module _ (cl : ChunkedList) (first : ℕ) (v : IsLinked cl first) (removed : ℕ)
    (infos : List ChunkRemovalInfo) (cur : Cursor) where
  abbrev cur' : Cursor
  cur' = update_position cl removed (get_first_element cl) infos cur

  -- A consumer without a position is not moved.
  moved-new : (cur.chunk_element ≡ none) → cur'.chunk_element ≡ none
  unfolding update_position
  moved-new new = rw new refl

  moved-Settled :
      (p : ReadPoint)
      → IsMade cl.allocated cur
      → IsSettled cl.allocated first cur p
      → (IsMade cl.allocated cur' × IsSettled cl.allocated first cur' p)
        × Upto (front_of cur p first) (front_of cur' p first)
  moved-Settled (shared (fetched f)) m (new, lt) =
      let (m', u) = moved-onward cl first v removed infos cur m in
      ((m', (moved-new new, lt)), Upto-refl (f, 0))
  moved-Settled (shared uninitialized) m new =
      let (m', u) = moved-onward cl first v removed infos cur m in ((m', moved-new new), u)
  moved-Settled (jumping e i h) m s =
      let (m', u) = moved-onward cl first v removed infos cur m in ((m', s), u)
  moved-Settled (shared p) m s =
      let (m', u) = moved-onward cl first v removed infos cur m in ((m', s), u)

-- Only one goroutine calls.
abbrev pub IsFirst : ℕ → Type 0
IsFirst k = k ≡ 0

abbrev pub AnyTime : (ℕ → ReadPoint) → Type 0
AnyTime ps = Unit {0}

abbrev pub Alone : {start w : World ReadPoint} → Reach caller_steps start w → Type 0
Alone r = Keeps IsFirst AnyTime r

abbrev FirstSettled : ℕ → ℕ → Cursor → (ℕ → ReadPoint) → Type 0
FirstSettled a first cur ps = IsMade a cur × IsSettled a first cur (ps 0)

caller-Discipline :
    Discipline caller_steps IsFirst AnyTime FirstSettled (λ cur ps first. front_of cur (ps 0) first)
caller-Discipline = record {
  stepped = λ cl first v links closed cur ps (m, s) k only.
      subst
        (λ j.
          let r = caller_step closed cl cur (ps j) in
          FirstSettled cl.allocated first r.1 (update ps j r.0)
          × Progress (front_of cur (ps 0) first) r.2 (front_of r.1 (update ps j r.0 0) first))
        (sym only)
        (let (s', m', progress) = caller_step-Goes cl first v links cur m closed (ps 0) s in
          ((m', s'), progress));
  grown = λ a b first cur ps le (m, s).
      (IsMade-grown a b cur le m, IsSettled-grown a b first cur (ps 0) le s);
  onward = λ a first first' cur ps le any (m, s). (
    (m, IsSettled-onward a first first' cur (ps 0) le s),
    front_of-onward cur (ps 0) first first' le,
  );
  moved_onward = λ cl first v closed removed infos cur ps (m, s).
      moved-Settled cl first v removed infos cur (ps 0) m s;
}

-- `AddConsumer` sets a new consumer to the front of the list, if there is one then.
abbrev pub front_position : ChunkedList → Cursor
front_position cl = elim (get_first_element cl) [ none ↦ at_start | some f ↦ at f 0 ]

abbrev pub IsNew : ChunkedList → Cursor → Type 0
IsNew cl cur = (cur ≡ at_start) ⊎ (cur ≡ front_position cl)

abbrev pub unread_consumer : ChunkedList → Cursor → World ReadPoint
unread_consumer cl cur = unread cl cur (shared outside)

front-IsMade :
    (cl : ChunkedList) (first : ℕ) → IsLinked cl first → IsMade cl.allocated (front_position cl)
front-IsMade cl first v = elim (lt-or-le first cl.allocated) [
  | inl some_left ↦
      let n : cl.allocated - first ≡ suc (cl.allocated - suc first) = omega arith in
      rw (v.in_list, n) some_left
  | inr none_left ↦ let n : cl.allocated - first ≡ 0 = omega arith in rw (v.in_list, n) tt
]

new-IsMade :
    (cl : ChunkedList) (first : ℕ) (cur : Cursor)
    → IsLinked cl first
    → IsNew cl cur
    → IsMade cl.allocated cur
new-IsMade cl first cur v (inl e) = rw e tt
new-IsMade cl first cur v (inr e) = rw e (front-IsMade cl first v)

-- From a linked list whose links lead to later elements, and a consumer without a group and
-- without a position or at the front of the list, where one goroutine calls its TryRead again and
-- again: however its steps, those of producers and of cleanups and the consumer's Close follow one
-- another, each item that it returns comes from a position behind all those that were returned
-- before it, so that none is returned twice.
pub caller-Descends :
    (cl : ChunkedList) (first : ℕ)
    → IsLinked cl first
    → Forward cl
    → (cur : Cursor) → IsNew cl cur
    → (w : World ReadPoint) (r : Reach caller_steps (unread_consumer cl cur) w) → Alone r
    → Descends w.delivered
caller-Descends cl first v links cur new w r alone =
    let (first', o) =
      Reach-IsOrdered caller_steps IsFirst AnyTime FirstSettled
        (λ cur ps first. front_of cur (ps 0) first) caller-Discipline (unread_consumer cl cur) w r
        alone first
        (record {
          linked = v;
          links = links;
          sound = (new-IsMade cl first cur v new, tt);
          behind = tt;
          ordered = tt;
        }) in
    o.ordered

-- However the steps of any number of calls of TryRead on a consumer without a group, of producers,
-- of cleanups and of the consumer's Close follow one another, whatever the list held and wherever
-- the consumer began: each item that a call has returned was, in some world of the run, in the
-- very cell of the chunk that it is said to come from, at an index from the chunk's head up to its
-- size, and so not expired there; and it was in that cell when the run began, or a producer has
-- posted it since.
pub callers-AllStored :
    (cl : ChunkedList) (cur : Cursor) (w : World ReadPoint)
    (r : Reach caller_steps (unread_consumer cl cur) w)
    → AllStored r w.delivered
callers-AllStored cl cur w r =
    (Reach-Stored caller_steps CallerCarries callers-Handling (unread_consumer cl cur)
      (λ k d c. absurd (ground arith)) refl w r).1
