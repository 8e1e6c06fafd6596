-- ===== src/Consumer/Callers/Advance.antt =====
-- One step of the only call on a consumer without a group (queue/consumer.go): the position only goes on,
-- and an item comes from the position.
use mpmc_queue.Prelude.{
  ℕ, suc, ◌-◌, ◌<◌, ◌≡◌, refl, subst, inl, inr, Bool, true, false, Option, none, some, arith,
  Bool-cases, lt-or-le, ltb, if◌then◌else◌,
}
use mpmc_queue.Data.{QueueData}
use mpmc_queue.Chunk.{get}
use mpmc_queue.ChunkedList.{ChunkedList, get_first_element}
use mpmc_queue.ChunkedList.Links.{IsLinked}
use mpmc_queue.Cursor.{Cursor, is_at}
use mpmc_queue.ConsumerGroup.Members.{
  Point, outside, entered, uninitialized, fetched, looping, checking, resetting, sizing, copying,
  holding, missing, skipping, ended, linking, member_step,
}
use mpmc_queue.ConsumerGroup.Members.Advance.{
  frontier, IsMade, IsSound, Advances, is_at-true, member_step-Advances,
}
use mpmc_queue.Consumer.Callers.{ReadPoint, shared, jumping, caller_step}
use mpmc_queue.Schedule.{Delivery}
use mpmc_queue.Schedule.Order.{Position, Upto-refl, Progress}
use mpmc_queue.Schedule.Links.{Forward}

-- All positions before it are behind a consumer: where the front of the list has been fetched, they
-- count from there.
abbrev pub front_of : Cursor → ReadPoint → ℕ → Position
front_of cur (shared (fetched f)) first = (f, 0)
front_of cur _ first = frontier cur first

-- What the locals of the one caller say of the list and of the position.
abbrev pub IsSettled : ℕ → ℕ → Cursor → ReadPoint → Type 0
IsSettled a first cur (shared (fetched f)) = (cur.chunk_element ≡ none) × (f < a)
IsSettled a first cur (shared uninitialized) = cur.chunk_element ≡ none
IsSettled a first cur (shared p) = IsSound a first p
IsSettled a first cur (jumping e i h) = i < h

-- The points of a call that has a position.
abbrev is_plain : Point → Bool
is_plain uninitialized = false
is_plain (fetched f) = false
is_plain _ = true

front_of-plain :
    (cur : Cursor) (p : Point) (first : ℕ)
    → is_plain p ≡ true
    → front_of cur (shared p) first ≡ frontier cur first
front_of-plain cur uninitialized first h = absurd (ground arith)
front_of-plain cur (fetched f) first h = absurd (ground arith)
front_of-plain cur _ first h = refl

IsSettled-plain :
    (a first : ℕ) (cur : Cursor) (p : Point)
    → is_plain p ≡ true
    → IsSound a first p
    → IsSettled a first cur (shared p)
IsSettled-plain a first cur uninitialized h s = absurd (ground arith)
IsSettled-plain a first cur (fetched f) h s = absurd (ground arith)
IsSettled-plain a first cur _ h s = s

either-plain :
    (b : Bool) (p q : Point)
    → is_plain p ≡ true
    → is_plain q ≡ true
    → is_plain (if b then p else q) ≡ true
either-plain true p q h k = h
either-plain false p q h k = k

module _ (cl : ChunkedList) (first : ℕ) (v : IsLinked cl first) (links : Forward cl) (cur : Cursor)
    (made : IsMade cl.allocated cur) where
  abbrev Goes : ReadPoint → ReadPoint × Cursor × Option Delivery → Type 0
  Goes p (q, cur', out) =
      IsSettled cl.allocated first cur' q
      × IsMade cl.allocated cur'
      × Progress (front_of cur p first) out (front_of cur' q first)

  -- The step of a group's member, where both points are plain.
  plain-Goes :
      (p : Point) (r : Point × Cursor × Option Delivery)
      → is_plain p ≡ true
      → is_plain r.0 ≡ true
      → Advances cl first cur r
      → Goes (shared p) (shared r.0, r.1, r.2)
  plain-Goes p (q, cur', out) hp hq (sound, made', progress) = (
    IsSettled-plain cl.allocated first cur' q hq sound,
    made',
    rw (front_of-plain cur p first hp, front_of-plain cur' q first hq) progress,
  )

  -- Where the point has been reached and the position stays.
  rests :
      (p : Point) (q : ReadPoint)
      → is_plain p ≡ true
      → IsSettled cl.allocated first cur q
      → front_of cur q first ≡ frontier cur first
      → Goes (shared p) (q, cur, none)
  rests p q hp s same =
      (s, made, rw (front_of-plain cur p first hp, same) (Upto-refl (frontier cur first)))

  starts : (closed : Bool) → Goes (shared entered) (caller_step closed cl cur (shared entered))
  unfolding caller_step member_step
  starts closed = go cur.chunk_element refl
    where
      go :
          (o : Option ℕ)
          → (cur.chunk_element ≡ o)
          → Goes
              (shared entered)
              (shared (elim o [ none ↦ uninitialized | some _ ↦ looping ]), cur, none)
      go none new = rests entered (shared uninitialized) refl new refl
      go (some e) begun = rests entered (shared looping) refl tt refl

  fetches :
      (closed : Bool)
      → (cur.chunk_element ≡ none)
      → Goes (shared uninitialized) (caller_step closed cl cur (shared uninitialized))
  unfolding caller_step member_step
  fetches closed new = elim (lt-or-le first cl.allocated) [
    | inl some_left ↦
        let n : cl.allocated - first ≡ suc (cl.allocated - suc first) = omega arith in
        let e : get_first_element cl ≡ some first = rw (v.in_list, n) refl in
        rw (e, caller_step, member_step) ((new, some_left), made, rw new (Upto-refl (first, 0)))
    | inr none_left ↦
        let n : cl.allocated - first ≡ 0 = omega arith in
        let e : get_first_element cl ≡ none = rw (v.in_list, n) refl in
        rw (e, caller_step, member_step) (tt, made, Upto-refl (frontier cur first))
  ]

  jumps :
      (closed : Bool) (e i h : ℕ)
      → i < h
      → Goes (jumping e i h) (caller_step closed cl cur (jumping e i h))
  unfolding caller_step
  jumps closed e i h lt = elim (Bool-cases (is_at cur e i)) [
    | inl there ↦
        let same = is_at-true cur e i there in
        rw there (tt, subst (IsMade cl.allocated) same made, rw same (inr (refl, omega arith)))
    | inr gone ↦ rw gone (tt, made, Upto-refl (frontier cur first))
  ]

  misses :
      (closed : Bool) (e i : ℕ)
      → Goes (shared (missing e i)) (caller_step closed cl cur (shared (missing e i)))
  unfolding caller_step
  misses closed e i = elim (Bool-cases (ltb i (cl.chunks e).head)) [
    | inl behind ↦
        rw behind (rests (missing e i) (jumping e i (cl.chunks e).head) refl (ground arith) refl)
    | inr empty ↦ rw empty (rests (missing e i) (shared outside) refl tt refl)
  ]

  -- The steps that a consumer shares with a group's member.
  follows :
      (closed : Bool) (p : Point)
      → is_plain p ≡ true
      → IsSound cl.allocated first p
      → is_plain (member_step closed cl cur p).0 ≡ true
      → let r = member_step closed cl cur p in Goes (shared p) (shared r.0, r.1, r.2)
  follows closed p hp s hq =
      plain-Goes p (member_step closed cl cur p) hp hq
        (member_step-Advances cl first v links cur made closed p s)

  pub caller_step-Goes :
      (closed : Bool) (p : ReadPoint)
      → IsSettled cl.allocated first cur p
      → Goes p (caller_step closed cl cur p)
  unfolding caller_step member_step
  caller_step-Goes closed (jumping e i h) s = jumps closed e i h s
  caller_step-Goes closed (shared outside) s =
      follows closed outside refl tt (either-plain closed outside entered refl refl)
  caller_step-Goes closed (shared entered) s = starts closed
  caller_step-Goes closed (shared uninitialized) s = fetches closed s
  caller_step-Goes closed (shared (fetched f)) (new, lt) = (tt, lt, Upto-refl (f, 0))
  caller_step-Goes closed (shared looping) s =
      follows closed looping refl tt (looping-plain cur.chunk_element)
    where
      looping-plain :
          (o : Option ℕ)
          → is_plain (elim o [ none ↦ outside | some e ↦ checking e cur.index_in_chunk ]) ≡ true
      looping-plain none = refl
      looping-plain (some e) = refl
  caller_step-Goes closed (shared (checking e i)) s =
      follows closed (checking e i) refl s
        (either-plain (cl.chunks e).pooled (resetting e) (sizing e i) refl refl)
  caller_step-Goes closed (shared (resetting e)) s = follows closed (resetting e) refl s refl
  caller_step-Goes closed (shared (sizing e i)) s =
      follows closed (sizing e i) refl tt
        (either-plain (ltb i (cl.chunks e).size) (copying e i) (ended e i) refl refl)
  caller_step-Goes closed (shared (copying e i)) s =
      follows closed (copying e i) refl tt (copying-plain (get (cl.chunks e) i))
    where
      copying-plain :
          (o : Option QueueData)
          → is_plain (elim o [ none ↦ missing e i | some d ↦ holding e i d ]) ≡ true
      copying-plain none = refl
      copying-plain (some d) = refl
  caller_step-Goes closed (shared (holding e i d)) s =
      follows closed (holding e i d) refl tt holding-plain
    where
      holding-plain : is_plain (member_step closed cl cur (holding e i d)).0 ≡ true
      holding-plain = elim (Bool-cases (is_at cur e i)) [
        | inl there ↦ rw there refl
        | inr gone ↦ rw gone refl
      ]
  caller_step-Goes closed (shared (missing e i)) s = misses closed e i
  caller_step-Goes closed (shared (skipping e i)) s = follows closed (skipping e i) refl tt refl
  caller_step-Goes closed (shared (ended e i)) s = follows closed (ended e i) refl tt refl
  caller_step-Goes closed (shared (linking e i none)) s =
      follows closed (linking e i none) refl tt refl
  caller_step-Goes closed (shared (linking e i (some f))) s =
      follows closed (linking e i (some f)) refl s refl
