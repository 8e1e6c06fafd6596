-- ===== src/ConsumerGroup/Members/Advance.antt =====
-- One step of a member (queue/consumer_group.go): the group's position only goes on, and an item comes
-- from the position.
use mpmc_queue.Prelude.{
  ℕ, suc, ◌+◌, ◌-◌, ◌<◌, ◌≡◌, refl, sym, subst, inl, inr, Bool, true, false, Option, none, some,
  arith, Bool-cases, lt-or-le, if◌then◌else◌, ltb, ◌==◌,
}
use mpmc_queue.Data.{QueueData}
use mpmc_queue.Chunk.{get}
use mpmc_queue.ChunkedList.{ChunkedList, get_first_element}
use mpmc_queue.ChunkedList.Links.{IsLinked}
use mpmc_queue.Cursor.{Cursor, at, is_at, is_on}
use mpmc_queue.ConsumerGroup.Members.{
  Point, outside, entered, uninitialized, fetched, looping, checking, resetting, sizing, copying,
  holding, missing, skipping, ended, linking, member_step,
}
use mpmc_queue.Schedule.{Delivery}
use mpmc_queue.Schedule.Order.{Position, Upto, Upto-refl, Progress}
use mpmc_queue.Schedule.Links.{Forward}

-- All positions before the frontier are behind the group: its position or, where it has none, the front
-- of the list.
abbrev pub frontier : Cursor → ℕ → Position
frontier cur first = elim cur.chunk_element [ none ↦ (first, 0) | some e ↦ (e, cur.index_in_chunk) ]

-- The position is on an element that has been made.
abbrev pub IsMade : ℕ → Cursor → Type 0
IsMade allocated cur = elim cur.chunk_element [ none ↦ Unit {0} | some e ↦ e < allocated ]

-- What a member's locals say of the list, whatever others did since it read them.
abbrev pub IsSound : ℕ → ℕ → Point → Type 0
IsSound allocated first (fetched f) = (f ≡ first) × (f < allocated)
IsSound allocated first (checking e i) = e < allocated
IsSound allocated first (resetting e) = e < first
IsSound allocated first (linking e i (some f)) = (e < f) × (f < allocated)
IsSound allocated first _ = Unit {0}

abbrev pub Advances : ChunkedList → ℕ → Cursor → Point × Cursor × Option Delivery → Type 0
Advances cl first cur (point, cur', out) =
    IsSound cl.allocated first point
    × IsMade cl.allocated cur'
    × Progress (frontier cur first) out (frontier cur' first)

pub is_at-true : (cur : Cursor) (e i : ℕ) → is_at cur e i ≡ true → cur ≡ at e i
is_at-true cur e i h = go cur.chunk_element cur.index_in_chunk h
  where
    go :
        (o : Option ℕ) (j : ℕ)
        → is_at (record { chunk_element = o; index_in_chunk = j }) e i ≡ true
        → (record { chunk_element = o; index_in_chunk = j }) ≡ at e i
    go none j k = absurd (ground arith)
    go (some f) j k = let a : f ≡ e = ground arith in let b : j ≡ i = ground arith in rw (a, b) refl

is_on-true : (cur : Cursor) (e : ℕ) → is_on cur e ≡ true → cur.chunk_element ≡ some e
is_on-true cur e h = go cur.chunk_element h
  where
    go : (o : Option ℕ) → elim o [ none ↦ false | some f ↦ f == e ] ≡ true → o ≡ some e
    go none k = absurd (ground arith)
    go (some f) k = ground arith

-- An element whose chunk is back in the pool is not in the list.
pub pooled-retired :
    (cl : ChunkedList) (first : ℕ) (v : IsLinked cl first) (e : ℕ)
    → e < cl.allocated
    → (cl.chunks e).pooled ≡ true
    → e < first
pooled-retired cl first v e lt gone = elim (lt-or-le e first) [
  | inl behind ↦ behind
  | inr le ↦ absurd (ground (arith, gone, (v.filled e le lt).in_use))
]

module _ (cl : ChunkedList) (first : ℕ) (v : IsLinked cl first) (links : Forward cl) (cur : Cursor)
    (made : IsMade cl.allocated cur) where
  -- A position that is written only where it still is the one that was copied.
  guarded :
      (e i : ℕ) (cur' : Cursor)
      → ((cur ≡ at e i) → IsMade cl.allocated cur')
      → Upto (e, i) (frontier cur' first)
      → let c = if is_at cur e i then cur' else cur in
        IsMade cl.allocated c × Upto (frontier cur first) (frontier c first)
  guarded e i cur' made' u = elim (Bool-cases (is_at cur e i)) [
    | inl there ↦ rw there (made' (is_at-true cur e i there), rw (is_at-true cur e i there) u)
    | inr gone ↦ rw gone (made, Upto-refl (frontier cur first))
  ]

  stays : (p : Point) → IsSound cl.allocated first p → Advances cl first cur (p, cur, none)
  stays p s = (s, made, Upto-refl (frontier cur first))

  -- A test at which the position stays.
  choice :
      (b : Bool) (p q : Point)
      → ((b ≡ true) → IsSound cl.allocated first p)
      → ((b ≡ false) → IsSound cl.allocated first q)
      → Advances cl first cur (if b then p else q, cur, none)
  choice true p q s t = stays p (s refl)
  choice false p q s t = stays q (t refl)

  entered-Advances : (closed : Bool) → Advances cl first cur (member_step closed cl cur entered)
  unfolding member_step
  entered-Advances closed = go cur.chunk_element
    where
      go :
          (o : Option ℕ)
          → Advances cl first cur (elim o [ none ↦ uninitialized | some _ ↦ looping ], cur, none)
      go none = stays uninitialized tt
      go (some e) = stays looping tt

  uninitialized-Advances :
      (closed : Bool) → Advances cl first cur (member_step closed cl cur uninitialized)
  unfolding member_step
  uninitialized-Advances closed = elim (lt-or-le first cl.allocated) [
    | inl some_left ↦
        let n : cl.allocated - first ≡ suc (cl.allocated - suc first) = omega arith in
        let e : get_first_element cl ≡ some first = rw (v.in_list, n) refl in
        rw (e, member_step) (stays (fetched first) (refl, some_left))
    | inr none_left ↦
        let n : cl.allocated - first ≡ 0 = omega arith in
        let e : get_first_element cl ≡ none = rw (v.in_list, n) refl in
        rw (e, member_step) (stays outside tt)
  ]

  linking-IsSound :
      (e i : ℕ) (o : Option ℕ)
      → (cl.chunks e).next_element ≡ o
      → IsSound cl.allocated first (linking e i o)
  linking-IsSound e i none h = tt
  linking-IsSound e i (some f) h = links e f h

  resetting-Advances :
      (closed : Bool) (e : ℕ)
      → e < first
      → Advances cl first cur (member_step closed cl cur (resetting e))
  unfolding member_step
  resetting-Advances closed e lt = elim (Bool-cases (is_on cur e)) [
    | inl there ↦ rw there (tt, tt, rw (is_on-true cur e there) (inl lt))
    | inr gone ↦ rw gone (stays outside tt)
  ]

  holding-Advances :
      (closed : Bool) (e i : ℕ) (d : QueueData)
      → Advances cl first cur (member_step closed cl cur (holding e i d))
  unfolding member_step
  holding-Advances closed e i d = elim (Bool-cases (is_at cur e i)) [
    | inl there ↦
        let same = is_at-true cur e i there in
        rw there (
          tt,
          subst (IsMade cl.allocated) same made,
          rw same (inr (refl, omega arith), inr (refl, omega arith)),
        )
    | inr gone ↦ rw gone (stays looping tt)
  ]

  pub member_step-Advances :
      (closed : Bool) (p : Point)
      → IsSound cl.allocated first p
      → Advances cl first cur (member_step closed cl cur p)
  unfolding member_step
  member_step-Advances closed outside s = choice closed outside entered (λ _. tt) (λ _. tt)
  member_step-Advances closed entered s = entered-Advances closed
  member_step-Advances closed uninitialized s = uninitialized-Advances closed
  member_step-Advances closed (fetched f) (same, lt) = go cur.chunk_element cur.index_in_chunk made
    where
      go :
          (o : Option ℕ) (j : ℕ)
          → let c : Cursor = record { chunk_element = o; index_in_chunk = j } in
            IsMade cl.allocated c
            → Advances cl first c (looping, elim o [ none ↦ at f 0 | some _ ↦ c ], none)
      go none j m = (tt, lt, inr (sym same, omega arith))
      go (some e) j m = (tt, m, Upto-refl (e, j))
  member_step-Advances closed looping s = go cur.chunk_element cur.index_in_chunk made
    where
      go :
          (o : Option ℕ) (j : ℕ)
          → let c : Cursor = record { chunk_element = o; index_in_chunk = j } in
            IsMade cl.allocated c
            → Advances cl first c (elim o [ none ↦ outside | some e ↦ checking e j ], c, none)
      go none j m = (tt, tt, Upto-refl (first, 0))
      go (some e) j m = (m, m, Upto-refl (e, j))
  member_step-Advances closed (checking e i) lt =
      choice (cl.chunks e).pooled (resetting e) (sizing e i) (pooled-retired cl first v e lt)
        (λ _. tt)
  member_step-Advances closed (resetting e) lt = resetting-Advances closed e lt
  member_step-Advances closed (sizing e i) s =
      choice (ltb i (cl.chunks e).size) (copying e i) (ended e i) (λ _. tt) (λ _. tt)
  member_step-Advances closed (copying e i) s = go (get (cl.chunks e) i)
    where
      go :
          (o : Option QueueData)
          → Advances cl first cur
              (elim o [ none ↦ missing e i | some d ↦ holding e i d ], cur, none)
      go none = stays (missing e i) tt
      go (some d) = stays (holding e i d) tt
  member_step-Advances closed (holding e i d) s = holding-Advances closed e i d
  member_step-Advances closed (missing e i) s =
      choice (ltb i (cl.chunks e).head) (skipping e i) outside (λ _. tt) (λ _. tt)
  member_step-Advances closed (skipping e i) s =
      let (m, u) =
        guarded e i (at e (i + 1)) (λ same. subst (IsMade cl.allocated) same made)
          (inr (refl, omega arith)) in
      (tt, m, u)
  member_step-Advances closed (ended e i) s =
      stays (linking e i (cl.chunks e).next_element) (linking-IsSound e i _ refl)
  member_step-Advances closed (linking e i none) s = stays outside tt
  member_step-Advances closed (linking e i (some f)) (lt, lt') =
      let (m, u) = guarded e i (at f 0) (λ _. lt') (inl lt) in (tt, m, u)
