-- ===== src/ConsumerGroup/Members/Carried.antt =====
-- What a member of a group carries out of `TryRead` (queue/consumer_group.go): the copy that it made.
use mpmc_queue.Prelude.{
  ℕ, ◌≡◌, ◌⊎◌, refl, inl, inr, Bool, true, false, Option, none, some, Bool-cases, arith, ltb,
  if◌then◌else◌, subst,
}
use mpmc_queue.Data.{QueueData}
use mpmc_queue.Chunk.{get}
use mpmc_queue.ChunkedList.{ChunkedList, get_first_element}
use mpmc_queue.Cursor.{Cursor, is_at}
use mpmc_queue.ConsumerGroup.Members.{
  Point, outside, entered, uninitialized, fetched, looping, checking, resetting, sizing, copying,
  holding, missing, skipping, ended, linking, member_step, member_steps,
}
use mpmc_queue.Schedule.{Delivery}
use mpmc_queue.Schedule.Stored.{IsStored, Handling}

-- The item that a member copied, and where from.
abbrev pub carried_by : Point → Option Delivery
carried_by (holding e i d) = some (record { element = e; index = i; item = d })
carried_by _ = none

abbrev pub Carries : Point → Delivery → Type 0
Carries p d = carried_by p ≡ some d

-- A step hands over what the member carries, or nothing; where it reaches is a point that carries nothing,
-- or the copy of a cell.
module _ (cl : ChunkedList) (cur : Cursor) (closed : Bool) where
  abbrev Hands : Point → Point → Option Delivery → Type 0
  Hands p q out =
      ((d : Delivery) → (out ≡ some d) → Carries p d)
      × ((d : Delivery) → Carries q d → Carries p d ⊎ IsStored cl d)

  idle : (p q : Point) → carried_by q ≡ none → Hands p q none
  idle p q empty = (λ d e. absurd (ground arith), λ d e. absurd (ground (arith, empty)))

  either-idle :
      (b : Bool) (p q q' : Point)
      → carried_by q ≡ none
      → carried_by q' ≡ none
      → Hands p (if b then q else q') none
  either-idle true p q q' h h' = idle p q h
  either-idle false p q q' h h' = idle p q' h'

  maybe-idle :
      {A : Type 0} (o : Option A) (p q : Point) (f : A → Point)
      → carried_by q ≡ none
      → ((a : A) → carried_by (f a) ≡ none)
      → Hands p (elim o [ none ↦ q | some a ↦ f a ]) none
  maybe-idle none p q f h k = idle p q h
  maybe-idle (some a) p q f h k = idle p (f a) (k a)

  abbrev IfStored : Option Delivery → Type 0
  IfStored none = Unit {0}
  IfStored (some d) = IsStored cl d

  -- What `Get` finds is live.
  get-IsStored :
      (e i : ℕ) (x : QueueData)
      → get (cl.chunks e) i ≡ some x
      → IsStored cl (record { element = e; index = i; item = x })
  unfolding get
  get-IsStored e i x h = (ground (arith, h), ground (arith, h), ground (arith, h))

  copied :
      (e i : ℕ) (o : Option QueueData)
      → (get (cl.chunks e) i ≡ o)
      → Hands (copying e i) (elim o [ none ↦ missing e i | some d ↦ holding e i d ]) none
  copied e i none h = idle (copying e i) (missing e i) refl
  copied e i (some x) h =
      (λ d e'. absurd (ground arith), λ d c. inr (subst IfStored c (get-IsStored e i x h)))

  pub member_step-Hands : (p : Point) → let r = member_step closed cl cur p in Hands p r.0 r.2
  unfolding member_step
  member_step-Hands outside = either-idle closed outside outside entered refl refl
  member_step-Hands entered =
      maybe-idle cur.chunk_element entered uninitialized (λ _. looping) refl (λ a. refl)
  member_step-Hands uninitialized =
      maybe-idle (get_first_element cl) uninitialized outside fetched refl (λ a. refl)
  member_step-Hands (fetched f) = idle (fetched f) looping refl
  member_step-Hands looping =
      maybe-idle cur.chunk_element looping outside (λ e. checking e cur.index_in_chunk) refl
        (λ a. refl)
  member_step-Hands (checking e i) =
      either-idle (cl.chunks e).pooled (checking e i) (resetting e) (sizing e i) refl refl
  member_step-Hands (resetting e) = idle (resetting e) outside refl
  member_step-Hands (sizing e i) =
      either-idle (ltb i (cl.chunks e).size) (sizing e i) (copying e i) (ended e i) refl refl
  member_step-Hands (copying e i) = copied e i (get (cl.chunks e) i) refl
  member_step-Hands (holding e i d) = elim (Bool-cases (is_at cur e i)) [
    | inl there ↦ rw there (λ x h. h, λ x c. absurd (ground arith))
    | inr gone ↦ rw gone (idle (holding e i d) looping refl)
  ]
  member_step-Hands (missing e i) =
      either-idle (ltb i (cl.chunks e).head) (missing e i) (skipping e i) outside refl refl
  member_step-Hands (skipping e i) = idle (skipping e i) looping refl
  member_step-Hands (ended e i) = idle (ended e i) (linking e i (cl.chunks e).next_element) refl
  member_step-Hands (linking e i none) = idle (linking e i none) outside refl
  member_step-Hands (linking e i (some f)) = idle (linking e i (some f)) looping refl

pub members-Handling : Handling member_steps Carries
members-Handling = record {
  given = λ closed cl cur p d h. (member_step-Hands cl cur closed p).0 d h;
  taken = λ closed cl cur p d c. (member_step-Hands cl cur closed p).1 d c;
}
