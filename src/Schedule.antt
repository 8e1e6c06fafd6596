-- ===== src/Schedule.antt =====
-- Calls of `TryRead` on one reader that run at once (queue/consumer.go, queue/consumer_group.go). Each
-- stands at a point between two of its critical sections or atomic loads, with the locals that it has
-- read. Between two steps of a call others run: calls on the same reader, a producer, or a cleanup,
-- which holds the queue's lock from `RemoveExpiredData` until it has moved the reader. A producer's
-- `Enqueue` and the removal are one step each; the queue itself stays open. What differs between a
-- consumer and a group is an interface, `Steps`.
pub mod Order
pub mod Links
pub mod Safety
pub mod Cells
pub mod Stored
use mpmc_queue.Prelude.{
  ℕ, ◌≡◌, Bool, true, false, ◌&&◌, Option, none, some, List, [], ◌∷◌, leb, update, if◌then◌else◌,
}
use mpmc_queue.Prelude.Int.{ℤ}
use mpmc_queue.Data.{QueueData}
use mpmc_queue.ChunkedList
use mpmc_queue.ChunkedList.{
  ChunkedList, ChunkRemovalInfo, get_first_element, instant, remove_expired_data,
}
use mpmc_queue.Cursor.{Cursor}

-- An item that a call returned, and the position that it came from.
pub record Delivery : Type 0 where
  pub element : ℕ
  pub index : ℕ
  pub item : QueueData

-- `P` is where a call can stand. `step` is its next step: where it stands then, the reader's position,
-- and what it returns, given whether the reader is closed. `needs_lock` tells the steps that take the
-- queue's lock for reading, and `moved` is `UpdatePositionAfterExpiration`.
pub record Steps (P : Type 0) : Type 0 where
  pub step : Bool → ChunkedList → Cursor → P → P × Cursor × Option Delivery
  pub needs_lock : P → Bool
  pub moved : Bool → ChunkedList → ℕ → Option ℕ → List ChunkRemovalInfo → Cursor → Cursor

-- The reader and the calls on it, and what they returned, newest first. `cleanup` is what a cleanup that
-- holds the queue's lock has removed.
pub record World (P : Type 0) : Type 0 where
  pub closed : Bool
  pub items : ChunkedList
  pub cursor : Cursor
  pub points : ℕ → P
  pub cleanup : Option (ℕ × List ChunkRemovalInfo)
  pub delivered : List Delivery

-- A reader that nobody has read from, with the position that it is made with, and calls that stand at `p`.
abbrev pub unread : {P : Type 0} → ChunkedList → Cursor → P → World P
unread cl cursor p = record {
  closed = false;
  items = cl;
  cursor = cursor;
  points = λ _. p;
  cleanup = none;
  delivered = [];
}

pub data Action : Type 0 where
  step_call : ℕ → Action
  post : QueueData → Action
  remove : ℤ → ℤ → Action
  move : Action
  shut : Action

abbrev pub logged : Option Delivery → List Delivery → List Delivery
logged none ds = ds
logged (some d) ds = d ∷ ds

module _ {P : Type 0} where
  abbrev pub is_cleaning : World P → Bool
  is_cleaning w = elim w.cleanup [ none ↦ false | some _ ↦ true ]

  module _ (s : Steps P) where
    -- `none` where the action waits for the lock.
    unfoldable pub act : Action → World P → Option (World P)
    act (step_call k) w =
        if is_cleaning w && s.needs_lock (w.points k)
        then none
        else let (point, cursor, out) = s.step w.closed w.items w.cursor (w.points k) in
          some (record w {
            cursor = cursor;
            points = update w.points k point;
            delivered = logged out w.delivered;
          })
    act (post d) w =
        if is_cleaning w
        then none
        else some (record w { items = (ChunkedList.enqueue w.items d).0 })
    act (remove now ttl) w =
        if is_cleaning w
        then none
        else let (items, removed, infos) = remove_expired_data (instant now) ttl w.items in
          some (record w {
            items = items;
            cleanup = if leb removed 0 then none else some (removed, infos);
          })
    act move w = elim w.cleanup [
      | none ↦ none
      | some (removed, infos) ↦ some (record w {
        cursor = s.moved w.closed w.items removed (get_first_element w.items) infos w.cursor;
        cleanup = none;
      })
    ]
    act shut w = some (record w { closed = true })

    -- A run from the world `start`.
    pub data Reach (start : World P) : World P → Type 0 where
      begin : Reach start start
      next : (a : Action) (w w' : World P) → Reach start w → act a w ≡ some w' → Reach start w'
