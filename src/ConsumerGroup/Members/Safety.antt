-- ===== src/ConsumerGroup/Members/Safety.antt =====
-- Runs of the members of one group (queue/consumer_group.go) at once: the order of what they return, and
-- where it comes from.
use mpmc_queue.Prelude.{
  ℕ, ◌≡◌, refl, arith, inl, inr, Bool, true, false, List, Bool-cases, ◌==◌, if◌then◌else◌,
}
use mpmc_queue.ChunkedList.{ChunkedList, ChunkRemovalInfo, get_first_element}
use mpmc_queue.ChunkedList.Links.{IsLinked}
use mpmc_queue.Cursor.{Cursor, at_start, update_position}
use mpmc_queue.ConsumerGroup.Members.{Point, outside, member_steps}
use mpmc_queue.ConsumerGroup.Members.Advance.{frontier, IsMade, IsSound, member_step-Advances}
use mpmc_queue.ConsumerGroup.Members.Invariant.{
  is_fetched, IsSound-grown, IsSound-onward, IsMade-grown, frontier-onward, moved-onward,
}
use mpmc_queue.Schedule.{World, unread, Reach}
use mpmc_queue.Schedule.Order.{Upto, Upto-refl, Descends}
use mpmc_queue.Schedule.Links.{Forward}
use mpmc_queue.ConsumerGroup.Members.Carried.{Carries, members-Handling}
use mpmc_queue.Schedule.Stored.{AllStored, Reach-Stored}
use mpmc_queue.Schedule.Safety.{Keeps, Discipline, Reach-IsOrdered}

abbrev pub Group : Type 0
Group = World Point

-- A group that nobody has read from.
abbrev pub unread_group : ChunkedList → Group
unread_group cl = unread cl at_start outside

abbrev pub AnyMember : ℕ → Type 0
AnyMember k = Unit {0}

abbrev pub NoneFetched : (ℕ → Point) → Type 0
NoneFetched ps = (k : ℕ) → is_fetched (ps k) ≡ false

-- No cleanup removes items while a member holds a front of the list that it has not stored yet.
abbrev pub Calm : {start w : Group} → Reach member_steps start w → Type 0
Calm r = Keeps AnyMember NoneFetched r

abbrev AllSound : ℕ → ℕ → Cursor → (ℕ → Point) → Type 0
AllSound a first cur ps = IsMade a cur × ((k : ℕ) → IsSound a first (ps k))

moved-cases :
    (cl : ChunkedList) (first : ℕ)
    → IsLinked cl first
    → (closed : Bool) (removed : ℕ) (infos : List ChunkRemovalInfo) (cur : Cursor)
    → IsMade cl.allocated cur
    → let cur' =
        if closed then cur else update_position cl removed (get_first_element cl) infos cur in
      IsMade cl.allocated cur' × Upto (frontier cur first) (frontier cur' first)
moved-cases cl first v true removed infos cur m = (m, Upto-refl (frontier cur first))
moved-cases cl first v false removed infos cur m = moved-onward cl first v removed infos cur m

members-Discipline :
    Discipline member_steps AnyMember NoneFetched AllSound (λ cur ps first. frontier cur first)
members-Discipline = record {
  stepped = λ cl first v links closed cur ps (m, sound) k may.
      let (sound', m', progress) =
        member_step-Advances cl first v links cur m closed (ps k) (sound k) in
      (
        (
          m',
          λ j. elim (Bool-cases (j == k)) [
            | inl same ↦ rw same sound'
            | inr other ↦ rw other (sound j)
          ],
        ),
        progress,
      );
  grown = λ a b first cur ps le (m, sound).
      (IsMade-grown a b cur le m, λ k. IsSound-grown a b first (ps k) le (sound k));
  onward = λ a first first' cur ps le calm (m, sound). (
    (m, λ k. IsSound-onward a first first' (ps k) le (calm k) (sound k)),
    frontier-onward cur first first' le,
  );
  moved_onward = λ cl first v closed removed infos cur ps (m, sound).
      let (m', u) = moved-cases cl first v closed removed infos cur m in ((m', sound), u);
}

-- From a linked list whose links lead to later elements, however the steps of any number of
-- members, of producers, of cleanups and of the group's Close follow one another, as long as no
-- cleanup removes items while a member holds a front of the list that it has not stored yet, each
-- item that a member returns comes from a position behind all those that were returned before it,
-- so that none is returned twice.
pub members-Descends :
    (cl : ChunkedList) (first : ℕ)
    → IsLinked cl first
    → Forward cl
    → (w : Group) (r : Reach member_steps (unread_group cl) w) → Calm r
    → Descends w.delivered
members-Descends cl first v links w r c =
    let (first', o) =
      Reach-IsOrdered member_steps AnyMember NoneFetched AllSound
        (λ cur ps first. frontier cur first) members-Discipline (unread_group cl) w r c first
        (record { linked = v; links = links; sound = (tt, λ k. tt); behind = tt; ordered = tt }) in
    o.ordered

-- However the steps of any number of members, of producers, of cleanups and of the group's Close
-- follow one another, whatever the list held: each item that a member has returned was, in some
-- world of the run, in the very cell of the chunk that it is said to come from, at an index from
-- the chunk's head up to its size, and so not expired there; and it was in that cell when the run
-- began, or a producer has posted it since.
pub members-AllStored :
    (cl : ChunkedList) (w : Group) (r : Reach member_steps (unread_group cl) w)
    → AllStored r w.delivered
members-AllStored cl w r =
    (Reach-Stored member_steps Carries members-Handling (unread_group cl)
      (λ k d c. absurd (ground arith)) refl w r).1
