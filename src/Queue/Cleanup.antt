-- ===== src/Queue/Cleanup.antt =====
-- `cleanupExpiredItems` (queue/queue.go), the list and the readers together.
use mpmc_queue.Prelude.{
  ℕ, ◌+◌, ◌<◌, ◌≡◌, refl, sym, subst, true, false, Option, none, some, List, [], ◌∷◌, arith, length,
  map,
}
use mpmc_queue.Prelude.Int.{ℤ}
use mpmc_queue.ChunkedList.{
  ChunkedList, ChunkRemovalInfo, get_first_element, instant, remove_expired_data,
}
use mpmc_queue.ChunkedList.Links.{IsLinked, contents}
use mpmc_queue.Cursor.{count_removed}
use mpmc_queue.Cursor.Unread.{IsCursor}
use mpmc_queue.Cursor.Expiry.{Expiry, survivors}
use mpmc_queue.Cursor.Expiry.Move.{Moves}
use mpmc_queue.Cursor.Expiry.Remove.{remove_expired_data-Expiry}
use mpmc_queue.Consumer.{Consumer}
use mpmc_queue.ConsumerGroup.{ConsumerGroup}
use mpmc_queue.Queue.{Queue, cleanup_expired_items, signal_capacity}
use mpmc_queue.Queue.Manager.{notify_all_consumers_of_expiration, expire_consumer, expire_group}
use mpmc_queue.Queue.Told.{told, expire_consumer-Moves, expire_group-Moves}

abbrev pub All : {A : Type 0} → (A → Type 0) → List A → Type 0
All P [] = Unit {0}
All P (a ∷ xs) = P a × All P xs

abbrev pub AllPairs : {A : Type 0} → (A → A → Type 0) → List A → List A → Type 0
AllPairs R [] [] = Unit {0}
AllPairs R (a ∷ xs) (b ∷ ys) = R a b × AllPairs R xs ys
AllPairs R _ _ = ⊥

AllPairs-map :
    {A : Type 0} (P : A → Type 0) (R : A → A → Type 0) (f : A → A)
    → ((a : A) → P a → R a (f a))
    → (xs : List A) → All P xs
    → AllPairs R xs (map f xs)
AllPairs-map P R f h [] p = tt
AllPairs-map P R f h (a ∷ xs) (p, ps) = (h a p, AllPairs-map P R f h xs ps)

-- A reader that is open and whose position is in the list, or that has not begun.
pub record IsPlaced (cl : ChunkedList) (first : ℕ) (c : Consumer) : Type 0 where
  pub open_ : c.closed ≡ false
  pub position : IsCursor cl first c.cursor

pub record IsPlacedGroup (cl : ChunkedList) (first : ℕ) (g : ConsumerGroup) : Type 0 where
  pub open_ : g.closed ≡ false
  pub position : IsCursor cl first g.cursor

-- A member of a group is left alone; another consumer is told of what it missed, and moved.
abbrev pub MovedAs : ChunkedList → ChunkedList → ℕ → ℕ → Option ℕ → Consumer → Consumer → Type 0
MovedAs cl cl' first first' (some g) c c' = c' ≡ c
MovedAs cl cl' first first' none c c' =
    (missed : ℕ) × Moves cl cl' first first' missed c.cursor c'.cursor
    × (c'.notification_ch ≡ told c.notification_ch missed)

abbrev pub Moved : ChunkedList → ChunkedList → ℕ → ℕ → Consumer → Consumer → Type 0
Moved cl cl' first first' c c' = MovedAs cl cl' first first' c.group c c'

abbrev pub MovedGroup : ChunkedList → ChunkedList → ℕ → ℕ → ConsumerGroup → ConsumerGroup → Type 0
MovedGroup cl cl' first first' g g' =
    (missed : ℕ) × Moves cl cl' first first' missed g.cursor g'.cursor
    × (g'.notification_ch ≡ told g.notification_ch missed)

module _ (now ttl : ℤ) (cl cl' : ChunkedList) (first first' removed : ℕ)
    (infos : List ChunkRemovalInfo) (x : Expiry now ttl cl cl' first first' removed infos)
    (some_gone : 0 < removed) where
  Moved-as :
      (o : Option ℕ) (c : Consumer)
      → c.group ≡ o
      → IsPlaced cl first c
      → MovedAs cl cl' first first' o c (expire_consumer cl' (get_first_element cl') infos c)
  unfolding expire_consumer
  Moved-as (some g) c h p = ground (arith, h)
  Moved-as none c h p =
      let (cur, moves, e) =
        expire_consumer-Moves now ttl cl cl' first first' removed infos x some_gone c h p.open_
          p.position in
      subst (λ c'. MovedAs cl cl' first first' none c c') (sym e) (_, moves, refl)

  Moved-consumer :
      (c : Consumer)
      → IsPlaced cl first c
      → Moved cl cl' first first' c (expire_consumer cl' (get_first_element cl') infos c)
  Moved-consumer c p = Moved-as c.group c refl p

  MovedGroup-group :
      (g : ConsumerGroup)
      → IsPlacedGroup cl first g
      → MovedGroup cl cl' first first' g (expire_group cl' (get_first_element cl') infos g)
  MovedGroup-group g p =
      let (cur, moves, e) =
        expire_group-Moves now ttl cl cl' first first' removed infos x some_gone g p.open_
          p.position in
      subst (λ g'. MovedGroup cl cl' first first' g g') (sym e) (_, moves, refl)

-- What a cleanup that removed something did to a queue.
pub record Cleaned (now : ℤ) (q q' : Queue) (first first' removed : ℕ) : Type 0 where
  pub linked : IsLinked q'.items first'
  pub left : contents q'.items first' ≡ survivors now q.ttl (contents q.items first)
  pub counted : removed + length (contents q'.items first') ≡ length (contents q.items first)
  pub consumers :
      AllPairs (Moved q.items q'.items first first') q.consumers.consumers q'.consumers.consumers
  pub groups :
      AllPairs (MovedGroup q.items q'.items first first') q.consumers.groups q'.consumers.groups
  pub signalled : q'.dequeue_notify ≡ 100

module _ (now : ℤ) (q : Queue) (first : ℕ) (v : IsLinked q.items first)
    (enabled : q.expiration_enabled ≡ true)
    (consumers : All (IsPlaced q.items first) q.consumers.consumers)
    (groups : All (IsPlacedGroup q.items first) q.consumers.groups) where
  abbrev removal : ChunkedList × ℕ × List ChunkRemovalInfo
  removal = remove_expired_data (instant now) q.ttl q.items

  abbrev cleaned : Queue
  cleaned =
      let (items, removed, infos) = removal in
      record q {
        items = items;
        consumers =
            notify_all_consumers_of_expiration items (get_first_element items) infos q.consumers;
        dequeue_notify = signal_capacity;
      }

  cleanup-removed : (cleanup_expired_items (instant now) q).1 ≡ removal.1
  unfolding cleanup_expired_items
  cleanup-removed = ground (arith, enabled)

  cleanup-cleaned : 0 < removal.1 → cleanup_expired_items (instant now) q ≡ (cleaned, removal.1)
  unfolding cleanup_expired_items
  cleanup-cleaned h = ground (arith, enabled)

  groups-told :
      0 < count_removed removal.2
      → cleaned.consumers.groups
        ≡ map (expire_group removal.0 (get_first_element removal.0) removal.2) q.consumers.groups
  unfolding notify_all_consumers_of_expiration
  groups-told h = ground arith

  -- With a clock that stands still, expiration enabled, a linked list and open readers whose
  -- positions are in it or that have not begun, a cleanup that removes something takes exactly the
  -- expired items at the front and returns their number, moves every consumer without a group and
  -- every group in front of the unread items that are left to it, sends each that missed some how
  -- many, unless 100 notices or more wait in its channel, and sends nothing to one that missed
  -- none, and leaves 100 signals, which is all that it holds, in the channel of the producers.
  pub cleanup_expired_items-Cleaned :
      0 < (cleanup_expired_items (instant now) q).1
      → let (q', removed) = cleanup_expired_items (instant now) q in
        (first' : ℕ) × Cleaned now q q' first first' removed
  unfolding notify_all_consumers_of_expiration
  cleanup_expired_items-Cleaned h =
      let some_gone : 0 < removal.1 = omega (arith, cleanup-removed) in
      let (first', x) = remove_expired_data-Expiry now q.ttl q.items first v in
      rw (cleanup-cleaned some_gone) (
        first',
        record {
          linked = x.linked;
          left = x.left;
          counted = x.counted;
          consumers =
              AllPairs-map _ _ _
                (Moved-consumer now q.ttl q.items removal.0 first first' removal.1 removal.2 x
                  some_gone)
                q.consumers.consumers consumers;
          groups =
              subst
                (λ gs. AllPairs (MovedGroup q.items removal.0 first first') q.consumers.groups gs)
                (sym (groups-told (omega (arith, x.total))))
                (AllPairs-map _ _ _
                  (MovedGroup-group now q.ttl q.items removal.0 first first' removal.1 removal.2 x
                    some_gone)
                  q.consumers.groups groups);
          signalled = refl;
        },
      )
