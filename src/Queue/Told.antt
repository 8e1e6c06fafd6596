-- ===== src/Queue/Told.antt =====
-- `NotifyAllConsumersOfExpiration` (queue/consumer.go) behind a call of `RemoveExpiredData` that removed
-- something: what each consumer and each group is told, and where it goes.
use mpmc_queue.Prelude.{
  refl, ap, ◌∙◌, otherwise, ℕ, zero, suc, ltb, length, ◌++◌, ◌∷◌, [], ◌<◌, ◌≡◌, false, none, List,
  arith, leb, if◌then◌else◌,
}
use mpmc_queue.Prelude.Int.{ℤ}
use mpmc_queue.ChunkedList.{ChunkedList, ChunkRemovalInfo, get_first_element}
use mpmc_queue.Cursor.{Cursor, calculate_expired_count, update_position}
use mpmc_queue.Cursor.Unread.{IsCursor}
use mpmc_queue.Cursor.Expiry.{Expiry}
use mpmc_queue.Cursor.Expiry.Move.{Moves, update_position-Moves}
use mpmc_queue.Consumer
use mpmc_queue.Consumer.{Consumer}
use mpmc_queue.ConsumerGroup
use mpmc_queue.ConsumerGroup.{ConsumerGroup, send_or_drop}
use mpmc_queue.Queue.Manager.{expire_consumer, expire_group}

-- A channel of notices holds 100 at most: a number that is not 0 goes behind the others if there is room,
-- and is lost if there is none.
abbrev pub told : List ℕ → ℕ → List ℕ
told ch zero = ch
told ch (suc n) = if ltb (length ch) 100 then ch ++ suc n ∷ [] else ch

send_or_drop-told :
    (ch : List ℕ) (missed : ℕ)
    → (if leb missed 0 then ch else send_or_drop ch missed) ≡ told ch missed
send_or_drop-told ch zero = refl
send_or_drop-told ch (suc n) =
    let some_missed : leb (suc n) 0 ≡ false = ground arith in otherwise _ _ some_missed

module _ (now ttl : ℤ) (cl cl' : ChunkedList) (first first' removed : ℕ)
    (infos : List ChunkRemovalInfo) (x : Expiry now ttl cl cl' first first' removed infos)
    (some_gone : 0 < removed) where
  abbrev cursor_of : Cursor → Cursor
  cursor_of cur = update_position cl' removed (get_first_element cl') infos cur

  -- An open consumer without a group is told how many of its unread items went, if any did, and is moved
  -- in front of the others; nothing else of it changes.
  pub expire_consumer-Moves :
      (c : Consumer)
      → c.group ≡ none
      → c.closed ≡ false
      → IsCursor cl first c.cursor
      → let missed = calculate_expired_count c.cursor infos in
        (cur : Cursor) × Moves cl cl' first first' missed c.cursor cur
        × (expire_consumer cl' (get_first_element cl') infos c
            ≡ record c { cursor = cur; notification_ch = told c.notification_ch missed })
  unfolding expire_consumer Consumer.notify_expired_items Consumer.update_position_after_expiration
  expire_consumer-Moves c alone open_ p = (
    update_position cl' removed (get_first_element cl') infos c.cursor,
    update_position-Moves now ttl cl cl' first first' removed infos x some_gone c.cursor p,
    ground (arith, alone, open_, x.total)
        ∙ ap (λ ch. record c { cursor = cursor_of c.cursor; notification_ch = ch })
            (send_or_drop-told c.notification_ch (calculate_expired_count c.cursor infos)),
  )

  -- So is an open group, by the position that its members share.
  pub expire_group-Moves :
      (g : ConsumerGroup)
      → g.closed ≡ false
      → IsCursor cl first g.cursor
      → let missed = calculate_expired_count g.cursor infos in
        (cur : Cursor) × Moves cl cl' first first' missed g.cursor cur
        × (expire_group cl' (get_first_element cl') infos g
            ≡ record g { cursor = cur; notification_ch = told g.notification_ch missed })
  unfolding expire_group ConsumerGroup.notify_expired_items
      ConsumerGroup.update_position_after_expiration
  expire_group-Moves g open_ p = (
    update_position cl' removed (get_first_element cl') infos g.cursor,
    update_position-Moves now ttl cl cl' first first' removed infos x some_gone g.cursor p,
    ground (arith, open_, x.total)
        ∙ ap (λ ch. record g { cursor = cursor_of g.cursor; notification_ch = ch })
            (send_or_drop-told g.notification_ch (calculate_expired_count g.cursor infos)),
  )
