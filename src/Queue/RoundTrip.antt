-- ===== src/Queue/RoundTrip.antt =====
-- `TryEnqueueBatch` (queue/queue.go) and then `TryReadBatch` (queue/consumer.go): what went in comes out.
use mpmc_queue.Prelude.{
  ℕ, zero, suc, ◌+◌, ◌≤◌, ◌≡◌, refl, ap, ◌∙◌, inl, inr, Option, none, some, List, [], ◌∷◌, ◌++◌,
  arith, length, length-append, take, drop,
}
use mpmc_queue.Prelude.Int.{ℤ, pos}
use mpmc_queue.Payload.{Payload}
use mpmc_queue.Data.{QueueData}
use mpmc_queue.ChunkedList.{ChunkedList}
use mpmc_queue.ChunkedList.Links.{IsLinked}
use mpmc_queue.ChunkedList.Enqueue.{AppendsAll}
use mpmc_queue.Cursor.{Cursor}
use mpmc_queue.Cursor.Unread.{IsCursor, unread_at}
use mpmc_queue.Consumer.{Consumer, try_read_batch}
use mpmc_queue.Consumer.Batch.{IsReady, try_read_batch-Batch}
use mpmc_queue.Queue.{Queue, try_enqueue_batch}
use mpmc_queue.Queue.Enqueue.{payloads, try_enqueue_batch-AllOrNothing}

take_all : {A : Type 0} (n : ℕ) (xs : List A) → length xs ≤ n → take n xs ≡ xs
take_all zero [] h = refl
take_all zero (x ∷ xs) h = absurd (omega arith)
take_all (suc n) [] h = refl
take_all (suc n) (x ∷ xs) h = ap (λ l. x ∷ l) (take_all n xs (omega arith))

drop_all : {A : Type 0} (n : ℕ) (xs : List A) → length xs ≤ n → drop n xs ≡ []
drop_all zero [] h = refl
drop_all zero (x ∷ xs) h = absurd (omega arith)
drop_all (suc n) [] h = refl
drop_all (suc n) (x ∷ xs) h = drop_all n xs (omega arith)

length-payloads : (ds : List QueueData) → length (payloads ds) ≡ length ds
length-payloads [] = refl
length-payloads (d ∷ ds) = ap suc (length-payloads ds)

-- A position stays in a list that items are appended to, and has them before it, too.
module _ (cl cl' : ChunkedList) (first : ℕ) (ds : List QueueData)
    (a : AppendsAll cl cl' first ds) where
  appended :
      (o : Option ℕ) (i : ℕ)
      → let cur : Cursor = record { chunk_element = o; index_in_chunk = i } in
        IsCursor cl first cur
        → IsCursor cl' first cur × (unread_at cl' first cur ≡ unread_at cl first cur ++ ds)
  appended none i p = (tt, a.all)
  appended (some e) i p =
      let (within, same) = a.ahead e i p.from_first p.made p.up_to_size in
      (
        record {
          from_first = p.from_first;
          made = omega (arith, p.made, a.grown);
          up_to_size = within;
        },
        same,
      )

-- Where TryEnqueueBatch on a queue with a linked list returns no error, a TryReadBatch of a
-- consumer that is ready to read, and whose limit is not less than the items before it and the
-- payloads together, returns first the items that it had before it and then an item for each
-- payload, in order, and leaves nothing before the consumer.
pub try_enqueue_batch-try_read_batch :
    (now later : ℤ) (sequence : ℕ) (q : Queue) (first : ℕ) (c : Consumer) (ps : List Payload)
    (limit : ℕ)
    → IsLinked q.items first
    → IsReady q.items first c
    → (try_enqueue_batch now sequence q ps).2 ≡ none
    → length (unread_at q.items first c.cursor) + length ps ≤ limit
    → let q' = (try_enqueue_batch now sequence q ps).1 in
      (ds : List QueueData) × (c' : Consumer) × (payloads ds ≡ ps)
      × (try_read_batch later q'.items (pos limit) c
          ≡ some (unread_at q.items first c.cursor ++ ds, c'))
      × (unread_at q'.items first c'.cursor ≡ [])
try_enqueue_batch-try_read_batch now later sequence q first c ps limit v ready ok few =
    let q' = (try_enqueue_batch now sequence q ps).1 in
    elim (try_enqueue_batch-AllOrNothing now sequence q first v ps) [
      | inl (done, v', (ds, same, a)) ↦
          let (p, more) =
            appended q.items q'.items first ds a c.cursor.chunk_element c.cursor.index_in_chunk
              ready.position in
          let ready' : IsReady q'.items first c = record {
            position = p;
            open_ = ready.open_;
            alone = ready.alone;
          } in
          let all = unread_at q'.items first c.cursor in
          let (c', e, left, r) =
            try_read_batch-Batch later q'.items first v' (pos limit) c ready' in
          let short : length all ≤ limit = omega (
            arith,
            ap length more,
            length-append (unread_at q.items first c.cursor) ds,
            length-payloads ds,
            ap length same,
          ) in
          (
            ds,
            c',
            same,
            e ∙ ap (λ l. some (l, c')) (take_all limit all short ∙ more),
            left ∙ drop_all limit all short,
          )
      | inr (e, failed, kept) ↦ absurd (ground (arith, ok, failed))
    ]
