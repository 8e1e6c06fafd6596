-- ===== src/Cursor/Expiry/Counted.antt =====
-- The counters through the loop of `RemoveExpiredData` (queue/chunked_list.go).
use mpmc_queue.Prelude.{ℕ, zero, suc, ◌-◌, ◌<◌, ◌≡◌, refl, sym, subst, inl, inr, arith, lt-or-le}
use mpmc_queue.Prelude.Int.{ℤ}
use mpmc_queue.ChunkedList.{ChunkedList, instant, expire_elements, remove_expired_data}
use mpmc_queue.ChunkedList.Links.{elements, IsLinked}
use mpmc_queue.ChunkedList.Totals.{IsCounted}
use mpmc_queue.ChunkedList.Released.{IsCounted-kept, IsCounted-gone}
use mpmc_queue.ChunkedList.Removal.{
  chunk, list_gone, expire_elements-kept, expire_elements-gone, chunk-Expires, IsLinked-gone,
}
use mpmc_queue.Cursor.Expiry.{Expiry}
use mpmc_queue.Cursor.Expiry.Kept.{Expiry-none, Expiry-kept}
use mpmc_queue.Cursor.Expiry.Gone.{Expiry-gone}

expire_elements-IsCounted :
    (now ttl : ℤ) (n first : ℕ) (cl : ChunkedList)
    → IsLinked cl first
    → IsCounted cl first
    → cl.allocated - first ≡ n
    → let (cl', removed, infos) = expire_elements (instant now) ttl (elements first n) cl in
      (first' : ℕ) × Expiry now ttl cl cl' first first' removed infos × IsCounted cl' first'
unfolding expire_elements
expire_elements-IsCounted now ttl zero first cl v c h =
    (first, Expiry-none now ttl cl first v (omega arith), c)
expire_elements-IsCounted now ttl (suc n) first cl v c h =
    let lt : first < cl.allocated = omega arith in
    let es = elements (suc first) n in
    let x' = chunk-Expires (instant now) ttl cl first v lt in
    elim (lt-or-le (chunk now ttl cl first v lt).head (chunk now ttl cl first v lt).size) [
      | inl h' ↦ rw (expire_elements-kept now ttl cl first v lt es h') (
        first,
        Expiry-kept now ttl cl first v lt h',
        IsCounted-kept (instant now) ttl cl first v lt c,
      )
      | inr h' ↦
          let all : (chunk now ttl cl first v lt).head ≡ (chunk now ttl cl first v lt).size =
            omega (arith, x'.head_within) in
          let cl'' = list_gone now ttl cl first v lt in
          let (first', rest, counted) =
            expire_elements-IsCounted now ttl n (suc first) cl''
              (IsLinked-gone (instant now) ttl cl first v lt)
              (IsCounted-gone (instant now) ttl cl first v lt c all) (omega arith) in
          rw (expire_elements-gone now ttl cl first v lt es all)
            (first', Expiry-gone now ttl cl first v lt all _ first' _ _ rest, counted)
    ]

-- With a clock that stands still, RemoveExpiredData keeps the exact counters of a linked list
-- exact, beside what it does to the list: what it takes away is taken off the number of items and
-- off the tracker's total, with the chunks that leave the list, and nothing is clamped at 0.
pub remove_expired_data-IsCounted :
    (now ttl : ℤ) (cl : ChunkedList) (first : ℕ)
    → IsLinked cl first
    → IsCounted cl first
    → let (cl', removed, infos) = remove_expired_data (instant now) ttl cl in
      (first' : ℕ) × Expiry now ttl cl cl' first first' removed infos × IsCounted cl' first'
unfolding remove_expired_data
remove_expired_data-IsCounted now ttl cl first v c =
    subst
      (λ es.
        let (cl', removed, infos) = expire_elements (instant now) ttl es cl in
        (first' : ℕ) × Expiry now ttl cl cl' first first' removed infos × IsCounted cl' first')
      (sym v.in_list) (expire_elements-IsCounted now ttl (cl.allocated - first) first cl v c refl)
