-- ===== src/Cursor/Expiry/Remove.antt =====
-- The loop of `RemoveExpiredData` (queue/chunked_list.go) from the front of the list on.
use mpmc_queue.Prelude.{ℕ, zero, suc, ◌-◌, ◌<◌, ◌≡◌, refl, sym, subst, inl, inr, arith, lt-or-le}
use mpmc_queue.Prelude.Int.{ℤ}
use mpmc_queue.ChunkedList.{ChunkedList, instant, expire_elements, remove_expired_data}
use mpmc_queue.ChunkedList.Links.{elements, IsLinked}
use mpmc_queue.ChunkedList.Removal.{
  chunk, list_gone, expire_elements-kept, expire_elements-gone, chunk-Expires, IsLinked-gone,
}
use mpmc_queue.Cursor.Expiry.{Expiry}
use mpmc_queue.Cursor.Expiry.Kept.{Expiry-none, Expiry-kept}
use mpmc_queue.Cursor.Expiry.Gone.{Expiry-gone}

expire_elements-Expiry :
    (now ttl : ℤ) (n first : ℕ) (cl : ChunkedList)
    → IsLinked cl first
    → cl.allocated - first ≡ n
    → let (cl', removed, infos) = expire_elements (instant now) ttl (elements first n) cl in
      (first' : ℕ) × Expiry now ttl cl cl' first first' removed infos
unfolding expire_elements
expire_elements-Expiry now ttl zero first cl v h =
    (first, Expiry-none now ttl cl first v (omega arith))
expire_elements-Expiry now ttl (suc n) first cl v h =
    let lt : first < cl.allocated = omega arith in
    let es = elements (suc first) n in
    let x' = chunk-Expires (instant now) ttl cl first v lt in
    elim (lt-or-le (chunk now ttl cl first v lt).head (chunk now ttl cl first v lt).size) [
      | inl h' ↦
          rw (expire_elements-kept now ttl cl first v lt es h')
            (first, Expiry-kept now ttl cl first v lt h')
      | inr h' ↦
          let all : (chunk now ttl cl first v lt).head ≡ (chunk now ttl cl first v lt).size =
            omega (arith, x'.head_within) in
          let cl'' = list_gone now ttl cl first v lt in
          let (first', rest) =
            expire_elements-Expiry now ttl n (suc first) cl''
              (IsLinked-gone (instant now) ttl cl first v lt) (omega arith) in
          rw (expire_elements-gone now ttl cl first v lt es all)
            (first', Expiry-gone now ttl cl first v lt all _ first' _ _ rest)
    ]

-- With a clock that stands still during the call, RemoveExpiredData keeps a linked list linked,
-- drops exactly the expired items at its front up to the first that has not expired, and returns
-- their number; every reader position in the list keeps its unread items that are left, in order,
-- and the count for it is the number of unread items that it loses.
pub remove_expired_data-Expiry :
    (now ttl : ℤ) (cl : ChunkedList) (first : ℕ)
    → IsLinked cl first
    → let (cl', removed, infos) = remove_expired_data (instant now) ttl cl in
      (first' : ℕ) × Expiry now ttl cl cl' first first' removed infos
unfolding remove_expired_data
remove_expired_data-Expiry now ttl cl first v =
    subst
      (λ es.
        let (cl', removed, infos) = expire_elements (instant now) ttl es cl in
        (first' : ℕ) × Expiry now ttl cl cl' first first' removed infos)
      (sym v.in_list) (expire_elements-Expiry now ttl (cl.allocated - first) first cl v refl)
