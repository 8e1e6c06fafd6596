-- ===== src/ChunkedList/Removal.antt =====
-- One round of `RemoveExpiredData` in queue/chunked_list.go, at the first chunk of the list.
use mpmc_queue.Prelude.{
  ℕ, zero, suc, ◌+◌, ◌-◌, ◌<◌, ◌≡◌, refl, ap, sym, ◌∙◌, inl, inr, true, false, List, ◌∷◌, ◌++◌,
  append_assoc, append-nil, arith, lt-or-le, ==_refl, update, update_self, update_ne, length,
}
use mpmc_queue.Prelude.Int.{ℤ, ◌-ℤ◌, leb_ℤ-flip}
use mpmc_queue.Data.{QueueData, is_expired}
use mpmc_queue.Chunk.{ChunkNode, remove_expired, get_earliest_expiry}
use mpmc_queue.Chunk.Live.{live}
use mpmc_queue.Chunk.Expire.{Expires, remove_expired-Expires}
use mpmc_queue.ChunkedList.{
  ChunkedList, Clock, instant, expire_chunk, expire_elements, removal_info, stops_at, forget_items,
  unlink,
}
use mpmc_queue.ChunkedList.Links.{
  contents_of, IsFilled, IsLinked, contents, contents_of_congr, contents_head,
}

module _ (clock : Clock) (ttl : ℤ) (cl : ChunkedList) (first : ℕ) (v : IsLinked cl first)
    (some_left : first < cl.allocated) where
  -- The chunk after the round, and what went out of it.
  abbrev pub after : ChunkNode
  after = (remove_expired (clock.at_index first) ttl (cl.chunks first)).0

  abbrev pub out : List QueueData
  out = (remove_expired (clock.at_index first) ttl (cl.chunks first)).1

  abbrev pub kept_list : ChunkedList
  kept_list = forget_items out (record cl { chunks = update cl.chunks first after })

  f : IsFilled cl.allocated first (cl.chunks first)
  f = v.filled first (omega arith) some_left

  pub chunk-Expires : Expires (clock.at_index first) ttl (cl.chunks first) after out
  chunk-Expires =
      remove_expired-Expires (clock.at_index first) ttl (cl.chunks first) (omega (arith, f.held))

  expire_chunk-kept : after.head < after.size → expire_chunk clock ttl cl first ≡ (kept_list, out)
  unfolding expire_chunk
  expire_chunk-kept h = ground arith

  expire_chunk-gone :
      after.head ≡ after.size → expire_chunk clock ttl cl first ≡ (unlink first kept_list, out)
  unfolding expire_chunk
  expire_chunk-gone h = ground arith

  pub IsLinked-kept : after.head < after.size → IsLinked kept_list first
  IsLinked-kept h = record {
    started = v.started;
    in_list = v.in_list;
    filled = λ e lo hi. elim (lt-or-le first e) [
      | inl lt ↦ rw (update_ne cl.chunks {i = first} {j = e} after (omega arith)) (v.filled e lo hi)
      | inr le ↦
          let p : e ≡ first = omega arith in
          rw (p, update_self cl.chunks first after)
            (record {
              held = h;
              within = rw chunk-Expires.size_kept f.within;
              linked = chunk-Expires.next_kept ∙ f.linked;
              in_use = chunk-Expires.pooled_kept ∙ f.in_use;
              packed = λ lt. chunk-Expires.size_kept ∙ f.packed lt;
            })
    ];
    retired = λ e lt. ground (arith, v.retired e);
  }

  pub IsLinked-gone : IsLinked (unlink first kept_list) (suc first)
  IsLinked-gone = record {
    started = some_left;
    in_list =
        let n : cl.allocated - first ≡ suc (cl.allocated - suc first) = omega arith in
        rw (v.in_list, n, ==_refl first);
    filled = λ e lo hi. ground (arith, v.filled e);
    retired = λ e lt. ground (arith, v.retired e);
  }

  -- The chunks behind the first are as they were.
  pub contents-behind :
      (c : ChunkNode)
      → contents_of (update cl.chunks first c) (suc first) (cl.allocated - suc first)
        ≡ contents cl (suc first)
  contents-behind c =
      contents_of_congr (update cl.chunks first c) cl.chunks (suc first) (cl.allocated - suc first)
        (λ j lo hi. ap live (update_ne cl.chunks {i = first} {j = j} c (omega arith)))

  pub contents-kept : contents cl first ≡ out ++ contents kept_list first
  contents-kept =
      rw
        (
          contents_head cl first some_left,
          contents_head kept_list first some_left,
          update_self cl.chunks first after,
          contents-behind after,
        )
        (rw chunk-Expires.split (append_assoc out (live after) (contents cl (suc first))))

  pub contents-gone :
      after.head ≡ after.size
      → contents cl first ≡ out ++ contents (unlink first kept_list) (suc first)
  contents-gone h =
      let none_left : after.size - after.head ≡ 0 = omega arith in
      rw (contents_head cl first some_left, chunk-Expires.split, none_left, append-nil)
        (ap (λ ds. out ++ ds)
          (contents_of_congr cl.chunks (unlink first kept_list).chunks (suc first)
            (cl.allocated - suc first) (λ j lo hi. ground arith)))

module _ (clock : Clock) (ttl : ℤ) (cl cl' : ChunkedList) (e : ℕ) (es : List ℕ)
    (out : List QueueData) (round : expire_chunk clock ttl cl e ≡ (cl', out)) where
  expire_elements_stop :
      stops_at clock ttl e (cl'.chunks e) ≡ true
      → expire_elements clock ttl (e ∷ es) cl
        ≡ (cl', length out, removal_info (cl.chunks e) (cl'.chunks e) e (length out))
  unfolding expire_elements
  expire_elements_stop h = rw (round, expire_elements) (rw h refl)

  expire_elements_on :
      stops_at clock ttl e (cl'.chunks e) ≡ false
      → let rest = expire_elements clock ttl es cl' in
        expire_elements clock ttl (e ∷ es) cl ≡ (
          rest.0,
          length out + rest.1,
          removal_info (cl.chunks e) (cl'.chunks e) e (length out) ++ rest.2,
        )
  unfolding expire_elements
  expire_elements_on h = rw (round, expire_elements) (rw h refl)

removal_info_congr :
    (b c c' : ChunkNode) (e n : ℕ) → c.head ≡ c'.head → removal_info b c e n ≡ removal_info b c' e n
removal_info_congr b c c' e zero h = refl
removal_info_congr b c c' e (suc n) h = rw h refl

stops_at_fresh :
    (now ttl : ℤ) (e : ℕ) (c : ChunkNode)
    → c.head < c.size
    → is_expired now ttl (c.items c.head) ≡ false
    → stops_at (instant now) ttl e c ≡ true
unfolding stops_at get_earliest_expiry is_expired
stops_at_fresh now ttl e c h fresh =
    ground (arith, leb_ℤ-flip ttl (now -ℤ (c.items c.head).created))

stops_at_empty :
    (clock : Clock) (ttl : ℤ) (e : ℕ) (c : ChunkNode)
    → c.head ≡ c.size
    → stops_at clock ttl e c ≡ false
unfolding stops_at
stops_at_empty clock ttl e c h = ground arith

-- The same with a clock that stands still: the loop stops at the first chunk that keeps an item.
module _ (now ttl : ℤ) (cl : ChunkedList) (first : ℕ) (v : IsLinked cl first)
    (some_left : first < cl.allocated) where
  abbrev pub chunk : ChunkNode
  chunk = after (instant now) ttl cl first v some_left

  abbrev pub gone_items : List QueueData
  gone_items = out (instant now) ttl cl first v some_left

  abbrev pub list_kept : ChunkedList
  list_kept = kept_list (instant now) ttl cl first v some_left

  pub expire_elements-kept :
      (es : List ℕ)
      → chunk.head < chunk.size
      → expire_elements (instant now) ttl (first ∷ es) cl ≡ (
        list_kept,
        length gone_items,
        removal_info (cl.chunks first) chunk first (length gone_items),
      )
  expire_elements-kept es h =
      let x = chunk-Expires (instant now) ttl cl first v some_left in
      let same = update_self cl.chunks first chunk in
      expire_elements_stop (instant now) ttl cl list_kept first es gone_items
        (expire_chunk-kept (instant now) ttl cl first v some_left h)
        (rw same (stops_at_fresh now ttl first chunk h (x.stopped h)))
      ∙ ap (λ i. (list_kept, length gone_items, i))
          (removal_info_congr (cl.chunks first) (list_kept.chunks first) chunk first
            (length gone_items) (ap (λ (c : ChunkNode). c.head) same))

  abbrev pub list_gone : ChunkedList
  list_gone = unlink first list_kept

  unlinked :
      ((list_gone.chunks first).head ≡ chunk.head) × ((list_gone.chunks first).size ≡ chunk.size)
  unlinked = (ground arith, ground arith)

  pub expire_elements-gone :
      (es : List ℕ)
      → chunk.head ≡ chunk.size
      → let rest = expire_elements (instant now) ttl es list_gone in
        expire_elements (instant now) ttl (first ∷ es) cl ≡ (
          rest.0,
          length gone_items + rest.1,
          removal_info (cl.chunks first) chunk first (length gone_items) ++ rest.2,
        )
  expire_elements-gone es h =
      let rest = expire_elements (instant now) ttl es list_gone in
      expire_elements_on (instant now) ttl cl list_gone first es gone_items
        (expire_chunk-gone (instant now) ttl cl first v some_left h)
        (stops_at_empty (instant now) ttl first (list_gone.chunks first)
          (unlinked.0 ∙ h ∙ sym (unlinked.1)))
      ∙ ap (λ i. (rest.0, length gone_items + rest.1, i ++ rest.2))
          (removal_info_congr (cl.chunks first) (list_gone.chunks first) chunk first
            (length gone_items) (unlinked.0))
