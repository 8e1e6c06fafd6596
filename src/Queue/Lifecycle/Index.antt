-- ===== src/Queue/Lifecycle/Index.antt =====
-- The snapshot of `ConsumerManager` (queue/consumer.go) that readers take without a lock.
use Prim.Native.String.{String}
use mpmc_queue.Prelude.{
  Option-cases, ℕ, ◌≡◌, refl, ap, sym, ◌∙◌, inl, inr, Option, List, [], ◌∷◌, arith, map, Bool-cases,
  length, leb,
}
use mpmc_queue.Prelude.Int.{ℤ}
use mpmc_queue.ChunkedList.{ChunkedList, ChunkRemovalInfo}
use mpmc_queue.Consumer
use mpmc_queue.Consumer.{Consumer, new_consumer}
use mpmc_queue.ConsumerGroup.{ConsumerGroup}
use mpmc_queue.Queue.Manager.{
  ConsumerManager, add_consumer, add_consumer_to_group, add_group, remove_consumer, remove_group,
  get_consumer, find_group, keep_active, is_inactive, clean_inactive, expire_consumer,
  notify_all_consumers_of_expiration,
}
use mpmc_queue.Queue.Lifecycle.Closed.{IsIndexed}

-- Nothing that was removed leaves the list as it was.
keep_active-all :
    (now timeout : ℤ) (cs : List Consumer)
    → length (keep_active now timeout cs).1 ≡ 0
    → (keep_active now timeout cs).0 ≡ cs
keep_active-all now timeout [] h = refl
keep_active-all now timeout (c ∷ cs) h = elim (Bool-cases (is_inactive now timeout c)) [
  | inl old ↦ absurd (ground (arith, old, h))
  | inr young ↦
      let rest = keep_active-all now timeout cs (ground (arith, young, h)) in
      rw young (ap (λ l. c ∷ l) rest)
]

expire_consumer-id :
    (cl : ChunkedList) (first : Option ℕ) (infos : List ChunkRemovalInfo) (c : Consumer)
    → (expire_consumer cl first infos c).id ≡ c.id
unfolding expire_consumer Consumer.notify_expired_items Consumer.update_position_after_expiration
expire_consumer-id cl first infos c = ground arith

map-ids :
    (f : Consumer → Consumer)
    → ((c : Consumer) → (f c).id ≡ c.id)
    → (cs : List Consumer) → map (λ c. c.id) (map f cs) ≡ map (λ c. c.id) cs
map-ids f h [] = refl
map-ids f h (c ∷ cs) = rw (h c, map-ids f h cs) refl

module _ (cm : ConsumerManager) (ix : IsIndexed cm) where
  clean_inactive-IsIndexed : (now timeout : ℤ) → IsIndexed (clean_inactive now timeout cm).0
  unfolding clean_inactive
  clean_inactive-IsIndexed now timeout =
      let (kept, removed) = keep_active now timeout cm.consumers in
      elim (Bool-cases (leb (length removed) 0)) [
        | inl nothing ↦ rw nothing (
            ix
            ∙ ap (map (λ c. c.id)) (sym (keep_active-all now timeout cm.consumers (ground arith))))
        | inr some_gone ↦ rw some_gone refl
      ]

  remove_consumer-IsIndexed : (id : ℕ) → IsIndexed (remove_consumer id cm).0
  unfolding remove_consumer
  remove_consumer-IsIndexed id = elim (Option-cases (get_consumer id cm)) [
    | inl e ↦ rw (e, remove_consumer) ix
    | inr (c, e) ↦ rw (e, remove_consumer) refl
  ]

  remove_group-IsIndexed : (name : String) → IsIndexed (remove_group name cm).0
  unfolding remove_group
  remove_group-IsIndexed name = elim (Option-cases (find_group name cm.groups)) [
    | inl e ↦ rw (e, remove_group) ix
    | inr (g, e) ↦ rw (e, remove_group) refl
  ]

  add_group-IsIndexed : (identity : ℕ) (name : String) → IsIndexed (add_group identity name cm).0
  unfolding add_group
  add_group-IsIndexed identity name = elim (Option-cases (find_group name cm.groups)) [
    | inl e ↦ rw (e, add_group) ix
    | inr (g, e) ↦ rw (e, add_group) ix
  ]

  -- Where the snapshot that readers take without a lock lists the consumers of the manager, in
  -- order, it does so after each of the calls that add or remove consumers and groups, evict the
  -- inactive, or tell of expiration.
  pub manager-IsIndexed :
      (id identity : ℕ) (name : String) (now timeout : ℤ) (max_history : ℕ) (cl : ChunkedList)
      (g : ConsumerGroup) (first : Option ℕ) (infos : List ChunkRemovalInfo)
      → IsIndexed (add_consumer id now max_history cl cm).0
        × IsIndexed (add_consumer_to_group id now max_history g cm).0
        × IsIndexed (add_group identity name cm).0
        × IsIndexed (remove_consumer id cm).0
        × IsIndexed (remove_group name cm).0
        × IsIndexed (clean_inactive now timeout cm).0
        × IsIndexed (notify_all_consumers_of_expiration cl first infos cm)
  unfolding add_consumer add_consumer_to_group notify_all_consumers_of_expiration
  manager-IsIndexed id identity name now timeout max_history cl g first infos = (
    refl,
    refl,
    add_group-IsIndexed identity name,
    remove_consumer-IsIndexed id,
    remove_group-IsIndexed name,
    clean_inactive-IsIndexed now timeout,
    ix
        ∙ sym (
            map-ids (expire_consumer cl first infos) (expire_consumer-id cl first infos)
              cm.consumers),
  )
