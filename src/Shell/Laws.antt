-- ===== src/Shell/Laws.antt =====
-- What the commands of cmd/qctl/main.go keep true of the queues, and what publishing does.
use Prim.Native.String.{String}
use text.Mathlib.Text.{◌==◌ as str_eq}
use text.Mathlib.TextEquality.{eq_iff}
use text.Mathlib.TextPositions.{eq_refl}
use mpmc_queue.Prelude.{
  ℕ, ◌≡◌, ◌⊎◌, refl, sym, subst, ◌∙◌, true, false, Option, none, some, List, [], ◌∷◌, arith,
  Bool-cases, Option-cases, inl, inr,
}
use mpmc_queue.Prelude.Int.{ℤ}
use mpmc_queue.Payload.{Payload}
use mpmc_queue.Errors.{Error}
use mpmc_queue.Memory.{Layout}
use mpmc_queue.ChunkedList.Links.{IsLinked}
use mpmc_queue.ChunkedList
use mpmc_queue.ChunkedList.{ChunkedList, new_chunked_list}
use mpmc_queue.Queue.{
  Queue, new_queue_with_config, try_enqueue, end_enqueue, notify_waiting_consumers, new_sized_data,
  tracker, with_tracker,
}
use mpmc_queue.Queue.Enqueue.{try_enqueue-OneOrNone, IsLinked-tracker}
use mpmc_queue.Queue.Facade.{new_queue_with_ttl, add_consumer}
use mpmc_queue.Shell.Book.{lookup, put, lookup-put}
use mpmc_queue.Shell.{Shell, handle_create, handle_pub, handle_sub}

-- A queue under its own name, with a linked list.
pub record IsShelved (name : String) (q : Queue) : Type 0 where
  pub named : q.name ≡ name
  pub linked : (first : ℕ) × IsLinked q.items first

-- Each name stands for one queue.
abbrev pub AreShelved : List (String × Queue) → Type 0
AreShelved [] = Unit
AreShelved ((name, q) ∷ qs) = (lookup name qs ≡ none) × IsShelved name q × AreShelved qs

-- A consumer reads from a queue that is there.
abbrev pub AllFound : List (String × Queue) → List (ℕ × String) → Type 0
AllFound qs [] = Unit
AllFound qs ((id, name) ∷ cs) = ((q : Queue) × (lookup name qs ≡ some q)) × AllFound qs cs

pub record IsShell (sh : Shell) : Type 0 where
  pub shelved : AreShelved sh.queues
  pub found : AllFound sh.queues sh.consumers

pub lookup-IsShelved :
    (name : String) (q : Queue) (qs : List (String × Queue))
    → AreShelved qs
    → lookup name qs ≡ some q
    → IsShelved name q
lookup-IsShelved name q [] h e = absurd (ground (arith, e))
lookup-IsShelved name q ((j, p) ∷ qs) (n, s, h) e = elim (Bool-cases (str_eq j name)) [
  | inl same ↦
      let there : p ≡ q = ground (arith, e, same) in
      subst (λ r. IsShelved name r) there (subst (λ k. IsShelved k p) ((eq_iff j name).0 same) s)
  | inr other ↦ lookup-IsShelved name q qs h (ground (arith, e, other))
]

put-AreShelved :
    (name : String) (q p : Queue) (qs : List (String × Queue))
    → AreShelved qs
    → lookup name qs ≡ some p
    → IsShelved name q
    → AreShelved (put name q qs)
put-AreShelved name q p [] h e s = (refl, s, tt)
put-AreShelved name q p ((j, r) ∷ qs) (n, t, h) e s = elim (Bool-cases (str_eq j name)) [
  | inl same ↦ rw same (n, subst (λ k. IsShelved k q) (sym ((eq_iff j name).0 same)) s, h)
  | inr other ↦ rw other (
    ground (arith, lookup-put name j q qs, eq_iff name j, eq_iff j name, other, n),
    t,
    put-AreShelved name q p qs h (ground (arith, e, other)) s,
  )
]

put-AllFound :
    (name : String) (q p : Queue) (qs : List (String × Queue)) (cs : List (ℕ × String))
    → lookup name qs ≡ some p
    → AllFound qs cs
    → AllFound (put name q qs) cs
put-AllFound name q p qs [] e h = tt
put-AllFound name q p qs ((id, j) ∷ cs) e ((r, f), h) =
    (found_after (Bool-cases (str_eq name j)), put-AllFound name q p qs cs e h)
  where
    found_after :
        ((str_eq name j ≡ true) ⊎ (str_eq name j ≡ false))
        → (x : Queue) × (lookup j (put name q qs) ≡ some x)
    found_after (inl same) = (q, ground (arith, lookup-put name j q qs, same))
    found_after (inr other) = (r, ground (arith, lookup-put name j q qs, other, f))

new_queue-IsShelved :
    (layout : Layout) (now : ℤ) (name : String) (ttl : ℤ)
    → IsShelved name (new_queue_with_ttl layout now name ttl)
unfolding new_queue_with_ttl new_queue_with_config new_chunked_list
new_queue-IsShelved layout now name ttl = record {
  named = refl;
  linked = (
    0,
    record {
      started = omega arith;
      in_list = refl;
      filled = λ e lo hi. absurd (omega arith);
      retired = λ e lt. absurd (omega arith);
    },
  );
}

-- A name that was free is taken.
cons-AllFound :
    (name : String) (q : Queue) (qs : List (String × Queue)) (cs : List (ℕ × String))
    → lookup name qs ≡ none
    → AllFound qs cs
    → AllFound ((name, q) ∷ qs) cs
cons-AllFound name q qs [] e h = tt
cons-AllFound name q qs ((id, j) ∷ cs) e ((r, f), h) =
    ((r, ground (arith, eq_iff name j, e, f)), cons-AllFound name q qs cs e h)

module _ (atoi : String → Option ℤ) (layout : Layout) where
  pub handle_create-IsShell :
      (now : ℤ) (args : List String) (sh : Shell)
      → IsShell sh
      → IsShell (handle_create atoi layout now args sh).0
  unfolding handle_create
  handle_create-IsShell now [] sh h = h
  handle_create-IsShell now (name ∷ rest) sh h = elim (Option-cases (lookup name sh.queues)) [
    | inl free ↦
        rw (free, handle_create)
          record {
            shelved = (free, new_queue-IsShelved layout now name _, h.shelved);
            found = cons-AllFound name _ sh.queues sh.consumers free h.found;
          }
    | inr (q, taken) ↦ rw (taken, handle_create) h
  ]

notify-name : (q : Queue) → (notify_waiting_consumers q).name ≡ q.name
unfolding notify_waiting_consumers
notify-name q = ground arith

end_enqueue-name :
    (q : Queue) (items : ChunkedList) (failed : Option Error)
    → (end_enqueue q (items, failed)).0.name ≡ q.name
unfolding end_enqueue
end_enqueue-name q items none = notify-name (record q { items = items })
end_enqueue-name q items (some e) = refl

try_enqueue-name :
    (now : ℤ) (sequence : ℕ) (q : Queue) (p : Payload)
    → (try_enqueue now sequence q p).1.name ≡ q.name
unfolding try_enqueue
try_enqueue-name now sequence q p =
    let (sequence', d, mt) = new_sized_data now sequence p q.name (tracker q) in
    let q' = with_tracker q mt in
    let (items, failed) = ChunkedList.enqueue q'.items d in
    ground (arith, end_enqueue-name q' items failed)

try_enqueue-IsShelved :
    (now : ℤ) (sequence : ℕ) (name : String) (q : Queue) (p : Payload)
    → IsShelved name q
    → IsShelved name (try_enqueue now sequence q p).1
try_enqueue-IsShelved now sequence name q p s =
    let (first, v) = s.linked in
    let (sequence', q', failed) = try_enqueue now sequence q p in
    record {
      named = try_enqueue-name now sequence q p ∙ s.named;
      linked = elim (try_enqueue-OneOrNone now sequence q first v p) [
        | inl (ok, v', put_in) ↦ (first, v')
        | inr (e, failed_by, (cache, same)) ↦ (
          first,
          subst (λ (r : Queue). IsLinked r.items first) (sym same)
              (IsLinked-tracker q.items first (record q.items.memory_tracker { size_cache = cache })
                v),
        )
      ];
    }

add_consumer-IsShelved :
    (id : ℕ) (now : ℤ) (name : String) (q : Queue)
    → IsShelved name q
    → IsShelved name (add_consumer id now q).0
unfolding add_consumer
add_consumer-IsShelved id now name q s = record { named = s.named; linked = s.linked }

-- A queue in place of one with its name.
shelve :
    (name : String) (q p : Queue) (sh : Shell) (sequence : ℕ)
    → IsShell sh
    → lookup name sh.queues ≡ some p
    → IsShelved name q
    → IsShell (record sh { queues = put name q sh.queues; sequence = sequence })
shelve name q p sh sequence h taken s = record {
  shelved = put-AreShelved name q p sh.queues h.shelved taken s;
  found = put-AllFound name q p sh.queues sh.consumers taken h.found;
}

pub lookup-put_self :
    (name : String) (q : Queue) (qs : List (String × Queue)) → lookup name (put name q qs) ≡ some q
lookup-put_self name q qs = ground (arith, lookup-put name name q qs, eq_refl name)

pub handle_pub-IsShell :
    (now : ℤ) (args : List String) (sh : Shell) → IsShell sh → IsShell (handle_pub now args sh).0
unfolding handle_pub
handle_pub-IsShell now [] sh h = h
handle_pub-IsShell now (name ∷ []) sh h = h
handle_pub-IsShell now (name ∷ w ∷ ws) sh h = elim (Option-cases (lookup name sh.queues)) [
  | inl free ↦ rw (free, handle_pub) h
  | inr (q, taken) ↦
      let s = lookup-IsShelved name q sh.queues h.shelved taken in
      rw (taken, handle_pub)
        (shelve name _ q sh _ h taken (try_enqueue-IsShelved now sh.sequence name q _ s))
]

pub handle_sub-IsShell :
    (now : ℤ) (id : ℕ) (args : List String) (sh : Shell)
    → IsShell sh
    → IsShell (handle_sub now id args sh).0
unfolding handle_sub
handle_sub-IsShell now id [] sh h = h
handle_sub-IsShell now id (name ∷ rest) sh h = elim (Option-cases (lookup name sh.queues)) [
  | inl free ↦ rw (free, handle_sub) h
  | inr (q, taken) ↦
      let s = lookup-IsShelved name q sh.queues h.shelved taken in
      rw (taken, handle_sub)
        (let after =
            shelve name (add_consumer id now q).0 q sh sh.sequence h taken
              (add_consumer-IsShelved id now name q s) in
          record {
            shelved = after.shelved;
            found = ((_, lookup-put_self name (add_consumer id now q).0 sh.queues), after.found);
          })
]
