-- ===== src/Queue/Manager.antt =====
-- `ConsumerManager` of queue/consumer.go. A map is the list of its entries; the order in which Go walks
-- a map does not change what the calls do.
use Prim.Native.String.{String}
use mpmc_queue.Prelude.{
  ℕ, Bool, false, ◌||◌, ◌&&◌, Option, none, some, List, [], ◌∷◌, map, leb, ◌==◌, if◌then◌else◌,
  length,
}
use mpmc_queue.Prelude.Int.{ℤ, ◌-ℤ◌, ltb_ℤ}
use text.Mathlib.Text.{◌==◌ as str_eq}
use mpmc_queue.ChunkedList.{ChunkedList, ChunkRemovalInfo, get_first_element}
use mpmc_queue.Cursor.{at, count_removed, calculate_expired_count}
use mpmc_queue.Consumer
use mpmc_queue.Consumer.{Consumer, new_consumer}
use mpmc_queue.ConsumerGroup
use mpmc_queue.ConsumerGroup.{ConsumerGroup, new_consumer_group}

-- The keys are the consumers' ids and the groups' names. `active` is the snapshot for readers that
-- take no lock; it holds pointers, which are ids here.
pub record ConsumerManager : Type 0 where
  pub consumers : List Consumer
  pub groups : List ConsumerGroup
  pub active : List ℕ

unfoldable pub new_consumer_manager : ConsumerManager
new_consumer_manager = record { consumers = []; groups = []; active = [] }

abbrev pub get_all_consumers : ConsumerManager → List ℕ
get_all_consumers cm = cm.active

abbrev pub update_active_consumers : ConsumerManager → ConsumerManager
update_active_consumers cm = record cm { active = map (λ c. c.id) cm.consumers }

-- `id` is fresh, as `uuid.New` makes it.
unfoldable pub add_consumer : ℕ → ℤ → ℕ → ChunkedList → ConsumerManager → ConsumerManager × Consumer
add_consumer id now max_history cl cm =
    let fresh = new_consumer id now max_history in
    let c : Consumer = elim (get_first_element cl) [
      | none ↦ fresh
      | some e ↦ Consumer.set_position (at e 0) fresh
    ] in
    (update_active_consumers (record cm { consumers = c ∷ cm.consumers }), c)

unfoldable pub add_consumer_to_group :
    ℕ → ℤ → ℕ → ConsumerGroup → ConsumerManager → ConsumerManager × Consumer
add_consumer_to_group id now max_history g cm =
    let c = record (new_consumer id now max_history) { group = some g.identity } in
    (update_active_consumers (record cm { consumers = c ∷ cm.consumers }), c)

abbrev pub find_group : String → List ConsumerGroup → Option ConsumerGroup
find_group name [] = none
find_group name (g ∷ gs) = if str_eq g.name name then some g else find_group name gs

abbrev pub find_consumer : ℕ → List Consumer → Option Consumer
find_consumer id [] = none
find_consumer id (c ∷ cs) = if c.id == id then some c else find_consumer id cs

abbrev pub get_consumer : ℕ → ConsumerManager → Option Consumer
get_consumer id cm = find_consumer id cm.consumers

unfoldable pub add_group : ℕ → String → ConsumerManager → ConsumerManager × ConsumerGroup
add_group identity name cm = elim (find_group name cm.groups) [
  | some g ↦ (cm, g)
  | none ↦ let g = new_consumer_group identity name in (record cm { groups = g ∷ cm.groups }, g)
]

abbrev pub remove_id : ℕ → List Consumer → List Consumer
remove_id id [] = []
remove_id id (c ∷ cs) = if c.id == id then cs else c ∷ remove_id id cs

-- The removed consumer, closed, or `none` for the `false` of an unknown id.
unfoldable pub remove_consumer : ℕ → ConsumerManager → ConsumerManager × Option Consumer
remove_consumer id cm = elim (get_consumer id cm) [
  | none ↦ (cm, none)
  | some c ↦ (
    update_active_consumers (record cm { consumers = remove_id id cm.consumers }),
    some (Consumer.close c),
  )
]

abbrev pub is_member : ℕ → Consumer → Bool
is_member identity c = elim c.group [ none ↦ false | some g ↦ g == identity ]

abbrev pub remove_members : ℕ → List Consumer → List Consumer
remove_members identity [] = []
remove_members identity (c ∷ cs) =
    if is_member identity c then remove_members identity cs else c ∷ remove_members identity cs

-- The members of a group, closed.
abbrev pub closed_members : ℕ → List Consumer → List Consumer
closed_members identity [] = []
closed_members identity (c ∷ cs) =
    if is_member identity c
    then Consumer.close c ∷ closed_members identity cs
    else closed_members identity cs

abbrev pub remove_named : String → List ConsumerGroup → List ConsumerGroup
remove_named name [] = []
remove_named name (g ∷ gs) = if str_eq g.name name then gs else g ∷ remove_named name gs

-- The removed group and its members, closed, or `none` for the `false` of an unknown name.
unfoldable pub remove_group :
    String → ConsumerManager → ConsumerManager × Option (ConsumerGroup × List Consumer)
remove_group name cm = elim (find_group name cm.groups) [
  | none ↦ (cm, none)
  | some g ↦ (
    update_active_consumers (record cm {
      consumers = remove_members g.identity cm.consumers;
      groups = remove_named name cm.groups;
    }),
    some (ConsumerGroup.close g, closed_members g.identity cm.consumers),
  )
]

abbrev pub is_inactive : ℤ → ℤ → Consumer → Bool
is_inactive now timeout c = ltb_ℤ timeout (now -ℤ c.last_read_time)

-- The consumers that have read within `timeout`, and the others, closed.
abbrev pub keep_active : ℤ → ℤ → List Consumer → List Consumer × List Consumer
keep_active now timeout [] = ([], [])
keep_active now timeout (c ∷ cs) =
    let (kept, removed) = keep_active now timeout cs in
    if is_inactive now timeout c then (kept, Consumer.close c ∷ removed) else (c ∷ kept, removed)

abbrev pub has_members : ℕ → List Consumer → Bool
has_members identity [] = false
has_members identity (c ∷ cs) = is_member identity c || has_members identity cs

-- The groups with a member left, and the others, closed.
abbrev pub keep_used : List Consumer → List ConsumerGroup → List ConsumerGroup × List ConsumerGroup
keep_used cs [] = ([], [])
keep_used cs (g ∷ gs) =
    let (kept, removed) = keep_used cs gs in
    if has_members g.identity cs
    then (g ∷ kept, removed)
    else (kept, ConsumerGroup.close g ∷ removed)

-- The evicted consumers and the groups that are left with no member, all closed; the number that the
-- call returns is that of the consumers.
unfoldable pub clean_inactive :
    ℤ → ℤ → ConsumerManager → ConsumerManager × List Consumer × List ConsumerGroup
clean_inactive now timeout cm =
    let (kept, removed) = keep_active now timeout cm.consumers in
    let (used, unused) = keep_used kept cm.groups in
    let cm' = record cm { consumers = kept; groups = used } in
    (if leb (length removed) 0 then cm' else update_active_consumers cm', removed, unused)

-- A consumer is told of the expired items that it has not read, and moved.
unfoldable pub expire_consumer :
    ChunkedList → Option ℕ → List ChunkRemovalInfo → Consumer → Consumer
expire_consumer cl first infos c = elim c.group [
  | some _ ↦ c
  | none ↦
      let count = calculate_expired_count c.cursor infos in
      let told = if leb count 0 then c else Consumer.notify_expired_items c count in
      let total = count_removed infos in
      if leb total 0
      then told
      else Consumer.update_position_after_expiration cl total first infos told
]

unfoldable pub expire_group :
    ChunkedList → Option ℕ → List ChunkRemovalInfo → ConsumerGroup → ConsumerGroup
expire_group cl first infos g =
    let count = calculate_expired_count g.cursor infos in
    let told = if leb count 0 then g else ConsumerGroup.notify_expired_items g count in
    let total = count_removed infos in
    if leb total 0
    then told
    else ConsumerGroup.update_position_after_expiration cl total first infos told

-- Groups are passed over where nothing was removed.
unfoldable pub notify_all_consumers_of_expiration :
    ChunkedList → Option ℕ → List ChunkRemovalInfo → ConsumerManager → ConsumerManager
notify_all_consumers_of_expiration cl first infos cm = record cm {
  consumers = map (expire_consumer cl first infos) cm.consumers;
  groups =
      if leb (count_removed infos) 0 && leb (length infos) 0
      then cm.groups
      else map (expire_group cl first infos) cm.groups;
}
