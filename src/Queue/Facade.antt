-- ===== src/Queue/Facade.antt =====
-- The calls of queue/queue.go that set up a queue with defaults, and those that pass on to the manager
-- of its consumers.
use Prim.Native.String.{String}
use mpmc_queue.Prelude.{
  ℕ, Bool, true, false, Option, none, some, List, [], ◌∷◌, length, ◌==◌, if◌then◌else◌,
}
use mpmc_queue.Prelude.Int.{ℤ, pos}
use mpmc_queue.Memory.{Layout, max_queue_memory}
use mpmc_queue.Consumer.{Consumer}
use mpmc_queue.ConsumerGroup.{ConsumerGroup}
use mpmc_queue.Queue.{
  Queue, QueueConfig, new_queue_with_config, default_ttl, default_max_consumer_history,
  default_expiration_check_interval,
}
use mpmc_queue.Queue.Manager
use mpmc_queue.Queue.Lifecycle.{ConsumerStats, get_stats}

abbrev pub config_with_ttl : ℤ → QueueConfig
config_with_ttl ttl = record {
  ttl = ttl;
  max_memory = max_queue_memory;
  max_items = pos 0;
  max_consumer_history = default_max_consumer_history;
  expiration_check_interval = default_expiration_check_interval;
  consumer_eviction_timeout = pos 0;
}

unfoldable pub new_queue_with_ttl : Layout → ℤ → String → ℤ → Queue
new_queue_with_ttl layout now name ttl = new_queue_with_config layout now name (config_with_ttl ttl)

unfoldable pub new_queue : Layout → ℤ → String → Queue
new_queue layout now name = new_queue_with_config layout now name (config_with_ttl default_ttl)

unfoldable pub add_consumer : ℕ → ℤ → Queue → Queue × Consumer
add_consumer id now q =
    let (cm, c) = Manager.add_consumer id now q.max_consumer_history q.items q.consumers in
    (record q { consumers = cm }, c)

unfoldable pub add_consumer_group : ℕ → String → Queue → Queue × ConsumerGroup
add_consumer_group identity name q =
    let (cm, g) = Manager.add_group identity name q.consumers in (record q { consumers = cm }, g)

unfoldable pub remove_consumer : ℕ → Queue → Queue × Bool
remove_consumer id q =
    let (cm, removed) = Manager.remove_consumer id q.consumers in
    (record q { consumers = cm }, elim removed [ none ↦ false | some _ ↦ true ])

unfoldable pub remove_consumer_group : String → Queue → Queue × Bool
remove_consumer_group name q =
    let (cm, removed) = Manager.remove_group name q.consumers in
    (record q { consumers = cm }, elim removed [ none ↦ false | some _ ↦ true ])

unfoldable pub clean_inactive_consumers : ℤ → ℤ → Queue → Queue × ℕ
clean_inactive_consumers now timeout q =
    let (cm, removed, unused) = Manager.clean_inactive now timeout q.consumers in
    (record q { consumers = cm }, length removed)

abbrev pub get_consumer : ℕ → Queue → Option Consumer
get_consumer id q = Manager.get_consumer id q.consumers

-- The group with an identity.
abbrev pub group_of : ℕ → List ConsumerGroup → Option ConsumerGroup
group_of identity [] = none
group_of identity (g ∷ gs) = if g.identity == identity then some g else group_of identity gs

-- The consumers of the snapshot, each with its statistics.
abbrev pub stats_of : Queue → List ℕ → List ConsumerStats
stats_of q [] = []
stats_of q (id ∷ ids) = elim (get_consumer id q) [
  | none ↦ stats_of q ids
  | some c ↦
      let group : Option ConsumerGroup = elim c.group [
        | none ↦ none
        | some g ↦ group_of g q.consumers.groups
      ] in
      get_stats q.closed q.items group c ∷ stats_of q ids
]

unfoldable pub get_consumer_stats : Queue → List ConsumerStats
get_consumer_stats q = stats_of q (Manager.get_all_consumers q.consumers)
