-- ===== src/Memory/Estimate.antt =====
-- The size estimate of queue/memory.go. Recursion is on the depth that is left, `1001 - depth`. The
-- values modelled make no call of `reflect` panic, so the deferred `recover` matters for `Size()`
-- alone.
use Prim.Native.String.{len}
use mpmc_queue.Prelude.{
  ℕ, zero, suc, ◌*◌, Bool, true, false, ◌&&◌, ◌||◌, Option, none, some, List, [], ◌∷◌, ltb, ◌==◌,
  if◌then◌else◌, length, ◌≡◌, refl, not,
}
use mpmc_queue.Prelude.Int.{ℤ, pos, negsuc, pos_part, ltb_ℤ, leb_ℤ}
use mpmc_queue.Prelude.Int64.{max_int64, wrap64, add64, sub64}
use mpmc_queue.Data.{QueueData}
use mpmc_queue.Payload.{
  BasicKind, int_kind, int64_kind, int32_kind, int16_kind, int8_kind, uint_kind, uint64_kind,
  uint32_kind, uint16_kind, uint8_kind, bool_kind, float64_kind, float32_kind, Ty, Value, invalid,
  boolean, number, text, array, slice, map_value, struct, pointer, interface, other, Values, nil,
  cons, Graph, Payload, nothing, string_of_length, bytes_of_length, basic, sizeable, reflected,
}
use mpmc_queue.Memory.{MemoryTracker, Layout}

-- 1 << 40, which stands for a size that is too large or unknown.
abbrev pub too_large : ℤ
too_large = pos 1099511627776

unfoldable pub safe_add : ℤ → ℤ → ℤ
safe_add a b =
    if leb_ℤ b (pos 0)
    then a
    else if ltb_ℤ (sub64 (pos max_int64) b) a
    then pos max_int64
    else add64 a b

-- The cache is searched from its newest entry.
unfoldable pub cached : ℕ → List (ℕ × ℤ) → Option ℤ
cached t [] = none
cached t ((u, size) ∷ rest) = if u == t then some size else cached t rest

abbrev elem_of : ℕ → List ℕ → Bool
elem_of a [] = false
elem_of a (b ∷ bs) = a == b || elem_of a bs

-- The two results of `estimateValueSize`, with the set of visited addresses (`none` for a nil map)
-- and the cache of sizes after it.
pub record Estimate : Type 0 where
  pub size : ℤ
  pub is_fixed : Bool
  pub visited : Option (List ℕ)
  pub cache : List (ℕ × ℤ)

-- A map that the callee makes is unknown to its caller; one that the caller has is shared.
abbrev shared : Option (List ℕ) → Option (List ℕ) → Option (List ℕ)
shared none inner = none
shared (some _) inner = inner

abbrev pub visited_size : Option (List ℕ) → ℕ
visited_size none = 0
visited_size (some seen) = length seen

-- `none` where the address was met before; otherwise the set with it.
abbrev pub visit : Option (List ℕ) → Option ℕ → Option (Option (List ℕ))
visit visited none = some visited
visit none (some a) = some (some (a ∷ []))
visit (some seen) (some a) = if elem_of a seen then none else some (some (a ∷ seen))

-- The address of a pointer, map or slice that is not nil.
abbrev pub address : Value → Option ℕ
address (pointer t a) = a
address (map_value t a) = a
address (slice t a n k) = a
address _ = none

abbrev pub type_of : Value → Ty
type_of invalid = record { identity = 0; size = 0 }
type_of (boolean t) = t
type_of (number t) = t
type_of (text t n) = t
type_of (array t vs) = t
type_of (slice t a n k) = t
type_of (map_value t a) = t
type_of (struct t vs) = t
type_of (pointer t a) = t
type_of (interface t v) = t
type_of (other t) = t

abbrev pub is_invalid : Value → Bool
is_invalid invalid = true
is_invalid _ = false

abbrev pub is_aggregate : Value → Bool
is_aggregate (array t vs) = true
is_aggregate (struct t vs) = true
is_aggregate _ = false

-- The loop over elements or fields: their sizes added up, fixed if each is.
unfoldable pub sum_values :
    (Option (List ℕ) → List (ℕ × ℤ) → Value → Estimate) → Values → Estimate → Estimate
sum_values estimate nil acc = acc
sum_values estimate (cons v vs) acc =
    let e = estimate acc.visited acc.cache v in
    sum_values estimate vs (record {
      size = safe_add acc.size e.size;
      is_fixed = acc.is_fixed && e.is_fixed;
      visited = shared acc.visited e.visited;
      cache = e.cache;
    })

abbrev not_fixed : Estimate → Estimate
not_fixed e = record e { is_fixed = false }

-- A size with that of one more value added.
abbrev plus : Estimate → Estimate → Estimate
plus acc e = record {
  size = safe_add acc.size e.size;
  is_fixed = false;
  visited = acc.visited;
  cache = e.cache;
}

abbrev sized : ℤ → Bool → Option (List ℕ) → List (ℕ × ℤ) → Estimate
sized size fixed visited cache = record {
  size = size;
  is_fixed = fixed;
  visited = visited;
  cache = cache;
}

-- The switch on the kind. `estimate` is the recursive call, its first argument telling whether the
-- value is addressable.
unfoldable pub estimate_kind :
    (Bool → Option (List ℕ) → List (ℕ × ℤ) → Value → Estimate)
    → Graph
    → Option (List ℕ)
    → List (ℕ × ℤ)
    → Value
    → Estimate
estimate_kind estimate g seen cache invalid = sized (pos 0) true seen cache
estimate_kind estimate g seen cache (boolean t) = sized (pos 1) true seen cache
estimate_kind estimate g seen cache (number t) = sized (pos t.size) true seen cache
estimate_kind estimate g seen cache (text t n) = sized (pos n) false seen cache
estimate_kind estimate g seen cache (array t vs) =
    sum_values (estimate true) vs (sized (pos 0) true seen cache)
estimate_kind estimate g seen cache (slice t none n k) = sized (pos t.size) false seen cache
estimate_kind estimate g seen cache (slice t (some a) n (some k)) =
    if ltb 0 n
    then sized (safe_add (pos t.size) (wrap64 (pos (n * k)))) false seen cache
    else sized (pos t.size) false seen cache
estimate_kind estimate g seen cache (slice t (some a) n none) =
    if ltb 0 n
    then not_fixed (sum_values (estimate true) (g.elements a) (sized (pos t.size) false seen cache))
    else sized (pos t.size) false seen cache
estimate_kind estimate g seen cache (map_value t a) = sized too_large false seen cache
estimate_kind estimate g seen cache (struct t vs) =
    sum_values (estimate true) vs (sized (pos 0) true seen cache)
estimate_kind estimate g seen cache (pointer t none) = sized (pos t.size) false seen cache
estimate_kind estimate g seen cache (pointer t (some a)) =
    plus (sized (pos t.size) false seen cache) (estimate true seen cache (g.pointee a))
estimate_kind estimate g seen cache (interface t v) =
    if is_invalid v
    then sized (pos t.size) false seen cache
    else plus (sized (pos t.size) false seen cache) (estimate false seen cache v)
estimate_kind estimate g seen cache (other t) = sized (pos t.size) true seen cache

-- `Store` where the type was not in the cache: its size if that is fixed, and -1 if not.
abbrev pub remember : Option ℤ → ℕ → Estimate → Estimate
remember (some _) t e = e
remember none t e = record e { cache = (t, (if e.is_fixed then e.size else negsuc 0)) ∷ e.cache }

-- The part of `estimateValueSize` behind the cache's answer.
abbrev pub answer : Option ℤ → Option (List ℕ) → List (ℕ × ℤ) → ℕ → Estimate → Estimate
answer none seen cache t walked = remember none t walked
answer (some size) seen cache t walked =
    if leb_ℤ (pos 0) size then sized size true seen cache else walked

-- `estimateValueSize` at depth `1001 - fuel`.
unfoldable pub estimate_value_size :
    ℤ → Graph → ℕ → Bool → Option (List ℕ) → List (ℕ × ℤ) → Value → Estimate
estimate_value_size max_memory g zero addressable visited cache v =
    sized (pos 0) false visited cache
estimate_value_size max_memory g (suc fuel) addressable visited cache v =
    let t = type_of v in
    let walk = λ (seen : Option (List ℕ)).
      estimate_kind (estimate_value_size max_memory g fuel) g seen cache v in
    if ltb 10000 (visited_size visited)
    then sized too_large false visited cache
    else if is_invalid v
    then sized (pos 0) true visited cache
    else if is_aggregate v && not addressable && ltb (pos_part max_memory) t.size
    then sized too_large false visited cache
    else elim (visit visited (address v)) [
      | none ↦ sized (pos 0) false visited cache
      | some seen ↦ answer (cached t.identity cache) seen cache t.identity (walk seen)
    ]

-- The sizes that Go fixes, and that of an `int` on the target.
abbrev pub basic_size : Layout → BasicKind → ℕ
basic_size l int_kind = l.int_size
basic_size l int64_kind = 8
basic_size l int32_kind = 4
basic_size l int16_kind = 2
basic_size l int8_kind = 1
basic_size l uint_kind = l.int_size
basic_size l uint64_kind = 8
basic_size l uint32_kind = 4
basic_size l uint16_kind = 2
basic_size l uint8_kind = 1
basic_size l bool_kind = 1
basic_size l float64_kind = 8
basic_size l float32_kind = 4

-- A size, and the tracker after it: its cache may have grown.
unfoldable pub estimate_payload_size : MemoryTracker → Payload → ℤ × MemoryTracker
estimate_payload_size mt nothing = (pos 0, mt)
estimate_payload_size mt (string_of_length n) = (pos n, mt)
estimate_payload_size mt (bytes_of_length n) = (pos n, mt)
estimate_payload_size mt (basic k) = (pos (basic_size mt.layout k), mt)
estimate_payload_size mt (sizeable none) = (too_large, mt)
estimate_payload_size mt (sizeable (some n)) = (if ltb_ℤ n (pos 0) then pos 0 else n, mt)
estimate_payload_size mt (reflected g v) =
    let e = estimate_value_size mt.max_memory g 1001 false none mt.size_cache v in
    (e.size, record mt { size_cache = e.cache })

unfoldable pub estimate_queue_data_size : MemoryTracker → QueueData → ℤ × MemoryTracker
estimate_queue_data_size mt d =
    let (payload_size, mt') = estimate_payload_size mt d.payload in
    let base = safe_add (pos mt.layout.base_queue_data_size) payload_size in
    let event = safe_add base (pos mt.layout.base_queue_event_size) in
    let named = safe_add event (pos (len d.enqueue_event.queue_name)) in
    (safe_add named (pos (len d.enqueue_event.event_type)), mt')

estimate_payload_size_keeps :
    (mt : MemoryTracker) (p : Payload)
    → let mt' = (estimate_payload_size mt p).1 in mt' ≡ record mt { size_cache = mt'.size_cache }
unfolding estimate_payload_size
estimate_payload_size_keeps mt nothing = refl
estimate_payload_size_keeps mt (string_of_length n) = refl
estimate_payload_size_keeps mt (bytes_of_length n) = refl
estimate_payload_size_keeps mt (basic k) = refl
estimate_payload_size_keeps mt (sizeable none) = refl
estimate_payload_size_keeps mt (sizeable (some n)) = refl
estimate_payload_size_keeps mt (reflected g v) = refl

-- An estimate leaves all of the tracker but its cache alone.
pub estimate_queue_data_size_keeps :
    (mt : MemoryTracker) (d : QueueData)
    → let mt' = (estimate_queue_data_size mt d).1 in mt' ≡ record mt { size_cache = mt'.size_cache }
unfolding estimate_queue_data_size
estimate_queue_data_size_keeps mt d = estimate_payload_size_keeps mt d.payload
