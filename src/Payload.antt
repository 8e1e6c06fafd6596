-- ===== src/Payload.antt =====
-- What a queue item may hold (`any` in queue/data.go), as the size estimate of queue/memory.go sees
-- it: the basic kinds of its type switch, a `Sizeable`, and the values that it walks by reflection.
use mpmc_queue.Prelude.{ℕ, Option}
use mpmc_queue.Prelude.Int.{ℤ}

-- The cases of the type switch whose size is a constant of the type.
pub data BasicKind : Type 0 where
  int_kind int64_kind int32_kind int16_kind int8_kind : BasicKind
  uint_kind uint64_kind uint32_kind uint16_kind uint8_kind : BasicKind
  bool_kind float64_kind float32_kind : BasicKind

-- What the estimate reads of a `reflect.Type`: its identity and `Size()`.
pub record Ty : Type 0 where
  pub identity : ℕ
  pub size : ℕ

-- A `reflect.Value`. Pointers and slices hold an address (`none` for nil), so that a payload may be
-- cyclic. A slice has its length and, where its elements are of a kind from Bool to Float64, their
-- size.
mutual
  pub data Value : Type 0 where
    invalid : Value
    boolean : Ty → Value
    number : Ty → Value
    text : Ty → ℕ → Value
    array : Ty → Values → Value
    slice : Ty → Option ℕ → ℕ → Option ℕ → Value
    map_value : Ty → Option ℕ → Value
    struct : Ty → Values → Value
    pointer : Ty → Option ℕ → Value
    interface : Ty → Value → Value
    other : Ty → Value

  pub data Values : Type 0 where
    nil : Values
    cons : Value → Values → Values

-- The memory that a payload reaches: what stands at an address, and the elements of a slice.
pub record Graph : Type 0 where
  pub pointee : ℕ → Value
  pub elements : ℕ → Values

-- `sizeable none` is a `Size()` that panics.
pub data Payload : Type 0 where
  nothing : Payload
  string_of_length : ℕ → Payload
  bytes_of_length : ℕ → Payload
  basic : BasicKind → Payload
  sizeable : Option ℤ → Payload
  reflected : Graph → Value → Payload
