-- ===== src/ConsumerGroup/Members/Invariant.antt =====
-- What stays true of a group whose members run at once (queue/consumer_group.go) when others change the
-- list or move the group.
use mpmc_queue.Prelude.{
  ℕ, suc, ◌-◌, ◌≤◌, ◌<◌, ◌≡◌, refl, inl, inr, Bool, true, false, Option, none, some, List, [], ◌∷◌,
  arith, Bool-cases, lt-or-le, ◌==◌,
}
use mpmc_queue.ChunkedList.{ChunkedList, ChunkRemovalInfo, get_first_element}
use mpmc_queue.ChunkedList.Links.{IsLinked}
use mpmc_queue.Cursor.{Cursor, at, raised_index, update_position}
use mpmc_queue.ConsumerGroup.Members.{Point, outside, fetched, checking, resetting, linking}
use mpmc_queue.Schedule.Order.{Upto, Upto-refl}
use mpmc_queue.ConsumerGroup.Members.Advance.{frontier, IsMade, IsSound, pooled-retired}

-- A member holds a front of the list that it has not stored yet.
abbrev pub is_fetched : Point → Bool
is_fetched (fetched f) = true
is_fetched _ = false

pub IsSound-grown : (a b first : ℕ) (p : Point) → a ≤ b → IsSound a first p → IsSound b first p
IsSound-grown a b first (fetched f) le (e, lt) = (e, omega arith)
IsSound-grown a b first (checking e i) le lt = omega arith
IsSound-grown a b first (linking e i (some f)) le (lt, lt') = (lt, omega arith)
IsSound-grown a b first (linking e i none) le s = tt
IsSound-grown a b first (resetting e) le s = s
IsSound-grown a b first outside le s = tt
IsSound-grown a b first _ le s = tt

pub IsSound-onward :
    (a first first' : ℕ) (p : Point)
    → first ≤ first'
    → is_fetched p ≡ false
    → IsSound a first p
    → IsSound a first' p
IsSound-onward a first first' (fetched f) le n s = absurd (ground arith)
IsSound-onward a first first' (checking e i) le n lt = lt
IsSound-onward a first first' (linking e i (some f)) le n s = s
IsSound-onward a first first' (linking e i none) le n s = tt
IsSound-onward a first first' (resetting e) le n lt = omega arith
IsSound-onward a first first' _ le n s = tt

pub IsMade-grown : (a b : ℕ) (cur : Cursor) → a ≤ b → IsMade a cur → IsMade b cur
IsMade-grown a b cur le m = go cur.chunk_element m
  where
    go :
        (o : Option ℕ)
        → IsMade a (record cur { chunk_element = o })
        → IsMade b (record cur { chunk_element = o })
    go none m = tt
    go (some e) m = omega arith

pub frontier-onward :
    (cur : Cursor) (first first' : ℕ)
    → first ≤ first'
    → Upto (frontier cur first) (frontier cur first')
frontier-onward cur first first' le = go cur.chunk_element
  where
    go :
        (o : Option ℕ)
        → Upto
            (frontier (record cur { chunk_element = o }) first)
            (frontier (record cur { chunk_element = o }) first')
    go none = ground arith
    go (some e) = ground arith

raised_index-onward : (e i : ℕ) (infos : List ChunkRemovalInfo) → i ≤ raised_index e i infos
raised_index-onward e i [] = omega arith
raised_index-onward e i (info ∷ rest) = ground (arith, raised_index-onward e i rest)

-- Moving the group behind a cleanup takes its position on, too.
module _ (cl : ChunkedList) (first : ℕ) (v : IsLinked cl first) (removed : ℕ)
    (infos : List ChunkRemovalInfo) where
  abbrev pub moved : Cursor → Cursor
  moved cur = update_position cl removed (get_first_element cl) infos cur

  module _ (e i : ℕ) (lt : e < cl.allocated) where
    abbrev Goes : Cursor → Type 0
    Goes cur' = IsMade cl.allocated cur' × Upto (e, i) (frontier cur' first)

    moved-Goes : Goes (moved (at e i))
    unfolding update_position
    moved-Goes = elim (Bool-cases (removed == 0)) [
      | inl nothing ↦ rw nothing (lt, Upto-refl (e, i))
      | inr some_gone ↦ elim (lt-or-le first cl.allocated) [
        | inr none_left ↦
            let n : cl.allocated - first ≡ 0 = omega arith in
            rw (some_gone, v.in_list, n) (tt, inl (omega arith))
        | inl some_left ↦
            let n : cl.allocated - first ≡ suc (cl.allocated - suc first) = omega arith in
            rw (some_gone, v.in_list, n)
              (elim (Bool-cases (cl.chunks e).pooled) [
                | inl gone ↦ rw gone (some_left, inl (pooled-retired cl first v e lt gone))
                | inr in_list ↦ rw in_list (lt, inr (refl, raised_index-onward e i infos))
              ])
      ]
    ]

  -- The position goes on, or stays where it is.
  pub moved-onward :
      (cur : Cursor)
      → IsMade cl.allocated cur
      → IsMade cl.allocated (moved cur) × Upto (frontier cur first) (frontier (moved cur) first)
  unfolding update_position
  moved-onward cur m = go cur.chunk_element m
    where
      go :
          (o : Option ℕ)
          → let c = record cur { chunk_element = o } in
            IsMade cl.allocated c
            → IsMade cl.allocated (moved c) × Upto (frontier c first) (frontier (moved c) first)
      go none m = (tt, Upto-refl (first, 0))
      go (some e) m = moved-Goes e cur.index_in_chunk m
