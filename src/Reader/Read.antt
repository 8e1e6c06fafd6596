-- ===== src/Reader/Read.antt =====
-- An undisturbed `TryRead` returns the first of the items that its reader has before it, and leaves
-- the reader before the others.
use mpmc_queue.Prelude.{
  ℕ, zero, suc, ◌+◌, ◌-◌, ◌*◌, ◌≤◌, ◌<◌, ◌≡◌, refl, ap, sym, ◌∙◌, ◌⊎◌, inl, inr, true, Option, none,
  some, [], ◌∷◌, ◌++◌, arith, lt-or-le, ==_refl,
}
use mpmc_queue.Data.{QueueData}
use mpmc_queue.ChunkedList.{ChunkedList, get_first_element}
use mpmc_queue.ChunkedList.Links.{IsLinked, contents, unread, contents_head}
use mpmc_queue.Cursor.{Cursor, at, item, behind_head, next_chunk, last_end, look, is_at}
use mpmc_queue.Cursor.Unread.{IsIn, IsCursor, unread_at}
use mpmc_queue.Cursor.Look.{
  sees_item, sees_expired, sees_next, sees_end, look-Sees, live_from-expired, live_from_zero,
}
use mpmc_queue.Reader.{Reader, ReaderLaws, settle, read_rounds, begin_read, read_fuel}

-- A call returned the first unread item, or none if there is none; of the reader's state only the
-- position moved, and what is noted of an item was noted.
abbrev pub Reads :
    {S : Type 0} → Reader S → ChunkedList → ℕ → S → Option (Option QueueData × S) → Type 0
Reads r cl first s result =
    (cur : Cursor) × IsCursor cl first cur
    × (((unread_at cl first (r.cursor_of s) ≡ [])
          × (unread_at cl first cur ≡ [])
          × (result ≡ some (none, r.put_cursor cur s)))
        ⊎ ((d : QueueData) × (unread_at cl first (r.cursor_of s) ≡ d ∷ unread_at cl first cur)
            × (result ≡ some (some d, r.delivered d (r.put_cursor cur s)))))

module _ {S : Type 0} (r : Reader S) (laws : ReaderLaws r) (cl : ChunkedList) (first : ℕ)
    (v : IsLinked cl first) where
  -- Reading on from a position with the same items ahead is reading.
  Reads-moved :
      (c : Cursor) (s : S) (result : Option (Option QueueData × S))
      → unread_at cl first (r.cursor_of s) ≡ unread_at cl first c
      → Reads r cl first (r.put_cursor c s) result
      → Reads r cl first s result
  Reads-moved c s result same (cur, p, q) = (
    cur,
    p,
    elim q [
      | inl (u, w, e) ↦ inl (
        same ∙ ap (unread_at cl first) (sym (laws.cursor-put c s)) ∙ u,
        w,
        e ∙ ap (λ t. some (none, t)) (laws.put-put cur c s),
      )
      | inr (d, u, e) ↦ inr (
        d,
        same ∙ ap (unread_at cl first) (sym (laws.cursor-put c s)) ∙ u,
        e ∙ ap (λ t. some (some d, r.delivered d t)) (laws.put-put cur c s),
      )
    ],
  )

  module _ (fuel e i : ℕ) (s : S) (there : r.cursor_of s ≡ at e i) where
    is_there : is_at (r.cursor_of s) e i ≡ true
    is_there = rw there (rw (==_refl e, ==_refl i))

    rounds_item :
        (d : QueueData)
        → look cl e i ≡ item d
        → read_rounds r cl (suc fuel) s
          ≡ some (some d, r.delivered d (r.put_cursor (at e (i + 1)) s))
    unfolding read_rounds settle
    rounds_item d l = ground (arith, is_there)

    rounds_expired :
        (h : ℕ)
        → look cl e i ≡ behind_head h
        → read_rounds r cl (suc fuel) s ≡ read_rounds r cl fuel (r.put_cursor (at e (r.skip h i)) s)
    unfolding read_rounds settle
    rounds_expired h l = ground (arith, is_there)

    rounds_next :
        (f : ℕ)
        → look cl e i ≡ next_chunk f
        → read_rounds r cl (suc fuel) s ≡ read_rounds r cl fuel (r.put_cursor (at f 0) s)
    unfolding read_rounds settle
    rounds_next f l = ground (arith, is_there)

    rounds_end : look cl e i ≡ last_end → read_rounds r cl (suc fuel) s ≡ some (none, s)
    unfolding read_rounds settle
    rounds_end l = ground (arith, is_there)

  -- The rounds from index `i` of element `e`.
  from_position :
      (fuel e i : ℕ) (s : S)
      → r.cursor_of s ≡ at e i
      → IsIn cl first e i
      → (cl.allocated - suc e) * 1002 + ((cl.chunks e).head - i) + 2 ≤ fuel
      → Reads r cl first s (read_rounds r cl fuel s)
  from_position zero e i s there p h = absurd (omega arith)
  from_position (suc fuel) e i s there p h = elim (look-Sees cl first e i v p) [
    | sees_item d l u q ↦ (at e (i + 1), q, inr (d, rw there u, rounds_item fuel e i s there d l))
    | sees_expired l old le ↦
        let j = r.skip (cl.chunks e).head i in
        let onward = laws.skip_onward (cl.chunks e).head i old in
        let within = laws.skip_within (cl.chunks e).head i old in
        rw (rounds_expired fuel e i s there (cl.chunks e).head l) (
          Reads-moved (at e j) s (read_rounds r cl fuel (r.put_cursor (at e j) s))
            (rw there (
              ap (λ ds. ds ++ contents cl (suc e))
                (live_from-expired (cl.chunks e) i j (omega arith) within)))
            (from_position fuel e j (r.put_cursor (at e j) s) (laws.cursor-put _ s)
              (record { from_first = p.from_first; made = p.made; up_to_size = omega arith })
              (omega arith)))
    | sees_next l u more q ↦
        let head = (v.filled (suc e) q.from_first more) in
        rw (rounds_next fuel e i s there (suc e) l) (
          Reads-moved (at (suc e) 0) s (read_rounds r cl fuel (r.put_cursor (at (suc e) 0) s))
            (rw there u)
            (from_position fuel (suc e) 0 (r.put_cursor (at (suc e) 0) s) (laws.cursor-put _ s) q
              (omega (arith, head.held, head.within))))
    | sees_end l u ↦ (
      at e i,
      p,
      inl (
        rw there u,
        u,
        rounds_end fuel e i s there l
            ∙ ap (λ t. some (none, t)) (sym (laws.put-cursor s) ∙ ap (λ c. r.put_cursor c s) there),
      ),
    )
  ]

  enough :
      (e i : ℕ)
      → IsIn cl first e i
      → (cl.allocated - suc e) * 1002 + ((cl.chunks e).head - i) + 2 ≤ read_fuel r cl
  enough e i p = let f = v.filled e p.from_first p.made in omega (arith, f.held, f.within, p.made)

  contents-unread : first < cl.allocated → contents cl first ≡ unread cl first 0
  contents-unread h =
      contents_head cl first h
      ∙ ap (λ ds. ds ++ contents cl (suc first)) (sym (live_from_zero (cl.chunks first)))

  first-element : first < cl.allocated → get_first_element cl ≡ some first
  first-element h =
      let n : cl.allocated - first ≡ suc (cl.allocated - suc first) = omega arith in
      rw (v.in_list, n)

  no-element : cl.allocated ≤ first → get_first_element cl ≡ none
  no-element h = let n : cl.allocated - first ≡ 0 = omega arith in rw (v.in_list, n)

  begin_at :
      (o : Option ℕ) (i : ℕ) (s : S)
      → r.cursor_of s ≡ record { chunk_element = o; index_in_chunk = i }
      → IsCursor cl first (record { chunk_element = o; index_in_chunk = i })
      → Reads r cl first s (begin_read r cl s)
  unfolding begin_read
  begin_at (some e) i s there p =
      let begun : begin_read r cl s ≡ read_rounds r cl (read_fuel r cl) s = ground arith in
      rw begun (from_position (read_fuel r cl) e i s there p (enough e i p))
  begin_at none i s there p = elim (lt-or-le first cl.allocated) [
    | inl some_left ↦
        let s' = r.put_cursor (at first 0) s in
        let fresh : begin_read r cl s ≡ read_rounds r cl (read_fuel r cl) s' =
          ground (arith, first-element some_left) in
        let q : IsIn cl first first 0 = record {
          from_first = omega arith;
          made = some_left;
          up_to_size = omega arith;
        } in
        rw fresh (
          Reads-moved (at first 0) s (read_rounds r cl (read_fuel r cl) s')
            (rw there (contents-unread some_left))
            (from_position (read_fuel r cl) first 0 s' (laws.cursor-put _ s) q (enough first 0 q)))
    | inr none_left ↦
        let ended : begin_read r cl s ≡ some (none, s) = ground (arith, no-element none_left) in
        let n : cl.allocated - first ≡ 0 = omega arith in
        let c : Cursor = record { chunk_element = none; index_in_chunk = i } in
        (
          c,
          p,
          inl (
            rw there (rw n refl),
            rw n refl,
            ended
                ∙ ap (λ t. some (none, t))
                    (sym (laws.put-cursor s) ∙ ap (λ k. r.put_cursor k s) there),
          ),
        )
  ]

  -- For any reader that fills the interface of TryRead and whose position is in a linked list or
  -- that has not begun, the loop ends within its fuel and returns the first item before the
  -- reader, leaving the reader before the others, or none where there is none.
  pub begin_read-Reads :
      (s : S) → IsCursor cl first (r.cursor_of s) → Reads r cl first s (begin_read r cl s)
  begin_read-Reads s p =
      begin_at (r.cursor_of s).chunk_element (r.cursor_of s).index_in_chunk s refl p
