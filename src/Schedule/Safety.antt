-- ===== src/Schedule/Safety.antt =====
-- The order in which calls of `TryRead` on one reader return items (queue/consumer.go,
-- queue/consumer_group.go), for each reader that keeps to a discipline.
use mpmc_queue.Prelude.{
  ℕ, ◌≤◌, subst, inl, inr, Bool, Option, none, some, List, Bool-cases, ◌&&◌, update,
}
use mpmc_queue.Prelude.Int.{ℤ}
use mpmc_queue.Data.{QueueData}
use mpmc_queue.ChunkedList
use mpmc_queue.ChunkedList.{
  ChunkedList, ChunkRemovalInfo, get_first_element, instant, remove_expired_data,
}
use mpmc_queue.ChunkedList.Links.{IsLinked}
use mpmc_queue.Cursor.{Cursor}
use mpmc_queue.Cursor.Expiry.Remove.{remove_expired_data-Expiry}
use mpmc_queue.Schedule.{
  Steps, World, step_call, post, remove, move, shut, act, is_cleaning, Reach, begin, next,
}
use mpmc_queue.Schedule.Order.{
  Position, Upto, AllBefore, AllBefore-Upto, Descends, Progress, Progress-logged,
}
use mpmc_queue.Schedule.Links.{
  Forward, Forward-enqueue, enqueue-IsLinked, Forward-remove_expired_data,
}

-- Only calls that may run take steps, and a cleanup removes items only while the calls are quiet.
abbrev pub Keeps :
    {P : Type 0} {s : Steps P} (May : ℕ → Type 0) (Quiet : (ℕ → P) → Type 0) {start w : World P}
    → Reach s start w
    → Type 0
Keeps May Quiet begin = Unit {0}
Keeps May Quiet (next (step_call k) w w' r e) = Keeps May Quiet r × May k
Keeps May Quiet (next (remove now ttl) w w' r e) = Keeps May Quiet r × Quiet w.points
Keeps May Quiet (next _ w w' r e) = Keeps May Quiet r

module _ {P : Type 0} (s : Steps P) (May : ℕ → Type 0) (Quiet : (ℕ → P) → Type 0)
    (IsSound : ℕ → ℕ → Cursor → (ℕ → P) → Type 0) (front : Cursor → (ℕ → P) → ℕ → Position) where
  -- `IsSound` is what holds of the position and of the locals of the calls, given how many elements have
  -- been made and the first that is in the list. All positions before `front` are behind the reader.
  pub record Discipline : Type 0 where
    pub stepped :
        (cl : ChunkedList) (first : ℕ)
        → IsLinked cl first
        → Forward cl
        → (closed : Bool) (cur : Cursor) (ps : ℕ → P) → IsSound cl.allocated first cur ps
        → (k : ℕ) → May k
        → let (p, cur', out) = s.step closed cl cur (ps k) in
          IsSound cl.allocated first cur' (update ps k p)
          × Progress (front cur ps first) out (front cur' (update ps k p) first)
    pub grown :
        (a b first : ℕ) (cur : Cursor) (ps : ℕ → P)
        → a ≤ b
        → IsSound a first cur ps
        → IsSound b first cur ps
    pub onward :
        (a first first' : ℕ) (cur : Cursor) (ps : ℕ → P)
        → first ≤ first'
        → Quiet ps
        → IsSound a first cur ps
        → IsSound a first' cur ps × Upto (front cur ps first) (front cur ps first')
    pub moved_onward :
        (cl : ChunkedList) (first : ℕ)
        → IsLinked cl first
        → (closed : Bool) (removed : ℕ) (infos : List ChunkRemovalInfo) (cur : Cursor) (ps : ℕ → P)
        → IsSound cl.allocated first cur ps
        → let cur' = s.moved closed cl removed (get_first_element cl) infos cur in
          IsSound cl.allocated first cur' ps × Upto (front cur ps first) (front cur' ps first)

  -- What holds between any two steps.
  pub record IsOrdered (w : World P) (first : ℕ) : Type 0 where
    pub linked : IsLinked w.items first
    pub links : Forward w.items
    pub sound : IsSound w.items.allocated first w.cursor w.points
    pub behind : AllBefore (front w.cursor w.points first) w.delivered
    pub ordered : Descends w.delivered

  -- After an action, if it can be taken.
  abbrev Holds : Option (World P) → Type 0
  Holds none = Unit {0}
  Holds (some w) = (first : ℕ) × IsOrdered w first

  module _ (d : Discipline) where
    module _ (w : World P) (first : ℕ) (o : IsOrdered w first) where
      step-Holds : (k : ℕ) → May k → Holds (act s (step_call k) w)
      unfolding act
      step-Holds k may = elim (Bool-cases (is_cleaning w && s.needs_lock (w.points k))) [
        | inl held ↦ rw held tt
        | inr free ↦
            let (sound, progress) =
              d.stepped w.items first o.linked o.links w.closed w.cursor w.points o.sound k may in
            let (behind, ordered) = Progress-logged _ _ _ w.delivered progress o.behind o.ordered in
            rw free (
              first,
              record {
                linked = o.linked;
                links = o.links;
                sound = sound;
                behind = behind;
                ordered = ordered;
              },
            )
      ]

      post-Holds : (x : QueueData) → Holds (act s (post x) w)
      unfolding act
      post-Holds x = elim (Bool-cases (is_cleaning w)) [
        | inl held ↦ rw held tt
        | inr free ↦
            let cl' = (ChunkedList.enqueue w.items x).0 in
            let (v, le) = enqueue-IsLinked w.items first x o.linked in
            rw free (
              first,
              record {
                linked = v;
                links = Forward-enqueue w.items first x o.linked o.links;
                sound = d.grown w.items.allocated cl'.allocated first w.cursor w.points le o.sound;
                behind = o.behind;
                ordered = o.ordered;
              },
            )
      ]

      remove-Holds : (now ttl : ℤ) → Quiet w.points → Holds (act s (remove now ttl) w)
      unfolding act
      remove-Holds now ttl quiet = elim (Bool-cases (is_cleaning w)) [
        | inl held ↦ rw held tt
        | inr free ↦
            let (first', x) = remove_expired_data-Expiry now ttl w.items first o.linked in
            let (sound, u) =
              d.onward w.items.allocated first first' w.cursor w.points x.onward quiet o.sound in
            let made = x.made in
            rw free (
              first',
              record {
                linked = x.linked;
                links = Forward-remove_expired_data (instant now) ttl w.items x.made o.links;
                sound = rw x.made sound;
                behind = AllBefore-Upto _ _ w.delivered u o.behind;
                ordered = o.ordered;
              },
            )
      ]

      move-Holds : Holds (act s move w)
      unfolding act
      move-Holds = go w.cleanup
        where
          go :
              (c : Option (ℕ × List ChunkRemovalInfo))
              → Holds (elim c [
                | none ↦ none
                | some (removed, infos) ↦ some (record w {
                  cursor =
                      s.moved w.closed w.items removed (get_first_element w.items) infos w.cursor;
                  cleanup = none;
                })
              ])
          go none = tt
          go (some (removed, infos)) =
              let (sound, u) =
                d.moved_onward w.items first o.linked w.closed removed infos w.cursor w.points
                  o.sound in
              (
                first,
                record {
                  linked = o.linked;
                  links = o.links;
                  sound = sound;
                  behind = AllBefore-Upto _ _ w.delivered u o.behind;
                  ordered = o.ordered;
                },
              )

      shut-Holds : Holds (act s shut w)
      unfolding act
      shut-Holds = (
        first,
        record {
          linked = o.linked;
          links = o.links;
          sound = o.sound;
          behind = o.behind;
          ordered = o.ordered;
        },
      )

    -- From any world that is in order, a run that keeps to the conditions leads to one.
    pub Reach-IsOrdered :
        (start w : World P) (r : Reach s start w)
        → Keeps May Quiet r
        → (first : ℕ) → IsOrdered start first
        → (first' : ℕ) × IsOrdered w first'
    Reach-IsOrdered start _ begin c first o = (first, o)
    Reach-IsOrdered start _ (next (step_call k) w w' r e) (c, may) first o =
        let (f, p) = Reach-IsOrdered start w r c first o in subst Holds e (step-Holds w f p k may)
    Reach-IsOrdered start _ (next (post x) w w' r e) c first o =
        let (f, p) = Reach-IsOrdered start w r c first o in subst Holds e (post-Holds w f p x)
    Reach-IsOrdered start _ (next (remove now ttl) w w' r e) (c, quiet) first o =
        let (f, p) = Reach-IsOrdered start w r c first o in
        subst Holds e (remove-Holds w f p now ttl quiet)
    Reach-IsOrdered start _ (next move w w' r e) c first o =
        let (f, p) = Reach-IsOrdered start w r c first o in subst Holds e (move-Holds w f p)
    Reach-IsOrdered start _ (next shut w w' r e) c first o =
        let (f, p) = Reach-IsOrdered start w r c first o in subst Holds e (shut-Holds w f p)
