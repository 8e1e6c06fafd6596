-- ===== src/Shell/Session.antt =====
-- A session of the shell of cmd/qctl/main.go, and one publication in it.
use Prim.Native.String.{String}
use text.Mathlib.Text.{◌==◌ as str_eq}
use mpmc_queue.Prelude.{
  none, ℕ, ◌≡◌, refl, sym, subst, Bool, true, false, ◌||◌, Option, some, List, [], ◌∷◌, arith,
  if◌then◌else◌,
}
use mpmc_queue.Prelude.Int.{ℤ}
use mpmc_queue.Payload.{string_of_length}
use mpmc_queue.Errors.{Error}
use mpmc_queue.Memory.{Layout}
use mpmc_queue.ChunkedList.Links.{IsLinked}
use mpmc_queue.Queue.{Queue, try_enqueue}
use mpmc_queue.Queue.Enqueue.{OneOrNone, try_enqueue-OneOrNone}
use mpmc_queue.Shell.Book.{lookup, lookup-put}
use mpmc_queue.Shell.{
  Shell, Reply, Line, handle_list, handle_stats, handle_pub, joined_length, publish_reply, Reply,
  message_enqueued, enqueue_failed, continued, dispatch, execute, session,
}
use mpmc_queue.Shell.Laws.{IsShell, handle_create-IsShell, handle_pub-IsShell, handle_sub-IsShell}

handle_list-kept : (sh : Shell) → (handle_list sh).0 ≡ sh
unfolding handle_list
handle_list-kept sh = ground arith

handle_stats-kept : (args : List String) (sh : Shell) → (handle_stats args sh).0 ≡ sh
unfolding handle_stats
handle_stats-kept [] sh = refl
handle_stats-kept (name ∷ rest) sh = ground arith

either :
    (P : Shell × Reply × Bool → Type 0) (b : Bool) (r r' : Shell × Reply × Bool)
    → P r
    → P r'
    → P (if b then r else r')
either P true r r' h k = h
either P false r r' h k = k

continued-IsShell :
    (over : Bool) (sh : Shell) (r : Reply) (rest : Shell × List Reply)
    → IsShell sh
    → IsShell rest.0
    → IsShell (continued over sh r rest).0
continued-IsShell true sh r rest h k = h
continued-IsShell false sh r rest h k = k

module _ (atoi : String → Option ℤ) (layout : Layout) where
  abbrev Kept : Shell × Reply × Bool → Type 0
  Kept (sh, r, over) = IsShell sh

  dispatch-Kept :
      (now : ℤ) (id : ℕ) (cmd : String) (args : List String) (sh : Shell)
      → IsShell sh
      → Kept (dispatch atoi layout now id cmd args sh)
  unfolding dispatch
  dispatch-Kept now id cmd args sh h =
      either Kept (str_eq cmd "create") _ _ (handle_create-IsShell atoi layout now args sh h) (
        either Kept (str_eq cmd "list") _ _ (subst IsShell (sym (handle_list-kept sh)) h) (
          either Kept (str_eq cmd "stats") _ _ (subst IsShell (sym (handle_stats-kept args sh)) h) (
            either Kept (str_eq cmd "pub") _ _ (handle_pub-IsShell now args sh h) (
              either Kept (str_eq cmd "sub") _ _ (handle_sub-IsShell now id args sh h) (
                either Kept (str_eq cmd "help") _ _ h
                  (either Kept (str_eq cmd "exit" || str_eq cmd "quit") _ _ h h))))))

  execute-Kept : (line : Line) (sh : Shell) → IsShell sh → Kept (execute atoi layout line sh)
  unfolding execute
  execute-Kept line sh h = by_fields line.fields
    where
      by_fields :
          (fields : List String) → Kept (execute atoi layout (record line { fields = fields }) sh)
      by_fields [] = h
      by_fields (cmd ∷ args) = dispatch-Kept line.now line.id cmd args sh h

  -- If each name stands for one queue, which has that name and a linked list, and each consumer
  -- reads from a queue that is there, so it is after any session of the tool, whatever was typed.
  pub session-IsShell :
      (lines : List Line) (sh : Shell) → IsShell sh → IsShell (session atoi layout lines sh).0
  unfolding session
  session-IsShell [] sh h = h
  session-IsShell (line ∷ lines) sh h =
      let (sh', r, over) = execute atoi layout line sh in
      let h' = execute-Kept line sh h in
      let rest = session-IsShell lines sh' h' in
      continued-IsShell over sh' r (session atoi layout lines sh') h' rest

-- The reply tells of a success, or of the error.
abbrev pub Says : Option Error → Reply → Type 0
Says none r = r ≡ message_enqueued
Says (some e) r = r ≡ enqueue_failed e

publish_reply-Says : (failed : Option Error) → Says failed (publish_reply failed)
publish_reply-Says none = refl
publish_reply-Says (some e) = refl

-- On a queue that is there and has a linked list, the command to publish words puts an item with
-- as many bytes as the words joined by spaces behind all others, for every reader, and says so, or
-- says with which error it failed and leaves the queue as it was but for the tracker's cache of
-- sizes; every other name keeps its queue.
pub handle_pub-Posts :
    (now : ℤ) (name word : String) (words : List String) (sh : Shell) (q : Queue) (first : ℕ)
    (other : String)
    → lookup name sh.queues ≡ some q
    → IsLinked q.items first
    → let (sh', r) = handle_pub now (name ∷ word ∷ words) sh in
      (q' : Queue) × (failed : Option Error) × Says failed r
      × OneOrNone q first (string_of_length (joined_length (word ∷ words))) (q', failed)
      × (lookup other sh'.queues ≡ (if str_eq name other then some q' else lookup other sh.queues))
unfolding handle_pub
handle_pub-Posts now name word words sh q first other taken v =
    let p = string_of_length (joined_length (word ∷ words)) in
    let (sequence, q', failed) = try_enqueue now sh.sequence q p in
    rw (taken, handle_pub)
      (
        q',
        failed,
        publish_reply-Says failed,
        try_enqueue-OneOrNone now sh.sequence q first v p,
        lookup-put name other q' sh.queues,
      )
