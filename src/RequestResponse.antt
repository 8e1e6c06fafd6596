-- ===== src/RequestResponse.antt =====
-- examples/patterns/request_response.go: the processor of requests, whose loop is that of a worker of
-- examples/patterns/worker_pool.go without a context, and a requester.
use Prim.Native.String.{String, ◌++◌ as join}
use text.Mathlib.Text.{◌==◌ as str_eq}
use mpmc_queue.Prelude.{ℕ, zero, suc, ◌+◌, ◌*◌, Bool, true, false, Option, none, List, [], ◌∷◌}
use mpmc_queue.Prelude.Int.{ℤ, pos}
use mpmc_queue.Prelude.Int64.{add64}
use mpmc_queue.Pipeline.Upstream.{Source}
use mpmc_queue.WorkerPool.{Loop, loop_step}

-- What `Data` holds: an int, or something else.
pub data RequestData : Type 0 where
  number : ℤ → RequestData
  something : RequestData

pub data RequestResult : Type 0 where
  doubled : ℤ → RequestResult
  processed : RequestResult

pub record Request : Type 0 where
  pub id : String
  pub operand : RequestData
  pub response_queue : ℕ

pub record Response : Type 0 where
  pub request_id : String
  pub result : RequestResult

-- `num * 2`
abbrev pub process_request : RequestData → RequestResult
process_request (number n) = doubled (add64 n n)
process_request something = processed

-- The response, and the queue that it goes to.
abbrev pub respond : Request → ℕ × Response
respond req =
    (req.response_queue, record { request_id = req.id; result = process_request req.operand })

-- A step of `requestProcessor`.
unfoldable pub processor_step :
    {S : Type 0}
    → Source S Request
    → S × List (ℕ × Response)
    → Loop Request
    → (S × List (ℕ × Response)) × Loop Request
processor_step src s l = loop_step src respond false s l

-- What a requester uses: `TryEnqueue` on the queue of requests (`true` for an error), and a
-- `ReadWhereWithContext` with a new consumer of its queue of responses, `none` for a time-out.
pub record Server (W : Type 0) : Type 0 where
  pub try_enqueue : Request → W → W × Bool
  pub read_where : (Response → Bool) → W → W × Option Response

-- `show` is fmt's `%d`.
abbrev pub request_of : (ℕ → String) → ℕ → ℕ → Request
request_of show requester_id i = record {
  id = join "req-" (join (show requester_id) (join "-" (show i)));
  operand = number (pos (i * 10));
  response_queue = requester_id;
}

abbrev pub answers : String → Response → Bool
answers request_id resp = str_eq resp.request_id request_id

module _ {W : Type 0} (server : Server W) (show : ℕ → String) (requester_id : ℕ) where
  -- A round of the loop: the response, if the request was sent and answered in time.
  unfoldable pub request : ℕ → W → W × Option Response
  request i w =
      let req = request_of show requester_id i in
      let (w', failed) = server.try_enqueue req w in
      elim failed [ true ↦ (w', none) | false ↦ server.read_where (answers req.id) w' ]

  -- The rounds from `i` on, `n` of them; there are five.
  unfoldable pub requester : ℕ → ℕ → W → W × List (Option Response)
  requester zero i w = (w, [])
  requester (suc n) i w =
      let (w', response) = request i w in
      let (w'', responses) = requester n (i + 1) w' in (w'', response ∷ responses)
