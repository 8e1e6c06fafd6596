-- ===== src/Lib.antt =====
-- A model of the in-memory queue of queue/: many producers, many consumers, each consumer (or group of
-- consumers) reading all items at its own pace, items leaving by age.
--
-- The parts, and how they interact. A queue (queue/queue.go) holds a list of chunks
-- (queue/chunked_list.go) of items (queue/data.go) with a memory tracker (queue/memory.go), and a
-- manager of consumers and groups (queue/consumer.go, queue/consumer_group.go). Producers append to
-- the list within the limits of memory and of number; readers move a position over it, and take
-- nothing out; the expiration worker takes expired items from its front, and then tells each reader
-- what it missed and moves its position.
--
-- Prelude      shared types, lists, stores as functions, Go's integers (an int64 wraps)
-- Payload      what a payload is to the estimate of its size
-- Data         QueueEvent, QueueData, NewQueueData, IsExpired
-- Errors       the errors of queue/errors.go as one type, and their texts
-- Chunk        ChunkNode and its operations, with the pool of queue/pool.go. Chunk/Live: the live
--              items. Chunk/Expire: RemoveExpired
-- Memory       MemoryTracker. Memory/Estimate: EstimateQueueDataSize. Memory/Totals: the totals
--              where nothing wraps. Memory/Walk, Memory/Bounds: the estimate is an int64
--              that is not negative
-- ChunkedList  the list of chunks and its operations, one definition for each: Enqueue,
--              EnqueueBatch, RemoveExpiredData, Clear, IterateFrom, CountItemsFrom. Links: how the
--              chunks hang together, and the contents. LastChunk, Enqueue: appending. Totals, Limit:
--              the counters and the limit. Count: counting. Removal, Released: the rounds of
--              expiration, and the counters in them. Cleared: Clear
-- Cursor       the position of a reader, what a round of TryRead sees there (`look`),
--              calculateExpiredCount and UpdatePositionAfterExpiration. Expiry: what expiration does
--              to the list and to positions
-- Reader       the loop of TryRead over an interface that consumers and groups fill; `settle` is the
--              end of a round under the reader's lock. Reader/Read: an undisturbed call
-- ConsumerGroup, Consumer  the two kinds of readers, with their batch and filter calls.
--              Consumer/Channel: NativeChannel
-- Schedule     calls of TryRead on one reader that interleave with producers and cleanups, over an
--              interface that says what a call does between two of its locks. Order: positions. Links:
--              the links between chunks. Safety: runs of a reader that keeps to a discipline. Cells: what
--              fills cells and what empties them. Stored: where items are copied
-- ConsumerGroup/Members  TryRead of a group as several members run it: the points between its locks,
--              and the steps. Advance: a step of a member. Carried: what it copies. Invariant,
--              Safety: runs
-- Consumer/Callers  TryRead of a consumer without a group in the same way. Advance: one caller.
--              Carried: what a call copies. Safety: runs
-- Waiting      the shape of the calls that block: rounds and wake-ups. Waiting/Laws: what holds when
--              they return, and that they do. Queue/Blocking, Consumer/Blocking: the calls
-- Queue        Queue, TryEnqueue, TryEnqueueBatch, cleanupExpiredItems, a tick of
--              expirationWorker and notifyWaitingConsumers (queue/notify.go). Queue/Manager:
--              ConsumerManager. Queue/Enqueue: what an enqueue leaves behind.
--              Queue/Told, Queue/Cleanup: what a cleanup tells the readers, and does to all
--              Queue/RoundTrip: an enqueue and then a read.
--              Queue/Facade: the constructors with defaults, and the calls passed on to the manager.
--              Queue/Lifecycle: the settings, the statistics and Close, with the snapshot of consumers
-- Metrics      queue/metrics.go. Recent: the windows of samples. Rank, Snapshot: the percentiles
-- Pipeline     examples/patterns/data_pipeline.go. Upstream: what a stage uses of the queue before it, and
--              Queues: the consumers and groups as that. Batched, Batching, Batches: Batch. Workers: the steps of
--              Map, Filter and Sink. Steps, Shuffle, Delivery: what the workers of Map deliver. Ending: that
--              they end. Generator: Generate
-- WorkerPool, RequestResponse  the loops of examples/patterns/worker_pool.go and of
--              examples/patterns/request_response.go. WorkerPool/Results: what a worker does.
--              WorkerPool/Everyone: the workers of a pool together
-- Shell        cmd/qctl/main.go: its commands. Book: a map from names. Laws, Session: what they keep
-- Tests        small runs of the code
--
-- State and effects. An element of `container/list` is a number, given out in order, and the store
-- maps it to its chunk for good, since a reader may hold a pointer to a chunk that left the list. A
-- clock is an argument: one reading for a call, or one for each look where the code looks again. A
-- mutex makes an operation one step; the rounds of TryRead are apart, as the code takes the lock for
-- each. A call that blocks is given its wake-ups, a signal, the stop or the end of its context, each
-- with the state that the call finds then, which others may have changed at will. A buffered channel
-- of signals is the number of signals in it. A map is a list.
--
-- Bounds and fuel. The loop of TryRead takes at most a round for each expired index of a chunk and
-- two more, so that 1002 rounds for each chunk and one chunk more are enough. IterateFrom follows links
-- to later elements, so that a round for each element ever made is enough. TryReadWhere takes a call
-- of TryRead for each item before the reader, at most 1000 for each element, and one more. The
-- estimate stops at depth 1000 in the code, which is its fuel.
--
-- Parameters. The sizes of Go's types (unsafe.Sizeof) are a `Layout`; a value and what its pointers
-- lead to are a `Value` and a `Graph`; uuid.New and time.Now are arguments, and so are the decimal of an
-- int64 and the texts of a context's errors, where the text of an error is written.
--
-- The Close of an upstream queue is an action of the pipeline's runs like any other, before or after `Done`.
-- What a worker passes to `Enqueue` on the next queue is recorded when the call begins; the call may wait
-- for ever, and its error is dropped, as in the code.
--
-- Not modelled: the history that calls on a consumer note where they interleave; an Enqueue that a
-- reader sees half done; numbers in floating point, and texts other than those of errors, such as the
-- Prometheus output; the basic, advanced and metrics examples, the set-up and the printing in the
-- programs that are modelled, and the scripts; the construction of the stages of a pipeline, and a batch
-- size below 0, for which `make` panics.
pub mod Prelude
pub mod Payload
pub mod Data
pub mod Errors
pub mod Chunk
pub mod Memory
pub mod ChunkedList
pub mod Cursor
pub mod Reader
pub mod Schedule
pub mod ConsumerGroup
pub mod Consumer
pub mod Queue
pub mod Waiting
pub mod Metrics
pub mod Pipeline
pub mod Shell
pub mod WorkerPool
pub mod RequestResponse
pub mod Tests
