-- ===== src/Lib.antt =====
-- A verification library for paged-kv-cache: the memory manager, crates/paged-kv-core, which keeps
-- the KV cache of a language model in fixed-size physical blocks that sequences share by reference,
-- the engine of crates/paged-kv-model over it, and the worker of crates/paged-kv-serve over that.
--
-- The parts, and the files that model them:
-- - Config: crates/paged-kv-core/src/config.rs, the geometry of the pool.
-- - Error: src/types.rs and src/error.rs of that crate. A block id and a sequence id are numbers.
-- - Lru: src/lru.rs, a doubly linked list threaded through index arrays. Lru/Order has the list
--   that the links stand for, Lru/Refine the methods against it.
-- - PrefixCache: src/prefix_cache.rs, the index from the content of a block to the block that holds
--   it. PrefixCache/Agreement keeps its two maps in step.
-- - Allocator: src/allocator.rs, the refcounted pool, which holds a free list, the counts and, with
--   prefix caching, an index and an Lru of the cached blocks that have no owner. The children have
--   the invariant and one file for each group of methods; History has the tokens
--   that an entry is, Prefixes those of a match.
-- - BlockTable: src/block_table.rs, the blocks of one sequence, which are taken from the pool,
--   shared by `fork` and copied before a write by `append`. The children relate a table, the pool
--   and the other tables over it.
-- - Scheduler: src/scheduler.rs, which runs sequences over one pool: a queue, and a list of
--   running sequences with a table each. Scheduler/Step has `step` with its parts `admit`,
--   `decode` and `retire_finished`; Tables has the references of the running tables to each block,
--   and the other children one file for each operation; Stepped joins them to a step. Decode, Preempt
--   and Rounds have `decode`; Names counts ids, Turning and Turns follow `decode`, and Exact a whole
--   step, sequence by sequence; Check has
--   the check that the tests run, Passed what it accepts, Progress has an idle scheduler, and Reachable what the public
--   methods make of a new one. The state of a step is the scheduler and its outcome.
-- - Backend and Cpu: src/backend.rs and src/cpu.rs, the storage of K and V by block and slot, and
--   attention over it. Slices has the ranges of a buffer that they use. Cpu/Layout has the
--   addresses, Cpu/Slots, Cpu/Batch and Cpu/Blocks what the methods do to every entry;
--   Cpu/Divergence joins `append` of a table with the copy of a block that it asks for.
--   Cpu/Attention has attention, Cpu/Covers and Cpu/Checked its check, Cpu/Context the reference
--   for a head, Cpu/Heads and Cpu/Queries the loops, Cpu/Attended the whole call.
-- - Model: src/model.rs of crates/paged-kv-model, how a batch is laid out for the cache, and the
--   loop over the layers; the tensors are a parameter. Model/Layout has the rows of a batch,
--   Model/Forward the whole pass.
-- - Engine: src/engine.rs of crates/paged-kv-model, requests over a scheduler, a backend and a model.
--   Engine/Alive relates the requests to the sequences, Engine/Batch has what the model is given,
--   Engine/Sampling and Engine/Token the loop over the tokens, Engine/Generate a step, Engine/Calls and
--   Engine/Cancel the other methods.
--   Fallible is how they run: as Outcome, with the errors of `candle_core::Result`.
-- - Worker and Text: src/worker.rs, src/metrics.rs and src/text.rs of crates/paged-kv-serve, the thread
--   that serves requests with an engine, and text as it arrives. Worker/Served and Worker/Requests
--   relate the live requests to those of the engine, Text/Emitted puts the returned texts together.
-- - Protocol and Simulation: src/protocol.rs and src/sim.rs of crates/paged-kv-server, a session that
--   drives a scheduler with traffic and commands and shows it. Scheduler/Snapshot has what the
--   scheduler shows. Simulation/Queued and Simulation/Forks have its requests, Simulation/Log its log.
-- - Outcome: how a method runs. `&mut self` is a state that is passed on, with an error too; an
--   index out of range, `expect` of `None` and a division by 0 are a panic. Function names are
--   those of the source, and a part of a long function has a name of its own.
-- - Prelude: shared tests, lists and arrays. Tests: samples, and the theorems at concrete inputs.
--
-- Sizes and bounds: a refcount is a `u16`, a block id a `u32`, and the counters of allocations,
-- evictions and entries are `u64`s that wrap; the models write this out. A pool has fewer than
-- 2^32 blocks. A `usize` that counts things in memory is taken not to wrap; the lengths that
-- `enqueue` and `add_request` are told are not in memory, and wrap, also in the room that `admit`
-- asks for. The contexts of an engine are token vectors in memory, far below the largest `usize`;
-- its theorems name that where a step needs it. `iter` of the Lru runs on fuel, the number of its
-- cells and one, and has no result when that is not enough, as for links that run in a circle;
-- `chunks_exact` on the length of its list. The loop of `admit` runs as often as there are
-- waiting sequences, those of `decode` and `retire_finished` as often as there are running ones:
-- each round but the last takes one. A `debug_assert!` is taken as absent, as it is in a release
-- build. A `HashMap` is an association list, or a function where only lookups matter. An `f32`
-- and its operations are parameters.
--
-- A scheduler is sound if its pool is valid, the count of each block is its references from the
-- running tables, each of these has the blocks that its tokens fill, each once, prompts are part
-- of the context, the pool has fewer than 2^64 slots and the batch limit is at most 65535.
--
-- An engine holds its requests if its scheduler is sound and each request is one sequence of it,
-- running or waiting, which knows as many tokens and may generate one more than is asked for.
--
-- Not modelled: text for display, `utilization`, the tensors of crates/paged-kv-model and the loading
-- of its weights, the HTTP layer of crates/paged-kv-serve with its clock, histograms and gauges,
-- threads, sockets, the Python bindings, the CUDA kernels and the web client. The random numbers of
-- the session are a parameter.
pub mod Prelude
pub mod Error
pub mod Outcome
pub mod Lru
pub mod PrefixCache
pub mod Allocator
pub mod Config
pub mod BlockTable
pub mod Scheduler
pub mod Tests
pub mod Slices
pub mod Backend
pub mod Cpu
pub mod Protocol
pub mod Simulation
pub mod Fallible
pub mod Model
pub mod Engine
pub mod Text
pub mod Worker
