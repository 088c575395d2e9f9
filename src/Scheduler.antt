-- ===== src/Scheduler.antt =====
-- crates/paged-kv-core/src/scheduler.rs: continuous batching over the block pool. A `usize`
-- difference is written with the wrap-around of a release build, and so is the sum of `enqueue`. Step has the three parts of a step.
pub mod Step
pub mod Tables
pub mod Names
pub mod Finish
pub mod Retire
pub mod Decode
pub mod Preempt
pub mod Rounds
pub mod Acquire
pub mod Build
pub mod Admit
pub mod Admission
pub mod Stepped
pub mod Turning
pub mod Turns
pub mod Exact
pub mod Progress
pub mod Fresh
pub mod Check
pub mod Passed
pub mod Enqueue
pub mod Reachable
pub mod Snapshot
use paged_kv_cache.Prelude.{
  ℕ, zero, suc, ◌+◌, ◌-◌, ◌*◌, ◌%◌, ◌^◌, Bool, true, false, Option, none, some, List, [], ◌∷◌, ◌++◌,
  ◌==◌, ltb, leb, if◌then◌else◌, length, get_elem?, take, drop, div_ceil, min,
}
use paged_kv_cache.Error.{
  PhysicalSlot, CacheError, out_of_blocks, invalid_block, block_not_allocated, ref_count_overflow,
  slot_out_of_range, shape_mismatch, invalid_layer, unknown_sequence, batch_full,
}
use paged_kv_cache.Outcome.{
  Outcome, ok, err, panic, M, ◌>>=◌, ◌>>◌, pure, fail, get, put, reject_if, expect, divisor, on,
}
use paged_kv_cache.Config.{CacheConfig}
use paged_kv_cache.Allocator.{Allocator}
use paged_kv_cache.Allocator
use paged_kv_cache.BlockTable.{
  BlockTable, CowCopy, Held, from_blocks, append, append_many, blocks_needed, fork, free,
}

pub record PendingSeq : Type 0 where
  pub id : ℕ
  pub context_len : ℕ
  pub max_new_tokens : ℕ
  pub prompt : List ℕ

pub record RunningSeq : Type 0 where
  pub id : ℕ
  pub table : BlockTable
  pub max_new_tokens : ℕ
  pub generated : ℕ
  pub prompt : List ℕ
  pub cached_tokens : ℕ

pub record Scheduler : Type 0 where
  pub allocator : Allocator
  pub block_size : ℕ
  pub max_batch_size : ℕ
  pub waiting : List PendingSeq
  pub running : List RunningSeq

abbrev with_allocator : Allocator → CacheConfig → ℕ → Scheduler
with_allocator allocator config max_batch_size = record {
  allocator = allocator;
  block_size = config.block_size;
  max_batch_size = max_batch_size;
  waiting = [];
  running = [];
}

abbrev pub new : CacheConfig → ℕ → Scheduler
new config = with_allocator (Allocator.new config.num_blocks) config

abbrev pub with_prefix_caching : CacheConfig → ℕ → Scheduler
with_prefix_caching config = with_allocator (Allocator.with_prefix_caching config.num_blocks) config

-- `a - b` of `usize`s, as a release build computes it.
abbrev pub usize_sub : ℕ → ℕ → ℕ
usize_sub a b = (a + 2 ^ 64 - b) % 2 ^ 64

unfoldable pub enqueue : ℕ → ℕ → List ℕ → ℕ → M Scheduler (Unit {0})
enqueue id prompt_len prompt max_new_tokens = do
  s ← get
  let final_context_len = (prompt_len + max_new_tokens) % 2 ^ 64
  if ltb (s.allocator.num_blocks * s.block_size) final_context_len
      then (do
        divisor s.block_size
        fail (out_of_blocks (div_ceil final_context_len s.block_size) s.allocator.num_blocks))
      else put (record s {
        waiting =
            s.waiting
            ++ record {
              id = id;
              context_len = prompt_len;
              max_new_tokens = max_new_tokens;
              prompt = prompt;
            }
              ∷ [];
      })

abbrev pub add_request : ℕ → ℕ → ℕ → M Scheduler (Unit {0})
add_request id prompt_len max_new_tokens = enqueue id prompt_len [] max_new_tokens

abbrev pub add_prompt : ℕ → List ℕ → ℕ → M Scheduler (Unit {0})
add_prompt id prompt max_new_tokens = enqueue id (length prompt) prompt max_new_tokens

-- `running.iter().position(|s| s.id == id)`
abbrev pub position : ℕ → List RunningSeq → Option ℕ
position id [] = none
position id (s ∷ ss) =
    if s.id == id then some 0 else elim (position id ss) [ none ↦ none | some i ↦ some (suc i) ]

abbrev pub waiting_position : ℕ → List PendingSeq → Option ℕ
waiting_position id [] = none
waiting_position id (s ∷ ss) =
    if s.id == id
    then some 0
    else elim (waiting_position id ss) [ none ↦ none | some i ↦ some (suc i) ]

module _ {A : Type 0} where
  -- What `Vec::remove` leaves, and a write to an element.
  abbrev pub remove_at : ℕ → List A → List A
  remove_at i [] = []
  remove_at zero (x ∷ xs) = xs
  remove_at (suc i) (x ∷ xs) = x ∷ remove_at i xs

  abbrev pub set_at : ℕ → A → List A → List A
  set_at i y [] = []
  set_at zero y (x ∷ xs) = y ∷ xs
  set_at (suc i) y (x ∷ xs) = x ∷ set_at i y xs

abbrev pub on_pool : {A : Type 0} → M Allocator A → M Scheduler A
on_pool = on (λ s. s.allocator) (λ s a. record s { allocator = a })

-- `self.running.remove(i)`
abbrev pub remove_running : ℕ → M Scheduler RunningSeq
remove_running i = do
  s ← get
  seq ← expect (get_elem? s.running i)
  put (record s { running = remove_at i s.running })
  pure seq

-- The second half of `finish_sequence`, for a sequence that is not running.
unfoldable pub finish_waiting : ℕ → M Scheduler (Unit {0})
finish_waiting id = do
  s ← get
  elim (waiting_position id s.waiting) [
    | none ↦ fail (unknown_sequence id)
    | some i ↦ put (record s { waiting = remove_at i s.waiting })
  ]

unfoldable pub finish_sequence : ℕ → M Scheduler (Unit {0})
finish_sequence id = do
  s ← get
  elim (position id s.running) [
    | none ↦ finish_waiting id
    | some i ↦ do seq ← remove_running i; on_pool (free seq.table)
  ]

abbrev pub forked : ℕ → ℕ → RunningSeq → BlockTable → RunningSeq
forked child max_new_tokens parent table = record {
  id = child;
  table = table;
  max_new_tokens = max_new_tokens;
  generated = 0;
  prompt = parent.prompt;
  cached_tokens = 0;
}

-- `fork_sequence` from the place of the parent on.
unfoldable pub fork_at : ℕ → ℕ → ℕ → M Scheduler (Unit {0})
fork_at i child max_new_tokens = do
  s ← get
  reject_if (leb s.max_batch_size (length s.running)) (batch_full s.max_batch_size)
  parent ← expect (get_elem? s.running i)
  table ← on_pool (fork parent.table)
  t ← get
  put (record t { running = t.running ++ forked child max_new_tokens parent table ∷ [] })

unfoldable pub fork_sequence : ℕ → ℕ → ℕ → M Scheduler (Unit {0})
fork_sequence parent child max_new_tokens = do
  s ← get
  elim (position parent s.running) [
    | none ↦ fail (unknown_sequence parent)
    | some i ↦ fork_at i child max_new_tokens
  ]
