-- ===== src/Scheduler/Snapshot.antt =====
-- What scheduler.rs shows of its state: the counts and the three snapshots.
use paged_kv_cache.Prelude.{ℕ, zero, suc, ◌%◌, ◌^◌, Bool, ◌&&◌, ◌==◌, List, [], ◌∷◌, map, length}
use paged_kv_cache.Outcome.{M, Outcome, ok, err, panic, ◌>>=◌, pure, get}
use paged_kv_cache.Allocator.{Allocator, CacheStats, ref_count, is_cached}
use paged_kv_cache.Allocator
use paged_kv_cache.Scheduler.{PendingSeq, RunningSeq, Scheduler, on_pool}

pub record BlockInfo : Type 0 where
  pub id : ℕ
  pub ref_count : ℕ
  pub cached : Bool

pub record RunningInfo : Type 0 where
  pub id : ℕ
  pub tokens : ℕ
  pub generated : ℕ
  pub max_new_tokens : ℕ
  pub blocks : List ℕ
  pub cached_tokens : ℕ

pub record WaitingInfo : Type 0 where
  pub id : ℕ
  pub context_len : ℕ
  pub max_new_tokens : ℕ

abbrev pub num_waiting : Scheduler → ℕ
num_waiting s = length s.waiting

abbrev pub num_running : Scheduler → ℕ
num_running s = length s.running

abbrev pub is_idle : Scheduler → Bool
is_idle s = length s.waiting == 0 && length s.running == 0

abbrev pub prefix_caching : Scheduler → Bool
prefix_caching s = Allocator.prefix_caching s.allocator

abbrev pub cache_stats : Scheduler → CacheStats
cache_stats s = Allocator.cache_stats s.allocator

-- `unwrap_or` of a result.
abbrev pub unwrap_or : {S A : Type 0} → A → Outcome S A → Outcome S A
unwrap_or d (ok a s) = ok a s
unwrap_or d (err e s) = ok d s
unwrap_or d panic = panic

unfoldable pub block_info : ℕ → M Allocator BlockInfo
block_info i = do
  let id = i % 2 ^ 32
  rc ← (λ a. unwrap_or 0 (ref_count id a))
  cached ← is_cached id
  pure (record { id = id; ref_count = rc; cached = cached })

-- The blocks from `i` on.
unfoldable pub block_infos : ℕ → ℕ → M Allocator (List BlockInfo)
block_infos i zero = pure []
block_infos i (suc n) = do x ← block_info i; xs ← block_infos (suc i) n; pure (x ∷ xs)

abbrev pub block_snapshot : M Scheduler (List BlockInfo)
block_snapshot = do s ← get; on_pool (block_infos 0 s.allocator.num_blocks)

abbrev pub running_info : RunningSeq → RunningInfo
running_info s = record {
  id = s.id;
  tokens = s.table.num_tokens;
  generated = s.generated;
  max_new_tokens = s.max_new_tokens;
  blocks = s.table.blocks;
  cached_tokens = s.cached_tokens;
}

abbrev pub running_snapshot : Scheduler → List RunningInfo
running_snapshot s = map running_info s.running

abbrev pub waiting_info : PendingSeq → WaitingInfo
waiting_info p = record {
  id = p.id;
  context_len = p.context_len;
  max_new_tokens = p.max_new_tokens;
}

abbrev pub waiting_snapshot : Scheduler → List WaitingInfo
waiting_snapshot s = map waiting_info s.waiting
