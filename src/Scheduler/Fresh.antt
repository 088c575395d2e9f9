-- ===== src/Scheduler/Fresh.antt =====
-- A new scheduler of scheduler.rs, with and without prefix caching.
use paged_kv_cache.Prelude.{ℕ, ◌*◌, ◌^◌, ◌≤◌, ◌<◌, refl, arith}
use paged_kv_cache.Config.{CacheConfig}
use paged_kv_cache.Lru.{nil}
use paged_kv_cache.PrefixCache
use paged_kv_cache.Allocator.{max_refcount}
use paged_kv_cache.Allocator
use paged_kv_cache.Allocator.Invariant.{new-IsValid, with_prefix_caching-IsValid}
use paged_kv_cache.Scheduler.{new, with_prefix_caching}
use paged_kv_cache.Scheduler.Tables.{IsSound}

-- The sizes that a scheduler can have.
pub record InRange (config : CacheConfig) (max_batch_size : ℕ) : Type 0 where
  pub blocks : config.num_blocks ≤ nil
  pub positive : 0 < config.block_size
  pub capacity : config.num_blocks * config.block_size < 2 ^ 64
  pub limit : max_batch_size ≤ max_refcount

module _ (config : CacheConfig) (max_batch_size : ℕ) (r : InRange config max_batch_size) where
  pub new-IsSound : IsSound (new config max_batch_size)
  unfolding Allocator.new
  new-IsSound = record {
    valid = new-IsValid config.num_blocks r.blocks;
    counts = λ i l. refl;
    within = λ i l. refl;
    seqs = λ k seq h. ground (arith, h);
    pending = λ k p h. ground (arith, h);
    ordered = record { positive = omega arith; parents = λ i e k h. ground (arith, h) };
    positive = r.positive;
    capacity = r.capacity;
    limit = r.limit;
    batch = omega arith;
  }

  pub with_prefix_caching-IsSound : IsSound (with_prefix_caching config max_batch_size)
  unfolding Allocator.with_prefix_caching PrefixCache.new
  with_prefix_caching-IsSound = record {
    valid = with_prefix_caching-IsValid config.num_blocks r.blocks;
    counts = λ i l. refl;
    within = λ i l. refl;
    seqs = λ k seq h. ground (arith, h);
    pending = λ k p h. ground (arith, h);
    ordered = record { positive = omega arith; parents = λ i e k h. ground (arith, h) };
    positive = r.positive;
    capacity = r.capacity;
    limit = r.limit;
    batch = omega arith;
  }
