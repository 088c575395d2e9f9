-- ===== src/Error.antt =====
-- crates/paged-kv-core/src/error.rs and the id types of types.rs. A block id is the index that its
-- `u32` holds and a sequence id is the number that its `u64` holds.
use paged_kv_cache.Prelude.{ℕ}

pub record PhysicalSlot : Type 0 where
  pub block : ℕ
  pub slot : ℕ

-- `Device` carries the driver's message, which only the CUDA backend writes.
pub data CacheError : Type 0 where
  out_of_blocks : (requested available : ℕ) → CacheError
  invalid_block : (id num_blocks : ℕ) → CacheError
  block_not_allocated : (id : ℕ) → CacheError
  ref_count_overflow : (id max : ℕ) → CacheError
  slot_out_of_range : (slot block_size : ℕ) → CacheError
  shape_mismatch : (expected actual : ℕ) → CacheError
  invalid_layer : (layer num_layers : ℕ) → CacheError
  unknown_sequence : (id : ℕ) → CacheError
  batch_full : (max_batch_size : ℕ) → CacheError
