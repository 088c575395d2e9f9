-- ===== src/Config.antt =====
-- crates/paged-kv-core/src/config.rs: pool geometry and memory accounting. The products are
-- `usize`s of a pool that fits in memory, so they are taken not to wrap.
use paged_kv_cache.Prelude.{ℕ, ◌*◌, ◌/◌, ◌%◌, div_ceil}

pub record CacheConfig : Type 0 where
  pub num_blocks : ℕ
  pub block_size : ℕ
  pub num_kv_heads : ℕ
  pub head_dim : ℕ
  pub num_layers : ℕ
  pub dtype_bytes : ℕ

abbrev pub llama_3_2_1b : ℕ → CacheConfig
llama_3_2_1b num_blocks = record {
  num_blocks = num_blocks;
  block_size = 16;
  num_kv_heads = 8;
  head_dim = 64;
  num_layers = 16;
  dtype_bytes = 2;
}

abbrev pub tiny : ℕ → CacheConfig
tiny num_blocks = record {
  num_blocks = num_blocks;
  block_size = 4;
  num_kv_heads = 2;
  head_dim = 4;
  num_layers = 2;
  dtype_bytes = 4;
}

abbrev pub entry_elems : CacheConfig → ℕ
entry_elems c = c.num_kv_heads * c.head_dim

abbrev pub block_elems : CacheConfig → ℕ
block_elems c = c.block_size * entry_elems c

abbrev pub layer_elems : CacheConfig → ℕ
layer_elems c = c.num_blocks * block_elems c

abbrev pub total_elems : CacheConfig → ℕ
total_elems c = 2 * c.num_layers * layer_elems c

abbrev pub total_bytes : CacheConfig → ℕ
total_bytes c = total_elems c * c.dtype_bytes

abbrev pub bytes_per_token : CacheConfig → ℕ
bytes_per_token c = 2 * c.num_layers * entry_elems c * c.dtype_bytes

abbrev pub blocks_for_tokens : CacheConfig → ℕ → ℕ
blocks_for_tokens c num_tokens = div_ceil num_tokens c.block_size

abbrev pub split_position : CacheConfig → ℕ → ℕ × ℕ
split_position c position = (position / c.block_size, position % c.block_size)
