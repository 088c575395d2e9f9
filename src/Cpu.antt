-- ===== src/Cpu.antt =====
-- crates/paged-kv-core/src/cpu.rs: K and V in host memory. An `f32` and its operations are
-- parameters. Offsets are `usize`s into a buffer that fits in memory, so they are taken not to wrap.
pub mod Layout
pub mod Slots
pub mod Blocks
pub mod Divergence
pub mod Batch
pub mod Attention
pub mod Covers
pub mod Checked
pub mod Context
pub mod Heads
pub mod Queries
pub mod Attended
use paged_kv_cache.Prelude.{
  ℕ, zero, suc, ◌+◌, ◌-◌, ◌*◌, ◌/◌, ◌%◌, List, [], ◌∷◌, ◌==◌, ltb, leb, if◌then◌else◌, Array,
  filled, length, get_elem?, map, not,
}
use paged_kv_cache.Error.{
  PhysicalSlot, invalid_layer, invalid_block, slot_out_of_range, shape_mismatch,
}
use paged_kv_cache.Outcome.{M, ◌>>=◌, ◌>>◌, pure, get, put, reject_if, expect, divisor}
use paged_kv_cache.Slices.{slice, copy_from_slice, copy_within, fill, elements}
use paged_kv_cache.Config.{CacheConfig, entry_elems, block_elems, layer_elems}
use paged_kv_cache.Backend.{AttentionSeq, KvBackend, check_attention}

pub record CpuBackend (F : Type 0) : Type 0 where
  pub config : CacheConfig
  pub k : Array F
  pub v : Array F

-- What the code uses of `f32`: arithmetic, `exp`, `max`, `sum` of an iterator, and
-- `1.0 / (d as f32).sqrt()`.
pub record Floats (F : Type 0) : Type 0 where
  pub zero : F
  pub neg_infinity : F
  pub add : F → F → F
  pub sub : F → F → F
  pub mul : F → F → F
  pub div : F → F → F
  pub exp : F → F
  pub max : F → F → F
  pub sum : List F → F
  pub inverse_sqrt : ℕ → F

abbrev pub plane : CacheConfig → ℕ
plane c = c.num_layers * layer_elems c

abbrev pub new : {F : Type 0} → Floats F → CacheConfig → CpuBackend F
new f config = record {
  config = config;
  k = filled f.zero (plane config);
  v = filled f.zero (plane config);
}

abbrev pub block_offset : CacheConfig → ℕ → ℕ → ℕ
block_offset c layer block = (layer * c.num_blocks + block) * block_elems c

abbrev pub slot_offset : CacheConfig → ℕ → PhysicalSlot → ℕ
slot_offset c layer at = block_offset c layer at.block + at.slot * entry_elems c

module _ {S : Type 0} where
  abbrev pub validate_block : CacheConfig → ℕ → M S (Unit {0})
  validate_block c block = reject_if (leb c.num_blocks block) (invalid_block block c.num_blocks)

  unfoldable pub validate : CacheConfig → ℕ → PhysicalSlot → M S (Unit {0})
  validate c layer at = do
    reject_if (leb c.num_layers layer) (invalid_layer layer c.num_layers)
    validate_block c at.block
    reject_if (leb c.block_size at.slot) (slot_out_of_range at.slot c.block_size)

  abbrev pub check_len : ℕ → ℕ → M S (Unit {0})
  check_len expected actual = reject_if (not (expected == actual)) (shape_mismatch expected actual)

module _ {F : Type 0} where
  unfoldable pub write_kv : ℕ → PhysicalSlot → List F → List F → M (CpuBackend F) (Unit {0})
  write_kv layer dst k v = do
    b ← get
    validate b.config layer dst
    check_len (entry_elems b.config) (length k)
    check_len (entry_elems b.config) (length v)
    k' ← copy_from_slice b.k (slot_offset b.config layer dst) k
    v' ← copy_from_slice b.v (slot_offset b.config layer dst) v
    put (record b { k = k'; v = v' })

  unfoldable pub read_kv : ℕ → PhysicalSlot → ℕ → ℕ → M (CpuBackend F) (List F × List F)
  read_kv layer src k_len v_len = do
    b ← get
    validate b.config layer src
    check_len (entry_elems b.config) k_len
    check_len (entry_elems b.config) v_len
    k ← slice b.k (slot_offset b.config layer src) (entry_elems b.config)
    v ← slice b.v (slot_offset b.config layer src) (entry_elems b.config)
    pure (k, v)

  -- The loop of `copy_block`, for the first `n` layers.
  unfoldable pub copy_layers : ℕ → ℕ → ℕ → M (CpuBackend F) (Unit {0})
  copy_layers zero src dst = pure tt
  copy_layers (suc n) src dst = do
    copy_layers n src dst
    b ← get
    let c = b.config
    k ← copy_within b.k (block_offset c n src) (block_elems c) (block_offset c n dst)
    v ← copy_within b.v (block_offset c n src) (block_elems c) (block_offset c n dst)
    put (record b { k = k; v = v })

  unfoldable pub copy_block : ℕ → ℕ → M (CpuBackend F) (Unit {0})
  copy_block src dst = do
    b ← get
    validate_block b.config src
    validate_block b.config dst
    if src == dst then pure tt else copy_layers b.config.num_layers src dst

module _ {F : Type 0} (f : Floats F) where
  -- The loop of `zero_block`, for the first `n` layers.
  unfoldable pub zero_layers : ℕ → ℕ → M (CpuBackend F) (Unit {0})
  zero_layers zero block = pure tt
  zero_layers (suc n) block = do
    zero_layers n block
    b ← get
    let c = b.config
    k ← fill b.k (block_offset c n block) (block_elems c) f.zero
    v ← fill b.v (block_offset c n block) (block_elems c) f.zero
    put (record b { k = k; v = v })

  unfoldable pub zero_block : ℕ → M (CpuBackend F) (Unit {0})
  zero_block block = do
    b ← get
    validate_block b.config block
    zero_layers b.config.num_layers block

  -- The host memory as a backend.
  abbrev pub cpu : KvBackend F
  cpu = record {
    State = CpuBackend F;
    config = λ b. b.config;
    write_kv = write_kv;
    read_kv = read_kv;
    copy_block = copy_block;
    zero_block = zero_block;
  }
