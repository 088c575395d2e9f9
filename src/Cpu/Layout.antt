-- ===== src/Cpu/Layout.antt =====
-- The addresses of cpu.rs: every entry has a range of its own within the buffers.
use paged_kv_cache.Prelude.{ℕ, ◌+◌, ◌*◌, ◌≤◌, ◌<◌, ◌≡◌, ◌≢◌, ◌⊎◌, inl, inr, ap, arith}
use native.Mathlib.Decide.{dec_lt, ℕ_discrete}
use paged_kv_cache.Error.{PhysicalSlot}
use paged_kv_cache.Config.{CacheConfig, entry_elems, block_elems}
use paged_kv_cache.Cpu.{plane, block_offset, slot_offset}

pub record InBounds (c : CacheConfig) (layer : ℕ) (at : PhysicalSlot) : Type 0 where
  pub layer_lt : layer < c.num_layers
  pub block_lt : at.block < c.num_blocks
  pub slot_lt : at.slot < c.block_size

-- Two entries are not the same one.
abbrev pub Apart : ℕ → PhysicalSlot → ℕ → PhysicalSlot → Type 0
Apart layer at layer' at' = (layer ≢ layer') ⊎ ((at.block ≢ at'.block) ⊎ (at.slot ≢ at'.slot))

pub next_row : (i n m : ℕ) → i < n → i * m + m ≤ n * m
next_row i n m h = grind arith

pub next_cell : (i n j m : ℕ) → i < n → j < m → i * m + j < n * m
next_cell i n j m h l = omega (arith, next_row i n m h)

pub rows_apart : (i j m : ℕ) → i ≢ j → (i * m + m ≤ j * m) ⊎ (j * m + m ≤ i * m)
rows_apart i j m h = elim (dec_lt i j) [
  | yes l ↦ inl (next_row i j m l)
  | no l ↦ inr (next_row j i m (omega (arith, h, l)))
]

cells_of_rows : (i j r t m : ℕ) → r < m → t < m → i ≢ j → i * m + r ≢ j * m + t
cells_of_rows i j r t m h l n e = elim (rows_apart i j m n) [
  | inl p ↦ omega (arith, p, h, l, e)
  | inr p ↦ omega (arith, p, h, l, e)
]

pub cells_apart : (i j r t m : ℕ) → r < m → t < m → (i ≢ j) ⊎ (r ≢ t) → i * m + r ≢ j * m + t
cells_apart i j r t m h l (inl n) e = cells_of_rows i j r t m h l n e
cells_apart i j r t m h l (inr n) e = elim (ℕ_discrete i j) [
  | yes same ↦ n (omega (arith, e, ap (λ x. x * m) same))
  | no other ↦ cells_of_rows i j r t m h l other e
]

-- The number of an entry, and of a block, over all layers.
abbrev pub block_index : CacheConfig → ℕ → ℕ → ℕ
block_index c layer block = layer * c.num_blocks + block

abbrev pub entry_index : CacheConfig → ℕ → PhysicalSlot → ℕ
entry_index c layer at = block_index c layer at.block * c.block_size + at.slot

pub slot_offset-eq :
    (c : CacheConfig) (layer : ℕ) (at : PhysicalSlot)
    → slot_offset c layer at ≡ entry_index c layer at * entry_elems c
slot_offset-eq c layer at = grind arith

pub plane-eq : (c : CacheConfig) → plane c ≡ (c.num_layers * c.num_blocks) * block_elems c
plane-eq c = grind arith

module _ (c : CacheConfig) (layer : ℕ) (at : PhysicalSlot) (i : InBounds c layer at) where
  block_index-lt : block_index c layer at.block < c.num_layers * c.num_blocks
  block_index-lt = next_cell layer c.num_layers at.block c.num_blocks i.layer_lt i.block_lt

  -- An entry lies within its block, and its block within the buffer.
  pub entry_within : at.slot * entry_elems c + entry_elems c ≤ block_elems c
  entry_within = next_row at.slot c.block_size (entry_elems c) i.slot_lt

  -- The range of an entry in bounds ends within the buffer of its plane.
  pub entry_fits : slot_offset c layer at + entry_elems c ≤ plane c
  entry_fits = omega (
    arith,
    entry_within,
    plane-eq c,
    next_row (block_index c layer at.block) (c.num_layers * c.num_blocks) (block_elems c)
        block_index-lt,
  )

-- The ranges of two entries in bounds that differ in layer, block or slot do not overlap.
pub entries-Apart :
    (c : CacheConfig) (layer layer' : ℕ) (at at' : PhysicalSlot)
    → InBounds c layer at
    → InBounds c layer' at'
    → Apart layer at layer' at'
    → (slot_offset c layer at + entry_elems c ≤ slot_offset c layer' at')
      ⊎ (slot_offset c layer' at' + entry_elems c ≤ slot_offset c layer at)
entries-Apart c layer layer' at at' i i' a =
    rw (slot_offset-eq c layer at, slot_offset-eq c layer' at')
      (rows_apart (entry_index c layer at) (entry_index c layer' at') (entry_elems c) (
        cells_apart (block_index c layer at.block) (block_index c layer' at'.block) at.slot at'.slot
          c.block_size i.slot_lt i'.slot_lt (blocks_differ a)))
  where
    blocks_differ :
        Apart layer at layer' at'
        → (block_index c layer at.block ≢ block_index c layer' at'.block) ⊎ (at.slot ≢ at'.slot)
    blocks_differ (inl n) =
        inl
          (cells_apart layer layer' at.block at'.block c.num_blocks i.block_lt i'.block_lt (inl n))
    blocks_differ (inr (inl n)) =
        inl
          (cells_apart layer layer' at.block at'.block c.num_blocks i.block_lt i'.block_lt (inr n))
    blocks_differ (inr (inr n)) = inr n

-- The blocks of a buffer have ranges of their own too.
pub block_fits :
    (c : CacheConfig) (layer block : ℕ)
    → layer < c.num_layers
    → block < c.num_blocks
    → block_offset c layer block + block_elems c ≤ plane c
block_fits c layer block h l = omega (
  arith,
  plane-eq c,
  next_row (block_index c layer block) (c.num_layers * c.num_blocks) (block_elems c)
      (next_cell layer c.num_layers block c.num_blocks h l),
)

pub blocks_apart :
    (c : CacheConfig) (layer layer' block block' : ℕ)
    → block < c.num_blocks
    → block' < c.num_blocks
    → (layer ≢ layer') ⊎ (block ≢ block')
    → (block_offset c layer block + block_elems c ≤ block_offset c layer' block')
      ⊎ (block_offset c layer' block' + block_elems c ≤ block_offset c layer block)
blocks_apart c layer layer' block block' h l a =
    rows_apart (block_index c layer block) (block_index c layer' block') (block_elems c)
      (cells_apart layer layer' block block' c.num_blocks h l a)

-- An entry of a block keeps off a range that its block keeps off.
pub entry_apart :
    (o p s e m : ℕ) → (o + m ≤ p) ⊎ (p + m ≤ o) → s + e ≤ m → (o + m ≤ p + s) ⊎ (p + s + e ≤ o)
entry_apart o p s e m (inl h) l = inl (omega (arith, h))
entry_apart o p s e m (inr h) l = inr (omega (arith, h, l))
