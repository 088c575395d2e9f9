-- ===== src/BlockTable/Owned.antt =====
-- The ownership of blocks by the tables of block_table.rs, and what an `append` is to do to it.

use paged_kv_cache.Prelude.{
  ℕ, ◌+◌, ◌/◌, ◌%◌, ◌≤◌, ◌<◌, ◌≡◌, ◌≢◌, ap, inl, inr, not, ◌&&◌, Option, none, some, List, ◌==◌,
  ltb, if◌then◌else◌, length, count, get_elem?, last_or, div_ceil, is_some, List-cases, arith,
}
use paged_kv_cache.Error.{PhysicalSlot}
use paged_kv_cache.Outcome.{ok}
use paged_kv_cache.Allocator.{Allocator, num_free, is_shared, ref_count}
use paged_kv_cache.Allocator.Entries.{Older}
use paged_kv_cache.Allocator.Invariant.{Inv, IsValid}
use paged_kv_cache.BlockTable.{BlockTable, CowCopy, Held, last_block_has_room, take_slot}
use paged_kv_cache.BlockTable.Arithmetic.{div_ceil-eq, need}

-- The table's own shape: as many blocks as its tokens fill.
pub record Fits (t : BlockTable) : Type 0 where
  pub positive : 0 < t.block_size
  pub blocks : length t.blocks ≡ div_ceil t.num_tokens t.block_size

-- The pool is valid and counts the owners of each block right: this table, and what `others` says
-- of the other tables over the pool.
pub record Owns (others : ℕ → ℕ) (t : BlockTable) (a : Allocator) : Type 0 where
  pub valid : IsValid a
  pub counts : (i : ℕ) → i < a.num_blocks → a.ref_counts.at i ≡ count i t.blocks + others i
  pub within : (i : ℕ) → a.num_blocks ≤ i → count i t.blocks ≡ 0

pub is_shared-eq :
    (a : Allocator) (order : List ℕ) (id : ℕ)
    → Inv order a
    → id < a.num_blocks
    → is_shared id a ≡ ok (ltb 1 (a.ref_counts.at id)) a
unfolding is_shared ref_count
is_shared-eq a order id v h = ground (arith, v.size)

pub has_room-eq :
    {S : Type 0} (t : BlockTable) (s : S)
    → Fits t
    → last_block_has_room t s ≡ ok (not (t.num_tokens % t.block_size == 0)) s
unfolding last_block_has_room
has_room-eq t s f = elim (List-cases t.blocks) [
  | inl e ↦
      ground (arith, ap length e, f.blocks, div_ceil-eq t.num_tokens t.block_size f.positive, e)
  | inr (x, xs, e) ↦ ground (arith, e, f.positive)
]

abbrev pub tail : BlockTable → ℕ
tail t = last_or 0 t.blocks

-- The free blocks that the next token takes: a new block, or a copy of a shared tail.
abbrev pub cost : BlockTable → Allocator → ℕ
cost t a =
    if t.num_tokens % t.block_size == 0
    then 1
    else if ltb 1 (a.ref_counts.at (tail t))
    then 1
    else 0

abbrev pub held : BlockTable → Allocator → Held
held t a = record { table = t; allocator = a }

abbrev pub slot_at : BlockTable → ℕ → PhysicalSlot
slot_at t block = record { block = block; slot = t.num_tokens % t.block_size }

abbrev pub with_blocks : BlockTable → List ℕ → BlockTable
with_blocks t blocks = record t { blocks = blocks; num_tokens = t.num_tokens + 1 }

-- The blocks before and after an append: the copied block alone has changed, if there is one.
abbrev pub Diverges : BlockTable → PhysicalSlot → Option CowCopy → BlockTable → Type 0
Diverges t slot none u = (k : ℕ) → k < length t.blocks → get_elem? u.blocks k ≡ get_elem? t.blocks k
Diverges t slot (some c) u =
    (c.dst ≡ slot.block)
    × (c.src ≢ c.dst)
    × (get_elem? t.blocks (t.num_tokens / t.block_size) ≡ some c.src)
    × ((k : ℕ) → k ≢ t.num_tokens / t.block_size → get_elem? u.blocks k ≡ get_elem? t.blocks k)

pub record Appended (others : ℕ → ℕ) (t : BlockTable) (a : Allocator) (slot : PhysicalSlot)
    (cow : Option CowCopy) (u : BlockTable) (b : Allocator) : Type 0 where
  pub fits : Fits u
  pub owns : Owns others u b
  pub tokens : u.num_tokens ≡ t.num_tokens + 1
  pub size : u.block_size ≡ t.block_size
  pub blocks : b.num_blocks ≡ a.num_blocks
  pub caches : is_some b.cache ≡ is_some a.cache
  pub placed : get_elem? u.blocks (t.num_tokens / t.block_size) ≡ some slot.block
  pub offset : slot.slot ≡ t.num_tokens % t.block_size
  pub in_pool : slot.block < b.num_blocks
  pub exclusive : (b.ref_counts.at slot.block ≡ 1) × (others slot.block ≡ 0)
  pub diverges : Diverges t slot cow u
  pub distinct : ((i : ℕ) → count i t.blocks ≤ 1) → (i : ℕ) → count i u.blocks ≤ 1
  pub older : Older a.cache b.cache
  pub lazy :
      is_some cow ≡ (not (t.num_tokens % t.block_size == 0) && ltb 1 (a.ref_counts.at (tail t)))
  pub free : num_free b + cost t a ≡ num_free a

pub take_slot-eq :
    (t : BlockTable) (a : Allocator) (block : ℕ)
    → 0 < t.block_size
    → get_elem? t.blocks (t.num_tokens / t.block_size) ≡ some block
    → take_slot (held t a) ≡ ok (slot_at t block) (held (with_blocks t t.blocks) a)
unfolding take_slot
take_slot-eq t a block h p = ground (arith, p)

-- The blocks that appending `n` tokens takes.
abbrev pub needed : BlockTable → Allocator → ℕ → ℕ
needed t a n = need t.block_size (t.num_tokens % t.block_size) (ltb 1 (a.ref_counts.at (tail t))) n
