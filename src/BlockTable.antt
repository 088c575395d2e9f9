-- ===== src/BlockTable.antt =====
-- crates/paged-kv-core/src/block_table.rs: a sequence's blocks in logical order, with lazy
-- copy-on-write. A division by a block size of 0 panics. `num_tokens` counts tokens in memory, so
-- it is taken not to wrap.
pub mod Arithmetic
pub mod Owned
pub mod Tail
pub mod Append
pub mod Many
pub mod Share
pub mod Ownership
use paged_kv_cache.Prelude.{
  ℕ, zero, suc, ◌+◌, ◌-◌, ◌*◌, ◌/◌, ◌%◌, Bool, false, not, Option, none, some, List, [], ◌∷◌, ◌++◌,
  ◌==◌, ltb, leb, if◌then◌else◌, length, get_elem?, div_ceil, reverse,
}
use paged_kv_cache.Error.{PhysicalSlot, out_of_blocks, slot_out_of_range}
use paged_kv_cache.Outcome.{M, ◌>>=◌, ◌>>◌, pure, get, put, reject_if, expect, on, divisor}
use paged_kv_cache.Config.{CacheConfig}
use paged_kv_cache.Allocator.{Allocator, allocate, incref, decref, decref_many, is_shared, num_free}

pub record BlockTable : Type 0 where
  pub blocks : List ℕ
  pub num_tokens : ℕ
  pub block_size : ℕ

pub record CowCopy : Type 0 where
  pub src : ℕ
  pub dst : ℕ

abbrev pub new : ℕ → BlockTable
new block_size = record { blocks = []; num_tokens = 0; block_size = block_size }

abbrev pub for_config : CacheConfig → BlockTable
for_config config = new config.block_size

abbrev pub from_blocks : List ℕ → ℕ → BlockTable
from_blocks blocks block_size = record {
  blocks = blocks;
  num_tokens = length blocks * block_size;
  block_size = block_size;
}

abbrev pub last? : List ℕ → Option ℕ
last? [] = none
last? (x ∷ []) = some x
last? (x ∷ y ∷ xs) = last? (y ∷ xs)

-- `*blocks.last_mut().unwrap() = v`
abbrev pub set_last : List ℕ → ℕ → List ℕ
set_last [] v = []
set_last (x ∷ []) v = v ∷ []
set_last (x ∷ y ∷ xs) v = x ∷ set_last (y ∷ xs) v

unfoldable pub last_block_has_room : {S : Type 0} → BlockTable → M S Bool
last_block_has_room t = elim t.blocks [
  | [] ↦ pure false
  | _ ∷ _ ↦ do divisor t.block_size; pure (not (t.num_tokens % t.block_size == 0))
]

unfoldable pub slot_for_position : {S : Type 0} → BlockTable → ℕ → M S PhysicalSlot
slot_for_position t position = do
  divisor t.block_size
  block ← expect (get_elem? t.blocks (position / t.block_size))
  pure (record { block = block; slot = position % t.block_size })

unfoldable pub resolve : {S : Type 0} → BlockTable → ℕ → M S PhysicalSlot
unfolding slot_for_position
resolve t position = do
  reject_if (leb t.num_tokens position) (slot_out_of_range position t.num_tokens)
  slot_for_position t position

-- A table with the allocator that its blocks come from, as `append` borrows them.
pub record Held : Type 0 where
  pub table : BlockTable
  pub allocator : Allocator

abbrev pub on_allocator : {A : Type 0} → M Allocator A → M Held A
on_allocator = on (λ s. s.allocator) (λ s a. record s { allocator = a })

abbrev set_blocks : List ℕ → M Held (Unit {0})
set_blocks blocks = do
  s ← get
  let table = s.table
  put (record s { table = record table { blocks = blocks } })

-- `append` when the tail has room: the tail is copied first if another table shares it.
unfoldable pub write_tail : M Held (Option CowCopy)
write_tail = do
  s ← get
  tail ← expect (last? s.table.blocks)
  shared ← on_allocator (is_shared tail)
  if shared
      then (do
        fresh ← on_allocator allocate
        _ ← on_allocator (decref tail)
        set_blocks (set_last s.table.blocks fresh)
        pure (some (record { src = tail; dst = fresh })))
      else pure none

-- `append` when the tail is full.
unfoldable pub grow : M Held (Option CowCopy)
grow = do
  s ← get
  fresh ← on_allocator allocate
  set_blocks (s.table.blocks ++ fresh ∷ [])
  pure none

-- The end of `append`: the slot of the next position, which is now taken.
unfoldable pub take_slot : M Held PhysicalSlot
unfolding slot_for_position
take_slot = do
  s ← get
  let table = s.table
  slot ← slot_for_position table table.num_tokens
  put (record s { table = record table { num_tokens = table.num_tokens + 1 } })
  pure slot

unfoldable pub append : M Held (PhysicalSlot × Option CowCopy)
append = do
  s ← get
  room ← last_block_has_room s.table
  cow ← (if room then write_tail else grow)
  slot ← take_slot
  pure (slot, cow)

-- The room in the tail and whether the tail would be copied.
unfoldable pub tail_state : BlockTable → M Allocator (ℕ × Bool)
tail_state t = do
  room ← last_block_has_room t
  if room
      then (do
        tail ← expect (last? t.blocks)
        shared ← is_shared tail
        pure (t.block_size - t.num_tokens % t.block_size, shared))
      else pure (0, false)

unfoldable pub blocks_needed : BlockTable → ℕ → M Allocator ℕ
unfolding tail_state
blocks_needed t zero = pure 0
blocks_needed t (suc n) = do
  (room_in_tail, needs_cow) ← tail_state t
  divisor t.block_size
  pure (div_ceil (suc n - room_in_tail) t.block_size + (if needs_cow then 1 else 0))

abbrev extend : Option CowCopy → List CowCopy → List CowCopy
extend none copies = copies
extend (some c) copies = c ∷ copies

-- The loop of `append_many`.
unfoldable pub append_loop : ℕ → M Held (List PhysicalSlot × List CowCopy)
append_loop zero = pure ([], [])
append_loop (suc n) = do
  (slot, cow) ← append
  (slots, copies) ← append_loop n
  pure (slot ∷ slots, extend cow copies)

unfoldable pub append_many : ℕ → M Held (List PhysicalSlot × List CowCopy)
append_many n = do
  s ← get
  needed ← on_allocator (blocks_needed s.table n)
  reject_if (ltb (num_free s.allocator) needed) (out_of_blocks needed (num_free s.allocator))
  append_loop n

-- The loop of `fork`.
unfoldable pub incref_all : List ℕ → M Allocator (Unit {0})
incref_all [] = pure tt
incref_all (id ∷ ids) = do _ ← incref id; incref_all ids

unfoldable pub fork : BlockTable → M Allocator BlockTable
unfolding incref_all
fork t = do incref_all t.blocks; pure t

-- `free` consumes the table, and releases its blocks from the tail on.
unfoldable pub free : BlockTable → M Allocator (Unit {0})
unfolding decref_many
free t = decref_many (reverse t.blocks)
