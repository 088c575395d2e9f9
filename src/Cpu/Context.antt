-- ===== src/Cpu/Context.antt =====
-- The reference for a head of `paged_attention` of cpu.rs: attention over the entries of the context,
-- which the block table scatters over the pool and `gather` collects.
use paged_kv_cache.Prelude.{
  ℕ, zero, suc, ◌+◌, ◌*◌, ◌/◌, ◌%◌, ◌≤◌, ◌<◌, ◌≡◌, refl, Option, none, some, List, [], ◌∷◌, ◌++◌,
  map, Array, get_elem?, take, drop, arith,
}
use mathlib.Core.List.{map-append}
use native.Mathlib.Nat.{mod-lt}
use paged_kv_cache.Error.{PhysicalSlot}
use paged_kv_cache.Outcome.{ok}
use paged_kv_cache.Slices.{elements, slice, elements-part}
use paged_kv_cache.Config.{CacheConfig, entry_elems}
use paged_kv_cache.Backend.{AttentionSeq}
use paged_kv_cache.Cpu.{CpuBackend, Floats, plane, slot_offset}
use paged_kv_cache.Cpu.Layout.{InBounds, entry_fits, next_row}
use paged_kv_cache.Cpu.Slots.{stored}
use paged_kv_cache.Cpu.Covers.{Proper, Covers}
use paged_kv_cache.Cpu.Attention.{head_output, entry, gather}

-- The positions below `n`.
abbrev pub positions : ℕ → List ℕ
positions zero = []
positions (suc n) = positions n ++ n ∷ []

-- The slot of a position; in block 0 beyond the table, which a table that covers its context
-- has no position for.
abbrev pub block_at : Option ℕ → ℕ
block_at none = 0
block_at (some b) = b

abbrev pub slot_of : ℕ → List ℕ → ℕ → PhysicalSlot
slot_of block_size table t = record {
  block = block_at (get_elem? table (t / block_size));
  slot = t % block_size;
}

-- The part of a row that KV head `j` has.
abbrev pub head_of : {F : Type 0} → ℕ → ℕ → List F → List F
head_of d j row = take d (drop (j * d) row)

module _ {F : Type 0} (f : Floats F) (b : CpuBackend F) (layer : ℕ) where
  -- The K and V of a position of a sequence.
  abbrev pub stored_at : AttentionSeq → ℕ → List F × List F
  stored_at s t = stored b layer (slot_of b.config.block_size s.block_table t)

  -- The attention of a query at `pos`, over the positions up to it, for KV head `j`.
  abbrev pub reference : AttentionSeq → ℕ → ℕ → List F → List F
  reference s pos j qh =
      let d = b.config.head_dim in
      head_output f d qh (map (λ t. head_of d j (stored_at s t).0) (positions (pos + 1)))
        (map (λ t. head_of d j (stored_at s t).1) (positions (pos + 1)))

module _ {F : Type 0} (c : CacheConfig) (xs : Array F) (layer : ℕ) (s : AttentionSeq) (group h : ℕ)
    (fits : xs.size ≡ plane c) (low : layer < c.num_layers) (p : Proper c) (v : Covers c s)
    (positive : 0 < group) (head : h / group < c.num_kv_heads) where
  abbrev row_at : ℕ → List F
  row_at t =
      elements xs (slot_offset c layer (slot_of c.block_size s.block_table t)) (entry_elems c)

  slot-InBounds :
      (t : ℕ) → t < s.context_len → InBounds c layer (slot_of c.block_size s.block_table t)
  slot-InBounds t l =
      let (blk, e, m) = v.block t l in
      record { layer_lt = low; block_lt = rw e m; slot_lt = mod-lt t p.block_size }

  entry-eq :
      {S : Type 0} (t : ℕ) (u : S)
      → t < s.context_len
      → entry c layer s group h t u
        ≡ ok (slot_offset c layer (slot_of c.block_size s.block_table t) + h / group * c.head_dim) u
  unfolding entry
  entry-eq t u l = let e = (v.block t l).1 in ground (arith, e, p.block_size, positive)

  part-eq :
      {S : Type 0} (t : ℕ) (u : S)
      → t < s.context_len
      → slice xs
          (slot_offset c layer (slot_of c.block_size s.block_table t) + h / group * c.head_dim)
          c.head_dim
          u
        ≡ ok (head_of c.head_dim (h / group) (row_at t)) u
  part-eq t u l =
      let at = slot_of c.block_size s.block_table t in
      let within : h / group * c.head_dim + c.head_dim ≤ entry_elems c =
        next_row (h / group) c.num_kv_heads c.head_dim head in
      let r =
        elements-part xs (slot_offset c layer at) (h / group * c.head_dim) c.head_dim
          (entry_elems c) within in
      ground (arith, r, fits, within, entry_fits c layer at (slot-InBounds t l))

  pub gather-eq :
      {S : Type 0} (n : ℕ) (u : S)
      → n ≤ s.context_len
      → gather c xs layer s group h n u
        ≡ ok (map (λ t. head_of c.head_dim (h / group) (row_at t)) (positions n)) u
  unfolding gather
  gather-eq zero u l = refl
  gather-eq (suc n) u l =
      let part : ℕ → List F = λ t. head_of c.head_dim (h / group) (row_at t) in
      rw
        (
          gather-eq n u (omega (arith, l)),
          entry-eq n u (omega (arith, l)),
          part-eq n u (omega (arith, l)),
          map-append part (positions n) (n ∷ []),
        )
        refl
