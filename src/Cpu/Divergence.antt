-- ===== src/Cpu/Divergence.antt =====
-- Copy-on-write, from `append` of block_table.rs to the copy that cpu.rs makes of it: what the
-- positions of a context hold survives, in this table and in the others.
use paged_kv_cache.Prelude.{
  ℕ, ◌/◌, ◌%◌, ◌≤◌, ◌<◌, ◌≡◌, refl, inl, inr, none, some, Option, List, [], ◌∷◌, count, get_elem?,
  get_elem?-range, count-get_elem?, once-get_elem?, sym, ap, ◌∙◌, arith,
}
use native.Mathlib.Nat.{mod-lt}
use native.Mathlib.Decide.{dec_lt, ℕ_discrete}
use paged_kv_cache.Error.{PhysicalSlot, CacheError}
use paged_kv_cache.Outcome.{ok, Returns, Returns-eq, Post-mono}
use paged_kv_cache.Allocator.{Allocator, num_free}
use paged_kv_cache.Backend.{copy_blocks}
use paged_kv_cache.BlockTable.{BlockTable, CowCopy, append}
use paged_kv_cache.BlockTable.Owned.{Fits, Owns, Appended, cost, held}
use paged_kv_cache.BlockTable.Append.{append-Returns}
use paged_kv_cache.Cpu.{CpuBackend, Floats, cpu, copy_block}
use paged_kv_cache.Cpu.Layout.{InBounds}
use paged_kv_cache.Cpu.Slots.{Sized, stored}
use paged_kv_cache.Cpu.Blocks.{slot_in, Copied, NoBlock, copy_block-Post}

-- The copies that a token asks for, as the engine collects them.
abbrev pub pairs_of : Option CowCopy → List (ℕ × ℕ)
pairs_of none = []
pairs_of (some c) = (c.src, c.dst) ∷ []

-- What `b` holds at the positions of table `t` is what `c` holds at those of `u`, and the blocks of
-- the other tables hold what they held.
pub record Preserved {F : Type 0} (others : ℕ → ℕ) (t : BlockTable) (b : CpuBackend F)
    (u : BlockTable) (c : CpuBackend F) : Type 0 where
  pub sized : Sized c
  pub config : c.config ≡ b.config
  pub context :
      (layer position block : ℕ)
      → layer < b.config.num_layers
      → position < t.num_tokens
      → get_elem? t.blocks (position / t.block_size) ≡ some block
      → (block' : ℕ) × (get_elem? u.blocks (position / t.block_size) ≡ some block')
        × (stored c layer (slot_in block' (position % t.block_size))
            ≡ stored b layer (slot_in block (position % t.block_size)))
  pub others_kept :
      (layer block slot : ℕ)
      → InBounds b.config layer (slot_in block slot)
      → 0 < others block
      → stored c layer (slot_in block slot) ≡ stored b layer (slot_in block slot)

module _ {F : Type 0} (f : Floats F) (others : ℕ → ℕ) (t : BlockTable) (a : Allocator)
    (b : CpuBackend F) (w : Owns others t a) (fit : Fits t) (z : Sized b)
    (blocks_eq : b.config.num_blocks ≡ a.num_blocks) (size_eq : b.config.block_size ≡ t.block_size)
    (slot : PhysicalSlot) (u : BlockTable) (d : Allocator) where
  slot_lt : (position : ℕ) → position % t.block_size < b.config.block_size
  slot_lt position = rw size_eq (mod-lt position fit.positive)

  held_lt : (k block : ℕ) → get_elem? t.blocks k ≡ some block → block < b.config.num_blocks
  held_lt k block h = elim (dec_lt block a.num_blocks) [
    | yes l ↦ omega (arith, l, blocks_eq)
    | no l ↦
        absurd
          (omega (arith, w.within block (omega (arith, l)), count-get_elem? k block t.blocks h))
  ]

  once : {cow : Option CowCopy} → Appended others t a slot cow u d → count slot.block u.blocks ≤ 1
  once x = omega (arith, x.owns.counts slot.block x.in_pool, x.exclusive.0)

  uncopied-Preserved : Appended others t a slot none u d → Preserved others t b u b
  uncopied-Preserved x = record {
    sized = z;
    config = refl;
    context = λ layer position block l p h.
        (block, x.diverges _ (get_elem?-range _ t.blocks block h) ∙ h, refl);
    others_kept = λ layer block slot i l. refl;
  }

  Copied-Preserved :
      (cow : CowCopy) (c : CpuBackend F)
      → Appended others t a slot (some cow) u d
      → Copied b cow.src cow.dst b.config.num_layers c
      → Preserved others t b u c
  Copied-Preserved cow c x y = record {
    sized = y.sized;
    config = y.config;
    context = λ layer position block l p h.
        elim (ℕ_discrete (position / t.block_size) (t.num_tokens / t.block_size)) [
          | yes e ↦
              let same : block ≡ cow.src = ground (arith, h, e, x.diverges.2) in
              (
                cow.dst,
                ground (arith, e, x.placed, x.diverges.0),
                y.copies layer (position % t.block_size) l (record {
                  layer_lt = l;
                  block_lt = ground (arith, x.diverges.0, x.in_pool, x.blocks, blocks_eq);
                  slot_lt = slot_lt position;
                })
                    ∙ ap (λ o. stored b layer (slot_in o (position % t.block_size))) (sym same),
              )
          | no ne ↦
              let kept = x.diverges.3 (position / t.block_size) ne ∙ h in
              (
                block,
                kept,
                y.others layer (slot_in block (position % t.block_size))
                    (record {
                      layer_lt = l;
                      block_lt = held_lt _ block h;
                      slot_lt = slot_lt position;
                    })
                    (inr (λ e. ne (
                      once-get_elem? _ _ slot.block u.blocks (ground (arith, kept, e, x.diverges.0))
                        x.placed (once x)))),
              )
        ];
    others_kept = λ layer block slot' i l.
        y.others layer (slot_in block slot') i
          (inr (λ e. ground (arith, e, x.diverges.0, x.exclusive.1, l)));
  }

  copy-Preserved :
      (cow : Option CowCopy)
      → Appended others t a slot cow u d
      → Returns (λ _ c. Preserved others t b u c) (copy_blocks (cpu f) (pairs_of cow) b)
  unfolding copy_blocks
  copy-Preserved none x = uncopied-Preserved x
  copy-Preserved (some cow) x =
      let (_, c, p, y) = Returns-eq _ (copy_block cow.src cow.dst b) (
        Post-mono _ _ _ _ (copy_block cow.src cow.dst b) (copy_block-Post cow.src cow.dst b z)
          (λ _ c y. y) (λ e c no. in_pool cow x no.1)) in
      let r : copy_blocks (cpu f) ((cow.src, cow.dst) ∷ []) b ≡ ok tt c = ground (arith, p) in
      rw r (Copied-Preserved cow c x y)
    where
      in_pool :
          {e : CacheError} (cow : CowCopy)
          → Appended others t a slot (some cow) u d
          → NoBlock b.config cow.src cow.dst e
          → ⊥
      in_pool cow x (inl (h, _)) = omega (arith, h, held_lt _ cow.src x.diverges.2)
      in_pool cow x (inr (_, h, _)) =
          ground (arith, h, x.diverges.0, x.in_pool, x.blocks, blocks_eq)

-- When the token that `append` takes makes the table diverge, the copy of blocks that it asks for,
-- done by the host memory, keeps every context: each position of the table holds in the new table
-- what it held in the old one, in every layer, and the entries of the blocks that other tables own
-- hold what they held.
pub append-copy_blocks :
    {F : Type 0} (f : Floats F) (others : ℕ → ℕ) (t : BlockTable) (a : Allocator) (b : CpuBackend F)
    → Fits t
    → Owns others t a
    → cost t a ≤ num_free a
    → Sized b
    → b.config.num_blocks ≡ a.num_blocks
    → b.config.block_size ≡ t.block_size
    → Returns
        (λ r s.
          Returns (λ _ c. Preserved others t b s.table c) (copy_blocks (cpu f) (pairs_of r.1) b))
        (append (held t a))
append-copy_blocks f others t a b fit w h z blocks_eq size_eq =
    Post-mono _ _ _ _ (append (held t a)) (append-Returns others t a fit w h)
      (λ r s x.
        copy-Preserved f others t a b w fit z blocks_eq size_eq r.0 s.table s.allocator r.1 x)
      (λ e s x. x)
