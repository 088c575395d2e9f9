-- ===== src/Cpu/Slots.antt =====
-- What `write_kv` and `read_kv` of cpu.rs do: a memory of entries that do not overlap.
use paged_kv_cache.Prelude.{
  ℕ, ◌≤◌, ◌<◌, ◌≡◌, ◌≢◌, ◌⊎◌, refl, inl, inr, List, length, ap, ◌∙◌, arith,
}
use native.Mathlib.Decide.{dec_lt, ℕ_discrete}
use paged_kv_cache.Error.{
  PhysicalSlot, CacheError, invalid_layer, invalid_block, slot_out_of_range, shape_mismatch,
}
use paged_kv_cache.Outcome.{ok, err, Post, Returns}
use paged_kv_cache.Slices.{elements, overwrite, elements-overwrite, elements-overwrite_apart}
use paged_kv_cache.Config.{CacheConfig, entry_elems}
use paged_kv_cache.Cpu.{CpuBackend, plane, slot_offset, validate, write_kv, read_kv}
use paged_kv_cache.Cpu.Layout.{InBounds, Apart, entry_fits, entries-Apart}

-- Both planes have the size of the geometry.
pub record Sized {F : Type 0} (b : CpuBackend F) : Type 0 where
  pub k_size : b.k.size ≡ plane b.config
  pub v_size : b.v.size ≡ plane b.config

pub pair-eq : {A B : Type 0} {a c : A} {b d : B} → a ≡ c → b ≡ d → ◌≡◌ {A = A × B} (a, b) (c, d)
pair-eq p q = cc

-- The K and V of an entry.
abbrev pub stored : {F : Type 0} → CpuBackend F → ℕ → PhysicalSlot → List F × List F
stored b layer at = (
  elements b.k (slot_offset b.config layer at) (entry_elems b.config),
  elements b.v (slot_offset b.config layer at) (entry_elems b.config),
)

-- One entry is written, and no other.
pub record Written {F : Type 0} (b : CpuBackend F) (layer : ℕ) (at : PhysicalSlot) (k v : List F)
    (c : CpuBackend F) : Type 0 where
  pub sized : Sized c
  pub config : c.config ≡ b.config
  pub entry : stored c layer at ≡ (k, v)
  pub others :
      (layer' : ℕ) (at' : PhysicalSlot)
      → InBounds b.config layer' at'
      → Apart layer at layer' at'
      → stored c layer' at' ≡ stored b layer' at'

-- What `validate` refuses, in the order of its tests.
pub data OutOfBounds (c : CacheConfig) (layer : ℕ) (at : PhysicalSlot) : CacheError → Type 0 where
  layer_high : c.num_layers ≤ layer → OutOfBounds c layer at (invalid_layer layer c.num_layers)
  block_high :
      layer < c.num_layers
      → c.num_blocks ≤ at.block
      → OutOfBounds c layer at (invalid_block at.block c.num_blocks)
  slot_high :
      layer < c.num_layers
      → at.block < c.num_blocks
      → c.block_size ≤ at.slot
      → OutOfBounds c layer at (slot_out_of_range at.slot c.block_size)

-- Either an entry is in bounds, or `validate` says why not.
pub validate-cases :
    {S : Type 0} (c : CacheConfig) (layer : ℕ) (at : PhysicalSlot) (s : S)
    → (InBounds c layer at × (validate c layer at s ≡ ok tt s))
      ⊎ ((e : CacheError) × OutOfBounds c layer at e × (validate c layer at s ≡ err e s))
unfolding validate
validate-cases c layer at s = elim (dec_lt layer c.num_layers) [
  | no l ↦ inr (_, layer_high (omega (arith, l)), ground arith)
  | yes l ↦ elim (dec_lt at.block c.num_blocks) [
    | no b ↦ inr (_, block_high l (omega (arith, b)), ground arith)
    | yes b ↦ elim (dec_lt at.slot c.block_size) [
      | no r ↦ inr (_, slot_high l b (omega (arith, r)), ground arith)
      | yes r ↦ inl (record { layer_lt = l; block_lt = b; slot_lt = r }, ground arith)
    ]
  ]
]

validate-eq :
    {S : Type 0} (c : CacheConfig) (layer : ℕ) (at : PhysicalSlot) (s : S)
    → InBounds c layer at
    → validate c layer at s ≡ ok tt s
unfolding validate
validate-eq c layer at s i = ground (arith, i.layer_lt, i.block_lt, i.slot_lt)

-- What `write_kv` refuses once the entry is in bounds: a buffer that is no entry long.
abbrev pub Misshaped : {F : Type 0} → ℕ → List F → List F → CacheError → Type 0
Misshaped n k v e =
    ((length k ≢ n) × (e ≡ shape_mismatch n (length k)))
    ⊎ ((length k ≡ n) × (length v ≢ n) × (e ≡ shape_mismatch n (length v)))

module _ {F : Type 0} (b : CpuBackend F) (layer : ℕ) (at : PhysicalSlot) (z : Sized b) where
  -- An entry in bounds is read into buffers of its size.
  pub read_kv-eq :
      InBounds b.config layer at
      → read_kv layer at (entry_elems b.config) (entry_elems b.config) b ≡ ok (stored b layer at) b
  unfolding read_kv
  read_kv-eq i =
      ground (
        arith,
        validate-eq b.config layer at b i,
        z.k_size,
        z.v_size,
        entry_fits b.config layer at i,
      )

  pub reads :
      (k v : List F)
      → InBounds b.config layer at
      → stored b layer at ≡ (k, v)
      → read_kv layer at (entry_elems b.config) (entry_elems b.config) b ≡ ok (k, v) b
  reads k v i e = read_kv-eq i ∙ ap (λ x. ok x b) e

  module _ (k v : List F) where
    abbrev written : CpuBackend F
    written = record b {
      k = overwrite b.k (slot_offset b.config layer at) k;
      v = overwrite b.v (slot_offset b.config layer at) v;
    }

    write_kv-eq :
        InBounds b.config layer at
        → length k ≡ entry_elems b.config
        → length v ≡ entry_elems b.config
        → write_kv layer at k v b ≡ ok tt written
    unfolding write_kv
    write_kv-eq i lk lv = ground (
      arith,
      validate-eq b.config layer at b i,
      lk,
      lv,
      z.k_size,
      z.v_size,
      entry_fits b.config layer at i,
    )

    written-Written :
        InBounds b.config layer at
        → length k ≡ entry_elems b.config
        → length v ≡ entry_elems b.config
        → Written b layer at k v written
    written-Written i lk lv = record {
      sized = record { k_size = z.k_size; v_size = z.v_size };
      config = refl;
      entry =
          pair-eq
            (elements-overwrite b.k (slot_offset b.config layer at) k (entry_elems b.config) lk)
            (elements-overwrite b.v (slot_offset b.config layer at) v (entry_elems b.config) lv);
      others = λ layer' at' i' a.
          let apart = entries-Apart b.config layer layer' at at' i i' a in
          pair-eq
            (elements-overwrite_apart b.k (slot_offset b.config layer at) k
              (slot_offset b.config layer' at') (entry_elems b.config) (rw lk apart))
            (elements-overwrite_apart b.v (slot_offset b.config layer at) v
              (slot_offset b.config layer' at') (entry_elems b.config) (rw lv apart));
    }

    pub write_kv-Returns :
        InBounds b.config layer at
        → length k ≡ entry_elems b.config
        → length v ≡ entry_elems b.config
        → Returns (λ _ c. Written b layer at k v c) (write_kv layer at k v b)
    write_kv-Returns i lk lv = rw (write_kv-eq i lk lv) (written-Written i lk lv)

    -- `write_kv` of a memory of the right size writes one entry and no other; an entry out of
    -- bounds and rows of the wrong length are refused, each with its error, in the order of the
    -- tests, and nothing changes.
    pub write_kv-Post :
        Post
          (λ _ c. InBounds b.config layer at × Written b layer at k v c)
          (λ e c.
            (c ≡ b)
            × (OutOfBounds b.config layer at e
                ⊎ (InBounds b.config layer at × Misshaped (entry_elems b.config) k v e)))
          (write_kv layer at k v b)
    unfolding write_kv
    write_kv-Post = elim (validate-cases b.config layer at b) [
      | inr (e, o, p) ↦
          let r : write_kv layer at k v b ≡ err e b = ground (arith, p) in rw r (refl, inl o)
      | inl (i, p) ↦ elim (ℕ_discrete (length k) (entry_elems b.config)) [
        | no lk ↦
            let r : write_kv layer at k v b
                ≡ err (shape_mismatch (entry_elems b.config) (length k)) b =
              ground (arith, p, lk) in
            rw r (refl, inr (i, inl (lk, refl)))
        | yes lk ↦ elim (ℕ_discrete (length v) (entry_elems b.config)) [
          | no lv ↦
              let r : write_kv layer at k v b
                  ≡ err (shape_mismatch (entry_elems b.config) (length v)) b =
                ground (arith, p, lk, lv) in
              rw r (refl, inr (i, inr (lk, lv, refl)))
          | yes lv ↦ rw (write_kv-eq i lk lv) (i, written-Written i lk lv)
        ]
      ]
    ]
