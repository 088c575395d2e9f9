-- ===== src/Cpu/Blocks.antt =====
-- What `copy_block` and `zero_block` of cpu.rs do to every entry.
use paged_kv_cache.Prelude.{
  ℕ, zero, suc, ◌*◌, ◌≤◌, ◌<◌, ◌≡◌, ◌≢◌, ◌⊎◌, refl, inl, inr, sym, ap, subst, ◌∙◌, arith,
}
use native.Mathlib.Decide.{dec_lt, ℕ_discrete}
use paged_kv_cache.Error.{PhysicalSlot, CacheError, invalid_block}
use paged_kv_cache.Outcome.{ok, err, Post, Returns, Returns-eq}
use paged_kv_cache.Slices.{moved, elements-moved, elements-moved_apart}
use paged_kv_cache.Config.{CacheConfig, entry_elems, block_elems}
use paged_kv_cache.Cpu.{CpuBackend, block_offset, slot_offset, copy_layers, copy_block}
use paged_kv_cache.Cpu.Layout.{InBounds, entry_within, entry_apart, block_fits, blocks_apart}
use paged_kv_cache.Cpu.Slots.{Sized, stored, pair-eq}

abbrev pub slot_in : ℕ → ℕ → PhysicalSlot
slot_in block slot = record { block = block; slot = slot }

-- The first `n` layers of block `dst` are those of `src`; every other entry is as before.
pub record Copied {F : Type 0} (b : CpuBackend F) (src dst n : ℕ) (c : CpuBackend F) : Type 0 where
  pub sized : Sized c
  pub config : c.config ≡ b.config
  pub copies :
      (layer slot : ℕ)
      → layer < n
      → InBounds b.config layer (slot_in dst slot)
      → stored c layer (slot_in dst slot) ≡ stored b layer (slot_in src slot)
  pub others :
      (layer : ℕ) (at : PhysicalSlot)
      → InBounds b.config layer at
      → (n ≤ layer) ⊎ (at.block ≢ dst)
      → stored c layer at ≡ stored b layer at

-- Layer `n` of a block copied.
abbrev layer_copied : {F : Type 0} → CpuBackend F → ℕ → ℕ → ℕ → CpuBackend F
layer_copied b src dst n = record b {
  k = moved b.k (block_offset b.config n src) (block_elems b.config) (block_offset b.config n dst);
  v = moved b.v (block_offset b.config n src) (block_elems b.config) (block_offset b.config n dst);
}

module _ {F : Type 0} (b : CpuBackend F) (src dst n : ℕ) (z : Sized b)
    (src_lt : src < b.config.num_blocks) (dst_lt : dst < b.config.num_blocks)
    (layer_lt : n < b.config.num_layers) where
  layer_entry :
      (slot : ℕ)
      → InBounds b.config n (slot_in dst slot)
      → stored (layer_copied b src dst n) n (slot_in dst slot) ≡ stored b n (slot_in src slot)
  layer_entry slot i =
      let within = entry_within b.config n (slot_in dst slot) i in
      pair-eq
        (elements-moved b.k (block_offset b.config n src) (block_elems b.config)
          (block_offset b.config n dst) (slot * entry_elems b.config) (entry_elems b.config) within)
        (elements-moved b.v (block_offset b.config n src) (block_elems b.config)
          (block_offset b.config n dst) (slot * entry_elems b.config) (entry_elems b.config) within)

  layer_others :
      (layer : ℕ) (at : PhysicalSlot)
      → InBounds b.config layer at
      → (n ≢ layer) ⊎ (dst ≢ at.block)
      → stored (layer_copied b src dst n) layer at ≡ stored b layer at
  layer_others layer at i a =
      let within = entry_within b.config layer at i in
      let apart = blocks_apart b.config n layer dst at.block dst_lt i.block_lt a in
      pair-eq
        (elements-moved_apart b.k (block_offset b.config n src) (block_elems b.config)
          (block_offset b.config n dst) (slot_offset b.config layer at) (entry_elems b.config)
          (entry_apart _ _ _ _ _ apart within))
        (elements-moved_apart b.v (block_offset b.config n src) (block_elems b.config)
          (block_offset b.config n dst) (slot_offset b.config layer at) (entry_elems b.config)
          (entry_apart _ _ _ _ _ apart within))

pub copy_layers-step :
    {F : Type 0} (n src dst : ℕ) (b c : CpuBackend F)
    → Sized c
    → src < c.config.num_blocks
    → dst < c.config.num_blocks
    → n < c.config.num_layers
    → copy_layers n src dst b ≡ ok tt c
    → copy_layers (suc n) src dst b ≡ ok tt (layer_copied c src dst n)
unfolding copy_layers
copy_layers-step n src dst b c z hs hd hn p =
    ground (
      arith,
      p,
      z.k_size,
      z.v_size,
      block_fits c.config n src hn hs,
      block_fits c.config n dst hn hd,
    )

Copied-more :
    {F : Type 0} (n src dst : ℕ) (b c : CpuBackend F)
    → src < b.config.num_blocks
    → dst < b.config.num_blocks
    → n < b.config.num_layers
    → Copied b src dst n c
    → Copied b src dst (suc n) (layer_copied c src dst n)
Copied-more n src dst b c hs hd hn x = record {
  sized = record { k_size = x.sized.k_size; v_size = x.sized.v_size };
  config = x.config;
  copies = λ layer slot l i. elim (ℕ_discrete n layer) [
    | yes e ↦ same_layer layer slot e i
    | no ne ↦
        layer_others c src dst n x.sized hs' hd' hn' layer (slot_in dst slot) (in_c layer _ i)
          (inl ne)
        ∙ x.copies layer slot (omega (arith, l, ne)) i
  ];
  others = λ layer at i a.
      layer_others c src dst n x.sized hs' hd' hn' layer at (in_c layer at i) (apart layer at a)
      ∙ x.others layer at i (weaker layer at a);
}
  where
    in_c : (layer : ℕ) (at : PhysicalSlot) → InBounds b.config layer at → InBounds c.config layer at
    in_c layer at i = subst (λ g. InBounds g layer at) (sym x.config) i

    hs' : src < c.config.num_blocks
    hs' = subst (λ g. src < g.num_blocks) (sym x.config) hs

    hd' : dst < c.config.num_blocks
    hd' = subst (λ g. dst < g.num_blocks) (sym x.config) hd

    hn' : n < c.config.num_layers
    hn' = subst (λ g. n < g.num_layers) (sym x.config) hn

    same_layer :
        (layer slot : ℕ)
        → n ≡ layer
        → InBounds b.config layer (slot_in dst slot)
        → stored (layer_copied c src dst n) layer (slot_in dst slot)
          ≡ stored b layer (slot_in src slot)
    same_layer layer slot e i =
        subst
          (λ m.
            stored (layer_copied c src dst n) m (slot_in dst slot) ≡ stored b m (slot_in src slot))
          e
          (layer_entry c src dst n x.sized hs' hd' hn' slot (
              in_c n (slot_in dst slot)
                (subst (λ m. InBounds b.config m (slot_in dst slot)) (sym e) i))
            ∙ x.others n (slot_in src slot)
                (record { layer_lt = hn; block_lt = hs; slot_lt = i.slot_lt }) (inl (omega arith)))

    apart :
        (layer : ℕ) (at : PhysicalSlot)
        → (suc n ≤ layer) ⊎ (at.block ≢ dst)
        → (n ≢ layer) ⊎ (dst ≢ at.block)
    apart layer at (inl h) = inl (λ e. omega (arith, h, e))
    apart layer at (inr h) = inr (λ e. h (sym e))

    weaker :
        (layer : ℕ) (at : PhysicalSlot)
        → (suc n ≤ layer) ⊎ (at.block ≢ dst)
        → (n ≤ layer) ⊎ (at.block ≢ dst)
    weaker layer at (inl h) = inl (omega (arith, h))
    weaker layer at (inr h) = inr h

copy_layers-Copied :
    {F : Type 0} (n src dst : ℕ) (b : CpuBackend F)
    → Sized b
    → src < b.config.num_blocks
    → dst < b.config.num_blocks
    → n ≤ b.config.num_layers
    → Returns (λ _ c. Copied b src dst n c) (copy_layers n src dst b)
unfolding copy_layers
copy_layers-Copied zero src dst b z hs hd hn = record {
  sized = z;
  config = refl;
  copies = λ layer slot l i. absurd (omega (arith, l));
  others = λ layer at i a. refl;
}
copy_layers-Copied (suc n) src dst b z hs hd hn =
    let (_, c, p, x) =
      Returns-eq _ (copy_layers n src dst b)
        (copy_layers-Copied n src dst b z hs hd (omega (arith, hn))) in
    rw
      (copy_layers-step n src dst b c x.sized (subst (λ g. src < g.num_blocks) (sym x.config) hs)
        (subst (λ g. dst < g.num_blocks) (sym x.config) hd)
        (subst (λ g. n < g.num_layers) (sym x.config) hn) p)
      (Copied-more n src dst b c hs hd hn x)

-- Which block of a copy `copy_block` refuses.
abbrev pub NoBlock : CacheConfig → ℕ → ℕ → CacheError → Type 0
NoBlock c src dst e =
    ((c.num_blocks ≤ src) × (e ≡ invalid_block src c.num_blocks))
    ⊎ ((src < c.num_blocks) × (c.num_blocks ≤ dst) × (e ≡ invalid_block dst c.num_blocks))

Copied-self :
    {F : Type 0} (src dst : ℕ) (b : CpuBackend F)
    → Sized b
    → src ≡ dst
    → Copied b src dst b.config.num_layers b
Copied-self src dst b z e = record {
  sized = z;
  config = refl;
  copies = λ layer slot l i. ap (λ x. stored b layer (slot_in x slot)) (sym e);
  others = λ layer at i a. refl;
}

-- `copy_block` of a memory of the right size makes every layer of the target hold what the source
-- holds, in K and V, and changes no entry of another block; a block out of bounds is refused and
-- nothing changes.
pub copy_block-Post :
    {F : Type 0} (src dst : ℕ) (b : CpuBackend F)
    → Sized b
    → Post
        (λ _ c. Copied b src dst b.config.num_layers c)
        (λ e c. (c ≡ b) × NoBlock b.config src dst e)
        (copy_block src dst b)
unfolding copy_block
copy_block-Post src dst b z = elim (dec_lt src b.config.num_blocks) [
  | no s ↦
      let r : copy_block src dst b ≡ err (invalid_block src b.config.num_blocks) b =
        ground (arith, s) in
      rw r (refl, inl (omega (arith, s), refl))
  | yes s ↦ elim (dec_lt dst b.config.num_blocks) [
    | no d ↦
        let r : copy_block src dst b ≡ err (invalid_block dst b.config.num_blocks) b =
          ground (arith, s, d) in
        rw r (refl, inr (s, omega (arith, d), refl))
    | yes d ↦ elim (ℕ_discrete src dst) [
      | yes e ↦
          let r : copy_block src dst b ≡ ok tt b = ground (arith, s, d, e) in
          rw r (Copied-self src dst b z e)
      | no ne ↦
          let (_, c, p, x) =
            Returns-eq _ (copy_layers b.config.num_layers src dst b)
              (copy_layers-Copied b.config.num_layers src dst b z s d (omega arith)) in
          let r : copy_block src dst b ≡ ok tt c = ground (arith, s, d, ne, p) in rw r x
    ]
  ]
]
