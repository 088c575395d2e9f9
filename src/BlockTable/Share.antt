-- ===== src/BlockTable/Share.antt =====
-- What `fork` and `free` of block_table.rs, and `decref_many` of allocator.rs, do to the pool.
use paged_kv_cache.Prelude.{
  ℕ, ◌+◌, ◌≤◌, ◌<◌, ◌≡◌, refl, ◌∙◌, List, [], ◌∷◌, count, count-reverse, is_some, reverse, arith,
}
use paged_kv_cache.Outcome.{ok, Returns, Returns-eq}
use paged_kv_cache.Allocator.{Allocator, max_refcount, num_free, decref, decref_many}
use paged_kv_cache.Allocator.Entries.{Older, Older-same, Older-trans}
use paged_kv_cache.Allocator.Invariant.{cached, Inv, IsValid}
use paged_kv_cache.Allocator.Counts.{counted, counted-Inv, incref-eq}
use paged_kv_cache.Allocator.Release.{decref-Returns}
use paged_kv_cache.BlockTable.{BlockTable, incref_all, fork, free}
use paged_kv_cache.BlockTable.Owned.{Owns}

-- Each block has one owner more for each time that it is in the list; nothing else changes.
pub record Shared (a : Allocator) (ids : List ℕ) (b : Allocator) : Type 0 where
  pub valid : IsValid b
  pub blocks : b.num_blocks ≡ a.num_blocks
  pub counts : (i : ℕ) → b.ref_counts.at i ≡ a.ref_counts.at i + count i ids
  pub free_list : b.free_list ≡ a.free_list
  pub cache : b.cache ≡ a.cache

incref_all-Shared :
    (ids : List ℕ) (order : List ℕ) (a : Allocator)
    → Inv order a
    → ((i : ℕ) → 0 < count i ids → (i < a.num_blocks) × (0 < a.ref_counts.at i))
    → ((i : ℕ) → 0 < count i ids → a.ref_counts.at i + count i ids ≤ max_refcount)
    → Returns (λ _ b. Shared a ids b) (incref_all ids a)
unfolding incref_all
incref_all-Shared [] order a v h l = record {
  valid = (order, v);
  blocks = refl;
  counts = λ i. omega arith;
  free_list = refl;
  cache = refl;
}
incref_all-Shared (id ∷ ids) order a v h l =
    let rc : ℕ = a.ref_counts.at id in
    let (in_pool, owned) = h id (ground arith) in
    let room : rc < max_refcount = ground (arith, l id) in
    let b : Allocator = counted a id (rc + 1) in
    let p = incref-eq a id v.size in_pool owned room in
    let (u, c, q, x) = Returns-eq _ (incref_all ids b) (
      incref_all-Shared ids order b
        (counted-Inv order a id (rc + 1) v owned (omega arith) (omega arith))
        (λ i k. ground (arith, h i)) (λ i k. ground (arith, l i))) in
    let r : incref_all (id ∷ ids) a ≡ ok tt c = ground (arith, p, q) in
    rw r (record {
      valid = x.valid;
      blocks = x.blocks;
      counts = λ i. ground (arith, x.counts i);
      free_list = x.free_list;
      cache = x.cache;
    })

-- `fork` of a table over a valid pool, where no count of the table's blocks passes the limit,
-- returns a child with the same blocks that owns each of them once more; no block is taken from the
-- pool and nothing cached changes.
pub fork-Returns :
    (others : ℕ → ℕ) (t : BlockTable) (a : Allocator)
    → Owns others t a
    → ((i : ℕ) → 0 < count i t.blocks → a.ref_counts.at i + count i t.blocks ≤ max_refcount)
    → Returns
        (λ child b.
          (child ≡ t)
          × Owns (λ i. count i t.blocks + others i) child b
          × (num_free b ≡ num_free a)
          × (b.num_blocks ≡ a.num_blocks)
          × (b.cache ≡ a.cache))
        (fork t a)
unfolding fork
fork-Returns others t a w l =
    let (u, b, p, x) = Returns-eq _ (incref_all t.blocks a) (
      incref_all-Shared t.blocks w.valid.0 a w.valid.1
        (λ i k. ground (arith, w.within i, w.counts i)) l) in
    let q : fork t a ≡ ok t b = ground (arith, p) in
    rw q (
      refl,
      record {
        valid = x.valid;
        counts = λ i h. ground (arith, x.counts i, x.blocks, w.counts i);
        within = λ i h. ground (arith, x.blocks, w.within i);
      },
      ground (arith, x.free_list, x.cache),
      x.blocks,
      x.cache,
    )

-- Each block has one owner less for each time that it is in the list.
pub record Dropped (a : Allocator) (ids : List ℕ) (b : Allocator) : Type 0 where
  pub valid : IsValid b
  pub blocks : b.num_blocks ≡ a.num_blocks
  pub caches : is_some b.cache ≡ is_some a.cache
  pub counts : (i : ℕ) → i < a.num_blocks → b.ref_counts.at i + count i ids ≡ a.ref_counts.at i
  pub kept : (i : ℕ) → cached b.cache i ≡ cached a.cache i
  pub more_free : num_free a ≤ num_free b
  pub older : Older a.cache b.cache

-- `decref_many` of blocks that have these owners.
pub decref_many-Dropped :
    (ids : List ℕ) (order : List ℕ) (a : Allocator)
    → Inv order a
    → ((i : ℕ) → 0 < count i ids → i < a.num_blocks)
    → ((i : ℕ) → i < a.num_blocks → count i ids ≤ a.ref_counts.at i)
    → Returns (λ _ b. Dropped a ids b) (decref_many ids a)
unfolding decref_many
decref_many-Dropped [] order a v h l = record {
  valid = (order, v);
  blocks = refl;
  caches = refl;
  counts = λ i k. omega arith;
  kept = λ i. refl;
  more_free = omega arith;
  older = Older-same a.cache a.cache refl;
}
decref_many-Dropped (id ∷ ids) order a v h l =
    let (rc, b, p, d) =
      Returns-eq _ (decref id a)
        (decref-Returns order a id v (h id (ground arith)) (ground (arith, l id, h id))) in
    let (u, c, q, x) = Returns-eq _ (decref_many ids b) (
      decref_many-Dropped ids d.valid.0 b d.valid.1 (λ i k. ground (arith, h i, d.blocks))
        (λ i k. ground (arith, l i, d.counts i, d.before, d.blocks))) in
    let r : decref_many (id ∷ ids) a ≡ ok tt c = ground (arith, p, q) in
    rw r (record {
      valid = x.valid;
      blocks = x.blocks ∙ d.blocks;
      caches = x.caches ∙ d.caches;
      counts = λ i k. ground (arith, x.counts i, d.counts i, d.before, d.blocks);
      kept = λ i. x.kept i ∙ d.kept i;
      more_free = omega (arith, x.more_free, d.free);
      older = Older-trans a.cache b.cache c.cache d.older x.older;
    })

-- `free` of a table over a valid pool succeeds, keeps the pool valid and gives up exactly what the
-- table owns: afterwards each block has the owners that the other tables are, no fewer blocks are
-- free than before, and everything cached stays cached.
pub free-Returns :
    (others : ℕ → ℕ) (t : BlockTable) (a : Allocator)
    → Owns others t a
    → Returns
        (λ _ b.
          Dropped a (reverse t.blocks) b
          × ((i : ℕ) → i < b.num_blocks → b.ref_counts.at i ≡ others i))
        (free t a)
unfolding free
free-Returns others t a w =
    let (u, b, p, x) = Returns-eq _ (decref_many (reverse t.blocks) a) (
      decref_many-Dropped (reverse t.blocks) w.valid.0 a w.valid.1
        (λ i k. ground (arith, count-reverse i t.blocks, w.within i))
        (λ i k. ground (arith, count-reverse i t.blocks, w.counts i))) in
    rw p (x, λ i h. ground (arith, count-reverse i t.blocks, x.counts i, x.blocks, w.counts i))
