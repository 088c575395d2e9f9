-- ===== src/BlockTable/Append.antt =====
-- What `append` of block_table.rs does to a table, to the pool and to the other tables over it.
use native.Mathlib.Decide.{dec_lt, ℕ_discrete}
use paged_kv_cache.Prelude.{
  ℕ, ◌/◌, ◌%◌, ◌≤◌, ◌<◌, ◌≡◌, ◌≢◌, refl, none, List, [], ◌∷◌, ◌++◌, length, length-append,
  count-append, arith,
}
use paged_kv_cache.Error.{out_of_blocks}
use paged_kv_cache.Outcome.{ok, err, Returns, Returns-eq}
use paged_kv_cache.Allocator.{Allocator, num_free, allocate, decref}
use paged_kv_cache.Allocator.Allocate.{Allocated, allocate-Returns, allocate_fails}
use paged_kv_cache.Allocator.Release.{decref-Returns}
use paged_kv_cache.BlockTable.{BlockTable, write_tail, grow, append}
use paged_kv_cache.BlockTable.Arithmetic.{div_ceil-eq, div_ceil-suc, get_elem?-append}
use paged_kv_cache.BlockTable.Tail.{
  tail_facts, tail_lem, tail_shared, write-eq, write-Appended, copy-eq, copy-Appended,
}
use paged_kv_cache.BlockTable.Owned.{
  Fits, Owns, Appended, tail, cost, held, slot_at, with_blocks, has_room-eq, take_slot-eq,
}

module _ (others : ℕ → ℕ) (t : BlockTable) (a : Allocator) (f : Fits t) (w : Owns others t a)
    (full : t.num_tokens % t.block_size ≡ 0) where
  full_length : length t.blocks ≡ t.num_tokens / t.block_size
  full_length = ground (arith, f.blocks, div_ceil-eq t.num_tokens t.block_size f.positive)

  grow-eq :
      (id : ℕ) (b : Allocator)
      → allocate a ≡ ok id b
      → append (held t a) ≡ ok (slot_at t id, none) (held (with_blocks t (t.blocks ++ id ∷ [])) b)
  unfolding append grow
  grow-eq id b p = ground (
    arith,
    has_room-eq t (held t a) f,
    full_length,
    get_elem?-append id (length t.blocks) t.blocks,
    take_slot-eq (record t { blocks = t.blocks ++ id ∷ [] }) b id f.positive,
  )

  grow-Appended :
      (order : List ℕ) (id : ℕ) (b : Allocator)
      → Allocated order a id b
      → Appended others t a (slot_at t id) none (with_blocks t (t.blocks ++ id ∷ [])) b
  grow-Appended order id b al = record {
    fits = record {
      positive = f.positive;
      blocks = omega (
        arith,
        length-append t.blocks (id ∷ []),
        full_length,
        div_ceil-suc t.num_tokens t.block_size f.positive,
      );
    };
    owns = record {
      valid = al.valid;
      counts = λ i h. ground (
        arith,
        al.counts i,
        al.blocks,
        al.unowned,
        w.counts i,
        count-append i t.blocks (id ∷ []),
      );
      within = λ i h.
          ground (arith, al.blocks, al.in_pool, w.within i, count-append i t.blocks (id ∷ []));
    };
    tokens = refl;
    size = refl;
    blocks = al.blocks;
    caches = al.caches;
    placed = ground (arith, full_length, get_elem?-append id (length t.blocks) t.blocks);
    offset = refl;
    in_pool = omega (arith, al.in_pool, al.blocks);
    exclusive = ground (arith, al.counts id, al.unowned, al.in_pool, w.counts id);
    diverges = λ k h. ground (arith, get_elem?-append id k t.blocks);
    distinct = λ h i.
        ground (arith, h i, al.unowned, w.counts id, al.in_pool, count-append i t.blocks (id ∷ []));
    older = al.older;
    lazy = ground arith;
    free = ground (arith, al.free);
  }

module _ (others : ℕ → ℕ) (t : BlockTable) (a : Allocator) (f : Fits t) (w : Owns others t a) where
  append_starved :
      allocate a ≡ err (out_of_blocks 1 0) a
      → cost t a ≡ 1
      → append (held t a) ≡ err (out_of_blocks 1 0) (held t a)
  unfolding append grow write_tail
  append_starved p c = elim (ℕ_discrete (t.num_tokens % t.block_size) 0) [
    | yes full ↦ ground (arith, has_room-eq t (held t a) f)
    | no part ↦ ground (
      arith,
      has_room-eq t (held t a) f,
      tail_lem others t a f w part,
      tail_shared others t a f w part,
    )
  ]

  append_copied :
      t.num_tokens % t.block_size ≢ 0
      → 1 < a.ref_counts.at (tail t)
      → 0 < num_free a
      → Returns (λ r s. Appended others t a r.0 r.1 s.table s.allocator) (append (held t a))
  append_copied part many room =
      let (id, b, p, al) =
        Returns-eq _ (allocate a) (allocate-Returns w.valid.0 a w.valid.1 room) in
      let facts = tail_facts others t a f w part in
      let (rc, c, q, de) = Returns-eq _ (decref (tail t) b) (
        decref-Returns al.valid.0 b (tail t) al.valid.1 (omega (arith, al.blocks, facts))
          (ground (arith, al.counts (tail t), al.unowned))) in
      rw (copy-eq others t a f w part id rc b c many p q)
        (copy-Appended others t a f w part w.valid.0 id rc b c many al de)

  append_grown :
      t.num_tokens % t.block_size ≡ 0
      → 0 < num_free a
      → Returns (λ r s. Appended others t a r.0 r.1 s.table s.allocator) (append (held t a))
  append_grown full room =
      let (id, b, p, al) =
        Returns-eq _ (allocate a) (allocate-Returns w.valid.0 a w.valid.1 room) in
      rw (grow-eq others t a f w full id b p) (grow-Appended others t a f w full w.valid.0 id b al)

  -- Over a valid pool whose counts are the owners of each block, with the blocks that the next
  -- token takes free, `append` succeeds and keeps all that: it takes the next position's slot, in a
  -- block that this table alone owns afterwards, copying the tail to a fresh block first exactly
  -- when the tail has room and another table shares it; every other block of the table stays.
  pub append-Returns :
      cost t a ≤ num_free a
      → Returns (λ r s. Appended others t a r.0 r.1 s.table s.allocator) (append (held t a))
  append-Returns h = elim (ℕ_discrete (t.num_tokens % t.block_size) 0) [
    | yes full ↦ append_grown full (ground arith)
    | no part ↦ elim (dec_lt 1 (a.ref_counts.at (tail t))) [
      | yes many ↦ append_copied part many (ground arith)
      | no one ↦
          rw (write-eq others t a f w part (omega arith))
            (write-Appended others t a f w part (omega arith))
    ]
  ]

  -- Over a valid pool with fewer blocks free than the next token takes, `append` reports that no
  -- block is left, and changes neither table nor pool.
  pub append_fails : num_free a < cost t a → append (held t a) ≡ err (out_of_blocks 1 0) (held t a)
  append_fails h =
      append_starved (allocate_fails w.valid.0 a w.valid.1 (ground arith)) (ground arith)
