-- ===== src/BlockTable/Tail.antt =====
-- `append` of block_table.rs when the tail has room: a write in place, or a copy of a shared tail.

use paged_kv_cache.Prelude.{
  ℕ, ◌+◌, ◌/◌, ◌%◌, ◌≤◌, ◌<◌, ◌≡◌, ◌≢◌, refl, ◌∙◌, none, some, List, ltb, length, count, get_elem?,
  arith,
}
use paged_kv_cache.Outcome.{ok}
use paged_kv_cache.Allocator.Entries.{Older-same, Older-trans}
use paged_kv_cache.Allocator.{Allocator, allocate, decref, is_shared}
use paged_kv_cache.Allocator.Allocate.{Allocated}
use paged_kv_cache.Allocator.Release.{Decref}
use paged_kv_cache.BlockTable.{BlockTable, last?, set_last, write_tail, append}
use paged_kv_cache.BlockTable.Arithmetic.{
  div_ceil-eq, div_ceil-suc, count-last?, count-set_last, length-set_last, get_elem?-last,
  get_elem?-set_last, last?-last_or,
}
use paged_kv_cache.BlockTable.Owned.{
  Fits, Owns, Appended, tail, held, slot_at, with_blocks, is_shared-eq, has_room-eq, take_slot-eq,
}

module _ (others : ℕ → ℕ) (t : BlockTable) (a : Allocator) (f : Fits t) (w : Owns others t a)
    (part : t.num_tokens % t.block_size ≢ 0) where
  pub part_length : length t.blocks ≡ t.num_tokens / t.block_size + 1
  part_length = ground (arith, f.blocks, div_ceil-eq t.num_tokens t.block_size f.positive)

  pub tail_lem : last? t.blocks ≡ some (tail t)
  tail_lem = last?-last_or 0 t.blocks (omega (arith, part_length))

  pub tail_facts :
      (tail t < a.num_blocks)
      × (0 < count (tail t) t.blocks)
      × (0 < a.ref_counts.at (tail t))
      × (a.ref_counts.at (tail t) ≡ count (tail t) t.blocks + others (tail t))
  tail_facts =
      ground (arith, count-last? (tail t) t.blocks tail_lem, w.within (tail t), w.counts (tail t))

  tail_at : get_elem? t.blocks (t.num_tokens / t.block_size) ≡ some (tail t)
  tail_at = get_elem?-last (tail t) _ t.blocks tail_lem (omega (arith, part_length))

  pub tail_shared : is_shared (tail t) a ≡ ok (ltb 1 (a.ref_counts.at (tail t))) a
  tail_shared = is_shared-eq a w.valid.0 (tail t) w.valid.1 tail_facts.0

  pub write-eq :
      a.ref_counts.at (tail t) ≤ 1
      → append (held t a) ≡ ok (slot_at t (tail t), none) (held (with_blocks t t.blocks) a)
  unfolding append write_tail
  write-eq one = ground (
    arith,
    has_room-eq t (held t a) f,
    tail_lem,
    tail_shared,
    take_slot-eq t a (tail t) f.positive tail_at,
  )

  pub write-Appended :
      a.ref_counts.at (tail t) ≤ 1
      → Appended others t a (slot_at t (tail t)) none (with_blocks t t.blocks) a
  write-Appended one = record {
    fits = record {
      positive = f.positive;
      blocks = omega (arith, part_length, div_ceil-suc t.num_tokens t.block_size f.positive);
    };
    owns = record { valid = w.valid; counts = w.counts; within = w.within };
    tokens = refl;
    size = refl;
    blocks = refl;
    caches = refl;
    placed = tail_at;
    offset = refl;
    in_pool = tail_facts.0;
    exclusive = omega (arith, tail_facts);
    diverges = λ k h. refl;
    distinct = λ h. h;
    older = Older-same a.cache a.cache refl;
    lazy = ground arith;
    free = ground arith;
  }

  pub copy-eq :
      (id rc : ℕ) (b c : Allocator)
      → 1 < a.ref_counts.at (tail t)
      → allocate a ≡ ok id b
      → decref (tail t) b ≡ ok rc c
      → append (held t a)
        ≡ ok
            (slot_at t id, some (record { src = tail t; dst = id }))
            (held (with_blocks t (set_last t.blocks id)) c)
  unfolding append write_tail
  copy-eq id rc b c many p q = ground (
    arith,
    has_room-eq t (held t a) f,
    tail_lem,
    tail_shared,
    part_length,
    get_elem?-set_last id (t.num_tokens / t.block_size) t.blocks,
    take_slot-eq (record t { blocks = set_last t.blocks id }) c id f.positive,
  )

  pub copy-Appended :
      (order : List ℕ) (id rc : ℕ) (b c : Allocator)
      → 1 < a.ref_counts.at (tail t)
      → Allocated order a id b
      → Decref b (tail t) rc c
      → Appended others t a
          (slot_at t id)
          (some (record { src = tail t; dst = id }))
          (with_blocks t (set_last t.blocks id))
          c
  copy-Appended order id rc b c many al de = record {
    fits = record {
      positive = f.positive;
      blocks = omega (
        arith,
        length-set_last t.blocks id,
        part_length,
        div_ceil-suc t.num_tokens t.block_size f.positive,
      );
    };
    owns = record {
      valid = de.valid;
      counts = λ i h. ground (
        arith,
        al.counts i,
        al.counts (tail t),
        al.blocks,
        al.unowned,
        de.counts i,
        de.blocks,
        de.before,
        w.counts i,
        count-set_last i (tail t) id t.blocks tail_lem,
      );
      within = λ i h. ground (
        arith,
        al.blocks,
        al.in_pool,
        de.blocks,
        w.within i,
        tail_facts,
        count-set_last i (tail t) id t.blocks tail_lem,
      );
    };
    tokens = refl;
    size = refl;
    blocks = de.blocks ∙ al.blocks;
    caches = de.caches ∙ al.caches;
    placed =
        ground (arith, part_length, get_elem?-set_last id (t.num_tokens / t.block_size) t.blocks);
    offset = refl;
    in_pool = omega (arith, al.in_pool, al.blocks, de.blocks);
    exclusive = ground (arith, al.counts id, al.unowned, al.in_pool, de.counts id, w.counts id);
    diverges = (
      refl,
      ground (arith, al.unowned),
      tail_at,
      λ k ne. ground (arith, part_length, get_elem?-set_last id k t.blocks),
    );
    distinct = λ h i. ground (
      arith,
      h i,
      al.unowned,
      w.counts id,
      al.in_pool,
      count-set_last i (tail t) id t.blocks tail_lem,
    );
    older = Older-trans a.cache b.cache c.cache al.older de.older;
    lazy = ground arith;
    free = ground (arith, al.free, de.free, de.before, al.counts (tail t), al.unowned);
  }
