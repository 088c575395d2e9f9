-- ===== src/Allocator/Reuse.antt =====
-- What `acquire_cached` and `cache_block` of allocator.rs do to a valid pool.
use native.Mathlib.Decide.{ℕ_discrete}
use paged_kv_cache.Prelude.{
  ◌^◌, ◌≤◌, subst, ℕ, ◌+◌, ◌<◌, ◌≡◌, ◌≢◌, refl, inl, inr, true, none, some, List, ◌==◌,
  if◌then◌else◌, count, is_some, Option-cases, arith,
}
use paged_kv_cache.Outcome.{ok, Returns, Returns-eq}
use paged_kv_cache.Lru.{Lru, remove}
use paged_kv_cache.Lru.Order.{erase, count-erase, length-erase}
use paged_kv_cache.Lru.Refine.{Represents, remove-Represents, contains_lem}
use paged_kv_cache.PrefixCache.{PrefixIndex, root, insert}
use paged_kv_cache.PrefixCache.Agreement.{Agrees, Inserted, insert-Agrees}
use paged_kv_cache.Allocator.{
  Allocator, Cache, max_refcount, num_free, reclaim, acquire_unowned, acquire_cached, cache_block,
}
use paged_kv_cache.Allocator.Entries.{Older, Older-same, Ordered, next_entry, insert-Ordered}
use paged_kv_cache.Allocator.Invariant.{cached, Inv, IsValid, caching_of, num_free-eq}
use paged_kv_cache.Allocator.Counts.{counted, counted-Inv, incref-eq}

-- A block taken by reference: it has one owner more, and one block less is free if it had none.
pub record Acquired (a : Allocator) (id : ℕ) (rc : ℕ) (b : Allocator) : Type 0 where
  pub valid : IsValid b
  pub blocks : b.num_blocks ≡ a.num_blocks
  pub caches : is_some b.cache ≡ is_some a.cache
  pub in_pool : id < a.num_blocks
  pub after : rc ≡ a.ref_counts.at id + 1
  pub counts : (i : ℕ) → b.ref_counts.at i ≡ (if id == i then rc else a.ref_counts.at i)
  pub free : num_free b + (if a.ref_counts.at id == 0 then 1 else 0) ≡ num_free a
  pub kept : (i : ℕ) → cached b.cache i ≡ cached a.cache i
  pub older : Older a.cache b.cache

-- The state after an unowned cached block is reclaimed.
abbrev reclaimed : Allocator → Cache → Lru → ℕ → Allocator
reclaimed a c l id = record (counted a id 1) { cache = some (record c { evictable = l }) }

module _ (order : List ℕ) (a : Allocator) (id : ℕ) (v : Inv order a) (h : id < a.num_blocks) where
  acquire_owned :
      0 < a.ref_counts.at id
      → a.ref_counts.at id < max_refcount
      → Returns (Acquired a id) (acquire_cached id a)
  unfolding acquire_cached
  acquire_owned k l =
      let p : acquire_cached id a
          ≡ ok (a.ref_counts.at id + 1) (counted a id (a.ref_counts.at id + 1)) =
        ground (arith, v.size, incref-eq a id v.size h k l) in
      rw p (record {
        valid = (
          order,
          counted-Inv order a id (a.ref_counts.at id + 1) v k (omega arith) (omega arith),
        );
        blocks = refl;
        caches = refl;
        in_pool = h;
        after = refl;
        counts = λ i. refl;
        free = ground arith;
        kept = λ i. refl;
        older = Older-same a.cache a.cache refl;
      })

  module _ (c : Cache) (e : a.cache ≡ some c) (kept : cached a.cache id ≡ true)
      (unowned : a.ref_counts.at id ≡ 0) where
    in_order : count id order ≡ 1
    in_order = ground (arith, v.partition id h, v.clean id)

    reclaim-eq :
        (l : Lru)
        → remove id c.evictable ≡ ok tt l
        → acquire_cached id a ≡ ok 1 (reclaimed a c l id)
    unfolding acquire_cached acquire_unowned reclaim
    reclaim-eq l p = ground (
      arith,
      v.size,
      in_order,
      e,
      contains_lem a a.num_blocks c.evictable order id (caching_of v e).1 h,
    )

    reclaimed-Inv :
        (l : Lru)
        → Represents a.num_blocks l (erase id order)
        → Inv (erase id order) (reclaimed a c l id)
    reclaimed-Inv l r = record {
      size = v.size;
      small = v.small;
      bounded = λ i m. ground (arith, v.bounded i m);
      caching = ((caching_of v e).0, r);
      partition = λ i m. ground (arith, v.partition i m, in_order, count-erase id i order in_order);
      outside = λ i m. ground (arith, v.outside i m, count-erase id i order in_order);
      clean = λ i m. ground (arith, v.clean i m, e);
      held = λ i m. ground (arith, v.held i, e, count-erase id i order in_order);
    }

    reclaimed-Acquired :
        (l : Lru)
        → Represents a.num_blocks l (erase id order)
        → Acquired a id 1 (reclaimed a c l id)
    reclaimed-Acquired l r = record {
      valid = (erase id order, reclaimed-Inv l r);
      blocks = refl;
      caches = ground (arith, e);
      in_pool = h;
      after = omega arith;
      counts = λ i. refl;
      free = ground (arith, num_free-eq order a v, r.lens, length-erase id order in_order);
      kept = λ i. ground (arith, e);
      older = rw e (record { kept = λ i f k h. h; next = refl });
    }

    acquire_evictable : Returns (Acquired a id) (acquire_cached id a)
    acquire_evictable =
        let represents = (caching_of v e).1 in
        let (u, l, p, r) = Returns-eq _ (remove id c.evictable) (
          remove-Represents a.num_blocks c.evictable order id represents
            (omega (arith, in_order))) in
        rw (reclaim-eq l (cc)) (reclaimed-Acquired l r)

  -- In a valid pool `acquire_cached` of a cached block whose count is below the limit takes one
  -- more reference to it, owned or not: a block with no owner leaves the evictable blocks, so one
  -- block less is free; everything cached stays cached and the pool stays valid.
  pub acquire_cached-Acquired :
      cached a.cache id ≡ true
      → a.ref_counts.at id < max_refcount
      → Returns (Acquired a id) (acquire_cached id a)
  acquire_cached-Acquired kept room = elim (ℕ_discrete (a.ref_counts.at id) 0) [
    | no owned ↦ acquire_owned (omega arith) room
    | yes unowned ↦ elim (Option-cases a.cache) [
      | inl e ↦ absurd (ground (arith, e))
      | inr (c, e) ↦ acquire_evictable c e kept unowned
    ]
  ]

-- The content of an owned block registered: only what is cached under this block may change.
pub record Registered (a : Allocator) (id parent e : ℕ) (b : Allocator) : Type 0 where
  pub valid : IsValid b
  pub blocks : b.num_blocks ≡ a.num_blocks
  pub caches : is_some b.cache ≡ is_some a.cache
  pub counts : b.ref_counts ≡ a.ref_counts
  pub free : num_free b ≡ num_free a
  pub kept : (i : ℕ) → id ≢ i → cached b.cache i ≡ cached a.cache i
  pub ordered :
      Ordered a.cache
      → parent < next_entry a.cache
      → next_entry a.cache + 1 < 2 ^ 64
      → Ordered b.cache × (e < next_entry b.cache) × (next_entry b.cache ≤ next_entry a.cache + 1)

abbrev indexed : Allocator → Cache → PrefixIndex → Allocator
indexed a c x = record a { cache = some (record c { index = x }) }

module _ (order : List ℕ) (a : Allocator) (id parent : ℕ) (tokens : List ℕ) (v : Inv order a)
    (h : id < a.num_blocks) (owned : 0 < a.ref_counts.at id) where
  cache_block_off : a.cache ≡ none → cache_block id parent tokens a ≡ ok root a
  unfolding cache_block
  cache_block_off e = ground (arith, v.size)

  cache_block_on :
      (c : Cache) (e : ℕ) (x : PrefixIndex)
      → a.cache ≡ some c
      → insert id parent tokens c.index ≡ ok e x
      → cache_block id parent tokens a ≡ ok e (indexed a c x)
  unfolding cache_block
  cache_block_on c e x p q = ground (arith, v.size)

  indexed-Inv :
      (c : Cache) (e : ℕ) (x : PrefixIndex)
      → a.cache ≡ some c
      → Agrees a.num_blocks x
      → Inserted c.index id parent tokens e x
      → Inv order (indexed a c x)
  indexed-Inv c e x p g (others, own, _) = record {
    size = v.size;
    small = v.small;
    bounded = v.bounded;
    caching = (g, (caching_of v p).1);
    partition = v.partition;
    outside = v.outside;
    clean = λ i m. ground (arith, v.clean i m, p, others i, v.partition id h);
    held = λ i m. ground (arith, v.held i m, p, others i, v.partition id h);
  }

  -- `cache_block` of an owned block keeps a valid pool valid: no count changes, no fewer or more
  -- blocks are free, and only this block may become cached.
  pub cache_block-Registered :
      Returns (λ e b. Registered a id parent e b) (cache_block id parent tokens a)
  cache_block-Registered = elim (Option-cases a.cache) [
    | inl p ↦ rw (cache_block_off p) (record {
      valid = (order, v);
      blocks = refl;
      caches = refl;
      counts = refl;
      free = refl;
      kept = λ i ne. refl;
      ordered = rw p (λ w l m. (w, omega arith, omega arith));
    })
    | inr (c, p) ↦
        let (e, x, q, (g, ins)) =
          Returns-eq _ (insert id parent tokens c.index)
            (insert-Agrees a.num_blocks c.index id parent tokens (caching_of v p).0 h) in
        rw (cache_block_on c e x p q) (record {
          valid = (order, indexed-Inv c e x p g ins);
          blocks = refl;
          caches = ground (arith, p);
          counts = refl;
          free = ground (arith, p);
          kept = λ i ne. ground (arith, p, ins.0 i ne);
          ordered = rw p (λ w l m.
              subst
                (Returns (λ e x.
                  Ordered (some (record c { index = x }))
                  × (e < x.next_entry)
                  × (x.next_entry ≤ c.index.next_entry + 1)))
                q (insert-Ordered a.num_blocks c id parent tokens (caching_of v p).0 h w l m));
        })
  ]
