-- ===== src/Allocator/Allocate.antt =====
-- What `allocate` of allocator.rs does to a valid pool.
use paged_kv_cache.Prelude.{
  ℕ, ◌+◌, ◌%◌, ◌^◌, ◌<◌, ◌≡◌, ◌≢◌, refl, ap, subst, inl, inr, false, none, some, List, [], ◌∷◌,
  ◌==◌, if◌then◌else◌, update, length, count, is_some, Option-cases, List-cases, ◌∙◌, arith,
}
use paged_kv_cache.Error.{out_of_blocks}
use paged_kv_cache.Outcome.{ok, err, Post, Returns, Returns-eq, Post-mono, Post-fails}
use paged_kv_cache.Lru.{Lru, nil, pop_front}
use paged_kv_cache.Lru.Order.{head_or}
use paged_kv_cache.Lru.Refine.{Represents, pop_front_empty, pop_front-Represents}
use paged_kv_cache.PrefixCache.{PrefixIndex}
use paged_kv_cache.PrefixCache
use paged_kv_cache.PrefixCache.Agreement.{Agrees, remove-Agrees}
use paged_kv_cache.Allocator.{Allocator, Cache, num_free, evict_cached, evict, take_block, allocate}
use paged_kv_cache.Allocator.Entries.{Older, Older-same}
use paged_kv_cache.Allocator.Invariant.{cached, CacheInv, Inv, IsValid, caching_of, num_free-eq}

-- A block handed out: it had no owner, now it has one; no other count and no other block's cached
-- content changes. It is the top of the free list, or the least recently released block.
pub record Allocated (order : List ℕ) (a : Allocator) (id : ℕ) (b : Allocator) : Type 0 where
  pub valid : IsValid b
  pub blocks : b.num_blocks ≡ a.num_blocks
  pub caches : is_some b.cache ≡ is_some a.cache
  pub in_pool : id < a.num_blocks
  pub unowned : a.ref_counts.at id ≡ 0
  pub counts : (i : ℕ) → b.ref_counts.at i ≡ (if id == i then 1 else a.ref_counts.at i)
  pub free : num_free b + 1 ≡ num_free a
  pub forgotten : cached b.cache id ≡ false
  pub kept : (i : ℕ) → id ≢ i → cached b.cache i ≡ cached a.cache i
  pub older : Older a.cache b.cache
  pub chosen : id ≡ head_or (head_or nil order) a.free_list

-- The state after the top of the free list is handed out.
abbrev popped : Allocator → ℕ → List ℕ → Allocator
popped a id rest = record a {
  free_list = rest;
  ref_counts = update a.ref_counts id 1;
  total_allocated = (a.total_allocated + 1) % 2 ^ 64;
}

module _ (order : List ℕ) (a : Allocator) (v : Inv order a) where
  in_free : (id : ℕ) → 0 < count id a.free_list → (id < a.num_blocks) × (a.ref_counts.at id ≡ 0)
  in_free id h = ground (arith, v.outside id, v.partition id)

  popped-Inv : (id : ℕ) (rest : List ℕ) → a.free_list ≡ id ∷ rest → Inv order (popped a id rest)
  popped-Inv id rest e = record {
    size = v.size;
    small = v.small;
    bounded = λ i h. ground (arith, v.bounded i h);
    caching = v.caching;
    partition = λ i h. ground (arith, ap (count i) e, v.partition i h);
    outside = λ i h. ground (arith, ap (count i) e, v.outside i h);
    clean = λ i h. ground (arith, ap (count i) e, v.clean i);
    held = v.held;
  }

  pop-eq :
      (id : ℕ) (rest : List ℕ) → a.free_list ≡ id ∷ rest → allocate a ≡ ok id (popped a id rest)
  unfolding allocate take_block
  pop-eq id rest e = ground (arith, v.size, in_free id, ap (count id) e)

  pop-Allocated :
      (id : ℕ) (rest : List ℕ) → a.free_list ≡ id ∷ rest → Allocated order a id (popped a id rest)
  pop-Allocated id rest e = record {
    valid = (order, popped-Inv id rest e);
    blocks = refl;
    caches = refl;
    in_pool = ground (arith, in_free id, ap (count id) e);
    unowned = ground (arith, in_free id, ap (count id) e);
    counts = λ i. refl;
    free = ground (arith, ap length e);
    forgotten = ground (arith, ap (count id) e, v.clean id);
    kept = λ i h. refl;
    older = Older-same a.cache a.cache refl;
    chosen = ground (arith, ap (head_or (head_or nil order)) e);
  }

-- The state after the least recently released block is evicted and handed out.
abbrev evicted : Allocator → Cache → Lru → PrefixIndex → ℕ → Allocator
evicted a c l x id = record a {
  cache = some (record { index = x; evictable = l; evictions = (c.evictions + 1) % 2 ^ 64 });
  ref_counts = update a.ref_counts id 1;
  total_allocated = (a.total_allocated + 1) % 2 ^ 64;
}

module _ (a : Allocator) (c : Cache) (id : ℕ) (order : List ℕ) (v : Inv (id ∷ order) a)
    (e : a.cache ≡ some c) (none_free : a.free_list ≡ []) where
  next_in_order :
      (id < a.num_blocks) × (a.ref_counts.at id ≡ 0) × (id % 2 ^ 32 ≡ id) × (count id order ≡ 0)
  next_in_order = ground (arith, v.outside id, v.partition id, v.small)

  evict_eq :
      (l : Lru) (x : PrefixIndex)
      → pop_front c.evictable ≡ ok (some id) l
      → PrefixCache.remove id c.index ≡ ok tt x
      → allocate a ≡ ok id (evicted a c l x id)
  unfolding allocate take_block evict evict_cached
  evict_eq l x p q = ground (arith, v.size, next_in_order)

  module _ (l : Lru) (x : PrefixIndex) (r : Represents a.num_blocks l order)
      (g : Agrees a.num_blocks x) (gone : x.by_block.at id ≡ none)
      (others : (b : ℕ) → id ≢ b → x.by_block.at b ≡ c.index.by_block.at b)
      (next : x.next_entry ≡ c.index.next_entry) where
    evicted-Inv : Inv order (evicted a c l x id)
    evicted-Inv = record {
      size = v.size;
      small = v.small;
      bounded = λ i h. ground (arith, v.bounded i h);
      caching = (g, r);
      partition = λ i h. ground (arith, ap (count i) none_free, v.partition i h, next_in_order);
      outside = λ i h. ground (arith, ap (count i) none_free, v.outside i h);
      clean = λ i h. absurd (omega (arith, ap (count i) none_free));
      held = λ i h. ground (arith, v.held i, others i, next_in_order, e);
    }

    evicted-Allocated : Allocated (id ∷ order) a id (evicted a c l x id)
    evicted-Allocated = record {
      valid = (order, evicted-Inv);
      blocks = refl;
      caches = ground (arith, e);
      in_pool = next_in_order.0;
      unowned = next_in_order.1;
      counts = λ i. refl;
      free = ground (arith, num_free-eq (id ∷ order) a v, ap length none_free, r.lens);
      forgotten = ground (arith, gone);
      kept = λ i h. ground (arith, others i h, e);
      older = rw e (record { kept = λ i f k h. ground (arith, gone, others i, h); next = next });
      chosen = ground (arith, ap (head_or id) none_free);
    }

module _ (a : Allocator) (none_free : a.free_list ≡ []) where
  evict_uncached : a.cache ≡ none → allocate a ≡ err (out_of_blocks 1 0) a
  unfolding allocate take_block evict
  evict_uncached e = ground arith

  evict_empty :
      (c : Cache)
      → a.cache ≡ some c
      → pop_front c.evictable ≡ ok none c.evictable
      → allocate a ≡ err (out_of_blocks 1 0) a
  unfolding allocate take_block evict evict_cached
  evict_empty c e p = ground arith

  evict_next :
      (c : Cache) (id : ℕ) (order : List ℕ)
      → Inv (id ∷ order) a
      → a.cache ≡ some c
      → Post
          (Allocated (id ∷ order) a)
          (λ e b. (e ≡ out_of_blocks 1 0) × (b ≡ a) × (num_free a ≡ 0))
          (allocate a)
  evict_next c id order v e =
      let (agrees, represents) = caching_of v e in
      let (o, l, p, (o_eq, r)) =
        Returns-eq _ (pop_front c.evictable)
          (pop_front-Represents a.num_blocks c.evictable (id ∷ order) represents) in
      let (u, x, q, (g, gone, others, next)) = Returns-eq _ (PrefixCache.remove id c.index) (
        remove-Agrees a.num_blocks c.index id agrees
          (next_in_order a c id order v e none_free).0) in
      rw (evict_eq a c id order v e none_free l x (cc) (cc))
        (evicted-Allocated a c id order v e none_free l x r g gone others next)

  evict-Allocated :
      (order : List ℕ)
      → Inv order a
      → Post
          (Allocated order a)
          (λ e b. (e ≡ out_of_blocks 1 0) × (b ≡ a) × (num_free a ≡ 0))
          (allocate a)
  evict-Allocated [] v = elim (Option-cases a.cache) [
    | inl e ↦ rw (evict_uncached e) (refl, refl, nothing_free)
    | inr (c, e) ↦
        rw (evict_empty c e (pop_front_empty a.num_blocks c.evictable (caching_of v e).1))
          (refl, refl, nothing_free)
  ]
    where
      nothing_free : num_free a ≡ 0
      nothing_free = ground (arith, num_free-eq [] a v, ap length none_free)
  evict-Allocated (id ∷ order) v = elim (Option-cases a.cache) [
    | inl e ↦ absurd (cc (subst (CacheInv a.num_blocks (id ∷ order)) e v.caching))
    | inr (c, e) ↦ evict_next c id order v e
  ]

-- `allocate` of a valid pool hands out the top of the free list, or else evicts the least recently
-- released block: the block had no owner and has one now, is not cached any more, no other count
-- and no other cached block changes, one block less is free, and the pool stays valid. It fails
-- only when no block is free, and then changes nothing.
pub allocate-Allocated :
    (order : List ℕ) (a : Allocator)
    → Inv order a
    → Post
        (Allocated order a)
        (λ e b. (e ≡ out_of_blocks 1 0) × (b ≡ a) × (num_free a ≡ 0))
        (allocate a)
allocate-Allocated order a v = elim (List-cases a.free_list) [
  | inr (id, ids, e) ↦ rw (pop-eq order a v id ids e) (pop-Allocated order a v id ids e)
  | inl e ↦ evict-Allocated a e order v
]

-- With a block free, `allocate` hands one out.
pub allocate-Returns :
    (order : List ℕ) (a : Allocator)
    → Inv order a
    → 0 < num_free a
    → Returns (Allocated order a) (allocate a)
allocate-Returns order a v h =
    Post-mono (Allocated order a) (Allocated order a)
      (λ e b. (e ≡ out_of_blocks 1 0) × (b ≡ a) × (num_free a ≡ 0)) (λ _ _. ⊥) (allocate a)
      (allocate-Allocated order a v) (λ _ _ p. p) (λ e s p. omega arith)

-- With no block free, `allocate` fails and changes nothing.
pub allocate_fails :
    (order : List ℕ) (a : Allocator)
    → Inv order a
    → num_free a ≡ 0
    → allocate a ≡ err (out_of_blocks 1 0) a
allocate_fails order a v h =
    let (e, b, p, (q, r, _)) =
      Post-fails (Allocated order a) _ (allocate a) (allocate-Allocated order a v)
        (λ id b al. omega (arith, al.free)) in
    p ∙ ap (λ e'. err e' b) q ∙ ap (err (out_of_blocks 1 0)) r
