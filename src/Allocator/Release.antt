-- ===== src/Allocator/Release.antt =====
-- What `decref` of allocator.rs does to a valid pool, on every branch.
use paged_kv_cache.Prelude.{
  ℕ, ◌+◌, ◌-◌, ◌≤◌, ◌<◌, ◌≡◌, refl, inl, inr, true, false, none, some, List, [], ◌∷◌, ◌++◌, ◌==◌,
  if◌then◌else◌, length-append, count, count-append, is_some, Option-cases, Bool-cases, arith,
}
use paged_kv_cache.Error.{invalid_block, block_not_allocated}
use paged_kv_cache.Outcome.{ok, err, Post, Returns, Returns-eq, Post-mono}
use paged_kv_cache.Lru.{Lru, push_back}
use paged_kv_cache.Lru.Refine.{Represents, push_back-Represents}
use paged_kv_cache.PrefixCache
use paged_kv_cache.Allocator.{Allocator, Cache, num_free, decref, release}
use paged_kv_cache.Allocator.Counts.{counted, counted-Inv, Refused, outside, unowned}
use paged_kv_cache.Allocator.Entries.{Older, Older-same}
use paged_kv_cache.Allocator.Invariant.{cached, Inv, IsValid, caching_of, num_free-eq}
use native.Mathlib.Decide.{dec_lt, ℕ_discrete}

module _ (a : Allocator) (id : ℕ) (sized : a.ref_counts.size ≡ a.num_blocks) where
  decref_outside : a.num_blocks ≤ id → decref id a ≡ err (invalid_block id a.num_blocks) a
  unfolding decref
  decref_outside h = ground arith

  decref_unowned :
      id < a.num_blocks → a.ref_counts.at id ≡ 0 → decref id a ≡ err (block_not_allocated id) a
  unfolding decref
  decref_unowned h k = ground arith

  decref_shared :
      id < a.num_blocks
      → 1 < a.ref_counts.at id
      → decref id a ≡ ok (a.ref_counts.at id - 1) (counted a id (a.ref_counts.at id - 1))
  unfolding decref
  decref_shared h k = ground arith

  decref_last :
      (b : Allocator)
      → id < a.num_blocks
      → a.ref_counts.at id ≡ 1
      → release id (counted a id 0) ≡ ok tt b
      → decref id a ≡ ok 0 b
  unfolding decref
  decref_last b h k p = ground arith

-- The state after the last owner of a block that is not cached has gone.
abbrev freed : Allocator → ℕ → Allocator
freed a id = record (counted a id 0) { free_list = id ∷ a.free_list }

-- The state after the last owner of a cached block has gone.
abbrev parked : Allocator → Cache → Lru → ℕ → Allocator
parked a c l id = record (counted a id 0) { cache = some (record c { evictable = l }) }

-- A block that lost one owner: with its last owner gone it counts as free, cached or not.
pub record Decref (a : Allocator) (id : ℕ) (rc : ℕ) (b : Allocator) : Type 0 where
  pub valid : IsValid b
  pub blocks : b.num_blocks ≡ a.num_blocks
  pub caches : is_some b.cache ≡ is_some a.cache
  pub in_pool : id < a.num_blocks
  pub before : a.ref_counts.at id ≡ rc + 1
  pub counts : (i : ℕ) → b.ref_counts.at i ≡ (if id == i then rc else a.ref_counts.at i)
  pub free : num_free b ≡ num_free a + (if rc == 0 then 1 else 0)
  pub kept : (i : ℕ) → cached b.cache i ≡ cached a.cache i
  pub older : Older a.cache b.cache

module _ (order : List ℕ) (a : Allocator) (id : ℕ) (v : Inv order a) (h : id < a.num_blocks)
    (one : a.ref_counts.at id ≡ 1) where
  nowhere : (count id a.free_list ≡ 0) × (count id order ≡ 0)
  nowhere = ground (arith, v.partition id h)

  freed-Inv : cached a.cache id ≡ false → Inv order (freed a id)
  freed-Inv fresh = record {
    size = v.size;
    small = v.small;
    bounded = λ i m. ground (arith, v.bounded i m);
    caching = v.caching;
    partition = λ i m. ground (arith, nowhere, v.partition i m);
    outside = λ i m. ground (arith, v.outside i m);
    clean = λ i m. ground (arith, v.clean i);
    held = v.held;
  }

  parked-Inv :
      (c : Cache) (l : Lru)
      → a.cache ≡ some c
      → cached a.cache id ≡ true
      → Represents a.num_blocks l (order ++ id ∷ [])
      → Inv (order ++ id ∷ []) (parked a c l id)
  parked-Inv c l e kept r = record {
    size = v.size;
    small = v.small;
    bounded = λ i m. ground (arith, v.bounded i m);
    caching = ((caching_of v e).0, r);
    partition = λ i m. ground (arith, nowhere, v.partition i m, count-append i order (id ∷ []));
    outside = λ i m. ground (arith, v.outside i m, count-append i order (id ∷ []));
    clean = λ i m. ground (arith, v.clean i m, e);
    held = λ i m. ground (arith, v.held i, e, count-append i order (id ∷ []), kept);
  }

  freed-Decref : cached a.cache id ≡ false → Decref a id 0 (freed a id)
  freed-Decref fresh = record {
    valid = (order, freed-Inv fresh);
    blocks = refl;
    caches = refl;
    in_pool = h;
    before = one;
    counts = λ i. refl;
    free = omega arith;
    kept = λ i. refl;
    older = Older-same a.cache a.cache refl;
  }

  parked-Decref :
      (c : Cache) (l : Lru)
      → a.cache ≡ some c
      → cached a.cache id ≡ true
      → Represents a.num_blocks l (order ++ id ∷ [])
      → Decref a id 0 (parked a c l id)
  parked-Decref c l e kept r = record {
    valid = (order ++ id ∷ [], parked-Inv c l e kept r);
    blocks = refl;
    caches = ground (arith, e);
    in_pool = h;
    before = one;
    counts = λ i. refl;
    free = ground (arith, num_free-eq order a v, r.lens, length-append order (id ∷ []));
    kept = λ i. ground (arith, e);
    older = rw e (record { kept = λ i f k h. h; next = refl });
  }

  release_uncached : a.cache ≡ none → release id (counted a id 0) ≡ ok tt (freed a id)
  unfolding release
  release_uncached e = ground (arith, e)

  release_fresh :
      (c : Cache)
      → a.cache ≡ some c
      → cached a.cache id ≡ false
      → release id (counted a id 0) ≡ ok tt (freed a id)
  unfolding release PrefixCache.is_cached
  release_fresh c e fresh = ground (arith, e, (caching_of v e).0.size)

  release-cached :
      (c : Cache) (l : Lru)
      → a.cache ≡ some c
      → cached a.cache id ≡ true
      → push_back id c.evictable ≡ ok tt l
      → release id (counted a id 0) ≡ ok tt (parked a c l id)
  unfolding release PrefixCache.is_cached
  release-cached c l e kept p = ground (arith, e, (caching_of v e).0.size)

  decref_one : Returns (Decref a id) (decref id a)
  decref_one = elim (Option-cases a.cache) [
    | inl e ↦
        rw (decref_last a id v.size (freed a id) h one (release_uncached e))
          (freed-Decref (ground (arith, e)))
    | inr (c, e) ↦ elim (Bool-cases (cached a.cache id)) [
      | inl kept ↦
          let (u, l, p, r) = Returns-eq _ (push_back id c.evictable) (
            push_back-Represents a.num_blocks c.evictable order id (caching_of v e).1 h
              nowhere.1) in
          rw (decref_last a id v.size (parked a c l id) h one (release-cached c l e kept (cc)))
            (parked-Decref c l e kept r)
      | inr fresh ↦
          rw (decref_last a id v.size (freed a id) h one (release_fresh c e fresh))
            (freed-Decref fresh)
    ]
  ]

-- `decref` of an owned block takes one owner away.
pub decref-Returns :
    (order : List ℕ) (a : Allocator) (id : ℕ)
    → Inv order a
    → id < a.num_blocks
    → 0 < a.ref_counts.at id
    → Returns (Decref a id) (decref id a)
decref-Returns order a id v h k = elim (ℕ_discrete (a.ref_counts.at id) 1) [
  | yes one ↦ decref_one order a id v h one
  | no more ↦ rw (decref_shared a id v.size h (omega arith)) (record {
    valid = (
      order,
      counted-Inv order a id (a.ref_counts.at id - 1) v k (omega arith)
          (omega (arith, v.bounded id h)),
    );
    blocks = refl;
    caches = refl;
    in_pool = h;
    before = omega arith;
    counts = λ i. refl;
    free = ground arith;
    kept = λ i. refl;
    older = Older-same a.cache a.cache refl;
  })
]

-- `decref` of an owned block of a valid pool takes one owner away; with the last owner gone the
-- block counts as free and keeps its cached content, and the pool stays valid. A block outside the
-- pool and a block with no owner are refused, each with its error, and nothing changes.
pub decref-Post :
    (order : List ℕ) (a : Allocator) (id : ℕ)
    → Inv order a
    → Post (Decref a id) (λ e b. Refused a id e × (b ≡ a)) (decref id a)
decref-Post order a id v = elim (dec_lt id a.num_blocks) [
  | no out ↦
      let h : a.num_blocks ≤ id = omega arith in rw (decref_outside a id v.size h) (outside h, refl)
  | yes in_pool ↦ elim (ℕ_discrete (a.ref_counts.at id) 0) [
    | yes zero_rc ↦ rw (decref_unowned a id v.size in_pool zero_rc) (unowned in_pool zero_rc, refl)
    | no owned ↦
        Post-mono (Decref a id) (Decref a id) (λ _ _. ⊥) _ (decref id a)
          (decref-Returns order a id v in_pool (omega arith)) (λ _ _ p. p) (λ e s p. absurd p)
  ]
]
