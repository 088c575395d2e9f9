-- ===== src/Allocator/Check.antt =====
-- `check_invariants` of allocator.rs as a function, which the invariant makes pass. Whether it
-- returns `Ok` is what it computes; its messages are not modelled.
use paged_kv_cache.Prelude.{
  ℕ, zero, suc, ◌%◌, ◌^◌, ◌≤◌, ◌<◌, ◌≡◌, refl, Bool, true, false, not, ◌&&◌, ◌||◌, none, some,
  Option, Option-cases, inl, inr, List, [], ◌∷◌, ◌==◌, ltb, leb, if◌then◌else◌, count, Array,
  filled, update, is_some, ◌∙◌, ap, subst, arith,
}
use paged_kv_cache.Outcome.{M, ok, ◌>>=◌, pure, get, index, store}
use paged_kv_cache.Lru.{to_list}
use paged_kv_cache.Lru.Refine.{to_list-Represents}
use paged_kv_cache.PrefixCache.{check, is_cached as index_is_cached}
use paged_kv_cache.PrefixCache.Agreement.{check-Agrees}
use paged_kv_cache.Allocator.{Allocator, Cache, is_cached}
use paged_kv_cache.Allocator.Invariant.{CacheInv, Inv, cached, caching_of}

-- A loop over blocks that marks each one that passes its test, or stops.
unfoldable pub mark_all :
    (ℕ → Array Bool → M Allocator Bool) → List ℕ → Array Bool → M Allocator (Option (Array Bool))
mark_all test [] seen = pure (some seen)
mark_all test (i ∷ ids) seen = do
  fine ← test i seen
  elim fine [ false ↦ pure none | true ↦ do marked ← store seen i true; mark_all test ids marked ]

-- The tests for a block of the free list.
unfoldable pub free_fits : ℕ → Array Bool → M Allocator Bool
free_fits i seen = do
  a ← get
  if leb a.num_blocks i then pure false else (do
    dup ← index seen i
    rc ← index a.ref_counts i
    held ← is_cached i
    pure (not dup && (rc == 0) && not held))

-- The tests for an evictable block.
unfoldable pub evictable_fits : Cache → ℕ → Array Bool → M Allocator Bool
evictable_fits c i seen = do
  a ← get
  dup ← index seen i
  rc ← index a.ref_counts i
  held ← index_is_cached c.index (i % 2 ^ 32)
  pure (not dup && (rc == 0) && held)

-- The part of the check that needs a cache. A list that never ends has a block twice, which is
-- refused.
unfoldable pub check_cache : Option Cache → Option (Array Bool) → M Allocator (Option (Array Bool))
check_cache cache none = pure none
check_cache none (some seen) = pure (some seen)
check_cache (some c) (some seen) = do
  r ← elim (to_list c.evictable) [
    | none ↦ pure none
    | some ids ↦ mark_all (evictable_fits c) ids seen
  ]
  pure (if check c.index then r else none)

-- Every block without owners was seen; the first `n` are asked.
unfoldable pub covered : (ℕ → ℕ) → (ℕ → Bool) → ℕ → Bool
covered counts seen zero = true
covered counts seen (suc n) = not ((counts n == 0) && not (seen n)) && covered counts seen n

abbrev pub all_covered : Allocator → Option (Array Bool) → Bool
all_covered a none = false
all_covered a (some seen) = covered a.ref_counts.at seen.at a.ref_counts.size

unfoldable pub check_invariants : M Allocator Bool
check_invariants = do
  a ← get
  free ← mark_all free_fits a.free_list (filled false a.num_blocks)
  seen ← check_cache a.cache free
  pure (all_covered a seen)

-- After the marks, exactly the old ones and those of the list are set.
abbrev Marked : ℕ → List ℕ → Array Bool → Array Bool → Type 0
Marked n ids seen marked =
    (marked.size ≡ n) × ((j : ℕ) → marked.at j ≡ (ltb 0 (count j ids) || seen.at j))

module _ (test : ℕ → Array Bool → M Allocator Bool) (a : Allocator) (n : ℕ) where
  next-eq :
      (i : ℕ) (ids : List ℕ) (seen : Array Bool)
      → test i seen a ≡ ok true a
      → i < seen.size
      → mark_all test (i ∷ ids) seen a ≡ mark_all test ids (update seen i true) a
  unfolding mark_all
  next-eq i ids seen p l = rw p (ground (arith, l))

  mark_all-Marked :
      (ids : List ℕ) (seen : Array Bool)
      → seen.size ≡ n
      → ((i : ℕ) → 0 < count i ids → i < n)
      → ((i : ℕ) → 0 < count i ids → seen.at i ≡ false)
      → ((i : ℕ) → count i ids ≤ 1)
      → ((i : ℕ) (s : Array Bool)
          → 0 < count i ids
          → s.size ≡ n
          → s.at i ≡ false
          → test i s a ≡ ok true a)
      → (marked : Array Bool) × (mark_all test ids seen a ≡ ok (some marked) a)
        × Marked n ids seen marked
  unfolding mark_all
  mark_all-Marked [] seen size below clear once passes = (seen, refl, (size, λ j. refl))
  mark_all-Marked (i ∷ ids) seen size below clear once passes =
      let here : 0 < count i (i ∷ ids) = ground arith in
      let (marked, p, (z, q)) =
        mark_all-Marked ids (update seen i true) size (λ j l. below j (ground (arith, l)))
          (λ j l. ground (arith, l, once j, clear j)) (λ j. ground (arith, once j))
          (λ j s l. passes j s (ground (arith, l))) in
      (
        marked,
        next-eq i ids seen (passes i seen here size (clear i here))
              (omega (arith, size, below i here))
            ∙ p,
        (z, λ j. ground (arith, q j)),
      )

covered-true :
    (counts : ℕ → ℕ) (seen : ℕ → Bool) (n : ℕ)
    → ((i : ℕ) → i < n → counts i ≡ 0 → seen i ≡ true)
    → covered counts seen n ≡ true
unfolding covered
covered-true counts seen zero h = refl
covered-true counts seen (suc n) h =
    ground (arith, h n, covered-true counts seen n (λ i l. h i (omega (arith, l))))

module _ (order : List ℕ) (a : Allocator) (v : Inv order a) where
  is_cached-eq : (i : ℕ) → i < a.num_blocks → is_cached i a ≡ ok (cached a.cache i) a
  unfolding is_cached index_is_cached
  is_cached-eq i l = elim (Option-cases a.cache) [
    | inl e ↦ ground (arith, e)
    | inr (c, e) ↦ ground (arith, e, (caching_of v e).0.size, l)
  ]

  free_block : (i : ℕ) → 0 < count i a.free_list → i < a.num_blocks
  free_block i h = ground (arith, v.outside i)

  free_fits-eq :
      (i : ℕ) (s : Array Bool)
      → 0 < count i a.free_list
      → s.size ≡ a.num_blocks
      → s.at i ≡ false
      → free_fits i s a ≡ ok true a
  unfolding free_fits
  free_fits-eq i s h size unseen =
      let l = free_block i h in
      let unowned : a.ref_counts.at i ≡ 0 = ground (arith, v.partition i l) in
      let p = is_cached-eq i l in ground (arith, p, l, size, unseen, unowned, v.size, v.clean i h)

  module _ (c : Cache) (e : a.cache ≡ some c) where
    order_block : (i : ℕ) → 0 < count i order → i < a.num_blocks
    order_block i h = ground (arith, v.outside i)

    evictable_fits-eq :
        (i : ℕ) (s : Array Bool)
        → 0 < count i order
        → s.size ≡ a.num_blocks
        → s.at i ≡ false
        → evictable_fits c i s a ≡ ok true a
    unfolding evictable_fits index_is_cached
    evictable_fits-eq i s h size unseen =
        let l = order_block i h in
        let id : i % 2 ^ 32 ≡ i = omega (arith, l, v.small) in
        let unowned : a.ref_counts.at i ≡ 0 = ground (arith, v.partition i l) in
        let held : is_some (c.index.by_block.at i) ≡ true = ground (arith, v.held i h, e) in
        rw id (ground (arith, l, size, unseen, unowned, v.size, (caching_of v e).0.size, held))

  seen_order :
      (seen : Array Bool)
      → Marked a.num_blocks a.free_list (filled false a.num_blocks) seen
      → (marked : Array Bool) × (check_cache a.cache (some seen) a ≡ ok (some marked) a)
        × Marked a.num_blocks order seen marked
  unfolding check_cache
  seen_order seen (size, at) = elim (Option-cases a.cache) [
    | inl e ↦
        let empty : order ≡ [] = subst (CacheInv a.num_blocks order) e v.caching in
        rw e (seen, refl, (size, λ j. ground (arith, empty)))
    | inr (c, e) ↦
        let (agrees, links) = caching_of v e in
        let (marked, p, q) =
          mark_all-Marked (evictable_fits c) a a.num_blocks order seen size
            (λ i h. order_block c e i h)
            (λ i h. ground (arith, at i, v.outside i, v.partition i, h))
            (λ i. ground (arith, v.outside i, v.partition i))
            (λ i s h z u. evictable_fits-eq c e i s h z u) in
        let walked = to_list-Represents a.num_blocks c.evictable order links in
        let checked = check-Agrees a.num_blocks c.index agrees in
        let r : check_cache (some c) (some seen) a ≡ ok (some marked) a =
          ground (arith, walked, p, checked) in
        (marked, ap (λ cache. check_cache cache (some seen) a) e ∙ r, q)
  ]

  pub check_invariants-Inv : check_invariants a ≡ ok true a
  unfolding check_invariants
  check_invariants-Inv =
      let (seen, p, q) =
        mark_all-Marked free_fits a a.num_blocks a.free_list (filled false a.num_blocks) refl
          (λ i h. free_block i h) (λ i h. refl) (λ i. ground (arith, v.outside i, v.partition i))
          (λ i s h z u. free_fits-eq i s h z u) in
      let (marked, r, t) = seen_order seen q in
      let all =
        covered-true a.ref_counts.at marked.at a.num_blocks
          (λ i l e. ground (arith, t.1 i, q.1 i, v.partition i l, e)) in
      rw p (rw r (rw (v.size, all) refl))
