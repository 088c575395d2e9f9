-- ===== src/Allocator/Invariant.antt =====
-- The representation invariant of allocator.rs, which its `check_invariants` tests: every block
-- with refcount 0 stands exactly once on the free list or in the order of evictable blocks, the
-- others on neither; evictable blocks are cached and free ones are not.
use paged_kv_cache.Prelude.{
  ℕ, zero, suc, ◌+◌, ◌≤◌, ◌<◌, ◌≡◌, refl, subst, ap, inl, inr, Option-cases, Bool, true, false,
  Option, none, some, ltb, List, [], ◌==◌, if◌then◌else◌, length, count, is_some, arith,
}
use paged_kv_cache.Lru.{nil}
use paged_kv_cache.Lru.Refine.{Represents, new-Represents}
use paged_kv_cache.PrefixCache.{new as new_index}
use paged_kv_cache.PrefixCache.Agreement.{Agrees, new-Agrees}
use paged_kv_cache.Allocator.{
  Allocator, Cache, max_refcount, ids_from, new, with_prefix_caching, num_free,
}

-- Whether block `i` holds registered content.
abbrev pub cached : Option Cache → ℕ → Bool
cached none i = false
cached (some c) i = is_some (c.index.by_block.at i)

-- `order` is the order of the evictable blocks.
abbrev pub CacheInv : ℕ → List ℕ → Option Cache → Type 0
CacheInv n order none = order ≡ []
CacheInv n order (some c) = Agrees n c.index × Represents n c.evictable order

pub record Inv (order : List ℕ) (a : Allocator) : Type 0 where
  pub size : a.ref_counts.size ≡ a.num_blocks
  pub small : a.num_blocks ≤ nil
  pub bounded : (i : ℕ) → i < a.num_blocks → a.ref_counts.at i ≤ max_refcount
  pub caching : CacheInv a.num_blocks order a.cache
  pub partition :
      (i : ℕ)
      → i < a.num_blocks
      → count i a.free_list + count i order + (if a.ref_counts.at i == 0 then 0 else 1) ≡ 1
  pub outside : (i : ℕ) → a.num_blocks ≤ i → count i a.free_list + count i order ≡ 0
  pub clean : (i : ℕ) → 0 < count i a.free_list → cached a.cache i ≡ false
  pub held : (i : ℕ) → 0 < count i order → cached a.cache i ≡ true

abbrev pub IsValid : Allocator → Type 0
IsValid a = (order : List ℕ) × Inv order a

count-ids_from :
    (i k n : ℕ)
    → k + n ≤ nil
    → count i (ids_from k n) ≡ (if ltb i k then 0 else if ltb i (k + n) then 1 else 0)
unfolding ids_from
count-ids_from i k zero h = ground arith
count-ids_from i k (suc n) h = ground (arith, count-ids_from i (suc k) n)

new-Inv : (n : ℕ) → n ≤ nil → Inv [] (new n)
unfolding new
new-Inv n h = record {
  size = refl;
  small = h;
  bounded = λ i k. omega arith;
  caching = refl;
  partition = λ i k. ground (arith, count-ids_from i 0 n);
  outside = λ i k. ground (arith, count-ids_from i 0 n);
  clean = λ i k. refl;
  held = λ i k. absurd (omega arith);
}

pub new-IsValid : (n : ℕ) → n ≤ nil → IsValid (new n)
new-IsValid n h = ([], new-Inv n h)

-- A fresh pool with prefix caching, of fewer than 2^32 blocks, is valid.
pub with_prefix_caching-IsValid : (n : ℕ) → n ≤ nil → IsValid (with_prefix_caching n)
unfolding with_prefix_caching new_index
with_prefix_caching-IsValid n h = (
  [],
  record {
    size = refl;
    small = h;
    bounded = λ i k. omega arith;
    caching = (new-Agrees n, new-Represents n h);
    partition = (new-Inv n h).partition;
    outside = (new-Inv n h).outside;
    clean = λ i k. refl;
    held = λ i k. absurd (omega arith);
  },
)

pub caching_of :
    {order : List ℕ} {a : Allocator} {c : Cache}
    → Inv order a
    → a.cache ≡ some c
    → Agrees a.num_blocks c.index × Represents a.num_blocks c.evictable order
caching_of {order} {a} v e = subst (CacheInv a.num_blocks order) e v.caching

pub num_free-eq :
    (order : List ℕ) (a : Allocator) → Inv order a → num_free a ≡ length a.free_list + length order
num_free-eq order a v = elim (Option-cases a.cache) [
  | inl e ↦ ground (arith, ap length (subst (CacheInv a.num_blocks order) e v.caching))
  | inr (c, e) ↦ ground (arith, (caching_of v e).1.lens)
]
