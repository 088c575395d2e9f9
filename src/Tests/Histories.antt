-- ===== src/Tests/Histories.antt =====
-- The theorems on what the cached blocks stand for, at concrete inputs.
use paged_kv_cache.Prelude.{
  ℕ, ◌*◌, ◌≤◌, ◌<◌, ◌≡◌, ◌⊎◌, refl, some, List, [], ◌∷◌, ◌==◌, if◌then◌else◌, length, arith,
}
use paged_kv_cache.Outcome.{Returns}
use paged_kv_cache.Lru
use paged_kv_cache.Lru.Refine.{pushed}
use paged_kv_cache.PrefixCache
use paged_kv_cache.PrefixCache.{Key, insert}
use paged_kv_cache.PrefixCache.Agreement.{Agrees, Inserted}
use paged_kv_cache.Allocator.Entries.{Ordered}
use paged_kv_cache.Allocator.{Cache, match_prefix}
use paged_kv_cache.Allocator.Match.{Matched}
use paged_kv_cache.Allocator.History.{Traced, insert-Traced}
use paged_kv_cache.Allocator.Prefixes.{Prefixes, match_prefix-Traced}
use paged_kv_cache.Tests.Samples.{
  caching_pool, caching_pool-Inv, caching_pool-Ordered, one_entry, one_entry-Agrees,
}

-- The history of the greeting, which is the whole content of block 1.
abbrev greeted : ℕ → List ℕ
greeted i = if i == 1 then 7 ∷ 8 ∷ [] else []

abbrev greeted_cache : Cache
greeted_cache = record { index = one_entry; evictable = pushed (Lru.new 3) 1; evictions = 0 }

greeted-Traced : Traced caching_pool.cache greeted
unfolding PrefixCache.new
greeted-Traced = record { start = refl; content = λ i e k h. ground (arith, h) }

match_prefix-Traced_example :
    Returns
      (λ m b.
        (Matched caching_pool m × (length m.blocks * 2 ≤ 3) × (b ≡ caching_pool))
        × Prefixes caching_pool.cache greeted 2 (7 ∷ 8 ∷ 9 ∷ []) m)
      (match_prefix (7 ∷ 8 ∷ 9 ∷ []) 2 caching_pool)
match_prefix-Traced_example =
    match_prefix-Traced (1 ∷ []) caching_pool greeted (7 ∷ 8 ∷ 9 ∷ []) 2 caching_pool-Inv
      greeted-Traced (omega arith)

-- Block 0 gets the next two tokens.
insert-Traced_example :
    Returns
      (λ e x.
        (Agrees 3 x × Inserted one_entry 0 1 (9 ∷ 9 ∷ []) e x)
        × ((Ordered (some (record greeted_cache { index = x }))
              × (e < x.next_entry)
              × (x.next_entry ≤ 3))
            × ((later : ℕ → List ℕ) × Traced (some (record greeted_cache { index = x })) later
                × ((i : ℕ) → i < 2 → later i ≡ greeted i)
                × ((later e ≡ 7 ∷ 8 ∷ 9 ∷ 9 ∷ [])
                    ⊎ ((k : Key) × (one_entry.by_block.at 0 ≡ some (e, k)) × (x ≡ one_entry))))))
      (insert 0 1 (9 ∷ 9 ∷ []) one_entry)
unfolding PrefixCache.new
insert-Traced_example =
    insert-Traced 3 greeted_cache 0 1 (9 ∷ 9 ∷ []) greeted one_entry-Agrees (omega arith)
      caching_pool-Ordered (ground arith) greeted-Traced (omega arith)
