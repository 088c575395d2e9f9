-- ===== src/Allocator.antt =====
-- crates/paged-kv-core/src/allocator.rs: the refcounted pool of physical blocks with the optional
-- prefix cache. `free_list` is a stack: the head of the list is the back of the `Vec`. Refcounts
-- are `u16`s, counters are `u64`s that wrap. `utilization` (a float) is not modelled.
pub mod Chunks
pub mod Invariant
pub mod Entries
pub mod Check
pub mod Passed
pub mod Allocate
pub mod Many
pub mod Counts
pub mod Release
pub mod Reuse
pub mod Match
pub mod History
pub mod Prefixes
use paged_kv_cache.Prelude.{
  ℕ, zero, suc, ◌+◌, ◌-◌, ◌%◌, ◌^◌, Bool, true, false, Option, none, some, List, [], ◌∷◌, ◌++◌,
  ◌==◌, ltb, leb, if◌then◌else◌, Array, filled, length, is_some,
}
use paged_kv_cache.Error.{
  CacheError, out_of_blocks, invalid_block, block_not_allocated, ref_count_overflow,
}
use paged_kv_cache.Outcome.{
  M, ◌>>=◌, ◌>>◌, pure, fail, get, put, reject_if, index, store, on, panic,
}
use paged_kv_cache.Lru.{Lru, contains, push_back, remove, pop_front}
use paged_kv_cache.Lru
use paged_kv_cache.PrefixCache.{PrefixIndex, root, lookup, insert}
use paged_kv_cache.PrefixCache
use Chunks.{chunks_exact}

abbrev pub max_refcount : ℕ
max_refcount = 2 ^ 16 - 1

pub record Cache : Type 0 where
  pub index : PrefixIndex
  pub evictable : Lru
  pub evictions : ℕ

pub record Allocator : Type 0 where
  pub num_blocks : ℕ
  pub free_list : List ℕ
  pub ref_counts : Array ℕ
  pub total_allocated : ℕ
  pub cache : Option Cache

pub record PrefixMatch : Type 0 where
  pub blocks : List ℕ
  pub last_entry : ℕ
  pub evictable : ℕ

pub record CacheStats : Type 0 where
  pub cached_blocks : ℕ
  pub evictable_blocks : ℕ
  pub evictions : ℕ

-- The ids of a fresh pool, from the `k`-th on, in the order in which they are handed out.
unfoldable pub ids_from : ℕ → ℕ → List ℕ
ids_from k zero = []
ids_from k (suc n) = (k % 2 ^ 32) ∷ ids_from (suc k) n

unfoldable pub new : ℕ → Allocator
unfolding ids_from
new num_blocks = record {
  num_blocks = num_blocks;
  free_list = ids_from 0 num_blocks;
  ref_counts = filled 0 num_blocks;
  total_allocated = 0;
  cache = none;
}

unfoldable pub with_prefix_caching : ℕ → Allocator
unfolding new
with_prefix_caching num_blocks = record (new num_blocks) {
  cache = some (record {
    index = PrefixCache.new num_blocks;
    evictable = Lru.new num_blocks;
    evictions = 0;
  });
}

abbrev pub prefix_caching : Allocator → Bool
prefix_caching a = is_some a.cache

abbrev evictable_len : Option Cache → ℕ
evictable_len none = 0
evictable_len (some c) = c.evictable.len

abbrev pub num_free : Allocator → ℕ
num_free a = length a.free_list + evictable_len a.cache

abbrev pub num_used : Allocator → ℕ
num_used a = a.num_blocks - num_free a

-- A method of the prefix cache `c` of the allocator, and of its two parts.
abbrev on_cache : {A : Type 0} → Cache → M Cache A → M Allocator A
on_cache c = on (λ _. c) (λ a c'. record a { cache = some c' })

abbrev on_evictable : {A : Type 0} → M Lru A → M Cache A
on_evictable = on (λ c. c.evictable) (λ c l. record c { evictable = l })

abbrev on_index : {A : Type 0} → M PrefixIndex A → M Cache A
on_index = on (λ c. c.index) (λ c x. record c { index = x })

-- The part of `evict` that has a cache.
unfoldable pub evict_cached : M Cache ℕ
evict_cached = do
  popped ← on_evictable pop_front
  elim popped [
    | none ↦ fail (out_of_blocks 1 0)
    | some i ↦ do
      let id = i % 2 ^ 32
      on_index (PrefixCache.remove id)
      c ← get
      put (record c { evictions = (c.evictions + 1) % 2 ^ 64 })
      pure id
  ]

unfoldable pub evict : M Allocator ℕ
evict = do
  a ← get
  elim a.cache [ none ↦ fail (out_of_blocks 1 0) | some c ↦ on_cache c evict_cached ]

-- The first statement of `allocate`.
unfoldable pub take_block : M Allocator ℕ
take_block = do
  a ← get
  elim a.free_list [ id ∷ rest ↦ do put (record a { free_list = rest }); pure id | [] ↦ evict ]

unfoldable pub allocate : M Allocator ℕ
allocate = do
  id ← take_block
  a ← get
  ref_counts ← store a.ref_counts id 1
  put (record a { ref_counts = ref_counts; total_allocated = (a.total_allocated + 1) % 2 ^ 64 })
  pure id

-- The loop of `allocate_many`.
unfoldable pub allocate_loop : ℕ → M Allocator (List ℕ)
allocate_loop zero = pure []
allocate_loop (suc n) = do id ← allocate; ids ← allocate_loop n; pure (id ∷ ids)

unfoldable pub allocate_many : ℕ → M Allocator (List ℕ)
allocate_many n = do
  a ← get
  reject_if (ltb (num_free a) n) (out_of_blocks n (num_free a))
  allocate_loop n

abbrev pub validate : ℕ → M Allocator (Unit {0})
validate id = do a ← get; reject_if (leb a.num_blocks id) (invalid_block id a.num_blocks)

unfoldable pub incref : ℕ → M Allocator ℕ
incref id = do
  validate id
  a ← get
  rc ← index a.ref_counts id
  reject_if (rc == 0) (block_not_allocated id)
  reject_if (rc == max_refcount) (ref_count_overflow id max_refcount)
  ref_counts ← store a.ref_counts id (rc + 1)
  put (record a { ref_counts = ref_counts })
  pure (rc + 1)

abbrev push_free : ℕ → M Allocator (Unit {0})
push_free id = do a ← get; put (record a { free_list = id ∷ a.free_list })

-- The `match` of `decref`, for a block whose last owner has released it.
unfoldable pub release : ℕ → M Allocator (Unit {0})
release id = do
  a ← get
  elim a.cache [
    | none ↦ push_free id
    | some c ↦ do
      cached ← PrefixCache.is_cached c.index id
      if cached then on_cache c (on_evictable (push_back id)) else push_free id
  ]

unfoldable pub decref : ℕ → M Allocator ℕ
decref id = do
  validate id
  a ← get
  rc ← index a.ref_counts id
  reject_if (rc == 0) (block_not_allocated id)
  ref_counts ← store a.ref_counts id (rc - 1)
  put (record a { ref_counts = ref_counts })
  if rc - 1 == 0 then release id else pure tt
  pure (rc - 1)

unfoldable pub decref_many : List ℕ → M Allocator (Unit {0})
decref_many [] = pure tt
decref_many (id ∷ ids) = do _ ← decref id; decref_many ids

unfoldable pub ref_count : ℕ → M Allocator ℕ
ref_count id = do validate id; a ← get; index a.ref_counts id

-- The loop of `match_prefix`.
unfoldable pub match_chunks : {S : Type 0} → Cache → PrefixMatch → List (List ℕ) → M S PrefixMatch
match_chunks c found [] = pure found
match_chunks c found (chunk ∷ chunks) = elim (lookup c.index found.last_entry chunk) [
  | none ↦ pure found
  | some (entry, block) ↦ do
    evictable ← contains c.evictable block
    match_chunks c
        (record {
          blocks = found.blocks ++ block ∷ [];
          last_entry = entry;
          evictable = if evictable then found.evictable + 1 else found.evictable;
        })
        chunks
]

abbrev pub no_match : PrefixMatch
no_match = record { blocks = []; last_entry = root; evictable = 0 }

-- `chunks_exact` panics at size 0.
unfoldable pub match_prefix : List ℕ → ℕ → M Allocator PrefixMatch
match_prefix tokens block_size = do
  a ← get
  elim a.cache [
    | none ↦ pure no_match
    | some c ↦
        if block_size == 0
        then (λ _. panic)
        else match_chunks c no_match (chunks_exact block_size tokens)
  ]

-- The guarded arm of `acquire_cached`.
unfoldable pub reclaim : Cache → ℕ → M Allocator ℕ
reclaim c id = do
  on_cache c (on_evictable (remove id))
  a ← get
  ref_counts ← store a.ref_counts id 1
  put (record a { ref_counts = ref_counts })
  pure 1

-- The `match` of `acquire_cached`.
unfoldable pub acquire_unowned : Option Cache → ℕ → M Allocator ℕ
acquire_unowned none id = fail (block_not_allocated id)
acquire_unowned (some c) id = do
  evictable ← contains c.evictable id
  if evictable then reclaim c id else fail (block_not_allocated id)

unfoldable pub acquire_cached : ℕ → M Allocator ℕ
acquire_cached id = do
  validate id
  a ← get
  rc ← index a.ref_counts id
  if ltb 0 rc then incref id else acquire_unowned a.cache id

-- The `match` of `cache_block`.
abbrev cache_content : Option Cache → ℕ → ℕ → List ℕ → M Allocator ℕ
cache_content none id parent tokens = pure root
cache_content (some c) id parent tokens = on_cache c (on_index (insert id parent tokens))

unfoldable pub cache_block : ℕ → ℕ → List ℕ → M Allocator ℕ
cache_block id parent tokens = do
  validate id
  a ← get
  rc ← index a.ref_counts id
  reject_if (rc == 0) (block_not_allocated id)
  cache_content a.cache id parent tokens

abbrev is_cached_in : Option Cache → ℕ → ℕ → M Allocator Bool
is_cached_in none n id = pure false
is_cached_in (some c) n id = if ltb id n then PrefixCache.is_cached c.index id else pure false

unfoldable pub is_cached : ℕ → M Allocator Bool
is_cached id = do a ← get; is_cached_in a.cache a.num_blocks id

abbrev stats_of : Option Cache → CacheStats
stats_of none = record { cached_blocks = 0; evictable_blocks = 0; evictions = 0 }
stats_of (some c) = record {
  cached_blocks = PrefixCache.len c.index;
  evictable_blocks = c.evictable.len;
  evictions = c.evictions;
}

abbrev pub cache_stats : Allocator → CacheStats
cache_stats a = stats_of a.cache

unfoldable pub is_shared : ℕ → M Allocator Bool
is_shared id = do rc ← ref_count id; pure (ltb 1 rc)

unfoldable pub is_allocated : ℕ → M Allocator Bool
is_allocated id = do rc ← ref_count id; pure (ltb 0 rc)
