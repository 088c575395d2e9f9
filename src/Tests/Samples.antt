-- ===== src/Tests/Samples.antt =====
-- Small pools, tables and lists that the tests share, with the invariants that they meet.
use paged_kv_cache.Prelude.{ℕ, refl, none, some, [], ◌∷◌, ◌==◌, if◌then◌else◌, arith}
use paged_kv_cache.Lru.{Lru}
use paged_kv_cache.Lru
use paged_kv_cache.Lru.Refine.{Represents, pushed, pushed-Represents, new-Represents}
use paged_kv_cache.PrefixCache.{PrefixIndex, Key, find}
use paged_kv_cache.PrefixCache
use paged_kv_cache.PrefixCache.Agreement.{Agrees, new-Agrees, registered, registered-Agrees}
use paged_kv_cache.Allocator.{Allocator}
use paged_kv_cache.Allocator.Entries.{Ordered}
use paged_kv_cache.Allocator.Invariant.{Inv}
use paged_kv_cache.BlockTable.{BlockTable}
use paged_kv_cache.BlockTable.Owned.{Fits, Owns}

-- Four blocks; block 0 has two owners.
abbrev pub shared_pool : Allocator
shared_pool = record {
  num_blocks = 4;
  free_list = 1 ∷ 2 ∷ 3 ∷ [];
  ref_counts = record { size = 4; at = λ i. if i == 0 then 2 else 0 };
  total_allocated = 1;
  cache = none;
}

pub shared_pool-Inv : Inv [] shared_pool
shared_pool-Inv = record {
  size = refl;
  small = omega arith;
  bounded = λ i h. ground arith;
  caching = refl;
  partition = λ i h. ground arith;
  outside = λ i h. ground arith;
  clean = λ i h. refl;
  held = λ i h. absurd (omega arith);
}

-- Three tokens in block 0, which another table shares.
abbrev pub three_tokens : BlockTable
three_tokens = record { blocks = 0 ∷ []; num_tokens = 3; block_size = 4 }

abbrev pub one_other : ℕ → ℕ
one_other i = if i == 0 then 1 else 0

pub three_tokens-Fits : Fits three_tokens
three_tokens-Fits = record { positive = omega arith; blocks = refl }

pub three_tokens-Owns : Owns one_other three_tokens shared_pool
three_tokens-Owns = record {
  valid = ([], shared_pool-Inv);
  counts = λ i h. ground arith;
  within = λ i h. ground arith;
}

-- The list that holds cell 2 and then cell 0, of three.
abbrev pub two_cells : Lru
two_cells = pushed (pushed (Lru.new 3) 2) 0

pub two_cells-Represents : Represents 3 two_cells (2 ∷ 0 ∷ [])
two_cells-Represents =
    pushed-Represents 3 (pushed (Lru.new 3) 2) (2 ∷ [])
      (pushed-Represents 3 (Lru.new 3) [] (new-Represents 3 (omega arith)) 2 (omega arith) refl) 0
      (omega arith) refl

abbrev pub greeting : Key
greeting = record { parent = 0; tokens = 7 ∷ 8 ∷ [] }

-- Block 1 of three is cached under the greeting.
abbrev pub one_entry : PrefixIndex
one_entry = registered (PrefixCache.new 3) 1 greeting

pub one_entry-Agrees : Agrees 3 one_entry
unfolding PrefixCache.new find
one_entry-Agrees =
    registered-Agrees 3 (PrefixCache.new 3) 1 greeting (new-Agrees 3) (omega arith) refl refl

-- Three blocks: block 1 is cached and unowned, block 0 is owned, block 2 is free.
abbrev pub caching_pool : Allocator
caching_pool = record {
  num_blocks = 3;
  free_list = 2 ∷ [];
  ref_counts = record { size = 3; at = λ i. if i == 0 then 1 else 0 };
  total_allocated = 2;
  cache = some (record { index = one_entry; evictable = pushed (Lru.new 3) 1; evictions = 0 });
}

pub caching_pool-Inv : Inv (1 ∷ []) caching_pool
unfolding PrefixCache.new
caching_pool-Inv = record {
  size = refl;
  small = omega arith;
  bounded = λ i h. ground arith;
  caching = (
    one_entry-Agrees,
    pushed-Represents 3 (Lru.new 3) [] (new-Represents 3 (omega arith)) 1 (omega arith) refl,
  );
  partition = λ i h. ground arith;
  outside = λ i h. ground arith;
  clean = λ i h. ground arith;
  held = λ i h. ground arith;
}

pub caching_pool-Ordered : Ordered caching_pool.cache
unfolding PrefixCache.new
caching_pool-Ordered = record { positive = ground arith; parents = λ i e k h. ground (arith, h) }

-- The same two owners of block 0, with every other block owned too.
abbrev pub drained_pool : Allocator
drained_pool = record {
  num_blocks = 1;
  free_list = [];
  ref_counts = record { size = 1; at = λ i. if i == 0 then 2 else 0 };
  total_allocated = 1;
  cache = none;
}

pub drained-Owns : Owns one_other three_tokens drained_pool
drained-Owns = record {
  valid = (
    [],
    record {
      size = refl;
      small = omega arith;
      bounded = λ i h. ground arith;
      caching = refl;
      partition = λ i h. ground arith;
      outside = λ i h. omega arith;
      clean = λ i h. refl;
      held = λ i h. absurd (omega arith);
    },
  );
  counts = λ i h. ground arith;
  within = λ i h. ground arith;
}
