-- ===== src/BlockTable/Ownership.antt =====
-- `check_ownership` of block_table.rs as a function. Whether it returns `Ok` is what it computes;
-- its messages are not modelled.
use paged_kv_cache.Prelude.{
  ℕ, zero, suc, ◌+◌, ◌%◌, ◌^◌, Bool, true, false, ◌&&◌, Option, none, some, List, [], ◌∷◌, ◌==◌,
  ltb, if◌then◌else◌, length, div_ceil, Array, filled, update,
}
use paged_kv_cache.Outcome.{M, Outcome, ok, err, panic, ◌>>=◌, ◌>>◌, pure, get, divisor}
use paged_kv_cache.Allocator.{Allocator, ref_count}
use paged_kv_cache.Allocator.Check
use paged_kv_cache.BlockTable.{BlockTable}

-- The references of one table, counted in `u32`s; none if a block is outside the pool.
unfoldable pub count_blocks : List ℕ → Array ℕ → Option (Array ℕ)
count_blocks [] owners = some owners
count_blocks (b ∷ bs) owners =
    let rest = count_blocks bs (update owners b ((owners.at b + 1) % 2 ^ 32)) in
    if ltb b owners.size then rest else none

abbrev pub count_next :
    Option (Array ℕ) → (Array ℕ → M Allocator (Option (Array ℕ))) → M Allocator (Option (Array ℕ))
count_next none next = pure none
count_next (some owners) next = next owners

unfoldable pub count_tables : List BlockTable → Array ℕ → M Allocator (Option (Array ℕ))
count_tables [] owners = pure (some owners)
count_tables (t ∷ ts) owners = do
  divisor t.block_size
  let expected = div_ceil t.num_tokens t.block_size
  count_next (if length t.blocks == expected then count_blocks t.blocks owners else none)
      (λ o. count_tables ts o)

abbrev counts_as : ℕ → Outcome Allocator ℕ → Outcome Allocator Bool
counts_as n (ok rc a) = ok (rc == n) a
counts_as n (err e a) = ok false a
counts_as n panic = panic

-- The counts of the first `n` blocks against their references.
unfoldable pub check_counts : (ℕ → ℕ) → ℕ → M Allocator Bool
check_counts owners zero = pure true
check_counts owners (suc n) = do
  before ← check_counts owners n
  here ← (λ a. counts_as (owners n) (ref_count (n % 2 ^ 32) a))
  pure (before && here)

abbrev pub check_owners : Option (Array ℕ) → M Allocator Bool
check_owners none = pure false
check_owners (some owners) = check_counts owners.at owners.size

abbrev pub check_tables : Bool → List BlockTable → M Allocator Bool
check_tables false tables = pure false
check_tables true tables = do
  a ← get
  owners ← count_tables tables (filled 0 a.num_blocks)
  check_owners owners

unfoldable pub check_ownership : List BlockTable → M Allocator Bool
check_ownership tables = do valid ← Check.check_invariants; check_tables valid tables
