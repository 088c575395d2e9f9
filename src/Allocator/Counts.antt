-- ===== src/Allocator/Counts.antt =====
-- What `incref` of allocator.rs does to a valid pool, on every branch.
use paged_kv_cache.Prelude.{ℕ, ◌+◌, ◌≤◌, ◌<◌, ◌≡◌, refl, List, update, arith}
use paged_kv_cache.Error.{CacheError, invalid_block, block_not_allocated, ref_count_overflow}
use paged_kv_cache.Outcome.{ok, err, Post}
use paged_kv_cache.Allocator.{Allocator, max_refcount, incref}
use paged_kv_cache.Allocator.Invariant.{Inv}
use native.Mathlib.Decide.{dec_lt, ℕ_discrete}

-- The pool with another refcount at one block.
abbrev pub counted : Allocator → ℕ → ℕ → Allocator
counted a id rc = record a { ref_counts = update a.ref_counts id rc }

-- Why a count cannot be changed.
pub data Refused (a : Allocator) (id : ℕ) : CacheError → Type 0 where
  outside : a.num_blocks ≤ id → Refused a id (invalid_block id a.num_blocks)
  unowned : id < a.num_blocks → a.ref_counts.at id ≡ 0 → Refused a id (block_not_allocated id)
  saturated :
      id < a.num_blocks
      → a.ref_counts.at id ≡ max_refcount
      → Refused a id (ref_count_overflow id max_refcount)

pub counted-Inv :
    (order : List ℕ) (a : Allocator) (id rc : ℕ)
    → Inv order a
    → 0 < a.ref_counts.at id
    → 0 < rc
    → rc ≤ max_refcount
    → Inv order (counted a id rc)
counted-Inv order a id rc v h k l = record {
  size = v.size;
  small = v.small;
  bounded = λ i m. ground (arith, v.bounded i m);
  caching = v.caching;
  partition = λ i m. ground (arith, v.partition i m);
  outside = v.outside;
  clean = v.clean;
  held = v.held;
}

module _ (a : Allocator) (id : ℕ) (sized : a.ref_counts.size ≡ a.num_blocks) where
  incref_outside : a.num_blocks ≤ id → incref id a ≡ err (invalid_block id a.num_blocks) a
  unfolding incref
  incref_outside h = ground arith

  incref_unowned :
      id < a.num_blocks → a.ref_counts.at id ≡ 0 → incref id a ≡ err (block_not_allocated id) a
  unfolding incref
  incref_unowned h k = ground arith

  incref_saturated :
      id < a.num_blocks
      → a.ref_counts.at id ≡ max_refcount
      → incref id a ≡ err (ref_count_overflow id max_refcount) a
  unfolding incref
  incref_saturated h k = ground arith

  pub incref-eq :
      id < a.num_blocks
      → 0 < a.ref_counts.at id
      → a.ref_counts.at id < max_refcount
      → incref id a ≡ ok (a.ref_counts.at id + 1) (counted a id (a.ref_counts.at id + 1))
  unfolding incref
  incref-eq h k l = ground arith

-- `incref` adds one owner to an owned block of a valid pool whose count is below the limit, changes
-- nothing else and keeps the pool valid. A block outside the pool, one with no owner and one at the
-- limit are refused, each with its error, and nothing changes.
pub incref-Post :
    (order : List ℕ) (a : Allocator) (id : ℕ)
    → Inv order a
    → Post
        (λ rc b.
          (id < a.num_blocks)
          × (0 < a.ref_counts.at id)
          × (rc ≡ a.ref_counts.at id + 1)
          × (b ≡ counted a id rc)
          × Inv order b)
        (λ e b. Refused a id e × (b ≡ a))
        (incref id a)
incref-Post order a id v = elim (dec_lt id a.num_blocks) [
  | no out ↦
      let h : a.num_blocks ≤ id = omega arith in rw (incref_outside a id v.size h) (outside h, refl)
  | yes in_pool ↦ elim (ℕ_discrete (a.ref_counts.at id) 0) [
    | yes zero_rc ↦ rw (incref_unowned a id v.size in_pool zero_rc) (unowned in_pool zero_rc, refl)
    | no owned ↦ elim (ℕ_discrete (a.ref_counts.at id) max_refcount) [
      | yes full ↦ rw (incref_saturated a id v.size in_pool full) (saturated in_pool full, refl)
      | no room ↦
          let l : a.ref_counts.at id < max_refcount = omega (arith, v.bounded id) in
          rw (incref-eq a id v.size in_pool (omega arith) l) (
            in_pool,
            omega arith,
            refl,
            refl,
            counted-Inv order a id (a.ref_counts.at id + 1) v (omega arith) (omega arith)
                (omega arith),
          )
    ]
  ]
]
