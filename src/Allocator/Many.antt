-- ===== src/Allocator/Many.antt =====
-- What `allocate_many` of allocator.rs does to a valid pool.
use paged_kv_cache.Prelude.{
  ℕ, zero, suc, ◌+◌, ◌≤◌, ◌<◌, ◌≡◌, refl, ap, inl, inr, List, ◌∷◌, length, count, Bool-cases, ltb,
  ◌∙◌, arith,
}
use paged_kv_cache.Error.{out_of_blocks}
use paged_kv_cache.Outcome.{ok, Post, Returns, Returns-eq, Post-mono}
use paged_kv_cache.Allocator.{Allocator, num_free, allocate, allocate_loop, allocate_many}
use paged_kv_cache.Allocator.Invariant.{Inv, IsValid}
use paged_kv_cache.Allocator.Allocate.{Allocated, allocate-Returns}

-- `n` blocks handed out one after another: all different, all free before, all with one owner now.
pub record AllocatedMany (a : Allocator) (n : ℕ) (ids : List ℕ) (b : Allocator) : Type 0 where
  pub valid : IsValid b
  pub blocks : b.num_blocks ≡ a.num_blocks
  pub many : length ids ≡ n
  pub distinct : (i : ℕ) → count i ids ≤ 1
  pub unowned : (i : ℕ) → 0 < count i ids → (i < a.num_blocks) × (a.ref_counts.at i ≡ 0)
  pub counts : (i : ℕ) → b.ref_counts.at i ≡ count i ids + a.ref_counts.at i
  pub free : num_free b + n ≡ num_free a

AllocatedMany-cons :
    (order : List ℕ) (a b c : Allocator) (id n : ℕ) (ids : List ℕ)
    → Allocated order a id b
    → AllocatedMany b n ids c
    → AllocatedMany a (suc n) (id ∷ ids) c
AllocatedMany-cons order a b c id n ids al m = record {
  valid = m.valid;
  blocks = m.blocks ∙ al.blocks;
  many = ap suc m.many;
  distinct = λ i. ground (arith, al.counts i, m.distinct i, m.unowned i);
  unowned = λ i k. ground (arith, al.counts i, al.unowned, al.in_pool, al.blocks, m.unowned i);
  counts = λ i. ground (arith, al.counts i, al.unowned, m.counts i);
  free = omega (arith, m.free, al.free);
}

allocate_loop-AllocatedMany :
    (n : ℕ) (order : List ℕ) (a : Allocator)
    → Inv order a
    → n ≤ num_free a
    → Returns (AllocatedMany a n) (allocate_loop n a)
unfolding allocate_loop
allocate_loop-AllocatedMany zero order a v h = record {
  valid = (order, v);
  blocks = refl;
  many = refl;
  distinct = λ i. omega arith;
  unowned = λ i k. absurd (omega arith);
  counts = λ i. omega arith;
  free = omega arith;
}
allocate_loop-AllocatedMany (suc n) order a v h =
    let (id, b, p, al) = Returns-eq _ (allocate a) (allocate-Returns order a v (omega arith)) in
    let (ids, c, q, m) =
      Returns-eq _ (allocate_loop n b)
        (allocate_loop-AllocatedMany n al.valid.0 b al.valid.1 (omega (arith, al.free))) in
    let r : allocate_loop (suc n) a ≡ ok (id ∷ ids) c = ground arith in
    rw r (AllocatedMany-cons order a b c id n ids al m)

-- `allocate_many` of a valid pool is all or nothing: with `n` blocks free it hands out `n`
-- different blocks that had no owner and now have one each, and no other count changes; otherwise
-- it reports how many are free and changes nothing.
pub allocate_many-AllocatedMany :
    (n : ℕ) (order : List ℕ) (a : Allocator)
    → Inv order a
    → Post
        (AllocatedMany a n)
        (λ e b. (e ≡ out_of_blocks n (num_free a)) × (b ≡ a) × (num_free a < n))
        (allocate_many n a)
unfolding allocate_many
allocate_many-AllocatedMany n order a v = elim (Bool-cases (ltb (num_free a) n)) [
  | inl few ↦ rw few (refl, refl, ground arith)
  | inr enough ↦ rw enough (
      Post-mono (AllocatedMany a n) (AllocatedMany a n) (λ _ _. ⊥) _ (allocate_loop n a)
        (allocate_loop-AllocatedMany n order a v (ground arith)) (λ _ _ p. p) (λ e s p. absurd p))
]
