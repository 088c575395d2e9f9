-- ===== src/Scheduler/Acquire.antt =====
-- What the first part of an admission in scheduler.rs does to the pool: the blocks that
-- `match_prefix` found are acquired, and those of the prompt registered.
use paged_kv_cache.Allocator.Entries.{Older, Older-same, Older-trans, Ordered, next_entry}
use paged_kv_cache.Prelude.{
  ◌^◌, ℕ, zero, suc, ◌+◌, ◌*◌, ◌≤◌, ◌<◌, ◌≡◌, refl, inl, inr, true, false, some, List, [], ◌∷◌, ◌∙◌,
  count, length, length-drop, drop, get_elem?, Bool-cases, is_some, arith,
}
use paged_kv_cache.Outcome.{ok, Returns, Returns-eq, Post-mono}
use paged_kv_cache.Allocator.{
  Allocator, num_free, max_refcount, acquire_cached, cache_block, prefix_caching,
}
use paged_kv_cache.Allocator.Invariant.{IsValid, cached}
use paged_kv_cache.Allocator.Reuse.{acquire_cached-Acquired, cache_block-Registered}
use paged_kv_cache.Allocator.Match.{Reusable, unowned_in}
use paged_kv_cache.Allocator.Chunks.{chunks_exact, length-chunks_exact}
use paged_kv_cache.BlockTable.{BlockTable}
use paged_kv_cache.Scheduler.Step.{acquire_all, cache_chunks, cache_prompt}
use native.Mathlib.Nat.{le_of_mul-le-mul_right}

-- Each block has one owner more for each time that it is in the list, at the price of no more free
-- blocks than those in the list that had no owner.
pub record Taken (a : Allocator) (ids : List ℕ) (b : Allocator) : Type 0 where
  pub valid : IsValid b
  pub blocks : b.num_blocks ≡ a.num_blocks
  pub caches : is_some b.cache ≡ is_some a.cache
  pub counts : (i : ℕ) → b.ref_counts.at i ≡ a.ref_counts.at i + count i ids
  pub kept : (i : ℕ) → cached b.cache i ≡ cached a.cache i
  pub free : num_free a ≤ num_free b + unowned_in a ids
  pub older : Older a.cache b.cache

Reusable-kept :
    (a b : Allocator) (ids : List ℕ)
    → b.num_blocks ≡ a.num_blocks
    → ((i : ℕ) → cached b.cache i ≡ cached a.cache i)
    → Reusable a ids
    → Reusable b ids
Reusable-kept a b [] n k r = tt
Reusable-kept a b (x ∷ xs) n k r = (ground (arith, n, r.0), k x ∙ r.1, Reusable-kept a b xs n k r.2)

-- Owners that come to some blocks leave no more of them without one.
unowned_in-less :
    (a b : Allocator) (ids : List ℕ)
    → ((i : ℕ) → a.ref_counts.at i ≤ b.ref_counts.at i)
    → unowned_in b ids ≤ unowned_in a ids
unowned_in-less a b [] h = omega arith
unowned_in-less a b (x ∷ xs) h = ground (arith, h x, unowned_in-less a b xs h)

pub acquire_all-Taken :
    (ids : List ℕ) (a : Allocator)
    → IsValid a
    → Reusable a ids
    → ((i : ℕ) → 0 < count i ids → a.ref_counts.at i + count i ids ≤ max_refcount)
    → Returns (λ _ b. Taken a ids b) (acquire_all ids a)
unfolding acquire_all
acquire_all-Taken [] a v r l = record {
  valid = v;
  blocks = refl;
  caches = refl;
  counts = λ i. omega arith;
  kept = λ i. refl;
  free = omega arith;
  older = Older-same a.cache a.cache refl;
}
acquire_all-Taken (id ∷ ids) a v r l =
    let (rc, b, p, x) =
      Returns-eq _ (acquire_cached id a)
        (acquire_cached-Acquired v.0 a id v.1 r.0 r.1 (ground (arith, l id))) in
    let (u, c, q, y) = Returns-eq _ (acquire_all ids b) (
      acquire_all-Taken ids b x.valid (Reusable-kept a b ids x.blocks x.kept r.2)
        (λ i k. ground (arith, l i, x.counts i, x.after))) in
    let s : acquire_all (id ∷ ids) a ≡ ok tt c = ground (arith, p, q) in
    rw s (record {
      valid = y.valid;
      blocks = y.blocks ∙ x.blocks;
      caches = y.caches ∙ x.caches;
      counts = λ i. ground (arith, y.counts i, x.counts i, x.after);
      kept = λ i. y.kept i ∙ x.kept i;
      older = Older-trans a.cache b.cache c.cache x.older y.older;
      free = omega (
        arith,
        x.free,
        y.free,
        unowned_in-less a b ids (λ i. ground (arith, x.counts i, x.after)),
      );
    })

get_elem?-some : (k : ℕ) (xs : List ℕ) → k < length xs → (x : ℕ) × (get_elem? xs k ≡ some x)
get_elem?-some k [] h = absurd (omega (arith, h))
get_elem?-some zero (x ∷ xs) h = (x, refl)
get_elem?-some (suc k) (x ∷ xs) h = get_elem?-some k xs (omega (arith, h))

-- The blocks of a prompt registered: no count changes, and no block becomes free or taken.
-- `parent` is the entry before the first of the `n` registrations.
pub record Prompted (n parent : ℕ) (a b : Allocator) : Type 0 where
  pub valid : IsValid b
  pub blocks : b.num_blocks ≡ a.num_blocks
  pub caches : is_some b.cache ≡ is_some a.cache
  pub counts : (i : ℕ) → b.ref_counts.at i ≡ a.ref_counts.at i
  pub free : num_free b ≡ num_free a
  pub ordered :
      Ordered a.cache
      → parent < next_entry a.cache
      → next_entry a.cache + n < 2 ^ 64
      → Ordered b.cache × (next_entry b.cache ≤ next_entry a.cache + n)

-- The blocks are in the pool and have owners.
abbrev pub HeldIn : Allocator → List ℕ → Type 0
HeldIn a blocks =
    (k block : ℕ)
    → get_elem? blocks k ≡ some block
    → (block < a.num_blocks) × (0 < a.ref_counts.at block)

unregistered : (n parent : ℕ) (a : Allocator) → IsValid a → Prompted n parent a a
unregistered n parent a v = record {
  valid = v;
  blocks = refl;
  caches = refl;
  counts = λ i. refl;
  free = refl;
  ordered = λ w l m. (w, omega arith);
}

-- Room for more registrations is room for fewer.
Prompted-more :
    (n m parent : ℕ) (a b : Allocator) → n ≤ m → Prompted n parent a b → Prompted m parent a b
Prompted-more n m parent a b h x = record {
  valid = x.valid;
  blocks = x.blocks;
  caches = x.caches;
  counts = x.counts;
  free = x.free;
  ordered =
      λ w l k. let (w', n') = x.ordered w l (omega (arith, h, k)) in (w', omega (arith, h, n'));
}

pub cache_chunks-Prompted :
    (blocks : List ℕ) (chunks : List (List ℕ)) (i parent : ℕ) (a : Allocator)
    → IsValid a
    → HeldIn a blocks
    → i + length chunks ≤ length blocks
    → Returns (λ _ b. Prompted (length chunks) parent a b) (cache_chunks blocks i parent chunks a)
unfolding cache_chunks
cache_chunks-Prompted blocks [] i parent a v h l = unregistered 0 parent a v
cache_chunks-Prompted blocks (chunk ∷ chunks) i parent a v h l =
    let (block, g) = get_elem?-some i blocks (omega arith) in
    let (e, b, p, x) =
      Returns-eq _ (cache_block block parent chunk a)
        (cache_block-Registered v.0 a block parent chunk v.1 (h i block g).0 (h i block g).1) in
    let (u, c, q, y) = Returns-eq _ (cache_chunks blocks (i + 1) e chunks b) (
      cache_chunks-Prompted blocks chunks (i + 1) e b x.valid
        (λ k d m. ground (arith, h k d m, x.blocks, x.counts)) (omega (arith, l))) in
    let r : cache_chunks blocks i parent (chunk ∷ chunks) a ≡ ok tt c = ground (arith, g, p, q) in
    rw r (record {
      valid = y.valid;
      blocks = y.blocks ∙ x.blocks;
      caches = y.caches ∙ x.caches;
      counts = λ j. ground (arith, y.counts j, x.counts);
      free = y.free ∙ x.free;
      ordered = λ w l m.
          let (w', l', n') = x.ordered w l (omega (arith, m)) in
          let (w'', n'') = y.ordered w' l' (omega (arith, m, n')) in (w'', omega (arith, n', n''));
    })

module _ (block_size : ℕ) (t : BlockTable) (prompt : List ℕ) (skip parent : ℕ) (a : Allocator) where
  prompt_on-eq :
      0 < block_size
      → prefix_caching a ≡ true
      → cache_prompt block_size t prompt skip parent a
        ≡ cache_chunks t.blocks skip parent (drop skip (chunks_exact block_size prompt)) a
  unfolding cache_prompt
  prompt_on-eq h on = ground arith

  prompt_off-eq :
      prefix_caching a ≡ false → cache_prompt block_size t prompt skip parent a ≡ ok tt a
  unfolding cache_prompt
  prompt_off-eq off = ground arith

chunks_fit :
    (n : ℕ) (xs : List ℕ) (k : ℕ) → 0 < n → length xs ≤ k * n → length (chunks_exact n xs) ≤ k
chunks_fit n xs k h l =
    le_of_mul-le-mul_right {k = n} (omega (arith, length-chunks_exact n xs, l)) h

one_each : (b n : ℕ) → 0 < b → n ≤ n * b
one_each b n h = grind arith

-- A prompt that the blocks hold is registered without an index out of range.
pub cache_prompt-Prompted :
    (block_size : ℕ) (t : BlockTable) (prompt : List ℕ) (skip parent : ℕ) (a : Allocator)
    → 0 < block_size
    → IsValid a
    → HeldIn a t.blocks
    → skip ≤ length t.blocks
    → length prompt ≤ length t.blocks * block_size
    → Returns
        (λ _ b. Prompted (length prompt) parent a b)
        (cache_prompt block_size t prompt skip parent a)
cache_prompt-Prompted block_size t prompt skip parent a h v held few fit =
    elim (Bool-cases (prefix_caching a)) [
      | inl on ↦
          let chunks = drop skip (chunks_exact block_size prompt) in
          let few_chunks : length chunks ≤ length prompt = omega (
            arith,
            length-drop skip (chunks_exact block_size prompt),
            chunks_fit block_size prompt (length prompt) h (one_each block_size (length prompt) h),
          ) in
          rw (prompt_on-eq block_size t prompt skip parent a h on) (
            Post-mono _ _ _ _ (cache_chunks t.blocks skip parent chunks a)
              (cache_chunks-Prompted t.blocks chunks skip parent a v held (
                omega (
                  arith,
                  length-drop skip (chunks_exact block_size prompt),
                  few,
                  chunks_fit block_size prompt (length t.blocks) h fit,
                )))
              (λ _ b x. Prompted-more _ _ parent a b few_chunks x) (λ _ _ x. x))
      | inr off ↦
          rw (prompt_off-eq block_size t prompt skip parent a off)
            (unregistered (length prompt) parent a v)
    ]
