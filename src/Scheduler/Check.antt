-- ===== src/Scheduler/Check.antt =====
-- `check_invariants` of scheduler.rs as a function, and what a sound scheduler makes of it.
use paged_kv_cache.Prelude.{
  ℕ, zero, suc, ◌+◌, ◌%◌, ◌^◌, ◌≤◌, ◌<◌, ◌≡◌, refl, Bool, true, false, some, List, [], ◌∷◌, ltb,
  if◌then◌else◌, length, map, count, get_elem?, Array, filled, update, ◌∙◌, arith,
}
use paged_kv_cache.Outcome.{M, ok, pure, get, ◌>>=◌}
use paged_kv_cache.Lru.{nil}
use paged_kv_cache.Allocator.{Allocator, max_refcount, ref_count}
use paged_kv_cache.Allocator.Check
use paged_kv_cache.Allocator.Check.{check_invariants-Inv}
use paged_kv_cache.BlockTable.{BlockTable}
use paged_kv_cache.BlockTable.Ownership.{count_blocks, count_tables, check_counts, check_ownership}
use paged_kv_cache.Scheduler.{RunningSeq, Scheduler, on_pool}
use paged_kv_cache.Scheduler.Tables.{SeqFits, IsSound, owners, owners-le-length}

unfoldable pub check_invariants : M Scheduler Bool
check_invariants = do
  s ← get
  if ltb s.max_batch_size (length s.running)
      then pure false
      else on_pool (check_ownership (map (λ q. q.table) s.running))

count_blocks-eq :
    (n : ℕ) (bs : List ℕ) (acc : Array ℕ)
    → acc.size ≡ n
    → ((j : ℕ) → n ≤ j → count j bs ≡ 0)
    → ((j : ℕ) → acc.at j + count j bs < 2 ^ 32)
    → (o : Array ℕ) × (count_blocks bs acc ≡ some o)
      × (o.size ≡ n)
      × ((j : ℕ) → o.at j ≡ acc.at j + count j bs)
unfolding count_blocks
count_blocks-eq n [] acc size within small = (acc, refl, size, λ j. omega arith)
count_blocks-eq n (b ∷ bs) acc size within small =
    let wrapped : (acc.at b + 1) % 2 ^ 32 ≡ acc.at b + 1 = ground (arith, small b) in
    let (o, p, z, q) =
      count_blocks-eq n bs (update acc b ((acc.at b + 1) % 2 ^ 32)) size
        (λ j l. ground (arith, within j l)) (λ j. ground (arith, small j, wrapped)) in
    (o, ground (arith, p, size, within b), z, λ j. ground (arith, q j, wrapped))

count_tables-eq :
    (a : Allocator) (block_size n : ℕ) (ss : List RunningSeq) (acc : Array ℕ)
    → acc.size ≡ n
    → ((k : ℕ) (seq : RunningSeq) → get_elem? ss k ≡ some seq → SeqFits block_size seq)
    → ((j : ℕ) → n ≤ j → owners j ss ≡ 0)
    → ((j : ℕ) → acc.at j + owners j ss < 2 ^ 32)
    → (o : Array ℕ) × (count_tables (map (λ q. q.table) ss) acc a ≡ ok (some o) a)
      × (o.size ≡ n)
      × ((j : ℕ) → o.at j ≡ acc.at j + owners j ss)
unfolding count_tables
count_tables-eq a block_size n [] acc size fits within small = (acc, refl, size, λ j. omega arith)
count_tables-eq a block_size n (s ∷ ss) acc size fits within small =
    let first : SeqFits block_size s = fits 0 s refl in
    let (o, p, z, q) =
      count_blocks-eq n s.table.blocks acc size (λ j l. omega (arith, within j l))
        (λ j. omega (arith, small j)) in
    let (o', p', z', q') =
      count_tables-eq a block_size n ss o z (λ k x e. fits (suc k) x e)
        (λ j l. omega (arith, within j l)) (λ j. omega (arith, small j, q j)) in
    let long = first.fits.blocks in
    let sized = first.fits.positive in
    let r : count_tables (s.table ∷ map (λ q. q.table) ss) acc a
        ≡ count_tables (map (λ q. q.table) ss) o a =
      ground (arith, long, sized, p) in
    (o', r ∙ p', z', λ j. omega (arith, q j, q' j))

check_counts-eq :
    (a : Allocator) (counts : ℕ → ℕ) (n : ℕ)
    → a.ref_counts.size ≡ a.num_blocks
    → a.num_blocks ≤ nil
    → n ≤ a.num_blocks
    → ((i : ℕ) → i < n → a.ref_counts.at i ≡ counts i)
    → check_counts counts n a ≡ ok true a
unfolding check_counts ref_count
check_counts-eq a counts zero size small l h = refl
check_counts-eq a counts (suc n) size small l h =
    let before =
      check_counts-eq a counts n size small (omega (arith, l)) (λ i k. h i (omega (arith, k))) in
    let id : n % 2 ^ 32 ≡ n = omega (arith, l, small) in
    let same = h n (omega arith) in rw (before, id) (ground (arith, l, size, same))

ownership-eq :
    (a : Allocator) (tables : List BlockTable) (o : Array ℕ)
    → Check.check_invariants a ≡ ok true a
    → count_tables tables (filled 0 a.num_blocks) a ≡ ok (some o) a
    → check_counts o.at o.size a ≡ ok true a
    → check_ownership tables a ≡ ok true a
unfolding check_ownership
ownership-eq a tables o valid p counted = rw valid (rw p counted)

within_batch-eq :
    (s : Scheduler)
    → length s.running ≤ s.max_batch_size
    → check_ownership (map (λ q. q.table) s.running) s.allocator ≡ ok true s.allocator
    → check_invariants s ≡ ok true s
unfolding check_invariants
within_batch-eq s l p = ground (arith, l, p)

-- A sound scheduler passes its own check of the batch limit, of the pool with its free list, its
-- evictable blocks and its index, and of every count against the references of the running tables;
-- the check changes nothing and does not panic.
pub check_invariants-IsSound : (s : Scheduler) → IsSound s → check_invariants s ≡ ok true s
check_invariants-IsSound s w =
    let a : Allocator = s.allocator in
    let (order, v) = w.valid in
    let few : (j : ℕ) → owners j s.running ≤ max_refcount = λ j. omega (
      arith,
      owners-le-length j s.running (λ k seq e. (w.seqs k seq e).once j),
      w.batch,
      w.limit,
    ) in
    let valid = check_invariants-Inv order a v in
    let (o, p, z, q) =
      count_tables-eq a s.block_size a.num_blocks s.running (filled 0 a.num_blocks) refl w.seqs
        w.within (λ j. omega (arith, few j)) in
    let counted =
      check_counts-eq a o.at a.num_blocks v.size v.small (omega arith)
        (λ i l. omega (arith, w.counts i l, q i)) in
    within_batch-eq s w.batch
      (ownership-eq a (map (λ q. q.table) s.running) o valid p (rw z counted))
