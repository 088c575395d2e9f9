-- ===== src/Scheduler/Progress.antt =====
-- Progress of `admit` of scheduler.rs: when nothing runs, the front of the queue is admitted as soon
-- as the pool can hold it.
use paged_kv_cache.Prelude.{
  subst, sym, ◌%◌, Every, ℕ, zero, suc, ◌+◌, ◌-◌, ◌*◌, ◌/◌, ◌^◌, ◌≤◌, ◌<◌, ◌≡◌, refl, true, List,
  [], ◌∷◌, ltb, length, length-append, count, take, div_ceil, arith, ◌∙◌, ap,
}
use native.Mathlib.Nat.{div-lt_iff_lt-mul, lt_of_mul-lt-mul_right}
use paged_kv_cache.Outcome.{M, and_then, ok, Returns, Returns-eq}
use paged_kv_cache.Allocator.{Allocator, PrefixMatch, match_prefix, num_free}
use paged_kv_cache.Allocator.Entries.{next_entry}
use paged_kv_cache.Allocator.Invariant.{Inv, num_free-eq}
use paged_kv_cache.Allocator.Match.{Matched, unowned_in, match_prefix-Matched}
use paged_kv_cache.Scheduler.{PendingSeq}
use paged_kv_cache.Scheduler.Tables.{IsSound, counted_below, counted_below-cons}
use paged_kv_cache.Scheduler.Step.{
  Stepping, matchable, can_admit, admit_one, admit_round, admit_loop, admit, reserve,
}
use paged_kv_cache.Scheduler.Admit.{entered, sub-eq, admit_one-Admitted}
use paged_kv_cache.Scheduler.Admission.{
  prompts, HasRoom, Entered, Entered-step, front-eq, hit_fits, admit-eq, admit_loop-Entered,
}

counted_below-length : (n : ℕ) (xs : List ℕ) → counted_below n xs ≤ length xs
counted_below-length n [] = omega (arith, none_below n)
  where
    none_below : (n : ℕ) → counted_below n [] ≡ 0
    none_below zero = refl
    none_below (suc n) = omega (arith, none_below n)
counted_below-length n (x ∷ xs) =
    ground (arith, counted_below-cons n x xs, counted_below-length n xs)

counted_below-each :
    (n : ℕ) (xs ys : List ℕ)
    → ((i : ℕ) → i < n → count i xs + count i ys ≡ 1)
    → counted_below n xs + counted_below n ys ≡ n
counted_below-each zero xs ys h = refl
counted_below-each (suc n) xs ys h =
    omega (arith, h n (omega arith), counted_below-each n xs ys (λ i l. h i (omega (arith, l))))

-- A pool without owners is free.
unowned-num_free :
    (order : List ℕ) (a : Allocator)
    → Inv order a
    → ((i : ℕ) → i < a.num_blocks → a.ref_counts.at i ≡ 0)
    → a.num_blocks ≤ num_free a
unowned-num_free order a v h = omega (
  arith,
  num_free-eq order a v,
  counted_below-each a.num_blocks a.free_list order (λ i l. ground (arith, v.partition i l, h i l)),
  counted_below-length a.num_blocks a.free_list,
  counted_below-length a.num_blocks order,
)

unowned_in-le : (a : Allocator) (ids : List ℕ) → unowned_in a ids ≤ length ids
unowned_in-le a [] = omega arith
unowned_in-le a (i ∷ ids) = ground (arith, unowned_in-le a ids)

div_ceil-le : (n b m : ℕ) → 0 < b → n ≤ m * b → div_ceil n b ≤ m
div_ceil-le n b m h l =
    let less : (n + (b - 1)) / b < m + 1 =
      (div-lt_iff_lt-mul {k = b} {x = n + (b - 1)} {y = m + 1} h).1 (omega (arith, h, l)) in
    omega (arith, less)

-- Blocks that are reused and fresh ones for the rest are no more than the whole context fills.
shared_fits :
    (k n b total : ℕ)
    → 0 < b
    → k * b ≤ n
    → n + 1 ≤ total * b
    → k + div_ceil (n - k * b + 1) b ≤ total
shared_fits k n b total h few room =
    let fewer : k < total = lt_of_mul-lt-mul_right b (omega (arith, few, room)) in
    let rest : total ≡ k + (total - k) = omega (arith, fewer) in
    let split : total * b ≡ k * b + (total - k) * b = ap (λ x. x * b) rest ∙ omega arith in
    let fresh = div_ceil-le (n - k * b + 1) b (total - k) h (omega (arith, few, room, split)) in
    omega (arith, fresh, fewer)

module _ (s : Stepping) (pending : PendingSeq) (rest : List PendingSeq) (w : IsSound s.scheduler)
    (idle : s.scheduler.running ≡ []) (front : s.scheduler.waiting ≡ pending ∷ rest)
    (batch : 0 < s.scheduler.max_batch_size)
    (room : pending.context_len + 1
      ≤ s.scheduler.allocator.num_blocks * s.scheduler.block_size) where
  fits_idle :
      (hit : PrefixMatch)
      → Matched s.scheduler.allocator hit
      → length hit.blocks * s.scheduler.block_size ≤ pending.context_len
      → pending.context_len + 1 < 2 ^ 64
      → can_admit s.scheduler pending hit 0 ≡ true
  fits_idle hit m few long =
      let a : Allocator = s.scheduler.allocator in
      let (order, v) = w.valid in
      let free = unowned-num_free order a v (λ i l. ground (arith, w.counts i l, idle)) in
      let wrapped : (pending.context_len - length hit.blocks * s.scheduler.block_size + 1) % 2 ^ 64
          ≡ pending.context_len - length hit.blocks * s.scheduler.block_size + 1 =
        ground (arith, few, long) in
      let exact =
        sub-eq pending.context_len (length hit.blocks * s.scheduler.block_size) few
          (omega (arith, room, w.capacity)) in
      ground (
        arith,
        free,
        exact,
        wrapped,
        m.unowned,
        unowned_in-le a hit.blocks,
        shared_fits (length hit.blocks) pending.context_len s.scheduler.block_size a.num_blocks
            w.positive few room,
      )

  first-eq :
      (n : ℕ) (hit : PrefixMatch) (more : ℕ) (t : Stepping)
      → match_prefix
          (take (matchable pending) pending.prompt)
          s.scheduler.block_size
          s.scheduler.allocator
        ≡ ok hit s.scheduler.allocator
      → can_admit s.scheduler pending hit 0 ≡ true
      → admit_one pending rest hit s ≡ ok more t
      → admit_loop (suc n) 0 s ≡ admit_loop n (0 + more) t
  unfolding admit_loop
  first-eq n hit more t m fits p =
      let below : ltb (length s.scheduler.running) s.scheduler.max_batch_size ≡ true =
        ground (arith, idle, batch) in
      let next : ℕ → M Stepping (Unit {0}) = λ k. admit_loop n (0 + k) in
      ap (λ free. admit_round next 0 free s.scheduler.waiting s) below
      ∙ ap (λ queue. admit_round next 0 true queue s) front
      ∙ front-eq next 0 s pending rest hit true m w.positive fits
      ∙ ap (λ o. and_then o next) p

  reserve-idle : reserve s.scheduler.running s.scheduler.allocator ≡ ok 0 s.scheduler.allocator
  unfolding reserve
  reserve-idle = rw idle refl

  -- When nothing runs, the batch limit is not 0 and the pool has room for the context of the front
  -- of the queue and one token more, `admit` of a sound scheduler whose cache has ids left for the
  -- prompts of the queue, and in which no waiting context is as long as the largest `usize`, admits
  -- it, whatever is cached: afterwards a sequence runs, and those that were admitted are a front of
  -- the queue, in its order.
  pub admit-Progress :
      HasRoom s.scheduler
      → Returns (λ _ t. Entered s t × (0 < length t.scheduler.running)) (admit s)
  admit-Progress ids =
      let a : Allocator = s.scheduler.allocator in
      let bs : ℕ = s.scheduler.block_size in
      let tokens : List ℕ = take (matchable pending) pending.prompt in
      let (order, v) = w.valid in
      let (hit, b, p, (m, few, same)) =
        Returns-eq _ (match_prefix tokens bs a)
          (match_prefix-Matched order a tokens bs v w.positive) in
      let found : match_prefix tokens bs a ≡ ok hit a = p ∙ ap (ok hit) same in
      let short = hit_fits pending (length hit.blocks * bs) few in
      let held : length hit.blocks * bs ≤ pending.context_len = omega (arith, short) in
      let left : next_entry a.cache + (length pending.prompt + prompts rest) < 2 ^ 64 =
        ground (arith, ids.0, front) in
      let long : Every (λ p. p.context_len + 1 < 2 ^ 64) (pending ∷ rest) =
        subst (Every (λ p. p.context_len + 1 < 2 ^ 64)) front ids.1 in
      let fits = fits_idle hit m held long.0 in
      let (more, t, q, x) = Returns-eq _ (admit_one pending rest hit s) (
        admit_one-Admitted s pending rest hit 0 w front (ground (arith, idle, batch)) m held
          (omega (arith, left)) long.0 fits) in
      let after : next_entry t.scheduler.allocator.cache + prompts t.scheduler.waiting < 2 ^ 64 =
        rw x.waiting (omega (arith, x.ids, left)) in
      let later : Every (λ p. p.context_len + 1 < 2 ^ 64) t.scheduler.waiting =
        subst (Every (λ p. p.context_len + 1 < 2 ^ 64)) (sym x.waiting) long.1 in
      let (_, u, r, y) =
        Returns-eq _ (admit_loop (length rest) (0 + more) t)
          (admit_loop-Entered (length rest) (0 + more) t (x.owns, (after, later))) in
      let rounds : length s.scheduler.waiting ≡ suc (length rest) = ground (arith, front) in
      let all : admit_loop (length s.scheduler.waiting) 0 s ≡ ok tt u =
        rw rounds (first-eq (length rest) hit more t found fits q ∙ r) in
      rw (admit-eq s u 0 reserve-idle all) (
        Entered-step s t u pending rest (length hit.blocks * bs) front short x y,
        ground (
          arith,
          y.running,
          x.running,
          length-append s.scheduler.running (entered pending x.table (length hit.blocks * bs) ∷ []),
        ),
      )
