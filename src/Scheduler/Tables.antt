-- ===== src/Scheduler/Tables.antt =====
-- The running sequences of scheduler.rs as the owners of the blocks of its pool: the meaning of
-- `check_invariants`, and what a list of sequences says when one is taken out or written.
use paged_kv_cache.Prelude.{
  ◌*◌, ◌^◌, ℕ, zero, suc, ◌+◌, ◌-◌, ◌≤◌, ◌<◌, ◌≡◌, refl, inl, inr, Bool-cases, Option-cases, some,
  none, List, [], ◌∷◌, ◌++◌, ◌==◌, ◌⊎◌, ltb, if◌then◌else◌, length, count, get_elem?, arith,
}
use native.Mathlib.Nat.{le_trans, mul-le-mul_right}
use paged_kv_cache.BlockTable.Arithmetic.{blocks_hold}
use paged_kv_cache.Allocator.{max_refcount}
use paged_kv_cache.Allocator.Entries.{Ordered}
use paged_kv_cache.Allocator.Invariant.{IsValid}
use paged_kv_cache.BlockTable.Owned.{Fits, Owns}
use paged_kv_cache.Scheduler.{PendingSeq, RunningSeq, Scheduler, position, remove_at, set_at}

-- How many references to block `i` the tables of these sequences hold.
abbrev pub owners : ℕ → List RunningSeq → ℕ
owners i [] = 0
owners i (s ∷ ss) = count i s.table.blocks + owners i ss

-- A running sequence has as many blocks as its tokens fill, each of them once, and its prompt is
-- part of its tokens.
pub record SeqFits (block_size : ℕ) (seq : RunningSeq) : Type 0 where
  pub fits : Fits seq.table
  pub size : seq.table.block_size ≡ block_size
  pub once : (i : ℕ) → count i seq.table.blocks ≤ 1
  pub prompt : length seq.prompt ≤ seq.table.num_tokens

-- The prompt of a waiting sequence is part of its context, whose length is a `usize`.
pub record PendingFits (p : PendingSeq) : Type 0 where
  pub prompt : length p.prompt ≤ p.context_len
  pub small : p.context_len < 2 ^ 64

-- The pool is valid, its counts are the references of the running tables, the sequences fit, the
-- batch limit holds, and the sizes are in range. Waiting sequences own no blocks.
pub record IsSound (s : Scheduler) : Type 0 where
  pub valid : IsValid s.allocator
  pub counts :
      (i : ℕ) → i < s.allocator.num_blocks → s.allocator.ref_counts.at i ≡ owners i s.running
  pub within : (i : ℕ) → s.allocator.num_blocks ≤ i → owners i s.running ≡ 0
  pub seqs :
      (k : ℕ) (seq : RunningSeq) → get_elem? s.running k ≡ some seq → SeqFits s.block_size seq
  pub pending : (k : ℕ) (p : PendingSeq) → get_elem? s.waiting k ≡ some p → PendingFits p
  pub ordered : Ordered s.allocator.cache
  pub positive : 0 < s.block_size
  pub capacity : s.allocator.num_blocks * s.block_size < 2 ^ 64
  pub limit : s.max_batch_size ≤ max_refcount
  pub batch : length s.running ≤ s.max_batch_size

module _ (i : ℕ) where
  pub owners-append : (ss ts : List RunningSeq) → owners i (ss ++ ts) ≡ owners i ss + owners i ts
  owners-append [] ts = omega arith
  owners-append (s ∷ ss) ts = omega (arith, owners-append ss ts)

  pub owners-remove_at :
      (k : ℕ) (ss : List RunningSeq) (seq : RunningSeq)
      → get_elem? ss k ≡ some seq
      → owners i ss ≡ count i seq.table.blocks + owners i (remove_at k ss)
  owners-remove_at k [] seq h = ground (arith, h)
  owners-remove_at zero (s ∷ ss) seq h = ground (arith, h)
  owners-remove_at (suc k) (s ∷ ss) seq h = omega (arith, owners-remove_at k ss seq h)

  pub owners-set_at :
      (k : ℕ) (ss : List RunningSeq) (seq new : RunningSeq)
      → get_elem? ss k ≡ some seq
      → owners i (set_at k new ss) ≡ count i new.table.blocks + owners i (remove_at k ss)
  owners-set_at k [] seq new h = ground (arith, h)
  owners-set_at zero (s ∷ ss) seq new h = refl
  owners-set_at (suc k) (s ∷ ss) seq new h = omega (arith, owners-set_at k ss seq new h)

pub length-remove_at :
    {A : Type 0} (k : ℕ) (xs : List A) (x : A)
    → get_elem? xs k ≡ some x
    → length xs ≡ suc (length (remove_at k xs))
length-remove_at k [] x h = ground (arith, h)
length-remove_at zero (y ∷ ys) x h = refl
length-remove_at (suc k) (y ∷ ys) x h = omega (arith, length-remove_at k ys x h)

pub length-set_at : {A : Type 0} (k : ℕ) (y : A) (xs : List A) → length (set_at k y xs) ≡ length xs
length-set_at k y [] = refl
length-set_at zero y (x ∷ xs) = refl
length-set_at (suc k) y (x ∷ xs) = omega (arith, length-set_at k y xs)

pub get_elem?-remove_at :
    {A : Type 0} (k j : ℕ) (xs : List A)
    → get_elem? (remove_at k xs) j ≡ get_elem? xs (if ltb j k then j else suc j)
get_elem?-remove_at k j [] = ground arith
get_elem?-remove_at zero j (x ∷ xs) = ground arith
get_elem?-remove_at (suc k) zero (x ∷ xs) = ground arith
get_elem?-remove_at (suc k) (suc j) (x ∷ xs) = ground (arith, get_elem?-remove_at k j xs)

pub get_elem?-set_at :
    {A : Type 0} (k j : ℕ) (y x : A) (xs : List A)
    → get_elem? xs k ≡ some x
    → get_elem? (set_at k y xs) j ≡ (if j == k then some y else get_elem? xs j)
get_elem?-set_at k j y x [] h = ground (arith, h)
get_elem?-set_at zero zero y x (z ∷ xs) h = ground arith
get_elem?-set_at zero (suc j) y x (z ∷ xs) h = ground arith
get_elem?-set_at (suc k) zero y x (z ∷ xs) h = ground arith
get_elem?-set_at (suc k) (suc j) y x (z ∷ xs) h = ground (arith, get_elem?-set_at k j y x xs h)

pub get_elem?-last :
    {A : Type 0} (xs : List A) → 0 < length xs → (x : A) × (get_elem? xs (length xs - 1) ≡ some x)
get_elem?-last [] h = absurd (omega arith)
get_elem?-last (x ∷ []) h = (x, refl)
get_elem?-last (x ∷ y ∷ xs) h =
    let (z, p) = get_elem?-last (y ∷ xs) (omega arith) in (z, ground (arith, p))

pub get_elem?-snoc :
    {A : Type 0} (xs : List A) (y : A) (j : ℕ) (x : A)
    → get_elem? (xs ++ y ∷ []) j ≡ some x
    → (get_elem? xs j ≡ some x) ⊎ (y ≡ x)
get_elem?-snoc [] y zero x h = inr (ground (arith, h))
get_elem?-snoc [] y (suc j) x h = ground (arith, h)
get_elem?-snoc (z ∷ xs) y zero x h = inl h
get_elem?-snoc (z ∷ xs) y (suc j) x h = get_elem?-snoc xs y j x h

-- Where a sequence is found there is a running sequence with its id.
pub position-some :
    (id : ℕ) (ss : List RunningSeq) (k : ℕ)
    → position id ss ≡ some k
    → (seq : RunningSeq) × (get_elem? ss k ≡ some seq) × (seq.id ≡ id)
position-some id [] k h = ground (arith, h)
position-some id (s ∷ ss) k h = elim (Bool-cases (s.id == id)) [
  | inl e ↦ (s, ground (arith, e, h), ground (arith, e))
  | inr e ↦ elim (Option-cases (position id ss)) [
    | inl p ↦ ground (arith, e, p, h)
    | inr (j, p) ↦ let (seq, q, r) = position-some id ss j p in (seq, ground (arith, e, p, q, h), r)
  ]
]

-- One running table in the pool, against the tables of the others.
pub owned_at :
    (s : Scheduler) (k : ℕ) (seq : RunningSeq)
    → IsSound s
    → get_elem? s.running k ≡ some seq
    → Owns (λ i. owners i (remove_at k s.running)) seq.table s.allocator
owned_at s k seq w h = record {
  valid = w.valid;
  counts = λ i l. ground (arith, w.counts i l, owners-remove_at i k s.running seq h);
  within = λ i l. ground (arith, w.within i l, owners-remove_at i k s.running seq h);
}

pub get_elem?-none : {A : Type 0} (k : ℕ) (xs : List A) → get_elem? xs k ≡ none → length xs ≤ k
get_elem?-none k [] h = omega arith
get_elem?-none zero (y ∷ ys) h = ground (arith, h)
get_elem?-none (suc k) (y ∷ ys) h = omega (arith, get_elem?-none k ys h)

-- Tables that have each block once refer to a block at most once each.
pub owners-le-length :
    (i : ℕ) (ss : List RunningSeq)
    → ((k : ℕ) (seq : RunningSeq) → get_elem? ss k ≡ some seq → count i seq.table.blocks ≤ 1)
    → owners i ss ≤ length ss
owners-le-length i [] h = omega arith
owners-le-length i (s ∷ ss) h =
    omega (arith, h 0 s refl, owners-le-length i ss (λ k seq e. h (suc k) seq e))

pub IsSound-ref_count :
    (s : Scheduler) (i : ℕ)
    → IsSound s
    → i < s.allocator.num_blocks
    → s.allocator.ref_counts.at i ≤ length s.running
IsSound-ref_count s i w l =
    omega (arith, w.counts i l, owners-le-length i s.running (λ k seq e. (w.seqs k seq e).once i))

-- How many of the numbers below `n` a list holds, each as often as it stands there.
abbrev pub counted_below : ℕ → List ℕ → ℕ
counted_below zero xs = 0
counted_below (suc n) xs = count n xs + counted_below n xs

pub counted_below-cons :
    (n x : ℕ) (xs : List ℕ)
    → counted_below n (x ∷ xs) ≡ (if ltb x n then 1 else 0) + counted_below n xs
counted_below-cons zero x xs = ground arith
counted_below-cons (suc n) x xs = ground (arith, counted_below-cons n x xs)

length-counted_below :
    (n : ℕ) (xs : List ℕ) → ((i : ℕ) → n ≤ i → count i xs ≡ 0) → length xs ≤ counted_below n xs
length-counted_below n [] h = omega arith
length-counted_below n (x ∷ xs) h = ground (
  arith,
  counted_below-cons n x xs,
  h x,
  length-counted_below n xs (λ i l. ground (arith, h i l)),
)

counted_below-le : (n : ℕ) (xs : List ℕ) → ((i : ℕ) → count i xs ≤ 1) → counted_below n xs ≤ n
counted_below-le zero xs h = omega arith
counted_below-le (suc n) xs h = omega (arith, h n, counted_below-le n xs h)

-- A running sequence has no more tokens than the pool has room for.
pub IsSound-tokens :
    (s : Scheduler) (k : ℕ) (seq : RunningSeq)
    → IsSound s
    → get_elem? s.running k ≡ some seq
    → seq.table.num_tokens < 2 ^ 64
IsSound-tokens s k seq w h =
    let x = w.seqs k seq h in
    let few : length seq.table.blocks ≤ s.allocator.num_blocks =
      le_trans
        (length-counted_below s.allocator.num_blocks seq.table.blocks
          (λ i l. ground (arith, w.within i l, owners-remove_at i k s.running seq h)))
        (counted_below-le s.allocator.num_blocks seq.table.blocks x.once) in
    let hold : seq.table.num_tokens ≤ length seq.table.blocks * s.block_size =
      rw (← x.size, x.fits.blocks)
        (blocks_hold seq.table.num_tokens seq.table.block_size x.fits.positive) in
    let room : length seq.table.blocks * s.block_size ≤ s.allocator.num_blocks * s.block_size =
      mul-le-mul_right s.block_size few in
    omega (arith, hold, room, w.capacity)
