-- ===== src/Scheduler/Passed.antt =====
-- What a scheduler is that passes `check_invariants` of scheduler.rs.
use paged_kv_cache.Prelude.{
  ℕ, zero, suc, ◌+◌, ◌%◌, ◌^◌, ◌≤◌, ◌<◌, ◌≡◌, refl, Bool, true, false, Bool-cases, Option,
  Option-cases, none, some, ◌⊎◌, inl, inr, List, [], ◌∷◌, ◌==◌, if◌then◌else◌, ltb, leb, get_elem?,
  length, map, count, div_ceil, Array, filled, update, ◌∙◌, sym, ap, subst, arith,
}
use mathlib.Core.Option.{some-injective}
use paged_kv_cache.Outcome.{
  Outcome, ok, err, panic, Gives, Gives-lift, Gives-bind, Gives-mono, Gives-eq,
}
use paged_kv_cache.Lru.{nil}
use paged_kv_cache.Allocator.{Allocator, ref_count}
use paged_kv_cache.Allocator.Check
use paged_kv_cache.Allocator.Passed.{Accepted, check_invariants-Accepted}
use paged_kv_cache.BlockTable.{BlockTable}
use paged_kv_cache.BlockTable.Ownership.{
  count_blocks, count_tables, check_counts, check_ownership, check_owners,
}
use paged_kv_cache.Scheduler.{RunningSeq, Scheduler}
use paged_kv_cache.Scheduler.Tables.{IsSound, owners}
use paged_kv_cache.Scheduler.Check.{check_invariants, check_invariants-IsSound}

-- The references `o` after those that `f` counts for each block, as `u32`s.
abbrev Counted : (ℕ → ℕ) → Array ℕ → Option (Array ℕ) → Type 0
Counted f acc none = Unit {0}
Counted f acc (some o) =
    (o.size ≡ acc.size)
    × ((j : ℕ) → acc.size ≤ j → f j ≡ 0)
    × ((j : ℕ) → o.at j % 2 ^ 32 ≡ (acc.at j + f j) % 2 ^ 32)
    × (((j : ℕ) → acc.at j < 2 ^ 32) → (j : ℕ) → o.at j < 2 ^ 32)

Counted-trans :
    (f g both : ℕ → ℕ) (acc o : Array ℕ) (r : Option (Array ℕ))
    → ((j : ℕ) → both j ≡ f j + g j)
    → Counted f acc (some o)
    → Counted g o r
    → Counted both acc r
Counted-trans f g both acc o none sum x y = tt
Counted-trans f g both acc o (some p) sum (z, out, at, small) (z', out', at', small') = (
  z' ∙ z,
  (λ j l. omega (arith, sum j, out j l, out' j (omega (arith, l, z)))),
  (λ j. omega (arith, sum j, at j, at' j)),
  (λ h. small' (small h)),
)

count_one :
    (b : ℕ) (acc : Array ℕ)
    → b < acc.size
    → Counted (λ j. if b == j then 1 else 0) acc (some (update acc b ((acc.at b + 1) % 2 ^ 32)))
count_one b acc l = (
  refl,
  (λ j k. ground (arith, l, k)),
  (λ j. elim (Bool-cases (j == b)) [ inl e ↦ ground (arith, e) | inr e ↦ ground (arith, e) ]),
  (λ h j. elim (Bool-cases (j == b)) [
    | inl e ↦ ground (arith, e)
    | inr e ↦ ground (arith, e, h j)
  ]),
)

count_blocks-Counted :
    (bs : List ℕ) (acc : Array ℕ) → Counted (λ j. count j bs) acc (count_blocks bs acc)
unfolding count_blocks
count_blocks-Counted [] acc = (refl, (λ j l. refl), (λ j. omega arith), (λ h. h))
count_blocks-Counted (b ∷ bs) acc = elim (Bool-cases (ltb b acc.size)) [
  | inl l ↦
      let next : Array ℕ = update acc b ((acc.at b + 1) % 2 ^ 32) in
      rw l (
        Counted-trans (λ j. if b == j then 1 else 0) (λ j. count j bs) (λ j. count j (b ∷ bs)) acc
          next (count_blocks bs next) (λ j. ground arith) (count_one b acc (ground (arith, l)))
          (count_blocks-Counted bs next))
  | inr l ↦ rw l tt
]

-- A table has the blocks that its tokens fill.
abbrev pub Filled : BlockTable → Type 0
Filled t = length t.blocks ≡ div_ceil t.num_tokens t.block_size

filled_all :
    (s : RunningSeq) (ss : List RunningSeq)
    → Filled s.table
    → ((k : ℕ) (seq : RunningSeq) → get_elem? ss k ≡ some seq → Filled seq.table)
    → (k : ℕ) (seq : RunningSeq) → get_elem? (s ∷ ss) k ≡ some seq
    → Filled seq.table
filled_all s ss f g zero seq h = subst (λ q. Filled q.table) (some-injective s seq h) f
filled_all s ss f g (suc n) seq h = g n seq h

abbrev Tallied : List RunningSeq → Array ℕ → Option (Array ℕ) → Type 0
Tallied ss acc none = Unit {0}
Tallied ss acc (some o) =
    Counted (λ j. owners j ss) acc (some o)
    × ((k : ℕ) (seq : RunningSeq) → get_elem? ss k ≡ some seq → Filled seq.table)

module _ (a : Allocator) where
  Tallied-later :
      (s : RunningSeq) (ss : List RunningSeq) (acc o : Array ℕ)
      (out : Outcome Allocator (Option (Array ℕ)))
      → Filled s.table
      → Counted (λ j. count j s.table.blocks) acc (some o)
      → Gives (λ r t. (t ≡ a) × Tallied ss o r) out
      → Gives (λ r t. (t ≡ a) × Tallied (s ∷ ss) acc r) out
  Tallied-later s ss acc o (ok none t) f x h = (h.0, tt)
  Tallied-later s ss acc o (ok (some p) t) f x (e, (y, g)) = (
    e,
    (
      Counted-trans (λ j. count j s.table.blocks) (λ j. owners j ss) (λ j. owners j (s ∷ ss)) acc o
          (some p) (λ j. refl) x y,
      filled_all s ss f g,
    ),
  )
  Tallied-later s ss acc o (err e t) f x h = tt
  Tallied-later s ss acc o panic f x h = tt

  count_tables-Tallied :
      (ss : List RunningSeq) (acc : Array ℕ)
      → Gives (λ r t. (t ≡ a) × Tallied ss acc r) (count_tables (map (λ q. q.table) ss) acc a)
  unfolding count_tables
  count_tables-Tallied [] acc =
      (refl, ((refl, (λ j l. refl), (λ j. omega arith), (λ h. h)), λ k seq h. ground (arith, h)))
  count_tables-Tallied (s ∷ ss) acc = elim (Bool-cases (s.table.block_size == 0)) [
    | inl z ↦ rw z tt
    | inr z ↦
        rw z
          (elim (Bool-cases
            (length s.table.blocks == div_ceil s.table.num_tokens s.table.block_size)) [
              | inr l ↦ rw l (refl, tt)
              | inl l ↦ rw l (elim (Option-cases (count_blocks s.table.blocks acc)) [
                | inl e ↦ rw e (refl, tt)
                | inr (o, e) ↦ rw e (
                    Tallied-later s ss acc o (count_tables (map (λ q. q.table) ss) o a)
                      (ground (arith, l))
                      (subst (Counted (λ j. count j s.table.blocks) acc) e
                        (count_blocks-Counted s.table.blocks acc))
                      (count_tables-Tallied ss o))
              ])
            ])
  ]

  check_counts-Gives :
      (counts : ℕ → ℕ) (n : ℕ)
      → Gives
          (λ b t. (t ≡ a) × (b ≡ true → (i : ℕ) → i < n → a.ref_counts.at (i % 2 ^ 32) ≡ counts i))
          (check_counts counts n a)
  unfolding check_counts ref_count
  check_counts-Gives counts zero = (refl, λ k i l. absurd (omega (arith, l)))
  check_counts-Gives counts (suc n) =
      Gives-bind _ _ (check_counts counts n a) _ (check_counts-Gives counts n) (λ before t h.
        rw h.0 (elim (Bool-cases (leb a.num_blocks (n % 2 ^ 32))) [
          | inl l ↦ rw l (refl, λ k. ground (arith, k))
          | inr l ↦ rw l (elim (Bool-cases (ltb (n % 2 ^ 32) a.ref_counts.size)) [
            | inr m ↦ rw m tt
            | inl m ↦ rw m (
              refl,
              λ k i j. elim (Bool-cases (i == n)) [
                | inl e ↦ ground (arith, k, e)
                | inr e ↦ h.1 (ground (arith, k)) i (ground (arith, e, j))
              ],
            )
          ])
        ]))

-- A scheduler that its check accepts.
pub record Accounted (s : Scheduler) : Type 0 where
  pub batch : length s.running ≤ s.max_batch_size
  pub pool : Accepted s.allocator
  pub filled : (k : ℕ) (seq : RunningSeq) → get_elem? s.running k ≡ some seq → Filled seq.table
  pub inside : (i : ℕ) → s.allocator.num_blocks ≤ i → owners i s.running ≡ 0
  pub counted :
      (i : ℕ)
      → i < s.allocator.num_blocks
      → s.allocator.ref_counts.at i ≡ owners i s.running % 2 ^ 32

module _ (s : Scheduler) (small : s.allocator.num_blocks ≤ nil) where
  Owned : Type 0
  Owned =
      ((k : ℕ) (seq : RunningSeq) → get_elem? s.running k ≡ some seq → Filled seq.table)
      × ((i : ℕ) → s.allocator.num_blocks ≤ i → owners i s.running ≡ 0)
      × ((i : ℕ)
          → i < s.allocator.num_blocks
          → s.allocator.ref_counts.at i ≡ owners i s.running % 2 ^ 32)

  check_owners-Gives :
      (r : Option (Array ℕ))
      → Tallied s.running (filled 0 s.allocator.num_blocks) r
      → Gives (λ b t. (t ≡ s.allocator) × (b ≡ true → Owned)) (check_owners r s.allocator)
  unfolding Owned
  check_owners-Gives none x = (refl, λ k. absurd (ground (arith, k)))
  check_owners-Gives (some o) ((size, out, at, bounded), fills) = rw size (
      Gives-mono _ _ (check_counts o.at s.allocator.num_blocks s.allocator)
        (check_counts-Gives s.allocator o.at s.allocator.num_blocks)
        (λ b t h. (
          h.0,
          λ k. (
            fills,
            out,
            λ i l.
                let id : i % 2 ^ 32 ≡ i = omega (arith, l, small) in
                let below = bounded (λ j. omega arith) i in
                let sum = at i in
                ap (λ m. s.allocator.ref_counts.at m) (sym id)
                ∙ h.1 k i l
                ∙ omega (arith, below, sum),
          ),
        )))

  check_ownership-Gives :
      Gives
        (λ b t. (t ≡ s.allocator) × (b ≡ true → Accepted s.allocator × Owned))
        (check_ownership (map (λ q. q.table) s.running) s.allocator)
  unfolding check_ownership
  check_ownership-Gives =
      Gives-bind _ _ (Check.check_invariants s.allocator) _ (check_invariants-Accepted s.allocator)
        (λ valid t h. rw h.0 (elim (Bool-cases valid) [
          | inr e ↦ rw e (refl, λ k. absurd (ground (arith, k)))
          | inl e ↦ rw e (
              Gives-bind _ _
                (count_tables (map (λ q. q.table) s.running) (filled 0 s.allocator.num_blocks)
                  s.allocator)
                _ (count_tables-Tallied s.allocator s.running (filled 0 s.allocator.num_blocks))
                (λ r u g. rw g.0 (
                  Gives-mono _ _ (check_owners r s.allocator) (check_owners-Gives r g.1)
                    (λ b v x. (x.0, λ k. (h.1 e, x.1 k))))))
        ]))

  whole-Gives : Gives (λ b t. (t ≡ s) × (b ≡ true → Accounted s)) (check_invariants s)
  unfolding check_invariants Owned
  whole-Gives = elim (Bool-cases (ltb s.max_batch_size (length s.running))) [
    | inl e ↦ rw e (refl, λ k. absurd (ground (arith, k)))
    | inr e ↦ rw e (
        Gives-lift (λ s a. record s { allocator = a }) s _
          (λ b t. (t ≡ s) × (b ≡ true → Accounted s))
          (check_ownership (map (λ q. q.table) s.running) s.allocator) check_ownership-Gives
          (λ b a h. (
            ap (λ x. record s { allocator = x }) h.0,
            λ k.
                let (pool, (fills, out, counted)) = h.1 k in
                record {
                  batch = ground (arith, e);
                  pool = pool;
                  filled = fills;
                  inside = out;
                  counted = counted;
                },
          )))
  ]

  -- For a pool of fewer than 2^32 blocks, a call of `check_invariants` that ends without a panic
  -- has changed nothing and either accepts or refuses the scheduler. What it accepts has no more
  -- running sequences than the batch limit; the blocks of its free list are in the pool, without an
  -- owner and not cached, those of its evictable list, which ends, are without an owner and cached,
  -- no block is twice in them and every block without an owner is in one of them; the index passes
  -- its own check; every running sequence has as many blocks as its tokens fill, all of the pool;
  -- and the count of each block is its references from the running tables, as a `u32`. What it
  -- refuses is not sound.
  pub check_invariants-Accounted :
      (b : Bool) (t : Scheduler)
      → check_invariants s ≡ ok b t
      → (t ≡ s) × (((b ≡ true) × Accounted s) ⊎ ((b ≡ false) × ¬ IsSound s))
  check_invariants-Accounted b t h =
      let (same, passed) = Gives-eq _ (check_invariants s) b t whole-Gives h in
      elim (Bool-cases b) [
        | inl e ↦ (same, inl (e, passed e))
        | inr e ↦
            (same, inr (e, λ w. absurd (ground (arith, sym h ∙ check_invariants-IsSound s w, e))))
      ]
