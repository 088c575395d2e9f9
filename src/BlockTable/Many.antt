-- ===== src/BlockTable/Many.antt =====
-- What `blocks_needed` and `append_many` of block_table.rs do to a table and to the pool.
use native.Mathlib.Decide.{dec_lt, ℕ_discrete}
use paged_kv_cache.Prelude.{
  count, ℕ, zero, suc, ◌+◌, ◌-◌, ◌/◌, ◌%◌, ◌≤◌, ◌<◌, ◌≡◌, refl, ap, sym, ◌∙◌, false, not, ◌&&◌,
  Option, none, some, List, ◌∷◌, ◌==◌, ltb, if◌then◌else◌, length, get_elem?, is_some, add-zero,
  arith,
}
use paged_kv_cache.Error.{PhysicalSlot, out_of_blocks}
use paged_kv_cache.Outcome.{ok, err, Post, Returns, Returns-eq, Post-mono}
use paged_kv_cache.Allocator.Entries.{Older, Older-same, Older-trans}
use paged_kv_cache.Allocator.{Allocator, num_free}
use paged_kv_cache.BlockTable.{
  BlockTable, CowCopy, tail_state, blocks_needed, extend, append, append_loop, append_many,
}
use paged_kv_cache.BlockTable.Arithmetic.{
  div_ceil-eq, div_ceil-suc, last_or-get_elem?, mod-suc, need-step,
}
use paged_kv_cache.BlockTable.Owned.{
  Fits, Owns, Appended, Diverges, tail, cost, held, needed, has_room-eq,
}
use paged_kv_cache.BlockTable.Tail.{tail_lem, tail_shared}
use paged_kv_cache.BlockTable.Append.{append-Returns}

module _ (others : ℕ → ℕ) (t : BlockTable) (a : Allocator) (f : Fits t) (w : Owns others t a) where
  tail_state-eq :
      tail_state t a
      ≡ ok
          (if t.num_tokens % t.block_size == 0
            then (0, false)
            else (t.block_size - t.num_tokens % t.block_size, ltb 1 (a.ref_counts.at (tail t))))
          a
  unfolding tail_state
  tail_state-eq = elim (ℕ_discrete (t.num_tokens % t.block_size) 0) [
    | yes full ↦ ground (arith, has_room-eq t a f)
    | no part ↦
        ground
          (arith, has_room-eq t a f, tail_lem others t a f w part, tail_shared others t a f w part)
  ]

  -- `blocks_needed` over a valid pool computes the blocks that the next `n` tokens take, a copy of
  -- a shared tail included, and changes nothing.
  pub blocks_needed-eq : (n : ℕ) → blocks_needed t n a ≡ ok (needed t a n) a
  unfolding blocks_needed
  blocks_needed-eq zero = refl
  blocks_needed-eq (suc n) = ground (arith, tail_state-eq, f.positive)

-- How many blocks appending `n` tokens copies: the tail, if it has room and is shared.
abbrev pub copied : BlockTable → Allocator → ℕ → ℕ
copied t a zero = 0
copied t a (suc n) =
    if not (t.num_tokens % t.block_size == 0) && ltb 1 (a.ref_counts.at (tail t)) then 1 else 0

-- `n` tokens appended: each slot is where the table resolves its position, in order.
pub record AppendedMany (others : ℕ → ℕ) (t : BlockTable) (a : Allocator) (n : ℕ)
    (slots : List PhysicalSlot) (copies : List CowCopy) (u : BlockTable) (b : Allocator)
    : Type 0 where
  pub fits : Fits u
  pub owns : Owns others u b
  pub tokens : u.num_tokens ≡ t.num_tokens + n
  pub size : u.block_size ≡ t.block_size
  pub blocks : b.num_blocks ≡ a.num_blocks
  pub caches : is_some b.cache ≡ is_some a.cache
  pub many : length slots ≡ n
  pub placed :
      (k : ℕ) (s : PhysicalSlot)
      → get_elem? slots k ≡ some s
      → (get_elem? u.blocks ((t.num_tokens + k) / t.block_size) ≡ some s.block)
        × (s.slot ≡ (t.num_tokens + k) % t.block_size)
  pub kept :
      (k : ℕ)
      → k < length t.blocks
      → (k ≡ t.num_tokens / t.block_size → a.ref_counts.at (tail t) ≤ 1)
      → get_elem? u.blocks k ≡ get_elem? t.blocks k
  pub one_copy : length copies ≡ copied t a n
  pub distinct : ((i : ℕ) → count i t.blocks ≤ 1) → (i : ℕ) → count i u.blocks ≤ 1
  pub older : Older a.cache b.cache
  pub free : num_free b + needed t a n ≡ num_free a

first_kept :
    (t : BlockTable) (a : Allocator) (slot : PhysicalSlot) (cow : Option CowCopy) (u : BlockTable)
    → Diverges t slot cow u
    → is_some cow ≡ (not (t.num_tokens % t.block_size == 0) && ltb 1 (a.ref_counts.at (tail t)))
    → (k : ℕ) → k < length t.blocks
    → (k ≡ t.num_tokens / t.block_size → a.ref_counts.at (tail t) ≤ 1)
    → get_elem? u.blocks k ≡ get_elem? t.blocks k
first_kept t a slot none u d l k h o = d k h
first_kept t a slot (some c) u d l k h o = ground (arith, d.3 k)

copies_after :
    (t : BlockTable) (a : Allocator) (cow : Option CowCopy) (copies : List CowCopy)
    → is_some cow ≡ (not (t.num_tokens % t.block_size == 0) && ltb 1 (a.ref_counts.at (tail t)))
    → length copies ≡ 0
    → length (extend cow copies) ≡ (
        if not (t.num_tokens % t.block_size == 0) && ltb 1 (a.ref_counts.at (tail t)) then 1 else 0)
copies_after t a none copies l h = ground arith
copies_after t a (some c) copies l h = ground arith

-- What is known of the table after its first append.
module _ (others : ℕ → ℕ) (t : BlockTable) (a : Allocator) (slot : PhysicalSlot)
    (cow : Option CowCopy) (u : BlockTable) (b : Allocator) (f : Fits t)
    (x : Appended others t a slot cow u b) where
  appended_length : length u.blocks ≡ t.num_tokens / t.block_size + 1
  appended_length =
      ground
        (arith, x.fits.blocks, x.tokens, x.size, div_ceil-suc t.num_tokens t.block_size f.positive)

  appended_tail : tail u ≡ slot.block
  appended_tail =
      last_or-get_elem? 0 (t.num_tokens / t.block_size) slot.block u.blocks x.placed
        (sym appended_length)

  unshared : ltb 1 (b.ref_counts.at (tail u)) ≡ false
  unshared = ground (arith, appended_tail, x.exclusive.0)

  needed-step : (n : ℕ) → needed t a (suc n) ≡ cost t a + needed u b n
  needed-step n =
      rw (x.size, x.tokens, mod-suc t.num_tokens t.block_size f.positive, unshared)
        (need-step t.block_size (t.num_tokens % t.block_size) n (ltb 1 (a.ref_counts.at (tail t)))
          (omega (arith, f.positive)))

  tail_one : b.ref_counts.at (tail u) ≤ 1
  tail_one = ground (arith, unshared)

  next_index : (k : ℕ) → (u.num_tokens + k) / u.block_size ≡ (t.num_tokens + suc k) / t.block_size
  next_index k = rw x.size (ap (λ m. m / t.block_size) (omega (arith, x.tokens)))

  next_offset : (k : ℕ) → (u.num_tokens + k) % u.block_size ≡ (t.num_tokens + suc k) % t.block_size
  next_offset k = rw x.size (ap (λ m. m % t.block_size) (omega (arith, x.tokens)))

  more_placed :
      (n : ℕ) (slots : List PhysicalSlot) (copies : List CowCopy) (z : BlockTable) (c : Allocator)
      → AppendedMany others u b n slots copies z c
      → (k : ℕ) (s : PhysicalSlot) → get_elem? (slot ∷ slots) k ≡ some s
      → (get_elem? z.blocks ((t.num_tokens + k) / t.block_size) ≡ some s.block)
        × (s.slot ≡ (t.num_tokens + k) % t.block_size)
  more_placed n slots copies z c y zero s e = rw add-zero (first_placed (cc))
    where
      first_placed :
          slot ≡ s
          → (get_elem? z.blocks (t.num_tokens / t.block_size) ≡ some s.block)
            × (s.slot ≡ t.num_tokens % t.block_size)
      first_placed p = ground (
        arith,
        p,
        x.placed,
        x.offset,
        y.kept (t.num_tokens / t.block_size) (omega (arith, appended_length)) (λ _. tail_one),
      )
  more_placed n slots copies z c y (suc k) s e =
      ground (arith, y.placed k s e, next_index k, next_offset k)

  more_kept :
      (n : ℕ) (slots : List PhysicalSlot) (copies : List CowCopy) (z : BlockTable) (c : Allocator)
      → AppendedMany others u b n slots copies z c
      → (k : ℕ) → k < length t.blocks
      → (k ≡ t.num_tokens / t.block_size → a.ref_counts.at (tail t) ≤ 1)
      → get_elem? z.blocks k ≡ get_elem? t.blocks k
  more_kept n slots copies z c y k h o =
      y.kept k
        (ground
          (arith, appended_length, f.blocks, div_ceil-eq t.num_tokens t.block_size f.positive))
        (λ _. tail_one)
      ∙ first_kept t a slot cow u x.diverges x.lazy k h o

  copied_none : (n : ℕ) → copied u b n ≡ 0
  copied_none zero = refl
  copied_none (suc n) = ground (arith, unshared)

  more_copies :
      (n : ℕ) (slots : List PhysicalSlot) (copies : List CowCopy) (z : BlockTable) (c : Allocator)
      → AppendedMany others u b n slots copies z c
      → length (extend cow copies) ≡ (
          if not (t.num_tokens % t.block_size == 0) && ltb 1 (a.ref_counts.at (tail t))
          then 1
          else 0)
  more_copies n slots copies z c y = copies_after t a cow copies x.lazy (y.one_copy ∙ copied_none n)

  append_more :
      (n : ℕ) (slots : List PhysicalSlot) (copies : List CowCopy) (z : BlockTable) (c : Allocator)
      → AppendedMany others u b n slots copies z c
      → AppendedMany others t a (suc n) (slot ∷ slots) (extend cow copies) z c
  append_more n slots copies z c y = record {
    fits = y.fits;
    owns = y.owns;
    tokens = omega (arith, x.tokens, y.tokens);
    size = y.size ∙ x.size;
    blocks = y.blocks ∙ x.blocks;
    caches = y.caches ∙ x.caches;
    many = omega (arith, y.many);
    placed = more_placed n slots copies z c y;
    kept = more_kept n slots copies z c y;
    one_copy = more_copies n slots copies z c y;
    distinct = λ h. y.distinct (x.distinct h);
    older = Older-trans a.cache b.cache c.cache x.older y.older;
    free = omega (arith, x.free, y.free, needed-step n);
  }

cost-num_free :
    (others : ℕ → ℕ) (t : BlockTable) (a : Allocator)
    → Fits t
    → (n : ℕ) → needed t a (suc n) ≤ num_free a
    → cost t a ≤ num_free a
cost-num_free others t a f n h = ground (
  arith,
  need-step t.block_size (t.num_tokens % t.block_size) n (ltb 1 (a.ref_counts.at (tail t)))
      (omega (arith, f.positive)),
)

module _ (n : ℕ) (others : ℕ → ℕ) (t : BlockTable) (a : Allocator) (f : Fits t)
    (w : Owns others t a) where
  append_many_few :
      num_free a < needed t a n
      → append_many n (held t a) ≡ err (out_of_blocks (needed t a n) (num_free a)) (held t a)
  unfolding append_many
  append_many_few h = rw (blocks_needed-eq others t a f w n) (ground arith)

  append_many_enough :
      needed t a n ≤ num_free a → append_many n (held t a) ≡ append_loop n (held t a)
  unfolding append_many
  append_many_enough h = rw (blocks_needed-eq others t a f w n) (ground arith)

append_loop-AppendedMany :
    (n : ℕ) (others : ℕ → ℕ) (t : BlockTable) (a : Allocator)
    → Fits t
    → Owns others t a
    → needed t a n ≤ num_free a
    → Returns
        (λ r s. AppendedMany others t a n r.0 r.1 s.table s.allocator)
        (append_loop n (held t a))
unfolding append_loop
append_loop-AppendedMany zero others t a f w h = record {
  fits = f;
  owns = w;
  tokens = omega arith;
  size = refl;
  blocks = refl;
  caches = refl;
  many = refl;
  placed = λ k s e. absurd (cc);
  kept = λ k l o. refl;
  one_copy = refl;
  distinct = λ h. h;
  older = Older-same a.cache a.cache refl;
  free = omega arith;
}
append_loop-AppendedMany (suc n) others t a f w h =
    let ((slot, cow), m, p, x) =
      Returns-eq _ (append (held t a))
        (append-Returns others t a f w (cost-num_free others t a f n h)) in
    let ((slots, copies), z, q, y) = Returns-eq _ (append_loop n m) (
      append_loop-AppendedMany n others m.table m.allocator x.fits x.owns
        (omega (arith, needed-step others t a slot cow m.table m.allocator f x n, x.free))) in
    let r : append_loop (suc n) (held t a) ≡ ok (slot ∷ slots, extend cow copies) z =
      ground (arith, p, q) in
    rw r
      (append_more others t a slot cow m.table m.allocator f x n slots copies z.table z.allocator y)

-- `append_many` over such a pool is all or nothing: with the blocks that the `n` tokens take free,
-- it returns their slots in order, each where the table then resolves its position, copies the tail
-- at most once, and takes exactly those blocks; otherwise it reports how many blocks it wants and
-- how many are free, and changes neither table nor pool.
pub append_many-Post :
    (n : ℕ) (others : ℕ → ℕ) (t : BlockTable) (a : Allocator)
    → Fits t
    → Owns others t a
    → Post
        (λ r s. AppendedMany others t a n r.0 r.1 s.table s.allocator)
        (λ e s.
          (e ≡ out_of_blocks (needed t a n) (num_free a))
          × (s ≡ held t a)
          × (num_free a < needed t a n))
        (append_many n (held t a))
append_many-Post n others t a f w = elim (dec_lt (num_free a) (needed t a n)) [
  | yes few ↦ rw (append_many_few n others t a f w few) (refl, refl, few)
  | no enough ↦ rw (append_many_enough n others t a f w (omega arith)) (
      Post-mono _ _ (λ _ _. ⊥) _ (append_loop n (held t a))
        (append_loop-AppendedMany n others t a f w (omega arith)) (λ _ _ p. p) (λ e s p. absurd p))
]
