-- ===== src/Scheduler/Build.antt =====
-- What an admission in scheduler.rs does to the pool, from the blocks matched to the table of the
-- new sequence.
use paged_kv_cache.Prelude.{
  ◌^◌, count-get_elem?, ℕ, zero, suc, ◌+◌, ◌-◌, ◌*◌, ◌%◌, ◌≤◌, ◌<◌, ◌≡◌, refl, Bool, false, List,
  [], ◌∷◌, ◌∙◌, ltb, count, length, div_ceil, is_some, sym, arith,
}
use native.Mathlib.Decide.{dec_lt}
use native.Mathlib.Nat.{mul-mod_left, div-eq_of_lt, mul-add-div_right, le_of_mul-le-mul_right}
use paged_kv_cache.Error.{PhysicalSlot}
use paged_kv_cache.Outcome.{ok, Returns, Returns-eq, Post-mono}
use paged_kv_cache.Allocator.{Allocator, PrefixMatch, num_free, max_refcount}
use paged_kv_cache.Allocator.Entries.{Older-trans, Ordered, Ordered-Older, next_entry}
use paged_kv_cache.Allocator.Invariant.{IsValid}
use paged_kv_cache.Allocator.Match.{Reusable, unowned_in}
use paged_kv_cache.BlockTable.{BlockTable, CowCopy, from_blocks, append_many}
use paged_kv_cache.BlockTable.Arithmetic.{blocks_hold, need}
use paged_kv_cache.BlockTable.Owned.{Fits, Owns, held, needed, tail}
use paged_kv_cache.BlockTable.Many.{AppendedMany, append_many-Post}
use paged_kv_cache.Scheduler.Step.{acquire_all, cache_prompt, fill, build_table}
use paged_kv_cache.Scheduler.Acquire.{Taken, HeldIn, acquire_all-Taken, cache_prompt-Prompted}

pub Reusable-count :
    (a : Allocator) (ids : List ℕ) (i : ℕ) → Reusable a ids → a.num_blocks ≤ i → count i ids ≡ 0
Reusable-count a [] i r h = refl
Reusable-count a (x ∷ xs) i r h = ground (arith, r.0, Reusable-count a xs i r.2 h)

whole_mod : (k b : ℕ) → 0 < b → (k * b) % b ≡ 0
whole_mod k b h = mul-mod_left k b

whole_div : (k b : ℕ) → 0 < b → div_ceil (k * b) b ≡ k
whole_div k b h =
    ground (arith, mul-add-div_right h k (b - 1), div-eq_of_lt {n = b - 1} {m = b} (omega arith))

from_blocks-Fits : (ids : List ℕ) (b : ℕ) → 0 < b → Fits (from_blocks ids b)
from_blocks-Fits ids b h = record { positive = h; blocks = sym (whole_div (length ids) b h) }

-- The table of an admitted sequence, and the pool, with as few blocks taken as its context needs.
pub record Built (others : ℕ → ℕ) (a : Allocator) (block_size : ℕ) (hit : PrefixMatch)
    (computed room : ℕ) (u : BlockTable) (b : Allocator) : Type 0 where
  pub fits : Fits u
  pub owns : Owns others u b
  pub tokens : u.num_tokens ≡ length hit.blocks * block_size + computed
  pub size : u.block_size ≡ block_size
  pub blocks : b.num_blocks ≡ a.num_blocks
  pub caches : is_some b.cache ≡ is_some a.cache
  pub once : ((i : ℕ) → count i hit.blocks ≤ 1) → (i : ℕ) → count i u.blocks ≤ 1
  pub ordered :
      Ordered a.cache
      → hit.last_entry < next_entry a.cache
      → next_entry a.cache + room < 2 ^ 64
      → Ordered b.cache × (next_entry b.cache ≤ next_entry a.cache + room)
  pub free : num_free a ≤ num_free b + unowned_in a hit.blocks + need block_size 0 false computed

fill-eq :
    (t : BlockTable) (n : ℕ) (a b : Allocator) (u : BlockTable)
    (r : List PhysicalSlot × List CowCopy)
    → append_many n (held t a) ≡ ok r (held u b)
    → fill t n a ≡ ok u b
fill-eq t n a b u r p = ground (arith, p)

need_whole : (b n : ℕ) (shared : Bool) → need b 0 shared n ≡ need b 0 false n
need_whole b zero shared = refl
need_whole b (suc n) shared = ground arith

append_many-Returns :
    (n : ℕ) (others : ℕ → ℕ) (t : BlockTable) (a : Allocator)
    → Fits t
    → Owns others t a
    → needed t a n ≤ num_free a
    → Returns
        (λ r s. AppendedMany others t a n r.0 r.1 s.table s.allocator)
        (append_many n (held t a))
append_many-Returns n others t a f w h =
    Post-mono _ _ _ _ (append_many n (held t a)) (append_many-Post n others t a f w) (λ r s x. x)
      (λ e s x. absurd (omega (arith, x.2, h)))

Owns-HeldIn :
    (others : ℕ → ℕ) (t : BlockTable) (a : Allocator) → Owns others t a → HeldIn a t.blocks
Owns-HeldIn others t a w k block h = elim (dec_lt block a.num_blocks) [
  | yes in_pool ↦
      (in_pool, omega (arith, w.counts block in_pool, count-get_elem? k block t.blocks h))
  | no out ↦
      absurd (omega (arith, w.within block (omega arith), count-get_elem? k block t.blocks h))
]

module _ (block_size : ℕ) (prompt : List ℕ) (hit : PrefixMatch) (computed : ℕ) (others : ℕ → ℕ)
    (a : Allocator) (h : 0 < block_size) where
  table-Owns :
      (b : Allocator)
      → ((i : ℕ) → i < a.num_blocks → a.ref_counts.at i ≡ others i)
      → Reusable a hit.blocks
      → Taken a hit.blocks b
      → Owns others (from_blocks hit.blocks block_size) b
  table-Owns b counts r x = record {
    valid = x.valid;
    counts = λ i l. ground (arith, x.counts i, x.blocks, counts i);
    within = λ i l. ground (arith, x.blocks, Reusable-count a hit.blocks i r);
  }

  needed-eq :
      (b : Allocator)
      → needed (from_blocks hit.blocks block_size) b computed ≡ need block_size 0 false computed
  needed-eq b = rw (whole_mod (length hit.blocks) block_size h) (
      need_whole block_size computed
        (ltb 1 (b.ref_counts.at (tail (from_blocks hit.blocks block_size)))))

  build-eq :
      (b c d : Allocator) (u : BlockTable)
      → acquire_all hit.blocks a ≡ ok tt b
      → fill (from_blocks hit.blocks block_size) computed b ≡ ok u c
      → cache_prompt block_size u prompt (length hit.blocks) hit.last_entry c ≡ ok tt d
      → build_table block_size prompt hit computed a ≡ ok u d
  unfolding build_table
  build-eq b c d u p q r = ground (arith, p, q, r)

  pub build_table-Built :
      IsValid a
      → ((i : ℕ) → i < a.num_blocks → a.ref_counts.at i ≡ others i)
      → Reusable a hit.blocks
      → ((i : ℕ) → 0 < count i hit.blocks → a.ref_counts.at i + count i hit.blocks ≤ max_refcount)
      → unowned_in a hit.blocks + need block_size 0 false computed ≤ num_free a
      → length prompt ≤ length hit.blocks * block_size + computed
      → Returns
          (λ u b. Built others a block_size hit computed (length prompt) u b)
          (build_table block_size prompt hit computed a)
  build_table-Built v counts r room fits prompt_fits =
      let t : BlockTable = from_blocks hit.blocks block_size in
      let (_, b, p, x) =
        Returns-eq _ (acquire_all hit.blocks a) (acquire_all-Taken hit.blocks a v r room) in
      let (rs, s, q, y) = Returns-eq _ (append_many computed (held t b)) (
        append_many-Returns computed others t b (from_blocks-Fits hit.blocks block_size h)
          (table-Owns b counts r x) (omega (arith, needed-eq b, x.free, fits))) in
      let u : BlockTable = s.table in
      let c : Allocator = s.allocator in
      let hold = blocks_hold u.num_tokens block_size h in
      let long : length u.blocks ≡ div_ceil u.num_tokens block_size =
        ground (arith, y.fits.blocks, y.size) in
      let (_, d, o, z) =
        Returns-eq _ (cache_prompt block_size u prompt (length hit.blocks) hit.last_entry c) (
          cache_prompt-Prompted block_size u prompt (length hit.blocks) hit.last_entry c h
            y.owns.valid (Owns-HeldIn others u c y.owns)
            (le_of_mul-le-mul_right {k = block_size} (grind (arith, hold, long, y.tokens)) h)
            (grind (arith, hold, long, y.tokens))) in
      rw (build-eq b c d u p (fill-eq t computed b c u rs q) o) (record {
        fits = y.fits;
        owns = record {
          valid = z.valid;
          counts = λ i l. ground (arith, z.counts i, z.blocks, y.owns.counts i);
          within = λ i l. ground (arith, z.blocks, y.owns.within i);
        };
        tokens = y.tokens;
        size = y.size;
        blocks = z.blocks ∙ y.blocks ∙ x.blocks;
        caches = z.caches ∙ y.caches ∙ x.caches;
        once = y.distinct;
        ordered = λ w l m.
            let older = Older-trans _ _ _ x.older y.older in
            let (w', n') =
              z.ordered (Ordered-Older _ _ older w) (omega (arith, l, older.next))
                (omega (arith, m, older.next)) in
            (w', omega (arith, n', older.next));
        free = omega (arith, z.free, y.free, x.free, needed-eq b);
      })
