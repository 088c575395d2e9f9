-- ===== src/Allocator/Match.antt =====
-- What `match_prefix` of allocator.rs returns of a valid pool: blocks of the pool that are cached.
use paged_kv_cache.Prelude.{
  ℕ, ◌+◌, ◌*◌, ◌≤◌, ◌<◌, ◌≡◌, refl, inl, inr, true, none, some, List, [], ◌∷◌, ◌++◌, ◌==◌, ltb,
  if◌then◌else◌, length, length-append, count, count-append, Option, Option-cases, arith,
}
use paged_kv_cache.Outcome.{ok, Returns, Post-mono}
use paged_kv_cache.Lru.Refine.{contains_lem}
use paged_kv_cache.PrefixCache.{lookup}
use paged_kv_cache.Allocator.Chunks.{chunks_exact, length-chunks_exact}
use paged_kv_cache.Allocator.{Allocator, Cache, PrefixMatch, match_chunks, no_match, match_prefix}
use paged_kv_cache.PrefixCache.{Key}
use paged_kv_cache.Allocator.Entries.{Ordered, entries, next_entry}
use paged_kv_cache.Allocator.Invariant.{cached, Inv, caching_of}

-- How many of the blocks have no owner.
abbrev pub unowned_in : Allocator → List ℕ → ℕ
unowned_in a [] = 0
unowned_in a (b ∷ bs) = (if a.ref_counts.at b == 0 then 1 else 0) + unowned_in a bs

pub unowned_in-append :
    (a : Allocator) (xs ys : List ℕ) → unowned_in a (xs ++ ys) ≡ unowned_in a xs + unowned_in a ys
unowned_in-append a [] ys = omega arith
unowned_in-append a (x ∷ xs) ys = omega (arith, unowned_in-append a xs ys)

-- Blocks of the pool that hold registered content.
abbrev pub Reusable : Allocator → List ℕ → Type 0
Reusable a [] = Unit {0}
Reusable a (b ∷ bs) = (b < a.num_blocks) × (cached a.cache b ≡ true) × Reusable a bs

Reusable-append :
    (a : Allocator) (xs : List ℕ) (b : ℕ)
    → Reusable a xs
    → b < a.num_blocks
    → cached a.cache b ≡ true
    → Reusable a (xs ++ b ∷ [])
Reusable-append a [] b r h k = (h, k, tt)
Reusable-append a (x ∷ xs) b r h k = (r.0, r.1, Reusable-append a xs b r.2 h k)

-- The blocks of a match are registered no later than its last entry.
abbrev pub UpTo : Option Cache → ℕ → List ℕ → Type 0
UpTo o last [] = Unit {0}
UpTo o last (b ∷ bs) =
    ((e : ℕ) × (k : Key) × (entries o b ≡ some (e, k)) × (e ≤ last)) × UpTo o last bs

pub record Matched (a : Allocator) (m : PrefixMatch) : Type 0 where
  pub reusable : Reusable a m.blocks
  pub unowned : m.evictable ≡ unowned_in a m.blocks
  pub chained :
      Ordered a.cache
      → UpTo a.cache m.last_entry m.blocks
        × (m.last_entry < next_entry a.cache)
        × ((i : ℕ) → count i m.blocks ≤ 1)

no_match-Matched : (a : Allocator) → Matched a no_match
no_match-Matched a = record {
  reusable = tt;
  unowned = refl;
  chained = λ w. (tt, w.positive, λ i. omega arith);
}

-- A chain goes on with a younger entry, which is under a block of its own.
UpTo-append :
    (o : Option Cache) (last e b : ℕ) (k : Key) (bs : List ℕ)
    → UpTo o last bs
    → entries o b ≡ some (e, k)
    → last < e
    → UpTo o e (bs ++ b ∷ []) × (count b bs ≡ 0)
UpTo-append o last e b k [] u h l = (((e, k, h, omega arith), tt), refl)
UpTo-append o last e b k (x ∷ xs) ((f, j, p, m), u) h l =
    let (v, c) = UpTo-append o last e b k xs u h l in
    (((f, j, p, omega (arith, m, l)), v), ground (arith, c, p, h, m, l))

module _ {S : Type 0} (s : S) (order : List ℕ) (a : Allocator) (v : Inv order a) (c : Cache)
    (e : a.cache ≡ some c) where
  abbrev pub extended : PrefixMatch → ℕ → ℕ → PrefixMatch
  extended m entry block = record {
    blocks = m.blocks ++ block ∷ [];
    last_entry = entry;
    evictable = if ltb 0 (count block order) then m.evictable + 1 else m.evictable;
  }

  pub hit_facts :
      (parent entry block : ℕ) (chunk : List ℕ)
      → lookup c.index parent chunk ≡ some (entry, block)
      → (block < a.num_blocks)
        × (cached a.cache block ≡ true)
        × (ltb 0 (count block order) ≡ (a.ref_counts.at block == 0))
  unfolding lookup
  hit_facts parent entry block chunk p =
      let (h, k) =
        (caching_of v e).0.to_block block entry (record { parent = parent; tokens = chunk }) p in
      (h, ground (arith, e), ground (arith, v.partition block h, v.clean block, e))

  extended-Matched :
      (m : PrefixMatch) (entry block : ℕ) (chunk : List ℕ)
      → Matched a m
      → lookup c.index m.last_entry chunk ≡ some (entry, block)
      → Matched a (extended m entry block)
  unfolding lookup
  extended-Matched m entry block chunk ok_m p =
      let (h, k, q) = hit_facts m.last_entry entry block chunk p in
      record {
        reusable = Reusable-append a m.blocks block ok_m.reusable h k;
        unowned = ground (arith, unowned_in-append a m.blocks (block ∷ []), ok_m.unowned);
        chained = λ w.
            let key : Key = record { parent = m.last_entry; tokens = chunk } in
            let held : entries a.cache block ≡ some (entry, key) =
              rw e ((caching_of v e).0.to_block block entry key p).1 in
            let (older, issued) = w.parents block entry key held in
            let (u, _, once) = ok_m.chained w in
            let (u', fresh) =
              UpTo-append a.cache m.last_entry entry block key m.blocks u held older in
            (u', issued, λ i. ground (arith, once i, fresh, count-append i m.blocks (block ∷ [])));
      }

  match_chunks-Matched :
      (m : PrefixMatch) (chunks : List (List ℕ))
      → Matched a m
      → Returns
          (λ found t.
            Matched a found × (length found.blocks ≤ length m.blocks + length chunks) × (t ≡ s))
          (match_chunks c m chunks s)
  unfolding match_chunks
  match_chunks-Matched m [] ok_m = (ok_m, omega arith, refl)
  match_chunks-Matched m (chunk ∷ chunks) ok_m =
      elim (Option-cases (lookup c.index m.last_entry chunk)) [
        | inl p ↦ rw (p, match_chunks) (ok_m, omega arith, refl)
        | inr ((entry, block), p) ↦
            rw
              (
                p,
                match_chunks,
                contains_lem s a.num_blocks c.evictable order block (caching_of v e).1
                    (hit_facts m.last_entry entry block chunk p).0,
              )
              (Post-mono _ _ (λ _ _. ⊥) (λ _ _. ⊥)
                (match_chunks c (extended m entry block) chunks s)
                (match_chunks-Matched (extended m entry block) chunks
                  (extended-Matched m entry block chunk ok_m p))
                (λ f t q. (q.0, omega (arith, q.1, length-append m.blocks (block ∷ [])), q.2))
                (λ _ _ q. q))
      ]

pub match_uncached :
    (a : Allocator) (tokens : List ℕ) (block_size : ℕ)
    → a.cache ≡ none
    → match_prefix tokens block_size a ≡ ok no_match a
unfolding match_prefix
match_uncached a tokens block_size e = ground (arith, e)

pub match_cached :
    (a : Allocator) (c : Cache) (tokens : List ℕ) (block_size : ℕ)
    → a.cache ≡ some c
    → 0 < block_size
    → match_prefix tokens block_size a ≡ match_chunks c no_match (chunks_exact block_size tokens) a
unfolding match_prefix
match_cached a c tokens block_size e h = ground (arith, e)

-- `match_prefix` of a valid pool, at a block size that is not 0, returns cached blocks of the pool,
-- no more than the tokens fill, counts right those of them that have no owner, and changes nothing.
pub match_prefix-Matched :
    (order : List ℕ) (a : Allocator) (tokens : List ℕ) (block_size : ℕ)
    → Inv order a
    → 0 < block_size
    → Returns
        (λ m b. Matched a m × (length m.blocks * block_size ≤ length tokens) × (b ≡ a))
        (match_prefix tokens block_size a)
match_prefix-Matched order a tokens block_size v h = elim (Option-cases a.cache) [
  | inl e ↦ rw (match_uncached a tokens block_size e) (no_match-Matched a, omega arith, refl)
  | inr (c, e) ↦ rw (match_cached a c tokens block_size e h) (
      Post-mono _ (λ m b. Matched a m × (length m.blocks * block_size ≤ length tokens) × (b ≡ a))
        (λ _ _. ⊥) (λ _ _. ⊥) (match_chunks c no_match (chunks_exact block_size tokens) a)
        (match_chunks-Matched a order a v c e no_match (chunks_exact block_size tokens)
          (no_match-Matched a))
        (λ m b p. (p.0, grind (arith, p.1, length-chunks_exact block_size tokens), p.2))
        (λ _ _ p. p))
]
