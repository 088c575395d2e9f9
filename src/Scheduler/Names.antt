-- ===== src/Scheduler/Names.antt =====
-- The ids of the sequences of scheduler.rs: how often an id runs, waits or is reported, and the sizes
-- that no operation changes.
use paged_kv_cache.Prelude.{
  ℕ, zero, suc, ◌+◌, ◌≤◌, ◌<◌, ◌≡◌, refl, Option, none, some, List, [], ◌∷◌, ◌++◌, ◌==◌, Bool-cases,
  inl, inr, if◌then◌else◌, map, count, get_elem?, ◌∙◌, arith,
}
use paged_kv_cache.BlockTable.{CowCopy}
use paged_kv_cache.Scheduler.{PendingSeq, RunningSeq, Scheduler, remove_at, set_at}
use paged_kv_cache.Scheduler.Step.{DecodedToken, Prefill, without}

abbrev pub runs : ℕ → List RunningSeq → ℕ
runs i ss = count i (map (λ s. s.id) ss)

abbrev pub queues : ℕ → List PendingSeq → ℕ
queues i ps = count i (map (λ p. p.id) ps)

abbrev pub writes : ℕ → List DecodedToken → ℕ
writes i ds = count i (map (λ d. d.id) ds)

abbrev pub fills : ℕ → List Prefill → ℕ
fills i ps = count i (map (λ p. p.id) ps)

-- The pool, the blocks and the batch have the sizes that they had.
pub record SameSizes (s t : Scheduler) : Type 0 where
  pub blocks : t.allocator.num_blocks ≡ s.allocator.num_blocks
  pub block_size : t.block_size ≡ s.block_size
  pub limit : t.max_batch_size ≡ s.max_batch_size

pub SameSizes-refl : (s : Scheduler) → SameSizes s s
SameSizes-refl s = record { blocks = refl; block_size = refl; limit = refl }

pub SameSizes-trans : (s t u : Scheduler) → SameSizes s t → SameSizes t u → SameSizes s u
SameSizes-trans s t u x y = record {
  blocks = y.blocks ∙ x.blocks;
  block_size = y.block_size ∙ x.block_size;
  limit = y.limit ∙ x.limit;
}

-- A copy is between blocks of a pool of `n`.
abbrev pub CowIn : ℕ → Option CowCopy → Type 0
CowIn n none = Unit {0}
CowIn n (some c) = (c.src < n) × (c.dst < n)

-- The copies that these tokens ask for are between blocks of a pool of `n`.
abbrev pub CowsIn : ℕ → List DecodedToken → Type 0
CowsIn n [] = Unit {0}
CowsIn n (d ∷ ds) = CowIn n d.cow × CowsIn n ds

pub CowsIn-append :
    (n : ℕ) (ds es : List DecodedToken) → CowsIn n ds → CowsIn n es → CowsIn n (ds ++ es)
CowsIn-append n [] es h k = k
CowsIn-append n (d ∷ ds) es h k = (h.0, CowsIn-append n ds es h.1 k)

pub CowsIn-without : (n id : ℕ) (ds : List DecodedToken) → CowsIn n ds → CowsIn n (without id ds)
CowsIn-without n id [] h = tt
CowsIn-without n id (d ∷ ds) h = elim (Bool-cases (d.id == id)) [
  | inl e ↦ rw e (CowsIn-without n id ds h.1)
  | inr e ↦ rw e (h.0, CowsIn-without n id ds h.1)
]

module _ {A : Type 0} (id_of : A → ℕ) (i : ℕ) where
  pub count-map-append :
      (xs ys : List A)
      → count i (map id_of (xs ++ ys)) ≡ count i (map id_of xs) + count i (map id_of ys)
  count-map-append [] ys = omega arith
  count-map-append (x ∷ xs) ys = ground (arith, count-map-append xs ys)

  pub count-map-remove_at :
      (k : ℕ) (xs : List A) (x : A)
      → get_elem? xs k ≡ some x
      → count i (map id_of xs)
        ≡ (if id_of x == i then 1 else 0) + count i (map id_of (remove_at k xs))
  count-map-remove_at k [] x h = ground (arith, h)
  count-map-remove_at zero (y ∷ ys) x h = ground (arith, h)
  count-map-remove_at (suc k) (y ∷ ys) x h = ground (arith, count-map-remove_at k ys x h)

  pub count-map-set_at :
      (k : ℕ) (xs : List A) (x y : A)
      → get_elem? xs k ≡ some x
      → id_of y ≡ id_of x
      → count i (map id_of (set_at k y xs)) ≡ count i (map id_of xs)
  count-map-set_at k [] x y h e = refl
  count-map-set_at zero (z ∷ zs) x y h e = ground (arith, h, e)
  count-map-set_at (suc k) (z ∷ zs) x y h e = ground (arith, count-map-set_at k zs x y h e)

  pub count-map-get_elem? :
      (k : ℕ) (xs : List A) (x : A)
      → get_elem? xs k ≡ some x
      → id_of x ≡ i
      → 0 < count i (map id_of xs)
  count-map-get_elem? k xs x h e = ground (arith, count-map-remove_at k xs x h, e)

pub writes-without : (i id : ℕ) (ds : List DecodedToken) → writes i (without id ds) ≤ writes i ds
writes-without i id [] = omega arith
writes-without i id (d ∷ ds) = ground (arith, writes-without i id ds)
