-- ===== src/Allocator/Passed.antt =====
-- What a pool is that passes `check_invariants` of allocator.rs.
use paged_kv_cache.Prelude.{
  ℕ, zero, suc, ◌+◌, ◌%◌, ◌^◌, ◌≤◌, ◌<◌, ◌≡◌, refl, Bool, true, false, Bool-cases, ◌||◌, none, some,
  Option, Option-cases, inl, inr, List, [], ◌∷◌, ◌==◌, ltb, leb, if◌then◌else◌, count, Array,
  filled, update, is_some, ◌∙◌, sym, ap, subst, arith,
}
use mathlib.Core.Option.{some-injective}
use paged_kv_cache.Outcome.{M, Outcome, ok, err, panic, and_then, pure, Gives, Gives-bind}
use paged_kv_cache.Lru.{to_list}
use paged_kv_cache.PrefixCache.{check, is_cached as index_is_cached}
use paged_kv_cache.Allocator.{Allocator, Cache, is_cached}
use paged_kv_cache.Allocator.Invariant.{cached}
use paged_kv_cache.Allocator.Check.{
  mark_all, free_fits, evictable_fits, check_cache, covered, all_covered, check_invariants,
}

-- After the marks: no block was marked twice, each passed, and exactly the old marks and those of
-- the list are set.
abbrev pub Passed : (ℕ → Type 0) → List ℕ → Array Bool → Option (Array Bool) → Type 0
Passed P ids seen none = Unit {0}
Passed P ids seen (some marked) =
    ((j : ℕ) → marked.at j ≡ (ltb 0 (count j ids) || seen.at j))
    × ((j : ℕ) → count j ids + (if seen.at j then 1 else 0) ≤ 1)
    × ((j : ℕ) → 0 < count j ids → P j)

module _ (test : ℕ → Array Bool → M Allocator Bool) (a : Allocator) (P : ℕ → Type 0)
    (passes : (i : ℕ) (s : Array Bool)
      → Gives (λ fine t. (t ≡ a) × (fine ≡ true → (s.at i ≡ false) × P i)) (test i s a)) where
  Passed-later :
      (i : ℕ) (ids : List ℕ) (seen : Array Bool) (r : Option (Array Bool))
      → seen.at i ≡ false
      → P i
      → Passed P ids (update seen i true) r
      → Passed P (i ∷ ids) seen r
  Passed-later i ids seen none u p h = tt
  Passed-later i ids seen (some marked) u p (at, once, all) = (
    (λ j. ground (arith, at j)),
    (λ j. ground (arith, once j, u)),
    (λ j l. elim (Bool-cases (j == i)) [
      | inl e ↦ subst P (ground (arith, e)) p
      | inr e ↦ all j (ground (arith, e, l))
    ]),
  )

  Gives-later :
      (i : ℕ) (ids : List ℕ) (seen : Array Bool) (o : Outcome Allocator (Option (Array Bool)))
      → seen.at i ≡ false
      → P i
      → Gives (λ r t. (t ≡ a) × Passed P ids (update seen i true) r) o
      → Gives (λ r t. (t ≡ a) × Passed P (i ∷ ids) seen r) o
  Gives-later i ids seen (ok r t) u p h = (h.0, Passed-later i ids seen r u p h.1)
  Gives-later i ids seen (err e t) u p h = tt
  Gives-later i ids seen panic u p h = tt

  pub mark_all-Passed :
      (ids : List ℕ) (seen : Array Bool)
      → Gives (λ r t. (t ≡ a) × Passed P ids seen r) (mark_all test ids seen a)
  unfolding mark_all
  mark_all-Passed [] seen =
      (refl, ((λ j. refl), (λ j. ground arith), (λ j l. absurd (omega (arith, l)))))
  mark_all-Passed (i ∷ ids) seen = Gives-bind _ _ (test i seen a) _ (passes i seen) (λ fine t h.
      elim (Bool-cases fine) [
        | inl e ↦
            let (u, p) = h.1 e in
            elim (Bool-cases (ltb i seen.size)) [
              | inl l ↦
                  rw (e, l, h.0)
                    (Gives-later i ids seen _ u p (mark_all-Passed ids (update seen i true)))
              | inr l ↦ rw (e, l) tt
            ]
        | inr e ↦ rw e (h.0, tt)
      ])

-- A block of the free list, or of the evictable ones, as the check wants it.
abbrev pub Free : Allocator → ℕ → Type 0
Free a i = (i < a.num_blocks) × (a.ref_counts.at i ≡ 0) × (cached a.cache i ≡ false)

abbrev pub Evictable : Allocator → Cache → ℕ → Type 0
Evictable a c i = (a.ref_counts.at i ≡ 0) × (is_some (c.index.by_block.at (i % 2 ^ 32)) ≡ true)

module _ (a : Allocator) where
  is_cached-Gives :
      (i : ℕ) → Gives (λ b t. (t ≡ a) × (i < a.num_blocks → b ≡ cached a.cache i)) (is_cached i a)
  unfolding is_cached index_is_cached
  is_cached-Gives i = elim (Option-cases a.cache) [
    | inl e ↦ rw e (refl, (λ l. refl))
    | inr (c, e) ↦ rw e (elim (Bool-cases (ltb i a.num_blocks)) [
      | inl l ↦ rw l (elim (Bool-cases (ltb i c.index.by_block.size)) [
        | inl m ↦ rw m (refl, (λ l. refl))
        | inr m ↦ rw m tt
      ])
      | inr l ↦ rw l (refl, (λ k. absurd (ground (arith, l, k))))
    ])
  ]

  free_fits-Gives :
      (i : ℕ) (s : Array Bool)
      → Gives (λ fine t. (t ≡ a) × (fine ≡ true → (s.at i ≡ false) × Free a i)) (free_fits i s a)
  unfolding free_fits
  free_fits-Gives i s = elim (Bool-cases (leb a.num_blocks i)) [
    | inl l ↦ rw l (refl, (λ k. absurd (ground (arith, k))))
    | inr l ↦ rw l (elim (Bool-cases (ltb i s.size)) [
      | inr m ↦ rw m tt
      | inl m ↦ rw m (elim (Bool-cases (ltb i a.ref_counts.size)) [
        | inr z ↦ rw z tt
        | inl z ↦ rw z (
            Gives-bind _ _ (is_cached i a) _ (is_cached-Gives i)
              (λ held t h. (h.0, (λ k. ground (arith, k, h.1, l)))))
      ])
    ])
  ]

  evictable_fits-Gives :
      (c : Cache) (i : ℕ) (s : Array Bool)
      → Gives
          (λ fine t. (t ≡ a) × (fine ≡ true → (s.at i ≡ false) × Evictable a c i))
          (evictable_fits c i s a)
  unfolding evictable_fits index_is_cached
  evictable_fits-Gives c i s = elim (Bool-cases (ltb i s.size)) [
    | inr m ↦ rw m tt
    | inl m ↦ rw m (elim (Bool-cases (ltb i a.ref_counts.size)) [
      | inr z ↦ rw z tt
      | inl z ↦ rw z (elim (Bool-cases (ltb (i % 2 ^ 32) c.index.by_block.size)) [
        | inr y ↦ rw y tt
        | inl y ↦ rw y (refl, (λ k. ground (arith, k)))
      ])
    ])
  ]

covered-of :
    (counts : ℕ → ℕ) (seen : ℕ → Bool) (n : ℕ)
    → covered counts seen n ≡ true
    → (i : ℕ) → i < n
    → counts i ≡ 0
    → seen i ≡ true
unfolding covered
covered-of counts seen zero h i l e = absurd (omega (arith, l))
covered-of counts seen (suc n) h i l e = elim (Bool-cases (i == n)) [
  | inl s ↦ ground (arith, s, h, e)
  | inr s ↦ covered-of counts seen n (ground (arith, h)) i (ground (arith, s, l)) e
]

-- The blocks that `iter` yields for the evictable ones of a cache.
abbrev pub order_of : Option Cache → Option (List ℕ)
order_of none = some []
order_of (some c) = to_list c.evictable

-- What the check of a cache found, with a mark for each block of the free list.
abbrev Swept : Allocator → Option Cache → Array Bool → Option (Array Bool) → Type 0
Swept a cache seen none = Unit {0}
Swept a none seen (some marked) = marked ≡ seen
Swept a (some c) seen (some marked) =
    (check c.index ≡ true)
    × ((order : List ℕ) × (to_list c.evictable ≡ some order)
        × Passed (Evictable a c) order seen (some marked))

check_cache-Swept :
    (a : Allocator) (cache : Option Cache) (seen : Array Bool)
    → Gives (λ r t. (t ≡ a) × Swept a cache seen r) (check_cache cache (some seen) a)
unfolding check_cache
check_cache-Swept a none seen = (refl, refl)
check_cache-Swept a (some c) seen = elim (Option-cases (to_list c.evictable)) [
  | inl e ↦
      rw e (elim (Bool-cases (check c.index)) [ inl k ↦ rw k (refl, tt) | inr k ↦ rw k (refl, tt) ])
  | inr (order, e) ↦ rw e (
      Gives-bind _ _ (mark_all (evictable_fits c) order seen a) _
        (mark_all-Passed (evictable_fits c) a (Evictable a c) (evictable_fits-Gives a c) order seen)
        (λ r t h. elim (Bool-cases (check c.index)) [
          | inl k ↦ rw k (h.0, found order e r k h.1)
          | inr k ↦ rw k (h.0, tt)
        ]))
]
  where
    found :
        (order : List ℕ)
        → to_list c.evictable ≡ some order
        → (r : Option (Array Bool)) → check c.index ≡ true
        → Passed (Evictable a c) order seen r
        → Swept a (some c) seen r
    found order e none k h = tt
    found order e (some marked) k h = (k, (order, e, h))

-- A pool that its check accepts: free blocks are in the pool, unowned and not cached; evictable ones,
-- which end, are unowned and cached; no block is twice in these lists, every unowned one is in one of
-- them, and the index passes its own check.
pub record Accepted (a : Allocator) : Type 0 where
  pub free : (i : ℕ) → 0 < count i a.free_list → Free a i
  pub order : List ℕ
  pub ends : order_of a.cache ≡ some order
  pub evictable :
      (c : Cache)
      → a.cache ≡ some c
      → (check c.index ≡ true) × ((i : ℕ) → 0 < count i order → Evictable a c i)
  pub once : (i : ℕ) → count i a.free_list + count i order ≤ 1
  pub covers :
      (i : ℕ)
      → i < a.ref_counts.size
      → a.ref_counts.at i ≡ 0
      → 0 < count i a.free_list + count i order

Swept-Accepted :
    (a : Allocator) (free : Array Bool) (r : Option (Array Bool))
    → Passed (Free a) a.free_list (filled false a.num_blocks) (some free)
    → Swept a a.cache free r
    → all_covered a r ≡ true
    → Accepted a
Swept-Accepted a free none p q h = absurd (ground (arith, h))
Swept-Accepted a free (some marked) p q h = elim (Option-cases a.cache) [
  | inl e ↦
      let same : marked ≡ free = subst (λ k. Swept a k free (some marked)) e q in
      record {
        free = p.2;
        order = [];
        ends = ap order_of e;
        evictable = λ c k. absurd (ground (arith, e, k));
        once = λ i. ground (arith, p.1 i);
        covers = λ i l z.
            let seen = covered-of a.ref_counts.at marked.at a.ref_counts.size h i l z in
            ground (arith, seen, p.0 i, ap (λ m. m.at i) same);
      }
  | inr (c, e) ↦
      let (checked, (order, walked, (at, once, all))) =
        subst (λ k. Swept a k free (some marked)) e q in
      record {
        free = p.2;
        order = order;
        ends = ap order_of e ∙ walked;
        evictable = λ d k.
            subst (λ x. (check x.index ≡ true) × ((i : ℕ) → 0 < count i order → Evictable a x i))
              (some-injective c d (sym e ∙ k)) (checked, all);
        once = λ i. ground (arith, p.1 i, p.0 i, once i);
        covers = λ i l z.
            let seen = covered-of a.ref_counts.at marked.at a.ref_counts.size h i l z in
            ground (arith, seen, p.0 i, at i);
      }
]

pub check_invariants-Accepted :
    (a : Allocator) → Gives (λ b t. (t ≡ a) × (b ≡ true → Accepted a)) (check_invariants a)
unfolding check_invariants check_cache
check_invariants-Accepted a =
    Gives-bind _ _ (mark_all free_fits a.free_list (filled false a.num_blocks) a) _
      (mark_all-Passed free_fits a (Free a) (free_fits-Gives a) a.free_list
        (filled false a.num_blocks))
      (λ r t h. rw h.0 (swept r h.1))
  where
    swept :
        (r : Option (Array Bool))
        → Passed (Free a) a.free_list (filled false a.num_blocks) r
        → Gives
            (λ b t. (t ≡ a) × (b ≡ true → Accepted a))
            (and_then (check_cache a.cache r a) (λ seen. pure (all_covered a seen)))
    swept none p = (refl, λ k. absurd (ground (arith, k)))
    swept (some free) p =
        Gives-bind _ _ (check_cache a.cache (some free) a) _ (check_cache-Swept a a.cache free)
          (λ r t h. (h.0, λ k. Swept-Accepted a free r p h.1 k))
