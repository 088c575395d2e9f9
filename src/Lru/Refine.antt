-- ===== src/Lru/Refine.antt =====
-- The linked list of lru.rs against the order that it stands for: each method acts on the links as
-- the list operation acts on the order, and neither panics nor fails.
use paged_kv_cache.Prelude.{
  ℕ, zero, suc, ◌+◌, ◌-◌, ◌≤◌, ◌<◌, ◌≡◌, refl, subst, true, false, Option, none, some, List, [],
  ◌∷◌, ◌++◌, ◌==◌, ltb, if◌then◌else◌, length, length-append, count, count-append, last_or, update,
  arith, ◌⊎◌,
}
use native.Mathlib.Decide.{ℕ_discrete}
use paged_kv_cache.Outcome.{Returns, ok}
use paged_kv_cache.Lru.{Lru, nil, new, contains, push_back, remove, pop_front, walk, to_list}
use paged_kv_cache.Lru.Order.{
  head_or, erase, succ_of, pred_of, Below, Distinct, count-erase, length-erase, last_or-append,
  count-Distinct, count-Below, erase-Below, append-Below, erase-Distinct, append-Distinct,
  list_ends, succ_of-append, succ_of-append_self, pred_of-append, pred_of-append_self,
  count-pred_of, count-succ_of, last_or-erase, head_or-erase, succ_of-erase, pred_of-erase,
  Below-mono,
}

pub record Represents (capacity : ℕ) (l : Lru) (xs : List ℕ) : Type 0 where
  pub small : capacity ≤ nil
  pub sizes : (l.prev.size ≡ capacity) × (l.next.size ≡ capacity) × (l.linked.size ≡ capacity)
  pub below : Below capacity xs
  pub distinct : Distinct xs
  pub heads : l.head ≡ head_or nil xs
  pub tails : l.tail ≡ last_or nil xs
  pub lens : l.len ≡ length xs
  pub links : (i : ℕ) → l.linked.at i ≡ ltb 0 (count i xs)
  pub nexts : (i : ℕ) → 0 < count i xs → l.next.at i ≡ succ_of nil i xs
  pub prevs : (i : ℕ) → 0 < count i xs → l.prev.at i ≡ pred_of nil i xs nil

pub new-Represents : (n : ℕ) → n ≤ nil → Represents n (new n) []
unfolding new
new-Represents n h = record {
  small = h;
  sizes = (refl, refl, refl);
  below = tt;
  distinct = tt;
  heads = refl;
  tails = refl;
  lens = refl;
  links = λ i. refl;
  nexts = λ i k. absurd (omega arith);
  prevs = λ i k. absurd (omega arith);
}

-- The state after a `push_back` in range.
abbrev pub pushed : Lru → ℕ → Lru
pushed l i = record {
  prev = update l.prev i l.tail;
  next = if l.tail == nil then update l.next i nil else update (update l.next i nil) l.tail i;
  linked = update l.linked i true;
  head = if l.tail == nil then i else l.head;
  tail = i;
  len = l.len + 1;
}

module _ (n : ℕ) (l : Lru) (xs : List ℕ) (r : Represents n l xs) (i : ℕ) where
  push_back-eq : i < n → count i xs ≡ 0 → push_back i l ≡ ok tt (pushed l i)
  unfolding push_back
  push_back-eq h k = ground (arith, list_ends n nil xs r.below)

  pub pushed-Represents : i < n → count i xs ≡ 0 → Represents n (pushed l i) (xs ++ i ∷ [])
  pushed-Represents below_n k = record {
    small = r.small;
    sizes = ground arith;
    below = append-Below n i xs r.below below_n;
    distinct = append-Distinct i xs r.distinct k;
    heads = ground (arith, list_ends n nil xs r.below);
    tails = ground (arith, last_or-append nil i xs);
    lens = omega (arith, length-append xs (i ∷ []));
    links = λ j. ground (arith, count-append j xs (i ∷ []), r.links j);
    nexts = λ j h. ground (
      arith,
      count-append j xs (i ∷ []),
      r.nexts j,
      list_ends n nil xs r.below,
      succ_of-append nil i j xs nil r.distinct k,
      succ_of-append_self nil i xs k,
    );
    prevs = λ j h. ground (
      arith,
      count-append j xs (i ∷ []),
      r.prevs j,
      pred_of-append nil i j xs nil,
      pred_of-append_self nil i xs nil k,
    );
  }

-- The state after a `remove` of a linked cell.
abbrev removed : Lru → ℕ → Lru
removed l i = record {
  prev =
      update (if l.next.at i == nil then l.prev else update l.prev (l.next.at i) (l.prev.at i)) i
        nil;
  next =
      update (if l.prev.at i == nil then l.next else update l.next (l.prev.at i) (l.next.at i)) i
        nil;
  linked = update l.linked i false;
  head = if l.prev.at i == nil then l.next.at i else l.head;
  tail = if l.next.at i == nil then l.prev.at i else l.tail;
  len = l.len - 1;
}

module _ (n : ℕ) (l : Lru) (xs : List ℕ) (r : Represents n l xs) (i : ℕ) (h : 0 < count i xs) where
  in_range :
      (i < n)
      × ((l.next.at i ≡ nil) ⊎ (l.next.at i < n))
      × ((l.prev.at i ≡ nil) ⊎ (l.prev.at i < n))
  in_range = ground (
    arith,
    r.nexts i,
    r.prevs i,
    count-Below n i xs r.below,
    count-pred_of nil i xs nil h,
    count-succ_of nil i xs,
    count-Below n (pred_of nil i xs nil) xs r.below,
    count-Below n (succ_of nil i xs) xs r.below,
  )

  remove-eq : remove i l ≡ ok tt (removed l i)
  unfolding remove
  remove-eq = ground (arith, in_range)

  removed-Represents : Represents n (removed l i) (erase i xs)
  removed-Represents = record {
    small = r.small;
    sizes = ground arith;
    below = erase-Below n i xs r.below;
    distinct = erase-Distinct i xs r.distinct;
    heads = ground (arith, head_or-erase nil i xs below_nil h, r.nexts i h, r.prevs i h);
    tails = ground (arith, last_or-erase nil i xs nil below_nil h, r.nexts i h, r.prevs i h);
    lens = omega (arith, length-erase i xs once, r.lens);
    links = λ j. ground (arith, count-erase i j xs once, r.links j);
    nexts = λ j k. ground (
      arith,
      count-erase i j xs once,
      r.nexts i h,
      r.prevs i h,
      r.nexts j,
      succ_of-erase nil i j xs nil r.distinct no_nil h,
      count-Below n j xs r.below,
    );
    prevs = λ j k. ground (
      arith,
      count-erase i j xs once,
      r.nexts i h,
      r.prevs i h,
      r.prevs j,
      pred_of-erase nil i j xs nil r.distinct below_nil h,
      count-Below n j xs r.below,
    );
  }
    where
      below_nil : Below nil xs
      below_nil = Below-mono n nil xs r.small r.below

      no_nil : count nil xs ≡ 0
      no_nil = ground (arith, count-Below n nil xs r.below)

      once : count i xs ≡ 1
      once = omega (arith, count-Distinct i xs r.distinct)

-- `push_back` of a cell in range that is not linked puts it at the end of the order that the links
-- stand for; it does not panic.
pub push_back-Represents :
    (n : ℕ) (l : Lru) (xs : List ℕ) (i : ℕ)
    → Represents n l xs
    → i < n
    → count i xs ≡ 0
    → Returns (λ _ l'. Represents n l' (xs ++ i ∷ [])) (push_back i l)
push_back-Represents n l xs i r h k =
    rw (push_back-eq n l xs r i h k) (pushed-Represents n l xs r i h k)

-- `remove` of a linked cell takes it out of the order that the links stand for and keeps the order
-- of the others; it does not panic.
pub remove-Represents :
    (n : ℕ) (l : Lru) (xs : List ℕ) (i : ℕ)
    → Represents n l xs
    → 0 < count i xs
    → Returns (λ _ l'. Represents n l' (erase i xs)) (remove i l)
remove-Represents n l xs i r h = rw (remove-eq n l xs r i h) (removed-Represents n l xs r i h)

-- What `pop_front` returns of an order, and the order that it leaves.
abbrev pub first : List ℕ → Option ℕ
first [] = none
first (x ∷ xs) = some x

abbrev pub rest : List ℕ → List ℕ
rest [] = []
rest (x ∷ xs) = xs

pub pop_front_empty : (n : ℕ) (l : Lru) → Represents n l [] → pop_front l ≡ ok none l
unfolding pop_front
pop_front_empty n l r = ground (arith, r.heads)

pop_front_cons :
    (n : ℕ) (l : Lru) (x : ℕ) (xs : List ℕ)
    → Represents n l (x ∷ xs)
    → pop_front l ≡ ok (some x) (removed l x)
unfolding pop_front
pop_front_cons n l x xs r = ground (arith, r.heads, r.small, r.below, remove-eq n l (x ∷ xs) r x)

erase_head : (x : ℕ) (xs : List ℕ) → erase x (x ∷ xs) ≡ xs
erase_head x xs = ground arith

-- `pop_front` returns the first cell of the order that the links stand for, `None` when there is
-- none, and leaves the rest in order; it does not panic.
pub pop_front-Represents :
    (n : ℕ) (l : Lru) (xs : List ℕ)
    → Represents n l xs
    → Returns (λ o l'. (o ≡ first xs) × Represents n l' (rest xs)) (pop_front l)
pop_front-Represents n l [] r = rw (pop_front_empty n l r) (refl, r)
pop_front-Represents n l (x ∷ xs) r = rw (pop_front_cons n l x xs r) (
  refl,
  subst (Represents n (removed l x)) (erase_head x xs)
      (removed-Represents n l (x ∷ xs) r x (ground arith)),
)

-- `contains` of a cell in range tells whether it is in the order.
pub contains_lem :
    {S : Type 0} (s : S) (n : ℕ) (l : Lru) (xs : List ℕ) (i : ℕ)
    → Represents n l xs
    → i < n
    → contains l i s ≡ ok (ltb 0 (count i xs)) s
unfolding contains
contains_lem s n l xs i r h = ground (arith, r.links i)

walk_from :
    (l : Lru) (xs : List ℕ) (fuel : ℕ)
    → Distinct xs
    → Below nil xs
    → ((i : ℕ) → 0 < count i xs → l.next.at i ≡ succ_of nil i xs)
    → length xs < fuel
    → walk l fuel (head_or nil xs) ≡ some xs
unfolding walk
walk_from l [] zero d b e h = absurd (omega (arith, h))
walk_from l [] (suc fuel) d b e h = refl
walk_from l (x ∷ xs) zero d b e h = absurd (omega arith)
walk_from l (x ∷ xs) (suc fuel) d b e h =
    ground (arith, e x, walk_from l xs fuel d.1 b.1 (λ i k. ground (arith, e i)) (omega arith))

-- Different cells below `n` are no more than `n`.
Below-drop : (n : ℕ) (xs : List ℕ) → Below (suc n) xs → count n xs ≡ 0 → Below n xs
Below-drop n [] b h = tt
Below-drop n (x ∷ xs) b h = (ground (arith, b.0, h), Below-drop n xs b.1 (ground (arith, h)))

length-Below : (n : ℕ) (xs : List ℕ) → Distinct xs → Below n xs → length xs ≤ n
length-Below zero [] d b = omega arith
length-Below zero (x ∷ xs) d b = absurd (omega (arith, b.0))
length-Below (suc n) xs d b = elim (ℕ_discrete (count n xs) 0) [
  | yes z ↦ omega (arith, length-Below n xs d (Below-drop n xs b z))
  | no m ↦
      let once : count n xs ≡ 1 = omega (arith, m, count-Distinct n xs d) in
      let gone : count n (erase n xs) ≡ 0 = ground (arith, count-erase n n xs once) in
      let few =
        length-Below n (erase n xs) (erase-Distinct n xs d)
          (Below-drop n (erase n xs) (erase-Below (suc n) n xs b) gone) in
      omega (arith, few, length-erase n xs once)
]

-- In a list whose links stand for an order, `iter` reaches the end of the links within as many
-- steps as there are cells, plus one, and yields the order.
pub to_list-Represents : (n : ℕ) (l : Lru) (xs : List ℕ) → Represents n l xs → to_list l ≡ some xs
unfolding to_list
to_list-Represents n l xs r = rw r.heads (
    walk_from l xs (l.next.size + 1) r.distinct (Below-mono n nil xs r.small r.below) r.nexts
      (omega (arith, r.sizes.1, length-Below n xs r.distinct r.below)))
