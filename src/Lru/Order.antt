-- ===== src/Lru/Order.antt =====
-- The order that the linked list of lru.rs stands for, as a list without duplicates, and what its
-- links must be: the successor and the predecessor of each element, `nil` past the ends.
use paged_kv_cache.Prelude.{
  ℕ, ◌+◌, ◌≤◌, ◌<◌, ◌≡◌, ◌≢◌, refl, List, [], ◌∷◌, ◌++◌, ◌==◌, if◌then◌else◌, ◌⊎◌, inl, inr, length,
  count, count-append, last_or, arith,
}

abbrev pub head_or : ℕ → List ℕ → ℕ
head_or d [] = d
head_or d (x ∷ xs) = x

abbrev pub erase : ℕ → List ℕ → List ℕ
erase i [] = []
erase i (x ∷ xs) = if x == i then xs else x ∷ erase i xs

module _ (nil : ℕ) where
  abbrev pub succ_of : ℕ → List ℕ → ℕ
  succ_of i [] = nil
  succ_of i (x ∷ xs) = if x == i then head_or nil xs else succ_of i xs

  abbrev pub pred_of : ℕ → List ℕ → ℕ → ℕ
  pred_of i [] p = nil
  pred_of i (x ∷ xs) p = if x == i then p else pred_of i xs x

pub count-erase :
    (i j : ℕ) (xs : List ℕ)
    → count i xs ≡ 1
    → count j (erase i xs) ≡ (if i == j then 0 else count j xs)
count-erase i j [] h = absurd (omega arith)
count-erase i j (x ∷ xs) h = ground (arith, count-erase i j xs)

pub length-erase : (i : ℕ) (xs : List ℕ) → count i xs ≡ 1 → length (erase i xs) + 1 ≡ length xs
length-erase i [] h = absurd (omega arith)
length-erase i (x ∷ xs) h = ground (arith, length-erase i xs)

pub last_or-append : (d i : ℕ) (xs : List ℕ) → last_or d (xs ++ i ∷ []) ≡ i
last_or-append d i [] = refl
last_or-append d i (x ∷ xs) = last_or-append x i xs

-- Every element is below `n`.
abbrev pub Below : ℕ → List ℕ → Type 0
Below n [] = Unit {0}
Below n (x ∷ xs) = (x < n) × Below n xs

abbrev pub Distinct : List ℕ → Type 0
Distinct [] = Unit {0}
Distinct (x ∷ xs) = (count x xs ≡ 0) × Distinct xs

pub count-Distinct : (i : ℕ) (xs : List ℕ) → Distinct xs → count i xs ≤ 1
count-Distinct i [] d = omega arith
count-Distinct i (x ∷ xs) d = ground (arith, count-Distinct i xs d.1)

pub count-Below : (n i : ℕ) (xs : List ℕ) → Below n xs → 0 < count i xs → i < n
count-Below n i [] b h = absurd (omega arith)
count-Below n i (x ∷ xs) b h = ground (arith, count-Below n i xs b.1)

pub erase-Below : (n i : ℕ) (xs : List ℕ) → Below n xs → Below n (erase i xs)
erase-Below n i [] b = tt
erase-Below n i (x ∷ xs) b = ground (arith, erase-Below n i xs b.1)

pub append-Below : (n i : ℕ) (xs : List ℕ) → Below n xs → i < n → Below n (xs ++ i ∷ [])
append-Below n i [] b h = (h, tt)
append-Below n i (x ∷ xs) b h = (b.0, append-Below n i xs b.1 h)

count-erase-zero : (i j : ℕ) (xs : List ℕ) → count j xs ≡ 0 → count j (erase i xs) ≡ 0
count-erase-zero i j [] h = refl
count-erase-zero i j (x ∷ xs) h = ground (arith, count-erase-zero i j xs)

pub erase-Distinct : (i : ℕ) (xs : List ℕ) → Distinct xs → Distinct (erase i xs)
erase-Distinct i [] d = tt
erase-Distinct i (x ∷ xs) d = ground (arith, erase-Distinct i xs d.1, count-erase-zero i x xs d.0)

pub append-Distinct : (i : ℕ) (xs : List ℕ) → Distinct xs → count i xs ≡ 0 → Distinct (xs ++ i ∷ [])
append-Distinct i [] d h = (refl, tt)
append-Distinct i (x ∷ xs) d h =
    ground (arith, append-Distinct i xs d.1, count-append x xs (i ∷ []))

-- The last element is in the list.
pub count-last_or : (x : ℕ) (xs : List ℕ) → 0 < count (last_or x xs) (x ∷ xs)
count-last_or x [] = ground arith
count-last_or x (y ∷ xs) = ground (arith, count-last_or y xs)

pub last_or-Below : (n x : ℕ) (xs : List ℕ) → Below n (x ∷ xs) → last_or x xs < n
last_or-Below n x [] b = b.0
last_or-Below n x (y ∷ xs) b = last_or-Below n y xs b.1

module _ (nil : ℕ) where
  -- Where the links of an appended element lead, and which link comes to lead to it.
  pub succ_of-append :
      (i j : ℕ) (xs : List ℕ) (d : ℕ)
      → Distinct xs
      → count i xs ≡ 0
      → 0 < count j xs
      → succ_of nil j (xs ++ i ∷ []) ≡ (if last_or d xs == j then i else succ_of nil j xs)
  succ_of-append i j [] d u h k = absurd (omega arith)
  succ_of-append i j (x ∷ []) d u h k = ground arith
  succ_of-append i j (x ∷ y ∷ xs) d u h k =
      ground (arith, succ_of-append i j (y ∷ xs) x u.1, count-last_or y xs)

  pub succ_of-append_self :
      (i : ℕ) (xs : List ℕ) → count i xs ≡ 0 → succ_of nil i (xs ++ i ∷ []) ≡ nil
  succ_of-append_self i [] h = ground arith
  succ_of-append_self i (x ∷ xs) h = ground (arith, succ_of-append_self i xs)

  pub pred_of-append :
      (i j : ℕ) (xs : List ℕ) (p : ℕ)
      → 0 < count j xs
      → pred_of nil j (xs ++ i ∷ []) p ≡ pred_of nil j xs p
  pred_of-append i j [] p h = absurd (omega arith)
  pred_of-append i j (x ∷ xs) p h = ground (arith, pred_of-append i j xs x)

  pub pred_of-append_self :
      (i : ℕ) (xs : List ℕ) (p : ℕ) → count i xs ≡ 0 → pred_of nil i (xs ++ i ∷ []) p ≡ last_or p xs
  pred_of-append_self i [] p h = ground arith
  pred_of-append_self i (x ∷ xs) p h = ground (arith, pred_of-append_self i xs x)

  -- The predecessor is in the list, or is what stands before the list.
  pub count-pred_of :
      (i : ℕ) (xs : List ℕ) (p : ℕ)
      → 0 < count i xs
      → (pred_of nil i xs p ≡ p) ⊎ (0 < count (pred_of nil i xs p) xs)
  count-pred_of i [] p h = absurd (omega arith)
  count-pred_of i (x ∷ xs) p h = ground (arith, count-pred_of i xs x)

  pub count-succ_of :
      (i : ℕ) (xs : List ℕ) → (succ_of nil i xs ≡ nil) ⊎ (0 < count (succ_of nil i xs) xs)
  count-succ_of i [] = inl refl
  count-succ_of i (x ∷ []) = ground arith
  count-succ_of i (x ∷ y ∷ xs) = ground (arith, count-succ_of i (y ∷ xs))

  -- The ends of a list after a removal.
  pub last_or-erase :
      (i : ℕ) (xs : List ℕ) (p : ℕ)
      → Below nil xs
      → 0 < count i xs
      → last_or p (erase i xs)
        ≡ (if succ_of nil i xs == nil then pred_of nil i xs p else last_or p xs)
  last_or-erase i [] p b h = absurd (omega arith)
  last_or-erase i (x ∷ []) p b h = ground arith
  last_or-erase i (x ∷ y ∷ xs) p b h = ground (arith, last_or-erase i (y ∷ xs) x b.1)

  pub head_or-erase :
      (i : ℕ) (xs : List ℕ)
      → Below nil xs
      → 0 < count i xs
      → head_or nil (erase i xs)
        ≡ (if pred_of nil i xs nil == nil then succ_of nil i xs else head_or nil xs)
  head_or-erase i [] b h = absurd (omega arith)
  head_or-erase i (x ∷ xs) b h =
      ground (arith, count-pred_of i xs x, count-Below nil (pred_of nil i xs x) xs b.1)

  -- The links of the other elements after a removal.
  pub succ_of-erase :
      (i j : ℕ) (xs : List ℕ) (p : ℕ)
      → Distinct xs
      → count p xs ≡ 0
      → 0 < count i xs
      → 0 < count j xs
      → i ≢ j
      → succ_of nil j (erase i xs)
        ≡ (if pred_of nil i xs p == j then succ_of nil i xs else succ_of nil j xs)
  succ_of-erase i j [] p d q h k ne = absurd (omega arith)
  succ_of-erase i j (x ∷ []) p d q h k ne = absurd (ground arith)
  succ_of-erase i j (x ∷ y ∷ xs) p d q h k ne =
      ground (arith, succ_of-erase i j (y ∷ xs) x d.1 d.0, count-pred_of i xs y)

  pub pred_of-erase :
      (i j : ℕ) (xs : List ℕ) (p : ℕ)
      → Distinct xs
      → Below nil xs
      → 0 < count i xs
      → 0 < count j xs
      → i ≢ j
      → pred_of nil j (erase i xs) p
        ≡ (if succ_of nil i xs == j then pred_of nil i xs p else pred_of nil j xs p)
  pred_of-erase i j [] p d b h k ne = absurd (omega arith)
  pred_of-erase i j (x ∷ []) p d b h k ne = absurd (ground arith)
  pred_of-erase i j (x ∷ y ∷ xs) p d b h k ne =
      ground (arith, pred_of-erase i j (y ∷ xs) x d.1 b.1, count-succ_of i (y ∷ xs))

-- The two ends of a list, both past it exactly when it is empty.
pub list_ends :
    (n nil : ℕ) (xs : List ℕ)
    → Below n xs
    → ((xs ≡ []) × (head_or nil xs ≡ nil) × (last_or nil xs ≡ nil))
      ⊎ ((head_or nil xs < n)
          × (last_or nil xs < n)
          × (0 < count (last_or nil xs) xs)
          × (0 < count (head_or nil xs) xs)
          × (head_or nil xs ∷ erase (head_or nil xs) xs ≡ xs))
list_ends n nil [] b = inl (refl, refl, refl)
list_ends n nil (x ∷ xs) b =
    inr (b.0, last_or-Below n x xs b, count-last_or x xs, ground arith, ground arith)

pub Below-mono : (m n : ℕ) (xs : List ℕ) → m ≤ n → Below m xs → Below n xs
Below-mono m n [] h b = tt
Below-mono m n (x ∷ xs) h b = (omega arith, Below-mono m n xs h b.1)
