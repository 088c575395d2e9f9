-- ===== src/Prelude/Lists.antt =====
-- Lists measured and indexed by native numbers, under the library's names.
use Prim.Native.Nat.{ℕ, zero, suc, ◌+◌, ◌-◌, ◌≤◌, ◌<◌, min}
use native.Mathlib.Decide.{dec_lt}
use mathlib.Core.Path.{◌≡◌, refl, ap}
use mathlib.Core.List.{List, [], ◌∷◌, ◌++◌, reverse, reverse-cons}
use mathlib.Core.Option.{Option, none, some}
use native.Mathlib.Omega.{arith}
use paged_kv_cache.Prelude.Tests.{◌==◌, if◌then◌else◌}

module _ {ℓ} {A : Type ℓ} where
  abbrev pub length : List A → ℕ
  length [] = 0
  length (x ∷ xs) = suc (length xs)

  abbrev pub get_elem? : List A → ℕ → Option A
  get_elem? [] i = none
  get_elem? (x ∷ xs) zero = some x
  get_elem? (x ∷ xs) (suc i) = get_elem? xs i

  abbrev pub take : ℕ → List A → List A
  take zero xs = []
  take (suc n) [] = []
  take (suc n) (x ∷ xs) = x ∷ take n xs

  abbrev pub drop : ℕ → List A → List A
  drop zero xs = xs
  drop (suc n) [] = []
  drop (suc n) (x ∷ xs) = drop n xs

  pub length-append : (xs ys : List A) → length (xs ++ ys) ≡ length xs + length ys
  length-append [] ys = omega arith
  length-append (x ∷ xs) ys = omega (arith, length-append xs ys)

  pub length-take : (n : ℕ) (xs : List A) → length (take n xs) ≡ min n (length xs)
  length-take zero xs = omega arith
  length-take (suc n) [] = omega arith
  length-take (suc n) (x ∷ xs) = omega (arith, length-take n xs)

  pub length-drop : (n : ℕ) (xs : List A) → length (drop n xs) ≡ length xs - n
  length-drop zero xs = omega arith
  length-drop (suc n) [] = omega arith
  length-drop (suc n) (x ∷ xs) = omega (arith, length-drop n xs)

  pub length-reverse : (xs : List A) → length (reverse xs) ≡ length xs
  length-reverse [] = refl
  length-reverse (x ∷ xs) =
      omega (
        arith,
        ap length (reverse-cons x xs),
        length-append (reverse xs) (x ∷ []),
        length-reverse xs,
      )

  pub get_elem?-range : (k : ℕ) (xs : List A) (x : A) → get_elem? xs k ≡ some x → k < length xs
  get_elem?-range k [] x h = ground (arith, h)
  get_elem?-range zero (y ∷ ys) x h = omega arith
  get_elem?-range (suc k) (y ∷ ys) x h = omega (arith, get_elem?-range k ys x h)

  abbrev pub last_or : A → List A → A
  last_or d [] = d
  last_or d (x ∷ xs) = last_or x xs

-- How often a number stands in a list.
abbrev pub count : ℕ → List ℕ → ℕ
count i [] = 0
count i (x ∷ xs) = if x == i then suc (count i xs) else count i xs

pub count-append : (i : ℕ) (xs ys : List ℕ) → count i (xs ++ ys) ≡ count i xs + count i ys
count-append i [] ys = omega arith
count-append i (x ∷ xs) ys = ground (arith, count-append i xs ys)

pub count-reverse : (i : ℕ) (xs : List ℕ) → count i (reverse xs) ≡ count i xs
count-reverse i [] = refl
count-reverse i (x ∷ xs) = ground (
  arith,
  ap (count i) (reverse-cons x xs),
  count-append i (reverse xs) (x ∷ []),
  count-reverse i xs,
)

pub count-get_elem? : (k x : ℕ) (xs : List ℕ) → get_elem? xs k ≡ some x → 0 < count x xs
count-get_elem? k x [] h = ground (arith, h)
count-get_elem? zero x (y ∷ ys) h = ground (arith, h)
count-get_elem? (suc k) x (y ∷ ys) h = ground (arith, count-get_elem? k x ys h)

-- A number at two places of a list is counted twice.
count-get_elem?_two :
    (i j x : ℕ) (xs : List ℕ)
    → get_elem? xs i ≡ some x
    → get_elem? xs j ≡ some x
    → i < j
    → 2 ≤ count x xs
count-get_elem?_two i j x [] h k l = ground (arith, h)
count-get_elem?_two i zero x (y ∷ ys) h k l = absurd (omega (arith, l))
count-get_elem?_two zero (suc j) x (y ∷ ys) h k l = ground (arith, h, count-get_elem? j x ys k)
count-get_elem?_two (suc i) (suc j) x (y ∷ ys) h k l =
    ground (arith, count-get_elem?_two i j x ys h k (omega (arith, l)))

pub once-get_elem? :
    (i j x : ℕ) (xs : List ℕ)
    → get_elem? xs i ≡ some x
    → get_elem? xs j ≡ some x
    → count x xs ≤ 1
    → i ≡ j
once-get_elem? i j x xs h k l = elim (dec_lt i j) [
  | yes less ↦ absurd (omega (arith, l, count-get_elem?_two i j x xs h k less))
  | no more ↦ elim (dec_lt j i) [
    | yes less ↦ absurd (omega (arith, l, count-get_elem?_two j i x xs k h less))
    | no same ↦ omega (arith, more, same)
  ]
]
