-- ===== src/Prelude/Pairs.antt =====
-- Lists that are related element by element.

use mathlib.Core.Path.{◌≡◌, refl}
use mathlib.Core.List.{List, [], ◌∷◌, ◌++◌, map}
use native.Mathlib.Omega.{arith}
use paged_kv_cache.Prelude.Lists.{length}

module _ {A B : Type 0} (R : A → B → Type 0) where
  -- Each element of the first list with the one at its place in the second.
  abbrev pub Paired : List A → List B → Type 0
  Paired [] [] = Unit {0}
  Paired [] (y ∷ ys) = ⊥
  Paired (x ∷ xs) [] = ⊥
  Paired (x ∷ xs) (y ∷ ys) = R x y × Paired xs ys

  pub Paired-append :
      (xs : List A) (ys : List B) (vs : List A) (ws : List B)
      → Paired xs ys
      → Paired vs ws
      → Paired (xs ++ vs) (ys ++ ws)
  Paired-append [] [] vs ws h k = k
  Paired-append [] (y ∷ ys) vs ws h k = absurd h
  Paired-append (x ∷ xs) [] vs ws h k = absurd h
  Paired-append (x ∷ xs) (y ∷ ys) vs ws h k = (h.0, Paired-append xs ys vs ws h.1 k)

  pub Paired-length : (xs : List A) (ys : List B) → Paired xs ys → length xs ≡ length ys
  Paired-length [] [] h = refl
  Paired-length [] (y ∷ ys) h = absurd h
  Paired-length (x ∷ xs) [] h = absurd h
  Paired-length (x ∷ xs) (y ∷ ys) h = omega (arith, Paired-length xs ys h.1)

-- What each element of a list satisfies.
abbrev pub Every : {A : Type 0} → (A → Type 0) → List A → Type 0
Every P [] = Unit {0}
Every P (x ∷ xs) = P x × Every P xs

pub Every-append :
    {A : Type 0} (P : A → Type 0) (xs ys : List A) → Every P xs → Every P ys → Every P (xs ++ ys)
Every-append P [] ys h k = k
Every-append P (x ∷ xs) ys h k = (h.0, Every-append P xs ys h.1 k)

pub Every-split :
    {A : Type 0} (P : A → Type 0) (xs ys : List A) → Every P (xs ++ ys) → Every P xs × Every P ys
Every-split P [] ys h = (tt, h)
Every-split P (x ∷ xs) ys h = let (p, q) = Every-split P xs ys h.1 in ((h.0, p), q)

pub Every-Paired :
    {A B : Type 0} (P : A → Type 0) (R : A → B → Type 0) (Q : B → Type 0)
    → ((x : A) (y : B) → P x → R x y → Q y)
    → (xs : List A) (ys : List B) → Every P xs
    → Paired R xs ys
    → Every Q ys
Every-Paired P R Q f [] [] h k = tt
Every-Paired P R Q f [] (y ∷ ys) h k = absurd k
Every-Paired P R Q f (x ∷ xs) [] h k = absurd k
Every-Paired P R Q f (x ∷ xs) (y ∷ ys) h k = (f x y h.0 k.0, Every-Paired P R Q f xs ys h.1 k.1)

pub Every-map :
    {A B : Type 0} (P : A → Type 0) (Q : B → Type 0) (g : A → B)
    → ((x : A) → P x → Q (g x))
    → (xs : List A) → Every P xs
    → Every Q (map g xs)
Every-map P Q g f [] h = tt
Every-map P Q g f (x ∷ xs) h = (f x h.0, Every-map P Q g f xs h.1)
