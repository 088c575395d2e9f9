-- ===== src/Outcome.antt =====
-- The way the methods of crates/paged-kv-core run: `&mut self` is a state that is passed on, also
-- when the method returns an error of error.rs; an index out of range, an `unwrap` of `None` and
-- an `expect` are a panic, after which there is no state.
use paged_kv_cache.Prelude.{
  ◌⊎◌, subst, inl, inr, ℕ, ◌≡◌, refl, Bool, true, false, Option, none, some, ltb, ◌==◌,
  if◌then◌else◌, Array, update,
}
use paged_kv_cache.Error.{CacheError}

pub data Outcome (S A : Type 0) : Type 0 where
  ok : A → S → Outcome S A
  err : CacheError → S → Outcome S A
  panic : Outcome S A

abbrev pub M : Type 0 → Type 0 → Type 0
M S A = S → Outcome S A

abbrev pub and_then : {S A B : Type 0} → Outcome S A → (A → M S B) → Outcome S B
and_then (ok a s) f = f a s
and_then (err e s) f = err e s
and_then panic f = panic

infixl 5 ◌>>=◌ ◌>>◌
abbrev pub ◌>>=◌ : {S A B : Type 0} → M S A → (A → M S B) → M S B
◌>>=◌ m f s = and_then (m s) f

abbrev pub ◌>>◌ : {S B : Type 0} → M S (Unit {0}) → M S B → M S B
◌>>◌ m k s = and_then (m s) (λ _. k)

abbrev pub pure : {S A : Type 0} → A → M S A
pure a s = ok a s

abbrev pub fail : {S A : Type 0} → CacheError → M S A
fail e s = err e s

abbrev pub get : {S : Type 0} → M S S
get s = ok s s

abbrev pub put : {S : Type 0} → S → M S (Unit {0})
put t s = ok tt t

-- `if test { return Err(e) }`
abbrev pub reject_if : {S : Type 0} → Bool → CacheError → M S (Unit {0})
reject_if true e s = err e s
reject_if false e s = ok tt s

-- `xs[i]`
abbrev pub index : {S A : Type 0} → Array A → ℕ → M S A
index xs i s = if ltb i xs.size then ok (xs.at i) s else panic

-- `xs[i] = v`: the array after the write
abbrev pub store : {S A : Type 0} → Array A → ℕ → A → M S (Array A)
store xs i v s = if ltb i xs.size then ok (update xs i v) s else panic

-- `xs[i]` of a `Vec` that grows, and `unwrap` or `expect`
abbrev pub expect : {S A : Type 0} → Option A → M S A
expect none s = panic
expect (some a) s = ok a s

-- A division by `n`.
abbrev pub divisor : {S : Type 0} → ℕ → M S (Unit {0})
divisor n s = if n == 0 then panic else ok tt s

-- A method of a field of the state.
abbrev pub lift : {S T A : Type 0} → (S → T → S) → S → Outcome T A → Outcome S A
lift with s (ok a t) = ok a (with s t)
lift with s (err e t) = err e (with s t)
lift with s panic = panic

abbrev pub on : {S T A : Type 0} → (S → T) → (S → T → S) → M T A → M S A
on part with m s = lift with s (m (part s))

-- What holds of the value and the state that a method returns, or of its error and the state that
-- it leaves then. A panic has no postcondition.
abbrev pub Post :
    {S A : Type 0} → (A → S → Type 0) → (CacheError → S → Type 0) → Outcome S A → Type 0
Post P E (ok a s) = P a s
Post P E (err e s) = E e s
Post P E panic = ⊥

-- The method returns a value, and it satisfies `P`.
abbrev pub Returns : {S A : Type 0} → (A → S → Type 0) → Outcome S A → Type 0
Returns P o = Post P (λ _ _. ⊥) o

-- The rule for a sequence of two steps.
pub and_then-Post :
    {S A B : Type 0} (P : A → S → Type 0) (E : CacheError → S → Type 0) (Q : B → S → Type 0)
    (F : CacheError → S → Type 0) (o : Outcome S A) (f : A → M S B)
    → Post P E o
    → ((a : A) (s : S) → P a s → Post Q F (f a s))
    → ((e : CacheError) (s : S) → E e s → F e s)
    → Post Q F (and_then o f)
and_then-Post P E Q F (ok a s) f h k l = k a s h
and_then-Post P E Q F (err e s) f h k l = l e s h
and_then-Post P E Q F panic f h k l = h

pub Post-mono :
    {S A : Type 0} (P Q : A → S → Type 0) (E F : CacheError → S → Type 0) (o : Outcome S A)
    → Post P E o
    → ((a : A) (s : S) → P a s → Q a s)
    → ((e : CacheError) (s : S) → E e s → F e s)
    → Post Q F o
Post-mono P Q E F (ok a s) h k l = k a s h
Post-mono P Q E F (err e s) h k l = l e s h
Post-mono P Q E F panic h k l = h

-- A method that returns has a value and a state, in equations.
pub Returns-eq :
    {S A : Type 0} (P : A → S → Type 0) (o : Outcome S A)
    → Returns P o
    → (a : A) × (s : S) × (o ≡ ok a s) × P a s
Returns-eq P (ok a s) h = (a, s, refl, h)
Returns-eq P (err e s) h = absurd h
Returns-eq P panic h = absurd h

-- A method that cannot return a value fails, in equations.
pub Post-fails :
    {S A : Type 0} (P : A → S → Type 0) (E : CacheError → S → Type 0) (o : Outcome S A)
    → Post P E o
    → ((a : A) (s : S) → ¬ P a s)
    → (e : CacheError) × (s : S) × (o ≡ err e s) × E e s
Post-fails P E (ok a s) h k = absurd (k a s h)
Post-fails P E (err e s) h k = (e, s, refl, h)
Post-fails P E panic h k = absurd h

-- What a method did, in equations.
pub Post-cases :
    {S A : Type 0} (P : A → S → Type 0) (E : CacheError → S → Type 0) (o : Outcome S A)
    → Post P E o
    → ((a : A) × (s : S) × (o ≡ ok a s) × P a s)
      ⊎ ((e : CacheError) × (s : S) × (o ≡ err e s) × E e s)
Post-cases P E (ok a s) h = inl (a, s, refl, h)
Post-cases P E (err e s) h = inr (e, s, refl, h)
Post-cases P E panic h = absurd h

-- Two promises of one call that returns.
pub Returns-both :
    {S A : Type 0} (P Q : A → S → Type 0) (o : Outcome S A)
    → Returns P o
    → Returns Q o
    → Returns (λ a s. P a s × Q a s) o
Returns-both P Q (ok a s) h k = (h, k)
Returns-both P Q (err e s) h k = absurd h
Returns-both P Q panic h k = absurd h

-- The rule for a sequence of two steps that return, and for a step of a part of the state.
pub Returns-bind :
    {S A B : Type 0} (P : A → S → Type 0) (Q : B → S → Type 0) (o : Outcome S A) (f : A → M S B)
    → Returns P o
    → ((a : A) (s : S) → P a s → Returns Q (f a s))
    → Returns Q (and_then o f)
Returns-bind P Q (ok a s) f h k = k a s h
Returns-bind P Q (err e s) f h k = absurd h
Returns-bind P Q panic f h k = absurd h

pub Returns-lift :
    {S T A : Type 0} (with : S → T → S) (s : S) (P : A → T → Type 0) (o : Outcome T A)
    → Returns P o
    → Returns (λ a t. (u : T) × (t ≡ with s u) × P a u) (lift with s o)
Returns-lift with s P (ok a u) h = (u, refl, h)
Returns-lift with s P (err e u) h = absurd h
Returns-lift with s P panic h = absurd h

-- What holds of the value and the state that a method returns, if it does.
abbrev pub Gives : {S A : Type 0} → (A → S → Type 0) → Outcome S A → Type 0
Gives P (ok a s) = P a s
Gives P (err e s) = Unit {0}
Gives P panic = Unit {0}

pub Gives-bind :
    {S A B : Type 0} (P : A → S → Type 0) (Q : B → S → Type 0) (o : Outcome S A) (f : A → M S B)
    → Gives P o
    → ((a : A) (s : S) → P a s → Gives Q (f a s))
    → Gives Q (and_then o f)
Gives-bind P Q (ok a s) f h k = k a s h
Gives-bind P Q (err e s) f h k = tt
Gives-bind P Q panic f h k = tt

pub Gives-mono :
    {S A : Type 0} (P Q : A → S → Type 0) (o : Outcome S A)
    → Gives P o
    → ((a : A) (s : S) → P a s → Q a s)
    → Gives Q o
Gives-mono P Q (ok a s) h k = k a s h
Gives-mono P Q (err e s) h k = tt
Gives-mono P Q panic h k = tt

pub Gives-lift :
    {S T A : Type 0} (with : S → T → S) (s : S) (P : A → T → Type 0) (Q : A → S → Type 0)
    (o : Outcome T A)
    → Gives P o
    → ((a : A) (t : T) → P a t → Q a (with s t))
    → Gives Q (lift with s o)
Gives-lift with s P Q (ok a t) h k = k a t h
Gives-lift with s P Q (err e t) h k = tt
Gives-lift with s P Q panic h k = tt

pub Gives-eq :
    {S A : Type 0} (P : A → S → Type 0) (o : Outcome S A) (a : A) (s : S)
    → Gives P o
    → o ≡ ok a s
    → P a s
Gives-eq P o a s h e = subst (Gives P) e h
