-- ===== src/Fallible.antt =====
-- The way the methods of crates/paged-kv-model run: a state that is passed on, and the errors of
-- `candle_core::Result`, of which the messages are told apart and those of the tensor library are one.
use paged_kv_cache.Prelude.{ℕ, ◌≡◌, refl, Bool, true, false, Option, none, some}
use paged_kv_cache.Error.{CacheError}
use paged_kv_cache.Outcome.{Outcome, ok, err, panic, M}

pub data Error : Type 0 where
  scheduler_error : CacheError → Error
  cache_error : CacheError → Error
  empty_request : Error
  no_request : ℕ → Error
  wrong_slots : ℕ → ℕ → ℕ → Error
  no_new_token : Error
  no_block_for : ℕ → Error
  tensor_error : Error

pub data Result (S A : Type 0) : Type 0 where
  done : A → S → Result S A
  failed : Error → S → Result S A
  panicked : Result S A

abbrev pub F : Type 0 → Type 0 → Type 0
F S A = S → Result S A

abbrev pub and_then : {S A B : Type 0} → Result S A → (A → F S B) → Result S B
and_then (done a s) f = f a s
and_then (failed e s) f = failed e s
and_then panicked f = panicked

infixl 5 ◌>>=◌ ◌>>◌
abbrev pub ◌>>=◌ : {S A B : Type 0} → F S A → (A → F S B) → F S B
◌>>=◌ m f s = and_then (m s) f

abbrev pub ◌>>◌ : {S B : Type 0} → F S (Unit {0}) → F S B → F S B
◌>>◌ m k s = and_then (m s) (λ _. k)

abbrev pub pure : {S A : Type 0} → A → F S A
pure a s = done a s

abbrev pub get : {S : Type 0} → F S S
get s = done s s

abbrev pub put : {S : Type 0} → S → F S (Unit {0})
put t s = done tt t

-- `bail!`, under a test or not.
abbrev pub bail : {S A : Type 0} → Error → F S A
bail e s = failed e s

abbrev pub bail_if : {S : Type 0} → Bool → Error → F S (Unit {0})
bail_if true e s = failed e s
bail_if false e s = done tt s

-- `let Some(a) = o else { bail!(e) }`
abbrev pub some_or : {S A : Type 0} → Option A → Error → F S A
some_or none e s = failed e s
some_or (some a) e s = done a s

-- `expect`, and an index that has to be in range.
abbrev pub expect : {S A : Type 0} → Option A → F S A
expect none s = panicked
expect (some a) s = done a s

-- A method of paged-kv-core on a part of the state, with its error mapped.
abbrev pub called :
    {S T A : Type 0} → (CacheError → Error) → (S → T → S) → S → Outcome T A → Result S A
called map_err with s (ok a t) = done a (with s t)
called map_err with s (err e t) = failed (map_err e) (with s t)
called map_err with s panic = panicked

abbrev pub call : {S T A : Type 0} → (CacheError → Error) → (S → T) → (S → T → S) → M T A → F S A
call map_err part with m s = called map_err with s (m (part s))

-- The call returns a value, and it satisfies `P`.
abbrev pub Done : {S A : Type 0} → (A → S → Type 0) → Result S A → Type 0
Done P (done a s) = P a s
Done P (failed e s) = ⊥
Done P panicked = ⊥

pub Done-eq :
    {S A : Type 0} (P : A → S → Type 0) (r : Result S A)
    → Done P r
    → (a : A) × (s : S) × (r ≡ done a s) × P a s
Done-eq P (done a s) h = (a, s, refl, h)
Done-eq P (failed e s) h = absurd h
Done-eq P panicked h = absurd h
