-- ===== src/BlockTable/Arithmetic.antt =====
-- The arithmetic of block_table.rs: rounding up, and the last block of a list.
use paged_kv_cache.Prelude.{
  ◌≤◌, ℕ, zero, suc, ◌+◌, ◌-◌, ◌*◌, ◌/◌, ◌%◌, ◌<◌, ◌≡◌, ◌≢◌, refl, sym, ap, Bool, false, List, [],
  ◌∷◌, ◌++◌, some, ◌==◌, if◌then◌else◌, length, count, get_elem?, last_or, div_ceil, arith,
}
use paged_kv_cache.BlockTable.{last?, set_last}
use native.Mathlib.Nat.{
  mod-add-mod, mod_self, mod-eq_of_lt, div-eq_of_lt-le, div-eq_of_lt, div-eq-sub-div,
}
use native.Mathlib.Decide.{dec_lt, ℕ_discrete}

-- A quotient is determined by its remainder.
div_unique : (n b q r : ℕ) → n ≡ q * b + r → r < b → n / b ≡ q
div_unique n b q r e h = div-eq_of_lt-le b (omega arith) (omega arith)

rounding : (n b : ℕ) → 0 < b → n % b ≢ 0 → n + (b - 1) ≡ (n / b + 1) * b + (n % b - 1)
rounding n b h part = grind arith

pub div_ceil-eq : (n b : ℕ) → 0 < b → div_ceil n b ≡ n / b + (if n % b == 0 then 0 else 1)
div_ceil-eq n b h = elim (ℕ_discrete (n % b) 0) [
  | yes whole ↦
      rw whole (div_unique (n + (b - 1)) b (n / b + 0) (b - 1) (grind arith) (omega arith))
  | no part ↦ ground (
    arith,
    div_unique (n + (b - 1)) b (n / b + 1) (n % b - 1) (rounding n b h part) (omega arith),
  )
]

pub div_ceil-suc : (n b : ℕ) → 0 < b → div_ceil (n + 1) b ≡ n / b + 1
div_ceil-suc n b h = grind arith

pub last?-some : (xs : List ℕ) → 0 < length xs → (x : ℕ) × (last? xs ≡ some x)
last?-some [] h = absurd (omega arith)
last?-some (x ∷ []) h = (x, refl)
last?-some (x ∷ y ∷ xs) h = last?-some (y ∷ xs) (omega arith)

pub count-last? : (x : ℕ) (xs : List ℕ) → last? xs ≡ some x → 0 < count x xs
count-last? x [] h = absurd (cc)
count-last? x (y ∷ []) h = ground arith
count-last? x (y ∷ z ∷ xs) h = ground (arith, count-last? x (z ∷ xs) h)

pub count-set_last :
    (i x v : ℕ) (xs : List ℕ)
    → last? xs ≡ some x
    → count i (set_last xs v) + (if x == i then 1 else 0) ≡ count i xs + (if v == i then 1 else 0)
count-set_last i x v [] h = absurd (cc)
count-set_last i x v (y ∷ []) h = ground arith
count-set_last i x v (y ∷ z ∷ xs) h = ground (arith, count-set_last i x v (z ∷ xs) h)

pub length-set_last : (xs : List ℕ) (v : ℕ) → length (set_last xs v) ≡ length xs
length-set_last [] v = refl
length-set_last (x ∷ []) v = refl
length-set_last (x ∷ y ∷ xs) v = omega (arith, length-set_last (y ∷ xs) v)

pub get_elem?-last :
    (x k : ℕ) (xs : List ℕ) → last? xs ≡ some x → k + 1 ≡ length xs → get_elem? xs k ≡ some x
get_elem?-last x k [] h e = absurd (cc)
get_elem?-last x zero (y ∷ []) h e = h
get_elem?-last x (suc k) (y ∷ []) h e = absurd (omega arith)
get_elem?-last x zero (y ∷ z ∷ xs) h e = absurd (omega arith)
get_elem?-last x (suc k) (y ∷ z ∷ xs) h e = get_elem?-last x k (z ∷ xs) h (omega arith)

pub get_elem?-set_last :
    (v k : ℕ) (xs : List ℕ)
    → get_elem? (set_last xs v) k ≡ (if k + 1 == length xs then some v else get_elem? xs k)
get_elem?-set_last v k [] = ground arith
get_elem?-set_last v zero (y ∷ []) = ground arith
get_elem?-set_last v (suc k) (y ∷ []) = ground arith
get_elem?-set_last v zero (y ∷ z ∷ xs) = ground arith
get_elem?-set_last v (suc k) (y ∷ z ∷ xs) = ground (arith, get_elem?-set_last v k (z ∷ xs))

pub get_elem?-append :
    (v k : ℕ) (xs : List ℕ)
    → get_elem? (xs ++ v ∷ []) k ≡ (if k == length xs then some v else get_elem? xs k)
get_elem?-append v zero [] = ground arith
get_elem?-append v (suc k) [] = ground arith
get_elem?-append v zero (x ∷ xs) = ground arith
get_elem?-append v (suc k) (x ∷ xs) = ground (arith, get_elem?-append v k xs)

pub last?-last_or : (d : ℕ) (xs : List ℕ) → 0 < length xs → last? xs ≡ some (last_or d xs)
last?-last_or d [] h = absurd (omega arith)
last?-last_or d (x ∷ []) h = refl
last?-last_or d (x ∷ y ∷ xs) h = last?-last_or x (y ∷ xs) (omega arith)

pub last_or-get_elem? :
    (d k x : ℕ) (xs : List ℕ) → get_elem? xs k ≡ some x → k + 1 ≡ length xs → last_or d xs ≡ x
last_or-get_elem? d k x [] h e = absurd (omega arith)
last_or-get_elem? d zero x (y ∷ []) h e = ground arith
last_or-get_elem? d (suc k) x (y ∷ []) h e = absurd (omega arith)
last_or-get_elem? d zero x (y ∷ z ∷ xs) h e = absurd (omega arith)
last_or-get_elem? d (suc k) x (y ∷ z ∷ xs) h e = last_or-get_elem? y k x (z ∷ xs) h (omega arith)

pub div_ceil-zero : (b : ℕ) → 0 < b → div_ceil 0 b ≡ 0
div_ceil-zero b h = div-eq_of_lt (omega arith)

-- One block serves the first `b` of `n + 1` tokens.
pub div_ceil-step : (n b : ℕ) → 0 < b → div_ceil (n + 1) b ≡ div_ceil (n + 1 - b) b + 1
div_ceil-step n b h = elim (dec_lt n b) [
  | yes few ↦
      let e : n + 1 - b ≡ 0 = omega arith in
      rw (div_ceil-suc n b h, e, div_ceil-zero b h, div-eq_of_lt few)
  | no more ↦
      let e : n + 1 - b ≡ (n - b) + 1 = omega arith in
      rw (
        div_ceil-suc n b h,
        e,
        div_ceil-suc (n - b) b h,
        div-eq-sub-div {m = b} {n = n} h (omega arith),
      )
]

-- The position in a block after one more token.
pub mod-suc : (n b : ℕ) → 0 < b → (n + 1) % b ≡ (if n % b + 1 == b then 0 else n % b + 1)
mod-suc n b h = elim (ℕ_discrete (n % b + 1) b) [
  | yes wraps ↦ ground (arith, sym (mod-add-mod n b 1), mod_self b)
  | no stays ↦
      ground (arith, sym (mod-add-mod n b 1), mod-eq_of_lt {n = n % b + 1} {m = b} (omega arith))
]

-- The blocks that `n` tokens take from the pool, where `r` tokens are in the tail, and a tail that
-- is `shared` is copied first.
abbrev pub need : ℕ → ℕ → Bool → ℕ → ℕ
need b r shared zero = 0
need b r shared (suc n) =
    if r == 0 then div_ceil (suc n) b else div_ceil (suc n - (b - r)) b + (if shared then 1 else 0)

pub need-step :
    (b r n : ℕ) (shared : Bool)
    → r < b
    → need b r shared (suc n)
      ≡ (if r == 0 then 1 else if shared then 1 else 0)
        + need b (if r + 1 == b then 0 else r + 1) false n
need-step b r zero shared h = ground (
  arith,
  div_ceil-zero b (omega arith),
  div_ceil-step 0 b (omega arith),
  ap (λ m. div_ceil m b) (one_less b r h),
  ap (λ m. div_ceil m b) (one_less b 0 (omega arith)),
)
  where
    one_less : (b r : ℕ) → r < b → 1 - (b - r) ≡ 0
    one_less b r h = omega arith
need-step b r (suc n) shared h = ground (
  arith,
  div_ceil-step (suc n) b (omega arith),
  ap (λ m. div_ceil m b) (next_block b n h),
  ap (λ m. div_ceil m b) (same_block b r n h),
  ap (λ m. div_ceil m b) (last_slot b r n h),
  ap (λ m. div_ceil m b) (one_more n),
)
  where
    one_more : (n : ℕ) → suc (suc n) ≡ suc n + 1
    one_more n = omega arith

    next_block : (b n : ℕ) → r < b → suc n + 1 - b ≡ suc n - (b - 1)
    next_block b n h = omega arith

    same_block : (b r n : ℕ) → r < b → suc (suc n) - (b - r) ≡ suc n - (b - (r + 1))
    same_block b r n h = omega arith

    last_slot : (b r n : ℕ) → r < b → suc n - (b - (r + 1)) ≡ (suc n + 1) - (b - r)
    last_slot b r n h = omega arith

-- The blocks that `n` tokens fill hold them.
pub blocks_hold : (n b : ℕ) → 0 < b → n ≤ div_ceil n b * b
blocks_hold n b h = rw (div_ceil-eq n b h) (grind arith)
