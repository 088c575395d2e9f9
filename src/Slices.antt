-- ===== src/Slices.antt =====
-- Ranges of a buffer, as the backends address it: `&xs[off..off + n]`, `copy_from_slice`,
-- `copy_within` and `fill`. A range that ends beyond the buffer is a panic.
use paged_kv_cache.Prelude.{
  ℕ, zero, suc, ◌+◌, ◌-◌, ◌≤◌, ◌<◌, ◌≡◌, ◌⊎◌, refl, subst, some, Bool, ◌&&◌, List, [], ◌∷◌, ltb,
  leb, if◌then◌else◌, Array, length, get_elem?, take, drop, ap, ◌∙◌, arith,
}
use paged_kv_cache.Outcome.{M, ok, panic}

-- Whether `j` is in `off..off + n`.
abbrev pub in_range : ℕ → ℕ → ℕ → Bool
in_range off n j = leb off j && ltb j (off + n)

module _ {F : Type 0} where
  -- The elements of `xs[off..off + n]`.
  abbrev pub elements : Array F → ℕ → ℕ → List F
  elements xs off zero = []
  elements xs off (suc n) = xs.at off ∷ elements xs (off + 1) n

  -- The element `i` of a list, `d` beyond its end.
  abbrev pub get_or : List F → ℕ → F → F
  get_or [] i d = d
  get_or (x ∷ xs) zero d = x
  get_or (x ∷ xs) (suc i) d = get_or xs i d

  -- The buffer after `xs[off..off + ys.len()].copy_from_slice(ys)`.
  abbrev pub overwrite : Array F → ℕ → List F → Array F
  overwrite xs off ys = record {
    size = xs.size;
    at = λ j. if in_range off (length ys) j then get_or ys (j - off) (xs.at j) else xs.at j;
  }

  -- The buffer after `xs.copy_within(src..src + n, dst)`.
  abbrev pub moved : Array F → ℕ → ℕ → ℕ → Array F
  moved xs src n dst = record {
    size = xs.size;
    at = λ j. if in_range dst n j then xs.at (j - dst + src) else xs.at j;
  }

  -- The buffer after `xs[off..off + n].fill(value)`.
  abbrev pub refilled : Array F → ℕ → ℕ → F → Array F
  refilled xs off n value = record {
    size = xs.size;
    at = λ j. if in_range off n j then value else xs.at j;
  }

  module _ {S : Type 0} where
    abbrev pub slice : Array F → ℕ → ℕ → M S (List F)
    slice xs off n s = if leb (off + n) xs.size then ok (elements xs off n) s else panic

    abbrev pub copy_from_slice : Array F → ℕ → List F → M S (Array F)
    copy_from_slice xs off ys s =
        if leb (off + length ys) xs.size then ok (overwrite xs off ys) s else panic

    abbrev pub copy_within : Array F → ℕ → ℕ → ℕ → M S (Array F)
    copy_within xs src n dst s =
        if leb (src + n) xs.size && leb (dst + n) xs.size then ok (moved xs src n dst) s else panic

    abbrev pub fill : Array F → ℕ → ℕ → F → M S (Array F)
    fill xs off n value s = if leb (off + n) xs.size then ok (refilled xs off n value) s else panic

  pub length-elements : (xs : Array F) (off n : ℕ) → length (elements xs off n) ≡ n
  length-elements xs off zero = refl
  length-elements xs off (suc n) = omega (arith, length-elements xs (off + 1) n)

  -- Equal cells give equal slices.
  pub elements-same :
      (xs ys : Array F) (off off' n : ℕ)
      → ((j : ℕ) → j < n → xs.at (off + j) ≡ ys.at (off' + j))
      → elements xs off n ≡ elements ys off' n
  elements-same xs ys off off' zero h = refl
  elements-same xs ys off off' (suc n) h =
      let rest = elements-same xs ys (off + 1) (off' + 1) n (λ j l.
        let p : off + 1 + j ≡ off + suc j = omega arith in
        let q : off' + 1 + j ≡ off' + suc j = omega arith in
        rw (p, q) (h (suc j) (omega (arith, l)))) in
      let p : off + 0 ≡ off = omega arith in
      let q : off' + 0 ≡ off' = omega arith in
      let first : xs.at off ≡ ys.at off' = ground (arith, p, q, h 0 (omega arith)) in cc

  -- A slice whose cells hold a list is that list.
  elements-list :
      (xs : Array F) (off : ℕ) (ys : List F)
      → ((j : ℕ) → j < length ys → get_elem? ys j ≡ some (xs.at (off + j)))
      → elements xs off (length ys) ≡ ys
  elements-list xs off [] h = refl
  elements-list xs off (y ∷ ys) h =
      let rest = elements-list xs (off + 1) ys (λ j l.
        let p : off + 1 + j ≡ off + suc j = omega arith in rw p (h (suc j) (omega (arith, l)))) in
      let p : off + 0 ≡ off = omega arith in
      let first : some y ≡ some (xs.at off) = ground (arith, p, h 0 (omega arith)) in cc

  get_or-some :
      (ys : List F) (j : ℕ) (d : F) → j < length ys → get_elem? ys j ≡ some (get_or ys j d)
  get_or-some [] j d l = absurd (omega (arith, l))
  get_or-some (y ∷ ys) zero d l = refl
  get_or-some (y ∷ ys) (suc j) d l = get_or-some ys j d (omega (arith, l))

  -- A slice of what was just written there.
  pub elements-overwrite :
      (xs : Array F) (off : ℕ) (ys : List F) (n : ℕ)
      → length ys ≡ n
      → elements (overwrite xs off ys) off n ≡ ys
  elements-overwrite xs off ys n e =
      subst (λ m. elements (overwrite xs off ys) off m ≡ ys) e
        (elements-list (overwrite xs off ys) off ys (λ j l.
          let p : off + j - off ≡ j = omega arith in
          ground (arith, p, get_or-some ys j (xs.at (off + j)) l)))

  -- A slice that the write does not touch.
  pub elements-overwrite_apart :
      (xs : Array F) (off : ℕ) (ys : List F) (at n : ℕ)
      → (off + length ys ≤ at) ⊎ (at + n ≤ off)
      → elements (overwrite xs off ys) at n ≡ elements xs at n
  elements-overwrite_apart xs off ys at n apart =
      elements-same (overwrite xs off ys) xs at at n (λ j l. ground (arith, apart))

  -- A slice of what was moved there, and one that the move does not touch.
  pub elements-moved :
      (xs : Array F) (src n dst i m : ℕ)
      → i + m ≤ n
      → elements (moved xs src n dst) (dst + i) m ≡ elements xs (src + i) m
  elements-moved xs src n dst i m h =
      elements-same (moved xs src n dst) xs (dst + i) (src + i) m
        (λ j l. let p : dst + i + j - dst + src ≡ src + i + j = omega arith in ground (arith, p))

  pub elements-moved_apart :
      (xs : Array F) (src n dst at m : ℕ)
      → (dst + n ≤ at) ⊎ (at + m ≤ dst)
      → elements (moved xs src n dst) at m ≡ elements xs at m
  elements-moved_apart xs src n dst at m apart =
      elements-same (moved xs src n dst) xs at at m (λ j l. ground (arith, apart))

  -- A part of a slice.
  drop-elements :
      (xs : Array F) (off i n : ℕ)
      → i ≤ n
      → drop i (elements xs off n) ≡ elements xs (off + i) (n - i)
  drop-elements xs off zero n h =
      let p : off + 0 ≡ off = omega arith in let q : n - 0 ≡ n = omega arith in rw (p, q) refl
  drop-elements xs off (suc i) zero h = absurd (omega (arith, h))
  drop-elements xs off (suc i) (suc n) h =
      let p : off + suc i ≡ off + 1 + i = omega arith in
      let q : suc n - suc i ≡ n - i = omega arith in
      rw (p, q) (drop-elements xs (off + 1) i n (omega (arith, h)))

  take-elements :
      (xs : Array F) (off m n : ℕ) → m ≤ n → take m (elements xs off n) ≡ elements xs off m
  take-elements xs off zero n h = refl
  take-elements xs off (suc m) zero h = absurd (omega (arith, h))
  take-elements xs off (suc m) (suc n) h =
      ap (λ l. xs.at off ∷ l) (take-elements xs (off + 1) m n (omega (arith, h)))

  pub elements-part :
      (xs : Array F) (off i m n : ℕ)
      → i + m ≤ n
      → take m (drop i (elements xs off n)) ≡ elements xs (off + i) m
  elements-part xs off i m n h =
      ap (take m) (drop-elements xs off i n (omega (arith, h)))
      ∙ take-elements xs (off + i) m (n - i) (omega (arith, h))
