-- ===== src/Allocator/Chunks.antt =====
-- `chunks_exact` of the standard library on a slice of tokens: the whole chunks of `n` elements
-- from the front, a shorter remainder dropped. `n` is not 0.
use paged_kv_cache.Prelude.{
  ℕ, zero, suc, ◌*◌, ◌≤◌, List, [], ◌∷◌, ltb, if◌then◌else◌, length, take, drop, length-drop,
  Bool-cases, inl, inr, arith,
}

-- At most `fuel` chunks.
unfoldable pub chunks_up_to : {A : Type 0} → ℕ → ℕ → List A → List (List A)
chunks_up_to zero n xs = []
chunks_up_to (suc fuel) n xs =
    let more = take n xs ∷ chunks_up_to fuel n (drop n xs) in if ltb (length xs) n then [] else more

-- A list has no more chunks than elements.
unfoldable pub chunks_exact : {A : Type 0} → ℕ → List A → List (List A)
unfolding chunks_up_to
chunks_exact n xs = chunks_up_to (length xs) n xs

length-chunks_up_to :
    {A : Type 0} (fuel n : ℕ) (xs : List A) → length (chunks_up_to fuel n xs) * n ≤ length xs
unfolding chunks_up_to
length-chunks_up_to zero n xs = omega arith
length-chunks_up_to (suc fuel) n xs = elim (Bool-cases (ltb (length xs) n)) [
  | inl few ↦ rw few (omega arith)
  | inr more ↦
      let enough : n ≤ length xs = ground arith in
      rw more (omega (arith, length-chunks_up_to fuel n (drop n xs), length-drop n xs))
]

-- The chunks hold no more than the list.
pub length-chunks_exact :
    {A : Type 0} (n : ℕ) (xs : List A) → length (chunks_exact n xs) * n ≤ length xs
unfolding chunks_exact
length-chunks_exact n xs = length-chunks_up_to (length xs) n xs
