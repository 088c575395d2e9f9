-- ===== src/Prelude/Arrays.antt =====
-- A `Vec` whose length never changes: its length, and its cells as a function of the index.
-- What `at` says beyond `size` means nothing: every read and write of the models is checked.
use Prim.Native.Nat.{ℕ}
use paged_kv_cache.Prelude.Tests.{◌==◌, if◌then◌else◌}

pub record Array {ℓ} (A : Type ℓ) : Type ℓ where
  pub size : ℕ
  pub at : ℕ → A

-- `vec![value; size]`
abbrev pub filled {ℓ} : {A : Type ℓ} → A → ℕ → Array A
filled value n = record { size = n; at = λ _. value }

-- The array after a write in range.
abbrev pub update {ℓ} : {A : Type ℓ} → Array A → ℕ → A → Array A
update xs i v = record { size = xs.size; at = λ j. if i == j then v else xs.at j }
