-- ===== src/PrefixCache.antt =====
-- crates/paged-kv-core/src/prefix_cache.rs. The `HashMap` is an association list in which a key
-- stands once; the order of its entries means nothing. `next_entry` is a `u64` that wraps.
pub mod Agreement
use native.Mathlib.Decide.{ℕ_discrete}
use mathlib.Core.Logic.{ite}
use paged_kv_cache.Prelude.{
  ℕ, zero, suc, ◌+◌, ◌%◌, ◌^◌, Bool, true, false, ◌&&◌, Option, none, some, List, [], ◌∷◌, ◌==◌,
  if◌then◌else◌, Array, filled, length, is_some,
}
use paged_kv_cache.Outcome.{M, ◌>>=◌, ◌>>◌, pure, get, put, index, store}

-- `PrefixEntry::ROOT`
abbrev pub root : ℕ
root = 0

pub record Key : Type 0 where
  pub parent : ℕ
  pub tokens : List ℕ

unfoldable pub Key-discrete : Discrete Key
unfolding ℕ_discrete
Key-discrete = hlevel ℕ_discrete

-- What a key maps to: the entry of its content and the block that holds it.
abbrev pub KeyMap : Type 0
KeyMap = List (Key × ℕ × ℕ)

unfoldable pub find : Key → KeyMap → Option (ℕ × ℕ)
find k [] = none
find k ((j, e, b) ∷ m) = ite (Key-discrete j k) (some (e, b)) (find k m)

unfoldable pub delete : Key → KeyMap → KeyMap
delete k [] = []
delete k ((j, e, b) ∷ m) = ite (Key-discrete j k) (delete k m) ((j, e, b) ∷ delete k m)

pub record PrefixIndex : Type 0 where
  pub by_key : KeyMap
  pub by_block : Array (Option (ℕ × Key))
  pub next_entry : ℕ

unfoldable pub new : ℕ → PrefixIndex
new num_blocks = record { by_key = []; by_block = filled none num_blocks; next_entry = 1 }

unfoldable pub len : PrefixIndex → ℕ
len x = length x.by_key

unfoldable pub is_cached : {S : Type 0} → PrefixIndex → ℕ → M S Bool
is_cached x block = do cell ← index x.by_block block; pure (is_some cell)

unfoldable pub lookup : PrefixIndex → ℕ → List ℕ → Option (ℕ × ℕ)
lookup x parent tokens = find (record { parent = parent; tokens = tokens }) x.by_key

-- The end of `insert`: a new entry for the key.
unfoldable pub register : ℕ → Key → M PrefixIndex ℕ
register block key = do
  x ← get
  let entry = x.next_entry
  let by_key = (key, entry, block) ∷ delete key x.by_key
  by_block ← store x.by_block block (some (entry, key))
  put (record { by_key = by_key; by_block = by_block; next_entry = (entry + 1) % 2 ^ 64 })
  pure entry

unfoldable pub insert : ℕ → ℕ → List ℕ → M PrefixIndex ℕ
unfolding register
insert block parent tokens = do
  x ← get
  cell ← index x.by_block block
  let key : Key = record { parent = parent; tokens = tokens }
  elim cell [
    | some (entry, _) ↦ pure entry
    | none ↦ elim (find key x.by_key) [ some (entry, _) ↦ pure entry | none ↦ register block key ]
  ]

unfoldable pub remove : ℕ → M PrefixIndex (Unit {0})
remove block = do
  x ← get
  cell ← index x.by_block block
  elim cell [
    | none ↦ pure tt
    | some (_, key) ↦ do
      by_block ← store x.by_block block none
      put (record x { by_key = delete key x.by_key; by_block = by_block })
  ]

-- How many of the first `n` cells are filled.
abbrev pub count_some : (ℕ → Option (ℕ × Key)) → ℕ → ℕ
count_some cells zero = 0
count_some cells (suc n) =
    if is_some (cells n) then suc (count_some cells n) else count_some cells n

-- The body of the loop of `check`, for one block.
unfoldable pub check_block : KeyMap → ℕ → Option (ℕ × Key) → Bool
check_block m i none = true
check_block m i (some (entry, key)) = elim (find key m) [
  | some (e, b) ↦ e == entry && b == i
  | none ↦ false
]

unfoldable pub check_blocks : KeyMap → (ℕ → Option (ℕ × Key)) → ℕ → Bool
check_blocks m cells zero = true
check_blocks m cells (suc n) = check_block m n (cells n) && check_blocks m cells n

-- Whether `check` returns `Ok`; its messages are not modelled.
unfoldable pub check : PrefixIndex → Bool
unfolding check_blocks check_block
check x =
    count_some x.by_block.at x.by_block.size == length x.by_key
    && check_blocks x.by_key x.by_block.at x.by_block.size
