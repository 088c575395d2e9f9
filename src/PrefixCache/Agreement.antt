-- ===== src/PrefixCache/Agreement.antt =====
-- The two maps of the index of prefix_cache.rs agree: a block is cached under a key exactly when
-- the key maps to that block, under the same entry.
use paged_kv_cache.Prelude.{
  ℕ, zero, suc, ◌+◌, ◌%◌, ◌^◌, ◌≤◌, ◌<◌, ◌≡◌, ◌≢◌, refl, ◌⊎◌, inl, inr, true, Option, none, some,
  List, [], ◌∷◌, ◌==◌, if◌then◌else◌, update, length, is_some, Option-cases, arith,
}
use paged_kv_cache.Outcome.{ok, Returns}
use paged_kv_cache.PrefixCache.{
  Key, KeyMap, find, delete, PrefixIndex, new, lookup, insert, remove, count_some, check_block,
  check_blocks, check,
}

find-delete_self : (k : Key) (m : KeyMap) → find k (delete k m) ≡ none
unfolding find delete
find-delete_self k [] = refl
find-delete_self k ((j, e, b) ∷ m) = ground (arith, find-delete_self k m)

find-delete_ne : (k j : Key) (m : KeyMap) → k ≢ j → find j (delete k m) ≡ find j m
unfolding find delete
find-delete_ne k j [] h = refl
find-delete_ne k j ((i, e, b) ∷ m) h = ground (arith, find-delete_ne k j m h)

-- Each key stands once.
abbrev pub Keyed : KeyMap → Type 0
Keyed [] = Unit {0}
Keyed ((k, e, b) ∷ m) = (find k m ≡ none) × Keyed m

delete_absent : (k : Key) (m : KeyMap) → find k m ≡ none → delete k m ≡ m
unfolding find delete
delete_absent k [] h = refl
delete_absent k ((j, e, b) ∷ m) h = ground (arith, delete_absent k m)

length-delete :
    (k : Key) (m : KeyMap) (v : ℕ × ℕ)
    → Keyed m
    → find k m ≡ some v
    → length (delete k m) + 1 ≡ length m
unfolding find delete
length-delete k [] v u h = cc
length-delete k ((j, e, b) ∷ m) v u h = ground (arith, length-delete k m v u.1, delete_absent k m)

delete-Keyed : (k : Key) (m : KeyMap) → Keyed m → Keyed (delete k m)
unfolding find delete
delete-Keyed k [] u = tt
delete-Keyed k ((j, e, b) ∷ m) u = ground (arith, delete-Keyed k m u.1, find-delete_ne k j m)

pub record Agrees (n : ℕ) (x : PrefixIndex) : Type 0 where
  pub size : x.by_block.size ≡ n
  pub keyed : Keyed x.by_key
  pub to_key :
      (b e : ℕ) (k : Key) → b < n → x.by_block.at b ≡ some (e, k) → find k x.by_key ≡ some (e, b)
  pub to_block :
      (b e : ℕ) (k : Key)
      → find k x.by_key ≡ some (e, b)
      → (b < n) × (x.by_block.at b ≡ some (e, k))
  pub sizes : count_some x.by_block.at n ≡ length x.by_key

count_some_outside :
    (f : ℕ → Option (ℕ × Key)) (n b : ℕ) (v : Option (ℕ × Key))
    → n ≤ b
    → count_some (λ j. if b == j then v else f j) n ≡ count_some f n
count_some_outside f zero b v h = refl
count_some_outside f (suc n) b v h = ground (arith, count_some_outside f n b v)

-- A write at `b` changes the count by that cell alone.
count_some_update :
    (f : ℕ → Option (ℕ × Key)) (n b : ℕ) (v : Option (ℕ × Key))
    → b < n
    → count_some (λ j. if b == j then v else f j) n + (if is_some (f b) then 1 else 0)
      ≡ count_some f n + (if is_some v then 1 else 0)
count_some_update f zero b v h = absurd (omega arith)
count_some_update f (suc n) b v h =
    ground (arith, count_some_update f n b v, count_some_outside f n b v)

count_some-none : (n : ℕ) → count_some (λ _. none) n ≡ 0
count_some-none zero = refl
count_some-none (suc n) = count_some-none n

pub new-Agrees : (n : ℕ) → Agrees n (new n)
unfolding new find
new-Agrees n = record {
  size = refl;
  keyed = tt;
  to_key = λ b e k h p. cc;
  to_block = λ b e k p. absurd (cc);
  sizes = count_some-none n;
}

-- The index after `register` of a key that is not in it, under a block that is not cached.
abbrev pub registered : PrefixIndex → ℕ → Key → PrefixIndex
registered x block key = record {
  by_key = (key, x.next_entry, block) ∷ x.by_key;
  by_block = update x.by_block block (some (x.next_entry, key));
  next_entry = (x.next_entry + 1) % 2 ^ 64;
}

pub registered-Agrees :
    (n : ℕ) (x : PrefixIndex) (block : ℕ) (key : Key)
    → Agrees n x
    → block < n
    → x.by_block.at block ≡ none
    → find key x.by_key ≡ none
    → Agrees n (registered x block key)
unfolding find
registered-Agrees n x block key a h free absent = record {
  size = a.size;
  keyed = (absent, a.keyed);
  to_key = λ b e k l p. ground (arith, a.to_key b e k);
  to_block = λ b e k p. ground (arith, a.to_block b e k);
  sizes =
      ground (arith, a.sizes, count_some_update x.by_block.at n block (some (x.next_entry, key)));
}

abbrev pub unregistered : PrefixIndex → ℕ → Key → PrefixIndex
unregistered x block key = record x {
  by_key = delete key x.by_key;
  by_block = update x.by_block block none;
}

unregistered-Agrees :
    (n : ℕ) (x : PrefixIndex) (block e : ℕ) (key : Key)
    → Agrees n x
    → block < n
    → x.by_block.at block ≡ some (e, key)
    → Agrees n (unregistered x block key)
unregistered-Agrees n x block e key a h held = record {
  size = a.size;
  keyed = delete-Keyed key x.by_key a.keyed;
  to_key = λ b f k l p. ground (
    arith,
    find-delete_self key x.by_key,
    find-delete_ne key k x.by_key,
    a.to_key b f k,
    a.to_key block e key,
  );
  to_block = λ b f k p. ground (
    arith,
    find-delete_self key x.by_key,
    find-delete_ne key k x.by_key,
    a.to_block b f k,
    a.to_key block e key,
  );
  sizes = ground (
    arith,
    a.sizes,
    count_some_update x.by_block.at n block none,
    length-delete key x.by_key (e, block) a.keyed,
    a.to_key block e key,
  );
}

-- The three ways of `insert`: the block is cached already, the content is, or both are registered.
pub insert-eq :
    (n : ℕ) (x : PrefixIndex) (block parent : ℕ) (tokens : List ℕ)
    → Agrees n x
    → block < n
    → let key : Key = record { parent = parent; tokens = tokens } in
      ((e : ℕ) × (k : Key) × (x.by_block.at block ≡ some (e, k))
        × (insert block parent tokens x ≡ ok e x))
      ⊎ (((x.by_block.at block ≡ none)
            × ((e : ℕ) × (b : ℕ) × (find key x.by_key ≡ some (e, b))
                × (insert block parent tokens x ≡ ok e x)))
          ⊎ ((x.by_block.at block ≡ none)
              × (find key x.by_key ≡ none)
              × (insert block parent tokens x ≡ ok x.next_entry (registered x block key))))
unfolding insert
insert-eq n x block parent tokens a h = elim (Option-cases (x.by_block.at block)) [
  | inr ((e, k), p) ↦ inl (e, k, p, ground (arith, a.size))
  | inl p ↦ elim (Option-cases (find (record { parent = parent; tokens = tokens }) x.by_key)) [
    | inr ((e, b), q) ↦ inr (inl (p, (e, b, q, ground (arith, a.size))))
    | inl q ↦ inr (
        inr (
          p,
          q,
          ground (
            arith,
            a.size,
            delete_absent (record { parent = parent; tokens = tokens }) x.by_key q,
          ),
        ))
  ]
]

-- What `insert` of a block leaves: cached blocks stay as they are, no other block becomes cached,
-- and the entry returned is the block's own, with nothing changed, or that of the content.
abbrev pub Inserted : PrefixIndex → ℕ → ℕ → List ℕ → ℕ → PrefixIndex → Type 0
Inserted x block parent tokens e y =
    ((b : ℕ) → block ≢ b → y.by_block.at b ≡ x.by_block.at b)
    × ((x.by_block.at block ≡ none) ⊎ (y.by_block.at block ≡ x.by_block.at block))
    × (((k : Key) × (x.by_block.at block ≡ some (e, k)) × (y ≡ x))
        ⊎ ((b : ℕ) × (lookup y parent tokens ≡ some (e, b))))

-- `insert` of a block in range keeps the two maps of the index in agreement: no other block's entry
-- changes, nor one that the block has already; the entry returned is the block's own, with nothing
-- changed, or the one that a lookup of the content finds.
pub insert-Agrees :
    (n : ℕ) (x : PrefixIndex) (block parent : ℕ) (tokens : List ℕ)
    → Agrees n x
    → block < n
    → Returns
        (λ e y. Agrees n y × Inserted x block parent tokens e y)
        (insert block parent tokens x)
unfolding lookup find
insert-Agrees n x block parent tokens a h = elim (insert-eq n x block parent tokens a h) [
  | inl (e, k, p, q) ↦ rw q (a, ((λ b ne. refl), inr refl, inl (k, p, refl)))
  | inr (inl (p, (e, b, f, q))) ↦ rw q (a, ((λ b ne. refl), inl p, inr (b, f)))
  | inr (inr (p, f, q)) ↦ rw q (
    registered-Agrees n x block _ a h p f,
    ((λ b ne. ground arith), inl p, inr (block, ground arith)),
  )
]

-- `remove` of a block in range uncaches it, and it alone, and keeps the two maps of the index in
-- agreement.
pub remove-Agrees :
    (n : ℕ) (x : PrefixIndex) (block : ℕ)
    → Agrees n x
    → block < n
    → Returns
        (λ _ y.
          Agrees n y
          × (y.by_block.at block ≡ none)
          × ((b : ℕ) → block ≢ b → y.by_block.at b ≡ x.by_block.at b)
          × (y.next_entry ≡ x.next_entry))
        (remove block x)
unfolding remove
remove-Agrees n x block a h = elim (Option-cases (x.by_block.at block)) [
  | inl p ↦ ground (arith, a.size, p)
  | inr ((e, k), p) ↦
      let q : remove block x ≡ ok tt (unregistered x block k) = ground (arith, a.size) in
      rw q (unregistered-Agrees n x block e k a h p, ground arith, (λ b ne. ground arith), refl)
]

check_blocks-Agrees :
    (n m : ℕ) (x : PrefixIndex) → Agrees n x → m ≤ n → check_blocks x.by_key x.by_block.at m ≡ true
unfolding check_blocks check_block
check_blocks-Agrees n zero x a h = refl
check_blocks-Agrees n (suc m) x a h = elim (Option-cases (x.by_block.at m)) [
  | inl e ↦ ground (arith, check_blocks-Agrees n m x a)
  | inr ((e, k), p) ↦ ground (arith, check_blocks-Agrees n m x a, a.to_key m e k)
]

-- The self-check of an index whose two maps agree passes.
pub check-Agrees : (n : ℕ) (x : PrefixIndex) → Agrees n x → check x ≡ true
unfolding check
check-Agrees n x a = ground (arith, a.size, a.sizes, check_blocks-Agrees n n x a)
