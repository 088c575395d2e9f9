-- ===== src/Allocator/Entries.antt =====
-- The entries of the index of allocator.rs over time: which ones an operation may drop, and that a
-- parent is older than its children.
use paged_kv_cache.Prelude.{
  ℕ, ◌+◌, ◌^◌, ◌≤◌, ◌<◌, ◌≡◌, refl, sym, subst, ◌∙◌, Option, none, some, List, inl, inr, arith,
}
use paged_kv_cache.Outcome.{Returns}
use paged_kv_cache.PrefixCache.{Key, insert}
use paged_kv_cache.PrefixCache.Agreement.{Agrees, insert-eq, registered}
use paged_kv_cache.Allocator.{Cache}

-- What block `i` is registered as.
abbrev pub entries : Option Cache → ℕ → Option (ℕ × Key)
entries none i = none
entries (some c) i = c.index.by_block.at i

abbrev pub next_entry : Option Cache → ℕ
next_entry none = 1
next_entry (some c) = c.index.next_entry

-- From `o` to `p` nothing was registered.
pub record Older (o p : Option Cache) : Type 0 where
  pub kept : (i e : ℕ) (k : Key) → entries p i ≡ some (e, k) → entries o i ≡ some (e, k)
  pub next : next_entry p ≡ next_entry o

pub Older-same : (o p : Option Cache) → p ≡ o → Older o p
Older-same o p e = subst (λ q. Older o q) (sym e) (record { kept = λ i e k h. h; next = refl })

pub Older-trans : (o p q : Option Cache) → Older o p → Older p q → Older o q
Older-trans o p q x y = record {
  kept = λ i e k h. x.kept i e k (y.kept i e k h);
  next = y.next ∙ x.next;
}

-- Entries are numbered upwards, so an entry is older than those below it.
pub record Ordered (o : Option Cache) : Type 0 where
  pub positive : 0 < next_entry o
  pub parents :
      (i e : ℕ) (k : Key) → entries o i ≡ some (e, k) → (k.parent < e) × (e < next_entry o)

pub Ordered-Older : (o p : Option Cache) → Older o p → Ordered o → Ordered p
Ordered-Older o p x w = record {
  positive = omega (arith, x.next, w.positive);
  parents =
      λ i e k h. let (l, m) = w.parents i e k (x.kept i e k h) in (l, omega (arith, m, x.next));
}

-- `insert` under an entry that was handed out numbers upwards too, short of the wrap-around.
pub insert-Ordered :
    (n : ℕ) (c : Cache) (block parent : ℕ) (tokens : List ℕ)
    → Agrees n c.index
    → block < n
    → Ordered (some c)
    → parent < c.index.next_entry
    → c.index.next_entry + 1 < 2 ^ 64
    → Returns
        (λ e x.
          Ordered (some (record c { index = x }))
          × (e < x.next_entry)
          × (x.next_entry ≤ c.index.next_entry + 1))
        (insert block parent tokens c.index)
insert-Ordered n c block parent tokens a h w l m =
    elim (insert-eq n c.index block parent tokens a h) [
      | inl (e, k, p, q) ↦ rw q (same, (w.parents block e k p).1, omega arith)
      | inr (inl (_, (e, b, f, q))) ↦
          rw q (same, (w.parents b e _ (a.to_block b e _ f).1).1, omega arith)
      | inr (inr (_, f, q)) ↦ rw q (added, ground (arith, m), ground (arith, m))
    ]
  where
    same : Ordered (some (record c { index = c.index }))
    same = record { positive = w.positive; parents = w.parents }

    added : Ordered (
        some (record c {
          index = registered c.index block (record { parent = parent; tokens = tokens });
        }))
    added = record {
      positive = ground (arith, m);
      parents = λ i e k p. ground (arith, m, l, w.parents i e k);
    }
