-- ===== src/Allocator/History.antt =====
-- What the cached blocks of allocator.rs stand for. An entry of the index is a whole prefix of tokens:
-- those of its parent and its own. Entries are never used again, so a history of entries says which.
use paged_kv_cache.Prelude.{
  ◌+◌, ◌^◌, ◌≤◌, ℕ, ◌<◌, ◌≡◌, ◌⊎◌, refl, sym, ◌∙◌, inl, inr, Option, some, List, [], ◌++◌, ◌==◌,
  if◌then◌else◌, arith,
}
use native.Mathlib.Decide.{ℕ_discrete}
use paged_kv_cache.Outcome.{Returns-both, Returns, Post-mono}
use paged_kv_cache.PrefixCache.{root, Key, insert, remove}
use paged_kv_cache.PrefixCache.Agreement.{
  Inserted, insert-Agrees, Agrees, insert-eq, registered, remove-Agrees,
}
use paged_kv_cache.Allocator.{Cache}
use paged_kv_cache.Allocator.Entries.{insert-Ordered, entries, Ordered}

-- Every cached block is under the prefix of its parent and its own tokens.
pub record Traced (o : Option Cache) (prefix : ℕ → List ℕ) : Type 0 where
  pub start : prefix root ≡ []
  pub content :
      (i e : ℕ) (k : Key) → entries o i ≡ some (e, k) → prefix e ≡ prefix k.parent ++ k.tokens

-- The history with one entry more.
abbrev pub traced_also : (ℕ → List ℕ) → ℕ → List ℕ → ℕ → List ℕ
traced_also prefix e tokens i = if i == e then tokens else prefix i

module _ (n : ℕ) (c : Cache) (block parent : ℕ) (tokens : List ℕ) (prefix : ℕ → List ℕ)
    (a : Agrees n c.index) (h : block < n) (w : Ordered (some c))
    (issued : parent < c.index.next_entry) (t : Traced (some c) prefix) where
  abbrev pub key : Key
  key = record { parent = parent; tokens = tokens }

  abbrev later : ℕ → List ℕ
  later = traced_also prefix c.index.next_entry (prefix parent ++ tokens)

  registered-Traced : Traced (some (record c { index = registered c.index block key })) later
  registered-Traced = record {
    start = ground (arith, w.positive, t.start);
    content = λ i e k p. ground (arith, p, issued, t.content i e k, w.parents i e k);
  }

  insert-later :
      Returns
        (λ e x.
          (later : ℕ → List ℕ) × Traced (some (record c { index = x })) later
          × ((i : ℕ) → i < c.index.next_entry → later i ≡ prefix i)
          × ((later e ≡ prefix parent ++ tokens)
              ⊎ ((k : Key) × (c.index.by_block.at block ≡ some (e, k)) × (x ≡ c.index))))
        (insert block parent tokens c.index)
  insert-later = elim (insert-eq n c.index block parent tokens a h) [
    | inl (e, k, p, q) ↦
        rw q
          (prefix, record { start = t.start; content = t.content }, (λ i l. refl), inr (k, p, refl))
    | inr (inl (_, (e, b, f, q))) ↦ rw q (
      prefix,
      record { start = t.start; content = t.content },
      (λ i l. refl),
      inl (t.content b e key (a.to_block b e key f).1),
    )
    | inr (inr (_, f, q)) ↦
        rw q (later, registered-Traced, (λ i l. ground (arith, l)), inl (ground arith))
  ]

  -- `insert` keeps such a history of an index whose maps agree and whose entries are numbered
  -- upwards, for a block of the pool and a parent that was handed out, while ids are left: the maps
  -- still agree and the entries still are numbered upwards, with the returned one below the next
  -- and at most one new; the block has the returned entry already and nothing has changed, or a
  -- lookup of the inserted tokens under the parent then finds the entry, and no other block's
  -- content changes; the entries so far are the same tokens as before, each cached block still is
  -- under those of its parent and its own, and the entry returned is the tokens of the parent and
  -- those inserted, or else the block's own with nothing changed.
  pub insert-Traced :
      c.index.next_entry + 1 < 2 ^ 64
      → Returns
          (λ e x.
            (Agrees n x × Inserted c.index block parent tokens e x)
            × ((Ordered (some (record c { index = x }))
                  × (e < x.next_entry)
                  × (x.next_entry ≤ c.index.next_entry + 1))
                × ((later : ℕ → List ℕ) × Traced (some (record c { index = x })) later
                    × ((i : ℕ) → i < c.index.next_entry → later i ≡ prefix i)
                    × ((later e ≡ prefix parent ++ tokens)
                        ⊎ ((k : Key) × (c.index.by_block.at block ≡ some (e, k))
                            × (x ≡ c.index))))))
          (insert block parent tokens c.index)
  insert-Traced left =
      Returns-both _ _ (insert block parent tokens c.index)
        (insert-Agrees n c.index block parent tokens a h)
        (Returns-both _ _ (insert block parent tokens c.index)
          (insert-Ordered n c block parent tokens a h w issued left) insert-later)

-- Taking a block out of the index keeps the history.
pub remove-Traced :
    (n : ℕ) (c : Cache) (block : ℕ) (prefix : ℕ → List ℕ)
    → Agrees n c.index
    → block < n
    → Traced (some c) prefix
    → Returns (λ _ x. Traced (some (record c { index = x })) prefix) (remove block c.index)
remove-Traced n c block prefix a h t =
    Post-mono _ _ _ _ (remove block c.index) (remove-Agrees n c.index block a h)
      (λ _ x r. record {
        start = t.start;
        content = λ i e k p. elim (ℕ_discrete block i) [
          | yes s ↦ absurd (ground (arith, p, s, r.1))
          | no m ↦ t.content i e k (sym (r.2 i m) ∙ p)
        ];
      })
      (λ _ _ k. k)
