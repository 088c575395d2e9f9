-- ===== src/Allocator/Prefixes.antt =====
-- `match_prefix` of allocator.rs against a history of entries: the tokens that its blocks stand for.
use paged_kv_cache.Prelude.{
  ℕ, zero, suc, ◌+◌, ◌*◌, ◌≤◌, ◌<◌, ◌≡◌, refl, sym, ap, ◌∙◌, inl, inr, Option, some, some-injective,
  List, [], ◌∷◌, ◌++◌, ltb, length, length-append, get_elem?, take, drop, length-take, Bool-cases,
  Option-cases, arith,
}
use mathlib.Core.List.{append-nil, append_assoc}
use native.Mathlib.Decide.{ℕ_discrete}
use paged_kv_cache.Outcome.{Returns, Returns-both}
use paged_kv_cache.PrefixCache.{root, Key, lookup}
use paged_kv_cache.BlockTable.Arithmetic.{get_elem?-append}
use paged_kv_cache.Lru.Refine.{contains_lem}
use paged_kv_cache.Allocator.{Allocator, Cache, PrefixMatch, no_match, match_chunks, match_prefix}
use paged_kv_cache.Allocator.Chunks.{chunks_up_to, chunks_exact}
use paged_kv_cache.Allocator.Entries.{entries}
use paged_kv_cache.Allocator.Invariant.{Inv, caching_of}
use paged_kv_cache.Allocator.Match.{
  Matched, extended, hit_facts, match_uncached, match_cached, match_prefix-Matched,
}
use paged_kv_cache.Allocator.History.{Traced}

-- Block `id` is registered for these tokens.
abbrev pub Reads : Option Cache → (ℕ → List ℕ) → ℕ → List ℕ → Type 0
Reads o prefix id tokens = (e : ℕ) × (k : Key) × (entries o id ≡ some (e, k)) × (prefix e ≡ tokens)

-- Each block is registered for all tokens up to its end, and the last entry for those of all.
pub record Prefixes (o : Option Cache) (prefix : ℕ → List ℕ) (block_size : ℕ) (tokens : List ℕ)
    (m : PrefixMatch) : Type 0 where
  pub last : prefix m.last_entry ≡ take (length m.blocks * block_size) tokens
  pub each :
      (i id : ℕ)
      → get_elem? m.blocks i ≡ some id
      → Reads o prefix id (take ((i + 1) * block_size) tokens)

take-append :
    {A : Type 0} (n k : ℕ) (xs ys : List A)
    → k ≡ length xs + n
    → take k (xs ++ ys) ≡ xs ++ take n ys
take-append n k [] ys e = let p : k ≡ n = omega (arith, e) in rw p refl
take-append n zero (x ∷ xs) ys e = absurd (omega (arith, e))
take-append n (suc k) (x ∷ xs) ys e = ap (λ zs. x ∷ zs) (take-append n k xs ys (omega (arith, e)))

take-drop : {A : Type 0} (n : ℕ) (xs : List A) → take n xs ++ drop n xs ≡ xs
take-drop zero xs = refl
take-drop (suc n) [] = refl
take-drop (suc n) (x ∷ xs) = ap (λ ys. x ∷ ys) (take-drop n xs)

module _ {S : Type 0} (s : S) (order : List ℕ) (a : Allocator) (v : Inv order a) (c : Cache)
    (g : a.cache ≡ some c) (prefix : ℕ → List ℕ) (t : Traced a.cache prefix) (block_size : ℕ)
    (all : List ℕ) where
  -- How far a match has come: it stands for `seen`, and `rest` is what is left.
  record Along (m : PrefixMatch) (seen rest : List ℕ) : Type 0 where
    split : all ≡ seen ++ rest
    whole : length seen ≡ length m.blocks * block_size
    stands : prefix m.last_entry ≡ seen
    each :
        (i id : ℕ)
        → get_elem? m.blocks i ≡ some id
        → Reads a.cache prefix id (take ((i + 1) * block_size) all)

  Along-Prefixes :
      (m : PrefixMatch) (seen rest : List ℕ)
      → Along m seen rest
      → Prefixes a.cache prefix block_size all m
  Along-Prefixes m seen rest x = record {
    last =
        x.stands
        ∙ sym (
            ap (take (length m.blocks * block_size)) x.split
            ∙ take-append 0 (length m.blocks * block_size) seen rest (omega (arith, x.whole))
            ∙ append-nil seen);
    each = x.each;
  }

  -- A chain goes on with the next tokens.
  extended-Along :
      (m : PrefixMatch) (entry block : ℕ) (seen rest : List ℕ)
      → block_size ≤ length rest
      → Along m seen rest
      → lookup c.index m.last_entry (take block_size rest) ≡ some (entry, block)
      → Along
          (extended s order a v c g m entry block)
          (seen ++ take block_size rest)
          (drop block_size rest)
  unfolding lookup
  extended-Along m entry block seen rest enough x p =
      let chunk : List ℕ = take block_size rest in
      let key : Key = record { parent = m.last_entry; tokens = chunk } in
      let held : entries a.cache block ≡ some (entry, key) =
        rw g ((caching_of v g).0.to_block block entry key p).1 in
      let stands : prefix entry ≡ seen ++ chunk =
        t.content block entry key held ∙ ap (λ q. q ++ chunk) x.stands in
      let upto : take ((length m.blocks + 1) * block_size) all ≡ seen ++ chunk =
        ap (take ((length m.blocks + 1) * block_size)) x.split
        ∙ take-append block_size _ seen rest (grind (arith, x.whole)) in
      record {
        split =
            x.split
            ∙ sym (
                append_assoc seen chunk (drop block_size rest)
                ∙ ap (λ q. seen ++ q) (take-drop block_size rest));
        whole = grind (
          arith,
          length-append seen chunk,
          length-take block_size rest,
          x.whole,
          length-append m.blocks (block ∷ []),
          enough,
        );
        stands = stands;
        each = λ i id q. elim (ℕ_discrete i (length m.blocks)) [
          | yes last ↦
              let same : block ≡ id =
                some-injective _ _ (ground (arith, q, last, get_elem?-append block i m.blocks)) in
              rw (sym same, last) (entry, key, held, stands ∙ sym upto)
          | no n ↦ x.each i id (ground (arith, q, n, get_elem?-append block i m.blocks))
        ];
      }

  match_chunks-Prefixes :
      (fuel : ℕ) (m : PrefixMatch) (seen rest : List ℕ)
      → Along m seen rest
      → Returns
          (λ found _. Prefixes a.cache prefix block_size all found)
          (match_chunks c m (chunks_up_to fuel block_size rest) s)
  unfolding match_chunks chunks_up_to
  match_chunks-Prefixes zero m seen rest x = Along-Prefixes m seen rest x
  match_chunks-Prefixes (suc fuel) m seen rest x =
      elim (Bool-cases (ltb (length rest) block_size)) [
        | inl few ↦ rw few (Along-Prefixes m seen rest x)
        | inr more ↦
            let enough : block_size ≤ length rest = ground (arith, more) in
            let chunk : List ℕ = take block_size rest in
            elim (Option-cases (lookup c.index m.last_entry chunk)) [
              | inl p ↦ rw (more, p, match_chunks) (Along-Prefixes m seen rest x)
              | inr ((entry, block), p) ↦
                  rw
                    (
                      more,
                      p,
                      match_chunks,
                      contains_lem s a.num_blocks c.evictable order block (caching_of v g).1
                          (hit_facts s order a v c g m.last_entry entry block chunk p).0,
                    )
                    (match_chunks-Prefixes fuel (extended s order a v c g m entry block)
                      (seen ++ chunk) (drop block_size rest)
                      (extended-Along m entry block seen rest enough x p))
            ]
      ]

no_match-Prefixes :
    (o : Option Cache) (prefix : ℕ → List ℕ) (block_size : ℕ) (tokens : List ℕ)
    → prefix root ≡ []
    → Prefixes o prefix block_size tokens no_match
no_match-Prefixes o prefix block_size tokens e =
    let z : 0 * block_size ≡ 0 = omega arith in
    record {
      last = e ∙ sym (ap (λ k. take k tokens) z);
      each = λ i id h. absurd (ground (arith, h));
    }

-- Take a history that says for each entry which tokens it is, such that each cached block is under
-- the tokens of its parent and its own. Then `match_prefix` of a valid pool, at a block size that
-- is not 0, never returns a block of other tokens: the first block is under exactly the first
-- `block_size` tokens asked for, the next under the first two times as many, and so on, and the
-- last entry is under those of all of them. The blocks are cached blocks of the pool, no more than
-- the tokens fill, those without an owner are counted right, and nothing changes.
pub match_prefix-Traced :
    (order : List ℕ) (a : Allocator) (prefix : ℕ → List ℕ) (tokens : List ℕ) (block_size : ℕ)
    → Inv order a
    → Traced a.cache prefix
    → 0 < block_size
    → Returns
        (λ m b.
          (Matched a m × (length m.blocks * block_size ≤ length tokens) × (b ≡ a))
          × Prefixes a.cache prefix block_size tokens m)
        (match_prefix tokens block_size a)
unfolding chunks_exact chunks_up_to
match_prefix-Traced order a prefix tokens block_size v t h =
    Returns-both _ _ (match_prefix tokens block_size a)
      (match_prefix-Matched order a tokens block_size v h)
      (elim (Option-cases a.cache) [
        | inl e ↦
            rw (match_uncached a tokens block_size e)
              (no_match-Prefixes a.cache prefix block_size tokens t.start)
        | inr (c, e) ↦ rw (match_cached a c tokens block_size e h) (
            match_chunks-Prefixes a order a v c e prefix t block_size tokens (length tokens)
              no_match [] tokens
              (record {
                split = refl;
                whole = omega arith;
                stands = t.start;
                each = λ i id g. absurd (ground (arith, g));
              }))
      ])
