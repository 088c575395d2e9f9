-- ===== src/Cpu/Covers.antt =====
-- `check_attention` of backend.rs: what a call of attention that passes has, and the check of its
-- sequences.
use paged_kv_cache.Prelude.{
  ℕ, zero, suc, ◌+◌, ◌-◌, ◌*◌, ◌/◌, ◌≤◌, ◌<◌, ◌≡◌, refl, ap, sym, subst, ◌∙◌, div_ceil, inl, inr,
  none, some, some-injective, List, [], ◌∷◌, length, get_elem?, get_elem?-range, take, Option-cases,
  Every, arith,
}
use native.Mathlib.Decide.{dec_lt, dec_le}
use native.Mathlib.Nat.{div-lt_iff_lt-mul, mul-div_left, le-div_iff_mul-le}
use paged_kv_cache.Error.{CacheError, invalid_block, shape_mismatch}
use paged_kv_cache.Outcome.{Outcome, ok, err, Post, and_then-Post, Post-mono}
use paged_kv_cache.Config.{CacheConfig, blocks_for_tokens}
use paged_kv_cache.Backend.{AttentionSeq, find_outside, num_rows, check_seq, check_seqs}
use paged_kv_cache.BlockTable.Arithmetic.{blocks_hold}

-- A geometry in which nothing is divided by 0.
pub record Proper (c : CacheConfig) : Type 0 where
  pub block_size : 0 < c.block_size
  pub kv_heads : 0 < c.num_kv_heads
  pub head_dim : 0 < c.head_dim

-- The queries are the last positions of the context, and each of its positions has a block of the
-- pool.
pub record Covers (c : CacheConfig) (s : AttentionSeq) : Type 0 where
  pub queries : s.num_queries ≤ s.context_len
  pub block :
      (t : ℕ)
      → t < s.context_len
      → (b : ℕ) × (get_elem? s.block_table (t / c.block_size) ≡ some b) × (b < c.num_blocks)

-- A call whose buffers have the rows of its queries, each of `heads` heads, as many for each KV
-- head.
pub record Checked (c : CacheConfig) (layer : ℕ) (seqs : List AttentionSeq) (q_len out_len : ℕ)
    (heads : ℕ) : Type 0 where
  pub layer_lt : layer < c.num_layers
  pub covers : Every (Covers c) seqs
  pub same : out_len ≡ q_len
  pub size : q_len ≡ num_rows seqs * heads * c.head_dim
  pub group : ℕ
  pub positive : 0 < group
  pub grouped : heads ≡ group * c.num_kv_heads

-- The call passes the check, for some number of heads.
abbrev pub Passes : CacheConfig → ℕ → List AttentionSeq → ℕ → ℕ → Type 0
Passes c layer seqs q_len out_len = (heads : ℕ) × Checked c layer seqs q_len out_len heads

-- A test that fails, with its error; and what fails then.
pub refused :
    {S A : Type 0} (P : A → S → Type 0) (Q : Type 0) (o : Outcome S A) (e : CacheError) (u : S)
    → o ≡ err e u
    → ¬ Q
    → Post P (λ _ v. (v ≡ u) × ¬ Q) o
refused P Q o e u r n = rw r (refl, n)

inside :
    (n k j : ℕ) (bs : List ℕ)
    → k ≤ length bs
    → find_outside n (take k bs) ≡ none
    → j < k
    → (b : ℕ) × (get_elem? bs j ≡ some b) × (b < n)
unfolding find_outside
inside n zero j bs h e l = absurd (omega (arith, l))
inside n (suc k) j [] h e l = absurd (omega (arith, h))
inside n (suc k) zero (b ∷ bs) h e l = elim (dec_lt b n) [
  | yes m ↦ (b, refl, m)
  | no m ↦ absurd (ground (arith, e, m))
]
inside n (suc k) (suc j) (b ∷ bs) h e l = elim (dec_lt b n) [
  | yes m ↦ inside n k j bs (omega (arith, h)) (ground (arith, e, m)) (omega (arith, l))
  | no m ↦ absurd (ground (arith, e, m))
]

-- What `find_outside` finds.
outside :
    (n k b : ℕ) (bs : List ℕ)
    → find_outside n (take k bs) ≡ some b
    → (j : ℕ) × (j < k) × (get_elem? bs j ≡ some b) × (n ≤ b)
unfolding find_outside
outside n zero b bs e = absurd (ground (arith, e))
outside n (suc k) b [] e = absurd (ground (arith, e))
outside n (suc k) b (x ∷ bs) e = elim (dec_lt x n) [
  | no m ↦
      let same : x ≡ b = some-injective _ _ (ground (arith, e, m)) in
      (0, omega arith, ap some same, omega (arith, m, same))
  | yes m ↦
      let (j, l, g, h) = outside n k b bs (ground (arith, e, m)) in (suc j, omega (arith, l), g, h)
]

-- The block before the last that `n` tokens take ends before the last token.
block_starts : (n b m : ℕ) → 0 < b → m < div_ceil n b → m * b < n
block_starts n b m h l =
    let p : (m + 1) * b ≤ n + (b - 1) =
      (le-div_iff_mul-le {k = b} {x = m + 1} {y = n + (b - 1)} h).0 (omega (arith, l)) in
    grind (arith, p, h)

pub whole_rows : (rows g n d : ℕ) → rows * (g * n) * d ≡ g * (n * d) * rows
whole_rows rows g n d = grind arith

module _ (c : CacheConfig) (p : Proper c) where
  -- The block of the first position of block `j`.
  first_block :
      (s : AttentionSeq) (j : ℕ)
      → Covers c s
      → j < blocks_for_tokens c s.context_len
      → (b : ℕ) × (get_elem? s.block_table j ≡ some b) × (b < c.num_blocks)
  first_block s j v l =
      let (b, e, m) =
        v.block (j * c.block_size) (block_starts s.context_len c.block_size j p.block_size l) in
      (b, subst (λ i. get_elem? s.block_table i ≡ some b) (mul-div_left j p.block_size) e, m)

  covers :
      (s : AttentionSeq)
      → s.num_queries ≤ s.context_len
      → blocks_for_tokens c s.context_len ≤ length s.block_table
      → find_outside c.num_blocks (take (blocks_for_tokens c s.context_len) s.block_table) ≡ none
      → Covers c s
  covers s q l e = record {
    queries = q;
    block = λ t m.
        let needed : ℕ = blocks_for_tokens c s.context_len in
        inside c.num_blocks needed (t / c.block_size) s.block_table l e (
          (div-lt_iff_lt-mul {k = c.block_size} {x = t} {y = needed} p.block_size).1
            (omega (arith, m, blocks_hold s.context_len c.block_size p.block_size)));
  }

  check_seq-Post :
      {S : Type 0} (s : AttentionSeq) (u : S)
      → Post (λ _ v. (v ≡ u) × Covers c s) (λ _ v. (v ≡ u) × ¬ Covers c s) (check_seq c s u)
  unfolding check_seq
  check_seq-Post s u =
      let needed : ℕ = blocks_for_tokens c s.context_len in
      let o = check_seq c s u in
      elim (dec_le s.num_queries s.context_len) [
        | no q ↦
            refused _ (Covers c s) o (shape_mismatch s.context_len s.num_queries) u
              (ground (arith, q)) (λ v. q v.queries)
        | yes q ↦ elim (dec_le needed (length s.block_table)) [
          | no l ↦
              refused _ (Covers c s) o (shape_mismatch needed (length s.block_table)) u
                (ground (arith, q, l, p.block_size))
                (λ v.
                  let (b, e, _) = first_block s (length s.block_table) v (omega (arith, l)) in
                  omega (arith, get_elem?-range (length s.block_table) s.block_table b e))
          | yes l ↦ elim (Option-cases (find_outside c.num_blocks (take needed s.block_table))) [
            | inl e ↦
                let r : check_seq c s u ≡ ok tt u = ground (arith, q, l, p.block_size, e) in
                rw r (refl, covers s q l e)
            | inr (id, e) ↦
                refused _ (Covers c s) o (invalid_block id c.num_blocks) u
                  (ground (arith, q, l, p.block_size, e))
                  (λ v.
                    let (j, m, f, h) = outside c.num_blocks needed id s.block_table e in
                    let (b, f', k) = first_block s j v m in
                    let same : b ≡ id = some-injective _ _ (sym f' ∙ f) in
                    omega (arith, same, k, h))
          ]
        ]
      ]

  pub check_seqs-Post :
      {S : Type 0} (seqs : List AttentionSeq) (u : S)
      → Post
          (λ _ v. (v ≡ u) × Every (Covers c) seqs)
          (λ _ v. (v ≡ u) × ¬ Every (Covers c) seqs)
          (check_seqs c seqs u)
  unfolding check_seqs
  check_seqs-Post [] u = (refl, tt)
  check_seqs-Post (s ∷ seqs) u =
      and_then-Post _ _ _ _ (check_seq c s u) (λ _. check_seqs c seqs) (check_seq-Post s u)
        (λ _ v h. rw h.0 (
          Post-mono _ _ _ _ (check_seqs c seqs u) (check_seqs-Post seqs u)
            (λ _ w k. (k.0, (h.1, k.1))) (λ _ w k. (k.0, λ all. k.1 all.1))))
        (λ _ v h. (h.0, λ all. h.1 all.0))
