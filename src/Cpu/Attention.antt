-- ===== src/Cpu/Attention.antt =====
-- `paged_attention` of cpu.rs. The output buffer is the state; the queries are a buffer that is
-- only read. The loops run in the order of the source: sequences, queries, heads.
use paged_kv_cache.Prelude.{
  ℕ, zero, suc, ◌+◌, ◌-◌, ◌*◌, ◌/◌, ◌%◌, List, [], ◌∷◌, ◌++◌, Array, map, get_elem?,
}
use paged_kv_cache.Outcome.{M, ◌>>=◌, ◌>>◌, pure, get, put, expect, divisor}
use paged_kv_cache.Slices.{slice, copy_from_slice}
use paged_kv_cache.Config.{CacheConfig}
use paged_kv_cache.Backend.{AttentionSeq, check_attention}
use paged_kv_cache.Cpu.{CpuBackend, Floats, slot_offset}

-- The operations of iterators that the code uses, on lists.
abbrev pub zip_with : {A B C : Type 0} → (A → B → C) → List A → List B → List C
zip_with f [] ys = []
zip_with f (x ∷ xs) [] = []
zip_with f (x ∷ xs) (y ∷ ys) = f x y ∷ zip_with f xs ys

abbrev pub fold : {A B : Type 0} → (B → A → B) → B → List A → B
fold f acc [] = acc
fold f acc (x ∷ xs) = fold f (f acc x) xs

abbrev pub replicate : {A : Type 0} → ℕ → A → List A
replicate zero x = []
replicate (suc n) x = x ∷ replicate n x

module _ {F : Type 0} (f : Floats F) where
  -- The arithmetic of one head: the weights of the keys, and the weighted sum of the values.
  abbrev pub score : ℕ → List F → List F → F
  score d qh k = f.mul (f.sum (zip_with f.mul qh k)) (f.inverse_sqrt d)

  abbrev pub exponentials : List F → List F
  exponentials scores =
      let max = fold f.max f.neg_infinity scores in map (λ w. f.exp (f.sub w max)) scores

  abbrev pub add_weighted : List F → F × List F → List F
  add_weighted oh (w, v) = zip_with (λ o x. f.add o (f.mul w x)) oh v

  abbrev pub head_output : ℕ → List F → List (List F) → List (List F) → List F
  head_output d qh keys values =
      let weights = exponentials (map (score d qh) keys) in
      let sum = fold f.add f.zero weights in
      let oh = fold add_weighted (replicate d f.zero) (zip_with (λ w v. (w, v)) weights values) in
      map (λ o. f.div o sum) oh

-- `entry`: where position `t` has the `d` elements of the KV head that serves `h`.
unfoldable pub entry : {S : Type 0} → CacheConfig → ℕ → AttentionSeq → ℕ → ℕ → ℕ → M S ℕ
entry c layer s group h t = do
  divisor c.block_size
  block ← expect (get_elem? s.block_table (t / c.block_size))
  divisor group
  pure (
      slot_offset c layer (record { block = block; slot = t % c.block_size })
      + h / group * c.head_dim)

-- The slices of the first `n` positions of a plane.
unfoldable pub gather :
    {F S : Type 0} → CacheConfig → Array F → ℕ → AttentionSeq → ℕ → ℕ → ℕ → M S (List (List F))
gather c plane layer s group h zero = pure []
gather c plane layer s group h (suc n) = do
  before ← gather c plane layer s group h n
  at ← entry c layer s group h n
  last ← slice plane at c.head_dim
  pure (before ++ last ∷ [])

module _ {F : Type 0} (f : Floats F) (b : CpuBackend F) (layer : ℕ) (q : Array F) (heads : ℕ) where
  -- The body of the loop over heads: query `row` of the call, at position `pos` of its sequence.
  unfoldable pub attend_head : AttentionSeq → ℕ → ℕ → ℕ → M (Array F) (Unit {0})
  attend_head s pos row h = do
    let d = b.config.head_dim
    let at = (row * heads + h) * d
    let group = heads / b.config.num_kv_heads
    qh ← slice q at d
    keys ← gather b.config b.k layer s group h (pos + 1)
    values ← gather b.config b.v layer s group h (pos + 1)
    out ← get
    out' ← copy_from_slice out at (head_output f d qh keys values)
    put out'

  unfoldable pub attend_heads : AttentionSeq → ℕ → ℕ → ℕ → M (Array F) (Unit {0})
  attend_heads s pos row zero = pure tt
  attend_heads s pos row (suc n) = do attend_heads s pos row n; attend_head s pos row n

  -- The first `n` queries of a sequence, the first of which is row `row` of the call.
  unfoldable pub attend_queries : AttentionSeq → ℕ → ℕ → M (Array F) (Unit {0})
  attend_queries s row zero = pure tt
  attend_queries s row (suc n) = do
    attend_queries s row n
    attend_heads s (s.context_len - s.num_queries + n) (row + n) heads

  unfoldable pub attend_seqs : ℕ → List AttentionSeq → M (Array F) (Unit {0})
  attend_seqs row [] = pure tt
  attend_seqs row (s ∷ seqs) = do
    attend_queries s row s.num_queries
    attend_seqs (row + s.num_queries) seqs

unfoldable pub paged_attention :
    {F : Type 0}
    → Floats F
    → CpuBackend F
    → ℕ
    → List AttentionSeq
    → Array F
    → M (Array F) (Unit {0})
paged_attention f b layer seqs q = do
  out ← get
  heads ← check_attention b.config layer seqs q.size out.size
  divisor b.config.num_kv_heads
  attend_seqs f b layer q heads 0 seqs
