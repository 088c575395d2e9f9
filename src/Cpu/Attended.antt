-- ===== src/Cpu/Attended.antt =====
-- `paged_attention` of cpu.rs as a whole: the output is the reference for every query.
use paged_kv_cache.Prelude.{
  ℕ, ◌+◌, ◌-◌, ◌/◌, ◌≤◌, ◌<◌, ◌≡◌, refl, inl, Option, false, ◌==◌, some, some-injective, List, [],
  ◌∷◌, Array, Every, subst, ◌∙◌, arith,
}
use native.Mathlib.Decide.{dec_lt}
use native.Mathlib.Nat.{zero-add}
use paged_kv_cache.Outcome.{Post, Returns, Returns-bind, divisor, ◌>>◌, Post-mono, and_then-Post}
use paged_kv_cache.Backend.{AttentionSeq, num_rows, check_attention}
use paged_kv_cache.Cpu.{CpuBackend, Floats}
use paged_kv_cache.Cpu.Slots.{Sized}
use paged_kv_cache.Cpu.Covers.{Proper, Covers, Checked, Passes}
use paged_kv_cache.Cpu.Checked.{check_attention-Post}
use paged_kv_cache.Cpu.Context.{reference}
use paged_kv_cache.Cpu.Heads.{cell, Ready}
use paged_kv_cache.Cpu.Attention.{attend_queries, attend_seqs, paged_attention}
use paged_kv_cache.Cpu.Queries.{query_at, QueriesDone, queries-Done}

module _ {F : Type 0} (f : Floats F) (b : CpuBackend F) (layer : ℕ) (q : Array F) (rows heads g : ℕ)
    (y : Ready b layer q rows heads g) where
  abbrev d : ℕ
  d = b.config.head_dim

  abbrev want : AttentionSeq → ℕ → ℕ → ℕ → List F
  want s pos row h = reference f b layer s pos (h / g) (cell q heads d row h)

  -- The rows of these sequences are written, from `row` on, and no row before them.
  pub record SeqsDone (seqs : List AttentionSeq) (row : ℕ) (out out' : Array F) : Type 0 where
    pub same : out'.size ≡ out.size
    pub written :
        (r : ℕ) (s : AttentionSeq) (pos h : ℕ)
        → query_at seqs r ≡ some (s, pos)
        → h < heads
        → cell out' heads d (row + r) h ≡ want s pos (row + r) h
    pub others : (r h : ℕ) → h < heads → r < row → cell out' heads d r h ≡ cell out heads d r h

  SeqsDone-cons :
      (s : AttentionSeq) (seqs : List AttentionSeq) (row : ℕ) (out mid out' : Array F)
      → QueriesDone f b layer q rows heads g y s row s.num_queries out mid
      → SeqsDone seqs (row + s.num_queries) mid out'
      → SeqsDone (s ∷ seqs) row out out'
  SeqsDone-cons s seqs row out mid out' x w = record {
    same = w.same ∙ x.same;
    written = λ r t pos h e l. elim (dec_lt r s.num_queries) [
      | yes k ↦
          let found : ◌≡◌ {A = Option (AttentionSeq × ℕ)}
              (some (s, s.context_len - s.num_queries + r)) (some (t, pos)) =
            ground (arith, e, k) in
          subst (λ a. cell out' heads d (row + r) h ≡ want a.0 a.1 (row + r) h)
            (some-injective _ _ found)
            (w.others (row + r) h l (omega (arith, k)) ∙ x.written r h k l)
      | no k ↦
          let found : query_at seqs (r - s.num_queries) ≡ some (t, pos) = ground (arith, e, k) in
          let at : row + s.num_queries + (r - s.num_queries) ≡ row + r = omega (arith, k) in
          subst (λ a. cell out' heads d a h ≡ want t pos a h) at
            (w.written (r - s.num_queries) t pos h found l)
    ];
    others = λ r h l k. w.others r h l (omega (arith, k)) ∙ x.others r h l (inl k);
  }

  pub seqs-Done :
      (seqs : List AttentionSeq) (row : ℕ) (out : Array F)
      → Every (Covers b.config) seqs
      → row + num_rows seqs ≤ rows
      → out.size ≡ q.size
      → Returns (λ _ out'. SeqsDone seqs row out out') (attend_seqs f b layer q heads row seqs out)
  unfolding attend_seqs
  seqs-Done [] row out v m e = record {
    same = refl;
    written = λ r s pos h x l. absurd (ground (arith, x));
    others = λ r h x n. refl;
  }
  seqs-Done (s ∷ seqs) row out v m e =
      Returns-bind _ _ (attend_queries f b layer q heads s row s.num_queries out)
        (λ _. attend_seqs f b layer q heads (row + s.num_queries) seqs)
        (queries-Done f b layer q rows heads g y s row s.num_queries out v.0 (omega (arith, m))
          (omega arith) e)
        (λ _ mid x.
          Post-mono _ _ _ _ (attend_seqs f b layer q heads (row + s.num_queries) seqs mid)
            (seqs-Done seqs (row + s.num_queries) mid v.1 (omega (arith, m)) (x.same ∙ e))
            (λ _ out' w. SeqsDone-cons s seqs row out mid out' x w) (λ _ _ h. h))

-- Each head of each row is the reference for the query that the row is.
pub record Attends {F : Type 0} (f : Floats F) (b : CpuBackend F) (layer : ℕ)
    (seqs : List AttentionSeq) (q : Array F) (heads g : ℕ) (out : Array F) : Type 0 where
  pub same : out.size ≡ q.size
  pub answers :
      (row : ℕ) (s : AttentionSeq) (pos h : ℕ)
      → query_at seqs row ≡ some (s, pos)
      → h < heads
      → cell out heads b.config.head_dim row h
        ≡ reference f b layer s pos (h / g) (cell q heads b.config.head_dim row h)

-- For a memory of the right size and a geometry without a 0, `paged_attention` ends without a
-- panic, and refuses a call exactly when it is malformed, with the output as it was: the layer is
-- unknown, a table does not cover its context with blocks of the pool, there are more queries than
-- positions, or the buffers do not have whole heads for the queries. Otherwise each head of each
-- query of the output is what the formula of attention gives for that query over the K and V
-- entries of its own position and those before it, read in order from the slots that the block
-- table has for them, in the part of the KV head that serves the head.
pub paged_attention-Attends :
    {F : Type 0} (f : Floats F) (b : CpuBackend F) (layer : ℕ) (seqs : List AttentionSeq)
    (q out : Array F)
    → Sized b
    → Proper b.config
    → Post
        (λ _ out'.
          (heads : ℕ) × (c : Checked b.config layer seqs q.size out.size heads) × Attends f b layer
            seqs q heads c.group out')
        (λ _ out'. (out' ≡ out) × ¬ Passes b.config layer seqs q.size out.size)
        (paged_attention f b layer seqs q out)
unfolding paged_attention
paged_attention-Attends f b layer seqs q out z p =
    and_then-Post _ _ _ _ (check_attention b.config layer seqs q.size out.size out)
      (λ heads. (do divisor b.config.num_kv_heads; attend_seqs f b layer q heads 0 seqs))
      (check_attention-Post b.config p layer seqs q.size out.size out)
      (λ heads v h.
        let c = h.1 in
        let n : (b.config.num_kv_heads == 0) ≡ false = ground (arith, p.kv_heads) in
        let y : Ready b layer q (num_rows seqs) heads c.group = record {
          sized = z;
          proper = p;
          layer_lt = c.layer_lt;
          positive = c.positive;
          grouped = c.grouped;
          size = c.size;
        } in
        rw (h.0, n)
          (Post-mono _ _ _ _ (attend_seqs f b layer q heads 0 seqs out)
            (seqs-Done f b layer q (num_rows seqs) heads c.group y seqs 0 out c.covers (omega arith)
              c.same)
            (λ _ out' x. (
              heads,
              c,
              record {
                same = x.same ∙ c.same;
                answers = λ row s pos k e l.
                    subst
                      (λ r.
                        cell out' heads b.config.head_dim r k
                        ≡ reference f b layer s pos (k / c.group)
                            (cell q heads b.config.head_dim r k))
                      (zero-add row) (x.written row s pos k e l);
              },
            ))
            (λ _ _ k. absurd k)))
      (λ e v h. h)
