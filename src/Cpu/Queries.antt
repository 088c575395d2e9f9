-- ===== src/Cpu/Queries.antt =====
-- The loops of `paged_attention` of cpu.rs over the heads of a query and the queries of a sequence.
use paged_kv_cache.Prelude.{
  ℕ, zero, suc, ◌+◌, ◌-◌, ◌/◌, ◌≤◌, ◌<◌, ◌≡◌, ◌≢◌, ◌⊎◌, refl, inl, inr, Option, none, some, List,
  [], ◌∷◌, ltb, if◌then◌else◌, Array, subst, ◌∙◌, arith,
}
use native.Mathlib.Decide.{ℕ_discrete}
use paged_kv_cache.Outcome.{Returns, Returns-bind, Post-mono}
use paged_kv_cache.Backend.{AttentionSeq}
use paged_kv_cache.Cpu.{CpuBackend, Floats}
use paged_kv_cache.Cpu.Covers.{Covers}
use paged_kv_cache.Cpu.Context.{reference}
use paged_kv_cache.Cpu.Heads.{attend_head-Wrote, cell, Ready, Wrote}
use paged_kv_cache.Cpu.Attention.{attend_head, attend_heads, attend_queries}

-- The sequence that a row of the call belongs to, and the position that the row asks for.
abbrev pub query_at : List AttentionSeq → ℕ → Option (AttentionSeq × ℕ)
query_at [] row = none
query_at (s ∷ seqs) row =
    if ltb row s.num_queries
    then some (s, s.context_len - s.num_queries + row)
    else query_at seqs (row - s.num_queries)

module _ {F : Type 0} (f : Floats F) (b : CpuBackend F) (layer : ℕ) (q : Array F) (rows heads g : ℕ)
    (y : Ready b layer q rows heads g) where
  abbrev d : ℕ
  d = b.config.head_dim

  abbrev want : AttentionSeq → ℕ → ℕ → ℕ → List F
  want s pos row h = reference f b layer s pos (h / g) (cell q heads d row h)

  -- The first `n` heads of a row are written, and no other cell.
  record HeadsDone (s : AttentionSeq) (pos row n : ℕ) (out out' : Array F) : Type 0 where
    same : out'.size ≡ out.size
    written : (h : ℕ) → h < n → cell out' heads d row h ≡ want s pos row h
    others :
        (r h : ℕ) → h < heads → (row ≢ r) ⊎ (n ≤ h) → cell out' heads d r h ≡ cell out heads d r h

  HeadsDone-suc :
      (s : AttentionSeq) (pos row n : ℕ) (out mid out' : Array F)
      → n < heads
      → HeadsDone s pos row n out mid
      → Wrote heads d row n (want s pos row n) mid out'
      → HeadsDone s pos row (suc n) out out'
  HeadsDone-suc s pos row n out mid out' l x w = record {
    same = w.same ∙ x.same;
    written = λ h m. elim (ℕ_discrete n h) [
      | yes e ↦ subst (λ k. cell out' heads d row k ≡ want s pos row k) e w.written
      | no e ↦ w.others row h (omega (arith, l, m)) (inr e) ∙ x.written h (omega (arith, m, e))
    ];
    others = λ r h m n'. w.others r h m (apart r h n') ∙ x.others r h m (still r h n');
  }
    where
      apart : (r h : ℕ) → (row ≢ r) ⊎ (suc n ≤ h) → (row ≢ r) ⊎ (n ≢ h)
      apart r h (inl e) = inl e
      apart r h (inr k) = inr (λ e. omega (arith, e, k))

      still : (r h : ℕ) → (row ≢ r) ⊎ (suc n ≤ h) → (row ≢ r) ⊎ (n ≤ h)
      still r h (inl e) = inl e
      still r h (inr k) = inr (omega (arith, k))

  heads-Done :
      (s : AttentionSeq) (pos row n : ℕ) (out : Array F)
      → Covers b.config s
      → pos < s.context_len
      → row < rows
      → n ≤ heads
      → out.size ≡ q.size
      → Returns
          (λ _ out'. HeadsDone s pos row n out out')
          (attend_heads f b layer q heads s pos row n out)
  unfolding attend_heads
  heads-Done s pos row zero out v l m k e = record {
    same = refl;
    written = λ h x. absurd (omega (arith, x));
    others = λ r h x n. refl;
  }
  heads-Done s pos row (suc n) out v l m k e =
      Returns-bind _ _ (attend_heads f b layer q heads s pos row n out)
        (λ _. attend_head f b layer q heads s pos row n)
        (heads-Done s pos row n out v l m (omega (arith, k)) e)
        (λ _ mid x.
          Post-mono _ _ _ _ (attend_head f b layer q heads s pos row n mid)
            (attend_head-Wrote f b layer q rows heads g y s pos n v l (omega (arith, k)) row mid m
              (x.same ∙ e))
            (λ _ out' w. HeadsDone-suc s pos row n out mid out' (omega (arith, k)) x w)
            (λ _ _ h. h))

  -- The first `n` queries of a sequence are written, and no other row.
  pub record QueriesDone (s : AttentionSeq) (row n : ℕ) (out out' : Array F) : Type 0 where
    pub same : out'.size ≡ out.size
    pub written :
        (i h : ℕ)
        → i < n
        → h < heads
        → cell out' heads d (row + i) h ≡ want s (s.context_len - s.num_queries + i) (row + i) h
    pub others :
        (r h : ℕ)
        → h < heads
        → (r < row) ⊎ (row + n ≤ r)
        → cell out' heads d r h ≡ cell out heads d r h

  QueriesDone-suc :
      (s : AttentionSeq) (row n : ℕ) (out mid out' : Array F)
      → QueriesDone s row n out mid
      → HeadsDone s (s.context_len - s.num_queries + n) (row + n) heads mid out'
      → QueriesDone s row (suc n) out out'
  QueriesDone-suc s row n out mid out' x w = record {
    same = w.same ∙ x.same;
    written = λ i h l m. elim (ℕ_discrete n i) [
      | yes e ↦
          subst
            (λ k.
              cell out' heads d (row + k) h
              ≡ want s (s.context_len - s.num_queries + k) (row + k) h)
            e (w.written h m)
      | no e ↦
          w.others (row + i) h m (inl (λ a. omega (arith, a, e)))
          ∙ x.written i h (omega (arith, l, e)) m
    ];
    others = λ r h m n'. w.others r h m (inl (apart r n')) ∙ x.others r h m (still r n');
  }
    where
      apart : (r : ℕ) → (r < row) ⊎ (row + suc n ≤ r) → row + n ≢ r
      apart r e a = omega (arith, e, a)

      still : (r : ℕ) → (r < row) ⊎ (row + suc n ≤ r) → (r < row) ⊎ (row + n ≤ r)
      still r (inl e) = inl e
      still r (inr k) = inr (omega (arith, k))

  pub queries-Done :
      (s : AttentionSeq) (row n : ℕ) (out : Array F)
      → Covers b.config s
      → row + n ≤ rows
      → n ≤ s.num_queries
      → out.size ≡ q.size
      → Returns
          (λ _ out'. QueriesDone s row n out out')
          (attend_queries f b layer q heads s row n out)
  unfolding attend_queries
  queries-Done s row zero out v m k e = record {
    same = refl;
    written = λ i h x l. absurd (omega (arith, x));
    others = λ r h x n. refl;
  }
  queries-Done s row (suc n) out v m k e =
      let pos : ℕ = s.context_len - s.num_queries + n in
      Returns-bind _ _ (attend_queries f b layer q heads s row n out)
        (λ _. attend_heads f b layer q heads s pos (row + n) heads)
        (queries-Done s row n out v (omega (arith, m)) (omega (arith, k)) e)
        (λ _ mid x.
          Post-mono _ _ _ _ (attend_heads f b layer q heads s pos (row + n) heads mid)
            (heads-Done s pos (row + n) heads mid v (omega (arith, k, v.queries)) (omega (arith, m))
              (omega arith) (x.same ∙ e))
            (λ _ out' w. QueriesDone-suc s row n out mid out' x w) (λ _ _ h. h))
