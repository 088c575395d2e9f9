-- ===== src/Cpu/Checked.antt =====
-- The rest of `check_attention` of backend.rs: the rows and heads of a call.
use paged_kv_cache.Prelude.{
  ℕ, ◌+◌, ◌*◌, ◌/◌, ◌%◌, ◌<◌, ◌≡◌, ◌≢◌, refl, ap, ◌∙◌, inl, inr, true, false, ◌&&◌, Bool, List,
  ◌==◌, leb, if◌then◌else◌, Every, arith,
}
use native.Mathlib.Decide.{dec_lt, ℕ_discrete}
use native.Mathlib.Nat.{div-mul_cancel, div-eq_of_eq-mul_left, dvd_of_mod-eq-zero, mul-mod_left}
use paged_kv_cache.Error.{CacheError, invalid_layer, shape_mismatch}
use paged_kv_cache.Outcome.{pure, ok, Post, Post-mono, Post-cases}
use paged_kv_cache.Config.{CacheConfig, entry_elems}
use paged_kv_cache.Backend.{AttentionSeq, num_rows, check_seqs, check_rows, check_attention}
use paged_kv_cache.Cpu.Covers.{
  Proper, Covers, Checked, Passes, refused, whole_rows, check_seqs-Post,
}

module _ (c : CacheConfig) (p : Proper c) where
  -- Rows of whole heads, as many for each KV head.
  abbrev WholeRows : ℕ → ℕ → ℕ → Type 0
  WholeRows rows q_len heads =
      (q_len ≡ rows * heads * c.head_dim) × ((g : ℕ) × (0 < g) × (heads ≡ g * c.num_kv_heads))

  heads-WholeRows :
      (rows q_len x : ℕ)
      → 0 < q_len
      → q_len ≡ x * rows
      → x % entry_elems c ≡ 0
      → WholeRows rows q_len (x / c.head_dim)
  heads-WholeRows rows q_len x l e f =
      let g : ℕ = x / entry_elems c in
      let whole : x ≡ g * entry_elems c =
        omega (arith, div-mul_cancel (entry_elems c) (dvd_of_mod-eq-zero (entry_elems c) f)) in
      let heads : x / c.head_dim ≡ g * c.num_kv_heads =
        div-eq_of_eq-mul_left p.head_dim (grind (arith, whole)) in
      let size : q_len ≡ rows * (g * c.num_kv_heads) * c.head_dim = grind (arith, e, whole) in
      let positive : g ≢ 0 =
        λ z. let x0 : x ≡ 0 = grind (arith, whole, z) in grind (arith, e, x0, l) in
      rw heads (size, (g, omega (arith, positive), refl))

  -- Rows of whole heads, and some of them, pass the tests.
  WholeRows-divides :
      (rows q_len : ℕ)
      → (heads : ℕ) × WholeRows rows q_len heads
      → q_len ≢ 0
      → (rows ≢ 0) × (q_len % rows ≡ 0) × (q_len / rows % entry_elems c ≡ 0)
  WholeRows-divides rows q_len (heads, (e, (g, l, grouped))) n =
      let positive : rows ≢ 0 = λ z. grind (arith, e, z, n) in
      let product : q_len ≡ (g * entry_elems c) * rows =
        e ∙ ap (λ x. rows * x * c.head_dim) grouped ∙ whole_rows rows g c.num_kv_heads c.head_dim in
      let quotient : q_len / rows ≡ g * entry_elems c =
        div-eq_of_eq-mul_left (omega (arith, positive)) product in
      (
        positive,
        rw product (mul-mod_left (g * entry_elems c) rows),
        rw quotient (mul-mod_left g (entry_elems c)),
      )

  rows_absent :
      (rows q_len : ℕ) → (heads : ℕ) × WholeRows rows q_len heads → q_len ≡ 0 → rows + q_len ≡ 0
  rows_absent rows q_len (heads, (e, (g, l, grouped))) q0 =
      let n : entry_elems c ≢ 0 = grind (arith, p.kv_heads, p.head_dim) in
      let product : q_len ≡ (g * entry_elems c) * rows =
        e ∙ ap (λ x. rows * x * c.head_dim) grouped ∙ whole_rows rows g c.num_kv_heads c.head_dim in
      let per_row : g * entry_elems c ≢ 0 = grind (arith, n, l) in
      grind (arith, product, q0, per_row)

  abbrev SomeRows : ℕ → ℕ → Type 0
  SomeRows rows q_len = (q_len ≢ 0) × ((heads : ℕ) × WholeRows rows q_len heads)

  check_rows-Post :
      {S : Type 0} (rows q_len : ℕ) (u : S)
      → Post
          (λ heads v. (v ≡ u) × WholeRows rows q_len heads)
          (λ _ v. (v ≡ u) × ¬ SomeRows rows q_len)
          (check_rows c rows q_len u)
  unfolding check_rows
  check_rows-Post rows q_len u =
      let mismatch : CacheError = shape_mismatch (rows * entry_elems c) q_len in
      let o = check_rows c rows q_len u in
      let group : entry_elems c ≢ 0 = grind (arith, p.kv_heads, p.head_dim) in
      let divides : SomeRows rows q_len → _ = λ w. WholeRows-divides rows q_len w.1 w.0 in
      elim (ℕ_discrete rows 0) [
        | yes z ↦
            refused _ (SomeRows rows q_len) o mismatch u (ground (arith, z)) (λ w. (divides w).0 z)
        | no n ↦ elim (ℕ_discrete (q_len % rows) 0) [
          | no m ↦
              refused _ (SomeRows rows q_len) o mismatch u (ground (arith, n, m))
                (λ w. m (divides w).1)
          | yes m ↦ elim (ℕ_discrete (q_len / rows % entry_elems c) 0) [
            | no k ↦
                refused _ (SomeRows rows q_len) o mismatch u (ground (arith, n, m, group, k))
                  (λ w. k (divides w).2)
            | yes k ↦ elim (ℕ_discrete q_len 0) [
              | yes z ↦
                  refused _ (SomeRows rows q_len) o mismatch u (ground (arith, n, m, group, k, z))
                    (λ w. w.0 z)
              | no l ↦
                  let r : o ≡ ok (q_len / rows / c.head_dim) u =
                    ground (arith, n, m, group, k, l, p.head_dim) in
                  let whole = div-mul_cancel rows (dvd_of_mod-eq-zero rows m) in
                  rw r (
                    refl,
                    heads-WholeRows rows q_len (q_len / rows) (omega (arith, l))
                        (omega (arith, whole)) k,
                  )
            ]
          ]
        ]
      ]

  -- Once the sequences and the lengths pass, the number of heads is all that is left.
  attention_passed :
      {S : Type 0} (layer : ℕ) (seqs : List AttentionSeq) (q_len out_len : ℕ) (u : S) (empty : Bool)
      → layer < c.num_layers
      → check_seqs c seqs u ≡ ok tt u
      → out_len ≡ q_len
      → (num_rows seqs == 0 && q_len == 0) ≡ empty
      → check_attention c layer seqs q_len out_len u
        ≡ (if empty then pure c.num_kv_heads else check_rows c (num_rows seqs) q_len) u
  unfolding check_attention
  attention_passed layer seqs q_len out_len u empty l r same e =
      let low : leb c.num_layers layer ≡ false = ground (arith, l) in
      let equal : (out_len == q_len) ≡ true = ground (arith, same) in (rw (low, r, equal, e) refl)

  -- The last part of `check_attention`.
  lengths :
      {S : Type 0} (layer : ℕ) (seqs : List AttentionSeq) (q_len out_len : ℕ) (u : S)
      → layer < c.num_layers
      → check_seqs c seqs u ≡ ok tt u
      → Every (Covers c) seqs
      → out_len ≡ q_len
      → Post
          (λ heads v. (v ≡ u) × Checked c layer seqs q_len out_len heads)
          (λ _ v. (v ≡ u) × ¬ Passes c layer seqs q_len out_len)
          (check_attention c layer seqs q_len out_len u)
  lengths layer seqs q_len out_len u l r v same =
      let rows : ℕ = num_rows seqs in
      let o = check_attention c layer seqs q_len out_len u in
      elim (ℕ_discrete (rows + q_len) 0) [
        | yes z ↦
            let t : (rows == 0 && q_len == 0) ≡ true = ground (arith, z) in
            let q : o ≡ ok c.num_kv_heads u =
              attention_passed layer seqs q_len out_len u true l r same t in
            rw q (
              refl,
              record {
                layer_lt = l;
                covers = v;
                same = same;
                size = grind (arith, z);
                group = 1;
                positive = omega arith;
                grouped = omega arith;
              },
            )
        | no z ↦
            let t : (rows == 0 && q_len == 0) ≡ false = ground (arith, z) in
            let q : o ≡ check_rows c rows q_len u =
              attention_passed layer seqs q_len out_len u false l r same t in
            rw q (
              Post-mono _ _ _ _ (check_rows c rows q_len u) (check_rows-Post rows q_len u)
                (λ heads w k. (
                  k.0,
                  record {
                    layer_lt = l;
                    covers = v;
                    same = same;
                    size = k.1.0;
                    group = k.1.1.0;
                    positive = k.1.1.1;
                    grouped = k.1.1.2;
                  },
                ))
                (λ _ w k. (
                  k.0,
                  λ (heads, w'). k.1 (
                    λ q0. z (
                        rows_absent rows q_len
                          (heads, (w'.size, (w'.group, w'.positive, w'.grouped))) q0),
                    (heads, (w'.size, (w'.group, w'.positive, w'.grouped))),
                  ),
                )))
      ]

  -- `check_attention` of a proper geometry changes nothing; what it takes has the rows of its
  -- over tables that cover their contexts, and it takes all that.
  pub check_attention-Post :
      {S : Type 0} (layer : ℕ) (seqs : List AttentionSeq) (q_len out_len : ℕ) (u : S)
      → Post
          (λ heads v. (v ≡ u) × Checked c layer seqs q_len out_len heads)
          (λ _ v. (v ≡ u) × ¬ Passes c layer seqs q_len out_len)
          (check_attention c layer seqs q_len out_len u)
  unfolding check_attention
  check_attention-Post layer seqs q_len out_len u =
      let o = check_attention c layer seqs q_len out_len u in
      let rows : ℕ = num_rows seqs in
      let P = Passes c layer seqs q_len out_len in
      elim (dec_lt layer c.num_layers) [
        | no l ↦
            refused _ P o (invalid_layer layer c.num_layers) u (ground (arith, l))
              (λ w. l w.1.layer_lt)
        | yes l ↦ elim (Post-cases _ _ (check_seqs c seqs u) (check_seqs-Post c p seqs u)) [
          | inr (e, v, r, h) ↦ refused _ P o e u (ground (arith, l, r, h.0)) (λ w. h.1 w.1.covers)
          | inl (_, v, r, hc) ↦
              let r' : check_seqs c seqs u ≡ ok tt u = r ∙ ap (ok tt) hc.0 in
              elim (ℕ_discrete out_len q_len) [
                | no n ↦
                    refused _ P o (shape_mismatch q_len out_len) u (ground (arith, l, r', n))
                      (λ w. n w.1.same)
                | yes same ↦ lengths layer seqs q_len out_len u l r' hc.1 same
              ]
        ]
      ]
