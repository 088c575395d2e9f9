-- ===== src/Cpu/Heads.antt =====
-- One head of a query of `paged_attention` of cpu.rs: it writes one cell of the output.
use paged_kv_cache.Prelude.{
  ℕ, zero, suc, ◌+◌, ◌*◌, ◌/◌, ◌≤◌, ◌<◌, ◌≡◌, ◌≢◌, ◌⊎◌, refl, List, [], ◌∷◌, map, Array, length,
  Every, Every-append, sym, ap, ◌∙◌, arith,
}
use mathlib.Core.List.{map-append}
use native.Mathlib.Nat.{div-lt_iff_lt-mul, mul-div_left}
use paged_kv_cache.Outcome.{ok, Returns}
use paged_kv_cache.Slices.{
  elements, overwrite, slice, copy_from_slice, length-elements, elements-overwrite,
  elements-overwrite_apart, elements-part,
}
use paged_kv_cache.Config.{entry_elems}
use paged_kv_cache.Backend.{AttentionSeq}
use paged_kv_cache.Cpu.{CpuBackend, Floats, slot_offset}
use paged_kv_cache.Cpu.Layout.{next_row, next_cell, rows_apart, cells_apart}
use paged_kv_cache.Cpu.Slots.{Sized}
use paged_kv_cache.Cpu.Covers.{Proper, Covers}
use paged_kv_cache.Cpu.Attention.{
  zip_with, fold, replicate, score, exponentials, add_weighted, head_output, gather, attend_head,
}
use paged_kv_cache.Cpu.Context.{positions, slot_of, head_of, stored_at, reference, gather-eq}

-- The elements of one head of one row.
abbrev pub cell : {F : Type 0} → Array F → ℕ → ℕ → ℕ → ℕ → List F
cell xs heads d row h = elements xs ((row * heads + h) * d) d

-- Another cell keeps off the range of this one.
pub cell_apart :
    (heads d row h row' h' : ℕ)
    → h < heads
    → h' < heads
    → (row ≢ row') ⊎ (h ≢ h')
    → ((row * heads + h) * d + d ≤ (row' * heads + h') * d)
      ⊎ ((row' * heads + h') * d + d ≤ (row * heads + h) * d)
cell_apart heads d row h row' h' l l' n =
    rows_apart (row * heads + h) (row' * heads + h') d (cells_apart row row' h h' heads l l' n)

cell_fits :
    (rows heads d row h : ℕ) → row < rows → h < heads → (row * heads + h) * d + d ≤ rows * heads * d
cell_fits rows heads d row h l m =
    next_row (row * heads + h) (rows * heads) d (next_cell row rows h heads l m)

-- One cell is written, and no other.
pub record Wrote {F : Type 0} (heads d row h : ℕ) (value : List F) (out out' : Array F)
    : Type 0 where
  pub same : out'.size ≡ out.size
  pub written : cell out' heads d row h ≡ value
  pub others :
      (r k : ℕ) → k < heads → (row ≢ r) ⊎ (h ≢ k) → cell out' heads d r k ≡ cell out heads d r k

overwrite-Wrote :
    {F : Type 0} (heads d row h : ℕ) (value : List F) (out : Array F)
    → h < heads
    → length value ≡ d
    → Wrote heads d row h value out (overwrite out ((row * heads + h) * d) value)
overwrite-Wrote heads d row h value out l e = record {
  same = refl;
  written = elements-overwrite out ((row * heads + h) * d) value d e;
  others = λ r k m n.
      elements-overwrite_apart out ((row * heads + h) * d) value ((r * heads + k) * d) d
        (rw e (cell_apart heads d row h r k l m n));
}

length-zip_with :
    {A B C : Type 0} (f : A → B → C) (xs : List A) (ys : List B)
    → length xs ≡ length ys
    → length (zip_with f xs ys) ≡ length xs
length-zip_with f [] ys e = refl
length-zip_with f (x ∷ xs) [] e = absurd (omega (arith, e))
length-zip_with f (x ∷ xs) (y ∷ ys) e = omega (arith, length-zip_with f xs ys (omega (arith, e)))

length-replicate : {A : Type 0} (n : ℕ) (x : A) → length (replicate n x) ≡ n
length-replicate zero x = refl
length-replicate (suc n) x = omega (arith, length-replicate n x)

length-map : {A B : Type 0} (f : A → B) (xs : List A) → length (map f xs) ≡ length xs
length-map f [] = refl
length-map f (x ∷ xs) = omega (arith, length-map f xs)

module _ {F : Type 0} (f : Floats F) (d : ℕ) where
  -- The sum of rows of `d` elements has `d` elements.
  length-weighted :
      (oh ws : List F) (vs : List (List F))
      → length oh ≡ d
      → Every (λ v. length v ≡ d) vs
      → length (fold (add_weighted f) oh (zip_with (λ w v. (w, v)) ws vs)) ≡ d
  length-weighted oh [] vs e h = e
  length-weighted oh (w ∷ ws) [] e h = e
  length-weighted oh (w ∷ ws) (v ∷ vs) e h =
      let step = length-zip_with (λ o x. f.add o (f.mul w x)) oh v (e ∙ sym h.0) in
      length-weighted (add_weighted f oh (w, v)) ws vs (step ∙ e) h.1

  length-head_output :
      (qh : List F) (keys values : List (List F))
      → Every (λ v. length v ≡ d) values
      → length (head_output f d qh keys values) ≡ d
  length-head_output qh keys values h =
      length-map _ _
      ∙ length-weighted (replicate d f.zero) (exponentials f (map (score f d qh) keys)) values
          (length-replicate d f.zero) h

Every-positions :
    {A : Type 0} (P : A → Type 0) (g : ℕ → A) (n : ℕ)
    → ((t : ℕ) → t < n → P (g t))
    → Every P (map g (positions n))
Every-positions P g zero h = tt
Every-positions P g (suc n) h = rw (map-append g (positions n) (n ∷ [])) (
    Every-append P (map g (positions n)) (g n ∷ [])
      (Every-positions P g n (λ t l. h t (omega (arith, l)))) (h n (omega arith), tt))

-- A call of attention with `rows` rows of `heads` heads, `g` of them for each KV head.
pub record Ready {F : Type 0} (b : CpuBackend F) (layer : ℕ) (q : Array F) (rows heads g : ℕ)
    : Type 0 where
  pub sized : Sized b
  pub proper : Proper b.config
  pub layer_lt : layer < b.config.num_layers
  pub positive : 0 < g
  pub grouped : heads ≡ g * b.config.num_kv_heads
  pub size : q.size ≡ rows * heads * b.config.head_dim

module _ {F : Type 0} (f : Floats F) (b : CpuBackend F) (layer : ℕ) (q : Array F) (rows heads g : ℕ)
    (y : Ready b layer q rows heads g) where
  abbrev pub d : ℕ
  d = b.config.head_dim

  -- What a head of a query is to be.
  abbrev pub wanted : AttentionSeq → ℕ → ℕ → ℕ → List F
  wanted s pos row h = reference f b layer s pos (h / g) (cell q heads d row h)

  group-eq : heads / b.config.num_kv_heads ≡ g
  group-eq = rw y.grouped (mul-div_left g y.proper.kv_heads)

  head-within : (h : ℕ) → h < heads → h / g < b.config.num_kv_heads
  head-within h n =
      (div-lt_iff_lt-mul {k = g} {x = h} {y = b.config.num_kv_heads} y.positive).1
        (grind (arith, n, y.grouped))

  module _ (s : AttentionSeq) (pos h : ℕ) (v : Covers b.config s) (l : pos < s.context_len)
      (n : h < heads) where
    abbrev keys : List (List F)
    keys = map (λ t. head_of d (h / g) (stored_at f b layer s t).0) (positions (pos + 1))

    abbrev values : List (List F)
    values = map (λ t. head_of d (h / g) (stored_at f b layer s t).1) (positions (pos + 1))

    keys-eq : (out : Array F) → gather b.config b.k layer s g h (pos + 1) out ≡ ok keys out
    keys-eq out =
        gather-eq b.config b.k layer s g h y.sized.k_size y.layer_lt y.proper v y.positive
          (head-within h n) (pos + 1) out (omega (arith, l))

    values-eq : (out : Array F) → gather b.config b.v layer s g h (pos + 1) out ≡ ok values out
    values-eq out =
        gather-eq b.config b.v layer s g h y.sized.v_size y.layer_lt y.proper v y.positive
          (head-within h n) (pos + 1) out (omega (arith, l))

    length-wanted : (row : ℕ) → length (wanted s pos row h) ≡ d
    length-wanted row = length-head_output f d (cell q heads d row h) keys values (
        Every-positions (λ x. length x ≡ d) (λ t. head_of d (h / g) (stored_at f b layer s t).1)
          (pos + 1)
          (λ t _.
            let at : ℕ = slot_offset b.config layer (slot_of b.config.block_size s.block_table t) in
            let within = next_row (h / g) b.config.num_kv_heads d (head-within h n) in
            ap length (elements-part b.v at (h / g * d) d (entry_elems b.config) within)
            ∙ length-elements b.v (at + h / g * d) d))

    attend_head-eq :
        (row : ℕ) (out : Array F)
        → row < rows
        → out.size ≡ q.size
        → attend_head f b layer q heads s pos row h out
          ≡ ok tt (overwrite out ((row * heads + h) * d) (wanted s pos row h))
    unfolding attend_head
    attend_head-eq row out m same =
        let fits = cell_fits rows heads d row h m n in
        let asked : slice q ((row * heads + h) * d) d out ≡ ok (cell q heads d row h) out =
          ground (arith, fits, y.size) in
        let answer : copy_from_slice out ((row * heads + h) * d) (wanted s pos row h) out
            ≡ ok (overwrite out ((row * heads + h) * d) (wanted s pos row h)) out =
          ground (arith, fits, y.size, same, length-wanted row) in
        rw (group-eq, asked, keys-eq out, values-eq out, answer) refl

    -- The body of the loop over heads writes the reference to its cell.
    pub attend_head-Wrote :
        (row : ℕ) (out : Array F)
        → row < rows
        → out.size ≡ q.size
        → Returns
            (λ _ out'. Wrote heads d row h (wanted s pos row h) out out')
            (attend_head f b layer q heads s pos row h out)
    attend_head-Wrote row out m same =
        rw (attend_head-eq row out m same)
          (overwrite-Wrote heads d row h (wanted s pos row h) out n (length-wanted row))
