-- ===== src/Cpu/Batch.antt =====
-- `write_kv_batch` of backend.rs over the host memory of cpu.rs: a row of each plane for each slot.
use paged_kv_cache.Prelude.{
  ℕ, zero, suc, ◌+◌, ◌*◌, ◌≤◌, ◌≡◌, inl, inr, refl, sym, ap, ◌∙◌, some, some-injective, true, false,
  List, [], ◌∷◌, ◌==◌, length, get_elem?, take, drop, length-take, length-drop, Every, subst, arith,
}
use native.Mathlib.Decide.{ℕ_discrete}
use paged_kv_cache.Error.{PhysicalSlot}
use paged_kv_cache.Outcome.{ok, Post, Returns, Returns-bind, Post-mono}
use paged_kv_cache.Config.{entry_elems}
use paged_kv_cache.Backend.{write_slots, write_kv_batch}
use paged_kv_cache.Cpu.{CpuBackend, Floats, cpu, write_kv, read_kv}
use paged_kv_cache.Cpu.Layout.{InBounds, Apart}
use paged_kv_cache.Cpu.Slots.{Sized, Written, stored, pair-eq, Misshaped, write_kv-Returns, reads}

-- No slot stands twice.
abbrev pub Distinct : List PhysicalSlot → Type 0
Distinct [] = Unit {0}
Distinct (dst ∷ dsts) = Every (λ at. Apart 0 dst 0 at) dsts × Distinct dsts

-- The row of `n` elements for the slot at `i`.
abbrev pub row : {F : Type 0} → ℕ → ℕ → List F → List F
row n i xs = take n (drop (i * n) xs)

-- Each of the slots holds its rows, and every other entry what it held.
pub record Filled {F : Type 0} (b : CpuBackend F) (layer : ℕ) (dsts : List PhysicalSlot)
    (k v : List F) (c : CpuBackend F) : Type 0 where
  pub sized : Sized c
  pub config : c.config ≡ b.config
  pub each :
      (i : ℕ) (at : PhysicalSlot)
      → get_elem? dsts i ≡ some at
      → stored c layer at ≡ (row (entry_elems b.config) i k, row (entry_elems b.config) i v)
  pub others :
      (layer' : ℕ) (at' : PhysicalSlot)
      → InBounds b.config layer' at'
      → Every (λ at. Apart layer at layer' at') dsts
      → stored c layer' at' ≡ stored b layer' at'

drop-drop : {A : Type 0} (i j k : ℕ) (xs : List A) → k ≡ i + j → drop j (drop i xs) ≡ drop k xs
drop-drop zero j k xs e = let p : k ≡ j = omega (arith, e) in rw p refl
drop-drop (suc i) j zero xs e = absurd (omega (arith, e))
drop-drop (suc i) zero (suc k) [] e = refl
drop-drop (suc i) (suc j) (suc k) [] e = refl
drop-drop (suc i) j (suc k) (x ∷ xs) e = drop-drop i j k xs (omega (arith, e))

row-zero : {F : Type 0} (n : ℕ) (xs : List F) → take n xs ≡ row n 0 xs
row-zero n xs = let p : 0 ≡ 0 * n = omega arith in ap (λ i. take n (drop i xs)) p

row-suc : {F : Type 0} (n m i : ℕ) (xs : List F) → m ≡ n → row m i (drop n xs) ≡ row n (suc i) xs
row-suc n m i xs e = rw e (ap (take n) (drop-drop n (i * n) (suc i * n) xs (grind arith)))

Every-mono :
    {A : Type 0} (P Q : A → Type 0)
    → ((x : A) → P x → Q x)
    → (xs : List A) → Every P xs
    → Every Q xs
Every-mono P Q g [] h = tt
Every-mono P Q g (x ∷ xs) h = (g x h.0, Every-mono P Q g xs h.1)

Every-at :
    {A : Type 0} (P : A → Type 0) (xs : List A) (i : ℕ) (x : A)
    → Every P xs
    → get_elem? xs i ≡ some x
    → P x
Every-at P [] i x h e = absurd (ground (arith, e))
Every-at P (y ∷ ys) zero x h e = subst P (some-injective _ _ e) h.0
Every-at P (y ∷ ys) (suc i) x h e = Every-at P ys i x h.1 e

flipped : (layer : ℕ) (dst at : PhysicalSlot) → Apart 0 dst 0 at → Apart layer at layer dst
flipped layer dst at (inl n) = absurd (n refl)
flipped layer dst at (inr (inl n)) = inr (inl (λ e. n (sym e)))
flipped layer dst at (inr (inr n)) = inr (inr (λ e. n (sym e)))

-- The lengths of the first row and of those after it.
first : {F : Type 0} (n m : ℕ) (xs : List F) → length xs ≡ suc m * n → length (take n xs) ≡ n
first n m xs e = let p : n ≤ length xs = grind (arith, e) in omega (arith, length-take n xs, p)

after : {F : Type 0} (n m : ℕ) (xs : List F) → length xs ≡ suc m * n → length (drop n xs) ≡ m * n
after n m xs e =
    let p : length xs ≡ n + m * n = grind (arith, e) in omega (arith, length-drop n xs, p)

module _ {F : Type 0} (f : Floats F) (layer : ℕ) where
  Filled-cons :
      (b mid c : CpuBackend F) (dst : PhysicalSlot) (dsts : List PhysicalSlot) (k v : List F)
      → Every (λ at. Apart 0 dst 0 at) dsts
      → InBounds b.config layer dst
      → Written b layer dst (take (entry_elems b.config) k) (take (entry_elems b.config) v) mid
      → Filled mid layer dsts (drop (entry_elems b.config) k) (drop (entry_elems b.config) v) c
      → Filled b layer (dst ∷ dsts) k v c
  Filled-cons b mid c dst dsts k v apart i w x = record {
    sized = x.sized;
    config = x.config ∙ w.config;
    each = each_of;
    others =
        λ layer' at' i' a. x.others layer' at' (rw w.config i') a.1 ∙ w.others layer' at' i' a.0;
  }
    where
      n : ℕ
      n = entry_elems b.config

      each_of :
          (j : ℕ) (at : PhysicalSlot)
          → get_elem? (dst ∷ dsts) j ≡ some at
          → stored c layer at ≡ (row (entry_elems b.config) j k, row (entry_elems b.config) j v)
      each_of zero at h =
          let same : dst ≡ at = some-injective _ _ h in
          let kept =
            x.others layer dst (rw w.config i)
              (Every-mono _ _ (λ e. flipped layer dst e) dsts apart) in
          subst
            (λ e.
              stored c layer e ≡ (row (entry_elems b.config) 0 k, row (entry_elems b.config) 0 v))
            same (kept ∙ w.entry ∙ pair-eq (row-zero n k) (row-zero n v))
      each_of (suc j) at h =
          let e : entry_elems mid.config ≡ entry_elems b.config = ap entry_elems w.config in
          x.each j at h ∙ pair-eq (row-suc n _ j k e) (row-suc n _ j v e)

  slots-Filled :
      (b : CpuBackend F) (dsts : List PhysicalSlot) (k v : List F)
      → Sized b
      → Every (InBounds b.config layer) dsts
      → Distinct dsts
      → length k ≡ length dsts * entry_elems b.config
      → length v ≡ length dsts * entry_elems b.config
      → Returns
          (λ _ c. Filled b layer dsts k v c)
          (write_slots (cpu f) layer (entry_elems b.config) dsts k v b)
  unfolding write_slots
  slots-Filled b [] k v z i d lk lv = record {
    sized = z;
    config = refl;
    each = λ i at h. absurd (ground (arith, h));
    others = λ l a i' n. refl;
  }
  slots-Filled b (dst ∷ dsts) k v z i d lk lv =
      let n : ℕ = entry_elems b.config in
      Returns-bind _ _ (write_kv layer dst (take n k) (take n v) b)
        (λ _. write_slots (cpu f) layer n dsts (drop n k) (drop n v))
        (write_kv-Returns b layer dst z (take n k) (take n v) i.0 (first n (length dsts) k lk)
          (first n (length dsts) v lv))
        (λ _ mid w.
          Post-mono _ _ _ _ (write_slots (cpu f) layer n dsts (drop n k) (drop n v) mid)
            (subst
              (λ c.
                Returns (λ _ e. Filled mid layer dsts (drop n k) (drop n v) e)
                  (write_slots (cpu f) layer (entry_elems c) dsts (drop n k) (drop n v) mid))
              w.config
              (slots-Filled mid dsts (drop n k) (drop n v) w.sized
                (subst (λ c. Every (InBounds c layer) dsts) (sym w.config) i.1) d.1
                (subst (λ c. length (drop n k) ≡ length dsts * entry_elems c) (sym w.config)
                  (after n (length dsts) k lk))
                (subst (λ c. length (drop n v) ≡ length dsts * entry_elems c) (sym w.config)
                  (after n (length dsts) v lv))))
            (λ _ c x. Filled-cons b mid c dst dsts k v d.0 i.0 w x) (λ _ _ h. h))

  -- What a read of each slot returns afterwards.
  abbrev pub Reads : CpuBackend F → List PhysicalSlot → List F → List F → CpuBackend F → Type 0
  Reads b dsts k v c =
      (i : ℕ) (at : PhysicalSlot)
      → get_elem? dsts i ≡ some at
      → read_kv layer at (entry_elems b.config) (entry_elems b.config) c
        ≡ ok (row (entry_elems b.config) i k, row (entry_elems b.config) i v) c

  Filled-Reads :
      (b c : CpuBackend F) (dsts : List PhysicalSlot) (k v : List F)
      → Every (InBounds b.config layer) dsts
      → Filled b layer dsts k v c
      → Reads b dsts k v c
  Filled-Reads b c dsts k v i x j at h =
      let n : ℕ = entry_elems b.config in
      let inside : InBounds c.config layer at =
        subst (λ g. InBounds g layer at) (sym x.config) (Every-at _ dsts j at i h) in
      subst (λ g. read_kv layer at (entry_elems g) (entry_elems g) c ≡ ok (row n j k, row n j v) c)
        x.config (reads c layer at x.sized (row n j k) (row n j v) inside (x.each j at h))

  -- `write_kv_batch` of a memory of the right size, for slots in bounds that differ, does not
  -- panic: if K and V have a row for each slot, each slot then holds its rows, `read_kv` of it
  -- returns them, and every entry of another slot or layer holds what it held; otherwise the
  -- lengths are refused and nothing changes.
  pub write_kv_batch-Filled :
      (b : CpuBackend F) (dsts : List PhysicalSlot) (k v : List F)
      → Sized b
      → Every (InBounds b.config layer) dsts
      → Distinct dsts
      → let n : ℕ = length dsts * entry_elems b.config in
        Post
          (λ _ c. (length k ≡ n) × (length v ≡ n) × Filled b layer dsts k v c × Reads b dsts k v c)
          (λ e c. (c ≡ b) × Misshaped n k v e)
          (write_kv_batch (cpu f) layer dsts k v b)
  unfolding write_kv_batch
  write_kv_batch-Filled b dsts k v z i d =
      let n : ℕ = entry_elems b.config in
      let m : ℕ = length dsts * n in
      elim (ℕ_discrete (length k) m) [
        | no lk ↦
            let q : (length k == m) ≡ false = ground (arith, lk) in rw q (refl, inl (lk, refl))
        | yes lk ↦ elim (ℕ_discrete (length v) m) [
          | no lv ↦
              let p : (length k == m) ≡ true = ground (arith, lk) in
              let q : (length v == m) ≡ false = ground (arith, lv) in
              rw (p, q) (refl, inr (lk, lv, refl))
          | yes lv ↦
              let p : (length k == m) ≡ true = ground (arith, lk) in
              let q : (length v == m) ≡ true = ground (arith, lv) in
              rw (p, q)
                (Post-mono _ _ _ _ (write_slots (cpu f) layer n dsts k v b)
                  (slots-Filled b dsts k v z i d lk lv)
                  (λ _ c x. (lk, lv, x, Filled-Reads b c dsts k v i x)) (λ _ _ h. absurd h))
        ]
      ]
