-- ===== src/Model/Layout.antt =====
-- How `forward` of model.rs lays a batch out: a row for each new token, in the slot of its position.
use paged_kv_cache.Prelude.{
  ℕ, zero, suc, ◌+◌, ◌-◌, ◌*◌, ◌/◌, ◌%◌, ◌^◌, ◌≤◌, ◌<◌, ◌≡◌, refl, sym, ap, ◌∙◌, false, some, List,
  [], ◌∷◌, ◌++◌, ◌==◌, map, length, length-append, get_elem?, Paired, Paired-append, Every, arith,
}
use mathlib.Core.List.{append-nil, append_assoc, map-append}
use native.Mathlib.Nat.{div-lt_iff_lt-mul, mod-lt}
use paged_kv_cache.Error.{PhysicalSlot}
use paged_kv_cache.Fallible.{Done, Done-eq}
use paged_kv_cache.Model.{SeqInput, Rows, add_row, last_row, add_tokens, add_seqs}

-- What the model may be asked for: at least one new token of a sequence whose table, of blocks of
-- the pool, covers every position up to the last of them.
pub record WellFormed (block_size num_blocks : ℕ) (i : SeqInput) : Type 0 where
  pub new : 0 < length i.tokens
  pub room : i.start + length i.tokens ≤ length i.block_table * block_size
  pub inside : (j b : ℕ) → get_elem? i.block_table j ≡ some b → b < num_blocks

-- The tokens of a batch, and the places that they go to: a block table and a position each.
abbrev pub tokens_of : List SeqInput → List ℕ
tokens_of [] = []
tokens_of (s ∷ seqs) = s.tokens ++ tokens_of seqs

abbrev pub places_from : List ℕ → ℕ → List ℕ → List (List ℕ × ℕ)
places_from block_table pos [] = []
places_from block_table pos (token ∷ tokens) =
    (block_table, pos) ∷ places_from block_table (pos + 1) tokens

abbrev pub places_of : List SeqInput → List (List ℕ × ℕ)
places_of [] = []
places_of (s ∷ seqs) = places_from s.block_table s.start s.tokens ++ places_of seqs

-- The row of the last token of each sequence, as a `u32`, after `n` rows.
abbrev pub last_of : ℕ → List SeqInput → List ℕ
last_of n [] = []
last_of n (s ∷ seqs) = ((n + length s.tokens - 1) % 2 ^ 32) ∷ last_of (n + length s.tokens) seqs

-- The slot of a position, in a pool of blocks.
pub record SlotFor (block_size num_blocks : ℕ) (p : List ℕ × ℕ) (slot : PhysicalSlot) : Type 0 where
  pub block : get_elem? p.0 (p.1 / block_size) ≡ some slot.block
  pub offset : slot.slot ≡ p.1 % block_size
  pub inside : (slot.block < num_blocks) × (slot.slot < block_size)

-- The rows after those of `tokens`, which go to `places`.
pub record LaidOut (block_size num_blocks : ℕ) (tokens : List ℕ) (places : List (List ℕ × ℕ))
    (rows more : Rows) : Type 0 where
  pub ids : more.ids ≡ rows.ids ++ tokens
  pub positions : more.positions ≡ rows.positions ++ map (λ p. p.1 % 2 ^ 32) places
  pub slots : List PhysicalSlot
  pub added : more.slots ≡ rows.slots ++ slots
  pub placed : Paired (SlotFor block_size num_blocks) places slots

module _ (block_size num_blocks : ℕ) where
  LaidOut-trans :
      (ts us : List ℕ) (ps qs : List (List ℕ × ℕ)) (a b c : Rows)
      → LaidOut block_size num_blocks ts ps a b
      → LaidOut block_size num_blocks us qs b c
      → LaidOut block_size num_blocks (ts ++ us) (ps ++ qs) a c
  LaidOut-trans ts us ps qs a b c x y = record {
    ids = y.ids ∙ ap (λ l. l ++ us) x.ids ∙ append_assoc a.ids ts us;
    positions =
        y.positions
        ∙ ap (λ l. l ++ map (λ p. p.1 % 2 ^ 32) qs) x.positions
        ∙ append_assoc a.positions (map (λ p. p.1 % 2 ^ 32) ps) (map (λ p. p.1 % 2 ^ 32) qs)
        ∙ ap (λ l. a.positions ++ l) (sym (map-append (λ p. p.1 % 2 ^ 32) ps qs));
    slots = x.slots ++ y.slots;
    added = y.added ∙ ap (λ l. l ++ y.slots) x.added ∙ append_assoc a.slots x.slots y.slots;
    placed = Paired-append _ ps x.slots qs y.slots x.placed y.placed;
  }

  in_table : (table : List ℕ) (k : ℕ) → k < length table → (b : ℕ) × (get_elem? table k ≡ some b)
  in_table [] k l = absurd (omega (arith, l))
  in_table (b ∷ bs) zero l = (b, refl)
  in_table (b ∷ bs) (suc k) l = in_table bs k (omega (arith, l))

  -- The tokens of one sequence, from position `pos` on.
  token-eq :
      {S : Type 0} (positive : 0 < block_size) (table : List ℕ) (pos token : ℕ) (tokens : List ℕ)
      (rows : Rows) (b : ℕ) (s : S)
      → get_elem? table (pos / block_size) ≡ some b
      → add_tokens block_size table pos (token ∷ tokens) rows s
        ≡ add_tokens block_size table
            (pos + 1)
            tokens
            (add_row token pos (record { block = b; slot = pos % block_size }) rows)
            s
  unfolding add_tokens
  token-eq positive table pos token tokens rows b s h =
      let works : (block_size == 0) ≡ false = ground (arith, positive) in rw works (rw h refl)

  add_tokens-LaidOut :
      {S : Type 0} (positive : 0 < block_size) (table : List ℕ)
      (inside : (j b : ℕ) → get_elem? table j ≡ some b → b < num_blocks) (tokens : List ℕ) (pos : ℕ)
      (rows : Rows) (s : S)
      → pos + length tokens ≤ length table * block_size
      → Done
          (λ more t.
            (t ≡ s)
            × LaidOut block_size num_blocks tokens (places_from table pos tokens) rows more
            × (more.last_rows ≡ rows.last_rows))
          (add_tokens block_size table pos tokens rows s)
  unfolding add_tokens
  add_tokens-LaidOut positive table inside [] pos rows s l = (
    refl,
    record {
      ids = sym (append-nil rows.ids);
      positions = sym (append-nil rows.positions);
      slots = [];
      added = sym (append-nil rows.slots);
      placed = tt;
    },
    refl,
  )
  add_tokens-LaidOut positive table inside (token ∷ tokens) pos rows s l =
      let below : pos / block_size < length table =
        (div-lt_iff_lt-mul {k = block_size} {x = pos} {y = length table} positive).1
          (omega (arith, l)) in
      let (b, h) = in_table table (pos / block_size) below in
      let slot : PhysicalSlot = record { block = b; slot = pos % block_size } in
      let next : Rows = add_row token pos slot rows in
      let (more, t, p, (same, x, last)) =
        Done-eq _ (add_tokens block_size table (pos + 1) tokens next s)
          (add_tokens-LaidOut positive table inside tokens (pos + 1) next s (omega (arith, l))) in
      rw (token-eq positive table pos token tokens rows b s h) (
        rw p (
          same,
          LaidOut-trans (token ∷ []) tokens ((table, pos) ∷ []) (places_from table (pos + 1) tokens)
              rows next more
              (record {
                ids = refl;
                positions = refl;
                slots = slot ∷ [];
                added = refl;
                placed = (
                  record {
                    block = h;
                    offset = refl;
                    inside = (inside (pos / block_size) b h, mod-lt pos positive);
                  },
                  tt,
                );
              })
              x,
          last,
        ))

  last_row-eq :
      (rows more : Rows) (tokens : List ℕ)
      → 0 < length tokens
      → more.ids ≡ rows.ids ++ tokens
      → last_row more ≡ (length rows.ids + length tokens - 1) % 2 ^ 32
  last_row-eq rows more tokens h e = omega (arith, h, ap length e, length-append rows.ids tokens)

  last_of-eq :
      (i : SeqInput) (seqs : List SeqInput) (rows more : Rows)
      → last_row more ≡ (length rows.ids + length i.tokens - 1) % 2 ^ 32
      → more.ids ≡ rows.ids ++ i.tokens
      → last_row more ∷ last_of (length more.ids) seqs ≡ last_of (length rows.ids) (i ∷ seqs)
  last_of-eq i seqs rows more h e =
      let long : length more.ids ≡ length rows.ids + length i.tokens =
        ap length e ∙ length-append rows.ids i.tokens in
      rw (h, long) refl

  -- The batch of well-formed sequences is laid out without an error or a panic: its tokens in
  -- order, each at its position, in the slot that the table has for that position, which is a slot
  -- of the pool; and the last row of each sequence, as a `u32`, is that of its last token.
  pub add_seqs-LaidOut :
      {S : Type 0} (seqs : List SeqInput) (rows : Rows) (s : S)
      → 0 < block_size
      → Every (WellFormed block_size num_blocks) seqs
      → Done
          (λ more t.
            (t ≡ s)
            × LaidOut block_size num_blocks (tokens_of seqs) (places_of seqs) rows more
            × (more.last_rows ≡ rows.last_rows ++ last_of (length rows.ids) seqs))
          (add_seqs block_size seqs rows s)
  unfolding add_seqs
  add_seqs-LaidOut [] rows s positive x = (
    refl,
    record {
      ids = sym (append-nil rows.ids);
      positions = sym (append-nil rows.positions);
      slots = [];
      added = sym (append-nil rows.slots);
      placed = tt;
    },
    sym (append-nil rows.last_rows),
  )
  add_seqs-LaidOut (i ∷ seqs) rows s positive x =
      let some_new : (length i.tokens == 0) ≡ false = ground (arith, x.0.new) in
      let (more, t, p, (same, y, last)) =
        Done-eq _ (add_tokens block_size i.block_table i.start i.tokens rows s)
          (add_tokens-LaidOut positive i.block_table x.0.inside i.tokens i.start rows s x.0.room) in
      let next : Rows = record more { last_rows = more.last_rows ++ last_row more ∷ [] } in
      let (all, u, q, (still, z, size)) =
        Done-eq _ (add_seqs block_size seqs next t) (add_seqs-LaidOut seqs next t positive x.1) in
      rw some_new (
        rw p (
          rw q (
            still ∙ same,
            LaidOut-trans i.tokens (tokens_of seqs) (places_from i.block_table i.start i.tokens)
                (places_of seqs) rows next all
                (record {
                  ids = y.ids;
                  positions = y.positions;
                  slots = y.slots;
                  added = y.added;
                  placed = y.placed;
                })
                z,
            size
                ∙ append_assoc more.last_rows (last_row more ∷ []) _
                ∙ ap (λ l. l ++ last_row more ∷ last_of (length more.ids) seqs) last
                ∙ ap (λ l. rows.last_rows ++ l)
                    (last_of-eq i seqs rows more (last_row-eq rows more i.tokens x.0.new y.ids)
                      y.ids),
          )))
