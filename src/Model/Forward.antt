-- ===== src/Model/Forward.antt =====
-- `forward` of model.rs as a whole: what it needs of the tensors and of the backend to return.
use paged_kv_cache.Prelude.{
  ℕ, zero, suc, ◌+◌, ◌*◌, ◌%◌, ◌^◌, ◌≤◌, ◌<◌, ◌≡◌, refl, sym, ap, subst, ◌∙◌, true, some, List, [],
  ◌∷◌, ◌==◌, map, length, take, drop, length-take, length-drop, length-append, get_elem?, Paired,
  Paired-length, Every, Every-append, arith,
}
use mathlib.Core.List.{map-append}
use paged_kv_cache.Error.{PhysicalSlot}
use paged_kv_cache.Outcome.{M, ok, Returns, Returns-eq}
use paged_kv_cache.Config.{CacheConfig, entry_elems}
use paged_kv_cache.Backend.{num_rows, AttentionSeq, KvBackend, write_slots, write_kv_batch}
use paged_kv_cache.Fallible.{done, Done, Done-eq}
use paged_kv_cache.Model.{
  SeqInput, Rows, no_rows, add_seqs, attention_seq, Network, run_layers, forward,
}
use paged_kv_cache.Model.Layout.{
  WellFormed, SlotFor, tokens_of, places_of, places_from, last_of, add_seqs-LaidOut,
}

length-map : {A B : Type 0} (f : A → B) (xs : List A) → length (map f xs) ≡ length xs
length-map f [] = refl
length-map f (x ∷ xs) = omega (arith, length-map f xs)

-- A slot of the pool.
abbrev pub InPool : CacheConfig → PhysicalSlot → Type 0
InPool c slot = (slot.block < c.num_blocks) × (slot.slot < c.block_size)

module _ {V : Type 0} (backend : KvBackend V) where
  open backend use {State, config, write_kv}

  -- A backend writes the entry of a slot of the pool, for rows of the right length.
  abbrev pub Writes : Type 0
  Writes =
      (s : State) (layer : ℕ) (slot : PhysicalSlot) (k v : List V)
      → layer < (config s).num_layers
      → InPool (config s) slot
      → length k ≡ entry_elems (config s)
      → length v ≡ entry_elems (config s)
      → Returns (λ _ t. config t ≡ config s) (write_kv layer slot k v s)

  write_slots-Returns :
      (writes : Writes) (c : CacheConfig) (layer : ℕ) (slots : List PhysicalSlot) (k v : List V)
      (s : State)
      → config s ≡ c
      → layer < c.num_layers
      → Every (InPool c) slots
      → length k ≡ length slots * entry_elems c
      → length v ≡ length slots * entry_elems c
      → Returns (λ _ t. config t ≡ c) (write_slots backend layer (entry_elems c) slots k v s)
  unfolding write_slots
  write_slots-Returns writes c layer [] k v s e l x h g = e
  write_slots-Returns writes c layer (slot ∷ slots) k v s e l x h g =
      let n : ℕ = entry_elems c in
      let long : length k ≡ n + length slots * n = omega (arith, h) in
      let wide : length v ≡ n + length slots * n = omega (arith, g) in
      let (u, t, p, same) = Returns-eq _ (write_kv layer slot (take n k) (take n v) s) (
        writes s layer slot (take n k) (take n v) (subst (λ d. layer < d.num_layers) (sym e) l)
          (subst (λ d. InPool d slot) (sym e) x.0)
          (omega (arith, length-take n k, long) ∙ ap entry_elems (sym e))
          (omega (arith, length-take n v, wide) ∙ ap entry_elems (sym e))) in
      rw p (
        write_slots-Returns writes c layer slots (drop n k) (drop n v) t (same ∙ e) l x.1
          (omega (arith, length-drop n k, long)) (omega (arith, length-drop n v, wide)))

  -- What `write_kv_batch` is for: rows of the right length go to slots of the pool without an error.
  pub write_kv_batch-Returns :
      (writes : Writes) (layer : ℕ) (slots : List PhysicalSlot) (k v : List V) (s : State)
      → layer < (config s).num_layers
      → Every (InPool (config s)) slots
      → length k ≡ length slots * entry_elems (config s)
      → length v ≡ length slots * entry_elems (config s)
      → Returns (λ _ t. config t ≡ config s) (write_kv_batch backend layer slots k v s)
  unfolding write_kv_batch
  write_kv_batch-Returns writes layer slots k v s l x h g =
      let n : ℕ = entry_elems (config s) in
      let right : (length k == length slots * n) ≡ true = ground (arith, h) in
      let also : (length v == length slots * n) ≡ true = ground (arith, g) in
      rw (right, also) (write_slots-Returns writes (config s) layer slots k v s refl l x h g)

-- An attention call of which the table covers the context.
pub record AttentionFits (c : CacheConfig) (a : AttentionSeq) : Type 0 where
  pub queries : a.num_queries ≤ a.context_len
  pub new : 0 < a.num_queries
  pub room : a.context_len ≤ length a.block_table * c.block_size
  pub inside : (j b : ℕ) → get_elem? a.block_table j ≡ some b → b < c.num_blocks

attention_seq-AttentionFits :
    (c : CacheConfig) (seqs : List SeqInput)
    → Every (WellFormed c.block_size c.num_blocks) seqs
    → Every (AttentionFits c) (map attention_seq seqs)
attention_seq-AttentionFits c [] x = tt
attention_seq-AttentionFits c (s ∷ seqs) x = (
  record { queries = omega arith; new = x.0.new; room = x.0.room; inside = x.0.inside },
  attention_seq-AttentionFits c seqs x.1,
)

num_rows-tokens_of :
    (seqs : List SeqInput) → num_rows (map attention_seq seqs) ≡ length (tokens_of seqs)
num_rows-tokens_of [] = refl
num_rows-tokens_of (s ∷ seqs) =
    omega (arith, num_rows-tokens_of seqs, length-append s.tokens (tokens_of seqs))

SlotFor-InPool :
    (c : CacheConfig) (places : List (List ℕ × ℕ)) (slots : List PhysicalSlot)
    → Paired (SlotFor c.block_size c.num_blocks) places slots
    → Every (InPool c) slots
SlotFor-InPool c [] [] x = tt
SlotFor-InPool c [] (s ∷ slots) x = absurd x
SlotFor-InPool c (p ∷ places) [] x = absurd x
SlotFor-InPool c (p ∷ places) (s ∷ slots) x = (x.0.inside, SlotFor-InPool c places slots x.1)

length-places_from :
    (table : List ℕ) (pos : ℕ) (tokens : List ℕ)
    → length (places_from table pos tokens) ≡ length tokens
length-places_from table pos [] = refl
length-places_from table pos (t ∷ tokens) = omega (arith, length-places_from table (pos + 1) tokens)

length-places_of : (seqs : List SeqInput) → length (places_of seqs) ≡ length (tokens_of seqs)
length-places_of [] = refl
length-places_of (s ∷ seqs) = omega (
  arith,
  length-places_of seqs,
  length-append s.tokens (tokens_of seqs),
  length-append (places_from s.block_table s.start s.tokens) (places_of seqs),
  length-places_from s.block_table s.start s.tokens,
)

-- What the model may be asked for: tokens of its vocabulary, at positions of its rotary tables.
pub record InModel (vocab window : ℕ) (i : SeqInput) : Type 0 where
  pub tokens : Every (λ t. t < vocab) i.tokens
  pub positions : i.start + length i.tokens ≤ window

ids-InModel :
    (vocab window : ℕ) (seqs : List SeqInput)
    → Every (InModel vocab window) seqs
    → Every (λ t. t < vocab) (tokens_of seqs)
ids-InModel vocab window [] x = tt
ids-InModel vocab window (s ∷ seqs) x =
    Every-append _ s.tokens (tokens_of seqs) x.0.tokens (ids-InModel vocab window seqs x.1)

positions_from-Below :
    (window : ℕ) (table : List ℕ) (pos : ℕ) (tokens : List ℕ)
    → pos + length tokens ≤ window
    → Every (λ p. p < window) (map (λ p. p.1 % 2 ^ 32) (places_from table pos tokens))
positions_from-Below window table pos [] h = tt
positions_from-Below window table pos (t ∷ tokens) h =
    (omega (arith, h), positions_from-Below window table (pos + 1) tokens (omega (arith, h)))

positions-InModel :
    (vocab window : ℕ) (seqs : List SeqInput)
    → Every (InModel vocab window) seqs
    → Every (λ p. p < window) (map (λ p. p.1 % 2 ^ 32) (places_of seqs))
positions-InModel vocab window [] x = tt
positions-InModel vocab window (s ∷ seqs) x =
    let first : List (List ℕ × ℕ) = places_from s.block_table s.start s.tokens in
    subst (Every (λ p. p < window)) (sym (map-append (λ p. p.1 % 2 ^ 32) first (places_of seqs))) (
      Every-append _ (map (λ p. p.1 % 2 ^ 32) first) _
        (positions_from-Below window s.block_table s.start s.tokens x.0.positions)
        (positions-InModel vocab window seqs x.1))

length-last_of : (n : ℕ) (seqs : List SeqInput) → length (last_of n seqs) ≡ length seqs
length-last_of n [] = refl
length-last_of n (s ∷ seqs) = omega (arith, length-last_of (n + length s.tokens) seqs)

-- The row of the last token of a sequence with a new token is a row of the batch.
last_of-Below :
    (n rows block_size num_blocks : ℕ) (seqs : List SeqInput)
    → Every (WellFormed block_size num_blocks) seqs
    → n + length (tokens_of seqs) ≤ rows
    → Every (λ r. r < rows) (last_of n seqs)
last_of-Below n rows block_size num_blocks [] x h = tt
last_of-Below n rows block_size num_blocks (s ∷ seqs) x h =
    let long = length-append s.tokens (tokens_of seqs) in
    (
      omega (arith, h, long, x.0.new),
      last_of-Below (n + length s.tokens) rows block_size num_blocks seqs x.1
          (omega (arith, h, long)),
    )

module _ {X V : Type 0} (network : Network X V) (backend : KvBackend V)
    (paged_attention : ℕ → List AttentionSeq → List V → M (backend.State) (List V))
    (shaped : ℕ → X → Type 0) (width : ℕ) where
  open backend use {State, config}

  -- What the tensors do, for tokens of the vocabulary, positions of the rotary tables and hidden
  -- states of `n` rows: each operation keeps the rows, the keys and values of a row are an entry, and
  -- there are logits for each row of the states that is asked for.
  pub record Tensors (entry vocab window : ℕ) : Type 0 where
    pub embed :
        (ids positions : List ℕ)
        → length positions ≡ length ids
        → Every (λ t. t < vocab) ids
        → Every (λ p. p < window) positions
        → (xs : X) × (network.embed ids positions ≡ some xs) × shaped (length ids) xs
    pub project :
        (index n : ℕ) (xs : X)
        → index < network.num_layers
        → shaped n xs
        → (q k v : List V) × (network.project index xs ≡ some (q, k, v))
          × (length q ≡ n * width)
          × (length k ≡ n * entry)
          × (length v ≡ n * entry)
    pub finish_layer :
        (index n : ℕ) (xs : X) (attn : List V)
        → index < network.num_layers
        → shaped n xs
        → length attn ≡ n * width
        → (ys : X) × (network.finish_layer index xs attn ≡ some ys) × shaped n ys
    pub logits :
        (rows : List ℕ) (n : ℕ) (xs : X)
        → shaped n xs
        → Every (λ r. r < n) rows
        → (ls : List (List V)) × (network.logits rows xs ≡ some ls) × (length ls ≡ length rows)

  -- The attention of the backend, for queries of every sequence and tables that cover the contexts.
  abbrev pub Attends : Type 0
  Attends =
      (s : State) (layer : ℕ) (seqs : List AttentionSeq) (q : List V)
      → layer < (config s).num_layers
      → Every (AttentionFits (config s)) seqs
      → length q ≡ num_rows seqs * width
      → Returns (λ out t. (config t ≡ config s) × (length out ≡ length q))
          (paged_attention layer seqs q s)

  layer-eq :
      (n index : ℕ) (rows : Rows) (attention : List AttentionSeq) (xs ys : X) (q k v attn : List V)
      (s t u : State)
      → network.project index xs ≡ some (q, k, v)
      → write_kv_batch backend index rows.slots k v s ≡ ok tt t
      → paged_attention index attention q t ≡ ok attn u
      → network.finish_layer index xs attn ≡ some ys
      → run_layers network backend paged_attention (suc n) index rows attention xs s
        ≡ run_layers network backend paged_attention n (suc index) rows attention ys u
  unfolding run_layers
  layer-eq n index rows attention xs ys q k v attn s t u a b c d = rw a (rw b (rw c (rw d refl)))

  run_layers-Done :
      (c : CacheConfig) (vocab window : ℕ) (tensors : Tensors (entry_elems c) vocab window)
      (writes : Writes backend) (attends : Attends) (n index : ℕ) (rows : Rows)
      (attention : List AttentionSeq) (xs : X) (s : State)
      → config s ≡ c
      → index + n ≡ network.num_layers
      → network.num_layers ≤ c.num_layers
      → Every (InPool c) rows.slots
      → Every (AttentionFits c) attention
      → num_rows attention ≡ length rows.slots
      → shaped (length rows.slots) xs
      → Done
          (λ ys t. (config t ≡ c) × shaped (length rows.slots) ys)
          (run_layers network backend paged_attention n index rows attention xs s)
  unfolding run_layers
  run_layers-Done c vocab window tensors writes attends zero index rows attention xs s e l m x y r
        h =
      (e, h)
  run_layers-Done c vocab window tensors writes attends (suc n) index rows attention xs s e l m x y
        r h =
      let count : ℕ = length rows.slots in
      let (q, k, v, a, qs, ks, vs) = tensors.project index count xs (omega (arith, l)) h in
      let entry : entry_elems c ≡ entry_elems (config s) = ap entry_elems (sym e) in
      let inside : index < (config s).num_layers =
        subst (λ d. index < d.num_layers) (sym e) (omega (arith, l, m)) in
      let (_, t, b, same) = Returns-eq _ (write_kv_batch backend index rows.slots k v s) (
        write_kv_batch-Returns backend writes index rows.slots k v s inside
          (subst (λ d. Every (InPool d) rows.slots) (sym e) x) (ks ∙ ap (λ z. count * z) entry)
          (vs ∙ ap (λ z. count * z) entry)) in
      let now : config t ≡ c = same ∙ e in
      let (attn, u, d, (still, size)) = Returns-eq _ (paged_attention index attention q t) (
        attends t index attention q
          (subst (λ d. index < d.num_layers) (sym now) (omega (arith, l, m)))
          (subst (λ d. Every (AttentionFits d) attention) (sym now) y)
          (qs ∙ ap (λ z. z * width) (sym r))) in
      let (ys, f, g) = tensors.finish_layer index count xs attn (omega (arith, l)) h (size ∙ qs) in
      rw (layer-eq n index rows attention xs ys q k v attn s t u a b d f) (
        run_layers-Done c vocab window tensors writes attends n (suc index) rows attention ys u
          (still ∙ now) (omega (arith, l)) m x y r g)

  forward-eq :
      (seqs : List SeqInput) (rows : Rows) (xs ys : X) (ls : List (List V)) (s t : State)
      → add_seqs ((config s).block_size) seqs no_rows s ≡ done rows s
      → network.embed rows.ids rows.positions ≡ some xs
      → run_layers network backend paged_attention network.num_layers 0 rows
          (map attention_seq seqs)
          xs
          s
        ≡ done ys t
      → network.logits rows.last_rows ys ≡ some ls
      → forward network backend paged_attention seqs s ≡ done ls t
  unfolding forward
  forward-eq seqs rows xs ys ls s t a b c d = rw a (rw b (rw c (rw d refl)))

  -- For tensors that keep the rows of a batch, for tokens of a vocabulary and positions of the
  -- rotary tables, a backend that writes the slots of its pool and attends over tables that cover
  -- their contexts, and no more layers than the cache has, `forward` of a batch of well-formed
  -- sequences of such tokens and positions ends without an error or a panic, with the geometry of
  -- the cache as it was: it asks for the logits of the last row of each sequence, each of which is
  -- a row of the batch, from hidden states with a row for each token, and returns them, one for
  -- each sequence.
  pub forward-Done :
      (seqs : List SeqInput) (vocab window : ℕ) (s : State)
      → Tensors (entry_elems (config s)) vocab window
      → Writes backend
      → Attends
      → network.num_layers ≤ (config s).num_layers
      → 0 < (config s).block_size
      → Every (WellFormed ((config s).block_size) ((config s).num_blocks)) seqs
      → Every (InModel vocab window) seqs
      → Done
          (λ logits t.
            (config t ≡ config s)
            × (length logits ≡ length seqs)
            × ((ys : X) × shaped (length (tokens_of seqs)) ys
                × (network.logits (last_of 0 seqs) ys ≡ some logits)))
          (forward network backend paged_attention seqs s)
  forward-Done seqs vocab window s tensors writes attends layers positive formed known_by =
      let c : CacheConfig = config s in
      let (rows, s', p, (same, x, last)) =
        Done-eq _ (add_seqs c.block_size seqs no_rows s)
          (add_seqs-LaidOut c.block_size c.num_blocks seqs no_rows s positive formed) in
      let placed : length rows.slots ≡ length (tokens_of seqs) =
        ap length x.added
        ∙ sym (Paired-length _ (places_of seqs) x.slots x.placed)
        ∙ length-places_of seqs in
      let known : length rows.ids ≡ length (tokens_of seqs) = ap length x.ids in
      let at : length rows.positions ≡ length rows.ids =
        ap length x.positions
        ∙ length-map (λ p. p.1 % 2 ^ 32) (places_of seqs)
        ∙ length-places_of seqs
        ∙ sym known in
      let (xs, e, h) =
        tensors.embed rows.ids rows.positions at
          (subst (Every (λ t. t < vocab)) (sym x.ids) (ids-InModel vocab window seqs known_by))
          (subst (Every (λ p. p < window)) (sym x.positions)
            (positions-InModel vocab window seqs known_by)) in
      let (ys, t, r, (still, shape)) =
        Done-eq _
          (run_layers network backend paged_attention network.num_layers 0 rows
            (map attention_seq seqs) xs s)
          (run_layers-Done c vocab window tensors writes attends network.num_layers 0 rows
            (map attention_seq seqs) xs s refl (omega arith) layers
            (subst (Every (InPool c)) (sym x.added)
              (SlotFor-InPool c (places_of seqs) x.slots x.placed))
            (attention_seq-AttentionFits c seqs formed) (num_rows-tokens_of seqs ∙ sym placed)
            (subst (λ n. shaped n xs) (known ∙ sym placed) h)) in
      let (ls, g, size) = tensors.logits rows.last_rows (length rows.slots) ys shape (
        subst (Every (λ r. r < length rows.slots)) (sym last) (
          last_of-Below 0 (length rows.slots) c.block_size c.num_blocks seqs formed
            (omega (arith, placed)))) in
      rw (forward-eq seqs rows xs ys ls s t (p ∙ ap (done rows) same) e r g) (
        still,
        size ∙ ap length last ∙ length-last_of 0 seqs,
        (ys, subst (λ n. shaped n ys) placed shape, sym (ap (λ r. network.logits r ys) last) ∙ g),
      )
