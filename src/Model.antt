-- ===== src/Model.antt =====
-- crates/paged-kv-model/src/model.rs: how a batch is laid out for the paged cache, and the loop over
-- the layers. The tensors of candle are a parameter, and so is the attention of the backend.
pub mod Layout
pub mod Forward
use paged_kv_cache.Prelude.{
  ℕ, zero, suc, ◌+◌, ◌-◌, ◌/◌, ◌%◌, ◌^◌, Option, some, none, List, [], ◌∷◌, ◌++◌, ◌==◌, length,
  get_elem?, map, if◌then◌else◌,
}
use paged_kv_cache.Error.{PhysicalSlot}
use paged_kv_cache.Outcome.{M}
use paged_kv_cache.Config.{CacheConfig}
use paged_kv_cache.Backend.{AttentionSeq, KvBackend, write_kv_batch}
use paged_kv_cache.Fallible.{
  F, no_new_token, no_block_for, tensor_error, cache_error, ◌>>=◌, ◌>>◌, pure, get, bail_if,
  some_or, expect, call,
}

-- One sequence's share of a batch.
pub record SeqInput : Type 0 where
  pub tokens : List ℕ
  pub start : ℕ
  pub block_table : List ℕ

-- The rows of a batch: its tokens, their positions and slots, and the last row of each sequence.
pub record Rows : Type 0 where
  pub ids : List ℕ
  pub positions : List ℕ
  pub slots : List PhysicalSlot
  pub last_rows : List ℕ

abbrev pub no_rows : Rows
no_rows = record { ids = []; positions = []; slots = []; last_rows = [] }

abbrev pub add_row : ℕ → ℕ → PhysicalSlot → Rows → Rows
add_row token pos slot rows = record rows {
  ids = rows.ids ++ token ∷ [];
  positions = rows.positions ++ pos % 2 ^ 32 ∷ [];
  slots = rows.slots ++ slot ∷ [];
}

-- The row of the last token, `ids.len() as u32 - 1`.
abbrev pub last_row : Rows → ℕ
last_row rows = (length rows.ids % 2 ^ 32 + 2 ^ 32 - 1) % 2 ^ 32

module _ {S : Type 0} where
  -- The loop over the tokens of a sequence, from position `pos` on.
  unfoldable pub add_tokens : ℕ → List ℕ → ℕ → List ℕ → Rows → F S Rows
  add_tokens block_size block_table pos [] rows = pure rows
  add_tokens block_size block_table pos (token ∷ tokens) rows = do
    expect (if block_size == 0 then none else some tt)
    block ← some_or (get_elem? block_table (pos / block_size)) (no_block_for pos)
    add_tokens block_size block_table (pos + 1) tokens
        (add_row token pos (record { block = block; slot = pos % block_size }) rows)

  unfoldable pub add_seqs : ℕ → List SeqInput → Rows → F S Rows
  add_seqs block_size [] rows = pure rows
  add_seqs block_size (s ∷ seqs) rows = do
    bail_if (length s.tokens == 0) no_new_token
    more ← add_tokens block_size s.block_table s.start s.tokens rows
    add_seqs block_size seqs (record more { last_rows = more.last_rows ++ last_row more ∷ [] })

-- The arguments of the attention calls.
abbrev pub attention_seq : SeqInput → AttentionSeq
attention_seq s = record {
  block_table = s.block_table;
  context_len = s.start + length s.tokens;
  num_queries = length s.tokens;
}

-- What `forward` computes with candle, on hidden states `X` and buffers of `V`: the embedding with the
-- rotary tables of the positions, the queries, keys and values of a layer, the rest of a layer, and the
-- logits of the last rows. `none` is an error of candle.
pub record Network (X V : Type 0) : Type 0 where
  pub num_layers : ℕ
  pub embed : List ℕ → List ℕ → Option X
  pub project : ℕ → X → Option (List V × List V × List V)
  pub finish_layer : ℕ → X → List V → Option X
  pub logits : List ℕ → X → Option (List (List V))

module _ {X V : Type 0} (network : Network X V) (backend : KvBackend V)
    (paged_attention : ℕ → List AttentionSeq → List V → M (backend.State) (List V)) where
  open backend use {State, config}

  abbrev on_cache : {A : Type 0} → M State A → F State A
  on_cache = call cache_error (λ s. s) (λ s t. t)

  -- The loop over the layers, from layer `index` on: the K and V of the whole batch are written before
  -- attention reads.
  unfoldable pub run_layers : ℕ → ℕ → Rows → List AttentionSeq → X → F State X
  run_layers zero index rows attention xs = pure xs
  run_layers (suc n) index rows attention xs = do
    (q, k, v) ← some_or (network.project index xs) tensor_error
    on_cache (write_kv_batch backend index rows.slots k v)
    attn ← on_cache (paged_attention index attention q)
    ys ← some_or (network.finish_layer index xs attn) tensor_error
    run_layers n (suc index) rows attention ys

  unfoldable pub forward : List SeqInput → F State (List (List V))
  forward seqs = do
    s ← get
    rows ← add_seqs (config s).block_size seqs no_rows
    xs ← some_or (network.embed rows.ids rows.positions) tensor_error
    ys ← run_layers network.num_layers 0 rows (map attention_seq seqs) xs
    some_or (network.logits rows.last_rows ys) tensor_error
