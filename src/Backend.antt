-- ===== src/Backend.antt =====
-- crates/paged-kv-core/src/backend.rs: the interface to the storage of K and V, with the methods
-- that it implements itself, and the check of a call of attention.
use paged_kv_cache.Prelude.{
  ℕ, ◌+◌, ◌*◌, ◌/◌, ◌%◌, ◌&&◌, not, Option, none, some, List, [], ◌∷◌, ◌==◌, ltb, leb,
  if◌then◌else◌, length, take, drop,
}
use paged_kv_cache.Error.{PhysicalSlot, invalid_layer, invalid_block, shape_mismatch}
use paged_kv_cache.Outcome.{M, ◌>>◌, pure, fail, reject_if, divisor}
use paged_kv_cache.Config.{CacheConfig, entry_elems, blocks_for_tokens}

-- One sequence's share of an attention call.
pub record AttentionSeq : Type 0 where
  pub block_table : List ℕ
  pub context_len : ℕ
  pub num_queries : ℕ

-- The methods that an implementation of `KvBackend` has. `read_kv` is given the lengths of the two
-- buffers that it fills and returns their contents.
pub record KvBackend (F : Type 0) : Type 1 where
  pub State : Type 0
  pub config : State → CacheConfig
  pub write_kv : ℕ → PhysicalSlot → List F → List F → M State (Unit {0})
  pub read_kv : ℕ → PhysicalSlot → ℕ → ℕ → M State (List F × List F)
  pub copy_block : ℕ → ℕ → M State (Unit {0})
  pub zero_block : ℕ → M State (Unit {0})

module _ {F : Type 0} (backend : KvBackend F) where
  open backend use {State, config, write_kv, copy_block}

  -- The loop of `write_kv_batch`: `n` elements of each plane for each slot.
  unfoldable pub write_slots : ℕ → ℕ → List PhysicalSlot → List F → List F → M State (Unit {0})
  write_slots layer n [] k v = pure tt
  write_slots layer n (dst ∷ dsts) k v = do
    write_kv layer dst (take n k) (take n v)
    write_slots layer n dsts (drop n k) (drop n v)

  unfoldable pub write_kv_batch : ℕ → List PhysicalSlot → List F → List F → M State (Unit {0})
  write_kv_batch layer dsts k v s =
      let n = entry_elems (config s) in
      let expected = length dsts * n in
      (do
        reject_if (not (length k == expected)) (shape_mismatch expected (length k))
        reject_if (not (length v == expected)) (shape_mismatch expected (length v))
        write_slots layer n dsts k v)
        s

  unfoldable pub copy_blocks : List (ℕ × ℕ) → M State (Unit {0})
  copy_blocks [] = pure tt
  copy_blocks ((src, dst) ∷ pairs) = do copy_block src dst; copy_blocks pairs

-- `blocks.iter().find(|b| b.index() >= num_blocks)`
unfoldable pub find_outside : ℕ → List ℕ → Option ℕ
find_outside num_blocks [] = none
find_outside num_blocks (b ∷ bs) = if leb num_blocks b then some b else find_outside num_blocks bs

-- The queries of a call.
abbrev pub num_rows : List AttentionSeq → ℕ
num_rows [] = 0
num_rows (s ∷ seqs) = s.num_queries + num_rows seqs

module _ {S : Type 0} where
  -- The body of the loop of `check_attention`.
  unfoldable pub check_seq : CacheConfig → AttentionSeq → M S (Unit {0})
  check_seq config s = do
    reject_if (ltb s.context_len s.num_queries) (shape_mismatch s.context_len s.num_queries)
    divisor config.block_size
    let needed = blocks_for_tokens config s.context_len
    reject_if (ltb (length s.block_table) needed) (shape_mismatch needed (length s.block_table))
    elim (find_outside config.num_blocks (take needed s.block_table)) [
      | none ↦ pure tt
      | some id ↦ fail (invalid_block id config.num_blocks)
    ]

  unfoldable pub check_seqs : CacheConfig → List AttentionSeq → M S (Unit {0})
  check_seqs config [] = pure tt
  check_seqs config (s ∷ seqs) = do check_seq config s; check_seqs config seqs

  -- The end of `check_attention`, for a call that has rows or elements.
  unfoldable pub check_rows : CacheConfig → ℕ → ℕ → M S ℕ
  check_rows config rows q_len =
      let group = entry_elems config in
      let mismatch = shape_mismatch (rows * group) q_len in
      (do
        reject_if (rows == 0) mismatch
        reject_if (not (q_len % rows == 0)) mismatch
        divisor group
        reject_if (not (q_len / rows % group == 0)) mismatch
        reject_if (q_len == 0) mismatch
        divisor config.head_dim
        pure (q_len / rows / config.head_dim))

  unfoldable pub check_attention : CacheConfig → ℕ → List AttentionSeq → ℕ → ℕ → M S ℕ
  check_attention config layer seqs q_len out_len = do
    reject_if (leb config.num_layers layer) (invalid_layer layer config.num_layers)
    check_seqs config seqs
    reject_if (not (out_len == q_len)) (shape_mismatch q_len out_len)
    if num_rows seqs == 0 && q_len == 0
        then pure config.num_kv_heads
        else check_rows config (num_rows seqs) q_len
