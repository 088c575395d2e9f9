-- ===== src/Tests/Memory.antt =====
-- The theorems on the host memory of cpu.rs at concrete inputs that meet their hypotheses, with
-- numbers for floats.
use paged_kv_cache.Prelude.{
  ℕ, inl, ◌+◌, ◌-◌, ◌*◌, ◌/◌, ◌%◌, ◌≡◌, ◌⊎◌, inr, refl, List, [], ◌∷◌, length, Array, filled, arith,
}
use paged_kv_cache.Error.{PhysicalSlot}
use paged_kv_cache.Outcome.{Post, Returns}
use paged_kv_cache.Config.{tiny, entry_elems}
use paged_kv_cache.Backend.{AttentionSeq, copy_blocks, write_kv_batch}
use paged_kv_cache.BlockTable.{append}
use paged_kv_cache.BlockTable.Owned.{held}
use paged_kv_cache.Cpu
use paged_kv_cache.Cpu.{CpuBackend, Floats, cpu, plane, slot_offset, write_kv, read_kv, copy_block}
use paged_kv_cache.Cpu.Layout.{InBounds}
use paged_kv_cache.Cpu.Slots.{Sized, Written, OutOfBounds, Misshaped, write_kv-Post}
use paged_kv_cache.Cpu.Blocks.{Copied, NoBlock, copy_block-Post}
use paged_kv_cache.Cpu.Covers.{Proper, Checked, Passes}
use paged_kv_cache.Cpu.Attention.{paged_attention}
use paged_kv_cache.Cpu.Attended.{Attends, paged_attention-Attends}
use paged_kv_cache.Cpu.Batch.{Filled, Reads, write_kv_batch-Filled}
use paged_kv_cache.Cpu.Divergence.{Preserved, pairs_of, append-copy_blocks}
use paged_kv_cache.Tests.Samples.{
  shared_pool, three_tokens, one_other, three_tokens-Fits, three_tokens-Owns,
}

abbrev naturals : Floats ℕ
naturals = record {
  zero = 0;
  neg_infinity = 0;
  add = λ a b. a + b;
  sub = λ a b. a - b;
  mul = λ a b. a * b;
  div = λ a b. a / (b + 1);
  exp = λ a. 2 * a + 1;
  max = λ a b. a + b;
  sum = λ xs. length xs;
  inverse_sqrt = λ d. d;
}

abbrev memory : CpuBackend ℕ
memory = Cpu.new naturals (tiny 4)

memory-Sized : Sized memory
memory-Sized = record { k_size = refl; v_size = refl }

abbrev second : PhysicalSlot
second = record { block = 2; slot = 1 }

second-InBounds : InBounds (tiny 4) 1 second
second-InBounds = record { layer_lt = omega arith; block_lt = omega arith; slot_lt = omega arith }

abbrev eight : List ℕ
eight = 1 ∷ 2 ∷ 3 ∷ 4 ∷ 5 ∷ 6 ∷ 7 ∷ 8 ∷ []

write_kv-Post_example :
    Post
      (λ _ c. InBounds (tiny 4) 1 second × Written memory 1 second eight eight c)
      (λ e c.
        (c ≡ memory)
        × (OutOfBounds (tiny 4) 1 second e
            ⊎ (InBounds (tiny 4) 1 second × Misshaped (entry_elems (tiny 4)) eight eight e)))
      (write_kv 1 second eight eight memory)
write_kv-Post_example = write_kv-Post memory 1 second memory-Sized eight eight

abbrev first : PhysicalSlot
first = record { block = 0; slot = 3 }

first-InBounds : InBounds (tiny 4) 1 first
first-InBounds = record { layer_lt = omega arith; block_lt = omega arith; slot_lt = omega arith }

abbrev sixteen : List ℕ
sixteen = 9 ∷ 9 ∷ 9 ∷ 9 ∷ 9 ∷ 9 ∷ 9 ∷ 9 ∷ eight

write_kv_batch-Filled_example :
    Post
      (λ _ c.
        (length sixteen ≡ 16)
        × (length sixteen ≡ 16)
        × Filled memory 1 (second ∷ first ∷ []) sixteen sixteen c
        × Reads naturals 1 memory (second ∷ first ∷ []) sixteen sixteen c)
      (λ e c. (c ≡ memory) × Misshaped 16 sixteen sixteen e)
      (write_kv_batch (cpu naturals) 1 (second ∷ first ∷ []) sixteen sixteen memory)
write_kv_batch-Filled_example =
    write_kv_batch-Filled naturals 1 memory (second ∷ first ∷ []) sixteen sixteen memory-Sized
      (second-InBounds, (first-InBounds, tt)) ((inr (inl (λ e. omega (arith, e))), tt), (tt, tt))

copy_block-Post_example :
    Post
      (λ _ c. Copied memory 2 3 2 c)
      (λ e c. (c ≡ memory) × NoBlock (tiny 4) 2 3 e)
      (copy_block 2 3 memory)
copy_block-Post_example = copy_block-Post 2 3 memory memory-Sized

append-copy_blocks_example :
    Returns
      (λ r s.
        Returns
          (λ _ c. Preserved one_other three_tokens memory s.table c)
          (copy_blocks (cpu naturals) (pairs_of r.1) memory))
      (append (held three_tokens shared_pool))
append-copy_blocks_example =
    append-copy_blocks naturals one_other three_tokens shared_pool memory three_tokens-Fits
      three_tokens-Owns (omega arith) memory-Sized refl refl

-- Two queries at the end of a context of six positions in blocks 3 and 1, with four heads.
abbrev two_queries : List AttentionSeq
two_queries = record { block_table = 3 ∷ 1 ∷ []; context_len = 6; num_queries = 2 } ∷ []

abbrev asked : Array ℕ
asked = record { size = 32; at = λ i. i % 5 }

abbrev output : Array ℕ
output = filled 0 32

tiny-Proper : Proper (tiny 4)
tiny-Proper = record { block_size = omega arith; kv_heads = omega arith; head_dim = omega arith }

paged_attention-Attends_example :
    Post
      (λ _ out.
        (heads : ℕ) × (c : Checked (tiny 4) 1 two_queries 32 32 heads) × Attends naturals memory 1
          two_queries asked heads c.group out)
      (λ _ out. (out ≡ output) × ¬ Passes (tiny 4) 1 two_queries 32 32)
      (paged_attention naturals memory 1 two_queries asked output)
paged_attention-Attends_example =
    paged_attention-Attends naturals memory 1 two_queries asked output memory-Sized tiny-Proper
