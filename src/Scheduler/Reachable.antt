-- ===== src/Scheduler/Reachable.antt =====
-- The schedulers of scheduler.rs that its public methods make, from a new one on.
use paged_kv_cache.Prelude.{ℕ, ◌^◌, ◌≤◌, ◌<◌, ◌≡◌, List, length}
use paged_kv_cache.Outcome.{Outcome, ok}
use paged_kv_cache.Config.{CacheConfig}
use paged_kv_cache.Scheduler.{
  Scheduler, new, with_prefix_caching, enqueue, finish_sequence, fork_sequence,
}
use paged_kv_cache.Scheduler.Step.{StepOutcome, step}
use paged_kv_cache.Scheduler.Admission.{HasRoom}
use paged_kv_cache.Scheduler.Stepped.{Stepped}

-- A call that fails changes nothing that counts here: only calls that return are steps.
pub data Reaches (config : CacheConfig) (max_batch_size : ℕ) : Scheduler → Type 0 where
  plain : Reaches config max_batch_size (new config max_batch_size)
  caching : Reaches config max_batch_size (with_prefix_caching config max_batch_size)
  enqueued :
      {s t : Scheduler} (id prompt_len : ℕ) (prompt : List ℕ) (max_new_tokens : ℕ)
      → Reaches config max_batch_size s
      → length prompt ≤ prompt_len
      → prompt_len < 2 ^ 64
      → enqueue id prompt_len prompt max_new_tokens s ≡ ok tt t
      → Reaches config max_batch_size t
  ended :
      {s t : Scheduler} (id : ℕ)
      → Reaches config max_batch_size s
      → finish_sequence id s ≡ ok tt t
      → Reaches config max_batch_size t
  split :
      {s t : Scheduler} (parent child max_new_tokens : ℕ)
      → Reaches config max_batch_size s
      → fork_sequence parent child max_new_tokens s ≡ ok tt t
      → Reaches config max_batch_size t
  stepped :
      {s t : Scheduler} (o : StepOutcome)
      → Reaches config max_batch_size s
      → HasRoom s
      → step s ≡ ok o t
      → Reaches config max_batch_size t
