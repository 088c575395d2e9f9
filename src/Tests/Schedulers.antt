-- ===== src/Tests/Schedulers.antt =====
-- Two schedulers: one whose pool has no free block, with two running sequences that share a block,
-- and one with a sequence that waits for a cached block.

use paged_kv_cache.Scheduler.Admission.{HasRoom}
use paged_kv_cache.Prelude.{
  ℕ, zero, suc, ◌≡◌, refl, sym, subst, true, some, [], ◌∷◌, get_elem?, arith,
}
use paged_kv_cache.Allocator.{PrefixMatch}
use paged_kv_cache.Allocator.Match.{Matched}
use paged_kv_cache.PrefixCache
use paged_kv_cache.BlockTable.{BlockTable}
use paged_kv_cache.BlockTable.Owned.{Fits}
use paged_kv_cache.Scheduler.{PendingSeq, RunningSeq, Scheduler}
use paged_kv_cache.Scheduler.Tables.{SeqFits, PendingFits, IsSound}
use paged_kv_cache.Scheduler.Step.{Stepping, can_admit}
use paged_kv_cache.Lru
use paged_kv_cache.Tests.Samples.{
  three_tokens, three_tokens-Fits, greeting, caching_pool-Ordered, drained_pool, drained-Owns,
  caching_pool, caching_pool-Inv,
}

abbrev pub writer : RunningSeq
writer = record {
  id = 5;
  table = three_tokens;
  max_new_tokens = 3;
  generated = 1;
  prompt = [];
  cached_tokens = 0;
}

abbrev pub reader : RunningSeq
reader = record {
  id = 6;
  table = three_tokens;
  max_new_tokens = 1;
  generated = 1;
  prompt = [];
  cached_tokens = 0;
}

abbrev pub two_running : Scheduler
two_running = record {
  allocator = drained_pool;
  block_size = 4;
  max_batch_size = 3;
  waiting = [];
  running = writer ∷ reader ∷ [];
}

three_tokens_fits : (seq : RunningSeq) → seq.prompt ≡ [] → seq.table ≡ three_tokens → SeqFits 4 seq
three_tokens_fits seq p e = record {
  fits = subst Fits (sym e) three_tokens-Fits;
  size = ground (arith, e);
  once = λ i. ground (arith, e);
  prompt = ground (arith, p);
}

same_table :
    (k : ℕ) (seq : RunningSeq)
    → get_elem? two_running.running k ≡ some seq
    → (seq.table ≡ three_tokens) × (seq.prompt ≡ [])
same_table zero seq h = (ground (arith, h), ground (arith, h))
same_table (suc zero) seq h = (ground (arith, h), ground (arith, h))
same_table (suc (suc k)) seq h = ground (arith, h)

pub two_running-IsSound : IsSound two_running
two_running-IsSound = record {
  valid = drained-Owns.valid;
  counts = λ i h. ground arith;
  within = λ i h. ground arith;
  seqs = λ k seq h. let (e, p) = same_table k seq h in three_tokens_fits seq p e;
  pending = λ k p h. ground (arith, h);
  ordered = record { positive = omega arith; parents = λ i e k h. ground (arith, h) };
  positive = omega arith;
  capacity = omega arith;
  limit = omega arith;
  batch = omega arith;
}

abbrev pub mid_step : Stepping
mid_step = record {
  scheduler = two_running;
  outcome = record { admitted = []; prefills = []; decoded = []; preempted = []; finished = [] };
}

-- Over the pool with a cached block: a sequence of two tokens runs, and one that begins with the
-- cached greeting waits.
abbrev pub short : BlockTable
short = record { blocks = 0 ∷ []; num_tokens = 2; block_size = 2 }

abbrev pub greeter : PendingSeq
greeter = record { id = 9; context_len = 3; max_new_tokens = 4; prompt = 7 ∷ 8 ∷ 9 ∷ [] }

abbrev pub waiting_step : Stepping
waiting_step = record {
  scheduler = record {
    allocator = caching_pool;
    block_size = 2;
    max_batch_size = 2;
    waiting = greeter ∷ [];
    running = record writer { table = short } ∷ [];
  };
  outcome = record { admitted = []; prefills = []; decoded = []; preempted = []; finished = [] };
}

short_only :
    (k : ℕ) (seq : RunningSeq)
    → get_elem? waiting_step.scheduler.running k ≡ some seq
    → (seq.table ≡ short) × (seq.prompt ≡ [])
short_only zero seq h = (ground (arith, h), ground (arith, h))
short_only (suc k) seq h = ground (arith, h)

short-Fits : Fits short
short-Fits = record { positive = omega arith; blocks = refl }

short_fits : (seq : RunningSeq) → seq.prompt ≡ [] → seq.table ≡ short → SeqFits 2 seq
short_fits seq p e = record {
  fits = subst Fits (sym e) short-Fits;
  size = ground (arith, e);
  once = λ i. ground (arith, e);
  prompt = ground (arith, p);
}

greeter_only :
    (k : ℕ) (p : PendingSeq) → get_elem? waiting_step.scheduler.waiting k ≡ some p → PendingFits p
greeter_only zero p h = record { prompt = ground (arith, h); small = ground (arith, h) }
greeter_only (suc k) p h = ground (arith, h)

pub waiting_step-IsSound : IsSound waiting_step.scheduler
waiting_step-IsSound = record {
  valid = (1 ∷ [], caching_pool-Inv);
  counts = λ i h. ground arith;
  within = λ i h. ground arith;
  seqs = λ k seq h. let (e, p) = short_only k seq h in short_fits seq p e;
  pending = λ k p h. greeter_only k p h;
  ordered = caching_pool-Ordered;
  positive = omega arith;
  capacity = omega arith;
  limit = omega arith;
  batch = omega arith;
}

abbrev pub hit_greeting : PrefixMatch
hit_greeting = record { blocks = 1 ∷ []; last_entry = 1; evictable = 1 }

pub hit_greeting-Matched : Matched caching_pool hit_greeting
unfolding PrefixCache.new
hit_greeting-Matched = record {
  reusable = (omega arith, refl, tt);
  unowned = refl;
  chained = λ w. (((1, greeting, refl, omega arith), tt), ground arith, λ i. ground arith);
}

pub greeter_fits : can_admit waiting_step.scheduler greeter hit_greeting 0 ≡ true
unfolding Lru.new
greeter_fits = refl

pub waiting_ids : HasRoom waiting_step.scheduler
unfolding PrefixCache.new
waiting_ids = (omega arith, (omega arith, tt))
