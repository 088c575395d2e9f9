-- ===== src/Simulation/Views.antt =====
-- What the session of sim.rs shows of its state.
use paged_kv_cache.Prelude.{Bool, List, [], ◌∷◌, ltb, if◌then◌else◌, length, map}
use paged_kv_cache.Outcome.{M, ◌>>=◌, ◌>>◌, pure, get}
use paged_kv_cache.Protocol.{
  PoolConfig, SequenceView, WaitingView, Metrics, Snapshot, ServerMessage, init, state, Event,
}
use paged_kv_cache.Scheduler.Snapshot.{
  BlockInfo, RunningInfo, WaitingInfo, num_waiting, num_running, prefix_caching, cache_stats,
  block_snapshot, running_snapshot, waiting_snapshot,
}
use paged_kv_cache.Simulation.{Simulation, count, seq_u32, on_scheduler, meta_of, log}

-- `filter` of an iterator.
abbrev pub keep : {A : Type 0} → (A → Bool) → List A → List A
keep p [] = []
keep p (x ∷ xs) = if p x then x ∷ keep p xs else keep p xs

module _ {R : Type 0} where
  abbrev pub pool_config : Simulation R → PoolConfig
  pool_config s = record {
    num_blocks = count s.config.num_blocks;
    block_size = count s.config.block_size;
    max_batch_size = count s.config.max_batch_size;
    max_waiting = count s.config.max_waiting;
    tick_ms = count s.config.tick_ms;
    system_prompts = map (λ p. count (length p)) s.system_prompts;
  }

  abbrev pub metrics_of : Simulation R → List BlockInfo → Metrics
  metrics_of s blocks = record {
    tick = s.tick;
    used_blocks = count (length (keep (λ b. ltb 0 b.ref_count) blocks));
    shared_blocks = count (length (keep (λ b. ltb 1 b.ref_count) blocks));
    evictable_blocks = count (cache_stats s.scheduler).evictable_blocks;
    running = count (num_running s.scheduler);
    waiting = count (num_waiting s.scheduler);
  }

  unfoldable pub metrics : M (Simulation R) Metrics
  metrics = do s ← get; blocks ← on_scheduler block_snapshot; pure (metrics_of s blocks)

  unfoldable pub sequence_view : RunningInfo → M (Simulation R) SequenceView
  sequence_view r = do
    s ← get
    id ← seq_u32 r.id
    let meta = meta_of s id
    pure (record {
      id = id;
      parent = meta.parent;
      origin = meta.origin;
      system_prompt = meta.system_prompt;
      cached_tokens = count r.cached_tokens;
      tokens = count r.tokens;
      generated = count r.generated;
      max_new_tokens = count r.max_new_tokens;
      blocks = r.blocks;
    })

  unfoldable pub waiting_view : WaitingInfo → M (Simulation R) WaitingView
  waiting_view w = do
    s ← get
    id ← seq_u32 w.id
    let meta = meta_of s id
    pure (record {
      id = id;
      parent = meta.parent;
      origin = meta.origin;
      system_prompt = meta.system_prompt;
      context_len = count w.context_len;
      max_new_tokens = count w.max_new_tokens;
      preempted = meta.preempted;
    })

  -- `map` of an iterator by a function that can panic.
  abbrev pub collect :
      {A B : Type 0} → (A → M (Simulation R) B) → List A → M (Simulation R) (List B)
  collect f [] = pure []
  collect f (x ∷ xs) = do y ← f x; ys ← collect f xs; pure (y ∷ ys)

  unfoldable pub snapshot : M (Simulation R) Snapshot
  snapshot = do
    s ← get
    running ← collect sequence_view (running_snapshot s.scheduler)
    waiting ← collect waiting_view (waiting_snapshot s.scheduler)
    blocks ← on_scheduler block_snapshot
    m ← metrics
    pure (record {
      tick = s.tick;
      paused = s.paused;
      traffic = s.traffic;
      prefix_caching = prefix_caching s.scheduler;
      ref_counts = map (λ b. b.ref_count) blocks;
      cached_blocks = map (λ b. b.id) (keep (λ b. b.cached) blocks);
      running = running;
      waiting = waiting;
      metrics = m;
      totals = s.totals;
    })

  unfoldable pub init_message : M (Simulation R) ServerMessage
  init_message = do s ← get; shown ← snapshot; pure (init (pool_config s) shown s.history s.events)

  unfoldable pub state_message : List Event → M (Simulation R) ServerMessage
  state_message events = do log events; shown ← snapshot; pure (state shown events)
