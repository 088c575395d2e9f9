-- ===== src/Simulation/Session.antt =====
-- The ticks and the commands of the session of sim.rs: `new`, `advance`, `handle` and `restart`.
use paged_kv_cache.Prelude.{
  ◌-◌, ℕ, zero, suc, ◌+◌, ◌*◌, ◌%◌, ◌^◌, true, false, none, some, List, [], ◌∷◌, ◌++◌,
  if◌then◌else◌, length, min,
}
use paged_kv_cache.Outcome.{M, Outcome, ok, and_then, ◌>>=◌, ◌>>◌, pure, get, put}
use paged_kv_cache.Config.{CacheConfig}
use paged_kv_cache.Error.{CacheError}
use paged_kv_cache.Protocol.{
  from_user, no_totals, Event, admitted, cow, preempted, finished, Message, not_paused,
  scheduler_failed, done, rejected, Command, add_request, fork, pause, resume, step, reset,
  set_traffic, set_prefix_caching, ClientMessage, ServerMessage, tick, ack,
}
use paged_kv_cache.Scheduler.{Scheduler, new as scheduler_new, with_prefix_caching}
use paged_kv_cache.Scheduler.Step.{Prefill, DecodedToken, StepOutcome, step as scheduler_step}
use paged_kv_cache.Scheduler.Snapshot.{cache_stats}
use paged_kv_cache.Simulation.{
  SimConfig, Simulation, Rng, Attempt, failed, returned, history_len, count, seq_u32, add_u32,
  bit_or, attempt, push_bounded, on_scheduler, log, set_meta,
}
use paged_kv_cache.Simulation.Views.{metrics, snapshot, init_message, state_message}
use paged_kv_cache.Simulation.Requests.{submit, generate_traffic}
use paged_kv_cache.Simulation.Requests

abbrev pub cache_config : SimConfig → CacheConfig
cache_config c = record {
  num_blocks = c.num_blocks;
  block_size = c.block_size;
  num_kv_heads = 1;
  head_dim = 1;
  num_layers = 1;
  dtype_bytes = 4;
}

abbrev pub scheduler_for : SimConfig → Scheduler
scheduler_for c =
    if c.prefix_caching
    then with_prefix_caching (cache_config c) c.max_batch_size
    else scheduler_new (cache_config c) c.max_batch_size

-- `((i + 1) << 24) | t` for the tokens of system prompt `i`, from token `t` on.
abbrev pub prompt_tokens : ℕ → ℕ → ℕ → List ℕ
prompt_tokens i t zero = []
prompt_tokens i t (suc n) =
    bit_or 32 ((i + 1) % 2 ^ 32 * 2 ^ 24 % 2 ^ 32) t ∷ prompt_tokens i (t + 1) n

abbrev pub prompts_from : ℕ → List ℕ → List (List ℕ)
prompts_from i [] = []
prompts_from i (len ∷ lens) = prompt_tokens i 0 (len % 2 ^ 32) ∷ prompts_from (i + 1) lens

module _ {R : Type 0} where
  abbrev pub push_history : M (Simulation R) (Unit {0})
  push_history = do
    first ← metrics
    s ← get
    put (record s { history = push_bounded history_len s.history first })

  -- The loop over `outcome.prefills`, and the events that it adds.
  unfoldable pub record_prefills : List Prefill → M (Simulation R) (List Event)
  record_prefills [] = pure []
  record_prefills (p ∷ ps) = do
    s ← get
    id ← seq_u32 p.id
    let totals = s.totals
    put (record s {
      totals = record totals {
        prompt_tokens_cached = add_u32 totals.prompt_tokens_cached (count p.cached_tokens);
        prompt_tokens_computed = add_u32 totals.prompt_tokens_computed (count p.computed_tokens);
      };
    })
    es ← record_prefills ps
    pure (
        record {
          tick = s.tick;
          seq_id = id;
          kind = admitted (count p.cached_tokens) (count p.computed_tokens);
        }
        ∷ es)

  unfoldable pub record_decoded : List DecodedToken → M (Simulation R) (List Event)
  record_decoded [] = pure []
  record_decoded (d ∷ ds) = elim d.cow [
    | none ↦ record_decoded ds
    | some c ↦ do
      s ← get
      id ← seq_u32 d.id
      let totals = s.totals
      put (record s { totals = record totals { cow_copies = add_u32 totals.cow_copies 1 } })
      es ← record_decoded ds
      pure (record { tick = s.tick; seq_id = id; kind = cow c.src c.dst } ∷ es)
  ]

  -- The entry of a sequence that yields, if it is known.
  abbrev pub mark_preempted : ℕ → Simulation R → Simulation R
  mark_preempted id s = elim (s.meta id) [
    | none ↦ s
    | some m ↦ set_meta id (some (record m { preempted = true })) s
  ]

  unfoldable pub record_preempted : List ℕ → M (Simulation R) (List Event)
  record_preempted [] = pure []
  record_preempted (x ∷ xs) = do
    s ← get
    id ← seq_u32 x
    put (mark_preempted id s)
    es ← record_preempted xs
    pure (record { tick = s.tick; seq_id = id; kind = preempted } ∷ es)

  unfoldable pub record_finished : List ℕ → M (Simulation R) (List Event)
  record_finished [] = pure []
  record_finished (x ∷ xs) = do
    s ← get
    id ← seq_u32 x
    put (set_meta id none s)
    es ← record_finished xs
    pure (record { tick = s.tick; seq_id = id; kind = finished } ∷ es)

  -- The sums at the end of `record_step`.
  abbrev pub total_up : StepOutcome → Simulation R → Simulation R
  total_up o s =
      let totals = s.totals in
      record s {
        totals = record totals {
          admitted = add_u32 totals.admitted (count (length o.admitted));
          preempted = add_u32 totals.preempted (count (length o.preempted));
          finished = add_u32 totals.finished (count (length o.finished));
          tokens_generated = add_u32 totals.tokens_generated (count (length o.decoded));
          cache_evictions = count (cache_stats s.scheduler).evictions;
        };
      }

  unfoldable pub record_step : StepOutcome → M (Simulation R) (List Event)
  record_step o = do
    prefills ← record_prefills o.prefills
    copies ← record_decoded o.decoded
    yields ← record_preempted o.preempted
    ends ← record_finished o.finished
    s ← get
    put (total_up o s)
    pure (prefills ++ copies ++ yields ++ ends)

module _ {R : Type 0} (rng : Rng R) where
  abbrev fresh : SimConfig → R → Simulation R
  fresh config r = record {
    config = config;
    scheduler = scheduler_for config;
    rng = r;
    tick = 0;
    paused = false;
    traffic = true;
    next_id = 1;
    next_token = 1;
    system_prompts = prompts_from 0 config.system_prompts;
    meta = λ _. none;
    totals = no_totals;
    history = [];
    events = [];
  }

  -- The session that is made, as the state that is left.
  unfoldable pub new : SimConfig → ℕ → Outcome (Simulation R) (Unit {0})
  new config seed = push_history (fresh config (rng.seed_from seed))

  unfoldable pub advance : M (Simulation R) ServerMessage
  advance = do
    s ← get
    put (record s { tick = min (s.tick + 1) (2 ^ 32 - 1) })
    requests ← (if s.traffic then generate_traffic rng else pure [])
    outcome ← on_scheduler scheduler_step
    steps ← record_step outcome
    push_history
    log (requests ++ steps)
    shown ← snapshot
    pure (tick shown (requests ++ steps))

  -- The new session keeps nothing of the old one but the controls.
  abbrev controls_kept : Simulation R → M (Simulation R) (Unit {0})
  controls_kept s t = ok tt (record t { paused = s.paused; traffic = s.traffic })

  unfoldable pub restart : M (Simulation R) (Unit {0})
  restart s = and_then (new s.config (rng.gen s.rng).0) (λ _. controls_kept s)

  -- An answer with the state, for a command that made sequence `seq_id`.
  abbrev pub answer : ℕ → Attempt Message Event → M (Simulation R) (List ServerMessage)
  answer id (failed m) = pure (ack id (rejected m) ∷ [])
  answer id (returned e) = do
    shown ← state_message (e ∷ [])
    pure (ack id (done (some e.seq_id)) ∷ shown ∷ [])

  abbrev pub answer_state : ℕ → M (Simulation R) (List ServerMessage)
  answer_state id = do shown ← state_message []; pure (ack id (done none) ∷ shown ∷ [])

  abbrev pub answer_init : ℕ → M (Simulation R) (List ServerMessage)
  answer_init id = do restart; shown ← init_message; pure (ack id (done none) ∷ shown ∷ [])

  abbrev pub answer_step :
      ℕ → Attempt CacheError ServerMessage → M (Simulation R) (List ServerMessage)
  answer_step id (failed e) = pure (ack id (rejected (scheduler_failed e)) ∷ [])
  answer_step id (returned m) = pure (ack id (done none) ∷ m ∷ [])

  unfoldable pub handle_command : ℕ → Command → M (Simulation R) (List ServerMessage)
  handle_command id (add_request system_prompt prompt_len max_new_tokens) = do
    r ← submit from_user system_prompt prompt_len max_new_tokens
    answer id r
  handle_command id (fork seq_id) = do r ← Requests.fork seq_id from_user; answer id r
  handle_command id pause = do s ← get; put (record s { paused = true }); answer_state id
  handle_command id resume = do s ← get; put (record s { paused = false }); answer_state id
  handle_command id step = do
    s ← get
    if s.paused
        then (do r ← attempt advance; answer_step id r)
        else pure (ack id (rejected not_paused) ∷ [])
  handle_command id reset = answer_init id
  handle_command id (set_traffic enabled) = do
    s ← get
    put (record s { traffic = enabled })
    answer_state id
  handle_command id (set_prefix_caching enabled) = do
    s ← get
    let config = s.config
    put (record s { config = record config { prefix_caching = enabled } })
    answer_init id

  abbrev pub handle : ClientMessage → M (Simulation R) (List ServerMessage)
  handle msg = handle_command msg.id msg.command
