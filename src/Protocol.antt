-- ===== src/Protocol.antt =====
-- crates/paged-kv-server/src/protocol.rs: the messages between a dashboard and its session. The text
-- of a message is a constructor with the values that it shows.
use paged_kv_cache.Prelude.{ℕ, Bool, Option, List}
use paged_kv_cache.Error.{CacheError}

pub data Origin : Type 0 where
  from_traffic : Origin
  from_user : Origin

pub record PoolConfig : Type 0 where
  pub num_blocks : ℕ
  pub block_size : ℕ
  pub max_batch_size : ℕ
  pub max_waiting : ℕ
  pub tick_ms : ℕ
  pub system_prompts : List ℕ

pub record SequenceView : Type 0 where
  pub id : ℕ
  pub parent : Option ℕ
  pub origin : Origin
  pub system_prompt : Option ℕ
  pub cached_tokens : ℕ
  pub tokens : ℕ
  pub generated : ℕ
  pub max_new_tokens : ℕ
  pub blocks : List ℕ

pub record WaitingView : Type 0 where
  pub id : ℕ
  pub parent : Option ℕ
  pub origin : Origin
  pub system_prompt : Option ℕ
  pub context_len : ℕ
  pub max_new_tokens : ℕ
  pub preempted : Bool

pub record Metrics : Type 0 where
  pub tick : ℕ
  pub used_blocks : ℕ
  pub shared_blocks : ℕ
  pub evictable_blocks : ℕ
  pub running : ℕ
  pub waiting : ℕ

pub record Totals : Type 0 where
  pub submitted : ℕ
  pub admitted : ℕ
  pub finished : ℕ
  pub preempted : ℕ
  pub forks : ℕ
  pub cow_copies : ℕ
  pub tokens_generated : ℕ
  pub prompt_tokens_cached : ℕ
  pub prompt_tokens_computed : ℕ
  pub cache_evictions : ℕ

abbrev pub no_totals : Totals
no_totals = record {
  submitted = 0;
  admitted = 0;
  finished = 0;
  preempted = 0;
  forks = 0;
  cow_copies = 0;
  tokens_generated = 0;
  prompt_tokens_cached = 0;
  prompt_tokens_computed = 0;
  cache_evictions = 0;
}

pub record Snapshot : Type 0 where
  pub tick : ℕ
  pub paused : Bool
  pub traffic : Bool
  pub prefix_caching : Bool
  pub ref_counts : List ℕ
  pub cached_blocks : List ℕ
  pub running : List SequenceView
  pub waiting : List WaitingView
  pub metrics : Metrics
  pub totals : Totals

pub data EventKind : Type 0 where
  submitted : Origin → Option ℕ → ℕ → ℕ → EventKind
  forked : ℕ → EventKind
  admitted : ℕ → ℕ → EventKind
  cow : ℕ → ℕ → EventKind
  preempted : EventKind
  finished : EventKind

pub record Event : Type 0 where
  pub tick : ℕ
  pub seq_id : ℕ
  pub kind : EventKind

-- Why a command is rejected.
pub data Message : Type 0 where
  no_prompt : Message
  no_new_tokens : Message
  no_system_prompt : ℕ → Message
  too_long : ℕ → ℕ → Message
  queue_full : ℕ → Message
  still_waiting : ℕ → Message
  not_running : ℕ → Message
  nothing_left : ℕ → Message
  full_batch : ℕ → Message
  not_paused : Message
  refused : CacheError → Message
  scheduler_failed : CacheError → Message

pub data CommandResult : Type 0 where
  done : Option ℕ → CommandResult
  rejected : Message → CommandResult

pub data Command : Type 0 where
  add_request : Option ℕ → ℕ → ℕ → Command
  fork : ℕ → Command
  pause : Command
  resume : Command
  step : Command
  reset : Command
  set_traffic : Bool → Command
  set_prefix_caching : Bool → Command

pub record ClientMessage : Type 0 where
  pub id : ℕ
  pub command : Command

pub data ServerMessage : Type 0 where
  init : PoolConfig → Snapshot → List Metrics → List Event → ServerMessage
  tick : Snapshot → List Event → ServerMessage
  state : Snapshot → List Event → ServerMessage
  ack : ℕ → CommandResult → ServerMessage
