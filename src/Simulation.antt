-- ===== src/Simulation.antt =====
-- crates/paged-kv-server/src/sim.rs: one dashboard session, a scheduler that is driven by traffic and
-- by commands. The random numbers are a parameter; `u32` sums wrap, as in a release build, where the
-- source does not say otherwise. Simulation/Views
-- has what it shows, Simulation/Requests the traffic, Simulation/Session the ticks and commands.
pub mod Views
pub mod Requests
pub mod Session
pub mod Log
pub mod Queued
pub mod Forks
use paged_kv_cache.Prelude.{
  ℕ, zero, suc, ◌+◌, ◌-◌, ◌*◌, ◌/◌, ◌%◌, ◌^◌, Bool, true, false, Option, none, some, List, [], ◌∷◌,
  ◌++◌, ◌==◌, ltb, if◌then◌else◌, length, drop, min, arith, ◌||◌,
}
use paged_kv_cache.Error.{CacheError}
use paged_kv_cache.Outcome.{M, Outcome, ok, err, panic, on, pure, expect, ◌>>=◌}
use paged_kv_cache.Config.{CacheConfig}
use paged_kv_cache.Protocol.{Origin, from_traffic, Message, Totals, Metrics, Event}
use paged_kv_cache.Scheduler.{Scheduler}

pub record SimConfig : Type 0 where
  pub num_blocks : ℕ
  pub block_size : ℕ
  pub max_batch_size : ℕ
  pub max_waiting : ℕ
  pub tick_ms : ℕ
  pub prefix_caching : Bool
  pub system_prompts : List ℕ

abbrev pub default_config : SimConfig
default_config = record {
  num_blocks = 64;
  block_size = 8;
  max_batch_size = 6;
  max_waiting = 24;
  tick_ms = 400;
  prefix_caching = true;
  system_prompts = 40 ∷ 56 ∷ 24 ∷ [];
}

abbrev pub capacity_tokens : SimConfig → ℕ
capacity_tokens c = c.num_blocks * c.block_size

pub record SeqMeta : Type 0 where
  pub parent : Option ℕ
  pub origin : Origin
  pub system_prompt : Option ℕ
  pub preempted : Bool

-- The session, with `R` for the state of the random numbers. The map `meta` is a function.
pub record Simulation (R : Type 0) : Type 0 where
  pub config : SimConfig
  pub scheduler : Scheduler
  pub rng : R
  pub tick : ℕ
  pub paused : Bool
  pub traffic : Bool
  pub next_id : ℕ
  pub next_token : ℕ
  pub system_prompts : List (List ℕ)
  pub meta : ℕ → Option SeqMeta
  pub totals : Totals
  pub history : List Metrics
  pub events : List Event

-- What the session uses of `StdRng`: a `u64`, and a number from a range that excludes its end.
pub record Rng (R : Type 0) : Type 0 where
  pub seed_from : ℕ → R
  pub gen : R → ℕ × R
  pub gen_range : ℕ → ℕ → R → ℕ × R

abbrev pub history_len : ℕ
history_len = 150

abbrev pub event_log_len : ℕ
event_log_len = 200

-- `u32::try_from(n).unwrap_or(u32::MAX)`
abbrev pub count : ℕ → ℕ
count n = min n (2 ^ 32 - 1)

abbrev pub seq_u32 : {S : Type 0} → ℕ → M S ℕ
seq_u32 id = expect (if ltb id (2 ^ 32) then some id else none)

-- A sum of `u32`s.
abbrev pub add_u32 : ℕ → ℕ → ℕ
add_u32 a b = (a + b) % 2 ^ 32

-- `a | b` of numbers of `n` bits.
unfoldable pub bit_or : ℕ → ℕ → ℕ → ℕ
bit_or zero a b = 0
bit_or (suc n) a b = (if (a % 2 == 1) || (b % 2 == 1) then 1 else 0) + 2 * bit_or n (a / 2) (b / 2)

-- What a fallible call returned, as a value.
pub data Attempt (E A : Type 0) : Type 0 where
  failed : E → Attempt E A
  returned : A → Attempt E A

abbrev caught : {S A : Type 0} → Outcome S A → Outcome S (Attempt CacheError A)
caught (ok a s) = ok (returned a) s
caught (err e s) = ok (failed e) s
caught panic = panic

abbrev pub attempt : {S A : Type 0} → M S A → M S (Attempt CacheError A)
attempt m s = caught (m s)

abbrev pub refuse : {S A : Type 0} → Message → M S (Attempt Message A)
refuse m = pure (failed m)

-- A queue that drops its oldest element when it is full.
abbrev pub push_bounded : {A : Type 0} → ℕ → List A → A → List A
push_bounded n xs x = (if length xs == n then drop 1 xs else xs) ++ x ∷ []

-- The loop of `log`.
unfoldable pub log_events : List Event → List Event → List Event
log_events log [] = log
log_events log (e ∷ es) = log_events (push_bounded event_log_len log e) es

abbrev no_meta : SeqMeta
no_meta = record { parent = none; origin = from_traffic; system_prompt = none; preempted = false }

module _ {R : Type 0} where
  abbrev pub on_scheduler : {A : Type 0} → M Scheduler A → M (Simulation R) A
  on_scheduler = on (λ s. s.scheduler) (λ s t. record s { scheduler = t })

  abbrev pub log : List Event → M (Simulation R) (Unit {0})
  log es s = ok tt (record s { events = log_events s.events es })

  -- What is known of a sequence.
  abbrev pub meta_of : Simulation R → ℕ → SeqMeta
  meta_of s id = elim (s.meta id) [ none ↦ no_meta | some m ↦ m ]

  -- The map after `insert` or `remove`.
  abbrev pub set_meta : ℕ → Option SeqMeta → Simulation R → Simulation R
  set_meta id m s = record s { meta = λ i. if i == id then m else s.meta i }
