-- ===== src/Tests/Sessions.antt =====
-- The theorems on the session of sim.rs at a small session, with a number for the state of the
-- random numbers.
use paged_kv_cache.Prelude.{ℕ, ◌++◌, ◌≤◌, ◌≡◌, refl, none, true, false, [], ◌∷◌, length, arith}
use paged_kv_cache.Outcome.{Returns}
use paged_kv_cache.Protocol.{Event, from_user, finished, preempted, no_totals}
use paged_kv_cache.Simulation.{Simulation, event_log_len, log_events}
use paged_kv_cache.Simulation.Requests.{submit, fork}
use paged_kv_cache.Simulation.Log.{newest, log_events-newest}
use paged_kv_cache.Simulation.Queued.{IsLive, Answered, submit-Answered}
use paged_kv_cache.Simulation.Forks.{Split, fork-Split}
use paged_kv_cache.Tests.Schedulers.{waiting_step, waiting_step-IsSound}

abbrev session : Simulation ℕ
session = record {
  config = record {
    num_blocks = 3;
    block_size = 2;
    max_batch_size = 2;
    max_waiting = 4;
    tick_ms = 400;
    prefix_caching = true;
    system_prompts = [];
  };
  scheduler = waiting_step.scheduler;
  rng = 0;
  tick = 7;
  paused = false;
  traffic = true;
  next_id = 10;
  next_token = 20;
  system_prompts = [];
  meta = λ _. none;
  totals = no_totals;
  history = [];
  events = [];
}

session-IsLive : IsLive session
session-IsLive = record { sound = waiting_step-IsSound; blocks = refl; size = refl }

submit-Answered_example :
    Returns (λ r t. Answered session none 2 2 r t) (submit from_user none 2 2 session)
submit-Answered_example = submit-Answered session session-IsLive from_user none 2 2

fork-Split_example : Returns (λ r t. Split session 5 r t) (fork 5 from_user session)
fork-Split_example = fork-Split session session-IsLive 5 from_user

abbrev yielded_event : Event
yielded_event = record { tick = 7; seq_id = 5; kind = preempted }

abbrev finished_event : Event
finished_event = record { tick = 7; seq_id = 6; kind = finished }

log_events-newest_example :
    (log_events (yielded_event ∷ []) (finished_event ∷ [])
      ≡ newest event_log_len ((yielded_event ∷ []) ++ (finished_event ∷ [])))
    × (length (log_events (yielded_event ∷ []) (finished_event ∷ [])) ≤ event_log_len)
log_events-newest_example =
    log_events-newest (yielded_event ∷ []) (finished_event ∷ []) (omega arith)
