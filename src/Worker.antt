-- ===== src/Worker.antt =====
-- crates/paged-kv-serve/src/worker.rs: the thread that owns the engine and serves requests, with what
-- metrics.rs of that crate counts. Times are left out. A channel is the number of its client; what is
-- sent is kept in order, and which clients have gone is a parameter.
pub mod Served
pub mod Requests
use paged_kv_cache.Prelude.{
  ℕ, ◌+◌, ◌%◌, ◌^◌, Bool, true, false, not, Option, none, some, List, [], ◌∷◌, ◌++◌, ◌==◌,
  if◌then◌else◌, length,
}
use paged_kv_cache.Scheduler.{usize_sub}
use paged_kv_cache.Fallible.{Error, Result, done, failed, panicked, F, ◌>>=◌, ◌>>◌, pure, get, put}
use paged_kv_cache.Engine.{
  Engine, EngineStats, StepOutput, Finished, no_stats, find, erase, insert, contains, add_request,
  cancel,
}

pub data FinishReason : Type 0 where
  stop : FinishReason
  length_reached : FinishReason

pub data Event : Type 0 where
  token_event : ℕ → Event
  done_event : FinishReason → Event
  failed_event : Error → Event

pub record Submit : Type 0 where
  pub prompt : List ℕ
  pub max_tokens : ℕ
  pub events : ℕ

-- The counters of `Metrics`: requests by status, and what the engine has done.
pub record Metrics : Type 0 where
  pub finished : ℕ
  pub cancelled : ℕ
  pub error : ℕ
  pub prefill_computed : ℕ
  pub prefill_cached : ℕ
  pub generated : ℕ
  pub preemptions : ℕ

-- A counter of 64 bits.
abbrev pub inc_by : ℕ → ℕ → ℕ
inc_by n counter = (counter + n) % 2 ^ 64

pub record Worker (B : Type 0) : Type 0 where
  pub engine : Engine B
  pub stop_tokens : List ℕ
  pub metrics : Metrics
  pub live : List (ℕ × ℕ)
  pub next_id : ℕ
  pub seen : EngineStats
  pub sent : List (ℕ × Event)

abbrev pub finish : Metrics → Metrics
finish m = record m { finished = inc_by 1 m.finished }

abbrev pub count_cancelled : Metrics → Metrics
count_cancelled m = record m { cancelled = inc_by 1 m.cancelled }

abbrev pub count_error : Metrics → Metrics
count_error m = record m { error = inc_by 1 m.error }

-- The live requests whose client has gone.
abbrev pub ids_closed : (ℕ → Bool) → List (ℕ × ℕ) → List ℕ
ids_closed is_closed [] = []
ids_closed is_closed ((id, client) ∷ live) =
    if is_closed client then id ∷ ids_closed is_closed live else ids_closed is_closed live

-- Whether the last of these tokens is a stop token.
abbrev pub stopped : List ℕ → List ℕ → Bool
stopped stops [] = false
stopped stops (t ∷ []) = contains t stops
stopped stops (t ∷ u ∷ us) = stopped stops (u ∷ us)

module _ {B : Type 0} where
  abbrev pub new : Engine B → List ℕ → Metrics → Worker B
  new engine stop_tokens metrics = record {
    engine = engine;
    stop_tokens = stop_tokens;
    metrics = metrics;
    live = [];
    next_id = 0;
    seen = no_stats;
    sent = [];
  }

  abbrev pub send : ℕ → Event → F (Worker B) (Unit {0})
  send client event w = done tt (record w { sent = w.sent ++ (client, event) ∷ [] })

  abbrev pub request_done : (Metrics → Metrics) → F (Worker B) (Unit {0})
  request_done f w = done tt (record w { metrics = f w.metrics })

  -- The match of `admit` on what the engine answers.
  abbrev pub answered :
      ℕ → ℕ → Worker B → Result (Engine B) (Unit {0}) → Result (Worker B) (Unit {0})
  answered id client w (done u e) =
      done tt (record w { engine = e; live = insert id client w.live })
  answered id client w (failed x e) =
      (do send client (failed_event x); request_done count_error) (record w { engine = e })
  answered id client w panicked = panicked

  unfoldable pub admit : Submit → F (Worker B) (Unit {0})
  admit submit w =
      let id = w.next_id in
      let next = record w { next_id = (id + 1) % 2 ^ 64 } in
      answered id submit.events next (add_request id submit.prompt submit.max_tokens w.engine)

  -- `self.engine.cancel(id)`, whose answer is dropped.
  abbrev pub forgotten : Worker B → Result (Engine B) Bool → Result (Worker B) (Unit {0})
  forgotten w (done known e) = done tt (record w { engine = e })
  forgotten w (failed x e) = failed x (record w { engine = e })
  forgotten w panicked = panicked

  abbrev pub forget : ℕ → F (Worker B) (Unit {0})
  forget id w = forgotten w (cancel id w.engine)

  unfoldable pub drop_all : List ℕ → F (Worker B) (Unit {0})
  drop_all [] = pure tt
  drop_all (id ∷ ids) = do
    w ← get
    put (record w { live = erase id w.live })
    forget id
    request_done count_cancelled
    drop_all ids

  abbrev pub drop_disconnected : (ℕ → Bool) → F (Worker B) (Unit {0})
  drop_disconnected is_closed = do w ← get; drop_all (ids_closed is_closed w.live)

  -- The loop over the live requests after a failed step of the engine.
  unfoldable pub fail_all : Error → List (ℕ × ℕ) → F (Worker B) (Unit {0})
  fail_all x [] = pure tt
  fail_all x ((id, client) ∷ live) = do
    send client (failed_event x)
    forget id
    request_done count_error
    fail_all x live

  -- The loop over the sampled tokens.
  unfoldable pub send_tokens : List (ℕ × ℕ) → F (Worker B) (Unit {0})
  send_tokens [] = pure tt
  send_tokens ((id, token) ∷ sampled) = do
    w ← get
    elim (find id w.live) [
      | none ↦ pure tt
      | some client ↦
          if contains token w.stop_tokens then pure tt else send client (token_event token)
    ]
    send_tokens sampled

  -- The loop over the finished requests.
  unfoldable pub finish_all : List Finished → F (Worker B) (Unit {0})
  finish_all [] = pure tt
  finish_all (f ∷ fs) = do
    w ← get
    elim (find f.id w.live) [
      | none ↦ pure tt
      | some client ↦ do
        put (record w { live = erase f.id w.live })
        send client (done_event (if stopped w.stop_tokens f.tokens then stop else length_reached))
        request_done finish
    ]
    finish_all fs

  -- `Metrics::engine`, as far as it counts: what the engine has done since the last call.
  abbrev pub publish : F (Worker B) (Unit {0})
  publish = do
    w ← get
    let now = w.engine.stats
    let seen = w.seen
    let m = w.metrics
    put (record w {
      seen = now;
      metrics = record m {
        prefill_computed =
            inc_by (usize_sub now.prefill_tokens_computed seen.prefill_tokens_computed)
              m.prefill_computed;
        prefill_cached =
            inc_by (usize_sub now.prefill_tokens_cached seen.prefill_tokens_cached)
              m.prefill_cached;
        generated = inc_by (usize_sub now.tokens_generated seen.tokens_generated) m.generated;
        preemptions = inc_by (usize_sub now.preemptions seen.preemptions) m.preemptions;
      };
    })

  unfoldable pub admit_all : List Submit → F (Worker B) (Unit {0})
  admit_all [] = pure tt
  admit_all (submit ∷ submits) = do admit submit; admit_all submits

  module _ (engine_step : F (Engine B) StepOutput) where
    -- The match of `step` on what the engine did.
    abbrev pub stepped : Worker B → Result (Engine B) StepOutput → Result (Worker B) (Unit {0})
    stepped w (done out e) =
        (do send_tokens out.sampled; finish_all out.finished) (record w { engine = e })
    stepped w (failed x e) = fail_all x w.live (record w { engine = e; live = [] })
    stepped w panicked = panicked

    unfoldable pub step : F (Worker B) (Unit {0})
    step w = stepped w (engine_step w.engine)

    -- A round of `run`, for the requests that arrived before it and the clients that have gone.
    unfoldable pub round : (ℕ → Bool) → List Submit → F (Worker B) (Unit {0})
    round is_closed submits = do
      admit_all submits
      drop_disconnected is_closed
      w ← get
      if length w.live == 0 then pure tt else step
      publish
