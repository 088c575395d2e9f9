-- ===== src/Engine.antt =====
-- crates/paged-kv-model/src/engine.rs: greedy generation driven by the scheduler. The model's forward
-- pass with the choice of the tokens is a parameter; the map of the requests is a list of pairs, and
-- a sum of `usize`s wraps, as in a release build.
pub mod Requests
pub mod Alive
pub mod Sampling
pub mod Token
pub mod Batch
pub mod Generate
pub mod Calls
pub mod Cancel
use paged_kv_cache.Prelude.{
  ℕ, ◌+◌, ◌%◌, ◌^◌, Bool, true, false, not, ◌||◌, Option, none, some, List, [], ◌∷◌, ◌++◌, map,
  ◌==◌, ltb, leb, is_some, if◌then◌else◌, length, drop,
}
use paged_kv_cache.Outcome.{M, Outcome, ok, err, panic}
use paged_kv_cache.Config.{CacheConfig}
use paged_kv_cache.BlockTable.{CowCopy}
use paged_kv_cache.Scheduler.{
  Scheduler, new as scheduler_new, with_prefix_caching, add_prompt, finish_sequence, usize_sub,
}
use paged_kv_cache.Scheduler.Step.{DecodedToken, Prefill, StepOutcome, step as scheduler_step}
use paged_kv_cache.Scheduler.Snapshot.{RunningInfo, running_snapshot}
use paged_kv_cache.Fallible.{
  F, Result, done, failed, panicked, scheduler_error, cache_error, empty_request, no_request,
  wrong_slots, ◌>>=◌, ◌>>◌, pure, get, put, bail_if, some_or, expect, call,
}
use paged_kv_cache.Model.{SeqInput}

pub record Request : Type 0 where
  -- Prompt, then every token sampled so far.
  pub tokens : List ℕ
  pub prompt_len : ℕ
  pub max_new_tokens : ℕ

pub record Finished : Type 0 where
  pub id : ℕ
  pub tokens : List ℕ

pub record StepOutput : Type 0 where
  pub sampled : List (ℕ × ℕ)
  pub finished : List Finished

pub record EngineStats : Type 0 where
  pub steps : ℕ
  pub prefill_tokens_computed : ℕ
  pub prefill_tokens_cached : ℕ
  pub preemptions : ℕ
  pub tokens_generated : ℕ

-- A `HashMap` by `SeqId`: `get`, `insert` and `remove`.
abbrev pub find : {A : Type 0} → ℕ → List (ℕ × A) → Option A
find id [] = none
find id ((i, r) ∷ rs) = if i == id then some r else find id rs

abbrev pub erase : {A : Type 0} → ℕ → List (ℕ × A) → List (ℕ × A)
erase id [] = []
erase id ((i, r) ∷ rs) = if i == id then erase id rs else (i, r) ∷ erase id rs

abbrev pub insert : {A : Type 0} → ℕ → A → List (ℕ × A) → List (ℕ × A)
insert id r rs = (id, r) ∷ erase id rs

-- The engine, with `B` for the state of the backend.
pub record Engine (B : Type 0) : Type 0 where
  pub cache : B
  pub scheduler : Scheduler
  pub requests : List (ℕ × Request)
  pub stop_tokens : List ℕ
  pub stats : EngineStats

abbrev pub no_stats : EngineStats
no_stats = record {
  steps = 0;
  prefill_tokens_computed = 0;
  prefill_tokens_cached = 0;
  preemptions = 0;
  tokens_generated = 0;
}

abbrev pub no_output : StepOutput
no_output = record { sampled = []; finished = [] }

-- `stop_tokens.contains(&token)`
abbrev pub contains : ℕ → List ℕ → Bool
contains x [] = false
contains x (y ∷ ys) = (y == x) || contains x ys

-- The pairs of the copies that the step asks for.
abbrev pub copies : List DecodedToken → List (ℕ × ℕ)
copies [] = []
copies (d ∷ ds) = elim d.cow [ none ↦ copies ds | some c ↦ (c.src, c.dst) ∷ copies ds ]

-- The map of the prefills by id: of two with one id it has the later.
abbrev pub prefill_of : ℕ → List Prefill → Option Prefill
prefill_of id [] = none
prefill_of id (p ∷ ps) = elim (prefill_of id ps) [
  | some q ↦ some q
  | none ↦ if p.id == id then some p else none
]

-- `&xs[start..]`
abbrev pub slice_from : ℕ → List ℕ → Option (List ℕ)
slice_from start xs = if ltb (length xs) start then none else some (drop start xs)

module _ {B : Type 0} where
  abbrev pub on_scheduler : {A : Type 0} → M Scheduler A → F (Engine B) A
  on_scheduler = call scheduler_error (λ e. e.scheduler) (λ e s. record e { scheduler = s })

  abbrev pub count_stats : (EngineStats → EngineStats) → F (Engine B) (Unit {0})
  count_stats f = do e ← get; put (record e { stats = f e.stats })

  abbrev pub new : (B → CacheConfig) → B → ℕ → Bool → Engine B
  new config cache max_batch_size prefix_caching = record {
    cache = cache;
    scheduler =
        if prefix_caching
        then with_prefix_caching (config cache) max_batch_size
        else scheduler_new (config cache) max_batch_size;
    requests = [];
    stop_tokens = [];
    stats = no_stats;
  }

  abbrev pub stop_at : List ℕ → Engine B → Engine B
  stop_at tokens e = record e { stop_tokens = tokens }

  unfoldable pub add_request : ℕ → List ℕ → ℕ → F (Engine B) (Unit {0})
  add_request id prompt max_new_tokens = do
    bail_if ((length prompt == 0) || (max_new_tokens == 0)) empty_request
    on_scheduler (add_prompt id prompt ((max_new_tokens + 1) % 2 ^ 64))
    e ← get
    put (record e {
      requests =
          insert id
            (record {
              prompt_len = length prompt;
              tokens = prompt;
              max_new_tokens = max_new_tokens;
            })
            e.requests;
    })

  abbrev pub is_idle : Engine B → Bool
  is_idle e = length e.requests == 0

  -- `is_ok` of a call of the scheduler.
  abbrev is_ok : {A : Type 0} → Engine B → Outcome Scheduler A → Result (Engine B) Bool
  is_ok e (ok a s) = done true (record e { scheduler = s })
  is_ok e (err x s) = done false (record e { scheduler = s })
  is_ok e panic = panicked

  unfoldable pub cancel : ℕ → F (Engine B) Bool
  cancel id e = elim (find id e.requests) [
    | none ↦ done false e
    | some r ↦ is_ok (record e { requests = erase id e.requests }) (finish_sequence id e.scheduler)
  ]

  -- Where the tokens of a running sequence start that the model has to compute.
  abbrev pub start_of : Option Prefill → Request → F (Engine B) ℕ
  start_of (some p) request = do
    count_stats (λ s. record s {
      prefill_tokens_cached = (s.prefill_tokens_cached + p.cached_tokens) % 2 ^ 64;
      prefill_tokens_computed = (s.prefill_tokens_computed + p.computed_tokens) % 2 ^ 64;
    })
    pure p.cached_tokens
  start_of none request = pure (usize_sub (length request.tokens) 1)

  -- The loop over the running sequences that checks them.
  unfoldable pub find_starts : List Prefill → List RunningInfo → F (Engine B) (List ℕ)
  find_starts prefills [] = pure []
  find_starts prefills (r ∷ running) = do
    e ← get
    request ← some_or (find r.id e.requests) (no_request r.id)
    bail_if (not (r.tokens == length request.tokens + 1))
        (wrong_slots r.id r.tokens (length request.tokens))
    start ← start_of (prefill_of r.id prefills) request
    starts ← find_starts prefills running
    pure (start ∷ starts)

  -- The batch of the sequences with their starts.
  unfoldable pub inputs : List RunningInfo → List ℕ → F (Engine B) (List SeqInput)
  inputs [] starts = pure []
  inputs (r ∷ running) [] = pure []
  inputs (r ∷ running) (start ∷ starts) = do
    e ← get
    request ← expect (find r.id e.requests)
    tokens ← expect (slice_from start request.tokens)
    batch ← inputs running starts
    pure (record { tokens = tokens; start = start; block_table = r.blocks } ∷ batch)

  -- The end of a request that has stopped.
  unfoldable pub stop : ℕ → Request → StepOutput → F (Engine B) StepOutput
  stop id request out = do
    on_scheduler (finish_sequence id)
    e ← get
    put (record e { requests = erase id e.requests })
    tokens ← expect (slice_from request.prompt_len request.tokens)
    pure (record out { finished = out.finished ++ record { id = id; tokens = tokens } ∷ [] })

  -- The body of the loop over the sampled tokens.
  unfoldable pub sample_one : ℕ → ℕ → StepOutput → F (Engine B) StepOutput
  sample_one id token out = do
    e ← get
    found ← expect (find id e.requests)
    let request = record found { tokens = found.tokens ++ token ∷ [] }
    put (record e { requests = insert id request e.requests })
    count_stats (λ s. record s { tokens_generated = (s.tokens_generated + 1) % 2 ^ 64 })
    let sampled = record out { sampled = out.sampled ++ (id, token) ∷ [] }
    let generated = usize_sub (length request.tokens) request.prompt_len
    if leb request.max_new_tokens generated || contains token e.stop_tokens
        then stop id request sampled
        else pure sampled

  unfoldable pub sample : List RunningInfo → List ℕ → StepOutput → F (Engine B) StepOutput
  sample [] tokens out = pure out
  sample (r ∷ running) [] out = pure out
  sample (r ∷ running) (token ∷ tokens) out = do
    next ← sample_one r.id token out
    sample running tokens next

  module _ (copy_blocks : List (ℕ × ℕ) → M B (Unit {0}))
      (next_tokens : List SeqInput → F B (List ℕ)) where
    unfoldable pub copy : List (ℕ × ℕ) → F (Engine B) (Unit {0})
    copy [] = pure tt
    copy (p ∷ pairs) =
        call cache_error (λ e. e.cache) (λ e c. record e { cache = c }) (copy_blocks (p ∷ pairs))

    abbrev modelled : {A : Type 0} → Engine B → Result B A → Result (Engine B) A
    modelled e (done a c) = done a (record e { cache = c })
    modelled e (failed x c) = failed x (record e { cache = c })
    modelled e panicked = panicked

    -- The batch through the model, and a token for each sequence of it.
    unfoldable pub run : List RunningInfo → List ℕ → F (Engine B) StepOutput
    run [] starts = pure no_output
    run (r ∷ running) starts = do
      batch ← inputs (r ∷ running) starts
      next ← (λ e. modelled e (next_tokens batch e.cache))
      sample (r ∷ running) next no_output

    unfoldable pub step : F (Engine B) StepOutput
    step = do
      outcome ← on_scheduler scheduler_step
      count_stats (λ s. record s {
        steps = (s.steps + 1) % 2 ^ 64;
        preemptions = (s.preemptions + length outcome.preempted) % 2 ^ 64;
      })
      copy (copies outcome.decoded)
      e ← get
      let running = running_snapshot e.scheduler
      starts ← find_starts outcome.prefills running
      run running starts
