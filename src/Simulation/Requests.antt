-- ===== src/Simulation/Requests.antt =====
-- The requests of the session of sim.rs: `submit`, `fork` and `generate_traffic`.
use paged_kv_cache.Prelude.{
  ℕ, zero, suc, ◌+◌, ◌-◌, ◌%◌, ◌^◌, Bool, true, false, ◌&&◌, Option, none, some, List, [], ◌∷◌,
  ◌++◌, ◌==◌, ltb, leb, if◌then◌else◌, length, get_elem?,
}
use paged_kv_cache.Error.{CacheError, batch_full}
use paged_kv_cache.Outcome.{M, ok, ◌>>=◌, ◌>>◌, pure, get, put, expect}
use paged_kv_cache.Protocol.{
  Origin, from_traffic, Event, submitted, forked, Message, no_prompt, no_new_tokens,
  no_system_prompt, too_long, queue_full, still_waiting, not_running, nothing_left, full_batch,
  refused,
}
use paged_kv_cache.Scheduler.{Scheduler, add_prompt, fork_sequence}
use paged_kv_cache.Scheduler.Snapshot.{
  RunningInfo, WaitingInfo, num_waiting, running_snapshot, waiting_snapshot,
}
use paged_kv_cache.Simulation.{
  Simulation, Rng, Attempt, failed, returned, capacity_tokens, add_u32, attempt, refuse, seq_u32,
  on_scheduler, meta_of, set_meta,
}

-- The tokens that only this request has.
abbrev pub fresh_tokens : ℕ → ℕ → ℕ → List ℕ
fresh_tokens first i zero = []
fresh_tokens first i (suc n) = (first + i) % 2 ^ 32 % 2 ^ 24 ∷ fresh_tokens first (i + 1) n

abbrev pub find_running : ℕ → List RunningInfo → Option RunningInfo
find_running id [] = none
find_running id (r ∷ rs) = if r.id == id then some r else find_running id rs

abbrev pub any_waiting : ℕ → List WaitingInfo → Bool
any_waiting id [] = false
any_waiting id (w ∷ ws) = if w.id == id then true else any_waiting id ws

-- The message of a fork that the scheduler refused.
abbrev pub fork_refused : CacheError → Message
fork_refused (batch_full n) = full_batch n
fork_refused e = refused e

module _ {R : Type 0} where
  -- The system prompt that a request begins with.
  abbrev pub prefix_of : Simulation R → Option ℕ → Attempt Message (List ℕ)
  prefix_of s none = returned []
  prefix_of s (some i) = elim (get_elem? s.system_prompts i) [
    | none ↦ failed (no_system_prompt i)
    | some p ↦ returned p
  ]

  -- The session after the request that it is about to count was queued in `scheduler`.
  abbrev pub submitted_as : Simulation R → Scheduler → Origin → Option ℕ → ℕ → Simulation R
  submitted_as s scheduler origin system_prompt prompt_len =
      let totals = s.totals in
      record (set_meta s.next_id
        (some (record {
          parent = none;
          origin = origin;
          system_prompt = system_prompt;
          preempted = false;
        }))
        s) {
          scheduler = scheduler;
          next_token = add_u32 s.next_token prompt_len;
          next_id = add_u32 s.next_id 1;
          totals = record totals { submitted = add_u32 totals.submitted 1 };
        }

  unfoldable pub queue_request :
      Origin → Option ℕ → List ℕ → ℕ → ℕ → M (Simulation R) (Attempt Message Event)
  queue_request origin system_prompt prefix prompt_len max_new_tokens = do
    s ← get
    let prompt = prefix ++ fresh_tokens s.next_token 0 prompt_len
    r ← on_scheduler (attempt (add_prompt s.next_id prompt max_new_tokens))
    t ← get
    elim r [
      | failed e ↦ refuse (refused e)
      | returned _ ↦ do
        put (submitted_as s t.scheduler origin system_prompt prompt_len)
        pure (
            returned (record {
              tick = s.tick;
              seq_id = s.next_id;
              kind = submitted origin system_prompt prompt_len max_new_tokens;
            }))
    ]

  -- The tests of `submit` once the prompt is known.
  unfoldable pub submit_prefix :
      Origin
      → Option ℕ
      → Attempt Message (List ℕ)
      → ℕ
      → ℕ
      → M (Simulation R) (Attempt Message Event)
  submit_prefix origin system_prompt (failed m) prompt_len max_new_tokens = refuse m
  submit_prefix origin system_prompt (returned prefix) prompt_len max_new_tokens = do
    s ← get
    let needed = length prefix + prompt_len + max_new_tokens
    let capacity = capacity_tokens s.config
    if ltb capacity needed
        then refuse (too_long needed capacity)
        else if leb s.config.max_waiting (num_waiting s.scheduler)
        then refuse (queue_full s.config.max_waiting)
        else queue_request origin system_prompt prefix prompt_len max_new_tokens

  unfoldable pub submit : Origin → Option ℕ → ℕ → ℕ → M (Simulation R) (Attempt Message Event)
  submit origin system_prompt prompt_len max_new_tokens = do
    s ← get
    if prompt_len == 0
        then refuse no_prompt
        else if max_new_tokens == 0
        then refuse no_new_tokens
        else submit_prefix origin system_prompt (prefix_of s system_prompt) prompt_len
            max_new_tokens

  abbrev pub forked_as : Simulation R → Scheduler → ℕ → Origin → Simulation R
  forked_as s scheduler parent origin =
      let totals = s.totals in
      let known = meta_of s parent in
      record (set_meta s.next_id
        (some (record {
          parent = some parent;
          origin = origin;
          system_prompt = known.system_prompt;
          preempted = false;
        }))
        s) {
          scheduler = scheduler;
          next_id = add_u32 s.next_id 1;
          totals = record totals { forks = add_u32 totals.forks 1 };
        }

  -- `fork` of a sequence that runs and wants `remaining` tokens more.
  unfoldable pub fork_running : ℕ → Origin → ℕ → M (Simulation R) (Attempt Message Event)
  fork_running parent origin zero = refuse (nothing_left parent)
  fork_running parent origin (suc n) = do
    s ← get
    r ← on_scheduler (attempt (fork_sequence parent s.next_id (suc n)))
    t ← get
    elim r [
      | failed e ↦ refuse (fork_refused e)
      | returned _ ↦ do
        put (forked_as s t.scheduler parent origin)
        pure (returned (record { tick = s.tick; seq_id = s.next_id; kind = forked parent }))
    ]

  -- `fork` once the parent was looked for.
  unfoldable pub fork_found :
      ℕ → Origin → Option RunningInfo → M (Simulation R) (Attempt Message Event)
  fork_found parent origin none s =
      refuse
        (if any_waiting parent (waiting_snapshot s.scheduler)
          then still_waiting parent
          else not_running parent)
        s
  fork_found parent origin (some info) s =
      fork_running parent origin (info.max_new_tokens - info.generated) s

  unfoldable pub fork : ℕ → Origin → M (Simulation R) (Attempt Message Event)
  fork parent origin s =
      fork_found parent origin (find_running parent (running_snapshot s.scheduler)) s

abbrev pub events_of : Attempt Message Event → List Event
events_of (failed m) = []
events_of (returned e) = e ∷ []

module _ {R : Type 0} (rng : Rng R) where
  abbrev pub draw : ℕ → ℕ → M (Simulation R) ℕ
  draw lo hi s = let (x, r) = rng.gen_range lo hi s.rng in ok x (record s { rng = r })

  abbrev pub choose_prompt : M (Simulation R) (Option ℕ)
  choose_prompt = do
    s ← get
    let n = length s.system_prompts
    if n == 0 then pure none else (do
      percent ← draw 0 100
      if ltb percent 75 then (do i ← draw 0 n; pure (some (i % 2 ^ 32))) else pure none)

  unfoldable pub traffic_request : M (Simulation R) (List Event)
  traffic_request = do
    s ← get
    if (s.tick % 3 == 0) && ltb (num_waiting s.scheduler) 6
        then (do
          system_prompt ← choose_prompt
          prompt_len ← draw 4 24
          max_new_tokens ← draw 4 32
          r ← submit from_traffic system_prompt prompt_len max_new_tokens
          pure (events_of r))
        else pure []

  unfoldable pub traffic_fork : M (Simulation R) (List Event)
  traffic_fork = do
    s ← get
    let running = running_snapshot s.scheduler
    if (s.tick % 5 == 0) && ltb 0 (length running)
        then (do
          k ← draw 0 (length running)
          parent ← expect (get_elem? running k)
          id ← seq_u32 parent.id
          r ← fork id from_traffic
          pure (events_of r))
        else pure []

  -- The events that `generate_traffic` adds.
  unfoldable pub generate_traffic : M (Simulation R) (List Event)
  generate_traffic = do es ← traffic_request; fs ← traffic_fork; pure (es ++ fs)
