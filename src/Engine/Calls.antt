-- ===== src/Engine/Calls.antt =====
-- `new`, `add_request` and `cancel` of engine.rs.
use paged_kv_cache.Prelude.{
  ℕ, ◌+◌, ◌*◌, ◌%◌, ◌^◌, ◌≤◌, ◌<◌, ◌≡◌, ◌≢◌, ◌⊎◌, inl, inr, refl, sym, ap, subst, ◌∙◌, Bool, true,
  false, ◌||◌, some, none, List, [], ◌∷◌, ◌++◌, ◌==◌, length, Every, Every-append, Bool-cases,
  div_ceil, arith,
}
use native.Mathlib.Decide.{ℕ_discrete}
use paged_kv_cache.Error.{CacheError, out_of_blocks}
use paged_kv_cache.Outcome.{ok, err, Post-cases}
use paged_kv_cache.Config.{CacheConfig}
use paged_kv_cache.Scheduler.{PendingSeq, RunningSeq, Scheduler, enqueue}
use paged_kv_cache.Scheduler.Tables.{IsSound}
use paged_kv_cache.Scheduler.Names.{runs, queues, count-map-append}
use paged_kv_cache.Scheduler.Fresh.{InRange, new-IsSound, with_prefix_caching-IsSound}
use paged_kv_cache.Scheduler.Enqueue.{enqueue-Post, queued, waits}
use paged_kv_cache.Fallible.{Error, Result, done, failed, panicked, scheduler_error, empty_request}
use paged_kv_cache.Engine.{Request, Engine, find, insert, new, add_request}
use paged_kv_cache.Engine.Requests.{find-insert}
use paged_kv_cache.Engine.Alive.{Serves, Awaits, Holds}
use paged_kv_cache.Engine.Sampling.{running_others, queue_others}

serving_found :
    (rs : List (ℕ × Request)) (n id : ℕ) (ss : List RunningSeq)
    → find id rs ≡ none
    → Every (Serves rs n) ss
    → runs id ss ≡ 0
serving_found rs n id [] h x = refl
serving_found rs n id (s ∷ ss) h x = elim (ℕ_discrete s.id id) [
  | yes e ↦ absurd (ground (arith, h, x.0.found, e))
  | no k ↦ ground (arith, k, serving_found rs n id ss h x.1)
]

awaiting_found :
    (rs : List (ℕ × Request)) (id : ℕ) (ps : List PendingSeq)
    → find id rs ≡ none
    → Every (Awaits rs) ps
    → queues id ps ≡ 0
awaiting_found rs id [] h x = refl
awaiting_found rs id (p ∷ ps) h x = elim (ℕ_discrete p.id id) [
  | yes e ↦ absurd (ground (arith, h, x.0.found, e))
  | no k ↦ ground (arith, k, awaiting_found rs id ps h x.1)
]

module _ {B : Type 0} (config : B → CacheConfig) (cache : B) (max_batch_size : ℕ)
    (r : InRange (config cache) max_batch_size) where
  pub new-Holds : (caching : Bool) → Holds (new config cache max_batch_size caching)
  new-Holds true = record {
    sound = with_prefix_caching-IsSound (config cache) max_batch_size r;
    running = tt;
    waiting = tt;
    distinct = λ i. omega arith;
    present = λ i q h. ground (arith, h);
  }
  new-Holds false = record {
    sound = new-IsSound (config cache) max_batch_size r;
    running = tt;
    waiting = tt;
    distinct = λ i. omega arith;
    present = λ i q h. ground (arith, h);
  }

abbrev with_scheduler : {B : Type 0} → Engine B → Scheduler → Engine B
with_scheduler e s = record e { scheduler = s }

-- What a call that may fail does, or the error with which it fails.
abbrev pub Either : {S A : Type 0} → (A → S → Type 0) → (Error → S → Type 0) → Result S A → Type 0
Either P E (done a s) = P a s
Either P E (failed e s) = E e s
Either P E panicked = ⊥

-- The engine with a new request, and why a request is refused.
abbrev pub Taken : {B : Type 0} → Engine B → ℕ → Request → Unit {0} → Engine B → Type 0
Taken e id q _ f =
    Holds f
    × (q.prompt_len ≢ 0)
    × (q.max_new_tokens ≢ 0)
    × ((q.prompt_len + (q.max_new_tokens + 1)) % 2 ^ 64
        ≤ e.scheduler.allocator.num_blocks * e.scheduler.block_size)
    × (find id f.requests ≡ some q)
    × ((i : ℕ) → i ≢ id → find i f.requests ≡ find i e.requests)

abbrev pub NotTaken : {B : Type 0} → Engine B → List ℕ → ℕ → Error → Engine B → Type 0
NotTaken e prompt max_new_tokens c f =
    (f ≡ e)
    × (((c ≡ empty_request) × (((length prompt == 0) || (max_new_tokens == 0)) ≡ true))
        ⊎ ((n : ℕ) × (c ≡ scheduler_error (out_of_blocks n e.scheduler.allocator.num_blocks))
            × (e.scheduler.allocator.num_blocks * e.scheduler.block_size
                < (length prompt + (max_new_tokens + 1)) % 2 ^ 64)))

module _ {B : Type 0} (e : Engine B) (x : Holds e) (id : ℕ) (prompt : List ℕ) (max_new_tokens : ℕ)
    (fresh : find id e.requests ≡ none) where
  abbrev asked : Request
  asked = record { prompt_len = length prompt; tokens = prompt; max_new_tokens = max_new_tokens }

  abbrev added : Scheduler → Engine B
  added t = record e { scheduler = t; requests = insert id asked e.requests }

  refused_empty :
      ((length prompt == 0) || (max_new_tokens == 0)) ≡ true
      → add_request id prompt max_new_tokens e ≡ failed empty_request e
  unfolding add_request
  refused_empty h = rw h refl

  refused_large :
      (c : CacheError) (t : Scheduler)
      → ((length prompt == 0) || (max_new_tokens == 0)) ≡ false
      → enqueue id (length prompt) prompt ((max_new_tokens + 1) % 2 ^ 64) e.scheduler ≡ err c t
      → add_request id prompt max_new_tokens e
        ≡ failed (scheduler_error c) (record e { scheduler = t })
  unfolding add_request
  refused_large c t h p = rw h (rw p refl)

  taken :
      (t : Scheduler)
      → ((length prompt == 0) || (max_new_tokens == 0)) ≡ false
      → enqueue id (length prompt) prompt ((max_new_tokens + 1) % 2 ^ 64) e.scheduler ≡ ok tt t
      → add_request id prompt max_new_tokens e ≡ done tt (added t)
  unfolding add_request
  taken t h p = rw h (rw p refl)

  -- With the new request, last in the queue of a sound scheduler, the requests are still the
  -- sequences.
  added-Holds :
      ((length prompt == 0) || (max_new_tokens == 0)) ≡ false
      → max_new_tokens + 1 < 2 ^ 64
      → IsSound
          (queued e.scheduler (waits id (length prompt) prompt ((max_new_tokens + 1) % 2 ^ 64)))
      → Holds (
          added
            (queued e.scheduler (waits id (length prompt) prompt ((max_new_tokens + 1) % 2 ^ 64))))
  added-Holds some_asked small w =
      let p : PendingSeq = waits id (length prompt) prompt ((max_new_tokens + 1) % 2 ^ 64) in
      let us : List (ℕ × Request) = insert id asked e.requests in
      let same : (i : ℕ) → i ≢ id → find i us ≡ find i e.requests =
        λ i n. ground (arith, n, find-insert i id asked e.requests) in
      let now : find id us ≡ some asked = ground (arith, find-insert id id asked e.requests) in
      let none_runs = serving_found e.requests 0 id e.scheduler.running fresh x.running in
      let none_waits = awaiting_found e.requests id e.scheduler.waiting fresh x.waiting in
      let more : (i : ℕ)
          → queues i (e.scheduler.waiting ++ p ∷ [])
            ≡ queues i e.scheduler.waiting + queues i (p ∷ []) =
        λ i. count-map-append (λ (o : PendingSeq). o.id) i e.scheduler.waiting (p ∷ []) in
      record {
        sound = w;
        running = running_others id e.requests us same 0 e.scheduler.running none_runs x.running;
        waiting =
            Every-append _ e.scheduler.waiting (p ∷ [])
              (queue_others id e.requests us same e.scheduler.waiting none_waits x.waiting)
              (
                record {
                  request = asked;
                  found = now;
                  alive = record {
                    tokens = ground (arith, some_asked);
                    prompt = omega arith;
                    wants = ground (arith, some_asked);
                    small = small;
                  };
                  context = refl;
                  limit = ground (arith, small);
                  small = ground (arith, small);
                },
                tt,
              );
        distinct = λ i. elim (ℕ_discrete i id) [
          | yes s ↦ ground (arith, s, more i, none_runs, none_waits)
          | no n ↦ ground (arith, n, more i, x.distinct i)
        ];
        present = λ i q h. elim (ℕ_discrete i id) [
          | yes s ↦ ground (arith, s, more i)
          | no n ↦ omega (arith, more i, x.present i q (sym (same i n) ∙ h))
        ];
      }

  -- What `enqueue` does with the request.
  abbrev Accepted : Unit {0} → Scheduler → Type 0
  Accepted _ t =
      IsSound t
      × (t ≡ queued e.scheduler (waits id (length prompt) prompt ((max_new_tokens + 1) % 2 ^ 64)))
      × ((length prompt + (max_new_tokens + 1) % 2 ^ 64) % 2 ^ 64
          ≤ e.scheduler.allocator.num_blocks * e.scheduler.block_size)

  abbrev Refused : CacheError → Scheduler → Type 0
  Refused c t =
      (t ≡ e.scheduler)
      × (c
          ≡ out_of_blocks
              (div_ceil ((length prompt + (max_new_tokens + 1) % 2 ^ 64) % 2 ^ 64)
                e.scheduler.block_size)
              e.scheduler.allocator.num_blocks)
      × (e.scheduler.allocator.num_blocks * e.scheduler.block_size
          < (length prompt + (max_new_tokens + 1) % 2 ^ 64) % 2 ^ 64)

  -- An engine whose requests are the sequences of its scheduler takes a request with an id that it
  -- does not have, for a number of tokens below the largest `usize`: the request is then found, the
  -- others are as they were, and the requests still are the sequences; the request has a prompt and
  -- tokens to generate, and both and one token more, taken together as a `usize` that wraps, fit
  -- the pool. Otherwise it refuses the request, and has changed nothing then.
  pub add_request-Either :
      length prompt < 2 ^ 64
      → max_new_tokens + 1 < 2 ^ 64
      → Either
          (Taken e id asked)
          (NotTaken e prompt max_new_tokens)
          (add_request id prompt max_new_tokens e)
  add_request-Either short small =
      let wrap : (max_new_tokens + 1) % 2 ^ 64 ≡ max_new_tokens + 1 = ground (arith, small) in
      elim (Bool-cases ((length prompt == 0) || (max_new_tokens == 0))) [
        | inl h ↦ rw (refused_empty h) (refl, inl (refl, h))
        | inr h ↦
            elim (Post-cases Accepted Refused
              (enqueue id (length prompt) prompt ((max_new_tokens + 1) % 2 ^ 64) e.scheduler)
              (enqueue-Post e.scheduler id (length prompt) prompt ((max_new_tokens + 1) % 2 ^ 64)
                x.sound (omega arith) short)) [
                  | inl (u, t, p, (w, same, fits)) ↦ rw (taken t h p) (
                    subst (λ s. Holds (added s)) (sym same)
                        (added-Holds h small (subst IsSound same w)),
                    ground (arith, h),
                    ground (arith, h),
                    subst
                        (λ n.
                          (length prompt + n) % 2 ^ 64
                          ≤ e.scheduler.allocator.num_blocks * e.scheduler.block_size)
                        wrap fits,
                    ground (arith, find-insert id id asked e.requests),
                    λ i n. ground (arith, n, find-insert i id asked e.requests),
                  )
                  | inr (c, t, p, (same, which, over)) ↦ rw (refused_large c t h p) (
                    ap (with_scheduler e) same,
                    inr (
                      _,
                      ap scheduler_error which,
                      subst
                          (λ n.
                            e.scheduler.allocator.num_blocks * e.scheduler.block_size
                            < (length prompt + n) % 2 ^ 64)
                          wrap over,
                    ),
                  )
                ]
      ]
