-- ===== src/Simulation/Queued.antt =====
-- What `submit` of sim.rs does to the session and its scheduler.
use paged_kv_cache.Prelude.{
  ℕ, zero, suc, ◌+◌, ◌*◌, ◌%◌, ◌^◌, ◌≤◌, ◌<◌, ◌≡◌, refl, inl, inr, none, some, Option, Option-cases,
  List, [], ◌∷◌, ◌++◌, length, length-append, get_elem?, subst, arith,
}
use native.Mathlib.Decide.{dec_lt}
use paged_kv_cache.Outcome.{ok, Returns}
use paged_kv_cache.Protocol.{
  Origin, Event, submitted, Message, no_prompt, no_new_tokens, no_system_prompt, too_long,
  queue_full,
}
use paged_kv_cache.Scheduler.{Scheduler, enqueue, add_prompt}
use paged_kv_cache.Scheduler.Enqueue.{waits, queued, queued-IsSound}
use paged_kv_cache.Scheduler.Tables.{IsSound}
use paged_kv_cache.Simulation.{Simulation, add_u32, Attempt, failed, returned, capacity_tokens}
use paged_kv_cache.Simulation.Requests.{
  fresh_tokens, prefix_of, submitted_as, queue_request, submit_prefix, submit,
}

-- The scheduler is sound and has the pool that the config says.
pub record IsLive {R : Type 0} (s : Simulation R) : Type 0 where
  pub sound : IsSound s.scheduler
  pub blocks : s.scheduler.allocator.num_blocks ≡ s.config.num_blocks
  pub size : s.scheduler.block_size ≡ s.config.block_size

-- What a request leaves alone.
pub record SameShape {R : Type 0} (s t : Simulation R) : Type 0 where
  pub config : t.config ≡ s.config
  pub tick : t.tick ≡ s.tick
  pub events : t.events ≡ s.events
  pub history : t.history ≡ s.history

pub length-fresh_tokens : (first i n : ℕ) → length (fresh_tokens first i n) ≡ n
length-fresh_tokens first i zero = refl
length-fresh_tokens first i (suc n) = omega (arith, length-fresh_tokens first (i + 1) n)

-- A request that the pool can hold is queued.
add_prompt-eq :
    (s : Scheduler) (id : ℕ) (prompt : List ℕ) (max_new_tokens : ℕ)
    → IsSound s
    → length prompt + max_new_tokens ≤ s.allocator.num_blocks * s.block_size
    → add_prompt id prompt max_new_tokens s
      ≡ ok tt (queued s (waits id (length prompt) prompt max_new_tokens))
unfolding enqueue
add_prompt-eq s id prompt max_new_tokens w h =
    let exact : (length prompt + max_new_tokens) % 2 ^ 64 ≡ length prompt + max_new_tokens =
      omega (arith, h, w.capacity) in
    rw exact (ground (arith, h))

-- Why `submit` refuses a request; the scheduler never does.
pub data Refusal {R : Type 0} (s : Simulation R) (system_prompt : Option ℕ)
    (prompt_len max_new_tokens : ℕ) : Message → Type 0 where
  prompt_empty : prompt_len ≡ 0 → Refusal s system_prompt prompt_len max_new_tokens no_prompt
  nothing_asked :
      max_new_tokens ≡ 0 → Refusal s system_prompt prompt_len max_new_tokens no_new_tokens
  unknown_prompt :
      (i : ℕ)
      → system_prompt ≡ some i
      → get_elem? s.system_prompts i ≡ none
      → Refusal s system_prompt prompt_len max_new_tokens (no_system_prompt i)
  over_capacity :
      (prefix : List ℕ)
      → prefix_of s system_prompt ≡ returned prefix
      → capacity_tokens s.config < length prefix + prompt_len + max_new_tokens
      → Refusal s system_prompt prompt_len max_new_tokens
          (too_long (length prefix + prompt_len + max_new_tokens) (capacity_tokens s.config))
  no_room :
      s.config.max_waiting ≤ length s.scheduler.waiting
      → Refusal s system_prompt prompt_len max_new_tokens (queue_full s.config.max_waiting)

prefix_of-failed :
    {R : Type 0} (s : Simulation R) (system_prompt : Option ℕ) (prompt_len max_new_tokens : ℕ)
    (m : Message)
    → prefix_of s system_prompt ≡ failed m
    → Refusal s system_prompt prompt_len max_new_tokens m
prefix_of-failed s none prompt_len max_new_tokens m known = absurd (ground (arith, known))
prefix_of-failed s (some i) prompt_len max_new_tokens m known =
    elim (Option-cases (get_elem? s.system_prompts i)) [
      | inl missing ↦
          let named : no_system_prompt i ≡ m = ground (arith, known, missing) in
          subst (Refusal s (some i) prompt_len max_new_tokens) named (unknown_prompt i refl missing)
      | inr (p, found) ↦ absurd (ground (arith, known, found))
    ]

-- The request is last in the queue, with the prompt that it named and tokens of its own.
pub record Queued {R : Type 0} (s : Simulation R) (system_prompt : Option ℕ)
    (prompt_len max_new_tokens : ℕ) (e : Event) (t : Simulation R) : Type 0 where
  pub live : IsLive t
  pub prefix : List ℕ
  pub known : prefix_of s system_prompt ≡ returned prefix
  pub wanted : (0 < prompt_len) × (0 < max_new_tokens)
  pub room : length s.scheduler.waiting < s.config.max_waiting
  pub waiting :
      t.scheduler.waiting
      ≡ s.scheduler.waiting
        ++ waits s.next_id
            (length prefix + prompt_len)
            (prefix ++ fresh_tokens s.next_token 0 prompt_len)
            max_new_tokens
          ∷ []
  pub running : t.scheduler.running ≡ s.scheduler.running
  pub named : e.seq_id ≡ s.next_id
  pub fits : length prefix + prompt_len + max_new_tokens ≤ capacity_tokens s.config
  pub pool : t.scheduler.allocator ≡ s.scheduler.allocator
  pub issued : t.next_id ≡ add_u32 s.next_id 1
  pub shape : SameShape s t

abbrev pub Answered :
    {R : Type 0} → Simulation R → Option ℕ → ℕ → ℕ → Attempt Message Event → Simulation R → Type 0
Answered s system_prompt prompt_len max_new_tokens (failed m) t =
    (t ≡ s) × Refusal s system_prompt prompt_len max_new_tokens m
Answered s system_prompt prompt_len max_new_tokens (returned e) t =
    Queued s system_prompt prompt_len max_new_tokens e t

module _ {R : Type 0} (s : Simulation R) (w : IsLive s) (origin : Origin) (system_prompt : Option ℕ)
    (prompt_len max_new_tokens : ℕ) where
  queue_request-eq :
      (prefix : List ℕ) (t : Scheduler)
      → add_prompt s.next_id
          (prefix ++ fresh_tokens s.next_token 0 prompt_len)
          max_new_tokens
          s.scheduler
        ≡ ok tt t
      → queue_request origin system_prompt prefix prompt_len max_new_tokens s
        ≡ ok
            (returned (record {
              tick = s.tick;
              seq_id = s.next_id;
              kind = submitted origin system_prompt prompt_len max_new_tokens;
            }))
            (submitted_as s t origin system_prompt prompt_len)
  unfolding queue_request
  queue_request-eq prefix t p = rw p refl

  module _ (asked : (0 < prompt_len) × (0 < max_new_tokens)) where
    queue_request-Queued :
        (prefix : List ℕ)
        → prefix_of s system_prompt ≡ returned prefix
        → length prefix + prompt_len + max_new_tokens ≤ capacity_tokens s.config
        → length s.scheduler.waiting < s.config.max_waiting
        → Returns
            (λ r t. Answered s system_prompt prompt_len max_new_tokens r t)
            (queue_request origin system_prompt prefix prompt_len max_new_tokens s)
    queue_request-Queued prefix known fits room =
        let prompt : List ℕ = prefix ++ fresh_tokens s.next_token 0 prompt_len in
        let long : length prompt ≡ length prefix + prompt_len = omega (
          arith,
          length-append prefix (fresh_tokens s.next_token 0 prompt_len),
          length-fresh_tokens s.next_token 0 prompt_len,
        ) in
        let held : length prompt + max_new_tokens
            ≤ s.scheduler.allocator.num_blocks * s.scheduler.block_size =
          rw (w.blocks, w.size, long) fits in
        rw
          (queue_request-eq prefix _
            (add_prompt-eq s.scheduler s.next_id prompt max_new_tokens w.sound held))
          (record {
            live = record {
              sound =
                  queued-IsSound s.scheduler (waits s.next_id (length prompt) prompt max_new_tokens)
                    w.sound
                    (record {
                      prompt = omega arith;
                      small = omega (arith, held, w.sound.capacity);
                    });
              blocks = w.blocks;
              size = w.size;
            };
            prefix = prefix;
            known = known;
            wanted = asked;
            room = room;
            waiting = rw long refl;
            running = refl;
            named = refl;
            fits = fits;
            pool = refl;
            issued = refl;
            shape = record { config = refl; tick = refl; events = refl; history = refl };
          })

    submit_prefix-Answered :
        (given : Attempt Message (List ℕ))
        → prefix_of s system_prompt ≡ given
        → Returns
            (λ r t. Answered s system_prompt prompt_len max_new_tokens r t)
            (submit_prefix origin system_prompt given prompt_len max_new_tokens s)
    unfolding submit_prefix
    submit_prefix-Answered (failed m) known =
        (refl, prefix_of-failed s system_prompt prompt_len max_new_tokens m known)
    submit_prefix-Answered (returned prefix) known =
        let needed : ℕ = length prefix + prompt_len + max_new_tokens in
        elim (dec_lt (capacity_tokens s.config) needed) [
          | yes over ↦
              let r : submit_prefix origin system_prompt (returned prefix) prompt_len max_new_tokens
                    s
                  ≡ ok (failed (too_long needed (capacity_tokens s.config))) s =
                ground (arith, over) in
              rw r (refl, over_capacity prefix known over)
          | no fits ↦ elim (dec_lt (length s.scheduler.waiting) s.config.max_waiting) [
            | no full ↦
                let r : submit_prefix origin system_prompt (returned prefix) prompt_len
                      max_new_tokens s
                    ≡ ok (failed (queue_full s.config.max_waiting)) s =
                  ground (arith, fits, full) in
                rw r (refl, no_room (omega (arith, full)))
            | yes room ↦
                let r : submit_prefix origin system_prompt (returned prefix) prompt_len
                      max_new_tokens s
                    ≡ queue_request origin system_prompt prefix prompt_len max_new_tokens s =
                  ground (arith, fits, room) in
                rw r (queue_request-Queued prefix known (omega (arith, fits)) room)
          ]
        ]

  -- In a live session, whose scheduler is sound and has the pool of the config, `submit` returns,
  -- and refuses only for a reason of its own, of which it tells the right one, and then changes
  -- nothing: an empty prompt, no token to generate, an unknown system prompt, more tokens than the
  -- pool holds or a full queue. Otherwise the request, with the prompt that it names and its own
  -- tokens, is last in the queue under the next id, and the session stays live: the scheduler never
  -- refuses it.
  pub submit-Answered :
      Returns
        (λ r t. Answered s system_prompt prompt_len max_new_tokens r t)
        (submit origin system_prompt prompt_len max_new_tokens s)
  unfolding submit
  submit-Answered = elim (dec_lt 0 prompt_len) [
    | no short ↦
        let r : submit origin system_prompt prompt_len max_new_tokens s ≡ ok (failed no_prompt) s =
          ground (arith, short) in
        rw r (refl, prompt_empty (omega (arith, short)))
    | yes long ↦ elim (dec_lt 0 max_new_tokens) [
      | no nothing ↦
          let r : submit origin system_prompt prompt_len max_new_tokens s
              ≡ ok (failed no_new_tokens) s =
            ground (arith, long, nothing) in
          rw r (refl, nothing_asked (omega (arith, nothing)))
      | yes wanted ↦
          let r : submit origin system_prompt prompt_len max_new_tokens s
              ≡ submit_prefix origin system_prompt (prefix_of s system_prompt) prompt_len
                  max_new_tokens s =
            ground (arith, long, wanted) in
          rw r (submit_prefix-Answered (long, wanted) (prefix_of s system_prompt) refl)
    ]
  ]
