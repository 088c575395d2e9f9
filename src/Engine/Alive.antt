-- ===== src/Engine/Alive.antt =====
-- The requests of engine.rs against the sequences of its scheduler: what holds between two steps.
use paged_kv_cache.Prelude.{
  ℕ, ◌+◌, ◌^◌, ◌≤◌, ◌<◌, ◌≡◌, refl, sym, ap, subst, ◌∙◌, some, false, List, [], ◌∷◌, map, leb,
  length, Every, Every-append, Every-split, Every-Paired, Every-map, arith,
}
use paged_kv_cache.Outcome.{Returns, Returns-eq, Returns-both}
use paged_kv_cache.Scheduler.{PendingSeq, RunningSeq, Scheduler}
use paged_kv_cache.Scheduler.Tables.{IsSound}
use paged_kv_cache.Scheduler.Names.{runs, queues, CowsIn, SameSizes}
use paged_kv_cache.Scheduler.Step.{StepOutcome, Prefill, step}
use paged_kv_cache.Scheduler.Admit.{sub-eq}
use paged_kv_cache.Scheduler.Admission.{Started, Filled}
use paged_kv_cache.Scheduler.Preempt.{waiting_again}
use paged_kv_cache.Scheduler.Turning.{Grew}
use paged_kv_cache.Scheduler.Exact.{wanting, complete, step-Moved}
use paged_kv_cache.Scheduler.Stepped.{step-Stepped}
use paged_kv_cache.Scheduler.Admission.{HasRoom}
use paged_kv_cache.Engine.{Request, find, Engine}

-- A request that has not all its tokens yet.
pub record Alive (q : Request) : Type 0 where
  pub tokens : 0 < length q.tokens
  pub prompt : q.prompt_len ≤ length q.tokens
  pub wants : length q.tokens < q.prompt_len + q.max_new_tokens
  pub small : q.max_new_tokens + 1 < 2 ^ 64

-- A running sequence `o` of a request, which has `n` slots more than known tokens. The scheduler
-- lets it generate one token more than the request asks for.
pub record Serves (rs : List (ℕ × Request)) (n : ℕ) (o : RunningSeq) : Type 0 where
  pub request : Request
  pub found : find o.id rs ≡ some request
  pub alive : Alive request
  pub slots : o.table.num_tokens ≡ length request.tokens + n
  pub limit :
      o.max_new_tokens + (length request.tokens + n)
      ≡ o.generated + request.max_new_tokens + 1 + request.prompt_len
  pub small : o.max_new_tokens < 2 ^ 64

-- A waiting sequence of a request: its context is all the tokens known.
pub record Awaits (rs : List (ℕ × Request)) (p : PendingSeq) : Type 0 where
  pub request : Request
  pub found : find p.id rs ≡ some request
  pub alive : Alive request
  pub context : p.context_len ≡ length request.tokens
  pub limit :
      p.max_new_tokens + length request.tokens ≡ request.max_new_tokens + 1 + request.prompt_len
  pub small : p.max_new_tokens < 2 ^ 64

-- The sequences of the scheduler are those of the requests, each of them once.
pub record Holds {B : Type 0} (e : Engine B) : Type 0 where
  pub sound : IsSound e.scheduler
  pub running : Every (Serves e.requests 0) e.scheduler.running
  pub waiting : Every (Awaits e.requests) e.scheduler.waiting
  pub distinct : (i : ℕ) → runs i e.scheduler.running + queues i e.scheduler.waiting ≤ 1
  pub present :
      (i : ℕ) (q : Request)
      → find i e.requests ≡ some q
      → 0 < runs i e.scheduler.running + queues i e.scheduler.waiting

-- A prefill that leaves a token of its request to compute.
pub record Starts (rs : List (ℕ × Request)) (f : Prefill) : Type 0 where
  pub request : Request
  pub found : find f.id rs ≡ some request
  pub cached : f.cached_tokens < length request.tokens

module _ (rs : List (ℕ × Request)) where
  Started-Serves : (p : PendingSeq) (o : RunningSeq) → Awaits rs p → Started p o → Serves rs 0 o
  Started-Serves p o x y = record {
    request = x.request;
    found = ap (λ i. find i rs) y.id ∙ x.found;
    alive = x.alive;
    slots = omega (arith, y.tokens, x.context);
    limit = omega (arith, y.limit, y.generated, x.limit);
    small = omega (arith, y.limit, x.small);
  }

  Filled-Starts : (p : PendingSeq) (f : Prefill) → Awaits rs p → Filled p f → Starts rs f
  Filled-Starts p f x y = record {
    request = x.request;
    found = ap (λ i. find i rs) y.id ∙ x.found;
    cached = omega (arith, y.cached, x.context, x.alive.tokens);
  }

  Grew-Serves : (o u : RunningSeq) → Serves rs 0 o → Grew o u → Serves rs 1 u
  Grew-Serves o u x y = record {
    request = x.request;
    found = ap (λ i. find i rs) y.id ∙ x.found;
    alive = x.alive;
    slots = omega (arith, y.tokens, x.slots);
    limit = omega (arith, y.limit, y.generated, x.limit, x.small, x.alive.wants);
    small = omega (arith, y.limit, x.small);
  }

  waiting_again-Awaits : (o : RunningSeq) → Serves rs 0 o → Awaits rs (waiting_again o)
  waiting_again-Awaits o x =
      let left =
        sub-eq o.max_new_tokens o.generated (omega (arith, x.limit, x.alive.wants)) x.small in
      record {
        request = x.request;
        found = x.found;
        alive = x.alive;
        context = omega (arith, x.slots);
        limit = omega (arith, left, x.limit, x.alive.wants);
        small = omega (arith, left, x.small);
      }

  all_wanting :
      (ss : List RunningSeq) → Every (Serves rs 1) ss → (wanting ss ≡ ss) × (complete ss ≡ [])
  all_wanting [] h = (refl, refl)
  all_wanting (s ∷ ss) h =
      let (p, q) = all_wanting ss h.1 in
      let more : leb s.max_new_tokens s.generated ≡ false =
        ground (arith, h.0.limit, h.0.alive.wants) in
      rw more (ap (λ l. s ∷ l) p, q)

-- The scheduler after its step, for the engine `e`: each running sequence has a slot for one token
-- more than its request knows.
pub record Fed {B : Type 0} (e : Engine B) (o : StepOutcome) (t : Scheduler) : Type 0 where
  pub sound : IsSound t
  pub running : Every (Serves e.requests 1) t.running
  pub waiting : Every (Awaits e.requests) t.waiting
  pub conserved :
      (i : ℕ)
      → runs i t.running + queues i t.waiting
        ≡ runs i e.scheduler.running + queues i e.scheduler.waiting
  pub starts : Every (Starts e.requests) o.prefills
  pub copies : CowsIn e.scheduler.allocator.num_blocks o.decoded
  pub finished : o.finished ≡ []
  pub sizes : SameSizes e.scheduler t

-- One step of the scheduler of an engine whose requests are those of the scheduler, whose cache has
-- ids left: it returns, every running sequence has got a slot for the token that its request samples
-- next, each that waits has all the tokens of its request as its context, no request is lost and none
-- is ended by the scheduler, and what is computed of an admitted sequence is at least one token.
pub scheduler_step-Fed :
    {B : Type 0} (e : Engine B)
    → Holds e
    → HasRoom e.scheduler
    → Returns (λ o t. Fed e o t) (step e.scheduler)
scheduler_step-Fed e x ids =
    let s : Scheduler = e.scheduler in
    let rs : List (ℕ × Request) = e.requests in
    let (o, t, p, (y, (w, z))) = Returns-eq _ (step s) (
      Returns-both _ _ (step s) (step-Stepped s x.sound ids)
        (step-Moved s x.sound ids x.distinct)) in
    let (new, rest) =
      Every-split (Awaits rs) z.new z.rest (subst (Every (Awaits rs)) z.queue x.waiting) in
    let newest = Every-Paired _ Started _ (Started-Serves rs) z.new z.newest new z.started in
    let all =
      subst (Every (Serves rs 0)) z.whole (Every-append _ s.running z.newest x.running newest) in
    let (kept, gone) = Every-split _ z.kept z.gone all in
    let served = Every-Paired _ Grew _ (Grew-Serves rs) z.kept z.served kept z.grew in
    let (want, nobody) = all_wanting rs z.served served in
    let none_done : o.finished ≡ [] = z.finished ∙ ap (map (λ r. r.id)) nobody in
    rw p (record {
      sound = w;
      running = subst (Every (Serves rs 1)) (sym (z.running ∙ want)) served;
      waiting = subst (Every (Awaits rs)) (sym z.waiting) (
          Every-append _ (map waiting_again z.gone) z.rest
            (Every-map _ _ waiting_again (waiting_again-Awaits rs) z.gone gone) rest);
      conserved = λ i. ground (arith, y.conserved i, none_done);
      starts = Every-Paired _ Filled _ (Filled-Starts rs) z.new o.prefills new z.filled;
      copies = z.copies;
      finished = none_done;
      sizes = y.sizes;
    })
