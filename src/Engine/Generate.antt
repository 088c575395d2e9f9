-- ===== src/Engine/Generate.antt =====
-- `step` of engine.rs: the scheduler's step, the copies, the batch, the tokens.
use paged_kv_cache.Prelude.{
  ℕ, ◌+◌, ◌%◌, ◌^◌, ◌<◌, ◌≡◌, refl, sym, ap, subst, ◌∙◌, List, [], ◌∷◌, map, length, count, Every,
  Paired, arith,
}
use mathlib.Core.List.{append-nil}
use paged_kv_cache.Outcome.{M, ok, Returns, Returns-eq}
use paged_kv_cache.Scheduler.{RunningSeq, Scheduler}
use paged_kv_cache.Scheduler.Names.{runs, queues}
use paged_kv_cache.Scheduler.Admission.{HasRoom}
use paged_kv_cache.Scheduler.Step.{StepOutcome, step as scheduler_step}
use paged_kv_cache.Scheduler.Snapshot.{running_info, running_snapshot}
use paged_kv_cache.Fallible.{F, done, Done, Done-eq}
use paged_kv_cache.Model.{SeqInput}
use paged_kv_cache.Model.Layout.{WellFormed}
use paged_kv_cache.Engine.{
  Request, StepOutput, EngineStats, Engine, find, no_output, copies, copy, find_starts, sample, run,
  step,
}
use paged_kv_cache.Engine.Alive.{Serves, Holds, Fed, scheduler_step-Fed}
use paged_kv_cache.Engine.Sampling.{Ended, has, ends, Sampling}
use paged_kv_cache.Engine.Token.{Sampled, sample-Sampled}
use paged_kv_cache.Engine.Batch.{
  Placed, IsSound-Placed, copies-CowsIn, StartsAt, with_stats, find_starts-StartsAt,
  inputs-WellFormed,
}

-- One step of the engine: each request has sampled a token or waits, those that ended are
-- reported, and the others are kept.
pub record Generated {B : Type 0} (e : Engine B) (out : StepOutput) (f : Engine B) : Type 0 where
  pub holds : Holds f
  pub sampled :
      (i : ℕ)
      → count i (map (λ p. p.0) out.sampled) + queues i f.scheduler.waiting
        ≡ runs i e.scheduler.running + queues i e.scheduler.waiting
  pub conserved : (i : ℕ) → has i f.requests + ends i out.finished ≡ has i e.requests
  pub ended : Every (Ended e.requests e.stop_tokens) out.finished

original_requests :
    (rs : List (ℕ × Request)) (ss : List RunningSeq) → Every (λ o. find o.id rs ≡ find o.id rs) ss
original_requests rs [] = tt
original_requests rs (s ∷ ss) = (refl, original_requests rs ss)

module _ {B : Type 0} (e : Engine B) (o : StepOutcome) (t : Scheduler) (x : Holds e)
    (y : Fed e o t) where
  -- The engine after the scheduler's step, with its cache and statistics.
  abbrev fed : B → EngineStats → Engine B
  fed cache stats = record e { scheduler = t; cache = cache; stats = stats }

  fed-Sampling :
      (cache : B) (stats : EngineStats)
      → Sampling e.requests e.stop_tokens t.running (fed cache stats)
  fed-Sampling cache stats = record {
    sound = y.sound;
    went = [];
    running = refl;
    served = tt;
    fed = y.running;
    original = original_requests e.requests t.running;
    waiting = y.waiting;
    distinct = λ i. omega (arith, x.distinct i, y.conserved i);
    present = λ i q h. omega (arith, x.present i q h, y.conserved i);
    stopping = refl;
  }

  Sampled-Generated :
      (cache : B) (stats : EngineStats) (out : StepOutput) (f : Engine B)
      → Sampled e.requests e.stop_tokens t.running (fed cache stats) no_output f out
      → Generated e out f
  Sampled-Generated cache stats out f z =
      let whole : f.scheduler.running ≡ z.state.went = z.state.running ∙ append-nil z.state.went in
      record {
        holds = record {
          sound = z.state.sound;
          running = subst (Every (Serves f.requests 0)) (sym whole) z.state.served;
          waiting = z.state.waiting;
          distinct = z.state.distinct;
          present = z.state.present;
        };
        sampled = λ i. ground (arith, z.names, z.queue, y.conserved i);
        conserved = λ i. omega (arith, z.conserved i);
        ended = z.ended tt;
      }

module _ {B : Type 0} (copy_blocks : List (ℕ × ℕ) → M B (Unit {0}))
    (next_tokens : List SeqInput → F B (List ℕ)) where
  abbrev counted : EngineStats → StepOutcome → EngineStats
  counted stats o = record stats {
    steps = (stats.steps + 1) % 2 ^ 64;
    preemptions = (stats.preemptions + length o.preempted) % 2 ^ 64;
  }

  step-eq :
      (e f g h : Engine B) (o : StepOutcome) (t : Scheduler) (starts : List ℕ) (out : StepOutput)
      → scheduler_step e.scheduler ≡ ok o t
      → copy copy_blocks next_tokens
          (copies o.decoded)
          (record e { scheduler = t; stats = counted e.stats o })
        ≡ done tt f
      → find_starts o.prefills (running_snapshot f.scheduler) f ≡ done starts g
      → run copy_blocks next_tokens (running_snapshot f.scheduler) starts g ≡ done out h
      → step copy_blocks next_tokens e ≡ done out h
  unfolding step
  step-eq e f g h o t starts out p q r s = rw p (rw q (rw r s))

  copy-Done :
      (pairs : List (ℕ × ℕ)) (e : Engine B)
      → ((cache : B) → Returns (λ _ _. Unit {0}) (copy_blocks pairs cache))
      → Done (λ _ f. f ≡ record e { cache = f.cache }) (copy copy_blocks next_tokens pairs e)
  unfolding copy
  copy-Done [] e h = refl
  copy-Done (p ∷ pairs) e h =
      let (u, c, q, v) = Returns-eq _ (copy_blocks (p ∷ pairs) e.cache) (h e.cache) in rw q refl

  run-Sampled :
      (rs : List (ℕ × Request)) (stops : List ℕ) (block_size num_blocks : ℕ)
      (todo : List RunningSeq) (starts : List ℕ) (e : Engine B)
      → Sampling rs stops todo e
      → Every (Placed block_size num_blocks) todo
      → Paired (StartsAt e.requests) todo starts
      → ((batch : List SeqInput) (cache : B)
          → 0 < length batch
          → Every (WellFormed block_size num_blocks) batch
          → Done (λ next _. length next ≡ length batch) (next_tokens batch cache))
      → Done
          (λ out f. (c : B) × Sampled rs stops todo (record e { cache = c }) no_output f out)
          (run copy_blocks next_tokens (map running_info todo) starts e)
  unfolding run
  run-Sampled rs stops bs n [] starts e x y z h = (
    e.cache,
    record { state = x; names = refl; conserved = λ i. refl; ended = λ k. k; queue = refl },
  )
  run-Sampled rs stops bs n (o ∷ todo) starts e x y z h =
      let (batch, p, l, w) = inputs-WellFormed bs n [] (o ∷ todo) starts e x.fed y z in
      let (next, c, q, same) =
        Done-eq _ (next_tokens batch e.cache) (h batch e.cache (omega (arith, l)) w) in
      let (out, f, r, v) =
        Done-eq _ (sample (map running_info (o ∷ todo)) next no_output (record e { cache = c })) (
          sample-Sampled rs stops (o ∷ todo) next (record e { cache = c }) no_output
            (omega (arith, same, l)) (moved c)) in
      rw p (rw q (rw r (c, v)))
    where
      moved : (c : B) → Sampling rs stops (o ∷ todo) (record e { cache = c })
      moved c = record {
        sound = x.sound;
        went = x.went;
        running = x.running;
        served = x.served;
        fed = x.fed;
        original = x.original;
        waiting = x.waiting;
        distinct = x.distinct;
        present = x.present;
        stopping = x.stopping;
      }

  -- An engine whose requests are the sequences of its scheduler and whose prefix cache has ids left
  -- and whose queue has no context as long as the largest `usize` takes a step, for a backend that
  -- copies between blocks of the pool, and a model that gives one token for each sequence of a
  -- batch in which every sequence has a new token and a table, of blocks of the pool, that covers
  -- its positions: the step ends without an error or a panic, so that none of the engine's checks
  -- fires; the requests still are the sequences of the scheduler; each sequence that ran or waited
  -- has sampled exactly one token or waits; each request is kept or reported as finished, once; and
  -- one that is has generated as many tokens as it asked for or fewer, the last of which is a stop
  -- token, and is reported with what it generated.
  pub step-Generated :
      (e : Engine B)
      → Holds e
      → HasRoom e.scheduler
      → ((pairs : List (ℕ × ℕ)) (cache : B)
          → Every
              (λ p.
                (p.0 < e.scheduler.allocator.num_blocks) × (p.1 < e.scheduler.allocator.num_blocks))
              pairs
          → Returns (λ _ _. Unit {0}) (copy_blocks pairs cache))
      → ((batch : List SeqInput) (cache : B)
          → 0 < length batch
          → Every (WellFormed e.scheduler.block_size e.scheduler.allocator.num_blocks) batch
          → Done (λ next _. length next ≡ length batch) (next_tokens batch cache))
      → Done (λ out f. Generated e out f) (step copy_blocks next_tokens e)
  step-Generated e x ids copying sampling =
      let (o, t, p, y) = Returns-eq _ (scheduler_step e.scheduler) (scheduler_step-Fed e x ids) in
      let begun : Engine B = record e { scheduler = t; stats = counted e.stats o } in
      let (_, f, q, same) = Done-eq _ (copy copy_blocks next_tokens (copies o.decoded) begun) (
        copy-Done (copies o.decoded) begun (λ cache.
          copying (copies o.decoded) cache
            (copies-CowsIn e.scheduler.allocator.num_blocks o.decoded y.copies))) in
      let k : Engine B = record begun { cache = f.cache } in
      let at : Every (Placed t.block_size e.scheduler.allocator.num_blocks) t.running =
        subst (λ n. Every (Placed t.block_size n) t.running) y.sizes.blocks
          (IsSound-Placed t y.sound) in
      let placed : Every (Placed e.scheduler.block_size e.scheduler.allocator.num_blocks)
          t.running =
        subst (λ b. Every (Placed b e.scheduler.allocator.num_blocks) t.running) y.sizes.block_size
          at in
      let (starts, g, r, (stats, z)) = Done-eq _ (find_starts o.prefills (running_snapshot t) k) (
        find_starts-StartsAt e.scheduler.block_size e.scheduler.allocator.num_blocks o.prefills
          t.running k y.running placed y.starts) in
      let (out, h, v, (c, w)) =
        Done-eq _ (run copy_blocks next_tokens (running_snapshot t) starts (with_stats k g.stats)) (
          run-Sampled e.requests e.stop_tokens e.scheduler.block_size
            e.scheduler.allocator.num_blocks t.running starts (with_stats k g.stats)
            (fed-Sampling e o t x y f.cache g.stats) placed z sampling) in
      rw
        (step-eq e k (with_stats k g.stats) h o t starts out p (q ∙ ap (done tt) same)
          (r ∙ ap (done starts) stats) v)
        (Sampled-Generated e o t x y c g.stats out h w)
