-- ===== src/Tests/Engines.antt =====
-- The theorems on the engine of engine.rs and the layout of model.rs at a small engine, with a number
-- for the state of the backend.
use paged_kv_cache.Prelude.{
  ℕ, ◌≡◌, ◌⊎◌, refl, true, false, zero, suc, subst, List, [], ◌∷◌, length, arith,
}
use paged_kv_cache.Outcome.{M, ok, Returns}
use paged_kv_cache.Config.{CacheConfig}
use paged_kv_cache.Fallible.{F, done, Done}
use paged_kv_cache.Scheduler.{enqueue}
use paged_kv_cache.Scheduler.Fresh.{InRange}
use paged_kv_cache.Scheduler.Enqueue.{queued, waits}
use paged_kv_cache.Scheduler.Admission.{HasRoom}
use paged_kv_cache.Scheduler.Step.{step, decode}
use paged_kv_cache.Scheduler.Tables.{IsSound}
use paged_kv_cache.Scheduler.Turns.{Turned, decode-Turned}
use paged_kv_cache.Scheduler.Exact.{Moved, step-Moved}
use paged_kv_cache.Model.{SeqInput, no_rows, add_seqs}
use paged_kv_cache.Model.Layout.{WellFormed, LaidOut, add_seqs-LaidOut}
use paged_kv_cache.Engine.{Engine, Request, find, new, add_request, cancel}
use paged_kv_cache.Engine
use paged_kv_cache.Allocator
use paged_kv_cache.PrefixCache
use paged_kv_cache.Engine.Alive.{Holds}
use paged_kv_cache.Engine.Generate.{Generated, step-Generated}
use paged_kv_cache.Engine.Calls.{Either, Taken, NotTaken, new-Holds, add_request-Either}
use paged_kv_cache.Engine.Cancel.{Cancelled, cancel-Done}
use paged_kv_cache.Tests.Schedulers.{
  two_running-IsSound, mid_step, waiting_step, waiting_step-IsSound, waiting_ids,
}

abbrev pub small_cache : CacheConfig
small_cache = record {
  num_blocks = 4;
  block_size = 2;
  num_kv_heads = 1;
  head_dim = 1;
  num_layers = 1;
  dtype_bytes = 4;
}

small_cache-InRange : InRange small_cache 2
small_cache-InRange = record {
  blocks = omega arith;
  positive = omega arith;
  capacity = omega arith;
  limit = omega arith;
}

abbrev pub idle_engine : Engine ℕ
idle_engine = new (λ _. small_cache) 0 2 true

pub idle_engine-Holds : Holds idle_engine
idle_engine-Holds = new-Holds (λ _. small_cache) 0 2 small_cache-InRange true

abbrev pub question : Request
question = record { tokens = 1 ∷ 2 ∷ 3 ∷ []; prompt_len = 3; max_new_tokens = 2 }

abbrev pub busy_engine : Engine ℕ
busy_engine = record idle_engine {
  scheduler = queued idle_engine.scheduler (waits 7 3 (1 ∷ 2 ∷ 3 ∷ []) 3);
  requests = (7, question) ∷ [];
}

add_request-Either_example :
    Either
      (Taken idle_engine 7 question)
      (NotTaken idle_engine (1 ∷ 2 ∷ 3 ∷ []) 2)
      (add_request 7 (1 ∷ 2 ∷ 3 ∷ []) 2 idle_engine)
add_request-Either_example =
    add_request-Either idle_engine idle_engine-Holds 7 (1 ∷ 2 ∷ 3 ∷ []) 2 refl (omega arith)
      (omega arith)

taken_now : add_request 7 (1 ∷ 2 ∷ 3 ∷ []) 2 idle_engine ≡ done tt busy_engine
unfolding add_request enqueue paged_kv_cache.Allocator.with_prefix_caching
taken_now = refl

pub busy_engine-Holds : Holds busy_engine
busy_engine-Holds =
    let taken =
      add_request-Either idle_engine idle_engine-Holds 7 (1 ∷ 2 ∷ 3 ∷ []) 2 refl (omega arith)
        (omega arith) in
    (subst (Either (Taken idle_engine 7 question) (NotTaken idle_engine (1 ∷ 2 ∷ 3 ∷ []) 2))
      taken_now taken).0

cancel-Done_example :
    Done
      (λ known f.
        (known ≡ true)
        × (((known ≡ false) × (f ≡ busy_engine)) ⊎ ((known ≡ true) × Cancelled 7 busy_engine f)))
      (cancel 7 busy_engine)
cancel-Done_example = cancel-Done busy_engine busy_engine-Holds 7

abbrev pub fives : List SeqInput → List ℕ
fives [] = []
fives (i ∷ batch) = 5 ∷ fives batch

-- A backend that copies, and a model that always says 5.
abbrev pub copy_blocks : List (ℕ × ℕ) → M ℕ (Unit {0})
copy_blocks pairs cache = ok tt cache

abbrev pub next_tokens : List SeqInput → F ℕ (List ℕ)
next_tokens batch cache = done (fives batch) cache

pub length-next_tokens : (batch : List SeqInput) → length (fives batch) ≡ length batch
length-next_tokens [] = refl
length-next_tokens (i ∷ batch) = omega (arith, length-next_tokens batch)

pub busy_engine-HasRoom : HasRoom busy_engine.scheduler
unfolding paged_kv_cache.Allocator.with_prefix_caching paged_kv_cache.PrefixCache.new
busy_engine-HasRoom = (omega arith, (omega arith, tt))

step-Generated_example :
    Done (λ out f. Generated busy_engine out f) (Engine.step copy_blocks next_tokens busy_engine)
step-Generated_example =
    step-Generated copy_blocks next_tokens busy_engine busy_engine-Holds busy_engine-HasRoom
      (λ pairs cache inside. tt) (λ batch cache asked formed. length-next_tokens batch)

step-Moved_example :
    Returns (λ o t. IsSound t × Moved waiting_step.scheduler o t) (step waiting_step.scheduler)
step-Moved_example =
    step-Moved waiting_step.scheduler waiting_step-IsSound waiting_ids (λ i. ground arith)

decode-Turned_example : Returns (λ _ t. Turned mid_step t) (decode mid_step)
decode-Turned_example = decode-Turned mid_step two_running-IsSound (λ i. ground arith) refl refl

-- Three tokens from position 1 on, in blocks 3 and 1.
abbrev pub chunk : SeqInput
chunk = record { tokens = 8 ∷ 9 ∷ 10 ∷ []; start = 1; block_table = 3 ∷ 1 ∷ [] }

pub chunk-WellFormed : WellFormed 2 4 chunk
chunk-WellFormed = record {
  new = omega arith;
  room = omega arith;
  inside = λ j b h. elim j [ zero ↦ ground (arith, h) | suc k ↦ ground (arith, h) ];
}

add_seqs-LaidOut_example :
    Done {S = ℕ}
      (λ more t.
        (t ≡ 0)
        × LaidOut 2 4
            (8 ∷ 9 ∷ 10 ∷ [])
            (((3 ∷ 1 ∷ []), 1) ∷ ((3 ∷ 1 ∷ []), 2) ∷ ((3 ∷ 1 ∷ []), 3) ∷ [])
            no_rows
            more
        × (more.last_rows ≡ 2 ∷ []))
      (add_seqs 2 (chunk ∷ []) no_rows 0)
add_seqs-LaidOut_example =
    add_seqs-LaidOut 2 4 (chunk ∷ []) no_rows 0 (omega arith) (chunk-WellFormed, tt)
