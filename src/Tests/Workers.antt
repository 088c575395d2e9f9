-- ===== src/Tests/Workers.antt =====
-- The theorems on worker.rs and text.rs at a small worker, and at a tokenizer whose text of the
-- tokens is the tokens.
use paged_kv_cache.Prelude.{
  ℕ, ◌+◌, ◌≡◌, ◌⊎◌, refl, false, Option, some, List, [], ◌∷◌, ◌++◌, ◌==◌, count, if◌then◌else◌,
  arith,
}
use paged_kv_cache.Fallible.{Done}
use paged_kv_cache.Text.{push, new, replacement, ends_with}
use paged_kv_cache.Text.Emitted.{push_all, push_all-front, push_all-whole}
use paged_kv_cache.Engine
use paged_kv_cache.Engine.{EngineStats, no_stats}
use paged_kv_cache.Engine.Sampling.{has}
use paged_kv_cache.Worker.{Worker, Submit, drop_all, step}
use paged_kv_cache.Worker.Served.{Serving, finals, clients}
use paged_kv_cache.Worker.Requests.{drop_all-Serving, step-Told}
use paged_kv_cache.Tests.Engines.{
  busy_engine, busy_engine-Holds, busy_engine-HasRoom, copy_blocks, next_tokens, length-next_tokens,
}

-- Client 4 waits for the request 7.
abbrev busy_worker : Worker ℕ
busy_worker = record {
  engine = busy_engine;
  stop_tokens = 5 ∷ [];
  metrics = record {
    finished = 0;
    cancelled = 0;
    error = 0;
    prefill_computed = 0;
    prefill_cached = 0;
    generated = 0;
    preemptions = 0;
  };
  live = (7, 4) ∷ [];
  next_id = 8;
  seen = no_stats;
  sent = [];
}

busy_worker-Serving : Serving busy_worker
busy_worker-Serving = record {
  holds = busy_engine-Holds;
  same = λ i. ground arith;
  once = λ i. ground arith;
  fresh = λ i l. ground (arith, l);
}

step-Told_example :
    Done
      (λ _ v.
        Serving v
        × (v.next_id ≡ 8)
        × ((c : ℕ) → finals c v.sent + clients c v.live ≡ 0 + clients c ((7, 4) ∷ [])))
      (step (Engine.step copy_blocks next_tokens) busy_worker)
step-Told_example =
    step-Told copy_blocks next_tokens busy_worker busy_worker-Serving busy_engine-HasRoom
      (λ pairs cache inside. tt) (λ batch cache asked formed. length-next_tokens batch)

abbrev letter : Submit
letter = record { prompt = 3 ∷ 4 ∷ []; max_tokens = 6; events = 9 }

drop_all-Serving_example :
    Done
      (λ _ v.
        Serving v
        × (v.next_id ≡ 8)
        × (v.sent ≡ [])
        × ((i : ℕ) → has i v.live ≡ (if count i (7 ∷ []) == 0 then has i busy_worker.live else 0)))
      (drop_all (7 ∷ []) busy_worker)
drop_all-Serving_example = drop_all-Serving (7 ∷ []) busy_worker busy_worker-Serving

abbrev spell : List ℕ → Option (List ℕ)
spell tokens = some tokens

push_all-front_example :
    (seen held : List ℕ) × ((65 ∷ 65533 ∷ []) ≡ seen ++ held)
    × (((push_all spell (65 ∷ 65533 ∷ []) new).0 ≡ [])
        ⊎ (spell seen ≡ some ((push_all spell (65 ∷ 65533 ∷ []) new).0)))
    × (ends_with replacement ((push_all spell (65 ∷ 65533 ∷ []) new).0) ≡ false)
push_all-front_example = push_all-front spell (65 ∷ 65533 ∷ [])

push_all-whole_example : (push_all spell (65 ∷ 65533 ∷ 66 ∷ []) new).0 ≡ 65 ∷ 65533 ∷ 66 ∷ []
unfolding push
push_all-whole_example =
    push_all-whole spell (65 ∷ 65533 ∷ []) 66 (65 ∷ 65533 ∷ 66 ∷ []) refl refl refl
