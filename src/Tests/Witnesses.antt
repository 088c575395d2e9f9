-- ===== src/Tests/Witnesses.antt =====
-- The theorems at concrete inputs that meet their hypotheses.
use paged_kv_cache.Prelude.{ℕ, ◌+◌, ◌<◌, ◌≡◌, refl, none, some, [], ◌∷◌, count, arith}
use paged_kv_cache.Error.{out_of_blocks}
use paged_kv_cache.Outcome.{Post, Returns}
use paged_kv_cache.Lru.{push_back, remove, pop_front, to_list}
use paged_kv_cache.Lru.Refine.{
  Represents, push_back-Represents, remove-Represents, pop_front-Represents, to_list-Represents,
}
use paged_kv_cache.Allocator.{num_free, allocate, decref, acquire_cached}
use paged_kv_cache.Allocator.Allocate.{Allocated, allocate-Allocated}
use paged_kv_cache.Allocator.Counts.{Refused}
use paged_kv_cache.Allocator.Release.{Decref, decref-Post}
use paged_kv_cache.Allocator.Reuse.{Acquired, acquire_cached-Acquired}
use paged_kv_cache.BlockTable.{append, append_many, fork, free}
use paged_kv_cache.BlockTable.Owned.{Appended, Owns, held, needed}
use paged_kv_cache.BlockTable.Append.{append-Returns}
use paged_kv_cache.BlockTable.Many.{AppendedMany, append_many-Post}
use paged_kv_cache.BlockTable.Share.{Dropped, fork-Returns, free-Returns}
use paged_kv_cache.Tests.Samples.{
  shared_pool, three_tokens, one_other, three_tokens-Fits, three_tokens-Owns, two_cells,
  two_cells-Represents, caching_pool, caching_pool-Inv,
}
use paged_kv_cache.Scheduler.{fork_sequence, finish_sequence}
use paged_kv_cache.Scheduler.Tables.{IsSound}
use paged_kv_cache.Scheduler.Finish.{
  Finished, Unknown, Forked, NotForked, finish_sequence-Post, fork_sequence-Post,
}
use paged_kv_cache.Scheduler.Stepped.{Stepped, step-Stepped}
use paged_kv_cache.Scheduler.Step.{step}
use paged_kv_cache.Tests.Schedulers.{
  two_running, two_running-IsSound, waiting_step, waiting_step-IsSound, waiting_ids,
}
use mathlib.Core.List.{reverse}

append-Returns_example :
    Returns
      (λ r s. Appended one_other three_tokens shared_pool r.0 r.1 s.table s.allocator)
      (append (held three_tokens shared_pool))
append-Returns_example =
    append-Returns one_other three_tokens shared_pool three_tokens-Fits three_tokens-Owns
      (omega arith)

append_many-Post_example :
    Post
      (λ r s. AppendedMany one_other three_tokens shared_pool 6 r.0 r.1 s.table s.allocator)
      (λ e s.
        (e ≡ out_of_blocks (needed three_tokens shared_pool 6) (num_free shared_pool))
        × (s ≡ held three_tokens shared_pool)
        × (num_free shared_pool < needed three_tokens shared_pool 6))
      (append_many 6 (held three_tokens shared_pool))
append_many-Post_example =
    append_many-Post 6 one_other three_tokens shared_pool three_tokens-Fits three_tokens-Owns

fork-Returns_example :
    Returns
      (λ child b.
        (child ≡ three_tokens)
        × Owns (λ i. count i (0 ∷ []) + one_other i) child b
        × (num_free b ≡ num_free shared_pool)
        × (b.num_blocks ≡ 4)
        × (b.cache ≡ none))
      (fork three_tokens shared_pool)
fork-Returns_example =
    fork-Returns one_other three_tokens shared_pool three_tokens-Owns (λ i h. ground (arith, h))

free-Returns_example :
    Returns
      (λ _ b.
        Dropped shared_pool (reverse (0 ∷ [])) b
        × ((i : ℕ) → i < b.num_blocks → b.ref_counts.at i ≡ one_other i))
      (free three_tokens shared_pool)
free-Returns_example = free-Returns one_other three_tokens shared_pool three_tokens-Owns

allocate-Allocated_example :
    Post
      (Allocated (1 ∷ []) caching_pool)
      (λ e b. (e ≡ out_of_blocks 1 0) × (b ≡ caching_pool) × (num_free caching_pool ≡ 0))
      (allocate caching_pool)
allocate-Allocated_example = allocate-Allocated (1 ∷ []) caching_pool caching_pool-Inv

decref-Post_example :
    Post
      (Decref caching_pool 0)
      (λ e b. Refused caching_pool 0 e × (b ≡ caching_pool))
      (decref 0 caching_pool)
decref-Post_example = decref-Post (1 ∷ []) caching_pool 0 caching_pool-Inv

acquire_cached-Acquired_example : Returns (Acquired caching_pool 1) (acquire_cached 1 caching_pool)
acquire_cached-Acquired_example =
    acquire_cached-Acquired (1 ∷ []) caching_pool 1 caching_pool-Inv (omega arith) refl
      (omega arith)

push_back-Represents_example :
    Returns (λ _ l. Represents 3 l (2 ∷ 0 ∷ 1 ∷ [])) (push_back 1 two_cells)
push_back-Represents_example =
    push_back-Represents 3 two_cells (2 ∷ 0 ∷ []) 1 two_cells-Represents (omega arith) refl

remove-Represents_example : Returns (λ _ l. Represents 3 l (0 ∷ [])) (remove 2 two_cells)
remove-Represents_example =
    remove-Represents 3 two_cells (2 ∷ 0 ∷ []) 2 two_cells-Represents (omega arith)

pop_front-Represents_example :
    Returns (λ o l. (o ≡ some 2) × Represents 3 l (0 ∷ [])) (pop_front two_cells)
pop_front-Represents_example = pop_front-Represents 3 two_cells (2 ∷ 0 ∷ []) two_cells-Represents

to_list-Represents_example : to_list two_cells ≡ some (2 ∷ 0 ∷ [])
to_list-Represents_example = to_list-Represents 3 two_cells (2 ∷ 0 ∷ []) two_cells-Represents

finish_sequence-Post_example :
    Post
      (λ _ t. IsSound t × Finished 6 two_running t)
      (Unknown 6 two_running)
      (finish_sequence 6 two_running)
finish_sequence-Post_example = finish_sequence-Post 6 two_running two_running-IsSound

fork_sequence-Post_example :
    Post
      (λ _ t. IsSound t × Forked 5 7 4 two_running t)
      (NotForked 5 two_running)
      (fork_sequence 5 7 4 two_running)
fork_sequence-Post_example = fork_sequence-Post 5 7 4 two_running two_running-IsSound

step-Stepped_example :
    Returns (λ o t. Stepped waiting_step.scheduler o t) (step waiting_step.scheduler)
step-Stepped_example = step-Stepped waiting_step.scheduler waiting_step-IsSound waiting_ids
