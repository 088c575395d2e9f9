-- ===== src/Tests/Runs.antt =====
-- The theorems on runs of a scheduler from a new one on, at concrete inputs that meet their
-- hypotheses.
use paged_kv_cache.Prelude.{
  ◌+◌, ◌*◌, ◌%◌, ◌^◌, ◌≤◌, ◌<◌, ◌≡◌, ◌⊎◌, true, false, refl, [], ◌∷◌, length, div_ceil, arith,
}
use paged_kv_cache.Error.{out_of_blocks}
use paged_kv_cache.Outcome.{Returns, Post}
use paged_kv_cache.Config.{tiny}
use paged_kv_cache.PrefixCache
use paged_kv_cache.Allocator
use paged_kv_cache.Scheduler.{Scheduler, enqueue, with_prefix_caching}
use paged_kv_cache.Scheduler.Tables.{IsSound}
use paged_kv_cache.Scheduler.Step.{Stepping, admit, no_outcome}
use paged_kv_cache.Scheduler.Admission.{HasRoom, Entered}
use paged_kv_cache.Scheduler.Stepped.{Stepped}
use paged_kv_cache.Scheduler.Fresh.{InRange, with_prefix_caching-IsSound}
use paged_kv_cache.Scheduler.Enqueue.{waits, queued, queued-IsSound, enqueue-Post}
use paged_kv_cache.Scheduler.Progress.{admit-Progress}
use paged_kv_cache.Scheduler.Check.{check_invariants-IsSound}
use paged_kv_cache.Scheduler.Passed.{Accounted, check_invariants-Accounted}
use paged_kv_cache.Tests.Schedulers.{two_running, two_running-IsSound}

small_config-InRange : InRange (tiny 4) 3
small_config-InRange = record {
  blocks = omega arith;
  positive = omega arith;
  capacity = omega arith;
  limit = omega arith;
}

abbrev first : Scheduler
first = with_prefix_caching (tiny 4) 3

abbrev one_waiting : Scheduler
one_waiting = queued first (waits 1 5 (7 ∷ 8 ∷ 9 ∷ []) 2)

first-IsSound : IsSound first
first-IsSound = with_prefix_caching-IsSound (tiny 4) 3 small_config-InRange

one_waiting-IsSound : IsSound one_waiting
one_waiting-IsSound =
    queued-IsSound first (waits 1 5 (7 ∷ 8 ∷ 9 ∷ []) 2) first-IsSound
      (record { prompt = omega arith; small = omega arith })

one_waiting-HasRoom : HasRoom one_waiting
unfolding Allocator.with_prefix_caching PrefixCache.new
one_waiting-HasRoom = (omega arith, (omega arith, tt))

enqueue-Post_example :
    Post
      (λ _ t.
        IsSound t
        × (t ≡ queued first (waits 1 5 (7 ∷ 8 ∷ 9 ∷ []) 2))
        × ((5 + 2) % 2 ^ 64 ≤ first.allocator.num_blocks * 4))
      (λ e t.
        (t ≡ first)
        × (e ≡ out_of_blocks (div_ceil ((5 + 2) % 2 ^ 64) 4) first.allocator.num_blocks)
        × (first.allocator.num_blocks * 4 < (5 + 2) % 2 ^ 64))
      (enqueue 1 5 (7 ∷ 8 ∷ 9 ∷ []) 2 first)
enqueue-Post_example =
    enqueue-Post first 1 5 (7 ∷ 8 ∷ 9 ∷ []) 2 first-IsSound (omega arith) (omega arith)

abbrev begun_waiting : Stepping
begun_waiting = record { scheduler = one_waiting; outcome = no_outcome }

room_for_five : 5 + 1 ≤ first.allocator.num_blocks * 4
unfolding Allocator.with_prefix_caching
room_for_five = omega arith

admit-Progress_example :
    Returns
      (λ _ t. Entered begun_waiting t × (0 < length t.scheduler.running))
      (admit begun_waiting)
admit-Progress_example =
    admit-Progress begun_waiting (waits 1 5 (7 ∷ 8 ∷ 9 ∷ []) 2) [] one_waiting-IsSound refl refl
      (omega arith) room_for_five one_waiting-HasRoom

check_invariants-Accounted_example :
    (two_running ≡ two_running)
    × (((true ≡ true) × Accounted two_running) ⊎ ((true ≡ false) × ¬ IsSound two_running))
check_invariants-Accounted_example =
    check_invariants-Accounted two_running (omega arith) true two_running
      (check_invariants-IsSound two_running two_running-IsSound)
