-- ===== src/Scheduler/Enqueue.antt =====
-- What `enqueue` of scheduler.rs does: a request waits last, unless the pool can never hold it.
use paged_kv_cache.Prelude.{
  ℕ, ◌+◌, ◌*◌, ◌%◌, ◌^◌, ◌≤◌, ◌<◌, ◌≡◌, refl, inl, inr, List, [], ◌∷◌, ◌++◌, length, div_ceil,
  subst, arith,
}
use native.Mathlib.Decide.{dec_lt}
use paged_kv_cache.Error.{out_of_blocks}
use paged_kv_cache.Outcome.{ok, err, Post}
use paged_kv_cache.Scheduler.{PendingSeq, Scheduler, enqueue}
use paged_kv_cache.Scheduler.Tables.{PendingFits, IsSound, get_elem?-snoc}

abbrev pub waits : ℕ → ℕ → List ℕ → ℕ → PendingSeq
waits id prompt_len prompt max_new_tokens = record {
  id = id;
  context_len = prompt_len;
  max_new_tokens = max_new_tokens;
  prompt = prompt;
}

abbrev pub queued : Scheduler → PendingSeq → Scheduler
queued s p = record s { waiting = s.waiting ++ p ∷ [] }

pub queued-IsSound :
    (s : Scheduler) (p : PendingSeq) → IsSound s → PendingFits p → IsSound (queued s p)
queued-IsSound s p w fits = record {
  valid = w.valid;
  counts = w.counts;
  within = w.within;
  seqs = w.seqs;
  pending = λ k o e. elim (get_elem?-snoc s.waiting p k o e) [
    | inl old ↦ w.pending k o old
    | inr new ↦ subst PendingFits new fits
  ];
  ordered = w.ordered;
  positive = w.positive;
  capacity = w.capacity;
  limit = w.limit;
  batch = w.batch;
}

-- In a sound scheduler `enqueue` of a prompt that is part of its context puts the request last in
-- the queue and keeps the scheduler sound, or reports that the pool has too few blocks for the
-- context and the tokens to generate, taken together as a `usize`, and changes nothing.
pub enqueue-Post :
    (s : Scheduler) (id prompt_len : ℕ) (prompt : List ℕ) (max_new_tokens : ℕ)
    → IsSound s
    → length prompt ≤ prompt_len
    → prompt_len < 2 ^ 64
    → Post
        (λ _ t.
          IsSound t
          × (t ≡ queued s (waits id prompt_len prompt max_new_tokens))
          × ((prompt_len + max_new_tokens) % 2 ^ 64 ≤ s.allocator.num_blocks * s.block_size))
        (λ e t.
          (t ≡ s)
          × (e
              ≡ out_of_blocks
                  (div_ceil ((prompt_len + max_new_tokens) % 2 ^ 64) s.block_size)
                  s.allocator.num_blocks)
          × (s.allocator.num_blocks * s.block_size < (prompt_len + max_new_tokens) % 2 ^ 64))
        (enqueue id prompt_len prompt max_new_tokens s)
unfolding enqueue
enqueue-Post s id prompt_len prompt max_new_tokens w part small =
    let total : ℕ = (prompt_len + max_new_tokens) % 2 ^ 64 in
    elim (dec_lt (s.allocator.num_blocks * s.block_size) total) [
      | yes over ↦
          let r : enqueue id prompt_len prompt max_new_tokens s
              ≡ err (out_of_blocks (div_ceil total s.block_size) s.allocator.num_blocks) s =
            ground (arith, over, w.positive) in
          rw r (refl, refl, over)
      | no fits ↦
          let r : enqueue id prompt_len prompt max_new_tokens s
              ≡ ok tt (queued s (waits id prompt_len prompt max_new_tokens)) =
            ground (arith, fits) in
          rw r (
            queued-IsSound s (waits id prompt_len prompt max_new_tokens) w
                (record { prompt = part; small = small }),
            refl,
            omega (arith, fits),
          )
    ]
