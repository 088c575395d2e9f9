-- ===== src/Scheduler/Preempt.antt =====
-- `preempt` of scheduler.rs: the newest sequence yields its blocks and waits again.
use paged_kv_cache.Prelude.{
  count-append, subst, ℕ, zero, suc, ◌-◌, ◌<◌, ◌≡◌, refl, some, [], ◌∷◌, ◌++◌, length,
  length-append, get_elem?, arith, ap,
}
use paged_kv_cache.Outcome.{ok, Returns, Returns-eq}
use paged_kv_cache.BlockTable.{free}
use paged_kv_cache.Scheduler.{PendingSeq, RunningSeq, Scheduler, remove_at, on_pool, usize_sub}
use paged_kv_cache.Scheduler.Tables.{
  PendingFits, IsSound-tokens, IsSound, length-remove_at, get_elem?-last,
}
use paged_kv_cache.Scheduler.Names.{CowsIn-without, count-map-remove_at, writes-without}
use paged_kv_cache.Scheduler.Finish.{Left, without_running, free-Left}
use paged_kv_cache.Scheduler.Step.{Stepping, without, preempt}
use paged_kv_cache.Scheduler.Decode.{Decoded}

abbrev pub waiting_again : RunningSeq → PendingSeq
waiting_again seq = record {
  id = seq.id;
  context_len = seq.table.num_tokens;
  max_new_tokens = usize_sub seq.max_new_tokens seq.generated;
  prompt = seq.prompt;
}

-- The step after the sequence at `k` has yielded, with the scheduler `t` that `free` left.
abbrev yielded : Stepping → RunningSeq → Scheduler → Stepping
yielded s seq t =
    let outcome = s.outcome in
    record {
      scheduler = record t { waiting = waiting_again seq ∷ t.waiting };
      outcome = record outcome {
        decoded = without seq.id outcome.decoded;
        preempted = outcome.preempted ++ seq.id ∷ [];
      };
    }

preempt-eq :
    (s : Stepping) (k : ℕ) (seq : RunningSeq) (t : Scheduler)
    → get_elem? s.scheduler.running k ≡ some seq
    → on_pool (free seq.table) (without_running s.scheduler k) ≡ ok tt t
    → preempt k s ≡ ok tt (yielded s seq t)
unfolding preempt
preempt-eq s k seq t h p = ground (arith, h, p)

yielded_fits :
    (s : Stepping) (k : ℕ) (seq : RunningSeq) (t : Scheduler)
    → IsSound s.scheduler
    → get_elem? s.scheduler.running k ≡ some seq
    → Left s.scheduler k t
    → (j : ℕ) (o : PendingSeq) → get_elem? (yielded s seq t).scheduler.waiting j ≡ some o
    → PendingFits o
yielded_fits s k seq t w h x zero o r =
    let same : waiting_again seq ≡ o = ground (arith, r) in
    subst PendingFits same
      (record { prompt = (w.seqs k seq h).prompt; small = IsSound-tokens s.scheduler k seq w h })
yielded_fits s k seq t w h x (suc j) o r = x.owns.pending j o r

-- The sequence at `k` has yielded: all that a step shows of it.
pub record Yielded (k : ℕ) (s t : Stepping) : Type 0 where
  pub seq : RunningSeq
  pub found : get_elem? s.scheduler.running k ≡ some seq
  pub running : t.scheduler.running ≡ remove_at k s.scheduler.running
  pub waiting : t.scheduler.waiting ≡ waiting_again seq ∷ s.scheduler.waiting
  pub decoded : t.outcome.decoded ≡ without seq.id s.outcome.decoded
  pub preempted : t.outcome.preempted ≡ s.outcome.preempted ++ seq.id ∷ []

-- The newest sequence yields: it is out of the running ones, and first of those that wait.
pub preempt-Returns :
    (s : Stepping)
    → IsSound s.scheduler
    → 0 < length s.scheduler.running
    → Returns
        (λ _ t.
          Decoded s t
          × (length s.scheduler.running ≡ suc (length t.scheduler.running))
          × Yielded (length s.scheduler.running - 1) s t)
        (preempt (length s.scheduler.running - 1) s)
preempt-Returns s w l =
    let k : ℕ = length s.scheduler.running - 1 in
    let (seq, h) = get_elem?-last s.scheduler.running l in
    let (u, t, p, x) =
      Returns-eq _ (on_pool (free seq.table) (without_running s.scheduler k))
        (free-Left s.scheduler k seq w h) in
    let shorter = length-remove_at k s.scheduler.running seq h in
    let more = length-append s.outcome.preempted (seq.id ∷ []) in
    rw (preempt-eq s k seq t h p) (
      record {
        owns = record {
          valid = x.owns.valid;
          counts = x.owns.counts;
          within = x.owns.within;
          seqs = x.owns.seqs;
          batch = x.owns.batch;
          pending = λ j o r. yielded_fits s k seq t w h x j o r;
          ordered = x.owns.ordered;
          positive = x.owns.positive;
          capacity = x.owns.capacity;
          limit = x.owns.limit;
        };
        running = ground (arith, x.running, shorter, more);
        waiting = ground (arith, x.waiting, more);
        finished = refl;
        prefills = refl;
        sizes = record { blocks = x.blocks; block_size = x.block_size; limit = x.limit };
        stopped = λ j. ground (
          arith,
          x.running,
          count-map-remove_at (λ (o : RunningSeq). o.id) j k s.scheduler.running seq h,
          count-append j s.outcome.preempted (seq.id ∷ []),
        );
        requeued = λ j. ground (arith, x.waiting, count-append j s.outcome.preempted (seq.id ∷ []));
        grows = λ j. omega (arith, count-append j s.outcome.preempted (seq.id ∷ []));
        written = λ j l. omega (arith, l, writes-without j seq.id s.outcome.decoded);
        admitted = refl;
        copies = λ n l c. CowsIn-without n seq.id s.outcome.decoded c;
      },
      ground (arith, x.running, shorter),
      record {
        seq = seq;
        found = h;
        running = x.running;
        waiting = ap (λ ps. waiting_again seq ∷ ps) x.waiting;
        decoded = refl;
        preempted = refl;
      },
    )
