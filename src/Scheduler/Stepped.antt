-- ===== src/Scheduler/Stepped.antt =====
-- What `step` of scheduler.rs does: the sum of `admit`, `decode` and `retire_finished`.
use paged_kv_cache.Prelude.{
  count, ℕ, ◌+◌, ◌<◌, ◌≡◌, List, ◌++◌, map, length, length-append, get_elem?, some, arith, ◌∙◌,
}
use paged_kv_cache.Outcome.{ok, Returns, Returns-eq}
use paged_kv_cache.Scheduler.{PendingSeq, RunningSeq, Scheduler}
use paged_kv_cache.Scheduler.Names.{
  runs, queues, writes, fills, SameSizes, SameSizes-trans, count-map-append,
}
use paged_kv_cache.Scheduler.Tables.{IsSound}
use paged_kv_cache.Scheduler.Step.{
  Stepping, StepOutcome, no_outcome, admit, decode, retire_finished, step,
}
use paged_kv_cache.Scheduler.Admission.{HasRoom, admit-Entered}
use paged_kv_cache.Scheduler.Rounds.{decode-Decoded}
use paged_kv_cache.Scheduler.Retire.{retire_finished-Retired}

-- One step: the scheduler stays sound, a front of the queue was admitted in its order, every
-- sequence still runs, waits or has finished, and those that run want more tokens.
pub record Stepped (s : Scheduler) (o : StepOutcome) (t : Scheduler) : Type 0 where
  pub owns : IsSound t
  pub new : List PendingSeq
  pub rest : List PendingSeq
  pub queue : s.waiting ≡ new ++ rest
  pub admitted : o.admitted ≡ map (λ p. p.id) new
  pub requeued : length t.waiting ≡ length o.preempted + length rest
  pub conserved :
      (i : ℕ)
      → runs i t.running + queues i t.waiting + count i o.finished
        ≡ runs i s.running + queues i s.waiting
  pub reported :
      (i : ℕ)
      → 0 < fills i o.prefills + writes i o.decoded + count i o.preempted + count i o.finished
      → 0 < runs i s.running + queues i s.waiting
  pub sizes : SameSizes s t
  pub kept :
      length t.running + length t.waiting + length o.finished ≡ length s.running + length s.waiting
  pub wanting :
      (k : ℕ) (seq : RunningSeq)
      → get_elem? t.running k ≡ some seq
      → seq.generated < seq.max_new_tokens

abbrev pub begun : Scheduler → Stepping
begun s = record { scheduler = s; outcome = no_outcome }

pub step-eq :
    (s : Scheduler) (t u v : Stepping)
    → admit (begun s) ≡ ok tt t
    → decode t ≡ ok tt u
    → retire_finished u ≡ ok tt v
    → step s ≡ ok v.outcome v.scheduler
unfolding step
step-eq s t u v p q r = ground (arith, p, q, r)

-- In a sound scheduler whose cache has ids left for the prompts of the queue, and in which no
-- waiting context is as long as the largest `usize`, `step` ends without an error or a panic and
-- leaves a sound scheduler: what it reports as admitted is a front of the queue, in its order; as
-- many wait as were left of the queue or preempted; each id runs, waits or is reported as finished
-- as often as it ran or waited before, and only such ids are reported; and every sequence that
-- still runs wants more tokens.
pub step-Stepped : (s : Scheduler) → IsSound s → HasRoom s → Returns (λ o t. Stepped s o t) (step s)
step-Stepped s w ids =
    let (_, t, p, x) = Returns-eq _ (admit (begun s)) (admit-Entered (begun s) (w, ids)) in
    let (_, u, q, y) = Returns-eq _ (decode t) (decode-Decoded t x.owns) in
    let (_, v, r, z) = Returns-eq _ (retire_finished u) (retire_finished-Retired u y.owns) in
    rw (step-eq s t u v p q r) (record {
      owns = z.owns;
      new = x.new;
      rest = t.scheduler.waiting;
      queue = x.queue;
      admitted = z.admitted ∙ y.admitted ∙ x.admitted;
      requeued = ground (arith, z.waiting, y.waiting, x.preempted, z.preempted);
      conserved = λ i. ground (
        arith,
        z.ids i,
        z.waiting,
        y.stopped i,
        y.requeued i,
        y.finished,
        x.ids i,
        x.finished,
        x.preempted,
        x.queue,
        count-map-append (λ (p : PendingSeq). p.id) i x.new t.scheduler.waiting,
      );
      reported = λ i l. ground (
        arith,
        l,
        z.ids i,
        z.prefills,
        z.decoded,
        z.preempted,
        y.stopped i,
        y.written i,
        y.finished,
        y.prefills,
        x.ids i,
        x.filled i,
        x.finished,
        x.preempted,
        x.decoded,
        x.queue,
        count-map-append (λ (p : PendingSeq). p.id) i x.new t.scheduler.waiting,
      );
      sizes =
          SameSizes-trans s u.scheduler v.scheduler
            (SameSizes-trans s t.scheduler u.scheduler x.sizes y.sizes) z.sizes;
      kept = ground (
        arith,
        z.waiting,
        z.counted,
        y.running,
        y.waiting,
        y.finished,
        x.finished,
        x.preempted,
        x.running,
        x.queue,
        length-append x.new t.scheduler.waiting,
      );
      wanting = z.wanting;
    })
