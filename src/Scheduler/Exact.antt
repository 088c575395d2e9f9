-- ===== src/Scheduler/Exact.antt =====
-- `step` of scheduler.rs, sequence by sequence.
use paged_kv_cache.Prelude.{
  ℕ, zero, suc, ◌+◌, ◌≤◌, ◌≡◌, refl, sym, ap, subst, ◌∙◌, inl, inr, some, none, List, [], ◌∷◌, ◌++◌,
  map, leb, length, get_elem?, if◌then◌else◌, Bool-cases, length-append, reverse, Paired, arith,
}
use mathlib.Core.List.{append-nil, append_assoc}
use paged_kv_cache.Outcome.{ok, Returns, Returns-eq, Returns-both}
use paged_kv_cache.BlockTable.{free}
use paged_kv_cache.Scheduler.{PendingSeq, RunningSeq, Scheduler, remove_at, on_pool}
use paged_kv_cache.Scheduler.Tables.{IsSound}
use paged_kv_cache.Scheduler.Names.{CowsIn, runs, queues, count-map-append}
use paged_kv_cache.Scheduler.Finish.{without_running, free-Left}
use paged_kv_cache.Scheduler.Step.{
  Stepping, StepOutcome, admit, decode, retire_loop, retire_finished, step,
}
use paged_kv_cache.Scheduler.Admission.{HasRoom, Started, Filled, admit-Entered}
use paged_kv_cache.Scheduler.Preempt.{waiting_again}
use paged_kv_cache.Scheduler.Turning.{Grew, get_elem?-middle}
use paged_kv_cache.Scheduler.Turns.{decode-Turned}
use paged_kv_cache.Scheduler.Retire.{
  finished_with, retire_one-eq, pass-eq, round-eq, retire_finished-Retired,
}
use paged_kv_cache.Scheduler.Stepped.{begun, step-eq}

-- Of these sequences, those that want more tokens, and those that have theirs.
abbrev pub wanting : List RunningSeq → List RunningSeq
wanting [] = []
wanting (s ∷ ss) = if leb s.max_new_tokens s.generated then wanting ss else s ∷ wanting ss

abbrev pub complete : List RunningSeq → List RunningSeq
complete [] = []
complete (s ∷ ss) = if leb s.max_new_tokens s.generated then s ∷ complete ss else complete ss

pub remove_at-middle :
    (xs : List RunningSeq) (y : RunningSeq) (ys : List RunningSeq)
    → remove_at (length xs) (xs ++ y ∷ ys) ≡ xs ++ ys
remove_at-middle [] y ys = refl
remove_at-middle (x ∷ xs) y ys = ap (λ l. x ∷ l) (remove_at-middle xs y ys)

past_end : {A : Type 0} (xs : List A) → get_elem? xs (length xs) ≡ none
past_end [] = refl
past_end (x ∷ xs) = past_end xs

end-eq :
    (n : ℕ) (s : Stepping) (i : ℕ)
    → get_elem? s.scheduler.running i ≡ none
    → retire_loop n i s ≡ ok tt s
unfolding retire_loop
end-eq zero s i h = refl
end-eq (suc n) s i h = ground (arith, h)

-- What `retire_finished` did to the sequences after `front`.
record Thinned (front back : List RunningSeq) (s t : Stepping) : Type 0 where
  running : t.scheduler.running ≡ front ++ wanting back
  finished : t.outcome.finished ≡ s.outcome.finished ++ map (λ o. o.id) (complete back)

retire_loop-Thinned :
    (n : ℕ) (front back : List RunningSeq) (s : Stepping)
    → IsSound s.scheduler
    → s.scheduler.running ≡ front ++ back
    → length back ≤ n
    → Returns (λ _ t. Thinned front back s t) (retire_loop n (length front) s)
retire_loop-Thinned n front [] s w e l =
    let rest : s.scheduler.running ≡ front = e ∙ append-nil front in
    rw (end-eq n s (length front) (ap (λ ss. get_elem? ss (length front)) rest ∙ past_end front))
      (record { running = e; finished = sym (append-nil s.outcome.finished) })
retire_loop-Thinned zero front (y ∷ back) s w e l = absurd (omega (arith, l))
retire_loop-Thinned (suc n) front (y ∷ back) s w e l =
    let i : ℕ = length front in
    let h : get_elem? s.scheduler.running i ≡ some y =
      ap (λ ss. get_elem? ss i) e ∙ get_elem?-middle front y back in
    elim (Bool-cases (leb y.max_new_tokens y.generated)) [
      | inl ended ↦
          let (u, t, p, x) =
            Returns-eq _ (on_pool (free y.table) (without_running s.scheduler i))
              (free-Left s.scheduler i y w h) in
          let rest : t.running ≡ front ++ back =
            x.running ∙ ap (remove_at i) e ∙ remove_at-middle front y back in
          let (v, z, q, r) = Returns-eq _ (retire_loop n i (finished_with s t y.id)) (
            retire_loop-Thinned n front back (finished_with s t y.id) x.owns rest
              (omega (arith, l))) in
          rw (round-eq i s y h n i _ (retire_one-eq i s y h t (ground arith) p)) (
            rw q (record {
              running = rw ended r.running;
              finished = rw ended (
                  r.finished
                  ∙ append_assoc s.outcome.finished (y.id ∷ []) (map (λ o. o.id) (complete back)));
            }))
      | inr more ↦
          let next : i + 1 ≡ length (front ++ y ∷ []) =
            omega (arith, length-append front (y ∷ [])) in
          let (v, z, q, r) = Returns-eq _ (retire_loop n (length (front ++ y ∷ [])) s) (
            retire_loop-Thinned n (front ++ y ∷ []) back s w
              (e ∙ sym (append_assoc front (y ∷ []) back)) (omega (arith, l))) in
          rw (round-eq i s y h n (i + 1) s (pass-eq i s y h (ground arith))) (
            rw next (
              rw q (record {
                running = rw more (r.running ∙ append_assoc front (y ∷ []) (wanting back));
                finished = rw more r.finished;
              })))
    ]

retire-Thinned :
    (s : Stepping)
    → IsSound s.scheduler
    → Returns (λ _ t. Thinned [] s.scheduler.running s t) (retire_finished s)
unfolding retire_finished
retire-Thinned s w =
    retire_loop-Thinned (length s.scheduler.running) [] s.scheduler.running s w refl (omega arith)

-- One step, with what became of each sequence: `new` is the front of the queue that was admitted,
-- `kept` got a token each and are `served` then, `gone` yielded.
pub record Moved (s : Scheduler) (o : StepOutcome) (t : Scheduler) : Type 0 where
  pub new : List PendingSeq
  pub rest : List PendingSeq
  pub newest : List RunningSeq
  pub kept : List RunningSeq
  pub gone : List RunningSeq
  pub served : List RunningSeq
  pub queue : s.waiting ≡ new ++ rest
  pub started : Paired Started new newest
  pub filled : Paired Filled new o.prefills
  pub whole : s.running ++ newest ≡ kept ++ gone
  pub grew : Paired Grew kept served
  pub running : t.running ≡ wanting served
  pub waiting : t.waiting ≡ map waiting_again gone ++ rest
  pub admitted : o.admitted ≡ map (λ p. p.id) new
  pub decoded : map (λ d. d.id) o.decoded ≡ map (λ r. r.id) kept
  pub preempted : o.preempted ≡ reverse (map (λ r. r.id) gone)
  pub finished : o.finished ≡ map (λ r. r.id) (complete served)
  pub copies : CowsIn s.allocator.num_blocks o.decoded

-- In a sound scheduler whose cache has ids left for the prompts of the queue, in which no waiting
-- context is as long as the largest `usize`, and in which no id runs or waits twice, `step` ends
-- without an error or a panic in a sound scheduler, and: a front of the queue starts to run behind
-- those that ran, each with its context, and is reported with what it reuses and what is computed,
-- at least one token of a context that has one; of all these a front gets exactly one token each,
-- and the rest yields, newest first, and waits in its order before the rest of the queue with the
-- tokens it had; and of those with a token, the ones that have all their tokens leave and are
-- reported, in order, and the others run on.
pub step-Moved :
    (s : Scheduler)
    → IsSound s
    → HasRoom s
    → ((i : ℕ) → runs i s.running + queues i s.waiting ≤ 1)
    → Returns (λ o t. IsSound t × Moved s o t) (step s)
step-Moved s w ids distinct =
    let (_, t, p, x) = Returns-eq _ (admit (begun s)) (admit-Entered (begun s) (w, ids)) in
    let once : (i : ℕ) → runs i t.scheduler.running ≤ 1 = λ i. ground (
      arith,
      x.ids i,
      x.queue,
      distinct i,
      count-map-append (λ (o : PendingSeq). o.id) i x.new t.scheduler.waiting,
    ) in
    let (_, u, q, y) =
      Returns-eq _ (decode t) (decode-Turned t x.owns once x.decoded x.preempted) in
    let (_, v, r, (z, z')) = Returns-eq _ (retire_finished u) (
      Returns-both _ _ (retire_finished u) (retire_finished-Retired u y.owns)
        (retire-Thinned u y.owns)) in
    rw (step-eq s t u v p q r) (
      z.owns,
      record {
        new = x.new;
        rest = t.scheduler.waiting;
        newest = x.newest;
        kept = y.kept;
        gone = y.gone;
        served = u.scheduler.running;
        queue = x.queue;
        started = x.started;
        filled = rw (z.prefills, y.prefills, x.reports) x.reported;
        whole = sym x.joined ∙ y.whole;
        grew = y.grew;
        running = z'.running;
        waiting = z.waiting ∙ y.waiting;
        admitted = z.admitted ∙ y.admitted ∙ x.admitted;
        decoded = ap (map (λ d. d.id)) z.decoded ∙ y.decoded;
        preempted = z.preempted ∙ y.preempted;
        copies =
            subst (λ n. CowsIn n v.outcome.decoded) x.sizes.blocks
              (subst (CowsIn t.scheduler.allocator.num_blocks) (sym z.decoded) y.copies);
        finished =
            z'.finished
            ∙ ap (λ l. l ++ map (λ o. o.id) (complete u.scheduler.running))
                (y.finished ∙ x.finished);
      },
    )
