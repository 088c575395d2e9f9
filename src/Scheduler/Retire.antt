-- ===== src/Scheduler/Retire.antt =====
-- What `retire_finished` of scheduler.rs does: every sequence that has its tokens leaves.
use native.Mathlib.Decide.{dec_lt}
use paged_kv_cache.Prelude.{
  count, count-append, get_elem?-range, ℕ, zero, suc, ◌+◌, ◌≤◌, ◌<◌, ◌≡◌, refl, inl, inr,
  Bool-cases, Option-cases, some, [], ◌∷◌, ◌++◌, leb, length, length-append, get_elem?, arith, ◌∙◌,
  subst,
}
use paged_kv_cache.Outcome.{ok, Returns, Returns-eq}
use paged_kv_cache.Allocator.{num_free}
use paged_kv_cache.BlockTable.{free}
use paged_kv_cache.Scheduler.{RunningSeq, Scheduler, on_pool}
use paged_kv_cache.Scheduler.Tables.{IsSound, length-remove_at, get_elem?-remove_at, get_elem?-none}
use paged_kv_cache.Scheduler.Names.{
  runs, SameSizes, SameSizes-refl, SameSizes-trans, count-map-remove_at,
}
use paged_kv_cache.Scheduler.Finish.{Left-SameSizes, without_running, free-Left}
use paged_kv_cache.Scheduler.Step.{Stepping, retire_one, retire_loop, retire_finished}

-- After a round of the loop that began at `i`: the sequences before `i` are untouched, those from
-- `i` on that are left want more tokens, and each one that left is reported.
pub record Retired (s t : Stepping) : Type 0 where
  pub owns : IsSound t.scheduler
  pub wanting :
      (k : ℕ) (seq : RunningSeq)
      → get_elem? t.scheduler.running k ≡ some seq
      → seq.generated < seq.max_new_tokens
  pub waiting : t.scheduler.waiting ≡ s.scheduler.waiting
  pub counted :
      length t.scheduler.running + length t.outcome.finished
      ≡ length s.scheduler.running + length s.outcome.finished
  pub admitted : t.outcome.admitted ≡ s.outcome.admitted
  pub preempted : t.outcome.preempted ≡ s.outcome.preempted
  pub decoded : t.outcome.decoded ≡ s.outcome.decoded
  pub prefills : t.outcome.prefills ≡ s.outcome.prefills
  pub sizes : SameSizes s.scheduler t.scheduler
  pub ids :
      (i : ℕ)
      → runs i t.scheduler.running + count i t.outcome.finished
        ≡ runs i s.scheduler.running + count i s.outcome.finished
  pub free : num_free s.scheduler.allocator ≤ num_free t.scheduler.allocator

abbrev pub finished_with : Stepping → Scheduler → ℕ → Stepping
finished_with s t id =
    let outcome = s.outcome in
    record { scheduler = t; outcome = record outcome { finished = outcome.finished ++ id ∷ [] } }

module _ (i : ℕ) (s : Stepping) (seq : RunningSeq)
    (h : get_elem? s.scheduler.running i ≡ some seq) where
  pub retire_one-eq :
      (t : Scheduler)
      → seq.max_new_tokens ≤ seq.generated
      → on_pool (free seq.table) (without_running s.scheduler i) ≡ ok tt t
      → retire_one i seq s ≡ ok i (finished_with s t seq.id)
  unfolding retire_one
  retire_one-eq t l p = ground (arith, h, p)

  pub pass-eq : seq.generated < seq.max_new_tokens → retire_one i seq s ≡ ok (i + 1) s
  unfolding retire_one
  pass-eq l = ground arith

  pub round-eq :
      (n j : ℕ) (t : Stepping)
      → retire_one i seq s ≡ ok j t
      → retire_loop (suc n) i s ≡ retire_loop n j t
  unfolding retire_loop
  round-eq n j t p = ground (arith, h, p)

wants_next :
    (i : ℕ) (s : Stepping) (seq : RunningSeq)
    → get_elem? s.scheduler.running i ≡ some seq
    → seq.generated < seq.max_new_tokens
    → ((k : ℕ) (o : RunningSeq)
        → k < i
        → get_elem? s.scheduler.running k ≡ some o
        → o.generated < o.max_new_tokens)
    → (k : ℕ) (o : RunningSeq) → k < i + 1
    → get_elem? s.scheduler.running k ≡ some o
    → o.generated < o.max_new_tokens
wants_next i s seq h l e k o b p = elim (dec_lt k i) [
  | yes less ↦ e k o less p
  | no last ↦
      let same : k ≡ i = omega (arith, last, b) in
      let eq : seq ≡ o = ground (arith, h, p, same) in
      subst (λ x. x.generated < x.max_new_tokens) eq l
]

retire_loop-Retired :
    (n i : ℕ) (s : Stepping)
    → IsSound s.scheduler
    → length s.scheduler.running ≤ n + i
    → ((k : ℕ) (seq : RunningSeq)
        → k < i
        → get_elem? s.scheduler.running k ≡ some seq
        → seq.generated < seq.max_new_tokens)
    → Returns (λ _ t. Retired s t) (retire_loop n i s)
unfolding retire_loop
retire_loop-Retired zero i s w l e = record {
  owns = w;
  wanting = λ k seq h. e k seq (omega (arith, get_elem?-range k s.scheduler.running seq h)) h;
  waiting = refl;
  counted = refl;
  admitted = refl;
  preempted = refl;
  decoded = refl;
  prefills = refl;
  sizes = SameSizes-refl s.scheduler;
  ids = λ i. refl;
  free = omega arith;
}
retire_loop-Retired (suc n) i s w l e = elim (Option-cases (get_elem? s.scheduler.running i)) [
  | inl h ↦
      let r : retire_loop (suc n) i s ≡ ok tt s = ground (arith, h) in
      rw r (record {
        owns = w;
        wanting = λ k seq p.
            e k seq
              (omega (
                arith,
                get_elem?-range k s.scheduler.running seq p,
                get_elem?-none i s.scheduler.running h,
              ))
              p;
        waiting = refl;
        counted = refl;
        admitted = refl;
        preempted = refl;
        decoded = refl;
        prefills = refl;
        sizes = SameSizes-refl s.scheduler;
        ids = λ i. refl;
        free = omega arith;
      })
  | inr (seq, h) ↦ elim (Bool-cases (leb seq.max_new_tokens seq.generated)) [
    | inl done ↦
        let (u, t, p, x) =
          Returns-eq _ (on_pool (free seq.table) (without_running s.scheduler i))
            (free-Left s.scheduler i seq w h) in
        let shorter = length-remove_at i s.scheduler.running seq h in
        let (v, z, q, y) = Returns-eq _ (retire_loop n i (finished_with s t seq.id)) (
          retire_loop-Retired n i (finished_with s t seq.id) x.owns
            (ground (arith, l, x.running, shorter))
            (λ k o b p'.
              e k o b
                (ground (arith, p', x.running, get_elem?-remove_at i k s.scheduler.running)))) in
        rw (round-eq i s seq h n i _ (retire_one-eq i s seq h t (ground arith) p)) (
          rw q (record {
            owns = y.owns;
            wanting = y.wanting;
            waiting = y.waiting ∙ x.waiting;
            counted = ground (
              arith,
              y.counted,
              x.running,
              shorter,
              length-append s.outcome.finished (seq.id ∷ []),
            );
            admitted = y.admitted;
            preempted = y.preempted;
            decoded = y.decoded;
            prefills = y.prefills;
            sizes =
                SameSizes-trans s.scheduler t z.scheduler (Left-SameSizes s.scheduler i t x)
                  y.sizes;
            ids = λ j. ground (
              arith,
              y.ids j,
              x.running,
              count-map-remove_at (λ (o : RunningSeq). o.id) j i s.scheduler.running seq h,
              count-append j s.outcome.finished (seq.id ∷ []),
            );
            free = omega (arith, x.free, y.free);
          }))
    | inr more ↦ rw (round-eq i s seq h n (i + 1) s (pass-eq i s seq h (ground arith))) (
        retire_loop-Retired n (i + 1) s w (omega (arith, l))
          (λ k o b p. wants_next i s seq h (ground arith) e k o b p))
  ]
]

-- In a sound scheduler `retire_finished` succeeds and keeps the scheduler sound: every sequence
-- that still runs wants more tokens, each that left is counted in `finished`, the queue and the
-- decoded tokens stay, and no fewer blocks are free.
pub retire_finished-Retired :
    (s : Stepping) → IsSound s.scheduler → Returns (λ _ t. Retired s t) (retire_finished s)
unfolding retire_finished
retire_finished-Retired s w =
    retire_loop-Retired (length s.scheduler.running) 0 s w (omega arith)
      (λ k seq h p. absurd (omega (arith, h)))
