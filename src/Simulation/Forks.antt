-- ===== src/Simulation/Forks.antt =====
-- What `fork` of sim.rs does to the session and its scheduler.
use paged_kv_cache.Prelude.{
  true, false, sym, ap, ◌∙◌, ℕ, zero, suc, ◌-◌, ◌≤◌, ◌<◌, ◌≡◌, ◌⊎◌, refl, inl, inr, none, some,
  Option-cases, Bool-cases, List, [], ◌∷◌, ◌==◌, if◌then◌else◌, map, length, subst, arith,
}
use paged_kv_cache.Error.{CacheError, unknown_sequence, batch_full}
use paged_kv_cache.Outcome.{ok, err, Post-cases, Returns}
use paged_kv_cache.Protocol.{
  Origin, Event, forked, Message, still_waiting, not_running, nothing_left, full_batch,
}
use paged_kv_cache.Scheduler.{RunningSeq, Scheduler, position, fork_sequence}
use paged_kv_cache.Scheduler.Finish.{Forked, fork_sequence-Post}
use paged_kv_cache.Scheduler.Snapshot.{
  RunningInfo, running_info, running_snapshot, waiting_snapshot,
}
use paged_kv_cache.Simulation.{add_u32, Simulation, Attempt, failed, returned}
use paged_kv_cache.Simulation.Queued.{IsLive, SameShape}
use paged_kv_cache.Simulation.Requests.{
  find_running, any_waiting, fork_refused, forked_as, fork_running, fork_found, fork,
}

-- A sequence that the snapshot shows is one that the scheduler finds.
find_running-position :
    (id : ℕ) (ss : List RunningSeq) (info : RunningInfo)
    → find_running id (map running_info ss) ≡ some info
    → (k : ℕ) × (position id ss ≡ some k)
find_running-position id [] info h = ground (arith, h)
find_running-position id (s ∷ ss) info h = elim (Bool-cases (s.id == id)) [
  | inl same ↦ (0, ground (arith, same))
  | inr other ↦
      let (k, p) = find_running-position id ss info (ground (arith, other, h)) in
      (suc k, ground (arith, other, p))
]

-- Why `fork` refuses.
pub data ForkRefusal {R : Type 0} (s : Simulation R) (parent : ℕ) : Message → Type 0 where
  waits_still :
      find_running parent (running_snapshot s.scheduler) ≡ none
      → any_waiting parent (waiting_snapshot s.scheduler) ≡ true
      → ForkRefusal s parent (still_waiting parent)
  runs_not :
      find_running parent (running_snapshot s.scheduler) ≡ none
      → any_waiting parent (waiting_snapshot s.scheduler) ≡ false
      → ForkRefusal s parent (not_running parent)
  all_generated :
      (info : RunningInfo)
      → find_running parent (running_snapshot s.scheduler) ≡ some info
      → info.max_new_tokens ≤ info.generated
      → ForkRefusal s parent (nothing_left parent)
  no_room :
      s.scheduler.max_batch_size ≤ length s.scheduler.running
      → ForkRefusal s parent (full_batch s.scheduler.max_batch_size)

-- The child is the newest running sequence, with what is left of the parent's tokens.
pub record Branched {R : Type 0} (s : Simulation R) (parent : ℕ) (e : Event) (t : Simulation R)
    : Type 0 where
  pub live : IsLive t
  pub info : RunningInfo
  pub shown : find_running parent (running_snapshot s.scheduler) ≡ some info
  pub left : info.generated < info.max_new_tokens
  pub child : Forked parent s.next_id (info.max_new_tokens - info.generated) s.scheduler t.scheduler
  pub named : e.seq_id ≡ s.next_id
  pub issued : t.next_id ≡ add_u32 s.next_id 1
  pub shape : SameShape s t

abbrev pub Split : {R : Type 0} → Simulation R → ℕ → Attempt Message Event → Simulation R → Type 0
Split s parent (failed m) t = (t ≡ s) × ForkRefusal s parent m
Split s parent (returned e) t = Branched s parent e t

module _ {R : Type 0} (s : Simulation R) (w : IsLive s) (parent : ℕ) (origin : Origin) where
  forked-eq :
      (n : ℕ) (t : Scheduler)
      → fork_sequence parent s.next_id (suc n) s.scheduler ≡ ok tt t
      → fork_running parent origin (suc n) s
        ≡ ok
            (returned (record { tick = s.tick; seq_id = s.next_id; kind = forked parent }))
            (forked_as s t parent origin)
  unfolding fork_running
  forked-eq n t p = rw p refl

  full-eq :
      (n : ℕ) (e : CacheError)
      → fork_sequence parent s.next_id (suc n) s.scheduler ≡ err e s.scheduler
      → fork_running parent origin (suc n) s ≡ ok (failed (fork_refused e)) s
  unfolding fork_running
  full-eq n e p = rw p refl

  fork_running-Split :
      (info : RunningInfo) (left : ℕ)
      → find_running parent (running_snapshot s.scheduler) ≡ some info
      → info.max_new_tokens - info.generated ≡ left
      → Returns (λ r t. Split s parent r t) (fork_running parent origin left s)
  unfolding fork_running
  fork_running-Split info zero shown e = (refl, all_generated info shown (omega (arith, e)))
  fork_running-Split info (suc n) shown e =
      elim (Post-cases _ _ (fork_sequence parent s.next_id (suc n) s.scheduler)
        (fork_sequence-Post parent s.next_id (suc n) s.scheduler w.sound)) [
          | inl (_, t, p, (sound, x)) ↦
              let (k, seq, at, here, same, ran, wait, free, blocks, size, cache) = x in
              rw (forked-eq n t p) (record {
                live = record { sound = sound; blocks = blocks ∙ w.blocks; size = size ∙ w.size };
                info = info;
                shown = shown;
                left = omega (arith, e);
                child =
                    subst (λ m. Forked parent s.next_id m s.scheduler t) (sym e)
                      (k, seq, at, here, same, ran, wait, free, blocks, size, cache);
                named = refl;
                issued = refl;
                shape = record { config = refl; tick = refl; events = refl; history = refl };
              })
          | inr (error, t, p, (same, why)) ↦
              let refused : fork_running parent origin (suc n) s
                  ≡ ok (failed (fork_refused error)) s =
                full-eq n error (p ∙ ap (err error) same) in
              rw refused (refl, refusal error why)
        ]
    where
      refusal :
          (error : CacheError)
          → ((position parent s.scheduler.running ≡ none) × (error ≡ unknown_sequence parent))
            ⊎ ((s.scheduler.max_batch_size ≤ length s.scheduler.running)
                × (error ≡ batch_full s.scheduler.max_batch_size))
          → ForkRefusal s parent (fork_refused error)
      refusal error (inl (nobody, _)) =
          let (k, found) = find_running-position parent s.scheduler.running info shown in
          absurd (ground (arith, nobody, found))
      refusal error (inr (full, is)) = rw is (no_room full)

  absent-eq :
      find_running parent (running_snapshot s.scheduler) ≡ none
      → fork parent origin s
        ≡ ok
            (failed (
              if any_waiting parent (waiting_snapshot s.scheduler)
              then still_waiting parent
              else not_running parent))
            s
  unfolding fork fork_found
  absent-eq gone = rw gone refl

  shown-eq :
      (info : RunningInfo)
      → find_running parent (running_snapshot s.scheduler) ≡ some info
      → fork parent origin s ≡ fork_running parent origin (info.max_new_tokens - info.generated) s
  unfolding fork fork_found
  shown-eq info shown = rw shown refl

  -- In a live session `fork` returns, and refuses only a sequence that does not run, one that has
  -- no tokens left or a full batch, tells which, and then changes nothing. Otherwise the scheduler
  -- runs a child of the first running sequence with that id, with its blocks and its prompt, under
  -- the next id, with what the sequence has left to generate, and the session stays live.
  pub fork-Split : Returns (λ r t. Split s parent r t) (fork parent origin s)
  fork-Split = elim (Option-cases (find_running parent (running_snapshot s.scheduler))) [
    | inl gone ↦ rw (absent-eq gone) (refl, absent gone)
    | inr (info, shown) ↦
        rw (shown-eq info shown)
          (fork_running-Split info (info.max_new_tokens - info.generated) shown refl)
  ]
    where
      absent :
          find_running parent (running_snapshot s.scheduler) ≡ none
          → ForkRefusal s parent (
              if any_waiting parent (waiting_snapshot s.scheduler)
              then still_waiting parent
              else not_running parent)
      absent gone = elim (Bool-cases (any_waiting parent (waiting_snapshot s.scheduler))) [
        | inl queued ↦ rw queued (waits_still gone queued)
        | inr unknown ↦ rw unknown (runs_not gone unknown)
      ]
