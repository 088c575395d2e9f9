-- ===== src/Engine/Cancel.antt =====
-- `cancel` of engine.rs.
use paged_kv_cache.Prelude.{
  ℕ, zero, suc, ◌+◌, ◌≡◌, ◌≢◌, ◌⊎◌, inl, inr, refl, sym, subst, ◌∙◌, true, false, some, none, List,
  [], ◌∷◌, ◌==◌, is_some, get_elem?, if◌then◌else◌, Every, Bool-cases, Option-cases, arith,
}
use native.Mathlib.Decide.{ℕ_discrete}
use paged_kv_cache.Outcome.{ok, Post-cases}
use paged_kv_cache.Scheduler.{
  PendingSeq, RunningSeq, Scheduler, finish_sequence, position, waiting_position, remove_at,
}
use paged_kv_cache.Scheduler.Tables.{IsSound, position-some}
use paged_kv_cache.Scheduler.Names.{runs, queues, count-map-remove_at}
use paged_kv_cache.Scheduler.Finish.{Finished as Finishes, Unknown, finish_sequence-Post}
use paged_kv_cache.Fallible.{done, Done}
use paged_kv_cache.Engine.{Request, Engine, find, erase, cancel}
use paged_kv_cache.Engine.Requests.{find-erase}
use paged_kv_cache.Engine.Alive.{Serves, Awaits, Holds}
use paged_kv_cache.Engine.Sampling.{running_others, queue_others}

-- Where a waiting sequence is found, and where none is.
waiting_position-some :
    (id : ℕ) (ps : List PendingSeq) (k : ℕ)
    → waiting_position id ps ≡ some k
    → (p : PendingSeq) × (get_elem? ps k ≡ some p) × (p.id ≡ id)
waiting_position-some id [] k h = ground (arith, h)
waiting_position-some id (p ∷ ps) k h = elim (Bool-cases (p.id == id)) [
  | inl e ↦ (p, ground (arith, e, h), ground (arith, e))
  | inr e ↦ elim (Option-cases (waiting_position id ps)) [
    | inl n ↦ ground (arith, e, n, h)
    | inr (j, n) ↦
        let (q, r, s) = waiting_position-some id ps j n in (q, ground (arith, e, n, r, h), s)
  ]
]

position-none-runs : (id : ℕ) (ss : List RunningSeq) → position id ss ≡ none → runs id ss ≡ 0
position-none-runs id [] h = refl
position-none-runs id (s ∷ ss) h = elim (Option-cases (position id ss)) [
  | inl n ↦ ground (arith, h, n, position-none-runs id ss n)
  | inr (k, p) ↦ ground (arith, h, p)
]

waiting_position-none-queues :
    (id : ℕ) (ps : List PendingSeq) → waiting_position id ps ≡ none → queues id ps ≡ 0
waiting_position-none-queues id [] h = refl
waiting_position-none-queues id (p ∷ ps) h = elim (Option-cases (waiting_position id ps)) [
  | inl n ↦ ground (arith, h, n, waiting_position-none-queues id ps n)
  | inr (k, q) ↦ ground (arith, h, q)
]

Every-remove_at :
    {A : Type 0} (P : A → Type 0) (k : ℕ) (xs : List A) → Every P xs → Every P (remove_at k xs)
Every-remove_at P k [] h = tt
Every-remove_at P zero (x ∷ xs) h = h.1
Every-remove_at P (suc k) (x ∷ xs) h = (h.0, Every-remove_at P k xs h.1)

-- The engine without a request: it runs and waits no more, and the others are as they were.
pub record Cancelled {B : Type 0} (id : ℕ) (e f : Engine B) : Type 0 where
  pub holds : Holds f
  pub gone : find id f.requests ≡ none
  pub others : (i : ℕ) → i ≢ id → find i f.requests ≡ find i e.requests
  pub idle : runs id f.scheduler.running + queues id f.scheduler.waiting ≡ 0

module _ {B : Type 0} (e : Engine B) (x : Holds e) (id : ℕ) where
  abbrev left : Scheduler → Engine B
  left t = record e { scheduler = t; requests = erase id e.requests }

  cancelled-eq :
      (q : Request) (t : Scheduler)
      → find id e.requests ≡ some q
      → finish_sequence id e.scheduler ≡ ok tt t
      → cancel id e ≡ done true (left t)
  unfolding cancel
  cancelled-eq q t h p = ground (arith, h, p)

  unknown-eq : find id e.requests ≡ none → cancel id e ≡ done false e
  unfolding cancel
  unknown-eq h = ground (arith, h)

  -- A scheduler from which the id alone is gone.
  left-Cancelled :
      (t : Scheduler)
      → IsSound t
      → Every (Serves e.requests 0) t.running
      → Every (Awaits e.requests) t.waiting
      → ((i : ℕ)
          → runs i t.running + queues i t.waiting + (if id == i then 1 else 0)
            ≡ runs i e.scheduler.running + queues i e.scheduler.waiting)
      → Cancelled id e (left t)
  left-Cancelled t w serving waiting c =
      let vs : List (ℕ × Request) = erase id e.requests in
      let same : (i : ℕ) → i ≢ id → find i vs ≡ find i e.requests =
        λ i n. ground (arith, n, find-erase i id e.requests) in
      let gone : find id vs ≡ none = ground (arith, find-erase id id e.requests) in
      let idle : runs id t.running + queues id t.waiting ≡ 0 =
        ground (arith, c id, x.distinct id) in
      record {
        holds = record {
          sound = w;
          running = running_others id e.requests vs same 0 t.running (omega (arith, idle)) serving;
          waiting = queue_others id e.requests vs same t.waiting (omega (arith, idle)) waiting;
          distinct = λ i. omega (arith, c i, x.distinct i);
          present = λ i q h. elim (ℕ_discrete i id) [
            | yes s ↦ absurd (ground (arith, h, s, gone))
            | no n ↦ ground (arith, n, c i, x.present i q (sym (same i n) ∙ h))
          ];
        };
        gone = gone;
        others = same;
        idle = idle;
      }

  -- In an engine whose requests are the sequences of its scheduler, `cancel` ends without an error
  -- or a panic: it says whether the id has a request; if it has none, nothing has changed;
  -- otherwise the request and its sequence are gone, the others are as they were, and the requests
  -- still are the sequences.
  pub cancel-Done :
      Done
        (λ known f.
          (known ≡ is_some (find id e.requests))
          × (((known ≡ false) × (f ≡ e)) ⊎ ((known ≡ true) × Cancelled id e f)))
        (cancel id e)
  cancel-Done = elim (Option-cases (find id e.requests)) [
    | inl h ↦ rw (unknown-eq h) (ground (arith, h), inl (refl, refl))
    | inr (q, h) ↦
        elim (Post-cases (λ _ t. IsSound t × Finishes id e.scheduler t) (Unknown id e.scheduler)
          (finish_sequence id e.scheduler) (finish_sequence-Post id e.scheduler x.sound)) [
            | inl (u, t, p, (w, inl (k, at, y))) ↦
                let (seq, found, named) = position-some id e.scheduler.running k at in
                rw (cancelled-eq q t h p) (
                  ground (arith, h),
                  inr (
                    refl,
                    left-Cancelled t w
                        (subst (Every (Serves e.requests 0)) (sym y.running)
                          (Every-remove_at _ k e.scheduler.running x.running))
                        (subst (Every (Awaits e.requests)) (sym y.waiting) x.waiting)
                        (λ i. ground (
                          arith,
                          y.running,
                          y.waiting,
                          named,
                          count-map-remove_at (λ (o : RunningSeq). o.id) i k e.scheduler.running seq
                              found,
                        )),
                  ),
                )
            | inl (u, t, p, (w, inr (none_runs, k, at, same))) ↦
                let (seq, found, named) = waiting_position-some id e.scheduler.waiting k at in
                rw (cancelled-eq q t h p) (
                  ground (arith, h),
                  inr (
                    refl,
                    left-Cancelled t w
                        (subst (λ s. Every (Serves e.requests 0) s.running) (sym same) x.running)
                        (subst (λ s. Every (Awaits e.requests) s.waiting) (sym same)
                          (Every-remove_at _ k e.scheduler.waiting x.waiting))
                        (λ i. ground (
                          arith,
                          same,
                          named,
                          count-map-remove_at (λ (o : PendingSeq). o.id) i k e.scheduler.waiting seq
                              found,
                        )),
                  ),
                )
            | inr (c, t, p, (none_runs, none_waits, which, same)) ↦ absurd (
                omega (
                  arith,
                  x.present id q h,
                  position-none-runs id e.scheduler.running none_runs,
                  waiting_position-none-queues id e.scheduler.waiting none_waits,
                ))
          ]
  ]
