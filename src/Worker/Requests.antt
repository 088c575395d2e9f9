-- ===== src/Worker/Requests.antt =====
-- The requests of worker.rs as they come and go: `admit`, `drop_disconnected` and `step`.
use paged_kv_cache.Prelude.{
  ℕ, ◌+◌, ◌%◌, ◌^◌, ◌<◌, ◌≡◌, ◌⊎◌, inl, inr, refl, sym, ap, subst, ◌∙◌, Bool, true, false, List, [],
  ◌∷◌, ◌==◌, is_some, length, count, if◌then◌else◌, Every, arith,
}
use native.Mathlib.Decide.{ℕ_discrete}
use paged_kv_cache.Outcome.{M, Returns}
use paged_kv_cache.Scheduler.Admission.{HasRoom}
use paged_kv_cache.Fallible.{done, F, Done, Done-eq}
use paged_kv_cache.Model.{SeqInput}
use paged_kv_cache.Model.Layout.{WellFormed}
use paged_kv_cache.Engine.{Engine, find, erase, insert, cancel}
use paged_kv_cache.Engine
use paged_kv_cache.Engine.Requests.{find-erase}
use paged_kv_cache.Engine.Alive.{Holds}
use paged_kv_cache.Engine.Sampling.{has}
use paged_kv_cache.Engine.Generate.{step-Generated}
use paged_kv_cache.Engine.Cancel.{Cancelled, cancel-Done}
use paged_kv_cache.Worker.{Worker, Submit, drop_all, count_cancelled, step}
use paged_kv_cache.Worker.Served.{Serving, clients, finals, keys-erase, step-Serving}

module _ {B : Type 0} (submit : Submit) (w : Worker B) (x : Serving w)
    (room : w.next_id + 1 < 2 ^ 64) where
  abbrev id : ℕ
  id = w.next_id

  abbrev client : ℕ
  client = submit.events

  abbrev next : Worker B
  next = record w { next_id = (id + 1) % 2 ^ 64 }

  -- The worker with the new request.
  abbrev serving_also : Engine B → Worker B
  serving_also e = record next { engine = e; live = insert id client w.live }

module _ {B : Type 0} where
  has-Cancelled :
      (gone : ℕ) (e f : Engine B) (known : Bool)
      → known ≡ is_some (find gone e.requests)
      → ((known ≡ false) × (f ≡ e)) ⊎ ((known ≡ true) × Cancelled gone e f)
      → (i : ℕ) → has i f.requests ≡ (if i == gone then 0 else has i e.requests)
  has-Cancelled gone e f known k (inl (no_request, same)) i = elim (ℕ_discrete i gone) [
    | yes s ↦ ap (λ b. has i b.requests) same ∙ ground (arith, s, k, no_request)
    | no n ↦ ap (λ b. has i b.requests) same ∙ ground (arith, n)
  ]
  has-Cancelled gone e f known k (inr (request, c)) i = elim (ℕ_discrete i gone) [
    | yes s ↦ ground (arith, s, c.gone)
    | no n ↦ ground (arith, n, c.others i n)
  ]

  drop-eq :
      (id : ℕ) (ids : List ℕ) (w : Worker B) (known : Bool) (e : Engine B)
      → cancel id w.engine ≡ done known e
      → drop_all (id ∷ ids) w
        ≡ drop_all ids
            (record w { engine = e; live = erase id w.live; metrics = count_cancelled w.metrics })
  unfolding drop_all
  drop-eq id ids w known e p = rw p refl

  -- The requests with these ids are cancelled: they are live no more, and neither the engine has
  -- them; the others still are, the live requests are those of the engine, and nobody is told
  -- anything.
  pub drop_all-Serving :
      (ids : List ℕ) (w : Worker B)
      → Serving w
      → Done
          (λ _ v.
            Serving v
            × (v.next_id ≡ w.next_id)
            × (v.sent ≡ w.sent)
            × ((i : ℕ) → has i v.live ≡ (if count i ids == 0 then has i w.live else 0)))
          (drop_all ids w)
  unfolding drop_all
  drop_all-Serving [] w x = (x, refl, refl, λ i. refl)
  drop_all-Serving (id ∷ ids) w x =
      let (known, e, p, (k, c)) =
        Done-eq _ (cancel id w.engine) (cancel-Done w.engine x.holds id) in
      let next : Worker B = record w {
        engine = e;
        live = erase id w.live;
        metrics = count_cancelled w.metrics;
      } in
      let left : (i : ℕ) → has i e.requests ≡ (if i == id then 0 else has i w.engine.requests) =
        λ i. has-Cancelled id w.engine e known k c i in
      let y : Serving next = record {
        holds = elim c [ inl (f, s) ↦ subst Holds (sym s) x.holds | inr (t, z) ↦ z.holds ];
        same = λ i. ground (arith, left i, x.same i, find-erase i id w.live);
        once = λ i. omega (arith, x.once i, keys-erase i id w.live);
        fresh = λ i l. ground (arith, left i, x.fresh i l);
      } in
      let (u, v, q, (z, n, s, h)) = Done-eq _ (drop_all ids next) (drop_all-Serving ids next y) in
      rw (drop-eq id ids w known e p)
        (rw q (z, n, s, λ i. ground (arith, h i, find-erase i id w.live)))

  -- For a worker whose live requests are those of its engine, a backend that copies between blocks
  -- of the pool and a model that gives one token for each sequence of a well-formed batch, with ids
  -- left in the prefix cache and no waiting context as long as the largest `usize`, `step` ends
  -- without a panic: the live requests still are those of the engine, and of the requests of each
  -- client that were live, each still is or its client has been told its end, once.
  pub step-Told :
      (copy_blocks : List (ℕ × ℕ) → M B (Unit {0})) (next_tokens : List SeqInput → F B (List ℕ))
      (w : Worker B)
      → Serving w
      → HasRoom w.engine.scheduler
      → ((pairs : List (ℕ × ℕ)) (cache : B)
          → Every
              (λ p.
                (p.0 < w.engine.scheduler.allocator.num_blocks)
                × (p.1 < w.engine.scheduler.allocator.num_blocks))
              pairs
          → Returns (λ _ _. Unit {0}) (copy_blocks pairs cache))
      → ((batch : List SeqInput) (cache : B)
          → 0 < length batch
          → Every
              (WellFormed w.engine.scheduler.block_size w.engine.scheduler.allocator.num_blocks)
              batch
          → Done (λ next _. length next ≡ length batch) (next_tokens batch cache))
      → Done
          (λ _ v.
            Serving v
            × (v.next_id ≡ w.next_id)
            × ((c : ℕ) → finals c v.sent + clients c v.live ≡ finals c w.sent + clients c w.live))
          (step (Engine.step copy_blocks next_tokens) w)
  step-Told copy_blocks next_tokens w x ids copying sampling =
      step-Serving (Engine.step copy_blocks next_tokens) w x
        (step-Generated copy_blocks next_tokens w.engine x.holds ids copying sampling)
