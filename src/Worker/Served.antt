-- ===== src/Worker/Served.antt =====
-- What a request gets from worker.rs: it is live as long as the engine has it, and its client is told
-- once how it ended.
use paged_kv_cache.Prelude.{
  ℕ, ◌+◌, ◌≤◌, ◌≡◌, inl, inr, refl, sym, ap, subst, ◌∙◌, Bool, true, false, some, List, [], ◌∷◌,
  ◌++◌, ◌==◌, map, count, if◌then◌else◌, Bool-cases, Option-cases, arith,
}
use native.Mathlib.Decide.{ℕ_discrete}
use paged_kv_cache.Fallible.{done, F, Done, Done-eq}
use paged_kv_cache.Engine.{Engine, StepOutput, Finished, find, erase, contains}
use paged_kv_cache.Engine.Requests.{find-erase}
use paged_kv_cache.Engine.Alive.{Holds}
use paged_kv_cache.Engine.Sampling.{has, ends}
use paged_kv_cache.Engine.Generate.{Generated}
use paged_kv_cache.Worker.{
  Worker, Event, finish, token_event, done_event, failed_event, send_tokens, finish_all, step,
  stopped, stop, length_reached,
}

-- How many requests of a client are live, and how often it was told the end of one.
abbrev pub clients : ℕ → List (ℕ × ℕ) → ℕ
clients c live = count c (map (λ l. l.1) live)

abbrev pub keys : ℕ → List (ℕ × ℕ) → ℕ
keys i live = count i (map (λ l. l.0) live)

abbrev pub is_final : Event → Bool
is_final (token_event t) = false
is_final (done_event r) = true
is_final (failed_event x) = true

abbrev pub finals : ℕ → List (ℕ × Event) → ℕ
finals c [] = 0
finals c ((d, event) ∷ sent) =
    (if is_final event then (if d == c then 1 else 0) else 0) + finals c sent

-- The requests that are live are those of the engine, each once, and ids from `next_id` on are new.
pub record Serving {B : Type 0} (w : Worker B) : Type 0 where
  pub holds : Holds w.engine
  pub same : (i : ℕ) → has i w.live ≡ has i w.engine.requests
  pub once : (i : ℕ) → keys i w.live ≤ 1
  pub fresh : (i : ℕ) → w.next_id ≤ i → has i w.engine.requests ≡ 0

pub finals-append :
    (c d : ℕ) (event : Event) (sent : List (ℕ × Event))
    → finals c (sent ++ (d, event) ∷ [])
      ≡ finals c sent + (if is_final event then (if d == c then 1 else 0) else 0)
finals-append c d event [] = omega arith
finals-append c d event ((e, x) ∷ sent) = omega (arith, finals-append c d event sent)

pub keys-erase : (i id : ℕ) (live : List (ℕ × ℕ)) → keys i (erase id live) ≤ keys i live
keys-erase i id [] = omega arith
keys-erase i id ((j, c) ∷ live) = ground (arith, keys-erase i id live)

pub erase-none : (id : ℕ) (live : List (ℕ × ℕ)) → keys id live ≡ 0 → erase id live ≡ live
erase-none id [] h = refl
erase-none id ((j, c) ∷ live) h = ground (arith, h, erase-none id live)

pub find-none : (id : ℕ) (live : List (ℕ × ℕ)) → has id live ≡ 0 → keys id live ≡ 0
find-none id [] h = refl
find-none id ((j, c) ∷ live) h = ground (arith, h, find-none id live)

-- The entry of a live request is taken out, and no other.
clients-erase :
    (c id client : ℕ) (live : List (ℕ × ℕ))
    → find id live ≡ some client
    → keys id live ≤ 1
    → clients c live ≡ clients c (erase id live) + (if client == c then 1 else 0)
clients-erase c id client [] h l = ground (arith, h)
clients-erase c id client ((j, d) ∷ live) h l = elim (ℕ_discrete j id) [
  | yes e ↦ ground (arith, h, l, e, erase-none id live)
  | no n ↦ ground (arith, h, l, n, clients-erase c id client live)
]

-- Tokens are no ends.
module _ {B : Type 0} where
  send_tokens-quiet :
      (sampled : List (ℕ × ℕ)) (w : Worker B)
      → Done
          (λ _ v. (v ≡ record w { sent = v.sent }) × ((c : ℕ) → finals c v.sent ≡ finals c w.sent))
          (send_tokens sampled w)
  unfolding send_tokens
  send_tokens-quiet [] w = (refl, λ c. refl)
  send_tokens-quiet ((id, token) ∷ sampled) w = elim (Option-cases (find id w.live)) [
    | inl e ↦ rw e (send_tokens-quiet sampled w)
    | inr (client, e) ↦ elim (Bool-cases (contains token w.stop_tokens)) [
      | inl h ↦ rw (e, h) (send_tokens-quiet sampled w)
      | inr h ↦
          let more : Worker B = record w { sent = w.sent ++ (client, token_event token) ∷ [] } in
          let (u, v, p, (same, quiet)) =
            Done-eq _ (send_tokens sampled more) (send_tokens-quiet sampled more) in
          rw (e, h)
            (rw p (
              same,
              λ c. omega (arith, quiet c, finals-append c client (token_event token) w.sent),
            ))
    ]
  ]

-- What the loop over the finished requests did: `target` says which ids are live then.
record Closed {B : Type 0} (target : ℕ → ℕ) (w v : Worker B) : Type 0 where
  engine : v.engine ≡ w.engine
  next_id : v.next_id ≡ w.next_id
  same : (i : ℕ) → has i v.live ≡ target i
  once : (i : ℕ) → keys i v.live ≤ 1
  told : (c : ℕ) → finals c v.sent + clients c v.live ≡ finals c w.sent + clients c w.live

module _ {B : Type 0} where
  -- The worker after a request has ended.
  abbrev closed : Worker B → ℕ → ℕ → List ℕ → Worker B
  closed w id client tokens = record w {
    live = erase id w.live;
    sent =
        w.sent
        ++ (client, done_event (if stopped w.stop_tokens tokens then stop else length_reached))
          ∷ [];
    metrics = finish w.metrics;
  }

  finish-eq :
      (f : Finished) (fs : List Finished) (w : Worker B) (client : ℕ)
      → find f.id w.live ≡ some client
      → finish_all (f ∷ fs) w ≡ finish_all fs (closed w f.id client f.tokens)
  unfolding finish_all
  finish-eq f fs w client h = rw h refl

  finish_all-Closed :
      (target : ℕ → ℕ) (fs : List Finished) (w : Worker B)
      → ((i : ℕ) → has i w.live ≡ target i + ends i fs)
      → ((i : ℕ) → keys i w.live ≤ 1)
      → Done (λ _ v. Closed target w v) (finish_all fs w)
  unfolding finish_all
  finish_all-Closed target [] w h once = record {
    engine = refl;
    next_id = refl;
    same = λ i. omega (arith, h i);
    once = once;
    told = λ c. refl;
  }
  finish_all-Closed target (f ∷ fs) w h once = elim (Option-cases (find f.id w.live)) [
    | inl e ↦ absurd (ground (arith, h f.id, e))
    | inr (client, e) ↦
        let next : Worker B = closed w f.id client f.tokens in
        let (u, v, p, x) = Done-eq _ (finish_all fs next) (
          finish_all-Closed target fs next
            (λ i. elim (ℕ_discrete i f.id) [
              | yes s ↦ ground (arith, h i, e, s, find-erase i f.id w.live)
              | no n ↦ ground (arith, h i, n, find-erase i f.id w.live)
            ])
            (λ i. omega (arith, once i, keys-erase i f.id w.live))) in
        rw (finish-eq f fs w client e) (
          rw p (record {
            engine = x.engine;
            next_id = x.next_id;
            same = x.same;
            once = x.once;
            told = λ c. ground (
              arith,
              x.told c,
              clients-erase c f.id client w.live e (once f.id),
              finals-append c client
                  (done_event (if stopped w.stop_tokens f.tokens then stop else length_reached))
                  w.sent,
            );
          }))
  ]

  -- When the engine's step returns with what is promised of it, the worker's step ends without a
  -- panic: the requests that are live are still those of the engine, each once, with ids below
  -- `next_id`; and of the requests of each client that were live, each still is or its client has been
  -- told its end, once.
  pub step-Serving :
      (engine_step : F (Engine B) StepOutput) (w : Worker B)
      → Serving w
      → Done (λ out e. Generated w.engine out e) (engine_step w.engine)
      → Done
          (λ _ v.
            Serving v
            × (v.next_id ≡ w.next_id)
            × ((c : ℕ) → finals c v.sent + clients c v.live ≡ finals c w.sent + clients c w.live))
          (step engine_step w)
  unfolding step
  step-Serving engine_step w x promised =
      let (out, e, p, g) = Done-eq _ (engine_step w.engine) promised in
      let begun : Worker B = record w { engine = e } in
      let (_, quiet, q, (same, silent)) =
        Done-eq _ (send_tokens out.sampled begun) (send_tokens-quiet out.sampled begun) in
      let v : Worker B = record begun { sent = quiet.sent } in
      let (_, z, r, y) = Done-eq _ (finish_all out.finished v) (
        finish_all-Closed (λ i. has i e.requests) out.finished v
          (λ i. omega (arith, x.same i, g.conserved i)) x.once) in
      rw p (
        rw (q ∙ ap (done tt) same) (
          rw r (
            record {
              holds = subst Holds (sym y.engine) g.holds;
              same = λ i. y.same i ∙ ap (λ k. has i k.requests) (sym y.engine);
              once = y.once;
              fresh = λ i l.
                  ap (λ k. has i k.requests) y.engine
                  ∙ omega (arith, g.conserved i, x.fresh i (subst (λ n. n ≤ i) y.next_id l));
            },
            y.next_id,
            λ c. omega (arith, y.told c, silent c),
          )))
