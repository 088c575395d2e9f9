-- ===== src/Engine/Token.antt =====
-- One token of the loop of `step` of engine.rs, and the loop.
use paged_kv_cache.Prelude.{
  ℕ, ◌+◌, ◌-◌, ◌<◌, ◌≡◌, ◌≢◌, inl, inr, refl, sym, ap, subst, ◌∙◌, true, false, some, none, List,
  [], ◌∷◌, ◌++◌, ◌==◌, map, leb, length, length-append, length-drop, drop, if◌then◌else◌, Every,
  Every-append, Bool-cases, get_elem?, arith,
}
use mathlib.Core.List.{append_assoc, append-nil, map-append}
use native.Mathlib.Decide.{ℕ_discrete}
use paged_kv_cache.Outcome.{Returns-eq}
use paged_kv_cache.BlockTable.{free}
use paged_kv_cache.Scheduler.{RunningSeq, Scheduler, position, remove_at, on_pool, usize_sub}
use paged_kv_cache.Scheduler.Tables.{IsSound-tokens}
use paged_kv_cache.Scheduler.Names.{runs, queues}
use paged_kv_cache.Scheduler.Finish.{Left, free-Left, finish-eq, without_running}
use paged_kv_cache.Scheduler.Admit.{sub-eq}
use paged_kv_cache.Scheduler.Turning.{position-at, get_elem?-middle, runs-append}
use paged_kv_cache.Scheduler.Exact.{remove_at-middle}
use paged_kv_cache.Scheduler.Snapshot.{running_info}
use paged_kv_cache.Fallible.{Done, Done-eq}
use paged_kv_cache.Engine.{
  Request, Finished, StepOutput, Engine, find, erase, insert, contains, sample_one, sample,
}
use paged_kv_cache.Engine.Requests.{find-erase, find-insert}
use paged_kv_cache.Engine.Alive.{Awaits}
use paged_kv_cache.Engine.Sampling.{
  Ended, has, ends, Sampling, running_others, queue_others, original_others, with_token, told,
  ending, sampled, on-eq, stop-eq,
}

ends-append :
    (i : ℕ) (fs : List Finished) (f : Finished)
    → ends i (fs ++ f ∷ []) ≡ ends i fs + (if f.id == i then 1 else 0)
ends-append i [] f = ground arith
ends-append i (g ∷ fs) f = ground (arith, ends-append i fs f)

-- What one token did.
record Told {B : Type 0} (rs : List (ℕ × Request)) (stops : List ℕ) (id token : ℕ) (e : Engine B)
    (out : StepOutput) (f : Engine B) (after : StepOutput) : Type 0 where
  names : after.sampled ≡ out.sampled ++ (id, token) ∷ []
  conserved :
      (i : ℕ) → has i f.requests + ends i after.finished ≡ has i e.requests + ends i out.finished
  ended : Every (Ended rs stops) out.finished → Every (Ended rs stops) after.finished
  queue : f.scheduler.waiting ≡ e.scheduler.waiting

module _ {B : Type 0} (rs : List (ℕ × Request)) (stops : List ℕ) (o : RunningSeq)
    (todo : List RunningSeq) (token : ℕ) (e : Engine B) (out : StepOutput)
    (x : Sampling rs stops (o ∷ todo) e) where
  abbrev q : Request
  q = x.fed.0.request

  abbrev us : List (ℕ × Request)
  us = insert o.id (with_token q token) e.requests

  grown_length : length (q.tokens ++ token ∷ []) ≡ length q.tokens + 1
  grown_length = length-append q.tokens (token ∷ [])

  alone : (runs o.id x.went ≡ 0) × (runs o.id todo ≡ 0) × (queues o.id e.scheduler.waiting ≡ 0)
  alone =
      let all = runs-append o.id x.went (o ∷ todo) in
      (
        ground (arith, x.distinct o.id, x.running, all),
        ground (arith, x.distinct o.id, x.running, all),
        ground (arith, x.distinct o.id, x.running, all),
      )

  here :
      (position o.id e.scheduler.running ≡ some (length x.went))
      × (get_elem? e.scheduler.running (length x.went) ≡ some o)
  here = (
    ap (position o.id) x.running ∙ position-at o.id x.went o todo alone.0 refl,
    ap (λ l. get_elem? l (length x.went)) x.running ∙ get_elem?-middle x.went o todo,
  )

  generated :
      usize_sub (length (q.tokens ++ token ∷ [])) q.prompt_len ≡ length q.tokens + 1 - q.prompt_len
  generated =
      let small = IsSound-tokens e.scheduler (length x.went) o x.sound here.1 in
      sub-eq (length (q.tokens ++ token ∷ [])) q.prompt_len
        (omega (arith, grown_length, x.fed.0.alive.prompt))
        (omega (arith, grown_length, small, x.fed.0.slots))
      ∙ ap (λ n. n - q.prompt_len) grown_length

  inserted : (i : ℕ) → i ≢ o.id → find i us ≡ find i e.requests
  inserted i n = ground (arith, n, find-insert i o.id (with_token q token) e.requests)

  -- The request goes on.
  goes_on :
      ending e.stop_tokens q token ≡ false
      → Sampling rs stops todo (told e o.id q token)
        × Told rs stops o.id token e out (told e o.id q token) (sampled out o.id token)
  goes_on h =
      let more : length q.tokens + 1 < q.prompt_len + q.max_new_tokens =
        ground (arith, h, generated, x.fed.0.alive.prompt) in
      let now : find o.id us ≡ some (with_token q token) =
        ground (arith, find-insert o.id o.id (with_token q token) e.requests) in
      (
        record {
          sound = x.sound;
          went = x.went ++ o ∷ [];
          running = x.running ∙ sym (append_assoc x.went (o ∷ []) todo);
          served =
              Every-append _ x.went (o ∷ [])
                (running_others o.id e.requests us inserted 0 x.went alone.0 x.served)
                (
                  record {
                    request = with_token q token;
                    found = now;
                    alive = record {
                      tokens = omega (arith, grown_length);
                      prompt = omega (arith, grown_length, x.fed.0.alive.prompt);
                      wants = omega (arith, grown_length, more);
                      small = x.fed.0.alive.small;
                    };
                    slots = omega (arith, grown_length, x.fed.0.slots);
                    limit = omega (arith, grown_length, x.fed.0.limit);
                    small = x.fed.0.small;
                  },
                  tt,
                );
          fed = running_others o.id e.requests us inserted 1 todo alone.1 x.fed.1;
          original = original_others o.id e.requests us inserted rs todo alone.1 x.original.1;
          waiting = queue_others o.id e.requests us inserted e.scheduler.waiting alone.2 x.waiting;
          distinct = x.distinct;
          present = λ i r p. elim (ℕ_discrete i o.id) [
            | yes s ↦ x.present i q (ap (λ j. find j e.requests) s ∙ x.fed.0.found)
            | no n ↦ x.present i r (sym (inserted i n) ∙ p)
          ];
          stopping = x.stopping;
        },
        record {
          names = refl;
          conserved = λ i. elim (ℕ_discrete i o.id) [
            | yes s ↦ ground (arith, s, now, x.fed.0.found)
            | no n ↦ ground (arith, inserted i n)
          ];
          ended = λ k. k;
          queue = refl;
        },
      )

  -- The request ends, and its sequence leaves the scheduler.
  abbrev vs : List (ℕ × Request)
  vs = erase o.id us

  abbrev told_end : StepOutput
  told_end = record {
    sampled = out.sampled ++ (o.id, token) ∷ [];
    finished =
        out.finished
        ++ record { id = o.id; tokens = drop q.prompt_len (q.tokens ++ token ∷ []) } ∷ [];
  }

  abbrev ended_with : Scheduler → Engine B
  ended_with t = record (told e o.id q token) { scheduler = t; requests = vs }

  erased : (i : ℕ) → i ≢ o.id → find i vs ≡ find i e.requests
  erased i n = ground (arith, n, find-erase i o.id us, inserted i n)

  gone : find o.id vs ≡ none
  gone = ground (arith, find-erase o.id o.id us)

  ends_as :
      ending e.stop_tokens q token ≡ true
      → Ended rs stops (record { id = o.id; tokens = drop q.prompt_len (q.tokens ++ token ∷ []) })
  ends_as h =
      let size : length (drop q.prompt_len (q.tokens ++ token ∷ []))
          ≡ length q.tokens + 1 - q.prompt_len =
        omega (arith, length-drop q.prompt_len (q.tokens ++ token ∷ []), grown_length) in
      record {
        request = q;
        found = sym x.original.0 ∙ x.fed.0.found;
        token = token;
        tokens = refl;
        within = omega (arith, size, x.fed.0.alive.wants, x.fed.0.alive.prompt);
        why =
            elim (Bool-cases
              (leb q.max_new_tokens (usize_sub (length (q.tokens ++ token ∷ [])) q.prompt_len))) [
                | inl all ↦ inl (
                    ground (arith, all, size, generated, x.fed.0.alive.wants, x.fed.0.alive.prompt))
                | inr less ↦ inr (ap (contains token) (sym x.stopping) ∙ ground (arith, h, less))
              ];
      }

  leaves :
      (t : Scheduler)
      → ending e.stop_tokens q token ≡ true
      → Left e.scheduler (length x.went) t
      → Sampling rs stops todo (ended_with t)
        × Told rs stops o.id token e out (ended_with t) told_end
  leaves t h y =
      let rest : t.running ≡ x.went ++ todo =
        y.running ∙ ap (remove_at (length x.went)) x.running ∙ remove_at-middle x.went o todo in
      let runs_of : (i : ℕ) → runs i t.running ≡ runs i x.went + runs i todo =
        λ i. ap (runs i) rest ∙ runs-append i x.went todo in
      let ran : (i : ℕ) → runs i e.scheduler.running ≡ runs i x.went + runs i (o ∷ todo) =
        λ i. ap (runs i) x.running ∙ runs-append i x.went (o ∷ todo) in
      let queue : (i : ℕ) → queues i t.waiting ≡ queues i e.scheduler.waiting =
        λ i. ap (queues i) y.waiting in
      (
        record {
          sound = y.owns;
          went = x.went;
          running = rest;
          served = running_others o.id e.requests vs erased 0 x.went alone.0 x.served;
          fed = running_others o.id e.requests vs erased 1 todo alone.1 x.fed.1;
          original = original_others o.id e.requests vs erased rs todo alone.1 x.original.1;
          waiting =
              subst (Every (Awaits vs)) (sym y.waiting)
                (queue_others o.id e.requests vs erased e.scheduler.waiting alone.2 x.waiting);
          distinct = λ i. ground (arith, x.distinct i, runs_of i, ran i, queue i);
          present = λ i r p. elim (ℕ_discrete i o.id) [
            | yes s ↦ absurd (ground (arith, p, s, gone))
            | no n ↦
                ground (arith, x.present i r (sym (erased i n) ∙ p), runs_of i, ran i, queue i, n)
          ];
          stopping = x.stopping;
        },
        record {
          names = refl;
          conserved = λ i. ground (
            arith,
            ends-append i out.finished
                (record { id = o.id; tokens = drop q.prompt_len (q.tokens ++ token ∷ []) }),
            erased i,
            gone,
            x.fed.0.found,
          );
          ended = λ k. Every-append _ out.finished _ k (ends_as h, tt);
          queue = y.waiting;
        },
      )

  sample_one-Sampling :
      Done
        (λ after f. Sampling rs stops todo f × Told rs stops o.id token e out f after)
        (sample_one o.id token out e)
  sample_one-Sampling = elim (Bool-cases (ending e.stop_tokens q token)) [
    | inl h ↦
        let (u, t, p, y) =
          Returns-eq _ (on_pool (free o.table) (without_running e.scheduler (length x.went)))
            (free-Left e.scheduler (length x.went) o x.sound here.1) in
        rw
          (stop-eq o.id token out e q x.fed.0.found t h
            (finish-eq o.id e.scheduler (length x.went) o here.0 here.1 ∙ p)
            (omega (arith, grown_length, x.fed.0.alive.prompt)))
          (leaves t h y)
    | inr h ↦ rw (on-eq o.id token out e q x.fed.0.found h) (goes_on h)
  ]

-- What the loop over the tokens did: every sequence of `todo` has sampled one.
pub record Sampled {B : Type 0} (rs : List (ℕ × Request)) (stops : List ℕ) (todo : List RunningSeq)
    (e : Engine B) (out : StepOutput) (f : Engine B) (after : StepOutput) : Type 0 where
  pub state : Sampling rs stops [] f
  pub names : map (λ p. p.0) after.sampled ≡ map (λ p. p.0) out.sampled ++ map (λ o. o.id) todo
  pub conserved :
      (i : ℕ) → has i f.requests + ends i after.finished ≡ has i e.requests + ends i out.finished
  pub ended : Every (Ended rs stops) out.finished → Every (Ended rs stops) after.finished
  pub queue : f.scheduler.waiting ≡ e.scheduler.waiting

pub sample-Sampled :
    {B : Type 0} (rs : List (ℕ × Request)) (stops : List ℕ) (todo : List RunningSeq)
    (tokens : List ℕ) (e : Engine B) (out : StepOutput)
    → length tokens ≡ length todo
    → Sampling rs stops todo e
    → Done
        (λ after f. Sampled rs stops todo e out f after)
        (sample (map running_info todo) tokens out e)
unfolding sample
sample-Sampled rs stops [] tokens e out l x = record {
  state = x;
  names = sym (append-nil (map (λ p. p.0) out.sampled));
  conserved = λ i. refl;
  ended = λ k. k;
  queue = refl;
}
sample-Sampled rs stops (o ∷ todo) [] e out l x = absurd (omega (arith, l))
sample-Sampled rs stops (o ∷ todo) (token ∷ tokens) e out l x =
    let (next, f, p, (y, z)) =
      Done-eq _ (sample_one o.id token out e) (sample_one-Sampling rs stops o todo token e out x) in
    let (after, g, r, v) =
      Done-eq _ (sample (map running_info todo) tokens next f)
        (sample-Sampled rs stops todo tokens f next (omega (arith, l)) y) in
    rw p (
      rw r (record {
        state = v.state;
        names =
            v.names
            ∙ ap (λ l. map (λ p. p.0) l ++ map (λ o. o.id) todo) z.names
            ∙ ap (λ l. l ++ map (λ o. o.id) todo)
                (map-append (λ p. p.0) out.sampled ((o.id, token) ∷ []))
            ∙ append_assoc (map (λ p. p.0) out.sampled) (o.id ∷ []) (map (λ o. o.id) todo);
        conserved = λ i. v.conserved i ∙ z.conserved i;
        ended = λ k. v.ended (z.ended k);
        queue = v.queue ∙ z.queue;
      }))
