-- ===== src/Engine/Sampling.antt =====
-- The loop of `step` of engine.rs over the tokens that were sampled.
use paged_kv_cache.Prelude.{
  ℕ, ◌+◌, ◌%◌, ◌^◌, ◌≤◌, ◌<◌, ◌≡◌, ◌≢◌, ◌⊎◌, refl, ◌∙◌, Bool, true, false, ◌||◌, some, List, [],
  ◌∷◌, ◌++◌, map, leb, is_some, length, count, drop, if◌then◌else◌, Every, arith,
}
use paged_kv_cache.Outcome.{ok}
use paged_kv_cache.Scheduler.{PendingSeq, RunningSeq, Scheduler, usize_sub, finish_sequence}
use paged_kv_cache.Scheduler.Tables.{IsSound}
use paged_kv_cache.Scheduler.Names.{runs, queues}
use paged_kv_cache.Fallible.{done}
use paged_kv_cache.Engine.{
  Request, Finished, StepOutput, EngineStats, Engine, find, erase, insert, contains, stop,
  sample_one,
}
use paged_kv_cache.Engine.Alive.{Serves, Awaits}

-- A request that has ended: its last token, what it generated, and why it ends.
pub record Ended (rs : List (ℕ × Request)) (stops : List ℕ) (f : Finished) : Type 0 where
  pub request : Request
  pub found : find f.id rs ≡ some request
  pub token : ℕ
  pub tokens : f.tokens ≡ drop request.prompt_len (request.tokens ++ token ∷ [])
  pub within : length f.tokens ≤ request.max_new_tokens
  pub why : (length f.tokens ≡ request.max_new_tokens) ⊎ (contains token stops ≡ true)

-- Whether an id has a request.
abbrev pub has : {A : Type 0} → ℕ → List (ℕ × A) → ℕ
has i rs = if is_some (find i rs) then 1 else 0

abbrev pub ends : ℕ → List Finished → ℕ
ends i fs = count i (map (λ f. f.id) fs)

-- Between two tokens: the sequences of `todo` still have to get theirs.
pub record Sampling {B : Type 0} (rs : List (ℕ × Request)) (stops : List ℕ) (todo : List RunningSeq)
    (e : Engine B) : Type 0 where
  pub sound : IsSound e.scheduler
  pub went : List RunningSeq
  pub running : e.scheduler.running ≡ went ++ todo
  pub served : Every (Serves e.requests 0) went
  pub fed : Every (Serves e.requests 1) todo
  pub original : Every (λ o. find o.id e.requests ≡ find o.id rs) todo
  pub waiting : Every (Awaits e.requests) e.scheduler.waiting
  pub distinct : (i : ℕ) → runs i e.scheduler.running + queues i e.scheduler.waiting ≤ 1
  pub present :
      (i : ℕ) (q : Request)
      → find i e.requests ≡ some q
      → 0 < runs i e.scheduler.running + queues i e.scheduler.waiting
  pub stopping : e.stop_tokens ≡ stops

-- A change of the request of one id is none for the sequences with other ids.
module _ (id : ℕ) (rs us : List (ℕ × Request))
    (same : (i : ℕ) → i ≢ id → find i us ≡ find i rs) where
  pub running_others :
      (n : ℕ) (ss : List RunningSeq)
      → runs id ss ≡ 0
      → Every (Serves rs n) ss
      → Every (Serves us n) ss
  running_others n [] h x = tt
  running_others n (s ∷ ss) h x = (
    record {
      request = x.0.request;
      found = same s.id (λ e. absurd (ground (arith, h, e))) ∙ x.0.found;
      alive = x.0.alive;
      slots = x.0.slots;
      limit = x.0.limit;
      small = x.0.small;
    },
    running_others n ss (ground (arith, h)) x.1,
  )

  pub queue_others :
      (ps : List PendingSeq) → queues id ps ≡ 0 → Every (Awaits rs) ps → Every (Awaits us) ps
  queue_others [] h x = tt
  queue_others (p ∷ ps) h x = (
    record {
      request = x.0.request;
      found = same p.id (λ e. absurd (ground (arith, h, e))) ∙ x.0.found;
      alive = x.0.alive;
      context = x.0.context;
      limit = x.0.limit;
      small = x.0.small;
    },
    queue_others ps (ground (arith, h)) x.1,
  )

  pub original_others :
      (vs : List (ℕ × Request)) (ss : List RunningSeq)
      → runs id ss ≡ 0
      → Every (λ o. find o.id rs ≡ find o.id vs) ss
      → Every (λ o. find o.id us ≡ find o.id vs) ss
  original_others vs [] h x = tt
  original_others vs (s ∷ ss) h x = (
    same s.id (λ e. absurd (ground (arith, h, e))) ∙ x.0,
    original_others vs ss (ground (arith, h)) x.1,
  )

-- The request with a token more, the statistics with it, and the engine then.
abbrev pub with_token : Request → ℕ → Request
with_token q token = record q { tokens = q.tokens ++ token ∷ [] }

abbrev counted : EngineStats → EngineStats
counted s = record s { tokens_generated = (s.tokens_generated + 1) % 2 ^ 64 }

abbrev pub told : {B : Type 0} → Engine B → ℕ → Request → ℕ → Engine B
told e id q token = record e {
  requests = insert id (with_token q token) e.requests;
  stats = counted e.stats;
}

-- Whether the request ends with this token.
abbrev pub ending : List ℕ → Request → ℕ → Bool
ending stops q token =
    leb q.max_new_tokens (usize_sub (length (q.tokens ++ token ∷ [])) q.prompt_len)
    || contains token stops

abbrev pub sampled : StepOutput → ℕ → ℕ → StepOutput
sampled out id token = record out { sampled = out.sampled ++ (id, token) ∷ [] }

module _ {B : Type 0} (id token : ℕ) (out : StepOutput) (e : Engine B) (q : Request)
    (found : find id e.requests ≡ some q) where
  pub on-eq :
      ending e.stop_tokens q token ≡ false
      → sample_one id token out e ≡ done (sampled out id token) (told e id q token)
  unfolding sample_one
  on-eq h = rw found (rw h refl)

  pub stop-eq :
      (t : Scheduler)
      → ending e.stop_tokens q token ≡ true
      → finish_sequence id e.scheduler ≡ ok tt t
      → q.prompt_len ≤ length (q.tokens ++ token ∷ [])
      → sample_one id token out e
        ≡ done
            (record {
              sampled = out.sampled ++ (id, token) ∷ [];
              finished =
                  out.finished
                  ++ record { id = id; tokens = drop q.prompt_len (q.tokens ++ token ∷ []) } ∷ [];
            })
            (record (told e id q token) {
              scheduler = t;
              requests = erase id (insert id (with_token q token) e.requests);
            })
  unfolding sample_one stop
  stop-eq t h p l = rw found (rw h (rw p (ground (arith, l))))
