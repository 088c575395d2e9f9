-- ===== src/Scheduler/Admission.antt =====
-- What `admit` of scheduler.rs does with the queue: the front of it runs, in its order, and the rest
-- still waits.
use paged_kv_cache.Prelude.{
  subst, Every, ◌-◌, Bool, some, get_elem?, ℕ, zero, suc, ◌+◌, ◌*◌, ◌^◌, ◌≤◌, ◌<◌, ◌≡◌, refl, true,
  false, List, [], ◌∷◌, ◌++◌, Paired, ltb, length, length-append, length-take, map, take, ap, arith,
  ◌∙◌, sym,
}
use mathlib.Core.List.{append-nil, append_assoc}
use paged_kv_cache.Outcome.{M, ok, Returns, Returns-eq}
use paged_kv_cache.Allocator.{Allocator, PrefixMatch, match_prefix}
use paged_kv_cache.Allocator.Entries.{next_entry}
use paged_kv_cache.Allocator.Match.{Matched, match_prefix-Matched}
use paged_kv_cache.BlockTable.{blocks_needed}
use paged_kv_cache.BlockTable.Owned.{needed}
use paged_kv_cache.BlockTable.Many.{blocks_needed-eq}
use paged_kv_cache.Scheduler.{Scheduler, PendingSeq, RunningSeq, remove_at}
use paged_kv_cache.Scheduler.Names.{
  runs, queues, fills, SameSizes, SameSizes-refl, SameSizes-trans, count-map-append,
}
use paged_kv_cache.Scheduler.Tables.{owners, IsSound, owned_at}
use paged_kv_cache.Scheduler.Step.{
  Prefill, admit_if, admit_front, admit_round, Stepping, matchable, can_admit, admit_one,
  admit_loop, reserve, admit,
}
use paged_kv_cache.Scheduler.Admit.{entered, Admitted, admit_one-Admitted}

-- How many tokens the prompts of the queue have: no admission registers more chunks.
abbrev pub prompts : List PendingSeq → ℕ
prompts [] = 0
prompts (p ∷ ps) = length p.prompt + prompts ps

-- A waiting sequence when it runs, and the report of what it reuses and what is computed.
pub record Started (p : PendingSeq) (o : RunningSeq) : Type 0 where
  pub id : o.id ≡ p.id
  pub prompt : o.prompt ≡ p.prompt
  pub limit : o.max_new_tokens ≡ p.max_new_tokens
  pub generated : o.generated ≡ 0
  pub tokens : o.table.num_tokens ≡ p.context_len

pub record Filled (p : PendingSeq) (f : Prefill) : Type 0 where
  pub id : f.id ≡ p.id
  pub total : f.cached_tokens + f.computed_tokens ≡ p.context_len
  pub cached : f.cached_tokens ≤ p.context_len - 1

-- The front `new` of the queue runs, in its order, and is reported as admitted.
pub record Entered (s t : Stepping) : Type 0 where
  pub owns : IsSound t.scheduler
  pub new : List PendingSeq
  pub queue : s.scheduler.waiting ≡ new ++ t.scheduler.waiting
  pub admitted : t.outcome.admitted ≡ s.outcome.admitted ++ map (λ p. p.id) new
  pub running : length t.scheduler.running ≡ length s.scheduler.running + length new
  pub newest : List RunningSeq
  pub joined : t.scheduler.running ≡ s.scheduler.running ++ newest
  pub started : Paired Started new newest
  pub fillings : List Prefill
  pub reports : t.outcome.prefills ≡ s.outcome.prefills ++ fillings
  pub reported : Paired Filled new fillings
  pub ids : (i : ℕ) → runs i t.scheduler.running ≡ runs i s.scheduler.running + queues i new
  pub filled : (i : ℕ) → fills i t.outcome.prefills ≡ fills i s.outcome.prefills + queues i new
  pub sizes : SameSizes s.scheduler t.scheduler
  pub decoded : t.outcome.decoded ≡ s.outcome.decoded
  pub preempted : t.outcome.preempted ≡ s.outcome.preempted
  pub finished : t.outcome.finished ≡ s.outcome.finished

Entered-refl : (s : Stepping) → IsSound s.scheduler → Entered s s
Entered-refl s w = record {
  owns = w;
  new = [];
  queue = refl;
  admitted = sym (append-nil s.outcome.admitted);
  running = omega arith;
  newest = [];
  joined = sym (append-nil s.scheduler.running);
  started = tt;
  fillings = [];
  reports = sym (append-nil s.outcome.prefills);
  reported = tt;
  ids = λ i. omega arith;
  filled = λ i. omega arith;
  sizes = SameSizes-refl s.scheduler;
  decoded = refl;
  preempted = refl;
  finished = refl;
}

pub Entered-step :
    (s t u : Stepping) (pending : PendingSeq) (rest : List PendingSeq) (cached : ℕ)
    → s.scheduler.waiting ≡ pending ∷ rest
    → cached ≤ pending.context_len - 1
    → Admitted s pending rest cached t
    → Entered t u
    → Entered s u
Entered-step s t u pending rest cached front few x y =
    let newest : RunningSeq = entered pending x.table cached in
    let filling : Prefill = record {
      id = pending.id;
      cached_tokens = cached;
      computed_tokens = pending.context_len - cached;
    } in
    record {
      owns = y.owns;
      new = pending ∷ y.new;
      queue = front ∙ ap (λ ps. pending ∷ ps) (sym x.waiting ∙ y.queue);
      admitted =
          rw (y.admitted, x.admitted)
            (append_assoc s.outcome.admitted (pending.id ∷ []) (map (λ p. p.id) y.new));
      running =
          ground (arith, y.running, x.running, length-append s.scheduler.running (newest ∷ []));
      newest = newest ∷ y.newest;
      joined =
          y.joined
          ∙ ap (λ l. l ++ y.newest) x.running
          ∙ append_assoc s.scheduler.running (newest ∷ []) y.newest;
      started = (
        record { id = refl; prompt = refl; limit = refl; generated = refl; tokens = x.tokens },
        y.started,
      );
      fillings = filling ∷ y.fillings;
      reports =
          y.reports
          ∙ ap (λ l. l ++ y.fillings) x.prefilled
          ∙ append_assoc s.outcome.prefills (filling ∷ []) y.fillings;
      reported = (record { id = refl; total = omega (arith, few); cached = few }, y.reported);
      ids = λ i. ground (
        arith,
        y.ids i,
        x.running,
        count-map-append (λ (o : RunningSeq). o.id) i s.scheduler.running (newest ∷ []),
      );
      filled = λ i. ground (
        arith,
        y.filled i,
        x.prefilled,
        count-map-append (λ (o : Prefill). o.id) i s.outcome.prefills (filling ∷ []),
      );
      sizes = SameSizes-trans s.scheduler t.scheduler u.scheduler x.sizes y.sizes;
      decoded = y.decoded ∙ x.decoded;
      preempted = y.preempted ∙ x.preempted;
      finished = y.finished ∙ x.finished;
    }

module _ (next : ℕ → M Stepping (Unit {0})) (reserved : ℕ) (s : Stepping) (pending : PendingSeq)
    (rest : List PendingSeq) (hit : PrefixMatch) (fits : Bool)
    (m : match_prefix
        (take (matchable pending) pending.prompt)
        s.scheduler.block_size
        s.scheduler.allocator
      ≡ ok hit s.scheduler.allocator)
    (h : 0 < s.scheduler.block_size) where
  pub front-eq :
      can_admit s.scheduler pending hit reserved ≡ fits
      → admit_front next reserved (pending ∷ rest) s ≡ admit_if next fits pending rest hit s
  front-eq q = ground (arith, m, q)

-- What `match_prefix` finds of a waiting prompt leaves at least one token of the context to compute.
pub hit_fits :
    (pending : PendingSeq) (k : ℕ)
    → k ≤ length (take (matchable pending) pending.prompt)
    → k ≤ pending.context_len - 1
hit_fits pending k h = omega (arith, h, length-take (matchable pending) pending.prompt)

-- The cache has ids left for the prompts of the queue, of 2^64, and no context of the queue is as
-- long as the largest `usize`.
abbrev pub HasRoom : Scheduler → Type 0
HasRoom s =
    (next_entry s.allocator.cache + prompts s.waiting < 2 ^ 64)
    × Every (λ p. p.context_len + 1 < 2 ^ 64) s.waiting

-- The scheduler is sound and has room for its queue.
abbrev pub Ready : Stepping → Type 0
Ready s = IsSound s.scheduler × HasRoom s.scheduler

module _ (next : ℕ → M Stepping (Unit {0}))
    (go : (reserved : ℕ) (s : Stepping) → Ready s → Returns (λ _ t. Entered s t) (next reserved s))
    (reserved : ℕ) (s : Stepping) (w : Ready s) where
  admit_if-Entered :
      (fits : Bool) (pending : PendingSeq) (rest : List PendingSeq) (hit : PrefixMatch)
      → s.scheduler.waiting ≡ pending ∷ rest
      → length s.scheduler.running < s.scheduler.max_batch_size
      → Matched s.scheduler.allocator hit
      → length hit.blocks * s.scheduler.block_size ≤ pending.context_len - 1
      → can_admit s.scheduler pending hit reserved ≡ fits
      → Returns
          (λ _ t. Entered s t)
          (admit_if (λ more. next (reserved + more)) fits pending rest hit s)
  admit_if-Entered false pending rest hit f batch m few e = Entered-refl s w.0
  admit_if-Entered true pending rest hit f batch m few e =
      let ids : next_entry s.scheduler.allocator.cache + (length pending.prompt + prompts rest)
          < 2 ^ 64 =
        ground (arith, w.1.0, f) in
      let long : Every (λ p. p.context_len + 1 < 2 ^ 64) (pending ∷ rest) =
        subst (Every (λ p. p.context_len + 1 < 2 ^ 64)) f w.1.1 in
      let (more, t, p, x) = Returns-eq _ (admit_one pending rest hit s) (
        admit_one-Admitted s pending rest hit reserved w.0 f batch m (omega (arith, few))
          (omega (arith, ids)) long.0 e) in
      let left : next_entry t.scheduler.allocator.cache + prompts t.scheduler.waiting < 2 ^ 64 =
        rw x.waiting (omega (arith, x.ids, ids)) in
      let later : Every (λ p. p.context_len + 1 < 2 ^ 64) t.scheduler.waiting =
        subst (Every (λ p. p.context_len + 1 < 2 ^ 64)) (sym x.waiting) long.1 in
      let (u, z, q, y) =
        Returns-eq _ (next (reserved + more) t) (go (reserved + more) t (x.owns, (left, later))) in
      rw p (
        rw q
          (Entered-step s t z pending rest (length hit.blocks * s.scheduler.block_size) f few x y))

  admit_round-Entered :
      (free : Bool) (waiting : List PendingSeq)
      → ltb (length s.scheduler.running) s.scheduler.max_batch_size ≡ free
      → s.scheduler.waiting ≡ waiting
      → Returns
          (λ _ t. Entered s t)
          (admit_round (λ more. next (reserved + more)) reserved free waiting s)
  admit_round-Entered false waiting e f = Entered-refl s w.0
  admit_round-Entered true [] e f = Entered-refl s w.0
  admit_round-Entered true (pending ∷ rest) e f =
      let a : Allocator = s.scheduler.allocator in
      let bs : ℕ = s.scheduler.block_size in
      let tokens : List ℕ = take (matchable pending) pending.prompt in
      let (order, v) = w.0.valid in
      let (hit, b, p, (m, few, same)) =
        Returns-eq _ (match_prefix tokens bs a)
          (match_prefix-Matched order a tokens bs v w.0.positive) in
      rw
        (front-eq (λ more. next (reserved + more)) reserved s pending rest hit
          (can_admit s.scheduler pending hit reserved) (p ∙ ap (ok hit) same) w.0.positive refl)
        (admit_if-Entered (can_admit s.scheduler pending hit reserved) pending rest hit f
          (ground (arith, e)) m (hit_fits pending (length hit.blocks * bs) few) refl)

-- In a sound scheduler whose cache has ids left for the prompts of the queue, the loop of `admit`
-- ends without an error or a panic, whatever is reserved, and keeps the scheduler sound: those it
-- admits are the front of the queue, in order.
pub admit_loop-Entered :
    (n reserved : ℕ) (s : Stepping)
    → Ready s
    → Returns (λ _ t. Entered s t) (admit_loop n reserved s)
unfolding admit_loop
admit_loop-Entered zero reserved s w = Entered-refl s w.0
admit_loop-Entered (suc n) reserved s w =
    admit_round-Entered (admit_loop n) (λ k t x. admit_loop-Entered n k t x) reserved s w
      (ltb (length s.scheduler.running) s.scheduler.max_batch_size) s.scheduler.waiting refl refl

reserve-eq :
    (a : Allocator) (seqs : List RunningSeq)
    → ((k : ℕ) (seq : RunningSeq)
        → get_elem? seqs k ≡ some seq
        → (n : ℕ) × (blocks_needed seq.table 1 a ≡ ok n a))
    → (n : ℕ) × (reserve seqs a ≡ ok n a)
unfolding reserve
reserve-eq a [] h = (0, refl)
reserve-eq a (seq ∷ seqs) h =
    let (n, p) = h 0 seq refl in
    let (m, q) = reserve-eq a seqs (λ k z e. h (suc k) z e) in (n + m, ground (arith, p, q))

pub admit-eq :
    (s t : Stepping) (reserved : ℕ)
    → reserve s.scheduler.running s.scheduler.allocator ≡ ok reserved s.scheduler.allocator
    → admit_loop (length s.scheduler.waiting) reserved s ≡ ok tt t
    → admit s ≡ ok tt t
unfolding admit
admit-eq s t reserved p q = ground (arith, p, q)

-- In a sound scheduler whose cache has ids left for the prompts of the queue, `admit` ends without
-- an error or a panic and keeps the scheduler sound: the sequences that it admits are the front of
-- the queue, in its order, they run and are reported, the rest of the queue still waits, and
-- nothing else is reported.
pub admit-Entered : (s : Stepping) → Ready s → Returns (λ _ t. Entered s t) (admit s)
admit-Entered s w =
    let running : List RunningSeq = s.scheduler.running in
    let (reserved, p) = reserve-eq s.scheduler.allocator running (λ k seq h. (
      needed seq.table s.scheduler.allocator 1,
      blocks_needed-eq (λ i. owners i (remove_at k running)) seq.table s.scheduler.allocator
          (w.0.seqs k seq h).fits (owned_at s.scheduler k seq w.0 h) 1,
    )) in
    let (u, t, q, x) =
      Returns-eq _ (admit_loop (length s.scheduler.waiting) reserved s)
        (admit_loop-Entered (length s.scheduler.waiting) reserved s w) in
    rw (admit-eq s t reserved p q) x
