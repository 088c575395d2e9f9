-- ===== src/Scheduler/Step.antt =====
-- `step` of scheduler.rs: `admit`, `decode` and `retire_finished`, which write to one outcome.
use paged_kv_cache.Prelude.{
  ℕ, zero, suc, ◌+◌, ◌-◌, ◌*◌, ◌%◌, ◌^◌, Bool, true, false, Option, none, some, List, [], ◌∷◌, ◌++◌,
  ◌==◌, ltb, leb, if◌then◌else◌, length, get_elem?, take, drop, div_ceil, min,
}
use paged_kv_cache.Error.{PhysicalSlot, CacheError, out_of_blocks}
use paged_kv_cache.Outcome.{
  Outcome, ok, err, panic, M, ◌>>=◌, ◌>>◌, pure, get, put, expect, divisor, on,
}
use paged_kv_cache.Allocator.{
  Allocator, PrefixMatch, num_free, prefix_caching, match_prefix, acquire_cached, cache_block,
}
use paged_kv_cache.Allocator.Chunks.{chunks_exact}
use paged_kv_cache.BlockTable.{
  BlockTable, CowCopy, Held, from_blocks, append, append_many, blocks_needed, free,
}
use paged_kv_cache.Scheduler.{
  PendingSeq, RunningSeq, Scheduler, usize_sub, position, set_at, on_pool, remove_running,
}

pub record DecodedToken : Type 0 where
  pub id : ℕ
  pub slot : PhysicalSlot
  pub cow : Option CowCopy

pub record Prefill : Type 0 where
  pub id : ℕ
  pub cached_tokens : ℕ
  pub computed_tokens : ℕ

pub record StepOutcome : Type 0 where
  pub admitted : List ℕ
  pub prefills : List Prefill
  pub decoded : List DecodedToken
  pub preempted : List ℕ
  pub finished : List ℕ

abbrev pub no_outcome : StepOutcome
no_outcome = record { admitted = []; prefills = []; decoded = []; preempted = []; finished = [] }

-- A scheduler in the middle of a step.
pub record Stepping : Type 0 where
  pub scheduler : Scheduler
  pub outcome : StepOutcome

abbrev pub on_scheduler : {A : Type 0} → M Scheduler A → M Stepping A
on_scheduler = on (λ s. s.scheduler) (λ s t. record s { scheduler = t })

abbrev pub record_outcome : (StepOutcome → StepOutcome) → M Stepping (Unit {0})
record_outcome f = do s ← get; put (record s { outcome = f s.outcome })

-- The blocks reserved at the start of `admit`.
unfoldable pub reserve : List RunningSeq → M Allocator ℕ
reserve [] = pure 0
reserve (seq ∷ seqs) = do n ← blocks_needed seq.table 1; m ← reserve seqs; pure (n + m)

unfoldable pub acquire_all : List ℕ → M Allocator (Unit {0})
acquire_all [] = pure tt
acquire_all (id ∷ ids) = do _ ← acquire_cached id; acquire_all ids

-- The loop of `cache_prompt`, from chunk `i` on.
unfoldable pub cache_chunks : List ℕ → ℕ → ℕ → List (List ℕ) → M Allocator (Unit {0})
cache_chunks blocks i parent [] = pure tt
cache_chunks blocks i parent (chunk ∷ chunks) = do
  block ← expect (get_elem? blocks i)
  entry ← cache_block block parent chunk
  cache_chunks blocks (i + 1) entry chunks

unfoldable pub cache_prompt : ℕ → BlockTable → List ℕ → ℕ → ℕ → M Allocator (Unit {0})
cache_prompt block_size table prompt skip parent = do
  a ← get
  if prefix_caching a
      then (do
        divisor block_size
        cache_chunks table.blocks skip parent (drop skip (chunks_exact block_size prompt)))
      else pure tt

abbrev pub fill : BlockTable → ℕ → M Allocator BlockTable
fill table n a = filled (append_many n (record { table = table; allocator = a }))
  where
    filled : {A : Type 0} → Outcome Held A → Outcome Allocator BlockTable
    filled (ok x h) = ok h.table h.allocator
    filled (err e h) = err e h.allocator
    filled panic = panic

-- The blocks of an admitted sequence: those matched, and fresh ones for the rest of its context.
unfoldable pub build_table : ℕ → List ℕ → PrefixMatch → ℕ → M Allocator BlockTable
build_table block_size prompt hit computed_tokens = do
  acquire_all hit.blocks
  table ← fill (from_blocks hit.blocks block_size) computed_tokens
  cache_prompt block_size table prompt (length hit.blocks) hit.last_entry
  pure table

abbrev pub matchable : PendingSeq → ℕ
matchable pending = min (length pending.prompt) (pending.context_len - 1)

abbrev pub enter : PendingSeq → BlockTable → ℕ → ℕ → M Stepping (Unit {0})
enter pending table cached computed = do
  s ← get
  let scheduler = s.scheduler
  let outcome = s.outcome
  put (record {
    scheduler = record scheduler {
      running =
          scheduler.running
          ++ record {
            id = pending.id;
            table = table;
            max_new_tokens = pending.max_new_tokens;
            generated = 0;
            prompt = pending.prompt;
            cached_tokens = cached;
          }
            ∷ [];
    };
    outcome = record outcome {
      admitted = outcome.admitted ++ pending.id ∷ [];
      prefills =
          outcome.prefills
          ++ record { id = pending.id; cached_tokens = cached; computed_tokens = computed } ∷ [];
    };
  })

-- The body of the loop of `admit` after its guards: the pending sequence runs, and the blocks that
-- it needs for its next token are returned.
unfoldable pub admit_one : PendingSeq → List PendingSeq → PrefixMatch → M Stepping ℕ
admit_one pending rest hit = do
  s ← get
  let scheduler = s.scheduler
  let cached = length hit.blocks * scheduler.block_size
  let computed = usize_sub pending.context_len cached
  put (record s { scheduler = record scheduler { waiting = rest } })
  table ← on_scheduler (on_pool (build_table scheduler.block_size pending.prompt hit computed))
  more ← on_scheduler (on_pool (blocks_needed table 1))
  enter pending table cached computed
  pure more

-- Whether the blocks that the pending sequence takes are free beyond the reserved ones. The number
-- of its tokens is a `usize`, and one more may wrap.
abbrev pub can_admit : Scheduler → PendingSeq → PrefixMatch → ℕ → Bool
can_admit s pending hit reserved =
    let computed = usize_sub pending.context_len (length hit.blocks * s.block_size) in
    leb (hit.evictable + div_ceil ((computed + 1) % 2 ^ 64) s.block_size + reserved)
      (num_free s.allocator)

-- The end of a round of the loop of `admit`, with `next` for the rounds that follow.
abbrev pub admit_if :
    (ℕ → M Stepping (Unit {0}))
    → Bool
    → PendingSeq
    → List PendingSeq
    → PrefixMatch
    → M Stepping (Unit {0})
admit_if next false pending rest hit = pure tt
admit_if next true pending rest hit = do more ← admit_one pending rest hit; next more

abbrev pub admit_front : (ℕ → M Stepping (Unit {0})) → ℕ → List PendingSeq → M Stepping (Unit {0})
admit_front next reserved [] = pure tt
admit_front next reserved (pending ∷ rest) = do
  s ← get
  let scheduler = s.scheduler
  hit ←
      on_scheduler
        (on_pool (match_prefix (take (matchable pending) pending.prompt) scheduler.block_size))
  divisor scheduler.block_size
  admit_if next (can_admit scheduler pending hit reserved) pending rest hit

abbrev pub admit_round :
    (ℕ → M Stepping (Unit {0})) → ℕ → Bool → List PendingSeq → M Stepping (Unit {0})
admit_round next reserved false waiting = pure tt
admit_round next reserved true waiting = admit_front next reserved waiting

-- The loop of `admit`. Each round takes a waiting sequence, so as many rounds are enough.
unfoldable pub admit_loop : ℕ → ℕ → M Stepping (Unit {0})
admit_loop zero reserved s = ok tt s
admit_loop (suc n) reserved s =
    let scheduler = s.scheduler in
    admit_round (λ more. admit_loop n (reserved + more)) reserved
      (ltb (length scheduler.running) scheduler.max_batch_size) scheduler.waiting s

unfoldable pub admit : M Stepping (Unit {0})
admit = do
  s ← get
  reserved ← on_scheduler (on_pool (reserve s.scheduler.running))
  admit_loop (length s.scheduler.waiting) reserved

-- `outcome.decoded.retain(|d| d.id != id)`
abbrev pub without : ℕ → List DecodedToken → List DecodedToken
without id [] = []
without id (d ∷ ds) = if d.id == id then without id ds else d ∷ without id ds

unfoldable pub preempt : ℕ → M Stepping (Unit {0})
preempt i = do
  seq ← on_scheduler (remove_running i)
  record_outcome
      (λ o. record o { decoded = without seq.id o.decoded; preempted = o.preempted ++ seq.id ∷ [] })
  on_scheduler (on_pool (free seq.table))
  s ← get
  let scheduler = s.scheduler
  put (record s {
    scheduler = record scheduler {
      waiting =
          record {
            id = seq.id;
            context_len = seq.table.num_tokens;
            max_new_tokens = usize_sub seq.max_new_tokens seq.generated;
            prompt = seq.prompt;
          }
          ∷ scheduler.waiting;
    };
  })

-- The sequence at `i` after an `append` that left this table and pool.
abbrev pub with_table : Scheduler → ℕ → RunningSeq → Held → Scheduler
with_table s i seq h = record s {
  allocator = h.allocator;
  running = set_at i (record seq { table = h.table }) s.running;
}

-- `append` of the sequence at `i`: its token recorded, `none` when no block is left.
unfoldable pub append_token : ℕ → RunningSeq → M Stepping Bool
append_token i seq s =
    extended (append (record { table = seq.table; allocator = s.scheduler.allocator }))
  where
    failed : Held → CacheError → Outcome Stepping Bool
    failed h (out_of_blocks requested available) =
        ok false (record s { scheduler = with_table s.scheduler i seq h })
    failed h e = err e (record s { scheduler = with_table s.scheduler i seq h })

    extended : Outcome Held (PhysicalSlot × Option CowCopy) → Outcome Stepping Bool
    extended (ok (slot, cow) h) =
        let outcome = s.outcome in
        ok true (record {
          scheduler =
              with_table s.scheduler i (record seq { generated = (seq.generated + 1) % 2 ^ 64 }) h;
          outcome = record outcome {
            decoded = outcome.decoded ++ record { id = seq.id; slot = slot; cow = cow } ∷ [];
          };
        })
    extended (err e h) = failed h e
    extended panic = panic

-- The inner loop of `decode`, for one id. Each round but the last takes a running sequence, so as
-- many rounds as there are running sequences are enough.
unfoldable pub decode_one : ℕ → ℕ → M Stepping (Unit {0})
decode_one zero id = pure tt
decode_one (suc n) id = do
  s ← get
  elim (position id s.scheduler.running) [
    | none ↦ pure tt
    | some i ↦ do
      seq ← expect (get_elem? s.scheduler.running i)
      done ← append_token i seq
      elim done [
        | true ↦ pure tt
        | false ↦ do preempt (length s.scheduler.running - 1); decode_one n id
      ]
  ]

unfoldable pub decode_ids : List RunningSeq → M Stepping (Unit {0})
decode_ids [] = pure tt
decode_ids (seq ∷ seqs) = do
  s ← get
  decode_one (length s.scheduler.running) seq.id
  decode_ids seqs

unfoldable pub decode : M Stepping (Unit {0})
decode = do s ← get; decode_ids s.scheduler.running

-- The body of the loop of `retire_finished`: the index that the next round looks at.
unfoldable pub retire_one : ℕ → RunningSeq → M Stepping ℕ
retire_one i seq =
    if leb seq.max_new_tokens seq.generated
    then (do
      _ ← on_scheduler (remove_running i)
      record_outcome (λ o. record o { finished = o.finished ++ seq.id ∷ [] })
      on_scheduler (on_pool (free seq.table))
      pure i)
    else pure (i + 1)

-- The loop of `retire_finished` from `i` on; each round passes a sequence or takes it out.
unfoldable pub retire_loop : ℕ → ℕ → M Stepping (Unit {0})
retire_loop zero i = pure tt
retire_loop (suc n) i = do
  s ← get
  elim (get_elem? s.scheduler.running i) [
    | none ↦ pure tt
    | some seq ↦ do next ← retire_one i seq; retire_loop n next
  ]

unfoldable pub retire_finished : M Stepping (Unit {0})
retire_finished = do s ← get; retire_loop (length s.scheduler.running) 0

abbrev stepped : Outcome Stepping (Unit {0}) → Outcome Scheduler StepOutcome
stepped (ok u s) = ok s.outcome s.scheduler
stepped (err e s) = err e s.scheduler
stepped panic = panic

unfoldable pub step : M Scheduler StepOutcome
unfolding admit decode retire_finished
step s =
    stepped ((do admit; decode; retire_finished) (record { scheduler = s; outcome = no_outcome }))
