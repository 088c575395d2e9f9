-- ===== src/Scheduler/Admit.antt =====
-- What `admit` of scheduler.rs does with one waiting sequence that its guards let in.
use paged_kv_cache.Prelude.{
  subst, ℕ, zero, suc, ◌+◌, ◌-◌, ◌*◌, ◌^◌, ◌≤◌, ◌<◌, ◌≡◌, refl, inl, inr, true, false, List, [],
  ◌∷◌, ◌++◌, count, length, length-append, div_ceil, arith,
}
use native.Mathlib.Decide.{dec_lt}
use native.Mathlib.Nat.{le-div_iff_mul-le, div-mul-le_self}
use paged_kv_cache.Outcome.{ok, Returns, Returns-eq}
use paged_kv_cache.Allocator.{Allocator, PrefixMatch, max_refcount}
use paged_kv_cache.Allocator.Entries.{next_entry}
use paged_kv_cache.Allocator.Match.{Matched}
use paged_kv_cache.BlockTable.{BlockTable, blocks_needed}
use paged_kv_cache.BlockTable.Arithmetic.{need}
use paged_kv_cache.BlockTable.Owned.{needed}
use paged_kv_cache.BlockTable.Many.{blocks_needed-eq}
use paged_kv_cache.Scheduler.{PendingSeq, RunningSeq, usize_sub}
use paged_kv_cache.Scheduler.Tables.{
  SeqFits, PendingFits, IsSound-ref_count, owners, IsSound, owners-append, get_elem?-snoc,
}
use paged_kv_cache.Scheduler.Names.{SameSizes}
use paged_kv_cache.Scheduler.Step.{Stepping, build_table, can_admit, admit_one}
use paged_kv_cache.Scheduler.Build.{Built, Reusable-count, build_table-Built}

abbrev pub entered : PendingSeq → BlockTable → ℕ → RunningSeq
entered pending table cached = record {
  id = pending.id;
  table = table;
  max_new_tokens = pending.max_new_tokens;
  generated = 0;
  prompt = pending.prompt;
  cached_tokens = cached;
}

-- The step after the admission of `pending`, with its table and the pool.
abbrev admitted_as :
    Stepping → PendingSeq → List PendingSeq → BlockTable → Allocator → ℕ → ℕ → Stepping
admitted_as s pending rest u b cached computed =
    let scheduler = s.scheduler in
    let outcome = s.outcome in
    record {
      scheduler = record scheduler {
        allocator = b;
        waiting = rest;
        running = scheduler.running ++ entered pending u cached ∷ [];
      };
      outcome = record outcome {
        admitted = outcome.admitted ++ pending.id ∷ [];
        prefills =
            outcome.prefills
            ++ record { id = pending.id; cached_tokens = cached; computed_tokens = computed } ∷ [];
      };
    }

-- The admitted sequence is the newest running one, with a table that holds its context.
pub record Admitted (s : Stepping) (pending : PendingSeq) (rest : List PendingSeq) (cached : ℕ)
    (t : Stepping) : Type 0 where
  pub owns : IsSound t.scheduler
  pub waiting : t.scheduler.waiting ≡ rest
  pub table : BlockTable
  pub running : t.scheduler.running ≡ s.scheduler.running ++ entered pending table cached ∷ []
  pub tokens : table.num_tokens ≡ pending.context_len
  pub ids :
      next_entry t.scheduler.allocator.cache
      ≤ next_entry s.scheduler.allocator.cache + length pending.prompt
  pub sizes : SameSizes s.scheduler t.scheduler
  pub decoded : t.outcome.decoded ≡ s.outcome.decoded
  pub preempted : t.outcome.preempted ≡ s.outcome.preempted
  pub finished : t.outcome.finished ≡ s.outcome.finished
  pub admitted : t.outcome.admitted ≡ s.outcome.admitted ++ pending.id ∷ []
  pub prefilled :
      t.outcome.prefills
      ≡ s.outcome.prefills
        ++ record {
          id = pending.id;
          cached_tokens = cached;
          computed_tokens = pending.context_len - cached;
        }
          ∷ []

pub sub-eq : (a b : ℕ) → b ≤ a → a < 2 ^ 64 → usize_sub a b ≡ a - b
sub-eq a b h l = ground arith

need-less : (b n : ℕ) → 0 < b → need b 0 false n ≤ div_ceil (n + 1) b
need-less b zero h = omega arith
need-less b (suc n) h =
    (le-div_iff_mul-le {k = b} h).1 (omega (arith, div-mul-le_self (suc n + (b - 1)) b))

module _ (s : Stepping) (pending : PendingSeq) (rest : List PendingSeq) (hit : PrefixMatch)
    (reserved : ℕ) where
  abbrev cached : ℕ
  cached = length hit.blocks * s.scheduler.block_size

  abbrev computed : ℕ
  computed = usize_sub pending.context_len cached

  admit-eq :
      (more : ℕ) (u : BlockTable) (b : Allocator)
      → build_table s.scheduler.block_size pending.prompt hit computed s.scheduler.allocator
        ≡ ok u b
      → blocks_needed u 1 b ≡ ok more b
      → admit_one pending rest hit s ≡ ok more (admitted_as s pending rest u b cached computed)
  unfolding admit_one
  admit-eq more u b p q = ground (arith, p, q)

  entered_fits :
      (u : BlockTable) (b : Allocator)
      → Built
          (λ i. owners i s.scheduler.running)
          s.scheduler.allocator
          s.scheduler.block_size
          hit
          computed
          (length pending.prompt)
          u
          b
      → ((i : ℕ) → count i hit.blocks ≤ 1)
      → PendingFits pending
      → cached ≤ pending.context_len
      → SeqFits s.scheduler.block_size (entered pending u cached)
  entered_fits u b x once p matched = record {
    fits = x.fits;
    size = x.size;
    once = x.once once;
    prompt =
        omega
          (arith, x.tokens, p.prompt, sub-eq pending.context_len cached matched p.small, matched);
  }

  hit_room :
      IsSound s.scheduler
      → length s.scheduler.running < s.scheduler.max_batch_size
      → Matched s.scheduler.allocator hit
      → (i : ℕ) → 0 < count i hit.blocks
      → s.scheduler.allocator.ref_counts.at i + count i hit.blocks ≤ max_refcount
  hit_room w batch m i held =
      let once = (m.chained w.ordered).2 i in
      elim (dec_lt i s.scheduler.allocator.num_blocks) [
        | yes l ↦ omega (arith, IsSound-ref_count s.scheduler i w l, once, batch, w.limit)
        | no n ↦ absurd (
            omega (
              arith,
              held,
              Reusable-count s.scheduler.allocator hit.blocks i m.reusable (omega (arith, n)),
            ))
      ]

  -- In a sound scheduler a waiting sequence with a matched prefix that its context holds, for which
  -- the batch has room, the guard of `admit` finds enough free blocks and the cache has ids left
  -- for its prompt, is admitted without an error or a panic: it is the newest running sequence with
  -- a table of its whole context, it is reported with what was reused and what is computed, and the
  -- scheduler stays sound.
  pub admit_one-Admitted :
      IsSound s.scheduler
      → s.scheduler.waiting ≡ pending ∷ rest
      → length s.scheduler.running < s.scheduler.max_batch_size
      → Matched s.scheduler.allocator hit
      → cached ≤ pending.context_len
      → next_entry s.scheduler.allocator.cache + length pending.prompt < 2 ^ 64
      → pending.context_len + 1 < 2 ^ 64
      → can_admit s.scheduler pending hit reserved ≡ true
      → Returns (λ _ t. Admitted s pending rest cached t) (admit_one pending rest hit s)
  admit_one-Admitted w front batch m matched ids long fits =
      let a : Allocator = s.scheduler.allocator in
      let bs : ℕ = s.scheduler.block_size in
      let others : ℕ → ℕ = λ i. owners i s.scheduler.running in
      let pf : PendingFits pending = w.pending 0 pending (ground (arith, front)) in
      let sub = sub-eq pending.context_len cached matched pf.small in
      let (u, b, p, x) = Returns-eq _ (build_table bs pending.prompt hit computed a) (
        build_table-Built bs pending.prompt hit computed others a w.positive w.valid w.counts
          m.reusable (hit_room w batch m)
          (ground (arith, need-less bs computed w.positive, m.unowned, fits, sub, long))
          (omega (arith, sub, matched, pf.prompt))) in
      let new : RunningSeq = entered pending u cached in
      let chain = m.chained w.ordered in
      let cached_ids = x.ordered w.ordered chain.1 ids in
      rw (admit-eq (needed u b 1) u b p (blocks_needed-eq others u b x.fits x.owns 1)) (record {
        owns = record {
          valid = x.owns.valid;
          counts = λ i l.
              ground (arith, x.owns.counts i l, owners-append i s.scheduler.running (new ∷ []));
          within = λ i l. ground (
            arith,
            x.owns.within i l,
            x.blocks,
            w.within i,
            owners-append i s.scheduler.running (new ∷ []),
          );
          seqs = λ j z l. elim (get_elem?-snoc s.scheduler.running new j z l) [
            | inl o ↦ w.seqs j z o
            | inr o ↦ subst (SeqFits bs) o (entered_fits u b x chain.2 pf matched)
          ];
          pending = λ j o r. w.pending (suc j) o (ground (arith, front, r));
          ordered = cached_ids.0;
          positive = w.positive;
          capacity = rw x.blocks w.capacity;
          limit = w.limit;
          batch = omega (arith, batch, length-append s.scheduler.running (new ∷ []));
        };
        waiting = refl;
        table = u;
        running = refl;
        tokens = omega (arith, x.tokens, sub, matched);
        ids = cached_ids.1;
        admitted = refl;
        prefilled = rw sub refl;
        sizes = record { blocks = x.blocks; block_size = refl; limit = refl };
        decoded = refl;
        preempted = refl;
        finished = refl;
      })
