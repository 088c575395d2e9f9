-- ===== src/Scheduler/Decode.antt =====
-- What `decode` of scheduler.rs does: every running sequence gets its next token, or the newest one
-- yields its blocks and waits again.
use paged_kv_cache.Prelude.{
  count, count-get_elem?, ◌/◌, subst, ℕ, zero, suc, ◌+◌, ◌≤◌, ◌<◌, ◌≡◌, refl, inl, inr, true, false,
  Option, some, none, List, [], ◌∷◌, ◌++◌, length, get_elem?, arith, ◌∙◌, ◌⊎◌, ◌%◌, ◌^◌,
}
use native.Mathlib.Decide.{dec_lt, ℕ_discrete}
use paged_kv_cache.Error.{PhysicalSlot, out_of_blocks}
use paged_kv_cache.Outcome.{ok, err, Returns, Returns-eq}
use paged_kv_cache.Allocator.{Allocator, num_free}
use paged_kv_cache.BlockTable.{BlockTable, CowCopy, append}
use paged_kv_cache.BlockTable.Owned.{Appended, cost, held}
use paged_kv_cache.BlockTable.Append.{append-Returns, append_fails}
use paged_kv_cache.Allocator.Entries.{Ordered-Older}
use paged_kv_cache.Scheduler.{RunningSeq, remove_at, set_at}
use paged_kv_cache.Scheduler.Tables.{
  SeqFits, owners, IsSound, owned_at, owners-remove_at, owners-set_at, length-set_at,
  get_elem?-set_at,
}
use paged_kv_cache.Scheduler.Names.{
  runs, queues, writes, CowIn, CowsIn, CowsIn-append, SameSizes, SameSizes-trans, count-map-append,
  count-map-set_at, count-map-get_elem?,
}
use paged_kv_cache.Scheduler.Step.{DecodedToken, Stepping, append_token}

-- No sequence is lost: one that stops running is reported as preempted and waits.
pub record Decoded (s t : Stepping) : Type 0 where
  pub owns : IsSound t.scheduler
  pub running :
      length t.scheduler.running + length t.outcome.preempted
      ≡ length s.scheduler.running + length s.outcome.preempted
  pub waiting :
      length t.scheduler.waiting + length s.outcome.preempted
      ≡ length s.scheduler.waiting + length t.outcome.preempted
  pub finished : t.outcome.finished ≡ s.outcome.finished
  pub prefills : t.outcome.prefills ≡ s.outcome.prefills
  pub sizes : SameSizes s.scheduler t.scheduler
  pub stopped :
      (i : ℕ)
      → runs i t.scheduler.running + count i t.outcome.preempted
        ≡ runs i s.scheduler.running + count i s.outcome.preempted
  pub requeued :
      (i : ℕ)
      → queues i t.scheduler.waiting + count i s.outcome.preempted
        ≡ queues i s.scheduler.waiting + count i t.outcome.preempted
  pub grows : (i : ℕ) → count i s.outcome.preempted ≤ count i t.outcome.preempted
  pub written :
      (i : ℕ)
      → 0 < writes i t.outcome.decoded
      → 0 < writes i s.outcome.decoded + runs i s.scheduler.running
  pub admitted : t.outcome.admitted ≡ s.outcome.admitted
  pub copies :
      (n : ℕ)
      → s.scheduler.allocator.num_blocks ≤ n
      → CowsIn n s.outcome.decoded
      → CowsIn n t.outcome.decoded

pub Decoded-trans : (s t u : Stepping) → Decoded s t → Decoded t u → Decoded s u
Decoded-trans s t u x y = record {
  owns = y.owns;
  running = omega (arith, x.running, y.running);
  waiting = omega (arith, x.waiting, y.waiting);
  finished = y.finished ∙ x.finished;
  prefills = y.prefills ∙ x.prefills;
  sizes = SameSizes-trans s.scheduler t.scheduler u.scheduler x.sizes y.sizes;
  stopped = λ i. omega (arith, x.stopped i, y.stopped i);
  requeued = λ i. omega (arith, x.requeued i, y.requeued i);
  grows = λ i. omega (arith, x.grows i, y.grows i);
  written = λ i l. ground (arith, l, y.written i, x.written i, x.stopped i, x.grows i);
  admitted = y.admitted ∙ x.admitted;
  copies = λ n l h. y.copies n (omega (arith, l, x.sizes.blocks)) (x.copies n l h);
}

-- The sequence with its token, and the step that records it.
abbrev pub grown : RunningSeq → BlockTable → RunningSeq
grown seq u = record seq { table = u; generated = (seq.generated + 1) % 2 ^ 64 }

-- The sequence at `i` has got a token: all that a step shows of it.
pub record Took (i : ℕ) (seq : RunningSeq) (s t : Stepping) : Type 0 where
  pub table : BlockTable
  pub tokens : table.num_tokens ≡ seq.table.num_tokens + 1
  pub running : t.scheduler.running ≡ set_at i (grown seq table) s.scheduler.running
  pub waiting : t.scheduler.waiting ≡ s.scheduler.waiting
  pub token : DecodedToken
  pub named : token.id ≡ seq.id
  pub decoded : t.outcome.decoded ≡ s.outcome.decoded ++ token ∷ []
  pub preempted : t.outcome.preempted ≡ s.outcome.preempted

abbrev recorded :
    Stepping → ℕ → RunningSeq → PhysicalSlot → Option CowCopy → BlockTable → Allocator → Stepping
recorded s i seq slot cow u b =
    let scheduler = s.scheduler in
    let outcome = s.outcome in
    record {
      scheduler = record scheduler {
        allocator = b;
        running = set_at i (grown seq u) scheduler.running;
      };
      outcome = record outcome {
        decoded = outcome.decoded ++ record { id = seq.id; slot = slot; cow = cow } ∷ [];
      };
    }

set_same :
    (k : ℕ) (xs : List RunningSeq) (x : RunningSeq) → get_elem? xs k ≡ some x → set_at k x xs ≡ xs
set_same k [] x h = refl
set_same zero (y ∷ ys) x h = ground (arith, h)
set_same (suc k) (y ∷ ys) x h = ground (arith, set_same k ys x h)

module _ (i : ℕ) (s : Stepping) (seq : RunningSeq) (w : IsSound s.scheduler)
    (h : get_elem? s.scheduler.running i ≡ some seq) where
  append_token-eq :
      (slot : PhysicalSlot) (cow : Option CowCopy) (u : BlockTable) (b : Allocator)
      → append (held seq.table s.scheduler.allocator) ≡ ok (slot, cow) (held u b)
      → append_token i seq s ≡ ok true (recorded s i seq slot cow u b)
  unfolding append_token
  append_token-eq slot cow u b p = rw p refl

  append_token_fails :
      append (held seq.table s.scheduler.allocator)
        ≡ err (out_of_blocks 1 0) (held seq.table s.scheduler.allocator)
      → append_token i seq s ≡ ok false s
  unfolding append_token
  append_token_fails p = rw p (rw (set_same i s.scheduler.running seq h) refl)

  grown_fits :
      {slot : PhysicalSlot} {cow : Option CowCopy} {u : BlockTable} {b : Allocator}
      → Appended
          (λ j. owners j (remove_at i s.scheduler.running))
          seq.table
          s.scheduler.allocator
          slot
          cow
          u
          b
      → SeqFits s.scheduler.block_size (grown seq u)
  grown_fits x =
      let y = w.seqs i seq h in
      record {
        fits = x.fits;
        size = x.size ∙ y.size;
        once = x.distinct y.once;
        prompt = omega (arith, x.tokens, y.prompt);
      }

  -- A copy is from a block of the table to the block that the token goes to.
  within_pool :
      (slot : PhysicalSlot) (cow : Option CowCopy) (u : BlockTable) (b : Allocator)
      → Appended
          (λ j. owners j (remove_at i s.scheduler.running))
          seq.table
          s.scheduler.allocator
          slot
          cow
          u
          b
      → (n : ℕ) → s.scheduler.allocator.num_blocks ≤ n
      → CowIn n cow
  within_pool slot none u b x n l = tt
  within_pool slot (some c) u b x n l =
      let (dst, distinct, src, others) = x.diverges in
      let held =
        count-get_elem? (seq.table.num_tokens / seq.table.block_size) c.src seq.table.blocks src in
      (
        elim (dec_lt c.src n) [
          | yes less ↦ less
          | no more ↦ absurd (
              omega (
                arith,
                held,
                l,
                more,
                w.within c.src (omega (arith, l, more)),
                owners-remove_at c.src i s.scheduler.running seq h,
              ))
        ],
        ground (arith, dst, x.in_pool, x.blocks, l),
      )

  recorded-Decoded :
      (slot : PhysicalSlot) (cow : Option CowCopy) (u : BlockTable) (b : Allocator)
      → Appended
          (λ j. owners j (remove_at i s.scheduler.running))
          seq.table
          s.scheduler.allocator
          slot
          cow
          u
          b
      → Decoded s (recorded s i seq slot cow u b)
  recorded-Decoded slot cow u b x = record {
    owns = record {
      valid = x.owns.valid;
      counts = λ j l.
          ground
            (arith, x.owns.counts j l, owners-set_at j i s.scheduler.running seq (grown seq u) h);
      within = λ j l. ground (
        arith,
        x.owns.within j l,
        w.within j,
        x.blocks,
        owners-remove_at j i s.scheduler.running seq h,
        owners-set_at j i s.scheduler.running seq (grown seq u) h,
      );
      seqs = λ k o p. elim (ℕ_discrete k i) [
        | yes e ↦
            subst (SeqFits s.scheduler.block_size)
              (ground (arith, p, e, get_elem?-set_at i k (grown seq u) seq s.scheduler.running h))
              (grown_fits x)
        | no n ↦
            w.seqs k o
              (ground (arith, p, n, get_elem?-set_at i k (grown seq u) seq s.scheduler.running h))
      ];
      batch = omega (arith, w.batch, length-set_at i (grown seq u) s.scheduler.running);
      pending = w.pending;
      ordered = Ordered-Older _ _ x.older w.ordered;
      positive = w.positive;
      capacity = rw x.blocks w.capacity;
      limit = w.limit;
    };
    running = omega (arith, length-set_at i (grown seq u) s.scheduler.running);
    waiting = refl;
    finished = refl;
    prefills = refl;
    sizes = record { blocks = x.blocks; block_size = refl; limit = refl };
    stopped = λ j. omega (
      arith,
      count-map-set_at (λ (o : RunningSeq). o.id) j i s.scheduler.running seq (grown seq u) h refl,
    );
    requeued = λ j. refl;
    grows = λ j. omega arith;
    written = λ j l. ground (
      arith,
      l,
      count-map-append (λ (d : DecodedToken). d.id) j s.outcome.decoded
          (record { id = seq.id; slot = slot; cow = cow } ∷ []),
      count-map-get_elem? (λ (o : RunningSeq). o.id) j i s.scheduler.running seq h,
    );
    admitted = refl;
    copies = λ n l c.
        CowsIn-append n s.outcome.decoded (record { id = seq.id; slot = slot; cow = cow } ∷ []) c
          (within_pool slot cow u b x n l, tt);
  }

  -- One token for the sequence at `i`, or no block is left and nothing has changed.
  pub append_token-Returns :
      Returns
        (λ done t. ((done ≡ true) × Decoded s t × Took i seq s t) ⊎ ((done ≡ false) × (t ≡ s)))
        (append_token i seq s)
  append_token-Returns =
      let others : ℕ → ℕ = λ j. owners j (remove_at i s.scheduler.running) in
      let a : Allocator = s.scheduler.allocator in
      let owned = owned_at s.scheduler i seq w h in
      elim (dec_lt (num_free a) (cost seq.table a)) [
        | yes few ↦
            rw
              (append_token_fails (append_fails others seq.table a (w.seqs i seq h).fits owned few))
              (inr (refl, refl))
        | no enough ↦
            let ((slot, cow), r, p, x) = Returns-eq _ (append (held seq.table a)) (
              append-Returns others seq.table a (w.seqs i seq h).fits owned
                (omega (arith, enough))) in
            rw (append_token-eq slot cow r.table r.allocator p) (
              inl (
                refl,
                recorded-Decoded slot cow r.table r.allocator x,
                record {
                  table = r.table;
                  tokens = x.tokens;
                  running = refl;
                  waiting = refl;
                  token = record { id = seq.id; slot = slot; cow = cow };
                  named = refl;
                  decoded = refl;
                  preempted = refl;
                },
              ))
      ]
