-- ===== src/Scheduler/Finish.antt =====
-- What `finish_sequence` and `fork_sequence` of scheduler.rs do to the running sequences and to
-- their blocks.
use native.Mathlib.Decide.{dec_lt}
use paged_kv_cache.Allocator.Entries.{Ordered-Older, Older-same}
use paged_kv_cache.Prelude.{
  sym, subst, count, ℕ, suc, ◌≤◌, ◌<◌, ◌≡◌, refl, inl, inr, ◌⊎◌, Bool-cases, Option-cases, some,
  none, [], ◌∷◌, ◌++◌, ltb, leb, if◌then◌else◌, length, length-append, count, get_elem?, arith,
}
use paged_kv_cache.Error.{CacheError, unknown_sequence, batch_full}
use paged_kv_cache.Outcome.{ok, err, Post, Post-mono, Returns, Returns-eq}
use paged_kv_cache.Allocator.{num_free}
use paged_kv_cache.BlockTable.{BlockTable, fork, free}
use paged_kv_cache.BlockTable.Share.{fork-Returns, free-Returns}
use paged_kv_cache.Scheduler.{
  RunningSeq, Scheduler, position, waiting_position, remove_at, on_pool, finish_waiting,
  finish_sequence, forked, fork_at, fork_sequence,
}
use paged_kv_cache.Scheduler.Tables.{
  SeqFits, IsSound-ref_count, owners, IsSound, owned_at, owners-append, owners-remove_at,
  length-remove_at, get_elem?-remove_at, get_elem?-snoc, position-some,
}
use paged_kv_cache.Scheduler.Names.{SameSizes}

abbrev pub without_running : Scheduler → ℕ → Scheduler
without_running s k = record s { running = remove_at k s.running }

-- The scheduler after the sequence at `k` has left and its blocks are released.
pub record Left (s : Scheduler) (k : ℕ) (t : Scheduler) : Type 0 where
  pub owns : IsSound t
  pub running : t.running ≡ remove_at k s.running
  pub waiting : t.waiting ≡ s.waiting
  pub block_size : t.block_size ≡ s.block_size
  pub limit : t.max_batch_size ≡ s.max_batch_size
  pub blocks : t.allocator.num_blocks ≡ s.allocator.num_blocks
  pub free : num_free s.allocator ≤ num_free t.allocator

pub Left-SameSizes : (s : Scheduler) (k : ℕ) (t : Scheduler) → Left s k t → SameSizes s t
Left-SameSizes s k t x = record { blocks = x.blocks; block_size = x.block_size; limit = x.limit }

pub free-Left :
    (s : Scheduler) (k : ℕ) (seq : RunningSeq)
    → IsSound s
    → get_elem? s.running k ≡ some seq
    → Returns (λ _ t. Left s k t) (on_pool (free seq.table) (without_running s k))
free-Left s k seq w h =
    let (u, b, p, (x, c)) = Returns-eq _ (free seq.table s.allocator) (
      free-Returns (λ i. owners i (remove_at k s.running)) seq.table s.allocator
        (owned_at s k seq w h)) in
    rw p (record {
      owns = record {
        valid = x.valid;
        counts = c;
        within = λ i l. ground (arith, w.within i, x.blocks, owners-remove_at i k s.running seq h);
        seqs = λ j q r.
            w.seqs (if ltb j k then j else suc j) q
              (ground (arith, get_elem?-remove_at k j s.running, r));
        batch = omega (arith, w.batch, length-remove_at k s.running seq h);
        pending = w.pending;
        ordered = Ordered-Older _ _ x.older w.ordered;
        positive = w.positive;
        capacity = rw x.blocks w.capacity;
        limit = w.limit;
      };
      running = refl;
      waiting = refl;
      block_size = refl;
      limit = refl;
      blocks = x.blocks;
      free = x.more_free;
    })

-- A sequence that `finish_sequence` has taken out, running or waiting.
abbrev pub Finished : ℕ → Scheduler → Scheduler → Type 0
Finished id s t =
    ((k : ℕ) × (position id s.running ≡ some k) × Left s k t)
    ⊎ ((position id s.running ≡ none)
        × (k : ℕ) × (waiting_position id s.waiting ≡ some k)
        × (t ≡ record s { waiting = remove_at k s.waiting }))

abbrev pub Unknown : ℕ → Scheduler → CacheError → Scheduler → Type 0
Unknown id s e t =
    (position id s.running ≡ none)
    × (waiting_position id s.waiting ≡ none)
    × (e ≡ unknown_sequence id)
    × (t ≡ s)

pub finish-eq :
    (id : ℕ) (s : Scheduler) (k : ℕ) (seq : RunningSeq)
    → position id s.running ≡ some k
    → get_elem? s.running k ≡ some seq
    → finish_sequence id s ≡ on_pool (free seq.table) (without_running s k)
unfolding finish_sequence
finish-eq id s k seq p h = ground (arith, p, h)

finish_waiting-Post :
    (id : ℕ) (s : Scheduler)
    → IsSound s
    → position id s.running ≡ none
    → Post (λ _ t. IsSound t × Finished id s t) (Unknown id s) (finish_sequence id s)
unfolding finish_sequence finish_waiting
finish_waiting-Post id s w p = elim (Option-cases (waiting_position id s.waiting)) [
  | inl q ↦
      let r : finish_sequence id s ≡ err (unknown_sequence id) s = ground (arith, p, q) in
      rw r (p, q, refl, refl)
  | inr (k, q) ↦
      let t : Scheduler = record s { waiting = remove_at k s.waiting } in
      let r : finish_sequence id s ≡ ok tt t = ground (arith, p, q) in
      rw r (
        record {
          valid = w.valid;
          counts = w.counts;
          within = w.within;
          seqs = w.seqs;
          batch = w.batch;
          pending = λ j o r.
              w.pending (if ltb j k then j else suc j) o
                (ground (arith, get_elem?-remove_at k j s.waiting, r));
          ordered = w.ordered;
          positive = w.positive;
          capacity = w.capacity;
          limit = w.limit;
        },
        inr (p, k, q, refl),
      )
]

-- In a sound scheduler `finish_sequence` takes out the first running sequence with the id and
-- releases its blocks, or else drops the first waiting one, or else reports an unknown sequence and
-- changes nothing; the scheduler stays sound.
pub finish_sequence-Post :
    (id : ℕ) (s : Scheduler)
    → IsSound s
    → Post (λ _ t. IsSound t × Finished id s t) (Unknown id s) (finish_sequence id s)
finish_sequence-Post id s w = elim (Option-cases (position id s.running)) [
  | inl p ↦ finish_waiting-Post id s w p
  | inr (k, p) ↦
      let (seq, h, e) = position-some id s.running k p in
      let (u, t, q, x) =
        Returns-eq _ (on_pool (free seq.table) (without_running s k)) (free-Left s k seq w h) in
      rw (finish-eq id s k seq p h) (rw q (x.owns, inl (k, p, x)))
]

-- The scheduler after a fork: the child is the newest running sequence, with the blocks of the
-- first running sequence with the parent's id,
-- and no block is taken from the pool.
abbrev pub Forked : ℕ → ℕ → ℕ → Scheduler → Scheduler → Type 0
Forked parent child max_new_tokens s t =
    (k : ℕ) × (seq : RunningSeq) × (position parent s.running ≡ some k)
    × (get_elem? s.running k ≡ some seq)
    × (seq.id ≡ parent)
    × (t.running ≡ s.running ++ forked child max_new_tokens seq seq.table ∷ [])
    × (t.waiting ≡ s.waiting)
    × (num_free t.allocator ≡ num_free s.allocator)
    × (t.allocator.num_blocks ≡ s.allocator.num_blocks)
    × (t.block_size ≡ s.block_size)
    × (t.allocator.cache ≡ s.allocator.cache)

-- Why a fork is refused.
abbrev pub NotForked : ℕ → Scheduler → CacheError → Scheduler → Type 0
NotForked parent s e t =
    (t ≡ s)
    × (((position parent s.running ≡ none) × (e ≡ unknown_sequence parent))
        ⊎ ((s.max_batch_size ≤ length s.running) × (e ≡ batch_full s.max_batch_size)))

forked_fits :
    {block_size : ℕ} (seq : RunningSeq) (u : BlockTable) (child max_new_tokens : ℕ)
    → u ≡ seq.table
    → SeqFits block_size seq
    → SeqFits block_size (forked child max_new_tokens seq u)
forked_fits {block_size} seq u child max_new_tokens e x =
    subst (λ v. SeqFits block_size (forked child max_new_tokens seq v)) (sym e)
      (record { fits = x.fits; size = x.size; once = x.once; prompt = x.prompt })

seq_in_pool :
    (s : Scheduler) (k : ℕ) (seq : RunningSeq)
    → IsSound s
    → get_elem? s.running k ≡ some seq
    → (i : ℕ) → 0 < count i seq.table.blocks
    → i < s.allocator.num_blocks
seq_in_pool s k seq w h i c = elim (dec_lt i s.allocator.num_blocks) [
  | yes l ↦ l
  | no l ↦
      absurd (omega (arith, w.within i (omega (arith, l)), owners-remove_at i k s.running seq h, c))
]

module _ (parent child max_new_tokens : ℕ) (s : Scheduler) (w : IsSound s) where
  fork_at-Forked :
      (k : ℕ) (seq : RunningSeq)
      → position parent s.running ≡ some k
      → get_elem? s.running k ≡ some seq
      → seq.id ≡ parent
      → length s.running < s.max_batch_size
      → Returns
          (λ _ t. IsSound t × Forked parent child max_new_tokens s t)
          (fork_sequence parent child max_new_tokens s)
  unfolding fork_sequence fork_at
  fork_at-Forked k seq p h e below =
      let (u, b, q, (same, x, n, m, c)) = Returns-eq _ (fork seq.table s.allocator) (
        fork-Returns (λ i. owners i (remove_at k s.running)) seq.table s.allocator
          (owned_at s k seq w h)
          (λ i c. omega (
            arith,
            (w.seqs k seq h).once i,
            IsSound-ref_count s i w (seq_in_pool s k seq w h i c),
            below,
            w.limit,
          ))) in
      let new : RunningSeq = forked child max_new_tokens seq u in
      let t : Scheduler = record s { allocator = b; running = s.running ++ new ∷ [] } in
      let r : fork_sequence parent child max_new_tokens s ≡ ok tt t = ground (arith, p, h, q) in
      rw r (
        record {
          valid = x.valid;
          counts = λ i l. ground (
            arith,
            x.counts i l,
            owners-append i s.running (new ∷ []),
            owners-remove_at i k s.running seq h,
          );
          within = λ i l.
              ground (arith, x.within i l, m, w.within i, owners-append i s.running (new ∷ []));
          seqs = λ j z l. elim (get_elem?-snoc s.running new j z l) [
            | inl o ↦ w.seqs j z o
            | inr o ↦
                subst (SeqFits s.block_size) o
                  (forked_fits seq u child max_new_tokens same (w.seqs k seq h))
          ];
          batch = omega (arith, below, length-append s.running (new ∷ []));
          pending = w.pending;
          ordered = Ordered-Older _ _ (Older-same _ _ c) w.ordered;
          positive = w.positive;
          capacity = rw m w.capacity;
          limit = w.limit;
        },
        (k, seq, p, h, e, ground (arith, same), refl, n, m, refl, c),
      )

  -- In a sound scheduler `fork_sequence` adds a child with the blocks and the prompt of the parent,
  -- the first running sequence with its id, as the newest running sequence, takes no block from the
  -- pool and keeps the scheduler sound; an unknown parent and a full batch are refused, each with
  -- its error, and nothing changes.
  pub fork_sequence-Post :
      Post
        (λ _ t. IsSound t × Forked parent child max_new_tokens s t)
        (NotForked parent s)
        (fork_sequence parent child max_new_tokens s)
  unfolding fork_sequence fork_at
  fork_sequence-Post = elim (Option-cases (position parent s.running)) [
    | inl p ↦
        let r : fork_sequence parent child max_new_tokens s ≡ err (unknown_sequence parent) s =
          ground (arith, p) in
        rw r (refl, inl (p, refl))
    | inr (k, p) ↦
        let (seq, h, e) = position-some parent s.running k p in
        elim (Bool-cases (leb s.max_batch_size (length s.running))) [
          | inl full ↦
              let r : fork_sequence parent child max_new_tokens s
                  ≡ err (batch_full s.max_batch_size) s =
                ground (arith, p, full) in
              rw r (refl, inr (ground arith, refl))
          | inr free ↦
              Post-mono _ _ _ _ (fork_sequence parent child max_new_tokens s)
                (fork_at-Forked k seq p h e (ground arith)) (λ u t x. x) (λ u t x. absurd x)
        ]
  ]
