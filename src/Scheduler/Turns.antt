-- ===== src/Scheduler/Turns.antt =====
-- `decode` of scheduler.rs, sequence by sequence: the oldest get their token, and the newest yield.
use paged_kv_cache.Prelude.{
  ℕ, zero, suc, ◌-◌, ◌≤◌, ◌<◌, ◌≡◌, refl, sym, ap, ◌∙◌, inl, inr, some, List, [], ◌∷◌, ◌++◌, map,
  reverse, length, length-append, get_elem?, List-cases, Paired, arith,
}
use mathlib.Core.List.{append-nil}
use paged_kv_cache.Outcome.{ok, Returns, Returns-eq, Returns-both}
use paged_kv_cache.Scheduler.{PendingSeq, RunningSeq, position}
use paged_kv_cache.Scheduler.Tables.{IsSound}
use paged_kv_cache.Scheduler.Names.{SameSizes, CowsIn, runs}
use paged_kv_cache.Scheduler.Step.{Stepping, append_token, preempt, decode_one, decode_ids, decode}
use paged_kv_cache.Scheduler.Decode.{append_token-Returns}
use paged_kv_cache.Scheduler.Preempt.{waiting_again, preempt-Returns}
use paged_kv_cache.Scheduler.Rounds.{token-eq, retry-eq, none-eq, decode-Decoded}
use paged_kv_cache.Scheduler.Turning.{
  Grew, position-at, get_elem?-middle, unsnoc, Turning, parts, absent, took, yielded,
}

module _ (all : List RunningSeq) (queue : List PendingSeq) where
  -- The place of a sequence whose turn it is.
  place :
      (seq : RunningSeq) (seqs rest : List RunningSeq) (s : Stepping)
      → (x : Turning all (seq ∷ seqs) queue s) → x.rest ≡ seq ∷ rest
      → (position seq.id s.scheduler.running ≡ some (length x.served))
        × (get_elem? s.scheduler.running (length x.served) ≡ some seq)
        × (0 < length s.scheduler.running)
  place seq seqs rest s x e =
      let shape : s.scheduler.running ≡ x.served ++ seq ∷ rest =
        x.running ∙ ap (λ l. x.served ++ l) e in
      let alone : runs seq.id x.served ≡ 0 = ground (arith, parts all queue x seq.id, e) in
      (
        ap (position seq.id) shape ∙ position-at seq.id x.served seq rest alone refl,
        ap (λ l. get_elem? l (length x.served)) shape ∙ get_elem?-middle x.served seq rest,
        omega (arith, ap length shape, length-append x.served (seq ∷ rest)),
      )

  -- The turn of a sequence that still runs, with `go` for the rounds after the first.
  present :
      (n : ℕ) (seq : RunningSeq) (seqs rest : List RunningSeq) (s : Stepping)
      → (x : Turning all (seq ∷ seqs) queue s) → x.rest ≡ seq ∷ rest
      → length s.scheduler.running ≤ suc n
      → ((t : Stepping)
          → Turning all (seq ∷ seqs) queue t
          → length t.scheduler.running ≤ n
          → Returns (λ _ u. Turning all seqs queue u) (decode_one n seq.id t))
      → Returns (λ _ t. Turning all seqs queue t) (decode_one (suc n) seq.id s)
  present n seq seqs rest s x e l go =
      let (p, h, some_run) = place seq seqs rest s x e in
      let i : ℕ = length x.served in
      let (done, t, q, y) =
        Returns-eq _ (append_token i seq s) (append_token-Returns i s seq x.owns h) in
      elim y [
        | inl (fits, d, got) ↦
            rw (token-eq n seq.id i s seq p h t (ground (arith, q, fits)))
              (took all queue seq seqs rest s t x e d.owns got)
        | inr (full, same) ↦
            let (u, v, r, (d, shorter, gone)) =
              Returns-eq _ (preempt (length s.scheduler.running - 1) s)
                (preempt-Returns s x.owns some_run) in
            let (init, last, f) = unsnoc seq rest in
            rw (retry-eq n seq.id i s seq p h v (ground (arith, q, full, same)) r) (
              go v (yielded all queue (seq ∷ seqs) init last s v x (e ∙ f) d.owns gone)
                (omega (arith, l, shorter)))
      ]

  decode_one-Turning :
      (n : ℕ) (seq : RunningSeq) (seqs : List RunningSeq) (s : Stepping)
      → Turning all (seq ∷ seqs) queue s
      → length s.scheduler.running ≤ n
      → Returns (λ _ t. Turning all seqs queue t) (decode_one n seq.id s)
  decode_one-Turning zero seq seqs s x l = elim (List-cases x.rest) [
    | inl e ↦ let (p, y) = absent all queue seq seqs s x e in rw (none-eq zero seq.id s p) y
    | inr (z, rest, e) ↦
        let same : z ≡ seq = ground (arith, e, x.ahead) in
        absurd (omega (arith, (place seq seqs rest s x (e ∙ ap (λ o. o ∷ rest) same)).2, l))
  ]
  decode_one-Turning (suc n) seq seqs s x l = elim (List-cases x.rest) [
    | inl e ↦ let (p, y) = absent all queue seq seqs s x e in rw (none-eq (suc n) seq.id s p) y
    | inr (z, rest, e) ↦
        let same : z ≡ seq = ground (arith, e, x.ahead) in
        present n seq seqs rest s x (e ∙ ap (λ o. o ∷ rest) same) l
          (λ t y k. decode_one-Turning n seq seqs t y k)
  ]

  decode_ids-Turning :
      (seqs : List RunningSeq) (s : Stepping)
      → Turning all seqs queue s
      → Returns (λ _ t. Turning all [] queue t) (decode_ids seqs s)
  unfolding decode_ids
  decode_ids-Turning [] s x = x
  decode_ids-Turning (seq ∷ seqs) s x =
      let (u, t, p, y) =
        Returns-eq _ (decode_one (length s.scheduler.running) seq.id s)
          (decode_one-Turning (length s.scheduler.running) seq seqs s x (omega arith)) in
      let (u', z, q, v) = Returns-eq _ (decode_ids seqs t) (decode_ids-Turning seqs t y) in
      let r : decode_ids (seq ∷ seqs) s ≡ ok tt z = ground (arith, p, q) in rw r v

-- What `decode` did: a front of the running sequences has one token more each, and the newest wait
-- again, in their order and before those that waited.
pub record Turned (s t : Stepping) : Type 0 where
  pub owns : IsSound t.scheduler
  pub kept : List RunningSeq
  pub gone : List RunningSeq
  pub whole : s.scheduler.running ≡ kept ++ gone
  pub grew : Paired Grew kept t.scheduler.running
  pub waiting : t.scheduler.waiting ≡ map waiting_again gone ++ s.scheduler.waiting
  pub decoded : map (λ d. d.id) t.outcome.decoded ≡ map (λ o. o.id) kept
  pub preempted : t.outcome.preempted ≡ reverse (map (λ o. o.id) gone)
  pub admitted : t.outcome.admitted ≡ s.outcome.admitted
  pub prefills : t.outcome.prefills ≡ s.outcome.prefills
  pub finished : t.outcome.finished ≡ s.outcome.finished
  pub sizes : SameSizes s.scheduler t.scheduler
  pub copies : CowsIn s.scheduler.allocator.num_blocks t.outcome.decoded

-- In a sound scheduler with distinct ids, before anything was decoded or preempted, `decode` ends
-- without an error or a panic: the running sequences are a front and a rest; those of the front
-- stay, in order, with one token more each, and these are the ids reported as decoded; those of the
-- rest, the newest, wait again with the tokens they had, in order and before those that waited, and
-- they are reported as preempted, the newest first.
pub decode-Turned :
    (s : Stepping)
    → IsSound s.scheduler
    → ((i : ℕ) → runs i s.scheduler.running ≤ 1)
    → s.outcome.decoded ≡ []
    → s.outcome.preempted ≡ []
    → Returns (λ _ t. Turned s t) (decode s)
unfolding decode
decode-Turned s w distinct nothing nobody =
    let all : List RunningSeq = s.scheduler.running in
    let (u, t, p, (d, x)) = Returns-eq _ (decode_ids all s) (
      Returns-both _ _ (decode_ids all s) (decode-Decoded s w) (
        decode_ids-Turning all s.scheduler.waiting all s (record {
          owns = w;
          before = [];
          served = [];
          rest = all;
          gone = [];
          later = [];
          whole = sym (append-nil all);
          grew = tt;
          running = refl;
          ahead = append-nil all;
          left = λ i. omega arith;
          distinct = distinct;
          waiting = refl;
          decoded = ap (map (λ d. d.id)) nothing;
          preempted = nobody;
        }))) in
    let none_left : x.rest ≡ [] =
      ground (arith, x.ahead, ap length x.ahead, length-append x.rest x.later, List-cases x.rest) in
    rw p (record {
      owns = x.owns;
      kept = x.before;
      gone = x.gone;
      whole =
          x.whole
          ∙ ap (λ l. x.before ++ l ++ x.gone) none_left
          ∙ ap (λ l. l ++ x.gone) (append-nil x.before);
      grew = rw (x.running, none_left, append-nil x.served) x.grew;
      waiting = x.waiting;
      decoded = x.decoded;
      preempted = x.preempted;
      admitted = d.admitted;
      prefills = d.prefills;
      finished = d.finished;
      sizes = d.sizes;
      copies = d.copies s.scheduler.allocator.num_blocks (omega arith) (rw nothing tt);
    })
