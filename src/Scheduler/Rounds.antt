-- ===== src/Scheduler/Rounds.antt =====
-- The loops of `decode` of scheduler.rs, which end without an error and lose no sequence.
use paged_kv_cache.Prelude.{
  get_elem?-range, ℕ, zero, suc, ◌-◌, ◌≤◌, ◌≡◌, refl, inl, inr, true, false, Option-cases, some,
  none, List, [], ◌∷◌, length, get_elem?, arith,
}
use paged_kv_cache.Outcome.{ok, Returns, Returns-eq}
use paged_kv_cache.Scheduler.{RunningSeq, position}
use paged_kv_cache.Scheduler.Tables.{IsSound, position-some}
use paged_kv_cache.Scheduler.Names.{SameSizes-refl}
use paged_kv_cache.Scheduler.Step.{Stepping, append_token, preempt, decode_one, decode_ids, decode}
use paged_kv_cache.Scheduler.Decode.{Decoded, Decoded-trans, append_token-Returns}
use paged_kv_cache.Scheduler.Preempt.{preempt-Returns}

module _ (n id i : ℕ) (s : Stepping) (seq : RunningSeq)
    (p : position id s.scheduler.running ≡ some i)
    (h : get_elem? s.scheduler.running i ≡ some seq) where
  pub token-eq :
      (t : Stepping) → append_token i seq s ≡ ok true t → decode_one (suc n) id s ≡ ok tt t
  unfolding decode_one
  token-eq t e = ground (arith, p, h, e)

  pub retry-eq :
      (t : Stepping)
      → append_token i seq s ≡ ok false s
      → preempt (length s.scheduler.running - 1) s ≡ ok tt t
      → decode_one (suc n) id s ≡ decode_one n id t
  unfolding decode_one
  retry-eq t e q = ground (arith, p, h, e, q)

pub none-eq :
    (n id : ℕ) (s : Stepping) → position id s.scheduler.running ≡ none → decode_one n id s ≡ ok tt s
unfolding decode_one
none-eq zero id s p = refl
none-eq (suc n) id s p = ground (arith, p)

nobody : (id : ℕ) (ss : List RunningSeq) → length ss ≤ 0 → position id ss ≡ none
nobody id [] l = refl
nobody id (s ∷ ss) l = absurd (omega (arith, l))

Decoded-refl : (s : Stepping) → IsSound s.scheduler → Decoded s s
Decoded-refl s w = record {
  owns = w;
  running = refl;
  waiting = refl;
  finished = refl;
  prefills = refl;
  sizes = SameSizes-refl s.scheduler;
  stopped = λ i. refl;
  requeued = λ i. refl;
  grows = λ i. omega arith;
  written = λ i l. omega (arith, l);
  admitted = refl;
  copies = λ n l c. c;
}

decode_one-Decoded :
    (n id : ℕ) (s : Stepping)
    → IsSound s.scheduler
    → length s.scheduler.running ≤ n
    → Returns (λ _ t. Decoded s t) (decode_one n id s)
decode_one-Decoded zero id s w l =
    rw (none-eq zero id s (nobody id s.scheduler.running l)) (Decoded-refl s w)
decode_one-Decoded (suc n) id s w l = elim (Option-cases (position id s.scheduler.running)) [
  | inl p ↦ rw (none-eq (suc n) id s p) (Decoded-refl s w)
  | inr (i, p) ↦
      let (seq, h, e) = position-some id s.scheduler.running i p in
      let (done, t, q, x) =
        Returns-eq _ (append_token i seq s) (append_token-Returns i s seq w h) in
      elim x [
        | inl (fits, d, took) ↦ rw (token-eq n id i s seq p h t (ground (arith, q, fits))) d
        | inr (full, same) ↦
            let (u, v, r, (d, shorter, gone)) =
              Returns-eq _ (preempt (length s.scheduler.running - 1) s) (
                preempt-Returns s w (omega (arith, get_elem?-range i s.scheduler.running seq h))) in
            let (u', z, r', d') =
              Returns-eq _ (decode_one n id v)
                (decode_one-Decoded n id v d.owns (omega (arith, l, shorter))) in
            rw (retry-eq n id i s seq p h v (ground (arith, q, full, same)) r)
              (rw r' (Decoded-trans s v z d d'))
      ]
]

decode_ids-Decoded :
    (seqs : List RunningSeq) (s : Stepping)
    → IsSound s.scheduler
    → Returns (λ _ t. Decoded s t) (decode_ids seqs s)
unfolding decode_ids
decode_ids-Decoded [] s w = Decoded-refl s w
decode_ids-Decoded (seq ∷ seqs) s w =
    let (u, t, p, x) =
      Returns-eq _ (decode_one (length s.scheduler.running) seq.id s)
        (decode_one-Decoded (length s.scheduler.running) seq.id s w (omega arith)) in
    let (u', z, q, y) = Returns-eq _ (decode_ids seqs t) (decode_ids-Decoded seqs t x.owns) in
    let r : decode_ids (seq ∷ seqs) s ≡ ok tt z = ground (arith, p, q) in
    rw r (Decoded-trans s t z x y)

-- In a sound scheduler `decode` ends without an error or a panic and keeps the scheduler sound; no
-- sequence is lost, each that stops running is reported as preempted and waits, and neither
-- `finished` nor `admitted` changes.
pub decode-Decoded : (s : Stepping) → IsSound s.scheduler → Returns (λ _ t. Decoded s t) (decode s)
unfolding decode
decode-Decoded s w = decode_ids-Decoded s.scheduler.running s w
