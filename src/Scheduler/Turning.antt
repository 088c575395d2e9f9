-- ===== src/Scheduler/Turning.antt =====
-- A turn of `decode` of scheduler.rs: a sequence gets its token, or the newest yields, or it is gone.
use paged_kv_cache.Prelude.{
  ℕ, ◌+◌, ◌-◌, ◌%◌, ◌^◌, ◌≤◌, ◌<◌, ◌≡◌, refl, sym, ap, ◌∙◌, some, none, List, [], ◌∷◌, ◌++◌, map,
  reverse, length, length-append, get_elem?, Paired, Paired-append, arith,
}
use mathlib.Core.List.{append_assoc, map-append, reverse-cons}
use paged_kv_cache.Scheduler.{PendingSeq, RunningSeq, position, remove_at, set_at}
use paged_kv_cache.Scheduler.Tables.{IsSound}
use paged_kv_cache.Scheduler.Names.{runs, writes, count-map-append}
use paged_kv_cache.Scheduler.Step.{DecodedToken, Stepping, without}
use paged_kv_cache.Scheduler.Decode.{Took, grown}
use paged_kv_cache.Scheduler.Preempt.{Yielded, waiting_again}

-- The sequence after its token.
pub record Grew (x y : RunningSeq) : Type 0 where
  pub id : y.id ≡ x.id
  pub prompt : y.prompt ≡ x.prompt
  pub limit : y.max_new_tokens ≡ x.max_new_tokens
  pub generated : y.generated ≡ (x.generated + 1) % 2 ^ 64
  pub tokens : y.table.num_tokens ≡ x.table.num_tokens + 1

pub position-none : (id : ℕ) (ss : List RunningSeq) → runs id ss ≡ 0 → position id ss ≡ none
position-none id [] h = refl
position-none id (s ∷ ss) h = ground (arith, h, position-none id ss)

pub position-at :
    (id : ℕ) (ss : List RunningSeq) (y : RunningSeq) (rest : List RunningSeq)
    → runs id ss ≡ 0
    → y.id ≡ id
    → position id (ss ++ y ∷ rest) ≡ some (length ss)
position-at id [] y rest h e = ground (arith, e)
position-at id (s ∷ ss) y rest h e = ground (arith, h, e, position-at id ss y rest)

module _ {A : Type 0} where
  pub get_elem?-middle :
      (xs : List A) (y : A) (ys : List A) → get_elem? (xs ++ y ∷ ys) (length xs) ≡ some y
  get_elem?-middle [] y ys = refl
  get_elem?-middle (x ∷ xs) y ys = get_elem?-middle xs y ys

  pub set_at-middle :
      (xs : List A) (y z : A) (ys : List A) → set_at (length xs) z (xs ++ y ∷ ys) ≡ xs ++ z ∷ ys
  set_at-middle [] y z ys = refl
  set_at-middle (x ∷ xs) y z ys = ap (λ l. x ∷ l) (set_at-middle xs y z ys)

  pub remove_at-last : (xs : List A) (y : A) → remove_at (length xs) (xs ++ y ∷ []) ≡ xs
  remove_at-last [] y = refl
  remove_at-last (x ∷ xs) y = ap (λ l. x ∷ l) (remove_at-last xs y)

  -- A list that is not empty has a last element.
  pub unsnoc : (x : A) (xs : List A) → (init : List A) × (last : A) × (x ∷ xs ≡ init ++ last ∷ [])
  unsnoc x [] = ([], x, refl)
  unsnoc x (y ∷ ys) = let (init, last, e) = unsnoc y ys in (x ∷ init, last, ap (λ l. x ∷ l) e)

pub without-none : (id : ℕ) (ds : List DecodedToken) → writes id ds ≡ 0 → without id ds ≡ ds
without-none id [] h = refl
without-none id (d ∷ ds) h = ground (arith, h, without-none id ds)

pub Grew-runs : (i : ℕ) (xs ys : List RunningSeq) → Paired Grew xs ys → runs i ys ≡ runs i xs
Grew-runs i [] [] h = refl
Grew-runs i [] (y ∷ ys) h = absurd h
Grew-runs i (x ∷ xs) [] h = absurd h
Grew-runs i (x ∷ xs) (y ∷ ys) h = ground (arith, h.0.id, Grew-runs i xs ys h.1)

pub runs-append : (i : ℕ) (xs ys : List RunningSeq) → runs i (xs ++ ys) ≡ runs i xs + runs i ys
runs-append = count-map-append (λ (s : RunningSeq). s.id)

-- In the middle of `decode`: of `all` the sequences that ran, those `before` have their token, the
-- `rest` still runs, and those `gone` wait; `seqs` are those whose turn is to come.
pub record Turning (all seqs : List RunningSeq) (queue : List PendingSeq) (s : Stepping)
    : Type 0 where
  pub owns : IsSound s.scheduler
  pub before : List RunningSeq
  pub served : List RunningSeq
  pub rest : List RunningSeq
  pub gone : List RunningSeq
  pub later : List RunningSeq
  pub whole : all ≡ before ++ rest ++ gone
  pub grew : Paired Grew before served
  pub running : s.scheduler.running ≡ served ++ rest
  pub ahead : rest ++ later ≡ seqs
  pub left : (i : ℕ) → runs i later ≤ runs i gone
  pub distinct : (i : ℕ) → runs i all ≤ 1
  pub waiting : s.scheduler.waiting ≡ map waiting_again gone ++ queue
  pub decoded : map (λ d. d.id) s.outcome.decoded ≡ map (λ o. o.id) before
  pub preempted : s.outcome.preempted ≡ reverse (map (λ o. o.id) gone)

module _ (all : List RunningSeq) (queue : List PendingSeq) where
  -- How often an id stands in each part.
  pub parts :
      {seqs : List RunningSeq} {s : Stepping} (x : Turning all seqs queue s) (i : ℕ)
      → runs i x.served + runs i x.rest + runs i x.gone ≤ 1
  parts x i = omega (
    arith,
    x.distinct i,
    ap (runs i) x.whole,
    runs-append i (x.before ++ x.rest) x.gone,
    runs-append i x.before x.rest,
    Grew-runs i x.before x.served x.grew,
  )

  -- The turn of a sequence that yielded before.
  pub absent :
      (seq : RunningSeq) (seqs : List RunningSeq) (s : Stepping)
      (x : Turning all (seq ∷ seqs) queue s)
      → x.rest ≡ []
      → (position seq.id s.scheduler.running ≡ none) × Turning all seqs queue s
  absent seq seqs s x e =
      let same : x.later ≡ seq ∷ seqs = ground (arith, x.ahead, e) in
      let held : 0 < runs seq.id x.later = ground (arith, same) in
      (
        position-none seq.id s.scheduler.running (
            ground (
              arith,
              x.running,
              runs-append seq.id x.served x.rest,
              e,
              held,
              x.left seq.id,
              parts x seq.id,
            )),
        record {
          owns = x.owns;
          before = x.before;
          served = x.served;
          rest = [];
          gone = x.gone;
          later = seqs;
          whole = rw (← e) x.whole;
          grew = x.grew;
          running = rw (← e) x.running;
          ahead = refl;
          left = λ i. ground (arith, x.left i, same);
          distinct = x.distinct;
          waiting = x.waiting;
          decoded = x.decoded;
          preempted = x.preempted;
        },
      )

  -- The turn of a sequence that gets its token, at the place after those served.
  pub took :
      (seq : RunningSeq) (seqs rest : List RunningSeq) (s t : Stepping)
      → (x : Turning all (seq ∷ seqs) queue s) → x.rest ≡ seq ∷ rest
      → IsSound t.scheduler
      → Took (length x.served) seq s t
      → Turning all seqs queue t
  took seq seqs rest s t x e w y = record {
    owns = w;
    before = x.before ++ seq ∷ [];
    served = x.served ++ grown seq y.table ∷ [];
    rest = rest;
    gone = x.gone;
    later = x.later;
    whole = rw (append_assoc x.before (seq ∷ []) rest, ← e) x.whole;
    grew = Paired-append Grew x.before x.served (seq ∷ []) (grown seq y.table ∷ []) x.grew (
      record { id = refl; prompt = refl; limit = refl; generated = refl; tokens = y.tokens },
      tt,
    );
    running =
        y.running
        ∙ ap (set_at (length x.served) (grown seq y.table)) (x.running ∙ ap (λ l. x.served ++ l) e)
        ∙ set_at-middle x.served seq (grown seq y.table) rest
        ∙ sym (append_assoc x.served (grown seq y.table ∷ []) rest);
    ahead = ground (arith, x.ahead, e);
    left = x.left;
    distinct = x.distinct;
    waiting = y.waiting ∙ x.waiting;
    decoded =
        ap (map (λ d. d.id)) y.decoded
        ∙ map-append (λ d. d.id) s.outcome.decoded (y.token ∷ [])
        ∙ ground
            (arith, x.decoded, y.named, map-append (λ (o : RunningSeq). o.id) x.before (seq ∷ []));
    preempted = y.preempted ∙ x.preempted;
  }

  -- The newest sequence yields.
  pub yielded :
      (seqs init : List RunningSeq) (last : RunningSeq) (s t : Stepping)
      → (x : Turning all seqs queue s) → x.rest ≡ init ++ last ∷ []
      → IsSound t.scheduler
      → Yielded (length s.scheduler.running - 1) s t
      → Turning all seqs queue t
  yielded seqs init last s t x e w y =
      let shape : s.scheduler.running ≡ (x.served ++ init) ++ last ∷ [] =
        x.running ∙ ap (λ l. x.served ++ l) e ∙ sym (append_assoc x.served init (last ∷ [])) in
      let at : length s.scheduler.running - 1 ≡ length (x.served ++ init) =
        omega (arith, ap length shape, length-append (x.served ++ init) (last ∷ [])) in
      let same : y.seq ≡ last =
        ground (arith, y.found, shape, at, get_elem?-middle (x.served ++ init) last []) in
      let fresh : writes last.id s.outcome.decoded ≡ 0 = ground (
        arith,
        x.decoded,
        parts x last.id,
        e,
        runs-append last.id init (last ∷ []),
        Grew-runs last.id x.before x.served x.grew,
      ) in
      record {
        owns = w;
        before = x.before;
        served = x.served;
        rest = init;
        gone = last ∷ x.gone;
        later = last ∷ x.later;
        whole =
            x.whole
            ∙ ap (λ l. x.before ++ l ++ x.gone) e
            ∙ ap (λ l. l ++ x.gone) (sym (append_assoc x.before init (last ∷ [])))
            ∙ append_assoc (x.before ++ init) (last ∷ []) x.gone;
        grew = x.grew;
        running =
            y.running
            ∙ ap (λ l. remove_at (length s.scheduler.running - 1) l) shape
            ∙ ap (λ n. remove_at n (x.served ++ init ++ last ∷ [])) at
            ∙ remove_at-last (x.served ++ init) last;
        ahead =
            sym (append_assoc init (last ∷ []) x.later) ∙ ap (λ l. l ++ x.later) (sym e) ∙ x.ahead;
        left = λ i. ground (arith, x.left i);
        distinct = x.distinct;
        waiting =
            y.waiting
            ∙ ap (λ z. waiting_again z ∷ s.scheduler.waiting) same
            ∙ ap (λ l. waiting_again last ∷ l) x.waiting;
        decoded =
            ap (map (λ d. d.id)) (
              y.decoded
              ∙ ap (λ z. without z.id s.outcome.decoded) same
              ∙ without-none last.id s.outcome.decoded fresh)
            ∙ x.decoded;
        preempted =
            y.preempted
            ∙ ap (λ z. s.outcome.preempted ++ z.id ∷ []) same
            ∙ ap (λ l. l ++ last.id ∷ []) x.preempted
            ∙ sym (reverse-cons last.id (map (λ o. o.id) x.gone));
      }
