-- ===== src/Engine/Batch.antt =====
-- The batch that `step` of engine.rs gives to the model.
use paged_kv_cache.Prelude.{
  ℕ, suc, ◌+◌, ◌-◌, ◌*◌, ◌^◌, ◌≤◌, ◌<◌, ◌≡◌, refl, sym, ap, subst, ◌∙◌, inl, inr, true, false, some,
  List, [], ◌∷◌, ◌==◌, map, length, length-drop, drop, ltb, get_elem?, count-get_elem?, Bool-cases,
  Option-cases, Paired, Every, arith,
}
use native.Mathlib.Decide.{dec_lt}
use paged_kv_cache.BlockTable.Arithmetic.{blocks_hold}
use paged_kv_cache.Scheduler.{RunningSeq, Scheduler, usize_sub}
use paged_kv_cache.Scheduler.Tables.{IsSound, IsSound-tokens, owners-remove_at}
use paged_kv_cache.Scheduler.Step.{Prefill, DecodedToken}
use paged_kv_cache.Scheduler.Snapshot.{running_info}
use paged_kv_cache.Scheduler.Names.{CowIn, CowsIn}
use paged_kv_cache.Scheduler.Admit.{sub-eq}
use paged_kv_cache.Fallible.{done, Done, Done-eq}
use paged_kv_cache.Model.{SeqInput}
use paged_kv_cache.Model.Layout.{WellFormed}
use paged_kv_cache.Engine.{
  Request, Engine, EngineStats, find, prefill_of, copies, start_of, find_starts, inputs,
}
use paged_kv_cache.Engine.Alive.{Serves, Starts}

Every-get_elem? :
    {A : Type 0} (P : A → Type 0) (xs : List A)
    → ((k : ℕ) (x : A) → get_elem? xs k ≡ some x → P x)
    → Every P xs
Every-get_elem? P [] h = tt
Every-get_elem? P (x ∷ xs) h = (h 0 x refl, Every-get_elem? P xs (λ k y e. h (suc k) y e))

-- A running sequence has blocks of the pool for all its tokens.
pub record Placed (block_size num_blocks : ℕ) (o : RunningSeq) : Type 0 where
  pub small : o.table.num_tokens < 2 ^ 64
  pub room : o.table.num_tokens ≤ length o.table.blocks * block_size
  pub inside : (j b : ℕ) → get_elem? o.table.blocks j ≡ some b → b < num_blocks

pub IsSound-Placed :
    (s : Scheduler) → IsSound s → Every (Placed s.block_size s.allocator.num_blocks) s.running
IsSound-Placed s w = Every-get_elem? _ s.running (λ k seq h.
    let x = w.seqs k seq h in
    record {
      small = IsSound-tokens s k seq w h;
      room =
          rw (← x.size, x.fits.blocks)
            (blocks_hold seq.table.num_tokens seq.table.block_size x.fits.positive);
      inside = λ j b e. elim (dec_lt b s.allocator.num_blocks) [
        | yes l ↦ l
        | no n ↦ absurd (
            omega (
              arith,
              n,
              w.within b (omega (arith, n)),
              owners-remove_at b k s.running seq h,
              count-get_elem? j b seq.table.blocks e,
            ))
      ];
    })

pub copies-CowsIn :
    (n : ℕ) (ds : List DecodedToken) → CowsIn n ds → Every (λ p. (p.0 < n) × (p.1 < n)) (copies ds)
copies-CowsIn n [] h = tt
copies-CowsIn n (d ∷ ds) h = elim (Option-cases d.cow) [
  | inl e ↦ rw e (copies-CowsIn n ds h.1)
  | inr (c, e) ↦ rw e (subst (CowIn n) e h.0, copies-CowsIn n ds h.1)
]

-- The prefill of an id is one of the list with this id.
prefill_of-Starts :
    (rs : List (ℕ × Request)) (id : ℕ) (ps : List Prefill) (p : Prefill)
    → Every (Starts rs) ps
    → prefill_of id ps ≡ some p
    → (p.id ≡ id) × Starts rs p
prefill_of-Starts rs id [] p h e = ground (arith, e)
prefill_of-Starts rs id (x ∷ ps) p h e = elim (Option-cases (prefill_of id ps)) [
  | inl n ↦ elim (Bool-cases (x.id == id)) [
    | inl s ↦
        let same : x ≡ p = ground (arith, e, n, s) in
        (ground (arith, s, same), subst (Starts rs) same h.0)
    | inr s ↦ ground (arith, e, n, s)
  ]
  | inr (y, q) ↦ prefill_of-Starts rs id ps p h.1 (ground (arith, e, q))
]

-- Where the new tokens of a sequence start: before the last of the known ones.
abbrev pub StartsAt : List (ℕ × Request) → RunningSeq → ℕ → Type 0
StartsAt rs o start = (q : Request) × (find o.id rs ≡ some q) × (start < length q.tokens)

abbrev pub with_stats : {B : Type 0} → Engine B → EngineStats → Engine B
with_stats e stats = record e { stats = stats }

module _ {B : Type 0} (block_size num_blocks : ℕ) (prefills : List Prefill) where
  start_of-StartsAt :
      (o : RunningSeq) (e : Engine B) (x : Serves e.requests 1 o)
      → Placed block_size num_blocks o
      → Every (Starts e.requests) prefills
      → Done
          (λ start f. (f ≡ with_stats e f.stats) × StartsAt e.requests o start)
          (start_of (prefill_of o.id prefills) x.request e)
  start_of-StartsAt o e x y z = elim (Option-cases (prefill_of o.id prefills)) [
    | inl n ↦
        let less : usize_sub (length x.request.tokens) 1 < length x.request.tokens = omega (
          arith,
          sub-eq (length x.request.tokens) 1 (omega (arith, x.alive.tokens))
              (omega (arith, y.small, x.slots)),
          x.alive.tokens,
        ) in
        rw n (refl, (x.request, x.found, less))
    | inr (p, q) ↦
        let (same, s) = prefill_of-Starts e.requests o.id prefills p z q in
        rw q (refl, (s.request, ap (λ i. find i e.requests) (sym same) ∙ s.found, s.cached))
  ]

  starts-eq :
      (o : RunningSeq) (todo : List RunningSeq) (e f g : Engine B) (x : Serves e.requests 1 o)
      (start : ℕ) (starts : List ℕ)
      → start_of (prefill_of o.id prefills) x.request e ≡ done start f
      → find_starts prefills (map running_info todo) f ≡ done starts g
      → find_starts prefills (map running_info (o ∷ todo)) e ≡ done (start ∷ starts) g
  unfolding find_starts
  starts-eq o todo e f g x start starts p q =
      let enough : (o.table.num_tokens == length x.request.tokens + 1) ≡ true =
        ground (arith, x.slots) in
      rw x.found (rw enough (rw p (rw q refl)))

  pub find_starts-StartsAt :
      (todo : List RunningSeq) (e : Engine B)
      → Every (Serves e.requests 1) todo
      → Every (Placed block_size num_blocks) todo
      → Every (Starts e.requests) prefills
      → Done
          (λ starts f. (f ≡ with_stats e f.stats) × Paired (StartsAt e.requests) todo starts)
          (find_starts prefills (map running_info todo) e)
  unfolding find_starts
  find_starts-StartsAt [] e x y z = (refl, tt)
  find_starts-StartsAt (o ∷ todo) e x y z =
      let (start, f, p, (same, at)) =
        Done-eq _ (start_of (prefill_of o.id prefills) x.0.request e)
          (start_of-StartsAt o e x.0 y.0 z) in
      let rs : f.requests ≡ e.requests = ap (λ k. k.requests) same in
      let (starts, g, q, (more, rest)) =
        Done-eq _ (find_starts prefills (map running_info todo) f) (
          find_starts-StartsAt todo f (subst (λ us. Every (Serves us 1) todo) (sym rs) x.1) y.1
            (subst (λ us. Every (Starts us) prefills) (sym rs) z)) in
      rw (starts-eq o todo e f g x.0 start starts p q) (
        more ∙ ap (λ k. with_stats k g.stats) same,
        (at, subst (λ us. Paired (StartsAt us) todo starts) rs rest),
      )

  inputs-eq :
      (o : RunningSeq) (todo : List RunningSeq) (start : ℕ) (starts : List ℕ) (e : Engine B)
      (q : Request) (batch : List SeqInput)
      → find o.id e.requests ≡ some q
      → start < length q.tokens
      → inputs (map running_info todo) starts e ≡ done batch e
      → inputs (map running_info (o ∷ todo)) (start ∷ starts) e
        ≡ done
            (record { tokens = drop start q.tokens; start = start; block_table = o.table.blocks }
              ∷ batch)
            e
  unfolding inputs
  inputs-eq o todo start starts e q batch p l r =
      let within : ltb (length q.tokens) start ≡ false = ground (arith, l) in
      rw p (rw within (rw r refl))

  pub inputs-WellFormed :
      (todo : List RunningSeq) (starts : List ℕ) (e : Engine B)
      → Every (Serves e.requests 1) todo
      → Every (Placed block_size num_blocks) todo
      → Paired (StartsAt e.requests) todo starts
      → (batch : List SeqInput) × (inputs (map running_info todo) starts e ≡ done batch e)
        × (length batch ≡ length todo)
        × Every (WellFormed block_size num_blocks) batch
  unfolding inputs
  inputs-WellFormed [] [] e x y z = ([], refl, refl, tt)
  inputs-WellFormed [] (start ∷ starts) e x y z = absurd z
  inputs-WellFormed (o ∷ todo) [] e x y z = absurd z
  inputs-WellFormed (o ∷ todo) (start ∷ starts) e x y z =
      let (q, found, less) = z.0 in
      let (batch, p, l, w) = inputs-WellFormed todo starts e x.1 y.1 z.1 in
      let size : length (drop start q.tokens) ≡ length q.tokens - start =
        length-drop start q.tokens in
      let same : x.0.request ≡ q = ground (arith, x.0.found, found) in
      let known : length x.0.request.tokens ≡ length q.tokens = ap (λ r. length r.tokens) same in
      (
        record { tokens = drop start q.tokens; start = start; block_table = o.table.blocks }
            ∷ batch,
        inputs-eq o todo start starts e q batch found less p,
        omega (arith, l),
        (
          record {
            new = omega (arith, size, less);
            room = omega (arith, size, less, y.0.room, x.0.slots, known);
            inside = y.0.inside;
          },
          w,
        ),
      )
