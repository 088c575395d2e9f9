-- ===== src/Simulation/Log.antt =====
-- The event log of sim.rs against the events themselves.
use paged_kv_cache.Prelude.{
  ℕ, zero, suc, ◌+◌, ◌-◌, ◌≤◌, ◌<◌, ◌≡◌, refl, List, [], ◌∷◌, ◌++◌, length, length-append,
  length-drop, drop, ◌∙◌, sym, arith,
}
use native.Mathlib.Decide.{ℕ_discrete}
use mathlib.Core.List.{append-nil, append_assoc}
use paged_kv_cache.Protocol.{Event}
use paged_kv_cache.Simulation.{push_bounded, event_log_len, log_events}

-- The newest `n`.
abbrev pub newest : {A : Type 0} → ℕ → List A → List A
newest n xs = drop (length xs - n) xs

module _ {A : Type 0} where
  drop-append : (k : ℕ) (xs ys : List A) → k ≤ length xs → drop k (xs ++ ys) ≡ drop k xs ++ ys
  drop-append zero xs ys h = refl
  drop-append (suc k) [] ys h = absurd (omega (arith, h))
  drop-append (suc k) (x ∷ xs) ys h = drop-append k xs ys (omega (arith, h))

  drop-drop : (k : ℕ) (xs : List A) → drop k (drop 1 xs) ≡ drop (suc k) xs
  drop-drop zero [] = refl
  drop-drop (suc k) [] = refl
  drop-drop k (x ∷ xs) = refl

  -- A full queue drops one element for the one that comes.
  push_full :
      (n : ℕ) (xs : List A) (x : A) → length xs ≡ n → push_bounded n xs x ≡ drop 1 xs ++ x ∷ []
  push_full n xs x e = ground (arith, e)

  push_room : (n : ℕ) (xs : List A) (x : A) → length xs < n → push_bounded n xs x ≡ xs ++ x ∷ []
  push_room n xs x l = ground (arith, l)

  length-push_bounded :
      (n : ℕ) (xs : List A) (x : A) → 0 < n → length xs ≤ n → length (push_bounded n xs x) ≤ n
  length-push_bounded n xs x h l = elim (ℕ_discrete (length xs) n) [
    | yes e ↦
        rw (push_full n xs x e)
          (omega (arith, length-append (drop 1 xs) (x ∷ []), length-drop 1 xs, e, h))
    | no e ↦
        let few : length xs < n = omega (arith, l, e) in
        rw (push_room n xs x few) (omega (arith, length-append xs (x ∷ []), few))
  ]

  newest-push :
      (n : ℕ) (xs ys : List A) (x : A)
      → 0 < n
      → length xs ≤ n
      → newest n (push_bounded n xs x ++ ys) ≡ newest n (xs ++ x ∷ ys)
  newest-push n xs ys x h l = elim (ℕ_discrete (length xs) n) [
    | yes e ↦
        let one : 1 ≤ length xs = omega (arith, e, h) in
        let shift : (drop 1 xs ++ x ∷ []) ++ ys ≡ drop 1 (xs ++ x ∷ ys) =
          append_assoc (drop 1 xs) (x ∷ []) ys ∙ sym (drop-append 1 xs (x ∷ ys) one) in
        let many : length (xs ++ x ∷ ys) ≡ n + suc (length ys) =
          omega (arith, length-append xs (x ∷ ys), e) in
        let fewer : length (drop 1 (xs ++ x ∷ ys)) - n ≡ length ys =
          omega (arith, length-drop 1 (xs ++ x ∷ ys), many) in
        let all : length (xs ++ x ∷ ys) - n ≡ suc (length ys) = omega (arith, many) in
        rw (push_full n xs x e, shift, fewer, all) (drop-drop (length ys) (xs ++ x ∷ ys))
    | no e ↦ rw (push_room n xs x (omega (arith, l, e)), append_assoc xs (x ∷ []) ys) refl
  ]

  newest-all : (n : ℕ) (xs : List A) → length xs ≤ n → newest n xs ≡ xs
  newest-all n xs l = let none_over : length xs - n ≡ 0 = omega (arith, l) in rw none_over refl

-- A log of at most 200 events, after more events are logged one by one, holds the newest 200 of all
-- of them, in order.
pub log_events-newest :
    (log es : List Event)
    → length log ≤ event_log_len
    → (log_events log es ≡ newest event_log_len (log ++ es))
      × (length (log_events log es) ≤ event_log_len)
unfolding log_events
log_events-newest log [] l = (rw (append-nil log) (sym (newest-all event_log_len log l)), l)
log_events-newest log (e ∷ es) l =
    let (p, q) =
      log_events-newest (push_bounded event_log_len log e) es
        (length-push_bounded event_log_len log e (omega arith) l) in
    (p ∙ newest-push event_log_len log es e (omega arith) l, q)
