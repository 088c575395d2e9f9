-- ===== src/Text/Emitted.antt =====
-- What the calls of `push` of text.rs return, put together.
use paged_kv_cache.Prelude.{
  ℕ, ◌≡◌, ◌⊎◌, inl, inr, refl, sym, ap, ◌∙◌, true, false, not, ◌||◌, Option, some, List, [], ◌∷◌,
  ◌++◌, length, drop, Bool-cases, Option-cases, arith,
}
use mathlib.Core.List.{append_assoc, append-nil}
use paged_kv_cache.Text.{Detokenizer, new, replacement, ends_with, starts_with, push}

-- The texts that the calls return for these tokens, one after the other, and the state after them.
abbrev pub push_all : (List ℕ → Option (List ℕ)) → List ℕ → Detokenizer → List ℕ × Detokenizer
push_all decode [] d = ([], d)
push_all decode (token ∷ tokens) d =
    let (delta, e) = push decode token d in
    let (rest, f) = push_all decode tokens e in (delta ++ rest, f)

-- A text that starts with another is that one and what is left.
starts_with-drop : (ps xs : List ℕ) → starts_with ps xs ≡ true → ps ++ drop (length ps) xs ≡ xs
starts_with-drop [] xs h = refl
starts_with-drop (p ∷ ps) [] h = ground (arith, h)
starts_with-drop (p ∷ ps) (x ∷ xs) h = ground (arith, h, starts_with-drop ps xs)

-- The state after some tokens: what was emitted is the text of a front of them, whole characters only.
pub record Emits (decode : List ℕ → Option (List ℕ)) (d : Detokenizer) : Type 0 where
  pub seen : List ℕ
  pub held : List ℕ
  pub front : d.tokens ≡ seen ++ held
  pub text : (d.emitted ≡ []) ⊎ (decode seen ≡ some d.emitted)
  pub whole : ends_with replacement d.emitted ≡ false

module _ (decode : List ℕ → Option (List ℕ)) where
  push-Emits :
      (token : ℕ) (d : Detokenizer)
      → Emits decode d
      → ((push decode token d).1.emitted ≡ d.emitted ++ (push decode token d).0)
        × Emits decode ((push decode token d).1)
        × ((push decode token d).1.tokens ≡ d.tokens ++ token ∷ [])
  unfolding push
  push-Emits token d x =
      let tokens : List ℕ = d.tokens ++ token ∷ [] in
      let waits : Emits decode (record d { tokens = tokens }) = record {
        seen = x.seen;
        held = x.held ++ token ∷ [];
        front = ap (λ l. l ++ token ∷ []) x.front ∙ append_assoc x.seen x.held (token ∷ []);
        text = x.text;
        whole = x.whole;
      } in
      elim (Option-cases (decode tokens)) [
        | inl e ↦ rw e (sym (append-nil d.emitted), waits, refl)
        | inr (text, e) ↦
            elim (Bool-cases (ends_with replacement text || not (starts_with d.emitted text))) [
              | inl h ↦ rw (e, h) (sym (append-nil d.emitted), waits, refl)
              | inr h ↦
                  rw (e, h)
                    (
                      sym (starts_with-drop d.emitted text (ground (arith, h))),
                      record {
                        seen = tokens;
                        held = [];
                        front = sym (append-nil tokens);
                        text = inr e;
                        whole = ground (arith, h);
                      },
                      refl,
                    )
            ]
      ]

  push_all-Emits :
      (tokens : List ℕ) (d : Detokenizer)
      → Emits decode d
      → ((push_all decode tokens d).1.emitted ≡ d.emitted ++ (push_all decode tokens d).0)
        × Emits decode ((push_all decode tokens d).1)
        × ((push_all decode tokens d).1.tokens ≡ d.tokens ++ tokens)
  push_all-Emits [] d x = (sym (append-nil d.emitted), x, sym (append-nil d.tokens))
  push_all-Emits (token ∷ tokens) d x =
      let (p, y, s) = push-Emits token d x in
      let (q, z, t) = push_all-Emits tokens ((push decode token d).1) y in
      (
        q
            ∙ ap (λ l. l ++ (push_all decode tokens ((push decode token d).1)).0) p
            ∙ append_assoc d.emitted ((push decode token d).0)
                ((push_all decode tokens ((push decode token d).1)).0),
        z,
        t ∙ ap (λ l. l ++ tokens) s ∙ append_assoc d.tokens (token ∷ []) tokens,
      )

  -- For every tokenizer and every sequence of tokens, the texts that `push` returns for them make
  -- up, one after the other, the text that was emitted: nothing, or the tokenizer's text of a front
  -- of the tokens; and it does not end in the middle of a character.
  pub push_all-front :
      (tokens : List ℕ)
      → (seen held : List ℕ) × (tokens ≡ seen ++ held)
        × (((push_all decode tokens new).0 ≡ [])
            ⊎ (decode seen ≡ some ((push_all decode tokens new).0)))
        × (ends_with replacement ((push_all decode tokens new).0) ≡ false)
  push_all-front tokens =
      let start : Emits decode new = record {
        seen = [];
        held = [];
        front = refl;
        text = inl refl;
        whole = refl;
      } in
      let (p, x, s) = push_all-Emits tokens new start in
      (
        x.seen,
        x.held,
        sym s ∙ x.front,
        elim x.text [ inl e ↦ inl (sym p ∙ e) | inr e ↦ inr (e ∙ ap (λ t. some t) p) ],
        ap (ends_with replacement) (sym p) ∙ x.whole,
      )

  push_all-append :
      (tokens : List ℕ) (token : ℕ) (d : Detokenizer)
      → (push_all decode (tokens ++ token ∷ []) d).0
        ≡ (push_all decode tokens d).0 ++ (push decode token ((push_all decode tokens d).1)).0
  push_all-append [] token d = append-nil ((push decode token d).0)
  push_all-append (t ∷ tokens) token d =
      let e : Detokenizer = (push decode t d).1 in
      ap (λ l. (push decode t d).0 ++ l) (push_all-append tokens token e)
      ∙ sym (
          append_assoc ((push decode t d).0) ((push_all decode tokens e).0)
            ((push decode token ((push_all decode tokens e).1)).0))

  push-whole :
      (token : ℕ) (d : Detokenizer) (text : List ℕ)
      → decode (d.tokens ++ token ∷ []) ≡ some text
      → ends_with replacement text ≡ false
      → starts_with d.emitted text ≡ true
      → d.emitted ++ (push decode token d).0 ≡ text
  unfolding push
  push-whole token d text h whole front =
      rw (h, whole, front) (starts_with-drop d.emitted text front)

  -- When the tokenizer's text of all the tokens does not end in the middle of a character and
  -- starts with what was returned before the last of them, the texts that `push` returns for the
  -- tokens make up that text: nothing is lost and nothing is said twice.
  pub push_all-whole :
      (tokens : List ℕ) (token : ℕ) (text : List ℕ)
      → decode (tokens ++ token ∷ []) ≡ some text
      → ends_with replacement text ≡ false
      → starts_with ((push_all decode tokens new).0) text ≡ true
      → (push_all decode (tokens ++ token ∷ []) new).0 ≡ text
  push_all-whole tokens token text h whole front =
      let start : Emits decode new = record {
        seen = [];
        held = [];
        front = refl;
        text = inl refl;
        whole = refl;
      } in
      let d : Detokenizer = (push_all decode tokens new).1 in
      let (p, x, s) = push_all-Emits tokens new start in
      push_all-append tokens token new
      ∙ ap (λ l. l ++ (push decode token d).0) (sym p)
      ∙ push-whole token d text (ap (λ l. decode (l ++ token ∷ [])) s ∙ h) whole
          (ap (λ l. starts_with l text) p ∙ front)
