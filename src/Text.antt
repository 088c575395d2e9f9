-- ===== src/Text.antt =====
-- crates/paged-kv-serve/src/text.rs: the text of tokens as they arrive. A text is the list of its
-- characters; the tokenizer is a parameter.
pub mod Emitted
use paged_kv_cache.Prelude.{
  ℕ, Bool, true, false, not, ◌&&◌, ◌||◌, Option, none, some, List, [], ◌∷◌, ◌++◌, ◌==◌,
  if◌then◌else◌, length, drop,
}

-- `tokenizer.decode(tokens, true)`, `none` for an error, is a parameter.
pub record Detokenizer : Type 0 where
  pub tokens : List ℕ
  pub emitted : List ℕ

abbrev pub new : Detokenizer
new = record { tokens = []; emitted = [] }

abbrev pub replacement : ℕ
replacement = 65533

-- `text.ends_with('\u{FFFD}')`
abbrev pub ends_with : ℕ → List ℕ → Bool
ends_with c [] = false
ends_with c (x ∷ []) = x == c
ends_with c (x ∷ y ∷ ys) = ends_with c (y ∷ ys)

abbrev pub starts_with : List ℕ → List ℕ → Bool
starts_with [] xs = true
starts_with (p ∷ ps) [] = false
starts_with (p ∷ ps) (x ∷ xs) = (x == p) && starts_with ps xs

-- The end of `push`: the text of all tokens, or `none`.
abbrev pub emit : Option (List ℕ) → Detokenizer → List ℕ × Detokenizer
emit none d = ([], d)
emit (some text) d =
    if ends_with replacement text || not (starts_with d.emitted text)
    then ([], d)
    else (drop (length d.emitted) text, record d { emitted = text })

unfoldable pub push : (List ℕ → Option (List ℕ)) → ℕ → Detokenizer → List ℕ × Detokenizer
push decode token d =
    let tokens = d.tokens ++ token ∷ [] in emit (decode tokens) (record d { tokens = tokens })
