-- ===== src/Tests/Models.antt =====
-- The theorem on the forward pass of model.rs at a backend that keeps its geometry alone, and tensors
-- that are the number of their rows.
use paged_kv_cache.Prelude.{ℕ, zero, suc, ◌*◌, ◌≡◌, refl, some, List, [], ◌∷◌, length, arith}
use paged_kv_cache.Outcome.{M, ok}
use paged_kv_cache.Config.{CacheConfig}
use paged_kv_cache.Backend.{AttentionSeq, KvBackend}
use paged_kv_cache.Fallible.{Done}
use paged_kv_cache.Model.{Network, forward}
use paged_kv_cache.Model.Forward.{Tensors, InModel, forward-Done}
use paged_kv_cache.Tests.Engines.{small_cache, chunk, chunk-WellFormed}

abbrev zeros : ℕ → List ℕ
zeros zero = []
zeros (suc n) = 0 ∷ zeros n

length-zeros : (n : ℕ) → length (zeros n) ≡ n * 1
length-zeros zero = refl
length-zeros (suc n) = omega (arith, length-zeros n)

abbrev blank : ℕ → List (List ℕ)
blank zero = []
blank (suc n) = [] ∷ blank n

length-blank : (n : ℕ) → length (blank n) ≡ n
length-blank zero = refl
length-blank (suc n) = omega (arith, length-blank n)

abbrev counting : Network ℕ ℕ
counting = record {
  num_layers = 1;
  embed = λ ids positions. some (length ids);
  project = λ index xs. some (zeros xs, zeros xs, zeros xs);
  finish_layer = λ index xs attn. some xs;
  logits = λ rows xs. some (blank (length rows));
}

abbrev plain : KvBackend ℕ
plain = record {
  State = CacheConfig;
  config = λ c. c;
  write_kv = λ layer slot k v c. ok tt c;
  read_kv = λ layer slot n m c. ok (zeros n, zeros m) c;
  copy_block = λ src dst c. ok tt c;
  zero_block = λ block c. ok tt c;
}

abbrev attention : ℕ → List AttentionSeq → List ℕ → M CacheConfig (List ℕ)
attention layer seqs q c = ok q c

counting-Tensors : Tensors counting plain attention (λ n xs. xs ≡ n) 1 1 100 8
counting-Tensors = record {
  embed = λ ids positions h a b. (length ids, refl, refl);
  project = λ index n xs l h. (
    zeros xs,
    zeros xs,
    zeros xs,
    refl,
    ground (arith, h, length-zeros xs),
    ground (arith, h, length-zeros xs),
    ground (arith, h, length-zeros xs),
  );
  finish_layer = λ index n xs attn l h g. (xs, refl, h);
  logits = λ rows n xs h l. (blank (length rows), refl, length-blank (length rows));
}

chunk-InModel : InModel 100 8 chunk
chunk-InModel = record {
  tokens = (omega arith, (omega arith, (omega arith, tt)));
  positions = omega arith;
}

forward-Done_example :
    Done
      (λ logits t.
        (t ≡ small_cache)
        × (length logits ≡ 1)
        × ((ys : ℕ) × (ys ≡ 3) × (counting.logits (2 ∷ []) ys ≡ some logits)))
      (forward counting plain attention (chunk ∷ []) small_cache)
forward-Done_example =
    forward-Done counting plain attention (λ n xs. xs ≡ n) 1 (chunk ∷ []) 100 8 small_cache
      counting-Tensors (λ s layer slot k v l x h g. refl) (λ s layer seqs q l x h. (refl, refl))
      (omega arith) (omega arith) (chunk-WellFormed, tt) (chunk-InModel, tt)
