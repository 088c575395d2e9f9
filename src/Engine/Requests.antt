-- ===== src/Engine/Requests.antt =====
-- The map of the requests of engine.rs, a list of pairs, against its look-ups.
use paged_kv_cache.Prelude.{ℕ, ◌≡◌, none, some, List, [], ◌∷◌, ◌==◌, if◌then◌else◌, arith}
use paged_kv_cache.Engine.{find, erase, insert}

pub find-erase :
    {A : Type 0} (i id : ℕ) (rs : List (ℕ × A))
    → find i (erase id rs) ≡ (if i == id then none else find i rs)
find-erase i id [] = ground arith
find-erase i id ((j, r) ∷ rs) = ground (arith, find-erase i id rs)

pub find-insert :
    {A : Type 0} (i id : ℕ) (r : A) (rs : List (ℕ × A))
    → find i (insert id r rs) ≡ (if i == id then some r else find i rs)
find-insert i id r rs = ground (arith, find-erase i id rs)
