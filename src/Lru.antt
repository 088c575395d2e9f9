-- ===== src/Lru.antt =====
-- crates/paged-kv-core/src/lru.rs: a doubly linked list threaded through index arrays. The
-- `debug_assert!`s are not part of a release build. `len` counts linked cells, so it cannot wrap.
pub mod Order
pub mod Refine
use paged_kv_cache.Prelude.{
  ℕ, zero, suc, ◌+◌, ◌-◌, ◌%◌, ◌^◌, Bool, true, false, Option, none, some, List, [], ◌∷◌, ◌==◌,
  if◌then◌else◌, Array, filled,
}
use paged_kv_cache.Outcome.{M, ◌>>=◌, ◌>>◌, pure, get, put, index, store}

abbrev pub nil : ℕ
nil = 2 ^ 32 - 1

pub record Lru : Type 0 where
  pub prev : Array ℕ
  pub next : Array ℕ
  pub linked : Array Bool
  pub head : ℕ
  pub tail : ℕ
  pub len : ℕ

unfoldable pub new : ℕ → Lru
new capacity = record {
  prev = filled nil capacity;
  next = filled nil capacity;
  linked = filled false capacity;
  head = nil;
  tail = nil;
  len = 0;
}

unfoldable pub contains : {S : Type 0} → Lru → ℕ → M S Bool
contains l i = index l.linked i

-- The new `head` and the new `next` array of `push_back`.
abbrev link_back : Lru → ℕ → Array ℕ → M Lru (ℕ × Array ℕ)
link_back l i32 next =
    if l.tail == nil
    then pure (i32, next)
    else do next' ← store next l.tail i32; pure (l.head, next')

unfoldable pub push_back : ℕ → M Lru (Unit {0})
push_back i = do
  l ← get
  let i32 = i % 2 ^ 32
  prev ← store l.prev i l.tail
  next ← store l.next i nil
  (head, next') ← link_back l i32 next
  linked ← store l.linked i true
  put (record {
    prev = prev;
    next = next';
    linked = linked;
    head = head;
    tail = i32;
    len = l.len + 1;
  })

-- The first `if` of `remove`: the new `head` and `next` array.
abbrev unlink_next : Lru → ℕ → ℕ → M Lru (ℕ × Array ℕ)
unlink_next l prev next =
    if prev == nil
    then pure (next, l.next)
    else do next' ← store l.next prev next; pure (l.head, next')

-- The second `if` of `remove`: the new `tail` and `prev` array.
abbrev unlink_prev : Lru → ℕ → ℕ → M Lru (ℕ × Array ℕ)
unlink_prev l prev next =
    if next == nil
    then pure (prev, l.prev)
    else do prev' ← store l.prev next prev; pure (l.tail, prev')

unfoldable pub remove : ℕ → M Lru (Unit {0})
remove i = do
  l ← get
  prev ← index l.prev i
  next ← index l.next i
  (head, nexts) ← unlink_next l prev next
  (tail, prevs) ← unlink_prev l prev next
  prevs' ← store prevs i nil
  nexts' ← store nexts i nil
  linked ← store l.linked i false
  put (record {
    prev = prevs';
    next = nexts';
    linked = linked;
    head = head;
    tail = tail;
    len = l.len - 1;
  })

unfoldable pub pop_front : M Lru (Option ℕ)
pop_front = do l ← get; if l.head == nil then pure none else do remove l.head; pure (some l.head)

-- `iter` from `cursor` on: it stops at `nil`, and there is no list when `fuel` cells are not enough.
unfoldable pub walk : Lru → ℕ → ℕ → Option (List ℕ)
walk l zero cursor = none
walk l (suc fuel) cursor =
    let rest = walk l fuel (l.next.at cursor) in
    if cursor == nil
    then some []
    else elim rest [ none ↦ none | some cells ↦ some (cursor ∷ cells) ]

-- What `iter` yields, if it stops: when it takes more steps than there are cells, one comes twice,
-- and it goes on for ever.
unfoldable pub to_list : Lru → Option (List ℕ)
unfolding walk
to_list l = walk l (l.next.size + 1) l.head
