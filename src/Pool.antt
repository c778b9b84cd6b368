-- ===== src/Pool.antt =====
-- lunchbox/pool.h: objects that are kept for reuse. Each operation holds the lock, so it is one step.
-- An object is its address, and `new` gives an address that no object has: the number of objects
-- made so far.
pub mod Reuse
mod Tests
use lunchbox.Prelude.{
  ℕ, ◌+◌, Bool, true, false, List, [], ◌∷◌, ◌++◌, Option, none, some, ◌==◌, bind, if◌then◌else◌,
}

-- `_cache`, with its back first, beside the objects that were made and deleted.
pub record Pool : Type 0 where
  pub cache : List ℕ
  pub created : ℕ
  pub deleted : List ℕ

unfoldable pub new_pool : Pool
new_pool = record { cache = []; created = 0; deleted = [] }

abbrev pub alloc_from : Pool → List ℕ → Pool × ℕ
alloc_from p [] = (record p { created = p.created + 1 }, p.created)
alloc_from p (item ∷ rest) = (record p { cache = rest }, item)

unfoldable pub alloc : Pool → Pool × ℕ
alloc p = alloc_from p p.cache

unfoldable pub release : ℕ → Pool → Pool
release item p = record p { cache = item ∷ p.cache }

abbrev pub flush_all : List ℕ → List ℕ → List ℕ
flush_all [] deleted = deleted
flush_all (item ∷ rest) deleted = flush_all rest (item ∷ deleted)

-- `flush`, which the destructor calls.
unfoldable pub flush : Pool → Pool
flush p = record p { cache = []; deleted = flush_all p.cache p.deleted }

-- The callers of a pool and the objects that they use: one may only be released by who uses it.
pub record Client : Type 0 where
  pub pool : Pool
  pub used : List ℕ

pub data Call : Type 0 where
  allocs : Call
  releases : ℕ → Call
  flushes : Call

abbrev pub take_out : ℕ → List ℕ → Option (List ℕ)
take_out item [] = none
take_out item (x ∷ xs) =
    let rest = take_out item xs in if x == item then some xs else bind rest (λ ys. some (x ∷ ys))

-- `none`: the item is not in use.
unfoldable pub call : Call → Client → Option Client
unfolding alloc release flush
call allocs c = let (p, item) = alloc c.pool in some (record { pool = p; used = item ∷ c.used })
call (releases item) c =
    bind (take_out item c.used) (λ rest. some (record { pool = release item c.pool; used = rest }))
call flushes c = some (record c { pool = flush c.pool })

unfoldable pub calls : List Call → Client → Option Client
calls [] c = some c
calls (x ∷ xs) c = bind (call x c) (calls xs)
