-- ===== src/Pool/Tests.antt =====
-- Two objects, one of them used twice.
use lunchbox.Prelude.{ℕ, ◌≡◌, refl, List, [], ◌∷◌, some, ltb, if◌then◌else◌}
use lunchbox.Pool.{Client, Call, allocs, releases, flushes, calls, call, alloc, release, flush}
use lunchbox.Pool.Reuse.{count, places, no_calls, calls-alone}

abbrev some_calls : List Call
some_calls = allocs ∷ allocs ∷ releases 0 ∷ allocs ∷ releases 1 ∷ flushes ∷ []

abbrev at_last : Client
at_last = record { pool = record { cache = []; created = 2; deleted = 1 ∷ [] }; used = 0 ∷ [] }

some_calls_run : calls some_calls no_calls ≡ some at_last
unfolding calls call alloc release flush
some_calls_run = refl

calls-alone_example :
    ((item : ℕ) → places at_last item ≡ (if ltb item 2 then 1 else 0))
    × (count (alloc at_last.pool).1 at_last.used ≡ 0)
    × (count (alloc at_last.pool).1 at_last.pool.deleted ≡ 0)
calls-alone_example = calls-alone some_calls at_last some_calls_run
