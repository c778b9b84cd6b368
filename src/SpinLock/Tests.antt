-- ===== src/SpinLock/Tests.antt =====
-- The theorems of the lock at two threads, of which one has it to write.
use lunchbox.Prelude.{◌≡◌, refl, ◌⊎◌, true, [], ◌∷◌}
use lunchbox.SpinLock.{
  writelocked, unlocked, try_set, outside, writing, System, sets, Reached, starts, steps,
}
use lunchbox.SpinLock.Swaps.{writers, readers}
use lunchbox.SpinLock.Excludes.{writers-alone}

abbrev free_lock : System
free_lock = record { state = unlocked; threads = outside ∷ outside ∷ [] }

abbrev held : System
held = record { state = writelocked; threads = outside ∷ writing ∷ [] }

try_set_runs : try_set unlocked ≡ (true, writelocked)
unfolding try_set
try_set_runs = refl

held-Reached : Reached 2 held
held-Reached = steps free_lock held starts (sets free_lock 1 writelocked refl try_set_runs)

writers-alone_example : (writers held ≡ 0) ⊎ ((writers held ≡ 1) × (readers held ≡ 0))
writers-alone_example = writers-alone 2 held held-Reached
