-- ===== src/ThreadPool/Tests.antt =====
-- A pool of one worker that is destroyed while a task waits.
use lunchbox.Prelude.{
  ℕ, ◌+◌, ◌≡◌, ◌≤◌, refl, ◌⊎◌, true, false, List, [], ◌∷◌, ◌++◌, none, some, arith,
}
use lunchbox.ThreadPool.{ThreadPool, Event, awake, ended, new_pool, steps, has_pending_jobs}
use lunchbox.ThreadPool.Order.{posted, steps-posted}
use lunchbox.ThreadPool.Wakes.{asleeps, busies, steps-awaited}

-- The worker falls asleep, is woken for the first of two tasks, and runs it.
abbrev two_tasks : List (Event ℕ)
two_tasks =
    Event.works 0
    ∷ Event.posts 7
    ∷ Event.notifies (some 0)
    ∷ Event.posts 8
    ∷ Event.works 0
    ∷ Event.notifies none
    ∷ Event.finishes 0
    ∷ []

abbrev one_left : ThreadPool ℕ
one_left = record { workers = awake ∷ []; tasks = 8 ∷ []; stop = false; due = 0; begun = 7 ∷ [] }

abbrev dropped : ThreadPool ℕ
dropped = record one_left { workers = ended ∷ []; stop = true }

two_tasks_run : steps two_tasks (new_pool 1) ≡ some one_left
unfolding steps new_pool
two_tasks_run = refl

one_left_pending : has_pending_jobs one_left ≡ true
unfolding has_pending_jobs
one_left_pending = refl

one_left_destroyed : steps (Event.destroys ∷ Event.works 0 ∷ []) one_left ≡ some dropped
unfolding steps
one_left_destroyed = refl

steps-posted_example :
    7 ∷ 8 ∷ [] ≡ ((new_pool {A = ℕ} 1).begun ++ (new_pool {A = ℕ} 1).tasks) ++ posted two_tasks
steps-posted_example = steps-posted two_tasks (new_pool 1) one_left two_tasks_run

steps-awaited_example :
    ((false ≡ true) × (asleeps one_left ≡ 0))
    ⊎ ((false ≡ false) × ((one_left.tasks ≡ []) ⊎ (1 ≤ one_left.due + busies one_left)))
steps-awaited_example = steps-awaited 1 two_tasks one_left (omega arith) two_tasks_run
