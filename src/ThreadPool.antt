-- ===== src/ThreadPool.antt =====
-- lunchbox/threadPool.h and threadPool.cpp: worker threads that run the tasks of one queue.
-- What a thread does under the lock, and each notification, is one event; the events come in any order.
pub mod Turns
pub mod Order
pub mod Wakes
mod Tests
use lunchbox.Prelude.{
  ℕ, zero, suc, ◌+◌, ◌-◌, ◌≡◌, Bool, true, false, not, ◌&&◌, List, [], ◌∷◌, ◌++◌, Option, none,
  some, ◌==◌, ltb, bind, if◌then◌else◌, length, get_elem?, set, replicate, sum_of,
}

-- A worker is asleep in `_condition.wait`, or awake and about to test its predicate, or it runs a task,
-- or it has returned from `work`.
pub data Worker {ℓ} (A : Type ℓ) : Type ℓ where
  asleep : Worker A
  awake : Worker A
  runs : A → Worker A
  ended : Worker A

-- The fields of `ThreadPool`, the calls of `notify_one` that are still to come, and the tasks that the
-- workers have begun, in order.
pub record ThreadPool {ℓ} (A : Type ℓ) : Type ℓ where
  pub workers : List (Worker A)
  pub tasks : List A
  pub stop : Bool
  pub due : ℕ
  pub begun : List A

module _ {ℓ} {A : Type ℓ} where
  abbrev pub asleep_one : Worker A → ℕ
  asleep_one asleep = 1
  asleep_one _ = 0

  unfoldable pub new_pool : ℕ → ThreadPool A
  new_pool size = record {
    workers = replicate size awake;
    tasks = [];
    stop = false;
    due = 0;
    begun = [];
  }

  unfoldable pub get_size : ThreadPool A → ℕ
  get_size p = length p.workers

  unfoldable pub has_pending_jobs : ThreadPool A → Bool
  has_pending_jobs p = elim p.tasks [ [] ↦ false | _ ∷ _ ↦ true ]

  -- `post` and `postDetached` up to the end of the lock.
  unfoldable pub post : A → ThreadPool A → ThreadPool A
  post a p = record p { tasks = p.tasks ++ a ∷ []; due = p.due + 1 }

  abbrev pub wake : Worker A → Worker A
  wake asleep = awake
  wake awake = awake
  wake (runs a) = runs a
  wake ended = ended

  abbrev pub notify_all : List (Worker A) → List (Worker A)
  notify_all [] = []
  notify_all (w ∷ ws) = wake w ∷ notify_all ws

  -- `notify_one` wakes one worker that sleeps, whichever, if there is one.
  unfoldable pub notify_one : Option ℕ → ThreadPool A → Option (ThreadPool A)
  notify_one none p =
      if ltb 0 p.due && (sum_of asleep_one p.workers == 0)
      then some (record p { due = p.due - 1 })
      else none
  notify_one (some i) p = bind (get_elem? p.workers i) (λ w.
      if ltb 0 p.due && (asleep_one w == 1)
      then some (record p { due = p.due - 1; workers = set p.workers i awake })
      else none)

  -- The destructor, up to `joinAll`.
  unfoldable pub destroy : ThreadPool A → ThreadPool A
  destroy p = record p { stop = true; workers = notify_all p.workers }

  -- `work` under the lock, by worker `i`: the predicate, and then the end or the first task.
  unfoldable pub take_task : ℕ → List A → ThreadPool A → ThreadPool A
  take_task i [] p = record p { workers = set p.workers i (if p.stop then ended else asleep) }
  take_task i (a ∷ as_) p =
      if p.stop
      then record p { workers = set p.workers i ended }
      else record p { workers = set p.workers i (runs a); tasks = as_; begun = p.begun ++ a ∷ [] }

  unfoldable pub work : ℕ → Worker A → ThreadPool A → Option (ThreadPool A)
  unfolding take_task
  work i asleep p = some (take_task i p.tasks p)
  work i awake p = some (take_task i p.tasks p)
  work i (runs a) p = none
  work i ended p = none

  -- The task returns, and the loop goes round.
  unfoldable pub finish : ℕ → Worker A → ThreadPool A → Option (ThreadPool A)
  finish i asleep p = none
  finish i awake p = none
  finish i (runs a) p = some (record p { workers = set p.workers i awake })
  finish i ended p = none

pub data Event {ℓ} (A : Type ℓ) : Type ℓ where
  posts : A → Event A
  notifies : Option ℕ → Event A
  destroys : Event A
  works : ℕ → Event A
  finishes : ℕ → Event A

module _ {ℓ} {A : Type ℓ} where
  unfoldable pub step : Event A → ThreadPool A → Option (ThreadPool A)
  unfolding post notify_one destroy work finish
  step (posts a) p = some (post a p)
  step (notifies i) p = notify_one i p
  step destroys p = some (destroy p)
  step (works i) p = bind (get_elem? p.workers i) (λ w. work i w p)
  step (finishes i) p = bind (get_elem? p.workers i) (λ w. finish i w p)

  unfoldable pub steps : List (Event A) → ThreadPool A → Option (ThreadPool A)
  unfolding step
  steps [] p = some p
  steps (e ∷ es) p = bind (step e p) (steps es)
