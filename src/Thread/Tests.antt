-- ===== src/Thread/Tests.antt =====
-- Threads that run, that fail in `init`, and that are cancelled.
use lunchbox.Prelude.{
  ℕ, ◌+◌, ◌≡◌, refl, ◌⊎◌, true, false, List, [], ◌∷◌, none, some, get_elem?, arith,
}
use lunchbox.Thread.{
  System, Child, Event, ChildEvent, Created, stopped, running, stopping, failed, ended, in_run,
  awaiting, joined, idle, new_thread, step, steps,
}
use lunchbox.Thread.Counts.{early, live}
use lunchbox.Thread.Outcomes.{WasInitialized, start_result, join_result}

-- The first child fails in `init`, and the second one runs to its end.
abbrev failing_once : List Event
failing_once =
    Event.calls_start
    ∷ Event.creates Created.again
    ∷ Event.creates Created.success
    ∷ Event.child_does 0 ChildEvent.registers
    ∷ Event.child_does 0 (ChildEvent.inits false)
    ∷ []

abbrev running_once : List Event
running_once =
    Event.calls_start
    ∷ Event.creates Created.success
    ∷ Event.child_does 0 ChildEvent.registers
    ∷ Event.child_does 0 (ChildEvent.inits true)
    ∷ Event.sees_started
    ∷ Event.calls_join
    ∷ Event.child_does 0 ChildEvent.leaves_run
    ∷ Event.child_does 0 ChildEvent.exits
    ∷ Event.sees_ended
    ∷ []

abbrev after_failure : System
after_failure = record {
  state = stopped;
  threads = 0 ∷ [];
  children = record { phase = failed; cancel_requested = false } ∷ [];
  owner = awaiting 0;
  result = none;
}

abbrev after_run : System
after_run = record {
  state = stopping;
  threads = [];
  children = record { phase = ended; cancel_requested = false } ∷ [];
  owner = joined;
  result = some true;
}

failing_once_runs : steps failing_once new_thread ≡ some after_failure
unfolding steps new_thread
failing_once_runs = refl

running_once_runs : steps running_once new_thread ≡ some after_run
unfolding steps new_thread
running_once_runs = refl

start_result_example :
    (k : ℕ) × (c : Child) × (awaiting 0 ≡ awaiting k)
    × (get_elem? after_failure.children k ≡ some c)
    × (((some false ≡ some true) × WasInitialized c.phase)
        ⊎ ((some false ≡ some false) × (c.phase ≡ failed)))
unfolding step
start_result_example =
    start_result failing_once after_failure
      (record after_failure { owner = idle; result = some false }) (omega arith) failing_once_runs
      refl

join_result_example :
    (some true ≡ some true)
    × (stopped ≡ stopped)
    × ((i : ℕ) (c : Child) → get_elem? after_run.children i ≡ some c → early c + live c ≡ 0)
unfolding step
join_result_example =
    join_result running_once after_run
      (record after_run { state = stopped; owner = idle; result = some true }) (omega arith)
      running_once_runs refl

-- A thread that runs.
abbrev in_use : System
in_use = record {
  state = running;
  threads = 0 ∷ [];
  children = record { phase = in_run; cancel_requested = false } ∷ [];
  owner = idle;
  result = some true;
}
