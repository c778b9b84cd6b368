-- ===== src/MtQueue/Tests.antt =====
-- Runs of the queue, and its theorems at a queue of two elements with room for three.
use lunchbox.Prelude.{
  ℕ, ◌<◌, ◌≡◌, ◌≢◌, refl, ◌⊎◌, true, false, List, [], ◌∷◌, none, some, get_elem?, arith,
}
use lunchbox.MtQueue.{
  MtQueue, Done, Outcome, waits, fails, returns, push, push_all, push_front, push_front_all, pop,
  try_pop_range, timed_pop_range, new_queue,
}
use lunchbox.MtQueue.Room.{IsValid}
use lunchbox.MtQueue.Calls.{
  Call, Effect, run, run_all, call_push, call_pop, call_push_all, call_try_pop, call_try_pop_range,
}
use lunchbox.MtQueue.Traces.{run_all-fifo}
use lunchbox.MtQueue.Barrier.{
  Crew, Worker, working, in_barrier, finished, Reached, starts, steps, enters, gives_up, wake,
  Woken, new_group, enter,
}
use lunchbox.MtQueue.Barrier.Idle.{count_idle}
use lunchbox.MtQueue.Barrier.Workers.{finished-over, wake-cases}

abbrev two : MtQueue ℕ
two = record { items = 4 ∷ 5 ∷ []; max_size = 3 }

two-IsValid : IsValid two
two-IsValid = record { bounded = omega arith; fits = omega arith }

abbrev pushed : Effect ℕ
pushed = record {
  taken = [];
  queue = record { items = 4 ∷ 5 ∷ 6 ∷ []; max_size = 3 };
  notified = true;
}

run_pushes : run (call_push 6) two ≡ some pushed
unfolding run push
run_pushes = refl

abbrev no_items : MtQueue ℕ
no_items = record { items = []; max_size = 3 }

abbrev unchanged : Effect ℕ
unchanged = record { taken = []; queue = no_items; notified = false }

run_misses : run call_try_pop no_items ≡ some unchanged
unfolding run lunchbox.MtQueue.try_pop
run_misses = refl

abbrev calls : List (Call ℕ)
calls = call_push 6 ∷ call_pop ∷ call_try_pop_range 1 ∷ call_push_all (7 ∷ 8 ∷ []) ∷ []

calls_run : run_all calls two ≡ some (4 ∷ 5 ∷ [], record { items = 6 ∷ 7 ∷ 8 ∷ []; max_size = 3 })
unfolding run_all push pop try_pop_range push_all
calls_run = refl

run_all-fifo_example : ◌≡◌ {A = List ℕ} (4 ∷ 5 ∷ 6 ∷ 7 ∷ 8 ∷ []) (4 ∷ 5 ∷ 6 ∷ 7 ∷ 8 ∷ [])
run_all-fifo_example =
    run_all-fifo calls two (4 ∷ 5 ∷ [], record { items = 6 ∷ 7 ∷ 8 ∷ []; max_size = 3 })
      (tt, (tt, (tt, (tt, tt)))) calls_run

-- Two workers at an empty queue: both call `popBarrier`, and the first one gets false.
abbrev crew : List Worker → ℕ → Crew ℕ
crew ws n = record { workers = ws; queue = no_items; group = record { height = 2; waiting = n } }

crew_starts : Reached 2 (crew (working ∷ working ∷ []) 0)
unfolding new_group
crew_starts = starts no_items

enter_first :
    enter (record { height = 2; waiting = 0 }) ≡ returns (record { height = 2; waiting = 1 })
unfolding enter
enter_first = refl

enter_second :
    enter (record { height = 2; waiting = 1 }) ≡ returns (record { height = 2; waiting = 2 })
unfolding enter
enter_second = refl

wake_first :
    wake no_items (record { height = 2; waiting = 2 })
    ≡ returns
        (record { value = none; queue = no_items; group = record { height = 2; waiting = 2 } })
unfolding wake
wake_first = refl

crew_waits : Reached 2 (crew (in_barrier ∷ in_barrier ∷ []) 2)
crew_waits =
    steps _ _
      (steps _ _ crew_starts (
        enters (crew (working ∷ working ∷ []) 0) 0 (record { height = 2; waiting = 1 }) refl
          enter_first))
      (enters (crew (in_barrier ∷ working ∷ []) 1) 1 (record { height = 2; waiting = 2 }) refl
        enter_second)

crew_leaves : Reached 2 (crew (finished ∷ in_barrier ∷ []) 2)
crew_leaves = steps _ _ crew_waits (
    gives_up (crew (in_barrier ∷ in_barrier ∷ []) 2) 0 no_items (record { height = 2; waiting = 2 })
      refl wake_first)

finished-over_example :
    ([] ≡ no_items.items) × (get_elem? (finished ∷ in_barrier ∷ []) 1 ≢ some working)
finished-over_example = finished-over 2 (crew (finished ∷ in_barrier ∷ []) 2) 0 1 crew_leaves refl

wake-cases_example :
    ((x : ℕ) × (w : Woken ℕ) × (wake no_items (record { height = 2; waiting = 2 }) ≡ returns w)
      × (w.value ≡ some x)
      × (no_items.items ≡ x ∷ w.queue.items))
    ⊎ ((no_items.items ≡ [])
        × (count_idle (in_barrier ∷ in_barrier ∷ []) ≡ 2)
        × (wake no_items (record { height = 2; waiting = 2 })
            ≡ returns (record {
              value = none;
              queue = no_items;
              group = record { height = 2; waiting = 2 };
            })))
    ⊎ ((no_items.items ≡ [])
        × (count_idle (in_barrier ∷ in_barrier ∷ []) < 2)
        × (wake no_items (record { height = 2; waiting = 2 }) ≡ waits))
wake-cases_example = wake-cases 2 (crew (in_barrier ∷ in_barrier ∷ []) 2) crew_waits
