-- ===== src/Atomic/Tests.antt =====
-- Two threads that meet at one value.
use lunchbox.Prelude.{◌+◌, ◌%◌, ◌<◌, ◌≡◌, refl, arith, ◌⊎◌, List, [], ◌∷◌, some, length, size_mod}
use lunchbox.Atomic.{
  get_and_add, sub_and_get, Thread, back, System, Event, loads, swaps, steps, step, calling, loaded,
  pre_decrement, post_increment, try_swap, apply,
}
use lunchbox.Atomic.Loops.{Explains, steps-Explains}
use lunchbox.Atomic.Values.{added, subtracted, sum_made, steps-sum, swap-progress}

abbrev two_threads : List Thread
two_threads = calling (get_and_add 7) ∷ calling (sub_and_get 9) ∷ []

abbrev at_first : System
at_first = record { value = 5; threads = two_threads; made = [] }

-- Thread 0 loads, thread 1 makes its call, and thread 0 fails once.
abbrev meeting : List Event
meeting = loads 0 ∷ loads 1 ∷ swaps 1 ∷ swaps 0 ∷ loads 0 ∷ swaps 0 ∷ []

-- The second call returns - 4, and the first one finds it.
abbrev at_last : System
at_last = record {
  value = 3;
  threads =
      back (get_and_add 7) 18446744073709551612 ∷ back (sub_and_get 9) 18446744073709551612 ∷ [];
  made = (get_and_add 7, 18446744073709551612) ∷ (sub_and_get 9, 18446744073709551612) ∷ [];
}

meeting_runs : steps meeting at_first ≡ some at_last
unfolding steps step try_swap
meeting_runs = refl

steps-Explains_example : Explains 5 at_last
steps-Explains_example =
    steps-Explains meeting 5 at_first at_last (record { value = refl; results = tt }) meeting_runs

steps-sum_example :
    (3 + sum_made subtracted at_last.made) % size_mod ≡ (5 + sum_made added at_last.made) % size_mod
steps-sum_example =
    steps-sum meeting 5 two_threads at_last meeting_runs (omega arith, (omega arith, tt))

abbrev at_swap : System
at_swap = record {
  value = 18446744073709551612;
  threads = loaded (get_and_add 7) 5 ∷ back (sub_and_get 9) 18446744073709551612 ∷ [];
  made = (sub_and_get 9, 18446744073709551612) ∷ [];
}

abbrev at_retry : System
at_retry = record at_swap {
  threads = calling (get_and_add 7) ∷ back (sub_and_get 9) 18446744073709551612 ∷ [];
}

swap_runs : steps (loads 0 ∷ loads 1 ∷ swaps 1 ∷ []) at_first ≡ some at_swap
unfolding steps step try_swap
swap_runs = refl

retry_runs : step (swaps 0) at_swap ≡ some at_retry
unfolding step try_swap
retry_runs = refl

swap-progress_example :
    (at_retry.made ≡ (get_and_add 7, 5) ∷ at_swap.made)
    ⊎ (length at_first.made < length at_swap.made)
swap-progress_example =
    swap-progress (loads 0 ∷ loads 1 ∷ swaps 1 ∷ []) 0 (get_and_add 7) at_first at_swap at_retry
      swap_runs refl retry_runs

-- The members at the ends of the type.
members_run :
    (post_increment (record { value = 18446744073709551615 })
      ≡ (18446744073709551615, record { value = 0 }))
    × (pre_decrement (record { value = 0 })
        ≡ (18446744073709551615, record { value = 18446744073709551615 }))
unfolding post_increment pre_decrement apply
members_run = (refl, refl)
