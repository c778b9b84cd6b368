-- ===== src/Monitor/Tests.antt =====
-- Two threads that wait for a counter, and a flag.
use lunchbox.Prelude.{ℕ, ◌≡◌, refl, Bool, true, false, List, [], ◌∷◌, some, get_elem?}
use lunchbox.Monitor.{
  Monitor, Waiter, Wait, Phase, Call, new_monitor, calls, resume, test_of, awake, returned, expired,
}
use lunchbox.Monitor.Words.{words}
use lunchbox.Monitor.Flag.{increment_flag}
use lunchbox.Monitor.Waiting.{calls-resume}

-- One thread waits for 2, another one at most a while for 9.
abbrev counting : List (Call ℕ)
counting =
    Call.waits (Wait.eq 2)
    ∷ Call.waits_timed (Wait.ge 9)
    ∷ Call.increments
    ∷ Call.resumes 0
    ∷ Call.increments
    ∷ Call.expires 1
    ∷ []

abbrev waiting : Waiter ℕ
waiting = record { wait = Wait.eq 2; timed = false; phase = awake }

counting_waits : get_elem? (calls words counting (new_monitor 0)).waiters 0 ≡ some waiting
unfolding calls new_monitor
counting_waits = refl

counting_expires :
    get_elem? (calls words counting (new_monitor 0)).waiters 1
    ≡ some (record { wait = Wait.ge 9; timed = true; phase = expired false })
unfolding calls new_monitor
counting_expires = refl

calls-resume_example :
    (◌≡◌ {A = Phase ℕ} awake awake)
    × (get_elem? (resume words 0 (calls words counting (new_monitor 0))).waiters 0
        ≡ some (record waiting { phase = returned (calls words counting (new_monitor 0)).value }))
unfolding calls new_monitor test_of
calls-resume_example = calls-resume words 0 counting 0 waiting counting_waits refl refl

-- A flag that is set.
abbrev set_flag : Monitor Bool
set_flag = record { value = true; waiters = [] }

set_flag_reached : increment_flag (new_monitor false) ≡ some set_flag
unfolding increment_flag new_monitor
set_flag_reached = refl
