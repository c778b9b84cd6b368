-- ===== src/Thread.antt =====
-- lunchbox/thread.cpp: a thread's owner, who starts, joins and cancels it, and the children that run it.
-- One owner makes the calls. What a call reads or writes of the shared state is one event, and the
-- events of the owner and of the children come in any order.
pub mod Counts
pub mod Sound
pub mod Children
pub mod Owners
pub mod Outcomes
pub mod Faults
mod Tests
use lunchbox.Prelude.{
  ℕ, zero, suc, ◌+◌, ◌≡◌, Bool, true, false, not, List, [], ◌∷◌, ◌++◌, Option, none, some, ◌==◌,
  bind, if◌then◌else◌, length, get_elem?, set,
}

pub data ThreadState : Type 0 where
  stopped : ThreadState
  starting : ThreadState
  running : ThreadState
  stopping : ThreadState

abbrev pub same_state : ThreadState → ThreadState → Bool
same_state stopped stopped = true
same_state starting starting = true
same_state running running = true
same_state stopping stopping = true
same_state _ _ = false

-- Where a child is: created, or entered in `_threads` and before the end of `init`, or in `run`, or
-- behind it, or ended by `exit`, or ended since `init` failed, or by `pthread_cancel`.
pub data Phase : Type 0 where
  created : Phase
  registered : Phase
  in_run : Phase
  left : Phase
  ended : Phase
  failed : Phase
  cancelled : Phase

pub record Child : Type 0 where
  pub phase : Phase
  pub cancel_requested : Bool

-- Where the owner is: in no call, in the loop of `start` with the tries that are left, in the wait of
-- `start` for a child, in the wait of `join`, or behind that wait.
pub data Owner : Type 0 where
  idle : Owner
  creating : ℕ → Owner
  awaiting : ℕ → Owner
  joining : Owner
  joined : Owner

-- `threads` is `_threads`, and `result` what the owner's last call returned.
pub record System : Type 0 where
  pub state : ThreadState
  pub threads : List ℕ
  pub children : List Child
  pub owner : Owner
  pub result : Option Bool

unfoldable pub new_thread : System
new_thread = record { state = stopped; threads = []; children = []; owner = idle; result = none }

unfoldable pub is_stopped : System → Bool
is_stopped s = same_state s.state stopped

unfoldable pub is_running : System → Bool
is_running s = same_state s.state running

-- What `pthread_create` returns: 0, `EAGAIN` or another error.
pub data Created : Type 0 where
  success : Created
  again : Created
  error : Created

pub data ChildEvent : Type 0 where
  registers : ChildEvent
  inits : Bool → ChildEvent
  leaves_run : ChildEvent
  exits : ChildEvent
  dies : ChildEvent

pub data Event : Type 0 where
  calls_start : Event
  creates : Created → Event
  sees_started : Event
  calls_join : Event
  sees_ended : Event
  sets_stopped : Event
  calls_cancel : Event
  child_does : ℕ → ChildEvent → Event

abbrev pub returns : Bool → System → System
returns b s = record s { owner = idle; result = some b }

-- The test at the head of `start`, and the write behind it.
unfoldable pub start : System → System
start s =
    if same_state s.state stopped
    then record s { state = starting; owner = creating 10 }
    else returns false s

-- One turn of the loop in `start`, with `n` tries left behind the decrement.
unfoldable pub create : ℕ → Created → System → System
create n success s = record s {
  children = s.children ++ record { phase = created; cancel_requested = false } ∷ [];
  owner = awaiting (length s.children);
}
create n again s = if n == 0 then returns false s else record s { owner = creating n }
create n error s = returns false s

-- `waitNE( STATE_STARTING )` and the result of `start`: `none` while it waits.
-- The read of the state behind the wait is part of the same event: with one owner nothing takes the state
-- to or from `STATE_STOPPED` in between.
unfoldable pub see_started : System → Option System
see_started s =
    if same_state s.state starting
    then none
    else some (returns (not (same_state s.state stopped)) s)

unfoldable pub join : System → System
join s = if same_state s.state stopped then returns false s else record s { owner = joining }

-- `waitNE( STATE_RUNNING )` in `join`, and what follows it.
unfoldable pub see_ended : System → Option System
see_ended s = if same_state s.state running then none else some (record s { owner = joined })

unfoldable pub set_stopped : System → System
set_stopped s = returns true (record s { state = stopped })

-- `pthread_cancel` of the child that was created last.
abbrev pub request_cancel : List Child → List Child
request_cancel [] = []
request_cancel (c ∷ []) = record c { cancel_requested = true } ∷ []
request_cancel (c ∷ d ∷ cs) = c ∷ request_cancel (d ∷ cs)

unfoldable pub cancel : System → System
cancel s = record s { state = stopping; children = request_cancel s.children }

abbrev pub erase_id : ℕ → List ℕ → List ℕ
erase_id i [] = []
erase_id i (j ∷ js) = if i == j then js else j ∷ erase_id i js

abbrev pub move : ℕ → Child → Phase → System → System
move i c p s = record s { children = set s.children i (record c { phase = p }) }

-- `_runChild` and `exit` by child `i`: `none` where the child is not at that place.
unfoldable pub child_step : ℕ → Child → Phase → ChildEvent → System → Option System
child_step i c created registers s =
    some (move i c registered (record s { threads = i ∷ s.threads }))
child_step i c registered (inits b) s = some (
    if b
    then move i c in_run (record s { state = running })
    else move i c failed (record s { state = stopped }))
child_step i c in_run leaves_run s =
    some (move i c left (record s { threads = erase_id i s.threads }))
-- `run` may call `exit` itself.
child_step i c in_run exits s = some (move i c ended (record s { state = stopping }))
child_step i c left exits s = some (move i c ended (record s { state = stopping }))
child_step i c created dies s = if c.cancel_requested then some (move i c cancelled s) else none
child_step i c registered dies s = if c.cancel_requested then some (move i c cancelled s) else none
child_step i c in_run dies s = if c.cancel_requested then some (move i c cancelled s) else none
child_step i c left dies s = if c.cancel_requested then some (move i c cancelled s) else none
child_step _ _ _ _ _ = none

-- An event: `none` where it cannot come.
unfoldable pub step : Event → Owner → System → Option System
unfolding start create see_started join see_ended set_stopped cancel child_step
step calls_start idle s = some (start s)
step (creates r) (creating (suc n)) s = some (create n r s)
step sees_started (awaiting i) s = see_started s
step calls_join idle s = some (join s)
step sees_ended joining s = see_ended s
step sets_stopped joined s = some (set_stopped s)
step calls_cancel idle s = some (cancel s)
step (child_does i e) o s = bind (get_elem? s.children i) (λ c. child_step i c c.phase e s)
step _ _ _ = none

unfoldable pub steps : List Event → System → Option System
unfolding step
steps [] s = some s
steps (e ∷ es) s = bind (step e s.owner s) (steps es)
