-- ===== src/Monitor.antt =====
-- lunchbox/monitor.h: a value that threads change and wait for.
pub mod Words
pub mod Flag
pub mod Waiting
mod Tests
use lunchbox.Prelude.{
  ℕ, ◌+◌, ◌<◌, ◌≡◌, Bool, true, false, not, ◌&&◌, List, [], ◌∷◌, ◌++◌, Option, none, some,
  if◌then◌else◌, get_elem?, set,
}

-- The operators of the type `T` that the monitor uses. The other comparisons are those of a linear order.
pub record Values {ℓ} (T : Type ℓ) : Type ℓ where
  pub equal : T → T → Bool
  pub below : T → T → Bool
  pub next : T → T
  pub previous : T → T
  pub either : T → T → T
  pub both : T → T → T
  pub sum : T → T → T
  pub truth : T → Bool

-- What a thread waits for: `waitEQ`, the two `waitNE`, `waitGE`, `waitLE`, `waitGT` and `waitLT`.
pub data Wait {ℓ} (T : Type ℓ) : Type ℓ where
  eq : T → Wait T
  ne : T → Wait T
  ne_both : T → T → Wait T
  ge : T → Wait T
  le : T → Wait T
  gt : T → Wait T
  lt : T → Wait T

-- A thread in a wait is asleep on the condition variable or awake from it. `expired` is the end of a
-- `timedWait` by its timeout, with the answer of the predicate at that time.
pub data Phase {ℓ} (T : Type ℓ) : Type ℓ where
  asleep : Phase T
  awake : Phase T
  returned : T → Phase T
  expired : Bool → Phase T

pub record Waiter {ℓ} (T : Type ℓ) : Type ℓ where
  pub wait : Wait T
  pub timed : Bool
  pub phase : Phase T

pub record Monitor {ℓ} (T : Type ℓ) : Type ℓ where
  pub value : T
  pub waiters : List (Waiter T)

module _ {ℓ} {T : Type ℓ} where
  unfoldable pub new_monitor : T → Monitor T
  new_monitor v = record { value = v; waiters = [] }

  -- `notify_all`
  abbrev pub wake : Phase T → Phase T
  wake asleep = awake
  wake awake = awake
  wake (returned v) = returned v
  wake (expired b) = expired b

  abbrev pub notify_all : List (Waiter T) → List (Waiter T)
  notify_all [] = []
  notify_all (w ∷ ws) = record w { phase = wake w.phase } ∷ notify_all ws

  -- What the changes have in common: under the lock, a new value and a notification.
  unfoldable pub change : (T → T) → Monitor T → Monitor T
  change f m = record { value = f m.value; waiters = notify_all m.waiters }

  -- `set`, with the old value.
  unfoldable pub set_value : T → Monitor T → Monitor T × T
  unfolding change
  set_value v m = (change (λ _. v) m, m.value)

  -- `operator=` of a value, and of another monitor.
  unfoldable pub assign : T → Monitor T → Monitor T
  unfolding set_value
  assign v m = (set_value v m).0

  unfoldable pub assign_from : Monitor T → Monitor T → Monitor T
  unfolding set_value
  assign_from from m = (set_value from.value m).0

module _ {ℓ} {T : Type ℓ} (o : Values T) where
  -- The predicates of the waits.
  unfoldable pub test_of : Wait T → T → Bool
  test_of (eq v) x = o.equal x v
  test_of (ne v) x = not (o.equal x v)
  test_of (ne_both v1 v2) x = not (o.equal x v1) && not (o.equal x v2)
  test_of (ge v) x = not (o.below x v)
  test_of (le v) x = not (o.below v x)
  test_of (gt v) x = o.below v x
  test_of (lt v) x = o.below x v

  unfoldable pub increment : Monitor T → Monitor T
  unfolding change
  increment = change o.next

  unfoldable pub decrement : Monitor T → Monitor T
  unfolding change
  decrement = change o.previous

  unfoldable pub or_with : T → Monitor T → Monitor T
  unfolding change
  or_with v = change (λ x. o.either x v)

  unfoldable pub and_with : T → Monitor T → Monitor T
  unfolding change
  and_with v = change (λ x. o.both x v)

  -- One turn of the loop in `wait( lock, predicate )`: a thread whose predicate fails sleeps again.
  unfoldable pub look : Wait T → T → Phase T
  unfolding test_of
  look w x = if test_of w x then returned x else asleep

  -- `_wait` and `_timedWait`: a thread begins to wait.
  unfoldable pub begin_wait : Wait T → Bool → Monitor T → Monitor T
  unfolding look
  begin_wait w timed m = record m {
    waiters = m.waiters ++ record { wait = w; timed = timed; phase = look w m.value } ∷ [];
  }

  -- A waiter wakes up, by a notification or by none, and looks at the value.
  abbrev pub resume_phase : Wait T → T → Phase T → Phase T
  resume_phase w x asleep = look w x
  resume_phase w x awake = look w x
  resume_phase w x (returned v) = returned v
  resume_phase w x (expired b) = expired b

  -- The time of a `timedWait` is over: `wait_for` returns what the predicate says.
  abbrev pub expire_phase : Wait T → T → Phase T → Phase T
  expire_phase w x asleep = expired (test_of w x)
  expire_phase w x awake = expired (test_of w x)
  expire_phase w x (returned v) = returned v
  expire_phase w x (expired b) = expired b

  unfoldable pub resume : ℕ → Monitor T → Monitor T
  unfolding look
  resume i m = elim (get_elem? m.waiters i) [
    | none ↦ m
    | some w ↦ record m {
      waiters = set m.waiters i (record w { phase = resume_phase w.wait m.value w.phase });
    }
  ]

  unfoldable pub expire : ℕ → Monitor T → Monitor T
  unfolding test_of
  expire i m = elim (get_elem? m.waiters i) [
    | none ↦ m
    | some w ↦
        if w.timed
        then record m {
          waiters = set m.waiters i (record w { phase = expire_phase w.wait m.value w.phase });
        }
        else m
  ]

-- What a `timedWait` returns: `none` while it waits.
abbrev pub timed_answer {ℓ} : {T : Type ℓ} → Phase T → Option Bool
timed_answer asleep = none
timed_answer awake = none
timed_answer (returned v) = some true
timed_answer (expired b) = some b

-- The threads' calls, and the turns of their waits, in any order.
pub data Call {ℓ} (T : Type ℓ) : Type ℓ where
  increments : Call T
  decrements : Call T
  sets : T → Call T
  assigns_from : Monitor T → Call T
  ors : T → Call T
  ands : T → Call T
  waits : Wait T → Call T
  waits_timed : Wait T → Call T
  resumes : ℕ → Call T
  expires : ℕ → Call T

module _ {ℓ} {T : Type ℓ} (o : Values T) where
  unfoldable pub call : Call T → Monitor T → Monitor T
  unfolding increment decrement assign assign_from or_with and_with begin_wait resume expire
  call increments m = increment o m
  call decrements m = decrement o m
  call (sets v) m = assign v m
  call (assigns_from from) m = assign_from from m
  call (ors v) m = or_with o v m
  call (ands v) m = and_with o v m
  call (waits w) m = begin_wait o w false m
  call (waits_timed w) m = begin_wait o w true m
  call (resumes i) m = resume o i m
  call (expires i) m = expire o i m

  unfoldable pub calls : List (Call T) → Monitor T → Monitor T
  unfolding call
  calls [] m = m
  calls (c ∷ cs) m = calls cs (call c m)

  -- The comparisons with a value, in the source's order, and with the value of another monitor.
  unfoldable pub equals : Monitor T → T → Bool
  equals m v = o.equal m.value v

  unfoldable pub differs : Monitor T → T → Bool
  differs m v = not (o.equal m.value v)

  unfoldable pub is_less : Monitor T → T → Bool
  is_less m v = o.below m.value v

  unfoldable pub is_greater : Monitor T → T → Bool
  is_greater m v = o.below v m.value

  unfoldable pub is_at_most : Monitor T → T → Bool
  is_at_most m v = not (o.below v m.value)

  unfoldable pub is_at_least : Monitor T → T → Bool
  is_at_least m v = not (o.below m.value v)

  unfoldable pub is_true : Monitor T → Bool
  is_true m = o.truth m.value

  -- `operator+`, `operator|` and `operator&`
  unfoldable pub plus : Monitor T → T → T
  plus m v = o.sum m.value v

  unfoldable pub or_value : Monitor T → T → T
  or_value m v = o.either m.value v

  unfoldable pub and_value : Monitor T → T → T
  and_value m v = o.both m.value v
