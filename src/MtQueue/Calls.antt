-- ===== src/MtQueue/Calls.antt =====
-- The calls that change a queue, as data: any threads' calls are a list of these, in the order in
-- which they have the queue's mutex when they return.
use lunchbox.Prelude.{ℕ, Bool, List, [], ◌∷◌, ◌++◌, Option, none, some}
use lunchbox.MtQueue.{
  MtQueue, Done, Outcome, waits, fails, returns, assign, set_max_size, clear, pop, timed_pop,
  try_pop, timed_pop_range, try_pop_range, push, push_all, push_front, push_front_all,
}

pub data Call {ℓ} (A : Type ℓ) : Type ℓ where
  call_assign : MtQueue A → Call A
  call_set_max_size : ℕ → Call A
  call_clear : Call A
  call_pop : Call A
  call_timed_pop : Call A
  call_try_pop : Call A
  call_timed_pop_range : ℕ → ℕ → Call A
  call_try_pop_range : ℕ → Call A
  call_push : A → Call A
  call_push_all : List A → Call A
  call_push_front : A → Call A
  call_push_front_all : List A → Call A

-- What a call that returns has taken out, the queue behind it and whether it notified.
pub record Effect {ℓ} (A : Type ℓ) : Type ℓ where
  pub taken : List A
  pub queue : MtQueue A
  pub notified : Bool

module _ {ℓ} {A : Type ℓ} where
  effect {κ} : {R : Type κ} → (R → List A) → Done R A → Effect A
  effect f d = record { taken = f d.value; queue = d.queue; notified = d.notified }

  -- A call that waits or fails has no effect yet.
  returned {κ} : {R : Type κ} → (R → List A) → Outcome (Done R A) → Option (Effect A)
  unfolding effect
  returned f waits = none
  returned f fails = none
  returned f (returns d) = some (effect f d)

  nothing : Unit {0} → List A
  nothing u = []

  optional : Option A → List A
  optional none = []
  optional (some x) = x ∷ []

  unfoldable pub run : Call A → MtQueue A → Option (Effect A)
  unfolding effect returned nothing optional
  run (call_assign from) q = some (effect nothing (assign q from))
  run (call_set_max_size m) q = returned nothing (set_max_size q m)
  run call_clear q = some (effect nothing (clear q))
  run call_pop q = returned (λ x. x ∷ []) (pop q)
  run call_timed_pop q = some (effect optional (timed_pop q))
  run call_try_pop q = some (effect optional (try_pop q))
  run (call_timed_pop_range mn mx) q = some (effect (λ xs. xs) (timed_pop_range q mn mx))
  run (call_try_pop_range n) q = elim (try_pop_range q n []) [
    | none ↦ none
    | some d ↦ some (effect (λ xs. xs) d)
  ]
  run (call_push x) q = returned nothing (push q x)
  run (call_push_all xs) q = returned nothing (push_all q xs)
  run (call_push_front x) q = returned nothing (push_front q x)
  run (call_push_front_all xs) q = returned nothing (push_front_all q xs)

  -- A sequence of calls that all return: what they take out, in their order, and the queue left.
  unfoldable pub run_all : List (Call A) → MtQueue A → Option (List A × MtQueue A)
  unfolding run
  run_all [] q = some ([], q)
  run_all (c ∷ cs) q = elim (run c q) [
    | none ↦ none
    | some e ↦ elim (run_all cs e.queue) [ none ↦ none | some r ↦ some (e.taken ++ r.0, r.1) ]
  ]

  -- What a call puts at the end of the queue.
  abbrev pub added : Call A → List A
  added (call_push x) = x ∷ []
  added (call_push_all xs) = xs
  added c = []

  abbrev pub added_all : List (Call A) → List A
  added_all [] = []
  added_all (c ∷ cs) = added c ++ added_all cs

  -- The calls that only add at the end and take from the front.
  abbrev pub IsFifo : Call A → Type 0
  IsFifo (call_assign from) = ⊥
  IsFifo call_clear = ⊥
  IsFifo (call_push_front x) = ⊥
  IsFifo (call_push_front_all xs) = ⊥
  IsFifo c = Unit {0}

  abbrev pub AreFifo : List (Call A) → Type 0
  AreFifo [] = Unit {0}
  AreFifo (c ∷ cs) = IsFifo c × AreFifo cs
