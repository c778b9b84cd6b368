-- ===== src/MtQueue.antt =====
-- lunchbox/mtQueue.h and mtQueue.ipp: a bounded queue between threads. Every operation holds the
-- queue's mutex from its wait on, so it is one step, taken when its condition holds.
pub mod Ranges
pub mod Room
pub mod Calls
pub mod Keeps
pub mod Adding
pub mod Traces
pub mod Barrier
mod Tests
use lunchbox.Prelude.{
  ℕ, zero, suc, Bool, true, false, List, [], ◌∷◌, ◌++◌, Option, none, some, ◌==◌, ltb, leb,
  if◌then◌else◌, sub_size, length, get_elem?, take, drop,
}

-- `_queue` and `_maxSize`.
pub record MtQueue {ℓ} (A : Type ℓ) : Type ℓ where
  pub items : List A
  pub max_size : ℕ

-- What a call does when its thread has the mutex: its condition does not hold and it waits, an
-- assertion fails, or it returns.
pub data Outcome {ℓ} (R : Type ℓ) : Type ℓ where
  waits : Outcome R
  fails : Outcome R
  returns : R → Outcome R

-- A call that returns: the value, the queue behind it, and whether it has called `notify_all`.
pub record Done {ℓ κ} (R : Type ℓ) (A : Type κ) : Type (ℓ ⊔ κ) where
  pub value : R
  pub queue : MtQueue A
  pub notified : Bool

-- `LB_MIN`
abbrev pub min_size : ℕ → ℕ → ℕ
min_size a b = if ltb a b then a else b

module _ {ℓ} {A : Type ℓ} where
  -- `MTQueue(maxSize)`
  unfoldable pub new_queue : ℕ → MtQueue A
  new_queue max = record { items = []; max_size = max }

  unfoldable pub is_empty : MtQueue A → Bool
  is_empty q = length q.items == 0

  unfoldable pub get_size : MtQueue A → ℕ
  get_size q = length q.items

  unfoldable pub get_max_size : MtQueue A → ℕ
  get_max_size q = q.max_size

  -- `operator=` from another queue.
  unfoldable pub assign : MtQueue A → MtQueue A → Done (Unit {0}) A
  assign q from = record {
    value = tt;
    queue = record { items = from.items; max_size = from.max_size };
    notified = true;
  }

  -- `operator[]`: `none` would be a read out of the queue.
  unfoldable pub get_at : MtQueue A → ℕ → Outcome (Option A)
  get_at q i = if ltb i (length q.items) then returns (get_elem? q.items i) else waits

  unfoldable pub set_max_size : MtQueue A → ℕ → Outcome (Done (Unit {0}) A)
  set_max_size q max =
      if leb (length q.items) max
      then returns (record { value = tt; queue = record q { max_size = max }; notified = true })
      else waits

  unfoldable pub wait_size : MtQueue A → ℕ → Outcome ℕ
  wait_size q min =
      if leb min q.max_size
      then (if leb min (length q.items) then returns (length q.items) else waits)
      else fails

  unfoldable pub clear : MtQueue A → Done (Unit {0}) A
  clear q = record { value = tt; queue = record q { items = [] }; notified = true }

  -- `front` and `pop_front` of a queue that is not empty.
  take_front : MtQueue A → Outcome (Done A A)
  take_front q = elim q.items [
    | [] ↦ waits
    | x ∷ xs ↦ returns (record { value = x; queue = record q { items = xs }; notified = true })
  ]

  unfoldable pub pop : MtQueue A → Outcome (Done A A)
  unfolding take_front
  pop q = take_front q

  -- Without waiting: false, and `element` is left alone, where the queue is empty.
  pop_or_not : List A → ℕ → Done (Option A) A
  pop_or_not [] max = record {
    value = none;
    queue = record { items = []; max_size = max };
    notified = false;
  }
  pop_or_not (x ∷ xs) max = record {
    value = some x;
    queue = record { items = xs; max_size = max };
    notified = true;
  }

  -- `timedPop` behind its wait, which ends when the queue has an element or the time is over.
  unfoldable pub timed_pop : MtQueue A → Done (Option A) A
  unfolding pop_or_not
  timed_pop q = pop_or_not q.items q.max_size

  -- `tryPop(result)`
  unfoldable pub try_pop : MtQueue A → Done (Option A) A
  unfolding pop_or_not
  try_pop q = pop_or_not q.items q.max_size

  -- `timedPopRange` behind its wait.
  unfoldable pub timed_pop_range : MtQueue A → ℕ → ℕ → Done (List A) A
  timed_pop_range q minimum maximum =
      if ltb (length q.items) minimum
      then record { value = []; queue = q; notified = false }
      else record {
        value = take (min_size maximum (length q.items)) q.items;
        queue = record q { items = drop (min_size maximum (length q.items)) q.items };
        notified = true;
      }

  -- The loop of `tryPop(num, result)`: `none` is the `front` of an empty queue.
  unfoldable pub pop_loop : ℕ → List A → List A → Option (List A × List A)
  pop_loop zero result items = some (result, items)
  pop_loop (suc n) result [] = none
  pop_loop (suc n) result (x ∷ items) = pop_loop n (result ++ x ∷ []) items

  -- `tryPop(num, result)`: the value is `result` behind the call.
  unfoldable pub try_pop_range : MtQueue A → ℕ → List A → Option (Done (List A) A)
  unfolding pop_loop
  try_pop_range q num result =
      if ltb 0 (min_size num (length q.items))
      then elim (pop_loop (min_size num (length q.items)) result q.items) [
        | none ↦ none
        | some r ↦ some (record { value = r.0; queue = record q { items = r.1 }; notified = true })
      ]
      else some (record { value = result; queue = q; notified = false })

  unfoldable pub get_front : MtQueue A → Option A
  get_front q = elim q.items [ [] ↦ none | x ∷ xs ↦ some x ]

  last_of : List A → Option A
  last_of [] = none
  last_of (x ∷ []) = some x
  last_of (x ∷ y ∷ xs) = last_of (y ∷ xs)

  unfoldable pub get_back : MtQueue A → Option A
  unfolding last_of
  get_back q = last_of q.items

  -- `push(element)`
  unfoldable pub push : MtQueue A → A → Outcome (Done (Unit {0}) A)
  push q x =
      if ltb (length q.items) q.max_size
      then returns
          (record { value = tt; queue = record q { items = q.items ++ x ∷ [] }; notified = true })
      else waits

  -- `push(elements)`
  unfoldable pub push_all : MtQueue A → List A → Outcome (Done (Unit {0}) A)
  push_all q xs =
      if leb (length xs) q.max_size
      then (if leb (length xs) (sub_size q.max_size (length q.items))
          then returns
              (record { value = tt; queue = record q { items = q.items ++ xs }; notified = true })
          else waits)
      else fails

  -- `pushFront(element)`
  unfoldable pub push_front : MtQueue A → A → Outcome (Done (Unit {0}) A)
  push_front q x =
      if ltb (length q.items) q.max_size
      then returns
          (record { value = tt; queue = record q { items = x ∷ q.items }; notified = true })
      else waits

  -- `pushFront(elements)`
  unfoldable pub push_front_all : MtQueue A → List A → Outcome (Done (Unit {0}) A)
  push_front_all q xs =
      if leb (length xs) q.max_size
      then (if leb (length xs) (sub_size q.max_size (length q.items))
          then returns
              (record { value = tt; queue = record q { items = xs ++ q.items }; notified = true })
          else waits)
      else fails
