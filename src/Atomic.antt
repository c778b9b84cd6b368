-- ===== src/Atomic.antt =====
-- lunchbox/atomic.h: an integer that threads change at once, and the loops that change it.
-- The type is `ssize_t` in two's complement: a negative n is the number 2 ^ 64 + n. The functions by
-- one instruction are those for GCC, and the loops are those for xlC.
pub mod Loops
pub mod Values
mod Tests
use lunchbox.Prelude.{
  ℕ, ◌≡◌, Bool, true, false, List, [], ◌∷◌, Option, none, some, ◌==◌, not, if◌then◌else◌, get_elem?,
  set, bind, add_size, sub_size,
}

-- A call of one of the four functions that add or subtract, with its increment.
pub data Call : Type 0 where
  get_and_add : ℕ → Call
  get_and_sub : ℕ → Call
  add_and_get : ℕ → Call
  sub_and_get : ℕ → Call

-- `newv`, from `oldv`.
abbrev pub new_value : Call → ℕ → ℕ
new_value (get_and_add increment) old = add_size old increment
new_value (get_and_sub increment) old = sub_size old increment
new_value (add_and_get increment) old = add_size old increment
new_value (sub_and_get increment) old = sub_size old increment

-- What the call returns, from `oldv`.
abbrev pub returned : Call → ℕ → ℕ
returned (get_and_add increment) old = old
returned (get_and_sub increment) old = old
returned (add_and_get increment) old = add_size old increment
returned (sub_and_get increment) old = sub_size old increment

-- The call as one instruction: what it returns, and the value behind it.
unfoldable pub apply : Call → ℕ → ℕ × ℕ
apply call value = (returned call value, new_value call value)

abbrev pub inc_and_get : Call
inc_and_get = add_and_get 1

abbrev pub dec_and_get : Call
dec_and_get = sub_and_get 1

-- `compareAndSwap`: whether it has set the new value, and the value behind it.
abbrev pub compare_and_swap : ℕ → ℕ → ℕ → Bool × ℕ
compare_and_swap expected new value = if value == expected then (true, new) else (false, value)

-- The end of a round of the loop: `none` is `continue`.
unfoldable pub try_swap : Call → ℕ → ℕ → Option ℕ × ℕ
try_swap call old value =
    let (done, value') = compare_and_swap old (new_value call old) value in
    (if done then some (returned call old) else none, value')

-- The members: an atomic variable is its `_value`.
pub record Atomic : Type 0 where
  pub value : ℕ

unfoldable pub construct : ℕ → Atomic
construct v = record { value = v }

unfoldable pub copy : Atomic → Atomic
copy v = record { value = v.value }

unfoldable pub load : Atomic → ℕ
load a = a.value

unfoldable pub store : Atomic → ℕ → Atomic
store a v = record a { value = v }

unfoldable pub assign : Atomic → Atomic → Atomic
assign a v = record a { value = v.value }

abbrev pub on_value : Call → Atomic → ℕ × Atomic
on_value call a = let (result, value) = apply call a.value in (result, record a { value = value })

unfoldable pub add_assign : Atomic → ℕ → ℕ × Atomic
add_assign a v = on_value (add_and_get v) a

unfoldable pub sub_assign : Atomic → ℕ → ℕ × Atomic
sub_assign a v = on_value (sub_and_get v) a

unfoldable pub pre_increment : Atomic → ℕ × Atomic
pre_increment a = on_value inc_and_get a

unfoldable pub pre_decrement : Atomic → ℕ × Atomic
pre_decrement a = on_value dec_and_get a

unfoldable pub post_increment : Atomic → ℕ × Atomic
post_increment a = on_value (get_and_add 1) a

unfoldable pub post_decrement : Atomic → ℕ × Atomic
post_decrement a = on_value (get_and_sub 1) a

unfoldable pub is_equal : Atomic → Atomic → Bool
is_equal a rhs = a.value == rhs.value

unfoldable pub is_unequal : Atomic → Atomic → Bool
is_unequal a rhs = not (a.value == rhs.value)

unfoldable pub swap_value : Atomic → ℕ → ℕ → Bool × Atomic
swap_value a expected new =
    let (done, value) = compare_and_swap expected new a.value in (done, record a { value = value })

-- A thread in the loop of a call: in front of the load, behind it with `oldv`, or back from the call
-- with what it returned.
pub data Thread : Type 0 where
  calling : Call → Thread
  loaded : Call → ℕ → Thread
  back : Call → ℕ → Thread

-- The calls that have changed the value, in their order, are kept with what they returned.
pub record System : Type 0 where
  pub value : ℕ
  pub threads : List Thread
  pub made : List (Call × ℕ)

-- One access of thread i. A thread that is back starts another call.
pub data Event : Type 0 where
  starts : ℕ → Call → Event
  loads : ℕ → Event
  swaps : ℕ → Event

abbrev pub start_thread : ℕ → Call → System → Thread → Option System
start_thread i call s (back _ _) = some (record s { threads = set s.threads i (calling call) })
start_thread i call s _ = none

abbrev pub load_thread : ℕ → System → Thread → Option System
load_thread i s (calling call) = some (record s { threads = set s.threads i (loaded call s.value) })
load_thread i s _ = none

abbrev pub finish_round : ℕ → Call → System → Option ℕ × ℕ → System
finish_round i call s (some result, value) = record {
  value = value;
  threads = set s.threads i (back call result);
  made = (call, result) ∷ s.made;
}
finish_round i call s (none, value) = record s {
  value = value;
  threads = set s.threads i (calling call);
}

abbrev pub swap_thread : ℕ → System → Thread → Option System
swap_thread i s (loaded call old) = some (finish_round i call s (try_swap call old s.value))
swap_thread i s _ = none

-- `none`: the thread is not where the event needs it.
unfoldable pub step : Event → System → Option System
step (starts i call) s = bind (get_elem? s.threads i) (start_thread i call s)
step (loads i) s = bind (get_elem? s.threads i) (load_thread i s)
step (swaps i) s = bind (get_elem? s.threads i) (swap_thread i s)

unfoldable pub steps : List Event → System → Option System
steps [] s = some s
steps (e ∷ es) s = bind (step e s) (steps es)
