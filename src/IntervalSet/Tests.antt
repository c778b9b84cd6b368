-- ===== src/IntervalSet/Tests.antt =====
-- Runs of the interval set on small sets, and its theorems at them.
use lunchbox.Prelude.{
  ℕ, ◌<◌, some, ◌%◌, ◌≡◌, ◌≢◌, refl, true, false, not, ◌&&◌, ◌||◌, List, [], ◌∷◌, size_mod, arith,
}
use lunchbox.EdgeSet.{Edge}
use lunchbox.IntervalSet.{IntervalSet, insert, erase, clear, exists, size, swap, empty_set}
use lunchbox.IntervalSet.Insert.{IsValid, contains, within}
use lunchbox.IntervalSet.Place.{contains-insert}
use lunchbox.IntervalSet.Erase.{contains-erase}
use lunchbox.IntervalSet.Find.{exists-contains}
use lunchbox.IntervalSet.Size.{count_range, span-count}
use lunchbox.IntervalSet.Calls.{Call, calls, is_element, size-calls}
use lunchbox.IntervalSet.Canonical.{insert_comm}
use lunchbox.IntervalSet.Iterator.{begin, end, list_from, equal, at_edge}
use lunchbox.IntervalSet.Iterator.Lists.{listed, begin-lists}
use lunchbox.IntervalSet.Whole.{swap-IsValid}

abbrev opens : ℕ → Edge
opens v = record { first = v; second = true }

abbrev ends : ℕ → Edge
ends v = record { first = v; second = false }

-- 2, 3, 4 and 7, 8, 9.
abbrev two_intervals : IntervalSet
two_intervals = record { intervals = opens 2 ∷ ends 4 ∷ opens 7 ∷ ends 9 ∷ []; count = 6 }

abbrev one_interval : IntervalSet
one_interval = record { intervals = opens 12 ∷ ends 12 ∷ []; count = 1 }

two_intervals-IsValid : IsValid two_intervals
two_intervals-IsValid = ground arith

one_interval-IsValid : IsValid one_interval
one_interval-IsValid = ground arith

-- The calls of tests/intervalSet.cpp.
insert_runs :
    insert 1 5 (insert 2 2 empty_set) ≡ record { intervals = opens 1 ∷ ends 5 ∷ []; count = 5 }
unfolding insert empty_set
insert_runs = refl

erase_runs :
    erase 3 4 (record { intervals = opens 1 ∷ ends 5 ∷ []; count = 5 })
    ≡ record { intervals = opens 1 ∷ ends 2 ∷ opens 5 ∷ ends 5 ∷ []; count = 3 }
unfolding erase
erase_runs = refl

insert_joins : insert 5 6 two_intervals ≡ record { intervals = opens 2 ∷ ends 9 ∷ []; count = 8 }
unfolding insert
insert_joins = refl

contains-insert_example :
    IsValid (insert 3 7 two_intervals)
    × ((x : ℕ) → contains (insert 3 7 two_intervals) x ≡ (within 3 7 x || contains two_intervals x))
contains-insert_example =
    contains-insert 3 7 two_intervals (omega arith) (omega arith) two_intervals-IsValid

contains-erase_example :
    IsValid (erase 3 7 two_intervals)
    × ((x : ℕ)
        → contains (erase 3 7 two_intervals) x ≡ (not (within 3 7 x) && contains two_intervals x))
contains-erase_example =
    contains-erase 3 7 two_intervals (omega arith) (omega arith) two_intervals-IsValid

exists-contains_example : exists 8 two_intervals ≡ contains two_intervals 8
exists-contains_example = exists-contains 8 two_intervals two_intervals-IsValid

-- The last call first: the 3 goes and the 5 comes back.
abbrev some_calls : List Call
some_calls =
    Call.inserts 5 5 ∷ Call.erases 3 7 ∷ Call.inserts 2 9 ∷ Call.clears ∷ Call.inserts 0 1 ∷ []

calls_run :
    calls some_calls empty_set
    ≡ record { intervals = opens 2 ∷ ends 2 ∷ opens 5 ∷ ends 5 ∷ opens 8 ∷ ends 9 ∷ []; count = 4 }
unfolding insert erase clear empty_set
calls_run = refl

size-calls_example :
    ((x : ℕ) → contains (calls some_calls empty_set) x ≡ is_element some_calls x)
    × (size (calls some_calls empty_set)
        ≡ count_range (is_element some_calls) 0 size_mod % size_mod)
size-calls_example = size-calls some_calls (
  omega arith,
  omega arith,
  (omega arith, omega arith, (omega arith, omega arith, (omega arith, omega arith, tt))),
)

sizes_differ : size two_intervals ≢ size one_interval
unfolding size
sizes_differ = omega arith

swap-IsValid_example :
    ((x : ℕ) → contains (swap two_intervals one_interval).0 x ≡ contains one_interval x)
    × ((x : ℕ) → contains (swap two_intervals one_interval).1 x ≡ contains two_intervals x)
    × (¬ IsValid (swap two_intervals one_interval).0)
    × (¬ IsValid (swap two_intervals one_interval).1)
swap-IsValid_example =
    swap-IsValid two_intervals one_interval two_intervals-IsValid one_interval-IsValid sizes_differ

begin_runs :
    list_from 9 (begin two_intervals).value (begin two_intervals).edges
    ≡ some (2 ∷ 3 ∷ 4 ∷ 7 ∷ 8 ∷ 9 ∷ [])
unfolding list_from begin
begin_runs = refl

ends_equal : equal (end two_intervals) (at_edge []) ≡ true
unfolding equal end
ends_equal = refl

two_intervals_few : count_range (contains two_intervals) 0 size_mod < 9
two_intervals_few = omega (
  arith,
  span-count false 0 two_intervals.intervals 0 size_mod two_intervals-IsValid.edges (omega arith)
      refl,
)

begin-lists_example :
    list_from 9 (begin two_intervals).value (begin two_intervals).edges
    ≡ some (listed (contains two_intervals) 0 size_mod)
begin-lists_example = begin-lists two_intervals 9 two_intervals-IsValid two_intervals_few

insert_comm_example :
    insert 3 7 (insert 5 12 two_intervals) ≡ insert 5 12 (insert 3 7 two_intervals)
insert_comm_example =
    insert_comm 3 7 5 12 two_intervals (omega arith) (omega arith) (omega arith) (omega arith)
      two_intervals-IsValid
