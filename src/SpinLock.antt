-- ===== src/SpinLock.antt =====
-- lunchbox/spinLock.cpp: a lock for one writer or many readers, in one atomic number.
-- The number is an `int32_t`: fewer than 2 ^ 31 threads read at a time.
pub mod Swaps
pub mod Excludes
mod Tests
use lunchbox.Prelude.{
  ℕ, zero, suc, ◌+◌, ◌-◌, ◌≡◌, Bool, true, false, List, [], ◌∷◌, Option, none, some, ◌==◌,
  if◌then◌else◌, get_elem?, set, replicate,
}

-- `_state`: `pos n` is the number n, and `negsuc n` is - n - 1.
pub data ℤ : Type 0 where
  pos : ℕ → ℤ
  negsuc : ℕ → ℤ

abbrev pub is_same : ℤ → ℤ → Bool
is_same (pos m) (pos n) = m == n
is_same (pos m) (negsuc n) = false
is_same (negsuc m) (pos n) = false
is_same (negsuc m) (negsuc n) = m == n

abbrev pub add_one : ℤ → ℤ
add_one (pos n) = pos (n + 1)
add_one (negsuc zero) = pos 0
add_one (negsuc (suc n)) = negsuc n

abbrev pub sub_one : ℤ → ℤ
sub_one (pos zero) = negsuc 0
sub_one (pos (suc n)) = pos n
sub_one (negsuc n) = negsuc (n + 1)

abbrev pub writelocked : ℤ
writelocked = negsuc 0

abbrev pub unlocked : ℤ
unlocked = pos 0

-- `compareAndSwap`: the result, and the number behind it.
abbrev pub compare_and_swap : ℤ → ℤ → ℤ → Bool × ℤ
compare_and_swap expected new state = if is_same state expected then (true, new) else (false, state)

-- `trySet`
unfoldable pub try_set : ℤ → Bool × ℤ
try_set state = compare_and_swap unlocked writelocked state

-- `unset`: `none` is the failure of its assertion.
unfoldable pub unset : ℤ → Option ℤ
unset state = if is_same state writelocked then some unlocked else none

-- `trySetRead`: what it expects, from the number that it has read, and its `compareAndSwap`.
unfoldable pub expected_read : ℤ → ℤ
expected_read state = if is_same state writelocked then pos 0 else state

unfoldable pub swap_read : ℤ → ℤ → Bool × ℤ
swap_read expected state = compare_and_swap expected (add_one expected) state

-- The `compareAndSwap` of a round of `unsetRead`.
unfoldable pub swap_unread : ℤ → ℤ → Bool × ℤ
swap_unread expected state = compare_and_swap expected (sub_one expected) state

abbrev pub is_above_zero : ℤ → Bool
is_above_zero (pos zero) = false
is_above_zero (pos (suc n)) = true
is_above_zero (negsuc n) = false

unfoldable pub is_set : ℤ → Bool
is_set state = if is_same state unlocked then false else true

unfoldable pub is_set_write : ℤ → Bool
is_set_write state = is_same state writelocked

unfoldable pub is_set_read : ℤ → Bool
is_set_read state = is_above_zero state

-- Where a thread is: without the lock, in `setRead` with what it expects, with the lock to write or
-- to read, or in `unsetRead` with what it expects.
pub data Thread : Type 0 where
  outside : Thread
  entering_read : ℤ → Thread
  writing : Thread
  reading : Thread
  leaving_read : ℤ → Thread

pub record System : Type 0 where
  pub state : ℤ
  pub threads : List Thread

-- One atomic access of one thread. A round that fails starts the next one: `set` tries again, and
-- so do `setRead` and `unsetRead`.
pub data Step : System → System → Type 0 where
  sets :
      (s : System) (i : ℕ) (n : ℤ)
      → get_elem? s.threads i ≡ some outside
      → try_set s.state ≡ (true, n)
      → Step s (record { state = n; threads = set s.threads i writing })
  set_fails :
      (s : System) (i : ℕ) (n : ℤ)
      → get_elem? s.threads i ≡ some outside
      → try_set s.state ≡ (false, n)
      → Step s (record s { state = n })
  unsets :
      (s : System) (i : ℕ) (n : ℤ)
      → get_elem? s.threads i ≡ some writing
      → unset s.state ≡ some n
      → Step s (record { state = n; threads = set s.threads i outside })
  loads_read :
      (s : System) (i : ℕ)
      → get_elem? s.threads i ≡ some outside
      → Step s (record s { threads = set s.threads i (entering_read (expected_read s.state)) })
  swaps_read :
      (s : System) (i : ℕ) (e n : ℤ)
      → get_elem? s.threads i ≡ some (entering_read e)
      → swap_read e s.state ≡ (true, n)
      → Step s (record { state = n; threads = set s.threads i reading })
  read_fails :
      (s : System) (i : ℕ) (e n : ℤ)
      → get_elem? s.threads i ≡ some (entering_read e)
      → swap_read e s.state ≡ (false, n)
      → Step s (record { state = n; threads = set s.threads i outside })
  loads_unread :
      (s : System) (i : ℕ)
      → get_elem? s.threads i ≡ some reading
      → Step s (record s { threads = set s.threads i (leaving_read s.state) })
  swaps_unread :
      (s : System) (i : ℕ) (e n : ℤ)
      → get_elem? s.threads i ≡ some (leaving_read e)
      → swap_unread e s.state ≡ (true, n)
      → Step s (record { state = n; threads = set s.threads i outside })
  unread_fails :
      (s : System) (i : ℕ) (e n : ℤ)
      → get_elem? s.threads i ≡ some (leaving_read e)
      → swap_unread e s.state ≡ (false, n)
      → Step s (record { state = n; threads = set s.threads i reading })

-- The states of a new lock and `n` threads without it.
pub data Reached (n : ℕ) : System → Type 0 where
  starts : Reached n (record { state = unlocked; threads = replicate n outside })
  steps : (s t : System) → Reached n s → Step s t → Reached n t
