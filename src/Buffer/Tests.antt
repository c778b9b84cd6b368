-- ===== src/Buffer/Tests.antt =====
-- Runs of the buffer, and its theorems at one of two elements.
use lunchbox.Prelude.{ℕ, zero, suc, ◌<◌, ◌≡◌, refl, [], ◌∷◌, some, get_elem?, arith}
use lunchbox.Buffer.{Buffer, append}
use lunchbox.Buffer.Contents.{Holds, append-Holds}

abbrev two : Buffer ℕ
two = record { cells = 4 ∷ 5 ∷ 9 ∷ []; size = 2; max_size = 3 }

two_item : (i : ℕ) → i < 2 → get_elem? two.cells i ≡ get_elem? (4 ∷ 5 ∷ []) i
two_item zero h = refl
two_item (suc zero) h = refl
two_item (suc (suc i)) h = absurd (omega arith)

two-Holds : Holds two (4 ∷ 5 ∷ [])
two-Holds = record { sized = refl; fits = omega arith; memory = refl; items = two_item }

append_runs :
    append 0 (6 ∷ 7 ∷ []) two ≡ some (record { cells = 4 ∷ 5 ∷ 6 ∷ 7 ∷ []; size = 4; max_size = 4 })
unfolding append
append_runs = refl

append-Holds_example :
    (c : Buffer ℕ) × (append 0 (6 ∷ 7 ∷ []) two ≡ some c) × Holds c (4 ∷ 5 ∷ 6 ∷ 7 ∷ [])
append-Holds_example =
    append-Holds 0 (6 ∷ 7 ∷ []) two (4 ∷ 5 ∷ []) two-Holds (omega arith) (omega arith)

-- The elements have four bytes, and clearing at least one of them clears the value.
abbrev clear_value : ℕ → ℕ → ℕ
clear_value zero x = x
clear_value (suc n) x = 0
