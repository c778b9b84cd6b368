-- ===== src/LfVector/Tests.antt =====
-- Runs of the vector, and its theorems at a vector of three elements in two slots.
use lunchbox.Prelude.{
  bind, get_elem?, ap, sym, some-eq, zero, suc, length, ◌^◌, ◌<◌, none, ℕ, zero, suc, ◌+◌, ◌^◌, ◌≤◌,
  ◌<◌, ◌≡◌, refl, List, [], ◌∷◌, Option, none, some, length, get_elem?, arith, ◌⊎◌,
}
use native.Mathlib.Nat.{one-le-pow}
use lunchbox.BitOperation.LastBit.{pow_two-suc}
use lunchbox.BitOperation.{get_index_of_last_bit}
use lunchbox.LfVector.{LfVector, get, push_back, erase, locate}
use lunchbox.LfVector.Copies.{assign, copy_vector, sized_vector, filled_vector}
use lunchbox.LfVector.Copies.Assign.{assign-Holds}
use lunchbox.LfVector.Slots.{Holds}
use lunchbox.LfVector.Growth.{push_back-Holds}
use lunchbox.LfVector.Erase.{erase-Holds}
use lunchbox.LfVector.Bulk.{expand}
use lunchbox.LfVector.Bulk.Expand.{expand-Holds}

abbrev three_slots : ℕ → Option (List ℕ)
three_slots zero = some (5 ∷ [])
three_slots (suc zero) = some (6 ∷ 7 ∷ [])
three_slots (suc (suc s)) = none

abbrev three : LfVector ℕ
three = record { slots = three_slots; size = 3 }

three_array : (s : ℕ) (a : List ℕ) → three_slots s ≡ some a → length a ≡ 2 ^ s
three_array zero a e = ground arith
three_array (suc zero) a e = ground arith
three_array (suc (suc s)) a e = cc

three_allocated : (s : ℕ) → 2 ^ s ≤ 3 → (a : List ℕ) × (three_slots s ≡ some a)
three_allocated zero h = (_, refl)
three_allocated (suc zero) h = (_, refl)
three_allocated (suc (suc s)) h =
    absurd (omega (arith, pow_two-suc s, pow_two-suc (suc s), one-le-pow s 2 (omega arith)))

three_item : (i : ℕ) → i < 3 → get three i ≡ get_elem? (5 ∷ 6 ∷ 7 ∷ []) i
unfolding get
three_item zero h = refl
three_item (suc zero) h = refl
three_item (suc (suc zero)) h = refl
three_item (suc (suc (suc i))) h = absurd (omega arith)

three-Holds : Holds 4 three (5 ∷ 6 ∷ 7 ∷ [])
three-Holds = record {
  valid = record {
    few = omega arith;
    fits = omega arith;
    backed = record { arrays = three_array; allocated = three_allocated };
  };
  sized = refl;
  items = three_item;
}

locate_runs : locate 10 ≡ some (record { slot = 3; index = 3 })
unfolding locate
locate_runs = refl

push_back-Holds_example :
    ((3 + 1 < 2 ^ 4)
      × (w : LfVector ℕ) × (push_back 4 0 0 three 9 ≡ some w)
      × Holds 4 w (5 ∷ 6 ∷ 7 ∷ 9 ∷ []))
    ⊎ ((3 + 1 ≡ 2 ^ 4) × (push_back 4 0 0 three 9 ≡ none))
push_back-Holds_example = push_back-Holds 4 0 0 three (5 ∷ 6 ∷ 7 ∷ []) 9 three-Holds (omega arith)

erase-Holds_example :
    ((1 < 3) × (w : LfVector ℕ) × (erase 4 0 0 three 1 ≡ some (1, w)) × Holds 4 w (5 ∷ 7 ∷ []))
    ⊎ ((3 ≤ 1) × (erase 4 0 0 three 1 ≡ some (3, three)))
erase-Holds_example = erase-Holds 4 0 0 three (5 ∷ 6 ∷ 7 ∷ []) 1 three-Holds

expand-Holds_example :
    (w : LfVector ℕ) × (expand 4 0 0 6 9 three ≡ some w) × Holds 4 w (5 ∷ 6 ∷ 7 ∷ 9 ∷ 9 ∷ 9 ∷ [])
expand-Holds_example = expand-Holds 4 0 0 6 9 three (5 ∷ 6 ∷ 7 ∷ []) three-Holds (omega arith)

-- A vector that held an element is assigned the one of three.
abbrev one_slot : ℕ → Option (List ℕ)
one_slot zero = some (1 ∷ [])
one_slot (suc s) = none

abbrev one : LfVector ℕ
one = record { slots = one_slot; size = 1 }

one_array : (s : ℕ) (a : List ℕ) → one.slots s ≡ some a → length a ≡ 2 ^ s
one_array zero a e = ap length (some-eq a (1 ∷ []) (sym e))
one_array (suc s) a e = cc

assign_reads : bind (assign 0 4 one three) (λ w. get w 2) ≡ some 7
unfolding assign get
assign_reads = refl

assign-Holds_example :
    (w : LfVector ℕ) × (assign 0 4 one three ≡ some w)
    × (w.size ≡ three.size)
    × ((i : ℕ) → i < three.size → get w i ≡ get_elem? (5 ∷ 6 ∷ 7 ∷ []) i)
assign-Holds_example = assign-Holds 0 4 one three (5 ∷ 6 ∷ 7 ∷ []) three-Holds one_array

-- A copy of the three elements into a vector of one slot is cut off without an assertion.
copy_cuts : bind (copy_vector 0 1 4 three) (λ w. some w.size) ≡ some 1
unfolding copy_vector
copy_cuts = refl

sized_reads : bind {B = ℕ} (sized_vector 0 4 3) (λ w. get w 2) ≡ some 0
unfolding sized_vector get
sized_reads = refl

filled_reads : bind {B = ℕ} (filled_vector 0 4 5 7) (λ w. get w 4) ≡ some 7
unfolding filled_vector get
filled_reads = refl

-- More elements than the slots hold would write behind `slots_`.
filled_beyond : filled_vector {A = ℕ} 0 2 5 7 ≡ none
unfolding filled_vector get_index_of_last_bit
filled_beyond = refl
