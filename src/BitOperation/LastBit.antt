-- ===== src/BitOperation/LastBit.antt =====
-- `getIndexOfLastBit` is the exponent of the greatest power of two in the value.
use lunchbox.Prelude.{
  ℕ, zero, suc, ◌+◌, ◌*◌, ◌/◌, ◌^◌, ◌≤◌, ◌<◌, ◌≡◌, refl, ◌∙◌, ap, Option, none, some, ◌==◌, arith,
  Bool-cases, inl, inr, size_mod, le-cases, ◌⊎◌,
}
use native.Mathlib.Nat.{pow-suc, one-le-pow}
use lunchbox.BitOperation.{next_index, last_bit_loop, get_index_of_last_bit}

abbrev pub IsLastBit : ℕ → ℕ → Type 0
IsLastBit v k = (2 ^ k ≤ v) × (v < 2 ^ suc k)

-- The index that `k` more rounds reach.
abbrev later_index : Option ℕ → ℕ → ℕ
later_index none k = k
later_index (some n) k = n + 1 + k

later_index-next : (c : Option ℕ) (k : ℕ) → later_index (next_index c) k ≡ later_index c (suc k)
later_index-next none k = omega arith
later_index-next (some n) k = omega arith

pub pow_two-suc : (k : ℕ) → 2 ^ suc k ≡ 2 * 2 ^ k
pow_two-suc k = omega (arith, pow-suc 2 k)

pub IsLastBit-half : (v k : ℕ) → IsLastBit v (suc k) → IsLastBit (v / 2) k
IsLastBit-half v k h = omega (arith, h, pow_two-suc k, pow_two-suc (suc k))

last_bit_loop-zero : (f : ℕ) (c : Option ℕ) → last_bit_loop f 0 c ≡ c
unfolding last_bit_loop
last_bit_loop-zero zero c = refl
last_bit_loop-zero (suc f) c = refl

last_bit_loop_lem :
    (f v k : ℕ) (c : Option ℕ)
    → IsLastBit v k
    → k < f
    → last_bit_loop f v c ≡ some (later_index c k)
unfolding last_bit_loop
last_bit_loop_lem zero v k c h lt = absurd (omega arith)
last_bit_loop_lem (suc f) v zero c h lt =
    let one : v ≡ 1 = omega arith in rw one (last_bit_loop-zero f (next_index c) ∙ first_index c)
  where
    first_index : (c : Option ℕ) → next_index c ≡ some (later_index c 0)
    first_index none = refl
    first_index (some n) = ap some (omega arith)
last_bit_loop_lem (suc f) v (suc k) c h lt = elim (Bool-cases (v == 0)) [
  | inl nought ↦ absurd (ground (arith, one-le-pow (suc k) 2))
  | inr more ↦ rw more (
      last_bit_loop_lem f (v / 2) k (next_index c) (IsLastBit-half v k h) (omega arith)
      ∙ ap some (later_index-next c k))
]

-- The loop finds the greatest power of two in a value of 64 bits.
pub get_index_of_last_bit_lem :
    (v k : ℕ) → IsLastBit v k → k < 64 → get_index_of_last_bit v ≡ some k
unfolding get_index_of_last_bit
get_index_of_last_bit_lem v k h lt = last_bit_loop_lem 64 v k none h lt

get_index-zero : get_index_of_last_bit 0 ≡ none
unfolding get_index_of_last_bit
get_index-zero = last_bit_loop-zero 64 none

-- Every value but 0 has a last bit.
IsLastBit-below : (f v : ℕ) → 0 < v → v < 2 ^ f → (k : ℕ) × (k < f) × IsLastBit v k
IsLastBit-below zero v pos small = absurd (omega arith)
IsLastBit-below (suc f) v pos small = elim (le-cases v 1) [
  | inl le ↦ (0, omega arith, omega arith)
  | inr gt ↦
      let (k, lt, h) = IsLastBit-below f (v / 2) (omega arith) (omega (arith, pow_two-suc f)) in
      (suc k, omega arith, omega (arith, h, pow_two-suc k, pow_two-suc (suc k)))
]

pub last_bit : (v : ℕ) → 0 < v → v < size_mod → (k : ℕ) × (k < 64) × IsLastBit v k
last_bit v pos small = IsLastBit-below 64 v pos small

-- For every 64-bit value but 0 the function returns an index below 64, whose power of two is in the
-- value and whose next one is beyond it; for 0 it returns -1.
pub get_index_of_last_bit_bounds :
    (v : ℕ)
    → v < size_mod
    → ((v ≡ 0) × (get_index_of_last_bit v ≡ none))
      ⊎ ((k : ℕ) × (get_index_of_last_bit v ≡ some k) × (k < 64) × IsLastBit v k)
get_index_of_last_bit_bounds v small = elim (le-cases v 0) [
  | inl le ↦ let nought : v ≡ 0 = omega arith in inl (nought, rw nought (get_index-zero))
  | inr gt ↦
      let (k, lt, h) = last_bit v gt small in inr (k, get_index_of_last_bit_lem v k h lt, lt, h)
]
