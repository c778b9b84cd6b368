-- ===== src/LfVector/Copies.antt =====
-- The constructors of lunchbox/lfVector.ipp from a size and from another vector, and its `operator=`.
pub mod Assign
use lunchbox.Prelude.{
  ℕ, zero, suc, ◌+◌, ◌-◌, ◌^◌, Bool, true, false, ◌||◌, List, [], ◌∷◌, Option, none, some, ltb, leb,
  ◌==◌, bind, if◌then◌else◌, length, get_elem?, set, replicate,
}
use lunchbox.BitOperation.{get_index_of_last_bit}
use lunchbox.LfVector.{LfVector, update}

-- `raw` is what `new T[n]` leaves in an element.
module _ {ℓ} {A : Type ℓ} where
  -- The inner loop of a copy, with the rounds that are left, `j`, `size_` and the array that it fills:
  -- `none` is an access out of an array.
  unfoldable pub copy_slot : ℕ → ℕ → ℕ → ℕ → List A → List A → Option (List A × ℕ)
  copy_slot zero j size from_size src dst = some (dst, size)
  copy_slot (suc r) j size from_size src dst =
      if ltb size from_size
      then bind (get_elem? src j) (λ x.
        if ltb j (length dst)
        then copy_slot r (j + 1) (size + 1) from_size src (set dst j x)
        else none)
      else some (dst, size)

module _ {ℓ} {A : Type ℓ} (raw : A) where
  -- `if( !slots_[i] ) slots_[i] = new T[sz]`
  abbrev pub array_or_new : ℕ → Option (List A) → List A
  array_or_new s none = replicate (2 ^ s) raw
  array_or_new s (some a) = a

  -- The loop of `operator=` over the slots, from slot `i` on.
  unfoldable pub assign_slots : ℕ → ℕ → ℕ → (ℕ → Option (List A)) → LfVector A → Option (LfVector A)
  unfolding copy_slot
  assign_slots zero i size slots from = some (record { slots = slots; size = size })
  assign_slots (suc r) i size slots from = elim (from.slots i) [
    | none ↦ assign_slots r (i + 1) size (update slots i none) from
    | some src ↦
        bind (copy_slot (2 ^ i) 0 size from.size src (array_or_new i (slots i)))
          (λ c. assign_slots r (i + 1) c.1 (update slots i (some c.0)) from)
  ]

  abbrev pub sized : ℕ → LfVector A → Option (LfVector A)
  sized n w = if w.size == n then some w else none

  -- `operator=` of another vector, with its assertion.
  unfoldable pub assign : ℕ → LfVector A → LfVector A → Option (LfVector A)
  unfolding assign_slots
  assign n_slots v from = bind (assign_slots n_slots 0 0 v.slots from) (sized from.size)

  -- `assign_`, into a new vector, from one of `from_slots` slots.
  unfoldable pub copy_slots :
      ℕ → ℕ → ℕ → ℕ → (ℕ → Option (List A)) → LfVector A → Option (LfVector A)
  unfolding copy_slot
  copy_slots zero i from_slots size slots from = some (record { slots = slots; size = size })
  copy_slots (suc r) i from_slots size slots from =
      elim (if leb from_slots i then none else from.slots i) [
        | none ↦ sized from.size (record { slots = slots; size = size })
        | some src ↦
            bind (copy_slot (2 ^ i) 0 size from.size src (replicate (2 ^ i) raw))
              (λ c. copy_slots r (i + 1) from_slots c.1 (update slots i (some c.0)) from)
      ]

  unfoldable pub copy_vector : ℕ → ℕ → LfVector A → Option (LfVector A)
  unfolding copy_slots
  copy_vector n_slots from_slots from = copy_slots n_slots 0 from_slots 0 (λ s. none) from

  -- The loop of `LFVector( n )`: new arrays for the slots up to `s`; `none` is a slot out of `slots_`.
  unfoldable pub alloc_slots : ℕ → ℕ → ℕ → (ℕ → Option (List A)) → Option (ℕ → Option (List A))
  alloc_slots n_slots zero i slots = some slots
  alloc_slots n_slots (suc r) i slots =
      let rest = alloc_slots n_slots r (i + 1) (update slots i (some (replicate (2 ^ i) raw))) in
      if ltb i n_slots then rest else none

  unfoldable pub sized_vector : ℕ → ℕ → Option (LfVector A)
  unfolding alloc_slots
  sized_vector n_slots n = bind (get_index_of_last_bit n) (λ s.
      bind (alloc_slots n_slots (s + 1) 0 (λ s. none))
        (λ slots. some (record { slots = slots; size = n })))

  -- The loops of `LFVector( n, t )`: `none` is a slot out of `slots_`.
  unfoldable pub fill_slot : ℕ → ℕ → ℕ → ℕ → A → List A → List A × ℕ
  fill_slot zero j size n t dst = (dst, size)
  fill_slot (suc r) j size n t dst =
      let rest = fill_slot r (j + 1) (size + 1) n t (set dst j t) in
      if ltb size n then rest else (dst, size)

  unfoldable pub fill_slots : ℕ → ℕ → ℕ → ℕ → ℕ → A → (ℕ → Option (List A)) → Option (LfVector A)
  unfolding fill_slot
  fill_slots n_slots zero i size n t slots = some (record { slots = slots; size = size })
  fill_slots n_slots (suc r) i size n t slots =
      let c = fill_slot (2 ^ i) 0 size n t (replicate (2 ^ i) raw) in
      let rest = fill_slots n_slots r (i + 1) c.1 n t (update slots i (some c.0)) in
      if ltb i n_slots then rest else none

  unfoldable pub filled_vector : ℕ → ℕ → A → Option (LfVector A)
  unfolding fill_slots
  filled_vector n_slots n t =
      bind (get_index_of_last_bit n)
        (λ s. bind (fill_slots n_slots (s + 1) 0 0 n t (λ s. none)) (sized n))
