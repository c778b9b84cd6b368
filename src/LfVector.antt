-- ===== src/LfVector.antt =====
-- lunchbox/lfVector.h and lfVector.ipp: a vector of `nSlots` arrays of 1, 2, 4, … elements.
-- Slot `s` holds the elements from index 2 ^ s - 1 on. Every operation that changes the size holds
-- the vector's lock, so an operation is one step here.
pub mod Slots
pub mod Writes
pub mod Growth
pub mod Removal
pub mod Erase
pub mod Bulk
pub mod Copies
pub mod Iterator
mod Tests
use Prim.Native.Nat.{bit_xor}
use lunchbox.Prelude.{
  ℕ, zero, suc, ◌+◌, ◌-◌, ◌^◌, Bool, true, false, not, List, [], ◌∷◌, Option, none, some, ltb, leb,
  ◌==◌, if◌then◌else◌, add_size, length, get_elem?, set, replicate,
}
use lunchbox.BitOperation.{get_index_of_last_bit}

-- `slots_`, with `none` for a null pointer, and `size_`. An index from `nSlots` on names no slot.
pub record LfVector {ℓ} (A : Type ℓ) : Type ℓ where
  pub slots : ℕ → Option (List A)
  pub size : ℕ

infixl 5 ◌>>=◌
abbrev pub ◌>>=◌ {ℓ κ} : {A : Type ℓ} {B : Type κ} → Option A → (A → Option B) → Option B
none >>= f = none
some a >>= f = f a

abbrev pub update {ℓ} : {A : Type ℓ} → (ℕ → A) → ℕ → A → ℕ → A
update f i a j = if i == j then a else f j

-- The slot of an element and its index there.
pub record Place : Type 0 where
  pub slot : ℕ
  pub index : ℕ

unfoldable pub locate : ℕ → Option Place
unfolding get_index_of_last_bit
locate i = do
  slot ← get_index_of_last_bit (add_size i 1)
  some (record { slot = slot; index = bit_xor (add_size i 1) (2 ^ slot) })

module _ {ℓ} {A : Type ℓ} where
  -- `operator[]`, to read: `none` is a null slot or an index out of the slot's array.
  unfoldable pub get : LfVector A → ℕ → Option A
  unfolding locate
  get v i = do p ← locate i; array ← v.slots p.slot; get_elem? array p.index

  store : LfVector A → Place → A → List A → Option (LfVector A)
  store v p x array =
      if ltb p.index (length array)
      then some (record v { slots = update v.slots p.slot (some (set array p.index x)) })
      else none

  -- `operator[]`, to write.
  unfoldable pub put : LfVector A → ℕ → A → Option (LfVector A)
  unfolding locate store
  put v i x = do p ← locate i; array ← v.slots p.slot; store v p x array

  unfoldable pub is_empty : LfVector A → Bool
  is_empty v = v.size == 0

  -- `front` reads `slots_[0][0]`.
  unfoldable pub front : LfVector A → Option A
  front v = do array ← v.slots 0; get_elem? array 0

  unfoldable pub back : LfVector A → Option A
  unfolding get
  back v = get v (v.size - 1)

  -- `trim_`: the slot behind the one of the next element is freed.
  free_slot : ℕ → LfVector A → ℕ → LfVector A
  free_slot n_slots v next =
      if ltb next n_slots then record v { slots = update v.slots next none } else v

  unfoldable pub trim : ℕ → LfVector A → LfVector A
  unfolding free_slot
  trim n_slots v = elim (get_index_of_last_bit (add_size v.size 1)) [
    | none ↦ free_slot n_slots v 0
    | some slot ↦ free_slot n_slots v (slot + 1)
  ]

  -- The array of a slot, allocated where it is null: `raw` is what `new T[n]` leaves in an element.
  slot_array : A → LfVector A → ℕ → List A
  slot_array raw v slot = elim (v.slots slot) [
    | none ↦ replicate (2 ^ slot) raw
    | some array ↦ array
  ]

  -- The default constructor.
  unfoldable pub new_vector : LfVector A
  new_vector = record { slots = λ s. none; size = 0 }

  -- `clear`
  unfoldable pub clear : LfVector A → LfVector A
  clear v = record { slots = λ s. none; size = 0 }

-- `raw` is what `new T[n]` leaves in an element, and `init` is `T()`.
module _ {ℓ} {A : Type ℓ} (n_slots : ℕ) (raw init : A) where
  -- `push_back_unlocked_`: `none` is the exception "LFVector full".
  unfoldable pub push_back : LfVector A → A → Option (LfVector A)
  unfolding slot_array
  push_back v x = do
    slot ← get_index_of_last_bit (add_size v.size 1)
    if leb n_slots slot
        then none
        else some (record {
          slots =
              update v.slots slot
                (some (set (slot_array raw v slot) (bit_xor (add_size v.size 1) (2 ^ slot)) x));
          size = v.size + 1;
        })

  -- `pop_back()`
  unfoldable pub pop_back : LfVector A → Option (LfVector A)
  unfolding put trim
  pop_back v =
      if v.size == 0
      then some v
      else do w ← put (record v { size = v.size - 1 }) (v.size - 1) init; some (trim n_slots w)

  -- `pop_back(T& element)`: the element if there is one, and the vector behind it.
  unfoldable pub pop_back_into : LfVector A → Option (Option A × LfVector A)
  unfolding pop_back back
  pop_back_into v = if v.size == 0 then some (none, v) else do
    element ← back v
    w ← put (record v { size = v.size - 1 }) (v.size - 1) init
    some (some element, trim n_slots w)

  -- `std::copy(pos + 1, pos + 1 + n, pos)`
  unfoldable pub shift_down : ℕ → ℕ → LfVector A → Option (LfVector A)
  unfolding get put
  shift_down zero pos v = some v
  shift_down (suc n) pos v = do x ← get v (pos + 1); w ← put v pos x; shift_down n (pos + 1) w

  -- The shared end of both `erase` functions.
  unfoldable pub remove_at : LfVector A → ℕ → Option (LfVector A)
  unfolding shift_down put trim
  remove_at v pos = do
    w ← shift_down (v.size - 1 - pos) pos (record v { size = v.size - 1 })
    u ← put w (v.size - 1) init
    some (trim n_slots u)

  -- `erase(iterator)` of an iterator of this vector: the position of the result, and the vector.
  unfoldable pub erase : LfVector A → ℕ → Option (ℕ × LfVector A)
  unfolding remove_at
  erase v pos = if leb v.size pos then some (v.size, v) else do w ← remove_at v pos; some (pos, w)
