-- ===== src/LfVector/Bulk.antt =====
-- The operations of lunchbox/lfVector.ipp on many elements: `expand`, `resize`, `erase` of a value and
-- the comparison of two vectors.
pub mod Expand
use lunchbox.Prelude.{
  ℕ, zero, suc, ◌+◌, ◌-◌, Bool, true, false, Option, none, some, ltb, ◌==◌, if◌then◌else◌,
}
use lunchbox.LfVector.{LfVector, ◌>>=◌, get, put, push_back, trim, remove_at}

-- The loops have fuel for a round per element: `raw` is what `new T[n]` leaves, and `init` is `T()`.
module _ {ℓ} {A : Type ℓ} (n_slots : ℕ) (raw init : A) where
  -- `while (newSize > size()) push_back_unlocked_(item);`
  unfoldable pub push_until : ℕ → ℕ → A → LfVector A → Option (LfVector A)
  unfolding push_back
  push_until zero new_size x v = some v
  push_until (suc f) new_size x v =
      if ltb v.size new_size
      then (do w ← push_back n_slots raw init v x; push_until f new_size x w)
      else some v

  unfoldable pub expand : ℕ → A → LfVector A → Option (LfVector A)
  unfolding push_until
  expand new_size x v = push_until new_size new_size x v

  -- The first loop of `resize`.
  unfoldable pub drop_until : ℕ → ℕ → LfVector A → Option (LfVector A)
  unfolding put
  drop_until zero new_size v = some v
  drop_until (suc f) new_size v =
      if ltb new_size v.size
      then (do w ← put (record v { size = v.size - 1 }) (v.size - 1) init; drop_until f new_size w)
      else some v

  unfoldable pub resize : ℕ → A → LfVector A → Option (LfVector A)
  unfolding drop_until push_until trim
  resize new_size x v = do
    w ← drop_until v.size new_size v
    push_until new_size new_size x (trim n_slots w)

  -- `erase(element)`: from the end, the position of the first element that is equal, or of `end()`.
  -- `same` is the `==` of the elements.
  unfoldable pub erase_last : (A → A → Bool) → ℕ → A → LfVector A → Option (ℕ × LfVector A)
  unfolding get remove_at
  erase_last same zero x v = some (v.size, v)
  erase_last same (suc i) x v = do
    y ← get v i
    if same y x then (do w ← remove_at n_slots raw init v i; some (i, w)) else erase_last same i x v

  unfoldable pub erase_value : (A → A → Bool) → A → LfVector A → Option (ℕ × LfVector A)
  unfolding erase_last
  erase_value same x v = erase_last same v.size x v

-- `operator==` of two vectors.
unfoldable pub equal_from {ℓ} :
    {A : Type ℓ} → (A → A → Bool) → ℕ → ℕ → LfVector A → LfVector A → Option Bool
unfolding get
equal_from same zero i v w = some true
equal_from same (suc n) i v w = do
  x ← get v i
  y ← get w i
  if same x y then equal_from same n (i + 1) v w else some false

unfoldable pub is_equal {ℓ} : {A : Type ℓ} → (A → A → Bool) → LfVector A → LfVector A → Option Bool
unfolding equal_from
is_equal same v w = if v.size == w.size then equal_from same v.size 0 v w else some false
