-- ===== src/Buffer.antt =====
-- lunchbox/buffer.h and buffer.ipp: a growing array of plain values. Its sizes in bytes are taken to
-- fit in 64 bits, and `malloc` and `realloc` to succeed.
pub mod Contents
pub mod Zero
mod Tests
use lunchbox.Prelude.{
  ℕ, zero, suc, ◌+◌, ◌-◌, ◌*◌, ◌/◌, Bool, true, false, List, [], ◌∷◌, ◌++◌, Option, none, some,
  ◌==◌, ltb, leb, if◌then◌else◌, add_size, length, get_elem?, take, drop, replicate, min,
}

-- `_data`, with [] for a null pointer, `_size` and `_maxSize`.
pub record Buffer {ℓ} (A : Type ℓ) : Type ℓ where
  pub cells : List A
  pub size : ℕ
  pub max_size : ℕ

-- `raw` is what new memory holds.
module _ {ℓ} {A : Type ℓ} (raw : A) where
  unfoldable pub new_buffer : Buffer A
  new_buffer = record { cells = []; size = 0; max_size = 0 }

  -- `realloc` to `n` elements.
  unfoldable pub realloc : ℕ → List A → List A
  realloc n cells = take n cells ++ replicate (n - length cells) raw

  -- `memcpy` of these elements to the index `at`: `none` is a write out of the memory.
  unfoldable pub copy_to : ℕ → List A → List A → Option (List A)
  copy_to at xs cells =
      if leb (at + length xs) (length cells)
      then some (take at cells ++ (xs ++ drop (at + length xs) cells))
      else none

  unfoldable pub clear : Buffer A → Buffer A
  clear b = record { cells = []; size = 0; max_size = 0 }

  unfoldable pub pack : Buffer A → Buffer A
  unfolding realloc
  pack b =
      if b.max_size == b.size
      then b
      else record b { cells = realloc b.size b.cells; max_size = b.size }

  unfoldable pub resize : ℕ → Buffer A → Buffer A
  unfolding realloc
  resize n b = if leb n b.max_size then record b { size = n } else record {
    cells = realloc (add_size n (n / 8)) b.cells;
    size = n;
    max_size = add_size n (n / 8);
  }

  unfoldable pub grow : ℕ → Buffer A → Buffer A
  unfolding resize
  grow n b = if ltb b.size n then resize n b else b

  unfoldable pub reserve : ℕ → Buffer A → Buffer A
  unfolding realloc
  reserve n b = if leb n b.max_size then b else record b { cells = realloc n b.cells; max_size = n }

  -- `setSize`: `none` is the failure of its assertion.
  unfoldable pub set_size : ℕ → Buffer A → Option (Buffer A)
  set_size n b = if leb n b.max_size then some (record b { size = n }) else none

  unfoldable pub reset : ℕ → Buffer A → Option (Buffer A)
  unfolding reserve set_size
  reset n b = set_size n (reserve n b)

  -- The `memcpy` of `append` behind its `resize`.
  append_to : List A → ℕ → Buffer A → Option (Buffer A)
  unfolding copy_to
  append_to xs old b = elim (copy_to old xs b.cells) [
    | none ↦ none
    | some cells ↦ some (record b { cells = cells })
  ]

  -- The constructor with a size.
  unfoldable pub new_sized : ℕ → Option (Buffer A)
  unfolding reset new_buffer
  new_sized n = reset n new_buffer

  -- `append(data, size)`: `none` is the failure of an assertion or a write out of the memory.
  unfoldable pub append : List A → Buffer A → Option (Buffer A)
  unfolding resize append_to
  append xs b =
      if length xs == 0 then none else append_to xs b.size (resize (add_size b.size (length xs)) b)

  -- `append(element)`
  unfoldable pub append_one : A → Buffer A → Option (Buffer A)
  unfolding append
  append_one x b = append (x ∷ []) b

  unfoldable pub replace : List A → Buffer A → Option (Buffer A)
  unfolding reserve copy_to
  replace xs b =
      if length xs == 0 then none else elim (copy_to 0 xs (reserve (length xs) b).cells) [
        | none ↦ none
        | some cells ↦ some (record (reserve (length xs) b) { cells = cells; size = length xs })
      ]

  -- `operator=` from another buffer, and the copy constructor.
  unfoldable pub assign : Buffer A → Buffer A → Option (Buffer A)
  unfolding replace
  assign from b = replace (take from.size from.cells) b

  unfoldable pub copy_buffer : Buffer A → Option (Buffer A)
  unfolding assign new_buffer
  copy_buffer from = if from.size == 0 then some new_buffer else assign from new_buffer

  -- The move constructor: the new buffer, and what is left of the other.
  unfoldable pub move_buffer : Buffer A → Buffer A × Buffer A
  move_buffer from = (from, record { cells = []; size = 0; max_size = 0 })

-- `swap`, and `operator=` that moves: the two buffers behind it.
unfoldable pub swap {ℓ} : {A : Type ℓ} → Buffer A → Buffer A → Buffer A × Buffer A
swap b other = (other, b)

-- `operator[]`: `none` is the failure of its assertion.
unfoldable pub get_at {ℓ} : {A : Type ℓ} → Buffer A → ℕ → Option A
get_at b i = if ltb i b.size then get_elem? b.cells i else none

-- `setZero`, for elements of `width` bytes: it clears the first `_size` bytes. `clear_bytes` sets the
-- first bytes of an element to 0.
module _ {ℓ} {A : Type ℓ} (width : ℕ) (clear_bytes : ℕ → A → A) where
  unfoldable pub zero_cells : ℕ → List A → List A
  zero_cells bytes [] = []
  zero_cells bytes (x ∷ xs) = clear_bytes (min width bytes) x ∷ zero_cells (bytes - width) xs

  unfoldable pub set_zero : Buffer A → Buffer A
  unfolding zero_cells
  set_zero b = record b { cells = zero_cells b.size b.cells }
