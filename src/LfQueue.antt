-- ===== src/LfQueue.antt =====
-- lunchbox/lfQueue.h and lfQueue.ipp: a ring of a fixed number of cells for one reader thread and one
-- writer thread. One cell stays free. The positions are `int32_t` and stay below the number of
-- cells, which is below 2 ^ 31, so that `+ 1` does not overflow.
pub mod Window
pub mod Fifo
pub mod Threads
mod Tests
use lunchbox.Prelude.{
  ℕ, suc, ◌+◌, ◌-◌, ◌%◌, Bool, true, false, List, Option, none, some, ◌==◌, if◌then◌else◌, length,
  get_elem?, set, take, replicate, ◌++◌,
}

pub record LfQueue {ℓ} (A : Type ℓ) : Type ℓ where
  pub cells : List A
  pub read_pos : ℕ
  pub write_pos : ℕ

module _ {ℓ} {A : Type ℓ} where
  -- The constructor: `init` is `T()`.
  unfoldable pub new_queue : A → ℕ → LfQueue A
  new_queue init size = record { cells = replicate (size + 1) init; read_pos = 0; write_pos = 0 }

  unfoldable pub is_empty : LfQueue A → Bool
  is_empty q = q.read_pos == q.write_pos

  unfoldable pub clear : LfQueue A → LfQueue A
  clear q = record q { read_pos = 0; write_pos = 0 }

  -- `std::vector::resize`
  resize_cells : A → ℕ → List A → List A
  resize_cells init n cells = take n cells ++ replicate (n - length cells) init

  -- `none` is the failure of `LBASSERT(isEmpty())`.
  unfoldable pub resize : A → ℕ → LfQueue A → Option (LfQueue A)
  unfolding is_empty resize_cells
  resize init size q =
      if is_empty q
      then some
          (record { cells = resize_cells init (size + 1) q.cells; read_pos = 0; write_pos = 0 })
      else none

  -- The position behind `p`.
  abbrev pub next_pos : List A → ℕ → ℕ
  next_pos cells p = (p + 1) % length cells

  -- The result, and what is put in `result`: `none` beside `true` is a read out of the cells.
  unfoldable pub pop : LfQueue A → Bool × Option A × LfQueue A
  pop q =
      if q.read_pos == q.write_pos
      then (false, none, q)
      else (true, get_elem? q.cells q.read_pos, record q { read_pos = next_pos q.cells q.read_pos })

  unfoldable pub get_front : LfQueue A → Bool × Option A
  get_front q =
      if q.read_pos == q.write_pos then (false, none) else (true, get_elem? q.cells q.read_pos)

  unfoldable pub push : LfQueue A → A → Bool × LfQueue A
  push q x =
      let next = next_pos q.cells q.write_pos in
      if next == q.read_pos
      then (false, q)
      else (true, record q { cells = set q.cells q.write_pos x; write_pos = next })

  unfoldable pub get_capacity : LfQueue A → ℕ
  get_capacity q = length q.cells - 1
