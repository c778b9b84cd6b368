-- ===== src/LfQueue/Threads/Cells.antt =====
-- What the single accesses of `push` and `pop` do to the values that the queue holds.
use lunchbox.Prelude.{
  ℕ, ◌+◌, ◌<◌, ◌≡◌, ◌≢◌, refl, sym, ap, ◌∙◌, true, false, List, [], ◌∷◌, ◌++◌, some, ◌==◌, length,
  get_elem?, set, length-set, length-append, get_elem?-set, arith,
}
use lunchbox.LfQueue.{LfQueue, next_pos}
use lunchbox.LfQueue.Window.{
  after, after-cases, after-lt, IsAhead, IsAhead-after, IsAhead-more, Window, Window-beyond,
}
use lunchbox.LfQueue.Fifo.{Holds}

module _ {ℓ} {A : Type ℓ} where
  Window-longer :
      (cells : List A) (cap h w : ℕ) (x : A) (xs : List A)
      → h < cap
      → w < cap
      → length xs < cap
      → IsAhead cap h (length xs) w
      → get_elem? cells w ≡ some x
      → Window cells cap h xs
      → Window cells cap h (xs ++ x ∷ [])
  Window-longer cells cap h w x [] lh lw few a at win =
      let same : w ≡ h = omega (arith, a, lh, lw) in (ap (get_elem? cells) (sym same) ∙ at, tt)
  Window-longer cells cap h w x (y ∷ ys) lh lw few a at win = (
    win.0,
    Window-longer cells cap (after cap h) w x ys (after-lt cap h lh) lw (omega arith)
        (IsAhead-after cap h (length ys) w lh lw a) at win.1,
  )

  pub room-lt :
      (q : LfQueue A) (xs : List A)
      → Holds q xs
      → (next_pos q.cells q.write_pos == q.read_pos) ≡ false
      → length xs + 1 < length q.cells
  room-lt q xs h t = omega (
    arith,
    differs t,
    h.ahead,
    h.free,
    h.read_in,
    h.write_in,
    after-cases (length q.cells) q.write_pos h.write_in,
  )
    where
      differs :
          (after (length q.cells) q.write_pos == q.read_pos) ≡ false
          → after (length q.cells) q.write_pos ≢ q.read_pos
      differs u = ground arith

  -- The write of a cell that is not in use.
  pub write-Holds :
      (q : LfQueue A) (xs : List A) (x : A)
      → Holds q xs
      → length xs + 1 < length q.cells
      → Holds (record q { cells = set q.cells q.write_pos x }) xs
        × (get_elem? (set q.cells q.write_pos x) q.write_pos ≡ some x)
  write-Holds q xs x h room = (
    record {
      free = rw same h.free;
      read_in = rw same h.read_in;
      write_in = rw same h.write_in;
      ahead = rw same h.ahead;
      window = rw same (
          Window-beyond q.cells (length q.cells) q.read_pos q.write_pos x xs refl h.read_in
            h.write_in h.free h.ahead h.window);
    },
    get_elem?-set q.cells q.write_pos q.write_pos x h.write_in ∙ rw (self q.write_pos) refl,
  )
    where
      same : length (set q.cells q.write_pos x) ≡ length q.cells
      same = length-set q.cells q.write_pos x

      self : (a : ℕ) → (a == a) ≡ true
      self a = ground arith

  -- The move of the write position.
  pub publish-Holds :
      (q : LfQueue A) (xs : List A) (x : A)
      → Holds q xs
      → length xs + 1 < length q.cells
      → get_elem? q.cells q.write_pos ≡ some x
      → Holds (record q { write_pos = next_pos q.cells q.write_pos }) (xs ++ x ∷ [])
  publish-Holds q xs x h room at = record {
    free = omega (arith, longer, room);
    read_in = h.read_in;
    write_in = after-lt (length q.cells) q.write_pos h.write_in;
    ahead = rw longer (
        IsAhead-more (length q.cells) q.read_pos (length xs) q.write_pos h.read_in h.write_in room
          h.ahead);
    window =
        Window-longer q.cells (length q.cells) q.read_pos q.write_pos x xs h.read_in h.write_in
          h.free h.ahead at h.window;
  }
    where
      longer : length (xs ++ x ∷ []) ≡ length xs + 1
      longer = length-append xs (x ∷ [])

  -- The move of the read position.
  pub advance-Holds :
      (q : LfQueue A) (x : A) (xs : List A)
      → Holds q (x ∷ xs)
      → Holds (record q { read_pos = next_pos q.cells q.read_pos }) xs
  advance-Holds q x xs h = record {
    free = omega (arith, h.free);
    read_in = after-lt (length q.cells) q.read_pos h.read_in;
    write_in = h.write_in;
    ahead =
        IsAhead-after (length q.cells) q.read_pos (length xs) q.write_pos h.read_in h.write_in
          h.ahead;
    window = h.window.1;
  }
