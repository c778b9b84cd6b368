-- ===== src/LfQueue/Fifo.antt =====
-- Called one after the other, the operations are those of a bounded FIFO.
use lunchbox.Prelude.{
  ℕ, ◌+◌, ◌-◌, ◌<◌, ◌≡◌, ◌≢◌, refl, ◌⊎◌, inl, inr, true, false, List, [], ◌∷◌, ◌++◌, none, some,
  ◌==◌, length, set, length-set, length-append, length-replicate, length-take, take, replicate,
  arith, Bool-cases,
}
use lunchbox.LfQueue.{
  LfQueue, new_queue, is_empty, clear, resize, resize_cells, pop, get_front, push, get_capacity,
  next_pos,
}
use lunchbox.LfQueue.Window.{
  after, after-cases, after-lt, IsAhead, IsAhead-after, IsAhead-more, Window, Window-set,
}

-- The queue holds the values of a list, oldest first, and has a free cell.
pub record Holds {ℓ} {A : Type ℓ} (q : LfQueue A) (xs : List A) : Type ℓ where
  pub free : length xs < length q.cells
  pub read_in : q.read_pos < length q.cells
  pub write_in : q.write_pos < length q.cells
  pub ahead : IsAhead (length q.cells) q.read_pos (length xs) q.write_pos
  pub window : Window q.cells (length q.cells) q.read_pos xs

-- A new queue is empty and takes as many values as asked for.
pub new_queue-Holds {ℓ} :
    {A : Type ℓ} (init : A) (size : ℕ)
    → Holds (new_queue init size) []
      × (get_capacity (new_queue init size) ≡ size)
      × (is_empty (new_queue init size) ≡ true)
unfolding new_queue get_capacity is_empty
new_queue-Holds init size = (
  record {
    free = omega (arith, length-replicate (size + 1) init);
    read_in = omega (arith, length-replicate (size + 1) init);
    write_in = omega (arith, length-replicate (size + 1) init);
    ahead = inl refl;
    window = tt;
  },
  omega (arith, length-replicate (size + 1) init),
  refl,
)

module _ {ℓ} {A : Type ℓ} where
  -- The queue is empty exactly when the two positions are one.
  pub is_empty-Holds : (q : LfQueue A) (xs : List A) → Holds q xs → is_empty q ≡ (length xs == 0)
  unfolding is_empty
  is_empty-Holds q xs h = ground (arith, h.ahead, h.free, h.read_in, h.write_in)

  -- On a ring that holds a list `push` appends the value, or refuses it exactly when the queue holds its capacity.
  pub push-Holds :
      (q : LfQueue A) (xs : List A) (x : A)
      → Holds q xs
      → ((length xs < get_capacity q) × ((push q x).0 ≡ true) × Holds (push q x).1 (xs ++ x ∷ []))
        ⊎ ((length xs ≡ get_capacity q) × (push q x ≡ (false, q)))
  unfolding push get_capacity
  push-Holds q xs x h = elim (Bool-cases (next_pos q.cells q.write_pos == q.read_pos)) [
    | inl full ↦ inr (omega (arith, is_full (is_eq full), h.free), rw full)
    | inr room ↦ inl (
      omega (arith, has_room (is_ne room), h.free),
      rw room,
      rw room (pushed (has_room (is_ne room))),
    )
  ]
    where
      size : ℕ
      size = length q.cells

      is_eq : (after size q.write_pos == q.read_pos) ≡ true → after size q.write_pos ≡ q.read_pos
      is_eq t = ground arith

      is_ne : (after size q.write_pos == q.read_pos) ≡ false → after size q.write_pos ≢ q.read_pos
      is_ne t = ground arith

      is_full : after size q.write_pos ≡ q.read_pos → length xs + 1 ≡ size
      is_full e = omega (
        arith,
        e,
        h.ahead,
        h.free,
        h.read_in,
        h.write_in,
        after-cases size q.write_pos h.write_in,
      )

      has_room : after size q.write_pos ≢ q.read_pos → length xs + 1 < size
      has_room ne = omega (
        arith,
        ne,
        h.ahead,
        h.free,
        h.read_in,
        h.write_in,
        after-cases size q.write_pos h.write_in,
      )

      longer : length (xs ++ x ∷ []) ≡ length xs + 1
      longer = length-append xs (x ∷ [])

      same : length (set q.cells q.write_pos x) ≡ size
      same = length-set q.cells q.write_pos x

      pushed :
          length xs + 1 < size
          → Holds
              (record q {
                cells = set q.cells q.write_pos x;
                write_pos = next_pos q.cells q.write_pos;
              })
              (xs ++ x ∷ [])
      pushed room = record {
        free = omega (arith, longer, same, room);
        read_in = rw same h.read_in;
        write_in = rw same (after-lt size q.write_pos h.write_in);
        ahead =
            rw (same, longer)
              (IsAhead-more size q.read_pos (length xs) q.write_pos h.read_in h.write_in room
                h.ahead);
        window = rw same (
            Window-set q.cells size q.read_pos q.write_pos x xs refl h.read_in h.write_in h.free
              h.ahead h.window);
      }

  -- On a ring that holds at least one value `pop` and `getFront` answer the oldest one, and `pop`
  -- removes it.
  pub pop-Holds :
      (q : LfQueue A) (x : A) (xs : List A)
      → Holds q (x ∷ xs)
      → ((pop q).0 ≡ true)
        × ((pop q).1 ≡ some x)
        × Holds (pop q).2 xs
        × (get_front q ≡ (true, some x))
  unfolding pop get_front
  pop-Holds q x xs h =
      let more : (q.read_pos == q.write_pos) ≡ false =
        ground (arith, h.ahead, h.free, h.read_in, h.write_in) in
      (rw more, rw more h.window.0, rw more (popped more), rw (more, h.window.0))
    where
      popped :
          (q.read_pos == q.write_pos) ≡ false
          → Holds (record q { read_pos = next_pos q.cells q.read_pos }) xs
      popped more = record {
        free = omega (arith, h.free);
        read_in = after-lt (length q.cells) q.read_pos h.read_in;
        write_in = h.write_in;
        ahead =
            IsAhead-after (length q.cells) q.read_pos (length xs) q.write_pos h.read_in h.write_in
              h.ahead;
        window = h.window.1;
      }

  -- On an empty queue both answer false, and `pop` changes nothing.
  pub pop-empty :
      (q : LfQueue A) → Holds q [] → (pop q ≡ (false, none, q)) × (get_front q ≡ (false, none))
  unfolding pop get_front
  pop-empty q h =
      let none_left : (q.read_pos == q.write_pos) ≡ true =
        ground (arith, h.ahead, h.read_in, h.write_in) in
      (rw none_left, rw none_left)

  -- `clear` leaves an empty queue of the same capacity.
  pub clear-Holds :
      (q : LfQueue A) (xs : List A)
      → Holds q xs
      → Holds (clear q) [] × (get_capacity (clear q) ≡ get_capacity q)
  unfolding clear get_capacity
  clear-Holds q xs h = (
    record {
      free = omega (arith, h.free);
      read_in = omega (arith, h.free);
      write_in = omega (arith, h.free);
      ahead = inl refl;
      window = tt;
    },
    refl,
  )

  -- `resize` of an empty queue passes its assertion and leaves an empty queue of the capacity asked
  -- for.
  pub resize-Holds :
      (q : LfQueue A) (init : A) (size : ℕ)
      → Holds q []
      → (w : LfQueue A) × (resize init size q ≡ some w) × Holds w [] × (get_capacity w ≡ size)
  unfolding resize get_capacity
  resize-Holds q init size h = (
    record { cells = resize_cells init (size + 1) q.cells; read_pos = 0; write_pos = 0 },
    rw (is_empty-Holds q [] h),
    record {
      free = omega (arith, resized);
      read_in = omega (arith, resized);
      write_in = omega (arith, resized);
      ahead = inl refl;
      window = tt;
    },
    omega (arith, resized),
  )
    where
      resized : length (resize_cells init (size + 1) q.cells) ≡ size + 1
      resized = omega (
        arith,
        length-append (take (size + 1) q.cells) (replicate (size + 1 - length q.cells) init),
        length-take (size + 1) q.cells,
        length-replicate (size + 1 - length q.cells) init,
      )
