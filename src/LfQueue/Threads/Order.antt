-- ===== src/LfQueue/Threads/Order.antt =====
-- However the two threads interleave, the reader gets what the writer pushed, in order.
use lunchbox.Prelude.{
  some-eq, ℕ, ◌+◌, ◌≤◌, ◌<◌, ◌≡◌, ◌≢◌, refl, sym, ap, ◌∙◌, subst, ◌⊎◌, false, List, [], ◌∷◌, ◌++◌,
  append_assoc, some, ◌==◌, length, get_elem?, arith, length-set,
}
use lunchbox.LfQueue.{LfQueue, next_pos, get_capacity}
use lunchbox.LfQueue.Fifo.{Holds, new_queue-Holds}
use lunchbox.LfQueue.Threads.{
  Writer, w_outside, w_tested, w_written, Reader, r_outside, r_tested, r_holding, System, Step,
  push_tests, push_full, push_writes, push_ends, pop_tests, pop_empty, pop_reads, pop_ends, Reached,
  starts, steps,
}
use lunchbox.LfQueue.Threads.Cells.{room-lt, write-Holds, publish-Holds, advance-Holds}

-- What the writer knows where it is.
pub data WriterKnows {ℓ} {A : Type ℓ} (q : LfQueue A) (xs : List A) : Writer A → Type ℓ where
  at_outside : WriterKnows q xs w_outside
  at_tested : (x : A) → length xs + 1 < length q.cells → WriterKnows q xs (w_tested x)
  at_written :
      (x : A)
      → length xs + 1 < length q.cells
      → get_elem? q.cells q.write_pos ≡ some x
      → WriterKnows q xs (w_written x)

-- What the reader knows where it is.
pub data ReaderKnows {ℓ} {A : Type ℓ} : List A → Reader A → Type ℓ where
  is_outside : (xs : List A) → ReaderKnows xs r_outside
  is_tested : (x : A) (xs : List A) → ReaderKnows (x ∷ xs) r_tested
  is_holding : (x : A) (xs : List A) → ReaderKnows (x ∷ xs) (r_holding x)

pub record Sound {ℓ} {A : Type ℓ} (s : System A) (xs : List A) : Type ℓ where
  pub order : s.popped ++ xs ≡ s.pushed
  pub holds : Holds s.queue xs
  pub writes : WriterKnows s.queue xs s.writer
  pub reads : ReaderKnows xs s.reader

module _ {ℓ} {A : Type ℓ} where
  writer_tested :
      (q : LfQueue A) (xs : List A) (w : Writer A) (x : A)
      → WriterKnows q xs w
      → w ≡ w_tested x
      → length xs + 1 < length q.cells
  writer_tested q xs _ x at_outside e = absurd cc
  writer_tested q xs _ x (at_tested y room) e = room
  writer_tested q xs _ x (at_written y room at) e = absurd cc

  writer_written :
      (q : LfQueue A) (xs : List A) (w : Writer A) (x : A)
      → WriterKnows q xs w
      → w ≡ w_written x
      → (length xs + 1 < length q.cells) × (get_elem? q.cells q.write_pos ≡ some x)
  writer_written q xs _ x at_outside e = absurd cc
  writer_written q xs _ x (at_tested y room) e = absurd cc
  writer_written q xs _ x (at_written y room at) e = (room, cc)

  -- The reader moves: the writer has more room than before.
  writer_advanced :
      (q : LfQueue A) (x : A) (xs : List A) (w : Writer A) (p : ℕ)
      → WriterKnows q (x ∷ xs) w
      → WriterKnows (record q { read_pos = p }) xs w
  writer_advanced q x xs _ p at_outside = at_outside
  writer_advanced q x xs _ p (at_tested y room) = at_tested y (omega arith)
  writer_advanced q x xs _ p (at_written y room at) = at_written y (omega arith) at

  reader_tested : (xs : List A) (r : Reader A) → ReaderKnows xs r → r ≡ r_tested → 0 < length xs
  reader_tested xs _ (is_outside ys) e = absurd cc
  reader_tested _ _ (is_tested x xs) e = omega arith
  reader_tested _ _ (is_holding x xs) e = omega arith

  reader_holding :
      (xs : List A) (r : Reader A) (x : A)
      → ReaderKnows xs r
      → r ≡ r_holding x
      → (ys : List A) × (xs ≡ x ∷ ys)
  reader_holding xs _ x (is_outside ys) e = absurd cc
  reader_holding _ _ x (is_tested y ys) e = absurd cc
  reader_holding _ _ x (is_holding y ys) e = (ys, cc)

  reader_pushed :
      (xs : List A) (r : Reader A) (x : A) → ReaderKnows xs r → ReaderKnows (xs ++ x ∷ []) r
  reader_pushed xs _ x (is_outside ys) = is_outside _
  reader_pushed _ _ x (is_tested y ys) = is_tested y _
  reader_pushed _ _ x (is_holding y ys) = is_holding y _

  -- What the reader reads is the oldest value.
  reader_read :
      (q : LfQueue A) (xs : List A) (x : A)
      → 0 < length xs
      → Holds q xs
      → get_elem? q.cells q.read_pos ≡ some x
      → (ys : List A) × (xs ≡ x ∷ ys)
  reader_read q [] x more h e = absurd (omega arith)
  reader_read q (y ∷ ys) x more h e = (ys, ap (λ z. z ∷ ys) (some-eq y x (sym h.window.0 ∙ e)))

  front_of : (xs : List A) → 0 < length xs → (x : A) × (ys : List A) × (xs ≡ x ∷ ys)
  front_of [] more = absurd (omega arith)
  front_of (x ∷ xs) more = (x, xs, refl)

  more_left :
      (q : LfQueue A) (xs : List A)
      → Holds q xs
      → (q.read_pos == q.write_pos) ≡ false
      → (y : A) × (ys : List A) × (xs ≡ y ∷ ys)
  more_left q [] h t = absurd (nothing h.ahead t)
    where
      nothing :
          (q.read_pos + 0 ≡ q.write_pos) ⊎ (q.read_pos + 0 ≡ q.write_pos + length q.cells)
          → (q.read_pos == q.write_pos) ≡ false
          → ⊥
      nothing a u = ground (arith, a, h.read_in, u)
  more_left q (y ∷ ys) h t = (y, ys, refl)

  Step-Sound : (s t : System A) (xs : List A) → Step s t → Sound s xs → (ys : List A) × Sound t ys
  Step-Sound _ _ xs (push_tests s x e room) k = (
    xs,
    record {
      order = k.order;
      holds = k.holds;
      writes = at_tested x (room-lt s.queue xs k.holds room);
      reads = k.reads;
    },
  )
  Step-Sound _ _ xs (push_full s x e full) k = (xs, k)
  Step-Sound _ _ xs (push_writes s x e) k =
      let room = writer_tested s.queue xs s.writer x k.writes e in
      let (h, at) = write-Holds s.queue xs x k.holds room in
      (
        xs,
        record {
          order = k.order;
          holds = h;
          writes = at_written x (rw (length-set s.queue.cells s.queue.write_pos x) room) at;
          reads = k.reads;
        },
      )
  Step-Sound _ _ xs (push_ends s x e) k =
      let (room, at) = writer_written s.queue xs s.writer x k.writes e in
      (
        xs ++ x ∷ [],
        record {
          order = sym (append_assoc s.popped xs (x ∷ [])) ∙ ap (λ l. l ++ x ∷ []) k.order;
          holds = publish-Holds s.queue xs x k.holds room at;
          writes = at_outside;
          reads = reader_pushed xs s.reader x k.reads;
        },
      )
  Step-Sound _ _ xs (pop_tests s e more) k =
      let (y, ys, eq) = more_left s.queue xs k.holds more in
      (
        xs,
        record {
          order = k.order;
          holds = k.holds;
          writes = k.writes;
          reads = rw eq (is_tested y ys);
        },
      )
  Step-Sound _ _ xs (pop_empty s e none_left) k = (xs, k)
  Step-Sound _ _ xs (pop_reads s x e at) k =
      let (ys, eq) = reader_read s.queue xs x (reader_tested xs s.reader k.reads e) k.holds at in
      (
        xs,
        record {
          order = k.order;
          holds = k.holds;
          writes = k.writes;
          reads = rw eq (is_holding x ys);
        },
      )
  Step-Sound _ _ xs (pop_ends s x e) k =
      let (ys, eq) = reader_holding xs s.reader x k.reads e in
      (
        ys,
        record {
          order = append_assoc s.popped (x ∷ []) ys ∙ ap (λ l. s.popped ++ l) (sym eq) ∙ k.order;
          holds = advance-Holds s.queue x ys (subst (Holds s.queue) eq k.holds);
          writes =
              writer_advanced s.queue x ys s.writer (next_pos s.queue.cells s.queue.read_pos)
                (subst (λ l. WriterKnows s.queue l s.writer) eq k.writes);
          reads = is_outside ys;
        },
      )

  Reached-Sound : (s : System A) → Reached s → (xs : List A) × Sound s xs
  Reached-Sound _ (starts init size) = (
    [],
    record {
      order = refl;
      holds = (new_queue-Holds init size).0;
      writes = at_outside;
      reads = is_outside [];
    },
  )
  Reached-Sound _ (steps s t r st) = let (xs, k) = Reached-Sound s r in Step-Sound s t xs st k

  -- However the accesses of the writer and the reader interleave: the cells from the read position up to
  -- the write position hold values that, behind what `pop` has returned so far, are what `push` has
  -- added so far, in order, and the queue is never over its capacity.
  pub popped-pushed :
      (s : System A)
      → Reached s
      → (xs : List A) × Holds s.queue xs
        × (s.popped ++ xs ≡ s.pushed)
        × (length xs ≤ get_capacity s.queue)
  unfolding get_capacity
  popped-pushed s r =
      let (xs, k) = Reached-Sound s r in (xs, k.holds, k.order, omega (arith, k.holds.free))

  -- However the accesses interleave: when the reader is about to read, the cell at its position has
  -- the oldest value that was pushed and not popped, and it is not the cell at the write position, so
  -- that the writer does not write to it.
  pub reader-safe :
      (s : System A)
      → Reached s
      → s.reader ≡ r_tested
      → (x : A) × (get_elem? s.queue.cells s.queue.read_pos ≡ some x)
        × ((xs : List A) × (s.popped ++ x ∷ xs ≡ s.pushed))
        × (s.queue.write_pos ≢ s.queue.read_pos)
  reader-safe s r e =
      let (xs, k) = Reached-Sound s r in
      let more = reader_tested xs s.reader k.reads e in
      let (x, ys, eq) = front_of xs more in
      let h = subst (Holds s.queue) eq k.holds in
      (
        x,
        h.window.0,
        (ys, ap (λ l. s.popped ++ l) (sym eq) ∙ k.order),
        λ same. omega (arith, same, more, k.holds.ahead, k.holds.free, k.holds.read_in),
      )
