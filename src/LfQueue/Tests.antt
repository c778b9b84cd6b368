-- ===== src/LfQueue/Tests.antt =====
-- Runs of the ring, and its theorems at a ring of three cells that has come round.
use lunchbox.Prelude.{
  List, ◌++◌, ◌≤◌, ◌≢◌, length, ℕ, ◌<◌, ◌≡◌, refl, ◌⊎◌, inl, inr, true, false, [], ◌∷◌, some, arith,
}
use lunchbox.LfQueue.{LfQueue, new_queue, push, get_capacity}
use lunchbox.LfQueue.Threads.{
  System, w_outside, w_tested, w_written, r_outside, r_tested, Reached, starts, steps, push_tests,
  push_writes, push_ends, pop_tests,
}
use lunchbox.LfQueue.Threads.Order.{popped-pushed, reader-safe}
use lunchbox.LfQueue.Fifo.{Holds, push-Holds}

-- The value 8 is in the last cell, the first one is free.
abbrev one_held : LfQueue ℕ
one_held = record { cells = 6 ∷ 7 ∷ 8 ∷ []; read_pos = 2; write_pos = 0 }

one_held-Holds : Holds one_held (8 ∷ [])
one_held-Holds = record {
  free = omega arith;
  read_in = omega arith;
  write_in = omega arith;
  ahead = inr refl;
  window = (refl, tt);
}

abbrev no_value : LfQueue ℕ
no_value = record { cells = 6 ∷ 7 ∷ 8 ∷ []; read_pos = 2; write_pos = 2 }

no_value-Holds : Holds no_value []
no_value-Holds = record {
  free = omega arith;
  read_in = omega arith;
  write_in = omega arith;
  ahead = inl refl;
  window = tt;
}

push_wraps :
    push one_held 9 ≡ (true, record { cells = 9 ∷ 7 ∷ 8 ∷ []; read_pos = 2; write_pos = 1 })
unfolding push
push_wraps = refl

push-Holds_example :
    ((1 < get_capacity one_held)
      × ((push one_held 9).0 ≡ true)
      × Holds (push one_held 9).1 (8 ∷ 9 ∷ []))
    ⊎ ((1 ≡ get_capacity one_held) × (push one_held 9 ≡ (false, one_held)))
push-Holds_example = push-Holds one_held (8 ∷ []) 9 one_held-Holds

-- One value has been pushed into a ring for one, and the reader is about to read it.
abbrev new_ring : System ℕ
new_ring = record {
  queue = record { cells = 0 ∷ 0 ∷ []; read_pos = 0; write_pos = 0 };
  writer = w_outside;
  reader = r_outside;
  pushed = [];
  popped = [];
}

abbrev testing : System ℕ
testing = record new_ring { writer = w_tested 7 }

abbrev writing : System ℕ
writing = record new_ring {
  queue = record { cells = 7 ∷ 0 ∷ []; read_pos = 0; write_pos = 0 };
  writer = w_written 7;
}

abbrev written : System ℕ
written = record new_ring {
  queue = record { cells = 7 ∷ 0 ∷ []; read_pos = 0; write_pos = 1 };
  pushed = 7 ∷ [];
}

abbrev reading : System ℕ
reading = record written { reader = r_tested }

ring_starts : Reached new_ring
unfolding new_queue
ring_starts = starts 0 1

ring_reads : Reached reading
ring_reads =
    steps written reading
      (steps writing written
        (steps testing writing
          (steps new_ring testing ring_starts (push_tests new_ring 7 refl refl))
          (push_writes testing 7 refl))
        (push_ends writing 7 refl))
      (pop_tests written refl refl)

popped-pushed_example :
    (xs : List ℕ) × Holds reading.queue xs
    × (reading.popped ++ xs ≡ 7 ∷ [])
    × (length xs ≤ get_capacity reading.queue)
popped-pushed_example = popped-pushed reading ring_reads

reader-safe_example :
    (x : ℕ) × (some 7 ≡ some x)
    × ((xs : List ℕ) × (reading.popped ++ x ∷ xs ≡ 7 ∷ []))
    × (reading.queue.write_pos ≢ reading.queue.read_pos)
reader-safe_example = reader-safe reading ring_reads refl
