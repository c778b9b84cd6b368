-- ===== src/LfQueue/Threads.antt =====
-- lunchbox/lfQueue.ipp between its two threads: the writer in `push` and the reader in `pop`, which
-- take turns at every access to the positions and the cells. Accesses are sequentially consistent.
pub mod Cells
pub mod Order
use lunchbox.Prelude.{
  ℕ, ◌≡◌, Bool, true, false, List, [], ◌∷◌, ◌++◌, Option, some, ◌==◌, length, get_elem?, set,
}
use lunchbox.LfQueue.{LfQueue, new_queue, next_pos}

-- Where the writer is: outside of `push`, behind its test for a full queue, or behind its write.
pub data Writer {ℓ} (A : Type ℓ) : Type ℓ where
  w_outside : Writer A
  w_tested : A → Writer A
  w_written : A → Writer A

-- Where the reader is: outside of `pop`, behind its test for an empty queue, or behind its read.
pub data Reader {ℓ} (A : Type ℓ) : Type ℓ where
  r_outside : Reader A
  r_tested : Reader A
  r_holding : A → Reader A

-- The queue, the two threads, and all that `push` has added and `pop` has returned so far.
pub record System {ℓ} (A : Type ℓ) : Type ℓ where
  pub queue : LfQueue A
  pub writer : Writer A
  pub reader : Reader A
  pub pushed : List A
  pub popped : List A

pub data Step {ℓ} {A : Type ℓ} : System A → System A → Type ℓ where
  push_tests :
      (s : System A) (x : A)
      → s.writer ≡ w_outside
      → (next_pos s.queue.cells s.queue.write_pos == s.queue.read_pos) ≡ false
      → Step s (record s { writer = w_tested x })
  push_full :
      (s : System A) (x : A)
      → s.writer ≡ w_outside
      → (next_pos s.queue.cells s.queue.write_pos == s.queue.read_pos) ≡ true
      → Step s s
  push_writes :
      (s : System A) (x : A)
      → s.writer ≡ w_tested x
      → Step s (record s {
        queue = record s.queue { cells = set s.queue.cells s.queue.write_pos x };
        writer = w_written x;
      })
  push_ends :
      (s : System A) (x : A)
      → s.writer ≡ w_written x
      → Step s (record s {
        queue = record s.queue { write_pos = next_pos s.queue.cells s.queue.write_pos };
        writer = w_outside;
        pushed = s.pushed ++ x ∷ [];
      })
  pop_tests :
      (s : System A)
      → s.reader ≡ r_outside
      → (s.queue.read_pos == s.queue.write_pos) ≡ false
      → Step s (record s { reader = r_tested })
  pop_empty :
      (s : System A)
      → s.reader ≡ r_outside
      → (s.queue.read_pos == s.queue.write_pos) ≡ true
      → Step s s
  pop_reads :
      (s : System A) (x : A)
      → s.reader ≡ r_tested
      → get_elem? s.queue.cells s.queue.read_pos ≡ some x
      → Step s (record s { reader = r_holding x })
  pop_ends :
      (s : System A) (x : A)
      → s.reader ≡ r_holding x
      → Step s (record s {
        queue = record s.queue { read_pos = next_pos s.queue.cells s.queue.read_pos };
        reader = r_outside;
        popped = s.popped ++ x ∷ [];
      })

-- The states of a new queue of some capacity and its two threads.
pub data Reached {ℓ} {A : Type ℓ} : System A → Type ℓ where
  starts :
      (init : A) (size : ℕ)
      → Reached (record {
        queue = new_queue init size;
        writer = w_outside;
        reader = r_outside;
        pushed = [];
        popped = [];
      })
  steps : (s t : System A) → Reached s → Step s t → Reached t
