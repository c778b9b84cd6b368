-- ===== src/MtQueue/Traces.antt =====
-- What any sequence of calls keeps: the bound, the order of the elements, and the notifications.
use lunchbox.Prelude.{
  ℕ, ◌≡◌, sym, ap, ◌∙◌, inl, inr, true, false, List, [], ◌∷◌, ◌++◌, append-nil, append_assoc,
  Option, none, some, leb, length, arith, le-cases,
}
use lunchbox.MtQueue.{MtQueue, assign, set_max_size, clear}
use lunchbox.MtQueue.Room.{IsValid}
use lunchbox.MtQueue.Calls.{
  Call, Effect, run, run_all, added, added_all, IsFifo, AreFifo, call_assign, call_set_max_size,
  call_clear, call_pop, call_timed_pop, call_try_pop, call_timed_pop_range, call_try_pop_range,
  call_push, call_push_all, call_push_front, call_push_front_all,
}
use lunchbox.MtQueue.Keeps.{Holding, holding, Keeps, IsSound}
use lunchbox.MtQueue.Keeps.{
  run_pop, run_try_pop, run_timed_pop, run_try_pop_range, run_timed_pop_range,
}
use lunchbox.MtQueue.Adding.{run_push, run_push_all, run_push_front, run_push_front_all}

module _ {ℓ} {A : Type ℓ} where
  run_set_max_size :
      (m : ℕ) (q : MtQueue A)
      → Holding (Keeps (call_set_max_size m) q) (run (call_set_max_size m) q)
  unfolding run set_max_size
  run_set_max_size m q = elim (le-cases (length q.items) m) [
    | inl fits ↦
        let t : leb (length q.items) m ≡ true = ground arith in
        rw t (record {
          valid = λ s v. record { bounded = fits; fits = s };
          quiet = λ silent. cc;
          fifo = λ f. sym (append-nil q.items);
        })
    | inr long ↦ let t : leb (length q.items) m ≡ false = ground arith in rw t tt
  ]

  run-Keeps : (c : Call A) (q : MtQueue A) → Holding (Keeps c q) (run c q)
  unfolding run assign clear
  run-Keeps (call_assign from) q = record {
    valid = λ s v. record { bounded = s.bounded; fits = s.fits };
    quiet = λ silent. cc;
    fifo = λ f. absurd f;
  }
  run-Keeps (call_set_max_size m) q = run_set_max_size m q
  run-Keeps call_clear q = record {
    valid = λ s v. record { bounded = omega arith; fits = v.fits };
    quiet = λ silent. cc;
    fifo = λ f. absurd f;
  }
  run-Keeps call_pop q = run_pop q
  run-Keeps call_timed_pop q = run_timed_pop q
  run-Keeps call_try_pop q = run_try_pop q
  run-Keeps (call_timed_pop_range mn mx) q = run_timed_pop_range mn mx q
  run-Keeps (call_try_pop_range n) q = run_try_pop_range n q
  run-Keeps (call_push x) q = run_push x q
  run-Keeps (call_push_all xs) q = run_push_all xs q
  run-Keeps (call_push_front x) q = run_push_front x q
  run-Keeps (call_push_front_all xs) q = run_push_front_all xs q

  -- A call that returns keeps the bound: a valid queue stays no longer than its maximum. The queue
  -- that is assigned has to be valid and a new maximum has to be a `size_t`.
  pub run-IsValid :
      (c : Call A) (q : MtQueue A) (e : Effect A)
      → IsSound c
      → IsValid q
      → run c q ≡ some e
      → IsValid e.queue
  run-IsValid c q e s v h = (holding (Keeps c q) (run c q) e (run-Keeps c q) h).valid s v

  -- No wake-up is lost: a call that returns without `notify_all` has not changed the queue.
  pub run-notified :
      (c : Call A) (q : MtQueue A) (e : Effect A)
      → run c q ≡ some e
      → e.notified ≡ false
      → e.queue ≡ q
  run-notified c q e h = (holding (Keeps c q) (run c q) e (run-Keeps c q) h).quiet

  -- What was taken and what is left is what was there and what was added.
  InOrder : List (Call A) → MtQueue A → List A × MtQueue A → Type ℓ
  InOrder cs q r = r.0 ++ r.1.items ≡ q.items ++ added_all cs

  then_rest :
      (c : Call A) (cs : List (Call A)) (q : MtQueue A) (e : Effect A)
      (o : Option (List A × MtQueue A))
      → e.taken ++ e.queue.items ≡ q.items ++ added c
      → Holding (InOrder cs e.queue) o
      → Holding (InOrder (c ∷ cs) q) (elim o [ none ↦ none | some r ↦ some (e.taken ++ r.0, r.1) ])
  unfolding InOrder
  then_rest c cs q e none h k = tt
  then_rest c cs q e (some r) h k =
      append_assoc e.taken r.0 r.1.items
      ∙ ap (λ l. e.taken ++ l) k
      ∙ sym (append_assoc e.taken e.queue.items (added_all cs))
      ∙ ap (λ l. l ++ added_all cs) h
      ∙ append_assoc q.items (added c) (added_all cs)

  first_call :
      (c : Call A) (cs : List (Call A)) (q : MtQueue A) (o : Option (Effect A))
      → IsFifo c
      → Holding (Keeps c q) o
      → ((p : MtQueue A) → Holding (InOrder cs p) (run_all cs p))
      → Holding (InOrder (c ∷ cs) q) (elim o [
        | none ↦ none
        | some e ↦ elim (run_all cs e.queue) [ none ↦ none | some r ↦ some (e.taken ++ r.0, r.1) ]
      ])
  first_call c cs q none f k rest = tt
  first_call c cs q (some e) f k rest =
      then_rest c cs q e (run_all cs e.queue) (k.fifo f) (rest e.queue)

  run_all-InOrder :
      (cs : List (Call A)) (q : MtQueue A) → AreFifo cs → Holding (InOrder cs q) (run_all cs q)
  unfolding run_all InOrder
  run_all-InOrder [] q f = sym (append-nil q.items)
  run_all-InOrder (c ∷ cs) q f =
      first_call c cs q (run c q) f.0 (run-Keeps c q) (λ p. run_all-InOrder cs p f.1)

  -- Elements leave in the order in which they came, whichever threads call in whatever order: for
  -- any calls that add only at the end and all return, what they took out, in their order, before
  -- what is left is what was there before what they added.
  pub run_all-fifo :
      (cs : List (Call A)) (q : MtQueue A) (r : List A × MtQueue A)
      → AreFifo cs
      → run_all cs q ≡ some r
      → r.0 ++ r.1.items ≡ q.items ++ added_all cs
  unfolding InOrder
  run_all-fifo cs q r f h = holding (InOrder cs q) (run_all cs q) r (run_all-InOrder cs q f) h
