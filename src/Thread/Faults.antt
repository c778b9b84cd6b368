-- ===== src/Thread/Faults.antt =====
-- What goes wrong around a thread that cannot be created, that is cancelled, or whose `init` fails.
use lunchbox.Prelude.{
  ℕ, zero, suc, ◌<◌, ◌≡◌, refl, ap, ◌∙◌, true, false, List, [], ◌∷◌, ◌++◌, some, ◌==◌, get_elem?,
  replicate, arith, some-eq,
}
use lunchbox.Thread.{
  Child, System, Event, Created, same_state, stopped, starting, in_run, idle, creating, returns,
  start, create, join, see_ended, set_stopped, cancel, request_cancel, steps,
}

-- A call of `start` that finds the thread stopped and no thread to be had: some tries with EAGAIN, and
-- then another error.
abbrev pub failing_start : ℕ → List Event
failing_start n =
    Event.calls_start
    ∷ (replicate n (Event.creates Created.again) ++ Event.creates Created.error ∷ [])

tries_fail :
    (n m : ℕ) (s : System)
    → n < m
    → s.owner ≡ creating m
    → steps (replicate n (Event.creates Created.again) ++ Event.creates Created.error ∷ []) s
      ≡ some (returns false s)
unfolding steps create
tries_fail zero zero s h at = absurd (omega arith)
tries_fail zero (suc m) s h at = rw (at) refl
tries_fail (suc n) zero s h at = absurd (omega arith)
tries_fail (suc n) (suc m) s h at =
    let more : (m == 0) ≡ false = ground (arith, h) in
    rw (at, more) (tries_fail n m (record s { owner = creating m }) (omega arith) refl)

-- After a `start` that could create no thread the state is left at `STATE_STARTING`: the thread is not
-- stopped, and every later call of `start` returns false at once.
pub failing_start_lem :
    (n : ℕ) (s : System)
    → n < 10
    → s.owner ≡ idle
    → s.state ≡ stopped
    → (t : System) × (steps (failing_start n) s ≡ some t)
      × (t.result ≡ some false)
      × (t.state ≡ starting)
      × (t.children ≡ s.children)
      × (steps (Event.calls_start ∷ []) t ≡ some t)
unfolding steps start
failing_start_lem n s h at st =
    let s1 : System = record s { state = starting; owner = creating 10 } in
    let is : same_state s.state stopped ≡ true = rw st refl in
    (returns false s1, rw (at, is) (tries_fail n 10 s1 h refl), refl, refl, refl, refl)

request_cancel_phase :
    (cs : List Child) (i : ℕ) (c : Child)
    → get_elem? cs i ≡ some c
    → (d : Child) × (get_elem? (request_cancel cs) i ≡ some d) × (d.phase ≡ c.phase)
request_cancel_phase [] i c e = cc
request_cancel_phase (x ∷ []) zero c e =
    (record x { cancel_requested = true }, refl, ap (λ k. k.phase) (some-eq x c e))
request_cancel_phase (x ∷ []) (suc i) c e = cc
request_cancel_phase (x ∷ y ∷ cs) zero c e = (x, refl, ap (λ k. k.phase) (some-eq x c e))
request_cancel_phase (x ∷ y ∷ cs) (suc i) c e = request_cancel_phase (y ∷ cs) i c e

-- `cancel` and then `join` while a child is in `run`: the wait of `join` is over at once, it returns true
-- and the thread counts as stopped, and the child is in `run` as before.
pub cancel-join :
    (s : System) (i : ℕ) (c : Child)
    → s.owner ≡ idle
    → get_elem? s.children i ≡ some c
    → c.phase ≡ in_run
    → (t : System) × (d : Child) × (steps
          (Event.calls_cancel ∷ Event.calls_join ∷ Event.sees_ended ∷ Event.sets_stopped ∷ [])
          s
        ≡ some t)
      × (t.result ≡ some true)
      × (t.state ≡ stopped)
      × (get_elem? t.children i ≡ some d)
      × (d.phase ≡ in_run)
unfolding steps cancel join see_ended set_stopped
cancel-join s i c at at_i runs =
    let (d, at_d, same) = request_cancel_phase s.children i c at_i in
    (
      record s {
        state = stopped;
        owner = idle;
        result = some true;
        children = request_cancel s.children;
      },
      d,
      rw at refl,
      refl,
      refl,
      at_d,
      same ∙ runs,
    )
