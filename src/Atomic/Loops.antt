-- ===== src/Atomic/Loops.antt =====
-- The loops of any threads act like single instructions.
use lunchbox.Prelude.{
  ℕ, ◌≡◌, sym, ap, ◌∙◌, subst, inl, inr, List, [], ◌∷◌, some, ◌==◌, get_elem?, set, ==-true,
  Bool-cases, some-eq, bind-eq_some,
}
use lunchbox.Atomic.{
  Call, returned, new_value, apply, try_swap, Thread, calling, loaded, back, System, Event, starts,
  loads, swaps, start_thread, load_thread, swap_thread, finish_round, step, steps,
}

-- The value behind the calls, which stand last to first, each as one instruction.
abbrev pub replay : ℕ → List (Call × ℕ) → ℕ
replay first [] = first
replay first (c ∷ made) = (apply c.0 (replay first made)).1

-- Each call has returned what it returns as one instruction on the value that it finds.
abbrev pub AsInstructions : ℕ → List (Call × ℕ) → Type 0
AsInstructions first [] = Unit
AsInstructions first (c ∷ made) =
    AsInstructions first made × (c.1 ≡ (apply c.0 (replay first made)).0)

pub record Explains (first : ℕ) (s : System) : Type 0 where
  pub value : s.value ≡ replay first s.made
  pub results : AsInstructions first s.made

round-Explains :
    (first i old : ℕ) (call : Call) (s : System)
    → Explains first s
    → Explains first (finish_round i call s (try_swap call old s.value))
unfolding try_swap apply
round-Explains first i old call s e = elim (Bool-cases (s.value == old)) [
  | inl t ↦
      let here : old ≡ replay first s.made = sym (==-true s.value old t) ∙ e.value in
      rw t (record {
        value = ap (new_value call) here;
        results = (e.results, ap (returned call) here);
      })
  | inr t ↦ rw t (record { value = e.value; results = e.results })
]

start-Explains :
    (first i : ℕ) (call : Call) (s t : System) (th : Thread)
    → Explains first s
    → start_thread i call s th ≡ some t
    → Explains first t
start-Explains first i call s t (back c r) v e =
    subst (Explains first) (some-eq (record s { threads = set s.threads i (calling call) }) t e)
      (record { value = v.value; results = v.results })
start-Explains first i call s t (calling c) v e = absurd cc
start-Explains first i call s t (loaded c old) v e = absurd cc

load-Explains :
    (first i : ℕ) (s t : System) (th : Thread)
    → Explains first s
    → load_thread i s th ≡ some t
    → Explains first t
load-Explains first i s t (calling c) v e =
    subst (Explains first) (some-eq (record s { threads = set s.threads i (loaded c s.value) }) t e)
      (record { value = v.value; results = v.results })
load-Explains first i s t (back c r) v e = absurd cc
load-Explains first i s t (loaded c old) v e = absurd cc

swap-Explains :
    (first i : ℕ) (s t : System) (th : Thread)
    → Explains first s
    → swap_thread i s th ≡ some t
    → Explains first t
swap-Explains first i s t (loaded c old) v e =
    subst (Explains first) (some-eq (finish_round i c s (try_swap c old s.value)) t e)
      (round-Explains first i old c s v)
swap-Explains first i s t (back c r) v e = absurd cc
swap-Explains first i s t (calling c) v e = absurd cc

step-Explains :
    (first : ℕ) (e : Event) (s t : System) → Explains first s → step e s ≡ some t → Explains first t
unfolding step
step-Explains first (starts i call) s t v e =
    let (th, at, rest) = bind-eq_some (get_elem? s.threads i) (start_thread i call s) t e in
    start-Explains first i call s t th v rest
step-Explains first (loads i) s t v e =
    let (th, at, rest) = bind-eq_some (get_elem? s.threads i) (load_thread i s) t e in
    load-Explains first i s t th v rest
step-Explains first (swaps i) s t v e =
    let (th, at, rest) = bind-eq_some (get_elem? s.threads i) (swap_thread i s) t e in
    swap-Explains first i s t th v rest

-- Whatever accesses the threads make, in any order, from a state that the calls made so far explain:
-- the value is the one that the calls made leave when each is one instruction, in the order of
-- their swaps, and each has returned what that instruction returns.
pub steps-Explains :
    (es : List Event) (first : ℕ) (s t : System)
    → Explains first s
    → steps es s ≡ some t
    → Explains first t
unfolding steps
steps-Explains [] first s t v e = subst (Explains first) (some-eq s t e) v
steps-Explains (x ∷ es) first s t v e =
    let (r, now, rest) = bind-eq_some (step x s) (steps es) t e in
    steps-Explains es first r t (step-Explains first x s r v now) rest
