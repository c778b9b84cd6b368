-- ===== src/Atomic/Values.antt =====
-- No change is lost, and a round that fails makes way for a call of another thread.
use lunchbox.Prelude.{
  ℕ, ◌+◌, ◌%◌, ◌≡◌, refl, sym, ap, ◌∙◌, subst, ◌<◌, ◌⊎◌, inl, inr, true, List, [], ◌∷◌, some, ◌==◌,
  get_elem?, set, length, arith, ==-refl, Bool-cases, some-eq, bind-eq_some, size_mod, add_size,
  sub_size,
}
use lunchbox.Atomic.{
  Call, get_and_add, get_and_sub, add_and_get, sub_and_get, returned, new_value, apply, try_swap,
  Thread, calling, loaded, back, System, Event, starts, loads, swaps, start_thread, load_thread,
  swap_thread, finish_round, step, steps,
}
use lunchbox.Atomic.Loops.{replay, steps-Explains}

-- What a call adds and what it subtracts.
abbrev pub added : Call → ℕ
added (get_and_add n) = n
added (get_and_sub n) = 0
added (add_and_get n) = n
added (sub_and_get n) = 0

abbrev pub subtracted : Call → ℕ
subtracted (get_and_add n) = 0
subtracted (get_and_sub n) = n
subtracted (add_and_get n) = 0
subtracted (sub_and_get n) = n

abbrev pub sum_made : (Call → ℕ) → List (Call × ℕ) → ℕ
sum_made f [] = 0
sum_made f (c ∷ made) = f c.0 + sum_made f made

abbrev pub AreWords : List (Call × ℕ) → Type 0
AreWords [] = Unit
AreWords (c ∷ made) = (subtracted c.0 < size_mod) × AreWords made

add_balance :
    (v n a b first : ℕ)
    → (v + b) % size_mod ≡ (first + a) % size_mod
    → (add_size v n + (0 + b)) % size_mod ≡ (first + (n + a)) % size_mod
add_balance v n a b first e = omega arith

sub_balance :
    (v n a b first : ℕ)
    → n < size_mod
    → (v + b) % size_mod ≡ (first + a) % size_mod
    → (sub_size v n + (n + b)) % size_mod ≡ (first + (0 + a)) % size_mod
sub_balance v n a b first low e = omega arith

new_value-balance :
    (c : Call) (v a b first : ℕ)
    → subtracted c < size_mod
    → (v + b) % size_mod ≡ (first + a) % size_mod
    → (new_value c v + (subtracted c + b)) % size_mod ≡ (first + (added c + a)) % size_mod
new_value-balance (get_and_add n) v a b first low e = add_balance v n a b first e
new_value-balance (get_and_sub n) v a b first low e = sub_balance v n a b first low e
new_value-balance (add_and_get n) v a b first low e = add_balance v n a b first e
new_value-balance (sub_and_get n) v a b first low e = sub_balance v n a b first low e

replay-sum :
    (made : List (Call × ℕ)) (first : ℕ)
    → AreWords made
    → (replay first made + sum_made subtracted made) % size_mod
      ≡ (first + sum_made added made) % size_mod
unfolding apply
replay-sum [] first low = refl
replay-sum (c ∷ made) first low =
    new_value-balance c.0 (replay first made) (sum_made added made) (sum_made subtracted made) first
      low.0 (replay-sum made first low.1)

-- Threads that start with the value `first`, where no call has been made, and make any accesses in
-- any order, lose no change: the value with all that was subtracted is the first value with all that
-- was added, up to multiples of 2 ^ 64, where no call subtracts 2 ^ 64 or more.
pub steps-sum :
    (es : List Event) (first : ℕ) (threads : List Thread) (t : System)
    → steps es (record { value = first; threads = threads; made = [] }) ≡ some t
    → AreWords t.made
    → (t.value + sum_made subtracted t.made) % size_mod ≡ (first + sum_made added t.made) % size_mod
steps-sum es first threads t e low =
    let v =
      steps-Explains es first (record { value = first; threads = threads; made = [] }) t
        (record { value = refl; results = tt }) e in
    ap (λ x. (x + sum_made subtracted t.made) % size_mod) v.value ∙ replay-sum t.made first low

-- From one state to a later one, no call was made and the value is the same, or calls were made.
abbrev Unmade : System → System → Type 0
Unmade s t =
    ((length t.made ≡ length s.made) × (t.value ≡ s.value)) ⊎ (length s.made < length t.made)

start-Unmade :
    (i : ℕ) (call : Call) (s t : System) (th : Thread)
    → start_thread i call s th ≡ some t
    → Unmade s t
start-Unmade i call s t (back c r) e =
    subst (Unmade s) (some-eq (record s { threads = set s.threads i (calling call) }) t e)
      (inl (refl, refl))
start-Unmade i call s t (calling c) e = absurd cc
start-Unmade i call s t (loaded c old) e = absurd cc

load-Unmade : (i : ℕ) (s t : System) (th : Thread) → load_thread i s th ≡ some t → Unmade s t
load-Unmade i s t (calling c) e =
    subst (Unmade s) (some-eq (record s { threads = set s.threads i (loaded c s.value) }) t e)
      (inl (refl, refl))
load-Unmade i s t (back c r) e = absurd cc
load-Unmade i s t (loaded c old) e = absurd cc

round-Unmade :
    (i old : ℕ) (c : Call) (s : System) → Unmade s (finish_round i c s (try_swap c old s.value))
unfolding try_swap
round-Unmade i old c s = elim (Bool-cases (s.value == old)) [
  | inl t ↦ rw t (inr (omega arith))
  | inr t ↦ rw t (inl (refl, refl))
]

swap-Unmade : (i : ℕ) (s t : System) (th : Thread) → swap_thread i s th ≡ some t → Unmade s t
swap-Unmade i s t (loaded c old) e =
    subst (Unmade s) (some-eq (finish_round i c s (try_swap c old s.value)) t e)
      (round-Unmade i old c s)
swap-Unmade i s t (back c r) e = absurd cc
swap-Unmade i s t (calling c) e = absurd cc

step-Unmade : (e : Event) (s t : System) → step e s ≡ some t → Unmade s t
unfolding step
step-Unmade (starts i call) s t e =
    let (th, at, rest) = bind-eq_some (get_elem? s.threads i) (start_thread i call s) t e in
    start-Unmade i call s t th rest
step-Unmade (loads i) s t e =
    let (th, at, rest) = bind-eq_some (get_elem? s.threads i) (load_thread i s) t e in
    load-Unmade i s t th rest
step-Unmade (swaps i) s t e =
    let (th, at, rest) = bind-eq_some (get_elem? s.threads i) (swap_thread i s) t e in
    swap-Unmade i s t th rest

then-Unmade : (r s t : System) → Unmade r s → Unmade s t → Unmade r t
then-Unmade r s t (inl a) (inl b) = inl (b.0 ∙ a.0, b.1 ∙ a.1)
then-Unmade r s t (inl a) (inr b) = inr (subst (λ n. n < length t.made) a.0 b)
then-Unmade r s t (inr a) (inl b) = inr (subst (λ n. length r.made < n) (sym b.0) a)
then-Unmade r s t (inr a) (inr b) = inr (omega arith)

steps-Unmade : (es : List Event) (s t : System) → steps es s ≡ some t → Unmade s t
unfolding steps
steps-Unmade [] s t e = subst (Unmade s) (some-eq s t e) (inl (refl, refl))
steps-Unmade (x ∷ es) s t e =
    let (r, now, rest) = bind-eq_some (step x s) (steps es) t e in
    then-Unmade s r t (step-Unmade x s r now) (steps-Unmade es r t rest)

swap-made :
    (i : ℕ) (c : Call) (old : ℕ) (t u : System)
    → get_elem? t.threads i ≡ some (loaded c old)
    → t.value ≡ old
    → step (swaps i) t ≡ some u
    → u.made ≡ (c, returned c old) ∷ t.made
unfolding step try_swap
swap-made i c old t u at same e =
    let (th, at', rest) = bind-eq_some (get_elem? t.threads i) (swap_thread i t) u e in
    let here : swap_thread i t (loaded c old) ≡ some u =
      subst (λ x. swap_thread i t x ≡ some u) (some-eq th (loaded c old) (sym at' ∙ at)) rest in
    let hit : (t.value == old) ≡ true = subst (λ x. (t.value == x) ≡ true) same (==-refl t.value) in
    let made : finish_round i c t (try_swap c old t.value)
        ≡ finish_round i c t (some (returned c old), new_value c old) =
      rw hit refl in
    ap (λ x. x.made) (sym (some-eq (finish_round i c t (try_swap c old t.value)) u here) ∙ made)

-- A round is never lost to nobody: a thread that has loaded the value of a state s, and that swaps
-- after any accesses of the threads, makes its call with what it has loaded, or a call was made
-- since s. So while threads make rounds, calls are made, and a thread alone never repeats a round.
pub swap-progress :
    (es : List Event) (i : ℕ) (c : Call) (s t u : System)
    → steps es s ≡ some t
    → get_elem? t.threads i ≡ some (loaded c s.value)
    → step (swaps i) t ≡ some u
    → (u.made ≡ (c, returned c s.value) ∷ t.made) ⊎ (length s.made < length t.made)
swap-progress es i c s t u run at e = elim (steps-Unmade es s t run) [
  | inl same ↦ inl (swap-made i c s.value t u at same.1 e)
  | inr more ↦ inr more
]
