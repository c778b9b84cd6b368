-- ===== src/SpinLock/Swaps.antt =====
-- What the swaps of a lock leave, and who has the lock.
use lunchbox.Prelude.{
  get_elem?-set_cases, ℕ, zero, suc, ◌-◌, ◌<◌, ◌≡◌, ◌≢◌, refl, sym, ap, ◌∙◌, ◌⊎◌, inl, inr, true,
  false, List, none, some, get_elem?, set, replicate, get_elem?-lt, sum_of, sum_of-set, arith,
  Bool-cases,
}
use lunchbox.SpinLock.{
  ℤ, pos, negsuc, is_same, sub_one, writelocked, unlocked, compare_and_swap, unset, expected_read,
  Thread, outside, entering_read, writing, reading, leaving_read, System,
}

-- Having the lock to write and to read, as numbers.
abbrev pub writes : Thread → ℕ
writes outside = 0
writes (entering_read e) = 0
writes writing = 1
writes reading = 0
writes (leaving_read e) = 0

abbrev pub reads : Thread → ℕ
reads outside = 0
reads (entering_read e) = 0
reads writing = 0
reads reading = 1
reads (leaving_read e) = 1

abbrev pub writers : System → ℕ
writers s = sum_of writes s.threads

abbrev pub readers : System → ℕ
readers s = sum_of reads s.threads

is_same-true : (a b : ℤ) → is_same a b ≡ true → a ≡ b
is_same-true (pos m) (pos n) t = ap pos (ground arith)
is_same-true (pos m) (negsuc n) t = absurd cc
is_same-true (negsuc m) (pos n) t = absurd cc
is_same-true (negsuc m) (negsuc n) t = ap negsuc (ground arith)

pub swapped :
    (e new state n : ℤ) → compare_and_swap e new state ≡ (true, n) → (state ≡ e) × (n ≡ new)
swapped e new state n h = elim (Bool-cases (is_same state e)) [
  | inl t ↦
      let u : compare_and_swap e new state ≡ (true, new) = rw t refl in
      (is_same-true state e t, ap (λ p. p.1) (sym h ∙ u))
  | inr t ↦
      let u : compare_and_swap e new state ≡ (false, state) = rw t refl in
      absurd (no_swap (ap (λ p. p.0) (sym h ∙ u)))
]
  where
    no_swap : true ≢ false
    no_swap u = cc

pub kept : (e new state n : ℤ) → compare_and_swap e new state ≡ (false, n) → n ≡ state
kept e new state n h = elim (Bool-cases (is_same state e)) [
  | inl t ↦
      let u : compare_and_swap e new state ≡ (true, new) = rw t refl in
      absurd (no_swap (ap (λ p. p.0) (sym h ∙ u)))
  | inr t ↦
      let u : compare_and_swap e new state ≡ (false, state) = rw t refl in ap (λ p. p.1) (sym h ∙ u)
]
  where
    no_swap : false ≢ true
    no_swap u = cc

-- The number tells who has the lock, and no thread expects it to be locked for writing.
pub record Sound (s : System) : Type 0 where
  pub shape :
      ((s.state ≡ pos (readers s)) × (writers s ≡ 0))
      ⊎ ((s.state ≡ writelocked) × (writers s ≡ 1) × (readers s ≡ 0))
  pub expects : (i : ℕ) (e : ℤ) → get_elem? s.threads i ≡ some (entering_read e) → e ≢ writelocked

-- Another thread than the one that moves is where it was.
pub moved :
    (ts : List Thread) (i j : ℕ) (old new t : Thread)
    → get_elem? ts i ≡ some old
    → get_elem? (set ts i new) j ≡ some t
    → (new ≡ t) ⊎ (get_elem? ts j ≡ some t)
moved ts i j old new t a e = elim (get_elem?-set_cases ts i j new t (get_elem?-lt ts i old a) e) [
  | inl u ↦ inl u.1
  | inr u ↦ inr u.1
]

-- A thread moves to a place where it does not enter.
pub still_expects :
    (s : System) (i : ℕ) (old new : Thread)
    → Sound s
    → get_elem? s.threads i ≡ some old
    → ((e : ℤ) → new ≢ entering_read e)
    → (j : ℕ) (e : ℤ) → get_elem? (set s.threads i new) j ≡ some (entering_read e)
    → e ≢ writelocked
still_expects s i old new k a ne j e f = elim (moved s.threads i j old new (entering_read e) a f) [
  | inl u ↦ absurd (ne e u)
  | inr v ↦ k.expects j e v
]

pub entered : {e f : ℤ} → entering_read e ≡ entering_read f → e ≡ f
entered u = cc

pub none_enters : (n i : ℕ) (e : ℤ) → get_elem? (replicate n outside) i ≢ some (entering_read e)
none_enters zero i e f = cc
none_enters (suc n) zero e f = cc
none_enters (suc n) (suc i) e f = none_enters n i e f

pub pos-eq : (m n : ℕ) → pos m ≡ pos n → m ≡ n
pos-eq m n e = cc

pub pos-ne : (m n : ℕ) → pos m ≢ negsuc n
pos-ne m n e = cc

pub sub_one-pos : (n : ℕ) → 0 < n → sub_one (pos n) ≡ pos (n - 1)
sub_one-pos zero h = absurd (omega arith)
sub_one-pos (suc n) h = ap pos (omega arith)

pub unset_lem : (state n : ℤ) → unset state ≡ some n → (state ≡ writelocked) × (n ≡ unlocked)
unfolding unset
unset_lem state n h = elim (Bool-cases (is_same state writelocked)) [
  | inl t ↦
      let u : unset state ≡ some unlocked = rw (unset, t) refl in
      (is_same-true state writelocked t, same (sym h ∙ u))
  | inr t ↦ let u : unset state ≡ none = rw (unset, t) refl in absurd (no_value (sym h ∙ u))
]
  where
    same : some n ≡ some unlocked → n ≡ unlocked
    same u = cc

    no_value : some n ≢ none
    no_value u = cc

-- What a number is, where the sums of a system are these.
abbrev pub Shape : ℤ → ℕ → ℕ → Type 0
Shape state r w = ((state ≡ pos r) × (w ≡ 0)) ⊎ ((state ≡ writelocked) × (w ≡ 1) × (r ≡ 0))

-- A thread moves and keeps what it has of the lock.
pub same-Shape :
    (s : System) (i : ℕ) (old new : Thread)
    → get_elem? s.threads i ≡ some old
    → writes new ≡ writes old
    → reads new ≡ reads old
    → Sound s
    → Shape s.state (sum_of reads (set s.threads i new)) (sum_of writes (set s.threads i new))
same-Shape s i old new a w r k =
    let same_w : sum_of writes (set s.threads i new) ≡ writers s =
      omega (arith, sum_of-set writes s.threads i old new a, w) in
    let same_r : sum_of reads (set s.threads i new) ≡ readers s =
      omega (arith, sum_of-set reads s.threads i old new a, r) in
    rw (same_w, same_r) k.shape

pub expected_read-ne : (state : ℤ) (r w : ℕ) → Shape state r w → expected_read state ≢ writelocked
unfolding expected_read
expected_read-ne state r w (inl l) e = pos-ne r 0 (sym (rw (l.0) refl) ∙ e)
expected_read-ne state r w (inr l) e = pos-ne 0 0 (sym (rw (l.0) refl) ∙ e)
