-- ===== src/ThreadPool/Turns.antt =====
-- The events of a pool, with the tests that they have passed.
use lunchbox.Prelude.{
  ℕ, ◌-◌, ◌<◌, ◌≡◌, refl, sym, ap, ◌∙◌, subst, inl, inr, Bool, true, false, ◌&&◌, List, [], ◌∷◌,
  ◌++◌, Option, none, some, ◌==◌, ltb, bind-eq_some, if◌then◌else◌, get_elem?, set, arith,
  Bool-cases, some-eq, sum_of,
}
use lunchbox.ThreadPool.{
  Worker, ThreadPool, Event, asleep, awake, runs, ended, asleep_one, post, notify_one, destroy,
  take_task, work, finish, step,
}

-- A worker that is in `_condition.wait`.
abbrev pub Waits {ℓ} : {A : Type ℓ} → Worker A → Type 0
Waits asleep = Unit {0}
Waits awake = Unit {0}
Waits (runs a) = ⊥
Waits ended = ⊥

pub data Turn {ℓ} {A : Type ℓ} (p : ThreadPool A) : Event A → ThreadPool A → Type ℓ where
  posts : (a : A) → Turn p (Event.posts a) (post a p)
  notifies_none :
      0 < p.due
      → sum_of asleep_one p.workers ≡ 0
      → Turn p (Event.notifies none) (record p { due = p.due - 1 })
  notifies_one :
      (i : ℕ)
      → 0 < p.due
      → get_elem? p.workers i ≡ some asleep
      → Turn p
          (Event.notifies (some i))
          (record p { due = p.due - 1; workers = set p.workers i awake })
  destroys : Turn p Event.destroys (destroy p)
  quits :
      (i : ℕ) (w : Worker A)
      → get_elem? p.workers i ≡ some w
      → Waits w
      → p.stop ≡ true
      → Turn p (Event.works i) (record p { workers = set p.workers i ended })
  sleeps :
      (i : ℕ) (w : Worker A)
      → get_elem? p.workers i ≡ some w
      → Waits w
      → p.stop ≡ false
      → p.tasks ≡ []
      → Turn p (Event.works i) (record p { workers = set p.workers i asleep })
  takes :
      (i : ℕ) (w : Worker A) (a : A) (rest : List A)
      → get_elem? p.workers i ≡ some w
      → Waits w
      → p.stop ≡ false
      → p.tasks ≡ a ∷ rest
      → Turn p
          (Event.works i)
          (record p { workers = set p.workers i (runs a); tasks = rest; begun = p.begun ++ a ∷ [] })
  finishes :
      (i : ℕ) (a : A)
      → get_elem? p.workers i ≡ some (runs a)
      → Turn p (Event.finishes i) (record p { workers = set p.workers i awake })

both : (a b : Bool) → (a && b) ≡ true → (a ≡ true) × (b ≡ true)
both true b e = (refl, e)
both false b e = cc

module _ {ℓ} {A : Type ℓ} where
  took :
      (i : ℕ) (w : Worker A) (ts : List A) (p : ThreadPool A)
      → get_elem? p.workers i ≡ some w
      → Waits w
      → p.tasks ≡ ts
      → Turn p (Event.works i) (take_task i ts p)
  unfolding take_task
  took i w [] p at waits e = elim (Bool-cases p.stop) [
    | inl t ↦
        let u : record p { workers = set p.workers i ended } ≡ take_task i [] p =
          sym (rw (take_task, t) refl) in
        subst (Turn p (Event.works i)) u (quits i w at waits t)
    | inr t ↦
        let u : record p { workers = set p.workers i asleep } ≡ take_task i [] p =
          sym (rw (take_task, t) refl) in
        subst (Turn p (Event.works i)) u (sleeps i w at waits t e)
  ]
  took i w (a ∷ ts) p at waits e = elim (Bool-cases p.stop) [
    | inl t ↦
        let u : record p { workers = set p.workers i ended } ≡ take_task i (a ∷ ts) p =
          sym (rw (take_task, t) refl) in
        subst (Turn p (Event.works i)) u (quits i w at waits t)
    | inr t ↦
        let u : record p {
          workers = set p.workers i (runs a);
          tasks = ts;
          begun = p.begun ++ a ∷ [];
        }
            ≡ take_task i (a ∷ ts) p =
          sym (rw (take_task, t) refl) in
        subst (Turn p (Event.works i)) u (takes i w a ts at waits t e)
  ]

  worked :
      (i : ℕ) (w : Worker A) (p q : ThreadPool A)
      → get_elem? p.workers i ≡ some w
      → work i w p ≡ some q
      → Turn p (Event.works i) q
  unfolding work
  worked i asleep p q at e =
      subst (Turn p (Event.works i)) (some-eq _ q e) (took i asleep p.tasks p at tt refl)
  worked i awake p q at e =
      subst (Turn p (Event.works i)) (some-eq _ q e) (took i awake p.tasks p at tt refl)
  worked i (runs a) p q at e = cc
  worked i ended p q at e = cc

  finished :
      (i : ℕ) (w : Worker A) (p q : ThreadPool A)
      → get_elem? p.workers i ≡ some w
      → finish i w p ≡ some q
      → Turn p (Event.finishes i) q
  unfolding finish
  finished i asleep p q at e = cc
  finished i awake p q at e = cc
  finished i (runs a) p q at e = subst (Turn p (Event.finishes i)) (some-eq _ q e) (finishes i a at)
  finished i ended p q at e = cc

  guarded :
      (b : Bool) (p q : ThreadPool A) → (if b then some p else none) ≡ some q → (b ≡ true) × (p ≡ q)
  guarded true p q e = (refl, some-eq p q e)
  guarded false p q e = cc

  sleeping : (w : Worker A) → (asleep_one w == 1) ≡ true → w ≡ asleep
  sleeping asleep e = refl
  sleeping awake e = cc
  sleeping (runs a) e = cc
  sleeping ended e = cc

  notified :
      (i : Option ℕ) (p q : ThreadPool A) → notify_one i p ≡ some q → Turn p (Event.notifies i) q
  unfolding notify_one
  notified none p q e =
      let (tests, same) = guarded _ _ q e in
      let (t, u) = both (ltb 0 p.due) (sum_of asleep_one p.workers == 0) tests in
      subst (Turn p (Event.notifies none)) same
        (notifies_none (ground (arith, t)) (ground (arith, u)))
  notified (some i) p q e =
      let (w, at, e') = bind-eq_some (get_elem? p.workers i) _ q e in
      let (tests, same) = guarded _ _ q e' in
      let (t, u) = both (ltb 0 p.due) (asleep_one w == 1) tests in
      subst (Turn p (Event.notifies (some i))) same
        (notifies_one i (ground (arith, t)) (at ∙ ap some (sleeping w u)))

  pub step-Turn : (e : Event A) (p q : ThreadPool A) → step e p ≡ some q → Turn p e q
  unfolding step
  step-Turn (Event.posts a) p q e =
      subst (Turn p (Event.posts a)) (some-eq (post a p) q e) (posts a)
  step-Turn (Event.notifies i) p q e = notified i p q e
  step-Turn Event.destroys p q e = subst (Turn p Event.destroys) (some-eq (destroy p) q e) destroys
  step-Turn (Event.works i) p q e =
      let (w, at, e') = bind-eq_some (get_elem? p.workers i) _ q e in worked i w p q at e'
  step-Turn (Event.finishes i) p q e =
      let (w, at, e') = bind-eq_some (get_elem? p.workers i) _ q e in finished i w p q at e'
