-- ===== src/ThreadPool/Wakes.antt =====
-- No notification is lost: while tasks wait, the workers do not all sleep.
use lunchbox.Prelude.{
  ℕ, suc, ◌+◌, ◌-◌, ◌<◌, ◌≤◌, ◌≡◌, refl, sym, ap, ◌∙◌, subst, ◌⊎◌, inl, inr, true, false, List, [],
  ◌∷◌, some, bind-eq_some, get_elem?, set, length, length-set, arith, some-eq, sum_of, sum_of-set,
  sum_of-ge, length-replicate, sum_of-replicate,
}
use lunchbox.ThreadPool.{
  Worker, ThreadPool, Event, asleep, awake, runs, ended, asleep_one, new_pool, post, notify_all,
  destroy, step, steps,
}
use lunchbox.ThreadPool.Turns.{
  Turn, step-Turn, posts, notifies_none, notifies_one, destroys, quits, sleeps, takes, finishes,
}

module _ {ℓ} {A : Type ℓ} where
  -- A worker that will test the queue without being woken.
  abbrev pub busy_one : Worker A → ℕ
  busy_one asleep = 0
  busy_one awake = 1
  busy_one (runs a) = 1
  busy_one ended = 0

  abbrev pub ended_one : Worker A → ℕ
  ended_one asleep = 0
  ended_one awake = 0
  ended_one (runs a) = 0
  ended_one ended = 1

  abbrev pub asleeps : ThreadPool A → ℕ
  asleeps p = sum_of asleep_one p.workers

  abbrev pub busies : ThreadPool A → ℕ
  busies p = sum_of busy_one p.workers

  abbrev pub endeds : ThreadPool A → ℕ
  endeds p = sum_of ended_one p.workers

  workers_sum :
      (ws : List (Worker A))
      → sum_of asleep_one ws + sum_of busy_one ws + sum_of ended_one ws ≡ length ws
  workers_sum [] = omega arith
  workers_sum (asleep ∷ ws) = omega (arith, workers_sum ws)
  workers_sum (awake ∷ ws) = omega (arith, workers_sum ws)
  workers_sum (runs a ∷ ws) = omega (arith, workers_sum ws)
  workers_sum (ended ∷ ws) = omega (arith, workers_sum ws)

  -- Tasks wait only while a worker is busy or is about to be woken; no worker has ended yet.
  abbrev pub Awaited : ThreadPool A → Type ℓ
  Awaited p = (endeds p ≡ 0) × ((p.tasks ≡ []) ⊎ (1 ≤ p.due + busies p))

  -- The pool has workers, and while it is not stopped its tasks are awaited; once it is, nobody sleeps.
  pub record IsServed (p : ThreadPool A) : Type ℓ where
    pub manned : 0 < length p.workers
    pub served : ((p.stop ≡ true) × (asleeps p ≡ 0)) ⊎ ((p.stop ≡ false) × Awaited p)

  woken_all : (ws : List (Worker A)) → sum_of asleep_one (notify_all ws) ≡ 0
  woken_all [] = refl
  woken_all (asleep ∷ ws) = omega (arith, woken_all ws)
  woken_all (awake ∷ ws) = omega (arith, woken_all ws)
  woken_all (runs a ∷ ws) = omega (arith, woken_all ws)
  woken_all (ended ∷ ws) = omega (arith, woken_all ws)

  length-notify_all : (ws : List (Worker A)) → length (notify_all ws) ≡ length ws
  length-notify_all [] = refl
  length-notify_all (w ∷ ws) = ap suc (length-notify_all ws)

  -- A worker that becomes busy, in a pool that is not stopped or that is.
  moves-IsServed :
      (p q : ThreadPool A) (i : ℕ) (w new : Worker A)
      → IsServed p
      → get_elem? p.workers i ≡ some w
      → q.workers ≡ set p.workers i new
      → q.stop ≡ p.stop
      → (p.stop ≡ true → asleep_one new ≡ 0)
      → (p.stop ≡ false → (ended_one new ≡ 0) × ((q.tasks ≡ []) ⊎ (1 ≤ q.due + busies q)))
      → IsServed q
  moves-IsServed p q i w new v at ws same stopped_ open_ = record {
    manned = omega (arith, ap length ws, length-set p.workers i new, v.manned);
    served = elim v.served [
      | inl u ↦ inl (
        same ∙ u.0,
        omega (
          arith,
          ap (sum_of asleep_one) ws,
          sum_of-set asleep_one p.workers i w new at,
          u.1,
          stopped_ u.0,
        ),
      )
      | inr u ↦ inr (
        same ∙ u.0,
        (
          omega (
            arith,
            ap (sum_of ended_one) ws,
            sum_of-set ended_one p.workers i w new at,
            u.1.0,
            (open_ u.0).0,
          ),
          (open_ u.0).1,
        ),
      )
    ];
  }

  busy_after :
      (ws : List (Worker A)) (d i : ℕ) (w new : Worker A)
      → get_elem? ws i ≡ some w
      → busy_one new ≡ 1
      → 1 ≤ d + sum_of busy_one (set ws i new)
  busy_after ws d i w new at one =
      omega (arith, sum_of-set busy_one ws i w new at, sum_of-ge busy_one ws i w at, one)

  Turn-IsServed : (e : Event A) (p q : ThreadPool A) → IsServed p → Turn p e q → IsServed q
  unfolding post destroy
  Turn-IsServed _ p _ v (posts a) = record {
    manned = v.manned;
    served = elim v.served [ inl u ↦ inl u | inr u ↦ inr (u.0, (u.1.0, inr (omega arith))) ];
  }
  Turn-IsServed _ p _ v (notifies_none d n) = record {
    manned = v.manned;
    served = elim v.served [
      | inl u ↦ inl u
      | inr u ↦ inr (u.0, (u.1.0, inr (omega (arith, n, u.1.0, workers_sum p.workers, v.manned))))
    ];
  }
  Turn-IsServed _ p _ v (notifies_one i d at) =
      moves-IsServed p _ i asleep awake v at refl refl (λ s. refl)
        (λ s. (refl, inr (busy_after p.workers (p.due - 1) i asleep awake at refl)))
  Turn-IsServed _ p _ v destroys = record {
    manned = omega (arith, length-notify_all p.workers, v.manned);
    served = inl (refl, woken_all p.workers);
  }
  Turn-IsServed _ p _ v (quits i w at x t) =
      moves-IsServed p _ i w ended v at refl refl (λ s. refl) (λ s. cc)
  Turn-IsServed _ p _ v (sleeps i w at x t e) =
      moves-IsServed p _ i w asleep v at refl refl (λ s. cc) (λ s. (refl, inl e))
  Turn-IsServed _ p _ v (takes i w a rest at x t e) =
      moves-IsServed p _ i w (runs a) v at refl refl (λ s. refl)
        (λ s. (refl, inr (busy_after p.workers p.due i w (runs a) at refl)))
  Turn-IsServed _ p _ v (finishes i a at) =
      moves-IsServed p _ i (runs a) awake v at refl refl (λ s. refl)
        (λ s. (refl, inr (busy_after p.workers p.due i (runs a) awake at refl)))

  steps-IsServed :
      (es : List (Event A)) (p q : ThreadPool A) → IsServed p → steps es p ≡ some q → IsServed q
  unfolding steps
  steps-IsServed [] p q v e = subst IsServed (some-eq p q e) v
  steps-IsServed (x ∷ es) p q v e =
      let (r, first, rest) = bind-eq_some (step x p) (steps es) q e in
      steps-IsServed es r q (Turn-IsServed x p r v (step-Turn x p r first)) rest

  new_pool-IsServed : (size : ℕ) → 0 < size → IsServed (new_pool size)
  unfolding new_pool
  new_pool-IsServed size h = record {
    manned = subst (λ n. 0 < n) (sym (length-replicate size awake)) h;
    served = inr (refl, (sum_of-replicate ended_one size awake refl, inl refl));
  }

  -- In a pool with a worker at least, whatever the threads do: before the destructor, if a task waits
  -- then a notification is still to come, or a worker runs or is about to look at the queue. From the
  -- destructor on no worker sleeps, so that `joinAll` waits for no notification.
  pub steps-awaited :
      (size : ℕ) (es : List (Event A)) (p : ThreadPool A)
      → 0 < size
      → steps es (new_pool size) ≡ some p
      → ((p.stop ≡ true) × (asleeps p ≡ 0))
        ⊎ ((p.stop ≡ false) × ((p.tasks ≡ []) ⊎ (1 ≤ p.due + busies p)))
  steps-awaited size es p h e =
      let v = steps-IsServed es (new_pool size) p (new_pool-IsServed size h) e in
      elim v.served [ inl u ↦ inl u | inr u ↦ inr (u.0, u.1.1) ]
