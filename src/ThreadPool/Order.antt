-- ===== src/ThreadPool/Order.antt =====
-- The tasks begin in the order in which they were posted, each once, and none begins in the destructor.
use lunchbox.Prelude.{
  ◌≡◌, refl, sym, ap, ◌∙◌, true, List, [], ◌∷◌, ◌++◌, some, bind-eq_some, append-nil, append_assoc,
  some-eq,
}
use lunchbox.ThreadPool.Turns.{
  Turn, step-Turn, posts, notifies_none, notifies_one, destroys, quits, sleeps, takes, finishes,
}
use lunchbox.ThreadPool.{ThreadPool, Event, post, destroy, step, steps}

module _ {ℓ} {A : Type ℓ} where
  append_cancel : (xs ys zs : List A) → xs ++ ys ≡ xs ++ zs → ys ≡ zs
  append_cancel [] ys zs e = e
  append_cancel (x ∷ xs) ys zs e = append_cancel xs ys zs (cc)

  -- The tasks that the events post.
  abbrev pub posted : List (Event A) → List A
  posted [] = []
  posted (Event.posts a ∷ es) = a ∷ posted es
  posted (Event.notifies i ∷ es) = posted es
  posted (Event.destroys ∷ es) = posted es
  posted (Event.works i ∷ es) = posted es
  posted (Event.finishes i ∷ es) = posted es

  -- An event moves tasks from the queue's front to the tasks that have begun, and posts at its end.
  Turn-posted :
      (e : Event A) (p q : ThreadPool A)
      → Turn p e q
      → q.begun ++ q.tasks ≡ (p.begun ++ p.tasks) ++ posted (e ∷ [])
  unfolding post destroy
  Turn-posted _ p _ (posts a) = sym (append_assoc p.begun p.tasks (a ∷ []))
  Turn-posted _ p _ (notifies_none d n) = sym (append-nil (p.begun ++ p.tasks))
  Turn-posted _ p _ (notifies_one i d at) = sym (append-nil (p.begun ++ p.tasks))
  Turn-posted _ p _ destroys = sym (append-nil (p.begun ++ p.tasks))
  Turn-posted _ p _ (quits i w at x t) = sym (append-nil (p.begun ++ p.tasks))
  Turn-posted _ p _ (sleeps i w at x t e) = sym (append-nil (p.begun ++ p.tasks))
  Turn-posted _ p _ (takes i w a rest at x t e) =
      append_assoc p.begun (a ∷ []) rest
      ∙ ap (λ ts. p.begun ++ ts) (sym e)
      ∙ sym (append-nil (p.begun ++ p.tasks))
  Turn-posted _ p _ (finishes i a at) = sym (append-nil (p.begun ++ p.tasks))

  posted_split :
      (e : Event A) (es : List (Event A)) → posted (e ∷ es) ≡ posted (e ∷ []) ++ posted es
  posted_split (Event.posts a) es = refl
  posted_split (Event.notifies i) es = refl
  posted_split Event.destroys es = refl
  posted_split (Event.works i) es = refl
  posted_split (Event.finishes i) es = refl

  -- Whatever the threads do: the tasks that have begun, in their order, and then the queue are those
  -- from before and then all posted tasks, in the order of the posts. So tasks begin first in, first
  -- out, none is lost from the queue without beginning, and none begins twice.
  pub steps-posted :
      (es : List (Event A)) (p q : ThreadPool A)
      → steps es p ≡ some q
      → q.begun ++ q.tasks ≡ (p.begun ++ p.tasks) ++ posted es
  unfolding steps
  steps-posted [] p q e =
      ap (λ r. r.begun ++ r.tasks) (sym (some-eq p q e)) ∙ sym (append-nil (p.begun ++ p.tasks))
  steps-posted (x ∷ es) p q e =
      let (r, first, rest) = bind-eq_some (step x p) (steps es) q e in
      steps-posted es r q rest
      ∙ ap (λ ts. ts ++ posted es) (Turn-posted x p r (step-Turn x p r first))
      ∙ append_assoc (p.begun ++ p.tasks) (posted (x ∷ [])) (posted es)
      ∙ ap (λ ts. (p.begun ++ p.tasks) ++ ts) (sym (posted_split x es))

  Turn-stop :
      (e : Event A) (p q : ThreadPool A)
      → p.stop ≡ true
      → Turn p e q
      → (q.stop ≡ true) × (q.begun ≡ p.begun)
  unfolding post destroy
  Turn-stop _ p _ s (posts a) = (s, refl)
  Turn-stop _ p _ s (notifies_none d n) = (s, refl)
  Turn-stop _ p _ s (notifies_one i d at) = (s, refl)
  Turn-stop _ p _ s destroys = (refl, refl)
  Turn-stop _ p _ s (quits i w at x t) = (s, refl)
  Turn-stop _ p _ s (sleeps i w at x t e) = (s, refl)
  Turn-stop _ p _ s (takes i w a rest at x t e) = cc
  Turn-stop _ p _ s (finishes i a at) = (s, refl)

  steps-stop :
      (es : List (Event A)) (p q : ThreadPool A)
      → p.stop ≡ true
      → steps es p ≡ some q
      → (q.stop ≡ true) × (q.begun ≡ p.begun)
  unfolding steps
  steps-stop [] p q s e =
      let same : p ≡ q = some-eq p q e in
      (ap (λ r. r.stop) (sym same) ∙ s, ap (λ r. r.begun) (sym same))
  steps-stop (x ∷ es) p q s e =
      let (r, first, rest) = bind-eq_some (step x p) (steps es) q e in
      let (stops, same) = Turn-stop x p r s (step-Turn x p r first) in
      let (stops', same') = steps-stop es r q stops rest in (stops', same' ∙ same)

  -- Once the destructor has set `_stop`, no task begins any more: the tasks that wait then stay in the
  -- queue, with those that are posted later behind them, and are dropped with the pool.
  pub destroy-drops :
      (es : List (Event A)) (p q : ThreadPool A)
      → steps (Event.destroys ∷ es) p ≡ some q
      → (q.begun ≡ p.begun) × (q.tasks ≡ p.tasks ++ posted es)
  unfolding steps destroy
  destroy-drops es p q e =
      let (stops, same) = steps-stop es (destroy p) q refl e in
      (
        same,
        append_cancel p.begun q.tasks (p.tasks ++ posted es) (
            ap (λ b. b ++ q.tasks) (sym same)
            ∙ steps-posted es (destroy p) q e
            ∙ append_assoc p.begun p.tasks (posted es)),
      )
