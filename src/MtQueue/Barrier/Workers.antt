-- ===== src/MtQueue/Barrier/Workers.antt =====
-- The workers of a group end together: none leaves while another works or an element is left.
use lunchbox.Prelude.{
  get_elem?-set_cases, get_elem?-lt, ℕ, ◌+◌, ◌<◌, ◌≡◌, ◌≢◌, refl, sym, ap, ◌∙◌, ◌⊎◌, inl, inr, List,
  [], ◌∷◌, none, some, ltb, length, get_elem?, set, replicate, length-set, length-replicate, arith,
  Bool-cases,
}
use lunchbox.MtQueue.{MtQueue, Outcome, waits, fails, returns}
use lunchbox.MtQueue.Barrier.{
  Group, new_group, enter, Woken, wake, Worker, working, in_barrier, finished, Crew, Step, pushes,
  enters, takes, gives_up, Reached, starts, steps,
}
use lunchbox.MtQueue.Barrier.Idle.{
  count_idle, count_idle-set, count_idle-le, count_idle-lt, count_idle-replicate,
  finished-replicate,
}
use lunchbox.MtQueue.Barrier.Wake.{woken-some, woken-none, wakes}

-- The group counts the threads that do not work, and a thread that has left was let go by all.
pub record IsSound {ℓ} {A : Type ℓ} (n : ℕ) (c : Crew A) : Type ℓ where
  pub high : c.group.height ≡ n
  pub sized : length c.workers ≡ n
  pub counted : c.group.waiting ≡ count_idle c.workers
  pub over :
      (i : ℕ) → get_elem? c.workers i ≡ some finished → (c.queue.items ≡ []) × (c.group.waiting ≡ n)

entered : (g g' : Group) → enter g ≡ returns g' → g' ≡ record g { waiting = g.waiting + 1 }
unfolding enter
entered g g' e = elim (Bool-cases (ltb 0 g.height)) [
  | inl t ↦
      let u : enter g ≡ returns (record g { waiting = g.waiting + 1 }) = rw t refl in
      sym (got (sym u ∙ e))
  | inr t ↦ let u : enter g ≡ fails = rw t refl in absurd (no (sym u ∙ e))
]
  where
    got :
        returns (record g { waiting = g.waiting + 1 }) ≡ returns g'
        → record g { waiting = g.waiting + 1 } ≡ g'
    got u = cc

    no : (◌≡◌ {A = Outcome Group} fails (returns g')) → ⊥
    no u = cc

-- Another worker than the one that moves is where it was.
moved :
    (ws : List Worker) (i j : ℕ) (new w : Worker)
    → i < length ws
    → get_elem? (set ws i new) j ≡ some w
    → (new ≡ w) ⊎ (get_elem? ws j ≡ some w)
moved ws i j new w h e = elim (get_elem?-set_cases ws i j new w h e) [
  | inl u ↦ inl u.1
  | inr u ↦ inr u.1
]

module _ {ℓ} {A : Type ℓ} where
  starts-IsSound :
      (n : ℕ) (q : MtQueue A)
      → IsSound n (record { workers = replicate n working; queue = q; group = new_group n })
  unfolding new_group
  starts-IsSound n q = record {
    high = refl;
    sized = length-replicate n working;
    counted = sym (count_idle-replicate n);
    over = λ i e. absurd (finished-replicate n i e);
  }

  -- While a thread works, none has left.
  none_left :
      (n : ℕ) (c : Crew A) (i j : ℕ)
      → IsSound n c
      → get_elem? c.workers i ≡ some working
      → get_elem? c.workers j ≢ some finished
  none_left n c i j s w f =
      omega (arith, (s.over j f).1, s.counted, s.sized, count_idle-lt c.workers i w)

  Step-IsSound : (n : ℕ) (c d : Crew A) → Step c d → IsSound n c → IsSound n d
  Step-IsSound n _ _ (pushes c i x r w e) s = record {
    high = s.high;
    sized = s.sized;
    counted = s.counted;
    over = λ j f. absurd (none_left n c i j s w f);
  }
  Step-IsSound n _ _ (enters c i g w e) s =
      let eq : g ≡ record c.group { waiting = c.group.waiting + 1 } = entered c.group g e in
      record {
        high = ap (λ k. k.height) eq ∙ s.high;
        sized = length-set c.workers i in_barrier ∙ s.sized;
        counted = omega (
          arith,
          ap (λ k. k.waiting) eq,
          s.counted,
          count_idle-set c.workers i working in_barrier w,
        );
        over = λ j f.
            elim (moved c.workers i j in_barrier finished (get_elem?-lt c.workers i working w) f) [
              | inl u ↦ absurd cc
              | inr old ↦ absurd (none_left n c i j s w old)
            ];
      }
  Step-IsSound n _ _ (takes c i x q g w e) s =
      let (front, eq) = woken-some c.queue c.group g q x e in
      record {
        high = ap (λ k. k.height) eq ∙ s.high;
        sized = length-set c.workers i working ∙ s.sized;
        counted = omega (
          arith,
          ap (λ k. k.waiting) eq,
          s.counted,
          count_idle-set c.workers i in_barrier working w,
        );
        over = λ j f.
            elim (moved c.workers i j working finished (get_elem?-lt c.workers i in_barrier w) f) [
              | inl u ↦ absurd cc
              | inr old ↦ let gone = (s.over j old).0 in absurd cc
            ];
      }
  Step-IsSound n _ _ (gives_up c i q g w e) s =
      let (gone, left, eq, full) = woken-none c.queue c.group g q e in
      record {
        high = ap (λ k. k.height) eq ∙ s.high;
        sized = length-set c.workers i finished ∙ s.sized;
        counted = omega (
          arith,
          ap (λ k. k.waiting) eq,
          s.counted,
          count_idle-set c.workers i in_barrier finished w,
        );
        over = λ j f. (left, ap (λ k. k.waiting) eq ∙ full ∙ s.high);
      }

  Reached-IsSound : (n : ℕ) (c : Crew A) → Reached n c → IsSound n c
  Reached-IsSound n _ (starts q) = starts-IsSound n q
  Reached-IsSound n _ (steps c d r st) = Step-IsSound n c d st (Reached-IsSound n c r)

  -- However the threads of a group interleave: when `popBarrier` has returned false to one of them,
  -- the queue is empty and no thread of the group works, so that nothing is left undone.
  pub finished-over :
      (n : ℕ) (c : Crew A) (i j : ℕ)
      → Reached n c
      → get_elem? c.workers i ≡ some finished
      → (c.queue.items ≡ []) × (get_elem? c.workers j ≢ some working)
  finished-over n c i j r f =
      let s = Reached-IsSound n c r in ((s.over i f).0, λ w. none_left n c j i s w f)

  -- However the threads of a group interleave, one that waits in `popBarrier` takes the front
  -- element if there is one. At an empty queue it gets false exactly when no thread of the group
  -- works, and waits otherwise. Its assertion never fails.
  pub wake-cases :
      (n : ℕ) (c : Crew A)
      → Reached n c
      → ((x : A) × (w : Woken A) × (wake c.queue c.group ≡ returns w)
          × (w.value ≡ some x)
          × (c.queue.items ≡ x ∷ w.queue.items))
        ⊎ ((c.queue.items ≡ [])
            × (count_idle c.workers ≡ n)
            × (wake c.queue c.group
                ≡ returns (record { value = none; queue = c.queue; group = c.group })))
        ⊎ ((c.queue.items ≡ []) × (count_idle c.workers < n) × (wake c.queue c.group ≡ waits))
  wake-cases n c r = elim (wakes c.queue c.group) [
    | inl front ↦ inl front
    | inr (inl w) ↦ inr (inr (w.0, omega (arith, w.1, s.counted, s.high), w.2))
    | inr (inr (inl w)) ↦ inr (inl (w.0, omega (arith, w.1, s.counted, s.high), w.2))
    | inr (inr (inr w)) ↦
        absurd (omega (arith, w.1, s.counted, s.high, s.sized, count_idle-le c.workers))
  ]
    where
      s : IsSound n c
      s = Reached-IsSound n c r
