-- ===== src/MtQueue/Barrier/Wake.antt =====
-- When `popBarrier` returns, and what.
use lunchbox.Prelude.{
  ℕ, ◌-◌, ◌<◌, ◌≡◌, refl, sym, ap, ◌∙◌, ◌⊎◌, inl, inr, true, false, List, [], ◌∷◌, none, some, ◌==◌,
  leb, arith, le-cases,
}
use lunchbox.MtQueue.{MtQueue, Outcome, waits, fails, returns}
use lunchbox.MtQueue.Barrier.{Group, Woken, wake, wake_at}

module _ {ℓ} {A : Type ℓ} where
  empty_wakes :
      (max : ℕ) (g : Group)
      → ((g.waiting < g.height) × (wake_at {A = A} [] max g ≡ waits))
        ⊎ ((g.waiting ≡ g.height)
            × (wake_at {A = A} [] max g
                ≡ returns (record {
                  value = none;
                  queue = record { items = []; max_size = max };
                  group = g;
                })))
        ⊎ ((g.height < g.waiting) × (wake_at {A = A} [] max g ≡ fails))
  unfolding wake_at
  empty_wakes max g = elim (le-cases g.height g.waiting) [
    | inr fewer ↦ let t : leb g.height g.waiting ≡ false = ground arith in inl (fewer, rw t)
    | inl enough ↦
        let t : leb g.height g.waiting ≡ true = ground arith in
        elim (le-cases g.waiting g.height) [
          | inl le ↦
              let u : (g.waiting == g.height) ≡ true = ground arith in
              inr (inl (omega arith, rw (t, u)))
          | inr gt ↦
              let u : (g.waiting == g.height) ≡ false = ground arith in inr (inr (gt, rw (t, u)))
        ]
  ]

  -- The value of a call that returns.
  value_or : Woken A → Outcome (Woken A) → Woken A
  value_or d waits = d
  value_or d fails = d
  value_or d (returns w) = w

  returned : (o : Outcome (Woken A)) (a b : Woken A) → o ≡ returns a → o ≡ returns b → a ≡ b
  unfolding value_or
  returned o a b e f = ap (value_or a) (sym e ∙ f)

  abbrev woken : A → List A → ℕ → Group → Woken A
  woken y ys max g = record {
    value = some y;
    queue = record { items = ys; max_size = max };
    group = record g { waiting = g.waiting - 1 };
  }

  -- A call that got an element took the front one and is not counted as waiting any more.
  woken_at_some :
      (items : List A) (max : ℕ) (g g' : Group) (q' : MtQueue A) (x : A)
      → wake_at items max g ≡ returns (record { value = some x; queue = q'; group = g' })
      → (items ≡ x ∷ q'.items) × (g' ≡ record g { waiting = g.waiting - 1 })
  unfolding wake_at
  woken_at_some [] max g g' q' x e = elim (empty_wakes max g) [
    | inl w ↦ cc
    | inr (inl w) ↦ cc
    | inr (inr w) ↦ cc
  ]
  woken_at_some (y ∷ ys) max g g' q' x e =
      let w =
        returned (wake_at (y ∷ ys) max g) (woken y ys max g)
          (record { value = some x; queue = q'; group = g' }) refl e in
      let taken : some y ≡ some x = ap (λ v. v.value) w in
      let left : ys ≡ q'.items = ap (λ v. v.queue.items) w in (cc, sym (ap (λ v. v.group) w))

  woken_at_none :
      (items : List A) (max : ℕ) (g g' : Group) (q' : MtQueue A)
      → wake_at items max g ≡ returns (record { value = none; queue = q'; group = g' })
      → (items ≡ []) × (q'.items ≡ []) × (g' ≡ g) × (g.waiting ≡ g.height)
  unfolding wake_at
  woken_at_none [] max g g' q' e = elim (empty_wakes max g) [
    | inl w ↦ cc
    | inr (inl w) ↦
        let u =
          returned (wake_at [] max g)
            (record { value = none; queue = record { items = []; max_size = max }; group = g })
            (record { value = none; queue = q'; group = g' }) w.1 e in
        (refl, sym (ap (λ v. v.queue.items) u), sym (ap (λ v. v.group) u), w.0)
    | inr (inr w) ↦ cc
  ]
  woken_at_none (y ∷ ys) max g g' q' e = cc

  pub woken-some :
      (q : MtQueue A) (g g' : Group) (q' : MtQueue A) (x : A)
      → wake q g ≡ returns (record { value = some x; queue = q'; group = g' })
      → (q.items ≡ x ∷ q'.items) × (g' ≡ record g { waiting = g.waiting - 1 })
  unfolding wake
  woken-some q g g' q' x e = woken_at_some q.items q.max_size g g' q' x e

  pub woken-none :
      (q : MtQueue A) (g g' : Group) (q' : MtQueue A)
      → wake q g ≡ returns (record { value = none; queue = q'; group = g' })
      → (q.items ≡ []) × (q'.items ≡ []) × (g' ≡ g) × (g.waiting ≡ g.height)
  unfolding wake
  woken-none q g g' q' e = woken_at_none q.items q.max_size g g' q' e

  -- Each outcome of a call from its wait on.
  abbrev pub Wakes : MtQueue A → Group → Type ℓ
  Wakes q g =
      ((x : A) × (w : Woken A) × (wake q g ≡ returns w)
        × (w.value ≡ some x)
        × (q.items ≡ x ∷ w.queue.items))
      ⊎ ((q.items ≡ []) × (g.waiting < g.height) × (wake q g ≡ waits))
      ⊎ ((q.items ≡ [])
          × (g.waiting ≡ g.height)
          × (wake q g ≡ returns (record { value = none; queue = q; group = g })))
      ⊎ ((q.items ≡ []) × (g.height < g.waiting) × (wake q g ≡ fails))

  Wakes-at :
      (items : List A) (max : ℕ) (g : Group) → Wakes (record { items = items; max_size = max }) g
  unfolding wake
  Wakes-at [] max g = elim (empty_wakes max g) [
    | inl w ↦ inr (inl (refl, w.0, w.1))
    | inr (inl w) ↦ inr (inr (inl (refl, w.0, w.1)))
    | inr (inr w) ↦ inr (inr (inr (refl, w.0, w.1)))
  ]
  Wakes-at (x ∷ xs) max g = inl (x, woken x xs max g, refl, refl, refl)

  pub wakes : (q : MtQueue A) (g : Group) → Wakes q g
  wakes q g = Wakes-at q.items q.max_size g
