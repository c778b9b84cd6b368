-- ===== src/Monitor/Waiting.antt =====
-- Waits end by the values that they wait for, and no change of the value is missed.
use lunchbox.Prelude.{
  ℕ, zero, suc, ◌≡◌, refl, sym, ap, ◌∙◌, subst, inl, inr, Bool, true, false, List, [], ◌∷◌, some,
  get_elem?, set, get_elem?-set, ==-refl, get_elem?-set_cases, get_elem?-lt, get_elem?-append_cases,
  Bool-cases, Option-cases, some-eq,
}
use lunchbox.Monitor.{
  Values, Wait, Phase, Waiter, Monitor, new_monitor, wake, notify_all, change, test_of, look,
  begin_wait, increment, decrement, set_value, assign, assign_from, or_with, and_with, resume_phase,
  expire_phase, resume, expire, Call, call, calls, asleep, awake, returned, expired,
}

abbrev pub has_ended {ℓ} : {T : Type ℓ} → Phase T → Bool
has_ended asleep = false
has_ended awake = false
has_ended (returned v) = true
has_ended (expired b) = true

module _ {ℓ} {T : Type ℓ} (o : Values T) where
  -- What a wait's phase says of the value `x` of the monitor: it sleeps only on a value that it does not
  -- wait for, and it has returned with one that it does wait for.
  abbrev pub Fits : Wait T → T → Phase T → Type 0
  Fits w x asleep = test_of o w x ≡ false
  Fits w x awake = Unit {0}
  Fits w x (returned v) = test_of o w v ≡ true
  Fits w x (expired b) = Unit {0}

  abbrev pub AllFit : Monitor T → Type ℓ
  AllFit m = (i : ℕ) (w : Waiter T) → get_elem? m.waiters i ≡ some w → Fits w.wait m.value w.phase

  look-Fits : (w : Wait T) (x : T) → Fits w x (look o w x)
  unfolding look
  look-Fits w x = elim (Bool-cases (test_of o w x)) [ inl t ↦ rw t t | inr t ↦ rw t t ]

  wake-Fits : (w : Wait T) (x y : T) (p : Phase T) → Fits w x p → Fits w y (wake p)
  wake-Fits w x y asleep h = tt
  wake-Fits w x y awake h = tt
  wake-Fits w x y (returned v) h = h
  wake-Fits w x y (expired b) h = tt

  notify_all-Fits :
      (x y : T) (ws : List (Waiter T))
      → ((i : ℕ) (w : Waiter T) → get_elem? ws i ≡ some w → Fits w.wait x w.phase)
      → (i : ℕ) (w : Waiter T) → get_elem? (notify_all ws) i ≡ some w
      → Fits w.wait y w.phase
  notify_all-Fits x y [] h i w e = cc
  notify_all-Fits x y (v ∷ ws) h zero w e =
      subst (λ u. Fits u.wait y u.phase) (some-eq _ w e) (wake-Fits v.wait x y v.phase (h 0 v refl))
  notify_all-Fits x y (v ∷ ws) h (suc i) w e =
      notify_all-Fits x y ws (λ j u e'. h (suc j) u e') i w e

  change-AllFit : (f : T → T) (m : Monitor T) → AllFit m → AllFit (change f m)
  unfolding change
  change-AllFit f m h = notify_all-Fits m.value (f m.value) m.waiters h

  begin_wait-AllFit :
      (w : Wait T) (timed : Bool) (m : Monitor T) → AllFit m → AllFit (begin_wait o w timed m)
  unfolding begin_wait
  begin_wait-AllFit w timed m h i v e = elim (get_elem?-append_cases m.waiters _ i v e) [
    | inl u ↦ subst (λ k. Fits k.wait m.value k.phase) u.1 (look-Fits w m.value)
    | inr u ↦ h i v u
  ]

  resume_phase-Fits :
      (w : Wait T) (x : T) (p : Phase T) → Fits w x p → Fits w x (resume_phase o w x p)
  resume_phase-Fits w x asleep h = look-Fits w x
  resume_phase-Fits w x awake h = look-Fits w x
  resume_phase-Fits w x (returned v) h = h
  resume_phase-Fits w x (expired b) h = tt

  expire_phase-Fits :
      (w : Wait T) (x : T) (p : Phase T) → Fits w x p → Fits w x (expire_phase o w x p)
  expire_phase-Fits w x asleep h = tt
  expire_phase-Fits w x awake h = tt
  expire_phase-Fits w x (returned v) h = h
  expire_phase-Fits w x (expired b) h = tt

  -- One waiter that moves.
  moves-AllFit :
      (m : Monitor T) (i : ℕ) (w : Waiter T) (p : Phase T)
      → AllFit m
      → get_elem? m.waiters i ≡ some w
      → Fits w.wait m.value p
      → AllFit (record m { waiters = set m.waiters i (record w { phase = p }) })
  moves-AllFit m i w p h at fits j v e =
      elim (get_elem?-set_cases m.waiters i j _ v (get_elem?-lt m.waiters i w at) e) [
        | inl u ↦ subst (λ k. Fits k.wait m.value k.phase) u.1 fits
        | inr u ↦ h j v u.1
      ]

  resume-eq :
      (i : ℕ) (m : Monitor T) (w : Waiter T)
      → get_elem? m.waiters i ≡ some w
      → resume o i m ≡ record m {
        waiters = set m.waiters i (record w { phase = resume_phase o w.wait m.value w.phase });
      }
  unfolding resume
  resume-eq i m w at = rw (resume, at) refl

  resume-AllFit : (i : ℕ) (m : Monitor T) → AllFit m → AllFit (resume o i m)
  unfolding resume
  resume-AllFit i m h = elim (Option-cases (get_elem? m.waiters i)) [
    | inl e ↦ let same : resume o i m ≡ m = rw (resume, e) refl in subst AllFit (sym same) h
    | inr (w, at) ↦ subst AllFit (sym (resume-eq i m w at)) (
        moves-AllFit m i w (resume_phase o w.wait m.value w.phase) h at
          (resume_phase-Fits w.wait m.value w.phase (h i w at)))
  ]

  expire-AllFit : (i : ℕ) (m : Monitor T) → AllFit m → AllFit (expire o i m)
  unfolding expire
  expire-AllFit i m h = elim (Option-cases (get_elem? m.waiters i)) [
    | inl e ↦ let same : expire o i m ≡ m = rw (expire, e) refl in subst AllFit (sym same) h
    | inr (w, at) ↦ elim (Bool-cases w.timed) [
      | inl t ↦
          let p : Phase T = expire_phase o w.wait m.value w.phase in
          let same : expire o i m
              ≡ record m { waiters = set m.waiters i (record w { phase = p }) } =
            rw (expire, at, t) refl in
          subst AllFit (sym same)
            (moves-AllFit m i w p h at (expire_phase-Fits w.wait m.value w.phase (h i w at)))
      | inr t ↦ let same : expire o i m ≡ m = rw (expire, at, t) refl in subst AllFit (sym same) h
    ]
  ]

  new_monitor-AllFit : (v : T) → AllFit (new_monitor v)
  unfolding new_monitor
  new_monitor-AllFit v i w e = cc

  awake_only :
      (w : Wait T) (x : T) (p : Phase T)
      → has_ended p ≡ false
      → test_of o w x ≡ true
      → Fits w x p
      → p ≡ awake
  awake_only w x asleep open_ t h = cc
  awake_only w x awake open_ t h = refl
  awake_only w x (returned v) open_ t h = cc
  awake_only w x (expired b) open_ t h = cc

  pub call-AllFit : (c : Call T) (m : Monitor T) → AllFit m → AllFit (call o c m)
  unfolding call increment decrement assign set_value assign_from or_with and_with
  call-AllFit Call.increments m h = change-AllFit o.next m h
  call-AllFit Call.decrements m h = change-AllFit o.previous m h
  call-AllFit (Call.sets v) m h = change-AllFit (λ _. v) m h
  call-AllFit (Call.assigns_from from) m h = change-AllFit (λ _. from.value) m h
  call-AllFit (Call.ors v) m h = change-AllFit (λ x. o.either x v) m h
  call-AllFit (Call.ands v) m h = change-AllFit (λ x. o.both x v) m h
  call-AllFit (Call.waits w) m h = begin_wait-AllFit w false m h
  call-AllFit (Call.waits_timed w) m h = begin_wait-AllFit w true m h
  call-AllFit (Call.resumes i) m h = resume-AllFit i m h
  call-AllFit (Call.expires i) m h = expire-AllFit i m h

  pub calls-AllFit : (cs : List (Call T)) (m : Monitor T) → AllFit m → AllFit (calls o cs m)
  unfolding calls
  calls-AllFit [] m h = h
  calls-AllFit (c ∷ cs) m h = calls-AllFit cs (call o c m) (call-AllFit c m h)

  -- Whatever the threads do with a new monitor, in any order: no thread sleeps on a value that it waits
  -- for, and one that has returned without a timeout did so with a value that it waits for.
  pub calls-Fits :
      (v : T) (cs : List (Call T)) (i : ℕ) (w : Waiter T)
      → get_elem? (calls o cs (new_monitor v)).waiters i ≡ some w
      → Fits w.wait (calls o cs (new_monitor v)).value w.phase
  calls-Fits v cs = calls-AllFit cs (new_monitor v) (new_monitor-AllFit v)

  -- A thread that has not returned yet when the monitor has a value that it waits for has been woken,
  -- and returns that value when it runs next.
  pub calls-resume :
      (v : T) (cs : List (Call T)) (i : ℕ) (w : Waiter T)
      → get_elem? (calls o cs (new_monitor v)).waiters i ≡ some w
      → has_ended w.phase ≡ false
      → test_of o w.wait (calls o cs (new_monitor v)).value ≡ true
      → (w.phase ≡ awake)
        × (get_elem? (resume o i (calls o cs (new_monitor v))).waiters i
            ≡ some (record w { phase = returned (calls o cs (new_monitor v)).value }))
  unfolding look
  calls-resume v cs i w at open_ t =
      let m : Monitor T = calls o cs (new_monitor v) in
      let woken : w.phase ≡ awake =
        awake_only w.wait m.value w.phase open_ t (calls-Fits v cs i w at) in
      let looks : look o w.wait m.value ≡ returned m.value = rw (look, t) refl in
      (
        woken,
        ap (λ n. get_elem? n.waiters i) (resume-eq i m w at)
            ∙ get_elem?-set m.waiters i i _ (get_elem?-lt m.waiters i w at)
            ∙ rw (==-refl i, woken, looks) refl,
      )
