-- ===== src/Thread/Outcomes.antt =====
-- What the owner learns from its calls, as long as it cancels nothing.
use lunchbox.Prelude.{
  ℕ, ◌+◌, ◌≡◌, ◌≢◌, refl, sym, ap, ◌∙◌, subst, ◌⊎◌, inl, inr, true, false, not, List, some,
  get_elem?, sum_of-ge, arith, some-eq,
}
use lunchbox.Thread.{
  ThreadState, Phase, Child, Owner, System, Event, same_state, stopped, starting, running, stopping,
  in_run, left, ended, failed, awaiting, joined, see_started, set_stopped, step, steps, new_thread,
}
use lunchbox.Thread.Counts.{early, live, Shows, OwnerFits, Sound}
use lunchbox.Thread.Sound.{live_zero}
use lunchbox.Thread.Children.{IsSound, NoCancels}
use lunchbox.Thread.Owners.{steps-IsSound, see_started_lem}

new_thread-IsSound : IsSound new_thread
unfolding new_thread
new_thread-IsSound = record { earlies = refl; lives = refl; fits = tt; calm = λ i c e. cc }

-- The child is in `run` or behind it.
abbrev pub WasInitialized : Phase → Type 0
WasInitialized p = (p ≡ in_run) ⊎ ((p ≡ left) ⊎ (p ≡ ended))

started :
    (st : ThreadState) (p : Phase)
    → st ≢ starting
    → Shows st p
    → ((some (not (same_state st stopped)) ≡ some true) × WasInitialized p)
      ⊎ ((some (not (same_state st stopped)) ≡ some false) × (p ≡ failed))
started stopped p ne shows = inr (refl, shows)
started starting p ne shows = absurd (ne refl)
started running p ne (inl e) = inl (refl, inl e)
started running p ne (inr e) = inl (refl, inr (inl e))
started stopping p ne e = inl (refl, inr (inr e))

awaited :
    (o : Owner) (s t : System)
    → s.owner ≡ o
    → step Event.sees_started o s ≡ some t
    → (k : ℕ) × (o ≡ awaiting k) × (see_started s ≡ some t)
unfolding step
awaited (awaiting k) s t at e = (k, refl, e)
awaited _ s t at e = cc

join_done :
    (o : Owner) (s t : System)
    → step Event.sets_stopped o s ≡ some t
    → (o ≡ joined) × (set_stopped s ≡ t)
unfolding step
join_done joined s t e = (refl, some-eq _ t e)
join_done _ s t e = cc

module _ (es : List Event) (s t : System) where
  -- When the wait of `start` ends, without a call of `cancel` before: it returns true exactly if the child
  -- that it has created has got through `init`, and false exactly if its `init` has failed.
  pub start_result :
      NoCancels es
      → steps es new_thread ≡ some s
      → step Event.sees_started s.owner s ≡ some t
      → (k : ℕ) × (c : Child) × (s.owner ≡ awaiting k)
        × (get_elem? t.children k ≡ some c)
        × (((t.result ≡ some true) × WasInitialized c.phase)
            ⊎ ((t.result ≡ some false) × (c.phase ≡ failed)))
  start_result ok runs ends =
      let v : IsSound s = steps-IsSound es new_thread s ok new_thread-IsSound runs in
      let (k, at, e) = awaited s.owner s t refl ends in
      let (ne, same) = see_started_lem s t e in
      let (c, at_k, shows) = subst (OwnerFits s.state s.children) at v.fits in
      (
        k,
        c,
        at,
        ap (λ u. get_elem? u.children k) same ∙ at_k,
        subst
            (λ r.
              ((r ≡ some true) × WasInitialized c.phase) ⊎ ((r ≡ some false) × (c.phase ≡ failed)))
            (ap (λ u. u.result) (sym same)) (started s.state c.phase ne shows),
      )

  -- When `join` ends its wait and returns true, without a call of `cancel` before, no child is between
  -- its creation and its end, and the thread is stopped.
  pub join_result :
      NoCancels es
      → steps es new_thread ≡ some s
      → step Event.sets_stopped s.owner s ≡ some t
      → (t.result ≡ some true)
        × (t.state ≡ stopped)
        × ((i : ℕ) (c : Child) → get_elem? t.children i ≡ some c → early c + live c ≡ 0)
  unfolding set_stopped
  join_result ok runs ends =
      let v : IsSound s = steps-IsSound es new_thread s ok new_thread-IsSound runs in
      let (at, same) = join_done s.owner s t ends in
      let w : Sound s.state s.children joined = subst (Sound s.state s.children) at v in
      (
        ap (λ u. u.result) (sym same),
        ap (λ u. u.state) (sym same),
        λ i c e.
            let at_i : get_elem? s.children i ≡ some c =
              ap (λ u. get_elem? u.children i) same ∙ e in
            omega (
              arith,
              w.earlies,
              w.lives,
              live_zero s.state w.fits,
              sum_of-ge early s.children i c at_i,
              sum_of-ge live s.children i c at_i,
            ),
      )
