-- ===== src/Thread/Owners.antt =====
-- The events of the owner keep what the state says of the children.
use lunchbox.Prelude.{
  ℕ, suc, ◌≡◌, ◌≢◌, refl, sym, ap, ◌∙◌, subst, inl, inr, true, false, not, List, [], ◌∷◌, none,
  some, ◌==◌, get_elem?, sum_of-append, get_elem?-append_cases, get_elem?-append_last, arith,
  Bool-cases, some-eq, bind-eq_some,
}
use lunchbox.Thread.{
  ThreadState, Child, Owner, System, Event, Created, same_state, stopped, starting, running,
  stopping, created, idle, creating, awaiting, joining, joined, returns, start, create, see_started,
  join, see_ended, set_stopped, step, steps,
}
use lunchbox.Thread.Counts.{early, live, early_now, live_now, Shows, OwnerFits, Sound}
use lunchbox.Thread.Children.{IsSound, NoCancel, NoCancels, child_step-IsSound}
use lunchbox.Thread.Sound.{early_now_after, live_zero}

same_state-true : (a b : ThreadState) → same_state a b ≡ true → a ≡ b
same_state-true stopped stopped e = refl
same_state-true starting starting e = refl
same_state-true running running e = refl
same_state-true stopping stopping e = refl
same_state-true _ _ e = cc

same_state_refl : (a : ThreadState) → same_state a a ≡ true
same_state_refl stopped = refl
same_state_refl starting = refl
same_state_refl running = refl
same_state_refl stopping = refl

same_state-false : (a b : ThreadState) → same_state a b ≡ false → a ≢ b
same_state-false a b e u =
    let t : same_state a b ≡ true = subst (λ x. same_state a x ≡ true) u (same_state_refl a) in cc

owner_moves :
    (st st' : ThreadState) (cs : List Child) (o o' : Owner)
    → Sound st cs o
    → early_now o' st' ≡ early_now o st
    → live_now st' ≡ live_now st
    → OwnerFits st' cs o'
    → Sound st' cs o'
owner_moves st st' cs o o' v es ls fits = record {
  earlies = v.earlies ∙ sym es;
  lives = v.lives ∙ sym ls;
  fits = fits;
  calm = v.calm;
}

start-IsSound : (s : System) → Sound s.state s.children idle → IsSound (start s)
unfolding start
start-IsSound s v = elim (Bool-cases (same_state s.state stopped)) [
  | inl t ↦
      let e : start s ≡ record s { state = starting; owner = creating 10 } = rw (start, t) refl in
      subst IsSound (sym e) (
        owner_moves s.state starting s.children idle (creating 10) v refl
          (ap live_now (sym (same_state-true s.state stopped t))) refl)
  | inr t ↦ let e : start s ≡ returns false s = rw (start, t) refl in subst IsSound (sym e) v
]

create-IsSound :
    (n : ℕ) (r : Created) (s : System)
    → Sound s.state s.children (creating (suc n))
    → IsSound (create n r s)
unfolding create
create-IsSound n Created.success s v =
    let new : Child = record { phase = created; cancel_requested = false } in
    record {
      earlies =
          sum_of-append early s.children (new ∷ [])
          ∙ omega (arith, v.earlies, ap (early_now (awaiting 0)) v.fits);
      lives = sum_of-append live s.children (new ∷ []) ∙ omega (arith, v.lives);
      fits = (
        new,
        get_elem?-append_last s.children new,
        subst (λ u. Shows u created) (sym v.fits) (inl refl),
      );
      calm = λ i c e. elim (get_elem?-append_cases s.children new i c e) [
        | inl u ↦ ap (λ k. k.cancel_requested) (sym u.1)
        | inr u ↦ v.calm i c u
      ];
    }
create-IsSound n Created.again s v = elim (Bool-cases (n == 0)) [
  | inl t ↦
      let e : create n Created.again s ≡ returns false s = rw (create, t) refl in
      subst IsSound (sym e) (owner_moves s.state s.state s.children _ idle v refl refl tt)
  | inr t ↦
      let e : create n Created.again s ≡ record s { owner = creating n } = rw (create, t) refl in
      subst IsSound (sym e)
        (owner_moves s.state s.state s.children _ (creating n) v refl refl v.fits)
]
create-IsSound n Created.error s v =
    owner_moves s.state s.state s.children (creating (suc n)) idle v refl refl tt

-- The wait of `start` is over.
pub see_started_lem :
    (s t : System)
    → see_started s ≡ some t
    → (s.state ≢ starting) × (t ≡ returns (not (same_state s.state stopped)) s)
unfolding see_started
see_started_lem s t e = elim (Bool-cases (same_state s.state starting)) [
  | inl k ↦ let u : see_started s ≡ none = rw (see_started, k) refl in cc
  | inr k ↦
      let u : see_started s ≡ some (returns (not (same_state s.state stopped)) s) =
        rw (see_started, k) refl in
      (same_state-false s.state starting k, some-eq t _ (sym e ∙ u))
]

-- The wait of `join` is over.
pub see_ended_lem :
    (s t : System) → see_ended s ≡ some t → (s.state ≢ running) × (t ≡ record s { owner = joined })
unfolding see_ended
see_ended_lem s t e = elim (Bool-cases (same_state s.state running)) [
  | inl k ↦ let u : see_ended s ≡ none = rw (see_ended, k) refl in cc
  | inr k ↦
      let u : see_ended s ≡ some (record s { owner = joined }) = rw (see_ended, k) refl in
      (same_state-false s.state running k, some-eq t _ (sym e ∙ u))
]

join-IsSound : (s : System) → Sound s.state s.children idle → IsSound (join s)
unfolding join
join-IsSound s v = elim (Bool-cases (same_state s.state stopped)) [
  | inl t ↦ let e : join s ≡ returns false s = rw (join, t) refl in subst IsSound (sym e) v
  | inr t ↦
      let e : join s ≡ record s { owner = joining } = rw (join, t) refl in
      subst IsSound (sym e) (owner_moves s.state s.state s.children idle joining v refl refl tt)
]

step_from :
    (e : Event) (o : Owner) (s t : System)
    → NoCancel e
    → IsSound s
    → s.owner ≡ o
    → step e o s ≡ some t
    → IsSound t
unfolding step set_stopped
step_from Event.calls_start idle s t ok v at e =
    subst IsSound (some-eq (start s) t e) (start-IsSound s (subst (Sound s.state s.children) at v))
step_from (Event.creates r) (creating (suc n)) s t ok v at e =
    subst IsSound (some-eq (create n r s) t e)
      (create-IsSound n r s (subst (Sound s.state s.children) at v))
step_from Event.sees_started (awaiting k) s t ok v at e =
    let (ne, same) = see_started_lem s t e in
    let w : Sound s.state s.children (awaiting k) = subst (Sound s.state s.children) at v in
    subst IsSound (sym same) (
      owner_moves s.state s.state s.children (awaiting k) idle w
        (sym (early_now_after (awaiting k) s.state ne)) refl tt)
step_from Event.calls_join idle s t ok v at e =
    subst IsSound (some-eq (join s) t e) (join-IsSound s (subst (Sound s.state s.children) at v))
step_from Event.sees_ended joining s t ok v at e =
    let (ne, same) = see_ended_lem s t e in
    let w : Sound s.state s.children joining = subst (Sound s.state s.children) at v in
    subst IsSound (sym same) (owner_moves s.state s.state s.children joining joined w refl refl ne)
step_from Event.sets_stopped joined s t ok v at e =
    let w : Sound s.state s.children joined = subst (Sound s.state s.children) at v in
    subst IsSound (some-eq (set_stopped s) t e) (
      owner_moves s.state stopped s.children joined idle w refl (sym (live_zero s.state w.fits)) tt)
step_from Event.calls_cancel o s t ok v at e = absurd ok
step_from (Event.child_does i e) o s t ok v at u =
    let (c, at_i, w) = bind-eq_some (get_elem? s.children i) _ t u in
    child_step-IsSound i c c.phase e s t refl v at_i w
step_from _ _ s t ok v at e = cc

-- Any number of events.
pub steps-IsSound :
    (es : List Event) (s t : System) → NoCancels es → IsSound s → steps es s ≡ some t → IsSound t
unfolding steps
steps-IsSound [] s t ok v e = subst IsSound (some-eq s t e) v
steps-IsSound (x ∷ es) s t ok v e =
    let (u, first, rest) = bind-eq_some (step x s.owner s) (steps es) t e in
    steps-IsSound es u t ok.1 (step_from x s.owner s u ok.0 v refl first) rest
