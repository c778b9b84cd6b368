-- ===== src/Thread/Children.antt =====
-- The events of a child keep what the state says of it.
use lunchbox.Prelude.{
  ℕ, ◌≡◌, refl, subst, inl, true, false, List, [], ◌∷◌, none, some, if◌then◌else◌, get_elem?, arith,
  some-eq,
}
use lunchbox.Thread.{
  Phase, Child, System, Event, ChildEvent, stopped, running, created, registered, in_run, left,
  failed, child_step,
}
use lunchbox.Thread.Counts.{Sound}
use lunchbox.Thread.Sound.{registers-Sound, inits-Sound, leaves_run-Sound, exits-Sound}

abbrev pub IsSound : System → Type 0
IsSound s = Sound s.state s.children s.owner

-- An event that is not a call of `cancel`.
abbrev pub NoCancel : Event → Type 0
NoCancel Event.calls_cancel = ⊥
NoCancel _ = Unit {0}

abbrev pub NoCancels : List Event → Type 0
NoCancels [] = Unit {0}
NoCancels (e ∷ es) = NoCancel e × NoCancels es

became : (s t : System) → some s ≡ some t → IsSound s → IsSound t
became s t e v = subst (λ u. Sound u.state u.children u.owner) (some-eq s t e) v

not_dying :
    (c : Child) (s t : System)
    → c.cancel_requested ≡ false
    → (if c.cancel_requested then some s else none) ≡ some t
    → ⊥
not_dying c s t calm e = ground (arith, calm)

pub child_step-IsSound :
    (i : ℕ) (c : Child) (p : Phase) (e : ChildEvent) (s t : System)
    → c.phase ≡ p
    → IsSound s
    → get_elem? s.children i ≡ some c
    → child_step i c p e s ≡ some t
    → IsSound t
unfolding child_step
child_step-IsSound i c created ChildEvent.registers s t at_p v at e =
    became _ t e (registers-Sound s.state s.children s.owner i c v at at_p)
child_step-IsSound i c registered (ChildEvent.inits true) s t at_p v at e = became _ t e (
    inits-Sound s.state s.children s.owner i c v at running in_run at_p (λ u. cc) (inl refl) refl
      refl)
child_step-IsSound i c registered (ChildEvent.inits false) s t at_p v at e =
    became _ t e
      (inits-Sound s.state s.children s.owner i c v at stopped failed at_p (λ u. cc) refl refl refl)
child_step-IsSound i c in_run ChildEvent.leaves_run s t at_p v at e =
    became _ t e (leaves_run-Sound s.state s.children s.owner i c v at at_p)
child_step-IsSound i c in_run ChildEvent.exits s t at_p v at e =
    became _ t e (exits-Sound s.state s.children s.owner i c v at (rw at_p refl) (rw at_p refl))
child_step-IsSound i c left ChildEvent.exits s t at_p v at e =
    became _ t e (exits-Sound s.state s.children s.owner i c v at (rw at_p refl) (rw at_p refl))
child_step-IsSound i c created ChildEvent.dies s t at_p v at e =
    absurd (not_dying c _ t (v.calm i c at) e)
child_step-IsSound i c registered ChildEvent.dies s t at_p v at e =
    absurd (not_dying c _ t (v.calm i c at) e)
child_step-IsSound i c in_run ChildEvent.dies s t at_p v at e =
    absurd (not_dying c _ t (v.calm i c at) e)
child_step-IsSound i c left ChildEvent.dies s t at_p v at e =
    absurd (not_dying c _ t (v.calm i c at) e)
child_step-IsSound i c _ _ s t at_p v at e = cc
