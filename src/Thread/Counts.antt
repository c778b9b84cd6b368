-- ===== src/Thread/Counts.antt =====
-- How many children are on their way into `run` or in it, against the state that they share.
use lunchbox.Prelude.{
  ℕ, ◌+◌, ◌≤◌, ◌≡◌, ◌≢◌, refl, ◌⊎◌, inl, inr, false, List, some, ◌==◌, get_elem?, sum_of,
  sum_of-ge_two, arith, Bool-cases, ==-true,
}
use lunchbox.Thread.{
  ThreadState, Phase, Child, Owner, stopped, starting, running, stopping, created, registered,
  in_run, left, ended, failed, idle, creating, awaiting, joining, joined,
}

-- Before the end of `init`, and between it and the end of `exit`.
abbrev pub early : Child → ℕ
early c = elim c.phase [ created ↦ 1 | registered ↦ 1 | _ ↦ 0 ]

abbrev pub live : Child → ℕ
live c = elim c.phase [ in_run ↦ 1 | left ↦ 1 | _ ↦ 0 ]

abbrev pub early_now : Owner → ThreadState → ℕ
early_now (awaiting k) starting = 1
early_now _ _ = 0

abbrev pub live_now : ThreadState → ℕ
live_now running = 1
live_now _ = 0

-- What the state says of the child that the owner waits for.
abbrev pub Shows : ThreadState → Phase → Type 0
Shows starting p = (p ≡ created) ⊎ (p ≡ registered)
Shows running p = (p ≡ in_run) ⊎ (p ≡ left)
Shows stopping p = p ≡ ended
Shows stopped p = p ≡ failed

abbrev pub OwnerFits : ThreadState → List Child → Owner → Type 0
OwnerFits st cs idle = Unit {0}
OwnerFits st cs (creating n) = st ≡ starting
OwnerFits st cs (awaiting k) = (c : Child) × (get_elem? cs k ≡ some c) × Shows st c.phase
OwnerFits st cs joining = Unit {0}
OwnerFits st cs joined = st ≢ running

pub record Sound (st : ThreadState) (cs : List Child) (o : Owner) : Type 0 where
  pub earlies : sum_of early cs ≡ early_now o st
  pub lives : sum_of live cs ≡ live_now st
  pub fits : OwnerFits st cs o
  pub calm : (i : ℕ) (c : Child) → get_elem? cs i ≡ some c → c.cancel_requested ≡ false

Shows-active :
    (st : ThreadState) (c : Child)
    → Shows st c.phase
    → early c + live c ≡ early_now (awaiting 0) st + live_now st
Shows-active starting c (inl e) = rw e refl
Shows-active starting c (inr e) = rw e refl
Shows-active running c (inl e) = rw e refl
Shows-active running c (inr e) = rw e refl
Shows-active stopping c e = rw e refl
Shows-active stopped c e = rw e refl

-- There is one child that is early or live at most, and it is the one that the owner waits for.
pub only_one :
    (st : ThreadState) (cs : List Child) (k i : ℕ) (c : Child)
    → Sound st cs (awaiting k)
    → get_elem? cs i ≡ some c
    → early c + live c ≡ 1
    → i ≡ k
only_one st cs k i c v at active = elim (Bool-cases (i == k)) [
  | inl t ↦ ==-true i k t
  | inr t ↦
      let (d, at_k, shows) = v.fits in
      let ne : i ≢ k = (λ e. ground (arith, e, t)) in
      let e2 = sum_of-ge_two early cs i k c d at at_k ne in
      let l2 = sum_of-ge_two live cs i k c d at at_k ne in
      absurd (crowded st cs k v d (Shows-active st d shows) (omega (arith, e2, l2, active)))
]
  where
    crowded :
        (st : ThreadState) (cs : List Child) (k : ℕ)
        → Sound st cs (awaiting k)
        → (d : Child) → early d + live d ≡ early_now (awaiting 0) st + live_now st
        → 1 + (early d + live d) ≤ sum_of early cs + sum_of live cs
        → ⊥
    crowded st cs k v d e le = omega (arith, v.earlies, v.lives, e, le)
