-- ===== src/Thread/Sound.antt =====
-- Without `cancel`, the shared state says where the one child is.
use lunchbox.Prelude.{
  ℕ, ◌+◌, ◌≤◌, ◌≡◌, ◌≢◌, refl, sym, ap, ◌∙◌, subst, inl, inr, List, some, get_elem?, set,
  sum_of-set, sum_of-ge, get_elem?-set, get_elem?-set_cases, get_elem?-lt, arith, ==-refl,
}
use lunchbox.Thread.{
  ThreadState, Phase, Child, Owner, stopped, starting, running, stopping, created, registered,
  in_run, left, ended, idle, creating, awaiting, joining, joined,
}
use lunchbox.Thread.Counts.{early, live, early_now, live_now, Shows, OwnerFits, Sound, only_one}

early_one :
    (o : Owner) (st : ThreadState) → 1 ≤ early_now o st → (early_now o st ≡ 1) × (st ≡ starting)
early_one (awaiting k) starting h = (refl, refl)
early_one (awaiting k) stopped h = absurd (omega arith)
early_one (awaiting k) running h = absurd (omega arith)
early_one (awaiting k) stopping h = absurd (omega arith)
early_one idle st h = absurd (omega arith)
early_one (creating n) st h = absurd (omega arith)
early_one joining st h = absurd (omega arith)
early_one joined st h = absurd (omega arith)

live_one : (st : ThreadState) → 1 ≤ live_now st → st ≡ running
live_one running h = refl
live_one stopped h = absurd (omega arith)
live_one starting h = absurd (omega arith)
live_one stopping h = absurd (omega arith)

pub live_zero : (st : ThreadState) → st ≢ running → live_now st ≡ 0
live_zero running h = absurd (h refl)
live_zero stopped h = refl
live_zero starting h = refl
live_zero stopping h = refl

-- The owner's place while a child moves.
moves-OwnerFits :
    (st st' : ThreadState) (cs : List Child) (o : Owner) (i : ℕ) (c new : Child)
    → Sound st cs o
    → get_elem? cs i ≡ some c
    → early c + live c ≡ 1
    → Shows st' new.phase
    → OwnerFits st' (set cs i new) o
moves-OwnerFits st st' cs idle i c new v at active shows = tt
moves-OwnerFits st st' cs (creating n) i c new v at active shows = absurd (
    omega (
      arith,
      active,
      v.earlies,
      v.lives,
      ap live_now v.fits,
      sum_of-ge early cs i c at,
      sum_of-ge live cs i c at,
    ))
moves-OwnerFits st st' cs (awaiting k) i c new v at active shows =
    let same : i ≡ k = only_one st cs k i c v at active in
    (new, get_elem?-set cs i k new (get_elem?-lt cs i c at) ∙ rw (same, ==-refl k) refl, shows)
moves-OwnerFits st st' cs joining i c new v at active shows = tt
moves-OwnerFits st st' cs joined i c new v at active shows = absurd (
    omega (
      arith,
      active,
      v.earlies,
      v.lives,
      live_zero st v.fits,
      sum_of-ge early cs i c at,
      sum_of-ge live cs i c at,
    ))

moves-Sound :
    (st st' : ThreadState) (cs : List Child) (o : Owner) (i : ℕ) (c new : Child)
    → Sound st cs o
    → get_elem? cs i ≡ some c
    → new.cancel_requested ≡ c.cancel_requested
    → early c + live c ≡ 1
    → early_now o st' + early c ≡ early_now o st + early new
    → live_now st' + live c ≡ live_now st + live new
    → Shows st' new.phase
    → Sound st' (set cs i new) o
moves-Sound st st' cs o i c new v at same active es ls shows = record {
  earlies = omega (arith, es, v.earlies, sum_of-set early cs i c new at);
  lives = omega (arith, ls, v.lives, sum_of-set live cs i c new at);
  fits = moves-OwnerFits st st' cs o i c new v at active shows;
  calm = λ j d e. elim (get_elem?-set_cases cs i j new d (get_elem?-lt cs i c at) e) [
    | inl u ↦ sym (ap (λ k. k.cancel_requested) u.1) ∙ same ∙ v.calm i c at
    | inr u ↦ v.calm j d u.1
  ];
}

pub early_now_after : (o : Owner) (st : ThreadState) → st ≢ starting → early_now o st ≡ 0
early_now_after (awaiting k) starting h = absurd (h refl)
early_now_after (awaiting k) stopped h = refl
early_now_after (awaiting k) running h = refl
early_now_after (awaiting k) stopping h = refl
early_now_after idle st h = refl
early_now_after (creating n) st h = refl
early_now_after joining st h = refl
early_now_after joined st h = refl

module _ (st : ThreadState) (cs : List Child) (o : Owner) (i : ℕ) (c : Child) (v : Sound st cs o)
    (at : get_elem? cs i ≡ some c) where
  pub registers-Sound : c.phase ≡ created → Sound st (set cs i (record c { phase = registered })) o
  registers-Sound e =
      let one : early c ≡ 1 = rw e refl in
      let none_live : live c ≡ 0 = rw e refl in
      let is : (early_now o st ≡ 1) × (st ≡ starting) =
        early_one o st (omega (arith, one, v.earlies, sum_of-ge early cs i c at)) in
      moves-Sound st st cs o i c (record c { phase = registered }) v at refl
        (omega (arith, one, none_live)) (omega (arith, one)) (omega (arith, none_live))
        (subst (λ s. Shows s registered) (sym is.1) (inr refl))

  pub inits-Sound :
      (st' : ThreadState) (p : Phase)
      → c.phase ≡ registered
      → st' ≢ starting
      → Shows st' p
      → early (record c { phase = p }) ≡ 0
      → live (record c { phase = p }) ≡ live_now st'
      → Sound st' (set cs i (record c { phase = p })) o
  inits-Sound st' p e ne shows e0 l0 =
      let one : early c ≡ 1 = rw e refl in
      let none_live : live c ≡ 0 = rw e refl in
      let is : (early_now o st ≡ 1) × (st ≡ starting) =
        early_one o st (omega (arith, one, v.earlies, sum_of-ge early cs i c at)) in
      moves-Sound st st' cs o i c (record c { phase = p }) v at refl (omega (arith, one, none_live))
        (omega (arith, one, is.0, e0, early_now_after o st' ne))
        (omega (arith, none_live, l0, ap live_now is.1)) shows

  pub leaves_run-Sound : c.phase ≡ in_run → Sound st (set cs i (record c { phase = left })) o
  leaves_run-Sound e =
      let none_early : early c ≡ 0 = rw e refl in
      let one : live c ≡ 1 = rw e refl in
      let is : st ≡ running = live_one st (omega (arith, one, v.lives, sum_of-ge live cs i c at)) in
      moves-Sound st st cs o i c (record c { phase = left }) v at refl
        (omega (arith, one, none_early)) (omega (arith, none_early)) (omega (arith, one))
        (subst (λ s. Shows s left) (sym is) (inr refl))

  pub exits-Sound :
      early c ≡ 0 → live c ≡ 1 → Sound stopping (set cs i (record c { phase = ended })) o
  exits-Sound none_early one =
      let is : st ≡ running = live_one st (omega (arith, one, v.lives, sum_of-ge live cs i c at)) in
      moves-Sound st stopping cs o i c (record c { phase = ended }) v at refl
        (omega (arith, one, none_early))
        (omega
          (arith, none_early, early_now_after o st (λ s. cc), early_now_after o stopping (λ s. cc)))
        (omega (arith, one, ap live_now is)) refl
