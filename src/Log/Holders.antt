-- ===== src/Log/Holders.antt =====
-- Which events of a flush there can be, and who has the lock in them.
use lunchbox.Prelude.{
  ℕ, ◌≡◌, ◌≢◌, ◌⊎◌, refl, sym, ap, ◌∙◌, subst, inl, inr, true, false, List, [], ◌∷◌, ◌++◌, Option,
  none, some, ◌==◌, ==-true, ==-false, ==-refl, get_elem?, set, some-eq, Bool-cases, arith,
}
use lunchbox.Log.{Text, LogBuffer}
use lunchbox.Log.Flush.{
  Phase, outside, waiting, writing, is_outside, Program, at_phase, take_lock, put, release,
}
use lunchbox.Log.Whole.{Holds, unlocked, locked, spread, bytes_of, is_writing}

pub lock_cases :
    (i : ℕ) (p q : Program) (b : LogBuffer) (ph : Phase) (k : Option ℕ)
    → take_lock i p b ph k ≡ some q
    → (ph ≡ waiting)
      × (k ≡ none)
      × (record p { phases = at_phase i (writing b.buffer) p; lock = some i } ≡ q)
lock_cases i p q b waiting none e = (refl, refl, some-eq _ q e)
lock_cases i p q b waiting (some j) e = absurd cc
lock_cases i p q b outside none e = absurd cc
lock_cases i p q b outside (some j) e = absurd cc
lock_cases i p q b (writing rest) none e = absurd cc
lock_cases i p q b (writing rest) (some j) e = absurd cc

pub put_cases :
    (i : ℕ) (p q : Program) (ph : Phase)
    → put i p ph ≡ some q
    → (c : ℕ) × (rest : Text) × (ph ≡ writing (c ∷ rest))
      × (record p { phases = at_phase i (writing rest) p; stream = p.stream ++ (i, c) ∷ [] } ≡ q)
put_cases i p q (writing (c ∷ rest)) e = (c, rest, refl, some-eq _ q e)
put_cases i p q (writing []) e = absurd cc
put_cases i p q outside e = absurd cc
put_cases i p q waiting e = absurd cc

abbrev pub flushed_log : LogBuffer → LogBuffer
flushed_log b = record b { new_line = true; buffer = [] }

abbrev pub released : ℕ → Program → LogBuffer → Program
released i p b = record p {
  logs = set p.logs i (flushed_log b);
  phases = at_phase i outside p;
  lock = none;
}

pub release_cases :
    (i : ℕ) (p q : Program) (b : LogBuffer) (ph : Phase)
    → release i p b ph ≡ some q
    → (ph ≡ writing []) × (released i p b ≡ q)
release_cases i p q b (writing []) e = (refl, some-eq _ q e)
release_cases i p q b (writing (c ∷ rest)) e = absurd cc
release_cases i p q b outside e = absurd cc
release_cases i p q b waiting e = absurd cc

pub outside-true : (ph : Phase) → is_outside ph ≡ true → ph ≡ outside
outside-true outside e = refl
outside-true waiting e = absurd cc
outside-true (writing rest) e = absurd cc

pub at_phase_own : (i : ℕ) (ph : Phase) (p : Program) → at_phase i ph p i ≡ ph
at_phase_own i ph p = rw (==-refl i) refl

pub at_phase_other : (i j : ℕ) (ph : Phase) (p : Program) → i ≢ j → at_phase i ph p j ≡ p.phases j
at_phase_other i j ph p ne = rw (==-false i j ne) refl

pub same_or_not : (i j : ℕ) → (i ≡ j) ⊎ (i ≢ j)
same_or_not i j = elim (Bool-cases (i == j)) [
  | inl t ↦ inl (==-true i j t)
  | inr t ↦ inr (λ e. ground (arith, e, t))
]

-- Behind a step of thread i no other thread is writing, and thread i is not if it says so.
pub quiet_phases :
    (i : ℕ) (ph : Phase) (p : Program)
    → is_writing ph ≡ false
    → ((j : ℕ) → i ≢ j → is_writing (p.phases j) ≡ false)
    → (j : ℕ) → is_writing (at_phase i ph p j) ≡ false
quiet_phases i ph p h k j = elim (same_or_not i j) [
  | inl e ↦
      subst (λ n. is_writing (at_phase i ph p n) ≡ false) e
        (ap is_writing (at_phase_own i ph p) ∙ h)
  | inr ne ↦ ap is_writing (at_phase_other i j ph p ne) ∙ k j ne
]

pub other_phases :
    (i k : ℕ) (ph ph' : Phase) (p : Program)
    → at_phase i ph p k ≡ ph'
    → ph ≢ ph'
    → (i ≢ k) × (p.phases k ≡ ph')
other_phases i k ph ph' p e ne = elim (same_or_not i k) [
  | inl same ↦ absurd (ne (sym (at_phase_own i ph p) ∙ ap (at_phase i ph p) same ∙ e))
  | inr differs ↦ (differs, sym (at_phase_other i k ph p differs) ∙ e)
]

-- Who is writing has the lock.
pub record Holder (p : Program) (bs : List (ℕ × Text)) (i : ℕ) (left : Text) : Type 0 where
  pub log : LogBuffer
  pub done : Text
  pub at : get_elem? p.logs i ≡ some log
  pub may : (log.blocked == 0) ≡ true
  pub parts : log.buffer ≡ done ++ left
  pub stream : p.stream ≡ spread bs ++ bytes_of i done
  pub others : (j : ℕ) → i ≢ j → is_writing (p.phases j) ≡ false
  pub held : p.lock ≡ some i

writing-eq : (a b : Text) → writing a ≡ writing b → a ≡ b
writing-eq a b e = cc

pub holder :
    (p : Program) (bs : List (ℕ × Text)) (i : ℕ) (left : Text) (k : Option ℕ)
    → p.lock ≡ k
    → Holds p bs k
    → p.phases i ≡ writing left
    → Holder p bs i left
holder p bs i left _ lk (unlocked s quiet) e =
    let no : true ≡ false = ap is_writing (sym e) ∙ quiet i in absurd cc
holder p bs i left _ lk (locked j b done rest at may parts ph s others) e = elim (same_or_not j i) [
  | inl same ↦
      let rest_same : rest ≡ left = writing-eq rest left (sym ph ∙ ap p.phases same ∙ e) in
      subst (λ n. Holder p bs n left) same
        (record {
          log = b;
          done = done;
          at = at;
          may = may;
          parts = parts ∙ ap (λ r. done ++ r) rest_same;
          stream = s;
          others = others;
          held = lk;
        })
  | inr ne ↦ let no : true ≡ false = ap is_writing (sym e) ∙ others i ne in absurd cc
]
