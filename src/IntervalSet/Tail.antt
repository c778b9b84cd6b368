-- ===== src/IntervalSet/Tail.antt =====
-- What `insert` leaves behind the start of the new interval: its loop and its last stage.
use lunchbox.Prelude.{
  ℕ, ◌+◌, ◌-◌, ◌%◌, ◌≤◌, ◌<◌, ◌≡◌, refl, ◌∙◌, Bool, true, false, ◌||◌, List, [], ◌∷◌, leb,
  if◌then◌else◌, size_mod, arith, Bool-cases, inl, inr, add_size, sub_size,
}
use lunchbox.EdgeSet.{Edge}
use lunchbox.IntervalSet.{Sweep, sweep, close_insert}
use lunchbox.IntervalSet.Invariant.{Alternates, covered, span}

abbrev IsAbove : ℕ → List Edge → Type 0
IsAbove e [] = Unit {0}
IsAbove e (x ∷ a) = e < x.first

pub Alternates-weaken :
    (st : Bool) (lo lo' : ℕ) (a : List Edge) → lo' ≤ lo → Alternates st lo a → Alternates st lo' a
Alternates-weaken st lo lo' [] h k = k
Alternates-weaken st lo lo' (x ∷ a) h k = (k.0, omega arith, k.2, k.3)

abbrev pub at_sweep : List Edge → Bool → ℕ → ℕ → Sweep
at_sweep a st ovs n = record {
  rest = a;
  inside = st;
  overlapping_start = ovs;
  overlapping_portion = n;
}

pub covered_inside :
    (x : ℕ) (lo : ℕ) (a : List Edge) → x ≤ lo → Alternates true lo a → covered true a x ≡ true
covered_inside x lo [] h k = refl
covered_inside x lo (y ∷ a) h k = ground arith

pub span-outside : (f f' : ℕ) (a : List Edge) → span false f a ≡ span false f' a
span-outside f f' [] = refl
span-outside f f' (x ∷ a) = refl

-- One round of the loop keeps the sum of the portion and of what is still to be counted.
pub sweep_step :
    (st : Bool) (lo ovs n w : ℕ) (y : Edge) (a : List Edge)
    → Alternates st lo (y ∷ a)
    → (st ≡ true → ovs ≤ lo)
    → (span y.second (if st then ovs else y.first) a
          + (if st then add_size n (add_size (sub_size y.first ovs) 1) else n)
          + w)
        % size_mod
      ≡ (span st ovs (y ∷ a) + n + w) % size_mod
sweep_step true lo ovs n w y a k o = ground (arith, o refl, span-outside ovs y.first a)
sweep_step false lo ovs n w y a k o = omega arith

module _ {e s lo' : ℕ} (order : s ≤ e) (fits : e < size_mod) (low : lo' ≤ e) where
  close-Alternates :
      (st : Bool) (lo ovs n : ℕ) (a : List Edge)
      → Alternates st lo a
      → IsAbove e a
      → Alternates true lo' (close_insert e (at_sweep a st ovs n)).0
  unfolding close_insert
  close-Alternates st lo ovs n [] k h = ground arith
  close-Alternates st lo ovs n (x ∷ a) k h = ground (arith, Alternates-weaken true x.first lo' a)

  close-covered :
      (st : Bool) (lo ovs n : ℕ) (a : List Edge)
      → Alternates st lo a
      → IsAbove e a
      → (x : ℕ)
      → covered true (close_insert e (at_sweep a st ovs n)).0 x ≡ (leb x e || covered st a x)
  unfolding close_insert
  close-covered st lo ovs n [] k h x = ground arith
  close-covered st lo ovs n (y ∷ a) k h x = ground (arith, covered_inside x y.first a)

  close-span :
      (st : Bool) (lo ovs n : ℕ) (a : List Edge)
      → Alternates st lo a
      → IsAbove e a
      → (st ≡ true → (ovs ≤ lo) × (ovs ≤ e))
      → let (res, portion) = close_insert e (at_sweep a st ovs n) in
        (span true s res + portion) % size_mod ≡ (span st ovs a + n + (e + 1 - s)) % size_mod
  unfolding close_insert
  close-span true lo ovs n [] k h o = ground arith
  close-span false lo ovs n [] k h o = ground arith
  close-span true lo ovs n (x ∷ a) k h o = ground (arith, o refl)
  close-span false lo ovs n (x ∷ []) k h o = ground arith
  close-span false lo ovs n (x ∷ y ∷ a) k h o = ground arith

  pub tail-Alternates :
      (st : Bool) (lo ovs n : ℕ) (a : List Edge)
      → Alternates st lo a
      → Alternates true lo' (close_insert e (sweep e st ovs n a)).0
  unfolding sweep
  tail-Alternates st lo ovs n [] k = close-Alternates st lo ovs n [] k tt
  tail-Alternates st lo ovs n (x ∷ a) k = elim (Bool-cases (leb x.first e)) [
    | inl within ↦ rw within (tail-Alternates x.second _ _ _ a k.3)
    | inr beyond ↦ rw beyond (close-Alternates st lo ovs n (x ∷ a) k (ground arith))
  ]

  pub tail-covered :
      (st : Bool) (lo ovs n : ℕ) (a : List Edge)
      → Alternates st lo a
      → (x : ℕ)
      → covered true (close_insert e (sweep e st ovs n a)).0 x ≡ (leb x e || covered st a x)
  unfolding sweep
  tail-covered st lo ovs n [] k x = close-covered st lo ovs n [] k tt x
  tail-covered st lo ovs n (y ∷ a) k x = elim (Bool-cases (leb y.first e)) [
    | inl within ↦ rw within (tail-covered y.second _ _ _ a k.3 x ∙ ground arith)
    | inr beyond ↦ rw beyond (close-covered st lo ovs n (y ∷ a) k (ground arith) x)
  ]

  pub tail-span :
      (st : Bool) (lo ovs n : ℕ) (a : List Edge)
      → Alternates st lo a
      → (st ≡ true → (ovs ≤ lo) × (ovs ≤ e))
      → let (res, portion) = close_insert e (sweep e st ovs n a) in
        (span true s res + portion) % size_mod ≡ (span st ovs a + n + (e + 1 - s)) % size_mod
  unfolding sweep
  tail-span st lo ovs n [] k o = close-span st lo ovs n [] k tt o
  tail-span st lo ovs n (y ∷ a) k o = elim (Bool-cases (leb y.first e)) [
    | inl within ↦ rw within (
        tail-span y.second _ _ _ a k.3 (λ q. ground arith)
        ∙ sweep_step st lo ovs n (e + 1 - s) y a k (λ q. (o q).0))
    | inr beyond ↦ rw beyond (close-span st lo ovs n (y ∷ a) k (ground arith) o)
  ]

  pub tail-portion :
      (st : Bool) (ovs n : ℕ) (a : List Edge)
      → n < size_mod
      → (close_insert e (sweep e st ovs n a)).1 < size_mod
  unfolding sweep close_insert
  tail-portion st ovs n [] h = ground arith
  tail-portion st ovs n (y ∷ a) h = elim (Bool-cases (leb y.first e)) [
    | inl within ↦ rw within (tail-portion y.second _ _ a (ground arith))
    | inr beyond ↦ rw beyond (ground arith)
  ]
