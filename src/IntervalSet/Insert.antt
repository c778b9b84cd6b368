-- ===== src/IntervalSet/Insert.antt =====
-- `insert` of an interval adds its elements, keeps the edges well formed and counts what is new.
use lunchbox.Prelude.{
  ℕ, ◌+◌, ◌-◌, ◌%◌, ◌≤◌, ◌<◌, ◌≡◌, refl, ◌∙◌, Bool, true, false, ◌||◌, ◌&&◌, List, [], ◌∷◌, leb,
  if◌then◌else◌, size_mod, arith, Bool-cases, inl, inr, add_size, sub_size, sym, ◌⊎◌,
}
use native.Mathlib.Nat.{le_trans}
use lunchbox.EdgeSet.{Edge, rebuild}
use lunchbox.IntervalSet.{IntervalSet, sweep, close_insert, insert_placed}
use lunchbox.IntervalSet.Invariant.{
  Alternates, Precedes, IsZip, covered, span, floor, inside_of, start_of, rebuild-IsZip,
  covered-rebuild, span-rebuild, top-le-floor,
}
use lunchbox.IntervalSet.Tail.{tail-Alternates, tail-covered, tail-span, tail-portion, span-outside}

pub record IsValid (set : IntervalSet) : Type 0 where
  pub edges : Alternates false 0 set.intervals
  pub counted : set.count ≡ span false 0 set.intervals % size_mod

-- The elements of a set.
abbrev pub contains : IntervalSet → ℕ → Bool
contains set x = covered false set.intervals x

abbrev pub within : ℕ → ℕ → ℕ → Bool
within s e x = leb s x && leb x e

pub record Inserted (s e : ℕ) (es : List Edge) (set : IntervalSet) : Type 0 where
  pub valid : IsValid set
  pub covers : (x : ℕ) → contains set x ≡ (within s e x || covered false es x)

abbrev pub IsFrom : ℕ → List Edge → Type 0
IsFrom s [] = Unit {0}
IsFrom s (y ∷ a) = s ≤ y.first

pub covered_below : (st : Bool) (x s : ℕ) (a : List Edge) → IsFrom s a → x < s → covered st a x ≡ st
covered_below st x s [] h lt = refl
covered_below st x s (y ∷ a) h lt = ground arith

pub span-start :
    (v s : ℕ) (a : List Edge) → v ≤ s → Alternates true s a → span true v a ≡ s - v + span true s a
span-start v s [] h k = cc
span-start v s (y ∷ a) h k = omega arith

-- Before the new interval nothing changes.
within_below : (s e x : ℕ) → x < s → (c : Bool) → (within s e x || c) ≡ c
within_below s e x h c = ground arith

-- The count of `insert`, from what its loop has found.
count_lem :
    (s e n portion old new added dropped : ℕ)
    → s ≤ e
    → e < size_mod
    → portion < size_mod
    → n ≡ old % size_mod
    → new + dropped ≡ old + added
    → (added + portion) % size_mod ≡ (dropped + (e + 1 - s)) % size_mod
    → add_size n (sub_size (add_size (sub_size e s) 1) portion) ≡ new % size_mod
count_lem s e n portion old new added dropped order fits small cnt change tail = omega arith

module _ (s e n : ℕ) (order : s ≤ e) (fits : e < size_mod) where
  -- The start edge is new.
  pub insert_fresh :
      (b a : List Edge)
      → IsZip b a
      → inside_of b ≡ false
      → floor b ≤ s
      → IsFrom s a
      → n ≡ span false 0 (rebuild b a) % size_mod
      → Inserted s e (rebuild b a) (
          insert_placed s e n (record {
            at = record { before = record { first = s; second = true } ∷ b; after = a };
            falls_inside = false;
            start = 0;
          }))
  unfolding insert_placed
  insert_fresh b a z out low from cnt = record {
    valid = record {
      edges = rebuild-IsZip b _ (
        z.0,
        (rw out refl, low, omega arith, tail-Alternates order fits order false _ 0 0 a back),
      );
      counted =
          count_lem s e n _ _ _ _ _ order fits
            (tail-portion order fits order false 0 0 a (omega arith)) cnt
            (span-rebuild b a (record { first = s; second = true } ∷ _))
            (rw out (
              omega (
                arith,
                tail-span order fits order false _ 0 0 a back (λ q. cc),
                span-outside 0 (start_of b) a,
              )));
    };
    covers = λ x.
        covered-rebuild (λ c. within s e x || c) x s b a _ z.0 (le_trans (top-le-floor b) low)
          (within_below s e x) (rw out (cover x (Bool-cases (leb s x))));
  }
    where
      back : Alternates false (floor b) a
      back = rw out at z.1

      cover :
          (x : ℕ)
          → (leb s x ≡ true) ⊎ (leb s x ≡ false)
          → (if leb s x then covered true (close_insert e (sweep e false 0 0 a)).0 x else false)
            ≡ (within s e x || covered false a x)
      cover x (inl from_s) = rw from_s (tail-covered order fits order false _ 0 0 a back x)
      cover x (inr before) = rw before (sym (covered_below false x s a from (ground arith)))

  -- The start lies in an interval that is there, or behind its end.
  pub insert_kept :
      (b a0 a : List Edge) (st : Bool) (ovs lo : ℕ)
      → Precedes b
      → inside_of b ≡ true
      → start_of b ≤ s
      → floor b ≤ s
      → Alternates st lo a
      → (st ≡ true → (ovs ≤ lo) × (ovs ≤ e))
      → ((x : ℕ) → (leb x e || covered st a x) ≡ (within s e x || covered true a0 x))
      → span true (start_of b) a0 ≡ s - start_of b + span st ovs a
      → n ≡ span false 0 (rebuild b a0) % size_mod
      → Inserted s e (rebuild b a0) (
          insert_placed s e n
            (record { at = record { before = b; after = a }; falls_inside = st; start = ovs }))
  unfolding insert_placed
  insert_kept b a0 a st ovs lo p ins first low alt o covers spans cnt = record {
    valid = record {
      edges =
          rebuild-IsZip b _
            (p, rw ins (tail-Alternates order fits (le_trans low order) st lo ovs 0 a alt));
      counted =
          count_lem s e n _ _ _ _ _ order fits
            (tail-portion order fits order st ovs 0 a (omega arith)) cnt (span-rebuild b a0 _)
            (rw ins (
              omega (
                arith,
                spans,
                tail-span order fits order st lo ovs 0 a alt o,
                span-start (start_of b) s _ first
                    (tail-Alternates order fits order st lo ovs 0 a alt),
              )));
    };
    covers = λ x.
        covered-rebuild (λ c. within s e x || c) x s b a0 _ p (le_trans (top-le-floor b) low)
          (within_below s e x)
          (rw ins (tail-covered order fits order st lo ovs 0 a alt x ∙ covers x));
  }
