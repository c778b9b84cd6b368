-- ===== src/IntervalSet/Whole.antt =====
-- The operations on whole sets: `swap` leaves the sizes behind, and `insert(rhs)` takes the kind of
-- an edge for the end of an interval.
use lunchbox.Prelude.{
  ℕ, ◌<◌, ◌≡◌, ◌≢◌, refl, ◌∙◌, Bool, true, false, List, [], ◌∷◌, leb, if◌then◌else◌, arith,
  Bool-cases, inl, inr, sym, none,
}
use lunchbox.EdgeSet.{Edge}
use lunchbox.IntervalSet.{IntervalSet, swap, size, insert, insert_edges, insert_set, clear, empty}
use lunchbox.IntervalSet.Invariant.{Alternates, covered, reached, floor_after}
use lunchbox.IntervalSet.Insert.{IsValid, contains}

-- A cleared set is well formed, empty and without elements.
pub clear-empty :
    (set : IntervalSet)
    → IsValid (clear set) × (empty (clear set) ≡ true) × ((x : ℕ) → contains (clear set) x ≡ false)
unfolding clear empty size
clear-empty set = (record { edges = refl; counted = refl }, refl, λ x. refl)

-- `swap` exchanges the elements of two well-formed sets of different sizes, and not the sizes, so
-- that neither is well formed behind it.
pub swap-IsValid :
    (set rhs : IntervalSet)
    → IsValid set
    → IsValid rhs
    → size set ≢ size rhs
    → ((x : ℕ) → contains (swap set rhs).0 x ≡ contains rhs x)
      × ((x : ℕ) → contains (swap set rhs).1 x ≡ contains set x)
      × (¬ IsValid (swap set rhs).0)
      × (¬ IsValid (swap set rhs).1)
unfolding swap size
swap-IsValid set rhs v w ne =
    (λ x. refl, λ x. refl, λ k. ne (k.counted ∙ sym w.counted), λ k. ne (v.counted ∙ sym k.counted))

insert_edges-none :
    (st : Bool) (lo x : ℕ) (es : List Edge) (set : IntervalSet)
    → Alternates st lo es
    → 1 < x
    → covered st es x ≡ true
    → insert_edges es set ≡ none
unfolding insert_edges
insert_edges-none st lo x [] set k big h = absurd (true_false h k)
  where
    true_false : {b : Bool} → b ≡ true → b ≡ false → ⊥
    true_false p q = cc
insert_edges-none st lo x (y ∷ es) set k big h =
    elim (Bool-cases (leb y.first (if y.second then 1 else 0))) [
      | inl holds ↦ rw holds (
          insert_edges-none y.second (floor_after y.second y.first) x es
            (insert y.first (if y.second then 1 else 0) set) k.3 big (rw (passed y holds) at h))
      | inr fails ↦ rw fails
    ]
  where
    passed : (e : Edge) → leb e.first (if e.second then 1 else 0) ≡ true → reached e x ≡ true
    passed e p = ground arith

-- `insert(rhs)` of a well-formed set with an element above 1 fails the assertion on its interval.
pub insert_set-none :
    (rhs set : IntervalSet) (x : ℕ)
    → IsValid rhs
    → 1 < x
    → contains rhs x ≡ true
    → insert_set rhs set ≡ none
unfolding insert_set
insert_set-none rhs set x v big h = insert_edges-none false 0 x rhs.intervals set v.edges big h
