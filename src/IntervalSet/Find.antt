-- ===== src/IntervalSet/Find.antt =====
-- `find` and `exists` look an element up among the edges.
use lunchbox.Prelude.{
  ℕ, ◌+◌, ◌≤◌, ◌≡◌, refl, ◌∙◌, Bool, true, false, List, [], ◌∷◌, if◌then◌else◌, arith, Bool-cases,
  inl, inr, subst, ap, sym, none, some,
}
use native.Mathlib.Nat.{le_trans}
use lunchbox.EdgeSet.{Edge, Cursor, rebuild, edge_compare, lower_bound}
use lunchbox.IntervalSet.{IntervalSet, find, find_at, exists}
use lunchbox.IntervalSet.Invariant.{
  Precedes, IsZip, covered, reached, top, inside_of, top_mono, first-le-top,
}
use lunchbox.IntervalSet.Cursors.{HeadBefore, HeadFrom, Split, lower_bound-Split}
use lunchbox.IntervalSet.Insert.{IsValid, contains}

abbrev end_edge : ℕ → Edge
end_edge x = record { first = x; second = false }

-- An edge compares before `(x, false)` exactly when it is reached at `x`.
compare-reached : (p : Edge) (x : ℕ) → edge_compare p (end_edge x) ≡ reached p x
unfolding edge_compare
compare-reached p x = ground arith

reached_of_top :
    (e : Edge) (x : ℕ) → (if e.second then e.first else e.first + 1) ≤ x → reached e x ≡ true
reached_of_top e x t = ground arith

covered-rebuild_reached :
    (b a : List Edge) (x : ℕ)
    → Precedes b
    → top b ≤ x
    → covered false (rebuild b a) x ≡ covered (inside_of b) a x
covered-rebuild_reached [] a x p t = refl
covered-rebuild_reached (e ∷ b) a x p t =
    covered-rebuild_reached b (e ∷ a) x p.3 (top_mono e b p t) ∙ rw (reached_of_top e x t)

top-reached : (b : List Edge) (x : ℕ) → HeadBefore (end_edge x) b → top b ≤ x
top-reached [] x h = omega arith
top-reached (p ∷ b) x h = ground (arith, compare-reached p x)

covered-from : (st : Bool) (a : List Edge) (x : ℕ) → HeadFrom (end_edge x) a → covered st a x ≡ st
covered-from st [] x h = refl
covered-from st (y ∷ a) x h = rw (sym (compare-reached y x) ∙ h)

some_of : (q p : Edge) → q.second ≡ true → (if q.second then some q else none) ≡ some p → q ≡ p
some_of q p opens h = ground arith

none_of : (q p : Edge) → q.second ≡ false → (if q.second then some q else none) ≡ some p → ⊥
none_of q p ends h = ground arith

start_found :
    (p : Edge)
    → elim (if p.second then some p else none) [ none ↦ false | some q ↦ true ] ≡ p.second
start_found p = ground arith

-- `find` answers by the nearest edge before the element.
exists_at-inside :
    (b a : List Edge)
    → IsZip b a
    → elim (find_at b a) [ none ↦ false | some p ↦ true ] ≡ inside_of b
unfolding find_at
exists_at-inside [] [] z = refl
exists_at-inside [] (x ∷ a) z = refl
exists_at-inside (p ∷ b) [] z = sym z.1
exists_at-inside (p ∷ b) (x ∷ a) z = start_found p

-- In a well-formed set `exists` tells exactly whether a value is an element.
pub exists-contains : (x : ℕ) (set : IntervalSet) → IsValid set → exists x set ≡ contains set x
unfolding exists find
exists-contains x set v =
    exists_at-inside c.before c.after split.zip
    ∙ sym (
        covered-rebuild_reached c.before c.after x split.zip.0
          (top-reached c.before x split.head_before)
        ∙ covered-from (inside_of c.before) c.after x split.head_from)
    ∙ ap (λ l. covered false l x) split.same
  where
    c : Cursor
    c = lower_bound set.intervals (end_edge x)

    split : Split (end_edge x) set.intervals c
    split = lower_bound-Split (end_edge x) set.intervals v.edges

abbrev pub OpensTo : ℕ → List Edge → Edge → Type 0
OpensTo x es p =
    (p.second ≡ true) × (p.first ≤ x) × ((y : ℕ) → p.first ≤ y → y ≤ x → covered false es y ≡ true)

from_later : (y x : ℕ) (a : List Edge) → y ≤ x → HeadFrom (end_edge x) a → HeadFrom (end_edge y) a
unfolding edge_compare
from_later y x [] le h = tt
from_later y x (e ∷ a) le h = ground arith

head-OpensTo :
    (x : ℕ) (q : Edge) (b a : List Edge)
    → IsZip (q ∷ b) a
    → HeadBefore (end_edge x) (q ∷ b)
    → HeadFrom (end_edge x) a
    → q.second ≡ true
    → OpensTo x (rebuild (q ∷ b) a) q
head-OpensTo x q b a z h k opens = (opens, starts, through)
  where
    starts : q.first ≤ x
    starts = le_trans (first-le-top q b) (top-reached (q ∷ b) x h)

    through : (y : ℕ) → q.first ≤ y → y ≤ x → covered false (rebuild (q ∷ b) a) y ≡ true
    through y le to =
        covered-rebuild_reached (q ∷ b) a y z.0 (rw opens le)
        ∙ covered-from q.second a y (from_later y x a to k)
        ∙ opens

find_at-OpensTo :
    (x : ℕ) (b a : List Edge) (p : Edge)
    → IsZip b a
    → HeadBefore (end_edge x) b
    → HeadFrom (end_edge x) a
    → find_at b a ≡ some p
    → OpensTo x (rebuild b a) p
unfolding find_at
find_at-OpensTo x b [] p z h k e = cc
find_at-OpensTo x [] (y ∷ a) p z h k e = cc
find_at-OpensTo x (q ∷ b) (y ∷ a) p z h k e = elim (Bool-cases q.second) [
  | inl opens ↦
      subst (λ r. OpensTo x (rebuild (q ∷ b) (y ∷ a)) r) (some_of q p opens e)
        (head-OpensTo x q b (y ∷ a) z h k opens)
  | inr ends ↦ absurd (none_of q p ends e)
]

-- In a well-formed set the edge that `find` returns is a start edge at or before the
-- element, and every number from there to the element is in the set.
pub find-OpensTo :
    (x : ℕ) (set : IntervalSet) (p : Edge)
    → IsValid set
    → find x set ≡ some p
    → OpensTo x set.intervals p
unfolding find
find-OpensTo x set p v h =
    subst (λ l. OpensTo x l p) split.same
      (find_at-OpensTo x c.before c.after p split.zip split.head_before split.head_from h)
  where
    c : Cursor
    c = lower_bound set.intervals (end_edge x)

    split : Split (end_edge x) set.intervals c
    split = lower_bound-Split (end_edge x) set.intervals v.edges
