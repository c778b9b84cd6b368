-- ===== src/IntervalSet/Place.antt =====
-- The cases of `insert`: where the start of the new interval falls.
use lunchbox.Prelude.{
  ℕ, ◌+◌, ◌-◌, ◌%◌, ◌≤◌, ◌<◌, ◌≡◌, refl, ◌∙◌, Bool, true, false, not, ◌||◌, List, [], ◌∷◌, leb, ltb,
  ◌==◌, size_mod, arith, Bool-cases, inl, inr, add_size, le-cases, subst, ap, sym, ◌≢◌,
}
use lunchbox.EdgeSet.{Edge, Cursor, rebuild, edge_compare, lower_bound}
use lunchbox.IntervalSet.{
  IntervalSet, insert_at, insert_placed, place_start, find_previous, place_behind, insert, Placed,
}
use lunchbox.IntervalSet.Invariant.{
  Alternates, IsZip, covered, span, floor, inside_of, start_of, start-le-floor, IsZip-next,
}
use lunchbox.IntervalSet.Cursors.{
  HeadBefore, HeadFrom, Split, insert_edge-at, not_after, lower_bound-Split,
}
use lunchbox.IntervalSet.Tail.{covered_inside, span-outside}
use lunchbox.IntervalSet.Insert.{
  Inserted, IsValid, within, contains, IsFrom, insert_fresh, insert_kept, span-start,
}

abbrev pub start_edge : ℕ → Edge
start_edge s = record { first = s; second = true }

pub before-lt : (p : Edge) (s : ℕ) → edge_compare p (start_edge s) ≡ true → p.first < s
unfolding edge_compare
before-lt p s h = ground arith

pub from-le : (p : Edge) (s : ℕ) → edge_compare p (start_edge s) ≡ false → s ≤ p.first
unfolding edge_compare
from-le p s h = ground arith

start_before : (s : ℕ) (y : Edge) → s < y.first → edge_compare (start_edge s) y ≡ true
unfolding edge_compare
start_before s y h = ground arith

pub HeadFrom-IsFrom : (s : ℕ) (a : List Edge) → HeadFrom (start_edge s) a → IsFrom s a
HeadFrom-IsFrom s [] h = tt
HeadFrom-IsFrom s (y ∷ a) h = from-le y s h

abbrev placed : List Edge → List Edge → Bool → ℕ → Placed
placed b a st ovs = record { at = record { before = b; after = a }; falls_inside = st; start = ovs }

place_behind-inside :
    (s : ℕ) (b : List Edge) (p : Edge) (a : List Edge)
    → p.second ≡ true
    → place_behind s b (p ∷ a) ≡ placed (p ∷ b) a true s
unfolding place_behind
place_behind-inside s b p a h = ground arith

place_behind-fused :
    (s : ℕ) (b : List Edge) (p : Edge) (a : List Edge)
    → p.second ≡ false
    → add_size p.first 1 ≡ s
    → place_behind s b (p ∷ a) ≡ placed b a false 0
unfolding place_behind
place_behind-fused s b p a h k = ground arith

place_behind-fresh :
    (s : ℕ) (b : List Edge) (p : Edge) (a : List Edge)
    → p.second ≡ false
    → add_size p.first 1 ≢ s
    → place_behind s b (p ∷ a) ≡ placed (start_edge s ∷ p ∷ b) a false 0
unfolding place_behind
place_behind-fresh s b p a h k = ground arith

pub Alternates-from :
    (st : Bool) (lo s : ℕ) (a : List Edge) → Alternates st lo a → IsFrom s a → Alternates st s a
Alternates-from st lo s [] k h = k
Alternates-from st lo s (y ∷ a) k h = (k.0, h, k.2, k.3)

IsFrom-tail : (s : ℕ) (x : Edge) (a : List Edge) → IsZip [] (x ∷ a) → s ≤ x.first → IsFrom s a
IsFrom-tail s x [] z h = tt
IsFrom-tail s x (y ∷ a) z h = ground arith

opened_by : (x y : Bool) → x ≡ not y → x ≡ false → y ≡ true
opened_by x y h k = ground arith

module _ (s e n : ℕ) (order : s ≤ e) (fits : e < size_mod) where
  -- The start falls in the interval that `p` opens.
  place_inside :
      (p : Edge) (b a : List Edge)
      → IsZip (p ∷ b) a
      → p.second ≡ true
      → p.first ≤ s
      → IsFrom s a
      → n ≡ span false 0 (rebuild (p ∷ b) a) % size_mod
      → Inserted s e (rebuild (p ∷ b) a) (insert_placed s e n (place_behind s b (p ∷ a)))
  place_inside p b a z opens low from cnt = rw (place_behind-inside s b p a opens) (
      insert_kept s e n order fits (p ∷ b) a a true s s z.0 opens low (ground arith) alt
        (λ q. omega arith) cover (span-start p.first s a low alt) cnt)
    where
      alt : Alternates true s a
      alt =
          Alternates-from true (floor (p ∷ b)) s a
            (subst (λ k. Alternates k (floor (p ∷ b)) a) opens z.1) from

      cover : (x : ℕ) → (leb x e || covered true a x) ≡ (within s e x || covered true a x)
      cover x = elim (le-cases x s) [
        | inl le ↦ ground (arith, covered_inside x s a le alt)
        | inr gt ↦ ground arith
      ]

  -- The start is next to the end `p` of an interval.
  place_fused :
      (p : Edge) (b a : List Edge)
      → IsZip (p ∷ b) a
      → p.second ≡ false
      → p.first < s
      → add_size p.first 1 ≡ s
      → IsFrom s a
      → n ≡ span false 0 (rebuild (p ∷ b) a) % size_mod
      → Inserted s e (rebuild (p ∷ b) a) (insert_placed s e n (place_behind s b (p ∷ a)))
  place_fused p b a z ends low next from cnt = rw (place_behind-fused s b p a ends next) (
      insert_kept s e n order fits b (p ∷ a) a false 0 s z.0.3 opened
        (ground (arith, start-le-floor b)) (omega arith) alt (λ q. cc) cover spans cnt)
    where
      opened : inside_of b ≡ true
      opened = opened_by p.second (inside_of b) z.0.0 ends

      alt : Alternates false s a
      alt =
          Alternates-from false (floor (p ∷ b)) s a
            (subst (λ k. Alternates k (floor (p ∷ b)) a) ends z.1) from

      cover : (x : ℕ) → (leb x e || covered false a x) ≡ (within s e x || covered true (p ∷ a) x)
      cover x = elim (le-cases s x) [ inl le ↦ ground arith | inr gt ↦ ground arith ]

      spans : span true (start_of b) (p ∷ a) ≡ s - start_of b + span false 0 a
      spans = omega (
        arith,
        ap (λ k. span k p.first a) ends,
        span-outside p.first 0 a,
        start-le-floor b,
        z.0.1,
      )

  place_fresh :
      (p : Edge) (b a : List Edge)
      → IsZip (p ∷ b) a
      → p.second ≡ false
      → p.first < s
      → add_size p.first 1 ≢ s
      → IsFrom s a
      → n ≡ span false 0 (rebuild (p ∷ b) a) % size_mod
      → Inserted s e (rebuild (p ∷ b) a) (insert_placed s e n (place_behind s b (p ∷ a)))
  place_fresh p b a z ends low far from cnt =
      rw (place_behind-fresh s b p a ends far)
        (insert_fresh s e n order fits (p ∷ b) a z ends (ground arith) from cnt)

  place-Inserted :
      (b a : List Edge)
      → IsZip b a
      → HeadBefore (start_edge s) b
      → HeadFrom (start_edge s) a
      → n ≡ span false 0 (rebuild b a) % size_mod
      → Inserted s e
          (rebuild b a)
          (insert_placed s e n (place_start s (rebuild b a) (find_previous s b a)))
  unfolding place_start find_previous
  place-Inserted [] [] z h k cnt =
      rw (insert_edge-at (start_edge s) [] [] tt (omega arith) tt)
        (insert_fresh s e n order fits [] [] z refl (omega arith) tt cnt)
  place-Inserted [] (x ∷ a) z h k cnt = elim (Bool-cases (ltb s x.first)) [
    | inl less ↦ rw less (
        rw
          (insert_edge-at (start_edge s) [] (x ∷ a) tt (omega arith)
            (start_before s x (ground arith)))
          (insert_fresh s e n order fits [] (x ∷ a) z refl (omega arith) (from-le x s k) cnt))
    | inr here ↦ rw here (
        place_inside x [] a (IsZip-next [] a x z) z.1.0 (ground arith)
          (IsFrom-tail s x a z (from-le x s k)) cnt)
  ]
  place-Inserted (p ∷ b) a z h k cnt = elim (Bool-cases p.second) [
    | inl opens ↦
        place_inside p b a z opens (omega (arith, before-lt p s h)) (HeadFrom-IsFrom s a k) cnt
    | inr ends ↦ elim (Bool-cases (add_size p.first 1 == s)) [
      | inl next ↦
          place_fused p b a z ends (before-lt p s h) (ground arith) (HeadFrom-IsFrom s a k) cnt
      | inr far ↦
          place_fresh p b a z ends (before-lt p s h) (ground arith) (HeadFrom-IsFrom s a k) cnt
    ]
  ]

  insert_at-Inserted :
      (es : List Edge)
      → Alternates false 0 es
      → n ≡ span false 0 es % size_mod
      → Inserted s e es (insert_at s e n es)
  unfolding insert_at
  insert_at-Inserted [] h cnt =
      rw (not_after (record { first = e; second = false }) (start_edge s) order) (record {
        valid = record {
          edges = (refl, omega arith, omega arith, (refl, order, fits, refl));
          counted = omega arith;
        };
        covers = λ x. ground arith;
      })
  insert_at-Inserted (x ∷ es) h cnt =
      subst
        (λ l.
          Inserted s e l (insert_placed s e n (place_start s l (find_previous s c.before c.after))))
        split.same
        (place-Inserted c.before c.after split.zip split.head_before split.head_from
          (cnt ∙ ap (λ l. span false 0 l % size_mod) (sym split.same)))
    where
      c : Cursor
      c = lower_bound (x ∷ es) (start_edge s)

      split : Split (start_edge s) (x ∷ es) c
      split = lower_bound-Split (start_edge s) (x ∷ es) h

-- `insert` of an interval in the range of `size_t` adds exactly its elements to a well-formed set.
-- The set stays well formed, and its size stays the number of its elements modulo 2 ^ 64.
pub contains-insert :
    (s e : ℕ) (set : IntervalSet)
    → s ≤ e
    → e < size_mod
    → IsValid set
    → IsValid (insert s e set)
      × ((x : ℕ) → contains (insert s e set) x ≡ (within s e x || contains set x))
unfolding insert
contains-insert s e set order fits v = (done.valid, done.covers)
  where
    done : Inserted s e set.intervals (insert_at s e set.count set.intervals)
    done = insert_at-Inserted s e set.count order fits set.intervals v.edges v.counted
