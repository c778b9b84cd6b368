-- ===== src/IntervalSet/Erase.antt =====
-- `erase` of an interval removes its elements, keeps the edges well formed and the size right.
use lunchbox.Prelude.{
  ℕ, ◌+◌, ◌%◌, ◌≤◌, ◌<◌, ◌≡◌, refl, ◌∙◌, Bool, true, false, not, ◌&&◌, List, [], ◌∷◌, leb, ltb,
  if◌then◌else◌, size_mod, arith, Bool-cases, inl, inr, add_size, sub_size, le-cases, subst, ap,
  sym,
}
use native.Mathlib.Nat.{le_refl}
use lunchbox.EdgeSet.{Edge, Cursor, rebuild, edge_compare, lower_bound, insert_edge}
use lunchbox.IntervalSet.{IntervalSet, sweep, erase_from, erase_at, erase}
use lunchbox.IntervalSet.Invariant.{
  Alternates, Precedes, IsZip, covered, span, floor, top, inside_of, start_of, rebuild-IsZip,
  covered-rebuild, span-rebuild,
}
use lunchbox.IntervalSet.Cursors.{
  HeadBefore, HeadFrom, HeadAfter, Split, insert_edge-at, lower_bound-Split,
}
use lunchbox.IntervalSet.Tail.{covered_inside, span-outside}
use lunchbox.IntervalSet.Insert.{IsValid, within, contains, IsFrom, covered_below, span-start}
use lunchbox.IntervalSet.Place.{start_edge, before-lt, from-le, Alternates-from}
use lunchbox.IntervalSet.Sweeps.{left_over, removed, Swept, sweep-Swept}

pub record Erased (s e : ℕ) (es : List Edge) (set : IntervalSet) : Type 0 where
  pub valid : IsValid set
  pub covers : (x : ℕ) → contains set x ≡ (not (within s e x) && covered false es x)

-- The count of `erase`, from what its loop has found.
erase_count :
    (n portion old new kept lost : ℕ)
    → portion < size_mod
    → n ≡ old % size_mod
    → new + lost ≡ old + kept
    → (kept + portion) % size_mod ≡ lost % size_mod
    → sub_size n portion ≡ new % size_mod
erase_count n portion old new kept lost small cnt change tail = omega arith

compare_lt : (x y : Edge) → x.first < y.first → edge_compare x y ≡ true
unfolding edge_compare
compare_lt x y h = ground arith

erase_below : (s e x : ℕ) → x < s → (c : Bool) → (not (within s e x) && c) ≡ c
erase_below s e x h c = ground arith

module _ (s e n : ℕ) (order : s ≤ e) (fits : e < size_mod) where
  -- `erase_from` puts what is left behind the edges before the place.
  erase_from_lem :
      (st : Bool) (lo ovs : ℕ) (b a : List Edge)
      → Precedes b
      → top b ≤ e + 1
      → Swept e (floor b) st lo ovs 0 a (sweep e st ovs 0 a)
      → let w = sweep e st ovs 0 a in
        erase_from e n st ovs (record { before = b; after = a })
        ≡ record { intervals = rebuild b (left_over e w); count = sub_size n (removed e w) }
  unfolding erase_from
  erase_from_lem st lo ovs b a p t w = elim (Bool-cases (sweep e st ovs 0 a).inside) [
    | inl ins ↦ rw ins (
        rw
          (insert_edge-at (start_edge (add_size e 1)) b (sweep e st ovs 0 a).rest p
            (rw (w.next ins) t) (w.after ins))
          refl)
    | inr out ↦ rw out refl
  ]

  -- The removal starts between intervals.
  erase_outside :
      (b a : List Edge) (ovs : ℕ)
      → IsZip b a
      → inside_of b ≡ false
      → top b ≤ s
      → IsFrom s a
      → n ≡ span false 0 (rebuild b a) % size_mod
      → Erased s e (rebuild b a) (erase_from e n false ovs (record { before = b; after = a }))
  erase_outside b a ovs z out t from cnt =
      rw (erase_from_lem false (floor b) ovs b a z.0 (omega arith) w) (record {
        valid = record {
          edges = rebuild-IsZip b _ (z.0, rw out w.alternates);
          counted = erase_count n _ _ _ _ _ w.small cnt (span-rebuild b a _) (
              rw out (
                omega (
                  arith,
                  w.spans,
                  span-outside ovs (start_of b) a,
                  span-outside 0 (start_of b) (left_over e (sweep e false ovs 0 a)),
                )));
        };
        covers = λ x.
            covered-rebuild (λ c. not (within s e x) && c) x s b a _ z.0 t (erase_below s e x)
              (rw out (w.covers x ∙ from_start x));
      })
    where
      back : Alternates false (floor b) a
      back = subst (λ k. Alternates k (floor b) a) out z.1

      w : Swept e (floor b) false (floor b) ovs 0 a (sweep e false ovs 0 a)
      w =
          sweep-Swept e (floor b) fits false (floor b) ovs 0 a back (inl (le_refl (floor b)))
            (λ q. cc) (omega arith)

      from_start :
          (x : ℕ) → (not (leb x e) && covered false a x) ≡ (not (within s e x) && covered false a x)
      from_start x = elim (le-cases s x) [
        | inl le ↦ ground arith
        | inr gt ↦ ground (arith, covered_below false x s a from gt)
      ]

  -- The removal starts inside the interval that `p` opens.
  erase_inside :
      (p : Edge) (b a : List Edge)
      → IsZip (p ∷ b) a
      → p.second ≡ true
      → p.first < s
      → IsFrom s a
      → n ≡ span false 0 (rebuild (p ∷ b) a) % size_mod
      → Erased s e (rebuild (p ∷ b) a) (
          erase_from e n true s
            (insert_edge (record { first = sub_size s 1; second = false }) (rebuild (p ∷ b) a)))
  erase_inside p b a z opens low from cnt =
      rw
        (
          insert_edge-at cut (p ∷ b) a z.0 (ground arith) (cut_before a z.1 from),
          erase_from_lem true s s (cut ∷ p ∷ b) a cut_zip (omega arith) w,
        )
        (record {
          valid = record {
            edges =
                rebuild-IsZip (p ∷ b) (cut ∷ _)
                  (z.0, (cut_zip.0, cut_zip.1, cut_zip.2, w.alternates));
            counted = erase_count n _ _ _ _ _ w.small cnt (span-rebuild (p ∷ b) a (cut ∷ _)) (
                rw opens (
                  omega (
                    arith,
                    low,
                    w.spans,
                    span-start p.first s a (omega arith) alt,
                    span-outside 0 (sub_size s 1) (left_over e (sweep e true s 0 a)),
                  )));
          };
          covers = λ x.
              covered-rebuild (λ c. not (within s e x) && c) x s (p ∷ b) a (cut ∷ _) z.0
                (ground arith) (erase_below s e x) (rw opens (cover x));
        })
    where
      cut : Edge
      cut = record { first = sub_size s 1; second = false }

      alt : Alternates true s a
      alt =
          Alternates-from true (floor (p ∷ b)) s a
            (subst (λ k. Alternates k (floor (p ∷ b)) a) opens z.1) from

      cut_before :
          (a : List Edge) → Alternates p.second (floor (p ∷ b)) a → IsFrom s a → HeadAfter cut a
      cut_before [] k f = tt
      cut_before (y ∷ a) k f = compare_lt cut y (ground arith)

      cut_zip : Precedes (cut ∷ p ∷ b)
      cut_zip = (rw opens refl, ground arith, omega arith, z.0)

      w : Swept e (floor (cut ∷ p ∷ b)) true s s 0 a (sweep e true s 0 a)
      w =
          sweep-Swept e (floor (cut ∷ p ∷ b)) fits true s s 0 a alt (inr (omega arith))
            (λ q. omega arith) (omega arith)

      cover :
          (x : ℕ)
          → (if ltb (sub_size s 1) x
              then covered false (left_over e (sweep e true s 0 a)) x
              else true)
            ≡ (not (within s e x) && covered true a x)
      cover x = elim (le-cases s x) [
        | inl le ↦ ground (arith, w.covers x)
        | inr gt ↦ ground (arith, covered_inside x s a (omega arith) alt)
      ]

  erase_at-Erased :
      (b a : List Edge)
      → IsZip b a
      → HeadBefore (start_edge s) b
      → HeadFrom (start_edge s) a
      → n ≡ span false 0 (rebuild b a) % size_mod
      → Erased s e (rebuild b a) (erase_at s e n b a)
  unfolding erase_at
  erase_at-Erased [] [] z h k cnt = record {
    valid = record { edges = refl; counted = cnt };
    covers = λ x. ground arith;
  }
  erase_at-Erased [] (x ∷ a) z h k cnt =
      erase_outside [] (x ∷ a) x.first z refl (omega arith) (from-le x s k) cnt
  erase_at-Erased (p ∷ b) [] z h k cnt = record {
    valid = record { edges = rebuild-IsZip (p ∷ b) [] z; counted = cnt };
    covers = λ x.
        covered-rebuild (λ c. not (within s e x) && c) x s (p ∷ b) [] [] z.0
          (ground (arith, before-lt p s h)) (erase_below s e x) (rw z.1 (ground arith));
  }
  erase_at-Erased (p ∷ b) (x ∷ a) z h k cnt = elim (Bool-cases p.second) [
    | inl opens ↦
        ground (arith, erase_inside p b (x ∷ a) z opens (before-lt p s h) (from-le x s k) cnt)
    | inr ends ↦ ground (
      arith,
      erase_outside (p ∷ b) (x ∷ a) 0 z ends (ground (arith, before-lt p s h)) (from-le x s k) cnt,
    )
  ]

-- `erase` of an interval in the range of `size_t` removes exactly its elements from a well-formed set.
-- The set stays well formed, and its size stays the number of its elements modulo 2 ^ 64.
pub contains-erase :
    (s e : ℕ) (set : IntervalSet)
    → s ≤ e
    → e < size_mod
    → IsValid set
    → IsValid (erase s e set)
      × ((x : ℕ) → contains (erase s e set) x ≡ (not (within s e x) && contains set x))
unfolding erase
contains-erase s e set order fits v = (done.valid, done.covers)
  where
    c : Cursor
    c = lower_bound set.intervals (start_edge s)

    split : Split (start_edge s) set.intervals c
    split = lower_bound-Split (start_edge s) set.intervals v.edges

    done : Erased s e set.intervals (erase_at s e set.count c.before c.after)
    done =
        subst (λ l. Erased s e l (erase_at s e set.count c.before c.after)) split.same
          (erase_at-Erased s e set.count order fits c.before c.after split.zip split.head_before
            split.head_from (v.counted ∙ ap (λ l. span false 0 l % size_mod) (sym split.same)))
