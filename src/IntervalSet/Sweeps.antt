-- ===== src/IntervalSet/Sweeps.antt =====
-- What the loop of `erase` leaves behind the removed interval, and what it counts.
use lunchbox.Prelude.{
  ℕ, ◌+◌, ◌%◌, ◌≤◌, ◌<◌, ◌≡◌, refl, ◌∙◌, Bool, true, false, not, ◌&&◌, List, [], ◌∷◌, leb,
  if◌then◌else◌, size_mod, arith, Bool-cases, inl, inr, ◌⊎◌, add_size, sub_size,
}
use lunchbox.EdgeSet.{Edge, edge_compare}
use lunchbox.IntervalSet.{Sweep, sweep}
use lunchbox.IntervalSet.Invariant.{Alternates, covered, span, floor_after}
use lunchbox.IntervalSet.Cursors.{HeadAfter}
use lunchbox.IntervalSet.Tail.{at_sweep, sweep_step}
use lunchbox.IntervalSet.Insert.{within}
use lunchbox.IntervalSet.Place.{start_edge}

-- What stands behind the removed interval, and how much of the set it overlaps.
abbrev pub left_over : ℕ → Sweep → List Edge
left_over e w = if w.inside then start_edge (add_size e 1) ∷ w.rest else w.rest

abbrev pub removed : ℕ → Sweep → ℕ
removed e w =
    if w.inside
    then add_size w.overlapping_portion (add_size (sub_size e w.overlapping_start) 1)
    else w.overlapping_portion

-- What the sweep guarantees from its state on.
pub record Swept (e lo' : ℕ) (st : Bool) (lo ovs n : ℕ) (a : List Edge) (w : Sweep) : Type 0 where
  pub alternates : Alternates false lo' (left_over e w)
  pub covers : (x : ℕ) → covered false (left_over e w) x ≡ (not (leb x e) && covered st a x)
  pub spans :
      (span false 0 (left_over e w) + removed e w) % size_mod ≡ (span st ovs a + n) % size_mod
  pub after : w.inside ≡ true → HeadAfter (start_edge (add_size e 1)) w.rest
  pub small : removed e w < size_mod
  pub next : w.inside ≡ true → add_size e 1 ≡ e + 1

module _ (e lo' : ℕ) (fits : e < size_mod) where
  Swept-stop :
      (st : Bool) (lo ovs n : ℕ) (x : Edge) (a : List Edge)
      → Alternates st lo (x ∷ a)
      → e < x.first
      → (lo' ≤ lo) ⊎ (lo' ≤ e + 1)
      → (st ≡ true → (lo' ≤ e + 1) × (ovs ≤ lo) × (ovs ≤ e))
      → n < size_mod
      → Swept e lo' st lo ovs n (x ∷ a) (at_sweep (x ∷ a) st ovs n)
  unfolding edge_compare
  Swept-stop true lo ovs n x a k above l o small = record {
    alternates = (refl, omega (arith, o refl), omega arith, (k.0, omega arith, k.2, k.3));
    covers = λ y. ground arith;
    spans = ground (arith, o refl);
    after = λ q. ground arith;
    small = omega arith;
    next = λ q. ground arith;
  }
  Swept-stop false lo ovs n x a k above l o small = record {
    alternates = ground arith;
    covers = λ y. ground arith;
    spans = omega (arith);
    after = λ q. cc;
    small = omega arith;
    next = λ q. cc;
  }

  pub sweep-Swept :
      (st : Bool) (lo ovs n : ℕ) (a : List Edge)
      → Alternates st lo a
      → (lo' ≤ lo) ⊎ (lo' ≤ e + 1)
      → (st ≡ true → (lo' ≤ e + 1) × (ovs ≤ lo) × (ovs ≤ e))
      → n < size_mod
      → Swept e lo' st lo ovs n a (sweep e st ovs n a)
  unfolding sweep
  sweep-Swept st lo ovs n [] k l o small = rw k (record {
    alternates = refl;
    covers = λ y. ground arith;
    spans = refl;
    after = λ q. cc;
    small = small;
    next = λ q. cc;
  })
  sweep-Swept st lo ovs n (x ∷ a) k l o small = elim (Bool-cases (leb x.first e)) [
    | inl within ↦ rw within (
        later within
          (sweep-Swept x.second _ _ _ a k.3 (ground arith) (λ q. ground arith) (ground arith)))
    | inr beyond ↦ rw beyond (Swept-stop st lo ovs n x a k (ground arith) l o small)
  ]
    where
      later :
          {w : Sweep}
          → leb x.first e ≡ true
          → Swept e lo' x.second
              (floor_after x.second x.first)
              (if st then ovs else x.first)
              (if st then add_size n (add_size (sub_size x.first ovs) 1) else n)
              a
              w
          → Swept e lo' st lo ovs n (x ∷ a) w
      later within r = record {
        alternates = r.alternates;
        covers = λ y. r.covers y ∙ ground arith;
        spans = omega (arith, r.spans, sweep_step st lo ovs n 0 x a k (λ q. (o q).1));
        after = r.after;
        small = r.small;
        next = r.next;
      }
