-- ===== src/IntervalSet/Canonical.antt =====
-- A well-formed set is determined by its elements, so the order of insertions does not matter.
use lunchbox.Prelude.{
  ℕ, ◌+◌, ◌%◌, ◌≤◌, ◌<◌, ◌≡◌, ◌≢◌, refl, sym, ap, ap₂, ◌∙◌, subst, inl, inr, Bool, true, false, not,
  ◌||◌, List, [], ◌∷◌, if◌then◌else◌, size_mod, arith, Bool-cases, le-cases,
}
use lunchbox.EdgeSet.{Edge}
use lunchbox.IntervalSet.{IntervalSet, insert}
use lunchbox.IntervalSet.Invariant.{Alternates, covered, reached, span, floor_after}
use lunchbox.IntervalSet.Insert.{IsValid, contains, within}
use lunchbox.IntervalSet.Place.{contains-insert}

-- The first value that an edge reaches.
abbrev border : Edge → ℕ
border e = if e.second then e.first else e.first + 1

unreached : (e : Edge) (z : ℕ) → z < border e → reached e z ≡ false
unreached e z h = ground arith

reached_at : (e : Edge) → reached e (border e) ≡ true
reached_at e = ground arith

border-lt-next :
    (x y : Edge)
    → y.second ≡ not x.second
    → floor_after x.second x.first ≤ y.first
    → border x < border y
border-lt-next x y e le = elim (Bool-cases x.second) [
  | inl t ↦ ground (arith, t, e, le)
  | inr t ↦ ground (arith, t, e, le)
]

-- Below the border of its first edge, a list covers what it covers at its start.
covered-unreached :
    (inside : Bool) (x : Edge) (es : List Edge) (z : ℕ)
    → z < border x
    → covered inside (x ∷ es) z ≡ inside
covered-unreached inside x es z h = rw (unreached x z h)

-- At its first border a list switches.
covered-border :
    (inside : Bool) (lo : ℕ) (x : Edge) (es : List Edge)
    → Alternates inside lo (x ∷ es)
    → (z : ℕ) → z ≡ border x
    → covered inside (x ∷ es) z ≡ not inside
covered-border inside lo x [] v z e = rw (e, reached_at x) v.0
covered-border inside lo x (y ∷ es) v z e =
    rw (e, reached_at x)
      (covered-unreached x.second y es (border x) (border-lt-next x y v.3.0 v.3.1) ∙ v.0)

-- The edges behind one that is not reached are not reached either.
covered-next :
    (inside : Bool) (lo : ℕ) (x : Edge) (es : List Edge) (z : ℕ)
    → Alternates inside lo (x ∷ es)
    → z < border x
    → covered x.second es z ≡ x.second
covered-next inside lo x [] z v h = refl
covered-next inside lo x (y ∷ es) z v h =
    let above : border x < border y = border-lt-next x y v.3.0 v.3.1 in
    covered-unreached x.second y es z (omega arith)

never_not : (b : Bool) → b ≢ not b
never_not true e = cc
never_not false e = cc

-- Of two lists that cover the same, neither switches first.
border-le :
    (inside : Bool) (lo : ℕ) (x y : Edge) (es es' : List Edge)
    → Alternates inside lo (x ∷ es)
    → ((z : ℕ) → covered inside (x ∷ es) z ≡ covered inside (y ∷ es') z)
    → border y ≤ border x
border-le inside lo x y es es' v h = elim (le-cases (border y) (border x)) [
  | inl le ↦ le
  | inr lt ↦ absurd (
      never_not inside (
        sym (covered-unreached inside y es' (border x) lt)
        ∙ sym (h (border x))
        ∙ covered-border inside lo x es v (border x) refl))
]

same_edge : (x y : Edge) → x.second ≡ y.second → border x ≡ border y → x ≡ y
same_edge x y e b = elim (Bool-cases x.second) [
  | inl t ↦ ground (arith, t, e, b)
  | inr t ↦ ground (arith, t, e, b)
]

reached_from : (e : Edge) (z : ℕ) → border e ≤ z → reached e z ≡ true
reached_from e z h = ground arith

same_tails :
    (inside : Bool) (lo lo' : ℕ) (x y : Edge) (es es' : List Edge) (z : ℕ)
    → Alternates inside lo (x ∷ es)
    → Alternates inside lo' (y ∷ es')
    → covered inside (x ∷ es) z ≡ covered inside (y ∷ es') z
    → x ≡ y
    → covered x.second es z ≡ covered y.second es' z
same_tails inside lo lo' x y es es' z v v' h same = elim (le-cases (border x) z) [
  | inl far ↦
      let here : covered inside (x ∷ es) z ≡ covered x.second es z =
        rw (reached_from x z far) refl in
      let there : covered inside (y ∷ es') z ≡ covered y.second es' z =
        rw (reached_from y z (subst (λ e. border e ≤ z) same far)) refl in
      sym here ∙ h ∙ there
  | inr near ↦
      covered-next inside lo x es z v near
      ∙ ap (λ e. e.second) same
      ∙ sym (covered-next inside lo' y es' z v' (subst (λ e. z < border e) same near))
]

same_edges :
    (inside : Bool) (lo lo' : ℕ) (es es' : List Edge)
    → Alternates inside lo es
    → Alternates inside lo' es'
    → ((z : ℕ) → covered inside es z ≡ covered inside es' z)
    → es ≡ es'
same_edges inside lo lo' [] [] v v' h = refl
same_edges inside lo lo' [] (y ∷ es') v v' h =
    absurd (never_not inside (h (border y) ∙ covered-border inside lo' y es' v' (border y) refl))
same_edges inside lo lo' (x ∷ es) [] v v' h =
    absurd (never_not inside (sym (h (border x)) ∙ covered-border inside lo x es v (border x) refl))
same_edges inside lo lo' (x ∷ es) (y ∷ es') v v' h =
    let low : border y ≤ border x = border-le inside lo x y es es' v h in
    let high : border x ≤ border y = border-le inside lo' y x es' es v' (λ z. sym (h z)) in
    let same : x ≡ y = same_edge x y (v.0 ∙ sym v'.0) (omega arith) in
    ap₂ ◌∷◌ same (
      same_edges x.second (floor_after x.second x.first) (floor_after y.second y.first) es es' v.3
        (subst (λ b. Alternates b (floor_after y.second y.first) es')
          (ap (λ e. e.second) (sym same)) v'.3)
        (λ z.
          same_tails inside lo lo' x y es es' z v v' (h z) same
          ∙ ap (λ e. covered e.second es' z) (sym same)))

-- Two well-formed sets with the same elements have the same edges and the same size.
pub contains_ext :
    (a b : IntervalSet) → IsValid a → IsValid b → ((x : ℕ) → contains a x ≡ contains b x) → a ≡ b
contains_ext a b v w h =
    let same : a.intervals ≡ b.intervals =
      same_edges false 0 0 a.intervals b.intervals v.edges w.edges h in
    let counts : a.count ≡ b.count =
      v.counted ∙ ap (λ es. span false 0 es % size_mod) same ∙ sym w.counted in
    ground (arith, same, counts)

or_swap : (a b c : Bool) → (a || (b || c)) ≡ (b || (a || c))
or_swap true true c = refl
or_swap true false c = refl
or_swap false true c = refl
or_swap false false c = refl

-- Two insertions into a well-formed set, of intervals in the range of `size_t`, give the same edges and
-- the same size in either order.
pub insert_comm :
    (s e s' e' : ℕ) (set : IntervalSet)
    → s ≤ e
    → e < size_mod
    → s' ≤ e'
    → e' < size_mod
    → IsValid set
    → insert s e (insert s' e' set) ≡ insert s' e' (insert s e set)
insert_comm s e s' e' set le hi le' hi' v =
    let one = contains-insert s e set le hi v in
    let other = contains-insert s' e' set le' hi' v in
    let one_last = contains-insert s e (insert s' e' set) le hi other.0 in
    let other_last = contains-insert s' e' (insert s e set) le' hi' one.0 in
    contains_ext (insert s e (insert s' e' set)) (insert s' e' (insert s e set)) one_last.0
      other_last.0
      (λ x.
        one_last.1 x
        ∙ ap (λ b. within s e x || b) (other.1 x)
        ∙ or_swap (within s e x) (within s' e' x) (contains set x)
        ∙ sym (other_last.1 x ∙ ap (λ b. within s' e' x || b) (one.1 x)))
