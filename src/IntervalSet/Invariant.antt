-- ===== src/IntervalSet/Invariant.antt =====
-- Edges that alternate and lie apart, which elements they cover, and how many.
use lunchbox.Prelude.{
  ℕ, ◌+◌, ◌-◌, ◌≤◌, ◌<◌, ◌≡◌, Bool, true, false, not, List, [], ◌∷◌, ltb, leb, if◌then◌else◌,
  size_mod, arith, Bool-cases, inl, inr, sym,
}
use native.Mathlib.Nat.{le_trans}
use lunchbox.EdgeSet.{Edge, rebuild}

-- Whether the nearest edge before a place opens an interval.
abbrev pub inside_of : List Edge → Bool
inside_of [] = false
inside_of (x ∷ b) = x.second

-- The least value of an edge behind this one: two intervals have a gap between them.
abbrev pub floor_after : Bool → ℕ → ℕ
floor_after true v = v
floor_after false v = v + 2

abbrev pub floor : List Edge → ℕ
floor [] = 0
floor (x ∷ b) = floor_after x.second x.first

abbrev pub start_of : List Edge → ℕ
start_of [] = 0
start_of (x ∷ b) = x.first

-- The edges behind a place alternate, ascend and fit in a `size_t`.
abbrev pub Alternates : Bool → ℕ → List Edge → Type 0
Alternates inside lo [] = inside ≡ false
Alternates inside lo (x ∷ a) =
    (x.second ≡ not inside)
    × (lo ≤ x.first)
    × (x.first < size_mod)
    × Alternates x.second (floor_after x.second x.first) a

-- The same of the edges before a place, nearest first.
abbrev pub Precedes : List Edge → Type 0
Precedes [] = Unit {0}
Precedes (x ∷ b) =
    (x.second ≡ not (inside_of b)) × (floor b ≤ x.first) × (x.first < size_mod) × Precedes b

abbrev pub IsZip : List Edge → List Edge → Type 0
IsZip b a = Precedes b × Alternates (inside_of b) (floor b) a

-- An edge stands before the element or starts at it.
abbrev pub reached : Edge → ℕ → Bool
reached e x = if e.second then leb e.first x else ltb e.first x

-- Whether the element lies in an interval of these edges.
abbrev pub covered : Bool → List Edge → ℕ → Bool
covered inside [] x = inside
covered inside (e ∷ a) x = if reached e x then covered e.second a x else inside

-- How many elements these edges cover, from `start` on when inside.
abbrev pub span : Bool → ℕ → List Edge → ℕ
span inside start [] = 0
span inside start (e ∷ a) = (if inside then e.first + 1 - start else 0) + span e.second e.first a

pub rebuild-IsZip : (b a : List Edge) → IsZip b a → Alternates false 0 (rebuild b a)
rebuild-IsZip [] a z = z.1
rebuild-IsZip (x ∷ b) a z = rebuild-IsZip b (x ∷ a) (z.0.3, (z.0.0, z.0.1, z.0.2, z.1))

-- Behind the nearest edge before a place.
abbrev pub top : List Edge → ℕ
top [] = 0
top (x ∷ b) = if x.second then x.first else x.first + 1

pub top-le-floor : (b : List Edge) → top b ≤ floor b
top-le-floor [] = omega arith
top-le-floor (x ∷ b) = ground arith

pub first-le-top : (e : Edge) (b : List Edge) → e.first ≤ top (e ∷ b)
first-le-top e b = ground arith

pub top_mono :
    (e : Edge) (b : List Edge) {lo : ℕ} → Precedes (e ∷ b) → top (e ∷ b) ≤ lo → top b ≤ lo
top_mono e b p t = le_trans (top-le-floor b) (le_trans p.1 (le_trans (first-le-top e b) t))

reached-step :
    (f : Bool → Bool) (x lo : ℕ) (e : Edge) (c c' inside : Bool)
    → (if e.second then e.first else e.first + 1) ≤ lo
    → (x < lo → (d : Bool) → f d ≡ d)
    → c' ≡ f c
    → (if reached e x then c' else inside) ≡ f (if reached e x then c else inside)
reached-step f x lo e c c' inside t k h = elim (Bool-cases (reached e x)) [
  | inl yet ↦ rw yet h
  | inr far ↦ rw far (sym (k (ground arith) inside))
]

-- Two lists of edges behind a place that differ by `f` at an element make sets that do.
pub covered-rebuild :
    (f : Bool → Bool) (x lo : ℕ) (b a a' : List Edge)
    → Precedes b
    → top b ≤ lo
    → (x < lo → (c : Bool) → f c ≡ c)
    → covered (inside_of b) a' x ≡ f (covered (inside_of b) a x)
    → covered false (rebuild b a') x ≡ f (covered false (rebuild b a) x)
covered-rebuild f x lo [] a a' p t k h = h
covered-rebuild f x lo (e ∷ b) a a' p t k h =
    covered-rebuild f x lo b (e ∷ a) (e ∷ a') p.3 (top_mono e b p t) k
      (reached-step f x lo e _ _ _ t k h)

pub span-rebuild :
    (b a a' : List Edge)
    → span false 0 (rebuild b a') + span (inside_of b) (start_of b) a
      ≡ span false 0 (rebuild b a) + span (inside_of b) (start_of b) a'
span-rebuild [] a a' = omega arith
span-rebuild (e ∷ b) a a' = omega (arith, span-rebuild b (e ∷ a) (e ∷ a'))

pub start-le-floor : (b : List Edge) → start_of b ≤ floor b
start-le-floor [] = omega arith
start-le-floor (x ∷ b) = ground arith

-- Moving a place on by one edge.
pub IsZip-next : (b a : List Edge) (x : Edge) → IsZip b (x ∷ a) → IsZip (x ∷ b) a
IsZip-next b a x z = ((z.1.0, z.1.1, z.1.2, z.0), z.1.3)

pub Precedes-lt : (x : Edge) (b : List Edge) → Precedes (x ∷ b) → x.first < size_mod
Precedes-lt x b p = p.2
