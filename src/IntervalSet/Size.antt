-- ===== src/IntervalSet/Size.antt =====
-- `size` is the number of elements.
use lunchbox.Prelude.{
  ℕ, zero, suc, ◌+◌, ◌-◌, ◌%◌, ◌≤◌, ◌<◌, ◌≡◌, refl, ◌∙◌, Bool, true, false, not, List, [], ◌∷◌,
  if◌then◌else◌, size_mod, arith, ap, ap₂, sym,
}
use native.Mathlib.Nat.{zero-add, suc-add, le_refl}
use lunchbox.EdgeSet.{Edge}
use lunchbox.IntervalSet.{IntervalSet, size}
use lunchbox.IntervalSet.Invariant.{Alternates, covered, reached, span, floor_after}
use lunchbox.IntervalSet.Tail.{span-outside}
use lunchbox.IntervalSet.Insert.{IsValid, contains}

-- How many of the `k` numbers from `start` on pass the test.
pub count_range : (ℕ → Bool) → ℕ → ℕ → ℕ
count_range f start zero = 0
count_range f start (suc k) = (if f start then 1 else 0) + count_range f (start + 1) k

count_range-add :
    (f : ℕ → Bool) (m start mid n : ℕ)
    → start + m ≡ mid
    → count_range f start (m + n) ≡ count_range f start m + count_range f mid n
unfolding count_range
count_range-add f zero start mid n e =
    let e' : start ≡ mid = omega arith in
    ap (λ k. count_range f start k) (zero-add n) ∙ rw (e', zero-add)
count_range-add f (suc m) start mid n e =
    ap (λ k. count_range f start k) (suc-add m n)
    ∙ omega (arith, count_range-add f m (start + 1) mid n (omega arith))

count_range-const :
    (f : ℕ → Bool) (c : Bool) (k start : ℕ)
    → ((x : ℕ) → start ≤ x → x < start + k → f x ≡ c)
    → count_range f start k ≡ (if c then k else 0)
unfolding count_range
count_range-const f c zero start h = ground arith
count_range-const f c (suc k) start h = ground (
  arith,
  h start (omega arith) (omega arith),
  count_range-const f c k (start + 1) (λ x lo hi. h x (omega arith) (omega arith)),
)

pub count_range-ext :
    (f g : ℕ → Bool) (k start : ℕ)
    → ((x : ℕ) → start ≤ x → f x ≡ g x)
    → count_range f start k ≡ count_range g start k
unfolding count_range
count_range-ext f g zero start h = refl
count_range-ext f g (suc k) start h =
    rw (h start (omega arith), count_range-ext f g k (start + 1) (λ x lo. h x (omega arith)))

-- Where the elements that an edge opens or closes begin.
abbrev border : Edge → ℕ
border e = if e.second then e.first else e.first + 1

unreached : (e : Edge) (x : ℕ) → x < border e → reached e x ≡ false
unreached e x h = ground arith

reached-border : (e : Edge) (x : ℕ) → border e ≤ x → reached e x ≡ true
reached-border e x h = ground arith

border-bounds :
    (st : Bool) (lo : ℕ) (y : Edge) (es : List Edge)
    → Alternates st lo (y ∷ es)
    → (lo ≤ border y) × (border y ≤ size_mod) × (border y ≤ floor_after y.second y.first)
border-bounds st lo y es h = border_of y (h.1) (h.2)
  where
    border_of :
        (y : Edge)
        → lo ≤ y.first
        → y.first < size_mod
        → (lo ≤ border y) × (border y ≤ size_mod) × (border y ≤ floor_after y.second y.first)
    border_of y l h = ground arith

span-border :
    (st : Bool) (start : ℕ) (y : Edge) (es : List Edge)
    → y.second ≡ not st
    → start ≤ y.first
    → (if st then border y - start else 0) + span y.second (border y) es ≡ span st start (y ∷ es)
span-border true start y es e h = ground (arith, span-outside (y.first + 1) y.first es)
span-border false start y es e h = ground arith

pub span-count :
    (st : Bool) (lo : ℕ) (es : List Edge) (start k : ℕ)
    → Alternates st lo es
    → start ≤ lo
    → start + k ≡ size_mod
    → count_range (covered st es) start k ≡ span st start es
span-count st lo [] start k h le e =
    count_range-const (covered st []) st k start (λ x lo hi. refl) ∙ rw h
span-count st lo (y ∷ es) start k h le e =
    ap (λ j. count_range (covered st (y ∷ es)) start j) split
    ∙ count_range-add (covered st (y ∷ es)) m start (border y) n (omega (arith, bounds))
    ∙ ap₂ ◌+◌ before (
        behind
        ∙ span-count y.second (floor_after y.second y.first) es (border y) n h.3 bounds.2
            (omega (arith, bounds)))
    ∙ span-border st start y es h.0 (omega arith)
  where
    bounds : (lo ≤ border y) × (border y ≤ size_mod) × (border y ≤ floor_after y.second y.first)
    bounds = border-bounds st lo y es h

    m : ℕ
    m = border y - start

    n : ℕ
    n = size_mod - border y

    split : k ≡ m + n
    split = omega (arith, bounds)

    before : count_range (covered st (y ∷ es)) start m ≡ (if st then border y - start else 0)
    before =
        count_range-const (covered st (y ∷ es)) st m start
          (λ x lo hi. rw (unreached y x (omega arith)))

    behind :
        count_range (covered st (y ∷ es)) (border y) n
        ≡ count_range (covered y.second es) (border y) n
    behind =
        count_range-ext (covered st (y ∷ es)) (covered y.second es) n (border y)
          (λ x lo. rw (reached-border y x lo))

-- The size of a well-formed set is the number of its elements, modulo 2 ^ 64.
pub size-count :
    (set : IntervalSet) → IsValid set → size set ≡ count_range (contains set) 0 size_mod % size_mod
unfolding size
size-count set v =
    v.counted
    ∙ ap (λ k. k % size_mod)
        (sym (span-count false 0 set.intervals 0 size_mod v.edges (le_refl 0) refl))
