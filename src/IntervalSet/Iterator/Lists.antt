-- ===== src/IntervalSet/Iterator/Lists.antt =====
-- A walk over a set lists its elements, in ascending order.
use lunchbox.Prelude.{
  ℕ, zero, suc, ◌+◌, ◌-◌, ◌≤◌, ◌<◌, ◌≡◌, refl, sym, ap, ◌∙◌, ap₂, subst, inl, inr, Bool, true,
  false, not, List, [], ◌∷◌, ◌++◌, some, if◌then◌else◌, add_size, size_mod, arith, Bool-cases,
  leb-true, ltb-true, ltb-false,
}
use native.Mathlib.Nat.{zero-add, suc-add, le_refl}
use lunchbox.EdgeSet.{Edge}
use lunchbox.IntervalSet.{IntervalSet}
use lunchbox.IntervalSet.Invariant.{Alternates, covered, span, floor_after}
use lunchbox.IntervalSet.Tail.{span-outside}
use lunchbox.IntervalSet.Insert.{IsValid, contains}
use lunchbox.IntervalSet.Size.{count_range, span-count}
use lunchbox.IntervalSet.Iterator.{at_edge, begin, list_from}

-- Those of the `k` numbers from `start` on that pass the test, in ascending order.
pub listed : (ℕ → Bool) → ℕ → ℕ → List ℕ
listed f start zero = []
listed f start (suc k) = let rest = listed f (start + 1) k in if f start then start ∷ rest else rest

abbrev pub up_from : ℕ → ℕ → List ℕ
up_from start zero = []
up_from start (suc k) = start ∷ up_from (start + 1) k

listed-none :
    (f : ℕ → Bool) (k start : ℕ)
    → ((x : ℕ) → start ≤ x → x < start + k → f x ≡ false)
    → listed f start k ≡ []
unfolding listed
listed-none f zero start h = refl
listed-none f (suc k) start h =
    rw (h start (le_refl start) (omega arith))
      (listed-none f k (start + 1) (λ x lo hi. h x (omega arith) (omega arith)))

listed-add :
    (f : ℕ → Bool) (m start mid n : ℕ)
    → start + m ≡ mid
    → listed f start (m + n) ≡ listed f start m ++ listed f mid n
unfolding listed
listed-add f zero start mid n e =
    let e' : start ≡ mid = omega arith in ap (λ k. listed f start k) (zero-add n) ∙ rw e' refl
listed-add f (suc m) start mid n e =
    ap (λ k. listed f start k) (suc-add m n) ∙ elim (Bool-cases (f start)) [
      | inl t ↦ rw t (ap (λ l. start ∷ l) (listed-add f m (start + 1) mid n (omega arith)))
      | inr t ↦ rw t (listed-add f m (start + 1) mid n (omega arith))
    ]

listed-all :
    (f : ℕ → Bool) (k start : ℕ)
    → ((x : ℕ) → start ≤ x → x < start + k → f x ≡ true)
    → listed f start k ≡ up_from start k
unfolding listed
listed-all f zero start h = refl
listed-all f (suc k) start h =
    rw (h start (le_refl start) (omega arith)) (
      ap (λ l. start ∷ l) (listed-all f k (start + 1) (λ x lo hi. h x (omega arith) (omega arith))))

listed-ext :
    (f g : ℕ → Bool) (k start : ℕ)
    → ((x : ℕ) → start ≤ x → f x ≡ g x)
    → listed f start k ≡ listed g start k
unfolding listed
listed-ext f g zero start h = refl
listed-ext f g (suc k) start h =
    rw (h start (le_refl start), listed-ext f g k (start + 1) (λ x lo. h x (omega arith))) refl

-- The walk through one interval.
walk :
    (F j v : ℕ) (x y : Edge) (es : List Edge) (n : ℕ) (rest : List ℕ)
    → x.first ≤ v
    → v + j ≡ y.first
    → y.first < size_mod
    → ((m : ℕ) → n ≤ m → list_from m (at_edge es).value (at_edge es).edges ≡ some rest)
    → j + n < F
    → list_from F v (x ∷ y ∷ es) ≡ some (up_from v (suc j) ++ rest)
unfolding list_from
walk zero j v x y es n rest lo at hi h fuel = absurd (omega arith)
walk (suc F) zero v x y es n rest lo at hi h fuel =
    rw (leb-true x.first v lo, ltb-false v y.first (omega arith), h F (omega arith)) refl
walk (suc F) (suc j) v x y es n rest lo at hi h fuel =
    let up : add_size v 1 ≡ v + 1 = omega arith in
    let next : list_from F (v + 1) (x ∷ y ∷ es) ≡ some (up_from (v + 1) (suc j) ++ rest) =
      walk F j (v + 1) x y es n rest (omega arith) (omega arith) hi h (omega arith) in
    rw (leb-true x.first v lo, ltb-true v y.first (omega arith), up, next) refl

-- An interval and the edges behind it, as what they cover.
covered-before :
    (x : Edge) (es : List Edge) (z : ℕ)
    → x.second ≡ true
    → z < x.first
    → covered false (x ∷ es) z ≡ false
covered-before x es z e h = ground (arith, e)

covered-inside :
    (x y : Edge) (es : List Edge) (z : ℕ)
    → x.second ≡ true
    → y.second ≡ false
    → x.first ≤ z
    → z ≤ y.first
    → covered false (x ∷ y ∷ es) z ≡ true
covered-inside x y es z e e' lo hi = ground (arith, e, e')

covered-behind :
    (x y : Edge) (es : List Edge) (z : ℕ)
    → x.second ≡ true
    → y.second ≡ false
    → x.first ≤ y.first
    → y.first < z
    → covered false (x ∷ y ∷ es) z ≡ covered false es z
covered-behind x y es z e e' le h = ground (arith, e, e')

module _ (x y : Edge) (es : List Edge) (start k : ℕ) (opens : x.second ≡ true)
    (closes : y.second ≡ false) (lo : start ≤ x.first) (le : x.first ≤ y.first)
    (hi : y.first < size_mod) (all : start + k ≡ size_mod) where
  -- What is listed of them: nothing before the interval, all of the interval, and the rest.
  listed-interval :
      listed (covered false (x ∷ y ∷ es)) start k
      ≡ up_from x.first (suc (y.first - x.first))
        ++ listed (covered false es) (y.first + 1) (size_mod - (y.first + 1))
  listed-interval =
      let f : ℕ → Bool = covered false (x ∷ y ∷ es) in
      let a : ℕ = x.first - start in
      let b : ℕ = suc (y.first - x.first) in
      let c : ℕ = size_mod - (y.first + 1) in
      let parts : k ≡ a + (b + c) = omega arith in
      ap (listed f start) parts
      ∙ listed-add f a start x.first (b + c) (omega arith)
      ∙ ap₂ ◌++◌ (listed-none f a start (λ z l h. covered-before x (y ∷ es) z opens (omega arith)))
          (listed-add f b x.first (y.first + 1) c (omega arith)
            ∙ ap₂ ◌++◌
                (listed-all f b x.first
                  (λ z l h. covered-inside x y es z opens closes l (omega arith)))
                (listed-ext f (covered false es) c (y.first + 1)
                  (λ z l. covered-behind x y es z opens closes le (omega arith))))

span_pair :
    (x y : Edge) (es : List Edge) (start : ℕ)
    → x.second ≡ true
    → y.second ≡ false
    → span false start (x ∷ y ∷ es) ≡ (y.first + 1 - x.first) + span false (y.first + 1) es
span_pair x y es start e e' = ground (arith, e, e', span-outside y.first (y.first + 1) es)

list_edges :
    (es : List Edge) (lo start k n : ℕ)
    → Alternates false lo es
    → start ≤ lo
    → start + k ≡ size_mod
    → span false start es < n
    → list_from n (at_edge es).value (at_edge es).edges ≡ some (listed (covered false es) start k)
unfolding list_from at_edge
list_edges [] lo start k zero v le all fuel = absurd (omega arith)
list_edges [] lo start k (suc n) v le all fuel =
    ap some (sym (listed-none (λ x. false) k start (λ x l h. refl)))
list_edges (x ∷ []) lo start k n v le all fuel = cc
list_edges (x ∷ y ∷ es) lo start k n v le all fuel =
    let opens : x.second ≡ true = v.0 in
    let closes : y.second ≡ false = v.3.0 ∙ ap not opens in
    let x_le_y : x.first ≤ y.first = subst (λ b. floor_after b x.first ≤ y.first) opens v.3.1 in
    let others : Alternates false (y.first + 2) es =
      subst (λ b. Alternates b (floor_after b y.first) es) closes v.3.3 in
    let spans : span false start (x ∷ y ∷ es)
        ≡ (y.first + 1 - x.first) + span false (y.first + 1) es =
      span_pair x y es start opens closes in
    walk n (y.first - x.first) x.first x y es (span false (y.first + 1) es + 1)
      (listed (covered false es) (y.first + 1) (size_mod - (y.first + 1))) (le_refl x.first)
      (omega arith) v.3.2
      (λ m h.
        list_edges es (y.first + 2) (y.first + 1) (size_mod - (y.first + 1)) m others (omega arith)
          (omega (arith, v.3.2)) (omega arith))
      (omega (arith, spans))
    ∙ ap some
        (sym (listed-interval x y es start k opens closes (omega (arith, v.1)) x_le_y v.3.2 all))

-- The loop `for (i = begin(); i != end(); ++i)` over a well-formed set ends after as many rounds as the
-- set has elements, and gives each element once, in ascending order.
pub begin-lists :
    (set : IntervalSet) (n : ℕ)
    → IsValid set
    → count_range (contains set) 0 size_mod < n
    → list_from n (begin set).value (begin set).edges ≡ some (listed (contains set) 0 size_mod)
unfolding begin
begin-lists set n v fuel =
    list_edges set.intervals 0 0 size_mod n v.edges (le_refl 0) refl
      (omega (arith, span-count false 0 set.intervals 0 size_mod v.edges (le_refl 0) refl, fuel))
