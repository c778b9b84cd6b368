-- ===== src/LfVector/Copies/Assign.antt =====
-- `operator=` makes a vector hold what the other one holds.
use lunchbox.Prelude.{
  ==-true, ℕ, zero, suc, ◌+◌, ◌-◌, ◌*◌, ◌^◌, ◌≤◌, ◌<◌, ◌≡◌, ◌≢◌, refl, sym, ap, ◌∙◌, subst, inl,
  inr, true, List, Option, none, some, ◌==◌, length, get_elem?, set, min, length-set,
  length-replicate, get_elem?-set, get_elem?-some, arith, Bool-cases, Option-cases, ltb-true,
  ltb-false, ==-false, le-cases,
}
use native.Mathlib.Nat.{one-le-pow}
use lunchbox.BitOperation.LastBit.{pow_two-suc}
use lunchbox.LfVector.{LfVector, get, update}
use lunchbox.LfVector.Slots.{IsBacked, Holds, place, get-place, size-lt-mod}
use lunchbox.LfVector.Growth.{exponent-lt}
use lunchbox.LfVector.Copies.{copy_slot, array_or_new, assign_slots, sized, assign}

pow_two-next : (i : ℕ) → 2 ^ (i + 1) ≡ 2 * 2 ^ i
pow_two-next i = let e : i + 1 ≡ suc i = omega arith in ap (λ k. 2 ^ k) e ∙ pow_two-suc i

module _ {ℓ} {A : Type ℓ} where
  -- Two arrays agree on the elements from `j` on that are among the first `n`, `size` of which are done.
  abbrev Agrees : List A → List A → ℕ → ℕ → ℕ → Type ℓ
  Agrees src dst j size n =
      (k : ℕ) → j ≤ k → k < length src → size + (k - j) < n → get_elem? dst k ≡ get_elem? src k

  -- The inner loop copies what there is to copy and keeps the elements before `j`.
  copy_slot_lem :
      (r j size n : ℕ) (src dst : List A)
      → length dst ≡ length src
      → j + r ≡ length src
      → (out : List A) × (copy_slot r j size n src dst ≡ some (out, size + min r (n - size)))
        × (length out ≡ length src)
        × Agrees src out j size n
        × ((k : ℕ) → k < j → get_elem? out k ≡ get_elem? dst k)
  unfolding copy_slot
  copy_slot_lem zero j size n src dst len e = (
    dst,
    ap (λ s. some (dst, s)) (omega arith),
    len,
    λ k lo hi m. absurd (omega arith),
    λ k h. refl,
  )
  copy_slot_lem (suc r) j size n src dst len e = elim (le-cases n size) [
    | inl done ↦ (
      dst,
      rw (ltb-false size n done) (ap (λ s. some (dst, s)) (omega arith)),
      len,
      λ k lo hi m. absurd (omega arith),
      λ k h. refl,
    )
    | inr more ↦
        let (x, at) = get_elem?-some src j (omega arith) in
        let (out, copies, len', agrees, keeps) =
          copy_slot_lem r (j + 1) (size + 1) n src (set dst j x) (length-set dst j x ∙ len)
            (omega arith) in
        (
          out,
          rw (ltb-true size n more, at, ltb-true j (length dst) (omega (arith, len, e)))
              (copies ∙ ap (λ s. some (out, s)) (omega arith)),
          len',
          λ k lo hi m. elim (Bool-cases (j == k)) [
            | inl t ↦
                let same : j ≡ k = ==-true j k t in
                keeps k (omega arith)
                ∙ get_elem?-set dst j k x (omega (arith, len, e))
                ∙ rw t (sym at)
                ∙ ap (get_elem? src) same
            | inr t ↦
                let ne : j ≢ k = (λ q. ground (arith, q, t)) in
                agrees k (omega (arith, ne)) hi (omega (arith, ne, m))
          ],
          λ k h.
              keeps k (omega arith)
              ∙ get_elem?-set dst j k x (omega (arith, len, e))
              ∙ rw (==-false j k (λ s. omega (arith, s, h))) refl,
        )
  ]

  none-some : (a : List A) → none ≢ some a
  none-some a e = cc

  -- What a slot of the copy has of a slot that is copied, of a vector of `n` elements.
  abbrev Copied : Option (List A) → Option (List A) → ℕ → ℕ → Type ℓ
  Copied none d s n = d ≡ none
  Copied (some src) d s n =
      (dst : List A) × (d ≡ some dst)
      × (length dst ≡ 2 ^ s)
      × ((k : ℕ) → k < 2 ^ s → 2 ^ s + k ≤ n → get_elem? dst k ≡ get_elem? src k)

  length-array_or_new :
      (raw : A) (s : ℕ) (d : Option (List A))
      → ((a : List A) → d ≡ some a → length a ≡ 2 ^ s)
      → length (array_or_new raw s d) ≡ 2 ^ s
  length-array_or_new raw s none h = length-replicate (2 ^ s) raw
  length-array_or_new raw s (some a) h = h a refl

  -- One slot more.
  Copied-next :
      (i n : ℕ) (from slots : ℕ → Option (List A)) (d : Option (List A))
      → ((s : ℕ) → s < i → Copied (from s) (slots s) s n)
      → Copied (from i) d i n
      → (s : ℕ) → s < i + 1
      → Copied (from s) (update slots i d s) s n
  Copied-next i n from slots d before here s h = elim (Bool-cases (i == s)) [
    | inl t ↦ rw t (subst (λ k. Copied (from k) d k n) (==-true i s t) here)
    | inr t ↦ let ne : i ≢ s = (λ q. ground (arith, q, t)) in rw t (before s (omega (arith, ne)))
  ]

  arrays_next :
      (i : ℕ) (slots : ℕ → Option (List A)) (d : Option (List A))
      → ((s : ℕ) → i ≤ s → (a : List A) → slots s ≡ some a → length a ≡ 2 ^ s)
      → (s : ℕ) → i + 1 ≤ s
      → (a : List A) → update slots i d s ≡ some a
      → length a ≡ 2 ^ s
  arrays_next i slots d h s lo a e =
      let other : update slots i d s ≡ slots s =
        rw (==-false i s (λ q. omega (arith, q, lo))) refl in
      h s (omega arith) a (sym other ∙ e)

  module _ (raw : A) (N : ℕ) (from : LfVector A) (backed : IsBacked from.slots from.size)
      (fits : from.size < 2 ^ N) where
    ends_before : (i : ℕ) → from.slots i ≡ none → from.size < 2 ^ i
    ends_before i null = elim (le-cases (2 ^ i) from.size) [
      | inl le ↦ let (a, at) = backed.allocated i le in absurd (none-some a (sym null ∙ at))
      | inr lt ↦ lt
    ]

    slots_lem :
        (r i size : ℕ) (slots : ℕ → Option (List A))
        → i + r ≡ N
        → size ≡ min from.size (2 ^ i - 1)
        → ((s : ℕ) → i ≤ s → (a : List A) → slots s ≡ some a → length a ≡ 2 ^ s)
        → ((s : ℕ) → s < i → Copied (from.slots s) (slots s) s from.size)
        → (w : LfVector A) × (assign_slots raw r i size slots from ≡ some w)
          × (w.size ≡ from.size)
          × ((s : ℕ) → s < N → Copied (from.slots s) (w.slots s) s from.size)
    unfolding assign_slots
    slots_lem zero i size slots e count arrays copied =
        let all : 2 ^ i ≡ 2 ^ N = ap (λ k. 2 ^ k) (omega arith) in
        (
          record { slots = slots; size = size },
          refl,
          omega (arith, count, all, fits),
          λ s h. copied s (omega arith),
        )
    slots_lem (suc r) i size slots e count arrays copied = elim (Option-cases (from.slots i)) [
      | inl null ↦
          let end : from.size < 2 ^ i = ends_before i null in
          let count' : size ≡ min from.size (2 ^ (i + 1) - 1) =
            omega (arith, count, end, pow_two-next i) in
          let (w, gives, sizes, all) =
            slots_lem r (i + 1) size (update slots i none) (omega arith) count'
              (arrays_next i slots none arrays)
              (Copied-next i from.size from.slots slots none copied (rw null refl)) in
          (w, rw (assign_slots, null) gives, sizes, all)
      | inr (src, at) ↦
          let one : 1 ≤ 2 ^ i = one-le-pow i 2 (omega arith) in
          let src_len : length src ≡ 2 ^ i = backed.arrays i src at in
          let dst : List A = array_or_new raw i (slots i) in
          let (out, copies, len, agrees, keeps) =
            copy_slot_lem (2 ^ i) 0 size from.size src dst
              (length-array_or_new raw i (slots i) (arrays i (omega arith)) ∙ sym src_len)
              (omega (arith, src_len)) in
          let here : Copied (from.slots i) (some out) i from.size = rw at (
            out,
            refl,
            len ∙ src_len,
            λ k lt le.
                agrees k (omega arith) (omega (arith, src_len, lt)) (omega (arith, count, one, le)),
          ) in
          let count' : size + min (2 ^ i) (from.size - size) ≡ min from.size (2 ^ (i + 1) - 1) =
            omega (arith, count, one, pow_two-next i) in
          let (w, gives, sizes, all) =
            slots_lem r (i + 1) (size + min (2 ^ i) (from.size - size)) (update slots i (some out))
              (omega arith) count' (arrays_next i slots (some out) arrays)
              (Copied-next i from.size from.slots slots (some out) copied here) in
          (w, rw (assign_slots, at, copies) gives, sizes, all)
    ]

  Copied-backed :
      (n : ℕ) (from w : LfVector A) (s : ℕ) (src : List A)
      → from.slots s ≡ some src
      → Copied (from.slots s) (w.slots s) s n
      → (dst : List A) × (w.slots s ≡ some dst)
        × (length dst ≡ 2 ^ s)
        × ((k : ℕ) → k < 2 ^ s → 2 ^ s + k ≤ n → get_elem? dst k ≡ get_elem? src k)
  Copied-backed n from w s src at c = subst (λ d. Copied d (w.slots s) s n) at c

  sized_same : (raw : A) (w : LfVector A) (n : ℕ) → w.size ≡ n → sized raw n w ≡ some w
  sized_same raw w n e = let t : (w.size == n) ≡ true = ground (arith, e) in rw t refl

  reads :
      (N : ℕ) (from w : LfVector A) (i : ℕ) {xs : List A}
      → Holds N from xs
      → w.size ≡ from.size
      → ((s : ℕ) → s < N → Copied (from.slots s) (w.slots s) s from.size)
      → i < from.size
      → get w i ≡ get from i
  reads N from w i h sizes all lt =
      let (s, k, p) =
        place i (size-lt-mod N (i + 1) h.valid.few (omega (arith, lt, h.valid.fits))) in
      let low : s < N = exponent-lt s N (omega (arith, p.value, lt, h.valid.fits)) in
      let (src, at) = h.valid.backed.allocated s (omega (arith, p.value, lt)) in
      let (dst, at', len, same) = Copied-backed from.size from w s src at (all s low) in
      let there : get w i ≡ get_elem? dst k = get-place w p ∙ rw at' refl in
      let here : get from i ≡ get_elem? src k = get-place from p ∙ rw at refl in
      there ∙ same k p.small (omega (arith, p.value, lt)) ∙ sym here

  -- Of a valid vector `from` with elements `xs`: `operator=` of a vector whose arrays have the sizes of
  -- their slots makes no access out of an array and meets its assertion, and the vector then has the size
  -- of `from` and reads as `xs` at every index.
  pub assign-Holds :
      (raw : A) (N : ℕ) (v from : LfVector A) (xs : List A)
      → Holds N from xs
      → ((s : ℕ) (a : List A) → v.slots s ≡ some a → length a ≡ 2 ^ s)
      → (w : LfVector A) × (assign raw N v from ≡ some w)
        × (w.size ≡ from.size)
        × ((i : ℕ) → i < from.size → get w i ≡ get_elem? xs i)
  unfolding assign
  assign-Holds raw N v from xs h arrays =
      let (w, gives, sizes, all) =
        slots_lem raw N from h.valid.backed h.valid.fits N 0 0 v.slots (omega arith) (omega arith)
          (λ s lo a e. arrays s a e) (λ s lt. absurd (omega arith)) in
      (
        w,
        rw gives (sized_same raw w from.size sizes),
        sizes,
        λ i lt. reads N from w i h sizes all lt ∙ h.items i lt,
      )
