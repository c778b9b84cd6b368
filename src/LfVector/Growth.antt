-- ===== src/LfVector/Growth.antt =====
-- `push_back` adds an element at the end, or throws when the last slot is full.
use lunchbox.Prelude.{
  ==-refl, ℕ, suc, ◌+◌, ◌^◌, ◌≤◌, ◌<◌, ◌≡◌, refl, sym, ap, ◌∙◌, true, false, List, [], ◌∷◌, ◌++◌,
  none, some, leb, ◌==◌, if◌then◌else◌, size_mod, length, get_elem?, set, replicate, length-set,
  length-replicate, length-append, get_elem?-set, get_elem?-append, arith, Bool-cases, Option-cases,
  inl, inr, le-cases, ◌⊎◌, subst,
}
use native.Mathlib.Nat.{pow-le-pow_right, one-le-pow}
use lunchbox.BitOperation.LastBit.{pow_two-suc}
use lunchbox.LfVector.{LfVector, get, update, push_back, slot_array, new_vector}
use lunchbox.LfVector.Slots.{IsPlace, IsBacked, Holds, place, get-place, get-set}
use lunchbox.LfVector.Writes.{update-IsBacked}

pub exponent-lt : (s n : ℕ) → 2 ^ s < 2 ^ n → s < n
exponent-lt s n h = elim (le-cases n s) [
  | inl le ↦ absurd (omega (arith, pow-le-pow_right {n = 2} (omega arith) le))
  | inr lt ↦ lt
]

-- A power of two is the greatest one in itself.
exponent_unique : {s t k m : ℕ} → m ≡ 2 ^ s + k → k < 2 ^ s → m ≡ 2 ^ t → s ≡ t
exponent_unique {s} {t} {k} {m} e small h = omega (
  arith,
  exponent-lt s (suc t) (omega (arith, pow_two-suc t)),
  exponent-lt t (suc s) (omega (arith, pow_two-suc s)),
)

-- A new vector is valid and empty.
pub new_vector-Holds {ℓ} : {A : Type ℓ} (n : ℕ) → n ≤ 64 → Holds {A = A} n new_vector []
unfolding new_vector
new_vector-Holds n few = record {
  valid = record {
    few = few;
    fits = one-le-pow n 2 (omega arith);
    backed = record {
      arrays = λ s a e. cc;
      allocated = λ s h. absurd (omega (arith, one-le-pow s 2 (omega arith)));
    };
  };
  sized = refl;
  items = λ i h. elim h [ ];
}

module _ {ℓ} {A : Type ℓ} (n : ℕ) (raw init : A) where
  slot_array-none :
      (v : LfVector A) (s : ℕ) → v.slots s ≡ none → slot_array raw v s ≡ replicate (2 ^ s) raw
  unfolding slot_array
  slot_array-none v s e = rw (e, slot_array)

  slot_array-some :
      (v : LfVector A) (s : ℕ) (a : List A) → v.slots s ≡ some a → slot_array raw v s ≡ a
  unfolding slot_array
  slot_array-some v s a e = rw (e, slot_array)

  length-slot_array :
      (v : LfVector A) (s : ℕ) → IsBacked v.slots v.size → length (slot_array raw v s) ≡ 2 ^ s
  length-slot_array v s b = elim (Option-cases (v.slots s)) [
    | inl null ↦ ap length (slot_array-none v s null) ∙ length-replicate (2 ^ s) raw
    | inr (a, e) ↦ ap length (slot_array-some v s a e) ∙ b.arrays s a e
  ]

  -- The vector that `push_back` makes.
  abbrev pushed : LfVector A → ℕ → ℕ → A → LfVector A
  pushed v s k x = record {
    slots = update v.slots s (some (set (slot_array raw v s) k x));
    size = v.size + 1;
  }

  push_back-eq :
      (v : LfVector A) (x : A) {s k : ℕ}
      → IsPlace v.size s k
      → push_back n raw init v x ≡ (if leb n s then none else some (pushed v s k x))
  unfolding push_back
  push_back-eq v x p = rw (p.last, p.rest)

  pushed-reads :
      (v : LfVector A) (x : A) {s k : ℕ}
      → IsPlace v.size s k
      → IsBacked v.slots v.size
      → v.size + 1 < size_mod
      → (j : ℕ) → j ≤ v.size
      → get (pushed v s k x) j ≡ (if v.size == j then some x else get v j)
  pushed-reads v x {s} {k} p b small j le = elim (Option-cases (v.slots s)) [
    | inl null ↦ elim (le-cases v.size j) [
      | inl end ↦
          let e : v.size ≡ j = omega arith in
          subst (λ i. get w i ≡ (if v.size == i then some x else get v i)) e at_end
      | inr lt ↦
          let (t, l, q) = place j (omega arith) in
          let other : (s == t) ≡ false = other_slot null t (omega (arith, q.value)) in
          let before : (v.size == j) ≡ false = ground arith in
          get-place w q ∙ rw (other, before) (sym (get-place v q))
    ]
    | inr (a, e) ↦
        ap (λ c. get (record { slots = update v.slots s (some (set c k x)); size = v.size + 1 }) j)
          (slot_array-some v s a e)
        ∙ get-set v.slots (v.size + 1) v.size x a p e (b.arrays s a e) j (omega arith)
  ]
    where
      w : LfVector A
      w = pushed v s k x

      at_end : get w v.size ≡ (if v.size == v.size then some x else get v v.size)
      at_end =
          get-place w p
          ∙ rw (==-refl s, ==-refl v.size)
              (get_elem?-set (slot_array raw v s) k k x (rw (length-slot_array v s b) p.small)
                ∙ rw (==-refl k))

      other_slot : v.slots s ≡ none → (t : ℕ) → 2 ^ t ≤ v.size → (s == t) ≡ false
      other_slot null t le = elim (Bool-cases (s == t)) [
        | inl same ↦
            let one : s ≡ t = ground arith in
            let (a, e) = b.allocated t le in absurd (not_both a (sym null ∙ ap v.slots one ∙ e))
        | inr other ↦ other
      ]
        where
          not_both : (a : List A) → none ≡ some a → ⊥
          not_both a h = cc

  pushed-IsBacked :
      (v : LfVector A) (x : A) {s k : ℕ}
      → IsPlace v.size s k
      → IsBacked v.slots v.size
      → IsBacked (pushed v s k x).slots (v.size + 1)
  pushed-IsBacked v x {s} {k} p b = record {
    arrays = now.arrays;
    allocated = λ t le. covers t le (Bool-cases (s == t));
  }
    where
      array : List A
      array = set (slot_array raw v s) k x

      now : IsBacked (pushed v s k x).slots v.size
      now =
          update-IsBacked v.slots v.size s array b
            (length-set (slot_array raw v s) k x ∙ length-slot_array v s b)

      covers :
          (t : ℕ)
          → 2 ^ t ≤ v.size + 1
          → ((s == t) ≡ true) ⊎ ((s == t) ≡ false)
          → (a : List A) × (update v.slots s (some array) t ≡ some a)
      covers t le (inl same) = (array, rw same)
      covers t le (inr other) = now.allocated t (not_last t le other)
        where
          not_last : (t : ℕ) → 2 ^ t ≤ v.size + 1 → (s == t) ≡ false → 2 ^ t ≤ v.size
          not_last t le other = elim (le-cases (2 ^ t) v.size) [
            | inl fits ↦ fits
            | inr over ↦
                let one : s ≡ t = exponent_unique p.value p.small (omega arith) in
                absurd (ground arith)
          ]

  append-items :
      (v w : LfVector A) (xs : List A) (x : A)
      → length xs ≡ v.size
      → ((i : ℕ) → i < v.size → get v i ≡ get_elem? xs i)
      → (i : ℕ) → i ≤ v.size
      → get w i ≡ (if v.size == i then some x else get v i)
      → get w i ≡ get_elem? (xs ++ x ∷ []) i
  append-items v w xs x sized items i le h = elim (le-cases v.size i) [
    | inl end ↦
        let e : v.size ≡ i = omega arith in ground (arith, get_elem?-append xs (x ∷ []) i, h)
    | inr lt ↦ ground (arith, get_elem?-append xs (x ∷ []) i, h, items i lt)
  ]

  filled : {i s k : ℕ} → leb n s ≡ true → IsPlace i s k → i < 2 ^ n → i + 1 ≡ 2 ^ n
  filled {s} full p fits =
      omega (
        arith,
        p.value,
        fits,
        pow-le-pow_right {n = 2} (omega arith) {i = n} {j = s} (ground arith),
      )

  has_room : {i s k : ℕ} → leb n s ≡ false → IsPlace i s k → i + 1 < 2 ^ n
  has_room {s} room p = omega (
    arith,
    p.value,
    p.small,
    pow_two-suc s,
    pow-le-pow_right {n = 2} (omega arith) {i = suc s} {j = n} (ground arith),
  )

  -- On a vector that holds a list in valid slots and has fewer than 2 ^ 64 - 1 elements: with room
  -- left, `push_back` appends the element and changes no other, and with every slot full it throws.
  pub push_back-Holds :
      (v : LfVector A) (xs : List A) (x : A)
      → Holds n v xs
      → v.size + 1 < size_mod
      → ((v.size + 1 < 2 ^ n)
          × (w : LfVector A) × (push_back n raw init v x ≡ some w)
          × Holds n w (xs ++ x ∷ []))
        ⊎ ((v.size + 1 ≡ 2 ^ n) × (push_back n raw init v x ≡ none))
  push_back-Holds v xs x h small =
      let (s, k, p) = place v.size small in
      elim (Bool-cases (leb n s)) [
        | inl full ↦ inr (filled full p h.valid.fits, push_back-eq v x p ∙ rw full)
        | inr room ↦ inl (
          has_room room p,
          pushed v s k x,
          push_back-eq v x p ∙ rw room,
          record {
            valid = record {
              few = h.valid.few;
              fits = has_room room p;
              backed = pushed-IsBacked v x p h.valid.backed;
            };
            sized = length-append xs (x ∷ []) ∙ omega (arith, h.sized);
            items = λ i lt.
                append-items v (pushed v s k x) xs x h.sized h.items i (omega arith)
                  (pushed-reads v x p h.valid.backed small i (omega arith));
          },
        )
      ]
