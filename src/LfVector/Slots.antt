-- ===== src/LfVector/Slots.antt =====
-- Where the elements of a vector lie, and what a write changes.
use Prim.Native.Nat.{bit_xor}
use native.Mathlib.Nat.{lt_of_lt_of_le, pow-le-pow_right}
use lunchbox.Prelude.{
  ℕ, ◌+◌, ◌-◌, ◌^◌, ◌≤◌, ◌<◌, ◌≡◌, sym, ap, ◌∙◌, true, false, List, Option, some, ◌==◌,
  if◌then◌else◌, add_size, size_mod, length, get_elem?, set, arith, Bool-cases, inl, inr, ◌⊎◌,
  get_elem?-set, subst,
}
use lunchbox.BitOperation.{get_index_of_last_bit}
use lunchbox.BitOperation.LastBit.{last_bit, get_index_of_last_bit_lem, pow_two-suc}
use lunchbox.BitOperation.Xor.{bit_xor-last}
use lunchbox.LfVector.{LfVector, Place, locate, get, put, update, ◌>>=◌}

-- The place of the element `i`: slot and index there.
pub record IsPlace (i s k : ℕ) : Type 0 where
  pub value : i + 1 ≡ 2 ^ s + k
  pub small : k < 2 ^ s
  pub slots : s < 64
  pub last : get_index_of_last_bit (add_size i 1) ≡ some s
  pub rest : bit_xor (add_size i 1) (2 ^ s) ≡ k
  pub located : locate i ≡ some (record { slot = s; index = k })

-- Every index below 2 ^ 64 - 1 has a slot below 64 and an index in the 2 ^ slot elements of that
-- slot, with index + 1 = 2 ^ slot + rest, and `operator[]` computes both.
pub place : (i : ℕ) → i + 1 < size_mod → (s : ℕ) × (k : ℕ) × IsPlace i s k
unfolding locate
place i h =
    let (s, lt, last) = last_bit (i + 1) (omega arith) h in
    let same : add_size i 1 ≡ i + 1 = omega arith in
    (
      s,
      i + 1 - 2 ^ s,
      record {
        value = omega (arith, last);
        small = omega (arith, last, pow_two-suc s);
        slots = lt;
        last = ap get_index_of_last_bit same ∙ get_index_of_last_bit_lem (i + 1) s last lt;
        rest = ap (λ r. bit_xor r (2 ^ s)) same ∙ bit_xor-last s (i + 1) last;
        located =
            rw (same, get_index_of_last_bit_lem (i + 1) s last lt, bit_xor-last s (i + 1) last);
      },
    )

-- Two elements in one slot at one index are one.
place-injective : {i j s k : ℕ} → IsPlace i s k → IsPlace j s k → i ≡ j
place-injective p q = omega arith

same_index : {i j s t k l : ℕ} → IsPlace i s k → IsPlace j t l → s ≡ t → (k == l) ≡ (i == j)
same_index {i} {j} {s} {t} {k} {l} p q e = ground (arith, p.value, q.value, ap (λ r. 2 ^ r) e)

slot_of : {i j s t k l : ℕ} → IsPlace i s k → IsPlace j t l → i ≡ j → s ≡ t
slot_of p q e = slot_eq (sym p.located ∙ ap locate e ∙ q.located)
  where
    slot_eq : {a b : Place} → some a ≡ some b → a.slot ≡ b.slot
    slot_eq h = cc

other_index :
    {i j s t k l : ℕ} → IsPlace i s k → IsPlace j t l → (s == t) ≡ false → (i == j) ≡ false
other_index {i} {j} p q h = elim (Bool-cases (i == j)) [
  | inl same ↦ let e : i ≡ j = ground arith in absurd (ground (arith, slot_of p q e))
  | inr apart ↦ apart
]

-- Every array has the size of its slot, and the first `m` elements have an array.
pub record IsBacked {ℓ} {A : Type ℓ} (f : ℕ → Option (List A)) (m : ℕ) : Type ℓ where
  pub arrays : (s : ℕ) (a : List A) → f s ≡ some a → length a ≡ 2 ^ s
  pub allocated : (s : ℕ) → 2 ^ s ≤ m → (a : List A) × (f s ≡ some a)

pub record IsValid {ℓ} {A : Type ℓ} (n_slots : ℕ) (v : LfVector A) : Type ℓ where
  pub few : n_slots ≤ 64
  pub fits : v.size < 2 ^ n_slots
  pub backed : IsBacked v.slots v.size

-- A valid vector that holds the elements of a list in order.
pub record Holds {ℓ} {A : Type ℓ} (n_slots : ℕ) (v : LfVector A) (xs : List A) : Type ℓ where
  pub valid : IsValid n_slots v
  pub sized : length xs ≡ v.size
  pub items : (i : ℕ) → i < v.size → get v i ≡ get_elem? xs i

pub size-lt-mod : (n m : ℕ) → n ≤ 64 → m < 2 ^ n → m < size_mod
size-lt-mod n m few h = lt_of_lt_of_le h (pow-le-pow_right (omega arith) few)

module _ {ℓ} {A : Type ℓ} where
  pub get-place :
      {i s k : ℕ} (v : LfVector A) → IsPlace i s k → get v i ≡ (v.slots s >>= λ a. get_elem? a k)
  unfolding get
  get-place v p = rw p.located

  -- A write in an allocated slot succeeds.
  pub put-place :
      {i s k : ℕ} (v : LfVector A) (x : A) (a : List A)
      → IsPlace i s k
      → v.slots s ≡ some a
      → length a ≡ 2 ^ s
      → put v i x ≡ some (record v { slots = update v.slots s (some (set a k x)) })
  unfolding put
  put-place v x a p e h = rw (p.located, e) (ground (arith, h, p.small))

  -- It changes the one element.
  pub get-set :
      {i s k : ℕ} (f : ℕ → Option (List A)) (n m : ℕ) (x : A) (a : List A)
      → IsPlace i s k
      → f s ≡ some a
      → length a ≡ 2 ^ s
      → (j : ℕ) → j + 1 < size_mod
      → get (record { slots = update f s (some (set a k x)); size = n }) j
        ≡ (if i == j then some x else get (record { slots = f; size = m }) j)
  get-set {i} {s} {k} f n m x a p e h j lt =
      let (t, l, q) = place j lt in
      get-place (record { slots = update f s (some (set a k x)); size = n }) q
      ∙ written t l q (Bool-cases (s == t))
      ∙ ap (λ o. if i == j then some x else o) (sym (get-place (record { slots = f; size = m }) q))
    where
      written :
          (t l : ℕ)
          → IsPlace j t l
          → ((s == t) ≡ true) ⊎ ((s == t) ≡ false)
          → (update f s (some (set a k x)) t >>= λ b. get_elem? b l)
            ≡ (if i == j then some x else (f t >>= λ b. get_elem? b l))
      written t l q (inl same) =
          let one : s ≡ t = ground arith in
          let here : f t ≡ some a = subst (λ r. f r ≡ some a) one e in
          rw (same, here)
            (get_elem?-set a k l x (rw h p.small)
              ∙ ap (λ b. if b then some x else get_elem? a l) (same_index p q one))
      written t l q (inr other) =
          let apart : (i == j) ≡ false = other_index p q other in rw (other, apart)
