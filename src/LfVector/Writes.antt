-- ===== src/LfVector/Writes.antt =====
-- A write and a `trim_` keep the arrays that the elements need.
use lunchbox.Prelude.{
  ℕ, ◌+◌, ◌^◌, ◌≤◌, ◌<◌, ◌≡◌, refl, sym, ap, ◌∙◌, true, false, List, Option, none, some, ltb, ◌==◌,
  if◌then◌else◌, add_size, size_mod, length, set, length-set, arith, Bool-cases, inl, inr, ◌⊎◌,
}
use native.Mathlib.Nat.{le_trans}
use native.Mathlib.Numerals.{add-one}
use lunchbox.BitOperation.LastBit.{last_bit, get_index_of_last_bit_lem}
use lunchbox.LfVector.{LfVector, get, put, update, trim, free_slot}
use lunchbox.LfVector.Slots.{IsBacked, place, get-place, put-place, get-set}

module _ {ℓ} {A : Type ℓ} where
  pub update-IsBacked :
      (f : ℕ → Option (List A)) (m s : ℕ) (a : List A)
      → IsBacked f m
      → length a ≡ 2 ^ s
      → IsBacked (update f s (some a)) m
  update-IsBacked f m s a b h = record {
    arrays = λ t c e. of_array t c (Bool-cases (s == t)) e;
    allocated = λ t le. of_slot t le (Bool-cases (s == t));
  }
    where
      some_list : {c d : List A} → some c ≡ some d → c ≡ d
      some_list e = cc

      of_array :
          (t : ℕ) (c : List A)
          → ((s == t) ≡ true) ⊎ ((s == t) ≡ false)
          → update f s (some a) t ≡ some c
          → length c ≡ 2 ^ t
      of_array t c (inl same) e =
          let one : s ≡ t = ground arith in
          ap length (sym (some_list (rw same at e))) ∙ h ∙ ap (λ r. 2 ^ r) one
      of_array t c (inr other) e = b.arrays t c (rw other at e)

      of_slot :
          (t : ℕ)
          → 2 ^ t ≤ m
          → ((s == t) ≡ true) ⊎ ((s == t) ≡ false)
          → (c : List A) × (update f s (some a) t ≡ some c)
      of_slot t le (inl same) = (a, rw same)
      of_slot t le (inr other) = let (c, e) = b.allocated t le in (c, rw other e)

  pub IsBacked-le : (f : ℕ → Option (List A)) (m m' : ℕ) → m' ≤ m → IsBacked f m → IsBacked f m'
  IsBacked-le f m m' le b = record {
    arrays = b.arrays;
    allocated = λ s h. b.allocated s (le_trans h le);
  }

  -- What a write of `x` at `i` makes of a vector.
  pub record Written (v : LfVector A) (i m : ℕ) (x : A) (w : LfVector A) : Type ℓ where
    pub done : put v i x ≡ some w
    pub same_size : w.size ≡ v.size
    pub backed : IsBacked w.slots m
    pub reads : (j : ℕ) → j + 1 < size_mod → get w j ≡ (if i == j then some x else get v j)

  pub put-Written :
      (v : LfVector A) (i m : ℕ) (x : A)
      → IsBacked v.slots m
      → m < size_mod
      → i < m
      → (w : LfVector A) × Written v i m x w
  put-Written v i m x b small lt =
      let (s, k, p) = place i (omega arith) in
      let (a, e) = b.allocated s (omega (arith, p.value)) in
      let long : length a ≡ 2 ^ s = b.arrays s a e in
      (
        record v { slots = update v.slots s (some (set a k x)) },
        record {
          done = put-place v x a p e long;
          same_size = refl;
          backed = update-IsBacked v.slots m s (set a k x) b (length-set a k x ∙ long);
          reads = get-set v.slots v.size v.size x a p e long;
        },
      )

  -- What `trim_` makes of a vector.
  pub record Trimmed (v w : LfVector A) : Type ℓ where
    pub same_size : w.size ≡ v.size
    pub backed : IsBacked w.slots v.size
    pub reads : (j : ℕ) → j ≤ v.size → get w j ≡ get v j

  free_slot-Trimmed :
      (n : ℕ) (v : LfVector A) (s : ℕ)
      → IsBacked v.slots v.size
      → v.size + 1 < size_mod
      → v.size + 1 < 2 ^ s
      → Trimmed v (free_slot n v s)
  unfolding free_slot
  free_slot-Trimmed n v s b small beyond = elim (Bool-cases (ltb s n)) [
    | inl inside ↦ rw inside (record {
      same_size = refl;
      backed = record {
        arrays = λ t c e. kept_array t c (Bool-cases (s == t)) e;
        allocated = λ t le. kept_slot t le (Bool-cases (s == t));
      };
      reads = λ j le. kept_read j le;
    })
    | inr outside ↦ rw outside (record { same_size = refl; backed = b; reads = λ j le. refl })
  ]
    where
      empty_slot : (c : List A) → none ≡ some c → ⊥
      empty_slot c h = cc

      kept_array :
          (t : ℕ) (c : List A)
          → ((s == t) ≡ true) ⊎ ((s == t) ≡ false)
          → update v.slots s none t ≡ some c
          → length c ≡ 2 ^ t
      kept_array t c (inl same) e = absurd (empty_slot c (rw same at e))
      kept_array t c (inr other) e = b.arrays t c (rw other at e)

      kept_slot :
          (t : ℕ)
          → 2 ^ t ≤ v.size
          → ((s == t) ≡ true) ⊎ ((s == t) ≡ false)
          → (c : List A) × (update v.slots s none t ≡ some c)
      kept_slot t le (inl same) =
          let one : s ≡ t = ground arith in absurd (omega (arith, ap (λ r. 2 ^ r) one))
      kept_slot t le (inr other) = let (c, e) = b.allocated t le in (c, rw other e)

      kept_read :
          (j : ℕ) → j ≤ v.size → get (record v { slots = update v.slots s none }) j ≡ get v j
      kept_read j le =
          let (t, k, p) = place j (omega arith) in
          let other : (s == t) ≡ false = slot_ne t (omega (arith, p.value)) in
          get-place (record v { slots = update v.slots s none }) p ∙ rw other (sym (get-place v p))
        where
          slot_ne : (t : ℕ) → 2 ^ t ≤ v.size + 1 → (s == t) ≡ false
          slot_ne t le = elim (Bool-cases (s == t)) [
            | inl same ↦
                let one : s ≡ t = ground arith in absurd (omega (arith, ap (λ r. 2 ^ r) one))
            | inr other ↦ other
          ]

  pub trim-Trimmed :
      (n : ℕ) (v : LfVector A)
      → IsBacked v.slots v.size
      → v.size + 1 < size_mod
      → Trimmed v (trim n v)
  unfolding trim
  trim-Trimmed n v b small =
      let (s, lt, last) = last_bit (v.size + 1) (omega arith) small in
      let same : add_size v.size 1 ≡ v.size + 1 = omega arith in
      rw (same, get_index_of_last_bit_lem (v.size + 1) s last lt, trim)
        (free_slot-Trimmed n v (s + 1) b small
          (omega (arith, last, ap (λ (r : ℕ). 2 ^ r) (add-one s))))
