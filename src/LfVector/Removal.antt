-- ===== src/LfVector/Removal.antt =====
-- `pop_back` and `erase` take one element away and keep the order of the others.
use lunchbox.Prelude.{
  ℕ, ◌+◌, ◌-◌, ◌^◌, ◌≤◌, ◌<◌, ◌≡◌, refl, sym, ap, ◌∙◌, true, false, List, [], ◌∷◌, ◌++◌, none, some,
  ◌==◌, size_mod, length, get_elem?, length-append, get_elem?-append, arith, subst,
}
use lunchbox.LfVector.{LfVector, get, put, trim, back, pop_back, pop_back_into}
use lunchbox.LfVector.Slots.{IsBacked, Holds, size-lt-mod}
use lunchbox.LfVector.Writes.{IsBacked-le, Written, put-Written, Trimmed, trim-Trimmed}

module _ {ℓ} {A : Type ℓ} (n : ℕ) (raw init : A) where
  -- The end of a removal: the place behind the last element is reset and the spare slot freed.
  pub finish :
      (v : LfVector A) (ys : List A)
      → n ≤ 64
      → v.size + 1 < 2 ^ n
      → IsBacked v.slots (v.size + 1)
      → length ys ≡ v.size
      → ((i : ℕ) → i < v.size → get v i ≡ get_elem? ys i)
      → (w : LfVector A) × (put v v.size init ≡ some w) × Holds n (trim n w) ys
  finish v ys few fits b sized items =
      let (w, wr) = put-Written v v.size (v.size + 1) init b small (omega arith) in
      let t = trimmed w wr in
      (
        w,
        wr.done,
        record {
          valid = record {
            few = few;
            fits = rw (t.same_size ∙ wr.same_size) (omega arith);
            backed = subst (λ m. IsBacked (trim n w).slots m) (sym t.same_size) t.backed;
          };
          sized = sized ∙ sym (t.same_size ∙ wr.same_size);
          items = λ i lt. read w wr i (rw (t.same_size ∙ wr.same_size) at lt);
        },
      )
    where
      small : v.size + 1 < size_mod
      small = size-lt-mod n (v.size + 1) few fits

      trimmed : (w : LfVector A) → Written v v.size (v.size + 1) init w → Trimmed w (trim n w)
      trimmed w wr =
          trim-Trimmed n w
            (IsBacked-le w.slots (v.size + 1) w.size (omega (arith, wr.same_size)) wr.backed)
            (omega (arith, wr.same_size, small))

      read :
          (w : LfVector A)
          → Written v v.size (v.size + 1) init w
          → (i : ℕ) → i < v.size
          → get (trim n w) i ≡ get_elem? ys i
      read w wr i lt =
          let apart : (v.size == i) ≡ false = ground arith in
          (trimmed w wr).reads i (omega (arith, lt, wr.same_size))
          ∙ wr.reads i (omega (arith, lt, small))
          ∙ rw apart (items i lt)

  pub get-slots : (v : LfVector A) (m i : ℕ) → get (record v { size = m }) i ≡ get v i
  unfolding get
  get-slots v m i = refl

  append-init :
      (xs : List A) (x : A) (i : ℕ) → i < length xs → get_elem? (xs ++ x ∷ []) i ≡ get_elem? xs i
  append-init xs x i lt = ground (arith, get_elem?-append xs (x ∷ []) i)

  append-last : (xs : List A) (x : A) → get_elem? (xs ++ x ∷ []) (length xs) ≡ some x
  append-last xs x = ground (arith, get_elem?-append xs (x ∷ []) (length xs))

  -- The vector behind the removal of its last element.
  pop_finish :
      (v : LfVector A) (xs : List A) (x : A)
      → Holds n v (xs ++ x ∷ [])
      → let last = v.size - 1 in
        (w : LfVector A) × (put (record v { size = last }) last init ≡ some w)
        × Holds n (trim n w) xs
  pop_finish v xs x h =
      finish (record v { size = v.size - 1 }) xs h.valid.few (omega (arith, h.valid.fits, size))
        (subst (λ m. IsBacked v.slots m) (omega (arith, size)) h.valid.backed) (omega (arith, size))
        (λ i lt.
          get-slots v (v.size - 1) i
          ∙ h.items i (omega (arith, lt))
          ∙ append-init xs x i (omega (arith, lt, size)))
    where
      size : v.size ≡ length xs + 1
      size = sym h.sized ∙ length-append xs (x ∷ [])

  not_empty :
      (v : LfVector A) (xs : List A) (x : A) → Holds n v (xs ++ x ∷ []) → (v.size == 0) ≡ false
  not_empty v xs x h = ground (arith, h.sized, length-append xs (x ∷ []))

  -- Both `pop_back` of a vector that holds a list of at least one in valid slots drop the last element and change no other, and
  -- `pop_back(element)` returns it.
  pub pop_back-Holds :
      (v : LfVector A) (xs : List A) (x : A)
      → Holds n v (xs ++ x ∷ [])
      → (w : LfVector A) × (pop_back n raw init v ≡ some w)
        × (pop_back_into n raw init v ≡ some (some x, w))
        × Holds n w xs
  unfolding pop_back pop_back_into back
  pop_back-Holds v xs x h =
      let (w, e, hw) = pop_finish v xs x h in
      (trim n w, rw (not_empty v xs x h, e), rw (not_empty v xs x h, last, e), hw)
    where
      last : get v (v.size - 1) ≡ some x
      last =
          h.items (v.size - 1) (omega (arith, h.sized, length-append xs (x ∷ [])))
          ∙ ap (get_elem? (xs ++ x ∷ [])) (omega (arith, h.sized, length-append xs (x ∷ [])))
          ∙ append-last xs x

  -- On an empty vector with valid slots both `pop_back` change nothing, and `pop_back(element)` returns none.
  pub pop_back-empty :
      (v : LfVector A)
      → Holds n v []
      → (pop_back n raw init v ≡ some v) × (pop_back_into n raw init v ≡ some (none, v))
  unfolding pop_back pop_back_into
  pop_back-empty v h =
      let nought : (v.size == 0) ≡ true = ground (arith, h.sized) in (rw nought, rw nought)
