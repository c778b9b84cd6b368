-- ===== src/LfVector/Iterator.antt =====
-- lunchbox/lfVectorIterator.h: an iterator over the elements of a vector, as a position in it.
use lunchbox.Prelude.{
  ℕ, zero, suc, ◌+◌, ◌<◌, ◌≡◌, refl, sym, ap, ◌∙◌, subst, true, false, List, [], ◌∷◌, Option, none,
  some, bind, if◌then◌else◌, drop, length, get_elem?, get_elem?-some, add_size, arith, ==-refl,
  ==-false, size_mod, ◌==◌,
}
use lunchbox.IndexIterator.{IndexIterator, new_iterator, increment, differs}
use lunchbox.LfVector.{LfVector, get}
use lunchbox.LfVector.Slots.{Holds, size-lt-mod}

module _ {ℓ} {A : Type ℓ} where
  -- `begin` and `end` of the vector at an address.
  unfoldable pub begin : ℕ → LfVector A → IndexIterator
  unfolding new_iterator
  begin container v = new_iterator container 0

  unfoldable pub end : ℕ → LfVector A → IndexIterator
  unfolding new_iterator
  end container v = new_iterator container v.size

  -- `operator*`, with the vector at the iterator's address.
  unfoldable pub dereference : LfVector A → IndexIterator → Option A
  unfolding get
  dereference v it = get v it.position

  -- `operator[]`
  unfoldable pub at : LfVector A → IndexIterator → ℕ → Option A
  unfolding get
  at v it n = get v (add_size it.position n)

  -- The elements that a caller's loop `for (it = begin(); it != end(); ++it)` reads, on fuel: a round for
  -- each element, and the last test.
  unfoldable pub read_all : ℕ → LfVector A → IndexIterator → IndexIterator → Option (List A)
  unfolding dereference increment differs
  read_all zero v it last = none
  read_all (suc f) v it last =
      let rest = read_all f v (increment it) last in
      if differs it last
      then bind (dereference v it) (λ x. bind rest (λ xs. some (x ∷ xs)))
      else some []

  drop-next :
      (xs : List A) (i : ℕ) (x : A) → get_elem? xs i ≡ some x → drop i xs ≡ x ∷ drop (suc i) xs
  drop-next [] i x e = absurd cc
  drop-next (y ∷ xs) zero x e = cc
  drop-next (y ∷ xs) (suc i) x e = drop-next xs i x e

  drop_all : (n : ℕ) (xs : List A) → length xs ≡ n → drop n xs ≡ []
  drop_all zero [] e = refl
  drop_all zero (x ∷ xs) e = absurd (omega arith)
  drop_all (suc n) [] e = refl
  drop_all (suc n) (x ∷ xs) e = drop_all n xs (omega arith)

  read_next :
      (f : ℕ) (v : LfVector A) (it last : IndexIterator) (x : A) (ys : List A)
      → differs it last ≡ true
      → dereference v it ≡ some x
      → read_all f v (increment it) last ≡ some ys
      → read_all (suc f) v it last ≡ some (x ∷ ys)
  unfolding read_all
  read_next f v it last x ys d e r = rw (d, e, r) refl

  module _ (n container : ℕ) (v : LfVector A) (xs : List A) (h : Holds n v xs) where
    read_from :
        (k i : ℕ)
        → i + k ≡ v.size
        → read_all
            (suc k)
            v
            (record { container = container; position = i })
            (record { container = container; position = v.size })
          ≡ some (drop i xs)
    unfolding read_all dereference increment differs
    read_from zero i e =
        let same : i ≡ v.size = omega arith in
        rw (same, ==-refl container, ==-refl v.size) (ap some (sym (drop_all v.size xs h.sized)))
    read_from (suc k) i e =
        let low : v.size < size_mod = size-lt-mod n v.size h.valid.few h.valid.fits in
        let (x, item) = get_elem?-some xs i (omega (arith, h.sized)) in
        let apart : (i == v.size) ≡ false = ==-false i v.size (λ same. omega (arith, same)) in
        let next : add_size i 1 ≡ suc i = omega arith in
        let here : IndexIterator = record { container = container; position = i } in
        let last : IndexIterator = record { container = container; position = v.size } in
        let rest : read_all (suc k) v (increment here) last ≡ some (drop (suc i) xs) =
          subst
            (λ p.
              read_all (suc k) v (record { container = container; position = p }) last
              ≡ some (drop (suc i) xs))
            (sym next) (read_from k (suc i) (omega arith)) in
        read_next (suc k) v here last x (drop (suc i) xs) (rw (==-refl container, apart) refl)
          (h.items i (omega arith) ∙ item) rest
        ∙ ap some (sym (drop-next xs i x item))

    -- The loop from `begin` to `end` of a valid vector reads its elements, in their order.
    pub read_all-Holds : read_all (suc v.size) v (begin container v) (end container v) ≡ some xs
    unfolding begin end new_iterator
    read_all-Holds = read_from v.size 0 (omega arith)
