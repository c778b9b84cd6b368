-- ===== src/RequestHandler/Tables.antt =====
-- The tables of a handler: entries by identifier, and the list of free records.
use lunchbox.Prelude.{
  ==-true, ==-false, ℕ, ◌≡◌, ◌≢◌, refl, sym, ◌∙◌, ◌⊎◌, inl, inr, false, List, [], ◌∷◌, none, ◌==◌,
  Bool-cases,
}
use lunchbox.RequestHandler.{find_in, erase_in}

-- An entry that is erased is not found, and the others are.
pub find_in-erase_in : (es : List (ℕ × ℕ)) (id : ℕ) → find_in (erase_in es id) id ≡ none
find_in-erase_in [] id = refl
find_in-erase_in (e ∷ es) id = elim (Bool-cases (e.0 == id)) [
  | inl t ↦ rw t (find_in-erase_in es id)
  | inr t ↦ rw (t, t) (find_in-erase_in es id)
]

pub find_in-erase_in_ne :
    (es : List (ℕ × ℕ)) (id j : ℕ) → id ≢ j → find_in (erase_in es id) j ≡ find_in es j
find_in-erase_in_ne [] id j ne = refl
find_in-erase_in_ne (e ∷ es) id j ne = elim (Bool-cases (e.0 == id)) [
  | inl t ↦
      let u : (e.0 == j) ≡ false = ==-false e.0 j (λ q. ne (sym (==-true e.0 id t) ∙ q)) in
      rw (t, u) (find_in-erase_in_ne es id j ne)
  | inr t ↦ elim (Bool-cases (e.0 == j)) [
    | inl u ↦ rw (t, u) refl
    | inr u ↦ rw (t, u) (find_in-erase_in_ne es id j ne)
  ]
]

-- The free records are apart from each other.
abbrev pub In : ℕ → List ℕ → Type 0
In p [] = ⊥
In p (q ∷ qs) = (p ≡ q) ⊎ In p qs

abbrev pub Apart : List ℕ → Type 0
Apart [] = Unit {0}
Apart (q ∷ qs) = (In q qs → ⊥) × Apart qs
