-- ===== src/LfVector/Bulk/Expand.antt =====
-- `expand` returns with the size asked for.
use lunchbox.Prelude.{
  ℕ, zero, suc, ◌+◌, ◌-◌, ◌^◌, ◌≤◌, ◌<◌, ◌≡◌, refl, sym, ap, ◌∙◌, subst, inl, inr, true, false,
  List, [], ◌∷◌, ◌++◌, append-nil, append_assoc, some, ltb, length, length-append, replicate,
  size_mod, arith, le-cases,
}
use lunchbox.LfVector.{LfVector}
use lunchbox.LfVector.Slots.{Holds, size-lt-mod}
use lunchbox.LfVector.Growth.{push_back-Holds}
use lunchbox.LfVector.Bulk.{push_until, expand}

module _ {ℓ} {A : Type ℓ} (n : ℕ) (raw init : A) where
  -- The elements behind `expand`.
  abbrev filled : List A → ℕ → A → List A
  filled xs new_size x = xs ++ replicate (new_size - length xs) x

  filled_self : (xs : List A) (m : ℕ) (x : A) → m ≤ length xs → xs ≡ filled xs m x
  filled_self xs m x le =
      let z : m - length xs ≡ 0 = omega arith in
      sym (ap (λ k. xs ++ replicate k x) z ∙ append-nil xs)

  filled_more :
      (xs : List A) (m : ℕ) (x : A) → length xs < m → filled (xs ++ x ∷ []) m x ≡ filled xs m x
  filled_more xs m x lt =
      let e : m - length (xs ++ x ∷ []) ≡ m - length xs - 1 =
        omega (arith, length-append xs (x ∷ [])) in
      let z : suc (m - length xs - 1) ≡ m - length xs = omega arith in
      append_assoc xs (x ∷ []) (replicate (m - length (xs ++ x ∷ [])) x)
      ∙ ap (λ k. xs ++ x ∷ replicate k x) e
      ∙ ap (λ k. xs ++ replicate k x) z

  push_until-Holds :
      (f m : ℕ) (x : A) (v : LfVector A) (xs : List A)
      → Holds n v xs
      → m ≤ length xs + f
      → m < 2 ^ n
      → (w : LfVector A) × (push_until n raw init f m x v ≡ some w) × Holds n w (filled xs m x)
  unfolding push_until
  push_until-Holds zero m x v xs h enough room =
      (v, refl, subst (Holds n v) (filled_self xs m x (omega arith)) h)
  push_until-Holds (suc f) m x v xs h enough room = elim (le-cases m v.size) [
    | inl done ↦
        let t : ltb v.size m ≡ false = ground arith in
        (v, rw t refl, subst (Holds n v) (filled_self xs m x (omega (arith, h.sized))) h)
    | inr more ↦
        let t : ltb v.size m ≡ true = ground arith in
        let small : m < size_mod = size-lt-mod n m h.valid.few room in
        elim (push_back-Holds n raw init v xs x h (omega arith)) [
          | inr full ↦ absurd (omega (arith, full.0, more, room))
          | inl pushed ↦
              let (u, eu, hu) =
                push_until-Holds f m x pushed.1 (xs ++ x ∷ []) pushed.3
                  (omega (arith, enough, length-append xs (x ∷ []))) room in
              (
                u,
                rw (t, pushed.2) eu,
                subst (Holds n u) (filled_more xs m x (omega (arith, h.sized))) hu,
              )
        ]
  ]

  -- `expand` of a vector that holds a list in valid slots to a size that the slots have room for ends, does not throw, and appends the element as
  -- often as the size asks for. A vector that is longer stays as it is.
  pub expand-Holds :
      (m : ℕ) (x : A) (v : LfVector A) (xs : List A)
      → Holds n v xs
      → m < 2 ^ n
      → (w : LfVector A) × (expand n raw init m x v ≡ some w)
        × Holds n w (xs ++ replicate (m - length xs) x)
  unfolding expand
  expand-Holds m x v xs h room = push_until-Holds m m x v xs h (omega arith) room
