-- ===== src/LfQueue/Window.antt =====
-- The values between the two positions of a ring.
use lunchbox.Prelude.{
  ℕ, suc, ◌+◌, ◌%◌, ◌<◌, ◌≡◌, ap, ◌∙◌, ◌⊎◌, inl, inr, true, false, List, [], ◌∷◌, ◌++◌, some, ◌==◌,
  length, get_elem?, set, get_elem?-set, arith, le-cases,
}
use native.Mathlib.Nat.{mod-eq_of_lt, mod_self}

-- The position behind `p` among `cap`.
abbrev pub after : ℕ → ℕ → ℕ
after cap p = (p + 1) % cap

-- It is the next number, or 0 at the end.
pub after-cases :
    (cap p : ℕ)
    → p < cap
    → (after cap p ≡ p + 1) × (p + 1 < cap) ⊎ (after cap p ≡ 0) × (p + 1 ≡ cap)
after-cases cap p h = elim (le-cases cap (p + 1)) [
  | inl end ↦ let e : p + 1 ≡ cap = omega arith in inr (ap (λ k. k % cap) e ∙ mod_self cap, e)
  | inr lt ↦ inl (mod-eq_of_lt lt, lt)
]

-- `n` steps from `h` lead to `w`, at most once round.
abbrev pub IsAhead : ℕ → ℕ → ℕ → ℕ → Type 0
IsAhead cap h n w = (h + n ≡ w) ⊎ (h + n ≡ w + cap)

pub IsAhead-after :
    (cap h n w : ℕ) → h < cap → w < cap → IsAhead cap h (suc n) w → IsAhead cap (after cap h) n w
IsAhead-after cap h n w lt lw a = omega (arith, after-cases cap h lt)

pub IsAhead-more :
    (cap h n w : ℕ)
    → h < cap
    → w < cap
    → n + 1 < cap
    → IsAhead cap h n w
    → IsAhead cap h (n + 1) (after cap w)
IsAhead-more cap h n w lh lw few a = omega (arith, after-cases cap w lw)

pub after-lt : (cap p : ℕ) → p < cap → after cap p < cap
after-lt cap p h = omega (arith, after-cases cap p h)

module _ {ℓ} {A : Type ℓ} where
  -- The cells from `h` on hold these values.
  abbrev pub Window : List A → ℕ → ℕ → List A → Type ℓ
  Window cells cap h [] = Unit {ℓ}
  Window cells cap h (x ∷ xs) = (get_elem? cells h ≡ some x) × Window cells cap (after cap h) xs

  -- A write at the end of a window makes it longer.
  pub Window-set :
      (cells : List A) (cap h w : ℕ) (x : A) (xs : List A)
      → cap ≡ length cells
      → h < cap
      → w < cap
      → length xs < cap
      → IsAhead cap h (length xs) w
      → Window cells cap h xs
      → Window (set cells w x) cap h (xs ++ x ∷ [])
  Window-set cells cap h w x [] e lh lw few a win =
      let same : (w == h) ≡ true = ground arith in
      (get_elem?-set cells w h x (omega arith) ∙ rw same, tt)
  Window-set cells cap h w x (y ∷ ys) e lh lw few a win =
      let apart : (w == h) ≡ false = ground arith in
      (
        get_elem?-set cells w h x (omega arith) ∙ rw apart win.0,
        Window-set cells cap (after cap h) w x ys e (after-lt cap h lh) lw (omega arith)
            (IsAhead-after cap h (length ys) w lh lw a) win.1,
      )

  -- A write behind a window leaves it alone.
  pub Window-beyond :
      (cells : List A) (cap h w : ℕ) (x : A) (xs : List A)
      → cap ≡ length cells
      → h < cap
      → w < cap
      → length xs < cap
      → IsAhead cap h (length xs) w
      → Window cells cap h xs
      → Window (set cells w x) cap h xs
  Window-beyond cells cap h w x [] e lh lw few a win = tt
  Window-beyond cells cap h w x (y ∷ ys) e lh lw few a win =
      let apart : (w == h) ≡ false = ground arith in
      (
        get_elem?-set cells w h x (omega arith) ∙ rw apart win.0,
        Window-beyond cells cap (after cap h) w x ys e (after-lt cap h lh) lw (omega arith)
            (IsAhead-after cap h (length ys) w lh lw a) win.1,
      )
