-- ===== src/Buffer/Zero.antt =====
-- `setZero` clears as many bytes as the buffer has elements.
use lunchbox.Prelude.{
  ℕ, zero, suc, ◌-◌, ◌*◌, ◌≤◌, ◌≡◌, refl, ap, List, [], ◌∷◌, none, some, get_elem?, min, arith, ltb,
  if◌then◌else◌,
}
use native.Mathlib.Nat.{suc-mul}
use lunchbox.Buffer.{Buffer, zero_cells, set_zero, get_at}

module _ {ℓ} {A : Type ℓ} (width : ℕ) (clear_bytes : ℕ → A → A) where
  zero_cells-beyond :
      (bytes : ℕ) (cells : List A) (i : ℕ)
      → ((x : A) → clear_bytes 0 x ≡ x)
      → bytes ≤ i * width
      → get_elem? (zero_cells width clear_bytes bytes cells) i ≡ get_elem? cells i
  unfolding zero_cells
  zero_cells-beyond bytes [] i nothing h = refl
  zero_cells-beyond bytes (x ∷ cells) zero nothing h =
      let z : min width bytes ≡ 0 = omega arith in rw z (ap some (nothing x))
  zero_cells-beyond bytes (x ∷ cells) (suc i) nothing h =
      zero_cells-beyond (bytes - width) cells i nothing (omega (arith, suc-mul i width, h))

  -- `setZero` leaves every element alone that starts at or behind the byte whose number is the number
  -- of elements: with elements of more than one byte the content of the buffer is not set to 0.
  pub set_zero-beyond :
      (b : Buffer A) (i : ℕ)
      → ((x : A) → clear_bytes 0 x ≡ x)
      → b.size ≤ i * width
      → get_at (set_zero width clear_bytes b) i ≡ get_at b i
  unfolding set_zero get_at
  set_zero-beyond b i nothing h =
      ap (λ o. if ltb i b.size then o else none) (zero_cells-beyond b.size b.cells i nothing h)
