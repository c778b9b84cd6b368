-- ===== src/BitOperation/Xor.antt =====
-- Exclusive or with the last bit clears it, at every width.
use lunchbox.Prelude.{
  ℕ, zero, suc, ◌+◌, ◌-◌, ◌*◌, ◌/◌, ◌%◌, ◌^◌, ◌≤◌, ◌≡◌, refl, arith, sym, ◌∙◌, ap, ap₂,
}
use Prim.Native.Nat.{bit_xor, bit_xor-bitwise, digits, differ}
use lunchbox.BitOperation.LastBit.{IsLastBit, IsLastBit-half, pow_two-suc}

abbrev xor_digits : ℕ → ℕ → ℕ → ℕ
xor_digits n a b = digits (λ y. y) differ n a b

xor_digits-zero : (n b : ℕ) → xor_digits n 0 b ≡ b
xor_digits-zero zero b = refl
xor_digits-zero (suc n) b = refl

xor_digits-fuel : (n m a b : ℕ) → a ≤ n → a ≤ m → xor_digits n a b ≡ xor_digits m a b
xor_digits-fuel n m zero b p q = xor_digits-zero n b ∙ sym (xor_digits-zero m b)
xor_digits-fuel zero m (suc a) b p q = absurd (omega arith)
xor_digits-fuel (suc n) zero (suc a) b p q = absurd (omega arith)
xor_digits-fuel (suc n) (suc m) (suc a) b p q =
    omega (arith, xor_digits-fuel n m (suc a / 2) (b / 2) (omega arith) (omega arith))

-- The law for the lowest digit.
bit_xor_step : (a b : ℕ) → bit_xor a b ≡ 2 * bit_xor (a / 2) (b / 2) + differ (a % 2) (b % 2)
bit_xor_step zero b = omega (arith, bit_xor-bitwise 0 b, bit_xor-bitwise 0 (b / 2))
bit_xor_step (suc a) b = omega (
  arith,
  bit_xor-bitwise (suc a) b,
  bit_xor-bitwise (suc a / 2) (b / 2),
  xor_digits-fuel a (suc a / 2) (suc a / 2) (b / 2) (omega arith) (omega arith),
)

differ-zero : (y : ℕ) → differ y 0 ≡ y
differ-zero zero = refl
differ-zero (suc y) = refl

bit_xor-even : (v w p : ℕ) → w ≡ 2 * p → bit_xor v w ≡ 2 * bit_xor (v / 2) p + v % 2
bit_xor-even v w p e =
    bit_xor_step v w
    ∙ ap₂ (λ h d. 2 * bit_xor (v / 2) h + differ (v % 2) d) half_w low
    ∙ ap (λ d. 2 * bit_xor (v / 2) p + d) (differ-zero (v % 2))
  where
    half_w : w / 2 ≡ p
    half_w = omega arith

    low : w % 2 ≡ 0
    low = omega arith

-- A value without its last bit is what is left behind its greatest power of two.
pub bit_xor-last : (k v : ℕ) → IsLastBit v k → bit_xor v (2 ^ k) ≡ v - 2 ^ k
bit_xor-last zero v h = let one : v ≡ 1 = omega arith in rw one refl
bit_xor-last (suc k) v h = omega (
  arith,
  h,
  bit_xor-even v (2 ^ suc k) (2 ^ k) (pow_two-suc k),
  pow_two-suc k,
  pow_two-suc (suc k),
  bit_xor-last k (v / 2) (IsLastBit-half v k h),
)
