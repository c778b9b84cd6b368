-- ===== src/BitOperation/Byteswap.antt =====
-- lunchbox/bitOperation.h: `byteswap` of the types of 1, 2, 4, 8 and 16 bytes. A signed number and a
-- floating point number are swapped as the unsigned number of their bits.
use native.Mathlib.Nat.{pow-suc}
use lunchbox.Prelude.{
  ℕ, zero, suc, ◌+◌, ◌*◌, ◌/◌, ◌%◌, ◌^◌, ◌<◌, ◌≡◌, refl, ap, ap₂, ◌∙◌, List, [], ◌∷◌, length, arith,
}

-- The n bytes of a number, the lowest first, and the number of bytes.
abbrev pub bytes_of : ℕ → ℕ → List ℕ
bytes_of zero value = []
bytes_of (suc n) value = value % 256 ∷ bytes_of n (value / 256)

abbrev pub from_bytes : List ℕ → ℕ
from_bytes [] = 0
from_bytes (b ∷ bs) = b + 256 * from_bytes bs

abbrev pub reverse : List ℕ → List ℕ → List ℕ
reverse [] done = done
reverse (b ∷ bs) done = reverse bs (b ∷ done)

-- The builtins of the compiler for n bytes.
abbrev pub bswap : ℕ → ℕ → ℕ
bswap n value = from_bytes (reverse (bytes_of n value) [])

-- `bool`, the types `char` and texts.
unfoldable pub byteswap_none {ℓ} : {A : Type ℓ} → A → A
byteswap_none value = value

-- `(uint16_t)(value >> 8) | (uint16_t)(value << 8)`, where the two have no bit in common.
unfoldable pub byteswap16 : ℕ → ℕ
byteswap16 value = value / 256 + value * 256 % 2 ^ 16

unfoldable pub byteswap32 : ℕ → ℕ
byteswap32 value = bswap 4 value

unfoldable pub byteswap64 : ℕ → ℕ
byteswap64 value = bswap 8 value

-- `uint128_t`: its high and its low number.
unfoldable pub byteswap128 : ℕ × ℕ → ℕ × ℕ
unfolding byteswap64
byteswap128 value = (byteswap64 value.0, byteswap64 value.1)

-- A vector: `swap` is the function for its elements.
unfoldable pub byteswap_all {ℓ} : {A : Type ℓ} → (A → A) → List A → List A
byteswap_all swap [] = []
byteswap_all swap (x ∷ xs) = swap x ∷ byteswap_all swap xs

abbrev AreBytes : List ℕ → Type 0
AreBytes [] = Unit
AreBytes (b ∷ bs) = (b < 256) × AreBytes bs

bytes_of-AreBytes : (n value : ℕ) → AreBytes (bytes_of n value)
bytes_of-AreBytes zero value = tt
bytes_of-AreBytes (suc n) value = (omega arith, bytes_of-AreBytes n (value / 256))

length-bytes_of : (n value : ℕ) → length (bytes_of n value) ≡ n
length-bytes_of zero value = refl
length-bytes_of (suc n) value = ap suc (length-bytes_of n (value / 256))

reverse-AreBytes : (bs done : List ℕ) → AreBytes bs → AreBytes done → AreBytes (reverse bs done)
reverse-AreBytes [] done h k = k
reverse-AreBytes (b ∷ bs) done h k = reverse-AreBytes bs (b ∷ done) h.1 (h.0, k)

length-reverse : (bs done : List ℕ) → length (reverse bs done) ≡ length bs + length done
length-reverse [] done = omega arith
length-reverse (b ∷ bs) done = omega (arith, length-reverse bs (b ∷ done))

reverse-reverse : (bs done : List ℕ) → reverse (reverse bs done) [] ≡ reverse done bs
reverse-reverse [] done = refl
reverse-reverse (b ∷ bs) done = reverse-reverse bs (b ∷ done)

bytes_of-from_bytes :
    (n : ℕ) (bs : List ℕ) → length bs ≡ n → AreBytes bs → bytes_of n (from_bytes bs) ≡ bs
bytes_of-from_bytes zero [] e h = refl
bytes_of-from_bytes zero (b ∷ bs) e h = absurd (omega arith)
bytes_of-from_bytes (suc n) [] e h = absurd (omega arith)
bytes_of-from_bytes (suc n) (b ∷ bs) e h =
    let low = h.0 in
    let here : (b + 256 * from_bytes bs) % 256 ≡ b = omega arith in
    let there : (b + 256 * from_bytes bs) / 256 ≡ from_bytes bs = omega arith in
    rw (here, there) (ap (λ l. b ∷ l) (bytes_of-from_bytes n bs (omega arith) h.1))

from_bytes-bytes_of : (n value : ℕ) → value < 256 ^ n → from_bytes (bytes_of n value) ≡ value
from_bytes-bytes_of zero value low = omega arith
from_bytes-bytes_of (suc n) value low =
    let more = pow-suc 256 n in
    let less : value / 256 < 256 ^ n = omega (arith, more) in
    omega (arith, from_bytes-bytes_of n (value / 256) less)

bswap-bswap : (n value : ℕ) → value < 256 ^ n → bswap n (bswap n value) ≡ value
bswap-bswap n value low =
    let bs = bytes_of n value in
    let long : length (reverse bs []) ≡ n =
      omega (arith, length-reverse bs [], length-bytes_of n value) in
    ap (λ l. from_bytes (reverse l []))
      (bytes_of-from_bytes n (reverse bs []) long
        (reverse-AreBytes bs [] (bytes_of-AreBytes n value) tt))
    ∙ ap from_bytes (reverse-reverse bs [])
    ∙ from_bytes-bytes_of n value low

byteswap16-bytes : (value : ℕ) → value < 2 ^ 16 → byteswap16 value ≡ bswap 2 value
unfolding byteswap16
byteswap16-bytes value low = omega arith

-- Swapping the bytes of a value of any type twice gives the value.
pub byteswap-byteswap :
    (v16 v32 v64 high low : ℕ)
    → v16 < 2 ^ 16
    → v32 < 2 ^ 32
    → v64 < 2 ^ 64
    → high < 2 ^ 64
    → low < 2 ^ 64
    → (byteswap16 (byteswap16 v16) ≡ v16)
      × (byteswap32 (byteswap32 v32) ≡ v32)
      × (byteswap64 (byteswap64 v64) ≡ v64)
      × (byteswap128 (byteswap128 (high, low)) ≡ (high, low))
unfolding byteswap16 byteswap32 byteswap64 byteswap128
byteswap-byteswap v16 v32 v64 high low h16 h32 h64 hhigh hlow = (
  omega arith,
  bswap-bswap 4 v32 h32,
  bswap-bswap 8 v64 h64,
  ap₂ (λ a b. (a, b)) (bswap-bswap 8 high hhigh) (bswap-bswap 8 low hlow),
)
