-- ===== src/RequestHandler/Union.antt =====
-- What is written in the union of a result is read from it by the same type.
use lunchbox.Prelude.{ℕ, ◌^◌, ◌<◌, ◌≡◌, refl, Bool, true, false, arith}
use lunchbox.RequestHandler.{
  Result, read_pointer, read_uint32, read_uint128, read_bool, write_pointer, write_uint32,
  write_uint128, write_bool,
}

read_bool-write : (r : Result) (v : Bool) → read_bool (write_bool v r) ≡ v
unfolding read_bool write_bool
read_bool-write r true = ground arith
read_bool-write r false = ground arith

-- Each type of result, a `uint32_t` below 2 ^ 32, is read as it was written, whatever the union held
-- before.
pub read-write :
    (r : Result) (p u h l : ℕ) (b : Bool)
    → u < 2 ^ 32
    → (read_pointer (write_pointer p r) ≡ p)
      × (read_uint32 (write_uint32 u r) ≡ u)
      × (read_uint128 (write_uint128 (h, l) r) ≡ (h, l))
      × (read_bool (write_bool b r) ≡ b)
unfolding read_pointer write_pointer read_uint32 write_uint32 read_uint128 write_uint128
read-write r p u h l b small = (refl, omega arith, refl, read_bool-write r b)
