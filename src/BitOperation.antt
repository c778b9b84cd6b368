-- ===== src/BitOperation.antt =====
-- lunchbox/bitOperation.h: the index of the last bit, and with Byteswap the order of bytes.
pub mod LastBit
pub mod Xor
pub mod Byteswap
mod Tests
use lunchbox.Prelude.{ℕ, zero, suc, ◌+◌, ◌/◌, Option, none, some, ◌==◌, if◌then◌else◌}

-- `++count`, where `none` stands for -1.
abbrev pub next_index : Option ℕ → Option ℕ
next_index none = some 0
next_index (some n) = some (n + 1)

-- `while (value) { ++count; value >>= 1; }`, on fuel.
unfoldable pub last_bit_loop : ℕ → ℕ → Option ℕ → Option ℕ
last_bit_loop zero value count = count
last_bit_loop (suc f) value count =
    let rest = last_bit_loop f (value / 2) (next_index count) in if value == 0 then count else rest

-- `getIndexOfLastBit<uint64_t>`: 64 rounds shift every bit out.
unfoldable pub get_index_of_last_bit : ℕ → Option ℕ
unfolding last_bit_loop
get_index_of_last_bit value = last_bit_loop 64 value none
