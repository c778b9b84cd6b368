-- ===== src/Monitor/Words.antt =====
-- `Monitor< uint32_t >`: the operators of the 32-bit words.
use lunchbox.Prelude.{ℕ, ◌+◌, ◌-◌, ◌%◌, ◌^◌, ◌==◌, ltb, not}
use lunchbox.Monitor.{Values}
use Prim.Native.Nat.{bit_or, bit_and}

abbrev pub words : Values ℕ
words = record {
  equal = ◌==◌;
  below = ltb;
  next = λ x. (x + 1) % 2 ^ 32;
  previous = λ x. (x + 2 ^ 32 - 1) % 2 ^ 32;
  either = bit_or;
  both = bit_and;
  sum = λ x y. (x + y) % 2 ^ 32;
  truth = λ x. not (x == 0);
}
