-- ===== src/IndexIterator.antt =====
-- lunchbox/indexIterator.h: an iterator that is a container and a position in it.
pub mod Moves
mod Tests
use lunchbox.Prelude.{
  ℕ, ◌+◌, ◌-◌, Bool, true, false, not, ◌&&◌, ◌||◌, ltb, leb, ◌==◌, add_size, sub_size,
  if◌then◌else◌,
}

-- `container_`, as the address of the container, and `i_`.
pub record IndexIterator : Type 0 where
  pub container : ℕ
  pub position : ℕ

unfoldable pub new_iterator : ℕ → ℕ → IndexIterator
new_iterator container i = record { container = container; position = i }

-- `operator++` and `operator--` before the iterator.
unfoldable pub increment : IndexIterator → IndexIterator
increment it = record it { position = add_size it.position 1 }

unfoldable pub decrement : IndexIterator → IndexIterator
decrement it = record it { position = sub_size it.position 1 }

-- The same behind the iterator: the value, and the iterator behind it.
unfoldable pub post_increment : IndexIterator → IndexIterator × IndexIterator
unfolding increment
post_increment it = (it, increment it)

unfoldable pub post_decrement : IndexIterator → IndexIterator × IndexIterator
unfolding decrement
post_decrement it = (it, decrement it)

-- `operator+` and `operator+=`.
unfoldable pub advance : ℕ → IndexIterator → IndexIterator
advance n it = record it { position = add_size it.position n }

-- `operator-` and `operator-=`.
unfoldable pub retreat : ℕ → IndexIterator → IndexIterator
retreat n it = record it { position = sub_size it.position n }

-- The distance between two iterators, as the bits of an `ssize_t`.
unfoldable pub distance : IndexIterator → IndexIterator → ℕ
distance it n = sub_size it.position n.position

-- `operator==`, `operator!=`, `operator<`, `operator>`, `operator<=` and `operator>=`.
unfoldable pub is_equal : IndexIterator → IndexIterator → Bool
is_equal a b = a.container == b.container && a.position == b.position

unfoldable pub differs : IndexIterator → IndexIterator → Bool
differs a b = not (a.container == b.container) || not (a.position == b.position)

unfoldable pub is_before : IndexIterator → IndexIterator → Bool
is_before a b = leb a.container b.container && ltb a.position b.position

unfoldable pub is_after : IndexIterator → IndexIterator → Bool
is_after a b = leb b.container a.container && ltb b.position a.position

unfoldable pub is_before_or_at : IndexIterator → IndexIterator → Bool
is_before_or_at a b = leb a.container b.container && leb a.position b.position

unfoldable pub is_after_or_at : IndexIterator → IndexIterator → Bool
is_after_or_at a b = leb b.container a.container && leb b.position a.position

unfoldable pub get_position : IndexIterator → ℕ
get_position it = it.position
