-- ===== src/IndexIterator/Moves.antt =====
-- Moving an iterator forth and back, and comparing iterators of one container.
use lunchbox.Prelude.{
  ℕ, ◌<◌, ◌≡◌, refl, ap, true, not, ltb, leb, ◌==◌, add_size, sub_size, size_mod, arith,
}
use lunchbox.IndexIterator.{
  IndexIterator, advance, retreat, increment, decrement, distance, is_equal, differs, is_before,
  is_after, is_before_or_at, is_after_or_at,
}

back_again : (p n : ℕ) → p < size_mod → n < size_mod → sub_size (add_size p n) n ≡ p
back_again p n hp hn = omega arith

way_made : (p n : ℕ) → p < size_mod → n < size_mod → sub_size (add_size p n) p ≡ n
way_made p n hp hn = omega arith

-- Going back as far as forth returns to the iterator, for positions and numbers of 64 bits even where
-- the position wraps, and the distance between the two is how far it went.
pub retreat-advance :
    (it : IndexIterator) (n : ℕ)
    → it.position < size_mod
    → n < size_mod
    → (retreat n (advance n it) ≡ it)
      × (decrement (increment it) ≡ it)
      × (distance (advance n it) it ≡ n)
unfolding retreat advance decrement increment distance
retreat-advance it n hp hn = (
  ap (λ p. record { container = it.container; position = p }) (back_again it.position n hp hn),
  ap (λ p. record { container = it.container; position = p })
      (back_again it.position 1 hp (omega arith)),
  way_made it.position n hp hn,
)

-- In one container the six comparisons are those of the positions.
pub is_before-ltb :
    (a b : IndexIterator)
    → a.container ≡ b.container
    → (is_equal a b ≡ (a.position == b.position))
      × (differs a b ≡ not (a.position == b.position))
      × (is_before a b ≡ ltb a.position b.position)
      × (is_after a b ≡ ltb b.position a.position)
      × (is_before_or_at a b ≡ leb a.position b.position)
      × (is_after_or_at a b ≡ leb b.position a.position)
unfolding is_equal differs is_before is_after is_before_or_at is_after_or_at
is_before-ltb a b e =
    let same : (a.container == b.container) ≡ true = ground arith in
    let le : leb a.container b.container ≡ true = ground arith in
    let ge : leb b.container a.container ≡ true = ground arith in
    (rw same refl, rw same refl, rw le refl, rw ge refl, rw le refl, rw ge refl)
