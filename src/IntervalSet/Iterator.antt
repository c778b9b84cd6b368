-- ===== src/IntervalSet/Iterator.antt =====
-- The `const_iterator` of lunchbox/intervalSet.ipp, over the elements of a set.
pub mod Lists
use lunchbox.Prelude.{
  ℕ, zero, suc, Bool, true, false, ◌&&◌, ◌||◌, List, [], ◌∷◌, Option, none, some, ltb, leb, ◌==◌,
  bind, length, if◌then◌else◌, add_size,
}
use lunchbox.EdgeSet.{Edge}
use lunchbox.IntervalSet.{IntervalSet}

-- `_value`, and the edges from `_startEdge` on: it is `end()` when there are none, and then `_value` has
-- no meaning.
pub record Iterator : Type 0 where
  pub value : ℕ
  pub edges : List Edge

-- The constructor from a set and the place of a start edge.
unfoldable pub at_edge : List Edge → Iterator
at_edge [] = record { value = 0; edges = [] }
at_edge (x ∷ es) = record { value = x.first; edges = x ∷ es }

unfoldable pub begin : IntervalSet → Iterator
unfolding at_edge
begin set = at_edge set.intervals

unfoldable pub end : IntervalSet → Iterator
unfolding at_edge
end set = at_edge []

-- `increment`: `none` reads the edge that `end()` would be at.
unfoldable pub increment_at : ℕ → List Edge → Option Iterator
unfolding at_edge
increment_at v [] = some (record { value = v; edges = [] })
increment_at v (x ∷ []) = none
increment_at v (x ∷ y ∷ es) = some (
    if leb x.first v && ltb v y.first
    then record { value = add_size v 1; edges = x ∷ y ∷ es }
    else at_edge es)

unfoldable pub increment : Iterator → Option Iterator
unfolding increment_at
increment it = increment_at it.value it.edges

-- `equal`, for two iterators of one set: places in its edges are equal if as many edges follow.
unfoldable pub equal : Iterator → Iterator → Bool
equal a b =
    (length a.edges == 0 && length b.edges == 0)
    || (length a.edges == length b.edges && a.value == b.value)

-- `for (i = begin(); i != end(); ++i)` with fuel: the values that `dereference` gives.
unfoldable pub list_from : ℕ → ℕ → List Edge → Option (List ℕ)
unfolding increment_at
list_from zero v es = none
list_from (suc n) v [] = some []
list_from (suc n) v (x ∷ es) =
    bind (increment_at v (x ∷ es))
      (λ next. bind (list_from n next.value next.edges) (λ vs. some (v ∷ vs)))
