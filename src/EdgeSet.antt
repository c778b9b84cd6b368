-- ===== src/EdgeSet.antt =====
-- The `EdgeSet` of lunchbox/intervalSet.h: a std::multiset of interval edges, ordered by
-- `EdgeCompare`, as the list of its elements in order, and the std calls that the code makes.
use lunchbox.Prelude.{ℕ, Bool, true, false, not, ◌&&◌, List, [], ◌∷◌, ltb, ◌==◌, if◌then◌else◌}

-- `Edge`: `first` is the edge value, `second` is true at the start of an interval.
pub record Edge : Type 0 where
  pub first : ℕ
  pub second : Bool

-- `EdgeCompare`
unfoldable pub edge_compare : Edge → Edge → Bool
edge_compare p1 p2 =
    if ltb p1.first p2.first
    then true
    else if p1.first == p2.first
    then p1.second && not p2.second
    else false

-- An iterator into the multiset: the edges before it, nearest first, and those from it on. It is
-- `end()` when none follow, and `begin()` when none stand before.
pub record Cursor : Type 0 where
  pub before : List Edge
  pub after : List Edge

-- The multiset that a cursor points into.
abbrev pub rebuild : List Edge → List Edge → List Edge
rebuild [] a = a
rebuild (x ∷ b) a = rebuild b (x ∷ a)

-- `std::multiset::lower_bound`: the first edge that does not compare before `key`.
unfoldable pub lower_bound_from : List Edge → Edge → List Edge → Cursor
unfolding edge_compare
lower_bound_from b key [] = record { before = b; after = [] }
lower_bound_from b key (x ∷ a) =
    if edge_compare x key
    then lower_bound_from (x ∷ b) key a
    else record { before = b; after = x ∷ a }

unfoldable pub lower_bound : List Edge → Edge → Cursor
unfolding lower_bound_from
lower_bound es key = lower_bound_from [] key es

-- `std::multiset::insert(value)`: behind all edges that do not compare after it. The cursor stands
-- behind the new edge, as after `++position`.
unfoldable pub insert_edge_from : List Edge → Edge → List Edge → Cursor
unfolding edge_compare
insert_edge_from b x [] = record { before = x ∷ b; after = [] }
insert_edge_from b x (y ∷ a) =
    if edge_compare x y
    then record { before = x ∷ b; after = y ∷ a }
    else insert_edge_from (y ∷ b) x a

unfoldable pub insert_edge : Edge → List Edge → Cursor
unfolding insert_edge_from
insert_edge x es = insert_edge_from [] x es
