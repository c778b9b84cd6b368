-- ===== src/IntervalSet.antt =====
-- lunchbox/intervalSet.h and intervalSet.ipp: a set of `size_t` as a sorted multiset of edges.
-- The element type is `size_t`, the one that tests/intervalSet.cpp uses, so `+` and `-` wrap.
pub mod Invariant
pub mod Cursors
pub mod Tail
pub mod Insert
pub mod Place
pub mod Sweeps
pub mod Erase
pub mod Find
pub mod Size
pub mod Calls
pub mod Whole
pub mod Canonical
pub mod Iterator
mod Tests
use lunchbox.Prelude.{
  ℕ, Bool, true, false, not, ◌&&◌, List, [], ◌∷◌, ltb, leb, ◌==◌, if◌then◌else◌, add_size, sub_size,
  Option, none, some,
}
use lunchbox.EdgeSet.{Edge, Cursor, rebuild, lower_bound, insert_edge}

-- `_intervals` in multiset order, and `_size`.
pub record IntervalSet : Type 0 where
  pub intervals : List Edge
  pub count : ℕ

unfoldable pub empty_set : IntervalSet
empty_set = record { intervals = []; count = 0 }

-- The local variables of `insert` and `erase` between their stages: the cursor `position`,
-- `fallsInside` or `inside`, `overlappingStart` and the overlapping portion.
pub record Sweep : Type 0 where
  pub rest : List Edge
  pub inside : Bool
  pub overlapping_start : ℕ
  pub overlapping_portion : ℕ

-- The loop `while (position != end && position->first <= endElement)`.
unfoldable pub sweep : ℕ → Bool → ℕ → ℕ → List Edge → Sweep
sweep e inside ovs portion [] = record {
  rest = [];
  inside = inside;
  overlapping_start = ovs;
  overlapping_portion = portion;
}
sweep e inside ovs portion (x ∷ a) =
    if leb x.first e
    then sweep e x.second (if inside then ovs else x.first)
        (if inside then add_size portion (add_size (sub_size x.first ovs) 1) else portion) a
    else record {
      rest = x ∷ a;
      inside = inside;
      overlapping_start = ovs;
      overlapping_portion = portion;
    }

-- The end of `insert` behind its loop: the edges from `position` on, and the overlapping portion.
-- `close_here` is what follows when the interval does not touch the start of the next one.
unfoldable pub close_here : ℕ → Sweep → List Edge × ℕ
close_here e w =
    if not w.inside
    then (record { first = e; second = false } ∷ w.rest, w.overlapping_portion)
    else (w.rest, add_size w.overlapping_portion (add_size (sub_size e w.overlapping_start) 1))

unfoldable pub close_at : ℕ → Sweep → List Edge → List Edge × ℕ
unfolding close_here
close_at e w [] = close_here e w
close_at e w (x ∷ a) =
    if x.second && x.first == add_size e 1 then (a, w.overlapping_portion) else close_here e w

unfoldable pub close_insert : ℕ → Sweep → List Edge × ℕ
unfolding close_at
close_insert e w = close_at e w w.rest

-- `previous_to_start` of `insert`: the cursor whose next edge it is, or `none` for `end()`.
unfoldable pub find_previous : ℕ → List Edge → List Edge → Option Cursor
find_previous s [] [] = none
find_previous s [] (x ∷ a) =
    if ltb s x.first then none else some (record { before = []; after = x ∷ a })
find_previous s (p ∷ b) a = some (record { before = b; after = p ∷ a })

-- Where the start edge goes: the cursor behind `position`, `fallsInside` and `overlappingStart`.
pub record Placed : Type 0 where
  pub at : Cursor
  pub falls_inside : Bool
  pub start : ℕ

unfoldable pub place_behind : ℕ → List Edge → List Edge → Placed
place_behind s b [] = record {
  at = record { before = b; after = [] };
  falls_inside = false;
  start = 0;
}
place_behind s b (p ∷ a) =
    if not p.second
    then (if add_size p.first 1 == s
        then record { at = record { before = b; after = a }; falls_inside = false; start = 0 }
        else record {
          at = record { before = record { first = s; second = true } ∷ p ∷ b; after = a };
          falls_inside = false;
          start = 0;
        })
    else record { at = record { before = p ∷ b; after = a }; falls_inside = true; start = s }

unfoldable pub place_start : ℕ → List Edge → Option Cursor → Placed
unfolding place_behind insert_edge
place_start s es none = record {
  at = insert_edge (record { first = s; second = true }) es;
  falls_inside = false;
  start = 0;
}
place_start s es (some c) = place_behind s c.before c.after

-- The body of `insert(startElement, endElement)` behind the placing of the start edge.
unfoldable pub insert_placed : ℕ → ℕ → ℕ → Placed → IntervalSet
unfolding close_insert sweep
insert_placed s e n p =
    let (tail, portion) = close_insert e (sweep e p.falls_inside p.start 0 p.at.after) in
    record {
      intervals = rebuild p.at.before tail;
      count = add_size n (sub_size (add_size (sub_size e s) 1) portion);
    }

-- `insert(startElement, endElement)`
unfoldable pub insert_at : ℕ → ℕ → ℕ → List Edge → IntervalSet
unfolding lower_bound find_previous place_start insert_placed insert_edge
insert_at s e n [] =
    let first = insert_edge (record { first = s; second = true }) [] in
    let both =
      insert_edge (record { first = e; second = false }) (rebuild first.before first.after) in
    record { intervals = rebuild both.before both.after; count = add_size (sub_size e s) 1 }
insert_at s e n (x ∷ es) =
    let c = lower_bound (x ∷ es) (record { first = s; second = true }) in
    insert_placed s e n (place_start s (x ∷ es) (find_previous s c.before c.after))

unfoldable pub insert : ℕ → ℕ → IntervalSet → IntervalSet
unfolding insert_at
insert s e set = insert_at s e set.count set.intervals

-- `erase(startElement, endElement)` from the start of the removal on: `inside`,
-- `overlappingStart` and the cursor `position`.
unfoldable pub erase_from : ℕ → ℕ → Bool → ℕ → Cursor → IntervalSet
unfolding sweep insert_edge
erase_from e n inside ovs c =
    let w = sweep e inside ovs 0 c.after in
    let left = rebuild c.before w.rest in
    if w.inside
    then (let both = insert_edge (record { first = add_size e 1; second = true }) left in
        record {
          intervals = rebuild both.before both.after;
          count =
              sub_size n
                (add_size w.overlapping_portion (add_size (sub_size e w.overlapping_start) 1));
        })
    else record { intervals = left; count = sub_size n w.overlapping_portion }

-- The three places of `nextToStart`, on the edges before it and from it on.
unfoldable pub erase_at : ℕ → ℕ → ℕ → List Edge → List Edge → IntervalSet
unfolding erase_from insert_edge
erase_at s e n [] [] = record { intervals = []; count = n }
erase_at s e n [] (x ∷ a) = erase_from e n false x.first (record { before = []; after = x ∷ a })
erase_at s e n (p ∷ b) [] = record { intervals = rebuild (p ∷ b) []; count = n }
erase_at s e n (p ∷ b) (x ∷ a) =
    if p.second
    then erase_from e n true s
        (insert_edge (record { first = sub_size s 1; second = false }) (rebuild (p ∷ b) (x ∷ a)))
    else erase_from e n false 0 (record { before = p ∷ b; after = x ∷ a })

unfoldable pub erase : ℕ → ℕ → IntervalSet → IntervalSet
unfolding lower_bound erase_at
erase s e set =
    let c = lower_bound set.intervals (record { first = s; second = true }) in
    erase_at s e set.count c.before c.after

-- `find`: the start edge of the interval that holds the element, or `none` for `end()`.
unfoldable pub find_at : List Edge → List Edge → Option Edge
find_at b [] = none
find_at [] (x ∷ a) = none
find_at (p ∷ b) (x ∷ a) = if p.second then some p else none

unfoldable pub find : ℕ → IntervalSet → Option Edge
unfolding lower_bound find_at
find x set =
    let c = lower_bound set.intervals (record { first = x; second = false }) in
    find_at c.before c.after

unfoldable pub exists : ℕ → IntervalSet → Bool
unfolding find
exists x set = elim (find x set) [ none ↦ false | some p ↦ true ]

unfoldable pub size : IntervalSet → ℕ
size set = set.count

unfoldable pub empty : IntervalSet → Bool
unfolding size
empty set = size set == 0

unfoldable pub clear : IntervalSet → IntervalSet
clear set = record { intervals = []; count = 0 }

-- `swap` exchanges the edges alone.
unfoldable pub swap : IntervalSet → IntervalSet → IntervalSet × IntervalSet
swap set rhs = (record set { intervals = rhs.intervals }, record rhs { intervals = set.intervals })

-- `insert(rhs)`: for each edge of `rhs` the interval from its value to its Boolean, as a number.
-- `none` is the failure of `LBASSERT(startElement <= endElement)`.
unfoldable pub insert_edges : List Edge → IntervalSet → Option IntervalSet
unfolding insert
insert_edges [] set = some set
insert_edges (x ∷ es) set =
    let rest = insert_edges es (insert x.first (if x.second then 1 else 0) set) in
    if leb x.first (if x.second then 1 else 0) then rest else none

unfoldable pub insert_set : IntervalSet → IntervalSet → Option IntervalSet
unfolding insert_edges
insert_set rhs set = insert_edges rhs.intervals set
