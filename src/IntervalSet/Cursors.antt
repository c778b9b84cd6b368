-- ===== src/IntervalSet/Cursors.antt =====
-- Where `lower_bound` and `insert` of the multiset put the cursor, on edges that are well formed.
use lunchbox.Prelude.{
  ◌+◌, ◌≤◌, ◌≡◌, refl, ◌∙◌, true, false, List, [], ◌∷◌, if◌then◌else◌, arith, Bool-cases, inl, inr,
}
use lunchbox.EdgeSet.{
  Edge, Cursor, rebuild, edge_compare, lower_bound, lower_bound_from, insert_edge, insert_edge_from,
}
use lunchbox.IntervalSet.Invariant.{IsZip, Precedes, Alternates, top, top_mono}

abbrev pub HeadBefore : Edge → List Edge → Type 0
HeadBefore key [] = Unit {0}
HeadBefore key (x ∷ b) = edge_compare x key ≡ true

abbrev pub HeadFrom : Edge → List Edge → Type 0
HeadFrom key [] = Unit {0}
HeadFrom key (x ∷ a) = edge_compare x key ≡ false

-- A cursor that splits the edges at a key.
pub record Split (key : Edge) (es : List Edge) (c : Cursor) : Type 0 where
  pub zip : IsZip c.before c.after
  pub same : rebuild c.before c.after ≡ es
  pub head_before : HeadBefore key c.before
  pub head_from : HeadFrom key c.after

lower_bound_from-Split :
    (key : Edge) (b a : List Edge)
    → IsZip b a
    → HeadBefore key b
    → Split key (rebuild b a) (lower_bound_from b key a)
unfolding lower_bound_from
lower_bound_from-Split key b [] z h = record {
  zip = z;
  same = refl;
  head_before = h;
  head_from = tt;
}
lower_bound_from-Split key b (x ∷ a) z h = elim (Bool-cases (edge_compare x key)) [
  | inl less ↦
      rw less (lower_bound_from-Split key (x ∷ b) a ((z.1.0, z.1.1, z.1.2, z.0), z.1.3) less)
  | inr from ↦ rw from (record { zip = z; same = refl; head_before = h; head_from = from })
]

pub lower_bound-Split :
    (key : Edge) (es : List Edge) → Alternates false 0 es → Split key es (lower_bound es key)
unfolding lower_bound
lower_bound-Split key es h = lower_bound_from-Split key [] es (tt, h) tt

pub not_after :
    (x e : Edge) → (if e.second then e.first else e.first + 1) ≤ x.first → edge_compare x e ≡ false
unfolding edge_compare
not_after x e h = ground arith

insert_edge_from-skip :
    (x : Edge) (b a : List Edge)
    → Precedes b
    → top b ≤ x.first
    → insert_edge_from [] x (rebuild b a) ≡ insert_edge_from b x a
unfolding insert_edge_from
insert_edge_from-skip x [] a p t = refl
insert_edge_from-skip x (e ∷ b) a p t =
    insert_edge_from-skip x b (e ∷ a) p.3 (top_mono e b p t) ∙ rw (not_after x e t)

abbrev pub HeadAfter : Edge → List Edge → Type 0
HeadAfter x [] = Unit {0}
HeadAfter x (y ∷ a) = edge_compare x y ≡ true

insert_edge_from-here :
    (x : Edge) (b a : List Edge)
    → HeadAfter x a
    → insert_edge_from b x a ≡ record { before = x ∷ b; after = a }
unfolding insert_edge_from
insert_edge_from-here x b [] h = refl
insert_edge_from-here x b (y ∷ a) h = rw h

-- An edge that belongs at a place is inserted there.
pub insert_edge-at :
    (x : Edge) (b a : List Edge)
    → Precedes b
    → top b ≤ x.first
    → HeadAfter x a
    → insert_edge x (rebuild b a) ≡ record { before = x ∷ b; after = a }
unfolding insert_edge
insert_edge-at x b a p t h = insert_edge_from-skip x b a p t ∙ insert_edge_from-here x b a h
