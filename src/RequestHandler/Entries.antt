-- ===== src/RequestHandler/Entries.antt =====
-- What changes when the record of one request changes or its entry goes.
use lunchbox.Prelude.{
  ==-true, ==-false, ==-refl, ℕ, ◌≡◌, ◌≢◌, refl, sym, ap, ◌∙◌, subst, ◌⊎◌, inl, inr, true, false,
  List, ◌∷◌, Option, none, some, ◌==◌, get_elem?, set, length-set, get_elem?-set, get_elem?-lt,
  get_elem?-some, arith, Bool-cases,
}
use lunchbox.RequestHandler.{RequestHandler, Record, find_in, erase_in}
use lunchbox.RequestHandler.Tables.{In, find_in-erase_in, find_in-erase_in_ne}
use lunchbox.RequestHandler.Status.{
  absent, pending, answered, status, entry_status, record_status, IsValid,
}

-- The record of a request that is there.
pub record Entry (h : RequestHandler) (id p : ℕ) (r : Record) : Type 0 where
  pub entry : find_in h.requests id ≡ some p
  pub at : get_elem? h.records p ≡ some r

-- What a handler has of an identifier: no entry, or one with a locked or an unlocked record.
pub status-cases :
    (h : RequestHandler) (id : ℕ)
    → IsValid h
    → ((find_in h.requests id ≡ none) × (status h id ≡ absent))
      ⊎ ((p : ℕ) × (r : Record) × Entry h id p r
          × ((r.locked ≡ true) × (status h id ≡ pending)
              ⊎ (r.locked ≡ false) × (status h id ≡ answered r.result)))
status-cases h id v = of_entry (find_in h.requests id) refl
  where
    of_record :
        (p : ℕ) (r : Record)
        → find_in h.requests id ≡ some p
        → get_elem? h.records p ≡ some r
        → (r.locked ≡ true) × (status h id ≡ pending)
          ⊎ (r.locked ≡ false) × (status h id ≡ answered r.result)
    of_record p r f e = elim (Bool-cases r.locked) [
      | inl t ↦ inl (t, rw (f, e, t) refl)
      | inr t ↦ inr (t, rw (f, e, t) refl)
    ]

    of_entry :
        (o : Option ℕ)
        → find_in h.requests id ≡ o
        → ((find_in h.requests id ≡ none) × (status h id ≡ absent))
          ⊎ ((p : ℕ) × (r : Record) × Entry h id p r
              × ((r.locked ≡ true) × (status h id ≡ pending)
                  ⊎ (r.locked ≡ false) × (status h id ≡ answered r.result)))
    of_entry none f = inl (f, rw f refl)
    of_entry (some p) f =
        let (r, e) = get_elem?-some h.records p (v.live id p f).0 in
        inr (p, r, record { entry = f; at = e }, of_record p r f e)

-- A change of the record of one request leaves the others alone.
pub set-IsValid :
    (h : RequestHandler) (id p : ℕ) (r new : Record)
    → IsValid h
    → Entry h id p r
    → IsValid (record h { records = set h.records p new })
      × ((j : ℕ) → id ≢ j → status (record h { records = set h.records p new }) j ≡ status h j)
set-IsValid h id p r new v n = (
  record {
    known = v.known;
    apart = v.apart;
    locked = λ q i.
        let (s, el, lk) = v.locked q i in
        let ne : p ≢ q =
          λ e. (v.live id p n.entry).1 (subst (λ k. In k h.free_records) (sym e) i) in
        (s, kept q ne ∙ el, lk);
    live = λ j q f. (omega (arith, length-set h.records p new, (v.live j q f).0), (v.live j q f).1);
    own = v.own;
  },
  λ j ne. same j ne (find_in h.requests j) refl,
)
  where
    kept : (q : ℕ) → p ≢ q → get_elem? (set h.records p new) q ≡ get_elem? h.records q
    kept q ne =
        get_elem?-set h.records p q new (get_elem?-lt h.records p r n.at)
        ∙ rw (==-false p q ne) refl

    same :
        (j : ℕ)
        → id ≢ j
        → (o : Option ℕ) → find_in h.requests j ≡ o
        → entry_status (set h.records p new) o ≡ entry_status h.records o
    same j ne none f = refl
    same j ne (some q) f =
        ap record_status (kept q (λ e. ne (v.own id j q (n.entry ∙ ap some e) f)))

pub set-at :
    (h : RequestHandler) (id p : ℕ) (r new : Record)
    → Entry h id p r
    → Entry (record h { records = set h.records p new }) id p new
set-at h id p r new n = record {
  entry = n.entry;
  at = get_elem?-set h.records p p new (get_elem?-lt h.records p r n.at) ∙ rw (==-refl p) refl;
}

-- The entry of a request that is not served goes, and its record is free again.
abbrev pub dropped : ℕ → ℕ → RequestHandler → RequestHandler
dropped id p h = record h { requests = erase_in h.requests id; free_records = p ∷ h.free_records }

no_entry : (p : ℕ) → none ≢ some p
no_entry p e = cc

still_there :
    (es : List (ℕ × ℕ)) (id j q : ℕ)
    → find_in (erase_in es id) j ≡ some q
    → (id ≢ j) × (find_in es j ≡ some q)
still_there es id j q f = elim (Bool-cases (id == j)) [
  | inl t ↦
      let same = ==-true id j t in
      absurd (no_entry q (sym (find_in-erase_in es id) ∙ ap (find_in (erase_in es id)) same ∙ f))
  | inr t ↦
      let ne : id ≢ j = λ e. ground (arith, e, t) in (ne, sym (find_in-erase_in_ne es id j ne) ∙ f)
]

pub dropped-IsValid :
    (h : RequestHandler) (id p : ℕ) (r : Record)
    → IsValid h
    → Entry h id p r
    → r.locked ≡ true
    → IsValid (dropped id p h)
      × (status (dropped id p h) id ≡ absent)
      × ((j : ℕ) → id ≢ j → status (dropped id p h) j ≡ status h j)
dropped-IsValid h id p r v n shut = (
  record {
    known = v.known;
    apart = ((v.live id p n.entry).1, v.apart);
    locked = λ q i. elim i [
      | inl e ↦ (r, ap (get_elem? h.records) e ∙ n.at, shut)
      | inr i ↦ v.locked q i
    ];
    live = λ j q f.
        let (ne, old) = still_there h.requests id j q f in
        (
          (v.live j q old).0,
          λ i. elim i [
            | inl e ↦ ne (v.own id j p n.entry (old ∙ ap some e))
            | inr i ↦ (v.live j q old).1 i
          ],
        );
    own = λ i j q f g.
        v.own i j q (still_there h.requests id i q f).1 (still_there h.requests id j q g).1;
  },
  rw (find_in-erase_in h.requests id) refl,
  λ j ne. rw (find_in-erase_in_ne h.requests id j ne) refl,
)
