-- ===== src/RequestHandler/Register.antt =====
-- A request that is registered is pending and has a record of its own.
use lunchbox.Prelude.{
  ==-true, ==-false, ==-refl, some-eq, ℕ, ◌+◌, ◌%◌, ◌≤◌, ◌<◌, ◌≡◌, ◌≢◌, refl, sym, ap, ◌∙◌, ◌⊎◌,
  inl, inr, true, false, List, [], ◌∷◌, Option, none, some, ◌==◌, if◌then◌else◌, length, get_elem?,
  length-append, length-set, get_elem?-set, get_elem?-append, get_elem?-lt, arith, Bool-cases, ltb,
  subst, ◌-◌,
}
use lunchbox.RequestHandler.{
  RequestHandler, Record, find_in, erase_in, max_id, take_record, register,
}
use lunchbox.RequestHandler.Tables.{In, Apart, find_in-erase_in_ne}
use lunchbox.RequestHandler.Status.{pending, status, IsValid, entry_status, record_status}

-- The record that is taken is locked and was not in use, and the others stay as they are.
record Taken (h : RequestHandler) (p : ℕ) (t : RequestHandler) : Type 0 where
  pub fresh : (id : ℕ) → find_in h.requests id ≢ some p
  pub same : t.requests ≡ h.requests
  pub longer : length h.records ≤ length t.records
  pub inside : p < length t.records
  pub ready : (r : Record) × (get_elem? t.records p ≡ some r) × (r.locked ≡ true)
  pub others :
      (q : ℕ) → p ≢ q → q < length h.records → get_elem? t.records q ≡ get_elem? h.records q
  pub apart : Apart t.free_records
  pub fewer : (q : ℕ) → In q t.free_records → In q h.free_records × (p ≢ q)

take_record-Taken :
    (user : ℕ) (free : List ℕ) (h : RequestHandler)
    → IsValid h
    → h.free_records ≡ free
    → Taken h (take_record user free h).0 (take_record user free h).1
unfolding take_record
take_record-Taken user [] h v e = record {
  fresh = λ id f. absurd (omega (arith, (v.live id (length h.records) f).0));
  same = refl;
  longer = omega (arith, length-append h.records (first ∷ []));
  inside = omega (arith, length-append h.records (first ∷ []));
  ready = (
    first,
    (let t : ltb (length h.records) (length h.records) ≡ false = ground arith in
        let z : length h.records - length h.records ≡ 0 = omega arith in
        get_elem?-append h.records (first ∷ []) (length h.records) ∙ rw (t, z) refl),
    refl,
  );
  others = λ q ne lt.
      let t : ltb q (length h.records) ≡ true = ground arith in
      get_elem?-append h.records (first ∷ []) q ∙ rw t refl;
  apart = v.apart;
  fewer = λ q i. (
    i,
    λ same. let (r, el, lk) = v.locked q i in omega (arith, same, get_elem?-lt h.records q r el),
  );
}
  where
    first : Record
    first = record { locked = true; user_data = user; result = record { low = 0; high = 0 } }
take_record-Taken user (p ∷ ps) h v e =
    let here : In p h.free_records = rw e (inl refl) in
    let (r, el, lk) = v.locked p here in
    let shut : Apart (p ∷ ps) = subst Apart e v.apart in
    let inside = get_elem?-lt h.records p r el in
    let reused = record r { user_data = user } in
    let same_length = length-set h.records p reused in
    rw el (record {
      fresh = λ id f. (v.live id p f).1 here;
      same = refl;
      longer = omega (arith, same_length);
      inside = omega (arith, same_length, inside);
      ready = (reused, get_elem?-set h.records p p reused inside ∙ rw (==-refl p) refl, lk);
      others = λ q ne lt. get_elem?-set h.records p q reused inside ∙ rw (==-false p q ne) refl;
      apart = shut.1;
      fewer = λ q i. (rw e (inr i), λ same. shut.0 (subst (λ k. In k ps) (sym same) i));
    })

find_in-new :
    (es : List (ℕ × ℕ)) (id p j : ℕ)
    → find_in ((id, p) ∷ erase_in es id) j ≡ (if id == j then some p else find_in es j)
find_in-new es id p j = elim (Bool-cases (id == j)) [
  | inl t ↦ rw t refl
  | inr t ↦ rw t (find_in-erase_in_ne es id j (λ e. ground (arith, e, t)))
]

-- The handler behind a registration, from the record that is taken.
abbrev entered : ℕ → ℕ → RequestHandler → RequestHandler
entered id p t = record t { request_id = id; requests = (id, p) ∷ erase_in t.requests id }

-- An entry behind a registration is the new one or an old one.
found :
    (h : RequestHandler) (id p j q : ℕ)
    → find_in ((id, p) ∷ erase_in h.requests id) j ≡ some q
    → ((id ≡ j) × (p ≡ q)) ⊎ (find_in h.requests j ≡ some q)
found h id p j q e = elim (Bool-cases (id == j)) [
  | inl t ↦
      let u : find_in ((id, p) ∷ erase_in h.requests id) j ≡ some p =
        find_in-new h.requests id p j ∙ rw t refl in
      inl (==-true id j t, some-eq p q (sym u ∙ e))
  | inr t ↦
      let u : find_in ((id, p) ∷ erase_in h.requests id) j ≡ find_in h.requests j =
        find_in-new h.requests id p j ∙ rw t refl in
      inr (sym u ∙ e)
]

entered-IsValid :
    (h t : RequestHandler) (id p : ℕ)
    → IsValid h
    → Taken h p t
    → id < max_id
    → IsValid (entered id p t)
entered-IsValid h t id p v k small = record {
  known = small;
  apart = k.apart;
  locked = λ q i.
      let (old, ne) = k.fewer q i in
      let (r, el, lk) = v.locked q old in
      (r, k.others q ne (get_elem?-lt h.records q r el) ∙ el, lk);
  live = λ j q f. elim (entry j q f) [
    | inl n ↦ (subst (λ x. x < length t.records) n.1 k.inside, λ i. (k.fewer q i).1 n.1)
    | inr o ↦ (omega (arith, (v.live j q o).0, k.longer), λ i. (v.live j q o).1 (k.fewer q i).0)
  ];
  own = λ i j q f g. elim (entry i q f) [
    | inl n ↦ elim (entry j q g) [
      | inl m ↦ sym n.0 ∙ m.0
      | inr o ↦ absurd (k.fresh j (o ∙ ap some (sym n.1)))
    ]
    | inr o ↦ elim (entry j q g) [
      | inl m ↦ absurd (k.fresh i (o ∙ ap some (sym m.1)))
      | inr u ↦ v.own i j q o u
    ]
  ];
}
  where
    entry :
        (j q : ℕ)
        → find_in ((id, p) ∷ erase_in t.requests id) j ≡ some q
        → ((id ≡ j) × (p ≡ q)) ⊎ (find_in h.requests j ≡ some q)
    entry j q f = found h id p j q (rw (sym k.same) f)

same_entry :
    (h t : RequestHandler) (p j : ℕ) (o : Option ℕ)
    → IsValid h
    → Taken h p t
    → find_in h.requests j ≡ o
    → entry_status t.records o ≡ entry_status h.records o
same_entry h t p j none v k f = refl
same_entry h t p j (some q) v k f =
    ap record_status (k.others q (λ e. k.fresh j (f ∙ ap some (sym e))) (v.live j q f).0)

-- The status of the new request, and of every other.
entered-status :
    (h t : RequestHandler) (id p : ℕ)
    → IsValid h
    → Taken h p t
    → (status (entered id p t) id ≡ pending)
      × ((j : ℕ) → id ≢ j → status (entered id p t) j ≡ status h j)
entered-status h t id p v k = (
  (let (r, el, lk) = k.ready in rw (find_in-new t.requests id p id, ==-refl id, el, lk) refl),
  λ j ne.
      rw (find_in-new t.requests id p j, ==-false id j ne, k.same)
        (same_entry h t p j (find_in h.requests j) v k refl),
)

-- `registerRequest` on a valid handler returns the next identifier, and that request is pending. The
-- handler stays valid, and every request of another identifier is as before.
pub register-pending :
    (user : ℕ) (h : RequestHandler)
    → IsValid h
    → ((register user h).0 ≡ (h.request_id + 1) % max_id)
      × IsValid (register user h).1
      × (status (register user h).1 (register user h).0 ≡ pending)
      × ((j : ℕ) → (register user h).0 ≢ j → status (register user h).1 j ≡ status h j)
unfolding register
register-pending user h v =
    let t = take_record user h.free_records h in
    let s = entered-status h t.1 id t.0 v taken in
    (refl, entered-IsValid h t.1 id t.0 v taken (omega arith), s.0, s.1)
  where
    id : ℕ
    id = (h.request_id + 1) % max_id

    taken : Taken h (take_record user h.free_records h).0 (take_record user h.free_records h).1
    taken = take_record-Taken user h.free_records h v refl
