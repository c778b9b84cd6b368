-- ===== src/RefPtr/Lives.antt =====
-- The objects live as long as a pointer holds them: `ref`, `unref` and the assignment against the counts.
use lunchbox.Prelude.{
  bind, ℕ, ◌+◌, ◌-◌, ◌≤◌, ◌<◌, ◌≡◌, ◌≢◌, refl, sym, ap, ◌∙◌, subst, fun_ext, inl, inr, true, false,
  List, Option, none, some, ◌==◌, length, set, length-set, get_elem?-some, arith, Bool-cases,
  ==-refl, ==-false, ==-true,
}
use lunchbox.RefPtr.{Object, ref_at, unref_at, same_pointer, assign}
use lunchbox.RefPtr.Counts.{points, Counted, ref_object_lem, unref_object_lem, Counted-set, alive}

-- The pointer is null, or it is at an object that is counted.
abbrev pub Held : (ℕ → ℕ) → ℕ → Option ℕ → Type 0
Held f n none = Unit {0}
Held f n (some p) = (p < n) × (0 < f p)

-- The objects that a call makes, with the counts that they have.
abbrev pub Makes : Option (List Object) → (ℕ → ℕ) → ℕ → Type 0
Makes result f n =
    (objects : List Object) × (result ≡ some objects) × (length objects ≡ n) × Counted f objects

pub Counted-eq :
    (f g : ℕ → ℕ) (objects : List Object)
    → ((p : ℕ) → f p ≡ g p)
    → Counted f objects
    → Counted g objects
Counted-eq f g objects e c = subst (λ h. Counted h objects) (fun_ext e) c

points_self : (p : ℕ) → points p (some p) ≡ 1
points_self p = rw (==-refl p)

points_other : (p q : ℕ) → p ≢ q → points q (some p) ≡ 0
points_other p q h = rw (==-false p q h)

pub ref_at-Makes :
    (f : ℕ → ℕ) (objects : List Object) (new : Option ℕ)
    → Counted f objects
    → Held f (length objects) new
    → Makes (ref_at new objects) (λ q. f q + points q new) (length objects)
unfolding ref_at
ref_at-Makes f objects none c h =
    (objects, refl, refl, Counted-eq f (λ q. f q + 0) objects (λ q. omega arith) c)
ref_at-Makes f objects (some p) c h =
    let (o, at) = get_elem?-some objects p h.0 in
    let live : o.deleted ≡ false = c.lives p o at ∙ alive (f p) h.1 in
    let more : Object = record { ref_count = o.ref_count + 1; deleted = false } in
    (
      set objects p more,
      rw (at, ref_object_lem o live) refl,
      length-set objects p more,
      Counted-set f (λ q. f q + points q (some p)) objects p o more c at
          (ap (λ k. k + 1) (c.counts p o at) ∙ ap (λ k. f p + k) (sym (points_self p)))
          (sym (alive (f p + points p (some p)) (omega (arith, h.1))))
          (λ q ne. omega (arith, points_other p q ne)),
    )

pub unref_at-Makes :
    (f : ℕ → ℕ) (objects : List Object) (old : Option ℕ)
    → Counted f objects
    → Held f (length objects) old
    → Makes (unref_at old objects) (λ q. f q - points q old) (length objects)
unfolding unref_at
unref_at-Makes f objects none c h =
    (objects, refl, refl, Counted-eq f (λ q. f q - 0) objects (λ q. omega arith) c)
unref_at-Makes f objects (some p) c h =
    let (o, at) = get_elem?-some objects p h.0 in
    let live : o.deleted ≡ false = c.lives p o at ∙ alive (f p) h.1 in
    let count : o.ref_count ≡ f p = c.counts p o at in
    let fewer : o.ref_count - 1 ≡ f p - points p (some p) =
      ap (λ k. k - 1) count ∙ ap (λ k. f p - k) (sym (points_self p)) in
    let less : Object = record { ref_count = o.ref_count - 1; deleted = o.ref_count - 1 == 0 } in
    (
      set objects p less,
      rw (at, unref_object_lem o live (omega arith)) refl,
      length-set objects p less,
      Counted-set f (λ q. f q - points q (some p)) objects p o less c at fewer
          (ap (λ k. k == 0) fewer) (λ q ne. omega (arith, points_other p q ne)),
    )

same_pointer-eq : (old new : Option ℕ) → same_pointer old new ≡ true → old ≡ new
same_pointer-eq none none e = refl
same_pointer-eq none (some q) e = cc
same_pointer-eq (some p) none e = cc
same_pointer-eq (some p) (some q) e = ap some (==-true p q e)

-- Pointers that are held stay held when there are more counts and more objects.
pub Held-add :
    (f g : ℕ → ℕ) (n m : ℕ) (old : Option ℕ)
    → ((q : ℕ) → f q ≤ g q)
    → n ≤ m
    → Held f n old
    → Held g m old
Held-add f g n m none le e h = tt
Held-add f g n m (some p) le e h = (omega (arith, h.0), omega (arith, h.1, le p))

-- The address of a new object is no pointer's yet.
pub other_pointer :
    (f : ℕ → ℕ) (n : ℕ) (old : Option ℕ) → Held f n old → same_pointer old (some n) ≡ false
other_pointer f n none h = refl
other_pointer f n (some p) h = ==-false p n (λ same. omega (arith, same, h.0))

-- What `ref` of the new object and then `unref` of the old one make.
pub ref_unref-Makes :
    (f : ℕ → ℕ) (objects made : List Object) (old new : Option ℕ)
    → ref_at new objects ≡ some made
    → Counted (λ q. f q + points q new) made
    → Held f (length made) old
    → Makes
        (bind (ref_at new objects) (unref_at old))
        (λ q. f q + points q new - points q old)
        (length made)
ref_unref-Makes f objects made old new e c h =
    let (objects', e', len, c') =
      unref_at-Makes (λ q. f q + points q new) made old c
        (Held-add f (λ q. f q + points q new) (length made) (length made) old (λ q. omega arith)
          (omega arith) h) in
    (objects', rw e e', len, c')

pub assign-Makes :
    (f : ℕ → ℕ) (objects : List Object) (old new : Option ℕ)
    → Counted f objects
    → Held f (length objects) old
    → Held f (length objects) new
    → Makes (assign old new objects) (λ q. f q + points q new - points q old) (length objects)
unfolding assign
assign-Makes f objects old new c h k = elim (Bool-cases (same_pointer old new)) [
  | inl t ↦ (
    objects,
    rw t refl,
    refl,
    Counted-eq f (λ q. f q + points q new - points q old) objects
        (λ q. omega (arith, ap (points q) (same_pointer-eq old new t))) c,
  )
  | inr t ↦
      let (made, e, len, c') = ref_at-Makes f objects new c k in
      let (objects', e', len', c2) = ref_unref-Makes f objects made old new e c' (
        Held-add f f (length objects) (length made) old (λ q. omega arith) (omega (arith, len))
          h) in
      (objects', rw t e', len' ∙ len, c2)
]
