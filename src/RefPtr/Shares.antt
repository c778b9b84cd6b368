-- ===== src/RefPtr/Shares.antt =====
-- Programs that share objects through their pointers: no use after the deletion, and no leak.
use lunchbox.Prelude.{
  bind-eq_some, ℕ, zero, suc, ◌+◌, ◌-◌, ◌≤◌, ◌<◌, ◌≡◌, ◌≢◌, refl, sym, ap, ◌∙◌, subst, inl, inr,
  false, List, [], ◌∷◌, ◌++◌, Option, none, some, ◌==◌, length, get_elem?, set, length-set,
  length-append, get_elem?-append_last, get_elem?-append_cases, get_elem?-set_cases, get_elem?-lt,
  get_elem?-some, arith, some-eq, sum_of, sum_of-set, sum_of-ge, sum_of-eq_zero, replicate, ==-refl,
  ==-false,
}
use lunchbox.RefPtr.{
  Object, new_object, ref_at, unref_at, assign, Program, Use, with_objects, construct, use_pointer,
  use_all,
}
use lunchbox.RefPtr.Counts.{points, Counted}
use lunchbox.RefPtr.Lives.{
  Held, Makes, Counted-eq, ref_at-Makes, unref_at-Makes, assign-Makes, ref_unref-Makes, Held-add,
  other_pointer,
}

-- The pointers to each object.
abbrev pub holders : Program → ℕ → ℕ
holders s p = sum_of (points p) s.pointers

-- Every object has as many counts as there are pointers to it, and is deleted exactly if there is none.
pub record IsValid (s : Program) : Type 0 where
  pub counted : Counted (holders s) s.objects
  pub within : (i p : ℕ) → get_elem? s.pointers i ≡ some (some p) → p < length s.objects

-- What the program has to keep to: the pointers that it names are there, and a constructor is called
-- on a pointer that is not constructed.
abbrev pub Applies : Use → Program → Type 0
Applies (Use.constructs i j) s = (get_elem? s.pointers i ≡ some none) × (j < length s.pointers)
Applies (Use.assigns i j) s = (i < length s.pointers) × (j < length s.pointers)
Applies (Use.assigns_new i) s = i < length s.pointers
Applies (Use.destructs i) s = i < length s.pointers

abbrev Keeps : Option Program → Type 0
Keeps r = (t : Program) × (r ≡ some t) × IsValid t

held :
    (s : Program) (i : ℕ) (v : Option ℕ)
    → IsValid s
    → get_elem? s.pointers i ≡ some v
    → Held (holders s) (length s.objects) v
held s i none v at = tt
held s i (some p) v at = (
  v.within i p at,
  (let one : points p (some p) ≡ 1 = rw (==-refl p) in
      omega (arith, one, sum_of-ge (points p) s.pointers i (some p) at)),
)

-- A pointer that is set, with objects that are counted for it.
Keeps-set :
    (s : Program) (i : ℕ) (old new : Option ℕ) (f : ℕ → ℕ) (n : ℕ) (result : Option (List Object))
    → IsValid s
    → get_elem? s.pointers i ≡ some old
    → ((p : ℕ) → new ≡ some p → p < n)
    → length s.objects ≤ n
    → ((q : ℕ) → f q ≡ holders s q + points q new - points q old)
    → Makes result f n
    → Keeps (with_objects s i new result)
Keeps-set s i old new f n result v at fits le count (objects, e, len, c) = (
  record { objects = objects; pointers = set s.pointers i new },
  rw e refl,
  record {
    counted =
        Counted-eq f (λ q. sum_of (points q) (set s.pointers i new)) objects
          (λ q. omega (
            arith,
            count q,
            sum_of-set (points q) s.pointers i old new at,
            sum_of-ge (points q) s.pointers i old at,
          ))
          c;
    within = λ j p e'.
        elim (get_elem?-set_cases s.pointers i j new (some p) (get_elem?-lt s.pointers i old at)
          e') [
            | inl u ↦ omega (arith, fits p u.1, len)
            | inr u ↦ omega (arith, v.within j p u.1, len, le)
          ];
  },
)

fits_from :
    (s : Program) (j : ℕ) (new : Option ℕ)
    → IsValid s
    → get_elem? s.pointers j ≡ some new
    → (p : ℕ) → new ≡ some p
    → p < length s.objects
fits_from s j new v at p e = v.within j p (at ∙ ap some e)

-- The objects before the new one keep their counts.
old-Counted :
    (f : ℕ → ℕ) (objects : List Object) (q : ℕ) (x : Object)
    → length objects ≢ q
    → get_elem? (objects ++ new_object ∷ []) q ≡ some x
    → (get_elem? objects q ≡ some x) × (f q + points q (some (length objects)) ≡ f q)
old-Counted f objects q x ne e = elim (get_elem?-append_cases objects new_object q x e) [
  | inl u ↦ absurd (ne u.0)
  | inr u ↦ (u, rw (==-false (length objects) q ne) (omega arith))
]

-- The object that is allocated for `operator=( T* )`, and its first count.
new-Counted :
    (f : ℕ → ℕ) (objects : List Object)
    → Counted f objects
    → ((q : ℕ) → length objects ≤ q → f q ≡ 0)
    → Makes
        (ref_at (some (length objects)) (objects ++ new_object ∷ []))
        (λ q. f q + points q (some (length objects)))
        (length objects + 1)
unfolding ref_at new_object
new-Counted f objects c beyond =
    let n : ℕ = length objects in
    let first : Object = record { ref_count = 1; deleted = false } in
    let all : List Object = objects ++ new_object ∷ [] in
    let at : get_elem? all n ≡ some new_object = get_elem?-append_last objects new_object in
    let one : f n + points n (some n) ≡ 1 =
      (let u : points n (some n) ≡ 1 = rw (==-refl n) in omega (arith, u, beyond n)) in
    let old : (q : ℕ) (x : Object)
        → n ≢ q
        → get_elem? all q ≡ some x
        → (get_elem? objects q ≡ some x) × (f q + points q (some n) ≡ f q) =
      (λ q x ne e. old-Counted f objects q x ne e) in
    (
      set all n first,
      rw at refl,
      length-set all n first ∙ length-append objects (new_object ∷ []),
      record {
        counts = λ q x e.
            elim (get_elem?-set_cases all n q first x (get_elem?-lt all n new_object at) e) [
              | inl u ↦
                  sym (ap (λ o. o.ref_count) u.1) ∙ sym one ∙ ap (λ k. f k + points k (some n)) u.0
              | inr u ↦ let (e', same) = old q x u.0 u.1 in c.counts q x e' ∙ sym same
            ];
        lives = λ q x e.
            elim (get_elem?-set_cases all n q first x (get_elem?-lt all n new_object at) e) [
              | inl u ↦
                  sym (ap (λ o. o.deleted) u.1)
                  ∙ ap (λ k. k == 0) (sym one)
                  ∙ ap (λ k. f k + points k (some n) == 0) u.0
              | inr u ↦
                  let (e', same) = old q x u.0 u.1 in c.lives q x e' ∙ ap (λ k. k == 0) (sym same)
            ];
      },
    )

none_beyond : (s : Program) (q : ℕ) → IsValid s → length s.objects ≤ q → holders s q ≡ 0
none_beyond s q v le = sum_of-eq_zero (points q) s.pointers (λ i x e. not_at i x e)
  where
    not_at : (i : ℕ) (x : Option ℕ) → get_elem? s.pointers i ≡ some x → points q x ≡ 0
    not_at i none e = refl
    not_at i (some p) e = rw (==-false p q (λ same. omega (arith, v.within i p e, same, le))) refl

assign_new-Makes :
    (f : ℕ → ℕ) (objects : List Object) (old : Option ℕ)
    → Counted f objects
    → ((q : ℕ) → length objects ≤ q → f q ≡ 0)
    → Held f (length objects) old
    → Makes
        (assign old (some (length objects)) (objects ++ new_object ∷ []))
        (λ q. f q + points q (some (length objects)) - points q old)
        (length objects + 1)
unfolding assign
assign_new-Makes f objects old c beyond h =
    let n : ℕ = length objects in
    let (made, e, len, c') = new-Counted f objects c beyond in
    let (objects', e', len', c2) =
      ref_unref-Makes f (objects ++ new_object ∷ []) made old (some n) e c'
        (Held-add f f n (length made) old (λ q. omega arith) (omega (arith, len)) h) in
    (objects', rw (other_pointer f n old h) e', len' ∙ len, c2)

-- A use that keeps to the rules succeeds, so that no assertion fails and no deleted object is used, and
-- the counts are right behind it.
pub use_pointer-IsValid :
    (u : Use) (s : Program)
    → IsValid s
    → Applies u s
    → (t : Program) × (use_pointer u s ≡ some t) × IsValid t
unfolding use_pointer construct
use_pointer-IsValid (Use.constructs i j) s v (at, j_lt) =
    let (new, at_new) = get_elem?-some s.pointers j j_lt in
    let f : ℕ → ℕ = λ q. holders s q + points q new in
    rw (at, at_new)
      (Keeps-set s i none new f (length s.objects) (ref_at new s.objects) v at
        (fits_from s j new v at_new) (omega arith) (λ q. omega arith)
        (ref_at-Makes (holders s) s.objects new v.counted (held s j new v at_new)))
use_pointer-IsValid (Use.assigns i j) s v (i_lt, j_lt) =
    let (old, at) = get_elem?-some s.pointers i i_lt in
    let (new, at_new) = get_elem?-some s.pointers j j_lt in
    let f : ℕ → ℕ = λ q. holders s q + points q new - points q old in
    rw (at, at_new)
      (Keeps-set s i old new f (length s.objects) (assign old new s.objects) v at
        (fits_from s j new v at_new) (omega arith) (λ q. refl)
        (assign-Makes (holders s) s.objects old new v.counted (held s i old v at)
          (held s j new v at_new)))
use_pointer-IsValid (Use.assigns_new i) s v i_lt =
    let (old, at) = get_elem?-some s.pointers i i_lt in
    let n : ℕ = length s.objects in
    rw at (
      Keeps-set s i old (some n) (λ q. holders s q + points q (some n) - points q old) (n + 1)
        (assign old (some n) (s.objects ++ new_object ∷ [])) v at
        (λ p e. omega (arith, some-eq n p e)) (omega arith) (λ q. refl)
        (assign_new-Makes (holders s) s.objects old v.counted (λ q le. none_beyond s q v le)
          (held s i old v at)))
use_pointer-IsValid (Use.destructs i) s v i_lt =
    let (old, at) = get_elem?-some s.pointers i i_lt in
    rw at (
      Keeps-set s i old none (λ q. holders s q - points q old) (length s.objects)
        (unref_at old s.objects) v at (λ p e. cc) (omega arith) (λ q. omega arith)
        (unref_at-Makes (holders s) s.objects old v.counted (held s i old v at)))

constructs_null :
    (s : Program) (i : ℕ) (old new : Option ℕ) (t : Program)
    → construct s i old new ≡ some t
    → old ≡ none
unfolding construct
constructs_null s i none new t e = refl
constructs_null s i (some p) new t e = cc

use_pointer-Applies : (u : Use) (s t : Program) → use_pointer u s ≡ some t → Applies u s
unfolding use_pointer construct
use_pointer-Applies (Use.constructs i j) s t e =
    let (old, at, e') = bind-eq_some (get_elem? s.pointers i) _ t e in
    let (new, at_new, e2) = bind-eq_some (get_elem? s.pointers j) _ t e' in
    (at ∙ ap some (constructs_null s i old new t e2), get_elem?-lt s.pointers j new at_new)
use_pointer-Applies (Use.assigns i j) s t e =
    let (old, at, e') = bind-eq_some (get_elem? s.pointers i) _ t e in
    let (new, at_new, e2) = bind-eq_some (get_elem? s.pointers j) _ t e' in
    (get_elem?-lt s.pointers i old at, get_elem?-lt s.pointers j new at_new)
use_pointer-Applies (Use.assigns_new i) s t e =
    let (old, at, e') = bind-eq_some (get_elem? s.pointers i) _ t e in
    get_elem?-lt s.pointers i old at
use_pointer-Applies (Use.destructs i) s t e =
    let (old, at, e') = bind-eq_some (get_elem? s.pointers i) _ t e in
    get_elem?-lt s.pointers i old at

use_all-IsValid : (us : List Use) (s t : Program) → IsValid s → use_all us s ≡ some t → IsValid t
unfolding use_all
use_all-IsValid [] s t v e = subst IsValid (some-eq s t e) v
use_all-IsValid (u ∷ us) s t v e =
    let (s', e1, e2) = bind-eq_some (use_pointer u s) (use_all us) t e in
    let (s'', e3, v') = use_pointer-IsValid u s v (use_pointer-Applies u s s' e1) in
    use_all-IsValid us s' t (subst IsValid (some-eq s'' s' (sym e3 ∙ e1)) v') e2

-- Null pointers, and no object yet.
abbrev pub no_objects : ℕ → Program
no_objects n = record { objects = []; pointers = replicate n none }

null_pointers : (n i p : ℕ) → get_elem? (replicate n none) i ≢ some (some p)
null_pointers zero i p e = cc
null_pointers (suc n) zero p e = cc
null_pointers (suc n) (suc i) p e = null_pointers n i p e

pub no_objects-IsValid : (n : ℕ) → IsValid (no_objects n)
no_objects-IsValid n = record {
  counted = record { counts = λ p o e. cc; lives = λ p o e. cc };
  within = λ i p e. absurd (null_pointers n i p e);
}

-- From null pointers on, whatever the program does with its pointers, an object has as many counts as
-- there are pointers to it, and it has been deleted exactly if there is no pointer to it any more.
pub use_all-lives :
    (n : ℕ) (us : List Use) (t : Program) (p : ℕ) (o : Object)
    → use_all us (no_objects n) ≡ some t
    → get_elem? t.objects p ≡ some o
    → (o.ref_count ≡ holders t p) × (o.deleted ≡ (holders t p == 0))
use_all-lives n us t p o e at =
    let v = use_all-IsValid us (no_objects n) t (no_objects-IsValid n) e in
    (v.counted.counts p o at, v.counted.lives p o at)
