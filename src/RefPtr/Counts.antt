-- ===== src/RefPtr/Counts.antt =====
-- What `ref` and `unref` do to the counts of all objects.
use lunchbox.Prelude.{
  get_elem?-set_cases, ℕ, ◌+◌, ◌-◌, ◌<◌, ◌≡◌, ◌≢◌, refl, sym, ap, ◌∙◌, inl, inr, false, List,
  Option, none, some, ◌==◌, if◌then◌else◌, get_elem?, set, get_elem?-lt, arith,
}
use lunchbox.RefPtr.{Object, ref_object, delete_object, unref_object}

-- The pointers that hold an object, as a number.
abbrev pub points : ℕ → Option ℕ → ℕ
points p none = 0
points p (some q) = if q == p then 1 else 0

-- Every object has the count that `f` says, and it is deleted exactly when that is 0.
pub record Counted (f : ℕ → ℕ) (objects : List Object) : Type 0 where
  pub counts : (p : ℕ) (o : Object) → get_elem? objects p ≡ some o → o.ref_count ≡ f p
  pub lives : (p : ℕ) (o : Object) → get_elem? objects p ≡ some o → o.deleted ≡ (f p == 0)

pub alive : (n : ℕ) → 0 < n → (n == 0) ≡ false
alive n h = ground arith

pub ref_object_lem :
    (o : Object)
    → o.deleted ≡ false
    → ref_object o ≡ some (record { ref_count = o.ref_count + 1; deleted = false })
unfolding ref_object
ref_object_lem o e = rw e refl

pub unref_object_lem :
    (o : Object)
    → o.deleted ≡ false
    → 0 < o.ref_count
    → unref_object o
      ≡ some (
        o.ref_count - 1 == 0,
        record { ref_count = o.ref_count - 1; deleted = o.ref_count - 1 == 0 },
      )
unfolding unref_object delete_object
unref_object_lem o e h = ground (arith, e)

-- A change of one object, as a change of the counts.
pub Counted-set :
    (f g : ℕ → ℕ) (objects : List Object) (p : ℕ) (o new : Object)
    → Counted f objects
    → get_elem? objects p ≡ some o
    → new.ref_count ≡ g p
    → new.deleted ≡ (g p == 0)
    → ((q : ℕ) → p ≢ q → g q ≡ f q)
    → Counted g (set objects p new)
Counted-set f g objects p o new c at count lives others = record {
  counts = λ q x e. elim (get_elem?-set_cases objects p q new x (get_elem?-lt objects p o at) e) [
    | inl u ↦ sym (ap (λ k. k.ref_count) u.1) ∙ count ∙ ap g u.0
    | inr u ↦ c.counts q x u.1 ∙ sym (others q u.0)
  ];
  lives = λ q x e. elim (get_elem?-set_cases objects p q new x (get_elem?-lt objects p o at) e) [
    | inl u ↦ sym (ap (λ k. k.deleted) u.1) ∙ lives ∙ ap (λ k. g k == 0) u.0
    | inr u ↦ c.lives q x u.1 ∙ ap (λ k. k == 0) (sym (others q u.0))
  ];
}
