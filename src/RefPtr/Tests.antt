-- ===== src/RefPtr/Tests.antt =====
-- Three pointers that share two objects.
use lunchbox.Prelude.{ℕ, ◌≡◌, refl, true, false, List, [], ◌∷◌, none, some, arith}
use lunchbox.RefPtr.{Program, Use, use_pointer, use_all}
use lunchbox.RefPtr.Shares.{
  IsValid, holders, no_objects, no_objects-IsValid, use_pointer-IsValid, use_all-lives,
}

-- A first object is shared and let go of by both of its pointers, a second one stays.
abbrev sharing : List Use
sharing =
    Use.assigns_new 0
    ∷ Use.constructs 1 0
    ∷ Use.assigns_new 0
    ∷ Use.assigns 2 1
    ∷ Use.assigns 1 1
    ∷ Use.destructs 1
    ∷ Use.assigns 2 0
    ∷ []

abbrev shared : Program
shared = record {
  objects =
      record { ref_count = 0; deleted = true } ∷ record { ref_count = 2; deleted = false } ∷ [];
  pointers = some 1 ∷ none ∷ some 1 ∷ [];
}

sharing_ends : use_all sharing (no_objects 3) ≡ some shared
unfolding use_all
sharing_ends = refl

-- A constructor in place of a pointer that holds an object would leak the object.
twice : use_all (Use.assigns_new 0 ∷ Use.constructs 0 1 ∷ []) (no_objects 2) ≡ none
unfolding use_all
twice = refl

use_pointer-IsValid_example :
    (t : Program) × (use_pointer (Use.assigns_new 1) (no_objects 2) ≡ some t) × IsValid t
use_pointer-IsValid_example =
    use_pointer-IsValid (Use.assigns_new 1) (no_objects 2) (no_objects-IsValid 2) (omega arith)

use_all-lives_example : ◌≡◌ {A = ℕ} 2 (holders shared 1) × (false ≡ false)
use_all-lives_example =
    use_all-lives 3 sharing shared 1 (record { ref_count = 2; deleted = false }) sharing_ends refl
