-- ===== src/RefPtr.antt =====
-- lunchbox/refPtr.h, referenced.h and referenced.cpp: objects that count the pointers to them, and die
-- with the last one. Fewer than 2 ^ 31 pointers hold an object, so the `int32_t` does not overflow.
pub mod Counts
pub mod Lives
pub mod Shares
mod Tests
use lunchbox.Prelude.{
  ℕ, zero, suc, ◌+◌, ◌-◌, Bool, true, false, not, List, [], ◌∷◌, ◌++◌, Option, none, some, ◌==◌,
  ltb, if◌then◌else◌, length, get_elem?, set, bind,
}

-- `Referenced`: an object that is deleted stays in the store, so that a later use of it shows.
pub record Object : Type 0 where
  pub ref_count : ℕ
  pub deleted : Bool

unfoldable pub new_object : Object
new_object = record { ref_count = 0; deleted = false }

-- `ref`: `none` is the failure of the assertion.
unfoldable pub ref_object : Object → Option Object
ref_object o = if o.deleted then none else some (record o { ref_count = o.ref_count + 1 })

-- The destructor, with its two assertions.
unfoldable pub delete_object : Object → Option Object
delete_object o =
    if o.deleted
    then none
    else if o.ref_count == 0
    then some (record o { deleted = true })
    else none

-- `unref`: whether it was the last one, and the object behind it, which `notifyFree` deletes then.
unfoldable pub unref_object : Object → Option (Bool × Object)
unfolding delete_object
unref_object o =
    if o.deleted
    then none
    else if ltb 0 o.ref_count
    then (if o.ref_count - 1 == 0
        then elim (delete_object (record o { ref_count = o.ref_count - 1 })) [
          | none ↦ none
          | some d ↦ some (true, d)
        ]
        else some (false, record o { ref_count = o.ref_count - 1 }))
    else none

-- A change of the object at an address: `none` is a use of an address without an object.
abbrev pub replace_at : List Object → ℕ → Option Object → Option (List Object)
replace_at objects p none = none
replace_at objects p (some o) = some (set objects p o)

-- `_ref` and `_unref` of a `RefPtr`: `none` is the null pointer.
unfoldable pub ref_at : Option ℕ → List Object → Option (List Object)
unfolding ref_object
ref_at none objects = some objects
ref_at (some p) objects = bind (get_elem? objects p) (λ o. replace_at objects p (ref_object o))

unfoldable pub unref_at : Option ℕ → List Object → Option (List Object)
unfolding unref_object
unref_at none objects = some objects
unref_at (some p) objects =
    bind (get_elem? objects p) (λ o. bind (unref_object o) (λ r. some (set objects p r.1)))

-- `_ptr == rhs._ptr`
abbrev pub same_pointer : Option ℕ → Option ℕ → Bool
same_pointer none none = true
same_pointer none (some q) = false
same_pointer (some p) none = false
same_pointer (some p) (some q) = p == q

-- `operator=` of a pointer that holds `old`, for a pointer or another `RefPtr`: the objects behind it.
unfoldable pub assign : Option ℕ → Option ℕ → List Object → Option (List Object)
unfolding ref_at unref_at
assign old new objects =
    if same_pointer old new then some objects else bind (ref_at new objects) (unref_at old)

-- The program that uses the pointers: its objects, and the pointers that there are. A pointer before
-- its constructor and behind its destructor is null.
pub record Program : Type 0 where
  pub objects : List Object
  pub pointers : List (Option ℕ)

-- What the program does with the pointers: it constructs or assigns one from another, or from the
-- address of a new object, or destructs it.
pub data Use : Type 0 where
  constructs : ℕ → ℕ → Use
  assigns : ℕ → ℕ → Use
  assigns_new : ℕ → Use
  destructs : ℕ → Use

abbrev pub with_objects : Program → ℕ → Option ℕ → Option (List Object) → Option Program
with_objects s i new none = none
with_objects s i new (some objects) =
    some (record { objects = objects; pointers = set s.pointers i new })

-- `RefPtr(from)` in place of a null pointer: a pointer that holds an object is not constructed again.
unfoldable pub construct : Program → ℕ → Option ℕ → Option ℕ → Option Program
unfolding ref_at
construct s i none new = with_objects s i new (ref_at new s.objects)
construct s i (some p) new = none

unfoldable pub use_pointer : Use → Program → Option Program
unfolding construct assign unref_at new_object
use_pointer (constructs i j) s =
    bind (get_elem? s.pointers i)
      (λ old. bind (get_elem? s.pointers j) (λ new. construct s i old new))
use_pointer (assigns i j) s =
    bind (get_elem? s.pointers i) (λ old.
      bind (get_elem? s.pointers j) (λ new. with_objects s i new (assign old new s.objects)))
use_pointer (assigns_new i) s = bind (get_elem? s.pointers i) (λ old.
    with_objects s i (some (length s.objects))
      (assign old (some (length s.objects)) (s.objects ++ new_object ∷ [])))
use_pointer (destructs i) s =
    bind (get_elem? s.pointers i) (λ old. with_objects s i none (unref_at old s.objects))

unfoldable pub use_all : List Use → Program → Option Program
unfolding use_pointer
use_all [] s = some s
use_all (u ∷ us) s = bind (use_pointer u s) (use_all us)
