-- ===== src/File/Paths.antt =====
-- The directory and the name of a path.
use lunchbox.Prelude.{
  ℕ, suc, ◌+◌, ◌≡◌, refl, subst, ap, ◌∙◌, Bool, true, false, ◌||◌, [], ◌∷◌, ◌++◌, none, some, arith,
  take, drop,
}
use lunchbox.Log.{Text}
use lunchbox.File.{
  is_separator, later, last_separator, filename_from, dirname_from, get_filename, get_dirname,
}

abbrev pub has_separator : Text → Bool
has_separator [] = false
has_separator (c ∷ cs) = is_separator c || has_separator cs

last_separator-none : (f : Text) → has_separator f ≡ false → last_separator f ≡ none
last_separator-none [] e = refl
last_separator-none (c ∷ f) e =
    let here : is_separator c ≡ false = ground arith in
    let there : has_separator f ≡ false = ground arith in
    rw (last_separator-none f there, here) refl

take_next : (n x : ℕ) (l : Text) → take (n + 1) (x ∷ l) ≡ x ∷ take n l
take_next n x l =
    let e : suc n ≡ n + 1 = omega arith in subst (λ m. take m (x ∷ l) ≡ x ∷ take n l) e refl

drop_next : (n x : ℕ) (l : Text) → drop (n + 1) (x ∷ l) ≡ drop n l
drop_next n x l =
    let e : suc n ≡ n + 1 = omega arith in subst (λ m. drop m (x ∷ l) ≡ drop n l) e refl

split_lem :
    (d : Text) (c : ℕ) (f : Text)
    → is_separator c ≡ true
    → has_separator f ≡ false
    → (i : ℕ) × (last_separator (d ++ c ∷ f) ≡ some i)
      × (take (i + 1) (d ++ c ∷ f) ≡ d ++ c ∷ [])
      × (drop (i + 1) (d ++ c ∷ f) ≡ f)
split_lem [] c f s n = (0, rw (last_separator-none f n, s) refl, refl, refl)
split_lem (x ∷ d) c f s n =
    let (i, at, front, back) = split_lem d c f s n in
    (
      i + 1,
      ap (later (is_separator x)) at,
      take_next (i + 1) x (d ++ c ∷ f) ∙ ap (λ l. x ∷ l) front,
      drop_next (i + 1) x (d ++ c ∷ f) ∙ back,
    )

-- A path of a directory with its separator and a name without one is cut into the two. A path without
-- a separator is a name in the directory `./`.
pub get_dirname-get_filename :
    (d f : Text) (c : ℕ)
    → is_separator c ≡ true
    → has_separator f ≡ false
    → (get_dirname (d ++ c ∷ f) ≡ d ++ c ∷ [])
      × (get_filename (d ++ c ∷ f) ≡ f)
      × (get_dirname f ≡ b'.' ∷ b'/' ∷ [])
      × (get_filename f ≡ f)
unfolding get_dirname get_filename
get_dirname-get_filename d f c s n =
    let (i, at, front, back) = split_lem d c f s n in
    let whole = last_separator-none f n in
    (
      ap (dirname_from (d ++ c ∷ f)) at ∙ front,
      ap (filename_from (d ++ c ∷ f)) at ∙ back,
      ap (dirname_from f) whole,
      ap (filename_from f) whole,
    )
