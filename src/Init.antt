-- ===== src/Init.antt =====
-- lunchbox/init.cpp: the arguments that `init` reads, and the count of the calls of `init` and `exit`.
pub mod Calls
mod Tests
use lunchbox.Prelude.{
  ℕ, zero, suc, ◌+◌, Bool, true, false, List, [], ◌∷◌, ◌++◌, Option, none, some, same_text,
  if◌then◌else◌,
}
use lunchbox.Log.{Text, ℤ, pos, negsuc, next, previous}
use lunchbox.File.{get_filename}

-- `_initialized`, `Log::level`, the file of `Log::setOutput`, and how often `exit` has reset the log.
pub record Library : Type 0 where
  pub initialized : ℤ
  pub level : ℕ
  pub output : Option Text
  pub resets : ℕ

abbrev pub verbose : Text
verbose = b'-' ∷ b'v' ∷ []

abbrev pub more_verbose : Text
more_verbose = b'-' ∷ b'v' ∷ b'v' ∷ []

abbrev pub logfile_option : Text
logfile_option =
    b'-' ∷ b'-' ∷ b'l' ∷ b'b' ∷ b'-' ∷ b'l' ∷ b'o' ∷ b'g' ∷ b'f' ∷ b'i' ∷ b'l' ∷ b'e' ∷ []

-- The loop over the arguments from index 1 on; `argv0` is argument 0.
abbrev pub read_arguments : Text → List Text → Library → Library
read_arguments argv0 [] l = l
read_arguments argv0 (a ∷ []) l =
    if same_text a more_verbose
    then record l { level = l.level + 2 }
    else if same_text a verbose
    then record l { level = l.level + 1 }
    else if same_text a logfile_option
    then record l { output = some (get_filename argv0 ++ (b'.' ∷ b'l' ∷ b'o' ∷ b'g' ∷ [])) }
    else l
read_arguments argv0 (a ∷ b ∷ rest) l =
    let after_one = read_arguments argv0 (b ∷ rest) in
    let after_two = read_arguments argv0 rest in
    if same_text a more_verbose
    then after_one (record l { level = l.level + 2 })
    else if same_text a verbose
    then after_one (record l { level = l.level + 1 })
    else if same_text a logfile_option
    then after_two (record l { output = some b })
    else after_one l

abbrev pub is_above_zero : ℤ → Bool
is_above_zero (pos zero) = false
is_above_zero (pos (suc n)) = true
is_above_zero (negsuc n) = false

abbrev pub is_below_zero : ℤ → Bool
is_below_zero (pos n) = false
is_below_zero (negsuc n) = true

-- `init`: it always returns true, and what the first call prints is left out.
unfoldable pub init : Text → List Text → Library → Library × Bool
init argv0 arguments l =
    let l' = read_arguments argv0 arguments l in
    (record l' { initialized = next l'.initialized }, true)

-- `exit` behind its first test.
abbrev pub reset : Library → Library × Bool
reset l =
    let l' = record l { resets = l.resets + 1 } in
    if is_below_zero l'.initialized then (record l' { initialized = pos 0 }, false) else (l', true)

unfoldable pub exit : Library → Library × Bool
exit l =
    let l' = record l { initialized = previous l.initialized } in
    if is_above_zero l'.initialized then (l', true) else reset l'
