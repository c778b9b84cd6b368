-- ===== src/Init/Tests.antt =====
-- Arguments of a program, and a call of `exit` too many.
use lunchbox.Prelude.{◌≡◌, refl, false, [], ◌∷◌, none, some}
use lunchbox.Log.{Text, pos}
use lunchbox.File.{get_filename}
use lunchbox.Init.{Library, verbose, more_verbose, logfile_option, init, exit}

abbrev fresh : Library
fresh = record { initialized = pos 0; level = 2; output = none; resets = 0 }

abbrev program : Text
program = b'/' ∷ b'a' ∷ []

init_runs : (init program (verbose ∷ more_verbose ∷ logfile_option ∷ []) fresh).0 ≡ record {
  initialized = pos 1;
  level = 5;
  output = some (b'a' ∷ b'.' ∷ b'l' ∷ b'o' ∷ b'g' ∷ []);
  resets = 0;
}
unfolding init get_filename
init_runs = refl

-- The name of a file that is given is no argument of its own.
init_skips :
    (init program (logfile_option ∷ verbose ∷ []) fresh).0
    ≡ record { initialized = pos 1; level = 2; output = some verbose; resets = 0 }
unfolding init
init_skips = refl

exit_mismatch : exit fresh ≡ (record fresh { resets = 1 }, false)
unfolding exit
exit_mismatch = refl
