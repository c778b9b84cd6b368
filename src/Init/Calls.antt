-- ===== src/Init/Calls.antt =====
-- Each call of `exit` undoes one of `init`.
use lunchbox.Prelude.{
  ℕ, zero, suc, ◌+◌, ◌-◌, ◌≡◌, refl, sym, ap, ◌∙◌, Bool, true, false, List, [], ◌∷◌, some,
  same_text, ltb, ltb-true, arith, if◌then◌else◌,
}
use lunchbox.Log.{Text, ℤ, pos, next}
use lunchbox.Init.{Library, read_arguments, verbose, more_verbose, logfile_option, init, exit}

if_initialized :
    (b : Bool) (v : ℤ) (l k : Library)
    → l.initialized ≡ v
    → k.initialized ≡ v
    → (if b then l else k).initialized ≡ v
if_initialized true v l k e f = e
if_initialized false v l k e f = f

-- Reading the arguments does not change the count.
read_arguments-initialized :
    (argv0 : Text) (arguments : List Text) (l : Library)
    → (read_arguments argv0 arguments l).initialized ≡ l.initialized
read_arguments-initialized argv0 [] l = refl
read_arguments-initialized argv0 (a ∷ []) l =
    if_initialized (same_text a more_verbose) l.initialized _ _ refl (
      if_initialized (same_text a verbose) l.initialized _ _ refl
        (if_initialized (same_text a logfile_option) l.initialized _ _ refl refl))
read_arguments-initialized argv0 (a ∷ b ∷ rest) l =
    if_initialized (same_text a more_verbose) l.initialized _ _
      (read_arguments-initialized argv0 (b ∷ rest) (record l { level = l.level + 2 }))
      (if_initialized (same_text a verbose) l.initialized _ _
        (read_arguments-initialized argv0 (b ∷ rest) (record l { level = l.level + 1 }))
        (if_initialized (same_text a logfile_option) l.initialized _ _
          (read_arguments-initialized argv0 rest (record l { output = some b }))
          (read_arguments-initialized argv0 (b ∷ rest) l)))

exit_lem :
    (n : ℕ) (l : Library)
    → l.initialized ≡ pos n
    → ((exit l).0.initialized ≡ pos (n - 1))
      × ((exit l).1 ≡ ltb 0 n)
      × ((exit l).0.resets ≡ (if ltb 1 n then l.resets else l.resets + 1))
unfolding exit
exit_lem zero l e = rw e (refl, refl, refl)
exit_lem (suc zero) l e = rw e (refl, refl, refl)
exit_lem (suc (suc n)) l e =
    let same : suc n ≡ suc (suc n) - 1 = omega arith in
    let some_left = sym (ltb-true 0 (suc (suc n)) (omega arith)) in
    let more = ltb-true 1 (suc (suc n)) (omega arith) in rw (e, more) (ap pos same, some_left, refl)

-- With n calls of `init` that are not undone: `exit` leaves n - 1 of them, returns false exactly if there
-- was none, and resets the log exactly if there was at most one. `init` makes them n + 1 and returns
-- true, and does not reset the log.
pub exit-init :
    (n : ℕ) (argv0 : Text) (arguments : List Text) (l : Library)
    → l.initialized ≡ pos n
    → ((init argv0 arguments l).0.initialized ≡ pos (n + 1))
      × ((init argv0 arguments l).1 ≡ true)
      × ((exit l).0.initialized ≡ pos (n - 1))
      × ((exit l).1 ≡ ltb 0 n)
      × ((exit l).0.resets ≡ (if ltb 1 n then l.resets else l.resets + 1))
unfolding init
exit-init n argv0 arguments l e =
    let (left, result, resets) = exit_lem n l e in
    (ap next (read_arguments-initialized argv0 arguments l ∙ e), refl, left, result, resets)
