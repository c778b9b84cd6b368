-- ===== src/Log/Whole.antt =====
-- The stream holds whole buffers, and the part of one that is being written under the lock.
use lunchbox.Prelude.{
  ℕ, ◌≡◌, ◌≢◌, refl, sym, ap, ◌∙◌, Bool, true, false, ◌&&◌, List, [], ◌∷◌, ◌++◌, Option, none, some,
  ◌==◌, bind, if◌then◌else◌, get_elem?, append-nil, append_assoc, some-eq,
}
use lunchbox.Log.{
  Text, Format, LogBuffer, Call, Output, System, call, keeping, sync, disable_flush, enable_flush,
  set_thread_name,
}
use lunchbox.Log.Flush.{
  Phase, outside, waiting, writing, Program, Event, calls, enters, locks, puts, unlocks, flushes,
}
use lunchbox.Log.Texts.{sync-keeps}

-- The bytes of a text, written by thread i, and of whole buffers.
abbrev pub bytes_of : ℕ → Text → List (ℕ × ℕ)
bytes_of i [] = []
bytes_of i (c ∷ cs) = (i, c) ∷ bytes_of i cs

abbrev pub spread : List (ℕ × Text) → List (ℕ × ℕ)
spread [] = []
spread (b ∷ bs) = bytes_of b.0 b.1 ++ spread bs

abbrev pub is_writing : Phase → Bool
is_writing outside = false
is_writing waiting = false
is_writing (writing rest) = true

-- The stream by who has the lock: the whole buffers `bs`, or these and then the first bytes of the buffer
-- of the thread that has the lock. No other thread is writing.
pub data Holds (p : Program) (bs : List (ℕ × Text)) : Option ℕ → Type 0 where
  unlocked : p.stream ≡ spread bs → ((j : ℕ) → is_writing (p.phases j) ≡ false) → Holds p bs none
  locked :
      (i : ℕ) (b : LogBuffer) (done rest : Text)
      → get_elem? p.logs i ≡ some b
      → (b.blocked == 0) ≡ true
      → b.buffer ≡ done ++ rest
      → p.phases i ≡ writing rest
      → p.stream ≡ spread bs ++ bytes_of i done
      → ((j : ℕ) → i ≢ j → is_writing (p.phases j) ≡ false)
      → Holds p bs (some i)

-- What waits for the lock may flush.
pub record Sound (p : Program) (bs : List (ℕ × Text)) : Type 0 where
  pub holds : Holds p bs p.lock
  pub waits :
      (i : ℕ) (b : LogBuffer)
      → p.phases i ≡ waiting
      → get_elem? p.logs i ≡ some b
      → (b.blocked == 0) ≡ true

-- The calls that end with an event, in a system whose flushes are one step each.
abbrev pub ended : Event → List (ℕ × Call)
ended (calls i c) = (i, c) ∷ []
ended (enters i) = []
ended (locks i) = []
ended (puts i) = []
ended (unlocks i) = (i, Call.syncs) ∷ []

abbrev pub all_ended : List Event → List (ℕ × Call)
all_ended [] = []
all_ended (e ∷ es) = ended e ++ all_ended es

abbrev pub onto : Program → List (ℕ × Text) → System
onto p bs = record { logs = p.logs; shared = bs }

pub bytes_of-append :
    (i : ℕ) (xs ys : Text) → bytes_of i (xs ++ ys) ≡ bytes_of i xs ++ bytes_of i ys
bytes_of-append i [] ys = refl
bytes_of-append i (x ∷ xs) ys = ap (λ l. (i, x) ∷ l) (bytes_of-append i xs ys)

pub spread_last :
    (bs : List (ℕ × Text)) (i : ℕ) (t : Text)
    → spread (bs ++ (i, t) ∷ []) ≡ spread bs ++ bytes_of i t
spread_last [] i t = append-nil (bytes_of i t)
spread_last (b ∷ bs) i t =
    ap (λ l. bytes_of b.0 b.1 ++ l) (spread_last bs i t)
    ∙ sym (append_assoc (bytes_of b.0 b.1) (spread bs) (bytes_of i t))

pub both-true : (a b : Bool) → (a && b) ≡ true → (a ≡ true) × (b ≡ true)
both-true true true e = (refl, refl)
both-true true false e = absurd cc
both-true false b e = absurd cc

pub checked {ℓ} :
    {A : Type ℓ} (t : Bool) (o : Option A) (a : A)
    → (if t then o else none) ≡ some a
    → (t ≡ true) × (o ≡ some a)
checked true o a e = (refl, e)
checked false o a e = absurd (cc)

quiet_bind :
    (m : Option LogBuffer) (bs : List (ℕ × Text)) (o : Output)
    → bind m (λ b. some (keeping [] b)) ≡ some o
    → bind m (λ b. some (keeping bs b)) ≡ some (keeping bs o.log)
quiet_bind none bs o e = absurd cc
quiet_bind (some b) bs o e = ap (λ k. some (keeping bs k.log)) (some-eq (keeping [] b) o e)

module _ (f : Format) where
  -- A call that does not flush leaves the stream, whatever it is.
  pub quiet_call :
      (i : ℕ) (c : Call) (b : LogBuffer) (bs : List (ℕ × Text)) (o : Output)
      → flushes c b ≡ false
      → call f i c (keeping [] b) ≡ some o
      → call f i c (keeping bs b) ≡ some (keeping bs o.log)
  unfolding call
  quiet_call i (Call.overflows detailed time c) b bs o h e =
      ap (λ k. some (keeping bs k.log)) (some-eq _ o e)
  quiet_call i Call.syncs b bs o h e =
      let same : record b { new_line = true } ≡ o.log =
        ap (λ (k : Output). k.log)
          (sym (sync-keeps i (keeping [] b) h) ∙ some-eq (sync i (keeping [] b)) o e) in
      ap some (sync-keeps i (keeping bs b) h ∙ ap (keeping bs) same)
  quiet_call i Call.indents b bs o h e = ap (λ k. some (keeping bs k.log)) (some-eq _ o e)
  quiet_call i Call.exdents b bs o h e = ap (λ k. some (keeping bs k.log)) (some-eq _ o e)
  quiet_call i Call.disables_flush b bs o h e = quiet_bind (disable_flush b) bs o e
  quiet_call i Call.enables_flush b bs o h e = quiet_bind (enable_flush b) bs o e
  quiet_call i Call.disables_header b bs o h e = ap (λ k. some (keeping bs k.log)) (some-eq _ o e)
  quiet_call i Call.enables_header b bs o h e = ap (λ k. some (keeping bs k.log)) (some-eq _ o e)
  quiet_call i (Call.sets_thread_name name) b bs o h e = quiet_bind (set_thread_name name b) bs o e
  quiet_call i (Call.sets_log_info file line) b bs o h e =
      ap (λ k. some (keeping bs k.log)) (some-eq _ o e)
