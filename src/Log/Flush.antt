-- ===== src/Log/Flush.antt =====
-- `sync` of lunchbox/log.cpp between the threads: the lock, and the stream byte by byte. A thread that
-- writes does not look at the lock; it has taken it before.
use lunchbox.Prelude.{
  ℕ, Bool, true, false, not, ◌&&◌, List, [], ◌∷◌, ◌++◌, Option, none, some, ◌==◌, bind,
  if◌then◌else◌, get_elem?, set,
}
use lunchbox.Log.{Text, Format, LogBuffer, Call, Output, call, keeping}

-- Where a thread is: in no flush, in front of the lock, or behind it with what is left to be written.
pub data Phase : Type 0 where
  outside : Phase
  waiting : Phase
  writing : Text → Phase

abbrev pub is_outside : Phase → Bool
is_outside outside = true
is_outside waiting = false
is_outside (writing rest) = false

-- The logs of the threads, where the threads are, who has `globals().lock`, and the bytes in the
-- stream, each with the thread that wrote it.
pub record Program : Type 0 where
  pub logs : List LogBuffer
  pub phases : ℕ → Phase
  pub lock : Option ℕ
  pub stream : List (ℕ × ℕ)

abbrev pub new_program : List LogBuffer → Program
new_program logs = record { logs = logs; phases = λ i. outside; lock = none; stream = [] }

abbrev pub at_phase : ℕ → Phase → Program → ℕ → Phase
at_phase i phase p j = if i == j then phase else p.phases j

-- A call of a thread; a `sync` that writes goes through the other events.
pub data Event : Type 0 where
  calls : ℕ → Call → Event
  enters : ℕ → Event
  locks : ℕ → Event
  puts : ℕ → Event
  unlocks : ℕ → Event

abbrev pub flushes : Call → LogBuffer → Bool
flushes Call.syncs b = b.blocked == 0
flushes _ b = false

abbrev pub keep_log : ℕ → Program → Output → Option Program
keep_log i p o = some (record p { logs = set p.logs i o.log })

abbrev pub enter : ℕ → Program → LogBuffer → Option Program
enter i p b =
    if is_outside (p.phases i) && b.blocked == 0
    then some (record p { phases = at_phase i waiting p })
    else none

-- `ScopedFastWrite`, in front of which a thread waits while another one has the lock.
abbrev pub take_lock : ℕ → Program → LogBuffer → Phase → Option ℕ → Option Program
take_lock i p b waiting none =
    some (record p { phases = at_phase i (writing b.buffer) p; lock = some i })
take_lock i p b _ _ = none

-- `_stream.write`, one byte of it.
abbrev pub put : ℕ → Program → Phase → Option Program
put i p (writing (c ∷ rest)) =
    some (record p { phases = at_phase i (writing rest) p; stream = p.stream ++ (i, c) ∷ [] })
put i p _ = none

-- The end of the scope, `str("")` and `_newLine = true`.
abbrev pub release : ℕ → Program → LogBuffer → Phase → Option Program
release i p b (writing []) = some (record p {
  logs = set p.logs i (record b { new_line = true; buffer = [] });
  phases = at_phase i outside p;
  lock = none;
})
release i p b _ = none

module _ (f : Format) where
  abbrev pub make_call : ℕ → Call → Program → LogBuffer → Option Program
  make_call i c p b =
      if is_outside (p.phases i) && not (flushes c b)
      then bind (call f i c (keeping [] b)) (keep_log i p)
      else none

  unfoldable pub event : Event → Program → Option Program
  event (calls i c) p = bind (get_elem? p.logs i) (make_call i c p)
  event (enters i) p = bind (get_elem? p.logs i) (enter i p)
  event (locks i) p = bind (get_elem? p.logs i) (λ b. take_lock i p b (p.phases i) p.lock)
  event (puts i) p = put i p (p.phases i)
  event (unlocks i) p = bind (get_elem? p.logs i) (λ b. release i p b (p.phases i))

  unfoldable pub events : List Event → Program → Option Program
  unfolding event
  events [] p = some p
  events (e ∷ es) p = bind (event e p) (events es)
