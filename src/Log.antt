-- ===== src/Log.antt =====
-- lunchbox/log.cpp: a buffer for each thread, which is flushed into one stream. A text is a list
-- of character codes.
pub mod Levels
pub mod Texts
pub mod Flush
pub mod Whole
pub mod Holders
pub mod Follows
pub mod Streams
mod Tests
use lunchbox.Prelude.{
  ℕ, zero, suc, ◌+◌, ◌-◌, Bool, true, false, not, List, [], ◌∷◌, ◌++◌, Option, none, some, ◌==◌,
  ltb, bind, if◌then◌else◌, length, take, drop, get_elem?, set, replicate,
}

-- `int`: `negsuc n` is -(n + 1).
pub data ℤ : Type 0 where
  pos : ℕ → ℤ
  negsuc : ℕ → ℤ

abbrev pub next : ℤ → ℤ
next (pos n) = pos (n + 1)
next (negsuc zero) = pos 0
next (negsuc (suc n)) = negsuc n

abbrev pub previous : ℤ → ℤ
previous (pos zero) = negsuc 0
previous (pos (suc n)) = pos n
previous (negsuc n) = negsuc (n + 1)

abbrev pub is_zero : ℤ → Bool
is_zero (pos n) = n == 0
is_zero (negsuc n) = false

abbrev pub Text : Type 0
Text = List ℕ

-- What the stream's manipulators and `snprintf` make: the header of a line, by whether the level is above
-- LOG_INFO, the thread's name, the place in the source and the time, and the place in the source.
pub record Format : Type 0 where
  pub header : Bool → Text → Text → ℕ → Text
  pub place : Text → ℕ → Text

-- `detail::Log`
pub record LogBuffer : Type 0 where
  pub thread : Text
  pub file : Text
  pub indent : ℤ
  pub blocked : ℕ
  pub no_header : ℤ
  pub new_line : Bool
  pub buffer : Text

-- The constructor, and the name that it sets, "Unknown".
unfoldable pub new_log : LogBuffer
new_log = record {
  thread = b'U' ∷ b'n' ∷ b'k' ∷ b'n' ∷ b'o' ∷ b'w' ∷ b'n' ∷ [];
  file = [];
  indent = pos 0;
  blocked = 0;
  no_header = pos 0;
  new_line = true;
  buffer = [];
}

-- `for( int i = 0; i < _indent; ++i )` with four spaces a round.
unfoldable pub indentation : ℤ → Text
indentation (negsuc n) = []
indentation (pos zero) = []
indentation (pos (suc n)) = b' ' ∷ b' ' ∷ b' ' ∷ b' ' ∷ indentation (pos n)

-- The calls of one thread on its log. A character comes with whether the level is above LOG_INFO and the
-- time; `none` is EOF.
pub data Call : Type 0 where
  overflows : Bool → ℕ → Option ℕ → Call
  syncs : Call
  indents : Call
  exdents : Call
  disables_flush : Call
  enables_flush : Call
  disables_header : Call
  enables_header : Call
  sets_thread_name : Text → Call
  sets_log_info : Text → ℕ → Call

-- What has been written to the stream: whole buffers, each with the thread that flushed it.
pub record Output : Type 0 where
  pub log : LogBuffer
  pub stream : List (ℕ × Text)

-- The threads of a program, each with its log, and the stream that they share, where a flush is one
-- step. Log/Flush has the lock in it and the single bytes.
pub record System : Type 0 where
  pub logs : List LogBuffer
  pub shared : List (ℕ × Text)

-- `sync` by thread `i`.
unfoldable pub sync : ℕ → Output → Output
sync i o =
    if o.log.blocked == 0
    then record {
      log = record o.log { new_line = true; buffer = [] };
      stream = o.stream ++ (i, o.log.buffer) ∷ [];
    }
    else record o { log = record o.log { new_line = true } }

-- `disableFlush` and `enableFlush`, with their assertions.
unfoldable pub disable_flush : LogBuffer → Option LogBuffer
disable_flush b =
    if ltb (b.blocked + 1) 100 then some (record b { blocked = b.blocked + 1 }) else none

unfoldable pub enable_flush : LogBuffer → Option LogBuffer
enable_flush b = if b.blocked == 0 then none else some (record b { blocked = b.blocked - 1 })

-- `setThreadName`, with its assertion.
unfoldable pub set_thread_name : Text → LogBuffer → Option LogBuffer
set_thread_name name b = if length name == 0 then none else some (record b { thread = take 8 name })

abbrev pub keeping : List (ℕ × Text) → LogBuffer → Output
keeping stream b = record { log = b; stream = stream }

module _ (f : Format) where
  -- What `overflow` puts before the first character of a line.
  unfoldable pub line_start : Bool → ℕ → LogBuffer → Text
  unfolding indentation
  line_start detailed time b =
      if b.new_line
      then (if is_zero b.no_header then f.header detailed b.thread b.file time else [])
        ++ indentation b.indent
      else []

  unfoldable pub overflow : Bool → ℕ → Option ℕ → LogBuffer → LogBuffer
  unfolding line_start
  overflow detailed time none b = b
  overflow detailed time (some c) b = record b {
    new_line = false;
    buffer = b.buffer ++ (line_start detailed time b ++ c ∷ []);
  }

  -- `setLogInfo`
  unfoldable pub set_log_info : Text → ℕ → LogBuffer → LogBuffer
  set_log_info file line b = record b {
    file = f.place (if ltb 29 (length file) then drop (length file - 29) file else file) line;
  }

  unfoldable pub call : ℕ → Call → Output → Option Output
  unfolding overflow sync disable_flush enable_flush set_thread_name set_log_info
  call i (overflows detailed time c) o = some (keeping o.stream (overflow detailed time c o.log))
  call i syncs o = some (sync i o)
  call i indents o = some (keeping o.stream (record o.log { indent = next o.log.indent }))
  call i exdents o = some (keeping o.stream (record o.log { indent = previous o.log.indent }))
  call i disables_flush o = bind (disable_flush o.log) (λ b. some (keeping o.stream b))
  call i enables_flush o = bind (enable_flush o.log) (λ b. some (keeping o.stream b))
  call i disables_header o =
      some (keeping o.stream (record o.log { no_header = next o.log.no_header }))
  call i enables_header o =
      some (keeping o.stream (record o.log { no_header = previous o.log.no_header }))
  call i (sets_thread_name name) o =
      bind (set_thread_name name o.log) (λ b. some (keeping o.stream b))
  call i (sets_log_info file line) o = some (keeping o.stream (set_log_info file line o.log))

  -- One thread makes a call.
  unfoldable pub step : ℕ → Call → System → Option System
  unfolding call
  step i c s = bind (get_elem? s.logs i) (λ b.
      bind (call i c (keeping s.shared b))
        (λ o. some (record { logs = set s.logs i o.log; shared = o.stream })))

  unfoldable pub steps : List (ℕ × Call) → System → Option System
  unfolding step
  steps [] s = some s
  steps (e ∷ es) s = bind (step e.0 e.1 s) (steps es)
