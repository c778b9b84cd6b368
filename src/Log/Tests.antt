-- ===== src/Log/Tests.antt =====
-- Two threads that write to one stream.
use lunchbox.Prelude.{ℕ, ◌≡◌, refl, false, List, [], ◌∷◌, ◌++◌, none, some, get_elem?, Option}
use lunchbox.Log.{call, Text, Format, LogBuffer, Call, System, new_log, steps, pos}
use lunchbox.Log.Texts.{layout_of, texts, calls_of, text_of}
use lunchbox.Log.Flush.{Program, new_program, Event, event, events, waiting}
use lunchbox.Log.Whole.{Holds, all_ended}
use lunchbox.Log.Streams.{events_text}

abbrev dashes : Format
dashes = record { header = λ detailed thread file time. b'-' ∷ []; place = λ file line. file }

abbrev two_logs : System
two_logs = record { logs = new_log ∷ new_log ∷ []; shared = [] }

-- The first thread blocks a flush, and the second one writes in between.
abbrev writing : List (ℕ × Call)
writing =
    (0, Call.disables_flush)
    ∷ (0, Call.overflows false 1 (some b'a'))
    ∷ (0, Call.syncs)
    ∷ (1, Call.indents)
    ∷ (1, Call.overflows false 2 (some b'x'))
    ∷ (1, Call.syncs)
    ∷ (0, Call.enables_flush)
    ∷ (0, Call.overflows false 3 (some b'b'))
    ∷ (0, Call.syncs)
    ∷ (0, Call.overflows false 4 (some b'c'))
    ∷ []

abbrev after_writing : System
after_writing = record {
  logs =
      record new_log { new_line = false; buffer = b'-' ∷ b'c' ∷ [] }
      ∷ record new_log { indent = pos 1 }
      ∷ [];
  shared =
      (1, b'-' ∷ b' ' ∷ b' ' ∷ b' ' ∷ b' ' ∷ b'x' ∷ []) ∷ (0, b'-' ∷ b'a' ∷ b'-' ∷ b'b' ∷ []) ∷ [];
}

writing_runs : steps dashes writing two_logs ≡ some after_writing
unfolding steps new_log
writing_runs = refl

-- Two threads flush at once: the second one waits for the lock, and has written one byte in the end.
abbrev flushing : List Event
flushing =
    Event.calls 0 (Call.overflows false 1 (some b'a'))
    ∷ Event.calls 1 (Call.overflows false 2 (some b'x'))
    ∷ Event.enters 0
    ∷ Event.enters 1
    ∷ Event.locks 0
    ∷ Event.puts 0
    ∷ Event.puts 0
    ∷ Event.unlocks 0
    ∷ Event.locks 1
    ∷ Event.puts 1
    ∷ []

abbrev or_new : Option Program → Program
or_new none = new_program []
or_new (some p) = p

unfoldable flushed : Program
unfolding events new_log
flushed = or_new (events dashes flushing (new_program (new_log ∷ new_log ∷ [])))

flushing_runs : events dashes flushing (new_program (new_log ∷ new_log ∷ [])) ≡ some flushed
unfolding flushed call
flushing_runs = refl

bytes_written : flushed.stream ≡ (0, b'-') ∷ (0, b'a') ∷ (1, b'-') ∷ []
unfolding flushed call
bytes_written = refl

-- The second thread cannot take the lock first.
locked_out :
    (event dashes (Event.locks 1) (record flushed { lock = some 0; phases = λ i. waiting })) ≡ none
unfolding flushed event call
locked_out = refl

events_text_example :
    (bs : List (ℕ × Text)) × (b : LogBuffer) × Holds flushed bs flushed.lock
    × (get_elem? flushed.logs 1 ≡ some b)
    × (texts 1 bs ++ b.buffer
        ≡ [] ++ text_of dashes (calls_of 1 (all_ended flushing)) (layout_of new_log))
unfolding new_log
events_text_example =
    events_text dashes flushing (new_log ∷ new_log ∷ []) flushed 1 new_log flushing_runs refl
