-- ===== src/Fork.antt =====
-- lunchbox/fork.cpp, `_buildCommandLine`: the words of a command. A text is a list of bytes.
pub mod Texts
pub mod Bounds
pub mod Words
mod Tests
use lunchbox.Prelude.{
  ℕ, ◌+◌, Bool, true, false, not, List, [], ◌∷◌, ◌++◌, Option, none, some, bind, ◌==◌, ltb,
  if◌then◌else◌, length, set, replicate,
}
use lunchbox.Log.{Text}

-- `inTicks`, whether a backslash stands before the next byte, the bytes of `buffer`, `bufferPos` and
-- `commandLine`.
pub record Reader : Type 0 where
  pub in_ticks : Bool
  pub escaped : Bool
  pub buffer : List ℕ
  pub buffer_pos : ℕ
  pub command_line : List Text

-- The text that a pointer to the buffer stands for: up to the first byte 0.
abbrev pub c_string : List ℕ → Text
c_string [] = []
c_string (c ∷ cs) = let rest = c_string cs in if c == 0 then [] else c ∷ rest

-- `buffer[bufferPos] = c`: `none` is a write out of the buffer.
unfoldable pub write : ℕ → Reader → Option Reader
write c r =
    if ltb r.buffer_pos (length r.buffer)
    then some (record r { buffer = set r.buffer r.buffer_pos c })
    else none

abbrev pub advance : Reader → Option Reader
advance r = some (record r { buffer_pos = r.buffer_pos + 1 })

-- `buffer[bufferPos++] = c`
unfoldable pub keep : ℕ → Reader → Option Reader
unfolding write
keep c r = bind (write c r) advance

abbrev pub push_back : Reader → Option Reader
push_back r =
    some (record r { buffer_pos = 0; command_line = r.command_line ++ (c_string r.buffer ∷ []) })

-- The end of a word: the byte 0 behind it, and `push_back(&buffer[0])`.
unfoldable pub push : Reader → Option Reader
unfolding write
push r = bind (write 0 r) push_back

-- The body of the loop. The byte behind a backslash is read in the same round there, and in the next
-- one here.
unfoldable pub read : ℕ → Reader → Option Reader
unfolding keep push
read c r =
    if r.escaped
    then keep c (record r { escaped = false })
    else if c == b' '
    then (if r.in_ticks then keep c r else push r)
    else if c == b'"'
    then some (record r { in_ticks = not r.in_ticks })
    else if c == b'\\'
    then some (record r { escaped = true })
    else keep c r

unfoldable pub read_all : Text → Reader → Option Reader
unfolding read
read_all [] r = some r
read_all (c ∷ cs) r = bind (read c r) (read_all cs)

abbrev pub get_command_line : Reader → Option (List Text)
get_command_line r = some r.command_line

unfoldable pub push_last : Reader → Option (List Text)
unfolding push
push_last r = if r.buffer_pos == 0 then some r.command_line else bind (push r) get_command_line

-- The end: a backslash that is the last byte takes the 0 behind the text.
unfoldable pub finish : Reader → Option (List Text)
unfolding keep push_last
finish r = bind (if r.escaped then keep 0 r else some r) push_last

-- `std::vector<char> buffer(length + 1)`
abbrev pub new_reader : ℕ → Reader
new_reader n = record {
  in_ticks = false;
  escaped = false;
  buffer = replicate (n + 1) 0;
  buffer_pos = 0;
  command_line = [];
}

unfoldable pub build_command_line : Text → Option (List Text)
unfolding read_all finish
build_command_line command = bind (read_all command (new_reader (length command))) finish
