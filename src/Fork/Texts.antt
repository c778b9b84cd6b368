-- ===== src/Fork/Texts.antt =====
-- What `_buildCommandLine` reads, apart from its buffer: the word so far is a text that grows.
use lunchbox.Prelude.{ℕ, Bool, true, false, not, List, [], ◌∷◌, ◌++◌, ◌==◌, if◌then◌else◌}
use lunchbox.Log.{Text}
use lunchbox.Fork.{c_string}

pub record Reading : Type 0 where
  pub in_ticks : Bool
  pub escaped : Bool
  pub word : Text
  pub command_line : List Text

abbrev pub keep_text : ℕ → Reading → Reading
keep_text c r = record r { word = r.word ++ (c ∷ []) }

abbrev pub push_text : Reading → Reading
push_text r = record r { word = []; command_line = r.command_line ++ (c_string r.word ∷ []) }

unfoldable pub read_text : ℕ → Reading → Reading
read_text c r =
    if r.escaped
    then keep_text c (record r { escaped = false })
    else if c == b' '
    then (if r.in_ticks then keep_text c r else push_text r)
    else if c == b'"'
    then record r { in_ticks = not r.in_ticks }
    else if c == b'\\'
    then record r { escaped = true }
    else keep_text c r

unfoldable pub read_texts : Text → Reading → Reading
read_texts [] r = r
read_texts (c ∷ cs) r = read_texts cs (read_text c r)

abbrev pub is_empty : Text → Bool
is_empty [] = true
is_empty (c ∷ cs) = false

abbrev pub push_last_text : Reading → List Text
push_last_text r = if is_empty r.word then r.command_line else (push_text r).command_line

unfoldable pub finish_text : Reading → List Text
finish_text r = push_last_text (if r.escaped then keep_text 0 r else r)

abbrev pub new_reading : Reading
new_reading = record { in_ticks = false; escaped = false; word = []; command_line = [] }

unfoldable pub words_of : Text → List Text
unfolding read_texts finish_text
words_of command = finish_text (read_texts command new_reading)
